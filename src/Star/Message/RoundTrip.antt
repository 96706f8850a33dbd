-- ===== src/Star/Message/RoundTrip.antt =====
-- What ReadMessage makes of the frames that WriteMessage sends, and of any other bytes.
use rain_net.Common.{
  append-split, unexpected_eof, eof, ap₂, subst, get_or, ℕ, ◌+◌, ◌^◌, ◌≤◌, ◌<◌, ◌≡◌, refl, ap, ◌∙◌,
  ◌⊎◌, inl, inr, [], ◌∷◌, ◌++◌, arith, ltb, length, length-append, Bytes, put_u32, get_u32-put, ok,
  err, IsByte, All, get_u32, read_full, short_read, read_full-append, read_full-eq-ok,
  read_full_short, Bool-cases, Result-cases,
}
use rain_net.Star.Message.{
  Message, Error, io, IsSendable, header, header_size, max_payload_size, protocol_version,
  write_message, read_message, read_payload, read_versioned, word_at,
}

-- WriteMessage accepts exactly the payloads within the limit, and its frame is header and payload.
pub write_message_lem : (m : Message) → IsSendable m → write_message m ≡ ok (header m ++ m.payload)
unfolding write_message
write_message_lem m h = ground (arith, h.payload_fits)

pub length-write :
    (m : Message) (f : Bytes) → write_message m ≡ ok f → length f ≡ header_size + length m.payload
unfolding write_message header
length-write m f h = ground (arith, length-append (header m) m.payload)

read_payload-append :
    (m : Message) (rest : Bytes)
    → IsSendable m
    → read_payload (header m) (length m.payload) (m.payload ++ rest) ≡ ok (m, rest)
unfolding read_payload header
read_payload-append m rest h =
    ground (
      arith,
      h.payload_fits,
      h.id_fits,
      read_full-append io m.payload rest,
      get_u32-put m.stream_id,
    )

length_word : (m : Message) → IsSendable m → word_at (header m) 8 ≡ length m.payload
unfolding header
length_word m h = omega (arith, h.payload_fits)

read_versioned-header :
    (m : Message) (rest : Bytes)
    → IsSendable m
    → read_versioned (header m) rest ≡ read_payload (header m) (length m.payload) rest
unfolding read_versioned header
read_versioned-header m rest h = ap (λ n. read_payload (header m) n rest) (length_word m h)

-- The header alone decides what is done with the rest of the stream.
read_message-header :
    (m : Message) (rest : Bytes)
    → IsSendable m
    → read_message (header m ++ rest) ≡ read_payload (header m) (length m.payload) rest
unfolding read_message header
read_message-header m rest h =
    rw (read_full-append io (header m) rest) (read_versioned-header m rest h)

-- A message that fits the header's fields, written and read back, is the same message, and what
-- stands behind its frame in the stream is left there.
pub read-write :
    (m : Message) (rest f : Bytes)
    → IsSendable m
    → write_message m ≡ ok f
    → read_message (f ++ rest) ≡ ok (m, rest)
unfolding header
read-write m rest f h e =
    let frame : f ≡ header m ++ m.payload = cc (write_message_lem m h) in
    rw frame (read_message-header m (m.payload ++ rest) h ∙ read_payload-append m rest h)

-- The 12 bytes of a header, with `r` in the byte that the format reserves.
abbrev pub header_with : ℕ → Message → Bytes
header_with r m =
    protocol_version ∷ m.type ∷ m.flags ∷ r ∷ (put_u32 m.stream_id ++ put_u32 (length m.payload))

put_u32-get :
    (a b c d : ℕ)
    → IsByte a
    → IsByte b
    → IsByte c
    → IsByte d
    → (put_u32 (get_u32 a b c d) ≡ a ∷ b ∷ c ∷ d ∷ []) × (get_u32 a b c d < 2 ^ 32)
put_u32-get a b c d ha hb hc hd = ground arith

All-append_left {κ} : (P : ℕ → Type κ) (xs ys : Bytes) → All P (xs ++ ys) → All P xs
All-append_left P [] ys h = tt
All-append_left P (x ∷ xs) ys h = (h.0, All-append_left P xs ys h.1)

read_payload-eq-ok :
    (head rest rest' : Bytes) (n : ℕ) (m : Message)
    → read_payload head n rest ≡ ok (m, rest')
    → (m.type ≡ get_or head 1 0)
      × (m.flags ≡ get_or head 2 0)
      × (m.stream_id ≡ word_at head 4)
      × (length m.payload ≡ n)
      × (n ≤ max_payload_size)
      × (rest ≡ m.payload ++ rest')
unfolding read_payload
read_payload-eq-ok head rest rest' n m h = elim (Result-cases (read_full io n rest)) [
  | inl ((p, r), e) ↦ ground (arith, read_full-eq-ok io n rest p r e)
  | inr (x, e) ↦ ground arith
]

read_versioned-eq-ok :
    (head rest rest' : Bytes) (m : Message)
    → length head ≡ header_size
    → All IsByte head
    → read_versioned head rest ≡ ok (m, rest')
    → IsSendable m × ((r : ℕ) × (head ≡ header_with r m) × (rest ≡ m.payload ++ rest'))
unfolding read_versioned
read_versioned-eq-ok (v ∷ t ∷ f ∷ r ∷ a ∷ b ∷ c ∷ d ∷ e ∷ g ∷ i ∷ j ∷ []) rest rest' m n hs h =
    let head : Bytes = v ∷ t ∷ f ∷ r ∷ a ∷ b ∷ c ∷ d ∷ e ∷ g ∷ i ∷ j ∷ [] in
    let body = read_payload-eq-ok head rest rest' (get_u32 e g i j) m (ground arith) in
    let version : v ≡ 1 = ground arith in
    let id = put_u32-get a b c d (omega arith) (omega arith) (omega arith) (omega arith) in
    let len = put_u32-get e g i j (omega arith) (omega arith) (omega arith) (omega arith) in
    (ground (arith, body, id, len), (r, ground (arith, body, version, id, len), body.5))
read_versioned-eq-ok _ rest rest' m n hs h = absurd (omega arith)

-- Whatever ReadMessage accepts was a frame: the message is within the limits, and the stream was
-- its header, with any reserved byte, then its payload, then what is left.
pub read_message-eq-ok :
    (bs rest : Bytes) (m : Message)
    → All IsByte bs
    → read_message bs ≡ ok (m, rest)
    → IsSendable m × ((r : ℕ) × (bs ≡ header_with r m ++ (m.payload ++ rest)))
unfolding read_message
read_message-eq-ok bs rest m hs h = elim (Result-cases (read_full io header_size bs)) [
  | inl ((head, tail), e) ↦
      let (cut, len) = read_full-eq-ok io header_size bs head tail e in
      let bytes = All-append_left IsByte head tail (subst (All IsByte) cut hs) in
      let (fits, framed) = read_versioned-eq-ok head tail rest m len bytes (rw e at h) in
      (fits, (framed.0, cut ∙ ap₂ ◌++◌ framed.1 framed.2))
  | inr (x, e) ↦ cc
]

short_cases :
    (bs : Bytes)
    → (◌≡◌ {A = Error} (short_read io (length bs)) (io eof))
      ⊎ (◌≡◌ {A = Error} (short_read io (length bs)) (io unexpected_eof))
short_cases [] = inl refl
short_cases (b ∷ bs) = inr (ground arith)

read_payload_short :
    (head rest : Bytes) (n : ℕ)
    → length rest < n
    → n ≤ max_payload_size
    → read_payload head n rest ≡ err (short_read io (length rest))
unfolding read_payload
read_payload_short head rest n h fits = ground (arith, read_full_short io n rest h)

-- A stream that ends inside a frame never yields a message: ReadMessage answers io.EOF or
-- io.ErrUnexpectedEOF, for every proper front of the frame of a sendable message.
pub read_truncated :
    (m : Message) (front back : Bytes) (x : ℕ)
    → IsSendable m
    → write_message m ≡ ok (front ++ (x ∷ back))
    → (read_message front ≡ err (io eof)) ⊎ (read_message front ≡ err (io unexpected_eof))
unfolding read_message header
read_truncated m front back x h e = elim (Bool-cases (ltb (length front) header_size)) [
  | inl short ↦
      rw (read_full_short io header_size front (ground arith))
        (elim (short_cases front) [ inl p ↦ inl (ap err p) | inr p ↦ inr (ap err p) ])
  | inr long ↦
      let frame : header m ++ m.payload ≡ front ++ (x ∷ back) = cc (write_message_lem m h) in
      let (ms, p, q) = append-split (header m) m.payload front (x ∷ back) frame (ground arith) in
      let less : length ms < length m.payload =
        omega (arith, ap length q, length-append ms (x ∷ back)) in
      let cut =
        read_message-header m ms h ∙ read_payload_short (header m) ms _ less h.payload_fits in
      rw (p, cut) (elim (short_cases ms) [ inl r ↦ inl (ap err r) | inr r ↦ inr (ap err r) ])
]

-- A message takes at least the 12 bytes of its header off the stream.
pub read_message_consumes :
    (bs rest : Bytes) (m : Message)
    → read_message bs ≡ ok (m, rest)
    → length rest + header_size ≤ length bs
unfolding read_message read_versioned
read_message_consumes bs rest m h = elim (Result-cases (read_full io header_size bs)) [
  | inl ((head, tail), e) ↦
      let (cut, len) = read_full-eq-ok io header_size bs head tail e in
      ground (
        arith,
        ap length cut,
        length-append head tail,
        length-append m.payload rest,
        read_payload-eq-ok head tail rest (word_at head 8) m,
      )
  | inr (x, e) ↦ ground arith
]
