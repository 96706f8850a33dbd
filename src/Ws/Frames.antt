-- ===== src/Ws/Frames.antt =====
-- A frame that ws.go writes is the frame that it reads.
use rain_net.Common.{
  ℕ, suc, ◌%◌, ◌^◌, ◌≤◌, ◌<◌, bit_and, bit_or, ◌≡◌, refl, ap, ap₂, Bool, [], ◌∷◌, ◌++◌, arith,
  length, get_or, Bytes, put_u16, put_u64, get_u64-put, get_u16-put, ok, read_full-append, subst,
  inl, inr, true, false, append_assoc, ltb, leb, if◌then◌else◌, Bool-cases, take-append_length, err,
  read_full, ◌∙◌, not, nat_beq,
}
use rain_net.Ws.{
  frame_bytes, read_rest, read_frame, Error, frame_too_large, first_byte, max_message_size,
  read_body, head_bytes, Frame, io, mask_from, mask_bit, length_head, head_len, read_length,
}
use rain_net.Ws.Bits.{
  second-mask, first-fin, first-opcode, first-reserved, bit_xor-twice, second-length,
}

length-mask_from : (i : ℕ) (key bs : Bytes) → length (mask_from i key bs) ≡ length bs
unfolding mask_from
length-mask_from i key [] = refl
length-mask_from i key (x ∷ xs) = ap suc (length-mask_from (suc i) key xs)

-- Unmasking with the same key undoes the mask.
mask_from-twice : (i : ℕ) (key bs : Bytes) → mask_from i key (mask_from i key bs) ≡ bs
unfolding mask_from
mask_from-twice i key [] = refl
mask_from-twice i key (x ∷ xs) =
    ap₂ ◌∷◌ (bit_xor-twice x (get_or key (i % 4) 0)) (mask_from-twice (suc i) key xs)

-- What the peer needs of a frame: a four-bit opcode, and four bytes of key from a client.
pub record IsSendable (client : Bool) (key : Bytes) (f : Frame) : Type 0 where
  pub opcode_fits : f.opcode < 16
  pub key_fits : length key ≡ 4
  pub payload_fits : length f.payload < 2 ^ 64

-- The extended length bytes behind a second byte whose low seven bits are `short`.
record Lengths (client : Bool) (n : ℕ) : Type 0 where
  short : ℕ
  ext : Bytes
  short_fits : short < 128
  written : length_head client n ≡ bit_or (mask_bit client) short ∷ ext
  counted : head_len (bit_or (mask_bit client) short) ≡ suc (suc (length ext))
  read_back : (rest : Bytes) → read_length short (ext ++ rest) ≡ ok (n, rest)

short-Lengths : (client : Bool) (n : ℕ) → n < 126 → Lengths client n
unfolding length_head read_length
short-Lengths client n h =
    let low : bit_and (bit_or (mask_bit client) n) 0x7f ≡ n =
      second-length client n (omega arith) in
    let byte : n % 256 ≡ n = omega arith in
    record {
      short = n;
      ext = [];
      short_fits = omega arith;
      written = ground (arith, byte);
      counted = rw low (ground arith);
      read_back = λ rest. ground arith;
    }

-- An extended length that reads back, behind a second byte that says how it is written.
module _ (client : Bool) (n : ℕ) (long : ¬ (n < 126)) where
  middle-Lengths : n ≤ 0xffff → Lengths client n
  unfolding length_head read_length
  middle-Lengths h = record {
    short = 126;
    ext = put_u16 n;
    short_fits = omega arith;
    written = ground arith;
    counted = rw (second-length client 126 (omega arith)) refl;
    read_back = λ rest. rw (read_full-append io (put_u16 n) rest, get_u16-put n (omega arith)) refl;
  }

  long-Lengths : ¬ (n ≤ 0xffff) → n < 2 ^ 64 → Lengths client n
  unfolding length_head read_length
  long-Lengths h fits = record {
    short = 127;
    ext = put_u64 n;
    short_fits = omega arith;
    written = ground arith;
    counted = rw (second-length client 127 (omega arith)) refl;
    read_back = λ rest. rw (read_full-append io (put_u64 n) rest, get_u64-put n fits) refl;
  }

lengths : (client : Bool) (n : ℕ) → n < 2 ^ 64 → Lengths client n
lengths client n fits = elim (Bool-cases (ltb n 126)) [
  | inl short ↦ short-Lengths client n (ground arith)
  | inr long ↦ elim (Bool-cases (leb n 0xffff)) [
    | inl middle ↦ middle-Lengths client n (ground arith) (ground arith)
    | inr more ↦ long-Lengths client n (ground arith) (ground arith) fits
  ]
]

-- The head is as long as it says.
head_bytes_lem :
    (client : Bool) (f : Frame) (l : Lengths client (length f.payload))
    → head_bytes client f ≡ first_byte f.fin f.opcode ∷ (bit_or (mask_bit client) l.short ∷ l.ext)
unfolding head_bytes
head_bytes_lem client f l =
    let first : ℕ = first_byte f.fin f.opcode in
    let second : ℕ = bit_or (mask_bit client) l.short in
    rw (l.written, l.counted) (ap (λ t. first ∷ (second ∷ t)) (take-append_length l.ext _))

-- Behind the lengths: the key that a client writes, and the payload.
abbrev body_bytes : Bool → Bytes → Bytes → Bytes
body_bytes client key payload = if client then key ++ mask_from 0 key payload else payload

read_full-known :
    (n : ℕ) (xs ys : Bytes) → length xs ≡ n → read_full {E = Error} io n (xs ++ ys) ≡ ok (xs, ys)
read_full-known n xs ys e =
    subst (λ k. read_full {E = Error} io k (xs ++ ys) ≡ ok (xs, ys)) e (read_full-append io xs ys)

module _ (key : Bytes) (f : Frame) (base : Frame) (rest : Bytes) where
  read_body-client :
      length key ≡ 4
      → length f.payload ≤ max_message_size
      → read_body base true (length f.payload) (body_bytes true key f.payload ++ rest)
        ≡ ok (record base { payload = f.payload }, rest)
  unfolding read_body
  read_body-client four fits =
      let masked : Bytes = mask_from 0 key f.payload in
      let small : ltb max_message_size (length f.payload) ≡ false = ground arith in
      rw
        (
          small,
          append_assoc key masked rest,
          read_full-known 4 key (masked ++ rest) four,
          read_full-known (length f.payload) masked rest (length-mask_from 0 key f.payload),
          mask_from-twice 0 key f.payload,
        )
        refl

  read_body-server :
      length f.payload ≤ max_message_size
      → read_body base false (length f.payload) (body_bytes false key f.payload ++ rest)
        ≡ ok (record base { payload = f.payload }, rest)
  unfolding read_body
  read_body-server fits =
      let small : ltb max_message_size (length f.payload) ≡ false = ground arith in
      rw (small, read_full-append {E = Error} io f.payload rest) refl

  read_body_large :
      (client : Bool)
      → max_message_size < length f.payload
      → read_body base client (length f.payload) (body_bytes client key f.payload ++ rest)
        ≡ err (frame_too_large (length f.payload))
  unfolding read_body
  read_body_large client large = ground arith

frame_bytes_lem :
    (client : Bool) (key : Bytes) (f : Frame)
    → frame_bytes client key f ≡ head_bytes client f ++ body_bytes client key f.payload
unfolding frame_bytes
frame_bytes_lem true key f = refl
frame_bytes_lem false key f = refl

mask_bit_set : (b : Bool) → not (nat_beq (mask_bit b) 0) ≡ b
mask_bit_set true = refl
mask_bit_set false = refl

module _ (client : Bool) (key : Bytes) (f : Frame) (rest : Bytes)
    (s : IsSendable client key f) where
  abbrev bare : Frame
  bare = record f { payload = [] }

  -- The head of a frame reads back, whatever its length encoding.
  read_head :
      Lengths client (length f.payload)
      → read_frame (frame_bytes client key f ++ rest)
        ≡ read_body bare client (length f.payload) (body_bytes client key f.payload ++ rest)
  unfolding read_frame read_rest read_body
  read_head l =
      let first : ℕ = first_byte f.fin f.opcode in
      let second : ℕ = bit_or (mask_bit client) l.short in
      let body : Bytes = body_bytes client key f.payload in
      let layout : frame_bytes client key f ++ rest ≡ first ∷ (second ∷ (l.ext ++ (body ++ rest))) =
        rw (frame_bytes_lem client key f, head_bytes_lem client f l)
          (ap (λ t. first ∷ (second ∷ t)) (append_assoc l.ext body rest)) in
      rw
        (
          layout,
          read_full-append {E = Error} io (first ∷ second ∷ []) (l.ext ++ (body ++ rest)),
          first-reserved f.fin f.opcode s.opcode_fits,
          second-length client l.short l.short_fits,
          l.read_back (body ++ rest),
          first-opcode f.fin f.opcode s.opcode_fits,
          first-fin f.fin f.opcode s.opcode_fits,
          second-mask client l.short l.short_fits,
          mask_bit_set client,
          mask_bit_set f.fin,
        )
        refl

-- A frame with any payload the reader allows, written by either side and followed by any bytes, is read
-- as that frame, unmasked, and the reader stops at those bytes.
pub read_frame-frame_bytes :
    (client : Bool) (key : Bytes) (f : Frame) (rest : Bytes)
    → IsSendable client key f
    → length f.payload ≤ max_message_size
    → read_frame (frame_bytes client key f ++ rest) ≡ ok (f, rest)
read_frame-frame_bytes client key f rest s fits =
    read_head client key f rest s (lengths client (length f.payload) s.payload_fits) ∙ body client
  where
    body :
        (b : Bool)
        → read_body
            (record f { payload = [] })
            b
            (length f.payload)
            (body_bytes b key f.payload ++ rest)
          ≡ ok (f, rest)
    body true = read_body-client key f (record f { payload = [] }) rest s.key_fits fits
    body false = read_body-server key f (record f { payload = [] }) rest fits

-- A frame longer than the limit, which the writer does not check, is refused by the reader.
pub read_frame_large :
    (client : Bool) (key : Bytes) (f : Frame) (rest : Bytes)
    → IsSendable client key f
    → max_message_size < length f.payload
    → read_frame (frame_bytes client key f ++ rest) ≡ err (frame_too_large (length f.payload))
read_frame_large client key f rest s large =
    read_head client key f rest s (lengths client (length f.payload) s.payload_fits)
    ∙ read_body_large key f (record f { payload = [] }) rest client large
