-- ===== src/Star/StreamHub/Reading.antt =====
-- A connection as a stream of bytes: what was delivered is what Read returns.
use rain_net.Common.{
  ℕ, zero, suc, ◌≤◌, ◌≡◌, ◌≢◌, refl, sym, ap, subst, ◌∙◌, ◌⊎◌, inl, inr, Bool, true, false, none,
  some, List, [], ◌∷◌, ◌++◌, map, append_assoc, arith, if◌then◌else◌, Bool-cases, Option-cases,
  length, take, drop, take-append-drop, length-take, length-drop, Bytes,
}
use rain_net.Star.StreamHub.{
  end_of_stream, when_empty, read, read_pending, write_chunk, StreamConn, FeedItem, bytes, half,
  full, ReadResult, got, ended, waits, read_feed, chunks,
}

-- The bytes of the frames before the first close frame.
abbrev pub feed_text : List FeedItem → Bytes
feed_text [] = []
feed_text (half ∷ items) = []
feed_text (full ∷ items) = []
feed_text (bytes p ∷ items) = p ++ feed_text items

-- The bytes that the reader has still to get of what was delivered.
abbrev pub text : StreamConn → Bytes
text sc = if sc.read_eof then [] else sc.pending ++ feed_text sc.feed

-- Whether a close frame is among the frames.
abbrev pub has_close : List FeedItem → Bool
has_close [] = false
has_close (half ∷ items) = true
has_close (full ∷ items) = true
has_close (bytes p ∷ items) = has_close items

-- Whether the reader got a close frame, or has one still to get.
abbrev pub at_end : StreamConn → Bool
at_end sc = if sc.read_eof then true else has_close sc.feed

-- Not more than the buffer takes, and something where there is room: nothing is got when nothing is left.
abbrev pub Portion : ℕ → StreamConn → Bytes → Type 0
Portion n sc p = (length p ≤ n) × (text sc ≢ []) × ((n ≡ 0) ⊎ (p ≢ []))

-- What one Read of a buffer of n bytes is to do.
abbrev pub ReadLaw : ℕ → StreamConn → StreamConn × ReadResult → Type 0
ReadLaw n sc (sc', got p) =
    (text sc ≡ p ++ text sc') × Portion n sc p × (at_end sc' ≡ at_end sc) × (sc'.closed ≡ sc.closed)
ReadLaw n sc (sc', ended why) =
    (text sc ≡ [])
    × (((at_end sc ≡ true) × (why ≡ end_of_stream))
        ⊎ ((at_end sc ≡ false) × (sc.closed ≡ some why)))
    × (at_end sc' ≡ at_end sc)
    × (sc'.closed ≡ sc.closed)
ReadLaw n sc (sc', waits) = (text sc ≡ []) × (at_end sc ≡ false) × (sc.closed ≡ none)

-- Bytes that are cut at n, with what stands behind them.
cut_text : (n : ℕ) (p rest : Bytes) → p ++ rest ≡ take n p ++ (drop n p ++ rest)
cut_text n p rest =
    sym (ap (λ q. q ++ rest) (take-append-drop n p)) ∙ append_assoc (take n p) (drop n p) rest

take-bound : (n : ℕ) (p : Bytes) → length (take n p) ≤ n
take-bound n p = omega (arith, length-take n p)

take-Some : (n : ℕ) (b : ℕ) (bs : Bytes) → (n ≡ 0) ⊎ (take n (b ∷ bs) ≢ [])
take-Some zero b bs = inl refl
take-Some (suc n) b bs = inr (λ e. cc)

-- A portion of bytes that are not none.
portion_lem :
    (n : ℕ) (sc : StreamConn) (b : ℕ) (bs rest : Bytes)
    → text sc ≡ (b ∷ bs) ++ rest
    → Portion n sc (take n (b ∷ bs))
portion_lem n sc b bs rest left = (take-bound n (b ∷ bs), λ e. cc, take-Some n b bs)

empty_law :
    (n : ℕ) (sc : StreamConn)
    → sc.read_eof ≡ false
    → sc.pending ≡ []
    → ReadLaw n (record sc { feed = [] }) (record sc { feed = [] }, when_empty sc.closed)
empty_law n sc unread left = elim (Option-cases sc.closed) [
  | inl e ↦ rw e (rw (unread, left) refl, rw unread refl, refl)
  | inr (why, e) ↦ rw e (rw (unread, left) refl, inr (rw unread refl, refl), refl, refl)
]

-- A close frame at the front.
close_law :
    (n : ℕ) (sc : StreamConn) (item : FeedItem) (items : List FeedItem)
    → sc.read_eof ≡ false
    → sc.pending ≡ []
    → feed_text (item ∷ items) ≡ []
    → has_close (item ∷ items) ≡ true
    → ReadLaw n
        (record sc { feed = item ∷ items })
        (record sc { feed = items; read_eof = true }, ended end_of_stream)
close_law n sc item items unread left no_text closing =
    (rw (unread, left) no_text, inl (rw unread closing, refl), rw unread (sym closing), refl)

read_feed_law :
    (n : ℕ) (sc : StreamConn) (items : List FeedItem)
    → sc.read_eof ≡ false
    → sc.pending ≡ []
    → ReadLaw n (record sc { feed = items }) (read_feed n sc items)
unfolding read_feed
read_feed_law n sc [] unread left = empty_law n sc unread left
read_feed_law n sc (half ∷ items) unread left = close_law n sc half items unread left refl refl
read_feed_law n sc (full ∷ items) unread left = close_law n sc full items unread left refl refl
read_feed_law n sc (bytes [] ∷ items) unread left = read_feed_law n sc items unread left
read_feed_law n sc (bytes (b ∷ bs) ∷ items) unread left = (
  rw (unread, left) (cut_text n (b ∷ bs) (feed_text items)),
  portion_lem n (record sc { feed = bytes (b ∷ bs) ∷ items }) b bs (feed_text items)
      (rw (unread, left) refl),
  refl,
  refl,
)

read_pending_law :
    (n : ℕ) (sc : StreamConn) (p : Bytes)
    → sc.read_eof ≡ false
    → sc.pending ≡ p
    → ReadLaw n sc (read_pending n sc p)
unfolding read_pending
read_pending_law n sc [] unread left = read_feed_law n sc sc.feed unread left
read_pending_law n sc (b ∷ bs) unread left = (
  rw (unread, left) (cut_text n (b ∷ bs) (feed_text sc.feed)),
  portion_lem n sc b bs (feed_text sc.feed) (rw (unread, left) refl),
  refl,
  refl,
)

-- When delivered bytes are left, a Read of n bytes returns at most n of them, from the front, at least one
-- unless n is 0, and leaves the others for the next. When none are left it returns the end of the stream
-- if a close frame was delivered, else the reason for which this side is closed; it waits only when there
-- is neither. A close frame that was delivered is not forgotten.
pub read_law : (n : ℕ) (sc : StreamConn) → ReadLaw n sc (read n sc)
unfolding read
read_law n sc =
    let law = λ (b : Bool).
      ReadLaw n sc (if b then (sc, ended end_of_stream) else read_pending n sc sc.pending) in
    elim (Bool-cases sc.read_eof) [
      | inl e ↦ subst law (sym e) (
        ap (λ b. if b then [] else sc.pending ++ feed_text sc.feed) e,
        inl (ap (λ b. if b then true else has_close sc.feed) e, refl),
        refl,
        refl,
      )
      | inr e ↦ subst law (sym e) (read_pending_law n sc sc.pending e refl)
    ]

pub chunks-text :
    (fuel : ℕ) (p : Bytes) → length p ≤ fuel → feed_text (map bytes (chunks fuel p)) ≡ p
unfolding chunks
chunks-text zero [] h = refl
chunks-text zero (b ∷ bs) h = absurd (omega (arith, h))
chunks-text (suc fuel) [] h = refl
chunks-text (suc fuel) (b ∷ bs) h =
    ap (λ q. take write_chunk (b ∷ bs) ++ q)
      (chunks-text fuel (drop write_chunk (b ∷ bs))
        (omega (arith, h, length-drop write_chunk (b ∷ bs))))
    ∙ take-append-drop write_chunk (b ∷ bs)
