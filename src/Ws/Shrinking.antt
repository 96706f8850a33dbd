-- ===== src/Ws/Shrinking.antt =====
-- readFrame takes bytes off the stream.
use rain_net.Common.{
  ℕ, ◌≤◌, ◌<◌, bit_and, ◌≡◌, ap, inl, inr, Bool, true, false, not, [], arith, ltb, nat_beq,
  if◌then◌else◌, Bool-cases, length, get_or, length-append, length-drop, Bytes, Result, ok, err,
  ◌>>=◌, Result-cases, read_full, read_full-eq-ok,
}
use rain_net.Ws.{max_message_size, Frame, Error, io, read_body, read_length, read_rest, read_frame}

-- A read that succeeds leaves at most `n` bytes.
abbrev Leaves : ℕ → {A : Type 0} → Result Error (A × Bytes) → Type 0
Leaves n (ok (a, rest)) = length rest ≤ n
Leaves n (err e) = Unit {0}

module _ {A B : Type 0} (n : ℕ) where
  Leaves-bind :
      (m : Result Error (A × Bytes)) (k : A × Bytes → Result Error (B × Bytes))
      → Leaves n m
      → ((a : A) (rest : Bytes) → length rest ≤ n → Leaves n (k (a, rest)))
      → Leaves n (m >>= k)
  Leaves-bind (ok (a, rest)) k h next = next a rest h
  Leaves-bind (err e) k h next = tt

read_full-Leaves : (n k : ℕ) (bs : Bytes) → length bs ≤ n → Leaves n (read_full io k bs)
unfolding read_full
read_full-Leaves n k bs h = ground (arith, length-drop k bs)

read_length-Leaves : (short n : ℕ) (bs : Bytes) → length bs ≤ n → Leaves n (read_length short bs)
unfolding read_length
read_length-Leaves short n bs h = elim (Bool-cases (nat_beq short 126)) [
  | inl t ↦ rw t (Leaves-bind n (read_full io 2 bs) _ (read_full-Leaves n 2 bs h) (λ a rest le. le))
  | inr t ↦ rw t (elim (Bool-cases (nat_beq short 127)) [
    | inl u ↦
        rw u (Leaves-bind n (read_full io 8 bs) _ (read_full-Leaves n 8 bs h) (λ a rest le. le))
    | inr u ↦ rw u h
  ])
]

key-Leaves :
    (masked : Bool) (n : ℕ) (bs : Bytes)
    → length bs ≤ n
    → Leaves n {A = Bytes} (if masked then read_full io 4 bs else ok ([], bs))
key-Leaves true n bs h = read_full-Leaves n 4 bs h
key-Leaves false n bs h = h

read_body-Leaves :
    (f : Frame) (masked : Bool) (k n : ℕ) (bs : Bytes)
    → length bs ≤ n
    → Leaves n (read_body f masked k bs)
unfolding read_body
read_body-Leaves f masked k n bs h = elim (Bool-cases (ltb max_message_size k)) [
  | inl t ↦ rw t tt
  | inr t ↦ rw t (
      Leaves-bind n (if masked then read_full io 4 bs else ok ([], bs)) _ (key-Leaves masked n bs h)
        (λ key rest le.
          Leaves-bind n (read_full io k rest) _ (read_full-Leaves n k rest le)
            (λ payload behind less. less)))
]

read_rest-Leaves :
    (first second n : ℕ) (bs : Bytes) → length bs ≤ n → Leaves n (read_rest first second bs)
unfolding read_rest
read_rest-Leaves first second n bs h = elim (Bool-cases (nat_beq (bit_and first 0x70) 0)) [
  | inl t ↦ rw t (
      Leaves-bind n (read_length (bit_and second 0x7f) bs) _
        (read_length-Leaves (bit_and second 0x7f) n bs h)
        (λ k rest le.
          read_body-Leaves
            (record {
              fin = not (nat_beq (bit_and first 0x80) 0);
              opcode = bit_and first 0x0f;
              payload = [];
            })
            (not (nat_beq (bit_and second 0x80) 0)) k n rest le))
  | inr t ↦ rw t tt
]

-- A frame takes at least its two head bytes.
pub read_frame_shorter :
    (bs : Bytes) (f : Frame) (rest : Bytes) → read_frame bs ≡ ok (f, rest) → length rest < length bs
unfolding read_frame
read_frame_shorter bs f rest h = elim (Result-cases (read_full {E = Error} io 2 bs)) [
  | inl ((head, behind), e) ↦
      let (cut, two) = read_full-eq-ok {E = Error} io 2 bs head behind e in
      let tail : read_rest (get_or head 0 0) (get_or head 1 0) behind ≡ ok (f, rest) = rw e at h in
      let le : length rest ≤ length behind = rw tail at (
        read_rest-Leaves (get_or head 0 0) (get_or head 1 0) (length behind) behind
          (omega arith)) in
      omega (arith, length-append head behind, ap length cut)
  | inr (error, e) ↦ absurd (ground arith)
]
