-- ===== src/Common/Results.antt =====
-- Go's (value, error) pairs as a result type, and io.ReadFull on the bytes that a stream will deliver.
use rain_net.Common.Tests.{leb, nat_beq, if◌then◌else◌}
use rain_net.Common.Lists.{
  length, take, drop, length-append, length-take, take-append-drop, take-append_length,
  drop-append_length,
}
use rain_net.Common.Words.{Bytes}
use Prim.Native.Nat.{ℕ, ◌<◌}
use mathlib.Core.Path.{◌≡◌, refl}
use mathlib.Core.Logic.{◌⊎◌, inl, inr}
use mathlib.Core.List.{◌++◌}
use native.Mathlib.Omega.{arith}

pub data Result {ℓ} (E : Type 0) (A : Type ℓ) : Type ℓ where
  ok : A → Result E A
  err : E → Result E A

infixl 5 ◌>>=◌ ◌>>◌
abbrev pub ◌>>=◌ {ℓ κ} :
    {E : Type 0} {A : Type ℓ} {B : Type κ} → Result E A → (A → Result E B) → Result E B
ok a >>= f = f a
err e >>= f = err e

abbrev pub ◌>>◌ {ℓ} : {E : Type 0} {B : Type ℓ} → Result E (Unit {0}) → Result E B → Result E B
m >> k = m >>= λ _. k

pub Result-cases {ℓ} :
    {E : Type 0} {A : Type ℓ} (r : Result E A) → ((a : A) × (r ≡ ok a)) ⊎ ((e : E) × (r ≡ err e))
Result-cases (ok a) = inl (a, refl)
Result-cases (err e) = inr (e, refl)

-- io.EOF when nothing was read, io.ErrUnexpectedEOF when the stream ends inside the buffer.
pub data IoError : Type 0 where
  eof unexpected_eof : IoError

module _ {E : Type 0} (io : IoError → E) where
  -- The error of a read that wants more than the `n` bytes that are left.
  abbrev pub short_read : ℕ → E
  short_read n = if nat_beq n 0 then io eof else io unexpected_eof

  -- io.ReadFull with a buffer of `n` bytes: what it read, and what the stream still has.
  unfoldable pub read_full : ℕ → Bytes → Result E (Bytes × Bytes)
  read_full n bs =
      if leb n (length bs) then ok (take n bs, drop n bs) else err (short_read (length bs))

  pub read_full-append : (xs ys : Bytes) → read_full (length xs) (xs ++ ys) ≡ ok (xs, ys)
  unfolding read_full
  read_full-append xs ys =
      ground (arith, length-append xs ys, take-append_length xs ys, drop-append_length xs ys)

  pub read_full-eq-ok :
      (n : ℕ) (bs xs rest : Bytes)
      → read_full n bs ≡ ok (xs, rest)
      → (bs ≡ xs ++ rest) × (length xs ≡ n)
  unfolding read_full
  read_full-eq-ok n bs xs rest h = ground (arith, take-append-drop n bs, length-take n bs)

  pub read_full_short :
      (n : ℕ) (bs : Bytes) → length bs < n → read_full n bs ≡ err (short_read (length bs))
  unfolding read_full
  read_full_short n bs h = ground arith
