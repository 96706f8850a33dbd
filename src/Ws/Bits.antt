-- ===== src/Ws/Bits.antt =====
-- What ws.go does with single bits of the two head bytes, and with the mask.
use rain_net.Common.{
  ℕ, zero, suc, ◌/◌, ◌≤◌, ◌≡◌, refl, arith, ◌+◌, ◌*◌, ◌%◌, ◌<◌, bit_and, bit_xor, ap, ◌∙◌, Bool,
  true, ◌&&◌, nat_beq, nat_beq_iff, bit_or, false, sym, subst, inl, inr, Bool-cases,
}
use rain_net.Ws.{first_byte, mask_bit}
use Prim.Native.Nat.{differ}
use rain_net.Common.Bits.{bit_xor_step}

differ_digits : (a b : ℕ) → a < 2 → b < 2 → differ a b ≡ (a + b) % 2
differ_digits zero zero p q = refl
differ_digits zero (suc zero) p q = refl
differ_digits (suc zero) zero p q = refl
differ_digits (suc zero) (suc zero) p q = refl
differ_digits (suc (suc a)) b p q = absurd (omega arith)
differ_digits zero (suc (suc b)) p q = absurd (omega arith)
differ_digits (suc zero) (suc (suc b)) p q = absurd (omega arith)

bit_xor_digits : (a b : ℕ) → bit_xor a b ≡ bit_xor (a / 2) (b / 2) * 2 + (a % 2 + b % 2) % 2
bit_xor_digits a b =
    bit_xor_step a b
    ∙ ap (◌+◌ (bit_xor (a / 2) (b / 2) * 2))
        (differ_digits (a % 2) (b % 2) (omega arith) (omega arith))

twice_fuel : (n a b : ℕ) → a ≤ n → b ≤ n → bit_xor (bit_xor a b) b ≡ a
twice_fuel zero zero zero p q = refl
twice_fuel zero (suc a) b p q = absurd (omega arith)
twice_fuel zero zero (suc b) p q = absurd (omega arith)
twice_fuel (suc n) a b p q = omega (
  arith,
  bit_xor_digits a b,
  bit_xor_digits (bit_xor a b) b,
  ap (λ x. bit_xor x (b / 2)) (halves),
  twice_fuel n (a / 2) (b / 2) (omega arith) (omega arith),
)
  where
    halves : bit_xor a b / 2 ≡ bit_xor (a / 2) (b / 2)
    halves = omega (arith, bit_xor_digits a b)

-- Masking a byte twice with one key gives it back.
pub bit_xor-twice : (a b : ℕ) → bit_xor (bit_xor a b) b ≡ a
bit_xor-twice a b = twice_fuel (a + b) a b (omega arith) (omega arith)

-- Whether two functions have the same values at all the numbers below a bound.
agree : (ℕ → ℕ) → (ℕ → ℕ) → ℕ → Bool
agree f g zero = true
agree f g (suc bound) = agree f g bound && nat_beq (f bound) (g bound)

-- Each equation between bytes below is a table.
by_table : (bound : ℕ) (f g : ℕ → ℕ) → agree f g bound ≡ true → (x : ℕ) → x < bound → f x ≡ g x
unfolding agree
by_table zero f g table x below = absurd (omega arith)
by_table (suc bound) f g table x below = elim (Bool-cases (nat_beq x bound)) [
  | inl last ↦ subst (λ y. f y ≡ g y) (sym ((nat_beq_iff x bound).0 last)) (ground arith)
  | inr earlier ↦ by_table bound f g (ground arith) x (ground arith)
]

-- The first byte, with and without FIN.
pub first-opcode : (fin : Bool) (op : ℕ) → op < 16 → bit_and (first_byte fin op) 0x0f ≡ op
unfolding agree
first-opcode true = by_table 16 (λ x. bit_and (bit_or x 0x80) 0x0f) (λ x. x) refl
first-opcode false = by_table 16 (λ x. bit_and x 0x0f) (λ x. x) refl

pub first-reserved : (fin : Bool) (op : ℕ) → op < 16 → bit_and (first_byte fin op) 0x70 ≡ 0
unfolding agree
first-reserved true = by_table 16 (λ x. bit_and (bit_or x 0x80) 0x70) (λ x. 0) refl
first-reserved false = by_table 16 (λ x. bit_and x 0x70) (λ x. 0) refl

pub first-fin : (fin : Bool) (op : ℕ) → op < 16 → bit_and (first_byte fin op) 0x80 ≡ mask_bit fin
unfolding agree
first-fin true = by_table 16 (λ x. bit_and (bit_or x 0x80) 0x80) (λ x. 0x80) refl
first-fin false = by_table 16 (λ x. bit_and x 0x80) (λ x. 0) refl

-- The second byte, with and without MASK.
pub second-length :
    (client : Bool) (n : ℕ) → n < 128 → bit_and (bit_or (mask_bit client) n) 0x7f ≡ n
unfolding agree
second-length true = by_table 128 (λ n. bit_and (bit_or 0x80 n) 0x7f) (λ x. x) refl
second-length false = by_table 128 (λ n. bit_and (bit_or 0 n) 0x7f) (λ x. x) refl

pub second-mask :
    (client : Bool) (n : ℕ) → n < 128 → bit_and (bit_or (mask_bit client) n) 0x80 ≡ mask_bit client
unfolding agree
second-mask true = by_table 128 (λ n. bit_and (bit_or 0x80 n) 0x80) (λ x. 0x80) refl
second-mask false = by_table 128 (λ n. bit_and (bit_or 0 n) 0x80) (λ x. 0) refl
