-- ===== src/Common/Words.antt =====
-- Bytes, big-endian words, and Go strings as lists of bytes.
use Prim.Native.Nat.{ℕ, ◌+◌, ◌*◌, ◌/◌, ◌%◌, ◌^◌, ◌<◌}
use Prim.Native.String.{String}
use Prim.Native.Char.{code}
use mathlib.Core.Path.{◌≡◌}
use mathlib.Core.List.{List, [], ◌∷◌}
use native.Mathlib.Omega.{arith}

abbrev pub IsByte : ℕ → Type 0
IsByte b = b < 256

abbrev pub Bytes : Type 0
Bytes = List ℕ

-- A Go string is its bytes; `codes` gives those of an ASCII literal.
abbrev pub Str : Type 0
Str = List ℕ

abbrev pub codes : String → Str
codes String.[] = []
codes (String.◌∷◌ c s) = code c ∷ codes s

-- encoding/binary: PutUint16, PutUint32 and their readers, big endian.
abbrev pub put_u16 : ℕ → Bytes
put_u16 x = x / 256 % 256 ∷ x % 256 ∷ []

abbrev pub get_u16 : ℕ → ℕ → ℕ
get_u16 a b = a * 256 + b

abbrev pub put_u32 : ℕ → Bytes
put_u32 x = x / 2 ^ 24 % 256 ∷ x / 2 ^ 16 % 256 ∷ x / 2 ^ 8 % 256 ∷ x % 256 ∷ []

abbrev pub get_u32 : ℕ → ℕ → ℕ → ℕ → ℕ
get_u32 a b c d = ((a * 256 + b) * 256 + c) * 256 + d

pub get_u16-put : (x : ℕ) → x < 2 ^ 16 → get_u16 (x / 256 % 256) (x % 256) ≡ x
get_u16-put x h = omega arith

pub get_u32-put :
    (x : ℕ)
    → x < 2 ^ 32
    → get_u32 (x / 2 ^ 24 % 256) (x / 2 ^ 16 % 256) (x / 2 ^ 8 % 256) (x % 256) ≡ x
get_u32-put x h = omega arith

abbrev pub put_u64 : ℕ → Bytes
put_u64 x = x / 2 ^ 56 % 256 ∷ x / 2 ^ 48 % 256 ∷ x / 2 ^ 40 % 256 ∷ x / 2 ^ 32 % 256 ∷ put_u32 x

abbrev pub get_u64 : ℕ → ℕ → ℕ → ℕ → ℕ → ℕ → ℕ → ℕ → ℕ
get_u64 a b c d e f g h = get_u32 a b c d * 2 ^ 32 + get_u32 e f g h

pub get_u64-put :
    (x : ℕ)
    → x < 2 ^ 64
    → get_u64
        (x / 2 ^ 56 % 256)
        (x / 2 ^ 48 % 256)
        (x / 2 ^ 40 % 256)
        (x / 2 ^ 32 % 256)
        (x / 2 ^ 24 % 256)
        (x / 2 ^ 16 % 256)
        (x / 2 ^ 8 % 256)
        (x % 256)
      ≡ x
get_u64-put x h = omega arith
