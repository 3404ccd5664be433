-- ===== src/Base/Bytes.antt =====
-- Byte strings: lists of numbers below 256.
use Prim.Native.Nat.{ℕ, ◌<◌, ◌%◌, ◌/◌, bit_xor}
use mathlib.Core.Path.{◌≡◌}
use mathlib.Core.List.{List, [], ◌∷◌, ◌++◌}
use native.Mathlib.Omega.{arith}
use syrup.Base.Bits.{bit_xor-lt-pow, bit_xor_fields}
use syrup.Base.Lists.{take, drop}
use syrup.Base.Word.{u8}
use Prim.Native.Nat.{zero, suc}

abbrev pub IsBytes : List ℕ → Type 0
IsBytes [] = Unit {0}
IsBytes (b ∷ bs) = (b < 256) × IsBytes bs

pub bit_xor-lt-byte : (a b : ℕ) → a < 256 → b < 256 → bit_xor a b < 256
bit_xor-lt-byte a b p q = bit_xor-lt-pow 8 a b p q

-- A cast to a byte commutes with the exclusive or by a byte.
pub u8-bit_xor : (a r : ℕ) → r < 256 → u8 (bit_xor a r) ≡ bit_xor (u8 a) r
u8-bit_xor a r h = ground (
  arith,
  bit_xor_fields 8 (a / 256) (a % 256) 0 r (omega arith) h,
  bit_xor-lt-byte (a % 256) r (omega arith) h,
)

pub append-IsBytes : (xs ys : List ℕ) → IsBytes xs → IsBytes ys → IsBytes (xs ++ ys)
append-IsBytes [] ys p q = q
append-IsBytes (x ∷ xs) ys p q = (p.0, append-IsBytes xs ys p.1 q)

pub take-IsBytes : (n : ℕ) (xs : List ℕ) → IsBytes xs → IsBytes (take n xs)
take-IsBytes zero xs p = tt
take-IsBytes (suc n) [] p = tt
take-IsBytes (suc n) (x ∷ xs) p = (p.0, take-IsBytes n xs p.1)

pub drop-IsBytes : (n : ℕ) (xs : List ℕ) → IsBytes xs → IsBytes (drop n xs)
drop-IsBytes zero xs p = p
drop-IsBytes (suc n) [] p = tt
drop-IsBytes (suc n) (x ∷ xs) p = drop-IsBytes n xs p.1
