-- ===== src/Base/Bits.antt =====
-- Laws of `^`, `|` and `&` on words of any width, from the digit recursion of the native operations.
use Prim.Native.Nat.{
  ℕ, zero, suc, ◌+◌, ◌*◌, ◌/◌, ◌%◌, ◌^◌, ◌≤◌, ◌<◌, max, min, bit_and, bit_or, bit_xor, digits,
  bitwise, differ, bit_or-bitwise, bit_xor-bitwise, bit_and-bitwise,
}
use mathlib.Core.Path.{◌≡◌, refl, ap, ◌∙◌}
use mathlib.Core.Bool.{Bool, true, ◌&&◌}
use native.Mathlib.Nat.{pow-suc}
use native.Mathlib.Omega.{arith}
use native.Mathlib.Decide.{dec_lt}
use syrup.Base.Tests.{◌==◌, ==_iff}

-- The digits of the native operations, from the rounds that they are given: at least as many rounds
-- as the first number says leave nothing to do.
module _ (unit : ℕ → ℕ) (op : ℕ → ℕ → ℕ) where
  spare_round :
      (rounds x y : ℕ) → x ≤ rounds → digits unit op (suc rounds) x y ≡ digits unit op rounds x y
  spare_round zero zero y enough = refl
  spare_round (suc rounds) zero y enough = refl
  spare_round (suc rounds) (suc x) y enough =
      ap (λ high. high * 2 + op (suc x % 2) (y % 2))
        (spare_round rounds (suc x / 2) (y / 2) (omega arith))
  spare_round zero (suc x) y enough = absurd (omega arith)

  enough_rounds :
      (given rounds x y : ℕ)
      → rounds ≤ given
      → x ≤ rounds
      → digits unit op given x y ≡ digits unit op rounds x y
  enough_rounds zero zero x y more enough = refl
  enough_rounds zero (suc rounds) x y more enough = absurd (omega arith)
  enough_rounds (suc given) rounds x y more enough = elim (dec_lt given rounds) [
    | yes all ↦
        let same : suc given ≡ rounds = omega arith in ap (λ (r : ℕ). digits unit op r x y) same
    | no spare ↦
        spare_round given x y (omega arith) ∙ enough_rounds given rounds x y (omega arith) enough
  ]

  lowest_digit :
      (x y : ℕ)
      → bitwise unit op (suc x) y ≡ op (suc x % 2) (y % 2) + 2 * bitwise unit op (suc x / 2) (y / 2)
  lowest_digit x y =
      omega (arith, enough_rounds x (suc x / 2) (suc x / 2) (y / 2) (omega arith) (omega arith))

pub bit_xor_step : (x y : ℕ) → bit_xor x y ≡ differ (x % 2) (y % 2) + 2 * bit_xor (x / 2) (y / 2)
bit_xor_step (suc x) y = simp bit_xor-bitwise (lowest_digit (λ d. d) differ x y)
bit_xor_step zero y = simp bit_xor-bitwise (omega arith)

pub bit_or_step : (x y : ℕ) → bit_or x y ≡ max (x % 2) (y % 2) + 2 * bit_or (x / 2) (y / 2)
bit_or_step (suc x) y = simp bit_or-bitwise (lowest_digit (λ d. d) max x y)
bit_or_step zero y = simp bit_or-bitwise (omega arith)

-- The exclusive or of two digits, with what it cancels.
differ_digits :
    (x y : ℕ)
    → x < 2
    → y < 2
    → (differ x y < 2) × (differ (differ x y) y ≡ x) × (differ x y ≡ differ y x)
differ_digits zero zero p q = (omega arith, refl, refl)
differ_digits zero (suc zero) p q = (omega arith, refl, refl)
differ_digits (suc zero) zero p q = (omega arith, refl, refl)
differ_digits (suc zero) (suc zero) p q = (omega arith, refl, refl)
differ_digits (suc (suc x)) y p q = absurd (omega arith)
differ_digits zero (suc (suc y)) p q = absurd (omega arith)
differ_digits (suc zero) (suc (suc y)) p q = absurd (omega arith)

low_digits :
    (a b : ℕ)
    → (differ (a % 2) (b % 2) < 2)
      × (differ (differ (a % 2) (b % 2)) (b % 2) ≡ a % 2)
      × (differ (a % 2) (b % 2) ≡ differ (b % 2) (a % 2))
low_digits a b = differ_digits (a % 2) (b % 2) (omega arith) (omega arith)

halves :
    (a b : ℕ)
    → (bit_xor a b / 2 ≡ bit_xor (a / 2) (b / 2)) × (bit_xor a b % 2 ≡ differ (a % 2) (b % 2))
halves a b = omega (arith, bit_xor_step a b, low_digits a b)

-- Each law goes from the halves to the whole, with a bound on the numbers as fuel.
bit_xor_cancel_fuel : (n a b : ℕ) → a ≤ n → b ≤ n → bit_xor (bit_xor a b) b ≡ a
bit_xor_cancel_fuel zero zero zero p q = refl
bit_xor_cancel_fuel zero (suc a) b p q = absurd (omega arith)
bit_xor_cancel_fuel zero zero (suc b) p q = absurd (omega arith)
bit_xor_cancel_fuel (suc n) a b p q = ground (
  arith,
  bit_xor_step (bit_xor a b) b,
  halves a b,
  low_digits a b,
  bit_xor_cancel_fuel n (a / 2) (b / 2) (omega arith) (omega arith),
)

-- A second exclusive or with the same word undoes the first.
pub bit_xor_cancel : (a b : ℕ) → bit_xor (bit_xor a b) b ≡ a
bit_xor_cancel a b = bit_xor_cancel_fuel (a + b) a b (omega arith) (omega arith)

bit_xor_comm_fuel : (n a b : ℕ) → a ≤ n → b ≤ n → bit_xor a b ≡ bit_xor b a
bit_xor_comm_fuel zero zero zero p q = refl
bit_xor_comm_fuel zero (suc a) b p q = absurd (omega arith)
bit_xor_comm_fuel zero zero (suc b) p q = absurd (omega arith)
bit_xor_comm_fuel (suc n) a b p q = ground (
  arith,
  bit_xor_step a b,
  bit_xor_step b a,
  low_digits a b,
  bit_xor_comm_fuel n (a / 2) (b / 2) (omega arith) (omega arith),
)

pub bit_xor_comm : (a b : ℕ) → bit_xor a b ≡ bit_xor b a
bit_xor_comm a b = bit_xor_comm_fuel (a + b) a b (omega arith) (omega arith)

pub bit_xor-lt-pow : (k a b : ℕ) → a < 2 ^ k → b < 2 ^ k → bit_xor a b < 2 ^ k
bit_xor-lt-pow zero zero zero p q = omega arith
bit_xor-lt-pow zero (suc a) b p q = absurd (omega arith)
bit_xor-lt-pow zero zero (suc b) p q = absurd (omega arith)
bit_xor-lt-pow (suc k) a b p q = omega (
  arith,
  halves a b,
  pow-suc 2 k,
  bit_xor-lt-pow k (a / 2) (b / 2) (omega (arith, pow-suc 2 k)) (omega (arith, pow-suc 2 k)),
)

-- A field moved by one more place.
mul-two-pow-suc : (field places : ℕ) → field * 2 ^ places * 2 ≡ field * 2 ^ suc places
mul-two-pow-suc field places = omega (arith, ap (λ (power : ℕ). power * field) (pow-suc 2 places))

-- The exclusive or works on the high and the low fields of two words by themselves.
pub bit_xor_fields :
    (k a b c d : ℕ)
    → b < 2 ^ k
    → d < 2 ^ k
    → bit_xor (a * 2 ^ k + b) (c * 2 ^ k + d) ≡ bit_xor a c * 2 ^ k + bit_xor b d
bit_xor_fields zero a zero c zero p q = ground arith
bit_xor_fields zero a (suc b) c d p q = absurd (omega arith)
bit_xor_fields zero a zero c (suc d) p q = absurd (omega arith)
bit_xor_fields (suc k) a b c d p q = ground (
  arith,
  bit_xor_step (a * 2 ^ suc k + b) (c * 2 ^ suc k + d),
  bit_xor_step b d,
  mul-two-pow-suc a k,
  mul-two-pow-suc c k,
  mul-two-pow-suc (bit_xor a c) k,
  pow-suc 2 k,
  bit_xor_fields k a (b / 2) c (d / 2),
)

bit_or-zero_fuel : (n a : ℕ) → a ≤ n → bit_or a 0 ≡ a
bit_or-zero_fuel zero zero p = refl
bit_or-zero_fuel zero (suc a) p = absurd (omega arith)
bit_or-zero_fuel (suc n) a p =
    omega (arith, bit_or_step a 0, bit_or-zero_fuel n (a / 2) (omega arith))

-- Fields that do not overlap are added by `|`.
pub bit_or_fields : (k q r : ℕ) → r < 2 ^ k → bit_or (q * 2 ^ k) r ≡ q * 2 ^ k + r
bit_or_fields zero q zero h = ground (arith, bit_or-zero_fuel q q)
bit_or_fields zero q (suc r) h = absurd (omega arith)
bit_or_fields (suc k) q r h = ground (
  arith,
  bit_or_step (q * 2 ^ suc k) r,
  mul-two-pow-suc q k,
  pow-suc 2 k,
  bit_or_fields k q (r / 2),
)

-- A test of every number below a bound, which evaluation decides.
unfoldable pub holds_below : (bound : ℕ) → (ℕ → Bool) → Bool
holds_below zero test = true
holds_below (suc bound) test = holds_below bound test && test bound

pub holds_below_at :
    (bound : ℕ) (test : ℕ → Bool)
    → holds_below bound test ≡ true
    → (x : ℕ) → x < bound
    → test x ≡ true
unfolding holds_below
holds_below_at (suc bound) test all x below =
    let both : (holds_below bound test ≡ true) × (test bound ≡ true) = ground arith in
    ground (arith, holds_below_at bound test both.0 x)
holds_below_at zero test all x below = absurd (omega arith)

pub bit_and_step : (x y : ℕ) → bit_and x y ≡ min (x % 2) (y % 2) + 2 * bit_and (x / 2) (y / 2)
bit_and_step (suc x) y = simp bit_and-bitwise (lowest_digit (λ d. 0) min x y)
bit_and_step zero y = simp bit_and-bitwise (omega arith)

pub bit_and_fields :
    (k a b c d : ℕ)
    → b < 2 ^ k
    → d < 2 ^ k
    → bit_and (a * 2 ^ k + b) (c * 2 ^ k + d) ≡ bit_and a c * 2 ^ k + bit_and b d
bit_and_fields zero a zero c zero p q = ground arith
bit_and_fields zero a (suc b) c d p q = absurd (omega arith)
bit_and_fields zero a zero c (suc d) p q = absurd (omega arith)
bit_and_fields (suc k) a b c d p q = ground (
  arith,
  bit_and_step (a * 2 ^ suc k + b) (c * 2 ^ suc k + d),
  bit_and_step b d,
  mul-two-pow-suc a k,
  mul-two-pow-suc c k,
  mul-two-pow-suc (bit_and a c) k,
  pow-suc 2 k,
  bit_and_fields k a (b / 2) c (d / 2),
)

bit_or_comm_fuel : (n a b : ℕ) → a ≤ n → b ≤ n → bit_or a b ≡ bit_or b a
bit_or_comm_fuel zero zero zero p q = refl
bit_or_comm_fuel zero (suc a) b p q = absurd (omega arith)
bit_or_comm_fuel zero zero (suc b) p q = absurd (omega arith)
bit_or_comm_fuel (suc n) a b p q = omega (
  arith,
  bit_or_step a b,
  bit_or_step b a,
  bit_or_comm_fuel n (a / 2) (b / 2) (omega arith) (omega arith),
)

pub bit_or_comm : (a b : ℕ) → bit_or a b ≡ bit_or b a
bit_or_comm a b = bit_or_comm_fuel (a + b) a b (omega arith) (omega arith)

bit_and_comm_fuel : (n a b : ℕ) → a ≤ n → b ≤ n → bit_and a b ≡ bit_and b a
bit_and_comm_fuel zero zero zero p q = refl
bit_and_comm_fuel zero (suc a) b p q = absurd (omega arith)
bit_and_comm_fuel zero zero (suc b) p q = absurd (omega arith)
bit_and_comm_fuel (suc n) a b p q = omega (
  arith,
  bit_and_step a b,
  bit_and_step b a,
  bit_and_comm_fuel n (a / 2) (b / 2) (omega arith) (omega arith),
)

pub bit_and_comm : (a b : ℕ) → bit_and a b ≡ bit_and b a
bit_and_comm a b = bit_and_comm_fuel (a + b) a b (omega arith) (omega arith)

and_halves :
    (a b : ℕ)
    → (bit_and a b / 2 ≡ bit_and (a / 2) (b / 2)) × (bit_and a b % 2 ≡ min (a % 2) (b % 2))
and_halves a b = omega (arith, bit_and_step a b)

pub zero_bit_and : (b : ℕ) → bit_and 0 b ≡ 0
zero_bit_and b = simp bit_and-bitwise refl

bit_and_assoc_fuel : (n a b c : ℕ) → a ≤ n → bit_and (bit_and a b) c ≡ bit_and a (bit_and b c)
bit_and_assoc_fuel zero zero b c p =
    rw (zero_bit_and b, zero_bit_and c, zero_bit_and (bit_and b c)) refl
bit_and_assoc_fuel zero (suc a) b c p = absurd (omega arith)
bit_and_assoc_fuel (suc n) zero b c p =
    rw (zero_bit_and b, zero_bit_and c, zero_bit_and (bit_and b c)) refl
bit_and_assoc_fuel (suc n) (suc a) b c p = ground (
  arith,
  bit_and_step (bit_and (suc a) b) c,
  bit_and_step (suc a) (bit_and b c),
  and_halves (suc a) b,
  and_halves b c,
  bit_and_assoc_fuel n (suc a / 2) (b / 2) (c / 2) (omega arith),
)

pub bit_and_assoc : (a b c : ℕ) → bit_and (bit_and a b) c ≡ bit_and a (bit_and b c)
bit_and_assoc a b c = bit_and_assoc_fuel a a b c (omega arith)

ff_table : holds_below 256 (λ b. bit_and b 0xff == b) ≡ true
unfolding holds_below
ff_table = refl

-- The mask of the low byte.
pub bit_and-ff : (a : ℕ) → bit_and a 0xff ≡ a % 256
bit_and-ff a = ground (
  arith,
  bit_and_fields 8 (a / 256) (a % 256) 0 0xff (omega arith) (omega arith),
  bit_and_comm (a / 256) 0,
  zero_bit_and (a / 256),
  (==_iff (bit_and (a % 256) 0xff) (a % 256)).0
      (holds_below_at 256 (λ b. bit_and b 0xff == b) ff_table (a % 256) (omega arith)),
)
