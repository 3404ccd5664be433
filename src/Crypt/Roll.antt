-- ===== src/Crypt/Roll.antt =====
-- `roll_left` and `roll_right` of src/crypt.c: rotations of a byte through a 16-bit word.
use syrup.Base.{
  ℕ, ◌*◌, ◌/◌, ◌%◌, ◌^◌, ◌<◌, ◌≡◌, refl, true, arith, bit_or, u8, u16, ◌==◌, ==_iff, holds_below,
  holds_below_at,
}

pub roll_left : ℕ → ℕ → ℕ
roll_left b count = let tmp = u16 (b * 2 ^ (count % 8)) in u8 (bit_or tmp (tmp / 256))

pub roll_right : ℕ → ℕ → ℕ
roll_right b count = let tmp = u16 (b * 256 / 2 ^ (count % 8)) in u8 (bit_or tmp (tmp / 256))

pub roll_left-lt : (b count : ℕ) → roll_left b count < 256
unfolding roll_left
roll_left-lt b count = omega arith

pub roll_right-lt : (b count : ℕ) → roll_right b count < 256
unfolding roll_right
roll_right-lt b count = omega arith

-- Every byte at every count below eight.
right-left_table :
    holds_below 8 (λ c. holds_below 256 (λ b. roll_right (roll_left b c) c == b)) ≡ true
unfolding holds_below roll_left roll_right
right-left_table = refl

left-right_table :
    holds_below 8 (λ c. holds_below 256 (λ b. roll_left (roll_right b c) c == b)) ≡ true
unfolding holds_below roll_left roll_right
left-right_table = refl

roll_left-mod : (b count : ℕ) → roll_left b count ≡ roll_left b (count % 8)
unfolding roll_left
roll_left-mod b count = let e : count % 8 % 8 ≡ count % 8 = omega arith in rw e

roll_right-mod : (b count : ℕ) → roll_right b count ≡ roll_right b (count % 8)
unfolding roll_right
roll_right-mod b count = let e : count % 8 % 8 ≡ count % 8 = omega arith in rw e

pub roll_right-roll_left : (b count : ℕ) → b < 256 → roll_right (roll_left b count) count ≡ b
roll_right-roll_left b count h =
    rw (roll_left-mod b count, roll_right-mod (roll_left b (count % 8)) count)
      ((==_iff _ b).0
        (holds_below_at 256 _ (holds_below_at 8 _ right-left_table (count % 8) (omega arith)) b h))

pub roll_left-roll_right : (b count : ℕ) → b < 256 → roll_left (roll_right b count) count ≡ b
roll_left-roll_right b count h =
    rw (roll_right-mod b count, roll_left-mod (roll_right b (count % 8)) count)
      ((==_iff _ b).0
        (holds_below_at 256 _ (holds_below_at 8 _ left-right_table (count % 8) (omega arith)) b h))
