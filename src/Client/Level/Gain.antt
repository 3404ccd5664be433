-- ===== src/Client/Level/Gain.antt =====
-- One gain of experience against the table.
use syrup.Base.{
  ℕ, suc, ◌+◌, ◌-◌, ◌%◌, ◌≤◌, ◌<◌, ◌≡◌, refl, sym, ap, ◌∙◌, inl, inr, true, false, ◌==◌, ltb,
  Option, some, arith, Bool-cases,
}
use syrup.Base.Int.{ℤ, pos, negsuc, ◌+ℤ◌, ◌-ℤ◌, ltb_ℤ, pos_part}
use syrup.Character.{Character, to_i32}
use syrup.Client.Level.{exp_table, character_gain_exp}
use syrup.Client.Level.Table.{spent, spent-suc, spent_mono, Standing, experience, start-Standing}

-- The two ends of one gain: the experience is added, or it reaches the next level and some is left.
pub data Gained (chr : Character) (g : ℕ) (r : Option (ℤ × Character)) : Type 0 where
  kept :
      (n : ℕ) (chr' : Character)
      → r ≡ some (negsuc n, chr')
      → Standing chr'.level chr'.exp
      → experience chr' ≡ experience chr + g
      → Gained chr g r
  reached :
      (left : ℕ) (chr' : Character)
      → r ≡ some (pos left, chr')
      → Standing chr'.level chr'.exp
      → experience chr' + left ≡ experience chr + g
      → chr'.level ≡ chr.level + 1
      → left < 2147483648
      → Gained chr g r

gain_add :
    (needed e g : ℕ)
    → e + g < needed
    → needed < 2147483648
    → (ltb_ℤ (pos g) (to_i32 (pos needed -ℤ pos e)) ≡ true)
      × (to_i32 (pos e +ℤ pos g) ≡ pos (e + g))
      × (to_i32 (pos g -ℤ to_i32 (pos needed -ℤ pos e)) ≡ negsuc (needed - e - g - 1))
unfolding ◌+ℤ◌ ◌-ℤ◌
gain_add needed e g lt fits = ground arith

pub gain_reach :
    (needed e g : ℕ)
    → e < needed
    → needed ≤ e + g
    → needed < 2147483648
    → g < 2147483648
    → (ltb_ℤ (pos g) (to_i32 (pos needed -ℤ pos e)) ≡ false)
      × (to_i32 (pos g -ℤ to_i32 (pos needed -ℤ pos e)) ≡ pos (e + g - needed))
unfolding ◌+ℤ◌ ◌-ℤ◌
gain_reach needed e g below le fits small = ground arith

pub not_zero : (level : ℕ) → 1 ≤ level → (level == 0) ≡ false
not_zero level h = ground arith

suc_before : (level : ℕ) → 1 ≤ level → suc (level - 1) ≡ level
suc_before level h = omega arith

back : (level : ℕ) → level + 1 - 1 ≡ level
back level = omega arith

next_level : (level : ℕ) → level < 200 → (level + 1) % 256 ≡ level + 1
next_level level h = omega arith

-- What the levels up to and with this one take.
spent_level :
    (level : ℕ) (exp : ℤ) (s : Standing level exp)
    → spent exp_table level ≡ spent exp_table (level - 1) + s.needed
spent_level level exp s =
    ap (spent exp_table) (sym (suc_before level s.low))
    ∙ spent-suc exp_table (level - 1) s.needed s.entry

-- Whoever cannot come out of the table is not at its last level.
not_last :
    (level : ℕ) (exp : ℤ) (s : Standing level exp) (g : ℕ)
    → s.needed ≤ s.points + g
    → spent exp_table (level - 1) + s.points + g < spent exp_table 200
    → level < 200
not_last level exp s g enough room = elim (Bool-cases (ltb level 200)) [
  | inl lt ↦ ground (arith, lt)
  | inr last ↦
      let same : spent exp_table 200 ≤ spent exp_table level =
        spent_mono exp_table 200 level (ground (arith, last)) in
      absurd (omega (arith, same, spent_level level exp s))
]

pub gain_exp-Gained :
    (chr : Character) (g : ℕ)
    → Standing chr.level chr.exp
    → g < 2147483648
    → experience chr + g < spent exp_table 200
    → Gained chr g (character_gain_exp chr (pos g))
unfolding character_gain_exp experience
gain_exp-Gained chr g s small room = elim (Bool-cases (ltb (s.points + g) s.needed)) [
  | inl less ↦
      let (t, sum, rest) = gain_add s.needed s.points g (ground (arith, less)) s.fits in
      kept (s.needed - s.points - g - 1) (record chr { exp = pos (s.points + g) })
        (rw (character_gain_exp, not_zero chr.level s.low, s.entry, s.is_points, t, sum, rest) refl)
        (record {
          low = s.low;
          high = s.high;
          points = s.points + g;
          is_points = refl;
          needed = s.needed;
          entry = s.entry;
          below = ground (arith, less);
          fits = s.fits;
        })
        (rw s.is_points (omega arith))
  | inr enough ↦
      let le : s.needed ≤ s.points + g = ground (arith, enough) in
      let lt : chr.level < 200 =
        not_last chr.level chr.exp s g le (omega (arith, room, ap pos_part s.is_points)) in
      let (t, rest) = gain_reach s.needed s.points g s.below le s.fits small in
      reached (s.points + g - s.needed) (record chr { exp = pos 0; level = chr.level + 1 })
        (rw
          (
            character_gain_exp,
            not_zero chr.level s.low,
            s.entry,
            s.is_points,
            t,
            rest,
            next_level chr.level lt,
          )
          refl)
        (start-Standing (chr.level + 1) (omega arith) (omega arith))
        (rw s.is_points
          (omega (arith, spent_level chr.level chr.exp s, ap (spent exp_table) (back chr.level))))
        refl (omega arith)
]
