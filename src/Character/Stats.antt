-- ===== src/Character/Stats.antt =====
-- What the setters of a character's stats leave.
use syrup.Base.{◌≡◌, refl, arith, if◌then◌else◌}
use syrup.Base.Int.{ℤ, pos, ◌+ℤ◌, ◌-ℤ◌, ◌≤ℤ◌, ltb_ℤ}
use syrup.Character.{Character, character_get_effective_hp, character_set_hp, effective}

-- `x`, but at least `low` and at most `high`.
abbrev pub clamp : (low high x : ℤ) → ℤ
clamp low high x = if ltb_ℤ x low then low else if ltb_ℤ high x then high else x

effective-clamp :
    (limit base extra : ℤ)
    → limit ≤ℤ pos 32767
    → pos 0 ≤ℤ base
    → base ≤ℤ limit
    → pos 0 ≤ℤ extra
    → effective limit base extra ≡ clamp (pos 0) limit (base +ℤ extra)
unfolding ◌+ℤ◌ ◌-ℤ◌
effective-clamp limit base extra l b c e = ground arith

-- Setting the hit points holds them between 0 and the effective maximum, where that is not negative.
set_hp-clamp :
    (chr : Character) (hp : ℤ)
    → pos 0 ≤ℤ character_get_effective_hp chr
    → (character_set_hp chr hp).hp ≡ clamp (pos 0) (character_get_effective_hp chr) hp
unfolding character_set_hp
set_hp-clamp chr hp h = refl
