-- ===== src/Client/Stats.antt =====
-- Hit points, magic points and ability points.
use syrup.Base.{ℕ, suc, min, ◌+◌, ◌-◌, ◌≤◌, ◌≡◌, sym, ap, ◌∙◌, dec_lt, arith, if◌then◌else◌}
use syrup.Base.Int.{ℤ, pos, negsuc, sub_ℕ, ◌+ℤ◌, ◌-ℤ◌, ◌≤ℤ◌, ltb_ℤ}
use syrup.Character.{
  to_i16, int16_max, character_get_effective_hp, character_get_effective_mp, character_set_hp,
  character_set_mp, at_least_zero,
}
use syrup.Character.Stats.{clamp}
use syrup.Client.{
  Client, protect, protect_above, client_set_hp, client_adjust_hp, client_set_mp, client_adjust_mp,
}

-- An integer of 16 bits.
abbrev pub IsI16 : ℤ → Type 0
IsI16 x = (negsuc 32767 ≤ℤ x) × (x ≤ℤ pos 32767)

raised :
    (now change : ℕ)
    → now ≤ 32767
    → to_i16 (pos now +ℤ protect (pos now) (pos change)) ≡ pos (min (now + change) 32767)
unfolding protect ◌+ℤ◌ ◌-ℤ◌
raised now change n = ground arith

-- A loss of up to 32767 is not changed.
lowered :
    (now change : ℕ)
    → now ≤ 32767
    → suc change ≤ now + 32768
    → to_i16 (pos now +ℤ protect (pos now) (negsuc change)) ≡ sub_ℕ now (suc change)
unfolding protect ◌+ℤ◌ ◌-ℤ◌
lowered now change n c = ground arith

sunk :
    (now change : ℕ)
    → now ≤ 32767
    → now + 32768 ≤ change
    → to_i16 (pos now +ℤ protect (pos now) (negsuc change)) ≡ negsuc 32767
unfolding protect ◌+ℤ◌ ◌-ℤ◌
sunk now change n c = ground arith

clamp-min :
    (sum top : ℕ)
    → top ≤ 32767
    → clamp (pos 0) (pos top) (pos (min sum 32767)) ≡ clamp (pos 0) (pos top) (pos sum)
clamp-min sum top b = ground arith

clamp-below :
    (now change top : ℕ)
    → now ≤ change
    → clamp (pos 0) (pos top) (negsuc 32767) ≡ clamp (pos 0) (pos top) (sub_ℕ now (suc change))
clamp-below now change top c = ground arith

add_pos : (a b : ℕ) → pos a +ℤ pos b ≡ pos (a + b)
unfolding ◌+ℤ◌
add_pos a b = ground arith

add_negsuc : (a b : ℕ) → pos a +ℤ negsuc b ≡ sub_ℕ a (suc b)
unfolding ◌+ℤ◌
add_negsuc a b = ground arith

clamp-protect :
    (now change top : ℤ)
    → pos 0 ≤ℤ now
    → now ≤ℤ top
    → top ≤ℤ pos 32767
    → clamp (pos 0) top (to_i16 (now +ℤ protect now change)) ≡ clamp (pos 0) top (now +ℤ change)
clamp-protect (negsuc now) change top n t b = absurd (omega arith)
clamp-protect (pos now) change (negsuc top) n t b = absurd (omega arith)
clamp-protect (pos now) (pos change) (pos top) n t b =
    ap (clamp (pos 0) (pos top)) (raised now change (omega arith))
    ∙ clamp-min (now + change) top (omega arith)
    ∙ ap (clamp (pos 0) (pos top)) (sym (add_pos now change))
clamp-protect (pos now) (negsuc change) (pos top) n t b =
    let sum = sym (add_negsuc now change) in
    elim (dec_lt change (now + 32768)) [
      | yes h ↦ ap (clamp (pos 0) (pos top)) (lowered now change (omega arith) (omega arith) ∙ sum)
      | no h ↦
          ap (clamp (pos 0) (pos top)) (sunk now change (omega arith) (omega arith))
          ∙ clamp-below now change top (omega arith)
          ∙ ap (clamp (pos 0) (pos top)) sum
    ]

clamp_self : (now top : ℤ) → pos 0 ≤ℤ now → now ≤ℤ top → clamp (pos 0) top now ≡ now
clamp_self now top n t = ground arith

set_hp-clamp :
    (client : Client) (hp : ℤ)
    → pos 0 ≤ℤ client.character.hp
    → client.character.hp ≤ℤ character_get_effective_hp client.character
    → (client_set_hp client hp).character.hp
      ≡ clamp (pos 0) (character_get_effective_hp client.character) hp
unfolding client_set_hp character_set_hp
set_hp-clamp client hp n t = ground arith

-- A change of the hit points, however large, adds and then holds the sum between 0 and the effective
-- maximum, for a character whose hit points are there.
pub adjust_hp-clamp :
    (client : Client) (hp : ℤ)
    → pos 0 ≤ℤ client.character.hp
    → client.character.hp ≤ℤ character_get_effective_hp client.character
    → character_get_effective_hp client.character ≤ℤ pos 32767
    → (client_adjust_hp client hp).character.hp
      ≡ clamp (pos 0) (character_get_effective_hp client.character) (client.character.hp +ℤ hp)
unfolding client_adjust_hp
adjust_hp-clamp client hp n t b =
    set_hp-clamp client _ n t
    ∙ clamp-protect client.character.hp hp (character_get_effective_hp client.character) n t b

protect_above-protect :
    (now change : ℤ)
    → pos 0 ≤ℤ now
    → now ≤ℤ pos 32767
    → IsI16 change
    → protect_above now change ≡ protect now change
unfolding protect_above protect ◌-ℤ◌
protect_above-protect (negsuc now) change n b w = absurd (omega arith)
protect_above-protect (pos now) (pos change) n b w = ground arith
protect_above-protect (pos now) (negsuc change) n b w = ground arith

set_mp-clamp :
    (client : Client) (mp : ℤ)
    → pos 0 ≤ℤ client.character.mp
    → client.character.mp ≤ℤ character_get_effective_mp client.character
    → (client_set_mp client mp).character.mp
      ≡ clamp (pos 0) (character_get_effective_mp client.character) mp
unfolding client_set_mp character_set_mp
set_mp-clamp client mp n t = ground arith

-- A change of the magic points, of 16 bits, adds and then holds the sum between 0 and the effective
-- maximum, for a character whose magic points are there.
adjust_mp-clamp :
    (client : Client) (mp : ℤ)
    → pos 0 ≤ℤ client.character.mp
    → client.character.mp ≤ℤ character_get_effective_mp client.character
    → character_get_effective_mp client.character ≤ℤ pos 32767
    → IsI16 mp
    → (client_adjust_mp client mp).character.mp
      ≡ clamp (pos 0) (character_get_effective_mp client.character) (client.character.mp +ℤ mp)
unfolding client_adjust_mp
adjust_mp-clamp client mp n t b w =
    set_mp-clamp client _ n t
    ∙ ap
        (λ d.
          clamp (pos 0) (character_get_effective_mp client.character)
            (to_i16 (client.character.mp +ℤ d)))
        (protect_above-protect client.character.mp mp n (omega arith) w)
    ∙ clamp-protect client.character.mp mp (character_get_effective_mp client.character) n t b

-- What of an amount is spent on a stat.
abbrev pub spent : (stat amount : ℤ) → ℤ
spent stat amount = if ltb_ℤ (int16_max -ℤ stat) amount then to_i16 (int16_max -ℤ stat) else amount

pub spent_pos :
    (stat amount : ℕ)
    → stat ≤ 32767
    → spent (pos stat) (pos amount) ≡ pos (min amount (32767 - stat))
unfolding ◌-ℤ◌
spent_pos stat amount h = ground arith

pub stored_sum :
    (stat k : ℕ) → stat + k ≤ 32767 → at_least_zero (to_i16 (pos stat +ℤ pos k)) ≡ pos (stat + k)
unfolding ◌+ℤ◌
stored_sum stat k h = ground arith

pub stored_difference : (ap k : ℕ) → ap ≤ 32767 → k ≤ ap → to_i16 (pos ap -ℤ pos k) ≡ pos (ap - k)
unfolding ◌-ℤ◌
stored_difference ap k h l = ground arith
