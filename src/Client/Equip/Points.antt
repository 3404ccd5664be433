-- ===== src/Client/Equip/Points.antt =====
-- Changes that leave equipment and bonuses alone: of points, and of the projectile.
use syrup.Base.{ℕ, ◌≡◌, refl, ◌∙◌, ◌==◌, if◌then◌else◌, Bool-cases, inl, inr}
use syrup.Base.Int.{ℤ, ltb_ℤ}
use syrup.Character.{Character, character_get_effective_hp, character_get_effective_mp}
use syrup.Client.{Client}
use syrup.Client.Equip.{hold_hp, hold_mp, lowered, hold_points}
use syrup.Client.Equip.Bonus.{Stat, str, dex, int_, luk, hp, mp, bonus_of, IsDressed}

bonus_of_points :
    (stat : Stat) (chr : Character) (a : ℕ) (h m : ℤ)
    → bonus_of stat (record chr { active_projectile = a; hp = h; mp = m }) ≡ bonus_of stat chr
bonus_of_points str chr a h m = refl
bonus_of_points dex chr a h m = refl
bonus_of_points int_ chr a h m = refl
bonus_of_points luk chr a h m = refl
bonus_of_points hp chr a h m = refl
bonus_of_points mp chr a h m = refl

pub points-IsDressed :
    (chr : Character) (a : ℕ) (h m : ℤ)
    → IsDressed chr
    → IsDressed (record chr { active_projectile = a; hp = h; mp = m })
points-IsDressed chr a h m v = record {
  bonus = λ stat. bonus_of_points stat chr a h m ∙ v.bonus stat;
  small_worn = v.small_worn;
  small_kept = v.small_kept;
}

-- What the points do not touch.
pub record SameEquipment (before after : Character) : Type 0 where
  pub dressed : IsDressed before → IsDressed after
  pub same_items : after.items ≡ before.items
  pub same_equipped : after.equipped_equipment ≡ before.equipped_equipment

hold_hp-SameEquipment : (chr : Character) → SameEquipment chr (hold_hp chr)
unfolding hold_hp
hold_hp-SameEquipment chr = elim (Bool-cases (ltb_ℤ (character_get_effective_hp chr) chr.hp)) [
  | inl e ↦
      rw (hold_hp, e)
        (record {
          dressed =
              points-IsDressed chr chr.active_projectile (character_get_effective_hp chr) chr.mp;
          same_items = refl;
          same_equipped = refl;
        })
  | inr e ↦ rw (hold_hp, e) (record { dressed = λ v. v; same_items = refl; same_equipped = refl })
]

hold_mp-SameEquipment : (chr : Character) → SameEquipment chr (hold_mp chr)
unfolding hold_mp
hold_mp-SameEquipment chr = elim (Bool-cases (ltb_ℤ (character_get_effective_mp chr) chr.mp)) [
  | inl e ↦
      rw (hold_mp, e)
        (record {
          dressed =
              points-IsDressed chr chr.active_projectile chr.hp (character_get_effective_mp chr);
          same_items = refl;
          same_equipped = refl;
        })
  | inr e ↦ rw (hold_mp, e) (record { dressed = λ v. v; same_items = refl; same_equipped = refl })
]

pub hold_points-SameEquipment :
    (client : Client) → SameEquipment client.character (hold_points client).character
unfolding hold_points
hold_points-SameEquipment client =
    let chr = client.character in
    elim (Bool-cases (lowered chr == 0)) [
      | inl e ↦
          rw (hold_points, e) (record { dressed = λ v. v; same_items = refl; same_equipped = refl })
      | inr e ↦
          let one = hold_hp-SameEquipment chr in
          let two = hold_mp-SameEquipment (hold_hp chr) in
          rw (hold_points, e)
            (record {
              dressed = λ v. two.dressed (one.dressed v);
              same_items = two.same_items ∙ one.same_items;
              same_equipped = two.same_equipped ∙ one.same_equipped;
            })
    ]

abbrev pub disarmed : (slot : ℕ) → Character → Character
disarmed slot chr = if slot == 11 then record chr { active_projectile = 255 } else chr

pub disarmed-SameEquipment : (slot : ℕ) (chr : Character) → SameEquipment chr (disarmed slot chr)
disarmed-SameEquipment slot chr = elim (Bool-cases (slot == 11)) [
  | inl e ↦ rw e (record {
    dressed = points-IsDressed chr 255 chr.hp chr.mp;
    same_items = refl;
    same_equipped = refl;
  })
  | inr e ↦ rw e (record { dressed = λ v. v; same_items = refl; same_equipped = refl })
]
