-- ===== src/Client/Equip/Unworn.antt =====
-- client_unequip of an empty slot, and client_remove_equip of a worn equipment.
use syrup.Base.{
  ℕ, ◌+◌, ◌==◌, ◌<◌, ◌≡◌, refl, ◌∙◌, ap, ap₂, sym, true, false, if◌then◌else◌, arith, Bool-cases,
  inl, inr, Option, some, List, [], ◌∷◌, u8, leb,
}
use syrup.Base.Int.{ℤ, pos, ◌+ℤ◌, ◌-ℤ◌, int_laws}
use syrup.Item.{
  Equipment, is_valid_equip_slot, equip_slot_to_compact, equip_slot_from_compact, equip_slot_count,
}
use syrup.Character.{Character, Slot, put}
use syrup.Packet.{Packet}
use syrup.Packet.Items.{move, remove, modify_items_packet, update_char_look_packet}
use syrup.Client.{Client, write}
use syrup.Client.Inventory.Held.{sum_to, sum_to-change, put_self, put_ne, parts_of_eq}
use syrup.Client.Equip.{sub_bonus, take_off, hold_points, client_unequip, client_remove_equip}
use syrup.Client.Equip.Bonus.{
  Stat, str, dex, int_, luk, hp, mp, stat_of, bonus_of, worn, worn_total, IsDressed, worn_total-put,
}
use syrup.Client.Equip.Points.{disarmed, disarmed-SameEquipment, hold_points-SameEquipment}

abbrev present : Slot → ℤ
present slot = if slot.is_empty then pos 0 else pos 1

-- How many equipments there are among the first `n` slots of a table.
unfoldable pub count_slots : (n : ℕ) → (ℕ → Slot) → ℤ
count_slots n table = sum_to n (λ i. present (table i))

-- What is worn and what is in the inventory.
abbrev pub equipment_count : (slot_count : ℕ) → (equipped items : ℕ → Slot) → ℤ
equipment_count slot_count equipped items = count_slots 64 equipped +ℤ count_slots slot_count items

count_slots-put :
    (n : ℕ) (table : ℕ → Slot) (i : ℕ) (slot : Slot)
    → i < n
    → count_slots n (put table i slot) +ℤ present (table i) ≡ count_slots n table +ℤ present slot
unfolding count_slots
count_slots-put n table i slot lt =
    sum_to-change n i (λ j. present (table j)) (λ j. present (put table i slot j)) lt
      (λ j ne. ap present (put_ne table i j slot ne))
    ∙ ap (λ s. count_slots n table +ℤ present s) (put_self table i slot)

one_more :
    (worn worn' kept kept' : ℤ)
    → worn' +ℤ pos 0 ≡ worn +ℤ pos 0
    → kept' +ℤ pos 0 ≡ kept +ℤ pos 1
    → worn' +ℤ kept' ≡ worn +ℤ kept +ℤ pos 1
one_more worn worn' kept kept' e f =
    let p = parts_of_eq e in let q = parts_of_eq f in omega int_laws

vacant_slot : (slot : Slot) → slot.is_empty ≡ true → present slot ≡ pos 0
vacant_slot slot e = rw e refl

take_off-count :
    (w i : ℕ) (chr : Character)
    → w < 64
    → i < chr.slot_count
    → (chr.equipped_equipment w).is_empty ≡ true
    → (chr.items i).is_empty ≡ true
    → equipment_count chr.slot_count (take_off w i chr).equipped_equipment (take_off w i chr).items
      ≡ equipment_count chr.slot_count chr.equipped_equipment chr.items +ℤ pos 1
unfolding take_off sub_bonus
take_off-count w i chr lw li bare vacant =
    let equipped = chr.equipped_equipment in
    let gone : Slot = record (equipped w) { is_empty = true } in
    let new : Slot = record { is_empty = false; equip = (equipped w).equip } in
    rw (take_off, vacant)
      (one_more (count_slots 64 equipped) (count_slots 64 (put equipped w gone))
        (count_slots chr.slot_count chr.items) (count_slots chr.slot_count (put chr.items i new))
        (ap (λ x. count_slots 64 (put equipped w gone) +ℤ x) (sym (vacant_slot (equipped w) bare))
          ∙ count_slots-put 64 equipped w gone lw)
        (ap (λ x. count_slots chr.slot_count (put chr.items i new) +ℤ x)
            (sym (vacant_slot (chr.items i) vacant))
          ∙ count_slots-put chr.slot_count chr.items i new li))

disarmed-slot_count : (slot : ℕ) (chr : Character) → (disarmed slot chr).slot_count ≡ chr.slot_count
disarmed-slot_count slot chr = elim (Bool-cases (slot == 11)) [
  | inl e ↦ rw e refl
  | inr e ↦ rw e refl
]

-- An answer after which there is one equipment more.
pub record Doubled (client : Client) (r : Option (Client × List Packet)) : Type 0 where
  pub after : Client
  pub room : List Packet
  pub returns : r ≡ some (after, room)
  pub more :
      equipment_count client.character.slot_count after.character.equipped_equipment
        after.character.items
      ≡ equipment_count client.character.slot_count client.character.equipped_equipment
          client.character.items
        +ℤ pos 1

-- Taking off nothing, into an empty slot, makes an equipment.
pub client_unequip-Doubled :
    (slot dst : ℕ) (client : Client)
    → equip_slot_to_compact slot < 64
    → is_valid_equip_slot slot ≡ true
    → u8 (dst + 255) < client.character.slot_count
    → (client.character.equipped_equipment (equip_slot_to_compact slot)).is_empty ≡ true
    → (client.character.items (u8 (dst + 255))).is_empty ≡ true
    → Doubled client (client_unequip slot dst client)
unfolding client_unequip
client_unequip-Doubled slot dst client lt valid room_for bare vacant =
    let chr = client.character in
    let w = equip_slot_to_compact slot in
    let i = u8 (dst + 255) in
    let d = disarmed-SameEquipment slot chr in
    let base = disarmed slot chr in
    let start = record client { character = take_off w i base } in
    let held = hold_points start in
    let h = hold_points-SameEquipment start in
    let inside : leb chr.slot_count i ≡ false = ground arith in
    let count = λ (n : ℕ) (c : Character). equipment_count n c.equipped_equipment c.items in
    record {
      after = write held (modify_items_packet 1 (move 1 (pos 0 -ℤ pos slot) (pos (i + 1)) ∷ []));
      room = update_char_look_packet held.character ∷ [];
      returns = rw (client_unequip, valid, inside) refl;
      more =
          ap₂ (equipment_count chr.slot_count) h.same_equipped h.same_items
          ∙ ap
              (λ n.
                equipment_count n (take_off w i base).equipped_equipment (take_off w i base).items)
              (sym (disarmed-slot_count slot chr))
          ∙ take_off-count w i base lt (rw (disarmed-slot_count slot chr) room_for)
              (ap (λ t. (t w).is_empty) d.same_equipped ∙ bare)
              (ap (λ t. (t i).is_empty) d.same_items ∙ vacant)
          ∙ ap (λ n. equipment_count n base.equipped_equipment base.items +ℤ pos 1)
              (disarmed-slot_count slot chr)
          ∙ ap₂ (λ a b. equipment_count chr.slot_count a b +ℤ pos 1) d.same_equipped d.same_items;
    }

bonus_of_worn :
    (stat : Stat) (chr : Character) (equipped : ℕ → Slot)
    → bonus_of stat (record chr { equipped_equipment = equipped }) ≡ bonus_of stat chr
bonus_of_worn str chr equipped = refl
bonus_of_worn dex chr equipped = refl
bonus_of_worn int_ chr equipped = refl
bonus_of_worn luk chr equipped = refl
bonus_of_worn hp chr equipped = refl
bonus_of_worn mp chr equipped = refl

left_behind : (a b c d : ℤ) → a +ℤ b ≡ c +ℤ pos 0 → d ≡ c → d ≡ a +ℤ b
left_behind a b c d e f = let p = parts_of_eq e in let q = parts_of_eq f in omega int_laws

full_slot :
    (stat : Stat) (slot : Slot) → slot.is_empty ≡ false → worn stat slot ≡ stat_of stat slot.equip
full_slot stat slot full = rw full refl

-- An answer after which each bonus is that of what is worn and of the equipment that left.
pub record StaysBehind (client : Client) (equip : Equipment)
    (r : Option (Option Equipment × Client)) : Type 0 where
  pub after : Client
  pub returns : r ≡ some (some equip, after)
  pub bonus :
      (stat : Stat)
      → bonus_of stat after.character
        ≡ worn_total stat after.character.equipped_equipment +ℤ stat_of stat equip

-- A worn equipment that is dropped leaves its bonus behind.
pub client_remove_equip-StaysBehind :
    (src : ℕ) (client : Client)
    → equip_slot_to_compact src < 64
    → (client.character.equipped_equipment (equip_slot_to_compact src)).is_empty ≡ false
    → IsDressed client.character
    → StaysBehind client
        (client.character.equipped_equipment (equip_slot_to_compact src)).equip
        (client_remove_equip true src client)
unfolding client_remove_equip
client_remove_equip-StaysBehind src client lt full v =
    let chr = client.character in
    let w = equip_slot_to_compact src in
    let table = chr.equipped_equipment in
    let gone : Slot = record (table w) { is_empty = true } in
    let inside : leb equip_slot_count w ≡ false = ground arith in
    record {
      after =
          write (record client { character = record chr { equipped_equipment = put table w gone } })
            (modify_items_packet 1 (remove 1 (pos 0 -ℤ pos (equip_slot_from_compact w)) ∷ []));
      returns = rw (client_remove_equip, inside, full) refl;
      bonus = λ stat.
          left_behind (worn_total stat (put table w gone)) (stat_of stat (table w).equip)
            (worn_total stat table)
            (bonus_of stat (record chr { equipped_equipment = put table w gone }))
            (ap (λ x. worn_total stat (put table w gone) +ℤ x) (sym (full_slot stat (table w) full))
              ∙ worn_total-put stat table w gone lt)
            (bonus_of_worn stat chr (put table w gone) ∙ v.bonus stat);
    }
