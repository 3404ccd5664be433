-- ===== src/Client/Equip/Changes.antt =====
-- The requests to put equipment on and to take it off.
use syrup.Base.{
  ℕ, ◌+◌, ◌<◌, ◌≤◌, ◌≡◌, ◌⊎◌, refl, ◌∙◌, ap, true, false, arith, Bool-cases, inl, inr, Option, none,
  some, List, [], ◌∷◌, u8, leb, Option-cases,
}
use syrup.Base.Int.{pos, ◌-ℤ◌}
use syrup.Item.{is_valid_equip_slot, equip_slot_to_compact}
use syrup.Character.{Character}
use syrup.Packet.{Packet}
use syrup.Packet.Items.{move, modify_items_packet, update_char_look_packet}
use syrup.Client.{Client, write}
use syrup.Client.Inventory.{ammunition, seek_projectile}
use syrup.Client.Inventory.Held.{put_self}
use syrup.Client.Equip.{
  add_bonus, sub_bonus, exchange_equips, put_on, take_off, hold_points, client_equip,
  client_unequip,
}
use syrup.Client.Equip.Bonus.{IsDressed}
use syrup.Client.Equip.Points.{
  points-IsDressed, hold_points-SameEquipment, disarmed, disarmed-SameEquipment,
}
use syrup.Client.Equip.Dressed.{put_on-IsDressed, take_off-IsDressed}

seek_projectile-IsDressed :
    (wid from otherwise : ℕ) (chr : Character)
    → IsDressed chr
    → IsDressed (seek_projectile wid from otherwise chr)
unfolding seek_projectile
seek_projectile-IsDressed wid from otherwise chr v = elim (Option-cases (ammunition wid)) [
  | inl e ↦ rw (seek_projectile, e) v
  | inr (uses, e) ↦ rw (seek_projectile, e) (points-IsDressed chr _ chr.hp chr.mp v)
]

seek_projectile-equipped :
    (wid from otherwise : ℕ) (chr : Character)
    → (seek_projectile wid from otherwise chr).equipped_equipment ≡ chr.equipped_equipment
unfolding seek_projectile
seek_projectile-equipped wid from otherwise chr = elim (Option-cases (ammunition wid)) [
  | inl e ↦ rw (seek_projectile, e) refl
  | inr (uses, e) ↦ rw (seek_projectile, e) refl
]

put_on-equipped :
    (i w : ℕ) (chr : Character)
    → (put_on i w chr).equipped_equipment w
      ≡ record { is_empty = false; equip = (chr.items i).equip }
unfolding put_on exchange_equips add_bonus sub_bonus
put_on-equipped i w chr = elim (Bool-cases (chr.equipped_equipment w).is_empty) [
  | inl e ↦
      rw (put_on, e)
        (put_self chr.equipped_equipment w
          (record { is_empty = false; equip = (chr.items i).equip }))
  | inr e ↦
      rw (put_on, e)
        (put_self chr.equipped_equipment w
          (record { is_empty = false; equip = (chr.items i).equip }))
]

-- A request for no slot is `none`, an empty slot of the inventory changes nothing, and otherwise its
-- equipment is worn and the bonuses are those of what is worn.
pub data Equips (i w slot : ℕ) (client : Client) (r : Option (Client × List Packet)) : Type 0 where
  no_slot :
      (is_valid_equip_slot slot ≡ false) ⊎ (client.character.slot_count ≤ i)
      → r ≡ none
      → Equips i w slot client r
  nothing :
      (client.character.items i).is_empty ≡ true → r ≡ some (client, []) → Equips i w slot client r
  equips :
      (after : Client) (room : List Packet)
      → r ≡ some (after, room)
      → after.character.equipped_equipment w
        ≡ record { is_empty = false; equip = (client.character.items i).equip }
      → IsDressed after.character
      → Equips i w slot client r

-- Putting equipment on keeps the bonuses of the character those of what it wears.
pub client_equip-Equips :
    (src slot : ℕ) (client : Client)
    → equip_slot_to_compact slot < 64
    → IsDressed client.character
    → Equips
        (u8 (src + 255))
        (equip_slot_to_compact slot)
        slot
        client
        (client_equip src slot client)
unfolding client_equip
client_equip-Equips src slot client lt v =
    let chr = client.character in
    let w = equip_slot_to_compact slot in
    let i = u8 (src + 255) in
    let worn = put_on i w chr in
    let wid = (worn.equipped_equipment w).equip.item.item_id in
    let armed = seek_projectile wid 0 worn.active_projectile worn in
    elim (Bool-cases (is_valid_equip_slot slot)) [
      | inr bad ↦ no_slot (inl bad) (rw (client_equip, bad) refl)
      | inl valid ↦ elim (Bool-cases (leb chr.slot_count i)) [
        | inl out ↦ no_slot (inr (ground arith)) (rw (client_equip, valid, out) refl)
        | inr inside ↦ elim (Bool-cases (chr.items i).is_empty) [
          | inl gone ↦ nothing gone (rw (client_equip, valid, inside, gone) refl)
          | inr there ↦
              equips
                (write (record client { character = armed })
                  (modify_items_packet 1 (move 1 (pos (i + 1)) (pos 0 -ℤ pos slot) ∷ [])))
                (update_char_look_packet armed ∷ []) (rw (client_equip, valid, inside, there) refl)
                (ap (λ t. t w) (seek_projectile-equipped wid 0 worn.active_projectile worn)
                  ∙ put_on-equipped i w chr)
                (seek_projectile-IsDressed wid 0 worn.active_projectile worn
                  (put_on-IsDressed chr v i w lt))
        ]
      ]
    ]

-- A request for no slot is `none`, and otherwise the equipment is in the slot of the inventory and the
-- bonuses are those of what is worn.
pub data Unequips (w i slot : ℕ) (client : Client) (r : Option (Client × List Packet))
    : Type 0 where
  no_slot :
      (is_valid_equip_slot slot ≡ false) ⊎ (client.character.slot_count ≤ i)
      → r ≡ none
      → Unequips w i slot client r
  unequips :
      (after : Client) (room : List Packet)
      → r ≡ some (after, room)
      → after.character.items i
        ≡ record { is_empty = false; equip = (client.character.equipped_equipment w).equip }
      → IsDressed after.character
      → Unequips w i slot client r

take_off-items :
    (w i : ℕ) (chr : Character)
    → (take_off w i chr).items i
      ≡ record { is_empty = false; equip = (chr.equipped_equipment w).equip }
unfolding take_off exchange_equips add_bonus sub_bonus
take_off-items w i chr = elim (Bool-cases (chr.items i).is_empty) [
  | inl e ↦
      rw (take_off, e)
        (put_self chr.items i
          (record { is_empty = false; equip = (chr.equipped_equipment w).equip }))
  | inr e ↦
      rw (take_off, e)
        (put_self chr.items i
          (record { is_empty = false; equip = (chr.equipped_equipment w).equip }))
]

-- Taking off what is worn keeps the bonuses of the character those of what it wears.
pub client_unequip-Unequips :
    (slot dst : ℕ) (client : Client)
    → equip_slot_to_compact slot < 64
    → (client.character.equipped_equipment (equip_slot_to_compact slot)).is_empty ≡ false
    → IsDressed client.character
    → Unequips
        (equip_slot_to_compact slot)
        (u8 (dst + 255))
        slot
        client
        (client_unequip slot dst client)
unfolding client_unequip
client_unequip-Unequips slot dst client lt full v =
    let chr = client.character in
    let w = equip_slot_to_compact slot in
    let i = u8 (dst + 255) in
    let d = disarmed-SameEquipment slot chr in
    let held = hold_points (record client { character = take_off w i (disarmed slot chr) }) in
    let h =
      hold_points-SameEquipment (record client { character = take_off w i (disarmed slot chr) }) in
    elim (Bool-cases (is_valid_equip_slot slot)) [
      | inr bad ↦ no_slot (inl bad) (rw (client_unequip, bad) refl)
      | inl valid ↦ elim (Bool-cases (leb chr.slot_count i)) [
        | inl out ↦ no_slot (inr (ground arith)) (rw (client_unequip, valid, out) refl)
        | inr inside ↦
            unequips
              (write held (modify_items_packet 1 (move 1 (pos 0 -ℤ pos slot) (pos (i + 1)) ∷ [])))
              (update_char_look_packet held.character ∷ [])
              (rw (client_unequip, valid, inside) refl)
              (ap (λ t. t i) h.same_items
                ∙ take_off-items w i (disarmed slot chr)
                ∙ ap (λ t. record { is_empty = false; equip = (t w).equip }) d.same_equipped)
              (h.dressed (
                take_off-IsDressed (disarmed slot chr) (d.dressed v) w i lt
                  (ap (λ t. (t w).is_empty) d.same_equipped ∙ full)))
      ]
    ]
