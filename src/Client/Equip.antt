-- ===== src/Client/Equip.antt =====
-- src/channel/client.c: equipment that is put on and taken off. A result `none` is the `false` of a
-- request that no client makes; otherwise it is the client and what its room is sent.
pub mod Bonus
pub mod Dressed
pub mod Points
pub mod Changes
pub mod Unworn
use syrup.Base.{
  ℕ, ◌+◌, Bool, true, false, not, ltb, leb, if◌then◌else◌, Option, none, some, List, [], ◌∷◌, u8,
  bit_or, ◌==◌, zero, suc,
}
use syrup.Base.Int.{ℤ, pos, ◌+ℤ◌, ◌-ℤ◌, ltb_ℤ}
use syrup.Item.{
  Equipment, is_valid_equip_slot, equip_slot_to_compact, equip_slot_from_compact, equip_slot_count,
}
use syrup.Character.{
  Character, Slot, put, to_i32, i16_bits, character_get_effective_hp, character_get_effective_mp,
}
use syrup.Packet.{Packet}
use syrup.Packet.Items.{remove, move, modify_items_packet, update_char_look_packet}
use syrup.Packet.StatChange.{stat_change_packet}
use syrup.Client.{Client, write}
use syrup.Client.Inventory.{seek_projectile}

-- The bonuses with those of an equipment.
unfoldable pub add_bonus : Equipment → Character → Character
add_bonus equip chr = record chr {
  estr = to_i32 (chr.estr +ℤ equip.str);
  edex = to_i32 (chr.edex +ℤ equip.dex);
  eint = to_i32 (chr.eint +ℤ equip.int_);
  eluk = to_i32 (chr.eluk +ℤ equip.luk);
  e_max_hp = to_i32 (chr.e_max_hp +ℤ equip.hp);
  e_max_mp = to_i32 (chr.e_max_mp +ℤ equip.mp);
}

unfoldable pub sub_bonus : Equipment → Character → Character
sub_bonus equip chr = record chr {
  estr = to_i32 (chr.estr -ℤ equip.str);
  edex = to_i32 (chr.edex -ℤ equip.dex);
  eint = to_i32 (chr.eint -ℤ equip.int_);
  eluk = to_i32 (chr.eluk -ℤ equip.luk);
  e_max_hp = to_i32 (chr.e_max_hp -ℤ equip.hp);
  e_max_mp = to_i32 (chr.e_max_mp -ℤ equip.mp);
}

-- The equipment of two slots changes places.
unfoldable pub exchange_equips : (worn src : ℕ) → Character → Character
exchange_equips worn src chr =
    let on = (chr.equipped_equipment worn).equip in
    let off = (chr.items src).equip in
    record chr {
      items = put chr.items src (record (chr.items src) { equip = on });
      equipped_equipment =
          put chr.equipped_equipment worn (record (chr.equipped_equipment worn) { equip = off });
    }

-- An equipment of the inventory is put on, in place of the one that is worn there.
unfoldable pub put_on : (src dst : ℕ) → Character → Character
put_on src dst chr =
    let off = (chr.items src).equip in
    let on = (chr.equipped_equipment dst).equip in
    if (chr.equipped_equipment dst).is_empty
    then add_bonus off (record chr {
      items = put chr.items src (record (chr.items src) { is_empty = true });
      equipped_equipment =
          put chr.equipped_equipment dst (record { is_empty = false; equip = off });
    })
    else exchange_equips dst src (add_bonus off (sub_bonus on chr))

-- The same the other way. That the slot that is given up is not empty is not tested.
unfoldable pub take_off : (src dst : ℕ) → Character → Character
take_off src dst chr =
    let on = (chr.equipped_equipment src).equip in
    let off = (chr.items dst).equip in
    if (chr.items dst).is_empty
    then record (sub_bonus on chr) {
      items = put chr.items dst (record { is_empty = false; equip = on });
      equipped_equipment =
          put chr.equipped_equipment src (record (chr.equipped_equipment src) { is_empty = true });
    }
    else exchange_equips src dst (add_bonus off (sub_bonus on chr))

unfoldable pub client_equip : (src slot : ℕ) → Client → Option (Client × List Packet)
client_equip src slot client =
    let chr = client.character in
    let dst = equip_slot_to_compact slot in
    let i = u8 (src + 255) in
    let worn = put_on i dst chr in
    let wid = (worn.equipped_equipment dst).equip.item.item_id in
    let armed = seek_projectile wid 0 worn.active_projectile worn in
    if not (is_valid_equip_slot slot)
    then none
    else if leb chr.slot_count i
    then none
    else if (chr.items i).is_empty
    then some (client, [])
    else some (
      write (record client { character = armed })
          (modify_items_packet 1 (move 1 (pos (i + 1)) (pos 0 -ℤ pos slot) ∷ [])),
      update_char_look_packet armed ∷ [],
    )

-- The points held at their effective maxima.
unfoldable pub hold_hp : Character → Character
hold_hp chr =
    if ltb_ℤ (character_get_effective_hp chr) chr.hp
    then record chr { hp = character_get_effective_hp chr }
    else chr

unfoldable pub hold_mp : Character → Character
hold_mp chr =
    if ltb_ℤ (character_get_effective_mp chr) chr.mp
    then record chr { mp = character_get_effective_mp chr }
    else chr

-- The flags of the points that were lowered.
unfoldable pub lowered : Character → ℕ
lowered chr =
    bit_or (if ltb_ℤ (character_get_effective_hp chr) chr.hp then 0x400 else 0)
      (if ltb_ℤ (character_get_effective_mp (hold_hp chr)) (hold_hp chr).mp then 0x1000 else 0)

-- The packet has the lowered points, those of the first flag first.
unfoldable pub hold_points : Client → Client
hold_points client =
    let chr = client.character in
    let held = hold_mp (hold_hp chr) in
    let values = λ (i : ℕ).
      if ltb_ℤ (character_get_effective_hp chr) chr.hp
      then if i == 0 then i16_bits held.hp else i16_bits held.mp
      else i16_bits held.mp in
    if lowered chr == 0
    then client
    else write (record client { character = held }) (stat_change_packet true (lowered chr) values)

unfoldable pub client_unequip : (slot dst : ℕ) → Client → Option (Client × List Packet)
client_unequip slot dst client =
    let chr = client.character in
    let src = equip_slot_to_compact slot in
    let i = u8 (dst + 255) in
    let disarmed = if slot == 11 then record chr { active_projectile = 255 } else chr in
    let held = hold_points (record client { character = take_off src i disarmed }) in
    if not (is_valid_equip_slot slot)
    then none
    else if leb chr.slot_count i
    then none
    else some (
      write held (modify_items_packet 1 (move 1 (pos 0 -ℤ pos slot) (pos (i + 1)) ∷ [])),
      update_char_look_packet held.character ∷ [],
    )

-- An equipment that leaves the character, worn or not, and whether it was there.
unfoldable pub client_remove_equip :
    (equipped : Bool) → (src : ℕ) → Client → Option (Option Equipment × Client)
client_remove_equip true src client =
    let chr = client.character in
    let i = equip_slot_to_compact src in
    let slot = chr.equipped_equipment i in
    if leb equip_slot_count i
    then none
    else if slot.is_empty
    then some (none, client)
    else some (
      some slot.equip,
      write
          (record client {
            character = record chr {
              equipped_equipment = put chr.equipped_equipment i (record slot { is_empty = true });
            };
          })
          (modify_items_packet 1 (remove 1 (pos 0 -ℤ pos (equip_slot_from_compact i)) ∷ [])),
    )
client_remove_equip false src client =
    let chr = client.character in
    let i = u8 (src + 255) in
    let slot = chr.items i in
    if leb chr.slot_count i
    then none
    else if slot.is_empty
    then some (none, client)
    else some (
      some slot.equip,
      write
          (record client {
            character = record chr { items = put chr.items i (record slot { is_empty = true }) };
          })
          (modify_items_packet 1 (remove 1 (pos (i + 1)) ∷ [])),
    )
