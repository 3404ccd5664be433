-- ===== src/Packet/Items.antt =====
-- src/packet.c and src/writer.c: the packets of changed items and of a character's look. Stats and
-- slots are integers.
pub mod Room
use syrup.Base.{
  ℕ, zero, suc, ◌+◌, Bool, true, false, ◌||◌, ◌==◌, List, [], ◌∷◌, ◌++◌, if◌then◌else◌,
}
use syrup.Base.Int.{ℤ, pos, ltb_ℤ}
use syrup.Writer.{Call, bool, u8, i16, u16, i32, u32, u64, sized_string, array}
use syrup.Packet.{Packet, when, for_from}
use syrup.Item.{
  Equipment, InventoryItem, equip_slot_count, equip_slot_non_cosmetic_count,
  equip_slot_from_compact, equip_slot_to_compact, item_is_rechargeable,
}
use syrup.Character.{Character, Slot, i16_bits}

-- The `mode` with the member of the union that it goes with. `inventory` is 1 for equipment.
pub data InventoryModify : Type 0 where
  add_item : (inventory : ℕ) → ℤ → InventoryItem → InventoryModify
  add_equip : ℤ → Equipment → InventoryModify
  modify : (inventory : ℕ) → ℤ → (quantity : ℤ) → InventoryModify
  move : (inventory : ℕ) → ℤ → (dst : ℤ) → InventoryModify
  remove : (inventory : ℕ) → ℤ → InventoryModify

-- A byte of a signed number.
abbrev pub i8_bits : ℤ → ℕ
i8_bits x = i16_bits x

unfoldable pub item_calls : InventoryItem → List Call
item_calls item =
    u8 2
    ∷ u32 item.item.item_id
    ∷ bool false
    ∷ u64 150842304000000000
    ∷ u16 (i16_bits item.quantity)
    ∷ sized_string item.item.owner_length item.item.owner
    ∷ u16 item.item.flags
    ∷ when (item_is_rechargeable item.item.item_id)
        (u32 2 ∷ array 4 (0x54 ∷ 0x00 ∷ 0x00 ∷ 0x34 ∷ []) ∷ [])

-- What follows the flags of an equipment.
unfoldable pub level_calls : (cash : Bool) → List Call
level_calls true =
    array 10 (0x40 ∷ 0x40 ∷ 0x40 ∷ 0x40 ∷ 0x40 ∷ 0x40 ∷ 0x40 ∷ 0x40 ∷ 0x40 ∷ 0x40 ∷ []) ∷ []
level_calls false = u8 0 ∷ u8 1 ∷ u32 0 ∷ u32 0 ∷ u64 0 ∷ []

unfoldable pub equip_calls : Equipment → List Call
equip_calls equip =
    u8 1
    ∷ u32 equip.item.item_id
    ∷ bool equip.cash
    ∷ u64 150842304000000000
    ∷ u8 (i8_bits equip.slots)
    ∷ u8 (i8_bits equip.level)
    ∷ i16 (i16_bits equip.str)
    ∷ i16 (i16_bits equip.dex)
    ∷ i16 (i16_bits equip.int_)
    ∷ i16 (i16_bits equip.luk)
    ∷ i16 (i16_bits equip.hp)
    ∷ i16 (i16_bits equip.mp)
    ∷ i16 (i16_bits equip.atk)
    ∷ i16 (i16_bits equip.matk)
    ∷ i16 (i16_bits equip.def)
    ∷ i16 (i16_bits equip.mdef)
    ∷ i16 (i16_bits equip.acc)
    ∷ i16 (i16_bits equip.avoid)
    ∷ i16 (i16_bits equip.hands)
    ∷ i16 (i16_bits equip.speed)
    ∷ i16 (i16_bits equip.jump)
    ∷ sized_string equip.item.owner_length equip.item.owner
    ∷ u16 equip.item.flags
    ∷ (level_calls equip.cash ++ (u64 94354848000000000 ∷ i32 4294967295 ∷ []))

-- Stands for a failed assertion, or a read that the memory does not allow: a call that no writer passes,
-- of a byte of no memory.
abbrev pub fault : Call
fault = array 1 []

-- One round of the loop. Equipment has no quantity to change, which is an assertion, and an item in the
-- inventory of equipment is written as the equipment that it is not.
unfoldable pub mod_calls : InventoryModify → List Call
mod_calls (add_item inventory slot item) =
    u8 0
    ∷ u8 inventory
    ∷ i16 (i16_bits slot)
    ∷ (if inventory == 1 then fault ∷ [] else item_calls item)
mod_calls (add_equip slot equip) = u8 0 ∷ u8 1 ∷ i16 (i16_bits slot) ∷ equip_calls equip
mod_calls (modify inventory slot quantity) =
    u8 1
    ∷ u8 inventory
    ∷ i16 (i16_bits slot)
    ∷ (if inventory == 1 then fault ∷ [] else i16 (i16_bits quantity) ∷ [])
mod_calls (move inventory slot dst) =
    u8 2
    ∷ u8 inventory
    ∷ i16 (i16_bits slot)
    ∷ i16 (i16_bits dst)
    ∷ when (ltb_ℤ slot (pos 0) || ltb_ℤ dst (pos 0)) (u8 (if ltb_ℤ slot (pos 0) then 1 else 2) ∷ [])
mod_calls (remove inventory slot) =
    u8 3 ∷ u8 inventory ∷ i16 (i16_bits slot) ∷ when (ltb_ℤ slot (pos 0)) (u8 2 ∷ [])

-- The rounds of the loop, which goes on behind an array that is shorter than it is told.
unfoldable pub all_mod_calls : (mod_count : ℕ) → List InventoryModify → List Call
all_mod_calls zero mods = []
all_mod_calls (suc left) [] = fault ∷ []
all_mod_calls (suc left) (m ∷ mods) = mod_calls m ++ all_mod_calls left mods

-- The first `mod_count` of the array's changes; `mod_count` is a byte.
unfoldable pub modify_items_packet : (mod_count : ℕ) → List InventoryModify → Packet
modify_items_packet mod_count mods = record {
  size = 10204;
  calls = u16 0x1D ∷ bool true ∷ u8 mod_count ∷ all_mod_calls mod_count mods;
}

-- The part of a character that is seen.
pub record CharacterAppearance : Type 0 where
  pub name_length : ℕ
  pub name : List ℕ
  pub gender : Bool
  pub skin : ℕ
  pub face : ℕ
  pub hair : ℕ
  pub gacha_exp : ℤ
  pub map : ℕ
  pub spawn_point : ℕ
  pub is_empty : ℕ → Bool
  pub id : ℕ → ℕ

unfoldable pub character_to_character_appearance : Character → CharacterAppearance
character_to_character_appearance chr = record {
  name_length = chr.name_length;
  name = chr.name;
  gender = chr.gender;
  skin = chr.skin;
  face = chr.face;
  hair = chr.hair;
  gacha_exp = chr.gacha_exp;
  map = chr.map;
  spawn_point = chr.spawn_point;
  is_empty = λ i. (chr.equipped_equipment i).is_empty;
  id = λ i. (chr.equipped_equipment i).equip.item.item_id;
}

-- A slot of the loop over what is worn.
unfoldable pub worn_calls : CharacterAppearance → ℕ → List Call
worn_calls chr i =
    (if chr.is_empty i then [] else u8 (equip_slot_from_compact i) ∷ u32 (chr.id i) ∷ [])
    ++ when (i == equip_slot_non_cosmetic_count) (u8 0xFF ∷ [])

-- A value of `bool` as a byte.
abbrev pub byte_of : Bool → ℕ
byte_of true = 1
byte_of false = 0

unfoldable pub writer_char_appearance : CharacterAppearance → (mega : Bool) → List Call
writer_char_appearance chr mega =
    (u8 (byte_of chr.gender)
      ∷ u8 chr.skin
      ∷ u32 chr.face
      ∷ u8 (if mega then 0 else 1)
      ∷ u32 chr.hair
      ∷ for_from 0 equip_slot_count (worn_calls chr))
    ++ (u8 0xFF
        ∷ (let weapon = equip_slot_to_compact 111 in
            u32 (if chr.is_empty weapon then 0 else chr.id weapon))
        ∷ u32 0
        ∷ u32 0
        ∷ u32 0
        ∷ [])

unfoldable pub update_char_look_packet : Character → Packet
update_char_look_packet chr = record {
  size = 363;
  calls =
      (u16 0xC5
        ∷ u32 chr.id
        ∷ u8 1
        ∷ writer_char_appearance (character_to_character_appearance chr) false)
      ++ (u8 0 ∷ u8 0 ∷ u8 0 ∷ u32 0 ∷ []);
}
