-- ===== src/Item.antt =====
-- src/item.h: items, the slots of equipped items and what an item's id says of it.
pub mod Slots
use syrup.Base.{
  ℕ, suc, ◌+◌, ◌-◌, ◌/◌, ◌%◌, Bool, true, false, ◌&&◌, ◌||◌, ◌==◌, leb, if◌then◌else◌, u8, List, [],
}
use syrup.Base.Int.{ℤ}

abbrev pub equip_slot_count : ℕ
equip_slot_count = 64

abbrev pub equip_slot_non_cosmetic_count : ℕ
equip_slot_non_cosmetic_count = 17

-- A slot is its number in `enum EquipSlot`, a value of 32 bits.
unfoldable pub is_valid_equip_slot : ℕ → Bool
is_valid_equip_slot slot =
    leb 1 slot && leb slot 11
    || leb 17 slot && leb slot 20
    || slot == 49
    || slot == 50
    || leb 101 slot && leb slot 148

-- The additions of one `if` after another.
unfoldable pub equip_slot_from_compact : ℕ → ℕ
equip_slot_from_compact compact =
    compact
    + 1
    + (if leb 11 compact then 5 else 0)
    + (if leb 15 compact then 28 else 0)
    + (if leb 17 compact then 50 else 0)

-- A subtraction from a `uint8_t`.
abbrev sub_u8 : ℕ → ℕ → ℕ
sub_u8 a b = u8 (a + 256 - b)

unfoldable pub equip_slot_to_compact : ℕ → ℕ
equip_slot_to_compact slot =
    sub_u8
      (sub_u8 (sub_u8 (u8 (slot + 4294967295)) (if leb 17 slot then 5 else 0))
        (if leb 49 slot then 28 else 0))
      (if leb 101 slot then 50 else 0)

unfoldable pub equip_slot_from_id : ℕ → ℕ
equip_slot_from_id id =
    if id / 10000 == 100
    then 1
    else if id / 10000 == 103
    then 4
    else if id / 10000 == 104 || id / 10000 == 105
    then 5
    else if id / 10000 == 106
    then 6
    else if id / 10000 == 107
    then 7
    else if id / 10000 == 108
    then 8
    else if id / 10000 == 109
    then 10
    else if id / 10000 == 110
    then 9
    else if id / 10000 == 112
    then 17
    else if id / 10000 == 113
    then 50
    else if id / 10000 == 114
    then 49
    else if id / 100000 == 13 || id / 100000 == 14
    then 11
    else 0

pub data EquipType : Type 0 where
  accessory cap cape coat glove longcoat pants ring shield shoes weapon not_known : EquipType

-- `not_known` is the -1 of an id that the function does not know.
pub equip_type_from_id : ℕ → EquipType
equip_type_from_id id =
    if id / 10000 == 100
    then cap
    else if id / 10000 == 104
    then coat
    else if id / 10000 == 105
    then longcoat
    else if id / 10000 == 106
    then pants
    else not_known

pub data InventoryType : Type 0 where
  equip use_ set_up etc cash : InventoryType

unfoldable pub item_get_inventory : ℕ → InventoryType
item_get_inventory id =
    if id / 1000000 == 1
    then equip
    else if id / 1000000 == 2
    then use_
    else if id / 1000000 == 3
    then set_up
    else if id / 1000000 == 4
    then etc
    else cash

unfoldable pub item_is_throwing_star : ℕ → Bool
item_is_throwing_star id = id / 10000 == 207

unfoldable pub item_is_bullet : ℕ → Bool
item_is_bullet id = id / 10000 == 233

unfoldable pub item_is_rechargeable : ℕ → Bool
item_is_rechargeable id = item_is_throwing_star id || item_is_bullet id

pub record Item : Type 0 where
  pub id : ℕ
  pub item_id : ℕ
  pub owner_length : ℕ
  pub owner : List ℕ
  pub flags : ℕ

-- Signed numbers are integers.
pub record Equipment : Type 0 where
  pub item : Item
  pub level : ℤ
  pub slots : ℤ
  pub str : ℤ
  pub dex : ℤ
  pub int_ : ℤ
  pub luk : ℤ
  pub hp : ℤ
  pub mp : ℤ
  pub atk : ℤ
  pub matk : ℤ
  pub def : ℤ
  pub mdef : ℤ
  pub acc : ℤ
  pub avoid : ℤ
  pub hands : ℤ
  pub speed : ℤ
  pub jump : ℤ
  pub cash : Bool

pub record InventoryItem : Type 0 where
  pub item : Item
  pub quantity : ℤ
