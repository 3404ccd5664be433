-- ===== src/Character.antt =====
-- src/character.c and the stat operations of src/channel/client.c: the numbers of a character. Signed
-- fields are integers; a value stored in a field of 16 or 32 bits is wrapped to it.
pub mod Stats
use syrup.Base.{
  ℕ, suc, ◌+◌, ◌-◌, ◌*◌, ◌/◌, ◌%◌, ◌≡◌, Bool, true, false, ◌&&◌, ◌||◌, ◌==◌, ltb, leb,
  if◌then◌else◌, Option, none, some, List, [], ◌∷◌, get_elem?, set, u8,
}
use syrup.Base.Int.{ℤ, pos, negsuc, sub_ℕ, ◌+ℤ◌, ◌-ℤ◌, ltb_ℤ}
use syrup.Item.{Equipment, InventoryItem}

-- The integer of a bit pattern, and the conversion to 16 and 32 bits.
abbrev pub i16_value : ℕ → ℤ
i16_value n = if ltb (n % 65536) 32768 then pos (n % 65536) else sub_ℕ (n % 65536) 65536

abbrev pub i32_value : ℕ → ℤ
i32_value n =
    if ltb (n % 4294967296) 2147483648
    then pos (n % 4294967296)
    else sub_ℕ (n % 4294967296) 4294967296

abbrev pub to_i16 : ℤ → ℤ
to_i16 (pos n) = i16_value n
to_i16 (negsuc n) = i16_value (65535 - n % 65536)

abbrev pub to_i32 : ℤ → ℤ
to_i32 (pos n) = i32_value n
to_i32 (negsuc n) = i32_value (4294967295 - n % 4294967296)

-- The bit patterns of integers.
abbrev pub i16_bits : ℤ → ℕ
i16_bits (pos n) = n % 65536
i16_bits (negsuc n) = 65535 - n % 65536

abbrev pub i32_bits : ℤ → ℕ
i32_bits (pos n) = n % 4294967296
i32_bits (negsuc n) = 4294967295 - n % 4294967296

abbrev pub leb_ℤ : ℤ → ℤ → Bool
leb_ℤ a b = if ltb_ℤ b a then false else true

-- A slot of a table of equipment: what it held stays behind an `isEmpty`.
pub record Slot : Type 0 where
  pub is_empty : Bool
  pub equip : Equipment

-- A slot of another inventory. A table is a function of the index.
pub record Stack : Type 0 where
  pub is_empty : Bool
  pub item : InventoryItem

pub record Inventory : Type 0 where
  pub slot_count : ℕ
  pub items : ℕ → Stack

-- `slot_count` and `items` are those of `equipmentInventory`; `quests` are the ids of the quests under
-- way, in the order of an iteration, and `item_quests` tells which items the set has.
pub record Character : Type 0 where
  pub id : ℕ
  pub name_length : ℕ
  pub name : List ℕ
  pub map : ℕ
  pub x : ℤ
  pub y : ℤ
  pub fh : ℕ
  pub stance : ℕ
  pub gender : Bool
  pub skin : ℕ
  pub face : ℕ
  pub hair : ℕ
  pub chair : ℕ
  pub gacha_exp : ℤ
  pub spawn_point : ℕ
  pub level : ℕ
  pub job : ℕ
  pub fame : ℤ
  pub str : ℤ
  pub dex : ℤ
  pub int_ : ℤ
  pub luk : ℤ
  pub max_hp : ℤ
  pub hp : ℤ
  pub max_mp : ℤ
  pub mp : ℤ
  pub ap : ℤ
  pub sp : ℤ
  pub exp : ℤ
  pub estr : ℤ
  pub edex : ℤ
  pub eint : ℤ
  pub eluk : ℤ
  pub e_max_hp : ℤ
  pub e_max_mp : ℤ
  pub mesos : ℤ
  pub active_projectile : ℕ
  pub equipped_equipment : ℕ → Slot
  pub slot_count : ℕ
  pub items : ℕ → Slot
  pub inventory : ℕ → Inventory
  pub quests : List ℕ
  pub item_quests : ℕ → Bool

-- A write to a table.
abbrev pub put {ℓ} : {A : Type ℓ} → (ℕ → A) → ℕ → A → ℕ → A
put table i v j = if j == i then v else table j

-- `INT16_MAX`, `HP_MAX` and `MP_MAX`.
abbrev pub int16_max : ℤ
int16_max = pos 32767

abbrev pub hp_max : ℤ
hp_max = pos 30000

abbrev pub mp_max : ℤ
mp_max = pos 30000

-- The sum of a stat and its bonus, held at a limit.
abbrev pub effective : (limit base extra : ℤ) → ℤ
effective limit base extra = if ltb_ℤ (limit -ℤ extra) base then limit else to_i16 (base +ℤ extra)

unfoldable pub character_get_effective_str : Character → ℤ
character_get_effective_str chr = effective int16_max chr.str chr.estr

unfoldable pub character_get_effective_dex : Character → ℤ
character_get_effective_dex chr = effective int16_max chr.dex chr.edex

unfoldable pub character_get_effective_int : Character → ℤ
character_get_effective_int chr = effective int16_max chr.int_ chr.eint

unfoldable pub character_get_effective_luk : Character → ℤ
character_get_effective_luk chr = effective int16_max chr.luk chr.eluk

unfoldable pub character_get_effective_hp : Character → ℤ
character_get_effective_hp chr = effective hp_max chr.max_hp chr.e_max_hp

unfoldable pub character_get_effective_mp : Character → ℤ
character_get_effective_mp chr = effective mp_max chr.max_mp chr.e_max_mp

pub character_set_job : Character → ℕ → Character
character_set_job chr job = record chr { job = job }

unfoldable pub character_set_max_hp : Character → ℤ → Character
character_set_max_hp chr hp = record chr {
  max_hp = if ltb_ℤ (pos 30000) hp then pos 30000 else if ltb_ℤ hp (pos 0) then pos 0 else hp;
}

unfoldable pub character_set_hp : Character → ℤ → Character
character_set_hp chr hp = record chr {
  hp =
      if ltb_ℤ hp (pos 0)
      then pos 0
      else if ltb_ℤ (character_get_effective_hp chr) hp
      then character_get_effective_hp chr
      else hp;
}

unfoldable pub character_set_max_mp : Character → ℤ → Character
character_set_max_mp chr mp = record chr {
  max_mp = if ltb_ℤ (pos 30000) mp then pos 30000 else if ltb_ℤ mp (pos 0) then pos 0 else mp;
}

unfoldable pub character_set_mp : Character → ℤ → Character
character_set_mp chr mp = record chr {
  mp =
      if ltb_ℤ mp (pos 0)
      then pos 0
      else if ltb_ℤ (character_get_effective_mp chr) mp
      then character_get_effective_mp chr
      else mp;
}

-- `if (x < 0) x = 0`.
abbrev pub at_least_zero : ℤ → ℤ
at_least_zero x = if ltb_ℤ x (pos 0) then pos 0 else x

unfoldable pub character_set_str : Character → ℤ → Character
character_set_str chr str = record chr { str = at_least_zero str }

unfoldable pub character_set_dex : Character → ℤ → Character
character_set_dex chr dex = record chr { dex = at_least_zero dex }

unfoldable pub character_set_int : Character → ℤ → Character
character_set_int chr int_ = record chr { int_ = at_least_zero int_ }

unfoldable pub character_set_luk : Character → ℤ → Character
character_set_luk chr luk = record chr { luk = at_least_zero luk }

unfoldable pub character_set_fame : Character → ℤ → Character
character_set_fame chr fame = record chr { fame = fame }

unfoldable pub character_set_ap : Character → ℤ → Character
character_set_ap chr ap = record chr { ap = ap }

-- The test is of the field, not of the argument.
unfoldable pub character_set_sp : Character → ℤ → Character
character_set_sp chr sp =
    let cleared = if ltb_ℤ chr.sp (pos 0) then record chr { sp = pos 0 } else chr in
    record cleared { sp = sp }

unfoldable pub character_set_meso : Character → ℤ → Character
character_set_meso chr meso = record chr { mesos = at_least_zero meso }
