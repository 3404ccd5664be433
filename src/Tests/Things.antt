-- ===== src/Tests/Things.antt =====
-- Items and slots that the tests share.
use syrup.Base.{ℕ, true, false, []}
use syrup.Base.Int.{ℤ, pos}
use syrup.Item.{Item, Equipment, InventoryItem}
use syrup.Character.{Slot, Stack, Inventory}

abbrev item : ℕ → Item
item item_id = record { id = 0; item_id = item_id; owner_length = 0; owner = []; flags = 0 }

abbrev pub equipment : (item_id : ℕ) → (str hp : ℤ) → Equipment
equipment item_id str hp = record {
  item = item item_id;
  level = pos 0;
  slots = pos 7;
  str = str;
  dex = pos 0;
  int_ = pos 0;
  luk = pos 0;
  hp = hp;
  mp = pos 0;
  atk = pos 17;
  matk = pos 0;
  def = pos 0;
  mdef = pos 0;
  acc = pos 0;
  avoid = pos 0;
  hands = pos 0;
  speed = pos 0;
  jump = pos 0;
  cash = false;
}

abbrev pub stack_of : (item_id : ℕ) → ℤ → InventoryItem
stack_of item_id quantity = record { item = item item_id; quantity = quantity }

abbrev pub no_equipment : Slot
no_equipment = record { is_empty = true; equip = equipment 0 (pos 0) (pos 0) }

abbrev pub no_stack : Stack
no_stack = record { is_empty = true; item = stack_of 0 (pos 0) }

abbrev pub no_items : Inventory
no_items = record { slot_count = 0; items = λ i. no_stack }
