-- ===== src/Client/Inventory.antt =====
-- src/channel/client.c: the inventories of items that stack. `quest` tells which items the game's data
-- mark as of a quest, and `slot_max` how many of an item a slot holds. A result `none` is the `false`
-- of a request that no client makes.
pub mod Gain
pub mod Move
pub mod Held
pub mod Taken
pub mod Take
pub mod Fill
pub mod Gains
pub mod Keeping
pub mod Moving
pub mod Shots
use syrup.Base.{
  ℕ, zero, suc, ◌+◌, ◌-◌, ◌/◌, Bool, true, false, not, ◌&&◌, ◌||◌, ◌==◌, ltb, leb, if◌then◌else◌,
  Option, none, some, List, [], ◌∷◌, ◌++◌, u8, length,
}
use syrup.Base.Int.{ℤ, pos, ◌+ℤ◌, ◌-ℤ◌, ltb_ℤ}
use syrup.Item.{
  InventoryItem, equip_slot_to_compact, item_is_throwing_star, item_is_bullet, item_is_rechargeable,
}
use syrup.Character.{Character, Slot, Stack, Inventory, put, to_i16, leb_ℤ}
use syrup.Packet.Items.{InventoryModify, add_item, modify, move, remove, modify_items_packet}
use syrup.Packet.Notice.{inventory_full_notification_packet}
use syrup.Client.{Client, eq_ℤ, write}

-- A loop for the first index with a property.
unfoldable pub find_from : (rounds i : ℕ) → (ℕ → Bool) → Option ℕ
find_from zero i p = none
find_from (suc rounds) i p = let rest = find_from rounds (suc i) p in if p i then some i else rest

-- The id of the weapon, also of one that is no longer there.
abbrev pub weapon_id : Character → ℕ
weapon_id chr = (chr.equipped_equipment (equip_slot_to_compact 11)).equip.item.item_id

-- What a weapon uses up: a bow, a crossbow, a claw or a gun.
unfoldable pub ammunition : (wid : ℕ) → Option (InventoryItem → Bool)
ammunition wid =
    if wid / 10000 == 145
    then some (λ item. item.item.item_id / 1000 == 2060)
    else if wid / 10000 == 146
    then some (λ item. item.item.item_id / 1000 == 2061)
    else if wid / 10000 == 147
    then some (λ item. item_is_throwing_star item.item.item_id && ltb_ℤ (pos 0) item.quantity)
    else if wid / 10000 == 149
    then some (λ item. item_is_bullet item.item.item_id && ltb_ℤ (pos 0) item.quantity)
    else none

-- The first slot from an index on whose item is of use.
unfoldable pub find_ammunition : Inventory → (from : ℕ) → (InventoryItem → Bool) → Option ℕ
find_ammunition inv from uses =
    find_from (inv.slot_count - from) from
      (λ i. not (inv.items i).is_empty && uses (inv.items i).item)

-- The projectile of the weapon `wid`, sought from an index on; without one it is `otherwise`.
unfoldable pub seek_projectile : (wid from otherwise : ℕ) → Character → Character
seek_projectile wid from otherwise chr = elim (ammunition wid) [
  | none ↦ chr
  | some uses ↦ record chr {
    active_projectile = elim (find_ammunition (chr.inventory 0) from uses) [
      | none ↦ otherwise
      | some i ↦ i
    ];
  }
]

unfoldable pub set_stack : Character → (inv i : ℕ) → Stack → Character
set_stack chr inv i stack = record chr {
  inventory =
      put chr.inventory inv
        (record (chr.inventory inv) { items = put (chr.inventory inv).items i stack });
}

-- The count of an id that is left to be found, through the slots, on an `int16_t`.
unfoldable pub seek_stacks : (rounds i : ℕ) → (id : ℕ) → ℤ → (ℕ → Stack) → Bool
seek_stacks zero i id qty items = false
seek_stacks (suc rounds) i id qty items =
    let left = to_i16 (qty -ℤ (items i).item.quantity) in
    let found = seek_stacks rounds (suc i) id left items in
    let passed = seek_stacks rounds (suc i) id qty items in
    if not (items i).is_empty && (items i).item.item.item_id == id
    then if leb_ℤ left (pos 0) then true else found
    else passed

unfoldable pub seek_equips : (rounds i : ℕ) → (id : ℕ) → ℤ → (ℕ → Slot) → Bool
seek_equips zero i id qty items = false
seek_equips (suc rounds) i id qty items =
    let left = to_i16 (qty -ℤ pos 1) in
    let found = seek_equips rounds (suc i) id left items in
    let passed = seek_equips rounds (suc i) id qty items in
    if not (items i).is_empty && (items i).equip.item.item_id == id
    then if eq_ℤ left (pos 0) then true else found
    else passed

unfoldable pub client_has_item : Client → (id : ℕ) → ℤ → Bool
client_has_item client id qty =
    let chr = client.character in
    if u8 (id / 1000000) == 1
    then seek_equips chr.slot_count 0 id qty chr.items
    else let inv = chr.inventory (u8 (u8 (id / 1000000) + 254)) in
      seek_stacks inv.slot_count 0 id qty inv.items

-- What a removal of `amount` takes from a slot, and the slot then; `none` if the slot holds too few.
-- A rechargeable item goes as a whole, and a part of a stack has no id in the database.
unfoldable pub take_from : Stack → (amount : ℤ) → Option (InventoryItem × Stack)
take_from stack amount =
    let item = stack.item in
    if item_is_rechargeable item.item.item_id
    then some (item, record stack { is_empty = true })
    else if ltb_ℤ item.quantity amount
    then none
    else if eq_ℤ item.quantity amount
    then some (record item { quantity = amount }, record stack { is_empty = true })
    else some (
      record { quantity = amount; item = record item.item { id = 0 } },
      record stack { item = record item { quantity = to_i16 (item.quantity -ℤ amount) } },
    )

pub record Removal : Type 0 where
  pub success : Bool
  pub item : Option InventoryItem
  pub client : Client

-- What is told of a slot after something was taken from it.
unfoldable pub slot_change : (inventory i : ℕ) → Stack → InventoryModify
slot_change inventory i stack =
    if stack.is_empty
    then remove inventory (pos (i + 1))
    else modify inventory (pos (i + 1)) stack.item.quantity

-- The slot is written, and the projectile is sought if it was the active one and is used up.
unfoldable pub take_slot : (inv i : ℕ) → Stack → Character → Character
take_slot inv i stack chr =
    let written = set_stack chr inv i stack in
    if inv == 0
      && (chr.active_projectile == i && (stack.is_empty || eq_ℤ stack.item.quantity (pos 0)))
    then seek_projectile (weapon_id chr) (i + 1) 255 written
    else written

-- An item of a quest is needed again.
unfoldable pub need_again : (quest : ℕ → Bool) → (id : ℕ) → Character → Character
need_again quest id chr =
    if quest id && not (chr.item_quests id)
    then record chr { item_quests = put chr.item_quests id true }
    else chr

unfoldable pub client_remove_item :
    (quest : ℕ → Bool) → (inv src : ℕ) → (amount : ℤ) → Client → Option Removal
client_remove_item quest inv src amount client =
    let i = u8 (src + 255) in
    let stack = (client.character.inventory (inv - 2)).items i in
    if ltb inv 2 || ltb 5 inv
    then none
    else if leb (client.character.inventory (inv - 2)).slot_count i
    then none
    else if stack.is_empty
    then some (record { success = false; item = none; client = client })
    else some (elim (take_from stack amount) [
      | none ↦ record { success = false; item = some stack.item; client = client }
      | some (item, left) ↦ record {
        success = true;
        item = some item;
        client =
            write
              (record client {
                character =
                    need_again quest item.item.item_id
                      (take_slot (inv - 2) i left client.character);
              })
              (modify_items_packet 1 (slot_change inv i left ∷ []));
      }
    ])

-- The slot after a shot. That the slot is not empty is not tested.
unfoldable pub shoot : Stack → (amount : ℤ) → Stack
shoot stack amount =
    let item = stack.item in
    let lessened = record stack {
      item = record item { quantity = to_i16 (item.quantity -ℤ amount) };
    } in
    if item_is_rechargeable item.item.item_id
    then lessened
    else if eq_ℤ item.quantity amount
    then record stack { is_empty = true }
    else lessened

-- The slot that `client_use_projectile` takes from: the first with enough in it, of any item; past the
-- last slot it is the index where the loop ends.
unfoldable pub shot_slot : Inventory → (from : ℕ) → (amount : ℤ) → ℕ
shot_slot inv from amount =
    elim (find_from (inv.slot_count - from) from (λ i. leb_ℤ amount (inv.items i).item.quantity)) [
      | none ↦ if leb inv.slot_count from then from else inv.slot_count
      | some i ↦ i
    ]

-- The active projectile is sought again from the slot behind it, if it is used up. The loop of the
-- search ends at `slot_count` unless it starts behind it.
unfoldable pub reload : Character → Character
reload chr =
    let stack = (chr.inventory 0).items chr.active_projectile in
    let from = u8 (chr.active_projectile + 1) in
    let otherwise = if leb from (chr.inventory 0).slot_count then 255 else chr.active_projectile in
    if stack.is_empty || eq_ℤ stack.item.quantity (pos 0)
    then seek_projectile (weapon_id chr) from otherwise chr
    else chr

-- The slot is written only where the loop was left by its `break`.
unfoldable pub client_use_projectile : (amount : ℤ) → Client → Bool × Client
client_use_projectile amount client =
    let chr = client.character in
    let inv = chr.inventory 0 in
    let slot = shot_slot inv chr.active_projectile amount in
    let shot =
      if ltb slot inv.slot_count
      then set_stack chr 0 slot (shoot (inv.items slot) amount)
      else chr in
    if chr.active_projectile == 255
    then (false, client)
    else if slot == inv.slot_count
    then (false, client)
    else (
      true,
      write (record client { character = reload shot })
          (modify_items_packet 1 (slot_change 2 slot ((shot.inventory 0).items slot) ∷ [])),
    )
