-- ===== src/Client/Inventory/Move.antt =====
-- client_move_item of src/channel/client.c: a stack is moved to a slot of its inventory. `in_shop` says
-- that the client has a shop open, and `slot_max` is how many of an item a slot holds.
use syrup.Base.{
  ℕ, ◌+◌, ◌-◌, Bool, true, not, ◌&&◌, ◌||◌, ◌==◌, ltb, leb, if◌then◌else◌, Option, none, some, List,
  [], ◌∷◌, u8, length, min, max,
}
use syrup.Base.Int.{ℤ, pos, ◌+ℤ◌, ◌-ℤ◌, ltb_ℤ}
use syrup.Item.{item_is_rechargeable}
use syrup.Character.{Character, Stack, put, to_i16}
use syrup.Packet.Items.{InventoryModify, modify, move, remove, modify_items_packet}
use syrup.Client.{Client, eq_ℤ, write}
use syrup.Client.Inventory.{ammunition, weapon_id, seek_projectile, set_stack}

-- The character after a move, and what the client is told of it.
pub record Moved : Type 0 where
  pub chr : Character
  pub mods : List InventoryModify

abbrev pub stack_at : Character → (inv i : ℕ) → Stack
stack_at chr inv i = (chr.inventory inv).items i

-- A loop that leaves the active projectile where it finds none.
abbrev pub seek_from : (from : ℕ) → Character → Character
seek_from from chr = seek_projectile (weapon_id chr) from chr.active_projectile chr

-- The slot's item becomes the active projectile, if the weapon uses it.
unfoldable pub take_over : (i : ℕ) → Character → Character
take_over i chr = elim (ammunition (weapon_id chr)) [
  | none ↦ chr
  | some uses ↦ if uses (stack_at chr 0 i).item then record chr { active_projectile = i } else chr
]

unfoldable pub move_whole : (inv src dst : ℕ) → Character → Moved
move_whole inv src dst chr =
    let written = set_stack chr inv dst (stack_at chr inv src) in
    let after = set_stack written inv src (record (stack_at written inv src) { is_empty = true }) in
    record {
      chr =
          if inv == 0 && src == chr.active_projectile
          then if ltb dst src
            then record after { active_projectile = dst }
            else seek_from (src + 1) after
          else if inv == 0 && ltb dst chr.active_projectile
          then take_over dst after
          else after;
      mods = move (inv + 2) (pos (src + 1)) (pos (dst + 1)) ∷ [];
    }

-- The items of two slots that are not empty change places.
unfoldable pub exchange : (inv src dst : ℕ) → Character → Character
exchange inv src dst chr =
    let temp = (stack_at chr inv dst).item in
    let written =
      set_stack chr inv dst
        (record (stack_at chr inv dst) { item = (stack_at chr inv src).item }) in
    set_stack written inv src (record (stack_at written inv src) { item = temp })

-- `items[i].item.quantity += amount`.
unfoldable pub add_quantity : (inv i : ℕ) → ℤ → Character → Character
add_quantity inv i amount chr =
    let stack = stack_at chr inv i in
    set_stack chr inv i (record stack {
      item = record stack.item { quantity = to_i16 (stack.item.quantity +ℤ amount) };
    })

unfoldable pub merge : (slot_max : ℕ → ℤ) → (inv src dst : ℕ) → Character → Moved
merge slot_max inv src dst chr =
    let item = (stack_at chr inv dst).item in
    let amount = to_i16 (slot_max item.item.item_id -ℤ item.quantity) in
    let moved = (stack_at chr inv src).item.quantity in
    let whole = add_quantity inv dst moved chr in
    let emptied = set_stack whole inv src (record (stack_at whole inv src) { is_empty = true }) in
    let filled = add_quantity inv dst amount chr in
    let parted = add_quantity inv src (pos 0 -ℤ amount) filled in
    if eq_ℤ item.quantity (slot_max item.item.item_id)
    then record {
      chr = exchange inv src dst chr;
      mods = move (inv + 2) (pos (src + 1)) (pos (dst + 1)) ∷ [];
    }
    else if ltb_ℤ moved amount
    then record {
      chr =
          if inv == 0 && (ltb src dst && src == chr.active_projectile)
          then seek_from (src + 1) emptied
          else emptied;
      mods =
          remove (inv + 2) (pos (src + 1))
          ∷ modify (inv + 2) (pos (dst + 1)) (stack_at emptied inv dst).item.quantity
          ∷ [];
    }
    else record {
      chr = parted;
      mods =
          modify (inv + 2) (pos (src + 1)) (stack_at parted inv src).item.quantity
          ∷ modify (inv + 2) (pos (dst + 1)) (stack_at parted inv dst).item.quantity
          ∷ [];
    }

-- The projectile after an exchange of the slots `low` and `high` of the first inventory.
unfoldable pub follow_exchange : (low high : ℕ) → Character → Character
follow_exchange low high chr =
    if leb low chr.active_projectile && leb chr.active_projectile high
    then if chr.active_projectile == low
      then seek_from low chr
      else if chr.active_projectile == high
      then record chr { active_projectile = low }
      else take_over low chr
    else chr

-- In the first inventory the slots are told in their order.
unfoldable pub swap_items : (inv src dst : ℕ) → Character → Moved
swap_items inv src dst chr =
    let after = exchange inv src dst chr in
    if inv == 0
    then record {
      chr = follow_exchange (min src dst) (max src dst) after;
      mods = move (inv + 2) (pos (min src dst + 1)) (pos (max src dst + 1)) ∷ [];
    }
    else record { chr = after; mods = move (inv + 2) (pos (src + 1)) (pos (dst + 1)) ∷ [] }

-- A slot that is not empty is moved.
unfoldable pub move_stack : (slot_max : ℕ → ℤ) → (inv src dst : ℕ) → Character → Moved
move_stack slot_max inv src dst chr =
    let to = stack_at chr inv dst in
    let id = to.item.item.item_id in
    if to.is_empty
    then move_whole inv src dst chr
    else if id == (stack_at chr inv src).item.item.item_id && not (item_is_rechargeable id)
    then merge slot_max inv src dst chr
    else swap_items inv src dst chr

-- Onto an equipment, two slots of the second of the other inventories are exchanged.
unfoldable pub move_equip : (src dst : ℕ) → Character → Character
move_equip src dst chr =
    let written = put chr.items dst (chr.items src) in
    if (chr.items dst).is_empty
    then record chr { items = put written src (record (written src) { is_empty = true }) }
    else exchange 1 src dst chr

-- The packet of a move.
abbrev pub tell : Client → Moved → Client
tell client m =
    write (record client { character = m.chr }) (modify_items_packet (length m.mods) m.mods)

unfoldable pub client_move_item :
    (slot_max : ℕ → ℤ) → (in_shop : Bool) → (inventory src dst : ℕ) → Client → Option Client
client_move_item slot_max in_shop inventory src dst client =
    let chr = client.character in
    let from = u8 (src + 255) in
    let to = u8 (dst + 255) in
    let count =
      if inventory == 1 then chr.slot_count else (chr.inventory (inventory - 2)).slot_count in
    if in_shop
    then some client
    else if ltb inventory 1 || ltb 5 inventory
    then none
    else if leb count from || leb count to
    then none
    else if inventory == 1
    then if (chr.items from).is_empty
      then some client
      else some (
          tell client (record {
            chr = move_equip from to chr;
            mods = move 1 (pos (from + 1)) (pos (to + 1)) ∷ [];
          }))
    else if (stack_at chr (inventory - 2) from).is_empty
    then some client
    else some (tell client (move_stack slot_max (inventory - 2) from to chr))
