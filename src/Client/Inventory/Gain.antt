-- ===== src/Client/Inventory/Gain.antt =====
-- src/channel/client.c: gaining items and equipment. The game's data are parameters: which items are of
-- a quest, how many a slot holds, and the items that a quest requires, in their order.
use syrup.Base.{
  ℕ, zero, suc, ◌+◌, ◌-◌, ◌/◌, Bool, false, not, ◌&&◌, ◌||◌, ◌==◌, ltb, if◌then◌else◌, Option, none,
  some, List, [], ◌∷◌, ◌++◌, length,
}
use syrup.Base.Int.{ℤ, pos, ◌+ℤ◌, ◌-ℤ◌, ltb_ℤ}
use syrup.Item.{
  Equipment, InventoryItem, equip_slot_to_compact, item_is_throwing_star, item_is_bullet,
  item_is_rechargeable,
}
use syrup.Character.{Character, Stack, put, to_i16}
use syrup.Packet.Items.{InventoryModify, add_item, add_equip, modify, modify_items_packet}
use syrup.Packet.Notice.{inventory_full_notification_packet}
use syrup.Client.{Client, eq_ℤ, write}
use syrup.Client.Inventory.{find_from, weapon_id}

pub data InventoryGainResult : Type 0 where
  success full unavailable : InventoryGainResult

pub record Gained : Type 0 where
  pub result : InventoryGainResult
  pub client : Client

-- The requirement of an item among those of a quest: the first counts.
unfoldable pub required : (id : ℕ) → ℤ → List (ℕ × ℤ) → ℤ
required id max [] = max
required id max ((other, count) ∷ rest) =
    let later = required id max rest in if other == id then count else later

-- `hash_set_u16_foreach` with `check_quest_item`: the last quest that requires the item counts.
unfoldable pub check_quests : (requirements : ℕ → List (ℕ × ℤ)) → (id : ℕ) → ℤ → List ℕ → ℤ
check_quests requirements id max [] = max
check_quests requirements id max (quest ∷ quests) =
    check_quests requirements id (required id max (requirements quest)) quests

-- The while loop sends the first 255 changes each time.
unfoldable pub send_mods : (rounds mod_count : ℕ) → List InventoryModify → Client → Client
send_mods zero mod_count mods client = write client (modify_items_packet mod_count mods)
send_mods (suc rounds) mod_count mods client =
    if ltb 255 mod_count
    then send_mods rounds (mod_count - 255) mods (write client (modify_items_packet 255 mods))
    else write client (modify_items_packet mod_count mods)

-- The locals of `client_gain_inventory_item`, with the set of the items that quests still need.
pub record Filling : Type 0 where
  pub items : ℕ → Stack
  pub quantity : ℤ
  pub mods : List InventoryModify
  pub item_quests : ℕ → Bool

-- What fits of the rest goes into a slot with the item.
unfoldable pub top_up :
    (slot_max : ℤ) → (gained : InventoryItem) → ℤ → InventoryItem → InventoryItem × ℤ
top_up slot_max gained quantity item =
    if ltb_ℤ (slot_max -ℤ quantity) item.quantity
    then (record item { quantity = slot_max }, to_i16 (quantity -ℤ (slot_max -ℤ item.quantity)))
    else (
      record {
        item = record item.item { id = if item.item.id == 0 then gained.item.id else item.item.id };
        quantity = to_i16 (item.quantity +ℤ quantity);
      },
      pos 0,
    )

-- Arrows in a slot before the active projectile become active.
unfoldable pub take_arrows : (id j : ℕ) → Character → Character
take_arrows id j chr =
    let wid = weapon_id chr in
    let weapon = chr.equipped_equipment (equip_slot_to_compact 11) in
    if not weapon.is_empty
      && (ltb j chr.active_projectile
          && (wid / 10000 == 145 && id / 1000 == 2060 || wid / 10000 == 146 && id / 1000 == 2061))
    then record chr { active_projectile = j }
    else chr

unfoldable pub take_placed : (id : ℕ) → Option ℕ → Character → Character
take_placed id none chr = chr
take_placed id (some j) chr = take_arrows id j chr

-- The same for stars and bullets.
unfoldable pub take_stars : InventoryItem → (i : ℕ) → Character → Character
take_stars item i chr =
    let id = item.item.item_id in
    let wid = weapon_id chr in
    let weapon = chr.equipped_equipment (equip_slot_to_compact 11) in
    if not weapon.is_empty
      && (ltb i chr.active_projectile
          && (wid / 10000 == 147 && (item_is_throwing_star id && ltb_ℤ (pos 0) item.quantity)
              || wid / 10000 == 149 && (item_is_bullet id && ltb_ℤ (pos 0) item.quantity)))
    then record chr { active_projectile = i }
    else chr

-- `chr->inventory[...] = inv`.
unfoldable pub store_items : Character → (inv : ℕ) → (ℕ → Stack) → Character
store_items chr inv items = record chr {
  inventory = put chr.inventory inv (record (chr.inventory inv) { items = items });
}

-- A rechargeable item goes into the first empty slot, if there is one.
unfoldable pub gain_rechargeable : InventoryItem → Client → Gained
gain_rechargeable gained client =
    let chr = client.character in
    let k = gained.item.item_id / 1000000 - 2 in
    let inv = chr.inventory k in
    let added = λ (i : ℕ). add_item 2 (pos (i + 1)) gained in
    elim (find_from inv.slot_count 0 (λ i. (inv.items i).is_empty)) [
      | none ↦ record { result = success; client = send_mods 0 0 [] client }
      | some i ↦ record {
        result = success;
        client = send_mods 1 1 (added i ∷ []) (record client {
          character =
              store_items (take_stars gained i chr) k
                (put inv.items i (record { is_empty = false; item = gained }));
        });
      }
    ]

-- The end of a gain, with the changes made so far. A full inventory keeps its items, but not the set
-- of the items that quests need.
unfoldable pub finish_gain : InventoryItem → Client → (arrows : Option ℕ) → Filling → Gained
finish_gain gained client arrows s =
    let chr = record client.character { item_quests = s.item_quests } in
    let held = take_placed gained.item.item_id arrows chr in
    record {
      result = success;
      client = send_mods (length s.mods) (length s.mods) s.mods (record client {
        character = store_items held (gained.item.item_id / 1000000 - 2) s.items;
      });
    }

unfoldable pub refuse_gain : Client → Filling → Gained
refuse_gain client s = record {
  result = full;
  client =
      write
        (write
          (record client { character = record client.character { item_quests = s.item_quests } })
          inventory_full_notification_packet)
        (modify_items_packet 0 []);
}

module _ (quest : ℕ → Bool) (requirements : ℕ → List (ℕ × ℤ)) (slot_max : ℕ → ℤ) where
  -- The set without the item, if the quests require no more than `count` of it.
  unfoldable pub meet_quest : (quests : List ℕ) → (id : ℕ) → (count : ℤ) → (ℕ → Bool) → ℕ → Bool
  meet_quest quests id count item_quests =
      if quest id && eq_ℤ count (check_quests requirements id (pos 0) quests)
      then put item_quests id false
      else item_quests

  unfoldable pub fill_slot :
      (quests : List ℕ) → (gained : InventoryItem) → (i : ℕ) → Filling → Filling
  fill_slot quests gained i s =
      let id = gained.item.item_id in
      let stack = s.items i in
      let topped = top_up (slot_max id) gained s.quantity stack.item in
      if not stack.is_empty && stack.item.item.item_id == id
      then record {
        items = put s.items i (record stack { item = topped.0 });
        quantity = topped.1;
        mods = s.mods ++ (modify (id / 1000000) (pos (i + 1)) topped.0.quantity ∷ []);
        item_quests = meet_quest quests id (stack.item.quantity +ℤ gained.quantity) s.item_quests;
      }
      else s

  unfoldable pub fill_stacks :
      (quests : List ℕ) → (gained : InventoryItem) → (rounds i : ℕ) → Filling → Filling
  fill_stacks quests gained zero i s = s
  fill_stacks quests gained (suc rounds) i s =
      let filled = fill_slot quests gained i s in
      let rest = fill_stacks quests gained rounds (suc i) filled in
      if eq_ℤ filled.quantity (pos 0) then filled else rest

  -- The rest goes into the empty slot `j`.
  unfoldable pub fill_empty :
      (quests : List ℕ) → (gained : InventoryItem) → (j : ℕ) → Filling → Filling
  fill_empty quests gained j s =
      let id = gained.item.item_id in
      let item : InventoryItem = record gained { quantity = s.quantity } in
      record {
        items = put s.items j (record { is_empty = false; item = item });
        quantity = s.quantity;
        mods = s.mods ++ (add_item (id / 1000000) (pos (j + 1)) item ∷ []);
        item_quests = meet_quest quests id gained.quantity s.item_quests;
      }

  -- Where the rest goes after the slots with the item are full.
  unfoldable pub place_rest : InventoryItem → Client → (slot_count : ℕ) → Filling → Gained
  place_rest gained client slot_count s =
      if eq_ℤ s.quantity (pos 0)
      then finish_gain gained client none s
      else elim (find_from slot_count 0 (λ j. (s.items j).is_empty)) [
        | none ↦ refuse_gain client s
        | some j ↦
            finish_gain gained client (some j) (fill_empty client.character.quests gained j s)
      ]

  -- An item whose id names none of the four inventories indexes outside of their array: `none`.
  unfoldable pub client_gain_inventory_item : InventoryItem → Client → Option Gained
  client_gain_inventory_item gained client =
      let id = gained.item.item_id in
      let chr = client.character in
      let inv = chr.inventory (id / 1000000 - 2) in
      if quest id && not (chr.item_quests id)
      then some (record { result = unavailable; client = client })
      else if ltb (id / 1000000) 2 || ltb 5 (id / 1000000)
      then none
      else if item_is_rechargeable id
      then some (gain_rechargeable gained client)
      else some (
          place_rest gained client inv.slot_count (
            fill_stacks chr.quests gained inv.slot_count 0 (record {
              items = inv.items;
              quantity = gained.quantity;
              mods = [];
              item_quests = chr.item_quests;
            })))

unfoldable pub client_gain_equipment :
    (quest : ℕ → Bool) → Equipment → (equip : Bool) → Client → Gained
client_gain_equipment quest item equip client =
    let id = item.item.item_id in
    let chr = client.character in
    if quest id && not (chr.item_quests id)
    then record { result = unavailable; client = client }
    else elim (if equip then none else find_from chr.slot_count 0 (λ j. (chr.items j).is_empty)) [
      | none ↦ record { result = full; client = client }
      | some j ↦ record {
        result = success;
        client =
            write
              (record client {
                character = record chr {
                  item_quests = if quest id then put chr.item_quests id false else chr.item_quests;
                  items = put chr.items j (record { is_empty = false; equip = item });
                };
              })
              (modify_items_packet 1 (add_equip (pos (j + 1)) item ∷ []));
      }
    ]
