-- ===== src/Client/Inventory/Gains.antt =====
-- client_gain_inventory_item, for an item that stacks.
use syrup.Base.{
  ℕ, zero, suc, ◌+◌, ◌-◌, ◌/◌, ◌<◌, ◌≡◌, ◌≢◌, refl, ◌∙◌, ap, sym, inl, inr, Bool, true, false, not,
  ◌&&◌, ◌||◌, ◌⊎◌, arith, Option, none, some, Bool-cases, Option-cases, List, [], ltb, length,
  some_inj, none-some,
}
use syrup.Base.Int.{ℤ, pos, ◌+ℤ◌, ◌≤ℤ◌, int_laws}
use syrup.Item.{InventoryItem, item_is_rechargeable}
use syrup.Character.{Character, Stack, Inventory, put}
use syrup.Client.{Client, eq_ℤ, write}
use syrup.Packet.Items.{InventoryModify, modify_items_packet}
use syrup.Client.Inventory.{find_from}
use syrup.Client.Inventory.Held.{
  held, amount_of, put-held, put_self, put_ne, carry, parts_of_eq, empty_amount, zero_right,
}
use syrup.Client.Inventory.Gain.{
  Filling, fill_stacks, fill_empty, Gained, success, full, unavailable, send_mods, take_arrows,
  take_placed, store_items, finish_gain, refuse_gain, place_rest, client_gain_inventory_item,
}
use syrup.Client.Inventory.Taken.{of_item}
use syrup.Client.Inventory.Fill.{Fits, IsFilling, put-Fits, fill_stacks-IsFilling}

-- The index that a loop finds is in its range and has the property.
pub find_from-found :
    (rounds i : ℕ) (p : ℕ → Bool) (j : ℕ)
    → find_from rounds i p ≡ some j
    → (j < i + rounds) × (p j ≡ true)
unfolding find_from
find_from-found zero i p j e = none-some e
find_from-found (suc rounds) i p j e = elim (Bool-cases (p i)) [
  | inl h ↦
      let same = some_inj (sym (rw (find_from, h) refl) ∙ e) in
      (let lt : i < i + suc rounds = omega arith in rw⁻¹ same lt, rw⁻¹ same h)
  | inr h ↦
      let r = find_from-found rounds (suc i) p j (sym (rw (find_from, h) refl) ∙ e) in
      (omega (arith, r.0), r.1)
]

send_mods-character :
    (rounds count : ℕ) (mods : List InventoryModify) (client : Client)
    → (send_mods rounds count mods client).character ≡ client.character
unfolding send_mods
send_mods-character zero count mods client = refl
send_mods-character (suc rounds) count mods client = elim (Bool-cases (ltb 255 count)) [
  | inl e ↦
      rw (send_mods, e)
        (send_mods-character rounds (count - 255) mods
          (write client (modify_items_packet 255 mods)))
  | inr e ↦ rw (send_mods, e) refl
]

take_placed-inventory :
    (id : ℕ) (arrows : Option ℕ) (chr : Character)
    → (take_placed id arrows chr).inventory ≡ chr.inventory
unfolding take_placed take_arrows
take_placed-inventory id none chr = refl
take_placed-inventory id (some j) chr = ground arith

-- A gain is refused, with every inventory as it was; or the id names no inventory; or the inventory that
-- it names holds as much more of the item, the others are as before, and no slot of the item has more
-- than `most`.
pub data Gains (quest : ℕ → Bool) (most : ℤ) (gained : InventoryItem) (client : Client)
    (r : Option Gained) : Type 0 where
  not_needed :
      (quest gained.item.item_id ≡ true)
        × (client.character.item_quests gained.item.item_id ≡ false)
      → r ≡ some (record { result = unavailable; client = client })
      → Gains quest most gained client r
  no_inventory :
      (gained.item.item_id / 1000000 < 2) ⊎ (5 < gained.item.item_id / 1000000)
      → r ≡ none
      → Gains quest most gained client r
  no_room :
      (after : Client)
      → r ≡ some (record { result = full; client = after })
      → ((k : ℕ) → after.character.inventory k ≡ client.character.inventory k)
      → Gains quest most gained client r
  gains :
      (after : Client)
      → r ≡ some (record { result = success; client = after })
      → ((id : ℕ)
          → held id (after.character.inventory (gained.item.item_id / 1000000 - 2))
            ≡ held id (client.character.inventory (gained.item.item_id / 1000000 - 2))
              +ℤ of_item id gained)
      → ((k : ℕ)
          → k ≢ gained.item.item_id / 1000000 - 2
          → after.character.inventory k ≡ client.character.inventory k)
      → ((i : ℕ)
          → Fits gained.item.item_id most
              ((after.character.inventory (gained.item.item_id / 1000000 - 2)).items i))
      → Gains quest most gained client r

drop_rest : (a b c : ℤ) → b ≡ pos 0 → a +ℤ b ≡ c → a ≡ c
drop_rest a b c e h = let p = parts_of_eq e in let q = parts_of_eq h in omega int_laws

no_rest :
    (id : ℕ) (gained : InventoryItem) (q : ℤ)
    → eq_ℤ q (pos 0) ≡ true
    → of_item id (record gained { quantity = q }) ≡ pos 0
no_rest id gained q e = ground arith

finish_gain-inventory :
    (gained : InventoryItem) (client : Client) (arrows : Option ℕ) (s : Filling)
    → (finish_gain gained client arrows s).client.character.inventory
      ≡ put client.character.inventory
          (gained.item.item_id / 1000000 - 2)
          (record (client.character.inventory (gained.item.item_id / 1000000 - 2)) {
            items = s.items;
          })
unfolding finish_gain store_items
finish_gain-inventory gained client arrows s =
    let k = gained.item.item_id / 1000000 - 2 in
    let id = gained.item.item_id in
    let chr = record client.character { item_quests = s.item_quests } in
    ap (λ c. c.inventory)
      (send_mods-character (length s.mods) (length s.mods) s.mods
        (record client { character = store_items (take_placed id arrows chr) k s.items }))
    ∙ ap (λ t. put t k (record (t k) { items = s.items })) (take_placed-inventory id arrows chr)

module _ (quest : ℕ → Bool) (requirements : ℕ → List (ℕ × ℤ)) (slot_max : ℕ → ℤ)
    (gained : InventoryItem) (client : Client) (most : slot_max gained.item.item_id ≤ℤ pos 32767)
    (fit : gained.quantity ≤ℤ slot_max gained.item.item_id) where
  abbrev limit : ℤ
  limit = slot_max gained.item.item_id

  abbrev kind : ℕ
  kind = gained.item.item_id / 1000000 - 2

  abbrev inv : Inventory
  inv = client.character.inventory kind

  finish_gain-Gains :
      (arrows : Option ℕ) (s : Filling)
      → ((id : ℕ) → held id (record inv { items = s.items }) ≡ held id inv +ℤ of_item id gained)
      → ((i : ℕ) → Fits gained.item.item_id limit (s.items i))
      → Gains quest limit gained client (some (finish_gain gained client arrows s))
  unfolding finish_gain
  finish_gain-Gains arrows s total fits =
      let e = finish_gain-inventory gained client arrows s in
      let here =
        ap (λ t. t kind) e
        ∙ put_self client.character.inventory kind (record inv { items = s.items }) in
      gains (finish_gain gained client arrows s).client refl (λ id. ap (held id) here ∙ total id)
        (λ k ne.
          ap (λ t. t k) e
          ∙ put_ne client.character.inventory kind k (record inv { items = s.items }) ne)
        (λ i. rw here (fits i))

  fill_empty-total :
      (quests : List ℕ) (j : ℕ) (s : Filling) (id : ℕ)
      → IsFilling limit gained inv s
      → j < inv.slot_count
      → (s.items j).is_empty ≡ true
      → held id
          (record inv { items = (fill_empty quest requirements slot_max quests gained j s).items })
        ≡ held id inv +ℤ of_item id gained
  unfolding fill_empty
  fill_empty-total quests j s id v lt e =
      let rest = of_item id (record gained { quantity = s.quantity }) in
      let new : Stack = record {
        is_empty = false;
        item = record gained { quantity = s.quantity };
      } in
      let after = held id (record inv { items = put s.items j new }) in
      drop_rest after (pos 0) (held id inv +ℤ of_item id gained) refl (
        carry after (held id (record inv { items = s.items })) (amount_of id (s.items j)) rest rest
          (pos 0) (held id inv +ℤ of_item id gained)
          (put-held id (record inv { items = s.items }) j new lt)
          (zero_right rest ∙ ap (λ x. x +ℤ rest) (sym (empty_amount id (s.items j) e)))
          (v.total id))

  place_rest-Gains :
      (s : Filling)
      → IsFilling limit gained inv s
      → Gains quest limit gained client
          (some (place_rest quest requirements slot_max gained client inv.slot_count s))
  unfolding place_rest fill_empty refuse_gain
  place_rest-Gains s v = elim (Bool-cases (eq_ℤ s.quantity (pos 0))) [
    | inl e ↦
        rw (place_rest, e)
          (finish_gain-Gains none s
            (λ id.
              drop_rest (held id (record inv { items = s.items }))
                (of_item id (record gained { quantity = s.quantity }))
                (held id inv +ℤ of_item id gained) (no_rest id gained s.quantity e) (v.total id))
            v.fits)
    | inr e ↦ elim (Option-cases (find_from inv.slot_count 0 (λ j. (s.items j).is_empty))) [
      | inl none_left ↦
          rw (place_rest, e, none_left) (no_room (refuse_gain client s).client refl (λ k. refl))
      | inr (j, found) ↦
          let r = find_from-found inv.slot_count 0 (λ j. (s.items j).is_empty) j found in
          rw (place_rest, e, found)
            (finish_gain-Gains (some j)
              (fill_empty quest requirements slot_max client.character.quests gained j s)
              (λ id. fill_empty-total client.character.quests j s id v (omega (arith, r.0)) r.1)
              (put-Fits gained.item.item_id limit s.items j
                (record { is_empty = false; item = record gained { quantity = s.quantity } }) v.fits
                (λ a b. (v.low, omega (arith, v.high, fit)))))
    ]
  ]

  -- A gain of an item that stacks, of no more than a slot may hold, which is at most what an `int16_t`
  -- holds: where no slot of the item has more than it may, the gain is refused with every inventory as it
  -- was, or its id names no inventory, or exactly what was gained is added in that inventory, the others
  -- are as before and still no slot of the item has more than it may.
  pub client_gain_inventory_item-Gains :
      item_is_rechargeable gained.item.item_id ≡ false
      → pos 0 ≤ℤ gained.quantity
      → ((i : ℕ) → Fits gained.item.item_id limit (inv.items i))
      → Gains quest limit gained client
          (client_gain_inventory_item quest requirements slot_max gained client)
  unfolding client_gain_inventory_item
  client_gain_inventory_item-Gains counted low fits =
      let id = gained.item.item_id in
      let chr = client.character in
      let start : Filling = record {
        items = inv.items;
        quantity = gained.quantity;
        mods = [];
        item_quests = chr.item_quests;
      } in
      elim (Bool-cases (quest id && not (chr.item_quests id))) [
        | inl e ↦ not_needed (ground arith) (rw (client_gain_inventory_item, e) refl)
        | inr e ↦ elim (Bool-cases (ltb (id / 1000000) 2 || ltb 5 (id / 1000000))) [
          | inl out ↦ no_inventory (ground arith) (rw (client_gain_inventory_item, e, out) refl)
          | inr inside ↦
              rw (client_gain_inventory_item, e, inside, counted)
                (place_rest-Gains
                  (fill_stacks quest requirements slot_max chr.quests gained inv.slot_count 0 start)
                  (fill_stacks-IsFilling quest requirements slot_max chr.quests gained inv most
                    (omega (arith, fit, most)) inv.slot_count 0 start
                    (record { low = low; high = omega arith; fits = fits; total = λ id. refl })
                    (omega arith)))
        ]
      ]
