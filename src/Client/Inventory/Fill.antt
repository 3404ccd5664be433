-- ===== src/Client/Inventory/Fill.antt =====
-- The loop of client_gain_inventory_item that fills the slots of an item up.
use syrup.Base.{
  ℕ, zero, suc, ◌+◌, ◌<◌, ◌≤◌, ◌≡◌, refl, ◌∙◌, inl, inr, Bool, true, false, ◌==◌, not, ◌&&◌,
  if◌then◌else◌, arith, Bool-cases, List,
}
use syrup.Base.Int.{ℤ, pos, ◌+ℤ◌, ◌-ℤ◌, ◌≤ℤ◌, ltb_ℤ}
use syrup.Item.{InventoryItem}
use syrup.Character.{Stack, Inventory, put, to_i16}
use syrup.Client.{eq_ℤ}
use syrup.Client.Inventory.Held.{held, amount_of, put-held, carry}
use syrup.Client.Inventory.Gain.{Filling, top_up, fill_slot, fill_stacks}
use syrup.Client.Inventory.Taken.{of_item}

-- A slot with the item holds no more than it may.
abbrev pub Fits : (id : ℕ) → (most : ℤ) → Stack → Type 0
Fits id most stack =
    stack.is_empty ≡ false
    → stack.item.item.item_id ≡ id
    → (pos 0 ≤ℤ stack.item.quantity) × (stack.item.quantity ≤ℤ most)

record ToppedUp (most quantity : ℤ) (item : InventoryItem) (r : InventoryItem × ℤ) : Type 0 where
  same : r.0.item.item_id ≡ item.item.item_id
  total : r.0.quantity +ℤ r.1 ≡ item.quantity +ℤ quantity
  low : pos 0 ≤ℤ r.1
  high : r.1 ≤ℤ quantity
  fits : (pos 0 ≤ℤ r.0.quantity) × (r.0.quantity ≤ℤ most)

filled_up :
    (most quantity kept : ℤ)
    → most ≤ℤ pos 32767
    → (pos 0 ≤ℤ kept) × (kept ≤ℤ most)
    → (pos 0 ≤ℤ quantity) × (quantity ≤ℤ pos 32767)
    → ltb_ℤ (most -ℤ quantity) kept ≡ true
    → (most +ℤ to_i16 (quantity -ℤ (most -ℤ kept)) ≡ kept +ℤ quantity)
      × ((pos 0 ≤ℤ to_i16 (quantity -ℤ (most -ℤ kept)))
          × (to_i16 (quantity -ℤ (most -ℤ kept)) ≤ℤ quantity))
unfolding ◌+ℤ◌ ◌-ℤ◌
filled_up most quantity kept m h q e = (ground arith, (ground arith, ground arith))

put_in :
    (most quantity kept : ℤ)
    → most ≤ℤ pos 32767
    → (pos 0 ≤ℤ kept) × (kept ≤ℤ most)
    → (pos 0 ≤ℤ quantity) × (quantity ≤ℤ pos 32767)
    → ltb_ℤ (most -ℤ quantity) kept ≡ false
    → (to_i16 (kept +ℤ quantity) +ℤ pos 0 ≡ kept +ℤ quantity)
      × ((pos 0 ≤ℤ to_i16 (kept +ℤ quantity)) × (to_i16 (kept +ℤ quantity) ≤ℤ most))
unfolding ◌+ℤ◌ ◌-ℤ◌
put_in most quantity kept m h q e = (ground arith, (ground arith, ground arith))

top_up-ToppedUp :
    (most quantity : ℤ) (gained item : InventoryItem)
    → most ≤ℤ pos 32767
    → (pos 0 ≤ℤ item.quantity) × (item.quantity ≤ℤ most)
    → (pos 0 ≤ℤ quantity) × (quantity ≤ℤ pos 32767)
    → ToppedUp most quantity item (top_up most gained quantity item)
unfolding top_up
top_up-ToppedUp most quantity gained item m h q =
    elim (Bool-cases (ltb_ℤ (most -ℤ quantity) item.quantity)) [
      | inl e ↦
          let r = filled_up most quantity item.quantity m h q e in
          rw (top_up, e)
            (record {
              same = refl;
              total = r.0;
              low = r.1.0;
              high = r.1.1;
              fits = (omega arith, omega arith);
            })
      | inr e ↦
          let r = put_in most quantity item.quantity m h q e in
          rw (top_up, e)
            (record { same = refl; total = r.0; low = omega arith; high = q.0; fits = r.1 })
    ]

-- The state of the loop: what is held and the rest are what was held and gained.
pub record IsFilling (most : ℤ) (gained : InventoryItem) (inv : Inventory) (s : Filling)
    : Type 0 where
  pub low : pos 0 ≤ℤ s.quantity
  pub high : s.quantity ≤ℤ gained.quantity
  pub fits : (i : ℕ) → Fits gained.item.item_id most (s.items i)
  pub total :
      (id : ℕ)
      → held id (record inv { items = s.items })
          +ℤ of_item id (record gained { quantity = s.quantity })
        ≡ held id inv +ℤ of_item id gained

pub put-Fits :
    (id : ℕ) (most : ℤ) (items : ℕ → Stack) (i : ℕ) (stack : Stack)
    → ((j : ℕ) → Fits id most (items j))
    → Fits id most stack
    → (j : ℕ) → Fits id most (put items i stack j)
put-Fits id most items i stack h k j = elim (Bool-cases (j == i)) [
  | inl e ↦ rw e k
  | inr e ↦ rw e (h j)
]

pub either_way :
    (b : Bool) (x y z w : ℤ)
    → x +ℤ y ≡ z +ℤ w
    → (if b then x else pos 0) +ℤ (if b then y else pos 0)
      ≡ (if b then z else pos 0) +ℤ (if b then w else pos 0)
either_way true x y z w h = h
either_way false x y z w h = refl

-- A slot with the item and the rest share what they had.
share :
    (id g : ℕ) (old new : Stack) (rest rest' : InventoryItem)
    → (old.is_empty ≡ false) × (old.item.item.item_id ≡ g)
    → (new.is_empty ≡ false) × (new.item.item.item_id ≡ g)
    → rest.item.item_id ≡ g
    → rest'.item.item_id ≡ g
    → new.item.quantity +ℤ rest'.quantity ≡ old.item.quantity +ℤ rest.quantity
    → amount_of id new +ℤ of_item id rest' ≡ amount_of id old +ℤ of_item id rest
share id g old new rest rest' o n e e' h =
    rw (o.0, n.0, o.1, n.1, e, e')
      (either_way (g == id) new.item.quantity rest'.quantity old.item.quantity rest.quantity h)

module _ (quest : ℕ → Bool) (requirements : ℕ → List (ℕ × ℤ)) (slot_max : ℕ → ℤ) (quests : List ℕ)
    (gained : InventoryItem) (inv : Inventory) (most : slot_max gained.item.item_id ≤ℤ pos 32767)
    (short : gained.quantity ≤ℤ pos 32767) where
  abbrev limit : ℤ
  limit = slot_max gained.item.item_id

  -- A slot of the item is topped up.
  abbrev topped : ℕ → Filling → InventoryItem × ℤ
  topped i s = top_up limit gained s.quantity (s.items i).item

  step-IsFilling :
      (i : ℕ) (s : Filling)
      → IsFilling limit gained inv s
      → i < inv.slot_count
      → ((s.items i).is_empty ≡ false) × ((s.items i).item.item.item_id ≡ gained.item.item_id)
      → (mods : _) (item_quests : _)
      → IsFilling limit gained inv (record {
        items = put s.items i (record (s.items i) { item = (topped i s).0 });
        quantity = (topped i s).1;
        mods = mods;
        item_quests = item_quests;
      })
  step-IsFilling i s v lt e mods item_quests =
      let old = s.items i in
      let t =
        top_up-ToppedUp limit s.quantity gained old.item most (v.fits i e.0 e.1)
          (v.low, omega arith) in
      let new : Stack = record old { item = (topped i s).0 } in
      record {
        low = t.low;
        high = omega arith;
        fits = put-Fits gained.item.item_id limit s.items i new v.fits (λ a b. t.fits);
        total = λ id.
            carry (held id (record inv { items = put s.items i new }))
              (held id (record inv { items = s.items })) (amount_of id old) (amount_of id new)
              (of_item id (record gained { quantity = s.quantity }))
              (of_item id (record gained { quantity = (topped i s).1 }))
              (held id inv +ℤ of_item id gained)
              (put-held id (record inv { items = s.items }) i new lt)
              (share id gained.item.item_id old new (record gained { quantity = s.quantity })
                (record gained { quantity = (topped i s).1 }) e (e.0, t.same ∙ e.1) refl refl
                t.total)
              (v.total id);
      }

  fill_slot-IsFilling :
      (i : ℕ) (s : Filling)
      → IsFilling limit gained inv s
      → i < inv.slot_count
      → IsFilling limit gained inv (fill_slot quest requirements slot_max quests gained i s)
  unfolding fill_slot
  fill_slot-IsFilling i s v lt =
      elim (Bool-cases
        (not (s.items i).is_empty && (s.items i).item.item.item_id == gained.item.item_id)) [
          | inl e ↦ rw (fill_slot, e) (step-IsFilling i s v lt (ground arith, ground arith) _ _)
          | inr e ↦ rw (fill_slot, e) v
        ]

  pub fill_stacks-IsFilling :
      (rounds i : ℕ) (s : Filling)
      → IsFilling limit gained inv s
      → i + rounds ≤ inv.slot_count
      → IsFilling limit gained inv
          (fill_stacks quest requirements slot_max quests gained rounds i s)
  unfolding fill_stacks
  fill_stacks-IsFilling zero i s v lt = v
  fill_stacks-IsFilling (suc rounds) i s v lt =
      let filled = fill_slot quest requirements slot_max quests gained i s in
      let w = fill_slot-IsFilling i s v (omega arith) in
      elim (Bool-cases (eq_ℤ filled.quantity (pos 0))) [
        | inl e ↦ rw (fill_stacks, e) w
        | inr e ↦ rw (fill_stacks, e) (fill_stacks-IsFilling rounds (suc i) filled w (omega arith))
      ]
