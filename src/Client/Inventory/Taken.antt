-- ===== src/Client/Inventory/Taken.antt =====
-- What is taken from a slot.
use syrup.Base.{
  ℕ, ◌≡◌, refl, ◌∙◌, ap, inl, inr, Bool, true, false, ◌==◌, if◌then◌else◌, arith, Option, none,
  some, Bool-cases,
}
use syrup.Base.Int.{ℤ, pos, ◌+ℤ◌, ◌-ℤ◌, ◌≤ℤ◌, ltb_ℤ}
use syrup.Item.{InventoryItem, item_is_rechargeable}
use syrup.Character.{Stack, to_i16}
use syrup.Client.{eq_ℤ}
use syrup.Client.Inventory.{take_from}
use syrup.Client.Inventory.Held.{amount_of}

-- What an item of its own counts for.
abbrev pub of_item : (id : ℕ) → InventoryItem → ℤ
of_item id item = if item.item.item_id == id then item.quantity else pos 0

-- A rechargeable item goes whole.
abbrev pub asked_of : InventoryItem → (amount : ℤ) → ℤ
asked_of item amount = if item_is_rechargeable item.item.item_id then item.quantity else amount

pub data Taken (stack : Stack) (amount : ℤ) (r : Option (InventoryItem × Stack)) : Type 0 where
  too_few :
      item_is_rechargeable stack.item.item.item_id ≡ false
      → ltb_ℤ stack.item.quantity amount ≡ true
      → r ≡ none
      → Taken stack amount r
  taken :
      (item : InventoryItem) (left : Stack)
      → r ≡ some (item, left)
      → item.item.item_id ≡ stack.item.item.item_id
      → item.quantity ≡ asked_of stack.item amount
      → ((id : ℕ) → amount_of id left +ℤ of_item id item ≡ of_item id stack.item)
      → Taken stack amount r

pub full_amount :
    (id : ℕ) (stack : Stack) → stack.is_empty ≡ false → of_item id stack.item ≡ amount_of id stack
full_amount id stack full = rw full refl

pub zero_plus : (a : ℤ) → pos 0 +ℤ a ≡ a
unfolding ◌+ℤ◌
zero_plus a = ground arith

pub whole : (q amount : ℤ) → eq_ℤ q amount ≡ true → amount ≡ q
whole q amount h = ground arith

-- The difference fits an `int16_t`.
part :
    (q amount : ℤ)
    → q ≤ℤ pos 32767
    → pos 0 ≤ℤ amount
    → ltb_ℤ q amount ≡ false
    → to_i16 (q -ℤ amount) +ℤ amount ≡ q
unfolding ◌+ℤ◌ ◌-ℤ◌
part q amount high low h = ground arith

pub part_of :
    (b : Bool) (q amount : ℤ)
    → q ≤ℤ pos 32767
    → pos 0 ≤ℤ amount
    → ltb_ℤ q amount ≡ false
    → (if b then to_i16 (q -ℤ amount) else pos 0) +ℤ (if b then amount else pos 0)
      ≡ (if b then q else pos 0)
part_of true q amount high low h = part q amount high low h
part_of false q amount high low h = zero_plus (pos 0)

pub take_from-Taken :
    (stack : Stack) (amount : ℤ)
    → stack.is_empty ≡ false
    → stack.item.quantity ≤ℤ pos 32767
    → pos 0 ≤ℤ amount
    → Taken stack amount (take_from stack amount)
unfolding take_from
take_from-Taken stack amount full high low =
    let item = stack.item in
    elim (Bool-cases (item_is_rechargeable item.item.item_id)) [
      | inl charged ↦
          taken item (record stack { is_empty = true }) (rw (take_from, charged) refl) refl
            (rw charged refl) (λ id. zero_plus (of_item id item))
      | inr counted ↦ elim (Bool-cases (ltb_ℤ item.quantity amount)) [
        | inl few ↦ too_few counted few (rw (take_from, counted, few) refl)
        | inr enough ↦ elim (Bool-cases (eq_ℤ item.quantity amount)) [
          | inl all ↦
              taken (record item { quantity = amount }) (record stack { is_empty = true })
                (rw (take_from, counted, enough, all) refl) refl (rw counted refl)
                (λ id.
                  zero_plus (of_item id (record item { quantity = amount }))
                  ∙ ap (λ q. of_item id (record item { quantity = q }))
                      (whole item.quantity amount all))
          | inr some_left ↦
              taken (record { quantity = amount; item = record item.item { id = 0 } })
                (record stack {
                  item = record item { quantity = to_i16 (item.quantity -ℤ amount) };
                })
                (rw (take_from, counted, enough, some_left) refl) refl (rw counted refl)
                (λ id.
                  rw full (part_of (item.item.item_id == id) item.quantity amount high low enough))
        ]
      ]
    ]
