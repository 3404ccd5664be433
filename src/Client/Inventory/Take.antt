-- ===== src/Client/Inventory/Take.antt =====
-- client_remove_item: what a removal does to an inventory.
use syrup.Base.{
  ℕ, ◌+◌, ◌-◌, ◌<◌, ◌≤◌, ◌≡◌, ◌≢◌, ◌⊎◌, refl, sym, ◌∙◌, ap, inl, inr, Bool, true, false, ◌==◌, not,
  ◌&&◌, ◌||◌, arith, Option, none, some, Bool-cases, ltb, leb, u8, [], ◌∷◌,
}
use mathlib.Core.Path.{subst}
use syrup.Base.Int.{ℤ, pos, ◌+ℤ◌, ◌≤ℤ◌, ltb_ℤ}
use syrup.Item.{InventoryItem}
use syrup.Character.{Character, Stack, Inventory, put}
use syrup.Client.{Client, eq_ℤ, write}
use syrup.Packet.Items.{modify_items_packet}
use syrup.Client.Inventory.{
  weapon_id, set_stack, take_slot, need_again, client_remove_item, Removal, slot_change,
}
use syrup.Client.Inventory.Taken.{
  of_item, asked_of, too_few as few_of, taken, take_from-Taken, full_amount,
}
use syrup.Client.Inventory.Held.{
  held, amount_of, put-held, put_self, put_ne, seek_projectile-inventory, balance,
}

need_again-inventory :
    (quest : ℕ → Bool) (id : ℕ) (chr : Character)
    → (need_again quest id chr).inventory ≡ chr.inventory
unfolding need_again
need_again-inventory quest id chr = elim (Bool-cases (quest id && not (chr.item_quests id))) [
  | inl e ↦ rw (need_again, e) refl
  | inr e ↦ rw (need_again, e) refl
]

take_slot-inventory :
    (inv i : ℕ) (stack : Stack) (chr : Character)
    → (take_slot inv i stack chr).inventory ≡ (set_stack chr inv i stack).inventory
unfolding take_slot
take_slot-inventory inv i stack chr =
    elim (Bool-cases (
      inv == 0
      && (chr.active_projectile == i && (stack.is_empty || eq_ℤ stack.item.quantity (pos 0))))) [
        | inl e ↦
            rw (take_slot, e)
              (seek_projectile-inventory (weapon_id chr) (i + 1) 255 (set_stack chr inv i stack))
        | inr e ↦ rw (take_slot, e) refl
      ]

pub set_stack-held :
    (chr : Character) (k i : ℕ) (stack : Stack) (id : ℕ)
    → i < (chr.inventory k).slot_count
    → held id ((set_stack chr k i stack).inventory k) +ℤ amount_of id ((chr.inventory k).items i)
      ≡ held id (chr.inventory k) +ℤ amount_of id stack
unfolding set_stack
set_stack-held chr k i stack id lt =
    ap (λ inv. held id inv +ℤ amount_of id ((chr.inventory k).items i))
      (put_self chr.inventory k
        (record (chr.inventory k) { items = put (chr.inventory k).items i stack }))
    ∙ put-held id (chr.inventory k) i stack lt

pub set_stack-others :
    (chr : Character) (k i : ℕ) (stack : Stack) (j : ℕ)
    → j ≢ k
    → (set_stack chr k i stack).inventory j ≡ chr.inventory j
unfolding set_stack
set_stack-others chr k i stack j ne =
    put_ne chr.inventory k j
      (record (chr.inventory k) { items = put (chr.inventory k).items i stack }) ne

pub set_stack-here :
    (chr : Character) (k i : ℕ) (stack : Stack)
    → (set_stack chr k i stack).inventory k
      ≡ record (chr.inventory k) { items = put (chr.inventory k).items i stack }
unfolding set_stack
set_stack-here chr k i stack =
    put_self chr.inventory k
      (record (chr.inventory k) { items = put (chr.inventory k).items i stack })

-- A character of whom one slot is written: the inventory has as many slots, and the others of them, and
-- the other inventories, are as before.
pub record ChangesSlot (k i : ℕ) (before after : ℕ → Inventory) : Type 0 where
  pub inside : i < (before k).slot_count
  pub slots : (after k).slot_count ≡ (before k).slot_count
  pub same_slots : (j : ℕ) → j ≢ i → (after k).items j ≡ (before k).items j
  pub same_inventories : (j : ℕ) → j ≢ k → after j ≡ before j

pub set_stack-ChangesSlot :
    (chr : Character) (k i : ℕ) (stack : Stack)
    → i < (chr.inventory k).slot_count
    → ChangesSlot k i chr.inventory (set_stack chr k i stack).inventory
set_stack-ChangesSlot chr k i stack lt = record {
  inside = lt;
  slots = ap (λ inv. inv.slot_count) (set_stack-here chr k i stack);
  same_slots = λ j ne.
      ap (λ inv. inv.items j) (set_stack-here chr k i stack)
      ∙ put_ne (chr.inventory k).items i j stack ne;
  same_inventories = λ j ne. set_stack-others chr k i stack j ne;
}

-- A request that no client makes is `none`; too few of an item or an empty slot changes nothing; and
-- otherwise the item is taken from the slot, with the amount that was asked for or, if it is
-- rechargeable, whole: the inventory holds as much less of it, and no other slot changes.
pub data Removes (inv i : ℕ) (amount : ℤ) (client : Client) (r : Option Removal) : Type 0 where
  no_slot :
      (inv < 2) ⊎ ((5 < inv) ⊎ ((client.character.inventory (inv - 2)).slot_count ≤ i))
      → r ≡ none
      → Removes inv i amount client r
  too_few :
      (((client.character.inventory (inv - 2)).items i).is_empty ≡ true)
        ⊎ (ltb_ℤ ((client.character.inventory (inv - 2)).items i).item.quantity amount ≡ true)
      → (shown : Option InventoryItem)
      → r ≡ some (record { success = false; item = shown; client = client })
      → Removes inv i amount client r
  removed :
      (item : InventoryItem) (after : Client)
      → r ≡ some (record { success = true; item = some item; client = after })
      → item.item.item_id ≡ ((client.character.inventory (inv - 2)).items i).item.item.item_id
      → item.quantity ≡ asked_of ((client.character.inventory (inv - 2)).items i).item amount
      → ((id : ℕ)
          → held id (after.character.inventory (inv - 2)) +ℤ of_item id item
            ≡ held id (client.character.inventory (inv - 2)))
      → ChangesSlot (inv - 2) i client.character.inventory after.character.inventory
      → Removes inv i amount client r

-- The character after a removal, up to what is told of it.
abbrev without : (quest : ℕ → Bool) → (inv i : ℕ) → InventoryItem → Stack → Character → Character
without quest inv i item left chr =
    need_again quest item.item.item_id (take_slot (inv - 2) i left chr)

without-inventory :
    (quest : ℕ → Bool) (inv i : ℕ) (item : InventoryItem) (left : Stack) (chr : Character)
    → (without quest inv i item left chr).inventory ≡ (set_stack chr (inv - 2) i left).inventory
without-inventory quest inv i item left chr =
    need_again-inventory quest item.item.item_id (take_slot (inv - 2) i left chr)
    ∙ take_slot-inventory (inv - 2) i left chr

without-held :
    (quest : ℕ → Bool) (inv i : ℕ) (item : InventoryItem) (left : Stack) (chr : Character) (id : ℕ)
    → ((chr.inventory (inv - 2)).items i).is_empty ≡ false
    → i < (chr.inventory (inv - 2)).slot_count
    → ((id : ℕ)
        → amount_of id left +ℤ of_item id item
          ≡ of_item id ((chr.inventory (inv - 2)).items i).item)
    → held id ((without quest inv i item left chr).inventory (inv - 2)) +ℤ of_item id item
      ≡ held id (chr.inventory (inv - 2))
without-held quest inv i item left chr id full lt kept =
    let old = (chr.inventory (inv - 2)).items i in
    ap (λ t. held id (t (inv - 2)) +ℤ of_item id item) (without-inventory quest inv i item left chr)
    ∙ balance (held id ((set_stack chr (inv - 2) i left).inventory (inv - 2)))
        (held id (chr.inventory (inv - 2))) (amount_of id old) (amount_of id left) (of_item id item)
        (set_stack-held chr (inv - 2) i left id lt) (kept id ∙ full_amount id old full)

abbrev after_removal : (quest : ℕ → Bool) → (inv i : ℕ) → InventoryItem → Stack → Client → Client
after_removal quest inv i item left client =
    write (record client { character = without quest inv i item left client.character })
      (modify_items_packet 1 (slot_change inv i left ∷ []))

-- Every removal of an amount that is not negative, from a slot whose quantity is an `int16_t`,
-- does one of three things: it has no slot to take from and is refused; it finds nothing,
-- or too few of the item, in the slot and changes nothing; or it takes the amount, or the whole of
-- a rechargeable item, from that slot and from no other.
pub client_remove_item-Removes :
    (quest : ℕ → Bool) (inv src : ℕ) (amount : ℤ) (client : Client)
    → ((client.character.inventory (inv - 2)).items (u8 (src + 255))).item.quantity ≤ℤ pos 32767
    → pos 0 ≤ℤ amount
    → Removes inv (u8 (src + 255)) amount client (client_remove_item quest inv src amount client)
unfolding client_remove_item
client_remove_item-Removes quest inv src amount client high low =
    let i = u8 (src + 255) in
    let chr = client.character in
    let here = chr.inventory (inv - 2) in
    let stack = here.items i in
    elim (Bool-cases (ltb inv 2 || ltb 5 inv)) [
      | inl e ↦ no_slot (ground arith) (rw (client_remove_item, e) refl)
      | inr e ↦ elim (Bool-cases (leb here.slot_count i)) [
        | inl out ↦ no_slot (inr (inr (ground arith))) (rw (client_remove_item, e, out) refl)
        | inr inside ↦ elim (Bool-cases stack.is_empty) [
          | inl gone ↦ too_few (inl gone) none (rw (client_remove_item, e, inside, gone) refl)
          | inr full ↦ elim (take_from-Taken stack amount full high low) [
            | few_of counted few r ↦
                too_few (inr few) (some stack.item)
                  (rw (client_remove_item, e, inside, r, full) refl)
            | taken item left r same much kept ↦
                removed item (after_removal quest inv i item left client)
                  (rw (client_remove_item, e, inside, r, full) refl) same much
                  (λ id. without-held quest inv i item left chr id full (ground arith) kept)
                  (subst (ChangesSlot (inv - 2) i chr.inventory)
                    (sym (without-inventory quest inv i item left chr))
                    (set_stack-ChangesSlot chr (inv - 2) i left (ground arith)))
          ]
        ]
      ]
    ]
