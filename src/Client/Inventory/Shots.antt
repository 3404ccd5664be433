-- ===== src/Client/Inventory/Shots.antt =====
-- client_use_projectile: the slot of a shot, and what is taken from it.
use syrup.Base.{
  ℕ, ◌+◌, ◌-◌, ◌<◌, ◌≡◌, ◌⊎◌, refl, sym, ◌∙◌, ap, inl, inr, Bool, true, false, ◌==◌, ◌||◌,
  if◌then◌else◌, arith, Bool-cases, Option-cases, ltb, leb, u8, [], ◌∷◌,
}
use mathlib.Core.Path.{subst}
use syrup.Base.Int.{ℤ, pos, ◌+ℤ◌, ◌≤ℤ◌, ltb_ℤ, int_laws}
use syrup.Item.{InventoryItem, item_is_rechargeable}
use syrup.Character.{Character, Stack, Inventory, leb_ℤ}
use syrup.Packet.Items.{modify_items_packet}
use syrup.Client.{Client, eq_ℤ, write}
use syrup.Client.Inventory.{
  find_from, weapon_id, set_stack, shoot, shot_slot, reload, slot_change, client_use_projectile,
}
use syrup.Client.Inventory.Held.{
  held, amount_of, balance, empty_amount, parts_of_eq, seek_projectile-inventory,
}
use syrup.Client.Inventory.Take.{set_stack-held, ChangesSlot, set_stack-ChangesSlot}
use syrup.Client.Inventory.Taken.{of_item, part_of, whole, zero_plus}
use syrup.Client.Inventory.Gains.{find_from-found}

-- A shot's worth of an item.
abbrev pub spent : InventoryItem → (amount : ℤ) → InventoryItem
spent item amount = record item { quantity = amount }

shoot-takes :
    (id : ℕ) (stack : Stack) (amount : ℤ)
    → stack.is_empty ≡ false
    → stack.item.quantity ≤ℤ pos 32767
    → pos 0 ≤ℤ amount
    → ltb_ℤ stack.item.quantity amount ≡ false
    → amount_of id (shoot stack amount) +ℤ of_item id (spent stack.item amount) ≡ amount_of id stack
unfolding shoot
shoot-takes id stack amount full high low enough =
    let item = stack.item in
    let part = part_of (item.item.item_id == id) item.quantity amount high low enough in
    elim (Bool-cases (item_is_rechargeable item.item.item_id)) [
      | inl charged ↦ rw (shoot, charged, full) part
      | inr counted ↦ elim (Bool-cases (eq_ℤ item.quantity amount)) [
        | inl all ↦
            rw (shoot, counted, all, full)
              (zero_plus (of_item id (spent item amount))
                ∙ ap (λ q. of_item id (record item { quantity = q }))
                    (whole item.quantity amount all))
        | inr some_left ↦ rw (shoot, counted, some_left, full) part
      ]
    ]

shoot-empty :
    (id : ℕ) (stack : Stack) (amount : ℤ)
    → stack.is_empty ≡ true
    → amount_of id (shoot stack amount) ≡ pos 0
unfolding shoot
shoot-empty id stack amount gone = ground arith

reload-inventory : (chr : Character) → (reload chr).inventory ≡ chr.inventory
unfolding reload
reload-inventory chr =
    let stack = (chr.inventory 0).items chr.active_projectile in
    let from = u8 (chr.active_projectile + 1) in
    elim (Bool-cases (stack.is_empty || eq_ℤ stack.item.quantity (pos 0))) [
      | inl e ↦
          rw (reload, e)
            (seek_projectile-inventory (weapon_id chr) from
              (if leb from (chr.inventory 0).slot_count then 255 else chr.active_projectile) chr)
      | inr e ↦ rw (reload, e) refl
    ]

enough : (amount q : ℤ) → leb_ℤ amount q ≡ true → ltb_ℤ q amount ≡ false
enough amount q h = ground arith

-- The loop ends at the first slot with enough, or at the end.
shot_slot-found :
    (inv : Inventory) (from : ℕ) (amount : ℤ)
    → from < inv.slot_count
    → (shot_slot inv from amount ≡ inv.slot_count)
      ⊎ ((shot_slot inv from amount < inv.slot_count)
          × (ltb_ℤ (inv.items (shot_slot inv from amount)).item.quantity amount ≡ false))
unfolding shot_slot
shot_slot-found inv from amount lt =
    let p = λ (i : ℕ). leb_ℤ amount (inv.items i).item.quantity in
    elim (Option-cases (find_from (inv.slot_count - from) from p)) [
      | inl e ↦ inl (rw (shot_slot, e) (ground arith))
      | inr (j, e) ↦
          let r = find_from-found (inv.slot_count - from) from p j e in
          inr
            (rw (shot_slot, e) (omega (arith, r.0), enough amount (inv.items j).item.quantity r.1))
    ]

-- The slot at which the loop ends, from the active one.
abbrev pub shot_from : (amount : ℤ) → Client → ℕ
shot_from amount client =
    shot_slot (client.character.inventory 0) client.character.active_projectile amount

-- A shot from the slot at which the loop ends. It fails and changes nothing; or it takes its amount of
-- the item of that slot; or the slot was and stays empty. No other slot changes.
pub data Shoots (amount : ℤ) (client : Client) (r : Bool × Client) : Type 0 where
  misses : r ≡ (false, client) → Shoots amount client r
  shoots :
      (after : Client)
      → r ≡ (true, after)
      → ((client.character.inventory 0).items (shot_from amount client)).is_empty ≡ false
      → ((id : ℕ)
          → held id (after.character.inventory 0)
              +ℤ of_item id (
                  spent
                    ((client.character.inventory 0).items (shot_from amount client)).item
                    amount)
            ≡ held id (client.character.inventory 0))
      → ChangesSlot 0 (shot_from amount client) client.character.inventory after.character.inventory
      → Shoots amount client r
  free :
      (after : Client)
      → r ≡ (true, after)
      → ((client.character.inventory 0).items (shot_from amount client)).is_empty ≡ true
      → ((id : ℕ) → held id (after.character.inventory 0) ≡ held id (client.character.inventory 0))
      → ChangesSlot 0 (shot_from amount client) client.character.inventory after.character.inventory
      → Shoots amount client r

same_held :
    (after before old new : ℤ)
    → after +ℤ old ≡ before +ℤ new
    → old ≡ pos 0
    → new ≡ pos 0
    → after ≡ before
same_held after before old new e f g =
    let p = parts_of_eq e in let q = parts_of_eq f in let r = parts_of_eq g in omega int_laws

-- A shot of an amount that is not negative, where the quantities are `int16_t` and the active
-- slot, if there is one, is of the inventory, fails and changes nothing, takes its amount from the
-- slot at which the loop ends, or finds that slot empty and costs nothing; no other slot changes.
pub client_use_projectile-Shoots :
    (amount : ℤ) (client : Client)
    → pos 0 ≤ℤ amount
    → ((i : ℕ) → ((client.character.inventory 0).items i).item.quantity ≤ℤ pos 32767)
    → (client.character.active_projectile ≡ 255)
      ⊎ (client.character.active_projectile < (client.character.inventory 0).slot_count)
    → Shoots amount client (client_use_projectile amount client)
unfolding client_use_projectile
client_use_projectile-Shoots amount client low high (inl off) =
    misses (rw (client_use_projectile, off) refl)
client_use_projectile-Shoots amount client low high (inr lt) =
    let chr = client.character in
    let inv = chr.inventory 0 in
    let slot = shot_slot inv chr.active_projectile amount in
    let stack = inv.items slot in
    let shot = set_stack chr 0 slot (shoot stack amount) in
    let after =
      write (record client { character = reload shot })
        (modify_items_packet 1 (slot_change 2 slot ((shot.inventory 0).items slot) ∷ [])) in
    elim (Bool-cases (chr.active_projectile == 255)) [
      | inl e ↦ misses (rw (client_use_projectile, e) refl)
      | inr e ↦ elim (shot_slot-found inv chr.active_projectile amount lt) [
        | inl end ↦
            let at : (slot == inv.slot_count) ≡ true = ground arith in
            misses (rw (client_use_projectile, e, at) refl)
        | inr (inside, enough) ↦
            let on : (slot == inv.slot_count) ≡ false = ground arith in
            let in_range : ltb slot inv.slot_count ≡ true = ground arith in
            let back = reload-inventory shot in
            let changes =
              subst (ChangesSlot 0 slot chr.inventory) (sym back)
                (set_stack-ChangesSlot chr 0 slot (shoot stack amount) inside) in
            elim (Bool-cases stack.is_empty) [
              | inl gone ↦
                  free after (rw (client_use_projectile, e, on, in_range) refl) gone
                    (λ id.
                      ap (λ t. held id (t 0)) back
                      ∙ same_held (held id (shot.inventory 0)) (held id inv) (amount_of id stack)
                          (amount_of id (shoot stack amount))
                          (set_stack-held chr 0 slot (shoot stack amount) id inside)
                          (empty_amount id stack gone) (shoot-empty id stack amount gone))
                    changes
              | inr full ↦
                  shoots after (rw (client_use_projectile, e, on, in_range) refl) full
                    (λ id.
                      ap (λ t. held id (t 0) +ℤ of_item id (spent stack.item amount)) back
                      ∙ balance (held id (shot.inventory 0)) (held id inv) (amount_of id stack)
                          (amount_of id (shoot stack amount)) (of_item id (spent stack.item amount))
                          (set_stack-held chr 0 slot (shoot stack amount) id inside)
                          (shoot-takes id stack amount full (high slot) low enough))
                    changes
            ]
      ]
    ]
