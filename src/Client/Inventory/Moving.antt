-- ===== src/Client/Inventory/Moving.antt =====
-- client_move_item as a whole: what a request to move a stack comes to.
use syrup.Base.{
  ℕ, ◌+◌, ◌-◌, ◌<◌, ◌≤◌, ◌≡◌, ◌≢◌, refl, ap, inl, inr, Bool, true, false, ◌==◌, not, ◌&&◌, ◌||◌,
  if◌then◌else◌, arith, Option, none, some, Bool-cases, ltb, leb, u8, ◌⊎◌,
}
use syrup.Base.Int.{ℤ, pos, ◌+ℤ◌, ◌-ℤ◌, ◌≤ℤ◌, ltb_ℤ}
use syrup.Item.{item_is_rechargeable}
use syrup.Character.{Character, Stack, Inventory, to_i16}
use syrup.Client.{Client, eq_ℤ}
use syrup.Client.Inventory.{set_stack}
use syrup.Client.Inventory.Fill.{Fits, either_way}
use syrup.Client.Inventory.Move.{
  stack_at, seek_from, add_quantity, merge, move_stack, tell, client_move_item,
}
use syrup.Client.Inventory.Keeping.{
  Keeps, two_slots, set_stack-at, either, seek_from-inventory, move_whole-Keeps, exchange-Keeps,
  swap_items-Keeps,
}

joined :
    (most q p : ℤ)
    → most ≤ℤ pos 32767
    → (pos 0 ≤ℤ q) × (q ≤ℤ most)
    → (pos 0 ≤ℤ p) × (p ≤ℤ most)
    → ltb_ℤ p (to_i16 (most -ℤ q)) ≡ true
    → to_i16 (q +ℤ p) +ℤ pos 0 ≡ q +ℤ p
unfolding ◌+ℤ◌ ◌-ℤ◌
joined most q p m h k lt = ground arith

room :
    (most q : ℤ) → most ≤ℤ pos 32767 → (pos 0 ≤ℤ q) × (q ≤ℤ most) → to_i16 (most -ℤ q) ≡ most -ℤ q
unfolding ◌-ℤ◌
room most q m h = ground arith

divided :
    (most q p : ℤ)
    → most ≤ℤ pos 32767
    → (pos 0 ≤ℤ q) × (q ≤ℤ most)
    → (pos 0 ≤ℤ p) × (p ≤ℤ most)
    → ltb_ℤ p (most -ℤ q) ≡ false
    → to_i16 (q +ℤ (most -ℤ q)) +ℤ to_i16 (p +ℤ (pos 0 -ℤ (most -ℤ q))) ≡ q +ℤ p
unfolding ◌+ℤ◌ ◌-ℤ◌
divided most q p m h k lt = ground arith

none_there :
    (b : Bool) (x z w : ℤ)
    → x +ℤ pos 0 ≡ z +ℤ w
    → (if b then x else pos 0) +ℤ pos 0 ≡ (if b then z else pos 0) +ℤ (if b then w else pos 0)
none_there true x z w h = h
none_there false x z w h = refl

module _ (slot_max : ℕ → ℤ) (chr : Character) (k src dst : ℕ) (ne : src ≢ dst)
    (from : src < (chr.inventory k).slot_count) (to : dst < (chr.inventory k).slot_count)
    (moved : (stack_at chr k src).is_empty ≡ false) (most : (id : ℕ) → slot_max id ≤ℤ pos 32767)
    (fits : (i : ℕ)
      → Fits
          (stack_at chr k i).item.item.item_id
          (slot_max (stack_at chr k i).item.item.item_id)
          (stack_at chr k i)) where
  abbrev old_dst : Stack
  old_dst = stack_at chr k dst

  abbrev old_src : Stack
  old_src = stack_at chr k src

  abbrev limit : ℤ
  limit = slot_max old_dst.item.item.item_id

  merge-Keeps :
      old_dst.is_empty ≡ false
      → old_src.item.item.item_id ≡ old_dst.item.item.item_id
      → Keeps k chr.inventory (merge slot_max k src dst chr).chr.inventory
  unfolding merge add_quantity
  merge-Keeps full same =
      let q = old_dst.item.quantity in
      let p = old_src.item.quantity in
      let amount = to_i16 (limit -ℤ q) in
      let h = fits dst full refl in
      let h' : (pos 0 ≤ℤ p) × (p ≤ℤ limit) = rw⁻¹ (ap slot_max same) (fits src moved refl) in
      let m = most old_dst.item.item.item_id in
      let rest : ltb_ℤ p amount ≡ false
          → to_i16 (q +ℤ amount) +ℤ to_i16 (p +ℤ (pos 0 -ℤ amount)) ≡ q +ℤ p =
        rw (room limit q m h) (divided limit q p m h h') in
      elim (Bool-cases (eq_ℤ q limit)) [
        | inl e ↦ rw (merge, e) (exchange-Keeps chr k src dst ne from to moved full)
        | inr e ↦ elim (Bool-cases (ltb_ℤ p amount)) [
          | inl lt ↦
              let d : Stack = record old_dst {
                item = record old_dst.item { quantity = to_i16 (q +ℤ p) };
              } in
              let whole = set_stack chr k dst d in
              let gone : Stack = record (stack_at whole k src) { is_empty = true } in
              let emptied = set_stack whole k src gone in
              rw
                (
                  merge,
                  e,
                  lt,
                  either (k == 0 && (ltb src dst && src == chr.active_projectile))
                      (seek_from (src + 1) emptied) emptied emptied.inventory
                      (seek_from-inventory (src + 1) emptied) refl,
                )
                (two_slots chr k src dst ne from to d gone (λ id.
                  rw (full, moved, same)
                    (none_there (old_dst.item.item.item_id == id) (to_i16 (q +ℤ p)) q p
                      (joined limit q p m h h' lt))))
          | inr ge ↦
              let d : Stack = record old_dst {
                item = record old_dst.item { quantity = to_i16 (q +ℤ amount) };
              } in
              let there = stack_at (set_stack chr k dst d) k src in
              let s : Stack = record there {
                item = record there.item {
                  quantity = to_i16 (there.item.quantity +ℤ (pos 0 -ℤ amount));
                };
              } in
              rw (merge, e, ge)
                (two_slots chr k src dst ne from to d s (λ id.
                  rw (set_stack-at chr k dst src d ne, full, moved, same)
                    (either_way (old_dst.item.item.item_id == id) (to_i16 (q +ℤ amount))
                      (to_i16 (p +ℤ (pos 0 -ℤ amount))) q p (rest ge))))
        ]
      ]

  -- Whatever is at the destination.
  pub move_stack-Keeps : Keeps k chr.inventory (move_stack slot_max k src dst chr).chr.inventory
  unfolding move_stack
  move_stack-Keeps = elim (Bool-cases old_dst.is_empty) [
    | inl vacant ↦ rw (move_stack, vacant) (move_whole-Keeps chr k src dst ne from to moved vacant)
    | inr full ↦
        elim (Bool-cases (
          old_dst.item.item.item_id == old_src.item.item.item_id
          && not (item_is_rechargeable old_dst.item.item.item_id))) [
            | inl e ↦ rw (move_stack, full, e) (merge-Keeps full (ground arith))
            | inr e ↦
                rw (move_stack, full, e) (swap_items-Keeps chr k src dst ne from to moved full)
          ]
  ]

-- A request for two slots is `none` outside of the inventory, and otherwise one inventory holds the same
-- of every item and the others are as before.
pub data Moves (k from to : ℕ) (client : Client) (r : Option Client) : Type 0 where
  no_slot :
      ((client.character.inventory k).slot_count ≤ from)
        ⊎ ((client.character.inventory k).slot_count ≤ to)
      → r ≡ none
      → Moves k from to client r
  moves :
      (after : Client)
      → r ≡ some after
      → Keeps k client.character.inventory after.character.inventory
      → Moves k from to client r

unchanged : (k : ℕ) (t : ℕ → Inventory) → Keeps k t t
unchanged k t = record { total = λ id. refl; others = λ j ne. refl }

-- Moving a stack to another slot loses nothing, whichever item is there, and ends within the inventory.
pub client_move_item-Moves :
    (slot_max : ℕ → ℤ) (inventory src dst : ℕ) (client : Client)
    → 2 ≤ inventory
    → inventory ≤ 5
    → u8 (src + 255) ≢ u8 (dst + 255)
    → ((id : ℕ) → slot_max id ≤ℤ pos 32767)
    → ((i : ℕ)
        → Fits
            (stack_at client.character (inventory - 2) i).item.item.item_id
            (slot_max (stack_at client.character (inventory - 2) i).item.item.item_id)
            (stack_at client.character (inventory - 2) i))
    → Moves
        (inventory - 2)
        (u8 (src + 255))
        (u8 (dst + 255))
        client
        (client_move_item slot_max false inventory src dst client)
unfolding client_move_item
client_move_item-Moves slot_max inventory src dst client low high ne most fits =
    let chr = client.character in
    let k = inventory - 2 in
    let from = u8 (src + 255) in
    let to = u8 (dst + 255) in
    let count = (chr.inventory k).slot_count in
    let known : (ltb inventory 1 || ltb 5 inventory) ≡ false = ground arith in
    let other : (inventory == 1) ≡ false = ground arith in
    elim (Bool-cases (leb count from || leb count to)) [
      | inl out ↦ no_slot (ground arith) (rw (client_move_item, known, other, out) refl)
      | inr inside ↦ elim (Bool-cases (stack_at chr k from).is_empty) [
        | inl gone ↦
            moves client (rw (client_move_item, known, other, inside, gone) refl)
              (unchanged k chr.inventory)
        | inr moved ↦
            moves (tell client (move_stack slot_max k from to chr))
              (rw (client_move_item, known, other, inside, moved) refl)
              (move_stack-Keeps slot_max chr k from to ne (ground arith) (ground arith) moved most
                fits)
      ]
    ]
