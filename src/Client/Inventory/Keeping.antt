-- ===== src/Client/Inventory/Keeping.antt =====
-- The branches of client_move_item, by what they do to two slots.
use syrup.Base.{
  ℕ, ◌+◌, ◌<◌, ◌≡◌, ◌≢◌, refl, ◌∙◌, ap, sym, inl, inr, Bool, true, false, ◌==◌, ◌&&◌, if◌then◌else◌,
  Bool-cases, Option-cases, ltb, leb, min, max,
}
use syrup.Base.Int.{ℤ, ◌+ℤ◌, int_laws, +ℤ_comm}
use syrup.Character.{Character, Stack, Inventory}
use syrup.Client.Inventory.{ammunition, weapon_id, set_stack}
use syrup.Client.Inventory.Held.{
  held, amount_of, put_ne, parts_of_eq, empty_amount, zero_right, seek_projectile-inventory,
}
use syrup.Client.Inventory.Take.{set_stack-held, set_stack-here, set_stack-others}
use syrup.Client.Inventory.Taken.{of_item}
use syrup.Client.Inventory.Move.{
  stack_at, seek_from, take_over, move_whole, exchange, follow_exchange, swap_items,
}

-- The same of every item in one inventory, and the others as they were.
pub record Keeps (k : ℕ) (before after : ℕ → Inventory) : Type 0 where
  pub total : (id : ℕ) → held id (after k) ≡ held id (before k)
  pub others : (j : ℕ) → j ≢ k → after j ≡ before j

-- Another slot is as it was.
pub set_stack-at :
    (chr : Character) (k i j : ℕ) (stack : Stack)
    → j ≢ i
    → stack_at (set_stack chr k i stack) k j ≡ stack_at chr k j
set_stack-at chr k i j stack ne =
    ap (λ inv. inv.items j) (set_stack-here chr k i stack)
    ∙ put_ne (chr.inventory k).items i j stack ne

even :
    (h0 h1 h2 od os nd ns : ℤ)
    → h1 +ℤ od ≡ h0 +ℤ nd
    → h2 +ℤ os ≡ h1 +ℤ ns
    → nd +ℤ ns ≡ od +ℤ os
    → h2 ≡ h0
even h0 h1 h2 od os nd ns e f g =
    let p = parts_of_eq e in let q = parts_of_eq f in let r = parts_of_eq g in omega int_laws

module _ (chr : Character) (k src dst : ℕ) (ne : src ≢ dst)
    (from : src < (chr.inventory k).slot_count) (to : dst < (chr.inventory k).slot_count) where
  -- Two slots with together what they had.
  pub two_slots :
      (d s : Stack)
      → ((id : ℕ)
          → amount_of id d +ℤ amount_of id s
            ≡ amount_of id (stack_at chr k dst) +ℤ amount_of id (stack_at chr k src))
      → Keeps k chr.inventory (set_stack (set_stack chr k dst d) k src s).inventory
  two_slots d s same = record {
    total = λ id.
        let one = set_stack chr k dst d in
        even (held id (chr.inventory k)) (held id (one.inventory k))
          (held id ((set_stack one k src s).inventory k)) (amount_of id (stack_at chr k dst))
          (amount_of id (stack_at chr k src)) (amount_of id d) (amount_of id s)
          (set_stack-held chr k dst d id to)
          (ap (λ x. held id ((set_stack one k src s).inventory k) +ℤ amount_of id x)
              (sym (set_stack-at chr k dst src d ne))
            ∙ set_stack-held one k src s id
                (rw (ap (λ inv. inv.slot_count) (set_stack-here chr k dst d)) from))
          (same id);
    others = λ j other.
        set_stack-others (set_stack chr k dst d) k src s j other
        ∙ set_stack-others chr k dst d j other;
  }

take_over-inventory : (i : ℕ) (chr : Character) → (take_over i chr).inventory ≡ chr.inventory
unfolding take_over
take_over-inventory i chr = elim (Option-cases (ammunition (weapon_id chr))) [
  | inl e ↦ rw (take_over, e) refl
  | inr (uses, e) ↦ elim (Bool-cases (uses (stack_at chr 0 i).item)) [
    | inl u ↦ rw (take_over, e, u) refl
    | inr u ↦ rw (take_over, e, u) refl
  ]
]

pub seek_from-inventory : (i : ℕ) (chr : Character) → (seek_from i chr).inventory ≡ chr.inventory
seek_from-inventory i chr = seek_projectile-inventory (weapon_id chr) i chr.active_projectile chr

-- A choice of characters with the same inventories.
pub either :
    (b : Bool) (c d : Character) (t : ℕ → Inventory)
    → c.inventory ≡ t
    → d.inventory ≡ t
    → (if b then c else d).inventory ≡ t
either true c d t h k = h
either false c d t h k = k

follow_exchange-inventory :
    (low high : ℕ) (chr : Character) → (follow_exchange low high chr).inventory ≡ chr.inventory
unfolding follow_exchange
follow_exchange-inventory low high chr =
    either (leb low chr.active_projectile && leb chr.active_projectile high)
      (if chr.active_projectile == low
        then seek_from low chr
        else if chr.active_projectile == high
        then record chr { active_projectile = low }
        else take_over low chr)
      chr chr.inventory
      (either (chr.active_projectile == low) (seek_from low chr)
        (if chr.active_projectile == high
          then record chr { active_projectile = low }
          else take_over low chr)
        chr.inventory (seek_from-inventory low chr)
        (either (chr.active_projectile == high) (record chr { active_projectile = low })
          (take_over low chr) chr.inventory refl (take_over-inventory low chr)))
      refl

module _ (chr : Character) (k src dst : ℕ) (ne : src ≢ dst)
    (from : src < (chr.inventory k).slot_count) (to : dst < (chr.inventory k).slot_count)
    (moved : (stack_at chr k src).is_empty ≡ false) where
  abbrev old_dst : Stack
  old_dst = stack_at chr k dst

  abbrev old_src : Stack
  old_src = stack_at chr k src

  pub move_whole-Keeps :
      old_dst.is_empty ≡ true → Keeps k chr.inventory (move_whole k src dst chr).chr.inventory
  unfolding move_whole
  move_whole-Keeps vacant =
      let written = set_stack chr k dst old_src in
      let gone : Stack = record (stack_at written k src) { is_empty = true } in
      let after = set_stack written k src gone in
      let same : (move_whole k src dst chr).chr.inventory ≡ after.inventory =
        either (k == 0 && src == chr.active_projectile)
          (if ltb dst src
            then record after { active_projectile = dst }
            else seek_from (src + 1) after)
          (if k == 0 && ltb dst chr.active_projectile then take_over dst after else after)
          after.inventory
          (either (ltb dst src) (record after { active_projectile = dst })
            (seek_from (src + 1) after) after.inventory refl (seek_from-inventory (src + 1) after))
          (either (k == 0 && ltb dst chr.active_projectile) (take_over dst after) after
            after.inventory (take_over-inventory dst after) refl) in
      rw same (
        two_slots chr k src dst ne from to old_src gone (λ id.
          zero_right (amount_of id old_src)
          ∙ ap (λ x. x +ℤ amount_of id old_src) (sym (empty_amount id old_dst vacant))))

  pub exchange-Keeps :
      old_dst.is_empty ≡ false → Keeps k chr.inventory (exchange k src dst chr).inventory
  unfolding exchange
  exchange-Keeps full =
      let d : Stack = record old_dst { item = old_src.item } in
      let written = set_stack chr k dst d in
      let at = set_stack-at chr k dst src d ne in
      two_slots chr k src dst ne from to d (record (stack_at written k src) { item = old_dst.item })
        (λ id. rw (at, full, moved) (+ℤ_comm (of_item id old_src.item) (of_item id old_dst.item)))

  pub swap_items-Keeps :
      old_dst.is_empty ≡ false → Keeps k chr.inventory (swap_items k src dst chr).chr.inventory
  unfolding swap_items
  swap_items-Keeps full = elim (Bool-cases (k == 0)) [
    | inl e ↦
        rw
          (
            swap_items,
            e,
            follow_exchange-inventory (min src dst) (max src dst) (exchange k src dst chr),
          )
          (exchange-Keeps full)
    | inr e ↦ rw (swap_items, e) (exchange-Keeps full)
  ]
