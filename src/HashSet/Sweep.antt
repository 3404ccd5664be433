-- ===== src/HashSet/Sweep.antt =====
-- The loop of `foreach` from a cell on, by what happens to the element in the cell.
use syrup.Base.{
  ℕ, suc, ◌+◌, ◌-◌, ◌%◌, ◌^◌, ◌≤◌, ◌<◌, ◌≡◌, refl, sym, ap, ◌∙◌, Bool, true, false, Option, some,
  List, ◌∷◌, arith, length, set, drop, if◌then◌else◌, length-set, get_or-set_self, get_or-set_ne,
}
use syrup.HashSet.{Cell, free, occupied, deleted, at, HashSet}
use syrup.HashSet.Elements.{elements, sweep, drop-at, drop-set, drop_all}
use syrup.HashSet.Methods.{IsValid}

-- The set without the element of a cell, its arrays as long as before.
abbrev pub without : {A : Type 0} → ℕ → A → HashSet A → HashSet A
without index a s = record s {
  cells = set s.cells index (deleted (some a));
  count = (s.count + 2 ^ 64 - 1) % 2 ^ 64;
}

module _ {A : Type 0} (key : A → ℕ) (hash : ℕ → ℕ) {C : Type 0} (step : A → C → C × Bool) where
  -- The loop from an index: the cells before it are as they were, and those from it on are swept.
  pub record Swept (index : ℕ) (ctx : C) (s : HashSet A) (r : Option (C × HashSet A)) : Type 0 where
    pub after : HashSet A
    pub returns : r ≡ some ((sweep step (elements (drop index s.cells)) ctx).0, after)
    pub kept :
        elements (drop index after.cells) ≡ (sweep step (elements (drop index s.cells)) ctx).1
    pub before : (j : ℕ) → j < index → at after.cells j ≡ at s.cells j
    pub capacity : length after.cells ≡ length s.cells
    pub valid : IsValid key hash after

  pub finished :
      (index : ℕ) (ctx : C) (s : HashSet A)
      → IsValid key hash s
      → length s.cells ≤ index
      → Swept index ctx s (some (ctx, s))
  unfolding sweep elements
  finished index ctx s v past = record {
    after = s;
    returns = rw (drop_all s.cells index past) refl;
    kept = rw (drop_all s.cells index past) refl;
    before = λ j h. refl;
    capacity = refl;
    valid = v;
  }

  -- The cell at the index holds nothing.
  pub pass :
      (index : ℕ) (ctx : C) (s : HashSet A) {r : Option (C × HashSet A)}
      → index < length s.cells
      → ((rest : List (Cell A)) → elements (at s.cells index ∷ rest) ≡ elements rest)
      → Swept (suc index) ctx s r
      → Swept index ctx s r
  pass index ctx s within empty ih =
      let e = ap elements (drop-at s.cells index within) ∙ empty (drop (suc index) s.cells) in
      record {
        after = ih.after;
        returns = ih.returns ∙ ap (λ es. some ((sweep step es ctx).0, ih.after)) (sym e);
        kept =
            ap elements (drop-at ih.after.cells index (omega (arith, ih.capacity, within)))
            ∙ ap (λ c. elements (c ∷ drop (suc index) ih.after.cells))
                (ih.before index (omega arith))
            ∙ empty (drop (suc index) ih.after.cells)
            ∙ ih.kept
            ∙ ap (λ es. (sweep step es ctx).1) (sym e);
        before = λ j h. ih.before j (omega arith);
        capacity = ih.capacity;
        valid = ih.valid;
      }

  -- The element in the cell at the index stays.
  pub stay :
      (index : ℕ) (ctx : C) (s : HashSet A) (a : A) {r : Option (C × HashSet A)}
      → index < length s.cells
      → at s.cells index ≡ occupied a
      → (step a ctx).1 ≡ false
      → Swept (suc index) (step a ctx).0 s r
      → Swept index ctx s r
  unfolding elements sweep
  stay index ctx s a within here stays ih =
      let rest = elements (drop (suc index) s.cells) in
      let e : elements (drop index s.cells) ≡ a ∷ rest =
        ap elements (drop-at s.cells index within)
        ∙ ap (λ c. elements (c ∷ drop (suc index) s.cells)) here in
      record {
        after = ih.after;
        returns = ih.returns ∙ ap (λ es. some ((sweep step es ctx).0, ih.after)) (sym e);
        kept =
            ap elements (drop-at ih.after.cells index (omega (arith, ih.capacity, within)))
            ∙ ap (λ c. elements (c ∷ drop (suc index) ih.after.cells))
                (ih.before index (omega arith) ∙ here)
            ∙ ap (λ es. a ∷ es) ih.kept
            ∙ ap
                (λ (b : Bool).
                  let kept = (sweep step rest (step a ctx).0).1 in if b then kept else a ∷ kept)
                (sym stays)
            ∙ ap (λ es. (sweep step es ctx).1) (sym e);
        before = λ j h. ih.before j (omega arith);
        capacity = ih.capacity;
        valid = ih.valid;
      }

  -- The element in the cell at the index goes.
  pub go_away :
      (index : ℕ) (ctx : C) (s : HashSet A) (a : A) {r : Option (C × HashSet A)}
      → index < length s.cells
      → at s.cells index ≡ occupied a
      → (step a ctx).1 ≡ true
      → Swept (suc index) (step a ctx).0 (without index a s) r
      → Swept index ctx s r
  unfolding elements sweep
  go_away index ctx s a within here goes ih =
      let rest = elements (drop (suc index) s.cells) in
      let e : elements (drop index s.cells) ≡ a ∷ rest =
        ap elements (drop-at s.cells index within)
        ∙ ap (λ c. elements (c ∷ drop (suc index) s.cells)) here in
      let behind = ap elements (drop-set s.cells index (deleted (some a))) in
      let wide = length-set s.cells index (deleted (some a)) in
      record {
        after = ih.after;
        returns =
            ih.returns
            ∙ ap (λ es. some ((sweep step es (step a ctx).0).0, ih.after)) behind
            ∙ ap (λ es. some ((sweep step es ctx).0, ih.after)) (sym e);
        kept =
            ap elements (drop-at ih.after.cells index (omega (arith, ih.capacity, wide, within)))
            ∙ ap (λ c. elements (c ∷ drop (suc index) ih.after.cells))
                (ih.before index (omega arith)
                  ∙ get_or-set_self s.cells index (deleted (some a)) free within)
            ∙ ih.kept
            ∙ ap (λ es. (sweep step es (step a ctx).0).1) behind
            ∙ ap
                (λ (b : Bool).
                  let kept = (sweep step rest (step a ctx).0).1 in if b then kept else a ∷ kept)
                (sym goes)
            ∙ ap (λ es. (sweep step es ctx).1) (sym e);
        before = λ j h.
            ih.before j (omega arith)
            ∙ get_or-set_ne s.cells index j (deleted (some a)) free (λ q. omega arith);
        capacity = ih.capacity ∙ wide;
        valid = ih.valid;
      }
