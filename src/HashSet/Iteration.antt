-- ===== src/HashSet/Iteration.antt =====
-- `hash_set_u32_foreach` with a callback that removes elements, as those of the rooms' manager do.
use mathlib.Core.Path.{subst}
use syrup.Base.{
  some_inj, ℕ, zero, suc, ◌+◌, ◌≤◌, ◌<◌, ◌≡◌, refl, sym, ap, ◌∙◌, inl, inr, Bool, true, false,
  Option, none, some, List, arith, length, ltb, Bool-cases, length-set,
}
use syrup.HashSet.{
  occupied, deleted, at, HashSet, visit_from, hash_set_remove, hash_set_u32_foreach,
}
use syrup.HashSet.Elements.{elements, sweep, Cell-cases, first_with, elements-view}
use syrup.HashSet.Methods.{IsValid, view}
use syrup.HashSet.Removal.{remove_cell-at, shrink-Keeps}
use syrup.HashSet.Sweep.{Swept, without, finished, pass, stay, go_away}

module _ {A : Type 0} (key : A → ℕ) (hash : ℕ → ℕ) where
  -- A callback that removes the element that it is called with where `step` says so.
  pub removing :
      {C : Type 0}
      → (allocated : Bool) → (A → C → C × Bool)
      → A
      → C
      → HashSet A
      → Option (C × HashSet A)
  removing allocated step a ctx s = elim (step a ctx).1 [
    | false ↦ some ((step a ctx).0, s)
    | true ↦ elim (hash_set_remove key hash allocated (key a) s) [
      | none ↦ none
      | some t ↦ some ((step a ctx).0, t)
    ]
  ]

  module _ {C : Type 0} (allocated : Bool) (step : A → C → C × Bool) where
    -- While the set is iterated over, a removal empties the cell and does nothing else.
    remove_at :
        (index : ℕ) (s : HashSet A) (a : A)
        → IsValid key hash s
        → s.iterating ≡ true
        → index < length s.cells
        → at s.cells index ≡ occupied a
        → (hash_set_remove key hash allocated (key a) s ≡ some (without index a s))
          × IsValid key hash (without index a s)
    unfolding hash_set_remove
    remove_at index s a v busy within here =
        let (e, r) = remove_cell-at key hash (key a) s v index a within here refl in
        (
          rw (hash_set_remove, e, busy) refl,
          subst (IsValid key hash) (some_inj (sym r.returns ∙ e)) r.valid,
        )

    visit_from-Swept :
        (rounds index : ℕ) (ctx : C) (s : HashSet A)
        → IsValid key hash s
        → s.iterating ≡ true
        → length s.cells ≤ index + rounds
        → Swept key hash step index ctx s (visit_from (removing allocated step) rounds index ctx s)
    unfolding visit_from removing elements
    visit_from-Swept zero index ctx s v busy enough =
        let past : ltb index (length s.cells) ≡ false = ground arith in
        rw (visit_from, past) (finished key hash step index ctx s v (omega arith))
    visit_from-Swept (suc rounds) index ctx s v busy enough =
        elim (Bool-cases (ltb index (length s.cells))) [
          | inr past ↦ rw (visit_from, past) (finished key hash step index ctx s v (ground arith))
          | inl inside ↦
              let within : index < length s.cells = ground arith in
              let later =
                λ (ctx' : C). visit_from-Swept rounds (suc index) ctx' s v busy (omega arith) in
              elim (Cell-cases (at s.cells index)) [
                | inl e ↦
                    rw (visit_from, inside, e)
                      (pass key hash step index ctx s within (λ rest. rw e refl) (later ctx))
                | inr (inl (o, e)) ↦
                    rw (visit_from, inside, e)
                      (pass key hash step index ctx s within (λ rest. rw e refl) (later ctx))
                | inr (inr (a, e)) ↦ elim (Bool-cases (step a ctx).1) [
                  | inr stays ↦
                      rw (visit_from, inside, e, removing, stays)
                        (stay key hash step index ctx s a within e stays (later (step a ctx).0))
                  | inl goes ↦
                      let (removed, v') = remove_at index s a v busy within e in
                      rw (visit_from, inside, e, removing, goes, removed)
                        (go_away key hash step index ctx s a within e goes (
                          visit_from-Swept rounds (suc index) (step a ctx).0 (without index a s) v'
                            busy (omega (arith, length-set s.cells index (deleted (some a))))))
                ]
              ]
        ]

    -- What an iteration leaves: each element was visited once, and those that were not removed are there.
    pub record Sweeps (ctx : C) (s : HashSet A) (r : Option (C × HashSet A)) : Type 0 where
      pub visited : List A
      pub after : HashSet A
      pub returns : r ≡ some ((sweep step visited ctx).0, after)
      pub all : length visited ≡ s.count
      pub each : (k : ℕ) → first_with key k visited ≡ view key hash s k
      pub valid : IsValid key hash after
      pub size : after.count ≡ length (sweep step visited ctx).1
      pub finds : (k : ℕ) → view key hash after k ≡ first_with key k (sweep step visited ctx).1
      pub idle : after.iterating ≡ false

    -- An iteration over a well-formed set, whose callback removes some of the elements that it is
    -- called with, in as many rounds as there are cells, ends. The callback is called with as many
    -- elements as the size says, for each key with the element that the set maps it to; after it
    -- the set is well formed, maps to exactly the elements that were not removed, and is no longer
    -- iterated over.
    pub hash_set_u32_foreach-Sweeps :
        (rounds : ℕ) (ctx : C) (s : HashSet A)
        → IsValid key hash s
        → length s.cells ≤ rounds
        → Sweeps ctx s
            (hash_set_u32_foreach key hash allocated (removing allocated step) rounds ctx s)
    unfolding hash_set_u32_foreach
    hash_set_u32_foreach-Sweeps rounds ctx s v enough =
        let swept =
          visit_from-Swept rounds 0 ctx (record s { iterating = true })
            (record { table = v.table; sized = v.sized }) refl (omega arith) in
        let t = swept.after in
        let (m, kept) =
          shrink-Keeps key hash allocated (record t { iterating = false })
            (record { table = swept.valid.table; sized = swept.valid.sized }) in
        let all = elements-view key s.cells in
        let rest = elements-view key t.cells in
        record {
          visited = elements s.cells;
          after = kept.after;
          returns = rw (hash_set_u32_foreach, swept.returns, kept.returns) refl;
          all = all.0 ∙ v.table.counted;
          each = all.1;
          valid = kept.valid;
          size =
              kept.size
              ∙ sym (swept.valid.table.counted)
              ∙ sym rest.0
              ∙ ap (λ (es : List A). length es) swept.kept;
          finds = λ k. kept.finds k ∙ sym (rest.1 k) ∙ ap (first_with key k) swept.kept;
          idle = kept.iterating;
        }
