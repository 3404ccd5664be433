-- ===== src/HashSet/Removal.antt =====
-- `hash_set_remove`, and the shrinking of the arrays.
use mathlib.Core.Path.{subst}
use syrup.Base.{
  ℕ, ◌+◌, ◌-◌, ◌/◌, ◌%◌, ◌^◌, ◌<◌, ◌≡◌, refl, sym, ap, ◌∙◌, inl, inr, Bool, true, false, Option,
  none, some, arith, length, set, replicate, ltb, ◌==◌, if◌then◌else◌, Bool-cases, length-set,
}
use syrup.HashSet.{
  Cell, free, occupied, deleted, is_occupied, at, probe, HashSet, realloc_set, passes_over,
  mark_deleted, remove_cell, shrink, hash_set_remove, shrink_cells,
}
use syrup.HashSet.Cells.{
  tally, tally-le, tally-pos, find_key, find_key-some, find_key-at, find_key-set_deleted, one_place,
}
use syrup.HashSet.Probe.{probe-start-Stops, Stops}
use syrup.HashSet.Get.{none-at_free, start-lt}
use syrup.HashSet.Put.{IsTable, set_deleted-IsTable}
use syrup.HashSet.Rehash.{shrink_cells-Moves}
use syrup.HashSet.Methods.{IsValid, view, Keeps, Keeps-of_Moves}

module _ {A : Type 0} (key : A → ℕ) (hash : ℕ → ℕ) where
  -- `r` is the set `s` without the key `k`.
  pub record Removes (k : ℕ) (s : HashSet A) (r : Option (HashSet A)) : Type 0 where
    pub after : HashSet A
    pub returns : r ≡ some after
    pub valid : IsValid key hash after
    pub size : after.count + 1 ≡ s.count
    pub finds : (q : ℕ) → view key hash after q ≡ (if k == q then none else view key hash s q)
    pub iterating : after.iterating ≡ s.iterating

  module _ (k : ℕ) (s : HashSet A) (v : IsValid key hash s) where
    t : IsTable key hash s.cells s.count
    t = v.table

    abbrev from : ℕ
    from = hash k % length s.cells

    from-lt : from < length s.cells
    from-lt = start-lt key hash k s.cells t.pos t.placed (t.distinct k)

    -- The deletion of the element that the loop stops at.
    delete_at :
        (i : ℕ) (b : A)
        → i < length s.cells
        → at s.cells i ≡ occupied b
        → key b ≡ k
        → Removes k s (
            some (record s {
              cells = set s.cells i (mark_deleted key hash (occupied b));
              count = (s.count + 2 ^ 64 - 1) % 2 ^ 64;
            }))
    delete_at i b hi here same =
        let held : 0 < tally is_occupied s.cells =
          tally-pos is_occupied s.cells i hi (ap is_occupied here) in
        let few : s.count < 2 ^ 64 =
          omega (arith, v.sized, t.counted, tally-le is_occupied s.cells) in
        let less : (s.count + 2 ^ 64 - 1) % 2 ^ 64 ≡ s.count - 1 = omega (arith, held, t.counted) in
        record {
          after = record s {
            cells = set s.cells i (mark_deleted key hash (occupied b));
            count = (s.count + 2 ^ 64 - 1) % 2 ^ 64;
          };
          returns = refl;
          valid = record {
            table =
                subst (IsTable key hash (set s.cells i (deleted (some b)))) (sym less)
                  (set_deleted-IsTable key hash s.cells i hi s.count b (some b) t here);
            sized = omega (arith, length-set s.cells i (deleted (some b)), v.sized);
          };
          size = omega (arith, less, held, t.counted);
          finds = λ q.
              find_key-set_deleted key q s.cells i b (some b) hi here (t.distinct (key b))
              ∙ ap (λ (m : ℕ). if m == q then none else find_key key q s.cells) same;
          iterating = refl;
        }

    none-ne-some : {a : A} → none ≡ some a → ⊥
    none-ne-some e = cc

    true-ne-false : true ≡ false → ⊥
    true-ne-false e = cc

    -- The loop stops at the cell that holds the key.
    stop_at :
        (i : ℕ) (a : A)
        → i < length s.cells
        → at s.cells i ≡ occupied a
        → key a ≡ k
        → probe (passes_over key hash k) (length s.cells) s.cells from ≡ some i
    stop_at i a within here same = stop.returns ∙ ap some (go (at s.cells stop.index) refl)
      where
        halts : passes_over key hash k (at s.cells i) ≡ false
        halts = ap (passes_over key hash k) here ∙ ground (arith, same)

        stop :
            Stops s.cells from from-lt
              (passes_over key hash k)
              (probe (passes_over key hash k) (length s.cells) s.cells from)
        stop = probe-start-Stops s.cells from from-lt (passes_over key hash k) i within halts

        go : (c : Cell A) → at s.cells stop.index ≡ c → stop.index ≡ i
        go free e = absurd (
            none-ne-some (
              sym (
                none-at_free key hash k s.cells t.pos t.placed (t.distinct k) stop.index stop.within
                  stop.before e)
              ∙ find_key-at key k s.cells i a within here same (t.distinct k)))
        go (deleted o) e = absurd (true-ne-false (sym (ap (passes_over key hash k) e) ∙ stop.stops))
        go (occupied b) e =
            one_place key k s.cells stop.index i b a stop.within within e here
              (ground (arith, ap (passes_over key hash k) e, stop.stops)) same (t.distinct k)

    -- An element that is in a cell is removed there.
    pub remove_cell-at :
        (i : ℕ) (a : A)
        → i < length s.cells
        → at s.cells i ≡ occupied a
        → key a ≡ k
        → (remove_cell key hash k s
            ≡ some (record s {
              cells = set s.cells i (deleted (some a));
              count = (s.count + 2 ^ 64 - 1) % 2 ^ 64;
            }))
          × Removes k s (remove_cell key hash k s)
    unfolding remove_cell
    remove_cell-at i a within here same =
        let e = stop_at i a within here same in
        (rw (e, remove_cell, here) refl, rw (e, remove_cell, here) (delete_at i a within here same))

    -- The loop stops at a cell that holds the key, and deletes that.
    remove_cell-Removes :
        (a : A) → view key hash s k ≡ some a → Removes k s (remove_cell key hash k s)
    remove_cell-Removes a held =
        let (i, within, here, same) = find_key-some key k s.cells a held in
        (remove_cell-at i a within here same).1

  -- Shrinking keeps the map, whether or not the memory for it is there.
  pub shrink-Keeps :
      (allocated : Bool) (s : HashSet A)
      → IsValid key hash s
      → (m : ℕ) × Keeps key hash s m (shrink key hash allocated s)
  unfolding shrink realloc_set
  shrink-Keeps allocated s v = elim (Bool-cases (ltb s.count (length s.cells / 4))) [
    | inr e ↦ (length s.cells, rw e (stay s v))
    | inl e ↦ elim (Bool-cases allocated) [
      | inr failed ↦ (length s.cells, rw (e, failed) (stay s v))
      | inl got ↦ (
        length s.cells / 2,
        rw (e, got)
            (Keeps-of_Moves key hash s (length s.cells / 2)
              (shrink_cells key hash s.cells (replicate (length s.cells / 2) free))
              (omega (arith, v.sized))
              (shrink_cells-Moves key hash s.cells s.count (length s.cells / 2) v.table
                (ground arith) (ground arith))),
      )
    ]
  ]
    where
      stay : (s : HashSet A) → IsValid key hash s → Keeps key hash s (length s.cells) (some s)
      stay s v = record {
        after = s;
        returns = refl;
        valid = v;
        size = refl;
        capacity = refl;
        finds = λ k. refl;
        iterating = refl;
      }

  -- Removing a key that the set maps ends. It keeps the invariant, takes one from the size and
  -- unmaps that key alone, whether the arrays shrink, cannot be allocated anew, or must stay because
  -- the set is being iterated over.
  pub hash_set_remove-Removes :
      (allocated : Bool) (k : ℕ) (s : HashSet A) (a : A)
      → IsValid key hash s
      → view key hash s k ≡ some a
      → Removes k s (hash_set_remove key hash allocated k s)
  unfolding hash_set_remove
  hash_set_remove-Removes allocated k s a v held =
      let r = remove_cell-Removes k s v a held in
      let (m, kept) = shrink-Keeps allocated r.after r.valid in
      rw (r.returns, hash_set_remove)
        (elim (Bool-cases r.after.iterating) [
          | inl busy ↦ rw busy (record {
            after = r.after;
            returns = refl;
            valid = r.valid;
            size = r.size;
            finds = r.finds;
            iterating = r.iterating;
          })
          | inr idle ↦
              rw (idle, kept.returns)
                (record {
                  after = kept.after;
                  returns = refl;
                  valid = kept.valid;
                  size = omega (arith, r.size, kept.size);
                  finds = λ q. kept.finds q ∙ r.finds q;
                  iterating = kept.iterating ∙ r.iterating;
                })
        ])
