-- ===== src/Map/Objects/Loops.antt =====
-- The loops of the table of objects do what those of the hash set do.
use syrup.Base.{
  ℕ, zero, suc, ◌≡◌, refl, inl, inr, ◌==◌, if◌then◌else◌, Option, none, some, List, [], ◌∷◌, length,
  arith, Bool-cases, Option-cases,
}
use syrup.HashSet.{
  Cell, free, occupied, deleted, is_occupied, at, next_index, Found, hit, miss, endless, place,
  shrink_cells, get_loop,
}
use syrup.HashSet.Cells.{tally, tally-le}
use syrup.Map.Objects.{MapObject, oid_of, grow_objects, shrink_objects, search_loop, goes_on}

-- The object at the index that a search stopped at.
unfoldable pub stopped_at : List (Cell MapObject) → Option (Option ℕ) → Found MapObject
stopped_at objects none = endless
stopped_at objects (some none) = miss
stopped_at objects (some (some i)) = elim (at objects i) [
  | free ↦ miss
  | deleted o ↦ miss
  | occupied a ↦ hit i a
]

module _ (hash : ℕ → ℕ) where
  pub shrink_objects-eq-shrink_cells :
      (objects new : List (Cell MapObject))
      → shrink_objects hash objects new ≡ shrink_cells oid_of hash objects new
  unfolding shrink_objects shrink_cells
  shrink_objects-eq-shrink_cells [] new = refl
  shrink_objects-eq-shrink_cells (free ∷ objects) new = shrink_objects-eq-shrink_cells objects new
  shrink_objects-eq-shrink_cells (deleted o ∷ objects) new =
      shrink_objects-eq-shrink_cells objects new
  shrink_objects-eq-shrink_cells (occupied a ∷ objects) new =
      elim (Option-cases (place oid_of hash a new)) [
        | inl e ↦ rw (e, shrink_objects, shrink_cells) refl
        | inr (new', e) ↦
            rw (e, shrink_objects, shrink_cells) (shrink_objects-eq-shrink_cells objects new')
      ]

  -- In a full table no cell is deleted.
  pub grow_objects-eq-shrink_cells :
      (objects new : List (Cell MapObject))
      → tally is_occupied objects ≡ length objects
      → grow_objects hash objects new ≡ shrink_cells oid_of hash objects new
  unfolding grow_objects shrink_cells tally
  grow_objects-eq-shrink_cells [] new full = refl
  grow_objects-eq-shrink_cells (free ∷ objects) new full =
      absurd (omega (arith, tally-le is_occupied objects))
  grow_objects-eq-shrink_cells (deleted o ∷ objects) new full =
      absurd (omega (arith, tally-le is_occupied objects))
  grow_objects-eq-shrink_cells (occupied a ∷ objects) new full =
      elim (Option-cases (place oid_of hash a new)) [
        | inl e ↦ rw (e, grow_objects, shrink_cells) refl
        | inr (new', e) ↦
            rw (e, grow_objects, shrink_cells)
              (grow_objects-eq-shrink_cells objects new' (omega arith))
      ]

  pub search_loop-eq-get_loop :
      (rounds oid start : ℕ) (objects : List (Cell MapObject)) (i : ℕ)
      → stopped_at objects (search_loop hash rounds oid start objects i)
        ≡ get_loop oid_of hash rounds oid start objects i
  unfolding search_loop get_loop stopped_at
  search_loop-eq-get_loop zero oid start objects i = refl
  search_loop-eq-get_loop (suc rounds) oid start objects i =
      go (at objects i) refl
        (search_loop-eq-get_loop rounds oid start objects (next_index (length objects) i))
    where
      next : ℕ
      next = next_index (length objects) i

      rest : Option (Option ℕ)
      rest = search_loop hash rounds oid start objects next

      others : Found MapObject
      others = get_loop oid_of hash rounds oid start objects next

      go_round :
          stopped_at objects rest ≡ others
          → stopped_at objects (if next == start then some none else rest)
            ≡ (if next == start then miss else others)
      go_round ih = elim (Bool-cases (next == start)) [ inl e ↦ rw e refl | inr e ↦ rw e ih ]

      go :
          (c : Cell MapObject)
          → at objects i ≡ c
          → stopped_at objects rest ≡ others
          → stopped_at objects
              (if goes_on oid c then (if next == start then some none else rest) else some (some i))
            ≡ (elim c [
              | free ↦ miss
              | occupied a ↦
                  if oid_of a == oid then hit i a else (if next == start then miss else others)
              | deleted o ↦ if next == start then miss else others
            ])
      go free e ih = rw (stopped_at, e) refl
      go (deleted o) e ih = go_round ih
      go (occupied a) e ih = elim (Bool-cases (a.oid == oid)) [
        | inl same ↦ rw (same, stopped_at, e) refl
        | inr other ↦ rw other (go_round ih)
      ]
