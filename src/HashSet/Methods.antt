-- ===== src/HashSet/Methods.antt =====
-- The operations of the set: each ends, keeps the set well formed, and has its effect on the map
-- from keys to elements that the set stands for.
use syrup.Base.{
  ℕ, zero, suc, ◌+◌, ◌*◌, ◌%◌, ◌^◌, ◌<◌, ◌≡◌, ◌≢◌, refl, ap, ◌∙◌, inl, inr, Bool, true, false,
  Option, none, some, List, [], ◌∷◌, arith, length, set, replicate, ◌==◌, if◌then◌else◌, Bool-cases,
  length-set,
}
use syrup.HashSet.{
  Cell, free, occupied, deleted, is_used, is_occupied, at, probe, HashSet, endless, found,
  hash_set_init, hash_set_clear, insert_cell, grow, hash_set_insert, hash_set_get, grow_cells,
}
use syrup.HashSet.Cells.{
  tally, tally-le, holds_key, find_key, find_key-set_occupied, fails_somewhere,
}
use syrup.HashSet.Probe.{probe-start-Stops, Stops}
use syrup.HashSet.Get.{get_loop-start-Answers, start-lt}
use syrup.HashSet.Put.{IsTable, set_occupied-IsTable}
use syrup.HashSet.Rehash.{Moves, grow_cells-Moves}

module _ {A : Type 0} (key : A → ℕ) (hash : ℕ → ℕ) where
  -- The invariant: the count is that of the occupied cells, no key is there twice, each element can
  -- be reached from the place of its hash, and the capacity is a `size_t`.
  pub record IsValid (s : HashSet A) : Type 0 where
    pub table : IsTable key hash s.cells s.count
    pub sized : length s.cells < 2 ^ 64

  -- The element that the set maps a key to.
  abbrev pub view : HashSet A → ℕ → Option A
  view s k = find_key key k s.cells

  empty-IsTable : IsTable key hash (free ∷ []) 0
  unfolding tally
  empty-IsTable = record {
    pos = omega arith;
    counted = refl;
    placed = λ i a hi e. absurd (never i a e);
    distinct = λ k. omega arith;
  }
    where
      never : (i : ℕ) (a : A) → at (free ∷ []) i ≡ occupied a → ⊥
      never zero a e = cc
      never (suc i) a e = cc

  abbrev empty_set : Bool → HashSet A
  empty_set iterating = record { cells = free ∷ []; count = 0; iterating = iterating }

  empty_set-IsValid : (b : Bool) → IsValid (empty_set b)
  empty_set-IsValid b = record { table = empty-IsTable; sized = omega arith }

  -- A new set, and a set that is cleared, are well formed and map no key; nothing else changes.
  hash_set_empty :
      (s : HashSet A)
      → ((fresh : HashSet A) × (hash_set_init true ≡ some fresh)
          × IsValid fresh
          × (fresh.count ≡ 0)
          × ((k : ℕ) → view fresh k ≡ none))
        × IsValid (hash_set_clear s)
        × ((hash_set_clear s).count ≡ 0)
        × ((k : ℕ) → view (hash_set_clear s) k ≡ none)
        × ((hash_set_clear s).iterating ≡ s.iterating)
  unfolding hash_set_init hash_set_clear find_key
  hash_set_empty s = (
    (empty_set false, refl, empty_set-IsValid false, refl, λ k. refl),
    empty_set-IsValid s.iterating,
    refl,
    λ k. refl,
    refl,
  )

  -- A search ends, and finds exactly the element that the set maps the key to.
  pub hash_set_get-view :
      (s : HashSet A) (k : ℕ)
      → IsValid s
      → (found (hash_set_get key hash k s) ≡ view s k) × (hash_set_get key hash k s ≢ endless)
  unfolding hash_set_get
  hash_set_get-view s k v =
      let a =
        get_loop-start-Answers key hash k s.cells v.table.pos v.table.placed (v.table.distinct k) in
      (a.value, a.ended)

  -- `r` is the set `s` with `a` added.
  pub record Inserts (a : A) (s : HashSet A) (r : Option (HashSet A)) : Type 0 where
    pub after : HashSet A
    pub returns : r ≡ some after
    pub valid : IsValid after
    pub size : after.count ≡ s.count + 1
    pub finds : (k : ℕ) → view after k ≡ (if key a == k then some a else view s k)

  -- A key that the set does not map is held by no cell.
  not_held :
      (k : ℕ) (cells : List (Cell A))
      → find_key key k cells ≡ none
      → tally (holds_key key k) cells ≡ 0
  unfolding tally find_key
  not_held k [] h = refl
  not_held k (free ∷ cells) h = omega (arith, not_held k cells h)
  not_held k (deleted o ∷ cells) h = omega (arith, not_held k cells h)
  not_held k (occupied a ∷ cells) h = ground (arith, not_held k cells)

  unoccupied_used : (c : Cell A) → is_occupied c ≡ true → is_used c ≡ true
  unoccupied_used free h = h
  unoccupied_used (occupied a) h = refl
  unoccupied_used (deleted o) h = cc

  pub insert_cell-Inserts :
      (a : A) (s : HashSet A)
      → IsValid s
      → s.count < length s.cells
      → view s (key a) ≡ none
      → Inserts a s (insert_cell key hash a s)
  unfolding insert_cell
  insert_cell-Inserts a s v room new =
      rw (stop.returns, insert_cell)
        (record {
          after = record s { cells = set s.cells stop.index (occupied a); count = s.count + 1 };
          returns = refl;
          valid = record {
            table =
                set_occupied-IsTable key hash s.cells stop.index stop.within s.count a t stop.stops
                  (λ j hj near. unoccupied_used (at s.cells j) (stop.before j hj near))
                  (not_held (key a) s.cells new);
            sized = omega (arith, length-set s.cells stop.index (occupied a), v.sized);
          };
          size = refl;
          finds = λ k.
              find_key-set_occupied key k s.cells stop.index a stop.within stop.stops
                (not_held (key a) s.cells new);
        })
    where
      t : IsTable key hash s.cells s.count
      t = v.table

      from : ℕ
      from = hash (key a) % length s.cells

      from-lt : from < length s.cells
      from-lt = start-lt key hash (key a) s.cells t.pos t.placed (t.distinct (key a))

      hole : (k : ℕ) × (k < length s.cells) × (is_occupied (at s.cells k) ≡ false)
      hole = fails_somewhere is_occupied s.cells (omega (arith, t.counted, room))

      stop :
          Stops s.cells from from-lt is_occupied (probe is_occupied (length s.cells) s.cells from)
      stop = probe-start-Stops s.cells from from-lt is_occupied hole.0 hole.1 hole.2

  -- `r` is the set `s` after its elements were moved to arrays of `m` cells.
  pub record Keeps (s : HashSet A) (m : ℕ) (r : Option (HashSet A)) : Type 0 where
    pub after : HashSet A
    pub returns : r ≡ some after
    pub valid : IsValid after
    pub size : after.count ≡ s.count
    pub capacity : length after.cells ≡ m
    pub finds : (k : ℕ) → view after k ≡ view s k
    pub iterating : after.iterating ≡ s.iterating

  pub Keeps-of_Moves :
      (s : HashSet A) (m : ℕ) (r : Option (List (Cell A)))
      → m < 2 ^ 64
      → Moves key hash s.cells s.count m r
      → Keeps s m (elim r [ none ↦ none | some cells ↦ some (record s { cells = cells }) ])
  Keeps-of_Moves s m r fits moved = rw moved.returns (record {
    after = record s { cells = moved.cells' };
    returns = refl;
    valid = record { table = moved.table; sized = omega (arith, moved.size, fits) };
    size = refl;
    capacity = moved.size;
    finds = moved.finds;
    iterating = refl;
  })

  grow-Keeps :
      (s : HashSet A)
      → IsValid s
      → s.count ≡ length s.cells
      → length s.cells * 2 < 2 ^ 64
      → Keeps s (length s.cells * 2) (grow key hash s)
  unfolding grow
  grow-Keeps s v full fits =
      Keeps-of_Moves s (length s.cells * 2)
        (grow_cells key hash s.cells (replicate (length s.cells * 2) free)) fits
        (grow_cells-Moves key hash s.cells s.count (length s.cells * 2) v.table full
          (omega (arith, v.table.pos)) (omega arith))

  -- What `hash_set_insert` does: it adds the element and returns 0, or the memory for larger arrays
  -- is not there and it returns -1.
  pub data Inserted (allocated : Bool) (a : A) (s : HashSet A) (r : Option (Bool × HashSet A))
      : Type 0 where
    added : (t : HashSet A) → r ≡ some (true, t) → Inserts a s (some t) → Inserted allocated a s r
    no_memory :
        allocated ≡ false
        → s.count ≡ length s.cells
        → r ≡ some (false, s)
        → Inserted allocated a s r

  -- The insertion behind a growth that kept the map.
  insert-Inserts :
      (a : A) (s t : HashSet A)
      → IsValid t
      → t.count < length t.cells
      → t.count ≡ s.count
      → ((k : ℕ) → view t k ≡ view s k)
      → view s (key a) ≡ none
      → (u : HashSet A) × (insert_cell key hash a t ≡ some u) × Inserts a s (some u)
  insert-Inserts a s t v room size same new =
      let i = insert_cell-Inserts a t v room (same (key a) ∙ new) in
      (
        i.after,
        i.returns,
        record {
          after = i.after;
          returns = refl;
          valid = i.valid;
          size = omega (arith, i.size, size);
          finds = λ k. i.finds k ∙ ap (λ o. if key a == k then some a else o) (same k);
        },
      )

  -- An insertion of an element whose key is new ends. It keeps the invariant, adds one to the size
  -- and maps the key, and no other, to the element; only if the arrays are full and cannot be
  -- allocated anew does it report the failure and change nothing.
  pub hash_set_insert-Inserted :
      (allocated : Bool) (a : A) (s : HashSet A)
      → IsValid s
      → length s.cells * 2 < 2 ^ 64
      → view s (key a) ≡ none
      → Inserted allocated a s (hash_set_insert key hash allocated a s)
  unfolding hash_set_insert
  hash_set_insert-Inserted allocated a s v fits new =
      elim (Bool-cases (s.count == length s.cells)) [
        | inr roomy ↦
            let (u, e, i) =
              insert-Inserts a s s v (ground (arith, tally-le is_occupied s.cells, v.table.counted))
                refl (λ k. refl) new in
            added u (rw (roomy, e) refl) i
        | inl full ↦ elim (Bool-cases allocated) [
          | inr failed ↦ no_memory failed (ground arith) (rw (full, failed) refl)
          | inl got ↦
              let g = grow-Keeps s v (ground arith) fits in
              let (u, e, i) =
                insert-Inserts a s g.after g.valid (ground (arith, g.capacity, g.size, v.table.pos))
                  g.size g.finds new in
              added u (rw (full, got, g.returns, e) refl) i
        ]
      ]
