-- ===== src/HashSet/Rehash.antt =====
-- The loops that move a table's elements into new arrays, when it grows and when it shrinks.
use mathlib.Core.Option.{or_else}
use mathlib.Core.Path.{subst}
use syrup.Base.{
  ℕ, zero, suc, ◌+◌, ◌%◌, ◌≤◌, ◌<◌, ◌≡◌, refl, sym, ap, ◌∙◌, inl, inr, false, Option, none, some,
  List, [], ◌∷◌, arith, length, set, replicate, ◌==◌, if◌then◌else◌, Bool-cases, Option-cases,
  length-set, length-replicate,
}
use syrup.HashSet.{
  Cell, free, occupied, deleted, is_used, is_occupied, at, probe, place, grow_cells, shrink_cells,
}
use syrup.HashSet.Cells.{
  to_nat, tally, tally-set, tally-le, tally-replicate, holds_key, find_key, find_key-eq-none,
  find_key-set_occupied, fails_somewhere,
}
use syrup.HashSet.Probe.{probe-start-Stops, Stops}
use syrup.HashSet.Put.{IsTable, set_occupied-IsTable}

module _ {A : Type 0} (key : A → ℕ) (hash : ℕ → ℕ) where
  -- A table with no deleted cell and `n` elements: new arrays while they are filled.
  record IsFresh (cells : List (Cell A)) (n : ℕ) : Type 0 where
    table : IsTable key hash cells n
    used : tally is_used cells ≡ n

  -- `r` is the table `new` with `a` added.
  record Adds (a : A) (n : ℕ) (new : List (Cell A)) (r : Option (List (Cell A))) : Type 0 where
    cells : List (Cell A)
    returns : r ≡ some cells
    same_length : length cells ≡ length new
    fresh : IsFresh cells (n + 1)
    finds : (k : ℕ) → find_key key k cells ≡ (if key a == k then some a else find_key key k new)
    tallies :
        (k : ℕ) → tally (holds_key key k) cells ≤ to_nat (key a == k) + tally (holds_key key k) new

  unused : (c : Cell A) → is_used c ≡ false → is_occupied c ≡ false
  unused free h = refl
  unused (occupied a) h = cc
  unused (deleted o) h = refl

  place-Adds :
      (a : A) (n : ℕ) (new : List (Cell A))
      → IsFresh new n
      → n < length new
      → tally (holds_key key (key a)) new ≡ 0
      → Adds a n new (place key hash a new)
  unfolding place
  place-Adds a n new f room absent =
      rw (stop.returns, place)
        (record {
          cells = set new stop.index (occupied a);
          returns = refl;
          same_length = length-set new stop.index (occupied a);
          fresh = record {
            table =
                set_occupied-IsTable key hash new stop.index stop.within n a f.table empty
                  stop.before absent;
            used = ground (
              arith,
              tally-set is_used new stop.index (occupied a) stop.within,
              f.used,
              stop.stops,
            );
          };
          finds = λ k. find_key-set_occupied key k new stop.index a stop.within empty absent;
          tallies = λ k.
              omega (arith, tally-set (holds_key key k) new stop.index (occupied a) stop.within);
        })
    where
      start : ℕ
      start = hash (key a) % length new

      start-lt : start < length new
      start-lt = let pos : 0 < length new = f.table.pos in grind arith

      hole : (k : ℕ) × (k < length new) × (is_used (at new k) ≡ false)
      hole = fails_somewhere is_used new (omega (arith, f.used, room))

      stop : Stops new start start-lt is_used (probe is_used (length new) new start)
      stop = probe-start-Stops new start start-lt is_used hole.0 hole.1 hole.2

      empty : is_occupied (at new stop.index) ≡ false
      empty = unused (at new stop.index) stop.stops

  or_else-none : {B : Type 0} (o : Option B) → or_else o none ≡ o
  unfolding or_else
  or_else-none none = refl
  or_else-none (some b) = refl

  -- `r` is the table `new` with the elements of `src` added.
  record AddsAll (src : List (Cell A)) (n : ℕ) (new : List (Cell A)) (r : Option (List (Cell A)))
      : Type 0 where
    cells : List (Cell A)
    returns : r ≡ some cells
    same_length : length cells ≡ length new
    fresh : IsFresh cells (n + tally is_occupied src)
    finds : (k : ℕ) → find_key key k cells ≡ or_else (find_key key k src) (find_key key k new)

  -- The elements of `src` and `new` have different keys.
  abbrev Apart : List (Cell A) → List (Cell A) → Type 0
  Apart src new = (k : ℕ) → tally (holds_key key k) src + tally (holds_key key k) new ≤ 1

  AddsAll-nil : (n : ℕ) (new : List (Cell A)) → IsFresh new n → AddsAll [] n new (some new)
  unfolding tally find_key or_else
  AddsAll-nil n new f = record {
    cells = new;
    returns = refl;
    same_length = refl;
    fresh = subst (IsFresh new) (omega arith) f;
    finds = λ k. refl;
  }

  AddsAll-cons :
      (a : A) (src : List (Cell A)) (n : ℕ) (new : List (Cell A)) (p r : Option (List (Cell A)))
      → Apart (occupied a ∷ src) new
      → (one : Adds a n new p) → AddsAll src (n + 1) one.cells r
      → AddsAll (occupied a ∷ src) n new r
  unfolding tally find_key or_else
  AddsAll-cons a src n new p r apart one all = record {
    cells = all.cells;
    returns = all.returns;
    same_length = all.same_length ∙ one.same_length;
    fresh = subst (IsFresh all.cells) (omega arith) all.fresh;
    finds = λ k.
        all.finds k
        ∙ ap (or_else (find_key key k src)) (one.finds k)
        ∙ elim (Bool-cases (key a == k)) [
          | inl e ↦ rw (e, find_key-eq-none key k src (ground (arith, apart k))) refl
          | inr e ↦ rw e refl
        ];
  }

  -- A cell that is not occupied adds nothing.
  AddsAll-skip :
      (c : Cell A) (src : List (Cell A)) (n : ℕ) (new : List (Cell A)) (r : Option (List (Cell A)))
      → is_occupied c ≡ false
      → ((k : ℕ) → find_key key k (c ∷ src) ≡ find_key key k src)
      → AddsAll src n new r
      → AddsAll (c ∷ src) n new r
  unfolding tally
  AddsAll-skip c src n new r idle absent all = record {
    cells = all.cells;
    returns = all.returns;
    same_length = all.same_length;
    fresh = subst (IsFresh all.cells) (ground (arith, idle)) all.fresh;
    finds = λ k. all.finds k ∙ ap (λ o. or_else o (find_key key k new)) (sym (absent k));
  }

  -- The key of an element of `src` is not in `new`.
  absent_of_Apart :
      (a : A) (src new : List (Cell A))
      → Apart (occupied a ∷ src) new
      → tally (holds_key key (key a)) new ≡ 0
  unfolding tally
  absent_of_Apart a src new apart = ground (arith, apart (key a))

  shrink_cells-AddsAll :
      (src : List (Cell A)) (n : ℕ) (new : List (Cell A))
      → IsFresh new n
      → n + tally is_occupied src ≤ length new
      → Apart src new
      → AddsAll src n new (shrink_cells key hash src new)
  unfolding shrink_cells tally find_key
  shrink_cells-AddsAll [] n new f room apart = AddsAll-nil n new f
  shrink_cells-AddsAll (free ∷ src) n new f room apart =
      AddsAll-skip free src n new (shrink_cells key hash src new) refl (λ k. refl)
        (shrink_cells-AddsAll src n new f (omega arith) (λ k. omega (arith, apart k)))
  shrink_cells-AddsAll (deleted o ∷ src) n new f room apart =
      AddsAll-skip (deleted o) src n new (shrink_cells key hash src new) refl (λ k. refl)
        (shrink_cells-AddsAll src n new f (omega arith) (λ k. omega (arith, apart k)))
  shrink_cells-AddsAll (occupied a ∷ src) n new f room apart =
      let one = place-Adds a n new f (omega arith) (absent_of_Apart a src new apart) in
      rw (one.returns, shrink_cells)
        (AddsAll-cons a src n new (place key hash a new) (shrink_cells key hash src one.cells) apart
          one
          (shrink_cells-AddsAll src (n + 1) one.cells one.fresh (omega (arith, one.same_length))
            (λ k. omega (arith, apart k, one.tallies k))))

  -- With every cell occupied the two loops are the same.
  grow_cells-eq-shrink_cells :
      (src new : List (Cell A))
      → tally is_occupied src ≡ length src
      → grow_cells key hash src new ≡ shrink_cells key hash src new
  unfolding grow_cells shrink_cells tally
  grow_cells-eq-shrink_cells [] new full = refl
  grow_cells-eq-shrink_cells (free ∷ src) new full =
      absurd (omega (arith, tally-le is_occupied src))
  grow_cells-eq-shrink_cells (deleted o ∷ src) new full =
      absurd (omega (arith, tally-le is_occupied src))
  grow_cells-eq-shrink_cells (occupied a ∷ src) new full =
      elim (Option-cases (place key hash a new)) [
        | inl e ↦ rw (e, grow_cells, shrink_cells) refl
        | inr (new', e) ↦
            rw (e, grow_cells, shrink_cells) (grow_cells-eq-shrink_cells src new' (omega arith))
      ]

  abbrev empty_cell : Cell A
  empty_cell = free

  -- New arrays hold nothing.
  replicate-IsFresh : (m : ℕ) → 0 < m → IsFresh (replicate m free) 0
  replicate-IsFresh m pos = record {
    table = record {
      pos = omega (arith, length-replicate m empty_cell);
      counted = tally-replicate is_occupied m refl;
      placed = λ i a hi e. absurd (free_cell m i a e);
      distinct = λ k. omega (arith, tally-replicate (holds_key key k) m refl);
    };
    used = tally-replicate is_used m refl;
  }
    where
      free_cell : (m i : ℕ) (a : A) → at (replicate m free) i ≡ occupied a → ⊥
      free_cell zero i a e = cc
      free_cell (suc m) zero a e = cc
      free_cell (suc m) (suc i) a e = free_cell m i a e

  -- `r` is a table of `m` cells with the elements of `cells`.
  pub record Moves (cells : List (Cell A)) (n m : ℕ) (r : Option (List (Cell A))) : Type 0 where
    pub cells' : List (Cell A)
    pub returns : r ≡ some cells'
    pub size : length cells' ≡ m
    pub table : IsTable key hash cells' n
    pub finds : (k : ℕ) → find_key key k cells' ≡ find_key key k cells

  -- Moving a table into new arrays that are large enough ends, and keeps what it holds.
  pub shrink_cells-Moves :
      (cells : List (Cell A)) (n m : ℕ)
      → IsTable key hash cells n
      → 0 < m
      → n ≤ m
      → Moves cells n m (shrink_cells key hash cells (replicate m free))
  shrink_cells-Moves cells n m t pos room = record {
    cells' = all.cells;
    returns = all.returns;
    size = all.same_length ∙ length-replicate m free;
    table = subst (IsTable key hash all.cells) (omega (arith, t.counted)) all.fresh.table;
    finds = λ k.
        all.finds k
        ∙ ap (or_else (find_key key k cells)) (nothing k)
        ∙ or_else-none (find_key key k cells);
  }
    where
      none_held : (k : ℕ) → tally (holds_key key k) (replicate m free) ≡ 0
      none_held k = tally-replicate (holds_key key k) m refl

      nothing : (k : ℕ) → find_key key k (replicate m free) ≡ none
      nothing k = find_key-eq-none key k (replicate m free) (none_held k)

      all : AddsAll cells 0 (replicate m free) (shrink_cells key hash cells (replicate m free))
      all =
          shrink_cells-AddsAll cells 0 (replicate m free) (replicate-IsFresh m pos)
            (omega (arith, length-replicate m empty_cell, t.counted, room))
            (λ k. omega (arith, none_held k, t.distinct k))

  pub grow_cells-Moves :
      (cells : List (Cell A)) (n m : ℕ)
      → IsTable key hash cells n
      → n ≡ length cells
      → 0 < m
      → n ≤ m
      → Moves cells n m (grow_cells key hash cells (replicate m free))
  grow_cells-Moves cells n m t full pos room =
      rw (grow_cells-eq-shrink_cells cells (replicate m free) (omega (arith, t.counted)))
        (shrink_cells-Moves cells n m t pos room)
