-- ===== src/HashSet.antt =====
-- src/hash-map.c: the open-addressing hash set under every table of the server. `states` and
-- `data` are one list of cells, and the capacity is its length; after `hash_set_clear` the C
-- arrays are longer than the capacity and the rest of them is never read again. Keys are compared
-- by their bytes: a key is the number that its bytes spell. The hash is a parameter.
pub mod Cells
pub mod Probe
pub mod Get
pub mod Put
pub mod Rehash
pub mod Methods
pub mod Removal
pub mod Elements
pub mod Sweep
pub mod Iteration
use syrup.Base.{
  ℕ, zero, suc, ◌+◌, ◌-◌, ◌*◌, ◌/◌, ◌%◌, ◌^◌, Bool, true, false, not, ◌&&◌, Option, none, some,
  List, [], ◌∷◌, length, get_or, set, replicate, ◌==◌, ltb, if◌then◌else◌,
}

-- `free` is the state 0, with memory that was never written. A deleted cell keeps its data, if its
-- memory was ever written.
pub data Cell (A : Type 0) : Type 0 where
  free : Cell A
  occupied : A → Cell A
  deleted : Option A → Cell A

abbrev pub is_occupied : {A : Type 0} → Cell A → Bool
is_occupied free = false
is_occupied (occupied a) = true
is_occupied (deleted o) = false

-- `state != 0`
abbrev pub is_used : {A : Type 0} → Cell A → Bool
is_used free = false
is_used (occupied a) = true
is_used (deleted o) = true

pub record HashSet (A : Type 0) : Type 0 where
  pub cells : List (Cell A)
  pub count : ℕ
  pub iterating : Bool

-- The cell at an index of the arrays.
abbrev pub at : {A : Type 0} → List (Cell A) → ℕ → Cell A
at cells i = get_or cells i free

-- `index++; index %= capacity`
abbrev pub next_index : ℕ → ℕ → ℕ
next_index capacity index = (index + 1) % capacity

-- Where a search for a key ends. `endless` is a loop that goes round for ever.
pub data Found (A : Type 0) : Type 0 where
  hit : ℕ → A → Found A
  miss endless : Found A

module _ {A : Type 0} where
  -- The element that a search found; a null pointer otherwise.
  abbrev pub found : Found A → Option A
  found (hit i a) = some a
  found miss = none
  found endless = none

  -- `while (busy(states[index])) advance`, with rounds left; `none` is a loop that does not end.
  pub probe : (busy : Cell A → Bool) → ℕ → List (Cell A) → ℕ → Option ℕ
  probe busy zero cells index = none
  probe busy (suc left) cells index =
      let rest = probe busy left cells (next_index (length cells) index) in
      if busy (at cells index) then rest else some index

  pub hash_set_init : (allocated : Bool) → Option (HashSet A)
  hash_set_init false = none
  hash_set_init true = some (record { cells = free ∷ []; count = 0; iterating = false })

  pub hash_set_clear : HashSet A → HashSet A
  hash_set_clear s = record s { cells = free ∷ []; count = 0 }

  -- The loop of `foreach` from an index, with rounds left. The callback may change the set that it is
  -- called over, as its context may point to that. Without an answer of the callback, or with cells left
  -- after the rounds, which only an insertion by the callback can leave, it is `none`.
  unfoldable pub visit_from :
      {C : Type 0}
      → (f : A → C → HashSet A → Option (C × HashSet A)) → (rounds index : ℕ) → C
      → HashSet A
      → Option (C × HashSet A)
  visit_from f zero index ctx s = if ltb index (length s.cells) then none else some (ctx, s)
  visit_from f (suc rounds) index ctx s = elim (ltb index (length s.cells)) [
    | false ↦ some (ctx, s)
    | true ↦ elim (at s.cells index) [
      | free ↦ visit_from f rounds (suc index) ctx s
      | deleted o ↦ visit_from f rounds (suc index) ctx s
      | occupied a ↦ elim (f a ctx s) [
        | none ↦ none
        | some (ctx', t) ↦ visit_from f rounds (suc index) ctx' t
      ]
    ]
  ]

  module _ (key : A → ℕ) (hash : ℕ → ℕ) where
    -- Put an element into the first cell of its probe sequence with state 0.
    pub place : A → List (Cell A) → Option (List (Cell A))
    place a cells = elim (probe is_used (length cells) cells (hash (key a) % length cells)) [
      | none ↦ none
      | some i ↦ some (set cells i (occupied a))
    ]

    -- The loop of `hash_set_insert` that fills the doubled arrays. It copies every cell, whatever
    -- its state; reading one that was never written is a fault.
    pub grow_cells : List (Cell A) → List (Cell A) → Option (List (Cell A))
    grow_cells [] new = some new
    grow_cells (free ∷ cells) new = none
    grow_cells (occupied a ∷ cells) new = elim (place a new) [
      | none ↦ none
      | some new' ↦ grow_cells cells new'
    ]
    grow_cells (deleted none ∷ cells) new = none
    grow_cells (deleted (some a) ∷ cells) new = elim (place a new) [
      | none ↦ none
      | some new' ↦ grow_cells cells new'
    ]

    -- The loop of `realloc_set`: the occupied cells only.
    unfoldable pub shrink_cells : List (Cell A) → List (Cell A) → Option (List (Cell A))
    shrink_cells [] new = some new
    shrink_cells (free ∷ cells) new = shrink_cells cells new
    shrink_cells (occupied a ∷ cells) new = elim (place a new) [
      | none ↦ none
      | some new' ↦ shrink_cells cells new'
    ]
    shrink_cells (deleted o ∷ cells) new = shrink_cells cells new

    pub realloc_set : (allocated : Bool) → HashSet A → Option (HashSet A)
    realloc_set false s = some s
    realloc_set true s = elim (shrink_cells s.cells (replicate (length s.cells / 2) free)) [
      | none ↦ none
      | some cells ↦ some (record s { cells = cells })
    ]

    -- The part of `hash_set_insert` behind the growth.
    unfoldable pub insert_cell : A → HashSet A → Option (HashSet A)
    insert_cell a s =
        elim (probe is_occupied (length s.cells) s.cells (hash (key a) % length s.cells)) [
          | none ↦ none
          | some i ↦ some (record s { cells = set s.cells i (occupied a); count = s.count + 1 })
        ]

    grow : HashSet A → Option (HashSet A)
    grow s = elim (grow_cells s.cells (replicate (length s.cells * 2) free)) [
      | none ↦ none
      | some cells ↦ some (record s { cells = cells })
    ]

    -- The result is true for the 0 and false for the -1 of the C function.
    pub hash_set_insert : (allocated : Bool) → A → HashSet A → Option (Bool × HashSet A)
    hash_set_insert allocated a s =
        let filled = λ (t : HashSet A).
          let r : Option (Bool × HashSet A) = elim (insert_cell a t) [
            | none ↦ none
            | some u ↦ some (true, u)
          ] in
          r in
        if not (s.count == length s.cells)
        then filled s
        else if not allocated
        then some (false, s)
        else elim (grow s) [ none ↦ none | some t ↦ filled t ]

    -- The loop of `hash_set_get` from `index`, with rounds left.
    unfoldable pub get_loop : ℕ → ℕ → ℕ → List (Cell A) → ℕ → Found A
    get_loop zero k start cells index = endless
    get_loop (suc left) k start cells index =
        let index' = next_index (length cells) index in
        let rest = get_loop left k start cells index' in
        let advance = if index' == start then miss else rest in
        elim (at cells index) [
          | free ↦ miss
          | occupied a ↦ if key a == k then hit index a else advance
          | deleted o ↦ advance
        ]

    pub hash_set_get : ℕ → HashSet A → Found A
    unfolding get_loop
    hash_set_get k s =
        let start = hash k % length s.cells in get_loop (length s.cells) k start s.cells start

    -- The test of the loop of `hash_set_remove`, which does not stop at the start.
    abbrev pub passes_over : ℕ → Cell A → Bool
    passes_over k free = false
    passes_over k (occupied a) = not (key a == k)
    passes_over k (deleted o) = true

    -- The state 2.
    abbrev pub mark_deleted : Cell A → Cell A
    mark_deleted free = deleted none
    mark_deleted (occupied a) = deleted (some a)
    mark_deleted (deleted o) = deleted o

    -- `hash_set_remove` before it shrinks the arrays.
    pub remove_cell : ℕ → HashSet A → Option (HashSet A)
    remove_cell k s =
        elim (probe (passes_over k) (length s.cells) s.cells (hash k % length s.cells)) [
          | none ↦ none
          | some i ↦ some (record s {
            cells = set s.cells i (mark_deleted (at s.cells i));
            count = (s.count + 2 ^ 64 - 1) % 2 ^ 64;
          })
        ]

    -- The shrinking at the end of `hash_set_remove` and of `hash_set_u32_foreach`.
    pub shrink : (allocated : Bool) → HashSet A → Option (HashSet A)
    shrink allocated s =
        let smaller = realloc_set allocated s in
        if ltb s.count (length s.cells / 4) then smaller else some s

    pub hash_set_remove : (allocated : Bool) → ℕ → HashSet A → Option (HashSet A)
    hash_set_remove allocated k s = elim (remove_cell k s) [
      | none ↦ none
      | some t ↦ if t.iterating then some t else shrink allocated t
    ]

    -- While the callbacks run, `iterating` keeps a removal from shrinking the arrays.
    unfoldable pub hash_set_u32_foreach :
        {C : Type 0}
        → (allocated : Bool) → (f : A → C → HashSet A → Option (C × HashSet A)) → (rounds : ℕ) → C
        → HashSet A
        → Option (C × HashSet A)
    hash_set_u32_foreach allocated f rounds ctx s =
        elim (visit_from f rounds 0 ctx (record s { iterating = true })) [
          | none ↦ none
          | some (ctx', t) ↦ elim (shrink allocated (record t { iterating = false })) [
            | none ↦ none
            | some u ↦ some (ctx', u)
          ]
        ]

    -- The loops for the other key types neither set `iterating` nor shrink the arrays.
    pub hash_set_u16_foreach :
        {C : Type 0}
        → (f : A → C → HashSet A → Option (C × HashSet A)) → (rounds : ℕ) → C
        → HashSet A
        → Option (C × HashSet A)
    hash_set_u16_foreach f rounds ctx s = visit_from f rounds 0 ctx s
