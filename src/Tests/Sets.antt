-- ===== src/Tests/Sets.antt =====
-- A set of numbers under their own hash, with one cell and one element.
use syrup.Base.{
  ℕ, zero, suc, ◌+◌, ◌<◌, ◌≡◌, ◌≢◌, refl, Bool, ◌==◌, true, false, none, some, List, [], ◌∷◌, arith,
}
use syrup.HashSet.{
  Cell, occupied, at, is_used, HashSet, found, endless, hash_set_get, hash_set_insert,
  hash_set_remove, hash_set_u32_foreach,
}
use syrup.HashSet.Cells.{tally, find_key}
use syrup.HashSet.Put.{IsTable}
use syrup.HashSet.Methods.{IsValid, view, Inserted, hash_set_get-view, hash_set_insert-Inserted}
use syrup.HashSet.Removal.{Removes, hash_set_remove-Removes}
use syrup.HashSet.Iteration.{removing, Sweeps, hash_set_u32_foreach-Sweeps}

abbrev own : ℕ → ℕ
own k = k

abbrev seven : HashSet ℕ
seven = record { cells = occupied 7 ∷ []; count = 1; iterating = false }

only :
    (j : ℕ) → j < 1 → is_used (at (let cells : List (Cell ℕ) = occupied 7 ∷ [] in cells) j) ≡ true
only zero h = refl
only (suc j) h = absurd (omega arith)

seven-IsTable : IsTable own own seven.cells 1
unfolding tally
seven-IsTable = record {
  pos = omega arith;
  counted = refl;
  placed = λ i a hi e j hj near. only j hj;
  distinct = λ k. ground arith;
}

seven-IsValid : IsValid own own seven
seven-IsValid = record { table = seven-IsTable; sized = omega arith }

abbrev add_and_remove : ℕ → ℕ → ℕ × Bool
add_and_remove a sum = (a + sum, a == 7)

seven-nine : view own own seven 9 ≡ none
unfolding find_key
seven-nine = refl

seven-seven : view own own seven 7 ≡ some 7
unfolding find_key
seven-seven = refl

hash_set_get-view_example :
    (found (hash_set_get own own 7 seven) ≡ view own own seven 7)
    × (hash_set_get own own 7 seven ≢ endless)
hash_set_get-view_example = hash_set_get-view own own seven 7 seven-IsValid

hash_set_insert-Inserted_example :
    Inserted own own true 9 seven (hash_set_insert own own true 9 seven)
hash_set_insert-Inserted_example =
    hash_set_insert-Inserted own own true 9 seven seven-IsValid (omega arith) seven-nine

hash_set_remove-Removes_example : Removes own own 7 seven (hash_set_remove own own true 7 seven)
hash_set_remove-Removes_example =
    hash_set_remove-Removes own own true 7 seven 7 seven-IsValid seven-seven

hash_set_u32_foreach-Sweeps_example :
    Sweeps own own true add_and_remove 0 seven
      (hash_set_u32_foreach own own true (removing own own true add_and_remove) 1 0 seven)
hash_set_u32_foreach-Sweeps_example =
    hash_set_u32_foreach-Sweeps own own true add_and_remove 1 0 seven seven-IsValid (omega arith)
