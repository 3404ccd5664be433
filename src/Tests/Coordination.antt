-- ===== src/Tests/Coordination.antt =====
-- Maps and their threads under the maps' own hash, and an explorer's jobs.
use syrup.Base.{ℕ, zero, suc, ◌<◌, ◌≡◌, refl, true, false, List, [], ◌∷◌, arith}
use syrup.HashSet.{Cell, occupied, at, is_used, HashSet}
use syrup.HashSet.Cells.{tally}
use syrup.HashSet.Put.{IsTable}
use syrup.HashSet.Methods.{IsValid}
use syrup.Coordinator.{Pair, map_of, map_thread_coordinator_get, map_thread_coordinator_ref}
use syrup.Coordinator.Threads.{
  thread_of, Referenced, coordinator_get-thread, coordinator_ref-thread,
}

abbrev own : ℕ → ℕ
own k = k

abbrev harbour : Pair
harbour = record { map = 104; thread = 2 }

abbrev one_map : HashSet Pair
one_map = record { cells = occupied harbour ∷ []; count = 1; iterating = false }

only :
    (j : ℕ)
    → j < 1
    → is_used (at (let cells : List (Cell Pair) = occupied harbour ∷ [] in cells) j) ≡ true
only zero h = refl
only (suc j) h = absurd (omega arith)

one_map-IsTable : IsTable map_of own one_map.cells 1
unfolding tally
one_map-IsTable = record {
  pos = omega arith;
  counted = refl;
  placed = λ i a hi e j hj near. only j hj;
  distinct = λ k. ground arith;
}

one_map-IsValid : IsValid map_of own one_map
one_map-IsValid = record { table = one_map-IsTable; sized = omega arith }

coordinator_get-thread_example :
    map_thread_coordinator_get own 104 one_map ≡ thread_of own one_map 104
coordinator_get-thread_example = coordinator_get-thread own one_map 104 one_map-IsValid

coordinator_ref-thread_example :
    Referenced own true 200 one_map (map_thread_coordinator_ref own true 200 one_map)
coordinator_ref-thread_example =
    coordinator_ref-thread own true 200 one_map one_map-IsValid (omega arith)
