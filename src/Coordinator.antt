-- ===== src/Coordinator.antt =====
-- src/channel/thread-coordinator.c: which thread runs a map, in a hash set from maps to threads.
-- The lock makes each operation one step. `allocated` says whether `malloc` succeeds.
pub mod Threads
use syrup.Base.{ℕ, Bool, true, false, Option, none, some}
use syrup.HashSet.{HashSet, found, hash_set_init, hash_set_get, hash_set_insert, hash_set_remove}

pub record Pair : Type 0 where
  pub map : ℕ
  pub thread : ℕ

abbrev pub map_of : Pair → ℕ
map_of p = p.map

module _ (hash : ℕ → ℕ) where
  pub map_thread_coordinator_create : (allocated : Bool) → Option (HashSet Pair)
  map_thread_coordinator_create allocated = hash_set_init allocated

  -- The thread, or none for the -1.
  pub map_thread_coordinator_get : ℕ → HashSet Pair → Option ℕ
  map_thread_coordinator_get map dict = elim (found (hash_set_get map_of hash map dict)) [
    | none ↦ none
    | some pair ↦ some pair.thread
  ]

  -- A map without a thread gets thread 0, and the pair is read back. The outer `none` is an access
  -- through a null pointer or a loop that does not end.
  pub map_thread_coordinator_ref :
      (allocated : Bool) → ℕ → HashSet Pair → Option (Option ℕ × HashSet Pair)
  map_thread_coordinator_ref allocated map dict = elim (found (hash_set_get map_of hash map dict)) [
    | some pair ↦ some (some pair.thread, dict)
    | none ↦ elim (hash_set_insert map_of hash allocated (record { map = map; thread = 0 }) dict) [
      | none ↦ none
      | some (false, dict') ↦ some (none, dict')
      | some (true, dict') ↦ elim (found (hash_set_get map_of hash map dict')) [
        | none ↦ none
        | some pair ↦ some (some pair.thread, dict')
      ]
    ]
  ]

  pub map_thread_coordinator_unref : (allocated : Bool) → ℕ → HashSet Pair → Option (HashSet Pair)
  map_thread_coordinator_unref allocated map dict = hash_set_remove map_of hash allocated map dict
