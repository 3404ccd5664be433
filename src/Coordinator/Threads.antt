-- ===== src/Coordinator/Threads.antt =====
-- The threads of the maps, through the map that the hash set stands for.
use mathlib.Core.Option
use mathlib.Core.Path.{subst}
use syrup.Base.{
  some_inj, ℕ, ◌*◌, ◌^◌, ◌<◌, ◌≡◌, refl, sym, ap, ◌∙◌, inl, inr, Bool, true, false, Option, none,
  some, arith, length, ◌==◌, if◌then◌else◌, Option-cases,
}
use syrup.HashSet.{HashSet, hash_set_insert}
use syrup.HashSet.Methods.{
  IsValid, view, Inserted, added, no_memory, hash_set_get-view, hash_set_insert-Inserted,
}
use syrup.HashSet.Removal.{hash_set_remove-Removes}
use syrup.Coordinator.{
  Pair, map_of, map_thread_coordinator_get, map_thread_coordinator_ref,
  map_thread_coordinator_unref,
}

module _ (hash : ℕ → ℕ) where
  unfoldable pub thread_of : HashSet Pair → ℕ → Option ℕ
  thread_of dict map = Option.map (λ (p : Pair). p.thread) (view map_of hash dict map)

  -- The thread that is asked for is the one in the map.
  pub coordinator_get-thread :
      (dict : HashSet Pair) (map : ℕ)
      → IsValid map_of hash dict
      → map_thread_coordinator_get hash map dict ≡ thread_of dict map
  unfolding map_thread_coordinator_get thread_of
  coordinator_get-thread dict map valid =
      let e = (hash_set_get-view map_of hash dict map valid).0 in
      elim (Option-cases (view map_of hash dict map)) [
        | inl free ↦ rw (map_thread_coordinator_get, thread_of, e ∙ free, free) refl
        | inr (p, held) ↦ rw (map_thread_coordinator_get, thread_of, e ∙ held, held) refl
      ]

  -- A reference to a map: one that has a thread, one that is given thread 0, and one for which there
  -- is no memory.
  pub data Referenced (allocated : Bool) (map : ℕ) (dict : HashSet Pair)
      (r : Option (Option ℕ × HashSet Pair)) : Type 0 where
    known :
        (thread : ℕ)
        → thread_of dict map ≡ some thread
        → r ≡ some (some thread, dict)
        → Referenced allocated map dict r
    enrolled :
        (dict' : HashSet Pair)
        → thread_of dict map ≡ none
        → r ≡ some (some 0, dict')
        → IsValid map_of hash dict'
        → thread_of dict' map ≡ some 0
        → ((q : ℕ) → (map == q) ≡ false → thread_of dict' q ≡ thread_of dict q)
        → Referenced allocated map dict r
    exhausted :
        thread_of dict map ≡ none
        → allocated ≡ false
        → dict.count ≡ length dict.cells
        → r ≡ some (none, dict)
        → Referenced allocated map dict r

  abbrev fresh : ℕ → Pair
  fresh map = record { map = map; thread = 0 }

  same_key : (map : ℕ) → (map == map) ≡ true
  same_key map = ground arith

  insert-Referenced :
      (allocated : Bool) (map : ℕ) (dict : HashSet Pair)
      → IsValid map_of hash dict
      → view map_of hash dict map ≡ none
      → Inserted map_of hash allocated
          (fresh map)
          dict
          (hash_set_insert map_of hash allocated (fresh map) dict)
      → Referenced allocated map dict (map_thread_coordinator_ref hash allocated map dict)
  unfolding map_thread_coordinator_ref thread_of
  insert-Referenced allocated map dict valid absent (no_memory failed full e) =
      let missed = (hash_set_get-view map_of hash dict map valid).0 ∙ absent in
      exhausted (rw (thread_of, absent) refl) failed full
        (rw (map_thread_coordinator_ref, missed, e) refl)
  insert-Referenced allocated map dict valid absent (added t e i) =
      let missed = (hash_set_get-view map_of hash dict map valid).0 ∙ absent in
      let same : t ≡ i.after = some_inj i.returns in
      let held : view map_of hash t map ≡ some (fresh map) =
        ap (λ u. view map_of hash u map) same
        ∙ i.finds map
        ∙ ap (λ b. if b then some (fresh map) else view map_of hash dict map) (same_key map) in
      let valid' : IsValid map_of hash t = subst (λ u. IsValid map_of hash u) (sym same) i.valid in
      let hit = (hash_set_get-view map_of hash t map valid').0 ∙ held in
      enrolled t (rw (thread_of, absent) refl)
        (rw (map_thread_coordinator_ref, missed, e, hit) refl) valid' (rw (thread_of, held) refl)
        (λ q h. ap (Option.map (λ (p : Pair). p.thread)) (
          ap (λ u. view map_of hash u q) same
          ∙ i.finds q
          ∙ ap (λ b. if b then some (fresh map) else view map_of hash dict q) h))

  -- In a well-formed set whose arrays can double, a reference to a map that has a thread gives
  -- that thread and changes nothing. For a map that has none it gives thread 0, which the map then
  -- has, and no other map's thread changes; or the set is full and there is no memory, and it
  -- reports that and changes nothing.
  pub coordinator_ref-thread :
      (allocated : Bool) (map : ℕ) (dict : HashSet Pair)
      → IsValid map_of hash dict
      → length dict.cells * 2 < 2 ^ 64
      → Referenced allocated map dict (map_thread_coordinator_ref hash allocated map dict)
  unfolding map_thread_coordinator_ref thread_of
  coordinator_ref-thread allocated map dict valid fits =
      elim (Option-cases (view map_of hash dict map)) [
        | inl absent ↦
            insert-Referenced allocated map dict valid absent
              (hash_set_insert-Inserted map_of hash allocated (fresh map) dict valid fits absent)
        | inr (p, held) ↦
            let hit = (hash_set_get-view map_of hash dict map valid).0 ∙ held in
            known p.thread (rw (thread_of, held) refl) (rw (map_thread_coordinator_ref, hit) refl)
      ]

  -- Giving up a map that has a thread ends, and takes the thread from that map and from no other.
  coordinator_unref-frees :
      (allocated : Bool) (map : ℕ) (dict : HashSet Pair) (pair : Pair)
      → IsValid map_of hash dict
      → view map_of hash dict map ≡ some pair
      → (dict' : HashSet Pair) × (map_thread_coordinator_unref hash allocated map dict ≡ some dict')
        × IsValid map_of hash dict'
        × (map_thread_coordinator_get hash map dict' ≡ none)
        × ((q : ℕ)
            → (map == q) ≡ false
            → map_thread_coordinator_get hash q dict' ≡ map_thread_coordinator_get hash q dict)
  unfolding map_thread_coordinator_unref thread_of
  coordinator_unref-frees allocated map dict pair valid held =
      let r = hash_set_remove-Removes map_of hash allocated map dict pair valid held in
      (
        r.after,
        r.returns,
        r.valid,
        coordinator_get-thread r.after map r.valid
            ∙ ap (Option.map (λ (p : Pair). p.thread)) (
                r.finds map
                ∙ ap (λ b. if b then none else view map_of hash dict map) (same_key map)),
        λ q h.
            coordinator_get-thread r.after q r.valid
            ∙ ap (Option.map (λ (p : Pair). p.thread))
                (r.finds q ∙ ap (λ b. if b then none else view map_of hash dict q) h)
            ∙ sym (coordinator_get-thread dict q valid),
      )
