-- ===== src/Map/Objects/Search.antt =====
-- `object_list_get` finds the object under an id.
use syrup.Base.{
  ℕ, zero, suc, ◌%◌, ◌≡◌, ◌≢◌, refl, sym, ap, ◌∙◌, inl, inr, true, false, ◌==◌, Option, none, some,
  List, length, arith, Bool-cases,
}
use syrup.HashSet.{Cell, free, occupied, deleted, is_occupied, at, next_index, endless, found}
use syrup.HashSet.Cells.{find_key-eq-none, tally_mono, holds_key}
use syrup.HashSet.Get.{get_loop-start-Answers}
use syrup.Map.Objects.{MapObject, oid_of, ObjectList, search_loop, goes_on, object_list_get}
use syrup.Map.Objects.Loops.{stopped_at, search_loop-eq-get_loop}
use syrup.Map.Objects.Ids.{view, IsValid}

held_occupied : (k : ℕ) (c : Cell MapObject) → holds_key oid_of k c ≡ true → is_occupied c ≡ true
held_occupied k free h = h
held_occupied k (occupied a) h = refl
held_occupied k (deleted o) h = h

inner_inj : {i j : ℕ} → some (some i) ≡ some (some j) → i ≡ j
inner_inj e = cc

module _ (hash : ℕ → ℕ) where
  -- The loop stops where its test fails.
  stops :
      (rounds oid start : ℕ) (objects : List (Cell MapObject)) (i j : ℕ)
      → search_loop hash rounds oid start objects i ≡ some (some j)
      → goes_on oid (at objects j) ≡ false
  unfolding search_loop
  stops zero oid start objects i j h = cc
  stops (suc rounds) oid start objects i j h = elim (Bool-cases (goes_on oid (at objects i))) [
    | inr here ↦
        ap (λ k. goes_on oid (at objects k)) (sym (inner_inj (rw (search_loop, here) at h))) ∙ here
    | inl on ↦ elim (Bool-cases (next_index (length objects) i == start)) [
      | inl round ↦ cc (rw (search_loop, on, round) at h)
      | inr further ↦
          stops rounds oid start objects (next_index (length objects) i) j
            (rw (search_loop, on, further) at h)
    ]
  ]

  module _ (list : ObjectList) (v : IsValid hash list) (oid : ℕ) where
    start : ℕ
    start = hash oid % length list.objects

    none_held : list.object_count ≡ 0 → view list oid ≡ none
    none_held empty = find_key-eq-none oid_of oid list.objects (
        omega (
          arith,
          v.table.counted,
          empty,
          tally_mono (holds_key oid_of oid) is_occupied list.objects (held_occupied oid),
        ))

    -- What the code makes of the end of the loop.
    abbrev answer : Option (Option ℕ) → Option (Option MapObject)
    answer r = elim r [
      | none ↦ none
      | some none ↦ some none
      | some (some index) ↦ elim (at list.objects index) [
        | free ↦ some none
        | deleted object ↦ some object
        | occupied object ↦ some (some object)
      ]
    ]

    answer_stop :
        (i : ℕ) (c : Cell MapObject)
        → at list.objects i ≡ c
        → goes_on oid c ≡ false
        → found (stopped_at list.objects (some (some i))) ≡ view list oid
        → answer (some (some i)) ≡ some (view list oid)
    unfolding stopped_at
    answer_stop i free e stop h = rw (answer, e) (ap some (rw (stopped_at, e) at h))
    answer_stop i (deleted o) e stop h = cc
    answer_stop i (occupied a) e stop h = rw (answer, e) (ap some (rw (stopped_at, e) at h))

    answers :
        (r : Option (Option ℕ))
        → ((i : ℕ) → r ≡ some (some i) → goes_on oid (at list.objects i) ≡ false)
        → found (stopped_at list.objects r) ≡ view list oid
        → stopped_at list.objects r ≢ endless
        → answer r ≡ some (view list oid)
    unfolding stopped_at
    answers none stop h ended = absurd (ended refl)
    answers (some none) stop h ended = ap some h
    answers (some (some i)) stop h ended = answer_stop i (at list.objects i) refl (stop i refl) h

  -- A lookup ends, and finds exactly the object under the id.
  pub object_list_get-view :
      (list : ObjectList) (oid : ℕ)
      → IsValid hash list
      → object_list_get hash oid list ≡ some (view list oid)
  unfolding object_list_get
  object_list_get-view list oid v = elim (Bool-cases (list.object_count == 0)) [
    | inl empty ↦ rw (object_list_get, empty) (ap some (sym (none_held list v oid (ground arith))))
    | inr some_held ↦
        let start = hash oid % length list.objects in
        let a =
          get_loop-start-Answers oid_of hash oid list.objects v.table.pos v.table.placed
            (v.table.distinct oid) in
        let same =
          search_loop-eq-get_loop hash (length list.objects) oid start list.objects start in
        rw (object_list_get, some_held)
          (answers list v oid (search_loop hash (length list.objects) oid start list.objects start)
            (λ i e. stops (length list.objects) oid start list.objects start i e)
            (ap found same ∙ a.value) (λ e. a.ended (sym same ∙ e)))
  ]
