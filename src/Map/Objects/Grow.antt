-- ===== src/Map/Objects/Grow.antt =====
-- `object_list_allocate` as a whole, with the growth of its arrays.
use syrup.Base.{
  ℕ, ◌+◌, ◌*◌, ◌^◌, ◌≤◌, ◌<◌, ◌≡◌, refl, sym, ap, ◌∙◌, ◌⊎◌, inl, inr, Bool, true, false, ◌==◌, ltb,
  if◌then◌else◌, Option, none, some, List, length, replicate, arith, Bool-cases, ==_iff,
}
use syrup.HashSet.{Cell, free}
use syrup.HashSet.Cells.{tally-le}
use syrup.HashSet.Rehash.{Moves, shrink_cells-Moves}
use syrup.HashSet.{is_occupied}
use syrup.Map.Objects.{
  MapObject, oid_of, ObjectList, high, take_id, grow_objects, object_list_allocate,
}
use syrup.Map.Objects.Loops.{grow_objects-eq-shrink_cells}
use syrup.Map.Objects.Ids.{IsValid}
use syrup.Map.Objects.Allocate.{Allocates, take_id-Allocates}

module _ (hash : ℕ → ℕ) where
  -- The same objects in other arrays.
  pub moved-IsValid :
      (list : ObjectList) (m stack_capacity : ℕ) (r : Option (List (Cell MapObject)))
      → IsValid hash list
      → (move : Moves oid_of hash list.objects list.object_count m r)
      → list.free_stack_capacity ≤ stack_capacity
      → m ≤ stack_capacity
      → m < 2 ^ 64
      → IsValid hash (record list { objects = move.cells'; free_stack_capacity = stack_capacity })
  moved-IsValid list m stack_capacity r v move more fits sized = record {
    table = move.table;
    used = λ oid a h. v.used oid a (sym (move.finds oid) ∙ h);
    spare = λ i hi. ((v.spare i hi).0, move.finds (high + list.free_stack i) ∙ (v.spare i hi).1);
    apart = v.apart;
    few = v.few;
    stack_room = omega (arith, v.stack_room);
    capacity = omega (arith, move.size);
    sized = omega (arith, move.size);
  }

  -- An allocation is refused, or makes one object under a new id.
  pub data Allocated (new_objects new_stack : Bool) (kind index index2 : ℕ) (list : ObjectList)
      (r : Option (Option ℕ × ObjectList)) : Type 0 where
    refused :
        r ≡ some (none, list)
        → (list.object_count ≡ 65535)
          ⊎ ((list.object_count ≡ length list.objects)
              × ((new_objects ≡ false) ⊎ (new_stack ≡ false)))
        → Allocated new_objects new_stack kind index index2 list r
    allocated :
        Allocates hash kind index index2 list r
        → Allocated new_objects new_stack kind index index2 list r

  module _ (kind index index2 : ℕ) (list : ObjectList) (v : IsValid hash list) where
    abbrev taken : ObjectList → Option (Option ℕ × ObjectList)
    taken l = elim (take_id hash kind index index2 l) [
      | none ↦ none
      | some (oid, after) ↦ some (some oid, after)
    ]

    -- Behind the growth.
    grown-Allocates :
        (stack_capacity : ℕ) (r : Option (List (Cell MapObject)))
        → (move : Moves oid_of hash list.objects list.object_count (length list.objects * 2) r)
        → list.object_count ≡ length list.objects
        → list.object_count < 65535
        → list.free_stack_capacity ≤ stack_capacity
        → length list.objects * 2 ≤ stack_capacity
        → Allocates hash kind index index2 list
            (taken (record list { objects = move.cells'; free_stack_capacity = stack_capacity }))
    grown-Allocates stack_capacity r move full few more fits =
        let bigger = record list { objects = move.cells'; free_stack_capacity = stack_capacity } in
        let valid =
          moved-IsValid list (length list.objects * 2) stack_capacity r v move more fits
            (omega arith) in
        let a =
          take_id-Allocates hash bigger valid (omega (arith, move.size, v.table.pos)) few kind index
            index2 in
        record {
          oid = a.oid;
          after = a.after;
          returns = a.returns;
          fresh = sym (move.finds a.oid) ∙ a.fresh;
          finds = λ k.
              a.finds k
              ∙ ap
                  (λ o.
                    if a.oid == k
                    then some (record { kind = kind; oid = a.oid; index = index; index2 = index2 })
                    else o)
                  (move.finds k);
          size = a.size;
          valid = a.valid;
        }

    grow-Allocates :
        (stack_capacity : ℕ)
        → list.object_count ≡ length list.objects
        → list.object_count < 65535
        → list.free_stack_capacity ≤ stack_capacity
        → length list.objects * 2 ≤ stack_capacity
        → Allocates hash kind index index2 list
            (elim (grow_objects hash list.objects (replicate (length list.objects * 2) free)) [
              | none ↦ none
              | some objects ↦
                  taken (record list { objects = objects; free_stack_capacity = stack_capacity })
            ])
    grow-Allocates stack_capacity full few more fits =
        let move =
          shrink_cells-Moves oid_of hash list.objects list.object_count (length list.objects * 2)
            v.table (omega (arith, v.table.pos)) (omega arith) in
        rw
          (
            grow_objects-eq-shrink_cells hash list.objects
                (replicate (length list.objects * 2) free) (v.table.counted ∙ full),
            move.returns,
          )
          (grown-Allocates stack_capacity _ move full few more fits)

    -- The stack grows with the array.
    abbrev stack_capacity : ℕ
    stack_capacity =
        if ltb list.free_stack_capacity (length list.objects * 2)
        then list.free_stack_capacity * 2
        else list.free_stack_capacity

    all_grown :
        (list.object_count == length list.objects) ≡ true
        → (list.object_count == 65535) ≡ false
        → Allocates hash kind index index2 list
            (elim (grow_objects hash list.objects (replicate (length list.objects * 2) free)) [
              | none ↦ none
              | some objects ↦
                  taken (record list { objects = objects; free_stack_capacity = stack_capacity })
            ])
    all_grown full few =
        grow-Allocates stack_capacity ((==_iff list.object_count (length list.objects)).0 full)
          (ground (arith, few, v.few)) (ground arith) (ground (arith, v.capacity))

    -- An allocation makes one object, under an id that no object has, and changes no other; only if
    -- there are 65535 objects, or if the arrays are full and cannot be grown, does it change nothing.
    pub object_list_allocate-Allocated :
        (new_objects new_stack : Bool)
        → Allocated new_objects new_stack kind index index2 list
            (object_list_allocate hash new_objects new_stack kind index index2 list)
    unfolding object_list_allocate
    object_list_allocate-Allocated new_objects new_stack =
        elim (Bool-cases (list.object_count == 65535)) [
          | inl out ↦
              refused (rw (object_list_allocate, out) refl)
                (inl ((==_iff list.object_count 65535).0 out))
          | inr few ↦ elim (Bool-cases (list.object_count == length list.objects)) [
            | inr roomy ↦
                rw (object_list_allocate, few, roomy)
                  (allocated (
                    take_id-Allocates hash list v
                      (ground (arith, roomy, tally-le is_occupied list.objects, v.table.counted))
                      (ground (arith, few, v.few)) kind index index2))
            | inl full ↦ elim (Bool-cases new_objects) [
              | inr failed ↦
                  refused (rw (object_list_allocate, few, full, failed) refl)
                    (inr ((==_iff list.object_count (length list.objects)).0 full, inl failed))
              | inl got ↦
                  elim (Bool-cases (ltb list.free_stack_capacity (length list.objects * 2))) [
                    | inr wide ↦
                        rw (object_list_allocate, few, full, got, wide)
                          (allocated (all_grown full few))
                    | inl short ↦ elim (Bool-cases new_stack) [
                      | inr lost ↦
                          refused (rw (object_list_allocate, few, full, got, short, lost) refl) (
                            inr ((==_iff list.object_count (length list.objects)).0 full, inr lost))
                      | inl more ↦
                          rw (object_list_allocate, few, full, got, short, more)
                            (allocated (all_grown full few))
                    ]
                  ]
            ]
          ]
        ]
