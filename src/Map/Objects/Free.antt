-- ===== src/Map/Objects/Free.antt =====
-- `object_list_free`: the object goes, and its number goes on the stack.
use syrup.Base.{
  ℕ, ◌+◌, ◌-◌, ◌/◌, ◌%◌, ◌^◌, ◌≤◌, ◌<◌, ◌≡◌, refl, sym, ap, ◌∙◌, inl, inr, Bool, true, false, ◌==◌,
  ltb, if◌then◌else◌, Option, none, some, length, set, replicate, arith, bit_and, Bool-cases,
  length-set, lt→ltb,
}
use mathlib.Core.Path.{subst}
use syrup.HashSet.{Cell, free, occupied, deleted, is_occupied, at, probe, passes_over}
use syrup.HashSet.Cells.{find_key, find_key-some, find_key-at, find_key-set_deleted, tally-pos}
use syrup.HashSet.Probe.{Stops, probe-start-Stops}
use syrup.HashSet.Get.{start-lt, none-at_free}
use syrup.HashSet.Put.{IsTable, set_deleted-IsTable}
use syrup.HashSet.Rehash.{shrink_cells-Moves}
use syrup.Map.Objects.{MapObject, oid_of, ObjectList, high, shrink_list, object_list_free}
use syrup.Map.Objects.Loops.{shrink_objects-eq-shrink_cells}
use syrup.Map.Objects.Ids.{view, mark, IsValid, number_of_id}
use syrup.Map.Objects.Grow.{moved-IsValid}

module _ (hash : ℕ → ℕ) where
  -- The object under the id is gone, and no other, and its number is the top of the stack.
  pub record Frees (oid : ℕ) (list : ObjectList) (r : Option ObjectList) : Type 0 where
    pub after : ObjectList
    pub returns : r ≡ some after
    pub finds : (k : ℕ) → view after k ≡ (if oid == k then none else view list k)
    pub size : after.object_count + 1 ≡ list.object_count
    pub top : after.free_stack_top ≡ list.free_stack_top + 1
    pub pushed : high + after.free_stack list.free_stack_top ≡ oid
    pub below : (j : ℕ) → j < list.free_stack_top → after.free_stack j ≡ list.free_stack j
    pub valid : IsValid hash after

  -- The end of the call keeps the objects.
  record Shrinks (list : ObjectList) (r : Option ObjectList) : Type 0 where
    after : ObjectList
    returns : r ≡ some after
    finds : (k : ℕ) → view after k ≡ view list k
    size : after.object_count ≡ list.object_count
    top : after.free_stack_top ≡ list.free_stack_top
    stack : (j : ℕ) → after.free_stack j ≡ list.free_stack j
    valid : IsValid hash after

  stays : (list : ObjectList) → IsValid hash list → Shrinks list (some list)
  stays list v = record {
    after = list;
    returns = refl;
    finds = λ k. refl;
    size = refl;
    top = refl;
    stack = λ j. refl;
    valid = v;
  }

  shrink_list-Shrinks :
      (allocated : Bool) (list : ObjectList)
      → IsValid hash list
      → Shrinks list (shrink_list hash allocated list)
  unfolding shrink_list
  shrink_list-Shrinks allocated list v =
      elim (Bool-cases (ltb list.object_count (length list.objects / 4))) [
        | inr large ↦ rw (shrink_list, large) (stays list v)
        | inl small ↦ elim (Bool-cases allocated) [
          | inr failed ↦ rw (shrink_list, small, failed) (stays list v)
          | inl got ↦
              let half = length list.objects / 2 in
              let move =
                shrink_cells-Moves oid_of hash list.objects list.object_count half v.table
                  (ground (arith, small)) (ground (arith, small)) in
              rw
                (
                  shrink_list,
                  small,
                  got,
                  shrink_objects-eq-shrink_cells hash list.objects (replicate half free),
                  move.returns,
                )
                (record {
                  after = record list { objects = move.cells' };
                  returns = refl;
                  finds = move.finds;
                  size = refl;
                  top = refl;
                  stack = λ j. refl;
                  valid =
                      moved-IsValid hash list half list.free_stack_capacity _ v move (omega arith)
                        (omega (arith, v.capacity)) (omega (arith, v.sized));
                })
        ]
      ]

  module _ (list : ObjectList) (v : IsValid hash list) (oid i : ℕ) (object : MapObject)
      (within : i < length list.objects) (here : at list.objects i ≡ occupied object)
      (same : object.oid ≡ oid) where
    abbrev freed : ObjectList
    freed = record list {
      objects = set list.objects i (deleted (some object));
      free_stack = λ k. if list.free_stack_top == k then bit_and oid 0xFFFF else list.free_stack k;
      free_stack_top = list.free_stack_top + 1;
      object_count = (list.object_count + 2 ^ 64 - 1) % 2 ^ 64;
    }

    held : view list oid ≡ some object
    held = find_key-at oid_of oid list.objects i object within here same (v.table.distinct oid)

    some_held : 0 < list.object_count
    some_held =
        omega (
          arith,
          v.table.counted,
          tally-pos is_occupied list.objects i within (ap is_occupied here),
        )

    less : (list.object_count + 2 ^ 64 - 1) % 2 ^ 64 ≡ list.object_count - 1
    less = omega (arith, some_held, v.few)

    number : (high ≤ oid) × (oid < high + mark list) × (bit_and oid 0xFFFF ≡ oid - high)
    number =
        let (low, up) = v.used oid object held in
        (
          low,
          up,
          ap (λ k. bit_and k 0xFFFF) (omega (arith, low))
              ∙ number_of_id (oid - high) (omega (arith, up, v.few, low)),
        )

    freed_finds : (k : ℕ) → view freed k ≡ (if oid == k then none else view list k)
    freed_finds k =
        find_key-set_deleted oid_of k list.objects i object (some object) within here
          (v.table.distinct object.oid)
        ∙ ap (λ (m : ℕ). if m == k then none else find_key oid_of k list.objects) same

    freed-IsValid : IsValid hash freed
    freed-IsValid = record {
      table = subst (IsTable oid_of hash (set list.objects i (deleted (some object)))) (sym less) (
          set_deleted-IsTable oid_of hash list.objects i within list.object_count object
            (some object) v.table here);
      used = λ k a h. ground (arith, freed_finds k, v.used k a, less, some_held);
      spare = λ j hj. ground (
        arith,
        number,
        freed_finds (high + (oid - high)),
        freed_finds (high + list.free_stack j),
        v.spare j,
        less,
        some_held,
      );
      apart = λ j k lt hk. ground (arith, number, v.apart j k lt, v.spare j, held);
      few = omega (arith, less, some_held, v.few);
      stack_room = omega (arith, less, some_held, v.stack_room);
      capacity = omega (arith, length-set list.objects i (deleted (some object)), v.capacity);
      sized = omega (arith, length-set list.objects i (deleted (some object)), v.sized);
    }

    freed-Frees :
        (allocated : Bool)
        → Frees oid list (
            if ltb list.free_stack_top list.free_stack_capacity
            then shrink_list hash allocated freed
            else none)
    freed-Frees allocated =
        let s = shrink_list-Shrinks allocated freed freed-IsValid in
        rw
          (lt→ltb list.free_stack_top list.free_stack_capacity
            (omega (arith, v.stack_room, some_held)))
          (record {
            after = s.after;
            returns = s.returns;
            finds = λ k. s.finds k ∙ freed_finds k;
            size = omega (arith, s.size, less, some_held);
            top = s.top;
            pushed = ground (arith, s.stack list.free_stack_top, number);
            below = λ j hj. ground (arith, s.stack j);
            valid = s.valid;
          })

  none-ne-some : {A : Type 0} {a : A} → none ≡ some a → ⊥
  none-ne-some e = cc

  true-ne-false : true ≡ false → ⊥
  true-ne-false e = cc

  -- Freeing an object that is in a well-formed table passes every assertion and ends: the object
  -- is gone, and no other, the stack, which has room for it, is as before with the object's number
  -- on top, and the table is well formed.
  pub object_list_free-Frees :
      (allocated : Bool) (oid : ℕ) (list : ObjectList) (object : MapObject)
      → IsValid hash list
      → view list oid ≡ some object
      → Frees oid list (object_list_free hash allocated oid list)
  unfolding object_list_free
  object_list_free-Frees allocated oid list object v held =
      rw (object_list_free, stop.returns) (go (at list.objects stop.index) refl)
    where
      from : ℕ
      from = hash oid % length list.objects

      from-lt : from < length list.objects
      from-lt =
          start-lt oid_of hash oid list.objects v.table.pos v.table.placed (v.table.distinct oid)

      spot :
          (i : ℕ) × (i < length list.objects)
          × (at list.objects i ≡ occupied object)
          × (object.oid ≡ oid)
      spot = find_key-some oid_of oid list.objects object held

      halts : passes_over oid_of hash oid (at list.objects spot.0) ≡ false
      halts = ap (passes_over oid_of hash oid) spot.2 ∙ ground (arith, spot.3)

      stop :
          Stops list.objects from from-lt
            (passes_over oid_of hash oid)
            (probe (passes_over oid_of hash oid) (length list.objects) list.objects from)
      stop =
          probe-start-Stops list.objects from from-lt (passes_over oid_of hash oid) spot.0 spot.1
            halts

      go :
          (c : Cell MapObject)
          → at list.objects stop.index ≡ c
          → Frees oid list (elim c [
            | free ↦ none
            | deleted o ↦ none
            | occupied a ↦
                if ltb list.free_stack_top list.free_stack_capacity
                then shrink_list hash allocated (record list {
                  objects = set list.objects stop.index (deleted (some a));
                  free_stack = λ k.
                      if list.free_stack_top == k then bit_and oid 0xFFFF else list.free_stack k;
                  free_stack_top = list.free_stack_top + 1;
                  object_count = (list.object_count + 2 ^ 64 - 1) % 2 ^ 64;
                })
                else none
          ])
      go free e = absurd (
          none-ne-some (
            sym (
              none-at_free oid_of hash oid list.objects v.table.pos v.table.placed
                (v.table.distinct oid) stop.index stop.within stop.before e)
            ∙ held))
      go (deleted o) e =
          absurd (true-ne-false (sym (ap (passes_over oid_of hash oid) e) ∙ stop.stops))
      go (occupied a) e =
          freed-Frees list v oid stop.index a stop.within e
            (ground (arith, ap (passes_over oid_of hash oid) e, stop.stops)) allocated
