-- ===== src/Map/Objects.antt =====
-- The table of the objects of a map in src/channel/map.c, by their object ids. It probes as the hash
-- set does, with cells that are `free` for MAP_OBJECT_NONE and `deleted` for MAP_OBJECT_DELETED, and
-- it keeps the ids that were given back on a stack. `none` is a failed assertion, a read of memory
-- that was never written, or a loop that does not end.
pub mod Loops
pub mod Ids
pub mod Allocate
pub mod Grow
pub mod Search
pub mod Free
use syrup.Base.{
  ℕ, zero, suc, ◌+◌, ◌-◌, ◌*◌, ◌/◌, ◌%◌, ◌^◌, Bool, true, false, not, ◌==◌, ltb, ◌&&◌,
  if◌then◌else◌, bit_and, bit_or, Option, none, some, List, [], ◌∷◌, length, set, replicate,
}
use syrup.HashSet.{
  Cell, free, occupied, deleted, is_used, is_occupied, at, next_index, probe, place, passes_over,
}

-- A kind of object, from MAP_OBJECT_MONSTER, with its id and its indices.
pub record MapObject : Type 0 where
  pub kind : ℕ
  pub oid : ℕ
  pub index : ℕ
  pub index2 : ℕ

abbrev pub oid_of : MapObject → ℕ
oid_of object = object.oid

-- The capacity is the length of `objects`.
pub record ObjectList : Type 0 where
  pub objects : List (Cell MapObject)
  pub object_count : ℕ
  pub free_stack : ℕ → ℕ
  pub free_stack_capacity : ℕ
  pub free_stack_top : ℕ

-- The high half of every id.
abbrev pub high : ℕ
high = 0xFFFF0000

-- The test of the loop of `object_list_get`.
abbrev pub goes_on : (oid : ℕ) → Cell MapObject → Bool
goes_on oid free = false
goes_on oid (deleted object) = true
goes_on oid (occupied object) = not (object.oid == oid)

module _ (hash : ℕ → ℕ) where
  unfoldable pub object_list_init : (allocated : Bool) → (free_stack : ℕ → ℕ) → Option ObjectList
  object_list_init allocated free_stack =
      if allocated
      then some (record {
        objects = free ∷ [];
        object_count = 0;
        free_stack = free_stack;
        free_stack_capacity = 1;
        free_stack_top = 0;
      })
      else none

  -- A deleted object goes over as it is.
  unfoldable pub place_deleted :
      Option MapObject → List (Cell MapObject) → Option (List (Cell MapObject))
  place_deleted none new = none
  place_deleted (some object) new =
      elim (probe is_used (length new) new (hash object.oid % length new)) [
        | none ↦ none
        | some i ↦ some (set new i (deleted (some object)))
      ]

  -- The loop of `object_list_allocate` that fills the doubled array, from every cell.
  unfoldable pub grow_objects :
      List (Cell MapObject) → List (Cell MapObject) → Option (List (Cell MapObject))
  grow_objects [] new = some new
  grow_objects (free ∷ objects) new = none
  grow_objects (occupied object ∷ objects) new = elim (place oid_of hash object new) [
    | none ↦ none
    | some new' ↦ grow_objects objects new'
  ]
  grow_objects (deleted object ∷ objects) new = elim (place_deleted object new) [
    | none ↦ none
    | some new' ↦ grow_objects objects new'
  ]

  -- The loop of `object_list_free` that fills the halved array.
  unfoldable pub shrink_objects :
      List (Cell MapObject) → List (Cell MapObject) → Option (List (Cell MapObject))
  shrink_objects [] new = some new
  shrink_objects (c ∷ objects) new = elim c [
    | free ↦ shrink_objects objects new
    | deleted object ↦ shrink_objects objects new
    | occupied object ↦ elim (place oid_of hash object new) [
      | none ↦ none
      | some new' ↦ shrink_objects objects new'
    ]
  ]

  -- The cell for an id. The caller of `object_list_allocate` writes the kind and the indices into it
  -- at once: here they are arguments. The answer is the id.
  unfoldable pub put_object : (oid top kind index index2 : ℕ) → ObjectList → Option (ℕ × ObjectList)
  put_object oid top kind index index2 list =
      elim (probe is_occupied (length list.objects) list.objects (hash oid % length list.objects)) [
        | none ↦ none
        | some i ↦ some (
          oid,
          record list {
            objects =
                set list.objects i
                  (occupied (record { kind = kind; oid = oid; index = index; index2 = index2 }));
            object_count = list.object_count + 1;
            free_stack_top = top;
          },
        )
      ]

  -- The part of `object_list_allocate` behind the growth.
  unfoldable pub take_id : (kind index index2 : ℕ) → ObjectList → Option (ℕ × ObjectList)
  take_id kind index index2 list =
      let top = list.free_stack_top - 1 in
      if ltb 0 list.free_stack_top
      then put_object (bit_or (list.free_stack top) high) top kind index index2 list
      else put_object (bit_or list.object_count high) list.free_stack_top kind index index2 list

  -- `new_objects` and `new_stack` say whether the two allocations succeed. The inner `none` is the
  -- null pointer.
  unfoldable pub object_list_allocate :
      (new_objects new_stack : Bool) (kind index index2 : ℕ)
      → ObjectList
      → Option (Option ℕ × ObjectList)
  object_list_allocate new_objects new_stack kind index index2 list =
      let capacity = length list.objects in
      let short = ltb list.free_stack_capacity (capacity * 2) in
      let stack_capacity =
        if short then list.free_stack_capacity * 2 else list.free_stack_capacity in
      let taken = λ (l : ObjectList).
        let r : Option (Option ℕ × ObjectList) = elim (take_id kind index index2 l) [
          | none ↦ none
          | some (oid, after) ↦ some (some oid, after)
        ] in
        r in
      if list.object_count == 65535
      then some (none, list)
      else if not (list.object_count == capacity)
      then taken list
      else if not new_objects
      then some (none, list)
      else if short && not new_stack
      then some (none, list)
      else elim (grow_objects list.objects (replicate (capacity * 2) free)) [
        | none ↦ none
        | some objects ↦
            taken (record list { objects = objects; free_stack_capacity = stack_capacity })
      ]

  -- The end of `object_list_free`.
  unfoldable pub shrink_list : (allocated : Bool) → ObjectList → Option ObjectList
  shrink_list allocated list =
      let smaller : Option ObjectList =
        elim (shrink_objects list.objects (replicate (length list.objects / 2) free)) [
          | none ↦ none
          | some objects ↦ some (record list { objects = objects })
        ] in
      if ltb list.object_count (length list.objects / 4)
      then if allocated then smaller else some list
      else some list

  -- The loop stops at a free cell by its assertion. A write behind the stack is a fault.
  unfoldable pub object_list_free : (allocated : Bool) → (oid : ℕ) → ObjectList → Option ObjectList
  object_list_free allocated oid list =
      elim (probe (passes_over oid_of hash oid) (length list.objects) list.objects
        (hash oid % length list.objects)) [
          | none ↦ none
          | some i ↦ elim (at list.objects i) [
            | free ↦ none
            | deleted object ↦ none
            | occupied object ↦
                if ltb list.free_stack_top list.free_stack_capacity
                then shrink_list allocated (record list {
                  objects = set list.objects i (deleted (some object));
                  free_stack = λ k.
                      if list.free_stack_top == k then bit_and oid 0xFFFF else list.free_stack k;
                  free_stack_top = list.free_stack_top + 1;
                  object_count = (list.object_count + 2 ^ 64 - 1) % 2 ^ 64;
                })
                else none
          ]
        ]

  -- The loop, with rounds left; it gives up where it started. The outer `none` is one that does not
  -- end.
  unfoldable pub search_loop :
      (rounds oid start : ℕ) → List (Cell MapObject) → ℕ → Option (Option ℕ)
  search_loop zero oid start objects index = none
  search_loop (suc rounds) oid start objects index =
      let next = next_index (length objects) index in
      let rest = search_loop rounds oid start objects next in
      if goes_on oid (at objects index)
      then if next == start then some none else rest
      else some (some index)

  unfoldable pub object_list_get : (oid : ℕ) → ObjectList → Option (Option MapObject)
  object_list_get oid list =
      let start = hash oid % length list.objects in
      if list.object_count == 0
      then some none
      else elim (search_loop (length list.objects) oid start list.objects start) [
        | none ↦ none
        | some none ↦ some none
        | some (some index) ↦ elim (at list.objects index) [
          | free ↦ some none
          | deleted object ↦ some object
          | occupied object ↦ some (some object)
        ]
      ]
