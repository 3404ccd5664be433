-- ===== src/Map/Objects/Allocate.antt =====
-- Allocating an object: its id is new, and the table stays well formed.
use syrup.Base.{
  some_inj, ℕ, ◌+◌, ◌-◌, ◌%◌, ◌≤◌, ◌<◌, ◌≡◌, refl, sym, ap, ◌∙◌, inl, inr, true, false, ◌==◌, ltb,
  if◌then◌else◌, Option, none, some, length, set, arith, Bool-cases, Option-cases, length-set,
  ltb→lt,
}
use mathlib.Core.Path.{subst}
use syrup.HashSet.{occupied, is_occupied, probe, HashSet, insert_cell}
use syrup.HashSet.Cells.{find_key}
use syrup.HashSet.Put.{IsTable}
use syrup.HashSet.Methods
use syrup.HashSet.Methods.{insert_cell-Inserts, Inserts}
use syrup.Map.Objects.{MapObject, oid_of, ObjectList, high, put_object, take_id}
use syrup.Map.Objects.Ids.{view, mark, IsValid, id_of_number}

module _ (hash : ℕ → ℕ) where
  -- The object under an id that was not in use.
  pub record Allocates (kind index index2 : ℕ) (list : ObjectList)
      (r : Option (Option ℕ × ObjectList)) : Type 0 where
    pub oid : ℕ
    pub after : ObjectList
    pub returns : r ≡ some (some oid, after)
    pub fresh : view list oid ≡ none
    pub finds :
        (k : ℕ)
        → view after k ≡ (
            if oid == k
            then some (record { kind = kind; oid = oid; index = index; index2 = index2 })
            else view list k)
    pub size : after.object_count ≡ list.object_count + 1
    pub valid : IsValid hash after

  -- A number that no object and no place of the rest of the stack has.
  record Chosen (list : ObjectList) (number top : ℕ) : Type 0 where
    below : number < list.object_count + 1 + top
    absent : view list (high + number) ≡ none
    no_less : mark list ≤ list.object_count + 1 + top
    shorter : top ≤ list.free_stack_top
    apart : (i : ℕ) → i < top → (list.free_stack i == number) ≡ false
    few : list.object_count + 1 + top ≤ 65535
    stack_room : list.object_count + 1 + top ≤ list.free_stack_capacity

  abbrev as_set : ObjectList → HashSet MapObject
  as_set list = record { cells = list.objects; count = list.object_count; iterating = false }

  as_set-IsValid :
      (list : ObjectList) → IsValid hash list → Methods.IsValid oid_of hash (as_set list)
  as_set-IsValid list v = record { table = v.table; sized = v.sized }

  module _ (list : ObjectList) (v : IsValid hash list) (number top kind index index2 : ℕ)
      (room : list.object_count < length list.objects) (c : Chosen list number top) where
    abbrev object : MapObject
    object = record { kind = kind; oid = high + number; index = index; index2 = index2 }

    -- The list with the object in the cell `i`.
    abbrev taken : ℕ → ObjectList
    taken i = record list {
      objects = set list.objects i (occupied object);
      object_count = list.object_count + 1;
      free_stack_top = top;
    }

    abbrev probed : Option ℕ
    probed =
        probe is_occupied (length list.objects) list.objects
          (hash (high + number) % length list.objects)

    inserts :
        Inserts oid_of hash object (as_set list) (insert_cell oid_of hash object (as_set list))
    inserts =
        insert_cell-Inserts oid_of hash object (as_set list) (as_set-IsValid list v) room c.absent

    none-ne-some : {A : Type 0} {a : A} → none ≡ some a → ⊥
    none-ne-some e = cc

    finds_none : probed ≡ none → ⊥
    unfolding insert_cell
    finds_none e = none-ne-some (sym (rw (insert_cell, e) refl) ∙ inserts.returns)

    same_after :
        (i : ℕ)
        → probed ≡ some i
        → inserts.after ≡ record (as_set list) {
          cells = set list.objects i (occupied object);
          count = list.object_count + 1;
        }
    unfolding insert_cell
    same_after i e = some_inj (sym inserts.returns ∙ rw (insert_cell, e) refl)

    taken_finds :
        (i : ℕ)
        → probed ≡ some i
        → (k : ℕ) → view (taken i) k ≡ (if high + number == k then some object else view list k)
    taken_finds i e k = ap (λ s. find_key oid_of k s.cells) (sym (same_after i e)) ∙ inserts.finds k

    taken-IsValid : (i : ℕ) → probed ≡ some i → IsValid hash (taken i)
    taken-IsValid i e =
        let finds = taken_finds i e in
        record {
          table =
              subst (λ (s : HashSet MapObject). IsTable oid_of hash s.cells s.count)
                (same_after i e) inserts.valid.table;
          used = λ oid a h. ground (arith, finds oid, v.used oid a, c.below, c.no_less);
          spare = λ j hj.
              ground (
                arith,
                finds (high + list.free_stack j),
                v.spare j,
                c.apart j,
                c.shorter,
                c.no_less,
              );
          apart = λ j k lt hk. v.apart j k lt (omega (arith, c.shorter));
          few = c.few;
          stack_room = c.stack_room;
          capacity = omega (arith, length-set list.objects i (occupied object), v.capacity);
          sized = omega (arith, length-set list.objects i (occupied object), v.sized);
        }

    taken-Allocates :
        Allocates kind index index2 list
          (elim (put_object hash (high + number) top kind index index2 list) [
            | none ↦ none
            | some (oid, after) ↦ some (some oid, after)
          ])
    unfolding put_object
    taken-Allocates = elim (Option-cases probed) [
      | inl lost ↦ absurd (finds_none lost)
      | inr (i, at_i) ↦ record {
        oid = high + number;
        after = taken i;
        returns = rw (put_object, at_i) refl;
        fresh = c.absent;
        finds = taken_finds i at_i;
        size = refl;
        valid = taken-IsValid i at_i;
      }
    ]

  -- The top of the stack, if there is one, and the mark otherwise.
  module _ (list : ObjectList) (v : IsValid hash list)
      (room : list.object_count < length list.objects) (few : list.object_count < 65535) where
    popped :
        ltb 0 list.free_stack_top ≡ true
        → Chosen list (list.free_stack (list.free_stack_top - 1)) (list.free_stack_top - 1)
    popped reuse =
        let last = list.free_stack_top - 1 in
        let pos : 0 < list.free_stack_top = ltb→lt 0 list.free_stack_top reuse in
        let (less, absent) = v.spare last (omega arith) in
        record {
          below = omega (arith, less);
          absent = absent;
          no_less = omega arith;
          shorter = omega arith;
          apart = λ i hi. v.apart i last hi (omega arith);
          few = omega (arith, v.few);
          stack_room = omega (arith, v.stack_room);
        }

    new_number :
        ltb 0 list.free_stack_top ≡ false → Chosen list list.object_count list.free_stack_top
    new_number empty = record {
      below = ground (arith, empty);
      absent = elim (Option-cases (view list (high + list.object_count))) [
        | inl absent ↦ absent
        | inr (a, held) ↦ absurd (ground (arith, empty, v.used (high + list.object_count) a held))
      ];
      no_less = omega arith;
      shorter = omega arith;
      apart = λ i hi. absurd (ground (arith, empty));
      few = ground (arith, empty, few);
      stack_room = ground (arith, empty, room, v.capacity);
    }

    pub take_id-Allocates :
        (kind index index2 : ℕ)
        → Allocates kind index index2 list (elim (take_id hash kind index index2 list) [
          | none ↦ none
          | some (oid, after) ↦ some (some oid, after)
        ])
    unfolding take_id
    take_id-Allocates kind index index2 = elim (Bool-cases (ltb 0 list.free_stack_top)) [
      | inl reuse ↦
          let top = list.free_stack_top - 1 in
          let number = list.free_stack top in
          let c = popped reuse in
          rw (take_id, reuse, id_of_number number (omega (arith, c.below, c.few)))
            (taken-Allocates list v number top kind index index2 room c)
      | inr empty ↦
          let c = new_number empty in
          rw (take_id, empty, id_of_number list.object_count (omega arith))
            (taken-Allocates list v list.object_count list.free_stack_top kind index index2 room c)
    ]
