-- ===== src/Tests/Maps.antt =====
-- Two players who control monsters, and a table with one object.
use syrup.Base.{
  ℕ, zero, suc, ◌<◌, ◌≤◌, ◌≡◌, ◌⊎◌, refl, true, none, some, [], ◌∷◌, arith, ◌==◌, if◌then◌else◌,
}
use syrup.HashSet.{occupied, at, is_used}
use syrup.HashSet.Cells.{tally, find_key}
use syrup.HashSet.Put.{IsTable}
use syrup.Map.Controllers.{Node, ControllerHeap, heap_push, heap_remove, heap_top}
use syrup.Map.Controllers.Swap.{Holds}
use syrup.Map.Controllers.Methods.{IsHeap, controllees, Pushed, heap_push-Pushed}
use syrup.Map.Controllers.Removal.{Removed, heap_remove-Removed}
use syrup.Map.Controllers.Top.{heap_top-least}
use syrup.Map.Objects.{
  MapObject, oid_of, ObjectList, object_list_allocate, object_list_free, object_list_get,
}
use syrup.Map.Objects.Ids.{view, IsValid}
use syrup.Map.Objects.Grow.{Allocated, object_list_allocate-Allocated}
use syrup.Map.Objects.Search.{object_list_get-view}
use syrup.Map.Objects.Free.{Frees, object_list_free-Frees}

abbrev first : Node
first = record { index = 0; controllee_count = 1; controller = 7 }

abbrev second : Node
second = record { index = 1; controllee_count = 4; controller = 8 }

abbrev players : ControllerHeap
players = record {
  memory = λ a. if a == 10 then first else second;
  controllers = λ k. if k == 0 then 10 else 20;
  count = 2;
  capacity = 2;
}

players-IsHeap : IsHeap players
players-IsHeap = record {
  indexed = λ i h. ground arith;
  ordered = λ j pos h. ground arith;
  fits = omega arith;
  roomy = omega arith;
}

heap_push-Pushed_example : Pushed 30 0 9 true players (heap_push (some 30) true 0 9 players)
heap_push-Pushed_example = heap_push-Pushed 30 0 9 true players players-IsHeap (λ i h. ground arith)

heap_remove-Removed_example : Removed 10 players (heap_remove players 10)
heap_remove-Removed_example = heap_remove-Removed players 10 players-IsHeap (0, omega arith, refl)

heap_top-least_example :
    ((players.count ≡ 0) × (heap_top players ≡ none))
    ⊎ ((a : ℕ) × (heap_top players ≡ some a)
        × Holds players a
        × ((b : ℕ) → Holds players b → controllees players a ≤ controllees players b))
heap_top-least_example = heap_top-least players players-IsHeap

abbrev own : ℕ → ℕ
own k = k

abbrev snail : MapObject
snail = record { kind = 2; oid = 0xFFFF0000; index = 0; index2 = 0 }

abbrev one_object : ObjectList
one_object = record {
  objects = occupied snail ∷ [];
  object_count = 1;
  free_stack = λ i. 0;
  free_stack_capacity = 1;
  free_stack_top = 0;
}

only : (j : ℕ) → j < 1 → is_used (at one_object.objects j) ≡ true
only zero h = refl
only (suc j) h = absurd (omega arith)

one_object-IsTable : IsTable oid_of own one_object.objects 1
unfolding tally
one_object-IsTable = record {
  pos = omega arith;
  counted = refl;
  placed = λ i a hi e j hj near. only j hj;
  distinct = λ k. ground arith;
}

one_object-IsValid : IsValid own one_object
unfolding find_key
one_object-IsValid = record {
  table = one_object-IsTable;
  used = λ oid object h. ground arith;
  spare = λ i h. absurd (omega arith);
  apart = λ i j h k. absurd (omega arith);
  few = omega arith;
  stack_room = omega arith;
  capacity = omega arith;
  sized = omega arith;
}

snail-held : view one_object 0xFFFF0000 ≡ some snail
unfolding find_key
snail-held = refl

object_list_allocate-Allocated_example :
    Allocated own true true 3 4 0 one_object (object_list_allocate own true true 3 4 0 one_object)
object_list_allocate-Allocated_example =
    object_list_allocate-Allocated own 3 4 0 one_object one_object-IsValid true true

object_list_free-Frees_example :
    Frees own 0xFFFF0000 one_object (object_list_free own true 0xFFFF0000 one_object)
object_list_free-Frees_example =
    object_list_free-Frees own true 0xFFFF0000 one_object snail one_object-IsValid snail-held

object_list_get-view_example :
    object_list_get own 0xFFFF0000 one_object ≡ some (view one_object 0xFFFF0000)
object_list_get-view_example = object_list_get-view own one_object 0xFFFF0000 one_object-IsValid
