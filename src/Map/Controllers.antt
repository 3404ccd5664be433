-- ===== src/Map/Controllers.antt =====
-- The heap of src/channel/map.c: who controls fewest monsters is at the top. Nodes are in memory at
-- addresses, which the array holds and the players keep. The array is a function on its indices, so
-- that what is behind the count stays as it was; `none` is an access that is out of it, or a loop that
-- does not end.
pub mod Swap
pub mod Order
pub mod Sift
pub mod Methods
pub mod Removal
pub mod Top
use syrup.Base.{
  ℕ, zero, suc, ◌+◌, ◌-◌, ◌*◌, ◌/◌, Bool, true, false, not, ◌&&◌, ◌||◌, ◌==◌, ltb, leb,
  if◌then◌else◌, Option, none, some,
}

pub record Node : Type 0 where
  pub index : ℕ
  pub controllee_count : ℕ
  pub controller : ℕ

pub record ControllerHeap : Type 0 where
  pub memory : ℕ → Node
  pub controllers : ℕ → ℕ
  pub count : ℕ
  pub capacity : ℕ

-- The count of the node at an index.
abbrev pub weight : ControllerHeap → ℕ → ℕ
weight heap i = (heap.memory (heap.controllers i)).controllee_count

-- Writes into a node, and into the array.
abbrev pub write_node : ℕ → Node → (ℕ → Node) → ℕ → Node
write_node a node memory b = if a == b then node else memory b

abbrev pub set_index : ℕ → ℕ → ControllerHeap → ControllerHeap
set_index a i heap = record heap {
  memory = write_node a (record (heap.memory a) { index = i }) heap.memory;
}

abbrev pub put : ℕ → ℕ → ControllerHeap → ControllerHeap
put i a heap = record heap { controllers = λ k. if i == k then a else heap.controllers k }

unfoldable pub swap : ControllerHeap → ℕ → ℕ → ControllerHeap
swap heap i j =
    let tmp = heap.controllers i in
    let first = put i (heap.controllers j) heap in
    let second = set_index (first.controllers i) i first in
    let third = put j tmp second in set_index (third.controllers j) j third

-- The loop, with rounds left.
unfoldable pub sift_down : (rounds : ℕ) → ControllerHeap → ℕ → Option ControllerHeap
sift_down zero heap i = none
sift_down (suc rounds) heap i =
    let left = i * 2 + 1 in
    let right = i * 2 + 2 in
    let down_left = sift_down rounds (swap heap i left) left in
    let down_right = sift_down rounds (swap heap i right) right in
    if ltb left heap.count
    then if right == heap.count
      then if ltb (weight heap left) (weight heap i) then some (swap heap i left) else some heap
      else if leb (weight heap i) (weight heap left) && leb (weight heap i) (weight heap right)
      then some heap
      else if ltb (weight heap left) (weight heap i) && ltb (weight heap right) (weight heap i)
      then if ltb (weight heap left) (weight heap right) then down_left else down_right
      else if ltb (weight heap left) (weight heap i)
      then down_left
      else down_right
    else some heap

unfoldable pub sift_up : (rounds : ℕ) → ControllerHeap → ℕ → Option ControllerHeap
sift_up zero heap i = none
sift_up (suc rounds) heap i =
    let parent = (i - 1) / 2 in
    let up = sift_up rounds (swap heap parent i) parent in
    if ltb 0 i
    then if ltb (weight heap i) (weight heap parent) then up else some heap
    else some heap

pub heap_init :
    (allocated : Bool) → (memory : ℕ → Node) → (controllers : ℕ → ℕ) → Option ControllerHeap
heap_init allocated memory controllers =
    if allocated
    then some (record { memory = memory; controllers = controllers; count = 0; capacity = 1 })
    else none

-- What `malloc` and `realloc` give: the node's address, if there is one, and whether the array grew.
-- The null pointer is `none` in the answer.
unfoldable pub heap_push :
    (fresh : Option ℕ) (grown : Bool) (controllees controller : ℕ)
    → ControllerHeap
    → Option (Option ℕ × ControllerHeap)
heap_push none grown controllees controller heap = some (none, heap)
heap_push (some node) grown controllees controller heap =
    let full = heap.count == heap.capacity in
    let roomy = if full then record heap { capacity = heap.capacity * 2 } else heap in
    let made : Node = record {
      index = heap.count;
      controllee_count = controllees;
      controller = controller;
    } in
    let placed = put heap.count node (record roomy { memory = write_node node made heap.memory }) in
    let added = record placed { count = heap.count + 1 } in
    if full && not grown
    then some (none, heap)
    else if ltb heap.count roomy.capacity
    then elim (sift_up added.count added (added.count - 1)) [
      | none ↦ none
      | some sifted ↦ some (some node, sifted)
    ]
    else none

-- The root gets more controllees.
unfoldable pub heap_inc : ControllerHeap → ℕ → Option ControllerHeap
heap_inc heap amount =
    let root = heap.controllers 0 in
    let heavier = record (heap.memory root) {
      controllee_count = (heap.memory root).controllee_count + amount;
    } in
    if ltb 0 heap.count
    then sift_down heap.count (record heap { memory = write_node root heavier heap.memory }) 0
    else none

-- The last node of the array takes the place of the removed one, whose memory nothing reads again.
unfoldable pub heap_remove : ControllerHeap → (node : ℕ) → Option ControllerHeap
heap_remove heap node =
    let index = (heap.memory node).index in
    let last = heap.count - 1 in
    let moved = set_index (heap.controllers last) index (put index (heap.controllers last) heap) in
    let shorter = record moved { count = last } in
    if ltb index heap.count
    then if index == 0 || ltb (weight moved ((index - 1) / 2)) (weight moved index)
      then sift_down heap.count shorter index
      else sift_up heap.count shorter index
    else none

unfoldable pub heap_top : ControllerHeap → Option ℕ
heap_top heap = if heap.count == 0 then none else some (heap.controllers 0)
