-- ===== src/Map/Controllers/Swap.antt =====
-- What an exchange of two nodes leaves as it was, and where it puts the nodes.
use mathlib.Core.Path.{fun_ext}
use syrup.Base.{ℕ, ◌<◌, ◌≡◌, refl, ◌∙◌, false, ◌==◌, if◌then◌else◌, arith}
use syrup.Map.Controllers.{ControllerHeap, weight, swap}
use syrup.Map.Controllers.Order.{exchange}

-- Every node knows its index.
abbrev pub Indexed : ControllerHeap → Type 0
Indexed heap = (i : ℕ) → i < heap.count → (heap.memory (heap.controllers i)).index ≡ i

-- A node is in the heap.
abbrev pub Holds : ControllerHeap → ℕ → Type 0
Holds heap a = (i : ℕ) × (i < heap.count) × (heap.controllers i ≡ a)

-- The same nodes in other places.
pub record Rearranges (heap heap' : ControllerHeap) : Type 0 where
  pub same_count : heap'.count ≡ heap.count
  pub same_capacity : heap'.capacity ≡ heap.capacity
  pub indexed : Indexed heap'
  pub controllees : (a : ℕ) → (heap'.memory a).controllee_count ≡ (heap.memory a).controllee_count
  pub controllers : (a : ℕ) → (heap'.memory a).controller ≡ (heap.memory a).controller
  pub keeps : (a : ℕ) → Holds heap a → Holds heap' a
  pub adds_none : (a : ℕ) → Holds heap' a → Holds heap a

pub Rearranges_refl : (h : ControllerHeap) → Indexed h → Rearranges h h
Rearranges_refl h indexed = record {
  same_count = refl;
  same_capacity = refl;
  indexed = indexed;
  controllees = λ a. refl;
  controllers = λ a. refl;
  keeps = λ a m. m;
  adds_none = λ a m. m;
}

pub Rearranges_trans : (h k l : ControllerHeap) → Rearranges h k → Rearranges k l → Rearranges h l
Rearranges_trans h k l r s = record {
  same_count = s.same_count ∙ r.same_count;
  same_capacity = s.same_capacity ∙ r.same_capacity;
  indexed = s.indexed;
  controllees = λ a. s.controllees a ∙ r.controllees a;
  controllers = λ a. s.controllers a ∙ r.controllers a;
  keeps = λ a m. s.keeps a (r.keeps a m);
  adds_none = λ a m. r.adds_none a (s.adds_none a m);
}

module _ (h : ControllerHeap) (i j : ℕ) where
  swap_place : (k : ℕ) → (swap h i j).controllers k ≡ exchange h.controllers i j k
  unfolding swap
  swap_place k = ground arith

  swap_controllees :
      (a : ℕ) → ((swap h i j).memory a).controllee_count ≡ (h.memory a).controllee_count
  unfolding swap
  swap_controllees a = ground arith

  swap_controller : (a : ℕ) → ((swap h i j).memory a).controller ≡ (h.memory a).controller
  unfolding swap
  swap_controller a = ground arith

  swap-weight_at : (k : ℕ) → weight (swap h i j) k ≡ exchange (weight h) i j k
  swap-weight_at k = ground (arith, swap_controllees ((swap h i j).controllers k), swap_place k)

  pub weight-swap : weight (swap h i j) ≡ exchange (weight h) i j
  weight-swap = fun_ext swap-weight_at

  module _ (indexed : Indexed h) (hi : i < h.count) (hj : j < h.count)
      (apart : (i == j) ≡ false) where
    swap-Indexed : Indexed (swap h i j)
    unfolding swap
    swap-Indexed k hk = ground (arith, indexed i hi, indexed j hj, indexed k hk)

    swap_forth : (a : ℕ) → Holds h a → Holds (swap h i j) a
    unfolding swap
    swap_forth a (k, hk, e) =
        (if k == i then j else if k == j then i else k, ground arith, ground arith)

    swap_back : (a : ℕ) → Holds (swap h i j) a → Holds h a
    unfolding swap
    swap_back a (k, hk, e) =
        (if k == i then j else if k == j then i else k, ground arith, ground arith)

    pub swap-Rearranges : Rearranges h (swap h i j)
    unfolding swap
    swap-Rearranges = record {
      same_count = refl;
      same_capacity = refl;
      indexed = swap-Indexed;
      controllees = swap_controllees;
      controllers = swap_controller;
      keeps = swap_forth;
      adds_none = swap_back;
    }
