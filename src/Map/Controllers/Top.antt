-- ===== src/Map/Controllers/Top.antt =====
-- The top of the heap: the node with fewest controllees, and what more controllees do to it.
use syrup.Base.{
  ℕ, zero, suc, ◌+◌, ◌≤◌, ◌<◌, ◌≡◌, refl, ◌∙◌, ◌⊎◌, ◌==◌, if◌then◌else◌, arith, inl, inr,
  Bool-cases, Option, some, none, lt→ltb,
}
use syrup.Map.Controllers.{ControllerHeap, weight, write_node, sift_down, heap_inc, heap_top}
use syrup.Map.Controllers.Order.{parent, Ordered, Down}
use syrup.Map.Controllers.Swap.{Indexed, Holds}
use syrup.Map.Controllers.Sift.{Sifts, sift_down-Sifts}
use syrup.Map.Controllers.Methods.{IsHeap, controllees, Sifts-IsHeap}

root_least : (f : ℕ → ℕ) (n bound i : ℕ) → Ordered n f → i < bound → i < n → f 0 ≤ f i
root_least f n zero i o lt within = absurd (omega arith)
root_least f n (suc bound) i o lt within = elim (Bool-cases (i == 0)) [
  | inl root ↦ ground arith
  | inr inner ↦
      let pos : 0 < i = ground arith in
      omega (arith, o i pos within, root_least f n bound (parent i) o (omega arith) (omega arith))
]

-- The top is none exactly if the heap is empty; otherwise it is a node of the heap, and none of its
-- nodes has fewer controllees.
pub heap_top-least :
    (h : ControllerHeap)
    → IsHeap h
    → ((h.count ≡ 0) × (heap_top h ≡ none))
      ⊎ ((a : ℕ) × (heap_top h ≡ some a)
          × Holds h a
          × ((b : ℕ) → Holds h b → controllees h a ≤ controllees h b))
unfolding heap_top
heap_top-least h v = elim (Bool-cases (h.count == 0)) [
  | inl empty ↦ inl (ground arith, rw (heap_top, empty) refl)
  | inr some_held ↦ inr (
    h.controllers 0,
    rw (heap_top, some_held) refl,
    (0, ground arith, refl),
    λ b held. ground (
      arith,
      held.1,
      held.2,
      root_least (weight h) h.count h.count held.0 v.ordered held.1 held.1,
    ),
  )
]

pub record Increased (amount : ℕ) (h : ControllerHeap) (r : Option ControllerHeap) : Type 0 where
  pub after : ControllerHeap
  pub returns : r ≡ some after
  pub heap : IsHeap after
  pub size : after.count ≡ h.count
  pub others : (a : ℕ) → Holds after a → Holds h a
  pub keeps : (a : ℕ) → Holds h a → Holds after a
  pub counts :
      (a : ℕ)
      → controllees after a
        ≡ (if h.controllers 0 == a then controllees h a + amount else controllees h a)

-- Giving the top more controllees ends, adds them to that node alone, and leaves a heap of the same
-- nodes.
heap_inc-Increased :
    (h : ControllerHeap) (amount : ℕ)
    → IsHeap h
    → 0 < h.count
    → Increased amount h (heap_inc h amount)
unfolding heap_inc
heap_inc-Increased h amount v some_held =
    let m = sifted.rearranges in
    rw (heap_inc, lt→ltb 0 h.count some_held, sifted.returns)
      (record {
        after = sifted.after;
        returns = refl;
        heap = Sifts-IsHeap heavier _ sifted v.fits v.roomy;
        size = m.same_count;
        others = m.adds_none;
        keeps = m.keeps;
        counts = λ a. m.controllees a ∙ counted a;
      })
  where
    root : ℕ
    root = h.controllers 0

    heavier : ControllerHeap
    heavier = record h {
      memory =
          write_node (h.controllers 0)
            (record (h.memory (h.controllers 0)) {
              controllee_count = (h.memory (h.controllers 0)).controllee_count + amount;
            })
            h.memory;
    }

    counted :
        (a : ℕ)
        → controllees heavier a
          ≡ (if h.controllers 0 == a then controllees h a + amount else controllees h a)
    counted a = ground arith

    weighs : (k : ℕ) → 0 < k → k < h.count → weight heavier k ≡ weight h k
    weighs k pos hk = ground (arith, v.indexed k hk, v.indexed 0 some_held)

    heavier-Indexed : Indexed heavier
    heavier-Indexed k hk = ground (arith, v.indexed k hk)

    heavier-Down : Down heavier.count (weight heavier) 0
    heavier-Down = record {
      edges = λ j pos lt other. omega (
        arith,
        weighs j pos lt,
        weighs (parent j) (ground arith) (omega arith),
        v.ordered j pos lt,
      );
      skips = λ j pos lt child inner. absurd (omega arith);
    }

    sifted : Sifts heavier (sift_down h.count heavier 0)
    sifted = sift_down-Sifts h.count heavier 0 heavier-Indexed (omega arith) some_held heavier-Down
