-- ===== src/Map/Controllers/Removal.antt =====
-- Removing a node from the heap, giving the top more monsters, and what is at the top.
use syrup.Base.{
  ℕ, zero, suc, ◌+◌, ◌-◌, ◌<◌, ◌≡◌, refl, sym, ap, ◌∙◌, true, false, ◌==◌, ltb, ◌||◌, if◌then◌else◌,
  arith, inl, inr, Bool-cases, Option, some, lt→ltb,
}
use syrup.Map.Controllers.{ControllerHeap, weight, put, set_index, sift_up, heap_remove}
use syrup.Map.Controllers.Order.{parent, Up, Down}
use syrup.Map.Controllers.Swap.{Indexed, Holds, Rearranges_refl}
use syrup.Map.Controllers.Sift.{Sifts, sift_up-Sifts, sift_down-Sifts}
use syrup.Map.Controllers.Methods.{IsHeap, controllees, Sifts-IsHeap}

-- Where a node is no lighter than its parent the upward loop ends at once.
sift_up_ends :
    (rounds : ℕ) (h : ControllerHeap) (i : ℕ)
    → 0 < rounds
    → ltb (weight h i) (weight h (parent i)) ≡ false
    → sift_up rounds h i ≡ some h
unfolding sift_up
sift_up_ends zero h i pos heavy = absurd (omega arith)
sift_up_ends (suc rounds) h i pos heavy = elim (Bool-cases (ltb 0 i)) [
  | inl inner ↦ rw (sift_up, inner, heavy) refl
  | inr root ↦ rw (sift_up, root) refl
]

pub record Removed (node : ℕ) (h : ControllerHeap) (r : Option ControllerHeap) : Type 0 where
  pub after : ControllerHeap
  pub returns : r ≡ some after
  pub heap : IsHeap after
  pub size : after.count + 1 ≡ h.count
  pub others : (a : ℕ) → Holds after a → Holds h a × ((node == a) ≡ false)
  pub keeps : (a : ℕ) → Holds h a → (node == a) ≡ false → Holds after a
  pub same : (a : ℕ) → controllees after a ≡ controllees h a

module _ (h : ControllerHeap) (v : IsHeap h) (node index : ℕ) (within : index < h.count)
    (here : h.controllers index ≡ node) where
  abbrev moved : ControllerHeap
  moved = set_index (h.controllers (h.count - 1)) index (put index (h.controllers (h.count - 1)) h)

  abbrev shorter : ControllerHeap
  shorter = record moved { count = h.count - 1 }

  moved_weight :
      (k : ℕ) → weight shorter k ≡ (if k == index then weight h (h.count - 1) else weight h k)
  moved_weight k = ground arith

  shorter-Indexed : Indexed shorter
  shorter-Indexed k hk = ground (arith, v.indexed k, v.indexed (h.count - 1), v.indexed index)

  shorter_others : (a : ℕ) → Holds shorter a → Holds h a × ((node == a) ≡ false)
  shorter_others a (k, hk, e) = elim (Bool-cases (k == index)) [
    | inl there ↦ (
      (h.count - 1, omega arith, ground (arith, there)),
      ground (arith, there, v.indexed (h.count - 1), v.indexed index),
    )
    | inr other ↦ (
      (k, omega arith, ground (arith, other)),
      ground (arith, other, v.indexed k, v.indexed index),
    )
  ]

  shorter_keeps : (a : ℕ) → Holds h a → (node == a) ≡ false → Holds shorter a
  shorter_keeps a (k, hk, e) apart = elim (Bool-cases (k == h.count - 1)) [
    | inl end ↦ (index, ground (arith, end), ground (arith, end))
    | inr inner ↦ (k, ground (arith, inner), ground (arith, inner))
  ]

  shorter_same : (a : ℕ) → controllees shorter a ≡ controllees h a
  shorter_same a = ground arith

  -- The moved node may be heavier than its children.
  shorter-Down :
      (index == 0 || ltb (weight moved (parent index)) (weight moved index)) ≡ true
      → Down shorter.count (weight shorter) index
  shorter-Down light = record {
    edges = λ j pos lt other. ground (
      arith,
      moved_weight j,
      moved_weight (parent j),
      moved_weight index,
      moved_weight (parent index),
      v.ordered j pos (omega arith),
    );
    skips = λ j pos lt child inner. ground (
      arith,
      moved_weight j,
      moved_weight (parent index),
      v.ordered j pos (omega arith),
      v.ordered index inner within,
    );
  }

  -- Otherwise it may be lighter than its parent.
  shorter-Up :
      (index == 0 || ltb (weight moved (parent index)) (weight moved index)) ≡ false
      → Up shorter.count (weight shorter) index
  shorter-Up heavy = record {
    edges = λ j pos lt other. ground (
      arith,
      moved_weight j,
      moved_weight (parent j),
      moved_weight index,
      moved_weight (parent index),
      v.ordered j pos (omega arith),
      v.ordered index (ground arith) within,
    );
    skips = λ j pos lt child inner. ground (
      arith,
      moved_weight j,
      moved_weight (parent index),
      v.ordered j pos (omega arith),
      v.ordered index inner within,
    );
  }

  shorter-Removed : (r : Option ControllerHeap) → Sifts shorter r → Removed node h r
  shorter-Removed r s =
      let m = s.rearranges in
      record {
        after = s.after;
        returns = s.returns;
        heap = Sifts-IsHeap shorter r s (omega (arith, v.fits)) v.roomy;
        size = omega (arith, m.same_count);
        others = λ a held. shorter_others a (m.adds_none a held);
        keeps = λ a held apart. m.keeps a (shorter_keeps a held apart);
        same = λ a. m.controllees a ∙ shorter_same a;
      }

  -- The last node leaves nothing out of order.
  shorter_last : index ≡ h.count - 1 → Sifts shorter (some shorter)
  shorter_last end = record {
    after = shorter;
    returns = refl;
    rearranges = Rearranges_refl shorter shorter-Indexed;
    ordered = λ j pos lt.
        ground (arith, moved_weight j, moved_weight (parent j), v.ordered j pos (omega arith));
  }

  shorter-Sifts :
      (heavy : (index == 0 || ltb (weight moved (parent index)) (weight moved index)) ≡ false)
      → Sifts shorter (sift_up h.count shorter index)
  shorter-Sifts heavy = elim (Bool-cases (index == h.count - 1)) [
    | inl end ↦
        let at_end : index ≡ h.count - 1 = ground arith in
        let ends : ltb (weight shorter index) (weight shorter (parent index)) ≡ false = ground (
          arith,
          moved_weight index,
          moved_weight (parent index),
          v.ordered index (ground arith) within,
        ) in
        rw (sift_up_ends h.count shorter index (omega arith) ends) (shorter_last at_end)
    | inr inner ↦
        sift_up-Sifts h.count shorter index shorter-Indexed (ground arith) within (shorter-Up heavy)
  ]

-- Removing a node that the heap holds ends, takes that node and no other, and leaves a heap.
pub heap_remove-Removed :
    (h : ControllerHeap) (node : ℕ) → IsHeap h → Holds h node → Removed node h (heap_remove h node)
unfolding heap_remove
heap_remove-Removed h node v (index, within, here) =
    let known : (h.memory node).index ≡ index =
      ap (λ a. (h.memory a).index) (sym here) ∙ v.indexed index within in
    elim (Bool-cases (
      index == 0
      || ltb (weight (moved h v node index within here) (parent index))
          (weight (moved h v node index within here) index))) [
            | inl light ↦
                rw (heap_remove, known, lt→ltb index h.count within, light)
                  (shorter-Removed h v node index within here _ (
                    sift_down-Sifts h.count (shorter h v node index within here) index
                      (shorter-Indexed h v node index within here) (omega arith) (omega arith)
                      (shorter-Down h v node index within here light)))
            | inr heavy ↦
                rw (heap_remove, known, lt→ltb index h.count within, heavy)
                  (shorter-Removed h v node index within here _
                    (shorter-Sifts h v node index within here heavy))
          ]
