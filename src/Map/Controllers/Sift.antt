-- ===== src/Map/Controllers/Sift.antt =====
-- The loops that put one node right: they end, and the heap is in order again.
use mathlib.Core.Path.{subst}
use syrup.Base.{
  ℕ, zero, suc, ◌+◌, ◌*◌, ◌≤◌, ◌<◌, ◌≡◌, refl, sym, Bool, true, false, ◌==◌, ltb, leb, ◌&&◌,
  if◌then◌else◌, arith, inl, inr, Bool-cases, Option, some, ltb→lt,
}
use syrup.Map.Controllers.{ControllerHeap, weight, swap, sift_up, sift_down}
use syrup.Map.Controllers.Order.{
  parent, Ordered, Up, Down, Up-step, Up-done, Up-root, Down-step, Down-done,
}
use syrup.Map.Controllers.Swap.{
  Indexed, Rearranges, Rearranges_refl, Rearranges_trans, weight-swap, swap-Rearranges,
}

-- The result is the heap with its nodes in order.
pub record Sifts (h : ControllerHeap) (r : Option ControllerHeap) : Type 0 where
  pub after : ControllerHeap
  pub returns : r ≡ some after
  pub rearranges : Rearranges h after
  pub ordered : Ordered h.count (weight after)

stays : (h : ControllerHeap) → Indexed h → Ordered h.count (weight h) → Sifts h (some h)
stays h indexed ordered = record {
  after = h;
  returns = refl;
  rearranges = Rearranges_refl h indexed;
  ordered = ordered;
}

-- A test may be used in its branches.
branches :
    (h : ControllerHeap) (b : Bool) (x y : Option ControllerHeap)
    → (b ≡ true → Sifts h x)
    → (b ≡ false → Sifts h y)
    → Sifts h (if b then x else y)
branches h true x y p q = p refl
branches h false x y p q = q refl

-- One exchange, and then what the rest does.
exchanged :
    (h : ControllerHeap) (i j : ℕ) (r : Option ControllerHeap)
    → Rearranges h (swap h i j)
    → Sifts (swap h i j) r
    → Sifts h r
unfolding swap
exchanged h i j r one rest = record {
  after = rest.after;
  returns = rest.returns;
  rearranges = Rearranges_trans h (swap h i j) rest.after one rest.rearranges;
  ordered = rest.ordered;
}

swap_count : (h : ControllerHeap) (i j : ℕ) → (swap h i j).count ≡ h.count
unfolding swap
swap_count h i j = refl

pub sift_up-Sifts :
    (rounds : ℕ) (h : ControllerHeap) (i : ℕ)
    → Indexed h
    → i < h.count
    → i < rounds
    → Up h.count (weight h) i
    → Sifts h (sift_up rounds h i)
unfolding sift_up
sift_up-Sifts zero h i indexed within enough u = absurd (omega arith)
sift_up-Sifts (suc rounds) h i indexed within enough u = elim (Bool-cases (ltb 0 i)) [
  | inr root ↦ rw (sift_up, root) (stays h indexed (Up-root h.count (weight h) i u root))
  | inl inner ↦ elim (Bool-cases (ltb (weight h i) (weight h (parent i)))) [
    | inr heavy ↦
        rw (sift_up, inner, heavy) (stays h indexed (Up-done h.count (weight h) i u inner heavy))
    | inl light ↦
        let pos : 0 < i = ltb→lt 0 i inner in
        let one = swap-Rearranges h (parent i) i indexed (omega arith) within (ground arith) in
        let step = Up-step h.count (weight h) i u pos within (ltb→lt _ _ light) in
        rw (sift_up, inner, light)
          (exchanged h (parent i) i _ one (
            sift_up-Sifts rounds (swap h (parent i) i) (parent i) one.indexed
              (omega (arith, swap_count h (parent i) i)) (omega arith)
              (subst (λ n. Up n (weight (swap h (parent i) i)) (parent i))
                (sym (swap_count h (parent i) i))
                (subst (λ f. Up h.count f (parent i)) (sym (weight-swap h (parent i) i)) step))))
  ]
]

-- A node has two children at most.
both_children :
    (f : ℕ → ℕ) (n i x : ℕ)
    → (i * 2 + 1 < n → x ≤ f (i * 2 + 1))
    → (i * 2 + 2 < n → x ≤ f (i * 2 + 2))
    → (d : ℕ) → 0 < d
    → d < n
    → parent d ≡ i
    → x ≤ f d
both_children f n i x l r d pos lt child = elim (Bool-cases (d == i * 2 + 1)) [
  | inl e ↦ ground (arith, l)
  | inr e ↦ let right : d ≡ i * 2 + 2 = ground arith in rw (right) (r (omega arith))
]

module _ (h : ControllerHeap) (i : ℕ) (indexed : Indexed h) (u : Down h.count (weight h) i) where
  -- The exchange with the lighter child.
  lowered :
      (c : ℕ)
      → 0 < c
      → c < h.count
      → parent c ≡ i
      → weight h c < weight h i
      → ((d : ℕ) → 0 < d → d < h.count → parent d ≡ i → weight h c ≤ weight h d)
      → Down h.count (weight (swap h i c)) c
  lowered c pos within child light least =
      subst (λ f. Down h.count f c) (sym (weight-swap h i c))
        (Down-step h.count (weight h) i c u pos within child light least)

  moved : (c : ℕ) → 0 < c → c < h.count → parent c ≡ i → Rearranges h (swap h i c)
  moved c pos within child = swap-Rearranges h i c indexed (omega arith) within (ground arith)

  -- The only child is lighter.
  lowered_last :
      i * 2 + 2 ≡ h.count
      → weight h (i * 2 + 1) < weight h i
      → Sifts h (some (swap h i (i * 2 + 1)))
  lowered_last last light =
      let c = i * 2 + 1 in
      let down = lowered c (omega arith) (omega arith) (omega arith) light (
        both_children (weight h) h.count i (weight h c) (λ lt. omega arith)
          (λ lt. absurd (omega arith))) in
      record {
        after = swap h i c;
        returns = refl;
        rearranges = moved c (omega arith) (omega arith) (omega arith);
        ordered =
            Down-done h.count (weight (swap h i c)) c down (λ d pos lt child. absurd (omega arith));
      }

  -- The loop goes on from the child.
  lowered_on :
      (c rounds : ℕ)
      → 0 < c
      → c < h.count
      → parent c ≡ i
      → weight h c < weight h i
      → (i * 2 + 1 < h.count → weight h c ≤ weight h (i * 2 + 1))
      → (i * 2 + 2 < h.count → weight h c ≤ weight h (i * 2 + 2))
      → (Indexed (swap h i c)
          → Down (swap h i c).count (weight (swap h i c)) c
          → Sifts (swap h i c) (sift_down rounds (swap h i c) c))
      → Sifts h (sift_down rounds (swap h i c) c)
  lowered_on c rounds pos within child light left right rest =
      let one = moved c pos within child in
      exchanged h i c _ one (
        rest one.indexed (
          subst (λ n. Down n (weight (swap h i c)) c) (sym (swap_count h i c))
            (lowered c pos within child light
              (both_children (weight h) h.count i (weight h c) left right))))

pub sift_down-Sifts :
    (rounds : ℕ) (h : ControllerHeap) (i : ℕ)
    → Indexed h
    → h.count ≤ rounds + i
    → 0 < rounds
    → Down h.count (weight h) i
    → Sifts h (sift_down rounds h i)
unfolding sift_down
sift_down-Sifts zero h i indexed enough some_left u = absurd (omega arith)
sift_down-Sifts (suc rounds) h i indexed enough some_left u =
    let w = weight h in
    let l = i * 2 + 1 in
    let r = i * 2 + 2 in
    let done : ((l < h.count) → w i ≤ w l) → ((r < h.count) → w i ≤ w r) → Sifts h (some h) =
      λ p q. stays h indexed (Down-done h.count w i u (both_children w h.count i (w i) p q)) in
    let go =
      λ (c : ℕ) (further : i < c) (pos : 0 < c) (within : c < h.count) (ind : Indexed (swap h i c))
          (d : Down (swap h i c).count (weight (swap h i c)) c).
        sift_down-Sifts rounds (swap h i c) c ind (omega (arith, swap_count h i c)) (omega arith)
          d in
    let left_on = λ (lt : l < h.count) (light : w l < w i) (least : r < h.count → w l ≤ w r).
      lowered_on h i indexed u l rounds (omega arith) lt (omega arith) light (λ p. omega arith)
        least (go l (omega arith) (omega arith) lt) in
    let right_on = λ (lt : r < h.count) (light : w r < w i) (least : l < h.count → w r ≤ w l).
      lowered_on h i indexed u r rounds (omega arith) lt (omega arith) light least
        (λ p. omega arith) (go r (omega arith) (omega arith) lt) in
    branches h (ltb l h.count) _ _
      (λ inner.
        branches h (r == h.count) _ _
          (λ last.
            branches h (ltb (w l) (w i)) _ _
              (λ light. lowered_last h i indexed u (ground arith) (ground arith))
              (λ heavy. done (λ p. ground arith) (λ p. ground arith)))
          (λ full.
            branches h (leb (w i) (w l) && leb (w i) (w r)) _ _
              (λ heavy. done (λ p. ground arith) (λ p. ground arith))
              (λ some_light.
                branches h (ltb (w l) (w i) && ltb (w r) (w i)) _ _
                  (λ both.
                    branches h (ltb (w l) (w r)) _ _
                      (λ less. left_on (ground arith) (ground arith) (λ p. ground arith))
                      (λ more. right_on (ground arith) (ground arith) (λ p. ground arith)))
                  (λ one.
                    branches h (ltb (w l) (w i)) _ _
                      (λ less. left_on (ground arith) (ground arith) (λ p. ground arith))
                      (λ more. right_on (ground arith) (ground arith) (λ p. ground arith))))))
      (λ leaf. done (λ p. ground arith) (λ p. ground arith))
