-- ===== src/Map/Controllers/Methods.antt =====
-- The operations of the heap keep it well formed, and what they do to the nodes it holds.
use mathlib.Core.Path.{subst}
use syrup.Base.{
  ℕ, ◌+◌, ◌-◌, ◌*◌, ◌≤◌, ◌<◌, ◌≡◌, refl, sym, ◌∙◌, ◌⊎◌, Bool, false, ◌==◌, arith, inl, inr,
  Bool-cases, Option, some, none, lt→ltb, ==_iff,
}
use syrup.Map.Controllers.{ControllerHeap, weight, write_node, put, sift_up, heap_push}
use syrup.Map.Controllers.Order.{parent, Ordered, Up}
use syrup.Map.Controllers.Swap.{Indexed, Holds}
use syrup.Map.Controllers.Sift.{Sifts, sift_up-Sifts}

pub record IsHeap (h : ControllerHeap) : Type 0 where
  pub indexed : Indexed h
  pub ordered : Ordered h.count (weight h)
  pub fits : h.count ≤ h.capacity
  pub roomy : 0 < h.capacity

-- The node of an address in the heap.
abbrev pub controllees : ControllerHeap → ℕ → ℕ
controllees h a = (h.memory a).controllee_count

Ordered-at : (h : ControllerHeap) (f : ℕ → ℕ) (n m : ℕ) → n ≡ m → Ordered n f → Ordered m f
Ordered-at h f n m e o = subst (λ k. Ordered k f) e o

-- What a sift leaves is a heap.
pub Sifts-IsHeap :
    (h : ControllerHeap) (r : Option ControllerHeap) (s : Sifts h r)
    → h.count ≤ h.capacity
    → 0 < h.capacity
    → IsHeap s.after
Sifts-IsHeap h r s fits roomy = record {
  indexed = s.rearranges.indexed;
  ordered =
      Ordered-at h (weight s.after) h.count s.after.count (sym s.rearranges.same_count) s.ordered;
  fits = omega (arith, s.rearranges.same_count, s.rearranges.same_capacity);
  roomy = omega (arith, s.rearranges.same_capacity);
}

-- A push either is refused for want of memory and changes nothing, or adds the node alone.
pub data Pushed (node controllees_ controller : ℕ) (grown : Bool) (h : ControllerHeap)
    (r : Option (Option ℕ × ControllerHeap)) : Type 0 where
  refused :
      grown ≡ false
      → h.count ≡ h.capacity
      → r ≡ some (none, h)
      → Pushed node controllees_ controller grown h r
  pushed :
      (h' : ControllerHeap)
      → r ≡ some (some node, h')
      → IsHeap h'
      → h'.count ≡ h.count + 1
      → ((a : ℕ) → Holds h' a → Holds h a ⊎ (a ≡ node))
      → ((a : ℕ) → Holds h a → Holds h' a)
      → Holds h' node
      → controllees h' node ≡ controllees_
      → ((a : ℕ) → (node == a) ≡ false → controllees h' a ≡ controllees h a)
      → Pushed node controllees_ controller grown h r

module _ (h : ControllerHeap) (v : IsHeap h) (node controllees_ controller capacity : ℕ)
    (new : (i : ℕ) → i < h.count → (node == h.controllers i) ≡ false) where
  abbrev added : ControllerHeap
  added =
      record (put h.count node (record h {
        capacity = capacity;
        memory =
            write_node node
              (record { index = h.count; controllee_count = controllees_; controller = controller })
              h.memory;
      })) { count = h.count + 1 }

  added-weight : (k : ℕ) → k < h.count → weight added k ≡ weight h k
  added-weight k hk = ground (arith, new k hk)

  added-Indexed : Indexed added
  added-Indexed k hk = ground (arith, new k, v.indexed k)

  added-Up : Up added.count (weight added) h.count
  added-Up = record {
    edges = λ j pos lt other. omega (
      arith,
      added-weight j (ground arith),
      added-weight (parent j) (ground arith),
      v.ordered j pos (ground arith),
    );
    skips = λ j pos lt child inner. absurd (omega arith);
  }

  added-Sifts : Sifts added (sift_up added.count added (added.count - 1))
  added-Sifts =
      subst (λ i. Sifts added (sift_up added.count added i)) (omega arith)
        (sift_up-Sifts added.count added h.count added-Indexed (omega arith) (omega arith) added-Up)

  -- The node was added, and then the nodes were put in order.
  added-Pushed :
      (grown : Bool) (r : Option (Option ℕ × ControllerHeap))
      → h.count < capacity
      → r ≡ some (some node, added-Sifts.after)
      → Pushed node controllees_ controller grown h r
  added-Pushed grown r room e =
      let s = added-Sifts in
      let m = s.rearranges in
      pushed s.after e (Sifts-IsHeap added _ s (omega arith) (omega arith)) m.same_count
        (λ a held. earlier a (m.adds_none a held))
        (λ a held. m.keeps a (held.0, omega (arith, held.1), ground (arith, held.1, held.2)))
        (m.keeps node (h.count, omega arith, ground arith)) (m.controllees node ∙ ground arith)
        (λ a other. m.controllees a ∙ rw other refl)
    where
      earlier : (a : ℕ) → Holds added a → Holds h a ⊎ (a ≡ node)
      earlier a (k, hk, e) = elim (Bool-cases (k == h.count)) [
        | inl last ↦ inr (ground arith)
        | inr before ↦ inl (k, ground arith, ground arith)
      ]

-- A push of a node that the heap does not hold adds that node alone, with the count it was given, and
-- leaves a heap; only if the array is full and cannot be grown does it change nothing.
pub heap_push-Pushed :
    (node controllees_ controller : ℕ) (grown : Bool) (h : ControllerHeap)
    → IsHeap h
    → ((i : ℕ) → i < h.count → (node == h.controllers i) ≡ false)
    → Pushed node controllees_ controller grown h
        (heap_push (some node) grown controllees_ controller h)
unfolding heap_push
heap_push-Pushed node controllees_ controller grown h v new =
    elim (Bool-cases (h.count == h.capacity)) [
      | inl full ↦ elim (Bool-cases grown) [
        | inr fails ↦
            refused fails ((==_iff h.count h.capacity).0 full) (rw (heap_push, full, fails) refl)
        | inl grows ↦
            let room : h.count < h.capacity * 2 = ground (arith, full, v.roomy) in
            added-Pushed h v node controllees_ controller (h.capacity * 2) new grown _ room (
              rw
                (
                  heap_push,
                  full,
                  grows,
                  lt→ltb h.count (h.capacity * 2) room,
                  (added-Sifts h v node controllees_ controller (h.capacity * 2) new).returns,
                )
                refl)
      ]
      | inr spare ↦
          let room : h.count < h.capacity = ground (arith, spare, v.fits) in
          added-Pushed h v node controllees_ controller h.capacity new grown _ room (
            rw
              (
                heap_push,
                spare,
                lt→ltb h.count h.capacity room,
                (added-Sifts h v node controllees_ controller h.capacity new).returns,
              )
              refl)
    ]
