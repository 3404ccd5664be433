-- ===== src/HashSet/Put.antt =====
-- One write into a well-formed table: an element with a new key, or a deletion.
use syrup.Base.{
  ℕ, ◌+◌, ◌-◌, ◌%◌, ◌≤◌, ◌<◌, ◌≡◌, refl, sym, ap, ◌∙◌, inl, inr, true, false, Option, List, arith,
  length, set, ◌==◌, Bool-cases, ℕ_discrete, ==_iff, length-set, get_or-set_self, get_or-set_ne,
}
use mathlib.Core.Path.{subst}
use syrup.HashSet.{Cell, free, occupied, deleted, is_used, is_occupied, at}
use syrup.HashSet.Cells.{tally, tally-set, holds_key}
use syrup.HashSet.Probe.{dist, Before}
use syrup.HashSet.Get.{IsPlaced}

module _ {A : Type 0} (key : A → ℕ) (hash : ℕ → ℕ) where
  occupied_inj : {a b : A} → occupied a ≡ occupied b → a ≡ b
  occupied_inj e = cc

  -- What every table satisfies, `n` its elements.
  pub record IsTable (cells : List (Cell A)) (n : ℕ) : Type 0 where
    pub pos : 0 < length cells
    pub counted : tally is_occupied cells ≡ n
    pub placed : IsPlaced key hash cells
    pub distinct : (k : ℕ) → tally (holds_key key k) cells ≤ 1

  -- The cells before one of the sequence stay used when a used cell is written at `i`.
  Before-set :
      (cells : List (Cell A)) (start i j : ℕ) (c : Cell A)
      → i < length cells
      → is_used c ≡ true
      → Before is_used cells start j
      → Before is_used (set cells i c) start j
  Before-set cells start i j c hi used before l hl near = elim (ℕ_discrete i l) [
    | yes e ↦
        ap (λ (m : ℕ). is_used (at (set cells i c) m)) (sym e)
        ∙ ap is_used (get_or-set_self cells i c free hi)
        ∙ used
    | no e ↦
        ap is_used (get_or-set_ne cells i l c free e)
        ∙ before l (subst (λ m. l < m) same hl)
            (subst (λ m. dist m start l < dist m start j) same near)
  ]
    where
      same : length (set cells i c) ≡ length cells
      same = length-set cells i c

  module _ (cells : List (Cell A)) (i : ℕ) (hi : i < length cells) where
    -- Any element but the written one was there before.
    IsPlaced-set :
        (c : Cell A)
        → is_used c ≡ true
        → IsPlaced key hash cells
        → ((a : A) → c ≡ occupied a → Before is_used cells (hash (key a) % length cells) i)
        → IsPlaced key hash (set cells i c)
    IsPlaced-set c used placed new j b hj here =
        subst (λ m. Before is_used (set cells i c) (hash (key b) % m) j) (sym same)
          (Before-set cells (hash (key b) % length cells) i j c hi used old)
      where
        same : length (set cells i c) ≡ length cells
        same = length-set cells i c

        old : Before is_used cells (hash (key b) % length cells) j
        old = elim (ℕ_discrete i j) [
          | yes e ↦
              subst (Before is_used cells (hash (key b) % length cells)) e
                (new b (sym (get_or-set_self cells i c free hi) ∙ ap (at (set cells i c)) e ∙ here))
          | no e ↦
              placed j b (subst (λ m. j < m) same hj)
                (sym (get_or-set_ne cells i j c free e) ∙ here)
        ]

    -- An element with a new key, in a cell that its probe sequence came to.
    pub set_occupied-IsTable :
        (n : ℕ) (a : A)
        → IsTable cells n
        → is_occupied (at cells i) ≡ false
        → Before is_used cells (hash (key a) % length cells) i
        → tally (holds_key key (key a)) cells ≡ 0
        → IsTable (set cells i (occupied a)) (n + 1)
    set_occupied-IsTable n a t empty before new = record {
      pos = rw length-set t.pos;
      counted = ground (arith, tally-set is_occupied cells i (occupied a) hi, t.counted, empty);
      placed = IsPlaced-set (occupied a) refl t.placed (λ b e.
          subst (λ x. Before is_used cells (hash (key x) % length cells) i) (occupied_inj e)
            before);
      distinct = λ k. elim (Bool-cases (key a == k)) [
        | inl e ↦
            let zero_k : tally (holds_key key k) cells ≡ 0 =
              subst (λ q. tally (holds_key key q) cells ≡ 0) ((==_iff (key a) k).0 e) new in
            ground (arith, tally-set (holds_key key k) cells i (occupied a) hi, zero_k)
        | inr e ↦ ground (arith, tally-set (holds_key key k) cells i (occupied a) hi, t.distinct k)
      ];
    }

    -- The element `a`, in the cell that holds it, is deleted.
    pub set_deleted-IsTable :
        (n : ℕ) (a : A) (o : Option A)
        → IsTable cells n
        → at cells i ≡ occupied a
        → IsTable (set cells i (deleted o)) (n - 1)
    set_deleted-IsTable n a o t here = record {
      pos = rw length-set t.pos;
      counted = ground (arith, tally-set is_occupied cells i (deleted o) hi, t.counted, here);
      placed = IsPlaced-set (deleted o) refl t.placed (λ b e. cc);
      distinct =
          λ k. ground (arith, tally-set (holds_key key k) cells i (deleted o) hi, t.distinct k);
    }
