-- ===== src/HashSet/Probe.antt =====
-- The probe sequence of a key: every index of the arrays, once, from the hashed one round to it.
use syrup.Base.{
  ℕ, zero, suc, ◌+◌, ◌-◌, ◌≤◌, ◌<◌, ◌≡◌, refl, ◌⊎◌, inl, inr, Bool, true, false, Option, some, List,
  arith, length, leb, ◌==◌, if◌then◌else◌, Bool-cases, ap, ◌∙◌, ℕ_discrete,
}
use syrup.HashSet.{Cell, at, next_index, probe}

-- How many steps after `start` the sequence comes to `i`.
abbrev pub dist : (capacity start i : ℕ) → ℕ
dist capacity start i = if leb start i then i - start else i + capacity - start

next_index-eq : (n i : ℕ) → i < n → next_index n i ≡ (if i + 1 == n then 0 else i + 1)
next_index-eq n i h = grind arith

module _ (n start : ℕ) (hs : start < n) where
  pub dist-lt : (i : ℕ) → i < n → dist n start i < n
  dist-lt i h = ground arith

  pub dist_inj : (i j : ℕ) → i < n → j < n → dist n start i ≡ dist n start j → i ≡ j
  dist_inj i j hi hj e = ground arith

  pub dist_next :
      (i : ℕ)
      → i < n
      → (next_index n i < n)
        × ((((next_index n i == start) ≡ true) × (dist n start i + 1 ≡ n))
            ⊎ (((next_index n i == start) ≡ false)
                × (dist n start (next_index n i) ≡ dist n start i + 1)))
  dist_next i h = ground (arith, next_index-eq n i h)

-- Every cell that the sequence from `start` comes to before `i` passes the test.
abbrev pub Before : {A : Type 0} → (Cell A → Bool) → List (Cell A) → ℕ → ℕ → Type 0
Before busy cells start i =
    (j : ℕ)
    → j < length cells
    → dist (length cells) start j < dist (length cells) start i
    → busy (at cells j) ≡ true

module _ {A : Type 0} (cells : List (Cell A)) (start : ℕ) (hs : start < length cells) where
  pub Before-start : (busy : Cell A → Bool) → Before busy cells start start
  Before-start busy j hj near = absurd (ground arith)

  pub Before-next :
      (busy : Cell A → Bool) (i : ℕ)
      → i < length cells
      → Before busy cells start i
      → busy (at cells i) ≡ true
      → dist (length cells) start (next_index (length cells) i) ≡ dist (length cells) start i + 1
      → Before busy cells start (next_index (length cells) i)
  Before-next busy i hi before here step j hj near =
      elim (ℕ_discrete (dist (length cells) start j) (dist (length cells) start i)) [
        | yes e ↦
            ap (λ (m : ℕ). busy (at cells m)) (dist_inj (length cells) start hs j i hj hi e) ∙ here
        | no e ↦ before j hj (omega arith)
      ]

  -- Once round, every cell has been passed.
  pub all_passed :
      (busy : Cell A → Bool) (i : ℕ)
      → i < length cells
      → Before busy cells start i
      → busy (at cells i) ≡ true
      → dist (length cells) start i + 1 ≡ length cells
      → (j : ℕ) → j < length cells
      → busy (at cells j) ≡ true
  all_passed busy i hi before here last j hj =
      elim (ℕ_discrete (dist (length cells) start j) (dist (length cells) start i)) [
        | yes e ↦
            ap (λ (m : ℕ). busy (at cells m)) (dist_inj (length cells) start hs j i hj hi e) ∙ here
        | no e ↦
            let far : dist (length cells) start j < length cells =
              dist-lt (length cells) start hs j hj in
            before j hj (omega (arith, far))
      ]

  -- The result of a probe that ends.
  pub record Stops (busy : Cell A → Bool) (r : Option ℕ) : Type 0 where
    pub index : ℕ
    pub returns : r ≡ some index
    pub within : index < length cells
    pub stops : busy (at cells index) ≡ false
    pub before : Before busy cells start index

  -- While some cell fails the test, the loop ends, at the first such cell of the sequence.
  pub probe-Stops :
      (busy : Cell A → Bool) (left i k : ℕ)
      → i < length cells
      → length cells ≤ left + dist (length cells) start i
      → Before busy cells start i
      → k < length cells
      → busy (at cells k) ≡ false
      → Stops busy (probe busy left cells i)
  unfolding probe
  probe-Stops busy zero i k hi enough before hk free =
      absurd (omega (arith, dist-lt (length cells) start hs i hi))
  probe-Stops busy (suc left) i k hi enough before hk free = elim (Bool-cases (busy (at cells i))) [
    | inr e ↦ rw e (record { index = i; returns = refl; within = hi; stops = e; before = before })
    | inl e ↦ rw e (elim (dist_next (length cells) start hs i hi).1 [
      | inl (again, last) ↦ absurd (ground (arith, all_passed busy i hi before e last k hk))
      | inr (on, step) ↦
          probe-Stops busy left (next_index (length cells) i) k
            (dist_next (length cells) start hs i hi).0 (omega arith)
            (Before-next busy i hi before e step) hk free
    ])
  ]

  -- The same from the start, with as many rounds as there are cells.
  pub probe-start-Stops :
      (busy : Cell A → Bool) (k : ℕ)
      → k < length cells
      → busy (at cells k) ≡ false
      → Stops busy (probe busy (length cells) cells start)
  probe-start-Stops busy k hk free =
      probe-Stops busy (length cells) start k hs (omega arith) (Before-start busy) hk free
