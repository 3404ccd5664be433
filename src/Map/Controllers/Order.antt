-- ===== src/Map/Controllers/Order.antt =====
-- The order of a binary heap on the weights at the indices below `n`, and what one exchange of a
-- parent and a child does to it.
use syrup.Base.{
  ℕ, ◌-◌, ◌/◌, ◌≤◌, ◌<◌, ◌≡◌, true, false, ◌==◌, ltb, if◌then◌else◌, arith, inl, inr, Bool-cases,
}

abbrev pub parent : ℕ → ℕ
parent i = (i - 1) / 2

abbrev pub exchange : (ℕ → ℕ) → ℕ → ℕ → ℕ → ℕ
exchange f i j k = if k == i then f j else if k == j then f i else f k

module _ (n : ℕ) where
  -- No node is lighter than its parent.
  abbrev pub Ordered : (ℕ → ℕ) → Type 0
  Ordered f = (j : ℕ) → 0 < j → j < n → f (parent j) ≤ f j

  -- The children of `i` are no lighter than the parent of `i`.
  abbrev pub Skips : (ℕ → ℕ) → ℕ → Type 0
  Skips f i = (j : ℕ) → 0 < j → j < n → parent j ≡ i → 0 < i → f (parent i) ≤ f j

  -- Only the node `i` may be lighter than its parent.
  pub record Up (f : ℕ → ℕ) (i : ℕ) : Type 0 where
    pub edges : (j : ℕ) → 0 < j → j < n → (j == i) ≡ false → f (parent j) ≤ f j
    pub skips : Skips f i

  -- Only children of the node `i` may be lighter than it.
  pub record Down (f : ℕ → ℕ) (i : ℕ) : Type 0 where
    pub edges : (j : ℕ) → 0 < j → j < n → (parent j == i) ≡ false → f (parent j) ≤ f j
    pub skips : Skips f i

  pub Up-step :
      (f : ℕ → ℕ) (i : ℕ)
      → Up f i
      → 0 < i
      → i < n
      → f i < f (parent i)
      → Up (exchange f (parent i) i) (parent i)
  Up-step f i u pos within light = record {
    edges = λ j hj lt other. ground (arith, u.edges j hj lt, u.skips j hj lt);
    skips = λ j hj lt child inner.
        ground (arith, u.edges j hj lt, u.edges (parent i) inner (omega arith));
  }

  pub Up-done :
      (f : ℕ → ℕ) (i : ℕ) → Up f i → ltb 0 i ≡ true → ltb (f i) (f (parent i)) ≡ false → Ordered f
  Up-done f i u pos heavy j hj lt = elim (Bool-cases (j == i)) [
    | inl here ↦ ground arith
    | inr there ↦ u.edges j hj lt there
  ]

  pub Up-root : (f : ℕ → ℕ) (i : ℕ) → Up f i → ltb 0 i ≡ false → Ordered f
  Up-root f i u root j hj lt = u.edges j hj lt (ground arith)

  pub Down-step :
      (f : ℕ → ℕ) (i c : ℕ)
      → Down f i
      → 0 < c
      → c < n
      → parent c ≡ i
      → f c < f i
      → ((d : ℕ) → 0 < d → d < n → parent d ≡ i → f c ≤ f d)
      → Down (exchange f i c) c
  Down-step f i c u pos within child light least = record {
    edges = λ j hj lt other.
        ground (arith, u.edges j hj lt, u.skips j hj lt, least j hj lt, u.skips c pos within);
    skips = λ j hj lt grandchild inner. ground (arith, u.edges j hj lt);
  }

  pub Down-done :
      (f : ℕ → ℕ) (i : ℕ)
      → Down f i
      → ((d : ℕ) → 0 < d → d < n → parent d ≡ i → f i ≤ f d)
      → Ordered f
  Down-done f i u least j hj lt = elim (Bool-cases (parent j == i)) [
    | inl here ↦ ground (arith, least j hj lt)
    | inr there ↦ u.edges j hj lt there
  ]
