-- ===== src/HashSet/Cells.antt =====
-- Counting the cells of a table that pass a test, and the element that a table holds for a key.
use syrup.Base.{
  ℕ, zero, suc, ◌+◌, ◌≤◌, ◌<◌, ◌≡◌, refl, ap, Bool, true, false, Option, none, some, List, [], ◌∷◌,
  arith, length, set, replicate, ◌==◌, if◌then◌else◌, inl, inr, Bool-cases,
}
use syrup.HashSet.{Cell, free, occupied, deleted, is_occupied, at}

abbrev pub to_nat : Bool → ℕ
to_nat true = 1
to_nat false = 0

module _ {A : Type 0} where
  unfoldable pub tally : (Cell A → Bool) → List (Cell A) → ℕ
  tally p [] = 0
  tally p (c ∷ cells) = to_nat (p c) + tally p cells

  pub tally-set :
      (p : Cell A → Bool) (cells : List (Cell A)) (i : ℕ) (c : Cell A)
      → i < length cells
      → tally p (set cells i c) + to_nat (p (at cells i)) ≡ tally p cells + to_nat (p c)
  unfolding tally
  tally-set p [] i c h = absurd (omega arith)
  tally-set p (d ∷ cells) zero c h = omega arith
  tally-set p (d ∷ cells) (suc i) c h = omega (arith, tally-set p cells i c (omega arith))

  pub tally-le : (p : Cell A → Bool) (cells : List (Cell A)) → tally p cells ≤ length cells
  unfolding tally
  tally-le p [] = omega arith
  tally-le p (c ∷ cells) = ground (arith, tally-le p cells)

  pub tally-all :
      (p : Cell A → Bool) (cells : List (Cell A))
      → ((i : ℕ) → i < length cells → p (at cells i) ≡ true)
      → tally p cells ≡ length cells
  unfolding tally
  tally-all p [] h = refl
  tally-all p (c ∷ cells) h =
      ground (arith, h 0, tally-all p cells (λ i lt. h (suc i) (omega arith)))

  pub tally-none :
      (p : Cell A → Bool) (cells : List (Cell A))
      → ((i : ℕ) → i < length cells → p (at cells i) ≡ false)
      → tally p cells ≡ 0
  unfolding tally
  tally-none p [] h = refl
  tally-none p (c ∷ cells) h =
      ground (arith, h 0, tally-none p cells (λ i lt. h (suc i) (omega arith)))

  pub tally-replicate :
      (p : Cell A → Bool) (n : ℕ) → p free ≡ false → tally p (replicate n free) ≡ 0
  unfolding tally
  tally-replicate p zero h = refl
  tally-replicate p (suc n) h = ground (arith, tally-replicate p n)

  pub tally-pos :
      (p : Cell A → Bool) (cells : List (Cell A)) (i : ℕ)
      → i < length cells
      → p (at cells i) ≡ true
      → 0 < tally p cells
  unfolding tally
  tally-pos p [] i h e = absurd (omega arith)
  tally-pos p (c ∷ cells) zero h e = ground arith
  tally-pos p (c ∷ cells) (suc i) h e = omega (arith, tally-pos p cells i (omega arith) e)

  -- A test that implies another passes no more often.
  pub tally_mono :
      (p q : Cell A → Bool) (cells : List (Cell A))
      → ((c : Cell A) → p c ≡ true → q c ≡ true)
      → tally p cells ≤ tally q cells
  unfolding tally
  tally_mono p q [] h = omega arith
  tally_mono p q (c ∷ cells) h = ground (arith, h c, tally_mono p q cells)

  module _ (key : A → ℕ) where
    abbrev pub holds_key : ℕ → Cell A → Bool
    holds_key k free = false
    holds_key k (occupied a) = key a == k
    holds_key k (deleted o) = false

    -- The first element with the key: what the table maps the key to.
    unfoldable pub find_key : ℕ → List (Cell A) → Option A
    find_key k [] = none
    find_key k (free ∷ cells) = find_key k cells
    find_key k (occupied a ∷ cells) = if key a == k then some a else find_key k cells
    find_key k (deleted o ∷ cells) = find_key k cells

    pub find_key-eq-none :
        (k : ℕ) (cells : List (Cell A)) → tally (holds_key k) cells ≡ 0 → find_key k cells ≡ none
    unfolding tally find_key
    find_key-eq-none k [] h = refl
    find_key-eq-none k (free ∷ cells) h = find_key-eq-none k cells (omega arith)
    find_key-eq-none k (occupied a ∷ cells) h = ground (arith, find_key-eq-none k cells)
    find_key-eq-none k (deleted o ∷ cells) h = find_key-eq-none k cells (omega arith)

    pub find_key-at :
        (k : ℕ) (cells : List (Cell A)) (i : ℕ) (a : A)
        → i < length cells
        → at cells i ≡ occupied a
        → key a ≡ k
        → tally (holds_key k) cells ≤ 1
        → find_key k cells ≡ some a
    unfolding tally find_key
    find_key-at k [] i a h e same one = absurd (omega arith)
    find_key-at k (c ∷ cells) zero a h e same one = ground arith
    find_key-at k (free ∷ cells) (suc i) a h e same one =
        find_key-at k cells i a (omega arith) e same (omega arith)
    find_key-at k (deleted o ∷ cells) (suc i) a h e same one =
        find_key-at k cells i a (omega arith) e same (omega arith)
    find_key-at k (occupied b ∷ cells) (suc i) a h e same one =
        ground (arith, find_key-at k cells i a, tally-pos (holds_key k) cells i)

    -- Two cells that hold a key that is there once are the same.
    pub one_place :
        (k : ℕ) (cells : List (Cell A)) (i j : ℕ) (a b : A)
        → i < length cells
        → j < length cells
        → at cells i ≡ occupied a
        → at cells j ≡ occupied b
        → key a ≡ k
        → key b ≡ k
        → tally (holds_key k) cells ≤ 1
        → i ≡ j
    unfolding tally
    one_place k [] i j a b hi hj e f same same' one = absurd (omega arith)
    one_place k (c ∷ cells) zero zero a b hi hj e f same same' one = refl
    one_place k (c ∷ cells) zero (suc j) a b hi hj e f same same' one =
        ground (arith, tally-pos (holds_key k) cells j (omega arith), ap (holds_key k) f)
    one_place k (c ∷ cells) (suc i) zero a b hi hj e f same same' one =
        ground (arith, tally-pos (holds_key k) cells i (omega arith), ap (holds_key k) e)
    one_place k (c ∷ cells) (suc i) (suc j) a b hi hj e f same same' one =
        ap suc (one_place k cells i j a b (omega arith) (omega arith) e f same same' (omega arith))

    -- Writing an element whose key is new.
    pub find_key-set_occupied :
        (k : ℕ) (cells : List (Cell A)) (i : ℕ) (a : A)
        → i < length cells
        → is_occupied (at cells i) ≡ false
        → tally (holds_key (key a)) cells ≡ 0
        → find_key k (set cells i (occupied a)) ≡ (if key a == k then some a else find_key k cells)
    unfolding tally find_key
    find_key-set_occupied k [] i a h e new = absurd (omega arith)
    find_key-set_occupied k (free ∷ cells) zero a h e new = refl
    find_key-set_occupied k (deleted o ∷ cells) zero a h e new = refl
    find_key-set_occupied k (occupied b ∷ cells) zero a h e new = cc
    find_key-set_occupied k (free ∷ cells) (suc i) a h e new =
        find_key-set_occupied k cells i a (omega arith) e (omega arith)
    find_key-set_occupied k (deleted o ∷ cells) (suc i) a h e new =
        find_key-set_occupied k cells i a (omega arith) e (omega arith)
    find_key-set_occupied k (occupied b ∷ cells) (suc i) a h e new =
        ground (arith, find_key-set_occupied k cells i a)

    -- Deleting the element under a key.
    pub find_key-set_deleted :
        (k : ℕ) (cells : List (Cell A)) (i : ℕ) (a : A) (o : Option A)
        → i < length cells
        → at cells i ≡ occupied a
        → tally (holds_key (key a)) cells ≤ 1
        → find_key k (set cells i (deleted o)) ≡ (if key a == k then none else find_key k cells)
    unfolding tally find_key
    find_key-set_deleted k [] i a o h e one = absurd (omega arith)
    find_key-set_deleted k (c ∷ cells) zero a o h e one = ground (arith, find_key-eq-none k cells)
    find_key-set_deleted k (free ∷ cells) (suc i) a o h e one =
        find_key-set_deleted k cells i a o (omega arith) e (omega arith)
    find_key-set_deleted k (deleted d ∷ cells) (suc i) a o h e one =
        find_key-set_deleted k cells i a o (omega arith) e (omega arith)
    find_key-set_deleted k (occupied b ∷ cells) (suc i) a o h e one =
        ground (arith, find_key-set_deleted k cells i a o, tally-pos (holds_key (key a)) cells i)

module _ {A : Type 0} where
  -- Where fewer cells pass a test than there are, some cell fails it.
  pub fails_somewhere :
      (p : Cell A → Bool) (cells : List (Cell A))
      → tally p cells < length cells
      → (k : ℕ) × (k < length cells) × (p (at cells k) ≡ false)
  unfolding tally
  fails_somewhere p [] h = absurd (omega arith)
  fails_somewhere p (c ∷ cells) h = elim (Bool-cases (p c)) [
    | inr e ↦ (0, omega arith, e)
    | inl e ↦
        let (k, lt, fails) = fails_somewhere p cells (ground arith) in
        (suc k, omega (arith, lt), fails)
  ]

  pub find_key-some :
      (key : A → ℕ) (k : ℕ) (cells : List (Cell A)) (a : A)
      → find_key key k cells ≡ some a
      → (i : ℕ) × (i < length cells) × (at cells i ≡ occupied a) × (key a ≡ k)
  unfolding find_key
  find_key-some key k [] a h = cc
  find_key-some key k (free ∷ cells) a h =
      let (i, lt, here, same) = find_key-some key k cells a h in
      (suc i, omega (arith, lt), here, same)
  find_key-some key k (deleted o ∷ cells) a h =
      let (i, lt, here, same) = find_key-some key k cells a h in
      (suc i, omega (arith, lt), here, same)
  find_key-some key k (occupied b ∷ cells) a h = elim (Bool-cases (key b == k)) [
    | inl e ↦ (0, omega arith, ground arith, ground arith)
    | inr e ↦
        let (i, lt, here, same) = find_key-some key k cells a (ground arith) in
        (suc i, omega (arith, lt), here, same)
  ]
