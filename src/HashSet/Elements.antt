-- ===== src/HashSet/Elements.antt =====
-- The elements of a list of cells in the order of the loop of `foreach`, and a callback over them.
use syrup.Base.{
  ℕ, zero, suc, ◌≤◌, ◌<◌, ◌≡◌, refl, ap, inl, inr, Bool, Option, none, some, List, [], ◌∷◌, arith,
  length, set, drop, ◌==◌, if◌then◌else◌, ◌⊎◌,
}
use syrup.HashSet.{Cell, free, occupied, deleted, is_occupied, at}
use syrup.HashSet.Cells.{tally, find_key}

module _ {A : Type 0} where
  -- The elements of a list of cells, in their order.
  unfoldable pub elements : List (Cell A) → List A
  elements [] = []
  elements (occupied a ∷ cells) = a ∷ elements cells
  elements (free ∷ cells) = elements cells
  elements (deleted o ∷ cells) = elements cells

  -- What a callback is run over: `step` changes the context and tells whether the element goes. The
  -- result is the last context, and the elements that stay.
  unfoldable pub sweep : {C : Type 0} → (A → C → C × Bool) → List A → C → C × List A
  sweep step [] ctx = (ctx, [])
  sweep step (a ∷ rest) ctx =
      let (ctx', gone) = step a ctx in
      let r = sweep step rest ctx' in (r.0, if gone then r.1 else a ∷ r.1)

  pub Cell-cases :
      (c : Cell A)
      → (c ≡ free) ⊎ (((o : Option A) × (c ≡ deleted o)) ⊎ ((a : A) × (c ≡ occupied a)))
  Cell-cases free = inl refl
  Cell-cases (deleted o) = inr (inl (o, refl))
  Cell-cases (occupied a) = inr (inr (a, refl))

  pub drop-at :
      (cells : List (Cell A)) (i : ℕ)
      → i < length cells
      → drop i cells ≡ at cells i ∷ drop (suc i) cells
  drop-at [] i h = absurd (omega arith)
  drop-at (c ∷ cells) zero h = refl
  drop-at (c ∷ cells) (suc i) h = drop-at cells i (omega arith)

  pub drop-set :
      (cells : List (Cell A)) (i : ℕ) (c : Cell A)
      → drop (suc i) (set cells i c) ≡ drop (suc i) cells
  drop-set [] i c = refl
  drop-set (d ∷ cells) zero c = refl
  drop-set (d ∷ cells) (suc i) c = drop-set cells i c

  pub drop_all : (cells : List (Cell A)) (i : ℕ) → length cells ≤ i → drop i cells ≡ []
  drop_all [] zero h = refl
  drop_all [] (suc i) h = refl
  drop_all (c ∷ cells) zero h = absurd (omega arith)
  drop_all (c ∷ cells) (suc i) h = drop_all cells i (omega arith)

module _ {A : Type 0} (key : A → ℕ) where
  -- The first element of a list with a key.
  pub first_with : ℕ → List A → Option A
  first_with k [] = none
  first_with k (a ∷ rest) = if key a == k then some a else first_with k rest

  pub elements-view :
      (cells : List (Cell A))
      → (length (elements cells) ≡ tally is_occupied cells)
        × ((k : ℕ) → first_with k (elements cells) ≡ find_key key k cells)
  unfolding elements tally find_key first_with
  elements-view [] = (refl, λ k. refl)
  elements-view (free ∷ cells) = let ih = elements-view cells in (omega (arith, ih.0), ih.1)
  elements-view (deleted o ∷ cells) = let ih = elements-view cells in (omega (arith, ih.0), ih.1)
  elements-view (occupied a ∷ cells) =
      let ih = elements-view cells in
      (omega (arith, ih.0), λ k. ap (λ o. if key a == k then some a else o) (ih.1 k))
