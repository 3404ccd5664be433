-- ===== src/Account/Chain.antt =====
-- The linked list as a list of addresses, and what taking a node out of it does.
use syrup.Base.{
  ℕ, ◌≡◌, refl, sym, ap, ◌∙◌, inl, inr, Bool, true, false, ◌==◌, if◌then◌else◌, Option, none, some,
  List, [], ◌∷◌, arith, Bool-cases, ==_iff,
}
use mathlib.Core.Path.{subst}
use syrup.Account.{AccountNode}

-- The pointer leads through the addresses, each node knowing the one before it.
abbrev pub Links : (ℕ → AccountNode) → (first prev : Option ℕ) → List ℕ → Type 0
Links memory first prev [] = first ≡ none
Links memory first prev (a ∷ rest) =
    (first ≡ some a) × ((memory a).prev ≡ prev) × Links memory (memory a).next (some a) rest

abbrev pub All : (ℕ → Type 0) → List ℕ → Type 0
All P [] = Unit {0}
All P (a ∷ rest) = P a × All P rest

-- An address is not among those of a list, and none is there twice.
abbrev pub Absent : ℕ → List ℕ → Type 0
Absent a = All (λ b. (a == b) ≡ false)

abbrev pub Distinct : List ℕ → Type 0
Distinct [] = Unit {0}
Distinct (a ∷ rest) = Absent a rest × Distinct rest

abbrev pub remove : ℕ → List ℕ → List ℕ
remove a [] = []
remove a (b ∷ rest) = if a == b then rest else b ∷ remove a rest

abbrev pub member : ℕ → List ℕ → Bool
member a [] = false
member a (b ∷ rest) = if a == b then true else member a rest

-- What a list of links reads is all that it needs.
pub Links-frame :
    (m m' : ℕ → AccountNode) (first prev : Option ℕ) (xs : List ℕ)
    → All (λ a. (m' a).prev ≡ (m a).prev × (m' a).next ≡ (m a).next) xs
    → Links m first prev xs
    → Links m' first prev xs
Links-frame m m' first prev [] same h = h
Links-frame m m' first prev (a ∷ xs) same h = (
  h.0,
  same.0.0 ∙ h.1,
  subst (λ n. Links m' n (some a) xs) (sym same.0.1)
      (Links-frame m m' (m a).next (some a) xs same.1 h.2),
)

Links-head :
    (m : ℕ → AccountNode) (first first' prev : Option ℕ) (xs : List ℕ)
    → first ≡ first'
    → Links m first prev xs
    → Links m first' prev xs
Links-head m first first' prev xs e h = subst (λ p. Links m p prev xs) e h

-- The memory after a node was taken out.
abbrev pub points : Option ℕ → ℕ → Bool
points none b = false
points (some a) b = a == b

abbrev pub unlinked : ℕ → (ℕ → AccountNode) → ℕ → AccountNode
unlinked a m b = record (m b) {
  prev = if points (m a).next b then (m a).prev else (m b).prev;
  next = if points (m a).prev b then (m a).next else (m b).next;
}

-- Where the pointer to the first node leads then.
abbrev pub skip : ℕ → (ℕ → AccountNode) → Option ℕ → List ℕ → Option ℕ
skip a m first [] = first
skip a m first (b ∷ rest) = if a == b then (m a).next else first

-- The node behind a node of the list is in the list.
next_inside :
    (m : ℕ → AccountNode) (first prev : Option ℕ) (xs : List ℕ) (a b : ℕ)
    → Links m first prev xs
    → member a xs ≡ true
    → Absent b xs
    → points (m a).next b ≡ false
next_inside m first prev [] a b links mem absent = cc
next_inside m first prev (c ∷ []) a b links mem absent = ground arith
next_inside m first prev (c ∷ (d ∷ ws)) a b links mem absent = elim (Bool-cases (a == c)) [
  | inl here ↦ ground arith
  | inr there ↦ next_inside m (m c).next (some c) (d ∷ ws) a b links.2 (rw there at mem) absent.1
]

-- The node before a node of the list that is not the first is in the list.
prev_inside :
    (m : ℕ → AccountNode) (first prev : Option ℕ) (c : ℕ) (ws : List ℕ) (a b : ℕ)
    → Links m first prev (c ∷ ws)
    → member a ws ≡ true
    → Absent b (c ∷ ws)
    → points (m a).prev b ≡ false
prev_inside m first prev c [] a b links mem absent = cc
prev_inside m first prev c (d ∷ ws) a b links mem absent = elim (Bool-cases (a == d)) [
  | inl here ↦ ground arith
  | inr there ↦ prev_inside m (m c).next (some c) d ws a b links.2 (rw there at mem) absent.1
]

-- The pointer before the list does not lead into it.
abbrev pub Outside : Option ℕ → List ℕ → Type 0
Outside prev = All (λ b. points prev b ≡ false)

-- Nodes that the node to be taken out does not point to stay as they were.
undisturbed :
    (m : ℕ → AccountNode) (a : ℕ) (xs : List ℕ)
    → Outside (m a).next xs
    → Outside (m a).prev xs
    → All (λ b. (unlinked a m b).prev ≡ (m b).prev × (unlinked a m b).next ≡ (m b).next) xs
undisturbed m a [] n p = tt
undisturbed m a (b ∷ xs) n p = ((rw n.0 refl, rw p.0 refl), undisturbed m a xs n.1 p.1)

first_Links :
    (m : ℕ → AccountNode) (a : ℕ) (prev : Option ℕ) (rest : List ℕ)
    → (m a).prev ≡ prev
    → Outside prev rest
    → Distinct rest
    → Links m (m a).next (some a) rest
    → Links (unlinked a m) (m a).next prev rest
first_Links m a prev [] before outside distinct links = links
first_Links m a prev (c ∷ ws) before outside distinct links = (
  links.0,
  rw (links.0, before) (ground arith),
  subst (λ n. Links (unlinked a m) n (some c) ws) (rw (before, outside.0) refl)
      (Links-frame m (unlinked a m) (m c).next (some c) ws
        (undisturbed m a ws (subst (λ p. Outside p ws) (sym links.0) distinct.0)
          (subst (λ p. Outside p ws) (sym before) outside.1))
        links.2),
)

-- Taking a node out leaves the rest linked, in their order.
pub unlinked-Links :
    (m : ℕ → AccountNode) (a : ℕ) (first prev : Option ℕ) (xs : List ℕ)
    → Distinct xs
    → Outside prev xs
    → member a xs ≡ true
    → Links m first prev xs
    → Links (unlinked a m) (skip a m first xs) prev (remove a xs)
unlinked-Links m a first prev [] distinct outside mem links = cc
unlinked-Links m a first prev (b ∷ rest) distinct outside mem links = elim (Bool-cases (a == b)) [
  | inl here ↦
      let same : a ≡ b = (==_iff a b).0 here in
      rw here (
        first_Links m a prev rest (ap (λ c. (m c).prev) same ∙ links.1) outside.1 distinct.1
          (subst (λ c. Links m (m c).next (some c) rest) (sym same) links.2))
  | inr there ↦
      let inner : member a rest ≡ true = rw there at mem in
      let ih = unlinked-Links m a (m b).next (some b) rest distinct.1 distinct.0 inner links.2 in
      rw there (
        links.0,
        rw (next_inside m (m b).next (some b) rest a b links.2 inner distinct.0) links.1,
        subst (λ n. Links (unlinked a m) n (some b) (remove a rest))
            (skipped rest distinct.0 inner links.2) ih,
      )
]
  where
    skipped :
        (rest : List ℕ)
        → Absent b rest
        → member a rest ≡ true
        → Links m (m b).next (some b) rest
        → skip a m (m b).next rest ≡ (unlinked a m b).next
    skipped [] absent inner links = cc
    skipped (c ∷ ws) absent inner links = elim (Bool-cases (a == c)) [
      | inl next_one ↦ ground arith
      | inr later ↦
          rw (later, prev_inside m (m b).next (some b) c ws a b links (rw later at inner) absent)
            refl
    ]
