-- ===== src/Account/Methods.antt =====
-- The operations on the accounts that are logged in, on the list of nodes that they stand for.
use syrup.Base.{
  ℕ, zero, suc, ◌<◌, ◌≡◌, refl, sym, ap, ◌∙◌, inl, inr, Bool, true, false, ◌==◌, if◌then◌else◌,
  Option, none, some, List, [], ◌∷◌, arith, length, Bool-cases, ==_iff,
}
use mathlib.Core.Path.{subst}
use syrup.Account.{AccountNode, Accounts, unlink, has_id, find_cid}
use syrup.Account.Chain.{
  Links, All, Distinct, remove, member, skip, unlinked, unlinked-Links, Outside,
}

-- No account is there twice.
abbrev pub Unique : (ℕ → AccountNode) → List ℕ → Type 0
Unique m [] = Unit {0}
Unique m (a ∷ rest) = All (λ b. ((m a).id == (m b).id) ≡ false) rest × Unique m rest

-- The list is linked through these addresses.
pub record Stands (s : Accounts) (xs : List ℕ) : Type 0 where
  pub links : Links s.memory s.head none xs
  pub distinct : Distinct xs
  pub unique : Unique s.memory xs

-- An account of the list has the id; the first of a character.
abbrev pub logged_in : (ℕ → AccountNode) → ℕ → List ℕ → Bool
logged_in m id [] = false
logged_in m id (a ∷ rest) = if (m a).id == id then true else logged_in m id rest

abbrev pub with_cid : (ℕ → AccountNode) → ℕ → List ℕ → Option ℕ
with_cid m cid [] = none
with_cid m cid (a ∷ rest) = if (m a).cid == cid then some a else with_cid m cid rest

-- The accounts and characters of nodes.
abbrev pub SameAccounts : Accounts → Accounts → List ℕ → Type 0
SameAccounts s s' xs =
    All (λ a. ((s'.memory a).id ≡ (s.memory a).id) × ((s'.memory a).cid ≡ (s.memory a).cid)) xs

pub has_id-logged_in :
    (rounds : ℕ) (m : ℕ → AccountNode) (id : ℕ) (first prev : Option ℕ) (xs : List ℕ)
    → Links m first prev xs
    → length xs < rounds
    → has_id rounds m id first ≡ some (logged_in m id xs)
unfolding has_id
has_id-logged_in zero m id first prev xs links enough = absurd (omega arith)
has_id-logged_in (suc rounds) m id first prev [] links enough = rw links refl
has_id-logged_in (suc rounds) m id first prev (a ∷ rest) links enough =
    rw links.0 (elim (Bool-cases ((m a).id == id)) [
      | inl here ↦ rw (has_id, here) refl
      | inr there ↦
          rw (has_id, there)
            (has_id-logged_in rounds m id (m a).next (some a) rest links.2 (omega arith))
    ])

pub find_cid-with_cid :
    (rounds : ℕ) (m : ℕ → AccountNode) (cid : ℕ) (first prev : Option ℕ) (xs : List ℕ)
    → Links m first prev xs
    → length xs < rounds
    → find_cid rounds m cid first ≡ some (with_cid m cid xs)
unfolding find_cid
find_cid-with_cid zero m cid first prev xs links enough = absurd (omega arith)
find_cid-with_cid (suc rounds) m cid first prev [] links enough = rw links refl
find_cid-with_cid (suc rounds) m cid first prev (a ∷ rest) links enough =
    rw links.0 (elim (Bool-cases ((m a).cid == cid)) [
      | inl here ↦ rw (find_cid, here) refl
      | inr there ↦
          rw (find_cid, there)
            (find_cid-with_cid rounds m cid (m a).next (some a) rest links.2 (omega arith))
    ])

unlink_memory : (a : ℕ) (s : Accounts) (b : ℕ) → (unlink a s).memory b ≡ unlinked a s.memory b
unfolding unlink
unlink_memory a s b = ground arith

unlink_first :
    (a : ℕ) (s : Accounts) → (s.memory a).prev ≡ none → (unlink a s).head ≡ (s.memory a).next
unfolding unlink
unlink_first a s e = ground arith

unlink_later : (a p : ℕ) (s : Accounts) → (s.memory a).prev ≡ some p → (unlink a s).head ≡ s.head
unfolding unlink
unlink_later a p s e = ground arith

-- A node behind the first has one before it.
has_prev :
    (m : ℕ → AccountNode) (first : Option ℕ) (c : ℕ) (xs : List ℕ) (a : ℕ)
    → Links m first (some c) xs
    → member a xs ≡ true
    → (p : ℕ) × ((m a).prev ≡ some p)
has_prev m first c [] a links mem = cc
has_prev m first c (b ∷ rest) a links mem = elim (Bool-cases (a == b)) [
  | inl here ↦ (c, ap (λ d. (m d).prev) ((==_iff a b).0 here) ∙ links.1)
  | inr there ↦ has_prev m (m b).next b rest a links.2 (rw there at mem)
]

unlink_head :
    (a : ℕ) (s : Accounts) (xs : List ℕ)
    → Links s.memory s.head none xs
    → member a xs ≡ true
    → (unlink a s).head ≡ skip a s.memory s.head xs
unlink_head a s [] links mem = cc
unlink_head a s (b ∷ rest) links mem = elim (Bool-cases (a == b)) [
  | inl here ↦
      rw here (unlink_first a s (ap (λ d. (s.memory d).prev) ((==_iff a b).0 here) ∙ links.1))
  | inr there ↦
      let (p, e) = has_prev s.memory (s.memory b).next b rest a links.2 (rw there at mem) in
      rw there (unlink_later a p s e)
]

-- Sublists of distinct and of unique lists.
All-remove : (P : ℕ → Type 0) (a : ℕ) (xs : List ℕ) → All P xs → All P (remove a xs)
All-remove P a [] h = tt
All-remove P a (b ∷ xs) h = elim (Bool-cases (a == b)) [
  | inl here ↦ rw here h.1
  | inr there ↦ rw there (h.0, All-remove P a xs h.1)
]

Distinct-remove : (a : ℕ) (xs : List ℕ) → Distinct xs → Distinct (remove a xs)
Distinct-remove a [] h = tt
Distinct-remove a (b ∷ xs) h = elim (Bool-cases (a == b)) [
  | inl here ↦ rw here h.1
  | inr there ↦ rw there (All-remove _ a xs h.0, Distinct-remove a xs h.1)
]

Unique-remove : (m : ℕ → AccountNode) (a : ℕ) (xs : List ℕ) → Unique m xs → Unique m (remove a xs)
Unique-remove m a [] h = tt
Unique-remove m a (b ∷ xs) h = elim (Bool-cases (a == b)) [
  | inl here ↦ rw here h.1
  | inr there ↦ rw there (All-remove _ a xs h.0, Unique-remove m a xs h.1)
]

All-same :
    (f g : ℕ → ℕ) (k : ℕ) (xs : List ℕ)
    → ((a : ℕ) → f a ≡ g a)
    → All (λ b. (k == f b) ≡ false) xs
    → All (λ b. (k == g b) ≡ false) xs
All-same f g k [] e h = tt
All-same f g k (a ∷ xs) e h = (subst (λ n. (k == n) ≡ false) (e a) h.0, All-same f g k xs e h.1)

pub Unique-same :
    (m m' : ℕ → AccountNode) (xs : List ℕ)
    → ((a : ℕ) → (m a).id ≡ (m' a).id)
    → Unique m xs
    → Unique m' xs
Unique-same m m' [] e h = tt
Unique-same m m' (a ∷ xs) e h = (
  subst (λ n. All (λ b. (n == (m' b).id) ≡ false) xs) (e a)
      (All-same (λ b. (m b).id) (λ b. (m' b).id) (m a).id xs e h.0),
  Unique-same m m' xs e h.1,
)

Links-same :
    (m m' : ℕ → AccountNode) (first prev : Option ℕ) (xs : List ℕ)
    → ((a : ℕ) → m' a ≡ m a)
    → Links m first prev xs
    → Links m' first prev xs
Links-same m m' first prev [] e h = h
Links-same m m' first prev (a ∷ xs) e h = (
  h.0,
  ap (λ n. n.prev) (e a) ∙ h.1,
  subst (λ n. Links m' n (some a) xs) (ap (λ (n : AccountNode). n.next) (sym (e a)))
      (Links-same m m' (m a).next (some a) xs e h.2),
)

pub unlink_accounts :
    (a : ℕ) (s : Accounts) (b : ℕ)
    → (((unlink a s).memory b).id ≡ (s.memory b).id)
      × (((unlink a s).memory b).cid ≡ (s.memory b).cid)
unlink_accounts a s b =
    (ap (λ n. n.id) (unlink_memory a s b), ap (λ n. n.cid) (unlink_memory a s b))

pub Outside-none : (xs : List ℕ) → Outside none xs
Outside-none [] = tt
Outside-none (a ∷ xs) = (refl, Outside-none xs)

pub unlink-Stands :
    (a : ℕ) (s : Accounts) (xs : List ℕ)
    → Stands s xs
    → member a xs ≡ true
    → Stands (unlink a s) (remove a xs)
unlink-Stands a s xs v mem = record {
  links =
      Links-same (unlinked a s.memory) (unlink a s).memory (unlink a s).head none (remove a xs)
        (unlink_memory a s)
        (subst (λ h. Links (unlinked a s.memory) h none (remove a xs))
          (sym (unlink_head a s xs v.links mem))
          (unlinked-Links s.memory a s.head none xs v.distinct (Outside-none xs) mem v.links));
  distinct = Distinct-remove a xs v.distinct;
  unique =
      Unique-remove (unlink a s).memory a xs
        (Unique-same s.memory (unlink a s).memory xs (λ b. sym (unlink_accounts a s b).0) v.unique);
}
