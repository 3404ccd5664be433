-- ===== src/Account/Entry.antt =====
-- The node of a login, in front of the list.
use syrup.Base.{ℕ, ◌≡◌, refl, sym, false, ◌==◌, if◌then◌else◌, none, some, List, [], ◌∷◌, arith}
use mathlib.Core.Path.{subst}
use syrup.Account.{AccountNode, Accounts, set_prev}
use syrup.Account.Chain.{Links, Links-frame, All, Absent, Distinct}
use syrup.Account.Methods.{Stands, Unique, SameAccounts, logged_in}

-- The memory behind a login.
abbrev pub with_node : (new id : ℕ) → Accounts → ℕ → AccountNode
with_node new id s b =
    if new == b then record { prev = none; next = s.head; id = id; cid = 0 } else s.memory b

abbrev pub entered : (new id : ℕ) → Accounts → Accounts
entered new id s =
    let linked : ℕ → AccountNode = elim s.head [
      | none ↦ with_node new id s
      | some h ↦ set_prev h (some new) (with_node new id s)
    ] in
    record { memory = linked; head = some new }

entered_kept :
    (new id : ℕ) (s : Accounts) (b : ℕ)
    → (new == b) ≡ false
    → (((entered new id s).memory b).next ≡ (s.memory b).next)
      × (((entered new id s).memory b).id ≡ (s.memory b).id)
      × (((entered new id s).memory b).cid ≡ (s.memory b).cid)
entered_kept new id s b apart = ground arith

pub entered_node :
    (new id : ℕ) (s : Accounts)
    → (((entered new id s).memory new).id ≡ id)
      × (((entered new id s).memory new).cid ≡ 0)
      × (((entered new id s).memory new).next ≡ s.head)
entered_node new id s = ground arith

-- Everything of the list but the pointer back from its first node.
entered_frame :
    (new id h : ℕ) (s : Accounts) (xs : List ℕ)
    → s.head ≡ some h
    → Absent h xs
    → Absent new xs
    → All
        (λ a.
          ((entered new id s).memory a).prev ≡ (s.memory a).prev
          × ((entered new id s).memory a).next ≡ (s.memory a).next)
        xs
entered_frame new id h s [] e away absent = tt
entered_frame new id h s (a ∷ xs) e away absent =
    ((ground arith, ground arith), entered_frame new id h s xs e away.1 absent.1)

entered_rest :
    (new id : ℕ) (s : Accounts) (xs : List ℕ)
    → Links s.memory s.head none xs
    → Distinct xs
    → Absent new xs
    → Links (entered new id s).memory s.head (some new) xs
entered_rest new id s [] links distinct absent = links
entered_rest new id s (h ∷ ws) links distinct absent = (
  links.0,
  ground arith,
  subst (λ n. Links (entered new id s).memory n (some h) ws)
      (sym (entered_kept new id s h absent.0).0)
      (Links-frame s.memory (entered new id s).memory (s.memory h).next (some h) ws
        (entered_frame new id h s ws links.0 distinct.0 absent.1) links.2),
)

entered_first :
    (new id : ℕ) (s : Accounts) (xs : List ℕ)
    → Links s.memory s.head none xs
    → Absent new xs
    → ((entered new id s).memory new).prev ≡ none
entered_first new id s [] links absent = ground arith
entered_first new id s (h ∷ ws) links absent = ground arith

not_logged_in :
    (m : ℕ → AccountNode) (id : ℕ) (xs : List ℕ)
    → logged_in m id xs ≡ false
    → All (λ b. (id == (m b).id) ≡ false) xs
not_logged_in m id [] h = tt
not_logged_in m id (a ∷ xs) h = (ground arith, not_logged_in m id xs (ground arith))

entered_ids :
    (new id k : ℕ) (s : Accounts) (xs : List ℕ)
    → Absent new xs
    → All (λ b. (k == (s.memory b).id) ≡ false) xs
    → All (λ b. (k == ((entered new id s).memory b).id) ≡ false) xs
entered_ids new id k s [] absent h = tt
entered_ids new id k s (a ∷ xs) absent h = (
  subst (λ n. (k == n) ≡ false) (sym (entered_kept new id s a absent.0).1) h.0,
  entered_ids new id k s xs absent.1 h.1,
)

entered-Unique :
    (new id : ℕ) (s : Accounts) (xs : List ℕ)
    → Absent new xs
    → Unique s.memory xs
    → Unique (entered new id s).memory xs
entered-Unique new id s [] absent h = tt
entered-Unique new id s (a ∷ xs) absent h = (
  subst (λ n. All (λ b. (n == ((entered new id s).memory b).id) ≡ false) xs)
      (sym (entered_kept new id s a absent.0).1)
      (entered_ids new id (s.memory a).id s xs absent.1 h.0),
  entered-Unique new id s xs absent.1 h.1,
)

pub entered_accounts :
    (new id : ℕ) (s : Accounts) (xs : List ℕ) → Absent new xs → SameAccounts s (entered new id s) xs
entered_accounts new id s [] absent = tt
entered_accounts new id s (a ∷ xs) absent =
    let (n, i, c) = entered_kept new id s a absent.0 in
    ((i, c), entered_accounts new id s xs absent.1)

pub entered-Stands :
    (new id : ℕ) (s : Accounts) (xs : List ℕ)
    → Stands s xs
    → Absent new xs
    → logged_in s.memory id xs ≡ false
    → Stands (entered new id s) (new ∷ xs)
entered-Stands new id s xs v absent out = record {
  links = (
    refl,
    entered_first new id s xs v.links absent,
    subst (λ n. Links (entered new id s).memory n (some new) xs) (sym (entered_node new id s).2)
        (entered_rest new id s xs v.links v.distinct absent),
  );
  distinct = (absent, v.distinct);
  unique = (
    subst (λ n. All (λ b. (n == ((entered new id s).memory b).id) ≡ false) xs)
        (sym (entered_node new id s).0)
        (entered_ids new id id s xs absent (not_logged_in s.memory id xs out)),
    entered-Unique new id s xs absent v.unique,
  );
}
