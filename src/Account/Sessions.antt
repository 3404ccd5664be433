-- ===== src/Account/Sessions.antt =====
-- Logging in and out, as changes of the list of nodes.
use syrup.Base.{
  ℕ, ◌<◌, ◌≡◌, refl, inl, inr, true, false, Option, none, some, List, [], ◌∷◌, arith, length,
  Bool-cases, Option-cases,
}
use syrup.Account.{
  AccountNode, Accounts, unlink, account_login, account_logout, account_logout_by_cid,
}
use syrup.Account.Chain.{Absent, remove, member}
use syrup.Account.Methods.{
  Stands, SameAccounts, logged_in, with_cid, has_id-logged_in, find_cid-with_cid, unlink-Stands,
  unlink_accounts,
}
use syrup.Account.Entry.{entered, entered_node, entered_accounts, entered-Stands}

-- A login is refused, for want of memory or since the account is logged in, or its node is the first
-- of the list.
pub data LoggedIn (fresh : Option ℕ) (id : ℕ) (s : Accounts) (xs : List ℕ)
    (r : Option (Option ℕ × Accounts)) : Type 0 where
  no_memory : fresh ≡ none → r ≡ some (none, s) → LoggedIn fresh id s xs r
  refused : logged_in s.memory id xs ≡ true → r ≡ some (none, s) → LoggedIn fresh id s xs r
  opened :
      (new : ℕ) (s' : Accounts)
      → fresh ≡ some new
      → logged_in s.memory id xs ≡ false
      → r ≡ some (some new, s')
      → Stands s' (new ∷ xs)
      → ((s'.memory new).id ≡ id) × ((s'.memory new).cid ≡ 0)
      → SameAccounts s s' xs
      → LoggedIn fresh id s xs r

-- A login ends. It is refused, and changes nothing, if there is no memory or the account is logged in;
-- otherwise the account is put in front of the list, which stays linked both ways and without an
-- account twice, and no other account changes.
pub account_login-LoggedIn :
    (rounds : ℕ) (fresh : Option ℕ) (id : ℕ) (s : Accounts) (xs : List ℕ)
    → Stands s xs
    → ((new : ℕ) → fresh ≡ some new → Absent new xs)
    → length xs < rounds
    → LoggedIn fresh id s xs (account_login rounds fresh id s)
unfolding account_login
account_login-LoggedIn rounds none id s xs v absent enough = no_memory refl refl
account_login-LoggedIn rounds (some new) id s xs v absent enough =
    let e = has_id-logged_in rounds s.memory id s.head none xs v.links enough in
    elim (Bool-cases (logged_in s.memory id xs)) [
      | inl taken ↦ refused taken (rw (account_login, e, taken) refl)
      | inr out ↦
          opened new (entered new id s) refl out (rw (account_login, e, out) refl)
            (entered-Stands new id s xs v (absent new refl) out)
            ((entered_node new id s).0, (entered_node new id s).1)
            (entered_accounts new id s xs (absent new refl))
    ]

-- Logging out a node of the list takes it out of the list, which stays linked both ways with the others
-- in their order, and changes no account or character.
pub account_logout-Stands :
    (a : ℕ) (s : Accounts) (xs : List ℕ)
    → Stands s xs
    → member a xs ≡ true
    → Stands (account_logout a s) (remove a xs)
      × ((b : ℕ)
          → (((account_logout a s).memory b).id ≡ (s.memory b).id)
            × (((account_logout a s).memory b).cid ≡ (s.memory b).cid))
unfolding account_logout
account_logout-Stands a s xs v mem = (unlink-Stands a s xs v mem, unlink_accounts a s)

with_cid-member :
    (m : ℕ → AccountNode) (cid : ℕ) (xs : List ℕ) (a : ℕ)
    → with_cid m cid xs ≡ some a
    → member a xs ≡ true
with_cid-member m cid [] a h = cc
with_cid-member m cid (b ∷ xs) a h = ground (arith, with_cid-member m cid xs a)

-- What logging a character out leaves.
pub data LoggedOut (cid : ℕ) (s : Accounts) (xs : List ℕ) (r : Option Accounts) : Type 0 where
  away : with_cid s.memory cid xs ≡ none → r ≡ some s → LoggedOut cid s xs r
  left :
      (a : ℕ) (s' : Accounts)
      → with_cid s.memory cid xs ≡ some a
      → r ≡ some s'
      → Stands s' (remove a xs)
      → ((b : ℕ) → ((s'.memory b).id ≡ (s.memory b).id) × ((s'.memory b).cid ≡ (s.memory b).cid))
      → LoggedOut cid s xs r

-- Logging a character out ends: the first node of the list with the character is taken out, and if there
-- is none nothing changes.
pub account_logout_by_cid-LoggedOut :
    (rounds cid : ℕ) (s : Accounts) (xs : List ℕ)
    → Stands s xs
    → length xs < rounds
    → LoggedOut cid s xs (account_logout_by_cid rounds cid s)
unfolding account_logout_by_cid
account_logout_by_cid-LoggedOut rounds cid s xs v enough =
    let e = find_cid-with_cid rounds s.memory cid s.head none xs v.links enough in
    elim (Option-cases (with_cid s.memory cid xs)) [
      | inl none_there ↦ away none_there (rw (account_logout_by_cid, e, none_there) refl)
      | inr (a, there) ↦
          left a (unlink a s) there (rw (account_logout_by_cid, e, there) refl)
            (unlink-Stands a s xs v (with_cid-member s.memory cid xs a there)) (unlink_accounts a s)
    ]
