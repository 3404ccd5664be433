-- ===== src/Tests/Accounts.antt =====
-- Two accounts that are logged in.
use syrup.Base.{ℕ, ◌≡◌, refl, none, some, [], ◌∷◌, arith, ◌==◌, if◌then◌else◌}
use syrup.Account.{AccountNode, Accounts, account_login, account_logout, account_logout_by_cid}
use syrup.Account.Chain.{Absent, remove}
use syrup.Account.Methods.{Stands}
use syrup.Account.Sessions.{
  LoggedIn, LoggedOut, account_login-LoggedIn, account_logout-Stands,
  account_logout_by_cid-LoggedOut,
}

abbrev anna : AccountNode
anna = record { prev = none; next = some 6; id = 100; cid = 31 }

abbrev ben : AccountNode
ben = record { prev = some 5; next = none; id = 101; cid = 0 }

abbrev both : Accounts
both = record { memory = λ a. if a == 5 then anna else ben; head = some 5 }

both-Stands : Stands both (5 ∷ 6 ∷ [])
both-Stands = record {
  links = (refl, refl, (refl, refl, refl));
  distinct = ((refl, tt), (tt, tt));
  unique = ((refl, tt), (tt, tt));
}

seven_is_new : (new : ℕ) → some 7 ≡ some new → Absent new (5 ∷ 6 ∷ [])
seven_is_new new e = (ground arith, (ground arith, tt))

account_login-LoggedIn_example :
    LoggedIn (some 7) 102 both (5 ∷ 6 ∷ []) (account_login 3 (some 7) 102 both)
account_login-LoggedIn_example =
    account_login-LoggedIn 3 (some 7) 102 both (5 ∷ 6 ∷ []) both-Stands seven_is_new (omega arith)

account_logout-Stands_example :
    Stands (account_logout 5 both) (remove 5 (5 ∷ 6 ∷ []))
    × ((b : ℕ)
        → (((account_logout 5 both).memory b).id ≡ (both.memory b).id)
          × (((account_logout 5 both).memory b).cid ≡ (both.memory b).cid))
account_logout-Stands_example = account_logout-Stands 5 both (5 ∷ 6 ∷ []) both-Stands refl

account_logout_by_cid-LoggedOut_example :
    LoggedOut 31 both (5 ∷ 6 ∷ []) (account_logout_by_cid 3 31 both)
account_logout_by_cid-LoggedOut_example =
    account_logout_by_cid-LoggedOut 3 31 both (5 ∷ 6 ∷ []) both-Stands (omega arith)
