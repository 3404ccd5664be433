-- ===== src/Account.antt =====
-- src/account.c: the accounts that are logged in, as a doubly linked list. Nodes are in memory at
-- addresses; a null pointer is `none`. The lock makes each operation one step. A loop along the list
-- runs on rounds, and the outer `none` is that they ran out.
pub mod Chain
pub mod Methods
pub mod Entry
pub mod Sessions
use syrup.Base.{ℕ, zero, suc, Bool, true, false, ◌==◌, if◌then◌else◌, Option, none, some}

pub record AccountNode : Type 0 where
  pub prev : Option ℕ
  pub next : Option ℕ
  pub id : ℕ
  pub cid : ℕ

pub record Accounts : Type 0 where
  pub memory : ℕ → AccountNode
  pub head : Option ℕ

-- Writes to one field of the node at an address.
abbrev pub set_next : ℕ → Option ℕ → (ℕ → AccountNode) → ℕ → AccountNode
set_next a p memory b = if a == b then record (memory b) { next = p } else memory b

abbrev pub set_prev : ℕ → Option ℕ → (ℕ → AccountNode) → ℕ → AccountNode
set_prev a p memory b = if a == b then record (memory b) { prev = p } else memory b

-- Whether a node of the list has the id.
unfoldable pub has_id : (rounds : ℕ) → (memory : ℕ → AccountNode) → ℕ → Option ℕ → Option Bool
has_id rounds memory id none = some false
has_id zero memory id (some a) = none
has_id (suc rounds) memory id (some a) =
    let rest = has_id rounds memory id (memory a).next in
    if (memory a).id == id then some true else rest

-- The node that `malloc` gives is `fresh`, if it gives one. The inner `none` is the null pointer.
unfoldable pub account_login :
    (rounds : ℕ) (fresh : Option ℕ) → ℕ → Accounts → Option (Option ℕ × Accounts)
account_login rounds none id s = some (none, s)
account_login rounds (some new) id s = elim (has_id rounds s.memory id s.head) [
  | none ↦ none
  | some true ↦ some (none, s)
  | some false ↦
      let node : AccountNode = record { prev = none; next = s.head; id = id; cid = 0 } in
      let memory = λ (b : ℕ). if new == b then node else s.memory b in
      let linked : ℕ → AccountNode = elim s.head [
        | none ↦ memory
        | some h ↦ set_prev h (some new) memory
      ] in
      some (some new, record { memory = linked; head = some new })
]

pub account_get_id : ℕ → Accounts → ℕ
account_get_id account s = (s.memory account).id

-- `node->prev->next = node->next`, or the head, and then `node->next->prev = node->prev`.
unfoldable pub unlink : ℕ → Accounts → Accounts
unlink node s =
    let forth : Accounts = elim (s.memory node).prev [
      | none ↦ record s { head = (s.memory node).next }
      | some p ↦ record s { memory = set_next p (s.memory node).next s.memory }
    ] in
    elim (forth.memory node).next [
      | none ↦ forth
      | some n ↦ record forth { memory = set_prev n (forth.memory node).prev forth.memory }
    ]

unfoldable pub account_logout : ℕ → Accounts → Accounts
unfolding unlink
account_logout node s = unlink node s

unfoldable pub account_set_cid : ℕ → ℕ → Accounts → Accounts
account_set_cid account cid s = record s {
  memory = λ b. if account == b then record (s.memory b) { cid = cid } else s.memory b;
}

-- The first node of the list with the character.
unfoldable pub find_cid :
    (rounds : ℕ) → (memory : ℕ → AccountNode) → ℕ → Option ℕ → Option (Option ℕ)
find_cid rounds memory cid none = some none
find_cid zero memory cid (some a) = none
find_cid (suc rounds) memory cid (some a) =
    let rest = find_cid rounds memory cid (memory a).next in
    if (memory a).cid == cid then some (some a) else rest

unfoldable pub account_logout_by_cid : (rounds : ℕ) → ℕ → Accounts → Option Accounts
account_logout_by_cid rounds cid s = elim (find_cid rounds s.memory cid s.head) [
  | none ↦ none
  | some none ↦ some s
  | some (some node) ↦ some (unlink node s)
]
