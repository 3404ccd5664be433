-- ===== src/Party.antt =====
-- src/party.c: the parties by their ids, in a hash set of pairs of an id and the address of a party. The
-- lock makes each operation one step. `fresh` is what `malloc` gives, and `allocated` says whether the
-- growth of the set succeeds.
use syrup.Base.{ℕ, ◌+◌, ◌%◌, ◌==◌, Bool, Option, none, some, if◌then◌else◌}
use syrup.HashSet.{HashSet, found, hash_set_init, hash_set_get, hash_set_insert, hash_set_remove}

-- The members are never written.
pub record Party : Type 0 where
  pub id : ℕ
  pub leader : ℕ
  pub member_count : ℕ

pub record PartyStorage : Type 0 where
  pub id : ℕ
  pub party : ℕ

pub record Parties : Type 0 where
  pub running_id : ℕ
  pub memory : ℕ → Party
  pub set : HashSet PartyStorage

abbrev pub id_of : PartyStorage → ℕ
id_of s = s.id

abbrev pub write_party : ℕ → Party → (ℕ → Party) → ℕ → Party
write_party a party memory b = if b == a then party else memory b

-- `none` is the -1.
unfoldable pub parties_init : (allocated : Bool) → (ℕ → Party) → Option Parties
parties_init allocated memory = elim (hash_set_init allocated) [
  | none ↦ none
  | some set ↦ some (record { running_id = 1; memory = memory; set = set })
]

module _ (hash : ℕ → ℕ) where
  -- What is found is the pair in the set, not the party that it names.
  unfoldable pub get_party_by_id : ℕ → Parties → Option PartyStorage
  get_party_by_id id s = found (hash_set_get id_of hash id s.set)

  -- The inner `none` is the null pointer. The result of the insertion is not tested; the outer `none` is
  -- an insertion that does not end.
  unfoldable pub party_create :
      (fresh : Option ℕ) → (allocated : Bool) → (leader : ℕ) → Parties → Option (Option ℕ × Parties)
  party_create none allocated leader s = some (none, s)
  party_create (some a) allocated leader s =
      let party : Party = record { id = s.running_id; leader = leader; member_count = 0 } in
      elim (hash_set_insert id_of hash allocated (record { id = s.running_id; party = a }) s.set) [
        | none ↦ none
        | some (inserted, set) ↦ some (
          some a,
          record {
            running_id = (s.running_id + 1) % 4294967296;
            memory = write_party a party s.memory;
            set = set;
          },
        )
      ]

  unfoldable pub party_destroy : (allocated : Bool) → (party : ℕ) → Parties → Option Parties
  party_destroy allocated party s =
      elim (hash_set_remove id_of hash allocated (s.memory party).id s.set) [
        | none ↦ none
        | some set ↦ some (record s { set = set })
      ]

unfoldable pub party_get_id : (party : ℕ) → Parties → ℕ
party_get_id party s = (s.memory party).id

unfoldable pub party_get_leader_id : (party : ℕ) → Parties → ℕ
party_get_leader_id party s = (s.memory party).leader

unfoldable pub party_set_leader_id : (party id : ℕ) → Parties → Parties
party_set_leader_id party id s = record s {
  memory = write_party party (record (s.memory party) { leader = id }) s.memory;
}
