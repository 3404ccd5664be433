-- ===== src/Map/Objects/Ids.antt =====
-- The ids of objects: a number of 16 bits under the high half, none of them used twice.
use syrup.Base.{
  ℕ, ◌+◌, ◌/◌, ◌%◌, ◌^◌, ◌≤◌, ◌<◌, ◌≡◌, ap, ◌∙◌, false, ◌==◌, Option, none, some, length, arith,
  bit_or, bit_and, bit_or_fields, bit_or_comm, bit_and_fields, bit_and-ff,
}
use syrup.HashSet.Cells.{find_key}
use syrup.HashSet.Put.{IsTable}
use syrup.Map.Objects.{MapObject, oid_of, ObjectList, high}

pub id_of_number : (number : ℕ) → number < 65536 → bit_or number high ≡ high + number
id_of_number number h = bit_or_comm number high ∙ bit_or_fields 16 0xFFFF number h

low_half : (number : ℕ) → number < 65536 → bit_and number 0xFFFF ≡ number
low_half number h =
    let low = number % 256 in
    let up = number / 256 in
    ap (λ n. bit_and n 0xFFFF) (omega arith)
    ∙ bit_and_fields 8 up low 0xFF 0xFF (omega arith) (omega arith)
    ∙ omega (arith, bit_and-ff up, bit_and-ff low)

pub number_of_id : (number : ℕ) → number < 65536 → bit_and (high + number) 0xFFFF ≡ number
number_of_id number h =
    bit_and_fields 16 0xFFFF number 0 0xFFFF h (omega arith) ∙ omega (arith, low_half number h)

-- The numbers in use and on the stack are those below a mark, and none is there twice.
abbrev pub view : ObjectList → ℕ → Option MapObject
view list oid = find_key oid_of oid list.objects

abbrev pub mark : ObjectList → ℕ
mark list = list.object_count + list.free_stack_top

module _ (hash : ℕ → ℕ) where
  pub record IsValid (list : ObjectList) : Type 0 where
    pub table : IsTable oid_of hash list.objects list.object_count
    pub used :
        (oid : ℕ) (object : MapObject)
        → view list oid ≡ some object
        → (high ≤ oid) × (oid < high + mark list)
    pub spare :
        (i : ℕ)
        → i < list.free_stack_top
        → (list.free_stack i < mark list) × (view list (high + list.free_stack i) ≡ none)
    pub apart :
        (i j : ℕ)
        → i < j
        → j < list.free_stack_top
        → (list.free_stack i == list.free_stack j) ≡ false
    pub few : mark list ≤ 65535
    pub stack_room : mark list ≤ list.free_stack_capacity
    pub capacity : length list.objects ≤ list.free_stack_capacity
    pub sized : length list.objects < 2 ^ 64
