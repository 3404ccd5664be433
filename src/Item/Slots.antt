-- ===== src/Item/Slots.antt =====
-- The two numberings of the slots of equipped items.
use syrup.Base.{
  ℕ, ◌<◌, ◌≡◌, ◌≢◌, ◌↔◌, refl, Bool, true, false, not, ◌&&◌, ◌||◌, ◌==◌, arith, ltb, if◌then◌else◌,
  holds_below, holds_below_at,
}
use syrup.Item.{
  is_valid_equip_slot, equip_slot_from_compact, equip_slot_to_compact, equip_slot_from_id,
  equip_slot_count,
}

abbrev is_round_from_compact : ℕ → Bool
is_round_from_compact i =
    equip_slot_to_compact (equip_slot_from_compact i) == i
    && is_valid_equip_slot (equip_slot_from_compact i)

abbrev is_round_from_slot : ℕ → Bool
is_round_from_slot s =
    not (is_valid_equip_slot s)
    || equip_slot_from_compact (equip_slot_to_compact s) == s
      && ltb (equip_slot_to_compact s) 65
      && (equip_slot_to_compact s == 64 && s == 148
          || not (equip_slot_to_compact s == 64) && not (s == 148))

compact_table : holds_below 65 is_round_from_compact ≡ true
unfolding holds_below equip_slot_from_compact equip_slot_to_compact is_valid_equip_slot
compact_table = refl

slot_table : holds_below 149 is_round_from_slot ≡ true
unfolding holds_below equip_slot_from_compact equip_slot_to_compact is_valid_equip_slot
slot_table = refl

-- Every compact number up to 64 stands for a valid slot, whose compact number it is.
to_compact-from_compact :
    (i : ℕ)
    → i < 65
    → (equip_slot_to_compact (equip_slot_from_compact i) ≡ i)
      × (is_valid_equip_slot (equip_slot_from_compact i) ≡ true)
to_compact-from_compact i h =
    ground (arith, holds_below_at 65 is_round_from_compact compact_table i h)

valid-lt : (s : ℕ) → is_valid_equip_slot s ≡ true → s < 149
unfolding is_valid_equip_slot
valid-lt s h = ground arith

-- Every valid slot is the slot of its compact number, which is at most 64.
from_compact-to_compact :
    (s : ℕ)
    → is_valid_equip_slot s ≡ true
    → (equip_slot_from_compact (equip_slot_to_compact s) ≡ s) × (equip_slot_to_compact s < 65)
from_compact-to_compact s h =
    ground (arith, holds_below_at 149 is_round_from_slot slot_table s (valid-lt s h))

-- The compact number of a valid slot is an index of a table of `EQUIP_SLOT_COUNT` equipped items for
-- every slot but 148, whose compact number is the table's length.
pub to_compact-index :
    (s : ℕ)
    → is_valid_equip_slot s ≡ true
    → (equip_slot_to_compact s < equip_slot_count) ↔ (s ≢ 148)
to_compact-index s h =
    ground (arith, holds_below_at 149 is_round_from_slot slot_table s (valid-lt s h))

-- Slot 0 or the slot of a compact number below the cosmetic ones.
abbrev pub is_plain_slot : ℕ → Bool
is_plain_slot s = s == 0 || is_valid_equip_slot s && ltb (equip_slot_to_compact s) 17

either :
    (b : Bool) (x y : ℕ)
    → is_plain_slot x ≡ true
    → is_plain_slot y ≡ true
    → is_plain_slot (if b then x else y) ≡ true
either true x y p q = p
either false x y p q = q

-- An id gives the error, 0, or a valid slot that is not a cosmetic one: an index below 17.
from_id-is_plain : (id : ℕ) → is_plain_slot (equip_slot_from_id id) ≡ true
unfolding equip_slot_from_id is_valid_equip_slot equip_slot_to_compact
from_id-is_plain id = ground arith
