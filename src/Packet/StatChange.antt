-- ===== src/Packet/StatChange.antt =====
-- src/packet.c: the packet of changed stats. Its calls follow the flags of `stats`, 32 bits.
pub mod Room
use syrup.Base.{
  ℕ, zero, suc, ◌+◌, ◌-◌, bit_and, Bool, true, false, not, ◌==◌, Option, none, some, List, [], ◌∷◌,
  ◌++◌, if◌then◌else◌,
}
use syrup.Writer.{Call, bool, u8, i16, u16, i32, u32}
use syrup.Packet.{Packet}

-- The width that a value is written with.
pub data Width : Type 0 where
  byte half whole : Width

-- The flags in the order of the `else if` chain, with the width of their values.
abbrev pub stat_fields : List (ℕ × Width)
stat_fields =
    (0x1, byte)
    ∷ (0x2, whole)
    ∷ (0x4, whole)
    ∷ (0x10, byte)
    ∷ (0x20, half)
    ∷ (0x40, half)
    ∷ (0x80, half)
    ∷ (0x100, half)
    ∷ (0x200, half)
    ∷ (0x400, half)
    ∷ (0x800, half)
    ∷ (0x1000, half)
    ∷ (0x2000, half)
    ∷ (0x4000, half)
    ∷ (0x8000, half)
    ∷ (0x10000, whole)
    ∷ (0x20000, half)
    ∷ (0x40000, whole)
    ∷ (0x180008, whole)
    ∷ (0x200000, whole)
    ∷ []

abbrev pub has_flag : ℕ → ℕ → Bool
has_flag stats flag = not (bit_and stats flag == 0)

-- `stats &= ~flag`.
abbrev pub clear_flag : ℕ → ℕ → ℕ
clear_flag stats flag = bit_and stats (4294967295 - flag)

abbrev pub value_call : Width → ℕ → Call
value_call byte v = u8 v
value_call half v = i16 v
value_call whole v = u32 v

-- `for (; s; count++) s &= s - 1`: each round clears a bit, so 32 rounds are enough for 32 bits.
unfoldable pub count_bits : (fuel s count : ℕ) → ℕ
count_bits zero s count = count
count_bits (suc fuel) zero count = count
count_bits (suc fuel) (suc s) count = count_bits fuel (bit_and (suc s) s) (suc count)

-- The pet's flag has three bits and counts as one.
pub change_count : ℕ → ℕ
change_count stats =
    if has_flag stats 0x180008
    then count_bits 32 (clear_flag stats 0x180008) 1
    else count_bits 32 stats 0

-- One round of the chain: the first flag of the chain that is set is written and cleared.
unfoldable pub write_first : List (ℕ × Width) → (stats value : ℕ) → List Call × ℕ
write_first [] stats value = ([], stats)
write_first ((flag, width) ∷ fields) stats value =
    let rest = write_first fields stats value in
    if has_flag stats flag then (value_call width value ∷ [], clear_flag stats flag) else rest

unfoldable pub write_values : (n i stats : ℕ) → (ℕ → ℕ) → List Call
write_values zero i stats values = []
write_values (suc n) i stats values =
    (write_first stat_fields stats (values i)).0
    ++ write_values n (suc i) ((write_first stat_fields stats (values i)).1) values

unfoldable pub stat_change_packet : (enable_actions : Bool) (stats : ℕ) (values : ℕ → ℕ) → Packet
stat_change_packet enable_actions stats values = record {
  size = 57;
  calls =
      u16 0x1f ∷ bool enable_actions ∷ u32 stats ∷ write_values (change_count stats) 0 stats values;
}
