-- ===== src/Packet/StatChange/Room.antt =====
-- The packet of changed stats fits its buffer for every set of flags.
use syrup.Base.{
  ℕ, zero, suc, ◌+◌, ◌-◌, ◌≤◌, ◌≡◌, refl, bit_and, Bool, false, some, List, [], ◌∷◌, ◌++◌, arith,
  length, drop, if◌then◌else◌, bit_and_assoc, bit_and_comm, zero_bit_and, Bool-cases, inl, inr,
}
use syrup.Writer.Encode.{calls_size-append, append-AreReadable, encode_all, AreReadable, calls_size}
use syrup.Packet.{send, send-encode}
use syrup.Packet.StatChange.{
  Width, byte, half, whole, stat_fields, has_flag, clear_flag, value_call, change_count,
  write_first, write_values, stat_change_packet,
}

abbrev width_size : Width → ℕ
width_size byte = 1
width_size half = 2
width_size whole = 4

-- What the flags that are set can still write.
left_size : List (ℕ × Width) → ℕ → ℕ
left_size [] stats = 0
left_size ((flag, width) ∷ fields) stats =
    (if has_flag stats flag then width_size width else 0) + left_size fields stats

-- Clearing a flag sets no other flag, and the flag itself is then clear.
has_flag-clear_flag :
    (stats flag other : ℕ)
    → has_flag stats other ≡ false
    → has_flag (clear_flag stats flag) other ≡ false
has_flag-clear_flag stats flag other h = ground (
  arith,
  bit_and_assoc stats (4294967295 - flag) other,
  bit_and_comm (4294967295 - flag) other,
  bit_and_assoc stats other (4294967295 - flag),
  zero_bit_and (4294967295 - flag),
)

left_size-clear_flag :
    (fields : List (ℕ × Width)) (stats flag : ℕ)
    → left_size fields (clear_flag stats flag) ≤ left_size fields stats
unfolding left_size
left_size-clear_flag [] stats flag = omega arith
left_size-clear_flag ((other, width) ∷ fields) stats flag =
    ground (arith, left_size-clear_flag fields stats flag, has_flag-clear_flag stats flag other)

-- The flags of the chain that are not all of their complement: clearing clears.
abbrev AreFlags : List (ℕ × Width) → Type 0
AreFlags [] = Unit {0}
AreFlags ((flag, width) ∷ fields) = (bit_and (4294967295 - flag) flag ≡ 0) × AreFlags fields

write_first-has_flag :
    (fields : List (ℕ × Width)) (stats value other : ℕ)
    → has_flag stats other ≡ false
    → has_flag ((write_first fields stats value).1) other ≡ false
unfolding write_first
write_first-has_flag [] stats value other h = h
write_first-has_flag ((flag, width) ∷ fields) stats value other h =
    elim (Bool-cases (has_flag stats flag)) [
      | inl e ↦ rw (write_first, e) (has_flag-clear_flag stats flag other h)
      | inr e ↦ rw (write_first, e) (write_first-has_flag fields stats value other h)
    ]

cleared :
    (stats flag : ℕ)
    → bit_and (4294967295 - flag) flag ≡ 0
    → has_flag (clear_flag stats flag) flag ≡ false
cleared stats flag h =
    rw (bit_and_assoc stats (4294967295 - flag) flag, h, bit_and_comm stats 0, zero_bit_and stats)
      refl

value_call-size :
    (width : Width) (value : ℕ) → calls_size (value_call width value ∷ []) ≡ width_size width
value_call-size byte value = refl
value_call-size half value = refl
value_call-size whole value = refl

write_first-left_size :
    (fields : List (ℕ × Width)) (stats value : ℕ)
    → AreFlags fields
    → calls_size ((write_first fields stats value).0)
        + left_size fields ((write_first fields stats value).1)
      ≤ left_size fields stats
unfolding left_size write_first
write_first-left_size [] stats value h = omega arith
write_first-left_size ((flag, width) ∷ fields) stats value h =
    elim (Bool-cases (has_flag stats flag)) [
      | inl e ↦
          rw (write_first, left_size, e, cleared stats flag h.0, value_call-size width value)
            (omega (arith, left_size-clear_flag fields stats flag))
      | inr e ↦
          rw (write_first, left_size, e, write_first-has_flag fields stats value flag e)
            (omega (arith, write_first-left_size fields stats value h.1))
    ]

stat_fields-AreFlags : AreFlags stat_fields
stat_fields-AreFlags = (
  refl,
  (
    refl,
    (
      refl,
      (
        refl,
        (
          refl,
          (
            refl,
            (
              refl,
              (
                refl,
                (
                  refl,
                  (
                    refl,
                    (
                      refl,
                      (refl, (refl, (refl, (refl, (refl, (refl, (refl, (refl, (refl, tt))))))))),
                    ),
                  ),
                ),
              ),
            ),
          ),
        ),
      ),
    ),
  ),
)

write_values-left_size :
    (n i stats : ℕ) (values : ℕ → ℕ)
    → calls_size (write_values n i stats values) ≤ left_size stat_fields stats
unfolding write_values
write_values-left_size zero i stats values = omega arith
write_values-left_size (suc n) i stats values = omega (
  arith,
  calls_size-append ((write_first stat_fields stats (values i)).0)
      (write_values n (suc i) ((write_first stat_fields stats (values i)).1) values),
  write_first-left_size stat_fields stats (values i) stat_fields-AreFlags,
  write_values-left_size n (suc i) ((write_first stat_fields stats (values i)).1) values,
)

total : List (ℕ × Width) → ℕ
total [] = 0
total ((flag, width) ∷ fields) = width_size width + total fields

left_size-le : (fields : List (ℕ × Width)) (stats : ℕ) → left_size fields stats ≤ total fields
unfolding left_size total
left_size-le [] stats = omega arith
left_size-le ((flag, width) ∷ fields) stats = ground (arith, left_size-le fields stats)

value_call-AreReadable : (width : Width) (value : ℕ) → AreReadable (value_call width value ∷ [])
value_call-AreReadable byte value = (tt, tt)
value_call-AreReadable half value = (tt, tt)
value_call-AreReadable whole value = (tt, tt)

write_first-AreReadable :
    (fields : List (ℕ × Width)) (stats value : ℕ) → AreReadable ((write_first fields stats value).0)
unfolding write_first
write_first-AreReadable [] stats value = tt
write_first-AreReadable ((flag, width) ∷ fields) stats value =
    elim (Bool-cases (has_flag stats flag)) [
      | inl e ↦ rw (write_first, e) (value_call-AreReadable width value)
      | inr e ↦ rw (write_first, e) (write_first-AreReadable fields stats value)
    ]

write_values-AreReadable :
    (n i stats : ℕ) (values : ℕ → ℕ) → AreReadable (write_values n i stats values)
unfolding write_values
write_values-AreReadable zero i stats values = tt
write_values-AreReadable (suc n) i stats values =
    append-AreReadable ((write_first stat_fields stats (values i)).0)
      (write_values n (suc i) ((write_first stat_fields stats (values i)).1) values)
      (write_first-AreReadable stat_fields stats (values i))
      (write_values-AreReadable n (suc i) ((write_first stat_fields stats (values i)).1) values)

fifty : total stat_fields ≡ 50
unfolding total
fifty = refl

-- Whatever the flags and the values are, a buffer of 57 bytes has room for the packet of changed
-- stats: the builder returns, and the bytes stand at the start of the buffer.
pub stat_change_packet-send :
    (enable_actions : Bool) (stats : ℕ) (values : ℕ → ℕ) (memory : List ℕ)
    → length memory ≡ 57
    → send (stat_change_packet enable_actions stats values) memory
      ≡ some (
        calls_size ((stat_change_packet enable_actions stats values).calls),
        encode_all ((stat_change_packet enable_actions stats values).calls)
            ++ drop (calls_size ((stat_change_packet enable_actions stats values).calls)) memory,
      )
unfolding stat_change_packet
stat_change_packet-send enable_actions stats values memory h =
    let n = change_count stats in
    let room : calls_size (write_values n 0 stats values) ≤ 50 =
      omega
        (arith, write_values-left_size n 0 stats values, left_size-le stat_fields stats, fifty) in
    send-encode (stat_change_packet enable_actions stats values) memory
      (tt, (tt, (tt, write_values-AreReadable n 0 stats values))) (omega arith) (omega arith)
