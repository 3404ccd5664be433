-- ===== src/Client.antt =====
-- src/channel/client.c: what a client does with the numbers of its character. The state is the
-- character, the flags of the stats that are to be sent, and the packets sent so far, the last first;
-- flags and packets are bit patterns.
pub mod Stats
pub mod Mesos
pub mod Spend
pub mod Level
pub mod Inventory
pub mod Equip
use syrup.Base.{
  ℕ, zero, suc, ◌+◌, ◌-◌, ◌%◌, bit_or, Bool, true, false, not, ◌&&◌, ◌||◌, ◌==◌, ltb, leb,
  if◌then◌else◌, List, [], ◌∷◌,
}
use syrup.Base.Int.{ℤ, pos, negsuc, sub_ℕ, ◌+ℤ◌, ◌-ℤ◌, ltb_ℤ, pos_part, neg_part}
use syrup.Character.{
  Character, i16_bits, i32_bits, to_i16, to_i32, leb_ℤ, int16_max, character_set_hp,
  character_set_mp, character_set_sp, character_set_str, character_set_dex, character_set_int,
  character_set_luk, character_set_ap, character_set_fame, character_set_meso,
}
use syrup.Packet.{Packet}
use syrup.Packet.StatChange.{stat_change_packet}
use syrup.Packet.Notice.{meso_gain_packet, meso_gain_in_chat_packet}

pub record Client : Type 0 where
  pub character : Character
  pub stats : ℕ
  pub sent : List Packet

abbrev pub int16_min : ℤ
int16_min = negsuc 32767

abbrev pub int32_max : ℤ
int32_max = pos 2147483647

abbrev pub eq_ℤ : ℤ → ℤ → Bool
eq_ℤ a b = pos_part a + neg_part b == pos_part b + neg_part a

-- The change's character, with the flag of the stat set.
abbrev pub changed : Client → Character → ℕ → Client
changed client chr flag = record client { character = chr; stats = bit_or client.stats flag }

-- `session_write` of a packet.
abbrev pub write : Client → Packet → Client
write client p = record client { sent = p ∷ client.sent }

-- The change's character, with the packet of one stat sent.
abbrev pub told : Client → Character → ℕ → ℤ → Client
told client chr flag value =
    write (record client { character = chr }) (stat_change_packet true flag (λ i. i16_bits value))

unfoldable pub client_set_hp : Client → ℤ → Client
client_set_hp client hp =
    if eq_ℤ hp client.character.hp
    then client
    else changed client (character_set_hp client.character hp) 0x400

unfoldable pub client_set_hp_now : Client → ℤ → Client
client_set_hp_now client hp =
    let chr = character_set_hp client.character hp in told client chr 0x400 chr.hp

-- The overflow protection of a change to a field of 16 bits.
unfoldable pub protect : (now change : ℤ) → ℤ
protect now change =
    if ltb_ℤ (pos 0) change && ltb_ℤ (int16_max -ℤ change) now
    then int16_max -ℤ now
    else if ltb_ℤ now (int16_min -ℤ change)
    then int16_min -ℤ now
    else change

unfoldable pub client_adjust_hp : Client → ℤ → Client
client_adjust_hp client hp =
    client_set_hp client (to_i16 (client.character.hp +ℤ protect client.character.hp hp))

unfoldable pub client_adjust_hp_now : Client → ℤ → Client
client_adjust_hp_now client hp =
    client_set_hp_now client (to_i16 (client.character.hp +ℤ protect client.character.hp hp))

unfoldable pub client_set_mp : Client → ℤ → Client
client_set_mp client mp =
    if eq_ℤ mp client.character.mp
    then client
    else changed client (character_set_mp client.character mp) 0x1000

unfoldable pub client_set_mp_now : Client → ℤ → Client
client_set_mp_now client mp =
    let chr = character_set_mp client.character mp in told client chr 0x1000 chr.mp

-- Only the upper half of the protection, on an `int16_t`.
unfoldable pub protect_above : (now change : ℤ) → ℤ
protect_above now change =
    if ltb_ℤ (pos 0) change && ltb_ℤ (int16_max -ℤ change) now
    then to_i16 (int16_max -ℤ now)
    else change

unfoldable pub client_adjust_mp : Client → ℤ → Client
client_adjust_mp client mp =
    client_set_mp client (to_i16 (client.character.mp +ℤ protect_above client.character.mp mp))

unfoldable pub client_adjust_mp_now : Client → ℤ → Client
client_adjust_mp_now client mp =
    client_set_mp_now client (to_i16 (client.character.mp +ℤ protect client.character.mp mp))

unfoldable pub client_adjust_sp : Client → ℤ → Client
client_adjust_sp client sp =
    let change = protect_above client.character.sp sp in
    changed client (character_set_sp client.character (to_i16 (client.character.sp +ℤ change)))
      0x8000

-- `DEFINE_STAT_ADJUST`: spend ability points on a stat, of its value, setter and flag.
unfoldable pub spend : (Character → ℤ) → (Character → ℤ → Character) → ℕ → Client → ℤ → Client
spend stat setter flag client amount =
    let chr = client.character in
    let limited =
      if ltb_ℤ (int16_max -ℤ stat chr) amount then to_i16 (int16_max -ℤ stat chr) else amount in
    let raised = setter chr (to_i16 (stat chr +ℤ limited)) in
    if eq_ℤ amount (pos 0)
    then client
    else if leb_ℤ amount chr.ap
    then changed client (character_set_ap raised (to_i16 (raised.ap -ℤ limited)))
        (bit_or flag 0x4000)
    else client

unfoldable pub client_adjust_str : Client → ℤ → Client
client_adjust_str = spend (λ chr. chr.str) character_set_str 0x40

unfoldable pub client_adjust_dex : Client → ℤ → Client
client_adjust_dex = spend (λ chr. chr.dex) character_set_dex 0x80

unfoldable pub client_adjust_int : Client → ℤ → Client
client_adjust_int = spend (λ chr. chr.int_) character_set_int 0x100

unfoldable pub client_adjust_luk : Client → ℤ → Client
client_adjust_luk = spend (λ chr. chr.luk) character_set_luk 0x200

-- What a gain or loss of mesos comes to. A loss of more than there is becomes a gain of what there is.
unfoldable pub meso_change : (now mesos : ℤ) → ℤ
meso_change now mesos =
    if ltb_ℤ (pos 0) mesos
    then if ltb_ℤ (int32_max -ℤ mesos) now then int32_max -ℤ now else mesos
    else if ltb_ℤ (now +ℤ mesos) (pos 0)
    then now
    else mesos

unfoldable pub client_gain_meso : Client → ℤ → (pickup reward : Bool) → Client
client_gain_meso client mesos pickup reward =
    let change = meso_change client.character.mesos mesos in
    let after =
      changed client
        (character_set_meso client.character (to_i32 (client.character.mesos +ℤ change))) 0x40000 in
    if pickup
    then write after (meso_gain_packet (i32_bits change))
    else if reward
    then write after (meso_gain_in_chat_packet (i32_bits change))
    else after

unfoldable pub client_adjust_fame : Client → ℤ → Client
client_adjust_fame client fame =
    let now = client.character.fame in
    let lowered =
      if ltb_ℤ (pos 0) fame && ltb_ℤ (int16_max -ℤ fame) now
      then to_i16 (int16_max -ℤ now)
      else fame in
    let limited =
      if ltb_ℤ lowered (pos 0) && ltb_ℤ now (int16_min -ℤ lowered)
      then to_i16 (int16_min -ℤ now)
      else lowered in
    changed client (character_set_fame client.character (to_i16 (now +ℤ limited))) 0x20000
