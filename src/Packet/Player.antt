-- ===== src/Packet/Player.antt =====
-- src/packet.c: the packets on the players of a map and their parties.
use syrup.Base.{ℕ, Bool, false, not, List, [], ◌∷◌, if◌then◌else◌, u16 as to_u16}
use syrup.Writer.{Call, bool, u8, u16, i32, u32, u64, sized_string, array}
use syrup.Base.{◌+◌, ◌*◌, ◌/◌, ◌%◌, ◌==◌, ltb, ◌&&◌}
use syrup.Packet.{Packet, when, for_from}

unfoldable pub set_gender_packet : (gender : Bool) → Packet
set_gender_packet gender = record { size = 3; calls = u16 0x3a ∷ bool gender ∷ [] }

unfoldable pub remove_player_from_map_packet : (id : ℕ) → Packet
remove_player_from_map_packet id = record { size = 6; calls = u16 0xa1 ∷ u32 id ∷ [] }

unfoldable pub shop_action_response : (code : ℕ) → Packet
shop_action_response code = record { size = 3; calls = u16 0x132 ∷ u8 code ∷ [] }

unfoldable pub show_effect_packet : (effect : ℕ) → Packet
show_effect_packet effect = record { size = 3; calls = u16 0xce ∷ u8 effect ∷ [] }

unfoldable pub show_foreign_effect_packet : (id effect : ℕ) → Packet
show_foreign_effect_packet id effect = record {
  size = 7;
  calls = u16 0xc6 ∷ u32 id ∷ u8 effect ∷ [];
}

unfoldable pub face_expression_packet : (id emote : ℕ) → Packet
face_expression_packet id emote = record { size = 10; calls = u16 0xc1 ∷ u32 id ∷ u32 emote ∷ [] }

unfoldable pub set_chair_packet : (id chair_id : ℕ) → Packet
set_chair_packet id chair_id = record { size = 10; calls = u16 0xc4 ∷ u32 id ∷ u32 chair_id ∷ [] }

unfoldable pub stand_up_packet : Packet
stand_up_packet = record { size = 3; calls = u16 0xcd ∷ u8 0 ∷ [] }

unfoldable pub sit_on_map_seat_packet : (id : ℕ) → Packet
sit_on_map_seat_packet id = record { size = 5; calls = u16 0xcd ∷ u8 1 ∷ u16 id ∷ [] }

unfoldable pub party_status_message_packet : (code : ℕ) → Packet
party_status_message_packet code = record { size = 3; calls = u16 0x3e ∷ u8 code ∷ [] }

unfoldable pub party_create_packet : (party_id : ℕ) → Packet
party_create_packet party_id = record {
  size = 23;
  calls = u16 0x3e ∷ u8 8 ∷ u32 party_id ∷ u32 999999999 ∷ u32 999999999 ∷ u32 0 ∷ u32 0 ∷ [];
}

unfoldable pub party_invite_packet : (party_id inviter_len : ℕ) (inviter : List ℕ) → Packet
party_invite_packet party_id inviter_len inviter = record {
  size = 22;
  calls = u16 0x3e ∷ u8 4 ∷ u32 party_id ∷ sized_string inviter_len inviter ∷ u8 0 ∷ [];
}

unfoldable pub party_disband_packet : (party_id leader_id : ℕ) → Packet
party_disband_packet party_id leader_id = record {
  size = 128;
  calls = u16 0x3e ∷ u8 12 ∷ u32 party_id ∷ u32 leader_id ∷ u8 0 ∷ u32 party_id ∷ [];
}

-- The size is `10 + len`; a length is cut to 16 bits by `writer_array`.
unfoldable pub move_player_packet : (id len : ℕ) (bytes : List ℕ) → Packet
move_player_packet id len bytes = record {
  size = 10 + len;
  calls = u16 0xb9 ∷ u32 id ∷ u32 0 ∷ array (to_u16 len) bytes ∷ [];
}

-- A positive `int32_t`.
abbrev pub is_positive : ℕ → Bool
is_positive x = ltb 0 x && ltb x 2147483648

unfoldable pub damange_player_packet : (skill monster_id char_id damage fake direction : ℕ) → Packet
damange_player_packet skill monster_id char_id damage fake direction = record {
  size = 26;
  calls =
      u16 0xc0
      ∷ u32 char_id
      ∷ u8 skill
      ∷ i32 damage
      ∷ (if not (skill == 252)
          then u32 monster_id
            ∷ u8 direction
            ∷ u16 0
            ∷ i32 damage
            ∷ when (is_positive fake) (i32 fake ∷ [])
          else i32 damage ∷ []);
}

-- The time that packets carry, of the clock's seconds and microseconds and of the offset from
-- Greenwich, in 64 bits.
abbrev pub packet_time : (sec usec gmtoff : ℕ) → ℕ
packet_time sec usec gmtoff =
    ((sec * 1000 + usec / 1000) * 10000 + 116444736010800000 + gmtoff * 1000 * 10000)
    % 18446744073709551616

-- Of the character only `hp` is used.
unfoldable pub change_map_packet : (hp to portal sec usec gmtoff : ℕ) → Packet
change_map_packet hp to portal sec usec gmtoff = record {
  size = 27;
  calls =
      u16 0x7d
      ∷ u32 0
      ∷ u32 0
      ∷ u8 0
      ∷ u32 to
      ∷ u8 portal
      ∷ u16 hp
      ∷ bool false
      ∷ u64 (packet_time sec usec gmtoff)
      ∷ [];
}

unfoldable pub keymap_entry : (type action : ℕ → ℕ) → ℕ → List Call
keymap_entry type action i = u8 (type i) ∷ u32 (action i) ∷ []

unfoldable pub keymap_packet : (type action : ℕ → ℕ) → Packet
unfolding keymap_entry
keymap_packet type action = record {
  size = 453;
  calls = u16 0x14f ∷ u8 0 ∷ for_from 0 90 (keymap_entry type action);
}
