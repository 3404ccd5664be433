-- ===== src/Packet/Notice.antt =====
-- src/packet.c: gains, quests, chat and messages.
use syrup.Base.{ℕ, Bool, true, false, not, List, [], ◌∷◌, ◌++◌, if◌then◌else◌, u16 as to_u16}
use syrup.Writer.{Call, bool, u8, u16, i32, u32, u64, zeros, sized_string, array}
use syrup.Base.{◌+◌, ltb}
use syrup.Packet.Player.{packet_time}
use syrup.Packet.{Packet, when}

unfoldable pub meso_gain_packet : (amount : ℕ) → Packet
meso_gain_packet amount = record {
  size = 11;
  calls = u16 0x27 ∷ u8 0 ∷ u16 1 ∷ i32 amount ∷ u16 0 ∷ [];
}

unfoldable pub meso_gain_in_chat_packet : (amount : ℕ) → Packet
meso_gain_in_chat_packet amount = record {
  size = 9;
  calls = u16 0x27 ∷ u8 5 ∷ i32 amount ∷ u16 0 ∷ [];
}

unfoldable pub item_gain_packet : (id amount : ℕ) → Packet
item_gain_packet id amount = record {
  size = 20;
  calls = u16 0x27 ∷ u16 0 ∷ u32 id ∷ i32 amount ∷ u64 0 ∷ [];
}

unfoldable pub item_gain_in_chat_packet : (id amount : ℕ) → Packet
item_gain_in_chat_packet id amount = record {
  size = 20;
  calls = u16 0xce ∷ u8 3 ∷ u8 1 ∷ u32 id ∷ i32 amount ∷ [];
}

unfoldable pub item_unavailable_notification_packet : Packet
item_unavailable_notification_packet = record {
  size = 12;
  calls = u16 0x27 ∷ u8 0 ∷ u8 0xfe ∷ u64 0 ∷ [];
}

unfoldable pub inventory_full_notification_packet : Packet
inventory_full_notification_packet = record {
  size = 12;
  calls = u16 0x27 ∷ u8 0 ∷ u8 0xff ∷ u64 0 ∷ [];
}

unfoldable pub start_quest_packet : (qid npc : ℕ) → Packet
start_quest_packet qid npc = record {
  size = 13;
  calls = u16 0xd3 ∷ u8 8 ∷ u16 qid ∷ u32 npc ∷ u32 0 ∷ [];
}

unfoldable pub end_quest_packet : (qid npc next : ℕ) → Packet
end_quest_packet qid npc next = record {
  size = 11;
  calls = u16 0xd3 ∷ u8 8 ∷ u16 qid ∷ u32 npc ∷ u16 next ∷ [];
}

unfoldable pub update_quest_packet : (id len : ℕ) (progress : List ℕ) → Packet
update_quest_packet id len progress = record {
  size = 28;
  calls = u16 0x27 ∷ u8 1 ∷ u16 id ∷ u8 1 ∷ sized_string len progress ∷ zeros 5 ∷ [];
}

unfoldable pub forfeit_quest_packet : (qid : ℕ) → Packet
forfeit_quest_packet qid = record { size = 6; calls = u16 0x27 ∷ u8 1 ∷ u16 qid ∷ u8 0 ∷ [] }

unfoldable pub chat_packet : (id : ℕ) (gm : Bool) (len : ℕ) (string : List ℕ) (show : ℕ) → Packet
chat_packet id gm len string show = record {
  size = 90;
  calls = u16 0xa2 ∷ u32 id ∷ bool gm ∷ sized_string len string ∷ u8 show ∷ [];
}

unfoldable pub npc_get_number_packet :
    (npc message_len : ℕ) (message : List ℕ) (speaker def min max : ℕ) → Packet
npc_get_number_packet npc message_len message speaker def min max = record {
  size = 65535;
  calls =
      u16 0x130
      ∷ u8 4
      ∷ u32 npc
      ∷ u8 3
      ∷ u8 speaker
      ∷ sized_string message_len message
      ∷ i32 def
      ∷ i32 min
      ∷ i32 max
      ∷ u32 0
      ∷ [];
}

unfoldable pub popup_message_packet : (len : ℕ) (message : List ℕ) → Packet
popup_message_packet len message = record {
  size = 132;
  calls = u16 0x44 ∷ u8 1 ∷ sized_string len message ∷ [];
}

unfoldable pub server_message_packet : (len : ℕ) (message : List ℕ) → Packet
server_message_packet len message = record {
  size = 65535;
  calls = u16 0x44 ∷ u8 5 ∷ sized_string len message ∷ [];
}

unfoldable pub server_notice_packet : (len : ℕ) (message : List ℕ) → Packet
server_notice_packet len message = record {
  size = 65535;
  calls = u16 0x44 ∷ u8 6 ∷ sized_string len message ∷ u32 0 ∷ [];
}

unfoldable pub show_info_packet : (len : ℕ) (path : List ℕ) → Packet
show_info_packet len path = record {
  size = 128;
  calls = u16 0xce ∷ u8 0x17 ∷ sized_string len path ∷ u32 1 ∷ [];
}

unfoldable pub show_intro_packet : (len : ℕ) (path : List ℕ) → Packet
show_intro_packet len path = record {
  size = 128;
  calls = u16 0xce ∷ u8 0x12 ∷ sized_string len path ∷ [];
}

unfoldable pub play_sound_packet : (len : ℕ) (path : List ℕ) → Packet
play_sound_packet len path = record {
  size = 128;
  calls = u16 0x8a ∷ u8 4 ∷ sized_string len path ∷ [];
}

-- The conversion of an `int8_t` to an `int32_t`.
abbrev pub sign_extend : ℕ → ℕ
sign_extend x = if ltb x 128 then x else 4294967040 + x

unfoldable pub add_card_packet : (full : Bool) (id count : ℕ) → Packet
add_card_packet full id count = record {
  size = 11;
  calls = u16 0x53 ∷ bool (not full) ∷ u32 id ∷ i32 (sign_extend count) ∷ [];
}

unfoldable pub update_skill_packet : (id level master_level : ℕ) → Packet
update_skill_packet id level master_level = record {
  size = 26;
  calls =
      u16 0x24
      ∷ u8 1
      ∷ u16 1
      ∷ u32 id
      ∷ i32 (sign_extend level)
      ∷ i32 (sign_extend master_level)
      ∷ u64 150842304000000000
      ∷ u8 4
      ∷ [];
}

unfoldable pub update_quest_completion_time_packet : (qid time gmtoff : ℕ) → Packet
update_quest_completion_time_packet qid time gmtoff = record {
  size = 14;
  calls = u16 0x27 ∷ u8 1 ∷ u16 qid ∷ u8 2 ∷ u64 (packet_time time 0 gmtoff) ∷ [];
}

unfoldable pub exp_gain_packet_internal :
    (exp equip_bonus party_bonus : ℕ) (white in_chat : Bool) → List Call
exp_gain_packet_internal exp equip_bonus party_bonus white in_chat =
    u16 0x27
    ∷ u8 3
    ∷ bool white
    ∷ i32 exp
    ∷ bool in_chat
    ∷ i32 0
    ∷ u8 0
    ∷ u8 0
    ∷ i32 0
    ∷ (when in_chat (u8 0 ∷ []) ++ (u8 0 ∷ i32 party_bonus ∷ i32 equip_bonus ∷ i32 0 ∷ i32 0 ∷ []))

unfoldable pub exp_gain_packet : (exp equip_bonus party_bonus : ℕ) (white : Bool) → Packet
unfolding exp_gain_packet_internal
exp_gain_packet exp equip_bonus party_bonus white = record {
  size = 36;
  calls = exp_gain_packet_internal exp equip_bonus party_bonus white false;
}

unfoldable pub exp_gain_in_chat_packet : (exp equip_bonus party_bonus : ℕ) (white : Bool) → Packet
unfolding exp_gain_packet_internal
exp_gain_in_chat_packet exp equip_bonus party_bonus white = record {
  size = 37;
  calls = exp_gain_packet_internal exp equip_bonus party_bonus white true;
}

unfoldable pub npc_action_packet : (size : ℕ) (bytes : List ℕ) → Packet
npc_action_packet size bytes = record {
  size = 2 + size;
  calls = u16 0x104 ∷ array (to_u16 size) bytes ∷ [];
}

unfoldable pub move_monster_packet :
    (oid : ℕ) (skill_possible : Bool) (activity skill_id skill_level option len : ℕ)
    (bytes : List ℕ)
    → Packet
move_monster_packet oid skill_possible activity skill_id skill_level option len bytes = record {
  size = 3843;
  calls =
      u16 0xef
      ∷ u32 oid
      ∷ u8 0
      ∷ bool false
      ∷ u8 activity
      ∷ u8 skill_id
      ∷ u8 skill_level
      ∷ u16 option
      ∷ array (to_u16 len) bytes
      ∷ [];
}

-- The types of a dialogue, by their numbers in the packet: those of the buttons are sent as 0.
pub data NpcDialogueType : Type 0 where
  ok yes_no simple next prev_next prev accept_decilne : NpcDialogueType

abbrev pub type_number : NpcDialogueType → ℕ
type_number ok = 0
type_number yes_no = 1
type_number simple = 4
type_number next = 0
type_number prev_next = 0
type_number prev = 0
type_number accept_decilne = 12

abbrev pub buttons : NpcDialogueType → List Call
buttons ok = u8 0 ∷ u8 0 ∷ []
buttons next = u8 0 ∷ u8 1 ∷ []
buttons prev_next = u8 1 ∷ u8 1 ∷ []
buttons prev = u8 1 ∷ u8 0 ∷ []
buttons _ = []

unfoldable pub npc_dialogue_packet :
    (npc : ℕ) (type : NpcDialogueType) (message_len : ℕ) (message : List ℕ) (speaker : ℕ) → Packet
npc_dialogue_packet npc type message_len message speaker = record {
  size = 65535;
  calls =
      u16 0x130
      ∷ u8 4
      ∷ u32 npc
      ∷ u8 (type_number type)
      ∷ u8 speaker
      ∷ sized_string message_len message
      ∷ buttons type;
}
