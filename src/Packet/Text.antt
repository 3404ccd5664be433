-- ===== src/Packet/Text.antt =====
-- src/packet.h: the packets that carry a text or a block of bytes of the caller, and the longest one
-- that their size has room for.
pub mod Room
use syrup.Base.{ℕ, ◌-◌, Bool, List}
use syrup.Writer.Encode.{calls_size}
use syrup.Packet.{Packet}
use syrup.Packet.Login.{login_success_packet, name_check_response_packet}
use syrup.Packet.Player.{move_player_packet, party_invite_packet}
use syrup.Packet.Notice.{
  NpcDialogueType, type_number, buttons, ok, yes_no, simple, next, prev_next, prev, accept_decilne,
  npc_action_packet, move_monster_packet, update_quest_packet, chat_packet, npc_dialogue_packet,
  npc_get_number_packet, popup_message_packet, server_message_packet, server_notice_packet,
  show_info_packet, show_intro_packet, play_sound_packet,
}

-- A call of a builder, with its arguments.
pub data TextPacket : Type 0 where
  login_success : ℕ → ℕ → ℕ → List ℕ → ℕ → TextPacket
  name_check_response : ℕ → List ℕ → Bool → TextPacket
  move_player : ℕ → ℕ → List ℕ → TextPacket
  party_invite : ℕ → ℕ → List ℕ → TextPacket
  npc_action : ℕ → List ℕ → TextPacket
  move_monster : ℕ → Bool → ℕ → ℕ → ℕ → ℕ → ℕ → List ℕ → TextPacket
  update_quest : ℕ → ℕ → List ℕ → TextPacket
  chat : ℕ → Bool → ℕ → List ℕ → ℕ → TextPacket
  npc_dialogue : ℕ → NpcDialogueType → ℕ → List ℕ → ℕ → TextPacket
  npc_get_number : ℕ → ℕ → List ℕ → ℕ → ℕ → ℕ → ℕ → TextPacket
  popup_message : ℕ → List ℕ → TextPacket
  server_message : ℕ → List ℕ → TextPacket
  server_notice : ℕ → List ℕ → TextPacket
  show_info : ℕ → List ℕ → TextPacket
  show_intro : ℕ → List ℕ → TextPacket
  play_sound : ℕ → List ℕ → TextPacket

unfoldable pub text_packet : TextPacket → Packet
text_packet (login_success id gender name_len name pic) =
    login_success_packet id gender name_len name pic
text_packet (name_check_response name_len name available) =
    name_check_response_packet name_len name available
text_packet (move_player id len bytes) = move_player_packet id len bytes
text_packet (party_invite party_id inviter_len inviter) =
    party_invite_packet party_id inviter_len inviter
text_packet (npc_action len bytes) = npc_action_packet len bytes
text_packet (move_monster oid skill_possible activity skill_id skill_level option len bytes) =
    move_monster_packet oid skill_possible activity skill_id skill_level option len bytes
text_packet (update_quest id len progress) = update_quest_packet id len progress
text_packet (chat id gm len string show) = chat_packet id gm len string show
text_packet (npc_dialogue npc type message_len message speaker) =
    npc_dialogue_packet npc type message_len message speaker
text_packet (npc_get_number npc message_len message speaker default lowest highest) =
    npc_get_number_packet npc message_len message speaker default lowest highest
text_packet (popup_message len message) = popup_message_packet len message
text_packet (server_message len message) = server_message_packet len message
text_packet (server_notice len message) = server_notice_packet len message
text_packet (show_info len path) = show_info_packet len path
text_packet (show_intro len path) = show_intro_packet len path
text_packet (play_sound len path) = play_sound_packet len path

-- The length that is given with the text, and what the pointer points at.
unfoldable pub text_len : TextPacket → ℕ
text_len (login_success id gender name_len name pic) = name_len
text_len (name_check_response name_len name available) = name_len
text_len (move_player id len bytes) = len
text_len (party_invite party_id inviter_len inviter) = inviter_len
text_len (npc_action len bytes) = len
text_len (move_monster oid skill_possible activity skill_id skill_level option len bytes) = len
text_len (update_quest id len progress) = len
text_len (chat id gm len string show) = len
text_len (npc_dialogue npc type message_len message speaker) = message_len
text_len (npc_get_number npc message_len message speaker default lowest highest) = message_len
text_len (popup_message len message) = len
text_len (server_message len message) = len
text_len (server_notice len message) = len
text_len (show_info len path) = len
text_len (show_intro len path) = len
text_len (play_sound len path) = len

unfoldable pub text_bytes : TextPacket → List ℕ
text_bytes (login_success id gender name_len name pic) = name
text_bytes (name_check_response name_len name available) = name
text_bytes (move_player id len bytes) = bytes
text_bytes (party_invite party_id inviter_len inviter) = inviter
text_bytes (npc_action len bytes) = bytes
text_bytes (move_monster oid skill_possible activity skill_id skill_level option len bytes) = bytes
text_bytes (update_quest id len progress) = progress
text_bytes (chat id gm len string show) = string
text_bytes (npc_dialogue npc type message_len message speaker) = message
text_bytes (npc_get_number npc message_len message speaker default lowest highest) = message
text_bytes (popup_message len message) = message
text_bytes (server_message len message) = message
text_bytes (server_notice len message) = message
text_bytes (show_info len path) = path
text_bytes (show_intro len path) = path
text_bytes (play_sound len path) = path

-- The longest text that the `*_PACKET_MAX_LENGTH` has room for; the packets of a movement and of an
-- NPC's action are as long as their text needs, and the length is of 16 bits.
unfoldable pub text_room : TextPacket → ℕ
text_room (login_success id gender name_len name pic) = 12
text_room (name_check_response name_len name available) = 12
text_room (move_player id len bytes) = 65535
text_room (party_invite party_id inviter_len inviter) = 12
text_room (npc_action len bytes) = 65535
text_room (move_monster oid skill_possible activity skill_id skill_level option len bytes) = 3830
text_room (update_quest id len progress) = 15
text_room (chat id gm len string show) = 80
text_room (npc_dialogue npc type message_len message speaker) = 65524 - calls_size (buttons type)
text_room (npc_get_number npc message_len message speaker default lowest highest) = 65508
text_room (popup_message len message) = 127
text_room (server_message len message) = 65530
text_room (server_notice len message) = 65526
text_room (show_info len path) = 119
text_room (show_intro len path) = 123
text_room (play_sound len path) = 123
