-- ===== src/Packet/Text/Room.antt =====
-- The packets with a text or a block beside their sizes in src/packet.h.
use syrup.Base.{ℕ, ◌≤◌, ◌<◌, ◌≡◌, none, some, List, ◌++◌, arith, length, drop}
use syrup.Writer.Encode.{encode_all, AreReadable, calls_size}
use syrup.Writer.Refusal.{build-refused}
use syrup.Packet.{send, send-encode}
use syrup.Packet.Login.{login_success_packet, name_check_response_packet}
use syrup.Packet.Player.{move_player_packet, party_invite_packet}
use syrup.Packet.Notice.{
  ok, yes_no, simple, next, prev_next, prev, accept_decilne, npc_action_packet, move_monster_packet,
  update_quest_packet, chat_packet, npc_dialogue_packet, npc_get_number_packet,
  popup_message_packet, server_message_packet, server_notice_packet, show_info_packet,
  show_intro_packet, play_sound_packet,
}
use syrup.Packet.Text.{
  TextPacket, text_packet, text_len, text_bytes, text_room, login_success, name_check_response,
  move_player, party_invite, npc_action, move_monster, update_quest, chat, npc_dialogue,
  npc_get_number, popup_message, server_message, server_notice, show_info, show_intro, play_sound,
}

text-AreReadable :
    (p : TextPacket)
    → text_len p < 65536
    → text_len p ≤ length (text_bytes p)
    → AreReadable (text_packet p).calls
unfolding text_packet text_len text_bytes login_success_packet name_check_response_packet
    move_player_packet party_invite_packet npc_action_packet move_monster_packet update_quest_packet
    chat_packet npc_dialogue_packet npc_get_number_packet popup_message_packet server_message_packet
    server_notice_packet show_info_packet show_intro_packet play_sound_packet
text-AreReadable (login_success id gender name_len name pic) short h = ground arith
text-AreReadable (name_check_response name_len name available) short h = ground arith
text-AreReadable (move_player id len bytes) short h = ground arith
text-AreReadable (party_invite party_id inviter_len inviter) short h = ground arith
text-AreReadable (npc_action len bytes) short h = ground arith
text-AreReadable (move_monster oid skill_possible activity skill_id skill_level option len bytes)
      short h =
    ground arith
text-AreReadable (update_quest id len progress) short h = ground arith
text-AreReadable (chat id gm len string show) short h = ground arith
text-AreReadable (npc_dialogue npc ok message_len message speaker) short h = ground arith
text-AreReadable (npc_dialogue npc yes_no message_len message speaker) short h = ground arith
text-AreReadable (npc_dialogue npc simple message_len message speaker) short h = ground arith
text-AreReadable (npc_dialogue npc next message_len message speaker) short h = ground arith
text-AreReadable (npc_dialogue npc prev_next message_len message speaker) short h = ground arith
text-AreReadable (npc_dialogue npc prev message_len message speaker) short h = ground arith
text-AreReadable (npc_dialogue npc accept_decilne message_len message speaker) short h =
    ground arith
text-AreReadable (npc_get_number npc message_len message speaker default lowest highest) short h =
    ground arith
text-AreReadable (popup_message len message) short h = ground arith
text-AreReadable (server_message len message) short h = ground arith
text-AreReadable (server_notice len message) short h = ground arith
text-AreReadable (show_info len path) short h = ground arith
text-AreReadable (show_intro len path) short h = ground arith
text-AreReadable (play_sound len path) short h = ground arith

-- The bytes of a packet are within its size exactly when the text is within its room.
text-room :
    (p : TextPacket)
    → text_len p < 65536
    → (text_len p ≤ text_room p → calls_size (text_packet p).calls ≤ (text_packet p).size)
      × (text_room p < text_len p → (text_packet p).size < calls_size (text_packet p).calls)
unfolding text_packet text_len text_bytes text_room login_success_packet name_check_response_packet
    move_player_packet party_invite_packet npc_action_packet move_monster_packet update_quest_packet
    chat_packet npc_dialogue_packet npc_get_number_packet popup_message_packet server_message_packet
    server_notice_packet show_info_packet show_intro_packet play_sound_packet
text-room (login_success id gender name_len name pic) short = (λ h. omega arith, λ h. omega arith)
text-room (name_check_response name_len name available) short = (λ h. omega arith, λ h. omega arith)
text-room (move_player id len bytes) short = (λ h. omega arith, λ h. omega arith)
text-room (party_invite party_id inviter_len inviter) short = (λ h. omega arith, λ h. omega arith)
text-room (npc_action len bytes) short = (λ h. omega arith, λ h. omega arith)
text-room (move_monster oid skill_possible activity skill_id skill_level option len bytes) short =
    (λ h. omega arith, λ h. omega arith)
text-room (update_quest id len progress) short = (λ h. omega arith, λ h. omega arith)
text-room (chat id gm len string show) short = (λ h. omega arith, λ h. omega arith)
text-room (npc_dialogue npc ok message_len message speaker) short =
    (λ h. omega arith, λ h. omega arith)
text-room (npc_dialogue npc yes_no message_len message speaker) short =
    (λ h. omega arith, λ h. omega arith)
text-room (npc_dialogue npc simple message_len message speaker) short =
    (λ h. omega arith, λ h. omega arith)
text-room (npc_dialogue npc next message_len message speaker) short =
    (λ h. omega arith, λ h. omega arith)
text-room (npc_dialogue npc prev_next message_len message speaker) short =
    (λ h. omega arith, λ h. omega arith)
text-room (npc_dialogue npc prev message_len message speaker) short =
    (λ h. omega arith, λ h. omega arith)
text-room (npc_dialogue npc accept_decilne message_len message speaker) short =
    (λ h. omega arith, λ h. omega arith)
text-room (npc_get_number npc message_len message speaker default lowest highest) short =
    (λ h. omega arith, λ h. omega arith)
text-room (popup_message len message) short = (λ h. omega arith, λ h. omega arith)
text-room (server_message len message) short = (λ h. omega arith, λ h. omega arith)
text-room (server_notice len message) short = (λ h. omega arith, λ h. omega arith)
text-room (show_info len path) short = (λ h. omega arith, λ h. omega arith)
text-room (show_intro len path) short = (λ h. omega arith, λ h. omega arith)
text-room (play_sound len path) short = (λ h. omega arith, λ h. omega arith)

-- A text that is there as long as is said, of a length of 16 bits that the packet has room for, is
-- sent in a buffer of the packet's size: the builder returns its bytes' number, and they stand at
-- the start of the buffer.
pub text_packet-send :
    (p : TextPacket) (memory : List ℕ)
    → text_len p < 65536
    → text_len p ≤ length (text_bytes p)
    → text_len p ≤ text_room p
    → length memory ≡ (text_packet p).size
    → send (text_packet p) memory
      ≡ some (
        calls_size (text_packet p).calls,
        encode_all (text_packet p).calls ++ drop (calls_size (text_packet p).calls) memory,
      )
text_packet-send p memory short readable fits exact =
    let room = (text-room p short).0 fits in
    send-encode (text_packet p) memory (text-AreReadable p short readable) room (omega arith)

-- A longer text never returns a packet from a buffer of the packet's size: an assertion fails.
text_packet-refused :
    (p : TextPacket) (memory : List ℕ)
    → text_len p < 65536
    → text_len p ≤ length (text_bytes p)
    → text_room p < text_len p
    → length memory ≡ (text_packet p).size
    → send (text_packet p) memory ≡ none
unfolding send
text_packet-refused p memory short readable long exact =
    build-refused (text_packet p).size (text_packet p).calls memory
      (text-AreReadable p short readable) exact ((text-room p short).1 long)
