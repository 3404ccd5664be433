-- ===== src/Packet/Fixed.antt =====
-- src/packet.h: the packets whose length is a constant, and that length, which their senders use for
-- the buffer and for what is sent.
pub mod Exact
use syrup.Base.{ℕ, Bool}
use syrup.Packet.{Packet}
use syrup.Packet.Login.{
  login_failure_packet, pin_packet, server_list_end_packet, server_status_packet, channel_ip_packet,
  login_error_packet,
}
use syrup.Packet.Objects.{
  spawn_npc_packet, spawn_npc_controller_packet, spawn_monster_packet,
  spawn_monster_controller_packet, remove_monster_controller_packet, spawn_reactor_packet,
  change_reactor_state_packet, destroy_reactor_packet, move_monster_response_packet,
  monster_hp_packet, kill_monster_packet, drop_item_from_object_packet, spawn_item_drop_packet,
  remove_drop_packet, pickup_drop_packet, pet_pickup_drop_packet, drop_meso_from_object_packet,
  spawn_meso_drop_packet, boat_packet,
}
use syrup.Packet.Player.{
  set_gender_packet, remove_player_from_map_packet, shop_action_response, show_effect_packet,
  show_foreign_effect_packet, face_expression_packet, set_chair_packet, stand_up_packet,
  sit_on_map_seat_packet, party_status_message_packet, party_create_packet, party_disband_packet,
  change_map_packet, keymap_packet,
}
use syrup.Packet.Notice.{
  meso_gain_packet, meso_gain_in_chat_packet, item_gain_packet, item_gain_in_chat_packet,
  item_unavailable_notification_packet, inventory_full_notification_packet, start_quest_packet,
  end_quest_packet, forfeit_quest_packet, add_card_packet, update_skill_packet,
  update_quest_completion_time_packet, exp_gain_packet, exp_gain_in_chat_packet,
}

-- A call of a builder, with its arguments.
pub data FixedPacket : Type 0 where
  login_failure : ℕ → FixedPacket
  pin : ℕ → FixedPacket
  server_list_end : FixedPacket
  server_status : ℕ → FixedPacket
  channel_ip : ℕ → ℕ → ℕ → FixedPacket
  login_error : ℕ → FixedPacket
  spawn_npc : ℕ → ℕ → ℕ → ℕ → Bool → ℕ → ℕ → ℕ → FixedPacket
  spawn_npc_controller : ℕ → ℕ → ℕ → ℕ → Bool → ℕ → ℕ → ℕ → FixedPacket
  spawn_monster : ℕ → ℕ → ℕ → ℕ → ℕ → Bool → FixedPacket
  spawn_monster_controller : ℕ → Bool → ℕ → ℕ → ℕ → ℕ → Bool → FixedPacket
  remove_monster_controller : ℕ → FixedPacket
  spawn_reactor : ℕ → ℕ → ℕ → ℕ → ℕ → FixedPacket
  change_reactor_state : ℕ → ℕ → ℕ → ℕ → ℕ → FixedPacket
  destroy_reactor : ℕ → ℕ → ℕ → ℕ → FixedPacket
  move_monster_response : ℕ → ℕ → FixedPacket
  monster_hp : ℕ → ℕ → FixedPacket
  kill_monster : ℕ → Bool → FixedPacket
  drop_item_from_object : ℕ → ℕ → ℕ → ℕ → ℕ → ℕ → ℕ → ℕ → ℕ → Bool → FixedPacket
  spawn_item_drop : ℕ → ℕ → ℕ → ℕ → ℕ → ℕ → Bool → FixedPacket
  remove_drop : ℕ → FixedPacket
  pickup_drop : ℕ → Bool → ℕ → FixedPacket
  pet_pickup_drop : ℕ → Bool → ℕ → ℕ → FixedPacket
  drop_meso_from_object : ℕ → ℕ → ℕ → ℕ → ℕ → ℕ → ℕ → ℕ → ℕ → Bool → FixedPacket
  spawn_meso_drop : ℕ → ℕ → ℕ → ℕ → ℕ → ℕ → Bool → FixedPacket
  boat : Bool → FixedPacket
  set_gender : Bool → FixedPacket
  remove_player_from_map : ℕ → FixedPacket
  shop_action : ℕ → FixedPacket
  show_effect : ℕ → FixedPacket
  show_foreign_effect : ℕ → ℕ → FixedPacket
  face_expression : ℕ → ℕ → FixedPacket
  set_chair : ℕ → ℕ → FixedPacket
  stand_up : FixedPacket
  sit_on_map_seat : ℕ → FixedPacket
  party_status_message : ℕ → FixedPacket
  party_create : ℕ → FixedPacket
  party_disband : ℕ → ℕ → FixedPacket
  meso_gain : ℕ → FixedPacket
  meso_gain_in_chat : ℕ → FixedPacket
  item_gain : ℕ → ℕ → FixedPacket
  item_gain_in_chat : ℕ → ℕ → FixedPacket
  item_unavailable_notification : FixedPacket
  inventory_full_notification : FixedPacket
  start_quest : ℕ → ℕ → FixedPacket
  end_quest : ℕ → ℕ → ℕ → FixedPacket
  forfeit_quest : ℕ → FixedPacket
  change_map : ℕ → ℕ → ℕ → ℕ → ℕ → ℕ → FixedPacket
  keymap : (ℕ → ℕ) → (ℕ → ℕ) → FixedPacket
  add_card : Bool → ℕ → ℕ → FixedPacket
  update_skill : ℕ → ℕ → ℕ → FixedPacket
  update_quest_completion_time : ℕ → ℕ → ℕ → FixedPacket
  exp_gain : ℕ → ℕ → ℕ → Bool → FixedPacket
  exp_gain_in_chat : ℕ → ℕ → ℕ → Bool → FixedPacket

unfoldable pub fixed_packet : FixedPacket → Packet
fixed_packet (login_failure reason) = login_failure_packet reason
fixed_packet (pin mode) = pin_packet mode
fixed_packet server_list_end = server_list_end_packet
fixed_packet (server_status status) = server_status_packet status
fixed_packet (channel_ip addr port token) = channel_ip_packet addr port token
fixed_packet (login_error err) = login_error_packet err
fixed_packet (spawn_npc oid id x cy flip fh rx0 rx1) = spawn_npc_packet oid id x cy flip fh rx0 rx1
fixed_packet (spawn_npc_controller oid id x cy flip fh rx0 rx1) =
    spawn_npc_controller_packet oid id x cy flip fh rx0 rx1
fixed_packet (spawn_monster oid id x y fh is_new) = spawn_monster_packet oid id x y fh is_new
fixed_packet (spawn_monster_controller oid aggro id x y fh is_new) =
    spawn_monster_controller_packet oid aggro id x y fh is_new
fixed_packet (remove_monster_controller oid) = remove_monster_controller_packet oid
fixed_packet (spawn_reactor oid id x y state) = spawn_reactor_packet oid id x y state
fixed_packet (change_reactor_state oid state x y stance) =
    change_reactor_state_packet oid state x y stance
fixed_packet (destroy_reactor oid state x y) = destroy_reactor_packet oid state x y
fixed_packet (move_monster_response oid moveid) = move_monster_response_packet oid moveid
fixed_packet (monster_hp oid hp) = monster_hp_packet oid hp
fixed_packet (kill_monster oid animation) = kill_monster_packet oid animation
fixed_packet
      (drop_item_from_object oid item_id owner_id type from_x from_y to_x to_y dropper_oid
        player_drop) =
    drop_item_from_object_packet oid item_id owner_id type from_x from_y to_x to_y dropper_oid
      player_drop
fixed_packet (spawn_item_drop oid item_id owner_id type x y player_drop) =
    spawn_item_drop_packet oid item_id owner_id type x y player_drop
fixed_packet (remove_drop oid) = remove_drop_packet oid
fixed_packet (pickup_drop oid is_exploding char_id) = pickup_drop_packet oid is_exploding char_id
fixed_packet (pet_pickup_drop oid is_exploding char_id pet) =
    pet_pickup_drop_packet oid is_exploding char_id pet
fixed_packet
      (drop_meso_from_object oid meso owner_id type from_x from_y to_x to_y dropper_oid
        player_drop) =
    drop_meso_from_object_packet oid meso owner_id type from_x from_y to_x to_y dropper_oid
      player_drop
fixed_packet (spawn_meso_drop oid meso owner_id type x y player_drop) =
    spawn_meso_drop_packet oid meso owner_id type x y player_drop
fixed_packet (boat state) = boat_packet state
fixed_packet (set_gender gender) = set_gender_packet gender
fixed_packet (remove_player_from_map id) = remove_player_from_map_packet id
fixed_packet (shop_action code) = shop_action_response code
fixed_packet (show_effect effect) = show_effect_packet effect
fixed_packet (show_foreign_effect id effect) = show_foreign_effect_packet id effect
fixed_packet (face_expression id emote) = face_expression_packet id emote
fixed_packet (set_chair id chair_id) = set_chair_packet id chair_id
fixed_packet stand_up = stand_up_packet
fixed_packet (sit_on_map_seat id) = sit_on_map_seat_packet id
fixed_packet (party_status_message code) = party_status_message_packet code
fixed_packet (party_create party_id) = party_create_packet party_id
fixed_packet (party_disband party_id leader_id) = party_disband_packet party_id leader_id
fixed_packet (meso_gain amount) = meso_gain_packet amount
fixed_packet (meso_gain_in_chat amount) = meso_gain_in_chat_packet amount
fixed_packet (item_gain id amount) = item_gain_packet id amount
fixed_packet (item_gain_in_chat id amount) = item_gain_in_chat_packet id amount
fixed_packet item_unavailable_notification = item_unavailable_notification_packet
fixed_packet inventory_full_notification = inventory_full_notification_packet
fixed_packet (start_quest qid npc) = start_quest_packet qid npc
fixed_packet (end_quest qid npc next) = end_quest_packet qid npc next
fixed_packet (forfeit_quest qid) = forfeit_quest_packet qid
fixed_packet (change_map hp to portal sec usec gmtoff) =
    change_map_packet hp to portal sec usec gmtoff
fixed_packet (keymap type action) = keymap_packet type action
fixed_packet (add_card full id count) = add_card_packet full id count
fixed_packet (update_skill id level master_level) = update_skill_packet id level master_level
fixed_packet (update_quest_completion_time qid time gmtoff) =
    update_quest_completion_time_packet qid time gmtoff
fixed_packet (exp_gain exp equip_bonus party_bonus white) =
    exp_gain_packet exp equip_bonus party_bonus white
fixed_packet (exp_gain_in_chat exp equip_bonus party_bonus white) =
    exp_gain_in_chat_packet exp equip_bonus party_bonus white

-- The `*_PACKET_LENGTH` of the packet.
unfoldable pub fixed_length : FixedPacket → ℕ
fixed_length (login_failure reason) = 8
fixed_length (pin mode) = 3
fixed_length server_list_end = 3
fixed_length (server_status status) = 4
fixed_length (channel_ip addr port token) = 19
fixed_length (login_error err) = 4
fixed_length (spawn_npc oid id x cy flip fh rx0 rx1) = 22
fixed_length (spawn_npc_controller oid id x cy flip fh rx0 rx1) = 23
fixed_length (spawn_monster oid id x y fh is_new) = 42
fixed_length (spawn_monster_controller oid aggro id x y fh is_new) = 43
fixed_length (remove_monster_controller oid) = 7
fixed_length (spawn_reactor oid id x y state) = 18
fixed_length (change_reactor_state oid state x y stance) = 15
fixed_length (destroy_reactor oid state x y) = 11
fixed_length (move_monster_response oid moveid) = 13
fixed_length (monster_hp oid hp) = 7
fixed_length (kill_monster oid animation) = 8
fixed_length
      (drop_item_from_object oid item_id owner_id type from_x from_y to_x to_y dropper_oid
        player_drop) =
    40
fixed_length (spawn_item_drop oid item_id owner_id type x y player_drop) = 34
fixed_length (remove_drop oid) = 7
fixed_length (pickup_drop oid is_exploding char_id) = 11
fixed_length (pet_pickup_drop oid is_exploding char_id pet) = 12
fixed_length
      (drop_meso_from_object oid meso owner_id type from_x from_y to_x to_y dropper_oid
        player_drop) =
    32
fixed_length (spawn_meso_drop oid meso owner_id type x y player_drop) = 26
fixed_length (boat state) = 4
fixed_length (set_gender gender) = 3
fixed_length (remove_player_from_map id) = 6
fixed_length (shop_action code) = 3
fixed_length (show_effect effect) = 3
fixed_length (show_foreign_effect id effect) = 7
fixed_length (face_expression id emote) = 10
fixed_length (set_chair id chair_id) = 10
fixed_length stand_up = 3
fixed_length (sit_on_map_seat id) = 5
fixed_length (party_status_message code) = 3
fixed_length (party_create party_id) = 23
fixed_length (party_disband party_id leader_id) = 16
fixed_length (meso_gain amount) = 11
fixed_length (meso_gain_in_chat amount) = 9
fixed_length (item_gain id amount) = 20
fixed_length (item_gain_in_chat id amount) = 12
fixed_length item_unavailable_notification = 12
fixed_length inventory_full_notification = 12
fixed_length (start_quest qid npc) = 13
fixed_length (end_quest qid npc next) = 11
fixed_length (forfeit_quest qid) = 6
fixed_length (change_map hp to portal sec usec gmtoff) = 27
fixed_length (keymap type action) = 453
fixed_length (add_card full id count) = 11
fixed_length (update_skill id level master_level) = 26
fixed_length (update_quest_completion_time qid time gmtoff) = 14
fixed_length (exp_gain exp equip_bonus party_bonus white) = 36
fixed_length (exp_gain_in_chat exp equip_bonus party_bonus white) = 37
