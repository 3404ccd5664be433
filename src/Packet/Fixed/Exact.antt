-- ===== src/Packet/Fixed/Exact.antt =====
-- Every packet of a constant length fills its buffer.
use mathlib.Core.List.{append-nil}
use syrup.Base.{
  ℕ, zero, suc, ◌≤◌, ◌≡◌, refl, ap, ap₂, ◌∙◌, Bool, true, false, ◌&&◌, ◌==◌, some, List, [], ◌∷◌,
  ◌++◌, arith, length, drop, leb,
}
use syrup.Writer.{Call, bool, i8, u8, i16, u16, i32, u32, i64, u64, zeros, sized_string, array}
use syrup.Writer.Encode.{encode_all, AreReadable, calls_size}
use syrup.Packet.{Packet, send, send-encode, for_from}
use syrup.Packet.Fixed.{
  FixedPacket, fixed_packet, fixed_length, login_failure, pin, server_list_end, server_status,
  channel_ip, login_error, spawn_npc, spawn_npc_controller, spawn_monster, spawn_monster_controller,
  remove_monster_controller, spawn_reactor, change_reactor_state, destroy_reactor,
  move_monster_response, monster_hp, kill_monster, drop_item_from_object, spawn_item_drop,
  remove_drop, pickup_drop, pet_pickup_drop, drop_meso_from_object, spawn_meso_drop, boat,
  set_gender, remove_player_from_map, shop_action, show_effect, show_foreign_effect,
  face_expression, set_chair, stand_up, sit_on_map_seat, party_status_message, party_create,
  party_disband, meso_gain, meso_gain_in_chat, item_gain, item_gain_in_chat,
  item_unavailable_notification, inventory_full_notification, start_quest, end_quest, forfeit_quest,
  change_map, keymap, add_card, update_skill, update_quest_completion_time, exp_gain,
  exp_gain_in_chat,
}
use syrup.Packet.Login.{
  login_failure_packet, pin_packet, server_list_end_packet, server_status_packet, channel_ip_packet,
  login_error_packet,
}
use syrup.Packet.Objects.{
  spawn_npc_packet, spawn_npc_controller_packet, spawn_monster_packet,
  spawn_monster_controller_packet, remove_monster_controller_packet, spawn_reactor_packet,
  change_reactor_state_packet, destroy_reactor_packet, move_monster_response_packet,
  monster_hp_packet, kill_monster_packet, drop_item_from_object_packet, spawn_item_drop_packet,
  remove_drop_packet, pickup_drop_packet, pet_pickup_drop_packet, drop_meso_from_object_packet,
  spawn_meso_drop_packet, boat_packet,
}
use syrup.Packet.Player.{
  set_gender_packet, remove_player_from_map_packet, shop_action_response, show_effect_packet,
  show_foreign_effect_packet, face_expression_packet, set_chair_packet, stand_up_packet,
  sit_on_map_seat_packet, party_status_message_packet, party_create_packet, party_disband_packet,
  keymap_entry, change_map_packet, keymap_packet,
}
use syrup.Packet.Notice.{
  meso_gain_packet, meso_gain_in_chat_packet, item_gain_packet, item_gain_in_chat_packet,
  item_unavailable_notification_packet, inventory_full_notification_packet, start_quest_packet,
  end_quest_packet, forfeit_quest_packet, exp_gain_packet_internal, add_card_packet,
  update_skill_packet, update_quest_completion_time_packet, exp_gain_packet,
  exp_gain_in_chat_packet,
}

-- Calls with no pointer among their arguments.
abbrev has_pointer : Call → Bool
has_pointer (sized_string n bytes) = true
has_pointer (array n bytes) = true
has_pointer _ = false

abbrev are_plain : List Call → Bool
are_plain [] = true
are_plain (sized_string n bytes ∷ cs) = false
are_plain (array n bytes ∷ cs) = false
are_plain (_ ∷ cs) = are_plain cs

-- The calls need no pointer, their sizes make up the length, and `writer_init` was given at least it.
is_exact : Packet → ℕ → Bool
is_exact p n = are_plain p.calls && (calls_size p.calls == n) && leb n p.size

plain-AreReadable : (cs : List Call) → are_plain cs ≡ true → AreReadable cs
plain-AreReadable [] h = tt
plain-AreReadable (bool b ∷ cs) h = (tt, plain-AreReadable cs h)
plain-AreReadable (i8 x ∷ cs) h = (tt, plain-AreReadable cs h)
plain-AreReadable (u8 x ∷ cs) h = (tt, plain-AreReadable cs h)
plain-AreReadable (i16 x ∷ cs) h = (tt, plain-AreReadable cs h)
plain-AreReadable (u16 x ∷ cs) h = (tt, plain-AreReadable cs h)
plain-AreReadable (i32 x ∷ cs) h = (tt, plain-AreReadable cs h)
plain-AreReadable (u32 x ∷ cs) h = (tt, plain-AreReadable cs h)
plain-AreReadable (i64 x ∷ cs) h = (tt, plain-AreReadable cs h)
plain-AreReadable (u64 x ∷ cs) h = (tt, plain-AreReadable cs h)
plain-AreReadable (zeros x ∷ cs) h = (tt, plain-AreReadable cs h)
plain-AreReadable (sized_string n bytes ∷ cs) h = absurd (ground arith)
plain-AreReadable (array n bytes ∷ cs) h = absurd (ground arith)

drop-length {ℓ} : {A : Type ℓ} (n : ℕ) (xs : List A) → length xs ≡ n → drop n xs ≡ []
drop-length zero [] h = refl
drop-length zero (x ∷ xs) h = absurd (omega arith)
drop-length (suc n) [] h = refl
drop-length (suc n) (x ∷ xs) h = drop-length n xs (omega arith)

send-exact :
    (p : Packet) (n : ℕ) (memory : List ℕ)
    → is_exact p n ≡ true
    → length memory ≡ n
    → send p memory ≡ some (n, encode_all p.calls)
unfolding is_exact
send-exact p n memory h l =
    let parts : (are_plain p.calls ≡ true) × (calls_size p.calls ≡ n) × (n ≤ p.size) =
      ground arith in
    let sizes : calls_size p.calls ≤ length memory = omega arith in
    let sent = send-encode p memory (plain-AreReadable p.calls parts.0) (omega arith) sizes in
    sent
    ∙ ap₂ (λ m left. some (m, encode_all p.calls ++ left)) parts.1
        (drop-length (calls_size p.calls) memory (omega arith))
    ∙ ap (λ m. some (n, m)) (append-nil (encode_all p.calls))

fixed-is_exact : (p : FixedPacket) → is_exact (fixed_packet p) (fixed_length p) ≡ true
unfolding is_exact fixed_packet fixed_length for_from exp_gain_packet_internal keymap_entry
    login_failure_packet pin_packet server_list_end_packet server_status_packet channel_ip_packet
    login_error_packet spawn_npc_packet spawn_npc_controller_packet spawn_monster_packet
    spawn_monster_controller_packet remove_monster_controller_packet spawn_reactor_packet
    change_reactor_state_packet destroy_reactor_packet move_monster_response_packet
    monster_hp_packet kill_monster_packet drop_item_from_object_packet spawn_item_drop_packet
    remove_drop_packet pickup_drop_packet pet_pickup_drop_packet drop_meso_from_object_packet
    spawn_meso_drop_packet boat_packet set_gender_packet remove_player_from_map_packet
    shop_action_response show_effect_packet show_foreign_effect_packet face_expression_packet
    set_chair_packet stand_up_packet sit_on_map_seat_packet party_status_message_packet
    party_create_packet party_disband_packet meso_gain_packet meso_gain_in_chat_packet
    item_gain_packet item_gain_in_chat_packet item_unavailable_notification_packet
    inventory_full_notification_packet start_quest_packet end_quest_packet forfeit_quest_packet
    change_map_packet keymap_packet add_card_packet update_skill_packet
    update_quest_completion_time_packet exp_gain_packet exp_gain_in_chat_packet
fixed-is_exact (login_failure reason) = refl
fixed-is_exact (pin mode) = refl
fixed-is_exact server_list_end = refl
fixed-is_exact (server_status status) = refl
fixed-is_exact (channel_ip addr port token) = refl
fixed-is_exact (login_error err) = refl
fixed-is_exact (spawn_npc oid id x cy flip fh rx0 rx1) = refl
fixed-is_exact (spawn_npc_controller oid id x cy flip fh rx0 rx1) = refl
fixed-is_exact (spawn_monster oid id x y fh is_new) = refl
fixed-is_exact (spawn_monster_controller oid aggro id x y fh is_new) = refl
fixed-is_exact (remove_monster_controller oid) = refl
fixed-is_exact (spawn_reactor oid id x y state) = refl
fixed-is_exact (change_reactor_state oid state x y stance) = refl
fixed-is_exact (destroy_reactor oid state x y) = refl
fixed-is_exact (move_monster_response oid moveid) = refl
fixed-is_exact (monster_hp oid hp) = refl
fixed-is_exact (kill_monster oid animation) = refl
fixed-is_exact
      (drop_item_from_object oid item_id owner_id type from_x from_y to_x to_y dropper_oid
        player_drop) =
    refl
fixed-is_exact (spawn_item_drop oid item_id owner_id type x y player_drop) = refl
fixed-is_exact (remove_drop oid) = refl
fixed-is_exact (pickup_drop oid is_exploding char_id) = refl
fixed-is_exact (pet_pickup_drop oid is_exploding char_id pet) = refl
fixed-is_exact
      (drop_meso_from_object oid meso owner_id type from_x from_y to_x to_y dropper_oid
        player_drop) =
    refl
fixed-is_exact (spawn_meso_drop oid meso owner_id type x y player_drop) = refl
fixed-is_exact (boat state) = refl
fixed-is_exact (set_gender gender) = refl
fixed-is_exact (remove_player_from_map id) = refl
fixed-is_exact (shop_action code) = refl
fixed-is_exact (show_effect effect) = refl
fixed-is_exact (show_foreign_effect id effect) = refl
fixed-is_exact (face_expression id emote) = refl
fixed-is_exact (set_chair id chair_id) = refl
fixed-is_exact stand_up = refl
fixed-is_exact (sit_on_map_seat id) = refl
fixed-is_exact (party_status_message code) = refl
fixed-is_exact (party_create party_id) = refl
fixed-is_exact (party_disband party_id leader_id) = refl
fixed-is_exact (meso_gain amount) = refl
fixed-is_exact (meso_gain_in_chat amount) = refl
fixed-is_exact (item_gain id amount) = refl
fixed-is_exact (item_gain_in_chat id amount) = refl
fixed-is_exact item_unavailable_notification = refl
fixed-is_exact inventory_full_notification = refl
fixed-is_exact (start_quest qid npc) = refl
fixed-is_exact (end_quest qid npc next) = refl
fixed-is_exact (forfeit_quest qid) = refl
fixed-is_exact (change_map hp to portal sec usec gmtoff) = refl
fixed-is_exact (keymap type action) = refl
fixed-is_exact (add_card full id count) = refl
fixed-is_exact (update_skill id level master_level) = refl
fixed-is_exact (update_quest_completion_time qid time gmtoff) = refl
fixed-is_exact (exp_gain exp equip_bonus party_bonus white) = refl
fixed-is_exact (exp_gain_in_chat exp equip_bonus party_bonus white) = refl

-- In a buffer of the packet's constant length, the builder of every packet of a constant length
-- returns, its calls make up the whole length, and they fill the whole buffer: nothing is written
-- behind it, and no byte of it is sent as it was before.
pub fixed_packet-send :
    (p : FixedPacket) (memory : List ℕ)
    → length memory ≡ fixed_length p
    → send (fixed_packet p) memory ≡ some (fixed_length p, encode_all (fixed_packet p).calls)
fixed_packet-send p memory h =
    send-exact (fixed_packet p) (fixed_length p) memory (fixed-is_exact p) h
