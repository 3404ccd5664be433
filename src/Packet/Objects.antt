-- ===== src/Packet/Objects.antt =====
-- src/packet.c: the packets on the objects of a map: NPCs, monsters, reactors, drops and the boat.
use syrup.Base.{ℕ, Bool, true, false, not, [], ◌∷◌, if◌then◌else◌}
use syrup.Writer.{bool, i8, u8, i16, u16, i32, u32, u64, zeros}
use syrup.Packet.{Packet}

unfoldable pub spawn_npc_packet : (oid id x cy : ℕ) (flip : Bool) (fh rx0 rx1 : ℕ) → Packet
spawn_npc_packet oid id x cy flip fh rx0 rx1 = record {
  size = 22;
  calls =
      u16 0x101
      ∷ u32 oid
      ∷ u32 id
      ∷ i16 x
      ∷ i16 cy
      ∷ u8 (if flip then 0 else 1)
      ∷ u16 fh
      ∷ i16 rx0
      ∷ i16 rx1
      ∷ u8 1
      ∷ [];
}

unfoldable pub spawn_npc_controller_packet :
    (oid id x cy : ℕ) (flip : Bool) (fh rx0 rx1 : ℕ) → Packet
spawn_npc_controller_packet oid id x cy flip fh rx0 rx1 = record {
  size = 23;
  calls =
      u16 0x103
      ∷ u8 1
      ∷ u32 oid
      ∷ u32 id
      ∷ i16 x
      ∷ i16 cy
      ∷ u8 (if flip then 0 else 1)
      ∷ u16 fh
      ∷ i16 rx0
      ∷ i16 rx1
      ∷ bool true
      ∷ [];
}

unfoldable pub spawn_monster_packet : (oid id x y fh : ℕ) (is_new : Bool) → Packet
spawn_monster_packet oid id x y fh is_new = record {
  size = 42;
  calls =
      u16 0xec
      ∷ u32 oid
      ∷ u8 5
      ∷ u32 id
      ∷ zeros 16
      ∷ i16 x
      ∷ i16 y
      ∷ u8 5
      ∷ i16 0
      ∷ u16 fh
      ∷ i8 (if is_new then 254 else 255)
      ∷ i8 255
      ∷ u32 0
      ∷ [];
}

unfoldable pub spawn_monster_controller_packet :
    (oid : ℕ) (aggro : Bool) (id x y fh : ℕ) (is_new : Bool) → Packet
spawn_monster_controller_packet oid aggro id x y fh is_new = record {
  size = 43;
  calls =
      u16 0xee
      ∷ u8 (if aggro then 2 else 1)
      ∷ u32 oid
      ∷ u8 1
      ∷ u32 id
      ∷ zeros 16
      ∷ i16 x
      ∷ i16 y
      ∷ u8 5
      ∷ i16 0
      ∷ u16 fh
      ∷ i8 (if is_new then 254 else 255)
      ∷ i8 255
      ∷ u32 0
      ∷ [];
}

unfoldable pub remove_monster_controller_packet : (oid : ℕ) → Packet
remove_monster_controller_packet oid = record { size = 7; calls = u16 0xee ∷ u8 0 ∷ u32 oid ∷ [] }

unfoldable pub spawn_reactor_packet : (oid id x y state : ℕ) → Packet
spawn_reactor_packet oid id x y state = record {
  size = 18;
  calls = u16 0x117 ∷ u32 oid ∷ u32 id ∷ u8 state ∷ i16 x ∷ i16 y ∷ u8 0 ∷ u16 0 ∷ [];
}

unfoldable pub change_reactor_state_packet : (oid state x y stance : ℕ) → Packet
change_reactor_state_packet oid state x y stance = record {
  size = 15;
  calls = u16 0x115 ∷ u32 oid ∷ u8 state ∷ i16 x ∷ i16 y ∷ u8 stance ∷ u16 0 ∷ u8 5 ∷ [];
}

unfoldable pub destroy_reactor_packet : (oid state x y : ℕ) → Packet
destroy_reactor_packet oid state x y = record {
  size = 11;
  calls = u16 0x118 ∷ u32 oid ∷ u8 state ∷ i16 x ∷ i16 y ∷ [];
}

unfoldable pub move_monster_response_packet : (oid moveid : ℕ) → Packet
move_monster_response_packet oid moveid = record {
  size = 13;
  calls = u16 0xf0 ∷ u32 oid ∷ u16 moveid ∷ bool true ∷ i16 100 ∷ u8 0 ∷ u8 0 ∷ [];
}

unfoldable pub monster_hp_packet : (oid hp : ℕ) → Packet
monster_hp_packet oid hp = record { size = 7; calls = u16 0xfa ∷ u32 oid ∷ u8 hp ∷ [] }

unfoldable pub kill_monster_packet : (oid : ℕ) (animation : Bool) → Packet
kill_monster_packet oid animation = record {
  size = 8;
  calls = u16 0xed ∷ u32 oid ∷ bool animation ∷ bool animation ∷ [];
}

unfoldable pub drop_item_from_object_packet :
    (oid item_id owner_id type from_x from_y to_x to_y dropper_oid : ℕ) (player_drop : Bool)
    → Packet
drop_item_from_object_packet oid item_id owner_id type from_x from_y to_x to_y dropper_oid
      player_drop =
    record {
      size = 40;
      calls =
          u16 0x10c
          ∷ u8 1
          ∷ u32 oid
          ∷ bool false
          ∷ u32 item_id
          ∷ u32 owner_id
          ∷ u8 type
          ∷ i16 to_x
          ∷ i16 to_y
          ∷ u32 dropper_oid
          ∷ i16 from_x
          ∷ i16 from_y
          ∷ u16 0
          ∷ u64 150842304000000000
          ∷ bool (not player_drop)
          ∷ [];
    }

unfoldable pub spawn_item_drop_packet :
    (oid item_id owner_id type x y : ℕ) (player_drop : Bool) → Packet
spawn_item_drop_packet oid item_id owner_id type x y player_drop = record {
  size = 34;
  calls =
      u16 0x10c
      ∷ u8 2
      ∷ u32 oid
      ∷ bool false
      ∷ u32 item_id
      ∷ u32 owner_id
      ∷ u8 type
      ∷ i16 x
      ∷ i16 y
      ∷ u32 0
      ∷ u64 150842304000000000
      ∷ bool (not player_drop)
      ∷ [];
}

unfoldable pub remove_drop_packet : (oid : ℕ) → Packet
remove_drop_packet oid = record { size = 7; calls = u16 0x10d ∷ u8 0 ∷ u32 oid ∷ [] }

unfoldable pub pickup_drop_packet : (oid : ℕ) (is_exploding : Bool) (char_id : ℕ) → Packet
pickup_drop_packet oid is_exploding char_id = record {
  size = 11;
  calls = u16 0x10d ∷ u8 (if is_exploding then 4 else 2) ∷ u32 oid ∷ u32 char_id ∷ [];
}

unfoldable pub pet_pickup_drop_packet : (oid : ℕ) (is_exploding : Bool) (char_id pet : ℕ) → Packet
pet_pickup_drop_packet oid is_exploding char_id pet = record {
  size = 12;
  calls = u16 0x10d ∷ u8 (if is_exploding then 4 else 2) ∷ u32 oid ∷ u32 char_id ∷ u8 pet ∷ [];
}

unfoldable pub drop_meso_from_object_packet :
    (oid meso owner_id type from_x from_y to_x to_y dropper_oid : ℕ) (player_drop : Bool) → Packet
drop_meso_from_object_packet oid meso owner_id type from_x from_y to_x to_y dropper_oid
      player_drop =
    record {
      size = 32;
      calls =
          u16 0x10c
          ∷ u8 1
          ∷ u32 oid
          ∷ bool true
          ∷ i32 meso
          ∷ u32 owner_id
          ∷ u8 type
          ∷ i16 to_x
          ∷ i16 to_y
          ∷ u32 dropper_oid
          ∷ i16 from_x
          ∷ i16 from_y
          ∷ u16 0
          ∷ bool (not player_drop)
          ∷ [];
    }

unfoldable pub spawn_meso_drop_packet :
    (oid meso owner_id type x y : ℕ) (player_drop : Bool) → Packet
spawn_meso_drop_packet oid meso owner_id type x y player_drop = record {
  size = 26;
  calls =
      u16 0x10c
      ∷ u8 2
      ∷ u32 oid
      ∷ bool true
      ∷ i32 meso
      ∷ u32 owner_id
      ∷ u8 type
      ∷ i16 x
      ∷ i16 y
      ∷ u32 0
      ∷ bool (not player_drop)
      ∷ [];
}

unfoldable pub boat_packet : (state : Bool) → Packet
boat_packet state = record { size = 4; calls = u16 0x95 ∷ u8 (if state then 1 else 2) ∷ u8 0 ∷ [] }
