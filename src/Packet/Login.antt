-- ===== src/Packet/Login.antt =====
-- src/packet.c: the packets of the login server.
use syrup.Base.{ℕ, Bool, false, List, [], ◌∷◌, ◌++◌, if◌then◌else◌}
use syrup.Writer.{Call, bool, u8, u16, u32, u64, zeros, sized_string}
use syrup.Base.{◌+◌, Option, none, some, get_elem?, length}
use syrup.Packet.{Packet}

unfoldable pub login_success_packet : (id gender name_len : ℕ) (name : List ℕ) (pic : ℕ) → Packet
login_success_packet id gender name_len name pic = record {
  size = 54;
  calls =
      u16 0
      ∷ zeros 6
      ∷ u32 id
      ∷ u8 gender
      ∷ u8 0
      ∷ u8 0
      ∷ u8 0
      ∷ sized_string name_len name
      ∷ u8 0
      ∷ u8 0
      ∷ u64 0
      ∷ u64 0
      ∷ u32 1
      ∷ u8 1
      ∷ u8 pic
      ∷ [];
}

unfoldable pub login_failure_packet : (reason : ℕ) → Packet
login_failure_packet reason = record { size = 8; calls = u16 0 ∷ u16 reason ∷ u32 0 ∷ [] }

unfoldable pub pin_packet : (mode : ℕ) → Packet
pin_packet mode = record { size = 3; calls = u16 0x6 ∷ u8 mode ∷ [] }

unfoldable pub server_list_end_packet : Packet
server_list_end_packet = record { size = 3; calls = u16 0xa ∷ u8 0xff ∷ [] }

unfoldable pub server_status_packet : (status : ℕ) → Packet
server_status_packet status = record { size = 4; calls = u16 0x3 ∷ u16 status ∷ [] }

unfoldable pub channel_ip_packet : (addr port token : ℕ) → Packet
channel_ip_packet addr port token = record {
  size = 19;
  calls = u16 0xc ∷ u16 0 ∷ u32 addr ∷ u16 port ∷ u32 token ∷ zeros 5 ∷ [];
}

unfoldable pub login_error_packet : (err : ℕ) → Packet
login_error_packet err = record { size = 4; calls = u16 0x9 ∷ u16 err ∷ [] }

unfoldable pub name_check_response_packet :
    (name_len : ℕ) (name : List ℕ) (available : Bool) → Packet
name_check_response_packet name_len name available = record {
  size = 17;
  calls = u16 0xd ∷ sized_string name_len name ∷ u8 (if available then 0 else 1) ∷ [];
}

-- "Scania" and "Bera".
abbrev pub world_names : List (List ℕ)
world_names = (83 ∷ 99 ∷ 97 ∷ 110 ∷ 105 ∷ 97 ∷ []) ∷ (66 ∷ 101 ∷ 114 ∷ 97 ∷ []) ∷ []

-- One of the two channels: its name is its digit.
channel_entry : (world channel : ℕ) → List Call
channel_entry world channel =
    sized_string 1 ((48 + channel) ∷ []) ∷ u32 0 ∷ u8 world ∷ u8 channel ∷ bool false ∷ []

-- A world that has no name is an access out of the table.
unfoldable pub server_list_packet : (world flag mes_len : ℕ) (mes : List ℕ) → Option Packet
unfolding channel_entry
server_list_packet world flag mes_len mes = elim (get_elem? world_names world) [
  | none ↦ none
  | some name ↦ some record {
    size = 65535;
    calls =
        u16 0xa
        ∷ u8 world
        ∷ sized_string (length name) name
        ∷ u8 flag
        ∷ sized_string mes_len mes
        ∷ u8 100
        ∷ u8 0
        ∷ u8 100
        ∷ u8 0
        ∷ u8 0
        ∷ u8 2
        ∷ (channel_entry world 0 ++ (channel_entry world 1 ++ (u16 0 ∷ [])));
  }
]
