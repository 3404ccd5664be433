-- ===== src/Tests/Packets.antt =====
-- Packets that are built, read and refused.
use syrup.Base.{
  ℕ, ◌≤◌, ◌≡◌, refl, true, Option, some, List, [], ◌∷◌, ◌++◌, arith, length, drop, replicate,
  length-replicate,
}
use syrup.Writer.{build}
use syrup.Writer.Encode.{encode_all, calls_size}
use syrup.Reader.{Reader, reader_init, reader_end}
use syrup.Reader.RoundTrip.{
  Field, byte, whole, text, AreFields, write, write_all, read_all, read_all-build,
}
use syrup.Reader.Bounds.{IsWithin, read_all-IsWithin}
use syrup.Packet.{send}
use syrup.Packet.Fixed.{monster_hp, fixed_packet, fixed_length}
use syrup.Packet.Fixed.Exact.{fixed_packet-send}
use syrup.Packet.Text.{TextPacket, popup_message, text_packet, text_len, text_bytes, text_room}
use syrup.Packet.Notice.{popup_message_packet}
use syrup.Packet.Text.Room.{text_packet-send}
use syrup.Packet.StatChange.{stat_change_packet}
use syrup.Packet.StatChange.Room.{stat_change_packet-send}

abbrev zeros_of : ℕ → List ℕ
zeros_of n = replicate n 0

abbrev message : List Field
message = byte 7 ∷ text 12 (65 ∷ 66 ∷ []) ∷ whole 70000 ∷ []

message-AreFields : AreFields message
message-AreFields = (omega arith, ((omega arith, omega arith), (omega arith, tt)))

message_fits : calls_size (write_all message) ≤ 16
unfolding write_all write
message_fits = omega arith

read_all-build_example :
    (m : List ℕ) × (r : Reader) × (build 16 (write_all message) (zeros_of 16)
      ≡ some (calls_size (write_all message), m))
    × (read_all message (reader_init (calls_size (write_all message)) m) ≡ some (some message, r))
    × (reader_end r ≡ true)
read_all-build_example =
    read_all-build message 16 (zeros_of 16) message-AreFields message_fits (omega arith)
      (omega arith)

-- Three bytes that end in the length of a text.
abbrev cut_off : Reader
cut_off = record { size = 3; pos = 0; packet = 7 ∷ 9 ∷ 0 ∷ [] }

cut_off-IsWithin : IsWithin cut_off
cut_off-IsWithin = record {
  inside = omega arith;
  backed = omega arith;
  small = omega arith;
  of_bytes = (omega arith, (omega arith, (omega arith, tt)));
}

read_all-IsWithin_example :
    (o : Option (List Field)) × (s : Reader) × (read_all message cut_off ≡ some (o, s))
    × (s.packet ≡ cut_off.packet)
    × (s.size ≡ cut_off.size)
    × IsWithin s
read_all-IsWithin_example = read_all-IsWithin message cut_off message-AreFields cut_off-IsWithin

seven_bytes : length (zeros_of 7) ≡ fixed_length (monster_hp 5 100)
seven_bytes = unfold fixed_length in refl

fixed_packet-send_example :
    send (fixed_packet (monster_hp 5 100)) (zeros_of 7)
    ≡ some (fixed_length (monster_hp 5 100), encode_all (fixed_packet (monster_hp 5 100)).calls)
fixed_packet-send_example = fixed_packet-send (monster_hp 5 100) (zeros_of 7) seven_bytes

abbrev popup : ℕ → TextPacket
popup n = popup_message n (replicate n 65)

popup_facts :
    (n : ℕ)
    → (text_len (popup n) ≡ n)
      × (text_room (popup n) ≡ 127)
      × (length (text_bytes (popup n)) ≡ n)
      × (132 ≡ (text_packet (popup n)).size)
unfolding text_packet text_len text_bytes text_room popup_message_packet
popup_facts n = (refl, refl, length-replicate n 65, refl)

text_packet-send_example :
    send (text_packet (popup 3)) (zeros_of 132)
    ≡ some (
      calls_size (text_packet (popup 3)).calls,
      encode_all (text_packet (popup 3)).calls
          ++ drop (calls_size (text_packet (popup 3)).calls) (zeros_of 132),
    )
text_packet-send_example =
    text_packet-send (popup 3) (zeros_of 132) (omega (arith, popup_facts 3))
      (omega (arith, popup_facts 3)) (omega (arith, popup_facts 3)) (popup_facts 3).3

stat_change_packet-send_example :
    send (stat_change_packet true 0x1400 (λ i. 30)) (zeros_of 57)
    ≡ some (
      calls_size ((stat_change_packet true 0x1400 (λ i. 30)).calls),
      encode_all ((stat_change_packet true 0x1400 (λ i. 30)).calls)
          ++ drop (calls_size ((stat_change_packet true 0x1400 (λ i. 30)).calls)) (zeros_of 57),
    )
stat_change_packet-send_example = stat_change_packet-send true 0x1400 (λ i. 30) (zeros_of 57) refl
