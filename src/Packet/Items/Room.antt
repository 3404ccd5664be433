-- ===== src/Packet/Items/Room.antt =====
-- The sizes of the packets of changed items and of a look beside those of src/packet.h.
use syrup.Base.{
  ℕ, zero, suc, ◌+◌, ◌*◌, ◌≤◌, ◌≡◌, Bool, true, false, not, ◌&&◌, ◌==◌, if◌then◌else◌, some, List,
  [], ◌∷◌, ◌++◌, arith, length, drop,
}
use syrup.Writer.{Call, u8, u32}
use syrup.Writer.Encode.{calls_size-append, append-AreReadable, encode_all, AreReadable, calls_size}
use syrup.Packet.{send, send-encode, for_from}
use syrup.Item.{item_is_rechargeable, equip_slot_to_compact}
use syrup.Character.{Character}
use syrup.Packet.Items.{
  CharacterAppearance, character_to_character_appearance, fault, worn_calls, writer_char_appearance,
  update_char_look_packet, InventoryModify, add_item, add_equip, modify,
}

-- The slot that is followed by the end of the first equipment adds a byte.
abbrev mark : ℕ → ℕ
mark i = if i == 17 then 1 else 0

worn_calls-size :
    (a : CharacterAppearance) (i : ℕ)
    → AreReadable (worn_calls a i) × (calls_size (worn_calls a i) ≤ 5 + mark i)
unfolding worn_calls
worn_calls-size a i = ground arith

abbrev marks : (from n : ℕ) → ℕ
marks from zero = 0
marks from (suc n) = mark from + marks (suc from) n

worn_size :
    (a : CharacterAppearance) (from n : ℕ)
    → AreReadable (for_from from n (worn_calls a))
      × (calls_size (for_from from n (worn_calls a)) ≤ 5 * n + marks from n)
unfolding for_from
worn_size a from zero = (_, omega arith)
worn_size a from (suc n) =
    let one = worn_calls-size a from in
    let rest = worn_size a (suc from) n in
    let cs = worn_calls a from in
    let ds = for_from (suc from) n (worn_calls a) in
    (append-AreReadable cs ds one.0 rest.0, omega (arith, calls_size-append cs ds, one.1, rest.1))

look_size :
    (chr : Character)
    → AreReadable (update_char_look_packet chr).calls
      × (calls_size (update_char_look_packet chr).calls ≤ 363)
unfolding update_char_look_packet writer_char_appearance
look_size chr =
    let a = character_to_character_appearance chr in
    let worn = worn_size a 0 64 in
    let ff = for_from 0 64 (worn_calls a) in
    let weapon = equip_slot_to_compact 111 in
    let t =
      u8 255 ∷ u32 (if a.is_empty weapon then 0 else a.id weapon) ∷ u32 0 ∷ u32 0 ∷ u32 0 ∷ [] in
    let end = u8 0 ∷ u8 0 ∷ u8 0 ∷ u32 0 ∷ [] in
    let r =
      append-AreReadable (ff ++ t) end (append-AreReadable ff t worn.0 (ground arith))
        (ground arith) in
    (
      (_, (_, (_, (_, (_, (_, (_, (_, r)))))))),
      omega (arith, calls_size-append (ff ++ t) end, calls_size-append ff t, worn.1),
    )

-- The look of every character is sent whole.
pub update_char_look_packet-send :
    (chr : Character) (memory : List ℕ)
    → 363 ≤ length memory
    → send (update_char_look_packet chr) memory
      ≡ some (
        calls_size (update_char_look_packet chr).calls,
        encode_all (update_char_look_packet chr).calls
            ++ drop (calls_size (update_char_look_packet chr).calls) memory,
      )
unfolding update_char_look_packet
update_char_look_packet-send chr memory fits =
    let r = look_size chr in
    send-encode (update_char_look_packet chr) memory r.0 r.1 (omega (arith, r.1, fits))

-- A change that adds no equipment and no rechargeable item, and of which an item's owner's name is within
-- its array.
abbrev pub IsPlain : InventoryModify → Type 0
IsPlain (add_item inventory slot item) =
    (item_is_rechargeable item.item.item_id ≡ false)
    × ((item.item.owner_length ≤ 12) × (item.item.owner_length ≤ length item.item.owner))
IsPlain (add_equip slot equip) = ⊥
IsPlain _ = Unit {0}

abbrev pub ArePlain : List InventoryModify → Type 0
ArePlain [] = Unit {0}
ArePlain (m ∷ mods) = IsPlain m × ArePlain mods

-- A change that treats equipment as something that stacks.
pub is_stacked_equip : InventoryModify → Bool
is_stacked_equip (add_item inventory slot item) = inventory == 1
is_stacked_equip (modify inventory slot quantity) = inventory == 1
is_stacked_equip _ = false

-- There are as many changes as is said, none of which treats equipment as something that stacks.
pub are_allowed : (mod_count : ℕ) → List InventoryModify → Bool
are_allowed zero mods = true
are_allowed (suc left) [] = false
are_allowed (suc left) (m ∷ mods) = not (is_stacked_equip m) && are_allowed left mods

-- The calls up to one that fails.
abbrev Faults : List Call → Type 0
Faults calls = (cs : List Call) × (ds : List Call) × (calls ≡ cs ++ (fault ∷ ds))
