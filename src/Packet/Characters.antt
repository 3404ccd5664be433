-- ===== src/Packet/Characters.antt =====
-- src/packet.c, src/writer.c and src/character.c: the packets of characters with their statistics, for the
-- list of an account's characters and for the players of a map.
use syrup.Base.{ℕ, ◌-◌, false, List, [], ◌∷◌, ◌++◌}
use syrup.Base.Int.{ℤ}
use syrup.Writer.{Call, u8, i16, u16, i32, u32, u64, zeros, sized_string, array}
use syrup.Packet.{Packet, for_from}
use syrup.Character.{Character, i16_bits, i32_bits}
use syrup.Packet.Items.{
  CharacterAppearance, character_to_character_appearance, writer_char_appearance, byte_of,
}

pub record CharacterInfo : Type 0 where
  pub appearance : CharacterAppearance
  pub level : ℕ
  pub job : ℕ
  pub fame : ℤ

pub record CharacterStats : Type 0 where
  pub id : ℕ
  pub info : CharacterInfo
  pub str : ℤ
  pub dex : ℤ
  pub int_ : ℤ
  pub luk : ℤ
  pub max_hp : ℤ
  pub hp : ℤ
  pub max_mp : ℤ
  pub mp : ℤ
  pub ap : ℤ
  pub sp : ℤ
  pub exp : ℤ

unfoldable pub character_to_character_stats : Character → CharacterStats
character_to_character_stats chr = record {
  id = chr.id;
  info = record {
    appearance = character_to_character_appearance chr;
    level = chr.level;
    job = chr.job;
    fame = chr.fame;
  };
  str = chr.str;
  dex = chr.dex;
  int_ = chr.int_;
  luk = chr.luk;
  max_hp = chr.max_hp;
  hp = chr.hp;
  max_mp = chr.max_mp;
  mp = chr.mp;
  ap = chr.ap;
  sp = chr.sp;
  exp = chr.exp;
}

-- A name has at most 12 bytes, so that the subtraction stays in ℕ.
unfoldable pub writer_char_stats : CharacterStats → List Call
writer_char_stats chr =
    let look = chr.info.appearance in
    u32 chr.id
    ∷ array look.name_length look.name
    ∷ zeros (13 - look.name_length)
    ∷ u8 (byte_of look.gender)
    ∷ u8 look.skin
    ∷ u32 look.face
    ∷ u32 look.hair
    ∷ u64 0
    ∷ u64 0
    ∷ u64 0
    ∷ u8 chr.info.level
    ∷ u16 chr.info.job
    ∷ i16 (i16_bits chr.str)
    ∷ i16 (i16_bits chr.dex)
    ∷ i16 (i16_bits chr.int_)
    ∷ i16 (i16_bits chr.luk)
    ∷ i16 (i16_bits chr.hp)
    ∷ i16 (i16_bits chr.max_hp)
    ∷ i16 (i16_bits chr.mp)
    ∷ i16 (i16_bits chr.max_mp)
    ∷ i16 (i16_bits chr.ap)
    ∷ i16 (i16_bits chr.sp)
    ∷ i32 (i32_bits chr.exp)
    ∷ i16 (i16_bits chr.info.fame)
    ∷ i32 (i32_bits look.gacha_exp)
    ∷ u32 look.map
    ∷ u8 look.spawn_point
    ∷ u32 0
    ∷ []

-- A character, and that the view is not of all and the ranking is off.
unfoldable pub listed_calls : CharacterStats → List Call
listed_calls chr =
    (writer_char_stats chr ++ writer_char_appearance chr.info.appearance false)
    ++ (u8 0 ∷ u8 0 ∷ [])

unfoldable pub character_list_packet :
    (status char_count : ℕ) (chars : ℕ → CharacterStats) (pic : ℕ) → Packet
character_list_packet status char_count chars pic = record {
  size = 2673;
  calls =
      (u16 0xB ∷ u8 status ∷ u8 char_count ∷ for_from 0 char_count (λ i. listed_calls (chars i)))
      ++ (u8 pic ∷ u32 6 ∷ []);
}

unfoldable pub create_character_response_packet : CharacterStats → Packet
create_character_response_packet chr = record {
  size = 162;
  calls = u16 0xE ∷ u8 0 ∷ listed_calls chr;
}

-- The buffs of a player that others see, all off.
unfoldable pub buff_calls : List Call
buff_calls =
    u32 0
    ∷ u16 0
    ∷ u8 0xFC
    ∷ u8 1
    ∷ u32 0
    ∷ u32 0
    ∷ u32 0
    ∷ u32 0
    ∷ u16 0
    ∷ u32 0
    ∷ u32 0
    ∷ zeros 11
    ∷ u16 0
    ∷ zeros 9
    ∷ u32 0
    ∷ u16 0
    ∷ u8 0
    ∷ u64 0
    ∷ u32 0
    ∷ zeros 8
    ∷ u32 0
    ∷ u8 0
    ∷ u32 0
    ∷ u16 0
    ∷ zeros 9
    ∷ u32 0
    ∷ u32 0
    ∷ zeros 9
    ∷ u32 0
    ∷ u32 0
    ∷ []

unfoldable pub add_player_to_map_packet : Character → Packet
add_player_to_map_packet chr = record {
  size = 554;
  calls =
      (u16 0xA0
        ∷ u32 chr.id
        ∷ u8 chr.level
        ∷ sized_string chr.name_length chr.name
        ∷ zeros 8
        ∷ buff_calls)
      ++ (u16 chr.job ∷ writer_char_appearance (character_to_character_appearance chr) false)
      ++ (u32 0
          ∷ u32 0
          ∷ u32 chr.chair
          ∷ i16 (i16_bits chr.x)
          ∷ i16 (i16_bits chr.y)
          ∷ u8 chr.stance
          ∷ i16 chr.fh
          ∷ u8 0
          ∷ u8 0
          ∷ u32 1
          ∷ u32 0
          ∷ u32 0
          ∷ u8 0
          ∷ u8 0
          ∷ u8 0
          ∷ u8 0
          ∷ u8 0
          ∷ u8 0
          ∷ u16 0
          ∷ u8 0
          ∷ []);
}
