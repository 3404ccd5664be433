-- ===== src/Packet/Fights.antt =====
-- src/packet.c: the packets of attacks, of shops and of the storage. `oids` and `damage` are the caller's
-- arrays; the prices, and the game's data of an item, are bit patterns.
use syrup.Base.{ℕ, ◌+◌, ◌*◌, ◌/◌, bit_or, false, ltb, List, [], ◌∷◌, ◌++◌, if◌then◌else◌}
use syrup.Base.Int.{ℤ}
use syrup.Writer.{Call, bool, u8, i16, u16, i32, u32, u64, sized_string}
use syrup.Packet.{Packet, when, for_from}
use syrup.Item.{Equipment, InventoryItem, item_is_rechargeable}
use syrup.Character.{i16_bits, i32_bits}
use syrup.Packet.Items.{i8_bits, item_calls}

-- What the three attacks share, up to the projectile.
pub record Attack : Type 0 where
  pub id : ℕ
  pub skill : ℕ
  pub skill_level : ℕ
  pub monster_count : ℕ
  pub hit_count : ℕ
  pub oids : ℕ → ℕ
  pub damage : ℕ → ℕ
  pub display : ℕ
  pub direction : ℕ
  pub stance : ℕ
  pub speed : ℕ

unfoldable pub hit_calls : Attack → (i : ℕ) → List Call
hit_calls a i =
    u32 (a.oids i) ∷ u8 0 ∷ for_from 0 a.hit_count (λ j. i32 (a.damage (i * a.hit_count + j)) ∷ [])

unfoldable pub attack_calls : (opcode : ℕ) → Attack → (projectile : ℕ) → List Call
attack_calls opcode a projectile =
    (u16 opcode
      ∷ u32 a.id
      ∷ u8 (bit_or (a.monster_count * 16) a.hit_count)
      ∷ u8 0x5B
      ∷ u8 a.skill_level
      ∷ when (ltb 0 a.skill_level) (u32 a.skill ∷ []))
    ++ (u8 a.display
        ∷ u8 a.direction
        ∷ u8 a.stance
        ∷ u8 a.speed
        ∷ u8 0x0A
        ∷ u32 projectile
        ∷ for_from 0 a.monster_count (hit_calls a))

unfoldable pub close_range_attack_packet : Attack → Packet
close_range_attack_packet a = record { size = 997; calls = attack_calls 0xBA a 0 }

unfoldable pub ranged_attack_packet : Attack → (projectile : ℕ) → Packet
ranged_attack_packet a projectile = record {
  size = 1001;
  calls = attack_calls 0xBB a projectile ++ (u32 0 ∷ []);
}

unfoldable pub magic_attack_packet : Attack → Packet
magic_attack_packet a = record { size = 1001; calls = attack_calls 0xBC a 0 }

pub record ShopItem : Type 0 where
  pub id : ℕ
  pub price : ℤ

module _ (slot_max unit_price : ℕ → ℕ) where
  -- The upper 16 bits of the representation of the price of a unit are sent.
  unfoldable pub shop_item_calls : ShopItem → List Call
  shop_item_calls item =
      (u32 item.id ∷ i32 (i32_bits item.price) ∷ u32 0 ∷ u32 0 ∷ u32 0 ∷ [])
      ++ (if item_is_rechargeable item.id
          then u16 0
            ∷ u32 0
            ∷ u16 (unit_price item.id / 281474976710656)
            ∷ u16 (slot_max item.id)
            ∷ []
          else u16 1 ∷ u16 1000 ∷ [])

  unfoldable pub open_shop_packet : (id item_count : ℕ) (items : ℕ → ShopItem) → Packet
  open_shop_packet id item_count items = record {
    size = 6128;
    calls =
        u16 0x131
        ∷ u32 id
        ∷ u16 item_count
        ∷ for_from 0 item_count (λ i. shop_item_calls (items i));
  }

-- What is stored.
pub data Stored : Type 0 where
  stored_equip : Equipment → Stored
  stored_item : InventoryItem → Stored

pub record Storage : Type 0 where
  pub slots : ℕ
  pub count : ℕ
  pub mesos : ℤ
  pub storage : ℕ → Stored

unfoldable pub stored_calls : Stored → List Call
stored_calls (stored_equip equip) =
    u8 1
    ∷ u32 equip.item.item_id
    ∷ bool false
    ∷ u64 150842304000000000
    ∷ u8 (i8_bits equip.slots)
    ∷ u8 0
    ∷ i16 (i16_bits equip.str)
    ∷ i16 (i16_bits equip.dex)
    ∷ i16 (i16_bits equip.int_)
    ∷ i16 (i16_bits equip.luk)
    ∷ i16 (i16_bits equip.hp)
    ∷ i16 (i16_bits equip.mp)
    ∷ i16 (i16_bits equip.atk)
    ∷ i16 (i16_bits equip.matk)
    ∷ i16 (i16_bits equip.def)
    ∷ i16 (i16_bits equip.mdef)
    ∷ i16 (i16_bits equip.acc)
    ∷ i16 (i16_bits equip.avoid)
    ∷ i16 (i16_bits equip.hands)
    ∷ i16 (i16_bits equip.speed)
    ∷ i16 (i16_bits equip.jump)
    ∷ sized_string equip.item.owner_length equip.item.owner
    ∷ u16 equip.item.flags
    ∷ u8 0
    ∷ u8 1
    ∷ i32 0
    ∷ u32 0
    ∷ u64 0
    ∷ u64 94354848000000000
    ∷ i32 4294967295
    ∷ []
stored_calls (stored_item item) = item_calls item

unfoldable pub open_storage_packet : Storage → (npc : ℕ) → Packet
open_storage_packet storage npc = record {
  size = 23210;
  calls =
      (u16 0x135
        ∷ u8 0x16
        ∷ u32 npc
        ∷ u8 storage.slots
        ∷ u32 0x7E
        ∷ u32 0
        ∷ i32 (i32_bits storage.mesos)
        ∷ u16 0
        ∷ u8 storage.count
        ∷ for_from 0 storage.count (λ i. stored_calls (storage.storage i)))
      ++ (u16 0 ∷ u8 0 ∷ []);
}
