-- ===== src/Tests/Stats.antt =====
-- A character's numbers and slots.
use syrup.Base.{ℕ, ◌<◌, ◌≡◌, ◌≢◌, ◌↔◌, refl, true, false, [], ◌∷◌, arith}
use syrup.Base.Int.{pos, negsuc, ◌+ℤ◌, ◌-ℤ◌, ◌≤ℤ◌}
use syrup.Item.{equip_slot_to_compact, is_valid_equip_slot, equip_slot_count}
use syrup.Item.Slots.{to_compact-index}
use syrup.Character.{Character, character_get_effective_hp}
use syrup.Character.Stats.{clamp}
use syrup.Tests.Things.{no_equipment, no_items}
use syrup.Client.{Client, client_adjust_hp, client_gain_meso, int32_max}
use syrup.Client.Stats.{adjust_hp-clamp}
use syrup.Client.Mesos.{mesos_of, gain_meso-clamp, gain_meso-overdrawn}

abbrev hero : Character
hero = record {
  id = 7;
  name_length = 3;
  name = 65 ∷ 98 ∷ 99 ∷ [];
  map = 100000000;
  x = pos 30;
  y = pos 40;
  fh = 1;
  stance = 2;
  gender = false;
  skin = 0;
  face = 20000;
  hair = 30000;
  chair = 0;
  gacha_exp = pos 0;
  spawn_point = 0;
  level = 30;
  job = 110;
  fame = pos 0;
  str = pos 90;
  dex = pos 40;
  int_ = pos 4;
  luk = pos 4;
  max_hp = pos 1200;
  hp = pos 900;
  max_mp = pos 300;
  mp = pos 250;
  ap = pos 5;
  sp = pos 0;
  exp = pos 10;
  estr = pos 6;
  edex = pos 0;
  eint = pos 0;
  eluk = pos 0;
  e_max_hp = pos 50;
  e_max_mp = pos 0;
  mesos = pos 1000;
  active_projectile = 0;
  equipped_equipment = λ i. no_equipment;
  slot_count = 0;
  items = λ i. no_equipment;
  inventory = λ i. no_items;
  quests = [];
  item_quests = λ i. false;
}

abbrev client : Client
client = record { character = hero; stats = 0; sent = [] }

hero_hp :
    (pos 900 ≤ℤ character_get_effective_hp hero) × (character_get_effective_hp hero ≤ℤ pos 32767)
unfolding character_get_effective_hp ◌+ℤ◌ ◌-ℤ◌
hero_hp = (omega arith, omega arith)

adjust_hp-clamp_example :
    (client_adjust_hp client (negsuc 40000)).character.hp
    ≡ clamp (pos 0) (character_get_effective_hp hero) (pos 900 +ℤ negsuc 40000)
adjust_hp-clamp_example = adjust_hp-clamp client (negsuc 40000) (omega arith) hero_hp.0 hero_hp.1

loss_of_400 : pos 0 ≤ℤ negsuc 399 +ℤ pos 1000
unfolding ◌+ℤ◌
loss_of_400 = omega arith

gain_meso-clamp_example :
    mesos_of (client_gain_meso client (negsuc 399) false true)
    ≡ clamp (pos 0) int32_max (pos 1000 +ℤ negsuc 399)
gain_meso-clamp_example =
    gain_meso-clamp client (negsuc 399) false true (omega arith) (omega arith) loss_of_400
      (omega arith)

loss_of_1500 : negsuc 1499 +ℤ pos 1000 ≤ℤ negsuc 0
unfolding ◌+ℤ◌
loss_of_1500 = omega arith

gain_meso-overdrawn_example :
    mesos_of (client_gain_meso client (negsuc 1499) false true) ≡ pos 1000 +ℤ pos 1000
gain_meso-overdrawn_example =
    gain_meso-overdrawn client (negsuc 1499) false true (omega arith) (omega arith) loss_of_1500

abbrev last_slot : ℕ
last_slot = 148

last_slot-is_valid : is_valid_equip_slot last_slot ≡ true
unfolding is_valid_equip_slot
last_slot-is_valid = refl

to_compact-index_example :
    (equip_slot_to_compact last_slot < equip_slot_count) ↔ (last_slot ≢ last_slot)
to_compact-index_example = to_compact-index last_slot last_slot-is_valid
