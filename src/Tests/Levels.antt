-- ===== src/Tests/Levels.antt =====
-- A magician who gains a few levels, and one at the last level.
use syrup.Base.{ℕ, ◌+◌, ◌≡◌, refl, true, false, Option, none, [], ◌∷◌, arith}
use syrup.Base.Int.{ℤ, pos}
use syrup.Character.{Character}
use syrup.Tests.Things.{no_equipment, no_items}
use syrup.Client.{Client}
use syrup.Client.Level.{exp_table, client_gain_exp}
use syrup.Client.Level.Table.{spent, Standing, experience}
use syrup.Client.Level.Total.{Kept, LeavesTable, client_gain_exp-Kept, client_gain_exp-past}

abbrev magician : ℕ → ℤ → Character
magician level exp = record {
  id = 7;
  name_length = 3;
  name = 65 ∷ 98 ∷ 99 ∷ [];
  map = 100000000;
  x = pos 30;
  y = pos 40;
  fh = 1;
  stance = 2;
  gender = false;
  skin = 0;
  face = 20000;
  hair = 30000;
  chair = 0;
  gacha_exp = pos 0;
  spawn_point = 0;
  level = level;
  job = 200;
  fame = pos 0;
  str = pos 4;
  dex = pos 4;
  int_ = pos 40;
  luk = pos 20;
  max_hp = pos 100;
  hp = pos 60;
  max_mp = pos 300;
  mp = pos 250;
  ap = pos 0;
  sp = pos 0;
  exp = exp;
  estr = pos 0;
  edex = pos 0;
  eint = pos 0;
  eluk = pos 0;
  e_max_hp = pos 0;
  e_max_mp = pos 0;
  mesos = pos 1000;
  active_projectile = 0;
  equipped_equipment = λ i. no_equipment;
  slot_count = 0;
  items = λ i. no_equipment;
  inventory = λ i. no_items;
  quests = [];
  item_quests = λ i. false;
}

abbrev pupil : Client
pupil = record { character = magician 8 (pos 10); stats = 0; sent = [] }

abbrev master : Client
master = record { character = magician 200 (pos 10); stats = 0; sent = [] }

abbrev dice : ℕ → ℕ
dice n = n + 3

abbrev no_skill : ℕ → Option ℕ
no_skill id = none

pupil-Standing : Standing 8 (pos 10)
unfolding exp_table
pupil-Standing = record {
  low = omega arith;
  high = omega arith;
  points = 10;
  is_points = refl;
  needed = 840;
  entry = refl;
  below = omega arith;
  fits = omega arith;
}

master-Standing : Standing 200 (pos 10)
unfolding exp_table
master-Standing = record {
  low = omega arith;
  high = omega arith;
  points = 10;
  is_points = refl;
  needed = 1697021059;
  entry = refl;
  below = omega arith;
  fits = omega arith;
}

whole_table : (spent exp_table 200 ≡ 32647381876) × (experience pupil.character ≡ 1275)
unfolding exp_table spent experience
whole_table = (refl, refl)

client_gain_exp-Kept_example :
    Kept dice no_skill pupil.character 2500 (client_gain_exp dice no_skill 7 pupil (pos 2500) false)
client_gain_exp-Kept_example =
    client_gain_exp-Kept dice no_skill 7 pupil 2500 false pupil-Standing (omega arith)
      (omega (arith, whole_table.0, whole_table.1))

client_gain_exp-past_example :
    LeavesTable dice no_skill (client_gain_exp dice no_skill 7 master (pos 1700000000) true)
unfolding master-Standing
client_gain_exp-past_example =
    client_gain_exp-past dice no_skill 7 master 1700000000 true master-Standing refl (omega arith)
      (omega arith)
