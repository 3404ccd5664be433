-- ===== src/Tests/Inventories.antt =====
-- A bowman who gains, moves, shoots and drops arrows, and changes a weapon.
use syrup.Base.{
  ℕ, ◌≡◌, refl, Bool, true, false, ◌==◌, leb, if◌then◌else◌, arith, inl, inr, [], ◌∷◌, List,
  Bool-cases, replicate, some, ◌++◌, drop,
}
use syrup.Base.Int.{ℤ, pos, ◌+ℤ◌, ◌≤ℤ◌}
use syrup.Item.{
  item_is_rechargeable, item_is_throwing_star, item_is_bullet, equip_slot_to_compact,
  is_valid_equip_slot,
}
use syrup.Character.{Character, Slot, Inventory}
use syrup.Client.{Client}
use syrup.Packet.{send}
use syrup.Writer.Encode.{encode_all, calls_size}
use syrup.Packet.Items.{InventoryModify, modify, remove, update_char_look_packet}
use syrup.Packet.Items.Room.{update_char_look_packet-send}
use syrup.Client.Inventory.{client_remove_item, client_use_projectile}
use syrup.Client.Inventory.Held.{sum_to}
use syrup.Client.Inventory.Gain.{client_gain_inventory_item}
use syrup.Client.Inventory.Move.{client_move_item}
use syrup.Client.Inventory.Take.{Removes, client_remove_item-Removes}
use syrup.Client.Inventory.Gains.{Gains, client_gain_inventory_item-Gains}
use syrup.Client.Inventory.Moving.{Moves, client_move_item-Moves}
use syrup.Client.Inventory.Shots.{Shoots, client_use_projectile-Shoots}
use syrup.Client.Equip.{client_equip, client_unequip, client_remove_equip}
use syrup.Client.Equip.Bonus.{
  Stat, str, dex, int_, luk, hp, mp, bonus_of, IsDressed, IsSmall, worn_total,
}
use syrup.Client.Equip.Changes.{Equips, client_equip-Equips, Unequips, client_unequip-Unequips}
use syrup.Client.Equip.Unworn.{
  Doubled, client_unequip-Doubled, StaysBehind, client_remove_equip-StaysBehind,
}
use syrup.Tests.Things.{equipment, stack_of, no_equipment, no_stack, no_items}

abbrev arrows : ℕ
arrows = 2060000

-- Four slots with arrows, of eight.
abbrev quiver : Inventory
quiver = record {
  slot_count = 8;
  items = λ i.
      if leb i 3 then record { is_empty = false; item = stack_of arrows (pos 900) } else no_stack;
}

abbrev bow : Slot
bow = record { is_empty = false; equip = equipment 1452000 (pos 3) (pos 10) }

abbrev bowman : Character
bowman = record {
  id = 9;
  name_length = 3;
  name = 65 ∷ 98 ∷ 99 ∷ [];
  map = 100000000;
  x = pos 30;
  y = pos 40;
  fh = 1;
  stance = 2;
  gender = true;
  skin = 1;
  face = 21000;
  hair = 31000;
  chair = 0;
  gacha_exp = pos 0;
  spawn_point = 0;
  level = 40;
  job = 310;
  fame = pos 0;
  str = pos 30;
  dex = pos 160;
  int_ = pos 4;
  luk = pos 4;
  max_hp = pos 900;
  hp = pos 905;
  max_mp = pos 500;
  mp = pos 250;
  ap = pos 0;
  sp = pos 0;
  exp = pos 10;
  estr = pos 3;
  edex = pos 0;
  eint = pos 0;
  eluk = pos 0;
  e_max_hp = pos 10;
  e_max_mp = pos 0;
  mesos = pos 1000;
  active_projectile = 0;
  equipped_equipment = λ i. if i == 10 then bow else no_equipment;
  slot_count = 4;
  items = λ i. if i == 0 then bow else no_equipment;
  inventory = λ k. if k == 0 then quiver else no_items;
  quests = [];
  item_quests = λ i. false;
}

abbrev client : Client
client = record { character = bowman; stats = 0; sent = [] }

abbrev no_quest : ℕ → Bool
no_quest id = false

abbrev no_requirements : ℕ → List (ℕ × ℤ)
no_requirements id = []

abbrev thousand : ℕ → ℤ
thousand id = pos 1000

client_remove_item-Removes_example :
    Removes 2 1 (pos 100) client (client_remove_item no_quest 2 2 (pos 100) client)
client_remove_item-Removes_example =
    client_remove_item-Removes no_quest 2 2 (pos 100) client (omega arith) (omega arith)

few_arrows : (i : ℕ) → (quiver.items i).item.quantity ≤ℤ pos 32767
few_arrows i = elim (Bool-cases (leb i 3)) [
  | inl e ↦ rw e (omega arith)
  | inr e ↦ rw e (omega arith)
]

fitting :
    (i : ℕ)
    → (pos 0 ≤ℤ (quiver.items i).item.quantity) × ((quiver.items i).item.quantity ≤ℤ pos 1000)
fitting i = elim (Bool-cases (leb i 3)) [
  | inl e ↦ rw e (omega arith, omega arith)
  | inr e ↦ rw e (omega arith, omega arith)
]

not_recharged : item_is_rechargeable arrows ≡ false
unfolding item_is_rechargeable item_is_throwing_star item_is_bullet
not_recharged = refl

client_gain_inventory_item-Gains_example :
    Gains no_quest (pos 1000) (stack_of arrows (pos 450)) client (
      client_gain_inventory_item no_quest no_requirements thousand
        (stack_of arrows (pos 450))
        client)
client_gain_inventory_item-Gains_example =
    client_gain_inventory_item-Gains no_quest no_requirements thousand (stack_of arrows (pos 450))
      client (omega arith) (omega arith) not_recharged (omega arith) (λ i full same. fitting i)

client_move_item-Moves_example : Moves 0 0 1 client (client_move_item thousand false 2 1 2 client)
client_move_item-Moves_example =
    client_move_item-Moves thousand 2 1 2 client (omega arith) (omega arith)
      (λ e. absurd (omega (arith, e))) (λ id. omega arith) (λ i full same. fitting i)

client_use_projectile-Shoots_example : Shoots (pos 1) client (client_use_projectile (pos 1) client)
client_use_projectile-Shoots_example =
    client_use_projectile-Shoots (pos 1) client (omega arith) few_arrows (inr (omega arith))

bow-IsSmall : IsSmall bow.equip
bow-IsSmall str = (omega arith, omega arith)
bow-IsSmall dex = (omega arith, omega arith)
bow-IsSmall int_ = (omega arith, omega arith)
bow-IsSmall luk = (omega arith, omega arith)
bow-IsSmall hp = (omega arith, omega arith)
bow-IsSmall mp = (omega arith, omega arith)

nothing-IsSmall : IsSmall no_equipment.equip
nothing-IsSmall str = (omega arith, omega arith)
nothing-IsSmall dex = (omega arith, omega arith)
nothing-IsSmall int_ = (omega arith, omega arith)
nothing-IsSmall luk = (omega arith, omega arith)
nothing-IsSmall hp = (omega arith, omega arith)
nothing-IsSmall mp = (omega arith, omega arith)

either-IsSmall : (b : Bool) → IsSmall (if b then bow else no_equipment).equip
either-IsSmall true = bow-IsSmall
either-IsSmall false = nothing-IsSmall

bonuses : (stat : Stat) → bonus_of stat bowman ≡ worn_total stat bowman.equipped_equipment
unfolding worn_total sum_to ◌+ℤ◌
bonuses str = refl
bonuses dex = refl
bonuses int_ = refl
bonuses luk = refl
bonuses hp = refl
bonuses mp = refl

bowman-IsDressed : IsDressed bowman
bowman-IsDressed = record {
  bonus = bonuses;
  small_worn = λ i. either-IsSmall (i == 10);
  small_kept = λ i. either-IsSmall (i == 0);
}

weapon_slot : equip_slot_to_compact 11 ≡ 10
unfolding equip_slot_to_compact
weapon_slot = refl

cap_slot : equip_slot_to_compact 1 ≡ 0
unfolding equip_slot_to_compact
cap_slot = refl

cap_valid : is_valid_equip_slot 1 ≡ true
unfolding is_valid_equip_slot
cap_valid = refl

client_equip-Equips_example :
    Equips 0 (equip_slot_to_compact 11) 11 client (client_equip 1 11 client)
client_equip-Equips_example =
    client_equip-Equips 1 11 client (rw weapon_slot (omega arith)) bowman-IsDressed

client_unequip-Unequips_example :
    Unequips (equip_slot_to_compact 11) 1 11 client (client_unequip 11 2 client)
client_unequip-Unequips_example =
    client_unequip-Unequips 11 2 client (rw weapon_slot (omega arith)) (rw weapon_slot refl)
      bowman-IsDressed

client_unequip-Doubled_example : Doubled client (client_unequip 1 2 client)
client_unequip-Doubled_example =
    client_unequip-Doubled 1 2 client (rw cap_slot (omega arith)) cap_valid (omega arith)
      (rw cap_slot refl) refl

client_remove_equip-StaysBehind_example :
    StaysBehind client
      (bowman.equipped_equipment (equip_slot_to_compact 11)).equip
      (client_remove_equip true 11 client)
client_remove_equip-StaysBehind_example =
    client_remove_equip-StaysBehind 11 client (rw weapon_slot (omega arith)) (rw weapon_slot refl)
      bowman-IsDressed

abbrev room : List ℕ
room = replicate 400 0

update_char_look_packet-send_example :
    send (update_char_look_packet bowman) room
    ≡ some (
      calls_size (update_char_look_packet bowman).calls,
      encode_all (update_char_look_packet bowman).calls
          ++ drop (calls_size (update_char_look_packet bowman).calls) room,
    )
update_char_look_packet-send_example = update_char_look_packet-send bowman room (omega arith)

abbrev two_mods : List InventoryModify
two_mods = remove 2 (pos 1) ∷ modify 2 (pos 2) (pos 950) ∷ []

abbrev wide : List ℕ
wide = replicate 10204 0
