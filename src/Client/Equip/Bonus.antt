-- ===== src/Client/Equip/Bonus.antt =====
-- The bonuses of a character beside the sums over what it wears.
use syrup.Base.{
  ℕ, zero, suc, ◌*◌, ◌<◌, ◌≤◌, ◌≡◌, refl, ◌∙◌, ap, if◌then◌else◌, arith, Bool-cases, inl, inr,
}
use syrup.Base.Int.{ℤ, pos, negsuc, ◌+ℤ◌, ◌-ℤ◌, ◌≤ℤ◌, pos_part, neg_part}
use syrup.Item.{Equipment}
use syrup.Character.{Character, Slot, put, to_i32}
use syrup.Client.Equip.{add_bonus, sub_bonus}
use syrup.Client.Inventory.Held.{sum_to, sum_to-change, put_self, put_ne}

-- The stats that equipment adds to.
pub data Stat : Type 0 where
  str dex int_ luk hp mp : Stat

abbrev pub stat_of : Stat → Equipment → ℤ
stat_of str equip = equip.str
stat_of dex equip = equip.dex
stat_of int_ equip = equip.int_
stat_of luk equip = equip.luk
stat_of hp equip = equip.hp
stat_of mp equip = equip.mp

abbrev pub bonus_of : Stat → Character → ℤ
bonus_of str chr = chr.estr
bonus_of dex chr = chr.edex
bonus_of int_ chr = chr.eint
bonus_of luk chr = chr.eluk
bonus_of hp chr = chr.e_max_hp
bonus_of mp chr = chr.e_max_mp

abbrev pub worn : Stat → Slot → ℤ
worn stat slot = if slot.is_empty then pos 0 else stat_of stat slot.equip

-- What the 64 slots add up to.
unfoldable pub worn_total : Stat → (ℕ → Slot) → ℤ
worn_total stat table = sum_to 64 (λ i. worn stat (table i))

-- The stats of an equipment are of 16 bits.
abbrev pub IsSmall : Equipment → Type 0
IsSmall equip =
    (stat : Stat) → (negsuc 32767 ≤ℤ stat_of stat equip) × (stat_of stat equip ≤ℤ pos 32767)

-- A well-formed character: each bonus is the sum over what is worn.
pub record IsDressed (chr : Character) : Type 0 where
  pub bonus : (stat : Stat) → bonus_of stat chr ≡ worn_total stat chr.equipped_equipment
  pub small_worn : (i : ℕ) → IsSmall (chr.equipped_equipment i).equip
  pub small_kept : (i : ℕ) → IsSmall (chr.items i).equip

step_low :
    (s x : ℤ) (n : ℕ)
    → (neg_part s ≤ 32768 * n) × (pos_part s ≤ 32767 * n)
    → (negsuc 32767 ≤ℤ x) × (x ≤ℤ pos 32767)
    → neg_part (s +ℤ x) ≤ 32768 * suc n
unfolding ◌+ℤ◌
step_low s x n h k = ground arith

step_high :
    (s x : ℤ) (n : ℕ)
    → (neg_part s ≤ 32768 * n) × (pos_part s ≤ 32767 * n)
    → (negsuc 32767 ≤ℤ x) × (x ≤ℤ pos 32767)
    → pos_part (s +ℤ x) ≤ 32767 * suc n
unfolding ◌+ℤ◌
step_high s x n h k = ground arith

sum_to-bounds :
    (n : ℕ) (f : ℕ → ℤ)
    → ((i : ℕ) → (negsuc 32767 ≤ℤ f i) × (f i ≤ℤ pos 32767))
    → (neg_part (sum_to n f) ≤ 32768 * n) × (pos_part (sum_to n f) ≤ 32767 * n)
unfolding sum_to
sum_to-bounds zero f h = (omega arith, omega arith)
sum_to-bounds (suc n) f h =
    let r = sum_to-bounds n f h in
    (step_low (sum_to n f) (f n) n r (h n), step_high (sum_to n f) (f n) n r (h n))

worn_small :
    (stat : Stat) (slot : Slot)
    → IsSmall slot.equip
    → (negsuc 32767 ≤ℤ worn stat slot) × (worn stat slot ≤ℤ pos 32767)
worn_small stat slot h = elim (Bool-cases slot.is_empty) [
  | inl e ↦ rw e (omega arith, omega arith)
  | inr e ↦ rw e (h stat)
]

pub worn_total-put :
    (stat : Stat) (table : ℕ → Slot) (i : ℕ) (slot : Slot)
    → i < 64
    → worn_total stat (put table i slot) +ℤ worn stat (table i)
      ≡ worn_total stat table +ℤ worn stat slot
unfolding worn_total
worn_total-put stat table i slot lt =
    sum_to-change 64 i (λ j. worn stat (table j)) (λ j. worn stat (put table i slot j)) lt
      (λ j ne. ap (worn stat) (put_ne table i j slot ne))
    ∙ ap (λ s. worn_total stat table +ℤ worn stat s) (put_self table i slot)

pub worn_total-small :
    (stat : Stat) (table : ℕ → Slot)
    → ((i : ℕ) → IsSmall (table i).equip)
    → (neg_part (worn_total stat table) ≤ 2097152) × (pos_part (worn_total stat table) ≤ 2097152)
unfolding worn_total
worn_total-small stat table h =
    let r = sum_to-bounds 64 (λ i. worn stat (table i)) (λ i. worn_small stat (table i) (h i)) in
    (omega (arith, r.0), omega (arith, r.1))

pub to_i32_small : (x : ℤ) → neg_part x ≤ 2147483648 → pos_part x ≤ 2147483647 → to_i32 x ≡ x
to_i32_small x low high = ground arith

pub add_bonus-of :
    (stat : Stat) (equip : Equipment) (chr : Character)
    → bonus_of stat (add_bonus equip chr) ≡ to_i32 (bonus_of stat chr +ℤ stat_of stat equip)
unfolding add_bonus
add_bonus-of str equip chr = refl
add_bonus-of dex equip chr = refl
add_bonus-of int_ equip chr = refl
add_bonus-of luk equip chr = refl
add_bonus-of hp equip chr = refl
add_bonus-of mp equip chr = refl

pub sub_bonus-of :
    (stat : Stat) (equip : Equipment) (chr : Character)
    → bonus_of stat (sub_bonus equip chr) ≡ to_i32 (bonus_of stat chr -ℤ stat_of stat equip)
unfolding sub_bonus
sub_bonus-of str equip chr = refl
sub_bonus-of dex equip chr = refl
sub_bonus-of int_ equip chr = refl
sub_bonus-of luk equip chr = refl
sub_bonus-of hp equip chr = refl
sub_bonus-of mp equip chr = refl
