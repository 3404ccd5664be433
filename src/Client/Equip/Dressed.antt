-- ===== src/Client/Equip/Dressed.antt =====
-- Putting equipment on and taking it off, as changes of a well-formed character.
use syrup.Base.{
  ℕ, ◌<◌, ◌≤◌, ◌≡◌, refl, ◌∙◌, ap, sym, true, false, ◌==◌, arith, Bool-cases, inl, inr,
}
use syrup.Base.Int.{ℤ, pos, negsuc, ◌+ℤ◌, ◌-ℤ◌, ◌≤ℤ◌, pos_part, neg_part, int_laws}
use syrup.Character.{Character, Slot, put, to_i32}
use syrup.Client.Equip.{add_bonus, sub_bonus, exchange_equips, put_on, take_off}
use syrup.Client.Inventory.Held.{parts_of_eq}
use syrup.Client.Equip.Bonus.{
  Stat, str, dex, int_, luk, hp, mp, stat_of, bonus_of, worn, worn_total, IsSmall, IsDressed,
  worn_total-put, worn_total-small, to_i32_small, add_bonus-of, sub_bonus-of,
}

bonus_of_tables :
    (stat : Stat) (chr : Character) (items equipped : ℕ → Slot)
    → bonus_of stat (record chr { items = items; equipped_equipment = equipped })
      ≡ bonus_of stat chr
bonus_of_tables str chr items equipped = refl
bonus_of_tables dex chr items equipped = refl
bonus_of_tables int_ chr items equipped = refl
bonus_of_tables luk chr items equipped = refl
bonus_of_tables hp chr items equipped = refl
bonus_of_tables mp chr items equipped = refl

put-IsSmall :
    (table : ℕ → Slot) (i : ℕ) (slot : Slot)
    → ((j : ℕ) → IsSmall (table j).equip)
    → IsSmall slot.equip
    → (j : ℕ) → IsSmall (put table i slot j).equip
put-IsSmall table i slot h k j = elim (Bool-cases (j == i)) [ inl e ↦ rw e k | inr e ↦ rw e (h j) ]

worn_full :
    (stat : Stat) (slot : Slot) → slot.is_empty ≡ false → worn stat slot ≡ stat_of stat slot.equip
worn_full stat slot full = rw full refl

worn_empty : (stat : Stat) (slot : Slot) → slot.is_empty ≡ true → worn stat slot ≡ pos 0
worn_empty stat slot vacant = rw vacant refl

-- A sum of 32 bits stays within them.
IsNear : ℤ → Type 0
IsNear x = (neg_part x ≤ 2097152) × (pos_part x ≤ 2097152)

added :
    (bonus off total total' : ℤ)
    → IsNear total'
    → bonus ≡ total
    → total' +ℤ pos 0 ≡ total +ℤ off
    → to_i32 (bonus +ℤ off) ≡ total'
unfolding IsNear
added bonus off total total' near e h =
    let same : bonus +ℤ off ≡ total' =
      let p = parts_of_eq e in let q = parts_of_eq h in omega int_laws in
    ap to_i32 same ∙ to_i32_small total' (omega (arith, near.0)) (omega (arith, near.1))

subtracted :
    (bonus on total total' : ℤ)
    → IsNear total'
    → bonus ≡ total
    → total' +ℤ on ≡ total +ℤ pos 0
    → to_i32 (bonus -ℤ on) ≡ total'
unfolding IsNear
subtracted bonus on total total' near e h =
    let same : bonus -ℤ on ≡ total' =
      let p = parts_of_eq e in let q = parts_of_eq h in omega int_laws in
    ap to_i32 same ∙ to_i32_small total' (omega (arith, near.0)) (omega (arith, near.1))

small_difference :
    (a b : ℤ) → IsNear a → (negsuc 32767 ≤ℤ b) × (b ≤ℤ pos 32767) → to_i32 (a -ℤ b) ≡ a -ℤ b
unfolding IsNear ◌-ℤ◌
small_difference a b near small = to_i32_small (a -ℤ b) (ground arith) (ground arith)

exchanged :
    (bonus on off total total' : ℤ)
    → IsNear total
    → IsNear total'
    → (negsuc 32767 ≤ℤ on) × (on ≤ℤ pos 32767)
    → bonus ≡ total
    → total' +ℤ on ≡ total +ℤ off
    → to_i32 (to_i32 (bonus -ℤ on) +ℤ off) ≡ total'
unfolding IsNear
exchanged bonus on off total total' near near' small e h =
    let same : bonus -ℤ on +ℤ off ≡ total' =
      let p = parts_of_eq e in let q = parts_of_eq h in omega int_laws in
    ap (λ x. to_i32 (x +ℤ off)) (rw e (small_difference total on near small))
    ∙ ap to_i32 same
    ∙ to_i32_small total' (omega (arith, near'.0)) (omega (arith, near'.1))

module _ (chr : Character) (v : IsDressed chr) where
  total-IsNear :
      (stat : Stat) (i : ℕ) (slot : Slot)
      → IsSmall slot.equip
      → IsNear (worn_total stat (put chr.equipped_equipment i slot))
  unfolding IsNear
  total-IsNear stat i slot h =
      worn_total-small stat (put chr.equipped_equipment i slot)
        (put-IsSmall chr.equipped_equipment i slot v.small_worn h)

  pub exchange-IsDressed :
      (w i : ℕ)
      → w < 64
      → (chr.equipped_equipment w).is_empty ≡ false
      → IsDressed (
          exchange_equips w i
            (add_bonus (chr.items i).equip (sub_bonus (chr.equipped_equipment w).equip chr)))
  unfolding exchange_equips add_bonus sub_bonus IsNear
  exchange-IsDressed w i lt full =
      let on = (chr.equipped_equipment w).equip in
      let off = (chr.items i).equip in
      let table = chr.equipped_equipment in
      let slot : Slot = record (table w) { equip = off } in
      let bare = add_bonus off (sub_bonus on chr) in
      let items = put chr.items i (record (chr.items i) { equip = on }) in
      record {
        bonus = λ stat.
            bonus_of_tables stat bare items (put table w slot)
            ∙ add_bonus-of stat off (sub_bonus on chr)
            ∙ ap (λ x. to_i32 (x +ℤ stat_of stat off)) (sub_bonus-of stat on chr)
            ∙ exchanged (bonus_of stat chr) (stat_of stat on) (stat_of stat off)
                (worn_total stat table) (worn_total stat (put table w slot))
                (worn_total-small stat table v.small_worn)
                (total-IsNear stat w slot (v.small_kept i)) (v.small_worn w stat) (v.bonus stat)
                (ap (λ x. worn_total stat (put table w slot) +ℤ x)
                    (sym (worn_full stat (table w) full))
                  ∙ worn_total-put stat table w slot lt
                  ∙ ap (λ x. worn_total stat table +ℤ x) (worn_full stat slot full));
        small_worn = put-IsSmall table w slot v.small_worn (v.small_kept i);
        small_kept =
            put-IsSmall chr.items i (record (chr.items i) { equip = on }) v.small_kept
              (v.small_worn w);
      }

  pub put_on-IsDressed : (i w : ℕ) → w < 64 → IsDressed (put_on i w chr)
  unfolding put_on add_bonus
  put_on-IsDressed i w lt = elim (Bool-cases (chr.equipped_equipment w).is_empty) [
    | inl vacant ↦
        let off = (chr.items i).equip in
        let table = chr.equipped_equipment in
        let slot : Slot = record { is_empty = false; equip = off } in
        let items = put chr.items i (record (chr.items i) { is_empty = true }) in
        rw (put_on, vacant)
          (record {
            bonus = λ stat.
                add_bonus-of stat off
                  (record chr { items = items; equipped_equipment = put table w slot })
                ∙ ap (λ x. to_i32 (x +ℤ stat_of stat off))
                    (bonus_of_tables stat chr items (put table w slot))
                ∙ added (bonus_of stat chr) (stat_of stat off) (worn_total stat table)
                    (worn_total stat (put table w slot)) (total-IsNear stat w slot (v.small_kept i))
                    (v.bonus stat)
                    (ap (λ x. worn_total stat (put table w slot) +ℤ x)
                        (sym (worn_empty stat (table w) vacant))
                      ∙ worn_total-put stat table w slot lt);
            small_worn = put-IsSmall table w slot v.small_worn (v.small_kept i);
            small_kept =
                put-IsSmall chr.items i (record (chr.items i) { is_empty = true }) v.small_kept
                  (v.small_kept i);
          })
    | inr full ↦ rw (put_on, full) (exchange-IsDressed w i lt full)
  ]

  pub take_off-IsDressed :
      (w i : ℕ)
      → w < 64
      → (chr.equipped_equipment w).is_empty ≡ false
      → IsDressed (take_off w i chr)
  unfolding take_off sub_bonus
  take_off-IsDressed w i lt full = elim (Bool-cases (chr.items i).is_empty) [
    | inl vacant ↦
        let on = (chr.equipped_equipment w).equip in
        let table = chr.equipped_equipment in
        let slot : Slot = record (table w) { is_empty = true } in
        let items = put chr.items i (record { is_empty = false; equip = on }) in
        rw (take_off, vacant)
          (record {
            bonus = λ stat.
                bonus_of_tables stat (sub_bonus on chr) items (put table w slot)
                ∙ sub_bonus-of stat on chr
                ∙ subtracted (bonus_of stat chr) (stat_of stat on) (worn_total stat table)
                    (worn_total stat (put table w slot)) (total-IsNear stat w slot (v.small_worn w))
                    (v.bonus stat)
                    (ap (λ x. worn_total stat (put table w slot) +ℤ x)
                        (sym (worn_full stat (table w) full))
                      ∙ worn_total-put stat table w slot lt);
            small_worn = put-IsSmall table w slot v.small_worn (v.small_worn w);
            small_kept =
                put-IsSmall chr.items i (record { is_empty = false; equip = on }) v.small_kept
                  (v.small_worn w);
          })
    | inr there ↦ rw (take_off, there) (exchange-IsDressed w i lt full)
  ]
