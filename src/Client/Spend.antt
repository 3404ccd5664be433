-- ===== src/Client/Spend.antt =====
-- Spending ability points.
use syrup.Base.{
  ℕ, zero, suc, min, ◌+◌, ◌-◌, ◌≤◌, ◌≡◌, refl, sym, ap as cong, ap₂ as cong₂, bit_or, ◌∙◌, true,
  false, arith,
}
use mathlib.Core.Path.{subst}
use syrup.Base.Int.{ℤ, pos, ◌+ℤ◌, ◌-ℤ◌}
use syrup.Character.{Character, to_i16, leb_ℤ, character_set_str, character_set_ap, at_least_zero}
use syrup.Client.{Client, changed, eq_ℤ, spend, client_adjust_str}
use syrup.Client.Stats.{spent, spent_pos, stored_sum, stored_difference}

-- A stat with its setter, which changes neither the ability points nor, by them, the stat.
module _ (stat : Character → ℤ) (setter : Character → ℤ → Character)
    (stored : (chr : Character) (x : ℤ) → stat (setter chr x) ≡ at_least_zero x)
    (kept : (chr : Character) (x : ℤ) → (setter chr x).ap ≡ chr.ap)
    (apart : (chr : Character) (x : ℤ) → stat (character_set_ap chr x) ≡ stat chr) where
  spending : ℕ → Client → ℤ → Client
  spending flag client amount =
      let chr = client.character in
      let raised = setter chr (to_i16 (stat chr +ℤ spent (stat chr) amount)) in
      changed client (character_set_ap raised (to_i16 (raised.ap -ℤ spent (stat chr) amount)))
        (bit_or flag 0x4000)

  spend-spending :
      (flag : ℕ) (client : Client) (a n : ℕ)
      → client.character.ap ≡ pos a
      → suc n ≤ a
      → spend stat setter flag client (pos (suc n)) ≡ spending flag client (pos (suc n))
  unfolding spend spending
  spend-spending flag client a n ha n_le =
      let tests : (eq_ℤ (pos (suc n)) (pos 0) ≡ false)
          × (leb_ℤ (pos (suc n)) client.character.ap ≡ true) =
        (ground arith, subst (λ z. leb_ℤ (pos (suc n)) z ≡ true) (sym ha) (ground arith)) in
      rw (spend, tests.0, tests.1) refl

  spending-numbers :
      (flag : ℕ) (client : Client) (s a n : ℕ)
      → stat client.character ≡ pos s
      → client.character.ap ≡ pos a
      → s ≤ 32767
      → a ≤ 32767
      → n ≤ a
      → (stat ((spending flag client (pos n)).character) ≡ pos (s + min n (32767 - s)))
        × ((spending flag client (pos n)).character.ap ≡ pos (a - min n (32767 - s)))
  unfolding spending character_set_ap
  spending-numbers flag client s a n hs ha s_le a_le n_le =
      let amount = cong (λ z. spent z (pos n)) hs ∙ spent_pos s n s_le in
      (
        apart _ _
            ∙ stored _ _
            ∙ cong₂ (λ z w. at_least_zero (to_i16 (z +ℤ w))) hs amount
            ∙ stored_sum s (min n (32767 - s)) (omega arith),
        cong₂ (λ z w. to_i16 (z -ℤ w)) (kept _ _ ∙ ha) amount
            ∙ stored_difference a (min n (32767 - s)) a_le (omega arith),
      )

  spend-numbers :
      (flag : ℕ) (client : Client) (s a n : ℕ)
      → stat client.character ≡ pos s
      → client.character.ap ≡ pos a
      → s ≤ 32767
      → a ≤ 32767
      → n ≤ a
      → (stat ((spend stat setter flag client (pos n)).character) ≡ pos (s + min n (32767 - s)))
        × ((spend stat setter flag client (pos n)).character.ap ≡ pos (a - min n (32767 - s)))
  unfolding spend
  spend-numbers flag client s a zero hs ha s_le a_le n_le =
      (hs ∙ cong pos (omega arith), ha ∙ cong pos (omega arith))
  spend-numbers flag client s a (suc n) hs ha s_le a_le n_le =
      rw (spend-spending flag client a n ha n_le)
        (spending-numbers flag client s a (suc n) hs ha s_le a_le n_le)

-- Spending up to all of a character's ability points on its strength moves them there, as far as the
-- strength stays below 2 ^ 15: what the one gains the other loses.
adjust_str-moves :
    (client : Client) (s a n : ℕ)
    → client.character.str ≡ pos s
    → client.character.ap ≡ pos a
    → s ≤ 32767
    → a ≤ 32767
    → n ≤ a
    → ((client_adjust_str client (pos n)).character.str ≡ pos (s + min n (32767 - s)))
      × ((client_adjust_str client (pos n)).character.ap ≡ pos (a - min n (32767 - s)))
unfolding client_adjust_str character_set_str character_set_ap
adjust_str-moves client s a n =
    spend-numbers (λ chr. chr.str) character_set_str (λ chr x. refl) (λ chr x. refl) (λ chr x. refl)
      0x40 client s a n
