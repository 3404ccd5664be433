-- ===== src/Client/Level/Total.antt =====
-- Experience is kept through every level it brings, up to the end of the table.
use syrup.Base.{
  ℕ, zero, suc, ◌+◌, ◌-◌, ◌%◌, ◌≤◌, ◌<◌, ◌≡◌, refl, ap, ◌∙◌, Bool, Option, none, some, length,
  arith, get_elem?,
}
use syrup.Base.Int.{ℤ, pos}
use syrup.Character.{Character}
use syrup.Client.{Client}
use syrup.Client.Level.{
  exp_table, character_gain_exp, Growth, level_up, Gaining, announce, gain_levels, client_gain_exp,
  LevelRun, settled, outside_table,
}
use syrup.Client.Level.Table.{spent, Standing, experience, table_entries}
use syrup.Client.Level.Gain.{kept, reached, gain_exp-Gained, gain_reach, not_zero}
use syrup.Client.Level.Kept.{Keeps-Standing, Keeps-experience, level_up-Keeps}

module _ (rand : ℕ → ℕ) (skill : ℕ → Option ℕ) where
  -- The loop ends with the experience that came in, at a level of the table.
  abbrev pub Kept : Character → (g : ℕ) → LevelRun → Type 0
  Kept chr g r =
      (s' : Gaining) × (r ≡ settled s')
      × (experience s'.client.character ≡ experience chr + g)
      × Standing s'.client.character.level s'.client.character.exp

  gain_levels-Kept :
      (fuel id g : ℕ) (s : Gaining)
      → Standing s.client.character.level s.client.character.exp
      → g < 2147483648
      → experience s.client.character + g < spent exp_table 200
      → 200 < fuel + s.client.character.level
      → Kept s.client.character g (gain_levels rand skill fuel id (pos g) s)
  unfolding gain_levels announce
  gain_levels-Kept zero id g s st small room fuelled = absurd (omega (arith, st.high))
  gain_levels-Kept (suc fuel) id g s st small room fuelled =
      elim (gain_exp-Gained s.client.character g st small room) [
        | kept n chr' e st' same ↦ (
          record s { client = record s.client { character = chr' } },
          rw (gain_levels, e) refl,
          same,
          st',
        )
        | reached left chr' e st' same next small' ↦
            let grown : Growth = record { chr = chr'; stats = s.client.stats; rolls = s.rolls } in
            let keep = level_up-Keeps rand skill grown in
            let s2 = announce id s (level_up rand skill grown) in
            let total : experience s2.client.character ≡ experience chr' =
              Keeps-experience (level_up rand skill grown) chr' keep in
            let (s', e', total', st2) =
              gain_levels-Kept fuel id left s2
                (Keeps-Standing (level_up rand skill grown) chr' keep st') small'
                (omega (arith, total, same, room)) (omega (arith, keep.level, next, fuelled)) in
            (s', rw (gain_levels, e) e', omega (arith, total', total, same), st2)
      ]

  -- Experience that does not take a character out of the table of levels is kept to the last point,
  -- through all the levels that it brings; the loop ends, at a level of the table whose need is not yet
  -- met.
  pub client_gain_exp-Kept :
      (id : ℕ) (client : Client) (g : ℕ) (reward : Bool)
      → Standing client.character.level client.character.exp
      → g < 2147483648
      → experience client.character + g < spent exp_table 200
      → Kept client.character g (client_gain_exp rand skill id client (pos g) reward)
  unfolding client_gain_exp
  client_gain_exp-Kept id client g reward st small room =
      gain_levels-Kept (length exp_table + 1) id g _ st small room
        (omega (arith, st.low, table_entries.1))

  past_table : (chr : Character) (exp : ℤ) → chr.level ≡ 201 → character_gain_exp chr exp ≡ none
  unfolding character_gain_exp exp_table
  past_table chr exp over = rw (character_gain_exp, over) refl

  abbrev risen : Character → Character
  risen chr = record chr { exp = pos 0; level = (chr.level + 1) % 256 }

  gain_exp-risen :
      (chr : Character) (g : ℕ)
      → (st : Standing chr.level chr.exp) → g < 2147483648
      → st.needed ≤ st.points + g
      → character_gain_exp chr (pos g) ≡ some (pos (st.points + g - st.needed), risen chr)
  unfolding character_gain_exp
  gain_exp-risen chr g st small enough =
      let (t, rest) = gain_reach st.needed st.points g st.below enough st.fits small in
      rw (character_gain_exp, not_zero chr.level st.low, st.entry, st.is_points, t, rest) refl

  -- The loop has raised the character to level 201, and reads the table for that.
  abbrev pub LeavesTable : LevelRun → Type 0
  LeavesTable r =
      (s' : Gaining) × (r ≡ outside_table s')
      × (s'.client.character.level ≡ 201)
      × (get_elem? exp_table (s'.client.character.level - 1) ≡ none)

  gain_levels-past :
      (fuel id g : ℕ) (s : Gaining)
      → (st : Standing s.client.character.level s.client.character.exp)
      → s.client.character.level ≡ 200
      → g < 2147483648
      → st.needed ≤ st.points + g
      → LeavesTable (gain_levels rand skill (suc (suc fuel)) id (pos g) s)
  unfolding gain_levels announce exp_table
  gain_levels-past fuel id g s st last small enough =
      let chr = s.client.character in
      let raised : Growth = record { chr = risen chr; stats = s.client.stats; rolls = s.rolls } in
      let grown = level_up rand skill raised in
      let level : grown.chr.level ≡ 201 =
        (level_up-Keeps rand skill raised).level ∙ ap (λ l. (l + 1) % 256) last in
      let over = past_table grown.chr (pos (st.points + g - st.needed)) level in
      (
        announce id s grown,
        rw (gain_levels, gain_exp-risen chr g st small enough, over) refl,
        level,
        ap (λ (l : ℕ). get_elem? exp_table (l - 1)) level,
      )

  -- A character at the last level, 200, whose experience is below what it needs and who gains what
  -- is missing, by an `int32_t`, is raised to level 201, which the table does not have; the loop
  -- does not end there, and reads behind the table.
  pub client_gain_exp-past :
      (id : ℕ) (client : Client) (g : ℕ) (reward : Bool)
      → (st : Standing client.character.level client.character.exp) → client.character.level ≡ 200
      → g < 2147483648
      → st.needed ≤ st.points + g
      → LeavesTable (client_gain_exp rand skill id client (pos g) reward)
  unfolding client_gain_exp
  client_gain_exp-past id client g reward st last small enough =
      rw (client_gain_exp, table_entries.1) (gain_levels-past 199 id g _ st last small enough)
