-- ===== src/Client/Level/Kept.antt =====
-- A new level's points change neither the level nor the experience.
use syrup.Base.{
  ℕ, ◌≡◌, refl, ◌∙◌, inl, inr, Bool, true, false, ◌&&◌, ◌||◌, leb, if◌then◌else◌, Option,
  Bool-cases, Option-cases,
}
use syrup.Character.{
  Character, character_set_ap, character_set_max_hp, character_set_hp, character_set_max_mp,
  character_set_mp,
}
use syrup.Client.Level.{
  Growth, gain_points, grow_maxima, fill_up, level_up, is_novice, roll, skilled,
}
use syrup.Job.{job_is_a}
use syrup.Client.Level.Table.{Standing, experience}

-- What a change of other fields keeps.
pub record Keeps (g : Growth) (chr : Character) : Type 0 where
  pub level : g.chr.level ≡ chr.level
  pub exp : g.chr.exp ≡ chr.exp

if-Keeps :
    (b : Bool) (x y : Growth) (c : Character) → Keeps x c → Keeps y c → Keeps (if b then x else y) c
if-Keeps true x y c h k = h
if-Keeps false x y c h k = k

pub Keeps-Standing :
    (g : Growth) (c : Character)
    → Keeps g c
    → Standing c.level c.exp
    → Standing g.chr.level g.chr.exp
Keeps-Standing g c k st = rw (k.level, k.exp) st

pub Keeps-experience : (g : Growth) (c : Character) → Keeps g c → experience g.chr ≡ experience c
unfolding experience
Keeps-experience g c k = rw (k.level, k.exp) refl

gain_points-Keeps : (g : Growth) → Keeps (gain_points g) g.chr
unfolding gain_points character_set_ap
gain_points-Keeps g =
    let chr = g.chr in
    if-Keeps (is_novice chr.job && leb chr.level 10) _ _ chr
      (if-Keeps (leb chr.level 5) _ _ chr (record { level = refl; exp = refl })
        (record { level = refl; exp = refl }))
      (elim (Bool-cases (is_novice chr.job)) [
        | inl novice ↦ rw (novice) (record { level = refl; exp = refl })
        | inr trained ↦ rw (trained) (record { level = refl; exp = refl })
      ])

fill_up-Keeps : (g : Growth) → Keeps (fill_up g) g.chr
unfolding fill_up character_set_max_mp character_set_hp character_set_mp
fill_up-Keeps g = record { level = refl; exp = refl }

module _ (rand : ℕ → ℕ) (skill : ℕ → Option ℕ) where
  skilled-Keeps :
      (id : ℕ) (g : Growth) (c : Character) → Keeps g c → Keeps (skilled rand skill id g) c
  unfolding character_set_max_mp
  skilled-Keeps id g c h = elim (Option-cases (skill id)) [
    | inl unknown ↦ rw (skilled, unknown) h
    | inr (level, known) ↦ rw (skilled, known) (record { level = h.level; exp = h.exp })
  ]

  roll-Keeps : (a b c d : ℕ) (g : Growth) → Keeps (roll rand skill a b c d g) g.chr
  unfolding character_set_max_hp character_set_max_mp
  roll-Keeps a b c d g = record { level = refl; exp = refl }

  grow_maxima-Keeps : (g : Growth) → Keeps (grow_maxima rand skill g) g.chr
  unfolding grow_maxima
  grow_maxima-Keeps g =
      let job = g.chr.job in
      let rolled = λ (a b c d : ℕ). roll-Keeps a b c d g in
      if-Keeps (is_novice job) _ _ g.chr (rolled 5 12 3 10) (
        if-Keeps (job_is_a job 110 || job_is_a job 1100) _ _ g.chr (rolled 5 24 3 4) (
          if-Keeps (job_is_a job 200 || job_is_a job 1200) _ _ g.chr
            (if-Keeps (job_is_a job 200) _ _ g.chr
              (skilled-Keeps 2000001 _ g.chr (rolled 5 10 3 22))
              (skilled-Keeps 12000000 _ g.chr (rolled 5 10 3 22)))
            (if-Keeps
              (job_is_a job 300 || job_is_a job 400 || job_is_a job 1300 || job_is_a job 1400) _ _
              g.chr (rolled 5 20 3 14)
              (if-Keeps (job_is_a job 500 || job_is_a job 1500) _ _ g.chr (rolled 7 22 6 18) (
                if-Keeps (job_is_a job 2100) _ g g.chr (rolled 5 44 5 4)
                  (record { level = refl; exp = refl }))))))

  pub level_up-Keeps : (g : Growth) → Keeps (level_up rand skill g) g.chr
  unfolding level_up
  level_up-Keeps g =
      let points = gain_points-Keeps g in
      let maxima = grow_maxima-Keeps (gain_points g) in
      let full = fill_up-Keeps (grow_maxima rand skill (gain_points g)) in
      record {
        level = full.level ∙ maxima.level ∙ points.level;
        exp = full.exp ∙ maxima.exp ∙ points.exp;
      }
