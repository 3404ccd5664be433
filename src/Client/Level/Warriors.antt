-- ===== src/Client/Level/Warriors.antt =====
-- Which warriors grow.
use syrup.Base.{ℕ, ◌≡◌, refl, true, false, Option, arith}
use syrup.Job.{job_is_a}
use syrup.Client.Level.{is_novice, Growth, grow_maxima}

-- A warrior's job is in the second hundred, where there is no other class.
warrior_alone :
    (job : ℕ)
    → job_is_a job 100 ≡ true
    → (is_novice job ≡ false)
      × (job_is_a job 1100 ≡ false)
      × (job_is_a job 200 ≡ false)
      × (job_is_a job 1200 ≡ false)
      × (job_is_a job 300 ≡ false)
      × (job_is_a job 400 ≡ false)
      × (job_is_a job 1300 ≡ false)
      × (job_is_a job 1400 ≡ false)
      × (job_is_a job 500 ≡ false)
      × (job_is_a job 1500 ≡ false)
      × (job_is_a job 2100 ≡ false)
unfolding job_is_a
warrior_alone job h = ground arith

-- A warrior that is no fighter, such as a swordsman, a page or a spearman, grows by no random amount:
-- the branches of the loop leave the maxima, and everything else, as they are.
grow_maxima-stays :
    (rand : ℕ → ℕ) (skill : ℕ → Option ℕ) (g : Growth)
    → job_is_a g.chr.job 100 ≡ true
    → job_is_a g.chr.job 110 ≡ false
    → grow_maxima rand skill g ≡ g
unfolding grow_maxima
grow_maxima-stays rand skill g warrior other =
    let (n, a, b, c, d, e, f, h, i, j, k) = warrior_alone g.chr.job warrior in
    rw (grow_maxima, n, other, a, b, c, d, e, f, h, i, j, k) refl
