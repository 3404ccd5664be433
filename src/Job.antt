-- ===== src/Job.antt =====
-- src/job.h: jobs by their numbers.
pub mod Order
use syrup.Base.{ℕ, ◌/◌, ◌%◌, Bool, ◌&&◌, ◌||◌, ◌==◌, leb}

-- The numbers 0, 1 and 2 are explorers, Cygnus' knights and legends.
unfoldable pub job_type : ℕ → ℕ
job_type job = job / 1000

unfoldable pub job_is_a : (job base : ℕ) → Bool
job_is_a job base =
    job / 10 == base / 10 && leb base job || base / 10 % 10 == 0 && job / 100 == base / 100
