-- ===== src/Job/Order.antt =====
-- Being of a job is an order on jobs within a type.
use syrup.Base.{ℕ, ◌≡◌, true, arith}
use syrup.Job.{job_type, job_is_a}

-- Every job is of itself, whatever is of a job that is of another is of the other, and a job is of
-- the type of each job that it is of.
job_is_a_order :
    (job middle base : ℕ)
    → job_is_a job middle ≡ true
    → job_is_a middle base ≡ true
    → (job_is_a job job ≡ true) × (job_is_a job base ≡ true) × (job_type job ≡ job_type base)
unfolding job_is_a job_type
job_is_a_order job middle base h k = ground arith
