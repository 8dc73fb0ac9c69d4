-- ===== src/Jobs/Sweep.antt =====
-- The jobs that remove_job() and remove_dead_jobs() of src/jobs.c leave, against the list of the jobs
-- with a number.
use layla_shell.Jobs.Job.{Job, free_job}
use layla_shell.Jobs.Table.{Table}
use layla_shell.Jobs.Removal.{
  vacate, prepend_slot, shift_down, shift_from, remove_job, is_dead, dead_at, sweep,
  remove_dead_jobs,
}
use layla_shell.Prelude.{
  ℕ, zero, suc, ◌<◌, ◌≤◌, ◌+◌, ◌≡◌, refl, ap, ◌∙◌, sym, inl, inr, true, false, some, List, [], ◌∷◌,
  ◌++◌, ◌==◌, ==_iff, arith, if◌then◌else◌, length, take, drop, Bool-cases, leb, leb→le, subst,
}

-- the jobs with a number, in the order of their slots
unfoldable pub live : List Job → List Job
live [] = []
live (job ∷ jobs) = if job.job_num == 0 then live jobs else job ∷ live jobs

live_cons : (job : Job) (a b : List Job) → live a ≡ live b → live (job ∷ a) ≡ live (job ∷ b)
unfolding live
live_cons job a b h = rw h refl

shift_down-live :
    (job : Job) (jobs : List Job) (l s : ℕ)
    → job.job_num ≡ 0
    → live (shift_down job jobs l s).slots ≡ live jobs
unfolding shift_down live prepend_slot vacate
shift_down-live job [] l s h = rw h refl
shift_down-live job (job2 ∷ jobs) l s h = elim (Bool-cases (job2.job_num == 0)) [
  | inl e ↦ rw (e, h) (shift_down-live job2 jobs l s ((==_iff job2.job_num 0).0 e))
  | inr e ↦ rw (e, e) (ap (λ js. job2 ∷ js) (shift_down-live (vacate job2) jobs _ _ refl))
]

shift_from-live :
    (jobs : List Job) (i : ℕ)
    → live (shift_from jobs i).slots ≡ live (take i jobs) ++ live (drop (suc i) jobs)
unfolding shift_from free_job prepend_slot live
shift_from-live [] zero = refl
shift_from-live [] (suc i) = refl
shift_from-live (job ∷ jobs) zero = shift_down-live (free_job job) jobs 0 0 refl
shift_from-live (job ∷ jobs) (suc i) = elim (Bool-cases (job.job_num == 0)) [
  | inl e ↦ rw e (shift_from-live jobs i)
  | inr e ↦ rw e (ap (λ js. job ∷ js) (shift_from-live jobs i))
]

-- remove_job() takes the job in the slot off the list of the jobs, and keeps the others in their order.
pub remove_job-live :
    (t : Table) (i : ℕ)
    → live (remove_job t i).jobs_table
      ≡ live (take i t.jobs_table) ++ live (drop (suc i) t.jobs_table)
unfolding remove_job
remove_job-live t i = shift_from-live t.jobs_table i

-- the jobs that are not dead
unfoldable pub kept : List Job → List Job
unfolding is_dead
kept [] = []
kept (job ∷ jobs) = if is_dead job then kept jobs else job ∷ kept jobs

kept-live :
    (job : Job) (a b : List Job)
    → kept (live a) ≡ kept (live b)
    → kept (live (job ∷ a)) ≡ kept (live (job ∷ b))
unfolding live kept
kept-live job a b h = elim (Bool-cases (job.job_num == 0)) [
  | inl e ↦ rw e h
  | inr e ↦ rw e (rw h refl)
]

dead_numbered : (job : Job) → is_dead job ≡ true → (job.job_num == 0) ≡ false
unfolding is_dead
dead_numbered job h = ground arith

-- the shift at a dead job, which keeps the other jobs and the slots before it
shift_from-kept :
    (jobs : List Job) (i : ℕ)
    → dead_at jobs i ≡ true
    → kept (live (shift_from jobs i).slots) ≡ kept (live jobs)
unfolding shift_from prepend_slot dead_at live kept free_job
shift_from-kept [] i h = cc
shift_from-kept (job ∷ jobs) zero h =
    rw (dead_numbered job h, h) (ap kept (shift_down-live (free_job job) jobs 0 0 refl))
shift_from-kept (job ∷ jobs) (suc i) h =
    kept-live job (shift_from jobs i).slots jobs (shift_from-kept jobs i h)

shift_from-count :
    (jobs : List Job) (i : ℕ)
    → dead_at jobs i ≡ true
    → suc (length (live (shift_from jobs i).slots)) ≡ length (live jobs)
unfolding shift_from prepend_slot dead_at live free_job
shift_from-count [] i h = cc
shift_from-count (job ∷ jobs) zero h =
    rw (dead_numbered job h)
      (ap (λ js. suc (length js)) (shift_down-live (free_job job) jobs 0 0 refl))
shift_from-count (job ∷ jobs) (suc i) h = elim (Bool-cases (job.job_num == 0)) [
  | inl e ↦ rw e (shift_from-count jobs i h)
  | inr e ↦ rw e (ap suc (shift_from-count jobs i h))
]

length-shift_down :
    (job : Job) (jobs : List Job) (l s : ℕ)
    → length (shift_down job jobs l s).slots ≡ suc (length jobs)
unfolding shift_down prepend_slot
length-shift_down job [] l s = refl
length-shift_down job (job2 ∷ jobs) l s = elim (Bool-cases (job2.job_num == 0)) [
  | inl e ↦ rw e (ap suc (length-shift_down job2 jobs l s))
  | inr e ↦ rw e (ap suc (length-shift_down (vacate job2) jobs _ _))
]

length-shift_from : (jobs : List Job) (i : ℕ) → length (shift_from jobs i).slots ≡ length jobs
unfolding shift_from prepend_slot
length-shift_from [] i = refl
length-shift_from (job ∷ jobs) zero = length-shift_down (free_job job) jobs 0 0
length-shift_from (job ∷ jobs) (suc i) = ap suc (length-shift_from jobs i)

shift_from-dead_at :
    (jobs : List Job) (i k : ℕ) → k < i → dead_at (shift_from jobs i).slots k ≡ dead_at jobs k
unfolding shift_from prepend_slot dead_at
shift_from-dead_at [] i k h = refl
shift_from-dead_at (job ∷ jobs) zero k h = absurd (omega arith)
shift_from-dead_at (job ∷ jobs) (suc i) zero h = refl
shift_from-dead_at (job ∷ jobs) (suc i) (suc k) h = shift_from-dead_at jobs i k (omega arith)

-- where no slot is dead, every job is kept
none_dead :
    (jobs : List Job)
    → ((k : ℕ) → k < length jobs → dead_at jobs k ≡ false)
    → live jobs ≡ kept (live jobs)
unfolding live kept dead_at
none_dead [] h = refl
none_dead (job ∷ jobs) h =
    let rest = none_dead jobs (λ k lt. h (suc k) (omega arith)) in
    elim (Bool-cases (job.job_num == 0)) [
      | inl e ↦ rw e rest
      | inr e ↦ rw (e, h 0 (omega arith)) (ap (λ js. job ∷ js) rest)
    ]

length-live : (jobs : List Job) → length (live jobs) ≤ length jobs
unfolding live
length-live [] = omega arith
length-live (job ∷ jobs) = ground (arith, length-live jobs)

-- what the loop is to give from a table
pub record IsSwept (t after : Table) : Type 0 where
  pub jobs : live after.jobs_table ≡ kept (live t.jobs_table)
  pub slots : length after.jobs_table ≡ length t.jobs_table

remove-IsSwept :
    (t after : Table) (i : ℕ)
    → dead_at t.jobs_table i ≡ true
    → IsSwept (remove_job t i) after
    → IsSwept t after
unfolding remove_job
remove-IsSwept t after i dead h = record {
  jobs = h.jobs ∙ shift_from-kept t.jobs_table i dead;
  slots = h.slots ∙ length-shift_from t.jobs_table i;
}

-- the slots below `i` hold no dead job
abbrev CleanBelow : ℕ → Table → Type 0
CleanBelow i t = (k : ℕ) → k < i → dead_at t.jobs_table k ≡ false

pub remove_length : (t : Table) (i : ℕ) → length (remove_job t i).jobs_table ≡ length t.jobs_table
unfolding remove_job
remove_length t i = length-shift_from t.jobs_table i

remove_clean : (t : Table) (i : ℕ) → CleanBelow i t → CleanBelow i (remove_job t i)
unfolding remove_job
remove_clean t i clean k lt = shift_from-dead_at t.jobs_table i k lt ∙ clean k lt

-- the measure of the loop, which a removal lowers
remove_measure :
    (t : Table) (i fuel : ℕ)
    → dead_at t.jobs_table i ≡ true
    → length (live t.jobs_table) + length t.jobs_table < suc fuel + i
    → length (live (remove_job t i).jobs_table) + length (remove_job t i).jobs_table < fuel + i
unfolding remove_job
remove_measure t i fuel dead h =
    omega (arith, shift_from-count t.jobs_table i dead, length-shift_from t.jobs_table i)

next_clean :
    (t : Table) (i : ℕ) → CleanBelow i t → dead_at t.jobs_table i ≡ false → CleanBelow (i + 1) t
next_clean t i clean alive k lt = elim (Bool-cases (k == i)) [
  | inl e ↦ let same : k ≡ i = (==_iff k i).0 e in rw same alive
  | inr e ↦ clean k (ground (arith, ==_iff k i))
]

sweep_total :
    (fuel i : ℕ) (t : Table)
    → length (live t.jobs_table) + length t.jobs_table < fuel + i
    → i ≤ length t.jobs_table
    → CleanBelow i t
    → (after : Table) × (sweep fuel i t ≡ some after) × IsSwept t after
unfolding sweep
sweep_total zero i t h inside clean = absurd (omega arith)
sweep_total (suc fuel) i t h inside clean = elim (Bool-cases (leb (length t.jobs_table) i)) [
  | inl e ↦ (
    t,
    rw e refl,
    record {
      jobs =
          none_dead t.jobs_table
            (λ k lt. clean k (ground (arith, leb→le (length t.jobs_table) i e)));
      slots = refl;
    },
  )
  | inr e ↦ elim (Bool-cases (dead_at t.jobs_table i)) [
    | inl dead ↦
        let (after, gives, swept) =
          sweep_total fuel i (remove_job t i) (remove_measure t i fuel dead h)
            (subst (λ n. i ≤ n) (sym (remove_length t i)) inside) (remove_clean t i clean) in
        (after, rw (e, dead) gives, remove-IsSwept t after i dead swept)
    | inr alive ↦
        let (after, gives, swept) =
          sweep_total fuel (i + 1) t (omega arith) (ground arith) (next_clean t i clean alive) in
        (after, rw (e, alive) gives, swept)
  ]
]

-- remove_dead_jobs() ends, and leaves exactly the jobs that are not both complete and notified, in their
-- order and in as many slots as before.
pub remove_dead_jobs_total :
    (t : Table)
    → (after : Table) × (remove_dead_jobs t ≡ some after)
      × (live after.jobs_table ≡ kept (live t.jobs_table))
      × (length after.jobs_table ≡ length t.jobs_table)
unfolding remove_dead_jobs
remove_dead_jobs_total t =
    let (after, gives, swept) =
      sweep_total (length t.jobs_table + length t.jobs_table + 1) 0 t
        (omega (arith, length-live t.jobs_table)) (omega arith) (λ k lt. absurd (omega arith)) in
    (after, gives, swept.jobs, swept.slots)
