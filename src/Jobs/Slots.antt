-- ===== src/Jobs/Slots.antt =====
-- What the changes of a slot of the table keep, in src/jobs.c: every slot is free or has a fine job.
use mathlib.Core.Option.{some-injective}
use layla_shell.Jobs.Job.{Job, free_job}
use layla_shell.Jobs.Fine.{IsFine}
use layla_shell.Jobs.Removal.{vacate, prepend_slot, shift_down, shift_from}
use layla_shell.Jobs.Notice.{job_at, put_job}
use layla_shell.Prelude.{
  ℕ, zero, suc, ◌≡◌, refl, ap, inl, inr, ◌≢◌, none, some, List, [], ◌∷◌, ◌==◌, length, All,
  Bool-cases,
}

-- the slot is free, or its job is fine
abbrev pub IsSlot : Job → Type 0
IsSlot job = job.job_num ≢ 0 → IsFine job

free-IsSlot : (job : Job) → job.job_num ≡ 0 → IsSlot job
free-IsSlot job e = λ h. absurd (h e)

vacated : (job : Job) → (vacate job).job_num ≡ 0
unfolding vacate
vacated job = refl

shift_down-All :
    (job : Job) (jobs : List Job) (l s : ℕ)
    → IsSlot job
    → All IsSlot jobs
    → All IsSlot (shift_down job jobs l s).slots
unfolding shift_down prepend_slot
shift_down-All job [] l s h k = (h, tt)
shift_down-All job (job2 ∷ jobs) l s h k = elim (Bool-cases (job2.job_num == 0)) [
  | inl e ↦ rw e (h, shift_down-All job2 jobs l s k.0 k.1)
  | inr e ↦
      rw e
        (k.0, shift_down-All (vacate job2) jobs _ _ (free-IsSlot (vacate job2) (vacated job2)) k.1)
]

pub shift_from-All :
    (jobs : List Job) (i : ℕ) → All IsSlot jobs → All IsSlot (shift_from jobs i).slots
unfolding shift_from prepend_slot free_job
shift_from-All [] i h = tt
shift_from-All (job ∷ jobs) zero h =
    shift_down-All (free_job job) jobs 0 0 (free-IsSlot (free_job job) refl) h.1
shift_from-All (job ∷ jobs) (suc i) h = (h.0, shift_from-All jobs i h.1)

pub put_job-All :
    (jobs : List Job) (i : ℕ) (new : Job)
    → IsSlot new
    → All IsSlot jobs
    → All IsSlot (put_job jobs i new) × (length (put_job jobs i new) ≡ length jobs)
unfolding put_job
put_job-All [] i new h k = (tt, refl)
put_job-All (job ∷ jobs) zero new h k = ((h, k.1), refl)
put_job-All (job ∷ jobs) (suc i) new h k =
    let (rest, same) = put_job-All jobs i new h k.1 in ((k.0, rest), ap suc same)

pub job_at-IsSlot :
    (jobs : List Job) (i : ℕ) (job : Job) → All IsSlot jobs → job_at jobs i ≡ some job → IsSlot job
unfolding job_at
job_at-IsSlot [] i job h e = absurd (no_job e)
  where
    no_job : none ≢ some job
    no_job p = cc
job_at-IsSlot (x ∷ jobs) zero job h e =
    let same : x ≡ job = some-injective x job e in rw (← same) h.0
job_at-IsSlot (x ∷ jobs) (suc i) job h e = job_at-IsSlot jobs i job h.1 e
