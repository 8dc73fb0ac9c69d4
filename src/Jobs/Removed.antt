-- ===== src/Jobs/Removed.antt =====
-- The current and the previous job after remove_job() of src/jobs.c.
use layla_shell.Jobs.Job.{Job, free_job}
use layla_shell.Jobs.Table.{Table}
use layla_shell.Jobs.Removal.{
  vacate, Shifted, raise_last, raise_suspended, prepend_slot, shift_down, shift_from, number_at,
  remove_job,
}
use layla_shell.Prelude.{
  ℕ, zero, suc, ◌≡◌, refl, inl, inr, List, [], ◌∷◌, ◌==◌, arith, if◌then◌else◌, Bool-cases,
}

-- neither number was found
abbrev FindsNone : Shifted → Type 0
FindsNone s = (s.last_job ≡ 0) × (s.last_suspended ≡ 0)

raise_vacated : (job : Job) → (raise_last (vacate job) 0 ≡ 0) × (raise_suspended (vacate job) 0 ≡ 0)
unfolding raise_last raise_suspended vacate
raise_vacated job = ground arith

shift_down-FindsNone : (job : Job) (jobs : List Job) → FindsNone (shift_down job jobs 0 0)
unfolding shift_down prepend_slot
shift_down-FindsNone job [] = (refl, refl)
shift_down-FindsNone job (job2 ∷ jobs) = elim (Bool-cases (job2.job_num == 0)) [
  | inl e ↦ rw e (shift_down-FindsNone job2 jobs)
  | inr e ↦
      let (last, suspended) = raise_vacated job2 in
      rw (e, last, suspended) (shift_down-FindsNone (vacate job2) jobs)
]

shift_from-FindsNone : (jobs : List Job) (i : ℕ) → FindsNone (shift_from jobs i)
unfolding shift_from prepend_slot
shift_from-FindsNone [] i = (refl, refl)
shift_from-FindsNone (job ∷ jobs) zero = shift_down-FindsNone (free_job job) jobs
shift_from-FindsNone (job ∷ jobs) (suc i) = shift_from-FindsNone jobs i

-- remove_job() never finds a job to be the previous one, although it looks for one: after the current job
-- is removed the previous one is current and no job is previous, and after another job is removed both
-- numbers are what they were.
pub remove_job-prev_job :
    (t : Table) (i : ℕ)
    → ((remove_job t i).cur_job
        ≡ (if number_at t.jobs_table i == t.cur_job then t.prev_job else t.cur_job))
      × ((remove_job t i).prev_job
          ≡ (if number_at t.jobs_table i == t.cur_job then 0 else t.prev_job))
unfolding remove_job
remove_job-prev_job t i = (refl, ground (arith, shift_from-FindsNone t.jobs_table i))
