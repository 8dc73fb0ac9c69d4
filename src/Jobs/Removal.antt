-- ===== src/Jobs/Removal.antt =====
-- How src/jobs.c takes jobs off its table: remove_job(), remove_dead_jobs(), and pending_jobs(), which
-- counts what is left. A job is removed through the index of its slot.
use layla_shell.Jobs.Status.{stopped}
use layla_shell.Jobs.Job.{Job, free_job}
use layla_shell.Jobs.Table.{Table}
use layla_shell.Prelude.Int.{pos, ◌-ℤ◌}
use layla_shell.Prelude.{
  ℕ, zero, suc, ◌+◌, Bool, false, not, ◌&&◌, ◌||◌, Option, none, some, List, [], ◌∷◌, ◌==◌,
  if◌then◌else◌, ltb, leb, length,
}

-- what is reset in the slot that a job was copied out of; `pids` and `exit_codes` stay
unfoldable pub vacate : Job → Job
vacate job = record job {
  job_num = 0;
  commandstr = none;
  proc_count = 0;
  child_exits = 0;
  tty_attr = none;
}

-- the slots after the shift, with `last_job` and `last_suspended`
pub record Shifted : Type 0 where
  pub slots : List Job
  pub last_job : ℕ
  pub last_suspended : ℕ

-- the tests behind the copy, on the slot that was just reset
unfoldable pub raise_last : Job → ℕ → ℕ
raise_last job2 last_job = if ltb last_job job2.job_num then job2.job_num else last_job

unfoldable pub raise_suspended : Job → ℕ → ℕ
unfolding stopped
raise_suspended job2 last_suspended =
    if stopped job2.status && ltb last_suspended job2.job_num then job2.job_num else last_suspended

unfoldable pub prepend_slot : Job → Shifted → Shifted
prepend_slot job s = record s { slots = job ∷ s.slots }

-- the loop that shifts: `job` stands before the slots `job2` goes over
unfoldable pub shift_down : Job → List Job → ℕ → ℕ → Shifted
unfolding vacate raise_last raise_suspended prepend_slot
shift_down job [] last_job last_suspended = record {
  slots = job ∷ [];
  last_job = last_job;
  last_suspended = last_suspended;
}
shift_down job (job2 ∷ jobs) last_job last_suspended =
    if job2.job_num == 0
    then prepend_slot job (shift_down job2 jobs last_job last_suspended)
    else prepend_slot job2 (
        shift_down (vacate job2) jobs (raise_last (vacate job2) last_job)
          (raise_suspended (vacate job2) last_suspended))

-- the slots from the removed one on, at index `i`
unfoldable pub shift_from : List Job → ℕ → Shifted
unfolding shift_down free_job
shift_from [] i = record { slots = []; last_job = 0; last_suspended = 0 }
shift_from (job ∷ jobs) zero = shift_down (free_job job) jobs 0 0
shift_from (job ∷ jobs) (suc i) = prepend_slot job (shift_from jobs i)

unfoldable pub number_at : List Job → ℕ → ℕ
number_at [] i = 0
number_at (job ∷ jobs) zero = job.job_num
number_at (job ∷ jobs) (suc i) = number_at jobs i

-- the table after remove_job(), which returns number_at
unfoldable pub remove_job : Table → ℕ → Table
unfolding shift_from number_at
remove_job t i =
    let res = number_at t.jobs_table i in
    let s = shift_from t.jobs_table i in
    let current = if res == t.cur_job then t.prev_job else t.cur_job in
    let previous = if res == t.cur_job then 0 else t.prev_job in
    record {
      jobs_table = s.slots;
      total_jobs = t.total_jobs -ℤ pos 1;
      cur_job = current;
      prev_job =
          if previous == 0
          then (if s.last_suspended == 0 then s.last_job else s.last_suspended)
          else previous;
    }

-- the test of remove_dead_jobs()
unfoldable pub is_dead : Job → Bool
is_dead job = not (job.job_num == 0) && job.child_exits == job.proc_count && job.flags.notified

unfoldable pub dead_at : List Job → ℕ → Bool
unfolding is_dead
dead_at [] i = false
dead_at (job ∷ jobs) zero = is_dead job
dead_at (job ∷ jobs) (suc i) = dead_at jobs i

-- the loop, which looks at a slot again after a removal; `none` means that the fuel ran out
unfoldable pub sweep : ℕ → ℕ → Table → Option Table
unfolding dead_at remove_job
sweep zero i t = none
sweep (suc fuel) i t =
    let again = sweep fuel i (remove_job t i) in
    let next = sweep fuel (i + 1) t in
    if leb (length t.jobs_table) i then some t else (if dead_at t.jobs_table i then again else next)

-- every slot is looked at once, and once more for each job that is removed
unfoldable pub remove_dead_jobs : Table → Option Table
unfolding sweep
remove_dead_jobs t = sweep (length t.jobs_table + length t.jobs_table + 1) 0 t

-- the test of pending_jobs()
unfoldable pub is_pending : Job → Bool
is_pending job =
    not (job.job_num == 0) && (job.child_exits == 0 || not (job.child_exits == job.proc_count))

unfoldable pub count_pending : List Job → ℕ
unfolding is_pending
count_pending [] = 0
count_pending (job ∷ jobs) = (if is_pending job then 1 else 0) + count_pending jobs

unfoldable pub pending_jobs : Table → ℕ
unfolding count_pending
pending_jobs t = count_pending t.jobs_table
