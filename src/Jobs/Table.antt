-- ===== src/Jobs/Table.antt =====
-- The table of jobs of src/jobs.c: `jobs_table`, its slots in order, with total_jobs, cur_job and
-- prev_job. A pointer to a job that is only read is the job, and one through which a slot changes is the
-- index of the slot. A slot whose job_num is 0 is free. The masking of SIGCHLD around the loops is left
-- out.
use layla_shell.Jobs.Status.{running, is_stopped, stopped}
use layla_shell.Jobs.Job.{Job, find_pid}
use layla_shell.Prelude.Int.{ℤ, pos, ◌+ℤ◌}
use layla_shell.Prelude.{
  ℕ, zero, suc, ◌+◌, Bool, true, false, not, ◌&&◌, Option, none, some, List, [], ◌∷◌, ◌==◌,
  if◌then◌else◌, ltb, get_or,
}
use mathlib.Core.Option

-- MAX_JOBS
abbrev pub max_jobs : ℕ
max_jobs = 255

pub record Table : Type 0 where
  pub jobs_table : List Job
  pub total_jobs : ℤ
  pub cur_job : ℕ
  pub prev_job : ℕ

unfoldable pub find_number : List Job → ℕ → Option Job
find_number [] n = none
find_number (job ∷ jobs) n = if job.job_num == n then some job else find_number jobs n

unfoldable pub get_job_by_jobid : Table → ℕ → Option Job
unfolding find_number
get_job_by_jobid t n = if n == 0 then none else find_number t.jobs_table n

-- whether the process is one of the job's
unfoldable pub has_pid : Job → ℕ → Bool
unfolding find_pid
has_pid job pid = elim (find_pid job.proc_count job.pids pid) [ none ↦ false | some _ ↦ true ]

unfoldable pub find_slot : List Job → ℕ → Option ℕ
unfolding has_pid
find_slot [] pid = none
find_slot (job ∷ jobs) pid = if has_pid job pid then some 0 else Option.map suc (find_slot jobs pid)

unfoldable pub get_job_by_any_pid : Table → ℕ → Option ℕ
unfolding find_slot
get_job_by_any_pid t pid = if pid == 0 then none else find_slot t.jobs_table pid

-- the test of last_job_with_status()
unfoldable pub is_candidate : ℕ → Bool → Job → Bool
unfolding running stopped
is_candidate older_than run job =
    not (job.job_num == 0)
    && ltb job.job_num older_than
    && (if run then running job.status else stopped job.status)

unfoldable pub later_job : Option Job → Job → Option Job
later_job none job = some job
later_job (some last_job) job = if ltb last_job.job_num job.job_num then some job else some last_job

unfoldable pub last_job_loop : ℕ → Bool → Option Job → List Job → Option Job
unfolding is_candidate later_job
last_job_loop older_than run last_job [] = last_job
last_job_loop older_than run last_job (job ∷ jobs) =
    last_job_loop older_than run
      (if is_candidate older_than run job then later_job last_job job else last_job) jobs

unfoldable pub last_job_with_status : Table → ℕ → Bool → Option Job
unfolding last_job_loop
last_job_with_status t older_than run = last_job_loop older_than run none t.jobs_table

unfoldable pub last_running_job : Table → ℕ → Option Job
unfolding last_job_with_status
last_running_job t older_than = last_job_with_status t older_than true

unfoldable pub last_stopped_job : Table → ℕ → Option Job
unfolding last_job_with_status
last_stopped_job t older_than = last_job_with_status t older_than false

-- the job's number, or `d` for NULL
unfoldable pub number_or : ℕ → Option Job → ℕ
number_or d none = d
number_or d (some job) = job.job_num

-- the tail of set_cur_job(): the running job before the current one, or the current one itself
unfoldable pub prev_running : Table → Job → Table
unfolding number_or last_running_job running
prev_running t cur = record t {
  prev_job =
      number_or t.cur_job (last_running_job t (if running cur.status then t.cur_job else max_jobs));
}

-- the last stopped job, if there is one
unfoldable pub prev_stopped : Table → Job → Option Job → Table
unfolding prev_running
prev_stopped t cur (some job2) = record t { prev_job = job2.job_num }
prev_stopped t cur none = prev_running t cur

unfoldable pub choose_prev : Table → Option Job → Table
unfolding last_stopped_job prev_stopped prev_running stopped
choose_prev t none = record t { prev_job = t.cur_job }
choose_prev t (some cur) =
    if stopped cur.status
    then prev_stopped t cur (last_stopped_job t cur.job_num)
    else prev_running t cur

unfoldable pub stopped_job : Option Job → Bool
unfolding stopped
stopped_job none = false
stopped_job (some job) = stopped job.status

-- the first step of set_cur_job()
unfoldable pub move_cur : Table → ℕ → Table
move_cur t n = if t.cur_job == n then t else record t { prev_job = t.cur_job; cur_job = n }

-- the rest of it: a stopped job other than the current one stays the previous one
unfoldable pub settle_prev : Table → Table
unfolding get_job_by_jobid stopped_job choose_prev
settle_prev t =
    if not (t.prev_job == 0)
      && not (t.prev_job == t.cur_job)
      && stopped_job (get_job_by_jobid t t.prev_job)
    then t
    else choose_prev t (get_job_by_jobid t t.cur_job)

-- the number is all that set_cur_job() reads of its job
unfoldable pub set_cur_job : Table → ℕ → Table
unfolding move_cur settle_prev
set_cur_job t n = settle_prev (move_cur t n)

-- the test of reset_cur_job(): STOPPED() of the job with a number, if there is one
unfoldable pub is_stopped_number : Table → ℕ → Bool
unfolding is_stopped get_job_by_jobid
is_stopped_number t n = elim (get_job_by_jobid t n) [
  | none ↦ false
  | some job ↦ is_stopped job.status
]

-- the number that reset_cur_job() chooses, 0 for none; `==` finds the total 0
unfoldable pub choose_cur : Table → Bool → ℕ
unfolding is_stopped_number number_or last_stopped_job last_running_job
choose_cur t has_jobs =
    let running_one = number_or 0 (last_running_job t max_jobs) in
    let stopped_one = number_or 0 (last_stopped_job t max_jobs) in
    if has_jobs && is_stopped_number t t.cur_job
    then t.cur_job
    else (if is_stopped_number t t.prev_job
        then t.prev_job
        else (if stopped_one == 0 then running_one else stopped_one))

unfoldable pub is_nonzero : ℤ → Bool
is_nonzero (pos zero) = false
is_nonzero _ = true

unfoldable pub reset_cur_job : Table → Table
unfolding choose_cur is_nonzero set_cur_job
reset_cur_job t =
    let i = choose_cur t (is_nonzero t.total_jobs) in
    if i == 0 then record t { cur_job = 0; prev_job = 0 } else set_cur_job t i

-- the highest number of the jobs, from `jnum` on
unfoldable pub highest : ℕ → List Job → ℕ
highest jnum [] = jnum
highest jnum (job ∷ jobs) = highest (if ltb jnum job.job_num then job.job_num else jnum) jobs

pub record Placed : Type 0 where
  pub jobs : List Job
  pub added : Job

-- the loop of add_job(): the first free slot takes the job
unfoldable pub place : Job → ℕ → List Job → Option Placed
unfolding highest
place new jnum [] = none
place new jnum (job ∷ jobs) =
    let added = record new { job_num = highest jnum (job ∷ jobs) + 1 } in
    let rest = place new (if ltb jnum job.job_num then job.job_num else jnum) jobs in
    if job.job_num == 0
    then some (record { jobs = added ∷ jobs; added = added })
    else Option.map (λ (p : Placed). record p { jobs = job ∷ p.jobs }) rest

-- the new table, the entry of the job, and the process id that $! is set to, if it is
pub record Added : Type 0 where
  pub table : Table
  pub entry : Job
  pub bang : Option ℕ

unfoldable pub enter : Table → Placed → Added
unfolding set_cur_job
enter t p = record {
  table =
      set_cur_job (record t { jobs_table = p.jobs; total_jobs = t.total_jobs +ℤ pos 1 })
        p.added.job_num;
  entry = p.added;
  bang = if p.added.flags.foreground then none else some (get_or p.added.pids 0 0);
}

-- `none` is NULL: the table is full
unfoldable pub add_job : Table → Job → Option Added
unfolding place enter
add_job t new = Option.map (enter t) (place new 0 t.jobs_table)
