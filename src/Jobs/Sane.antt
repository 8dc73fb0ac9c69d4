-- ===== src/Jobs/Sane.antt =====
-- The shell's state between any two events of src/jobs.c: the jobs of the table and the list of dead
-- processes, kept by each of its operations.
use layla_shell.Jobs.Job.{Job, set_job_exit_status}
use layla_shell.Jobs.Slots.{IsSlot, shift_from-All, put_job-All, job_at-IsSlot}
use layla_shell.Jobs.Fine.{
  same_IsFine, set_job_exit_status-IsFine, set_job_exit_status-number, update_entry-IsFine,
  update_entry-number,
}
use layla_shell.Jobs.Table.{get_job_by_any_pid, max_jobs}
use layla_shell.Jobs.Removal.{remove_job}
use layla_shell.Jobs.Sweep.{remove_length}
use layla_shell.Jobs.Dead.{Dead, deadlist_max}
use layla_shell.Jobs.Reap.{IsUnique, add_to_deadlist-IsUnique}
use layla_shell.Jobs.Notice.{
  Action, Env, Shell, act, job_at, with_job, output_job, output_slot, do_output_status,
  update_entry, run_trap, tell_user, notice_job, notice_slot, announce, file_dead,
  notice_termination, check_job, check_slot, check_reports, check_on_children, print_status,
  coproc_close_fds, chld_trap,
}
use layla_shell.Prelude.{
  ℕ, ◌≤◌, ◌≡◌, refl, ◌∙◌, Bool, true, false, not, ◌&&◌, Option, none, some, List, [], ◌∷◌, ◌==◌,
  arith, if◌then◌else◌, length, All,
}

pub record IsSane (sh : Shell) : Type 0 where
  pub jobs : All IsSlot sh.table.jobs_table
  pub slots : length sh.table.jobs_table ≡ max_jobs
  pub dead : IsUnique sh.deadlist
  pub dead_fits : length sh.deadlist ≤ deadlist_max

act-IsSane : (sh : Shell) (a : Action) → IsSane sh → IsSane (act sh a)
unfolding act
act-IsSane sh a h = record {
  jobs = h.jobs;
  slots = h.slots;
  dead = h.dead;
  dead_fits = h.dead_fits;
}

pub with_job-IsSane :
    (sh : Shell) (i : ℕ) (job : Job) → IsSlot job → IsSane sh → IsSane (with_job sh i job)
unfolding with_job
with_job-IsSane sh i job slot h =
    let (jobs, same) = put_job-All sh.table.jobs_table i job slot h.jobs in
    record { jobs = jobs; slots = same ∙ h.slots; dead = h.dead; dead_fits = h.dead_fits }

pub remove_IsSane :
    (sh : Shell) (i : ℕ) → IsSane sh → IsSane (record sh { table = remove_job sh.table i })
unfolding remove_job
remove_IsSane sh i h = record {
  jobs = shift_from-All sh.table.jobs_table i h.jobs;
  slots = remove_length sh.table i ∙ h.slots;
  dead = h.dead;
  dead_fits = h.dead_fits;
}

if-IsSane : (b : Bool) (u v : Shell) → IsSane u → IsSane v → IsSane (if b then u else v)
if-IsSane true u v h k = h
if-IsSane false u v h k = k

-- the job in a slot, as the handlers are given it
abbrev OfSlot : Option Job → Type 0
OfSlot none = Unit
OfSlot (some job) = IsSlot job

job_at-OfSlot : (sh : Shell) (i : ℕ) → IsSane sh → OfSlot (job_at sh.table.jobs_table i)
job_at-OfSlot sh i h = go (job_at sh.table.jobs_table i) (job_at-IsSlot sh.table.jobs_table i)
  where
    go :
        (o : Option Job)
        → ((job : Job) → All IsSlot sh.table.jobs_table → o ≡ some job → IsSlot job)
        → OfSlot o
    go none k = tt
    go (some job) k = k job h.jobs refl

output_job-IsSane :
    (sh : Shell) (i pid status : ℕ) (o : Option Job)
    → OfSlot o
    → IsSane sh
    → IsSane (output_job sh i pid status o)
unfolding output_job
output_job-IsSane sh i pid status none slot h = h
output_job-IsSane sh i pid status (some job) slot h =
    let said = act sh (print_status job.job_num pid status) in
    let told = record job { flags = record job.flags { notified = true } } in
    let marked = with_job said i told in
    let sane : IsSane marked =
      with_job-IsSane said i told
        (λ n.
          same_IsFine told job (record { list = refl; codes = refl; count = refl; group = refl })
            refl (slot n))
        (act-IsSane sh (print_status job.job_num pid status) h) in
    if-IsSane (job.child_exits == job.proc_count)
      (record marked { table = remove_job marked.table i }) marked (remove_IsSane marked i sane)
      sane

output_slot-IsSane :
    (sh : Shell) (pid status : ℕ) (o : Option ℕ) → IsSane sh → IsSane (output_slot sh pid status o)
unfolding output_slot
output_slot-IsSane sh pid status none h = h
output_slot-IsSane sh pid status (some i) h =
    output_job-IsSane sh i pid status (job_at sh.table.jobs_table i) (job_at-OfSlot sh i h) h

do_output_status-IsSane :
    (sh : Shell) (pid status : ℕ) → IsSane sh → IsSane (do_output_status sh pid status)
unfolding do_output_status
do_output_status-IsSane sh pid status h =
    output_slot-IsSane sh pid status (get_job_by_any_pid sh.table pid) h

run_trap-IsSane :
    (env : Env) (sh : Shell) (status : ℕ) (o : Option Job)
    → IsSane sh
    → IsSane (run_trap env sh status o)
unfolding run_trap
run_trap-IsSane env sh status none h = h
run_trap-IsSane env sh status (some job) h =
    if-IsSane _ (act sh chld_trap) sh (act-IsSane sh chld_trap h) h

tell_user-IsSane :
    (env : Env) (sh : Shell) (i : ℕ) (job : Job) (pid status : ℕ)
    → IsSane sh
    → IsSane (tell_user env sh i job pid status)
unfolding tell_user
tell_user-IsSane env sh i job pid status h =
    if-IsSane job.flags.job_control _ sh
      (run_trap-IsSane env _ status _ (
        if-IsSane (not env.notify_now && job.flags.notify) (do_output_status sh pid status) sh
          (do_output_status-IsSane sh pid status h) h))
      h

notice_job-IsSane :
    (env : Env) (sh : Shell) (i pid status : ℕ) (o : Option Job)
    → OfSlot o
    → IsSane sh
    → IsSane (notice_job env sh i pid status o)
unfolding notice_job
notice_job-IsSane env sh i pid status none slot h = h
notice_job-IsSane env sh i pid status (some job) slot h =
    let updated = update_entry env job pid status in
    tell_user-IsSane env (with_job sh i updated) i updated pid status (
      with_job-IsSane sh i updated
        (λ n.
          update_entry-IsFine env job pid status
            (slot (λ e. n (update_entry-number env job pid status ∙ e))))
        h)

notice_slot-IsSane :
    (env : Env) (sh : Shell) (pid status : ℕ) (o : Option ℕ)
    → IsSane sh
    → IsSane (notice_slot env sh pid status o)
unfolding notice_slot
notice_slot-IsSane env sh pid status none h = h
notice_slot-IsSane env sh pid status (some i) h =
    notice_job-IsSane env sh i pid status (job_at sh.table.jobs_table i) (job_at-OfSlot sh i h) h

announce-IsSane :
    (env : Env) (sh : Shell) (pid status : ℕ) → IsSane sh → IsSane (announce env sh pid status)
unfolding announce
announce-IsSane env sh pid status h =
    let closed = if-IsSane _ (act sh coproc_close_fds) sh (act-IsSane sh coproc_close_fds h) h in
    if-IsSane (env.notify_now && env.interactive_shell) _ _
      (do_output_status-IsSane _ pid status closed) closed

file_dead-IsSane :
    (sh : Shell) (add : Bool) (pid status : ℕ) → IsSane sh → IsSane (file_dead sh add pid status)
unfolding file_dead
file_dead-IsSane sh true pid status h =
    let (unique, fits) = add_to_deadlist-IsUnique sh.deadlist pid status h.dead h.dead_fits in
    record { jobs = h.jobs; slots = h.slots; dead = unique; dead_fits = fits }
file_dead-IsSane sh false pid status h = h

-- notice_termination() keeps the state sane, whatever the process, its status and the options are.
pub notice_termination-IsSane :
    (env : Env) (sh : Shell) (pid status : ℕ) (add : Bool)
    → IsSane sh
    → IsSane (notice_termination env sh pid status add)
unfolding notice_termination
notice_termination-IsSane env sh pid status add h = if-IsSane (pid == 0) sh _ h (
    notice_slot-IsSane env _ pid status _ (
      file_dead-IsSane (announce env sh pid status) add pid status
        (announce-IsSane env sh pid status h)))

check_job-IsSane :
    (env : Env) (from_list : Bool) (sh : Shell) (i pid status : ℕ) (o : Option Job)
    → OfSlot o
    → IsSane sh
    → IsSane (check_job env from_list sh i pid status o)
unfolding check_job
check_job-IsSane env from_list sh i pid status none slot h = h
check_job-IsSane env from_list sh i pid status (some job) slot h =
    let updated = set_job_exit_status env.pipefail job pid status in
    let sane =
      with_job-IsSane sh i updated
        (λ n.
          set_job_exit_status-IsFine env.pipefail job pid status
            (slot (λ e. n (set_job_exit_status-number env.pipefail job pid status ∙ e))))
        h in
    let output = do_output_status-IsSane _ pid status sane in
    if-IsSane _ _ _ (if-IsSane _ _ _ output (remove_IsSane _ i sane)) (if-IsSane _ _ _ output sane)

check_slot-IsSane :
    (env : Env) (from_list : Bool) (sh : Shell) (pid status : ℕ) (o : Option ℕ)
    → IsSane sh
    → IsSane (check_slot env from_list sh pid status o)
unfolding check_slot
check_slot-IsSane env from_list sh pid status none h = h
check_slot-IsSane env from_list sh pid status (some i) h =
    check_job-IsSane env from_list sh i pid status (job_at sh.table.jobs_table i)
      (job_at-OfSlot sh i h) h

check_reports-IsSane :
    (env : Env) (from_list : Bool) (sh : Shell) (reports : List Dead)
    → IsSane sh
    → IsSane (check_reports env from_list sh reports)
unfolding check_reports
check_reports-IsSane env from_list sh [] h = h
check_reports-IsSane env from_list sh (d ∷ reports) h =
    check_reports-IsSane env from_list
      (check_slot env from_list sh d.pid d.status (get_job_by_any_pid sh.table d.pid)) reports
      (check_slot-IsSane env from_list sh d.pid d.status (get_job_by_any_pid sh.table d.pid) h)

-- check_on_children() keeps the state sane, whatever waitpid() answers.
pub check_on_children-IsSane :
    (env : Env) (sh : Shell) (reports : List Dead)
    → IsSane sh
    → IsSane (check_on_children env sh reports)
unfolding check_on_children
check_on_children-IsSane env sh reports h =
    let listed = check_reports-IsSane env true sh sh.deadlist h in
    check_reports-IsSane env false _ reports
      (record { jobs = listed.jobs; slots = listed.slots; dead = tt; dead_fits = omega arith })
