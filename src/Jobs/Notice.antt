-- ===== src/Jobs/Notice.antt =====
-- How src/jobs.c takes in a change of a child's state: notice_termination(), do_output_status() and
-- check_on_children(), on the table, the list of dead processes and $?. What is printed, and the calls
-- out of the file, are a list of actions, the first one first. `reports` are the answers of waitpid()
-- until it has no more. A terminal state is a number that the system gives.
use layla_shell.Jobs.Status.{exited, stopped, has_ended}
use layla_shell.Jobs.Job.{Job, set_pid_exit_status, set_job_exit_status}
use layla_shell.Jobs.Table.{Table, get_job_by_any_pid}
use layla_shell.Jobs.Removal.{remove_job}
use layla_shell.Jobs.Dead.{Dead, add_to_deadlist}
use layla_shell.Prelude.{
  ℕ, zero, suc, Bool, true, false, not, ◌&&◌, ◌||◌, Option, none, some, List, [], ◌∷◌, ◌++◌, ◌==◌,
  if◌then◌else◌,
}

pub data Action : Type 0 where
  -- print_status_message() for a job, a process and a status
  print_status : ℕ → ℕ → ℕ → Action
  coproc_close_fds : Action
  -- trap_handler(CHLD_TRAP_NUM)
  chld_trap : Action

-- the options and the terminal, as the code asks for them
pub record Env : Type 0 where
  pub pipefail : Bool  -- option_set('l')
  pub notify_now : Bool  -- option_set('b')
  pub monitor : Bool  -- option_set('m')
  pub interactive_shell : Bool
  pub coproc_pid : ℕ
  pub is_a_tty : Bool  -- isatty(0)
  pub tty_attr_old : ℕ
  pub tcgetattr : Option ℕ  -- none: it fails

pub record Shell : Type 0 where
  pub table : Table
  pub deadlist : List Dead
  pub actions : List Action

unfoldable pub act : Shell → Action → Shell
act sh a = record sh { actions = sh.actions ++ a ∷ [] }

unfoldable pub job_at : List Job → ℕ → Option Job
job_at [] i = none
job_at (job ∷ jobs) zero = some job
job_at (job ∷ jobs) (suc i) = job_at jobs i

unfoldable pub put_job : List Job → ℕ → Job → List Job
put_job [] i new = []
put_job (job ∷ jobs) zero new = new ∷ jobs
put_job (job ∷ jobs) (suc i) new = job ∷ put_job jobs i new

unfoldable pub with_job : Shell → ℕ → Job → Shell
unfolding put_job
with_job sh i job = record sh {
  table = record sh.table { jobs_table = put_job sh.table.jobs_table i job };
}

-- behind the search of do_output_status(), for the job in slot `i`
unfoldable pub output_job : Shell → ℕ → ℕ → ℕ → Option Job → Shell
unfolding act with_job remove_job
output_job sh i pid status none = sh
output_job sh i pid status (some job) =
    let said = act sh (print_status job.job_num pid status) in
    let marked = with_job said i (record job { flags = record job.flags { notified = true } }) in
    if job.child_exits == job.proc_count
    then record marked { table = remove_job marked.table i }
    else marked

unfoldable pub output_slot : Shell → ℕ → ℕ → Option ℕ → Shell
unfolding output_job job_at
output_slot sh pid status none = sh
output_slot sh pid status (some i) = output_job sh i pid status (job_at sh.table.jobs_table i)

unfoldable pub do_output_status : Shell → ℕ → ℕ → Shell
unfolding output_slot get_job_by_any_pid
do_output_status sh pid status = output_slot sh pid status (get_job_by_any_pid sh.table pid)

-- the terminal state that is saved with a stopped job, and dropped with any other
unfoldable pub save_tty : Env → Job → ℕ → Job
unfolding stopped
save_tty env job status = record job {
  tty_attr =
      if stopped status && env.is_a_tty
      then (if job.flags.foreground then env.tcgetattr else some env.tty_attr_old)
      else none;
}

-- the update of the job's entry
unfoldable pub update_entry : Env → Job → ℕ → ℕ → Job
unfolding save_tty set_pid_exit_status set_job_exit_status
update_entry env job pid status =
    set_job_exit_status env.pipefail (set_pid_exit_status (save_tty env job status) pid status) pid
      status

-- the CHLD trap, by what slot `i` holds now
unfoldable pub run_trap : Env → Shell → ℕ → Option Job → Shell
unfolding exited act
run_trap env sh status none = sh
run_trap env sh status (some job) =
    if exited status && not job.flags.foreground && env.monitor && job.child_exits == job.proc_count
    then act sh chld_trap
    else sh

-- the calls for a job under job control
unfoldable pub tell_user : Env → Shell → ℕ → Job → ℕ → ℕ → Shell
unfolding do_output_status run_trap job_at
tell_user env sh i job pid status =
    let told =
      if not env.notify_now && job.flags.notify then do_output_status sh pid status else sh in
    if job.flags.job_control then run_trap env told status (job_at told.table.jobs_table i) else sh

unfoldable pub notice_job : Env → Shell → ℕ → ℕ → ℕ → Option Job → Shell
unfolding update_entry with_job tell_user
notice_job env sh i pid status none = sh
notice_job env sh i pid status (some job) =
    let updated = update_entry env job pid status in
    tell_user env (with_job sh i updated) i updated pid status

unfoldable pub notice_slot : Env → Shell → ℕ → ℕ → Option ℕ → Shell
unfolding notice_job job_at
notice_slot env sh pid status none = sh
notice_slot env sh pid status (some i) =
    notice_job env sh i pid status (job_at sh.table.jobs_table i)

-- the first steps of notice_termination()
unfoldable pub announce : Env → Shell → ℕ → ℕ → Shell
unfolding act has_ended do_output_status
announce env sh pid status =
    let closed =
      if pid == env.coproc_pid && has_ended status then act sh coproc_close_fds else sh in
    if env.notify_now && env.interactive_shell then do_output_status closed pid status else closed

unfoldable pub file_dead : Shell → Bool → ℕ → ℕ → Shell
unfolding add_to_deadlist
file_dead sh add pid status =
    if add then record sh { deadlist = add_to_deadlist sh.deadlist pid status } else sh

-- a process id of 0 stands for any that is not positive
unfoldable pub notice_termination : Env → Shell → ℕ → ℕ → Bool → Shell
unfolding announce file_dead notice_slot get_job_by_any_pid
notice_termination env sh pid status add =
    let filed = file_dead (announce env sh pid status) add pid status in
    if pid == 0 then sh else notice_slot env filed pid status (get_job_by_any_pid filed.table pid)

-- what check_on_children() does with a job that has a report; `controlled` is the further condition on
-- the reports of the list
unfoldable pub check_job : Env → Bool → Shell → ℕ → ℕ → ℕ → Option Job → Shell
unfolding set_job_exit_status with_job do_output_status remove_job exited
check_job env from_list sh i pid status none = sh
check_job env from_list sh i pid status (some job) =
    let updated = set_job_exit_status env.pipefail job pid status in
    let sh2 = with_job sh i updated in
    let controlled = not from_list || updated.flags.job_control in
    if updated.child_exits == updated.proc_count
    then (if not updated.flags.foreground && controlled
        then do_output_status sh2 pid status
        else record sh2 { table = remove_job sh2.table i })
    else (if not (exited status) && not updated.flags.notified && controlled
        then do_output_status sh2 pid status
        else sh2)

unfoldable pub check_slot : Env → Bool → Shell → ℕ → ℕ → Option ℕ → Shell
unfolding check_job job_at
check_slot env from_list sh pid status none = sh
check_slot env from_list sh pid status (some i) =
    check_job env from_list sh i pid status (job_at sh.table.jobs_table i)

unfoldable pub check_reports : Env → Bool → Shell → List Dead → Shell
unfolding check_slot get_job_by_any_pid
check_reports env from_list sh [] = sh
check_reports env from_list sh (d ∷ reports) =
    check_reports env from_list
      (check_slot env from_list sh d.pid d.status (get_job_by_any_pid sh.table d.pid)) reports

unfoldable pub check_on_children : Env → Shell → List Dead → Shell
unfolding check_reports
check_on_children env sh reports =
    let listed = check_reports env true sh sh.deadlist in
    check_reports env false (record listed { deadlist = [] }) reports
