-- ===== src/Jobs/Job.antt =====
-- One job of src/jobs.c (`struct job_s` of src/include/cmd.h): its processes and their statuses. The
-- empty list is the null pointer for `pids` and `exit_codes`, whose arrays are never empty. Memory
-- suffices. A process id and a status are numbers, 0 in an unused place.
use layla_shell.Arith.Bits.{test_bit}
use layla_shell.Jobs.Status.{JobFlags, has_ended, set_bit, clear_bit}
use layla_shell.Prelude.Bytes.{Bytes}
use layla_shell.Prelude.{
  ℕ, zero, suc, ◌+◌, Bool, true, false, not, ◌&&◌, ◌||◌, Option, none, some, List, [], ◌∷◌, ◌==◌,
  if◌then◌else◌, get_or, set, replicate,
}
use mathlib.Core.Option

-- MAX_PROCESS_PER_JOB
abbrev pub max_process_per_job : ℕ
max_process_per_job = 32

pub record Job : Type 0 where
  pub job_num : ℕ
  pub proc_count : ℕ
  pub pgid : ℕ
  pub status : ℕ
  pub commandstr : Option Bytes
  pub pids : List ℕ
  pub exit_codes : List ℕ
  pub child_exits : ℕ
  pub child_exitbits : ℕ
  pub flags : JobFlags
  pub tty_attr : Option ℕ

-- the null test of a pointer to an array
unfoldable pub is_null : List ℕ → Bool
is_null [] = true
is_null (x ∷ xs) = false

-- the first of the `n` places that holds `pid`: the search loops over `pids`
unfoldable pub find_pid : ℕ → List ℕ → ℕ → Option ℕ
find_pid zero pids pid = none
find_pid (suc n) [] pid = none
find_pid (suc n) (p ∷ pids) pid = if p == pid then some 0 else Option.map suc (find_pid n pids pid)

-- the `i`-th place of `pids` is filled
unfoldable pub fill_slot : Job → ℕ → Option ℕ → Job
fill_slot job pid none = job
fill_slot job pid (some i) = record job {
  pids = set job.pids i pid;
  proc_count = job.proc_count + 1;
}

-- behind the test for the first process
unfoldable pub add_another : Job → ℕ → Option ℕ → Job
unfolding fill_slot find_pid
add_another job pid (some i) = job
add_another job pid none = fill_slot job pid (find_pid max_process_per_job job.pids 0)

unfoldable pub add_pid_to_job : Job → ℕ → Job
unfolding is_null add_another find_pid
add_pid_to_job job pid =
    if is_null job.pids
    then job
    else (if job.pgid == 0
        then record job { pgid = pid; pids = set job.pids 0 pid; proc_count = 1 }
        else add_another job pid (find_pid job.proc_count job.pids pid))

unfoldable pub code_at : List ℕ → Option ℕ → ℕ
code_at codes none = 0
code_at codes (some i) = get_or codes i 0

unfoldable pub get_pid_exit_status : Job → ℕ → ℕ
unfolding is_null code_at find_pid
get_pid_exit_status job pid =
    if is_null job.pids || is_null job.exit_codes
    then 0
    else code_at job.exit_codes (find_pid job.proc_count job.pids pid)

-- the body of the search loop, at the place that was found
unfoldable pub note_status : Job → ℕ → Option ℕ → Job
unfolding has_ended set_bit clear_bit
note_status job status none = job
note_status job status (some i) = record job {
  exit_codes = set job.exit_codes i status;
  child_exitbits =
      if has_ended status then set_bit i job.child_exitbits else clear_bit i job.child_exitbits;
}

-- the loop that counts: `n` bits from the `i`-th on
unfoldable pub count_exits : ℕ → ℕ → ℕ → ℕ
unfolding test_bit
count_exits zero i bits = 0
count_exits (suc n) i bits = (if test_bit i bits then 1 else 0) + count_exits n (i + 1) bits

unfoldable pub recount : Job → Job
unfolding count_exits
recount job = record job {
  flags = record job.flags { notified = false };
  child_exits = count_exits job.proc_count 0 job.child_exitbits;
}

unfoldable pub set_pid_exit_status : Job → ℕ → ℕ → Job
unfolding is_null recount note_status find_pid
set_pid_exit_status job pid status =
    if is_null job.pids || is_null job.exit_codes
    then job
    else recount (note_status job status (find_pid job.proc_count job.pids pid))

-- the first status that is not 0, among the first `n`
unfoldable pub first_failure : ℕ → List ℕ → ℕ
first_failure zero codes = 0
first_failure (suc n) [] = 0
first_failure (suc n) (c ∷ codes) = if c == 0 then first_failure n codes else c

-- the branch of set_job_exit_status() for a job; `pipefail` is option_set('l')
unfoldable pub set_job_exit_status : Bool → Job → ℕ → ℕ → Job
unfolding first_failure is_null
set_job_exit_status true job pid status =
    let res = if is_null job.exit_codes then 0 else first_failure job.proc_count job.exit_codes in
    record job {
      flags = if res == job.status then job.flags else record job.flags { notified = false };
      status = res;
    }
set_job_exit_status false job pid status =
    if job.flags.foreground && job.pgid == pid || get_or job.pids 0 0 == pid
    then record job { status = status }
    else job

unfoldable pub get_malloced_pids : List ℕ → List ℕ
get_malloced_pids [] = replicate max_process_per_job 0
get_malloced_pids (p ∷ pids) = p ∷ pids

unfoldable pub get_malloced_exit_codes : ℕ → List ℕ
get_malloced_exit_codes pid_count =
    replicate (if pid_count == 0 then max_process_per_job else pid_count) 0

-- `monitor` is option_set('m'), `pgrp` the answer of getpgrp()
unfoldable pub new_job : Bool → ℕ → Option Bytes → Bool → Job
unfolding get_malloced_pids get_malloced_exit_codes
new_job monitor pgrp commandstr is_bg = record {
  job_num = 0;
  proc_count = 0;
  pgid = if monitor then 0 else pgrp;
  status = 0;
  commandstr = commandstr;
  pids = get_malloced_pids [];
  exit_codes = get_malloced_exit_codes 0;
  child_exits = 0;
  child_exitbits = 0;
  flags = record {
    foreground = not is_bg;
    disowned = false;
    notified = false;
    notify = false;
    job_control = monitor;
  };
  tty_attr = none;
}

-- the structure itself stays, as in every call of this file
unfoldable pub free_job : Job → Job
free_job job = record job {
  job_num = 0;
  commandstr = none;
  pids = [];
  exit_codes = [];
  proc_count = 0;
  child_exits = 0;
  tty_attr = none;
}
