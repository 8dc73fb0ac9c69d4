-- ===== src/Jobs/Events.antt =====
-- The events of the job control of src/jobs.c, as steps of a shell, and the shell before any event.
use layla_shell.Jobs.Status.{JobFlags}
use layla_shell.Jobs.Job.{Job, add_pid_to_job, new_job, set_pid_exit_status, set_job_exit_status}
use layla_shell.Jobs.Table.{Table, Added, add_job, set_cur_job, reset_cur_job, max_jobs}
use layla_shell.Jobs.Removal.{remove_job, remove_dead_jobs}
use layla_shell.Jobs.Dead.{Dead, rip_dead, clear_deadlist}
use layla_shell.Jobs.Notice.{Env, Shell, job_at, with_job, notice_termination, check_on_children}
use layla_shell.Prelude.Bytes.{Bytes}
use layla_shell.Prelude.Int.{pos}
use layla_shell.Prelude.{ℕ, ◌≡◌, Bool, false, ◌≢◌, Option, none, some, List, [], replicate}

-- a job as it is set up: new_job(), then calls of add_pid_to_job(), and reports of its processes while
-- it is not in the table yet
pub data Made : Job → Type 0 where
  fresh :
      (monitor : Bool) (pgrp : ℕ) (commandstr : Option Bytes) (is_bg : Bool)
      → Made (new_job monitor pgrp commandstr is_bg)
  more : (job : Job) (pid : ℕ) → pid ≢ 0 → Made job → Made (add_pid_to_job job pid)
  reported : (job : Job) (pid status : ℕ) → Made job → Made (set_pid_exit_status job pid status)
  summed :
      (pipefail : Bool) (job : Job) (pid status : ℕ)
      → Made job
      → Made (set_job_exit_status pipefail job pid status)

-- An event of a shell with the options and the terminal of `env`. The reports are those of
-- wait_on_child(), of the wait builtin, of fork_command() and of each round of update_job_exit_status();
-- the flags are those that the builtins set. Not among the events is what do_pipeline() does under
-- lastpipe, which counts an exit by hand, and no event follows an access outside of an array.
pub data Step (env : Env) : Shell → Shell → Type 0 where
  -- a child changes its state
  notice :
      (sh : Shell) (pid status : ℕ) (add : Bool)
      → Step env sh (notice_termination env sh pid status add)
  -- the prompt
  check : (sh : Shell) (reports : List Dead) → Step env sh (check_on_children env sh reports)
  -- a job that was set up is entered
  enter_job :
      (sh : Shell) (new : Job) (a : Added)
      → Made new
      → add_job sh.table new ≡ some a
      → Step env sh (record sh { table = a.table })
  -- a further process of a job starts
  start :
      (sh : Shell) (i pid : ℕ) (job : Job)
      → pid ≢ 0
      → job_at sh.table.jobs_table i ≡ some job
      → job.job_num ≢ 0
      → Step env sh (with_job sh i (add_pid_to_job job pid))
  -- a process of a job is reported, and then its job
  report :
      (sh : Shell) (i pid status : ℕ) (job : Job)
      → job_at sh.table.jobs_table i ≡ some job
      → job.job_num ≢ 0
      → Step env sh (with_job sh i (set_pid_exit_status job pid status))
  report_job :
      (sh : Shell) (i pid status : ℕ) (job : Job)
      → job_at sh.table.jobs_table i ≡ some job
      → job.job_num ≢ 0
      → Step env sh (with_job sh i (set_job_exit_status env.pipefail job pid status))
  mark :
      (sh : Shell) (i : ℕ) (job : Job) (flags : JobFlags)
      → job_at sh.table.jobs_table i ≡ some job
      → job.job_num ≢ 0
      → Step env sh (with_job sh i (record job { flags = flags }))
  -- wait for a process takes its report
  reap :
      (sh : Shell) (pid : ℕ) (after : Option ℕ × List Dead)
      → rip_dead sh.deadlist pid ≡ some after
      → Step env sh (record sh { deadlist = after.1 })
  forget : (sh : Shell) → Step env sh (record sh { deadlist = clear_deadlist sh.deadlist })
  -- fg and bg
  select : (sh : Shell) (n : ℕ) → Step env sh (record sh { table = set_cur_job sh.table n })
  reset : (sh : Shell) → Step env sh (record sh { table = reset_cur_job sh.table })
  remove : (sh : Shell) (i : ℕ) → Step env sh (record sh { table = remove_job sh.table i })
  -- the end of the jobs builtin
  clean :
      (sh : Shell) (t : Table)
      → remove_dead_jobs sh.table ≡ some t
      → Step env sh (record sh { table = t })

pub data Reach (env : Env) (sh : Shell) : Shell → Type 0 where
  here : Reach env sh sh
  next : {s t : Shell} → Reach env sh s → Step env s t → Reach env sh t

-- the zeroed slots of the static array, and the shell before any event
unfoldable pub empty_slot : Job
empty_slot = record {
  job_num = 0;
  proc_count = 0;
  pgid = 0;
  status = 0;
  commandstr = none;
  pids = [];
  exit_codes = [];
  child_exits = 0;
  child_exitbits = 0;
  flags = record {
    foreground = false;
    disowned = false;
    notified = false;
    notify = false;
    job_control = false;
  };
  tty_attr = none;
}

unfoldable pub start_shell : Shell
unfolding empty_slot
start_shell = record {
  table = record {
    jobs_table = replicate max_jobs empty_slot;
    total_jobs = pos 0;
    cur_job = 0;
    prev_job = 0;
  };
  deadlist = [];
  actions = [];
}
