-- ===== src/Examples/Jobs.antt =====
-- Inputs for the job control of src/jobs.c: a pipeline of two processes in the background, alone in the
-- table or entered into the table of a new shell.
use layla_shell.Jobs.Job.{
  Job, add_pid_to_job, new_job, get_malloced_pids, get_malloced_exit_codes, set_pid_exit_status,
}
use layla_shell.Jobs.Pids.{IsSound, new_job-IsSound, add_pid_to_job-IsSound}
use layla_shell.Jobs.Exits.{Report, replay, has_exited, replay_complete_iff}
use layla_shell.Jobs.Table.{
  Table, place, Added, enter, add_job, last_job_with_status, reset_cur_job, highest,
}
use layla_shell.Jobs.Removal.{remove_job, remove_dead_jobs, number_at}
use layla_shell.Jobs.Sweep.{live, kept, remove_dead_jobs_total}
use layla_shell.Jobs.Last.{Latest, last_job_with_status-Latest}
use layla_shell.Jobs.Current.{IsConsistent, reset_cur_job-IsConsistent}
use layla_shell.Jobs.Add.{IsEntered, add_job-IsEntered}
use layla_shell.Jobs.Dead.{Dead, deadlist_max, add_dead_loop, add_to_deadlist, rip_dead}
use layla_shell.Jobs.Reap.{status_of, rip_dead-add_to_deadlist}
use layla_shell.Jobs.Notice.{Env, notice_termination}
use layla_shell.Jobs.Events.{
  Made, fresh, more, notice, enter_job, here, next, empty_slot, start_shell,
}
use layla_shell.Jobs.Sane.{IsSane}
use layla_shell.Jobs.History.{Reach-IsSane}
use layla_shell.Jobs.Removed.{remove_job-prev_job}
use layla_shell.Jobs.Spec.{match_loop}
use layla_shell.Jobs.Names.{matching, answer, match_loop-answer}
use layla_shell.Prelude.Int.{pos}
use layla_shell.Prelude.Bytes.{codes}
use layla_shell.Prelude.{
  length, ℕ, ◌<◌, ◌≡◌, refl, ◌↔◌, true, false, none, some, List, [], ◌∷◌, arith, ◌==◌,
  if◌then◌else◌, get_or, replicate,
}

-- `sort | uniq &` under job control, before and after its processes 40 and 41 start
abbrev new_pipe : Job
new_pipe = new_job true 1 (some (codes "sort | uniq")) true

abbrev pipe : Job
pipe = add_pid_to_job (add_pid_to_job new_pipe 40) 41

pipe-Made : Made pipe
pipe-Made =
    more (add_pid_to_job new_pipe 40) 41 (λ e. omega arith)
      (more new_pipe 40 (λ e. omega arith) (fresh true 1 (some (codes "sort | uniq")) true))

pipe-IsSound : IsSound pipe
pipe-IsSound =
    add_pid_to_job-IsSound (add_pid_to_job new_pipe 40) 41
      (add_pid_to_job-IsSound new_pipe 40 (new_job-IsSound true 1 (some (codes "sort | uniq")) true)
        (λ e. omega arith))
      (λ e. omega arith)

-- both processes of the pipe
two_started : pipe.proc_count ≡ 2
unfolding new_job add_pid_to_job get_malloced_pids get_malloced_exit_codes
two_started = refl

no_exits : (pipe.child_exitbits ≡ 0) × (pipe.child_exits ≡ 0)
unfolding new_job add_pid_to_job get_malloced_pids get_malloced_exit_codes
no_exits = (refl, refl)

-- 41 exits with 1, and 40 is killed
abbrev both_end : List Report
both_end = record { pid = 40; status = 9 } ∷ record { pid = 41; status = 256 } ∷ []

replay_complete_iff_example :
    ((replay pipe both_end).child_exits ≡ (replay pipe both_end).proc_count)
    ↔ ((i : ℕ) → i < pipe.proc_count → has_exited both_end (get_or pipe.pids i 0) ≡ true)
replay_complete_iff_example = replay_complete_iff pipe both_end pipe-IsSound no_exits.0 no_exits.1

both_ended : (replay pipe both_end).child_exits ≡ 2
unfolding replay new_job add_pid_to_job get_malloced_pids get_malloced_exit_codes
    set_pid_exit_status
both_ended = refl

-- a small table: the pipe as job 1, a free slot, and a job 3 that is complete and notified
abbrev done_job : Job
done_job = record pipe {
  job_num = 3;
  child_exits = 2;
  flags = record {
    foreground = false;
    disowned = false;
    notified = true;
    notify = false;
    job_control = true;
  };
}

abbrev small_table : Table
small_table = record {
  jobs_table = record pipe { job_num = 1 } ∷ empty_slot ∷ done_job ∷ [];
  total_jobs = pos 2;
  cur_job = 3;
  prev_job = 1;
}

remove_dead_jobs_total_example :
    (after : Table) × (remove_dead_jobs small_table ≡ some after)
    × (live after.jobs_table ≡ kept (live small_table.jobs_table))
    × (length after.jobs_table ≡ 3)
remove_dead_jobs_total_example = remove_dead_jobs_total small_table

last_job_with_status-Latest_example :
    Latest 3 true small_table.jobs_table (last_job_with_status small_table 3 true)
last_job_with_status-Latest_example = last_job_with_status-Latest small_table 3 true

reset_cur_job-IsConsistent_example :
    IsConsistent (reset_cur_job small_table)
    × ((reset_cur_job small_table).jobs_table ≡ small_table.jobs_table)
reset_cur_job-IsConsistent_example = reset_cur_job-IsConsistent small_table

add_job-IsEntered_example : IsEntered small_table pipe (add_job small_table pipe)
add_job-IsEntered_example = add_job-IsEntered small_table pipe

remove_job-prev_job_example :
    ((remove_job small_table 2).cur_job
      ≡ (if number_at small_table.jobs_table 2 == 3 then 1 else 3))
    × ((remove_job small_table 2).prev_job
        ≡ (if number_at small_table.jobs_table 2 == 3 then 0 else 1))
remove_job-prev_job_example = remove_job-prev_job small_table 2

match_loop-answer_example :
    match_loop true (codes "uniq") 0 small_table.jobs_table
    ≡ answer (matching true (codes "uniq") small_table.jobs_table)
match_loop-answer_example = match_loop-answer true (codes "uniq") small_table.jobs_table

abbrev one_dead : List Dead
one_dead = record { pid = 40; status = 0 } ∷ []

one_unique : status_of [] 40 ≡ none
unfolding status_of
one_unique = refl

two_fit : length (add_to_deadlist one_dead 41 256) < deadlist_max
unfolding add_to_deadlist add_dead_loop
two_fit = omega arith

rip_dead-add_to_deadlist_example :
    (rest : List Dead) × (rip_dead (add_to_deadlist one_dead 41 256) 41 ≡ some (some 256, rest))
    × ((q : ℕ) → status_of rest q ≡ (if 41 == q then none else status_of one_dead q))
rip_dead-add_to_deadlist_example = rip_dead-add_to_deadlist one_dead 41 256 (one_unique, tt) two_fit

-- a shell that enters the pipe and hears that 40 exited
abbrev env : Env
env = record {
  pipefail = false;
  notify_now = false;
  monitor = true;
  interactive_shell = true;
  coproc_pid = 0;
  is_a_tty = false;
  tty_attr_old = 0;
  tcgetattr = none;
}

abbrev entered : Added
entered = enter start_shell.table (record {
  jobs = record pipe { job_num = 1 } ∷ replicate 254 empty_slot;
  added = record pipe { job_num = 1 };
})

pipe_enters : add_job start_shell.table pipe ≡ some entered
unfolding add_job place start_shell empty_slot highest
pipe_enters = refl

Reach-IsSane_example :
    IsSane (notice_termination env (record start_shell { table = entered.table }) 40 0 true)
Reach-IsSane_example = Reach-IsSane (
    next (next here (enter_job start_shell pipe entered pipe-Made pipe_enters))
      (notice (record start_shell { table = entered.table }) 40 0 true))
