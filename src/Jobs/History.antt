-- ===== src/Jobs/History.antt =====
-- What every history of the events of the job control of src/jobs.c keeps.
use layla_shell.Jobs.Job.{Job, add_pid_to_job, new_job, set_pid_exit_status, set_job_exit_status}
use layla_shell.Jobs.Table.{
  Table, Placed, place, Added, enter, add_job, set_cur_job, reset_cur_job, max_jobs, highest,
}
use layla_shell.Jobs.Current.{set_cur_job_jobs, reset_cur_job-IsConsistent}
use layla_shell.Jobs.Removal.{remove_job, sweep, dead_at, remove_dead_jobs}
use layla_shell.Jobs.Dead.{clear_deadlist}
use layla_shell.Jobs.Reap.{rip_dead-IsUnique}
use layla_shell.Jobs.Notice.{Env, Shell}
use layla_shell.Jobs.Fine.{
  IsFine, renumber-IsFine, reflag-IsFine, add_pid_to_job-IsFine, set_pid_exit_status-IsFine,
  set_job_exit_status-IsFine,
}
use layla_shell.Jobs.Sane.{
  IsSane, with_job-IsSane, remove_IsSane, notice_termination-IsSane, check_on_children-IsSane,
}
use layla_shell.Jobs.Pids.{new_job-IsSound}
use layla_shell.Jobs.Events.{
  Made, fresh, more, reported, summed, Step, notice, check, enter_job, start, report, report_job,
  mark, reap, forget, select, reset, remove, clean, Reach, here, next, empty_slot, start_shell,
}
use layla_shell.Jobs.Slots.{IsSlot, shift_from-All, job_at-IsSlot}
use layla_shell.Jobs.Sweep.{remove_length}
use layla_shell.Prelude.Int.{pos, ◌+ℤ◌}
use layla_shell.Prelude.{
  ℕ, zero, suc, ◌+◌, ◌≡◌, refl, ap, ◌∙◌, inl, inr, Bool, true, false, ◌≢◌, Option, none, some, List,
  [], ◌∷◌, ◌==◌, arith, if◌then◌else◌, length, All, Bool-cases, subst, replicate, leb, ltb,
  length-replicate,
}
use mathlib.Core.Option
use mathlib.Core.Option.{some-injective}

Made-IsFine : {job : Job} → Made job → IsFine job
unfolding new_job
Made-IsFine (fresh monitor pgrp commandstr is_bg) = record {
  sound = new_job-IsSound monitor pgrp commandstr is_bg;
  exits = omega arith;
}
Made-IsFine (reported job pid status made) =
    set_pid_exit_status-IsFine job pid status (Made-IsFine made)
Made-IsFine (summed pipefail job pid status made) =
    set_job_exit_status-IsFine pipefail job pid status (Made-IsFine made)
Made-IsFine (more job pid p made) = add_pid_to_job-IsFine job pid (Made-IsFine made) p

-- the slots of a table of another one's length
record KeepsSlots (jobs after : List Job) : Type 0 where
  fine : All IsSlot after
  size : length after ≡ length jobs

abbrev PlaceKeeps : List Job → Option Placed → Type 0
PlaceKeeps jobs none = Unit
PlaceKeeps jobs (some p) = KeepsSlots jobs p.jobs

place_later :
    (job : Job) (jobs : List Job) (o : Option Placed)
    → IsSlot job
    → PlaceKeeps jobs o
    → PlaceKeeps (job ∷ jobs) (Option.map (λ (p : Placed). record p { jobs = job ∷ p.jobs }) o)
place_later job jobs none slot h = tt
place_later job jobs (some p) slot h = record { fine = (slot, h.fine); size = ap suc h.size }

place-KeepsSlots :
    (new : Job) (jnum : ℕ) (jobs : List Job)
    → IsFine new
    → All IsSlot jobs
    → PlaceKeeps jobs (place new jnum jobs)
unfolding place
place-KeepsSlots new jnum [] fine h = tt
place-KeepsSlots new jnum (job ∷ jobs) fine h =
    let next = if ltb jnum job.job_num then job.job_num else jnum in
    elim (Bool-cases (job.job_num == 0)) [
      | inl e ↦ rw e (record {
        fine = (λ _. renumber-IsFine new (highest jnum (job ∷ jobs) + 1) fine, h.1);
        size = refl;
      })
      | inr e ↦
          rw e (
            place_later job jobs (place new next jobs) h.0
              (place-KeepsSlots new next jobs fine h.1))
    ]

enter-KeepsSlots :
    (t : Table) (a : Added) (o : Option Placed)
    → PlaceKeeps t.jobs_table o
    → Option.map (enter t) o ≡ some a
    → KeepsSlots t.jobs_table a.table.jobs_table
unfolding enter
enter-KeepsSlots t a none h e = absurd (no_table e)
  where
    no_table : none ≢ some a
    no_table p = cc
enter-KeepsSlots t a (some p) h e =
    let same =
      set_cur_job_jobs (record t { jobs_table = p.jobs; total_jobs = t.total_jobs +ℤ pos 1 })
        p.added.job_num in
    let entered : enter t p ≡ a = some-injective (enter t p) a e in
    subst (λ (x : Added). KeepsSlots t.jobs_table x.table.jobs_table) entered
      (record { fine = rw same h.fine; size = ap length same ∙ h.size })

add_job-KeepsSlots :
    (t : Table) (new : Job) (a : Added)
    → IsFine new
    → All IsSlot t.jobs_table
    → add_job t new ≡ some a
    → KeepsSlots t.jobs_table a.table.jobs_table
unfolding add_job
add_job-KeepsSlots t new a fine h e =
    enter-KeepsSlots t a (place new 0 t.jobs_table) (place-KeepsSlots new 0 t.jobs_table fine h) e

remove_fine : (t : Table) (i : ℕ) → All IsSlot t.jobs_table → All IsSlot (remove_job t i).jobs_table
unfolding remove_job
remove_fine t i h = shift_from-All t.jobs_table i h

abbrev SweepKeeps : List Job → Option Table → Type 0
SweepKeeps jobs none = Unit
SweepKeeps jobs (some t) = KeepsSlots jobs t.jobs_table

if-SweepKeeps :
    (jobs : List Job) (b : Bool) (u v : Option Table)
    → SweepKeeps jobs u
    → SweepKeeps jobs v
    → SweepKeeps jobs (if b then u else v)
if-SweepKeeps jobs true u v h k = h
if-SweepKeeps jobs false u v h k = k

removed_SweepKeeps :
    (t : Table) (i : ℕ) (o : Option Table)
    → SweepKeeps (remove_job t i).jobs_table o
    → SweepKeeps t.jobs_table o
removed_SweepKeeps t i none h = tt
removed_SweepKeeps t i (some after) h = record { fine = h.fine; size = h.size ∙ remove_length t i }

sweep-KeepsSlots :
    (fuel i : ℕ) (t : Table) → All IsSlot t.jobs_table → SweepKeeps t.jobs_table (sweep fuel i t)
unfolding sweep
sweep-KeepsSlots zero i t h = tt
sweep-KeepsSlots (suc fuel) i t h =
    if-SweepKeeps t.jobs_table (leb (length t.jobs_table) i) _ _ (record { fine = h; size = refl })
      (if-SweepKeeps t.jobs_table (dead_at t.jobs_table i) _ _
        (removed_SweepKeeps t i (sweep fuel i (remove_job t i))
          (sweep-KeepsSlots fuel i (remove_job t i) (remove_fine t i h)))
        (sweep-KeepsSlots fuel (i + 1) t h))

cleaned :
    (t after : Table)
    → All IsSlot t.jobs_table
    → remove_dead_jobs t ≡ some after
    → KeepsSlots t.jobs_table after.jobs_table
unfolding remove_dead_jobs
cleaned t after h e =
    subst (SweepKeeps t.jobs_table) e
      (sweep-KeepsSlots (length t.jobs_table + length t.jobs_table + 1) 0 t h)

-- a step that changes the table only
table_IsSane :
    (sh : Shell) (t : Table)
    → IsSane sh
    → KeepsSlots sh.table.jobs_table t.jobs_table
    → IsSane (record sh { table = t })
table_IsSane sh t h k = record {
  jobs = k.fine;
  slots = k.size ∙ h.slots;
  dead = h.dead;
  dead_fits = h.dead_fits;
}

same_KeepsSlots : (jobs after : List Job) → All IsSlot jobs → after ≡ jobs → KeepsSlots jobs after
same_KeepsSlots jobs after h e = record { fine = rw e h; size = ap length e }

-- Every event keeps the state sane.
pub Step-IsSane : {env : Env} {s t : Shell} → Step env s t → IsSane s → IsSane t
unfolding clear_deadlist
Step-IsSane {env = env} (notice sh pid status add) h =
    notice_termination-IsSane env sh pid status add h
Step-IsSane {env = env} (check sh reports) h = check_on_children-IsSane env sh reports h
Step-IsSane (enter_job sh new a made e) h =
    table_IsSane sh a.table h (add_job-KeepsSlots sh.table new a (Made-IsFine made) h.jobs e)
Step-IsSane (start sh i pid job p slot numbered) h =
    let fine = job_at-IsSlot sh.table.jobs_table i job h.jobs slot numbered in
    with_job-IsSane sh i (add_pid_to_job job pid) (λ _. add_pid_to_job-IsFine job pid fine p) h
Step-IsSane (report sh i pid status job slot numbered) h =
    let fine = job_at-IsSlot sh.table.jobs_table i job h.jobs slot numbered in
    with_job-IsSane sh i (set_pid_exit_status job pid status)
      (λ _. set_pid_exit_status-IsFine job pid status fine) h
Step-IsSane {env = env} (report_job sh i pid status job slot numbered) h =
    let fine = job_at-IsSlot sh.table.jobs_table i job h.jobs slot numbered in
    with_job-IsSane sh i (set_job_exit_status env.pipefail job pid status)
      (λ _. set_job_exit_status-IsFine env.pipefail job pid status fine) h
Step-IsSane (mark sh i job flags slot numbered) h =
    let fine = job_at-IsSlot sh.table.jobs_table i job h.jobs slot numbered in
    with_job-IsSane sh i (record job { flags = flags }) (λ _. reflag-IsFine job flags fine) h
Step-IsSane (reap sh pid after e) h =
    let (unique, shorter) = rip_dead-IsUnique sh.deadlist pid after h.dead e in
    record { jobs = h.jobs; slots = h.slots; dead = unique; dead_fits = omega (arith, h.dead_fits) }
Step-IsSane (forget sh) h = record {
  jobs = h.jobs;
  slots = h.slots;
  dead = tt;
  dead_fits = omega arith;
}
Step-IsSane (select sh n) h =
    table_IsSane sh (set_cur_job sh.table n) h
      (same_KeepsSlots sh.table.jobs_table _ h.jobs (set_cur_job_jobs sh.table n))
Step-IsSane (reset sh) h =
    table_IsSane sh (reset_cur_job sh.table) h
      (same_KeepsSlots sh.table.jobs_table _ h.jobs (reset_cur_job-IsConsistent sh.table).1)
Step-IsSane (remove sh i) h = remove_IsSane sh i h
Step-IsSane (clean sh t e) h = table_IsSane sh t h (cleaned sh.table t h.jobs e)

All-replicate : (n : ℕ) (job : Job) → IsSlot job → All IsSlot (replicate n job)
All-replicate zero job h = tt
All-replicate (suc n) job h = (h, All-replicate n job h)

start_shell-IsSane : IsSane start_shell
unfolding start_shell
start_shell-IsSane = record {
  jobs = All-replicate max_jobs empty_slot (λ h. absurd (h refl));
  slots = length-replicate max_jobs empty_slot;
  dead = tt;
  dead_fits = omega arith;
}

-- After any of the events of Step, in whatever order, from the start of the shell on: the table keeps its 255 slots, every
-- job in it has its processes at the front of its list, each once, and counts no more of them as ended than
-- there are, and the list of dead processes holds at most 32, each once.
pub Reach-IsSane : {env : Env} {sh : Shell} → Reach env start_shell sh → IsSane sh
Reach-IsSane here = start_shell-IsSane
Reach-IsSane (next r step) = Step-IsSane step (Reach-IsSane r)
