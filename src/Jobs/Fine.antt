-- ===== src/Jobs/Fine.antt =====
-- What the updates of a job in src/jobs.c keep: the list of its processes, and no more exits than
-- processes.
use layla_shell.Jobs.Status.{JobFlags}
use layla_shell.Jobs.Job.{
  Job, find_pid, is_null, note_status, count_exits, recount, add_pid_to_job, add_another, fill_slot,
  set_pid_exit_status, set_job_exit_status, max_process_per_job,
}
use layla_shell.Jobs.Pids.{IsSound, SameList, SameList-IsSound, add_pid_to_job-IsSound}
use layla_shell.Jobs.Exits.{set_pid_exit_status-SameList}
use layla_shell.Jobs.Notice.{Env, save_tty, update_entry}
use layla_shell.Prelude.{
  ℕ, zero, suc, ◌≤◌, ◌+◌, ◌≡◌, refl, ◌∙◌, inl, inr, Bool, true, false, ◌||◌, ◌&&◌, ◌≢◌, Option,
  none, some, ◌==◌, ==_iff, arith, if◌then◌else◌, get_or, Bool-cases,
}

-- a sound job that counts at most its processes as ended
pub record IsFine (job : Job) : Type 0 where
  pub sound : IsSound job
  pub exits : job.child_exits ≤ job.proc_count

count_exits_bound : (n i bits : ℕ) → count_exits n i bits ≤ n
unfolding count_exits
count_exits_bound zero i bits = omega arith
count_exits_bound (suc n) i bits = ground (arith, count_exits_bound n (i + 1) bits)

-- an update that keeps the list and the count of exits
pub same_IsFine : (a b : Job) → SameList a b → a.child_exits ≡ b.child_exits → IsFine b → IsFine a
same_IsFine a b h e fine = record {
  sound = SameList-IsSound a b h fine.sound;
  exits = rw (e, h.count) fine.exits;
}

pub set_pid_exit_status-IsFine :
    (job : Job) (pid status : ℕ) → IsFine job → IsFine (set_pid_exit_status job pid status)
unfolding set_pid_exit_status recount
set_pid_exit_status-IsFine job pid status fine = record {
  sound = SameList-IsSound _ job (set_pid_exit_status-SameList job pid status) fine.sound;
  exits = bound;
}
  where
    bound :
        (set_pid_exit_status job pid status).child_exits
        ≤ (set_pid_exit_status job pid status).proc_count
    bound = elim (Bool-cases (is_null job.pids || is_null job.exit_codes)) [
      | inl e ↦ rw e fine.exits
      | inr e ↦ rw e (count_exits_bound _ 0 _)
    ]

pub set_job_exit_status-IsFine :
    (pipefail : Bool) (job : Job) (pid status : ℕ)
    → IsFine job
    → IsFine (set_job_exit_status pipefail job pid status)
unfolding set_job_exit_status
set_job_exit_status-IsFine true job pid status fine =
    same_IsFine (set_job_exit_status true job pid status) job
      (record { list = refl; codes = refl; count = refl; group = refl }) refl fine
set_job_exit_status-IsFine false job pid status fine =
    elim (Bool-cases (job.flags.foreground && job.pgid == pid || get_or job.pids 0 0 == pid)) [
      | inl e ↦ rw e (
          same_IsFine (record job { status = status }) job
            (record { list = refl; codes = refl; count = refl; group = refl }) refl fine)
      | inr e ↦ rw e fine
    ]

pub set_job_exit_status-number :
    (pipefail : Bool) (job : Job) (pid status : ℕ)
    → (set_job_exit_status pipefail job pid status).job_num ≡ job.job_num
unfolding set_job_exit_status
set_job_exit_status-number true job pid status = refl
set_job_exit_status-number false job pid status = ground arith

note_status-number :
    (job : Job) (status : ℕ) (o : Option ℕ) → (note_status job status o).job_num ≡ job.job_num
unfolding note_status
note_status-number job status none = refl
note_status-number job status (some i) = refl

set_pid_exit_status-number :
    (job : Job) (pid status : ℕ) → (set_pid_exit_status job pid status).job_num ≡ job.job_num
unfolding set_pid_exit_status recount
set_pid_exit_status-number job pid status =
    elim (Bool-cases (is_null job.pids || is_null job.exit_codes)) [
      | inl e ↦ rw e refl
      | inr e ↦ rw e (note_status-number job status (find_pid job.proc_count job.pids pid))
    ]

pub update_entry-number :
    (env : Env) (job : Job) (pid status : ℕ)
    → (update_entry env job pid status).job_num ≡ job.job_num
unfolding update_entry save_tty
update_entry-number env job pid status =
    let saved = save_tty env job status in
    set_job_exit_status-number env.pipefail (set_pid_exit_status saved pid status) pid status
    ∙ set_pid_exit_status-number saved pid status

pub update_entry-IsFine :
    (env : Env) (job : Job) (pid status : ℕ) → IsFine job → IsFine (update_entry env job pid status)
unfolding update_entry save_tty
update_entry-IsFine env job pid status fine =
    let saved = save_tty env job status in
    set_job_exit_status-IsFine env.pipefail (set_pid_exit_status saved pid status) pid status (
      set_pid_exit_status-IsFine saved pid status (
        same_IsFine saved job (record { list = refl; codes = refl; count = refl; group = refl })
          refl fine))

-- a process that is added raises the count of processes only
abbrev pub Raised : Job → Job → Type 0
Raised job after =
    (job.proc_count ≤ after.proc_count)
    × (after.child_exits ≡ job.child_exits)
    × (after.job_num ≡ job.job_num)

fill_slot-Raised : (job : Job) (pid : ℕ) (o : Option ℕ) → Raised job (fill_slot job pid o)
unfolding fill_slot
fill_slot-Raised job pid none = (omega arith, refl, refl)
fill_slot-Raised job pid (some i) = (omega arith, refl, refl)

add_another-Raised : (job : Job) (pid : ℕ) (o : Option ℕ) → Raised job (add_another job pid o)
unfolding add_another
add_another-Raised job pid (some i) = (omega arith, refl, refl)
add_another-Raised job pid none = fill_slot-Raised job pid (find_pid max_process_per_job job.pids 0)

if-Raised :
    (job : Job) (b : Bool) (u v : Job)
    → (b ≡ true → Raised job u)
    → Raised job v
    → Raised job (if b then u else v)
if-Raised job true u v h k = h refl
if-Raised job false u v h k = k

pub add_pid_to_job-Raised :
    (job : Job) (pid : ℕ) → IsSound job → Raised job (add_pid_to_job job pid)
unfolding add_pid_to_job
add_pid_to_job-Raised job pid sound =
    if-Raised job (is_null job.pids) _ _ (λ _. (omega arith, refl, refl))
      (if-Raised job (job.pgid == 0) _ _
        (λ e. (omega (arith, sound.grouped ((==_iff job.pgid 0).0 e)), refl, refl))
        (add_another-Raised job pid (find_pid job.proc_count job.pids pid)))

-- a job that differs in its number only
pub renumber-IsFine : (job : Job) (n : ℕ) → IsFine job → IsFine (record job { job_num = n })
renumber-IsFine job n fine =
    same_IsFine (record job { job_num = n }) job
      (record { list = refl; codes = refl; count = refl; group = refl }) refl fine

pub reflag-IsFine :
    (job : Job) (flags : JobFlags) → IsFine job → IsFine (record job { flags = flags })
reflag-IsFine job flags fine =
    same_IsFine (record job { flags = flags }) job
      (record { list = refl; codes = refl; count = refl; group = refl }) refl fine

pub add_pid_to_job-IsFine :
    (job : Job) (pid : ℕ) → IsFine job → pid ≢ 0 → IsFine (add_pid_to_job job pid)
add_pid_to_job-IsFine job pid fine p =
    let (count, exits, _) = add_pid_to_job-Raised job pid fine.sound in
    record {
      sound = add_pid_to_job-IsSound job pid fine.sound p;
      exits = omega (arith, fine.exits);
    }
