-- ===== src/Jobs/Codes.antt =====
-- The status that get_pid_exit_status() of src/jobs.c gives after set_pid_exit_status().
use layla_shell.Jobs.Job.{
  Job, find_pid, is_null, code_at, note_status, recount, get_pid_exit_status, set_pid_exit_status,
}
use layla_shell.Jobs.Find.{hit, Found-hit, find_pid_at, Found, find_pid-Found}
use layla_shell.Jobs.Pids.{IsSound, SameList-IsSound}
use layla_shell.Jobs.Exits.{set_pid_exit_status-SameList, set_pid_exit_status-open}
use layla_shell.Prelude.{
  ℕ, ◌<◌, ◌≡◌, refl, ap, ◌∙◌, sym, inl, inr, false, Option, none, some, List, [], ◌∷◌, ◌==◌, ==_iff,
  arith, if◌then◌else◌, length, get_or, Bool-cases, get_or-set_self, get_or-set_ne,
}

not_null : (l : List ℕ) → 0 < length l → is_null l ≡ false
unfolding is_null
not_null [] h = absurd (omega arith)
not_null (x ∷ l) h = refl

-- the status of a process of the job is the one at its place
status_at :
    (job : Job) (i : ℕ)
    → IsSound job
    → i < job.proc_count
    → get_pid_exit_status job (get_or job.pids i 0) ≡ get_or job.exit_codes i 0
unfolding get_pid_exit_status code_at
status_at job i sound lt =
    let place : find_pid job.proc_count job.pids (get_or job.pids i 0) ≡ some i =
      find_pid_at job.proc_count job.pids i sound.distinct lt
        (omega (arith, sound.fits, sound.pids_size)) in
    let listed = not_null job.pids (omega (arith, sound.pids_size)) in
    let coded = not_null job.exit_codes (omega (arith, sound.codes_size)) in
    rw (listed, coded, place) refl

-- the code of a place after a report
noted_code :
    (job : Job) (status i : ℕ) (o : Option ℕ)
    → i < length job.exit_codes
    → get_or (note_status job status o).exit_codes i 0 ≡ hit o i status (get_or job.exit_codes i 0)
unfolding note_status
noted_code job status i none h = refl
noted_code job status i (some k) h = elim (Bool-cases (k == i)) [
  | inl e ↦
      let same : k ≡ i = (==_iff k i).0 e in
      rw (e, same) (get_or-set_self job.exit_codes i status 0 h)
  | inr e ↦ rw e (get_or-set_ne job.exit_codes k i status 0 (λ p. ground (arith, ==_iff k i)))
]

pub set_pid_exit_status-IsSound :
    (job : Job) (pid status : ℕ) → IsSound job → IsSound (set_pid_exit_status job pid status)
set_pid_exit_status-IsSound job pid status sound =
    SameList-IsSound (set_pid_exit_status job pid status) job
      (set_pid_exit_status-SameList job pid status) sound

noted_place :
    (job : Job) (pid status i : ℕ) (o : Option ℕ)
    → IsSound job
    → i < job.proc_count
    → Found job.proc_count job.pids pid o
    → get_or (note_status job status o).exit_codes i 0
      ≡ (if pid == get_or job.pids i 0 then status else get_or job.exit_codes i 0)
noted_place job pid status i o sound lt found =
    noted_code job status i o (omega (arith, sound.fits, sound.codes_size))
    ∙ Found-hit job.proc_count job.pids pid i o status (get_or job.exit_codes i 0) sound.distinct
        (omega (arith, sound.fits, sound.pids_size)) lt found

-- In a sound job, the status that set_pid_exit_status() files for a process is the one that
-- get_pid_exit_status() gives for it, and every other process of the job keeps its own.
pub get-set_pid_exit_status :
    (job : Job) (pid status i : ℕ)
    → IsSound job
    → i < job.proc_count
    → get_pid_exit_status (set_pid_exit_status job pid status) (get_or job.pids i 0) ≡ (
        if pid == get_or job.pids i 0
        then status
        else get_pid_exit_status job (get_or job.pids i 0))
unfolding recount
get-set_pid_exit_status job pid status i sound lt =
    let h = set_pid_exit_status-SameList job pid status in
    let after = set_pid_exit_status-IsSound job pid status sound in
    let o = find_pid job.proc_count job.pids pid in
    ap (λ l. get_pid_exit_status (set_pid_exit_status job pid status) (get_or l i 0)) (sym h.list)
    ∙ status_at (set_pid_exit_status job pid status) i after (rw h.count lt)
    ∙ ap (λ (j : Job). get_or j.exit_codes i 0)
        (set_pid_exit_status-open job pid status (omega (arith, sound.pids_size))
          (omega (arith, sound.codes_size)))
    ∙ noted_place job pid status i o sound lt (find_pid-Found job.proc_count job.pids pid)
    ∙ rw (status_at job i sound lt) refl
