-- ===== src/Jobs/Add.antt =====
-- The job that add_job() of src/jobs.c enters: its number, and what lookups by number find then.
use layla_shell.Jobs.Job.{Job}
use layla_shell.Jobs.Table.{
  Table, find_number, get_job_by_jobid, highest, Placed, place, Added, enter, add_job, set_cur_job,
}
use layla_shell.Jobs.Current.{IsListed, set_cur_job-IsChosen}
use layla_shell.Prelude.Int.{pos, ◌+ℤ◌}
use layla_shell.Prelude.{
  ℕ, ◌<◌, ◌≤◌, ◌+◌, ◌≡◌, refl, ◌∙◌, sym, inl, inr, ◌≢◌, Option, none, some, List, [], ◌∷◌, ◌==◌,
  ==_iff, ==_refl, ne→==, arith, if◌then◌else◌, ltb, Bool-cases, All, length, ap, suc,
}
use mathlib.Core.Option
use mathlib.Core.Option.{some-injective}

highest-ge : (jnum : ℕ) (jobs : List Job) → jnum ≤ highest jnum jobs
unfolding highest
highest-ge jnum [] = omega arith
highest-ge jnum (job ∷ jobs) =
    ground (arith, highest-ge (if ltb jnum job.job_num then job.job_num else jnum) jobs)

highest-All : (jnum : ℕ) (jobs : List Job) → All (λ job. job.job_num < highest jnum jobs + 1) jobs
unfolding highest
highest-All jnum [] = tt
highest-All jnum (job ∷ jobs) =
    let next = if ltb jnum job.job_num then job.job_num else jnum in
    (ground (arith, highest-ge next jobs), highest-All next jobs)

-- no job of a list has a number that is above all of theirs
find_number_above :
    (jobs : List Job) (n : ℕ) → All (λ job. job.job_num < n) jobs → find_number jobs n ≡ none
unfolding find_number
find_number_above [] n h = refl
find_number_above (job ∷ jobs) n (lt, rest) =
    rw (ne→== job.job_num n (λ e. omega arith)) (find_number_above jobs n rest)

-- what the loop of add_job() does to the slots
record IsPlaced (new : Job) (jnum : ℕ) (jobs : List Job) (p : Placed) : Type 0 where
  above : All (λ job. job.job_num < p.added.job_num) jobs
  passed : jnum < p.added.job_num
  entry : p.added ≡ record new { job_num = p.added.job_num }
  finds : find_number p.jobs p.added.job_num ≡ some p.added
  others : (n : ℕ) → n ≢ 0 → n ≢ p.added.job_num → find_number p.jobs n ≡ find_number jobs n
  free : ¬ All (λ job. job.job_num ≢ 0) jobs
  size : length p.jobs ≡ length jobs

abbrev Places : Job → ℕ → List Job → Option Placed → Type 0
Places new jnum jobs none = All (λ job. job.job_num ≢ 0) jobs
Places new jnum jobs (some p) = IsPlaced new jnum jobs p

-- the slot is taken: the loop goes on
place_later :
    (new : Job) (jnum : ℕ) (job : Job) (jobs : List Job) (o : Option Placed)
    → job.job_num ≢ 0
    → Places new (if ltb jnum job.job_num then job.job_num else jnum) jobs o
    → Places new jnum (job ∷ jobs) (Option.map (λ (p : Placed). record p { jobs = job ∷ p.jobs }) o)
unfolding find_number
place_later new jnum job jobs none taken h = (taken, h)
place_later new jnum job jobs (some p) taken h =
    let below : job.job_num < p.added.job_num = ground (arith, h.passed) in
    record {
      above = (below, h.above);
      passed = ground (arith, h.passed);
      entry = h.entry;
      finds = rw (ne→== job.job_num p.added.job_num (λ e. omega arith)) h.finds;
      others = λ n nonzero ne. rw (h.others n nonzero ne) refl;
      free = λ full. h.free full.1;
      size = ap suc h.size;
    }

-- the slot is free: the job goes there
place_here :
    (new : Job) (jnum : ℕ) (job : Job) (jobs : List Job)
    → job.job_num ≡ 0
    → IsPlaced new jnum (job ∷ jobs) (record {
      jobs = record new { job_num = highest jnum (job ∷ jobs) + 1 } ∷ jobs;
      added = record new { job_num = highest jnum (job ∷ jobs) + 1 };
    })
unfolding find_number
place_here new jnum job jobs free =
    let n = highest jnum (job ∷ jobs) + 1 in
    record {
      above = highest-All jnum (job ∷ jobs);
      passed = omega (arith, highest-ge jnum (job ∷ jobs));
      entry = refl;
      finds = rw (==_refl n) refl;
      others = λ m nonzero ne.
          rw (ne→== n m (λ e. ne (sym e)), ne→== job.job_num m (λ e. nonzero (sym e ∙ free))) refl;
      free = λ full. full.0 free;
      size = refl;
    }

place-Places : (new : Job) (jnum : ℕ) (jobs : List Job) → Places new jnum jobs (place new jnum jobs)
unfolding place
place-Places new jnum [] = tt
place-Places new jnum (job ∷ jobs) = elim (Bool-cases (job.job_num == 0)) [
  | inl e ↦ rw e (place_here new jnum job jobs ((==_iff job.job_num 0).0 e))
  | inr e ↦ rw e (
      place_later new jnum job jobs
        (place new (if ltb jnum job.job_num then job.job_num else jnum) jobs)
        (λ z. ground (arith, ==_iff job.job_num 0))
        (place-Places new (if ltb jnum job.job_num then job.job_num else jnum) jobs))
]

-- the outcome of add_job(): a full table, or a table with one more job
abbrev pub IsEntered : Table → Job → Option Added → Type 0
IsEntered t new none = All (λ job. job.job_num ≢ 0) t.jobs_table
IsEntered t new (some a) =
    (¬ All (λ job. job.job_num ≢ 0) t.jobs_table)
    × (length a.table.jobs_table ≡ length t.jobs_table)
    × (a.entry ≡ record new { job_num = a.entry.job_num })
    × (get_job_by_jobid t a.entry.job_num ≡ none)
    × (get_job_by_jobid a.table a.entry.job_num ≡ some a.entry)
    × ((n : ℕ) → n ≢ a.entry.job_num → get_job_by_jobid a.table n ≡ get_job_by_jobid t n)
    × (a.table.cur_job ≡ a.entry.job_num)
    × IsListed a.table a.table.prev_job

-- lookups by number read the slots only
get_same :
    (t u : Table) (n : ℕ)
    → u.jobs_table ≡ t.jobs_table
    → get_job_by_jobid u n ≡ get_job_by_jobid t n
unfolding get_job_by_jobid
get_same t u n e = rw e refl

placed_found :
    (t : Table) (new : Job) (p : Placed)
    → IsPlaced new 0 t.jobs_table p
    → (get_job_by_jobid t p.added.job_num ≡ none)
      × (get_job_by_jobid (record t { jobs_table = p.jobs }) p.added.job_num ≡ some p.added)
unfolding get_job_by_jobid
placed_found t new p h =
    let nonzero = ne→== p.added.job_num 0 (λ e. absurd (omega (arith, h.passed))) in
    (rw nonzero (find_number_above t.jobs_table p.added.job_num h.above), rw nonzero h.finds)

placed_others :
    (t : Table) (new : Job) (p : Placed) (n : ℕ)
    → IsPlaced new 0 t.jobs_table p
    → n ≢ p.added.job_num
    → get_job_by_jobid (record t { jobs_table = p.jobs }) n ≡ get_job_by_jobid t n
unfolding get_job_by_jobid
placed_others t new p n h ne = elim (Bool-cases (n == 0)) [
  | inl e ↦ rw e refl
  | inr e ↦ rw e (h.others n (λ z. ground (arith, ==_iff n 0)) ne)
]

enter-IsEntered :
    (t : Table) (new : Job) (o : Option Placed)
    → Places new 0 t.jobs_table o
    → IsEntered t new (Option.map (enter t) o)
unfolding enter
enter-IsEntered t new none h = h
enter-IsEntered t new (some p) h =
    let n = p.added.job_num in
    let middle = record t { jobs_table = p.jobs } in
    let full = record t { jobs_table = p.jobs; total_jobs = t.total_jobs +ℤ pos 1 } in
    let (fresh, found) = placed_found t new p h in
    let set = set_cur_job-IsChosen full n (p.added, get_same middle full n refl ∙ found) in
    let same = λ (m : ℕ). get_same middle (set_cur_job full n) m set.same_jobs in
    (
      h.free,
      ap length set.same_jobs ∙ h.size,
      h.entry,
      fresh,
      same n ∙ found,
      λ m ne. same m ∙ placed_others t new p m h ne,
      set.current,
      set.previous,
    )

-- add_job() refuses a job exactly when every slot is taken. Else the table has as many slots as before,
-- the job gets a number that no job had and is found under it, every other number finds what it did, the new job is the current one, and the
-- previous job is one of the table.
pub add_job-IsEntered : (t : Table) (new : Job) → IsEntered t new (add_job t new)
unfolding add_job
add_job-IsEntered t new =
    enter-IsEntered t new (place new 0 t.jobs_table) (place-Places new 0 t.jobs_table)
