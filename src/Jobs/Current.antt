-- ===== src/Jobs/Current.antt =====
-- The current and the previous job of src/jobs.c: set_cur_job() and reset_cur_job().
use layla_shell.Jobs.Status.{stopped, running}
use layla_shell.Jobs.Job.{Job}
use layla_shell.Jobs.Table.{
  Table, get_job_by_jobid, is_candidate, last_job_with_status, last_running_job, last_stopped_job,
  number_or, prev_running, prev_stopped, choose_prev, stopped_job, move_cur, settle_prev,
  set_cur_job, is_stopped_number, choose_cur, is_nonzero, reset_cur_job, max_jobs,
}
use layla_shell.Jobs.Last.{In-find_number, Latest, last_job_with_status-Latest}
use layla_shell.Prelude.{
  ℕ, ◌≡◌, refl, ◌∙◌, inl, inr, ◌⊎◌, Bool, true, false, not, ◌&&◌, ◌≢◌, Option, none, some, ◌==◌,
  ==_iff, arith, if◌then◌else◌, Bool-cases, subst, Option-cases,
}

-- the number names a job of the table
abbrev pub IsListed : Table → ℕ → Type 0
IsListed t n = (job : Job) × (get_job_by_jobid t n ≡ some job)

last_job-IsListed :
    (t : Table) (older_than : ℕ) (run : Bool) (job : Job)
    → last_job_with_status t older_than run ≡ some job
    → IsListed t job.job_num
unfolding get_job_by_jobid is_candidate
last_job-IsListed t older_than run job e =
    let (inside, passes, _) =
      subst (Latest older_than run t.jobs_table) e (last_job_with_status-Latest t older_than run) in
    let (k, found) = In-find_number job t.jobs_table inside in (k, ground (arith, found))

listed_nonzero : (t : Table) (n : ℕ) → IsListed t n → n ≢ 0
unfolding get_job_by_jobid
listed_nonzero t n (k, found) = λ e. ground (arith, ==_iff n 0)

stopped_job-IsListed :
    (t : Table) (n : ℕ) → stopped_job (get_job_by_jobid t n) ≡ true → IsListed t n
unfolding stopped_job
stopped_job-IsListed t n h = elim (Option-cases (get_job_by_jobid t n)) [
  | inl e ↦ absurd (none_stopped e)
  | inr k ↦ k
]
  where
    none_stopped : get_job_by_jobid t n ≢ none
    none_stopped e = ground arith

-- the table with `n` for its current job and a previous one that is listed
pub record IsChosen (t : Table) (n : ℕ) (after : Table) : Type 0 where
  pub same_jobs : after.jobs_table ≡ t.jobs_table
  pub same_total : after.total_jobs ≡ t.total_jobs
  pub current : after.cur_job ≡ n
  pub previous : IsListed after after.prev_job

-- listing reads the jobs only
IsListed-same : (t u : Table) (n : ℕ) → u.jobs_table ≡ t.jobs_table → IsListed t n → IsListed u n
unfolding get_job_by_jobid
IsListed-same t u n e (k, found) = (k, rw e found)

choose_from :
    (t : Table) (o : Option Job)
    → ((job : Job) → o ≡ some job → IsListed t job.job_num)
    → IsListed t t.cur_job
    → IsListed t (number_or t.cur_job o)
unfolding number_or
choose_from t none h cur = cur
choose_from t (some job) h cur = h job refl

same_IsSet : (t : Table) (m : ℕ) → IsListed t m → IsChosen t t.cur_job (record t { prev_job = m })
same_IsSet t m listed = record {
  same_jobs = refl;
  same_total = refl;
  current = refl;
  previous = IsListed-same t (record t { prev_job = m }) m refl listed;
}

prev_running-IsChosen :
    (t : Table) (k : Job) → IsListed t t.cur_job → IsChosen t t.cur_job (prev_running t k)
unfolding prev_running last_running_job
prev_running-IsChosen t k cur =
    let older_than = if running k.status then t.cur_job else max_jobs in
    same_IsSet t _ (
      choose_from t (last_job_with_status t older_than true) (last_job-IsListed t older_than true)
        cur)

prev_stopped-IsChosen :
    (t : Table) (k : Job) (o : Option Job)
    → ((job : Job) → o ≡ some job → IsListed t job.job_num)
    → IsListed t t.cur_job
    → IsChosen t t.cur_job (prev_stopped t k o)
unfolding prev_stopped
prev_stopped-IsChosen t k none h cur = prev_running-IsChosen t k cur
prev_stopped-IsChosen t k (some job) h cur = same_IsSet t job.job_num (h job refl)

-- both branches of a test
if-IsChosen :
    (t : Table) (n : ℕ) (b : Bool) (u v : Table)
    → IsChosen t n u
    → IsChosen t n v
    → IsChosen t n (if b then u else v)
if-IsChosen t n true u v h k = h
if-IsChosen t n false u v h k = k

choose_prev-IsChosen :
    (t : Table) (o : Option Job) → IsListed t t.cur_job → IsChosen t t.cur_job (choose_prev t o)
unfolding choose_prev last_stopped_job
choose_prev-IsChosen t none cur = same_IsSet t t.cur_job cur
choose_prev-IsChosen t (some k) cur =
    if-IsChosen t t.cur_job (stopped k.status) _ _
      (prev_stopped-IsChosen t k (last_job_with_status t k.job_num false)
        (last_job-IsListed t k.job_num false) cur)
      (prev_running-IsChosen t k cur)

-- the test that keeps the previous job
abbrev keeps_prev : Table → Bool
keeps_prev t =
    not (t.prev_job == 0)
    && not (t.prev_job == t.cur_job)
    && stopped_job (get_job_by_jobid t t.prev_job)

settle_prev-IsChosen : (t : Table) → IsListed t t.cur_job → IsChosen t t.cur_job (settle_prev t)
unfolding settle_prev
settle_prev-IsChosen t cur = elim (Bool-cases (keeps_prev t)) [
  | inl e ↦ rw e (same_IsSet t t.prev_job (stopped_job-IsListed t t.prev_job (ground arith)))
  | inr e ↦ rw e (choose_prev-IsChosen t (get_job_by_jobid t t.cur_job) cur)
]

move_cur_lem :
    (t : Table) (n : ℕ)
    → ((move_cur t n).jobs_table ≡ t.jobs_table)
      × ((move_cur t n).total_jobs ≡ t.total_jobs)
      × ((move_cur t n).cur_job ≡ n)
unfolding move_cur
move_cur_lem t n = ground arith

-- set_cur_job() of a job of the table makes it the current job, and leaves a previous job that is one of
-- the table too; the jobs stay.
pub set_cur_job-IsChosen : (t : Table) (n : ℕ) → IsListed t n → IsChosen t n (set_cur_job t n)
unfolding set_cur_job
set_cur_job-IsChosen t n listed =
    let (jobs, total, cur) = move_cur_lem t n in
    let h =
      settle_prev-IsChosen (move_cur t n) (rw cur (IsListed-same t (move_cur t n) n jobs listed)) in
    record {
      same_jobs = h.same_jobs ∙ jobs;
      same_total = h.same_total ∙ total;
      current = h.current ∙ cur;
      previous = h.previous;
    }

-- the current and the previous job are both none, or both jobs of the table
abbrev pub IsConsistent : Table → Type 0
IsConsistent t =
    ((t.cur_job ≡ 0) × (t.prev_job ≡ 0)) ⊎ (IsListed t t.cur_job × IsListed t t.prev_job)

is_stopped_number-IsListed : (t : Table) (n : ℕ) → is_stopped_number t n ≡ true → IsListed t n
unfolding is_stopped_number
is_stopped_number-IsListed t n h = elim (Option-cases (get_job_by_jobid t n)) [
  | inl e ↦ absurd (ground arith)
  | inr k ↦ k
]

last_number :
    (t : Table) (older_than : ℕ) (run : Bool)
    → (number_or 0 (last_job_with_status t older_than run) ≡ 0)
      ⊎ IsListed t (number_or 0 (last_job_with_status t older_than run))
unfolding number_or
last_number t older_than run = elim (Option-cases (last_job_with_status t older_than run)) [
  | inl e ↦ inl (rw e refl)
  | inr (job, e) ↦ inr (rw e (last_job-IsListed t older_than run job e))
]

choose_cur-IsListed :
    (t : Table) (has_jobs : Bool) → (choose_cur t has_jobs ≡ 0) ⊎ IsListed t (choose_cur t has_jobs)
unfolding choose_cur last_running_job last_stopped_job
choose_cur-IsListed t has_jobs = elim (Bool-cases (has_jobs && is_stopped_number t t.cur_job)) [
  | inl e ↦ rw e (inr (is_stopped_number-IsListed t t.cur_job (ground arith)))
  | inr e ↦ elim (Bool-cases (is_stopped_number t t.prev_job)) [
    | inl f ↦ rw (e, f) (inr (is_stopped_number-IsListed t t.prev_job f))
    | inr f ↦ elim (Bool-cases (number_or 0 (last_job_with_status t max_jobs false) == 0)) [
      | inl g ↦ rw (e, f, g) (last_number t max_jobs true)
      | inr g ↦ rw (e, f, g) (last_number t max_jobs false)
    ]
  ]
]

-- After reset_cur_job(), whatever the numbers were before, the current and the previous job are both
-- none, or both jobs of the table; the jobs stay.
pub reset_cur_job-IsConsistent :
    (t : Table) → IsConsistent (reset_cur_job t) × ((reset_cur_job t).jobs_table ≡ t.jobs_table)
unfolding reset_cur_job
reset_cur_job-IsConsistent t =
    let i = choose_cur t (is_nonzero t.total_jobs) in
    elim (Bool-cases (i == 0)) [
      | inl e ↦ rw e (inl (refl, refl), refl)
      | inr e ↦
          let nonzero : i ≢ 0 = λ p. ground (arith, ==_iff i 0) in
          let listed : IsListed t i = elim (choose_cur-IsListed t (is_nonzero t.total_jobs)) [
            | inl p ↦ absurd (nonzero p)
            | inr l ↦ l
          ] in
          let h = set_cur_job-IsChosen t i listed in
          rw e (
            inr (rw h.current (IsListed-same t (set_cur_job t i) i h.same_jobs listed), h.previous),
            h.same_jobs,
          )
    ]

-- the jobs stay whatever number is given
prev_running_jobs : (t : Table) (k : Job) → (prev_running t k).jobs_table ≡ t.jobs_table
unfolding prev_running
prev_running_jobs t k = refl

prev_stopped_jobs :
    (t : Table) (k : Job) (o : Option Job) → (prev_stopped t k o).jobs_table ≡ t.jobs_table
unfolding prev_stopped
prev_stopped_jobs t k none = prev_running_jobs t k
prev_stopped_jobs t k (some job) = refl

if_jobs :
    (t : Table) (b : Bool) (u v : Table)
    → u.jobs_table ≡ t.jobs_table
    → v.jobs_table ≡ t.jobs_table
    → (if b then u else v).jobs_table ≡ t.jobs_table
if_jobs t true u v h k = h
if_jobs t false u v h k = k

choose_prev_jobs : (t : Table) (o : Option Job) → (choose_prev t o).jobs_table ≡ t.jobs_table
unfolding choose_prev
choose_prev_jobs t none = refl
choose_prev_jobs t (some k) =
    if_jobs t (stopped k.status) (prev_stopped t k (last_stopped_job t k.job_num))
      (prev_running t k) (prev_stopped_jobs t k (last_stopped_job t k.job_num))
      (prev_running_jobs t k)

pub set_cur_job_jobs : (t : Table) (n : ℕ) → (set_cur_job t n).jobs_table ≡ t.jobs_table
unfolding set_cur_job settle_prev
set_cur_job_jobs t n =
    let moved = move_cur t n in
    if_jobs moved (keeps_prev moved) moved
      (choose_prev moved (get_job_by_jobid moved moved.cur_job)) refl
      (choose_prev_jobs moved (get_job_by_jobid moved moved.cur_job))
    ∙ (move_cur_lem t n).0
