-- ===== src/Jobs/Last.antt =====
-- What last_job_with_status() of src/jobs.c finds, and the jobs that a number names.
use mathlib.Core.Option.{some-injective}
use layla_shell.Jobs.Job.{Job}
use layla_shell.Jobs.Table.{
  Table, find_number, is_candidate, later_job, last_job_loop, last_job_with_status, number_or,
}
use layla_shell.Prelude.{
  ℕ, ◌≤◌, ◌≡◌, refl, ◌∙◌, sym, inl, inr, ◌⊎◌, Bool, true, false, Option, none, some, List, [], ◌∷◌,
  ◌==◌, ◌≢◌, ==_refl, arith, ltb, Bool-cases, All,
}

-- the job stands in one of the slots
abbrev pub In : Job → List Job → Type 0
In job [] = ⊥
In job (x ∷ jobs) = (job ≡ x) ⊎ In job jobs

pub In-find_number :
    (job : Job) (jobs : List Job)
    → In job jobs
    → (k : Job) × (find_number jobs job.job_num ≡ some k)
unfolding find_number
In-find_number job [] i = elim i [ ]
In-find_number job (x ∷ jobs) (inl e) = (x, rw (e, ==_refl x.job_num) refl)
In-find_number job (x ∷ jobs) (inr i) = elim (Bool-cases (x.job_num == job.job_num)) [
  | inl e ↦ (x, rw e refl)
  | inr e ↦ let (k, h) = In-find_number job jobs i in (k, rw e h)
]

-- what the search answers: no job passes its test, or the job is the one that passes with the highest
-- number
abbrev pub Latest : ℕ → Bool → List Job → Option Job → Type 0
Latest older_than run jobs none = All (λ job. is_candidate older_than run job ≡ false) jobs
Latest older_than run jobs (some last) =
    In last jobs
    × (is_candidate older_than run last ≡ true)
    × All (λ job. is_candidate older_than run job ≡ true → job.job_num ≤ last.job_num) jobs

-- the same in the middle of the loop, with a job found before
abbrev LatestFrom : ℕ → Bool → Option Job → List Job → Option Job → Type 0
LatestFrom older_than run found jobs none =
    (found ≡ none) × All (λ job. is_candidate older_than run job ≡ false) jobs
LatestFrom older_than run found jobs (some last) =
    ((found ≡ some last) ⊎ (In last jobs × (is_candidate older_than run last ≡ true)))
    × (number_or 0 found ≤ last.job_num)
    × All (λ job. is_candidate older_than run job ≡ true → job.job_num ≤ last.job_num) jobs

-- the job that the loop goes on with after a candidate
record IsLater (found : Option Job) (job : Job) (o : Option Job) : Type 0 where
  after_found : number_or 0 found ≤ number_or 0 o
  after_job : job.job_num ≤ number_or 0 o
  choice : (o ≡ some job) ⊎ (o ≡ found)
  present : o ≢ none

later_job-IsLater : (found : Option Job) (job : Job) → IsLater found job (later_job found job)
unfolding later_job number_or
later_job-IsLater none job = record {
  after_found = omega arith;
  after_job = omega arith;
  choice = inl refl;
  present = λ e. cc;
}
later_job-IsLater (some k) job = elim (Bool-cases (ltb k.job_num job.job_num)) [
  | inl e ↦ rw e (record {
    after_found = ground arith;
    after_job = omega arith;
    choice = inl refl;
    present = λ e. cc;
  })
  | inr e ↦ rw e (record {
    after_found = omega arith;
    after_job = ground arith;
    choice = inr refl;
    present = λ e. cc;
  })
]

skip_step :
    (older_than : ℕ) (run : Bool) (found : Option Job) (job : Job) (jobs : List Job)
    (o : Option Job)
    → is_candidate older_than run job ≡ false
    → LatestFrom older_than run found jobs o
    → LatestFrom older_than run found (job ∷ jobs) o
skip_step older_than run found job jobs none e h = (h.0, (e, h.1))
skip_step older_than run found job jobs (some last) e (source, bound, rest) = (
  elim source [ inl p ↦ inl p | inr (i, c) ↦ inr (inr i, c) ],
  bound,
  (λ c. absurd (ground arith), rest),
)

take_step :
    (older_than : ℕ) (run : Bool) (found : Option Job) (job : Job) (jobs : List Job)
    (o : Option Job)
    → is_candidate older_than run job ≡ true
    → LatestFrom older_than run (later_job found job) jobs o
    → LatestFrom older_than run found (job ∷ jobs) o
unfolding number_or
take_step older_than run found job jobs none e h =
    absurd ((later_job-IsLater found job).present h.0)
take_step older_than run found job jobs (some last) e (source, bound, rest) =
    let later = later_job-IsLater found job in
    (
      elim source [
        | inl p ↦ elim later.choice [
          | inl q ↦
              let same : last ≡ job = some-injective last job (sym p ∙ q) in
              inr (inl same, rw same e)
          | inr q ↦ inl (sym q ∙ p)
        ]
        | inr (i, c) ↦ inr (inr i, c)
      ],
      omega (arith, later.after_found),
      (λ c. omega (arith, later.after_job), rest),
    )

number_le : (k : Job) → number_or 0 (some k) ≤ k.job_num
unfolding number_or
number_le k = omega arith

last_job_loop-LatestFrom :
    (older_than : ℕ) (run : Bool) (found : Option Job) (jobs : List Job)
    → LatestFrom older_than run found jobs (last_job_loop older_than run found jobs)
unfolding last_job_loop
last_job_loop-LatestFrom older_than run none [] = (refl, tt)
last_job_loop-LatestFrom older_than run (some k) [] = (inl refl, number_le k, tt)
last_job_loop-LatestFrom older_than run found (job ∷ jobs) =
    elim (Bool-cases (is_candidate older_than run job)) [
      | inl e ↦ rw e (
          take_step older_than run found job jobs
            (last_job_loop older_than run (later_job found job) jobs) e
            (last_job_loop-LatestFrom older_than run (later_job found job) jobs))
      | inr e ↦ rw e (
          skip_step older_than run found job jobs (last_job_loop older_than run found jobs) e
            (last_job_loop-LatestFrom older_than run found jobs))
    ]

narrow :
    (older_than : ℕ) (run : Bool) (jobs : List Job) (o : Option Job)
    → LatestFrom older_than run none jobs o
    → Latest older_than run jobs o
narrow older_than run jobs none h = h.1
narrow older_than run jobs (some last) (source, bound, rest) = elim source [
  | inl p ↦ absurd (none_some p)
  | inr (i, c) ↦ (i, c, rest)
]
  where
    none_some : none ≢ some last
    none_some p = cc

-- last_job_with_status() finds the job with the highest number among those of the table that are older
-- than the given number and running, or stopped, as asked; it finds none only if there is none.
pub last_job_with_status-Latest :
    (t : Table) (older_than : ℕ) (run : Bool)
    → Latest older_than run t.jobs_table (last_job_with_status t older_than run)
unfolding last_job_with_status
last_job_with_status-Latest t older_than run =
    narrow older_than run t.jobs_table (last_job_loop older_than run none t.jobs_table)
      (last_job_loop-LatestFrom older_than run none t.jobs_table)
