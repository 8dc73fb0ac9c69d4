-- ===== src/Jobs/Names.antt =====
-- What get_jobid() of src/jobs.c answers for a number and for the name of a command.
use layla_shell.Arith.Digit.{is_digit, between}
use layla_shell.Arith.Op.{at}
use layla_shell.Arith.Text.{strtol, print_long, strtol-print_long, print_long-digit}
use layla_shell.Jobs.Job.{Job}
use layla_shell.Jobs.Table.{Table}
use layla_shell.Jobs.Spec.{
  matches, JobId, match_loop, jobid_number, number_only, name_jobid, is_current_name,
  is_previous_name, get_jobid,
}
use layla_shell.Prelude.Bytes.{Bytes}
use layla_shell.Prelude.{
  ℕ, ◌<◌, ◌^◌, ◌%◌, ◌≡◌, refl, ap, ◌∙◌, sym, inl, inr, Bool, true, false, ◌≢◌, some, List, [], ◌∷◌,
  ne→==, arith, if◌then◌else◌, Bool-cases,
}

no_digit : is_digit (at [] 0) ≢ true
unfolding is_digit between at
no_digit h = cc

digit_name :
    (t : Table) (s : Bytes)
    → is_digit (at s 0) ≡ true
    → get_jobid t (some (b'%' ∷ s)) ≡ number_only (jobid_number (strtol s))
unfolding get_jobid is_current_name is_previous_name name_jobid is_digit between at
digit_name t [] h = absurd (no_digit h)
digit_name t (c ∷ []) h = ground arith
digit_name t (c ∷ d ∷ s) h = ground arith

-- The text `%n` of a job number, as a C int holds it, names the job of that number.
pub get_jobid-print_long :
    (t : Table) (n : ℕ)
    → n < 2 ^ 31
    → get_jobid t (some (b'%' ∷ print_long n)) ≡ record { job_num = n; ambiguous = false }
unfolding number_only jobid_number
get_jobid-print_long t n h =
    let whole : n % 2 ^ 32 ≡ n = omega arith in
    digit_name t (print_long n) (print_long-digit n (omega arith))
    ∙ ap (λ r. number_only (jobid_number r)) (strtol-print_long n (omega arith))
    ∙ rw whole refl

-- the jobs whose command matches
unfoldable pub matching : Bool → Bytes → List Job → List Job
unfolding matches
matching substr word [] = []
matching substr word (job ∷ jobs) =
    if matches substr word job then job ∷ matching substr word jobs else matching substr word jobs

-- the answer that the jobs with the name call for
unfoldable pub answer : List Job → JobId
answer [] = record { job_num = 0; ambiguous = false }
answer (job ∷ []) = record { job_num = job.job_num; ambiguous = false }
answer (job ∷ other ∷ jobs) = record { job_num = 0; ambiguous = true }

-- the same with a job found before
abbrev answer_after : ℕ → List Job → JobId
answer_after n [] = record { job_num = n; ambiguous = false }
answer_after n (job ∷ jobs) = record { job_num = 0; ambiguous = true }

match_loop_after :
    (substr : Bool) (word : Bytes) (n : ℕ) (jobs : List Job)
    → n ≢ 0
    → match_loop substr word n jobs ≡ answer_after n (matching substr word jobs)
unfolding match_loop matching
match_loop_after substr word n [] h = refl
match_loop_after substr word n (job ∷ jobs) h = elim (Bool-cases (matches substr word job)) [
  | inl e ↦ rw (e, ne→== n 0 h) refl
  | inr e ↦ rw e (match_loop_after substr word n jobs h)
]

answer_cons : (job : Job) (jobs : List Job) → answer (job ∷ jobs) ≡ answer_after job.job_num jobs
unfolding answer
answer_cons job [] = refl
answer_cons job (other ∷ jobs) = refl

match_numbered :
    (substr : Bool) (word : Bytes) (job : Job) → matches substr word job ≡ true → job.job_num ≢ 0
unfolding matches
match_numbered substr word job h = λ e. ground arith

-- The loop of get_jobid() over the commands answers the number of the one job that matches, 0 if none
-- does, and 0 with a message if several do.
pub match_loop-answer :
    (substr : Bool) (word : Bytes) (jobs : List Job)
    → match_loop substr word 0 jobs ≡ answer (matching substr word jobs)
unfolding match_loop matching answer
match_loop-answer substr word [] = refl
match_loop-answer substr word (job ∷ jobs) = elim (Bool-cases (matches substr word job)) [
  | inl e ↦ rw e (
      match_loop_after substr word job.job_num jobs (match_numbered substr word job e)
      ∙ sym (answer_cons job (matching substr word jobs)))
  | inr e ↦ rw e (match_loop-answer substr word jobs)
]
