-- ===== src/Jobs/Spec.antt =====
-- The job specifications of src/jobs.c: get_jobid(), which reads `%%`, `%-`, `%n`, `%name` and `%?name`.
-- A job without a command string counts as one with the empty string.
use layla_shell.Arith.Text.{strtol}
use layla_shell.Jobs.Job.{Job}
use layla_shell.Jobs.Table.{Table}
use layla_shell.Prelude.Bytes.{Bytes}
use layla_shell.Prelude.{
  ℕ, ◌%◌, ◌^◌, Bool, true, false, not, ◌&&◌, ◌||◌, Option, none, some, List, [], ◌∷◌, ◌==◌,
  if◌then◌else◌, leb,
}

-- strncmp(s, prefix, strlen(prefix)) == 0
unfoldable pub starts_with : Bytes → Bytes → Bool
starts_with s [] = true
starts_with [] (c ∷ prefix) = false
starts_with (d ∷ s) (c ∷ prefix) = d == c && starts_with s prefix

-- strstr(s, word) != NULL
unfoldable pub has_substring : Bytes → Bytes → Bool
unfolding starts_with
has_substring [] word = starts_with [] word
has_substring (c ∷ s) word = starts_with (c ∷ s) word || has_substring s word

unfoldable pub command_of : Job → Bytes
command_of job = elim job.commandstr [ none ↦ [] | some s ↦ s ]

-- the test of the loop, on a slot that is in use
unfoldable pub matches : Bool → Bytes → Job → Bool
unfolding starts_with has_substring command_of
matches substr word job =
    not (job.job_num == 0)
    && (if substr then has_substring (command_of job) word else starts_with (command_of job) word)

-- the answer, and whether the message on an ambiguous name is printed
pub record JobId : Type 0 where
  pub job_num : ℕ
  pub ambiguous : Bool

unfoldable pub match_loop : Bool → Bytes → ℕ → List Job → JobId
unfolding matches
match_loop substr word job_num [] = record { job_num = job_num; ambiguous = false }
match_loop substr word job_num (job ∷ jobs) =
    let found = match_loop substr word job.job_num jobs in
    let rest = match_loop substr word job_num jobs in
    if matches substr word job
    then (if job_num == 0 then found else record { job_num = 0; ambiguous = true })
    else rest

unfoldable pub match_command : Table → Bytes → JobId
unfolding match_loop
match_command t [] = match_loop false [] 0 t.jobs_table
match_command t (c ∷ word) =
    if c == b'?'
    then match_loop true word 0 t.jobs_table
    else match_loop false (c ∷ word) 0 t.jobs_table

-- `int jobid = strtol(...)`, 0 if the string goes on behind the number
unfoldable pub jobid_number : ℕ × Bytes → ℕ
jobid_number (n, []) = n % 2 ^ 32
jobid_number (n, c ∷ rest) = 0

unfoldable pub number_only : ℕ → JobId
number_only n = record { job_num = n; ambiguous = false }

-- behind the `%`
unfoldable pub name_jobid : Table → Bytes → JobId
unfolding number_only match_command jobid_number strtol
name_jobid t [] = number_only 0
name_jobid t (c ∷ name) =
    if leb b'0' c && leb c b'9'
    then number_only (jobid_number (strtol (c ∷ name)))
    else match_command t (c ∷ name)

-- the two-byte names of the current and the previous job
unfoldable pub is_current_name : Bytes → Bool
is_current_name (c ∷ []) = c == b'%' || c == b'+'
is_current_name name = false

unfoldable pub is_previous_name : Bytes → Bool
is_previous_name (c ∷ []) = c == b'-'
is_previous_name name = false

unfoldable pub get_jobid : Table → Option Bytes → JobId
unfolding number_only name_jobid is_current_name is_previous_name
get_jobid t none = number_only 0
get_jobid t (some []) = number_only 0
get_jobid t (some (c ∷ name)) =
    if not (c == b'%')
    then number_only 0
    else (if is_current_name name
        then number_only t.cur_job
        else (if is_previous_name name then number_only t.prev_job else name_jobid t name))
