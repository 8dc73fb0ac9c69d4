-- ===== src/Jobs/Exits.antt =====
-- What the reports of set_pid_exit_status() of src/jobs.c add up to: the processes that have ended.
use layla_shell.Arith.Bits.{test_bit}
use layla_shell.Jobs.Status.{has_ended, test_bit-set_bit, test_bit-clear_bit, test_bit-zero}
use layla_shell.Jobs.Job.{
  Job, find_pid, is_null, note_status, count_exits, recount, set_pid_exit_status,
}
use layla_shell.Jobs.Find.{IsDistinct, find_pid-Found, hit, Found-hit}
use layla_shell.Jobs.Pids.{IsSound, SameList}
use layla_shell.Prelude.{
  ℕ, zero, suc, ◌<◌, ◌≤◌, ◌+◌, ◌≡◌, refl, ap, ◌∙◌, sym, ◌↔◌, inl, inr, Bool, true, false, ◌||◌,
  Option, none, some, List, [], ◌∷◌, ◌==◌, ==_iff, arith, if◌then◌else◌, length, get_or, Bool-cases,
  length-set,
}

-- the reports of processes and their statuses, the latest first
pub record Report : Type 0 where
  pub pid : ℕ
  pub status : ℕ

unfoldable pub replay : Job → List Report → Job
unfolding set_pid_exit_status
replay job [] = job
replay job (r ∷ older) = set_pid_exit_status (replay job older) r.pid r.status

-- whether the latest report of a process says that it ended
unfoldable pub has_exited : List Report → ℕ → Bool
unfolding has_ended
has_exited [] pid = false
has_exited (r ∷ older) pid = if r.pid == pid then has_ended r.status else has_exited older pid

-- how many of `n` processes, from the `i`-th on, have ended
unfoldable pub count_exited : ℕ → ℕ → List ℕ → List Report → ℕ
unfolding has_exited
count_exited zero i pids rs = 0
count_exited (suc n) i pids rs =
    (if has_exited rs (get_or pids i 0) then 1 else 0) + count_exited n (i + 1) pids rs

note_status-SameList :
    (job : Job) (status : ℕ) (o : Option ℕ) → SameList (note_status job status o) job
unfolding note_status
note_status-SameList job status none = record {
  list = refl;
  codes = refl;
  count = refl;
  group = refl;
}
note_status-SameList job status (some i) = record {
  list = refl;
  codes = length-set job.exit_codes i status;
  count = refl;
  group = refl;
}

pub set_pid_exit_status-SameList :
    (job : Job) (pid status : ℕ) → SameList (set_pid_exit_status job pid status) job
unfolding set_pid_exit_status recount
set_pid_exit_status-SameList job pid status =
    elim (Bool-cases (is_null job.pids || is_null job.exit_codes)) [
      | inl e ↦ rw e record { list = refl; codes = refl; count = refl; group = refl }
      | inr e ↦
          let h = note_status-SameList job status (find_pid job.proc_count job.pids pid) in
          rw e record { list = h.list; codes = h.codes; count = h.count; group = h.group }
    ]

replay-SameList : (job : Job) (rs : List Report) → SameList (replay job rs) job
unfolding replay
replay-SameList job [] = record { list = refl; codes = refl; count = refl; group = refl }
replay-SameList job (r ∷ older) =
    let h = set_pid_exit_status-SameList (replay job older) r.pid r.status in
    let k = replay-SameList job older in
    record {
      list = h.list ∙ k.list;
      codes = h.codes ∙ k.codes;
      count = h.count ∙ k.count;
      group = h.group ∙ k.group;
    }

note_status-bit :
    (job : Job) (status i : ℕ) (o : Option ℕ)
    → test_bit i (note_status job status o).child_exitbits
      ≡ hit o i (has_ended status) (test_bit i job.child_exitbits)
unfolding note_status
note_status-bit job status i none = refl
note_status-bit job status i (some k) = elim (Bool-cases (has_ended status)) [
  | inl e ↦ rw e (test_bit-set_bit k i job.child_exitbits)
  | inr e ↦ rw e (test_bit-clear_bit k i job.child_exitbits)
]

not_null : (l : List ℕ) → 0 < length l → is_null l ≡ false
unfolding is_null
not_null [] h = absurd (omega arith)
not_null (x ∷ l) h = refl

-- with its arrays, a job counts the bits after each report
pub set_pid_exit_status-open :
    (job : Job) (pid status : ℕ)
    → 0 < length job.pids
    → 0 < length job.exit_codes
    → set_pid_exit_status job pid status
      ≡ recount (note_status job status (find_pid job.proc_count job.pids pid))
unfolding set_pid_exit_status
set_pid_exit_status-open job pid status h k =
    rw (not_null job.pids h, not_null job.exit_codes k) refl

report-bit :
    (job : Job) (pid status i : ℕ)
    → IsDistinct job.proc_count job.pids
    → job.proc_count ≤ length job.pids
    → i < job.proc_count
    → test_bit i (note_status job status (find_pid job.proc_count job.pids pid)).child_exitbits
      ≡ (if pid == get_or job.pids i 0 then has_ended status else test_bit i job.child_exitbits)
report-bit job pid status i distinct fits lt =
    note_status-bit job status i (find_pid job.proc_count job.pids pid)
    ∙ Found-hit job.proc_count job.pids pid i (find_pid job.proc_count job.pids pid)
        (has_ended status) _ distinct fits lt (find_pid-Found job.proc_count job.pids pid)

-- the list and its bounds, as a report finds them
record IsOpen (job : Job) : Type 0 where
  distinct : IsDistinct job.proc_count job.pids
  fits : job.proc_count ≤ length job.pids
  listed : 0 < length job.pids
  coded : 0 < length job.exit_codes

replay-IsOpen : (job : Job) (rs : List Report) → IsSound job → IsOpen (replay job rs)
replay-IsOpen job rs sound =
    let h = replay-SameList job rs in
    record {
      distinct = rw (h.list, h.count) sound.distinct;
      fits = rw (h.list, h.count) (omega (arith, sound.fits, sound.pids_size));
      listed = rw h.list (omega (arith, sound.pids_size));
      coded = omega (arith, h.codes, sound.codes_size);
    }

replay-bit :
    (job : Job) (rs : List Report) (i : ℕ)
    → IsSound job
    → job.child_exitbits ≡ 0
    → i < job.proc_count
    → test_bit i (replay job rs).child_exitbits ≡ has_exited rs (get_or job.pids i 0)
unfolding replay has_exited
replay-bit job [] i sound none_yet lt = ap (test_bit i) none_yet ∙ test_bit-zero i
replay-bit job (r ∷ older) i sound none_yet lt =
    let j = replay job older in
    let o = replay-IsOpen job older sound in
    let same = replay-SameList job older in
    rw (set_pid_exit_status-open j r.pid r.status o.listed o.coded) (
      report-bit j r.pid r.status i o.distinct o.fits (rw same.count lt)
      ∙ rw (same.list, replay-bit job older i sound none_yet lt) refl)

count_exits-count_exited :
    (n i bits : ℕ) (pids : List ℕ) (rs : List Report)
    → ((k : ℕ) → k < i + n → test_bit k bits ≡ has_exited rs (get_or pids k 0))
    → count_exits n i bits ≡ count_exited n i pids rs
unfolding count_exits count_exited
count_exits-count_exited zero i bits pids rs h = refl
count_exits-count_exited (suc n) i bits pids rs h =
    rw
      (
        h i (omega arith),
        count_exits-count_exited n (i + 1) bits pids rs (λ k lt. h k (omega arith)),
      )
      refl

count_exited_none : (n i : ℕ) (pids : List ℕ) → count_exited n i pids [] ≡ 0
unfolding count_exited has_exited
count_exited_none zero i pids = refl
count_exited_none (suc n) i pids = rw (count_exited_none n (i + 1) pids) refl

recounted :
    (job : Job) (pid status : ℕ)
    → IsOpen job
    → (set_pid_exit_status job pid status).child_exits
      ≡ count_exits
          (set_pid_exit_status job pid status).proc_count
          0
          (set_pid_exit_status job pid status).child_exitbits
unfolding recount
recounted job pid status o = rw (set_pid_exit_status-open job pid status o.listed o.coded) refl

-- After any reports about its processes, a sound job of which none had ended counts in child_exits the
-- processes whose latest report says that they ended.
pub replay-child_exits :
    (job : Job) (rs : List Report)
    → IsSound job
    → job.child_exitbits ≡ 0
    → job.child_exits ≡ 0
    → (replay job rs).child_exits ≡ count_exited job.proc_count 0 job.pids rs
unfolding replay
replay-child_exits job [] sound bits exits =
    exits ∙ sym (count_exited_none job.proc_count 0 job.pids)
replay-child_exits job (r ∷ older) sound bits exits =
    let j = replay job older in
    let count = (replay-SameList job (r ∷ older)).count in
    recounted j r.pid r.status (replay-IsOpen job older sound)
    ∙ ap (λ n. count_exits n 0 (replay job (r ∷ older)).child_exitbits) count
    ∙ count_exits-count_exited job.proc_count 0 _ job.pids (r ∷ older)
        (λ k lt. replay-bit job (r ∷ older) k sound bits (omega arith))

count_exited_bound : (n i : ℕ) (pids : List ℕ) (rs : List Report) → count_exited n i pids rs ≤ n
unfolding count_exited
count_exited_bound zero i pids rs = omega arith
count_exited_bound (suc n) i pids rs = ground (arith, count_exited_bound n (i + 1) pids rs)

all_counted :
    (n i : ℕ) (pids : List ℕ) (rs : List Report)
    → ((k : ℕ) → k < i + n → has_exited rs (get_or pids k 0) ≡ true)
    → count_exited n i pids rs ≡ n
unfolding count_exited
all_counted zero i pids rs h = refl
all_counted (suc n) i pids rs h =
    rw (h i (omega arith), all_counted n (i + 1) pids rs (λ k lt. h k (omega arith))) (omega arith)

counted_all :
    (n i : ℕ) (pids : List ℕ) (rs : List Report)
    → count_exited n i pids rs ≡ n
    → (k : ℕ) → i ≤ k
    → k < i + n
    → has_exited rs (get_or pids k 0) ≡ true
unfolding count_exited
counted_all zero i pids rs h k low high = absurd (omega arith)
counted_all (suc n) i pids rs h k low high = elim (Bool-cases (i == k)) [
  | inl e ↦ ground (arith, ==_iff i k, count_exited_bound n (i + 1) pids rs, cong i k)
  | inr e ↦
      counted_all n (i + 1) pids rs (ground (arith, count_exited_bound n (i + 1) pids rs)) k
        (ground (arith, ==_iff i k)) (omega arith)
]
  where
    cong : (a b : ℕ) → a ≡ b → has_exited rs (get_or pids a 0) ≡ has_exited rs (get_or pids b 0)
    cong a b e = ap (λ x. has_exited rs (get_or pids x 0)) e

-- A sound job, none of whose processes had ended, is complete exactly when the latest report of each of
-- them says that it ended: child_exits is then the number of its processes.
pub replay_complete_iff :
    (job : Job) (rs : List Report)
    → IsSound job
    → job.child_exitbits ≡ 0
    → job.child_exits ≡ 0
    → ((replay job rs).child_exits ≡ (replay job rs).proc_count)
      ↔ ((i : ℕ) → i < job.proc_count → has_exited rs (get_or job.pids i 0) ≡ true)
replay_complete_iff job rs sound bits exits = (
  λ e i lt.
      counted_all job.proc_count 0 job.pids rs (sym count ∙ e ∙ same) i (omega arith) (omega arith),
  λ h. count ∙ all_counted job.proc_count 0 job.pids rs (λ k lt. h k (omega arith)) ∙ sym same,
)
  where
    count : (replay job rs).child_exits ≡ count_exited job.proc_count 0 job.pids rs
    count = replay-child_exits job rs sound bits exits

    same : (replay job rs).proc_count ≡ job.proc_count
    same = (replay-SameList job rs).count
