-- ===== src/Jobs/Pids.antt =====
-- The processes of a job: what add_pid_to_job() of src/jobs.c keeps, from new_job() on.
use layla_shell.Jobs.Job.{
  Job, find_pid, is_null, fill_slot, add_another, add_pid_to_job, new_job, get_malloced_pids,
  get_malloced_exit_codes, max_process_per_job,
}
use layla_shell.Jobs.Find.{IsDistinct, Found, find_pid-Found}
use layla_shell.Prelude.Bytes.{Bytes}
use layla_shell.Prelude.{
  ℕ, ◌<◌, ◌≤◌, ◌+◌, ◌≡◌, refl, ap, ◌∙◌, sym, ◌⊎◌, ◌≢◌, inl, inr, Bool, Option, none, some, List,
  ◌==◌, ==_iff, arith, length, get_or, set, Bool-cases, subst, length-set, get_or-set_self,
  get_or-set_ne, get_or-replicate, length-replicate,
}

-- The arrays have their sizes; the processes stand at the front, none is 0 and none stands twice; a job
-- without a group has no process yet.
pub record IsSound (job : Job) : Type 0 where
  pub pids_size : length job.pids ≡ max_process_per_job
  pub codes_size : length job.exit_codes ≡ max_process_per_job
  pub fits : job.proc_count ≤ max_process_per_job
  pub used : (i : ℕ) → i < job.proc_count → get_or job.pids i 0 ≢ 0
  pub unused : (i : ℕ) → job.proc_count ≤ i → get_or job.pids i 0 ≡ 0
  pub distinct : IsDistinct job.proc_count job.pids
  pub grouped : job.pgid ≡ 0 → job.proc_count ≡ 0

-- what the updates of a job leave of it
pub record SameList (a b : Job) : Type 0 where
  pub list : a.pids ≡ b.pids
  pub codes : length a.exit_codes ≡ length b.exit_codes
  pub count : a.proc_count ≡ b.proc_count
  pub group : a.pgid ≡ b.pgid

pub SameList-IsSound : (a b : Job) → SameList a b → IsSound b → IsSound a
SameList-IsSound a b h sound = record {
  pids_size = rw h.list sound.pids_size;
  codes_size = h.codes ∙ sound.codes_size;
  fits = rw h.count sound.fits;
  used = rw (h.list, h.count) sound.used;
  unused = rw (h.list, h.count) sound.unused;
  distinct = rw (h.list, h.count) sound.distinct;
  grouped = rw (h.group, h.count) sound.grouped;
}

pub new_job-IsSound :
    (monitor : Bool) (pgrp : ℕ) (commandstr : Option Bytes) (is_bg : Bool)
    → IsSound (new_job monitor pgrp commandstr is_bg)
unfolding new_job get_malloced_pids get_malloced_exit_codes
new_job-IsSound monitor pgrp commandstr is_bg = record {
  pids_size = length-replicate {A = ℕ} 32 0;
  codes_size = length-replicate {A = ℕ} 32 0;
  fits = omega arith;
  used = λ i h. absurd (omega arith);
  unused = λ i h. get_or-replicate 32 i 0;
  distinct = λ i j h. absurd (omega arith);
  grouped = λ _. refl;
}

-- a process that is not in the list, put behind the last
append-IsDistinct :
    (n pid : ℕ) (pids : List ℕ)
    → n < length pids
    → IsDistinct n pids
    → ((i : ℕ) → i < n → get_or pids i 0 ≢ pid)
    → IsDistinct (n + 1) (set pids n pid)
append-IsDistinct n pid pids room distinct other i j hi hj e = elim (spot i hi) [
  | inl (p, u) ↦ elim (spot j hj) [
    | inl (q, v) ↦ p ∙ sym q
    | inr (q, v) ↦ absurd (other j q (sym v ∙ sym e ∙ u))
  ]
  | inr (p, u) ↦ elim (spot j hj) [
    | inl (q, v) ↦ absurd (other i p (sym u ∙ e ∙ v))
    | inr (q, v) ↦ distinct i j p q (sym u ∙ e ∙ v)
  ]
]
  where
    after : List ℕ
    after = set pids n pid

    spot :
        (k : ℕ)
        → k < n + 1
        → ((k ≡ n) × (get_or (set pids n pid) k 0 ≡ pid))
          ⊎ ((k < n) × (get_or (set pids n pid) k 0 ≡ get_or pids k 0))
    spot k h = elim (Bool-cases (k == n)) [
      | inl b ↦
          let same : k ≡ n = (==_iff k n).0 b in
          inl (same, rw same (get_or-set_self pids n pid 0 room))
      | inr b ↦
          let ne : n ≢ k = λ q. ground (arith, ==_iff k n) in
          inr (ground (arith, ==_iff k n), get_or-set_ne pids n k pid 0 ne)
    ]

-- A job that is sound stays so when a new process is put at its end.
extend-IsSound :
    (job : Job) (group pid : ℕ)
    → IsSound job
    → group ≢ 0
    → pid ≢ 0
    → job.proc_count < max_process_per_job
    → ((i : ℕ) → i < job.proc_count → get_or job.pids i 0 ≢ pid)
    → IsSound (record job {
      pgid = group;
      pids = set job.pids job.proc_count pid;
      proc_count = job.proc_count + 1;
    })
extend-IsSound job group pid sound g p room other = record {
  pids_size = length-set pids proc_count pid ∙ sound.pids_size;
  codes_size = sound.codes_size;
  fits = omega arith;
  used = λ i h. elim (Bool-cases (proc_count == i)) [
    | inl b ↦
        let same : proc_count ≡ i = (==_iff proc_count i).0 b in
        rw (← same, get_or-set_self pids proc_count pid 0 inside) p
    | inr b ↦
        let ne : proc_count ≢ i = λ q. ground (arith, ==_iff proc_count i) in
        rw (get_or-set_ne pids proc_count i pid 0 ne) (sound.used i (omega (arith, ne)))
  ];
  unused = λ i h.
      get_or-set_ne pids proc_count i pid 0 (λ q. omega arith) ∙ sound.unused i (omega arith);
  distinct = append-IsDistinct proc_count pid pids inside sound.distinct other;
  grouped = λ q. absurd (g q);
}
  where
    open job use {pids, proc_count}

    inside : proc_count < length pids
    inside = omega (arith, sound.pids_size)

-- the first free spot is the one behind the last process
abbrev FreeSlot : Job → Option ℕ → Type 0
FreeSlot job o =
    ((job.proc_count < max_process_per_job) × (o ≡ some job.proc_count))
    ⊎ ((job.proc_count ≡ max_process_per_job) × (o ≡ none))

free_slot :
    (job : Job) (o : Option ℕ)
    → IsSound job
    → Found max_process_per_job job.pids 0 o
    → FreeSlot job o
free_slot job none sound h = inr (ground (arith, sound.fits, full), refl)
  where
    full : ¬ (job.proc_count < max_process_per_job)
    full lt =
        h job.proc_count lt (omega (arith, sound.pids_size))
          (sound.unused job.proc_count (omega arith))
free_slot job (some i) sound h =
    inl (omega (arith, past, here), ap some (omega (arith, past, here)))
  where
    past : ¬ (i < job.proc_count)
    past lt = sound.used i lt h.2

    here : ¬ (job.proc_count < i)
    here lt = h.3 job.proc_count lt (sound.unused job.proc_count (omega arith))

add_another-IsSound :
    (job : Job) (pid : ℕ) (o : Option ℕ)
    → IsSound job
    → pid ≢ 0
    → job.pgid ≢ 0
    → Found job.proc_count job.pids pid o
    → IsSound (add_another job pid o)
unfolding add_another fill_slot
add_another-IsSound job pid (some i) sound p g found = sound
add_another-IsSound job pid none sound p g found =
    elim (free_slot job (find_pid max_process_per_job job.pids 0) sound
      (find_pid-Found max_process_per_job job.pids 0)) [
        | inl (room, e) ↦ rw e (
            extend-IsSound job job.pgid pid sound g p room
              (λ i h. found i h (omega (arith, sound.pids_size))))
        | inr (full, e) ↦ rw e sound
      ]

-- The list of processes of a job that is sound stays sound when a process is added.
pub add_pid_to_job-IsSound :
    (job : Job) (pid : ℕ) → IsSound job → pid ≢ 0 → IsSound (add_pid_to_job job pid)
unfolding add_pid_to_job
add_pid_to_job-IsSound job pid sound p = elim (Bool-cases (is_null job.pids)) [
  | inl e ↦ rw e sound
  | inr e ↦ rw e elim (Bool-cases (job.pgid == 0)) [
    | inl z ↦
        let none_yet : job.proc_count ≡ 0 = sound.grouped ((==_iff job.pgid 0).0 z) in
        let first =
          extend-IsSound job pid pid sound p p (omega arith) (λ i h. absurd (omega arith)) in
        rw z (
          subst
            (λ c.
              IsSound (record job { pgid = pid; pids = set job.pids c pid; proc_count = c + 1 }))
            none_yet first)
    | inr z ↦ rw z (
        add_another-IsSound job pid (find_pid job.proc_count job.pids pid) sound p
          (λ q. ground (arith, ==_iff job.pgid 0)) (find_pid-Found job.proc_count job.pids pid))
  ]
]
