-- ===== src/Jobs/Reap.antt =====
-- What rip_dead() of src/jobs.c takes off the list of dead processes, against the latest report of each.
use layla_shell.Jobs.Dead.{
  Dead, deadlist_max, add_dead_loop, add_to_deadlist, rip_loop, rip_in, rip_dead,
}
use mathlib.Core.Option.{some-injective}
use layla_shell.Prelude.{
  ℕ, ◌<◌, ◌≤◌, ◌+◌, ◌≡◌, refl, ◌∙◌, inl, inr, ◌⊎◌, Bool, true, false, ◌≢◌, Option, none, some, List,
  [], ◌∷◌, ◌==◌, ==_iff, ==_refl, arith, if◌then◌else◌, ltb, Bool-cases, length, subst, ap,
}

-- the status that the list has for a process
unfoldable pub status_of : List Dead → ℕ → Option ℕ
status_of [] pid = none
status_of (d ∷ deadlist) pid = if d.pid == pid then some d.status else status_of deadlist pid

status_of_empty : (pid : ℕ) → status_of [] pid ≡ none
unfolding status_of
status_of_empty pid = refl

-- no process stands twice on the list
abbrev pub IsUnique : List Dead → Type 0
IsUnique [] = Unit
IsUnique (d ∷ deadlist) = (status_of deadlist d.pid ≡ none) × IsUnique deadlist

add_dead_loop-status_of :
    (room : Bool) (deadlist : List Dead) (pid status q : ℕ)
    → (room ≡ true) ⊎ (status_of deadlist pid ≢ none)
    → status_of (add_dead_loop room deadlist pid status) q
      ≡ (if pid == q then some status else status_of deadlist q)
unfolding add_dead_loop status_of
add_dead_loop-status_of room [] pid status q (inl e) = rw e refl
add_dead_loop-status_of room [] pid status q (inr h) = absurd (h refl)
add_dead_loop-status_of room (d ∷ deadlist) pid status q h = elim (Bool-cases (d.pid == pid)) [
  | inl e ↦ ground (arith, ==_iff d.pid pid)
  | inr e ↦
      let present : (room ≡ true) ⊎ (status_of deadlist pid ≢ none) =
        subst (λ (o : Option ℕ). (room ≡ true) ⊎ (o ≢ none)) (rw e refl) h in
      let rest = add_dead_loop-status_of room deadlist pid status q present in
      ground (arith, rest, ==_iff d.pid pid)
]

-- a list without room for a new process
add_dead_loop_full :
    (deadlist : List Dead) (pid status : ℕ)
    → status_of deadlist pid ≡ none
    → add_dead_loop false deadlist pid status ≡ deadlist
unfolding add_dead_loop status_of
add_dead_loop_full [] pid status h = refl
add_dead_loop_full (d ∷ deadlist) pid status h =
    ground (arith, add_dead_loop_full deadlist pid status)

rip_loop-status_of :
    (deadlist : List Dead) (pid : ℕ) → (rip_loop deadlist pid).0 ≡ status_of deadlist pid
unfolding rip_loop status_of
rip_loop-status_of [] pid = refl
rip_loop-status_of (d ∷ deadlist) pid = ground (arith, rip_loop-status_of deadlist pid)

rip_loop-rest :
    (deadlist : List Dead) (pid q : ℕ)
    → IsUnique deadlist
    → status_of (rip_loop deadlist pid).1 q ≡ (if pid == q then none else status_of deadlist q)
unfolding rip_loop status_of
rip_loop-rest [] pid q h = ground arith
rip_loop-rest (d ∷ deadlist) pid q h = elim (Bool-cases (d.pid == pid)) [
  | inl e ↦
      let same : d.pid ≡ pid = (==_iff d.pid pid).0 e in
      let gone : status_of deadlist pid ≡ none = rw (← same) h.0 in
      elim (Bool-cases (pid == q)) [
        | inl f ↦ let also : pid ≡ q = (==_iff pid q).0 f in rw (e, f) (rw (← also) gone)
        | inr f ↦ let g : (d.pid == q) ≡ false = rw same f in rw (e, f, g) refl
      ]
  | inr e ↦
      let rest = rip_loop-rest deadlist pid q h.1 in rw e (ground (arith, rest, ==_iff d.pid pid))
]

add_dead_loop_other :
    (room : Bool) (deadlist : List Dead) (pid status q : ℕ)
    → (pid == q) ≡ false
    → status_of (add_dead_loop room deadlist pid status) q ≡ status_of deadlist q
unfolding add_dead_loop status_of
add_dead_loop_other true [] pid status q h = rw h refl
add_dead_loop_other false [] pid status q h = refl
add_dead_loop_other room (d ∷ deadlist) pid status q h =
    ground (arith, add_dead_loop_other room deadlist pid status q, ==_iff d.pid pid)

add_dead_loop-IsUnique :
    (room : Bool) (deadlist : List Dead) (pid status : ℕ)
    → IsUnique deadlist
    → IsUnique (add_dead_loop room deadlist pid status)
unfolding add_dead_loop
add_dead_loop-IsUnique true [] pid status h = (status_of_empty pid, tt)
add_dead_loop-IsUnique false [] pid status h = tt
add_dead_loop-IsUnique room (d ∷ deadlist) pid status h = elim (Bool-cases (d.pid == pid)) [
  | inl e ↦ rw e h
  | inr e ↦
      let apart : (pid == d.pid) ≡ false = ground (arith, ==_iff d.pid pid) in
      rw e (
        add_dead_loop_other room deadlist pid status d.pid apart ∙ h.0,
        add_dead_loop-IsUnique room deadlist pid status h.1,
      )
]

length-add_dead_loop :
    (room : Bool) (deadlist : List Dead) (pid status : ℕ)
    → length (add_dead_loop room deadlist pid status) ≤ length deadlist + (if room then 1 else 0)
unfolding add_dead_loop
length-add_dead_loop true [] pid status = omega arith
length-add_dead_loop false [] pid status = omega arith
length-add_dead_loop room (d ∷ deadlist) pid status =
    ground (arith, length-add_dead_loop room deadlist pid status)

-- The list never holds a process twice nor more than 32 processes: add_to_deadlist keeps it so.
pub add_to_deadlist-IsUnique :
    (deadlist : List Dead) (pid status : ℕ)
    → IsUnique deadlist
    → length deadlist ≤ deadlist_max
    → IsUnique (add_to_deadlist deadlist pid status)
      × (length (add_to_deadlist deadlist pid status) ≤ deadlist_max)
unfolding add_to_deadlist
add_to_deadlist-IsUnique deadlist pid status h fits = (
  add_dead_loop-IsUnique (ltb (length deadlist) deadlist_max) deadlist pid status h,
  ground (arith, length-add_dead_loop (ltb (length deadlist) deadlist_max) deadlist pid status),
)

length-add_dead_loop-ge :
    (room : Bool) (deadlist : List Dead) (pid status : ℕ)
    → length deadlist ≤ length (add_dead_loop room deadlist pid status)
unfolding add_dead_loop
length-add_dead_loop-ge room [] pid status = omega arith
length-add_dead_loop-ge room (d ∷ deadlist) pid status =
    ground (arith, length-add_dead_loop-ge room deadlist pid status)

rip_in-some :
    (r : Option ℕ × List Dead) (status : ℕ)
    → r.0 ≡ some status
    → rip_in true r ≡ some (some status, r.1)
unfolding rip_in
rip_in-some (none, rest) status h = absurd (ground arith)
rip_in-some (some found, rest) status h = ap (λ o. some (o, rest)) h

-- what rip_dead() gives for a process on a list that is not full
rip_dead-some :
    (deadlist : List Dead) (pid status : ℕ)
    → length deadlist < deadlist_max
    → (rip_loop deadlist pid).0 ≡ some status
    → rip_dead deadlist pid ≡ some (some status, (rip_loop deadlist pid).1)
unfolding rip_dead
rip_dead-some deadlist pid status room found =
    let fits : ltb (length deadlist) deadlist_max ≡ true = ground arith in
    rw fits (rip_in-some (rip_loop deadlist pid) status found)

rip_in-same :
    (room : Bool) (r after : Option ℕ × List Dead) → rip_in room r ≡ some after → r ≡ after
unfolding rip_in
rip_in-same room (none, rest) after h = some-injective _ _ h
rip_in-same true (some status, rest) after h = some-injective _ _ h
rip_in-same false (some status, rest) after h = absurd (no_result h)
  where
    no_result : none ≢ some after
    no_result e = cc

-- If the list is not full after notice_termination() has filed a status, rip_dead() stays within the array
-- and gives that status for the process. The entry is gone from the list afterwards, and every other
-- process has the status it had.
pub rip_dead-add_to_deadlist :
    (deadlist : List Dead) (pid status : ℕ)
    → IsUnique deadlist
    → length (add_to_deadlist deadlist pid status) < deadlist_max
    → (rest : List Dead) × (rip_dead (add_to_deadlist deadlist pid status) pid
        ≡ some (some status, rest))
      × ((q : ℕ) → status_of rest q ≡ (if pid == q then none else status_of deadlist q))
unfolding add_to_deadlist
rip_dead-add_to_deadlist deadlist pid status h fits =
    let room = ltb (length deadlist) deadlist_max in
    let l = add_dead_loop room deadlist pid status in
    let roomy : room ≡ true = ground (arith, length-add_dead_loop-ge room deadlist pid status) in
    let views = λ (q : ℕ). add_dead_loop-status_of room deadlist pid status q (inl roomy) in
    (
      (rip_loop l pid).1,
      rip_dead-some l pid status fits
          (rip_loop-status_of l pid ∙ views pid ∙ rw (==_refl pid) refl),
      λ q.
          rip_loop-rest l pid q (add_dead_loop-IsUnique room deadlist pid status h)
          ∙ elim (Bool-cases (pid == q)) [
            | inl f ↦ rw f refl
            | inr f ↦ rw f (add_dead_loop_other room deadlist pid status q f)
          ],
    )

-- A list of 32 other processes loses the report: the search does not find it.
pub add_to_deadlist_full :
    (deadlist : List Dead) (pid status : ℕ)
    → length deadlist ≡ deadlist_max
    → status_of deadlist pid ≡ none
    → (add_to_deadlist deadlist pid status ≡ deadlist)
      × ((rip_loop (add_to_deadlist deadlist pid status) pid).0 ≡ none)
unfolding add_to_deadlist
add_to_deadlist_full deadlist pid status full h =
    let stays : add_dead_loop (ltb (length deadlist) deadlist_max) deadlist pid status ≡ deadlist =
      rw full (add_dead_loop_full deadlist pid status h) in
    (stays, rw stays (rip_loop-status_of deadlist pid ∙ h))

-- taking a process off the list keeps it without repetition, and makes it no longer
rip_loop-none :
    (deadlist : List Dead) (pid q : ℕ)
    → status_of deadlist q ≡ none
    → status_of (rip_loop deadlist pid).1 q ≡ none
unfolding rip_loop status_of
rip_loop-none [] pid q h = refl
rip_loop-none (d ∷ deadlist) pid q h = ground (arith, rip_loop-none deadlist pid q)

rip_loop-IsUnique :
    (deadlist : List Dead) (pid : ℕ)
    → IsUnique deadlist
    → IsUnique (rip_loop deadlist pid).1 × (length (rip_loop deadlist pid).1 ≤ length deadlist)
unfolding rip_loop
rip_loop-IsUnique [] pid h = (tt, omega arith)
rip_loop-IsUnique (d ∷ deadlist) pid h =
    let (unique, shorter) = rip_loop-IsUnique deadlist pid h.1 in
    elim (Bool-cases (d.pid == pid)) [
      | inl e ↦ rw e (h.1, omega arith)
      | inr e ↦ rw e ((rip_loop-none deadlist pid d.pid h.0, unique), omega arith)
    ]

pub rip_dead-IsUnique :
    (deadlist : List Dead) (pid : ℕ) (after : Option ℕ × List Dead)
    → IsUnique deadlist
    → rip_dead deadlist pid ≡ some after
    → IsUnique after.1 × (length after.1 ≤ length deadlist)
unfolding rip_dead
rip_dead-IsUnique deadlist pid after h e =
    subst (λ (r : Option ℕ × List Dead). IsUnique r.1 × (length r.1 ≤ length deadlist))
      (rip_in-same (ltb (length deadlist) deadlist_max) (rip_loop deadlist pid) after e)
      (rip_loop-IsUnique deadlist pid h)
