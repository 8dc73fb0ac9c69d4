-- ===== src/Jobs/Find.antt =====
-- The search for a process in a job's list, find_pid of Jobs/Job.antt, against the places of the list.
use layla_shell.Jobs.Job.{find_pid}
use layla_shell.Prelude.{
  ℕ, zero, suc, ◌<◌, ◌≤◌, ◌≡◌, refl, ap, ◌≢◌, inl, inr, Option, none, some, List, [], ◌∷◌, ◌==◌,
  ==_iff, ne→==, arith, if◌then◌else◌, length, get_or, Bool-cases, Option-cases, subst, true, false,
  ◌∙◌, sym,
}
use mathlib.Core.Option

-- no process stands twice among the first `n` places
abbrev pub IsDistinct : ℕ → List ℕ → Type 0
IsDistinct n pids = (i j : ℕ) → i < n → j < n → get_or pids i 0 ≡ get_or pids j 0 → i ≡ j

-- what find_pid answers: the first place that holds the process, or that no place does
abbrev pub Found : ℕ → List ℕ → ℕ → Option ℕ → Type 0
Found n pids pid (some i) =
    (i < n)
    × (i < length pids)
    × (get_or pids i 0 ≡ pid)
    × ((j : ℕ) → j < i → get_or pids j 0 ≢ pid)
Found n pids pid none = (i : ℕ) → i < n → i < length pids → get_or pids i 0 ≢ pid

search_later :
    (n p pid : ℕ) (pids : List ℕ) (o : Option ℕ)
    → p ≢ pid
    → Found n pids pid o
    → Found (suc n) (p ∷ pids) pid (Option.map suc o)
search_later n p pid pids (some i) ne h = (omega arith, omega arith, h.2, earlier)
  where
    earlier : (j : ℕ) → j < suc i → get_or (p ∷ pids) j 0 ≢ pid
    earlier zero lt = ne
    earlier (suc j) lt = h.3 j (omega arith)
search_later n p pid pids none ne h = λ i lt inside. later i lt inside
  where
    later : (i : ℕ) → i < suc n → i < suc (length pids) → get_or (p ∷ pids) i 0 ≢ pid
    later zero lt inside = ne
    later (suc i) lt inside = h i (omega arith) (omega arith)

pub find_pid-Found : (n : ℕ) (pids : List ℕ) (pid : ℕ) → Found n pids pid (find_pid n pids pid)
unfolding find_pid
find_pid-Found zero pids pid = λ i h. absurd (omega arith)
find_pid-Found (suc n) [] pid = λ i h inside. absurd (omega arith)
find_pid-Found (suc n) (p ∷ pids) pid = elim (Bool-cases (p == pid)) [
  | inl e ↦ rw e (omega arith, omega arith, (==_iff p pid).0 e, λ j h. absurd (omega arith))
  | inr e ↦ rw e (
      search_later n p pid pids (find_pid n pids pid) (λ q. ground (arith, ==_iff p pid))
        (find_pid-Found n pids pid))
]

-- if no process stands twice, the search finds the place of each
pub find_pid_at :
    (n : ℕ) (pids : List ℕ) (i : ℕ)
    → IsDistinct n pids
    → i < n
    → n ≤ length pids
    → find_pid n pids (get_or pids i 0) ≡ some i
find_pid_at n pids i distinct h fits = elim (Option-cases (find_pid n pids (get_or pids i 0))) [
  | inl e ↦ absurd (
      subst (Found n pids (get_or pids i 0)) e (find_pid-Found n pids (get_or pids i 0)) i h
        (omega arith) refl)
  | inr (j, e) ↦
      let (lt, inside, same, _) =
        subst (Found n pids (get_or pids i 0)) e (find_pid-Found n pids (get_or pids i 0)) in
      e ∙ ap some (distinct j i lt h same)
]

-- what a place holds after a write of `new` where the search ended
abbrev pub hit {ℓ} : {A : Type ℓ} → Option ℕ → ℕ → A → A → A
hit none i new old = old
hit (some k) i new old = if k == i then new else old

pub Found-hit {ℓ} :
    {A : Type ℓ} (n : ℕ) (pids : List ℕ) (pid i : ℕ) (o : Option ℕ) (new old : A)
    → IsDistinct n pids
    → n ≤ length pids
    → i < n
    → Found n pids pid o
    → hit o i new old ≡ (if pid == get_or pids i 0 then new else old)
Found-hit n pids pid i none new old distinct fits lt found =
    let miss : (pid == get_or pids i 0) ≡ false =
      ne→== pid (get_or pids i 0) (λ q. found i lt (omega arith) (sym q)) in
    rw miss refl
Found-hit n pids pid i (some k) new old distinct fits lt found = elim (Bool-cases (k == i)) [
  | inl e ↦
      let same : k ≡ i = (==_iff k i).0 e in
      let hits : (pid == get_or pids i 0) ≡ true =
        (==_iff pid (get_or pids i 0)).1 (sym (subst (λ x. get_or pids x 0 ≡ pid) same found.2)) in
      rw (e, hits) refl
  | inr e ↦
      let miss : (pid == get_or pids i 0) ≡ false =
        ne→== pid (get_or pids i 0)
          (λ q. absurd (ground (arith, ==_iff k i, distinct k i found.0 lt (found.2 ∙ q)))) in
      rw (e, miss) refl
]
