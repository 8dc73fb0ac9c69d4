-- ===== src/Jobs/Dead.antt =====
-- The list of dead processes of src/jobs.c: the first `listindex` entries of `deadlist`.
use layla_shell.Prelude.{
  ℕ, Bool, Option, none, some, List, [], ◌∷◌, ◌==◌, ltb, if◌then◌else◌, length,
}

pub record Dead : Type 0 where
  pub pid : ℕ
  pub status : ℕ

-- DEADLIST_MAX
abbrev pub deadlist_max : ℕ
deadlist_max = 32

-- the loop that looks for the process; `room` says that a place is left for a new entry
unfoldable pub add_dead_loop : Bool → List Dead → ℕ → ℕ → List Dead
add_dead_loop room [] pid status = if room then record { pid = pid; status = status } ∷ [] else []
add_dead_loop room (d ∷ deadlist) pid status =
    if d.pid == pid
    then record d { status = status } ∷ deadlist
    else d ∷ add_dead_loop room deadlist pid status

-- the part of notice_termination() under `if(add_to_deadlist)`
unfoldable pub add_to_deadlist : List Dead → ℕ → ℕ → List Dead
unfolding add_dead_loop
add_to_deadlist deadlist pid status =
    add_dead_loop (ltb (length deadlist) deadlist_max) deadlist pid status

-- the entry is taken out and the ones behind it move down; `none` is -1
unfoldable pub rip_loop : List Dead → ℕ → Option ℕ × List Dead
rip_loop [] pid = (none, [])
rip_loop (d ∷ deadlist) pid =
    let rest = rip_loop deadlist pid in
    if d.pid == pid then (some d.status, deadlist) else (rest.0, d ∷ rest.1)

-- A move reads the place behind the last entry, and the last write clears it. Of a full list, that place
-- is outside of the array, and there is no result.
unfoldable pub rip_in : Bool → Option ℕ × List Dead → Option (Option ℕ × List Dead)
rip_in room (none, rest) = some (none, rest)
rip_in room (some status, rest) = if room then some (some status, rest) else none

unfoldable pub rip_dead : List Dead → ℕ → Option (Option ℕ × List Dead)
unfolding rip_loop rip_in
rip_dead deadlist pid = rip_in (ltb (length deadlist) deadlist_max) (rip_loop deadlist pid)

unfoldable pub clear_deadlist : List Dead → List Dead
clear_deadlist deadlist = []
