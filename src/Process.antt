-- ===== src/Process.antt =====
-- process.c: the processes that the master has started, by pid. The table belongs to one thread.
pub mod Registry
use cmogstored.Prelude.{
  ℕ, ◌+◌, ◌-◌, ◌^◌, List, [], ◌∷◌, Bool, true, false, not, ◌||◌, ◌==◌, if◌then◌else◌,
}

-- the ids of the processes that are not workers: UINT_MAX and the two before it
abbrev pub proc_unknown : ℕ
proc_unknown = 2 ^ 32 - 1

abbrev pub proc_iostat : ℕ
proc_iostat = 2 ^ 32 - 2

abbrev pub proc_upgrade : ℕ
proc_upgrade = 2 ^ 32 - 3

-- struct mog_process
pub record Process : Type 0 where
  pub pid : ℕ
  pub id : ℕ

unfoldable pub process_is_worker : ℕ → Bool
process_is_worker id = not (id == proc_unknown || (id == proc_iostat || id == proc_upgrade))

unfoldable pub process_reset : List Process → List Process
process_reset processes = []

unfoldable pub is_registered : ℕ → List Process → Bool
is_registered pid [] = false
is_registered pid (p ∷ ps) = p.pid == pid || is_registered pid ps

-- hash_insert keeps the entry that is there already
unfoldable pub process_register : ℕ → ℕ → List Process → List Process
unfolding is_registered
process_register pid id ps = if is_registered pid ps then ps else record { pid = pid; id = id } ∷ ps

-- `mog_process_reaped`: the id, and the table without the entry
unfoldable pub process_reaped : ℕ → List Process → ℕ × List Process
process_reaped pid [] = (proc_unknown, [])
process_reaped pid (p ∷ ps) =
    let rest = process_reaped pid ps in if p.pid == pid then (p.id, ps) else (rest.0, p ∷ rest.1)

-- `mog_kill_each_worker`: the count, and the pids that are signalled
unfoldable pub kill_each_worker : List Process → ℕ × List ℕ
unfolding process_is_worker
kill_each_worker [] = (0, [])
kill_each_worker (p ∷ ps) =
    let rest = kill_each_worker ps in
    if process_is_worker p.id then (rest.0 + 1, p.pid ∷ rest.1) else rest
