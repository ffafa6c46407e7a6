-- ===== src/Process/Registry.antt =====
-- process.c: registering, reaping and signalling.
use cmogstored.Prelude.{
  ℕ, ◌+◌, List, [], ◌∷◌, true, false, ◌≡◌, refl, inl, inr, Bool-cases, arith, ◌==◌, if◌then◌else◌,
}
use cmogstored.Process.{
  Process, process_is_worker, is_registered, process_register, process_reaped, kill_each_worker,
  proc_unknown,
}

-- A process that is registered under a new pid is found when it is reaped, by its own id, and its
-- entry is gone: the table is what it was before.
process_reaped-register :
    (pid id : ℕ) (ps : List Process)
    → is_registered pid ps ≡ false
    → process_reaped pid (process_register pid id ps) ≡ (id, ps)
unfolding process_register process_reaped
process_reaped-register pid id ps new =
    let same : (pid == pid) ≡ true = ground arith in rw (new, same) refl

-- Reaping a pid that was never registered gives MOG_PROC_UNKNOWN and changes nothing.
process_reaped-unknown :
    (pid : ℕ) (ps : List Process)
    → is_registered pid ps ≡ false
    → process_reaped pid ps ≡ (proc_unknown, ps)
unfolding process_reaped is_registered
process_reaped-unknown pid [] e = refl
process_reaped-unknown pid (p ∷ ps) e = elim (Bool-cases (p.pid == pid)) [
  | inl same ↦ cc (rw same at e)
  | inr other ↦ let ih = process_reaped-unknown pid ps (rw other at e) in rw (other, ih) refl
]

-- The count of workers falls by one for each worker that is reaped, and for no other process; so
-- the master, which waits for the count to reach 0, waits for exactly the workers.
kill_each_worker-reaped :
    (pid : ℕ) (ps : List Process)
    → is_registered pid ps ≡ true
    → (kill_each_worker ps).0
      ≡ (kill_each_worker (process_reaped pid ps).1).0
        + (if process_is_worker (process_reaped pid ps).0 then 1 else 0)
unfolding process_reaped is_registered kill_each_worker
kill_each_worker-reaped pid [] e = cc
kill_each_worker-reaped pid (p ∷ ps) e = elim (Bool-cases (p.pid == pid)) [
  | inl same ↦ elim (Bool-cases (process_is_worker p.id)) [
    | inl w ↦ rw (same, w) refl
    | inr o ↦ rw (same, o) (omega arith)
  ]
  | inr other ↦
      let ih = kill_each_worker-reaped pid ps (rw other at e) in
      elim (Bool-cases (process_is_worker p.id)) [
        | inl w ↦ rw (other, w) (omega (arith, ih))
        | inr o ↦ rw (other, o) ih
      ]
]
