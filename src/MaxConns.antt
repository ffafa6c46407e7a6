-- ===== src/MaxConns.antt =====
-- maxconns.c: raising the limit on open files.
pub mod Limits
use cmogstored.Prelude.{
  ℕ, zero, suc, ◌+◌, ◌-◌, ◌%◌, ◌^◌, Bool, true, false, not, ◌||◌, Option, none, some, ltb, leb,
  ◌==◌, if◌then◌else◌,
}

-- struct rlimit; an rlim_t has 64 bits, and RLIM_INFINITY is the largest
pub record Rlimit : Type 0 where
  pub rlim_cur : ℕ
  pub rlim_max : ℕ

abbrev pub infinity : ℕ
infinity = 2 ^ 64 - 1

-- INT_MAX-1
abbrev pub fd_max : ℕ
fd_max = 2147483646

abbrev pub default_maxconns : ℕ
default_maxconns = 10000

abbrev pub both : ℕ → Rlimit
both n = record { rlim_cur = n; rlim_max = n }

-- "(int)want < 0 || want > MOG_FD_MAX"
unfoldable pub wanted : ℕ → ℕ
wanted maxconns =
    let want = if maxconns == 0 then default_maxconns else maxconns in
    if leb (2 ^ 31) (want % 2 ^ 32) || ltb fd_max want then fd_max else want

-- the limits of the first setrlimit(2)
unfoldable pub first_try : ℕ → Rlimit → Rlimit
first_try want r =
    if r.rlim_max == infinity || r.rlim_cur == infinity
    then both want
    else if r.rlim_max == 0
    then both want
    else if ltb r.rlim_max want
    then record { rlim_cur = r.rlim_max; rlim_max = r.rlim_max }
    else both want

-- The loop over smaller limits, for at most so many turns: the limits that setrlimit(2) took, or
-- none where the limit is stuck; `none` outside is a run that is not over.
unfoldable pub retry : ℕ → ℕ → ℕ → (Rlimit → Bool) → Option (Option Rlimit)
retry zero maxconns want setrlimit = none
retry (suc turns) maxconns want setrlimit =
    let next = (want + (2 ^ 64 - 64)) % 2 ^ 64 in
    let rest = retry turns maxconns next setrlimit in
    if ltb next maxconns
    then some none
    else if setrlimit (both next)
    then some (some (both next))
    else rest

-- `mog_set_maxconns` for the limits in force and the answers of setrlimit(2): the limits after it
unfoldable pub set_maxconns : ℕ → ℕ → Rlimit → (Rlimit → Bool) → Option Rlimit
unfolding wanted first_try retry
set_maxconns turns maxconns r setrlimit =
    let want = wanted maxconns in
    let asked = if maxconns == 0 then default_maxconns else maxconns in
    if leb want r.rlim_cur
    then some r
    else if setrlimit (first_try want r)
    then some (first_try want r)
    else elim (retry turns asked want setrlimit) [
      | none ↦ none
      | some none ↦ some r
      | some (some r') ↦ some r'
    ]
