-- ===== src/MaxConns/Limits.antt =====
-- maxconns.c: the limit that the program ends with.
use cmogstored.Prelude.{
  ℕ, suc, ◌+◌, ◌-◌, ◌%◌, ◌^◌, ◌≤◌, ◌<◌, Bool, true, false, ◌||◌, some, ltb, leb, ◌==◌, ◌≡◌, refl,
  inl, inr, Bool-cases, arith, min,
}
use cmogstored.MaxConns.{Rlimit, infinity, fd_max, wanted, first_try, retry, set_maxconns}

wanted_small : (n : ℕ) → 0 < n → n ≤ fd_max → wanted n ≡ n
unfolding wanted
wanted_small n p l = ground arith

first_try-raises :
    (want : ℕ) (r : Rlimit)
    → r.rlim_cur ≤ r.rlim_max
    → r.rlim_max < infinity
    → 0 < r.rlim_max
    → r.rlim_cur < want
    → (r.rlim_cur ≤ (first_try want r).rlim_cur)
      × (min want r.rlim_max ≤ (first_try want r).rlim_cur)
unfolding first_try
first_try-raises want r c i z s =
    let finite : (r.rlim_max == infinity || r.rlim_cur == infinity) ≡ false = ground arith in
    let some_max : (r.rlim_max == 0) ≡ false = ground arith in
    elim (Bool-cases (ltb r.rlim_max want)) [
      | inl less ↦ rw (finite, some_max, less) (ground arith)
      | inr more ↦ rw (finite, some_max, more) (ground arith)
    ]

-- When the system takes the first limit that is asked for, the soft limit is what the user wants,
-- or the finite hard limit where that is smaller, and is never lowered.
set_maxconns-raises :
    (turns maxconns : ℕ) (r : Rlimit) (setrlimit : Rlimit → Bool)
    → 0 < maxconns
    → maxconns ≤ fd_max
    → r.rlim_cur ≤ r.rlim_max
    → r.rlim_max < infinity
    → 0 < r.rlim_max
    → setrlimit (first_try maxconns r) ≡ true
    → (r' : Rlimit) × (set_maxconns turns maxconns r setrlimit ≡ some r')
      × (r.rlim_cur ≤ r'.rlim_cur)
      × (min maxconns r.rlim_max ≤ r'.rlim_cur)
unfolding set_maxconns
set_maxconns-raises turns maxconns r setrlimit p l c i z e =
    elim (Bool-cases (leb maxconns r.rlim_cur)) [
      | inl enough ↦ (r, rw (wanted_small maxconns p l, enough) refl, ground arith, ground arith)
      | inr short ↦
          let raised = first_try-raises maxconns r c i z (ground arith) in
          (first_try maxconns r, rw (wanted_small maxconns p l, short, e) refl, raised.0, raised.1)
    ]

-- The loop that is to try smaller limits never tries one: for 64 connections or more, when the
-- first setrlimit(2) fails, the limit stays what it was, whatever the system would have taken.
pub set_maxconns-stuck :
    (turns maxconns : ℕ) (r : Rlimit) (setrlimit : Rlimit → Bool)
    → 64 ≤ maxconns
    → maxconns ≤ fd_max
    → r.rlim_cur < maxconns
    → setrlimit (first_try maxconns r) ≡ false
    → set_maxconns (suc turns) maxconns r setrlimit ≡ some r
unfolding set_maxconns retry
set_maxconns-stuck turns maxconns r setrlimit p l c e =
    let short : leb maxconns r.rlim_cur ≡ false = ground arith in
    let given : (maxconns == 0) ≡ false = ground arith in
    let down : ltb ((maxconns + (2 ^ 64 - 64)) % 2 ^ 64) maxconns ≡ true = ground arith in
    rw (wanted_small maxconns (omega arith) l, short, e, given, down) refl
