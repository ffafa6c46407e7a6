-- ===== src/IoUtil/Sweep.antt =====
-- ioutil.c: what one clean-up keeps.
use cmogstored.Prelude.{
  ℕ, Bytes, List, [], ◌∷◌, Bool, true, false, Option, none, some, ◌==◌, ◌↔◌, ◌||◌, if◌then◌else◌,
  codes, ◌≡◌, refl, Bool-cases, inl, inr, ==_iff, ap, sym, ◌∙◌, arith,
}
use cmogstored.IoUtil.{
  IoUtil, hash_lookup, cleanup_begin, cleanup_finish, iou_vivify, iou_write, iou_active, iou_read,
}

-- a call of one of the three functions between the two clean-up calls
pub data Call : Type 0 where
  read active : ℕ → Call
  write : ℕ → Bytes → Call

abbrev pub run_call : Call → List IoUtil → List IoUtil
run_call (read dev) t = (iou_read dev t).1
run_call (active dev) t = iou_active dev t
run_call (write dev buf) t = iou_write dev buf t

abbrev pub run_calls : List Call → List IoUtil → List IoUtil
run_calls [] t = t
run_calls (c ∷ cs) t = run_calls cs (run_call c t)

-- The abstract table: what is known of one device, its use and its text.
abbrev pub Known : Type 0
Known = Option (Bool × Bytes)

abbrev pub known : Option IoUtil → Known
known none = none
known (some iou) = some (iou.in_use, iou.util)

abbrev pub text_of : Option Bytes → Known → Bytes
text_of (some u) k = u
text_of none none = codes "-"
text_of none (some (b, u)) = u

abbrev pub touch : Option Bytes → Known → Known
touch text k = some (true, text_of text k)

abbrev pub know_call : ℕ → Call → Known → Known
know_call d (read dev) k = if dev == d then touch none k else k
know_call d (active dev) k = if dev == d then touch none k else k
know_call d (write dev buf) k = if dev == d then touch (some buf) k else k

abbrev pub know_calls : ℕ → List Call → Known → Known
know_calls d [] k = k
know_calls d (c ∷ cs) k = know_calls d cs (know_call d c k)

abbrev pub unused : Known → Known
unused none = none
unused (some (b, u)) = some (false, u)

abbrev pub kept : Known → Known
kept (some (true, u)) = some (true, u)
kept _ = none

-- one entry to a device, as in a hash table
abbrev pub Distinct : List IoUtil → Type 0
Distinct [] = Bool
Distinct (iou ∷ t) = (hash_lookup iou.st_dev t ≡ none) × Distinct t

begin-known :
    (d : ℕ) (t : List IoUtil)
    → known (hash_lookup d (cleanup_begin t)) ≡ unused (known (hash_lookup d t))
unfolding hash_lookup cleanup_begin
begin-known d [] = refl
begin-known d (iou ∷ t) = elim (Bool-cases (iou.st_dev == d)) [
  | inl same ↦ rw same refl
  | inr other ↦ rw other (begin-known d t)
]

vivify-known :
    (d dev : ℕ) (text : Option Bytes) (t : List IoUtil)
    → known (hash_lookup d (iou_vivify dev text t))
      ≡ (if dev == d then touch text (known (hash_lookup d t)) else known (hash_lookup d t))
unfolding hash_lookup iou_vivify
vivify-known d dev text [] = elim (Bool-cases (dev == d)) [
  | inl same ↦ rw same (text_none text)
  | inr other ↦ rw other refl
]
  where
    text_none :
        (o : Option Bytes)
        → some (true, elim o as (λ _. Bytes) [ none ↦ codes "-" | some u ↦ u ]) ≡ touch o none
    text_none none = refl
    text_none (some u) = refl
vivify-known d dev text (iou ∷ t) = elim (Bool-cases (iou.st_dev == dev)) [
  | inl mine ↦
      let s : iou.st_dev ≡ dev = (==_iff _ _).0 mine in
      elim (Bool-cases (dev == d)) [
        | inl same ↦ rw (mine, s, same) (text_some text)
        | inr other ↦ rw (mine, s, other) refl
      ]
  | inr its ↦ elim (Bool-cases (iou.st_dev == d)) [
    | inl same ↦ let n : (dev == d) ≡ false = ground arith in rw (its, same, n) refl
    | inr other ↦ rw (its, other) (vivify-known d dev text t)
  ]
]
  where
    text_some :
        (o : Option Bytes)
        → some (true, elim o as (λ _. Bytes) [ none ↦ iou.util | some u ↦ u ])
          ≡ touch o (some (iou.in_use, iou.util))
    text_some none = refl
    text_some (some u) = refl

finish-absent :
    (d : ℕ) (t : List IoUtil) → hash_lookup d t ≡ none → hash_lookup d (cleanup_finish t) ≡ none
unfolding hash_lookup cleanup_finish
finish-absent d [] e = refl
finish-absent d (iou ∷ t) e = elim (Bool-cases (iou.st_dev == d)) [
  | inl same ↦ cc (rw same at e)
  | inr other ↦
      let ih = finish-absent d t (rw other at e) in
      elim (Bool-cases iou.in_use) [ inl used ↦ rw (used, other) ih | inr idle ↦ rw idle ih ]
]

finish-known :
    (d : ℕ) (t : List IoUtil)
    → Distinct t
    → known (hash_lookup d (cleanup_finish t)) ≡ kept (known (hash_lookup d t))
unfolding hash_lookup cleanup_finish
finish-known d [] u = refl
finish-known d (iou ∷ t) u = elim (Bool-cases (iou.st_dev == d)) [
  | inl same ↦
      let gone : hash_lookup d t ≡ none = rw ((==_iff _ _).0 same) at u.0 in
      elim (Bool-cases iou.in_use) [
        | inl used ↦ rw (used, same) refl
        | inr idle ↦ rw (idle, same, finish-absent d t gone) refl
      ]
  | inr other ↦
      let ih = finish-known d t u.1 in
      elim (Bool-cases iou.in_use) [
        | inl used ↦ rw (used, other) ih
        | inr idle ↦ rw (idle, other) ih
      ]
]

absent-begin :
    (d : ℕ) (t : List IoUtil) → hash_lookup d t ≡ none → hash_lookup d (cleanup_begin t) ≡ none
unfolding hash_lookup cleanup_begin
absent-begin d [] e = refl
absent-begin d (iou ∷ t) e = elim (Bool-cases (iou.st_dev == d)) [
  | inl same ↦ cc (rw same at e)
  | inr other ↦ rw other (absent-begin d t (rw other at e))
]

Distinct-begin : (t : List IoUtil) → Distinct t → Distinct (cleanup_begin t)
unfolding cleanup_begin
Distinct-begin [] u = u
Distinct-begin (iou ∷ t) u = (absent-begin iou.st_dev t u.0, Distinct-begin t u.1)

absent-vivify :
    (d dev : ℕ) (text : Option Bytes) (t : List IoUtil)
    → (dev == d) ≡ false
    → hash_lookup d t ≡ none
    → hash_lookup d (iou_vivify dev text t) ≡ none
unfolding hash_lookup iou_vivify
absent-vivify d dev text [] n e = rw n refl
absent-vivify d dev text (iou ∷ t) n e = elim (Bool-cases (iou.st_dev == d)) [
  | inl same ↦ cc (rw same at e)
  | inr other ↦ elim (Bool-cases (iou.st_dev == dev)) [
    | inl mine ↦ rw (mine, other) (rw other at e)
    | inr its ↦ rw (its, other) (absent-vivify d dev text t n (rw other at e))
  ]
]

absent_nil : (d : ℕ) → hash_lookup d [] ≡ none
unfolding hash_lookup
absent_nil d = refl

Distinct-vivify :
    (dev : ℕ) (text : Option Bytes) (t : List IoUtil)
    → Distinct t
    → Distinct (iou_vivify dev text t)
unfolding iou_vivify
Distinct-vivify dev text [] u = (absent_nil dev, true)
Distinct-vivify dev text (iou ∷ t) u = elim (Bool-cases (iou.st_dev == dev)) [
  | inl mine ↦ rw mine u
  | inr its ↦
      let n : (dev == iou.st_dev) ≡ false = ground arith in
      rw its (absent-vivify iou.st_dev dev text t n u.0, Distinct-vivify dev text t u.1)
]

Distinct-finish : (t : List IoUtil) → Distinct t → Distinct (cleanup_finish t)
unfolding cleanup_finish
Distinct-finish [] u = u
Distinct-finish (iou ∷ t) u = elim (Bool-cases iou.in_use) [
  | inl used ↦ rw used (finish-absent iou.st_dev t u.0, Distinct-finish t u.1)
  | inr idle ↦ rw idle (Distinct-finish t u.1)
]

call-known :
    (d : ℕ) (c : Call) (t : List IoUtil)
    → known (hash_lookup d (run_call c t)) ≡ know_call d c (known (hash_lookup d t))
unfolding iou_read iou_write iou_active
call-known d (read dev) t = vivify-known d dev none t
call-known d (active dev) t = vivify-known d dev none t
call-known d (write dev buf) t = vivify-known d dev (some buf) t

Distinct-call : (c : Call) (t : List IoUtil) → Distinct t → Distinct (run_call c t)
unfolding iou_read iou_write iou_active
Distinct-call (read dev) t u = Distinct-vivify dev none t u
Distinct-call (active dev) t u = Distinct-vivify dev none t u
Distinct-call (write dev buf) t u = Distinct-vivify dev (some buf) t u

calls-known :
    (d : ℕ) (cs : List Call) (t : List IoUtil)
    → Distinct t
    → (known (hash_lookup d (run_calls cs t)) ≡ know_calls d cs (known (hash_lookup d t)))
      × Distinct (run_calls cs t)
calls-known d [] t u = (refl, u)
calls-known d (c ∷ cs) t u =
    let (e, u') = calls-known d cs (run_call c t) (Distinct-call c t u) in
    (e ∙ ap (know_calls d cs) (call-known d c t), u')

-- From the start of a clean-up to its end, with any calls between, the hash table does for every
-- device what the abstract table does: it marks the device unused, applies the calls that name
-- it, and keeps it only if one did. If the table has one entry to a device before, it has so after.
pub cleanup-known :
    (d : ℕ) (cs : List Call) (t : List IoUtil)
    → Distinct t
    → (known (hash_lookup d (cleanup_finish (run_calls cs (cleanup_begin t))))
        ≡ kept (know_calls d cs (unused (known (hash_lookup d t)))))
      × Distinct (cleanup_finish (run_calls cs (cleanup_begin t)))
cleanup-known d cs t u =
    let (e, u') = calls-known d cs (cleanup_begin t) (Distinct-begin t u) in
    (
      finish-known d (run_calls cs (cleanup_begin t)) u'
          ∙ ap kept (e ∙ ap (know_calls d cs) (begin-known d t)),
      Distinct-finish (run_calls cs (cleanup_begin t)) u',
    )

abbrev pub names : ℕ → Call → Bool
names d (read dev) = dev == d
names d (active dev) = dev == d
names d (write dev buf) = dev == d

abbrev pub touched : ℕ → List Call → Bool
touched d [] = false
touched d (c ∷ cs) = names d c || touched d cs

abbrev marked : Known → Bool
marked (some (true, u)) = true
marked _ = false

call-marked : (d : ℕ) (c : Call) (k : Known) → marked (know_call d c k) ≡ names d c || marked k
call-marked d (read dev) k = elim (Bool-cases (dev == d)) [ inl e ↦ rw e refl | inr e ↦ rw e refl ]
call-marked d (active dev) k = elim (Bool-cases (dev == d)) [
  | inl e ↦ rw e refl
  | inr e ↦ rw e refl
]
call-marked d (write dev buf) k = elim (Bool-cases (dev == d)) [
  | inl e ↦ rw e refl
  | inr e ↦ rw e refl
]

or_swap : (a b c : Bool) → b || (a || c) ≡ (a || b) || c
or_swap true true c = refl
or_swap true false c = refl
or_swap false b c = refl

calls-marked :
    (d : ℕ) (cs : List Call) (k : Known) → marked (know_calls d cs k) ≡ touched d cs || marked k
calls-marked d [] k = refl
calls-marked d (c ∷ cs) k =
    calls-marked d cs (know_call d c k)
    ∙ ap (◌||◌ (touched d cs)) (call-marked d c k)
    ∙ or_swap (names d c) (touched d cs) (marked k)

kept-none : (k : Known) → (kept k ≡ none) ↔ (marked k ≡ false)
kept-none none = ((λ _. refl), λ _. refl)
kept-none (some (true, u)) = ((λ e. cc), λ e. cc)
kept-none (some (false, u)) = ((λ _. refl), λ _. refl)

unmarked : (k : Known) → marked (unused k) ≡ false
unmarked none = refl
unmarked (some (b, u)) = refl

-- A clean-up drops exactly the devices that no call named since it began.
cleanup-touched :
    (d : ℕ) (cs : List Call) (t : List IoUtil)
    → Distinct t
    → (known (hash_lookup d (cleanup_finish (run_calls cs (cleanup_begin t)))) ≡ none)
      ↔ (touched d cs ≡ false)
cleanup-touched d cs t u =
    let k = unused (known (hash_lookup d t)) in
    let m : marked (know_calls d cs k) ≡ touched d cs =
      calls-marked d cs k
      ∙ ap (◌||◌ (touched d cs)) (unmarked (known (hash_lookup d t)))
      ∙ or_false (touched d cs) in
    rw ((cleanup-known d cs t u).0, sym m) (kept-none (know_calls d cs k))
  where
    or_false : (b : Bool) → b || false ≡ b
    or_false true = refl
    or_false false = refl
