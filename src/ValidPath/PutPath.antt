-- ===== src/ValidPath/PutPath.antt =====
-- `mog_valid_put_path` against the grammar of valid_put_path.rl, "/dev"digit+ ('/'+) [^/] any+.
use cmogstored.Prelude.{
  ℕ, Bytes, [], ◌∷◌, ◌++◌, Bool, true, false, not, ◌≡◌, ◌≢◌, ◌↔◌, inl, inr, refl, ap, ◌∙◌, arith,
  ◌==◌, ==_iff, Bool-cases, if◌then◌else◌, codes,
}
use cmogstored.ValidPath.{
  PutState, error, st1, st2, st3, st4, st5, st6, st7, st8, st9, is_digit, put_step, put_run,
  is_error, ends_in_slash, valid_put_path,
}

-- what may follow "/dev", a digit, more digits and a slash: more slashes, and a name of two bytes
-- or more whose first is no slash
pub data Name : Bytes → Type 0 where
  more : {q : Bytes} → Name q → Name (b'/' ∷ q)
  name : {c d : ℕ} {q : Bytes} → (c == b'/') ≡ false → Name (c ∷ d ∷ q)

-- what may follow "/dev" and a digit
pub data Digits : Bytes → Type 0 where
  digit : {c : ℕ} {q : Bytes} → is_digit c ≡ true → Digits q → Digits (c ∷ q)
  slash : {q : Bytes} → Name q → Digits (b'/' ∷ q)

abbrev pub IsDevPath : Bytes → Type 0
IsDevPath p = (c : ℕ) × (q : Bytes) × (p ≡ codes "/dev" ++ c ∷ q) × (is_digit c ≡ true) × Digits q

-- what each state still expects
abbrev Expects : PutState → Bytes → Type 0
Expects error p = ⊥
Expects st1 p = IsDevPath p
Expects st2 p = IsDevPath (b'/' ∷ p)
Expects st3 p = IsDevPath (codes "/d" ++ p)
Expects st4 p = IsDevPath (codes "/de" ++ p)
Expects st5 p = IsDevPath (codes "/dev" ++ p)
Expects st6 p = Digits p
Expects st7 p = Name p
Expects st8 p = p ≢ []
Expects st9 p = Unit

-- a word that each state accepts
abbrev completion : PutState → Bytes
completion error = []
completion st1 = codes "/dev1/ab"
completion st2 = codes "dev1/ab"
completion st3 = codes "ev1/ab"
completion st4 = codes "v1/ab"
completion st5 = codes "1/ab"
completion st6 = codes "/ab"
completion st7 = codes "ab"
completion st8 = codes "b"
completion st9 = []

completion-Expects : (s : PutState) → s ≢ error → Expects s (completion s)
completion-Expects error h = h refl
completion-Expects st6 h = slash (name refl)
completion-Expects st7 h = name refl
completion-Expects st8 h = λ e. cc
completion-Expects st9 h = tt
completion-Expects _ h = (b'1', codes "/ab", refl, refl, slash (name refl))

only :
    (k c : ℕ) (s : PutState) (q : Bytes)
    → Expects (if c == k then s else error) q
    → (c ≡ k) × Expects s q
only k c s q h = elim (Bool-cases (c == k)) [
  | inl same ↦ ((==_iff c k).0 same, rw same at h)
  | inr other ↦ absurd (rw other at h)
]

put_step-Expects : (s : PutState) (c : ℕ) (q : Bytes) → Expects (put_step s c) q → Expects s (c ∷ q)
unfolding put_step
put_step-Expects error c q h = h
put_step-Expects st1 c q h = let (e, r) = only 47 c st2 q h in rw e r
put_step-Expects st2 c q h = let (e, r) = only 100 c st3 q h in rw e r
put_step-Expects st3 c q h = let (e, r) = only 101 c st4 q h in rw e r
put_step-Expects st4 c q h = let (e, r) = only 118 c st5 q h in rw e r
put_step-Expects st5 c q h = elim (Bool-cases (is_digit c)) [
  | inl d ↦ (c, q, refl, d, rw d at h)
  | inr o ↦ absurd (rw o at h)
]
put_step-Expects st6 c q h = elim (Bool-cases (c == 47)) [
  | inl s ↦ let e : c ≡ 47 = (==_iff c 47).0 s in rw e (slash (rw s at h))
  | inr n ↦ elim (Bool-cases (is_digit c)) [
    | inl d ↦ digit d (rw (n, d) at h)
    | inr o ↦ absurd (rw (n, o) at h)
  ]
]
put_step-Expects st7 c q h = elim (Bool-cases (c == 47)) [
  | inl s ↦ let e : c ≡ 47 = (==_iff c 47).0 s in rw e (more (rw s at h))
  | inr n ↦ name_of c q n (rw n at h)
]
  where
    name_of : (c : ℕ) (q : Bytes) → (c == 47) ≡ false → q ≢ [] → Name (c ∷ q)
    name_of c [] n h = absurd (h refl)
    name_of c (d ∷ q) n h = name n
put_step-Expects st8 c q h = λ e. cc
put_step-Expects st9 c q h = tt

Expects-put_step : (s : PutState) (c : ℕ) (q : Bytes) → Expects s (c ∷ q) → Expects (put_step s c) q
unfolding put_step
Expects-put_step error c q h = h
Expects-put_step st1 c q (d, r, e, x, y) =
    let ec : c ≡ 47 = cc in
    let eq : q ≡ 100 ∷ 101 ∷ 118 ∷ d ∷ r = cc in rw ec (d, r, ap (λ t. 47 ∷ t) eq, x, y)
Expects-put_step st2 c q (d, r, e, x, y) =
    let ec : c ≡ 100 = cc in
    let eq : q ≡ 101 ∷ 118 ∷ d ∷ r = cc in rw ec (d, r, ap (λ t. 47 ∷ 100 ∷ t) eq, x, y)
Expects-put_step st3 c q (d, r, e, x, y) =
    let ec : c ≡ 101 = cc in
    let eq : q ≡ 118 ∷ d ∷ r = cc in rw ec (d, r, ap (λ t. 47 ∷ 100 ∷ 101 ∷ t) eq, x, y)
Expects-put_step st4 c q (d, r, e, x, y) =
    let ec : c ≡ 118 = cc in
    let eq : q ≡ d ∷ r = cc in rw ec (d, r, ap (λ t. 47 ∷ 100 ∷ 101 ∷ 118 ∷ t) eq, x, y)
Expects-put_step st5 c q (d, r, e, x, y) =
    let ec : c ≡ d = cc in let eq : q ≡ r = cc in rw (ec, x, eq) y
Expects-put_step st6 c q (digit x y) = let n : (c == 47) ≡ false = ground arith in rw (n, x) y
Expects-put_step st6 c q (slash y) = y
Expects-put_step st7 c q (more y) = y
Expects-put_step st7 c q (name n) = rw n (λ e. cc)
Expects-put_step st8 c q h = tt
Expects-put_step st9 c q h = tt

-- a state with a word to come is no error
Expects-alive : (s : PutState) (q : Bytes) → Expects s q → is_error s ≡ false
Expects-alive error q h = absurd h
Expects-alive _ q h = refl

put_run-alive :
    (s : PutState) (p rest : Bytes) → Expects s (p ++ rest) → is_error (put_run s p) ≡ false
unfolding put_run
put_run-alive s [] rest h = Expects-alive s rest h
put_run-alive s (c ∷ cs) rest h = put_run-alive (put_step s c) cs rest (Expects-put_step s c _ h)

put_run-Expects :
    (s : PutState) (p : Bytes)
    → is_error (put_run s p) ≡ false
    → Expects s (p ++ completion (put_run s p))
unfolding put_run
put_run-Expects s [] h = completion-Expects s (λ e. cc)
put_run-Expects s (c ∷ cs) h = put_step-Expects s c _ (put_run-Expects (put_step s c) cs h)

-- A PUT path is accepted exactly when it is not empty, does not end in a slash, and can be
-- completed to a word of the grammar: the scanner does not ask for a final state, so it accepts
-- every beginning of a device path.
pub valid_put_path_iff :
    (p : Bytes)
    → (valid_put_path p ≡ true)
      ↔ ((p ≢ []) × (ends_in_slash p ≡ false) × ((rest : Bytes) × IsDevPath (p ++ rest)))
unfolding valid_put_path
valid_put_path_iff [] = ((λ e. cc), λ h. absurd (h.0 refl))
valid_put_path_iff (c ∷ cs) = elim (Bool-cases (ends_in_slash (c ∷ cs))) [
  | inl ends ↦ rw ends ((λ e. cc), λ h. cc (h.1))
  | inr open_end ↦ rw open_end (accepts, refuses)
]
  where
    accepts :
        not (is_error (put_run st1 (c ∷ cs))) ≡ true
        → (c ∷ cs ≢ [])
          × (◌≡◌ {A = Bool} false false)
          × ((rest : Bytes) × IsDevPath (c ∷ cs ++ rest))
    accepts e = (
      (λ z. cc),
      refl,
      (completion (put_run st1 (c ∷ cs)), put_run-Expects st1 (c ∷ cs) (ground arith)),
    )

    refuses :
        (c ∷ cs ≢ []) × (◌≡◌ {A = Bool} false false) × ((rest : Bytes) × IsDevPath (c ∷ cs ++ rest))
        → not (is_error (put_run st1 (c ∷ cs))) ≡ true
    refuses (_, _, (rest, w)) = rw (put_run-alive st1 (c ∷ cs) rest w) refl

abbrev pub AllDigits : Bytes → Type 0
AllDigits [] = Unit
AllDigits (c ∷ cs) = (is_digit c ≡ true) × AllDigits cs

AllDigits-not-Digits : (q : Bytes) → AllDigits q → Digits q → ⊥
AllDigits-not-Digits (c ∷ q) (h, t) (digit x y) = AllDigits-not-Digits q t y
AllDigits-not-Digits (c ∷ q) (h, t) (slash y) = cc
AllDigits-not-Digits [] h d = elim d [ ]

Digits-append : (q : Bytes) → AllDigits q → Digits (q ++ codes "/ab")
Digits-append [] h = slash (name refl)
Digits-append (c ∷ q) (h, t) = digit h (Digits-append q t)

ends_in_slash-digits : (c : ℕ) (cs : Bytes) → AllDigits (c ∷ cs) → ends_in_slash (c ∷ cs) ≡ false
unfolding ends_in_slash
ends_in_slash-digits c [] h = ground arith
ends_in_slash-digits c (d ∷ cs) (h, t) = ends_in_slash-digits d cs t

ends_in_slash-dev :
    (c : ℕ) (cs : Bytes) → ends_in_slash (codes "/dev" ++ c ∷ cs) ≡ ends_in_slash (c ∷ cs)
unfolding ends_in_slash
ends_in_slash-dev c cs = refl

-- A bare device name, "/dev" and digits with no file below it, is accepted by the check although
-- it is not in the grammar, whatever the digits.
valid_put_path-bare_device :
    (c : ℕ) (cs : Bytes)
    → AllDigits (c ∷ cs)
    → (valid_put_path (codes "/dev" ++ c ∷ cs) ≡ true) × ¬ IsDevPath (codes "/dev" ++ c ∷ cs)
valid_put_path-bare_device c cs (h, t) =
    let path : Bytes = codes "/dev" ++ c ∷ cs in
    let whole : IsDevPath (path ++ codes "/ab") =
      (c, cs ++ codes "/ab", refl, h, Digits-append cs t) in
    (
      (valid_put_path_iff path).1 (
        (λ e. cc),
        ends_in_slash-dev c cs ∙ ends_in_slash-digits c cs (h, t),
        (codes "/ab", whole),
      ),
      λ (d, r, e, x, y). AllDigits-not-Digits r (let p : cs ≡ r = cc in rw p at t) y,
    )
