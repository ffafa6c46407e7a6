-- ===== src/ValidPath/Traversal.antt =====
-- `mog_valid_path` against an independent description of directory traversal.
use cmogstored.Prelude.{
  ℕ, ◌+◌, ◌-◌, ◌<◌, ◌≤◌, Bytes, List, [], ◌∷◌, ◌++◌, Bool, true, false, ◌&&◌, ◌≡◌, ◌↔◌, inl, inr,
  refl, ap, arith, leb, ◌==◌, ==_iff, Bool-cases, if◌then◌else◌, length,
}
use cmogstored.ValidPath.{
  TraversalState, plain, dot, traversal_from, path_traversal_found, path_limit, valid_path,
}

-- somewhere in the text stand two dots
abbrev pub HasDotDot : Bytes → Type 0
HasDotDot p = (before after : Bytes) × (p ≡ before ++ b'.' ∷ b'.' ∷ after)

HasDotDot-cons : (c : ℕ) {p : Bytes} → HasDotDot p → HasDotDot (c ∷ p)
HasDotDot-cons c (b, a, e) = (c ∷ b, a, ap (◌∷◌ c) e)

abbrev Seen : TraversalState → Bytes → Bytes
Seen plain p = p
Seen dot p = b'.' ∷ p

traversal_from_sound :
    (s : TraversalState) (p : Bytes) → traversal_from s p ≡ true → HasDotDot (Seen s p)
unfolding traversal_from
traversal_from_sound plain [] h = cc
traversal_from_sound dot [] h = cc
traversal_from_sound plain (c ∷ cs) h = elim (Bool-cases (c == 46)) [
  | inl is_dot ↦
      let e : c ≡ 46 = (==_iff c 46).0 is_dot in rw e (traversal_from_sound dot cs (rw is_dot at h))
  | inr other ↦ HasDotDot-cons c (traversal_from_sound plain cs (rw other at h))
]
traversal_from_sound dot (c ∷ cs) h = elim (Bool-cases (c == 46)) [
  | inl is_dot ↦ let e : c ≡ 46 = (==_iff c 46).0 is_dot in ([], cs, rw e)
  | inr other ↦
      HasDotDot-cons b'.' (HasDotDot-cons c (traversal_from_sound plain cs (rw other at h)))
]

-- a scan that has just seen a dot misses nothing that a fresh scan finds
dot-of-plain : (p : Bytes) → traversal_from plain p ≡ true → traversal_from dot p ≡ true
unfolding traversal_from
dot-of-plain [] h = cc
dot-of-plain (c ∷ cs) h = ground arith

traversal_from_complete :
    (before after : Bytes) → traversal_from plain (before ++ b'.' ∷ b'.' ∷ after) ≡ true
unfolding traversal_from
traversal_from_complete [] after = refl
traversal_from_complete (c ∷ before) after =
    ground
      (arith, traversal_from_complete before after, dot-of-plain (before ++ b'.' ∷ b'.' ∷ after))

found_iff : (p : Bytes) → (path_traversal_found p ≡ true) ↔ HasDotDot p
unfolding path_traversal_found
found_iff p = (traversal_from_sound plain p, λ (b, a, e). rw e (traversal_from_complete b a))

-- A path is accepted exactly when it is shorter than the longest MogileFS path with its NUL, 38
-- bytes, and has no two dots in a row anywhere.
pub valid_path_iff : (p : Bytes) → (valid_path p ≡ true) ↔ ((length p < 38) × ¬ HasDotDot p)
unfolding valid_path
valid_path_iff p = elim (Bool-cases (leb path_limit (length p))) [
  | inl long ↦ rw long ((λ e. cc), λ h. absurd (omega (arith, h.0, long_le long)))
  | inr short ↦ elim (Bool-cases (path_traversal_found p)) [
    | inl found ↦ rw (short, found) ((λ e. cc), λ h. absurd (h.1 ((found_iff p).0 found)))
    | inr clean ↦
        rw (short, clean) ((λ _. (ground arith, λ d. cc (clean, (found_iff p).1 d))), λ _. refl)
  ]
]
  where
    long_le : leb path_limit (length p) ≡ true → 38 ≤ length p
    long_le e = ground arith

-- the names between the slashes of a path
abbrev push : ℕ → List Bytes → List Bytes
push c [] = (c ∷ []) ∷ []
push c (x ∷ xs) = (c ∷ x) ∷ xs

pub components : Bytes → List Bytes
components [] = [] ∷ []
components (c ∷ cs) = let rest = components cs in if c == b'/' then [] ∷ rest else push c rest

abbrev is_dotdot : Bytes → Bool
is_dotdot (a ∷ b ∷ []) = a == b'.' && b == b'.'
is_dotdot _ = false

abbrev is_here : Bytes → Bool
is_here [] = true
is_here (a ∷ []) = a == b'.'
is_here _ = false

-- The walk from `depth` directories below the root never asks for the root's parent.
pub stays_inside : ℕ → List Bytes → Bool
stays_inside depth [] = true
stays_inside depth (x ∷ xs) =
    let next = if is_dotdot x then depth - 1 else if is_here x then depth else depth + 1 in
    let rest = stays_inside next xs in if is_dotdot x && depth == 0 then false else rest

abbrev IsInfix : Bytes → Bytes → Type 0
IsInfix x p = (before after : Bytes) × (p ≡ before ++ (x ++ after))

abbrev AllInfix : List Bytes → Bytes → Type 0
AllInfix [] p = Unit
AllInfix (x ∷ xs) p = IsInfix x p × AllInfix xs p

AllInfix-cons : (c : ℕ) (p : Bytes) (xs : List Bytes) → AllInfix xs p → AllInfix xs (c ∷ p)
AllInfix-cons c p [] h = tt
AllInfix-cons c p (x ∷ xs) ((b, a, e), h) = ((c ∷ b, a, ap (◌∷◌ c) e), AllInfix-cons c p xs h)

components-infix :
    (p : Bytes)
    → (x : Bytes) × (xs : List Bytes) × (components p ≡ x ∷ xs)
      × ((after : Bytes) × (p ≡ x ++ after))
      × AllInfix xs p
unfolding components
components-infix [] = ([], [], refl, ([], refl), tt)
components-infix (c ∷ cs) =
    let (x, xs, e, (a, starts), inside) = components-infix cs in
    elim (Bool-cases (c == b'/')) [
      | inl slash ↦
          rw (slash, e)
            (
              [],
              x ∷ xs,
              refl,
              (c ∷ cs, refl),
              ((c ∷ [], a, ap (◌∷◌ c) starts), AllInfix-cons c cs xs inside),
            )
      | inr name ↦
          rw (name, e) (c ∷ x, xs, refl, (a, ap (◌∷◌ c) starts), AllInfix-cons c cs xs inside)
    ]

is_dotdot-HasDotDot : (x p : Bytes) → IsInfix x p → is_dotdot x ≡ true → HasDotDot p
is_dotdot-HasDotDot (a ∷ b ∷ []) p (before, after, e) d =
    let ea : a ≡ 46 = ground arith in
    let eb : b ≡ 46 = ground arith in (before, after, rw (← ea, e, ea, eb))
is_dotdot-HasDotDot _ p i d = cc

stays_inside-clean :
    (xs : List Bytes) (p : Bytes) (depth : ℕ)
    → AllInfix xs p
    → ¬ HasDotDot p
    → stays_inside depth xs ≡ true
unfolding stays_inside
stays_inside-clean [] p depth h n = refl
stays_inside-clean (x ∷ xs) p depth (i, h) n = elim (Bool-cases (is_dotdot x)) [
  | inl up ↦ absurd (n (is_dotdot-HasDotDot x p i up))
  | inr on ↦ rw on (stays_inside-clean xs p _ h n)
]

-- An accepted path cannot climb out of the document root: walking its components from the root,
-- with empty ones and "." staying and ".." going up, never asks for the root's parent.
pub valid_path-stays_inside :
    (p : Bytes) → valid_path p ≡ true → stays_inside 0 (components p) ≡ true
valid_path-stays_inside p v =
    let (x, xs, e, (a, starts), inside) = components-infix p in
    rw e (stays_inside-clean (x ∷ xs) p 0 (([], a, starts), inside) ((valid_path_iff p).0 v).1)
