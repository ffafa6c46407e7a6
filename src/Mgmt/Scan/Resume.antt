-- ===== src/Mgmt/Scan/Resume.antt =====
-- mgmt_parser.c: the scanner does not depend on how the bytes are split over its calls.
use mathlib.Core.Path.{subst}
use cmogstored.Prelude.{
  ℕ, ◌+◌, Bytes, [], ◌∷◌, ◌++◌, Bool, true, false, ◌≡◌, refl, sym, ap, ◌∙◌, arith, if◌then◌else◌,
  drop, length, ◌||◌, ◌==◌, ◌≤◌, length-drop, drop-append_le, drop-append_ge, ◌-◌,
}
use cmogstored.Mgmt.State.{Mgmt, MgmtCs, st71, st72, st73}
use cmogstored.Mgmt.Scan.Table.{
  mark_0, mark_1, Move, go, finish, invalid, refuse, transition, unknown,
}
use cmogstored.Mgmt.Scan.{
  acts, Scanned, more, finished, refused, restart, move_to, scan, scan_again, scan_buffer,
}

-- the scan of what comes behind
abbrev pub follow : Bytes → Scanned → Scanned
follow b (more cs pos m) = scan cs pos b m
follow b (finished r pos m) = finished r pos m
follow b (refused pos m) = refused pos m
follow b (restart m) = restart m

move_to-follow :
    (pos : ℕ) (m : Mgmt) (mv : Move) (b : Bytes) (k k' : MgmtCs → Mgmt → Scanned)
    → ((cs : MgmtCs) (m' : Mgmt) → k' cs m' ≡ follow b (k cs m'))
    → move_to pos m mv k' ≡ follow b (move_to pos m mv k)
unfolding move_to
move_to-follow pos m (go todo cs) b k k' ih = ih cs (acts pos todo m)
move_to-follow pos m (finish todo r) b k k' ih = refl
move_to-follow pos m invalid b k k' ih = refl
move_to-follow pos m refuse b k k' ih = refl

scan-append :
    (a b : Bytes) (cs : MgmtCs) (pos : ℕ) (m : Mgmt)
    → scan cs pos (a ++ b) m ≡ follow b (scan cs pos a m)
unfolding scan
scan-append [] b cs pos m = refl
scan-append (c ∷ a) b cs pos m =
    move_to-follow pos m (transition cs c) b _ _ (λ cs' m'. scan-append a b cs' (pos + 1) m')

-- where a scan that has reached the end stands
abbrev pub EndsAt : ℕ → Scanned → Type 0
EndsAt n (more cs pos m) = pos ≡ n
EndsAt n (finished r pos m) = Unit
EndsAt n (refused pos m) = Unit
EndsAt n (restart m) = Unit

move_to-EndsAt :
    (pos n : ℕ) (m : Mgmt) (mv : Move) (k : MgmtCs → Mgmt → Scanned)
    → ((cs : MgmtCs) (m' : Mgmt) → EndsAt n (k cs m'))
    → EndsAt n (move_to pos m mv k)
unfolding move_to
move_to-EndsAt pos n m (go todo cs) k ih = ih cs (acts pos todo m)
move_to-EndsAt pos n m (finish todo r) k ih = tt
move_to-EndsAt pos n m invalid k ih = tt
move_to-EndsAt pos n m refuse k ih = tt

scan-EndsAt :
    (a : Bytes) (cs : MgmtCs) (pos n : ℕ) (m : Mgmt)
    → pos + length a ≡ n
    → EndsAt n (scan cs pos a m)
unfolding scan
scan-EndsAt [] cs pos n m e = omega arith
scan-EndsAt (c ∷ a) cs pos n m e =
    move_to-EndsAt pos n m (transition cs c) _
      (λ cs' m'. scan-EndsAt a cs' (pos + 1) n m' (omega arith))

-- the states of a line that is no request
abbrev pub InLine : MgmtCs → Type 0
InLine st71 = Unit
InLine st72 = Unit
InLine st73 = Unit
InLine _ = ⊥

abbrev LineMove : Move → Type 0
LineMove (go todo cs) = InLine cs
LineMove (finish todo r) = r ≡ unknown
LineMove invalid = ⊥
LineMove refuse = Unit

LineMove-if : (b : Bool) (x y : Move) → LineMove x → LineMove y → LineMove (if b then x else y)
LineMove-if true x y h k = h
LineMove-if false x y h k = k

transition-LineMove : (cs : MgmtCs) (c : ℕ) → InLine cs → LineMove (transition cs c)
unfolding transition
transition-LineMove st71 c h =
    LineMove-if (c == 9 || c == 32) (go [] st71) (if c == 13 then refuse else go (mark_0 ∷ []) st72)
      tt (LineMove-if (c == 13) refuse (go (mark_0 ∷ []) st72) tt tt)
transition-LineMove st72 c h =
    let word : Bool = c == 9 || (c == 13 || c == 32) in
    LineMove-if (c == 10) (finish (mark_1 ∷ []) unknown)
      (if word then go (mark_1 ∷ []) st73 else go (mark_1 ∷ []) st72) refl
      (LineMove-if word (go (mark_1 ∷ []) st73) (go (mark_1 ∷ []) st72) tt tt)
transition-LineMove st73 c h = LineMove-if (c == 10) (finish [] unknown) (go [] st73) refl tt
transition-LineMove _ c h = elim h [ ]

-- A scan of such a line never goes back to its start.
abbrev pub InLineAfter : Scanned → Type 0
InLineAfter (more cs pos m) = InLine cs
InLineAfter (finished r pos m) = r ≡ unknown
InLineAfter (refused pos m) = Unit
InLineAfter (restart m) = ⊥

move_to-InLineAfter :
    (pos : ℕ) (m : Mgmt) (mv : Move) (k : MgmtCs → Mgmt → Scanned)
    → LineMove mv
    → ((cs : MgmtCs) (m' : Mgmt) → InLine cs → InLineAfter (k cs m'))
    → InLineAfter (move_to pos m mv k)
unfolding move_to
move_to-InLineAfter pos m (go todo cs) k h ih = ih cs (acts pos todo m) h
move_to-InLineAfter pos m (finish todo r) k h ih = h
move_to-InLineAfter pos m invalid k h ih = h
move_to-InLineAfter pos m refuse k h ih = tt

scan-InLineAfter :
    (a : Bytes) (cs : MgmtCs) (pos : ℕ) (m : Mgmt) → InLine cs → InLineAfter (scan cs pos a m)
unfolding scan
scan-InLineAfter [] cs pos m h = h
scan-InLineAfter (c ∷ a) cs pos m h =
    move_to-InLineAfter pos m (transition cs c) _ (transition-LineMove cs c h)
      (λ cs' m' h'. scan-InLineAfter a cs' (pos + 1) m' h')

scan_again-InLineAfter : (buf : Bytes) (s : Scanned) → InLineAfter s → scan_again buf s ≡ s
unfolding scan_again
scan_again-InLineAfter buf (more cs pos m) h = refl
scan_again-InLineAfter buf (finished r pos m) h = refl
scan_again-InLineAfter buf (refused pos m) h = refl
scan_again-InLineAfter buf (restart m) h = elim h [ ]

-- the second round ends the first
again-follow :
    (a b : Bytes) (s : Scanned) (cs : MgmtCs) (pos : ℕ) (m : Mgmt)
    → scan_again a s ≡ more cs pos m
    → scan_again (a ++ b) (follow b s) ≡ scan_again (a ++ b) (scan cs pos b m)
unfolding scan_again
again-follow a b (more cs' pos' m') cs pos m e = ap (λ s. scan_again (a ++ b) (follow b s)) e
again-follow a b (finished r pos' m') cs pos m e = cc
again-follow a b (refused pos' m') cs pos m e = cc
again-follow a b (restart m') cs pos m e =
    let line : InLine cs = subst InLineAfter e (scan-InLineAfter a st71 0 m' tt) in
    scan-append a b st71 0 m'
    ∙ ap (follow b) e
    ∙ sym (scan_again-InLineAfter (a ++ b) (scan cs pos b m) (scan-InLineAfter b cs pos m line))

-- Where the scanner has come to the end of a buffer, it goes on from there as if the bytes that
-- follow had been there at once.
pub scan_buffer-append :
    (a b : Bytes) (cs cs' : MgmtCs) (off pos : ℕ) (m m' : Mgmt)
    → off ≤ length a
    → scan_buffer cs off a m ≡ more cs' pos m'
    → (pos ≡ length a) × (scan_buffer cs off (a ++ b) m ≡ scan_buffer cs' pos (a ++ b) m')
unfolding scan_buffer scan_again
scan_buffer-append a b cs cs' off pos m m' h e =
    let there : pos ≡ length a =
      ends (scan cs off (drop off a) m)
        (scan-EndsAt (drop off a) cs off (length a) m (omega (arith, length-drop off a))) e in
    let behind : drop pos (a ++ b) ≡ b =
      let z : length a - length a ≡ 0 = omega arith in
      rw there (drop-append_ge (length a) a b (omega arith) ∙ rw z) in
    (
      there,
      rw (behind, drop-append_le off a b h, scan-append (drop off a) b cs off m)
          (again-follow a b (scan cs off (drop off a) m) cs' pos m' e),
    )
  where
    ends : (s : Scanned) → EndsAt (length a) s → scan_again a s ≡ more cs' pos m' → pos ≡ length a
    ends (more cs2 pos2 m2) at eq = subst (EndsAt (length a)) eq at
    ends (finished r pos2 m2) at eq = cc
    ends (refused pos2 m2) at eq = cc
    ends (restart m2) at eq =
        subst (EndsAt (length a)) eq (scan-EndsAt a st71 0 (length a) m2 (omega arith))
