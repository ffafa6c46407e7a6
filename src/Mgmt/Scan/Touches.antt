-- ===== src/Mgmt/Scan/Touches.antt =====
-- mgmt_parser.c: what the scanner changes in the client.
use cmogstored.Prelude.{ℕ, ◌+◌, Bytes, List, [], ◌∷◌, ◌≡◌, refl, ap, ◌∙◌, drop}
use cmogstored.Mgmt.State.{Mgmt, Prio, Alg, MgmtCs, st71}
use cmogstored.Mgmt.Scan.Table.{
  ScanAct, mark_0, mark_1, fsck, alg_is, Move, go, finish, invalid, refuse, transition,
}
use cmogstored.Mgmt.Scan.{
  act, acts, set_prio_fsck, Scanned, more, finished, refused, restart, move_to, scan, scan_again,
  scan_buffer,
}

-- the marks, the priority and the algorithm
abbrev pub touched : ℕ → ℕ → Prio → Alg → Mgmt → Mgmt
touched i j p a m = record m { mark0 = i; mark1 = j; prio = p; alg = a }

abbrev pub Touches : Mgmt → Mgmt → Type 0
Touches m m' = (i : ℕ) × (j : ℕ) × (p : Prio) × (a : Alg) × (m' ≡ touched i j p a m)

Touches-refl : (m : Mgmt) → Touches m m
Touches-refl m = (m.mark0, m.mark1, m.prio, m.alg, refl)

Touches-trans : (m m' m'' : Mgmt) → Touches m m' → Touches m' m'' → Touches m m''
Touches-trans m m' m'' (i, j, p, a, e) (i', j', p', a', e') =
    (i', j', p', a', e' ∙ ap (touched i' j' p' a') e)

act-Touches : (pos : ℕ) (a : ScanAct) (m : Mgmt) → Touches m (act pos a m)
unfolding act set_prio_fsck
act-Touches pos mark_0 m = (pos, m.mark1, m.prio, m.alg, refl)
act-Touches pos mark_1 m = (m.mark0, pos, m.prio, m.alg, refl)
act-Touches pos fsck m = (m.mark0, m.mark1, (set_prio_fsck m).prio, m.alg, refl)
act-Touches pos (alg_is a) m = (m.mark0, m.mark1, m.prio, a, refl)

acts-Touches : (pos : ℕ) (todo : List ScanAct) (m : Mgmt) → Touches m (acts pos todo m)
unfolding acts
acts-Touches pos [] m = Touches-refl m
acts-Touches pos (a ∷ todo) m =
    Touches-trans m (act pos a m) (acts pos todo (act pos a m)) (act-Touches pos a m)
      (acts-Touches pos todo (act pos a m))

abbrev pub ScanTouches : Mgmt → Scanned → Type 0
ScanTouches m (more cs pos m') = Touches m m'
ScanTouches m (finished r pos m') = Touches m m'
ScanTouches m (refused pos m') = Touches m m'
ScanTouches m (restart m') = Touches m m'

ScanTouches-trans : (m m' : Mgmt) (s : Scanned) → Touches m m' → ScanTouches m' s → ScanTouches m s
ScanTouches-trans m m' (more cs pos m'') t h = Touches-trans m m' m'' t h
ScanTouches-trans m m' (finished r pos m'') t h = Touches-trans m m' m'' t h
ScanTouches-trans m m' (refused pos m'') t h = Touches-trans m m' m'' t h
ScanTouches-trans m m' (restart m'') t h = Touches-trans m m' m'' t h

move_to-Touches :
    (pos : ℕ) (m : Mgmt) (mv : Move) (k : MgmtCs → Mgmt → Scanned)
    → ((cs : MgmtCs) (m' : Mgmt) → ScanTouches m' (k cs m'))
    → ScanTouches m (move_to pos m mv k)
unfolding move_to
move_to-Touches pos m (go todo cs) k ih =
    ScanTouches-trans m (acts pos todo m) (k cs (acts pos todo m)) (acts-Touches pos todo m)
      (ih cs (acts pos todo m))
move_to-Touches pos m (finish todo r) k ih = acts-Touches pos todo m
move_to-Touches pos m invalid k ih = Touches-refl m
move_to-Touches pos m refuse k ih = Touches-refl m

scan-Touches :
    (bytes : Bytes) (cs : MgmtCs) (pos : ℕ) (m : Mgmt) → ScanTouches m (scan cs pos bytes m)
unfolding scan
scan-Touches [] cs pos m = Touches-refl m
scan-Touches (c ∷ bytes) cs pos m =
    move_to-Touches pos m (transition cs c) _ (λ cs' m'. scan-Touches bytes cs' (pos + 1) m')

scan_again-Touches :
    (buf : Bytes) (m : Mgmt) (s : Scanned) → ScanTouches m s → ScanTouches m (scan_again buf s)
unfolding scan_again
scan_again-Touches buf m (more cs pos m') h = h
scan_again-Touches buf m (finished r pos m') h = h
scan_again-Touches buf m (refused pos m') h = h
scan_again-Touches buf m (restart m') h =
    ScanTouches-trans m m' (scan st71 0 buf m') h (scan-Touches buf st71 0 m')

pub scan_buffer-Touches :
    (cs : MgmtCs) (off : ℕ) (buf : Bytes) (m : Mgmt) → ScanTouches m (scan_buffer cs off buf m)
unfolding scan_buffer
scan_buffer-Touches cs off buf m =
    scan_again-Touches buf m (scan cs off (drop off buf) m) (scan-Touches (drop off buf) cs off m)
