-- ===== src/Mgmt/Scan.antt =====
-- mgmt_parser.c: the generated scanner's loop over the buffer.
pub mod Table
pub mod Resume
pub mod Touches
use cmogstored.Prelude.{
  ℕ, ◌+◌, Bytes, List, [], ◌∷◌, Bool, true, false, if◌then◌else◌, drop, length,
}
use cmogstored.Mgmt.State.{Mgmt, Alg, MgmtCs, st71, prio_fsck}
use cmogstored.Mgmt.Scan.Table.{
  ScanAct, mark_0, mark_1, fsck, alg_is, Move, go, finish, invalid, refuse, Request, transition,
}

-- `set_prio_fsck`
unfoldable pub set_prio_fsck : Mgmt → Mgmt
set_prio_fsck m = record m { prio = if m.listening then prio_fsck else m.prio }

-- an action at the byte at `pos`
unfoldable pub act : ℕ → ScanAct → Mgmt → Mgmt
unfolding set_prio_fsck
act pos mark_0 m = record m { mark0 = pos }
act pos mark_1 m = record m { mark1 = pos }
act pos fsck m = set_prio_fsck m
act pos (alg_is a) m = record m { alg = a }

unfoldable pub acts : ℕ → List ScanAct → Mgmt → Mgmt
unfolding act
acts pos [] m = m
acts pos (a ∷ todo) m = acts pos todo (act pos a m)

-- Where the scanner stops: at the end of the buffer in a state, behind a request, in state 0, or,
-- for the first of two rounds, on the way to the start of the buffer.
pub data Scanned : Type 0 where
  more : MgmtCs → ℕ → Mgmt → Scanned
  finished : Request → ℕ → Mgmt → Scanned
  refused : ℕ → Mgmt → Scanned
  restart : Mgmt → Scanned

-- a move at the byte at `pos`; `rest` is the scan of the following bytes
unfoldable pub move_to : ℕ → Mgmt → Move → (MgmtCs → Mgmt → Scanned) → Scanned
unfolding acts
move_to pos m (go todo cs) rest = rest cs (acts pos todo m)
move_to pos m (finish todo r) rest = finished r (pos + 1) (acts pos todo m)
move_to pos m invalid rest = restart m
move_to pos m refuse rest = refused pos m

-- from state `cs` at `pos`, on the bytes from there on
unfoldable pub scan : MgmtCs → ℕ → Bytes → Mgmt → Scanned
scan cs pos [] m = more cs pos m
scan cs pos (c ∷ bytes) m = move_to pos m (transition cs c) (λ cs' m'. scan cs' (pos + 1) bytes m')

-- p = buf; p--; goto st71
unfoldable pub scan_again : Bytes → Scanned → Scanned
scan_again buf (restart m) = scan st71 0 buf m
scan_again buf (more cs pos m) = more cs pos m
scan_again buf (finished r pos m) = finished r pos m
scan_again buf (refused pos m) = refused pos m

-- "write exec", from `off`
unfoldable pub scan_buffer : MgmtCs → ℕ → Bytes → Mgmt → Scanned
scan_buffer cs off buf m = scan_again buf (scan cs off (drop off buf) m)
