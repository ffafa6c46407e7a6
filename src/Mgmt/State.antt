-- ===== src/Mgmt/State.antt =====
-- cmogstored.h: struct mog_mgmt, and what it refers to; `mog_mgmt_reset_parser` and
-- `mog_mgmt_init`.
use cmogstored.Prelude.{ℕ, Bytes, List, [], Bool, Option, none}
use cmogstored.TryWrite.{WbufPtr, null}
use cmogstored.FsckQueue.{FsckQueue}

-- enum mog_prio
pub data Prio : Type 0 where
  prio_none prio_fsck : Prio

-- enum Gc_hash of gnulib, as far as the scanner sets it; the field is zeroed at first
pub data Alg : Type 0 where
  alg_unset alg_md5 alg_sha1 : Alg

-- The states of the generated scanner by number. 74 is left to when a request is complete, 0 on an
-- error. The code leaves at once for 75 and 76, and then sets 74.
pub data MgmtCs : Type 0 where
  st0 st1 st2 st3 st4 st5 st6 st7 st8 st9 st10 st11 st12 st13 st14 st15 st16 st17 st18 : MgmtCs
  st19 st20 st21 st22 st23 st24 st25 st26 st27 st28 st29 st30 st31 st32 st33 st34 st35 : MgmtCs
  st36 st37 st38 st39 st40 st41 st42 st43 st44 st45 st46 st47 st48 st49 st50 st51 st52 : MgmtCs
  st53 st54 st55 st56 st57 st58 st59 st60 st61 st62 st63 st64 st65 st66 st67 st68 st69 : MgmtCs
  st70 st71 st72 st73 st74 : MgmtCs

-- struct mog_file for a checksum: what read(2) will find in it, the position, and what the hash
-- context has been given. `st_dev` is what fstat(2) answers.
pub record Source : Type 0 where
  pub path : Bytes
  pub content : Bytes
  pub at : ℕ
  pub hashed : Bytes
  pub st_dev : Option ℕ

-- mgmt->forward: NULL, a file, or MOG_IOSTAT
pub data Forward : Type 0 where
  nothing iostat : Forward
  file : Source → Forward

-- what a step does beside the client's own state
pub data MgmtCall : Type 0 where
  quit_called device_refresh subscribed file_closed : MgmtCall
  threads_set : ℕ → MgmtCall

-- struct mog_mgmt, with its socket, its calls, whether its service still listens
-- (svc->mgmt_fd >= 0), the queues of checksums, and the clients pushed to the active queue. `rbuf`
-- holds what the buffer contains.
pub record Mgmt : Type 0 where
  pub cs : MgmtCs
  pub prio : Prio
  pub forward : Forward
  pub offset : ℕ
  pub mark0 : ℕ
  pub mark1 : ℕ
  pub rbuf : Option Bytes
  pub wbuf : WbufPtr
  pub alg : Alg
  pub listening : Bool
  pub client : ℕ
  pub queues : List FsckQueue
  pub woken : List ℕ
  pub out : Bytes
  pub input : Bytes
  pub calls : List MgmtCall

-- `mog_mgmt_reset_parser`
unfoldable pub mgmt_reset_parser : Mgmt → Mgmt
mgmt_reset_parser m = record m { cs = st1; mark0 = 0; mark1 = 0 }

-- `mog_mgmt_init`: all is zeroed, and the parser reset
unfoldable pub mgmt_init : Bool → ℕ → List FsckQueue → Bytes → Mgmt
unfolding mgmt_reset_parser
mgmt_init listening client queues input = mgmt_reset_parser (record {
  cs = st0;
  prio = prio_none;
  forward = nothing;
  offset = 0;
  mark0 = 0;
  mark1 = 0;
  rbuf = none;
  wbuf = null;
  alg = alg_unset;
  listening = listening;
  client = client;
  queues = queues;
  woken = [];
  out = [];
  input = input;
  calls = [];
})
