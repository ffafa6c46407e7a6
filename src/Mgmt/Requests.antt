-- ===== src/Mgmt/Requests.antt =====
-- The requests of the sidechannel as a client writes them, and what each asks for, with no
-- buffers, marks or states: the specification of the scanner with its answers.
pub mod Scanning
pub mod Fresh
pub mod Threads
pub mod Digests
pub mod Served
use cmogstored.Prelude.{
  ℕ, ◌+◌, ◌-◌, ◌*◌, ◌^◌, ◌≤◌, ◌≢◌, Bytes, List, [], ◌∷◌, ◌++◌, Bool, true, false, ◌&&◌, ◌||◌,
  Option, none, some, ltb, leb, ◌==◌, ◌≡◌, if◌then◌else◌, codes,
}
use cmogstored.Prelude.Decimal.{decimal}
use cmogstored.TryWrite.{Answer}
use cmogstored.ValidPath.{valid_path}
use cmogstored.Http.State.{Run, returns, aborted, ◌>>=◌}
use cmogstored.Mgmt.State.{
  Mgmt, Alg, alg_unset, alg_md5, alg_sha1, Prio, prio_fsck, Source, file, iostat, threads_set,
  quit_called,
}
use cmogstored.Mgmt.Answers.{MgmtEnv, mgmt_writev, uri_invalid, eol}

-- a-z and A-Z
abbrev pub letter : ℕ → Bool
letter c = (leb b'a' c && leb c b'z') || (leb b'A' c && leb c b'Z')

abbrev pub digit_byte : ℕ → Bool
digit_byte c = leb b'0' c && leb c b'9'

-- what a path is made of
abbrev pub path_byte : ℕ → Bool
path_byte c = letter c || digit_byte c || c == b'/' || c == b'.' || c == b'-'

-- what a reason is made of
abbrev pub word_byte : ℕ → Bool
word_byte c = letter c || digit_byte c || c == b'_'

abbrev pub All : (ℕ → Bool) → Bytes → Type 0
All p [] = Unit
All p (c ∷ cs) = (p c ≡ true) × All p cs

-- The reason for a checksum, behind a space: "fsck" and perhaps more, or another word, which here
-- starts otherwise.
pub data Reason : Bytes → Bool → Type 0 where
  no_reason : Reason [] false
  for_fsck : (w : Bytes) → All word_byte w → Reason (b' ' ∷ b'f' ∷ b's' ∷ b'c' ∷ b'k' ∷ w) true
  for_other :
      (c : ℕ) (w : Bytes)
      → word_byte c ≡ true
      → c ≢ b'f'
      → All word_byte w
      → Reason (b' ' ∷ c ∷ w) false

-- a path, less its first slash; the digits of a number
pub data Command : Type 0 where
  ask_blank ask_watch ask_shutdown : Command
  ask_size : Bytes → Command
  ask_digest : Bool → Bytes → Bytes → Bool → Command
  ask_threads : Bytes → Command

pub data LineEnd : Bytes → Type 0 where
  lf : LineEnd (10 ∷ [])
  crlf : LineEnd (13 ∷ 10 ∷ [])

abbrev pub alg_of : Bool → Alg
alg_of false = alg_md5
alg_of true = alg_sha1

abbrev pub alg_name : Bool → Bytes
alg_name false = codes "MD5 /"
alg_name true = codes "SHA-1 /"

abbrev pub is_space : ℕ → Bool
is_space c = c == b' '

-- A request, less its line end: for each kind, the spellings below.
pub data Written : Command → Bytes → Type 0 where
  blank_line : Written ask_blank []
  watch_line : Written ask_watch (codes "watch")
  shutdown_line : Written ask_shutdown (codes "shutdown")
  graceful_line :
      (spaces : Bytes)
      → All is_space spaces
      → Written ask_shutdown (codes "shutdown " ++ (spaces ++ codes "graceful"))
  size_of : (q : Bytes) → All path_byte q → Written (ask_size q) (codes "size /" ++ q)
  digest_of :
      (sha1 : Bool) (q reason : Bytes) (fsck : Bool)
      → All path_byte q
      → Reason reason fsck
      → Written (ask_digest sha1 q reason fsck) (alg_name sha1 ++ (q ++ reason))
  threads_of :
      (c : ℕ) (ds : Bytes)
      → digit_byte c ≡ true
      → All digit_byte ds
      → Written (ask_threads (c ∷ ds)) (codes "server aio_threads = " ++ (c ∷ ds))

-- the number that digits stand for
unfoldable pub value : ℕ → Bytes → ℕ
value n [] = n
value n (c ∷ cs) = value (n * 10 + (c - b'0')) cs

-- one line in answer to a path: for one that is refused, or as `go` says
abbrev pub for_path : Mgmt → Bytes → List Answer → Run Mgmt → Run Mgmt
for_path m path net go = if valid_path path then go else mgmt_writev m (uri_invalid ∷ []) net

-- the client that asks for a checksum
abbrev pub asks_for : Mgmt → Bool → Bool → Mgmt
asks_for m sha1 fsck = record m {
  alg = alg_of sha1;
  prio = if fsck && m.listening then prio_fsck else m.prio;
}

abbrev pub missing_line : Bool → Bytes
missing_line false = codes " MD5=-1" ++ eol
missing_line true = codes " SHA-1=-1" ++ eol

-- the checksum begins at the start of the file, or the answer is -1
abbrev pub begin : Bool → Mgmt → Bytes → List Answer → Option Source → Run Mgmt
begin sha1 m path net none = mgmt_writev m (path ∷ missing_line sha1 ∷ []) net
begin sha1 m path net (some s) = returns (record m {
  forward =
      file (record { path = path; content = s.content; at = 0; hashed = []; st_dev = s.st_dev });
})

-- the size, or -1 for a file that is not there
abbrev pub size_text : Option ℕ → Bytes
size_text none = codes " -1" ++ eol
size_text (some n) = codes " " ++ (decimal n ++ eol)

unfoldable pub serve : MgmtEnv → Mgmt → Command → List Answer → Run Mgmt
serve env m ask_blank net = mgmt_writev m (eol ∷ []) net
serve env m ask_watch net = returns (record m { forward = iostat })
serve env m ask_shutdown net = returns (record m { calls = m.calls ++ (quit_called ∷ []) })
serve env m (ask_size q) net =
    let path : Bytes = b'/' ∷ q in
    for_path m path net (mgmt_writev m (path ∷ size_text (env.stat_size path) ∷ []) net)
serve env m (ask_digest sha1 q reason fsck) net =
    let path : Bytes = b'/' ∷ q in
    let m' = asks_for m sha1 fsck in
    for_path m' path net (begin sha1 m' path net (env.open_read path))
serve env m (ask_threads ds) net =
    let nr = value 0 ds in
    let m' = record m { calls = m.calls ++ (threads_set nr ∷ []) } in
    mgmt_writev (if ltb 0 nr && leb nr 100 then m' else m) (eol ∷ []) net
