-- ===== src/Mgmt/Answers.antt =====
-- mgmt_fn.c: the answers to the requests; `mog_mgmt_writev` of mgmt.c, and `mog_digest_hex` of
-- digest.c.
pub mod Writes
use cmogstored.Prelude.{
  ℕ, ◌+◌, ◌-◌, ◌*◌, ◌/◌, ◌%◌, ◌^◌, min, Bytes, List, [], ◌∷◌, ◌++◌, Bool, true, false, ◌&&◌, ◌||◌,
  Option, none, some, ltb, leb, ◌==◌, if◌then◌else◌, length, take, drop, get_elem?, slice, codes,
}
use cmogstored.Prelude.Decimal.{decimal}
use cmogstored.TryWrite.{Answer, WbufPtr, null, wr_error, buffered, trywritev}
use cmogstored.ValidPath.{valid_path}
use cmogstored.Http.State.{Run, returns, aborted, ◌>>=◌}
use cmogstored.Mgmt.State.{
  Mgmt, Alg, alg_unset, alg_md5, alg_sha1, Source, Forward, nothing, iostat, file, MgmtCall,
  quit_called, threads_set,
}
use cmogstored.Mgmt.Scan.Table.{
  is_digit, Request, blank, digest, aio_threads, shutdown, size, watch, unknown,
}

-- What the handlers ask of the system: the size that stat(2) finds, the file that open(2) opens,
-- and the checksum that gnulib makes of the bytes it was given.
pub record MgmtEnv : Type 0 where
  pub stat_size : Bytes → Option ℕ
  pub open_read : Bytes → Option Source
  pub checksum : Alg → Bytes → Bytes

-- the line end of the sidechannel
abbrev pub eol : Bytes
eol = 13 ∷ 10 ∷ []

-- `mog_mgmt_writev`, with the assertion "tried to write while busy"
unfoldable pub mgmt_writev : Mgmt → List Bytes → List Answer → Run Mgmt
mgmt_writev m iov net = elim m.wbuf [
  | null ↦ let w = trywritev iov m.out net in returns (record m { wbuf = w.res; out = w.out })
  | wr_error ↦ aborted
  | buffered w ↦ aborted
]

-- `get_path` finds the path between the marks, and answers itself where that is not valid
unfoldable pub marked_path : Mgmt → Bytes → Bytes
marked_path m buf = slice m.mark0 m.mark1 buf

abbrev pub uri_invalid : Bytes
uri_invalid = codes "ERROR: uri invalid (contains ..)" ++ eol

unfoldable pub with_path : Mgmt → Bytes → List Answer → (Bytes → Run Mgmt) → Run Mgmt
unfolding marked_path mgmt_writev
with_path m buf net go =
    if valid_path (marked_path m buf)
    then go (marked_path m buf)
    else mgmt_writev m (uri_invalid ∷ []) net

-- the answer where there is no such file; another algorithm dies
unfoldable pub digest_missing : Mgmt → Bytes → List Answer → Run Mgmt
unfolding mgmt_writev
digest_missing m path net = elim m.alg [
  | alg_md5 ↦ mgmt_writev m (path ∷ (codes " MD5=-1" ++ eol) ∷ []) net
  | alg_sha1 ↦ mgmt_writev m (path ∷ (codes " SHA-1=-1" ++ eol) ∷ []) net
  | alg_unset ↦ aborted
]

unfoldable pub digest_opened : Mgmt → List Answer → Bytes → Option Source → Run Mgmt
unfolding digest_missing
digest_opened m net path (some s) =
    returns (record m { forward = file (record s { path = path; at = 0; hashed = [] }) })
digest_opened m net path none = digest_missing m path net

-- `mog_mgmt_fn_digest`
unfoldable pub mgmt_fn_digest : MgmtEnv → Mgmt → Bytes → List Answer → Run Mgmt
unfolding with_path digest_opened
mgmt_fn_digest env m buf net =
    with_path m buf net (λ path. digest_opened m net path (env.open_read path))

-- `mog_mgmt_fn_digest_err`; lseek(2) answers the position
unfoldable pub mgmt_fn_digest_err : Mgmt → Source → List Answer → Run Mgmt
unfolding mgmt_writev
mgmt_fn_digest_err m s net =
    mgmt_writev m
      (codes "ERR read "
        ∷ s.path
        ∷ (codes " at " ++ (decimal s.at ++ (codes " failed" ++ eol)))
        ∷ [])
      net

-- hex[n]
abbrev pub hex_digit : ℕ → ℕ
hex_digit n = if ltb n 10 then b'0' + n else b'a' + (n - 10)

unfoldable pub hex : Bytes → Bytes
hex [] = []
hex (u ∷ us) = hex_digit (u / 16) ∷ hex_digit (u % 16) ∷ hex us

-- gc_hash_digest_length
abbrev pub digest_length : Alg → ℕ
digest_length alg_md5 = 16
digest_length alg_sha1 = 20
digest_length alg_unset = 0

-- `mog_digest_hex`, into a buffer for `len` digits
unfoldable pub digest_hex : Alg → Bytes → ℕ → Run Bytes
unfolding hex
digest_hex alg sum len =
    let hashlen = digest_length alg in
    if leb (hashlen * 2) len && ltb 0 hashlen then returns (hex (take hashlen sum)) else aborted

unfoldable pub emit : Mgmt → Source → Bytes → List Answer → Bytes → Run Mgmt
unfolding mgmt_writev
emit m s label net digits = mgmt_writev m (s.path ∷ (label ++ (digits ++ eol)) ∷ []) net

-- `mog_mgmt_fn_digest_emit`
unfoldable pub mgmt_fn_digest_emit : MgmtEnv → Mgmt → Source → List Answer → Run Mgmt
unfolding emit digest_hex
mgmt_fn_digest_emit env m s net = elim m.alg [
  | alg_md5 ↦ digest_hex alg_md5 (env.checksum alg_md5 s.hashed) 32 >>= emit m s (codes " MD5=") net
  | alg_sha1 ↦
      digest_hex alg_sha1 (env.checksum alg_sha1 s.hashed) 40 >>= emit m s (codes " SHA-1=") net
  | alg_unset ↦ aborted
]

-- `mog_mgmt_fn_size`
unfoldable pub size_line : Option ℕ → Bytes
size_line (some n) = codes " " ++ (decimal n ++ eol)
size_line none = codes " -1" ++ eol

unfoldable pub mgmt_fn_size : MgmtEnv → Mgmt → Bytes → List Answer → Run Mgmt
unfolding with_path mgmt_writev size_line
mgmt_fn_size env m buf net =
    with_path m buf net (λ path. mgmt_writev m (path ∷ size_line (env.stat_size path) ∷ []) net)

-- `mog_mgmt_fn_blank`
unfoldable pub mgmt_fn_blank : Mgmt → List Answer → Run Mgmt
unfolding mgmt_writev
mgmt_fn_blank m net = mgmt_writev m (eol ∷ []) net

-- `mog_mgmt_fn_unknown`
unfoldable pub mgmt_fn_unknown : Mgmt → Bytes → List Answer → Run Mgmt
unfolding mgmt_writev marked_path
mgmt_fn_unknown m buf net =
    mgmt_writev m (codes "ERROR: unknown command: " ∷ marked_path m buf ∷ eol ∷ []) net

-- strtoull(3): the digits at the start, at most ULLONG_MAX, and whether all was read
unfoldable pub strtoull : ℕ → Bytes → ℕ × Bool
strtoull n [] = (min n (2 ^ 64 - 1), true)
strtoull n (c ∷ cs) =
    let rest = strtoull (n * 10 + (c - b'0')) cs in
    if is_digit c then rest else (min n (2 ^ 64 - 1), false)

abbrev pub is_line_end : Option ℕ → Bool
is_line_end (some c) = c == 10 || c == 13
is_line_end none = false

-- `mog_mgmt_fn_aio_threads`, with its assertions "missing end-of-record" and "ragel misfed
-- mog_mgmt_fn_set_aio_threads"; the byte that it puts at the line end is not read again
unfoldable pub mgmt_fn_aio_threads : Mgmt → Bytes → List Answer → Run Mgmt
unfolding strtoull marked_path mgmt_writev
mgmt_fn_aio_threads m buf net =
    let (nr, all) = strtoull 0 (marked_path m buf) in
    let m' = record m { calls = m.calls ++ (threads_set nr ∷ []) } in
    if is_line_end (get_elem? buf m.mark1) && all
    then mgmt_writev (if ltb 0 nr && leb nr 100 then m' else m) (eol ∷ []) net
    else aborted

-- the action of the scanner at the end of a request; `have_iostat` is always 1
unfoldable pub request_done : MgmtEnv → Request → Mgmt → Bytes → List Answer → Run Mgmt
unfolding mgmt_fn_blank mgmt_fn_digest mgmt_fn_size mgmt_fn_unknown mgmt_fn_aio_threads
request_done env blank m buf net = mgmt_fn_blank m net
request_done env digest m buf net = mgmt_fn_digest env m buf net
request_done env aio_threads m buf net = mgmt_fn_aio_threads m buf net
request_done env shutdown m buf net = returns (record m { calls = m.calls ++ (quit_called ∷ []) })
request_done env size m buf net = mgmt_fn_size env m buf net
request_done env watch m buf net = returns (record m { forward = iostat })
request_done env unknown m buf net = mgmt_fn_unknown m buf net
