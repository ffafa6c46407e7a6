-- ===== src/Http/Get.antt =====
-- http_get.c: GET and HEAD, from opening the file to the last sendfile(2).
pub mod Transfer
pub mod Open
pub mod Turns
use cmogstored.Prelude.{
  ℕ, zero, suc, ◌+◌, ◌-◌, ◌/◌, ◌%◌, ◌*◌, min, Bytes, List, [], ◌∷◌, ◌++◌, Bool, true, false, not,
  ◌&&◌, Option, none, some, ltb, ◌==◌, if◌then◌else◌, length, take, drop, codes,
}
use cmogstored.Prelude.Decimal.{decimal}
use cmogstored.Prelude.Int.{ℤ, pos, pos_part}
use cmogstored.TryWrite.{Answer, WbufPtr, null, wr_error, buffered, trysend}
use cmogstored.Http.State.{
  Http, File, FsCall, closed, Next, next_close, next_active, next_wait_wr, Method, method_head,
  Errno, no_error, eacces, enoent, Run, returns, aborted, ◌>>=◌, http_reset,
}
use cmogstored.Http.Range.{RangeReply, whole, partial, unsatisfiable, clamp_end, choose_range}
use cmogstored.Http.Response.{crlf, http_resp, http_path}

-- what the handlers learn from the clock and from stat(2): both dates as text, and the size
pub record FileInfo : Type 0 where
  pub date : Bytes
  pub modified : Bytes
  pub st_size : ℕ
  pub is_regular : Bool

abbrev line : Bytes → Bytes → Bytes
line text rest = text ++ (crlf ++ rest)

abbrev connection : Bool → Bytes
connection persistent =
    line (codes (if persistent then "Connection: keep-alive" else "Connection: close")) crlf

-- the three formats of `http_get_resp_hdr`
unfoldable pub get_header : RangeReply → FileInfo → Bool → Bytes
unfolding decimal
get_header (partial offset count) sb persistent = line (codes "HTTP/1.1 206 Partial Content") (
    line (codes "Status: 206 Partial Content") (
      line (codes "Date: " ++ sb.date) (
        line (codes "Last-Modified: " ++ sb.modified) (
          line (codes "Content-Length: " ++ decimal count) (
            line (codes "Content-Type: application/octet-stream") (
              line
                (codes "Content-Range: bytes "
                  ++ (decimal offset
                      ++ (b'-' ∷ (decimal (offset + count - 1) ++ (b'/' ∷ decimal sb.st_size)))))
                (connection persistent)))))))
get_header whole sb persistent = line (codes "HTTP/1.1 200 OK") (
    line (codes "Status: 200 OK") (
      line (codes "Date: " ++ sb.date) (
        line (codes "Last-Modified: " ++ sb.modified) (
          line (codes "Content-Length: " ++ decimal sb.st_size) (
            line (codes "Content-Type: application/octet-stream")
              (line (codes "Accept-Ranges: bytes") (connection persistent)))))))
get_header unsatisfiable sb persistent =
    line (codes "HTTP/1.1 416 Requested Range Not Satisfiable") (
      line (codes "Status: 416 Requested Range Not Satisfiable") (
        line (codes "Date: " ++ sb.date) (
          line (codes "Content-Length: 0") (
            line (codes "Content-Type: text/plain") (
              line (codes "Content-Range: bytes */" ++ decimal sb.st_size)
                (connection persistent))))))

abbrev pub is_head : Method → Bool
is_head method_head = true
is_head _ = false

-- what the reply does to `http->forward`; a 416 without an open file must be one to HEAD
unfoldable pub aim : RangeReply → Http → Run Http
aim whole h = returns h
aim (partial offset count) h = returns (record h {
  forward = elim h.forward [
    | none ↦ none
    | some f ↦ some (record f { foff = offset; fsize = offset + count })
  ];
})
aim unsatisfiable h = elim h.forward [
  | none ↦ if is_head h.http_method then returns h else aborted
  | some f ↦ returns (record h { forward = none; calls = h.calls ++ closed ∷ [] })
]

abbrev pub reply_count : RangeReply → ℕ → ℕ
reply_count whole size = size
reply_count (partial offset count) size = count
reply_count unsatisfiable size = 0

-- The header goes out, after the file is aimed; it returns the length that it announced, or 0 for
-- HEAD. `msg_more` is the platform's.
unfoldable pub send_header : Bool → Http → FileInfo → RangeReply → List Answer → Http × ℕ
send_header msg_more h sb r ks =
    let count = if is_head h.http_method then 0 else reply_count r sb.st_size in
    let w = trysend msg_more (get_header r sb h.persistent) h.out ks in
    (record h { wbuf = w.res; out = w.out }, count)

unfoldable pub http_get_resp_hdr : Bool → Http → FileInfo → List Answer → Run (Http × ℕ)
unfolding send_header aim
http_get_resp_hdr msg_more h sb ks = do
  r ← if h.has_range then choose_range h.range_beg h.range_end sb.st_size else returns whole
  h' ← aim r h
  returns (send_header msg_more h' sb r ks)

-- What the file system answers to one GET or HEAD: stat(2), or open(2) and fstat(2).
pub data Lookup : Type 0 where
  found : FileInfo → Lookup
  missing : Errno → Lookup
  -- the file was opened, and fstat(2) failed
  unreadable : Errno → Lookup

-- `err:`, the response to an errno
unfoldable pub get_error : Http → Errno → Bytes → List Answer → Http
get_error h eacces date ks = http_resp h (codes "403 Forbidden") true date ks
get_error h enoent date ks = http_resp h (codes "404 Not Found") true date ks
get_error h _ date ks = http_resp h (codes "500 Internal Server Error") true date ks

abbrev new_file : ℕ → File
new_file size = record {
  fsize = size;
  foff = 0;
  path = none;
  tmppath = none;
  digest = none;
  written = [];
}

abbrev close_file : Http → Http
close_file h = record h { calls = h.calls ++ closed ∷ [] }

-- `path[1] == '\0'`: the path is "/"
abbrev pub is_root : Bytes → Bool
is_root (c ∷ []) = true
is_root _ = false

-- the answers for a path that is not "/"
unfoldable pub get_lookup : Bool → Http → Lookup → Bytes → List Answer → Run Http
get_lookup msg_more h (missing e) date ks = returns (get_error h e date ks)
get_lookup msg_more h (unreadable e) date ks =
    returns (get_error (if is_head h.http_method then h else close_file h) e date ks)
get_lookup msg_more h (found sb) date ks =
    if not sb.is_regular
    then returns (get_error (if is_head h.http_method then h else close_file h) eacces date ks)
    else (do
      (h', len) ←
          http_get_resp_hdr msg_more
            (if is_head h.http_method then h else record h { forward = some (new_file sb.st_size) })
            sb ks
      returns h')

-- the assertion "tried to write to a busy client", which the header and all other responses have
abbrev pub unless_busy : WbufPtr → Run Http → Run Http
unless_busy null r = r
unless_busy wr_error r = aborted
unless_busy (buffered w) r = aborted

-- the assertions "already have http->forward" and "bad path"
abbrev pub may_open : Option File → Bytes → Bool
may_open (some f) path = false
may_open none [] = false
may_open none (c ∷ path) = c == b'/'

-- `mog_http_get_open`, given the path; `epoch` is the date of time 0, `look` the file system's
-- answer for a path
unfoldable pub get_path :
    Bool → Http → (Bytes → Lookup) → Bytes → Bytes → List Answer → Option Bytes → Run Http
get_path msg_more h look date epoch ks none = returns (get_error h eacces date ks)
get_path msg_more h look date epoch ks (some path) =
    if not (may_open h.forward path)
    then aborted
    else if is_root path
    then (do
      (h', len) ←
          http_get_resp_hdr msg_more h
            (record { date = date; modified = epoch; st_size = 0; is_regular = true }) ks
      returns h')
    else get_lookup msg_more h (look path) date ks

unfoldable pub http_get_open :
    Bool → Http → Bytes → (Bytes → Lookup) → Bytes → Bytes → List Answer → Run Http
unfolding get_path
http_get_open msg_more h buf look date epoch ks =
    unless_busy h.wbuf (get_path msg_more h look date epoch ks (http_path h buf).0)

-- one sendfile(2): a count of bytes, EAGAIN, EINTR or another error
pub data SendFile : Type 0 where
  sent : ℕ → SendFile
  blocked interrupted broken : SendFile

abbrev pub max_sendfile : ℕ
max_sendfile = 1024 * 1024 * 100

-- `done:`; the file is closed, and its mog_fd is given back. `forward` stays set at a close, which
-- ends the client.
unfoldable pub get_done : Http → Next × Http
get_done h =
    let h' = close_file h in if h.persistent then (next_active, http_reset h') else (next_close, h')

-- `retry:`, with `data_` the bytes of the file at this moment; after its last answer the kernel
-- blocks
unfoldable pub send_step : Http → File → Bytes → ℕ → List SendFile → Next × Http
unfolding get_done
send_step h f data_ count [] = (next_wait_wr, h)
send_step h f data_ count (blocked ∷ ks) = (next_wait_wr, h)
send_step h f data_ count (interrupted ∷ ks) = send_step h f data_ count ks
send_step h f data_ count (broken ∷ ks) = get_done (record h { persistent = false })
send_step h f data_ count (sent n ∷ ks) =
    let chunk = take (min n count) (drop f.foff data_) in
    let h' = record h {
      forward = some (record f { foff = f.foff + length chunk });
      out = h.out ++ chunk;
    } in
    if length chunk == 0
    then get_done (record h { persistent = false })
    else if f.foff + length chunk == f.fsize
    then get_done h'
    else (next_active, h')

unfoldable pub http_get_in_progress : Http → File → Bytes → List SendFile → Next × Http
unfolding send_step
http_get_in_progress h f data_ ks =
    let count = min (f.fsize - f.foff) max_sendfile in
    if count == 0 then get_done h else send_step h f data_ count ks
