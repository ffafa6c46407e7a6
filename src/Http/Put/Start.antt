-- ===== src/Http/Put/Start.antt =====
-- http_put.c: how a PUT starts. The chunk parser is the argument `chunk_parse`.
pub mod Opened
use cmogstored.Prelude.{
  ℕ, suc, ◌+◌, ◌-◌, min, Bytes, List, [], ◌∷◌, ◌++◌, Bool, true, false, not, ◌&&◌, ◌||◌, Option,
  none, some, ◌⊎◌, inl, inr, leb, ◌==◌, if◌then◌else◌, get_elem?, length, take, drop, codes,
}
use cmogstored.Prelude.Int.{pos, pos_part}
use cmogstored.Http.State.{
  Run, returns, aborted, ◌>>=◌, Http, File, FsCall, opened, ChunkState, chunk_size, chunk_data,
  chunk_trailer, chunk_done, Rbuf, cs1, Errno, no_error, eacces, enoent, einval, eexist,
}
use cmogstored.Http.Response.{http_resp, http_path}
use cmogstored.Http.Dav.{is_httpget}
use cmogstored.Http.Lengths.{lengths_ok}
use cmogstored.Http.Put.{PutEnv, PWrite, write_full, write_err, internal_error, put_commit_resp}

-- MOG_RBUF_BASE_SIZE, on a platform with 64-bit pointers
abbrev pub rbuf_base_size : ℕ
rbuf_base_size = 512 - 16

-- the flags of open(2): O_CREAT, or O_EXCL | O_TRUNC | O_CREAT
pub data PutFlags : Type 0 where
  o_creat o_excl_trunc_creat : PutFlags

-- The random number of the n-th temporary name and the pid, both as text, and what
-- `mog_file_open_put` answers for flags and a path, none for success.
pub record Opener : Type 0 where
  pub rnd : ℕ → Bytes
  pub pid : Bytes
  pub open_put_file : PutFlags → Bytes → Option Errno

unfoldable pub tmppath_for : Opener → ℕ → Bytes → Bytes
tmppath_for s n path = path ++ (codes "." ++ (s.rnd n ++ (codes "." ++ (s.pid ++ codes ".tmp"))))

-- the file's fields at the end of `open_put`; `written` are the writes of this client
unfoldable pub put_file : Http → Bytes → Option Bytes → File
put_file h path tmp = record {
  fsize = 0;
  foff = if h.has_content_range then pos_part h.range_beg else 0;
  path = some path;
  tmppath = tmp;
  digest = if h.has_trailer_md5 || h.has_expect_md5 then some [] else none;
  written = [];
}

abbrev pub is_eexist : Errno → Bool
is_eexist eexist = true
is_eexist _ = false

unfoldable pub open_put : Opener → Http → Bytes → Errno ⊎ File
unfolding put_file
open_put s h path =
    let tmp = tmppath_for s 0 path in
    let tmp' = tmppath_for s 1 path in
    if h.has_content_range
    then elim (s.open_put_file o_creat path) [ some e ↦ inl e | none ↦ inr (put_file h path none) ]
    else elim (s.open_put_file o_excl_trunc_creat tmp) [
      | none ↦ inr (put_file h path (some tmp))
      | some e ↦
          if is_eexist e
          then elim (s.open_put_file o_excl_trunc_creat tmp') [
            | none ↦ inr (put_file h path (some tmp'))
            | some e' ↦ inl e'
          ]
          else inl e
    ]

-- the path that a new file has in the file system
abbrev pub opened_as : File → Bytes
opened_as f = elim f.tmppath [ some tmp ↦ tmp | none ↦ elim f.path [ some p ↦ p | none ↦ [] ] ]

-- `err:`, the response to an errno
unfoldable pub put_error : PutEnv → Http → Errno → Http
put_error env h einval = http_resp h (codes "400 Bad Request") false env.date env.net
put_error env h enoent = http_resp h (codes "404 Not Found") false env.date env.net
put_error env h eacces = http_resp h (codes "403 Forbidden") false env.date env.net
put_error env h e = (write_err env h e internal_error).1

-- the body bytes that came with the header; `buf` is the read buffer
unfoldable pub identity_body_after_header : PutEnv → Http → File → Bytes → List PWrite → Http
identity_body_after_header env h f buf disk =
    let body_len = min (pos_part h.content_len) (length buf - h.offset) in
    let (f', e, _) = write_full f (take body_len (drop h.offset buf)) disk in
    let h' = record h { offset = h.offset + body_len; forward = some f' } in
    if body_len == 0
    then h
    else elim e [ none ↦ h' | some errno ↦ (write_err env h' errno internal_error).1 ]

-- `stash_advance_rbuf` behind its assertions: keep what follows the last complete line, or nothing
unfoldable pub stash_rest : Http → Bytes → Http
stash_rest h buf =
    let end_ = suc h.line_end in
    if h.line_end == 0 || leb (length buf) end_
    then record h { offset = 0; rbuf = none }
    else record h {
      rbuf = some (record {
        rcapa = elim h.rbuf [ none ↦ rbuf_base_size | some r ↦ r.rcapa ];
        rptr = drop end_ buf;
      });
      offset = h.offset - end_;
      tmp_tip = if leb end_ h.tmp_tip then h.tmp_tip - end_ else h.tmp_tip;
      line_end = 0;
    }

abbrev is_lf : Option ℕ → Bool
is_lf none = false
is_lf (some c) = c == 10

-- the early return, or the assertions "line_end is not LF", "bad rbuf size" and "invalid line end"
unfoldable pub stash_ok : Http → Bytes → Bool
stash_ok h buf =
    let end_ = suc h.line_end in
    (h.line_end == 0 || leb (length buf) end_)
    || (is_lf (get_elem? buf h.line_end) && (leb (length buf) 65535 && leb end_ h.offset))

unfoldable pub stash_advance_rbuf : Http → Bytes → Run Http
unfolding stash_rest stash_ok
stash_advance_rbuf h buf = if stash_ok h buf then returns (stash_rest h buf) else aborted

-- what `mog_chunk_parse` returns
pub data ParserState : Type 0 where
  parser_error parser_done parser_continue : ParserState

-- `mog_chunk_init`
unfoldable pub chunk_init : Http → Http
chunk_init h = record h {
  cs = cs1;
  line_end = 0;
  content_len = pos 0;
  offset = 0;
  chunk_state = chunk_size;
}

abbrev pub is_done : ChunkState → Bool
is_done chunk_done = true
is_done _ = false

-- `mog_chunk_parse` on a buffer and the disk's answers
abbrev pub ChunkParser : Type 0
ChunkParser = Http → Bytes → List PWrite → Run (ParserState × Errno × Http × List PWrite)

-- the whole body has come with the header
abbrev pub header_done : PutEnv → Option File → Http → Bytes → Run Http
header_done env none h buf = aborted
header_done env (some f) h buf =
    let h' = put_commit_resp env h f in
    if h'.offset == 0
    then aborted
    else stash_advance_rbuf h' buf >>= λ k. returns (record k { skip_rbuf_defer = true })

-- the switch on chunk_state, with its assertions
unfoldable pub header_parsed : PutEnv → ChunkState → Http → Bytes → Run Http
header_parsed env chunk_size h buf = if h.offset == length buf then returns h else aborted
header_parsed env chunk_data h buf = if h.offset == length buf then returns h else aborted
header_parsed env chunk_trailer h buf =
    if h.offset == 0
    then aborted
    else stash_advance_rbuf h buf >>= λ k. returns (record k { skip_rbuf_defer = true })
header_parsed env chunk_done h buf = header_done env h.forward h buf

unfoldable pub after_header : PutEnv → ParserState → Errno → Http → Bytes → Run Http
after_header env parser_error errno h buf =
    returns (write_err env h errno (codes "400 Bad Request")).1
after_header env parser_continue errno h buf =
    if is_done h.chunk_state then aborted else header_parsed env h.chunk_state h buf
after_header env parser_done errno h buf = header_parsed env h.chunk_state h buf

-- the body bytes that came with the header
unfoldable pub chunked_body_after_header :
    ChunkParser → PutEnv → Http → Bytes → List PWrite → Run Http
chunked_body_after_header chunk_parse env h buf disk =
    chunk_parse (record (chunk_init h) { offset = h.offset }) buf disk
    >>= λ (q : ParserState × Errno × Http × List PWrite). after_header env q.0 q.1 q.2 buf

-- the part of `mog_http_put` after the file is open
unfoldable pub put_opened : ChunkParser → PutEnv → Http → File → Bytes → List PWrite → Run Http
put_opened chunk_parse env h f buf disk =
    if length buf == h.offset
    then returns (
        if h.chunked
        then record (chunk_init (record h { rbuf = none })) { offset = length buf }
        else h)
    else if h.chunked
    then chunked_body_after_header chunk_parse env h buf disk
    else returns (identity_body_after_header env h f buf disk)

-- `mog_http_put`; no error is set where errno is not
unfoldable pub http_put : ChunkParser → PutEnv → Opener → Http → Bytes → List PWrite → Run Http
http_put chunk_parse env s h buf disk =
    if is_httpget h.fd_type
    then returns (http_resp h (codes "405 Method Not Allowed") false env.date env.net)
    else elim (http_path h buf).0 [
      | none ↦ returns (put_error env h (http_path h buf).1)
      | some path ↦
          if not (lengths_ok h)
          then returns (write_err env h no_error (codes "400 Bad Request")).1
          else elim (open_put s h path) [
            | inl e ↦ returns (put_error env h e)
            | inr f ↦
                put_opened chunk_parse env
                  (record h { forward = some f; calls = h.calls ++ opened (opened_as f) ∷ [] }) f
                  buf disk
          ]
    ]
