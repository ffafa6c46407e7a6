-- ===== src/Http/Put/Chunked.antt =====
-- http_put.c: a chunked PUT whose body comes in further reads, and `mog_http_put_in_progress`.
pub mod Feeds
pub mod Header
pub mod Reads
pub mod Steps
pub mod Turn
pub mod Turns
use cmogstored.Prelude.{
  ℕ, zero, suc, ◌+◌, ◌-◌, min, Bytes, List, [], ◌∷◌, ◌++◌, Bool, true, false, not, ◌&&◌, ◌||◌,
  Option, none, some, ltb, ◌==◌, if◌then◌else◌, length, take, drop, codes,
}
use cmogstored.Prelude.Int.{ℤ, pos, negsuc, pos_part}
use cmogstored.TryWrite.{WbufPtr, null}
use cmogstored.Http.State.{
  Http, File, ChunkState, chunk_size, chunk_data, chunk_trailer, chunk_done, Rbuf, Next, next_close,
  next_wait_rd, Errno, Run, returns, aborted, ◌>>=◌,
}
use cmogstored.Http.Put.{
  PutEnv, PWrite, write_full, file_close_null, write_err, internal_error, http_put_commit, Recv,
  got, would_block, recv_interrupted, recv_failed, fsbuf_size, identity_put_in_progress,
}
use cmogstored.Http.Put.Start.{
  ParserState, parser_error, parser_done, parser_continue, rbuf_base_size, stash_advance_rbuf,
  chunk_init, is_done,
}
use cmogstored.Http.Chunk.{chunk_parse}

abbrev pub is_null : WbufPtr → Bool
is_null null = true
is_null _ = false

abbrev pub is_none {ℓ} : {A : Type ℓ} → Option A → Bool
is_none none = true
is_none (some _) = false

-- the end of the last chunk: on to the trailers
abbrev pub chunk_left : ℤ → Http → Run Http
chunk_left (pos zero) h = returns (record h { chunk_state = chunk_trailer; offset = 0 })
chunk_left (pos (suc n)) h = returns h
chunk_left (negsuc n) h = aborted

-- the switch on chunk_state up to the read(2)
abbrev pub before_in : ChunkState → Http → Run Http
before_in chunk_data h = if not (is_none h.rbuf) then aborted else chunk_left h.content_len h
before_in chunk_size h = returns h
before_in chunk_trailer h = returns h
before_in chunk_done h = aborted

-- the label `again:` up to the read(2), with its assertions
unfoldable pub before_read : Http → Run Http
before_read h =
    if not (is_null h.wbuf) || is_none h.forward then aborted else before_in h.chunk_state h

-- What a turn of the loop does after read(2): it goes on, with `in_trailer` and the disk, or it
-- leaves, or an assertion fails.
pub data After : Type 0 where
  again : Http → Bool → List PWrite → After
  leaves : Next × Http → After
  stuck : After

-- the result of `mog_http_write_full` for `r` bytes of a chunk
abbrev pub data_stored : PutEnv → Http → Bool → ℕ → File × Option Errno × List PWrite → After
data_stored env h in_trailer r (f, some errno, disk) =
    leaves (write_err env (record h { forward = some f }) errno internal_error)
data_stored env h in_trailer r (f, none, disk) =
    let left = pos_part h.content_len - r in
    let h' = record h { forward = some f; content_len = pos left } in
    again (if left == 0 then chunk_init h' else h') in_trailer disk

unfoldable pub data_read : PutEnv → Http → Option File → Bool → Bytes → List PWrite → After
data_read env h none in_trailer chunk disk = stuck
data_read env h (some f) in_trailer chunk disk =
    data_stored env h in_trailer (length chunk) (write_full f chunk disk)

-- the assertion "bad rbuf" after the trailers
abbrev pub good_rbuf : Http → Bool
good_rbuf h = elim h.rbuf [ none ↦ true | some r ↦ ltb 0 (length r.rptr) && h.offset == 0 ]

-- what follows `stash_advance_rbuf`, if its assertions hold
abbrev pub stashed : Run Http → (Http → After) → After
stashed (returns h) k = k h
stashed aborted k = stuck

-- the whole body has been read
abbrev pub all_stashed : PutEnv → Http → After
all_stashed env h =
    if not (good_rbuf h)
    then stuck
    else elim h.forward [ none ↦ stuck | some f ↦ leaves (http_put_commit env h f) ]

-- the switch on chunk_state after `mog_chunk_parse`; `buf` is what was parsed
unfoldable pub parsed_in : PutEnv → Bool → ChunkState → Http → Bytes → List PWrite → After
parsed_in env in_trailer chunk_size h buf disk =
    if in_trailer then stuck else again (record h { rbuf = none; offset = 0 }) in_trailer disk
parsed_in env in_trailer chunk_data h buf disk =
    if in_trailer then stuck else again (record h { rbuf = none }) in_trailer disk
parsed_in env in_trailer chunk_trailer h buf disk =
    stashed (stash_advance_rbuf h buf) (λ h'. again h' in_trailer disk)
parsed_in env in_trailer chunk_done h buf disk =
    stashed (stash_advance_rbuf h buf) (all_stashed env)

-- the result of `mog_chunk_parse`
unfoldable pub after_parse :
    PutEnv → Bool → ParserState → Errno → Http → Bytes → List PWrite → After
after_parse env in_trailer parser_error errno h buf disk =
    leaves (write_err env h errno (codes "400 Bad Request"))
after_parse env in_trailer parser_continue errno h buf disk =
    if is_done h.chunk_state then stuck else parsed_in env in_trailer h.chunk_state h buf disk
after_parse env in_trailer parser_done errno h buf disk =
    parsed_in env in_trailer h.chunk_state h buf disk

abbrev pub after_run :
    PutEnv → Bool → Bytes → Run (ParserState × Errno × Http × List PWrite) → After
after_run env in_trailer buf aborted = stuck
after_run env in_trailer buf (returns (state, errno, h, disk)) =
    after_parse env in_trailer state errno h buf disk

-- bytes of a chunk's first line or of the trailers, behind those in `rbuf`
unfoldable pub line_read :
    (Bytes → Option Bytes) → PutEnv → Http → Bool → Bytes → List PWrite → After
line_read decode env h in_trailer buf disk =
    after_run env in_trailer buf (chunk_parse decode h buf disk)

abbrev pub bytes_of : Option Rbuf → Bytes
bytes_of none = []
bytes_of (some r) = r.rptr

-- the bytes in the client's read buffer
abbrev pub held : Http → Bytes
held h = bytes_of h.rbuf

-- the buffer that read(2) is given
abbrev pub read_size : Http → ℕ
read_size h = elim h.chunk_state [
  | chunk_data ↦ min fsbuf_size (pos_part h.content_len)
  | _ ↦ elim h.rbuf [ none ↦ rbuf_base_size | some r ↦ r.rcapa - length r.rptr ]
]

-- the switch on chunk_state from the read(2) on; `chunk` is what was read
abbrev pub read_in :
    (Bytes → Option Bytes) → PutEnv → ChunkState → Http → Bool → List PWrite → Bytes → After
read_in decode env chunk_data h in_trailer disk chunk =
    data_read env h h.forward in_trailer chunk disk
read_in decode env chunk_trailer h in_trailer disk chunk =
    line_read decode env h true (held h ++ chunk) disk
read_in decode env _ h in_trailer disk chunk =
    line_read decode env h in_trailer (held h ++ chunk) disk

-- read(2) returns at most `n` bytes; 0 is the end of the connection
unfoldable pub after_read : (Bytes → Option Bytes) → PutEnv → Http → Bool → List PWrite → ℕ → After
after_read decode env h in_trailer disk n =
    let chunk = take (min n (read_size h)) h.input in
    let h' = record h { input = drop (length chunk) h.input } in
    if length chunk == 0
    then leaves (next_close, file_close_null h)
    else read_in decode env h.chunk_state h' in_trailer disk chunk

abbrev pub next_read : (Http → Bool → List PWrite → Run (Next × Http)) → After → Run (Next × Http)
next_read go (again h in_trailer disk) = go h in_trailer disk
next_read go (leaves r) = returns r
next_read go stuck = aborted

-- The loop. After its last answer the socket blocks.
unfoldable pub chunked_put_in_progress :
    (Bytes → Option Bytes) → PutEnv → Http → Bool → List PWrite → List Recv → Run (Next × Http)
chunked_put_in_progress decode env h in_trailer disk [] =
    before_read h >>= λ h'. returns (next_wait_rd, h')
chunked_put_in_progress decode env h in_trailer disk (would_block ∷ ks) =
    before_read h >>= λ h'. returns (next_wait_rd, h')
chunked_put_in_progress decode env h in_trailer disk (recv_interrupted ∷ ks) =
    chunked_put_in_progress decode env h in_trailer disk ks
chunked_put_in_progress decode env h in_trailer disk (recv_failed ∷ ks) =
    before_read h >>= λ h'. returns (next_close, file_close_null h')
chunked_put_in_progress decode env h in_trailer disk (got n ∷ ks) = before_read h >>= λ h'.
    next_read (λ h'' in_trailer' disk'. chunked_put_in_progress decode env h'' in_trailer' disk' ks)
      (after_read decode env h' in_trailer disk n)

-- `mog_http_put_in_progress`
unfoldable pub http_put_in_progress :
    (Bytes → Option Bytes) → PutEnv → Http → File → List PWrite → List Recv → Run (Next × Http)
http_put_in_progress decode env h f disk ks =
    if h.chunked
    then chunked_put_in_progress decode env h false disk ks
    else identity_put_in_progress env h f disk ks
