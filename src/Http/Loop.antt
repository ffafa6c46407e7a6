-- ===== src/Http/Loop.antt =====
-- http.c: the event loop's step for an HTTP client. The parser is generated code and not
-- modelled; it and the request handlers are a record of operations here.
pub mod Steps
pub mod Flush
use cmogstored.Prelude.{
  ℕ, ◌+◌, ◌-◌, ◌*◌, min, Bytes, List, [], ◌∷◌, ◌++◌, Bool, true, false, not, ◌&&◌, ◌||◌, ltb, leb,
  Option, none, some, ◌==◌, if◌then◌else◌, length, take, drop, codes,
}
use cmogstored.TryWrite.{
  Answer, WriteState, wrstate_err, wrstate_done, wrstate_busy, WbufPtr, null, wr_error, buffered,
  Wbuf, Flushed, tryflush,
}
use cmogstored.Http.State.{
  Http, File, Rbuf, Next, next_close, next_active, next_wait_rd, next_wait_wr, next_ignore, Errno,
  erange, Method, method_get, method_put, Run, returns, aborted, ◌>>=◌, http_reset,
}
use cmogstored.Http.Response.{http_resp}
use cmogstored.Http.Put.{
  Recv, got, would_block, recv_interrupted, recv_failed, is_buffered, is_wr_error,
}
use cmogstored.Http.Put.Start.{
  ParserState, parser_error, parser_done, parser_continue, rbuf_base_size,
}

-- What the step calls: `mog_http_parse` with errno, `http_process_client`, and
-- `http_forward_in_progress`.
pub record Handlers : Type 0 where
  pub parse : Http → Bytes → ParserState × Errno × Http
  pub process_client : Http → Bytes → Run Http
  pub forward_in_progress : Http → Run (Next × Http)

-- MOG_RBUF_MAX_SIZE
abbrev pub rbuf_max_size : ℕ
rbuf_max_size = 65535

abbrev old_capacity : Option Rbuf → ℕ → ℕ
old_capacity none n = n
old_capacity (some r) n = r.rcapa

-- `http_defer_rbuf`; `buf` is what was read and is in `rbuf`
unfoldable pub http_defer_rbuf : Http → Bytes → Http
http_defer_rbuf h buf =
    let defer_bytes = length buf - h.offset in
    if h.skip_rbuf_defer then record h { skip_rbuf_defer = false } else record h {
      rbuf =
          if defer_bytes == 0
          then none
          else some (record { rcapa = old_capacity h.rbuf defer_bytes; rptr = drop h.offset buf });
      offset = 0;
    }

-- `http_wbuf_in_progress` after the flush; the assertion "bad offset" is written out
unfoldable pub http_flushed : Http → Flushed → Run (Next × Http)
http_flushed h f =
    let left = record h {
      out = f.out;
      wbuf = elim f.wbuf [ none ↦ null | some w' ↦ buffered w' ];
    } in
    let next : Http = elim h.forward [ none ↦ http_reset left | some file ↦ left ] in
    elim f.state [
      | wrstate_err ↦ returns (next_close, left)
      | wrstate_busy ↦ returns (next_wait_wr, left)
      | wrstate_done ↦
          if not h.persistent
          then returns (next_close, left)
          else if next.offset == 0
          then returns (next_active, next)
          else aborted
    ]

unfoldable pub http_wbuf_in_progress : Http → Wbuf → List Answer → Run (Next × Http)
unfolding http_flushed
http_wbuf_in_progress h w ks = http_flushed h (tryflush w h.out ks)

-- MOG_PARSER_DONE, after `http_process_client`
unfoldable pub http_processed : Handlers → Http → Bytes → Run (Next × Http)
http_processed ops h buf =
    if is_wr_error h.wbuf
    then returns (next_close, h)
    else if is_buffered h.wbuf
    then returns (next_wait_wr, http_defer_rbuf h buf)
    else elim h.forward [
      | some f ↦ ops.forward_in_progress (http_defer_rbuf h buf)
      | none ↦
          if not h.persistent
          then returns (next_close, h)
          else returns (next_active, http_reset (http_defer_rbuf h buf))
    ]

-- `mog_rbuf_grow`: the new capacity, or none for a request that is too large
unfoldable pub rbuf_grow : ℕ → ℕ → Option ℕ
rbuf_grow rcapa rsize =
    let new_size = min (rsize + 500) rbuf_max_size in
    if rsize == rbuf_max_size
    then none
    else if ltb rcapa new_size
    then some new_size
    else some rcapa

abbrev is_erange : Errno → Bool
is_erange erange = true
is_erange _ = false

-- `err507or400`
unfoldable pub parse_error : Http → Errno → Bytes → List Answer → Next × Http
parse_error h e date ks = (
  next_close,
  http_resp h (if is_erange e then codes "507 Insufficient Storage" else codes "400 Bad Request")
      false date ks,
)

-- EAGAIN: what was read stays with the client
unfoldable pub keep_read : Http → ℕ → Bytes → Http
keep_read h rcapa buf =
    if length buf == 0
    then h
    else record h { rbuf = some (record { rcapa = old_capacity h.rbuf rcapa; rptr = buf }) }

-- How the part of the step between `reread:` and the parser's result ends.
pub data ReadEnd : Type 0 where
  -- EAGAIN
  waits : Http → ReadEnd
  -- the client shut down, or an error
  gone : Http → ReadEnd
  -- the read buffer cannot grow
  too_large : Http → ReadEnd
  -- the parser is done or has found an error
  parsed : ParserState → Errno → Http → Bytes → ReadEnd

-- the parser's answer; to read on, `reread` is given the client and its buffer's capacity
unfoldable pub parse_step : Handlers → Http → ℕ → Bytes → (Http → ℕ → ReadEnd) → ReadEnd
parse_step ops h rcapa buf reread = elim (ops.parse h buf).0 [
  | parser_error ↦ parsed parser_error (ops.parse h buf).1 (ops.parse h buf).2 buf
  | parser_done ↦ parsed parser_done (ops.parse h buf).1 (ops.parse h buf).2 buf
  | parser_continue ↦
      let h' = (ops.parse h buf).2 in
      if ltb h'.offset rcapa then reread h' rcapa else elim (rbuf_grow rcapa (length buf)) [
        | none ↦ too_large (record h' { rbuf = none })
        | some c ↦ reread (record h' { rbuf = some (record { rcapa = c; rptr = buf }) }) c
      ]
]

-- from `reread:`; `buf` is what the buffer holds, and after its last answer the socket blocks
unfoldable pub http_read : Handlers → Http → ℕ → Bytes → List Recv → ReadEnd
unfolding parse_step
http_read ops h rcapa buf [] = waits (keep_read h rcapa buf)
http_read ops h rcapa buf (would_block ∷ ks) = waits (keep_read h rcapa buf)
http_read ops h rcapa buf (recv_interrupted ∷ ks) = http_read ops h rcapa buf ks
http_read ops h rcapa buf (recv_failed ∷ ks) = gone h
http_read ops h rcapa buf (got n ∷ ks) =
    let chunk = take (min n (rcapa - h.offset)) h.input in
    let h' = record h { input = drop (length chunk) h.input } in
    let buf' = take h.offset buf ++ chunk in
    if length chunk == 0
    then gone h
    else parse_step ops h' rcapa buf' (λ h2 c. http_read ops h2 c buf' ks)

unfoldable pub read_end : Handlers → Bytes → List Answer → ReadEnd → Run (Next × Http)
read_end ops date net (waits h) = returns (next_wait_rd, h)
read_end ops date net (gone h) = returns (next_close, h)
read_end ops date net (too_large h) =
    returns (next_close, http_resp h (codes "400 Bad Request") false date net)
read_end ops date net (parsed parser_error e h buf) = returns (parse_error h e date net)
read_end ops date net (parsed _ e h buf) = do
  h' ← ops.process_client h buf
  http_processed ops h' buf

-- the assertions "offset is too big", "bad offset from pipelining" and "bad rsize stashed"
abbrev pub rbuf_holds : Http → Rbuf → Bool
rbuf_holds h r =
    ltb h.offset r.rcapa && (leb h.offset (length r.rptr) && leb (length r.rptr) r.rcapa)

-- `http_queue_step` behind its first tests, given http->rbuf
unfoldable pub request_turn :
    Handlers → Http → Bytes → List Recv → List Answer → Option Rbuf → Run (Next × Http)
unfolding read_end http_read
request_turn ops h date ks net none =
    if ltb h.offset rbuf_base_size
    then read_end ops date net (http_read ops h rbuf_base_size [] ks)
    else aborted
request_turn ops h date ks net (some r) =
    let ends : ReadEnd =
      if ltb h.offset (length r.rptr)
      then parse_step ops h r.rcapa r.rptr (λ h2 c. http_read ops h2 c r.rptr ks)
      else http_read ops h r.rcapa r.rptr ks in
    if rbuf_holds h r then read_end ops date net ends else aborted

-- without a write buffer, given http->forward
unfoldable pub forward_turn :
    Handlers → Http → Bytes → List Recv → List Answer → Option File → Run (Next × Http)
unfolding request_turn
forward_turn ops h date ks net none = request_turn ops h date ks net h.rbuf
forward_turn ops h date ks net (some f) = ops.forward_in_progress h

-- given http->wbuf, with the assertion "still active after write error"
unfoldable pub wbuf_turn :
    Handlers → Http → Bytes → List Recv → List Answer → WbufPtr → Run (Next × Http)
unfolding forward_turn http_wbuf_in_progress
wbuf_turn ops h date ks net wr_error = aborted
wbuf_turn ops h date ks net (buffered w) = http_wbuf_in_progress h w net
wbuf_turn ops h date ks net null = forward_turn ops h date ks net h.forward

-- `http_queue_step`
unfoldable pub http_queue_step :
    Handlers → Http → Bytes → List Recv → List Answer → Run (Next × Http)
unfolding wbuf_turn
http_queue_step ops h date ks net = wbuf_turn ops h date ks net h.wbuf

-- `http_close`, given http->wbuf, with the assertion "would leak http->wbuf on close"
unfoldable pub http_close : Http → WbufPtr → Run Http
http_close h null = returns h
http_close h wr_error = returns h
http_close h (buffered w) = aborted

-- the end of `mog_http_queue_step`, with its assertion on MOG_NEXT_IGNORE
unfoldable pub http_step_end : Next → Http → Run (Next × Http)
unfolding http_close
http_step_end next_close h = do h' ← http_close h h.wbuf; returns (next_close, h')
http_step_end next_ignore h = aborted
http_step_end n h = returns (n, h)

-- `mog_http_queue_step`
unfoldable pub http_step : Handlers → Http → Bytes → List Recv → List Answer → Run (Next × Http)
unfolding http_queue_step http_step_end
http_step ops h date ks net =
    http_queue_step ops h date ks net >>= λ (r : Next × Http). http_step_end r.0 r.1

-- where a client goes during a graceful shutdown
pub data Quit : Type 0 where
  push_idle_rd push_idle_wr push_active dropped : Quit

abbrev quit_drop_http : Http → Run Quit
quit_drop_http h = do h' ← http_close h h.wbuf; returns dropped

-- MOG_NEXT_WAIT_RD: something is in progress where there is a file or a read buffer
abbrev quit_reading : Http → Option File → Option Rbuf → Run Quit
quit_reading h none none = quit_drop_http h
quit_reading h none (some r) = returns push_idle_rd
quit_reading h (some f) rbuf = returns push_idle_rd

-- `mog_http_quit_step` after `http_queue_step`
unfoldable pub http_quit_end : Next → Http → Run Quit
unfolding http_close
http_quit_end next_wait_rd h = quit_reading h h.forward h.rbuf
http_quit_end next_close h = quit_drop_http h
http_quit_end next_active h = returns push_active
http_quit_end next_wait_wr h = returns push_idle_wr
http_quit_end next_ignore h = aborted

unfoldable pub http_quit_step : Handlers → Http → Bytes → List Recv → List Answer → Run Quit
unfolding http_queue_step http_quit_end
http_quit_step ops h date ks net =
    http_queue_step ops h date ks net >>= λ (r : Next × Http). http_quit_end r.0 r.1
