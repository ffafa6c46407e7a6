-- ===== src/Mgmt/Loop.antt =====
-- mgmt.c: the event loop's step for a client of the sidechannel.
pub mod Settled
pub mod Shutdown
use cmogstored.Prelude.{
  ℕ, ◌+◌, ◌-◌, min, Bytes, List, [], ◌∷◌, ◌++◌, Bool, Option, none, some, ltb, leb, ◌==◌,
  if◌then◌else◌, length, take, drop,
}
use cmogstored.TryWrite.{
  Answer, WbufPtr, null, wr_error, buffered, Wbuf, WriteState, wrstate_err, wrstate_done,
  wrstate_busy, Flushed, tryflush,
}
use cmogstored.Http.State.{
  Run, returns, aborted, ◌>>=◌, Next, next_close, next_active, next_wait_rd, next_wait_wr,
  next_ignore,
}
use cmogstored.Http.Loop.{Quit, push_idle_rd, push_idle_wr, push_active, dropped}
use cmogstored.Http.Put.{Recv, got, would_block, recv_interrupted, recv_failed}
use cmogstored.Http.Put.Start.{
  ParserState, parser_error, parser_done, parser_continue, rbuf_base_size,
}
use cmogstored.Mgmt.State.{
  Mgmt, Prio, prio_none, prio_fsck, Forward, nothing, iostat, file, device_refresh, subscribed,
  mgmt_reset_parser,
}
use cmogstored.Mgmt.Answers.{MgmtEnv}
use cmogstored.Mgmt.Parse.{mgmt_parse}
use cmogstored.Mgmt.Checksum.{FileRead, mgmt_digest_in_progress, after_write}

-- `mgmt_iostat_forever`
unfoldable pub mgmt_iostat_forever : Mgmt → Next × Mgmt
mgmt_iostat_forever m =
    (next_ignore, record m { rbuf = none; calls = m.calls ++ (device_refresh ∷ subscribed ∷ []) })

abbrev pub to_iostat : Mgmt → (Next × Mgmt) → Next × Mgmt
to_iostat m other = elim m.forward [
  | nothing ↦ other
  | iostat ↦ mgmt_iostat_forever m
  | file s ↦ other
]

-- `mgmt_wbuf_in_progress`
unfoldable pub mgmt_wbuf_in_progress : Mgmt → Wbuf → List Answer → Next × Mgmt
unfolding mgmt_iostat_forever
mgmt_wbuf_in_progress m w net =
    let f = tryflush w m.out net in
    let m' = record m { out = f.out; wbuf = elim f.wbuf [ none ↦ null | some w' ↦ buffered w' ] } in
    elim f.state [
      | wrstate_err ↦ (next_close, m')
      | wrstate_done ↦ to_iostat m' (next_active, m')
      | wrstate_busy ↦ (next_wait_wr, m')
    ]

-- `mgmt_defer_rbuf`, with the assertion "defer bytes overflow"; `buf` is what was read
unfoldable pub mgmt_defer_rbuf : Mgmt → Bytes → Run Mgmt
mgmt_defer_rbuf m buf =
    let defer_bytes = length buf - m.offset in
    if leb defer_bytes rbuf_base_size
    then returns (record m {
      rbuf = if defer_bytes == 0 then none else some (drop m.offset buf);
      offset = 0;
    })
    else aborted

-- MOG_PARSER_DONE, given mgmt->forward
unfoldable pub defer_and_reset : Mgmt → Bytes → Run (Next × Mgmt)
unfolding mgmt_defer_rbuf after_write mgmt_reset_parser
defer_and_reset m buf = do m' ← mgmt_defer_rbuf m buf; returns (after_write (mgmt_reset_parser m'))

unfoldable pub parser_is_done : Mgmt → Bytes → Forward → Run (Next × Mgmt)
unfolding defer_and_reset mgmt_iostat_forever
parser_is_done m buf nothing = defer_and_reset m buf
parser_is_done m buf iostat = returns (mgmt_iostat_forever m)
parser_is_done m buf (file s) = defer_and_reset m buf

-- MOG_PARSER_CONTINUE, with its assertions; `reread` goes on
unfoldable pub parser_goes_on : Mgmt → Bytes → (Mgmt → Run (Next × Mgmt)) → Run (Next × Mgmt)
parser_goes_on m buf reread = elim m.wbuf [
  | null ↦
      if m.offset == rbuf_base_size
      then (if length buf == rbuf_base_size then returns (next_close, m) else aborted)
      else reread m
  | wr_error ↦ aborted
  | buffered w ↦ aborted
]

-- from `parse:` on
unfoldable pub parsed_step :
    Bytes → (Mgmt → Run (Next × Mgmt)) → ParserState × Mgmt → Run (Next × Mgmt)
unfolding parser_is_done parser_goes_on
parsed_step buf reread (state, m) =
    let go_on : Run (Next × Mgmt) = elim state [
      | parser_error ↦ returns (next_close, m)
      | parser_continue ↦ parser_goes_on m buf reread
      | parser_done ↦ parser_is_done m buf m.forward
    ] in
    elim m.wbuf [ null ↦ go_on | wr_error ↦ returns (next_close, m) | buffered w ↦ go_on ]

unfoldable pub mgmt_parse_step :
    MgmtEnv → List Answer → Mgmt → Bytes → (Mgmt → Run (Next × Mgmt)) → Run (Next × Mgmt)
unfolding parsed_step mgmt_parse
mgmt_parse_step env net m buf reread = mgmt_parse env m buf net >>= parsed_step buf reread

-- EAGAIN, given mgmt->rbuf: what was read stays with the client. `buf` is empty before the first
-- read.
unfoldable pub kept_rbuf : Mgmt → Bytes → Option Bytes → Mgmt
kept_rbuf m buf (some b) = record m { rbuf = some buf }
kept_rbuf m buf none = if length buf == 0 then m else record m { rbuf = some buf }

unfoldable pub mgmt_keep_read : Mgmt → Bytes → Mgmt
unfolding kept_rbuf
mgmt_keep_read m buf = kept_rbuf m buf m.rbuf

-- From `reread:`; the buffer holds `buf` up to the offset. After its last answer the socket blocks.
unfoldable pub mgmt_read : MgmtEnv → List Answer → Mgmt → Bytes → List Recv → Run (Next × Mgmt)
unfolding mgmt_parse_step mgmt_keep_read
mgmt_read env net m buf [] = returns (next_wait_rd, mgmt_keep_read m buf)
mgmt_read env net m buf (would_block ∷ ks) = returns (next_wait_rd, mgmt_keep_read m buf)
mgmt_read env net m buf (recv_interrupted ∷ ks) = mgmt_read env net m buf ks
mgmt_read env net m buf (recv_failed ∷ ks) = returns (next_close, m)
mgmt_read env net m buf (got n ∷ ks) =
    let chunk = take (min n (rbuf_base_size - m.offset)) m.input in
    let m' = record m { input = drop (length chunk) m.input } in
    let buf' = take m.offset buf ++ chunk in
    if length chunk == 0
    then returns (next_close, m')
    else mgmt_parse_step env net m' buf' (λ m2. mgmt_read env net m2 buf' ks)

-- the part of `mgmt_queue_step` behind its first tests, given mgmt->rbuf
unfoldable pub rbuf_step :
    MgmtEnv → Mgmt → List Recv → List Answer → Option Bytes → Run (Next × Mgmt)
unfolding mgmt_read mgmt_parse_step
rbuf_step env m ks net none = mgmt_read env net m [] ks
rbuf_step env m ks net (some buf) =
    if m.offset == 0
    then mgmt_parse_step env net m buf (λ m2. mgmt_read env net m2 buf ks)
    else mgmt_read env net m buf ks

-- and its assertion "offset is too big"
unfoldable pub mgmt_requests : MgmtEnv → Mgmt → List Recv → List Answer → Run (Next × Mgmt)
unfolding rbuf_step
mgmt_requests env m ks net =
    if ltb m.offset rbuf_base_size then rbuf_step env m ks net m.rbuf else aborted

-- without a write buffer, given mgmt->forward
unfoldable pub forward_step :
    MgmtEnv → Mgmt → List Recv → List FileRead → List Answer → Forward → Run (Next × Mgmt)
unfolding mgmt_requests mgmt_digest_in_progress
forward_step env m ks reads net nothing = mgmt_requests env m ks net
forward_step env m ks reads net iostat = mgmt_digest_in_progress env m reads net iostat
forward_step env m ks reads net (file s) = mgmt_digest_in_progress env m reads net (file s)

-- given mgmt->wbuf, with the assertion "still active after write error"
unfoldable pub wbuf_step :
    MgmtEnv → Mgmt → List Recv → List FileRead → List Answer → WbufPtr → Run (Next × Mgmt)
unfolding forward_step mgmt_wbuf_in_progress
wbuf_step env m ks reads net wr_error = aborted
wbuf_step env m ks reads net (buffered w) = returns (mgmt_wbuf_in_progress m w net)
wbuf_step env m ks reads net null = forward_step env m ks reads net m.forward

-- `mgmt_queue_step`
unfoldable pub mgmt_queue_step :
    MgmtEnv → Mgmt → List Recv → List FileRead → List Answer → Run (Next × Mgmt)
unfolding wbuf_step
mgmt_queue_step env m ks reads net = wbuf_step env m ks reads net m.wbuf

-- `mgmt_close`, given mgmt->wbuf, with the assertion "would leak mgmt->wbuf on close"
unfoldable pub close_wbuf : Mgmt → WbufPtr → Run Mgmt
close_wbuf m null = returns m
close_wbuf m wr_error = returns m
close_wbuf m (buffered w) = aborted

unfoldable pub mgmt_close : Mgmt → Run Mgmt
unfolding close_wbuf
mgmt_close m = close_wbuf m m.wbuf

unfoldable pub step_closing : Next → Mgmt → Run (Next × Mgmt)
unfolding mgmt_close
step_closing next_close m = do m' ← mgmt_close m; returns (next_close, m')
step_closing n m = returns (n, m)

-- `mog_mgmt_queue_step`
unfoldable pub mgmt_step :
    MgmtEnv → Mgmt → List Recv → List FileRead → List Answer → Run (Next × Mgmt)
unfolding mgmt_queue_step step_closing
mgmt_step env m ks reads net = do r ← mgmt_queue_step env m ks reads net; step_closing r.0 r.1

-- `mog_mgmt_quit_step` where a client is dropped
unfoldable pub quit_drop : Mgmt → Run Quit
unfolding mgmt_close
quit_drop m = do m' ← mgmt_close m; returns dropped

-- the assertion "bad prio", for a client that only waits
unfoldable pub quit_ignored : Mgmt → Prio → Run Quit
unfolding quit_drop
quit_ignored m prio_none = quit_drop m
quit_ignored m prio_fsck = aborted

-- MOG_NEXT_WAIT_RD: something is in progress where there is a file or a read buffer
unfoldable pub quit_waiting : Mgmt → Forward → Option Bytes → Run Quit
unfolding quit_ignored
quit_waiting m nothing none = quit_ignored m m.prio
quit_waiting m nothing (some b) = returns push_idle_rd
quit_waiting m iostat rbuf = returns push_idle_rd
quit_waiting m (file s) rbuf = returns push_idle_rd

-- where the step sends a client during a graceful shutdown
unfoldable pub quit_next : Next → Mgmt → Run Quit
unfolding quit_waiting quit_drop
quit_next next_wait_rd m = quit_waiting m m.forward m.rbuf
quit_next next_ignore m = quit_ignored m m.prio
quit_next next_close m = quit_drop m
quit_next next_active m = returns push_active
quit_next next_wait_wr m = returns push_idle_wr

-- `mog_mgmt_quit_step`
unfoldable pub mgmt_quit_step : MgmtEnv → Mgmt → List Recv → List FileRead → List Answer → Run Quit
unfolding mgmt_queue_step quit_next
mgmt_quit_step env m ks reads net = do r ← mgmt_queue_step env m ks reads net; quit_next r.0 r.1
