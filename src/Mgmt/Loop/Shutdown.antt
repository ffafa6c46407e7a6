-- ===== src/Mgmt/Loop/Shutdown.antt =====
-- mgmt.c: a graceful shutdown, and the priority that a request may leave behind.
use cmogstored.Prelude.{
  ℕ, ◌+◌, ◌-◌, Bytes, List, [], ◌∷◌, ◌++◌, Bool, true, ◌≡◌, refl, ap, ◌∙◌, arith, length,
  length-append, drop, some, none, if◌then◌else◌, ◌==◌, leb, ltb,
}
use cmogstored.TryWrite.{Answer, null}
use cmogstored.ValidPath.{valid_path}
use cmogstored.Http.State.{Run, returns, aborted, ◌>>=◌, Next, next_wait_rd}
use cmogstored.Http.Loop.{dropped}
use cmogstored.Http.Put.Start.{parser_done, rbuf_base_size}
use cmogstored.Mgmt.State.{Mgmt, prio_none, prio_fsck, nothing, mgmt_reset_parser}
use cmogstored.Mgmt.Answers.{MgmtEnv, mgmt_writev, uri_invalid, eol}
use cmogstored.Mgmt.Answers.Writes.{mgmt_writev-Replies}
use cmogstored.Mgmt.Parse.{mgmt_parse, done_at}
use cmogstored.Mgmt.Checksum.{FileRead, after_write}
use cmogstored.Mgmt.Requests.{Written, ask_digest, LineEnd, serve, asks_for, missing_line, begin}
use cmogstored.Mgmt.Requests.Fresh.{IsFresh, replied, marks}
use cmogstored.Mgmt.Requests.Served.{mgmt_parse-serve}
use cmogstored.Mgmt.Loop.{
  mgmt_queue_step, wbuf_step, forward_step, mgmt_requests, rbuf_step, mgmt_read, quit_waiting,
  close_wbuf, defer_and_reset, mgmt_quit_step, quit_next, quit_ignored, quit_drop, mgmt_close,
  parser_is_done, mgmt_defer_rbuf, mgmt_keep_read, kept_rbuf,
}

-- a client that waits for a request
pub record IsIdle (m : Mgmt) : Type 0 where
  pub no_wbuf : m.wbuf ≡ null
  pub no_forward : m.forward ≡ nothing
  pub no_rbuf : m.rbuf ≡ none
  pub no_offset : m.offset ≡ 0

idle-step :
    (env : MgmtEnv) (m : Mgmt) (reads : List FileRead) (net : List Answer)
    → IsIdle m
    → mgmt_queue_step env m [] reads net ≡ returns (next_wait_rd, m)
unfolding mgmt_queue_step mgmt_requests mgmt_read mgmt_keep_read
idle-step env m reads net i =
    ap (wbuf_step env m [] reads net) i.no_wbuf
    ∙ ap (forward_step env m [] reads net) i.no_forward
    ∙ ap (λ o. if ltb o rbuf_base_size then rbuf_step env m [] net m.rbuf else aborted) i.no_offset
    ∙ ap (rbuf_step env m [] net) i.no_rbuf
    ∙ ap (λ b. returns (next_wait_rd, kept_rbuf m [] b)) i.no_rbuf

idle-waits :
    (env : MgmtEnv) (m : Mgmt) (reads : List FileRead) (net : List Answer)
    → IsIdle m
    → mgmt_quit_step env m [] reads net ≡ quit_ignored m m.prio
unfolding mgmt_quit_step quit_next
idle-waits env m reads net i =
    ap (λ (r : Run (Next × Mgmt)). r >>= λ q. quit_next q.0 q.1) (idle-step env m reads net i)
    ∙ ap (λ f. quit_waiting m f m.rbuf) i.no_forward
    ∙ ap (quit_waiting m nothing) i.no_rbuf

-- For a client that waits, a graceful shutdown aborts if it has the priority fsck, and else drops
-- the client.
quit_step-idle :
    (env : MgmtEnv) (m : Mgmt) (reads : List FileRead) (net : List Answer)
    → IsIdle m
    → (m.prio ≡ prio_none → mgmt_quit_step env m [] reads net ≡ returns dropped)
      × (m.prio ≡ prio_fsck → mgmt_quit_step env m [] reads net ≡ aborted)
unfolding quit_ignored quit_drop mgmt_close
quit_step-idle env m reads net i = (
  λ e.
      idle-waits env m reads net i
      ∙ ap (quit_ignored m) e
      ∙ ap (λ w. close_wbuf m w >>= λ m'. returns dropped) i.no_wbuf,
  λ e. idle-waits env m reads net i ∙ ap (quit_ignored m) e,
)

missing-served :
    (env : MgmtEnv) (m : Mgmt) (sha1 : Bool) (q reason : Bytes) (net : List Answer)
    → m.wbuf ≡ null
    → m.listening ≡ true
    → valid_path (b'/' ∷ q) ≡ true
    → env.open_read (b'/' ∷ q) ≡ none
    → (m' : Mgmt) × (serve env m (ask_digest sha1 q reason true) net ≡ returns m')
      × (m'.prio ≡ prio_fsck)
      × (m'.forward ≡ m.forward)
unfolding serve
missing-served env m sha1 q reason net w on valid missing =
    let path : Bytes = b'/' ∷ q in
    let m0 : Mgmt = asks_for m sha1 true in
    let (m', e, same, d) = mgmt_writev-Replies m0 (path ∷ missing_line sha1 ∷ []) net w in
    (
      m',
      ap
            (λ b.
              if b
              then begin sha1 m0 path net (env.open_read path)
              else mgmt_writev m0 (uri_invalid ∷ []) net)
            valid
          ∙ ap (begin sha1 m0 path net) missing
          ∙ e,
      ap (λ (k : Mgmt). k.prio) same ∙ ap (λ b. if b then prio_fsck else m.prio) on,
      ap (λ (k : Mgmt). k.forward) same,
    )

nothing-deferred :
    (m : Mgmt) (buf : Bytes)
    → length buf ≡ m.offset
    → defer_and_reset m buf
      ≡ returns (after_write (mgmt_reset_parser (record m { rbuf = none; offset = 0 })))
unfolding defer_and_reset mgmt_defer_rbuf
nothing-deferred m buf e =
    let z : length buf - m.offset ≡ 0 = omega arith in
    ap
      (λ d.
        (if leb d rbuf_base_size
          then returns
              (record m { rbuf = if d == 0 then none else some (drop m.offset buf); offset = 0 })
          else aborted)
        >>= λ m'. returns (after_write (mgmt_reset_parser m')))
      z

-- A request for a checksum with the reason fsck leaves that priority behind where its file cannot
-- be opened: when the request is over and its answer is written, a graceful shutdown aborts.
pub missing_fsck-quit :
    (env : MgmtEnv) (m : Mgmt) (sha1 : Bool) (q reason line eol : Bytes) (net : List Answer)
    (reads : List FileRead) (net' : List Answer) (out' : Bytes)
    → IsFresh m
    → m.forward ≡ nothing
    → m.listening ≡ true
    → Written (ask_digest sha1 q reason true) line
    → LineEnd eol
    → valid_path (b'/' ∷ q) ≡ true
    → env.open_read (b'/' ∷ q) ≡ none
    → (m1 : Mgmt) × (m2 : Mgmt) × (n : Next) × (mgmt_parse env m (line ++ (eol ++ [])) net
        ≡ returns (parser_done, m1))
      × (parser_is_done m1 (line ++ (eol ++ [])) m1.forward ≡ returns (n, m2))
      × (mgmt_quit_step env (record m2 { wbuf = null; out = out' }) [] reads net' ≡ aborted)
unfolding done_at mgmt_reset_parser after_write parser_is_done defer_and_reset
missing_fsck-quit env m sha1 q reason line eol net reads net' out' f fw on w e valid missing =
    let cmd = ask_digest sha1 q reason true in
    let buf : Bytes = line ++ (eol ++ []) in
    let n : ℕ = length line + length eol in
    let (i, j, parsed) = mgmt_parse-serve env m cmd line eol [] net f w e in
    let (m3, served, prio, fwd) =
      missing-served env (marks i j m) sha1 q reason net f.idle on valid missing in
    let m1 : Mgmt = (done_at n m3).1 in
    let m2 : Mgmt = mgmt_reset_parser (record m1 { rbuf = none; offset = 0 }) in
    let size : length buf ≡ n =
      omega (arith, length-append line (eol ++ []), length-append eol []) in
    (
      m1,
      m2,
      (after_write m2).0,
      parsed ∙ ap (replied n) served,
      ap (parser_is_done m1 buf) (fwd ∙ fw) ∙ nothing-deferred m1 buf size,
      (quit_step-idle env (record m2 { wbuf = null; out = out' }) reads net'
            (record { no_wbuf = refl; no_forward = fwd ∙ fw; no_rbuf = refl; no_offset = refl })).1
          prio,
    )
