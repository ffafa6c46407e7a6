-- ===== src/Mgmt/Loop/Settled.antt =====
-- mgmt.c: how a step of the event loop leaves a client of the sidechannel.
use cmogstored.Prelude.{
  ◌-◌, min, Bytes, List, [], ◌∷◌, ◌++◌, Option, none, some, ◌≡◌, refl, sym, ◌∙◌, inl, inr, length,
  take, drop, ◌==◌, ltb, if◌then◌else◌,
}
use cmogstored.TryWrite.{
  Answer, WbufPtr, null, wr_error, buffered, Wbuf, WriteState, wrstate_err, wrstate_done,
  wrstate_busy, tryflush,
}
use cmogstored.TryWrite.Flush.{Accounts, tryflush-Accounts}
use cmogstored.Http.State.{
  Run, returns, aborted, ◌>>=◌, Next, next_close, next_active, next_wait_rd, next_wait_wr,
  next_ignore,
}
use cmogstored.Http.Runs.{Holds, Holds-bind, if_both}
use cmogstored.Http.Put.{Recv, got, would_block, recv_interrupted, recv_failed}
use cmogstored.Http.Put.Start.{
  ParserState, parser_error, parser_done, parser_continue, rbuf_base_size,
}
use cmogstored.Mgmt.State.{Mgmt, Forward, nothing, iostat, file, mgmt_reset_parser}
use cmogstored.Mgmt.Answers.{MgmtEnv}
use cmogstored.Mgmt.Parse.{mgmt_parse}
use cmogstored.Mgmt.Checksum.{FileRead, mgmt_digest_in_progress, after_write}
use cmogstored.Mgmt.Parse.Taken.{IsFree, IsTaken, IsParsed, parse-IsParsed}
use cmogstored.Mgmt.Loop.{
  mgmt_iostat_forever, to_iostat, mgmt_wbuf_in_progress, mgmt_defer_rbuf, defer_and_reset,
  parser_is_done, parser_goes_on, parsed_step, mgmt_parse_step, kept_rbuf, mgmt_keep_read,
  mgmt_read, rbuf_step, mgmt_requests, forward_step, wbuf_step, mgmt_queue_step, mgmt_close,
  close_wbuf, step_closing, mgmt_step,
}
use cmogstored.Mgmt.Checksum.Settled.{Settled, after_write-Settled, ready-Settled}

defer-Settled : (m : Mgmt) (buf : Bytes) → Holds Settled (defer_and_reset m buf)
unfolding defer_and_reset
defer-Settled m buf = go (mgmt_defer_rbuf m buf)
  where
    go : (r : Run Mgmt) → Holds Settled (do m' ← r; returns (after_write (mgmt_reset_parser m')))
    go (returns m') = after_write-Settled (mgmt_reset_parser m')
    go aborted = tt

done-Settled :
    (m : Mgmt) (buf : Bytes) (f : Forward)
    → m.forward ≡ f
    → IsTaken m
    → Holds Settled (parser_is_done m buf f)
unfolding parser_is_done mgmt_iostat_forever
done-Settled m buf nothing e i = defer-Settled m buf
done-Settled m buf (file s) e i = defer-Settled m buf
done-Settled m buf iostat e (inl w) = w
done-Settled m buf iostat e (inr n) = absurd (let x : nothing ≡ iostat = sym n ∙ e in cc)

on-Settled :
    (m : Mgmt) (buf : Bytes) (reread : Mgmt → Run (Next × Mgmt))
    → IsFree m
    → ((m' : Mgmt) → IsFree m' → Holds Settled (reread m'))
    → Holds Settled (parser_goes_on m buf reread)
unfolding parser_goes_on
on-Settled m buf reread i each = go m.wbuf
  where
    go :
        (p : WbufPtr)
        → Holds Settled (elim p as (λ x. Run (Next × Mgmt)) [
          | null ↦
              if m.offset == rbuf_base_size
              then (if length buf == rbuf_base_size then returns (next_close, m) else aborted)
              else reread m
          | wr_error ↦ aborted
          | buffered w ↦ aborted
        ])
    go null =
        if_both (Holds Settled) (m.offset == rbuf_base_size) _ (reread m)
          (if_both (Holds Settled) (length buf == rbuf_base_size) (returns (next_close, m)) aborted
            (inl i.0) tt)
          (each m i)
    go wr_error = tt
    go (buffered w) = tt

parsed-Settled :
    (buf : Bytes) (reread : Mgmt → Run (Next × Mgmt)) (r : ParserState × Mgmt)
    → IsParsed r
    → ((m : Mgmt) → IsFree m → Holds Settled (reread m))
    → Holds Settled (parsed_step buf reread r)
unfolding parsed_step
parsed-Settled buf reread (state, m) i each = go m.wbuf refl
  where
    on : Run (Next × Mgmt)
    on = elim state [
      | parser_error ↦ returns (next_close, m)
      | parser_continue ↦ parser_goes_on m buf reread
      | parser_done ↦ parser_is_done m buf m.forward
    ]

    on-Settled_all :
        (s : ParserState)
        → IsParsed (s, m)
        → Holds Settled (elim s as (λ x. Run (Next × Mgmt)) [
          | parser_error ↦ returns (next_close, m)
          | parser_continue ↦ parser_goes_on m buf reread
          | parser_done ↦ parser_is_done m buf m.forward
        ])
    on-Settled_all parser_error (w, f) = inl w
    on-Settled_all parser_continue j = on-Settled m buf reread j each
    on-Settled_all parser_done j = done-Settled m buf m.forward refl j

    go :
        (p : WbufPtr)
        → m.wbuf ≡ p
        → Holds Settled (elim p as (λ x. Run (Next × Mgmt)) [
          | null ↦ on
          | wr_error ↦ returns (next_close, m)
          | buffered w ↦ on
        ])
    go null e = on-Settled_all state i
    go wr_error e = inr e
    go (buffered w) e = on-Settled_all state i

step-Settled :
    (env : MgmtEnv) (net : List Answer) (m : Mgmt) (buf : Bytes) (reread : Mgmt → Run (Next × Mgmt))
    → IsFree m
    → ((m' : Mgmt) → IsFree m' → Holds Settled (reread m'))
    → Holds Settled (mgmt_parse_step env net m buf reread)
unfolding mgmt_parse_step
step-Settled env net m buf reread i each =
    Holds-bind IsParsed Settled (mgmt_parse env m buf net) (parsed_step buf reread)
      (parse-IsParsed env m buf net i) (λ r j. parsed-Settled buf reread r j each)

kept_rbuf-wbuf : (m : Mgmt) (buf : Bytes) (o : Option Bytes) → (kept_rbuf m buf o).wbuf ≡ m.wbuf
unfolding kept_rbuf
kept_rbuf-wbuf m buf (some b) = refl
kept_rbuf-wbuf m buf none = if_both (λ (k : Mgmt). k.wbuf ≡ m.wbuf) (length buf == 0) m _ refl refl

read-Settled :
    (env : MgmtEnv) (net : List Answer) (m : Mgmt) (buf : Bytes) (ks : List Recv)
    → IsFree m
    → Holds Settled (mgmt_read env net m buf ks)
unfolding mgmt_read mgmt_keep_read
read-Settled env net m buf [] i = kept_rbuf-wbuf m buf m.rbuf ∙ i.0
read-Settled env net m buf (would_block ∷ ks) i = kept_rbuf-wbuf m buf m.rbuf ∙ i.0
read-Settled env net m buf (recv_interrupted ∷ ks) i = read-Settled env net m buf ks i
read-Settled env net m buf (recv_failed ∷ ks) i = inl i.0
read-Settled env net m buf (got n ∷ ks) i =
    let chunk = take (min n (rbuf_base_size - m.offset)) m.input in
    let m' : Mgmt = record m { input = drop (length chunk) m.input } in
    let buf' = take m.offset buf ++ chunk in
    if_both (Holds Settled) (length chunk == 0) (returns (next_close, m'))
      (mgmt_parse_step env net m' buf' (λ m2. mgmt_read env net m2 buf' ks)) (inl i.0)
      (step-Settled env net m' buf' _ i (λ m2 j. read-Settled env net m2 buf' ks j))

rbuf-Settled :
    (env : MgmtEnv) (m : Mgmt) (ks : List Recv) (net : List Answer) (o : Option Bytes)
    → IsFree m
    → Holds Settled (rbuf_step env m ks net o)
unfolding rbuf_step
rbuf-Settled env m ks net none i = read-Settled env net m [] ks i
rbuf-Settled env m ks net (some buf) i =
    if_both (Holds Settled) (m.offset == 0)
      (mgmt_parse_step env net m buf (λ m2. mgmt_read env net m2 buf ks))
      (mgmt_read env net m buf ks)
      (step-Settled env net m buf _ i (λ m2 j. read-Settled env net m2 buf ks j))
      (read-Settled env net m buf ks i)

forward-Settled :
    (env : MgmtEnv) (m : Mgmt) (ks : List Recv) (reads : List FileRead) (net : List Answer)
    (f : Forward)
    → m.forward ≡ f
    → m.wbuf ≡ null
    → Holds Settled (forward_step env m ks reads net f)
unfolding forward_step mgmt_requests mgmt_digest_in_progress
forward-Settled env m ks reads net nothing f w =
    if_both (Holds Settled) (ltb m.offset rbuf_base_size) (rbuf_step env m ks net m.rbuf) aborted
      (rbuf-Settled env m ks net m.rbuf (w, f)) tt
forward-Settled env m ks reads net iostat f w = tt
forward-Settled env m ks reads net (file s) f w = ready-Settled env m s reads net m.prio w

iostat-Settled : (m : Mgmt) → m.wbuf ≡ null → Settled (to_iostat m (next_active, m))
unfolding mgmt_iostat_forever
iostat-Settled m e = go m.forward
  where
    go :
        (f : Forward)
        → Settled (elim f as (λ x. Next × Mgmt) [
          | nothing ↦ (next_active, m)
          | iostat ↦ mgmt_iostat_forever m
          | file s ↦ (next_active, m)
        ])
    go nothing = e
    go iostat = e
    go (file s) = e

wbuf-Settled : (m : Mgmt) (w : Wbuf) (net : List Answer) → Settled (mgmt_wbuf_in_progress m w net)
unfolding mgmt_wbuf_in_progress mgmt_iostat_forever
wbuf-Settled m w net =
    let f = tryflush w m.out net in go f.state f.wbuf f.out (tryflush-Accounts w m.out net)
  where
    flushed : Option Wbuf → Bytes → Mgmt
    flushed wbuf out = record m {
      out = out;
      wbuf = elim wbuf [ none ↦ null | some w' ↦ buffered w' ];
    }

    go :
        (state : WriteState) (wbuf : Option Wbuf) (out : Bytes)
        → Accounts (m.out ++ drop w.off w.buf) state wbuf out
        → Settled (elim state as (λ x. Next × Mgmt) [
          | wrstate_err ↦ (next_close, flushed wbuf out)
          | wrstate_done ↦ to_iostat (flushed wbuf out) (next_active, flushed wbuf out)
          | wrstate_busy ↦ (next_wait_wr, flushed wbuf out)
        ])
    go wrstate_err none out a = inl refl
    go wrstate_err (some w') out a = absurd a
    go wrstate_busy (some w') out a = (w', refl)
    go wrstate_busy none out a = absurd a
    go wrstate_done (some w') out a = absurd a
    go wrstate_done none out a = iostat-Settled (flushed none out) refl

queue-Settled :
    (env : MgmtEnv) (m : Mgmt) (ks : List Recv) (reads : List FileRead) (net : List Answer)
    (p : WbufPtr)
    → m.wbuf ≡ p
    → Holds Settled (wbuf_step env m ks reads net p)
unfolding wbuf_step
queue-Settled env m ks reads net null e = forward-Settled env m ks reads net m.forward refl e
queue-Settled env m ks reads net wr_error e = tt
queue-Settled env m ks reads net (buffered w) e = wbuf-Settled m w net

closing-returns : (r : Run (Next × Mgmt)) → Holds Settled r → (do k ← r; step_closing k.0 k.1) ≡ r
unfolding step_closing mgmt_close close_wbuf
closing-returns aborted h = refl
closing-returns (returns (next_active, m)) h = refl
closing-returns (returns (next_wait_rd, m)) h = refl
closing-returns (returns (next_wait_wr, m)) h = refl
closing-returns (returns (next_ignore, m)) h = refl
closing-returns (returns (next_close, m)) (inl e) = rw e refl
closing-returns (returns (next_close, m)) (inr e) = rw e refl

-- Every step of the event loop leaves a client of the sidechannel in a state that fits where it
-- goes, whatever the requests are and the system answers. So no answer waits in a buffer while the
-- client waits for a request, none waits for the socket without bytes for it, and the assertion at
-- the close of a client, that nothing is buffered, never fails.
pub mgmt_step-Settled :
    (env : MgmtEnv) (m : Mgmt) (ks : List Recv) (reads : List FileRead) (net : List Answer)
    → Holds Settled (mgmt_queue_step env m ks reads net)
      × (mgmt_step env m ks reads net ≡ mgmt_queue_step env m ks reads net)
unfolding mgmt_step mgmt_queue_step
mgmt_step-Settled env m ks reads net =
    let settled = queue-Settled env m ks reads net m.wbuf refl in
    (settled, closing-returns (mgmt_queue_step env m ks reads net) settled)
