-- ===== src/Http/Dispatch/Steps.antt =====
-- http.c: how a step of the event loop leaves a client, with the real handlers.
use cmogstored.Prelude.{
  ℕ, ◌-◌, min, Bytes, List, [], ◌∷◌, ◌++◌, false, Option, none, some, ◌≡◌, refl, ◌∙◌, if◌then◌else◌,
  inl, inr, Bool-cases, Option-cases, length, take, drop, ◌==◌, ltb, not, codes,
}
use cmogstored.TryWrite.{
  Answer, null, wr_error, buffered, WbufPtr, Wbuf, WriteState, wrstate_done, wrstate_busy,
  wrstate_err, tryflush,
}
use cmogstored.TryWrite.Flush.{Accounts, tryflush-Accounts}
use cmogstored.Http.State.{
  Http, File, Run, returns, aborted, ◌>>=◌, Next, next_close, next_active, next_wait_wr, http_reset,
  Rbuf,
}
use cmogstored.Http.Put.{
  Recv, got, would_block, recv_interrupted, recv_failed, is_buffered, is_wr_error,
}
use cmogstored.Http.Put.Start.{
  ParserState, parser_error, parser_done, parser_continue, rbuf_base_size,
}
use cmogstored.Http.Loop.{
  Handlers, ReadEnd, waits, gone, too_large, parsed, parse_step, http_read, read_end, keep_read,
  parse_error, http_processed, http_defer_rbuf, http_flushed, http_wbuf_in_progress, request_turn,
  forward_turn, wbuf_turn, http_queue_step, rbuf_grow, rbuf_holds,
}
use cmogstored.Http.Response.{http_resp}
use cmogstored.Http.Dispatch.{System, handlers}
use cmogstored.Http.Runs.{Holds, if_both}
use cmogstored.Http.Dispatch.Settled.{Settled, no_file-Settled}
use cmogstored.Http.Dispatch.Files.{LeavesSettled, handlers-LeavesSettled}

-- What the event loop relies on in the parser: it neither writes nor opens a file.
pub record OnlyParses (ops : Handlers) : Type 0 where
  pub same_wbuf : (h : Http) (buf : Bytes) → (ops.parse h buf).2.wbuf ≡ h.wbuf
  pub same_forward : (h : Http) (buf : Bytes) → (ops.parse h buf).2.forward ≡ h.forward

abbrev IsIdle : Http → Type 0
IsIdle h = (h.wbuf ≡ null) × (h.forward ≡ none)

-- a client at the end of the reads
abbrev EndsIdle : ReadEnd → Type 0
EndsIdle (waits h) = IsIdle h
EndsIdle (gone h) = IsIdle h
EndsIdle (too_large h) = IsIdle h
EndsIdle (parsed state e h buf) = IsIdle h

parse_step-EndsIdle :
    (ops : Handlers) (h : Http) (rcapa : ℕ) (buf : Bytes) (reread : Http → ℕ → ReadEnd)
    → OnlyParses ops
    → IsIdle h
    → ((h2 : Http) (c : ℕ) → IsIdle h2 → EndsIdle (reread h2 c))
    → EndsIdle (parse_step ops h rcapa buf reread)
unfolding parse_step
parse_step-EndsIdle ops h rcapa buf reread p (w, f) each =
    go (ops.parse h buf).0 (p.same_wbuf h buf ∙ w, p.same_forward h buf ∙ f)
  where
    go :
        (state : ParserState)
        → IsIdle (ops.parse h buf).2
        → EndsIdle (elim state as (λ x. ReadEnd) [
          | parser_error ↦ parsed parser_error (ops.parse h buf).1 (ops.parse h buf).2 buf
          | parser_done ↦ parsed parser_done (ops.parse h buf).1 (ops.parse h buf).2 buf
          | parser_continue ↦
              let h' = (ops.parse h buf).2 in
              if ltb h'.offset rcapa then reread h' rcapa else elim (rbuf_grow rcapa (length buf)) [
                | none ↦ too_large (record h' { rbuf = none })
                | some c ↦ reread (record h' { rbuf = some (record { rcapa = c; rptr = buf }) }) c
              ]
        ])
    go parser_error i = i
    go parser_done i = i
    go parser_continue i = elim (Bool-cases (ltb (ops.parse h buf).2.offset rcapa)) [
      | inl room ↦ rw room (each (ops.parse h buf).2 rcapa i)
      | inr full ↦ elim (Option-cases (rbuf_grow rcapa (length buf))) [
        | inl large ↦ rw (full, large) i
        | inr (c, grown) ↦ rw (full, grown) (each _ c i)
      ]
    ]

keep_read-IsIdle : (h : Http) (rcapa : ℕ) (buf : Bytes) → IsIdle h → IsIdle (keep_read h rcapa buf)
unfolding keep_read
keep_read-IsIdle h rcapa buf i = if_both IsIdle (length buf == 0) h _ i i

http_read-EndsIdle :
    (ops : Handlers) (h : Http) (rcapa : ℕ) (buf : Bytes) (ks : List Recv)
    → OnlyParses ops
    → IsIdle h
    → EndsIdle (http_read ops h rcapa buf ks)
unfolding http_read
http_read-EndsIdle ops h rcapa buf [] p i = keep_read-IsIdle h rcapa buf i
http_read-EndsIdle ops h rcapa buf (would_block ∷ ks) p i = keep_read-IsIdle h rcapa buf i
http_read-EndsIdle ops h rcapa buf (recv_interrupted ∷ ks) p i =
    http_read-EndsIdle ops h rcapa buf ks p i
http_read-EndsIdle ops h rcapa buf (recv_failed ∷ ks) p i = i
http_read-EndsIdle ops h rcapa buf (got n ∷ ks) p i =
    let chunk = take (min n (rcapa - h.offset)) h.input in
    let h' : Http = record h { input = drop (length chunk) h.input } in
    let buf' = take h.offset buf ++ chunk in
    if_both EndsIdle (length chunk == 0) (gone h)
      (parse_step ops h' rcapa buf' (λ h2 c. http_read ops h2 c buf' ks)) i
      (parse_step-EndsIdle ops h' rcapa buf' _ p i
        (λ h2 c j. http_read-EndsIdle ops h2 c buf' ks p j))

defer-wbuf : (h : Http) (buf : Bytes) → (http_defer_rbuf h buf).wbuf ≡ h.wbuf
unfolding http_defer_rbuf
defer-wbuf h buf = if_both (λ (x : Http). x.wbuf ≡ h.wbuf) h.skip_rbuf_defer _ _ refl refl

processed-Settled :
    (ops : Handlers) (h : Http) (buf : Bytes)
    → LeavesSettled ops
    → Holds Settled (http_processed ops h buf)
unfolding http_processed http_reset
processed-Settled ops h buf l = go h.wbuf h.forward refl
  where
    go :
        (p : WbufPtr) (o : Option File)
        → h.wbuf ≡ p
        → Holds Settled (
            if is_wr_error p
            then returns (next_close, h)
            else if is_buffered p
            then returns (next_wait_wr, http_defer_rbuf h buf)
            else elim o as (λ x. Run (Next × Http)) [
              | some f ↦ ops.forward_in_progress (http_defer_rbuf h buf)
              | none ↦
                  if not h.persistent
                  then returns (next_close, h)
                  else returns (next_active, http_reset (http_defer_rbuf h buf))
            ])
    go wr_error o e = inr (inl e)
    go (buffered w) o e = inl (w, defer-wbuf h buf ∙ e)
    go null (some f) e = l (http_defer_rbuf h buf) (defer-wbuf h buf ∙ e)
    go null none e = if_both (Holds Settled) (not h.persistent) _ _ (inl e) refl

run-Settled :
    (ops : Handlers) (r : Run Http) (buf : Bytes)
    → LeavesSettled ops
    → Holds Settled (do h' ← r; http_processed ops h' buf)
run-Settled ops (returns h) buf l = processed-Settled ops h buf l
run-Settled ops aborted buf l = tt

-- the response to a request that is refused
refused-Settled :
    (h : Http) (status date : Bytes) (net : List Answer)
    → h.forward ≡ none
    → Settled (next_close, http_resp h status false date net)
unfolding http_resp
refused-Settled h status date net f = no_file-Settled (http_resp h status false date net) f

read_end-Settled :
    (ops : Handlers) (date : Bytes) (net : List Answer) (r : ReadEnd)
    → LeavesSettled ops
    → EndsIdle r
    → Holds Settled (read_end ops date net r)
unfolding read_end parse_error
read_end-Settled ops date net (waits h) l (w, f) = w
read_end-Settled ops date net (gone h) l (w, f) = inl w
read_end-Settled ops date net (too_large h) l (w, f) =
    refused-Settled h (codes "400 Bad Request") date net f
read_end-Settled ops date net (parsed parser_error e h buf) l (w, f) =
    refused-Settled h _ date net f
read_end-Settled ops date net (parsed parser_done e h buf) l i =
    run-Settled ops (ops.process_client h buf) buf l
read_end-Settled ops date net (parsed parser_continue e h buf) l i =
    run-Settled ops (ops.process_client h buf) buf l

flushed-Settled :
    (all : Bytes) (h : Http) (state : WriteState) (wbuf : Option Wbuf) (out : Bytes)
    → Accounts all state wbuf out
    → Holds Settled (http_flushed h (record { state = state; wbuf = wbuf; out = out }))
unfolding http_flushed http_reset
flushed-Settled all h wrstate_err none out a = inl refl
flushed-Settled all h wrstate_err (some w) out a = absurd a
flushed-Settled all h wrstate_busy (some w) out a = inl (w, refl)
flushed-Settled all h wrstate_busy none out a = absurd a
flushed-Settled all h wrstate_done (some w) out a = absurd a
flushed-Settled all h wrstate_done none out a =
    let left : Http = record h { out = out; wbuf = null } in
    let next : Http = elim h.forward [ none ↦ http_reset left | some file ↦ left ] in
    let empty : next.wbuf ≡ null = elim (Option-cases h.forward) [
      | inl o ↦ rw o refl
      | inr (f, o) ↦ rw o refl
    ] in
    if_both (Holds Settled) (not h.persistent) (returns (next_close, left))
      (if next.offset == 0 then returns (next_active, next) else aborted) (inl refl)
      (if_both (Holds Settled) (next.offset == 0) (returns (next_active, next)) aborted empty tt)

request-Settled :
    (ops : Handlers) (h : Http) (date : Bytes) (ks : List Recv) (net : List Answer)
    (o : Option Rbuf)
    → OnlyParses ops
    → LeavesSettled ops
    → IsIdle h
    → Holds Settled (request_turn ops h date ks net o)
unfolding request_turn
request-Settled ops h date ks net none p l i =
    if_both (Holds Settled) (ltb h.offset rbuf_base_size) _ aborted
      (read_end-Settled ops date net (http_read ops h rbuf_base_size [] ks) l
        (http_read-EndsIdle ops h rbuf_base_size [] ks p i))
      tt
request-Settled ops h date ks net (some r) p l i =
    if_both (Holds Settled) (rbuf_holds h r) _ aborted
      (read_end-Settled ops date net _ l (
        if_both EndsIdle (ltb h.offset (length r.rptr)) _ _
          (parse_step-EndsIdle ops h r.rcapa r.rptr _ p i
            (λ h2 c j. http_read-EndsIdle ops h2 c r.rptr ks p j))
          (http_read-EndsIdle ops h r.rcapa r.rptr ks p i)))
      tt

-- Every step of the event loop leaves its client in a state that fits where it goes, whatever the
-- request is and the system answers. So no response waits in a buffer while the client waits for a
-- request, and none waits for the socket without bytes for it. It holds of every parser that
-- neither writes nor opens a file.
pub http_queue_step-Settled :
    (sys : System) (h : Http) (date : Bytes) (ks : List Recv) (net : List Answer)
    → OnlyParses (handlers sys)
    → Holds Settled (http_queue_step (handlers sys) h date ks net)
unfolding http_queue_step wbuf_turn forward_turn http_wbuf_in_progress
http_queue_step-Settled sys h date ks net p = go h.wbuf h.forward refl refl
  where
    go :
        (q : WbufPtr) (o : Option File)
        → h.wbuf ≡ q
        → h.forward ≡ o
        → Holds Settled (elim q as (λ x. Run (Next × Http)) [
          | wr_error ↦ aborted
          | buffered w ↦ http_wbuf_in_progress h w net
          | null ↦ forward_turn (handlers sys) h date ks net o
        ])
    go wr_error o e f = tt
    go (buffered w) o e f =
        let r = tryflush w h.out net in
        flushed-Settled _ h r.state r.wbuf r.out (tryflush-Accounts w h.out net)
    go null (some f) e o = handlers-LeavesSettled sys h e
    go null none e o =
        request-Settled (handlers sys) h date ks net h.rbuf p (handlers-LeavesSettled sys) (e, o)
