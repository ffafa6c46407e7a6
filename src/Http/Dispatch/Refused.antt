-- ===== src/Http/Dispatch/Refused.antt =====
-- http.c: a request that is refused while the socket is full.
use cmogstored.Prelude.{if◌then◌else◌, [], Bytes, List, none, ltb, true, ◌≡◌, ap, ◌∙◌}
use cmogstored.TryWrite.{Answer, WbufPtr, null, buffered, Wbuf}
use cmogstored.Http.State.{Http, Errno, Run, returns, aborted, ◌>>=◌, Next, next_close}
use cmogstored.Http.Put.{Recv}
use cmogstored.Http.Put.Start.{parser_error, rbuf_base_size}
use cmogstored.Http.Loop.{
  Handlers, parsed, http_read, read_end, parse_error, request_turn, forward_turn, wbuf_turn,
  http_queue_step, http_close, http_step_end, http_step,
}

-- A new client sends what is no request, and the socket does not take all of the response to it.
-- Then the connection is closed at once, the assertion that nothing is buffered fails, and the
-- process aborts.
pub http_step-parse_error :
    (ops : Handlers) (h h' : Http) (date buf : Bytes) (ks : List Recv) (net : List Answer)
    (e : Errno) (w : Wbuf)
    → h.wbuf ≡ null
    → h.forward ≡ none
    → h.rbuf ≡ none
    → ltb h.offset rbuf_base_size ≡ true
    → http_read ops h rbuf_base_size [] ks ≡ parsed parser_error e h' buf
    → (parse_error h' e date net).1.wbuf ≡ buffered w
    → http_step ops h date ks net ≡ aborted
unfolding http_step http_queue_step wbuf_turn forward_turn request_turn read_end http_step_end
    http_close parse_error
http_step-parse_error ops h h' date buf ks net e w idle no_file no_rbuf room read full =
    let end_ : Next × Http → Run (Next × Http) = λ r. http_step_end r.0 r.1 in
    ap (λ p. wbuf_turn ops h date ks net p >>= end_) idle
    ∙ ap (λ o. forward_turn ops h date ks net o >>= end_) no_file
    ∙ ap (λ r. request_turn ops h date ks net r >>= end_) no_rbuf
    ∙ ap
        (λ b.
          (if b then read_end ops date net (http_read ops h rbuf_base_size [] ks) else aborted)
          >>= end_)
        room
    ∙ ap (λ r. read_end ops date net r >>= end_) read
    ∙ ap
        (λ (p : WbufPtr).
          http_close (parse_error h' e date net).1 p >>= λ k. returns (next_close, k))
        full
