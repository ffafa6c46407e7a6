-- ===== src/Http/Loop/Flush.antt =====
-- http.c: a client whose response is still buffered.
use cmogstored.Prelude.{
  Bytes, List, [], ◌++◌, append-nil, sym, ◌∙◌, true, Option, none, some, ◌≡◌, refl, ◌⊎◌, inl, inr,
  drop, Bool-cases, Option-cases,
}
use cmogstored.TryWrite.{
  Answer, Wbuf, WriteState, wrstate_err, wrstate_done, wrstate_busy, null, buffered, tryflush,
}
use cmogstored.TryWrite.Flush.{Accounts, tryflush-Accounts}
use cmogstored.Http.State.{
  Http, File, Next, next_close, next_active, next_wait_wr, returns, http_reset,
}
use cmogstored.Http.Loop.{http_flushed, http_wbuf_in_progress}

-- how a step of such a client ends; `all` is what the socket has once the response is out
pub data FlushEnds (all : Bytes) (h : Http) : Next → Http → Type 0 where
  still_busy :
      (h' : Http) (w : Wbuf)
      → h'.wbuf ≡ buffered w
      → h'.out ++ drop w.off w.buf ≡ all
      → h'.forward ≡ h.forward
      → FlushEnds all h next_wait_wr h'
  ready :
      (h' : Http)
      → h.persistent ≡ true
      → h'.wbuf ≡ null
      → h'.out ≡ all
      → h'.forward ≡ h.forward
      → h'.offset ≡ 0
      → FlushEnds all h next_active h'
  closes :
      (h' : Http) (lost : Bytes)
      → h'.wbuf ≡ null
      → h'.out ++ lost ≡ all
      → h'.forward ≡ h.forward
      → h'.calls ≡ h.calls
      → FlushEnds all h next_close h'

offset_zero :
    (h : Http) (f : File) → h.forward ≡ some f → (h.forward ≡ none) ⊎ (h.offset ≡ 0) → h.offset ≡ 0
offset_zero h f open_ (inl no_file) = absurd (let x : none ≡ some f = sym no_file ∙ open_ in cc)
offset_zero h f open_ (inr z) = z

http_flushed-FlushEnds :
    (all : Bytes) (h : Http) (state : WriteState) (wbuf : Option Wbuf) (out : Bytes)
    → Accounts all state wbuf out
    → (h.forward ≡ none) ⊎ (h.offset ≡ 0)
    → (n : Next) × (h' : Http) × (http_flushed h (record { state = state; wbuf = wbuf; out = out })
        ≡ returns (n, h'))
      × FlushEnds all h n h'
unfolding http_flushed http_reset
http_flushed-FlushEnds all h wrstate_err none out (lost, e) o =
    (_, _, refl, closes _ lost refl e refl refl)
http_flushed-FlushEnds all h wrstate_busy (some w) out e o =
    (_, _, refl, still_busy _ w refl e refl)
http_flushed-FlushEnds all h wrstate_done none out e o =
    let left : Http = record h { out = out; wbuf = null } in
    elim (Bool-cases h.persistent) [
      | inr once ↦
          (next_close, left, rw once refl, closes left [] refl (append-nil out ∙ e) refl refl)
      | inl keep ↦ elim (Option-cases h.forward) [
        | inl no_file ↦ (
          next_active,
          http_reset left,
          rw (keep, no_file) refl,
          ready (http_reset left) keep refl e (sym no_file) refl,
        )
        | inr (f, open_) ↦
            let z = offset_zero h f open_ o in
            (next_active, left, simp (keep, open_, z) refl, ready left keep refl e refl z)
      ]
    ]
http_flushed-FlushEnds all h wrstate_err (some w) out e o = absurd e
http_flushed-FlushEnds all h wrstate_busy none out e o = absurd e
http_flushed-FlushEnds all h wrstate_done (some w) out e o = absurd e

-- A step on a client whose response is buffered, for every answer of the kernel. Its assertion
-- on the offset holds if no file is open or the offset is 0 before. If the client waits, the rest
-- of the response is still buffered behind what was sent; if it becomes active, all was sent,
-- the client wants to keep the connection, and an open file stays open; if it is closed, a first
-- part was sent, and an open file is neither sent nor closed.
pub http_wbuf_in_progress-FlushEnds :
    (h : Http) (w : Wbuf) (ks : List Answer)
    → (h.forward ≡ none) ⊎ (h.offset ≡ 0)
    → (n : Next) × (h' : Http) × (http_wbuf_in_progress h w ks ≡ returns (n, h'))
      × FlushEnds (h.out ++ drop w.off w.buf) h n h'
unfolding http_wbuf_in_progress
http_wbuf_in_progress-FlushEnds h w ks o =
    let f = tryflush w h.out ks in
    http_flushed-FlushEnds (h.out ++ drop w.off w.buf) h f.state f.wbuf f.out
      (tryflush-Accounts w h.out ks) o
