-- ===== src/TryWrite.antt =====
-- trywrite.c: the write buffer of a client, and the loops over write(2), writev(2) and send(2).
-- The kernel is a list of answers, one to a call; after the last one it answers EAGAIN. So every
-- run that ends in the source is a run of the model, and the loops recur on the answers.
pub mod Flush
pub mod Send
use cmogstored.Prelude.{
  ℕ, ◌+◌, ◌-◌, min, Bytes, List, [], ◌∷◌, ◌++◌, Bool, ltb, ◌==◌, if◌then◌else◌, Option, none, some,
  length, take, drop,
}

-- What one call returns: a count of bytes, EAGAIN, EINTR, or any other error. The kernel never
-- takes more than it was offered, which the loops write as a minimum.
pub data Answer : Type 0 where
  wrote : ℕ → Answer
  eagain eintr failed : Answer

-- struct mog_wbuf
pub record Wbuf : Type 0 where
  pub len : ℕ
  pub off : ℕ
  pub buf : Bytes

-- enum mog_write_state
pub data WriteState : Type 0 where
  wrstate_err wrstate_done wrstate_busy : WriteState

-- NULL, MOG_WR_ERROR, or the address of a buffer
pub data WbufPtr : Type 0 where
  null wr_error : WbufPtr
  buffered : Wbuf → WbufPtr

-- What `mog_tryflush` leaves: its result, `*x`, and all that the socket has been given.
pub record Flushed : Type 0 where
  pub state : WriteState
  pub wbuf : Option Wbuf
  pub out : Bytes

pub record Written : Type 0 where
  pub res : WbufPtr
  pub out : Bytes

pub flush_loop : Wbuf → Bytes → Bytes → List Answer → Flushed
flush_loop wbuf ptr out [] = record { state = wrstate_busy; wbuf = some wbuf; out = out }
flush_loop wbuf ptr out (wrote n ∷ ks) =
    let w = min n (length ptr) in
    let rest =
      flush_loop (record wbuf { off = wbuf.off + w }) (drop w ptr) (out ++ take w ptr) ks in
    if w == length ptr then record { state = wrstate_done; wbuf = none; out = out ++ ptr } else rest
flush_loop wbuf ptr out (eagain ∷ ks) = record { state = wrstate_busy; wbuf = some wbuf; out = out }
flush_loop wbuf ptr out (eintr ∷ ks) = flush_loop wbuf ptr out ks
flush_loop wbuf ptr out (failed ∷ ks) = record { state = wrstate_err; wbuf = none; out = out }

unfoldable pub tryflush : Wbuf → Bytes → List Answer → Flushed
unfolding flush_loop
tryflush wbuf out ks = flush_loop wbuf (drop wbuf.off wbuf.buf) out ks

-- the bytes of an iovec array, as writev(2) and the copy loop of `wbuf_newv` read it
unfoldable pub joined : List Bytes → Bytes
joined [] = []
joined (b ∷ iov) = b ++ joined iov

unfoldable pub total_len : List Bytes → ℕ
total_len [] = 0
total_len (b ∷ iov) = length b + total_len iov

unfoldable pub wbuf_newv : ℕ → List Bytes → Wbuf
unfolding joined
wbuf_newv total iov = record { len = total; off = 0; buf = joined iov }

unfoldable pub wbuf_new : Bytes → Wbuf
unfolding wbuf_newv
wbuf_new buf = wbuf_newv (length buf) (buf ∷ [])

-- skip over the iovecs that are written completely
pub skip_iov : ℕ → List Bytes → List Bytes
skip_iov w [] = []
skip_iov w (b ∷ iov) =
    let rest = skip_iov (w - length b) iov in
    if w == 0 then b ∷ iov else if ltb w (length b) then drop w b ∷ iov else rest

pub writev_loop : List Bytes → ℕ → Bytes → List Answer → Written
writev_loop iov total out [] = record { res = buffered (wbuf_newv total iov); out = out }
writev_loop iov total out (wrote n ∷ ks) =
    let w = min n total in
    let rest = writev_loop (skip_iov w iov) (total - w) (out ++ take w (joined iov)) ks in
    if w == total then record { res = null; out = out ++ joined iov } else rest
writev_loop iov total out (eagain ∷ ks) = record { res = buffered (wbuf_newv total iov); out = out }
writev_loop iov total out (eintr ∷ ks) = writev_loop iov total out ks
writev_loop iov total out (failed ∷ ks) = record { res = wr_error; out = out }

unfoldable pub trywritev : List Bytes → Bytes → List Answer → Written
unfolding writev_loop total_len joined skip_iov wbuf_newv
trywritev iov out ks =
    let total = total_len iov in
    if total == 0 then record { res = null; out = out } else writev_loop iov total out ks

-- the branch of `mog_trysend` with MSG_MORE; the flag itself only delays packets
pub send_loop : Bytes → Bytes → List Answer → Written
send_loop [] out ks = record { res = null; out = out }
send_loop (b ∷ bs) out [] = record { res = buffered (wbuf_new (b ∷ bs)); out = out }
send_loop (b ∷ bs) out (wrote n ∷ ks) =
    let w = min n (length (b ∷ bs)) in
    let rest = send_loop (drop w (b ∷ bs)) (out ++ take w (b ∷ bs)) ks in
    if w == length (b ∷ bs) then record { res = null; out = out ++ b ∷ bs } else rest
send_loop (b ∷ bs) out (eagain ∷ ks) = record { res = buffered (wbuf_new (b ∷ bs)); out = out }
send_loop (b ∷ bs) out (eintr ∷ ks) = send_loop (b ∷ bs) out ks
send_loop (b ∷ bs) out (failed ∷ ks) = record { res = wr_error; out = out }

-- `msg_more` says whether the platform has MSG_MORE
unfoldable pub trysend : Bool → Bytes → Bytes → List Answer → Written
unfolding send_loop trywritev wbuf_new
trysend msg_more buf out ks = if msg_more then send_loop buf out ks else trywritev (buf ∷ []) out ks
