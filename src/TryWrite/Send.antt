-- ===== src/TryWrite/Send.antt =====
-- `mog_trywritev` and `mog_trysend`: what reaches the socket, what is buffered, and that the copy
-- into a new buffer fits its allocation.
use cmogstored.Prelude.{
  ℕ, zero, suc, ◌-◌, ◌<◌, min, Bytes, List, [], ◌∷◌, ◌++◌, Bool, true, false, Option, none, some,
  ◌≡◌, refl, sym, ap, ◌∙◌, inl, inr, arith, ◌==◌, ==_iff, ltb, Bool-cases, length, take, drop,
  length-append, length-eq-zero, length-drop, drop-append_le, drop-append_ge, append-nil,
}
use cmogstored.TryWrite.{
  Answer, wrote, eagain, eintr, failed, Wbuf, WbufPtr, null, wr_error, buffered, wbuf_newv, joined,
  total_len, skip_iov, writev_loop, trywritev, send_loop, trysend, tryflush, wbuf_new, WriteState,
  wrstate_done,
}
use cmogstored.TryWrite.Flush.{append-take-drop, Accounts, tryflush-Accounts}

-- `all` is what the socket has once the write, and the flushes that follow it, are through. A new
-- buffer holds what was not written, from its start, and its length is that of its contents.
abbrev pub Delivers : Bytes → WbufPtr → Bytes → Type 0
Delivers all null out = out ≡ all
Delivers all (buffered w) out = (out ++ w.buf ≡ all) × (w.off ≡ 0) × (w.len ≡ length w.buf)
Delivers all wr_error out = (lost : Bytes) × (out ++ lost ≡ all)

total_len-joined : (iov : List Bytes) → total_len iov ≡ length (joined iov)
unfolding total_len joined
total_len-joined [] = refl
total_len-joined (b ∷ iov) = omega (arith, total_len-joined iov, length-append b (joined iov))

-- Dropping whole vectors and a part of the next drops that many bytes of the message.
joined-skip_iov : (w : ℕ) (iov : List Bytes) → joined (skip_iov w iov) ≡ drop w (joined iov)
unfolding joined skip_iov
joined-skip_iov zero [] = refl
joined-skip_iov (suc w) [] = refl
joined-skip_iov zero (b ∷ iov) = refl
joined-skip_iov (suc w) (b ∷ iov) =
    let nz : (suc w == 0) ≡ false = ground arith in
    elim (Bool-cases (ltb (suc w) (length b))) [
      | inl inside ↦
          rw (nz, inside)
            (sym (
              drop-append_le (suc w) b (joined iov)
                (let l : suc w < length b = ground arith in omega arith)))
      | inr past ↦
          rw (nz, past)
            (joined-skip_iov (suc w - length b) iov
              ∙ sym (drop-append_ge (suc w) b (joined iov) (ground arith)))
    ]

writev_loop-Delivers :
    (iov : List Bytes) (total : ℕ) (out : Bytes) (ks : List Answer)
    → total ≡ length (joined iov)
    → let r = writev_loop iov total out ks in Delivers (out ++ joined iov) r.res r.out
unfolding writev_loop wbuf_newv
writev_loop-Delivers iov total out [] e = (refl, refl, e)
writev_loop-Delivers iov total out (wrote n ∷ ks) e =
    let w = min n total in
    let left : total - w ≡ length (joined (skip_iov w iov)) =
      rw (joined-skip_iov w iov) (omega (arith, length-drop w (joined iov))) in
    let later =
      writev_loop-Delivers (skip_iov w iov) (total - w) (out ++ take w (joined iov)) ks left in
    let same =
      ap (◌++◌ (out ++ take w (joined iov))) (joined-skip_iov w iov)
      ∙ append-take-drop w out (joined iov) in
    elim (Bool-cases (w == total)) [
      | inl whole ↦ rw whole refl
      | inr part ↦ rw part (rw same at later)
    ]
writev_loop-Delivers iov total out (eagain ∷ ks) e = (refl, refl, e)
writev_loop-Delivers iov total out (eintr ∷ ks) e = writev_loop-Delivers iov total out ks e
writev_loop-Delivers iov total out (failed ∷ ks) e = (joined iov, refl)

-- Whatever the kernel answers, and however it splits the vectors: NULL means that the socket has
-- the whole message, a buffer holds exactly what is left of it and fits its allocation, and after
-- an error the socket has a first part of it.
pub trywritev-Delivers :
    (iov : List Bytes) (out : Bytes) (ks : List Answer)
    → let r = trywritev iov out ks in Delivers (out ++ joined iov) r.res r.out
unfolding trywritev
trywritev-Delivers iov out ks = elim (Bool-cases (total_len iov == 0)) [
  | inl empty ↦
      let none_left : joined iov ≡ [] =
        length-eq-zero (joined iov) (omega (arith, total_len-joined iov, (==_iff _ _).0 empty)) in
      rw (empty, none_left) (sym (append-nil out))
  | inr full ↦ rw full (writev_loop-Delivers iov (total_len iov) out ks (total_len-joined iov))
]

pub joined-one : (b : Bytes) → joined (b ∷ []) ≡ b
unfolding joined
joined-one b = append-nil b

wbuf_new-buf : (b : Bytes) → wbuf_new b ≡ record { len = length b; off = 0; buf = b }
unfolding wbuf_new
wbuf_new-buf b = rw append-nil

send_loop-Delivers :
    (buf out : Bytes) (ks : List Answer)
    → let r = send_loop buf out ks in Delivers (out ++ buf) r.res r.out
unfolding send_loop
send_loop-Delivers [] out ks = sym (append-nil out)
send_loop-Delivers (b ∷ bs) out [] = rw wbuf_new-buf (refl, refl, refl)
send_loop-Delivers (b ∷ bs) out (wrote n ∷ ks) =
    let buf : Bytes = b ∷ bs in
    let w = min n (length buf) in
    let later = send_loop-Delivers (drop w buf) (out ++ take w buf) ks in
    elim (Bool-cases (w == length buf)) [
      | inl whole ↦ rw whole refl
      | inr part ↦ rw part (rw (append-take-drop w out buf) at later)
    ]
send_loop-Delivers (b ∷ bs) out (eagain ∷ ks) = rw wbuf_new-buf (refl, refl, refl)
send_loop-Delivers (b ∷ bs) out (eintr ∷ ks) = send_loop-Delivers (b ∷ bs) out ks
send_loop-Delivers (b ∷ bs) out (failed ∷ ks) = (b ∷ bs, refl)

-- `mog_trysend` delivers in the same sense, with MSG_MORE or without it.
pub trysend-Delivers :
    (msg_more : Bool) (buf out : Bytes) (ks : List Answer)
    → let r = trysend msg_more buf out ks in Delivers (out ++ buf) r.res r.out
unfolding trysend
trysend-Delivers true buf out ks = send_loop-Delivers buf out ks
trysend-Delivers false buf out ks = rw (joined-one buf) at (trywritev-Delivers (buf ∷ []) out ks)

Accounts-done :
    {all out : Bytes} (s : WriteState) (x : Option Wbuf)
    → Accounts all s x out
    → s ≡ wrstate_done
    → out ≡ all
Accounts-done wrstate_done none a e = a
Accounts-done wrstate_done (some w) a e = absurd a
Accounts-done _ x a e = cc

Delivers-buffered :
    {all : Bytes} (out : Bytes) (r : WbufPtr) (w : Wbuf)
    → Delivers all r out
    → r ≡ buffered w
    → out ++ drop w.off w.buf ≡ all
Delivers-buffered out (buffered v) w (d, o, l) e = let p : v ≡ w = cc in rw (← p, o) d
Delivers-buffered out _ w d e = cc

-- A response that had to be buffered arrives whole: once `mog_tryflush` is done with the buffer
-- that `mog_trywritev` left, the socket has every byte of the message, in order and once.
pub trywritev-tryflush :
    (iov : List Bytes) (out : Bytes) (ks later : List Answer) (w : Wbuf)
    → (trywritev iov out ks).res ≡ buffered w
    → (tryflush w (trywritev iov out ks).out later).state ≡ wrstate_done
    → (tryflush w (trywritev iov out ks).out later).out ≡ out ++ joined iov
trywritev-tryflush iov out ks later w e d =
    let r = trywritev iov out ks in
    let f = tryflush w r.out later in
    Accounts-done f.state f.wbuf (tryflush-Accounts w r.out later) d
    ∙ Delivers-buffered r.out r.res w (trywritev-Delivers iov out ks) e
