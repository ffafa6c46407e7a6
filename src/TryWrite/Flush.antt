-- ===== src/TryWrite/Flush.antt =====
-- `mog_tryflush`: what happens to the bytes of a write buffer.
use cmogstored.Prelude.{
  ℕ, ◌+◌, ◌-◌, ◌≤◌, ◌<◌, min, Bytes, List, [], ◌∷◌, ◌++◌, Option, none, some, ◌≡◌, refl, sym, ap,
  ◌∙◌, ◌↔◌, inl, inr, arith, ◌==◌, ==_iff, Bool-cases, length, take, drop, take-append-drop,
  length-drop, drop-drop, append_assoc,
}
use cmogstored.TryWrite.{
  Answer, wrote, eagain, eintr, failed, Wbuf, WriteState, wrstate_err, wrstate_done, wrstate_busy,
  flush_loop, tryflush,
}

-- No byte is lost, repeated or reordered: `all` is what the socket has once the buffer is empty.
abbrev pub Accounts : Bytes → WriteState → Option Wbuf → Bytes → Type 0
Accounts all wrstate_done none out = out ≡ all
Accounts all wrstate_busy (some w) out = out ++ drop w.off w.buf ≡ all
Accounts all wrstate_err none out = (lost : Bytes) × (out ++ lost ≡ all)
Accounts all _ _ _ = ⊥

-- One partial write moves bytes from the buffer to the socket.
pub append-take-drop : (w : ℕ) (out ptr : Bytes) → (out ++ take w ptr) ++ drop w ptr ≡ out ++ ptr
append-take-drop w out ptr =
    append_assoc out (take w ptr) (drop w ptr) ∙ ap (◌++◌ out) (take-append-drop w ptr)

flush_loop-Accounts :
    (wbuf : Wbuf) (ptr out : Bytes) (ks : List Answer)
    → ptr ≡ drop wbuf.off wbuf.buf
    → let f = flush_loop wbuf ptr out ks in Accounts (out ++ ptr) f.state f.wbuf f.out
unfolding flush_loop
flush_loop-Accounts wbuf ptr out [] e = ap (◌++◌ out) (sym e)
flush_loop-Accounts wbuf ptr out (wrote n ∷ ks) e =
    let w = min n (length ptr) in
    let later =
      flush_loop-Accounts (record wbuf { off = wbuf.off + w }) (drop w ptr) (out ++ take w ptr) ks
        (ap (drop w) e ∙ drop-drop wbuf.off w wbuf.buf) in
    elim (Bool-cases (w == length ptr)) [
      | inl whole ↦ rw whole refl
      | inr part ↦ rw part (rw (append-take-drop w out ptr) at later)
    ]
flush_loop-Accounts wbuf ptr out (eagain ∷ ks) e = ap (◌++◌ out) (sym e)
flush_loop-Accounts wbuf ptr out (eintr ∷ ks) e = flush_loop-Accounts wbuf ptr out ks e
flush_loop-Accounts wbuf ptr out (failed ∷ ks) e = (ptr, refl)

-- Whatever the kernel answers, `mog_tryflush` loses, repeats and reorders no byte: when it is done
-- the socket has the whole rest of the buffer, when it is busy the socket's bytes followed by the
-- rest still buffered are the same, and after an error the socket has a first part of it.
pub tryflush-Accounts :
    (wbuf : Wbuf) (out : Bytes) (ks : List Answer)
    → let f = tryflush wbuf out ks in Accounts (out ++ drop wbuf.off wbuf.buf) f.state f.wbuf f.out
unfolding tryflush
tryflush-Accounts wbuf out ks = flush_loop-Accounts wbuf (drop wbuf.off wbuf.buf) out ks refl

-- how many bytes the kernel takes before it answers EAGAIN or an error
abbrev pub room : List Answer → ℕ
room [] = 0
room (wrote n ∷ ks) = n + room ks
room (eagain ∷ ks) = 0
room (eintr ∷ ks) = room ks
room (failed ∷ ks) = 0

flush_loop-done :
    (wbuf : Wbuf) (ptr out : Bytes) (ks : List Answer)
    → 0 < length ptr
    → ((flush_loop wbuf ptr out ks).state ≡ wrstate_done) ↔ (length ptr ≤ room ks)
unfolding flush_loop
flush_loop-done wbuf ptr out [] h = ((λ e. cc), λ l. absurd (omega arith))
flush_loop-done wbuf ptr out (wrote n ∷ ks) h =
    let w = min n (length ptr) in
    let later =
      flush_loop-done (record wbuf { off = wbuf.off + w }) (drop w ptr) (out ++ take w ptr) ks in
    elim (Bool-cases (w == length ptr)) [
      | inl whole ↦ let e = (==_iff _ _).0 whole in rw whole ((λ _. omega arith), λ _. refl)
      | inr part ↦
          let short : n < length ptr = ground arith in
          let left : length (drop w ptr) ≡ length ptr - n = omega (arith, length-drop w ptr) in
          let ih = later (omega arith) in
          rw part ((λ d. let l = ih.0 d in omega arith), λ l. ih.1 (omega arith))
    ]
flush_loop-done wbuf ptr out (eagain ∷ ks) h = ((λ e. cc), λ l. absurd (omega arith))
flush_loop-done wbuf ptr out (eintr ∷ ks) h = flush_loop-done wbuf ptr out ks h
flush_loop-done wbuf ptr out (failed ∷ ks) h = ((λ e. cc), λ l. absurd (omega arith))

-- A flush of a buffer that is not empty is done exactly when the kernel takes all of it before
-- it first blocks or fails; interrupted calls change nothing.
tryflush-done :
    (wbuf : Wbuf) (out : Bytes) (ks : List Answer)
    → 0 < length (drop wbuf.off wbuf.buf)
    → ((tryflush wbuf out ks).state ≡ wrstate_done) ↔ (length (drop wbuf.off wbuf.buf) ≤ room ks)
unfolding tryflush
tryflush-done wbuf out ks h = flush_loop-done wbuf (drop wbuf.off wbuf.buf) out ks h
