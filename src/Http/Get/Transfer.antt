-- ===== src/Http/Get/Transfer.antt =====
-- The body of a GET response: what the calls of sendfile(2) put on the socket.
use cmogstored.Prelude.{
  ℕ, ◌+◌, ◌-◌, ◌≤◌, min, Bytes, List, [], ◌∷◌, ◌++◌, false, none, some, ◌⊎◌, ◌≡◌, refl, sym, ap,
  ◌∙◌, inl, inr, arith, ◌==◌, ==_iff, Bool-cases, length, take, drop, slice, slice-append,
  take-length-take, length-take, append_assoc,
}
use cmogstored.Http.State.{Http, File, Next, next_close, next_active, next_wait_wr, http_reset}
use cmogstored.Http.Get.{
  SendFile, sent, blocked, interrupted, broken, get_done, send_step, http_get_in_progress,
  max_sendfile,
}

-- While the file is sent: the socket has what it had before, and the file from `start` up to the
-- current offset.
pub record Sending (before content : Bytes) (start end_ : ℕ) (h : Http) (f : File) : Type 0 where
  pub aimed : h.forward ≡ some f
  pub fsize_is : f.fsize ≡ end_
  pub started : start ≤ f.foff
  pub within : f.foff ≤ end_
  pub so_far : h.out ≡ before ++ slice start f.foff content

-- Where a step ends: still sending, or at the next request with everything sent, or at a
-- connection to be closed, which got some first part.
pub data Ends (before content : Bytes) (start end_ : ℕ) (n : Next) (h : Http) : Type 0 where
  sending :
      (f : File)
      → Sending before content start end_ h f
      → (n ≡ next_wait_wr) ⊎ (n ≡ next_active)
      → Ends before content start end_ n h
  complete :
      n ≡ next_active
      → h.forward ≡ none
      → h.out ≡ before ++ slice start end_ content
      → Ends before content start end_ n h
  closing :
      (k : ℕ)
      → n ≡ next_close
      → k ≤ end_
      → h.out ≡ before ++ slice start k content
      → Ends before content start end_ n h

module _ (before content : Bytes) (start end_ : ℕ) where
  get_done-Ends :
      (h : Http) (f : File)
      → f.foff ≡ end_
      → h.out ≡ before ++ slice start f.foff content
      → Ends before content start end_ (get_done h).0 (get_done h).1
  unfolding get_done http_reset
  get_done-Ends h f e s = elim (Bool-cases h.persistent) [
    | inl on ↦ rw on (complete refl refl (rw (← e) s))
    | inr off ↦ rw off (closing end_ refl (omega arith) (rw (← e) s))
  ]

  give_up-Ends :
      (h : Http) (f : File)
      → Sending before content start end_ h f
      → let r = get_done (record h { persistent = false }) in Ends before content start end_ r.0 r.1
  unfolding get_done
  give_up-Ends h f s = closing f.foff refl s.within s.so_far

  chunk-so_far :
      (h : Http) (f : File) (n : ℕ)
      → Sending before content start end_ h f
      → h.out ++ take n (drop f.foff content)
        ≡ before ++ slice start (f.foff + length (take n (drop f.foff content))) content
  chunk-so_far h f n s =
      let rest = drop f.foff content in
      let chunk = take n rest in
      let sent_now = slice start f.foff content in
      ap (λ (t : Bytes). t ++ chunk) s.so_far
      ∙ append_assoc before sent_now chunk
      ∙ ap (◌++◌ before) (
          ap (◌++◌ sent_now) (sym (take-length-take n rest))
          ∙ slice-append start f.foff (length chunk) content s.started)

  send_step-Ends :
      (h : Http) (f : File) (count : ℕ) (ks : List SendFile)
      → Sending before content start end_ h f
      → f.foff + count ≤ end_
      → let r = send_step h f content count ks in Ends before content start end_ r.0 r.1
  unfolding send_step
  send_step-Ends h f count [] s c = sending f s (inl refl)
  send_step-Ends h f count (blocked ∷ ks) s c = sending f s (inl refl)
  send_step-Ends h f count (interrupted ∷ ks) s c = send_step-Ends h f count ks s c
  send_step-Ends h f count (broken ∷ ks) s c = give_up-Ends h f s
  send_step-Ends h f count (sent n ∷ ks) s c =
      let chunk = take (min n count) (drop f.foff content) in
      let f' = record f { foff = f.foff + length chunk } in
      let h' = record h { forward = some f'; out = h.out ++ chunk } in
      let fits : f.foff + length chunk ≤ end_ =
        omega (arith, length-take (min n count) (drop f.foff content)) in
      let so = chunk-so_far h f (min n count) s in
      elim (Bool-cases (length chunk == 0)) [
        | inl stuck ↦ rw stuck (give_up-Ends h f s)
        | inr moved ↦ elim (Bool-cases (f.foff + length chunk == f.fsize)) [
          | inl all ↦ rw (moved, all) (get_done-Ends h' f' ((==_iff _ _).0 all ∙ s.fsize_is) so)
          | inr part ↦
              rw (moved, part)
                (sending f'
                  (record {
                    aimed = refl;
                    fsize_is = s.fsize_is;
                    started = omega arith;
                    within = fits;
                    so_far = so;
                  })
                  (inr refl))
        ]
      ]

  -- One turn of the event loop on a file that is being sent. Whatever sendfile(2) answers, also
  -- where the file has shrunk, the socket gets a further part of the announced range with nothing
  -- lost or repeated; the connection is reused only when the whole range has been sent.
  pub get_in_progress-Ends :
      (h : Http) (f : File) (ks : List SendFile)
      → Sending before content start end_ h f
      → let r = http_get_in_progress h f content ks in Ends before content start end_ r.0 r.1
  unfolding http_get_in_progress
  get_in_progress-Ends h f ks s =
      let count = min (f.fsize - f.foff) max_sendfile in
      let fsize_is = s.fsize_is in
      let within = s.within in
      elim (Bool-cases (count == 0)) [
        | inl full ↦ rw full (get_done-Ends h f (ground arith) s.so_far)
        | inr some_left ↦ rw some_left (send_step-Ends h f count ks s (omega arith))
      ]
