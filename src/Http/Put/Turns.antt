-- ===== src/Http/Put/Turns.antt =====
-- The whole body of a PUT, over any number of turns of the event loop.
use cmogstored.Prelude.{
  ℕ, ◌≤◌, Bytes, List, [], ◌∷◌, ◌++◌, none, some, ◌≡◌, ◌≢◌, refl, sym, ap, ◌∙◌, inl, inr, arith,
  Bool-cases, length,
}
use cmogstored.Http.State.{
  Http, File, Next, next_close, next_active, next_wait_rd, next_wait_wr, next_ignore, Run, returns,
  ◌>>=◌,
}
use cmogstored.Http.Put.{
  PutEnv, PWrite, Recv, put_commit_resp, http_put_commit, identity_put_in_progress, is_buffered,
  is_wr_error,
}
use cmogstored.Http.Put.Body.{
  Holds, Asks, PutEnds, waiting, committed, dropped, identity_put-PutEnds,
}

-- what the disk and the socket answer in one turn
abbrev pub Turn : Type 0
Turn = List PWrite × List Recv

-- A turn, and the following ones while the client waits for more of the body: the event loop
-- calls `http_forward_in_progress` again when the socket can be read.
abbrev pub next_turn : (Http → File → Run (Next × Http)) → Next × Http → Run (Next × Http)
next_turn again (next_wait_rd, h) = elim h.forward [
  | some f ↦ again h f
  | none ↦ returns (next_wait_rd, h)
]
next_turn again (n, h) = returns (n, h)

unfoldable pub put_turns : PutEnv → Http → File → Turn → List Turn → Run (Next × Http)
put_turns env h f t [] = identity_put_in_progress env h f t.0 t.1
put_turns env h f t (t' ∷ ts) =
    identity_put_in_progress env h f t.0 t.1 >>= next_turn (λ h' f'. put_turns env h' f' t' ts)

pub commit-ready : (env : PutEnv) (h : Http) (f : File) → (http_put_commit env h f).0 ≢ next_wait_rd
unfolding http_put_commit
commit-ready env h f =
    let h' = put_commit_resp env h f in
    elim (Bool-cases (is_buffered h'.wbuf)) [
      | inl late ↦ rw late (λ e. cc)
      | inr sent ↦ elim (Bool-cases h'.persistent) [
        | inr once ↦ rw (sent, once) (λ e. cc)
        | inl keep ↦ elim (Bool-cases (is_wr_error h'.wbuf)) [
          | inl bad ↦ rw (sent, keep, bad) (λ e. cc)
          | inr good ↦ rw (sent, keep, good) (λ e. cc)
        ]
      ]
    ]

pub next_turn-stays :
    (again : Http → File → Run (Next × Http)) (n : Next) (h : Http)
    → n ≢ next_wait_rd
    → next_turn again (n, h) ≡ returns (n, h)
next_turn-stays again next_wait_rd h d = absurd (d refl)
next_turn-stays again next_close h d = refl
next_turn-stays again next_active h d = refl
next_turn-stays again next_wait_wr h d = refl
next_turn-stays again next_ignore h d = refl

-- the turns after this one end as a PUT does
abbrev Resumes : PutEnv → Bytes → ℕ → ℕ → (Http → File → Run (Next × Http)) → Type 0
Resumes env stream start len again =
    (h : Http) (f : File) (body : Bytes)
    → Asks start len h
    → h.forward ≡ some f
    → Holds start f body
    → body ++ h.input ≡ stream
    → length body ≤ len
    → (r : Next × Http) × (again h f ≡ returns r) × PutEnds env stream start len r.0 r.1

next_turn-PutEnds :
    (env : PutEnv) (stream : Bytes) (start len : ℕ) (again : Http → File → Run (Next × Http))
    → Resumes env stream start len again
    → (n : Next) (h : Http) → PutEnds env stream start len n h
    → (r : Next × Http) × (next_turn again (n, h) ≡ returns r)
      × PutEnds env stream start len r.0 r.1
next_turn-PutEnds env stream start len again go n h (waiting f body w fw hf s l a) =
    rw (w, fw) (go h f body a fw hf s (omega arith))
next_turn-PutEnds env stream start len again go n h (committed g f body e fw hf s l) =
    let ready : n ≢ next_wait_rd =
      λ z. commit-ready env g f (ap (λ (x : Next × Http). x.0) e ∙ z) in
    ((n, h), next_turn-stays again n h ready, committed g f body e fw hf s l)
next_turn-PutEnds env stream start len again go n h (dropped c fw) =
    let ready : n ≢ next_wait_rd = λ z. (let x : next_close ≡ next_wait_rd = sym c ∙ z in cc) in
    ((n, h), next_turn-stays again n h ready, dropped c fw)

-- A PUT with a Content-Length, over any number of turns of the event loop, and for every answer of
-- the socket and the disk in each. It starts with the first part of the body in the file, in
-- place, and never aborts. At the end it still waits in the same way; or it has been committed,
-- with exactly the body's bytes in the file, from the right offset, and the socket at the first
-- byte after the body; or connection and file are given up.
pub put_turns-PutEnds :
    (env : PutEnv) (stream : Bytes) (start len : ℕ) (h : Http) (f : File) (body : Bytes) (t : Turn)
    (ts : List Turn)
    → Asks start len h
    → h.forward ≡ some f
    → Holds start f body
    → body ++ h.input ≡ stream
    → length body ≤ len
    → (r : Next × Http) × (put_turns env h f t ts ≡ returns r)
      × PutEnds env stream start len r.0 r.1
unfolding put_turns
put_turns-PutEnds env stream start len h f body t [] a fw hf s l =
    identity_put-PutEnds env h f stream body start len t.0 t.1 a.0 a.1 fw hf s l
put_turns-PutEnds env stream start len h f body t (t' ∷ ts) a fw hf s l =
    let (r, e, ends) =
      identity_put-PutEnds env h f stream body start len t.0 t.1 a.0 a.1 fw hf s l in
    rw (e, put_turns)
      (next_turn-PutEnds env stream start len (λ h' f'. put_turns env h' f' t' ts)
        (λ h' f' body' a' fw' hf' s' l'.
          put_turns-PutEnds env stream start len h' f' body' t' ts a' fw' hf' s' l')
        r.0 r.1 ends)
