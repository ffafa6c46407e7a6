-- ===== src/Http/Dispatch/Settled.antt =====
-- http.c: how a step of the event loop leaves a client, whatever handler it went to.
use cmogstored.Prelude.{
  ℕ, zero, suc, ◌-◌, min, Bytes, List, [], ◌∷◌, false, none, some, ◌≡◌, refl, ◌⊎◌, inl, inr,
  Bool-cases, Option-cases, codes, length, take, drop, ◌==◌, if◌then◌else◌,
}
use cmogstored.Prelude.Int.{ℤ, pos, negsuc}
use cmogstored.TryWrite.{null, wr_error}
use cmogstored.Http.State.{
  Http, File, Run, returns, aborted, Next, next_close, next_active, next_wait_rd, next_wait_wr,
  next_ignore, Errno, http_reset,
}
use cmogstored.Http.Runs.{Holds, IsBuffered, ptr_cases}
use cmogstored.Http.Response.{http_resp}
use cmogstored.Http.Put.{
  PutEnv, PWrite, Recv, got, would_block, recv_interrupted, recv_failed, write_err, stop,
  http_put_commit, put_commit_resp, put_loop, identity_put_in_progress, file_close_null, need_of,
  fsbuf_size, write_full, internal_error, is_storage,
}

-- How a step leaves a client. One that goes on at once or waits for a request has no response on
-- its way; one that waits until the socket takes bytes has some for it, buffered or in a file; one
-- whose connection closes has nothing buffered, unless its request was refused: then the file is
-- closed, and the response is not out.
abbrev pub Settled : Next × Http → Type 0
Settled (next_active, h) = h.wbuf ≡ null
Settled (next_wait_rd, h) = h.wbuf ≡ null
Settled (next_wait_wr, h) =
    IsBuffered h.wbuf ⊎ ((h.wbuf ≡ null) × ((f : File) × (h.forward ≡ some f)))
Settled (next_close, h) =
    (h.wbuf ≡ null) ⊎ (h.wbuf ≡ wr_error) ⊎ ((h.forward ≡ none) × IsBuffered h.wbuf)
Settled (next_ignore, h) = ⊥

-- a client without a file can be closed
pub no_file-Settled : (h : Http) → h.forward ≡ none → Settled (next_close, h)
no_file-Settled h e = elim (ptr_cases h.wbuf) [
  | inl n ↦ inl n
  | inr (inl err) ↦ inr (inl err)
  | inr (inr b) ↦ inr (inr (e, b))
]

file_close_null-forward : (h : Http) → (file_close_null h).forward ≡ none
unfolding file_close_null
file_close_null-forward h = elim (Option-cases h.forward) [
  | inl e ↦ rw e refl
  | inr (f, e) ↦ rw e refl
]

pub file_close_null-Settled : (h : Http) → Settled (next_close, file_close_null h)
file_close_null-Settled h = no_file-Settled (file_close_null h) (file_close_null-forward h)

pub write_err-Settled :
    (env : PutEnv) (h : Http) (e : Errno) (msg : Bytes) → Settled (write_err env h e msg)
unfolding write_err stop
write_err-Settled env h e msg = file_close_null-Settled (
    http_resp h (if is_storage e then codes "507 Insufficient Storage" else msg) false env.date
      env.net)

pub commit-Settled : (env : PutEnv) (h : Http) (f : File) → Settled (http_put_commit env h f)
unfolding http_put_commit http_reset
commit-Settled env h f =
    let h' = put_commit_resp env h f in
    elim (ptr_cases h'.wbuf) [
      | inr (inr (w, e)) ↦ rw e (inl (w, e))
      | inr (inl e) ↦ elim (Bool-cases h'.persistent) [
        | inl keep ↦ rw (e, keep) (inr (inl e))
        | inr once ↦ rw (e, once) (inr (inl e))
      ]
      | inl e ↦ elim (Bool-cases h'.persistent) [
        | inl keep ↦ rw (e, keep) refl
        | inr once ↦ rw (e, once) (inl e)
      ]
    ]

put_loop-Settled :
    (env : PutEnv) (h : Http) (f : File) (need : ℕ) (disk : List PWrite) (ks : List Recv)
    → h.wbuf ≡ null
    → Settled (put_loop env h f need disk ks)
unfolding put_loop
put_loop-Settled env h f need disk [] e = e
put_loop-Settled env h f need disk (would_block ∷ ks) e = e
put_loop-Settled env h f need disk (recv_interrupted ∷ ks) e =
    put_loop-Settled env h f need disk ks e
put_loop-Settled env h f need disk (recv_failed ∷ ks) e =
    file_close_null-Settled (record h { forward = some f })
put_loop-Settled env h f need disk (got n ∷ ks) e =
    let chunk = take (min n (min fsbuf_size need)) h.input in
    let r = length chunk in
    let w = write_full f chunk disk in
    let h' : Http = record h { input = drop r h.input; forward = some w.0 } in
    let rest = put_loop-Settled env h' w.0 (need - r) w.2 ks e in
    elim (Bool-cases (r == 0)) [
      | inl gone ↦ rw gone (file_close_null-Settled (record h { forward = some f }))
      | inr more ↦ elim (Option-cases w.1) [
        | inr (errno, bad) ↦ rw (more, bad) (write_err-Settled env h' errno internal_error)
        | inl fine ↦ elim (Bool-cases (need - r == 0)) [
          | inl all ↦ rw (more, fine, all) (commit-Settled env h' w.0)
          | inr some_left ↦ rw (more, fine, some_left) rest
        ]
      ]
    ]

pub identity_put-Settled :
    (env : PutEnv) (h : Http) (f : File) (disk : List PWrite) (ks : List Recv)
    → h.wbuf ≡ null
    → Holds Settled (identity_put_in_progress env h f disk ks)
unfolding identity_put_in_progress
identity_put-Settled env h f disk ks e = go (need_of h f)
  where
    go :
        (need : ℤ)
        → Holds Settled (elim need as (λ x. Run (Next × Http)) [
          | pos zero ↦ returns (http_put_commit env h f)
          | pos (suc n) ↦ returns (put_loop env h f (suc n) disk ks)
          | negsuc n ↦ aborted
        ])
    go (pos zero) = commit-Settled env h f
    go (pos (suc n)) = put_loop-Settled env h f (suc n) disk ks e
    go (negsuc n) = tt
