-- ===== src/Http/Put/Chunked/Header.antt =====
-- http_put.c: the part of a chunked body that comes with the header, and what it leaves for the
-- further reads.
use mathlib.Core.Path.{subst}
use cmogstored.Prelude.{
  ℕ, ◌-◌, ◌≤◌, ◌<◌, Bytes, List, [], ◌++◌, true, false, Option, none, some, Bool-cases, ◌==◌, ◌≡◌,
  refl, sym, ap, ◌∙◌, ◌⊎◌, inl, inr, arith, length, drop, codes,
}
use cmogstored.TryWrite.{null}
use cmogstored.Http.State.{
  Http, File, ChunkState, chunk_size, chunk_data, chunk_trailer, chunk_done, Run, returns, aborted,
  ◌>>=◌, Errno,
}
use cmogstored.Http.Put.{PutEnv, PWrite, put_commit_resp}
use cmogstored.Http.Put.Body.{Holds, write_err-drops}
use cmogstored.Http.Put.Start.{
  ParserState, parser_done, parser_continue, stash_rest, chunk_init, is_done, header_done,
  header_parsed, after_header, chunked_body_after_header,
}
use cmogstored.Http.Loop.{http_defer_rbuf}
use cmogstored.Http.Chunk.{chunk_parse}
use cmogstored.Http.Chunk.Decoder.{Decoding, d1, data_, dec_run}
use cmogstored.Http.Chunk.Disk.{Honest}
use cmogstored.Http.Chunk.Outcome.{
  Parsed, ParseEnds, in_chunks, in_trailers, at_done, rejected, ParseRun, ran, asserts,
}
use cmogstored.Http.Chunk.Parse.{chunk_parse-ParseRun}
use cmogstored.Http.Put.Chunked.Feeds.{
  Feeds, in_line, in_data, in_tail, stash_cases, stash-keeps, stash-held, Matches-state,
}
use cmogstored.Http.Put.Chunked.Steps.{Matches-rbuf, dec_run-stream}

-- What the call leaves: the client is ready for the further reads, once `http_defer_rbuf` has run;
-- or the body was complete, and the PUT is answered with the body in the file; or the body is
-- refused, and the file closed.
pub data HeaderEnds (env : PutEnv) (stream : Bytes) (start : ℕ) (buf : Bytes) (h : Http)
    : Type 0 where
  going : Feeds stream start (http_defer_rbuf h buf) → HeaderEnds env stream start buf h
  answered :
      (g : Http) (f : File) (out left : Bytes)
      → h ≡ record (stash_rest (put_commit_resp env g f) buf) { skip_rbuf_defer = true }
      → g.forward ≡ some f
      → Holds start f out
      → dec_run d1 stream ≡ (data_ 0, out, left)
      → HeaderEnds env stream start buf h
  refused : h.forward ≡ none → HeaderEnds env stream start buf h

module _ (env : PutEnv) (stream : Bytes) (start : ℕ) (buf : Bytes) where
  -- an assertion fails only when the body is complete
  abbrev HeaderRun : Run Http → Type 0
  HeaderRun r =
      ((h' : Http) × (r ≡ returns h') × HeaderEnds env stream start buf h')
      ⊎ ((r ≡ aborted) × ((dec_run d1 stream).0 ≡ data_ 0))

  done-HeaderRun :
      (st : ParserState) (e : Errno) (c : ChunkState) (h : Http)
      → (st ≡ parser_done) ⊎ ((st ≡ parser_continue) × (is_done c ≡ false))
      → h.chunk_state ≡ c
      → HeaderRun (header_parsed env c h buf)
      → HeaderRun (after_header env st e h buf)
  unfolding after_header
  done-HeaderRun st e c h which state ok =
      let at_state : HeaderRun (header_parsed env h.chunk_state h buf) =
        subst (λ (c : ChunkState). HeaderRun (header_parsed env c h buf)) (sym state) ok in
      elim which [
        | inl done ↦ rw done at_state
        | inr (more, nd) ↦
            let still : is_done h.chunk_state ≡ false = ap is_done state ∙ nd in
            rw (more, still) at_state
      ]

  going-HeaderRun :
      (st : ParserState) (e : Errno) (c : ChunkState) (h : Http)
      → (st ≡ parser_done) ⊎ (st ≡ parser_continue)
      → h.chunk_state ≡ c
      → is_done c ≡ false
      → HeaderRun (header_parsed env c h buf)
      → HeaderRun (after_header env st e h buf)
  going-HeaderRun st e c h (inl done) state nd ok = done-HeaderRun st e c h (inl done) state ok
  going-HeaderRun st e c h (inr more) state nd ok =
      done-HeaderRun st e c h (inr (more, nd)) state ok

  -- `http_defer_rbuf` once the whole buffer has been parsed
  defer-all :
      (h : Http)
      → h.skip_rbuf_defer ≡ false
      → h.offset ≡ length buf
      → http_defer_rbuf h buf ≡ record h { rbuf = none; offset = 0 }
  unfolding http_defer_rbuf
  defer-all h skip o =
      let all : (length buf - h.offset == 0) ≡ true = ground arith in simp (skip, all) refl

  parsed-HeaderRun :
      (q : Parsed) (h1 : Http) (consumed total left : Bytes) (d : Decoding) (disk0 : List PWrite)
      → ParseEnds (length buf) start h1 disk0 total d left q
      → dec_run d1 consumed ≡ (d, total, left)
      → consumed ++ h1.input ≡ stream
      → h1.wbuf ≡ null
      → h1.skip_rbuf_defer ≡ false
      → 0 < length buf
      → HeaderRun (after_header env q.0 q.1 q.2 buf)
  unfolding header_parsed
  parsed-HeaderRun (st, e, h, disk) h1 consumed total left d disk0
        (in_chunks f which hf hs nl m ol (i, r, w, sk) ok) dec s wb skip some_ =
      let dec0 : dec_run d1 consumed ≡ (d, total, []) = rw nl at dec in
      let all : (h.offset == length buf) ≡ true = ground arith in
      let deferred = defer-all h (sk ∙ skip) ol in
      elim (Matches-state h.cs h d m) [
        | inl (state, line) ↦
            let here : Feeds stream start (record h { rbuf = none; offset = 0 }) =
              in_line f consumed total d dec0 (ap (◌++◌ consumed) i ∙ s) hf hs line
                (Matches-rbuf h.cs h d m) refl refl (w ∙ wb) in
            going-HeaderRun st e chunk_size h which state refl
              (rw all (inl (h, refl, going (rw deferred here))))
        | inr (n, dn, state, len, c60) ↦
            let here : Feeds stream start (record h { rbuf = none; offset = 0 }) =
              in_data f consumed total n (rw dn at dec0) (ap (◌++◌ consumed) i ∙ s) hf hs state len
                c60 refl (w ∙ wb) in
            going-HeaderRun st e chunk_data h which state refl
              (rw all (inl (h, refl, going (rw deferred here))))
      ]
  parsed-HeaderRun (st, e, h, disk) h1 consumed total left d disk0
        (in_trailers f which hf hs dz state trail ol (i, r, w) ok _) dec s wb skip some_ =
      let (kf, ki, kw, kc, kl, ks) = stash-keeps h buf in
      let some_left : (h.offset == 0) ≡ false = ground arith in
      let all = dec_run-stream consumed h1.input stream total left (rw dz at dec) s in
      let h' = record (stash_rest h buf) { skip_rbuf_defer = true } in
      let here : Feeds stream start (http_defer_rbuf h' buf) =
        unfold http_defer_rbuf in
        in_tail f consumed total left (rw dz at dec) (ap (◌++◌ consumed) (ki ∙ i) ∙ s) (kf ∙ hf) hs
          (ks ∙ state, inl (rw kc trail)) (stash-held h buf ol) (kw ∙ w ∙ wb) in
      going-HeaderRun st e chunk_trailer h which state refl (
        rw some_left (elim (stash_cases h buf) [
          | inl kept ↦ rw kept (inl (h', refl, going here))
          | inr bad ↦ rw bad (inr (refl, ap (λ (r : Decoding × Bytes × Bytes). r.0) all))
        ]))
  parsed-HeaderRun (st, e, h, disk) h1 consumed total left d disk0
        (at_done f done hf hs dz state ol b (i, r, w) ok _) dec s wb skip some_ =
      let all = dec_run-stream consumed h1.input stream total left (rw dz at dec) s in
      done-HeaderRun st e chunk_done h (inl done) state (
        subst (λ k. HeaderRun (header_done env k h buf)) (sym hf)
          (elim (Bool-cases ((put_commit_resp env h f).offset == 0)) [
            | inl lost ↦ rw lost (inr (refl, ap (λ (r : Decoding × Bytes × Bytes). r.0) all))
            | inr some_left ↦ rw some_left (elim (stash_cases (put_commit_resp env h f) buf) [
              | inr bad ↦ rw bad (inr (refl, ap (λ (r : Decoding × Bytes × Bytes). r.0) all))
              | inl kept ↦ rw kept (
                  inl (
                    record (stash_rest (put_commit_resp env h f) buf) { skip_rbuf_defer = true },
                    refl,
                    answered h f total (left ++ h1.input) refl hf hs all,
                  ))
            ])
          ]))
  parsed-HeaderRun (st, e, h, disk) h1 consumed total left d disk0 (rejected er why) dec s wb skip
        some_ =
      let lost = write_err-drops env h e (codes "400 Bad Request") in
      rw er (unfold after_header in inl (_, refl, refused lost.1))

  run-HeaderRun :
      (r : Run Parsed) (h1 : Http) (consumed total left : Bytes) (d : Decoding)
      (disk0 : List PWrite)
      → ParseRun (length buf) start h1 disk0 total d left r
      → dec_run d1 consumed ≡ (d, total, left)
      → consumed ++ h1.input ≡ stream
      → h1.wbuf ≡ null
      → h1.skip_rbuf_defer ≡ false
      → 0 < length buf
      → HeaderRun (r >>= λ (q : Parsed). after_header env q.0 q.1 q.2 buf)
  run-HeaderRun r h1 consumed total left d disk0 (ran q eq ends) dec s wb skip some_ =
      subst (λ r. HeaderRun (r >>= λ (q : Parsed). after_header env q.0 q.1 q.2 buf)) (sym eq)
        (parsed-HeaderRun q h1 consumed total left d disk0 ends dec s wb skip some_)
  run-HeaderRun r h1 consumed total left d disk0 (asserts eq dz _) dec s wb skip some_ =
      subst (λ r. HeaderRun (r >>= λ (q : Parsed). after_header env q.0 q.1 q.2 buf)) (sym eq)
        (inr (
          refl,
          ap (λ (r : Decoding × Bytes × Bytes). r.0)
              (dec_run-stream consumed h1.input stream total left (rw dz at dec) s),
        ))

-- The part of a chunked body that came with the header, in the read buffer behind `offset`. All of
-- it is decoded, and the body's bytes in it are in the file. Then the client is ready for further
-- reads once `http_defer_rbuf` has run, or the PUT is answered with exactly the body in the file,
-- or it is refused and the file closed. It aborts only when the client has sent the whole body.
pub chunked_header-HeaderEnds :
    (decode : Bytes → Option Bytes) (env : PutEnv) (h : Http) (f : File) (buf : Bytes)
    (disk : List PWrite) (start : ℕ)
    → h.forward ≡ some f
    → Holds start f []
    → h.offset ≤ length buf
    → 0 < length buf
    → h.wbuf ≡ null
    → h.skip_rbuf_defer ≡ false
    → Honest disk
    → let stream = drop h.offset buf ++ h.input in
      let r = chunked_body_after_header (chunk_parse decode) env h buf disk in
      ((h' : Http) × (r ≡ returns h') × HeaderEnds env stream start buf h')
      ⊎ ((r ≡ aborted) × ((dec_run d1 stream).0 ≡ data_ 0))
unfolding chunked_body_after_header chunk_init
chunked_header-HeaderEnds decode env h f buf disk start hf hs ol some_ wb skip ok =
    let h1 = record (chunk_init h) { offset = h.offset } in
    let rest = drop h.offset buf in
    let stream = rest ++ h.input in
    run-HeaderRun env stream start buf (chunk_parse decode h1 buf disk) h1 rest (dec_run d1 rest).1
      (dec_run d1 rest).2 (dec_run d1 rest).0 disk
      (chunk_parse-ParseRun decode h1 buf disk start f [] d1 (refl, refl, refl) hf hs ol ok) refl
      refl wb skip some_
