-- ===== src/Http/Put/Chunked/Steps.antt =====
-- http_put.c: one turn of the loop of `chunked_put_in_progress`, after its read(2).
use mathlib.Core.Path.{subst}
use cmogstored.Prelude.{
  ℕ, Bytes, List, [], ◌++◌, Bool, true, false, none, ◌≡◌, ◌≢◌, refl, sym, ap, ◌∙◌, ◌⊎◌, inl, inr,
  arith, length, codes,
}
use cmogstored.TryWrite.{null}
use cmogstored.Http.State.{
  Http, ChunkState, chunk_size, chunk_data, chunk_trailer, chunk_done, ChunkCs, Errno,
}
use cmogstored.Http.Put.{PutEnv, PWrite}
use cmogstored.Http.Put.Body.{write_err-drops}
use cmogstored.Http.Put.Start.{ParserState, parser_done, parser_continue, stash_rest, is_done}
use cmogstored.Http.Chunk.Decoder.{Decoding, d1, data_, dec_run, dec_run-ended}
use cmogstored.Http.Chunk.Matches.{Matches}
use cmogstored.Http.Chunk.Outcome.{Parsed, ParseEnds, in_chunks, in_trailers, at_done, rejected}
use cmogstored.Http.Put.Chunked.{parsed_in, after_parse}
use cmogstored.Http.Put.Chunked.Feeds.{
  Feeds, in_line, in_data, in_tail, committed, dropped, AfterOk, stash_cases, stash-keeps,
  stash-held, stash-good, Matches-state,
}

-- all that the client sends, once the end of the body has been read
pub dec_run-stream :
    (consumed input stream total left : Bytes)
    → dec_run d1 consumed ≡ (data_ 0, total, left)
    → consumed ++ input ≡ stream
    → dec_run d1 stream ≡ (data_ 0, total, left ++ input)
dec_run-stream consumed input stream total left dec s =
    ap (dec_run d1) (sym s)
    ∙ (dec_run-ended d1 consumed input (ap (λ (r : Decoding × Bytes × Bytes). r.0) dec)
        ∙ ap (λ (r : Decoding × Bytes × Bytes). (data_ 0, r.1, r.2 ++ input)) dec)

pub false-not_true : false ≡ true → ⊥
false-not_true e = cc

pub Matches-rbuf :
    (cs : ChunkCs) (h : Http) (d : Decoding)
    → Matches cs h d
    → Matches cs (record h { rbuf = none; offset = 0 }) d
Matches-rbuf cs h d m = ground arith

module _ (env : PutEnv) (stream : Bytes) (start : ℕ) (in_trailer : Bool) where
  -- a parse that has come to a known state
  done-AfterOk :
      (st : ParserState) (e : Errno) (c : ChunkState) (h : Http) (buf : Bytes) (disk : List PWrite)
      → (st ≡ parser_done) ⊎ ((st ≡ parser_continue) × (is_done c ≡ false))
      → h.chunk_state ≡ c
      → AfterOk env stream start (parsed_in env in_trailer c h buf disk)
      → AfterOk env stream start (after_parse env in_trailer st e h buf disk)
  unfolding after_parse
  done-AfterOk st e c h buf disk which state ok =
      let at_state : AfterOk env stream start (parsed_in env in_trailer h.chunk_state h buf disk) =
        subst (λ (c : ChunkState). AfterOk env stream start (parsed_in env in_trailer c h buf disk))
          (sym state) ok in
      elim which [
        | inl done ↦ rw done at_state
        | inr (more, nd) ↦
            let still : is_done h.chunk_state ≡ false = ap is_done state ∙ nd in
            rw (more, still) at_state
      ]

  going-AfterOk :
      (st : ParserState) (e : Errno) (c : ChunkState) (h : Http) (buf : Bytes) (disk : List PWrite)
      → (st ≡ parser_done) ⊎ (st ≡ parser_continue)
      → h.chunk_state ≡ c
      → is_done c ≡ false
      → AfterOk env stream start (parsed_in env in_trailer c h buf disk)
      → AfterOk env stream start (after_parse env in_trailer st e h buf disk)
  going-AfterOk st e c h buf disk (inl done) state nd ok =
      done-AfterOk st e c h buf disk (inl done) state ok
  going-AfterOk st e c h buf disk (inr more) state nd ok =
      done-AfterOk st e c h buf disk (inr (more, nd)) state ok

  pub parsed-AfterOk :
      (q : Parsed) (h1 : Http) (buf consumed total left : Bytes) (d : Decoding)
      (disk0 : List PWrite)
      → ParseEnds (length buf) start h1 disk0 total d left q
      → dec_run d1 consumed ≡ (d, total, left)
      → consumed ++ h1.input ≡ stream
      → h1.wbuf ≡ null
      → (in_trailer ≡ false) ⊎ (left ≢ [])
      → AfterOk env stream start (after_parse env in_trailer q.0 q.1 q.2 buf q.3)
  unfolding parsed_in
  parsed-AfterOk (st, e, h, disk) h1 buf consumed total left d disk0
        (in_chunks f which hf hs nl m ol (i, r, w, l) ok) dec s wb fl =
      let flag : in_trailer ≡ false = elim fl [ inl off ↦ off | inr some_ ↦ absurd (some_ nl) ] in
      let dec0 : dec_run d1 consumed ≡ (d, total, []) = rw nl at dec in
      elim (Matches-state h.cs h d m) [
        | inl (state, line) ↦
            let h' = record h { rbuf = none; offset = 0 } in
            let here : Feeds stream start h' =
              in_line f consumed total d dec0 (ap (◌++◌ consumed) i ∙ s) hf hs line
                (Matches-rbuf h.cs h d m) refl refl (w ∙ wb) in
            going-AfterOk st e chunk_size h buf disk which state refl
              (rw flag (here, λ t. absurd (false-not_true t), ok))
        | inr (n, dn, state, len, c60) ↦
            let here : Feeds stream start (record h { rbuf = none }) =
              in_data f consumed total n (rw dn at dec0) (ap (◌++◌ consumed) i ∙ s) hf hs state len
                c60 refl (w ∙ wb) in
            going-AfterOk st e chunk_data h buf disk which state refl
              (rw flag (here, λ t. absurd (false-not_true t), ok))
      ]
  parsed-AfterOk (st, e, h, disk) h1 buf consumed total left d disk0
        (in_trailers f which hf hs dz state trail ol (i, r, w) ok _) dec s wb fl =
      let (kf, ki, kw, kc, kl, ks) = stash-keeps h buf in
      let here : Feeds stream start (stash_rest h buf) =
        in_tail f consumed total left (rw dz at dec) (ap (◌++◌ consumed) (ki ∙ i) ∙ s) (kf ∙ hf) hs
          (ks ∙ state, inl (rw kc trail)) (stash-held h buf ol) (kw ∙ w ∙ wb) in
      let all = dec_run-stream consumed h1.input stream total left (rw dz at dec) s in
      going-AfterOk st e chunk_trailer h buf disk which state refl (elim (stash_cases h buf) [
        | inl kept ↦ rw kept (here, λ t. ks ∙ state, ok)
        | inr bad ↦ rw bad (ap (λ (r : Decoding × Bytes × Bytes). r.0) all)
      ])
  parsed-AfterOk (st, e, h, disk) h1 buf consumed total left d disk0
        (at_done f done hf hs dz state ol b (i, r, w) ok _) dec s wb fl =
      let (kf, ki, kw, kc, kl, ks) = stash-keeps h buf in
      let all : dec_run d1 stream ≡ (data_ 0, total, left ++ h1.input) =
        dec_run-stream consumed h1.input stream total left (rw dz at dec) s in
      done-AfterOk st e chunk_done h buf disk (inl done) state (elim (stash_cases h buf) [
        | inr bad ↦ rw bad (ap (λ (r : Decoding × Bytes × Bytes). r.0) all)
        | inl kept ↦
            rw (kept, stash-good h buf ol, kf ∙ hf)
              (committed (stash_rest h buf) f total (left ++ h1.input) refl (kf ∙ hf) hs all)
      ])
  parsed-AfterOk (st, e, h, disk) h1 buf consumed total left d disk0 (rejected er why) dec s wb fl =
      let lost = write_err-drops env h e (codes "400 Bad Request") in
      rw er (unfold after_parse in dropped lost.0 lost.1)
