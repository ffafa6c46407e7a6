-- ===== src/Http/Put/Chunked/Reads.antt =====
-- http_put.c: one read(2) of `chunked_put_in_progress`, in each of its states.
use mathlib.Core.Path.{subst}
use cmogstored.Prelude.{
  ℕ, ◌-◌, ◌≤◌, ◌<◌, Bytes, List, [], ◌++◌, Bool, false, Option, none, some, Bool-cases, ◌==◌,
  ==_iff, ◌≡◌, ◌≢◌, refl, sym, ap, ◌∙◌, ◌⊎◌, inl, inr, arith, length, length-append, drop,
}
use cmogstored.Prelude.Int.{pos, pos_part}
use cmogstored.TryWrite.{null}
use cmogstored.Http.State.{Http, File, chunk_data, cs60, Errno}
use cmogstored.Http.Put.{PutEnv, PWrite, write_full, internal_error}
use cmogstored.Http.Put.Body.{Holds, write_err-drops, write_full-Holds}
use cmogstored.Http.Put.Start.{chunk_init}
use cmogstored.Http.Chunk.{chunk_parse}
use cmogstored.Http.Chunk.Decoder.{
  Decoding, d1, data_, after_data, dec_run, dec_run-append, after_data-more,
}
use cmogstored.Http.Chunk.Disk.{Honest, write_full-disk}
use cmogstored.Http.Chunk.Matches.{Matches, dec_run-within}
use cmogstored.Http.Chunk.Sound.{Result}
use cmogstored.Http.Chunk.Outcome.{ParseRun, ran, asserts}
use cmogstored.Http.Chunk.Parse.{InTrailers, chunk_parse-ParseRun, chunk_parse-trailers}
use cmogstored.Http.Put.Chunked.{held, data_stored, data_read, after_run, line_read}
use cmogstored.Http.Put.Chunked.Feeds.{in_line, in_data, dropped, AfterOk}
use cmogstored.Http.Put.Chunked.Steps.{parsed-AfterOk, dec_run-stream, false-not_true}

module _ (decode : Bytes → Option Bytes) (env : PutEnv) (stream : Bytes) (start : ℕ) where
  run-AfterOk :
      (in_trailer : Bool) (h1 : Http) (buf consumed total left : Bytes) (d : Decoding)
      (disk : List PWrite)
      → ParseRun (length buf) start h1 disk total d left (chunk_parse decode h1 buf disk)
      → dec_run d1 consumed ≡ (d, total, left)
      → consumed ++ h1.input ≡ stream
      → h1.wbuf ≡ null
      → (in_trailer ≡ false) ⊎ (left ≢ [])
      → AfterOk env stream start (line_read decode env h1 in_trailer buf disk)
  unfolding line_read
  run-AfterOk in_trailer h1 buf consumed total left d disk (ran q eq ends) dec s wb fl =
      subst (λ r. AfterOk env stream start (after_run env in_trailer buf r)) (sym eq)
        (parsed-AfterOk env stream start in_trailer q h1 buf consumed total left d disk ends dec s
          wb fl)
  run-AfterOk in_trailer h1 buf consumed total left d disk (asserts eq dz _) dec s wb fl =
      subst (λ r. AfterOk env stream start (after_run env in_trailer buf r)) (sym eq)
        (ap (λ (r : Decoding × Bytes × Bytes). r.0)
          (dec_run-stream consumed h1.input stream total left (rw dz at dec) s))

  -- the first line of a chunk
  pub line-AfterOk :
      (h1 : Http) (f : File) (consumed out chunk : Bytes) (d : Decoding) (disk : List PWrite)
      → dec_run d1 consumed ≡ (d, out, [])
      → (consumed ++ chunk) ++ h1.input ≡ stream
      → h1.forward ≡ some f
      → Holds start f out
      → Matches h1.cs h1 d
      → h1.offset ≡ 0
      → h1.wbuf ≡ null
      → Honest disk
      → AfterOk env stream start (line_read decode env h1 false chunk disk)
  line-AfterOk h1 f consumed out chunk d disk dec s hf hs m o wb ok =
      let parse =
        chunk_parse-ParseRun decode h1 chunk disk start f out d m hf hs (omega arith) ok in
      let whole : drop h1.offset chunk ≡ chunk = ap (λ (k : ℕ). drop k chunk) o in
      let r = dec_run d chunk in
      let dec' : dec_run d1 (consumed ++ chunk) ≡ (r.0, out ++ r.1, r.2) =
        dec_run-append d1 consumed chunk (ap (λ (r : Decoding × Bytes × Bytes). r.2) dec)
        ∙ ap (λ (q : Decoding × Bytes × Bytes). let t = dec_run q.0 chunk in (t.0, q.1 ++ t.1, t.2))
            dec in
      run-AfterOk false h1 chunk (consumed ++ chunk) (out ++ r.1) r.2 r.0 disk (rw whole at parse)
        dec' s wb (inl refl)

  -- the trailers
  pub tail-AfterOk :
      (in_trailer : Bool) (h1 : Http) (f : File) (consumed out left chunk : Bytes)
      (disk : List PWrite)
      → dec_run d1 consumed ≡ (data_ 0, out, left)
      → (consumed ++ chunk) ++ h1.input ≡ stream
      → h1.forward ≡ some f
      → Holds start f out
      → InTrailers h1
      → h1.offset ≡ length (held h1)
      → h1.wbuf ≡ null
      → 0 < length chunk
      → Honest disk
      → AfterOk env stream start (line_read decode env h1 in_trailer (held h1 ++ chunk) disk)
  tail-AfterOk in_trailer h1 f consumed out left chunk disk dec s hf hs tail_ o wb more ok =
      let buf = held h1 ++ chunk in
      let inside : h1.offset < length buf = omega (arith, length-append (held h1) chunk) in
      let longer : 0 < length (left ++ chunk) = omega (arith, length-append left chunk) in
      let parse =
        chunk_parse-trailers decode h1 buf disk start f out (left ++ chunk) longer tail_ hf hs
          inside ok in
      let dec' = dec_run-stream consumed chunk (consumed ++ chunk) out left dec refl in
      run-AfterOk in_trailer h1 buf (consumed ++ chunk) out (left ++ chunk) (data_ 0) disk parse
        dec' s wb (inr (λ e. grown (ap length e)))
    where
      grown : length (left ++ chunk) ≡ 0 → ⊥
      grown e = omega (arith, length-append left chunk)

  -- a write that is done, or has failed
  stored-AfterOk :
      (h1 : Http) (in_trailer : Bool) (r : ℕ) (w : File × Option Errno × List PWrite) (m : ℕ)
      → h1.content_len ≡ pos m
      → (w.1 ≡ none → AfterOk env stream start (data_stored env h1 in_trailer r (w.0, none, w.2)))
      → AfterOk env stream start (data_stored env h1 in_trailer r w)
  stored-AfterOk h1 in_trailer r (f, some errno, disk) m len next =
      let lost = write_err-drops env (record h1 { forward = some f }) errno internal_error in
      dropped lost.0 lost.1
  stored-AfterOk h1 in_trailer r (f, none, disk) m len next = next refl

  -- the bytes of a chunk
  pub data-AfterOk :
      (h1 : Http) (f : File) (consumed out chunk : Bytes) (n : ℕ) (disk : List PWrite)
      → dec_run d1 consumed ≡ (data_ n, out, [])
      → (consumed ++ chunk) ++ h1.input ≡ stream
      → h1.forward ≡ some f
      → Holds start f out
      → h1.chunk_state ≡ chunk_data
      → h1.content_len ≡ pos n
      → h1.cs ≡ cs60
      → h1.rbuf ≡ none
      → h1.wbuf ≡ null
      → 0 < length chunk
      → length chunk ≤ n
      → Honest disk
      → AfterOk env stream start (data_read env h1 h1.forward false chunk disk)
  unfolding data_read chunk_init
  data-AfterOk h1 f consumed out chunk n disk dec s hf hs state len c60 rb wb more fits ok =
      let step = write_full f chunk disk in
      let r = length chunk in
      let left = pos_part h1.content_len - r in
      let n_is : n ≡ pos_part h1.content_len = sym (ap pos_part len) in
      let (says, honest, quiet, silent, takes) = write_full-disk f chunk disk (ground arith) ok in
      let dec' : dec_run d1 (consumed ++ chunk) ≡ (after_data left, out ++ chunk, []) =
        dec_run-append d1 consumed chunk (ap (λ (r : Result). r.2) dec)
        ∙ ap (λ (q : Result). let t = dec_run q.0 chunk in (t.0, q.1 ++ t.1, t.2))
            (dec ∙ ap (λ k. (data_ k, out, [])) n_is)
        ∙ ap (λ (t : Result). (t.0, out ++ t.1, t.2))
            (dec_run-within (pos_part h1.content_len) chunk more (omega arith)) in
      subst (λ k. AfterOk env stream start (data_read env h1 k false chunk disk)) (sym hf)
        (stored-AfterOk h1 false r step n len (λ good.
          let grown = write_full-Holds start f out chunk disk hs good in
          elim (Bool-cases (left == 0)) [
            | inl end_ ↦ rw end_ (
              in_line step.0 (consumed ++ chunk) (out ++ chunk) d1
                  (dec' ∙ ap (λ k. (after_data k, out ++ chunk, [])) ((==_iff _ _).0 end_)) s refl
                  grown refl (refl, refl, refl) refl rb wb,
              λ t. absurd (false-not_true t),
              honest,
            )
            | inr inside ↦ rw inside (
              in_data step.0 (consumed ++ chunk) (out ++ chunk) left
                  (dec' ∙ ap (λ k. (k, out ++ chunk, [])) (after_data-more left inside)) s refl
                  grown state refl c60 rb wb,
              λ t. absurd (false-not_true t),
              honest,
            )
          ]))
