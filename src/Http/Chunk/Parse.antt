-- ===== src/Http/Chunk/Parse.antt =====
-- chunk_parser.c: `mog_chunk_parse` as a whole: one buffer of a chunked body.
use cmogstored.Prelude.{
  ℕ, suc, ◌≤◌, ◌<◌, Bytes, List, [], ◌∷◌, ◌++◌, true, false, ◌||◌, Option, some, Bool-cases, ◌≡◌,
  refl, ◌∙◌, ◌⊎◌, inl, inr, arith, length, length-drop, drop,
}
use cmogstored.Prelude.Int.{pos}
use cmogstored.Http.State.{Http, File, chunk_trailer, ChunkCs, cs16, cs60, Errno, no_error}
use cmogstored.Http.Put.{PWrite}
use cmogstored.Http.Put.Body.{Holds}
use cmogstored.Http.Put.Start.{parser_done}
use cmogstored.Http.Trailer.{Scan, at_end, bad_md5, finished, rescans, broken, trailer_run}
use cmogstored.Http.Trailer.Ends.{is_trailer, Settles, trailer_run-Settles}
use cmogstored.Http.Chunk.{
  is_size, is_cs0, is_cs60, is_errno, Exec, trailers_out, to_trailers, chunk_exec, settled_cs,
  chunk_result, unless_crashed, chunk_parse,
}
use cmogstored.Http.Chunk.Decoder.{Decoding, data_, dec_run}
use cmogstored.Http.Chunk.Disk.{Honest}
use cmogstored.Http.Chunk.Matches.{Matches}
use cmogstored.Http.Chunk.Sound.{
  Calm, ChunkEnds, fed, final, bad_size, disk_failed, chunk_exec-Ends,
}
use cmogstored.Http.Chunk.Equations.{exec_final}
use cmogstored.Http.Chunk.Outcome.{
  Kept, in_chunks, in_trailers, at_done, rejected, ParseRun, asserts, left_as, chunk_result-error,
  chunk_result-going, Matches-accepted, errno-shows, bad_size-shows, Matches-offset, returned,
}

module _ (len start : ℕ) (h0 : Http) (disk0 : List PWrite) (f : File) (total : Bytes) (left : Bytes)
    (some_left : 0 < length left) where
  scan-ParseRun :
      (d : Decoding) (e : Errno) (disk : List PWrite) (h : Http) (s : Scan)
      → Settles len h s
      → h.forward ≡ some f
      → Holds start f total
      → d ≡ data_ 0
      → h.chunk_state ≡ chunk_trailer
      → Kept h h0
      → Calm disk0 e disk
      → ParseRun len start h0 disk0 total d left (unless_crashed (trailers_out e disk h s))
  scan-ParseRun d e disk h (rescans h') st hf hs dz cst k calm = absurd st
  scan-ParseRun d e disk h broken st hf hs dz cst k calm = asserts refl dz some_left
  scan-ParseRun d e disk h (Scan.refused h') st hf hs dz cst k calm =
      returned len start h0 disk0 total left d _ refl
        (rejected (chunk_result-error _ refl) (inr (inl (dz, some_left))))
  scan-ParseRun d e disk h (bad_md5 h') st hf hs dz cst k calm =
      returned len start h0 disk0 total left d _ refl
        (rejected (chunk_result-error _ refl) (inr (inl (dz, some_left))))
  scan-ParseRun d e disk h (at_end cs p h') (same, state, pl, trail) hf hs dz cst (i, r, w) calm =
      let x = trailers_out e disk h (at_end cs p h') in
      returned len start h0 disk0 total left d x refl
        (elim (Bool-cases (is_cs0 (settled_cs x) || is_errno x.errno)) [
          | inl bad ↦ rejected (chunk_result-error x bad) (inr (inl (dz, some_left)))
          | inr good ↦
              let (st, eq, which) = chunk_result-going x good in
              rw eq (
                in_trailers f which (same.forward_same ∙ hf) hs dz (state ∙ cst) trail pl
                  (same.input_same ∙ i, same.rbuf_same ∙ r, same.wbuf_same ∙ w) calm.0 some_left)
        ])
  scan-ParseRun d e disk h (finished p h') (same, state, pl, bound) hf hs dz cst (i, r, w) calm =
      let x = trailers_out e disk h (finished p h') in
      returned len start h0 disk0 total left d x refl (elim (Bool-cases (is_errno e)) [
        | inl bad ↦ rejected (chunk_result-error x bad) (inr (inl (dz, some_left)))
        | inr good ↦
            let eq : chunk_result x ≡ (parser_done, e, left_as x, disk) =
              unfold chunk_result in rw good refl in
            rw eq (
              at_done f refl (same.forward_same ∙ hf) hs dz state pl bound
                (same.input_same ∙ i, same.rbuf_same ∙ r, same.wbuf_same ∙ w) calm.0 some_left)
      ])

  -- at the first byte behind the final chunk's line
  to_trailers-ParseRun :
      (decode : Bytes → Option Bytes) (buf : Bytes) (d : Decoding) (e : Errno) (disk : List PWrite)
      (h : Http) (q : ℕ)
      → length buf ≡ len
      → q ≤ len
      → h.forward ≡ some f
      → Holds start f total
      → d ≡ data_ 0
      → Kept h h0
      → Calm disk0 e disk
      → let t = to_trailers q h in
        ParseRun len start h0 disk0 total d left
          (unless_crashed (trailers_out e disk t (trailer_run decode buf cs16 q t)))
  to_trailers-ParseRun decode buf d e disk h q bl ql hf hs dz k calm =
      let st = trailer_run-Settles decode buf cs16 q (to_trailers q h) (omega arith) refl in
      scan-ParseRun d e disk (to_trailers q h) (trailer_run decode buf cs16 q (to_trailers q h))
        (rw bl at st) hf hs dz refl k calm

-- One buffer of a chunked body, where `body` is in the file already and the scanner stands where
-- the decoder does in `d`. The body's bytes in the buffer, and only they, are in the file then. The
-- scanner has taken the whole buffer, and is in a chunk where the decoder is, or in the trailers;
-- or it stands behind the empty line that ends the trailers; or the body is refused for one of the
-- reasons named.
pub chunk_parse-ParseRun :
    (decode : Bytes → Option Bytes) (h : Http) (buf : Bytes) (disk : List PWrite) (start : ℕ)
    (f : File) (body : Bytes) (d : Decoding)
    → Matches h.cs h d
    → h.forward ≡ some f
    → Holds start f body
    → h.offset ≤ length buf
    → Honest disk
    → let r = dec_run d (drop h.offset buf) in
      ParseRun (length buf) start h disk (body ++ r.1) r.0 r.2 (chunk_parse decode h buf disk)
unfolding chunk_parse
chunk_parse-ParseRun decode h buf disk start f body d m hf hs ol ok = by_end (
    chunk_exec-Ends decode buf start h disk (suc (length buf)) h.cs h.offset no_error h f disk
      (drop h.offset buf) body d m hf hs (omega (arith, length-drop h.offset buf))
      (omega (arith, length-drop h.offset buf)) (refl, refl, refl, refl) (ok, λ q. (refl, q)))
  where
    by_end :
        {total : Bytes} {d' : Decoding} {left : Bytes} {x : Exec}
        → ChunkEnds decode buf start h disk total d' left x
        → ParseRun (length buf) start h disk total d' left (unless_crashed x)
    by_end {x = x} (fed f' hf' hs' nl m' pl u calm c) =
        returned (length buf) start h disk _ _ _ x c
          (elim (Bool-cases (is_cs0 (settled_cs x) || is_errno x.errno)) [
            | inl bad ↦
                rejected (chunk_result-error x bad)
                  (inr (inr (λ q. Matches-accepted x _ m' (calm.1 q).0 bad)))
            | inr good ↦
                let (st, eq, which) = chunk_result-going x good in
                rw eq (in_chunks f' which hf' hs' nl (Matches-offset _ x.p x.http _ m') pl u calm.0)
          ])
    by_end {x = x} (final f' h' q e disk' eq hf' hs' dz ql lt (i, r, w, l) calm) = rw eq (
        to_trailers-ParseRun (length buf) start h disk f' _ _ lt decode buf _ e disk' h' q refl
          (omega arith) hf' hs' dz (i, r, w) calm)
    by_end {total = t} {left = l} {x = x} (bad_size df rd why c) =
        returned (length buf) start h disk t l _ x c
          (rejected (chunk_result-error x (bad_size-shows x rd why)) (inl df))
    by_end {total = t} {left = l} {x = x} (disk_failed se why c) =
        returned (length buf) start h disk t l _ x c
          (rejected (chunk_result-error x (errno-shows x se)) (inr (inr why)))

-- the scanner is in the trailers: there in the middle of a line, or still at the end of the last
-- chunk's size
abbrev pub InTrailers : Http → Type 0
InTrailers h =
    (h.chunk_state ≡ chunk_trailer)
    × ((is_trailer h.cs ≡ true) ⊎ ((h.cs ≡ cs60) × (h.content_len ≡ pos 0)))

trailer-apart : (cs : ChunkCs) → is_trailer cs ≡ true → (is_size cs ≡ false) × (is_cs60 cs ≡ false)
trailer-apart cs t = ground arith

exec-trailers :
    (n : ℕ) (decode : Bytes → Option Bytes) (buf : Bytes) (cs : ChunkCs) (p : ℕ) (e : Errno)
    (h : Http) (disk : List PWrite) (c : ℕ) (rest : Bytes)
    → is_trailer cs ≡ true
    → chunk_exec (suc n) decode buf cs p e h disk (c ∷ rest)
      ≡ trailers_out e disk h (trailer_run decode buf cs p h)
unfolding chunk_exec
exec-trailers n decode buf cs p e h disk c rest t =
    let (s, z) = trailer-apart cs t in rw (s, z) refl

-- A further buffer of the trailers of a body that is in the file: nothing more goes to the file.
pub chunk_parse-trailers :
    (decode : Bytes → Option Bytes) (h : Http) (buf : Bytes) (disk : List PWrite) (start : ℕ)
    (f : File) (total left : Bytes)
    → 0 < length left
    → InTrailers h
    → h.forward ≡ some f
    → Holds start f total
    → h.offset < length buf
    → Honest disk
    → ParseRun (length buf) start h disk total (data_ 0) left (chunk_parse decode h buf disk)
unfolding chunk_parse
chunk_parse-trailers decode h buf disk start f total left more (state, at) hf hs ol ok =
    by_rest (drop h.offset buf) (omega (arith, length-drop h.offset buf)) at
  where
    by_rest :
        (rest : Bytes)
        → 0 < length rest
        → (is_trailer h.cs ≡ true) ⊎ ((h.cs ≡ cs60) × (h.content_len ≡ pos 0))
        → ParseRun (length buf) start h disk total (data_ 0) left (
            unless_crashed
              (chunk_exec (suc (length buf)) decode buf h.cs h.offset no_error h disk rest))
    by_rest [] lt k = absurd (omega arith)
    by_rest (c ∷ rest) lt (inl t) =
        rw (exec-trailers (length buf) decode buf h.cs h.offset no_error h disk c rest t) (
          scan-ParseRun (length buf) start h disk f total left more (data_ 0) no_error disk h _
            (trailer_run-Settles decode buf h.cs h.offset h (omega arith) t) hf hs refl state
            (refl, refl, refl) (ok, λ q. (refl, q)))
    by_rest (c ∷ rest) lt (inr (c60, len)) =
        rw (exec_final (length buf) decode buf h.cs h.offset no_error h disk c rest c60 len) (
          to_trailers-ParseRun (length buf) start h disk f total left more decode buf (data_ 0)
            no_error disk h h.offset refl (omega arith) hf hs refl (refl, refl, refl)
            (ok, λ q. (refl, q)))
