-- ===== src/Http/Chunk/Whole.antt =====
-- chunk_parser.c: a whole coded body in one buffer.
use cmogstored.Prelude.{
  ℕ, ◌≤◌, Bytes, List, [], Option, some, ◌≡◌, ap, ◌∙◌, arith, drop, length, ◌⊎◌, inl, inr, sym,
  append-nil,
}
use cmogstored.Http.State.{Http, File, Run, returns, chunk_data}
use cmogstored.Prelude.Int.{pos}
use cmogstored.Http.Put.Start.{parser_done, parser_continue}
use cmogstored.Http.Put.{PWrite}
use cmogstored.Http.Put.Body.{Holds}
use cmogstored.Http.Chunk.{chunk_parse}
use cmogstored.Http.Chunk.Decoder.{d1, data_, failed, dec_run}
use cmogstored.Http.Chunk.Coding.{Coded, dec_run-Coded}
use cmogstored.Http.Chunk.Disk.{Honest, Quiet}
use cmogstored.Http.Chunk.Matches.{Matches}
use cmogstored.Http.Chunk.Outcome.{
  Parsed, ParseEnds, in_chunks, in_trailers, at_done, rejected, ParseRun, ran, asserts,
}
use cmogstored.Http.Chunk.Parse.{chunk_parse-ParseRun}

not_failed : data_ 0 ≡ failed → ⊥
not_failed e = cc

-- A buffer that ends with a body in the chunked coding, up to the last chunk's line, with less than
-- 2^63 bytes in each chunk, where the disk stores all that it is given. Then `mog_chunk_parse` returns without an error, and the body's bytes,
-- without sizes, extensions and line ends, are in the file, however the body is cut into chunks.
pub chunk_parse-Coded :
    (decode : Bytes → Option Bytes) (h : Http) (buf s body : Bytes) (disk : List PWrite) (start : ℕ)
    (f : File)
    → Matches h.cs h d1
    → h.forward ≡ some f
    → Holds start f []
    → h.offset ≤ length buf
    → drop h.offset buf ≡ s
    → Coded s body
    → Honest disk
    → Quiet disk
    → (q : Parsed) × (f' : File) × (chunk_parse decode h buf disk ≡ returns q)
      × ((q.0 ≡ parser_done) ⊎ (q.0 ≡ parser_continue))
      × (q.2.forward ≡ some f')
      × Holds start f' body
      × (q.2.content_len ≡ pos 0)
      × (q.2.chunk_state ≡ chunk_data)
chunk_parse-Coded decode h buf s body disk start f m hf hs ol e coded ok calm =
    let run : dec_run d1 (drop h.offset buf) ≡ (data_ 0, body, []) =
      ap (dec_run d1) (e ∙ sym (append-nil s)) ∙ dec_run-Coded s body [] coded in
    let parse = chunk_parse-ParseRun decode h buf disk start f [] d1 m hf hs ol ok in
    by_run (rw run at parse)
  where
    by_end :
        (q : Parsed)
        → ParseEnds (length buf) start h disk body (data_ 0) [] q
        → (f' : File) × ((q.0 ≡ parser_done) ⊎ (q.0 ≡ parser_continue))
          × (q.2.forward ≡ some f')
          × Holds start f' body
          × (q.2.content_len ≡ pos 0)
          × (q.2.chunk_state ≡ chunk_data)
    by_end q (in_chunks f' which hf' hs' nl m' ol' u ok') = (f', which, hf', hs', m'.1, m'.2)
    by_end q (in_trailers f' which hf' hs' dz state t o k ok' some_) = absurd (omega arith)
    by_end q (at_done f' done hf' hs' dz state o b k ok' some_) = absurd (omega arith)
    by_end q (rejected er (inl bad)) = absurd (not_failed bad)
    by_end q (rejected er (inr (inl (dz, some_)))) = absurd (omega arith)
    by_end q (rejected er (inr (inr disturbed))) = absurd (disturbed calm)

    by_run :
        {r : Run Parsed}
        → ParseRun (length buf) start h disk body (data_ 0) [] r
        → (q : Parsed) × (f' : File) × (r ≡ returns q)
          × ((q.0 ≡ parser_done) ⊎ (q.0 ≡ parser_continue))
          × (q.2.forward ≡ some f')
          × Holds start f' body
          × (q.2.content_len ≡ pos 0)
          × (q.2.chunk_state ≡ chunk_data)
    by_run (ran q eq ends) =
        let (f', w, hf', hs', len, state) = by_end q ends in (q, f', eq, w, hf', hs', len, state)
    by_run (asserts eq dz some_) = absurd (omega arith)
