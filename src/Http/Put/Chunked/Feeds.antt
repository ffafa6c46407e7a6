-- ===== src/Http/Put/Chunked/Feeds.antt =====
-- http_put.c: a chunked PUT over further reads, for every way in which the client's bytes are split:
-- what is in the file is what the abstract decoder makes of the bytes.
use cmogstored.Prelude.{
  ℕ, suc, ◌-◌, Bytes, [], ◌++◌, true, ◌||◌, none, some, Bool-cases, ltb, leb, ◌==◌, ◌≡◌, refl, ◌⊎◌,
  inl, inr, arith, length, length-drop, drop,
}
use cmogstored.Prelude.Int.{pos}
use cmogstored.TryWrite.{null}
use cmogstored.Http.State.{
  returns, aborted, Http, File, chunk_size, chunk_data, chunk_trailer, cs60, ChunkCs, Next,
  next_close, next_wait_rd,
}
use cmogstored.Http.Put.{PutEnv, http_put_commit}
use cmogstored.Http.Put.Body.{Holds}
use cmogstored.Http.Put.Start.{stash_rest, stash_ok, stash_advance_rbuf}
use cmogstored.Http.Chunk.Decoder.{Decoding, d1, d2, d3, d4, d5, d6, failed, data_, dec_run}
use cmogstored.Http.Chunk.Disk.{Honest}
use cmogstored.Http.Chunk.Matches.{Matches, in_size}
use cmogstored.Http.Chunk.Parse.{InTrailers}
use cmogstored.Http.Put.Chunked.{After, again, leaves, stuck, good_rbuf, held}

-- A chunked PUT between two reads. `stream` is all that the client sends behind the header; what
-- has been read of it is decoded, and the body so far is in the file, from offset `start` on. The
-- client is in a chunk's first line; or in a chunk, or at the end of the last one; or in the
-- trailers, with the end of a line still in the read buffer.
pub data Feeds (stream : Bytes) (start : ℕ) (h : Http) : Type 0 where
  in_line :
      (f : File) (consumed out : Bytes) (d : Decoding)
      → dec_run d1 consumed ≡ (d, out, [])
      → consumed ++ h.input ≡ stream
      → h.forward ≡ some f
      → Holds start f out
      → in_size d ≡ true
      → Matches h.cs h d
      → h.offset ≡ 0
      → h.rbuf ≡ none
      → h.wbuf ≡ null
      → Feeds stream start h
  in_data :
      (f : File) (consumed out : Bytes) (n : ℕ)
      → dec_run d1 consumed ≡ (data_ n, out, [])
      → consumed ++ h.input ≡ stream
      → h.forward ≡ some f
      → Holds start f out
      → h.chunk_state ≡ chunk_data
      → h.content_len ≡ pos n
      → h.cs ≡ cs60
      → h.rbuf ≡ none
      → h.wbuf ≡ null
      → Feeds stream start h
  in_tail :
      (f : File) (consumed out left : Bytes)
      → dec_run d1 consumed ≡ (data_ 0, out, left)
      → consumed ++ h.input ≡ stream
      → h.forward ≡ some f
      → Holds start f out
      → InTrailers h
      → h.offset ≡ length (held h)
      → h.wbuf ≡ null
      → Feeds stream start h

-- Where a turn of the event loop on such a PUT ends.
pub data ChunkedEnds (env : PutEnv) (stream : Bytes) (start : ℕ) (n : Next) (h : Http)
    : Type 0 where
  waiting : n ≡ next_wait_rd → Feeds stream start h → ChunkedEnds env stream start n h
  committed :
      (g : Http) (f : File) (out left : Bytes)
      → http_put_commit env g f ≡ (n, h)
      → g.forward ≡ some f
      → Holds start f out
      → dec_run d1 stream ≡ (data_ 0, out, left)
      → ChunkedEnds env stream start n h
  dropped : n ≡ next_close → h.forward ≡ none → ChunkedEnds env stream start n h

-- A turn of the loop: it stops at an assertion in the trailers only.
abbrev pub AfterOk : PutEnv → Bytes → ℕ → After → Type 0
AfterOk env stream start (again h in_trailer disk) =
    Feeds stream start h × ((in_trailer ≡ true) → (h.chunk_state ≡ chunk_trailer)) × Honest disk
AfterOk env stream start (leaves (n, h)) = ChunkedEnds env stream start n h
AfterOk env stream start stuck = (dec_run d1 stream).0 ≡ data_ 0

-- the assertions of `stash_advance_rbuf` hold, or one of them fails
pub stash_cases :
    (h : Http) (buf : Bytes)
    → (stash_advance_rbuf h buf ≡ returns (stash_rest h buf)) ⊎ (stash_advance_rbuf h buf ≡ aborted)
unfolding stash_advance_rbuf
stash_cases h buf = elim (Bool-cases (stash_ok h buf)) [
  | inl ok ↦ rw ok (inl refl)
  | inr bad ↦ rw bad (inr refl)
]

-- what `stash_rest` leaves alone
pub stash-keeps :
    (h : Http) (buf : Bytes)
    → let s = stash_rest h buf in
      (s.forward ≡ h.forward)
      × (s.input ≡ h.input)
      × (s.wbuf ≡ h.wbuf)
      × (s.cs ≡ h.cs)
      × (s.content_len ≡ h.content_len)
      × (s.chunk_state ≡ h.chunk_state)
unfolding stash_rest
stash-keeps h buf = elim (Bool-cases (h.line_end == 0 || leb (length buf) (suc h.line_end))) [
  | inl all ↦ rw all (refl, refl, refl, refl, refl, refl)
  | inr some_ ↦ rw some_ (refl, refl, refl, refl, refl, refl)
]

-- all of the buffer has been parsed, and the offset is at the end of what is kept
pub stash-held :
    (h : Http) (buf : Bytes)
    → h.offset ≡ length buf
    → let s = stash_rest h buf in s.offset ≡ length (held s)
unfolding stash_rest
stash-held h buf o = elim (Bool-cases (h.line_end == 0 || leb (length buf) (suc h.line_end))) [
  | inl all ↦ rw all refl
  | inr some_ ↦ rw some_ (omega (arith, length-drop (suc h.line_end) buf))
]

-- behind the empty line: what is kept starts there
pub stash-good :
    (h : Http) (buf : Bytes) → h.offset ≡ suc h.line_end → good_rbuf (stash_rest h buf) ≡ true
unfolding stash_rest
stash-good h buf o = elim (Bool-cases (h.line_end == 0 || leb (length buf) (suc h.line_end))) [
  | inl all ↦ rw all refl
  | inr some_ ↦
      let some_left : ltb 0 (length (drop (suc h.line_end) buf)) ≡ true =
        ground (arith, length-drop (suc h.line_end) buf) in
      let at_start : (h.offset - suc h.line_end == 0) ≡ true = ground arith in
      rw (some_, some_left, at_start) refl
]

pub Matches-state :
    (cs : ChunkCs) (h : Http) (d : Decoding)
    → Matches cs h d
    → ((h.chunk_state ≡ chunk_size) × (in_size d ≡ true))
      ⊎ ((n : ℕ) × (d ≡ data_ n)
          × (h.chunk_state ≡ chunk_data)
          × (h.content_len ≡ pos n)
          × (cs ≡ cs60))
Matches-state cs h (data_ n) (a, b, c) = inr (n, refl, c, b, a)
Matches-state cs h d1 m = inl (m.2, refl)
Matches-state cs h d2 m = inl (m.2, refl)
Matches-state cs h d3 m = inl (m.2, refl)
Matches-state cs h (d4 n) m = inl (m.2, refl)
Matches-state cs h (d5 n) m = inl (m.2, refl)
Matches-state cs h (d6 n) m = inl (m.2, refl)
Matches-state cs h failed m = absurd m
