-- ===== src/Http/Put/Chunked/Turn.antt =====
-- http_put.c: a turn of the event loop on a chunked PUT.
use mathlib.Core.Path.{subst}
use cmogstored.Prelude.{
  ℕ, zero, suc, ◌≤◌, ◌<◌, min, Bytes, List, [], ◌∷◌, ◌++◌, Bool, true, false, Option, some,
  Bool-cases, ◌==◌, ◌≡◌, refl, sym, ap, ◌∙◌, ◌⊎◌, inl, inr, arith, length, take, drop, append_assoc,
  take-append-drop, take-length-take, length-take,
}
use cmogstored.Prelude.Int.{pos}
use cmogstored.TryWrite.{null}
use cmogstored.Http.State.{
  Http, File, ChunkState, chunk_size, chunk_data, chunk_trailer, ChunkCs, Next, next_close,
  next_wait_rd, Run, returns, aborted, ◌>>=◌,
}
use cmogstored.Http.Put.{
  PutEnv, PWrite, file_close_null, Recv, got, would_block, recv_interrupted, recv_failed,
  fsbuf_size,
}
use cmogstored.Http.Put.Commit.{file_close_null-forward}
use cmogstored.Http.Chunk.Decoder.{Decoding, d1, data_, dec_run}
use cmogstored.Http.Chunk.Disk.{Honest}
use cmogstored.Http.Put.Chunked.{
  before_in, before_read, After, again, leaves, stuck, bytes_of, held, read_size, read_in,
  after_read, next_read, chunked_put_in_progress,
}
use cmogstored.Http.Put.Chunked.Feeds.{
  Feeds, in_line, in_data, in_tail, ChunkedEnds, waiting, dropped, AfterOk, Matches-state,
}
use cmogstored.Http.Chunk.Matches.{Matches, in_size}
use cmogstored.Http.Put.Chunked.Steps.{false-not_true}
use cmogstored.Http.Put.Chunked.Reads.{line-AfterOk, tail-AfterOk, data-AfterOk}

before_read-in :
    (h : Http) (f : File) (c : ChunkState)
    → h.wbuf ≡ null
    → h.forward ≡ some f
    → h.chunk_state ≡ c
    → before_read h ≡ before_in c h
unfolding before_read
before_read-in h f c w fw state =
    subst (λ s. before_read h ≡ before_in s h) state (simp (w, fw) refl)

line_state :
    (h : Http) (d : Decoding) → Matches h.cs h d → in_size d ≡ true → h.chunk_state ≡ chunk_size
line_state h d m line = elim (Matches-state h.cs h d m) [
  | inl (state, _) ↦ state
  | inr (n, dn, _, _, _) ↦ absurd (false-not_true (rw dn at line))
]

-- the client is ready for the read(2)
before_read-Feeds :
    (stream : Bytes) (start : ℕ) (h : Http)
    → Feeds stream start h
    → (h' : Http) × (before_read h ≡ returns h')
      × Feeds stream start h'
      × ((h.chunk_state ≡ chunk_trailer) → (h'.chunk_state ≡ chunk_trailer))
before_read-Feeds stream start h (in_line f consumed out d dec s hf hs line m o rb wb) = (
  h,
  before_read-in h f chunk_size wb hf (line_state h d m line),
  in_line f consumed out d dec s hf hs line m o rb wb,
  λ e. e,
)
before_read-Feeds stream start h (in_data f consumed out zero dec s hf hs state len c60 rb wb) = (
  record h { chunk_state = chunk_trailer; offset = 0 },
  before_read-in h f chunk_data wb hf state ∙ simp (rb, len) refl,
  in_tail f consumed out [] dec s hf hs (refl, inr (c60, len))
      (ap (λ r. length (bytes_of r)) (sym rb)) wb,
  λ e. refl,
)
before_read-Feeds stream start h (in_data f consumed out (suc n) dec s hf hs state len c60 rb wb) =
    (
      h,
      before_read-in h f chunk_data wb hf state ∙ simp (rb, len) refl,
      in_data f consumed out (suc n) dec s hf hs state len c60 rb wb,
      λ e. e,
    )
before_read-Feeds stream start h (in_tail f consumed out left dec s hf hs t o wb) = (
  h,
  before_read-in h f chunk_trailer wb hf t.0,
  in_tail f consumed out left dec s hf hs t o wb,
  λ e. e,
)

abbrev is_trailer_state : ChunkState → Bool
is_trailer_state chunk_trailer = true
is_trailer_state _ = false

-- the flag is off in any other state
not_there :
    {s : ChunkState} (in_trailer : Bool) (c : ChunkState)
    → s ≡ c
    → is_trailer_state c ≡ false
    → ((in_trailer ≡ true) → (s ≡ chunk_trailer))
    → in_trailer ≡ false
not_there false c e o flag = refl
not_there true c e o flag = ap is_trailer_state (sym (flag refl) ∙ e) ∙ o

size_of :
    (h : Http) (k : ℕ)
    → h.chunk_state ≡ chunk_data
    → h.content_len ≡ pos k
    → read_size h ≡ min fsbuf_size k
size_of h k state len = rw (read_size, state, len) refl

-- what is read and what is left in the socket
split :
    (consumed : Bytes) (k : ℕ) (input : Bytes)
    → (consumed ++ take k input) ++ drop (length (take k input)) input ≡ consumed ++ input
split consumed k input =
    append_assoc consumed (take k input) _
    ∙ ap (◌++◌ consumed) (
        ap (λ (t : Bytes). t ++ drop (length (take k input)) input) (sym (take-length-take k input))
        ∙ take-append-drop (length (take k input)) input)

Matches-input :
    (cs : ChunkCs) (h : Http) (rest : Bytes) (d : Decoding)
    → Matches cs h d
    → Matches cs (record h { input = rest }) d
Matches-input cs h rest d m = ground arith

module _ (decode : Bytes → Option Bytes) (env : PutEnv) (stream : Bytes) (start : ℕ) where
  at_state :
      (h h' : Http) (in_trailer : Bool) (disk : List PWrite) (chunk : Bytes) (c : ChunkState)
      → h.chunk_state ≡ c
      → AfterOk env stream start (read_in decode env c h' in_trailer disk chunk)
      → AfterOk env stream start (read_in decode env h.chunk_state h' in_trailer disk chunk)
  at_state h h' in_trailer disk chunk c e ok =
      subst (λ s. AfterOk env stream start (read_in decode env s h' in_trailer disk chunk)) (sym e)
        ok

  -- a read(2) that returns bytes
  read_in-AfterOk :
      (h : Http) (in_trailer : Bool) (disk : List PWrite) (n : ℕ)
      → Feeds stream start h
      → ((in_trailer ≡ true) → (h.chunk_state ≡ chunk_trailer))
      → Honest disk
      → let chunk = take (min n (read_size h)) h.input in
        let h' = record h { input = drop (length chunk) h.input } in
        0 < length chunk
        → AfterOk env stream start (read_in decode env h.chunk_state h' in_trailer disk chunk)
  read_in-AfterOk h in_trailer disk n (in_line f consumed out d dec s hf hs line m o rb wb) flag ok
        more =
      let chunk = take (min n (read_size h)) h.input in
      let h' = record h { input = drop (length chunk) h.input } in
      let state = line_state h d m line in
      let off : in_trailer ≡ false = not_there in_trailer chunk_size state refl flag in
      let whole : held h' ++ chunk ≡ chunk = ap (λ r. bytes_of r ++ chunk) rb in
      at_state h h' in_trailer disk chunk chunk_size state (
        rw (off, whole)
          (line-AfterOk decode env stream start h' f consumed out chunk d disk dec
            (split consumed (min n (read_size h)) h.input ∙ s) hf hs
            (Matches-input h.cs h (drop (length chunk) h.input) d m) o wb ok))
  read_in-AfterOk h in_trailer disk n (in_data f consumed out k dec s hf hs state len c60 rb wb)
        flag ok more =
      let chunk = take (min n (read_size h)) h.input in
      let h' = record h { input = drop (length chunk) h.input } in
      let off : in_trailer ≡ false = not_there in_trailer chunk_data state refl flag in
      let size : read_size h ≡ min fsbuf_size k = size_of h k state len in
      let fits : length chunk ≤ k = omega (arith, length-take (min n (read_size h)) h.input) in
      at_state h h' in_trailer disk chunk chunk_data state (
        rw off (
          data-AfterOk decode env stream start h' f consumed out chunk k disk dec
            (split consumed (min n (read_size h)) h.input ∙ s) hf hs state len c60 rb wb more fits
            ok))
  read_in-AfterOk h in_trailer disk n (in_tail f consumed out left dec s hf hs t o wb) flag ok
        more =
      let chunk = take (min n (read_size h)) h.input in
      let h' = record h { input = drop (length chunk) h.input } in
      at_state h h' in_trailer disk chunk chunk_trailer t.0 (
        tail-AfterOk decode env stream start true h' f consumed out left chunk disk dec
          (split consumed (min n (read_size h)) h.input ∙ s) hf hs t o wb more ok)

  after_read-AfterOk :
      (h : Http) (in_trailer : Bool) (disk : List PWrite) (n : ℕ)
      → Feeds stream start h
      → ((in_trailer ≡ true) → (h.chunk_state ≡ chunk_trailer))
      → Honest disk
      → AfterOk env stream start (after_read decode env h in_trailer disk n)
  unfolding after_read
  after_read-AfterOk h in_trailer disk n feeds flag ok =
      elim (Bool-cases (length (take (min n (read_size h)) h.input) == 0)) [
        | inl eof ↦ rw eof (dropped refl (file_close_null-forward h))
        | inr more ↦ rw more (read_in-AfterOk h in_trailer disk n feeds flag ok (ground arith))
      ]

  -- a turn ends, or it aborts in the trailers
  abbrev pub TurnEnds : Run (Next × Http) → Type 0
  TurnEnds r =
      ((q : Next × Http) × (r ≡ returns q) × ChunkedEnds env stream start q.0 q.1)
      ⊎ ((r ≡ aborted) × ((dec_run d1 stream).0 ≡ data_ 0))

  next_read-TurnEnds :
      (go : Http → Bool → List PWrite → Run (Next × Http)) (a : After)
      → ((h : Http) (in_trailer : Bool) (disk : List PWrite)
          → Feeds stream start h
          → ((in_trailer ≡ true) → (h.chunk_state ≡ chunk_trailer))
          → Honest disk
          → TurnEnds (go h in_trailer disk))
      → AfterOk env stream start a
      → TurnEnds (next_read go a)
  next_read-TurnEnds go (again h in_trailer disk) ih (feeds, flag, ok) =
      ih h in_trailer disk feeds flag ok
  next_read-TurnEnds go (leaves (n, h)) ih ends = inl ((n, h), refl, ends)
  next_read-TurnEnds go stuck ih dz = inr (refl, dz)

  -- the read(2) after `before_read`
  bind-TurnEnds :
      (h : Http) (k : Http → Run (Next × Http))
      → Feeds stream start h
      → ((h' : Http)
          → Feeds stream start h'
          → ((h.chunk_state ≡ chunk_trailer) → (h'.chunk_state ≡ chunk_trailer))
          → TurnEnds (k h'))
      → TurnEnds (before_read h >>= k)
  bind-TurnEnds h k feeds next =
      let (h', eq, feeds', keeps) = before_read-Feeds stream start h feeds in
      subst (λ r. TurnEnds (r >>= k)) (sym eq) (next h' feeds' keeps)

  -- A turn of the event loop on a chunked PUT, for every way in which socket and disk answer, and
  -- however the client's bytes are split over the reads. It starts with the decoded part of the
  -- body in the file. It ends waiting in the same way; or in the commit, with exactly the body in
  -- the file that the abstract decoder makes of the client's bytes; or with the connection to be
  -- closed and the file closed. Only at an assertion in the trailers it aborts, when the client has
  -- sent the whole body.
  pub chunked_put-TurnEnds :
      (ks : List Recv) (h : Http) (in_trailer : Bool) (disk : List PWrite)
      → Feeds stream start h
      → ((in_trailer ≡ true) → (h.chunk_state ≡ chunk_trailer))
      → Honest disk
      → TurnEnds (chunked_put_in_progress decode env h in_trailer disk ks)
  unfolding chunked_put_in_progress
  chunked_put-TurnEnds [] h in_trailer disk feeds flag ok =
      bind-TurnEnds h _ feeds
        (λ h' feeds' keeps. inl ((next_wait_rd, h'), refl, waiting refl feeds'))
  chunked_put-TurnEnds (would_block ∷ ks) h in_trailer disk feeds flag ok =
      bind-TurnEnds h _ feeds
        (λ h' feeds' keeps. inl ((next_wait_rd, h'), refl, waiting refl feeds'))
  chunked_put-TurnEnds (recv_interrupted ∷ ks) h in_trailer disk feeds flag ok =
      chunked_put-TurnEnds ks h in_trailer disk feeds flag ok
  chunked_put-TurnEnds (recv_failed ∷ ks) h in_trailer disk feeds flag ok =
      bind-TurnEnds h _ feeds (λ h' feeds' keeps.
        inl ((next_close, file_close_null h'), refl, dropped refl (file_close_null-forward h')))
  chunked_put-TurnEnds (got n ∷ ks) h in_trailer disk feeds flag ok =
      bind-TurnEnds h _ feeds (λ h' feeds' keeps.
        next_read-TurnEnds _ (after_read decode env h' in_trailer disk n)
          (λ h'' in_trailer' disk'. chunked_put-TurnEnds ks h'' in_trailer' disk')
          (after_read-AfterOk h' in_trailer disk n feeds' (λ t. keeps (flag t)) ok))
