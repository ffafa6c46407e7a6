-- ===== src/Http/Chunk/Outcome.antt =====
-- chunk_parser.c: what `mog_chunk_parse` can come to, and its result at the end of the loop.
use cmogstored.Prelude.{
  ℕ, suc, ◌≤◌, ◌<◌, Bytes, List, [], true, false, ◌||◌, some, Bool-cases, ◌≡◌, refl, sym, ◌∙◌, ◌⊎◌,
  inl, inr, arith, length,
}
use cmogstored.Http.State.{
  Http, File, chunk_trailer, chunk_done, ChunkCs, cs0, Errno, no_error, erange, Run, returns,
  aborted,
}
use cmogstored.Http.Put.{PWrite}
use cmogstored.Http.Put.Body.{Holds}
use cmogstored.Http.Put.Start.{ParserState, parser_error, parser_done, parser_continue}
use cmogstored.Http.Trailer.Ends.{is_trailer}
use cmogstored.Http.Chunk.{
  is_cs0, is_cs60, is_errno, Exec, settled_cs, chunk_result, unless_crashed,
}
use cmogstored.Http.Chunk.Decoder.{Decoding, data_, failed}
use cmogstored.Http.Chunk.Disk.{Honest, Quiet}
use cmogstored.Http.Chunk.Matches.{Matches, Untouched}

abbrev pub Parsed : Type 0
Parsed = ParserState × Errno × Http × List PWrite

-- the socket and the buffers of the client are as before
abbrev pub Kept : Http → Http → Type 0
Kept h' h = (h'.input ≡ h.input) × (h'.rbuf ≡ h.rbuf) × (h'.wbuf ≡ h.wbuf)

-- Why a body is refused: it is malformed before its end; it has trailers in the buffer; or a
-- signal interrupts pwrite(2), or pwrite(2) fails.
abbrev pub Reason : List PWrite → Decoding → Bytes → Type 0
Reason disk0 d left = (d ≡ failed) ⊎ (((d ≡ data_ 0) × (0 < length left)) ⊎ (Quiet disk0 → ⊥))

-- What one call comes to. The decoder has come to `d` with `total` as the body.
pub data ParseEnds (len start : ℕ) (h0 : Http) (disk0 : List PWrite) (total : Bytes) (d : Decoding)
    (left : Bytes) (r : Parsed) : Type 0 where
  in_chunks :
      (f : File)
      → (r.0 ≡ parser_done) ⊎ (r.0 ≡ parser_continue)
      → r.2.forward ≡ some f
      → Holds start f total
      → left ≡ []
      → Matches r.2.cs r.2 d
      → r.2.offset ≡ len
      → Untouched r.2 h0
      → Honest r.3
      → ParseEnds len start h0 disk0 total d left r
  in_trailers :
      (f : File)
      → (r.0 ≡ parser_done) ⊎ (r.0 ≡ parser_continue)
      → r.2.forward ≡ some f
      → Holds start f total
      → d ≡ data_ 0
      → r.2.chunk_state ≡ chunk_trailer
      → is_trailer r.2.cs ≡ true
      → r.2.offset ≡ len
      → Kept r.2 h0
      → Honest r.3
      → 0 < length left
      → ParseEnds len start h0 disk0 total d left r
  at_done :
      (f : File)
      → r.0 ≡ parser_done
      → r.2.forward ≡ some f
      → Holds start f total
      → d ≡ data_ 0
      → r.2.chunk_state ≡ chunk_done
      → r.2.offset ≡ suc r.2.line_end
      → r.2.offset ≤ len
      → Kept r.2 h0
      → Honest r.3
      → 0 < length left
      → ParseEnds len start h0 disk0 total d left r
  rejected : r.0 ≡ parser_error → Reason disk0 d left → ParseEnds len start h0 disk0 total d left r

-- what `mog_chunk_parse` comes to, or an assertion fails in the trailers
pub data ParseRun (len start : ℕ) (h0 : Http) (disk0 : List PWrite) (total : Bytes) (d : Decoding)
    (left : Bytes) (r : Run Parsed) : Type 0 where
  ran :
      (q : Parsed)
      → r ≡ returns q
      → ParseEnds len start h0 disk0 total d left q
      → ParseRun len start h0 disk0 total d left r
  asserts : r ≡ aborted → d ≡ data_ 0 → 0 < length left → ParseRun len start h0 disk0 total d left r

-- the client as the call leaves it
abbrev pub left_as : Exec → Http
left_as x = record x.http { cs = settled_cs x; offset = x.p }

pub chunk_result-error :
    (x : Exec)
    → (is_cs0 (settled_cs x) || is_errno x.errno) ≡ true
    → (chunk_result x).0 ≡ parser_error
unfolding chunk_result
chunk_result-error x e = rw e refl

pub chunk_result-going :
    (x : Exec)
    → (is_cs0 (settled_cs x) || is_errno x.errno) ≡ false
    → (st : ParserState) × (chunk_result x ≡ (st, x.errno, left_as x, x.disk))
      × ((st ≡ parser_done) ⊎ (st ≡ parser_continue))
unfolding chunk_result
chunk_result-going x e = elim (Bool-cases (is_cs60 (settled_cs x))) [
  | inl done ↦ rw (e, done) (parser_done, refl, inl refl)
  | inr more ↦ rw (e, more) (parser_continue, refl, inr refl)
]

Matches-live : (cs : ChunkCs) (h : Http) (d : Decoding) → Matches cs h d → is_cs0 cs ≡ false
Matches-live cs h d m = ground arith

pub Matches-accepted :
    (x : Exec) (d : Decoding)
    → Matches (settled_cs x) x.http d
    → x.errno ≡ no_error
    → (is_cs0 (settled_cs x) || is_errno x.errno) ≡ true
    → ⊥
Matches-accepted x d m e t =
    let live : (is_cs0 (settled_cs x) || is_errno x.errno) ≡ false =
      rw (Matches-live (settled_cs x) x.http d m, e) refl in
    let clash : true ≡ false = sym t ∙ live in cc

pub errno-shows :
    (x : Exec) → is_errno x.errno ≡ true → (is_cs0 (settled_cs x) || is_errno x.errno) ≡ true
errno-shows x e =
    rw e (elim (Bool-cases (is_cs0 (settled_cs x))) [ inl t ↦ rw t refl | inr t ↦ rw t refl ])

pub bad_size-shows :
    (x : Exec)
    → x.really_done ≡ false
    → (x.cs ≡ cs0) ⊎ (x.errno ≡ erange)
    → (is_cs0 (settled_cs x) || is_errno x.errno) ≡ true
bad_size-shows x r (inl c) = rw (r, c) refl
bad_size-shows x r (inr e) = errno-shows x (rw e refl)

pub Matches-offset :
    (cs : ChunkCs) (p : ℕ) (h : Http) (d : Decoding)
    → Matches cs h d
    → Matches cs (record h { cs = cs; offset = p }) d
Matches-offset cs p h d m = ground arith

-- the result where no assertion has failed
pub returned :
    (len start : ℕ) (h0 : Http) (disk0 : List PWrite) (total left : Bytes) (d : Decoding) (x : Exec)
    → x.crashed ≡ false
    → ParseEnds len start h0 disk0 total d left (chunk_result x)
    → ParseRun len start h0 disk0 total d left (unless_crashed x)
returned len start h0 disk0 total left d x c r = ran (chunk_result x) (rw c refl) r
