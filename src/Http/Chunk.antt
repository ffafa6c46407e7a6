-- ===== src/Http/Chunk.antt =====
-- chunk_parser.c: `mog_chunk_parse`, the decoder of chunked bodies. Chunk data goes from the
-- parser's buffer to the file at once.
pub mod Coding
pub mod Decoder
pub mod Disk
pub mod Equations
pub mod Matches
pub mod Outcome
pub mod Parse
pub mod Sound
pub mod Whole
use cmogstored.Prelude.{
  ℕ, zero, suc, ◌+◌, ◌-◌, min, Bytes, List, [], ◌∷◌, Bool, true, false, not, ◌||◌, Option, none,
  some, ◌==◌, if◌then◌else◌, length, take, drop,
}
use cmogstored.Prelude.Int.{ℤ, pos, negsuc, pos_part}
use cmogstored.Http.State.{
  Http, File, chunk_size, chunk_data, chunk_trailer, ChunkCs, cs0, cs1, cs2, cs3, cs4, cs5, cs6,
  cs16, cs60, cs61, Errno, no_error, eintr, einval, erange, Run, returns, aborted,
}
use cmogstored.Http.Lengths.{hexchar2off, chunk_size_incr}
use cmogstored.Http.Put.{PWrite, stored, interrupted, refused, no_space, write_full}
use cmogstored.Http.Put.Start.{ParserState, parser_error, parser_done, parser_continue}
use cmogstored.Http.Trailer
use cmogstored.Http.Trailer.{Scan, at_end, bad_md5, finished, rescans, broken, trailer_run}

-- errno after `mog_http_write_full`, also where it succeeds: an interrupted pwrite(2) leaves EINTR
unfoldable pub errno_loop : ℕ → Errno → List PWrite → Errno
errno_loop len e [] = e
errno_loop len e (stored n ∷ ks) =
    let w = min n len in
    let rest = errno_loop (len - w) e ks in
    if w == 0 then no_space e else if w == len then e else rest
errno_loop len e (interrupted ∷ ks) = errno_loop len eintr ks
errno_loop len e (refused e' ∷ ks) = e'

-- what a byte of a chunk's first line does
pub data SizeAct : Type 0 where
  next : ChunkCs → Http → SizeAct
  overflow bad : SizeAct

abbrev digit : ℕ → Http → SizeAct → SizeAct
digit c h other = elim (hexchar2off c) [
  | none ↦ other
  | some v ↦ elim (chunk_size_incr (pos_part h.content_len) v) [
    | none ↦ overflow
    | some n ↦ next cs4 (record h { content_len = pos n })
  ]
]

-- states 1 to 6
unfoldable pub size_step : ChunkCs → ℕ → Http → SizeAct
size_step cs1 c h = if c == 13 then next cs2 h else digit c h bad
size_step cs2 c h = if c == 10 then next cs3 h else bad
size_step cs3 c h = digit c h bad
size_step cs4 c h = if c == 10 then bad else if c == 13 then next cs6 h else digit c h (next cs5 h)
size_step cs5 c h = if c == 10 then bad else if c == 13 then next cs6 h else next cs5 h
size_step cs6 c h = if c == 10 then next cs60 (record h { chunk_state = chunk_data }) else bad
size_step _ c h = bad

-- the variables of the generated code at its label `_out`, and the disk's further answers
pub record Exec : Type 0 where
  pub cs : ChunkCs
  pub p : ℕ
  pub errno : Errno
  pub really_done : Bool
  -- an assertion of the trailers has failed
  pub crashed : Bool
  pub http : Http
  pub disk : List PWrite

abbrev pub exec_out : ChunkCs → ℕ → Errno → Bool → Http → List PWrite → Exec
exec_out cs q e really h disk = record {
  cs = cs;
  p = q;
  errno = e;
  really_done = really;
  crashed = false;
  http = h;
  disk = disk;
}

-- where the scan of the trailers, which starts with `h0`, leaves; behind an error the position is not
-- used again, and is 0 here
abbrev pub trailers_out : Errno → List PWrite → Http → Scan → Exec
trailers_out e disk h0 (at_end cs q h) = exec_out cs q e false h disk
trailers_out e disk h0 (finished q h) = exec_out cs60 q e true h disk
trailers_out e disk h0 (Scan.refused h) = exec_out cs0 0 e false h disk
trailers_out e disk h0 (bad_md5 h) = exec_out cs0 0 einval false h disk
trailers_out e disk h0 (rescans h) = exec_out cs0 0 e false h disk
trailers_out e disk h0 broken = record (exec_out cs0 0 e false h0 disk) { crashed = true }

-- the final chunk: the scan of the trailers starts at the same byte
abbrev pub to_trailers : ℕ → Http → Http
to_trailers q h = record h {
  chunk_state = chunk_trailer;
  line_end = if q == 0 then h.line_end else q - 1;
}

abbrev pub is_cs60 : ChunkCs → Bool
is_cs60 cs60 = true
is_cs60 _ = false

abbrev pub is_cs0 : ChunkCs → Bool
is_cs0 cs0 = true
is_cs0 _ = false

-- the states of a chunk's first line
abbrev pub is_size : ChunkCs → Bool
is_size cs1 = true
is_size cs2 = true
is_size cs3 = true
is_size cs4 = true
is_size cs5 = true
is_size cs6 = true
is_size _ = false

-- The loop from position `p` on, where `rest` is what is left of the buffer. Each turn but the
-- last takes at least one byte, so one turn more than the buffer has bytes is enough.
unfoldable pub chunk_exec :
    ℕ → (Bytes → Option Bytes) → Bytes → ChunkCs → ℕ → Errno → Http → List PWrite → Bytes → Exec
chunk_exec zero decode buf cs p e h disk rest = exec_out cs p e false h disk
chunk_exec (suc n) decode buf cs p e h disk [] = exec_out cs p e false h disk
chunk_exec (suc n) decode buf cs p e h disk (c ∷ rest) =
    if is_size cs
    then elim (size_step cs c h) [
      | next cs' h' ↦ chunk_exec n decode buf cs' (p + 1) e h' disk rest
      | overflow ↦ exec_out cs4 (p + 1) erange false (record h { content_len = negsuc 0 }) disk
      | bad ↦ exec_out cs0 p e false h disk
    ]
    else if not (is_cs60 cs)
    then trailers_out e disk h (trailer_run decode buf cs p h)
    else if pos_part h.content_len == 0
    then trailers_out e disk (to_trailers p h) (trailer_run decode buf cs16 p (to_trailers p h))
    else elim h.forward [
      | none ↦ exec_out cs0 p e false h disk
      | some f ↦
          let wr_len = min (pos_part h.content_len) (length (c ∷ rest)) in
          let data_ = take wr_len (c ∷ rest) in
          let (f', failed, disk') = write_full f data_ disk in
          let e' = errno_loop wr_len no_error disk in
          let left = pos_part h.content_len - wr_len in
          let h' = record h { forward = some f'; content_len = pos left } in
          elim failed [
            | some errno ↦ exec_out cs61 (p + 1) errno false (record h { forward = some f' }) disk'
            | none ↦
                if not (left == 0)
                then exec_out cs61 (p + wr_len) e' true h' disk'
                else chunk_exec n decode buf cs1 (p + wr_len) e'
                    (record h' { chunk_state = chunk_size }) disk' (drop wr_len (c ∷ rest))
          ]
    ]

abbrev pub is_errno : Errno → Bool
is_errno no_error = false
is_errno _ = true

-- if (really_done) cs = chunk_parser_first_final
abbrev pub settled_cs : Exec → ChunkCs
settled_cs x = if x.really_done then cs60 else x.cs

-- `mog_chunk_parse` after the generated code
unfoldable pub chunk_result : Exec → ParserState × Errno × Http × List PWrite
chunk_result x =
    let cs = settled_cs x in
    let h = record x.http { cs = cs; offset = x.p } in
    if is_cs0 cs || is_errno x.errno
    then (parser_error, x.errno, h, x.disk)
    else if is_cs60 cs
    then (parser_done, x.errno, h, x.disk)
    else (parser_continue, x.errno, h, x.disk)

-- the rest of `mog_chunk_parse`, unless an assertion has failed
abbrev pub unless_crashed : Exec → Run (ParserState × Errno × Http × List PWrite)
unless_crashed x = if x.crashed then aborted else returns (chunk_result x)

unfoldable pub chunk_parse :
    (Bytes → Option Bytes)
    → Http
    → Bytes
    → List PWrite
    → Run (ParserState × Errno × Http × List PWrite)
chunk_parse decode h buf disk =
    unless_crashed
      (chunk_exec (suc (length buf)) decode buf h.cs h.offset no_error h disk (drop h.offset buf))
