-- ===== src/Http/Dispatch/Chunked.antt =====
-- http_put.c: how a turn of a chunked PUT leaves a client.
use cmogstored.Prelude.{
  ℕ, zero, suc, min, Bytes, [], ◌∷◌, ◌++◌, List, Bool, true, false, Option, none, some, ◌≡◌, refl,
  inl, inr, Bool-cases, Option-cases, length, take, drop, ◌==◌, not, codes,
}
use cmogstored.Prelude.Int.{pos, negsuc, ℤ}
use cmogstored.TryWrite.{WbufPtr, null, wr_error, buffered}
use cmogstored.Http.State.{
  Http, File, Run, returns, aborted, Next, Errno, ChunkState, chunk_size, chunk_data, chunk_trailer,
  chunk_done,
}
use cmogstored.Http.Put.{
  PutEnv, PWrite, Recv, got, would_block, recv_interrupted, recv_failed, write_full, internal_error,
}
use cmogstored.Http.Put.Start.{
  ParserState, parser_error, parser_done, parser_continue, stash_advance_rbuf, is_done,
}
use cmogstored.Http.Put.Chunked.{
  is_null, is_none, chunk_left, before_in, before_read, After, again, leaves, stuck, data_stored,
  data_read, good_rbuf, stashed, all_stashed, parsed_in, after_parse, after_run, line_read, held,
  read_size, read_in, after_read, next_read, chunked_put_in_progress,
}
use cmogstored.Http.Chunk.{chunk_parse}
use cmogstored.Http.Runs.{Holds, Holds-bind}
use cmogstored.Http.Dispatch.Settled.{
  Settled, file_close_null-Settled, write_err-Settled, commit-Settled,
}

-- what follows a read leaves the client settled, or goes on
abbrev Leaves : After → Type 0
Leaves (again h in_trailer disk) = Unit
Leaves (leaves r) = Settled r
Leaves stuck = Unit

abbrev Unwritten : Http → Type 0
Unwritten h = h.wbuf ≡ null

left-Unwritten : (n : ℤ) (h : Http) → h.wbuf ≡ null → Holds Unwritten (chunk_left n h)
left-Unwritten (pos zero) h e = e
left-Unwritten (pos (suc n)) h e = e
left-Unwritten (negsuc n) h e = tt

in-Unwritten : (cs : ChunkState) (h : Http) → h.wbuf ≡ null → Holds Unwritten (before_in cs h)
in-Unwritten chunk_data h e = elim (Bool-cases (not (is_none h.rbuf))) [
  | inl stashed ↦ rw stashed tt
  | inr empty ↦ rw empty (left-Unwritten h.content_len h e)
]
in-Unwritten chunk_size h e = e
in-Unwritten chunk_trailer h e = e
in-Unwritten chunk_done h e = tt

null_iff : (p : WbufPtr) → is_null p ≡ true → p ≡ null
null_iff null e = refl
null_iff wr_error e = absurd cc
null_iff (buffered w) e = absurd cc

-- the assertion on the write buffer
read-Unwritten : (h : Http) → Holds Unwritten (before_read h)
unfolding before_read
read-Unwritten h = elim (Bool-cases (is_null h.wbuf)) [
  | inr busy ↦ rw busy tt
  | inl idle ↦ elim (Bool-cases (is_none h.forward)) [
    | inl no_file ↦ rw (idle, no_file) tt
    | inr open_file ↦ rw (idle, open_file) (in-Unwritten h.chunk_state h (null_iff h.wbuf idle))
  ]
]

stored-Leaves :
    (env : PutEnv) (h : Http) (in_trailer : Bool) (n : ℕ) (r : File × Option Errno × List PWrite)
    → Leaves (data_stored env h in_trailer n r)
stored-Leaves env h in_trailer n (f, some errno, disk) =
    write_err-Settled env (record h { forward = some f }) errno internal_error
stored-Leaves env h in_trailer n (f, none, disk) = tt

data-Leaves :
    (env : PutEnv) (h : Http) (f : Option File) (in_trailer : Bool) (chunk : Bytes)
    (disk : List PWrite)
    → Leaves (data_read env h f in_trailer chunk disk)
unfolding data_read
data-Leaves env h none in_trailer chunk disk = tt
data-Leaves env h (some f) in_trailer chunk disk =
    stored-Leaves env h in_trailer (length chunk) (write_full f chunk disk)

stashed-Leaves :
    (r : Run Http) (k : Http → After) → ((h : Http) → Leaves (k h)) → Leaves (stashed r k)
stashed-Leaves (returns h) k each = each h
stashed-Leaves aborted k each = tt

all-Leaves : (env : PutEnv) (h : Http) → Leaves (all_stashed env h)
all-Leaves env h = elim (Bool-cases (not (good_rbuf h))) [
  | inl bad ↦ rw bad tt
  | inr good ↦ elim (Option-cases h.forward) [
    | inl e ↦ rw (good, e) tt
    | inr (f, e) ↦ rw (good, e) (commit-Settled env h f)
  ]
]

parsed-Leaves :
    (env : PutEnv) (in_trailer : Bool) (cs : ChunkState) (h : Http) (buf : Bytes)
    (disk : List PWrite)
    → Leaves (parsed_in env in_trailer cs h buf disk)
unfolding parsed_in
parsed-Leaves env true chunk_size h buf disk = tt
parsed-Leaves env false chunk_size h buf disk = tt
parsed-Leaves env true chunk_data h buf disk = tt
parsed-Leaves env false chunk_data h buf disk = tt
parsed-Leaves env in_trailer chunk_trailer h buf disk =
    stashed-Leaves (stash_advance_rbuf h buf) (λ h'. again h' in_trailer disk) (λ h'. tt)
parsed-Leaves env in_trailer chunk_done h buf disk =
    stashed-Leaves (stash_advance_rbuf h buf) (all_stashed env) (all-Leaves env)

parse-Leaves :
    (env : PutEnv) (in_trailer : Bool) (state : ParserState) (errno : Errno) (h : Http)
    (buf : Bytes) (disk : List PWrite)
    → Leaves (after_parse env in_trailer state errno h buf disk)
unfolding after_parse
parse-Leaves env in_trailer parser_error errno h buf disk =
    write_err-Settled env h errno (codes "400 Bad Request")
parse-Leaves env in_trailer parser_continue errno h buf disk =
    elim (Bool-cases (is_done h.chunk_state)) [
      | inl over ↦ rw over tt
      | inr more ↦ rw more (parsed-Leaves env in_trailer h.chunk_state h buf disk)
    ]
parse-Leaves env in_trailer parser_done errno h buf disk =
    parsed-Leaves env in_trailer h.chunk_state h buf disk

run-Leaves :
    (env : PutEnv) (in_trailer : Bool) (buf : Bytes)
    (r : Run (ParserState × Errno × Http × List PWrite))
    → Leaves (after_run env in_trailer buf r)
run-Leaves env in_trailer buf aborted = tt
run-Leaves env in_trailer buf (returns (state, errno, h, disk)) =
    parse-Leaves env in_trailer state errno h buf disk

in-Leaves :
    (decode : Bytes → Option Bytes) (env : PutEnv) (cs : ChunkState) (h : Http) (in_trailer : Bool)
    (disk : List PWrite) (chunk : Bytes)
    → Leaves (read_in decode env cs h in_trailer disk chunk)
unfolding line_read
in-Leaves decode env chunk_data h in_trailer disk chunk =
    data-Leaves env h h.forward in_trailer chunk disk
in-Leaves decode env chunk_trailer h in_trailer disk chunk =
    run-Leaves env true (held h ++ chunk) (chunk_parse decode h (held h ++ chunk) disk)
in-Leaves decode env chunk_size h in_trailer disk chunk =
    run-Leaves env in_trailer (held h ++ chunk) (chunk_parse decode h (held h ++ chunk) disk)
in-Leaves decode env chunk_done h in_trailer disk chunk =
    run-Leaves env in_trailer (held h ++ chunk) (chunk_parse decode h (held h ++ chunk) disk)

read-Leaves :
    (decode : Bytes → Option Bytes) (env : PutEnv) (h : Http) (in_trailer : Bool)
    (disk : List PWrite) (n : ℕ)
    → Leaves (after_read decode env h in_trailer disk n)
unfolding after_read
read-Leaves decode env h in_trailer disk n =
    let chunk = take (min n (read_size h)) h.input in
    let h' : Http = record h { input = drop (length chunk) h.input } in
    elim (Bool-cases (length chunk == 0)) [
      | inl over ↦ rw over (file_close_null-Settled h)
      | inr more ↦ rw more (in-Leaves decode env h.chunk_state h' in_trailer disk chunk)
    ]

next_read-Settled :
    (go : Http → Bool → List PWrite → Run (Next × Http)) (a : After)
    → ((h : Http) (in_trailer : Bool) (disk : List PWrite) → Holds Settled (go h in_trailer disk))
    → Leaves a
    → Holds Settled (next_read go a)
next_read-Settled go (again h in_trailer disk) each l = each h in_trailer disk
next_read-Settled go (leaves r) each l = l
next_read-Settled go stuck each l = tt

pub chunked_put-Settled :
    (decode : Bytes → Option Bytes) (env : PutEnv) (h : Http) (in_trailer : Bool)
    (disk : List PWrite) (ks : List Recv)
    → Holds Settled (chunked_put_in_progress decode env h in_trailer disk ks)
unfolding chunked_put_in_progress
chunked_put-Settled decode env h in_trailer disk [] =
    Holds-bind Unwritten Settled (before_read h) _ (read-Unwritten h) (λ h' e. e)
chunked_put-Settled decode env h in_trailer disk (would_block ∷ ks) =
    Holds-bind Unwritten Settled (before_read h) _ (read-Unwritten h) (λ h' e. e)
chunked_put-Settled decode env h in_trailer disk (recv_interrupted ∷ ks) =
    chunked_put-Settled decode env h in_trailer disk ks
chunked_put-Settled decode env h in_trailer disk (recv_failed ∷ ks) =
    Holds-bind Unwritten Settled (before_read h) _ (read-Unwritten h)
      (λ h' e. file_close_null-Settled h')
chunked_put-Settled decode env h in_trailer disk (got n ∷ ks) =
    Holds-bind Unwritten Settled (before_read h) _ (read-Unwritten h) (λ h' e.
      next_read-Settled
        (λ h'' in_trailer' disk'. chunked_put_in_progress decode env h'' in_trailer' disk' ks)
        (after_read decode env h' in_trailer disk n)
        (λ h'' in_trailer' disk'. chunked_put-Settled decode env h'' in_trailer' disk' ks)
        (read-Leaves decode env h' in_trailer disk n))
