-- ===== src/Mgmt/Parse/Taken.antt =====
-- mgmt_parser.c: how the parser and the answers leave a client.
use cmogstored.Prelude.{
  Bytes, List, [], ◌∷◌, ◌++◌, Option, none, some, ◌≡◌, ap, ◌∙◌, ◌⊎◌, inl, inr, length, ltb, leb,
  ◌&&◌, if◌then◌else◌, get_elem?, codes,
}
use cmogstored.TryWrite.{Answer, WbufPtr, null, wr_error, buffered}
use cmogstored.ValidPath.{valid_path}
use cmogstored.Http.State.{Run, returns, aborted}
use cmogstored.Http.Runs.{Holds, Holds-bind, if_both, ptr_cases}
use cmogstored.Http.Put.Start.{ParserState, parser_error, parser_done, parser_continue}
use cmogstored.Mgmt.State.{Mgmt, nothing, Source, Alg, alg_md5, alg_sha1, alg_unset, threads_set}
use cmogstored.Mgmt.Scan.{Scanned, more, finished, refused, restart, scan_buffer}
use cmogstored.Mgmt.Scan.Table.{Request, blank, digest, aio_threads, shutdown, size, watch, unknown}
use cmogstored.Mgmt.Scan.Touches.{Touches, ScanTouches, scan_buffer-Touches}
use cmogstored.Mgmt.Answers.{
  MgmtEnv, mgmt_writev, with_path, digest_missing, digest_opened, mgmt_fn_digest, mgmt_fn_size,
  mgmt_fn_blank, mgmt_fn_unknown, mgmt_fn_aio_threads, request_done, marked_path, uri_invalid, eol,
  strtoull, is_line_end, size_line,
}
use cmogstored.Mgmt.Parse.{mgmt_parse, parse_result, done_at}

-- a client that may start a request
abbrev pub IsFree : Mgmt → Type 0
IsFree m = (m.wbuf ≡ null) × (m.forward ≡ nothing)

-- and one whose request was taken: not both is an answer on its way and something left to do
abbrev pub IsTaken : Mgmt → Type 0
IsTaken m = (m.wbuf ≡ null) ⊎ (m.forward ≡ nothing)

writev-IsTaken :
    (m : Mgmt) (iov : List Bytes) (net : List Answer)
    → m.forward ≡ nothing
    → Holds IsTaken (mgmt_writev m iov net)
unfolding mgmt_writev
writev-IsTaken m iov net e = elim (ptr_cases m.wbuf) [
  | inl idle ↦ rw idle (inr e)
  | inr (inl bad) ↦ rw bad tt
  | inr (inr (w, busy)) ↦ rw busy tt
]

path-IsTaken :
    (m : Mgmt) (buf : Bytes) (net : List Answer) (go : Bytes → Run Mgmt)
    → m.forward ≡ nothing
    → ((path : Bytes) → Holds IsTaken (go path))
    → Holds IsTaken (with_path m buf net go)
unfolding with_path
path-IsTaken m buf net go e each =
    if_both (Holds IsTaken) (valid_path (marked_path m buf)) (go (marked_path m buf))
      (mgmt_writev m (uri_invalid ∷ []) net) (each (marked_path m buf))
      (writev-IsTaken m (uri_invalid ∷ []) net e)

missing-IsTaken :
    (m : Mgmt) (path : Bytes) (net : List Answer)
    → m.forward ≡ nothing
    → Holds IsTaken (digest_missing m path net)
unfolding digest_missing
missing-IsTaken m path net e = go m.alg
  where
    go :
        (a : Alg)
        → Holds IsTaken (elim a as (λ x. Run Mgmt) [
          | alg_md5 ↦ mgmt_writev m (path ∷ (codes " MD5=-1" ++ eol) ∷ []) net
          | alg_sha1 ↦ mgmt_writev m (path ∷ (codes " SHA-1=-1" ++ eol) ∷ []) net
          | alg_unset ↦ aborted
        ])
    go alg_md5 = writev-IsTaken m _ net e
    go alg_sha1 = writev-IsTaken m _ net e
    go alg_unset = tt

opened-IsTaken :
    (m : Mgmt) (net : List Answer) (path : Bytes) (o : Option Source)
    → IsFree m
    → Holds IsTaken (digest_opened m net path o)
unfolding digest_opened
opened-IsTaken m net path (some s) (w, e) = inl w
opened-IsTaken m net path none (w, e) = missing-IsTaken m path net e

threads-IsTaken :
    (m : Mgmt) (buf : Bytes) (net : List Answer)
    → m.forward ≡ nothing
    → Holds IsTaken (mgmt_fn_aio_threads m buf net)
unfolding mgmt_fn_aio_threads
threads-IsTaken m buf net e =
    let nr = strtoull 0 (marked_path m buf) in
    let m' : Mgmt = record m { calls = m.calls ++ (threads_set nr.0 ∷ []) } in
    let set : Mgmt = if ltb 0 nr.0 && leb nr.0 100 then m' else m in
    let same : set.forward ≡ nothing =
      if_both (λ (k : Mgmt). k.forward ≡ nothing) (ltb 0 nr.0 && leb nr.0 100) m' m e e in
    if_both (Holds IsTaken) (is_line_end (get_elem? buf m.mark1) && nr.1)
      (mgmt_writev set (eol ∷ []) net) aborted (writev-IsTaken set (eol ∷ []) net same) tt

request-IsTaken :
    (env : MgmtEnv) (r : Request) (m : Mgmt) (buf : Bytes) (net : List Answer)
    → IsFree m
    → Holds IsTaken (request_done env r m buf net)
unfolding request_done mgmt_fn_blank mgmt_fn_digest mgmt_fn_size mgmt_fn_unknown
request-IsTaken env blank m buf net (w, e) = writev-IsTaken m _ net e
request-IsTaken env digest m buf net i =
    path-IsTaken m buf net _ i.1 (λ path. opened-IsTaken m net path (env.open_read path) i)
request-IsTaken env aio_threads m buf net (w, e) = threads-IsTaken m buf net e
request-IsTaken env shutdown m buf net (w, e) = inl w
request-IsTaken env size m buf net (w, e) =
    path-IsTaken m buf net _ e
      (λ path. writev-IsTaken m (path ∷ size_line (env.stat_size path) ∷ []) net e)
request-IsTaken env watch m buf net (w, e) = inl w
request-IsTaken env unknown m buf net (w, e) = writev-IsTaken m _ net e

-- what the parser leaves to the step
abbrev pub IsParsed : ParserState × Mgmt → Type 0
IsParsed (parser_error, m) = IsFree m
IsParsed (parser_continue, m) = IsFree m
IsParsed (parser_done, m) = IsTaken m

touched-IsFree : (m m' : Mgmt) → Touches m m' → IsFree m → IsFree m'
touched-IsFree m m' (i, j, p, a, e) (w, f) =
    (ap (λ (k : Mgmt). k.wbuf) e ∙ w, ap (λ (k : Mgmt). k.forward) e ∙ f)

result-IsParsed :
    (env : MgmtEnv) (m : Mgmt) (buf : Bytes) (net : List Answer) (s : Scanned)
    → IsFree m
    → ScanTouches m s
    → Holds IsParsed (parse_result env buf net s)
unfolding parse_result done_at
result-IsParsed env m buf net (more cs pos m') i t = touched-IsFree m m' t i
result-IsParsed env m buf net (finished r pos m') i t =
    Holds-bind IsTaken IsParsed (request_done env r m' buf net) (λ k. returns (done_at pos k))
      (request-IsTaken env r m' buf net (touched-IsFree m m' t i)) (λ k taken. taken)
result-IsParsed env m buf net (refused pos m') i t = touched-IsFree m m' t i
result-IsParsed env m buf net (restart m') i t = tt

pub parse-IsParsed :
    (env : MgmtEnv) (m : Mgmt) (buf : Bytes) (net : List Answer)
    → IsFree m
    → Holds IsParsed (mgmt_parse env m buf net)
unfolding mgmt_parse
parse-IsParsed env m buf net i = go m.wbuf
  where
    go :
        (p : WbufPtr)
        → Holds IsParsed (elim p as (λ x. Run (ParserState × Mgmt)) [
          | null ↦
              if leb m.offset (length buf)
              then parse_result env buf net (scan_buffer m.cs m.offset buf m)
              else aborted
          | wr_error ↦ aborted
          | buffered w ↦ aborted
        ])
    go null =
        if_both (Holds IsParsed) (leb m.offset (length buf))
          (parse_result env buf net (scan_buffer m.cs m.offset buf m)) aborted
          (result-IsParsed env m buf net (scan_buffer m.cs m.offset buf m) i
            (scan_buffer-Touches m.cs m.offset buf m))
          tt
    go wr_error = tt
    go (buffered w) = tt
