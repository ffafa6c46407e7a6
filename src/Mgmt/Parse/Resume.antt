-- ===== src/Mgmt/Parse/Resume.antt =====
-- mgmt_parser.c: a request may come in any number of reads.
use mathlib.Core.Path.{subst}
use cmogstored.Prelude.{
  ℕ, ◌+◌, ◌≤◌, Bytes, List, [], ◌∷◌, ◌++◌, ◌≡◌, ◌≢◌, refl, sym, ap, ◌∙◌, arith, drop, length,
  Bool-cases, inl, inr, length-append, Option, none, some, codes,
}
use cmogstored.TryWrite.{Answer, null}
use cmogstored.ValidPath.{valid_path}
use cmogstored.Http.State.{Run, returns, aborted, ◌>>=◌}
use cmogstored.Http.Put.Start.{ParserState, parser_continue}
use cmogstored.Mgmt.State.{Mgmt, MgmtCs, st71, threads_set, Source}
use cmogstored.Mgmt.Scan.Table.{
  ScanAct, mark_0, mark_1, fsck, alg_is, Move, go, finish, invalid, refuse, transition, Request,
  blank, digest, aio_threads, shutdown, size, watch, unknown,
}
use cmogstored.Mgmt.Scan.{
  act, acts, set_prio_fsck, Scanned, more, finished, refused, restart, move_to, scan, scan_again,
  scan_buffer,
}
use cmogstored.Mgmt.Scan.Resume.{scan_buffer-append}
use cmogstored.Mgmt.Answers.{
  MgmtEnv, mgmt_writev, marked_path, with_path, mgmt_fn_digest, digest_opened, digest_missing,
  mgmt_fn_size, mgmt_fn_blank, mgmt_fn_unknown, mgmt_fn_aio_threads, request_done, strtoull,
  uri_invalid, eol, size_line,
}
use cmogstored.Mgmt.Parse.{parse_result, mgmt_parse, done_at}
use cmogstored.Mgmt.Scan.Touches.{ScanTouches, scan_buffer-Touches}

abbrev at : MgmtCs → ℕ → Mgmt → Mgmt
at cs pos m = record m { cs = cs; offset = pos }

abbrev scanned_at : MgmtCs → ℕ → Scanned → Scanned
scanned_at x y (more cs pos m) = more cs pos (at x y m)
scanned_at x y (finished r pos m) = finished r pos (at x y m)
scanned_at x y (refused pos m) = refused pos (at x y m)
scanned_at x y (restart m) = restart (at x y m)

abbrev run_at : MgmtCs → ℕ → Run Mgmt → Run Mgmt
run_at x y (returns m) = returns (at x y m)
run_at x y aborted = aborted

module _ (x : MgmtCs) (y : ℕ) where
  act-at : (pos : ℕ) (a : ScanAct) (m : Mgmt) → act pos a (at x y m) ≡ at x y (act pos a m)
  unfolding act set_prio_fsck
  act-at pos mark_0 m = refl
  act-at pos mark_1 m = refl
  act-at pos fsck m = refl
  act-at pos (alg_is a) m = refl

  acts-at :
      (pos : ℕ) (todo : List ScanAct) (m : Mgmt)
      → acts pos todo (at x y m) ≡ at x y (acts pos todo m)
  unfolding acts
  acts-at pos [] m = refl
  acts-at pos (a ∷ todo) m = ap (acts pos todo) (act-at pos a m) ∙ acts-at pos todo (act pos a m)

  move_to-at :
      (pos : ℕ) (m : Mgmt) (mv : Move) (k : MgmtCs → Mgmt → Scanned)
      → ((cs : MgmtCs) (m' : Mgmt) → k cs (at x y m') ≡ scanned_at x y (k cs m'))
      → move_to pos (at x y m) mv k ≡ scanned_at x y (move_to pos m mv k)
  unfolding move_to
  move_to-at pos m (go todo cs) k ih = ap (k cs) (acts-at pos todo m) ∙ ih cs (acts pos todo m)
  move_to-at pos m (finish todo r) k ih = ap (finished r (pos + 1)) (acts-at pos todo m)
  move_to-at pos m invalid k ih = refl
  move_to-at pos m refuse k ih = refl

  scan-at :
      (bytes : Bytes) (cs : MgmtCs) (pos : ℕ) (m : Mgmt)
      → scan cs pos bytes (at x y m) ≡ scanned_at x y (scan cs pos bytes m)
  unfolding scan
  scan-at [] cs pos m = refl
  scan-at (c ∷ bytes) cs pos m =
      move_to-at pos m (transition cs c) _ (λ cs' m'. scan-at bytes cs' (pos + 1) m')

  scan_again-at :
      (buf : Bytes) (s : Scanned)
      → scan_again buf (scanned_at x y s) ≡ scanned_at x y (scan_again buf s)
  unfolding scan_again
  scan_again-at buf (more cs pos m) = refl
  scan_again-at buf (finished r pos m) = refl
  scan_again-at buf (refused pos m) = refl
  scan_again-at buf (restart m) = scan-at buf st71 0 m

  scan_buffer-at :
      (cs : MgmtCs) (off : ℕ) (buf : Bytes) (m : Mgmt)
      → scan_buffer cs off buf (at x y m) ≡ scanned_at x y (scan_buffer cs off buf m)
  unfolding scan_buffer
  scan_buffer-at cs off buf m =
      ap (scan_again buf) (scan-at (drop off buf) cs off m)
      ∙ scan_again-at buf (scan cs off (drop off buf) m)

  mgmt_writev-at :
      (m : Mgmt) (iov : List Bytes) (net : List Answer)
      → mgmt_writev (at x y m) iov net ≡ run_at x y (mgmt_writev m iov net)
  unfolding mgmt_writev
  mgmt_writev-at m iov net = ground arith

  with_path-at :
      (m : Mgmt) (buf : Bytes) (net : List Answer) (k k' : Bytes → Run Mgmt)
      → ((p : Bytes) → k' p ≡ run_at x y (k p))
      → with_path (at x y m) buf net k' ≡ run_at x y (with_path m buf net k)
  unfolding with_path marked_path
  with_path-at m buf net k k' h = elim (Bool-cases (valid_path (marked_path m buf))) [
    | inl good ↦ rw good (h (marked_path m buf))
    | inr bad ↦ rw bad (mgmt_writev-at m (uri_invalid ∷ []) net)
  ]

  digest_opened-at :
      (m : Mgmt) (net : List Answer) (path : Bytes) (opened : Option Source)
      → digest_opened (at x y m) net path opened ≡ run_at x y (digest_opened m net path opened)
  unfolding digest_opened digest_missing
  digest_opened-at m net path (some s) = refl
  digest_opened-at m net path none = ground (
    arith,
    mgmt_writev-at m (path ∷ (codes " MD5=-1" ++ eol) ∷ []) net,
    mgmt_writev-at m (path ∷ (codes " SHA-1=-1" ++ eol) ∷ []) net,
  )

  request_done-at :
      (env : MgmtEnv) (r : Request) (m : Mgmt) (buf : Bytes) (net : List Answer)
      → request_done env r (at x y m) buf net ≡ run_at x y (request_done env r m buf net)
  unfolding request_done
  request_done-at env blank m buf net = unfold mgmt_fn_blank in mgmt_writev-at m _ net
  request_done-at env digest m buf net =
      unfold mgmt_fn_digest in
      with_path-at m buf net (λ p. digest_opened m net p (env.open_read p)) _
        (λ p. digest_opened-at m net p (env.open_read p))
  request_done-at env aio_threads m buf net =
      unfold mgmt_fn_aio_threads marked_path in
      ground (
        arith,
        mgmt_writev-at m (eol ∷ []) net,
        mgmt_writev-at
            (record m { calls = m.calls ++ (threads_set (strtoull 0 (marked_path m buf)).0 ∷ []) })
            (eol ∷ []) net,
      )
  request_done-at env shutdown m buf net = refl
  request_done-at env size m buf net =
      unfold mgmt_fn_size in
      with_path-at m buf net _ _ (λ p. mgmt_writev-at m (p ∷ size_line (env.stat_size p) ∷ []) net)
  request_done-at env watch m buf net = refl
  request_done-at env unknown m buf net =
      unfold mgmt_fn_unknown marked_path in mgmt_writev-at m _ net

  done_at-run_at :
      (pos : ℕ) (k : Run Mgmt)
      → (run_at x y k >>= λ m. returns (done_at pos m)) ≡ (k >>= λ m. returns (done_at pos m))
  unfolding done_at
  done_at-run_at pos (returns m) = refl
  done_at-run_at pos aborted = refl

  parse_result-at :
      (env : MgmtEnv) (buf : Bytes) (net : List Answer) (s : Scanned)
      → parse_result env buf net (scanned_at x y s) ≡ parse_result env buf net s
  unfolding parse_result
  parse_result-at env buf net (more cs pos m) = refl
  parse_result-at env buf net (finished r pos m) =
      ap (λ (k : Run Mgmt). k >>= λ m'. returns (done_at pos m')) (request_done-at env r m buf net)
      ∙ done_at-run_at pos (request_done env r m buf net)
  parse_result-at env buf net (refused pos m) = refl
  parse_result-at env buf net (restart m) = refl

parsed_client : Mgmt → Run (ParserState × Mgmt) → Mgmt
parsed_client m (returns q) = q.1
parsed_client m aborted = m

done_at-continue :
    (pos : ℕ) (k : Run Mgmt) (m : Mgmt)
    → (k >>= λ m'. returns (done_at pos m')) ≢ returns (parser_continue, m)
unfolding done_at
done_at-continue pos (returns m') m e = cc
done_at-continue pos aborted m e = cc

-- the parser wants more where the scanner does
more-result :
    (env : MgmtEnv) (buf : Bytes) (net : List Answer) (s : Scanned) (m1 : Mgmt)
    → parse_result env buf net s ≡ returns (parser_continue, m1)
    → (cs : MgmtCs) × (pos : ℕ) × (m : Mgmt) × (s ≡ more cs pos m) × (at cs pos m ≡ m1)
unfolding parse_result parsed_client
more-result env buf net (more cs pos m) m1 e = (cs, pos, m, refl, ap (parsed_client m) e)
more-result env buf net (finished r pos m) m1 e =
    absurd (done_at-continue pos (request_done env r m buf net) m1 e)
more-result env buf net (refused pos m) m1 e = cc
more-result env buf net (restart m) m1 e = cc

-- the call, where its assertions hold
pub mgmt_parse_ready :
    (env : MgmtEnv) (m : Mgmt) (buf : Bytes) (net : List Answer)
    → m.wbuf ≡ null
    → m.offset ≤ length buf
    → mgmt_parse env m buf net ≡ parse_result env buf net (scan_buffer m.cs m.offset buf m)
unfolding mgmt_parse
mgmt_parse_ready env m buf net w h = ground arith

-- and it has returned only where they do
pub mgmt_parse_asserts :
    (env : MgmtEnv) (m : Mgmt) (buf : Bytes) (net : List Answer) (q : ParserState × Mgmt)
    → mgmt_parse env m buf net ≡ returns q
    → (m.wbuf ≡ null) × (m.offset ≤ length buf)
unfolding mgmt_parse
mgmt_parse_asserts env m buf net q e = ground arith

-- What the scanner makes of a request does not depend on the reads in which it comes. Where the
-- first bytes of it are not enough, the call on all of them, from the state and the offset that
-- are kept, has the result of a single call.
pub mgmt_parse-append :
    (env : MgmtEnv) (m m1 : Mgmt) (a b : Bytes) (net : List Answer)
    → mgmt_parse env m a [] ≡ returns (parser_continue, m1)
    → mgmt_parse env m1 (a ++ b) net ≡ mgmt_parse env m (a ++ b) net
mgmt_parse-append env m m1 a b net e =
    let (w, h) = mgmt_parse_asserts env m a [] _ e in
    let (cs, pos, m', scanned, same) =
      more-result env a [] (scan_buffer m.cs m.offset a m) m1
        (sym (mgmt_parse_ready env m a [] w h) ∙ e) in
    let (there, goes_on) = scan_buffer-append a b m.cs cs m.offset pos m m' h scanned in
    let (i, j, p, g, touches) =
      subst (ScanTouches m) scanned (scan_buffer-Touches m.cs m.offset a m) in
    let w' : (at cs pos m').wbuf ≡ null = ap (λ (k : Mgmt). k.wbuf) touches ∙ w in
    let longer : length (a ++ b) ≡ length a + length b = length-append a b in
    subst (λ k. mgmt_parse env k (a ++ b) net ≡ mgmt_parse env m (a ++ b) net) same
      (mgmt_parse_ready env (at cs pos m') (a ++ b) net w' (omega arith)
        ∙ ap (parse_result env (a ++ b) net) (scan_buffer-at cs pos cs pos (a ++ b) m')
        ∙ parse_result-at cs pos env (a ++ b) net (scan_buffer cs pos (a ++ b) m')
        ∙ ap (parse_result env (a ++ b) net) (sym goes_on)
        ∙ sym (mgmt_parse_ready env m (a ++ b) net w (omega arith)))
