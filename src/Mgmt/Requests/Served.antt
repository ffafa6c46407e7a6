-- ===== src/Mgmt/Requests/Served.antt =====
-- mgmt_parser.c with mgmt_fn.c: each request gets the answer that it asks for.
use mathlib.Core.Path.{subst}
use cmogstored.Prelude.{
  ℕ, ◌+◌, sym, append_assoc, length-append, Option, some, none, Bytes, List, [], ◌∷◌, ◌++◌, ◌≡◌,
  refl, ap, ◌∙◌, if◌then◌else◌, codes, arith, length,
}
use cmogstored.TryWrite.{Answer}
use cmogstored.ValidPath.{valid_path}
use cmogstored.Mgmt.State.{Mgmt}
use cmogstored.Mgmt.Scan.Table.{transition, blank, shutdown, size, watch}
use cmogstored.Mgmt.Scan.{scan, move_to, acts, act}
use cmogstored.Mgmt.Answers.{
  MgmtEnv, mgmt_writev, marked_path, request_done, with_path, mgmt_fn_blank, mgmt_fn_size,
  size_line, uri_invalid, eol,
}
use cmogstored.Mgmt.Requests.{
  Command, ask_size, LineEnd, Written, All, is_space, size_text, ask_shutdown, graceful_line,
  blank_line, watch_line, shutdown_line, size_of, digest_of, threads_of, serve,
}
use cmogstored.Mgmt.Requests.Scanning.{
  graceful_scanned, size_scanned, st1-Ends, st48-Ends, st69-Ends, slice-middle,
}
use cmogstored.Mgmt.Requests.Fresh.{IsFresh, replied, fresh_parse, marks, Serves, Serves-length}
use cmogstored.Mgmt.Requests.Threads.{threads_line}
use cmogstored.Mgmt.Requests.Digests.{digest_line}

line-text : (o : Option ℕ) → size_line o ≡ size_text o
unfolding size_line
line-text none = refl
line-text (some n) = refl

size_served :
    (env : MgmtEnv) (m : Mgmt) (q tail : Bytes) (net : List Answer)
    → request_done env size (marks 5 (6 + length q) m) (codes "size /" ++ (q ++ tail)) net
      ≡ serve env (marks 5 (6 + length q) m) (ask_size q) net
unfolding request_done mgmt_fn_size with_path marked_path serve
size_served env m q tail net =
    let m' = marks 5 (6 + length q) m in
    ap
      (λ p.
        if valid_path p
        then mgmt_writev m' (p ∷ size_line (env.stat_size p) ∷ []) net
        else mgmt_writev m' (uri_invalid ∷ []) net)
      (slice-middle (codes "size ") (b'/' ∷ q) tail 5 (6 + length q) refl (omega arith))
    ∙ ap
        (λ t.
          if valid_path (b'/' ∷ q)
          then mgmt_writev m' ((b'/' ∷ q) ∷ t ∷ []) net
          else mgmt_writev m' (uri_invalid ∷ []) net)
        (line-text (env.stat_size (b'/' ∷ q)))

graceful_line-served :
    (env : MgmtEnv) (m : Mgmt) (spaces eol rest : Bytes) (net : List Answer)
    → IsFresh m
    → All is_space spaces
    → LineEnd eol
    → let line = codes "shutdown " ++ (spaces ++ codes "graceful") in
      Serves env m ask_shutdown (line ++ (eol ++ rest)) net (length line + length eol)
unfolding request_done serve
graceful_line-served env m spaces eol rest net f h e =
    let line = codes "shutdown " ++ (spaces ++ codes "graceful") in
    let buf = codes "shutdown " ++ (spaces ++ (codes "graceful" ++ (eol ++ rest))) in
    let n = 9 + length spaces + 8 + length eol in
    let regrouped : buf ≡ line ++ (eol ++ rest) =
      ap (λ b. codes "shutdown " ++ b)
        (sym (append_assoc spaces (codes "graceful") (eol ++ rest))) in
    subst (λ b. Serves env m ask_shutdown b net (length line + length eol)) regrouped
      (Serves-length env m ask_shutdown buf net n (length line + length eol)
        (omega (arith, length-append spaces (codes "graceful")))
        (
          m.mark0,
          m.mark1,
          fresh_parse env m m buf net shutdown n f (graceful_scanned spaces eol rest m h e),
        ))

-- The scanner reads each request that is spelled as `Written` says, whatever follows it: a blank
-- line, "watch", "shutdown" with or without "graceful", "size" and "MD5" or "SHA-1" with a path, and
-- "server aio_threads = " with a number. It sets the marks, gives the answer that `serve` describes
-- for the request, and stops just behind the request's line end.
pub mgmt_parse-serve :
    (env : MgmtEnv) (m : Mgmt) (cmd : Command) (line eol rest : Bytes) (net : List Answer)
    → IsFresh m
    → Written cmd line
    → LineEnd eol
    → Serves env m cmd (line ++ (eol ++ rest)) net (length line + length eol)
unfolding scan move_to acts act transition request_done mgmt_fn_blank serve
mgmt_parse-serve env m _ _ eol rest net f blank_line e = (
  m.mark0,
  m.mark1,
  fresh_parse env m m (eol ++ rest) net blank (0 + length eol) f (st1-Ends eol rest 0 m e),
)
mgmt_parse-serve env m _ _ eol rest net f watch_line e = (
  m.mark0,
  m.mark1,
  fresh_parse env m m (codes "watch" ++ (eol ++ rest)) net watch (5 + length eol) f
      (st69-Ends eol rest 5 m e),
)
mgmt_parse-serve env m _ _ eol rest net f shutdown_line e = (
  m.mark0,
  m.mark1,
  fresh_parse env m m (codes "shutdown" ++ (eol ++ rest)) net shutdown (8 + length eol) f
      (st48-Ends eol rest 8 m e),
)
mgmt_parse-serve env m _ _ eol rest net f (graceful_line spaces h) e =
    graceful_line-served env m spaces eol rest net f h e
mgmt_parse-serve env m _ _ eol rest net f (size_of q h) e =
    let buf = codes "size /" ++ (q ++ (eol ++ rest)) in
    let n = 6 + length q + length eol in
    Serves-length env m (ask_size q) buf net n (length (codes "size /" ++ q) + length eol)
      (omega arith)
      (
        5,
        6 + length q,
        fresh_parse env m (marks 5 (6 + length q) m) buf net size n f
              (size_scanned q eol rest m h e)
            ∙ ap (replied n) (size_served env m q (eol ++ rest) net),
      )
mgmt_parse-serve env m _ _ eol rest net f (digest_of sha1 q reason fsck h r) e =
    digest_line env m sha1 q reason fsck eol rest net f h r e
mgmt_parse-serve env m _ _ eol rest net f (threads_of c ds d h) e =
    threads_line env m c ds eol rest net f d h e
