-- ===== src/Mgmt/Requests/Digests.antt =====
-- mgmt_parser.c with mgmt_fn.c: the request for a checksum.
use mathlib.Core.Path.{subst}
use cmogstored.Prelude.{
  ℕ, ◌+◌, Bytes, List, [], ◌∷◌, ◌++◌, Option, some, none, Bool, true, false, ◌≡◌, refl, ap, ◌∙◌,
  if◌then◌else◌, codes, arith, length, length-append, append_assoc,
}
use cmogstored.TryWrite.{Answer}
use cmogstored.ValidPath.{valid_path}
use cmogstored.Mgmt.State.{Source, Mgmt, Alg, st1, st8, alg_md5, alg_sha1}
use cmogstored.Mgmt.Scan.Table.{transition, digest}
use cmogstored.Mgmt.Scan.{finished, scan, move_to, acts, act, set_prio_fsck}
use cmogstored.Mgmt.Answers.{
  MgmtEnv, mgmt_writev, marked_path, request_done, with_path, mgmt_fn_digest, uri_invalid,
  digest_opened, digest_missing, eol,
}
use cmogstored.Mgmt.Requests.{
  path_byte, All, Reason, ask_digest, LineEnd, serve, alg_of, alg_name, asks_for, begin,
}
use cmogstored.Mgmt.Requests.Scanning.{scan-Reason, scan-loop, slice-middle, path-stays_8}
use cmogstored.Mgmt.Requests.Fresh.{IsFresh, replied, fresh_parse, marks, Serves, Serves-length}

-- the client with a checksum asked for
abbrev asked : Bool → ℕ → ℕ → Alg → Mgmt → Mgmt
asked fsck i j a m = record (if fsck then set_prio_fsck (marks i j m) else marks i j m) { alg = a }

abbrev name_end : Bool → ℕ
name_end false = 4
name_end true = 6

digest_scanned :
    (m : Mgmt) (sha1 : Bool) (q reason eol rest : Bytes) (fsck : Bool)
    → All path_byte q
    → Reason reason fsck
    → LineEnd eol
    → let j = name_end sha1 + 1 + length q in
      scan st1 0 (alg_name sha1 ++ (q ++ (reason ++ (eol ++ rest)))) m
      ≡ finished digest
          (j + length reason + length eol)
          (asked fsck (name_end sha1) j (alg_of sha1) m)
unfolding scan move_to acts act transition set_prio_fsck
digest_scanned m false q reason eol rest false h r e =
    let m' = record m { alg = alg_md5; mark0 = 4 } in
    scan-loop path_byte st8 path-stays_8 q (reason ++ (eol ++ rest)) 5 m' h
    ∙ scan-Reason reason eol rest false (5 + length q) m' r e
digest_scanned m false q reason eol rest true h r e =
    let m' = record m { alg = alg_md5; mark0 = 4 } in
    scan-loop path_byte st8 path-stays_8 q (reason ++ (eol ++ rest)) 5 m' h
    ∙ scan-Reason reason eol rest true (5 + length q) m' r e
digest_scanned m true q reason eol rest false h r e =
    let m' = record m { alg = alg_sha1; mark0 = 6 } in
    scan-loop path_byte st8 path-stays_8 q (reason ++ (eol ++ rest)) 7 m' h
    ∙ scan-Reason reason eol rest false (7 + length q) m' r e
digest_scanned m true q reason eol rest true h r e =
    let m' = record m { alg = alg_sha1; mark0 = 6 } in
    scan-loop path_byte st8 path-stays_8 q (reason ++ (eol ++ rest)) 7 m' h
    ∙ scan-Reason reason eol rest true (7 + length q) m' r e

length-alg_name : (sha1 : Bool) → length (alg_name sha1) ≡ name_end sha1 + 1
length-alg_name false = refl
length-alg_name true = refl

digest_marked :
    (m : Mgmt) (sha1 : Bool) (q tail : Bytes) (fsck : Bool)
    → marked_path
        (asked fsck (name_end sha1) (name_end sha1 + 1 + length q) (alg_of sha1) m)
        (alg_name sha1 ++ (q ++ tail))
      ≡ b'/' ∷ q
unfolding marked_path set_prio_fsck
digest_marked m false q tail false =
    slice-middle (codes "MD5 ") (b'/' ∷ q) tail 4 (5 + length q) refl (omega arith)
digest_marked m false q tail true =
    slice-middle (codes "MD5 ") (b'/' ∷ q) tail 4 (5 + length q) refl (omega arith)
digest_marked m true q tail false =
    slice-middle (codes "SHA-1 ") (b'/' ∷ q) tail 6 (7 + length q) refl (omega arith)
digest_marked m true q tail true =
    slice-middle (codes "SHA-1 ") (b'/' ∷ q) tail 6 (7 + length q) refl (omega arith)

asked-asks_for :
    (m : Mgmt) (sha1 fsck : Bool) (i j : ℕ)
    → asked fsck i j (alg_of sha1) m ≡ asks_for (marks i j m) sha1 fsck
unfolding set_prio_fsck
asked-asks_for m sha1 false i j = refl
asked-asks_for m sha1 true i j = refl

opened-begin :
    (m : Mgmt) (sha1 fsck : Bool) (path : Bytes) (net : List Answer) (o : Option Source)
    → let m' = asks_for m sha1 fsck in digest_opened m' net path o ≡ begin sha1 m' path net o
unfolding digest_opened digest_missing
opened-begin m sha1 fsck path net (some s) = refl
opened-begin m false fsck path net none = refl
opened-begin m true fsck path net none = refl

digest_served :
    (env : MgmtEnv) (m : Mgmt) (sha1 : Bool) (q reason tail : Bytes) (fsck : Bool)
    (net : List Answer)
    → let j = name_end sha1 + 1 + length q in
      request_done env digest
        (asked fsck (name_end sha1) j (alg_of sha1) m)
        (alg_name sha1 ++ (q ++ tail))
        net
      ≡ serve env (marks (name_end sha1) j m) (ask_digest sha1 q reason fsck) net
unfolding request_done mgmt_fn_digest with_path serve
digest_served env m sha1 q reason tail fsck net =
    let j = name_end sha1 + 1 + length q in
    let m' = asked fsck (name_end sha1) j (alg_of sha1) m in
    ap
      (λ p.
        if valid_path p
        then digest_opened m' net p (env.open_read p)
        else mgmt_writev m' (uri_invalid ∷ []) net)
      (digest_marked m sha1 q tail fsck)
    ∙ ap
        (λ k.
          if valid_path (b'/' ∷ q)
          then digest_opened k net (b'/' ∷ q) (env.open_read (b'/' ∷ q))
          else mgmt_writev k (uri_invalid ∷ []) net)
        (asked-asks_for m sha1 fsck (name_end sha1) j)
    ∙ ap
        (λ r.
          if valid_path (b'/' ∷ q)
          then r
          else mgmt_writev (asks_for (marks (name_end sha1) j m) sha1 fsck) (uri_invalid ∷ []) net)
        (opened-begin (marks (name_end sha1) j m) sha1 fsck (b'/' ∷ q) net
          (env.open_read (b'/' ∷ q)))

pub digest_line :
    (env : MgmtEnv) (m : Mgmt) (sha1 : Bool) (q reason : Bytes) (fsck : Bool) (eol rest : Bytes)
    (net : List Answer)
    → IsFresh m
    → All path_byte q
    → Reason reason fsck
    → LineEnd eol
    → Serves env m
        (ask_digest sha1 q reason fsck)
        ((alg_name sha1 ++ (q ++ reason)) ++ (eol ++ rest))
        net
        (length (alg_name sha1 ++ (q ++ reason)) + length eol)
digest_line env m sha1 q reason fsck eol rest net f h r e =
    let buf = alg_name sha1 ++ (q ++ (reason ++ (eol ++ rest))) in
    let j = name_end sha1 + 1 + length q in
    let n = j + length reason + length eol in
    let cmd = ask_digest sha1 q reason fsck in
    let regrouped : buf ≡ (alg_name sha1 ++ (q ++ reason)) ++ (eol ++ rest) = simp append_assoc in
    let k : n ≡ length (alg_name sha1 ++ (q ++ reason)) + length eol = omega (
      arith,
      length-append (alg_name sha1) (q ++ reason),
      length-append q reason,
      length-alg_name sha1,
    ) in
    subst (λ b. Serves env m cmd b net (length (alg_name sha1 ++ (q ++ reason)) + length eol))
      regrouped
      (Serves-length env m cmd buf net n _ k (
        name_end sha1,
        j,
        fresh_parse env m (asked fsck (name_end sha1) j (alg_of sha1) m) buf net digest n f
              (digest_scanned m sha1 q reason eol rest fsck h r e)
            ∙ ap (replied n) (digest_served env m sha1 q reason (reason ++ (eol ++ rest)) fsck net),
      ))
