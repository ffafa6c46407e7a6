-- ===== src/Mgmt/Answers/Writes.antt =====
-- mgmt_fn.c: what the answers put on the wire.
use cmogstored.Prelude.{ℕ, ◌≢◌, Bytes, List, [], ◌∷◌, ◌++◌, ◌≡◌, refl, ap, take, codes}
use mathlib.Core.Path.{subst}
use cmogstored.Prelude.{append-nil}
use cmogstored.Prelude.Decimal.{decimal}
use cmogstored.TryWrite.{Answer, null, trywritev, joined}
use cmogstored.TryWrite.Send.{Delivers, trywritev-Delivers}
use cmogstored.Http.State.{Run, returns, aborted, ◌>>=◌}
use cmogstored.Mgmt.State.{Mgmt, Alg, alg_md5, alg_sha1, alg_unset, Source}
use cmogstored.Mgmt.Answers.{
  MgmtEnv, mgmt_writev, eol, hex, digest_hex, emit, mgmt_fn_digest_emit, mgmt_fn_digest_err,
}

-- The client with `reply` on its way: all on the socket, or the rest in the buffer, or lost with
-- the connection.
abbrev pub Replies : Mgmt → Bytes → Run Mgmt → Type 0
Replies m reply r =
    (m' : Mgmt) × (r ≡ returns m')
    × (m' ≡ record m { wbuf = m'.wbuf; out = m'.out })
    × Delivers (m.out ++ reply) m'.wbuf m'.out

pub mgmt_writev-Replies :
    (m : Mgmt) (iov : List Bytes) (net : List Answer)
    → m.wbuf ≡ null
    → Replies m (joined iov) (mgmt_writev m iov net)
unfolding mgmt_writev
mgmt_writev-Replies m iov net e =
    let w = trywritev iov m.out net in
    (record m { wbuf = w.res; out = w.out }, rw e, refl, trywritev-Delivers iov m.out net)

-- "path MD5=" and the digits
unfoldable pub sum_line : Bytes → Bytes → Bytes → Bytes
sum_line path label digits = path ++ (label ++ (digits ++ eol))

-- the line that answers with the checksum of some bytes
unfoldable pub sum_of : MgmtEnv → Alg → Bytes → Bytes → Bytes
unfolding sum_line hex
sum_of env alg_md5 path bytes =
    sum_line path (codes " MD5=") (hex (take 16 (env.checksum alg_md5 bytes)))
sum_of env alg_sha1 path bytes =
    sum_line path (codes " SHA-1=") (hex (take 20 (env.checksum alg_sha1 bytes)))
sum_of env alg_unset path bytes = []

-- the line for a read that fails
unfoldable pub err_line : Bytes → ℕ → Bytes
err_line path at =
    codes "ERR read " ++ (path ++ (codes " at " ++ (decimal at ++ (codes " failed" ++ eol))))

same-reply :
    (m : Mgmt) (reply reply' : Bytes) (r : Run Mgmt)
    → reply ≡ reply'
    → Replies m reply r
    → Replies m reply' r
same-reply m reply reply' r e = subst (λ b. Replies m b r) e

joined-two : (a b : Bytes) → joined (a ∷ b ∷ []) ≡ a ++ b
unfolding joined
joined-two a b = ap (λ t. a ++ t) (append-nil b)

joined-three : (a b c : Bytes) → joined (a ∷ b ∷ c ∷ []) ≡ a ++ (b ++ c)
unfolding joined
joined-three a b c = ap (λ t. a ++ (b ++ t)) (append-nil c)

emit-Replies :
    (m : Mgmt) (s : Source) (label : Bytes) (net : List Answer) (digits : Bytes)
    → m.wbuf ≡ null
    → Replies m (sum_line s.path label digits) (emit m s label net digits)
unfolding emit sum_line
emit-Replies m s label net digits e =
    same-reply m _ _ _ (joined-two s.path (label ++ (digits ++ eol)))
      (mgmt_writev-Replies m _ net e)

pub digest_emit-Replies :
    (env : MgmtEnv) (m : Mgmt) (s : Source) (net : List Answer)
    → m.wbuf ≡ null
    → m.alg ≢ alg_unset
    → Replies m (sum_of env m.alg s.path s.hashed) (mgmt_fn_digest_emit env m s net)
unfolding mgmt_fn_digest_emit sum_of
digest_emit-Replies env m s net e set = go m.alg set
  where
    go :
        (a : Alg)
        → a ≢ alg_unset
        → Replies m (sum_of env a s.path s.hashed) (elim a [
          | alg_md5 ↦
              digest_hex alg_md5 (env.checksum alg_md5 s.hashed) 32 >>= emit m s (codes " MD5=") net
          | alg_sha1 ↦
              digest_hex alg_sha1 (env.checksum alg_sha1 s.hashed) 40
              >>= emit m s (codes " SHA-1=") net
          | alg_unset ↦ aborted
        ])
    go alg_md5 h =
        emit-Replies m s (codes " MD5=") net (hex (take 16 (env.checksum alg_md5 s.hashed))) e
    go alg_sha1 h =
        emit-Replies m s (codes " SHA-1=") net (hex (take 20 (env.checksum alg_sha1 s.hashed))) e
    go alg_unset h = absurd (h refl)

pub digest_err-Replies :
    (m : Mgmt) (s : Source) (net : List Answer)
    → m.wbuf ≡ null
    → Replies m (err_line s.path s.at) (mgmt_fn_digest_err m s net)
unfolding mgmt_fn_digest_err err_line
digest_err-Replies m s net e =
    same-reply m _ _ _
      (joined-three (codes "ERR read ") s.path
        (codes " at " ++ (decimal s.at ++ (codes " failed" ++ eol))))
      (mgmt_writev-Replies m _ net e)
