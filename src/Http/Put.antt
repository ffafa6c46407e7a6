-- ===== src/Http/Put.antt =====
-- http_put.c: the body of a PUT with a Content-Length, and how a PUT ends. Chunked bodies are not
-- modelled.
pub mod Body
pub mod Chunked
pub mod Commit
pub mod Start
pub mod Turns
use cmogstored.Prelude.{
  ℕ, zero, suc, ◌+◌, ◌-◌, min, Bytes, List, [], ◌∷◌, ◌++◌, Bool, true, false, not, ◌&&◌, Option,
  none, some, ltb, ◌==◌, if◌then◌else◌, length, take, drop, codes,
}
use cmogstored.Prelude.Int.{ℤ, pos, negsuc, pos_part, neg_part, sub_ℕ, ◌+ℤ◌, ◌-ℤ◌, ltb_ℤ}
use cmogstored.TryWrite.{Answer, WbufPtr, null, wr_error, buffered}
use cmogstored.Http.State.{
  Http, File, FsCall, unlinked, renamed, perms_set, closed, Next, next_close, next_active,
  next_wait_rd, next_wait_wr, Errno, no_error, eintr, erange, enospc, efbig, Run, returns, aborted,
  http_reset,
}
use cmogstored.Http.Response.{http_resp}

-- one pwrite(2): a count of bytes, EINTR, or another error
pub data PWrite : Type 0 where
  stored : ℕ → PWrite
  interrupted : PWrite
  refused : Errno → PWrite

-- What the system answers while a PUT ends: whether fchmod(2) and rename(2) succeed, and the
-- socket. `md5` is the library's hash, and `date` the clock's text.
pub record PutEnv : Type 0 where
  pub md5 : Bytes → Bytes
  pub date : Bytes
  pub fchmod_ok : Bool
  pub rename_ok : Bool
  pub net : List Answer

-- `mog_http_write_full` after the first pwrite(2) was asked for; `none` is "return true", and
-- errno comes back otherwise. After its last answer the disk takes all.
abbrev pub store : File → Bytes → File
store f bytes = record f {
  foff = f.foff + length bytes;
  written = f.written ++ (f.foff, bytes) ∷ [];
}

abbrev pub no_space : Errno → Errno
no_space no_error = enospc
no_space e = e

unfoldable pub write_loop : File → Bytes → Errno → List PWrite → File × Option Errno × List PWrite
write_loop f buf e [] = (store f buf, none, [])
write_loop f buf e (stored n ∷ ks) =
    let w = min n (length buf) in
    let rest = write_loop (store f (take w buf)) (drop w buf) e ks in
    if w == 0
    then (f, some (no_space e), ks)
    else if w == length buf
    then (store f buf, none, ks)
    else rest
write_loop f buf e (interrupted ∷ ks) = write_loop f buf eintr ks
write_loop f buf e (refused e' ∷ ks) = (f, some e', ks)

-- `gc_hash_write`, where the file has a hash context
abbrev pub hash_write : File → Bytes → File
hash_write f buf = record f {
  digest = elim f.digest [ none ↦ none | some seen ↦ some (seen ++ buf) ];
}

unfoldable pub write_full : File → Bytes → List PWrite → File × Option Errno × List PWrite
unfolding write_loop
write_full f buf ks =
    let h = hash_write f buf in
    if length buf == 0 then (h, none, ks) else write_loop h buf no_error ks

abbrev pub unlink_tmp : Option Bytes → List FsCall
unlink_tmp none = []
unlink_tmp (some tmp) = unlinked tmp ∷ []

-- a failing unlink(2) is only logged
unfoldable pub file_close_null : Http → Http
file_close_null h = elim h.forward [
  | none ↦ h
  | some f ↦ record h { forward = none; calls = h.calls ++ (unlink_tmp f.tmppath ++ closed ∷ []) }
]

-- `stop0` with a status; without one it is `file_close_null` alone
unfoldable pub stop : PutEnv → Http → Bytes → Next × Http
stop env h status = (next_close, file_close_null (http_resp h status false env.date env.net))

abbrev pub is_storage : Errno → Bool
is_storage erange = true
is_storage enospc = true
is_storage efbig = true
is_storage _ = false

unfoldable pub write_err : PutEnv → Http → Errno → Bytes → Next × Http
unfolding stop
write_err env h e default_msg =
    stop env h (if is_storage e then codes "507 Insufficient Storage" else default_msg)

abbrev pub internal_error : Bytes
internal_error = codes "500 Internal Server Error"

unfoldable pub equal_bytes : Bytes → Bytes → Bool
equal_bytes [] [] = true
equal_bytes (a ∷ as_) (b ∷ bs) = a == b && equal_bytes as_ bs
equal_bytes _ _ = false

unfoldable pub md5_ok : PutEnv → Http → File → Bool
unfolding equal_bytes
md5_ok env h f = elim f.digest [ none ↦ true | some seen ↦ equal_bytes h.expect_md5 (env.md5 seen) ]

abbrev pub path_of : File → Bytes
path_of f = elim f.path [ none ↦ [] | some p ↦ p ]

unfoldable pub set_perms_commit : PutEnv → Http → File → Http × Bool
set_perms_commit env h f = if not env.fchmod_ok then (h, false) else elim f.tmppath [
  | none ↦ (record h { calls = h.calls ++ perms_set ∷ [] }, true)
  | some tmp ↦
      if env.rename_ok
      then (
        record h {
          calls = h.calls ++ perms_set ∷ renamed tmp (path_of f) ∷ [];
          forward = some (record f { tmppath = none });
        },
        true,
      )
      else (record h { calls = h.calls ++ perms_set ∷ [] }, false)
]

unfoldable pub put_commit_resp : PutEnv → Http → File → Http
put_commit_resp env h f =
    if md5_ok env h f
    then (let (h', done) = set_perms_commit env h f in
        if done
        then http_resp (file_close_null h') (codes "201 Created") true env.date env.net
        else http_resp (file_close_null h') internal_error false env.date env.net)
    else http_resp (file_close_null h) (codes "400 Bad Request") true env.date env.net

abbrev pub is_buffered : WbufPtr → Bool
is_buffered (buffered w) = true
is_buffered _ = false

abbrev pub is_wr_error : WbufPtr → Bool
is_wr_error wr_error = true
is_wr_error _ = false

unfoldable pub http_put_commit : PutEnv → Http → File → Next × Http
unfolding put_commit_resp
http_put_commit env h f =
    let h' = put_commit_resp env h f in
    if is_buffered h'.wbuf
    then (next_wait_wr, h')
    else if not h'.persistent
    then (next_close, h')
    else if is_wr_error h'.wbuf
    then (next_close, h')
    else (next_active, http_reset h')

-- one read(2) from the socket: a count of bytes, EAGAIN, EINTR, or another error
pub data Recv : Type 0 where
  got : ℕ → Recv
  would_block recv_interrupted recv_failed : Recv

-- sizeof(tls_fsbuf)
abbrev pub fsbuf_size : ℕ
fsbuf_size = 8192

-- The loop from `again:`. `need` bytes are missing, and `disk` answers pwrite(2). After its last
-- answer the socket blocks.
unfoldable pub put_loop : PutEnv → Http → File → ℕ → List PWrite → List Recv → Next × Http
put_loop env h f need disk [] = (next_wait_rd, record h { forward = some f })
put_loop env h f need disk (would_block ∷ ks) = (next_wait_rd, record h { forward = some f })
put_loop env h f need disk (recv_interrupted ∷ ks) = put_loop env h f need disk ks
put_loop env h f need disk (recv_failed ∷ ks) =
    (next_close, file_close_null (record h { forward = some f }))
put_loop env h f need disk (got n ∷ ks) =
    let chunk = take (min n (min fsbuf_size need)) h.input in
    let r = length chunk in
    let (f', e, disk') = write_full f chunk disk in
    let h' = record h { input = drop r h.input; forward = some f' } in
    let rest = put_loop env h' f' (need - r) disk' ks in
    if r == 0 then (next_close, file_close_null (record h { forward = some f })) else elim e [
      | some errno ↦ write_err env h' errno internal_error
      | none ↦ if need - r == 0 then http_put_commit env h' f' else rest
    ]

-- content_len - foff, plus range_beg with a Content-Range
unfoldable pub need_of : Http → File → ℤ
need_of h f =
    let need = h.content_len -ℤ pos f.foff in
    if h.has_content_range then need +ℤ h.range_beg else need

-- `identity_put_in_progress`; the assertion is "over-wrote on PUT request"
unfoldable pub identity_put_in_progress :
    PutEnv → Http → File → List PWrite → List Recv → Run (Next × Http)
identity_put_in_progress env h f disk ks = elim (need_of h f) [
  | pos zero ↦ returns (http_put_commit env h f)
  | pos (suc n) ↦ returns (put_loop env h f (suc n) disk ks)
  | negsuc n ↦ aborted
]
