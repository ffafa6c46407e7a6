-- ===== src/Http/Dav.antt =====
-- http_dav.c: DELETE and MKCOL.
pub mod Safe
use cmogstored.Prelude.{
  ℕ, ◌<◌, Bytes, List, [], ◌∷◌, ◌++◌, Bool, true, false, Option, none, some, ◌≡◌, refl, ◌⊎◌, inl,
  inr, if◌then◌else◌, length, codes,
}
use cmogstored.TryWrite.{Answer}
use cmogstored.ValidPath.{valid_path}
use cmogstored.ValidPath.Traversal.{HasDotDot, valid_path_iff}
use cmogstored.Http.State.{
  Http, FdType, fd_httpget, FsCall, unlinked, Errno, no_error, eperm, eisdir, eacces, enoent,
}
use cmogstored.Http.Response.{http_resp, http_path}
use cmogstored.Http.Get.{is_root}

abbrev pub is_httpget : FdType → Bool
is_httpget fd_httpget = true
is_httpget _ = false

-- the response to a failed unlink(2)
unfoldable pub delete_error : Errno → Bytes
delete_error eperm = codes "403 Forbidden"
delete_error eisdir = codes "403 Forbidden"
delete_error eacces = codes "403 Forbidden"
delete_error enoent = codes "404 Not Found"
delete_error _ = codes "500 Internal Server Error"

-- `mog_http_delete`; `unlink` is what unlink(2) answers for a path, none for success
unfoldable pub http_delete : Http → Bytes → (Bytes → Option Errno) → Bytes → List Answer → Http
http_delete h buf unlink date ks =
    if is_httpget h.fd_type
    then http_resp h (codes "405 Method Not Allowed") true date ks
    else elim (http_path h buf).0 [
      | none ↦ http_resp h (codes "403 Forbidden") true date ks
      | some path ↦
          if is_root path
          then http_resp h (codes "403 Forbidden") true date ks
          else elim (unlink path) [
            | none ↦
                http_resp (record h { calls = h.calls ++ unlinked path ∷ [] })
                  (codes "204 No Content") true date ks
            | some e ↦ http_resp h (delete_error e) true date ks
          ]
    ]

-- `mog_http_mkcol`: no directory is made
unfoldable pub http_mkcol : Http → Bytes → Bytes → List Answer → Http
http_mkcol h buf date ks =
    if is_httpget h.fd_type
    then http_resp h (codes "405 Method Not Allowed") true date ks
    else elim (http_path h buf).0 [
      | none ↦ http_resp h (codes "403 Forbidden") true date ks
      | some path ↦ http_resp h (codes "400 Bad Request") true date ks
    ]
