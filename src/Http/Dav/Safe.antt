-- ===== src/Http/Dav/Safe.antt =====
-- http_dav.c: what a DELETE can remove.
use cmogstored.Prelude.{
  take, drop, ◌-◌, ◌<◌, Bytes, List, [], ◌∷◌, ◌++◌, Bool, true, false, Option, none, some, ◌≡◌,
  refl, ◌⊎◌, inl, inr, length, codes, Bool-cases, Option-cases, not, ◌&&◌, ◌||◌, ◌==◌,
}
use cmogstored.TryWrite.{Answer}
use cmogstored.ValidPath.{valid_path, valid_put_path}
use cmogstored.ValidPath.Traversal.{HasDotDot, valid_path_iff}
use cmogstored.Http.State.{
  Http, unlinked, Errno, no_error, eintr, eacces, eperm, eisdir, enoent, einval, eexist, erange,
  enospc, efbig, eother,
}
use cmogstored.Http.Response.{is_put, http_resp, http_path}
use cmogstored.Http.Get.{is_root}
use cmogstored.Http.Dav.{is_httpget, delete_error, http_delete}

-- A path that a handler gets from a request is one that `mog_valid_path` accepted.
http_path-valid :
    (h : Http) (buf path : Bytes) → (http_path h buf).0 ≡ some path → valid_path path ≡ true
unfolding http_path
http_path-valid h buf path e =
    elim (Bool-cases (valid_path (take (h.path_end - h.path_tip) (drop h.path_tip buf)))) [
      | inl ok ↦
          elim (Bool-cases (
            is_put h.http_method
            && not (valid_put_path (take (h.path_end - h.path_tip) (drop h.path_tip buf))))) [
              | inl bad ↦ cc (rw (ok, bad) at e)
              | inr good ↦ let p = rw (ok, good) at e in cc
            ]
      | inr bad ↦ cc (rw bad at e)
    ]

-- a status of a client's or a server's error
abbrev pub refuses : Bytes → Bool
refuses [] = false
refuses (c ∷ status) = c == b'4' || c == b'5'

delete_error-refuses : (e : Errno) → refuses (delete_error e) ≡ true
unfolding delete_error
delete_error-refuses no_error = refl
delete_error-refuses eintr = refl
delete_error-refuses eacces = refl
delete_error-refuses eperm = refl
delete_error-refuses eisdir = refl
delete_error-refuses enoent = refl
delete_error-refuses einval = refl
delete_error-refuses eexist = refl
delete_error-refuses erange = refl
delete_error-refuses enospc = refl
delete_error-refuses efbig = refl
delete_error-refuses eother = refl

-- Every DELETE is refused with a status 4xx or 5xx and leaves the file system alone, or it is
-- answered with 204 and has removed exactly one file. That is the file of the request's path: the
-- connection is not on the GET-only port, unlink(2) succeeded for it, and it is shorter than 38
-- bytes, is not "/" and contains no "..".
pub http_delete-safe :
    (h : Http) (buf : Bytes) (unlink : Bytes → Option Errno) (date : Bytes) (ks : List Answer)
    → let h' = http_delete h buf unlink date ks in
      ((status : Bytes) × (refuses status ≡ true)
        × (h'.calls ≡ h.calls)
        × (h' ≡ http_resp h status true date ks))
      ⊎ ((path : Bytes) × ((http_path h buf).0 ≡ some path)
          × (is_httpget h.fd_type ≡ false)
          × (unlink path ≡ none)
          × (is_root path ≡ false)
          × (length path < 38)
          × (¬ HasDotDot path)
          × (h'
              ≡ http_resp
                  (record h { calls = h.calls ++ unlinked path ∷ [] })
                  (codes "204 No Content")
                  true
                  date
                  ks))
unfolding http_delete http_resp
http_delete-safe h buf unlink date ks = elim (Bool-cases (is_httpget h.fd_type)) [
  | inl get ↦ rw get (inl (_, refl, refl, refl))
  | inr other ↦ elim (Option-cases (http_path h buf).0) [
    | inl bad ↦ rw (other, bad) (inl (_, refl, refl, refl))
    | inr (path, ok) ↦ elim (Bool-cases (is_root path)) [
      | inl root ↦ rw (other, ok, root) (inl (_, refl, refl, refl))
      | inr deep ↦ elim (Option-cases (unlink path)) [
        | inr (e, failed) ↦
            rw (other, ok, deep, failed) (inl (_, delete_error-refuses e, refl, refl))
        | inl done ↦
            let safe = (valid_path_iff path).0 (http_path-valid h buf path ok) in
            rw (other, ok, deep, done) (inr (path, refl, refl, done, deep, safe.0, safe.1, refl))
      ]
    ]
  ]
]
