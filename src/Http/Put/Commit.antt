-- ===== src/Http/Put/Commit.antt =====
-- How a PUT ends: the target changes only together with a "201 Created", and a temporary file
-- never stays behind.
use cmogstored.Prelude.{
  Bytes, List, [], ◌∷◌, ◌++◌, Bool, true, false, ◌&&◌, Option, none, some, ◌≡◌, refl, ap, arith,
  Bool-cases, Option-cases, inl, inr, if◌then◌else◌, codes, append_assoc,
}
use cmogstored.TryWrite.Send.{Delivers}
use cmogstored.Http.State.{Http, File, FsCall, unlinked, renamed, perms_set, closed}
use cmogstored.Http.Response.{response, http_resp, http_resp-Delivers}
use cmogstored.Http.Put.{
  PutEnv, unlink_tmp, file_close_null, md5_ok, set_perms_commit, put_commit_resp, internal_error,
}

-- the file system calls that end a PUT through the temporary file `tmp` of `path`
abbrev pub commit_calls : Bool → PutEnv → Bytes → Bytes → List FsCall
commit_calls md5 env tmp path =
    if md5 && env.fchmod_ok
    then (if env.rename_ok
        then perms_set ∷ renamed tmp path ∷ closed ∷ []
        else perms_set ∷ unlinked tmp ∷ closed ∷ [])
    else unlinked tmp ∷ closed ∷ []

abbrev pub commit_status : Bool → PutEnv → Bytes
commit_status md5 env =
    if md5
    then (if env.fchmod_ok && env.rename_ok then codes "201 Created" else internal_error)
    else codes "400 Bad Request"

file_close_null-open :
    (h : Http) (f : File)
    → h.forward ≡ some f
    → file_close_null h
      ≡ record h { forward = none; calls = h.calls ++ (unlink_tmp f.tmppath ++ closed ∷ []) }
unfolding file_close_null
file_close_null-open h f fw =
    let close : Option File → Http = λ o. elim o [
      | none ↦ h
      | some g ↦ record h {
        forward = none;
        calls = h.calls ++ (unlink_tmp g.tmppath ++ closed ∷ []);
      }
    ] in
    ap close fw

pub file_close_null-forward : (h : Http) → (file_close_null h).forward ≡ none
file_close_null-forward h = elim (Option-cases h.forward) [
  | inl shut ↦ unchanged shut
  | inr (f, open_) ↦ rw (file_close_null-open h f open_) refl
]
  where
    unchanged : h.forward ≡ none → (file_close_null h).forward ≡ none
    unchanged e = unfold file_close_null in ground arith

module _ (env : PutEnv) (h : Http) (f : File) (tmp path : Bytes) (fw : h.forward ≡ some f)
    (t : f.tmppath ≡ some tmp) (p : f.path ≡ some path) where
  set_perms_commit-unmoded : env.fchmod_ok ≡ false → set_perms_commit env h f ≡ (h, false)
  unfolding set_perms_commit
  set_perms_commit-unmoded e = simp e

  set_perms_commit-failed :
      env.fchmod_ok ≡ true
      → env.rename_ok ≡ false
      → set_perms_commit env h f ≡ (record h { calls = h.calls ++ perms_set ∷ [] }, false)
  unfolding set_perms_commit
  set_perms_commit-failed e r = simp e (ground arith)

  set_perms_commit-done :
      env.fchmod_ok ≡ true
      → env.rename_ok ≡ true
      → set_perms_commit env h f ≡ (
        record h {
          calls = h.calls ++ perms_set ∷ renamed tmp path ∷ [];
          forward = some (record f { tmppath = none });
        },
        true,
      )
  unfolding set_perms_commit
  set_perms_commit-done e r = simp e (ground arith)

-- What the end of a PUT leaves: the file is closed after `calls`, and the response is sent.
abbrev pub Finished : PutEnv → Http → List FsCall → Bytes → Http → Type 0
Finished env h calls status h' =
    (h'.forward ≡ none)
    × (h'.calls ≡ h.calls ++ calls)
    × Delivers (h.out ++ response status h'.persistent env.date) h'.wbuf h'.out

finish :
    (env : PutEnv) (h g : Http) (f : File) (calls : List FsCall) (status : Bytes) (alive : Bool)
    → g.forward ≡ some f
    → g.out ≡ h.out
    → g.calls ++ (unlink_tmp f.tmppath ++ closed ∷ []) ≡ h.calls ++ calls
    → Finished env h calls status (http_resp (file_close_null g) status alive env.date env.net)
unfolding http_resp
finish env h g f calls status alive fw out cs =
    rw (file_close_null-open g f fw, ← out)
      (refl, cs, (http_resp-Delivers (record g { forward = none }) status env.date alive env.net).0)

-- The end of a PUT through a temporary file, on every branch. With a matching or absent MD5 and
-- when fchmod(2) and rename(2) succeed, the file is renamed into place and "201 Created" is sent;
-- otherwise the temporary file is unlinked, nothing is renamed, and the response is "400 Bad
-- Request" for a wrong MD5 and "500 Internal Server Error" for a failing call. The file is closed
-- in each case, and the response goes out whole or is buffered.
pub put_commit_resp-Finished :
    (env : PutEnv) (h : Http) (f : File) (tmp path : Bytes)
    → h.forward ≡ some f
    → f.tmppath ≡ some tmp
    → f.path ≡ some path
    → Finished env h
        (commit_calls (md5_ok env h f) env tmp path)
        (commit_status (md5_ok env h f) env)
        (put_commit_resp env h f)
unfolding put_commit_resp
put_commit_resp-Finished env h f tmp path fw t p = elim (Bool-cases (md5_ok env h f)) [
  | inl good ↦ elim (Bool-cases env.fchmod_ok) [
    | inl moded ↦ elim (Bool-cases env.rename_ok) [
      | inl done ↦
          simp (good, moded, done, set_perms_commit-done env h f tmp path fw t p moded done)
            (finish env h _ _ _ _ true refl refl (append_assoc h.calls _ _))
      | inr failed ↦
          simp (good, moded, failed, set_perms_commit-failed env h f tmp path fw t p moded failed)
            (finish env h _ f _ _ false fw refl (simp t (append_assoc h.calls _ _)))
    ]
    | inr unmoded ↦
        simp (good, unmoded, set_perms_commit-unmoded env h f tmp path fw t p unmoded)
          (finish env h h f _ _ false fw refl (simp t))
  ]
  | inr bad ↦ simp bad (finish env h h f _ _ true fw refl (simp t))
]
