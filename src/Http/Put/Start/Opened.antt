-- ===== src/Http/Put/Start/Opened.antt =====
-- http_put.c: what `mog_http_put` leaves for the body that is still to come.
use cmogstored.Prelude.{
  ℕ, ◌+◌, ◌-◌, min, Bytes, List, [], ◌∷◌, ◌++◌, Bool, true, false, Option, none, some, ◌⊎◌, inl,
  inr, ◌==◌, ==_iff, if◌then◌else◌, length, codes, length-drop, length-take, take, drop, ◌≡◌, refl,
  sym, ap, ◌∙◌, Bool-cases, Option-cases, arith, length-eq-zero,
}
use mathlib.Core.Path.{subst}
use cmogstored.Prelude.Int.{pos_part}
use cmogstored.TryWrite.{Answer}
use cmogstored.Http.State.{
  Http, File, returns, opened, Errno, no_error, eintr, eacces, eperm, eisdir, enoent, einval,
  eexist, erange, enospc, efbig, eother,
}
use cmogstored.Http.Response.{http_resp, http_path}
use cmogstored.Http.Dav.{is_httpget}
use cmogstored.Http.Lengths.{lengths_ok}
use cmogstored.Http.Put.{PutEnv, PWrite, write_full, write_err, internal_error, stop}
use cmogstored.Http.Put.Commit.{file_close_null-forward}
use cmogstored.Http.Put.Body.{Holds, write_full-Holds}
use cmogstored.Http.Put.Start.{
  Opener, o_creat, o_excl_trunc_creat, tmppath_for, put_file, open_put, opened_as, is_eexist,
  ChunkParser, identity_body_after_header, http_put, put_error, put_opened,
}

abbrev pub file_start : Http → ℕ
file_start h = if h.has_content_range then pos_part h.range_beg else 0

put_file-Holds :
    (h : Http) (path : Bytes) (tmp : Option Bytes) → Holds (file_start h) (put_file h path tmp) []
unfolding put_file
put_file-Holds h path tmp = record { has = refl; placed = tt; foff_is = omega arith }

-- A new file, which O_EXCL lets nobody else have, under the first temporary name, or under the second
-- one where the first exists.
abbrev UnderTmp : Opener → Bytes → Option Bytes → Type 0
UnderTmp s path tmp =
    let open_new = s.open_put_file o_excl_trunc_creat in
    ((tmp ≡ some (tmppath_for s 0 path)) × (open_new (tmppath_for s 0 path) ≡ none))
    ⊎ ((tmp ≡ some (tmppath_for s 1 path))
        × ((e : Errno) × (open_new (tmppath_for s 0 path) ≡ some e) × (is_eexist e ≡ true))
        × (open_new (tmppath_for s 1 path) ≡ none))

-- nothing of the body is written yet, and the first byte goes to the start of the range
abbrev pub Opened : Opener → Http → Bytes → File → Type 0
Opened s h path f =
    Holds (file_start h) f []
    × (f.path ≡ some path)
    × (((h.has_content_range ≡ true) × (f.tmppath ≡ none) × (s.open_put_file o_creat path ≡ none))
        ⊎ ((h.has_content_range ≡ false) × UnderTmp s path f.tmppath))

-- Where `open_put` returns a file, nothing of this client's body is in it yet, and it is written
-- from the start of the range, or from 0. Without a Content-Range it is a new file under one of two
-- temporary names, so that nobody reads part of it under its path, and the second name is tried only
-- where the first one exists. With a Content-Range it is open under the path itself, without
-- O_TRUNC, so that what other requests have written stays. In each case open(2) has succeeded with
-- that name and these flags.
pub open_put-Opened :
    (s : Opener) (h : Http) (path : Bytes) (f : File)
    → open_put s h path ≡ inr f
    → Opened s h path f
unfolding open_put put_file
open_put-Opened s h path f e = elim (Bool-cases h.has_content_range) [
  | inl ranged ↦ elim (Option-cases (s.open_put_file o_creat path)) [
    | inl ok ↦ is_file none (rw (ranged, ok) at e) (inl (ranged, refl, ok))
    | inr (n, bad) ↦ cc (rw (ranged, bad) at e)
  ]
  | inr plain ↦ elim (Option-cases (s.open_put_file o_excl_trunc_creat (tmppath_for s 0 path))) [
    | inl ok ↦
        is_file (some (tmppath_for s 0 path)) (rw (plain, ok) at e) (inr (plain, inl (refl, ok)))
    | inr (n, bad) ↦ elim (Bool-cases (is_eexist n)) [
      | inr other ↦ cc (rw (plain, bad, other) at e)
      | inl again ↦
          elim (Option-cases (s.open_put_file o_excl_trunc_creat (tmppath_for s 1 path))) [
            | inl ok ↦
                is_file (some (tmppath_for s 1 path)) (rw (plain, bad, again, ok) at e)
                  (inr (plain, inr (refl, (n, bad, again), ok)))
            | inr (m, worse) ↦ cc (rw (plain, bad, again, worse) at e)
          ]
    ]
  ]
]
  where
    is_file :
        (tmp : Option Bytes)
        → Path (Errno ⊎ File) (inr (put_file h path tmp)) (inr f)
        → ((h.has_content_range ≡ true) × (tmp ≡ none) × (s.open_put_file o_creat path ≡ none))
          ⊎ ((h.has_content_range ≡ false) × UnderTmp s path tmp)
        → Opened s h path f
    is_file tmp p c =
        let q : put_file h path tmp ≡ f = cc in
        let whole : Opened s h path (put_file h path tmp) = (put_file-Holds h path tmp, refl, c) in
        subst (λ x. Opened s h path x) q whole

write_err-forward :
    (env : PutEnv) (h : Http) (e : Errno) (msg : Bytes) → (write_err env h e msg).1.forward ≡ none
unfolding write_err stop
write_err-forward env h e msg = file_close_null-forward (http_resp h _ false env.date env.net)

-- `h'` goes on with a PUT: a first part of the body is in the file, and `offset` is behind it
abbrev pub Started : ℕ → Http → Bytes → Http → Type 0
Started start h buf h' =
    (f : File) × (body : Bytes) × (h'.forward ≡ some f)
    × Holds start f body
    × (body ≡ take (min (pos_part h.content_len) (length buf - h.offset)) (drop h.offset buf))
    × (h'.offset ≡ h.offset + length body)
    × (h'.content_len ≡ h.content_len)

identity_body-Started :
    (env : PutEnv) (h : Http) (f : File) (buf : Bytes) (disk : List PWrite) (start : ℕ)
    → h.forward ≡ some f
    → Holds start f []
    → let h' = identity_body_after_header env h f buf disk in
      Started start h buf h' ⊎ (h'.forward ≡ none)
unfolding identity_body_after_header
identity_body-Started env h f buf disk start fw hf =
    let body_len = min (pos_part h.content_len) (length buf - h.offset) in
    let body = take body_len (drop h.offset buf) in
    let size : length body ≡ body_len =
      omega (arith, length-take body_len (drop h.offset buf), length-drop h.offset buf) in
    elim (Bool-cases (body_len == 0)) [
      | inl none_yet ↦
          let z : body_len ≡ 0 = (==_iff _ _).0 none_yet in
          let e : body ≡ [] = length-eq-zero body (size ∙ z) in
          rw none_yet (inl (f, [], fw, hf, sym e, omega arith, refl))
      | inr some_bytes ↦ elim (Option-cases (write_full f body disk).1) [
        | inl ok ↦
            rw (some_bytes, ok)
              (inl (
                (write_full f body disk).0,
                body,
                refl,
                write_full-Holds start f [] body disk hf ok,
                refl,
                ap (◌+◌ h.offset) (sym size),
                refl,
              ))
        | inr (errno, bad) ↦
            rw (some_bytes, bad) (inr (write_err-forward env _ errno internal_error))
      ]
    ]

put_opened-Started :
    (chunk_parse : ChunkParser) (env : PutEnv) (h : Http) (f : File) (buf : Bytes)
    (disk : List PWrite) (start : ℕ)
    → h.chunked ≡ false
    → h.forward ≡ some f
    → Holds start f []
    → (h' : Http) × (put_opened chunk_parse env h f buf disk ≡ returns h')
      × (Started start h buf h' ⊎ (h'.forward ≡ none))
unfolding put_opened
put_opened-Started chunk_parse env h f buf disk start ch fw hf =
    elim (Bool-cases (length buf == h.offset)) [
      | inl all ↦
          let z : min (pos_part h.content_len) (length buf - h.offset) ≡ 0 = ground arith in
          (h, rw (all, ch) refl, inl (f, [], fw, hf, rw z refl, omega arith, refl))
      | inr more ↦ (
        identity_body_after_header env h f buf disk,
        rw (more, ch) refl,
        identity_body-Started env h f buf disk start fw hf,
      )
    ]

http_resp-forward :
    (h : Http) (status : Bytes) (alive : Bool) (date : Bytes) (ks : List Answer)
    → (http_resp h status alive date ks).forward ≡ h.forward
unfolding http_resp
http_resp-forward h status alive date ks = refl

put_error-forward :
    (env : PutEnv) (h : Http) (e : Errno) → h.forward ≡ none → (put_error env h e).forward ≡ none
unfolding put_error
put_error-forward env h no_error fw = write_err-forward env h no_error internal_error
put_error-forward env h eintr fw = write_err-forward env h eintr internal_error
put_error-forward env h eacces fw = http_resp-forward h _ false env.date env.net ∙ fw
put_error-forward env h eperm fw = write_err-forward env h eperm internal_error
put_error-forward env h eisdir fw = write_err-forward env h eisdir internal_error
put_error-forward env h enoent fw = http_resp-forward h _ false env.date env.net ∙ fw
put_error-forward env h einval fw = http_resp-forward h _ false env.date env.net ∙ fw
put_error-forward env h eexist fw = write_err-forward env h eexist internal_error
put_error-forward env h erange fw = write_err-forward env h erange internal_error
put_error-forward env h enospc fw = write_err-forward env h enospc internal_error
put_error-forward env h efbig fw = write_err-forward env h efbig internal_error
put_error-forward env h eother fw = write_err-forward env h eother internal_error

-- A PUT that is not chunked either leaves no file open, or has started: the connection is not on
-- the GET-only port, path and lengths passed their checks, the file is open under a name that
-- hides it until the commit unless it has a Content-Range, and exactly the body's bytes that came
-- with the header are in it, from the right offset.
pub http_put-Started :
    (chunk_parse : ChunkParser) (env : PutEnv) (s : Opener) (h : Http) (buf : Bytes)
    (disk : List PWrite)
    → h.chunked ≡ false
    → h.forward ≡ none
    → (h' : Http) × (http_put chunk_parse env s h buf disk ≡ returns h')
      × (((path : Bytes) × (f : File) × (is_httpget h.fd_type ≡ false)
            × ((http_path h buf).0 ≡ some path)
            × (lengths_ok h ≡ true)
            × Opened s h path f
            × Started (file_start h) h buf h')
          ⊎ (h'.forward ≡ none))
unfolding http_put
http_put-Started chunk_parse env s h buf disk ch fw = elim (Bool-cases (is_httpget h.fd_type)) [
  | inl get ↦ (
    http_resp h (codes "405 Method Not Allowed") false env.date env.net,
    rw get refl,
    inr (http_resp-forward h _ false env.date env.net ∙ fw),
  )
  | inr other ↦ elim (Option-cases (http_path h buf).0) [
    | inl bad ↦ (
      put_error env h (http_path h buf).1,
      rw (other, bad) refl,
      inr (put_error-forward env h (http_path h buf).1 fw),
    )
    | inr (path, ok) ↦ elim (Bool-cases (lengths_ok h)) [
      | inr wrong ↦ (
        (write_err env h no_error (codes "400 Bad Request")).1,
        rw (other, ok, wrong) refl,
        inr (write_err-forward env h no_error _),
      )
      | inl fit ↦ elim (open_cases (open_put s h path)) [
        | inl (e, failed) ↦ (
          put_error env h e,
          rw (other, ok, fit, failed) refl,
          inr (put_error-forward env h e fw),
        )
        | inr (f, open_) ↦
            let o = open_put-Opened s h path f open_ in
            let h1 = record h { forward = some f; calls = h.calls ++ opened (opened_as f) ∷ [] } in
            let (h', eq, going) =
              put_opened-Started chunk_parse env h1 f buf disk (file_start h) ch refl o.0 in
            (
              h',
              rw (other, ok, fit, open_) eq,
              elim going [
                | inl started ↦ inl (path, f, other, ok, fit, o, started)
                | inr stopped ↦ inr stopped
              ],
            )
      ]
    ]
  ]
]
  where
    open_cases :
        (r : Errno ⊎ File)
        → ((e : Errno) × Path (Errno ⊎ File) r (inl e))
          ⊎ ((f : File) × Path (Errno ⊎ File) r (inr f))
    open_cases (inl e) = inl (e, refl)
    open_cases (inr f) = inr (f, refl)
