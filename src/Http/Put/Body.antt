-- ===== src/Http/Put/Body.antt =====
-- The body of a PUT with a Content-Length: what of the client's stream goes where in the file,
-- and when the PUT ends.
use cmogstored.Prelude.{
  ℕ, zero, suc, ◌+◌, ◌-◌, ◌≤◌, ◌<◌, min, Bytes, List, [], ◌∷◌, ◌++◌, true, false, none, some, ◌≡◌,
  ◌⊎◌, refl, sym, ap, ◌∙◌, arith, ◌==◌, ==_iff, Bool-cases, Option-cases, inl, inr, length,
  length-append, length-eq-zero, length-take, take, drop, take-append-drop, take-length-take,
  append_assoc, append-nil,
}
use cmogstored.Prelude.Int.{pos}
use cmogstored.Http.State.{Http, File, Next, next_close, next_wait_rd, Errno, no_error, returns}
use cmogstored.Http.Put.Commit.{file_close_null-forward}
use cmogstored.Http.Put.{
  PutEnv, PWrite, stored, interrupted, refused, store, write_loop, write_full, hash_write,
  write_err, internal_error, http_put_commit, Recv, got, would_block, recv_interrupted, recv_failed,
  fsbuf_size, put_loop, need_of, identity_put_in_progress,
}

abbrev pub contents : List (ℕ × Bytes) → Bytes
contents [] = []
contents ((o, b) ∷ bs) = b ++ contents bs

-- the writes follow one another from `start` without a gap
abbrev pub IsPlaced : ℕ → List (ℕ × Bytes) → Type 0
IsPlaced start [] = Unit
IsPlaced start ((o, b) ∷ bs) = (o ≡ start) × IsPlaced (start + length b) bs

contents-store :
    (bs : List (ℕ × Bytes)) (o : ℕ) (b : Bytes) → contents (bs ++ (o, b) ∷ []) ≡ contents bs ++ b
contents-store [] o b = append-nil b
contents-store ((p, a) ∷ bs) o b =
    ap (◌++◌ a) (contents-store bs o b) ∙ sym (append_assoc a (contents bs) b)

IsPlaced-store :
    (start : ℕ) (bs : List (ℕ × Bytes)) (o : ℕ) (b : Bytes)
    → IsPlaced start bs
    → o ≡ start + length (contents bs)
    → IsPlaced start (bs ++ (o, b) ∷ [])
IsPlaced-store start [] o b h e = (omega arith, tt)
IsPlaced-store start ((p, a) ∷ bs) o b (q, h) e =
    (q, IsPlaced-store (start + length a) bs o b h (omega (arith, length-append a (contents bs))))

-- `f` holds the first part of the body, from offset `start` on
pub record Holds (start : ℕ) (f : File) (body : Bytes) : Type 0 where
  pub has : contents f.written ≡ body
  pub placed : IsPlaced start f.written
  pub foff_is : f.foff ≡ start + length body

store-Holds :
    (start : ℕ) (f : File) (body b : Bytes)
    → Holds start f body
    → Holds start (store f b) (body ++ b)
store-Holds start f body b h = record {
  has = contents-store f.written f.foff b ∙ ap (λ (t : Bytes). t ++ b) h.has;
  placed =
      IsPlaced-store start f.written f.foff b h.placed
        (h.foff_is ∙ ap (λ (t : Bytes). start + length t) (sym h.has));
  foff_is = let e = h.foff_is in omega (arith, length-append body b);
}

write_loop-Holds :
    (start : ℕ) (f : File) (body buf : Bytes) (e : Errno) (ks : List PWrite)
    → Holds start f body
    → (write_loop f buf e ks).1 ≡ none
    → Holds start (write_loop f buf e ks).0 (body ++ buf)
unfolding write_loop
write_loop-Holds start f body buf e [] h r = store-Holds start f body buf h
write_loop-Holds start f body buf e (stored n ∷ ks) h r =
    let w = min n (length buf) in
    elim (Bool-cases (w == 0)) [
      | inl stuck ↦ absurd (full (rw stuck at r))
      | inr moved ↦ elim (Bool-cases (w == length buf)) [
        | inl all ↦ rw (moved, all) (store-Holds start f body buf h)
        | inr part ↦
            let later =
              write_loop-Holds start (store f (take w buf)) (body ++ take w buf) (drop w buf) e ks
                (store-Holds start f body (take w buf) h) (rw (moved, part) at r) in
            let whole =
              append_assoc body (take w buf) (drop w buf)
              ∙ ap (◌++◌ body) (take-append-drop w buf) in
            rw (moved, part) (rw whole at later)
      ]
    ]
  where
    full : {e : Errno} → some e ≡ none → ⊥
    full x = cc
write_loop-Holds start f body buf e (interrupted ∷ ks) h r =
    write_loop-Holds start f body buf _ ks h r
write_loop-Holds start f body buf e (refused e' ∷ ks) h r = cc

-- `mog_http_write_full` that succeeds appends the whole buffer, however pwrite(2) splits it.
pub write_full-Holds :
    (start : ℕ) (f : File) (body buf : Bytes) (ks : List PWrite)
    → Holds start f body
    → (write_full f buf ks).1 ≡ none
    → Holds start (write_full f buf ks).0 (body ++ buf)
unfolding write_full
write_full-Holds start f body buf ks h r =
    let hashed = hash_write f buf in
    let same : Holds start hashed body = record {
      has = h.has;
      placed = h.placed;
      foff_is = h.foff_is;
    } in
    elim (Bool-cases (length buf == 0)) [
      | inl empty ↦
          let e : buf ≡ [] = length-eq-zero buf ((==_iff _ _).0 empty) in
          rw (empty, e, append-nil body) same
      | inr full ↦ rw full (write_loop-Holds start hashed body buf no_error ks same (rw full at r))
    ]

pub write_err-drops :
    (env : PutEnv) (h : Http) (e : Errno) (msg : Bytes)
    → ((write_err env h e msg).0 ≡ next_close) × ((write_err env h e msg).1.forward ≡ none)
unfolding write_err
write_err-drops env h e msg = (refl, file_close_null-forward _)

-- the request has a body of `len` bytes, which goes to offset `start` of the file
abbrev pub Asks : ℕ → ℕ → Http → Type 0
Asks start len h =
    (h.content_len ≡ pos len)
    × (((h.has_content_range ≡ true) × (h.range_beg ≡ pos start))
        ⊎ ((h.has_content_range ≡ false) × (start ≡ 0)))

-- Where one turn on an unfinished PUT ends. `stream` is all that the client sends after the
-- header, of which the body is the first `len` bytes.
pub data PutEnds (env : PutEnv) (stream : Bytes) (start len : ℕ) (n : Next) (h : Http)
    : Type 0 where
  waiting :
      (f : File) (body : Bytes)
      → n ≡ next_wait_rd
      → h.forward ≡ some f
      → Holds start f body
      → body ++ h.input ≡ stream
      → length body < len
      → Asks start len h
      → PutEnds env stream start len n h
  committed :
      (g : Http) (f : File) (body : Bytes)
      → http_put_commit env g f ≡ (n, h)
      → g.forward ≡ some f
      → Holds start f body
      → body ++ g.input ≡ stream
      → length body ≡ len
      → PutEnds env stream start len n h
  dropped : n ≡ next_close → h.forward ≡ none → PutEnds env stream start len n h

module _ (env : PutEnv) (stream : Bytes) (start len : ℕ) where
  put_loop-PutEnds :
      (h : Http) (f : File) (body : Bytes) (need : ℕ) (disk : List PWrite) (ks : List Recv)
      → Holds start f body
      → body ++ h.input ≡ stream
      → 0 < need
      → length body + need ≡ len
      → Asks start len h
      → let r = put_loop env h f need disk ks in PutEnds env stream start len r.0 r.1
  unfolding put_loop
  put_loop-PutEnds h f body need disk [] hf s p l a = waiting f body refl refl hf s (omega arith) a
  put_loop-PutEnds h f body need disk (would_block ∷ ks) hf s p l a =
      waiting f body refl refl hf s (omega arith) a
  put_loop-PutEnds h f body need disk (recv_interrupted ∷ ks) hf s p l a =
      put_loop-PutEnds h f body need disk ks hf s p l a
  put_loop-PutEnds h f body need disk (recv_failed ∷ ks) hf s p l a =
      dropped refl (file_close_null-forward (record h { forward = some f }))
  put_loop-PutEnds h f body need disk (got n ∷ ks) hf s p l a =
      let chunk = take (min n (min fsbuf_size need)) h.input in
      let r = length chunk in
      let step = write_full f chunk disk in
      let f' = step.0 in
      let h' = record h { input = drop r h.input; forward = some f' } in
      let short : r ≤ need = omega (arith, length-take (min n (min fsbuf_size need)) h.input) in
      let split : chunk ++ drop r h.input ≡ h.input =
        ap (λ (t : Bytes). t ++ drop r h.input) (sym (take-length-take _ h.input))
        ∙ take-append-drop r h.input in
      let stream_is : (body ++ chunk) ++ drop r h.input ≡ stream =
        append_assoc body chunk _ ∙ ap (◌++◌ body) split ∙ s in
      let grown : length (body ++ chunk) ≡ length body + r = length-append body chunk in
      elim (Bool-cases (r == 0)) [
        | inl eof ↦ rw eof (dropped refl (file_close_null-forward (record h { forward = some f })))
        | inr more ↦ elim (Option-cases step.1) [
          | inr (e, bad) ↦
              let lost = write_err-drops env h' e internal_error in
              rw (more, bad) (dropped lost.0 lost.1)
          | inl good ↦
              let hf' = write_full-Holds start f body chunk disk hf good in
              elim (Bool-cases (need - r == 0)) [
                | inl done ↦
                    let full : length (body ++ chunk) ≡ len = ground (arith, grown) in
                    rw (more, good, done)
                      (committed h' f' (body ++ chunk) refl refl hf' stream_is full)
                | inr missing ↦
                    let left : 0 < need - r = ground arith in
                    let total : length (body ++ chunk) + (need - r) ≡ len = omega arith in
                    rw (more, good, missing)
                      (put_loop-PutEnds h' f' (body ++ chunk) (need - r) step.2 ks hf' stream_is
                        left total a)
              ]
        ]
      ]

need_of-lem :
    (h : Http) (f : File) (start len have : ℕ)
    → h.content_len ≡ pos len
    → ((h.has_content_range ≡ true) × (h.range_beg ≡ pos start))
      ⊎ ((h.has_content_range ≡ false) × (start ≡ 0))
    → f.foff ≡ start + have
    → have ≤ len
    → need_of h f ≡ pos (len - have)
unfolding need_of
need_of-lem h f start len have c r o l = elim r [
  | inl (ranged, b) ↦ rw (c, ranged, b, o) (ground arith)
  | inr (plain, z) ↦ rw (c, plain, o, z) (ground arith)
]

-- One turn of the event loop on a PUT with a Content-Length, for every answer of socket and disk.
-- It starts with the first part of the body in the file, in place, and never aborts. It ends
-- waiting in the same way, with part of the body missing; or in the commit, with exactly the
-- body's bytes in the file, from the right offset, and the socket at the first byte after the
-- body; or with the connection to be closed and the file closed.
pub identity_put-PutEnds :
    (env : PutEnv) (h : Http) (f : File) (stream body : Bytes) (start len : ℕ) (disk : List PWrite)
    (ks : List Recv)
    → h.content_len ≡ pos len
    → ((h.has_content_range ≡ true) × (h.range_beg ≡ pos start))
      ⊎ ((h.has_content_range ≡ false) × (start ≡ 0))
    → h.forward ≡ some f
    → Holds start f body
    → body ++ h.input ≡ stream
    → length body ≤ len
    → (r : Next × Http) × (identity_put_in_progress env h f disk ks ≡ returns r)
      × PutEnds env stream start len r.0 r.1
unfolding identity_put_in_progress
identity_put-PutEnds env h f stream body start len disk ks c rg fw hf s l =
    at_need (len - length body) refl
  where
    at_need :
        (need : ℕ)
        → len - length body ≡ need
        → (r : Next × Http) × (identity_put_in_progress env h f disk ks ≡ returns r)
          × PutEnds env stream start len r.0 r.1
    at_need zero e =
        let n : need_of h f ≡ pos zero =
          need_of-lem h f start len (length body) c rg hf.foff_is l ∙ ap pos e in
        (
          http_put_commit env h f,
          rw (n, identity_put_in_progress) refl,
          committed h f body refl fw hf s (omega arith),
        )
    at_need (suc k) e =
        let n : need_of h f ≡ pos (suc k) =
          need_of-lem h f start len (length body) c rg hf.foff_is l ∙ ap pos e in
        (
          put_loop env h f (suc k) disk ks,
          rw (n, identity_put_in_progress) refl,
          put_loop-PutEnds env stream start len h f body (suc k) disk ks hf s (omega arith)
              (omega arith) (c, rg),
        )
