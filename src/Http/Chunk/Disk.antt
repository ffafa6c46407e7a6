-- ===== src/Http/Chunk/Disk.antt =====
-- http_put.c: errno after `mog_http_write_full`, which the chunk parser looks at.
use cmogstored.Prelude.{
  ℕ, ◌-◌, ◌<◌, min, Bytes, List, [], ◌∷◌, true, false, none, some, ◌==◌, ◌≡◌, refl, sym, arith,
  Bool-cases, inl, inr, length, length-drop, take, drop,
}
use cmogstored.Http.State.{File, Errno, no_error, eintr}
use cmogstored.Http.Put.{
  PWrite, stored, interrupted, refused, store, no_space, write_loop, write_full, hash_write,
}
use cmogstored.Http.Chunk.{errno_loop, is_errno}

-- pwrite(2) that fails sets errno
abbrev pub Honest : List PWrite → Type 0
Honest [] = Unit
Honest (refused e ∷ ks) = (is_errno e ≡ true) × Honest ks
Honest (k ∷ ks) = Honest ks

-- each pwrite(2) stores bytes: none fails, and no signal interrupts one
abbrev pub Quiet : List PWrite → Type 0
Quiet [] = Unit
Quiet (stored n ∷ ks) = (0 < n) × Quiet ks
Quiet (interrupted ∷ ks) = ⊥
Quiet (refused e ∷ ks) = ⊥

no_space-is_errno : (e : Errno) → is_errno (no_space e) ≡ true
no_space-is_errno e = ground arith

-- a write that fails has set errno
write_loop-is_errno :
    (f : File) (buf : Bytes) (e e' : Errno) (ks : List PWrite)
    → Honest ks
    → (write_loop f buf e ks).1 ≡ some e'
    → is_errno e' ≡ true
unfolding write_loop
write_loop-is_errno f buf e e' [] ok r = cc
write_loop-is_errno f buf e e' (stored n ∷ ks) ok r =
    let w = min n (length buf) in
    elim (Bool-cases (w == 0)) [
      | inl stuck ↦
          let s : no_space e ≡ e' = got (rw stuck at r) in rw (sym s) (no_space-is_errno e)
      | inr moved ↦ elim (Bool-cases (w == length buf)) [
        | inl all ↦ absurd (nothing (rw (moved, all) at r))
        | inr part ↦
            write_loop-is_errno (store f (take w buf)) (drop w buf) e e' ks ok
              (rw (moved, part) at r)
      ]
    ]
  where
    got : {a b : Errno} → some a ≡ some b → a ≡ b
    got x = cc

    nothing : {a : Errno} → none ≡ some a → ⊥
    nothing x = cc
write_loop-is_errno f buf e e' (interrupted ∷ ks) ok r = write_loop-is_errno f buf eintr e' ks ok r
write_loop-is_errno f buf e e' (refused a ∷ ks) ok r = let s : a ≡ e' = cc in rw (sym s) ok.0

-- a property of the disk's answers that those after the first have too, and so have those left
write_loop-left :
    (P : List PWrite → Type 0) (later : (k : PWrite) (ks : List PWrite) → P (k ∷ ks) → P ks)
    (f : File) (buf : Bytes) (e : Errno) (ks : List PWrite)
    → P ks
    → P (write_loop f buf e ks).2
unfolding write_loop
write_loop-left P later f buf e [] ok = ok
write_loop-left P later f buf e (stored n ∷ ks) ok =
    let w = min n (length buf) in
    elim (Bool-cases (w == 0)) [
      | inl stuck ↦ rw stuck (later _ ks ok)
      | inr moved ↦ elim (Bool-cases (w == length buf)) [
        | inl all ↦ rw (moved, all) (later _ ks ok)
        | inr part ↦
            rw (moved, part)
              (write_loop-left P later (store f (take w buf)) (drop w buf) e ks (later _ ks ok))
      ]
    ]
write_loop-left P later f buf e (interrupted ∷ ks) ok =
    write_loop-left P later f buf eintr ks (later _ ks ok)
write_loop-left P later f buf e (refused a ∷ ks) ok = later _ ks ok

Honest-later : (k : PWrite) (ks : List PWrite) → Honest (k ∷ ks) → Honest ks
Honest-later (stored n) ks ok = ok
Honest-later interrupted ks ok = ok
Honest-later (refused e) ks ok = ok.1

Quiet-later : (k : PWrite) (ks : List PWrite) → Quiet (k ∷ ks) → Quiet ks
Quiet-later (stored n) ks ok = ok.1
Quiet-later interrupted ks ok = absurd ok
Quiet-later (refused e) ks ok = absurd ok

-- without signals and refusals errno stays 0
errno_loop-no_error :
    (f : File) (buf : Bytes) (len : ℕ) (ks : List PWrite)
    → len ≡ length buf
    → Quiet ks
    → (write_loop f buf no_error ks).1 ≡ none
    → errno_loop len no_error ks ≡ no_error
unfolding errno_loop write_loop
errno_loop-no_error f buf len [] e q r = refl
errno_loop-no_error f buf len (stored n ∷ ks) e q r =
    let w = min n (length buf) in
    elim (Bool-cases (w == 0)) [
      | inl stuck ↦ absurd (full (rw stuck at r))
      | inr moved ↦ elim (Bool-cases (w == length buf)) [
        | inl all ↦ rw (e, moved, all) refl
        | inr part ↦
            rw (e, moved, part)
              (errno_loop-no_error (store f (take w buf)) (drop w buf) (length buf - w) ks
                (sym (length-drop w buf)) q.1 (rw (moved, part) at r))
      ]
    ]
  where
    full : {e : Errno} → some e ≡ none → ⊥
    full x = cc
errno_loop-no_error f buf len (interrupted ∷ ks) e q r = absurd q
errno_loop-no_error f buf len (refused a ∷ ks) e q r = absurd q

write_loop-takes :
    (f : File) (buf : Bytes) (e : Errno) (ks : List PWrite)
    → 0 < length buf
    → Quiet ks
    → (write_loop f buf e ks).1 ≡ none
unfolding write_loop
write_loop-takes f buf e [] more q = refl
write_loop-takes f buf e (stored n ∷ ks) more q =
    let w = min n (length buf) in
    let moved : (w == 0) ≡ false = ground arith in
    elim (Bool-cases (w == length buf)) [
      | inl all ↦ rw (moved, all) refl
      | inr part ↦
          let left : 0 < length (drop w buf) = ground (arith, length-drop w buf) in
          rw (moved, part) (write_loop-takes (store f (take w buf)) (drop w buf) e ks left q.1)
    ]
write_loop-takes f buf e (interrupted ∷ ks) more q = absurd q
write_loop-takes f buf e (refused a ∷ ks) more q = absurd q

-- one call of `mog_http_write_full` that is given bytes
pub write_full-disk :
    (f : File) (buf : Bytes) (ks : List PWrite)
    → (length buf == 0) ≡ false
    → Honest ks
    → ((e : Errno) → (write_full f buf ks).1 ≡ some e → is_errno e ≡ true)
      × Honest (write_full f buf ks).2
      × (Quiet ks → Quiet (write_full f buf ks).2)
      × (Quiet ks → (write_full f buf ks).1 ≡ none → errno_loop (length buf) no_error ks ≡ no_error)
      × (Quiet ks → (write_full f buf ks).1 ≡ none)
unfolding write_full
write_full-disk f buf ks full ok = rw full (
  λ e r. write_loop-is_errno (hash_write f buf) buf no_error e ks ok r,
  write_loop-left Honest Honest-later (hash_write f buf) buf no_error ks ok,
  write_loop-left Quiet Quiet-later (hash_write f buf) buf no_error ks,
  errno_loop-no_error (hash_write f buf) buf (length buf) ks refl,
  write_loop-takes (hash_write f buf) buf no_error ks (ground arith),
)
