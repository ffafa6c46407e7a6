-- ===== src/Mgmt/Requests/Scanning.antt =====
-- The scanner on a request.
use cmogstored.Prelude.{
  ℕ, suc, ◌+◌, ◌-◌, Bytes, [], ◌∷◌, ◌++◌, Bool, true, false, ◌≡◌, refl, sym, ap, ◌∙◌, if◌then◌else◌,
  codes, arith, length, take, drop, slice, drop-append_ge,
}
use cmogstored.Mgmt.State.{
  Mgmt, MgmtCs, st1, st8, st10, st11, st35, st36, st48, st50, st58, st63, st69,
}
use cmogstored.Mgmt.Scan.Table.{
  mark_0, transition, go, Request, blank, digest, aio_threads, shutdown, size, watch,
}
use cmogstored.Mgmt.Scan.{finished, scan, move_to, acts, act, set_prio_fsck}
use cmogstored.Mgmt.Requests.{
  path_byte, word_byte, digit_byte, All, is_space, Reason, no_reason, for_fsck, for_other, LineEnd,
  lf, crlf,
}

-- a state that stays at some bytes
pub scan-loop :
    (p : ℕ → Bool) (cs : MgmtCs)
    → ((c : ℕ) → p c ≡ true → transition cs c ≡ go [] cs)
    → (q rest : Bytes) (pos : ℕ) (m : Mgmt) → All p q
    → scan cs pos (q ++ rest) m ≡ scan cs (pos + length q) rest m
unfolding scan move_to acts
scan-loop p cs stays [] rest pos m h =
    let e : pos + 0 ≡ pos = omega arith in ap (λ k. scan cs k rest m) (sym e)
scan-loop p cs stays (c ∷ q) rest pos m (h, t) =
    let e : (pos + 1) + length q ≡ pos + suc (length q) = omega arith in
    ap (λ mv. move_to pos m mv (λ cs' m'. scan cs' (pos + 1) (q ++ rest) m')) (stays c h)
    ∙ scan-loop p cs stays q rest (pos + 1) m t
    ∙ ap (λ k. scan cs k rest m) e

path-stays_63 : (c : ℕ) → path_byte c ≡ true → transition st63 c ≡ go [] st63
unfolding transition
path-stays_63 c h = ground arith

pub path-stays_8 : (c : ℕ) → path_byte c ≡ true → transition st8 c ≡ go [] st8
unfolding transition
path-stays_8 c h = ground arith

word-stays_11 : (c : ℕ) → word_byte c ≡ true → transition st11 c ≡ go [] st11
unfolding transition
word-stays_11 c h = ground arith

digit-stays_36 : (c : ℕ) → digit_byte c ≡ true → transition st36 c ≡ go [] st36
unfolding transition
digit-stays_36 c h = ground arith

take-length : (a b : Bytes) → take (length a) (a ++ b) ≡ a
take-length [] b = refl
take-length (x ∷ a) b = ap (◌∷◌ x) (take-length a b)

pub slice-middle :
    (a b c : Bytes) (i j : ℕ) → i ≡ length a → j ≡ i + length b → slice i j (a ++ (b ++ c)) ≡ b
slice-middle a b c i j hi hj =
    let e : j - i ≡ length b = omega arith in
    let z : length a - length a ≡ 0 = omega arith in
    let behind : drop (length a) (a ++ (b ++ c)) ≡ b ++ c =
      drop-append_ge (length a) a (b ++ c) (omega arith) ∙ ap (λ k. drop k (b ++ c)) z in
    ap (λ k. take k (drop i (a ++ (b ++ c)))) e
    ∙ ap (λ k. take (length b) (drop k (a ++ (b ++ c)))) hi
    ∙ ap (take (length b)) behind
    ∙ take-length b c

-- `pos + 1 + 1`, as the scanner counts, for a line end of two bytes
two : (r : Request) (pos : ℕ) (m : Mgmt) → finished r (pos + 1 + 1) m ≡ finished r (pos + 2) m
two r pos m = let e : pos + 1 + 1 ≡ pos + 2 = omega arith in ap (λ k. finished r k m) e

abbrev pub Ends : MgmtCs → Bool → Request → Type 0
Ends cs marks r =
    (eol rest : Bytes) (pos : ℕ) (m : Mgmt)
    → LineEnd eol
    → scan cs pos (eol ++ rest) m
      ≡ finished r (pos + length eol) (if marks then record m { mark1 = pos } else m)

pub st1-Ends : Ends st1 false blank
unfolding scan move_to acts act transition
st1-Ends _ rest pos m lf = refl
st1-Ends _ rest pos m crlf = two blank pos m

st8-Ends : Ends st8 true digest
unfolding scan move_to acts act transition
st8-Ends _ rest pos m lf = refl
st8-Ends _ rest pos m crlf = two digest pos (record m { mark1 = pos })

st11-Ends : Ends st11 false digest
unfolding scan move_to acts act transition
st11-Ends _ rest pos m lf = refl
st11-Ends _ rest pos m crlf = two digest pos m

st36-Ends : Ends st36 true aio_threads
unfolding scan move_to acts act transition
st36-Ends _ rest pos m lf = refl
st36-Ends _ rest pos m crlf = two aio_threads pos (record m { mark1 = pos })

pub st48-Ends : Ends st48 false shutdown
unfolding scan move_to acts act transition
st48-Ends _ rest pos m lf = refl
st48-Ends _ rest pos m crlf = two shutdown pos m

st58-Ends : Ends st58 false shutdown
unfolding scan move_to acts act transition
st58-Ends _ rest pos m lf = refl
st58-Ends _ rest pos m crlf = two shutdown pos m

st63-Ends : Ends st63 true size
unfolding scan move_to acts act transition
st63-Ends _ rest pos m lf = refl
st63-Ends _ rest pos m crlf = two size pos (record m { mark1 = pos })

pub st69-Ends : Ends st69 false watch
unfolding scan move_to acts act transition
st69-Ends _ rest pos m lf = refl
st69-Ends _ rest pos m crlf = two watch pos m

space-stays_50 : (c : ℕ) → is_space c ≡ true → transition st50 c ≡ go [] st50
unfolding transition
space-stays_50 c h = ground arith

-- "shutdown", at least one space, and "graceful"
pub graceful_scanned :
    (spaces eol rest : Bytes) (m : Mgmt)
    → All is_space spaces
    → LineEnd eol
    → scan st1 0 (codes "shutdown " ++ (spaces ++ (codes "graceful" ++ (eol ++ rest)))) m
      ≡ finished shutdown (9 + length spaces + 8 + length eol) m
unfolding scan move_to acts act transition
graceful_scanned spaces eol rest m h e =
    let behind = 9 + length spaces + 1 + 1 + 1 + 1 + 1 + 1 + 1 + 1 in
    let same : behind ≡ 9 + length spaces + 8 = omega arith in
    scan-loop is_space st50 space-stays_50 spaces (codes "graceful" ++ (eol ++ rest)) 9 m h
    ∙ st58-Ends eol rest behind m e
    ∙ ap (λ k. finished shutdown (k + length eol) m) same

-- "size /" and a path
pub size_scanned :
    (q eol rest : Bytes) (m : Mgmt)
    → All path_byte q
    → LineEnd eol
    → scan st1 0 (codes "size /" ++ (q ++ (eol ++ rest))) m
      ≡ finished size (6 + length q + length eol) (record m { mark0 = 5; mark1 = 6 + length q })
unfolding scan move_to acts act transition
size_scanned q eol rest m h e =
    scan-loop path_byte st63 path-stays_63 q (eol ++ rest) 6 (record m { mark0 = 5 }) h
    ∙ st63-Ends eol rest (6 + length q) (record m { mark0 = 5 }) e

pub threads_scanned :
    (c : ℕ) (ds eol rest : Bytes) (m : Mgmt)
    → digit_byte c ≡ true
    → All digit_byte ds
    → LineEnd eol
    → scan st1 0 (codes "server aio_threads = " ++ (c ∷ ds ++ (eol ++ rest))) m
      ≡ finished aio_threads
          (22 + length ds + length eol)
          (record m { mark0 = 21; mark1 = 22 + length ds })
unfolding scan move_to acts act transition
threads_scanned c ds eol rest m first h e =
    let start : transition st35 c ≡ go (mark_0 ∷ []) st36 = ground arith in
    ap (λ mv. move_to 21 m mv (λ cs' m'. scan cs' 22 (ds ++ (eol ++ rest)) m')) start
    ∙ scan-loop digit_byte st36 digit-stays_36 ds (eol ++ rest) 22 (record m { mark0 = 21 }) h
    ∙ st36-Ends eol rest (22 + length ds) (record m { mark0 = 21 }) e

-- the reason behind a path, and the line end
pub scan-Reason :
    (reason eol rest : Bytes) (fsck : Bool) (pos : ℕ) (m : Mgmt)
    → Reason reason fsck
    → LineEnd eol
    → scan st8 pos (reason ++ (eol ++ rest)) m
      ≡ finished digest
          (pos + length reason + length eol)
          (record (if fsck then set_prio_fsck m else m) { mark1 = pos })
unfolding scan move_to acts act transition set_prio_fsck
scan-Reason _ eol rest _ pos m no_reason e =
    let z : pos + 0 ≡ pos = omega arith in
    st8-Ends eol rest pos m e
    ∙ ap (λ k. finished digest (k + length eol) (record m { mark1 = pos })) (sym z)
scan-Reason _ eol rest _ pos m (for_fsck w h) e =
    let m' = record (set_prio_fsck m) { mark1 = pos } in
    let n : (pos + 1 + 1 + 1 + 1 + 1) + length w ≡ pos + suc (suc (suc (suc (suc (length w))))) =
      omega arith in
    scan-loop word_byte st11 word-stays_11 w (eol ++ rest) (pos + 1 + 1 + 1 + 1 + 1) m' h
    ∙ st11-Ends eol rest (pos + 1 + 1 + 1 + 1 + 1 + length w) m' e
    ∙ ap (λ k. finished digest (k + length eol) m') n
scan-Reason _ eol rest _ pos m (for_other c w first other h) e =
    let m' = record m { mark1 = pos } in
    let start : transition st10 c ≡ go [] st11 = ground arith in
    let n : (pos + 1 + 1) + length w ≡ pos + suc (suc (length w)) = omega arith in
    ap (λ mv. move_to (pos + 1) m' mv (λ cs' m2. scan cs' (pos + 1 + 1) (w ++ (eol ++ rest)) m2))
      start
    ∙ scan-loop word_byte st11 word-stays_11 w (eol ++ rest) (pos + 1 + 1) m' h
    ∙ st11-Ends eol rest (pos + 1 + 1 + length w) m' e
    ∙ ap (λ k. finished digest (k + length eol) m') n
