-- ===== src/Http/Chunk/Coding.antt =====
-- The chunked coding of RFC 7230, 4.1, as a relation of a message's bytes and its body.
use mathlib.Core.Path.{subst}
use cmogstored.Prelude.{
  ℕ, ◌%◌, ◌+◌, ◌*◌, ◌^◌, ◌≤◌, ◌-◌, ◌<◌, Bool-cases, leb, ◌&&◌, ltb, Bytes, [], ◌∷◌, ◌++◌, true,
  false, none, some, Option-cases, ◌==◌, ◌≡◌, refl, ap, ◌∙◌, ◌⊎◌, inl, inr, arith, length,
  append_assoc,
}
use cmogstored.Http.Lengths.{hexchar2off, chunk_size_incr}
use cmogstored.Http.Chunk.Decoder.{
  Decoding, dec_digit, failed, d1, d3, d4, d5, d6, data_, size_next, after_data, dec_run,
  dec_run-append, dec_run-end,
}
use cmogstored.Http.Chunk.Matches.{in_size, dec_run-in_size, dec_run-within}
use cmogstored.Http.Chunk.Sound.{Result}

-- a hexadecimal digit and its value: "0" to "9", "a" to "f" and "A" to "F"
pub data HexDigit : ℕ → ℕ → Type 0 where
  decimal : (v : ℕ) → v < 10 → HexDigit (48 + v) v
  lower : (v : ℕ) → v < 6 → HexDigit (97 + v) (10 + v)
  upper : (v : ℕ) → v < 6 → HexDigit (65 + v) (10 + v)

-- the size that hexadecimal digits have, behind those of the first number
pub data HexSize : ℕ → Bytes → ℕ → Type 0 where
  no_more : (n : ℕ) → HexSize n [] n
  more :
      (n c v m : ℕ) (cs : Bytes) → HexDigit c v → HexSize (n * 16 + v) cs m → HexSize n (c ∷ cs) m

-- no CR or LF
abbrev pub Plain : Bytes → Type 0
Plain [] = Unit
Plain (c ∷ cs) = ((c == 13) ≡ false) × ((c == 10) ≡ false) × Plain cs

-- a chunk extension, or nothing
abbrev pub Extension : Bytes → Type 0
Extension [] = Unit
Extension (c ∷ cs) = ((v : ℕ) → ¬ HexDigit c v) × Plain (c ∷ cs)

abbrev crlf : Bytes
crlf = 13 ∷ 10 ∷ []

-- A body in chunks up to the line of the last one: a size in hexadecimal, an extension and the
-- data for each, of less than 2^63 bytes.
pub data Coded : Bytes → Bytes → Type 0 where
  last_chunk :
      (c : ℕ) (ds ext : Bytes)
      → HexSize 0 (c ∷ ds) 0
      → Extension ext
      → Coded (c ∷ (ds ++ (ext ++ crlf))) []
  chunk :
      (c : ℕ) (ds ext bytes rest body : Bytes)
      → HexSize 0 (c ∷ ds) (length bytes)
      → 0 < length bytes
      → length bytes < 2 ^ 63
      → Extension ext
      → Coded rest body
      → Coded (c ∷ (ds ++ (ext ++ 13 ∷ 10 ∷ (bytes ++ 13 ∷ 10 ∷ rest)))) (bytes ++ body)

hex-not_crlf : (c v : ℕ) → hexchar2off c ≡ some v → ((c == 13) ≡ false) × ((c == 10) ≡ false)
unfolding hexchar2off
hex-not_crlf c v e = ground arith

hexchar2off-HexDigit : (c v : ℕ) → HexDigit c v → hexchar2off c ≡ some v
unfolding hexchar2off
hexchar2off-HexDigit _ _ (decimal v l) = ground arith
hexchar2off-HexDigit _ _ (lower v l) = ground arith
hexchar2off-HexDigit _ _ (upper v l) = ground arith

-- the scanner takes no other byte for a digit
digit_of : (c v : ℕ) → hexchar2off c ≡ some v → (w : ℕ) × HexDigit c w
unfolding hexchar2off
digit_of c v e = elim (Bool-cases (leb 48 c && leb c 57)) [
  | inl on ↦
      (c - 48, subst (λ k. HexDigit k (c - 48)) (ground arith) (decimal (c - 48) (ground arith)))
  | inr off ↦ elim (Bool-cases (leb 97 c && leb c 102)) [
    | inl on ↦ (
      10 + (c - 97),
      subst (λ k. HexDigit k (10 + (c - 97))) (ground arith) (lower (c - 97) (ground arith)),
    )
    | inr off' ↦ (
      10 + (c - 65),
      subst (λ k. HexDigit k (10 + (c - 65))) (ground arith) (upper (c - 65) (ground arith)),
    )
  ]
]

no_digit : (c : ℕ) → ((v : ℕ) → ¬ HexDigit c v) → hexchar2off c ≡ none
no_digit c odd = elim (Option-cases (hexchar2off c)) [
  | inl none_ ↦ none_
  | inr (v, hex) ↦ let (w, digit) = digit_of c v hex in absurd (odd w digit)
]

size-grows : (n m : ℕ) (cs : Bytes) → HexSize n cs m → n ≤ m
size-grows n _ _ (no_more _) = omega arith
size-grows n m _ (more _ c v _ cs digit size) = omega (arith, size-grows (n * 16 + v) m cs size)

-- no overflow on the way to a size below 2^63
chunk_size_incr-fits : (n v : ℕ) → n * 16 + v < 2 ^ 63 → chunk_size_incr n v ≡ some (n * 16 + v)
unfolding chunk_size_incr
chunk_size_incr-fits n v l =
    let small : ltb (n * 16 + v) (2 ^ 63) ≡ true = ground arith in
    let whole : (n * 16 + v) % 2 ^ 64 ≡ n * 16 + v = omega arith in
    let grows : ltb (n * 16 + v + 0) (n + 0) ≡ false = ground arith in rw (whole, small, grows) refl

byte_run :
    (d d' : Decoding) (c : ℕ) (xs : Bytes)
    → in_size d ≡ true
    → size_next d c ≡ d'
    → dec_run d (c ∷ xs) ≡ dec_run d' xs
byte_run d d' c xs i e = dec_run-in_size d c xs i ∙ ap (λ k. dec_run k xs) e

dec_digit-next :
    (n c v k : ℕ) (other : Decoding)
    → hexchar2off c ≡ some v
    → chunk_size_incr n v ≡ some k
    → dec_digit n c other ≡ d4 k
dec_digit-next n c v k other hex fits = rw (dec_digit, hex, fits) refl

-- the further digits of a size
digits_run :
    (n m : ℕ) (ds xs : Bytes)
    → HexSize n ds m
    → m < 2 ^ 63
    → dec_run (d4 n) (ds ++ xs) ≡ dec_run (d4 m) xs
unfolding size_next
digits_run n _ _ xs (no_more _) l = refl
digits_run n m _ xs (more _ c v _ ds digit size) l =
    let hex = hexchar2off-HexDigit c v digit in
    let fits = chunk_size_incr-fits n v (omega (arith, size-grows (n * 16 + v) m ds size)) in
    let (cr, lf) = hex-not_crlf c v hex in
    byte_run (d4 n) (d4 (n * 16 + v)) c (ds ++ xs) refl
      (rw (cr, lf) (dec_digit-next n c v (n * 16 + v) (d5 n) hex fits))
    ∙ digits_run (n * 16 + v) m ds xs size l

-- a size, at the start of the body or behind a chunk
size_run :
    (d : Decoding) (c m : ℕ) (ds xs : Bytes)
    → (d ≡ d1) ⊎ (d ≡ d3)
    → HexSize 0 (c ∷ ds) m
    → m < 2 ^ 63
    → dec_run d (c ∷ (ds ++ xs)) ≡ dec_run (d4 m) xs
unfolding size_next
size_run d _ m _ xs at (more _ c v _ ds digit size) l =
    let hex = hexchar2off-HexDigit c v digit in
    let fits = chunk_size_incr-fits 0 v (omega (arith, size-grows (0 * 16 + v) m ds size)) in
    let (cr, lf) = hex-not_crlf c v hex in
    let later = digits_run (0 * 16 + v) m ds xs size l in
    elim at [
      | inl s ↦ rw s (
          byte_run d1 (d4 (0 * 16 + v)) c (ds ++ xs) refl
            (rw cr (dec_digit-next 0 c v (0 * 16 + v) failed hex fits))
          ∙ later)
      | inr s ↦ rw s (
          byte_run d3 (d4 (0 * 16 + v)) c (ds ++ xs) refl
            ((dec_digit-next 0 c v (0 * 16 + v) failed hex fits))
          ∙ later)
    ]

ext_run :
    (n : ℕ) (cs xs : Bytes) → Plain cs → dec_run (d5 n) (cs ++ 13 ∷ 10 ∷ xs) ≡ dec_run (data_ n) xs
unfolding size_next
ext_run n [] xs p =
    byte_run (d5 n) (d6 n) 13 (10 ∷ xs) refl refl ∙ byte_run (d6 n) (data_ n) 10 xs refl refl
ext_run n (c ∷ cs) xs (cr, lf, p) =
    byte_run (d5 n) (d5 n) c (cs ++ 13 ∷ 10 ∷ xs) refl (rw (lf, cr) refl) ∙ ext_run n cs xs p

-- the rest of a chunk's first line
line_run :
    (n : ℕ) (ext xs : Bytes)
    → Extension ext
    → dec_run (d4 n) (ext ++ 13 ∷ 10 ∷ xs) ≡ dec_run (data_ n) xs
unfolding size_next
line_run n [] xs p =
    byte_run (d4 n) (d6 n) 13 (10 ∷ xs) refl refl ∙ byte_run (d6 n) (data_ n) 10 xs refl refl
line_run n (c ∷ cs) xs (odd, (cr, lf, p)) =
    let none_ = no_digit c odd in
    byte_run (d4 n) (d5 n) c (cs ++ 13 ∷ 10 ∷ xs) refl (ground arith) ∙ ext_run n cs xs p

crlf_run : (xs : Bytes) → dec_run d1 (13 ∷ 10 ∷ xs) ≡ dec_run d3 xs
unfolding dec_run
crlf_run xs = refl

-- a chunk's data and the CRLF behind it
bytes_run :
    (bytes xs : Bytes)
    → 0 < length bytes
    → dec_run (data_ (length bytes)) (bytes ++ 13 ∷ 10 ∷ xs)
      ≡ (let t = dec_run d3 xs in (t.0, bytes ++ t.1, t.2))
bytes_run bytes xs nonempty =
    let run = dec_run-within (length bytes) bytes nonempty (omega arith) in
    let all : length bytes - length bytes ≡ 0 = omega arith in
    dec_run-append (data_ (length bytes)) bytes (13 ∷ 10 ∷ xs) (ap (λ (r : Result). r.2) run)
    ∙ ap (λ (r : Result). let t = dec_run r.0 (13 ∷ 10 ∷ xs) in (t.0, r.1 ++ t.1, t.2))
        (run ∙ ap (λ k. (after_data k, bytes, [])) all)
    ∙ ap (λ (t : Result). (t.0, bytes ++ t.1, t.2)) (crlf_run xs)

message_run :
    (s body xs : Bytes) (d : Decoding)
    → Coded s body
    → (d ≡ d1) ⊎ (d ≡ d3)
    → dec_run d (s ++ xs) ≡ (data_ 0, body, xs)
message_run s body xs d (last_chunk c ds ext size e) at =
    ap (dec_run d) (
      ap (λ t. c ∷ t)
        (append_assoc ds (ext ++ crlf) xs ∙ ap (λ t. ds ++ t) (append_assoc ext crlf xs)))
    ∙ size_run d c 0 ds (ext ++ 13 ∷ 10 ∷ xs) at size (omega arith)
    ∙ line_run 0 ext xs e
    ∙ dec_run-end xs
message_run s body xs d (chunk c ds ext bytes rest body' size nonempty short e coded) at =
    ap (dec_run d) (
      ap (λ t. c ∷ t)
        (append_assoc ds _ xs
          ∙ ap (λ t. ds ++ t)
              (append_assoc ext _ xs ∙ ap (λ t. ext ++ 13 ∷ 10 ∷ t) (append_assoc bytes _ xs))))
    ∙ size_run d c (length bytes) ds _ at size short
    ∙ line_run (length bytes) ext _ e
    ∙ bytes_run bytes (rest ++ xs) nonempty
    ∙ ap (λ (t : Result). (t.0, bytes ++ t.1, t.2)) (message_run rest body' xs d3 coded (inr refl))

-- The abstract decoder reads what the chunked coding writes: the body of a coded message, however
-- it is cut into chunks, and it stops right behind the last chunk's line.
pub dec_run-Coded : (s body xs : Bytes) → Coded s body → dec_run d1 (s ++ xs) ≡ (data_ 0, body, xs)
dec_run-Coded s body xs coded = message_run s body xs d1 coded (inl refl)
