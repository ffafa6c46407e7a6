-- ===== src/Http/Chunk/Decoder.antt =====
-- What a chunked body means: a decoder that takes one byte after the other, and does not know how
-- the bytes arrive.
use cmogstored.Prelude.{
  ◌≡◌, refl, ap, ℕ, zero, suc, Bytes, [], ◌∷◌, ◌++◌, false, none, some, ◌==◌, if◌then◌else◌,
}
use cmogstored.Http.Lengths.{hexchar2off, chunk_size_incr}

-- Before a chunk's size, after a CR there, after a CRLF, in the size, in an extension and before
-- its LF, each with the size so far; inside a chunk with so many bytes to come, where 0 is the
-- end of the body; and after an error.
pub data Decoding : Type 0 where
  d1 d2 d3 : Decoding
  d4 d5 d6 data_ : ℕ → Decoding
  failed : Decoding

abbrev pub dec_digit : ℕ → ℕ → Decoding → Decoding
dec_digit n c other = elim (hexchar2off c) [
  | none ↦ other
  | some v ↦ elim (chunk_size_incr n v) [ none ↦ failed | some m ↦ d4 m ]
]

unfoldable pub size_next : Decoding → ℕ → Decoding
size_next d1 c = if c == 13 then d2 else dec_digit 0 c failed
size_next d2 c = if c == 10 then d3 else failed
size_next d3 c = dec_digit 0 c failed
size_next (d4 n) c = if c == 10 then failed else if c == 13 then d6 n else dec_digit n c (d5 n)
size_next (d5 n) c = if c == 10 then failed else if c == 13 then d6 n else d5 n
size_next (d6 n) c = if c == 10 then data_ n else failed
size_next d c = failed

-- the state behind a chunk's data, or inside it
abbrev pub after_data : ℕ → Decoding
after_data zero = d1
after_data (suc n) = data_ (suc n)

-- the state, the body's bytes, and what comes behind the end of the body or an error
unfoldable pub dec_run : Decoding → Bytes → Decoding × Bytes × Bytes
unfolding size_next
dec_run d [] = (d, [], [])
dec_run failed (c ∷ cs) = (failed, [], c ∷ cs)
dec_run (data_ zero) (c ∷ cs) = (data_ zero, [], c ∷ cs)
dec_run (data_ (suc n)) (c ∷ cs) = let r = dec_run (after_data n) cs in (r.0, c ∷ r.1, r.2)
dec_run d (c ∷ cs) = dec_run (size_next d c) cs

-- What arrives later does not change what has been decoded: a run over two parts is a run over the
-- first and one over the second from there.
pub dec_run-append :
    (d : Decoding) (xs ys : Bytes)
    → (dec_run d xs).2 ≡ []
    → dec_run d (xs ++ ys)
      ≡ (let r = dec_run d xs in let t = dec_run r.0 ys in (t.0, r.1 ++ t.1, t.2))
unfolding dec_run
dec_run-append d [] ys e = refl
dec_run-append failed (x ∷ xs) ys e = cc
dec_run-append (data_ zero) (x ∷ xs) ys e = cc
dec_run-append (data_ (suc n)) (x ∷ xs) ys e =
    ap (λ (r : Decoding × Bytes × Bytes). (r.0, x ∷ r.1, r.2))
      (dec_run-append (after_data n) xs ys e)
dec_run-append d1 (x ∷ xs) ys e = dec_run-append (size_next d1 x) xs ys e
dec_run-append d2 (x ∷ xs) ys e = dec_run-append (size_next d2 x) xs ys e
dec_run-append d3 (x ∷ xs) ys e = dec_run-append (size_next d3 x) xs ys e
dec_run-append (d4 n) (x ∷ xs) ys e = dec_run-append (size_next (d4 n) x) xs ys e
dec_run-append (d5 n) (x ∷ xs) ys e = dec_run-append (size_next (d5 n) x) xs ys e
dec_run-append (d6 n) (x ∷ xs) ys e = dec_run-append (size_next (d6 n) x) xs ys e

-- Once the end of the body has been decoded, all that follows is left over.
pub dec_run-ended :
    (d : Decoding) (xs ys : Bytes)
    → (dec_run d xs).0 ≡ data_ 0
    → dec_run d (xs ++ ys) ≡ (let r = dec_run d xs in (data_ 0, r.1, r.2 ++ ys))
unfolding dec_run
dec_run-ended d [] [] e = rw e refl
dec_run-ended d [] (y ∷ ys) e = rw e refl
dec_run-ended failed (x ∷ xs) ys e = absurd (no e)
  where
    no : failed ≡ data_ 0 → ⊥
    no e = cc
dec_run-ended (data_ zero) (x ∷ xs) ys e = refl
dec_run-ended (data_ (suc n)) (x ∷ xs) ys e =
    ap (λ (r : Decoding × Bytes × Bytes). (r.0, x ∷ r.1, r.2))
      (dec_run-ended (after_data n) xs ys e)
dec_run-ended d1 (x ∷ xs) ys e = dec_run-ended (size_next d1 x) xs ys e
dec_run-ended d2 (x ∷ xs) ys e = dec_run-ended (size_next d2 x) xs ys e
dec_run-ended d3 (x ∷ xs) ys e = dec_run-ended (size_next d3 x) xs ys e
dec_run-ended (d4 n) (x ∷ xs) ys e = dec_run-ended (size_next (d4 n) x) xs ys e
dec_run-ended (d5 n) (x ∷ xs) ys e = dec_run-ended (size_next (d5 n) x) xs ys e
dec_run-ended (d6 n) (x ∷ xs) ys e = dec_run-ended (size_next (d6 n) x) xs ys e

pub dec_run-failed : (xs : Bytes) → (dec_run failed xs).0 ≡ failed
unfolding dec_run
dec_run-failed [] = refl
dec_run-failed (x ∷ xs) = refl

pub dec_run-nil : (d : Decoding) → dec_run d [] ≡ (d, [], [])
unfolding dec_run
dec_run-nil d = refl

pub dec_run-end : (xs : Bytes) → dec_run (data_ 0) xs ≡ (data_ 0, [], xs)
unfolding dec_run
dec_run-end [] = refl
dec_run-end (x ∷ xs) = refl

pub after_data-more : (k : ℕ) → (k == 0) ≡ false → after_data k ≡ data_ k
after_data-more zero e = cc
after_data-more (suc k) e = refl
