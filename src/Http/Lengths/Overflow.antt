-- ===== src/Http/Lengths/Overflow.antt =====
-- What the overflow tests of the number parsers catch, and what they miss.
use cmogstored.Prelude.{
  ℕ, ◌+◌, ◌-◌, ◌*◌, ◌^◌, ◌≤◌, ◌<◌, Bytes, [], ◌∷◌, true, false, some, ◌≡◌, ◌↔◌, ◌⊎◌, refl, arith,
  Bool-cases, inl, inr,
}
use cmogstored.Prelude.Int.{pos}
use cmogstored.Http.State.{Http}
use cmogstored.Http.Lengths.{length_incr, read_length, chunk_size_incr, lengths_ok}

-- the number that a text of decimal digits stands for
abbrev pub value_from : ℕ → Bytes → ℕ
value_from acc [] = acc
value_from acc (c ∷ cs) = value_from (acc * 10 + (c - b'0')) cs

value_from-ge : (acc : ℕ) (cs : Bytes) → acc ≤ value_from acc cs
value_from-ge acc [] = omega arith
value_from-ge acc (c ∷ cs) = omega (arith, value_from-ge (acc * 10 + (c - b'0')) cs)

length_incr-exact :
    (prev digit : ℕ)
    → prev * 10 + digit < 2 ^ 63
    → length_incr prev digit ≡ some (prev * 10 + digit)
unfolding length_incr
length_incr-exact prev digit h = ground arith

-- A number below 2^63 is read as what it is.
read_length-exact :
    (len : ℕ) (cs : Bytes)
    → value_from len cs < 2 ^ 63
    → read_length len cs ≡ some (value_from len cs)
unfolding read_length
read_length-exact len [] h = refl
read_length-exact len (c ∷ cs) h =
    let next = len * 10 + (c - b'0') in
    let small : next < 2 ^ 63 = omega (arith, value_from-ge next cs) in
    rw (length_incr-exact len (c - b'0') small, read_length) (read_length-exact next cs h)

-- The overflow test compares the wrapped length with the one before the digit. It misses every
-- overflow where the length without the wrap is below 2^64 + 2^63 and exceeds the length before by
-- 2^64 or more; the length read is 2^64 too small.
pub length_incr-missed :
    (prev digit : ℕ)
    → prev + 2 ^ 64 ≤ prev * 10 + digit
    → prev * 10 + digit < 2 ^ 64 + 2 ^ 63
    → length_incr prev digit ≡ some (prev * 10 + digit - 2 ^ 64)
unfolding length_incr
length_incr-missed prev digit lo hi = ground arith

-- The same test on a chunk size misses every overflow where the size without the wrap is below
-- 2^64 + 2^63 and exceeds the size before the digit by 2^64 or more; the size read is 2^64 too
-- small.
chunk_size_incr-missed :
    (prev digit : ℕ)
    → prev + 2 ^ 64 ≤ prev * 16 + digit
    → prev * 16 + digit < 2 ^ 64 + 2 ^ 63
    → chunk_size_incr prev digit ≡ some (prev * 16 + digit - 2 ^ 64)
unfolding chunk_size_incr
chunk_size_incr-missed prev digit lo hi = ground arith

-- With a length and range that are known, a PUT is let through exactly when it has no
-- Content-Range, or its body is not chunked, the range is in order and its length is the body's.
lengths_ok_iff :
    (h : Http) (len first last : ℕ)
    → h.content_len ≡ pos len
    → len < 2 ^ 63
    → h.range_beg ≡ pos first
    → h.range_end ≡ pos last
    → last < 2 ^ 63
    → (lengths_ok h ≡ true) ↔ (
        (h.has_content_range ≡ false)
        ⊎ ((h.chunked ≡ false) × (first ≤ last) × (first + len ≡ last + 1)))
unfolding lengths_ok
lengths_ok_iff h len first last c l b e l' = elim (Bool-cases h.has_content_range) [
  | inl ranged ↦ elim (Bool-cases h.chunked) [
    | inl chunks ↦
        rw (c, b, e, ranged, chunks) ((λ z. cc), λ z. elim z [ inl x ↦ cc | inr (x, _, _) ↦ cc ])
    | inr identity ↦
        rw (c, b, e, ranged, identity)
          (
            (λ z. inr (refl, ground arith, ground arith)),
            λ z. elim z [ inl x ↦ cc | inr (_, o, s) ↦ ground arith ],
          )
  ]
  | inr plain ↦ rw (c, plain) ((λ z. inl refl), λ z. refl)
]
