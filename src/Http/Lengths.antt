-- ===== src/Http/Lengths.antt =====
-- http_parser.c and chunk_parser.c: how the parsers read numbers, and http_put.c: `lengths_ok`.
-- An off_t is a 64-bit two's complement integer; an overflow wraps around, as it does on the
-- platforms that the program is built for.
pub mod Overflow
use cmogstored.Prelude.{
  ℕ, ◌+◌, ◌-◌, ◌*◌, ◌%◌, ◌^◌, Bytes, List, [], ◌∷◌, Bool, true, false, not, ◌&&◌, Option, none,
  some, ltb, leb, ◌==◌, if◌then◌else◌,
}
use cmogstored.Prelude.Int.{ℤ, pos, negsuc, pos_part, neg_part, sub_ℕ, ◌+ℤ◌, ◌-ℤ◌, ltb_ℤ}
use cmogstored.Http.Range.{is_neg}
use cmogstored.Http.State.{Http}

-- the off_t with the low 64 bits of a number
abbrev pub wrap64 : ℕ → ℤ
wrap64 n = let m = n % 2 ^ 64 in if ltb m (2 ^ 63) then pos m else negsuc (2 ^ 64 - m - 1)

-- `length_incr` for a length that is not negative and a digit's value: the new length, or none
-- for ERANGE, where the length becomes -1
unfoldable pub length_incr : ℕ → ℕ → Option ℕ
length_incr prev digit =
    let len = wrap64 (prev * 10 + digit) in
    if not (ltb_ℤ len (pos prev)) then some (pos_part len) else none

-- the digits of one number, each by `length_incr`
unfoldable pub read_length : ℕ → Bytes → Option ℕ
unfolding length_incr
read_length len [] = some len
read_length len (c ∷ cs) = elim (length_incr len (c - b'0')) [
  | none ↦ none
  | some next ↦ read_length next cs
]

abbrev pub within : ℕ → ℕ → ℕ → Bool
within lo hi c = leb lo c && leb c hi

-- `hexchar2off`; the scanner passes hexadecimal digits only
unfoldable pub hexchar2off : ℕ → Option ℕ
hexchar2off c =
    if within b'0' b'9' c
    then some (c - b'0')
    else if within b'a' b'f' c
    then some (c - b'a' + 10)
    else if within b'A' b'F' c
    then some (c - b'A' + 10)
    else none

-- the action on one digit of a chunk size
unfoldable pub chunk_size_incr : ℕ → ℕ → Option ℕ
chunk_size_incr prev digit =
    let len = wrap64 (prev * 16 + digit) in
    if ltb_ℤ len (pos prev) then none else some (pos_part len)

-- `lengths_ok`
unfoldable pub lengths_ok : Http → Bool
lengths_ok h =
    if is_neg h.content_len
    then false
    else if h.has_content_range
    then (if h.chunked
        then false
        else if is_neg h.range_end
        then false
        else if is_neg h.range_beg
        then false
        else if ltb_ℤ h.range_end h.range_beg
        then false
        else (let expect = wrap64 (pos_part h.range_end - pos_part h.range_beg + 1) in
            not (ltb_ℤ h.content_len expect) && not (ltb_ℤ expect h.content_len)))
    else true
