-- ===== src/Http/Range.antt =====
-- http_get.c: the part of `http_get_resp_hdr` that validates the Range header and chooses what
-- part of the file to send.
use cmogstored.Prelude.{
  ℕ, ◌+◌, ◌≤◌, ◌<◌, Bool, true, false, not, ◌&&◌, ◌≡◌, ◌↔◌, arith, if◌then◌else◌,
}
use cmogstored.Prelude.Int.{ℤ, pos, negsuc, pos_part, ◌+ℤ◌, ◌-ℤ◌, ltb_ℤ}
use cmogstored.Http.State.{Run, returns, aborted}

-- 200 with the whole file, 206 with an offset and a count, or 416
pub data RangeReply : Type 0 where
  whole : RangeReply
  partial : ℕ → ℕ → RangeReply
  unsatisfiable : RangeReply

abbrev pub is_neg : ℤ → Bool
is_neg (pos n) = false
is_neg (negsuc n) = true

-- the two assertions before a 206 response
pub checked : ℤ → ℤ → Run RangeReply
checked offset count =
    if ltb_ℤ (pos 0) count && not (is_neg offset)
    then returns (partial (pos_part offset) (pos_part count))
    else aborted

-- "truncate responses to current file size"
unfoldable pub clamp_end : ℤ → ℕ → ℤ
clamp_end range_end st_size =
    if ltb_ℤ range_end (pos st_size) then range_end else pos st_size -ℤ pos 1

unfoldable pub choose_range : ℤ → ℤ → ℕ → Run RangeReply
unfolding checked clamp_end
choose_range range_beg range_end st_size =
    if is_neg range_end && is_neg range_beg
    then returns unsatisfiable
    else if not (ltb_ℤ range_beg (pos st_size))
    then returns unsatisfiable
    else if not (is_neg range_beg) && not (is_neg range_end) && ltb_ℤ range_end range_beg
    then returns unsatisfiable
    else if is_neg range_end
    then checked range_beg (pos st_size -ℤ range_beg)
    else if is_neg range_beg
    then (let offset = pos st_size -ℤ range_end in
        if is_neg offset then returns whole else checked offset (pos st_size -ℤ offset))
    else checked range_beg (clamp_end range_end st_size +ℤ pos 1 -ℤ range_beg)

-- The positions of a file of `size` bytes that "bytes=M-N", "bytes=M-" and "bytes=-N" ask for; a
-- negative number is one that the header leaves out.
abbrev pub Wanted : ℤ → ℤ → ℕ → ℕ → Type 0
Wanted (pos m) (pos n) size i = (m ≤ i) × (i ≤ n) × (i < size)
Wanted (pos m) (negsuc _) size i = (m ≤ i) × (i < size)
Wanted (negsuc _) (pos n) size i = (size ≤ i + n) × (i < size)
Wanted (negsuc _) (negsuc _) size i = ⊥

-- the positions that a response carries
abbrev pub Serves : RangeReply → ℕ → ℕ → Type 0
Serves whole size i = i < size
Serves (partial offset count) size i = (offset ≤ i) × (i < offset + count)
Serves unsatisfiable size i = ⊥

-- A response carries exactly the bytes of the file that the Range header asks for: 416 only if
-- there are none, the whole file only if all are wanted, and 206 with these and no others.
pub choose_range-Serves :
    (range_beg range_end : ℤ) (size : ℕ) (r : RangeReply) (i : ℕ)
    → choose_range range_beg range_end size ≡ returns r
    → Serves r size i ↔ Wanted range_beg range_end size i
unfolding choose_range
choose_range-Serves (pos m) (pos n) size whole i h = ground arith
choose_range-Serves (pos m) (pos n) size (partial o c) i h = ground arith
choose_range-Serves (pos m) (pos n) size unsatisfiable i h = ground arith
choose_range-Serves (pos m) (negsuc n) size whole i h = ground arith
choose_range-Serves (pos m) (negsuc n) size (partial o c) i h = ground arith
choose_range-Serves (pos m) (negsuc n) size unsatisfiable i h = ground arith
choose_range-Serves (negsuc m) (pos n) size whole i h = ground arith
choose_range-Serves (negsuc m) (pos n) size (partial o c) i h = ground arith
choose_range-Serves (negsuc m) (pos n) size unsatisfiable i h = ground arith
choose_range-Serves (negsuc m) (negsuc n) size whole i h = ground arith
choose_range-Serves (negsuc m) (negsuc n) size (partial o c) i h = ground arith
choose_range-Serves (negsuc m) (negsuc n) size unsatisfiable i h = ground arith

-- A 206 response is never empty and never reaches past the end of the file.
choose_range-partial_bounds :
    (range_beg range_end : ℤ) (size offset count : ℕ)
    → choose_range range_beg range_end size ≡ returns (partial offset count)
    → (0 < count) × (offset + count ≤ size)
unfolding choose_range
choose_range-partial_bounds (pos m) (pos n) size o c h = ground arith
choose_range-partial_bounds (pos m) (negsuc n) size o c h = ground arith
choose_range-partial_bounds (negsuc m) (pos n) size o c h = ground arith
choose_range-partial_bounds (negsuc m) (negsuc n) size o c h = ground arith

-- The assertions before a 206 response hold for every header and file but one: they fail, and
-- the process aborts, exactly at "bytes=-0".
pub choose_range-aborts_iff :
    (range_beg range_end : ℤ) (size : ℕ)
    → (choose_range range_beg range_end size ≡ aborted)
      ↔ ((is_neg range_beg ≡ true) × (range_end ≡ pos 0))
unfolding choose_range
choose_range-aborts_iff (pos m) (pos n) size = ground arith
choose_range-aborts_iff (pos m) (negsuc n) size = ground arith
choose_range-aborts_iff (negsuc m) (pos n) size = ground arith
choose_range-aborts_iff (negsuc m) (negsuc n) size = ground arith

-- An empty file has no byte from any position on.
pub choose_range-empty_file :
    (range_beg range_end : ℤ)
    → is_neg range_beg ≡ false
    → choose_range range_beg range_end 0 ≡ returns unsatisfiable
unfolding choose_range
choose_range-empty_file (pos m) (pos n) h = ground arith
choose_range-empty_file (pos m) (negsuc n) h = ground arith
choose_range-empty_file (negsuc m) n h = cc
