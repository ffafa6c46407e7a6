-- ===== src/Mgmt/Scan/Table.antt =====
-- mgmt_parser.c: the transitions of the generated scanner, a `case` of its switch each. A byte is
-- its code, of which the scanner tells only the ASCII ones apart.
use cmogstored.Prelude.{ℕ, List, [], ◌∷◌, Bool, ◌&&◌, ◌||◌, leb, ◌==◌, if◌then◌else◌}
use cmogstored.Mgmt.State.{
  Alg, alg_md5, alg_sha1, MgmtCs, st0, st1, st2, st3, st4, st5, st6, st7, st8, st9, st10, st11,
  st12, st13, st14, st15, st16, st17, st18, st19, st20, st21, st22, st23, st24, st25, st26, st27,
  st28, st29, st30, st31, st32, st33, st34, st35, st36, st37, st38, st39, st40, st41, st42, st43,
  st44, st45, st46, st47, st48, st49, st50, st51, st52, st53, st54, st55, st56, st57, st58, st59,
  st60, st61, st62, st63, st64, st65, st66, st67, st68, st69, st70, st71, st72, st73, st74,
}

-- the actions on the way: `mark[0]` or `mark[1]` at this byte, `alg`, `set_prio_fsck`
pub data ScanAct : Type 0 where
  mark_0 mark_1 fsck : ScanAct
  alg_is : Alg → ScanAct

-- the requests
pub data Request : Type 0 where
  blank digest aio_threads shutdown size watch unknown : Request

-- What a byte does: on to a state, the end of a request, the way to the start of the buffer and to
-- state 71, or state 0.
pub data Move : Type 0 where
  go : List ScanAct → MgmtCs → Move
  finish : List ScanAct → Request → Move
  invalid refuse : Move

abbrev in_range : ℕ → ℕ → ℕ → Bool
in_range lo hi c = leb lo c && leb c hi

-- [a-zA-Z0-9/.\-]
abbrev pub is_path : ℕ → Bool
is_path c = in_range 45 57 c || (in_range 65 90 c || in_range 97 122 c)

-- [a-zA-Z0-9_]
abbrev pub is_word : ℕ → Bool
is_word c = c == 95 || (in_range 48 57 c || (in_range 65 90 c || in_range 97 122 c))

abbrev pub is_digit : ℕ → Bool
is_digit c = in_range 48 57 c

abbrev pub only : Bool → Move → Move
only b move = if b then move else invalid

-- the line end behind a reason
abbrev pub reason_step : ℕ → Move → Move
reason_step c other = if c == 10 then finish [] digest else if c == 13 then go [] st9 else other

-- states 65 to 70: "watch"
unfoldable pub watch_move : MgmtCs → ℕ → Move
watch_move st65 c = only (c == 97) (go [] st66)
watch_move st66 c = only (c == 116) (go [] st67)
watch_move st67 c = only (c == 99) (go [] st68)
watch_move st68 c = only (c == 104) (go [] st69)
watch_move st69 c = if c == 10 then finish [] watch else only (c == 13) (go [] st70)
watch_move st70 c = only (c == 10) (finish [] watch)
watch_move cs c = invalid

-- states 59 to 64: "ize" and a path
unfoldable pub size_move : MgmtCs → ℕ → Move
unfolding watch_move
size_move st59 c = only (c == 122) (go [] st60)
size_move st60 c = only (c == 101) (go [] st61)
size_move st61 c = only (c == 32) (go [] st62)
size_move st62 c = only (c == 47) (go (mark_0 ∷ []) st63)
size_move st63 c =
    if c == 10
    then finish (mark_1 ∷ []) size
    else if c == 13
    then go (mark_1 ∷ []) st64
    else only (is_path c) (go [] st63)
size_move st64 c = only (c == 10) (finish [] size)
size_move cs c = watch_move cs c

-- states 41 to 58: "s", and "hutdown" behind it
unfoldable pub shutdown_move : MgmtCs → ℕ → Move
unfolding size_move
shutdown_move st41 c =
    if c == 104
    then go [] st42
    else if c == 105
    then go [] st59
    else only (c == 69 || c == 101) (go [] st16)
shutdown_move st42 c = only (c == 117) (go [] st43)
shutdown_move st43 c = only (c == 116) (go [] st44)
shutdown_move st44 c = only (c == 100) (go [] st45)
shutdown_move st45 c = only (c == 111) (go [] st46)
shutdown_move st46 c = only (c == 119) (go [] st47)
shutdown_move st47 c = only (c == 110) (go [] st48)
shutdown_move st48 c =
    if c == 10
    then finish [] shutdown
    else if c == 13
    then go [] st49
    else only (c == 32) (go [] st50)
shutdown_move st49 c = only (c == 10) (finish [] shutdown)
shutdown_move st50 c = if c == 32 then go [] st50 else only (c == 103) (go [] st51)
shutdown_move st51 c = only (c == 114) (go [] st52)
shutdown_move st52 c = only (c == 97) (go [] st53)
shutdown_move st53 c = only (c == 99) (go [] st54)
shutdown_move st54 c = only (c == 101) (go [] st55)
shutdown_move st55 c = only (c == 102) (go [] st56)
shutdown_move st56 c = only (c == 117) (go [] st57)
shutdown_move st57 c = only (c == 108) (go [] st58)
shutdown_move st58 c = if c == 10 then finish [] shutdown else only (c == 13) (go [] st49)
shutdown_move cs c = size_move cs c

-- states 38 to 40: "A-1"
unfoldable pub sha1_move : MgmtCs → ℕ → Move
unfolding shutdown_move
sha1_move st38 c = only (c == 65) (go [] st39)
sha1_move st39 c = only (c == 45) (go [] st40)
sha1_move st40 c = only (c == 49) (go (alg_is alg_sha1 ∷ []) st6)
sha1_move cs c = shutdown_move cs c

-- states 15 to 37: "S", and "erver aio_threads" behind it in either case
unfoldable pub threads_move : MgmtCs → ℕ → Move
unfolding sha1_move
threads_move st15 c = if c == 72 then go [] st38 else only (c == 69 || c == 101) (go [] st16)
threads_move st16 c = only (c == 82 || c == 114) (go [] st17)
threads_move st17 c = only (c == 86 || c == 118) (go [] st18)
threads_move st18 c = only (c == 69 || c == 101) (go [] st19)
threads_move st19 c = only (c == 82 || c == 114) (go [] st20)
threads_move st20 c = only (c == 32) (go [] st21)
threads_move st21 c = only (c == 65 || c == 97) (go [] st22)
threads_move st22 c = only (c == 73 || c == 105) (go [] st23)
threads_move st23 c = only (c == 79 || c == 111) (go [] st24)
threads_move st24 c = only (c == 95) (go [] st25)
threads_move st25 c = only (c == 84 || c == 116) (go [] st26)
threads_move st26 c = only (c == 72 || c == 104) (go [] st27)
threads_move st27 c = only (c == 82 || c == 114) (go [] st28)
threads_move st28 c = only (c == 69 || c == 101) (go [] st29)
threads_move st29 c = only (c == 65 || c == 97) (go [] st30)
threads_move st30 c = only (c == 68 || c == 100) (go [] st31)
threads_move st31 c = only (c == 83 || c == 115) (go [] st32)
threads_move st32 c = if c == 32 then go [] st33 else only (c == 61) (go [] st34)
threads_move st33 c = only (c == 61) (go [] st34)
threads_move st34 c = if c == 32 then go [] st35 else only (is_digit c) (go (mark_0 ∷ []) st36)
threads_move st35 c = only (is_digit c) (go (mark_0 ∷ []) st36)
threads_move st36 c =
    if c == 10
    then finish (mark_1 ∷ []) aio_threads
    else if c == 13
    then go (mark_1 ∷ []) st37
    else only (is_digit c) (go [] st36)
threads_move st37 c = only (c == 10) (finish [] aio_threads)
threads_move cs c = sha1_move cs c

-- states 4 to 14: "D5", and for both checksums what follows the name
unfoldable pub digest_move : MgmtCs → ℕ → Move
unfolding threads_move
digest_move st4 c = only (c == 68) (go [] st5)
digest_move st5 c = only (c == 53) (go (alg_is alg_md5 ∷ []) st6)
digest_move st6 c = only (c == 32) (go [] st7)
digest_move st7 c = only (c == 47) (go (mark_0 ∷ []) st8)
digest_move st8 c =
    if c == 10
    then finish (mark_1 ∷ []) digest
    else if c == 13
    then go (mark_1 ∷ []) st9
    else if c == 32
    then go (mark_1 ∷ []) st10
    else only (is_path c) (go [] st8)
digest_move st9 c = only (c == 10) (finish [] digest)
digest_move st10 c = if c == 102 then go [] st12 else only (is_word c) (go [] st11)
digest_move st11 c = reason_step c (only (is_word c) (go [] st11))
digest_move st12 c = reason_step c (if c == 115 then go [] st13 else only (is_word c) (go [] st11))
digest_move st13 c = reason_step c (if c == 99 then go [] st14 else only (is_word c) (go [] st11))
digest_move st14 c =
    reason_step c (if c == 107 then go (fsck ∷ []) st11 else only (is_word c) (go [] st11))
digest_move cs c = threads_move cs c

unfoldable pub transition : MgmtCs → ℕ → Move
unfolding digest_move
transition st0 c = refuse
transition st1 c =
    if c == 9 || c == 32
    then go [] st2
    else if c == 10
    then finish [] blank
    else if c == 13
    then go [] st3
    else if c == 77
    then go [] st4
    else if c == 83
    then go [] st15
    else if c == 115
    then go [] st41
    else only (c == 119) (go [] st65)
transition st2 c =
    if c == 9 || c == 32
    then go [] st2
    else if c == 10
    then finish [] blank
    else only (c == 13) (go [] st3)
transition st3 c = only (c == 10) (finish [] blank)
transition st71 c =
    if c == 9 || c == 32 then go [] st71 else if c == 13 then refuse else go (mark_0 ∷ []) st72
transition st72 c =
    if c == 10
    then finish (mark_1 ∷ []) unknown
    else if c == 9 || (c == 13 || c == 32)
    then go (mark_1 ∷ []) st73
    else go (mark_1 ∷ []) st72
transition st73 c = if c == 10 then finish [] unknown else go [] st73
transition st74 c = invalid
transition cs c = digest_move cs c
