-- ===== src/Http/Trailer.antt =====
-- chunk_parser.c: the part of `mog_chunk_parse` that scans the trailers after the last chunk. A
-- state of the model is a `case` of the generated switch. The scanner recognizes "Content-MD5"; on
-- any other line it goes back to the start of the line and skips it.
pub mod Ends
use cmogstored.Prelude.{
  ℕ, zero, suc, ◌+◌, ◌-◌, Bytes, [], ◌∷◌, Bool, true, false, not, ◌&&◌, ◌||◌, Option, none, some,
  ltb, leb, ◌==◌, if◌then◌else◌, length, take, drop, get_elem?, codes,
}
use cmogstored.Http.State.{
  Http, chunk_done, ChunkCs, cs0, cs7, cs8, cs9, cs10, cs11, cs12, cs13, cs14, cs15, cs16, cs17,
  name, cs29, cs30, cs31, cs32, b64, cs54, cs55, cs56, cs57, cs58, cs59,
}

-- what one byte does: go on in a state, `{goto st7;}` from the start of the line, state 0, EINVAL,
-- an assertion that fails, or the end of the trailers
pub data Act : Type 0 where
  go : ChunkCs → Http → Act
  back refuse invalid crash : Act
  done : Http → Act

abbrev pub is_lws : ℕ → Bool
is_lws c = c == 9 || c == 32

abbrev in_range : ℕ → ℕ → ℕ → Bool
in_range lo hi c = leb lo c && leb c hi

-- [a-zA-Z0-9\-]
abbrev pub is_name : ℕ → Bool
is_name c = c == 45 || (in_range 48 57 c || (in_range 65 90 c || in_range 97 122 c))

-- [a-zA-Z0-9/+]
abbrev is_b64 : ℕ → Bool
is_b64 c = c == 43 || (in_range 47 57 c || (in_range 65 90 c || in_range 97 122 c))

-- a control character, or DEL
abbrev is_ctl : ℕ → Bool
is_ctl c = c == 127 || leb c 31

-- "ontent-MD5:" in either case, the byte that state 18 + k wants
abbrev pub wants : ℕ → ℕ → Bool
wants k c = elim (get_elem? (codes "ontent-md5:") k) [
  | none ↦ false
  | some e ↦ c == e || (in_range 97 122 e && c + 32 == e)
]

-- the action on a line that is not "Content-MD5", once its name has matched
abbrev no_md5 : Http → Act
no_md5 h = if h.has_expect_md5 then back else invalid

-- states 16 and 59: the start of a line
abbrev start_line : ℕ → Http → Act → Act
start_line c h other =
    if c == 13 then go cs17 h else if c == 67 || c == 99 then go (name 0) h else other

-- The text is `tmp_tip` up to the current position; the assertion is "base64_decoder broke for
-- HTTP".
abbrev with_md5 : (Bytes → Option Bytes) → Bytes → ℕ → Http → ChunkCs → Act
with_md5 decode buf pos h cs = elim (decode (take (pos - h.tmp_tip) (drop h.tmp_tip buf))) [
  | none ↦ crash
  | some md5 ↦ go cs (record h { expect_md5 = md5; has_expect_md5 = true })
]

-- states 7 to 15: a line that is skipped
abbrev pub skip_step : ChunkCs → ℕ → ℕ → Http → Act
skip_step cs7 pos c h = if is_name c then go cs8 h else refuse
skip_step cs8 pos c h = if c == 58 then go cs9 h else if is_name c then go cs8 h else refuse
skip_step cs9 pos c h =
    if is_lws c
    then go cs9 h
    else if c == 13
    then go cs13 h
    else if is_ctl c
    then refuse
    else go cs10 h
skip_step cs10 pos c h =
    if c == 9
    then go cs11 h
    else if c == 13
    then go cs12 h
    else if is_ctl c
    then refuse
    else go cs10 h
skip_step cs11 pos c h = if is_lws c then go cs11 h else if c == 13 then go cs12 h else refuse
skip_step cs12 pos c h = if c == 10 then go cs16 (record h { line_end = pos }) else refuse
skip_step cs13 pos c h = if c == 10 then go cs14 (record h { line_end = pos }) else refuse
skip_step cs14 pos c h = if is_lws c then go cs15 h else refuse
skip_step cs15 pos c h = if is_lws c then go cs15 h else if is_ctl c then refuse else go cs10 h
skip_step _ pos c h = refuse

-- states 16 and 17: the start of a line, and the empty line that ends the trailers
abbrev pub line_step : ChunkCs → ℕ → ℕ → Http → Act
line_step cs16 pos c h = start_line c h back
line_step cs17 pos c h =
    if c == 10 then done (record h { chunk_state = chunk_done; line_end = pos }) else refuse
line_step _ pos c h = refuse

-- states 18 to 28: "Content-MD5:"
abbrev pub name_step : ℕ → ℕ → Http → Act
name_step k c h = if wants k c then go (if k == 10 then cs29 else name (k + 1)) h else back

-- states 29 to 32: the white space before the value
abbrev pub value_step : ChunkCs → ℕ → ℕ → Http → Act
value_step cs29 pos c h =
    if is_lws c
    then go cs29 h
    else if c == 13
    then go cs30 h
    else if is_b64 c
    then go (b64 0) (record h { tmp_tip = pos })
    else no_md5 h
value_step cs30 pos c h = if c == 10 then go cs31 (record h { line_end = pos }) else back
value_step cs31 pos c h = if is_lws c then go cs32 h else back
value_step cs32 pos c h =
    if is_lws c
    then go cs32 h
    else if is_b64 c
    then go (b64 0) (record h { tmp_tip = pos })
    else no_md5 h
value_step _ pos c h = refuse

-- states 33 to 53: the base64 text but for its first byte
abbrev pub b64_step : ℕ → ℕ → Http → Act
b64_step k c h = if is_b64 c then go (if k == 20 then cs54 else b64 (k + 1)) h else no_md5 h

-- states 54 to 59: the end of the value and of its line
abbrev pub value_end_step : (Bytes → Option Bytes) → Bytes → ChunkCs → ℕ → ℕ → Http → Act
value_end_step decode buf cs54 pos c h = if c == 61 then go cs55 h else no_md5 h
value_end_step decode buf cs55 pos c h = if c == 61 then go cs56 h else no_md5 h
value_end_step decode buf cs56 pos c h =
    if is_lws c
    then with_md5 decode buf pos h cs57
    else if c == 13
    then with_md5 decode buf pos h cs58
    else no_md5 h
value_end_step decode buf cs57 pos c h =
    if is_lws c then go cs57 h else if c == 13 then go cs58 h else no_md5 h
value_end_step decode buf cs58 pos c h =
    if c == 10 then go cs59 (record h { line_end = pos }) else no_md5 h
value_end_step decode buf cs59 pos c h = start_line c h (no_md5 h)
value_end_step decode buf _ pos c h = refuse

-- one byte at position `pos` of `buf`; `decode` is the library's base64 decoder, with none
-- where its result is not 16 bytes
unfoldable pub trailer_step : (Bytes → Option Bytes) → Bytes → ChunkCs → ℕ → ℕ → Http → Act
trailer_step decode buf cs7 pos c h = skip_step cs7 pos c h
trailer_step decode buf cs8 pos c h = skip_step cs8 pos c h
trailer_step decode buf cs9 pos c h = skip_step cs9 pos c h
trailer_step decode buf cs10 pos c h = skip_step cs10 pos c h
trailer_step decode buf cs11 pos c h = skip_step cs11 pos c h
trailer_step decode buf cs12 pos c h = skip_step cs12 pos c h
trailer_step decode buf cs13 pos c h = skip_step cs13 pos c h
trailer_step decode buf cs14 pos c h = skip_step cs14 pos c h
trailer_step decode buf cs15 pos c h = skip_step cs15 pos c h
trailer_step decode buf cs16 pos c h = line_step cs16 pos c h
trailer_step decode buf cs17 pos c h = line_step cs17 pos c h
trailer_step decode buf (name k) pos c h = name_step k c h
trailer_step decode buf cs29 pos c h = value_step cs29 pos c h
trailer_step decode buf cs30 pos c h = value_step cs30 pos c h
trailer_step decode buf cs31 pos c h = value_step cs31 pos c h
trailer_step decode buf cs32 pos c h = value_step cs32 pos c h
trailer_step decode buf (b64 k) pos c h = b64_step k c h
trailer_step decode buf cs54 pos c h = value_end_step decode buf cs54 pos c h
trailer_step decode buf cs55 pos c h = value_end_step decode buf cs55 pos c h
trailer_step decode buf cs56 pos c h = value_end_step decode buf cs56 pos c h
trailer_step decode buf cs57 pos c h = value_end_step decode buf cs57 pos c h
trailer_step decode buf cs58 pos c h = value_end_step decode buf cs58 pos c h
trailer_step decode buf cs59 pos c h = value_end_step decode buf cs59 pos c h
trailer_step decode buf _ pos c h = refuse

-- How a scan ends: at the end of the buffer, in state 0, with EINVAL, at the end of the trailers
-- with the position behind them, or back at the start of a line; `broken` is an assertion that
-- fails, or a read behind the buffer.
pub data Scan : Type 0 where
  at_end : ChunkCs → ℕ → Http → Scan
  refused : Http → Scan
  bad_md5 : Http → Scan
  finished : ℕ → Http → Scan
  rescans : Http → Scan
  broken : Scan

unfoldable pub trailer_scan : (Bytes → Option Bytes) → Bytes → ChunkCs → ℕ → Http → Bytes → Scan
unfolding trailer_step
trailer_scan decode buf cs pos h [] = at_end cs pos h
trailer_scan decode buf cs pos h (c ∷ rest) = elim (trailer_step decode buf cs pos c h) [
  | go cs' h' ↦ trailer_scan decode buf cs' (pos + 1) h' rest
  | back ↦ rescans h
  | refuse ↦ refused h
  | invalid ↦ bad_md5 h
  | crash ↦ broken
  | done h' ↦ finished (pos + 1) h'
]

-- p = buf + http->line_end + 1, or buf
abbrev pub line_start : Http → ℕ
line_start h = if h.line_end == 0 then 0 else h.line_end + 1

abbrev is_lf : Option ℕ → Bool
is_lf none = false
is_lf (some c) = c == 10

-- the assertion "bad http->line_end", and that the line starts inside the buffer
abbrev pub good_line : Http → Bytes → Bool
good_line h buf =
    (h.line_end == 0 || is_lf (get_elem? buf h.line_end)) && ltb (line_start h) (length buf)

-- The label st7 advances the pointer once more before it reads. `turns` bounds how often the
-- scanner goes back.
unfoldable pub trailer_again : ℕ → (Bytes → Option Bytes) → Bytes → Scan → Scan
trailer_again zero decode buf r = r
trailer_again (suc turns) decode buf (rescans h) =
    let rest =
      trailer_again turns decode buf
        (trailer_scan decode buf cs7 (suc (line_start h)) h (drop (suc (line_start h)) buf)) in
    if good_line h buf then rest else broken
trailer_again (suc turns) decode buf r = r

unfoldable pub trailer_run : (Bytes → Option Bytes) → Bytes → ChunkCs → ℕ → Http → Scan
trailer_run decode buf cs pos h =
    trailer_again (suc (length buf)) decode buf (trailer_scan decode buf cs pos h (drop pos buf))
