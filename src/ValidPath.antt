-- ===== src/ValidPath.antt =====
-- valid_path.c and valid_put_path.c: the checks on a client's path before any file is opened.
-- Both are generated scanners; a state of the model is a `case` of the generated switch.
pub mod Traversal
pub mod PutPath
use cmogstored.Prelude.{
  ℕ, suc, Bytes, [], ◌∷◌, Bool, true, false, not, ◌&&◌, leb, ◌==◌, if◌then◌else◌, length, codes,
}

-- Cases 0 and 1 of `path_traversal_found`. At a second dot the scanner leaves with `found` set, so
-- its cases 2 and 3 are never entered.
pub data TraversalState : Type 0 where
  plain dot : TraversalState

pub traversal_from : TraversalState → Bytes → Bool
traversal_from _ [] = false
traversal_from plain (c ∷ cs) = traversal_from (if c == 46 then dot else plain) cs
traversal_from dot (c ∷ cs) = let rest = traversal_from plain cs in if c == 46 then true else rest

unfoldable pub path_traversal_found : Bytes → Bool
unfolding traversal_from
path_traversal_found buf = traversal_from plain buf

-- sizeof("/dev16777215/0/000/000/0123456789.fid"), the terminating NUL included
abbrev pub path_limit : ℕ
path_limit = suc (length (codes "/dev16777215/0/000/000/0123456789.fid"))

unfoldable pub valid_path : Bytes → Bool
unfolding path_traversal_found
valid_path buf = if leb path_limit (length buf) then false else not (path_traversal_found buf)

-- the cases of `mog_valid_put_path`, by number; `error` is case 0
pub data PutState : Type 0 where
  error st1 st2 st3 st4 st5 st6 st7 st8 st9 : PutState

abbrev pub is_digit : ℕ → Bool
is_digit c = leb 48 c && leb c 57

unfoldable pub put_step : PutState → ℕ → PutState
put_step error c = error
put_step st1 c = if c == 47 then st2 else error
put_step st2 c = if c == 100 then st3 else error
put_step st3 c = if c == 101 then st4 else error
put_step st4 c = if c == 118 then st5 else error
put_step st5 c = if is_digit c then st6 else error
put_step st6 c = if c == 47 then st7 else if is_digit c then st6 else error
put_step st7 c = if c == 47 then st7 else st8
put_step st8 c = st9
put_step st9 c = st9

-- The generated code stops at the error state, which no byte leaves.
unfoldable pub put_run : PutState → Bytes → PutState
unfolding put_step
put_run st [] = st
put_run st (c ∷ cs) = put_run (put_step st c) cs

abbrev pub is_error : PutState → Bool
is_error error = true
is_error _ = false

-- buf[len - 1] == '/', for a buffer that is not empty
pub ends_in_slash : Bytes → Bool
ends_in_slash [] = false
ends_in_slash (c ∷ []) = c == b'/'
ends_in_slash (c ∷ d ∷ cs) = ends_in_slash (d ∷ cs)

unfoldable pub valid_put_path : Bytes → Bool
unfolding ends_in_slash put_run
valid_put_path [] = false
valid_put_path (c ∷ cs) =
    if ends_in_slash (c ∷ cs) then false else not (is_error (put_run st1 (c ∷ cs)))
