-- ===== src/Http/State.antt =====
-- cmogstored.h: struct mog_http, struct mog_file, and the results of a queue step.
use cmogstored.Prelude.{ℕ, Bytes, List, [], Bool, false, Option, none}
use cmogstored.Prelude.Int.{ℤ, pos}
use cmogstored.TryWrite.{WbufPtr, null}

-- enum mog_next
pub data Next : Type 0 where
  next_close next_active next_wait_rd next_wait_wr next_ignore : Next

-- enum mog_http_method
pub data Method : Type 0 where
  method_none method_get method_head method_put method_delete method_mkcol : Method

-- enum mog_chunk_state
pub data ChunkState : Type 0 where
  chunk_size chunk_data chunk_trailer chunk_done : ChunkState

-- The states of the generated chunk parser by number: `name k` is 18 + k, and `b64 k` is 33 + k.
-- The states 62 to 66 are left out: 61 and 66 are only left to, and the others follow 61. The HTTP parser's states,
-- which share the field, are not modelled.
pub data ChunkCs : Type 0 where
  cs0 cs1 cs2 cs3 cs4 cs5 cs6 cs7 cs8 cs9 cs10 cs11 cs12 cs13 cs14 cs15 cs16 cs17 : ChunkCs
  name : ℕ → ChunkCs
  cs29 cs30 cs31 cs32 : ChunkCs
  b64 : ℕ → ChunkCs
  cs54 cs55 cs56 cs57 cs58 cs59 cs60 cs61 : ChunkCs

-- enum mog_fd_type
pub data FdType : Type 0 where
  fd_unused fd_http fd_httpget fd_mgmt fd_iostat fd_selfwake fd_selfpipe : FdType
  fd_accept fd_file fd_queue fd_svc : FdType

-- the values of errno that the handlers tell apart; `no_error` is 0
pub data Errno : Type 0 where
  no_error eintr eacces eperm eisdir enoent einval eexist erange enospc efbig eother : Errno

-- struct mog_file; `digest` is what has been hashed, if there is a hash context
pub record File : Type 0 where
  pub fsize : ℕ
  pub foff : ℕ
  pub path : Option Bytes
  pub tmppath : Option Bytes
  pub digest : Option Bytes
  -- the pwrite(2) calls that succeeded, an offset and its bytes each, oldest first
  pub written : List (ℕ × Bytes)

-- the calls that change directories or close files
pub data FsCall : Type 0 where
  opened unlinked : Bytes → FsCall
  renamed : Bytes → Bytes → FsCall
  perms_set closed : FsCall

-- struct mog_rbuf: `rptr` holds `rsize` bytes, and has room for `rcapa`
pub record Rbuf : Type 0 where
  pub rcapa : ℕ
  pub rptr : Bytes

-- struct mog_http, with the type of its mog_fd, its socket and its file system calls
pub record Http : Type 0 where
  pub fd_type : FdType
  pub cs : ChunkCs
  pub http_method : Method
  pub persistent : Bool
  pub chunked : Bool
  pub has_trailer_md5 : Bool
  pub has_expect_md5 : Bool
  pub has_content_range : Bool
  pub has_range : Bool
  pub skip_rbuf_defer : Bool
  pub chunk_state : ChunkState
  pub path_tip : ℕ
  pub path_end : ℕ
  pub line_end : ℕ
  pub tmp_tip : ℕ
  pub forward : Option File
  pub offset : ℕ
  pub range_beg : ℤ
  pub range_end : ℤ
  pub content_len : ℤ
  pub rbuf : Option Rbuf
  pub wbuf : WbufPtr
  pub expect_md5 : Bytes
  pub out : Bytes
  pub input : Bytes
  pub calls : List FsCall

-- `mog_http_reset_parser`: all is zeroed but the read buffer
unfoldable pub http_reset : Http → Http
http_reset h = record h {
  cs = cs1;
  http_method = method_none;
  persistent = false;
  chunked = false;
  has_trailer_md5 = false;
  has_expect_md5 = false;
  has_content_range = false;
  has_range = false;
  skip_rbuf_defer = false;
  chunk_state = chunk_size;
  path_tip = 0;
  path_end = 0;
  line_end = 0;
  tmp_tip = 0;
  forward = none;
  offset = 0;
  range_beg = pos 0;
  range_end = pos 0;
  content_len = pos 0;
  wbuf = null;
  expect_md5 = [];
}

-- A call that returns, or an assertion that fails.
pub data Run {ℓ} (A : Type ℓ) : Type ℓ where
  returns : A → Run A
  aborted : Run A

infixl 5 ◌>>=◌
abbrev pub ◌>>=◌ {ℓ κ} : {A : Type ℓ} {B : Type κ} → Run A → (A → Run B) → Run B
returns a >>= f = f a
aborted >>= f = aborted
