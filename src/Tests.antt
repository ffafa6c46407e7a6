-- ===== src/Tests.antt =====
-- Concrete data, and the theorems at it.
mod Writing
mod Paths
mod Getting
mod Putting
mod Chunking
mod Looping
mod Making
mod Shared
mod Sidechannel
use cmogstored.Prelude.{ℕ, Bytes, [], true, false, none, some, codes}
use cmogstored.Prelude.Int.{pos}
use cmogstored.TryWrite.{null}
use cmogstored.Http.State.{Http, File, fd_http, method_get, cs1, chunk_size}
use cmogstored.Http.Put.{PutEnv}
use cmogstored.Http.Get.{FileInfo}

-- a client that asked for "/dev1/0.fid" and has sent no more
abbrev pub request : Bytes
request = codes "GET /dev1/0.fid "

abbrev pub client : Http
client = record {
  fd_type = fd_http;
  cs = cs1;
  http_method = method_get;
  persistent = true;
  chunked = false;
  has_trailer_md5 = false;
  has_expect_md5 = false;
  has_content_range = false;
  has_range = false;
  skip_rbuf_defer = false;
  chunk_state = chunk_size;
  path_tip = 4;
  path_end = 15;
  line_end = 0;
  tmp_tip = 0;
  forward = none;
  offset = 0;
  range_beg = pos 0;
  range_end = pos 0;
  content_len = pos 0;
  rbuf = none;
  wbuf = null;
  expect_md5 = [];
  out = [];
  input = [];
  calls = [];
}

-- a new file of a PUT
abbrev pub upload : File
upload = record {
  fsize = 0;
  foff = 0;
  path = some (codes "/dev1/0.fid");
  tmppath = some (codes "/dev1/0.fid.tmp");
  digest = none;
  written = [];
}

abbrev pub disk_env : PutEnv
disk_env = record { md5 = λ b. b; date = codes "now"; fchmod_ok = true; rename_ok = true; net = [] }

abbrev pub ten_bytes : FileInfo
ten_bytes = record { date = codes "now"; modified = codes "then"; st_size = 10; is_regular = true }
