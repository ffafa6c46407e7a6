-- ===== src/Http/Dispatch.antt =====
-- http.c: which handler a request goes to; the handlers of GET, HEAD, PUT, DELETE and MKCOL as the
-- operations of the event loop.
pub mod Settled
pub mod Chunked
pub mod Files
pub mod Steps
pub mod Refused
use cmogstored.Prelude.{Bool, Bytes, List, Option, none, some}
use cmogstored.TryWrite.{Answer}
use cmogstored.Http.State.{
  Http, File, Method, method_none, method_get, method_head, method_put, method_delete, method_mkcol,
  Errno, Run, returns, aborted, Next,
}
use cmogstored.Http.Get.{Lookup, SendFile, http_get_open, http_get_in_progress}
use cmogstored.Http.Dav.{http_delete, http_mkcol}
use cmogstored.Http.Put.{PutEnv, PWrite, Recv}
use cmogstored.Http.Put.Start.{ParserState, Opener, http_put}
use cmogstored.Http.Put.Chunked.{http_put_in_progress}
use cmogstored.Http.Chunk.{chunk_parse}
use cmogstored.Http.Loop.{Handlers}

-- What the handlers get from outside in one step: the generated parser and the base64 decoder; what
-- stat(2), open(2) and unlink(2) answer; the clock, the disk and the socket; the bytes of an open
-- file. `first_writes` are the answers to the body bytes that come with a header.
pub record System : Type 0 where
  pub parse : Http → Bytes → ParserState × Errno × Http
  pub decode : Bytes → Option Bytes
  pub msg_more : Bool
  pub epoch : Bytes
  pub look : Bytes → Lookup
  pub unlink : Bytes → Option Errno
  pub opener : Opener
  pub put : PutEnv
  pub first_writes : List PWrite
  pub content : Bytes
  pub sends : List SendFile
  pub reads : List Recv
  pub writes : List PWrite

-- `http_process_client`, given http->http_method, with the assertion "unset HTTP method"
unfoldable pub http_process_client : System → Http → Bytes → Method → Run Http
http_process_client sys h buf method_none = aborted
http_process_client sys h buf method_delete =
    returns (http_delete h buf sys.unlink sys.put.date sys.put.net)
http_process_client sys h buf method_mkcol = returns (http_mkcol h buf sys.put.date sys.put.net)
http_process_client sys h buf method_put =
    http_put (chunk_parse sys.decode) sys.put sys.opener h buf sys.first_writes
http_process_client sys h buf _ =
    http_get_open sys.msg_more h buf sys.look sys.put.date sys.epoch sys.put.net

-- `http_forward_in_progress`, given http->http_method, with the assertion "bad http_method for
-- forward"
unfoldable pub file_in_progress : System → Http → File → Method → Run (Next × Http)
file_in_progress sys h f method_get = returns (http_get_in_progress h f sys.content sys.sends)
file_in_progress sys h f method_put =
    http_put_in_progress sys.decode sys.put h f sys.writes sys.reads
file_in_progress sys h f _ = aborted

-- and given http->forward, with the assertion "bad forward"
unfoldable pub http_forward_in_progress : System → Http → Option File → Run (Next × Http)
unfolding file_in_progress
http_forward_in_progress sys h none = aborted
http_forward_in_progress sys h (some f) = file_in_progress sys h f h.http_method

abbrev pub handlers : System → Handlers
handlers sys = record {
  parse = sys.parse;
  process_client = λ h buf. http_process_client sys h buf h.http_method;
  forward_in_progress = λ h. http_forward_in_progress sys h h.forward;
}
