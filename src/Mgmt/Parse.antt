-- ===== src/Mgmt/Parse.antt =====
-- mgmt_parser.c: `mog_mgmt_parse`.
pub mod Resume
pub mod Taken
use cmogstored.Prelude.{ℕ, Bytes, List, Bool, ◌&&◌, leb, if◌then◌else◌, length}
use cmogstored.TryWrite.{Answer, WbufPtr, null, wr_error, buffered}
use cmogstored.Http.State.{Run, returns, aborted, ◌>>=◌}
use cmogstored.Http.Put.Start.{ParserState, parser_error, parser_done, parser_continue}
use cmogstored.Mgmt.State.{Mgmt, st0, st74}
use cmogstored.Mgmt.Scan.{Scanned, more, finished, refused, restart, scan_buffer}
use cmogstored.Mgmt.Answers.{MgmtEnv, request_done}

unfoldable pub done_at : ℕ → Mgmt → ParserState × Mgmt
done_at pos m = (parser_done, record m { cs = st74; offset = pos })

-- after "write exec": the request's answer, the state, and the offset behind what was read
unfoldable pub parse_result : MgmtEnv → Bytes → List Answer → Scanned → Run (ParserState × Mgmt)
unfolding request_done done_at
parse_result env buf net (more cs pos m) =
    returns (parser_continue, record m { cs = cs; offset = pos })
parse_result env buf net (finished r pos m) = do
  m' ← request_done env r m buf net
  returns (done_at pos m')
parse_result env buf net (refused pos m) =
    returns (parser_error, record m { cs = st0; offset = pos })
parse_result env buf net (restart m) = aborted

-- `mog_mgmt_parse`, with its assertions "unwritten data in buffer" and "mgmt offset past end of
-- buffer"
unfoldable pub mgmt_parse : MgmtEnv → Mgmt → Bytes → List Answer → Run (ParserState × Mgmt)
unfolding scan_buffer parse_result
mgmt_parse env m buf net = elim m.wbuf [
  | null ↦
      if leb m.offset (length buf)
      then parse_result env buf net (scan_buffer m.cs m.offset buf m)
      else aborted
  | wr_error ↦ aborted
  | buffered w ↦ aborted
]
