-- ===== src/Mgmt/Requests/Fresh.antt =====
-- mgmt_parser.c: a parse from the start of a request.
use mathlib.Core.Path.{subst}
use cmogstored.Prelude.{ℕ, ◌≤◌, Bytes, List, ◌≡◌, sym, ap, ◌∙◌, arith, length}
use cmogstored.TryWrite.{Answer, null}
use cmogstored.Http.State.{Run, returns, ◌>>=◌}
use cmogstored.Mgmt.State.{Mgmt, st1}
use cmogstored.Mgmt.Scan.Table.{Request}
use cmogstored.Mgmt.Scan.{finished, scan, scan_again, scan_buffer}
use cmogstored.Mgmt.Answers.{MgmtEnv, request_done}
use cmogstored.Mgmt.Parse.{mgmt_parse, parse_result, done_at}
use cmogstored.Mgmt.Parse.Resume.{mgmt_parse_ready}
use cmogstored.Http.Put.Start.{ParserState}
use cmogstored.Mgmt.Requests.{Command, serve}

-- a client at the start of a request
pub record IsFresh (m : Mgmt) : Type 0 where
  pub at_start : m.cs ≡ st1
  pub no_offset : m.offset ≡ 0
  pub idle : m.wbuf ≡ null

-- the answer to a request behind `n` bytes
abbrev pub replied : ℕ → Run Mgmt → Run (ParserState × Mgmt)
replied n r = r >>= λ k. returns (done_at n k)

pub fresh_parse :
    (env : MgmtEnv) (m m' : Mgmt) (buf : Bytes) (net : List Answer) (r : Request) (n : ℕ)
    → IsFresh m
    → scan st1 0 buf m ≡ finished r n m'
    → mgmt_parse env m buf net ≡ replied n (request_done env r m' buf net)
unfolding scan_buffer parse_result scan_again
fresh_parse env m m' buf net r n f e =
    mgmt_parse_ready env m buf net f.idle
      (subst (λ k. k ≤ length buf) (sym f.no_offset) (omega arith))
    ∙ ap (λ cs. parse_result env buf net (scan_buffer cs m.offset buf m)) f.at_start
    ∙ ap (λ k. parse_result env buf net (scan_buffer st1 k buf m)) f.no_offset
    ∙ ap (λ s. parse_result env buf net (scan_again buf s)) e

-- the client with its marks set
abbrev pub marks : ℕ → ℕ → Mgmt → Mgmt
marks i j m = record m { mark0 = i; mark1 = j }

-- the scanner reads the request in `buf` and answers it, and stops at `n`
abbrev pub Serves : MgmtEnv → Mgmt → Command → Bytes → List Answer → ℕ → Type 0
Serves env m cmd buf net n =
    (i : ℕ) × (j : ℕ) × (mgmt_parse env m buf net ≡ replied n (serve env (marks i j m) cmd net))

pub Serves-length :
    (env : MgmtEnv) (m : Mgmt) (cmd : Command) (buf : Bytes) (net : List Answer) (n k : ℕ)
    → n ≡ k
    → Serves env m cmd buf net n
    → Serves env m cmd buf net k
Serves-length env m cmd buf net n k e s = subst (Serves env m cmd buf net) e s
