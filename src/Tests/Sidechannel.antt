-- ===== src/Tests/Sidechannel.antt =====
-- The sidechannel.
use cmogstored.Prelude.{
  ◌+◌, Bytes, List, [], ◌∷◌, ◌++◌, Bool, true, false, Option, none, some, ◌≡◌, refl, codes, arith,
  length, ◌==◌, if◌then◌else◌,
}
use cmogstored.TryWrite.{Answer, wrote, null, trywritev}
use cmogstored.Prelude.Decimal.{decimal}
use cmogstored.Mgmt.Scan.{scan_again, scan, move_to}
use cmogstored.Mgmt.Scan.Table.{transition}
use cmogstored.Http.State.{Run, returns, aborted, Next, next_active}
use cmogstored.Http.Put.{Recv, got}
use cmogstored.ValidPath.{valid_path}
use cmogstored.Http.Put.Start.{parser_done}
use cmogstored.Mgmt.State.{Mgmt, Source, mgmt_init, st63, file, alg_md5}
use cmogstored.Mgmt.Answers.{MgmtEnv, eol}
use cmogstored.Mgmt.Answers.Writes.{sum_of}
use cmogstored.Mgmt.Parse.{mgmt_parse}
use cmogstored.Mgmt.Parse.Resume.{mgmt_parse-append}
use cmogstored.Mgmt.Requests.{Written, ask_digest, digest_of, for_fsck, crlf}
use cmogstored.Mgmt.Requests.Fresh.{IsFresh, Serves}
use cmogstored.Mgmt.Requests.Served.{mgmt_parse-serve}
use cmogstored.Mgmt.Checksum.{some_bytes, read_interrupted, mgmt_digest_step, after_write}
use cmogstored.Mgmt.Checksum.Step.{Answered, StepEnds, digest_step-StepEnds}
use cmogstored.Mgmt.Checksum.Turns.{IsReading, digest_turns, digest_turns-Answered}
use cmogstored.Http.Runs.{Holds}
use cmogstored.Mgmt.Checksum.Settled.{Settled}
use cmogstored.Mgmt.Loop.Settled.{mgmt_step-Settled}
use cmogstored.Mgmt.Loop.{mgmt_queue_step, mgmt_step, mgmt_quit_step, parser_is_done}
use cmogstored.Mgmt.Loop.Shutdown.{missing_fsck-quit}

abbrev has_file : Bytes → Bool
has_file p = length p == 5

abbrev seven : Source
seven = record { path = []; content = codes "7 bytes"; at = 0; hashed = []; st_dev = some 1 }

-- one file of 7 bytes, whose checksum is its bytes in 16 or 20 places
abbrev env : MgmtEnv
env = record {
  stat_size = λ p. if has_file p then some 7 else none;
  open_read = λ p. if has_file p then some seven else none;
  checksum = λ a b. b ++ codes "0123456789012345";
}

abbrev asked : Bytes → Mgmt
asked input = mgmt_init true 4 [] input

abbrev answer : Run (Next × Mgmt) → Option (Next × Bytes × Option Bytes)
answer (returns (n, m)) = some (n, m.out, m.rbuf)
answer aborted = none

abbrev enough : List Answer
enough = wrote 1000 ∷ []

abbrev run_of : Bytes → List Recv → Option (Next × Bytes × Option Bytes)
run_of bytes ks = answer (mgmt_queue_step env (asked bytes) ks [] enough)

-- requests in one read and in two, with the next one behind; one that is unknown, of which the
-- first word is told; and a checksum of a file that is not there
request_runs :
    (run_of (codes "size /a/b" ++ (eol ++ codes "next")) (got 99 ∷ [])
      ≡ some (next_active, codes "/a/b -1" ++ eol, some (codes "next")))
    × (run_of (codes "size /a/bc" ++ (eol ++ codes "next")) (got 4 ∷ got 99 ∷ [])
        ≡ some (next_active, codes "/a/bc 7" ++ eol, some (codes "next")))
    × (run_of (codes "server aio_threads = 5x foo" ++ eol) (got 8 ∷ got 99 ∷ [])
        ≡ some (next_active, codes "ERROR: unknown command: server" ++ eol, none))
    × (run_of (codes "SHA-1 /a/b fsck" ++ eol) (got 99 ∷ [])
        ≡ some (next_active, codes "/a/b SHA-1=-1" ++ eol, none))
unfolding mgmt_queue_step mgmt_init scan_again scan move_to transition valid_path trywritev decimal
request_runs = (refl, refl, refl, refl)

abbrev part_read : Mgmt
part_read = record (asked []) { cs = st63; offset = 7; mark0 = 5 }

mgmt_parse-append_example :
    mgmt_parse env part_read (codes "size /a" ++ (codes "/bc" ++ eol)) enough
    ≡ mgmt_parse env (asked []) (codes "size /a" ++ (codes "/bc" ++ eol)) enough
mgmt_parse-append_example =
    mgmt_parse-append env (asked []) part_read (codes "size /a") (codes "/bc" ++ eol) enough
      (unfold mgmt_parse mgmt_init scan_again scan move_to transition in refl)

asked-IsFresh : (input : Bytes) → IsFresh (asked input)
unfolding mgmt_init
asked-IsFresh input = record { at_start = refl; no_offset = refl; idle = refl }

abbrev line : Bytes
line = codes "MD5 /a/b fsck"

line-Written : Written (ask_digest false (codes "a/b") (codes " fsck") true) line
line-Written =
    digest_of false (codes "a/b") (codes " fsck") true (refl, (refl, (refl, tt))) (for_fsck [] tt)

mgmt_parse-serve_example :
    Serves env
      (asked [])
      (ask_digest false (codes "a/b") (codes " fsck") true)
      (line ++ (eol ++ codes "next"))
      enough
      (length line + length eol)
mgmt_parse-serve_example =
    mgmt_parse-serve env (asked []) (ask_digest false (codes "a/b") (codes " fsck") true) line eol
      (codes "next") enough (asked-IsFresh []) line-Written crlf

missing_fsck-quit_example :
    (m1 : Mgmt) × (m2 : Mgmt) × (n : Next) × (mgmt_parse env (asked []) (line ++ (eol ++ [])) enough
      ≡ returns (parser_done, m1))
    × (parser_is_done m1 (line ++ (eol ++ [])) m1.forward ≡ returns (n, m2))
    × (mgmt_quit_step env (record m2 { wbuf = null; out = codes "sent" }) [] [] enough ≡ aborted)
missing_fsck-quit_example =
    missing_fsck-quit env (asked []) false (codes "a/b") (codes " fsck") line eol enough [] enough
      (codes "sent") (asked-IsFresh []) (unfold mgmt_init in refl) (unfold mgmt_init in refl)
      line-Written crlf (unfold valid_path in refl) refl

-- a checksum in progress
abbrev reading : Mgmt
reading = record (asked []) { forward = file seven; alg = alg_md5 }

reading-IsReading : IsReading reading seven
unfolding mgmt_init
reading-IsReading = record {
  open_file = refl;
  normal = refl;
  unwritten = refl;
  known = λ e. cc;
  prefix = refl;
}

digest_step-StepEnds_example :
    (m' : Mgmt) × (mgmt_digest_step env reading seven (some_bytes 2 ∷ read_interrupted ∷ []) enough
      ≡ returns m')
    × StepEnds env reading seven (some_bytes 2 ∷ read_interrupted ∷ []) m'
digest_step-StepEnds_example =
    digest_step-StepEnds env reading seven (some_bytes 2 ∷ read_interrupted ∷ []) enough
      reading-IsReading.unwritten reading-IsReading.known refl

digest_turns-Answered_example :
    (m' : Mgmt) × (digest_turns env reading (some_bytes 2 ∷ [], enough) (([], enough) ∷ [])
      ≡ returns (after_write m'))
    × Answered reading seven (sum_of env reading.alg seven.path seven.content) m'
digest_turns-Answered_example =
    digest_turns-Answered env (([], enough) ∷ []) reading seven (some_bytes 2 ∷ [], enough)
      reading-IsReading (tt, (tt, tt)) (omega arith)

mgmt_step-Settled_example :
    let m = asked (codes "size /a/bc" ++ eol) in
    Holds Settled (mgmt_queue_step env m (got 4 ∷ got 99 ∷ []) [] enough)
    × (mgmt_step env m (got 4 ∷ got 99 ∷ []) [] enough
        ≡ mgmt_queue_step env m (got 4 ∷ got 99 ∷ []) [] enough)
mgmt_step-Settled_example =
    mgmt_step-Settled env (asked (codes "size /a/bc" ++ eol)) (got 4 ∷ got 99 ∷ []) [] enough
