-- ===== src/Tests/Looping.antt =====
-- The event loop.
use cmogstored.Prelude.{
  ℕ, ◌-◌, false, Option, none, some, inl, [], ◌∷◌, ◌++◌, ◌≡◌, refl, length, drop, codes, ◌==◌,
  if◌then◌else◌,
}
use cmogstored.ValidPath.{ends_in_slash, valid_path}
use cmogstored.TryWrite.{Wbuf, wrote, trysend, trywritev, wbuf_new}
use cmogstored.Http.Loop.Flush.{FlushEnds, http_wbuf_in_progress-FlushEnds}
use cmogstored.Http.State.{Next, Http, no_error, returns, aborted, Run, next_active}
use cmogstored.Http.Put.{got, recv_interrupted}
use cmogstored.Http.Put.Start.{parser_done, parser_continue, parser_error}
use cmogstored.Prelude.Decimal.{decimal}
use cmogstored.Http.Response.{http_resp, http_path, response}
use cmogstored.Http.Get.{
  get_path, found, sent, http_get_open, http_get_resp_hdr, http_get_in_progress, get_lookup,
  get_header,
}
use cmogstored.Http.Dispatch.{System, handlers, http_process_client, http_forward_in_progress}
use cmogstored.Http.Runs.{Holds}
use cmogstored.Http.Dispatch.Settled.{Settled}
use cmogstored.Http.Dispatch.Steps.{OnlyParses, http_queue_step-Settled}
use cmogstored.Http.Dispatch.Refused.{http_step-parse_error}
use cmogstored.Http.Loop.{
  http_wbuf_in_progress, Handlers, http_read, http_step, http_queue_step, http_defer_rbuf,
  parse_step, parse_error, http_processed,
}
use cmogstored.Http.Loop.Steps.{Keeps, http_read-Keeps}
use cmogstored.Tests.{client, request, disk_env, ten_bytes}

-- a request of this parser ends with a slash
abbrev ops : Handlers
ops = record {
  parse = λ h buf. (
    if ends_in_slash buf then parser_done else parser_continue,
    no_error,
    record h { offset = length buf },
  );
  process_client = λ h buf. returns h;
  forward_in_progress = λ h. returns (next_active, h);
}

abbrev typing : Http
typing = record client { input = codes "ab/cd" }

http_read-Keeps_example :
    Keeps
      ([] ++ codes "ab/cd")
      (http_read ops typing 496 [] (got 2 ∷ recv_interrupted ∷ got 9 ∷ []))
http_read-Keeps_example =
    http_read-Keeps ops typing 496 [] (got 2 ∷ recv_interrupted ∷ got 9 ∷ [])
      (record { same_input = λ h buf. refl; wants_more = λ h buf e. refl }) refl (λ e. refl)

abbrev parsed_two : Http
parsed_two = record client { offset = 2 }

abbrev tail : Wbuf
tail = record { len = 4; off = 1; buf = codes "abcd" }

http_wbuf_in_progress-FlushEnds_example :
    (n : Next) × (h' : Http) × (http_wbuf_in_progress client tail (wrote 2 ∷ []) ≡ returns (n, h'))
    × FlushEnds (client.out ++ drop 1 (codes "abcd")) client n h'
http_wbuf_in_progress-FlushEnds_example =
    http_wbuf_in_progress-FlushEnds client tail (wrote 2 ∷ []) (inl refl)

-- a parser that takes all for a request but three bytes, and the system for a GET
abbrev sys : System
sys = record {
  parse = λ h buf. (
    if length buf == 3 then parser_error else parser_done,
    no_error,
    record h { offset = length buf },
  );
  decode = λ b. none;
  msg_more = false;
  epoch = codes "1970";
  look = λ p. found ten_bytes;
  unlink = λ p. none;
  opener = record { rnd = λ n. codes "00000000"; pid = codes "1"; open_put_file = λ flags p. none };
  put = record disk_env { net = wrote 1000 ∷ [] };
  first_writes = [];
  content = codes "0123456789";
  sends = sent 4 ∷ [];
  reads = [];
  writes = [];
}

sys-OnlyParses : OnlyParses (handlers sys)
sys-OnlyParses = record { same_wbuf = λ h buf. refl; same_forward = λ h buf. refl }

abbrev asking : Http
asking = record client { input = request }

abbrev left_of : Run (Next × Http) → Option (Next × ℕ)
left_of (returns (n, h)) = some (n, elim h.forward [ none ↦ 0 | some f ↦ f.fsize - f.foff ])
left_of aborted = none

-- the first 4 of 10 bytes go out with the header
get_run :
    left_of (http_step (handlers sys) asking (codes "now") (got 99 ∷ []) []) ≡ some (next_active, 6)
unfolding http_step http_process_client http_forward_in_progress http_get_open get_path http_path
    valid_path trysend http_get_in_progress http_defer_rbuf http_get_resp_hdr decimal get_lookup
    http_processed get_header
get_run = refl

http_queue_step-Settled_example :
    Holds Settled (http_queue_step (handlers sys) asking (codes "now") (got 99 ∷ []) [])
http_queue_step-Settled_example =
    http_queue_step-Settled sys asking (codes "now") (got 99 ∷ []) [] sys-OnlyParses

abbrev confused : Http
confused = record client { input = codes "no/" }

abbrev unsent : Wbuf
unsent = wbuf_new (drop 5 (response (codes "400 Bad Request") false (codes "now")))

http_step-parse_error_example :
    http_step (handlers sys) confused (codes "now") (got 99 ∷ []) (wrote 5 ∷ []) ≡ aborted
unfolding wbuf_new
http_step-parse_error_example =
    http_step-parse_error (handlers sys) confused (record confused { input = []; offset = 3 })
      (codes "now") (codes "no/") (got 99 ∷ []) (wrote 5 ∷ []) no_error unsent refl refl refl refl
      (unfold http_read parse_step in refl)
      (unfold parse_error http_resp trywritev response in refl)
