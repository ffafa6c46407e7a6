-- ===== src/Tests/Getting.antt =====
-- GET, ranges and the numbers of a header.
use cmogstored.Prelude.{
  ◌+◌, ◌-◌, ◌*◌, ◌^◌, Bytes, [], ◌∷◌, ◌++◌, true, none, some, ◌≡◌, refl, ◌↔◌, arith, codes,
}
use cmogstored.Prelude.Int.{pos, negsuc}
use cmogstored.TryWrite.{wrote, trysend}
use cmogstored.Http.State.{Http, File, returns, aborted}
use cmogstored.Http.Range.{partial, is_neg, choose_range, Serves, Wanted, choose_range-Serves}
use cmogstored.Http.Get.{Lookup, found, get_header, get_lookup, http_get_open, sent, interrupted}
use cmogstored.Http.Get.Transfer.{Sending, Ends}
use cmogstored.Http.Get.Turns.{get_turns, get_turns-Ends}
use cmogstored.Http.Get.Open.{
  reply_start, reply_end, get_lookup-Sending, http_get_open-aborts_iff, http_get_open-root_aborts,
}
use cmogstored.Http.Lengths.{length_incr}
use cmogstored.Http.Lengths.Overflow.{length_incr-missed}
use cmogstored.ValidPath.{valid_path}
use cmogstored.Http.Response.{http_path}
use cmogstored.Tests.{client, request, ten_bytes}

choose_range-Serves_example : Serves (partial 7 3) 10 8 ↔ Wanted (negsuc 0) (pos 3) 10 8
unfolding choose_range
choose_range-Serves_example = choose_range-Serves (negsuc 0) (pos 3) 10 (partial 7 3) 8 refl

abbrev content : Bytes
content = codes "0123456789"

abbrev asked : Http
asked = record client { has_range = true; range_beg = pos 2; range_end = pos 5 }

get_lookup-Sending_example :
    (h' : Http) × (f : File) × (get_lookup true asked
        (found ten_bytes)
        (codes "now")
        (wrote 1000 ∷ [])
      ≡ returns h')
    × Sending
        (asked.out ++ get_header (partial 2 4) ten_bytes asked.persistent)
        content
        (reply_start (partial 2 4))
        (reply_end (partial 2 4) 10)
        h'
        f
unfolding choose_range trysend get_header
get_lookup-Sending_example =
    get_lookup-Sending true asked ten_bytes (codes "now") content (wrote 1000 ∷ []) (partial 2 4)
      refl refl refl (λ e. cc) refl

abbrev open_file : File
open_file = record { fsize = 6; foff = 2; path = none; tmppath = none; digest = none; written = [] }

abbrev sending_client : Http
sending_client = record client { forward = some open_file }

get_turns-Ends_example :
    let r =
      get_turns sending_client open_file content (interrupted ∷ sent 3 ∷ []) ((sent 9 ∷ []) ∷ []) in
    Ends [] content 2 6 r.0 r.1
get_turns-Ends_example =
    get_turns-Ends [] content 2 6 sending_client open_file (interrupted ∷ sent 3 ∷ [])
      ((sent 9 ∷ []) ∷ [])
      (record {
        aimed = refl;
        fsize_is = refl;
        started = omega arith;
        within = omega arith;
        so_far = refl;
      })

abbrev last_none : Http
last_none = record client { has_range = true; range_beg = negsuc 0; range_end = pos 0 }

-- the path "/dev1/0.fid", and the path "/"
abbrev to_file : Http → Http
to_file h = record h { path_tip = 4; path_end = 15 }

abbrev to_root : Http → Http
to_root h = record h { path_tip = 4; path_end = 5 }

abbrev always : Bytes → Lookup
always path = found ten_bytes

http_get_open-aborts_iff_example :
    (http_get_open true (to_file last_none) request always (codes "now") (codes "then") []
      ≡ aborted)
    ↔ (((to_file last_none).has_range ≡ true)
        × (is_neg (to_file last_none).range_beg ≡ true)
        × ((to_file last_none).range_end ≡ pos 0))
http_get_open-aborts_iff_example =
    http_get_open-aborts_iff true (to_file last_none) request always (codes "now") (codes "then") []
      b'd' (codes "ev1/0.fid") ten_bytes refl refl (unfold http_path valid_path in refl) refl refl

http_get_open-root_aborts_example :
    http_get_open true (to_root asked) request always (codes "now") (codes "then") [] ≡ aborted
http_get_open-root_aborts_example =
    http_get_open-root_aborts true (to_root asked) request always (codes "now") (codes "then") []
      refl refl (unfold http_path valid_path in refl) refl refl refl

length_incr-missed_example :
    length_incr 2500000000000000000 0 ≡ some (2500000000000000000 * 10 + 0 - 2 ^ 64)
length_incr-missed_example = length_incr-missed 2500000000000000000 0 (omega arith) (omega arith)

abbrev ranged : Http
ranged = record client {
  has_content_range = true;
  range_beg = pos 2;
  range_end = pos 5;
  content_len = pos 4;
}
