-- ===== src/Tests/Putting.antt =====
-- PUT.
use cmogstored.Prelude.{Bytes, [], ◌∷◌, true, false, none, some, ◌≡◌, refl, ◌⊎◌, inr, arith, codes}
use cmogstored.Prelude.Int.{pos}
use cmogstored.Http.State.{Http, File, no_error, method_put, Next, returns}
use cmogstored.Http.Response.{http_path}
use cmogstored.Http.Dav.{is_httpget}
use cmogstored.Http.Lengths.{lengths_ok}
use cmogstored.Http.Put.{would_block, stored, got, md5_ok, put_commit_resp}
use cmogstored.Http.Put.Turns.{Turn, put_turns, put_turns-PutEnds}
use cmogstored.Http.Put.Commit.{Finished, commit_calls, commit_status, put_commit_resp-Finished}
use cmogstored.Http.Put.Body.{PutEnds}
use cmogstored.Http.Put.Start.{Opener, ChunkParser, parser_done, open_put, tmppath_for, http_put}
use cmogstored.Http.Put.Start.Opened.{
  Opened, Started, file_start, open_put-Opened, http_put-Started,
}
use cmogstored.Tests.{client, upload, disk_env}

abbrev uploading : Http
uploading = record client {
  http_method = method_put;
  forward = some upload;
  content_len = pos 5;
  input = codes "helloGET";
}

abbrev first_turn : Turn
first_turn = (stored 2 ∷ [], got 3 ∷ would_block ∷ [])

abbrev second_turn : Turn
second_turn = ([], got 9 ∷ [])

put_turns-PutEnds_example :
    (r : Next × Http) × (put_turns disk_env uploading upload first_turn (second_turn ∷ [])
      ≡ returns r)
    × PutEnds disk_env (codes "helloGET") 0 5 r.0 r.1
put_turns-PutEnds_example =
    put_turns-PutEnds disk_env (codes "helloGET") 0 5 uploading upload [] first_turn
      (second_turn ∷ []) (refl, inr (refl, refl)) refl
      (record { has = refl; placed = tt; foff_is = refl }) refl (omega arith)

put_commit_resp-Finished_example :
    Finished disk_env uploading
      (commit_calls
        (md5_ok disk_env uploading upload)
        disk_env
        (codes "/dev1/0.fid.tmp")
        (codes "/dev1/0.fid"))
      (commit_status (md5_ok disk_env uploading upload) disk_env)
      (put_commit_resp disk_env uploading upload)
put_commit_resp-Finished_example =
    put_commit_resp-Finished disk_env uploading upload (codes "/dev1/0.fid.tmp")
      (codes "/dev1/0.fid") refl refl refl

abbrev opener : Opener
opener = record { rnd = λ n. codes "00000000"; pid = codes "1"; open_put_file = λ flags p. none }

-- the file that `open_put` makes for an upload
abbrev fresh : File
fresh = record upload { tmppath = some (codes "/dev1/0.fid.00000000.1.tmp") }

open_put-Opened_example : Opened opener client (codes "/dev1/0.fid") fresh
unfolding open_put tmppath_for
open_put-Opened_example = open_put-Opened opener client (codes "/dev1/0.fid") fresh refl

abbrev starting : Http
starting = record client { http_method = method_put; content_len = pos 5; offset = 16 }

abbrev head_and_body : Bytes
head_and_body = codes "PUT /dev1/0.fid hel"

abbrev no_parser : ChunkParser
no_parser h buf disk = returns (parser_done, no_error, h, disk)

http_put-Started_example :
    (h' : Http) × (http_put no_parser disk_env opener starting head_and_body [] ≡ returns h')
    × (((path : Bytes) × (f : File) × (is_httpget starting.fd_type ≡ false)
          × ((http_path starting head_and_body).0 ≡ some path)
          × (lengths_ok starting ≡ true)
          × Opened opener starting path f
          × Started (file_start starting) starting head_and_body h')
        ⊎ (h'.forward ≡ none))
http_put-Started_example =
    http_put-Started no_parser disk_env opener starting head_and_body [] refl refl
