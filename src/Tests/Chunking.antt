-- ===== src/Tests/Chunking.antt =====
-- Chunked bodies.
use cmogstored.Prelude.{
  Bytes, List, [], ◌∷◌, ◌++◌, Option, true, false, some, ◌≡◌, refl, ◌⊎◌, arith, codes, length, take,
  drop,
}
use cmogstored.Prelude.Int.{pos}
use cmogstored.TryWrite.{buffered}
use cmogstored.Http.State.{
  http_reset, Http, File, method_put, Next, Run, returns, aborted, chunk_data, chunk_trailer, cs16,
}
use cmogstored.Http.Put.{
  stored, interrupted, Recv, got, would_block, equal_bytes, file_close_null, http_put_commit,
  md5_ok, put_commit_resp, set_perms_commit, stop, write_err, write_full, write_loop,
}
use cmogstored.Http.Put.Body.{Holds}
use cmogstored.Http.Put.Start.{stash_rest, stash_ok, chunked_body_after_header}
use cmogstored.Http.Trailer.{trailer_run, trailer_again, trailer_scan, trailer_step}
use cmogstored.Http.Chunk.{chunk_parse, chunk_exec, size_step, chunk_result, errno_loop}
use cmogstored.Http.Chunk.Decoder.{d1, data_, dec_run}
use cmogstored.Http.Put.Chunked.{
  chunked_put_in_progress, before_read, after_read, line_read, after_parse, parsed_in, data_read,
}
use cmogstored.Http.Response.{http_resp, response}
use cmogstored.TryWrite.{total_len, trywritev}
use cmogstored.Http.Trailer
use cmogstored.Http.Trailer.Ends.{trailer_run-short_name}
use cmogstored.Http.Lengths.{hexchar2off, chunk_size_incr}
use cmogstored.Http.Chunk.Decoder.{dec_run-nil}
use cmogstored.Http.Chunk.Coding.{Coded, chunk, last_chunk, HexDigit, HexSize, more}
use cmogstored.Http.Chunk.Outcome.{Parsed, ParseRun}
use cmogstored.Http.Chunk.Parse.{chunk_parse-ParseRun}
use cmogstored.Http.Chunk.Whole.{chunk_parse-Coded}
use cmogstored.Http.Put.Start.{parser_done, parser_continue, stash_advance_rbuf, chunk_init}
use cmogstored.Http.Put.Chunked.Feeds.{Feeds, in_line, ChunkedEnds}
use cmogstored.Http.Put.Turns.{Turn}
use cmogstored.Http.Put.Chunked.Turns.{chunked_turns, chunked_turns-TurnEnds}
use cmogstored.Http.Put.Chunked.Header.{HeaderEnds, chunked_header-HeaderEnds}
use cmogstored.Tests.{client, upload, disk_env}

-- a base64 decoder that accepts all
abbrev decode : Bytes → Option Bytes
decode b = some b

abbrev crlf : Bytes
crlf = 13 ∷ 10 ∷ []

-- "4", "wiki", "0" and an empty trailer
abbrev message : Bytes
message = codes "4" ++ (crlf ++ (codes "wiki" ++ (crlf ++ (codes "0" ++ (crlf ++ crlf)))))

abbrev uploading : Http
uploading = record client {
  http_method = method_put;
  chunked = true;
  forward = some upload;
  input = message;
}

abbrev status_of : Run (Next × Http) → Bytes
status_of (returns (n, h)) = elim h.wbuf [ buffered w ↦ take 3 (drop 9 w.buf) | _ ↦ [] ]
status_of aborted = codes "aborted"

-- the status for a body that comes in these reads
abbrev answer : Bytes → List Recv → Bytes
answer stream ks =
    status_of
      (chunked_put_in_progress decode disk_env (record uploading { input = stream }) false [] ks)

-- "Foo: bar" and "Baz: q"
abbrev two_trailers : Bytes
two_trailers =
    codes "0" ++ (crlf ++ (codes "Foo: bar" ++ (crlf ++ (codes "Baz: q" ++ (crlf ++ crlf)))))

-- "Foo: bar" and the start of Content-MD5
abbrev md5_trailer : Bytes
md5_trailer = codes "0" ++ (crlf ++ (codes "Foo: bar" ++ (crlf ++ codes "Content-MD5: AAAAAAA")))

-- "ConX: y"
abbrev con_trailer : Bytes
con_trailer = codes "0" ++ (crlf ++ (codes "ConX: y" ++ (crlf ++ crlf)))

abbrev interrupted_status : Bytes
interrupted_status =
    status_of
      (chunked_put_in_progress decode disk_env uploading false (interrupted ∷ []) (got 100 ∷ []))

-- A chunk in three reads. Two trailers in one read, and a read that ends with the first one, before
-- the second one or before a part of Content-MD5: then
-- `stash_advance_rbuf` frees the buffer and leaves `line_end` as it is, and the assertion on it fails.
-- A trailer in one read, and one that is split where its name still could be "Content-MD5": then
-- `stash_advance_rbuf` drops the start of the name. A pwrite(2) that a signal interrupts before it
-- stores all.
chunked_runs :
    (answer message (got 5 ∷ got 1 ∷ got 100 ∷ got 100 ∷ []) ≡ codes "201")
    × (answer two_trailers (got 100 ∷ []) ≡ codes "201")
    × (answer two_trailers (got 13 ∷ got 100 ∷ []) ≡ codes "aborted")
    × (answer md5_trailer (got 13 ∷ got 20 ∷ []) ≡ codes "aborted")
    × (answer con_trailer (got 100 ∷ []) ≡ codes "201")
    × (answer con_trailer (got 3 ∷ got 3 ∷ got 100 ∷ []) ≡ codes "400")
    × (interrupted_status ≡ codes "400")
unfolding chunked_put_in_progress before_read after_read line_read chunk_parse chunk_exec size_step
    hexchar2off chunk_size_incr trailer_run trailer_again trailer_scan trailer_step after_parse
    chunk_result parsed_in stash_advance_rbuf stash_rest stash_ok errno_loop data_read chunk_init
    equal_bytes file_close_null http_put_commit md5_ok put_commit_resp set_perms_commit stop
    write_err write_full write_loop http_resp response http_reset total_len trywritev
chunked_runs = (refl, refl, refl, refl, refl, refl, refl)

upload-Holds : Holds 0 upload []
upload-Holds = record { has = refl; placed = tt; foff_is = refl }

uploading-Feeds : Feeds message 0 uploading
uploading-Feeds =
    in_line upload [] [] d1 (dec_run-nil d1) refl refl upload-Holds refl (refl, refl, refl) refl
      refl refl

-- six bytes in the first turn, the rest in the second
chunked_turns-TurnEnds_example :
    let first : Turn = ([], got 5 ∷ got 1 ∷ would_block ∷ []) in
    let r = chunked_turns decode disk_env uploading first (([], got 100 ∷ got 100 ∷ []) ∷ []) in
    ((q : Next × Http) × (r ≡ returns q) × ChunkedEnds disk_env message 0 q.0 q.1)
    ⊎ ((r ≡ aborted) × ((dec_run d1 message).0 ≡ data_ 0))
chunked_turns-TurnEnds_example =
    chunked_turns-TurnEnds decode disk_env message 0 (([], got 100 ∷ got 100 ∷ []) ∷ []) uploading
      ([], got 5 ∷ got 1 ∷ would_block ∷ []) uploading-Feeds (tt, (tt, tt))

chunked_header-HeaderEnds_example :
    let r = chunked_body_after_header (chunk_parse decode) disk_env uploading message [] in
    ((h' : Http) × (r ≡ returns h') × HeaderEnds disk_env (message ++ message) 0 message h')
    ⊎ ((r ≡ aborted) × ((dec_run d1 (message ++ message)).0 ≡ data_ 0))
chunked_header-HeaderEnds_example =
    chunked_header-HeaderEnds decode disk_env uploading upload message [] 0 refl upload-Holds
      (omega arith) (omega arith) refl refl tt

-- "4", "wiki" and "0"
abbrev coded : Bytes
coded = codes "4" ++ (crlf ++ (codes "wiki" ++ (crlf ++ (codes "0" ++ crlf))))

coded-Coded : Coded coded (codes "wiki")
coded-Coded =
    chunk b'4' [] [] (codes "wiki") (codes "0" ++ crlf) []
      (more 0 52 4 4 [] (HexDigit.decimal 4 (omega arith)) (HexSize.no_more 4)) (omega arith)
      (omega arith) tt
      (last_chunk b'0' [] []
        (more 0 48 0 0 [] (HexDigit.decimal 0 (omega arith)) (HexSize.no_more 0)) tt)

chunk_parse-Coded_example :
    (q : Parsed) × (f' : File) × (chunk_parse decode uploading coded (stored 3 ∷ []) ≡ returns q)
    × ((q.0 ≡ parser_done) ⊎ (q.0 ≡ parser_continue))
    × (q.2.forward ≡ some f')
    × Holds 0 f' (codes "wiki")
    × (q.2.content_len ≡ pos 0)
    × (q.2.chunk_state ≡ chunk_data)
chunk_parse-Coded_example =
    chunk_parse-Coded decode uploading coded coded (codes "wiki") (stored 3 ∷ []) 0 upload
      (refl, refl, refl) refl upload-Holds (omega arith) refl coded-Coded tt (omega arith, tt)

chunk_parse-ParseRun_example :
    let r = dec_run d1 message in
    ParseRun
      (length message)
      0
      uploading
      []
      ([] ++ r.1)
      r.0
      r.2
      (chunk_parse decode uploading message [])
chunk_parse-ParseRun_example =
    chunk_parse-ParseRun decode uploading message [] 0 upload [] d1 (refl, refl, refl) refl
      upload-Holds (omega arith) tt

abbrev in_trailer : Http
in_trailer = record uploading { chunk_state = chunk_trailer; cs = cs16 }

trailer_run-short_name_example :
    trailer_run decode (b'X' ∷ b':' ∷ codes " y") cs16 0 in_trailer
    ≡ Trailer.Scan.refused in_trailer
trailer_run-short_name_example =
    trailer_run-short_name decode b'X' (codes " y") in_trailer refl refl
