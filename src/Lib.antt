-- ===== src/Lib.antt =====
-- cmogstored is the storage server of MogileFS: an HTTP server that stores and sends files below a
-- document root, and a sidechannel for checksums and disk usage. This library models the HTTP
-- side, the sidechannel, and the tables that all clients share.
--
-- The parts, and the files that model them:
--   TryWrite        trywrite.c: the write buffer, mog_tryflush, mog_trywritev, mog_trysend
--   ValidPath       valid_path.c and valid_put_path.c, state by state
--   Http/State      cmogstored.h: struct mog_http and struct mog_file; mog_http_reset_parser
--   Http/Response   http.c: mog_http_resp0 and mog_http_path
--   Http/Range      http_get.c: the part of http_get_resp_hdr that chooses a range
--   Http/Get        http_get.c: the header, mog_http_get_open, mog_http_get_in_progress
--   Http/Lengths    http_parser.c and chunk_parser.c: how numbers are read; lengths_ok of http_put.c
--   Http/Put        http_put.c: identity_put_in_progress, mog_http_write_full and the commit
--   Http/Put/Start  http_put.c: mog_http_put, open_put and the body bytes that come with a header
--   Http/Put/Chunked  http_put.c: chunked_put_in_progress and mog_http_put_in_progress
--   Http/Chunk      chunk_parser.c: mog_chunk_parse, the states of sizes and data
--   Http/Trailer    chunk_parser.c: the states of the trailers
--   Http/Dav        http_dav.c: DELETE and MKCOL
--   Http/Loop       http.c: mog_http_queue_step and mog_http_quit_step; mog_rbuf_grow of alloc.c
--   Http/Dispatch   http.c: http_process_client and http_forward_in_progress, with the handlers
--   FsckQueue       fsck_queue.c: turns of MD5 requests on one device
--   IoUtil          ioutil.c: the table of disk utilization
--   MaxConns        maxconns.c: mog_set_maxconns
--   Mgmt/State      cmogstored.h: struct mog_mgmt; Mgmt/Scan, Mgmt/Parse  mgmt_parser.c: the scanner
--   Mgmt/Answers    mgmt_fn.c: the answers of the sidechannel
--   Mgmt/Checksum   digest.c: mog_digest_read; mgmt.c: the steps of a checksum
--   Mgmt/Loop       mgmt.c: mog_mgmt_queue_step and mog_mgmt_quit_step
--   Mgmt/Requests   the requests as a client writes them and what they ask for: a specification
--   Mkpath          mkpath_for.c: mog_mkpath_for; mkpath_open_put of file.c
--   Process         process.c: the registry of child processes
--   FdMap           fdmap.c: the slots of descriptors, expiry, and the requeue at shutdown
--   Prelude, Tests  shared lemmas; concrete data and the theorems at it
-- A child of a module holds the theorems on it; the modules named Turns under Http also say how
-- the event loop takes up an open file again. Http/Chunk/Decoder is the specification of chunked
-- bodies: a decoder that takes one byte after the other and knows nothing of buffers.
-- Http/Chunk/Coding relates it to the chunked coding of RFC 7230. The functions keep their names,
-- less the prefix "mog_".
--
-- How they work together: Http/Loop reads from a client and gives the buffer to the parser and
-- then to a handler, which it takes as a record of operations, `Handlers`. Http/Dispatch fills it:
-- Get, Put and Dav are the handlers; they check a path by ValidPath, answer by Response, which
-- writes by TryWrite, and leave an open file in `forward` for the following steps. Put gives a
-- chunked body to Chunk, which writes to the file itself, and goes on with Trailer behind the last
-- chunk. The file system, the socket and the clock are arguments.
--
-- State and bounds: a handler takes the client's state and returns the new one, with all bytes
-- that the socket has been given in `out`, all that it still holds in `input`, and the file system
-- calls in `calls`. The kernel is a list of answers, one to a call, and the loops recur on it;
-- after the last one a socket blocks, and a disk takes everything. So no loop needs fuel, but for
-- five: `chunk_exec` gets one turn more than the buffer has bytes, each turn takes a byte, and the
-- theorem on it holds for every number of turns above the number of bytes; `trailer_again` gets
-- one turn more than the buffer has bytes, which is enough since the line end rises each time;
-- `grow_ref` gets one turn more than the number of the descriptor, which is enough since each turn
-- adds 256 slots, `digest_until` gets one turn more than the answers of read(2) and the bytes that
-- are left to read, each turn takes one of either, and `retry` of MaxConns takes its number of
-- turns as an argument. A failing assertion that a theorem speaks of is the value `aborted`. In
-- the scanner these are the assertions on line_end and on the base64 decoder; its others hold by
-- the form of the model. The assertion of
-- mog_http_resp0 that nothing is buffered and the one of http_dav.c on the first byte of a path
-- are not in the model: handlers run only while nothing is buffered, and the paths that the parser
-- marks start with a slash. Numbers are natural numbers or integers; where the source depends on the
-- width of a word the wrap-around is written out.
--
-- Assumed of the other code: what `IsParser` and `OnlyParses` say of the HTTP parser. Hash tables,
-- which are gnulib's, are lists by their key. The MD5 of a text and the base64 decoder are
-- arguments. `Honest` says that a pwrite(2) that fails sets errno, and `Quiet` that each one
-- stores bytes. The theorem of Mkpath says what it asks of mkdir(2): it removes no name,
-- and a name for which it answers EEXIST exists. The sidechannel takes the checksum,
-- stat(2) and open(2) as the record `MgmtEnv`; a read(2) of a file gives an error or at least one
-- byte, unless the file is at its end, which is where it gives none.
--
-- Not modelled: the HTTP scanner, which is generated and is an argument here; the states 62 to 66
-- of the chunk scanner and 74 to 76 of the sidechannel's, which are never entered or only left to;
-- devices and mounts (svc_dev.c, dev.c, mnt.c); the wrappers of system calls in fs.c, and of
-- file.c what allocates; queues, threads and notifications (queue_loop.c, thrpool.c, notify.c and
-- the wrappers of epoll and kqueue); iostat, with mog_mgmt_fn_watch_err, which is called only
-- without it; configuration and start. Log messages, hints to the page cache and the freeing of
-- memory have no effect on the states here and are left out.
pub mod Prelude
pub mod TryWrite
pub mod ValidPath
pub mod Http
pub mod FsckQueue
pub mod IoUtil
pub mod MaxConns
pub mod Mgmt
pub mod Mkpath
pub mod Process
pub mod FdMap
pub mod Tests
