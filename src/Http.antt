-- ===== src/Http.antt =====
-- cmogstored.h and http.c: the state of an HTTP client, its responses, and what the event loop
-- does with it. The handlers are in the child modules.
-- The socket is what it has been given (`out`) and what it holds (`input`); the file system is a
-- list of the calls made on it (`calls`). A failed assert(3) is the result `aborted`.
pub mod State
pub mod Runs
pub mod Response
pub mod Range
pub mod Lengths
pub mod Get
pub mod Put
pub mod Dav
pub mod Dispatch
pub mod Loop
pub mod Trailer
pub mod Chunk
