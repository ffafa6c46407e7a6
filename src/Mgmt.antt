-- ===== src/Mgmt.antt =====
-- The sidechannel: a client sends requests line by line and gets an answer to each. mgmt.c is the
-- event loop's step, mgmt_parser.c the scanner, mgmt_fn.c the answers, digest.c the checksums.
pub mod State
pub mod Scan
pub mod Answers
pub mod Parse
pub mod Checksum
pub mod Loop
pub mod Requests
