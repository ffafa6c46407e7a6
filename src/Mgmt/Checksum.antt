-- ===== src/Mgmt/Checksum.antt =====
-- digest.c: `mog_digest_read`; mgmt.c: the steps of a checksum.
pub mod Reads
pub mod Step
pub mod Turns
pub mod Settled
use cmogstored.Prelude.{
  ℕ, zero, suc, ◌+◌, ◌-◌, min, Bytes, List, [], ◌∷◌, ◌++◌, Bool, true, false, Option, none, some,
  if◌then◌else◌, length, take, drop,
}
use cmogstored.TryWrite.{Answer, WbufPtr, null, wr_error, buffered}
use cmogstored.FsckQueue.{FsckQueue, fsck_queue_ready, fsck_queue_next}
use cmogstored.Http.State.{
  Run, returns, aborted, ◌>>=◌, Next, next_close, next_active, next_wait_wr, next_ignore,
}
use cmogstored.Http.Put.{fsbuf_size}
use cmogstored.Mgmt.State.{
  Mgmt, Prio, prio_none, prio_fsck, Source, Forward, nothing, iostat, file, file_closed,
}
use cmogstored.Mgmt.Answers.{MgmtEnv, mgmt_fn_digest_emit, mgmt_fn_digest_err}

-- What read(2) does on a file: it gives some bytes, one at least where there is one, or EINTR, or
-- another error. Of `n` there come n + 1 bytes, if there are so many.
pub data FileRead : Type 0 where
  some_bytes : ℕ → FileRead
  read_interrupted read_failed : FileRead

-- enum mog_digest_next
pub data DigestNext : Type 0 where
  digest_continue digest_eof digest_error : DigestNext

-- the bytes of one read(2)
unfoldable pub read_bytes : Source → ℕ → Bytes
read_bytes s n = take (min (suc n) fsbuf_size) (drop s.at s.content)

unfoldable pub digest_write : Source → Bytes → Source
digest_write s chunk = record s { at = s.at + length chunk; hashed = s.hashed ++ chunk }

-- What is left of the answers goes with the result.
abbrev pub ReadOn : Type 0
ReadOn = DigestNext × Source × List FileRead

-- one round of the loop; `again` is the next one
unfoldable pub digest_round : Source → FileRead → List FileRead → (Source → ReadOn) → ReadOn
unfolding read_bytes digest_write
digest_round s (some_bytes n) reads again = elim (read_bytes s n) [
  | [] ↦ (digest_eof, s, reads)
  | c ∷ cs ↦ again (digest_write s (c ∷ cs))
]
digest_round s read_interrupted reads again = again s
digest_round s read_failed reads again = (digest_error, s, reads)

-- The loop of `mog_digest_read` with `i` rounds left; after its last answer the kernel fills the
-- buffer each time.
unfoldable pub digest_loop : ℕ → Source → List FileRead → ReadOn
unfolding digest_round
digest_loop zero s reads = (digest_continue, s, reads)
digest_loop (suc i) s [] = digest_round s (some_bytes fsbuf_size) [] (λ s'. digest_loop i s' [])
digest_loop (suc i) s (k ∷ reads) = digest_round s k reads (λ s'. digest_loop i s' reads)

-- `mog_digest_read`: while (--i > 0), from 1024
unfoldable pub digest_read : Source → List FileRead → ReadOn
unfolding digest_loop
digest_read s reads = digest_loop 1023 s reads

-- the loop of `mgmt_digest_step` for the priority fsck, on fuel
unfoldable pub digest_until : ℕ → Source → List FileRead → ReadOn
digest_until zero s reads = (digest_continue, s, reads)
digest_until (suc fuel) s reads =
    let (next, s', left) = digest_read s reads in
    elim next [
      | digest_continue ↦ digest_until fuel s' left
      | digest_eof ↦ (digest_eof, s', left)
      | digest_error ↦ (digest_error, s', left)
    ]

-- a call of `mog_digest_read` ends the loop, uses up an answer, or reads a byte
abbrev pub digest_fuel : Source → List FileRead → ℕ
digest_fuel s reads = suc (length reads + length (drop s.at s.content))

-- the reading in `mgmt_digest_step`
unfoldable pub digest_reads : Prio → Source → List FileRead → ReadOn
digest_reads prio_fsck s reads = digest_until (digest_fuel s reads) s reads
digest_reads prio_none s reads = digest_read s reads

-- `mog_fsck_queue_next`, for a client with that priority
unfoldable pub handed_on : Mgmt → Source → Option ℕ × List FsckQueue
handed_on m s = elim m.prio [
  | prio_none ↦ (none, m.queues)
  | prio_fsck ↦ fsck_queue_next s.st_dev m.queues
]

unfoldable pub turn_over : Mgmt → Source → Mgmt
unfolding handed_on
turn_over m s = record m {
  queues = (handed_on m s).1;
  woken = elim (handed_on m s).0 [ none ↦ m.woken | some c ↦ m.woken ++ (c ∷ []) ];
}

-- the end of `mgmt_digest_step`
unfoldable pub digest_over : Source → Mgmt → Mgmt
unfolding turn_over
digest_over s m = record (turn_over m s) {
  calls = m.calls ++ (file_closed ∷ []);
  prio = prio_none;
  forward = nothing;
}

-- an assertion that there is no write buffer
abbrev pub if_idle : WbufPtr → Run Mgmt → Run Mgmt
if_idle null r = r
if_idle wr_error r = aborted
if_idle (buffered w) r = aborted

-- `mgmt_digest_step` after the reads, with the assertion "wbuf should be NULL here"
unfoldable pub digest_result : MgmtEnv → Mgmt → List Answer → ReadOn → Run Mgmt
unfolding digest_over
digest_result env m net (next, s, reads) =
    let m' = record m { forward = file s } in
    let answered : Run Mgmt = elim next [
      | digest_continue ↦ returns m'
      | digest_eof ↦ (do m2 ← mgmt_fn_digest_emit env m' s net; returns (digest_over s m2))
      | digest_error ↦ (do m2 ← mgmt_fn_digest_err m' s net; returns (digest_over s m2))
    ] in
    if_idle m.wbuf answered

unfoldable pub mgmt_digest_step : MgmtEnv → Mgmt → Source → List FileRead → List Answer → Run Mgmt
unfolding digest_result digest_reads
mgmt_digest_step env m s reads net = digest_result env m net (digest_reads m.prio s reads)

-- the result of a step that has written
unfoldable pub after_write : Mgmt → Next × Mgmt
after_write m =
    (elim m.wbuf [ null ↦ next_active | wr_error ↦ next_close | buffered w ↦ next_wait_wr ], m)

-- `mgmt_digest_in_progress` once it is the client's turn
unfoldable pub digest_turn :
    MgmtEnv → Mgmt → Source → List FileRead → List Answer → Run (Next × Mgmt)
unfolding mgmt_digest_step after_write
digest_turn env m s reads net = do m' ← mgmt_digest_step env m s reads net; returns (after_write m')

-- whose turn it is
unfoldable pub digest_ready :
    MgmtEnv → Mgmt → Source → List FileRead → List Answer → Prio → Run (Next × Mgmt)
unfolding digest_turn
digest_ready env m s reads net prio_none = digest_turn env m s reads net
digest_ready env m s reads net prio_fsck =
    let (ready, queues) = fsck_queue_ready m.client s.st_dev m.queues in
    let m' = record m { queues = queues } in
    if ready then digest_turn env m' s reads net else returns (next_ignore, m')

-- `mgmt_digest_in_progress`, given mgmt->forward, with the assertion "bad forward"
unfoldable pub mgmt_digest_in_progress :
    MgmtEnv → Mgmt → List FileRead → List Answer → Forward → Run (Next × Mgmt)
unfolding digest_ready
mgmt_digest_in_progress env m reads net nothing = aborted
mgmt_digest_in_progress env m reads net iostat = aborted
mgmt_digest_in_progress env m reads net (file s) = digest_ready env m s reads net m.prio
