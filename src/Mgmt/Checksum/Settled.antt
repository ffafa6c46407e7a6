-- ===== src/Mgmt/Checksum/Settled.antt =====
-- mgmt.c: how the step of a checksum leaves a client.
use cmogstored.Prelude.{List, ◌≡◌, refl, ◌⊎◌, inr}
use cmogstored.TryWrite.{Answer, WbufPtr, null, wr_error, buffered}
use cmogstored.FsckQueue.{fsck_queue_ready}
use cmogstored.Http.State.{
  Run, returns, aborted, ◌>>=◌, Next, next_close, next_active, next_wait_rd, next_wait_wr,
  next_ignore,
}
use cmogstored.Http.Runs.{Holds, IsBuffered, if_both}
use cmogstored.Mgmt.State.{Mgmt, Prio, prio_none, prio_fsck, Source}
use cmogstored.Mgmt.Answers.{MgmtEnv}
use cmogstored.Mgmt.Checksum.{FileRead, mgmt_digest_step, digest_ready, digest_turn, after_write}

-- How a step leaves a client. One that goes on at once, waits for a request, or waits for its turn
-- or for news of the disks has no answer on its way; one that waits until the socket takes bytes
-- has some for it; one whose connection closes has nothing buffered.
abbrev pub Settled : Next × Mgmt → Type 0
Settled (next_active, m) = m.wbuf ≡ null
Settled (next_wait_rd, m) = m.wbuf ≡ null
Settled (next_ignore, m) = m.wbuf ≡ null
Settled (next_wait_wr, m) = IsBuffered m.wbuf
Settled (next_close, m) = (m.wbuf ≡ null) ⊎ (m.wbuf ≡ wr_error)

pub after_write-Settled : (m : Mgmt) → Settled (after_write m)
unfolding after_write
after_write-Settled m = go m.wbuf refl
  where
    go :
        (p : WbufPtr)
        → m.wbuf ≡ p
        → Settled
            (elim p [ null ↦ next_active | wr_error ↦ next_close | buffered w ↦ next_wait_wr ], m)
    go null e = e
    go wr_error e = inr e
    go (buffered w) e = (w, e)

turn-Settled :
    (env : MgmtEnv) (m : Mgmt) (s : Source) (reads : List FileRead) (net : List Answer)
    → Holds Settled (digest_turn env m s reads net)
unfolding digest_turn
turn-Settled env m s reads net = go (mgmt_digest_step env m s reads net)
  where
    go : (r : Run Mgmt) → Holds Settled (do m' ← r; returns (after_write m'))
    go (returns m') = after_write-Settled m'
    go aborted = tt

pub ready-Settled :
    (env : MgmtEnv) (m : Mgmt) (s : Source) (reads : List FileRead) (net : List Answer) (p : Prio)
    → m.wbuf ≡ null
    → Holds Settled (digest_ready env m s reads net p)
unfolding digest_ready
ready-Settled env m s reads net prio_none e = turn-Settled env m s reads net
ready-Settled env m s reads net prio_fsck e =
    let r = fsck_queue_ready m.client s.st_dev m.queues in
    let m' : Mgmt = record m { queues = r.1 } in
    if_both (Holds Settled) r.0 (digest_turn env m' s reads net) (returns (next_ignore, m'))
      (turn-Settled env m' s reads net) e
