-- ===== src/FsckQueue.antt =====
-- fsck_queue.c: at most `max_active` MD5 requests with fsck priority run on one device; the
-- others wait in a queue for their turn. The locks make each operation one step.
pub mod Turns
use cmogstored.Prelude.{
  ℕ, ◌+◌, ◌-◌, ◌%◌, ◌^◌, List, [], ◌∷◌, ◌++◌, Bool, true, false, Option, none, some, ltb, ◌==◌,
  if◌then◌else◌,
}

-- struct fsck_queue; a client stands for its mog_mgmt
pub record FsckQueue : Type 0 where
  pub st_dev : ℕ
  pub qhead : List ℕ
  pub active : ℕ
  pub max_active : ℕ

abbrev pub new_queue : ℕ → FsckQueue
new_queue dev = record { st_dev = dev; qhead = []; active = 0; max_active = 1 }

-- `fsck_queues`, by `st_dev`
unfoldable pub fsck_queue_for : ℕ → List FsckQueue → FsckQueue
fsck_queue_for dev [] = new_queue dev
fsck_queue_for dev (fq ∷ fqs) =
    let rest = fsck_queue_for dev fqs in if fq.st_dev == dev then fq else rest

-- the table after a change to the queue of one device, which is made where it is not there yet
unfoldable pub put_queue : FsckQueue → List FsckQueue → List FsckQueue
put_queue new [] = new ∷ []
put_queue new (fq ∷ fqs) =
    let rest = put_queue new fqs in if fq.st_dev == new.st_dev then new ∷ fqs else fq ∷ rest

-- what `mog_fsck_queue_ready` does under `qlock`
unfoldable pub enter : ℕ → FsckQueue → Bool × FsckQueue
enter client fq =
    if ltb fq.active fq.max_active
    then (true, record fq { active = fq.active + 1 })
    else (false, record fq { qhead = fq.qhead ++ client ∷ [] })

-- fq->active--, on a size_t
abbrev pub decrement : ℕ → ℕ
decrement n = (n + (2 ^ 64 - 1)) % 2 ^ 64

-- what `mog_fsck_queue_next` does under `qlock`: the client to push to the active queue, if any
unfoldable pub leave : FsckQueue → Option ℕ × FsckQueue
leave fq =
    if ltb (decrement fq.active) fq.max_active
    then elim fq.qhead [
      | [] ↦ (none, record fq { active = decrement fq.active })
      | client ∷ waiting ↦
          (some client, record fq { qhead = waiting; active = decrement fq.active })
    ]
    else (none, record fq { active = decrement fq.active })

-- `dev` is the fstat(2) of the open file; where that fails the client runs, and is not counted
unfoldable pub fsck_queue_ready : ℕ → Option ℕ → List FsckQueue → Bool × List FsckQueue
unfolding enter
fsck_queue_ready client none fqs = (true, fqs)
fsck_queue_ready client (some dev) fqs =
    let (rv, fq) = enter client (fsck_queue_for dev fqs) in (rv, put_queue fq fqs)

unfoldable pub fsck_queue_next : Option ℕ → List FsckQueue → Option ℕ × List FsckQueue
unfolding leave
fsck_queue_next none fqs = (none, fqs)
fsck_queue_next (some dev) fqs =
    let (next, fq) = leave (fsck_queue_for dev fqs) in (next, put_queue fq fqs)
