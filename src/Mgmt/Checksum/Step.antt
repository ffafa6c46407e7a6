-- ===== src/Mgmt/Checksum/Step.antt =====
-- mgmt.c: a step of a checksum either reads on, or answers and closes the file.
use mathlib.Core.Path.{subst}
use cmogstored.Prelude.{
  ℕ, ◌≤◌, length, ◌≢◌, Bytes, List, [], ◌∷◌, ◌++◌, ◌≡◌, refl, sym, ap, ◌∙◌, arith, Option, some,
  none,
}
use cmogstored.TryWrite.{Answer, null, WbufPtr}
use cmogstored.TryWrite.Send.{Delivers}
use cmogstored.FsckQueue.{FsckQueue, fsck_queue_next}
use cmogstored.Http.State.{Run, returns, ◌>>=◌}
use cmogstored.Mgmt.State.{
  Mgmt, Prio, prio_none, prio_fsck, alg_unset, Source, nothing, file, file_closed,
}
use cmogstored.Mgmt.Answers.{MgmtEnv, mgmt_fn_digest_emit, mgmt_fn_digest_err}
use cmogstored.Mgmt.Answers.Writes.{
  Replies, sum_of, err_line, digest_emit-Replies, digest_err-Replies,
}
use cmogstored.Mgmt.Checksum.{
  FileRead, digest_continue, digest_eof, digest_error, read_failed, ReadOn, digest_reads,
  digest_read, digest_until, digest_fuel, digest_result, digest_over, if_idle, turn_over, handed_on,
  mgmt_digest_step,
}
use cmogstored.Mgmt.Checksum.Reads.{
  IsHashed, ReadsTo, ReadEnds, digest_loop-ReadEnds, digest_until-ReadEnds,
}

-- The request is answered: the file is closed and forgotten, the reply is on its way, the turn is
-- handed on, and nothing else of the client has changed.
pub record Answered (m : Mgmt) (s : Source) (reply : Bytes) (m' : Mgmt) : Type 0 where
  pub forgotten : m'.forward ≡ nothing
  pub no_prio : m'.prio ≡ prio_none
  pub delivers : Delivers (m.out ++ reply) m'.wbuf m'.out
  pub closes : m'.calls ≡ m.calls ++ (file_closed ∷ [])
  pub turn : (m'.queues ≡ (turn_over m s).queues) × (m'.woken ≡ (turn_over m s).woken)
  pub stays :
      (m'.cs ≡ m.cs)
      × (m'.rbuf ≡ m.rbuf)
      × (m'.offset ≡ m.offset)
      × (m'.input ≡ m.input)
      × (m'.alg ≡ m.alg)

-- how the step of a checksum ends
pub data StepEnds (env : MgmtEnv) (m : Mgmt) (s : Source) (reads : List FileRead) (m' : Mgmt)
    : Type 0 where
  reads_on :
      (s' : Source) (left : List FileRead)
      → m' ≡ record m { forward = file s' }
      → m.prio ≡ prio_none
      → ReadEnds 1023 s reads (digest_continue, s', left)
      → StepEnds env m s reads m'
  answers :
      (at : ℕ) (left : List FileRead)
      → ReadsTo s.content s.at reads at left
      → length s.content ≤ at
      → Answered m s (sum_of env m.alg s.path s.content) m'
      → StepEnds env m s reads m'
  fails :
      (at : ℕ) (left : List FileRead)
      → ReadsTo s.content s.at reads at (read_failed ∷ left)
      → Answered m s (err_line s.path at) m'
      → StepEnds env m s reads m'

over_with :
    (m : Mgmt) (s s' : Source) (reply : Bytes) (w : WbufPtr) (o : Bytes)
    → s'.st_dev ≡ s.st_dev
    → Delivers (m.out ++ reply) w o
    → Answered m s reply (digest_over s' (record m { forward = file s'; wbuf = w; out = o }))
unfolding digest_over turn_over handed_on
over_with m s s' reply w o dev d =
    let same : handed_on m s' ≡ handed_on m s =
      ap
        (λ dev. elim m.prio as (λ p. Option ℕ × List FsckQueue) [
          | prio_none ↦ (none, m.queues)
          | prio_fsck ↦ fsck_queue_next dev m.queues
        ])
        dev in
    record {
      forgotten = refl;
      no_prio = refl;
      delivers = d;
      closes = refl;
      turn = (
        ap (λ (x : Option ℕ × List FsckQueue). x.1) same,
        ap
            (λ (x : Option ℕ × List FsckQueue). elim x.0 as (λ y. List ℕ) [
              | none ↦ m.woken
              | some c ↦ m.woken ++ (c ∷ [])
            ])
            same,
      );
      stays = (refl, refl, refl, refl, refl);
    }

over-Answered :
    (m : Mgmt) (s s' : Source) (reply : Bytes) (r : Run Mgmt)
    → s'.st_dev ≡ s.st_dev
    → Replies (record m { forward = file s' }) reply r
    → (m' : Mgmt) × ((do m2 ← r; returns (digest_over s' m2)) ≡ returns m') × Answered m s reply m'
over-Answered m s s' reply r dev (m2, e, same, d) = (
  digest_over s' m2,
  ap (λ (k : Run Mgmt). k >>= λ m2. returns (digest_over s' m2)) e,
  subst (λ k. Answered m s reply (digest_over s' k)) (sym same)
      (over_with m s s' reply m2.wbuf m2.out dev d),
)

pub eof-Answered :
    (env : MgmtEnv) (m : Mgmt) (s s' : Source) (reads left : List FileRead) (net : List Answer)
    (i : ℕ)
    → m.wbuf ≡ null
    → m.alg ≢ alg_unset
    → ReadEnds i s reads (digest_eof, s', left)
    → (m' : Mgmt) × (digest_result env m net (digest_eof, s', left) ≡ returns m')
      × Answered m s (sum_of env m.alg s.path s.content) m'
unfolding digest_result
eof-Answered env m s s' reads left net i w set e =
    let m1 = record m { forward = file s' } in
    let line : sum_of env m.alg s'.path s'.hashed ≡ sum_of env m.alg s.path s.content =
      ap (λ p. sum_of env m.alg p s'.hashed) e.same_path
      ∙ ap (sum_of env m.alg s.path) (e.at_end refl) in
    let (m', eq, a) =
      over-Answered m s s' _ (mgmt_fn_digest_emit env m1 s' net) e.same_dev
        (digest_emit-Replies env m1 s' net w set) in
    (
      m',
      ap (λ k. if_idle k (mgmt_fn_digest_emit env m1 s' net >>= λ m2. returns (digest_over s' m2)))
            w
          ∙ eq,
      subst (λ b. Answered m s b m') line a,
    )

result-StepEnds :
    (env : MgmtEnv) (m : Mgmt) (s : Source) (reads : List FileRead) (net : List Answer) (i : ℕ)
    (r : ReadOn)
    → m.wbuf ≡ null
    → m.alg ≢ alg_unset
    → ReadEnds i s reads r
    → ((r.0 ≡ digest_continue) → (m.prio ≡ prio_none) × ReadEnds 1023 s reads r)
    → (m' : Mgmt) × (digest_result env m net r ≡ returns m') × StepEnds env m s reads m'
unfolding digest_result
result-StepEnds env m s reads net i (digest_continue, s', left) w set e slow =
    let (none_yet, e') = slow refl in
    (
      record m { forward = file s' },
      ap (λ k. if_idle k (returns (record m { forward = file s' }))) w,
      reads_on s' left refl none_yet e',
    )
result-StepEnds env m s reads net i (digest_eof, s', left) w set e slow =
    let (m', eq, a) = eof-Answered env m s s' reads left net i w set e in
    let (before, run, stop) = e.reached in
    let all : length s.content ≤ s'.at = subst (λ b. length b ≤ s'.at) e.same_content stop in
    (m', eq, answers s'.at before run all a)
result-StepEnds env m s reads net i (digest_error, s', left) w set e slow =
    let m1 = record m { forward = file s' } in
    let (m', eq, a) =
      over-Answered m s s' _ (mgmt_fn_digest_err m1 s' net) e.same_dev
        (digest_err-Replies m1 s' net w) in
    (
      m',
      ap (λ k. if_idle k (mgmt_fn_digest_err m1 s' net >>= λ m2. returns (digest_over s' m2))) w
          ∙ eq,
      let (before, run, stop) = e.reached in
          fails s'.at left (subst (ReadsTo s.content s.at reads s'.at) stop run)
            (subst (λ p. Answered m s (err_line p s'.at) m') e.same_path a),
    )

-- A step of a checksum never aborts. A client of normal priority reads on, having read 1023 times,
-- or is answered; one with the priority fsck is answered at once, however long the file. Where the
-- reads come to the end of the file, the answer is the checksum of exactly its bytes; where a read
-- fails, the answer tells how far the reads before it came. The file is closed with the answer.
pub digest_step-StepEnds :
    (env : MgmtEnv) (m : Mgmt) (s : Source) (reads : List FileRead) (net : List Answer)
    → m.wbuf ≡ null
    → m.alg ≢ alg_unset
    → IsHashed s
    → (m' : Mgmt) × (mgmt_digest_step env m s reads net ≡ returns m') × StepEnds env m s reads m'
unfolding mgmt_digest_step digest_reads digest_read
digest_step-StepEnds env m s reads net w set h = go m.prio refl
  where
    go :
        (p : Prio)
        → m.prio ≡ p
        → (m' : Mgmt) × (digest_result env m net (digest_reads p s reads) ≡ returns m')
          × StepEnds env m s reads m'
    go prio_none e =
        let r = digest_loop-ReadEnds 1023 s reads h in
        result-StepEnds env m s reads net 1023 (digest_read s reads) w set r (λ z. (e, r))
    go prio_fsck e =
        let (r, ends) = digest_until-ReadEnds (digest_fuel s reads) s reads h (omega arith) in
        result-StepEnds env m s reads net 0 (digest_until (digest_fuel s reads) s reads) w set r
          (λ z. absurd (ends z))
