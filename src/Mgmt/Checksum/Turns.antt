-- ===== src/Mgmt/Checksum/Turns.antt =====
-- mgmt.c: a checksum of normal priority over the turns of the event loop.
use mathlib.Core.Path.{subst}
use cmogstored.Prelude.{
  ℕ, zero, suc, ◌+◌, ◌*◌, ◌≤◌, ◌<◌, ◌≢◌, Bytes, List, [], ◌∷◌, ◌≡◌, refl, ap, ◌∙◌, arith, length,
}
use cmogstored.TryWrite.{Answer, null}
use cmogstored.Http.State.{Run, returns, ◌>>=◌, Next}
use cmogstored.Http.Put.{fsbuf_size}
use cmogstored.Mgmt.State.{Mgmt, prio_none, alg_unset, Source, Forward, nothing, iostat, file}
use cmogstored.Mgmt.Answers.{MgmtEnv}
use cmogstored.Mgmt.Answers.Writes.{sum_of}
use cmogstored.Mgmt.Checksum.{
  FileRead, some_bytes, digest_continue, digest_eof, digest_error, ReadOn, read_bytes, digest_write,
  digest_round, digest_loop, digest_read, digest_result, handed_on, turn_over, mgmt_digest_step,
  mgmt_digest_in_progress, digest_turn, digest_ready, digest_reads, if_idle, after_write,
}
use cmogstored.Mgmt.Checksum.Reads.{
  IsHashed, left_of, ReadEnds, digest_loop-ReadEnds, digest_write-shorter,
}
use cmogstored.Mgmt.Checksum.Step.{Answered, eof-Answered}
use cmogstored.Mgmt.Loop.{mgmt_queue_step, wbuf_step, forward_step}

-- what the system answers in a turn
abbrev pub Turn : Type 0
Turn = List FileRead × List Answer

-- The steps of a client until its file is closed, or for as many turns as there are.
abbrev while_at : (Mgmt → Run (Next × Mgmt)) → Next × Mgmt → Forward → Run (Next × Mgmt)
while_at again r nothing = returns r
while_at again r iostat = returns r
while_at again r (file s) = again r.1

abbrev pub while_open : (Mgmt → Run (Next × Mgmt)) → Next × Mgmt → Run (Next × Mgmt)
while_open again r = while_at again r r.1.forward

unfoldable pub digest_turns : MgmtEnv → Mgmt → Turn → List Turn → Run (Next × Mgmt)
digest_turns env m t [] = mgmt_queue_step env m [] t.0 t.1
digest_turns env m t (t' ∷ ts) =
    mgmt_queue_step env m [] t.0 t.1 >>= while_open (λ m'. digest_turns env m' t' ts)

-- each read(2) gives bytes, where there are any
abbrev pub AllBytes : List FileRead → Type 0
AllBytes [] = Unit
AllBytes (some_bytes n ∷ reads) = AllBytes reads
AllBytes (_ ∷ reads) = ⊥

abbrev pub AllQuiet : List Turn → Type 0
AllQuiet [] = Unit
AllQuiet (t ∷ ts) = AllBytes t.0 × AllQuiet ts

-- a call that reads on has read a byte in each round
abbrev Reads : ℕ → Source → ReadOn → Type 0
Reads i s r = (r.0 ≢ digest_error) × ((r.0 ≡ digest_continue) → i + left_of r.1 ≤ left_of s)

round-Reads :
    (i : ℕ) (s : Source) (n : ℕ) (reads : List FileRead) (again : Source → ReadOn) (chunk : Bytes)
    → read_bytes s n ≡ chunk
    → ((s' : Source) → Reads i s' (again s'))
    → Reads
        (suc i)
        s
        (elim chunk [ [] ↦ (digest_eof, s, reads) | c ∷ cs ↦ again (digest_write s (c ∷ cs)) ])
round-Reads i s n reads again [] e ih = ((λ z. cc), λ z. cc)
round-Reads i s n reads again (c ∷ cs) e ih =
    let (never, fewer) = ih (digest_write s (c ∷ cs)) in
    (never, λ z. omega (arith, fewer z, digest_write-shorter s n c cs e))

digest_loop-Reads :
    (i : ℕ) (s : Source) (reads : List FileRead)
    → AllBytes reads
    → Reads i s (digest_loop i s reads)
unfolding digest_loop digest_round
digest_loop-Reads zero s reads q = ((λ z. cc), λ z. omega arith)
digest_loop-Reads (suc i) s [] q =
    round-Reads i s fsbuf_size [] (λ s'. digest_loop i s' []) (read_bytes s fsbuf_size) refl
      (λ s'. digest_loop-Reads i s' [] tt)
digest_loop-Reads (suc i) s (some_bytes n ∷ reads) q =
    round-Reads i s n reads (λ s'. digest_loop i s' reads) (read_bytes s n) refl
      (λ s'. digest_loop-Reads i s' reads q)
digest_loop-Reads (suc i) s (_ ∷ reads) q = elim q [ ]

-- a client whose file is read with normal priority
pub record IsReading (m : Mgmt) (s : Source) : Type 0 where
  pub open_file : m.forward ≡ file s
  pub normal : m.prio ≡ prio_none
  pub unwritten : m.wbuf ≡ null
  pub known : m.alg ≢ alg_unset
  pub prefix : IsHashed s

step-digest :
    (env : MgmtEnv) (m : Mgmt) (s : Source) (reads : List FileRead) (net : List Answer)
    → IsReading m s
    → mgmt_queue_step env m [] reads net
      ≡ (mgmt_digest_step env m s reads net >>= λ m'. returns (after_write m'))
unfolding mgmt_queue_step mgmt_digest_in_progress digest_turn
step-digest env m s reads net r =
    ap (wbuf_step env m [] reads net) r.unwritten
    ∙ ap (forward_step env m [] reads net) r.open_file
    ∙ ap (digest_ready env m s reads net) r.normal

-- where it answers, it answers for the client as it was before the reads
carry :
    (m : Mgmt) (s s' : Source) (reply : Bytes) (m' : Mgmt)
    → s'.st_dev ≡ s.st_dev
    → Answered (record m { forward = file s' }) s' reply m'
    → Answered m s reply m'
unfolding turn_over handed_on
carry m s s' reply m' dev a = record {
  forgotten = a.forgotten;
  no_prio = a.no_prio;
  delivers = a.delivers;
  closes = a.closes;
  turn =
      subst
        (λ d.
          (m'.queues ≡ (turn_over m (record s' { st_dev = d })).queues)
          × (m'.woken ≡ (turn_over m (record s' { st_dev = d })).woken))
        dev a.turn;
  stays = a.stays;
}

-- How a turn ends while every read(2) gives bytes: the file is read on by 1023 bytes at least, or
-- it is answered for.
data QuietEnds (env : MgmtEnv) (m : Mgmt) (s : Source) (m' : Mgmt) : Type 0 where
  nearer :
      (s' : Source)
      → m' ≡ record m { forward = file s' }
      → IsHashed s'
      → s'.path ≡ s.path
      → s'.content ≡ s.content
      → s'.st_dev ≡ s.st_dev
      → 1023 + left_of s' ≤ left_of s
      → QuietEnds env m s m'
  answered : Answered m s (sum_of env m.alg s.path s.content) m' → QuietEnds env m s m'

result-QuietEnds :
    (env : MgmtEnv) (m : Mgmt) (s : Source) (reads : List FileRead) (net : List Answer) (r : ReadOn)
    → m.wbuf ≡ null
    → m.alg ≢ alg_unset
    → ReadEnds 1023 s reads r
    → Reads 1023 s r
    → (m' : Mgmt) × (digest_result env m net r ≡ returns m') × QuietEnds env m s m'
unfolding digest_result
result-QuietEnds env m s reads net (digest_continue, s', left) w set e (never, fewer) =
    let m' = record m { forward = file s' } in
    (
      m',
      ap (λ k. if_idle k (returns m')) w,
      nearer s' refl e.hashed e.same_path e.same_content e.same_dev (fewer refl),
    )
result-QuietEnds env m s reads net (digest_eof, s', left) w set e q =
    let (m', eq, a) = eof-Answered env m s s' reads left net 1023 w set e in (m', eq, answered a)
result-QuietEnds env m s reads net (digest_error, s', left) w set e (never, fewer) =
    absurd (never refl)

quiet_step :
    (env : MgmtEnv) (m : Mgmt) (s : Source) (reads : List FileRead) (net : List Answer)
    → IsReading m s
    → AllBytes reads
    → (m' : Mgmt) × (mgmt_queue_step env m [] reads net ≡ returns (after_write m'))
      × QuietEnds env m s m'
unfolding mgmt_digest_step digest_reads digest_read
quiet_step env m s reads net r q =
    let (m', e, ends) =
      result-QuietEnds env m s reads net (digest_loop 1023 s reads) r.unwritten r.known
        (digest_loop-ReadEnds 1023 s reads r.prefix) (digest_loop-Reads 1023 s reads q) in
    (
      m',
      step-digest env m s reads net r
          ∙ ap
              (λ p.
                digest_result env m net (digest_reads p s reads) >>= λ k. returns (after_write k))
              r.normal
          ∙ ap (λ (k : Run Mgmt). k >>= λ k'. returns (after_write k')) e,
      ends,
    )

-- a turn, where the following ones answer for what is left
on_turn :
    (env : MgmtEnv) (m : Mgmt) (s : Source) (t : Turn)
    → IsReading m s
    → AllBytes t.0
    → (again : Mgmt → Run (Next × Mgmt))
    → ((m' : Mgmt) (s' : Source)
        → IsReading m' s'
        → 1023 + left_of s' ≤ left_of s
        → (m2 : Mgmt) × (again m' ≡ returns (after_write m2))
          × Answered m' s' (sum_of env m'.alg s'.path s'.content) m2)
    → (m2 : Mgmt) × ((mgmt_queue_step env m [] t.0 t.1 >>= while_open again)
        ≡ returns (after_write m2))
      × Answered m s (sum_of env m.alg s.path s.content) m2
unfolding after_write
on_turn env m s t r q again next = go (quiet_step env m s t.0 t.1 r q)
  where
    go :
        (m' : Mgmt) × (mgmt_queue_step env m [] t.0 t.1 ≡ returns (after_write m'))
          × QuietEnds env m s m'
        → (m2 : Mgmt) × ((mgmt_queue_step env m [] t.0 t.1 >>= while_open again)
            ≡ returns (after_write m2))
          × Answered m s (sum_of env m.alg s.path s.content) m2
    go (m', e, answered a) = (
      m',
      ap (λ (k : Run (Next × Mgmt)). k >>= while_open again) e
          ∙ ap (while_at again (after_write m')) a.forgotten,
      a,
    )
    go (m', e, nearer s' same hashed path content dev fewer) =
        let m1 : Mgmt = record m { forward = file s' } in
        let r1 : IsReading m1 s' = record {
          open_file = refl;
          normal = r.normal;
          unwritten = r.unwritten;
          known = r.known;
          prefix = hashed;
        } in
        let (m2, e2, a) = next m1 s' r1 fewer in
        let line : sum_of env m.alg s'.path s'.content ≡ sum_of env m.alg s.path s.content =
          ap (λ p. sum_of env m.alg p s'.content) path ∙ ap (sum_of env m.alg s.path) content in
        (
          m2,
          ap (λ (k : Run (Next × Mgmt)). k >>= while_open again) e
              ∙ ap (λ k. while_open again (after_write k)) same
              ∙ e2,
          subst (λ b. Answered m s b m2) line (carry m s s' _ m2 dev a),
        )

-- A checksum is answered after finitely many turns of the event loop: one more than there are
-- times 1023 bytes left in the file are enough, if read(2) gives bytes each time, however few. The
-- answer is the checksum of the whole file.
pub digest_turns-Answered :
    (env : MgmtEnv) (ts : List Turn) (m : Mgmt) (s : Source) (t : Turn)
    → IsReading m s
    → AllQuiet (t ∷ ts)
    → left_of s < 1023 * suc (length ts)
    → (m' : Mgmt) × (digest_turns env m t ts ≡ returns (after_write m'))
      × Answered m s (sum_of env m.alg s.path s.content) m'
unfolding digest_turns
digest_turns-Answered env [] m s t r q few = last (quiet_step env m s t.0 t.1 r q.0)
  where
    last :
        (m' : Mgmt) × (mgmt_queue_step env m [] t.0 t.1 ≡ returns (after_write m'))
          × QuietEnds env m s m'
        → (m' : Mgmt) × (mgmt_queue_step env m [] t.0 t.1 ≡ returns (after_write m'))
          × Answered m s (sum_of env m.alg s.path s.content) m'
    last (m', e, nearer s' _ _ _ _ _ fewer) = absurd (omega arith)
    last (m', e, answered a) = (m', e, a)
digest_turns-Answered env (t' ∷ ts) m s t r q few =
    on_turn env m s t r q.0 (λ m'. digest_turns env m' t' ts)
      (λ m' s' r' fewer. digest_turns-Answered env ts m' s' t' r' q.1 (omega arith))
