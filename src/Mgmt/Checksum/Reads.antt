-- ===== src/Mgmt/Checksum/Reads.antt =====
-- digest.c: what the hash context gets, and that reading ends.
use mathlib.Core.Path.{subst}
use cmogstored.Prelude.{
  ℕ, zero, suc, ◌+◌, ◌-◌, ◌≤◌, ◌<◌, ◌≢◌, min, Bytes, List, [], ◌∷◌, ◌++◌, ◌≡◌, refl, sym, ap, ◌∙◌,
  arith, length, length-drop, length-take, length-eq-zero, take, drop, take-append-drop,
  take-append-take, take-length-take, append-nil,
}
use cmogstored.Http.Put.{fsbuf_size}
use cmogstored.Mgmt.State.{Source}
use cmogstored.Mgmt.Checksum.{
  FileRead, DigestNext, some_bytes, read_interrupted, read_failed, digest_continue, digest_eof,
  digest_error, ReadOn, read_bytes, digest_write, digest_round, digest_loop, digest_read,
  digest_until,
}

-- the bytes before the position have been hashed, in order
abbrev pub IsHashed : Source → Type 0
IsHashed s = s.hashed ≡ take s.at s.content

-- what is left to read
abbrev pub left_of : Source → ℕ
left_of s = length (drop s.at s.content)

-- The same file, hashed up to its position, and up to its end at EOF. Each round before the result
-- `digest_continue` has read a byte or used up an answer.
-- From one place in a file to another, by reads that get what is there, up to a buffer; the first
-- answers are used up, and behind the last one the kernel fills the buffer.
pub data ReadsTo (content : Bytes) : ℕ → List FileRead → ℕ → List FileRead → Type 0 where
  stops : (at : ℕ) (reads : List FileRead) → ReadsTo content at reads at reads
  tries_again :
      (at at' : ℕ) (reads left : List FileRead)
      → ReadsTo content at reads at' left
      → ReadsTo content at (read_interrupted ∷ reads) at' left
  reads_some :
      (n k at at' : ℕ) (reads left : List FileRead)
      → k ≡ min (min (suc n) fsbuf_size) (length content - at)
      → 0 < k
      → ReadsTo content (at + k) reads at' left
      → ReadsTo content at (some_bytes n ∷ reads) at' left
  reads_full :
      (k at at' : ℕ) (left : List FileRead)
      → k ≡ min fsbuf_size (length content - at)
      → 0 < k
      → ReadsTo content (at + k) [] at' left
      → ReadsTo content at [] at' left

ReadsTo-join :
    (content : Bytes) (at at' at'' : ℕ) (reads left left' : List FileRead)
    → ReadsTo content at reads at' left
    → ReadsTo content at' left at'' left'
    → ReadsTo content at reads at'' left'
ReadsTo-join content _ _ at'' _ _ left' (stops _ _) q = q
ReadsTo-join content _ _ at'' _ _ left' (tries_again at at' reads left p) q =
    tries_again at at'' reads left' (ReadsTo-join content at at' at'' reads left left' p q)
ReadsTo-join content _ _ at'' _ _ left' (reads_some n k at at' reads left e z p) q =
    reads_some n k at at'' reads left' e z
      (ReadsTo-join content (at + k) at' at'' reads left left' p q)
ReadsTo-join content _ _ at'' _ _ left' (reads_full k at at' left e z p) q =
    reads_full k at at'' left' e z (ReadsTo-join content (at + k) at' at'' [] left left' p q)

-- what the last read was, and where it left the file
abbrev pub Stop : DigestNext → Source → List FileRead → List FileRead → Type 0
Stop digest_continue s before left = before ≡ left
Stop digest_eof s before left = length s.content ≤ s.at
Stop digest_error s before left = before ≡ read_failed ∷ left

abbrev pub Reached : Source → List FileRead → ReadOn → Type 0
Reached s reads r =
    (before : List FileRead) × ReadsTo s.content s.at reads r.1.at before × Stop r.0 r.1 before r.2

pub record ReadEnds (i : ℕ) (s : Source) (reads : List FileRead) (r : ReadOn) : Type 0 where
  pub same_path : r.1.path ≡ s.path
  pub same_content : r.1.content ≡ s.content
  pub same_dev : r.1.st_dev ≡ s.st_dev
  pub hashed : IsHashed r.1
  pub reached : Reached s reads r
  pub at_end : r.0 ≡ digest_eof → r.1.hashed ≡ s.content
  pub rounds : r.0 ≡ digest_continue → i + (length r.2 + left_of r.1) ≤ length reads + left_of s

chunk-prefix :
    (s : Source) (n : ℕ) → take (length (read_bytes s n)) (drop s.at s.content) ≡ read_bytes s n
unfolding read_bytes
chunk-prefix s n = take-length-take (min (suc n) fsbuf_size) (drop s.at s.content)

digest_write-IsHashed :
    (s : Source) (n : ℕ) (chunk : Bytes)
    → IsHashed s
    → read_bytes s n ≡ chunk
    → IsHashed (digest_write s chunk)
unfolding digest_write
digest_write-IsHashed s n chunk h e =
    let prefix : chunk ≡ take (length chunk) (drop s.at s.content) =
      subst (λ c. c ≡ take (length c) (drop s.at s.content)) e (sym (chunk-prefix s n)) in
    ap (λ b. b ++ chunk) h
    ∙ ap (λ b. take s.at s.content ++ b) prefix
    ∙ take-append-take s.at (length chunk) s.content

chunk-size :
    (s : Source) (n : ℕ)
    → length (read_bytes s n) ≡ min (min (suc n) fsbuf_size) (length s.content - s.at)
unfolding read_bytes
chunk-size s n =
    length-take (min (suc n) fsbuf_size) (drop s.at s.content)
    ∙ ap (min (min (suc n) fsbuf_size)) (length-drop s.at s.content)

-- read(2) finds nothing only at the end
nothing-left : (s : Source) (n : ℕ) → read_bytes s n ≡ [] → drop s.at s.content ≡ []
unfolding read_bytes
nothing-left s n e =
    let empty : length (take (min (suc n) fsbuf_size) (drop s.at s.content)) ≡ 0 =
      ap (λ b. length b) e in
    length-eq-zero (drop s.at s.content)
      (omega (arith, empty, length-take (min (suc n) fsbuf_size) (drop s.at s.content)))

at_end-hashed : (s : Source) (n : ℕ) → IsHashed s → read_bytes s n ≡ [] → s.hashed ≡ s.content
at_end-hashed s n h e =
    h
    ∙ sym (append-nil (take s.at s.content))
    ∙ ap (λ b. take s.at s.content ++ b) (sym (nothing-left s n e))
    ∙ take-append-drop s.at s.content

pub digest_write-shorter :
    (s : Source) (n c : ℕ) (cs : Bytes)
    → read_bytes s n ≡ c ∷ cs
    → suc (left_of (digest_write s (c ∷ cs))) ≤ left_of s
unfolding digest_write read_bytes
digest_write-shorter s n c cs e =
    let size : length (take (min (suc n) fsbuf_size) (drop s.at s.content)) ≡ suc (length cs) =
      ap (λ b. length b) e in
    omega (
      arith,
      size,
      length-take (min (suc n) fsbuf_size) (drop s.at s.content),
      length-drop s.at s.content,
      length-drop (s.at + suc (length cs)) s.content,
    )

-- a round that reads bytes, and then goes on
read-ends :
    (i : ℕ) (s : Source) (n : ℕ) (reads reads' : List FileRead) (again : Source → ReadOn)
    (chunk : Bytes)
    → IsHashed s
    → length reads ≤ length reads'
    → read_bytes s n ≡ chunk
    → ((k at' : ℕ) (left : List FileRead)
        → k ≡ min (min (suc n) fsbuf_size) (length s.content - s.at)
        → 0 < k
        → ReadsTo s.content (s.at + k) reads at' left
        → ReadsTo s.content s.at reads' at' left)
    → ((s' : Source) → IsHashed s' → ReadEnds i s' reads (again s'))
    → ReadEnds
        (suc i)
        s
        reads'
        (elim chunk [ [] ↦ (digest_eof, s, reads) | c ∷ cs ↦ again (digest_write s (c ∷ cs)) ])
unfolding digest_write
read-ends i s n reads reads' again [] h le e further ih = record {
  same_path = refl;
  same_content = refl;
  same_dev = refl;
  hashed = h;
  reached = (
    reads',
    stops s.at reads',
    omega (arith, ap (λ b. length b) (nothing-left s n e), length-drop s.at s.content),
  );
  at_end = λ z. at_end-hashed s n h e;
  rounds = λ z. (cc);
}
read-ends i s n reads reads' again (c ∷ cs) h le e further ih =
    let s' = digest_write s (c ∷ cs) in
    let r = ih s' (digest_write-IsHashed s n (c ∷ cs) h e) in
    let fewer : suc (left_of s') ≤ left_of s = digest_write-shorter s n c cs e in
    record {
      same_path = r.same_path;
      same_content = r.same_content;
      same_dev = r.same_dev;
      hashed = r.hashed;
      reached =
          let (before, run, stop) = r.reached in
          (
            before,
            further (length (c ∷ cs)) _ before (sym (ap (λ b. length b) e) ∙ chunk-size s n)
                (omega arith) run,
            stop,
          );
      at_end = r.at_end;
      rounds = λ z. omega (arith, r.rounds z, fewer, le);
    }

pub digest_loop-ReadEnds :
    (i : ℕ) (s : Source) (reads : List FileRead)
    → IsHashed s
    → ReadEnds i s reads (digest_loop i s reads)
unfolding digest_loop digest_round
digest_loop-ReadEnds zero s reads h = record {
  same_path = refl;
  same_content = refl;
  same_dev = refl;
  hashed = h;
  reached = (reads, stops s.at reads, refl);
  at_end = λ z. cc;
  rounds = λ z. omega arith;
}
digest_loop-ReadEnds (suc i) s [] h =
    read-ends i s fsbuf_size [] [] (λ s'. digest_loop i s' []) (read_bytes s fsbuf_size) h
      (omega arith) refl (λ k at' left e z. reads_full k s.at at' left (e ∙ refl) z)
      (λ s' h'. digest_loop-ReadEnds i s' [] h')
digest_loop-ReadEnds (suc i) s (some_bytes n ∷ reads) h =
    read-ends i s n reads (some_bytes n ∷ reads) (λ s'. digest_loop i s' reads) (read_bytes s n) h
      (omega arith) refl (λ k at' left e z. reads_some n k s.at at' reads left e z)
      (λ s' h'. digest_loop-ReadEnds i s' reads h')
digest_loop-ReadEnds (suc i) s (read_interrupted ∷ reads) h =
    let r = digest_loop-ReadEnds i s reads h in
    record {
      same_path = r.same_path;
      same_content = r.same_content;
      same_dev = r.same_dev;
      hashed = r.hashed;
      reached =
          let (before, run, stop) = r.reached in
          (before, tries_again s.at _ reads before run, stop);
      at_end = r.at_end;
      rounds = λ z. omega (arith, r.rounds z);
    }
digest_loop-ReadEnds (suc i) s (read_failed ∷ reads) h = record {
  same_path = refl;
  same_content = refl;
  same_dev = refl;
  hashed = h;
  reached = (read_failed ∷ reads, stops s.at (read_failed ∷ reads), refl);
  at_end = λ z. cc;
  rounds = λ z. cc;
}

-- after a call that was cut short, the next one
Reached-next :
    (s s' : Source) (reads left : List FileRead) (r : ReadOn)
    → s'.content ≡ s.content
    → Reached s reads (digest_continue, s', left)
    → Reached s' left r
    → Reached s reads r
Reached-next s s' reads left r same (before, run, here) (before', run', stop) = (
  before',
  ReadsTo-join s.content s.at s'.at r.1.at reads left before'
      (subst (ReadsTo s.content s.at reads s'.at) here run)
      (subst (λ b. ReadsTo b s'.at left r.1.at before') same run'),
  stop,
)

until-ends :
    (fuel : ℕ) (s : Source) (reads : List FileRead) (r : ReadOn)
    → ReadEnds 1023 s reads r
    → length reads + left_of s < suc fuel
    → ((s' : Source) (left : List FileRead)
        → IsHashed s'
        → length left + left_of s' < fuel
        → ReadEnds 0 s' left (digest_until fuel s' left)
          × ((digest_until fuel s' left).0 ≢ digest_continue))
    → let r' : ReadOn = elim r.0 [
      | digest_continue ↦ digest_until fuel r.1 r.2
      | digest_eof ↦ (digest_eof, r.1, r.2)
      | digest_error ↦ (digest_error, r.1, r.2)
    ] in
      ReadEnds 0 s reads r' × (r'.0 ≢ digest_continue)
until-ends fuel s reads (digest_continue, s', left) e h ih =
    let fewer : 1023 + (length left + left_of s') ≤ length reads + left_of s = e.rounds refl in
    let (r, ends) = ih s' left e.hashed (omega arith) in
    (
      record {
        same_path = r.same_path ∙ e.same_path;
        same_content = r.same_content ∙ e.same_content;
        same_dev = r.same_dev ∙ e.same_dev;
        hashed = r.hashed;
        reached =
            Reached-next s s' reads left (digest_until fuel s' left) e.same_content e.reached
              r.reached;
        at_end = λ z. r.at_end z ∙ e.same_content;
        rounds = λ z. absurd (ends z);
      },
      ends,
    )
until-ends fuel s reads (digest_eof, s', left) e h ih = (
  record {
    same_path = e.same_path;
    same_content = e.same_content;
    same_dev = e.same_dev;
    hashed = e.hashed;
    reached = e.reached;
    at_end = e.at_end;
    rounds = λ z. cc;
  },
  λ z. cc,
)
until-ends fuel s reads (digest_error, s', left) e h ih = (
  record {
    same_path = e.same_path;
    same_content = e.same_content;
    same_dev = e.same_dev;
    hashed = e.hashed;
    reached = e.reached;
    at_end = λ z. cc;
    rounds = λ z. cc;
  },
  λ z. cc,
)

-- With enough fuel the loop ends at EOF or on an error.
pub digest_until-ReadEnds :
    (fuel : ℕ) (s : Source) (reads : List FileRead)
    → IsHashed s
    → length reads + left_of s < fuel
    → ReadEnds 0 s reads (digest_until fuel s reads)
      × ((digest_until fuel s reads).0 ≢ digest_continue)
unfolding digest_until digest_read
digest_until-ReadEnds zero s reads h lt = absurd (omega arith)
digest_until-ReadEnds (suc fuel) s reads h lt =
    until-ends fuel s reads (digest_loop 1023 s reads) (digest_loop-ReadEnds 1023 s reads h) lt
      (λ s' left h' lt'. digest_until-ReadEnds fuel s' left h' lt')
