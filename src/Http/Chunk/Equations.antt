-- ===== src/Http/Chunk/Equations.antt =====
-- chunk_parser.c: the turns of the loop of `mog_chunk_parse`, one equation for each branch.
use cmogstored.Prelude.{
  ℕ, suc, ◌+◌, ◌-◌, min, Bytes, List, ◌∷◌, true, false, not, Option, none, some, ◌==◌,
  if◌then◌else◌, ◌≡◌, refl, length, take, drop,
}
use cmogstored.Prelude.Int.{pos, negsuc, pos_part}
use cmogstored.Http.State.{
  Http, File, chunk_size, ChunkCs, cs0, cs1, cs4, cs16, cs60, cs61, Errno, no_error, erange,
}
use cmogstored.Http.Put.{PWrite, write_full}
use cmogstored.Http.Trailer.{trailer_run}
use cmogstored.Http.Chunk.{
  SizeAct, next, overflow, bad, size_step, is_size, errno_loop, Exec, trailers_out, to_trailers,
  exec_out, chunk_exec,
}

abbrev pub after_size :
    ℕ
    → (Bytes → Option Bytes)
    → Bytes
    → ChunkCs
    → ℕ
    → Errno
    → Http
    → List PWrite
    → Bytes
    → SizeAct
    → Exec
after_size n decode buf cs p e h disk rest (next cs' h') =
    chunk_exec n decode buf cs' (p + 1) e h' disk rest
after_size n decode buf cs p e h disk rest overflow =
    exec_out cs4 (p + 1) erange false (record h { content_len = negsuc 0 }) disk
after_size n decode buf cs p e h disk rest bad = exec_out cs0 p e false h disk

pub exec_size :
    (n : ℕ) (decode : Bytes → Option Bytes) (buf : Bytes) (cs : ChunkCs) (p : ℕ) (e : Errno)
    (h : Http) (disk : List PWrite) (c : ℕ) (rest : Bytes)
    → is_size cs ≡ true
    → chunk_exec (suc n) decode buf cs p e h disk (c ∷ rest)
      ≡ after_size n decode buf cs p e h disk rest (size_step cs c h)
unfolding chunk_exec
exec_size n decode buf cs p e h disk c rest i = rw i (by_act (size_step cs c h))
  where
    by_act :
        (a : SizeAct)
        → (elim a as (λ _. Exec) [
          | next cs' h' ↦ chunk_exec n decode buf cs' (p + 1) e h' disk rest
          | overflow ↦ exec_out cs4 (p + 1) erange false (record h { content_len = negsuc 0 }) disk
          | bad ↦ exec_out cs0 p e false h disk
        ])
          ≡ after_size n decode buf cs p e h disk rest a
    by_act (next cs' h') = refl
    by_act overflow = refl
    by_act bad = refl

pub exec_final :
    (n : ℕ) (decode : Bytes → Option Bytes) (buf : Bytes) (cs : ChunkCs) (p : ℕ) (e : Errno)
    (h : Http) (disk : List PWrite) (c : ℕ) (rest : Bytes)
    → cs ≡ cs60
    → h.content_len ≡ pos 0
    → chunk_exec (suc n) decode buf cs p e h disk (c ∷ rest)
      ≡ trailers_out e disk (to_trailers p h) (trailer_run decode buf cs16 p (to_trailers p h))
unfolding chunk_exec
exec_final n decode buf cs p e h disk c rest i z = rw (i, z) refl

pub exec_data_bad :
    (n : ℕ) (decode : Bytes → Option Bytes) (buf : Bytes) (cs : ChunkCs) (p : ℕ) (e errno : Errno)
    (h : Http) (f : File) (disk : List PWrite) (c : ℕ) (rest : Bytes)
    → cs ≡ cs60
    → (pos_part h.content_len == 0) ≡ false
    → h.forward ≡ some f
    → let step =
        write_full f (take (min (pos_part h.content_len) (length (c ∷ rest))) (c ∷ rest)) disk in
      step.1 ≡ some errno
      → chunk_exec (suc n) decode buf cs p e h disk (c ∷ rest)
        ≡ exec_out cs61 (p + 1) errno false (record h { forward = some step.0 }) step.2
unfolding chunk_exec
exec_data_bad n decode buf cs p e errno h f disk c rest i z fw b = rw (i, z, fw, b) refl

pub exec_data_good :
    (n : ℕ) (decode : Bytes → Option Bytes) (buf : Bytes) (cs : ChunkCs) (p : ℕ) (e : Errno)
    (h : Http) (f : File) (disk : List PWrite) (c : ℕ) (rest : Bytes)
    → cs ≡ cs60
    → (pos_part h.content_len == 0) ≡ false
    → h.forward ≡ some f
    → let w = min (pos_part h.content_len) (length (c ∷ rest)) in
      let step = write_full f (take w (c ∷ rest)) disk in
      let e' = errno_loop w no_error disk in
      let h' = record h { forward = some step.0; content_len = pos (pos_part h.content_len - w) } in
      step.1 ≡ none
      → chunk_exec (suc n) decode buf cs p e h disk (c ∷ rest) ≡ (
          if not (pos_part h.content_len - w == 0)
          then exec_out cs61 (p + w) e' true h' step.2
          else chunk_exec n decode buf cs1
              (p + w)
              e'
              (record h' { chunk_state = chunk_size })
              step.2
              (drop w (c ∷ rest)))
unfolding chunk_exec
exec_data_good n decode buf cs p e h f disk c rest i z fw b = rw (i, z, fw, b) refl
