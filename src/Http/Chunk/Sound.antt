-- ===== src/Http/Chunk/Sound.antt =====
-- chunk_parser.c: the scanner decodes what the abstract decoder decodes, and the body's bytes go to
-- the file.
use cmogstored.Prelude.{
  ℕ, zero, suc, ◌+◌, ◌-◌, ◌<◌, min, Bytes, List, [], ◌∷◌, ◌++◌, true, false, Option, none, some,
  Option-cases, Bool-cases, ◌==◌, ==_iff, ◌≡◌, refl, sym, ap, ◌∙◌, ◌⊎◌, inl, inr, arith, length,
  length-take, length-drop, drop-all, take, drop, append_assoc, append-nil,
}
use cmogstored.Prelude.Int.{pos, pos_part}
use cmogstored.Http.State.{Http, File, chunk_size, ChunkCs, cs0, cs1, cs16, Errno, no_error, erange}
use cmogstored.Http.Put.{PWrite, write_full}
use cmogstored.Http.Put.Body.{Holds, write_full-Holds}
use cmogstored.Http.Trailer.{trailer_run}
use cmogstored.Http.Chunk.{
  SizeAct, next, overflow, bad, size_step, is_errno, errno_loop, Exec, trailers_out, to_trailers,
  chunk_exec, settled_cs,
}
use cmogstored.Http.Chunk.Decoder.{
  Decoding, d1, d2, d3, d4, d5, d6, data_, failed, size_next, after_data, dec_run, dec_run-failed,
  dec_run-nil, dec_run-end, after_data-more,
}
use cmogstored.Http.Chunk.Disk.{Honest, Quiet, write_full-disk}
use cmogstored.Http.Chunk.Matches.{
  Matches, Matches-is_size, in_size, dec_run-in_size, Untouched, Follows, size_step-Follows,
  dec_run-data,
}
use cmogstored.Http.Chunk.Equations.{
  after_size, exec_size, exec_final, exec_data_bad, exec_data_good,
}

-- errno and the disk's further answers, where `disk0` were its answers at first
abbrev pub Calm : List PWrite → Errno → List PWrite → Type 0
Calm disk0 e disk = Honest disk × (Quiet disk0 → (e ≡ no_error) × Quiet disk)

-- Where the loop leaves. The decoder has come to `d` with `total` as the body so far, and has not
-- looked at `left`.
pub data ChunkEnds (decode : Bytes → Option Bytes) (buf : Bytes) (start : ℕ) (h0 : Http)
    (disk0 : List PWrite) (total : Bytes) (d : Decoding) (left : Bytes) (x : Exec) : Type 0 where
  fed :
      (f : File)
      → x.http.forward ≡ some f
      → Holds start f total
      → left ≡ []
      → Matches (settled_cs x) x.http d
      → x.p ≡ length buf
      → Untouched x.http h0
      → Calm disk0 x.errno x.disk
      → x.crashed ≡ false
      → ChunkEnds decode buf start h0 disk0 total d left x
  final :
      (f : File) (h : Http) (q : ℕ) (e : Errno) (disk : List PWrite)
      → x ≡ trailers_out e disk (to_trailers q h) (trailer_run decode buf cs16 q (to_trailers q h))
      → h.forward ≡ some f
      → Holds start f total
      → d ≡ data_ 0
      → q + length left ≡ length buf
      → 0 < length left
      → Untouched h h0
      → Calm disk0 e disk
      → ChunkEnds decode buf start h0 disk0 total d left x
  bad_size :
      d ≡ failed
      → x.really_done ≡ false
      → (x.cs ≡ cs0) ⊎ (x.errno ≡ erange)
      → x.crashed ≡ false
      → ChunkEnds decode buf start h0 disk0 total d left x
  disk_failed :
      is_errno x.errno ≡ true
      → (Quiet disk0 → ⊥)
      → x.crashed ≡ false
      → ChunkEnds decode buf start h0 disk0 total d left x

some-not_none : {e : Errno} → none ≡ some e → ⊥
some-not_none x = cc

abbrev pub Result : Type 0
Result = Decoding × Bytes × Bytes

module _ (decode : Bytes → Option Bytes) (buf : Bytes) (start : ℕ) (h0 : Http)
    (disk0 : List PWrite) where
  -- the loop from `cs` on, where `body` is in the file
  abbrev pub Ends : Bytes → Result → Exec → Type 0
  Ends body r x = ChunkEnds decode buf start h0 disk0 (body ++ r.1) r.0 r.2 x

  -- the rest of the loop is right for at most `n` further bytes
  abbrev pub Later : ℕ → Type 0
  Later n =
      (cs : ChunkCs) (p : ℕ) (e : Errno) (h : Http) (f : File) (disk : List PWrite)
      (rest body : Bytes) (d : Decoding)
      → Matches cs h d
      → h.forward ≡ some f
      → Holds start f body
      → p + length rest ≡ length buf
      → length rest < n
      → Untouched h h0
      → Calm disk0 e disk
      → Ends body (dec_run d rest) (chunk_exec n decode buf cs p e h disk rest)

  size-Ends :
      (n : ℕ) (p : ℕ) (e : Errno) (h : Http) (f : File) (disk : List PWrite) (rest body : Bytes)
      (d : Decoding) (cs0' : ChunkCs) (a : SizeAct)
      → Later n
      → Follows d h a
      → h.forward ≡ some f
      → Holds start f body
      → suc p + length rest ≡ length buf
      → length rest < n
      → Untouched h h0
      → Calm disk0 e disk
      → Ends body (dec_run d rest) (after_size n decode buf cs0' p e h disk rest a)
  size-Ends n p e h f disk rest body d c (next cs' h') ih (m, fw, (i, r, w, l)) hf hs pl ln
        (i0, r0, w0, l0) calm =
      ih cs' (p + 1) e h' f disk rest body d m (fw ∙ hf) hs (omega arith) ln
        (i ∙ i0, r ∙ r0, w ∙ w0, l ∙ l0) calm
  size-Ends n p e h f disk rest body d c overflow ih m hf hs pl ln u calm =
      bad_size (let x : (dec_run d rest).0 ≡ failed = rw m (dec_run-failed rest) in x) refl
        (inr refl) refl
  size-Ends n p e h f disk rest body d c bad ih m hf hs pl ln u calm =
      bad_size (let x : (dec_run d rest).0 ≡ failed = rw m (dec_run-failed rest) in x) refl
        (inl refl) refl

  data-Ends :
      (n : ℕ) (cs : ChunkCs) (p : ℕ) (e : Errno) (h : Http) (f : File) (disk : List PWrite) (c : ℕ)
      (rest body : Bytes) (m : ℕ)
      → Later n
      → Matches cs h (data_ (suc m))
      → h.forward ≡ some f
      → Holds start f body
      → p + suc (length rest) ≡ length buf
      → length rest < n
      → Untouched h h0
      → Calm disk0 e disk
      → Ends body
          (dec_run (data_ (suc m)) (c ∷ rest))
          (chunk_exec (suc n) decode buf cs p e h disk (c ∷ rest))
  data-Ends n cs p e h f disk c rest body m ih (at, len_is, state) hf hs pl ln u calm =
      let len = pos_part h.content_len in
      let len_m : len ≡ suc m = ap pos_part len_is in
      let nonzero : (len == 0) ≡ false = ground arith in
      let xs : Bytes = c ∷ rest in
      let w = min len (length xs) in
      let bytes : length (take w xs) ≡ w = omega (arith, length-take w xs) in
      let full : (length (take w xs) == 0) ≡ false = ground arith in
      let (says, honest, quiet, silent, takes) = write_full-disk f (take w xs) disk full calm.0 in
      elim (Option-cases (write_full f (take w xs) disk).1) [
        | inr (errno, b) ↦
            rw (exec_data_bad n decode buf cs p e errno h f disk c rest at nonzero hf b)
              (disk_failed (says errno b) (λ q. some-not_none (sym (takes (calm.1 q).1) ∙ b)) refl)
        | inl good ↦
            let grown = write_full-Holds start f body (take w xs) disk hs good in
            let step = write_full f (take w xs) disk in
            let e' = errno_loop w no_error disk in
            let h' = record h { forward = some step.0; content_len = pos (len - w) } in
            let exec = exec_data_good n decode buf cs p e h f disk c rest at nonzero hf good in
            let grown = write_full-Holds start f body (take w xs) disk hs good in
            let run : dec_run (data_ (suc m)) xs ≡ (
                let r = dec_run (after_data (len - w)) (drop w xs) in
                (r.0, take w xs ++ r.1, r.2)) =
              ap (λ (k : ℕ). dec_run (after_data k) xs) (sym len_m)
              ∙ dec_run-data w len xs (omega arith) (omega arith) in
            let short : length (drop w xs) ≡ length xs - w = length-drop w xs in
            let calm' : Calm disk0 e' step.2 =
              (honest, λ q. (rw bytes at silent (calm.1 q).1 good, quiet (calm.1 q).1)) in
            elim (Bool-cases (len - w == 0)) [
              | inl end_ ↦
                  let k0 : len - w ≡ 0 = (==_iff _ _).0 end_ in
                  let later =
                    ih cs1 (p + w) e' (record h' { chunk_state = chunk_size }) step.0 step.2
                      (drop w xs) (body ++ take w xs) d1 (refl, ap pos k0, refl) refl grown
                      (omega arith) (omega arith) u calm' in
                  let run0 : dec_run (data_ (suc m)) xs
                      ≡ (let r = dec_run d1 (drop w xs) in (r.0, take w xs ++ r.1, r.2)) =
                    rw k0 at run in
                  rw (exec, end_, run0)
                    (rw (append_assoc body (take w xs) (dec_run d1 (drop w xs)).1) at later)
              | inr more ↦
                  let none_left : drop w xs ≡ [] = drop-all w xs (ground arith) in
                  rw
                    (
                      exec,
                      more,
                      run,
                      none_left,
                      dec_run-nil (after_data (len - w)),
                      after_data-more (len - w) more,
                      append-nil (take w xs),
                    )
                    (fed step.0 refl grown refl (refl, refl, state) (ground arith) u calm' refl)
            ]
      ]

  line-Ends :
      (n : ℕ) (cs : ChunkCs) (p : ℕ) (e : Errno) (h : Http) (f : File) (disk : List PWrite) (c : ℕ)
      (rest body : Bytes) (d : Decoding)
      → Later n
      → Matches cs h d
      → in_size d ≡ true
      → h.forward ≡ some f
      → Holds start f body
      → p + suc (length rest) ≡ length buf
      → length rest < n
      → Untouched h h0
      → Calm disk0 e disk
      → Ends body (dec_run d (c ∷ rest)) (chunk_exec (suc n) decode buf cs p e h disk (c ∷ rest))
  line-Ends n cs p e h f disk c rest body d ih m i hf hs pl ln u calm =
      rw
        (
          dec_run-in_size d c rest i,
          exec_size n decode buf cs p e h disk c rest (Matches-is_size cs h d m i),
        )
        (size-Ends n p e h f disk rest body (size_next d c) cs (size_step cs c h) ih
          (size_step-Follows cs c h d m i) hf hs (omega arith) ln u calm)

  -- Every run of the loop is right: the body's bytes, and only they, come behind `body` in the
  -- file, and the scanner stands where the decoder does.
  pub chunk_exec-Ends : (n : ℕ) → Later n
  chunk_exec-Ends zero cs p e h f disk rest body d m hf hs pl ln u calm = absurd (omega arith)
  chunk_exec-Ends (suc n) cs p e h f disk [] body d m hf hs pl ln u calm =
      rw (dec_run-nil d, append-nil body)
        (unfold chunk_exec in fed f hf hs refl m (omega arith) u calm refl)
  chunk_exec-Ends (suc n) cs p e h f disk (c ∷ rest) body (data_ zero) (at, z, state) hf hs pl ln u
        calm =
      rw
        (exec_final n decode buf cs p e h disk c rest at z, dec_run-end (c ∷ rest), append-nil body)
        (final f h p e disk refl hf hs refl pl (omega arith) u calm)
  chunk_exec-Ends (suc n) cs p e h f disk (c ∷ rest) body (data_ (suc m)) at hf hs pl ln u calm =
      data-Ends n cs p e h f disk c rest body m (chunk_exec-Ends n) at hf hs pl (omega arith) u calm
  chunk_exec-Ends (suc n) cs p e h f disk (c ∷ rest) body failed m hf hs pl ln u calm = absurd m
  chunk_exec-Ends (suc n) cs p e h f disk (c ∷ rest) body d1 m hf hs pl ln u calm =
      line-Ends n cs p e h f disk c rest body d1 (chunk_exec-Ends n) m refl hf hs pl (omega arith) u
        calm
  chunk_exec-Ends (suc n) cs p e h f disk (c ∷ rest) body d2 m hf hs pl ln u calm =
      line-Ends n cs p e h f disk c rest body d2 (chunk_exec-Ends n) m refl hf hs pl (omega arith) u
        calm
  chunk_exec-Ends (suc n) cs p e h f disk (c ∷ rest) body d3 m hf hs pl ln u calm =
      line-Ends n cs p e h f disk c rest body d3 (chunk_exec-Ends n) m refl hf hs pl (omega arith) u
        calm
  chunk_exec-Ends (suc n) cs p e h f disk (c ∷ rest) body (d4 k) m hf hs pl ln u calm =
      line-Ends n cs p e h f disk c rest body (d4 k) (chunk_exec-Ends n) m refl hf hs pl
        (omega arith) u calm
  chunk_exec-Ends (suc n) cs p e h f disk (c ∷ rest) body (d5 k) m hf hs pl ln u calm =
      line-Ends n cs p e h f disk c rest body (d5 k) (chunk_exec-Ends n) m refl hf hs pl
        (omega arith) u calm
  chunk_exec-Ends (suc n) cs p e h f disk (c ∷ rest) body (d6 k) m hf hs pl ln u calm =
      line-Ends n cs p e h f disk c rest body (d6 k) (chunk_exec-Ends n) m refl hf hs pl
        (omega arith) u calm
