-- ===== src/Http/Chunk/Matches.antt =====
-- chunk_parser.c: the states of the scanner against those of the abstract decoder, for one byte of
-- a chunk's first line and for a run of a chunk's bytes.
use cmogstored.Prelude.{
  ℕ, zero, suc, ◌-◌, ◌≤◌, ◌<◌, Bytes, [], ◌∷◌, ◌++◌, Bool, true, false, ◌≡◌, refl, sym, ap, ◌∙◌,
  arith, length, take, drop, drop-all, append-nil, take-append-drop,
}
use cmogstored.Prelude.Int.{pos}
use cmogstored.Http.State.{
  Http, ChunkState, chunk_size, chunk_data, ChunkCs, cs1, cs2, cs3, cs4, cs5, cs6, cs60,
}
use cmogstored.Http.Chunk.{SizeAct, next, overflow, bad, size_step, is_size}
use cmogstored.Http.Chunk.Decoder.{
  Decoding, d1, d2, d3, d4, d5, d6, data_, failed, size_next, after_data, dec_run, dec_run-nil,
}

abbrev At : ChunkCs → ChunkState → ℕ → ChunkCs → Http → Type 0
At want state len cs h = (cs ≡ want) × (h.content_len ≡ pos len) × (h.chunk_state ≡ state)

-- the scanner in state `cs` stands where the decoder does
abbrev pub Matches : ChunkCs → Http → Decoding → Type 0
Matches cs h d1 = At cs1 chunk_size 0 cs h
Matches cs h d2 = At cs2 chunk_size 0 cs h
Matches cs h d3 = At cs3 chunk_size 0 cs h
Matches cs h (d4 n) = At cs4 chunk_size n cs h
Matches cs h (d5 n) = At cs5 chunk_size n cs h
Matches cs h (d6 n) = At cs6 chunk_size n cs h
Matches cs h (data_ n) = At cs60 chunk_data n cs h
Matches cs h failed = ⊥

-- the decoder is in a chunk's first line
abbrev pub in_size : Decoding → Bool
in_size (data_ n) = false
in_size failed = false
in_size _ = true

pub Matches-is_size :
    (cs : ChunkCs) (h : Http) (d : Decoding) → Matches cs h d → in_size d ≡ true → is_size cs ≡ true
Matches-is_size cs h d1 m i = rw m.0 refl
Matches-is_size cs h d2 m i = rw m.0 refl
Matches-is_size cs h d3 m i = rw m.0 refl
Matches-is_size cs h (d4 n) m i = rw m.0 refl
Matches-is_size cs h (d5 n) m i = rw m.0 refl
Matches-is_size cs h (d6 n) m i = rw m.0 refl
Matches-is_size cs h (data_ n) m i = cc
Matches-is_size cs h failed m i = absurd m

pub dec_run-in_size :
    (d : Decoding) (c : ℕ) (cs : Bytes)
    → in_size d ≡ true
    → dec_run d (c ∷ cs) ≡ dec_run (size_next d c) cs
unfolding dec_run
dec_run-in_size d1 c cs i = refl
dec_run-in_size d2 c cs i = refl
dec_run-in_size d3 c cs i = refl
dec_run-in_size (d4 n) c cs i = refl
dec_run-in_size (d5 n) c cs i = refl
dec_run-in_size (d6 n) c cs i = refl
dec_run-in_size (data_ n) c cs i = cc
dec_run-in_size failed c cs i = cc

-- what a byte of a chunk's first line leaves alone
abbrev pub Untouched : Http → Http → Type 0
Untouched h' h =
    (h'.input ≡ h.input)
    × (h'.rbuf ≡ h.rbuf)
    × (h'.wbuf ≡ h.wbuf)
    × (h'.skip_rbuf_defer ≡ h.skip_rbuf_defer)

abbrev pub Follows : Decoding → Http → SizeAct → Type 0
Follows d h (next cs h') = Matches cs h' d × (h'.forward ≡ h.forward) × Untouched h' h
Follows d h overflow = d ≡ failed
Follows d h bad = d ≡ failed

pub size_step-Follows :
    (cs : ChunkCs) (c : ℕ) (h : Http) (d : Decoding)
    → Matches cs h d
    → in_size d ≡ true
    → Follows (size_next d c) h (size_step cs c h)
unfolding size_step size_next
size_step-Follows cs c h d1 m i = ground arith
size_step-Follows cs c h d2 m i = ground arith
size_step-Follows cs c h d3 m i = ground arith
size_step-Follows cs c h (d4 n) m i = ground arith
size_step-Follows cs c h (d5 n) m i = ground arith
size_step-Follows cs c h (d6 n) m i = ground arith
size_step-Follows cs c h (data_ n) m i = cc
size_step-Follows cs c h failed m i = absurd m

-- a run of a chunk's bytes goes to the body
pub dec_run-data :
    (k n : ℕ) (xs : Bytes)
    → k ≤ n
    → k ≤ length xs
    → dec_run (after_data n) xs
      ≡ (let r = dec_run (after_data (n - k)) (drop k xs) in (r.0, take k xs ++ r.1, r.2))
unfolding dec_run
dec_run-data zero n xs l m = let same : n - 0 ≡ n = omega arith in rw same refl
dec_run-data (suc k) zero xs l m = absurd (omega arith)
dec_run-data (suc k) (suc n) [] l m = absurd (omega arith)
dec_run-data (suc k) (suc n) (x ∷ xs) l m =
    let less : suc n - suc k ≡ n - k = omega arith in
    rw less (
      ap (λ (r : Decoding × Bytes × Bytes). (r.0, x ∷ r.1, r.2))
        (dec_run-data k n xs (omega arith) (omega arith)))

-- bytes that all belong to the chunk
pub dec_run-within :
    (n : ℕ) (xs : Bytes)
    → 0 < length xs
    → length xs ≤ n
    → dec_run (data_ n) xs ≡ (after_data (n - length xs), xs, [])
dec_run-within zero xs more fits = absurd (omega arith)
dec_run-within (suc m) xs more fits =
    let none_left : drop (length xs) xs ≡ [] = drop-all (length xs) xs (omega arith) in
    let whole : take (length xs) xs ≡ xs =
      sym (append-nil _)
      ∙ ap (λ (t : Bytes). take (length xs) xs ++ t) (sym none_left)
      ∙ take-append-drop (length xs) xs in
    dec_run-data (length xs) (suc m) xs fits (omega arith)
    ∙ rw (none_left, whole, dec_run-nil (after_data (suc m - length xs)), append-nil xs) refl
