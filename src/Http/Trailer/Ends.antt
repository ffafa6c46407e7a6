-- ===== src/Http/Trailer/Ends.antt =====
-- chunk_parser.c: the scan of the trailers ends, and what it leaves alone.
use cmogstored.Prelude.{
  ℕ, zero, suc, ◌+◌, ◌≤◌, ◌<◌, Bytes, [], ◌∷◌, Bool, true, false, ◌||◌, Option, ◌==◌, length, drop,
  ◌≡◌, refl, ◌⊎◌, inl, inr, arith, Bool-cases, length-drop, sym, ◌∙◌,
}
use cmogstored.Http.State.{
  Http, chunk_done, ChunkCs, cs0, cs7, cs8, cs9, cs10, cs11, cs12, cs13, cs14, cs15, cs16, cs1, cs2,
  cs3, cs4, cs5, cs6, cs60, cs61,
}
use cmogstored.Http.Trailer.{
  Act, go, back, refuse, invalid, crash, done, trailer_step, Scan, at_end, refused, bad_md5,
  finished, rescans, broken, trailer_scan, line_start, good_line, trailer_again, trailer_run,
}

-- the states that skip a line: they never go back
abbrev pub skips : ChunkCs → Bool
skips cs7 = true
skips cs8 = true
skips cs9 = true
skips cs10 = true
skips cs11 = true
skips cs12 = true
skips cs13 = true
skips cs14 = true
skips cs15 = true
skips _ = false

-- the states of the trailers
abbrev pub is_trailer : ChunkCs → Bool
is_trailer cs0 = false
is_trailer cs1 = false
is_trailer cs2 = false
is_trailer cs3 = false
is_trailer cs4 = false
is_trailer cs5 = false
is_trailer cs6 = false
is_trailer cs60 = false
is_trailer cs61 = false
is_trailer _ = true

-- what a scan leaves alone: the file, the socket and the buffers of the client
pub record Same (h' h : Http) : Type 0 where
  pub forward_same : h'.forward ≡ h.forward
  pub input_same : h'.input ≡ h.input
  pub rbuf_same : h'.rbuf ≡ h.rbuf
  pub wbuf_same : h'.wbuf ≡ h.wbuf

Same-refl : (h : Http) → Same h h
Same-refl h = record { forward_same = refl; input_same = refl; rbuf_same = refl; wbuf_same = refl }

Same-trans : (a b c : Http) → Same a b → Same b c → Same a c
Same-trans a b c x y = record {
  forward_same = x.forward_same ∙ y.forward_same;
  input_same = x.input_same ∙ y.input_same;
  rbuf_same = x.rbuf_same ∙ y.rbuf_same;
  wbuf_same = x.wbuf_same ∙ y.wbuf_same;
}

-- what a step may do: a skipped line ends only at its LF
abbrev Fine : ChunkCs → ℕ → Http → Act → Type 0
Fine cs pos h (go cs' h') =
    (((h'.line_end ≡ h.line_end) × ((skips cs ≡ true) → (skips cs' ≡ true))) ⊎ (h'.line_end ≡ pos))
    × Same h' h
    × (h'.chunk_state ≡ h.chunk_state)
    × (is_trailer cs' ≡ true)
Fine cs pos h back = skips cs ≡ false
Fine cs pos h refuse = Unit
Fine cs pos h invalid = Unit
Fine cs pos h crash = Unit
Fine cs pos h (done h') = Same h' h × (h'.chunk_state ≡ chunk_done) × (h'.line_end ≡ pos)

trailer_step-Fine :
    (decode : Bytes → Option Bytes) (buf : Bytes) (cs : ChunkCs) (pos c : ℕ) (h : Http)
    → Fine cs pos h (trailer_step decode buf cs pos c h)
unfolding trailer_step
trailer_step-Fine decode buf cs pos c h = ground arith

-- at the end of the buffer
abbrev pub Pauses : ℕ → Http → ChunkCs → ℕ → Http → Type 0
Pauses len h0 cs pos h =
    Same h h0 × (h.chunk_state ≡ h0.chunk_state) × (pos ≡ len) × (is_trailer cs ≡ true)

-- behind the LF of the last line
abbrev pub Finishes : ℕ → Http → ℕ → Http → Type 0
Finishes len h0 pos h =
    Same h h0 × (h.chunk_state ≡ chunk_done) × (pos ≡ suc h.line_end) × (pos ≤ len)

-- The scan has gone back with a later line than it had, or still has to skip the line it is in;
-- the client's file and the bytes in its socket are as before.
abbrev Later : ℕ → ℕ → Http → Scan → Type 0
Later low len h (rescans h') = (low ≤ h'.line_end) × Same h' h × (h'.chunk_state ≡ h.chunk_state)
Later low len h (finished pos h') = Finishes len h pos h'
Later low len h (at_end cs pos h') = Pauses len h cs pos h'
Later low len h (refused h') = Same h' h
Later low len h (bad_md5 h') = Same h' h
Later low len h broken = Unit

-- the rest of the scan, after a step
abbrev after_step : (Bytes → Option Bytes) → Bytes → ℕ → Bytes → Http → Act → Scan
after_step decode buf pos rest h (go cs h') = trailer_scan decode buf cs (pos + 1) h' rest
after_step decode buf pos rest h back = rescans h
after_step decode buf pos rest h refuse = refused h
after_step decode buf pos rest h invalid = bad_md5 h
after_step decode buf pos rest h crash = broken
after_step decode buf pos rest h (done h') = finished (pos + 1) h'

after_step-Later :
    (decode : Bytes → Option Bytes) (buf : Bytes) (cs : ChunkCs) (pos low len : ℕ) (h h0 : Http)
    (rest : Bytes) (a : Act)
    → low ≤ pos
    → pos < len
    → (low ≤ h.line_end) ⊎ (skips cs ≡ true)
    → Same h h0 × (h.chunk_state ≡ h0.chunk_state)
    → ((cs' : ChunkCs) (h' : Http)
        → (low ≤ h'.line_end) ⊎ (skips cs' ≡ true)
        → is_trailer cs' ≡ true
        → Same h' h0 × (h'.chunk_state ≡ h0.chunk_state)
        → Later low len h0 (trailer_scan decode buf cs' (pos + 1) h' rest))
    → Fine cs pos h a
    → Later low len h0 (after_step decode buf pos rest h a)
after_step-Later decode buf cs pos low len h h0 rest (go cs' h') lp pl k same ih
      (move, f, c, trail) =
    elim move [
      | inl (kept, skip) ↦
          ih cs' h' (elim k [ inl l ↦ inl (omega arith) | inr s ↦ inr (skip s) ]) trail
            (Same-trans _ _ _ f same.0, c ∙ same.1)
      | inr here ↦ ih cs' h' (inl (omega arith)) trail (Same-trans _ _ _ f same.0, c ∙ same.1)
    ]
after_step-Later decode buf cs pos low len h h0 rest back lp pl k same ih f = elim k [
  | inl l ↦ (l, same.0, same.1)
  | inr s ↦ absurd (let x : true ≡ false = sym s ∙ f in cc)
]
after_step-Later decode buf cs pos low len h h0 rest refuse lp pl k same ih f = same.0
after_step-Later decode buf cs pos low len h h0 rest invalid lp pl k same ih f = same.0
after_step-Later decode buf cs pos low len h h0 rest crash lp pl k same ih f = tt
after_step-Later decode buf cs pos low len h h0 rest (done h') lp pl k same ih (f, d, at) =
    (Same-trans _ _ _ f same.0, d, omega arith, omega arith)

scan_after_step :
    (decode : Bytes → Option Bytes) (buf : Bytes) (cs : ChunkCs) (pos c : ℕ) (h : Http)
    (rest : Bytes)
    → trailer_scan decode buf cs pos h (c ∷ rest)
      ≡ after_step decode buf pos rest h (trailer_step decode buf cs pos c h)
unfolding trailer_scan
scan_after_step decode buf cs pos c h rest = by_act (trailer_step decode buf cs pos c h)
  where
    by_act :
        (a : Act)
        → (elim a as (λ _. Scan) [
          | go cs' h' ↦ trailer_scan decode buf cs' (pos + 1) h' rest
          | back ↦ rescans h
          | refuse ↦ refused h
          | invalid ↦ bad_md5 h
          | crash ↦ broken
          | done h' ↦ finished (pos + 1) h'
        ])
          ≡ after_step decode buf pos rest h a
    by_act (go cs' h') = refl
    by_act back = refl
    by_act refuse = refl
    by_act invalid = refl
    by_act crash = refl
    by_act (done h') = refl

-- `low` is a lower bound of the line ends of all later lines
trailer_scan-Later :
    (decode : Bytes → Option Bytes) (buf : Bytes) (cs : ChunkCs) (pos low len : ℕ) (h h0 : Http)
    (rest : Bytes)
    → low ≤ pos
    → pos + length rest ≡ len
    → (low ≤ h.line_end) ⊎ (skips cs ≡ true)
    → is_trailer cs ≡ true
    → Same h h0 × (h.chunk_state ≡ h0.chunk_state)
    → Later low len h0 (trailer_scan decode buf cs pos h rest)
trailer_scan-Later decode buf cs pos low len h h0 [] lp pl k trail same =
    unfold trailer_scan in (same.0, same.1, omega arith, trail)
trailer_scan-Later decode buf cs pos low len h h0 (c ∷ rest) lp pl k trail same =
    rw (scan_after_step decode buf cs pos c h rest) (
      after_step-Later decode buf cs pos low len h h0 rest (trailer_step decode buf cs pos c h) lp
        (omega arith) k same
        (λ cs' h' k' trail' same'.
          trailer_scan-Later decode buf cs' (pos + 1) low len h' h0 rest (omega arith) (omega arith)
            k' trail' same')
        (trailer_step-Fine decode buf cs pos c h))

line_start-ge : (h : Http) → h.line_end ≤ line_start h
line_start-ge h = ground arith

-- the result of a scan of a buffer of `len` bytes, once it no longer goes back
abbrev pub Settles : ℕ → Http → Scan → Type 0
Settles len h0 (rescans h) = ⊥
Settles len h0 (finished pos h) = Finishes len h0 pos h
Settles len h0 (at_end cs pos h) = Pauses len h0 cs pos h
Settles len h0 (refused h) = Same h h0
Settles len h0 (bad_md5 h) = Same h h0
Settles len h0 broken = Unit

good_line-inside : (h : Http) (buf : Bytes) → good_line h buf ≡ true → line_start h < length buf
good_line-inside h buf g = ground arith

trailer_again-Settles :
    (turns : ℕ) (decode : Bytes → Option Bytes) (buf : Bytes) (low : ℕ) (h0 : Http) (r : Scan)
    → Later low (length buf) h0 r
    → low ≤ length buf
    → length buf < low + turns
    → Settles (length buf) h0 (trailer_again turns decode buf r)
unfolding trailer_again
trailer_again-Settles zero decode buf low h0 r later b t = absurd (omega arith)
trailer_again-Settles (suc turns) decode buf low h0 (rescans h) (ge, f, c) b t =
    elim (Bool-cases (good_line h buf)) [
      | inr bad ↦ rw bad tt
      | inl good ↦
          let l : h.line_end ≤ line_start h = line_start-ge h in
          let inside : line_start h < length buf = good_line-inside h buf good in
          rw good (
            trailer_again-Settles turns decode buf (suc h.line_end) h0 _
              (trailer_scan-Later decode buf cs7 (suc (line_start h)) (suc h.line_end) (length buf)
                h h0 (drop (suc (line_start h)) buf) (omega arith)
                (omega (arith, length-drop (suc (line_start h)) buf)) (inr refl) refl (f, c))
              (omega arith) (omega arith))
    ]
trailer_again-Settles (suc turns) decode buf low h0 (at_end cs pos h) l b t = l
trailer_again-Settles (suc turns) decode buf low h0 (finished pos h) l b t = l
trailer_again-Settles (suc turns) decode buf low h0 (refused h) l b t = l
trailer_again-Settles (suc turns) decode buf low h0 (bad_md5 h) l b t = l
trailer_again-Settles (suc turns) decode buf low h0 broken l b t = tt

pub trailer_run-Settles :
    (decode : Bytes → Option Bytes) (buf : Bytes) (cs : ChunkCs) (pos : ℕ) (h : Http)
    → pos ≤ length buf
    → is_trailer cs ≡ true
    → Settles (length buf) h (trailer_run decode buf cs pos h)
unfolding trailer_run
trailer_run-Settles decode buf cs pos h l trail =
    trailer_again-Settles (suc (length buf)) decode buf 0 h _
      (trailer_scan-Later decode buf cs pos 0 (length buf) h h (drop pos buf) (omega arith)
        (omega (arith, length-drop pos buf)) (inl (omega arith)) trail (Same-refl h, refl))
      (omega arith) (omega arith)

-- A first trailer line whose header name is one byte long is refused, where the scan starts with it
-- at the start of the buffer: after it has gone back to the start of the line, the scanner skips its
-- first byte unseen, so that it misses the name. This holds for every first byte that does not start
-- an empty line or "Content-MD5".
pub trailer_run-short_name :
    (decode : Bytes → Option Bytes) (c : ℕ) (rest : Bytes) (h : Http)
    → h.line_end ≡ 0
    → (c == 13 || (c == 67 || c == 99)) ≡ false
    → trailer_run decode (c ∷ b':' ∷ rest) cs16 0 h ≡ refused h
unfolding trailer_run trailer_scan trailer_again
trailer_run-short_name decode c rest h z o = ground arith
