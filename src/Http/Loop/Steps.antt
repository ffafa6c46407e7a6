-- ===== src/Http/Loop/Steps.antt =====
-- http.c: what a step of the event loop does with the bytes of a client.
use cmogstored.Prelude.{
  ℕ, ◌+◌, ◌-◌, ◌≤◌, ◌<◌, min, Bytes, List, [], ◌∷◌, ◌++◌, false, ltb, Option, none, some, ◌==◌,
  ==_iff, length, take, drop, ◌≡◌, refl, sym, ap, ◌∙◌, ◌⊎◌, ◌≢◌, inl, inr, arith, Bool-cases,
  Option-cases, take-append-drop, take-length-take, length-append, length-eq-zero, append_assoc,
  append-nil, drop-all,
}
use cmogstored.Http.State.{Http, Rbuf}
use cmogstored.Http.Put.{Recv, got, would_block, recv_interrupted, recv_failed}
use cmogstored.Http.Put.Start.{ParserState, parser_error, parser_done, parser_continue}
use cmogstored.Http.Loop.{
  Handlers, rbuf_max_size, http_defer_rbuf, rbuf_grow, keep_read, ReadEnd, waits, gone, too_large,
  parsed, parse_step, http_read,
}

-- the bytes that are stashed with a client
abbrev pub stashed : Option Rbuf → Bytes
stashed none = []
stashed (some r) = r.rptr

-- Bytes that the client pipelined behind a request are all kept, in order, for the next one.
http_defer_rbuf-keeps :
    (h : Http) (buf : Bytes)
    → h.skip_rbuf_defer ≡ false
    → let h' = http_defer_rbuf h buf in (stashed h'.rbuf ≡ drop h.offset buf) × (h'.offset ≡ 0)
unfolding http_defer_rbuf
http_defer_rbuf-keeps h buf s = elim (Bool-cases (length buf - h.offset == 0)) [
  | inl all ↦
      let z : length buf ≤ h.offset = ground arith in
      rw (s, all) (sym (drop-all h.offset buf z), refl)
  | inr more ↦ rw (s, more) (refl, refl)
]

-- A read buffer that is full grows by some bytes and not past 65535, and the request is refused
-- exactly when it has that size.
rbuf_grow-bounds :
    (rcapa rsize : ℕ)
    → rsize ≤ rcapa
    → rcapa ≤ rbuf_max_size
    → ((rsize ≡ rbuf_max_size) × (rbuf_grow rcapa rsize ≡ none))
      ⊎ ((c : ℕ) × (rbuf_grow rcapa rsize ≡ some c)
          × (rsize < c)
          × (rcapa ≤ c)
          × (c ≤ rbuf_max_size))
unfolding rbuf_grow
rbuf_grow-bounds rcapa rsize l m = elim (Bool-cases (rsize == rbuf_max_size)) [
  | inl full ↦ rw full (inl ((==_iff _ _).0 full, refl))
  | inr fits ↦ elim (Bool-cases (ltb rcapa (min (rsize + 500) rbuf_max_size))) [
    | inl small ↦ rw (fits, small) (inr (_, refl, ground arith, ground arith, ground arith))
    | inr large ↦ rw (fits, large) (inr (_, refl, ground arith, ground arith, ground arith))
  ]
]

-- What the step relies on in the parser: it leaves the socket and the stash alone, and has
-- consumed the whole buffer when it wants more.
pub record IsParser (ops : Handlers) : Type 0 where
  pub same_input : (h : Http) (buf : Bytes) → (ops.parse h buf).2.input ≡ h.input
  pub wants_more :
      (h : Http) (buf : Bytes)
      → (ops.parse h buf).0 ≡ parser_continue
      → (ops.parse h buf).2.offset ≡ length buf

-- the bytes read so far and those still in the socket, at the end of the reads
abbrev pub Keeps : Bytes → ReadEnd → Type 0
Keeps all (waits h) = stashed h.rbuf ++ h.input ≡ all
Keeps all (gone h) = Unit
Keeps all (too_large h) = Unit
Keeps all (parsed st e h buf) = (buf ++ h.input ≡ all) × (st ≢ parser_continue)

keep_read-Keeps :
    (h : Http) (rcapa : ℕ) (buf : Bytes)
    → (buf ≡ [] → stashed h.rbuf ≡ [])
    → let h' = keep_read h rcapa buf in stashed h'.rbuf ++ h'.input ≡ buf ++ h.input
unfolding keep_read
keep_read-Keeps h rcapa buf z = elim (Bool-cases (length buf == 0)) [
  | inl empty ↦
      let e : buf ≡ [] = length-eq-zero buf ((==_iff _ _).0 empty) in
      let s : stashed h.rbuf ≡ [] = z e in simp empty (ap (λ (b : Bytes). b ++ h.input) (s ∙ sym e))
  | inr full ↦ rw full refl
]

state_cases : (st : ParserState) → (st ≡ parser_continue) ⊎ (st ≡ parser_error) ⊎ (st ≡ parser_done)
state_cases parser_continue = inl refl
state_cases parser_error = inr (inl refl)
state_cases parser_done = inr (inr refl)

error-continue : parser_error ≢ parser_continue
error-continue e = cc

done-continue : parser_done ≢ parser_continue
done-continue e = cc

parse_step-Keeps :
    (ops : Handlers) (h : Http) (rcapa : ℕ) (buf all : Bytes) (reread : Http → ℕ → ReadEnd)
    → IsParser ops
    → buf ++ h.input ≡ all
    → ((h2 : Http) (c : ℕ) → h2.input ≡ h.input → h2.offset ≡ length buf → Keeps all (reread h2 c))
    → Keeps all (parse_step ops h rcapa buf reread)
unfolding parse_step
parse_step-Keeps ops h rcapa buf all reread p e k =
    let same = p.same_input h buf in
    elim (state_cases (ops.parse h buf).0) [
      | inr (inl bad) ↦ rw (bad, parse_step) (ap (◌++◌ buf) same ∙ e, error-continue)
      | inr (inr done) ↦ rw (done, parse_step) (ap (◌++◌ buf) same ∙ e, done-continue)
      | inl more ↦
          let consumed = p.wants_more h buf more in
          elim (Bool-cases (ltb (ops.parse h buf).2.offset rcapa)) [
            | inl room ↦ rw (more, room, parse_step) (k (ops.parse h buf).2 rcapa same consumed)
            | inr full ↦ elim (Option-cases (rbuf_grow rcapa (length buf))) [
              | inl large ↦ rw (more, full, large, parse_step) tt
              | inr (c, grown) ↦ rw (more, full, grown, parse_step) (k _ c same consumed)
            ]
          ]
    ]

take-all : (xs : Bytes) → take (length xs) xs ≡ xs
take-all xs =
    sym (append-nil (take (length xs) xs))
    ∙ ap (◌++◌ (take (length xs) xs)) (sym (drop-all (length xs) xs (omega arith)))
    ∙ take-append-drop (length xs) xs

reread-whole :
    (n : ℕ) (buf input : Bytes)
    → let chunk = take n input in (buf ++ chunk) ++ drop (length chunk) input ≡ buf ++ input
reread-whole n buf input =
    append_assoc buf (take n input) (drop (length (take n input)) input)
    ∙ ap (λ (t : Bytes). buf ++ (t ++ drop (length (take n input)) input))
        (sym (take-length-take n input))
    ∙ ap (◌++◌ buf) (take-append-drop (length (take n input)) input)

-- However the client's bytes arrive, none is lost, repeated or reordered before the parser is done:
-- what is stashed when the client has to wait, or what the parser has been given, followed by
-- what is still in the socket, is what was there at the start. This holds for every parser that
-- consumes all of an incomplete request, and that does not read from the socket itself.
pub http_read-Keeps :
    (ops : Handlers) (h : Http) (rcapa : ℕ) (buf : Bytes) (ks : List Recv)
    → IsParser ops
    → h.offset ≡ length buf
    → (buf ≡ [] → stashed h.rbuf ≡ [])
    → Keeps (buf ++ h.input) (http_read ops h rcapa buf ks)
unfolding http_read
http_read-Keeps ops h rcapa buf [] p o z = keep_read-Keeps h rcapa buf z
http_read-Keeps ops h rcapa buf (would_block ∷ ks) p o z = keep_read-Keeps h rcapa buf z
http_read-Keeps ops h rcapa buf (recv_interrupted ∷ ks) p o z =
    http_read-Keeps ops h rcapa buf ks p o z
http_read-Keeps ops h rcapa buf (recv_failed ∷ ks) p o z = tt
http_read-Keeps ops h rcapa buf (got n ∷ ks) p o z =
    let w = min n (rcapa - h.offset) in
    let chunk = take w h.input in
    let h' = record h { input = drop (length chunk) h.input } in
    let buf' = take h.offset buf ++ chunk in
    let kept : take h.offset buf ≡ buf = rw o (take-all buf) in
    let whole : buf' ++ h'.input ≡ buf ++ h.input = rw kept (reread-whole w buf h.input) in
    elim (Bool-cases (length chunk == 0)) [
      | inl over ↦ rw over tt
      | inr some_bytes ↦
          let filled : 0 < length buf' =
            omega
              (arith, length-append (take h.offset buf) chunk, nonzero (length chunk) some_bytes) in
          rw some_bytes (
            parse_step-Keeps ops h' rcapa buf' (buf ++ h.input) (λ h2 c. http_read ops h2 c buf' ks)
              p whole
              (λ h2 c i e.
                rw (sym whole, sym i)
                  (http_read-Keeps ops h2 c buf' ks p e
                    (λ z'. absurd (empty_buffer buf' z' filled)))))
    ]
  where
    nonzero : (a : ℕ) → (a == 0) ≡ false → 0 < a
    nonzero a e = ground arith

    empty_buffer : (b : Bytes) → b ≡ [] → 0 < length b → ⊥
    empty_buffer b e l = let z : length b ≡ 0 = ap length e in omega arith
