-- ===== src/Http/Put/Chunked/Turns.antt =====
-- http_put.c: a chunked PUT over any number of turns of the event loop.
use mathlib.Core.Path.{subst}
use cmogstored.Prelude.{
  ℕ, Bytes, List, [], ◌∷◌, false, Option, some, ◌≡◌, ◌≢◌, refl, sym, ap, ◌∙◌, inl, inr,
}
use cmogstored.Http.State.{Http, File, Next, next_close, next_wait_rd, Run, ◌>>=◌}
use cmogstored.Http.Put.{PutEnv}
use cmogstored.Http.Put.Turns.{Turn, next_turn, next_turn-stays, commit-ready}
use cmogstored.Http.Chunk.Disk.{Honest}
use cmogstored.Http.Put.Chunked.{chunked_put_in_progress}
use cmogstored.Http.Put.Chunked.Feeds.{
  Feeds, in_line, in_data, in_tail, ChunkedEnds, waiting, committed, dropped,
}
use cmogstored.Http.Put.Chunked.Turn.{TurnEnds, chunked_put-TurnEnds}
use cmogstored.Http.Put.Chunked.Steps.{false-not_true}

-- A turn, and the following ones while the client waits for more of the body. `in_trailer` is a
-- local variable, so it is off at the start of each.
unfoldable pub chunked_turns :
    (Bytes → Option Bytes) → PutEnv → Http → Turn → List Turn → Run (Next × Http)
chunked_turns decode env h t [] = chunked_put_in_progress decode env h false t.0 t.1
chunked_turns decode env h t (t' ∷ ts) =
    chunked_put_in_progress decode env h false t.0 t.1
    >>= next_turn (λ h' f'. chunked_turns decode env h' t' ts)

-- pwrite(2) sets errno where it fails, in each of these turns
abbrev pub AllHonest : List Turn → Type 0
AllHonest [] = Unit
AllHonest (t ∷ ts) = Honest t.0 × AllHonest ts

Feeds-forward :
    (stream : Bytes) (start : ℕ) (h : Http)
    → Feeds stream start h
    → (f : File) × (h.forward ≡ some f)
Feeds-forward stream start h (in_line f c o d dec s hf hs line m ofs rb wb) = (f, hf)
Feeds-forward stream start h (in_data f c o n dec s hf hs state len c60 rb wb) = (f, hf)
Feeds-forward stream start h (in_tail f c o l dec s hf hs t ofs wb) = (f, hf)

next_turn-again :
    (again : Http → File → Run (Next × Http)) (h : Http) (f : File)
    → h.forward ≡ some f
    → next_turn again (next_wait_rd, h) ≡ again h f
next_turn-again again h f fw = simp fw refl

module _ (decode : Bytes → Option Bytes) (env : PutEnv) (stream : Bytes) (start : ℕ) where
  abbrev Ends : Run (Next × Http) → Type 0
  Ends = TurnEnds decode env stream start

  -- the turn after one that ends
  next_turn-Ends :
      (again : Http → File → Run (Next × Http))
      → ((h : Http) (f : File) → Feeds stream start h → Ends (again h f))
      → (n : Next) (h : Http) → ChunkedEnds env stream start n h
      → Ends (next_turn again (n, h))
  next_turn-Ends again go n h (waiting w feeds) =
      let (f, fw) = Feeds-forward stream start h feeds in
      subst (λ k. Ends (next_turn again (k, h))) (sym w)
        (subst Ends (sym (next_turn-again again h f fw)) (go h f feeds))
  next_turn-Ends again go n h (committed g f out left e fw hs all) =
      let ready : n ≢ next_wait_rd =
        λ z. commit-ready env g f (ap (λ (x : Next × Http). x.0) e ∙ z) in
      inl ((n, h), next_turn-stays again n h ready, committed g f out left e fw hs all)
  next_turn-Ends again go n h (dropped c fw) =
      let ready : n ≢ next_wait_rd = λ z. (let x : next_close ≡ next_wait_rd = sym c ∙ z in cc) in
      inl ((n, h), next_turn-stays again n h ready, dropped c fw)

  bind-Ends :
      (r : Run (Next × Http)) (again : Http → File → Run (Next × Http))
      → ((h : Http) (f : File) → Feeds stream start h → Ends (again h f))
      → Ends r
      → Ends (r >>= next_turn again)
  bind-Ends r again go (inl (q, eq, ends)) =
      subst (λ k. Ends (k >>= next_turn again)) (sym eq) (next_turn-Ends again go q.0 q.1 ends)
  bind-Ends r again go (inr (eq, dz)) =
      subst (λ k. Ends (k >>= next_turn again)) (sym eq) (inr (refl, dz))

  -- A chunked PUT over any number of turns of the event loop, for every way in which socket and disk
  -- answer in each, and however the client's bytes are split over turns and reads. It starts with
  -- the decoded part of the body in the file. At the end it still waits in the same way; or it has
  -- been committed, with exactly the body in the file that the abstract decoder makes of all the
  -- client's bytes; or connection and file are given up. Only at an assertion in the trailers it
  -- aborts, when the client has sent the whole body.
  pub chunked_turns-TurnEnds :
      (ts : List Turn) (h : Http) (t : Turn)
      → Feeds stream start h
      → AllHonest (t ∷ ts)
      → Ends (chunked_turns decode env h t ts)
  unfolding chunked_turns
  chunked_turns-TurnEnds [] h t feeds ok =
      chunked_put-TurnEnds decode env stream start t.1 h false t.0 feeds
        (λ e. absurd (false-not_true e)) ok.0
  chunked_turns-TurnEnds (t' ∷ ts) h t feeds ok =
      bind-Ends (chunked_put_in_progress decode env h false t.0 t.1)
        (λ h' f'. chunked_turns decode env h' t' ts)
        (λ h' f' feeds'. chunked_turns-TurnEnds ts h' t' feeds' ok.1)
        (chunked_put-TurnEnds decode env stream start t.1 h false t.0 feeds
          (λ e. absurd (false-not_true e)) ok.0)
