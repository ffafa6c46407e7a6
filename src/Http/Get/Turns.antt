-- ===== src/Http/Get/Turns.antt =====
-- The whole body of a GET response, over any number of turns of the event loop.
use cmogstored.Prelude.{ℕ, Bytes, List, [], ◌∷◌, none, some, ◌≡◌, refl, inl, inr, ◌⊎◌}
use cmogstored.Http.State.{Http, File, Next, next_active, next_wait_wr}
use cmogstored.Http.Get.{SendFile, http_get_in_progress}
use cmogstored.Http.Get.Transfer.{Sending, Ends, sending, complete, closing, get_in_progress-Ends}

-- A turn is followed by another one while the file is open and the connection is kept: the event
-- loop calls `http_forward_in_progress` again at once, or when the socket can be written.
abbrev pub next_turn : (Http → File → Next × Http) → Next × Http → Next × Http
next_turn again (next_active, h) = elim h.forward [ some f ↦ again h f | none ↦ (next_active, h) ]
next_turn again (next_wait_wr, h) = elim h.forward [ some f ↦ again h f | none ↦ (next_wait_wr, h) ]
next_turn again (n, h) = (n, h)

-- what sendfile(2) answers in the first turn, and in the following ones
unfoldable pub get_turns : Http → File → Bytes → List SendFile → List (List SendFile) → Next × Http
get_turns h f data_ t [] = http_get_in_progress h f data_ t
get_turns h f data_ t (t' ∷ ts) =
    next_turn (λ h' f'. get_turns h' f' data_ t' ts) (http_get_in_progress h f data_ t)

next_turn-again :
    (again : Http → File → Next × Http) (n : Next) (h : Http) (f : File)
    → (n ≡ next_wait_wr) ⊎ (n ≡ next_active)
    → h.forward ≡ some f
    → next_turn again (n, h) ≡ again h f
next_turn-again again n h f (inl w) fw = simp (w, fw) refl
next_turn-again again n h f (inr a) fw = simp (a, fw) refl

next_turn-Ends :
    (before content : Bytes) (start end_ : ℕ) (again : Http → File → Next × Http)
    → ((h : Http) (f : File)
        → Sending before content start end_ h f
        → Ends before content start end_ (again h f).0 (again h f).1)
    → (n : Next) (h : Http) → Ends before content start end_ n h
    → let r = next_turn again (n, h) in Ends before content start end_ r.0 r.1
next_turn-Ends before content start end_ again go n h (sending f s (inl w)) =
    rw (next_turn-again again n h f (inl w) s.aimed) (go h f s)
next_turn-Ends before content start end_ again go n h (sending f s (inr a)) =
    rw (next_turn-again again n h f (inr a) s.aimed) (go h f s)
next_turn-Ends before content start end_ again go n h (complete a fw o) =
    simp (a, fw) (complete refl fw o)
next_turn-Ends before content start end_ again go n h (closing k c l o) = rw c (closing k refl l o)

-- A GET over any number of turns of the event loop, for every answer of sendfile(2) in each. The
-- socket gets a first part of the announced range, without a gap or a repetition; if the
-- connection is reused, it has got the whole range.
pub get_turns-Ends :
    (before content : Bytes) (start end_ : ℕ) (h : Http) (f : File) (t : List SendFile)
    (ts : List (List SendFile))
    → Sending before content start end_ h f
    → let r = get_turns h f content t ts in Ends before content start end_ r.0 r.1
unfolding get_turns
get_turns-Ends before content start end_ h f t [] s =
    get_in_progress-Ends before content start end_ h f t s
get_turns-Ends before content start end_ h f t (t' ∷ ts) s =
    let r = http_get_in_progress h f content t in
    next_turn-Ends before content start end_ (λ h' f'. get_turns h' f' content t' ts)
      (λ h' f' s'. get_turns-Ends before content start end_ h' f' t' ts s') r.0 r.1
      (get_in_progress-Ends before content start end_ h f t s)
