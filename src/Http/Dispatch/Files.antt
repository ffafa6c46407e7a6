-- ===== src/Http/Dispatch/Files.antt =====
-- http.c: how the handlers leave a client whose file is open.
use cmogstored.Prelude.{
  ℕ, ◌+◌, ◌-◌, min, Bytes, List, [], ◌∷◌, false, Option, none, some, ◌≡◌, refl, inl, inr,
  Bool-cases, length, take, drop, ◌==◌,
}
use cmogstored.TryWrite.{null}
use cmogstored.Http.State.{
  Http, File, http_reset, Method, method_none, method_get, method_head, method_put, method_delete,
  method_mkcol,
}
use cmogstored.Http.Get.{
  SendFile, sent, blocked, interrupted, broken, send_step, get_done, http_get_in_progress,
  max_sendfile,
}
use cmogstored.Http.Put.{identity_put_in_progress}
use cmogstored.Http.Put.Chunked.{chunked_put_in_progress, http_put_in_progress}
use cmogstored.Http.Loop.{Handlers}
use cmogstored.Http.Dispatch.{System, handlers, http_forward_in_progress, file_in_progress}
use cmogstored.Http.Runs.{Holds, if_both}
use cmogstored.Http.Dispatch.Settled.{Settled, identity_put-Settled}
use cmogstored.Http.Dispatch.Chunked.{chunked_put-Settled}

done-Settled : (h : Http) → h.wbuf ≡ null → Settled (get_done h)
unfolding get_done http_reset
done-Settled h e = elim (Bool-cases h.persistent) [
  | inl keep ↦ rw keep refl
  | inr once ↦ rw once (inl e)
]

send_step-Settled :
    (h : Http) (f : File) (content : Bytes) (count : ℕ) (ks : List SendFile)
    → h.wbuf ≡ null
    → h.forward ≡ some f
    → Settled (send_step h f content count ks)
unfolding send_step
send_step-Settled h f content count [] e o = inr (e, (f, o))
send_step-Settled h f content count (blocked ∷ ks) e o = inr (e, (f, o))
send_step-Settled h f content count (interrupted ∷ ks) e o =
    send_step-Settled h f content count ks e o
send_step-Settled h f content count (broken ∷ ks) e o =
    done-Settled (record h { persistent = false }) e
send_step-Settled h f content count (sent n ∷ ks) e o =
    let chunk = take (min n count) (drop f.foff content) in
    elim (Bool-cases (length chunk == 0)) [
      | inl none_sent ↦ rw none_sent (done-Settled (record h { persistent = false }) e)
      | inr more ↦ elim (Bool-cases (f.foff + length chunk == f.fsize)) [
        | inl all ↦ rw (more, all) (done-Settled _ e)
        | inr part ↦ rw (more, part) e
      ]
    ]

get-Settled :
    (h : Http) (f : File) (content : Bytes) (ks : List SendFile)
    → h.wbuf ≡ null
    → h.forward ≡ some f
    → Settled (http_get_in_progress h f content ks)
unfolding http_get_in_progress
get-Settled h f content ks e o =
    let count = min (f.fsize - f.foff) max_sendfile in
    elim (Bool-cases (count == 0)) [
      | inl all ↦ rw all (done-Settled h e)
      | inr more ↦ rw more (send_step-Settled h f content count ks e o)
    ]

put-Settled :
    (sys : System) (h : Http) (f : File)
    → h.wbuf ≡ null
    → Holds Settled (http_put_in_progress sys.decode sys.put h f sys.writes sys.reads)
unfolding http_put_in_progress
put-Settled sys h f e =
    if_both (Holds Settled) h.chunked
      (chunked_put_in_progress sys.decode sys.put h false sys.writes sys.reads)
      (identity_put_in_progress sys.put h f sys.writes sys.reads)
      (chunked_put-Settled sys.decode sys.put h false sys.writes sys.reads)
      (identity_put-Settled sys.put h f sys.writes sys.reads e)

file-Settled :
    (sys : System) (h : Http) (f : File) (method : Method)
    → h.wbuf ≡ null
    → h.forward ≡ some f
    → Holds Settled (file_in_progress sys h f method)
unfolding file_in_progress
file-Settled sys h f method_get e o = get-Settled h f sys.content sys.sends e o
file-Settled sys h f method_put e o = put-Settled sys h f e
file-Settled sys h f method_none e o = tt
file-Settled sys h f method_head e o = tt
file-Settled sys h f method_delete e o = tt
file-Settled sys h f method_mkcol e o = tt

-- What the event loop relies on in a handler's later steps.
abbrev pub LeavesSettled : Handlers → Type 0
LeavesSettled ops = (h : Http) → h.wbuf ≡ null → Holds Settled (ops.forward_in_progress h)

forward-Settled :
    (sys : System) (h : Http) (o : Option File)
    → h.wbuf ≡ null
    → h.forward ≡ o
    → Holds Settled (http_forward_in_progress sys h o)
unfolding http_forward_in_progress
forward-Settled sys h none e o = tt
forward-Settled sys h (some f) e o = file-Settled sys h f h.http_method e o

pub handlers-LeavesSettled : (sys : System) → LeavesSettled (handlers sys)
handlers-LeavesSettled sys h e = forward-Settled sys h h.forward e refl
