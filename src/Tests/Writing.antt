-- ===== src/Tests/Writing.antt =====
-- trywrite.c and http.c: writing a response.
use cmogstored.Prelude.{[], ◌∷◌, ◌++◌, true, ◌≡◌, refl, drop, codes}
use cmogstored.TryWrite.{wrote, eagain, eintr, Wbuf, tryflush, joined, trywritev, trysend}
use cmogstored.TryWrite.Flush.{Accounts, tryflush-Accounts}
use cmogstored.TryWrite.Send.{Delivers, trywritev-Delivers, trysend-Delivers, trywritev-tryflush}

abbrev half_sent : Wbuf
half_sent = record { len = 4; off = 1; buf = codes "abcd" }

tryflush-Accounts_example :
    let f = tryflush half_sent (codes "xa") (wrote 1 ∷ eintr ∷ eagain ∷ []) in
    Accounts (codes "xa" ++ drop 1 (codes "abcd")) f.state f.wbuf f.out
tryflush-Accounts_example = tryflush-Accounts half_sent (codes "xa") (wrote 1 ∷ eintr ∷ eagain ∷ [])

trywritev-Delivers_example :
    let r = trywritev (codes "ab" ∷ codes "cd" ∷ []) [] (wrote 3 ∷ eagain ∷ []) in
    Delivers ([] ++ joined (codes "ab" ∷ codes "cd" ∷ [])) r.res r.out
trywritev-Delivers_example =
    trywritev-Delivers (codes "ab" ∷ codes "cd" ∷ []) [] (wrote 3 ∷ eagain ∷ [])

trysend-Delivers_example :
    let r = trysend true (codes "abcd") [] (wrote 3 ∷ eagain ∷ []) in
    Delivers ([] ++ codes "abcd") r.res r.out
trysend-Delivers_example = trysend-Delivers true (codes "abcd") [] (wrote 3 ∷ eagain ∷ [])

abbrev left_over : Wbuf
left_over = record { len = 1; off = 0; buf = codes "d" }

trywritev-tryflush_example :
    (tryflush left_over
      (trywritev (codes "ab" ∷ codes "cd" ∷ []) [] (wrote 3 ∷ eagain ∷ [])).out
      (wrote 1 ∷ [])).out
    ≡ [] ++ joined (codes "ab" ∷ codes "cd" ∷ [])
unfolding trywritev tryflush
trywritev-tryflush_example =
    trywritev-tryflush (codes "ab" ∷ codes "cd" ∷ []) [] (wrote 3 ∷ eagain ∷ []) (wrote 1 ∷ [])
      left_over refl refl
