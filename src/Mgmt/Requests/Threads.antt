-- ===== src/Mgmt/Requests/Threads.antt =====
-- mgmt_parser.c with mgmt_fn.c: the request for a number of threads.
use cmogstored.Prelude.{
  ℕ, ◌+◌, ◌-◌, ◌*◌, ◌^◌, min, Bytes, List, [], ◌∷◌, ◌++◌, true, false, ◌&&◌, ◌||◌, some, ltb, leb,
  ◌==◌, ◌≡◌, refl, ap, ◌∙◌, if◌then◌else◌, codes, arith, length, get_elem?, Bool-cases, inl, inr,
}
use cmogstored.TryWrite.{Answer}
use cmogstored.Mgmt.State.{Mgmt, threads_set}
use cmogstored.Mgmt.Scan.Table.{aio_threads}
use cmogstored.Mgmt.Answers.{
  MgmtEnv, mgmt_writev, marked_path, strtoull, request_done, mgmt_fn_aio_threads, eol,
}
use cmogstored.Mgmt.Requests.{digit_byte, All, ask_threads, LineEnd, lf, crlf, value, serve}
use cmogstored.Mgmt.Requests.Scanning.{threads_scanned, slice-middle}
use cmogstored.Mgmt.Requests.Fresh.{IsFresh, replied, fresh_parse, marks, Serves, Serves-length}

strtoull-digits :
    (ds : Bytes) (n : ℕ) → All digit_byte ds → strtoull n ds ≡ (min (value n ds) (2 ^ 64 - 1), true)
unfolding strtoull value
strtoull-digits [] n h = refl
strtoull-digits (c ∷ ds) n (d, h) = rw d (strtoull-digits ds (n * 10 + (c - b'0')) h)

-- ULLONG_MAX is no number of threads
threads_in_range :
    (env : MgmtEnv) (m : Mgmt) (n : ℕ) (net : List Answer)
    → let nr = min n (2 ^ 64 - 1) in
      mgmt_writev
        (if ltb 0 nr && leb nr 100
          then record m { calls = m.calls ++ (threads_set nr ∷ []) }
          else m)
        (eol ∷ [])
        net
      ≡ mgmt_writev
          (if ltb 0 n && leb n 100 then record m { calls = m.calls ++ (threads_set n ∷ []) } else m)
          (eol ∷ [])
          net
threads_in_range env m n net = elim (Bool-cases (ltb 0 n && leb n 100)) [
  | inl small ↦
      let e : min n (2 ^ 64 - 1) ≡ n = ground arith in
      ap
        (λ nr.
          mgmt_writev
            (if ltb 0 nr && leb nr 100
              then record m { calls = m.calls ++ (threads_set nr ∷ []) }
              else m)
            (eol ∷ []) net)
        e
  | inr other ↦
      let e : (ltb 0 (min n (2 ^ 64 - 1)) && leb (min n (2 ^ 64 - 1)) 100) ≡ false = ground arith in
      rw (e, other)
]

get_elem?-append :
    (a : Bytes) (c : ℕ) (b : Bytes) (i : ℕ) → i ≡ length a → get_elem? (a ++ (c ∷ b)) i ≡ some c
get_elem?-append [] c b i e = ap (get_elem? (c ∷ b)) e
get_elem?-append (x ∷ a) c b i e =
    ap (get_elem? (x ∷ (a ++ (c ∷ b)))) e ∙ get_elem?-append a c b (length a) refl

threads_served :
    (env : MgmtEnv) (m : Mgmt) (ds tail : Bytes) (c j : ℕ) (net : List Answer)
    → All digit_byte ds
    → (c == 10 || c == 13) ≡ true
    → j ≡ 21 + length ds
    → request_done env aio_threads
        (marks 21 j m)
        (codes "server aio_threads = " ++ (ds ++ (c ∷ tail)))
        net
      ≡ serve env (marks 21 j m) (ask_threads ds) net
unfolding request_done mgmt_fn_aio_threads serve
threads_served env m ds tail c j net h e hj =
    let label = codes "server aio_threads = " in
    let m' = marks 21 j m in
    let buf : Bytes = label ++ (ds ++ (c ∷ tail)) in
    let digits : marked_path m' buf ≡ ds =
      unfold marked_path in slice-middle label ds (c ∷ tail) 21 j refl hj in
    let n : j ≡ length (label ++ ds) = omega arith in
    let line_end : get_elem? buf j ≡ some c = get_elem?-append (label ++ ds) c tail j n in
    rw (digits, strtoull-digits ds 0 h, line_end, e) (threads_in_range env m' (value 0 ds) net)

threads_ended :
    (env : MgmtEnv) (m : Mgmt) (ds eol tail : Bytes) (j : ℕ) (net : List Answer)
    → All digit_byte ds
    → LineEnd eol
    → j ≡ 21 + length ds
    → request_done env aio_threads
        (marks 21 j m)
        (codes "server aio_threads = " ++ (ds ++ (eol ++ tail)))
        net
      ≡ serve env (marks 21 j m) (ask_threads ds) net
threads_ended env m ds _ tail j net h lf hj = threads_served env m ds tail 10 j net h refl hj
threads_ended env m ds _ tail j net h crlf hj =
    threads_served env m ds (10 ∷ tail) 13 j net h refl hj

pub threads_line :
    (env : MgmtEnv) (m : Mgmt) (c : ℕ) (ds eol rest : Bytes) (net : List Answer)
    → IsFresh m
    → digit_byte c ≡ true
    → All digit_byte ds
    → LineEnd eol
    → let line = codes "server aio_threads = " ++ (c ∷ ds) in
      Serves env m (ask_threads (c ∷ ds)) (line ++ (eol ++ rest)) net (length line + length eol)
threads_line env m c ds eol rest net f d h e =
    let buf = codes "server aio_threads = " ++ (c ∷ ds ++ (eol ++ rest)) in
    let n = 22 + length ds + length eol in
    Serves-length env m (ask_threads (c ∷ ds)) buf net n
      (length (codes "server aio_threads = " ++ (c ∷ ds)) + length eol) (omega arith)
      (
        21,
        22 + length ds,
        fresh_parse env m (marks 21 (22 + length ds) m) buf net aio_threads n f
              (threads_scanned c ds eol rest m d h e)
            ∙ ap (replied n)
                (threads_ended env m (c ∷ ds) eol rest (22 + length ds) net (d, h) e (omega arith)),
      )
