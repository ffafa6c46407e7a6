-- ===== src/Http/Get/Open.antt =====
-- The start of a GET or HEAD request: which requests are answered, and that a file that is to be
-- sent is aimed at the announced range.
use mathlib.Core.Path.{subst}
use cmogstored.Http.Response.{http_path}
use cmogstored.Prelude.{
  ap, not, ℕ, ◌+◌, Bytes, List, [], ◌∷◌, ◌++◌, Bool, true, false, none, some, ◌≡◌, ◌≢◌, refl, sym,
  ◌∙◌, ◌⊎◌, inl, inr, arith, Bool-cases, if◌then◌else◌, ◌↔◌, Option-cases, append-slice_empty,
}
use cmogstored.Prelude.Int.{pos}
use cmogstored.TryWrite.{Answer, WbufPtr, null, trysend}
use cmogstored.TryWrite.Send.{Delivers, trysend-Delivers}
use cmogstored.Http.State.{closed, Http, File, Run, returns, aborted, ◌>>=◌}
use cmogstored.Http.Range.{
  RangeReply, whole, partial, unsatisfiable, is_neg, choose_range, choose_range-aborts_iff,
  choose_range-empty_file,
}
use cmogstored.Http.Get.{
  FileInfo, found, get_header, is_head, aim, send_header, http_get_resp_hdr, get_lookup, new_file,
  Lookup, http_get_open, get_path, unless_busy, may_open,
}
use cmogstored.Http.Get.Transfer.{Sending}

-- the part of a file of `size` bytes that a reply sends
abbrev pub reply_start : RangeReply → ℕ
reply_start (partial offset count) = offset
reply_start _ = 0

abbrev pub reply_end : RangeReply → ℕ → ℕ
reply_end (partial offset count) size = offset + count
reply_end whole size = size
reply_end unsatisfiable size = 0

-- the reply to a request, before the file is looked at
abbrev pub reply_to : Http → ℕ → Run RangeReply
reply_to h size = if h.has_range then choose_range h.range_beg h.range_end size else returns whole

Delivers-null :
    {all : Bytes} (out : Bytes) (r : WbufPtr) → Delivers all r out → r ≡ null → out ≡ all
Delivers-null out null d e = d
Delivers-null out _ d e = cc

-- A GET of a regular file with a reply that sends bytes, whose header the socket takes whole,
-- leaves the file open and aimed: the header announces a part of the file, the socket has the
-- header, and the transfer stands at the start of that part.
pub get_lookup-Sending :
    (msg_more : Bool) (h : Http) (sb : FileInfo) (date content : Bytes) (ks : List Answer)
    (r : RangeReply)
    → is_head h.http_method ≡ false
    → sb.is_regular ≡ true
    → reply_to h sb.st_size ≡ returns r
    → r ≢ unsatisfiable
    → (trysend msg_more (get_header r sb h.persistent) h.out ks).res ≡ null
    → (h' : Http) × (f : File) × (get_lookup msg_more h (found sb) date ks ≡ returns h')
      × Sending
          (h.out ++ get_header r sb h.persistent)
          content
          (reply_start r)
          (reply_end r sb.st_size)
          h'
          f
unfolding get_lookup http_get_resp_hdr
get_lookup-Sending msg_more h sb date content ks r g reg rep sat sent =
    let w = trysend msg_more (get_header r sb h.persistent) h.out ks in
    let out_is = Delivers-null w.out w.res (trysend-Delivers msg_more _ h.out ks) sent in
    aimed_at r rep sat out_is
  where
    aimed_at :
        (r : RangeReply)
        → reply_to h sb.st_size ≡ returns r
        → r ≢ unsatisfiable
        → (trysend msg_more (get_header r sb h.persistent) h.out ks).out
          ≡ h.out ++ get_header r sb h.persistent
        → (h' : Http) × (f : File) × (get_lookup msg_more h (found sb) date ks ≡ returns h')
          × Sending
              (h.out ++ get_header r sb h.persistent)
              content
              (reply_start r)
              (reply_end r sb.st_size)
              h'
              f
    aimed_at whole rep sat o =
        let w = trysend msg_more (get_header whole sb h.persistent) h.out ks in
        let f = new_file sb.st_size in
        (
          record h { forward = some f; wbuf = w.res; out = w.out },
          f,
          rw (reg, g, rep) refl,
          record {
            aimed = refl;
            fsize_is = refl;
            started = omega arith;
            within = omega arith;
            so_far = o ∙ append-slice_empty 0 content _;
          },
        )
    aimed_at (partial offset count) rep sat o =
        let w = trysend msg_more (get_header (partial offset count) sb h.persistent) h.out ks in
        let f = record (new_file sb.st_size) { foff = offset; fsize = offset + count } in
        (
          record h { forward = some f; wbuf = w.res; out = w.out },
          f,
          rw (reg, g, rep) refl,
          record {
            aimed = refl;
            fsize_is = refl;
            started = omega arith;
            within = omega arith;
            so_far = o ∙ append-slice_empty offset content _;
          },
        )
    aimed_at unsatisfiable rep sat e = absurd (sat refl)

aim-returns :
    (r : RangeReply) (h : Http)
    → (is_head h.http_method ≡ true) ⊎ ((f : File) × (h.forward ≡ some f))
    → (h' : Http) × (aim r h ≡ returns h')
unfolding aim
aim-returns whole h e = (h, refl)
aim-returns (partial offset count) h e = (_, refl)
aim-returns unsatisfiable h e = elim (Option-cases h.forward) [
  | inl closed_ ↦ elim e [
    | inl head ↦ (h, rw (closed_, head) refl)
    | inr (f, open_) ↦ absurd (let x : none ≡ some f = sym closed_ ∙ open_ in cc)
  ]
  | inr (f, open_) ↦ (record h { forward = none; calls = h.calls ++ closed ∷ [] }, rw open_ refl)
]

hdr-aborts_iff :
    (msg_more : Bool) (h : Http) (sb : FileInfo) (ks : List Answer)
    → (is_head h.http_method ≡ true) ⊎ ((f : File) × (h.forward ≡ some f))
    → (http_get_resp_hdr msg_more h sb ks ≡ aborted) ↔ (reply_to h sb.st_size ≡ aborted)
unfolding http_get_resp_hdr
hdr-aborts_iff msg_more h sb ks e = after (reply_to h sb.st_size)
  where
    after :
        (r : Run RangeReply)
        → ((r >>= λ x. aim x h >>= λ h'. returns (send_header msg_more h' sb x ks)) ≡ aborted)
          ↔ (r ≡ aborted)
    after aborted = ((λ _. refl), λ _. refl)
    after (returns x) = let (h', a) = aim-returns x h e in rw a ((λ z. cc), λ z. cc)

reply_to-aborts_iff :
    (h : Http) (size : ℕ)
    → (reply_to h size ≡ aborted)
      ↔ ((h.has_range ≡ true) × (is_neg h.range_beg ≡ true) × (h.range_end ≡ pos 0))
reply_to-aborts_iff h size = elim (Bool-cases h.has_range) [
  | inl ranged ↦
      let same = choose_range-aborts_iff h.range_beg h.range_end size in
      rw ranged ((λ a. (refl, (same.0 a).0, (same.0 a).1)), λ (_, b, e). same.1 (b, e))
  | inr plain ↦ rw plain ((λ a. cc), λ (t, _, _). cc)
]

bind-aborts_iff :
    (m : Run (Http × ℕ)) → ((m >>= λ (x : Http × ℕ). returns x.0) ≡ aborted) ↔ (m ≡ aborted)
bind-aborts_iff aborted = ((λ _. refl), λ _. refl)
bind-aborts_iff (returns x) = ((λ z. cc), λ z. cc)

get_lookup-aborts_iff :
    (msg_more : Bool) (h : Http) (sb : FileInfo) (date : Bytes) (ks : List Answer)
    → sb.is_regular ≡ true
    → (get_lookup msg_more h (found sb) date ks ≡ aborted)
      ↔ ((h.has_range ≡ true) × (is_neg h.range_beg ≡ true) × (h.range_end ≡ pos 0))
unfolding get_lookup
get_lookup-aborts_iff msg_more h sb date ks reg = elim (Bool-cases (is_head h.http_method)) [
  | inl head ↦
      let a = bind-aborts_iff (http_get_resp_hdr msg_more h sb ks) in
      let b = hdr-aborts_iff msg_more h sb ks (inl head) in
      let c = reply_to-aborts_iff h sb.st_size in
      simp (reg, head) ((λ z. c.0 (b.0 (a.0 z))), λ z. a.1 (b.1 (c.1 z)))
  | inr get ↦
      let opened = record h { forward = some (new_file sb.st_size) } in
      let a = bind-aborts_iff (http_get_resp_hdr msg_more opened sb ks) in
      let b = hdr-aborts_iff msg_more opened sb ks (inr (new_file sb.st_size, refl)) in
      let c = reply_to-aborts_iff h sb.st_size in
      simp (reg, get) ((λ z. c.0 (b.0 (a.0 z))), λ z. a.1 (b.1 (c.1 z)))
]

-- `http_get_open` for a path that is not refused
open-lookup :
    (msg_more : Bool) (h : Http) (buf : Bytes) (look : Bytes → Lookup) (date epoch : Bytes)
    (ks : List Answer) (c : ℕ) (q : Bytes)
    → h.wbuf ≡ null
    → h.forward ≡ none
    → (http_path h buf).0 ≡ some (b'/' ∷ c ∷ q)
    → http_get_open msg_more h buf look date epoch ks
      ≡ get_lookup msg_more h (look (b'/' ∷ c ∷ q)) date ks
unfolding http_get_open get_path
open-lookup msg_more h buf look date epoch ks c q w f p =
    ap (λ k. unless_busy k (get_path msg_more h look date epoch ks (http_path h buf).0)) w
    ∙ ap (get_path msg_more h look date epoch ks) p
    ∙ ap
        (λ o.
          if not (may_open o (b'/' ∷ c ∷ q))
          then aborted
          else get_lookup msg_more h (look (b'/' ∷ c ∷ q)) date ks)
        f

-- A client without a write buffer and an open file asks for a regular file other than "/". The
-- request is answered but in one case: the process aborts exactly when the request has the header
-- "Range: bytes=-0".
pub http_get_open-aborts_iff :
    (msg_more : Bool) (h : Http) (buf : Bytes) (look : Bytes → Lookup) (date epoch : Bytes)
    (ks : List Answer) (c : ℕ) (q : Bytes) (sb : FileInfo)
    → h.wbuf ≡ null
    → h.forward ≡ none
    → (http_path h buf).0 ≡ some (b'/' ∷ c ∷ q)
    → look (b'/' ∷ c ∷ q) ≡ found sb
    → sb.is_regular ≡ true
    → (http_get_open msg_more h buf look date epoch ks ≡ aborted)
      ↔ ((h.has_range ≡ true) × (is_neg h.range_beg ≡ true) × (h.range_end ≡ pos 0))
http_get_open-aborts_iff msg_more h buf look date epoch ks c q sb w f p there reg =
    subst
      (λ r.
        (r ≡ aborted)
        ↔ ((h.has_range ≡ true) × (is_neg h.range_beg ≡ true) × (h.range_end ≡ pos 0)))
      (sym (
        open-lookup msg_more h buf look date epoch ks c q w f p
        ∙ ap (λ l. get_lookup msg_more h l date ks) there))
      (get_lookup-aborts_iff msg_more h sb date ks reg)

root-header :
    (msg_more : Bool) (h : Http) (sb : FileInfo) (ks : List Answer)
    → h.forward ≡ none
    → is_head h.http_method ≡ false
    → h.has_range ≡ true
    → is_neg h.range_beg ≡ false
    → sb.st_size ≡ 0
    → http_get_resp_hdr msg_more h sb ks ≡ aborted
unfolding http_get_resp_hdr aim
root-header msg_more h sb ks f g r b z =
    rw (r, z, choose_range-empty_file h.range_beg h.range_end b, f, g) refl

-- A GET of "/" has no file to close, and the 416 response asserts that the request is a HEAD: a GET
-- of "/" whose Range header starts at any position aborts the process.
pub http_get_open-root_aborts :
    (msg_more : Bool) (h : Http) (buf : Bytes) (look : Bytes → Lookup) (date epoch : Bytes)
    (ks : List Answer)
    → h.wbuf ≡ null
    → h.forward ≡ none
    → (http_path h buf).0 ≡ some (b'/' ∷ [])
    → is_head h.http_method ≡ false
    → h.has_range ≡ true
    → is_neg h.range_beg ≡ false
    → http_get_open msg_more h buf look date epoch ks ≡ aborted
unfolding http_get_open get_path
http_get_open-root_aborts msg_more h buf look date epoch ks w f p g r b =
    let sb : FileInfo = record { date = date; modified = epoch; st_size = 0; is_regular = true } in
    let answer : Run (Http × ℕ) → Run Http = λ x. x >>= λ (k : Http × ℕ). returns k.0 in
    ap (λ k. unless_busy k (get_path msg_more h look date epoch ks (http_path h buf).0)) w
    ∙ ap (get_path msg_more h look date epoch ks) p
    ∙ ap
        (λ o.
          if not (may_open o (b'/' ∷ []))
          then aborted
          else answer (http_get_resp_hdr msg_more h sb ks))
        f
    ∙ ap answer (root-header msg_more h sb ks f g r b refl)
