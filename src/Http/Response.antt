-- ===== src/Http/Response.antt =====
-- http.c: `mog_http_resp0`, and the path of a request.
use cmogstored.Prelude.{
  ◌-◌, Bytes, List, [], ◌∷◌, ◌++◌, Bool, true, false, not, ◌&&◌, Option, none, some, ◌≡◌, refl,
  if◌then◌else◌, take, drop, codes,
}
use cmogstored.TryWrite.{Answer, trywritev}
use cmogstored.TryWrite.Send.{Delivers, trywritev-Delivers, joined-one}
use cmogstored.ValidPath.{valid_path, valid_put_path}
use cmogstored.Http.State.{Http, Method, method_put, Errno, no_error, einval}

-- the line end of HTTP
abbrev pub crlf : Bytes
crlf = 13 ∷ 10 ∷ []

-- the response that `mog_http_resp0` copies together; `keep` is "alive && http->persistent"
unfoldable pub response : Bytes → Bool → Bytes → Bytes
response status keep date =
    codes "HTTP/1.1 "
    ++ (status
        ++ (crlf
            ++ (codes "Status: "
                ++ (status
                    ++ (crlf
                        ++ (codes "Date: "
                            ++ (date
                                ++ (crlf
                                    ++ (codes "Content-Length: 0"
                                        ++ (crlf
                                            ++ (codes "Content-Type: text/plain"
                                                ++ (crlf
                                                    ++ (codes (
                                                          if keep
                                                          then "Connection: keep-alive"
                                                          else "Connection: close")
                                                        ++ (crlf ++ crlf))))))))))))))

unfoldable pub http_resp : Http → Bytes → Bool → Bytes → List Answer → Http
http_resp h status alive date ks =
    let keep = alive && h.persistent in
    let w = trywritev (response status keep date ∷ []) h.out ks in
    record h { persistent = keep; wbuf = w.res; out = w.out }

abbrev pub is_put : Method → Bool
is_put method_put = true
is_put _ = false

-- `mog_http_path`: the path in the request, or none and errno, 0 where it is not set. The parser
-- cleared errno before.
unfoldable pub http_path : Http → Bytes → Option Bytes × Errno
http_path h buf =
    let path = take (h.path_end - h.path_tip) (drop h.path_tip buf) in
    if not (valid_path path)
    then (none, no_error)
    else if is_put h.http_method && not (valid_put_path path)
    then (none, einval)
    else (some path, no_error)

-- A response goes out whole or is buffered, and the connection stays persistent only if the
-- handler and the request both allow it.
pub http_resp-Delivers :
    (h : Http) (status date : Bytes) (alive : Bool) (ks : List Answer)
    → let h' = http_resp h status alive date ks in
      Delivers (h.out ++ response status h'.persistent date) h'.wbuf h'.out
      × (h'.persistent ≡ alive && h.persistent)
unfolding http_resp
http_resp-Delivers h status date alive ks =
    let msg = response status (alive && h.persistent) date in
    (rw (joined-one msg) at (trywritev-Delivers (msg ∷ []) h.out ks), refl)
