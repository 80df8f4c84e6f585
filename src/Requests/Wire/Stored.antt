-- ===== src/Requests/Wire/Stored.antt =====
-- From the bytes that reach src/http.c to the object store of src/ohsrv.c.
use osrv.Base.{
  ℕ, ◌<◌, ◌≤◌, ◌≡◌, ap, ◌∙◌, List, [], ◌∷◌, ◌++◌, Option, none, some, length, if◌then◌else◌,
  length-append, All, arith,
}
use osrv.Base.Bytes.{Bytes}
use osrv.Sfs.Object.{same_bytes}
use osrv.Server.Http.{Method, put, Request, data_prefix, http_process}
use osrv.Server.Http.Data.{IsKey, http_process-entries}
use osrv.Server.State.{Server, entries}
use osrv.Stores.Reads.{Event}
use osrv.Requests.{ℤ, pos, line_buf_size, new_client}
use osrv.Requests.Turn.{Out, replied, processed, ready, Turn}
use osrv.Requests.Connection.{iteration}
use osrv.Requests.Wire.{Plain}
use osrv.Requests.Wire.Message.{message, arrives}
use osrv.Requests.Wire.Body.{received, headed, given, header_texts, iteration-message}

-- The fields of an `http_request_t` that `http_process` reads.
unfoldable pub as_request : Option Bytes → Option Method → ℤ → Option Bytes → Option Request
as_request (some p) (some m) (pos n) body =
    some (record { path = p; method = m; body = body; content_length = n })
as_request _ _ _ body = none

unfoldable pub served_one : Option Request → Server → Server
unfolding http_process
served_one none s = s
served_one (some r) s = (http_process r s).server

-- The store after the requests that a connection hands to `http_process`.
unfoldable pub served : List Out → Server → Server
unfolding as_request served_one
served [] s = s
served (replied text ∷ log) s = served log s
served (processed q ∷ log) s =
    served log (served_one (as_request q.path q.method q.content_length q.body) s)

-- The bytes of a PUT request that arrive in one piece, fit the line buffer and hold a body, with headers that fit one header buffer, for a
-- key with no slash and no question mark and with no NUL, CR or LF in the key and the host: the
-- body becomes the newest entry of that key, no other key is affected, and the connection is
-- ready for the next request.
pub put-stored :
    (fresh : ℕ → Bytes) (key host body j : Bytes) (es : List Event) (s : Server)
    → IsKey key
    → All Plain (data_prefix ++ key)
    → All Plain host
    → 0 < length body
    → length (message put (data_prefix ++ key) host body) < line_buf_size
    → length (header_texts put host (length body)) ≤ 1024
    → let t =
        iteration fresh (arrives (message put (data_prefix ++ key) host body) es) new_client in
      (entries j (served (t.0.log) s) ≡ (
        if same_bytes j key
        then record { key = key; len = length body; obj = some body; what = none } ∷ entries j s
        else entries j s))
      × ((t.0.state ≡ ready new_client) × (t.1 ≡ es))
unfolding served as_request served_one given received headed
put-stored fresh key host body j es s k p h some_body fits small =
    let e =
      iteration-message fresh put (data_prefix ++ key) host body es tt p h
        (omega (arith, length-append data_prefix key)) some_body fits small in
    (
      ap (λ (r : Turn × List Event). entries j (served (r.0.log) s)) e
          ∙ http_process-entries put key j (some body) (length body) s k,
      (ap (λ (r : Turn × List Event). r.0.state) e, ap (λ (r : Turn × List Event). r.1) e),
    )
