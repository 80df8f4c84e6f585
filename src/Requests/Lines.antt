-- ===== src/Requests/Lines.antt =====
-- `http_input_iteration` of src/http.c: what it does with one line of a request.
pub mod Headers
pub mod Request
use osrv.Base.{
  ℕ, zero, suc, ◌+◌, ◌-◌, ◌*◌, ◌^◌, Bool, true, false, not, ◌&&◌, ◌||◌, List, [], ◌∷◌, ◌++◌, Option,
  none, some, ltb, leb, ◌==◌, if◌then◌else◌, length, take, drop, min,
}
use osrv.Base.Bytes.{Bytes}
use osrv.Base.Decimal.{is_digit, atol}
use osrv.Base.Text.{codes}
use osrv.Sfs.Object.{same_bytes}
use osrv.Server.Http.{Method, post, get_method, head, put, delete, other, starts_with}
use osrv.Server.Tcp.{skip_blanks}
use osrv.Http.{http_sig}
use osrv.Requests.{
  HeaderBuf, ℤ, pos, negsuc, Attrs, Req, Part, request_part, header_part, body_part, Client,
}
use osrv.Requests.Headers.{record_line, record_method}

-- What follows a line: the next one, or an answer and the end of the connection.
pub data Handled : Type 0 where
  handled : Client → Handled
  refused : Bytes → Handled

-- `*k |= 0x20` for the letters A to Z.
unfoldable pub lower : ℕ → ℕ
lower c = if leb b'A' c && leb c b'Z' then c + 32 else c

-- The name of a header in lower case, and what follows the colon.
unfoldable pub split_name : Bytes → Bytes × Option Bytes
unfolding lower
split_name [] = ([], none)
split_name (c ∷ cs) =
    let rest = split_name cs in if c == b':' then ([], some cs) else (lower c ∷ rest.0, rest.1)

-- Lower case up to the first byte `stop`.
unfoldable pub lower_until : ℕ → Bytes → Bytes
unfolding lower
lower_until stop [] = []
lower_until stop (c ∷ cs) =
    let rest = lower_until stop cs in if c == stop then c ∷ cs else lower c ∷ rest

-- The white space that `atol` skips.
unfoldable pub skip_space : Bytes → Bytes
skip_space [] = []
skip_space (c ∷ cs) =
    let rest = skip_space cs in if (leb 9 c && leb c 13) || c == b' ' then rest else c ∷ cs

-- The sign and the digits. `atol` ends at the bounds of a `long`.
unfoldable pub signed_digits : Bytes → ℤ
signed_digits [] = pos 0
signed_digits (c ∷ cs) =
    if c == b'-'
    then elim (min (atol 0 cs) (2 ^ 63)) [ zero ↦ pos 0 | suc n ↦ negsuc n ]
    else if c == b'+'
    then pos (min (atol 0 cs) (2 ^ 63 - 1))
    else pos (min (atol 0 (c ∷ cs)) (2 ^ 63 - 1))

unfoldable pub atol_signed : Bytes → ℤ
unfolding skip_space signed_digits
atol_signed text = signed_digits (skip_space text)

-- The effect of a header on the request.
unfoldable pub set_header : Bytes → Bytes → Req → Req
unfolding same_bytes starts_with lower_until atol_signed
set_header name k req =
    if same_bytes name (codes "upgrade")
    then (if same_bytes k (codes "websocket")
        then record req { attrs = record (req.attrs) { ws_upgrade = true } }
        else req)
    else if same_bytes name (codes "content-length")
    then record req {
      attrs = record (req.attrs) { content_length = true };
      content_length = atol_signed k;
    }
    else if same_bytes name (codes "content-type")
    then (let l = lower_until b';' k in
        record req {
          attrs = record (req.attrs) {
            content_type = true;
            form_uenc =
                starts_with (codes "application/x-www-form-urlencoded") l || req.attrs.form_uenc;
          };
          content_type = some l;
        })
    else if same_bytes name (codes "host")
    then record req { attrs = record (req.attrs) { host_header = true } }
    else if same_bytes name (codes "connection")
    then record req {
      attrs = record (req.attrs) {
        connection_close =
            starts_with (codes "close") (lower_until 0 k) || req.attrs.connection_close;
      };
    }
    else if same_bytes name (codes "sec-websocket-key")
    then record req { ws_key = some k }
    else if same_bytes name (codes "sec-websocket-protocol")
    then record req { ws_protocol = some k }
    else if same_bytes name (codes "sec-websocket-version")
    then record req { ws_version = some k }
    else req

unfoldable pub set_named : Bytes × Option Bytes → Req → Req
unfolding set_header skip_blanks
set_named (name, none) req = req
set_named (name, some k) req = set_header name (skip_blanks k) req

unfoldable pub header_line : Bytes → Client → Client
unfolding split_name set_named record_line
header_line line c = record c {
  headers = record_line line c.headers;
  req = set_named (split_name line) c.req;
}

-- The place of the first `b`.
unfoldable pub index_of : ℕ → Bytes → Option ℕ
index_of b [] = none
index_of b (c ∷ cs) =
    let rest = index_of b cs in
    if c == b then some 0 else elim rest [ none ↦ none | some i ↦ some (suc i) ]

unfoldable pub method_of : Bytes → Option Method → Option Method
unfolding starts_with
method_of line before =
    if starts_with (codes "DELETE ") line
    then some delete
    else if starts_with (codes "HEAD ") line
    then some head
    else if starts_with (codes "POST ") line
    then some post
    else if starts_with (codes "PUT ") line
    then some put
    else if starts_with (codes "GET ") line
    then some get_method
    else before

-- Every other method that can be recorded is METHOD_OTHER.
unfoldable pub known_or_other : Bool → Option Method → Option Method
known_or_other fits (some m) = some m
known_or_other fits none = if fits then some other else none

-- The text from `url` to its NUL, which stands before " HTTP/1.x"; if the first blank is that one,
-- `url` is behind the NUL.
unfoldable pub path_of : ℕ → Bytes → Bytes
path_of i line =
    if i == (length line - 9) then drop (suc i) line else drop (suc i) (take (length line - 9) line)

unfoldable pub bad_request : Bytes
bad_request = codes "HTTP/1.0 400 Bad Request\r\n\r\n"

-- `send_http_response`.
unfoldable pub response_text : Req → Bytes → Bytes
response_text req text = http_sig req.attrs.http_1_0 ++ text

abbrev pub not_implemented : Bytes
not_implemented = codes " 501 Invalid or unimplemented method\r\n\r\n"

-- The request line with its method recorded.
unfoldable pub with_method : ℕ → Bytes → Bool × List HeaderBuf → Req → Client → Handled
unfolding known_or_other path_of response_text
with_method i line (fits, headers) req c = elim (known_or_other fits (method_of line req.method)) [
  | none ↦ refused (response_text req not_implemented)
  | some m ↦ handled (record c {
    part = header_part;
    headers = headers;
    req = record req { method = some m; path = some (path_of i line) };
  })
]

-- At least 14 characters, a blank, and HTTP/1.x at the end.
unfoldable pub is_request : Bytes → Bool
unfolding starts_with
is_request line =
    not (ltb (length line) 14) && starts_with (codes " HTTP/1.") (drop (length line - 9) line)

-- The request line, from the place of its first blank and its check.
unfoldable pub checked_line : Option ℕ → Bool → Bytes → Client → Handled
unfolding with_method record_method method_of same_bytes bad_request
checked_line none is_good line c = refused bad_request
checked_line (some i) false line c = refused bad_request
checked_line (some i) true line c =
    let old = same_bytes (drop (length line - 3) line) (codes "1.0") || c.req.attrs.http_1_0 in
    with_method i line (record_method (take i line) c.headers)
      (record (c.req) { attrs = record (c.req.attrs) { http_1_0 = old } }) c

unfoldable pub request_line : Bytes → Client → Handled
unfolding index_of is_request checked_line
request_line line c = checked_line (index_of b' ' line) (is_request line) line c

unfoldable pub process_line : Part → Bytes → Client → Handled
unfolding request_line header_line
process_line request_part line c = request_line line c
process_line header_part line c = handled (header_line line c)
process_line body_part line c = handled c
