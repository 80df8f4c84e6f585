-- ===== src/Requests/Sound/Lines.antt =====
-- A line of src/http.c keeps the invariant of the connection.
use osrv.Base.{
  ℕ, ◌<◌, ◌≡◌, refl, sym, subst, Bool, true, false, ◌||◌, List, Option, none, some, length, drop,
  take, All, ◌-◌, arith,
}
use osrv.Base.Bytes.{Bytes}
use osrv.Base.Text.{codes}
use osrv.Sfs.Object.{same_bytes}
use osrv.Server.Http.{Method}
use osrv.Server.Tcp.{skip_blanks}
use osrv.Requests.{
  Req, HeaderBuf, Part, request_part, header_part, body_part, Client, line_buf_size,
}
use osrv.Requests.Headers.{record_method}
use osrv.Requests.Headers.Bounds.{Fits, record_line-All, record_method-All}
use osrv.Requests.Lines.{
  Handled, handled, refused, set_header, set_named, header_line, split_name, method_of,
  known_or_other, path_of, with_method, request_line, checked_line, is_request, index_of,
  process_line, response_text, not_implemented,
}

-- In the part of the request line and the headers, with no body.
abbrev pub Heading : Part → Option Bytes → Type 0
Heading request_part none = Unit
Heading header_part none = Unit
Heading request_part (some b) = ⊥
Heading header_part (some b) = ⊥
Heading body_part b = ⊥

pub record Head (c : Client) : Type 0 where
  pub room : length c.line_buf < line_buf_size
  pub buffers : All Fits c.headers
  pub heading : Heading c.part c.req.body

-- What a line leaves: the same text in the buffer and the invariant, or an answer.
abbrev pub Kept : Client → Handled → Type 0
Kept c (handled d) = Head d × (d.line_buf ≡ c.line_buf)
Kept c (refused text) = Unit

set_header-body : (name k : Bytes) (req : Req) → (set_header name k req).body ≡ req.body
unfolding set_header
set_header-body name k req = ground arith

set_named-body : (p : Bytes × Option Bytes) (req : Req) → (set_named p req).body ≡ req.body
unfolding set_named
set_named-body (name, none) req = refl
set_named-body (name, some k) req = set_header-body name (skip_blanks k) req

header_line-Kept : (line : Bytes) (c : Client) → Head c → Kept c (handled (header_line line c))
unfolding header_line
header_line-Kept line c s = (
  record {
    room = s.room;
    buffers = record_line-All line c.headers s.buffers;
    heading =
        subst (λ (b : Option Bytes). Heading c.part b)
          (sym (set_named-body (split_name line) c.req)) s.heading;
  },
  refl,
)

Heading-none : (b : Option Bytes) → Heading request_part b → b ≡ none
Heading-none none h = refl
Heading-none (some b) h = absurd h

method_chosen-Kept :
    (i : ℕ) (line : Bytes) (headers : List HeaderBuf) (req : Req) (c : Client) (o : Option Method)
    → Head c
    → All Fits headers
    → req.body ≡ none
    → Kept c (elim o [
      | none ↦ refused (response_text req not_implemented)
      | some m ↦ handled (record c {
        part = header_part;
        headers = headers;
        req = record req { method = some m; path = some (path_of i line) };
      })
    ])
method_chosen-Kept i line headers req c none s fits e = tt
method_chosen-Kept i line headers req c (some m) s fits e = (
  record {
    room = s.room;
    buffers = fits;
    heading = subst (λ (b : Option Bytes). Heading header_part b) (sym e) tt;
  },
  refl,
)

with_method-Kept :
    (i : ℕ) (line : Bytes) (r : Bool × List HeaderBuf) (req : Req) (c : Client)
    → Head c
    → All Fits r.1
    → req.body ≡ none
    → Kept c (with_method i line r req c)
unfolding with_method
with_method-Kept i line (fits, headers) req c s all e =
    method_chosen-Kept i line headers req c (known_or_other fits (method_of line req.method)) s all
      e

checked_line-Kept :
    (o : Option ℕ) (is_good : Bool) (line : Bytes) (c : Client)
    → Head c
    → c.req.body ≡ none
    → Kept c (checked_line o is_good line c)
unfolding checked_line
checked_line-Kept none is_good line c s e = tt
checked_line-Kept (some i) false line c s e = tt
checked_line-Kept (some i) true line c s e =
    let old = same_bytes (drop (length line - 3) line) (codes "1.0") || c.req.attrs.http_1_0 in
    with_method-Kept i line (record_method (take i line) c.headers)
      (record (c.req) { attrs = record (c.req.attrs) { http_1_0 = old } }) c s
      (record_method-All (take i line) c.headers s.buffers) e

request_line-Kept :
    (line : Bytes) (c : Client) → Head c → c.req.body ≡ none → Kept c (request_line line c)
unfolding request_line
request_line-Kept line c s e = checked_line-Kept (index_of b' ' line) (is_request line) line c s e

pub process_line-Kept :
    (part : Part) (line : Bytes) (c : Client)
    → part ≡ c.part
    → Head c
    → Kept c (process_line part line c)
unfolding process_line
process_line-Kept request_part line c p s =
    request_line-Kept line c s
      (Heading-none c.req.body (subst (λ (q : Part). Heading q c.req.body) (sym p) s.heading))
process_line-Kept header_part line c p s = header_line-Kept line c s
process_line-Kept body_part line c p s =
    absurd (subst (λ (q : Part). Heading q c.req.body) (sym p) s.heading)
