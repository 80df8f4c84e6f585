-- ===== src/Server/Http.antt =====
-- `http_process` of src/ohsrv.c: the requests of the HTTP protocol on the object store. What
-- `http_response` and `http_send` put on the connection is a `Response`.
pub mod Data
use osrv.Base.{
  ℕ, zero, suc, ◌+◌, ◌%◌, ◌^◌, ◌≡◌, Bool, true, false, not, ◌&&◌, ◌||◌, List, [], ◌∷◌, ◌++◌, Option,
  none, some, ltb, ◌==◌, if◌then◌else◌, take, drop,
}
use osrv.Base.Bytes.{Bytes}
use osrv.Sfs.Object.{Sexp, same_bytes}
use osrv.Server.Objects.{Entry, is_some}
use osrv.Server.Deps.{Deps, Event, work}
use osrv.Server.State.{Server, add, get}

-- `req->method`: the METHOD_ constants of src/http.h.
pub data Method : Type 0 where
  post get_method head put delete other : Method

-- `body` is the malloc'ed body or NULL; `content_length` is not negative for a request that the
-- parser passes on.
pub record Request : Type 0 where
  pub path : Bytes
  pub method : Method
  pub body : Option Bytes
  pub content_length : ℕ

-- What follows the headers.
pub data Payload : Type 0 where
  nothing : Payload
  bytes : Option Bytes → ℕ → Payload
  chunked : Sexp → Payload

pub record Response : Type 0 where
  pub code : ℕ
  -- application/octet-stream, or the default
  pub octets : Bool
  -- the Content-length header, if there is one
  pub content_length : Option ℕ
  pub payload : Payload

pub record Processed : Type 0 where
  pub server : Server
  pub response : Response
  -- req->body as `http_process` leaves it
  pub body : Option Bytes

-- An `obj_len_t` as the `int` argument of `http_response`: a negative one gives no header.
unfoldable pub int_length : ℕ → Option ℕ
int_length n = let w = n % 2 ^ 32 in if ltb w (2 ^ 31) then some w else none

unfoldable pub starts_with : Bytes → Bytes → Bool
starts_with [] s = true
starts_with (b ∷ bs) [] = false
starts_with (b ∷ bs) (c ∷ cs) = let rest = starts_with bs cs in if b == c then rest else false

-- The key ends at the first slash or question mark.
unfoldable pub key_of : Bytes → Bytes
key_of [] = []
key_of (c ∷ cs) = let rest = key_of cs in if c == b'/' || c == b'?' then [] else c ∷ rest

abbrev pub data_prefix : Bytes
data_prefix = b'/' ∷ b'd' ∷ b'a' ∷ b't' ∷ b'a' ∷ b'/' ∷ []

abbrev pub work_prefix : Bytes
work_prefix = b'/' ∷ b'w' ∷ b'o' ∷ b'r' ∷ b'k' ∷ b'/' ∷ []

abbrev pub empty_response : ℕ → Response
empty_response code = record {
  code = code;
  octets = false;
  content_length = some 0;
  payload = nothing;
}

abbrev pub keeps : Server → Request → Response → Processed
keeps s req r = record { server = s; response = r; body = req.body }

-- GET and HEAD of an entry.
unfoldable pub found : Bool → Entry → Response
unfolding int_length
found is_get o =
    let streamed = is_get && not (is_some o.obj) && is_some o.what in
    let plain : Response = record {
      code = 200;
      octets = true;
      content_length = elim o.obj [ none ↦ none | some d ↦ int_length o.len ];
      payload = if is_get then bytes o.obj o.len else nothing;
    } in
    elim o.what [
      | none ↦ plain
      | some x ↦
          if streamed
          then record { code = 200; octets = true; content_length = none; payload = chunked x }
          else plain
    ]

unfoldable pub lookup : Bool → Request → Bytes → Server → Processed
unfolding found
lookup is_get req key s =
    let r = get key false s in
    elim r.0 [ none ↦ keeps r.1 req (empty_response 404) | some o ↦ keeps r.1 req (found is_get o) ]

unfoldable pub remove : Request → Bytes → Server → Processed
remove req key s =
    let r = get key true s in
    elim r.0 [
      | none ↦ keeps r.1 req (empty_response 404)
      | some o ↦ keeps r.1 req (empty_response 200)
    ]

-- The store takes ownership of the body.
unfoldable pub store_body : Request → Bytes → Server → Processed
store_body req key s = record {
  server = add key none req.body req.content_length s;
  response = empty_response 200;
  body = none;
}

-- The /work API: `ev_create` and `ev_push` succeed.
unfoldable pub push_work : Request → Server → Processed
push_work req s = elim req.body [
  | none ↦ keeps s req (empty_response 403)
  | some b ↦ if ltb req.content_length 1 then keeps s req (empty_response 403) else record {
    server = record s {
      deps = record (s.deps) { posted = s.deps.posted ++ work (take req.content_length b) ∷ [] };
    };
    response = empty_response 200;
    body = none;
  }
]

unfoldable pub process_work : Method → Request → Server → Processed
unfolding push_work
process_work post req s = if s.queue then push_work req s else keeps s req (empty_response 404)
process_work _ req s = keeps s req (empty_response 405)

-- Other methods on /data/ go on to the other paths, which do not match.
unfoldable pub process_data : Method → Request → Bytes → Server → Processed
unfolding lookup remove store_body
process_data get_method req key s = lookup true req key s
process_data head req key s = lookup false req key s
process_data delete req key s = remove req key s
process_data put req key s = store_body req key s
process_data _ req key s = keeps s req (empty_response 404)

unfoldable pub http_process : Request → Server → Processed
unfolding process_data process_work starts_with key_of
http_process req s =
    if starts_with data_prefix req.path
    then process_data req.method req (key_of (drop 6 req.path)) s
    else if starts_with work_prefix req.path
    then process_work req.method req s
    else keeps s req (empty_response 404)
