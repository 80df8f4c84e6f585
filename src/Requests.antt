-- ===== src/Requests.antt =====
-- The requests of src/http.c: what `http_input_iteration` keeps of a connection between two reads.
pub mod Connection
pub mod Headers
pub mod Lines
pub mod Scan
pub mod Sound
pub mod Turn
pub mod Wire
use osrv.Base.{ℕ, Bool, true, false, List, [], Option, none, some}
use osrv.Base.Bytes.{Bytes}
use osrv.Server.Http.{Method}

-- A `long`; `negsuc n` is -(n + 1).
pub data ℤ : Type 0 where
  pos : ℕ → ℤ
  negsuc : ℕ → ℤ

-- `raw_t`.
pub record Raw : Type 0 where
  pub length : ℕ
  pub bytes : Bytes

-- The bits of `attr`.
pub record Attrs : Type 0 where
  pub connection_close : Bool
  pub host_header : Bool
  pub http_1_0 : Bool
  pub content_length : Bool
  pub content_type : Bool
  pub form_uenc : Bool
  pub ws_upgrade : Bool

-- `http_request_t`. `body` is the bytes of the body that have been received: `body_pos` is their
-- number, and what the allocated block holds behind them is not defined.
pub record Req : Type 0 where
  pub path : Option Bytes
  pub body : Option Bytes
  pub content_type : Option Bytes
  pub content_length : ℤ
  pub method : Option Method
  pub attrs : Attrs
  pub ws_protocol : Option Bytes
  pub ws_version : Option Bytes
  pub ws_key : Option Bytes
  pub headers : Option Raw

-- `struct buffer`: `text` is its `length` bytes.
pub record HeaderBuf : Type 0 where
  pub size : ℕ
  pub text : Bytes

-- PART_REQUEST, PART_HEADER and PART_BODY.
pub data Part : Type 0 where
  request_part header_part body_part : Part

-- `struct http_connection`, while its socket is open. `line_buf` is the bytes before `line_pos`, and
-- `headers` the chain of buffers, the last one first.
pub record Client : Type 0 where
  pub part : Part
  pub line_buf : Bytes
  pub headers : List HeaderBuf
  pub req : Req

abbrev pub line_buf_size : ℕ
line_buf_size = 32_768

abbrev pub no_attrs : Attrs
no_attrs = record {
  connection_close = false;
  host_header = false;
  http_1_0 = false;
  content_length = false;
  content_type = false;
  form_uenc = false;
  ws_upgrade = false;
}

-- `clear_http_request`, and the request that `calloc` gives.
unfoldable pub clear_http_request : Req
clear_http_request = record {
  path = none;
  body = none;
  content_type = none;
  content_length = pos 0;
  method = none;
  attrs = no_attrs;
  ws_protocol = none;
  ws_version = none;
  ws_key = none;
  headers = none;
}

-- The connection as `http_connected` makes it.
unfoldable pub new_client : Client
unfolding clear_http_request
new_client = record { part = request_part; line_buf = []; headers = []; req = clear_http_request }
