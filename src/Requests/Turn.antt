-- ===== src/Requests/Turn.antt =====
-- `http_input_iteration` of src/http.c: one turn of a connection. `fresh n` is what `malloc` leaves
-- in `n` bytes; `malloc` succeeds. The callback is a record of the request that it is given.
use osrv.Base.{
  ℕ, zero, suc, ◌-◌, Bool, true, false, not, ◌&&◌, ◌||◌, List, [], ◌∷◌, ◌++◌, Option, none, some,
  ltb, ◌==◌, if◌then◌else◌, length, take, min,
}
use osrv.Base.Bytes.{Bytes}
use osrv.Base.Text.{codes}
use osrv.Server.Http.{Method, get_method, head}
use osrv.Stores.Reads.{Event, chunk, again, broken, closed, unread}
use osrv.Requests.{
  ℤ, pos, negsuc, Req, request_part, body_part, Client, line_buf_size, clear_http_request,
}
use osrv.Requests.Headers.{Collected, no_buffers, collected, past_buffer, collect_buffers}
use osrv.Requests.Scan.{Look, nothing, blank, partial, complete, look}
use osrv.Requests.Lines.{Handled, handled, refused, process_line, response_text}

-- What `recv` returns: some bytes, 0 or -1.
pub data Received : Type 0 where
  got : Bytes → Received
  ended failed : Received

-- A `recv` of at most `n` bytes, if it returns, and what will arrive after it. A `recv` of 0 bytes
-- waits as any other, and takes nothing.
unfoldable pub recv : ℕ → List Event → Option (Received × List Event)
unfolding unread
recv n [] = none
recv zero (chunk c cs ∷ es) = some (ended, chunk c cs ∷ es)
recv (suc n) (chunk c cs ∷ es) = some (got (take (suc n) (c ∷ cs)), unread (suc n) (c ∷ cs) es)
recv n (again ∷ es) = some (failed, es)
recv n (broken ∷ es) = some (failed, es)
recv n (closed ∷ es) = some (ended, es)

-- What a turn does: answers that the parser sends itself, and calls of the callback.
pub data Out : Type 0 where
  replied : Bytes → Out
  processed : Req → Out

-- The connection after a turn; `waiting` in a `recv` that has not returned. `corrupted` is where
-- `collect_buffers` has written past a buffer, from where on the model says nothing.
pub data State : Type 0 where
  ready waiting corrupted : Client → State
  shut : State
  out_of_fuel : State

pub record Turn : Type 0 where
  pub log : List Out
  pub state : State

abbrev pub stay : Client → Turn
stay c = record { log = []; state = ready c }

abbrev pub wait : Client → Turn
wait c = record { log = []; state = waiting c }

-- An answer, and `http_close`.
abbrev pub refuse : Bytes → Turn
refuse text = record { log = replied text ∷ []; state = shut }

abbrev pub bad_host : Bytes
bad_host = codes " 400 Bad Request (Host: missing)\r\nConnection: close\r\n\r\n"

abbrev pub body_too_big : Bytes
body_too_big =
    codes " 413 Request Entity Too Large (request body too big)\r\nConnection: close\r\n\r\n"

abbrev pub body_unexpected : Bytes
body_unexpected = codes " 400 Bad Request (GET/HEAD with body)\r\n\r\n"

abbrev pub line_too_long : Bytes
line_too_long = codes " 413 Request entity too large\r\nConnection: close\r\n\r\n"

abbrev pub length_required : Bytes
length_required = codes " 411 length is required for non-empty body\r\nConnection: close\r\n\r\n"

unfoldable pub is_zero : ℤ → Bool
is_zero (pos n) = n == 0
is_zero (negsuc n) = false

unfoldable pub is_positive : ℤ → Bool
is_positive (pos n) = ltb 0 n
is_positive (negsuc n) = false

-- `content_length < 0 || content_length > 2147483640`.
unfoldable pub is_excessive : ℤ → Bool
is_excessive (pos n) = ltb 2147483640 n
is_excessive (negsuc n) = true

-- `content_length - body_pos` if that is positive, or 0.
unfoldable pub missing : ℤ → Bytes → ℕ
missing (pos n) b = n - length b
missing (negsuc n) b = 0

unfoldable pub is_complete : ℤ → Bytes → Bool
is_complete (pos n) b = length b == n
is_complete (negsuc n) b = false

unfoldable pub is_bodyless : Option Method → Bool
is_bodyless (some get_method) = true
is_bodyless (some head) = true
is_bodyless _ = false

-- The incomplete line `s` moves to the beginning of the buffer, if it is not there.
unfoldable pub keep_partial : Bytes → Client → Turn
unfolding response_text
keep_partial s c =
    if length s == length c.line_buf
    then (if ltb (length c.line_buf) line_buf_size
        then stay c
        else refuse (response_text c.req line_too_long))
    else stay (record c { line_buf = s })

-- `clear_http_request` and the release of the headers, before the next request.
unfoldable pub next_request : Client → Client
unfolding clear_http_request
next_request c = record c { part = request_part; headers = []; req = clear_http_request }

unfoldable pub after_line : (Client → Turn) → Handled → Turn
after_line next (handled d) = next d
after_line next (refused text) = refuse text

-- The body as far as the buffer has it; the rest of the buffer is counted and not moved.
unfoldable pub begin_body : ℕ → Client → Client
begin_body n c =
    let k = min n (length c.line_buf) in
    record c {
      line_buf = take (length c.line_buf - k) c.line_buf;
      req = record (c.req) { body = some (take k c.line_buf) };
    }

unfoldable pub with_headers : Collected → Req → Option Req
with_headers no_buffers req = some (record req { headers = none })
with_headers (collected block text) req = some (record req { headers = some block })
with_headers past_buffer req = none

module _ (fresh : ℕ → Bytes) where
  -- The request as `process_request` hands it to the callback, if it gets there.
  unfoldable pub handed : Client → Option Req
  unfolding collect_buffers with_headers
  handed c = with_headers (collect_buffers fresh c.headers) c.req

  -- `process_request`, and the state that follows it.
  unfoldable pub process_request : State → Client → Turn
  unfolding handed
  process_request next c = elim (handed c) [
    | none ↦ record { log = []; state = corrupted c }
    | some q ↦ record { log = processed q ∷ []; state = next }
  ]

  -- `process_request`, the close that `fin_request` asks for, and the reset.
  unfoldable pub finish_request : Bool → Client → Turn
  unfolding process_request next_request
  finish_request surplus c =
      let old = c.req.attrs.http_1_0 || c.req.attrs.connection_close || surplus in
      process_request (if old then shut else ready (next_request c)) c

  -- `recv` has returned 0.
  unfoldable pub process_and_close : Client → Turn
  unfolding process_request
  process_and_close c = process_request shut c

  -- The part behind the test of the length: no body, or one of `n` bytes.
  unfoldable pub choose_body : Bool → ℤ → Client → Turn
  unfolding finish_request begin_body is_positive response_text
  choose_body has_length (negsuc n) c = finish_request false c
  choose_body has_length (pos n) c =
      if is_bodyless c.req.method || not has_length || (n == 0)
      then (if has_length && ltb 0 n
          then refuse (response_text c.req body_unexpected)
          else finish_request false c)
      else stay (begin_body n c)

  -- The empty line behind the headers, with `rest` behind it.
  unfoldable pub end_of_headers : Bytes → Client → Turn
  unfolding choose_body is_zero is_excessive response_text
  end_of_headers rest c =
      let a = c.req.attrs in
      if not a.http_1_0 && not a.host_header
      then refuse (response_text c.req bad_host)
      else if a.content_length
          && not (is_zero c.req.content_length)
          && is_excessive c.req.content_length
      then refuse (response_text c.req body_too_big)
      else choose_body a.content_length c.req.content_length
          (record c { part = body_part; line_buf = rest })

  -- What a round of the loop does, from the text `s` in the buffer; `next` is the rest of the loop.
  unfoldable pub read_look : (Bytes → Client → Turn) → Look → Bytes → Client → Turn
  unfolding end_of_headers keep_partial process_line after_line
  read_look next nothing s c = stay (record c { line_buf = [] })
  read_look next (blank rest) s c = end_of_headers rest c
  read_look next partial s c = keep_partial s c
  read_look next (complete line rest) s c = after_line (next rest) (process_line c.part line c)

  -- The loop over the buffer; a unit of fuel for each line.
  unfoldable pub read_lines : ℕ → Bytes → Client → Turn
  unfolding look read_look
  read_lines zero s c = record { log = []; state = out_of_fuel }
  read_lines (suc f) s c = read_look (read_lines f) (look s) s c

  unfoldable pub read_buffer : Client → Turn
  unfolding read_lines
  read_buffer c = read_lines (suc (length c.line_buf)) c.line_buf c

  -- The whole body has been received, or more is needed.
  unfoldable pub after_body : Bytes → Client → Turn
  unfolding finish_request is_complete
  after_body b c =
      if is_complete c.req.content_length b
      then finish_request (ltb 0 (length c.line_buf)) c
      else stay c

  -- What follows a `recv` of a part of the body.
  unfoldable pub after_more :
      Bytes → Option (Received × List Event) → List Event → Client → Turn × List Event
  unfolding after_body process_and_close
  after_more b none es c = (wait c, es)
  after_more b (some (ended, rest)) es c = (process_and_close c, rest)
  after_more b (some (failed, rest)) es c = (record { log = []; state = shut }, rest)
  after_more b (some (got more, rest)) es c = (
    after_body (b ++ more)
        (record c { line_buf = []; req = record (c.req) { body = some (b ++ more) } }),
    rest,
  )

  unfoldable pub receive_body : Bytes → List Event → Client → Turn × List Event
  unfolding recv missing after_body after_more
  receive_body b es c =
      let need = missing c.req.content_length b in
      if ltb 0 need then after_more b (recv need es) es c else (after_body b c, es)
