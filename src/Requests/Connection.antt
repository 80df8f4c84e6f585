-- ===== src/Requests/Connection.antt =====
-- `http_input_iteration` and the loop of `http_connected` of src/http.c.
use osrv.Base.{
  ℕ, zero, suc, ◌+◌, ◌-◌, Bool, true, false, List, [], ◌∷◌, ◌++◌, Option, none, some, ltb, ◌==◌,
  if◌then◌else◌, length, drop,
}
use osrv.Base.Bytes.{Bytes}
use osrv.Stores.Reads.{Event, chunk, again, broken, closed}
use osrv.Requests.{Part, body_part, Client, line_buf_size, new_client}
use osrv.Requests.Lines.{response_text}
use osrv.Requests.Scan.{blank_line}
use osrv.Requests.Turn.{
  Received, got, ended, failed, recv, Out, State, ready, shut, out_of_fuel, Turn, stay, wait,
  refuse, length_required, finish_request, process_and_close, read_buffer, receive_body,
}

abbrev shut_quietly : Turn
shut_quietly = record { log = []; state = shut }

-- The end of the input: the request is processed if it has a path.
unfoldable pub at_close : (ℕ → Bytes) → Option Bytes → Client → Turn
unfolding process_and_close
at_close fresh none c = shut_quietly
at_close fresh (some p) c = process_and_close fresh c

-- What follows `recv` in the part of the request line and the headers.
unfoldable pub after_recv :
    (ℕ → Bytes) → Option (Received × List Event) → Client → Turn × List Event
unfolding at_close read_buffer
after_recv fresh none c = (wait c, [])
after_recv fresh (some (failed, es)) c = (shut_quietly, es)
after_recv fresh (some (ended, es)) c = (at_close fresh c.req.path c, es)
after_recv fresh (some (got b, es)) c =
    (read_buffer fresh (record c { line_buf = c.line_buf ++ b }), es)

-- The part that expects an empty body. The bytes of its `recv` are not counted by `line_pos`.
unfoldable pub empty_line : Bytes → Bool
unfolding blank_line
empty_line s = elim (blank_line s) [ none ↦ false | some rest ↦ true ]

unfoldable pub shift_blank : Bytes → Bytes
shift_blank [] = []
shift_blank (c ∷ s) = if c == 13 then drop 1 s else s

unfoldable pub after_empty :
    (ℕ → Bytes) → Option (Received × List Event) → Client → Turn × List Event
unfolding process_and_close empty_line response_text
after_empty fresh none c = (wait c, [])
after_empty fresh (some (failed, es)) c = (shut_quietly, es)
after_empty fresh (some (ended, es)) c = (process_and_close fresh c, es)
after_empty fresh (some (got b, es)) c =
    (if empty_line b then stay c else refuse (response_text c.req length_required), es)

unfoldable pub empty_body : (ℕ → Bytes) → List Event → Client → Turn × List Event
unfolding after_empty finish_request empty_line shift_blank recv response_text
empty_body fresh es c =
    if ltb 0 (length c.line_buf)
    then (
      if empty_line c.line_buf
          then finish_request fresh false (record c { line_buf = shift_blank c.line_buf })
          else refuse (response_text c.req length_required),
      es,
    )
    else after_empty fresh (recv (line_buf_size - 1) es) c

unfoldable pub body_of : (ℕ → Bytes) → Option Bytes → List Event → Client → Turn × List Event
unfolding receive_body empty_body
body_of fresh none es c = empty_body fresh es c
body_of fresh (some b) es c = receive_body fresh b es c

unfoldable pub body_turn : (ℕ → Bytes) → List Event → Client → Turn × List Event
unfolding body_of
body_turn fresh es c = body_of fresh c.req.body es c

-- The body may follow in the same turn.
unfoldable pub go_on : (ℕ → Bytes) → Part → List Event → Client → Turn × List Event
unfolding body_turn
go_on fresh body_part es c = body_turn fresh es c
go_on fresh _ es c = (stay c, es)

unfoldable pub then_body : (ℕ → Bytes) → State → List Out → List Event → Turn × List Event
unfolding go_on
then_body fresh (ready c) log es =
    let (u, rest) = go_on fresh c.part es c in (record u { log = log ++ u.log }, rest)
then_body fresh s log es = (record { log = log; state = s }, es)

-- `http_input_iteration`. A turn that waits for `recv` leaves the connection as it is.
unfoldable pub iteration_in : (ℕ → Bytes) → Part → List Event → Client → Turn × List Event
unfolding body_turn then_body after_recv recv
iteration_in fresh body_part es c = body_turn fresh es c
iteration_in fresh _ es c =
    let (t, rest) = after_recv fresh (recv (line_buf_size - length c.line_buf - 1) es) c in
    then_body fresh t.state t.log rest

unfoldable pub iteration : (ℕ → Bytes) → List Event → Client → Turn × List Event
unfolding iteration_in
iteration fresh es c = iteration_in fresh c.part es c

-- The loop of `http_connected`, until the connection is closed or waits for ever; `next` is the rest
-- of the loop.
unfoldable pub next_turn : (List Event → Client → Turn) → State → List Out → List Event → Turn
next_turn next (ready c) log es = let u = next es c in record u { log = log ++ u.log }
next_turn next s log es = record { log = log; state = s }

unfoldable pub connected_loop : (ℕ → Bytes) → ℕ → List Event → Client → Turn
unfolding iteration next_turn
connected_loop fresh zero es c = record { log = []; state = out_of_fuel }
connected_loop fresh (suc f) es c =
    let (t, rest) = iteration fresh es c in next_turn (connected_loop fresh f) t.state t.log rest

-- The bytes and events that may arrive: the rounds that the loop can take.
unfoldable pub size : List Event → ℕ
size [] = 0
size (chunk c cs ∷ es) = suc (length cs) + size es
size (again ∷ es) = suc (size es)
size (broken ∷ es) = suc (size es)
size (closed ∷ es) = suc (size es)

-- `http_connected`.
unfoldable pub http_connected : (ℕ → Bytes) → List Event → Turn
unfolding connected_loop size new_client
http_connected fresh es = connected_loop fresh (suc (size es)) es new_client
