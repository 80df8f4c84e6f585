-- ===== src/Requests/Wire/Body.antt =====
-- A request with a body that reaches src/http.c in one piece: what the callback is given.
use osrv.Base.{
  ℕ, ◌-◌, ◌^◌, ◌≤◌, ◌<◌, ◌≡◌, refl, ◌∙◌, ap, true, false, List, [], ◌∷◌, ◌++◌, Option, some, ◌==◌,
  ==-refl, ltb, length, take_all, All, arith, min,
}
use osrv.Base.Bytes.{Bytes}
use osrv.Server.Http.{Method}
use osrv.Stores.Reads.{Event}
use osrv.Requests.{
  pos, request_part, header_part, body_part, Client, line_buf_size, no_attrs, clear_http_request,
  new_client,
}
use osrv.Requests.Headers.{
  record_line, record_method, add_method, alloc_buffer, collected, collect_buffers,
}
use osrv.Requests.Headers.Bounds.{Fits, lines_text, record_lines, collect_buffers-lines}
use osrv.Requests.{HeaderBuf, Req}
use osrv.Base.Text.{codes}
use osrv.Requests.Turn.{process_request, with_headers}
use osrv.Base.{leb}
use osrv.Server.Http.{post, get_method, head, put, delete, other}
use osrv.Requests.Lines.{process_line, header_line}
use osrv.Requests.Lines.Headers.{host_text, length_text, set_named-length}
use osrv.Requests.Lines.Request.{method_word, request_line-text}
use osrv.Requests.Turn.{
  Received, got, recv, processed, ready, Turn, stay, is_zero, is_excessive, missing, is_complete,
  next_request, handed, finish_request, begin_body, choose_body, end_of_headers, read_buffer,
  after_body, receive_body, after_line,
}
use osrv.Requests.Connection.{
  after_recv, body_of, body_turn, go_on, then_body, iteration_in, iteration,
}
use osrv.Requests.Wire.{Plain, request_of, read_buffer-wire}
use osrv.Requests.Wire.Message.{
  message_lines, message, arrives, HasBody, message_lines-Line, recv-arrives, hasbody-Named,
  hasbody-is_bodyless, hasbody-long, length-message,
}

-- The connection behind the headers, with `w` in the buffer.
unfoldable pub headed : Method → Bytes → Bytes → ℕ → Bytes → Client
unfolding record_line record_method clear_http_request
headed m path host n w = record {
  part = header_part;
  line_buf = w;
  headers =
      record_line (length_text n)
        (record_line (host_text host) (record_method (method_word m) []).1);
  req = record clear_http_request {
    method = some m;
    path = some path;
    attrs = record no_attrs { host_header = true; content_length = true };
    content_length = pos n;
  };
}

-- What is recorded of the method and the header lines.
abbrev pub header_texts : Method → Bytes → ℕ → Bytes
header_texts m host n =
    (codes "Request-Method: " ++ (method_word m ++ 10 ∷ []))
    ++ lines_text (host_text host ∷ length_text n ∷ [])

method-recorded :
    (m : Method)
    → (record_method (method_word m) []).1
      ≡ record { size = 1024; text = codes "Request-Method: " ++ (method_word m ++ 10 ∷ []) } ∷ []
unfolding record_method add_method alloc_buffer
method-recorded post = refl
method-recorded get_method = refl
method-recorded head = refl
method-recorded put = refl
method-recorded delete = refl
method-recorded other = refl

method-fits : (m : Method) → length (codes "Request-Method: " ++ (method_word m ++ 10 ∷ [])) ≤ 1024
method-fits post = omega arith
method-fits get_method = omega arith
method-fits head = omega arith
method-fits put = omega arith
method-fits delete = omega arith
method-fits other = omega arith

module _ (fresh : ℕ → Bytes) where
  lines-headed :
      (m : Method) (path host body w : Bytes) (n : ℕ)
      → HasBody m
      → 0 < length path
      → n < 2 ^ 63
      → request_of fresh (message_lines m path host n) body (record new_client { line_buf = w })
        ≡ end_of_headers fresh body (headed m path host n w)
  unfolding request_of after_line process_line header_line headed new_client clear_http_request
  lines-headed m path host body w n b p h =
      let c : Client = record {
        part = request_part;
        line_buf = w;
        headers = [];
        req = clear_http_request;
      } in
      ap (after_line (request_of fresh (host_text host ∷ length_text n ∷ []) body))
        (request_line-text m path c (hasbody-Named m b) (omega (arith, hasbody-long m b)))
      ∙ ap (λ r. end_of_headers fresh body (record (headed m path host n w) { req = r }))
          (set_named-length n
            (record clear_http_request {
              method = some m;
              path = some path;
              attrs = record no_attrs { host_header = true };
            })
            h)

  -- The connection with the body, all of which the buffer had.
  unfoldable pub received : Method → Bytes → Bytes → Bytes → Client
  unfolding headed
  received m path host body =
      let c = headed m path host (length body) [] in
      record c { part = body_part; req = record (c.req) { body = some body } }

  -- The request that the callback is given, with a block of headers that `malloc` has made.
  unfoldable pub given : Method → Bytes → Bytes → Bytes → Req
  unfolding received
  given m path host body =
      let n = length (header_texts m host (length body)) in
      record ((received m path host body).req) {
        headers = some (record { length = n; bytes = fresh n });
      }

  handed-given :
      (m : Method) (path host body : Bytes)
      → length (header_texts m host (length body)) ≤ 1024
      → handed fresh (received m path host body) ≡ some (given m path host body)
  unfolding handed with_headers received headed given record_lines
  handed-given m path host body small =
      let first : HeaderBuf = record {
        size = 1024;
        text = codes "Request-Method: " ++ (method_word m ++ 10 ∷ []);
      } in
      let lines : List Bytes = host_text host ∷ length_text (length body) ∷ [] in
      let within : Fits first = method-fits m in
      let fits : leb (length (header_texts m host (length body))) 1024 ≡ true = ground arith in
      let kept : collect_buffers fresh (record_lines lines (record_method (method_word m) []).1)
          ≡ collect_buffers fresh (record_lines lines (first ∷ [])) =
        ap (λ hs. collect_buffers fresh (record_lines lines hs)) (method-recorded m) in
      let n = length (header_texts m host (length body)) in
      let whole : collect_buffers fresh (record_lines lines (first ∷ []))
          ≡ collected (record { length = n; bytes = fresh n }) (header_texts m host (length body)) =
        rw fits at (collect_buffers-lines fresh lines first within) in
      ap (λ r. with_headers r (received m path host body).req) (kept ∙ whole)

  begin_body-all :
      (body : Bytes) (c : Client)
      → begin_body (length body) (record c { line_buf = body })
        ≡ record c { line_buf = []; req = record (c.req) { body = some body } }
  unfolding begin_body
  begin_body-all body c =
      let all : min (length body) (length body) ≡ length body = omega arith in
      let rest : length body - length body ≡ 0 = omega arith in
      rw all (rw rest (rw (take_all body (length body) (omega arith)) refl))

  end_of_headers-headed :
      (m : Method) (path host body w : Bytes)
      → HasBody m
      → 0 < length body
      → length body ≤ 2147483640
      → end_of_headers fresh body (headed m path host (length body) w)
        ≡ stay (received m path host body)
  unfolding end_of_headers choose_body is_zero is_excessive headed received
  end_of_headers-headed m path host body w b p small =
      let some_body : (length body == 0) ≡ false = ground arith in
      let within : ltb 2147483640 (length body) ≡ false = ground arith in
      rw some_body (
        rw within (
          rw (hasbody-is_bodyless m b) (
            ap stay (
              begin_body-all body
                (record (headed m path host (length body) w) { part = body_part })))))

  receive-received :
      (m : Method) (path host body : Bytes) (es : List Event)
      → length (header_texts m host (length body)) ≤ 1024
      → receive_body fresh body es (received m path host body)
        ≡ (record { log = processed (given m path host body) ∷ []; state = ready new_client }, es)
  unfolding receive_body missing after_body is_complete finish_request next_request received headed
      new_client
  receive-received m path host body es small =
      let none_missing : length body - length body ≡ 0 = omega arith in
      rw none_missing (
        rw (==-refl (length body))
          (rw (handed-given m path host body small, finish_request, process_request) refl))

  read_message :
      (m : Method) (path host body : Bytes)
      → HasBody m
      → All Plain path
      → All Plain host
      → 0 < length path
      → 0 < length body
      → length body ≤ 2147483640
      → read_buffer fresh (record new_client { line_buf = message m path host body })
        ≡ stay (received m path host body)
  read_message m path host body b p h long some_body small =
      let w : Bytes = message m path host body in
      read_buffer-wire fresh (message_lines m path host (length body)) body
        (record new_client { line_buf = w }) (message_lines-Line m path host (length body) p h) refl
      ∙ (lines-headed m path host body w (length body) b long (omega arith)
          ∙ end_of_headers-headed m path host body w b some_body small)

  turn_of :
      (o : Option (Received × List Event)) (w : Bytes) (d : Client) (es : List Event)
      → o ≡ some (got w, es)
      → read_buffer fresh (record new_client { line_buf = w }) ≡ stay d
      → (let (t, rest) = after_recv fresh o new_client in then_body fresh t.state t.log rest)
        ≡ then_body fresh (ready d) [] es
  unfolding after_recv new_client
  turn_of o w d es e r =
      ap
        (λ (u : Option (Received × List Event)).
          let (t, rest) = after_recv fresh u new_client in then_body fresh t.state t.log rest)
        e
      ∙ ap (λ (t : Turn). then_body fresh t.state t.log es) r

  -- A POST, PUT or DELETE request that arrives in one piece and fits the buffer, with headers that
  -- fit one header buffer: the callback is given
  -- one request, and the connection is ready for the next one.
  pub iteration-message :
      (m : Method) (path host body : Bytes) (es : List Event)
      → HasBody m
      → All Plain path
      → All Plain host
      → 0 < length path
      → 0 < length body
      → length (message m path host body) < line_buf_size
      → length (header_texts m host (length body)) ≤ 1024
      → iteration fresh (arrives (message m path host body) es) new_client
        ≡ (record { log = processed (given m path host body) ∷ []; state = ready new_client }, es)
  unfolding iteration iteration_in then_body go_on body_turn body_of received headed new_client
  iteration-message m path host body es b p h long some_body fits small =
      let w : Bytes = message m path host body in
      let at_least = length-message m path host body in
      turn_of (recv 32767 (arrives w es)) w (received m path host body) es
        (recv-arrives 32767 w es (omega arith) (omega arith))
        (read_message m path host body b p h long some_body (omega arith))
      ∙ ap (λ (r : Turn × List Event). (record (r.0) { log = [] ++ r.0.log }, r.1))
          (receive-received m path host body es small)
