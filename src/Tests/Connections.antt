-- ===== src/Tests/Connections.antt =====
-- The requests of src/http.c, the calls of src/robj.c and the tasks of src/therver.c.
use osrv.Base.{
  leb, if◌then◌else◌, ℕ, zero, suc, ◌<◌, ◌≡◌, ◌≢◌, refl, true, false, List, [], ◌∷◌, ◌++◌, none,
  some, length, All, arith,
}
use osrv.Base.Bytes.{Bytes}
use osrv.Base.Decimal.{decimal, decimal_go}
use osrv.Base.Text.{codes}
use osrv.Sfs.Object.{Sexp, vec, raw, int, plain}
use osrv.Sfs.Store.{encode}
use osrv.Sfs.RoundTrip.{Restorable, RestorableMeta}
use osrv.Api.{value, raw_of, c_put, c_get}
use osrv.Api.Trips.{r_key, c_put-c_get, c_get-c_get}
use osrv.Pool.{started, enqueue}
use osrv.Pool.Ring.{IsPool}
use osrv.Pool.Fifo.{IsNew, accepts, idle, after, InOrder, start, started-InOrder}
use osrv.Queue.{Heap, update, set_prev, set_next}
use osrv.Server.Http.{Method, put, delete}
use osrv.Server.State.{Server, add, entries}
use osrv.Stores.Reads.{chunk, closed}
use osrv.Requests.{line_buf_size, HeaderBuf, clear_http_request, new_client}
use osrv.Requests.Headers.{recorded, collected, past_buffer, collect_buffers}
use osrv.Requests.Headers.Bounds.{
  Fits, record_lines, lines_text, record_lines-recorded, collect_buffers-lines,
}
use osrv.Requests.Lines.Request.{request_text}
use osrv.Requests.Turn.{read_buffer}
use osrv.Requests.Connection.{iteration, size, http_connected}
use osrv.Requests.Sound.{Sound, After, Ended}
use osrv.Requests.Sound.Rounds.{iteration-After, http_connected-Ended}
use osrv.Requests.Wire.{wire, request_of, read_buffer-wire}
use osrv.Requests.Wire.Message.{HasBody}
use osrv.Requests.Wire.Body.{header_texts}
use osrv.Base.{◌≤◌}
use osrv.Requests.Wire.Stores.{
  Upload, text_of, IsUpload, uploads, stacks_after, Leaves, http_connected-Leaves,
}

-- Fresh memory.
unfoldable zeros : ℕ → Bytes
zeros zero = []
zeros (suc n) = 0 ∷ zeros n

abbrev empty_server : Server
empty_server = record {
  objects = record { root = []; pool = []; preserved = 0 };
  deps = record { chain = []; tail = 0; posted = [] };
  queue = false;
}

abbrev of_k : Method → Bytes → Upload
of_k m body = record { method = m; key = codes "k"; host = codes "h"; body = body }

of_k-IsUpload :
    (m : Method) (body : Bytes)
    → HasBody m
    → 0 < length body
    → length (text_of (of_k m body)) < line_buf_size
    → length (header_texts m (codes "h") (length body)) ≤ 1024
    → IsUpload (of_k m body)
of_k-IsUpload m body has_body some_body fits short_headers = record {
  has_body = has_body;
  is_key = (refl, tt);
  is_path = omega arith;
  is_host = omega arith;
  some_body = some_body;
  fits = fits;
  short_headers = short_headers;
}

-- Two PUT requests and a DELETE request for one key.
abbrev two_puts_and_delete : List Upload
two_puts_and_delete = of_k put (7 ∷ 8 ∷ []) ∷ of_k put (9 ∷ []) ∷ of_k delete (1 ∷ []) ∷ []

http_connected-Leaves_example :
    Leaves zeros
      (stacks_after two_puts_and_delete (λ j. entries j empty_server))
      empty_server
      (http_connected zeros (uploads two_puts_and_delete))
unfolding wire request_text decimal decimal_go lines_text
http_connected-Leaves_example = http_connected-Leaves zeros two_puts_and_delete empty_server (
  of_k-IsUpload put (7 ∷ 8 ∷ []) tt (omega arith) (omega arith) (omega arith),
  (
    of_k-IsUpload put (9 ∷ []) tt (omega arith) (omega arith) (omega arith),
    (of_k-IsUpload delete (1 ∷ []) tt (omega arith) (omega arith) (omega arith), tt),
  ),
)

http_connected-Ended_example :
    Ended (http_connected zeros (chunk b'G' (b'E' ∷ []) ∷ closed ∷ [])).state
http_connected-Ended_example = http_connected-Ended zeros (chunk b'G' (b'E' ∷ []) ∷ closed ∷ [])

new_client-Sound : Sound 1 new_client
unfolding new_client clear_http_request
new_client-Sound = record { room = omega arith; buffers = tt; bodied = tt }

iteration-After_example :
    After 1
      (size (chunk b'G' [] ∷ []))
      (iteration zeros (chunk b'G' [] ∷ []) new_client).0.state
      (size (iteration zeros (chunk b'G' [] ∷ []) new_client).1)
iteration-After_example = iteration-After zeros (chunk b'G' [] ∷ []) new_client new_client-Sound

abbrev get_lines : List Bytes
get_lines = codes "GET / HTTP/1.1" ∷ codes "Host: h" ∷ []

read_buffer-wire_example :
    read_buffer zeros (record new_client { line_buf = wire get_lines [] })
    ≡ request_of zeros get_lines [] (record new_client { line_buf = wire get_lines [] })
read_buffer-wire_example =
    read_buffer-wire zeros get_lines [] (record new_client { line_buf = wire get_lines [] })
      (omega arith) refl

-- A buffer of four bytes.
abbrev small_buffer : HeaderBuf
small_buffer = record { size = 4; text = [] }

record_lines-recorded_example :
    All Fits (record_lines (codes "abc" ∷ codes "de" ∷ []) (small_buffer ∷ []))
    × (recorded (record_lines (codes "abc" ∷ codes "de" ∷ []) (small_buffer ∷ []))
        ≡ recorded (small_buffer ∷ []) ++ lines_text (codes "abc" ∷ codes "de" ∷ []))
record_lines-recorded_example =
    record_lines-recorded (codes "abc" ∷ codes "de" ∷ []) (small_buffer ∷ []) ((omega arith, tt))

collect_buffers-lines_example :
    collect_buffers zeros (record_lines (codes "abc" ∷ []) (small_buffer ∷ [])) ≡ (
      if leb (length (small_buffer.text ++ lines_text (codes "abc" ∷ []))) 4
      then collected
          (record {
            length = length (small_buffer.text ++ lines_text (codes "abc" ∷ []));
            bytes = zeros (length (small_buffer.text ++ lines_text (codes "abc" ∷ [])));
          })
          (small_buffer.text ++ lines_text (codes "abc" ∷ []))
      else past_buffer)
collect_buffers-lines_example =
    collect_buffers-lines zeros (codes "abc" ∷ []) small_buffer (omega arith)

abbrev bytes_vector : Sexp
bytes_vector = vec raw plain 2 (7 ∷ 8 ∷ [])

c_put-c_get_example :
    ((c_get
        (r_key plain (codes "k"))
        true
        true
        (c_put (r_key plain (codes "k")) bytes_vector false empty_server).1).0
      ≡ value bytes_vector)
    × (entries
          (codes "k")
          (c_get
            (r_key plain (codes "k"))
            true
            true
            (c_put (r_key plain (codes "k")) bytes_vector false empty_server).1).1
        ≡ entries (codes "k") empty_server)
unfolding raw_of
c_put-c_get_example =
    c_put-c_get plain (codes "k") (codes "k") bytes_vector false true true empty_server tt

abbrev one : Sexp
one = vec int plain 1 (1 ∷ 0 ∷ 0 ∷ 0 ∷ [])

-- The raw data are asked for first, and the object afterwards.
c_get-c_get_example :
    let s₁ = add (codes "k") none (some (encode one)) (length (encode one)) empty_server in
    ((c_get (r_key plain (codes "k")) false false s₁).0
      ≡ value (vec raw plain (length (encode one)) (encode one)))
    × ((c_get
          (r_key plain (codes "k"))
          true
          false
          (c_get (r_key plain (codes "k")) false false s₁).1).0
        ≡ value (vec raw plain (length (encode one)) (encode one)))
unfolding Restorable RestorableMeta
c_get-c_get_example =
    c_get-c_get plain (codes "k") one false true false empty_server (tt, refl, omega arith)

abbrev pub blank : Heap
blank = λ x. record { prev = 0; next = 0 }

pub first-IsNew : IsNew 8 (started 3 blank)
unfolding started set_prev set_next update
first-IsNew = (omega arith, (omega arith, none_there))
  where
    none_there : (xs : List ℕ) → IsPool (started 3 blank) xs → All (λ y. y ≢ 8) xs
    none_there [] p = tt
    none_there (x ∷ xs) ((n, ring), (((d, ds), e), z)) = absurd (d n)

-- One connection is accepted.
started-InOrder_example :
    InOrder
      (record (start 3 blank) { pool = enqueue 8 5 (started 3 blank); accepted = some 5 ∷ [] })
started-InOrder_example =
    started-InOrder 3 blank
      (record (start 3 blank) { pool = enqueue 8 5 (started 3 blank); accepted = some 5 ∷ [] })
      (after (start 3 blank) (start 3 blank) _ (idle (start 3 blank))
        (accepts (start 3 blank) 8 5 first-IsNew))
