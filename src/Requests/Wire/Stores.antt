-- ===== src/Requests/Wire/Stores.antt =====
-- A connection of src/http.c that changes the object store of src/ohsrv.c by several requests.
use osrv.Base.{
  ℕ, zero, suc, ◌<◌, ◌≤◌, ◌≡◌, refl, ap, ◌∙◌, List, [], ◌∷◌, ◌++◌, none, some, length,
  length-append, if◌then◌else◌, All, arith,
}
use osrv.Base.Bytes.{Bytes}
use osrv.Requests.{line_buf_size, Client, new_client}
use osrv.Requests.Connection.{
  iteration, iteration_in, after_recv, then_body, at_close, next_turn, connected_loop, size,
  http_connected,
}
use osrv.Requests.Turn.{recv, shut, Turn}
use osrv.Requests.Wire.{Plain}
use osrv.Requests.Wire.Body.{received, headed, given, header_texts, iteration-message}
use osrv.Requests.Wire.Message.{message, arrives, HasBody, length-message}
use osrv.Requests.Wire.Stored.{as_request, served_one, served}
use osrv.Server.Http.{Method, post, get_method, head, put, delete, other, data_prefix, http_process}
use osrv.Server.Http.Data.{IsKey, Stacks, data_request, effect, http_process-entries}
use osrv.Server.Objects.Stacks.{pop}
use osrv.Sfs.Object.{same_bytes}
use osrv.Server.State.{Server, entries}
use osrv.Stores.Reads.{Event, closed}

-- A request on /data/ with a body.
pub record Upload : Type 0 where
  pub method : Method
  pub key : Bytes
  pub host : Bytes
  pub body : Bytes

abbrev pub text_of : Upload → Bytes
text_of u = message u.method (data_prefix ++ u.key) u.host u.body

-- A key without slash and question mark, no NUL, CR or LF in the key and the host, a body that is not
-- empty, a request that fits the line buffer, and headers that fit the first header buffer.
pub record IsUpload (u : Upload) : Type 0 where
  pub has_body : HasBody u.method
  pub is_key : IsKey u.key
  pub is_path : All Plain (data_prefix ++ u.key)
  pub is_host : All Plain u.host
  pub some_body : 0 < length u.body
  pub fits : length (text_of u) < line_buf_size
  pub short_headers : length (header_texts u.method u.host (length u.body)) ≤ 1024

-- Each request arrives in one piece, and then the client closes the connection.
abbrev pub uploads : List Upload → List Event
uploads [] = closed ∷ []
uploads (u ∷ us) = arrives (text_of u) (uploads us)

abbrev pub upload : Upload → Stacks → Stacks
upload u st j = effect u.method u.key (some u.body) (length u.body) st j

abbrev pub stacks_after : List Upload → Stacks → Stacks
stacks_after [] st = st
stacks_after (u ∷ us) st = stacks_after us (upload u st)

effect-same :
    (m : Method) (u : Upload) (s t : Stacks) (j : Bytes)
    → s j ≡ t j
    → effect m u.key (some u.body) (length u.body) s j
      ≡ effect m u.key (some u.body) (length u.body) t j
effect-same put u s t j e =
    ap
      (λ es.
        if same_bytes j u.key
        then record { key = u.key; len = length u.body; obj = some u.body; what = none } ∷ es
        else es)
      e
effect-same delete u s t j e = ap (λ es. if same_bytes u.key j then pop es else es) e
effect-same post u s t j e = e
effect-same get_method u s t j e = e
effect-same head u s t j e = e
effect-same other u s t j e = e

size-arrives : (t : Bytes) (es : List Event) → 0 < length t → size es < size (arrives t es)
unfolding size
size-arrives [] es p = absurd (omega arith)
size-arrives (c ∷ cs) es p = omega arith

module _ (fresh : ℕ → Bytes) where
  -- The closed connection, and the server that its requests leave.
  pub record Leaves (st : Stacks) (s : Server) (t : Turn) : Type 0 where
    pub refines : (j : Bytes) → entries j (served t.log s) ≡ st j
    pub is_shut : t.state ≡ shut

  closing : iteration fresh (closed ∷ []) new_client ≡ (record { log = []; state = shut }, [])
  unfolding iteration iteration_in after_recv recv then_body new_client at_close
  closing = refl

  -- One upload after another.
  more-Leaves :
      (next : List Event → Client → Turn) (u : Upload) (es : List Event) (s : Server) (st : Stacks)
      (after : Stacks)
      → IsUpload u
      → ((v : Server)
          → ((j : Bytes) → entries j v ≡ upload u st j)
          → Leaves after v (next es new_client))
      → ((j : Bytes) → entries j s ≡ st j)
      → Leaves after s (
          let (t, rest) = iteration fresh (arrives (text_of u) es) new_client in
          next_turn next t.state t.log rest)
  unfolding next_turn served as_request served_one given received headed
  more-Leaves next u es s st after ok rest r =
      let e =
        iteration-message fresh u.method (data_prefix ++ u.key) u.host u.body es ok.has_body
          ok.is_path ok.is_host (omega (arith, length-append data_prefix u.key)) ok.some_body
          ok.fits ok.short_headers in
      let v : Server =
        (http_process (data_request u.method u.key (some u.body) (length u.body)) s).server in
      let left : Leaves after v (next es new_client) = rest v (λ j.
        http_process-entries u.method u.key j (some u.body) (length u.body) s ok.is_key
        ∙ effect-same u.method u (λ k. entries k s) st j (r j)) in
      record {
        refines = λ j.
            ap
              (λ (x : Turn × List Event).
                entries j (served ((next_turn next x.0.state x.0.log x.1).log) s))
              e
            ∙ left.refines j;
        is_shut =
            ap (λ (x : Turn × List Event). (next_turn next x.0.state x.0.log x.1).state) e
            ∙ left.is_shut;
      }

  loop-Leaves :
      (f : ℕ) (us : List Upload) (s : Server) (st : Stacks)
      → length us < f
      → All IsUpload us
      → ((j : Bytes) → entries j s ≡ st j)
      → Leaves (stacks_after us st) s (connected_loop fresh f (uploads us) new_client)
  unfolding connected_loop next_turn served
  loop-Leaves zero us s st h a r = absurd (omega arith)
  loop-Leaves (suc f) [] s st h a r = record {
    refines = λ j.
        ap
          (λ (x : Turn × List Event).
            entries j (served ((next_turn (connected_loop fresh f) x.0.state x.0.log x.1).log) s))
          closing
        ∙ r j;
    is_shut =
        ap
          (λ (x : Turn × List Event).
            (next_turn (connected_loop fresh f) x.0.state x.0.log x.1).state)
          closing;
  }
  loop-Leaves (suc f) (u ∷ us) s st h (a, b) r =
      more-Leaves (connected_loop fresh f) u (uploads us) s st (stacks_after us (upload u st)) a
        (λ v q. loop-Leaves f us v (upload u st) (omega arith) b q) r

  size-uploads : (us : List Upload) → All IsUpload us → length us < suc (size (uploads us))
  unfolding size
  size-uploads [] a = omega arith
  size-uploads (u ∷ us) (a, b) = omega (
    arith,
    size-uploads us b,
    size-arrives (text_of u) (uploads us)
        (omega (arith, a.some_body, length-message u.method (data_prefix ++ u.key) u.host u.body)),
  )

  -- A connection that sends any number of PUT, POST and DELETE requests with a body on /data/, each
  -- in one piece that fits the line buffer, with headers that fit one header buffer, for keys with no slash and no question mark and with no
  -- NUL, CR or LF in the keys and the hosts, and that then closes: the loop ends with the connection
  -- closed, and the store holds for each key the stack that these requests, in their order, make of
  -- the one it held.
  pub http_connected-Leaves :
      (us : List Upload) (s : Server)
      → All IsUpload us
      → Leaves (stacks_after us (λ j. entries j s)) s (http_connected fresh (uploads us))
  unfolding http_connected
  http_connected-Leaves us s a =
      loop-Leaves (suc (size (uploads us))) us s (λ j. entries j s) (size-uploads us a) a
        (λ j. refl)
