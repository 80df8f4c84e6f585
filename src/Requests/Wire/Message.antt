-- ===== src/Requests/Wire/Message.antt =====
-- A request with a body, as a client of src/http.c writes it.
use osrv.Base.{
  ℕ, zero, suc, ◌≤◌, ◌<◌, ◌≡◌, refl, sym, subst, true, false, List, [], ◌∷◌, ◌++◌, some, length,
  take_all, drop_all, length-append, All, arith,
}
use osrv.Base.Bytes.{Bytes}
use osrv.Base.Decimal.{is_digit, decimal, decimal-Digits}
use osrv.Base.Text.{codes}
use osrv.Server.Http.{Method, post, get_method, head, put, delete, other}
use osrv.Stores.Reads.{Event, chunk, unread}
use osrv.Requests.{}
use osrv.Requests.Lines.Headers.{host_text, length_text}
use osrv.Requests.Lines.Request.{method_word, request_text, length-request_text, Named}
use osrv.Requests.Turn.{got, recv, is_bodyless}
use osrv.Requests.Connection.{}
use osrv.Requests.Wire.{Plain, Line, wire}

abbrev pub message_lines : Method → Bytes → Bytes → ℕ → List Bytes
message_lines m path host n =
    request_text (method_word m) path ∷ host_text host ∷ length_text n ∷ []

-- The request line, Host, Content-Length and the body.
abbrev pub message : Method → Bytes → Bytes → Bytes → Bytes
message m path host body = wire (message_lines m path host (length body)) body

-- A piece of the stream before the events `es`.
abbrev pub arrives : Bytes → List Event → List Event
arrives [] es = es
arrives (c ∷ cs) es = chunk c cs ∷ es

pub recv-arrives :
    (n : ℕ) (s : Bytes) (es : List Event)
    → 0 < length s
    → length s ≤ n
    → recv n (arrives s es) ≡ some (got s, es)
unfolding recv unread
recv-arrives n [] es p h = absurd (omega arith)
recv-arrives zero (c ∷ cs) es p h = absurd (omega arith)
recv-arrives (suc n) (c ∷ cs) es p h =
    rw (take_all cs n (omega arith)) (rw (drop_all cs n (omega arith), unread) refl)

All-append : (xs ys : Bytes) → All Plain xs → All Plain ys → All Plain (xs ++ ys)
All-append [] ys h k = k
All-append (x ∷ xs) ys (p, h) k = (p, All-append xs ys h k)

line_of : (s : Bytes) → 0 < length s → All Plain s → Line s
line_of [] p h = absurd (omega arith)
line_of (c ∷ cs) p h = h

word-Plain : (m : Method) → All Plain (method_word m)
word-Plain post = omega arith
word-Plain get_method = omega arith
word-Plain head = omega arith
word-Plain put = omega arith
word-Plain delete = omega arith
word-Plain other = omega arith

request_text-Plain :
    (m : Method) (path : Bytes) → All Plain path → All Plain (request_text (method_word m) path)
unfolding request_text
request_text-Plain m path h =
    All-append (method_word m ++ (b' ' ∷ path)) (codes " HTTP/1.1")
      (All-append (method_word m) (b' ' ∷ path) (word-Plain m) ((omega arith, h))) (omega arith)

digits-Plain : (s : Bytes) → All (λ c. is_digit c ≡ true) s → All Plain s
digits-Plain [] h = tt
digits-Plain (c ∷ cs) (d, h) =
    (((λ e. ground arith), ((λ e. ground arith), (λ e. ground arith))), digits-Plain cs h)

decimal-Plain : (n : ℕ) → All Plain (decimal n)
decimal-Plain n =
    let d = decimal-Digits n in
    subst (All Plain) (sym d.begins)
      (digits-Plain (d.first ∷ d.others) ((d.is_first, d.are_others)))

pub message_lines-Line :
    (m : Method) (path host : Bytes) (n : ℕ)
    → All Plain path
    → All Plain host
    → All Line (message_lines m path host n)
message_lines-Line m path host n p h = (
  line_of (request_text (method_word m) path)
      (omega (arith, length-request_text (method_word m) path)) (request_text-Plain m path p),
  (
    All-append (codes "Host: ") host (omega arith) h,
    (All-append (codes "Content-Length: ") (decimal n) (omega arith) (decimal-Plain n), tt),
  ),
)

-- A method whose request may have a body.
abbrev pub HasBody : Method → Type 0
HasBody post = Unit
HasBody put = Unit
HasBody delete = Unit
HasBody _ = ⊥

pub hasbody-Named : (m : Method) → HasBody m → Named m
hasbody-Named post h = tt
hasbody-Named put h = tt
hasbody-Named delete h = tt
hasbody-Named get_method h = absurd h
hasbody-Named head h = absurd h
hasbody-Named other h = absurd h

pub hasbody-is_bodyless : (m : Method) → HasBody m → is_bodyless (some m) ≡ false
unfolding is_bodyless
hasbody-is_bodyless post h = refl
hasbody-is_bodyless put h = refl
hasbody-is_bodyless delete h = refl
hasbody-is_bodyless get_method h = absurd h
hasbody-is_bodyless head h = absurd h
hasbody-is_bodyless other h = absurd h

pub hasbody-long : (m : Method) → HasBody m → 3 ≤ length (method_word m)
hasbody-long post h = omega arith
hasbody-long put h = omega arith
hasbody-long delete h = omega arith
hasbody-long get_method h = absurd h
hasbody-long head h = absurd h
hasbody-long other h = absurd h

pub length-message :
    (m : Method) (path host body : Bytes) → length body ≤ length (message m path host body)
unfolding wire
length-message m path host body =
    let l : Bytes = length_text (length body) in
    let h : Bytes = host_text host in
    let r : Bytes = request_text (method_word m) path in
    omega (
      arith,
      length-append (length_text (length body)) (13 ∷ 10 ∷ 13 ∷ 10 ∷ body),
      length-append (host_text host)
          (13 ∷ 10 ∷ length_text (length body) ++ (13 ∷ 10 ∷ 13 ∷ 10 ∷ body)),
      length-append (request_text (method_word m) path) (
          13 ∷ 10 ∷ host_text host
          ++ (13 ∷ 10 ∷ length_text (length body) ++ (13 ∷ 10 ∷ 13 ∷ 10 ∷ body))),
    )
