-- ===== src/Requests/Lines/Request.antt =====
-- The request line of src/http.c: the method and the path that a client writes are those that are read.
use osrv.Base.{
  suc, ◌+◌, ◌-◌, ◌≤◌, ◌≡◌, refl, sym, ◌∙◌, ap, Bool, true, false, List, [], ◌∷◌, ◌++◌, append_assoc,
  Option, some, ◌==◌, length, drop, take, arith, length-append, take-append, drop-append,
}
use osrv.Base.Bytes.{Bytes}
use osrv.Base.Text.{codes}
use osrv.Sfs.Object.{same_bytes}
use osrv.Server.Http.{Method, post, get_method, head, put, delete, other, starts_with}
use osrv.Requests.{header_part, Client, HeaderBuf, Req}
use osrv.Requests.Headers.{record_method}
use osrv.Requests.Lines.{
  handled, request_line, checked_line, with_method, known_or_other, is_request, index_of, path_of,
  method_of,
}

abbrev pub method_word : Method → Bytes
method_word post = codes "POST"
method_word get_method = codes "GET"
method_word head = codes "HEAD"
method_word put = codes "PUT"
method_word delete = codes "DELETE"
method_word other = codes "OTHER"

-- A request line of HTTP/1.1.
unfoldable pub request_text : Bytes → Bytes → Bytes
request_text word path = (word ++ (b' ' ∷ path)) ++ codes " HTTP/1.1"

pub length-request_text :
    (word path : Bytes) → length (request_text word path) ≡ length word + length path + 10
unfolding request_text
length-request_text word path = omega (
  arith,
  length-append (word ++ (b' ' ∷ path)) (codes " HTTP/1.1"),
  length-append word (b' ' ∷ path),
)

length_front :
    (word path : Bytes) → length (request_text word path) - 9 ≡ length (word ++ (b' ' ∷ path))
length_front word path =
    omega (arith, length-request_text word path, length-append word (b' ' ∷ path))

last_nine :
    (word path : Bytes)
    → drop (length (request_text word path) - 9) (request_text word path) ≡ codes " HTTP/1.1"
unfolding request_text
last_nine word path =
    drop-append (word ++ (b' ' ∷ path)) (codes " HTTP/1.1") (length (request_text word path) - 9)
      (length_front word path)

last_three :
    (word path : Bytes)
    → drop (length (request_text word path) - 3) (request_text word path) ≡ codes "1.1"
unfolding request_text
last_three word path =
    let front = (word ++ (b' ' ∷ path)) ++ codes " HTTP/" in
    ap (λ (s : Bytes). drop (length (request_text word path) - 3) s)
      (sym (append_assoc (word ++ (b' ' ∷ path)) (codes " HTTP/") (codes "1.1")))
    ∙ drop-append ((word ++ (b' ' ∷ path)) ++ codes " HTTP/") (codes "1.1")
        (length (request_text word path) - 3)
        (omega (
          arith,
          length-request_text word path,
          length-append word (b' ' ∷ path),
          length-append (word ++ (b' ' ∷ path)) (codes " HTTP/"),
        ))

is_request-text :
    (word path : Bytes) → 4 ≤ length word + length path → is_request (request_text word path) ≡ true
unfolding is_request starts_with
is_request-text word path h =
    rw (last_nine word path) (ground (arith, length-request_text word path))

front_of :
    (word path : Bytes)
    → take (length (request_text word path) - 9) (request_text word path) ≡ word ++ (b' ' ∷ path)
unfolding request_text
front_of word path =
    take-append (word ++ (b' ' ∷ path)) (codes " HTTP/1.1") (length (request_text word path) - 9)
      (length_front word path)

drop_word : (word path : Bytes) → drop (suc (length word)) (word ++ (b' ' ∷ path)) ≡ path
drop_word [] path = refl
drop_word (c ∷ cs) path = drop_word cs path

path_of-text : (word path : Bytes) → path_of (length word) (request_text word path) ≡ path
unfolding path_of
path_of-text word path =
    let later : (length word == (length (request_text word path) - 9)) ≡ false =
      ground (arith, length-request_text word path) in
    rw later (rw (front_of word path) (drop_word word path))

is_new :
    (word path : Bytes)
    → same_bytes (drop (length (request_text word path) - 3) (request_text word path)) (codes "1.0")
      ≡ false
unfolding same_bytes
is_new word path = rw (last_three word path) refl

index_of-word :
    (m : Method) (path : Bytes)
    → index_of b' ' (request_text (method_word m) path) ≡ some (length (method_word m))
unfolding index_of request_text
index_of-word post path = refl
index_of-word get_method path = refl
index_of-word head path = refl
index_of-word put path = refl
index_of-word delete path = refl
index_of-word other path = refl

-- The methods that the parser knows by name.
abbrev pub Named : Method → Type 0
Named other = ⊥
Named _ = Unit

method_of-word :
    (m : Method) (path : Bytes) (before : Option Method)
    → Named m
    → method_of (request_text (method_word m) path) before ≡ some m
unfolding method_of starts_with request_text
method_of-word post path before h = refl
method_of-word get_method path before h = refl
method_of-word head path before h = refl
method_of-word put path before h = refl
method_of-word delete path before h = refl
method_of-word other path before h = absurd h

take_word :
    (m : Method) (path : Bytes)
    → take (length (method_word m)) (request_text (method_word m) path) ≡ method_word m
unfolding request_text
take_word post path = refl
take_word get_method path = refl
take_word head path = refl
take_word put path = refl
take_word delete path = refl
take_word other path = refl

with_method-text :
    (m : Method) (path : Bytes) (r : Bool × List HeaderBuf) (req : Req) (c : Client)
    → Named m
    → with_method (length (method_word m)) (request_text (method_word m) path) r req c
      ≡ handled (record c {
        part = header_part;
        headers = r.1;
        req = record req { method = some m; path = some path };
      })
unfolding with_method known_or_other
with_method-text m path (fits, headers) req c h =
    rw (method_of-word m path req.method h, with_method)
      (rw (path_of-text (method_word m) path) refl)

-- The request line with a method that the parser knows and a path, of 14 characters at least, is read
-- back: the method, whatever room there is for its record, and the path.
pub request_line-text :
    (m : Method) (path : Bytes) (c : Client)
    → Named m
    → 4 ≤ length (method_word m) + length path
    → request_line (request_text (method_word m) path) c
      ≡ handled (record c {
        part = header_part;
        headers = (record_method (method_word m) c.headers).1;
        req = record (c.req) { method = some m; path = some path };
      })
unfolding request_line checked_line
request_line-text m path c h long =
    rw (index_of-word m path, checked_line)
      (rw (is_request-text (method_word m) path long, checked_line)
        (rw (take_word m path) (
          rw (is_new (method_word m) path)
            (with_method-text m path (record_method (method_word m) c.headers) c.req c h))))
