-- ===== src/Http/Chunk.antt =====
-- Chunks, as `http_send_chunk` makes them and as a client reads them.
use osrv.Base.{
  ℕ, zero, suc, ◌+◌, ◌-◌, ◌*◌, ◌/◌, ◌%◌, ◌≤◌, ◌<◌, ◌≡◌, refl, sym, ap, ◌∙◌, true, false, ◌&&◌, List,
  [], ◌∷◌, ◌++◌, append_assoc, Option, none, some, ltb, ◌==◌, if◌then◌else◌, Bool-cases, inl, inr,
  length, take, drop, take-append, drop-append, arith, All,
}
use mathlib.Core.Option
use osrv.Base.Bytes.{Bytes}
use osrv.Http.Sending.{http_send-ok}
use osrv.Http.{
  Answer, Conn, Code, ok, closed, error, out_of_fuel, crlf, http_send, hex_digit, hex_loop,
  hex_size, and_then, http_send_chunk,
}

infixl 1 ◌>>=◌
abbrev ◌>>=◌ : {A B : Type 0} → Option A → (A → Option B) → Option B
none >>= k = none
some x >>= k = k x

-- A client's reading of a chunked body. A size line ends at CR.
unfoldable pub hex_value : ℕ → ℕ
hex_value c = if ltb c b'a' then c - b'0' else c - b'a' + 10

unfoldable pub read_size : ℕ → Bytes → Option (ℕ × Bytes)
unfolding hex_value
read_size acc [] = none
read_size acc (c ∷ cs) =
    let rest = read_size (acc * 16 + hex_value c) cs in if c == 13 then some (acc, c ∷ cs) else rest

unfoldable pub strip_crlf : Bytes → Option Bytes
strip_crlf [] = none
strip_crlf (c ∷ []) = none
strip_crlf (c ∷ d ∷ cs) = if (c == 13) && (d == 10) then some cs else none

-- The content of at most `f` chunks, the last of them empty.
unfoldable pub dechunk : ℕ → Bytes → Option Bytes
unfolding read_size strip_crlf
dechunk zero text = none
dechunk (suc f) text = do
  (n, line) ← read_size 0 text
  behind ← strip_crlf line
  next ← strip_crlf (drop n behind)
  elim (n == 0) [ true ↦ some [] | false ↦ Option.map (◌++◌ (take n behind)) (dechunk f next) ]

abbrev pub concat : List Bytes → Bytes
concat [] = []
concat (b ∷ bs) = b ++ concat bs

-- What a chunk looks like.
unfoldable pub chunk : Bytes → Bytes
unfolding hex_size
chunk [] = b'0' ∷ crlf ++ crlf
chunk (b ∷ bs) = (hex_size (length (b ∷ bs)) ++ crlf) ++ ((b ∷ bs) ++ crlf)

unfoldable pub chunks : List Bytes → Bytes
chunks [] = []
chunks (b ∷ bs) = chunk b ++ chunks bs

hex_digit-value : (d : ℕ) → d < 16 → hex_value (hex_digit d) ≡ d
unfolding hex_value
hex_digit-value d h = ground arith

hex_digit-ne : (d : ℕ) → d < 16 → (hex_digit d == 13) ≡ false
hex_digit-ne d h = ground arith

read_size-hex_loop : (f l : ℕ) (t : Bytes) → l ≤ f → read_size 0 (hex_loop f l t) ≡ read_size l t
unfolding hex_loop
read_size-hex_loop zero l t h = let e : l ≡ 0 = omega arith in rw e
read_size-hex_loop (suc f) l t h = elim (Bool-cases (l == 0)) [
  | inl e ↦ let z : l ≡ 0 = ground arith in rw z
  | inr e ↦ rw e (read_size-hex_loop f (l / 16) (hex_digit (l % 16) ∷ t) (ground arith) ∙ step)
]
  where
    step : read_size (l / 16) (hex_digit (l % 16) ∷ t) ≡ read_size l t
    step =
        unfold read_size in
        rw (hex_digit-ne (l % 16) (omega arith))
          (rw (hex_digit-value (l % 16) (omega arith)) (ap (λ n. read_size n t) (omega arith)))

hex_loop-append : (f l : ℕ) (t u : Bytes) → hex_loop f l t ++ u ≡ hex_loop f l (t ++ u)
unfolding hex_loop
hex_loop-append zero l t u = refl
hex_loop-append (suc f) l t u = elim (Bool-cases (l == 0)) [
  | inl e ↦ rw e
  | inr e ↦ rw e (hex_loop-append f (l / 16) (hex_digit (l % 16) ∷ t) u)
]

-- The size line of a chunk is read back.
pub read_size-hex_size :
    (n : ℕ) (t : Bytes) → read_size 0 (hex_size n ++ (crlf ++ t)) ≡ some (n, crlf ++ t)
unfolding hex_size
read_size-hex_size n t =
    ap (read_size 0) (hex_loop-append n n [] (crlf ++ t))
    ∙ read_size-hex_loop n n (crlf ++ t) (omega arith)
    ∙ stop
  where
    stop : read_size n (crlf ++ t) ≡ some (n, crlf ++ t)
    stop = unfold read_size in refl

strip_crlf-crlf : (t : Bytes) → strip_crlf (crlf ++ t) ≡ some t
unfolding strip_crlf
strip_crlf-crlf t = refl

-- A nonempty chunk adds its bytes.
dechunk_step :
    (f n : ℕ) (body rest : Bytes)
    → n ≡ length body
    → 0 < n
    → dechunk (suc f) (hex_size n ++ (crlf ++ (body ++ (crlf ++ rest))))
      ≡ Option.map (◌++◌ body) (dechunk f rest)
unfolding dechunk
dechunk_step f n body rest e h =
    let nonzero : (n == 0) ≡ false = ground arith in
    rw (read_size-hex_size n (body ++ (crlf ++ rest)))
      (rw (drop-append body (crlf ++ rest) n e) (rw (nonzero, take-append body (crlf ++ rest) n e)))

dechunk-chunk :
    (f b : ℕ) (bs rest : Bytes)
    → dechunk (suc f) (chunk (b ∷ bs) ++ rest) ≡ Option.map (◌++◌ (b ∷ bs)) (dechunk f rest)
unfolding chunk
dechunk-chunk f b bs rest =
    let n = length (b ∷ bs) in
    let body = b ∷ bs in
    ap (dechunk (suc f)) (
      append_assoc (hex_size n ++ crlf) (body ++ crlf) rest
      ∙ append_assoc (hex_size n) crlf ((body ++ crlf) ++ rest)
      ∙ ap (λ t. hex_size n ++ (crlf ++ t)) (append_assoc body crlf rest))
    ∙ dechunk_step f n body rest refl (omega arith)

and_then-ok :
    (r : Code × Conn) (k : Conn → Code × Conn)
    → (and_then r k).0 ≡ ok
    → (r.0 ≡ ok) × ((k r.1).0 ≡ ok) × (and_then r k ≡ k r.1)
unfolding and_then
and_then-ok (ok, c) k e = (refl, e, refl)
and_then-ok (closed, c) k e = absurd (cc e)
and_then-ok (error, c) k e = absurd (cc e)
and_then-ok (out_of_fuel, c) k e = absurd (cc e)

-- A chunk that is sent with the result 0 is on the wire as a whole.
pub http_send_chunk-ok :
    (net : ℕ → ℕ → Answer) (c : Conn) (buf : Bytes)
    → (http_send_chunk net c buf).0 ≡ ok
    → (http_send_chunk net c buf).1.sent ≡ c.sent ++ chunk buf
unfolding http_send_chunk chunk
http_send_chunk-ok net c [] e = http_send-ok net c (b'0' ∷ (crlf ++ crlf)) e
http_send_chunk-ok net c (b ∷ bs) e =
    let size = hex_size (length (b ∷ bs)) ++ crlf in
    let d = (http_send net c size).1 in
    let f = (http_send net d (b ∷ bs)).1 in
    let (first, later, same) = and_then-ok (http_send net c size) _ e in
    let (second, last, same_too) = and_then-ok (http_send net d (b ∷ bs)) _ later in
    ap (λ r. r.1.sent) (same ∙ same_too)
    ∙ http_send-ok net f crlf last
    ∙ ap (λ t. t ++ crlf) (http_send-ok net d (b ∷ bs) second)
    ∙ ap (λ t. (t ++ (b ∷ bs)) ++ crlf) (http_send-ok net c size first)
    ∙ append_assoc (c.sent ++ size) (b ∷ bs) crlf
    ∙ append_assoc c.sent size ((b ∷ bs) ++ crlf)

-- The content of a stream of chunks that are not empty.
pub dechunk-chunks :
    (f : ℕ) (bs : List Bytes)
    → All (λ b. 0 < length b) bs
    → length bs < f
    → dechunk f (chunks bs ++ chunk []) ≡ some (concat bs)
unfolding chunks
dechunk-chunks zero bs h k = absurd (omega arith)
dechunk-chunks (suc f) [] h k = unfold dechunk read_size strip_crlf chunk in refl
dechunk-chunks (suc f) ([] ∷ bs) h k = absurd (omega (arith, h.0))
dechunk-chunks (suc f) ((b ∷ bs) ∷ rest) h k =
    ap (dechunk (suc f)) (append_assoc (chunk (b ∷ bs)) (chunks rest) (chunk []))
    ∙ dechunk-chunk f b bs (chunks rest ++ chunk [])
    ∙ ap (Option.map (◌++◌ (b ∷ bs))) (dechunk-chunks f rest h.1 (omega arith))

-- Blocks that are sent as chunks one after another, and the empty chunk behind them, as http_store
-- sends its buffers.
abbrev pub send_chunks : (ℕ → ℕ → Answer) → List Bytes → Conn → Code × Conn
send_chunks net [] c = http_send_chunk net c []
send_chunks net (b ∷ bs) c = and_then (http_send_chunk net c b) (send_chunks net bs)

send_chunks-ok :
    (net : ℕ → ℕ → Answer) (bs : List Bytes) (c : Conn)
    → (send_chunks net bs c).0 ≡ ok
    → (send_chunks net bs c).1.sent ≡ c.sent ++ (chunks bs ++ chunk [])
unfolding chunks
send_chunks-ok net [] c e = http_send_chunk-ok net c [] e
send_chunks-ok net (b ∷ bs) c e =
    let d = (http_send_chunk net c b).1 in
    let (first, others, same) = and_then-ok (http_send_chunk net c b) (send_chunks net bs) e in
    ap (λ r. r.1.sent) same
    ∙ send_chunks-ok net bs d others
    ∙ ap (λ t. t ++ (chunks bs ++ chunk [])) (http_send_chunk-ok net c b first)
    ∙ append_assoc c.sent (chunk b) (chunks bs ++ chunk [])
    ∙ ap (◌++◌ c.sent) (sym (append_assoc (chunk b) (chunks bs) (chunk [])))

-- Blocks that are not empty are sent by http_send_chunk one after another and then an empty one,
-- whatever the socket takes of each. If all calls return 0, what was sent is what had been sent before
-- and a stream that a client decodes to the bytes of the blocks in order.
pub send_chunks-dechunk :
    (net : ℕ → ℕ → Answer) (bs : List Bytes) (c : Conn)
    → All (λ b. 0 < length b) bs
    → (send_chunks net bs c).0 ≡ ok
    → (stream : Bytes) × ((send_chunks net bs c).1.sent ≡ c.sent ++ stream)
      × (dechunk (suc (length bs)) stream ≡ some (concat bs))
send_chunks-dechunk net bs c some_bytes e = (
  chunks bs ++ chunk [],
  send_chunks-ok net bs c e,
  dechunk-chunks (suc (length bs)) bs some_bytes (omega arith),
)
