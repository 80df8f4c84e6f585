-- ===== src/Http.antt =====
-- src/http.c: what is sent to a client. `net i n` is what the socket answers to the i-th `send`, of
-- `n` bytes.
pub mod Chunk
pub mod Sending
pub mod Store
pub mod Uri
use osrv.Base.{
  ℕ, zero, suc, ◌+◌, ◌-◌, ◌*◌, ◌/◌, ◌%◌, Bool, List, [], ◌∷◌, ◌++◌, Option, none, some, ltb, leb,
  ◌==◌, if◌then◌else◌, length, take, drop, min,
}
use osrv.Base.Bytes.{Bytes}

-- What `send` returns: the number of bytes it took, or -1.
pub data Answer : Type 0 where
  took : ℕ → Answer
  failed : Answer

-- `socket_connection_t`: what the peer has been sent, and the number of calls of `send`.
pub record Conn : Type 0 where
  pub sent : Bytes
  pub calls : ℕ

-- The results 0, 1 and -1; `out_of_fuel` for a loop that is not done.
pub data Code : Type 0 where
  ok : Code
  closed : Code
  error : Code
  out_of_fuel : Code

abbrev pub max_send : ℕ
max_send = 1_048_576

abbrev pub crlf : Bytes
crlf = 13 ∷ 10 ∷ []

-- The connection after a `send` that took `k` bytes of the buffer.
abbrev pub after : Conn → ℕ → Bytes → Conn
after c k buf = record { sent = c.sent ++ take k buf; calls = suc c.calls }

abbrev pub failing : Conn → Conn
failing c = record c { calls = suc c.calls }

-- What a loop does with an answer: `nothing` is the result for a `send` that took no byte.
unfoldable pub send_next : Code → (Conn → Bytes → Code × Conn) → Conn → Bytes → Answer → Code × Conn
send_next nothing loop c buf failed = (error, failing c)
send_next nothing loop c buf (took zero) = (nothing, failing c)
send_next nothing loop c buf (took (suc k)) = loop (after c (suc k) buf) (drop (suc k) buf)

abbrev pub http_sig : Bool → Bytes
http_sig old =
    (b'H' ∷ b'T' ∷ b'T' ∷ b'P' ∷ b'/' ∷ b'1' ∷ b'.' ∷ []) ++ (if old then b'0' else b'1') ∷ []

abbrev pub hex_digit : ℕ → ℕ
hex_digit d = if ltb d 10 then b'0' + d else b'a' + (d - 10)

-- The digits are written from the last one.
unfoldable pub hex_loop : ℕ → ℕ → Bytes → Bytes
hex_loop zero l acc = acc
hex_loop (suc f) l acc =
    let rest = hex_loop f (l / 16) (hex_digit (l % 16) ∷ acc) in if l == 0 then acc else rest

unfoldable pub hex_size : ℕ → Bytes
unfolding hex_loop
hex_size len = hex_loop len len []

-- `if ((r = ...)) return r;`
unfoldable pub and_then : Code × Conn → (Conn → Code × Conn) → Code × Conn
and_then (ok, c) k = k c
and_then (closed, c) k = (closed, c)
and_then (error, c) k = (error, c)
and_then (out_of_fuel, c) k = (out_of_fuel, c)

module _ (net : ℕ → ℕ → Answer) where
  -- One round for each byte at most.
  unfoldable pub send_loop : ℕ → Conn → Bytes → Code × Conn
  unfolding send_next
  send_loop f c [] = (ok, c)
  send_loop zero c (b ∷ bs) = (out_of_fuel, c)
  send_loop (suc f) c (b ∷ bs) =
      send_next closed (send_loop f) c (b ∷ bs) (net c.calls (min (suc (length bs)) max_send))

  unfoldable pub http_send : Conn → Bytes → Code × Conn
  unfolding send_loop
  http_send c buf = send_loop (length buf) c buf

  -- `send_buf` of src/osrv.c, the same loop on the socket itself.
  unfoldable pub send_buf : Conn → Bytes → Code × Conn
  unfolding send_loop
  send_buf c buf = send_loop (length buf) c buf

  -- The same without a limit, and -1 for every `send` that takes nothing.
  unfoldable pub response_loop : ℕ → Conn → Bytes → Code × Conn
  unfolding send_next
  response_loop f c [] = (ok, c)
  response_loop zero c (b ∷ bs) = (out_of_fuel, c)
  response_loop (suc f) c (b ∷ bs) =
      send_next error (response_loop f) c (b ∷ bs) (net c.calls (suc (length bs)))

  unfoldable pub send_response : Conn → Bytes → Code × Conn
  unfolding response_loop
  send_response c buf = response_loop (length buf) c buf

  -- The signature and the text together, if they fit in the buffer of 96 bytes.
  unfoldable pub send_http_response : Bool → Conn → Bytes → Code × Conn
  unfolding send_response
  send_http_response old c text =
      if ltb (length text) 86
      then send_response c (http_sig old ++ text)
      else elim (net c.calls 8) [
        | failed ↦ (error, failing c)
        | took k ↦
            if ltb k 8
            then (error, after c k (http_sig old))
            else send_response (after c k (http_sig old)) text
      ]

  unfoldable pub http_send_chunk : Conn → Bytes → Code × Conn
  unfolding http_send and_then hex_size
  http_send_chunk c [] = http_send c (b'0' ∷ crlf ++ crlf)
  http_send_chunk c (b ∷ bs) =
      and_then (http_send c (hex_size (length (b ∷ bs)) ++ crlf))
        (λ d. and_then (http_send d (b ∷ bs)) (λ e. http_send e crlf))
