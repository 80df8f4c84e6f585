-- ===== src/Server/Tcp/Session.antt =====
-- `do_process` of src/osrv.c: the loop over the requests of a connection. `net` is what `send`
-- returns, `write` what the `write` of `fd_store` does.
pub mod Ends
pub mod Serves
pub mod Streams
use osrv.Base.{
  ℕ, zero, suc, ◌+◌, ◌-◌, ◌*◌, Bool, true, false, List, [], ◌∷◌, ◌++◌, Option, none, some, ltb,
  if◌then◌else◌, length, take,
}
use osrv.Base.Bytes.{Bytes}
use osrv.Http.{Answer, Conn, Code, ok, closed, error, out_of_fuel, and_then, send_buf}
use osrv.Server.State.{Server}
use osrv.Server.Tcp.{Next, go, discard, close, crash, Round, round}
use osrv.Sfs.Object.{Sexp}
use osrv.Stores.Files.{Reply, Fd, Outcome, ok, header_error, write_error, out_of_fuel, fd_store}
use osrv.Stores.Files
use osrv.Stores.Reads.{Event, chunk, again, broken, closed, unread, need_of}
use osrv.Requests.Connection.{size}
use osrv.Stores.Reads

-- `sizeof(w->buf) - 1`.
abbrev pub max_request : ℕ
max_request = 65_535

abbrev pub fetch_size : ℕ
fetch_size = 524_288

-- How `do_process` ends: the socket is closed; a `recv` or `read` does not return; the thread reads a
-- null pointer, or leaves `fd_store` by Rf_error; a loop is not done.
pub data Ended : Type 0 where
  shut waiting : Conn → Server → Ended
  crashed : Server → Ended
  unfinished : Ended

-- The loop that drops a payload: what will arrive after it, none if a `recv` does not return. A
-- stream that has ended stays so.
unfoldable pub discard_loop : ℕ → ℕ → List Event → Option (List Event)
unfolding unread need_of
discard_loop zero left es = none
discard_loop (suc f) zero es = some es
discard_loop (suc f) (suc n) [] = none
discard_loop (suc f) (suc n) (again ∷ es) = some es
discard_loop (suc f) (suc n) (broken ∷ es) = some es
discard_loop (suc f) (suc n) (closed ∷ es) = some (closed ∷ es)
discard_loop (suc f) (suc n) (chunk c cs ∷ es) =
    let need = need_of fetch_size (suc n) in
    discard_loop f (suc n - length (take need (c ∷ cs))) (unread need (c ∷ cs) es)

-- What follows a round. `next` is the rest of the loop. Each round of the inner loop drops a byte.
unfoldable pub follow :
    (Conn → Server → List Event → Ended) → List Event → Conn → Server → Next → Ended
unfolding discard_loop
follow next es c s go = next c s es
follow next es c s (discard n) = elim (discard_loop (suc n) n es) [
  | none ↦ waiting c s
  | some rest ↦ next c s rest
]
follow next es c s close = shut c s
follow next es c s crash = crashed s

-- The bytes that `fd_store` has written.
unfoldable pub after_store : Server → Conn → (Conn → Ended) → Outcome → Ended
after_store s c next (ok fd) = next (record c { sent = c.sent ++ fd.out })
after_store s c next header_error = crashed s
after_store s c next write_error = crashed s
after_store s c next out_of_fuel = unfinished

module _ (net : ℕ → ℕ → Answer) where
  -- `send_buf(...) || send_buf(...)`.
  unfoldable pub send_all : Conn → List Bytes → Code × Conn
  unfolding send_buf and_then
  send_all c [] = (ok, c)
  send_all c (b ∷ bs) = and_then (send_buf net c b) (λ d. send_all d bs)

module _ (net : ℕ → ℕ → Answer) (write : ℕ → Bytes → Reply) where
  unfoldable pub stream : Server → Conn → (Conn → Ended) → Option Sexp → Ended
  unfolding fd_store after_store
  stream s c next none = next c
  stream s c next (some x) = after_store s c next (fd_store write x)

  -- A round whose texts were sent with this result.
  unfoldable pub after_sends :
      (Conn → Server → List Event → Ended) → List Event → Round → Code × Conn → Ended
  unfolding stream follow
  after_sends next es r (ok, c) =
      stream r.server c (λ d. follow next es d r.server r.next) r.streamed
  after_sends next es r (out_of_fuel, c) = unfinished
  after_sends next es r (_, c) =
      if r.checked then shut c r.server else follow next es c r.server r.next

  unfoldable pub after_round :
      (Conn → Server → List Event → Ended) → List Event → Conn → Round → Ended
  unfolding send_all after_sends
  after_round next es c r = after_sends next es r (send_all net c r.sent)

  -- A `recv` of at most `n` bytes of a piece, and the round with what it has read.
  unfoldable pub received :
      (Conn → Server → List Event → Ended) → ℕ → Conn → Server → Bytes → List Event → Ended
  unfolding after_round round unread
  received next n c s piece es = after_round next (unread n piece es) c (round (take n piece) s)

  unfoldable pub session_loop : ℕ → Conn → Server → List Event → Ended
  unfolding received
  session_loop zero c s es = unfinished
  session_loop (suc f) c s [] = waiting c s
  session_loop (suc f) c s (again ∷ es) = shut c s
  session_loop (suc f) c s (broken ∷ es) = shut c s
  session_loop (suc f) c s (closed ∷ es) = shut c s
  session_loop (suc f) c s (chunk b bs ∷ es) = received (session_loop f) max_request c s (b ∷ bs) es

  -- A round for each byte and each event, and one more.
  unfoldable pub do_process : Server → List Event → Ended
  unfolding session_loop size
  do_process s es = session_loop (suc (size es)) (record { sent = []; calls = 0 }) s es
