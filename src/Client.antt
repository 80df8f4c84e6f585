-- ===== src/Client.antt =====
-- src/ocli.c: `C_ask`, which sends a command to a server and reads the answer; and `sock_restore` of
-- src/sock_restore.c. What the system and the server do is a record. R_CheckUserInterrupt returns
-- and leaves `errno`, and so does a `recv` that returns 0.
pub mod Header
pub mod Replies
pub mod Served
pub mod Waits
use osrv.Base.{
  ℕ, zero, suc, ◌+◌, ◌-◌, ◌^◌, Bool, true, false, List, [], ◌∷◌, ◌++◌, Option, none, some, ltb,
  ◌==◌, ◌||◌, if◌then◌else◌, length, take, drop,
}
use osrv.Base.Bytes.{Bytes}
use osrv.Base.Text.{codes}
use osrv.Sfs.Object.{Sexp, vec, str, raw, same_bytes}
use osrv.Sfs.Load.{Result, ok, err, out_of_fuel, restore}
use osrv.Api.{key_of, raw_of, loaded}
use osrv.Http.{took, failed}
use osrv.Http
use osrv.Requests.{ℤ, pos, negsuc}
use osrv.Requests.Lines.{atol_signed}
use osrv.Server.Tcp.{Line, split_line}
use osrv.Stores.Reads.{
  Event, chunk, again, broken, closed, Fetched, ok, read_error, closed_early, blocked, out_of_fuel,
  unread, arriving, rounds, fetch_loop,
}
use osrv.Stores.Reads

-- What a call gives to R: a string, a raw vector, an object, or an error.
pub data Answer : Type 0 where
  text : Bytes → Answer
  bytes : Bytes → Answer
  object : Sexp → Answer
  bad_host bad_command bad_port no_socket unresolved unconnected send_failed : Answer
  send_short : ℕ → Answer
  invalid_response : Bytes → Answer
  -- "Connection closed unexpectedly", and another error of `recv`
  lost broken_off : Answer
  -- a length that is no length of a vector
  no_vector : Answer
  not_loaded : Result Sexp → Answer
  -- no event is left, so that a `recv` does not return; and a loop that has not ended
  waits unfinished : Answer

-- Whether there is a socket, whether a host is resolved, whether `connect` succeeds, what `send`
-- returns for a command, and what then arrives.
pub record Peer : Type 0 where
  pub has_socket : Bool
  pub resolves : Bytes → Bool
  pub accepts : Bytes → ℕ → Bool
  pub send : Bytes → Http.Answer
  pub receives : Bytes → List Event

-- `buf` of 64 bytes.
abbrev pub buf_size : ℕ
buf_size = 64

abbrev pub fetch_size : ℕ
fetch_size = 524_288

-- The most elements that R allows in a vector.
abbrev pub max_vector : ℕ
max_vector = 4_503_599_627_370_496

-- How many bytes the next `recv` asks for, with `p` of them in the buffer.
unfoldable pub need_of : Bool → ℕ → ℕ
need_of false p = buf_size - 1 - p
need_of true p = if ltb p 5 then 5 - p else 1

-- How the loop over the first line ends: with the line, the bytes behind its newline that have been
-- read already, and what will arrive.
pub data Headed : Type 0 where
  headed : Bytes → Bytes → List Event → Headed
  stops : Answer → Headed

-- A `recv` of the loop. `retry` says that `errno` is EAGAIN or EWOULDBLOCK: a `recv` of 0 bytes does
-- not set it. A stream that has ended stays so. `next` is the rest of the loop.
unfoldable pub read_more :
    (Bool → Bytes → List Event → Headed) → Bool → Bool → Bytes → List Event → Headed
unfolding need_of unread
read_more next use_sfs retry got [] = stops waits
read_more next use_sfs retry got (again ∷ es) = next true got es
read_more next use_sfs retry got (broken ∷ es) = stops broken_off
read_more next use_sfs true got (closed ∷ es) = next true got (closed ∷ es)
read_more next use_sfs false got (closed ∷ es) = stops lost
read_more next use_sfs retry got (chunk c cs ∷ es) =
    let need = need_of use_sfs (length got) in
    next retry (got ++ take need (c ∷ cs)) (unread need (c ∷ cs) es)

-- A round of the loop: `strchr` on the buffer, and the check of its room.
unfoldable pub header_round :
    (Bool → Bytes → List Event → Headed) → Bool → Bool → Bytes → List Event → Line → Headed
unfolding read_more
header_round next use_sfs retry got es line = elim line.behind [
  | some behind ↦ headed line.text behind es
  | none ↦
      if ltb (buf_size - 8) (length got)
      then stops (invalid_response line.text)
      else read_more next use_sfs retry got es
]

unfoldable pub header_loop : ℕ → Bool → Bool → Bytes → List Event → Headed
unfolding header_round split_line
header_loop zero use_sfs retry got es = stops unfinished
header_loop (suc f) use_sfs retry got es =
    header_round (header_loop f use_sfs) use_sfs retry got es (split_line got)

-- `sock_restore` on what arrives: the bytes that its `fetch` delivers, which is `fetch_sock` of
-- Stores/Reads, one call after the other. That `fetch` waits for bytes which do not arrive is
-- a read error here, as is its error where the stream ends.
unfoldable pub sock_restore : List Event → Result Sexp
unfolding restore arriving loaded
sock_restore es = loaded (restore (arriving es))

unfoldable pub restored : Result Sexp → Answer
restored (ok x) = object x
restored r = not_loaded r

unfoldable pub payload_of : Fetched → Answer
payload_of (ok got es) = bytes got
payload_of read_error = broken_off
payload_of closed_early = lost
payload_of blocked = waits
payload_of out_of_fuel = unfinished

-- The payload: what came with the first line, cut to `pl`, and the loop for the rest of it.
unfoldable pub read_payload : ℕ → Bytes → List Event → Answer
unfolding fetch_loop rounds payload_of
read_payload pl behind es =
    let got = take pl behind in
    let left = pl - length got in payload_of (fetch_loop (rounds left es) fetch_size got left es)

-- `(unsigned long) atol(...)`, and allocVector.
unfoldable pub with_length : ℤ → Bytes → List Event → Answer
unfolding read_payload
with_length (pos pl) behind es = if ltb max_vector pl then no_vector else read_payload pl behind es
with_length (negsuc n) behind es = no_vector

abbrev pub ok_prefix : Bytes
ok_prefix = codes "OK "

-- What is made of the first line.
unfoldable pub after_header : Bool → Bytes → Bytes → List Event → Answer
unfolding same_bytes with_length atol_signed sock_restore restored
after_header use_sfs line behind es =
    if length line == 2 || same_bytes line (codes "UNSUPP")
    then text line
    else if same_bytes (take 3 line) ok_prefix
    then if use_sfs
      then restored (sock_restore es)
      else with_length (atol_signed (drop 3 line)) behind es
    else invalid_response line

unfoldable pub after_headed : Bool → Headed → Answer
unfolding after_header
after_headed use_sfs (headed line behind es) = after_header use_sfs line behind es
after_headed use_sfs (stops a) = a

-- The loop over the first line has a round for each byte and each event, and one more. `errno` is
-- not EAGAIN when it begins.
unfoldable pub receive : Bool → List Event → Answer
unfolding header_loop after_headed arriving
receive use_sfs es =
    after_headed use_sfs (header_loop (suc (length (arriving es) + length es)) use_sfs false [] es)

unfoldable pub after_send : Http.Answer → Bool → ℕ → List Event → Answer
unfolding receive
after_send failed use_sfs l es = send_failed
after_send (took n) use_sfs l es = if ltb n l then send_short n else receive use_sfs es

-- A text of R has no NUL, so that its `strlen` is its length.
unfoldable pub exchange : Peer → Bytes → Bool → Answer
unfolding after_send
exchange peer cmd use_sfs = after_send (peer.send cmd) use_sfs (length cmd) (peer.receives cmd)

-- `socket`, the address of the host, and `connect`.
unfoldable pub connected : Peer → Bytes → ℕ → Answer → Answer
connected peer host port next =
    if peer.has_socket
    then if peer.resolves host
      then if peer.accepts host port then next else unconnected
      else unresolved
    else no_socket

-- A command is a raw vector or a string.
unfoldable pub command_of : Sexp → Option Bytes
unfolding raw_of key_of
command_of (vec raw m n b) = some (take n b)
command_of (str m (cmd ∷ [])) = some cmd
command_of _ = none

unfoldable pub at_port : Peer → Bytes → ℤ → Bytes → Bool → Answer
unfolding connected exchange
at_port peer host (pos port) cmd use_sfs =
    if ltb 65535 port then bad_port else connected peer host port (exchange peer cmd use_sfs)
at_port peer host (negsuc n) cmd use_sfs = bad_port

unfoldable pub checked : Peer → Option Bytes → ℤ → Option Bytes → Bool → Answer
unfolding at_port
checked peer none port cmd use_sfs = bad_host
checked peer (some host) port none use_sfs = bad_command
checked peer (some host) port (some cmd) use_sfs = at_port peer host port cmd use_sfs

unfoldable pub c_ask : Peer → Sexp → ℤ → Sexp → Bool → Answer
unfolding checked key_of command_of
c_ask peer host port cmd use_sfs = checked peer (key_of host) port (command_of cmd) use_sfs
