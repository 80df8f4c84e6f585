-- ===== src/Requests/Sound.antt =====
-- What holds of a connection of src/http.c between two turns.
pub mod Lines
pub mod Receiving
pub mod Rounds
pub mod Steps
use osrv.Base.{
  ℕ, zero, suc, ◌+◌, ◌≤◌, ◌<◌, Bool, true, false, List, [], ◌∷◌, Option, none, some, length, All,
  arith,
}
use osrv.Base.Bytes.{Bytes}
use osrv.Stores.Reads.{Event}
use osrv.Requests.{
  ℤ, pos, negsuc, Req, HeaderBuf, Part, request_part, header_part, body_part, Client, line_buf_size,
}
use osrv.Requests.Headers.Bounds.{Fits, IsOverrun}
use osrv.Requests.Turn.{State, ready, waiting, corrupted, shut, out_of_fuel, Turn}
use osrv.Requests.Connection.{size}

-- The body stands in its part alone: shorter than its length by `lack` bytes at least, and its length
-- is within the limit.
abbrev pub Bodied : ℕ → Part → Option Bytes → ℤ → Type 0
Bodied lack body_part (some b) (pos n) = (length b + lack ≤ n) × (n ≤ 2147483640)
Bodied lack body_part (some b) (negsuc n) = ⊥
Bodied lack body_part none n = ⊥
Bodied lack request_part none n = Unit
Bodied lack header_part none n = Unit
Bodied lack request_part (some b) n = ⊥
Bodied lack header_part (some b) n = ⊥

-- The invariant of a connection; `lack` is 1 between two turns and 0 within a turn.
pub record Sound (lack : ℕ) (c : Client) : Type 0 where
  pub room : length c.line_buf < line_buf_size
  pub buffers : All Fits c.headers
  pub bodied : Bodied lack c.part c.req.body c.req.content_length

-- A turn keeps the invariant, and one that goes on has read something of the `before` bytes and
-- events that could arrive.
abbrev pub After : ℕ → ℕ → State → ℕ → Type 0
After lack before (ready c) rest = Sound lack c × (rest < before)
After lack before (waiting c) rest = Sound 1 c
After lack before shut rest = Unit
After lack before (corrupted c) rest = IsOverrun c.headers
After lack before out_of_fuel rest = ⊥

-- The end of a connection: it is closed, or waits, or its header lines do not fit the first buffer.
abbrev pub Ended : State → Type 0
Ended (ready c) = ⊥
Ended (waiting c) = Sound 1 c
Ended shut = Unit
Ended (corrupted c) = IsOverrun c.headers
Ended out_of_fuel = ⊥
