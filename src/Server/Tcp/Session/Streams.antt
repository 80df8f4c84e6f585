-- ===== src/Server/Tcp/Session/Streams.antt =====
-- A GET of an R object over the TCP protocol.
use osrv.Base.{◌≡◌, [], ◌∷◌, some, true}
use osrv.Base.Bytes.{Bytes}
use osrv.Http.{Conn}
use osrv.Server.State.{Server, entries}
use osrv.Server.Tcp.{close, Round, ok_sfs_text}
use osrv.Server.Tcp.Session.{Ended, shut}
use osrv.Sfs.Object.{Sexp}
use osrv.Stores.Files.Written.{Written}

-- The round of a GET of an entry that has an object and no data.
abbrev object_round : Sexp → Server → Round
object_round x s = record {
  server = s;
  sent = ok_sfs_text ∷ [];
  checked = true;
  streamed = some x;
  next = close;
}

-- The socket is closed after these bytes were sent, and the entries are those of before.
pub data Streams (sent : Bytes) (s : Server) : Ended → Type 0 where
  streams :
      {c : Conn} {t : Server}
      → c.sent ≡ sent
      → ((j : Bytes) → entries j t ≡ entries j s)
      → Streams sent s (shut c t)
