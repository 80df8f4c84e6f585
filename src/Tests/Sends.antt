-- ===== src/Tests/Sends.antt =====
-- Descriptors and connections.
use osrv.Base.{ℕ, ◌≡◌, ◌++◌, some, arith, refl, List, [], ◌∷◌, length}
use osrv.Base.Bytes.{Bytes}
use osrv.Sfs.Store.{encode}
use osrv.Stores.Files.{Reply, wrote, fd_store}
use osrv.Stores.Files.Sent.{Sent, fd_store-Sent}
use osrv.Stores.Reads.{Event, chunk, again, fetch_file, fetch_sock, arriving}
use osrv.Stores.Reads.Delivered.{Delivers, fetch_file-Delivers}
use osrv.Http.Chunk.{send_chunks, dechunk, concat, send_chunks-dechunk}
use osrv.Http.{
  Answer, took, Conn, http_send_chunk, send_loop, send_next, and_then, hex_size, hex_loop,
  http_send, send_buf, send_response,
}
use osrv.Http.Sending
use osrv.Http.Sending.{http_send-Delivers}
use osrv.Http.Store.Answers.{Takes}
use osrv.Tests.Objects.{small, small-Restorable}

-- A system that takes all it is given.
abbrev takes_all : ℕ → Bytes → Reply
takes_all i b = wrote (length b)

fd_store-Sent_example : Sent (encode small) (fd_store takes_all small)
fd_store-Sent_example = fd_store-Sent takes_all small (λ i b e h. absurd (cc h)) small-Restorable

abbrev events : List Event
events = chunk 1 (2 ∷ []) ∷ again ∷ chunk 3 (4 ∷ 5 ∷ []) ∷ []

fetch_file-Delivers_example :
    Delivers [] 4 (arriving events) (fetch_file 4 events)
    × Delivers [] 4 (arriving events) (fetch_sock 4 events)
fetch_file-Delivers_example = fetch_file-Delivers 4 events

-- A socket that takes at most three bytes at a time.
abbrev slow : ℕ → ℕ → Answer
slow i n = took 3

abbrev fresh_conn : Conn
fresh_conn = record { sent = []; calls = 0 }

http_send-Delivers_example :
    Sending.Delivers fresh_conn
      (1 ∷ 2 ∷ 3 ∷ 4 ∷ [])
      (http_send slow fresh_conn (1 ∷ 2 ∷ 3 ∷ 4 ∷ []))
    × Sending.Delivers fresh_conn
        (1 ∷ 2 ∷ 3 ∷ 4 ∷ [])
        (send_response slow fresh_conn (1 ∷ 2 ∷ 3 ∷ 4 ∷ []))
    × Sending.Delivers fresh_conn
        (1 ∷ 2 ∷ 3 ∷ 4 ∷ [])
        (send_buf slow fresh_conn (1 ∷ 2 ∷ 3 ∷ 4 ∷ []))
http_send-Delivers_example = http_send-Delivers slow fresh_conn (1 ∷ 2 ∷ 3 ∷ 4 ∷ [])

slow-Takes : Takes slow
slow-Takes i n = (2, refl)

send_chunks-dechunk_example :
    (stream : Bytes) × ((send_chunks slow ((1 ∷ 2 ∷ 3 ∷ 4 ∷ []) ∷ (5 ∷ []) ∷ []) fresh_conn).1.sent
      ≡ [] ++ stream)
    × (dechunk 3 stream ≡ some (concat ((1 ∷ 2 ∷ 3 ∷ 4 ∷ []) ∷ (5 ∷ []) ∷ [])))
unfolding http_send_chunk http_send send_loop send_next and_then hex_size hex_loop
send_chunks-dechunk_example =
    send_chunks-dechunk slow ((1 ∷ 2 ∷ 3 ∷ 4 ∷ []) ∷ (5 ∷ []) ∷ []) fresh_conn
      (omega arith, (omega arith, tt)) refl
