-- ===== src/Lib.antt =====
-- osrv: an R object server. R objects are serialised (src/sfs.c) by stores that differ in where the
-- bytes go: into memory (src/mem_store.c), a file descriptor (src/fd_store.c), a connection with
-- chunked encoding (src/hcstore.c), or nowhere but into counters (src/stat_store.c). They are loaded
-- from memory (src/mem_restore.c) or a descriptor (src/fd_restore.c, src/sock_restore.c). A server
-- keeps entries by key (src/obj.c), tells a queue when the keys that something waits for are there
-- (src/deps.c), and is reached by a line protocol (src/osrv.c) or HTTP (src/ohsrv.c on src/http.c),
-- each on a pool of threads (src/therver.c). R calls the store (src/robj.c), the dependencies
-- (src/rdeps.c) and queues of events (src/revq.c on src/evqueue.c), and asks a server (src/ocli.c).
--
-- The files:
-- - Base and below: bytes, lists, Boolean tests, decimal numbers.
-- - Sfs/Object, Sfs/Store, Sfs/Load: the objects as trees, `store` as the list of the calls that it
--   makes, `sfs_load` and `decode_one` as parsers over a stream of bytes. Sfs/RoundTrip and below,
--   Sfs/Total and Sfs/Calls prove what holds of them.
-- - Stores/Memory (src/mem_store.c), Stores/Files (src/fd_store.c), Stores/Stats (src/stat_store.c)
--   run the calls of `store`; Stores/Reads is `fetch` of src/fd_restore.c and src/sock_restore.c.
-- - Http (sending, of src/http.c), Http/Uri (`uri_decode`), Http/Store (src/hcstore.c). Http/Chunk
--   has a client's decoder of chunks.
-- - Requests (`http_connected` and `http_input_iteration` of src/http.c): Requests/Scan finds lines in
--   the buffer, Requests/Lines treats one, Requests/Headers records header lines, Requests/Turn and
--   Requests/Connection are a turn and the loop. Requests/Sound and Requests/Wire and below prove
--   what holds of them; Requests/Wire/Stored and Requests/Wire/Stores join them with Server/Http.
-- - Api (src/robj.c): the calls of R on the object store.
-- - Pool (src/therver.c): the ring of tasks, and in Pool/Fifo the steps of the threads. Pool/Fork has
--   the handlers of fork, Pool/Start `therver`, `C_start` of src/osrv.c and `C_start_http` of
--   src/ohsrv.c.
-- - Server/Objects (src/obj.c), Server/Deps (src/deps.c), Server/State (both together),
--   Server/Requests (`C_dep_req` of src/rdeps.c), Server/Http (`http_process` of src/ohsrv.c).
-- - Server/Tcp (a round of `do_process` of src/osrv.c) and Server/Tcp/Session (its loop).
--   Server/Tcp/Commands is the specification: what a command answers and does, on stacks of entries.
-- - Client (src/ocli.c): `C_ask`; Client/Served joins it with Server/Tcp/Session.
-- - Queue (src/evqueue.c): the queue as a doubly linked list on a heap, Queue/Linked its list of
--   entries. Evq (src/revq.c): the events on such a queue and behind references of R, with
--   Evq/Owned the owner of each. Server/Deps and Server/Http have a list of events in its place;
--   Evq/Posts puts these on the queue, and Evq/Drained is what R pops from it.
-- - Tests: the theorems at concrete inputs.
--
-- The state is passed explicitly. Functions of the C library, of R and of the system are parameters:
-- what `write`, `send` and `read` answer, the content of fresh memory, the address of a new entry.
-- Integers are natural numbers, with the wrap-around of 64 or 32 bits written out where it occurs.
-- Lengths of objects are below 2^56, since a header has 56 bits for them.
--
-- Loops run on fuel: `sfs_load` has a unit for each byte of the buffer and one more, since each call
-- reads a header of eight bytes; the loops that write and send have a unit for each byte, since each
-- round moves one at least; `fetch` has one for each byte and each event. The loop over the line buffer
-- has one for each byte in it, since each line takes one at least, and the loop of a connection one
-- for each byte and event that can arrive, since a turn that goes on has read something.
--
-- Not modelled: the start of threads, the condition variables that wake workers, and what the accept
-- thread does after a shutdown (src/therver.c); TLS and the wrappers of send and recv (src/tls.c,
-- src/sconn.c), which call OpenSSL and the system; the opening of files, the R objects around a queue,
-- and failing allocations. The loader on a descriptor is the loader on the bytes that arrive. Where
-- `collect_buffers` writes past a header buffer the connection is `corrupted`, and nothing follows.
-- Strings of R are their texts: NA_STRING is the text NA, and encodings are not seen. What runs under
-- a mutex is one step, and such steps are taken one after the other.
pub mod Api
pub mod Client
pub mod Evq
pub mod Base
pub mod Sfs
pub mod Stores
pub mod Server
pub mod Http
pub mod Pool
pub mod Queue
pub mod Requests
pub mod Tests
