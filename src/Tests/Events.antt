-- ===== src/Tests/Events.antt =====
-- Events on a queue, requests for keys, and the threads of a server.
use osrv.Base.{
  List, ℕ, zero, suc, ◌≡◌, refl, sym, ◌∙◌, ◌⊎◌, inl, inr, ==_iff, Bool-cases, subst, true, false,
  [], ◌∷◌, ◌++◌, map, none, some, ◌==◌, ◌≤◌, ◌*◌, ◌/◌, ◌%◌, ◌+◌, if◌then◌else◌, length, arith,
}
use osrv.Base.Bytes.{Bytes}
use osrv.Evq.{
  vector_of, Event, World, raw_vector, a_queue, zeros, c_evq_pop, c_evq_push, ev_pop_wait,
}
use osrv.Evq.Pops.{IsOwned}
use osrv.Evq.Calls.{pops, call, Returns, call-Returns}
use osrv.Evq.Owned.{IsHeld}
use osrv.Evq.Posts.{payload, posts}
use osrv.Evq.Drained.{Holds, pop_all, deps_complete-pop_all}
use osrv.Evq.Contents.{
  bytes_of, contents, first_of, rest_of, Gives, c_evq_push-c_evq_pop, failures, ev_pop_wait-failed,
}
use osrv.Pool.{started, enqueue, add_task, link_last}
use osrv.Pool.Fifo.{System, start}
use osrv.Pool.Fork.{closes, sockets, reset, forked_therver, forked_therver-IsPool}
use osrv.Pool.Ring.{IsPool}
use osrv.Pool.Start.{Network, Starts, host_of, c_start, c_start-Starts}
use osrv.Queue.{update, set_next, set_prev}
use osrv.Tests.Connections.{blank}
use osrv.Requests.{pos}
use osrv.Server.Deps.{Event as Posted}
use osrv.Server.Deps.Completion.{Completes}
use osrv.Server.Deps.{
  Dependent, Deps, work, mark, satisfied, complete_walk, deps_complete, last_address,
}
use osrv.Server.Deps.Tail.{TailIsLast}
use osrv.Server.Requests.{done, texts, block_size, Requests, c_dep_req, c_dep_req-done}
use osrv.Sfs.Object.{same_bytes, str, plain}
use osrv.Tests.Queues.{two_entries, two_entries-IsQueue}
use osrv.Tests.Servers.{k_key, two_server, two_waiting}

abbrev vector_event : Bytes → Event
vector_event b = record { data_bytes = some b; inside = true; len = length b; frees = false }

-- Two events on a queue, and a third one behind the reference 1.
abbrev three_events : World
three_events = record {
  queue = two_entries;
  events = λ x.
      if x == 8
      then some (vector_event (5 ∷ []))
      else if x == 16
      then some (vector_event (6 ∷ 7 ∷ []))
      else if x == 24
      then some (vector_event (9 ∷ []))
      else none;
  refs = λ i. if i == 1 then 24 else 0;
  released = [];
}

-- Only the reference 1 is not NULL.
ref_or : (i : ℕ) → (i ≡ 1) ⊎ (three_events.refs i ≡ 0)
ref_or i = elim (Bool-cases (i == 1)) [ inl e ↦ inl ((==_iff i 1).0 e) | inr n ↦ inr (rw n refl) ]

third-IsHeld : IsHeld two_entries three_events.events (8 ∷ 16 ∷ []) 24
third-IsHeld =
    ((vector_event (9 ∷ []), refl), (omega arith, refl, refl), (omega arith, (omega arith, tt)))

three_events-IsOwned : IsOwned three_events (8 ∷ 16 ∷ [])
three_events-IsOwned = record {
  is_queue = two_entries-IsQueue;
  allocated = ((vector_event (5 ∷ []), refl), ((vector_event (6 ∷ 7 ∷ []), refl), tt));
  held = λ i h. elim (ref_or i) [
    | inl e ↦
        subst (λ a. IsHeld two_entries three_events.events (8 ∷ 16 ∷ []) (three_events.refs a))
          (sym e) third-IsHeld
    | inr z ↦ absurd (h z)
  ];
  single = λ i j h e. elim (ref_or i) [
    | inl a ↦ elim (ref_or j) [ inl b ↦ a ∙ sym b | inr z ↦ absurd (h (e ∙ z)) ]
    | inr z ↦ absurd (h z)
  ];
}

call-Returns_example : Returns (call zeros (pops false 2) three_events)
call-Returns_example =
    call-Returns zeros (pops false 2) three_events (8 ∷ 16 ∷ []) refl three_events-IsOwned

length-zeros : (n : ℕ) → length (zeros n) ≡ n
length-zeros zero = refl
length-zeros (suc n) = omega (arith, length-zeros n)

c_evq_push-c_evq_pop_example :
    Gives zeros
      (first_of (1 ∷ 2 ∷ []) (contents zeros three_events.events (8 ∷ 16 ∷ [])))
      (rest_of (1 ∷ 2 ∷ []) (contents zeros three_events.events (8 ∷ 16 ∷ [])))
      (c_evq_pop zeros a_queue false 2
        (c_evq_push a_queue (raw_vector (1 ∷ 2 ∷ [])) false 32 three_events).1)
c_evq_push-c_evq_pop_example =
    c_evq_push-c_evq_pop zeros three_events 32 2 (1 ∷ 2 ∷ []) (8 ∷ 16 ∷ []) length-zeros
      (omega arith) refl refl three_events-IsOwned

-- An int on a machine whose lowest byte comes first.
abbrev int_bytes : ℕ → Bytes
int_bytes n = n % 256 ∷ n / 256 % 256 ∷ n / 65536 % 256 ∷ n / 16777216 % 256 ∷ []

-- Two payloads of the /work API are on the queue, and two entries wait for keys.
abbrev after_work : Deps
after_work = record two_waiting { posted = work (5 ∷ []) ∷ work (6 ∷ 7 ∷ []) ∷ [] }

three_events-Holds : Holds zeros three_events (map (payload int_bytes) after_work.posted)
unfolding bytes_of vector_of
three_events-Holds = record {
  events_of = 8 ∷ 16 ∷ [];
  is_owned = three_events-IsOwned;
  holds = refl;
}

deps_complete-pop_all_example :
    (messages : List Posted) × (Completes
        (some k_key)
        after_work.chain
        (deps_complete (some k_key) after_work).chain
        messages
      × (pop_all zeros 2
            (suc (length (map (payload int_bytes) (after_work.posted ++ messages))))
            (posts int_bytes (complete_walk (some k_key) after_work.chain).1 (32 ∷ []) three_events)
          ≡ some (map (payload int_bytes) (after_work.posted ++ messages))))
unfolding deps_complete complete_walk mark satisfied same_bytes
deps_complete-pop_all_example =
    deps_complete-pop_all zeros int_bytes (λ n. refl) (some k_key) after_work three_events (32 ∷ [])
      2 refl (((omega arith, refl), tt), (tt, tt)) refl three_events-Holds

-- A queue on which nothing is.
abbrev empty_queue : World
empty_queue = record three_events { queue = record two_entries { head = 0; tail = 0 } }

ev_pop_wait-failed_example : ev_pop_wait (failures 3 empty_queue) empty_queue ≡ none
ev_pop_wait-failed_example = ev_pop_wait-failed 3 empty_queue refl

-- A server with one connection that was accepted.
abbrev one_accepted : System
one_accepted = record (start 3 blank) {
  pool = enqueue 8 5 (started 3 blank);
  accepted = some 5 ∷ [];
}

one_accepted-IsPool : IsPool one_accepted.pool (8 ∷ [])
unfolding started enqueue add_task link_last set_next set_prev update
one_accepted-IsPool =
    ((refl, (refl, (refl, refl))), ((((omega arith, tt), (tt, tt))), (omega arith, tt)))

forked_therver-IsPool_example :
    (forked_therver 2 one_accepted.pool
      ≡ some (
        closes one_accepted.pool.ss ++ sockets one_accepted.pool.socket (8 ∷ []),
        record (one_accepted.pool) {
          active = false;
          ss = none;
          socket = reset (8 ∷ []) one_accepted.pool.socket;
        },
      ))
    × IsPool
        (record (one_accepted.pool) {
          active = false;
          ss = none;
          socket = reset (8 ∷ []) one_accepted.pool.socket;
        })
        (8 ∷ [])
forked_therver-IsPool_example =
    forked_therver-IsPool one_accepted.pool 2 (8 ∷ []) one_accepted-IsPool (omega arith)

abbrev network : Network
network = record {
  socket = some 3;
  resolves = λ host. false;
  binds = λ port. true;
  listens = true;
  has_memory = true;
}

c_start-Starts_example :
    Starts network []
      (host_of (str plain []))
      (pos 9012)
      (pos 4)
      (c_start network (str plain []) (pos 9012) (pos 4) blank [])
c_start-Starts_example = c_start-Starts network (str plain []) (pos 9012) (pos 4) blank []

two_server-TailIsLast : TailIsLast two_server.deps
unfolding last_address
two_server-TailIsLast = inr refl

-- The dependents of `two_server`, whose tail is the last one, and a request for its two keys.
c_dep_req-done_example :
    (length (k_key ∷ []) * 8 + length (texts (k_key ∷ [])) ≤ block_size (k_key ∷ []))
    × ((d : Deps) × (e : Dependent) × (messages : List Posted) × (c_dep_req 300
            (str plain (k_key ∷ []))
            (str plain (k_key ∷ []))
            5
            two_server
          ≡ done d)
        × Requests two_server k_key (k_key ∷ []) 5 e
        × Completes none (two_server.deps.chain ++ e ∷ []) d.chain messages
        × (d.posted ≡ two_server.deps.posted ++ messages))
c_dep_req-done_example =
    c_dep_req-done 300 5 plain plain k_key [] (k_key ∷ []) two_server ((omega arith, tt), tt)
      two_server-TailIsLast
