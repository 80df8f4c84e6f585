-- ===== src/Tests/Sessions.antt =====
-- Clients and connections of the TCP protocol.
use osrv.Base.{
  ℕ, ◌≡◌, refl, sym, ap, ◌∙◌, true, false, List, [], ◌∷◌, none, some, Bool-cases, inl, inr, length,
  arith,
}
use osrv.Base.Bytes.{Bytes}
use osrv.Base.Decimal.{decimal, decimal_go}
use osrv.Base.Text.{codes}
use osrv.Api.{content}
use osrv.Client.{Peer, c_ask}
use osrv.Client.Served.{HoldsSized, given, c_ask-given}
use osrv.Http.{Answer, took, Conn}
use osrv.Requests.{pos}
use osrv.Server.Objects.{Entry}
use osrv.Server.Objects.Stacks.{stack}
use osrv.Server.State.{Server, entries}
use osrv.Server.Tcp.Commands.{Command, gets, deletes, text_of, Stacks, effect, HoldsData, Refines}
use osrv.Server.Tcp.Session.{Ended, shut, do_process}
use osrv.Server.Tcp.Session.Ends.{Done, do_process-Done}
use osrv.Server.Tcp.Session.Serves.{requests, answers, effects, Closes, closes, do_process-Closes}
use osrv.Server.Tcp.Session.Streams.{Streams}
use osrv.Sfs.Object.{str, plain, same_bytes}
use osrv.Stores.Files.{Reply, wrote}
use osrv.Stores.Reads.{Event, chunk, again, closed, arriving}
use osrv.Tests.Objects.{small}

abbrev k_key : Bytes
k_key = b'k' ∷ []

abbrev k_data : Entry
k_data = record { key = k_key; len = 2; obj = some (7 ∷ 8 ∷ []); what = none }

abbrev k_object : Entry
k_object = record { key = k_key; len = 0; obj = none; what = some small }

abbrev with_entry : Entry → Server
with_entry e = record {
  objects = record { root = e ∷ []; pool = []; preserved = 0 };
  deps = record { chain = []; tail = 0; posted = [] };
  queue = false;
}

abbrev k_stacks : Stacks
k_stacks j = entries j (with_entry k_data)

k_stacks-HoldsData : HoldsData k_stacks
unfolding stack
k_stacks-HoldsData j = elim (Bool-cases (same_bytes j k_key)) [
  | inl e ↦ rw e (((7 ∷ 8 ∷ [], refl), tt))
  | inr e ↦ rw e tt
]

k_stacks-HoldsSized : HoldsSized k_stacks
unfolding stack content
k_stacks-HoldsSized j = elim (Bool-cases (same_bytes j k_key)) [
  | inl e ↦ rw e (((refl, omega arith), tt))
  | inr e ↦ rw e tt
]

-- A socket that takes three bytes at a time, and a descriptor that takes all.
abbrev slow : ℕ → ℕ → Answer
slow i n = took 3

abbrev takes_all : ℕ → Bytes → Reply
takes_all i b = wrote (length b)

-- A GET, a DEL, and a GET of what was deleted.
abbrev three_commands : List Command
three_commands = gets k_key ∷ deletes k_key ∷ gets k_key ∷ []

do_process-Closes_example :
    Closes
      (answers three_commands k_stacks)
      (effects three_commands k_stacks)
      (do_process slow takes_all (with_entry k_data) (requests three_commands))
do_process-Closes_example =
    do_process-Closes slow (λ i n. (2, refl)) takes_all (with_entry k_data) three_commands k_stacks
      (
        (((refl, refl, refl), tt), refl),
        ((((refl, refl, refl), tt), refl), ((((refl, refl, refl), tt), refl), tt)),
      )
      (omega arith, (omega arith, (omega arith, tt))) (λ j. refl) k_stacks-HoldsData

do_process-Done_example : Done (
    do_process slow takes_all
      (with_entry k_data)
      (chunk b'G' (codes "ET k\n") ∷ again ∷ closed ∷ []))
do_process-Done_example =
    do_process-Done slow takes_all (with_entry k_data)
      (chunk b'G' (codes "ET k\n") ∷ again ∷ closed ∷ [])

abbrev peer_with : List Event → Peer
peer_with es = record {
  has_socket = true;
  resolves = λ host. true;
  accepts = λ host port. true;
  send = λ cmd. took (length cmd);
  receives = λ cmd. es;
}

-- The answer to the GET, in three pieces with a timeout between them.
abbrev k_events : List Event
k_events = chunk b'O' (codes "K ") ∷ again ∷ chunk b'2' (10 ∷ 7 ∷ []) ∷ chunk 8 [] ∷ []

k_events-arriving : arriving k_events ≡ answers (gets k_key ∷ []) k_stacks
unfolding arriving stack same_bytes content decimal decimal_go
k_events-arriving = refl

Closes-sent :
    (sent : Bytes) (st : Stacks) (r : Ended) (c : Conn) (t : Server)
    → Closes sent st r
    → r ≡ shut c t
    → sent ≡ c.sent
Closes-sent sent st r c t (closes {c = d} {s = u} e refined) h =
    let same : d ≡ c = cc in sym e ∙ ap (λ x. x.sent) same

abbrev host_name : Bytes
host_name = b'h' ∷ []

c_ask-given_example :
    (c_ask
        (peer_with k_events)
        (str plain (host_name ∷ []))
        (pos 9012)
        (str plain (text_of (gets k_key) ∷ []))
        false
      ≡ given (gets k_key) k_stacks)
    × ((c : Conn) × (t : Server) × (do_process slow takes_all
            (with_entry k_data)
            (requests (gets k_key ∷ []))
          ≡ shut c t)
        × Refines t (effect (gets k_key) k_stacks))
c_ask-given_example =
    c_ask-given slow (λ i n. (2, refl)) takes_all (peer_with k_events) host_name 9012 (gets k_key)
      (with_entry k_data) k_stacks
      (record {
        opens = refl;
        is_resolved = refl;
        is_accepted = refl;
        is_port = omega arith;
        is_sent = refl;
      })
      (((refl, refl, refl), tt), refl) (omega arith) (λ j. refl) k_stacks-HoldsData
      k_stacks-HoldsSized
      (λ c t h.
        k_events-arriving
        ∙ Closes-sent (answers (gets k_key ∷ []) k_stacks) (effects (gets k_key ∷ []) k_stacks) _ c
            t
            (do_process-Closes slow (λ i n. (2, refl)) takes_all (with_entry k_data)
              (gets k_key ∷ []) k_stacks ((((refl, refl, refl), tt), refl), tt) (omega arith, tt)
              (λ j. refl) k_stacks-HoldsData)
            h)
