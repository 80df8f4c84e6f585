-- ===== src/Evq.antt =====
-- src/revq.c: the calls of R on an event queue, and of src/evqueue.c the events themselves, `ev_free`
-- and `ev_pop_wait`. A reference of R to an event is a number, and allocations succeed.
pub mod Owned
pub mod Fresh
pub mod Pops
pub mod Calls
pub mod Contents
pub mod Posts
pub mod Drained
use osrv.Base.{
  ℕ, zero, suc, Bool, true, false, not, ◌&&◌, List, [], ◌∷◌, ◌++◌, Option, none, some, ltb, ◌==◌,
  if◌then◌else◌, length, take,
}
use osrv.Base.Bytes.{Bytes}
use osrv.Queue.{Node, Queue, update, ev_push, ev_pop}

-- `ev_entry_t`, without its links. `inside` says that `data` points into the entry, and `frees` that
-- `free_fn` is set.
pub record Event : Type 0 where
  pub data_bytes : Option Bytes
  pub inside : Bool
  pub len : ℕ
  pub frees : Bool

abbrev pub zeros : ℕ → Bytes
zeros zero = []
zeros (suc n) = 0 ∷ zeros n

-- The event that `ev_create` makes.
unfoldable pub ev_create : Option Bytes → ℕ → Bool → Event
ev_create (some b) len frees = record {
  data_bytes = some b;
  inside = false;
  len = len;
  frees = frees;
}
ev_create none zero frees = record { data_bytes = none; inside = false; len = 0; frees = frees }
ev_create none (suc n) frees = record {
  data_bytes = some (zeros (suc n));
  inside = true;
  len = suc n;
  frees = frees;
}

-- The bytes from `data` to the end of the entry: the field `res`, and what `ev_create` adds.
unfoldable pub room_of : ℕ → ℕ
room_of len = if ltb len 3 then 8 else suc (suc (suc (suc (suc (suc (suc (suc len)))))))

-- A queue, the events by their addresses, the address behind each reference of R, 0 for NULL, and the
-- events for which `free_fn` was called.
pub record World : Type 0 where
  pub queue : Queue
  pub events : ℕ → Option Event
  pub refs : ℕ → ℕ
  pub released : List ℕ

unfoldable pub set_event : ℕ → Option Event → (ℕ → Option Event) → ℕ → Option Event
set_event a e f x = if x == a then e else f x

unfoldable pub set_ref : ℕ → ℕ → (ℕ → ℕ) → ℕ → ℕ
set_ref i a f x = if x == i then a else f x

unfoldable pub needs_free_fn : Event → Bool
needs_free_fn e = elim e.data_bytes [ none ↦ false | some b ↦ not e.inside && e.frees ]

-- `ev_free`: none if the event is not allocated.
unfoldable pub ev_free : ℕ → World → Option World
unfolding set_event needs_free_fn
ev_free a w = elim (w.events a) [
  | none ↦ none
  | some e ↦ some (record w {
    events = set_event a none w.events;
    released = if needs_free_fn e then a ∷ w.released else w.released;
  })
]

unfoldable pub popped : World → Option ℕ × World
popped w = let (e, q) = ev_pop w.queue in (e, record w { queue = q })

-- Why a `pthread_cond_timedwait` has returned.
pub data Wake : Type 0 where
  signalled timed_out failed : Wake

-- `ev_pop_wait`: none if it does not return. A wait comes with what the other threads have made of
-- the queue meanwhile. A wait that fails is tried again.
unfoldable pub ev_pop_wait : List (Wake × World) → World → Option (Option ℕ × World)
unfolding popped
ev_pop_wait [] w = if w.queue.head == 0 then none else some (popped w)
ev_pop_wait ((timed_out, v) ∷ wakes) w =
    if w.queue.head == 0 then some (popped v) else some (popped w)
ev_pop_wait ((signalled, v) ∷ wakes) w =
    let later = ev_pop_wait wakes v in if w.queue.head == 0 then later else some (popped w)
ev_pop_wait ((failed, v) ∷ wakes) w =
    let later = ev_pop_wait wakes v in if w.queue.head == 0 then later else some (popped w)

-- What R gives as a queue and as an event, and what it is given.
pub data QueueArg : Type 0 where
  a_queue null_queue no_queue : QueueArg

pub data What : Type 0 where
  reference : ℕ → What
  raw_vector : Bytes → What
  other : What

pub data Answer : Type 0 where
  nil r_true : Answer
  event : ℕ → Answer
  bytes : Bytes → Answer
  invalid_queue invalid_null_queue null_event not_an_event : Answer

-- `eventry_R_free`, the finalizer.
unfoldable pub eventry_free : ℕ → World → Option World
unfolding ev_free set_ref
eventry_free i w = elim (if w.refs i == 0 then some w else ev_free (w.refs i) w) [
  | none ↦ none
  | some v ↦ some (record v { refs = set_ref i 0 v.refs })
]

-- The bytes of the raw vector; `fresh` is what allocVector leaves in it.
unfoldable pub vector_of : (ℕ → Bytes) → Event → Bytes
vector_of fresh e = elim e.data_bytes [ none ↦ fresh e.len | some b ↦ take e.len b ]

-- `C_evq_pop` with the entry `a`, to which R has the new reference `i`.
unfoldable pub give : (ℕ → Bytes) → Bool → ℕ → ℕ → World → Option (Answer × World)
unfolding ev_free set_ref vector_of
give fresh true i a w = some (event i, record w { refs = set_ref i a w.refs })
give fresh false i a w = elim (w.events a) [
  | none ↦ none
  | some e ↦ elim (ev_free a (record w { refs = set_ref i a w.refs })) [
    | none ↦ none
    | some v ↦ some (bytes (vector_of fresh e), record v { refs = set_ref i 0 v.refs })
  ]
]

unfoldable pub give_found : (ℕ → Bytes) → Bool → ℕ → Option ℕ × World → Option (Answer × World)
unfolding give
give_found fresh as_ref i (none, w) = some (nil, w)
give_found fresh as_ref i (some a, w) = give fresh as_ref i a w

-- Without a timeout, and with one.
unfoldable pub c_evq_pop : (ℕ → Bytes) → QueueArg → Bool → ℕ → World → Option (Answer × World)
unfolding give_found popped
c_evq_pop fresh a_queue as_ref i w = give_found fresh as_ref i (popped w)
c_evq_pop fresh null_queue as_ref i w = some (invalid_null_queue, w)
c_evq_pop fresh no_queue as_ref i w = some (invalid_queue, w)

unfoldable pub c_evq_pop_wait :
    (ℕ → Bytes) → List (Wake × World) → QueueArg → Bool → ℕ → World → Option (Answer × World)
unfolding give_found ev_pop_wait
c_evq_pop_wait fresh wakes a_queue as_ref i w = elim (ev_pop_wait wakes w) [
  | none ↦ none
  | some found ↦ give_found fresh as_ref i found
]
c_evq_pop_wait fresh wakes null_queue as_ref i w = some (invalid_null_queue, w)
c_evq_pop_wait fresh wakes no_queue as_ref i w = some (invalid_queue, w)

unfoldable pub push : ℕ → Bool → World → World
unfolding ev_push
push a front w = record w { queue = ev_push a front w.queue }

unfoldable pub push_ref : ℕ → ℕ → Bool → World → Answer × World
unfolding push set_ref
push_ref i a front w =
    if a == 0
    then (null_event, w)
    else (r_true, let v = push a front w in record v { refs = set_ref i 0 v.refs })

-- The entry as `calloc` leaves it at the address `a`, with a copy of the vector.
unfoldable pub new_event : ℕ → Bytes → World → World
unfolding ev_create set_event update
new_event a b w =
    let e = ev_create none (length b) false in
    record w {
      queue = record (w.queue) { heap = update a (record { prev = 0; next = 0 }) w.queue.heap };
      events =
          set_event a
            (some (record e { data_bytes = elim e.data_bytes [ none ↦ none | some z ↦ some b ] }))
            w.events;
    }

-- `C_evq_push`; `a` is the address that `ev_create` gets.
unfoldable pub push_what : What → Bool → ℕ → World → Answer × World
unfolding push push_ref new_event
push_what (reference i) front a w = push_ref i (w.refs i) front w
push_what (raw_vector b) front a w = (r_true, push a front (new_event a b w))
push_what other front a w = (not_an_event, w)

unfoldable pub c_evq_push : QueueArg → What → Bool → ℕ → World → Answer × World
unfolding push_what
c_evq_push a_queue what front a w = push_what what front a w
c_evq_push null_queue what front a w = (invalid_null_queue, w)
c_evq_push no_queue what front a w = (invalid_queue, w)
