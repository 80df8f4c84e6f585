-- ===== src/Evq/Calls.antt =====
-- The calls of R on a queue: none frees an event twice or uses one that was freed.
use osrv.Base.{
  ℕ, ◌≡◌, ◌≢◌, refl, sym, ap, ◌∙◌, subst, Bool, true, false, List, [], ◌∷◌, ◌++◌, Option, none,
  some, ◌==◌, if◌then◌else◌, Bool-cases, inl, inr, length, arith,
}
use osrv.Base.Bytes.{Bytes}
use osrv.Evq.{
  Event, World, set_event, set_ref, ev_create, eventry_free, What, reference, raw_vector, other,
  a_queue, Answer, nil, r_true, event, bytes, null_event, not_an_event, vector_of, give, give_found,
  c_evq_pop, push, push_ref, push_what, new_event, c_evq_push,
}
use osrv.Evq.Owned.{
  IsHeld, Owned, drop-Owned, release-Owned, pop-Owned, push-Owned, unzeroed, set_ref-other,
}
use osrv.Evq.Fresh.{zeroed, fresh-Owned, fresh-IsHeld, fresh_unheld}
use osrv.Queue.{ev_push, ev_pop, update}
use osrv.Evq.Pops.{
  IsOwned, ev_free-some, popped-empty, popped-first, after_raw, after_raw-Owned, pop-raw,
}

-- A call on a queue, or the finalizer of a reference.
pub data Call : Type 0 where
  pops : Bool → ℕ → Call
  pushes : What → Bool → ℕ → Call
  finalizes : ℕ → Call

unfoldable pub call : (ℕ → Bytes) → Call → World → Option (Answer × World)
unfolding c_evq_pop c_evq_push eventry_free
call fresh (pops as_ref i) w = c_evq_pop fresh a_queue as_ref i w
call fresh (pushes what front a) w = some (c_evq_push a_queue what front a w)
call fresh (finalizes i) w = elim (eventry_free i w) [ none ↦ none | some v ↦ some (nil, v) ]

-- A new reference, and the address of a new event.
abbrev pub IsNew : Call → World → Type 0
IsNew (pops as_ref i) w = w.refs i ≡ 0
IsNew (pushes what front a) w = (a ≢ 0) × (w.events a ≡ none)
IsNew (finalizes i) w = Unit

-- The call returns, and each event still has one owner.
pub record Returns (r : Option (Answer × World)) : Type 0 where
  pub result : Answer
  pub after : World
  pub events_of : List ℕ
  pub returns : r ≡ some (result, after)
  pub is_owned : IsOwned after events_of

finalizes-Returns :
    (fresh : ℕ → Bytes) (i : ℕ) (w : World) (xs : List ℕ)
    → IsOwned w xs
    → Returns (call fresh (finalizes i) w)
unfolding call eventry_free
finalizes-Returns fresh i w xs o = elim (Bool-cases (w.refs i == 0)) [
  | inl z ↦ record {
    result = nil;
    after = record w { refs = set_ref i 0 w.refs };
    events_of = xs;
    returns = rw (z, call, eventry_free) refl;
    is_owned = drop-Owned w.queue w.events w.refs i xs o;
  }
  | inr n ↦
      let some_ref : w.refs i ≢ 0 = λ e. absurd (ground arith) in
      let (r, e) = ev_free-some (w.refs i) w (o.held i some_ref).0 in
      record {
        result = nil;
        after = record w {
          events = set_event (w.refs i) none w.events;
          refs = set_ref i 0 w.refs;
          released = r;
        };
        events_of = xs;
        returns = rw (n, call, eventry_free) (rw e refl);
        is_owned = release-Owned w.queue w.events w.refs i xs some_ref o;
      }
]

pops-Returns :
    (fresh : ℕ → Bytes) (as_ref : Bool) (i : ℕ) (w : World) (xs : List ℕ)
    → w.refs i ≡ 0
    → IsOwned w xs
    → Returns (call fresh (pops as_ref i) w)
unfolding call c_evq_pop give_found give
pops-Returns fresh as_ref i w [] new o = record {
  result = nil;
  after = w;
  events_of = [];
  returns = ap (give_found fresh as_ref i) (popped-empty w o);
  is_owned = o;
}
pops-Returns fresh true i w (x ∷ xs) new o = record {
  result = event i;
  after = record w { queue = (ev_pop w.queue).1; refs = set_ref i x w.refs };
  events_of = xs;
  returns = ap (give_found fresh true i) (popped-first w x xs o);
  is_owned = pop-Owned w.queue w.events w.refs i x xs new o;
}
pops-Returns fresh false i w (x ∷ xs) new o =
    let (e, h) = o.allocated.0 in
    let (r, is) = pop-raw fresh i x w xs e o h in
    record {
      result = bytes (vector_of fresh e);
      after = after_raw i x r w;
      events_of = xs;
      returns = is;
      is_owned = after_raw-Owned w i x r xs new o;
    }

-- The event that a push of a raw vector makes, with a copy of the vector.
abbrev pub event_of : Bytes → Event
event_of b =
    let e = ev_create none (length b) false in
    record e { data_bytes = elim e.data_bytes [ none ↦ none | some z ↦ some b ] }

-- The event at the address `a`, as `calloc` gives it, not yet linked.
abbrev pub placed : Event → ℕ → World → World
placed e a w = record w {
  queue = record (w.queue) { heap = update a (record { prev = 0; next = 0 }) w.queue.heap };
  events = set_event a (some e) w.events;
}

pub placed-Owned :
    (e : Event) (w : World) (a : ℕ) (front : Bool) (xs : List ℕ)
    → a ≢ 0
    → w.events a ≡ none
    → IsOwned w xs
    → IsOwned (push a front (placed e a w)) (if front then a ∷ xs else xs ++ a ∷ [])
unfolding push
placed-Owned e w a front xs n new o =
    push-Owned (record (w.queue) { heap = zeroed a w.queue.heap }) (set_event a (some e) w.events)
      w.refs a front xs (fresh-IsHeld w.queue w.events w.refs a n new e xs o)
      (fresh_unheld w.queue w.events w.refs a n new xs o)
      (fresh-Owned w.queue w.events w.refs a n new e xs o)

pub pushed-Owned :
    (w : World) (a : ℕ) (b : Bytes) (front : Bool) (xs : List ℕ)
    → a ≢ 0
    → w.events a ≡ none
    → IsOwned w xs
    → IsOwned (push a front (new_event a b w)) (if front then a ∷ xs else xs ++ a ∷ [])
unfolding new_event
pushed-Owned w a b = placed-Owned (event_of b) w a

-- The event behind a reference goes to the queue, and the reference is zeroed.
push_ref-Owned :
    (i a : ℕ) (front : Bool) (w : World) (xs : List ℕ)
    → w.refs i ≡ a
    → a ≢ 0
    → IsOwned w xs
    → Owned
        (ev_push a front w.queue)
        w.events
        (set_ref i 0 w.refs)
        (if front then a ∷ xs else xs ++ a ∷ [])
push_ref-Owned i a front w xs e n o =
    let held = subst (IsHeld w.queue w.events xs) e (o.held i (λ z. n (sym e ∙ z))) in
    push-Owned w.queue w.events (set_ref i 0 w.refs) a front xs held
      (λ j h z.
        let other = unzeroed i j w.refs h in
        let same = set_ref-other i 0 j w.refs other in
        other (o.single j i (λ y. h (same ∙ y)) (sym same ∙ (z ∙ sym e))))
      (drop-Owned w.queue w.events w.refs i xs o)

push_ref-Returns :
    (fresh : ℕ → Bytes) (i a : ℕ) (front : Bool) (w : World) (xs : List ℕ)
    → w.refs i ≡ a
    → IsOwned w xs
    → Returns (some (push_ref i a front w))
unfolding push_ref push
push_ref-Returns fresh i a front w xs e o = elim (Bool-cases (a == 0)) [
  | inl z ↦ record {
    result = null_event;
    after = w;
    events_of = xs;
    returns = rw (z, push_ref) refl;
    is_owned = o;
  }
  | inr n ↦ record {
    result = r_true;
    after = let v = push a front w in record v { refs = set_ref i 0 v.refs };
    events_of = if front then a ∷ xs else xs ++ a ∷ [];
    returns = rw (n, push_ref) refl;
    is_owned = push_ref-Owned i a front w xs e (λ z. absurd (ground arith)) o;
  }
]

-- The queue holds events that are allocated and linked, R holds others by references, and no event is
-- held twice. Then a call of C_evq_push or C_evq_pop without a timeout, or the finalizer of a
-- reference, returns: it frees no event that is not allocated. Afterwards no event is held twice
-- either. A new reference and the address of a new event are not in use.
pub call-Returns :
    (fresh : ℕ → Bytes) (c : Call) (w : World) (xs : List ℕ)
    → IsNew c w
    → IsOwned w xs
    → Returns (call fresh c w)
unfolding call c_evq_push push_what
call-Returns fresh (pops as_ref i) w xs n o = pops-Returns fresh as_ref i w xs n o
call-Returns fresh (pushes (reference i) front a) w xs n o =
    push_ref-Returns fresh i (w.refs i) front w xs refl o
call-Returns fresh (pushes (raw_vector b) front a) w xs n o = record {
  result = r_true;
  after = push a front (new_event a b w);
  events_of = if front then a ∷ xs else xs ++ a ∷ [];
  returns = refl;
  is_owned = pushed-Owned w a b front xs n.0 n.1 o;
}
call-Returns fresh (pushes other front a) w xs n o = record {
  result = not_an_event;
  after = w;
  events_of = xs;
  returns = refl;
  is_owned = o;
}
call-Returns fresh (finalizes i) w xs n o = finalizes-Returns fresh i w xs o
