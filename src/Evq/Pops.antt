-- ===== src/Evq/Pops.antt =====
-- Pops of events for R: the first event, as a raw vector.
use osrv.Base.{
  ℕ, ◌≡◌, ◌≢◌, refl, sym, ap, ◌∙◌, subst, false, List, [], ◌∷◌, Option, none, some, if◌then◌else◌,
}
use osrv.Base.Bytes.{Bytes}
use osrv.Evq.{
  Event, World, set_event, set_ref, ev_free, popped, a_queue, bytes, vector_of, give, give_found,
  c_evq_pop, needs_free_fn,
}
use osrv.Evq.Owned.{IsAllocated, Owned, set_ref-same, release-Owned, pop-Owned}
use osrv.Queue.{Queue, ev_pop}
use osrv.Queue.Pops.{ev_pop-none, ev_pop-first}

abbrev pub IsOwned : World → List ℕ → Type 0
IsOwned w xs = Owned w.queue w.events w.refs xs

pub ev_free-some :
    (a : ℕ) (w : World)
    → IsAllocated w.events a
    → (r : List ℕ) × (ev_free a w
        ≡ some (record w { events = set_event a none w.events; released = r }))
unfolding ev_free
ev_free-some a w (e, h) =
    ((if needs_free_fn e then a ∷ w.released else w.released), rw (h, ev_free) refl)

pub popped-empty : (w : World) → IsOwned w [] → popped w ≡ (none, w)
unfolding popped
popped-empty w o =
    ap (λ (r : Option ℕ × Queue). (r.0, record w { queue = r.1 }))
      (ev_pop-none w.queue (o.is_queue.0))

pub popped-first :
    (w : World) (x : ℕ) (xs : List ℕ)
    → IsOwned w (x ∷ xs)
    → popped w ≡ (some x, record w { queue = (ev_pop w.queue).1 })
unfolding popped
popped-first w x xs o =
    ap (λ (e : Option ℕ). (e, record w { queue = (ev_pop w.queue).1 }))
      (ev_pop-first w.queue x xs o.is_queue).0

-- The world after the first event went to R as the raw vector of its bytes.
abbrev pub after_raw : ℕ → ℕ → List ℕ → World → World
after_raw i x r w = record w {
  queue = (ev_pop w.queue).1;
  events = set_event x none w.events;
  refs = set_ref i 0 (set_ref i x w.refs);
  released = r;
}

pub after_raw-Owned :
    (w : World) (i x : ℕ) (r xs : List ℕ)
    → w.refs i ≡ 0
    → IsOwned w (x ∷ xs)
    → IsOwned (after_raw i x r w) xs
after_raw-Owned w i x r xs new o =
    let given = pop-Owned w.queue w.events w.refs i x xs new o in
    let is_x = set_ref-same i x w.refs in
    let some_ref : set_ref i x w.refs i ≢ 0 = λ e. ((o.is_queue).2.0) (sym is_x ∙ e) in
    subst
      (λ (a : ℕ).
        Owned (ev_pop w.queue).1 (set_event a none w.events) (set_ref i 0 (set_ref i x w.refs)) xs)
      is_x (release-Owned (ev_pop w.queue).1 w.events (set_ref i x w.refs) i xs some_ref given)

give-raw :
    (fresh : ℕ → Bytes) (i x : ℕ) (w : World) (e : Event)
    → w.events x ≡ some e
    → (r : List ℕ) × (give fresh false i x w
        ≡ some (
          bytes (vector_of fresh e),
          record w {
            events = set_event x none w.events;
            refs = set_ref i 0 (set_ref i x w.refs);
            released = r;
          },
        ))
unfolding give
give-raw fresh i x w e h =
    let (r, freed) = ev_free-some x (record w { refs = set_ref i x w.refs }) (e, h) in
    (r, rw (h, give) (rw freed refl))

-- What a pop of the first event gives.
pub pop-raw :
    (fresh : ℕ → Bytes) (i x : ℕ) (w : World) (xs : List ℕ) (e : Event)
    → IsOwned w (x ∷ xs)
    → w.events x ≡ some e
    → (r : List ℕ) × (c_evq_pop fresh a_queue false i w
        ≡ some (bytes (vector_of fresh e), after_raw i x r w))
unfolding c_evq_pop give_found
pop-raw fresh i x w xs e o h =
    let (r, is) = give-raw fresh i x (record w { queue = (ev_pop w.queue).1 }) e h in
    (r, ap (give_found fresh false i) (popped-first w x xs o) ∙ is)
