-- ===== src/Evq/Fresh.antt =====
-- A new event, which `calloc` gives: it is on no queue and behind no reference.
use osrv.Base.{ℕ, ◌≡◌, ◌≢◌, sym, ap, ◌∙◌, List, [], ◌∷◌, Option, none, some, ==-refl, All}
use osrv.Evq.{Event, set_event}
use osrv.Evq.Owned.{
  IsAllocated, IsHeld, Owned, IsAllocated-other, All-IsAllocated-other, IsFree-other,
}
use osrv.Queue.{Heap, Queue, update}
use osrv.Queue.Linked.{update-same, update-other, IsLinked-outside}

abbrev pub zeroed : ℕ → Heap → Heap
zeroed a h = update a (record { prev = 0; next = 0 }) h

zeroed-other : (a x : ℕ) (h : Heap) → x ≢ a → zeroed a h x ≡ h x
zeroed-other a x h n = update-other a x (record { prev = 0; next = 0 }) h n

All-zeroed :
    (a : ℕ) (h : Heap) (xs : List ℕ) → All (λ y. y ≢ a) xs → All (λ x. zeroed a h x ≡ h x) xs
All-zeroed a h [] n = tt
All-zeroed a h (x ∷ xs) n = (zeroed-other a x h n.0, All-zeroed a h xs n.1)

pub set_event-same :
    (a : ℕ) (e : Option Event) (events : ℕ → Option Event) → set_event a e events a ≡ e
unfolding set_event
set_event-same a e events = rw (==-refl a)

module _ (q : Queue) (events : ℕ → Option Event) (refs : ℕ → ℕ) (a : ℕ) (nonzero : a ≢ 0)
    (new : events a ≡ none) where
  IsAllocated-ne : (x : ℕ) → IsAllocated events x → x ≢ a
  IsAllocated-ne x (e, h) same =
      let clash : some e ≡ none = sym h ∙ (ap events same ∙ new) in absurd (cc)

  pub All-ne_new : (xs : List ℕ) → All (IsAllocated events) xs → All (λ y. y ≢ a) xs
  All-ne_new [] h = tt
  All-ne_new (x ∷ xs) h = (IsAllocated-ne x h.0, All-ne_new xs h.1)

  abbrev made : Queue
  made = record q { heap = zeroed a q.heap }

  pub fresh-Owned :
      (e : Event) (xs : List ℕ)
      → Owned q events refs xs
      → Owned (record q { heap = zeroed a q.heap }) (set_event a (some e) events) refs xs
  fresh-Owned e xs o =
      let apart = All-ne_new xs o.allocated in
      record {
        is_queue = (
          (o.is_queue).0,
          (o.is_queue).1,
          IsLinked-outside q.heap (zeroed a q.heap) 0 xs (All-zeroed a q.heap xs apart)
              (o.is_queue).2,
          (o.is_queue).3,
        );
        allocated = All-IsAllocated-other a (some e) events xs apart o.allocated;
        held = λ j h.
            let (d, g, others) = o.held j h in
            let n = IsAllocated-ne (refs j) d in
            (
              IsAllocated-other a (refs j) (some e) events n d,
              IsFree-other q.heap (zeroed a q.heap) (refs j) (zeroed-other a (refs j) q.heap n) g,
              others,
            );
        single = o.single;
      }

  pub fresh-IsHeld :
      (e : Event) (xs : List ℕ)
      → Owned q events refs xs
      → IsHeld (record q { heap = zeroed a q.heap }) (set_event a (some e) events) xs a
  fresh-IsHeld e xs o =
      let same = update-same a (record { prev = 0; next = 0 }) q.heap in
      (
        (e, set_event-same a (some e) events),
        (nonzero, ap (λ m. m.prev) same, ap (λ m. m.next) same),
        All-ne_new xs o.allocated,
      )

  pub fresh_unheld : (xs : List ℕ) → Owned q events refs xs → (j : ℕ) → refs j ≢ 0 → refs j ≢ a
  fresh_unheld xs o j h = IsAllocated-ne (refs j) (o.held j h).0
