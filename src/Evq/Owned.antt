-- ===== src/Evq/Owned.antt =====
-- Who owns the events: each one that is allocated and in use is on the queue or behind one reference
-- of R, and not both.
use osrv.Base.{
  ℕ, ◌≡◌, ◌≢◌, sym, ap, ◌∙◌, subst, Bool, true, false, List, [], ◌∷◌, ◌++◌, Option, none, some,
  ◌==◌, ==-refl, ==_iff, ◌⊎◌, if◌then◌else◌, Bool-cases, inl, inr, All, arith,
}
use osrv.Evq.{Event, set_event, set_ref}
use osrv.Queue.{Heap, Queue, ev_push, ev_pop}
use osrv.Queue.Linked.{IsQueue, IsFree, ne-test}
use osrv.Queue.Others.{ev_pop-other, ev_push-other}
use osrv.Queue.Pops.{ev_pop-first}
use osrv.Queue.Pushes.{ev_push-back, ev_push-front, All-append}

abbrev pub IsAllocated : (ℕ → Option Event) → ℕ → Type 0
IsAllocated events a = (e : Event) × (events a ≡ some e)

-- An event that R holds by the address `a`: on no queue.
abbrev pub IsHeld : Queue → (ℕ → Option Event) → List ℕ → ℕ → Type 0
IsHeld q events xs a = IsAllocated events a × IsFree q.heap a × All (λ y. y ≢ a) xs

-- The queue holds the events `xs`.
pub record Owned (q : Queue) (events : ℕ → Option Event) (refs : ℕ → ℕ) (xs : List ℕ) : Type 0 where
  pub is_queue : IsQueue q xs
  pub allocated : All (IsAllocated events) xs
  pub held : (i : ℕ) → refs i ≢ 0 → IsHeld q events xs (refs i)
  pub single : (i j : ℕ) → refs i ≢ 0 → refs i ≡ refs j → i ≡ j

pub set_ref-same : (i a : ℕ) (refs : ℕ → ℕ) → set_ref i a refs i ≡ a
unfolding set_ref
set_ref-same i a refs = rw (==-refl i)

pub set_ref-other : (i a j : ℕ) (refs : ℕ → ℕ) → j ≢ i → set_ref i a refs j ≡ refs j
unfolding set_ref
set_ref-other i a j refs h = rw (ne-test j i h)

pub set_event-other :
    (a x : ℕ) (e : Option Event) (events : ℕ → Option Event)
    → x ≢ a
    → set_event a e events x ≡ events x
unfolding set_event
set_event-other a x e events h = rw (ne-test x a h)

-- A change of an event outside a list, or of one that is not this one.
pub IsAllocated-other :
    (a x : ℕ) (e : Option Event) (events : ℕ → Option Event)
    → x ≢ a
    → IsAllocated events x
    → IsAllocated (set_event a e events) x
IsAllocated-other a x e events h (d, k) = (d, set_event-other a x e events h ∙ k)

pub All-IsAllocated-other :
    (a : ℕ) (e : Option Event) (events : ℕ → Option Event) (xs : List ℕ)
    → All (λ y. y ≢ a) xs
    → All (IsAllocated events) xs
    → All (IsAllocated (set_event a e events)) xs
All-IsAllocated-other a e events [] h k = tt
All-IsAllocated-other a e events (x ∷ xs) h k =
    (IsAllocated-other a x e events h.0 k.0, All-IsAllocated-other a e events xs h.1 k.1)

pub IsFree-other : (h k : Heap) (a : ℕ) → k a ≡ h a → IsFree h a → IsFree k a
IsFree-other h k a e (z, p, n) = (z, ap (λ m. m.prev) e ∙ p, ap (λ m. m.next) e ∙ n)

-- A reference that is zeroed is none.
pub unzeroed : (i j : ℕ) (refs : ℕ → ℕ) → set_ref i 0 refs j ≢ 0 → j ≢ i
unzeroed i j refs h e = h (ap (set_ref i 0 refs) e ∙ set_ref-same i 0 refs)

equal_or : (a b : ℕ) → (a ≡ b) ⊎ (a ≢ b)
equal_or a b = elim (Bool-cases (a == b)) [
  | inl e ↦ inl ((==_iff a b).0 e)
  | inr n ↦ inr (λ e. absurd (ground arith))
]

pub All-flip : (x : ℕ) (xs : List ℕ) → All (λ y. x ≢ y) xs → All (λ y. y ≢ x) xs
All-flip x [] h = tt
All-flip x (y ∷ ys) h = ((λ e. h.0 (sym e)), All-flip x ys h.1)

module _ (q : Queue) (events : ℕ → Option Event) (refs : ℕ → ℕ) where
  -- R loses a reference.
  pub drop-Owned :
      (i : ℕ) (xs : List ℕ) → Owned q events refs xs → Owned q events (set_ref i 0 refs) xs
  drop-Owned i xs o = record {
    is_queue = o.is_queue;
    allocated = o.allocated;
    held = λ j h.
        let same = set_ref-other i 0 j refs (unzeroed i j refs h) in
        subst (IsHeld q events xs) (sym same) (o.held j (λ z. h (same ∙ z)));
    single = λ j k h e.
        let same = set_ref-other i 0 j refs (unzeroed i j refs h) in
        let other = set_ref-other i 0 k refs (unzeroed i k refs (λ z. h (e ∙ z))) in
        o.single j k (λ z. h (same ∙ z)) (sym same ∙ (e ∙ other));
  }

  -- An event behind a reference is freed and the reference is zeroed.
  pub release-Owned :
      (i : ℕ) (xs : List ℕ)
      → refs i ≢ 0
      → Owned q events refs xs
      → Owned q (set_event (refs i) none events) (set_ref i 0 refs) xs
  release-Owned i xs n o =
      let dropped = drop-Owned i xs o in
      let (a, f, apart) = o.held i n in
      record {
        is_queue = o.is_queue;
        allocated = All-IsAllocated-other (refs i) none events xs apart o.allocated;
        held = λ j h.
            let other = unzeroed i j refs h in
            let same = set_ref-other i 0 j refs other in
            let (b, g, others) = dropped.held j h in
            let differs : set_ref i 0 refs j ≢ refs i =
              λ e. other (o.single j i (λ z. h (same ∙ z)) (sym same ∙ e)) in
            (IsAllocated-other (refs i) (set_ref i 0 refs j) none events differs b, g, others);
        single = dropped.single;
      }

  popped-single :
      (i x : ℕ) (xs : List ℕ)
      → refs i ≡ 0
      → Owned q events refs (x ∷ xs)
      → (j k : ℕ) → set_ref i x refs j ≢ 0
      → set_ref i x refs j ≡ set_ref i x refs k
      → (j ≡ i) ⊎ (j ≢ i)
      → (k ≡ i) ⊎ (k ≢ i)
      → j ≡ k
  popped-single i x xs new o j k h e (inl a) (inl b) = a ∙ sym b
  popped-single i x xs new o j k h e (inl a) (inr b) =
      let is_x = ap (set_ref i x refs) a ∙ set_ref-same i x refs in
      let same = set_ref-other i x k refs b in
      let other = sym is_x ∙ (e ∙ same) in
      absurd ((o.held k (λ z. h (is_x ∙ (other ∙ z)))).2.0 other)
  popped-single i x xs new o j k h e (inr a) (inl b) =
      let is_x = ap (set_ref i x refs) b ∙ set_ref-same i x refs in
      let same = set_ref-other i x j refs a in
      absurd ((o.held j (λ z. h (same ∙ z))).2.0 (sym (sym same ∙ (e ∙ is_x))))
  popped-single i x xs new o j k h e (inr a) (inr b) =
      let same = set_ref-other i x j refs a in
      o.single j k (λ z. h (same ∙ z)) (sym same ∙ (e ∙ set_ref-other i x k refs b))

  push-IsFree :
      (a b : ℕ) (front : Bool) (xs : List ℕ)
      → IsQueue q xs
      → a ≢ 0
      → b ≢ a
      → All (λ y. y ≢ b) xs
      → IsFree q.heap b
      → IsFree (ev_push a front q).heap b
  push-IsFree a b front xs i n d apart f =
      IsFree-other q.heap (ev_push a front q).heap b (ev_push-other q a b front xs i n d apart) f

  -- The first event of the queue comes to R.
  pub pop-Owned :
      (i x : ℕ) (xs : List ℕ)
      → refs i ≡ 0
      → Owned q events refs (x ∷ xs)
      → Owned (ev_pop q).1 events (set_ref i x refs) xs
  pop-Owned i x xs new o =
      let (first, rest, free) = ev_pop-first q x xs o.is_queue in
      let differ : All (λ y. x ≢ y) xs = (((o.is_queue).3).0) in
      record {
        is_queue = rest;
        allocated = o.allocated.1;
        held = λ j h. elim (equal_or j i) [
          | inl e ↦
              subst (IsHeld (ev_pop q).1 events xs)
                (sym (ap (set_ref i x refs) e ∙ set_ref-same i x refs))
                (o.allocated.0, free, All-flip x xs differ)
          | inr n ↦
              let same = set_ref-other i x j refs n in
              let (b, g, others) = o.held j (λ z. h (same ∙ z)) in
              subst (IsHeld (ev_pop q).1 events xs) (sym same) (
                b,
                IsFree-other q.heap (ev_pop q).1.heap (refs j)
                    (ev_pop-other q x (refs j) xs o.is_queue (λ z. others.0 (sym z)) others.1) g,
                others.1,
              )
        ];
        single = λ j k h e. popped-single i x xs new o j k h e (equal_or j i) (equal_or k i);
      }

  -- An event that nobody holds goes to the queue.
  pub push-Owned :
      (a : ℕ) (front : Bool) (xs : List ℕ)
      → IsHeld q events xs a
      → ((j : ℕ) → refs j ≢ 0 → refs j ≢ a)
      → Owned q events refs xs
      → Owned (ev_push a front q) events refs (if front then a ∷ xs else xs ++ a ∷ [])
  push-Owned a true xs (b, f, apart) unheld o = record {
    is_queue = ev_push-front q a xs o.is_queue f apart;
    allocated = (b, o.allocated);
    held = λ j h.
        let (c, g, others) = o.held j h in
        (
          c,
          push-IsFree a (refs j) true xs o.is_queue f.0 (unheld j h) others g,
          ((λ e. unheld j h (sym e)), others),
        );
    single = o.single;
  }
  push-Owned a false xs (b, f, apart) unheld o = record {
    is_queue = ev_push-back q a xs o.is_queue f apart;
    allocated = All-append (IsAllocated events) a xs o.allocated b;
    held = λ j h.
        let (c, g, others) = o.held j h in
        (
          c,
          push-IsFree a (refs j) false xs o.is_queue f.0 (unheld j h) others g,
          All-append (λ y. y ≢ refs j) a xs others (λ e. unheld j h (sym e)),
        );
    single = o.single;
  }
