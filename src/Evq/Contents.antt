-- ===== src/Evq/Contents.antt =====
-- The raw vectors of R on a queue: first in, first out; and when `ev_pop_wait` returns.
use osrv.Base.{
  ℕ, zero, suc, ◌≡◌, ◌≢◌, refl, sym, ap, ◌∙◌, true, false, List, [], ◌∷◌, ◌++◌, Option, none, some,
  ◌==◌, ==_iff, All, length, take_all, arith,
}
use osrv.Base.Bytes.{Bytes}
use osrv.Evq.{
  Event, World, set_event, ev_create, raw_vector, a_queue, Answer, bytes, vector_of, c_evq_pop,
  push, push_what, new_event, c_evq_push, Wake, failed, ev_pop_wait,
}
use osrv.Evq.Pops.{IsOwned, after_raw, after_raw-Owned, pop-raw}
use osrv.Evq.Calls.{pushed-Owned, event_of, placed}
use osrv.Evq.Fresh.{set_event-same, All-ne_new}
use osrv.Evq.Owned.{set_event-other, All-flip}

unfoldable pub bytes_of : (ℕ → Bytes) → Option Event → Bytes
unfolding vector_of
bytes_of fresh none = []
bytes_of fresh (some e) = vector_of fresh e

-- The vectors that pops of these events give.
abbrev pub contents : (ℕ → Bytes) → (ℕ → Option Event) → List ℕ → List Bytes
contents fresh events [] = []
contents fresh events (x ∷ xs) = bytes_of fresh (events x) ∷ contents fresh events xs

contents-append :
    (fresh : ℕ → Bytes) (events : ℕ → Option Event) (xs : List ℕ) (a : ℕ)
    → contents fresh events (xs ++ a ∷ [])
      ≡ contents fresh events xs ++ bytes_of fresh (events a) ∷ []
contents-append fresh events [] a = refl
contents-append fresh events (x ∷ xs) a =
    ap (◌∷◌ (bytes_of fresh (events x))) (contents-append fresh events xs a)

pub contents-other :
    (fresh : ℕ → Bytes) (events : ℕ → Option Event) (a : ℕ) (e : Option Event) (xs : List ℕ)
    → All (λ y. y ≢ a) xs
    → contents fresh (set_event a e events) xs ≡ contents fresh events xs
contents-other fresh events a e [] h = refl
contents-other fresh events a e (x ∷ xs) h =
    rw (set_event-other a x e events h.0)
      (ap (◌∷◌ (bytes_of fresh (events x))) (contents-other fresh events a e xs h.1))

empty_bytes : (b : Bytes) → length b ≡ 0 → b ≡ []
empty_bytes [] h = refl
empty_bytes (c ∷ b) h = absurd (omega arith)

-- A vector comes back as it was copied.
vector_of-event :
    (fresh : ℕ → Bytes) (b : Bytes)
    → ((n : ℕ) → length (fresh n) ≡ n)
    → vector_of fresh (event_of b) ≡ b
unfolding vector_of ev_create
vector_of-event fresh [] h = empty_bytes (fresh 0) (h 0)
vector_of-event fresh (c ∷ b) h = ap (◌∷◌ c) (take_all b (length b) (omega arith))

-- The first of the vectors and those behind it, after `b` was put at the end.
abbrev pub first_of : Bytes → List Bytes → Bytes
first_of b [] = b
first_of b (c ∷ cs) = c

abbrev pub rest_of : Bytes → List Bytes → List Bytes
rest_of b [] = []
rest_of b (c ∷ cs) = cs ++ b ∷ []

-- A call that gave this vector and left a queue of these ones.
pub record Gives (fresh : ℕ → Bytes) (b : Bytes) (bs : List Bytes) (r : Option (Answer × World))
    : Type 0 where
  pub after : World
  pub events_of : List ℕ
  pub gives : r ≡ some (bytes b, after)
  pub is_owned : IsOwned after events_of
  pub holds : contents fresh after.events events_of ≡ bs

-- A pop of the first event.
pop-Gives :
    (fresh : ℕ → Bytes) (i x : ℕ) (w : World) (xs : List ℕ)
    → w.refs i ≡ 0
    → IsOwned w (x ∷ xs)
    → Gives fresh
        (bytes_of fresh (w.events x))
        (contents fresh w.events xs)
        (c_evq_pop fresh a_queue false i w)
unfolding bytes_of
pop-Gives fresh i x w xs new o =
    let (e, h) = o.allocated.0 in
    let (r, is) = pop-raw fresh i x w xs e o h in
    record {
      after = after_raw i x r w;
      events_of = xs;
      gives =
          is
          ∙ ap (λ (y : Option Event). some (bytes (bytes_of fresh y), after_raw i x r w)) (sym h);
      is_owned = after_raw-Owned w i x r xs new o;
      holds = contents-other fresh w.events x none xs (All-flip x xs (((o.is_queue).3).0));
    }

-- The vectors of the queue after a new event was put at the end.
pub placed-contents :
    (fresh : ℕ → Bytes) (e : Event) (w : World) (a : ℕ) (xs : List ℕ)
    → a ≢ 0
    → w.events a ≡ none
    → IsOwned w xs
    → contents fresh (push a false (placed e a w)).events (xs ++ a ∷ [])
      ≡ contents fresh w.events xs ++ vector_of fresh e ∷ []
unfolding push bytes_of
placed-contents fresh e w a xs n new o =
    let events = set_event a (some e) w.events in
    let apart = All-ne_new w.queue w.events w.refs a n new xs o.allocated in
    contents-append fresh events xs a
    ∙ (ap (λ (bs : List Bytes). bs ++ bytes_of fresh (events a) ∷ [])
          (contents-other fresh w.events a (some e) xs apart)
        ∙ ap (λ (c : Option Event). contents fresh w.events xs ++ bytes_of fresh c ∷ [])
            (set_event-same a (some e) w.events))

pushed-contents :
    (fresh : ℕ → Bytes) (w : World) (a : ℕ) (b : Bytes) (xs : List ℕ)
    → ((n : ℕ) → length (fresh n) ≡ n)
    → a ≢ 0
    → w.events a ≡ none
    → IsOwned w xs
    → contents fresh (push a false (new_event a b w)).events (xs ++ a ∷ [])
      ≡ contents fresh w.events xs ++ b ∷ []
unfolding push new_event
pushed-contents fresh w a b xs sized n new o =
    placed-contents fresh (event_of b) w a xs n new o
    ∙ ap (λ (c : Bytes). contents fresh w.events xs ++ c ∷ []) (vector_of-event fresh b sized)

Gives-eq :
    (fresh : ℕ → Bytes) (b c : Bytes) (bs cs : List Bytes) (r : Option (Answer × World))
    → b ∷ bs ≡ c ∷ cs
    → Gives fresh b bs r
    → Gives fresh c cs r
Gives-eq fresh b c bs cs r e g =
    let first : b ≡ c = cc in let rest : bs ≡ cs = cc in rw (first, rest) at g

-- A raw vector is pushed at the end of a queue, and then the first event is popped as a raw vector:
-- the pop gives the first of the vectors that the queue held, or the one that was pushed if it was
-- empty, and the queue holds the others in order. Each event is allocated and has one owner before
-- and after. The address of the new event and the new reference are not in use, and allocVector gives
-- a vector of its length.
pub c_evq_push-c_evq_pop :
    (fresh : ℕ → Bytes) (w : World) (a i : ℕ) (b : Bytes) (xs : List ℕ)
    → ((n : ℕ) → length (fresh n) ≡ n)
    → a ≢ 0
    → w.events a ≡ none
    → w.refs i ≡ 0
    → IsOwned w xs
    → Gives fresh
        (first_of b (contents fresh w.events xs))
        (rest_of b (contents fresh w.events xs))
        (c_evq_pop fresh a_queue false i (c_evq_push a_queue (raw_vector b) false a w).1)
unfolding c_evq_push push_what push new_event
c_evq_push-c_evq_pop fresh w a i b [] sized n new ref o =
    let v = push a false (new_event a b w) in
    Gives-eq fresh _ b _ [] (c_evq_pop fresh a_queue false i v)
      (pushed-contents fresh w a b [] sized n new o)
      (pop-Gives fresh i a v [] ref (pushed-Owned w a b false [] n new o))
c_evq_push-c_evq_pop fresh w a i b (x ∷ xs) sized n new ref o =
    let v = push a false (new_event a b w) in
    Gives-eq fresh _ (bytes_of fresh (w.events x)) _ (contents fresh w.events xs ++ b ∷ [])
      (c_evq_pop fresh a_queue false i v) (pushed-contents fresh w a b (x ∷ xs) sized n new o)
      (pop-Gives fresh i x v (xs ++ a ∷ []) ref (pushed-Owned w a b false (x ∷ xs) n new o))

-- Waits that all fail.
abbrev pub failures : ℕ → World → List (Wake × World)
failures zero w = []
failures (suc n) w = (failed, w) ∷ failures n w

-- If every wait of `ev_pop_wait` on an empty queue fails, with an error that is not ETIMEDOUT, it has
-- not returned after any number of them.
pub ev_pop_wait-failed :
    (n : ℕ) (w : World) → w.queue.head ≡ 0 → ev_pop_wait (failures n w) w ≡ none
unfolding ev_pop_wait
ev_pop_wait-failed zero w h = rw (h, ev_pop_wait) refl
ev_pop_wait-failed (suc n) w h =
    let empty : (w.queue.head == 0) ≡ true = (==_iff w.queue.head 0).1 h in
    rw (empty, ev_pop_wait) (ev_pop_wait-failed n w h)
