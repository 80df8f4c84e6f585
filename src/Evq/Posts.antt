-- ===== src/Evq/Posts.antt =====
-- The events that src/deps.c and the /work API of src/ohsrv.c post, on the queue of src/evqueue.c.
use osrv.Base.{
  ℕ, zero, suc, ◌+◌, ◌<◌, ◌≡◌, refl, ap, ◌∙◌, true, false, List, [], ◌∷◌, ◌++◌, append_assoc, none,
  some, length, length-append, take_all, drop, arith,
}
use osrv.Base.Bytes.{Bytes}
use osrv.Evq.{Event, World, ev_create, vector_of, push, zeros}
use osrv.Evq.Calls.{placed}
use osrv.Server.Deps.{resolved, work}
use osrv.Server.Deps.{Event as Posted}

-- `ev_create` of an `ev_resolved_t` and what is written to it; `int_bytes` is an int in memory.
unfoldable pub resolved_event : (ℕ → Bytes) → ℕ → Bytes → Event
unfolding ev_create
resolved_event int_bytes msg name =
    let e = ev_create none (length name + 8) false in
    let text = int_bytes msg ++ (name ++ 0 ∷ []) in
    record e {
      data_bytes = elim e.data_bytes [ none ↦ none | some z ↦ some (text ++ drop (length text) z) ];
    }

-- The entry of an event that is posted.
unfoldable pub entry_of : (ℕ → Bytes) → Posted → Event
unfolding resolved_event ev_create
entry_of int_bytes (resolved msg name) = resolved_event int_bytes msg name
entry_of int_bytes (work b) = ev_create (some b) (length b) true

-- The entry, which stands at the address `a`, is put at the end of the queue.
unfoldable pub post : (ℕ → Bytes) → Posted → ℕ → World → World
unfolding entry_of push
post int_bytes e a w = push a false (placed (entry_of int_bytes e) a w)

-- One event after another, each at a new address.
abbrev pub posts : (ℕ → Bytes) → List Posted → List ℕ → World → World
posts int_bytes [] places w = w
posts int_bytes (e ∷ es) [] w = w
posts int_bytes (e ∷ es) (a ∷ places) w = posts int_bytes es places (post int_bytes e a w)

-- The vector that R gets for an event.
abbrev pub payload : (ℕ → Bytes) → Posted → Bytes
payload int_bytes (resolved msg name) = int_bytes msg ++ (name ++ 0 ∷ 0 ∷ 0 ∷ 0 ∷ [])
payload int_bytes (work b) = b

ev_create-inside :
    (n : ℕ)
    → 0 < n
    → ev_create none n false
      ≡ record { data_bytes = some (zeros n); inside = true; len = n; frees = false }
unfolding ev_create
ev_create-inside zero h = absurd (omega arith)
ev_create-inside (suc n) h = refl

drop-zeros : (k n m : ℕ) → k + n ≡ m → drop k (zeros m) ≡ zeros n
drop-zeros zero n m h = ap zeros (omega arith)
drop-zeros (suc k) n zero h = absurd (omega arith)
drop-zeros (suc k) n (suc m) h = drop-zeros k n m (omega arith)

text_of_resolved :
    (fresh int_bytes : ℕ → Bytes) (msg : ℕ) (name : Bytes)
    → length (int_bytes msg) ≡ 4
    → vector_of fresh (resolved_event int_bytes msg name) ≡ payload int_bytes (resolved msg name)
unfolding resolved_event vector_of
text_of_resolved fresh int_bytes msg name four =
    let text = int_bytes msg ++ (name ++ 0 ∷ []) in
    let long : length text ≡ length name + 5 =
      omega (arith, length-append (int_bytes msg) (name ++ 0 ∷ []), length-append name (0 ∷ [])) in
    rw (ev_create-inside (length name + 8) (omega arith)) (
      rw (drop-zeros (length text) 3 (length name + 8) (omega arith)) (
        take_all (text ++ zeros 3) (length name + 8) (omega (arith, length-append text (zeros 3)))
        ∙ (append_assoc (int_bytes msg) (name ++ 0 ∷ []) (zeros 3)
            ∙ ap (◌++◌ (int_bytes msg)) (append_assoc name (0 ∷ []) (zeros 3)))))

pub vector_of-entry_of :
    (fresh int_bytes : ℕ → Bytes) (e : Posted)
    → ((n : ℕ) → length (int_bytes n) ≡ 4)
    → vector_of fresh (entry_of int_bytes e) ≡ payload int_bytes e
unfolding entry_of vector_of ev_create
vector_of-entry_of fresh int_bytes (resolved msg name) four =
    text_of_resolved fresh int_bytes msg name (four msg)
vector_of-entry_of fresh int_bytes (work b) four = take_all b (length b) (omega arith)
