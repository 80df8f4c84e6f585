-- ===== src/Evq/Drained.antt =====
-- What R pops from the queue that src/deps.c and the /work API of src/ohsrv.c post to.
use osrv.Base.{
  ℕ, zero, suc, ◌≡◌, ◌≢◌, ◌<◌, subst, refl, false, sym, ap, ◌∙◌, List, [], ◌∷◌, ◌++◌, append_assoc,
  append-nil, map, Option, none, some, length, All, arith,
}
use osrv.Base.Bytes.{Bytes}
use osrv.Evq.{World, vector_of, Answer, nil, bytes, a_queue, c_evq_pop, give_found, push, set_ref}
use osrv.Evq.Calls.{placed-Owned}
use osrv.Evq.Contents.{bytes_of, contents, contents-other, placed-contents}
use osrv.Evq.Owned.{set_event-other, set_ref-same, All-flip}
use osrv.Evq.Pops.{IsOwned, popped-empty, pop-raw, after_raw, after_raw-Owned}
use osrv.Evq.Posts.{entry_of, post, posts, payload, vector_of-entry_of}
use osrv.Queue.Linked.{IsDistinct}
use osrv.Server.Deps.Completion.{Completes, complete_walk-Completes}
use osrv.Server.Deps.{Event, Deps, complete_walk, deps_complete}

-- The queue holds the vectors `bs`, and each event has one owner.
pub record Holds (fresh : ℕ → Bytes) (w : World) (bs : List Bytes) : Type 0 where
  pub events_of : List ℕ
  pub is_owned : IsOwned w events_of
  pub holds : contents fresh w.events events_of ≡ bs

-- Addresses that are not in use.
abbrev pub IsUnused : World → List ℕ → Type 0
IsUnused w places = All (λ a. (a ≢ 0) × (w.events a ≡ none)) places × IsDistinct places

-- `C_evq_pop` without a timeout, as raw vectors, until it gives NULL; at most `n` calls.
unfoldable next_vector :
    (World → Option (List Bytes)) → Option (Answer × World) → Option (List Bytes)
next_vector next (some (bytes b, v)) = elim (next v) [ none ↦ none | some bs ↦ some (b ∷ bs) ]
next_vector next (some (nil, v)) = some []
next_vector next _ = none

unfoldable pub pop_all : (ℕ → Bytes) → ℕ → ℕ → World → Option (List Bytes)
unfolding c_evq_pop next_vector
pop_all fresh i zero w = none
pop_all fresh i (suc n) w = next_vector (pop_all fresh i n) (c_evq_pop fresh a_queue false i w)

next_vector-some :
    (next : World → Option (List Bytes)) (b : Bytes) (v : World) (bs : List Bytes)
    → next v ≡ some bs
    → next_vector next (some (bytes b, v)) ≡ some (b ∷ bs)
unfolding next_vector
next_vector-some next b v bs h = rw (h, next_vector) refl

pop_all-contents :
    (fresh : ℕ → Bytes) (i n : ℕ) (w : World) (xs : List ℕ)
    → length xs < n
    → w.refs i ≡ 0
    → IsOwned w xs
    → pop_all fresh i n w ≡ some (contents fresh w.events xs)
unfolding pop_all c_evq_pop give_found next_vector bytes_of
pop_all-contents fresh i zero w xs h new o = absurd (omega arith)
pop_all-contents fresh i (suc n) w [] h new o =
    ap (λ p. next_vector (pop_all fresh i n) (give_found fresh false i p)) (popped-empty w o)
pop_all-contents fresh i (suc n) w (x ∷ xs) h new o =
    let (e, is_e) = o.allocated.0 in
    let (r, is) = pop-raw fresh i x w xs e o is_e in
    let v = after_raw i x r w in
    let apart = All-flip x xs (((o.is_queue).3).0) in
    let rest : pop_all fresh i n v ≡ some (contents fresh w.events xs) =
      pop_all-contents fresh i n v xs (omega arith) (set_ref-same i 0 (set_ref i x w.refs))
        (after_raw-Owned w i x r xs new o)
      ∙ ap some (contents-other fresh w.events x none xs apart) in
    ap (next_vector (pop_all fresh i n)) is
    ∙ (next_vector-some (pop_all fresh i n) (vector_of fresh e) v (contents fresh w.events xs) rest
        ∙ ap (λ y. some (bytes_of fresh y ∷ contents fresh w.events xs)) (sym is_e))

unused-later :
    (int_bytes : ℕ → Bytes) (e : Event) (a : ℕ) (w : World) (places : List ℕ)
    → All (λ p. a ≢ p) places
    → All (λ p. (p ≢ 0) × (w.events p ≡ none)) places
    → All (λ p. (p ≢ 0) × ((post int_bytes e a w).events p ≡ none)) places
unfolding post push
unused-later int_bytes e a w [] d u = tt
unused-later int_bytes e a w (p ∷ places) d u = (
  (u.0.0, set_event-other a p (some (entry_of int_bytes e)) w.events (λ q. d.0 (sym q)) ∙ u.0.1),
  unused-later int_bytes e a w places d.1 u.1,
)

module _ (fresh int_bytes : ℕ → Bytes) (four : (n : ℕ) → length (int_bytes n) ≡ 4) where
  post-Holds :
      (e : Event) (a : ℕ) (w : World) (bs : List Bytes)
      → a ≢ 0
      → w.events a ≡ none
      → Holds fresh w bs
      → Holds fresh (post int_bytes e a w) (bs ++ payload int_bytes e ∷ [])
  unfolding post
  post-Holds e a w bs n new h =
      let entry = entry_of int_bytes e in
      record {
        events_of = h.events_of ++ a ∷ [];
        is_owned = placed-Owned entry w a false h.events_of n new h.is_owned;
        holds =
            placed-contents fresh entry w a h.events_of n new h.is_owned
            ∙ (ap (λ c. contents fresh w.events h.events_of ++ c ∷ [])
                  (vector_of-entry_of fresh int_bytes e four)
                ∙ ap (λ c. c ++ payload int_bytes e ∷ []) h.holds);
      }

  posts-Holds :
      (es : List Event) (places : List ℕ) (w : World) (bs : List Bytes)
      → length es ≡ length places
      → IsUnused w places
      → Holds fresh w bs
      → Holds fresh (posts int_bytes es places w) (bs ++ map (payload int_bytes) es)
  posts-Holds [] places w bs l u h = subst (Holds fresh w) (sym (append-nil bs)) h
  posts-Holds (e ∷ es) [] w bs l u h = absurd (omega arith)
  posts-Holds (e ∷ es) (a ∷ places) w bs l (u, d) h =
      subst (Holds fresh (posts int_bytes (e ∷ es) (a ∷ places) w))
        (append_assoc bs (payload int_bytes e ∷ []) (map (payload int_bytes) es))
        (posts-Holds es places (post int_bytes e a w) (bs ++ payload int_bytes e ∷ []) (omega arith)
          (unused-later int_bytes e a w places d.0 u.1, d.1) (post-Holds e a w bs u.0.0 u.0.1 h))

  posts-refs :
      (es : List Event) (places : List ℕ) (w : World) (i : ℕ)
      → (posts int_bytes es places w).refs i ≡ w.refs i
  unfolding post push
  posts-refs [] places w i = refl
  posts-refs (e ∷ es) [] w i = refl
  posts-refs (e ∷ es) (a ∷ places) w i = posts-refs es places (post int_bytes e a w) i

  length-contents :
      (events : ℕ → Option osrv.Evq.Event) (xs : List ℕ)
      → length (contents fresh events xs) ≡ length xs
  length-contents events [] = refl
  length-contents events (x ∷ xs) = ap suc (length-contents events xs)

  pop_all-Holds :
      (i : ℕ) (w : World) (bs : List Bytes)
      → w.refs i ≡ 0
      → Holds fresh w bs
      → pop_all fresh i (suc (length bs)) w ≡ some bs
  pop_all-Holds i w bs new h =
      let long : length h.events_of ≡ length bs =
        sym (length-contents w.events h.events_of) ∙ ap length h.holds in
      pop_all-contents fresh i (suc (length bs)) w h.events_of (omega arith) new h.is_owned
      ∙ ap some h.holds

  map-append :
      (bs : List Event) (es : List Event)
      → map (payload int_bytes) (bs ++ es)
        ≡ map (payload int_bytes) bs ++ map (payload int_bytes) es
  map-append [] es = refl
  map-append (b ∷ bs) es = ap (◌∷◌ (payload int_bytes b)) (map-append bs es)

  -- The queue holds the vectors of the events posted before. deps_complete posts an event for each
  -- entry of which every key was present before or is the one that was added, and for no other entry,
  -- at addresses that are not in use. Then calls of C_evq_pop until one gives NULL return the vectors
  -- of all events posted: those from before, and then for each of these entries, in the order of the
  -- chain, its int, its name and four NULs. An int is 4 bytes in memory.
  pub deps_complete-pop_all :
      (key : Option Bytes) (s : Deps) (w : World) (places : List ℕ) (i : ℕ)
      → length (complete_walk key s.chain).1 ≡ length places
      → IsUnused w places
      → w.refs i ≡ 0
      → Holds fresh w (map (payload int_bytes) s.posted)
      → (messages : List Event) × (Completes key s.chain (deps_complete key s).chain messages
          × (let all = map (payload int_bytes) (s.posted ++ messages) in
              pop_all fresh i
                (suc (length all))
                (posts int_bytes (complete_walk key s.chain).1 places w)
              ≡ some all))
  unfolding deps_complete
  deps_complete-pop_all key s w places i l u new h =
      let es = (complete_walk key s.chain).1 in
      (
        es,
        (
          complete_walk-Completes key s.chain,
          pop_all-Holds i (posts int_bytes es places w) (map (payload int_bytes) (s.posted ++ es))
              (posts-refs es places w i ∙ new)
              (subst (Holds fresh (posts int_bytes es places w)) (sym (map-append s.posted es))
                (posts-Holds es places w (map (payload int_bytes) s.posted) l u h)),
        ),
      )
