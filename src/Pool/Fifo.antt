-- ===== src/Pool/Fifo.antt =====
-- The threads of src/therver.c in any order of their steps: connections are served in the order in which
-- they were accepted.
use osrv.Base.{
  ℕ, ◌≡◌, ◌≢◌, refl, sym, ap, ◌∙◌, subst, Bool, true, List, [], ◌∷◌, ◌++◌, append_assoc, Option,
  some, map, ==-refl, All, Bool-cases, inl, inr,
}
use osrv.Queue.{Node, Heap, update}
use osrv.Queue.Linked.{ne-test, update-other}
use osrv.Pool.{
  Therver, root, set_socket, started, add_task, Taken, stopped, waits, took, remove_first, take_at,
  take_task, enqueue, therver_shutdown,
}
use osrv.Pool.Ring.{IsRing, IsPool, take_task-Takes, add_task-IsPool}

-- A therver, the sockets that were accepted, and those that workers have taken to serve.
pub record System : Type 0 where
  pub pool : Therver
  pub accepted : List (Option ℕ)
  pub taken : List (Option ℕ)

-- What `calloc` gives is not NULL and is no part of what is in use.
abbrev pub IsNew : ℕ → Therver → Type 0
IsNew me t = (me ≢ 0) × ((me ≢ root) × ((xs : List ℕ) → IsPool t xs → All (λ y. y ≢ me) xs))

-- A step of the accept thread, of a worker, or of the thread that shuts the server down.
pub data Step : System → System → Type 0 where
  accepts :
      (y : System) (me s : ℕ)
      → IsNew me y.pool
      → Step y (record y { pool = enqueue me s y.pool; accepted = y.accepted ++ some s ∷ [] })
  takes :
      (y : System) (me : ℕ) (t : Therver)
      → take_task y.pool ≡ took me t
      → Step y (record y { pool = t; taken = y.taken ++ y.pool.socket me ∷ [] })
  shuts : (y : System) → Step y (record y { pool = therver_shutdown y.pool })

pub data Run : System → System → Type 0 where
  idle : (y : System) → Run y y
  after : (x y z : System) → Run x y → Step y z → Run x z

-- The sockets that were accepted are those that were taken, and then those of the tasks.
pub record InOrder (y : System) : Type 0 where
  pub tasks : List ℕ
  pub is_pool : IsPool y.pool tasks
  pub in_order : y.accepted ≡ y.taken ++ map y.pool.socket tasks

IsRing-outside :
    (h : Heap) (me : ℕ) (n : Node) (a : ℕ) (xs : List ℕ)
    → a ≢ me
    → All (λ y. y ≢ me) xs
    → root ≢ me
    → IsRing h a xs
    → IsRing (update me n h) a xs
IsRing-outside h me n a [] f fs r (an, rp) = (
  ap (λ m. m.next) (update-other me a n h f) ∙ an,
  ap (λ m. m.prev) (update-other me root n h r) ∙ rp,
)
IsRing-outside h me n a (x ∷ xs) f (g, fs) r (an, (xp, q)) = (
  ap (λ m. m.next) (update-other me a n h f) ∙ an,
  (ap (λ m. m.prev) (update-other me x n h g) ∙ xp, IsRing-outside h me n x xs g fs r q),
)

map_socket-other :
    (me : ℕ) (s : Option ℕ) (f : ℕ → Option ℕ) (xs : List ℕ)
    → All (λ y. y ≢ me) xs
    → map (set_socket me s f) xs ≡ map f xs
unfolding set_socket
map_socket-other me s f [] h = refl
map_socket-other me s f (x ∷ xs) (g, h) =
    rw (ne-test x me g) (ap (◌∷◌ (f x)) (map_socket-other me s f xs h))

map_socket-append :
    (me : ℕ) (s : Option ℕ) (f : ℕ → Option ℕ) (xs : List ℕ)
    → All (λ y. y ≢ me) xs
    → map (set_socket me s f) (xs ++ me ∷ []) ≡ map f xs ++ s ∷ []
unfolding set_socket
map_socket-append me s f [] h = rw (==-refl me) refl
map_socket-append me s f (x ∷ xs) (g, h) =
    rw (ne-test x me g) (ap (◌∷◌ (f x)) (map_socket-append me s f xs h))

-- The entry as `calloc` and the accept thread leave it, on no ring yet.
abbrev fresh_entry : ℕ → ℕ → Therver → Therver
fresh_entry me s t = record t {
  heap = update me (record { prev = 0; next = 0 }) t.heap;
  socket = set_socket me (some s) t.socket;
}

enqueue-IsPool :
    (t : Therver) (me s : ℕ) (xs : List ℕ)
    → IsNew me t
    → IsPool t xs
    → IsPool (enqueue me s t) (xs ++ me ∷ [])
unfolding enqueue
enqueue-IsPool t me s xs (z, (r, new)) (ring, d) =
    let others = new xs (ring, d) in
    let apart : root ≢ me = λ e. r (sym e) in
    add_task-IsPool me (fresh_entry me s t) xs
      ((
        IsRing-outside t.heap me (record { prev = 0; next = 0 }) root xs apart others apart ring,
        d,
      ))
      z r others

enqueue-socket :
    (t : Therver) (me s : ℕ) → (enqueue me s t).socket ≡ set_socket me (some s) t.socket
unfolding enqueue add_task
enqueue-socket t me s = refl

enqueue-InOrder :
    (y : System) (me s : ℕ)
    → IsNew me y.pool
    → InOrder y
    → InOrder (record y { pool = enqueue me s y.pool; accepted = y.accepted ++ some s ∷ [] })
enqueue-InOrder y me s (z, (r, new)) o =
    let xs : List ℕ = o.tasks in
    record {
      tasks = o.tasks ++ me ∷ [];
      is_pool = enqueue-IsPool y.pool me s o.tasks ((z, (r, new))) o.is_pool;
      in_order =
          ap (λ (l : List (Option ℕ)). l ++ some s ∷ []) o.in_order
          ∙ (append_assoc y.taken (map y.pool.socket o.tasks) (some s ∷ [])
              ∙ ap (λ (l : List (Option ℕ)). y.taken ++ l)
                  (sym (map_socket-append me (some s) y.pool.socket o.tasks (new o.tasks o.is_pool))
                    ∙ ap (λ (f : ℕ → Option ℕ). map f (o.tasks ++ me ∷ []))
                        (sym (enqueue-socket y.pool me s))));
    }

abbrev address_of : Taken → ℕ
address_of stopped = 0
address_of waits = 0
address_of (took me t) = me

abbrev left_of : Therver → Taken → Therver
left_of t stopped = t
left_of t waits = t
left_of t (took me u) = u

remove_first-socket : (x : ℕ) (t : Therver) → (remove_first x t).socket ≡ t.socket
unfolding remove_first
remove_first-socket x t = refl

-- What a worker takes is the first of the tasks.
record First (me : ℕ) (t u : Therver) (xs : List ℕ) : Type 0 where
  others : List ℕ
  is_first : xs ≡ me ∷ others
  left : IsPool u others
  same : u.socket ≡ t.socket

take_task-First :
    (t u : Therver) (me : ℕ) (xs : List ℕ)
    → take_task t ≡ took me u
    → IsPool t xs
    → t.active ≡ true
    → First me t u xs
take_task-First t u me [] e p a =
    let clash : waits ≡ took me u = sym (take_task-Takes t [] a p) ∙ e in absurd (cc)
take_task-First t u me (x ∷ xs) e p a =
    let (first, rest) = take_task-Takes t (x ∷ xs) a p in
    let here : x ≡ me = ap address_of (sym first ∙ e) in
    let gone : remove_first x t ≡ u = ap (left_of t) (sym first ∙ e) in
    record {
      others = xs;
      is_first = ap (λ (y : ℕ). y ∷ xs) here;
      left = subst (λ (v : Therver). IsPool v xs) gone rest;
      same = ap (λ (v : Therver). v.socket) (sym gone) ∙ remove_first-socket x t;
    }

take_task-active : (t u : Therver) (me : ℕ) → take_task t ≡ took me u → t.active ≡ true
unfolding take_task take_at
take_task-active t u me e = elim (Bool-cases t.active) [
  | inl a ↦ a
  | inr a ↦
      let clash : stopped ≡ took me u =
        ap (λ (b : Bool). take_at (t.heap root).next b t) (sym a) ∙ e in
      absurd (cc)
]

take-InOrder :
    (y : System) (me : ℕ) (t : Therver)
    → take_task y.pool ≡ took me t
    → InOrder y
    → InOrder (record y { pool = t; taken = y.taken ++ y.pool.socket me ∷ [] })
take-InOrder y me t e o =
    let f = take_task-First y.pool t me o.tasks e o.is_pool (take_task-active y.pool t me e) in
    record {
      tasks = f.others;
      is_pool = f.left;
      in_order =
          o.in_order
          ∙ (ap (λ (l : List ℕ). y.taken ++ map y.pool.socket l) f.is_first
              ∙ (sym (append_assoc y.taken (y.pool.socket me ∷ []) (map y.pool.socket f.others))
                  ∙ ap (λ (g : ℕ → Option ℕ). (y.taken ++ y.pool.socket me ∷ []) ++ map g f.others)
                      (sym f.same)));
    }

shut-InOrder : (y : System) → InOrder y → InOrder (record y { pool = therver_shutdown y.pool })
unfolding therver_shutdown
shut-InOrder y o = record { tasks = o.tasks; is_pool = o.is_pool; in_order = o.in_order }

next-InOrder : (x y : System) → Step x y → InOrder x → InOrder y
next-InOrder u v (accepts x me s n) o = enqueue-InOrder x me s n o
next-InOrder u v (takes x me t e) o = take-InOrder x me t e o
next-InOrder u v (shuts x) o = shut-InOrder x o

-- The server when its threads start.
abbrev pub start : ℕ → Heap → System
start ss h = record { pool = started ss h; accepted = []; taken = [] }

start-InOrder : (ss : ℕ) (h : Heap) → InOrder (start ss h)
unfolding started
start-InOrder ss h = record {
  tasks = [];
  is_pool = ((refl, refl), ((tt, tt), tt));
  in_order = refl;
}

run-InOrder : (x y : System) → Run x y → InOrder x → InOrder y
run-InOrder u v (idle x) o = o
run-InOrder u v (after x y z r s) o = next-InOrder y z s (run-InOrder x y r o)

-- However the accept thread, the workers and a shutdown take their steps, where calloc gives
-- entries that are not on the ring: the sockets that workers have taken are the first that were
-- accepted, in that order and each once, and the entries of the ring are the others.
pub started-InOrder : (ss : ℕ) (h : Heap) (y : System) → Run (start ss h) y → InOrder y
started-InOrder ss h y r = run-InOrder (start ss h) y r (start-InOrder ss h)
