-- ===== src/Queue.antt =====
-- src/evqueue.c: the queue of events, a doubly linked list on a heap. An address is a number, and 0
-- is NULL. Each operation runs under the queue's mutex. The entry's data is not looked at.
pub mod Linked
pub mod Pops
pub mod Pushes
pub mod Others
use osrv.Base.{ℕ, Bool, List, [], ◌∷◌, ◌++◌, Option, none, some, ◌==◌, ◌||◌, if◌then◌else◌}

-- `ev_entry_t`.
pub record Node : Type 0 where
  pub prev : ℕ
  pub next : ℕ

abbrev pub Heap : Type 0
Heap = ℕ → Node

-- `ev_queue_t`. `fd` is none for -1, and `notified` is the descriptors that a byte was written to.
pub record Queue : Type 0 where
  pub head : ℕ
  pub tail : ℕ
  pub fd : Option ℕ
  pub notified : List ℕ
  pub heap : Heap

unfoldable pub update : ℕ → Node → Heap → Heap
update a n h x = if x == a then n else h x

unfoldable pub set_prev : ℕ → ℕ → Heap → Heap
unfolding update
set_prev a p h = update a (record (h a) { prev = p }) h

unfoldable pub set_next : ℕ → ℕ → Heap → Heap
unfolding update
set_next a n h = update a (record (h a) { next = n }) h

unfoldable pub ev_queue_create : Heap → Queue
ev_queue_create h = record { head = 0; tail = 0; fd = none; notified = []; heap = h }

-- The results 0 and 1.
unfoldable pub ev_queue_notify_fd : ℕ → Queue → ℕ × Queue
ev_queue_notify_fd fd q = elim q.fd [
  | none ↦ (0, record q { fd = some fd })
  | some old ↦ if old == fd then (0, record q { fd = some fd }) else (1, q)
]

-- What `ev_push` does under the mutex.
unfoldable pub link : ℕ → Bool → Queue → Queue
unfolding set_prev set_next
link e front q =
    if q.head == 0
    then record q { head = e; tail = e }
    else if front
    then record q { head = e; heap = set_prev q.head e (set_next e q.head q.heap) }
    else record q { tail = e; heap = set_next q.tail e (set_prev e q.tail q.heap) }

unfoldable pub notify : Queue → Queue
notify q = elim q.fd [ none ↦ q | some fd ↦ record q { notified = fd ∷ q.notified } ]

unfoldable pub ev_push : ℕ → Bool → Queue → Queue
unfolding link notify
ev_push e front q = if e == 0 then q else notify (link e front q)

-- The four tests of `ev_rm_`, in order, and the reset of the entry.
unfoldable pub ev_rm : ℕ → Queue → Queue
unfolding update set_prev set_next
ev_rm e q =
    let n = (q.heap e).next in
    let p = (q.heap e).prev in
    let h₁ = if n == 0 then q.heap else set_prev n p q.heap in
    let h₂ = if p == 0 then h₁ else set_next p n h₁ in
    record q {
      head = if e == q.head then n else q.head;
      tail = if e == q.tail then p else q.tail;
      heap = update e (record { prev = 0; next = 0 }) h₂;
    }

unfoldable pub ev_pop : Queue → Option ℕ × Queue
unfolding ev_rm
ev_pop q = if q.head == 0 then (none, q) else (some (q.head), ev_rm q.head q)
