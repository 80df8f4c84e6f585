-- ===== src/Pool.antt =====
-- src/therver.c: the tasks of a server, a ring of entries on a heap, and the threads that add and take
-- them. An address is a number, and 0 is NULL. What stands under `pool_mutex` is one step.
pub mod Ring
pub mod Fifo
pub mod Fork
pub mod Start
use osrv.Base.{
  ℕ, suc, zero, Bool, true, false, ◌||◌, List, [], ◌∷◌, ◌++◌, Option, none, some, ◌==◌,
  if◌then◌else◌,
}
use osrv.Queue.{Node, Heap, update, set_prev, set_next}

-- The address of `t->root`.
abbrev pub root : ℕ
root = 1

-- `therver_t`: `socket` is `c.s` of an entry, none for -1, and `ss` the socket that listens.
pub record Therver : Type 0 where
  pub active : Bool
  pub ss : Option ℕ
  pub heap : Heap
  pub socket : ℕ → Option ℕ

unfoldable pub set_socket : ℕ → Option ℕ → (ℕ → Option ℕ) → ℕ → Option ℕ
set_socket a s f x = if x == a then s else f x

-- A therver with the ring that `start_threads` makes.
unfoldable pub started : ℕ → Heap → Therver
unfolding set_prev set_next set_socket
started ss h = record {
  active = true;
  ss = some ss;
  heap = set_next root root (set_prev root root h);
  socket = set_socket root none (λ x. none);
}

-- The links of `me`, which is put behind `last`.
unfoldable pub link_last : ℕ → ℕ → Heap → Heap
unfolding set_prev set_next
link_last me last h =
    let h₁ = set_prev me last (set_next me root h) in
    set_prev root me (if last == 0 then h₁ else set_next last me h₁)

-- `add_task`.
unfoldable pub add_task : ℕ → Therver → Therver
unfolding link_last
add_task me t = record t { heap = link_last me (t.heap root).prev t.heap }

-- What a worker finds when it has the lock: the server is shut down, there is nothing to do, or an entry,
-- which is removed.
pub data Taken : Type 0 where
  stopped waits : Taken
  took : ℕ → Therver → Taken

-- `if (me->next) me->next->prev = &t->root`.
unfoldable pub link_first : ℕ → Heap → Heap
unfolding set_prev
link_first n h = if n == 0 then h else set_prev n root h

unfoldable pub remove_first : ℕ → Therver → Therver
unfolding link_first set_next
remove_first me t =
    let h = set_next root (t.heap me).next t.heap in record t { heap = link_first (h me).next h }

unfoldable pub take_at : ℕ → Bool → Therver → Taken
unfolding remove_first
take_at me false t = stopped
take_at me true t = if me == 0 || me == root then waits else took me (remove_first me t)

-- A round of a worker under the mutex. `waits` is pthread_cond_wait; that a worker which waits is
-- woken is not in the model.
unfoldable pub take_task : Therver → Taken
unfolding take_at
take_task t = take_at (t.heap root).next t.active t

-- `accept_thread_run` with a connection: `me` is the entry that `calloc` gives, all zero.
unfoldable pub enqueue : ℕ → ℕ → Therver → Therver
unfolding update set_socket add_task
enqueue me s t = add_task me (record t {
  heap = update me (record { prev = 0; next = 0 }) t.heap;
  socket = set_socket me (some s) t.socket;
})

unfoldable pub therver_shutdown : Therver → Therver
therver_shutdown t = record t { active = false }
