-- ===== src/Pool/Fork.antt =====
-- The handlers of fork of src/therver.c, and what a worker does with a task.
use osrv.Base.{
  ℕ, zero, suc, ◌≡◌, ◌≢◌, ◌<◌, refl, sym, ap, ◌∙◌, Bool, true, false, ◌||◌, List, [], ◌∷◌, ◌++◌,
  Option, none, some, ◌==◌, if◌then◌else◌, length, All, arith,
}
use osrv.Pool.{Therver, root, set_socket}
use osrv.Pool.Ring.{IsPool, IsRing}
use osrv.Queue.Linked.{IsDistinct, ne-test}

-- The descriptors that `close` is called for.
abbrev pub closes : Option ℕ → List ℕ
closes none = []
closes (some s) = s ∷ []

-- The loop over the ring: the sockets of the tasks are closed and reset.
unfoldable pub close_tasks : ℕ → ℕ → Therver → Option (List ℕ × Therver)
unfolding set_socket
close_tasks zero me t = none
close_tasks (suc f) me t =
    let rest = close_tasks f (t.heap me).next (record t { socket = set_socket me none t.socket }) in
    if me == 0 || me == root
    then some ([], t)
    else elim rest [ none ↦ none | some (cs, u) ↦ some (closes (t.socket me) ++ cs, u) ]

-- A therver with its mutex.
pub record Guarded : Type 0 where
  pub locked : Bool
  pub therver : Therver

unfoldable pub prefork : List Guarded → List Guarded
prefork [] = []
prefork (g ∷ gs) = record g { locked = true } ∷ prefork gs

unfoldable pub forked_parent : List Guarded → List Guarded
forked_parent [] = []
forked_parent (g ∷ gs) = record g { locked = false } ∷ forked_parent gs

-- A round of `forked_child`, with the sockets that it closes.
unfoldable pub forked_therver : ℕ → Therver → Option (List ℕ × Therver)
unfolding close_tasks
forked_therver f t =
    elim (close_tasks f (t.heap root).next (record t { active = false; ss = none })) [
      | none ↦ none
      | some (cs, u) ↦ some (closes t.ss ++ cs, u)
    ]

unfoldable pub forked_child : ℕ → List Guarded → Option (List ℕ × List Guarded)
unfolding forked_therver
forked_child f [] = some ([], [])
forked_child f (g ∷ gs) =
    let rest = forked_child f gs in
    elim (forked_therver f g.therver) [
      | none ↦ none
      | some (cs, u) ↦ elim rest [
        | none ↦ none
        | some (ds, us) ↦ some (cs ++ ds, record { locked = false; therver = u } ∷ us)
      ]
    ]

-- `worker_thread` with the entry `me`: `process` leaves a socket in it, which is closed if there is
-- one, and the entry is freed.
unfoldable pub serve : (Option ℕ → Option ℕ) → ℕ → Therver → List ℕ
serve process me t = closes (process (t.socket me))

-- The sockets of the tasks.
abbrev pub sockets : (ℕ → Option ℕ) → List ℕ → List ℕ
sockets f [] = []
sockets f (x ∷ xs) = closes (f x) ++ sockets f xs

sockets-other :
    (a : ℕ) (s : Option ℕ) (f : ℕ → Option ℕ) (xs : List ℕ)
    → All (λ y. a ≢ y) xs
    → sockets (set_socket a s f) xs ≡ sockets f xs
unfolding set_socket
sockets-other a s f [] h = refl
sockets-other a s f (x ∷ xs) h =
    rw (ne-test x a (λ e. h.0 (sym e))) (ap (◌++◌ (closes (f x))) (sockets-other a s f xs h.1))

-- The sockets of a list of tasks are reset, and the others stay.
abbrev pub reset : List ℕ → (ℕ → Option ℕ) → ℕ → Option ℕ
reset [] f = f
reset (x ∷ xs) f = reset xs (set_socket x none f)

close_tasks-ring :
    (xs : List ℕ) (f a me : ℕ) (t : Therver)
    → (t.heap a).next ≡ me
    → IsRing t.heap a xs
    → All (λ y. root ≢ y) xs
    → All (λ y. y ≢ 0) xs
    → IsDistinct xs
    → length xs < f
    → close_tasks f me t ≡ some (sockets t.socket xs, record t { socket = reset xs t.socket })
unfolding close_tasks
close_tasks-ring xs zero a me t e r n z d h = absurd (omega arith)
close_tasks-ring [] (suc f) a me t e r n z d h =
    let is_root : me ≡ root = sym e ∙ r.0 in rw (is_root, close_tasks) refl
close_tasks-ring (x ∷ xs) (suc f) a me t e r n z d h =
    let is_x : me ≡ x = sym e ∙ r.0 in
    let v = record t { socket = set_socket x none t.socket } in
    let rest = close_tasks-ring xs f x (t.heap x).next v refl ((r.1).1) n.1 z.1 d.1 (omega arith) in
    let not_null : (x == 0) ≡ false = ne-test x 0 z.0 in
    let not_root : (x == root) ≡ false = ne-test x root (λ e. n.0 (sym e)) in
    ap (λ (y : ℕ). close_tasks (suc f) y t) is_x
    ∙ (rw (not_null, close_tasks)
        (rw not_root (
          rw (rest) (
            ap
              (λ (cs : List ℕ).
                some (closes (t.socket x) ++ cs, record t { socket = reset (x ∷ xs) t.socket }))
              (sockets-other x none t.socket xs d.0)))))

-- In a child process, with more rounds than there are tasks: the handler closes the listening socket
-- and the socket of each task once, in order, and leaves a server that is not active and whose
-- tasks have no sockets, on the same ring.
pub forked_therver-IsPool :
    (t : Therver) (f : ℕ) (xs : List ℕ)
    → IsPool t xs
    → length xs < f
    → (forked_therver f t
        ≡ some (
          closes t.ss ++ sockets t.socket xs,
          record t { active = false; ss = none; socket = reset xs t.socket },
        ))
      × IsPool (record t { active = false; ss = none; socket = reset xs t.socket }) xs
unfolding forked_therver
forked_therver-IsPool t f xs (r, (d, z)) h = (
  rw
      (
        close_tasks-ring xs f root (t.heap root).next (record t { active = false; ss = none }) refl
            r d.0 z d.1 h,
        forked_therver,
      )
      refl,
  (r, (d, z)),
)
