-- ===== src/Pool/Start.antt =====
-- `therver` of src/therver.c, and `C_start` of src/osrv.c and `C_start_http` of src/ohsrv.c, which call
-- it. What the system answers is a record; `calloc` of the therver succeeds.
use osrv.Base.{
  ℕ, ◌≡◌, ◌≤◌, refl, sym, ◌∙◌, Bool, true, false, not, ◌&&◌, ◌||◌, List, [], ◌∷◌, ◌++◌, Option,
  none, some, Bool-cases, inl, inr, ltb, if◌then◌else◌, arith,
}
use osrv.Base.Bytes.{Bytes}
use osrv.Pool.{Therver, started}
use osrv.Pool.Ring.{IsPool}
use osrv.Queue.{Heap}
use osrv.Requests.{ℤ, pos, negsuc}
use osrv.Sfs.Object.{Sexp, str}

-- `has_memory` is whether `start_threads` gets memory for its threads.
pub record Network : Type 0 where
  pub socket : Option ℕ
  pub resolves : Bytes → Bool
  pub binds : ℕ → Bool
  pub listens : Bool
  pub has_memory : Bool

-- The list that `first_therver` leads to is kept for fork. `crashed`: the address of a host that is
-- not found is read through a null pointer.
pub data Started : Type 0 where
  running : Therver → List Therver → Started
  refused : List Therver → Started
  crashed bad_port bad_threads : Started

-- `start_threads` and what `therver` does if it fails.
unfoldable pub start_threads : Network → ℕ → Heap → List Therver → Started
unfolding started
start_threads net ss h all =
    let t = started ss h in
    if net.has_memory
    then running t (all ++ t ∷ [])
    else refused (all ++ record t { active = false; ss = none } ∷ [])

unfoldable pub listen_on : Network → ℕ → Heap → List Therver → Option ℕ → Started
unfolding start_threads
listen_on net port h all none = refused all
listen_on net port h all (some ss) =
    if net.binds port && net.listens then start_threads net ss h all else refused all

unfoldable pub therver : Network → Option Bytes → ℕ → Heap → List Therver → Started
unfolding listen_on
therver net none port h all = listen_on net port h all net.socket
therver net (some host) port h all =
    if net.resolves host then listen_on net port h all net.socket else crashed

-- `TYPEOF(sHost) == STRSXP && LENGTH(sHost) > 0`.
unfoldable pub host_of : Sexp → Option Bytes
host_of (str m (host ∷ hosts)) = some host
host_of _ = none

abbrev pub within : ℕ → ℕ → Bool
within n most = not (ltb n 1 || ltb most n)

unfoldable pub with_threads : Network → Option Bytes → ℕ → ℤ → Heap → List Therver → Started
unfolding therver
with_threads net host port (pos threads) h all =
    if within threads 1000 then therver net host port h all else bad_threads
with_threads net host port (negsuc n) h all = bad_threads

unfoldable pub with_port : Network → Option Bytes → ℤ → ℤ → Heap → List Therver → Started
unfolding with_threads
with_port net host (pos port) threads h all =
    if within port 65535 then with_threads net host port threads h all else bad_port
with_port net host (negsuc n) threads h all = bad_port

unfoldable pub c_start : Network → Sexp → ℤ → ℤ → Heap → List Therver → Started
unfolding with_port host_of
c_start net host port threads h all = with_port net (host_of host) port threads h all

-- Whether the queue for the /work API is registered: not before the arguments are checked.
unfoldable pub queue_after : Started → Bool → Bool
queue_after bad_port q = q
queue_after bad_threads q = q
queue_after _ q = true

unfoldable pub c_start_http : Network → Sexp → ℤ → ℤ → Heap → List Therver → Bool → Started × Bool
unfolding c_start queue_after
c_start_http net host port threads h all q =
    let r = c_start net host port threads h all in (r, queue_after r q)

-- A number within bounds.
abbrev pub Within : ℕ → ℤ → Type 0
Within most (pos n) = (1 ≤ n) × (n ≤ most)
Within most (negsuc n) = ⊥

-- The host, if one is given, is found.
abbrev pub Found : Network → Option Bytes → Type 0
Found net none = Unit
Found net (some host) = net.resolves host ≡ true

-- The system gives the socket `ss`, which can be bound to the port and listens.
abbrev pub Opens : Network → ℤ → ℕ → Type 0
Opens net (pos p) ss = (net.socket ≡ some ss) × ((net.binds p ≡ true) × (net.listens ≡ true))
Opens net (negsuc n) ss = ⊥

-- The arguments are within their bounds.
abbrev pub Valid : ℤ → ℤ → Type 0
Valid port threads = Within 65535 port × Within 1000 threads

-- When a server runs, active, without tasks and at the end of the list; when none runs and the list is
-- as before; when it has one more server, which is not active and has no socket; and when the process
-- crashes or an argument is refused. No two of these conditions can hold together.
pub data Starts (net : Network) (all : List Therver) (host : Option Bytes) (port threads : ℤ)
    : Started → Type 0 where
  runs :
      (ss : ℕ) (t : Therver)
      → Valid port threads
      → Found net host
      → Opens net port ss
      → net.has_memory ≡ true
      → t.active ≡ true
      → t.ss ≡ some ss
      → IsPool t []
      → Starts net all host port threads (running t (all ++ t ∷ []))
  stays :
      Valid port threads
      → Found net host
      → ((ss : ℕ) → Opens net port ss → ⊥)
      → Starts net all host port threads (refused all)
  leaves :
      (ss : ℕ) (t : Therver)
      → Valid port threads
      → Found net host
      → Opens net port ss
      → net.has_memory ≡ false
      → t.active ≡ false
      → t.ss ≡ none
      → Starts net all host port threads (refused (all ++ t ∷ []))
  crashes : Valid port threads → (Found net host → ⊥) → Starts net all host port threads crashed
  no_port : (Within 65535 port → ⊥) → Starts net all host port threads bad_port
  no_threads :
      Within 65535 port → (Within 1000 threads → ⊥) → Starts net all host port threads bad_threads

within-bounds : (n most : ℕ) → within n most ≡ true → (1 ≤ n) × (n ≤ most)
within-bounds n most h = ground arith

within-none : (n most : ℕ) → within n most ≡ false → (1 ≤ n) × (n ≤ most) → ⊥
within-none n most h (a, b) = ground arith

started-IsPool : (ss : ℕ) (h : Heap) → IsPool (started ss h) []
unfolding started
started-IsPool ss h = ((refl, refl), ((tt, tt), tt))

not_both : (b : Bool) → b ≡ false → b ≡ true → ⊥
not_both b e t = let clash : false ≡ true = sym e ∙ t in absurd (cc)

-- The branch of a test that an outcome is that of.
when_true :
    (P : Started → Type 0) (b : Bool) (x y : Started) → b ≡ true → P x → P (if b then x else y)
when_true P b x y e p = rw e p

when_false :
    (P : Started → Type 0) (b : Bool) (x y : Started) → b ≡ false → P y → P (if b then x else y)
when_false P b x y e p = rw e p

and_first : (b c : Bool) → (b && c) ≡ true → b ≡ true
and_first true c e = refl
and_first false c e = e

and_second : (b c : Bool) → (b && c) ≡ true → c ≡ true
and_second true c e = e
and_second false c e = let clash : false ≡ true = e in absurd (cc)

and_true : (b c : Bool) → b ≡ true → c ≡ true → (b && c) ≡ true
and_true b c e f = rw (e, f) refl

module _ (net : Network) (h : Heap) (all : List Therver) (host : Option Bytes) (p n : ℕ)
    (valid : Valid (pos p) (pos n)) (found : Found net host) where
  start_threads-Starts :
      (ss : ℕ)
      → Opens net (pos p) ss
      → Starts net all host (pos p) (pos n) (start_threads net ss h all)
  unfolding start_threads started
  start_threads-Starts ss opens =
      let t : Therver = started ss h in
      let off : Therver = record (started ss h) { active = false; ss = none } in
      elim (Bool-cases net.has_memory) [
        | inl memory ↦
            when_true (Starts net all host (pos p) (pos n)) net.has_memory
              (running t (all ++ t ∷ [])) (refused (all ++ off ∷ [])) memory
              (runs ss t valid found opens memory refl refl (started-IsPool ss h))
        | inr lacks ↦
            when_false (Starts net all host (pos p) (pos n)) net.has_memory
              (running t (all ++ t ∷ [])) (refused (all ++ off ∷ [])) lacks
              (leaves ss off valid found opens lacks refl refl)
      ]

  listen_on-Starts :
      (s : Option ℕ)
      → net.socket ≡ s
      → Starts net all host (pos p) (pos n) (listen_on net p h all s)
  unfolding listen_on
  listen_on-Starts none e =
      stays valid found (λ ss o. let clash : none ≡ some ss = sym e ∙ o.0 in absurd (cc))
  listen_on-Starts (some ss) e = elim (Bool-cases (net.binds p && net.listens)) [
    | inl both ↦
        when_true (Starts net all host (pos p) (pos n)) (net.binds p && net.listens)
          (start_threads net ss h all) (refused all) both
          (start_threads-Starts ss (
            e,
            (and_first (net.binds p) net.listens both, and_second (net.binds p) net.listens both),
          ))
    | inr fails ↦
        when_false (Starts net all host (pos p) (pos n)) (net.binds p && net.listens)
          (start_threads net ss h all) (refused all) fails
          (stays valid found (λ ss o.
            not_both (net.binds p && net.listens) fails
              (and_true (net.binds p) net.listens o.1.0 o.1.1)))
  ]

therver-Starts :
    (net : Network) (h : Heap) (all : List Therver) (host : Option Bytes) (p n : ℕ)
    → Valid (pos p) (pos n)
    → Starts net all host (pos p) (pos n) (therver net host p h all)
unfolding therver
therver-Starts net h all none p n valid =
    listen_on-Starts net h all none p n valid tt net.socket refl
therver-Starts net h all (some host) p n valid = elim (Bool-cases (net.resolves host)) [
  | inl found ↦
      when_true (Starts net all (some host) (pos p) (pos n)) (net.resolves host)
        (listen_on net p h all net.socket) crashed found
        (listen_on-Starts net h all (some host) p n valid found net.socket refl)
  | inr fails ↦
      when_false (Starts net all (some host) (pos p) (pos n)) (net.resolves host)
        (listen_on net p h all net.socket) crashed fails
        (crashes valid (not_both (net.resolves host) fails))
]

-- Whatever the system: C_start refuses a port that is not within 1 and 65535, and then a number of
-- threads that is not within 1 and 1000. Otherwise it crashes exactly if a host is given that is not
-- found; it leaves the list of servers as it was if there is no socket that can be bound to the port
-- and listens; and else it adds a server at the end of the list, which is active, has the socket and
-- no tasks if there is memory for the threads, and is not active and has no socket if there is none.
pub c_start-Starts :
    (net : Network) (host : Sexp) (port threads : ℤ) (h : Heap) (all : List Therver)
    → Starts net all (host_of host) port threads (c_start net host port threads h all)
unfolding c_start with_port with_threads
c_start-Starts net host (negsuc p) threads h all = no_port (λ w. w)
c_start-Starts net host (pos p) threads h all = elim (Bool-cases (within p 65535)) [
  | inl port_ok ↦ rw port_ok (by_threads threads (within-bounds p 65535 port_ok))
  | inr fails ↦ rw fails (no_port (within-none p 65535 fails))
]
  where
    by_threads :
        (z : ℤ)
        → (1 ≤ p) × (p ≤ 65535)
        → Starts net all (host_of host) (pos p) z (with_threads net (host_of host) p z h all)
    by_threads (negsuc n) k = no_threads k (λ w. w)
    by_threads (pos n) k = elim (Bool-cases (within n 1000)) [
      | inl threads_ok ↦
          rw threads_ok
            (therver-Starts net h all (host_of host) p n (k, within-bounds n 1000 threads_ok))
      | inr fails ↦ rw fails (no_threads k (within-none n 1000 fails))
    ]
