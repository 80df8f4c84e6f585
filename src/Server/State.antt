-- ===== src/Server/State.antt =====
-- What the protocols share: the object store, the dependencies, and whether `C_start_http` has
-- registered the queue for the /work API.
use osrv.Base.{ℕ, ◌≡◌, Bool, List, ◌∷◌, Option, some, if◌then◌else◌}
use osrv.Base.Bytes.{Bytes}
use osrv.Sfs.Object.{Sexp, same_bytes}
use osrv.Server.Objects.{Entry, Objects, obj_add, obj_get}
use osrv.Server.Objects.Stacks.{stack, top, pop, obj_get-stack, obj_add-stack}
use osrv.Server.Deps.{Deps, deps_complete}

pub record Server : Type 0 where
  pub objects : Objects
  pub deps : Deps
  pub queue : Bool

-- `obj_add`: the entry goes on the list, and what waits for its key is completed.
unfoldable pub add : Bytes → Option Sexp → Option Bytes → ℕ → Server → Server
add key what d len s = record s {
  objects = obj_add key what d len s.objects;
  deps = deps_complete (some key) s.deps;
}

unfoldable pub get : Bytes → Bool → Server → Option Entry × Server
get key rm s = let found = obj_get key rm s.objects in (found.0, record s { objects = found.1 })

-- The entries of a key, the newest first.
abbrev pub entries : Bytes → Server → List Entry
entries key s = stack key s.objects.root

pub get-entries :
    (k j : Bytes) (rm : Bool) (s : Server)
    → ((get k rm s).0 ≡ top (entries k s))
      × (entries j (get k rm s).1 ≡ (
          if rm then (if same_bytes k j then pop (entries j s) else entries j s) else entries j s))
unfolding get
get-entries k j rm s = obj_get-stack k j rm s.objects

pub add-entries :
    (k j : Bytes) (what : Option Sexp) (d : Option Bytes) (len : ℕ) (s : Server)
    → entries j (add k what d len s) ≡ (
        if same_bytes j k
        then record { key = k; len = len; obj = d; what = what } ∷ entries j s
        else entries j s)
unfolding add
add-entries k j what d len s = obj_add-stack k j what d len s.objects
