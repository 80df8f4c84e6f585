-- ===== src/Server/Objects/Stacks.antt =====
-- The store keeps a stack of entries for each key: `obj_add` pushes, a `rm` pops, and a lookup
-- shows the top.
use osrv.Base.{
  ℕ, ◌≡◌, refl, ◌↔◌, Bool, true, List, [], ◌∷◌, Option, none, some, if◌then◌else◌, Bool-cases, inl,
  inr, arith,
}
use osrv.Base.Bytes.{Bytes}
use osrv.Sfs.Object.{Sexp, same_bytes}
use osrv.Server.Objects.{Entry, Objects, obj_add, obj_get, walk}

pub same_bytes_refl : (s : Bytes) → same_bytes s s ≡ true
unfolding same_bytes
same_bytes_refl [] = refl
same_bytes_refl (b ∷ s) = ground (arith, same_bytes_refl s)

pub same_bytes-eq : (s t : Bytes) → same_bytes s t ≡ true → s ≡ t
unfolding same_bytes
same_bytes-eq [] [] h = refl
same_bytes-eq [] (c ∷ t) h = cc
same_bytes-eq (b ∷ s) [] h = cc
same_bytes-eq (b ∷ s) (c ∷ t) h = ground (arith, same_bytes-eq s t)

pub same_bytes_iff : (s t : Bytes) → (same_bytes s t ≡ true) ↔ (s ≡ t)
same_bytes_iff s t = (same_bytes-eq s t, λ e. rw e (same_bytes_refl t))

-- The entries of a key, the newest first.
unfoldable pub stack : Bytes → List Entry → List Entry
stack k [] = []
stack k (e ∷ es) = let rest = stack k es in if same_bytes k e.key then e ∷ rest else rest

abbrev pub top : List Entry → Option Entry
top [] = none
top (e ∷ es) = some e

abbrev pub pop : List Entry → List Entry
pop [] = []
pop (e ∷ es) = es

walk-top :
    (k : Bytes) (rm : Bool) (pool es : List Entry) → (walk k rm pool es).entry ≡ top (stack k es)
unfolding walk stack
walk-top k rm pool [] = refl
walk-top k rm pool (e ∷ es) = elim (Bool-cases (same_bytes k e.key)) [
  | inl h ↦ rw (h, walk, stack)
  | inr h ↦ rw (h, walk, stack) (walk-top k rm pool es)
]

walk-rest :
    (k j : Bytes) (rm : Bool) (pool es : List Entry)
    → stack j (walk k rm pool es).rest
      ≡ (if rm then (if same_bytes k j then pop (stack j es) else stack j es) else stack j es)
unfolding walk stack
walk-rest k j rm pool [] = ground arith
walk-rest k j rm pool (e ∷ es) = ground (
  arith,
  walk-rest k j rm pool es,
  same_bytes_iff k e.key,
  same_bytes_iff j e.key,
  same_bytes_iff k j,
)

-- Lookup: the newest entry of the key, or none; a plain lookup leaves all stacks, and a removal pops
-- the stack of that key and no other.
pub obj_get-stack :
    (k j : Bytes) (rm : Bool) (s : Objects)
    → ((obj_get k rm s).0 ≡ top (stack k s.root))
      × (stack j (obj_get k rm s).1.root ≡ (
          if rm
          then (if same_bytes k j then pop (stack j s.root) else stack j s.root)
          else stack j s.root))
unfolding obj_get
obj_get-stack k j rm s = (walk-top k rm s.pool s.root, walk-rest k j rm s.pool s.root)

-- Adding an entry pushes it on the stack of its key and leaves the others.
pub obj_add-stack :
    (k j : Bytes) (what : Option Sexp) (d : Option Bytes) (len : ℕ) (s : Objects)
    → stack j (obj_add k what d len s).root ≡ (
        if same_bytes j k
        then record { key = k; len = len; obj = d; what = what } ∷ stack j s.root
        else stack j s.root)
unfolding obj_add stack
obj_add-stack k j what d len s = refl
