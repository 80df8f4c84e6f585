-- ===== src/Server/Deps.antt =====
-- src/deps.c: the tracking of dependencies. `chain` is the list that `head` leads to; each entry
-- stands at the address that `calloc` gave it, and `tail` is an address that may have been freed.
-- `posted` is what was put on the queue of completions. Each operation runs under `dep_mutex`.
pub mod Completion
pub mod Tail
use osrv.Base.{
  ℕ, zero, suc, ◌+◌, Bool, true, false, ◌||◌, List, [], ◌∷◌, ◌++◌, map, Option, none, some, ◌==◌,
  if◌then◌else◌, length,
}
use osrv.Base.Bytes.{Bytes}
use osrv.Sfs.Object.{same_bytes}

-- `keys[i]` and `status[i]`.
pub record Requirement : Type 0 where
  pub key : Bytes
  pub status : Bool

-- `depent_t`, at its address.
pub record Dependent : Type 0 where
  pub address : ℕ
  pub msg : ℕ
  pub name : Bytes
  pub reqs : List Requirement

-- What is put on the queue: an `ev_resolved_t`, or a payload of the /work API, which shares it.
pub data Event : Type 0 where
  resolved : ℕ → Bytes → Event
  work : Bytes → Event

pub record Deps : Type 0 where
  pub chain : List Dependent
  pub tail : ℕ
  pub posted : List Event

abbrev pub matches : Option Bytes → Bytes → Bool
matches none k = false
matches (some key) k = same_bytes key k

-- `if (key && !strcmp(key, keys[i])) status[i] = 1`, for every i.
unfoldable pub mark : Option Bytes → List Requirement → List Requirement
mark key [] = []
mark key (r ∷ rs) = record r { status = r.status || matches key r.key } ∷ mark key rs

-- The sum of the statuses.
unfoldable pub satisfied : List Requirement → ℕ
satisfied [] = 0
satisfied (r ∷ rs) = (if r.status then 1 else 0) + satisfied rs

abbrev pub message : Dependent → Event
message e = resolved e.msg e.name

abbrev pub marked : Option Bytes → Dependent → Dependent
marked key e = record e { reqs = mark key e.reqs }

abbrev pub is_resolved : Dependent → Bool
is_resolved e = satisfied e.reqs == length e.reqs

-- The walk of `deps_complete`: the entries that stay, and the messages of those that are removed.
unfoldable pub complete_walk : Option Bytes → List Dependent → List Dependent × List Event
unfolding mark satisfied
complete_walk key [] = ([], [])
complete_walk key (e ∷ es) =
    let e' = marked key e in
    let (kept, messages) = complete_walk key es in
    if is_resolved e' then (kept, message e' ∷ messages) else (e' ∷ kept, messages)

-- `tail` is not touched.
unfoldable pub deps_complete : Option Bytes → Deps → Deps
unfolding complete_walk
deps_complete key s =
    let (kept, messages) = complete_walk key s.chain in
    record s { chain = kept; posted = s.posted ++ messages }

-- The address of the last entry, or 0.
unfoldable pub last_address : List Dependent → ℕ
last_address [] = 0
last_address (e ∷ []) = e.address
last_address (e ∷ d ∷ es) = last_address (d ∷ es)

-- `tail->next = e`: a write into freed memory, `none`, unless `tail` is the last entry.
unfoldable pub link : Dependent → Deps → Option Deps
unfolding last_address
link e s = elim s.chain [
  | [] ↦ some (record s { chain = e ∷ []; tail = e.address })
  | d ∷ es ↦
      if last_address (d ∷ es) == s.tail
      then some (record s { chain = (d ∷ es) ++ e ∷ []; tail = e.address })
      else none
]

-- `present` is whether the object store has a key, `address` what `calloc` returns. The statuses are
-- taken before the lock; between that and the link other threads may add objects.
unfoldable pub new_dependent : (Bytes → Bool) → ℕ → Bytes → List Bytes → ℕ → Dependent
new_dependent present address name keys msg = record {
  address = address;
  msg = msg;
  name = name;
  reqs = map (λ k. record { key = k; status = present k }) keys;
}

unfoldable pub deps_add : (Bytes → Bool) → ℕ → Bytes → List Bytes → ℕ → Deps → Option Deps
unfolding new_dependent link deps_complete
deps_add present address name keys msg s =
    elim (link (new_dependent present address name keys msg) s) [
      | none ↦ none
      | some s₁ ↦ some (deps_complete none s₁)
    ]
