-- ===== src/Server/Objects.antt =====
-- src/obj.c: the key/value store. `root` is the list from `obj_root`, the newest entry first, `pool`
-- the entries that `obj_gc` will free. Every operation runs under `obj_mutex`, so a run of the store
-- is a sequence of them.
pub mod Stacks
pub mod Preserved
use osrv.Base.{
  ℕ, zero, suc, ◌+◌, ◌-◌, Bool, true, false, List, [], ◌∷◌, Option, none, some, if◌then◌else◌,
}
use osrv.Base.Bytes.{Bytes}
use osrv.Sfs.Object.{Sexp, same_bytes}

-- `struct obj_entry_s`: `obj` is the data, or NULL if the object has to be serialised.
pub record Entry : Type 0 where
  pub key : Bytes
  pub len : ℕ
  pub obj : Option Bytes
  pub what : Option Sexp

-- `preserved` is the number of objects that R_PreserveObject holds for the store.
pub record Objects : Type 0 where
  pub root : List Entry
  pub pool : List Entry
  pub preserved : ℕ

abbrev pub is_some {ℓ} : {A : Type ℓ} → Option A → Bool
is_some none = false
is_some (some a) = true

abbrev pub held : Entry → ℕ
held e = if is_some e.what then 1 else 0

-- The store's part of `obj_add`. (Its call of `deps_complete` is in Server/Deps.)
unfoldable pub obj_add : Bytes → Option Sexp → Option Bytes → ℕ → Objects → Objects
obj_add key what d len s =
    let e : Entry = record { key = key; len = len; obj = d; what = what } in
    record s { root = e ∷ s.root; preserved = s.preserved + held e }

-- What R still holds after every entry of the pool was released.
unfoldable pub release : List Entry → ℕ → ℕ
release [] n = n
release (e ∷ es) n = release es (n - held e)

unfoldable pub obj_gc : Objects → Objects
unfolding release
obj_gc s = record s { pool = []; preserved = release s.pool s.preserved }

-- The entry that was found, the list that is left and the pool.
pub record Found : Type 0 where
  pub entry : Option Entry
  pub rest : List Entry
  pub pooled : List Entry

-- The walk of `obj_get_` along the list.
unfoldable pub walk : Bytes → Bool → List Entry → List Entry → Found
walk key rm pool [] = record { entry = none; rest = []; pooled = pool }
walk key rm pool (e ∷ es) =
    let further = walk key rm pool es in
    if same_bytes key e.key
    then record {
      entry = some e;
      rest = if rm then es else e ∷ es;
      pooled = if rm then e ∷ pool else pool;
    }
    else record further { rest = e ∷ further.rest }

unfoldable pub obj_get : Bytes → Bool → Objects → Option Entry × Objects
unfolding walk
obj_get key rm s =
    let f = walk key rm s.pool s.root in (f.entry, record s { root = f.rest; pool = f.pooled })
