-- ===== src/Server/Objects/Preserved.antt =====
-- Nothing is lost between the list and the pool, and R holds exactly the objects of the entries.
use osrv.Base.{ℕ, ◌+◌, ◌-◌, ◌≡◌, refl, Bool, List, [], ◌∷◌, Option, arith}
use osrv.Base.Bytes.{Bytes}
use osrv.Sfs.Object.{Sexp}
use osrv.Server.Objects.{Entry, Objects, obj_add, obj_get, obj_gc, release, walk, held}

unfoldable pub total_held : List Entry → ℕ
total_held [] = 0
total_held (e ∷ es) = held e + total_held es

-- R_PreserveObject was called once more than R_ReleaseObject for each entry that holds an R object,
-- on the list or in the pool.
abbrev pub IsBalanced : Objects → Type 0
IsBalanced s = s.preserved ≡ total_held s.root + total_held s.pool

walk-held :
    (k : Bytes) (rm : Bool) (pool es : List Entry)
    → total_held (walk k rm pool es).rest + total_held (walk k rm pool es).pooled
      ≡ total_held es + total_held pool
unfolding walk total_held
walk-held k rm pool [] = refl
walk-held k rm pool (e ∷ es) = ground (arith, walk-held k rm pool es)

release-held : (es : List Entry) (n m : ℕ) → n ≡ m + total_held es → release es n ≡ m
unfolding release total_held
release-held [] n m h = omega arith
release-held (e ∷ es) n m h = release-held es (n - held e) m (omega arith)

-- Every operation of the store keeps R's references balanced; after `obj_gc` only the entries on the
-- list are held.
pub obj-IsBalanced :
    (s : Objects) (k : Bytes) (rm : Bool) (what : Option Sexp) (d : Option Bytes) (len : ℕ)
    → IsBalanced s
    → IsBalanced (obj_add k what d len s)
      × IsBalanced (obj_get k rm s).1
      × IsBalanced (obj_gc s)
      × ((obj_gc s).preserved ≡ total_held s.root)
unfolding obj_add obj_get obj_gc total_held
obj-IsBalanced s k rm what d len h =
    let freed = release-held s.pool s.preserved (total_held s.root) h in
    (omega arith, omega (arith, walk-held k rm s.pool s.root), omega (arith, freed), freed)
