-- ===== src/Api.antt =====
-- src/robj.c: the calls of R on the object store. An error of R leaves the store as the call has left it.
pub mod Trips
use osrv.Base.{
  ℕ, suc, ◌+◌, Bool, true, false, List, [], ◌∷◌, Option, none, some, if◌then◌else◌, take,
}
use osrv.Base.Bytes.{Bytes}
use osrv.Sfs.Object.{Sexp, nil, vec, str, raw, plain, same_bytes, lgl}
use osrv.Sfs.Load.{Result, ok, err, out_of_fuel, Error, restore}
use osrv.Server.Objects.{Entry, Objects, obj_gc}
use osrv.Server.State.{Server, add, get}

-- What a call gives to R: a value, or an error.
pub data Answer : Type 0 where
  value : Sexp → Answer
  invalid_key not_raw : Answer
  not_loaded : Result Sexp → Answer

-- A key is a character vector of one string.
unfoldable pub key_of : Sexp → Option Bytes
key_of (str m (key ∷ [])) = some key
key_of _ = none

-- The memory and the length of a raw vector.
unfoldable pub raw_of : Sexp → Option (Bytes × ℕ)
raw_of (vec raw m n b) = some (b, n)
raw_of _ = none

-- ScalarLogical(1).
abbrev pub r_true : Sexp
r_true = vec lgl plain 1 (1 ∷ 0 ∷ 0 ∷ 0 ∷ [])

-- `C_put` with its key; the memory of a raw vector is the data of the entry, which keeps the vector.
unfoldable pub put_key : Bytes → Sexp → Bool → Option (Bytes × ℕ) → Server → Answer × Server
unfolding add
put_key key what true block s = (value r_true, add key (some what) none 0 s)
put_key key what false none s = (not_raw, s)
put_key key what false (some (b, n)) s = (value r_true, add key (some what) (some b) n s)

unfoldable pub put_named : Option Bytes → Sexp → Bool → Server → Answer × Server
unfolding put_key raw_of
put_named none what use_sfs s = (invalid_key, s)
put_named (some key) what use_sfs s = put_key key what use_sfs (raw_of what) s

unfoldable pub c_put : Sexp → Sexp → Bool → Server → Answer × Server
unfolding put_named key_of
c_put key what use_sfs s = put_named (key_of key) what use_sfs s

-- `o->sWhat = res`, for the first entry of the key.
unfoldable pub remember : Bytes → Sexp → List Entry → List Entry
remember key what [] = []
remember key what (e ∷ es) =
    let rest = remember key what es in
    if same_bytes key e.key then record e { what = some what } ∷ es else e ∷ rest

-- R_PreserveObject, but for R_NilValue.
unfoldable pub preserve : Sexp → ℕ → ℕ
preserve nil n = n
preserve _ n = suc n

unfoldable pub keep_result : Bytes → Sexp → Server → Server
unfolding remember preserve
keep_result key what s = record s {
  objects = record (s.objects) {
    root = remember key what s.objects.root;
    preserved = preserve what s.objects.preserved;
  };
}

-- The `len` bytes at `obj`.
unfoldable pub content : Entry → Bytes
content e = elim e.obj [ none ↦ [] | some b ↦ take e.len b ]

unfoldable pub loaded : Result (Sexp × Bytes) → Result Sexp
loaded (ok (x, rest)) = ok x
loaded (err e) = err e
loaded out_of_fuel = out_of_fuel

-- What is made of an entry that has no R object: the object that its data encode, or a raw vector.
unfoldable pub decode : Bool → Entry → Result Sexp
unfolding restore content loaded
decode true e = loaded (restore (content e))
decode false e = ok (vec raw plain e.len (content e))

unfoldable pub give : Result Sexp → Bytes → Bool → Server → Answer × Server
unfolding keep_result
give (ok x) key true s = (value x, s)
give (ok x) key false s = (value x, keep_result key x s)
give r key rm s = (not_loaded r, s)

-- `C_get` from the entry that was found.
unfoldable pub get_entry : Option Sexp → Entry → Bytes → Bool → Bool → Server → Answer × Server
unfolding decode give
get_entry (some x) e key use_sfs rm s = (value x, s)
get_entry none e key use_sfs rm s = give (decode use_sfs e) key rm s

unfoldable pub get_found : Option Entry → Bytes → Bool → Bool → Server → Answer × Server
unfolding get_entry
get_found none key use_sfs rm s = (value nil, s)
get_found (some e) key use_sfs rm s = get_entry e.what e key use_sfs rm s

unfoldable pub get_named : Option Bytes → Bool → Bool → Server → Answer × Server
unfolding get_found get
get_named none use_sfs rm s = (invalid_key, s)
get_named (some key) use_sfs rm s = let (o, s₁) = get key rm s in get_found o key use_sfs rm s₁

unfoldable pub c_get : Sexp → Bool → Bool → Server → Answer × Server
unfolding get_named key_of
c_get key use_sfs rm s = get_named (key_of key) use_sfs rm s

unfoldable pub c_clean : Server → Answer × Server
unfolding obj_gc
c_clean s = (value r_true, record s { objects = obj_gc s.objects })
