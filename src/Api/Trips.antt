-- ===== src/Api/Trips.antt =====
-- Objects that go through src/robj.c and back.
use osrv.Base.{
  ℕ, ◌≡◌, refl, ◌∙◌, ap, Bool, true, false, List, [], ◌∷◌, Option, none, some, if◌then◌else◌,
  take_all, length, arith, Bool-cases, inl, inr,
}
use osrv.Base.Bytes.{Bytes}
use osrv.Sfs.Object.{Sexp, vec, str, raw, plain, same_bytes, Meta}
use osrv.Sfs.Load.{ok, restore}
use osrv.Sfs.Store.{encode}
use osrv.Sfs.RoundTrip.{canon, Restorable, restore-encode}
use osrv.Server.Objects.{Entry}
use osrv.Server.Objects.Stacks.{stack, top, pop, same_bytes_refl}
use osrv.Server.State.{Server, add, get, entries, get-entries, add-entries}
use osrv.Api.{
  value, key_of, raw_of, put_key, put_named, c_put, remember, keep_result, content, loaded, decode,
  give, get_entry, get_found, get_named, c_get,
}

-- A key as R gives it.
abbrev pub r_key : Meta → Bytes → Sexp
r_key m key = str m (key ∷ [])

-- What C_put may be given.
abbrev pub Puttable : Bool → Option (Bytes × ℕ) → Type 0
Puttable true block = Unit
Puttable false none = ⊥
Puttable false (some block) = Unit

put_key-entries :
    (key : Bytes) (x : Sexp) (use_sfs : Bool) (block : Option (Bytes × ℕ)) (s : Server)
    → Puttable use_sfs block
    → (e : Entry) × ((e.what ≡ some x)
        × ((j : Bytes)
            → entries j (put_key key x use_sfs block s).1
              ≡ (if same_bytes j key then e ∷ entries j s else entries j s)))
unfolding put_key
put_key-entries key x true block s h = (
  record { key = key; len = 0; obj = none; what = some x },
  (refl, λ j. add-entries key j (some x) none 0 s),
)
put_key-entries key x false none s h = absurd h
put_key-entries key x false (some (b, n)) s h = (
  record { key = key; len = n; obj = some b; what = some x },
  (refl, λ j. add-entries key j (some x) (some b) n s),
)

-- A lookup of a key whose newest entry has an R object gives it, and changes no more than `obj_get`.
get_held :
    (key : Bytes) (x : Sexp) (use_sfs rm : Bool) (s : Server) (e : Entry)
    → top (entries key s) ≡ some e
    → e.what ≡ some x
    → get_named (some key) use_sfs rm s ≡ (value x, (get key rm s).1)
unfolding get_named get_found get_entry
get_held key x use_sfs rm s e h w =
    rw ((get-entries key key rm s).0 ∙ h, get_found) (rw (w, get_entry) refl)

same_bytes_comm : (s t : Bytes) → same_bytes s t ≡ same_bytes t s
unfolding same_bytes
same_bytes_comm [] [] = refl
same_bytes_comm [] (c ∷ t) = refl
same_bytes_comm (b ∷ s) [] = refl
same_bytes_comm (b ∷ s) (c ∷ t) = ground (arith, same_bytes_comm s t)

popped :
    (same rm : Bool) (e : Entry) (es : List Entry)
    → (if rm
        then (if same then pop (if same then e ∷ es else es) else (if same then e ∷ es else es))
        else (if same then e ∷ es else es))
      ≡ (if rm then es else (if same then e ∷ es else es))
popped true true e es = refl
popped false true e es = refl
popped true false e es = refl
popped false false e es = refl

-- After a valid C_put a C_get of the key gives the object that was put, both with or without
-- serialisation. With rm every key has the entries of before the put, without it those of after
-- it.
pub c_put-c_get :
    (m : Meta) (key j : Bytes) (x : Sexp) (put_sfs get_sfs rm : Bool) (s : Server)
    → Puttable put_sfs (raw_of x)
    → let s₁ = (c_put (r_key m key) x put_sfs s).1 in
      ((c_get (r_key m key) get_sfs rm s₁).0 ≡ value x)
      × (entries j (c_get (r_key m key) get_sfs rm s₁).1
          ≡ (if rm then entries j s else entries j s₁))
unfolding c_put c_get key_of put_named
c_put-c_get m key j x put_sfs get_sfs rm s h =
    let s₁ : Server = (put_key key x put_sfs (raw_of x) s).1 in
    let (e, (w, own)) = put_key-entries key x put_sfs (raw_of x) s h in
    let newest : top (entries key s₁) ≡ some e = rw (own key) (rw (same_bytes_refl key) refl) in
    let both : get_named (some key) get_sfs rm s₁ ≡ (value x, (get key rm s₁).1) =
      get_held key x get_sfs rm s₁ e newest w in
    let left : (if rm
          then (if same_bytes key j then pop (entries j s₁) else entries j s₁)
          else entries j s₁)
        ≡ (if rm then entries j s else entries j s₁) =
      rw (own j) (rw (same_bytes_comm key j) (popped (same_bytes j key) rm e (entries j s))) in
    (ap (λ p. p.0) both, ap (λ p. entries j (p.1)) both ∙ ((get-entries key j rm s₁).1 ∙ left))

abbrev with_what : Sexp → Option Entry → Option Entry
with_what x none = none
with_what x (some e) = some (record e { what = some x })

remember-top :
    (key : Bytes) (x : Sexp) (es : List Entry) (e : Entry)
    → top (stack key es) ≡ some e
    → top (stack key (remember key x es)) ≡ some (record e { what = some x })
unfolding stack remember
remember-top key x [] e h = absurd (ground (arith, h))
remember-top key x (d ∷ es) e h = elim (Bool-cases (same_bytes key d.key)) [
  | inl t ↦ rw t (rw t (ap (with_what x) (rw t at h)))
  | inr t ↦ rw t (rw t (remember-top key x es e (rw t at h)))
]

-- What a C_get without `rm` makes of an entry that has no R object stays with the entry.
get_new :
    (key : Bytes) (x : Sexp) (use_sfs : Bool) (s : Server) (e : Entry)
    → top (entries key s) ≡ some e
    → e.what ≡ none
    → decode use_sfs e ≡ ok x
    → get_named (some key) use_sfs false s ≡ (value x, keep_result key x (get key false s).1)
unfolding get_named get_found get_entry give
get_new key x use_sfs s e h w d =
    rw ((get-entries key key false s).0 ∙ h, get_found)
      (ap (λ o. get_entry o e key use_sfs false (get key false s).1) w
        ∙ ap (λ r. give r key false (get key false s).1) d)

keep_result-top :
    (key : Bytes) (x : Sexp) (s : Server) (e : Entry)
    → top (entries key s) ≡ some e
    → top (entries key (keep_result key x s)) ≡ some (record e { what = some x })
unfolding keep_result
keep_result-top key x s e h = remember-top key x s.objects.root e h

get_twice :
    (key : Bytes) (x : Sexp) (first second rm : Bool) (s : Server) (e : Entry)
    → top (entries key s) ≡ some e
    → e.what ≡ none
    → decode first e ≡ ok x
    → ((get_named (some key) first false s).0 ≡ value x)
      × ((get_named (some key) second rm (get_named (some key) first false s).1).0 ≡ value x)
get_twice key x first second rm s e h w d =
    let once = get_new key x first s e h w d in
    let same : top (entries key (get key false s).1) ≡ some e =
      ap top (get-entries key key false s).1 ∙ h in
    let kept = keep_result-top key x (get key false s).1 e same in
    (
      ap (λ p. p.0) once,
      ap (λ p. (get_named (some key) second rm (p.1)).0) once
          ∙ ap (λ p. p.0)
              (get_held key x second rm (keep_result key x (get key false s).1)
                (record e { what = some x }) kept refl),
    )

decode_first :
    (first : Bool) (x : Sexp) (key : Bytes)
    → Restorable x
    → decode first
        (record { key = key; len = length (encode x); obj = some (encode x); what = none })
      ≡ ok (if first then canon x else vec raw plain (length (encode x)) (encode x))
unfolding decode content loaded
decode_first true x key r =
    ap (λ b. loaded (restore b)) (take_all (encode x) (length (encode x)) (omega arith))
    ∙ ap loaded (restore-encode x r)
decode_first false x key r =
    ap (λ b. ok (vec raw plain (length (encode x)) b))
      (take_all (encode x) (length (encode x)) (omega arith))

-- A client has stored the encoding of a restorable object. The first C_get of the key, if it does
-- not remove the entry, decides what the next one gives, whatever that one asks for: the restored
-- object, or the raw vector if the first was asked for the raw data.
pub c_get-c_get :
    (m : Meta) (key : Bytes) (x : Sexp) (first second rm : Bool) (s : Server)
    → Restorable x
    → let s₁ = add key none (some (encode x)) (length (encode x)) s in
      let given = value (if first then canon x else vec raw plain (length (encode x)) (encode x)) in
      ((c_get (r_key m key) first false s₁).0 ≡ given)
      × ((c_get (r_key m key) second rm (c_get (r_key m key) first false s₁).1).0 ≡ given)
unfolding c_get key_of
c_get-c_get m key x first second rm s r =
    let e : Entry = record {
      key = key;
      len = length (encode x);
      obj = some (encode x);
      what = none;
    } in
    let newest : top (entries key (add key none (some (encode x)) (length (encode x)) s)) ≡ some e =
      rw (add-entries key key none (some (encode x)) (length (encode x)) s)
        (rw (same_bytes_refl key) refl) in
    get_twice key (if first then canon x else vec raw plain (length (encode x)) (encode x)) first
      second rm (add key none (some (encode x)) (length (encode x)) s) e newest refl
      (decode_first first x key r)
