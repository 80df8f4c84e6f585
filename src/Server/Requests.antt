-- ===== src/Server/Requests.antt =====
-- src/rdeps.c: `C_dep_req`, a request of R to be told when keys are present. The keys are packed into
-- one block, of which `deps_add` is given the addresses.
use osrv.Base.{
  ℕ, ◌+◌, ◌*◌, ◌≤◌, ◌≡◌, refl, ap, ◌∙◌, Bool, true, false, List, [], ◌∷◌, ◌++◌, append_assoc, map,
  ◌↔◌, Option, none, some, length, length-append, subst, drop, drop-append, All, arith,
}
use osrv.Base.Bytes.{Bytes, c_string, c_string-append, IsText}
use osrv.Server.Deps.{Requirement, Dependent, Event, Deps, new_dependent, deps_add, deps_complete}
use osrv.Server.Deps.Completion.{Completes, deps_complete-Completes}
use osrv.Server.Objects.{Entry}
use osrv.Server.Objects.Stacks.{top}
use osrv.Server.Deps.Tail.{TailIsLast, deps_add-links}
use osrv.Server.State.{Server, get, entries, get-entries}
use osrv.Sfs.Object.{Sexp, str, Meta}

-- `slen`, and the size of the block: `n` pointers, the texts with their NULs, and a byte.
unfoldable pub texts_size : List Bytes → ℕ
texts_size [] = 0
texts_size (k ∷ ks) = length k + 1 + texts_size ks

unfoldable pub block_size : List Bytes → ℕ
unfolding texts_size
block_size keys = length keys * 8 + texts_size keys + 1

-- The texts behind the pointers, and the pointers, counted from the first text.
unfoldable pub texts : List Bytes → Bytes
texts [] = []
texts (k ∷ ks) = k ++ 0 ∷ texts ks

unfoldable pub pointers : ℕ → List Bytes → List ℕ
pointers at [] = []
pointers at (k ∷ ks) = at ∷ pointers (at + (length k + 1)) ks

-- The strings that `deps_add` finds at the pointers, if each of them ends.
unfoldable pub strings_at : Bytes → List ℕ → Option (List Bytes)
strings_at block [] = some []
strings_at block (at ∷ ats) =
    let rest = strings_at block ats in
    elim (c_string (drop at block)) [
      | none ↦ none
      | some k ↦ elim rest [ none ↦ none | some ks ↦ some (k ∷ ks) ]
    ]

-- `undefined`: a name that is read past the end of its vector, a string that does not end, or the
-- write of `deps_add` into freed memory.
pub data Requested : Type 0 where
  done : Deps → Requested
  not_character undefined : Requested

abbrev pub is_there : {A : Type 0} → Option A → Bool
is_there none = false
is_there (some a) = true

-- `obj_get(key, 0)`.
unfoldable pub present : Server → Bytes → Bool
unfolding get
present s key = is_there ((get key false s).0)

unfoldable pub request_keys : ℕ → Bytes → Option (List Bytes) → ℕ → Server → Requested
unfolding present
request_keys address name none msg s = undefined
request_keys address name (some keys) msg s =
    elim (deps_add (present s) address name keys msg s.deps) [ none ↦ undefined | some d ↦ done d ]

unfoldable pub request_names : ℕ → List Bytes → List Bytes → ℕ → Server → Requested
unfolding request_keys strings_at texts pointers
request_names address [] keys msg s = undefined
request_names address (name ∷ names) keys msg s =
    request_keys address name (strings_at (texts keys) (pointers 0 keys)) msg s

-- `address` is what `calloc` gives for the new entry.
unfoldable pub c_dep_req : ℕ → Sexp → Sexp → ℕ → Server → Requested
unfolding request_names
c_dep_req address (str m names) (str k keys) msg s = request_names address names keys msg s
c_dep_req address _ _ msg s = not_character

strings_at-texts :
    (keys : List Bytes) (before : Bytes)
    → All IsText keys
    → strings_at (before ++ texts keys) (pointers (length before) keys) ≡ some keys
unfolding strings_at texts pointers
strings_at-texts [] before t = refl
strings_at-texts (k ∷ ks) before t =
    let here = drop-append before (k ++ 0 ∷ texts ks) (length before) refl in
    let text = c_string-append k (texts ks) t.0 in
    let size : length (before ++ (k ++ 0 ∷ [])) ≡ length before + (length k + 1) =
      omega (arith, length-append before (k ++ 0 ∷ []), length-append k (0 ∷ [])) in
    let joined : (before ++ (k ++ 0 ∷ [])) ++ texts ks ≡ before ++ (k ++ 0 ∷ texts ks) =
      append_assoc before (k ++ 0 ∷ []) (texts ks)
      ∙ ap (◌++◌ before) (append_assoc k (0 ∷ []) (texts ks)) in
    let rest =
      subst (λ (n : ℕ). strings_at (before ++ (k ++ 0 ∷ texts ks)) (pointers n ks) ≡ some ks) size
        (subst
          (λ (b : Bytes). strings_at b (pointers (length (before ++ (k ++ 0 ∷ []))) ks) ≡ some ks)
          joined (strings_at-texts ks (before ++ (k ++ 0 ∷ [])) t.1)) in
    rw (ap c_string here ∙ text, strings_at) (rw rest refl)

length-texts : (keys : List Bytes) → length (texts keys) ≡ texts_size keys
unfolding texts texts_size
length-texts [] = refl
length-texts (k ∷ ks) = omega (arith, length-append k (0 ∷ texts ks), length-texts ks)

-- The store has an entry of the key.
abbrev pub IsPresent : Server → Bytes → Type 0
IsPresent s key = (e : Entry) × (top (entries key s) ≡ some e)

-- The entry for these keys, with those noted that the store has.
abbrev pub Requires : Server → List Bytes → List Requirement → Type 0
Requires s [] [] = Unit
Requires s (k ∷ ks) (r ∷ rs) =
    (r.key ≡ k) × (((r.status ≡ true) ↔ IsPresent s k) × Requires s ks rs)
Requires s _ _ = ⊥

pub record Requests (s : Server) (name : Bytes) (keys : List Bytes) (msg : ℕ) (e : Dependent)
    : Type 0 where
  pub same_name : e.name ≡ name
  pub same_msg : e.msg ≡ msg
  pub requires : Requires s keys e.reqs

is_there_iff : {A : Type 0} (o : Option A) → (is_there o ≡ true) ↔ ((a : A) × (o ≡ some a))
is_there_iff none = ((λ h. let clash : false ≡ true = h in absurd (cc)), λ (a, h). absurd (cc))
is_there_iff (some a) = ((λ h. (a, refl)), λ h. refl)

present_iff : (s : Server) (key : Bytes) → (present s key ≡ true) ↔ IsPresent s key
unfolding present
present_iff s key =
    subst (λ o. (is_there (get key false s).0 ≡ true) ↔ ((e : Entry) × (o ≡ some e)))
      (get-entries key key false s).0 (is_there_iff (get key false s).0)

present-Requires :
    (s : Server) (keys : List Bytes)
    → Requires s keys (map (λ k. record { key = k; status = present s k }) keys)
present-Requires s [] = tt
present-Requires s (k ∷ ks) = (refl, (present_iff s k, present-Requires s ks))

new_dependent-Requests :
    (address msg : ℕ) (name : Bytes) (keys : List Bytes) (s : Server)
    → Requests s name keys msg (new_dependent (present s) address name keys msg)
unfolding new_dependent
new_dependent-Requests address msg name keys s = record {
  same_name = refl;
  same_msg = refl;
  requires = present-Requires s keys;
}

-- A request for keys, while the tail pointer of the dependencies is at the last entry: the texts and
-- pointers fit the block that is allocated. The chain gets at its end an entry with the name, the
-- message and exactly these keys, those noted of which the store has an entry; then a message is
-- posted for each entry of the chain of which all keys are noted, in order, these entries are removed
-- and the others stay as they are.
pub c_dep_req-done :
    (address msg : ℕ) (m k : Meta) (name : Bytes) (names keys : List Bytes) (s : Server)
    → All IsText keys
    → TailIsLast s.deps
    → (length keys * 8 + length (texts keys) ≤ block_size keys)
      × ((d : Deps) × (e : Dependent) × (messages : List Event) × (c_dep_req address
              (str m (name ∷ names))
              (str k keys)
              msg
              s
            ≡ done d)
          × Requests s name keys msg e
          × Completes none ((s.deps).chain ++ e ∷ []) d.chain messages
          × (d.posted ≡ s.deps.posted ++ messages))
unfolding c_dep_req request_names request_keys block_size
c_dep_req-done address msg m k name names keys s t tail =
    let e = new_dependent (present s) address name keys msg in
    let after : Deps = record (s.deps) { chain = (s.deps).chain ++ e ∷ []; tail = address } in
    let (messages, (completes, posted)) = deps_complete-Completes none after in
    (
      omega (arith, length-texts keys),
      (
        deps_complete none after,
        e,
        messages,
        ap (λ (o : Option (List Bytes)). request_keys address name o msg s)
              (strings_at-texts keys [] t)
            ∙ rw (deps_add-links (present s) address name keys msg s.deps tail, request_keys) refl,
        new_dependent-Requests address msg name keys s,
        completes,
        posted,
      ),
    )
