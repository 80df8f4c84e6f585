-- ===== src/Sfs/Calls.antt =====
-- The calls that `store` makes of an object that can be restored are such as the implementations of
-- `store_fn_t` expect: a known type, a length of 56 bits, and a block that is long enough.
use osrv.Base.{
  ℕ, suc, ◌*◌, ◌%◌, ◌^◌, ◌≤◌, ◌<◌, ◌≡◌, refl, List, [], ◌∷◌, ◌++◌, Option, none, some, Option-cases,
  inl, inr, length, length-append, length-take, All, subst, arith,
}
use osrv.Base.Bytes.{Bytes}
use osrv.Sfs.Object.{
  lgl, int, real, cplx, raw, Cell, list, lang, Env, global, empty, base, custom, Sexp, nil, sym,
  vec, str, generic, s4, cells, clo, env, chr, other, Sexps, done, more, Pairs, end, pair, Meta,
  header, Body, expr, byte_code, cell_type, count_pairs,
}
use osrv.Sfs.Store.{
  Call, call, env_code, symbol_size, store, store_all, store_pairs, store_attrib, store_body,
  store_strings, payload,
}
use osrv.Sfs.RoundTrip.{Restorable, Fits}
use osrv.Sfs.RoundTrip.Canon.{RestorableAll, RestorablePairs, RestorableMeta, RestorableBody}

-- A call with no block has elements of no size; one with a block has elements of at most 16 bytes.
abbrev pub RegularBlock : Call → Option Bytes → Type 0
RegularBlock k none = k.el ≡ 0
RegularBlock k (some b) = (0 < k.el) × (k.el ≤ 16) × (k.len * k.el ≤ length b)

abbrev pub Regular : Call → Type 0
Regular k = (k.ts < 256) × (k.len < 2 ^ 56) × RegularBlock k k.buf

-- The length of what such a call writes.
pub length-payload : (k : Call) → Regular k → length (payload k) ≡ k.len * k.el % 2 ^ 64
unfolding payload
length-payload k h = elim (Option-cases k.buf) [
  | inl e ↦ rw (e, payload) (omega (arith, none_size e))
  | inr (b, e) ↦
      rw (e, payload) (omega (arith, length-take (k.len * k.el % 2 ^ 64) b, some_size b e))
]
  where
    none_size : k.buf ≡ none → k.len * k.el % 2 ^ 64 ≡ 0
    none_size e = let el : k.el ≡ 0 = rw e at h.2 in rw el (omega arith)

    some_size : (b : Bytes) → k.buf ≡ some b → k.len * k.el % 2 ^ 64 ≤ length b
    some_size b e =
        let fits : (0 < k.el) × (k.el ≤ 16) × (k.len * k.el ≤ length b) =
          subst (RegularBlock k) e h.2 in
        grind arith

All-append : (xs ys : List Call) → All Regular xs → All Regular ys → All Regular (xs ++ ys)
All-append [] ys h k = k
All-append (x ∷ xs) ys h k = (h.0, All-append xs ys h.1 k)

strings-Regular : (ss : List Bytes) → All Fits ss → All Regular (store_strings ss)
unfolding store_strings
strings-Regular [] h = tt
strings-Regular (s ∷ ss) h = (
  (
    omega arith,
    omega (arith, (h.0).1),
    (omega arith, omega arith, omega (arith, length-append s (0 ∷ []))),
  ),
  strings-Regular ss h.1,
)

symbol-Regular : (s : Bytes) → Fits s → Regular (call 1 1 (symbol_size s) (some (s ++ 0 ∷ [])))
symbol-Regular [] h = (omega arith, omega arith, (omega arith, omega arith, omega arith))
symbol-Regular (b ∷ s) h =
    (omega arith, omega arith, (omega arith, omega arith, omega (arith, length-append s (0 ∷ []))))

cells-Regular : (k : Cell) (n : ℕ) → n < 2 ^ 56 → Regular (call (cell_type k) 0 n none)
cells-Regular list n h = (omega arith, h, refl)
cells-Regular lang n h = (omega arith, h, refl)

env-Regular : (e : Env) → Regular (call 4 0 (env_code e) none)
env-Regular global = (omega arith, omega arith, refl)
env-Regular empty = (omega arith, omega arith, refl)
env-Regular base = (omega arith, omega arith, refl)
env-Regular (custom e) = (omega arith, omega arith, refl)

mutual
  unfolding store Restorable

  regular : (x : Sexp) → Restorable x → All Regular (store x)
  regular nil r = ((omega arith, omega arith, refl), tt)
  regular (sym s) r = (symbol-Regular s r, tt)
  regular (vec lgl m n b) r =
      All-append (store_attrib m) _ (Regular-meta m r.0)
        ((omega arith, r.2, (omega arith, omega arith, omega arith)), tt)
  regular (vec int m n b) r =
      All-append (store_attrib m) _ (Regular-meta m r.0)
        ((omega arith, r.2, (omega arith, omega arith, omega arith)), tt)
  regular (vec real m n b) r =
      All-append (store_attrib m) _ (Regular-meta m r.0)
        ((omega arith, r.2, (omega arith, omega arith, omega arith)), tt)
  regular (vec cplx m n b) r =
      All-append (store_attrib m) _ (Regular-meta m r.0)
        ((omega arith, r.2, (omega arith, omega arith, omega arith)), tt)
  regular (vec raw m n b) r = absurd r
  regular (str m ss) r =
      All-append (store_attrib m) _ (Regular-meta m r.0)
        ((omega arith, r.2, refl), strings-Regular ss r.1)
  regular (generic m xs) r =
      All-append (store_attrib m) _ (Regular-meta m r.0)
        ((omega arith, r.2, refl), Regular-All xs r.1)
  regular (s4 m) r = absurd r
  regular (cells k m t v ps) r = (
    cells-Regular k (suc (count_pairs ps)) r.3,
    All-append (store t) _ (regular t r.0)
        (All-append (store v) _ (regular v r.1) (Regular-pairs ps r.2)),
  )
  regular (clo m g b e) r = (
    (omega arith, omega arith, refl),
    All-append (store g) _ (regular g r.0)
        (All-append (store_body b) _ (Regular-body b r.1) (regular e r.2)),
  )
  regular (env e) r = (env-Regular e, tt)
  regular (chr s) r = absurd r
  regular (other t) r = absurd r

  Regular-All : (xs : Sexps) → RestorableAll xs → All Regular (store_all xs)
  Regular-All done r = tt
  Regular-All (more x xs) r = All-append (store x) _ (regular x r.0) (Regular-All xs r.1)

  Regular-pairs : (ps : Pairs) → RestorablePairs ps → All Regular (store_pairs ps)
  Regular-pairs end r = tt
  Regular-pairs (pair t v ps) r =
      All-append (store t) _ (regular t r.0)
        (All-append (store v) _ (regular v r.1) (Regular-pairs ps r.2))

  Regular-meta : (m : Meta) → RestorableMeta m → All Regular (store_attrib m)
  Regular-meta (header o end) r = tt
  Regular-meta (header o (pair t v ps)) r = (
    (omega arith, r.3, refl),
    All-append (store t) _ (regular t r.0)
        (All-append (store v) _ (regular v r.1) (Regular-pairs ps r.2)),
  )

  Regular-body : (b : Body) → RestorableBody b → All Regular (store_body b)
  Regular-body (expr x) r = regular x r
  Regular-body (byte_code x) r = regular x r

pub store-Regular : (x : Sexp) → Restorable x → All Regular (store x)
store-Regular x r = regular x r
