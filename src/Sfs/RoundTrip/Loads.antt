-- ===== src/Sfs/RoundTrip/Loads.antt =====
-- The loader reads back what `store` wrote, with any bytes behind it.
use osrv.Base.{ℕ, suc, ◌<◌, ◌≡◌, [], ◌++◌, append-nil, length, arith}
use osrv.Base.Bytes.{Bytes}
use osrv.Sfs.Object.{
  lgl, int, real, cplx, raw, Sexp, nil, sym, vec, str, generic, s4, cells, clo, env, chr, other,
  Sexps, done, more, Pairs, end, pair, Meta, header, Body, expr, byte_code,
}
use osrv.Sfs.Store.{store, store_body, encode_calls, encode}
use osrv.Sfs.Load.{ok, sfs_load, restore}
use osrv.Sfs.RoundTrip.Canon.{
  canon, canon_body, Faithful, canon-Faithful, Restorable, RestorableAll, RestorablePairs,
  RestorableMeta, RestorableBody,
}
use osrv.Sfs.RoundTrip.Parts.{
  Loads, LoadsAll, LoadsPairs, LoadsMeta, done-Loads, end-Loads, more-Loads, pair-Loads,
  end-LoadsMeta, pair-LoadsMeta,
}
use osrv.Sfs.RoundTrip.Objects.{
  vec-Loads, str-Loads, generic-Loads, cells-Loads, clo-Loads, sym-Loads, env-Loads, nil-Loads,
}

abbrev LoadsBody : Body → Type 0
LoadsBody b =
    (rest : Bytes) (f : ℕ)
    → length (encode_calls (store_body b)) < f
    → sfs_load f (encode_calls (store_body b) ++ rest) ≡ ok (canon_body b, rest)

mutual
  unfolding Restorable store canon sfs_load

  loads : (x : Sexp) → Restorable x → Loads x
  loads nil r = nil-Loads
  loads (sym s) r = sym-Loads s r
  loads (vec lgl m n b) r = vec-Loads lgl m n b (loads_meta m r.0) r.1 r.2 (omega arith)
  loads (vec int m n b) r = vec-Loads int m n b (loads_meta m r.0) r.1 r.2 (omega arith)
  loads (vec real m n b) r = vec-Loads real m n b (loads_meta m r.0) r.1 r.2 (omega arith)
  loads (vec cplx m n b) r = vec-Loads cplx m n b (loads_meta m r.0) r.1 r.2 (omega arith)
  loads (vec raw m n b) r = absurd r
  loads (str m ss) r = str-Loads m ss (loads_meta m r.0) r
  loads (generic m xs) r = generic-Loads m xs (loads_meta m r.0) (loads_all xs r.1) r.2
  loads (s4 m) r = absurd r
  loads (cells k m t v ps) r =
      cells-Loads k m t v ps (pair-Loads t v ps (loads t r.0) (loads v r.1) (loads_pairs ps r.2))
        r.3
  loads (clo m g b e) r = clo-Loads m g e b (loads g r.0) (loads_body b r.1) (loads e r.2)
  loads (env e) r = env-Loads e
  loads (chr s) r = absurd r
  loads (other t) r = absurd r

  loads_all : (xs : Sexps) → RestorableAll xs → LoadsAll xs
  loads_all done r = done-Loads
  loads_all (more x xs) r = more-Loads x xs (loads x r.0) (loads_all xs r.1)

  loads_pairs : (ps : Pairs) → RestorablePairs ps → LoadsPairs ps
  loads_pairs end r = end-Loads
  loads_pairs (pair t v ps) r = pair-Loads t v ps (loads t r.0) (loads v r.1) (loads_pairs ps r.2)

  loads_meta : (m : Meta) → RestorableMeta m → LoadsMeta m
  loads_meta (header o end) r = end-LoadsMeta o
  loads_meta (header o (pair t v ps)) r =
      pair-LoadsMeta o t v ps r.3
        (pair-Loads t v ps (loads t r.0) (loads v r.1) (loads_pairs ps r.2))

  loads_body : (b : Body) → RestorableBody b → LoadsBody b
  loads_body (expr x) r = loads x r
  loads_body (byte_code x) r = loads x r

-- With fuel above the length of its encoding, a restorable object is read back off the front of any
-- stream as `canon` of it, and the rest of the stream is left. Strings are taken by their texts:
-- NA_STRING is the text NA, which is what comes back for it.
pub sfs_load-encode :
    (x : Sexp) (rest : Bytes) (f : ℕ)
    → Restorable x
    → length (encode x) < f
    → sfs_load f (encode x ++ rest) ≡ ok (canon x, rest)
unfolding encode
sfs_load-encode x rest f r size = loads x r rest f size

-- Restoring the encoding of a restorable object gives `canon` of it, and nothing is left of the
-- buffer.
pub restore-encode : (x : Sexp) → Restorable x → restore (encode x) ≡ ok (canon x, [])
unfolding restore
restore-encode x r =
    let loaded = sfs_load-encode x [] (suc (length (encode x))) r (omega arith) in
    rw append-nil at loaded

-- A restorable object that holds nothing which the format drops is restored as it was.
pub restore-encode-Faithful :
    (x : Sexp) → Restorable x → Faithful x → restore (encode x) ≡ ok (x, [])
restore-encode-Faithful x r h = rw (canon-Faithful x h) at (restore-encode x r)

pub meta-Loads : (m : Meta) → RestorableMeta m → LoadsMeta m
meta-Loads m r = loads_meta m r
