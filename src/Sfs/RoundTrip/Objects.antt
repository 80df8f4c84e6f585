-- ===== src/Sfs/RoundTrip/Objects.antt =====
-- The round trip of each kind of object, from that of its parts.
use osrv.Base.{
  ℕ, zero, suc, ◌+◌, ◌*◌, ◌^◌, ◌≤◌, ◌<◌, ◌≡◌, refl, ◌∙◌, sym as path_sym, List, [], ◌∷◌, ◌++◌, none,
  some, length, arith,
}
use osrv.Base.Bytes.{Bytes}
use osrv.Sfs.Object.{
  Atom, lgl, int, real, cplx, raw, Cell, list, lang, Env, global, empty, base, custom, Sexp, nil,
  sym, vec, str, generic, cells, clo, env, Sexps, Pairs, end, pair, Meta, header, Body, type_of,
  elem_size, cell_type, count, count_pairs, plain,
}
use osrv.Sfs.Store.{
  Call, call, env_code, symbol_size, store, store_all, store_pairs, store_attrib, store_body,
  store_strings, payload, encode_calls,
}
use osrv.Sfs.Load.{ok, and_then, tag_of, attach, sfs_load, decode_one}
use osrv.Sfs.RoundTrip.Canon.{
  canon, canon_all, canon_pairs, canon_env, Fits, canon_meta, canon_body, Restorable,
}
use osrv.Sfs.RoundTrip.Decode.{
  payload-block, decode-block, decode-symbol, decode-vector, decode-strings, decode-cells,
  decode-closure, decode-env, decode-null,
}
use osrv.Sfs.RoundTrip.Steps.{sfs_load-plain, length-encode_calls-cons}
use osrv.Sfs.RoundTrip.Parts.{
  canon_attrib, Loads, LoadsAll, LoadsPairs, LoadsMeta, encode_two, length-encode_two,
  length-encode_object, strings-Loads,
}

-- Attributes that were loaded are set on the object that follows them.
attach-vec :
    (m : Meta) (a : Atom) (n : ℕ) (b s : Bytes)
    → attach (canon_attrib m) (vec a plain n b) s ≡ ok (vec a (canon_meta m) n b, s)
unfolding attach canon
attach-vec (header o end) a n b s = refl
attach-vec (header o (pair t v ps)) a n b s = refl

attach-str :
    (m : Meta) (ss : List Bytes) (s : Bytes)
    → attach (canon_attrib m) (str plain ss) s ≡ ok (str (canon_meta m) ss, s)
unfolding attach canon
attach-str (header o end) ss s = refl
attach-str (header o (pair t v ps)) ss s = refl

attach-generic :
    (m : Meta) (xs : Sexps) (s : Bytes)
    → attach (canon_attrib m) (generic plain xs) s ≡ ok (generic (canon_meta m) xs, s)
unfolding attach canon
attach-generic (header o end) xs s = refl
attach-generic (header o (pair t v ps)) xs s = refl

-- An object with attributes: one header, then what `decode_one` reads.
with_meta :
    (m : Meta) (c : Call) (cs : List Call) (res y : Sexp) (rest : Bytes) (f : ℕ)
    → LoadsMeta m
    → c.ts < 255
    → c.len < 2 ^ 56
    → length (encode_calls (store_attrib m ++ c ∷ cs)) < suc f
    → decode_one f (tag_of c.ts) c.len (payload c ++ (encode_calls cs ++ rest)) ≡ ok (res, rest)
    → attach (canon_attrib m) res rest ≡ ok (y, rest)
    → sfs_load (suc f) (encode_calls (store_attrib m ++ c ∷ cs) ++ rest) ≡ ok (y, rest)
with_meta m c cs res y rest f loads h k size decoded attached =
    loads rest f c cs h k (omega (arith, length-encode_object (store_attrib m) cs c))
    ∙ rw (decoded, and_then) attached

-- An encoding has at least eight bytes, so there is fuel for a header and for `decode_one`.
spend :
    (P : ℕ → Type 0) (n : ℕ)
    → 8 ≤ n
    → ((f : ℕ) → n < suc (suc f) → P (suc (suc f)))
    → (f : ℕ) → n < f
    → P f
spend P n pos k zero h = absurd (omega arith)
spend P n pos k (suc zero) h = absurd (omega arith)
spend P n pos k (suc (suc f)) h = k f h

no_calls : encode_calls [] ≡ []
unfolding encode_calls
no_calls = refl

pub vec-Loads :
    (a : Atom) (m : Meta) (n : ℕ) (b : Bytes)
    → LoadsMeta m
    → length b ≡ n * elem_size a
    → n < 2 ^ 56
    → type_of a < 20
    → Loads (vec a m n b)
unfolding store canon
vec-Loads a m n b loads len few known rest =
    let c = call (type_of a) (elem_size a) n (some b) in
    spend
      (λ f.
        sfs_load f (encode_calls (store_attrib m ++ c ∷ []) ++ rest)
        ≡ ok (vec a (canon_meta m) n b, rest))
      (length (encode_calls (store_attrib m ++ c ∷ [])))
      (omega (arith, length-encode_object (store_attrib m) [] c))
      λ f size.
        with_meta m c [] (vec a plain n b) (vec a (canon_meta m) n b) rest (suc f) loads
          (omega arith) few size
          (rw (payload-block (type_of a) (elem_size a) n b len (fits a), no_calls)
            (decode-block f rest a n b (path_sym len) known))
          (attach-vec m a n b rest)
  where
    fits : (k : Atom) → n * elem_size k < 2 ^ 64
    fits lgl = omega arith
    fits int = omega arith
    fits real = omega arith
    fits cplx = omega arith
    fits raw = omega arith

no_payload : (ts n : ℕ) → payload (call ts 0 n none) ≡ []
unfolding payload
no_payload ts n = refl

pub str-Loads :
    (m : Meta) (ss : List Bytes) → LoadsMeta m → Restorable (str m ss) → Loads (str m ss)
unfolding store canon Restorable
str-Loads m ss loads r rest =
    let c = call 16 0 (length ss) none in
    let size₁ = length-encode_object (store_attrib m) (store_strings ss) c in
    spend
      (λ f.
        sfs_load f (encode_calls (store_attrib m ++ c ∷ store_strings ss) ++ rest)
        ≡ ok (str (canon_meta m) ss, rest))
      (length (encode_calls (store_attrib m ++ c ∷ store_strings ss))) (omega (arith, size₁))
      λ f size.
        with_meta m c (store_strings ss) (str plain ss) (str (canon_meta m) ss) rest (suc f) loads
          (omega arith) r.2 size
          (rw (no_payload 16 (length ss)) (
            decode-strings f rest (length ss) _ ss
              (strings-Loads ss rest f r.1 (omega (arith, size₁)))))
          (attach-str m ss rest)

pub generic-Loads :
    (m : Meta) (xs : Sexps) → LoadsMeta m → LoadsAll xs → count xs < 2 ^ 56 → Loads (generic m xs)
unfolding store canon
generic-Loads m xs loads all few rest =
    let c = call 19 0 (count xs) none in
    let size₁ = length-encode_object (store_attrib m) (store_all xs) c in
    spend
      (λ f.
        sfs_load f (encode_calls (store_attrib m ++ c ∷ store_all xs) ++ rest)
        ≡ ok (canon (generic m xs), rest))
      (length (encode_calls (store_attrib m ++ c ∷ store_all xs))) (omega (arith, size₁))
      λ f size.
        with_meta m c (store_all xs) (generic plain (canon_all xs)) _ rest (suc f) loads
          (omega arith) few size
          (rw (no_payload 19 (count xs))
            (decode-vector f rest (count xs) _ _ (all rest f (omega (arith, size₁)))))
          (attach-generic m (canon_all xs) rest)

pub cells-Loads :
    (k : Cell) (m : Meta) (t v : Sexp) (ps : Pairs)
    → LoadsPairs (pair t v ps)
    → suc (count_pairs ps) < 2 ^ 56
    → Loads (cells k m t v ps)
unfolding store canon
cells-Loads k m t v ps loads few rest =
    let c = call (cell_type k) 0 (suc (count_pairs ps)) none in
    let cs = store_pairs (pair t v ps) in
    let size₁ = length-encode_calls-cons c cs in
    spend (λ f. sfs_load f (encode_calls (c ∷ cs) ++ rest) ≡ ok (canon (cells k m t v ps), rest))
      (length (encode_calls (c ∷ cs))) (omega (arith, size₁))
      λ f size.
        sfs_load-plain (suc f) c cs rest (small k) few
        ∙ rw (no_payload (cell_type k) (suc (count_pairs ps))) (
            decode-cells f rest k (suc (count_pairs ps)) _ (canon t) (canon v) (canon_pairs ps)
              (loads rest f (omega (arith, size₁))))
  where
    small : (j : Cell) → cell_type j < 255
    small list = omega arith
    small lang = omega arith

pub clo-Loads :
    (m : Meta) (g e : Sexp) (b : Body)
    → Loads g
    → ((rest : Bytes) (f : ℕ)
        → length (encode_calls (store_body b)) < f
        → sfs_load f (encode_calls (store_body b) ++ rest) ≡ ok (canon_body b, rest))
    → Loads e
    → Loads (clo m g b e)
unfolding store canon
clo-Loads m g e b hg hb he rest =
    let c = call 3 0 3 none in
    let cs = store g ++ (store_body b ++ store e) in
    let size₁ = length-encode_calls-cons c cs in
    let size₂ = length-encode_two (store g) (store_body b ++ store e) in
    let size₃ = length-encode_two (store_body b) (store e) in
    spend (λ f. sfs_load f (encode_calls (c ∷ cs) ++ rest) ≡ ok (canon (clo m g b e), rest))
      (length (encode_calls (c ∷ cs))) (omega (arith, size₁))
      λ f size.
        sfs_load-plain (suc f) c cs rest (omega arith) (omega arith)
        ∙ rw
            (
              no_payload 3 3,
              encode_two (store g) (store_body b ++ store e) rest,
              encode_two (store_body b) (store e) rest,
            )
            (decode-closure f rest _
              (encode_calls (store_body b) ++ (encode_calls (store e) ++ rest))
              (encode_calls (store e) ++ rest) (canon g) (canon_body b) (canon e)
              (hg _ f (omega (arith, size₁, size₂))) (hb _ f (omega (arith, size₁, size₂, size₃)))
              (he rest f (omega (arith, size₁, size₂, size₃))))

-- An object of one call.
single :
    (c : Call) (y : Sexp) (rest : Bytes)
    → c.ts < 255
    → c.len < 2 ^ 56
    → ((f : ℕ) → decode_one (suc f) (tag_of c.ts) c.len (payload c ++ rest) ≡ ok (y, rest))
    → (f : ℕ) → length (encode_calls (c ∷ [])) < f
    → sfs_load f (encode_calls (c ∷ []) ++ rest) ≡ ok (y, rest)
single c y rest h k decoded =
    spend (λ f. sfs_load f (encode_calls (c ∷ []) ++ rest) ≡ ok (y, rest))
      (length (encode_calls (c ∷ []))) (omega (arith, length-encode_calls-cons c []))
      λ f size. sfs_load-plain (suc f) c [] rest h k ∙ rw no_calls (decoded f)

symbol_size-le : (s : Bytes) → symbol_size s ≤ length s + 1
symbol_size-le [] = omega arith
symbol_size-le (b ∷ s) = omega arith

pub sym-Loads : (s : Bytes) → Fits s → Loads (sym s)
unfolding store canon
sym-Loads s h rest =
    single (call 1 1 (symbol_size s) (some (s ++ 0 ∷ []))) (sym s) rest (omega arith)
      (omega (arith, symbol_size-le s, h.1)) (λ f. decode-symbol f rest s h)

pub env-Loads : (e : Env) → Loads (env e)
unfolding store canon
env-Loads e rest =
    single (call 4 0 (env_code e) none) (env (canon_env e)) rest (omega arith) (small e)
      (λ f. rw (no_payload 4 (env_code e)) (decode-env f rest e))
  where
    small : (k : Env) → env_code k < 2 ^ 56
    small global = omega arith
    small empty = omega arith
    small base = omega arith
    small (custom n) = omega arith

pub nil-Loads : Loads nil
unfolding store canon
nil-Loads rest =
    single (call 0 0 0 none) nil rest (omega arith) (omega arith)
      (λ f. rw (no_payload 0 0) (decode-null f rest))
