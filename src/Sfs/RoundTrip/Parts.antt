-- ===== src/Sfs/RoundTrip/Parts.antt =====
-- What the induction of the round trip proves for each type, and its steps for lists.
use osrv.Base.{
  ℕ, zero, suc, ◌+◌, ◌^◌, ◌≤◌, ◌<◌, ◌≡◌, refl, ◌∙◌, Bool, List, [], ◌∷◌, ◌++◌, append_assoc, none,
  some, length, length-append, All, arith,
}
use osrv.Base.Bytes.{Bytes}
use osrv.Sfs.Object.{
  Sexp, nil, sym, vec, str, generic, s4, cells, clo, env, chr, other, Sexps, done, more, Pairs, end,
  pair, Meta, header, type_of, elem_size, cell_type, attrsxp, count, count_pairs,
}
use osrv.Sfs.Store.{
  Call, call, env_code, symbol_size, store, store_all, store_pairs, store_attrib, store_body,
  store_strings, payload, encode_calls, encode_calls-append,
}
use osrv.Sfs.Load.{
  Result, ok, err, out_of_fuel, and_then, tag_of, attach, string_elt, sfs_load, decode_one,
  load_list, load_strings, load_pairs,
}
use osrv.Sfs.RoundTrip.Canon.{canon, canon_all, canon_pairs, Fits}
use osrv.Sfs.RoundTrip.Decode.{payload-block, decode-text}
use osrv.Sfs.RoundTrip.Steps.{sfs_load-plain, sfs_load-attached, length-encode_calls-cons}

-- The attributes as the loader has them.
abbrev pub canon_attrib : Meta → Pairs
canon_attrib (header o end) = end
canon_attrib (header o (pair t v ps)) = pair (canon t) (canon v) (canon_pairs ps)

-- Statements that the induction proves for each type.
abbrev pub Loads : Sexp → Type 0
Loads x =
    (rest : Bytes) (f : ℕ)
    → length (encode_calls (store x)) < f
    → sfs_load f (encode_calls (store x) ++ rest) ≡ ok (canon x, rest)

abbrev pub LoadsAll : Sexps → Type 0
LoadsAll xs =
    (rest : Bytes) (f : ℕ)
    → length (encode_calls (store_all xs)) + 1 < f
    → load_list f (count xs) (encode_calls (store_all xs) ++ rest) ≡ ok (canon_all xs, rest)

abbrev pub LoadsPairs : Pairs → Type 0
LoadsPairs ps =
    (rest : Bytes) (f : ℕ)
    → length (encode_calls (store_pairs ps)) + 1 < f
    → load_pairs f (count_pairs ps) (encode_calls (store_pairs ps) ++ rest)
      ≡ ok (canon_pairs ps, rest)

-- The call `c` that writes an object's own header, behind the attributes of `m`.
abbrev pub LoadsMeta : Meta → Type 0
LoadsMeta m =
    (rest : Bytes) (f : ℕ) (c : Call) (cs : List Call)
    → c.ts < 255
    → c.len < 2 ^ 56
    → length (encode_calls (store_attrib m)) < f
    → sfs_load (suc f) (encode_calls (store_attrib m ++ c ∷ cs) ++ rest)
      ≡ and_then (decode_one f (tag_of c.ts) c.len (payload c ++ (encode_calls cs ++ rest)))
          (λ (res, s). attach (canon_attrib m) res s)

-- The bytes of two groups of calls, and of what follows them.
pub encode_two :
    (as' bs : List Call) (rest : Bytes)
    → encode_calls (as' ++ bs) ++ rest ≡ encode_calls as' ++ (encode_calls bs ++ rest)
encode_two as' bs rest = simp (encode_calls-append, append_assoc)

pub length-encode_two :
    (as' bs : List Call)
    → length (encode_calls (as' ++ bs)) ≡ length (encode_calls as') + length (encode_calls bs)
length-encode_two as' bs =
    rw (encode_calls-append as' bs) (length-append (encode_calls as') (encode_calls bs))

pub length-encode_object :
    (as' cs : List Call) (c : Call)
    → length (encode_calls (as' ++ c ∷ cs))
      ≡ length (encode_calls as') + (8 + (length (payload c) + length (encode_calls cs)))
length-encode_object as' cs c = rw (length-encode_two as' (c ∷ cs), length-encode_calls-cons c cs)

-- Every object takes at least its header.
pub store_pos : (x : Sexp) → 8 ≤ length (encode_calls (store x))
unfolding store
store_pos nil = omega (arith, length-encode_calls-cons (call 0 0 0 none) [])
store_pos (sym p) =
    omega (arith, length-encode_calls-cons (call 1 1 (symbol_size p) (some (p ++ 0 ∷ []))) [])
store_pos (vec a m n b) =
    omega
      (arith, length-encode_object (store_attrib m) [] (call (type_of a) (elem_size a) n (some b)))
store_pos (str m ss) =
    omega
      (arith, length-encode_object (store_attrib m) (store_strings ss) (call 16 0 (length ss) none))
store_pos (generic m xs) =
    omega (arith, length-encode_object (store_attrib m) (store_all xs) (call 19 0 (count xs) none))
store_pos (s4 m) = omega (arith, length-encode_object (store_attrib m) [] (call 25 0 0 none))
store_pos (cells k m t v ps) = omega (
  arith,
  length-encode_calls-cons (call (cell_type k) 0 (suc (count_pairs ps)) none)
      (store t ++ (store v ++ store_pairs ps)),
)
store_pos (clo m f b e) =
    omega (arith, length-encode_calls-cons (call 3 0 3 none) (store f ++ (store_body b ++ store e)))
store_pos (env e) = omega (arith, length-encode_calls-cons (call 4 0 (env_code e) none) [])
store_pos (chr s) = omega (arith, length-encode_calls-cons (call 9 0 0 none) [])
store_pos (other t) = omega (arith, length-encode_calls-cons (call t 0 0 none) [])

pub more-Loads : (x : Sexp) (xs : Sexps) → Loads x → LoadsAll xs → LoadsAll (more x xs)
unfolding store canon sfs_load
more-Loads x xs hx hxs rest zero h = absurd (omega arith)
more-Loads x xs hx hxs rest (suc f) h =
    let size = length-encode_two (store x) (store_all xs) in
    rw (
      encode_two (store x) (store_all xs) rest,
      hx (encode_calls (store_all xs) ++ rest) f (omega (arith, size)),
      and_then,
      hxs rest f (omega (arith, size, store_pos x)),
    )

pub pair-Loads :
    (t v : Sexp) (ps : Pairs) → Loads t → Loads v → LoadsPairs ps → LoadsPairs (pair t v ps)
unfolding store canon sfs_load
pair-Loads t v ps ht hv hps rest zero h = absurd (omega arith)
pair-Loads t v ps ht hv hps rest (suc f) h =
    let size = length-encode_two (store t) (store v ++ store_pairs ps) in
    let size₂ = length-encode_two (store v) (store_pairs ps) in
    rw (
      encode_two (store t) (store v ++ store_pairs ps) rest,
      encode_two (store v) (store_pairs ps) rest,
      ht (encode_calls (store v) ++ (encode_calls (store_pairs ps) ++ rest)) f
          (omega (arith, size)),
      and_then,
      hv (encode_calls (store_pairs ps) ++ rest) f (omega (arith, size, size₂)),
      and_then,
      hps rest f (omega (arith, size, size₂, store_pos t)),
    )

-- A string in a stream, and the strings of a vector.
sfs_load-chr :
    (s rest : Bytes) (f : ℕ) (cs : List Call)
    → Fits s
    → 1 < f
    → sfs_load f (encode_calls (call 9 1 (length s + 1) (some (s ++ 0 ∷ [])) ∷ cs) ++ rest)
      ≡ ok (chr s, encode_calls cs ++ rest)
sfs_load-chr s rest zero cs h k = absurd (omega arith)
sfs_load-chr s rest (suc zero) cs h k = absurd (omega arith)
sfs_load-chr s rest (suc (suc f)) cs h k =
    let block =
      payload-block 9 1 (length s + 1) (s ++ 0 ∷ []) (omega (arith, length-append s (0 ∷ [])))
        (omega arith) in
    sfs_load-plain (suc f) (call 9 1 (length s + 1) (some (s ++ 0 ∷ []))) cs rest (omega arith)
      (omega arith)
    ∙ rw block (decode-text f (encode_calls cs ++ rest) s h)

pub strings-Loads :
    (ss : List Bytes) (rest : Bytes) (f : ℕ)
    → All Fits ss
    → length (encode_calls (store_strings ss)) + 1 < f
    → load_strings f (length ss) (encode_calls (store_strings ss) ++ rest) ≡ ok (ss, rest)
unfolding store_strings sfs_load string_elt
strings-Loads [] rest zero fits h = absurd (omega arith)
strings-Loads [] rest (suc f) fits h = unfold encode_calls in refl
strings-Loads (s ∷ ss) rest zero fits h = absurd (omega arith)
strings-Loads (s ∷ ss) rest (suc f) fits h =
    let size =
      length-encode_calls-cons (call 9 1 (length s + 1) (some (s ++ 0 ∷ []))) (store_strings ss) in
    rw (
      sfs_load-chr s rest f (store_strings ss) fits.0 (omega (arith, size)),
      and_then,
      strings-Loads ss rest f fits.1 (omega (arith, size)),
    )

-- The attributes of an object, which come before it.
pub end-LoadsMeta : (o : Bool) → LoadsMeta (header o end)
unfolding store attach
end-LoadsMeta o rest f c cs h k size =
    sfs_load-plain f c cs rest h k ∙ and_then-pure (decode_one f (tag_of c.ts) c.len _)
  where
    and_then-pure : (r : Result (Sexp × Bytes)) → r ≡ and_then r (λ (res, s). attach end res s)
    and_then-pure (ok a) = refl
    and_then-pure (err e) = refl
    and_then-pure out_of_fuel = refl

pub pair-LoadsMeta :
    (o : Bool) (t v : Sexp) (ps : Pairs)
    → suc (count_pairs ps) < 2 ^ 56
    → LoadsPairs (pair t v ps)
    → LoadsMeta (header o (pair t v ps))
unfolding store canon
pair-LoadsMeta o t v ps few loads rest zero c cs h k size = absurd (omega arith)
pair-LoadsMeta o t v ps few loads rest (suc f) c cs h k size =
    let attribs = call attrsxp 0 (suc (count_pairs ps)) none in
    let pairs = store_pairs (pair t v ps) in
    rw (encode_two (attribs ∷ pairs) (c ∷ cs) rest) (
      sfs_load-attached f (suc (count_pairs ps)) c pairs cs (canon t) (canon v) (canon_pairs ps)
        rest few (omega arith) k
        (λ tail. loads tail f (omega (arith, length-encode_calls-cons attribs pairs))))

pub done-Loads : LoadsAll done
unfolding store canon sfs_load encode_calls
done-Loads rest zero h = absurd (omega arith)
done-Loads rest (suc f) h = refl

pub end-Loads : LoadsPairs end
unfolding store canon sfs_load encode_calls
end-Loads rest zero h = absurd (omega arith)
end-Loads rest (suc f) h = refl
