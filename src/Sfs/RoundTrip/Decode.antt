-- ===== src/Sfs/RoundTrip/Decode.antt =====
-- What `decode_one` makes of each type's header and payload.
use osrv.Base.{
  ℕ, suc, ◌+◌, ◌*◌, ◌%◌, ◌^◌, ◌<◌, ◌≡◌, refl, List, [], ◌∷◌, ◌++◌, some, length, length-append,
  take_all, arith,
}
use osrv.Base.Bytes.{Bytes}
use osrv.Sfs.Object.{
  Atom, lgl, int, real, cplx, raw, Cell, list, lang, Env, global, empty, base, custom, Sexp, sym,
  vec, str, generic, cells, clo, env, chr, Sexps, Pairs, pair, expr, plain, type_of, elem_size,
  cell_type,
}
use osrv.Sfs.Store.{call, env_code, symbol_size, payload}
use osrv.Sfs.Load.{
  ok, and_then, tag_of, load_symbol, load_env, linked_list, sfs_load, decode_one, load_list,
  load_strings, load_pairs,
}
use osrv.Sfs.RoundTrip.Canon.{canon_env, Fits}
use osrv.Sfs.RoundTrip.Steps.{fetch-append, fetch_text-append}

-- A block that is as long as the call says is written whole.
pub payload-block :
    (ts el n : ℕ) (b : Bytes)
    → length b ≡ n * el
    → n * el < 2 ^ 64
    → payload (call ts el n (some b)) ≡ b
unfolding payload
payload-block ts el n b h k = take_all b (n * el % 2 ^ 64) (omega arith)

payload-empty : payload (call 1 1 0 (some (0 ∷ []))) ≡ []
unfolding payload
payload-empty = refl

module _ (f : ℕ) (rest : Bytes) where
  pub decode-block :
      (a : Atom) (n : ℕ) (b : Bytes)
      → n * elem_size a ≡ length b
      → type_of a < 20
      → decode_one (suc f) (tag_of (type_of a)) n (b ++ rest) ≡ ok (vec a plain n b, rest)
  unfolding tag_of sfs_load
  decode-block lgl n b h k = rw (fetch-append b rest (n * 4) h, and_then)
  decode-block int n b h k = rw (fetch-append b rest (n * 4) h, and_then)
  decode-block real n b h k = rw (fetch-append b rest (n * 8) h, and_then)
  decode-block cplx n b h k = rw (fetch-append b rest (n * 16) h, and_then)
  decode-block raw n b h k = absurd (omega arith)

  pub decode-text :
      (s : Bytes)
      → Fits s
      → decode_one (suc f) (tag_of 9) (length s + 1) ((s ++ 0 ∷ []) ++ rest) ≡ ok (chr s, rest)
  unfolding tag_of sfs_load
  decode-text s h = rw (fetch_text-append s rest (length s + 1) h.0 h.1 refl, and_then)

  pub decode-symbol :
      (s : Bytes)
      → Fits s
      → decode_one
          (suc f)
          (tag_of 1)
          (symbol_size s)
          (payload (call 1 1 (symbol_size s) (some (s ++ 0 ∷ []))) ++ rest)
        ≡ ok (sym s, rest)
  unfolding tag_of sfs_load load_symbol
  decode-symbol [] h = rw (payload-empty)
  decode-symbol (b ∷ s) h = rw (
    payload-block 1 1 (suc (suc (length s))) ((b ∷ s) ++ 0 ∷ [])
        (omega (arith, length-append s (0 ∷ []))) (omega arith),
    fetch_text-append (b ∷ s) rest (suc (suc (length s))) h.0 (omega arith) (omega arith),
    and_then,
  )

  pub decode-vector :
      (n : ℕ) (s : Bytes) (xs : Sexps)
      → load_list f n s ≡ ok (xs, rest)
      → decode_one (suc f) (tag_of 19) n s ≡ ok (generic plain xs, rest)
  unfolding tag_of sfs_load
  decode-vector n s xs e = rw (e, and_then)

  pub decode-strings :
      (n : ℕ) (s : Bytes) (ss : List Bytes)
      → load_strings f n s ≡ ok (ss, rest)
      → decode_one (suc f) (tag_of 16) n s ≡ ok (str plain ss, rest)
  unfolding tag_of sfs_load
  decode-strings n s ss e = rw (e, and_then)

  pub decode-cells :
      (k : Cell) (n : ℕ) (s : Bytes) (t v : Sexp) (ps : Pairs)
      → load_pairs f n s ≡ ok (pair t v ps, rest)
      → decode_one (suc f) (tag_of (cell_type k)) n s ≡ ok (cells k plain t v ps, rest)
  unfolding tag_of sfs_load linked_list
  decode-cells list n s t v ps e = rw (e, and_then)
  decode-cells lang n s t v ps e = rw (e, and_then)

  pub decode-closure :
      (s s₁ s₂ : Bytes) (v₁ v₂ v₃ : Sexp)
      → sfs_load f s ≡ ok (v₁, s₁)
      → sfs_load f s₁ ≡ ok (v₂, s₂)
      → sfs_load f s₂ ≡ ok (v₃, rest)
      → decode_one (suc f) (tag_of 3) 3 s ≡ ok (clo plain v₁ (expr v₂) v₃, rest)
  unfolding tag_of sfs_load
  decode-closure s s₁ s₂ v₁ v₂ v₃ e₁ e₂ e₃ = rw (e₁, and_then, e₂, and_then, e₃)

  pub decode-env :
      (e : Env) → decode_one (suc f) (tag_of 4) (env_code e) rest ≡ ok (env (canon_env e), rest)
  unfolding tag_of sfs_load load_env
  decode-env global = refl
  decode-env empty = refl
  decode-env base = refl
  decode-env (custom e) = refl

  pub decode-null : decode_one (suc f) (tag_of 0) 0 rest ≡ ok (Sexp.nil, rest)
  unfolding tag_of sfs_load
  decode-null = refl
