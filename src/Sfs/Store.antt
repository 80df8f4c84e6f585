-- ===== src/Sfs/Store.antt =====
-- `store` of src/sfs.c: the calls of `api->store` that it makes, in order, and the bytes that the
-- stores into memory, a file or a connection make of a call.
use osrv.Base.{
  ℕ, suc, ◌+◌, ◌*◌, ◌%◌, ◌^◌, ◌≡◌, refl, ap, sym as path_sym, List, [], ◌∷◌, ◌++◌, append_assoc,
  ◌∙◌, Option, none, some, length, take,
}
use osrv.Base.Bytes.{Bytes, le_bytes}
use osrv.Sfs.Object.{
  Env, global, empty, base, custom, Sexp, nil, sym, vec, str, generic, s4, cells, clo, env, chr,
  other, Sexps, done, more, Pairs, end, pair, Meta, header, Body, expr, byte_code, type_of,
  elem_size, cell_type, attrsxp, sfs_empty_env, sfs_global_env, sfs_base_env, count, count_pairs,
}

-- The arguments of a `store_fn_t`: `buf` is `none` for a null pointer.
pub record Call : Type 0 where
  pub ts : ℕ
  pub el : ℕ
  pub len : ℕ
  pub buf : Option Bytes

abbrev pub call : ℕ → ℕ → ℕ → Option Bytes → Call
call ts el len buf = record { ts = ts; el = el; len = len; buf = buf }

abbrev pub env_code : Env → ℕ
env_code global = sfs_global_env
env_code empty = sfs_empty_env
env_code base = sfs_base_env
env_code (custom e) = 0

-- `*p ? strlen(p) + 1 : 0`.
abbrev pub symbol_size : Bytes → ℕ
symbol_size [] = 0
symbol_size (b ∷ s) = suc (suc (length s))

unfoldable pub store_strings : List Bytes → List Call
store_strings [] = []
store_strings (s ∷ ss) = call 9 1 (length s + 1) (some (s ++ 0 ∷ [])) ∷ store_strings ss

unfoldable mutual
  pub store : Sexp → List Call
  store nil = call 0 0 0 none ∷ []
  store (sym p) = call 1 1 (symbol_size p) (some (p ++ 0 ∷ [])) ∷ []
  store (vec a m n block) = store_attrib m ++ call (type_of a) (elem_size a) n (some block) ∷ []
  store (str m ss) = store_attrib m ++ call 16 0 (length ss) none ∷ store_strings ss
  store (generic m xs) = store_attrib m ++ call 19 0 (count xs) none ∷ store_all xs
  store (s4 m) = store_attrib m ++ call 25 0 0 none ∷ []
  store (cells k m t v ps) =
      call (cell_type k) 0 (suc (count_pairs ps)) none ∷ (store t ++ (store v ++ store_pairs ps))
  store (clo m f b e) = call 3 0 3 none ∷ (store f ++ (store_body b ++ store e))
  store (env e) = call 4 0 (env_code e) none ∷ []
  store (chr s) = call 9 0 0 none ∷ []
  store (other t) = call t 0 0 none ∷ []

  pub store_all : Sexps → List Call
  store_all done = []
  store_all (more x xs) = store x ++ store_all xs

  pub store_pairs : Pairs → List Call
  store_pairs end = []
  store_pairs (pair t v ps) = store t ++ (store v ++ store_pairs ps)

  pub store_attrib : Meta → List Call
  store_attrib (header o end) = []
  store_attrib (header o (pair t v ps)) =
      call attrsxp 0 (suc (count_pairs ps)) none ∷ (store t ++ (store v ++ store_pairs ps))

  pub store_body : Body → List Call
  store_body (expr x) = store x
  store_body (byte_code x) = store x

-- `hdr = len; hdr <<= 8; hdr |= ts`, in 64 bits. The shift clears the bits of `ts`.
unfoldable pub header_word : ℕ → ℕ → ℕ
header_word ts len = len * 256 % 2 ^ 64 + ts

-- `len *= el` bytes of the block, if there is one.
unfoldable pub payload : Call → Bytes
payload c = elim c.buf [ none ↦ [] | some block ↦ take (c.len * c.el % 2 ^ 64) block ]

-- The eight bytes of the header and the payload.
unfoldable pub encode_call : Call → Bytes
unfolding header_word payload
encode_call c = le_bytes 8 (header_word c.ts c.len) ++ payload c

unfoldable pub encode_calls : List Call → Bytes
encode_calls [] = []
encode_calls (c ∷ cs) = encode_call c ++ encode_calls cs

unfoldable pub encode : Sexp → Bytes
encode x = encode_calls (store x)

pub encode_calls-append :
    (cs ds : List Call) → encode_calls (cs ++ ds) ≡ encode_calls cs ++ encode_calls ds
unfolding encode_calls
encode_calls-append [] ds = refl
encode_calls-append (c ∷ cs) ds =
    ap (◌++◌ (encode_call c)) (encode_calls-append cs ds)
    ∙ path_sym (append_assoc (encode_call c) (encode_calls cs) (encode_calls ds))
