-- ===== src/Sfs/Load.antt =====
-- `sfs_load` and `decode_one` of src/sfs.c over a stream of bytes (`fetch_buf` of
-- src/mem_restore.c). A C function that reads memory which it has not filled gives `undefined`:
-- a symbol or string of 8192 bytes or more, whose buffer is never fetched, and a text with no NUL.
-- Each call and each round of a loop costs a unit of fuel.
use osrv.Base.{
  ℕ, zero, suc, ◌*◌, ◌/◌, ◌%◌, true, false, List, [], ◌∷◌, none, some, ltb, ◌==◌, if◌then◌else◌,
  length, take, drop,
}
use osrv.Base.Bytes.{Bytes, le_value, c_string}
use osrv.Sfs.Object.{
  Atom, lgl, int, real, cplx, Cell, list, lang, Env, global, empty, base, Sexp, nil, sym, vec, str,
  generic, s4, cells, clo, env, chr, Sexps, done, more, Pairs, end, pair, Meta, header, expr, plain,
  elem_size, attrsxp, sfs_empty_env, sfs_global_env, has_class,
}

-- `shared_attrib`: attributes set on an object that R shares, such as R_NilValue.
pub data Error : Type 0 where
  read_error undefined not_a_string shared_attrib no_name : Error
  unimplemented : ℕ → Error

pub data Result {ℓ} (A : Type ℓ) : Type ℓ where
  ok : A → Result A
  err : Error → Result A
  out_of_fuel : Result A

abbrev pub Parser : Type 0 → Type 0
Parser A = Bytes → Result (A × Bytes)

abbrev pub and_then : {A B : Type 0} → Result A → (A → Result B) → Result B
and_then (ok a) k = k a
and_then (err e) k = err e
and_then out_of_fuel k = out_of_fuel

abbrev pub pure : {A : Type 0} → A → Parser A
pure a s = ok (a, s)

abbrev pub fail : {A : Type 0} → Error → Parser A
fail e s = err e

infixl 1 ◌>>=◌
abbrev pub ◌>>=◌ : {A B : Type 0} → Parser A → (A → Parser B) → Parser B
p >>= k = λ s. and_then (p s) (λ (a, rest). k a rest)

-- `api->fetch(api, buf, len)`.
unfoldable pub fetch : ℕ → Parser Bytes
fetch n s = if ltb (length s) n then err read_error else ok (take n s, drop n s)

unfoldable pub fetch_word : Parser ℕ
unfolding fetch
fetch_word = do block ← fetch 8; pure (le_value block)

-- What `decode_one` distinguishes.
pub data Tag : Type 0 where
  null symbol string strings vector closure environment : Tag
  atom : Atom → Tag
  linked : Cell → Tag
  unknown : ℕ → Tag

unfoldable pub tag_of : ℕ → Tag
tag_of ts =
    if ts == 0
    then null
    else if ts == 13
    then atom int
    else if ts == 10
    then atom lgl
    else if ts == 14
    then atom real
    else if ts == 15
    then atom cplx
    else if ts == 1
    then symbol
    else if ts == 19
    then vector
    else if ts == 16
    then strings
    else if ts == 9
    then string
    else if ts == 3
    then closure
    else if ts == attrsxp
    then linked list
    else if ts == 2
    then linked list
    else if ts == 6
    then linked lang
    else if ts == 4
    then environment
    else unknown ts

-- sizeof(dec_buf).
abbrev pub dec_buf_size : ℕ
dec_buf_size = 8192

-- The text in the scratch buffer after `len` bytes were fetched into it.
unfoldable pub text_of : Bytes → Parser Bytes
text_of block s = elim (c_string block) [ none ↦ err undefined | some t ↦ ok (t, s) ]

unfoldable pub fetch_text : ℕ → Parser Bytes
unfolding fetch text_of
fetch_text len = if ltb len dec_buf_size then fetch len >>= text_of else fail undefined

-- `Rf_install`, which refuses an empty name.
unfoldable pub install : Bytes → Parser Sexp
install [] = fail no_name
install (c ∷ cs) = pure (sym (c ∷ cs))

unfoldable pub load_symbol : ℕ → Parser Sexp
unfolding fetch_text install
load_symbol zero = pure (sym [])
load_symbol (suc n) = fetch_text (suc n) >>= install

unfoldable pub load_env : ℕ → Env
load_env len =
    if len == sfs_global_env then global else if len == sfs_empty_env then empty else base

-- The list that `CONS`, `SET_TAG` and `SETCDR` have built.
unfoldable pub linked_list : Cell → Pairs → Sexp
linked_list k end = nil
linked_list k (pair t v ps) = cells k plain t v ps

unfoldable pub attributes : Sexp → Pairs
attributes (cells k m t v ps) = pair t v ps
attributes _ = end

-- SET_OBJECT and SET_ATTRIB.
unfoldable pub set_meta : Meta → Sexp → Parser Sexp
set_meta m (vec a _ n b) = pure (vec a m n b)
set_meta m (str _ ss) = pure (str m ss)
set_meta m (generic _ xs) = pure (generic m xs)
set_meta m (s4 _) = pure (s4 m)
set_meta m (cells k _ t v ps) = pure (cells k m t v ps)
set_meta m (clo _ f b e) = pure (clo m f b e)
set_meta m _ = fail shared_attrib

unfoldable pub attach : Pairs → Sexp → Parser Sexp
unfolding set_meta has_class
attach end res = pure res
attach (pair t v ps) res = set_meta (header (has_class (pair t v ps)) (pair t v ps)) res

unfoldable pub string_elt : Sexp → Parser Bytes
string_elt (chr s) = pure s
string_elt _ = fail not_a_string

unfoldable mutual
  pub sfs_load : ℕ → Parser Sexp
  sfs_load zero s = out_of_fuel
  sfs_load (suc f) s = and_then (fetch_word s) λ (hdr, s₁). elim (hdr % 256 == attrsxp) [
    | true ↦ and_then (decode_one f (tag_of (hdr % 256)) (hdr / 256) s₁) λ (attr, s₂).
        and_then (fetch_word s₂) λ (hdr₂, s₃).
          and_then (decode_one f (tag_of (hdr₂ % 256)) (hdr₂ / 256) s₃)
            λ (res, s₄). attach (attributes attr) res s₄
    | false ↦ decode_one f (tag_of (hdr % 256)) (hdr / 256) s₁
  ]

  pub decode_one : ℕ → Tag → ℕ → Parser Sexp
  decode_one zero tag len s = out_of_fuel
  decode_one (suc f) null len s = ok (nil, s)
  decode_one (suc f) (atom a) len s =
      and_then (fetch (len * elem_size a) s) λ (block, s₁). ok (vec a plain len block, s₁)
  decode_one (suc f) symbol len s = load_symbol len s
  decode_one (suc f) vector len s =
      and_then (load_list f len s) λ (xs, s₁). ok (generic plain xs, s₁)
  decode_one (suc f) strings len s =
      and_then (load_strings f len s) λ (ss, s₁). ok (str plain ss, s₁)
  decode_one (suc f) string len s = and_then (fetch_text len s) λ (t, s₁). ok (chr t, s₁)
  decode_one (suc f) closure len s = and_then (sfs_load f s) λ (v₁, s₁).
      and_then (sfs_load f s₁)
        λ (v₂, s₂). and_then (sfs_load f s₂) λ (v₃, s₃). ok (clo plain v₁ (expr v₂) v₃, s₃)
  decode_one (suc f) (linked k) len s =
      and_then (load_pairs f len s) λ (ps, s₁). ok (linked_list k ps, s₁)
  decode_one (suc f) environment len s = ok (env (load_env len), s)
  decode_one (suc f) (unknown ts) len s = err (unimplemented ts)

  pub load_list : ℕ → ℕ → Parser Sexps
  load_list zero n s = out_of_fuel
  load_list (suc f) zero s = ok (done, s)
  load_list (suc f) (suc n) s =
      and_then (sfs_load f s) λ (x, s₁). and_then (load_list f n s₁) λ (xs, s₂). ok (more x xs, s₂)

  pub load_strings : ℕ → ℕ → Parser (List Bytes)
  load_strings zero n s = out_of_fuel
  load_strings (suc f) zero s = ok ([], s)
  load_strings (suc f) (suc n) s = and_then (sfs_load f s) λ (x, s₁).
      and_then (string_elt x s₁)
        λ (t, s₂). and_then (load_strings f n s₂) λ (ts, s₃). ok (t ∷ ts, s₃)

  pub load_pairs : ℕ → ℕ → Parser Pairs
  load_pairs zero n s = out_of_fuel
  load_pairs (suc f) zero s = ok (end, s)
  load_pairs (suc f) (suc n) s = and_then (sfs_load f s) λ (t, s₁).
      and_then (sfs_load f s₁)
        λ (v, s₂). and_then (load_pairs f n s₂) λ (ps, s₃). ok (pair t v ps, s₃)

-- `sfs_load` on a whole buffer, with a unit of fuel for each byte and one more.
unfoldable pub restore : Bytes → Result (Sexp × Bytes)
restore s = sfs_load (suc (length s)) s
