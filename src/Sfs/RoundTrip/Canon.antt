-- ===== src/Sfs/RoundTrip/Canon.antt =====
-- The objects that src/sfs.c can restore, and what of them a round trip keeps.
use osrv.Base.{suc, ◌+◌, ◌*◌, ◌^◌, ◌<◌, ◌≡◌, refl, ap, length, All}
use osrv.Base.Bytes.{Bytes, IsText}
use osrv.Sfs.Object.{
  raw, Env, global, empty, base, custom, Sexp, nil, sym, vec, str, generic, s4, cells, clo, env,
  chr, other, Sexps, done, more, Pairs, end, pair, Meta, header, Body, expr, byte_code, plain,
  elem_size, count, count_pairs, has_class,
}
use osrv.Sfs.Load.{dec_buf_size}

abbrev pub canon_env : Env → Env
canon_env (custom e) = base
canon_env global = global
canon_env empty = empty
canon_env base = base

-- Lists and closures lose their attributes, byte code becomes the expression that it was compiled
-- from, an environment other than the three known ones becomes the base environment, and the OBJECT
-- bit is computed anew. What an object of the model does not hold is lost as well: NA_STRING comes
-- back as the string NA, encodings are gone, and the cells of a list or a call are those that
-- `decode_one` makes.
unfoldable mutual
  pub canon : Sexp → Sexp
  canon nil = nil
  canon (sym p) = sym p
  canon (vec a m n b) = vec a (canon_meta m) n b
  canon (str m ss) = str (canon_meta m) ss
  canon (generic m xs) = generic (canon_meta m) (canon_all xs)
  canon (s4 m) = s4 m
  canon (cells k m t v ps) = cells k plain (canon t) (canon v) (canon_pairs ps)
  canon (clo m f b e) = clo plain (canon f) (expr (canon_body b)) (canon e)
  canon (env e) = env (canon_env e)
  canon (chr s) = chr s
  canon (other t) = other t

  pub canon_all : Sexps → Sexps
  canon_all done = done
  canon_all (more x xs) = more (canon x) (canon_all xs)

  pub canon_pairs : Pairs → Pairs
  canon_pairs end = end
  canon_pairs (pair t v ps) = pair (canon t) (canon v) (canon_pairs ps)

  pub canon_meta : Meta → Meta
  canon_meta (header o end) = plain
  canon_meta (header o (pair t v ps)) =
      let qs = pair (canon t) (canon v) (canon_pairs ps) in header (has_class qs) qs

  pub canon_body : Body → Sexp
  canon_body (expr x) = canon x
  canon_body (byte_code x) = canon x

-- A text that fits the scratch buffer of `decode_one` with its NUL.
abbrev pub Fits : Bytes → Type 0
Fits s = IsText s × (length s + 1 < dec_buf_size)

-- The lengths fit the 56 bits of a header, and every type is one that `decode_one` implements.
unfoldable mutual
  pub Restorable : Sexp → Type 0
  Restorable nil = Unit
  Restorable (sym p) = Fits p
  Restorable (vec raw m n b) = ⊥
  Restorable (vec a m n b) = RestorableMeta m × (length b ≡ n * elem_size a) × (n < 2 ^ 56)
  Restorable (str m ss) = RestorableMeta m × All Fits ss × (length ss < 2 ^ 56)
  Restorable (generic m xs) = RestorableMeta m × RestorableAll xs × (count xs < 2 ^ 56)
  Restorable (s4 m) = ⊥
  Restorable (cells k m t v ps) =
      Restorable t × Restorable v × RestorablePairs ps × (suc (count_pairs ps) < 2 ^ 56)
  Restorable (clo m f b e) = Restorable f × RestorableBody b × Restorable e
  Restorable (env e) = Unit
  Restorable (chr s) = ⊥
  Restorable (other t) = ⊥

  pub RestorableAll : Sexps → Type 0
  RestorableAll done = Unit
  RestorableAll (more x xs) = Restorable x × RestorableAll xs

  pub RestorablePairs : Pairs → Type 0
  RestorablePairs end = Unit
  RestorablePairs (pair t v ps) = Restorable t × Restorable v × RestorablePairs ps

  pub RestorableMeta : Meta → Type 0
  RestorableMeta (header o end) = Unit
  RestorableMeta (header o (pair t v ps)) =
      Restorable t × Restorable v × RestorablePairs ps × (suc (count_pairs ps) < 2 ^ 56)

  pub RestorableBody : Body → Type 0
  RestorableBody (expr x) = Restorable x
  RestorableBody (byte_code x) = Restorable x

-- Nothing that a round trip drops: no attributes on lists and closures, no byte code, no environment
-- of its own, and an OBJECT bit that is set exactly if there is a class attribute.
unfoldable mutual
  pub Faithful : Sexp → Type 0
  Faithful (vec a m n b) = FaithfulMeta m
  Faithful (str m ss) = FaithfulMeta m
  Faithful (generic m xs) = FaithfulMeta m × FaithfulAll xs
  Faithful (cells k m t v ps) = (m ≡ plain) × Faithful t × Faithful v × FaithfulPairs ps
  Faithful (clo m f b e) = (m ≡ plain) × Faithful f × FaithfulBody b × Faithful e
  Faithful (env e) = canon_env e ≡ e
  Faithful _ = Unit

  pub FaithfulAll : Sexps → Type 0
  FaithfulAll done = Unit
  FaithfulAll (more x xs) = Faithful x × FaithfulAll xs

  pub FaithfulPairs : Pairs → Type 0
  FaithfulPairs end = Unit
  FaithfulPairs (pair t v ps) = Faithful t × Faithful v × FaithfulPairs ps

  pub FaithfulMeta : Meta → Type 0
  FaithfulMeta (header o ps) = FaithfulPairs ps × (o ≡ has_class ps)

  pub FaithfulBody : Body → Type 0
  FaithfulBody (expr x) = Faithful x
  FaithfulBody (byte_code x) = ⊥

mutual
  unfolding canon Faithful has_class

  canon_id : (x : Sexp) → Faithful x → canon x ≡ x
  canon_id nil h = refl
  canon_id (sym p) h = refl
  canon_id (vec a m n b) h = ap (λ k. vec a k n b) (canon_meta_id m h)
  canon_id (str m ss) h = ap (λ k. str k ss) (canon_meta_id m h)
  canon_id (generic m xs) h = cc (canon_meta_id m h.0, canon_all_id xs h.1)
  canon_id (s4 m) h = refl
  canon_id (cells k m t v ps) h = cc (h.0, canon_id t h.1, canon_id v h.2, canon_pairs_id ps h.3)
  canon_id (clo m f b e) h = cc (h.0, canon_id f h.1, canon_body_id b h.2, canon_id e h.3)
  canon_id (env e) h = ap env h
  canon_id (chr s) h = refl
  canon_id (other t) h = refl

  canon_all_id : (xs : Sexps) → FaithfulAll xs → canon_all xs ≡ xs
  canon_all_id done h = refl
  canon_all_id (more x xs) h = cc (canon_id x h.0, canon_all_id xs h.1)

  canon_pairs_id : (ps : Pairs) → FaithfulPairs ps → canon_pairs ps ≡ ps
  canon_pairs_id end h = refl
  canon_pairs_id (pair t v ps) h = cc (canon_id t h.0, canon_id v h.1, canon_pairs_id ps h.2)

  canon_meta_id : (m : Meta) → FaithfulMeta m → canon_meta m ≡ m
  canon_meta_id (header o end) h = cc (h.1)
  canon_meta_id (header o (pair t v ps)) h =
      cc (canon_id t (h.0).0, canon_id v (h.0).1, canon_pairs_id ps (h.0).2, h.1)

  canon_body_id : (b : Body) → FaithfulBody b → expr (canon_body b) ≡ b
  canon_body_id (expr x) h = ap expr (canon_id x h)
  canon_body_id (byte_code x) h = absurd h

pub canon-Faithful : (x : Sexp) → Faithful x → canon x ≡ x
canon-Faithful x h = canon_id x h
