-- ===== src/Sfs/Total.antt =====
-- `sfs_load` ends on every stream: each object takes eight bytes of it, so that a unit of fuel for
-- each byte and one more is enough, whatever lengths the headers claim.
use osrv.Base.{
  [], ◌∷◌, ℕ, zero, suc, ◌+◌, ◌*◌, ◌/◌, ◌%◌, ◌≤◌, ◌<◌, ◌≢◌, Bool, true, false, ltb, ◌==◌, length,
  length-drop, Bool-cases, Option-cases, inl, inr, arith,
}
use osrv.Base.Bytes.{Bytes, c_string}
use osrv.Sfs.Object.{
  Sexp, vec, str, generic, s4, cells, clo, chr, Pairs, end, pair, Meta, elem_size, attrsxp,
}
use osrv.Sfs.Load.{
  Result, ok, err, out_of_fuel, and_then, fetch, fetch_word, Tag, null, symbol, string, strings,
  vector, closure, environment, atom, linked, unknown, tag_of, dec_buf_size, text_of, fetch_text,
  install, load_symbol, set_meta, attach, attributes, string_elt, sfs_load, decode_one, load_list,
  load_strings, load_pairs, restore,
}

-- The run did not exhaust its fuel, and if it succeeded it has taken `c` bytes of `n`.
data Runs {A : Type 0} (c n : ℕ) : Result (A × Bytes) → Type 0 where
  ran : {a : A} {s : Bytes} → length s + c ≤ n → Runs c n (ok (a, s))
  refused : {e : _} → Runs c n (err e)

Runs-and_then :
    {A B : Type 0} {c c' n : ℕ} {r : Result (A × Bytes)} (k : A × Bytes → Result (B × Bytes))
    → Runs c n r
    → ((a : A) (s : Bytes) → length s + c ≤ n → Runs c' n (k (a, s)))
    → Runs c' n (and_then r k)
Runs-and_then k (ran {a} {s} h) g = g a s h
Runs-and_then k refused g = refused

Runs-le :
    {A : Type 0} {c c' m n : ℕ} {r : Result (A × Bytes)} → Runs c m r → m + c' ≤ n + c → Runs c' n r
Runs-le (ran h) k = ran (omega arith)
Runs-le refused k = refused

Runs-elim :
    {A : Type 0} {c n : ℕ} (b : Bool) {x y : Result (A × Bytes)}
    → Runs c n x
    → Runs c n y
    → Runs c n (elim b [ true ↦ x | false ↦ y ])
Runs-elim true hx hy = hx
Runs-elim false hx hy = hy

Runs-fueled : {A : Type 0} {c n : ℕ} {r : Result (A × Bytes)} → Runs c n r → r ≢ out_of_fuel
Runs-fueled (ran h) = cc
Runs-fueled refused = cc

fetch-Runs : (n : ℕ) (s : Bytes) → Runs n (length s) (fetch n s)
unfolding fetch
fetch-Runs n s = elim (Bool-cases (ltb (length s) n)) [
  | inl short ↦ rw short refused
  | inr enough ↦ rw enough (ran (ground (arith, length-drop n s)))
]

fetch_word-Runs : (s : Bytes) → Runs 8 (length s) (fetch_word s)
unfolding fetch_word
fetch_word-Runs s = Runs-and_then _ (fetch-Runs 8 s) λ b s₁ h. ran h

text_of-Runs : (b s : Bytes) → Runs 0 (length s) (text_of b s)
unfolding text_of
text_of-Runs b s = elim (Option-cases (c_string b)) [
  | inl e ↦ rw (e, text_of) refused
  | inr (t, e) ↦ rw (e, text_of) (ran (omega arith))
]

fetch_text-Runs : (n : ℕ) (s : Bytes) → Runs 0 (length s) (fetch_text n s)
unfolding fetch_text
fetch_text-Runs n s = elim (Bool-cases (ltb n dec_buf_size)) [
  | inl e ↦
      rw (e, fetch_text)
        (Runs-and_then _ (fetch-Runs n s) λ b s₁ h. Runs-le (text_of-Runs b s₁) (omega arith))
  | inr e ↦ rw (e, fetch_text) refused
]

install-Runs : (t s : Bytes) → Runs 0 (length s) (install t s)
unfolding install
install-Runs [] s = refused
install-Runs (c ∷ cs) s = ran (omega arith)

load_symbol-Runs : (n : ℕ) (s : Bytes) → Runs 0 (length s) (load_symbol n s)
unfolding load_symbol
load_symbol-Runs zero s = ran (omega arith)
load_symbol-Runs (suc n) s =
    Runs-and_then _ (fetch_text-Runs (suc n) s) λ t s₁ h. Runs-le (install-Runs t s₁) (omega arith)

set_meta-Runs : (m : Meta) (x : Sexp) (s : Bytes) → Runs 0 (length s) (set_meta m x s)
unfolding set_meta
set_meta-Runs m (vec a k n b) s = ran (omega arith)
set_meta-Runs m (str k ss) s = ran (omega arith)
set_meta-Runs m (generic k xs) s = ran (omega arith)
set_meta-Runs m (s4 k) s = ran (omega arith)
set_meta-Runs m (cells c k t v ps) s = ran (omega arith)
set_meta-Runs m (clo k g b e) s = ran (omega arith)
set_meta-Runs m _ s = refused

attach-Runs : (ps : Pairs) (x : Sexp) (s : Bytes) → Runs 0 (length s) (attach ps x s)
unfolding attach
attach-Runs end x s = ran (omega arith)
attach-Runs (pair t v ps) x s = set_meta-Runs _ x s

string_elt-Runs : (x : Sexp) (s : Bytes) → Runs 0 (length s) (string_elt x s)
unfolding string_elt
string_elt-Runs (chr t) s = ran (omega arith)
string_elt-Runs _ s = refused

mutual
  unfolding sfs_load

  load-Runs : (f : ℕ) (s : Bytes) → length s < f → Runs 8 (length s) (sfs_load f s)
  load-Runs zero s h = absurd (omega arith)
  load-Runs (suc f) s h = Runs-and_then _ (fetch_word-Runs s) λ hdr s₁ h₁.
      Runs-elim (hdr % 256 == attrsxp)
        (Runs-and_then {c = 8} {n = length s} _
          (Runs-le (decode-Runs f (tag_of (hdr % 256)) (hdr / 256) s₁ (omega arith)) (omega arith))
          λ attr s₂ h₂.
            Runs-and_then {c = 16} {n = length s} _ (Runs-le (fetch_word-Runs s₂) (omega arith))
              λ hdr₂ s₃ h₃.
                Runs-and_then {c = 16} {n = length s} _
                  (Runs-le (decode-Runs f (tag_of (hdr₂ % 256)) (hdr₂ / 256) s₃ (omega arith))
                    (omega arith))
                  λ res s₄ h₄. Runs-le (attach-Runs (attributes attr) res s₄) (omega arith))
        (Runs-le (decode-Runs f (tag_of (hdr % 256)) (hdr / 256) s₁ (omega arith)) (omega arith))

  decode-Runs :
      (f : ℕ) (tag : Tag) (len : ℕ) (s : Bytes)
      → length s + 2 < f
      → Runs 0 (length s) (decode_one f tag len s)
  decode-Runs zero tag len s h = absurd (omega arith)
  decode-Runs (suc f) null len s h = ran (omega arith)
  decode-Runs (suc f) (atom a) len s h =
      Runs-and_then _ (fetch-Runs (len * elem_size a) s) λ b s₁ h₁. ran (omega arith)
  decode-Runs (suc f) symbol len s h = load_symbol-Runs len s
  decode-Runs (suc f) vector len s h =
      Runs-and_then _ (list-Runs f len s (omega arith)) λ xs s₁ h₁. ran h₁
  decode-Runs (suc f) strings len s h =
      Runs-and_then _ (strings-Runs f len s (omega arith)) λ xs s₁ h₁. ran h₁
  decode-Runs (suc f) string len s h = Runs-and_then _ (fetch_text-Runs len s) λ xs s₁ h₁. ran h₁
  decode-Runs (suc f) closure len s h = Runs-and_then _ (load-Runs f s (omega arith)) λ v₁ s₁ h₁.
      Runs-and_then {c = 16} {n = length s} _ (Runs-le (load-Runs f s₁ (omega arith)) (omega arith))
        λ v₂ s₂ h₂.
          Runs-and_then {c = 24} {n = length s} _
            (Runs-le (load-Runs f s₂ (omega arith)) (omega arith)) λ v₃ s₃ h₃. ran (omega arith)
  decode-Runs (suc f) (linked k) len s h =
      Runs-and_then _ (pairs-Runs f len s (omega arith)) λ xs s₁ h₁. ran h₁
  decode-Runs (suc f) environment len s h = ran (omega arith)
  decode-Runs (suc f) (unknown ts) len s h = refused

  list-Runs : (f n : ℕ) (s : Bytes) → length s + 1 < f → Runs 0 (length s) (load_list f n s)
  list-Runs zero n s h = absurd (omega arith)
  list-Runs (suc f) zero s h = ran (omega arith)
  list-Runs (suc f) (suc n) s h = Runs-and_then _ (load-Runs f s (omega arith)) λ x s₁ h₁.
      Runs-and_then {c = 8} {n = length s} _
        (Runs-le (list-Runs f n s₁ (omega arith)) (omega arith)) λ xs s₂ h₂. ran (omega arith)

  strings-Runs : (f n : ℕ) (s : Bytes) → length s + 1 < f → Runs 0 (length s) (load_strings f n s)
  strings-Runs zero n s h = absurd (omega arith)
  strings-Runs (suc f) zero s h = ran (omega arith)
  strings-Runs (suc f) (suc n) s h = Runs-and_then _ (load-Runs f s (omega arith)) λ x s₁ h₁.
      Runs-and_then {c = 8} {n = length s} _ (Runs-le (string_elt-Runs x s₁) (omega arith))
        λ t s₂ h₂.
          Runs-and_then {c = 8} {n = length s} _
            (Runs-le (strings-Runs f n s₂ (omega arith)) (omega arith))
            λ ts s₃ h₃. ran (omega arith)

  pairs-Runs : (f n : ℕ) (s : Bytes) → length s + 1 < f → Runs 0 (length s) (load_pairs f n s)
  pairs-Runs zero n s h = absurd (omega arith)
  pairs-Runs (suc f) zero s h = ran (omega arith)
  pairs-Runs (suc f) (suc n) s h = Runs-and_then _ (load-Runs f s (omega arith)) λ t s₁ h₁.
      Runs-and_then {c = 16} {n = length s} _ (Runs-le (load-Runs f s₁ (omega arith)) (omega arith))
        λ v s₂ h₂.
          Runs-and_then {c = 16} {n = length s} _
            (Runs-le (pairs-Runs f n s₂ (omega arith)) (omega arith)) λ ps s₃ h₃. ran (omega arith)

-- The loader returns an object or an error for every buffer of bytes; it never runs on.
pub restore-ne-out_of_fuel : (s : Bytes) → restore s ≢ out_of_fuel
unfolding restore
restore-ne-out_of_fuel s = Runs-fueled (load-Runs (suc (length s)) s (omega arith))
