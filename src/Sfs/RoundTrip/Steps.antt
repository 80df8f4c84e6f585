-- ===== src/Sfs/RoundTrip/Steps.antt =====
-- One call of `store` as the loader meets it: its header, its payload, an object with or without
-- attributes before it.
use osrv.Base.{
  ℕ, suc, ◌+◌, ◌/◌, ◌%◌, ◌^◌, ◌<◌, ◌≡◌, sym as path_sym, ◌∙◌, true, false, List, [], ◌∷◌, ◌++◌,
  append_assoc, none, ltb, ◌==◌, length, length-append, lt→ltb, take-append, drop-append, arith,
}
use osrv.Base.Bytes.{Bytes, le_bytes, length-le_bytes, le_value-le_bytes, c_string-append, IsText}
use osrv.Sfs.Object.{Sexp, Pairs, pair, plain, attrsxp, Cell.list, cells}
use osrv.Sfs.Store.{Call, call, header_word, payload, encode_call, encode_calls}
use osrv.Sfs.Load.{
  Result, ok, and_then, fetch, fetch_word, tag_of, text_of, fetch_text, attach, attributes,
  linked_list, sfs_load, decode_one, load_pairs, dec_buf_size,
}

pub fetch-append : (xs ys : Bytes) (n : ℕ) → n ≡ length xs → fetch n (xs ++ ys) ≡ ok (xs, ys)
unfolding fetch
fetch-append xs ys n h =
    let room : ltb (length (xs ++ ys)) n ≡ false = ground (arith, length-append xs ys) in
    rw (room, take-append xs ys n h, drop-append xs ys n h)

header_word-lt : (ts len : ℕ) → ts < 256 → len < 2 ^ 56 → header_word ts len < 256 ^ 8
unfolding header_word
header_word-lt ts len h k = omega arith

pub header_word-type : (ts len : ℕ) → ts < 256 → len < 2 ^ 56 → header_word ts len % 256 ≡ ts
unfolding header_word
header_word-type ts len h k = omega arith

pub header_word-length : (ts len : ℕ) → ts < 256 → len < 2 ^ 56 → header_word ts len / 256 ≡ len
unfolding header_word
header_word-length ts len h k = omega arith

pub fetch_word-header :
    (ts len : ℕ) (s : Bytes)
    → ts < 256
    → len < 2 ^ 56
    → fetch_word (le_bytes 8 (header_word ts len) ++ s) ≡ ok (header_word ts len, s)
unfolding fetch_word
fetch_word-header ts len s h k =
    let w = header_word ts len in
    rw (
      fetch-append (le_bytes 8 w) s 8 (path_sym (length-le_bytes 8 w)),
      le_value-le_bytes 8 w (header_word-lt ts len h k),
    )

-- The bytes of one call and of what follows it.
pub encode_calls-cons :
    (c : Call) (cs : List Call) (rest : Bytes)
    → encode_calls (c ∷ cs) ++ rest
      ≡ le_bytes 8 (header_word c.ts c.len) ++ (payload c ++ (encode_calls cs ++ rest))
unfolding encode_calls encode_call
encode_calls-cons c cs rest = simp append_assoc

pub length-encode_calls-cons :
    (c : Call) (cs : List Call)
    → length (encode_calls (c ∷ cs)) ≡ 8 + (length (payload c) + length (encode_calls cs))
unfolding encode_calls encode_call
length-encode_calls-cons c cs = simp (length-append, length-le_bytes) (omega arith)

-- `decode_one` at a header word.
abbrev decode_at : ℕ → ℕ → Bytes → Result (Sexp × Bytes)
decode_at f hdr s = decode_one f (tag_of (hdr % 256)) (hdr / 256) s

sfs_load-other :
    (f hdr : ℕ) (s s₁ : Bytes)
    → fetch_word s ≡ ok (hdr, s₁)
    → (hdr % 256 == attrsxp) ≡ false
    → sfs_load (suc f) s ≡ decode_at f hdr s₁
unfolding sfs_load
sfs_load-other f hdr s s₁ e h = rw (e, and_then, h)

sfs_load-attrsxp :
    (f hdr hdr₂ : ℕ) (s s₁ s₂ s₃ : Bytes) (attr : Sexp)
    → fetch_word s ≡ ok (hdr, s₁)
    → (hdr % 256 == attrsxp) ≡ true
    → decode_at f hdr s₁ ≡ ok (attr, s₂)
    → fetch_word s₂ ≡ ok (hdr₂, s₃)
    → sfs_load (suc f) s
      ≡ and_then (decode_at f hdr₂ s₃) (λ (res, s₄). attach (attributes attr) res s₄)
unfolding sfs_load
sfs_load-attrsxp f hdr hdr₂ s s₁ s₂ s₃ attr e h d e₂ = rw (e, and_then, h, d, e₂)

decode_at-header :
    (f ts len : ℕ) (s : Bytes)
    → ts < 256
    → len < 2 ^ 56
    → decode_at f (header_word ts len) s ≡ decode_one f (tag_of ts) len s
decode_at-header f ts len s h k = rw (header_word-type ts len h k, header_word-length ts len h k)

-- An object without attributes.
pub sfs_load-plain :
    (f : ℕ) (c : Call) (cs : List Call) (rest : Bytes)
    → c.ts < 255
    → c.len < 2 ^ 56
    → sfs_load (suc f) (encode_calls (c ∷ cs) ++ rest)
      ≡ decode_one f (tag_of c.ts) c.len (payload c ++ (encode_calls cs ++ rest))
sfs_load-plain f c cs rest h k =
    let w = header_word c.ts c.len in
    let s = payload c ++ (encode_calls cs ++ rest) in
    rw (encode_calls-cons c cs rest) (
      sfs_load-other f w _ s (fetch_word-header c.ts c.len s (omega arith) k)
        (rw (header_word-type c.ts c.len (omega arith) k) (ground arith))
      ∙ decode_at-header f c.ts c.len s (omega arith) k)

decode_one-attrsxp :
    (f n : ℕ) (s s₁ : Bytes) (t v : Sexp) (ps : Pairs)
    → load_pairs f n s ≡ ok (pair t v ps, s₁)
    → decode_one (suc f) (tag_of attrsxp) n s ≡ ok (cells list plain t v ps, s₁)
unfolding tag_of linked_list sfs_load
decode_one-attrsxp f n s s₁ t v ps e = rw (e, and_then)

-- An object behind the attributes `ps`, which are not empty.
pub sfs_load-attached :
    (f n : ℕ) (c : Call) (before cs : List Call) (t v : Sexp) (ps : Pairs) (rest : Bytes)
    → n < 2 ^ 56
    → c.ts < 256
    → c.len < 2 ^ 56
    → ((tail : Bytes) → load_pairs f n (encode_calls before ++ tail) ≡ ok (pair t v ps, tail))
    → sfs_load
        (suc (suc f))
        (encode_calls (call attrsxp 0 n none ∷ before) ++ (encode_calls (c ∷ cs) ++ rest))
      ≡ and_then
          (decode_one (suc f) (tag_of c.ts) c.len (payload c ++ (encode_calls cs ++ rest)))
          (λ (res, s). attach (pair t v ps) res s)
unfolding payload attributes
sfs_load-attached f n c before cs t v ps rest hn h k loaded =
    let s = payload c ++ (encode_calls cs ++ rest) in
    let object = encode_calls (c ∷ cs) ++ rest in
    rw (encode_calls-cons (call attrsxp 0 n none) before object) (
      sfs_load-attrsxp (suc f) (header_word attrsxp n) (header_word c.ts c.len) _
        (encode_calls before ++ object) object s (cells list plain t v ps)
        (fetch_word-header attrsxp n (encode_calls before ++ object) (omega arith) hn)
        (rw (header_word-type attrsxp n (omega arith) hn))
        (decode_at-header (suc f) attrsxp n (encode_calls before ++ object) (omega arith) hn
          ∙ attributes_decoded)
        (rw (encode_calls-cons c cs rest) (fetch_word-header c.ts c.len s h k))
      ∙ rw (decode_at-header (suc f) c.ts c.len s h k))
  where
    attributes_decoded :
        decode_one
          (suc f)
          (tag_of attrsxp)
          n
          (encode_calls before ++ (encode_calls (c ∷ cs) ++ rest))
        ≡ ok (cells list plain t v ps, encode_calls (c ∷ cs) ++ rest)
    attributes_decoded = decode_one-attrsxp f n _ _ t v ps (loaded _)

pub fetch_text-append :
    (s rest : Bytes) (n : ℕ)
    → IsText s
    → n < dec_buf_size
    → n ≡ length s + 1
    → fetch_text n ((s ++ 0 ∷ []) ++ rest) ≡ ok (s, rest)
unfolding fetch_text text_of
fetch_text-append s rest n h k e =
    rw
      (
        lt→ltb n dec_buf_size k,
        fetch-append (s ++ 0 ∷ []) rest n (omega (arith, length-append s (0 ∷ []))),
      )
      (rw (c_string-append s [] h, text_of))
