-- ===== src/Sfs/RoundTrip/Refused.antt =====
-- Objects that `store` writes and `sfs_load` does not read back: raw vectors and S4 objects, which
-- `decode_one` has no case for, and texts that do not fit its scratch buffer.
use osrv.Base.{
  ℕ, zero, suc, ◌+◌, ◌^◌, ◌≤◌, ◌<◌, ◌≡◌, refl, ◌∙◌, List, [], ◌∷◌, ◌++◌, append-nil, none, some,
  ltb, false, length, arith,
}
use osrv.Base.Bytes.{Bytes}
use osrv.Sfs.Object.{raw, vec, str, s4, Meta, plain}
use osrv.Sfs.Store.{Call, call, store, store_attrib, store_strings, payload, encode_calls, encode}
use osrv.Sfs.Load.{
  err, unimplemented, undefined, fetch_text, tag_of, dec_buf_size, sfs_load, decode_one,
  load_strings, restore,
}
use osrv.Sfs.RoundTrip.Canon.{RestorableMeta}
use osrv.Sfs.RoundTrip.Steps.{sfs_load-plain, length-encode_calls-cons}
use osrv.Sfs.RoundTrip.Parts.{length-encode_object}
use osrv.Sfs.RoundTrip.Loads.{meta-Loads}

-- A whole buffer is read with fuel for at least the next four calls.
spend :
    (P : ℕ → Type 0) (n : ℕ)
    → 8 ≤ n
    → ((f : ℕ) → n ≡ suc (suc (suc (suc f))) → P (suc (suc (suc (suc f)))))
    → P n
spend P zero h k = absurd (omega arith)
spend P (suc zero) h k = absurd (omega arith)
spend P (suc (suc zero)) h k = absurd (omega arith)
spend P (suc (suc (suc zero))) h k = absurd (omega arith)
spend P (suc (suc (suc (suc f)))) h k = k f refl

-- A type that `decode_one` does not name is refused, behind any attributes that can be read.
refused :
    (m : Meta) (c : Call) (ts : ℕ)
    → RestorableMeta m
    → c.ts < 255
    → c.len < 2 ^ 56
    → ((f : ℕ) (s : Bytes) → decode_one (suc f) (tag_of c.ts) c.len s ≡ err (unimplemented ts))
    → restore (encode_calls (store_attrib m ++ c ∷ [])) ≡ err (unimplemented ts)
unfolding restore
refused m c ts r h k no_case =
    let cs = store_attrib m ++ c ∷ [] in
    let size = length-encode_object (store_attrib m) [] c in
    spend (λ n. sfs_load (suc n) (encode_calls cs) ≡ err (unimplemented ts))
      (length (encode_calls cs)) (omega (arith, size))
      λ f e.
        let loaded = meta-Loads m r [] (suc (suc (suc (suc f)))) c [] h k (omega (arith, size)) in
        (rw append-nil at loaded) ∙ rw (no_case (suc (suc (suc f))) _)

-- A raw vector of fewer than 2^56 bytes, with no attributes or attributes that can be restored,
-- cannot be restored from what was stored of it.
pub restore-encode-raw :
    (m : Meta) (n : ℕ) (b : Bytes)
    → RestorableMeta m
    → n < 2 ^ 56
    → restore (encode (vec raw m n b)) ≡ err (unimplemented 24)
unfolding encode store
restore-encode-raw m n b r few = refused m (call 24 1 n (some b)) 24 r (omega arith) few no_case
  where
    no_case : (f : ℕ) (s : Bytes) → decode_one (suc f) (tag_of 24) n s ≡ err (unimplemented 24)
    no_case f s = unfold tag_of sfs_load in refl

-- An S4 object with no attributes or attributes that can be restored cannot be restored from what
-- was stored of it.
pub restore-encode-s4 :
    (m : Meta) → RestorableMeta m → restore (encode (s4 m)) ≡ err (unimplemented 25)
unfolding encode store
restore-encode-s4 m r = refused m (call 25 0 0 none) 25 r (omega arith) (omega arith) no_case
  where
    no_case : (f : ℕ) (s : Bytes) → decode_one (suc f) (tag_of 25) 0 s ≡ err (unimplemented 25)
    no_case f s = unfold tag_of sfs_load in refl

fetch_text-long : (n : ℕ) (s : Bytes) → dec_buf_size ≤ n → fetch_text n s ≡ err undefined
unfolding fetch_text
fetch_text-long n s h = let big : ltb n dec_buf_size ≡ false = ground arith in rw big

decode-long :
    (f n : ℕ) (s : Bytes) → dec_buf_size ≤ n → decode_one (suc f) (tag_of 9) n s ≡ err undefined
unfolding tag_of sfs_load
decode-long f n s h = rw (fetch_text-long n s h)

strings-long :
    (f n : ℕ) (s rest : Bytes) (cs : List Call)
    → dec_buf_size ≤ length s + 1
    → length s + 1 < 2 ^ 56
    → load_strings
        (suc (suc (suc f)))
        (suc n)
        (encode_calls (call 9 1 (length s + 1) (some (s ++ 0 ∷ [])) ∷ cs) ++ rest)
      ≡ err undefined
unfolding sfs_load
strings-long f n s rest cs h k = rw (
  sfs_load-plain (suc f) (call 9 1 (length s + 1) (some (s ++ 0 ∷ []))) cs rest (omega arith) k,
  decode-long f (length s + 1) _ h,
)

decode_strings-long :
    (f n : ℕ) (s rest : Bytes) (cs : List Call)
    → dec_buf_size ≤ length s + 1
    → length s + 1 < 2 ^ 56
    → decode_one
        (suc (suc (suc (suc f))))
        (tag_of 16)
        (suc n)
        (encode_calls (call 9 1 (length s + 1) (some (s ++ 0 ∷ [])) ∷ cs) ++ rest)
      ≡ err undefined
unfolding sfs_load tag_of
decode_strings-long f n s rest cs h k = rw (strings-long f n s rest cs h k)

-- A character vector without attributes whose first string has 8191 bytes or more is restored from
-- memory that was never filled. The length of that string and the length of the vector fit the 56
-- bits of a header.
pub restore-encode-long :
    (s : Bytes) (ss : List Bytes)
    → dec_buf_size ≤ length s + 1
    → length s + 1 < 2 ^ 56
    → length ss + 1 < 2 ^ 56
    → restore (encode (str plain (s ∷ ss))) ≡ err undefined
unfolding encode store restore store_strings
restore-encode-long s ss h k few =
    let vector = call 16 0 (suc (length ss)) none in
    let cs = call 9 1 (length s + 1) (some (s ++ 0 ∷ [])) ∷ store_strings ss in
    spend (λ n. sfs_load (suc n) (encode_calls (vector ∷ cs)) ≡ err undefined)
      (length (encode_calls (vector ∷ cs))) (omega (arith, length-encode_calls-cons vector cs))
      λ f e.
        let loaded =
          sfs_load-plain (suc (suc (suc (suc f)))) vector cs [] (omega arith) (omega arith) in
        (rw append-nil at loaded)
        ∙ rw no_payload (decode_strings-long f (length ss) s [] (store_strings ss) h k)
  where
    no_payload : payload (call 16 0 (suc (length ss)) none) ≡ []
    no_payload = unfold payload in refl
