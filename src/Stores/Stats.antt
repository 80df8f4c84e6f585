-- ===== src/Stores/Stats.antt =====
-- src/stat_store.c: counts the calls and the bytes of each type. An array of 256 words is a list.
use osrv.Base.{
  ℕ, zero, suc, ◌+◌, ◌*◌, ◌%◌, ◌^◌, ◌<◌, ◌≡◌, refl, List, [], ◌∷◌, ◌++◌, length, length-append, All,
  arith,
}
use osrv.Base.Bytes.{le_bytes, length-le_bytes}
use osrv.Sfs.Object.{Sexp}
use osrv.Sfs.Calls.{Regular, length-payload, store-Regular}
use osrv.Sfs.RoundTrip.{Restorable}
use osrv.Sfs.Store.{Call, header_word, payload, encode_call, encode_calls, store, encode}

-- The counts `cs` and the lengths `ls`.
pub record Stats : Type 0 where
  pub cs : List ℕ
  pub ls : List ℕ

-- `words[i] += n`.
unfoldable pub bump : ℕ → ℕ → List ℕ → List ℕ
bump i n [] = []
bump zero n (w ∷ ws) = ((w + n) % 2 ^ 64) ∷ ws
bump (suc i) n (w ∷ ws) = w ∷ bump i n ws

unfoldable pub add : Stats → Call → Stats
unfolding bump
add s k = record { cs = bump k.ts 1 s.cs; ls = bump k.ts (k.len * k.el % 2 ^ 64) s.ls }

unfoldable pub add_all : Stats → List Call → Stats
unfolding add
add_all s [] = s
add_all s (k ∷ ks) = add_all (add s k) ks

unfoldable pub zeros : ℕ → List ℕ
zeros zero = []
zeros (suc n) = 0 ∷ zeros n

unfoldable pub stat_store : Sexp → Stats
unfolding add_all zeros
stat_store x = add_all (record { cs = zeros 256; ls = zeros 256 }) (store x)

unfoldable pub sum : List ℕ → ℕ
sum [] = 0
sum (w ∷ ws) = w + sum ws

sum-zeros : (n : ℕ) → sum (zeros n) ≡ 0
unfolding sum zeros
sum-zeros zero = refl
sum-zeros (suc n) = omega (arith, sum-zeros n)

length-zeros : (n : ℕ) → length (zeros n) ≡ n
unfolding zeros
length-zeros zero = refl
length-zeros (suc n) = omega (arith, length-zeros n)

sum-bump :
    (i n : ℕ) (ws : List ℕ) → i < length ws → sum ws + n < 2 ^ 64 → sum (bump i n ws) ≡ sum ws + n
unfolding sum bump
sum-bump i n [] h k = absurd (omega arith)
sum-bump zero n (w ∷ ws) h k = omega arith
sum-bump (suc i) n (w ∷ ws) h k = omega (arith, sum-bump i n ws (omega arith) (omega arith))

length-bump : (i n : ℕ) (ws : List ℕ) → length (bump i n ws) ≡ length ws
unfolding bump
length-bump i n [] = refl
length-bump zero n (w ∷ ws) = refl
length-bump (suc i) n (w ∷ ws) = omega (arith, length-bump i n ws)

-- A call of a type below 256 whose block is as long as the call says.
abbrev pub WellSized : Call → Type 0
WellSized k = (k.ts < 256) × (length (payload k) ≡ k.len * k.el % 2 ^ 64)

add_all-total :
    (s : Stats) (ks : List Call)
    → All WellSized ks
    → length s.cs ≡ 256
    → length s.ls ≡ 256
    → 8 * sum s.cs + sum s.ls + length (encode_calls ks) < 2 ^ 64
    → 8 * sum (add_all s ks).cs + sum (add_all s ks).ls
      ≡ 8 * sum s.cs + sum s.ls + length (encode_calls ks)
unfolding add_all add encode_calls encode_call
add_all-total s [] sized hc hl h = omega arith
add_all-total s (k ∷ ks) sized hc hl h =
    let n = k.len * k.el % 2 ^ 64 in
    let hdr = le_bytes 8 (header_word k.ts k.len) in
    let size = length-append (hdr ++ payload k) (encode_calls ks) in
    let size₁ = length-append hdr (payload k) in
    let eight = length-le_bytes 8 (header_word k.ts k.len) in
    let counted = sum-bump k.ts 1 s.cs (omega arith) (omega (arith, size, size₁, eight)) in
    let summed = sum-bump k.ts n s.ls (omega arith) (omega (arith, size, size₁, eight)) in
    omega (
      arith,
      size,
      size₁,
      eight,
      counted,
      summed,
      add_all-total (add s k) ks sized.1 (omega (arith, length-bump k.ts 1 s.cs))
          (omega (arith, length-bump k.ts n s.ls))
          (omega (arith, size, size₁, eight, counted, summed)),
    )

-- The statistics account for every byte of the encoding: eight for each call that was counted, and
-- the lengths that were added up. This needs blocks as long as their calls say and an encoding
-- below 2^64 bytes.
pub stat_store-length :
    (x : Sexp)
    → All WellSized (store x)
    → length (encode x) < 2 ^ 64
    → 8 * sum (stat_store x).cs + sum (stat_store x).ls ≡ length (encode x)
unfolding stat_store encode
stat_store-length x sized h =
    let empty = sum-zeros 256 in
    let start : Stats = record { cs = zeros 256; ls = zeros 256 } in
    omega (
      arith,
      empty,
      add_all-total start (store x) sized (length-zeros 256) (length-zeros 256)
          (omega (arith, empty)),
    )

-- The statistics of a restorable object whose encoding is below 2^64 bytes account for every byte of
-- it: eight for each call that was counted, and the lengths that were added up.
pub stat_store-length-Restorable :
    (x : Sexp)
    → Restorable x
    → length (encode x) < 2 ^ 64
    → 8 * sum (stat_store x).cs + sum (stat_store x).ls ≡ length (encode x)
stat_store-length-Restorable x r = stat_store-length x (sized (store x) (store-Regular x r))
  where
    sized : (ks : List Call) → All Regular ks → All WellSized ks
    sized [] h = tt
    sized (k ∷ ks) h = (((h.0).0, length-payload k (h.0)), sized ks h.1)
