-- ===== src/Tests/Objects.antt =====
-- Serialisation of a small object.
use osrv.Base.{
  ℕ, zero, suc, ◌+◌, ◌*◌, ◌^◌, ◌≤◌, ◌<◌, ◌≡◌, ◌≢◌, refl, List, [], ◌∷◌, ◌++◌, length, length-append,
  take, All, arith,
}
use osrv.Base.Bytes.{Bytes, IsText}
use osrv.Sfs.Object.{int, Sexp, sym, vec, str, generic, done, more, plain}
use osrv.Sfs.Store.{store, encode, encode_calls, payload, encode_call}
use osrv.Sfs.Load.{ok, err, undefined, out_of_fuel, sfs_load, restore}
use osrv.Sfs.RoundTrip.{Restorable, canon}
use osrv.Sfs.RoundTrip.{sfs_load-encode}
use osrv.Sfs.RoundTrip.{restore-encode-long}
use osrv.Sfs.Total.{restore-ne-out_of_fuel}
use osrv.Stores.Memory.{Buffer, collapse_buf, mem_store}
use osrv.Stores.Memory.Collapse.{collapse_buf-last, restore-mem_store}

abbrev a_name : Bytes
a_name = b'a' ∷ []

-- list(quote(a), 1L)
abbrev pub small : Sexp
small = generic plain (more (sym a_name) (more (vec int plain 1 (1 ∷ 0 ∷ 0 ∷ 0 ∷ [])) done))

pub small-Restorable : Restorable small
unfolding Restorable
small-Restorable =
    (tt, (((omega arith, tt), omega arith), ((tt, refl, omega arith), tt)), omega arith)

small-length : length (encode small) ≡ 30
unfolding encode encode_calls store encode_call payload osrv.Base.Bytes.le_bytes
small-length = refl

sfs_load-encode_example : sfs_load 60 (encode small ++ 7 ∷ []) ≡ ok (canon small, 7 ∷ [])
sfs_load-encode_example =
    sfs_load-encode small (7 ∷ []) 60 small-Restorable (omega (arith, small-length))

restore-ne-out_of_fuel_example : restore (19 ∷ 1 ∷ []) ≢ out_of_fuel
restore-ne-out_of_fuel_example = restore-ne-out_of_fuel (19 ∷ 1 ∷ [])

-- A text of 8192 letters.
abbrev letters : ℕ → Bytes
letters zero = []
letters (suc n) = b'x' ∷ letters n

length-letters : (n : ℕ) → length (letters n) ≡ n
length-letters zero = refl
length-letters (suc n) = omega (arith, length-letters n)

restore-encode-long_example : restore (encode (str plain (letters 8192 ∷ []))) ≡ err undefined
restore-encode-long_example =
    restore-encode-long (letters 8192) [] (omega (arith, length-letters 8192))
      (omega (arith, length-letters 8192)) (omega arith)

abbrev zeroed : ℕ → Bytes
zeroed zero = []
zeroed (suc n) = 0 ∷ zeroed n

length-zeroed : (n : ℕ) → length (zeroed n) ≡ n
length-zeroed zero = refl
length-zeroed (suc n) = omega (arith, length-zeroed n)

restore-mem_store_example : restore (mem_store zeroed small) ≡ ok (canon small, [])
restore-mem_store_example =
    restore-mem_store zeroed small length-zeroed (omega (arith, small-length)) small-Restorable

abbrev first : Buffer
first = record { cap = 4; d = 1 ∷ 2 ∷ 3 ∷ 4 ∷ [] }

abbrev second : Buffer
second = record { cap = 4; d = 5 ∷ 6 ∷ [] }

collapse_buf-last_example : take 2 (collapse_buf zeroed (first ∷ second ∷ [])) ≡ 5 ∷ 6 ∷ []
collapse_buf-last_example = collapse_buf-last zeroed (first ∷ []) second
