-- ===== src/Base/Bytes.antt =====
-- Byte sequences: little-endian words and NUL-terminated strings, as the C code lays them out.
use Prim.Native.Nat.{ℕ, zero, suc, ◌+◌, ◌*◌, ◌/◌, ◌%◌, ◌^◌, ◌<◌}
use mathlib.Core.Path.{◌≡◌, refl, ap}
use mathlib.Core.Logic.{◌≢◌}
use mathlib.Core.List.{List, [], ◌∷◌, ◌++◌}
use mathlib.Core.Option.{Option, none, some}
use mathlib.Core.Option
use native.Mathlib.Nat.{pow-suc}
use native.Mathlib.Omega.{arith}
use osrv.Base.Tests.{◌==◌, if◌then◌else◌}
use osrv.Base.Lists.{length, All}

abbrev pub Bytes : Type 0
Bytes = List ℕ

-- The lowest `k` bytes of a word, the lowest byte first.
unfoldable pub le_bytes : ℕ → ℕ → Bytes
le_bytes zero n = []
le_bytes (suc k) n = (n % 256) ∷ le_bytes k (n / 256)

unfoldable pub le_value : Bytes → ℕ
le_value [] = 0
le_value (b ∷ bs) = b + 256 * le_value bs

pub length-le_bytes : (k n : ℕ) → length (le_bytes k n) ≡ k
unfolding le_bytes
length-le_bytes zero n = refl
length-le_bytes (suc k) n = ap suc (length-le_bytes k (n / 256))

pub le_value-le_bytes : (k n : ℕ) → n < 256 ^ k → le_value (le_bytes k n) ≡ n
unfolding le_bytes le_value
le_value-le_bytes zero n h = omega arith
le_value-le_bytes (suc k) n h =
    let smaller : n / 256 < 256 ^ k = omega (arith, pow-suc 256 k) in
    omega (arith, le_value-le_bytes k (n / 256) smaller)

-- The text before the first NUL, if there is one.
unfoldable pub c_string : Bytes → Option Bytes
c_string [] = none
c_string (b ∷ bs) = let rest = c_string bs in if b == 0 then some [] else Option.map (◌∷◌ b) rest

-- No byte of a C string's text is NUL.
abbrev pub IsText : Bytes → Type 0
IsText = All (λ b. b ≢ 0)

pub c_string-append : (s : Bytes) (rest : Bytes) → IsText s → c_string (s ++ 0 ∷ rest) ≡ some s
unfolding c_string
c_string-append [] rest h = refl
c_string-append (b ∷ s) rest h = ground (arith, c_string-append s rest h.1)
