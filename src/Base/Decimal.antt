-- ===== src/Base/Decimal.antt =====
-- Decimal numbers: `%lu` of printf and `atol`.
use Prim.Native.Nat.{ℕ, zero, suc, ◌+◌, ◌-◌, ◌*◌, ◌/◌, ◌%◌, ◌^◌, ◌≤◌, ◌<◌}
use mathlib.Core.Path.{◌≡◌, refl, sym, ap, ◌∙◌, subst}
use native.Mathlib.Nat.{pow-suc}
use mathlib.Core.Bool.{Bool, true, false, ◌&&◌}
use mathlib.Core.List.{[], ◌∷◌, ◌++◌}
use native.Mathlib.Omega.{arith}
use mathlib.Core.Logic.{inl, inr}
use osrv.Base.Lists.{All, length}
use osrv.Base.Tests.{ltb, leb, ltb→lt, Bool-cases, if◌then◌else◌}
use osrv.Base.Bytes.{Bytes}

abbrev pub is_digit : ℕ → Bool
is_digit c = leb b'0' c && leb c b'9'

unfoldable pub decimal_go : ℕ → ℕ → Bytes → Bytes
decimal_go zero n acc = acc
decimal_go (suc f) n acc =
    let more = decimal_go f (n / 10) ((b'0' + n % 10) ∷ acc) in
    if ltb n 10 then (b'0' + n) ∷ acc else more

-- `%lu`. A number has no more digits than it counts.
unfoldable pub decimal : ℕ → Bytes
unfolding decimal_go
decimal n = decimal_go (suc n) n []

-- `atol` on a text that begins with a digit.
unfoldable pub atol : ℕ → Bytes → ℕ
atol acc [] = acc
atol acc (c ∷ cs) = let rest = atol (acc * 10 + (c - b'0')) cs in if is_digit c then rest else acc

-- What follows the digits.
unfoldable pub skip_digits : Bytes → Bytes
skip_digits [] = []
skip_digits (c ∷ cs) = let rest = skip_digits cs in if is_digit c then rest else c ∷ cs

digit_lem : (d : ℕ) → d < 10 → is_digit (b'0' + d) ≡ true
digit_lem d h = ground arith

atol-digit :
    (acc d : ℕ) (tail : Bytes) → d < 10 → atol acc ((b'0' + d) ∷ tail) ≡ atol (acc * 10 + d) tail
unfolding atol
atol-digit acc d tail h =
    let value : acc * 10 + (b'0' + d - b'0') ≡ acc * 10 + d = omega arith in
    rw (digit_lem d h, value)

skip_digits-digit :
    (d : ℕ) (tail : Bytes) → d < 10 → skip_digits ((b'0' + d) ∷ tail) ≡ skip_digits tail
unfolding skip_digits
skip_digits-digit d tail h = rw (digit_lem d h)

atol-decimal_go : (f n : ℕ) (tail : Bytes) → n < f → atol 0 (decimal_go f n tail) ≡ atol n tail
unfolding decimal_go
atol-decimal_go zero n tail h = absurd (omega arith)
atol-decimal_go (suc f) n tail h = elim (Bool-cases (ltb n 10)) [
  | inl small ↦
      rw small (atol-digit 0 n tail (ltb→lt n 10 small) ∙ ap (λ t. atol t tail) (omega arith))
  | inr large ↦ rw large (
      atol-decimal_go f (n / 10) ((b'0' + n % 10) ∷ tail) (ground arith)
      ∙ atol-digit (n / 10) (n % 10) tail (omega arith)
      ∙ ap (λ t. atol t tail) (omega arith))
]

skip_digits-decimal_go :
    (f n : ℕ) (tail : Bytes) → n < f → skip_digits (decimal_go f n tail) ≡ skip_digits tail
unfolding decimal_go
skip_digits-decimal_go zero n tail h = absurd (omega arith)
skip_digits-decimal_go (suc f) n tail h = elim (Bool-cases (ltb n 10)) [
  | inl small ↦ rw small (skip_digits-digit n tail (ltb→lt n 10 small))
  | inr large ↦ rw large (
      skip_digits-decimal_go f (n / 10) ((b'0' + n % 10) ∷ tail) (ground arith)
      ∙ skip_digits-digit (n % 10) tail (omega arith))
]

decimal_go-append :
    (f n : ℕ) (acc tail : Bytes) → decimal_go f n (acc ++ tail) ≡ decimal_go f n acc ++ tail
unfolding decimal_go
decimal_go-append zero n acc tail = refl
decimal_go-append (suc f) n acc tail =
    ground (arith, decimal_go-append f (n / 10) ((b'0' + n % 10) ∷ acc) tail)

-- A number that was printed is read back, with anything that is no digit behind it.
pub atol-decimal :
    (n c : ℕ) (tail : Bytes) → is_digit c ≡ false → atol 0 (decimal n ++ c ∷ tail) ≡ n
unfolding decimal atol
atol-decimal n c tail h =
    rw (← decimal_go-append (suc n) n [] (c ∷ tail))
      (atol-decimal_go (suc n) n (c ∷ tail) (omega arith) ∙ rw h)

pub skip_digits-decimal :
    (n c : ℕ) (tail : Bytes) → is_digit c ≡ false → skip_digits (decimal n ++ c ∷ tail) ≡ c ∷ tail
unfolding decimal skip_digits
skip_digits-decimal n c tail h =
    rw (← decimal_go-append (suc n) n [] (c ∷ tail))
      (skip_digits-decimal_go (suc n) n (c ∷ tail) (omega arith) ∙ rw h)

decimal_go-head :
    (f n : ℕ) (acc : Bytes)
    → n < f
    → (c : ℕ) × (cs : Bytes) × (decimal_go f n acc ≡ c ∷ cs) × (is_digit c ≡ true)
unfolding decimal_go
decimal_go-head zero n acc h = absurd (omega arith)
decimal_go-head (suc f) n acc h = elim (Bool-cases (ltb n 10)) [
  | inl small ↦ (b'0' + n, acc, rw small, digit_lem n (ltb→lt n 10 small))
  | inr large ↦ rw large (decimal_go-head f (n / 10) ((b'0' + n % 10) ∷ acc) (ground arith))
]

-- A printed number begins with a digit.
pub decimal-head : (n : ℕ) → (c : ℕ) × (cs : Bytes) × (decimal n ≡ c ∷ cs) × (is_digit c ≡ true)
unfolding decimal
decimal-head n = decimal_go-head (suc n) n [] (omega arith)

-- The same at the end of a text.
pub atol-decimal_end : (n : ℕ) → atol 0 (decimal n) ≡ n
unfolding decimal atol
atol-decimal_end n = atol-decimal_go (suc n) n [] (omega arith)

-- A text that begins with a digit, and has digits alone.
pub record Digits (s : Bytes) : Type 0 where
  pub first : ℕ
  pub others : Bytes
  pub begins : s ≡ first ∷ others
  pub is_first : is_digit first ≡ true
  pub are_others : All (λ c. is_digit c ≡ true) others

decimal_go-Digits :
    (f n : ℕ) (acc : Bytes) → n < f → All (λ c. is_digit c ≡ true) acc → Digits (decimal_go f n acc)
unfolding decimal_go
decimal_go-Digits zero n acc h all = absurd (omega arith)
decimal_go-Digits (suc f) n acc h all = elim (Bool-cases (ltb n 10)) [
  | inl small ↦ rw small (record {
    first = b'0' + n;
    others = acc;
    begins = refl;
    is_first = digit_lem n (ltb→lt n 10 small);
    are_others = all;
  })
  | inr large ↦ rw large (
      decimal_go-Digits f (n / 10) ((b'0' + n % 10) ∷ acc) (ground arith)
        ((digit_lem (n % 10) (omega arith), all)))
]

pub decimal-Digits : (n : ℕ) → Digits (decimal n)
unfolding decimal
decimal-Digits n = decimal_go-Digits (suc n) n [] (omega arith) tt

length-decimal_go :
    (k f n : ℕ) (acc : Bytes)
    → n < f
    → n < 10 ^ suc k
    → length (decimal_go f n acc) ≤ suc k + length acc
unfolding decimal_go
length-decimal_go k zero n acc h s = absurd (omega arith)
length-decimal_go zero (suc f) n acc h s =
    let small : ltb n 10 ≡ true = ground arith in rw small (omega arith)
length-decimal_go (suc k) (suc f) n acc h s = elim (Bool-cases (ltb n 10)) [
  | inl small ↦ rw small (omega arith)
  | inr large ↦
      let shorter =
        length-decimal_go k f (n / 10) ((b'0' + n % 10) ∷ acc) (ground arith)
          (omega (arith, pow-suc 10 (suc k))) in
      rw large (omega (arith, shorter))
]

-- A number below 10 ^ k has at most k digits, for a positive k.
pub length-decimal : (k n : ℕ) → n < 10 ^ suc k → length (decimal n) ≤ suc k
unfolding decimal
length-decimal k n s = omega (arith, length-decimal_go k (suc n) n [] (omega arith) s)

pub decimal-All_digits : (n : ℕ) → All (λ c. is_digit c ≡ true) (decimal n)
decimal-All_digits n =
    let d = decimal-Digits n in
    subst (All (λ c. is_digit c ≡ true)) (sym d.begins) ((d.is_first, d.are_others))
