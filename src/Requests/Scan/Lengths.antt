-- ===== src/Requests/Scan/Lengths.antt =====
-- Every line that is read off the buffer makes the text behind it shorter.
use osrv.Base.{
  ℕ, ◌≤◌, ◌<◌, ◌≡◌, refl, Bool, true, false, ◌||◌, [], ◌∷◌, Option, none, some, ◌==◌, if◌then◌else◌,
  length, arith,
}
use osrv.Base.Bytes.{Bytes}
use osrv.Requests.Scan.{
  Look, nothing, blank, partial, complete, at_end, blank_line, split_line, skip_end, look_line,
  look,
}

length-skip_end : (s : Bytes) → length (skip_end s) ≤ length s
unfolding skip_end
length-skip_end [] = omega arith
length-skip_end (c ∷ []) = ground arith
length-skip_end (c ∷ d ∷ s) = ground arith

-- At CR or LF at least that byte is skipped.
skip_end-lt :
    (c : ℕ) (s : Bytes) → (c == 13 || c == 10) ≡ true → length (skip_end (c ∷ s)) < length (c ∷ s)
unfolding skip_end
skip_end-lt c [] h = ground arith
skip_end-lt c (d ∷ s) h = ground arith

abbrev pub Splits : Bytes → Option (Bytes × Bytes) → Type 0
Splits s none = Unit
Splits s (some (l, r)) = length (skip_end r) < length s

split_step-Splits :
    (c : ℕ) (cs : Bytes) (nul end : Bool) (rest : Option (Bytes × Bytes))
    → (end ≡ true → length (skip_end (c ∷ cs)) < length (c ∷ cs))
    → Splits cs rest
    → Splits (c ∷ cs) (
        if nul
        then none
        else if end
        then some ([], c ∷ cs)
        else elim rest [ none ↦ none | some (l, r) ↦ some (c ∷ l, r) ])
split_step-Splits c cs true end rest at_c ih = tt
split_step-Splits c cs false true rest at_c ih = at_c refl
split_step-Splits c cs false false none at_c ih = tt
split_step-Splits c cs false false (some (l, r)) at_c ih = omega (arith, ih)

split_line-Splits : (s : Bytes) → Splits s (split_line s)
unfolding split_line
split_line-Splits [] = tt
split_line-Splits (c ∷ cs) =
    split_step-Splits c cs (c == 0) (c == 13 || c == 10) (split_line cs) (skip_end-lt c cs)
      (split_line-Splits cs)

-- What `look` leaves to read is shorter than the text.
abbrev pub Shrinks : Bytes → Look → Type 0
Shrinks s nothing = Unit
Shrinks s (blank r) = length r < length s
Shrinks s partial = Unit
Shrinks s (complete l r) = length r < length s

blank_line-shorter : (s rest : Bytes) → blank_line s ≡ some rest → length rest < length s
unfolding blank_line
blank_line-shorter [] rest h = absurd (ground (arith, h))
blank_line-shorter (c ∷ []) rest h = ground arith
blank_line-shorter (c ∷ d ∷ s) rest h = ground arith

look_line-Shrinks : (s : Bytes) (o : Option (Bytes × Bytes)) → Splits s o → Shrinks s (look_line o)
unfolding look_line
look_line-Shrinks s none h = tt
look_line-Shrinks s (some (l, r)) h = h

look_step-Shrinks :
    (s : Bytes) (stop : Bool) (o : Option Bytes)
    → ((rest : Bytes) → o ≡ some rest → length rest < length s)
    → Shrinks s (
        if stop
        then nothing
        else elim o [ none ↦ look_line (split_line s) | some rest ↦ blank rest ])
look_step-Shrinks s true o h = tt
look_step-Shrinks s false none h = look_line-Shrinks s (split_line s) (split_line-Splits s)
look_step-Shrinks s false (some rest) h = h rest refl

pub look-Shrinks : (s : Bytes) → Shrinks s (look s)
unfolding look
look-Shrinks s = look_step-Shrinks s (at_end s) (blank_line s) (blank_line-shorter s)
