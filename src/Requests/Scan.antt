-- ===== src/Requests/Scan.antt =====
-- The text in the line buffer of src/http.c: lines, the empty line and the incomplete line.
pub mod Lengths
use osrv.Base.{
  ℕ, zero, suc, Bool, true, false, ◌&&◌, ◌||◌, List, [], ◌∷◌, Option, none, some, ◌==◌,
  if◌then◌else◌,
}
use osrv.Base.Bytes.{Bytes}

-- An empty line at the beginning of the text, and what follows it.
unfoldable pub blank_line : Bytes → Option Bytes
blank_line [] = none
blank_line (c ∷ []) = if c == 10 then some [] else none
blank_line (c ∷ d ∷ s) =
    if c == 10 then some (d ∷ s) else if c == 13 && d == 10 then some s else none

-- A line up to CR or LF and the text from there; none if the text or a NUL comes first.
unfoldable pub split_line : Bytes → Option (Bytes × Bytes)
split_line [] = none
split_line (c ∷ cs) =
    let rest = split_line cs in
    if c == 0
    then none
    else if c == 13 || c == 10
    then some ([], c ∷ cs)
    else elim rest [ none ↦ none | some (l, r) ↦ some (c ∷ l, r) ]

-- `if (*s == '\r') s++; if (*s == '\n') s++`.
unfoldable pub skip_end : Bytes → Bytes
skip_end [] = []
skip_end (c ∷ []) = if c == 13 || c == 10 then [] else c ∷ []
skip_end (c ∷ d ∷ s) =
    if c == 13 then (if d == 10 then s else d ∷ s) else if c == 10 then d ∷ s else c ∷ d ∷ s

-- What stands at the beginning of the text.
pub data Look : Type 0 where
  nothing : Look
  blank : Bytes → Look
  partial : Look
  complete : Bytes → Bytes → Look

unfoldable pub at_end : Bytes → Bool
at_end [] = true
at_end (c ∷ cs) = c == 0

unfoldable pub look_line : Option (Bytes × Bytes) → Look
unfolding skip_end
look_line none = partial
look_line (some (l, r)) = complete l (skip_end r)

unfoldable pub look : Bytes → Look
unfolding at_end blank_line split_line look_line
look s =
    if at_end s
    then nothing
    else elim (blank_line s) [ none ↦ look_line (split_line s) | some rest ↦ blank rest ]
