-- ===== src/Requests/Wire/Splits.antt =====
-- Where a text of src/http.c may be cut so that its lines stay the same.
use osrv.Base.{
  ℕ, ◌≡◌, ◌≢◌, refl, ◌∙◌, ap, Bool, true, false, ◌||◌, [], ◌∷◌, ◌++◌, Option, none, some, ◌==◌,
  if◌then◌else◌, Option-cases, inl, inr, arith,
}
use osrv.Base.Bytes.{Bytes}
use osrv.Requests.Scan.{
  Look, nothing, blank, partial, complete, at_end, blank_line, split_line, skip_end, look_line,
  look,
}

-- A text with no NUL that does not end in CR.
abbrev pub Whole : Bytes → Type 0
Whole [] = Unit
Whole (c ∷ []) = (c ≢ 0) × (c ≢ 13)
Whole (c ∷ d ∷ s) = (c ≢ 0) × Whole (d ∷ s)

-- A line that was found is found in a longer text, and what follows it may be cut as well.
abbrev Cut : Bytes → Bytes → Option (Bytes × Bytes) → Option (Bytes × Bytes) → Type 0
Cut s b none o = Unit
Cut s b (some (l, r)) o = (o ≡ some (l, r ++ b)) × (Whole r × (r ≢ []))

cons-ne : (c : ℕ) (cs : Bytes) → (c ∷ cs) ≢ []
cons-ne c cs e = cc

split_step-Cut :
    (c : ℕ) (cs b : Bytes) (nul end : Bool) (o p : Option (Bytes × Bytes))
    → Whole (c ∷ cs)
    → Cut cs b o p
    → Cut
        (c ∷ cs)
        b
        (if nul
          then none
          else if end
          then some ([], c ∷ cs)
          else elim o [ none ↦ none | some (l, r) ↦ some (c ∷ l, r) ])
        (if nul
          then none
          else if end
          then some ([], c ∷ cs ++ b)
          else elim p [ none ↦ none | some (l, r) ↦ some (c ∷ l, r) ])
split_step-Cut c cs b true end o p w h = tt
split_step-Cut c cs b false true o p w h = (refl, (w, cons-ne c cs))
split_step-Cut c cs b false false none p w h = tt
split_step-Cut c cs b false false (some (l, r)) p w (e, v) = (rw e refl, v)

tail-Whole : (c : ℕ) (cs : Bytes) → Whole (c ∷ cs) → Whole cs
tail-Whole c [] w = tt
tail-Whole c (d ∷ s) (z, w) = w

split_line-Cut : (s b : Bytes) → Whole s → Cut s b (split_line s) (split_line (s ++ b))
unfolding split_line
split_line-Cut [] b w = tt
split_line-Cut (c ∷ cs) b w =
    split_step-Cut c cs b (c == 0) (c == 13 || c == 10) (split_line cs) (split_line (cs ++ b)) w
      (split_line-Cut cs b (tail-Whole c cs w))

skip_end-append : (r b : Bytes) → Whole r → (r ≢ []) → skip_end (r ++ b) ≡ skip_end r ++ b
unfolding skip_end
skip_end-append [] b w n = absurd (n refl)
skip_end-append (c ∷ []) [] w n = ground arith
skip_end-append (c ∷ []) (x ∷ b) (z, k) n = ground arith
skip_end-append (c ∷ d ∷ s) b w n = ground arith

which-Whole : (b : Bool) (s t : Bytes) → Whole s → Whole t → Whole (if b then s else t)
which-Whole true s t v w = v
which-Whole false s t v w = w

skip_end-Whole : (r : Bytes) → Whole r → Whole (skip_end r)
unfolding skip_end
skip_end-Whole [] w = tt
skip_end-Whole (c ∷ []) w = which-Whole (c == 13 || c == 10) [] (c ∷ []) tt w
skip_end-Whole (c ∷ d ∷ s) (z, w) =
    which-Whole (c == 13) (if d == 10 then s else d ∷ s) (if c == 10 then d ∷ s else c ∷ d ∷ s)
      (which-Whole (d == 10) s (d ∷ s) (tail-Whole d s w) w)
      (which-Whole (c == 10) (d ∷ s) (c ∷ d ∷ s) w ((z, w)))

blank_line-append :
    (c : ℕ) (s b : Bytes)
    → Whole (c ∷ s)
    → blank_line (c ∷ s) ≡ none
    → blank_line (c ∷ s ++ b) ≡ none
unfolding blank_line
blank_line-append c [] [] w h = h
blank_line-append c [] (x ∷ b) (z, k) h = ground (arith, h)
blank_line-append c (d ∷ s) b w h = ground (arith, h)

first-nonzero : (c : ℕ) (s : Bytes) → Whole (c ∷ s) → c ≢ 0
first-nonzero c [] w = w.0
first-nonzero c (d ∷ s) w = w.0

-- What stands at the beginning of a text, and of one that goes on with `b`.
abbrev pub LookCut : Bytes → Bytes → Look → Look → Type 0
LookCut s b nothing m = s ≡ []
LookCut s b (blank r) m = Unit
LookCut s b partial m = Unit
LookCut s b (complete l r) m = (m ≡ complete l (r ++ b)) × Whole r

look_line-LookCut :
    (s b : Bytes) (o p : Option (Bytes × Bytes))
    → Cut s b o p
    → LookCut s b (look_line o) (look_line p)
unfolding look_line
look_line-LookCut s b none p h = tt
look_line-LookCut s b (some (l, r)) p (e, (w, n)) =
    (ap look_line e ∙ ap (complete l) (skip_end-append r b w n), skip_end-Whole r w)

pub look-LookCut : (s b : Bytes) → Whole s → LookCut s b (look s) (look (s ++ b))
unfolding look at_end
look-LookCut [] b w = refl
look-LookCut (c ∷ cs) b w =
    let not_end : (c == 0) ≡ false = ground (arith, first-nonzero c cs w) in
    elim (Option-cases (blank_line (c ∷ cs))) [
      | inl e ↦ rw not_end (
          rw (e, look)
            (rw (blank_line-append c cs b w e, look)
              (look_line-LookCut (c ∷ cs) b (split_line (c ∷ cs)) (split_line (c ∷ cs ++ b))
                (split_line-Cut (c ∷ cs) b w))))
      | inr (r, e) ↦ rw not_end (rw (e, look) tt)
    ]
