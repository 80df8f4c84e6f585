-- ===== src/Requests/Headers/Bounds.antt =====
-- The header buffers of src/http.c hold no more than they have room for, and record every line.
use osrv.Base.{
  ℕ, zero, suc, ◌+◌, ◌-◌, ◌*◌, ◌≤◌, ◌<◌, ◌≡◌, refl, ap, sym, ◌∙◌, List, [], ◌∷◌, ◌++◌, append_assoc,
  append-nil, ltb, leb, length, take, drop, All, length-append, length-take, length-drop,
  take-append-drop, Bool-cases, ◌⊎◌, inl, inr, arith, false, if◌then◌else◌,
}
use osrv.Base.Bytes.{Bytes}
use osrv.Base.Text.{codes}
use osrv.Requests.{HeaderBuf}
use osrv.Requests.Headers.{
  collected, past_buffer, first_size, alloc_buffer, append, grow, add_line, record_line, add_method,
  record_method, recorded, collect_buffers,
}

abbrev pub Fits : HeaderBuf → Type 0
Fits h = length h.text ≤ h.size

-- What the buffers hold does not fit the first one.
abbrev pub IsOverrun : List HeaderBuf → Type 0
IsOverrun hs = first_size hs < length (recorded hs)

-- The cases of `collect_buffers`.
pub collect_buffers-cases :
    (fresh : ℕ → Bytes) (h : HeaderBuf) (older : List HeaderBuf)
    → ((length (recorded (h ∷ older)) ≤ first_size (h ∷ older))
        × (collect_buffers fresh (h ∷ older)
            ≡ collected
                (record {
                  length = length (recorded (h ∷ older));
                  bytes = fresh (length (recorded (h ∷ older)));
                })
                (recorded (h ∷ older))))
      ⊎ (IsOverrun (h ∷ older) × (collect_buffers fresh (h ∷ older) ≡ past_buffer))
unfolding collect_buffers
collect_buffers-cases fresh h older =
    elim (Bool-cases (leb (length (recorded (h ∷ older))) (first_size (h ∷ older)))) [
      | inl e ↦ inl (ground arith, rw (e, collect_buffers) refl)
      | inr e ↦ inr (ground arith, rw (e, collect_buffers) refl)
    ]

-- Enough doublings are made.
grow-lt : (f n needs : ℕ) → n < f + needs → 0 < needs → n < grow f n needs
unfolding grow
grow-lt zero n needs h p = omega arith
grow-lt (suc f) n needs h p = ground (arith, grow-lt f n (2 * needs) (omega arith) (omega arith))

-- The buffers of a line whose beginning fills the last buffer.
split-All :
    (line : Bytes) (h : HeaderBuf) (older : List HeaderBuf)
    → Fits h
    → All Fits older
    → h.size < length h.text + length line + 1
    → All Fits (
        append (drop (h.size - length h.text) line ++ 10 ∷ []) (
          alloc_buffer (
            grow
              (length line + 1 - (h.size - length h.text))
              (length line + 1 - (h.size - length h.text))
              2048))
        ∷ append (take (h.size - length h.text) line) h
        ∷ older)
unfolding alloc_buffer
split-All line h older fit fits over =
    let fits_in : ℕ = h.size - length h.text in
    let n : ℕ = length line + 1 - (h.size - length h.text) in
    (
      omega (
        arith,
        length-append (drop (h.size - length h.text) line) (10 ∷ []),
        length-drop (h.size - length h.text) line,
        grow-lt (length line + 1 - (h.size - length h.text))
            (length line + 1 - (h.size - length h.text)) 2048 (omega arith) (omega arith),
      ),
      (
        omega (
          arith,
          length-append h.text (take (h.size - length h.text) line),
          length-take (h.size - length h.text) line,
        ),
        fits,
      ),
    )

add_line-All :
    (line : Bytes) (h : HeaderBuf) (older : List HeaderBuf)
    → Fits h
    → All Fits older
    → All Fits (add_line line h older)
unfolding add_line
add_line-All line h older fit fits =
    elim (Bool-cases (ltb h.size (length h.text + length line + 1))) [
      | inl e ↦ rw e (split-All line h older fit fits (ground arith))
      | inr e ↦ rw e (
          (
            ground (arith, length-append h.text (line ++ 10 ∷ []), length-append line (10 ∷ [])),
            fits,
          ))
    ]

pub record_line-All :
    (line : Bytes) (hs : List HeaderBuf) → All Fits hs → All Fits (record_line line hs)
unfolding record_line alloc_buffer
record_line-All [] [] fits = (omega arith, tt)
record_line-All [] (h ∷ older) fits = fits
record_line-All (c ∷ cs) [] fits = add_line-All (c ∷ cs) (alloc_buffer 1024) [] (omega arith) tt
record_line-All (c ∷ cs) (h ∷ older) (fit, fits) = add_line-All (c ∷ cs) h older fit fits

add_method-All :
    (name : Bytes) (h : HeaderBuf) (older : List HeaderBuf)
    → Fits h
    → All Fits older
    → All Fits (add_method name h older).1
unfolding add_method
add_method-All name h older fit fits =
    elim (Bool-cases (leb (18 + length name) (h.size - length h.text))) [
      | inl e ↦ rw e (
          (
            ground (
              arith,
              length-append h.text (codes "Request-Method: " ++ (name ++ 10 ∷ [])),
              length-append name (10 ∷ []),
            ),
            fits,
          ))
      | inr e ↦ rw e ((fit, fits))
    ]

pub record_method-All :
    (name : Bytes) (hs : List HeaderBuf) → All Fits hs → All Fits (record_method name hs).1
unfolding record_method alloc_buffer
record_method-All name [] fits = add_method-All name (alloc_buffer 1024) [] (omega arith) tt
record_method-All name (h ∷ older) (fit, fits) = add_method-All name h older fit fits

-- A line in two parts, at the end of a text.
join_parts :
    (a text first last : Bytes)
    → (a ++ (text ++ first)) ++ (last ++ 10 ∷ []) ≡ (a ++ text) ++ ((first ++ last) ++ 10 ∷ [])
join_parts a text first last = simp append_assoc

add_line-recorded :
    (line : Bytes) (h : HeaderBuf) (older : List HeaderBuf)
    → recorded (add_line line h older) ≡ recorded (h ∷ older) ++ (line ++ 10 ∷ [])
unfolding add_line recorded alloc_buffer
add_line-recorded line h older = elim (Bool-cases (ltb h.size (length h.text + length line + 1))) [
  | inl e ↦ rw e (
      join_parts (recorded older) h.text (take (h.size - length h.text) line)
        (drop (h.size - length h.text) line)
      ∙ ap (λ (l : Bytes). (recorded older ++ h.text) ++ (l ++ 10 ∷ []))
          (take-append-drop (h.size - length h.text) line))
  | inr e ↦ rw e (sym (append_assoc (recorded older) h.text (line ++ 10 ∷ [])))
]

-- The record of several header lines, in the order in which they arrive.
unfoldable pub record_lines : List Bytes → List HeaderBuf → List HeaderBuf
record_lines [] hs = hs
record_lines (line ∷ lines) hs = record_lines lines (record_line line hs)

-- The text of the lines, each with a newline; an empty line leaves no record.
unfoldable pub lines_text : List Bytes → Bytes
lines_text [] = []
lines_text ([] ∷ lines) = lines_text lines
lines_text ((c ∷ cs) ∷ lines) = (c ∷ cs ++ 10 ∷ []) ++ lines_text lines

record_empty : (hs : List HeaderBuf) → recorded (record_line [] hs) ≡ recorded hs
unfolding record_line recorded alloc_buffer
record_empty [] = refl
record_empty (h ∷ older) = refl

record_line-recorded :
    (c : ℕ) (cs : Bytes) (hs : List HeaderBuf)
    → recorded (record_line (c ∷ cs) hs) ≡ recorded hs ++ (c ∷ cs ++ 10 ∷ [])
unfolding record_line recorded alloc_buffer
record_line-recorded c cs [] = add_line-recorded (c ∷ cs) (alloc_buffer 1024) []
record_line-recorded c cs (h ∷ older) = add_line-recorded (c ∷ cs) h older

-- From buffers that are not overfull: however header lines are split between the buffers, no
-- buffer is overfull and together they hold, behind what was there, the text of all the lines in
-- order.
pub record_lines-recorded :
    (lines : List Bytes) (hs : List HeaderBuf)
    → All Fits hs
    → All Fits (record_lines lines hs)
      × (recorded (record_lines lines hs) ≡ recorded hs ++ lines_text lines)
unfolding record_lines lines_text
record_lines-recorded [] hs fits = (fits, sym (append-nil (recorded hs)))
record_lines-recorded ([] ∷ lines) hs fits =
    let ih = record_lines-recorded lines (record_line [] hs) (record_line-All [] hs fits) in
    (ih.0, ih.1 ∙ ap (λ (t : Bytes). t ++ lines_text lines) (record_empty hs))
record_lines-recorded ((c ∷ cs) ∷ lines) hs fits =
    let ih =
      record_lines-recorded lines (record_line (c ∷ cs) hs) (record_line-All (c ∷ cs) hs fits) in
    (
      ih.0,
      ih.1
          ∙ ap (λ (t : Bytes). t ++ lines_text lines) (record_line-recorded c cs hs)
          ∙ append_assoc (recorded hs) (c ∷ cs ++ 10 ∷ []) (lines_text lines),
    )

-- A line that fits the buffer goes to its end.
add_line-fits :
    (line : Bytes) (h : HeaderBuf)
    → length h.text + (length line + 1) ≤ h.size
    → add_line line h [] ≡ append (line ++ 10 ∷ []) h ∷ []
unfolding add_line
add_line-fits line h fits =
    let no : ltb h.size (length h.text + length line + 1) ≡ false = ground arith in
    rw (no, add_line) refl

-- Lines that all fit one buffer go to it.
pub record_lines-fits :
    (lines : List Bytes) (h : HeaderBuf)
    → length h.text + length (lines_text lines) ≤ h.size
    → record_lines lines (h ∷ []) ≡ append (lines_text lines) h ∷ []
unfolding record_lines lines_text record_line
record_lines-fits [] h fits = ap (λ t. record h { text = t } ∷ []) (sym (append-nil h.text))
record_lines-fits ([] ∷ lines) h fits = record_lines-fits lines h fits
record_lines-fits ((c ∷ cs) ∷ lines) h fits =
    let line : Bytes = c ∷ cs ++ 10 ∷ [] in
    let all = length-append line (lines_text lines) in
    let here = length-append h.text line in
    let one = length-append (c ∷ cs) (10 ∷ []) in
    ap (record_lines lines) (add_line-fits (c ∷ cs) h (omega (arith, all, one)))
    ∙ (record_lines-fits lines (append line h) (omega (arith, all, here))
        ∙ ap (λ t. record h { text = t } ∷ []) (append_assoc h.text line (lines_text lines)))

first_size-append :
    (a : Bytes) (h : HeaderBuf) (older : List HeaderBuf)
    → first_size (append a h ∷ older) ≡ first_size (h ∷ older)
unfolding first_size
first_size-append a h [] = refl
first_size-append a h (d ∷ older) = refl

first_size-add_line :
    (line : Bytes) (h : HeaderBuf) (older : List HeaderBuf)
    → first_size (add_line line h older) ≡ first_size (h ∷ older)
unfolding add_line first_size
first_size-add_line line h older =
    elim (Bool-cases (ltb h.size (length h.text + length line + 1))) [
      | inl e ↦ rw (e, add_line) (first_size-append (take (h.size - length h.text) line) h older)
      | inr e ↦ rw (e, add_line) (first_size-append (line ++ 10 ∷ []) h older)
    ]

first_size-line :
    (line : Bytes) (h : HeaderBuf) (older : List HeaderBuf)
    → first_size (record_line line (h ∷ older)) ≡ first_size (h ∷ older)
unfolding record_line
first_size-line [] h older = refl
first_size-line (c ∷ cs) h older = first_size-add_line (c ∷ cs) h older

line-nonempty :
    (line : Bytes) (h : HeaderBuf) (older : List HeaderBuf)
    → (d : HeaderBuf) × ((ds : List HeaderBuf) × (record_line line (h ∷ older) ≡ d ∷ ds))
unfolding record_line add_line
line-nonempty [] h older = (h, (older, refl))
line-nonempty (c ∷ cs) h older =
    elim (Bool-cases (ltb h.size (length h.text + length (c ∷ cs) + 1))) [
      | inl e ↦ rw (e, add_line) ((_, (_, refl)))
      | inr e ↦ rw (e, add_line) ((_, (_, refl)))
    ]

first_size-lines :
    (lines : List Bytes) (h : HeaderBuf) (older : List HeaderBuf)
    → (d : HeaderBuf) × ((ds : List HeaderBuf) × ((record_lines lines (h ∷ older) ≡ d ∷ ds)
          × (first_size (d ∷ ds) ≡ first_size (h ∷ older))))
unfolding record_lines
first_size-lines [] h older = (h, (older, (refl, refl)))
first_size-lines (line ∷ lines) h older =
    let (d, (ds, e)) = line-nonempty line h older in
    let (a, (rest, (i, s))) = first_size-lines lines d ds in
    (
      a,
      (
        rest,
        (ap (record_lines lines) e ∙ i, s ∙ (ap first_size (sym e) ∙ first_size-line line h older)),
      ),
    )

-- The lines of a request are recorded behind what one buffer holds, which is not overfull. If all of
-- them fit the buffer, collect_buffers gives a block of the right length with whatever malloc left in
-- it, and the lines stay where they are; otherwise it writes past the buffer.
pub collect_buffers-lines :
    (fresh : ℕ → Bytes) (lines : List Bytes) (h : HeaderBuf)
    → Fits h
    → let text = h.text ++ lines_text lines in
      collect_buffers fresh (record_lines lines (h ∷ [])) ≡ (
        if leb (length text) h.size
        then collected (record { length = length text; bytes = fresh (length text) }) text
        else past_buffer)
unfolding first_size collect_buffers recorded
collect_buffers-lines fresh lines h fits =
    let (d, (ds, (e, s))) = first_size-lines lines h [] in
    let text : recorded (d ∷ ds) ≡ h.text ++ lines_text lines =
      ap recorded (sym e) ∙ (record_lines-recorded lines (h ∷ []) ((fits, tt))).1 in
    ap (collect_buffers fresh) e ∙ rw (text, s, collect_buffers) refl
