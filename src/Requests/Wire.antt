-- ===== src/Requests/Wire.antt =====
-- A request as a client of src/http.c sends it, and what the loop over the line buffer makes of it.
pub mod Body
pub mod Crlf
pub mod Message
pub mod Pieces
pub mod Splits
pub mod Texts
pub mod Stored
pub mod Stores
use osrv.Base.{
  ℕ, zero, suc, ◌+◌, ◌-◌, ◌≤◌, ◌<◌, ◌≡◌, ◌≢◌, refl, sym, ◌∙◌, ap, subst, Bool, true, false, not,
  ◌&&◌, ◌||◌, List, [], ◌∷◌, ◌++◌, append_assoc, Option, none, some, ◌==◌, ltb, length, drop, take,
  All, if◌then◌else◌, Bool-cases, inl, inr, arith, length-append, take-append, drop-append,
}
use osrv.Base.Bytes.{Bytes}
use osrv.Base.Text.{codes}
use osrv.Server.Http.{Method, post, get_method, head, put, delete, other, starts_with}
use osrv.Requests.{Part, request_part, header_part, body_part, Client, HeaderBuf}
use osrv.Requests.Headers.{record_method}
use osrv.Requests.Lines.{Handled, handled, refused, process_line, index_of, path_of, method_of}
use osrv.Requests.Scan.{
  Look, complete, blank, look, look_line, at_end, blank_line, split_line, skip_end,
}
use osrv.Requests.Turn.{Turn, after_line, end_of_headers, read_look, read_lines, read_buffer}

-- A byte of a line: no NUL, CR or LF.
abbrev pub Plain : ℕ → Type 0
Plain c = (c ≢ 0) × ((c ≢ 10) × (c ≢ 13))

-- A line that is not empty, of such bytes.
abbrev pub Line : Bytes → Type 0
Line [] = ⊥
Line (c ∷ cs) = Plain c × All Plain cs

-- Lines, each with CR LF, and the empty line and what follows it.
unfoldable pub wire : List Bytes → Bytes → Bytes
wire [] body = 13 ∷ 10 ∷ body
wire (line ∷ lines) body = line ++ (13 ∷ 10 ∷ wire lines body)

module _ (fresh : ℕ → Bytes) where
  -- The lines one after another, and the end of the headers.
  unfoldable pub request_of : List Bytes → Bytes → Client → Turn
  request_of [] body c = end_of_headers fresh body c
  request_of (line ∷ lines) body c = after_line (request_of lines body) (process_line c.part line c)

split_line-wire :
    (line rest : Bytes)
    → All Plain line
    → split_line (line ++ (13 ∷ 10 ∷ rest)) ≡ some (line, 13 ∷ 10 ∷ rest)
unfolding split_line
split_line-wire [] rest h = refl
split_line-wire (c ∷ cs) rest ((z, (n, r)), h) = rw (split_line-wire cs rest h) (ground arith)

blank_line-wire :
    (c : ℕ) (cs rest : Bytes) → Plain c → blank_line (c ∷ cs ++ (13 ∷ 10 ∷ rest)) ≡ none
unfolding blank_line
blank_line-wire c [] rest (z, (n, r)) = ground arith
blank_line-wire c (d ∷ cs) rest (z, (n, r)) = ground arith

look-wire : (line rest : Bytes) → Line line → look (line ++ (13 ∷ 10 ∷ rest)) ≡ complete line rest
unfolding look at_end look_line skip_end
look-wire [] rest h = absurd h
look-wire (c ∷ cs) rest (p, h) =
    let plain : (c == 0) ≡ false = ground (arith, p.0) in
    rw plain (
      rw (blank_line-wire c cs rest p, look)
        (rw (split_line-wire (c ∷ cs) rest ((p, h)), look_line) refl))

pub after_line_same :
    (next next₁ : Client → Turn) (r : Handled)
    → ((c : Client) → next c ≡ next₁ c)
    → after_line next r ≡ after_line next₁ r
unfolding after_line
after_line_same next next₁ (handled c) h = h c
after_line_same next next₁ (refused text) h = refl

length-wire : (lines : List Bytes) (body : Bytes) → length lines < length (wire lines body)
unfolding wire
length-wire [] body = omega arith
length-wire (line ∷ lines) body =
    omega (arith, length-append line (13 ∷ 10 ∷ wire lines body), length-wire lines body)

module _ (fresh : ℕ → Bytes) where
  read_lines-wire :
      (lines : List Bytes) (body : Bytes) (f : ℕ) (c : Client)
      → All Line lines
      → length lines < f
      → read_lines fresh f (wire lines body) c ≡ request_of fresh lines body c
  unfolding read_lines request_of wire read_look
  read_lines-wire lines body zero c h lt = absurd (omega arith)
  read_lines-wire [] body (suc f) c h lt = refl
  read_lines-wire (line ∷ lines) body (suc f) c (p, h) lt =
      rw (look-wire line (wire lines body) p) (
        after_line_same (read_lines fresh f (wire lines body)) (request_of fresh lines body)
          (process_line c.part line c)
          (λ (d : Client). read_lines-wire lines body f d h (omega arith)))

  -- The loop over a buffer that holds the lines of a request, each with CR LF, not empty and with
  -- no NUL, CR or LF in it, does what treating the lines one after another and then the end of
  -- the headers does.
  pub read_buffer-wire :
      (lines : List Bytes) (body : Bytes) (c : Client)
      → All Line lines
      → c.line_buf ≡ wire lines body
      → read_buffer fresh c ≡ request_of fresh lines body c
  unfolding read_buffer
  read_buffer-wire lines body c h e =
      let enough : length lines < suc (length c.line_buf) =
        omega (arith, ap length e, length-wire lines body) in
      ap (λ (s : Bytes). read_lines fresh (suc (length c.line_buf)) s c) e
      ∙ read_lines-wire lines body (suc (length c.line_buf)) c h enough
