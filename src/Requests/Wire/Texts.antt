-- ===== src/Requests/Wire/Texts.antt =====
-- The loop of src/http.c over its line buffer as a function of the text in it.
use osrv.Base.{
  ℕ, zero, suc, ◌≤◌, ◌<◌, ◌≡◌, ◌⊎◌, refl, sym, ◌∙◌, ap, Bool, true, false, ◌||◌, List, [], Option,
  none, some, ◌==◌, lt→ltb, Option-cases, inl, inr, length, drop, take, ◌-◌, arith,
}
use osrv.Base.Bytes.{Bytes}
use osrv.Base.Text.{codes}
use osrv.Sfs.Object.{same_bytes}
use osrv.Requests.{
  Req, HeaderBuf, Part, request_part, header_part, body_part, Client, line_buf_size,
}
use osrv.Requests.Headers.{record_method}
use osrv.Requests.Lines.{
  Handled, handled, refused, process_line, request_line, checked_line, with_method, is_request,
  index_of, known_or_other, method_of, header_line,
}
use osrv.Requests.Scan.{Look, nothing, blank, partial, complete, look}
use osrv.Requests.Scan.Lengths.{Shrinks, look-Shrinks}
use osrv.Requests.Turn.{
  Turn, stay, keep_partial, after_line, end_of_headers, read_look, read_lines, read_buffer,
  out_of_fuel,
}
use osrv.Requests.Wire.{after_line_same}

abbrev pub with_buf : Bytes → Client → Client
with_buf x c = record c { line_buf = x }

abbrev on_buf : Bytes → Handled → Handled
on_buf x (handled d) = handled (with_buf x d)
on_buf x (refused text) = refused text

-- A line is treated alike whatever the buffer holds.
with_method-on_buf :
    (i : ℕ) (line x : Bytes) (r : Bool × List HeaderBuf) (req : Req) (c : Client)
    → with_method i line r req (with_buf x c) ≡ on_buf x (with_method i line r req c)
unfolding with_method
with_method-on_buf i line x (fits, headers) req c =
    elim (Option-cases (known_or_other fits (method_of line req.method))) [
      | inl e ↦ rw (e, with_method) refl
      | inr (m, e) ↦ rw (e, with_method) refl
    ]

checked_line-on_buf :
    (o : Option ℕ) (ok : Bool) (line x : Bytes) (c : Client)
    → checked_line o ok line (with_buf x c) ≡ on_buf x (checked_line o ok line c)
unfolding checked_line
checked_line-on_buf none ok line x c = refl
checked_line-on_buf (some i) false line x c = refl
checked_line-on_buf (some i) true line x c =
    let old = same_bytes (drop (length line - 3) line) (codes "1.0") || c.req.attrs.http_1_0 in
    with_method-on_buf i line x (record_method (take i line) c.headers)
      (record (c.req) { attrs = record (c.req.attrs) { http_1_0 = old } }) c

process_line-on_buf :
    (part : Part) (line x : Bytes) (c : Client)
    → process_line part line (with_buf x c) ≡ on_buf x (process_line part line c)
unfolding process_line request_line header_line
process_line-on_buf request_part line x c =
    checked_line-on_buf (index_of b' ' line) (is_request line) line x c
process_line-on_buf header_part line x c = refl
process_line-on_buf body_part line x c = refl

after_line_alike :
    (next next₁ : Client → Turn) (r r₁ : Handled) (x : Bytes)
    → r ≡ on_buf x r₁
    → ((d : Client) → next (with_buf x d) ≡ next₁ d)
    → after_line next r ≡ after_line next₁ r₁
unfolding after_line
after_line_alike next next₁ r (handled d) x e h = ap (after_line next) e ∙ h d
after_line_alike next next₁ r (refused text) x e h = ap (after_line next) e

at_most : (s t : Bytes) → (s ≡ t) ⊎ (length s < length t) → length s ≤ length t
at_most s t (inl e) = omega (arith, ap length e)
at_most s t (inr h) = omega arith

module _ (fresh : ℕ → Bytes) where
  -- The loop with an incomplete line that always has room.
  unfoldable pub text_look : (Bytes → Client → Turn) → Look → Bytes → Client → Turn
  text_look next nothing s c = stay (with_buf [] c)
  text_look next (blank rest) s c = end_of_headers fresh rest c
  text_look next partial s c = stay (with_buf s c)
  text_look next (complete line rest) s c = after_line (next rest) (process_line c.part line c)

  unfoldable pub read_text : ℕ → Bytes → Client → Turn
  unfolding text_look
  read_text zero s c = record { log = []; state = out_of_fuel }
  read_text (suc f) s c = text_look (read_text f) (look s) s c

  text_look-buf :
      (next : Bytes → Client → Turn) (l : Look) (s x : Bytes) (c : Client)
      → ((rest : Bytes) (d : Client) → next rest (with_buf x d) ≡ next rest d)
      → text_look next l s (with_buf x c) ≡ text_look next l s c
  unfolding text_look end_of_headers
  text_look-buf next nothing s x c h = refl
  text_look-buf next (blank rest) s x c h = refl
  text_look-buf next partial s x c h = refl
  text_look-buf next (complete line rest) s x c h =
      after_line_alike (next rest) (next rest) (process_line c.part line (with_buf x c))
        (process_line c.part line c) x (process_line-on_buf c.part line x c) (h rest)

  pub read_text-buf :
      (f : ℕ) (s x : Bytes) (c : Client) → read_text f s (with_buf x c) ≡ read_text f s c
  unfolding read_text
  read_text-buf zero s x c = refl
  read_text-buf (suc f) s x c =
      text_look-buf (read_text f) (look s) s x c (λ rest d. read_text-buf f rest x d)

  text_look-fuel :
      (next next₁ : Bytes → Client → Turn) (l : Look) (s : Bytes) (c : Client)
      → Shrinks s l
      → ((rest : Bytes) (d : Client) → length rest < length s → next rest d ≡ next₁ rest d)
      → text_look next l s c ≡ text_look next₁ l s c
  unfolding text_look
  text_look-fuel next next₁ nothing s c sh h = refl
  text_look-fuel next next₁ (blank rest) s c sh h = refl
  text_look-fuel next next₁ partial s c sh h = refl
  text_look-fuel next next₁ (complete line rest) s c sh h =
      after_line_same (next rest) (next₁ rest) (process_line c.part line c) (λ d. h rest d sh)

  -- Any fuel above the length of the text is enough.
  pub read_text-fuel :
      (f g : ℕ) (s : Bytes) (c : Client)
      → length s < f
      → length s < g
      → read_text f s c ≡ read_text g s c
  unfolding read_text
  read_text-fuel zero g s c p q = absurd (omega arith)
  read_text-fuel (suc f) zero s c p q = absurd (omega arith)
  read_text-fuel (suc f) (suc g) s c p q =
      text_look-fuel (read_text f) (read_text g) (look s) s c (look-Shrinks s)
        (λ rest d l. read_text-fuel f g rest d (omega arith) (omega arith))

  keep_partial-text :
      (s : Bytes) (c : Client)
      → length c.line_buf < line_buf_size
      → (s ≡ c.line_buf) ⊎ (length s < length c.line_buf)
      → keep_partial s c ≡ stay (with_buf s c)
  unfolding keep_partial
  keep_partial-text s c room (inl e) =
      let same : (length s == length c.line_buf) ≡ true = ground (arith, ap length e) in
      rw same
        (rw (lt→ltb (length c.line_buf) line_buf_size room) (ap (λ x. stay (with_buf x c)) (sym e)))
  keep_partial-text s c room (inr h) =
      let moved : (length s == length c.line_buf) ≡ false = ground arith in rw moved refl

  look_text :
      (next next₁ : Bytes → Client → Turn) (l : Look) (s : Bytes) (c : Client)
      → length c.line_buf < line_buf_size
      → (s ≡ c.line_buf) ⊎ (length s < length c.line_buf)
      → Shrinks s l
      → ((rest : Bytes) (d : Client)
          → length rest < length s
          → next rest (with_buf c.line_buf d) ≡ next₁ rest d)
      → read_look fresh next l s c ≡ text_look next₁ l s c
  unfolding read_look text_look
  look_text next next₁ nothing s c room place sh h = refl
  look_text next next₁ (blank rest) s c room place sh h = refl
  look_text next next₁ partial s c room place sh h = keep_partial-text s c room place
  look_text next next₁ (complete line rest) s c room place sh h =
      after_line_alike (next rest) (next₁ rest) (process_line c.part line c)
        (process_line c.part line c) c.line_buf (process_line-on_buf c.part line c.line_buf c)
        (λ d. h rest d sh)

  -- While there is room the loop does not look at the rest of the buffer.
  read_lines-text :
      (f : ℕ) (s : Bytes) (c : Client)
      → length c.line_buf < line_buf_size
      → (s ≡ c.line_buf) ⊎ (length s < length c.line_buf)
      → read_lines fresh f s c ≡ read_text f s c
  unfolding read_lines read_text
  read_lines-text zero s c room place = refl
  read_lines-text (suc f) s c room place =
      look_text (read_lines fresh f) (read_text f) (look s) s c room place (look-Shrinks s)
        (λ rest d l.
          read_lines-text f rest (with_buf c.line_buf d) room
            (inr (omega (arith, l, at_most s c.line_buf place)))
          ∙ read_text-buf f rest c.line_buf d)

  pub read_buffer-text :
      (c : Client)
      → length c.line_buf < line_buf_size
      → read_buffer fresh c ≡ read_text (suc (length c.line_buf)) c.line_buf c
  unfolding read_buffer
  read_buffer-text c room = read_lines-text (suc (length c.line_buf)) c.line_buf c room (inl refl)
