-- ===== src/Requests/Wire/Pieces.antt =====
-- The pieces in which the headers of a request reach src/http.c do not matter.
use osrv.Base.{
  ℕ, zero, suc, ◌<◌, ◌≡◌, ◌≢◌, refl, sym, ◌∙◌, ap, subst, Bool, true, Option-cases, false, not,
  ◌&&◌, ◌||◌, [], ◌∷◌, ◌++◌, ◌==◌, ltb, Bool-cases, inl, inr, length, length-append, arith,
}
use osrv.Base.Bytes.{Bytes}
use osrv.Requests.{ℤ, pos, negsuc, body_part, Client, line_buf_size}
use osrv.Requests.Lines.{Handled, handled, refused, process_line}
use osrv.Requests.Scan.{Look, nothing, blank, partial, complete, look}
use osrv.Requests.Scan.Lengths.{Shrinks, look-Shrinks}
use osrv.Requests.Turn.{
  Out, Turn, State, ready, waiting, corrupted, shut, handed, process_request, out_of_fuel, stay,
  is_bodyless, is_zero, is_excessive, after_line, finish_request, begin_body, choose_body,
  end_of_headers, read_buffer,
}
use osrv.Requests.Wire.Splits.{Whole, LookCut, look-LookCut}
use osrv.Requests.Wire.Texts.{
  with_buf, text_look, read_text, read_text-buf, read_text-fuel, read_buffer-text,
}

-- A turn that has ended, has done something, or is in the part of the body.
abbrev Past : Turn → Type 0
Past t = (d : Client) → t ≡ stay d → d.part ≢ body_part → ⊥

log-Past : (o : Out) (s : State) → Past (record { log = o ∷ []; state = s })
log-Past o s d e n = let clash : (o ∷ []) ≡ [] = ap (λ (t : Turn). t.log) e in absurd (cc)

abbrev is_ready : State → Bool
is_ready (ready d) = true
is_ready _ = false

corrupted-Past : (c : Client) → Past (record { log = []; state = corrupted c })
corrupted-Past c d e n =
    let clash : false ≡ true = ap (λ (t : Turn). is_ready t.state) e in absurd (cc)

abbrev client_of : Client → State → Client
client_of c (ready d) = d
client_of c (waiting d) = d
client_of c shut = c
client_of c (corrupted d) = d
client_of c out_of_fuel = c

stayed : (c d : Client) → stay c ≡ stay d → c ≡ d
stayed c d e = ap (λ (t : Turn). client_of c t.state) e

module _ (fresh : ℕ → Bytes) where
  finish-Past : (surplus : Bool) (c : Client) → Past (finish_request fresh surplus c)
  unfolding finish_request process_request
  finish-Past surplus c = elim (Option-cases (handed fresh c)) [
    | inl e ↦ rw (e, finish_request, process_request) (corrupted-Past c)
    | inr (q, e) ↦ rw (e, finish_request, process_request) (log-Past _ _)
  ]

  choose_body-Past :
      (lengthy : Bool) (z : ℤ) (c : Client)
      → c.part ≡ body_part
      → Past (choose_body fresh lengthy z c)
  unfolding choose_body begin_body
  choose_body-Past lengthy (negsuc n) c p = finish-Past false c
  choose_body-Past lengthy (pos n) c p =
      elim (Bool-cases (is_bodyless c.req.method || not lengthy || (n == 0))) [
        | inl e ↦ elim (Bool-cases (lengthy && ltb 0 n)) [
          | inl f ↦ rw (e, f) (log-Past _ _)
          | inr f ↦ rw (e, f) (finish-Past false c)
        ]
        | inr e ↦ rw e (λ d q not_body.
            not_body (ap (λ (k : Client). k.part) (sym (stayed (begin_body n c) d q)) ∙ p))
      ]

  end_of_headers-Past : (rest : Bytes) (c : Client) → Past (end_of_headers fresh rest c)
  unfolding end_of_headers
  end_of_headers-Past rest c =
      elim (Bool-cases (not c.req.attrs.http_1_0 && not c.req.attrs.host_header)) [
        | inl e ↦ rw e (log-Past _ _)
        | inr e ↦
            elim (Bool-cases (
              c.req.attrs.content_length
              && not (is_zero c.req.content_length)
              && is_excessive c.req.content_length)) [
                | inl f ↦ rw (e, f) (log-Past _ _)
                | inr f ↦
                    rw (e, f)
                      (choose_body-Past c.req.attrs.content_length c.req.content_length
                        (record c { part = body_part; line_buf = rest }) refl)
              ]
      ]

  -- The text `s` was read up to an incomplete line, which `d` has: the text that goes on with `b` is read
  -- as if it began with that line.
  abbrev Resumes : Bytes → Bytes → Client → Client → Type 0
  Resumes s b c d =
      (g h : ℕ)
      → length (s ++ b) < g
      → length (d.line_buf ++ b) < h
      → read_text fresh g (s ++ b) c ≡ read_text fresh h (d.line_buf ++ b) d

  resume_at : (s b t : Bytes) (c : Client) → s ≡ t → Resumes s b c (with_buf t c)
  resume_at s b t c e g h p q =
      ap (λ (x : Bytes). read_text fresh g (x ++ b) c) e
      ∙ (read_text-fuel fresh g h (t ++ b) c (subst (λ (x : Bytes). length (x ++ b) < g) e p) q
          ∙ sym (read_text-buf fresh h (t ++ b) t c))

  resume_line :
      (f : ℕ) (l s r b : Bytes) (c d : Client) (p : Handled)
      → p ≡ process_line c.part l c
      → look (s ++ b) ≡ complete l (r ++ b)
      → length r < length s
      → after_line (read_text fresh f r) p ≡ stay d
      → d.part ≢ body_part
      → ((e : Client) → read_text fresh f r e ≡ stay d → Resumes r b e d)
      → Resumes s b c d
  unfolding after_line text_look read_text
  resume_line f l s r b c d (refused text) q m sh e n k g h u v = absurd (log-Past _ _ d e n)
  resume_line f l s r b c d (handled x) q m sh e n k zero h u v = absurd (omega arith)
  resume_line f l s r b c d (handled x) q m sh e n k (suc g) h u v =
      ap (λ (w : Look). text_look fresh (read_text fresh g) w (s ++ b) c) m
      ∙ (ap (after_line (read_text fresh g (r ++ b))) (sym q)
          ∙ k x e g h (omega (arith, length-append s b, length-append r b)) v)

  resume_look :
      (f : ℕ) (l m : Look) (s b : Bytes) (c d : Client)
      → look (s ++ b) ≡ m
      → LookCut s b l m
      → Shrinks s l
      → text_look fresh (read_text fresh f) l s c ≡ stay d
      → d.part ≢ body_part
      → ((r : Bytes) (e : Client)
          → Whole r
          → length r < length s
          → read_text fresh f r e ≡ stay d
          → Resumes r b e d)
      → Resumes s b c d
  unfolding text_look
  resume_look f nothing m s b c d k cut sh e n ih =
      subst (λ (x : Client). Resumes s b c x) (stayed (with_buf [] c) d e) (resume_at s b [] c cut)
  resume_look f (blank r) m s b c d k cut sh e n ih = absurd (end_of_headers-Past r c d e n)
  resume_look f partial m s b c d k cut sh e n ih =
      subst (λ (x : Client). Resumes s b c x) (stayed (with_buf s c) d e) (resume_at s b s c refl)
  resume_look f (complete l r) m s b c d k (cut, w) sh e n ih =
      resume_line f l s r b c d (process_line c.part l c) refl (k ∙ cut) sh e n
        (λ x q. ih r x w sh q)

  read_text-Resumes :
      (f : ℕ) (s b : Bytes) (c d : Client)
      → length s < f
      → Whole s
      → read_text fresh f s c ≡ stay d
      → d.part ≢ body_part
      → Resumes s b c d
  unfolding read_text
  read_text-Resumes zero s b c d p w e n = absurd (omega arith)
  read_text-Resumes (suc f) s b c d p w e n =
      resume_look f (look s) (look (s ++ b)) s b c d refl (look-LookCut s b w) (look-Shrinks s) e n
        (λ r x v sh q. read_text-Resumes f r b x d (omega arith) v q n)

  -- What is in the buffer has no NUL and does not end in CR, and was read up to an incomplete line, before
  -- the end of the headers. The turn that adds `b` does what it does where all came at once, provided
  -- that the buffer has room for it.
  pub read_buffer-pieces :
      (c d : Client) (b : Bytes)
      → Whole c.line_buf
      → length (c.line_buf ++ b) < line_buf_size
      → length (d.line_buf ++ b) < line_buf_size
      → read_buffer fresh c ≡ stay d
      → d.part ≢ body_part
      → read_buffer fresh (record d { line_buf = d.line_buf ++ b })
        ≡ read_buffer fresh (record c { line_buf = c.line_buf ++ b })
  read_buffer-pieces c d b w room room₁ e n =
      let fits : length c.line_buf < line_buf_size = omega (arith, length-append c.line_buf b) in
      let resumes =
        read_text-Resumes (suc (length c.line_buf)) c.line_buf b c d (omega arith) w
          (sym (read_buffer-text fresh c fits) ∙ e) n in
      read_buffer-text fresh (with_buf (d.line_buf ++ b) d) room₁
      ∙ (read_text-buf fresh (suc (length (d.line_buf ++ b))) (d.line_buf ++ b) (d.line_buf ++ b) d
          ∙ (sym (
                resumes (suc (length (c.line_buf ++ b))) (suc (length (d.line_buf ++ b)))
                  (omega arith) (omega arith))
              ∙ (sym (
                    read_text-buf fresh (suc (length (c.line_buf ++ b))) (c.line_buf ++ b)
                      (c.line_buf ++ b) c)
                  ∙ sym (read_buffer-text fresh (with_buf (c.line_buf ++ b) c) room))))
