-- ===== src/Client/Header.antt =====
-- The first line of an answer to `C_ask`, however it arrives.
use osrv.Base.{
  ℕ, zero, suc, ◌+◌, ◌-◌, ◌≤◌, ◌<◌, ◌≡◌, refl, sym, ap, ◌∙◌, subst, Bool, true, false, List, [],
  ◌∷◌, ◌++◌, append_assoc, none, some, ltb, length, length-append, length-take, length-drop, take,
  drop, take-append-drop, All, arith, Split, within, beyond, append-Split,
}
use osrv.Base.Bytes.{Bytes}
use osrv.Client.{Headed, headed, need_of, read_more, header_round, header_loop, buf_size}
use osrv.Server.Tcp.{split_line}
use osrv.Server.Tcp.Rounds.{InLine, split_line-append}
use osrv.Stores.Reads.{Event, chunk, again, broken, closed, unread, arriving}
use osrv.Stores.Reads.Delivered.{arriving-unread, length-unread}

-- A loop that has found the line `t`, with `rest` behind its newline in the buffer or still to
-- arrive. A loop for an SFS object has read nothing of `rest` if the line has four bytes or more.
pub record Found (use_sfs : Bool) (t rest : Bytes) (h : Headed) : Type 0 where
  pub behind : Bytes
  pub events : List Event
  pub is_found : h ≡ headed t behind events
  pub follows : behind ++ arriving events ≡ rest
  pub is_exact : use_sfs ≡ true → 4 ≤ length t → behind ≡ []

-- So many bytes do not reach past the newline.
abbrev Exact : Bool → Bytes → ℕ → Type 0
Exact use_sfs t n = use_sfs ≡ true → 4 ≤ length t → n ≤ suc (length t)

pub split_line-none : (t : Bytes) → All InLine t → split_line t ≡ record { text = t; behind = none }
unfolding split_line
split_line-none [] h = refl
split_line-none (c ∷ t) h = rw ((h.0).0, (h.0).1, split_line-none t h.1)

All-left : (xs ys : Bytes) → All InLine (xs ++ ys) → All InLine xs
All-left [] ys h = tt
All-left (x ∷ xs) ys h = (h.0, All-left xs ys h.1)

pub need_of-positive : (use_sfs : Bool) (p : ℕ) → p ≤ 56 → 0 < need_of use_sfs p
unfolding need_of
need_of-positive true p h = ground arith
need_of-positive false p h = omega arith

-- What is read next does not reach past the newline either.
need_of-Exact :
    (use_sfs : Bool) (t : Bytes) (p n : ℕ)
    → p ≤ length t
    → n ≤ need_of use_sfs p
    → Exact use_sfs t (p + n)
unfolding need_of
need_of-Exact true t p n h k e four = ground arith
need_of-Exact false t p n h k e four = absurd (let clash : false ≡ true = e in cc)

nothing-arrives : (xs ys : Bytes) (c : ℕ) → [] ≡ xs ++ c ∷ ys → ⊥
nothing-arrives [] ys c e = cc
nothing-arrives (x ∷ xs) ys c e = cc

-- The bytes of a read, and what arrives after them.
piece-follows :
    (got : Bytes) (need : ℕ) (c : ℕ) (cs all : Bytes) (es : List Event)
    → got ++ ((c ∷ cs) ++ arriving es) ≡ all
    → (got ++ take need (c ∷ cs)) ++ arriving (unread need (c ∷ cs) es) ≡ all
piece-follows got need c cs all es h =
    append_assoc got (take need (c ∷ cs)) (arriving (unread need (c ∷ cs) es))
    ∙ ap (◌++◌ got) (
        ap (◌++◌ (take need (c ∷ cs))) (arriving-unread need (c ∷ cs) es)
        ∙ sym (append_assoc (take need (c ∷ cs)) (drop need (c ∷ cs)) (arriving es))
        ∙ ap (λ b. b ++ arriving es) (take-append-drop need (c ∷ cs)))
    ∙ h

-- A read of something leaves less to read.
pub unread-smaller :
    (need : ℕ) (c : ℕ) (cs : Bytes) (es : List Event)
    → 0 < need
    → length (arriving (unread need (c ∷ cs) es)) + length (unread need (c ∷ cs) es)
      < length ((c ∷ cs) ++ arriving es) + suc (length es)
unread-smaller need c cs es some_need =
    let left = ap length (arriving-unread need (c ∷ cs) es) in
    omega (
      arith,
      left,
      length-append (drop need (c ∷ cs)) (arriving es),
      length-append (c ∷ cs) (arriving es),
      length-drop need (c ∷ cs),
      length-unread need (c ∷ cs) es,
    )

module _ (use_sfs : Bool) (t rest : Bytes) (plain : All InLine t) (fits : length t ≤ 56) where
  -- The rest of the loop finds the line.
  abbrev Goes : ℕ → (Bool → Bytes → List Event → Headed) → Type 0
  Goes size next =
      (retry : Bool) (got : Bytes) (es : List Event)
      → got ++ arriving es ≡ t ++ 10 ∷ rest
      → Exact use_sfs t (length got)
      → length (arriving es) + length es < size
      → Found use_sfs t rest (next retry got es)

  read_more-Found :
      (next : Bool → Bytes → List Event → Headed) (size : ℕ) (retry : Bool) (got u : Bytes)
      (es : List Event)
      → Goes size next
      → t ≡ got ++ u
      → arriving es ≡ u ++ 10 ∷ rest
      → got ++ arriving es ≡ t ++ 10 ∷ rest
      → Exact use_sfs t (length got)
      → length (arriving es) + length es ≤ size
      → Found use_sfs t rest (read_more next use_sfs retry got es)
  unfolding read_more arriving
  read_more-Found next size retry got u [] g a b e x s = absurd (nothing-arrives u rest 10 b)
  read_more-Found next size retry got u (again ∷ es) g a b e x s = g true got es e x (omega arith)
  read_more-Found next size retry got u (broken ∷ es) g a b e x s =
      absurd (nothing-arrives u rest 10 b)
  read_more-Found next size retry got u (closed ∷ es) g a b e x s =
      absurd (nothing-arrives u rest 10 b)
  read_more-Found next size retry got u (chunk c cs ∷ es) g a b e x s =
      let need = need_of use_sfs (length got) in
      let whole : length t ≡ length got + length u = ap length a ∙ length-append got u in
      let some_need = need_of-positive use_sfs (length got) (omega (arith, whole)) in
      let piece = take need (c ∷ cs) in
      let size_piece = length-take need (c ∷ cs) in
      let total = length-append got piece in
      let exact =
        need_of-Exact use_sfs t (length got) (length piece) (omega (arith, whole))
          (omega (arith, size_piece)) in
      g retry (got ++ piece) (unread need (c ∷ cs) es)
        (piece-follows got need c cs (t ++ 10 ∷ rest) es e)
        (subst (Exact use_sfs t) (sym total) exact)
        (omega (arith, unread-smaller need c cs es some_need))

  -- A round with the newline in the buffer.
  header_round-newline :
      (next : Bool → Bytes → List Event → Headed) (retry : Bool) (got cs : Bytes) (es : List Event)
      → got ≡ t ++ 10 ∷ cs
      → rest ≡ cs ++ arriving es
      → Exact use_sfs t (length got)
      → Found use_sfs t rest (header_round next use_sfs retry got es (split_line got))
  unfolding header_round
  header_round-newline next retry got cs es a b x =
      let line : split_line got ≡ record { text = t; behind = some cs } =
        ap split_line a ∙ split_line-append t cs plain in
      let whole : length got ≡ length t + suc (length cs) =
        ap length a ∙ length-append t (10 ∷ cs) in
      let found : Found use_sfs t rest (headed t cs es) = record {
        behind = cs;
        events = es;
        is_found = refl;
        follows = sym b;
        is_exact = λ sfs four. empty cs (let h = x sfs four in omega arith);
      } in
      subst (λ l. Found use_sfs t rest (header_round next use_sfs retry got es l)) (sym line) found
    where
      empty : (bs : Bytes) → length bs ≤ 0 → bs ≡ []
      empty [] h = refl
      empty (c ∷ bs) h = absurd (omega arith)

  -- A round with the line as far as it has been read.
  header_round-Found :
      (next : Bool → Bytes → List Event → Headed) (size : ℕ) (retry : Bool) (got : Bytes)
      (es : List Event)
      → Goes size next
      → got ++ arriving es ≡ t ++ 10 ∷ rest
      → Exact use_sfs t (length got)
      → length (arriving es) + length es ≤ size
      → Split got (arriving es) t (10 ∷ rest)
      → Found use_sfs t rest (header_round next use_sfs retry got es (split_line got))
  unfolding header_round
  header_round-Found next size retry got es g e x s (within u a b) =
      let none_yet = split_line-none got (All-left got u (subst (All InLine) a plain)) in
      let whole : length t ≡ length got + length u = ap length a ∙ length-append got u in
      let room : ltb (buf_size - 8) (length got) ≡ false = ground arith in
      rw (none_yet, header_round) (rw room (read_more-Found next size retry got u es g a b e x s))
  header_round-Found next size retry got es g e x s (beyond c cs a b) =
      let newline : c ≡ 10 = cc in
      header_round-newline next retry got cs es (a ∙ ap (λ d. t ++ d ∷ cs) newline)
        (let r : rest ≡ cs ++ arriving es = cc in r) x

  pub header_loop-Found :
      (f : ℕ) (retry : Bool) (got : Bytes) (es : List Event)
      → got ++ arriving es ≡ t ++ 10 ∷ rest
      → Exact use_sfs t (length got)
      → length (arriving es) + length es < f
      → Found use_sfs t rest (header_loop f use_sfs retry got es)
  unfolding header_loop
  header_loop-Found zero retry got es e x s = absurd (omega arith)
  header_loop-Found (suc f) retry got es e x s =
      header_round-Found (header_loop f use_sfs) f retry got es
        (λ (retry : Bool) (got : Bytes) (es : List Event). header_loop-Found f retry got es) e x
        (omega arith) (append-Split got (arriving es) t (10 ∷ rest) e)
