-- ===== src/Requests/Wire/Crlf.antt =====
-- A header line of src/http.c whose CR and LF arrive in different pieces.
use osrv.Base.{
  ℕ, suc, ◌≡◌, refl, ◌∙◌, ap, false, [], ◌∷◌, ◌++◌, none, some, ◌==◌, length, All, arith,
}
use osrv.Base.Bytes.{Bytes}
use osrv.Requests.{Part, header_part, Client}
use osrv.Requests.Lines.{header_line, process_line}
use osrv.Requests.Scan.{
  Look, complete, blank, look, look_line, at_end, blank_line, split_line, skip_end,
}
use osrv.Requests.Turn.{stay, after_line, end_of_headers, read_look, read_lines, read_buffer}
use osrv.Requests.Wire.{Plain, Line}

split_line-cr :
    (line : Bytes) → All Plain line → split_line (line ++ 13 ∷ []) ≡ some (line, 13 ∷ [])
unfolding split_line
split_line-cr [] h = refl
split_line-cr (c ∷ cs) ((z, (n, r)), h) = rw (split_line-cr cs h) (ground arith)

blank_line-cr : (c : ℕ) (cs : Bytes) → Plain c → blank_line (c ∷ cs ++ 13 ∷ []) ≡ none
unfolding blank_line
blank_line-cr c [] (z, (n, r)) = ground arith
blank_line-cr c (d ∷ cs) (z, (n, r)) = ground arith

look-cr : (line : Bytes) → Line line → look (line ++ 13 ∷ []) ≡ complete line []
unfolding look at_end look_line skip_end
look-cr [] h = absurd h
look-cr (c ∷ cs) (p, h) =
    let plain : (c == 0) ≡ false = ground (arith, p.0) in
    rw plain
      (rw (blank_line-cr c cs p, look) (rw (split_line-cr (c ∷ cs) ((p, h)), look_line) refl))

blank_line-lf : (b : Bytes) → blank_line (10 ∷ b) ≡ some b
unfolding blank_line
blank_line-lf [] = refl
blank_line-lf (x ∷ b) = refl

look-lf : (b : Bytes) → look (10 ∷ b) ≡ blank b
unfolding look at_end
look-lf b = rw (blank_line-lf b, look) refl

module _ (fresh : ℕ → Bytes) where
  read_cr :
      (f : ℕ) (line : Bytes) (c : Client)
      → Line line
      → c.part ≡ header_part
      → read_lines fresh (suc (suc f)) (line ++ 13 ∷ []) c
        ≡ stay (record (header_line line c) { line_buf = [] })
  unfolding read_lines read_look after_line look at_end process_line
  read_cr f line c h p =
      ap (λ (l : Look). read_look fresh (read_lines fresh (suc f)) l (line ++ 13 ∷ []) c)
        (look-cr line h)
      ∙ ap (λ (q : Part). after_line (read_lines fresh (suc f) []) (process_line q line c)) p

  -- The buffer ends with a header line and its CR: the line is treated. Where the next piece begins with the
  -- LF of that line, the LF is taken for the empty line behind the headers.
  pub read_buffer-crlf :
      (line b : Bytes) (c : Client)
      → Line line
      → c.part ≡ header_part
      → (read_buffer fresh (record c { line_buf = line ++ 13 ∷ [] })
          ≡ stay (record (header_line line c) { line_buf = [] }))
        × (read_buffer fresh (record (header_line line c) { line_buf = 10 ∷ b })
            ≡ end_of_headers fresh b (header_line line c))
  unfolding read_buffer read_lines read_look end_of_headers header_line
  read_buffer-crlf [] b c h p = absurd h
  read_buffer-crlf (x ∷ line) b c h p = (
    read_cr (length (line ++ 13 ∷ [])) (x ∷ line) (record c { line_buf = x ∷ line ++ 13 ∷ [] }) h p,
    ap
        (λ (l : Look).
          read_look fresh (read_lines fresh (length (10 ∷ b))) l (10 ∷ b)
            (record (header_line (x ∷ line) c) { line_buf = 10 ∷ b }))
        (look-lf b),
  )
