-- ===== src/Requests/Lines/Headers.antt =====
-- The header lines Host and Content-Length of src/http.c.
use osrv.Base.{
  ℕ, ◌-◌, ◌^◌, ◌<◌, ◌≡◌, refl, sym, ◌∙◌, ap, true, false, ◌&&◌, ◌||◌, ◌∷◌, ◌++◌, ◌==◌, leb, arith,
  min,
}
use osrv.Base.Bytes.{Bytes}
use osrv.Base.Decimal.{is_digit, decimal, atol, atol-decimal_end, decimal-Digits}
use osrv.Base.Text.{codes}
use osrv.Sfs.Object.{same_bytes}
use osrv.Server.Tcp.{skip_blanks}
use osrv.Requests.{pos, Req}
use osrv.Requests.Lines.{
  lower, split_name, set_named, set_header, atol_signed, signed_digits, skip_space,
}

abbrev pub host_text : Bytes → Bytes
host_text host = codes "Host: " ++ host

abbrev pub length_text : ℕ → Bytes
length_text n = codes "Content-Length: " ++ decimal n

pub set_named-host :
    (host : Bytes) (req : Req)
    → set_named (split_name (host_text host)) req
      ≡ record req { attrs = record (req.attrs) { host_header = true } }
unfolding set_named split_name set_header same_bytes lower
set_named-host host req = refl

atol_signed-digits :
    (c : ℕ) (cs : Bytes)
    → is_digit c ≡ true
    → atol_signed (c ∷ cs) ≡ pos (min (atol 0 (c ∷ cs)) (2 ^ 63 - 1))
unfolding atol_signed skip_space signed_digits
atol_signed-digits c cs h =
    let no_space : ((leb 9 c && leb c 13) || c == b' ') ≡ false = ground (arith, h) in
    let no_minus : (c == b'-') ≡ false = ground (arith, h) in
    let no_plus : (c == b'+') ≡ false = ground (arith, h) in
    rw no_space (rw no_minus (rw no_plus refl))

skip_blanks-digit : (c : ℕ) (cs : Bytes) → is_digit c ≡ true → skip_blanks (b' ' ∷ c ∷ cs) ≡ c ∷ cs
unfolding skip_blanks
skip_blanks-digit c cs h =
    let no_blank : (c == b' ' || c == 9) ≡ false = ground (arith, h) in rw no_blank refl

-- The length that is printed is the one that is read, if it is no more than a `long` holds.
pub atol_signed-decimal : (n : ℕ) → n < 2 ^ 63 → atol_signed (decimal n) ≡ pos n
atol_signed-decimal n h =
    let d = decimal-Digits n in
    ap atol_signed d.begins
    ∙ (atol_signed-digits d.first d.others d.is_first
        ∙ ap pos (omega (arith, ap (atol 0) d.begins, atol-decimal_end n)))

length-read : (n : ℕ) → n < 2 ^ 63 → atol_signed (skip_blanks (b' ' ∷ decimal n)) ≡ pos n
length-read n h =
    let d = decimal-Digits n in
    ap (λ s. atol_signed (skip_blanks (b' ' ∷ s))) d.begins
    ∙ (ap atol_signed (skip_blanks-digit d.first d.others d.is_first ∙ sym d.begins)
        ∙ atol_signed-decimal n h)

pub set_named-length :
    (n : ℕ) (req : Req)
    → n < 2 ^ 63
    → set_named (split_name (length_text n)) req
      ≡ record req { attrs = record (req.attrs) { content_length = true }; content_length = pos n }
unfolding set_named split_name set_header same_bytes lower
set_named-length n req h =
    ap
      (λ z. record req { attrs = record (req.attrs) { content_length = true }; content_length = z })
      (length-read n h)
