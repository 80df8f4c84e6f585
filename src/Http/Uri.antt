-- ===== src/Http/Uri.antt =====
-- `uri_decode` of src/http.c, on the text before the NUL.
use osrv.Base.{
  ℕ, ◌+◌, ◌-◌, ◌*◌, ◌/◌, ◌%◌, ◌<◌, ◌≤◌, ◌≡◌, refl, ap, ◌&&◌, [], ◌∷◌, ltb, leb, ◌==◌, if◌then◌else◌,
  length, All, arith,
}
use osrv.Base.Bytes.{Bytes}

-- A character that is no hexadecimal digit counts as 0.
unfoldable pub digit_value : ℕ → ℕ
digit_value c =
    if leb b'0' c && leb c b'9'
    then c - b'0'
    else if leb b'a' c && leb c b'f'
    then c - b'a' + 10
    else if leb b'A' c && leb c b'F'
    then c - b'A' + 10
    else 0

-- `ec |= ...` on the two halves of a byte; the end of the text in an escape ends the walk.
unfoldable pub uri_decode : Bytes → Bytes
unfolding digit_value
uri_decode [] = []
uri_decode (c ∷ []) = if c == b'+' then b' ' ∷ [] else if c == b'%' then 0 ∷ [] else c ∷ []
uri_decode (c ∷ d ∷ []) =
    let one = uri_decode (d ∷ []) in
    if c == b'+' then b' ' ∷ one else if c == b'%' then (digit_value d * 16) ∷ [] else c ∷ one
uri_decode (c ∷ d ∷ e ∷ s) =
    let one = uri_decode (d ∷ e ∷ s) in
    let three = uri_decode s in
    if c == b'+'
    then b' ' ∷ one
    else if c == b'%'
    then (digit_value d * 16 + digit_value e) ∷ three
    else c ∷ one

-- Decoding never makes a text longer.
pub length-uri_decode : (s : Bytes) → length (uri_decode s) ≤ length s
unfolding uri_decode
length-uri_decode [] = omega arith
length-uri_decode (c ∷ []) = ground arith
length-uri_decode (c ∷ d ∷ []) = ground (arith, length-uri_decode (d ∷ []))
length-uri_decode (c ∷ d ∷ e ∷ s) =
    ground (arith, length-uri_decode (d ∷ e ∷ s), length-uri_decode s)

-- The escape of every character: `%` and two digits in lower case.
unfoldable pub hex_low : ℕ → ℕ
hex_low n = if ltb n 10 then b'0' + n else b'a' + (n - 10)

unfoldable pub escape : Bytes → Bytes
escape [] = []
escape (c ∷ s) = b'%' ∷ hex_low (c / 16) ∷ hex_low (c % 16) ∷ escape s

digit_value-hex_low : (n : ℕ) → n < 16 → digit_value (hex_low n) ≡ n
unfolding digit_value hex_low
digit_value-hex_low n h = ground arith

-- Text in which every byte is escaped is decoded to what it was.
pub uri_decode-escape : (s : Bytes) → All (λ c. c < 256) s → uri_decode (escape s) ≡ s
unfolding uri_decode escape
uri_decode-escape [] h = refl
uri_decode-escape (c ∷ s) h =
    rw
      (
        digit_value-hex_low (c / 16) (omega (arith, h.0)),
        digit_value-hex_low (c % 16) (omega arith),
        uri_decode-escape s h.1,
      )
      (let e : c / 16 * 16 + c % 16 ≡ c = omega arith in ap (λ n. n ∷ s) e)
