-- ===== src/Client/Replies.antt =====
-- What `C_ask` makes of the answers of a server, in whatever pieces they arrive.
use osrv.Base.{
  ℕ, suc, ◌+◌, ◌-◌, ◌≤◌, ◌≡◌, refl, sym, ap, ◌∙◌, subst, Bool, true, false, List, [], ◌∷◌, ◌++◌,
  append_assoc, ◌⊎◌, inl, inr, ltb, ◌==◌, length, length-append, length-take, take, take-append,
  take-append_take, All, arith,
}
use osrv.Base.Bytes.{Bytes}
use osrv.Base.Decimal.{is_digit, decimal, decimal-All_digits, length-decimal}
use osrv.Base.Text.{codes}
use osrv.Sfs.Object.{Sexp, same_bytes}
use osrv.Sfs.Load.{ok, out_of_fuel, restore}
use osrv.Sfs.Store.{encode}
use osrv.Sfs.RoundTrip.{Restorable}
use osrv.Sfs.RoundTrip.Canon.{canon}
use osrv.Sfs.RoundTrip.Loads.{sfs_load-encode}
use osrv.Api.{loaded}
use osrv.Client.{
  text, bytes, object, waits, max_vector, fetch_size, sock_restore, restored, payload_of,
  read_payload, with_length, after_header, after_headed, receive,
}
use osrv.Client.Header.{header_loop-Found}
use osrv.Requests.Lines.Headers.{atol_signed-decimal}
use osrv.Server.Tcp.{ok_length, ok_sfs_text}
use osrv.Server.Tcp.Rounds.{InLine}
use osrv.Stores.Reads.{
  Event, Fetched, ok, read_error, closed_early, blocked, out_of_fuel, arriving, rounds,
}
use osrv.Stores.Reads.Delivered.{Delivers, whole, ended, failed, waits, fetch_loop-Delivers}

-- The first line is found.
receive-after :
    (use_sfs : Bool) (t rest : Bytes) (es : List Event)
    → All InLine t
    → length t ≤ 56
    → arriving es ≡ t ++ 10 ∷ rest
    → (behind : Bytes) × (later : List Event) × (receive use_sfs es
        ≡ after_header use_sfs t behind later)
      × (behind ++ arriving later ≡ rest)
      × (use_sfs ≡ true → 4 ≤ length t → behind ≡ [])
unfolding receive after_headed
receive-after use_sfs t rest es plain fits e =
    let found =
      header_loop-Found use_sfs t rest plain fits (suc (length (arriving es) + length es)) false []
        es e (λ u four. omega arith) (omega arith) in
    (
      found.behind,
      found.events,
      ap (after_headed use_sfs) found.is_found,
      found.follows,
      found.is_exact,
    )

after_header-text :
    (use_sfs : Bool) (t behind : Bytes) (later : List Event)
    → (length t ≡ 2) ⊎ (t ≡ codes "UNSUPP")
    → after_header use_sfs t behind later ≡ text t
unfolding after_header same_bytes
after_header-text use_sfs t behind later (inl h) = rw (h, after_header) refl
after_header-text use_sfs t behind later (inr h) = rw h refl

short_fits : (t : Bytes) → (length t ≡ 2) ⊎ (t ≡ codes "UNSUPP") → length t ≤ 56
short_fits t (inl h) = omega arith
short_fits t (inr h) = subst (λ u. length u ≤ 56) (sym h) (omega arith)

-- An answer of two bytes, or UNSUPP, is given as a string.
pub receive-text :
    (use_sfs : Bool) (t rest : Bytes) (es : List Event)
    → All InLine t
    → (length t ≡ 2) ⊎ (t ≡ codes "UNSUPP")
    → arriving es ≡ t ++ 10 ∷ rest
    → receive use_sfs es ≡ text t
receive-text use_sfs t rest es plain short e =
    let (behind, later, is, follows, exact) =
      receive-after use_sfs t rest es plain (short_fits t short) e in
    is ∙ after_header-text use_sfs t behind later short

delivered :
    (got : Bytes) (left : ℕ) (a : Bytes) (r : Fetched)
    → left ≤ length a
    → Delivers got left a r
    → payload_of r ≡ bytes (got ++ take left a)
unfolding payload_of
delivered got left a (ok out es) h (whole e f k) = ap bytes e
delivered got left a closed_early h (ended k) = absurd (omega arith)
delivered got left a read_error h (failed k) = absurd (omega arith)
delivered got left a blocked h (waits k) = absurd (omega arith)
delivered got left a out_of_fuel h d = elim d [ ]

-- The payload, from what came with the first line and what arrives later.
read_payload-whole :
    (payload rest behind : Bytes) (later : List Event)
    → behind ++ arriving later ≡ payload ++ rest
    → read_payload (length payload) behind later ≡ bytes payload
unfolding read_payload rounds
read_payload-whole payload rest behind later e =
    let pl = length payload in
    let got = take pl behind in
    let left = pl - length got in
    let enough : left ≤ length (arriving later) = omega (
      arith,
      length-take pl behind,
      ap length e,
      length-append behind (arriving later),
      length-append payload rest,
    ) in
    delivered got left (arriving later) _ enough (
      fetch_loop-Delivers (suc (left + length later)) fetch_size got left later (omega arith)
        (omega arith))
    ∙ ap bytes (
        sym (take-append_take pl behind (arriving later))
        ∙ (ap (take pl) e ∙ take-append payload rest pl refl))

digits-InLine : (s : Bytes) → All (λ c. is_digit c ≡ true) s → All InLine s
digits-InLine [] h = tt
digits-InLine (c ∷ s) h =
    ((ground (arith, h.0), ground (arith, h.0), ground (arith, h.0)), digits-InLine s h.1)

abbrev length_line : ℕ → Bytes
length_line n = (b'O' ∷ b'K' ∷ b' ' ∷ []) ++ decimal n

length_line-InLine : (n : ℕ) → All InLine (length_line n)
length_line-InLine n = (
  (refl, refl, refl),
  ((refl, refl, refl), ((refl, refl, refl), digits-InLine (decimal n) (decimal-All_digits n))),
)

length_line-fits : (n : ℕ) → n ≤ max_vector → length (length_line n) ≤ 56
length_line-fits n h = omega (arith, length-decimal 15 n (omega arith))

after_header-length :
    (n : ℕ) (behind : Bytes) (later : List Event)
    → n ≤ max_vector
    → after_header false (length_line n) behind later ≡ read_payload n behind later
unfolding after_header same_bytes with_length
after_header-length n behind later h =
    let large : ltb max_vector n ≡ false = ground arith in
    let longer : (length (length_line n) == 2) ≡ false = ground arith in
    rw (longer, after_header)
      (rw (atol_signed-decimal n (omega arith), after_header) (rw (large, with_length) refl))

-- An answer with a length and a payload is given as the raw vector of the payload.
pub receive-bytes :
    (payload rest : Bytes) (es : List Event)
    → length payload ≤ max_vector
    → arriving es ≡ ok_length (length payload) ++ payload ++ rest
    → receive false es ≡ bytes payload
receive-bytes payload rest es h e =
    let n = length payload in
    let (behind, later, is, follows, exact) =
      receive-after false (length_line n) (payload ++ rest) es (length_line-InLine n)
        (length_line-fits n h)
        (e
          ∙ (append_assoc (ok_length n) payload rest
              ∙ append_assoc (length_line n) (10 ∷ []) (payload ++ rest))) in
    is
    ∙ (after_header-length n behind later h ∙ read_payload-whole payload rest behind later follows)

-- An answer with an object is given as what is restored of the object.
restore-append :
    (x : Sexp) (rest : Bytes) → Restorable x → restore (encode x ++ rest) ≡ ok (canon x, rest)
unfolding restore
restore-append x rest r =
    sfs_load-encode x rest (suc (length (encode x ++ rest))) r
      (omega (arith, length-append (encode x) rest))

after_header-object :
    (x : Sexp) (rest behind : Bytes) (later : List Event)
    → Restorable x
    → arriving later ≡ encode x ++ rest
    → after_header true (b'O' ∷ b'K' ∷ b' ' ∷ b'?' ∷ []) behind later ≡ object (canon x)
unfolding after_header same_bytes sock_restore restored loaded
after_header-object x rest behind later r e =
    ap (λ s. restored (loaded (restore s))) e
    ∙ ap (λ s. restored (loaded s)) (restore-append x rest r)

pub receive-object :
    (x : Sexp) (rest : Bytes) (es : List Event)
    → Restorable x
    → arriving es ≡ ok_sfs_text ++ encode x ++ rest
    → receive true es ≡ object (canon x)
receive-object x rest es r e =
    let (behind, later, is, follows, exact) =
      receive-after true (b'O' ∷ b'K' ∷ b' ' ∷ b'?' ∷ []) (encode x ++ rest) es
        ((refl, refl, refl), ((refl, refl, refl), ((refl, refl, refl), ((refl, refl, refl), tt))))
        (omega arith) e in
    let none_yet = exact refl (omega arith) in
    is
    ∙ after_header-object x rest behind later r
        (ap (λ b. b ++ arriving later) (sym none_yet) ∙ follows)
