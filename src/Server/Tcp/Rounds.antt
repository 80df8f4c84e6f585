-- ===== src/Server/Tcp/Rounds.antt =====
-- What the requests of the TCP protocol do, as the text that a client sends.
use osrv.Base.{
  min, ◌^◌, ℕ, zero, suc, ◌-◌, ◌<◌, ◌≡◌, refl, ap, sym, ◌∙◌, true, false, ◌&&◌, ◌||◌, List, [], ◌∷◌,
  ◌++◌, Option, none, some, ltb, leb, ◌==◌, length, take, take_all, drop-append, All, arith,
}
use osrv.Base.Bytes.{Bytes}
use osrv.Base.Decimal.{
  is_digit, decimal, atol, skip_digits, atol-decimal, skip_digits-decimal, decimal-head,
}
use osrv.Sfs.Object.{same_bytes}
use osrv.Server.Objects.{Entry}
use osrv.Server.Objects.Stacks.{top}
use osrv.Server.State.{Server, add, get, entries, get-entries}
use osrv.Server.Tcp.{
  go, discard, reply, unchecked, ok_text, ok_length, split_line, trim_end, upper_prefix,
  skip_blanks, skip_newlines, argument, sized, skip_line_end, size_line, long_max, get_entry,
  do_get, do_has, do_del, put_payload, do_put, get_command, has_command, del_command, put_command,
  run, round, run_line, line_text, run_text, run_after, is_newline,
}

-- A byte that ends no line.
abbrev pub InLine : ℕ → Type 0
InLine c = ((c == 10) ≡ false) × ((c == 0) ≡ false) × ((c == 13) ≡ false)

abbrev StartsPlain : Bytes → Type 0
StartsPlain [] = Unit
StartsPlain (c ∷ cs) = (c == b' ' || c == 9) ≡ false

-- A key that can be sent: no CR, LF or NUL, and no blank at its beginning.
abbrev pub IsSendable : Bytes → Type 0
IsSendable key = All InLine key × StartsPlain key

abbrev pub IsUpper : ℕ → Type 0
IsUpper c = (leb b'A' c && leb c b'Z') ≡ true

pub split_line-append :
    (t b : Bytes) → All InLine t → split_line (t ++ 10 ∷ b) ≡ record { text = t; behind = some b }
unfolding split_line
split_line-append [] b h = refl
split_line-append (c ∷ t) b h = rw ((h.0).0, (h.0).1, split_line-append t b h.1)

trim_end-id : (t : Bytes) → All InLine t → trim_end t ≡ t
unfolding trim_end
trim_end-id [] h = refl
trim_end-id (c ∷ []) h = rw ((h.0).2)
trim_end-id (c ∷ d ∷ t) h = rw (trim_end-id (d ∷ t) h.1)

upper_prefix-append : (cmd rest : Bytes) → All IsUpper cmd → upper_prefix (cmd ++ b' ' ∷ rest) ≡ cmd
unfolding upper_prefix
upper_prefix-append [] rest h = refl
upper_prefix-append (c ∷ cmd) rest h = rw (h.0, upper_prefix-append cmd rest h.1)

skip_blanks-id : (key : Bytes) → StartsPlain key → skip_blanks key ≡ key
unfolding skip_blanks
skip_blanks-id [] h = refl
skip_blanks-id (c ∷ key) h = rw h

upper-InLine : (cmd : Bytes) → All IsUpper cmd → All InLine cmd
upper-InLine [] h = tt
upper-InLine (c ∷ cmd) h = ((ground arith, ground arith, ground arith), upper-InLine cmd h.1)

All-append : (xs ys : Bytes) → All InLine xs → All InLine ys → All InLine (xs ++ ys)
All-append [] ys h k = k
All-append (x ∷ xs) ys h k = (h.0, All-append xs ys h.1 k)

-- A request line.
abbrev pub request : Bytes → Bytes → Bytes → Bytes
request cmd key behind = (cmd ++ b' ' ∷ key) ++ 10 ∷ behind

pub round-request :
    (cmd key behind : Bytes) (s : Server)
    → All IsUpper cmd
    → IsSendable key
    → round (request cmd key behind) s ≡ run cmd key (some behind) s
unfolding round run_line line_text run_text run_after argument
round-request cmd key behind s up ok =
    let text = cmd ++ b' ' ∷ key in
    let plain = All-append cmd (b' ' ∷ key) (upper-InLine cmd up) ((refl, refl, refl), ok.0) in
    rw (split_line-append text behind plain) (
      rw (trim_end-id text plain) (
        rw (upper_prefix-append cmd key up) (
          rw (drop-append cmd (b' ' ∷ key) (length cmd) refl)
            (ap (λ k. run cmd k (some behind) s) blanks))))
  where
    blanks : skip_blanks (b' ' ∷ key) ≡ key
    blanks = unfold skip_blanks in skip_blanks-id key ok.1

-- The size line of a PUT.
size_line-digit :
    (c d : ℕ) (cs ds : Bytes)
    → is_digit c ≡ true
    → skip_digits (c ∷ cs) ≡ d ∷ ds
    → is_newline d ≡ true
    → size_line (skip_newlines (c ∷ cs))
      ≡ sized (min (atol 0 (c ∷ cs)) long_max) (skip_line_end (d ∷ ds))
unfolding size_line skip_newlines
size_line-digit c d cs ds h e k =
    let stays : is_newline c ≡ false = ground arith in rw (stays) (rw (h, e, size_line) (rw k))

skip_line_end-newline : (payload : Bytes) → skip_line_end (10 ∷ payload) ≡ payload
unfolding skip_line_end
skip_line_end-newline [] = refl
skip_line_end-newline (c ∷ cs) = refl

size_line-decimal :
    (n : ℕ) (payload : Bytes)
    → n < 2 ^ 63
    → size_line (skip_newlines (decimal n ++ 10 ∷ payload)) ≡ sized n payload
size_line-decimal n payload small =
    let least : min n long_max ≡ n = omega arith in
    let (c, cs, e, digit) = decimal-head n in
    let text : c ∷ (cs ++ 10 ∷ payload) ≡ decimal n ++ 10 ∷ payload =
      ap (λ t. t ++ 10 ∷ payload) (sym e) in
    let read =
      size_line-digit c 10 (cs ++ 10 ∷ payload) payload digit
        (rw text (skip_digits-decimal n 10 payload refl)) refl in
    rw (text, atol-decimal n 10 payload refl, least, skip_line_end-newline payload) at read

-- The abstract store: a stack of entries for each key.
abbrev Stacks : Type 0
Stacks = Bytes → List Entry

do_put-sized :
    (key behind part : Bytes) (n : ℕ) (s : Server)
    → size_line (skip_newlines behind) ≡ sized n part
    → do_put key (some behind) s ≡ put_payload key n part s
unfolding do_put
do_put-sized key behind part n s e = rw (e, do_put)

pub run-put :
    (key : Bytes) (behind : Option Bytes) (s : Server)
    → run put_command key behind s ≡ do_put key behind s
unfolding run same_bytes
run-put key behind s = refl

pub run-get :
    (key : Bytes) (behind : Option Bytes) (s : Server) → run get_command key behind s ≡ do_get key s
unfolding run same_bytes
run-get key behind s = refl

pub run-has :
    (key : Bytes) (behind : Option Bytes) (s : Server) → run has_command key behind s ≡ do_has key s
unfolding run same_bytes
run-has key behind s = refl

pub run-del :
    (key : Bytes) (behind : Option Bytes) (s : Server) → run del_command key behind s ≡ do_del key s
unfolding run same_bytes
run-del key behind s = refl

pub round-put :
    (key part : Bytes) (n : ℕ) (s : Server)
    → IsSendable key
    → n < 2 ^ 63
    → round (request put_command key (decimal n ++ 10 ∷ part)) s ≡ put_payload key n part s
round-put key part n s ok small =
    round-request put_command key (decimal n ++ 10 ∷ part) s (refl, (refl, (refl, tt))) ok
    ∙ run-put key (some (decimal n ++ 10 ∷ part)) s
    ∙ do_put-sized key (decimal n ++ 10 ∷ part) part n s (size_line-decimal n part small)

pub round-get :
    (key behind : Bytes) (s : Server)
    → IsSendable key
    → round (request get_command key behind) s ≡ do_get key s
round-get key behind s ok =
    round-request get_command key behind s (refl, (refl, (refl, tt))) ok
    ∙ run-get key (some behind) s

pub put_payload-whole :
    (key payload : Bytes) (s : Server)
    → 0 < length payload
    → put_payload key (length payload) payload s
      ≡ unchecked (add key none (some payload) (length payload) s) ok_text go
unfolding put_payload
put_payload-whole key [] s h = absurd (omega arith)
put_payload-whole key (c ∷ cs) s h =
    let within : leb (suc (length cs)) (suc (length cs)) ≡ true = ground arith in
    let exact : ltb (suc (length cs)) (suc (length cs)) ≡ false = ground arith in
    rw (within, exact, put_payload, take_all cs (length cs) (omega arith))

pub do_get-data :
    (key d : Bytes) (e : Entry) (s : Server)
    → top (entries key s) ≡ some e
    → e.obj ≡ some d
    → do_get key s
      ≡ record (reply (get key false s).1 [] go) { sent = ok_length e.len ∷ take e.len d ∷ [] }
unfolding do_get get_entry
do_get-data key d e s h k = rw ((get-entries key key false s).0 ∙ h, do_get) (rw k)

put_payload-short :
    (key part : Bytes) (n : ℕ) (s : Server)
    → length part < n
    → put_payload key n part s ≡ reply s [] (discard (n - length part))
unfolding put_payload
put_payload-short key part zero s h = absurd (omega arith)
put_payload-short key part (suc n) s h =
    let beyond : leb (suc n) (length part) ≡ false = ground arith in rw beyond

-- A PUT whose payload is not wholly in the buffer stores nothing and answers nothing, whatever the
-- bytes that come later: the server is as it was, and the missing bytes are read and dropped. The
-- key is one that can be sent, the length is one of a long, and malloc gives a buffer of it.
pub round-put_short :
    (key part : Bytes) (n : ℕ) (s : Server)
    → IsSendable key
    → length part < n
    → n < 2 ^ 63
    → round (request put_command key (decimal n ++ 10 ∷ part)) s
      ≡ reply s [] (discard (n - length part))
round-put_short key part n s ok h small =
    round-put key part n s ok small ∙ put_payload-short key part n s h
