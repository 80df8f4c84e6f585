-- ===== src/Server/Tcp.antt =====
-- `do_process` of src/osrv.c: one round of the TCP protocol, from what one `recv` has read.
pub mod Rounds
pub mod Session
pub mod Commands
use osrv.Base.{
  min, ◌^◌, ◌-◌, ℕ, zero, suc, ◌+◌, ◌-◌, Bool, true, false, not, ◌&&◌, ◌||◌, List, [], ◌∷◌, ◌++◌,
  Option, none, some, ltb, leb, ◌==◌, if◌then◌else◌, length, take, drop,
}
use osrv.Base.Bytes.{Bytes}
use osrv.Base.Decimal.{is_digit, decimal, atol, skip_digits}
use osrv.Sfs.Object.{Sexp, same_bytes}
use osrv.Server.Objects.{Entry}
use osrv.Server.State.{Server, add, get}

-- What comes after a round: the next `recv`; `len` more bytes that are read and dropped; the end of
-- the connection; a read or write at a null pointer.
pub data Next : Type 0 where
  go : Next
  discard : ℕ → Next
  close : Next
  crash : Next

-- `sent` is the texts that `send_buf` is given one after the other, and `streamed` the object that
-- `fd_store` sends after them. `checked` says that the connection ends if a text cannot be sent.
pub record Round : Type 0 where
  pub server : Server
  pub sent : List Bytes
  pub checked : Bool
  pub streamed : Option Sexp
  pub next : Next

abbrev pub reply : Server → Bytes → Next → Round
reply s text next = record {
  server = s;
  sent = text ∷ [];
  checked = true;
  streamed = none;
  next = next;
}

-- A text whose sending is not checked.
abbrev pub unchecked : Server → Bytes → Next → Round
unchecked s text next = record (reply s text next) { checked = false }

abbrev pub nf_text : Bytes
nf_text = b'N' ∷ b'F' ∷ 10 ∷ []

abbrev pub ok_text : Bytes
ok_text = b'O' ∷ b'K' ∷ 10 ∷ []

abbrev pub ok_sfs_text : Bytes
ok_sfs_text = b'O' ∷ b'K' ∷ b' ' ∷ b'?' ∷ 10 ∷ []

abbrev pub inv_text : Bytes
inv_text = b'I' ∷ b'N' ∷ b'V' ∷ 10 ∷ []

abbrev pub unsupp_text : Bytes
unsupp_text = b'U' ∷ b'N' ∷ b'S' ∷ b'U' ∷ b'P' ∷ b'P' ∷ 10 ∷ []

abbrev pub ok_length : ℕ → Bytes
ok_length n = (b'O' ∷ b'K' ∷ b' ' ∷ []) ++ decimal n ++ 10 ∷ []

abbrev pub is_newline : ℕ → Bool
is_newline c = c == 10 || c == 13

-- The text up to the first newline or NUL, and what is behind the newline if there was one.
pub record Line : Type 0 where
  pub text : Bytes
  pub behind : Option Bytes

unfoldable pub split_line : Bytes → Line
split_line [] = record { text = []; behind = none }
split_line (c ∷ cs) =
    let rest = split_line cs in
    if c == 10
    then record { text = []; behind = some cs }
    else if c == 0
    then record { text = []; behind = none }
    else record rest { text = c ∷ rest.text }

-- The walk of `d` back over CR.
unfoldable pub trim_end : Bytes → Bytes
trim_end [] = []
trim_end (c ∷ cs) =
    let rest = trim_end cs in
    elim rest [ [] ↦ if c == 13 then [] else c ∷ [] | d ∷ ds ↦ c ∷ d ∷ ds ]

unfoldable pub upper_prefix : Bytes → Bytes
upper_prefix [] = []
upper_prefix (c ∷ cs) =
    let rest = upper_prefix cs in if leb b'A' c && leb c b'Z' then c ∷ rest else []

unfoldable pub skip_blanks : Bytes → Bytes
skip_blanks [] = []
skip_blanks (c ∷ cs) = let rest = skip_blanks cs in if c == b' ' || c == 9 then rest else c ∷ cs

unfoldable pub skip_newlines : Bytes → Bytes
skip_newlines [] = []
skip_newlines (c ∷ cs) = let rest = skip_newlines cs in if is_newline c then rest else c ∷ cs

-- `*e = 0` cuts the argument off if no blank stands before it.
unfoldable pub argument : Bytes → Bytes
unfolding skip_blanks
argument [] = []
argument (c ∷ cs) = if c == b' ' || c == 9 then skip_blanks (c ∷ cs) else []

-- The size line of a PUT, -1 for `?`, and the payload that is in the buffer.
pub data Size : Type 0 where
  sized : ℕ → Bytes → Size
  unknown : Size
  invalid : Size

-- One CR LF, or one of the two. (The size is one that `atol` can represent.)
unfoldable pub skip_line_end : Bytes → Bytes
skip_line_end [] = []
skip_line_end (c ∷ []) = []
skip_line_end (c ∷ d ∷ cs) = if c == 13 && d == 10 then cs else d ∷ cs

-- LONG_MAX, which `atol` gives for any number that is larger.
abbrev pub long_max : ℕ
long_max = 2 ^ 63 - 1

unfoldable pub size_line : Bytes → Size
unfolding skip_line_end
size_line [] = invalid
size_line (c ∷ cs) =
    let digits = skip_digits (c ∷ cs) in
    if is_digit c
    then elim digits [
      | [] ↦ invalid
      | d ∷ ds ↦
          if is_newline d
          then sized (min (atol 0 (c ∷ cs)) long_max) (skip_line_end (d ∷ ds))
          else invalid
    ]
    else if c == b'?'
    then elim cs [ [] ↦ invalid | d ∷ ds ↦ if is_newline d then unknown else invalid ]
    else invalid

-- GET of an entry. An entry with neither data nor an object is serialised from a null pointer.
unfoldable pub get_entry : Entry → Server → Round
get_entry o s = elim o.obj [
  | some d ↦ record (reply s [] go) { sent = ok_length o.len ∷ take o.len d ∷ [] }
  | none ↦ record {
    server = s;
    sent = ok_sfs_text ∷ [];
    checked = true;
    streamed = o.what;
    next = elim o.what [ none ↦ crash | some x ↦ close ];
  }
]

unfoldable pub do_get : Bytes → Server → Round
unfolding get_entry
do_get key s =
    let r = get key false s in elim r.0 [ none ↦ reply r.1 nf_text go | some o ↦ get_entry o r.1 ]

unfoldable pub do_has : Bytes → Server → Round
do_has key s =
    let r = get key false s in
    elim r.0 [ none ↦ reply r.1 nf_text go | some o ↦ reply r.1 ok_text go ]

unfoldable pub do_del : Bytes → Server → Round
do_del key s =
    let r = get key true s in
    elim r.0 [ none ↦ reply r.1 nf_text go | some o ↦ reply r.1 ok_text go ]

-- The payload of a PUT of `len` bytes, of which `part` has arrived, where `malloc` gives the buffer. What is read after that goes to
-- a buffer which is given to nobody.
unfoldable pub put_payload : Bytes → ℕ → Bytes → Server → Round
put_payload key zero part s = reply s unsupp_text go
put_payload key (suc n) part s =
    if leb (suc n) (length part)
    then unchecked (add key none (some (take (suc n) part)) (suc n) s) ok_text
        (if ltb (suc n) (length part) then close else go)
    else reply s [] (discard (suc n - length part))

unfoldable pub do_put : Bytes → Option Bytes → Server → Round
unfolding put_payload size_line
do_put key none s = reply s [] crash
do_put key (some behind) s = elim (size_line (skip_newlines behind)) [
  | invalid ↦ unchecked s inv_text close
  | unknown ↦ reply s unsupp_text go
  | sized n part ↦ put_payload key n part s
]

abbrev pub get_command : Bytes
get_command = b'G' ∷ b'E' ∷ b'T' ∷ []

abbrev pub has_command : Bytes
has_command = b'H' ∷ b'A' ∷ b'S' ∷ []

abbrev pub del_command : Bytes
del_command = b'D' ∷ b'E' ∷ b'L' ∷ []

abbrev pub put_command : Bytes
put_command = b'P' ∷ b'U' ∷ b'T' ∷ []

unfoldable pub run : Bytes → Bytes → Option Bytes → Server → Round
unfolding do_get do_has do_del do_put
run cmd key behind s =
    if same_bytes cmd get_command
    then do_get key s
    else if same_bytes cmd has_command
    then do_has key s
    else if same_bytes cmd del_command
    then do_del key s
    else if same_bytes cmd put_command
    then do_put key behind s
    else reply s unsupp_text go

-- The text that the line is cut down to.
unfoldable pub line_text : Line → Bytes
unfolding trim_end
line_text line = elim line.behind [ none ↦ line.text | some b ↦ trim_end line.text ]

-- A command that nothing follows ends the connection.
unfoldable pub run_after : Bytes → Bytes → Option Bytes → Server → Round
unfolding run argument
run_after cmd [] behind s = reply s [] close
run_after cmd (c ∷ cs) behind s = run cmd (argument (c ∷ cs)) behind s

unfoldable pub run_text : Bytes → Option Bytes → Server → Round
unfolding upper_prefix run_after
run_text text behind s =
    run_after (upper_prefix text) (drop (length (upper_prefix text)) text) behind s

unfoldable pub run_line : Line → Server → Round
unfolding line_text run_text
run_line line s = run_text (line_text line) line.behind s

-- A buffer that `recv` has filled.
unfoldable pub round : Bytes → Server → Round
unfolding run_line split_line
round buf s = run_line (split_line buf) s
