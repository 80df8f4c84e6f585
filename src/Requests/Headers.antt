-- ===== src/Requests/Headers.antt =====
-- The buffers that src/http.c records the header lines in. `malloc` succeeds.
pub mod Bounds
use osrv.Base.{
  ℕ, zero, suc, ◌+◌, ◌-◌, ◌*◌, Bool, List, [], ◌∷◌, ◌++◌, ltb, leb, ◌==◌, if◌then◌else◌, length,
  take, drop,
}
use osrv.Base.Bytes.{Bytes}
use osrv.Base.Text.{codes}
use osrv.Requests.{Raw, HeaderBuf}

unfoldable pub alloc_buffer : ℕ → HeaderBuf
alloc_buffer size = record { size = size; text = [] }

abbrev pub append : Bytes → HeaderBuf → HeaderBuf
append bytes h = record h { text = h.text ++ bytes }

-- `while (n >= needs) needs <<= 1`.
unfoldable pub grow : ℕ → ℕ → ℕ → ℕ
grow zero n needs = needs
grow (suc f) n needs = let more = grow f n (2 * needs) in if leb needs n then more else needs

-- A line and a newline at the end of the last buffer, or partly in a new one.
unfoldable pub add_line : Bytes → HeaderBuf → List HeaderBuf → List HeaderBuf
unfolding grow alloc_buffer
add_line line h older =
    let l = length line in
    let fits = h.size - length h.text in
    if ltb h.size (length h.text + l + 1)
    then append (drop fits line ++ 10 ∷ []) (alloc_buffer (grow (l + 1 - fits) (l + 1 - fits) 2048))
      ∷ append (take fits line) h
      ∷ older
    else append (line ++ 10 ∷ []) h ∷ older

-- The record of a header line.
unfoldable pub record_line : Bytes → List HeaderBuf → List HeaderBuf
unfolding add_line alloc_buffer
record_line [] [] = alloc_buffer 1024 ∷ []
record_line [] (h ∷ older) = h ∷ older
record_line (c ∷ cs) [] = add_line (c ∷ cs) (alloc_buffer 1024) []
record_line (c ∷ cs) (h ∷ older) = add_line (c ∷ cs) h older

-- The record of the method, and whether it fits.
unfoldable pub add_method : Bytes → HeaderBuf → List HeaderBuf → Bool × List HeaderBuf
add_method name h older =
    let fits = leb (18 + length name) (h.size - length h.text) in
    (fits, (if fits then append (codes "Request-Method: " ++ (name ++ 10 ∷ [])) h else h) ∷ older)

unfoldable pub record_method : Bytes → List HeaderBuf → Bool × List HeaderBuf
unfolding add_method alloc_buffer
record_method name [] = add_method name (alloc_buffer 1024) []
record_method name (h ∷ older) = add_method name h older

-- The bytes of a chain of buffers, in order.
unfoldable pub recorded : List HeaderBuf → Bytes
recorded [] = []
recorded (h ∷ older) = recorded older ++ h.text

-- The size of the first buffer, which is the last one of the list.
unfoldable pub first_size : List HeaderBuf → ℕ
first_size [] = 0
first_size (h ∷ []) = h.size
first_size (h ∷ d ∷ older) = first_size (d ∷ older)

-- What `collect_buffers` does: nothing; or it gives a block and leaves this text in the data of the
-- first buffer; or it writes past the end of the first buffer.
pub data Collected : Type 0 where
  no_buffers : Collected
  collected : Raw → Bytes → Collected
  past_buffer : Collected

-- `collect_buffers`. All parts are copied to the data of the first buffer, and nothing to the block;
-- `fresh n` is what `malloc` leaves in `n` bytes.
unfoldable pub collect_buffers : (ℕ → Bytes) → List HeaderBuf → Collected
unfolding recorded first_size
collect_buffers fresh [] = no_buffers
collect_buffers fresh (h ∷ older) =
    let copied = recorded (h ∷ older) in
    let n = length copied in
    if leb n (first_size (h ∷ older))
    then collected (record { length = n; bytes = fresh n }) copied
    else past_buffer
