-- ===== src/Stores/Reads.antt =====
-- src/fd_restore.c and src/sock_restore.c: `fetch` on a descriptor. The two loops are the same up to
-- the most that is asked for at once. What will arrive is a list of events: a piece of data, an
-- EAGAIN or EWOULDBLOCK, another error, or the end of the stream.
pub mod Delivered
use osrv.Base.{
  ℕ, zero, suc, ◌+◌, ◌-◌, ◌≤◌, ◌<◌, ◌≡◌, refl, ap, sym, ◌∙◌, Bool, true, false, List, [], ◌∷◌, ◌++◌,
  append_assoc, append-nil, ltb, if◌then◌else◌, Bool-cases, inl, inr, min, length, length-append,
  length-take, length-drop, take, drop, take-append-drop, arith,
}
use osrv.Base.Bytes.{Bytes}

pub data Event : Type 0 where
  chunk : ℕ → Bytes → Event
  again : Event
  broken : Event
  closed : Event

pub data Fetched : Type 0 where
  ok : Bytes → List Event → Fetched
  read_error closed_early : Fetched
  -- no event is left: the call blocks
  blocked : Fetched
  out_of_fuel : Fetched

abbrev pub max_recv_file : ℕ
max_recv_file = 134_217_728

abbrev pub max_recv_sock : ℕ
max_recv_sock = 1_048_576

-- What a read of at most `need` bytes leaves of a chunk that is longer.
unfoldable pub unread : ℕ → Bytes → List Event → List Event
unread need b es = elim (drop need b) [ [] ↦ es | c ∷ cs ↦ chunk c cs ∷ es ]

unfoldable pub need_of : ℕ → ℕ → ℕ
need_of max_recv left = if ltb max_recv left then max_recv else left

-- The loop: `got` is the buffer so far, and `left` is `len - i`.
unfoldable pub fetch_loop : ℕ → ℕ → Bytes → ℕ → List Event → Fetched
unfolding unread need_of
fetch_loop zero max_recv got left es = out_of_fuel
fetch_loop (suc f) max_recv got zero es = ok got es
fetch_loop (suc f) max_recv got (suc n) [] = blocked
fetch_loop (suc f) max_recv got (suc n) (again ∷ es) = fetch_loop f max_recv got (suc n) es
fetch_loop (suc f) max_recv got (suc n) (broken ∷ es) = read_error
fetch_loop (suc f) max_recv got (suc n) (closed ∷ es) = closed_early
fetch_loop (suc f) max_recv got (suc n) (chunk c cs ∷ es) =
    let piece = take (need_of max_recv (suc n)) (c ∷ cs) in
    fetch_loop f max_recv (got ++ piece) (suc n - length piece)
      (unread (need_of max_recv (suc n)) (c ∷ cs) es)

-- The bytes that arrive before the stream ends or breaks.
unfoldable pub arriving : List Event → Bytes
arriving [] = []
arriving (chunk c cs ∷ es) = (c ∷ cs) ++ arriving es
arriving (again ∷ es) = arriving es
arriving (broken ∷ es) = []
arriving (closed ∷ es) = []

-- The rounds that a fetch can take: one for each byte and each event.
unfoldable pub rounds : ℕ → List Event → ℕ
rounds len es = suc (len + length es)

unfoldable pub fetch_fd : ℕ → ℕ → List Event → Fetched
unfolding fetch_loop rounds
fetch_fd max_recv len es = fetch_loop (rounds len es) max_recv [] len es

-- `fetch` of src/fd_restore.c, and that of src/sock_restore.c.
unfoldable pub fetch_file : ℕ → List Event → Fetched
unfolding fetch_fd
fetch_file len es = fetch_fd max_recv_file len es

unfoldable pub fetch_sock : ℕ → List Event → Fetched
unfolding fetch_fd
fetch_sock len es = fetch_fd max_recv_sock len es
