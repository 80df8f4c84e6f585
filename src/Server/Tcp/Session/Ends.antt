-- ===== src/Server/Tcp/Session/Ends.antt =====
-- The loop of a connection of the TCP protocol ends.
use osrv.Base.{
  ℕ, zero, suc, ◌-◌, ◌≤◌, ◌<◌, ap, List, [], ◌∷◌, ◌++◌, Option, none, some, Bool-cases, inl, inr,
  length, length-append, length-take, length-drop, take, drop, arith,
}
use osrv.Base.Bytes.{Bytes}
use osrv.Requests.Connection.{size}
use osrv.Http.{Answer, Conn, Code, ok, closed, error, out_of_fuel, and_then}
use osrv.Http.Sending.{Delivers, http_send-Delivers}
use osrv.Server.State.{Server}
use osrv.Server.Tcp.{Next, go, discard, close, crash, Round, round}
use osrv.Server.Tcp.Session.{
  max_request, fetch_size, Ended, shut, waiting, crashed, unfinished, discard_loop, follow,
  after_store, send_all, stream, after_sends, after_round, received, session_loop, do_process,
}
use osrv.Sfs.Object.{Sexp}
use osrv.Stores.Files.{Reply, Outcome, ok, header_error, write_error, out_of_fuel, fd_store}
use osrv.Stores.Files.Stops.{Stops, fd_store-Stops}
use osrv.Stores.Reads.{Event, chunk, again, broken, closed, unread, need_of, arriving}
use osrv.Stores.Reads.Delivered.{arriving-unread, need_of-bounds}

-- A read of something leaves less.
size-unread :
    (need c : ℕ) (cs : Bytes) (es : List Event)
    → 0 < need
    → size (unread need (c ∷ cs) es) < size (chunk c cs ∷ es)
unfolding size unread
size-unread zero c cs es p = absurd (omega arith)
size-unread (suc n) c cs es p = go (drop n cs) (omega (arith, length-drop n cs))
  where
    go :
        (r : Bytes)
        → length r ≤ length cs
        → size (elim r [ [] ↦ es | d ∷ ds ↦ chunk d ds ∷ es ]) < size (chunk c cs ∷ es)
    go [] h = omega arith
    go (d ∷ ds) h = omega arith

-- Either fewer than `left` bytes were to arrive and the read waits, or no more is left to read.
pub data Dropped (left : ℕ) (es : List Event) : Option (List Event) → Type 0 where
  waits : length (arriving es) < left → Dropped left es none
  dropped : {rest : List Event} → size rest ≤ size es → Dropped left es (some rest)

Dropped-piece :
    (left need c : ℕ) (cs : Bytes) (es : List Event) (r : Option (List Event))
    → 0 < need
    → need ≤ left
    → Dropped (left - length (take need (c ∷ cs))) (unread need (c ∷ cs) es) r
    → Dropped left (chunk c cs ∷ es) r
unfolding arriving
Dropped-piece left need c cs es none p n (waits h) = waits (
    omega (
      arith,
      ap length (arriving-unread need (c ∷ cs) es),
      length-append (drop need (c ∷ cs)) (arriving es),
      length-append (c ∷ cs) (arriving es),
      length-drop need (c ∷ cs),
      length-take need (c ∷ cs),
    ))
Dropped-piece left need c cs es (some rest) p n (dropped h) =
    dropped (omega (arith, size-unread need c cs es p))

discard_loop-Dropped :
    (f left : ℕ) (es : List Event) → left < f → Dropped left es (discard_loop f left es)
unfolding discard_loop arriving size
discard_loop-Dropped zero left es h = absurd (omega arith)
discard_loop-Dropped (suc f) zero es h = dropped (omega arith)
discard_loop-Dropped (suc f) (suc n) [] h = waits (omega arith)
discard_loop-Dropped (suc f) (suc n) (again ∷ es) h = dropped (omega arith)
discard_loop-Dropped (suc f) (suc n) (broken ∷ es) h = dropped (omega arith)
discard_loop-Dropped (suc f) (suc n) (closed ∷ es) h = dropped (omega arith)
discard_loop-Dropped (suc f) (suc n) (chunk c cs ∷ es) h =
    let need = need_of fetch_size (suc n) in
    let (some_need, within) = need_of-bounds fetch_size (suc n) (omega arith) (omega arith) in
    Dropped-piece (suc n) need c cs es _ some_need within (
      discard_loop-Dropped f (suc n - length (take need (c ∷ cs))) (unread need (c ∷ cs) es)
        (omega (arith, length-take need (c ∷ cs))))

-- The loop of a connection is done.
abbrev pub Done : Ended → Type 0
Done (shut c s) = Unit
Done (waiting c s) = Unit
Done (crashed s) = Unit
Done unfinished = ⊥

abbrev IsSent : Code × Conn → Type 0
IsSent (out_of_fuel, c) = ⊥
IsSent (_, c) = Unit

module _ (net : ℕ → ℕ → Answer) where
  and_then-IsSent :
      (c : Conn) (b : Bytes) (r : Code × Conn) (next : Conn → Code × Conn)
      → Delivers c b r
      → ((d : Conn) → IsSent (next d))
      → IsSent (and_then r next)
  unfolding and_then
  and_then-IsSent c b (ok, d) next h k = k d
  and_then-IsSent c b (closed, d) next h k = tt
  and_then-IsSent c b (error, d) next h k = tt
  and_then-IsSent c b (out_of_fuel, d) next h k = h

  send_all-IsSent : (c : Conn) (bs : List Bytes) → IsSent (send_all net c bs)
  unfolding send_all
  send_all-IsSent c [] = tt
  send_all-IsSent c (b ∷ bs) =
      and_then-IsSent c b _ _ ((http_send-Delivers net c b).2) (λ (d : Conn). send_all-IsSent d bs)

  -- The rest of the loop is done on what is left to read.
  abbrev Goes : ℕ → (Conn → Server → List Event → Ended) → Type 0
  Goes n next = (c : Conn) (s : Server) (es : List Event) → size es < n → Done (next c s es)

  follow-Dropped :
      (next : Conn → Server → List Event → Ended) (n left : ℕ) (es : List Event) (c : Conn)
      (s : Server) (r : Option (List Event))
      → size es < n
      → Goes n next
      → Dropped left es r
      → Done (elim r as (λ x. Ended) [ none ↦ waiting c s | some rest ↦ next c s rest ])
  follow-Dropped next n left es c s none h g d = tt
  follow-Dropped next n left es c s (some rest) h g (dropped k) = g c s rest (omega arith)

  follow-Done :
      (next : Conn → Server → List Event → Ended) (n : ℕ) (es : List Event) (c : Conn) (s : Server)
      (x : Next)
      → size es < n
      → Goes n next
      → Done (follow next es c s x)
  unfolding follow
  follow-Done next n es c s go h g = g c s es h
  follow-Done next n es c s (discard left) h g =
      follow-Dropped next n left es c s _ h g
        (discard_loop-Dropped (suc left) left es (omega arith))
  follow-Done next n es c s close h g = tt
  follow-Done next n es c s crash h g = tt

module _ (net : ℕ → ℕ → Answer) (write : ℕ → Bytes → Reply) where
  after_store-Done :
      (s : Server) (c : Conn) (next : Conn → Ended) (r : Outcome)
      → Stops r
      → ((d : Conn) → Done (next d))
      → Done (after_store s c next r)
  unfolding after_store
  after_store-Done s c next (ok fd) h g = g (record c { sent = c.sent ++ fd.out })
  after_store-Done s c next header_error h g = tt
  after_store-Done s c next write_error h g = tt
  after_store-Done s c next out_of_fuel h g = h

  stream-Done :
      (s : Server) (c : Conn) (next : Conn → Ended) (x : Option Sexp)
      → ((d : Conn) → Done (next d))
      → Done (stream net write s c next x)
  unfolding stream
  stream-Done s c next none g = g c
  stream-Done s c next (some x) g =
      after_store-Done s c next (fd_store write x) (fd_store-Stops write x) g

  after_sends-Done :
      (next : Conn → Server → List Event → Ended) (n : ℕ) (es : List Event) (r : Round)
      (x : Code × Conn)
      → IsSent x
      → ((c : Conn) → Done (follow next es c r.server r.next))
      → Done (after_sends net write next es r x)
  unfolding after_sends
  after_sends-Done next n es r (ok, c) i g =
      stream-Done r.server c (λ d. follow next es d r.server r.next) r.streamed g
  after_sends-Done next n es r (closed, c) i g = elim (Bool-cases r.checked) [
    | inl e ↦ rw e tt
    | inr e ↦ rw e (g c)
  ]
  after_sends-Done next n es r (error, c) i g = elim (Bool-cases r.checked) [
    | inl e ↦ rw e tt
    | inr e ↦ rw e (g c)
  ]
  after_sends-Done next n es r (out_of_fuel, c) i g = i

  received-Done :
      (next : Conn → Server → List Event → Ended) (n f : ℕ) (c : Conn) (s : Server) (b : ℕ)
      (bs : Bytes) (es : List Event)
      → 0 < n
      → size (chunk b bs ∷ es) ≤ f
      → Goes net f next
      → Done (received net write next n c s (b ∷ bs) es)
  unfolding received after_round
  received-Done next n f c s b bs es p h g =
      let rest = unread n (b ∷ bs) es in
      let r = round (take n (b ∷ bs)) s in
      after_sends-Done next f rest r _ (send_all-IsSent net c r.sent) (λ (d : Conn).
        follow-Done net next f rest d r.server r.next (omega (arith, size-unread n b bs es p)) g)

  session_loop-Done :
      (f : ℕ) (c : Conn) (s : Server) (es : List Event)
      → size es < f
      → Done (session_loop net write f c s es)
  unfolding session_loop
  session_loop-Done zero c s es h = absurd (omega arith)
  session_loop-Done (suc f) c s [] h = tt
  session_loop-Done (suc f) c s (again ∷ es) h = tt
  session_loop-Done (suc f) c s (broken ∷ es) h = tt
  session_loop-Done (suc f) c s (closed ∷ es) h = tt
  session_loop-Done (suc f) c s (chunk b bs ∷ es) h =
      received-Done (session_loop net write f) max_request f c s b bs es (omega arith) (omega arith)
        (λ (c : Conn) (s : Server) (es : List Event) h. session_loop-Done f c s es h)

  -- Whatever arrives and whatever `send` and `write` answer, `do_process` ends: it closes the
  -- socket, waits in a `recv` that does not return, or leaves the thread.
  pub do_process-Done : (s : Server) (es : List Event) → Done (do_process net write s es)
  unfolding do_process
  do_process-Done s es =
      session_loop-Done (suc (size es)) (record { sent = []; calls = 0 }) s es (omega arith)
