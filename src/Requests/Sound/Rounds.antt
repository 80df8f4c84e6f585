-- ===== src/Requests/Sound/Rounds.antt =====
-- The rounds of `http_connected` of src/http.c: the invariant, and the end of every connection.
use osrv.Base.{
  ℕ, zero, suc, ◌+◌, ◌-◌, ◌≤◌, ◌<◌, ◌≡◌, refl, sym, subst, List, ◌++◌, Option, none, some, length,
  arith, length-append,
}
use osrv.Base.Bytes.{Bytes}
use osrv.Stores.Reads.{Event}
use osrv.Requests.{ℤ, Part, request_part, header_part, body_part, Client, line_buf_size, new_client}
use osrv.Requests.Sound.{Sound, Bodied, After, Ended}
use osrv.Requests.Sound.Lines.{Head, Heading}
use osrv.Requests.Sound.Steps.{process_and_close-After, Heading-Bodied, read_buffer-Goes}
use osrv.Requests.Turn.{
  Received, got, ended, failed, recv, State, ready, waiting, corrupted, shut, out_of_fuel, Out,
  Turn,
}
use osrv.Requests.Connection.{
  at_close, after_recv, go_on, then_body, iteration_in, iteration, next_turn, connected_loop, size,
  http_connected,
}
use osrv.Requests.Sound.Receiving.{Recvd, recv-Recvd, Goes-After, body_turn-After}

-- Before the body.
abbrev Early : Part → Type 0
Early body_part = ⊥
Early request_part = Unit
Early header_part = Unit

Bodied-Heading :
    (lack : ℕ) (part : Part) (b : Option Bytes) (n : ℤ)
    → Early part
    → Bodied lack part b n
    → Heading part b
Bodied-Heading lack body_part b n e h = absurd e
Bodied-Heading lack request_part none n e h = tt
Bodied-Heading lack request_part (some b) n e h = h
Bodied-Heading lack header_part none n e h = tt
Bodied-Heading lack header_part (some b) n e h = h

Sound-Head : (lack : ℕ) (c : Client) → Early c.part → Sound lack c → Head c
Sound-Head lack c e s = record {
  room = s.room;
  buffers = s.buffers;
  heading = Bodied-Heading lack c.part c.req.body c.req.content_length e s.bodied;
}

-- Nothing of a body is missing before the body.
no_body-Sound : (c : Client) → Early c.part → Sound 0 c → Sound 1 c
no_body-Sound c e s = record {
  room = s.room;
  buffers = s.buffers;
  bodied = Heading-Bodied 1 c.part c.req.body c.req.content_length (Sound-Head 0 c e s).heading;
}

module _ (fresh : ℕ → Bytes) where
  at_close-After :
      (before : ℕ) (o : Option Bytes) (c : Client) (rest : ℕ)
      → After 0 before (at_close fresh o c).state rest
  unfolding at_close
  at_close-After before none c rest = tt
  at_close-After before (some p) c rest =
      process_and_close-After fresh 0 before rest c c.headers refl

  after_recv-Goes :
      (n : ℕ) (es : List Event) (o : Option (Received × List Event)) (c : Client)
      → Head c
      → Sound 1 c
      → length c.line_buf + n < line_buf_size
      → Recvd n es o
      → After 0 (size es) (after_recv fresh o c).0.state (size (after_recv fresh o c).1)
  unfolding after_recv
  after_recv-Goes n es none c hd s room h = s
  after_recv-Goes n es (some (failed, rest)) c hd s room h = tt
  after_recv-Goes n es (some (ended, rest)) c hd s room h =
      at_close-After (size es) c.req.path c (size rest)
  after_recv-Goes n es (some (got b, rest)) c hd s room (few, less) =
      Goes-After 0 (size es) _ (size rest)
        (read_buffer-Goes fresh (record c { line_buf = c.line_buf ++ b })
          (record {
            room = omega (arith, length-append c.line_buf b);
            buffers = hd.buffers;
            heading = hd.heading;
          }))
        less

  go_on-After :
      (before : ℕ) (part : Part) (es : List Event) (c : Client)
      → c.part ≡ part
      → Sound 0 c
      → size es < before
      → After 1 before (go_on fresh part es c).0.state (size (go_on fresh part es c).1)
  unfolding go_on
  go_on-After before body_part es c p s h =
      body_turn-After fresh 0 before es c p s (omega arith) (omega arith)
  go_on-After before request_part es c p s h = (no_body-Sound c (subst Early (sym p) tt) s, h)
  go_on-After before header_part es c p s h = (no_body-Sound c (subst Early (sym p) tt) s, h)

  then_body-After :
      (before : ℕ) (state : State) (log : List Out) (es : List Event)
      → After 0 before state (size es)
      → After 1 before
          (then_body fresh state log es).0.state
          (size (then_body fresh state log es).1)
  unfolding then_body
  then_body-After before (ready c) log es (s, h) = go_on-After before c.part es c refl s h
  then_body-After before (waiting c) log es h = h
  then_body-After before shut log es h = tt
  then_body-After before (corrupted c) log es h = h
  then_body-After before out_of_fuel log es h = h

  recv_turn-After :
      (es : List Event) (c : Client)
      → Early c.part
      → Sound 1 c
      → let t = after_recv fresh (recv (line_buf_size - length c.line_buf - 1) es) c in
        After 1
          (size es)
          (then_body fresh t.0.state t.0.log t.1).0.state
          (size (then_body fresh t.0.state t.0.log t.1).1)
  recv_turn-After es c e s =
      let t = after_recv fresh (recv (line_buf_size - length c.line_buf - 1) es) c in
      then_body-After (size es) t.0.state t.0.log t.1 (
        after_recv-Goes (line_buf_size - length c.line_buf - 1) es
          (recv (line_buf_size - length c.line_buf - 1) es) c (Sound-Head 1 c e s) s
          (omega (arith, s.room)) (recv-Recvd (line_buf_size - length c.line_buf - 1) es))

  iteration_in-After :
      (part : Part) (es : List Event) (c : Client)
      → c.part ≡ part
      → Sound 1 c
      → After 1
          (size es)
          (iteration_in fresh part es c).0.state
          (size (iteration_in fresh part es c).1)
  unfolding iteration_in
  iteration_in-After body_part es c p s =
      body_turn-After fresh 1 (size es) es c p s (omega arith) (omega arith)
  iteration_in-After request_part es c p s = recv_turn-After es c (subst Early (sym p) tt) s
  iteration_in-After header_part es c p s = recv_turn-After es c (subst Early (sym p) tt) s

  -- A turn keeps the invariant, and one that goes on has read something, unless collect_buffers writes
  -- past the first header buffer, because the header lines are longer than it.
  pub iteration-After :
      (es : List Event) (c : Client)
      → Sound 1 c
      → After 1 (size es) (iteration fresh es c).0.state (size (iteration fresh es c).1)
  unfolding iteration
  iteration-After es c s = iteration_in-After c.part es c refl s

  next_turn-Ended :
      (f before : ℕ) (next : List Event → Client → Turn) (state : State) (log : List Out)
      (es : List Event)
      → After 1 before state (size es)
      → before ≤ f
      → ((rest : List Event) (d : Client) → Sound 1 d → size rest < f → Ended (next rest d).state)
      → Ended (next_turn next state log es).state
  unfolding next_turn
  next_turn-Ended f before next (ready c) log es (s, h) le k = k es c s (omega arith)
  next_turn-Ended f before next (waiting c) log es h le k = h
  next_turn-Ended f before next shut log es h le k = tt
  next_turn-Ended f before next (corrupted c) log es h le k = h
  next_turn-Ended f before next out_of_fuel log es h le k = h

  connected_loop-Ended :
      (f : ℕ) (es : List Event) (c : Client)
      → Sound 1 c
      → size es < f
      → Ended (connected_loop fresh f es c).state
  unfolding connected_loop
  connected_loop-Ended zero es c s h = absurd (omega arith)
  connected_loop-Ended (suc f) es c s h =
      let t = iteration fresh es c in
      next_turn-Ended f (size es) (connected_loop fresh f) t.0.state t.0.log t.1
        (iteration-After es c s) (omega arith)
        (λ (rest : List Event) (d : Client) (q : Sound 1 d) (l : size rest < f).
          connected_loop-Ended f rest d q l)

  -- Whatever arrives, the loop of a connection ends: the connection is closed, or waits in a `recv`
  -- that does not return, with its invariant, or the header lines are longer than the first header
  -- buffer and collect_buffers writes past it, from where on nothing is said.
  pub http_connected-Ended : (es : List Event) → Ended (http_connected fresh es).state
  unfolding http_connected new_client
  http_connected-Ended es =
      connected_loop-Ended (suc (size es)) es new_client
        (record { room = omega arith; buffers = tt; bodied = tt }) (omega arith)
