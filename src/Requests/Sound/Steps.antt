-- ===== src/Requests/Sound/Steps.antt =====
-- The loop of src/http.c over the line buffer keeps the invariant of the connection and ends.
use osrv.Base.{
  ℕ, zero, suc, ◌-◌, ◌≤◌, ◌<◌, ◌≡◌, refl, sym, ap, subst, List, [], ◌∷◌, Bool, true, false, not,
  ◌&&◌, ◌||◌, Option, none, some, ◌==◌, ltb, lt→ltb, length, take, All, if◌then◌else◌, Bool-cases,
  inl, inr, arith, min, length-take,
}
use osrv.Base.Bytes.{Bytes}
use osrv.Requests.{
  ℤ, pos, negsuc, Part, request_part, header_part, body_part, Client, line_buf_size,
}
use osrv.Requests.Lines.{Handled, handled, refused, process_line}
use osrv.Requests.Scan.{Look, nothing, blank, partial, complete, look}
use osrv.Requests.Scan.Lengths.{Shrinks, look-Shrinks}
use osrv.Requests.Sound.{Sound, Bodied, After}
use osrv.Requests.Sound.Lines.{Head, Heading, Kept, process_line-Kept}
use osrv.Requests.Headers.{collect_buffers}
use osrv.Requests.{HeaderBuf}
use osrv.Requests.Headers.Bounds.{Fits, IsOverrun, collect_buffers-cases}
use osrv.Requests.Turn.{
  State, ready, waiting, corrupted, shut, process_request, process_and_close, with_headers, handed,
  out_of_fuel, Turn, is_zero, is_excessive, is_bodyless, keep_partial, after_line, next_request,
  finish_request, begin_body, choose_body, end_of_headers, read_look, read_lines, read_buffer,
}

-- A turn so far: it goes on with the invariant, or has ended.
abbrev pub Goes : ℕ → State → Type 0
Goes lack (ready c) = Sound lack c
Goes lack (waiting c) = ⊥
Goes lack shut = Unit
Goes lack (corrupted c) = IsOverrun c.headers
Goes lack out_of_fuel = ⊥

pub next_or_shut :
    (lack : ℕ) (b : Bool) (c : Client)
    → length c.line_buf < line_buf_size
    → Goes lack (if b then shut else ready (next_request c))
unfolding next_request
next_or_shut lack true c room = tt
next_or_shut lack false c room = record { room = room; buffers = tt; bodied = tt }

pub Heading-Bodied :
    (lack : ℕ) (part : Part) (b : Option Bytes) (n : ℤ) → Heading part b → Bodied lack part b n
Heading-Bodied lack request_part none n h = tt
Heading-Bodied lack header_part none n h = tt
Heading-Bodied lack request_part (some b) n h = h
Heading-Bodied lack header_part (some b) n h = h
Heading-Bodied lack body_part b n h = absurd h

Head-Sound : (c : Client) → Head c → Sound 0 c
Head-Sound c s = record {
  room = s.room;
  buffers = s.buffers;
  bodied = Heading-Bodied 0 c.part c.req.body c.req.content_length s.heading;
}

body-Bodied :
    (part : Part) (b : Bytes) (z : ℤ) (n : ℕ)
    → part ≡ body_part
    → z ≡ pos n
    → length b ≤ n
    → n ≤ 2147483640
    → Bodied 0 part (some b) z
body-Bodied part b z n p e h small =
    subst (λ (q : Part). Bodied 0 q (some b) z) (sym p)
      (subst (λ (w : ℤ). Bodied 0 body_part (some b) w) (sym e) ((omega arith, small)))

not_excessive :
    (n : ℕ) (lengthy : Bool)
    → lengthy ≡ true
    → (n == 0) ≡ false
    → (lengthy && not (is_zero (pos n)) && is_excessive (pos n)) ≡ false
    → n ≤ 2147483640
unfolding is_zero is_excessive
not_excessive n lengthy t z h = ground (arith, h)

module _ (fresh : ℕ → Bytes) where
  pub process_request-Goes :
      (lack : ℕ) (next : State) (c : Client) (hs : List HeaderBuf)
      → c.headers ≡ hs
      → Goes lack next
      → Goes lack (process_request fresh next c).state
  unfolding process_request handed with_headers collect_buffers
  process_request-Goes lack next c [] e g = rw (e, process_request, handed, collect_buffers) g
  process_request-Goes lack next c (h ∷ older) e g = elim (collect_buffers-cases fresh h older) [
    | inl (fits, is) ↦ rw (e, process_request, handed, is) g
    | inr (over, is) ↦ rw (e, process_request, handed, is) (subst IsOverrun (sym e) over)
  ]

  pub process_and_close-After :
      (lack before rest : ℕ) (c : Client) (hs : List HeaderBuf)
      → c.headers ≡ hs
      → After lack before (process_and_close fresh c).state rest
  unfolding process_and_close process_request handed with_headers collect_buffers
  process_and_close-After lack before rest c [] e =
      rw (e, process_and_close, process_request, handed, collect_buffers) tt
  process_and_close-After lack before rest c (h ∷ older) e =
      elim (collect_buffers-cases fresh h older) [
        | inl (fits, is) ↦ rw (e, process_and_close, process_request, handed, is) tt
        | inr (over, is) ↦
            rw (e, process_and_close, process_request, handed, is) (subst IsOverrun (sym e) over)
      ]

  pub finish_request-Goes :
      (lack : ℕ) (surplus : Bool) (c : Client)
      → length c.line_buf < line_buf_size
      → Goes lack (finish_request fresh surplus c).state
  unfolding finish_request
  finish_request-Goes lack surplus c room =
      let old = c.req.attrs.http_1_0 || c.req.attrs.connection_close || surplus in
      process_request-Goes lack (if old then shut else ready (next_request c)) c c.headers refl
        (next_or_shut lack old c room)

  begin_body-Sound :
      (n : ℕ) (c : Client)
      → length c.line_buf < line_buf_size
      → All Fits c.headers
      → c.part ≡ body_part
      → c.req.content_length ≡ pos n
      → n ≤ 2147483640
      → Sound 0 (begin_body n c)
  unfolding begin_body
  begin_body-Sound n c room fits p l small = record {
    room = omega (arith, length-take (length c.line_buf - min n (length c.line_buf)) c.line_buf);
    buffers = fits;
    bodied =
        body-Bodied c.part (take (min n (length c.line_buf)) c.line_buf) c.req.content_length n p l
          (omega (arith, length-take (min n (length c.line_buf)) c.line_buf)) small;
  }

  choose_body-Goes :
      (lengthy : Bool) (z : ℤ) (c : Client)
      → length c.line_buf < line_buf_size
      → All Fits c.headers
      → c.part ≡ body_part
      → c.req.content_length ≡ z
      → (lengthy && not (is_zero z) && is_excessive z) ≡ false
      → Goes 0 (choose_body fresh lengthy z c).state
  unfolding choose_body
  choose_body-Goes lengthy (negsuc n) c room fits p l small = finish_request-Goes 0 false c room
  choose_body-Goes lengthy (pos n) c room fits p l small =
      elim (Bool-cases (is_bodyless c.req.method || not lengthy || (n == 0))) [
        | inl e ↦ elim (Bool-cases (lengthy && ltb 0 n)) [
          | inl f ↦ rw (e, f) tt
          | inr f ↦ rw (e, f) (finish_request-Goes 0 false c room)
        ]
        | inr e ↦ rw e (
            begin_body-Sound n c room fits p l
              (not_excessive n lengthy (ground arith) (ground arith) small))
      ]

  end_of_headers-Goes :
      (rest : Bytes) (c : Client)
      → length rest < line_buf_size
      → All Fits c.headers
      → Goes 0 (end_of_headers fresh rest c).state
  unfolding end_of_headers
  end_of_headers-Goes rest c room fits =
      elim (Bool-cases (not c.req.attrs.http_1_0 && not c.req.attrs.host_header)) [
        | inl e ↦ rw e tt
        | inr e ↦
            elim (Bool-cases (
              c.req.attrs.content_length
              && not (is_zero c.req.content_length)
              && is_excessive c.req.content_length)) [
                | inl f ↦ rw (e, f) tt
                | inr f ↦
                    rw (e, f)
                      (choose_body-Goes c.req.attrs.content_length c.req.content_length
                        (record c { part = body_part; line_buf = rest }) room fits refl refl f)
              ]
      ]

  keep_partial-Goes :
      (s : Bytes) (c : Client)
      → Head c
      → length s ≤ length c.line_buf
      → Goes 0 (keep_partial s c).state
  unfolding keep_partial
  keep_partial-Goes s c h le = elim (Bool-cases (length s == length c.line_buf)) [
    | inl e ↦ rw (e, lt→ltb (length c.line_buf) line_buf_size h.room) (Head-Sound c h)
    | inr e ↦ rw e (record {
      room = omega (arith, h.room);
      buffers = h.buffers;
      bodied = Heading-Bodied 0 c.part c.req.body c.req.content_length h.heading;
    })
  ]

  after_line-Goes :
      (next : Client → Turn) (c : Client) (r : Handled)
      → Kept c r
      → ((d : Client) → Head d → d.line_buf ≡ c.line_buf → Goes 0 (next d).state)
      → Goes 0 (after_line next r).state
  unfolding after_line
  after_line-Goes next c (handled d) (h, e) k = k d h e
  after_line-Goes next c (refused text) h k = tt

  read_look-Goes :
      (next : Bytes → Client → Turn) (l : Look) (s : Bytes) (c : Client)
      → Head c
      → length s ≤ length c.line_buf
      → Shrinks s l
      → ((rest : Bytes) (d : Client)
          → length rest < length s
          → Head d
          → d.line_buf ≡ c.line_buf
          → Goes 0 (next rest d).state)
      → Goes 0 (read_look fresh next l s c).state
  unfolding read_look
  read_look-Goes next nothing s c h le sh k = record {
    room = omega arith;
    buffers = h.buffers;
    bodied = Heading-Bodied 0 c.part c.req.body c.req.content_length h.heading;
  }
  read_look-Goes next (blank rest) s c h le sh k =
      end_of_headers-Goes rest c (omega (arith, h.room)) h.buffers
  read_look-Goes next partial s c h le sh k = keep_partial-Goes s c h le
  read_look-Goes next (complete line rest) s c h le sh k =
      after_line-Goes (next rest) c (process_line c.part line c)
        (process_line-Kept c.part line c refl h)
        (λ (d : Client) (hd : Head d) (e : d.line_buf ≡ c.line_buf). k rest d sh hd e)

  -- A unit of fuel for each byte is enough.
  read_lines-Goes :
      (f : ℕ) (s : Bytes) (c : Client)
      → Head c
      → length s ≤ length c.line_buf
      → length s < f
      → Goes 0 (read_lines fresh f s c).state
  unfolding read_lines
  read_lines-Goes zero s c h le lt = absurd (omega arith)
  read_lines-Goes (suc f) s c h le lt =
      read_look-Goes (read_lines fresh f) (look s) s c h le (look-Shrinks s)
        (λ (rest : Bytes) (d : Client) (sh : length rest < length s) (hd : Head d)
            (e : d.line_buf ≡ c.line_buf).
          read_lines-Goes f rest d hd (omega (arith, ap length e)) (omega arith))

  pub read_buffer-Goes : (c : Client) → Head c → Goes 0 (read_buffer fresh c).state
  unfolding read_buffer
  read_buffer-Goes c h =
      read_lines-Goes (suc (length c.line_buf)) c.line_buf c h (omega arith) (omega arith)
