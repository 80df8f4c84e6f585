-- ===== src/Requests/Sound/Receiving.antt =====
-- The body of a request of src/http.c: a turn that receives it keeps the invariant.
use osrv.Base.{
  ℕ, zero, suc, ◌+◌, ◌-◌, ◌≤◌, ◌<◌, ◌≡◌, refl, sym, ◌∙◌, subst, List, [], ◌∷◌, ◌++◌, Option, none,
  some, ◌==◌, ltb, length, drop, All, Bool-cases, inl, inr, arith, length-take, length-drop,
  length-append,
}
use osrv.Base.Bytes.{Bytes}
use osrv.Stores.Reads.{Event, chunk, again, broken, closed, unread}
use osrv.Requests.{ℤ, pos, negsuc, Part, body_part, Client, line_buf_size}
use osrv.Requests.Sound.{Sound, Bodied, After}
use osrv.Requests.Sound.Steps.{Goes, finish_request-Goes, process_and_close-After}
use osrv.Requests.Headers.Bounds.{Fits}
use osrv.Requests.Turn.{
  Received, got, ended, failed, recv, State, ready, waiting, corrupted, shut, out_of_fuel, missing,
  is_complete, after_body, after_more, receive_body,
}
use osrv.Requests.Connection.{body_of, body_turn, size}

-- A `recv` of something takes at most the bytes that it asks for, from what could arrive.
abbrev pub Recvd : ℕ → List Event → Option (Received × List Event) → Type 0
Recvd n es (some (got b, rest)) = (length b ≤ n) × (size rest < size es)
Recvd n es _ = Unit

size_rest :
    (b : Bytes) (es : List Event)
    → size (elim b [ [] ↦ es | c ∷ cs ↦ chunk c cs ∷ es ]) ≡ length b + size es
unfolding size
size_rest [] es = omega arith
size_rest (c ∷ cs) es = omega arith

pub recv-Recvd : (n : ℕ) (es : List Event) → Recvd n es (recv n es)
unfolding recv unread size
recv-Recvd zero [] = tt
recv-Recvd zero (chunk c cs ∷ es) = tt
recv-Recvd zero (again ∷ es) = tt
recv-Recvd zero (broken ∷ es) = tt
recv-Recvd zero (closed ∷ es) = tt
recv-Recvd (suc n) [] = tt
recv-Recvd (suc n) (chunk c cs ∷ es) =
    (omega (arith, length-take n cs), omega (arith, size_rest (drop n cs) es, length-drop n cs))
recv-Recvd (suc n) (again ∷ es) = tt
recv-Recvd (suc n) (broken ∷ es) = tt
recv-Recvd (suc n) (closed ∷ es) = tt

pub Goes-After :
    (lack before : ℕ) (s : State) (rest : ℕ)
    → Goes lack s
    → rest < before
    → After lack before s rest
Goes-After lack before (ready c) rest g h = (g, h)
Goes-After lack before (waiting c) rest g h = absurd g
Goes-After lack before shut rest g h = tt
Goes-After lack before (corrupted c) rest g h = g
Goes-After lack before out_of_fuel rest g h = g

-- What `Bodied` says of a connection in the part of the body.
record Receiving (lack : ℕ) (c : Client) (b : Bytes) : Type 0 where
  whole : ℕ
  has_length : c.req.content_length ≡ pos whole
  within : length b + lack ≤ whole
  small : whole ≤ 2147483640

counted-Receiving :
    (lack : ℕ) (c : Client) (b : Bytes) (z : ℤ)
    → c.req.content_length ≡ z
    → Bodied lack body_part (some b) z
    → Receiving lack c b
counted-Receiving lack c b (pos n) e (h, small) = record {
  whole = n;
  has_length = e;
  within = h;
  small = small;
}
counted-Receiving lack c b (negsuc n) e h = absurd h

counted-Bodied :
    (lack : ℕ) (b : Bytes) (part : Part) (z : ℤ) (n : ℕ)
    → part ≡ body_part
    → z ≡ pos n
    → length b + lack ≤ n
    → n ≤ 2147483640
    → Bodied lack part (some b) z
counted-Bodied lack b part z n p e h small =
    subst (λ (q : Part). Bodied lack q (some b) z) (sym p)
      (subst (λ (w : ℤ). Bodied lack body_part (some b) w) (sym e) ((h, small)))

pub missing_of : (z : ℤ) (b : Bytes) (n : ℕ) → z ≡ pos n → missing z b ≡ n - length b
unfolding missing
missing_of z b n e = rw e refl

is_complete_of : (z : ℤ) (b : Bytes) (n : ℕ) → z ≡ pos n → is_complete z b ≡ (length b == n)
unfolding is_complete
is_complete_of z b n e = rw e refl

incomplete-Sound :
    (c : Client) (b : Bytes)
    → length c.line_buf < line_buf_size
    → All Fits c.headers
    → c.part ≡ body_part
    → c.req.body ≡ some b
    → (r : Receiving 0 c b) → length b < r.whole
    → Sound 1 c
incomplete-Sound c b room fits p e r lt = record {
  room = room;
  buffers = fits;
  bodied =
      subst (λ (o : Option Bytes). Bodied 1 c.part o c.req.content_length) (sym e)
        (counted-Bodied 1 b c.part c.req.content_length r.whole p r.has_length (omega arith)
          r.small);
}

module _ (fresh : ℕ → Bytes) where
  after_body-After :
      (before : ℕ) (b : Bytes) (c : Client) (rest : ℕ)
      → length c.line_buf < line_buf_size
      → All Fits c.headers
      → c.part ≡ body_part
      → c.req.body ≡ some b
      → Receiving 0 c b
      → rest < before
      → After 1 before (after_body fresh b c).state rest
  unfolding after_body
  after_body-After before b c rest room fits p e r h =
      elim (Bool-cases (is_complete c.req.content_length b)) [
        | inl t ↦ rw t (
            Goes-After 1 before _ rest
              (finish_request-Goes fresh 1 (ltb 0 (length c.line_buf)) c room) h)
        | inr t ↦ rw t (
            (
              incomplete-Sound c b room fits p e r (
                  ground (
                    arith,
                    r.within,
                    sym (is_complete_of c.req.content_length b r.whole r.has_length) ∙ t,
                  )),
              h,
            ))
      ]

  after_more-After :
      (before need : ℕ) (b : Bytes) (o : Option (Received × List Event)) (es : List Event)
      (c : Client)
      → length c.line_buf < line_buf_size
      → All Fits c.headers
      → c.part ≡ body_part
      → c.req.body ≡ some b
      → (r : Receiving 0 c b) → length b < r.whole
      → need ≡ r.whole - length b
      → Recvd need es o
      → size es ≤ before
      → After 1 before (after_more fresh b o es c).0.state (size (after_more fresh b o es c).1)
  unfolding after_more
  after_more-After before need b none es c room fits p e r lt n h le =
      incomplete-Sound c b room fits p e r lt
  after_more-After before need b (some (ended, rest)) es c room fits p e r lt n h le =
      process_and_close-After fresh 1 before (size rest) c c.headers refl
  after_more-After before need b (some (failed, rest)) es c room fits p e r lt n h le = tt
  after_more-After before need b (some (got more, rest)) es c room fits p e r lt n h le =
      after_body-After before (b ++ more)
        (record c { line_buf = []; req = record (c.req) { body = some (b ++ more) } }) (size rest)
        (omega arith) fits p refl
        (record {
          whole = r.whole;
          has_length = r.has_length;
          within = omega (arith, length-append b more, h);
          small = r.small;
        })
        (omega (arith, h))

  receive_body-After :
      (lack before : ℕ) (b : Bytes) (es : List Event) (c : Client)
      → length c.line_buf < line_buf_size
      → All Fits c.headers
      → c.part ≡ body_part
      → c.req.body ≡ some b
      → Receiving lack c b
      → lack ≤ 1
      → size es < before + lack
      → After 1 before (receive_body fresh b es c).0.state (size (receive_body fresh b es c).1)
  unfolding receive_body
  receive_body-After lack before b es c room fits p e r l h =
      let weak : Receiving 0 c b = record {
        whole = r.whole;
        has_length = r.has_length;
        within = omega (arith, r.within);
        small = r.small;
      } in
      let need : missing c.req.content_length b ≡ r.whole - length b =
        missing_of c.req.content_length b r.whole r.has_length in
      elim (Bool-cases (ltb 0 (missing c.req.content_length b))) [
        | inl t ↦ rw t (
            after_more-After before (missing c.req.content_length b) b
              (recv (missing c.req.content_length b) es) es c room fits p e weak
              (ground (arith, t, need)) need (recv-Recvd (missing c.req.content_length b) es)
              (omega arith))
        | inr t ↦ rw t (
            after_body-After before b c (size es) room fits p e weak
              (ground (arith, t, need, r.within, h, l)))
      ]

  body_of-After :
      (lack before : ℕ) (o : Option Bytes) (es : List Event) (c : Client)
      → c.part ≡ body_part
      → c.req.body ≡ o
      → length c.line_buf < line_buf_size
      → All Fits c.headers
      → Bodied lack body_part o c.req.content_length
      → lack ≤ 1
      → size es < before + lack
      → After 1 before (body_of fresh o es c).0.state (size (body_of fresh o es c).1)
  unfolding body_of
  body_of-After lack before none es c p e room fits b l h = absurd b
  body_of-After lack before (some b) es c p e room fits bodied l h =
      receive_body-After lack before b es c room fits p e
        (counted-Receiving lack c b c.req.content_length refl bodied) l h

  -- The part of the body; only a body that is counted is expected there.
  pub body_turn-After :
      (lack before : ℕ) (es : List Event) (c : Client)
      → c.part ≡ body_part
      → Sound lack c
      → lack ≤ 1
      → size es < before + lack
      → After 1 before (body_turn fresh es c).0.state (size (body_turn fresh es c).1)
  unfolding body_turn
  body_turn-After lack before es c p s l h =
      body_of-After lack before c.req.body es c p refl s.room s.buffers
        (subst (λ (q : Part). Bodied lack q c.req.body c.req.content_length) p s.bodied) l h
