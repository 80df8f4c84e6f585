-- ===== src/Http/Store/Answers.antt =====
-- The result of `http_store` on a socket that works.
use osrv.Base.{
  ℕ, zero, suc, ◌≤◌, ◌≡◌, refl, ◌&&◌, ◌||◌, List, [], ◌∷◌, ◌++◌, Option, none, some, ltb, leb, ◌==◌,
  Bool-cases, inl, inr, length, length-drop, drop, min, arith,
}
use osrv.Base.Bytes.{Bytes, le_bytes}
use osrv.Sfs.Object.{Sexp}
use osrv.Sfs.Store.{Call, header_word, store}
use osrv.Http.{
  Answer, took, Conn, Code, ok, closed, error, out_of_fuel, crlf, send_next, send_loop, http_send,
  hex_size, and_then, http_send_chunk,
}
use osrv.Http.Store.{
  Api, min_inplace_size, room, if_ok, send_buffer, flush, place, buf_add, add_block, add, add_all,
  finish, send_last, http_store,
}

-- A socket that takes some bytes whenever it is given some.
abbrev pub Takes : (ℕ → ℕ → Answer) → Type 0
Takes net = (i n : ℕ) → (k : ℕ) × (net i n ≡ took (suc k))

and_then-res :
    (r : Code × Conn) (k : Conn → Code × Conn) → r.0 ≡ ok → (k r.1).0 ≡ ok → (and_then r k).0 ≡ ok
unfolding and_then
and_then-res (ok, c) k h e = e
and_then-res (closed, c) k h e = h
and_then-res (error, c) k h e = h
and_then-res (out_of_fuel, c) k h e = h

if_ok-res : (r : Code) (f : Api → Api) (a : Api) → r ≡ ok → (f a).res ≡ ok → (if_ok r f a).res ≡ ok
unfolding if_ok
if_ok-res r f a h e = rw (h, if_ok) e

send_next-res :
    (loop : Conn → Bytes → Code × Conn) (c : Conn) (b : ℕ) (bs : Bytes) (a : Answer) (k : ℕ)
    → a ≡ took (suc k)
    → ((d : Conn) (buf : Bytes) → length buf ≤ length bs → (loop d buf).0 ≡ ok)
    → (send_next closed loop c (b ∷ bs) a).0 ≡ ok
unfolding send_next
send_next-res loop c b bs a k e h =
    rw (e, send_next) (h _ (drop k bs) (omega (arith, length-drop k bs)))

module _ (net : ℕ → ℕ → Answer) (takes : Takes net) where
  pub send_loop-res :
      (f : ℕ) (c : Conn) (buf : Bytes) → length buf ≤ f → (send_loop net f c buf).0 ≡ ok
  unfolding send_loop
  send_loop-res f c [] h = refl
  send_loop-res zero c (b ∷ bs) h = absurd (omega arith)
  send_loop-res (suc f) c (b ∷ bs) h =
      let (k, e) = takes c.calls (min (suc (length bs)) 1_048_576) in
      send_next-res (send_loop net f) c b bs _ k e (λ d buf l. send_loop-res f d buf (omega arith))

  http_send-res : (c : Conn) (buf : Bytes) → (http_send net c buf).0 ≡ ok
  unfolding http_send
  http_send-res c buf = send_loop-res (length buf) c buf (omega arith)

  http_send_chunk-res : (c : Conn) (buf : Bytes) → (http_send_chunk net c buf).0 ≡ ok
  unfolding http_send_chunk
  http_send_chunk-res c [] = http_send-res c (b'0' ∷ (crlf ++ crlf))
  http_send_chunk-res c (b ∷ bs) =
      and_then-res (http_send net c (hex_size (length (b ∷ bs)) ++ crlf)) _
        (http_send-res c (hex_size (length (b ∷ bs)) ++ crlf))
        (and_then-res (http_send net _ (b ∷ bs)) _ (http_send-res _ (b ∷ bs))
          (http_send-res _ crlf))

  flush-res : (what : Bytes) (a : Api) → a.res ≡ ok → (flush net what a).res ≡ ok
  unfolding flush send_buffer
  flush-res what a h =
      let guard =
        ltb (room a) (length what)
        && (leb min_inplace_size (length a.buf) || leb min_inplace_size (length what)) in
      elim (Bool-cases guard) [
        | inl e ↦
            rw (e, flush)
              (if_ok-res (http_send_chunk net a.conn a.buf).0 (λ b. record b { buf = [] })
                (record a {
                  conn = (http_send_chunk net a.conn a.buf).1;
                  res = (http_send_chunk net a.conn a.buf).0;
                })
                (http_send_chunk-res a.conn a.buf) (http_send_chunk-res a.conn a.buf))
        | inr e ↦ rw (e, flush) h
      ]

  place-res : (what : Bytes) (a : Api) → a.res ≡ ok → (place net what a).res ≡ ok
  unfolding place
  place-res what a h =
      elim (Bool-cases ((length a.buf == 0) && leb min_inplace_size (length what))) [
        | inl e ↦ rw (e, place) (http_send_chunk-res a.conn what)
        | inr e ↦ rw (e, place) h
      ]

  buf_add-res : (what : Bytes) (a : Api) → a.res ≡ ok → (buf_add net what a).res ≡ ok
  unfolding buf_add
  buf_add-res what a h =
      let flushed = flush-res what a h in
      if_ok-res a.res (λ b. if_ok (flush net what b).res (place net what) (flush net what b)) a h
        (if_ok-res (flush net what a).res (place net what) (flush net what a) flushed
          (place-res what (flush net what a) flushed))

  add_block-res : (n : ℕ) (o : Option Bytes) (a : Api) → a.res ≡ ok → (add_block net n o a).res ≡ ok
  unfolding add_block
  add_block-res n none a h = h
  add_block-res n (some block) a h = buf_add-res _ a h

  add_all-res : (ks : List Call) (a : Api) → a.res ≡ ok → (add_all net ks a).res ≡ ok
  unfolding add_all add
  add_all-res [] a h = h
  add_all-res (k ∷ ks) a h =
      add_all-res ks (add net k a)
        (add_block-res _ k.buf _ (buf_add-res (le_bytes 8 (header_word k.ts k.len)) a h))

  finish-res : (a : Api) → a.res ≡ ok → (finish net a).res ≡ ok
  unfolding finish
  finish-res a h = elim (Bool-cases (length a.buf == 0)) [
    | inl e ↦ rw (e, finish) h
    | inr e ↦ rw (e, finish) (http_send_chunk-res a.conn a.buf)
  ]

  -- On a socket that takes some bytes whenever it is given some, `http_store` ends with 0, whatever
  -- `malloc` left in the fields.
  pub http_store-res :
      (len : ℕ) (junk : Bytes) (c : Conn) (x : Sexp) → (http_store net len junk c x).0 ≡ ok
  unfolding http_store send_last
  http_store-res len junk c x =
      let a = add_all net (store x) (record { conn = c; res = ok; len = len; buf = junk }) in
      let added =
        add_all-res (store x) (record { conn = c; res = ok; len = len; buf = junk }) refl in
      let b = if_ok a.res (finish net) a in
      let finished = if_ok-res a.res (finish net) a added (finish-res a added) in
      if_ok-res b.res (send_last net) b finished (http_send_chunk-res b.conn [])
