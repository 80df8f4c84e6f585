-- ===== src/Http/Sending.antt =====
-- The loops that send: what has been sent when they end.
use osrv.Base.{
  ℕ, zero, suc, ◌+◌, ◌≤◌, ◌≡◌, refl, sym, ap, ◌∙◌, [], ◌∷◌, ◌++◌, append_assoc, append-nil, inl,
  inr, ◌⊎◌, subst, length, length-drop, take, drop, take-append-drop, arith,
}
use osrv.Base.Bytes.{Bytes}
use osrv.Http.{
  Answer, took, failed, Conn, Code, ok, closed, error, out_of_fuel, after, failing, send_loop,
  send_next, http_send, response_loop, send_response, send_buf,
}

-- With the result 0 all of `buf` was sent after what was before, with 1 or -1 a prefix of it.
abbrev pub Delivers : Conn → Bytes → Code × Conn → Type 0
Delivers c buf (ok, d) = d.sent ≡ c.sent ++ buf
Delivers c buf (closed, d) = (n : ℕ) × (d.sent ≡ c.sent ++ take n buf)
Delivers c buf (error, d) = (n : ℕ) × (d.sent ≡ c.sent ++ take n buf)
Delivers c buf (out_of_fuel, d) = ⊥

take-take-drop : (j n : ℕ) (xs : Bytes) → take j xs ++ take n (drop j xs) ≡ take (j + n) xs
take-take-drop zero n xs = let e : 0 + n ≡ n = omega arith in rw e
take-take-drop (suc j) zero [] = let e : suc j + 0 ≡ suc j = omega arith in rw e
take-take-drop (suc j) (suc n) [] = let e : suc j + suc n ≡ suc (j + suc n) = omega arith in rw e
take-take-drop (suc j) n (x ∷ xs) =
    let e : suc j + n ≡ suc (j + n) = omega arith in rw e (ap (◌∷◌ x) (take-take-drop j n xs))

more :
    (c : Conn) (k : ℕ) (buf : Bytes) (r : Code × Conn)
    → Delivers (after c k buf) (drop k buf) r
    → Delivers c buf r
more c k buf (ok, d) h =
    h ∙ append_assoc c.sent (take k buf) (drop k buf) ∙ ap (◌++◌ c.sent) (take-append-drop k buf)
more c k buf (closed, d) (n, h) =
    (k + n, h ∙ append_assoc c.sent (take k buf) _ ∙ ap (◌++◌ c.sent) (take-take-drop k n buf))
more c k buf (error, d) (n, h) =
    (k + n, h ∙ append_assoc c.sent (take k buf) _ ∙ ap (◌++◌ c.sent) (take-take-drop k n buf))
more c k buf (out_of_fuel, d) h = h

-- The results of a loop that stops.
abbrev Stops : Code → Type 0
Stops nothing = (nothing ≡ closed) ⊎ (nothing ≡ error)

stopped :
    (c : Conn) (buf : Bytes) (nothing : Code) → Stops nothing → Delivers c buf (nothing, failing c)
stopped c buf nothing (inl e) =
    subst (λ r. Delivers c buf (r, failing c)) (sym e) (0, sym (append-nil c.sent))
stopped c buf nothing (inr e) =
    subst (λ r. Delivers c buf (r, failing c)) (sym e) (0, sym (append-nil c.sent))

send_next-Delivers :
    (nothing : Code) (loop : Conn → Bytes → Code × Conn) (c : Conn) (b : ℕ) (bs : Bytes)
    (a : Answer)
    → Stops nothing
    → ((d : Conn) (buf : Bytes) → length buf ≤ length bs → Delivers d buf (loop d buf))
    → Delivers c (b ∷ bs) (send_next nothing loop c (b ∷ bs) a)
unfolding send_next
send_next-Delivers nothing loop c b bs failed s h = stopped c (b ∷ bs) error (inr refl)
send_next-Delivers nothing loop c b bs (took zero) s h = stopped c (b ∷ bs) nothing s
send_next-Delivers nothing loop c b bs (took (suc k)) s h =
    more c (suc k) (b ∷ bs) _ (h _ (drop k bs) (omega (arith, length-drop k bs)))

send_loop-Delivers :
    (net : ℕ → ℕ → Answer) (f : ℕ) (c : Conn) (buf : Bytes)
    → length buf ≤ f
    → Delivers c buf (send_loop net f c buf)
unfolding send_loop
send_loop-Delivers net f c [] h = sym (append-nil c.sent)
send_loop-Delivers net zero c (b ∷ bs) h = absurd (omega arith)
send_loop-Delivers net (suc f) c (b ∷ bs) h =
    send_next-Delivers closed (send_loop net f) c b bs _ (inl refl)
      (λ d buf k. send_loop-Delivers net f d buf (omega arith))

response_loop-Delivers :
    (net : ℕ → ℕ → Answer) (f : ℕ) (c : Conn) (buf : Bytes)
    → length buf ≤ f
    → Delivers c buf (response_loop net f c buf)
unfolding response_loop
response_loop-Delivers net f c [] h = sym (append-nil c.sent)
response_loop-Delivers net zero c (b ∷ bs) h = absurd (omega arith)
response_loop-Delivers net (suc f) c (b ∷ bs) h =
    send_next-Delivers error (response_loop net f) c b bs _ (inr refl)
      (λ d buf k. response_loop-Delivers net f d buf (omega arith))

-- Whatever the socket answers, `http_send`, `send_response` and `send_buf` end: with 0, and then all
-- bytes have been sent behind what was sent before, or with 1 or -1, and then a prefix of them has
-- been sent.
pub http_send-Delivers :
    (net : ℕ → ℕ → Answer) (c : Conn) (buf : Bytes)
    → Delivers c buf (http_send net c buf)
      × Delivers c buf (send_response net c buf)
      × Delivers c buf (send_buf net c buf)
unfolding http_send send_response send_buf
http_send-Delivers net c buf = (
  send_loop-Delivers net (length buf) c buf (omega arith),
  response_loop-Delivers net (length buf) c buf (omega arith),
  send_loop-Delivers net (length buf) c buf (omega arith),
)

-- What the results 0 mean.
pub delivered :
    (c : Conn) (buf : Bytes) (r : Code × Conn)
    → Delivers c buf r
    → r.0 ≡ ok
    → r.1.sent ≡ c.sent ++ buf
delivered c buf (ok, d) h e = h
delivered c buf (closed, d) h e = absurd (cc e)
delivered c buf (error, d) h e = absurd (cc e)
delivered c buf (out_of_fuel, d) h e = absurd h

pub http_send-ok :
    (net : ℕ → ℕ → Answer) (c : Conn) (buf : Bytes)
    → (http_send net c buf).0 ≡ ok
    → (http_send net c buf).1.sent ≡ c.sent ++ buf
http_send-ok net c buf e = delivered c buf (http_send net c buf) (http_send-Delivers net c buf).0 e
