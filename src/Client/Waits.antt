-- ===== src/Client/Waits.antt =====
-- When the loop of `C_ask` over the first line of an answer ends.
use osrv.Base.{
  ℕ, zero, suc, ◌+◌, ◌-◌, ◌≤◌, ◌<◌, ◌≡◌, Bool, true, false, List, [], ◌∷◌, ◌++◌, ltb, Bool-cases,
  inl, inr, Option-cases, length, take, drop, arith,
}
use osrv.Base.Bytes.{Bytes}
use osrv.Client.{
  Answer, unfinished, not_loaded, Headed, headed, stops, buf_size, need_of, read_more, header_round,
  header_loop,
}
use osrv.Client.Header.{need_of-positive, unread-smaller}
use osrv.Server.Tcp.{split_line}
use osrv.Sfs.Load.{ok, out_of_fuel}
use osrv.Stores.Reads.{Event, chunk, again, broken, closed, ok, out_of_fuel, unread, arriving}

-- No end of the stream follows a `recv` that timed out. `retry` says that one has.
abbrev pub NoStale : Bool → List Event → Type 0
NoStale retry [] = Unit
NoStale retry (chunk c cs ∷ es) = NoStale retry es
NoStale retry (again ∷ es) = NoStale true es
NoStale retry (broken ∷ es) = Unit
NoStale retry (closed ∷ es) = retry ≡ false

NoStale-unread :
    (need : ℕ) (retry : Bool) (b : Bytes) (es : List Event)
    → NoStale retry es
    → NoStale retry (unread need b es)
unfolding unread
NoStale-unread need retry b es h = go (drop need b)
  where
    go : (r : Bytes) → NoStale retry (elim r [ [] ↦ es | c ∷ cs ↦ chunk c cs ∷ es ])
    go [] = h
    go (c ∷ cs) = h

-- An answer of a call that is done.
abbrev pub Answers : Answer → Type 0
Answers unfinished = ⊥
Answers (not_loaded out_of_fuel) = ⊥
Answers _ = Unit

abbrev pub IsDone : Headed → Type 0
IsDone (headed t b es) = Unit
IsDone (stops a) = Answers a

abbrev Goes : ℕ → (Bool → Bytes → List Event → Headed) → Type 0
Goes size next =
    (retry : Bool) (got : Bytes) (es : List Event)
    → NoStale retry es
    → length (arriving es) + length es < size
    → IsDone (next retry got es)

read_more-IsDone :
    (next : Bool → Bytes → List Event → Headed) (size : ℕ) (use_sfs retry : Bool) (got : Bytes)
    (es : List Event)
    → Goes size next
    → length got ≤ 56
    → NoStale retry es
    → length (arriving es) + length es ≤ size
    → IsDone (read_more next use_sfs retry got es)
unfolding read_more arriving
read_more-IsDone next size use_sfs retry got [] g k n h = tt
read_more-IsDone next size use_sfs retry got (again ∷ es) g k n h = g true got es n (omega arith)
read_more-IsDone next size use_sfs retry got (broken ∷ es) g k n h = tt
read_more-IsDone next size use_sfs true got (closed ∷ es) g k n h =
    absurd (let clash : true ≡ false = n in cc)
read_more-IsDone next size use_sfs false got (closed ∷ es) g k n h = tt
read_more-IsDone next size use_sfs retry got (chunk c cs ∷ es) g k n h =
    let need = need_of use_sfs (length got) in
    g retry (got ++ take need (c ∷ cs)) (unread need (c ∷ cs) es)
      (NoStale-unread need retry (c ∷ cs) es n)
      (omega (arith, unread-smaller need c cs es (need_of-positive use_sfs (length got) k)))

-- Otherwise the loop ends: with a line, an error, or in a `recv` that does not return.
pub header_loop-IsDone :
    (f : ℕ) (use_sfs retry : Bool) (got : Bytes) (es : List Event)
    → NoStale retry es
    → length (arriving es) + length es < f
    → IsDone (header_loop f use_sfs retry got es)
unfolding header_loop header_round
header_loop-IsDone zero use_sfs retry got es n h = absurd (omega arith)
header_loop-IsDone (suc f) use_sfs retry got es n h = elim (Option-cases (split_line got).behind) [
  | inl e ↦ elim (Bool-cases (ltb (buf_size - 8) (length got))) [
    | inl full ↦ rw (e, header_loop, header_round) (rw full tt)
    | inr room ↦
        rw (e, header_loop, header_round)
          (rw room (
            read_more-IsDone (header_loop f use_sfs) f use_sfs retry got es
              (λ (r : Bool) (g : Bytes) (es : List Event) n h.
                header_loop-IsDone f use_sfs r g es n h)
              (ground arith) n (omega arith)))
  ]
  | inr (b, e) ↦ rw (e, header_loop, header_round) tt
]
