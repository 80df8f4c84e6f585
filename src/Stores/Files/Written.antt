-- ===== src/Stores/Files/Written.antt =====
-- `fd_store` on a descriptor that takes every write as a whole.
use osrv.Base.{
  ℕ, zero, suc, ◌<◌, ◌≡◌, refl, false, List, [], ◌∷◌, ltb, Option-cases, inl, inr, length,
  length-take, length-drop, take, drop, arith,
}
use osrv.Base.Bytes.{Bytes, le_bytes, length-le_bytes}
use osrv.Sfs.Object.{Sexp}
use osrv.Sfs.Store.{Call, header_word, store, encode}
use osrv.Sfs.RoundTrip.{Restorable}
use osrv.Stores.Files.{
  Reply, wrote, Fd, Outcome, ok, header_error, write_error, out_of_fuel, max_send_size, advance,
  write_loop, size_of, write_payload, add, add_all, fd_store,
}
use osrv.Stores.Files.Sent.{Sent, sent, fd_store-Sent}

abbrev Succeeds : Outcome → Type 0
Succeeds (ok s) = Unit
Succeeds header_error = ⊥
Succeeds write_error = ⊥
Succeeds out_of_fuel = ⊥

-- The store succeeded, and the file holds `target`.
abbrev pub Written : Bytes → Outcome → Type 0
Written target o = (s : Fd) × (o ≡ ok s) × (s.out ≡ target)

abbrev pub TakesAll : (ℕ → Bytes → Reply) → Type 0
TakesAll write = (i : ℕ) (b : Bytes) → write i b ≡ wrote (length b)

Sent-Written : (target : Bytes) (o : Outcome) → Succeeds o → Sent target o → Written target o
Sent-Written target (ok s) h (sent e) = (s, refl, e)
Sent-Written target header_error h k = absurd h
Sent-Written target write_error h k = absurd h
Sent-Written target out_of_fuel h k = absurd h

ltb-positive : (n : ℕ) → 0 < n → ltb n 1 ≡ false
ltb-positive n h = ground arith

module _ (write : ℕ → Bytes → Reply) (takes : TakesAll write) where
  write_loop-Succeeds :
      (f : ℕ) (s : Fd) (rest : Bytes) → length rest < f → Succeeds (write_loop write f s rest)
  unfolding write_loop
  write_loop-Succeeds zero s rest h = absurd (omega arith)
  write_loop-Succeeds (suc f) s [] h = tt
  write_loop-Succeeds (suc f) s (b ∷ rest) h =
      let n = length (take max_send_size (b ∷ rest)) in
      let size = length-take max_send_size (b ∷ rest) in
      let some_bytes : 0 < n = omega (arith, size) in
      let more : ltb n 1 ≡ false = ltb-positive n some_bytes in
      rw (takes s.calls (take max_send_size (b ∷ rest)), write_loop)
        (rw (more) (
          write_loop-Succeeds f (advance write s (b ∷ rest) n) (drop n (b ∷ rest))
            (omega (arith, length-drop n (b ∷ rest), size))))

  write_payload-Succeeds : (s : Fd) (k : Call) → Succeeds (write_payload write s k)
  unfolding write_payload
  write_payload-Succeeds s k = elim (Option-cases k.buf) [
    | inl e ↦ rw (e, write_payload) tt
    | inr (block, e) ↦
        rw (e, write_payload)
          (write_loop-Succeeds (suc (length (take (size_of write k) block))) s
            (take (size_of write k) block) (omega arith))
  ]

  add-Succeeds : (s : Fd) (k : Call) → Succeeds (add write s k)
  unfolding add
  add-Succeeds s k =
      let hdr = le_bytes 8 (header_word k.ts k.len) in
      let whole : ltb (length hdr) 8 ≡ false =
        ground (arith, length-le_bytes 8 (header_word k.ts k.len)) in
      rw (takes s.calls hdr, add) (rw (whole) (write_payload-Succeeds _ k))

  add_all-Succeeds : (s : Fd) (ks : List Call) → Succeeds (add_all write s ks)
  unfolding add_all
  add_all-Succeeds s [] = tt
  add_all-Succeeds s (k ∷ ks) =
      goes_on (add write s k) (add-Succeeds s k) (λ t. add_all-Succeeds t ks)
    where
      goes_on :
          (o : Outcome)
          → Succeeds o
          → ((t : Fd) → Succeeds (add_all write t ks))
          → Succeeds (elim o as (λ x. Outcome) [
            | ok s₁ ↦ add_all write s₁ ks
            | header_error ↦ header_error
            | write_error ↦ write_error
            | out_of_fuel ↦ out_of_fuel
          ])
      goes_on (ok t) h next = next t
      goes_on header_error h next = h
      goes_on write_error h next = h
      goes_on out_of_fuel h next = h

-- On a descriptor that takes every write as a whole `fd_store` of a restorable object succeeds, and
-- the file holds its encoding.
pub fd_store-Written :
    (write : ℕ → Bytes → Reply) (x : Sexp)
    → TakesAll write
    → Restorable x
    → Written (encode x) (fd_store write x)
unfolding fd_store
fd_store-Written write x takes r =
    Sent-Written (encode x) (fd_store write x)
      (add_all-Succeeds write takes (record { out = []; calls = 0 }) (store x))
      (fd_store-Sent write x (λ i b e h. absurd (cc (takes i b, h))) r)
