-- ===== src/Stores/Files/Stops.antt =====
-- `fd_store` ends, whatever the object and the answers of `write` are.
use osrv.Base.{ℕ, suc, ◌∷◌, List, [], Option-cases, Bool-cases, ltb, inl, inr, length, take, arith}
use osrv.Base.Bytes.{Bytes, le_bytes}
use osrv.Sfs.Object.{Sexp}
use osrv.Sfs.Store.{Call, header_word, store}
use osrv.Stores.Files.{
  Reply, Fd, Outcome, ok, header_error, write_error, out_of_fuel, write_payload, add, add_all,
  fd_store, size_of,
}
use osrv.Stores.Files.Sent.{Sent, loop-Sent, Reply-cases}

-- A run that is done.
abbrev pub Stops : Outcome → Type 0
Stops (ok fd) = Unit
Stops header_error = Unit
Stops write_error = Unit
Stops out_of_fuel = ⊥

Sent-Stops : (t : Bytes) (r : Outcome) → Sent t r → Stops r
Sent-Stops t (ok fd) d = tt
Sent-Stops t header_error d = tt
Sent-Stops t write_error d = tt
Sent-Stops t out_of_fuel d = elim d [ ]

module _ (write : ℕ → Bytes → Reply) where
  write_payload-Stops : (s : Fd) (k : Call) → Stops (write_payload write s k)
  unfolding write_payload
  write_payload-Stops s k = elim (Option-cases k.buf) [
    | inl e ↦ rw (e, write_payload) tt
    | inr (b, e) ↦
        rw (e, write_payload)
          (Sent-Stops _ _ (
            loop-Sent write (suc (length (take (size_of write k) b))) s (take (size_of write k) b)
              (omega arith)))
  ]

  add-Stops : (s : Fd) (k : Call) → Stops (add write s k)
  unfolding add
  add-Stops s k = elim (Reply-cases (write s.calls (le_bytes 8 (header_word k.ts k.len)))) [
    | inl e ↦ rw (e, add) (write_payload-Stops _ k)
    | inr (n, e) ↦ elim (Bool-cases (ltb n 8)) [
      | inl short ↦ rw (e, add) (rw short tt)
      | inr whole ↦ rw (e, add) (rw whole (write_payload-Stops _ k))
    ]
  ]

  add_all-Stops : (s : Fd) (ks : List Call) → Stops (add_all write s ks)
  unfolding add_all
  add_all-Stops s [] = tt
  add_all-Stops s (k ∷ ks) = go (λ (u : Fd). add_all-Stops u ks) (add write s k) (add-Stops s k)
    where
      go :
          ((u : Fd) → Stops (add_all write u ks))
          → (r : Outcome) → Stops r
          → Stops (elim r as (λ x. Outcome) [
            | ok t ↦ add_all write t ks
            | header_error ↦ header_error
            | write_error ↦ write_error
            | out_of_fuel ↦ out_of_fuel
          ])
      go rest (ok t) h = rest t
      go rest header_error h = tt
      go rest write_error h = tt
      go rest out_of_fuel h = h

  pub fd_store-Stops : (x : Sexp) → Stops (fd_store write x)
  unfolding fd_store
  fd_store-Stops x = add_all-Stops (record { out = []; calls = 0 }) (store x)
