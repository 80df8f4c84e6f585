-- ===== src/Stores/Files.antt =====
-- src/fd_store.c: serialisation into a file descriptor. `write` is a parameter: what the system
-- answers to the n-th call, for the bytes that it is given.
pub mod Sent
pub mod Stops
pub mod Written
use osrv.Base.{
  ℕ, zero, suc, ◌+◌, ◌-◌, ◌*◌, ◌%◌, ◌^◌, ◌≤◌, ◌<◌, ◌≡◌, ◌≢◌, refl, ap, sym, ◌∙◌, Bool, true, false,
  List, [], ◌∷◌, ◌++◌, append_assoc, append-nil, Option, none, some, ltb, ◌==◌, if◌then◌else◌,
  Bool-cases, Option-cases, inl, inr, length, length-append, length-take, length-drop, take, drop,
  take-append-drop, take_all, All, arith,
}
use osrv.Base.Bytes.{Bytes, le_bytes, length-le_bytes}
use osrv.Sfs.Object.{Sexp}
use osrv.Sfs.Store.{Call, header_word, payload, encode_call, encode_calls, store, encode}

-- -1, or the number of bytes written.
pub data Reply : Type 0 where
  failed : Reply
  wrote : ℕ → Reply

-- The bytes that reached the file, and the number of calls made.
pub record Fd : Type 0 where
  pub out : Bytes
  pub calls : ℕ

pub data Outcome : Type 0 where
  ok : Fd → Outcome
  -- Rf_error, after `close`
  header_error write_error : Outcome
  out_of_fuel : Outcome

abbrev pub max_send_size : ℕ
max_send_size = 134_217_728

module _ (write : ℕ → Bytes → Reply) where
  -- One call of `write` that took `n` bytes of `bytes`.
  unfoldable pub advance : Fd → Bytes → ℕ → Fd
  advance s bytes n = record { out = s.out ++ take n bytes; calls = s.calls + 1 }

  -- The loop over the payload, of which `rest` is left.
  unfoldable pub write_loop : ℕ → Fd → Bytes → Outcome
  unfolding advance
  write_loop zero s rest = out_of_fuel
  write_loop (suc f) s [] = ok s
  write_loop (suc f) s (b ∷ rest) = elim (write s.calls (take max_send_size (b ∷ rest))) [
    | failed ↦ write_error
    | wrote n ↦ elim (ltb n 1) [
      | true ↦ write_error
      | false ↦ write_loop f (advance s (b ∷ rest) n) (drop n (b ∷ rest))
    ]
  ]

  -- `if (el > 1) len *= el`.
  unfoldable pub size_of : Call → ℕ
  size_of k = if ltb 1 k.el then k.len * k.el % 2 ^ 64 else k.len

  unfoldable pub write_payload : Fd → Call → Outcome
  unfolding write_loop size_of
  write_payload s k = elim k.buf [
    | none ↦ ok s
    | some block ↦ let rest = take (size_of k) block in write_loop (suc (length rest)) s rest
  ]

  -- `n < sizeof(hdr)` compares as unsigned numbers, so that -1 is not below 8 and passes the check.
  unfoldable pub add : Fd → Call → Outcome
  unfolding write_payload advance
  add s k =
      let hdr = le_bytes 8 (header_word k.ts k.len) in
      elim (write s.calls hdr) [
        | failed ↦ write_payload (record s { calls = s.calls + 1 }) k
        | wrote n ↦ if ltb n 8 then header_error else write_payload (advance s hdr n) k
      ]

  unfoldable pub add_all : Fd → List Call → Outcome
  unfolding add
  add_all s [] = ok s
  add_all s (k ∷ ks) = elim (add s k) [
    | ok s₁ ↦ add_all s₁ ks
    | header_error ↦ header_error
    | write_error ↦ write_error
    | out_of_fuel ↦ out_of_fuel
  ]

  unfoldable pub fd_store : Sexp → Outcome
  unfolding add_all
  fd_store x = add_all (record { out = []; calls = 0 }) (store x)

-- A failure to write the eight bytes of a header does not occur. (`add` takes one for a success.)
abbrev pub HeadersWritten : (ℕ → Bytes → Reply) → Type 0
HeadersWritten write = (i : ℕ) (b : Bytes) → length b ≡ 8 → write i b ≢ failed
