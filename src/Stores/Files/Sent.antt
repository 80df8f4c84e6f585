-- ===== src/Stores/Files/Sent.antt =====
-- What reaches the file: on success the encoding, however the system splits the writes.
use osrv.Base.{
  ℕ, zero, suc, ◌+◌, ◌*◌, ◌%◌, ◌^◌, ◌≤◌, ◌<◌, ◌≡◌, refl, ap, sym, ◌∙◌, false, List, [], ◌∷◌, ◌++◌,
  append_assoc, append-nil, none, ltb, Bool-cases, Option-cases, ◌⊎◌, inl, inr, length, length-drop,
  take, drop, take-append-drop, take_all, All, subst, arith,
}
use osrv.Base.Bytes.{Bytes, le_bytes, length-le_bytes}
use osrv.Sfs.Object.{Sexp}
use osrv.Sfs.Store.{Call, header_word, payload, encode_call, encode_calls, store, encode}
use osrv.Sfs.RoundTrip.{Restorable}
use osrv.Sfs.Calls.{Regular, RegularBlock, store-Regular}
use osrv.Stores.Files.{
  Reply, failed, wrote, Fd, Outcome, ok, header_error, write_error, out_of_fuel, max_send_size,
  advance, write_loop, size_of, write_payload, add, add_all, fd_store, HeadersWritten,
}

-- A run that ended, with exactly `target` in the file if it succeeded.
pub data Sent (target : Bytes) : Outcome → Type 0 where
  sent : {s : Fd} → s.out ≡ target → Sent target (ok s)
  refused_header : Sent target header_error
  refused_write : Sent target write_error

pub Reply-cases : (r : Reply) → (r ≡ failed) ⊎ ((n : ℕ) × (r ≡ wrote n))
Reply-cases failed = inl refl
Reply-cases (wrote n) = inr (n, refl)

module _ (write : ℕ → Bytes → Reply) where
  pub loop-Sent :
      (f : ℕ) (s : Fd) (rest : Bytes)
      → length rest < f
      → Sent (s.out ++ rest) (write_loop write f s rest)
  unfolding write_loop advance
  loop-Sent zero s rest h = absurd (omega arith)
  loop-Sent (suc f) s [] h = sent (sym (append-nil s.out))
  loop-Sent (suc f) s (b ∷ rest) h =
      elim (Reply-cases (write s.calls (take max_send_size (b ∷ rest)))) [
        | inl e ↦ rw (e, write_loop) refused_write
        | inr (n, e) ↦ elim (Bool-cases (ltb n 1)) [
          | inl short ↦ rw (e, write_loop, short) refused_write
          | inr more ↦
              rw (e, write_loop, more)
                (rw (split n) (
                  loop-Sent f (advance write s (b ∷ rest) n) (drop n (b ∷ rest))
                    (omega (arith, length-drop n (b ∷ rest), positive n more))))
        ]
      ]
    where
      split : (n : ℕ) → s.out ++ b ∷ rest ≡ (s.out ++ take n (b ∷ rest)) ++ drop n (b ∷ rest)
      split n = rw append_assoc (ap (◌++◌ s.out) (sym (take-append-drop n (b ∷ rest))))

      positive : (n : ℕ) → ltb n 1 ≡ false → 0 < n
      positive n h = ground arith

  size_of-lem : (k : Call) → 0 < k.el → k.len < 2 ^ 56 → size_of write k ≡ k.len * k.el % 2 ^ 64
  unfolding size_of
  size_of-lem k pos few = elim (Bool-cases (ltb 1 k.el)) [
    | inl e ↦ rw e
    | inr e ↦ rw e (let one : k.el ≡ 1 = ground arith in rw one (omega arith))
  ]

  payload-Sent :
      (s : Fd) (k : Call) → Regular k → Sent (s.out ++ payload k) (write_payload write s k)
  unfolding write_payload payload
  payload-Sent s k h = elim (Option-cases k.buf) [
    | inl e ↦ rw (e, payload, write_payload) (sent (sym (append-nil s.out)))
    | inr (b, e) ↦
        let fits : (0 < k.el) × (k.el ≤ 16) × (k.len * k.el ≤ length b) =
          subst (RegularBlock k) e h.2 in
        rw (e, payload, write_payload, size_of-lem k fits.0 h.1)
          (loop-Sent (suc (length (take (k.len * k.el % 2 ^ 64) b))) s
            (take (k.len * k.el % 2 ^ 64) b) (omega arith))
  ]

  add-Sent :
      (s : Fd) (k : Call)
      → HeadersWritten write
      → Regular k
      → Sent (s.out ++ encode_call k) (add write s k)
  unfolding add encode_call advance
  add-Sent s k ok_headers h = elim (Reply-cases (write s.calls hdr)) [
    | inl e ↦ absurd (ok_headers s.calls hdr (length-le_bytes 8 (header_word k.ts k.len)) e)
    | inr (n, e) ↦ elim (Bool-cases (ltb n 8)) [
      | inl short ↦ rw (e, add, short) refused_header
      | inr whole ↦ rw (e, add, whole) (rw (split n whole) (payload-Sent _ k h))
    ]
  ]
    where
      hdr : Bytes
      hdr = le_bytes 8 (header_word k.ts k.len)

      split :
          (n : ℕ)
          → ltb n 8 ≡ false
          → s.out ++ (hdr ++ payload k) ≡ (s.out ++ take n hdr) ++ payload k
      split n e =
          rw (take_all hdr n (ground (arith, length-le_bytes 8 (header_word k.ts k.len))))
            (sym (append_assoc s.out hdr (payload k)))

  add_all-Sent :
      (s : Fd) (ks : List Call)
      → HeadersWritten write
      → All Regular ks
      → Sent (s.out ++ encode_calls ks) (add_all write s ks)
  unfolding add_all encode_calls
  add_all-Sent s [] ok_headers h = sent (sym (append-nil s.out))
  add_all-Sent s (k ∷ ks) ok_headers h =
      go (λ s₁. add_all-Sent s₁ ks ok_headers h.1) (add write s k) (add-Sent s k ok_headers h.0)
    where
      go :
          ((s₁ : Fd) → Sent (s₁.out ++ encode_calls ks) (add_all write s₁ ks))
          → (o : Outcome) → Sent (s.out ++ encode_call k) o
          → Sent (s.out ++ (encode_call k ++ encode_calls ks)) (elim o [
            | ok s₁ ↦ add_all write s₁ ks
            | header_error ↦ header_error
            | write_error ↦ write_error
            | out_of_fuel ↦ out_of_fuel
          ])
      go rest (ok s₁) (sent e) =
          subst (λ t. Sent t (add_all write s₁ ks))
            (ap (λ t. t ++ encode_calls ks) e
              ∙ append_assoc s.out (encode_call k) (encode_calls ks))
            (rest s₁)
      go rest header_error refused_header = refused_header
      go rest write_error refused_write = refused_write
      go rest out_of_fuel h = elim h [ ]

-- If no write of eight bytes fails, `fd_store` of a restorable object ends; it reports a short or failed write, or the file
-- holds exactly the encoding of the object, however the system splits the writes.
pub fd_store-Sent :
    (write : ℕ → Bytes → Reply) (x : Sexp)
    → HeadersWritten write
    → Restorable x
    → Sent (encode x) (fd_store write x)
unfolding fd_store encode
fd_store-Sent write x ok_headers r =
    add_all-Sent write (record { out = []; calls = 0 }) (store x) ok_headers (store-Regular x r)

-- A write of a header that fails goes unnoticed: a call without a block succeeds, and nothing of it
-- is in the file.
pub add-unnoticed :
    (write : ℕ → Bytes → Reply) (s : Fd) (k : Call)
    → k.buf ≡ none
    → write s.calls (le_bytes 8 (header_word k.ts k.len)) ≡ failed
    → add write s k ≡ ok (record s { calls = s.calls + 1 })
unfolding add
add-unnoticed write s k no_block e = rw (e, add, no_block)
