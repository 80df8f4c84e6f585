-- ===== src/Stores/Memory/Collapse.antt =====
-- What `collapse_buf` makes of the chain, and the round trip through memory.
use osrv.Base.{
  ℕ, ◌+◌, ◌-◌, ◌≤◌, ◌≡◌, refl, ap, sym, ◌∙◌, List, [], ◌∷◌, ◌++◌, append_assoc, append-nil, some,
  Option-cases, ltb, false, ◌*◌, ◌%◌, ◌^◌, inl, inr, length, length-append, take, drop_all,
  take-append, arith,
}
use osrv.Base.Bytes.{Bytes, le_bytes}
use osrv.Sfs.Object.{Sexp}
use osrv.Sfs.Store.{Call, payload, header_word, encode_call, encode_calls, store, encode}
use osrv.Sfs.Load.{ok, restore}
use osrv.Sfs.RoundTrip.{Restorable, canon, restore-encode}
use osrv.Stores.Memory.{
  Buffer, Chain, def_buf_size, buf_add, add_buf, add_all, start, buffers, total, overwrite,
  copy_loop, collapse_buf, mem_store,
}
use osrv.Stores.Memory.Content.{content, content-buf_add, content-add_buf, content-store}

-- A chain of one buffer.
abbrev OneBuffer : Chain → Type 0
OneBuffer c = (c.full ≡ []) × (c.tail.cap ≡ def_buf_size)

content-OneBuffer : (c : Chain) → OneBuffer c → content (buffers c) ≡ c.tail.d
unfolding content
content-OneBuffer c v = rw (v.0, append-nil)

buf_add-OneBuffer :
    (c : Chain) (what : Bytes)
    → OneBuffer c
    → length (content (buffers c) ++ what) ≤ def_buf_size
    → OneBuffer (buf_add c what)
unfolding buf_add
buf_add-OneBuffer c what v h =
    let size : length (c.tail.d ++ what) ≤ def_buf_size = rw (content-OneBuffer c v) at h in
    let room : ltb (c.tail.cap - length c.tail.d) (length what) ≡ false =
      ground (arith, length-append c.tail.d what) in
    rw (room, buf_add) v

add_buf-OneBuffer :
    (c : Chain) (k : Call)
    → OneBuffer c
    → length (content (buffers c) ++ encode_call k) ≤ def_buf_size
    → OneBuffer (add_buf c k)
unfolding add_buf encode_call
add_buf-OneBuffer c k v h = elim (Option-cases k.buf) [
  | inl e ↦ rw (e, add_buf) (buf_add-OneBuffer c _ v (omega (arith, sizes, size₁)))
  | inr (b, e) ↦
      rw (e, add_buf)
        (buf_add-OneBuffer _ _ (buf_add-OneBuffer c _ v (omega (arith, sizes, size₁)))
          (rw (content-buf_add c (le_bytes 8 (header_word k.ts k.len))) (whole b e)))
]
  where
    head : Bytes
    head = le_bytes 8 (header_word k.ts k.len)

    sizes :
        length (content (buffers c) ++ (head ++ payload k))
        ≡ length (content (buffers c)) + (length head + length (payload k))
    sizes =
        rw (length-append (content (buffers c)) (head ++ payload k))
          (ap (λ (t : ℕ). length (content (buffers c)) + t) (length-append head (payload k)))

    size₁ : length (content (buffers c) ++ head) ≡ length (content (buffers c)) + length head
    size₁ = length-append (content (buffers c)) head

    whole :
        (b : Bytes)
        → k.buf ≡ some b
        → length ((content (buffers c) ++ head) ++ take (k.len * k.el % 2 ^ 64) b) ≤ def_buf_size
    whole b e = rw append_assoc (rw (e, payload) at h)

add_all-OneBuffer :
    (c : Chain) (ks : List Call)
    → OneBuffer c
    → length (content (buffers c) ++ encode_calls ks) ≤ def_buf_size
    → OneBuffer (add_all c ks)
unfolding add_all encode_calls
add_all-OneBuffer c [] v h = v
add_all-OneBuffer c (k ∷ ks) v h =
    let whole = rw (← append_assoc) at h in
    add_all-OneBuffer (add_buf c k) ks
      (add_buf-OneBuffer c k v (
        omega
          (arith, whole, length-append (content (buffers c) ++ encode_call k) (encode_calls ks))))
      (rw (content-add_buf c k) whole)

collapse-one :
    (fresh : ℕ → Bytes) (b : Buffer)
    → ((n : ℕ) → length (fresh n) ≡ n)
    → collapse_buf fresh (b ∷ []) ≡ b.d
unfolding collapse_buf total copy_loop overwrite
collapse-one fresh b sized =
    rw (drop_all (fresh (length b.d + 0)) (length b.d) (omega (arith, sized (length b.d + 0))))
      (append-nil b.d)

first : (x : Sexp) → length (encode x) ≤ def_buf_size → OneBuffer (add_all start (store x))
unfolding start encode content
first x h = add_all-OneBuffer start (store x) (refl, refl) h

-- An object whose encoding fits the first buffer is stored as its encoding, whatever the new raw
-- vector held before, provided that it has the length that was asked for.
pub mem_store-encode :
    (fresh : ℕ → Bytes) (x : Sexp)
    → ((n : ℕ) → length (fresh n) ≡ n)
    → length (encode x) ≤ def_buf_size
    → mem_store fresh x ≡ encode x
unfolding mem_store encode
mem_store-encode fresh x sized h =
    let c = add_all start (store x) in
    let one = first x h in
    rw (one.0)
      (collapse-one fresh c.tail sized ∙ sym (content-OneBuffer c one) ∙ (content-store x).0)

copy_loop-last :
    (memory : Bytes) (bs : List Buffer) (b : Buffer)
    → take (length b.d) (copy_loop memory (bs ++ b ∷ [])) ≡ b.d
unfolding copy_loop overwrite
copy_loop-last memory [] b = take-append b.d _ (length b.d) refl
copy_loop-last memory (c ∷ bs) b = copy_loop-last (overwrite memory c.d) bs b

-- Where there are several buffers, each is copied over the beginning of the one before it: the
-- result starts with the bytes of the last buffer, and not with the header of the object.
pub collapse_buf-last :
    (fresh : ℕ → Bytes) (bs : List Buffer) (b : Buffer)
    → take (length b.d) (collapse_buf fresh (bs ++ b ∷ [])) ≡ b.d
unfolding collapse_buf
collapse_buf-last fresh bs b = copy_loop-last (fresh (total (bs ++ b ∷ []))) bs b

-- Memory round trip: a restorable object of at most 64 MB of encoding comes back from `C_mem_restore`
-- of what `C_mem_store` gives, as `canon` of it. Strings are taken by their texts: NA_STRING is the
-- text NA, which is what comes back for it.
pub restore-mem_store :
    (fresh : ℕ → Bytes) (x : Sexp)
    → ((n : ℕ) → length (fresh n) ≡ n)
    → length (encode x) ≤ def_buf_size
    → Restorable x
    → restore (mem_store fresh x) ≡ ok (canon x, [])
restore-mem_store fresh x sized h r = rw (mem_store-encode fresh x sized h) (restore-encode x r)
