-- ===== src/Stores/Memory/Content.antt =====
-- The chain of buffers holds what was added, in order, and no buffer exceeds its capacity.
use osrv.Base.{
  ℕ, ◌+◌, ◌-◌, ◌*◌, ◌%◌, ◌^◌, ◌≤◌, ◌≡◌, refl, ap, sym, ◌∙◌, List, [], ◌∷◌, ◌++◌, append_assoc,
  append-nil, ltb, if◌then◌else◌, Bool-cases, Option-cases, inl, inr, length, length-append,
  length-take, length-drop, take, take-append-drop, All, arith,
}
use osrv.Base.Bytes.{Bytes, le_bytes}
use osrv.Sfs.Object.{Sexp}
use osrv.Sfs.Store.{Call, header_word, payload, encode_call, encode_calls, store, encode}
use osrv.Stores.Memory.{Buffer, Chain, def_buf_size, buf_add, add_buf, add_all, start, buffers}

-- The bytes of a chain of buffers.
unfoldable pub content : List Buffer → Bytes
content [] = []
content (b ∷ bs) = b.d ++ content bs

-- A buffer within its capacity.
abbrev pub WithinCap : Buffer → Type 0
WithinCap b = length b.d ≤ b.cap

content-append : (bs cs : List Buffer) → content (bs ++ cs) ≡ content bs ++ content cs
unfolding content
content-append [] cs = refl
content-append (b ∷ bs) cs = rw (content-append bs cs, append_assoc)

All-append :
    (bs : List Buffer) (b : Buffer) → All WithinCap bs → WithinCap b → All WithinCap (bs ++ b ∷ [])
All-append [] b h k = (k, tt)
All-append (c ∷ bs) b h k = (h.0, All-append bs b h.1 k)

abbrev pub IsValid : Chain → Type 0
IsValid c = All WithinCap c.full × WithinCap c.tail

pub content-buf_add :
    (c : Chain) (what : Bytes) → content (buffers (buf_add c what)) ≡ content (buffers c) ++ what
unfolding buf_add content
content-buf_add c what = elim (Bool-cases (ltb (c.tail.cap - length c.tail.d) (length what))) [
  | inl e ↦
      rw (e, buf_add)
        (simp (content-append, append_assoc, append-nil)
          (rw (take-append-drop (c.tail.cap - length c.tail.d) what)))
  | inr e ↦ rw (e, buf_add) (simp (content-append, append_assoc, append-nil))
]

new_size-le :
    (n room : ℕ) → n - room ≤ (if ltb def_buf_size n then n + def_buf_size else def_buf_size)
new_size-le n room = ground arith

pub buf_add-IsValid : (c : Chain) (what : Bytes) → IsValid c → IsValid (buf_add c what)
unfolding buf_add
buf_add-IsValid c what v = elim (Bool-cases (ltb (c.tail.cap - length c.tail.d) (length what))) [
  | inl e ↦
      rw (e, buf_add)
        (
          All-append c.full _ v.0 (
              omega (
                arith,
                length-append c.tail.d (take (c.tail.cap - length c.tail.d) what),
                length-take (c.tail.cap - length c.tail.d) what,
              )),
          omega (
            arith,
            length-drop (c.tail.cap - length c.tail.d) what,
            new_size-le (length what) (c.tail.cap - length c.tail.d),
          ),
        )
  | inr e ↦ rw (e, buf_add) (v.0, ground (arith, length-append c.tail.d what))
]

pub content-add_buf :
    (c : Chain) (k : Call) → content (buffers (add_buf c k)) ≡ content (buffers c) ++ encode_call k
unfolding add_buf encode_call payload
content-add_buf c k = elim (Option-cases k.buf) [
  | inl e ↦ rw (e, add_buf, encode_call) (rw append-nil (content-buf_add c _))
  | inr (b, e) ↦
      rw (e, add_buf, encode_call)
        (content-buf_add _ _
          ∙ ap (λ t. t ++ take (k.len * k.el % 2 ^ 64) b) (content-buf_add c _)
          ∙ append_assoc (content (buffers c)) (le_bytes 8 (header_word k.ts k.len))
              (take (k.len * k.el % 2 ^ 64) b))
]

pub content-add_all :
    (c : Chain) (ks : List Call)
    → content (buffers (add_all c ks)) ≡ content (buffers c) ++ encode_calls ks
unfolding add_all encode_calls
content-add_all c [] = sym (append-nil _)
content-add_all c (k ∷ ks) =
    content-add_all (add_buf c k) ks
    ∙ ap (λ t. t ++ encode_calls ks) (content-add_buf c k)
    ∙ append_assoc (content (buffers c)) (encode_call k) (encode_calls ks)

add_buf-IsValid : (c : Chain) (k : Call) → IsValid c → IsValid (add_buf c k)
unfolding add_buf
add_buf-IsValid c k v = elim (Option-cases k.buf) [
  | inl e ↦ rw (e, add_buf) (buf_add-IsValid c _ v)
  | inr (b, e) ↦ rw (e, add_buf) (buf_add-IsValid _ _ (buf_add-IsValid c _ v))
]

pub add_all-IsValid : (c : Chain) (ks : List Call) → IsValid c → IsValid (add_all c ks)
unfolding add_all
add_all-IsValid c [] v = v
add_all-IsValid c (k ∷ ks) v = add_all-IsValid (add_buf c k) ks (add_buf-IsValid c k v)

-- After a whole object the chain of buffers holds its encoding, in order and with nothing lost at a
-- change of buffers, and no write went past a buffer's capacity.
pub content-store :
    (x : Sexp)
    → (content (buffers (add_all start (store x))) ≡ encode x) × IsValid (add_all start (store x))
unfolding start encode content
content-store x =
    (content-add_all start (store x), add_all-IsValid start (store x) (tt, omega arith))
