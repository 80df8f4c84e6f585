-- ===== src/Stores/Memory.antt =====
-- src/mem_store.c and src/mem_restore.c: serialisation into a chain of buffers. A buffer holds the
-- bytes `d[0..len)` and its capacity; `full` is the chain from `root` up to the buffer before `tail`.
pub mod Collapse
pub mod Content
use osrv.Base.{
  ℕ, suc, ◌+◌, ◌-◌, ◌*◌, ◌%◌, ◌^◌, Bool, List, [], ◌∷◌, ◌++◌, Option, none, some, ltb,
  if◌then◌else◌, length, take, drop,
}
use osrv.Base.Bytes.{Bytes, le_bytes}
use osrv.Sfs.Object.{Sexp}
use osrv.Sfs.Store.{Call, header_word, store}

-- `lbuf_t`: `len` is the length of `d`.
pub record Buffer : Type 0 where
  pub cap : ℕ
  pub d : Bytes

pub record Chain : Type 0 where
  pub full : List Buffer
  pub tail : Buffer
  pub cptr : ℕ

abbrev pub def_buf_size : ℕ
def_buf_size = 67_108_864

unfoldable pub alloc_buf : ℕ → Buffer
alloc_buf size = record { cap = size; d = [] }

-- `memcpy(tail->d + tail->len, what, n); tail->len += n`.
unfoldable pub fill : Buffer → Bytes → Buffer
fill b bytes = record b { d = b.d ++ bytes }

-- `what` holds the `len` bytes.
unfoldable pub buf_add : Chain → Bytes → Chain
unfolding alloc_buf fill
buf_add c what =
    let room = c.tail.cap - length c.tail.d in
    let len = length what in
    let size = if ltb def_buf_size len then len + def_buf_size else def_buf_size in
    if ltb room len
    then record c {
      full = c.full ++ fill c.tail (take room what) ∷ [];
      tail = fill (alloc_buf size) (drop room what);
    }
    else record c { tail = fill c.tail what }

-- `add_buf`: the header, then the block if there is one.
unfoldable pub add_buf : Chain → Call → Chain
unfolding buf_add
add_buf c k =
    let c₁ = buf_add c (le_bytes 8 (header_word k.ts k.len)) in
    let c₂ = record c₁ { cptr = c₁.cptr + 8 } in
    let n = k.len * k.el % 2 ^ 64 in
    elim k.buf [
      | none ↦ c₂
      | some block ↦ let c₃ = buf_add c₂ (take n block) in record c₃ { cptr = c₃.cptr + n }
    ]

unfoldable pub add_all : Chain → List Call → Chain
add_all c [] = c
add_all c (k ∷ ks) = add_all (add_buf c k) ks

unfoldable pub start : Chain
unfolding alloc_buf
start = record { full = []; tail = alloc_buf def_buf_size; cptr = 0 }

abbrev pub buffers : Chain → List Buffer
buffers c = c.full ++ c.tail ∷ []

-- The sum of the lengths.
unfoldable pub total : List Buffer → ℕ
total [] = 0
total (b ∷ bs) = length b.d + total bs

-- `memcpy(dst, d, len)` over the memory at `dst`.
unfoldable pub overwrite : Bytes → Bytes → Bytes
overwrite memory d = d ++ drop (length d) memory

-- The second loop of `collapse_buf`, which copies every buffer to the same `dst`.
unfoldable pub copy_loop : Bytes → List Buffer → Bytes
unfolding overwrite
copy_loop memory [] = memory
copy_loop memory (b ∷ bs) = copy_loop (overwrite memory b.d) bs

-- `fresh n` is the content of a raw vector of `n` bytes as `allocVector` leaves it.
unfoldable pub collapse_buf : (ℕ → Bytes) → List Buffer → Bytes
unfolding copy_loop total
collapse_buf fresh bs = copy_loop (fresh (total bs)) bs

-- `C_mem_store`.
unfoldable pub mem_store : (ℕ → Bytes) → Sexp → Bytes
unfolding collapse_buf add_all start
mem_store fresh x = collapse_buf fresh (buffers (add_all start (store x)))
