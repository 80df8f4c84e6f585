-- ===== src/Http/Store.antt =====
-- src/hcstore.c: serialisation into a connection with chunked encoding. `malloc` succeeds; the
-- fields `len` and `pos` and the buffer are as it leaves them.
pub mod Answers
use osrv.Base.{
  ℕ, zero, suc, ◌+◌, ◌-◌, ◌*◌, ◌%◌, ◌^◌, Bool, true, false, ◌&&◌, ◌||◌, List, [], ◌∷◌, ◌++◌, Option,
  none, some, ltb, leb, ◌==◌, if◌then◌else◌, length, take,
}
use osrv.Base.Bytes.{Bytes, le_bytes}
use osrv.Sfs.Object.{Sexp}
use osrv.Sfs.Store.{Call, header_word, store}
use osrv.Http.{Answer, Conn, Code, ok, closed, error, out_of_fuel, http_send_chunk}

-- `store_api`: `buf` is the bytes before `pos`.
pub record Api : Type 0 where
  pub conn : Conn
  pub res : Code
  pub len : ℕ
  pub buf : Bytes

abbrev pub max_chunk_size : ℕ
max_chunk_size = 16_777_216

abbrev pub min_inplace_size : ℕ
min_inplace_size = 2_097_152

-- `api->len - api->pos`, unsigned.
abbrev pub room : Api → ℕ
room a = (a.len + 2 ^ 64 - length a.buf) % 2 ^ 64

-- What is done if there was no error.
unfoldable pub if_ok : Code → (Api → Api) → Api → Api
if_ok ok f a = f a
if_ok closed f a = a
if_ok error f a = a
if_ok out_of_fuel f a = a

-- The chunk is sent, and the buffer is empty if that went well.
unfoldable pub send_buffer : (ℕ → ℕ → Answer) → Api → Api
unfolding if_ok
send_buffer net a =
    let r = http_send_chunk net a.conn a.buf in
    if_ok (r.0) (λ b. record b { buf = [] }) (record a { conn = r.1; res = r.0 })

unfoldable pub flush : (ℕ → ℕ → Answer) → Bytes → Api → Api
unfolding send_buffer
flush net what a =
    if ltb (room a) (length what)
      && (leb min_inplace_size (length a.buf) || leb min_inplace_size (length what))
    then send_buffer net a
    else a

-- Big blocks are sent directly if the buffer is empty, all others are appended to the buffer.
unfoldable pub place : (ℕ → ℕ → Answer) → Bytes → Api → Api
place net what a =
    if (length a.buf == 0) && leb min_inplace_size (length what)
    then (let r = http_send_chunk net a.conn what in record a { conn = r.1; res = r.0 })
    else record a { buf = a.buf ++ what }

unfoldable pub buf_add : (ℕ → ℕ → Answer) → Bytes → Api → Api
unfolding flush place if_ok
buf_add net what a = if_ok a.res (λ b. let c = flush net what b in if_ok c.res (place net what) c) a

-- The `len` bytes of the block, if there is one.
unfoldable pub add_block : (ℕ → ℕ → Answer) → ℕ → Option Bytes → Api → Api
unfolding buf_add
add_block net len none a = a
add_block net len (some block) a = buf_add net (take len block) a

unfoldable pub add : (ℕ → ℕ → Answer) → Call → Api → Api
unfolding add_block buf_add
add net k a =
    add_block net (k.len * k.el % 2 ^ 64) k.buf
      (buf_add net (le_bytes 8 (header_word k.ts k.len)) a)

unfoldable pub add_all : (ℕ → ℕ → Answer) → List Call → Api → Api
unfolding add
add_all net [] a = a
add_all net (k ∷ ks) a = add_all net ks (add net k a)

-- The last chunk that is not empty, then the empty one.
unfoldable pub finish : (ℕ → ℕ → Answer) → Api → Api
finish net a =
    if length a.buf == 0
    then a
    else (let r = http_send_chunk net a.conn a.buf in record a { conn = r.1; res = r.0 })

unfoldable pub send_last : (ℕ → ℕ → Answer) → Api → Api
send_last net a = let r = http_send_chunk net a.conn [] in record a { conn = r.1; res = r.0 }

-- `len` and `junk` are what `malloc` leaves in the fields.
unfoldable pub http_store : (ℕ → ℕ → Answer) → ℕ → Bytes → Conn → Sexp → Code × Conn
unfolding add_all finish send_last if_ok
http_store net len junk c x =
    let a = add_all net (store x) (record { conn = c; res = ok; len = len; buf = junk }) in
    let b = if_ok a.res (finish net) a in let d = if_ok b.res (send_last net) b in (d.res, d.conn)
