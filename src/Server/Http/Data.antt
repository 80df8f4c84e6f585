-- ===== src/Server/Http/Data.antt =====
-- What the /data/ API does to the store, and what it answers.
use osrv.Base.{
  ℕ, ◌^◌, ◌<◌, ◌≡◌, refl, ap, ◌∙◌, Bool, true, false, ◌||◌, List, [], ◌∷◌, ◌++◌, Option, none, some,
  ◌==◌, if◌then◌else◌, arith, All,
}
use osrv.Base.Bytes.{Bytes}
use osrv.Sfs.Object.{same_bytes}
use osrv.Server.Objects.{Entry}
use osrv.Server.Objects.Stacks.{top, pop, same_bytes_refl}
use osrv.Server.State.{Server, add, get, entries, get-entries, add-entries}
use osrv.Server.Http.{
  Method, post, get_method, head, put, delete, other, Request, bytes, Response, Processed,
  int_length, key_of, data_prefix, empty_response, keeps, found, lookup, remove, store_body,
  process_data, http_process,
}

-- A request on /data/ for a key.
abbrev pub data_request : Method → Bytes → Option Bytes → ℕ → Request
data_request m key body len = record {
  path = data_prefix ++ key;
  method = m;
  body = body;
  content_length = len;
}

-- A key that the path spells as it is.
abbrev pub IsKey : Bytes → Type 0
IsKey = All (λ c. (c == b'/' || c == b'?') ≡ false)

key_of-lem : (key : Bytes) → IsKey key → key_of key ≡ key
unfolding key_of
key_of-lem [] h = refl
key_of-lem (c ∷ cs) h = rw (h.0) (ap (◌∷◌ c) (key_of-lem cs h.1))

pub http_process-data :
    (m : Method) (key : Bytes) (body : Option Bytes) (len : ℕ) (s : Server)
    → IsKey key
    → http_process (data_request m key body len) s
      ≡ process_data m (data_request m key body len) key s
unfolding http_process
http_process-data m key body len s h = rw (key_of-lem key h)

-- The abstract store: a stack of entries for each key.
abbrev pub Stacks : Type 0
Stacks = Bytes → List Entry

-- What a request on /data/ does to it.
abbrev pub effect : Method → Bytes → Option Bytes → ℕ → Stacks → Stacks
effect put key body len st j =
    if same_bytes j key
    then record { key = key; len = len; obj = body; what = none } ∷ st j
    else st j
effect delete key body len st j = if same_bytes key j then pop (st j) else st j
effect _ key body len st j = st j

keeps-server :
    (o : Option Entry) (req : Request) (s : Server) (r : Response) (g : Entry → Response)
    → (elim o as (λ x. Processed) [ none ↦ keeps s req r | some e ↦ keeps s req (g e) ]).server ≡ s
keeps-server none req s r g = refl
keeps-server (some e) req s r g = refl

-- PUT pushes the body on the stack of its key, DELETE pops that stack, and no other method and no
-- other key is affected, provided that the key has no slash or question mark.
pub http_process-entries :
    (m : Method) (key j : Bytes) (body : Option Bytes) (len : ℕ) (s : Server)
    → IsKey key
    → entries j (http_process (data_request m key body len) s).server
      ≡ effect m key body len (λ k. entries k s) j
unfolding process_data lookup remove store_body
http_process-entries m key j body len s h = rw (http_process-data m key body len s h) (by_method m)
  where
    by_method :
        (m : Method)
        → entries j (process_data m (data_request m key body len) key s).server
          ≡ effect m key body len (λ k. entries k s) j
    by_method put = add-entries key j none body len s
    by_method delete =
        ap (entries j) (
          keeps-server (get key true s).0 (data_request delete key body len) (get key true s).1
            (empty_response 404) (λ _. empty_response 200))
        ∙ (get-entries key j true s).1
    by_method get_method =
        ap (entries j) (
          keeps-server (get key false s).0 (data_request get_method key body len)
            (get key false s).1 (empty_response 404) (found true))
        ∙ (get-entries key j false s).1
    by_method head =
        ap (entries j) (
          keeps-server (get key false s).0 (data_request head key body len) (get key false s).1
            (empty_response 404) (found false))
        ∙ (get-entries key j false s).1
    by_method post = refl
    by_method other = refl

-- The answer to a lookup that hits.
lookup-found :
    (is_get : Bool) (req : Request) (key : Bytes) (s : Server) (e : Entry)
    → top (entries key s) ≡ some e
    → (lookup is_get req key s).response ≡ found is_get e
unfolding lookup
lookup-found is_get req key s e h = rw ((get-entries key key false s).0 ∙ h, lookup)

-- What was PUT is what the next GET of the key answers, with its length; the store has taken the
-- body. The key has no slash or question mark and the length is below 2^31.
pub http_process-put_get :
    (key b : Bytes) (len any : ℕ) (s : Server)
    → IsKey key
    → len < 2 ^ 31
    → let stored = http_process (data_request put key (some b) len) s in
      ((http_process (data_request get_method key none any) (stored.server)).response ≡ record {
        code = 200;
        octets = true;
        content_length = some len;
        payload = bytes (some b) len;
      })
      × (stored.body ≡ none)
      × (stored.response ≡ empty_response 200)
unfolding process_data store_body
http_process-put_get key b len any s h small = (
  rw (http_process-data put key (some b) len s h, http_process-data get_method key none any _ h)
      (lookup-found true (data_request get_method key none any) key (add key none (some b) len s)
          stored (rw (add-entries key key none (some b) len s, same_bytes_refl key))
        ∙ answer),
  rw (http_process-data put key (some b) len s h),
  rw (http_process-data put key (some b) len s h),
)
  where
    stored : Entry
    stored = record { key = key; len = len; obj = some b; what = none }

    fits : int_length len ≡ some len
    fits = unfold int_length in ground arith

    answer : found true stored ≡ record {
      code = 200;
      octets = true;
      content_length = some len;
      payload = bytes (some b) len;
    }
    answer = unfold found in rw fits
