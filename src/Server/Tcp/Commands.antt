-- ===== src/Server/Tcp/Commands.antt =====
-- What a client of the TCP protocol is promised: each command answers from the stacks of entries of
-- the keys and changes them, as one round of `do_process` does.
use osrv.Base.{
  ◌^◌, length-append, arith, ◌<◌, ◌≡◌, refl, sym, ap, ◌∙◌, subst, Bool, true, false, List, [], ◌∷◌,
  ◌++◌, append-nil, Option, none, some, Option-cases, inl, inr, if◌then◌else◌, Bool-cases, length,
  take, All,
}
use osrv.Base.Bytes.{Bytes}
use osrv.Base.Decimal.{decimal}
use osrv.Api.{content}
use osrv.Server.Objects.{Entry}
use osrv.Server.Objects.Stacks.{top, pop}
use osrv.Server.State.{Server, add, get, entries, get-entries, add-entries}
use osrv.Server.Tcp.{
  go, Round, reply, unchecked, nf_text, ok_text, ok_length, do_get, do_has, do_del, get_command,
  has_command, del_command, put_command, round, get_entry,
}
use osrv.Server.Tcp.Rounds.{
  IsSendable, request, round-request, run-has, run-del, round-get, round-put, put_payload-whole,
}
use osrv.Sfs.Object.{same_bytes}

pub data Command : Type 0 where
  gets has deletes : Bytes → Command
  puts : Bytes → Bytes → Command

-- The text of a command, as a client sends it.
abbrev pub text_of : Command → Bytes
text_of (gets key) = request get_command key []
text_of (has key) = request has_command key []
text_of (deletes key) = request del_command key []
text_of (puts key payload) = request put_command key (decimal (length payload) ++ 10 ∷ payload)

-- A key that can be sent, and a payload that is not empty.
abbrev pub IsCommand : Command → Type 0
IsCommand (gets key) = IsSendable key
IsCommand (has key) = IsSendable key
IsCommand (deletes key) = IsSendable key
IsCommand (puts key payload) = IsSendable key × (0 < length payload)

-- A stack of entries for each key.
abbrev pub Stacks : Type 0
Stacks = Bytes → List Entry

abbrev pub entry_of : Bytes → Bytes → Entry
entry_of key payload = record { key = key; len = length payload; obj = some payload; what = none }

abbrev pub found : Option Entry → (Entry → Bytes) → Bytes
found none answer = nf_text
found (some e) answer = answer e

abbrev pub answer : Command → Stacks → Bytes
answer (gets key) st = found (top (st key)) (λ e. ok_length e.len ++ content e)
answer (has key) st = found (top (st key)) (λ e. ok_text)
answer (deletes key) st = found (top (st key)) (λ e. ok_text)
answer (puts key payload) st = ok_text

abbrev pub effect : Command → Stacks → Stacks
effect (gets key) st j = st j
effect (has key) st j = st j
effect (deletes key) st j = if same_bytes key j then pop (st j) else st j
effect (puts key payload) st j = if same_bytes j key then entry_of key payload ∷ st j else st j

-- Entries that hold data, and not only an R object.
abbrev pub HasData : Entry → Type 0
HasData e = (d : Bytes) × (e.obj ≡ some d)

abbrev pub HoldsData : Stacks → Type 0
HoldsData st = (j : Bytes) → All HasData (st j)

abbrev pub Refines : Server → Stacks → Type 0
Refines s st = (j : Bytes) → entries j s ≡ st j

abbrev pub concat : List Bytes → Bytes
concat [] = []
concat (b ∷ bs) = b ++ concat bs

-- A round that does what the command promises, after which the connection goes on.
pub record Serves (x : Command) (st : Stacks) (r : Round) : Type 0 where
  pub answers : concat r.sent ≡ answer x st
  pub streams_none : r.streamed ≡ none
  pub goes_on : r.next ≡ go
  pub refines : Refines r.server (effect x st)

top-HasData : (es : List Entry) (e : Entry) → top es ≡ some e → All HasData es → HasData e
top-HasData [] e h a = cc
top-HasData (x ∷ es) e h a = let same : x ≡ e = cc in subst HasData same a.0

reply-Serves :
    (x : Command) (st : Stacks) (s : Server) (text : Bytes)
    → text ≡ answer x st
    → Refines s (effect x st)
    → Serves x st (reply s text go)
reply-Serves x st s text e r = record {
  answers = append-nil text ∙ e;
  streams_none = refl;
  goes_on = refl;
  refines = r;
}

get_entry-Serves :
    (key : Bytes) (st : Stacks) (e : Entry) (s : Server)
    → top (st key) ≡ some e
    → HasData e
    → Refines s st
    → Serves (gets key) st (get_entry e s)
unfolding get_entry content
get_entry-Serves key st e s h (d, k) r =
    rw (k, get_entry)
      (record {
        answers =
            rw h (ap (◌++◌ (ok_length e.len)) (append-nil (take e.len d) ∙ rw (k, content) refl));
        streams_none = refl;
        goes_on = refl;
        refines = r;
      })

module _ (key : Bytes) (s : Server) (st : Stacks) (refined : Refines s st) where
  got : (rm : Bool) → (get key rm s).0 ≡ top (st key)
  got rm = (get-entries key key rm s).0 ∙ ap top (refined key)

  kept : Refines (get key false s).1 st
  kept j = (get-entries key j false s).1 ∙ refined j

  popped : Refines (get key true s).1 (effect (deletes key) st)
  popped j =
      (get-entries key j true s).1 ∙ ap (λ es. if same_bytes key j then pop es else es) (refined j)

  do_get-Serves : HoldsData st → Serves (gets key) st (do_get key s)
  unfolding do_get
  do_get-Serves held = elim (Option-cases (top (st key))) [
    | inl e ↦ rw (got false ∙ e, do_get) (reply-Serves (gets key) st _ nf_text (rw e refl) kept)
    | inr (x, e) ↦
        rw (got false ∙ e, do_get)
          (get_entry-Serves key st x _ e (top-HasData (st key) x e (held key)) kept)
  ]

  do_has-Serves : Serves (has key) st (do_has key s)
  unfolding do_has
  do_has-Serves = elim (Option-cases (top (st key))) [
    | inl e ↦ rw (got false ∙ e, do_has) (reply-Serves (has key) st _ nf_text (rw e refl) kept)
    | inr (x, e) ↦ rw (got false ∙ e, do_has) (reply-Serves (has key) st _ ok_text (rw e refl) kept)
  ]

  do_del-Serves : Serves (deletes key) st (do_del key s)
  unfolding do_del
  do_del-Serves = elim (Option-cases (top (st key))) [
    | inl e ↦ rw (got true ∙ e, do_del) (reply-Serves (deletes key) st _ nf_text (rw e refl) popped)
    | inr (x, e) ↦
        rw (got true ∙ e, do_del) (reply-Serves (deletes key) st _ ok_text (rw e refl) popped)
  ]

  put-Serves :
      (payload : Bytes)
      → Serves
          (puts key payload)
          st
          (unchecked (add key none (some payload) (length payload) s) ok_text go)
  put-Serves payload = record {
    answers = refl;
    streams_none = refl;
    goes_on = refl;
    refines = λ j.
        add-entries key j none (some payload) (length payload) s
        ∙ ap (λ es. if same_bytes j key then entry_of key payload ∷ es else es) (refined j);
  }

-- A round with a command serves it.
pub round-Serves :
    (x : Command) (s : Server) (st : Stacks)
    → IsCommand x
    → Refines s st
    → HoldsData st
    → length (text_of x) < 2 ^ 63
    → Serves x st (round (text_of x) s)
round-Serves (gets key) s st ok refined held small =
    subst (Serves (gets key) st) (sym (round-get key [] s ok)) (do_get-Serves key s st refined held)
round-Serves (has key) s st ok refined held small =
    subst (Serves (has key) st)
      (sym (
        round-request has_command key [] s (refl, (refl, (refl, tt))) ok ∙ run-has key (some []) s))
      (do_has-Serves key s st refined)
round-Serves (deletes key) s st ok refined held small =
    subst (Serves (deletes key) st)
      (sym (
        round-request del_command key [] s (refl, (refl, (refl, tt))) ok ∙ run-del key (some []) s))
      (do_del-Serves key s st refined)
round-Serves (puts key payload) s st (ok, more) refined held small =
    let behind = decimal (length payload) ++ 10 ∷ payload in
    let within : length payload < 2 ^ 63 = omega (
      arith,
      small,
      length-append (put_command ++ b' ' ∷ key) (10 ∷ behind),
      length-append (decimal (length payload)) (10 ∷ payload),
    ) in
    subst (Serves (puts key payload) st)
      (sym
        (round-put key payload (length payload) s ok within ∙ put_payload-whole key payload s more))
      (put-Serves key s st refined payload)

All-pop : (es : List Entry) → All HasData es → All HasData (pop es)
All-pop [] a = tt
All-pop (e ∷ es) a = a.1

pub effect-HoldsData : (x : Command) (st : Stacks) → HoldsData st → HoldsData (effect x st)
effect-HoldsData (gets key) st held j = held j
effect-HoldsData (has key) st held j = held j
effect-HoldsData (deletes key) st held j = elim (Bool-cases (same_bytes key j)) [
  | inl e ↦ rw e (All-pop (st j) (held j))
  | inr e ↦ rw e (held j)
]
effect-HoldsData (puts key payload) st held j = elim (Bool-cases (same_bytes j key)) [
  | inl e ↦ rw e (((payload, refl), held j))
  | inr e ↦ rw e (held j)
]
