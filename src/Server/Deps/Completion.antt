-- ===== src/Server/Deps/Completion.antt =====
-- `deps_complete` posts and removes exactly the entries whose requirements are all met.
use osrv.Base.{
  ◌≤◌, ◌≡◌, refl, sym, ap, ◌∙◌, ◌↔◌, ◌⊎◌, Bool, true, false, ◌||◌, List, [], ◌∷◌, ◌++◌, Option,
  none, some, Bool-cases, inl, inr, length, All, arith,
}
use osrv.Base.Bytes.{Bytes}
use osrv.Server.Deps.{
  Requirement, Dependent, Event, resolved, Deps, matches, mark, satisfied, marked, is_resolved,
  complete_walk, deps_complete,
}
use osrv.Server.Objects.Stacks.{same_bytes_iff}

-- A requirement that is met: it was before, or its key is the one that was added.
abbrev pub Met : Option Bytes → Requirement → Type 0
Met key r = (r.status ≡ true) ⊎ (key ≡ some r.key)

-- The requirements of an entry that stays: the same keys, and those that are met are noted.
abbrev pub Updated : Option Bytes → List Requirement → List Requirement → Type 0
Updated key [] [] = Unit
Updated key (r ∷ rs) (q ∷ qs) =
    (q.key ≡ r.key) × (((q.status ≡ true) ↔ Met key r) × Updated key rs qs)
Updated key _ _ = ⊥

-- An entry that stays.
pub record Stays (key : Option Bytes) (e d : Dependent) : Type 0 where
  pub waits : All (Met key) e.reqs → ⊥
  pub same_address : d.address ≡ e.address
  pub same_msg : d.msg ≡ e.msg
  pub same_name : d.name ≡ e.name
  pub updated : Updated key e.reqs d.reqs

-- The entries, those that stay, and the messages that are posted.
pub data Completes (key : Option Bytes)
    : List Dependent → List Dependent → List Event → Type 0 where
  at_end : Completes key [] [] []
  posts :
      (e : Dependent) (es kept : List Dependent) (messages : List Event)
      → All (Met key) e.reqs
      → Completes key es kept messages
      → Completes key (e ∷ es) kept (resolved e.msg e.name ∷ messages)
  keeps :
      (e d : Dependent) (es kept : List Dependent) (messages : List Event)
      → Stays key e d
      → Completes key es kept messages
      → Completes key (e ∷ es) (d ∷ kept) messages

text_of : Bytes → Option Bytes → Bytes
text_of b none = b
text_of b (some k) = k

matches_iff : (key : Option Bytes) (k : Bytes) → (matches key k ≡ true) ↔ (key ≡ some k)
unfolding text_of
matches_iff none k = ((λ e. let clash : false ≡ true = e in absurd (cc)), λ e. absurd (cc))
matches_iff (some t) k =
    ((λ e. ap some ((same_bytes_iff t k).0 e)), λ e. (same_bytes_iff t k).1 (ap (text_of k) e))

noted_iff :
    (key : Option Bytes) (r : Requirement) → ((r.status || matches key r.key) ≡ true) ↔ Met key r
noted_iff key r = (there r.status, back)
  where
    there : (b : Bool) → (b || matches key r.key) ≡ true → (b ≡ true) ⊎ (key ≡ some r.key)
    there true e = inl refl
    there false e = inr ((matches_iff key r.key).0 e)

    either : (b : Bool) → matches key r.key ≡ true → (b || matches key r.key) ≡ true
    either true e = refl
    either false e = e

    back : Met key r → (r.status || matches key r.key) ≡ true
    back (inl e) = ap (λ b. b || matches key r.key) e
    back (inr e) = either r.status ((matches_iff key r.key).1 e)

satisfied-le :
    (key : Option Bytes) (rs : List Requirement) → satisfied (mark key rs) ≤ length (mark key rs)
unfolding satisfied mark
satisfied-le key [] = omega arith
satisfied-le key (r ∷ rs) = ground (arith, satisfied-le key rs)

resolved→Met :
    (key : Option Bytes) (rs : List Requirement)
    → satisfied (mark key rs) ≡ length (mark key rs)
    → All (Met key) rs
unfolding satisfied mark
resolved→Met key [] h = tt
resolved→Met key (r ∷ rs) h = elim (Bool-cases (r.status || matches key r.key)) [
  | inl e ↦ ((noted_iff key r).0 e, resolved→Met key rs (ground arith))
  | inr e ↦ absurd (ground (arith, satisfied-le key rs))
]

Met→resolved :
    (key : Option Bytes) (rs : List Requirement)
    → All (Met key) rs
    → satisfied (mark key rs) ≡ length (mark key rs)
unfolding satisfied mark
Met→resolved key [] h = refl
Met→resolved key (r ∷ rs) h =
    let now = (noted_iff key r).1 h.0 in ground (arith, Met→resolved key rs h.1)

-- An entry is resolved exactly when each of its keys was present or is the key that was added.
is_resolved_iff :
    (key : Option Bytes) (e : Dependent)
    → (is_resolved (marked key e) ≡ true) ↔ All (Met key) e.reqs
is_resolved_iff key e =
    ((λ h. resolved→Met key e.reqs (ground arith)), λ h. ground (arith, Met→resolved key e.reqs h))

mark-Updated : (key : Option Bytes) (rs : List Requirement) → Updated key rs (mark key rs)
unfolding mark
mark-Updated key [] = tt
mark-Updated key (r ∷ rs) = (refl, (noted_iff key r, mark-Updated key rs))

pub complete_walk-Completes :
    (key : Option Bytes) (es : List Dependent)
    → Completes key es (complete_walk key es).0 (complete_walk key es).1
unfolding complete_walk
complete_walk-Completes key [] = at_end
complete_walk-Completes key (e ∷ es) =
    let rest = complete_walk-Completes key es in
    let kept = (complete_walk key es).0 in
    let messages = (complete_walk key es).1 in
    elim (Bool-cases (is_resolved (marked key e))) [
      | inl is ↦
          rw (is, complete_walk) (posts e es kept messages ((is_resolved_iff key e).0 is) rest)
      | inr unmet ↦
          rw (unmet, complete_walk)
            (keeps e (marked key e) es kept messages
              (record {
                waits = λ all.
                    let yes = (is_resolved_iff key e).1 all in
                    let clash : false ≡ true = sym unmet ∙ yes in absurd (cc);
                same_address = refl;
                same_msg = refl;
                same_name = refl;
                updated = mark-Updated key e.reqs;
              })
              rest)
    ]

-- deps_complete posts a message for each entry of which every key was present before or is the one
-- that was added, in the order of the list, and removes these entries; it keeps each other entry, of
-- which some key is neither, with exactly the keys that are present now noted.
pub deps_complete-Completes :
    (key : Option Bytes) (s : Deps)
    → (messages : List Event) × (Completes key s.chain (deps_complete key s).chain messages
        × ((deps_complete key s).posted ≡ s.posted ++ messages))
unfolding deps_complete
deps_complete-Completes key s =
    ((complete_walk key s.chain).1, (complete_walk-Completes key s.chain, refl))
