-- ===== src/Server/Deps/Tail.antt =====
-- The pointer `tail` of src/deps.c, which `deps_complete` does not move.
use osrv.Base.{
  ℕ, ◌≡◌, ◌≢◌, refl, sym, ◌∙◌, ◌⊎◌, inl, inr, Bool, true, false, List, [], ◌∷◌, ◌++◌, append-nil,
  Option, none, some, ◌==◌, Bool-cases, All, arith,
}
use osrv.Base.Bytes.{Bytes}
use osrv.Server.Deps.{
  Dependent, Deps, marked, is_resolved, complete_walk, deps_complete, last_address, link,
  new_dependent, deps_add,
}

abbrev pub kept : Option Bytes → List Dependent → List Dependent
kept key es = (complete_walk key es).0

kept-append :
    (key : Option Bytes) (es ds : List Dependent) → kept key (es ++ ds) ≡ kept key es ++ kept key ds
unfolding complete_walk
kept-append key [] ds = refl
kept-append key (e ∷ es) ds = ground (arith, kept-append key es ds)

last_address-append :
    (es : List Dependent) (e : Dependent) → last_address (es ++ e ∷ []) ≡ e.address
unfolding last_address
last_address-append [] e = refl
last_address-append (d ∷ []) e = refl
last_address-append (d ∷ c ∷ es) e = last_address-append (c ∷ es) e

kept-resolved :
    (key : Option Bytes) (e : Dependent) (es : List Dependent)
    → is_resolved (marked key e) ≡ true
    → kept key (e ∷ es) ≡ kept key es
unfolding complete_walk
kept-resolved key e es h = ground arith

kept-unresolved :
    (key : Option Bytes) (e : Dependent) (es : List Dependent)
    → is_resolved (marked key e) ≡ false
    → kept key (e ∷ es) ≡ marked key e ∷ kept key es
unfolding complete_walk
kept-unresolved key e es h = ground arith

-- No entry stands at the address `a`.
abbrev pub Elsewhere : ℕ → List Dependent → Type 0
Elsewhere a = All (λ d. d.address ≢ a)

kept-Elsewhere :
    (key : Option Bytes) (a : ℕ) (es : List Dependent) → Elsewhere a es → Elsewhere a (kept key es)
kept-Elsewhere key a [] h = unfold complete_walk in tt
kept-Elsewhere key a (e ∷ es) h = elim (Bool-cases (is_resolved (marked key e))) [
  | inl r ↦ rw (kept-resolved key e es r) (kept-Elsewhere key a es h.1)
  | inr r ↦ rw (kept-unresolved key e es r) (h.0, kept-Elsewhere key a es h.1)
]

last_address-Elsewhere :
    (a : ℕ) (d : Dependent) (es : List Dependent) → Elsewhere a (d ∷ es) → last_address (d ∷ es) ≢ a
unfolding last_address
last_address-Elsewhere a d [] h = h.0
last_address-Elsewhere a d (c ∷ es) h = last_address-Elsewhere a c es h.1

link-dangling :
    (e : Dependent) (s : Deps) (d : Dependent) (es : List Dependent)
    → s.chain ≡ d ∷ es
    → last_address (d ∷ es) ≢ s.tail
    → link e s ≡ none
unfolding link
link-dangling e s d es c h =
    let other : (last_address (d ∷ es) == s.tail) ≡ false = ground arith in rw (c, link, other)

-- The tail pointer is the last entry, or there is no entry.
abbrev pub TailIsLast : Deps → Type 0
TailIsLast s = (s.chain ≡ []) ⊎ (last_address s.chain ≡ s.tail)

List-cases :
    (es : List Dependent) → (es ≡ []) ⊎ ((d : Dependent) × (ds : List Dependent) × (es ≡ d ∷ ds))
List-cases [] = inl refl
List-cases (d ∷ ds) = inr (d, ds, refl)

link-last :
    (e : Dependent) (s : Deps)
    → TailIsLast s
    → link e s ≡ some (record s { chain = s.chain ++ e ∷ []; tail = e.address })
unfolding link
link-last e s (inl h) = rw (h, link)
link-last e s (inr h) = elim (List-cases s.chain) [
  | inl c ↦ rw (c, link)
  | inr (d, ds, c) ↦
      let last : last_address (d ∷ ds) ≡ s.tail = rw c at h in
      let same : (last_address (d ∷ ds) == s.tail) ≡ true = ground arith in rw (c, link, same)
]

-- While the tail pointer is the last entry a new dependency is linked, and the step does not touch
-- freed memory.
pub deps_add-links :
    (present : Bytes → Bool) (address : ℕ) (name : Bytes) (keys : List Bytes) (msg : ℕ) (s : Deps)
    → TailIsLast s
    → let e = new_dependent present address name keys msg in
      deps_add present address name keys msg s
      ≡ some (deps_complete none (record s { chain = s.chain ++ e ∷ []; tail = address }))
unfolding deps_add
deps_add-links present address name keys msg s h =
    rw (link-last (new_dependent present address name keys msg) s h, deps_add)

-- After a completion that does not resolve the last entry the tail pointer is the last entry, if it
-- was before.
pub deps_complete-TailIsLast :
    (key : Option Bytes) (s : Deps) (front : List Dependent) (e : Dependent)
    → s.chain ≡ front ++ e ∷ []
    → s.tail ≡ e.address
    → is_resolved (marked key e) ≡ false
    → TailIsLast (deps_complete key s)
unfolding deps_complete
deps_complete-TailIsLast key s front e c t r = inr (
    rw (c, kept-append key front (e ∷ []), kept-unresolved key e [] r)
      (ends (kept key front) ∙ sym t))
  where
    ends : (es : List Dependent) → last_address (es ++ marked key e ∷ kept key []) ≡ e.address
    ends es = unfold complete_walk in last_address-append es (marked key e)

-- If the last entry, which `tail` points to and no other entry stands at, is resolved while another
-- one is not, `tail` is left at freed memory, and the
-- next `deps_add` writes there, whatever it adds.
pub deps_add-dangling :
    (key : Option Bytes) (s : Deps) (front : List Dependent) (d : Dependent) (rest : List Dependent)
    (e : Dependent) (present : Bytes → Bool) (address : ℕ) (name : Bytes) (keys : List Bytes)
    (msg : ℕ)
    → s.chain ≡ (front ++ d ∷ rest) ++ e ∷ []
    → s.tail ≡ e.address
    → Elsewhere e.address (front ++ d ∷ rest)
    → is_resolved (marked key d) ≡ false
    → is_resolved (marked key e) ≡ true
    → deps_add present address name keys msg (deps_complete key s) ≡ none
unfolding deps_add deps_complete
deps_add-dangling key s front d rest e present address name keys msg c t apart waiting resolved =
    elim (List-cases (kept key (front ++ d ∷ rest))) [
      | inl none_left ↦ absurd (nonempty (kept key front) (sym split ∙ none_left))
      | inr (x, xs, left) ↦ rw (
        link-dangling (new_dependent present address name keys msg) (deps_complete key s) x xs
            (remaining ∙ left)
            (λ same. last_address-Elsewhere e.address x xs (rw left at elsewhere) (same ∙ t)),
        deps_add,
      )
    ]
  where
    remaining : kept key s.chain ≡ kept key (front ++ d ∷ rest)
    remaining =
        rw (c, kept-append key (front ++ d ∷ rest) (e ∷ []), kept-resolved key e [] resolved)
          (unfold complete_walk in append-nil _)

    split : kept key (front ++ d ∷ rest) ≡ kept key front ++ marked key d ∷ kept key rest
    split = rw (kept-append key front (d ∷ rest), kept-unresolved key d rest waiting)

    elsewhere : Elsewhere e.address (kept key (front ++ d ∷ rest))
    elsewhere = kept-Elsewhere key e.address (front ++ d ∷ rest) apart

    nonempty : (es : List Dependent) → es ++ marked key d ∷ kept key rest ≡ [] → ⊥
    nonempty [] h = cc
    nonempty (y ∷ ys) h = cc
