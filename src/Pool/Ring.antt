-- ===== src/Pool/Ring.antt =====
-- The ring of src/therver.c as the list of its entries.
use osrv.Base.{ℕ, ◌≡◌, ◌≢◌, refl, sym, ap, ◌∙◌, subst, true, List, [], ◌∷◌, ◌++◌, All, arith}
use osrv.Queue.{Heap, update, set_prev, set_next}
use osrv.Queue.Linked.{IsDistinct, last_of, ne-test, All-last, set_next-other}
use osrv.Queue.Pushes.{All-append, IsDistinct-append}
use osrv.Pool.{
  Therver, root, add_task, link_last, link_first, remove_first, take_at, take_task, took, waits,
}

-- From `a` the links lead through the entries to the root, and back.
abbrev pub IsRing : Heap → ℕ → List ℕ → Type 0
IsRing h a [] = ((h a).next ≡ root) × ((h root).prev ≡ a)
IsRing h a (x ∷ xs) = ((h a).next ≡ x) × (((h x).prev ≡ a) × IsRing h x xs)

-- The tasks `xs`, the first one at the front.
abbrev pub IsPool : Therver → List ℕ → Type 0
IsPool t xs = IsRing t.heap root xs × (IsDistinct (root ∷ xs) × All (λ x. x ≢ 0) xs)

-- The entry `me` is put behind `z`, which is the last.
abbrev appended : ℕ → ℕ → Heap → Heap
appended me z h = set_prev root me (set_next z me (set_prev me z (set_next me root h)))

appended-next : (me z x : ℕ) (h : Heap) → x ≢ z → x ≢ me → (appended me z h x).next ≡ (h x).next
unfolding set_prev set_next update
appended-next me z x h a b = ground arith

appended-prev : (me z x : ℕ) (h : Heap) → x ≢ root → x ≢ me → (appended me z h x).prev ≡ (h x).prev
unfolding set_prev set_next update
appended-prev me z x h a b = ground arith

appended-ends :
    (me z : ℕ) (h : Heap)
    → me ≢ root
    → me ≢ z
    → ((appended me z h z).next ≡ me)
      × (((appended me z h me).prev ≡ z)
          × (((appended me z h me).next ≡ root) × ((appended me z h root).prev ≡ me)))
unfolding set_prev set_next update
appended-ends me z h a b = ground arith

IsRing-append :
    (h : Heap) (me a : ℕ) (xs : List ℕ)
    → IsRing h a xs
    → IsDistinct (a ∷ xs)
    → All (λ y. root ≢ y) xs
    → All (λ y. y ≢ me) (a ∷ xs)
    → me ≢ root
    → IsRing (appended me (last_of a xs) h) a (xs ++ me ∷ [])
IsRing-append h me a [] r d n f m =
    let (zn, (mp, (mn, rp))) = appended-ends me a h m (λ e. f.0 (sym e)) in (zn, (mp, (mn, rp)))
IsRing-append h me a (x ∷ xs) (an, (xp, r)) (da, d) (n, ns) (f, fs) m = (
  appended-next me (last_of x xs) a h (All-last (λ y. a ≢ y) x xs da.0 da.1) f ∙ an,
  (
    appended-prev me (last_of x xs) x h (λ e. n (sym e)) fs.0 ∙ xp,
    IsRing-append h me x xs r d ns fs m,
  ),
)

ring-last : (h : Heap) (a : ℕ) (xs : List ℕ) → IsRing h a xs → (h root).prev ≡ last_of a xs
ring-last h a [] r = r.1
ring-last h a (x ∷ xs) (an, (xp, r)) = ring-last h x xs r

link_last-heap : (me z : ℕ) (h : Heap) → z ≢ 0 → link_last me z h ≡ appended me z h
unfolding link_last
link_last-heap me z h n = rw (ne-test z 0 n) refl

add_task-heap :
    (me z : ℕ) (t : Therver)
    → (t.heap root).prev ≡ z
    → z ≢ 0
    → add_task me t ≡ record t { heap = appended me z t.heap }
unfolding add_task
add_task-heap me z t e n =
    ap (λ l. record t { heap = link_last me l t.heap }) e
    ∙ ap (λ h. record t { heap = h }) (link_last-heap me z t.heap n)

-- The links after the first entry is removed; `b` follows it.
removed-other :
    (b x : ℕ) (h : Heap) → x ≢ root → (set_prev b root (set_next root b h) x).next ≡ (h x).next
unfolding set_prev set_next update
removed-other b x h n = ground arith

removed-prev :
    (b x : ℕ) (h : Heap) → x ≢ b → (set_prev b root (set_next root b h) x).prev ≡ (h x).prev
unfolding set_prev set_next update
removed-prev b x h n = ground arith

removed-ends :
    (b : ℕ) (h : Heap)
    → ((set_prev b root (set_next root b h) root).next ≡ b)
      × ((set_prev b root (set_next root b h) b).prev ≡ root)
unfolding set_prev set_next update
removed-ends b h = ground arith

abbrev removed : ℕ → Heap → Heap
removed b h = set_prev b root (set_next root b h)

IsRing-removed :
    (h : Heap) (b x : ℕ) (xs : List ℕ)
    → IsRing h x xs
    → All (λ y. root ≢ y) (x ∷ xs)
    → All (λ y. b ≢ y) xs
    → root ≢ b
    → IsRing (removed b h) x xs
IsRing-removed h b x [] (xn, rp) (n, ns) m r =
    (removed-other b x h (λ e. n (sym e)) ∙ xn, removed-prev b root h r ∙ rp)
IsRing-removed h b x (y ∷ ys) (xn, (yp, q)) (n, ns) (m, ms) r = (
  removed-other b x h (λ e. n (sym e)) ∙ xn,
  (removed-prev b y h (λ e. m (sym e)) ∙ yp, IsRing-removed h b y ys q ns ms r),
)

set_next_next : (x b : ℕ) (h : Heap) → x ≢ root → (set_next root b h x).next ≡ (h x).next
set_next_next x b h n = ap (λ m. m.next) (set_next-other root b x h n)

link_first-heap : (b c : ℕ) (h : Heap) → c ≡ b → b ≢ 0 → link_first c h ≡ set_prev b root h
unfolding link_first
link_first-heap b c h e n = ap (λ d. link_first d h) e ∙ rw (ne-test b 0 n) refl

remove_first-heap :
    (x b : ℕ) (t : Therver)
    → (t.heap x).next ≡ b
    → b ≢ 0
    → x ≢ root
    → remove_first x t ≡ record t { heap = removed b t.heap }
unfolding remove_first
remove_first-heap x b t e z n =
    ap
      (λ c. record t {
        heap = link_first ((set_next root c t.heap x).next) (set_next root c t.heap);
      })
      e
    ∙ ap (λ h. record t { heap = h })
        (link_first-heap b ((set_next root b t.heap x).next) (set_next root b t.heap)
          (set_next_next x b t.heap n ∙ e) z)

remove_first-IsPool :
    (t : Therver) (x : ℕ) (xs : List ℕ) → IsPool t (x ∷ xs) → IsPool (remove_first x t) xs
remove_first-IsPool t x [] ((rn, (xp, (xn, rp))), (((n, ns), d), z)) =
    subst (λ u. IsPool u []) (sym (remove_first-heap x root t xn (omega arith) (λ e. n (sym e))))
      ((removed-ends root t.heap, ((tt, tt), tt)))
remove_first-IsPool t x (y ∷ ys)
      ((rn, (xp, (xn, (yp, r)))), (((n, (m, ms)), (dx, (dy, d))), (z, (w, zs)))) =
    let (en, ep) = removed-ends y t.heap in
    subst (λ u. IsPool u (y ∷ ys)) (sym (remove_first-heap x y t xn w (λ e. n (sym e))))
      (((en, (ep, IsRing-removed t.heap y y ys r ((m, ms)) dy m)), (((m, ms), (dy, d)), (w, zs))))

-- A worker of an active server takes the first task, and the others stay; with no task it waits.
abbrev pub Takes : Therver → List ℕ → Type 0
Takes t [] = take_task t ≡ waits
Takes t (x ∷ xs) = (take_task t ≡ took x (remove_first x t)) × IsPool (remove_first x t) xs

take_at-takes :
    (x : ℕ) (t : Therver) → x ≢ 0 → x ≢ root → take_at x true t ≡ took x (remove_first x t)
unfolding take_at
take_at-takes x t z n = rw (ne-test x 0 z, ne-test x root n) refl

pub take_task-Takes : (t : Therver) (xs : List ℕ) → t.active ≡ true → IsPool t xs → Takes t xs
unfolding take_task
take_task-Takes t [] a ((rn, rp), d) =
    ap (λ x. take_at x t.active t) rn ∙ (ap (λ b. take_at root b t) a ∙ unfold take_at in refl)
take_task-Takes t (x ∷ xs) a ((rn, r), (((n, ns), d), (z, zs))) = (
  ap (λ y. take_at y t.active t) rn
      ∙ (ap (λ b. take_at x b t) a ∙ take_at-takes x t z (λ e. n (sym e))),
  remove_first-IsPool t x xs ((rn, r), (((n, ns), d), (z, zs))),
)

last-nonzero : (xs : List ℕ) → All (λ x. x ≢ 0) xs → last_of root xs ≢ 0
last-nonzero xs z = All-last (λ x. x ≢ 0) root xs (omega arith) z

-- A new entry goes to the end of the tasks.
pub add_task-IsPool :
    (me : ℕ) (t : Therver) (xs : List ℕ)
    → IsPool t xs
    → me ≢ 0
    → me ≢ root
    → All (λ y. y ≢ me) xs
    → IsPool (add_task me t) (xs ++ me ∷ [])
add_task-IsPool me t xs (r, (d, z)) n m f =
    subst (λ u. IsPool u (xs ++ me ∷ []))
      (sym (add_task-heap me (last_of root xs) t (ring-last t.heap root xs r) (last-nonzero xs z)))
      ((
        IsRing-append t.heap me root xs r d d.0 ((λ e. m (sym e)), f) m,
        (
          IsDistinct-append me (root ∷ xs) d ((λ e. m (sym e)), f),
          All-append (λ x. x ≢ 0) me xs z n,
        ),
      ))
