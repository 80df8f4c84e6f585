-- ===== src/Queue/Pops.antt =====
-- `ev_pop` on the list of the entries.
use osrv.Base.{ℕ, ◌≡◌, ◌≢◌, refl, sym, ap, ◌∙◌, subst, List, [], ◌∷◌, none, some, ==-refl, All}
use osrv.Queue.{Heap, Queue, update, set_prev, ev_rm, ev_pop}
use osrv.Queue.Linked.{
  IsQueue, IsFree, ne-test, update-same, update-other, IsLinked-outside, All-last, set_prev-same,
  set_prev-other,
}

-- The heap after the entry `x` in front of `y` was removed.
abbrev pub without : ℕ → ℕ → Heap → Heap
without x y h = update x (record { prev = 0; next = 0 }) (set_prev y 0 h)

pub without-other : (x y z : ℕ) (h : Heap) → z ≢ x → z ≢ y → without x y h z ≡ h z
without-other x y z h a b =
    update-other x z (record { prev = 0; next = 0 }) (set_prev y 0 h) a ∙ set_prev-other y 0 z h b

without-next : (x y : ℕ) (h : Heap) → y ≢ x → without x y h y ≡ record (h y) { prev = 0 }
without-next x y h a =
    update-other x y (record { prev = 0; next = 0 }) (set_prev y 0 h) a ∙ set_prev-same y 0 h

without-All :
    (x y : ℕ) (h : Heap) (zs : List ℕ)
    → All (λ z. x ≢ z) zs
    → All (λ z. y ≢ z) zs
    → All (λ z. without x y h z ≡ h z) zs
without-All x y h [] a b = tt
without-All x y h (z ∷ zs) a b =
    (without-other x y z h (λ e. a.0 (sym e)) (λ e. b.0 (sym e)), without-All x y h zs a.1 b.1)

-- Removing the front entry of a queue with one entry, and with more.
pub ev_rm-only :
    (q : Queue) (x : ℕ)
    → q.head ≡ x
    → q.tail ≡ x
    → (q.heap x).prev ≡ 0
    → (q.heap x).next ≡ 0
    → ev_rm x q
      ≡ record q { head = 0; tail = 0; heap = update x (record { prev = 0; next = 0 }) q.heap }
unfolding ev_rm
ev_rm-only q x a b c d = rw (a, b, c, d, ==-refl x, ev_rm) refl

pub ev_rm-front :
    (q : Queue) (x y : ℕ)
    → q.head ≡ x
    → x ≢ q.tail
    → (q.heap x).prev ≡ 0
    → (q.heap x).next ≡ y
    → y ≢ 0
    → ev_rm x q ≡ record q { head = y; heap = without x y q.heap }
unfolding ev_rm
ev_rm-front q x y a b c d e = rw (a, ne-test x q.tail b, c, d, ne-test y 0 e, ==-refl x, ev_rm) refl

pub ev_pop-rm : (q : Queue) → q.head ≢ 0 → ev_pop q ≡ (some (q.head), ev_rm q.head q)
unfolding ev_pop
ev_pop-rm q h = rw (ne-test q.head 0 h)

pub ev_pop-none : (q : Queue) → q.head ≡ 0 → ev_pop q ≡ (none, q)
unfolding ev_pop
ev_pop-none q h = rw (h, ev_pop) refl

rm-IsQueue :
    (q : Queue) (x : ℕ) (xs : List ℕ)
    → IsQueue q (x ∷ xs)
    → IsQueue (ev_rm x q) xs × IsFree (ev_rm x q).heap x
rm-IsQueue q x [] (hd, tl, (a, b, c, l), d) =
    subst (λ r. IsQueue r [] × IsFree r.heap x) (sym (ev_rm-only q x hd tl b c))
      (
        (refl, refl, tt, tt),
        (
          a,
          ap (λ n. n.prev) (update-same x (record { prev = 0; next = 0 }) q.heap),
          ap (λ n. n.next) (update-same x (record { prev = 0; next = 0 }) q.heap),
        ),
      )
rm-IsQueue q x (y ∷ ys) (hd, tl, (a, b, c, (f, g, i, l)), d) =
    let differs = All-last (λ z. x ≢ z) y ys (d.0).0 (d.0).1 in
    let gone = update-same x (record { prev = 0; next = 0 }) (set_prev y 0 q.heap) in
    let now = without-next x y q.heap (λ e. (d.0).0 (sym e)) in
    subst (λ r. IsQueue r (y ∷ ys) × IsFree r.heap x)
      (sym (ev_rm-front q x y hd (λ e. differs (e ∙ tl)) b c f))
      (
        (
          refl,
          tl,
          (
            f,
            ap (λ n. n.prev) now,
            ap (λ n. n.next) now ∙ i,
            IsLinked-outside q.heap (without x y q.heap) y ys
                (without-All x y q.heap ys (d.0).1 (d.1).0) l,
          ),
          d.1,
        ),
        (a, ap (λ n. n.prev) gone, ap (λ n. n.next) gone),
      )

-- A pop gives the first entry and takes it off the list, and leaves it ready to be pushed again.
pub ev_pop-first :
    (q : Queue) (x : ℕ) (xs : List ℕ)
    → IsQueue q (x ∷ xs)
    → ((ev_pop q).0 ≡ some x) × IsQueue (ev_pop q).1 xs × IsFree (ev_pop q).1.heap x
ev_pop-first q x xs (hd, tl, l, d) =
    let is = ev_pop-rm q (λ z. l.0 (sym hd ∙ z)) in
    let (queue, free) = rm-IsQueue q x xs (hd, tl, l, d) in
    let there = is ∙ ap (λ h. (some h, ev_rm h q)) hd in
    (
      ap (λ r. r.0) there,
      subst (λ r. IsQueue (r.1) xs) (sym there) queue,
      subst (λ r. IsFree (r.1).heap x) (sym there) free,
    )
