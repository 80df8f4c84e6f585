-- ===== src/Queue/Pushes.antt =====
-- `ev_push` on the list of the entries.
use osrv.Base.{
  ℕ, ◌≡◌, ◌≢◌, refl, sym, ap, ◌∙◌, subst, Bool, true, false, List, [], ◌∷◌, ◌++◌, Option, none,
  some, ◌==◌, All,
}
use osrv.Queue.{Heap, Queue, set_prev, set_next, link, notify, ev_push}
use osrv.Queue.Linked.{
  last_of, IsLinked, IsDistinct, IsQueue, IsFree, ne-test, IsLinked-outside, All-last,
  set_next-same, set_next-other, set_prev-same, set_prev-other,
}

-- The heap after `e` was linked behind `t`.
abbrev pub behind : ℕ → ℕ → Heap → Heap
behind e t h = set_next t e (set_prev e t h)

pub behind-other : (e t x : ℕ) (h : Heap) → x ≢ e → x ≢ t → behind e t h x ≡ h x
behind-other e t x h a b = set_next-other t e x (set_prev e t h) b ∙ set_prev-other e t x h a

-- The fields of the tail and of the new entry.
behind-fields :
    (e t : ℕ) (h : Heap)
    → t ≢ e
    → ((behind e t h t).prev ≡ (h t).prev)
      × ((behind e t h t).next ≡ e)
      × ((behind e t h e).prev ≡ t)
      × ((behind e t h e).next ≡ (h e).next)
behind-fields e t h a =
    let tail = set_next-same t e (set_prev e t h) in
    let old = set_prev-other e t t h a in
    let new = set_next-other t e e (set_prev e t h) (λ q. a (sym q)) ∙ set_prev-same e t h in
    (
      ap (λ m. m.prev) tail ∙ ap (λ m. m.prev) old,
      ap (λ m. m.next) tail,
      ap (λ m. m.prev) new,
      ap (λ m. m.next) new,
    )

IsLinked-behind :
    (h : Heap) (e p x : ℕ) (xs : List ℕ)
    → IsLinked h p (x ∷ xs)
    → IsDistinct (x ∷ xs)
    → All (λ y. y ≢ e) (x ∷ xs)
    → IsFree h e
    → IsLinked (behind e (last_of x xs) h) p ((x ∷ xs) ++ e ∷ [])
IsLinked-behind h e p x [] (a, b, c, d) r n (f, g, i) =
    let (tp, tn, ep, en) = behind-fields e x h n.0 in (a, tp ∙ b, tn, (f, ep, en ∙ i, tt))
IsLinked-behind h e p x (y ∷ ys) (a, b, c, d) r n f =
    let same = behind-other e (last_of y ys) x h n.0 (All-last (λ z. x ≢ z) y ys (r.0).0 (r.0).1) in
    (
      a,
      ap (λ m. m.prev) same ∙ b,
      ap (λ m. m.next) same ∙ c,
      IsLinked-behind h e x y ys d r.1 n.1 f,
    )

last-append : (x e : ℕ) (xs : List ℕ) → last_of x (xs ++ e ∷ []) ≡ e
last-append x e [] = refl
last-append x e (y ∷ ys) = last-append y e ys

pub All-append : (P : ℕ → Type 0) (e : ℕ) (xs : List ℕ) → All P xs → P e → All P (xs ++ e ∷ [])
All-append P e [] a b = (b, tt)
All-append P e (x ∷ xs) a b = (a.0, All-append P e xs a.1 b)

pub IsDistinct-append :
    (e : ℕ) (xs : List ℕ) → IsDistinct xs → All (λ y. y ≢ e) xs → IsDistinct (xs ++ e ∷ [])
IsDistinct-append e [] d n = (tt, tt)
IsDistinct-append e (x ∷ xs) d n =
    (All-append (λ y. x ≢ y) e xs d.0 n.0, IsDistinct-append e xs d.1 n.1)

notify-IsQueue : (q : Queue) (xs : List ℕ) → IsQueue q xs → IsQueue (notify q) xs
unfolding notify
notify-IsQueue q xs i = by_fd q.fd
  where
    by_fd :
        (fd : Option ℕ)
        → IsQueue
            (elim fd as (λ x. Queue) [
              | none ↦ q
              | some fd ↦ record q { notified = fd ∷ q.notified }
            ])
            xs
    by_fd none = i
    by_fd (some fd) = i

pub link-back :
    (q : Queue) (e : ℕ)
    → q.head ≢ 0
    → link e false q ≡ record q { tail = e; heap = behind e q.tail q.heap }
unfolding link
link-back q e h = let used : (q.head == 0) ≡ false = ne-test q.head 0 h in rw (used, link) refl

pub ev_push-notify :
    (q : Queue) (e : ℕ) (front : Bool) → e ≢ 0 → ev_push e front q ≡ notify (link e front q)
unfolding ev_push
ev_push-notify q e front h = rw (ne-test e 0 h)

-- Pushing a free entry at the end appends it to the list of the entries, which stay linked both
-- ways; the entry is none of those on the queue.
pub ev_push-back :
    (q : Queue) (e : ℕ) (xs : List ℕ)
    → IsQueue q xs
    → IsFree q.heap e
    → All (λ y. y ≢ e) xs
    → IsQueue (ev_push e false q) (xs ++ e ∷ [])
ev_push-back q e [] (hd, tl, l, d) (f, g, i) n = rw (ev_push-notify q e false f) (
    notify-IsQueue (link e false q) (e ∷ [])
      (unfold link in rw (hd, link) (refl, refl, (f, g, i, tt), (tt, tt))))
ev_push-back q e (x ∷ xs) (hd, tl, l, d) f n =
    subst (λ r. IsQueue r ((x ∷ xs) ++ e ∷ [])) (sym (ev_push-notify q e false f.0))
      (notify-IsQueue (link e false q) ((x ∷ xs) ++ e ∷ []) (
        subst (λ r. IsQueue r ((x ∷ xs) ++ e ∷ [])) (sym (link-back q e (λ z. l.0 (sym hd ∙ z))))
          (
            hd,
            sym (last-append x e xs),
            subst (λ t. IsLinked (behind e t q.heap) 0 ((x ∷ xs) ++ e ∷ [])) (sym tl)
                (IsLinked-behind q.heap e 0 x xs l d n f),
            IsDistinct-append e (x ∷ xs) d n,
          )))

pub link-front :
    (q : Queue) (e x : ℕ)
    → q.head ≡ x
    → x ≢ 0
    → link e true q ≡ record q { head = e; heap = set_prev x e (set_next e x q.heap) }
unfolding link
link-front q e x a h = rw (a, ne-test x 0 h, link) refl

pub before-other : (e x z : ℕ) (h : Heap) → z ≢ e → z ≢ x → set_prev x e (set_next e x h) z ≡ h z
before-other e x z h a b = set_prev-other x e z (set_next e x h) b ∙ set_next-other e x z h a

before-All :
    (e x : ℕ) (h : Heap) (zs : List ℕ)
    → All (λ z. z ≢ e) zs
    → All (λ z. x ≢ z) zs
    → All (λ z. set_prev x e (set_next e x h) z ≡ h z) zs
before-All e x h [] a b = tt
before-All e x h (z ∷ zs) a b =
    (before-other e x z h a.0 (λ q. b.0 (sym q)), before-All e x h zs a.1 b.1)

pub All-ne : (e : ℕ) (xs : List ℕ) → All (λ y. y ≢ e) xs → All (λ y. e ≢ y) xs
All-ne e [] a = tt
All-ne e (x ∷ xs) a = ((λ q. a.0 (sym q)), All-ne e xs a.1)

-- Pushing a free entry at the front puts it before the others; the entry is none of those on the
-- queue.
pub ev_push-front :
    (q : Queue) (e : ℕ) (xs : List ℕ)
    → IsQueue q xs
    → IsFree q.heap e
    → All (λ y. y ≢ e) xs
    → IsQueue (ev_push e true q) (e ∷ xs)
ev_push-front q e [] (hd, tl, l, d) (f, g, i) n = rw (ev_push-notify q e true f) (
    notify-IsQueue (link e true q) (e ∷ [])
      (unfold link in rw (hd, link) (refl, refl, (f, g, i, tt), (tt, tt))))
ev_push-front q e (x ∷ xs) (hd, tl, (a, b, c, l), d) (f, g, i) n =
    let h = set_next e x q.heap in
    let new = set_prev-other x e e h (λ z. n.0 (sym z)) ∙ set_next-same e x q.heap in
    let old = set_prev-same x e h in
    let kept = set_next-other e x x q.heap n.0 in
    subst (λ r. IsQueue r (e ∷ x ∷ xs)) (sym (ev_push-notify q e true f))
      (notify-IsQueue (link e true q) (e ∷ x ∷ xs) (
        subst (λ r. IsQueue r (e ∷ x ∷ xs)) (sym (link-front q e x hd a))
          (
            refl,
            tl,
            (
              f,
              ap (λ m. m.prev) new ∙ g,
              ap (λ m. m.next) new,
              (
                a,
                ap (λ m. m.prev) old,
                ap (λ m. m.next) old ∙ ap (λ m. m.next) kept ∙ c,
                IsLinked-outside q.heap (set_prev x e h) x xs (before-All e x q.heap xs n.1 d.0) l,
              ),
            ),
            (All-ne e (x ∷ xs) n, d),
          )))
