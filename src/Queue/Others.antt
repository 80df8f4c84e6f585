-- ===== src/Queue/Others.antt =====
-- The entries that a push or a pop does not touch.
use osrv.Base.{
  ℕ, ◌≡◌, ◌≢◌, refl, sym, ap, ◌∙◌, Bool, true, false, List, [], ◌∷◌, Option, Option-cases, inl, inr,
  All,
}
use osrv.Queue.{Heap, Queue, link, notify, ev_push, ev_rm, ev_pop}
use osrv.Queue.Linked.{IsQueue, update-other, All-last}
use osrv.Queue.Pops.{ev_rm-only, ev_rm-front, ev_pop-rm, without-other}
use osrv.Queue.Pushes.{link-back, behind-other, link-front, before-other, ev_push-notify}

rm-other :
    (q : Queue) (x a : ℕ) (xs : List ℕ)
    → IsQueue q (x ∷ xs)
    → a ≢ x
    → All (λ y. y ≢ a) xs
    → (ev_rm x q).heap a ≡ q.heap a
rm-other q x a [] (hd, tl, (n, b, c, l), d) f g =
    ap (λ (r : Queue). r.heap a) (ev_rm-only q x hd tl b c)
    ∙ update-other x a (record { prev = 0; next = 0 }) q.heap f
rm-other q x a (y ∷ ys) (hd, tl, (n, b, c, (m, l, l₂, l₃)), d) f g =
    let differs = All-last (λ z. x ≢ z) y ys (d.0).0 (d.0).1 in
    ap (λ (r : Queue). r.heap a) (ev_rm-front q x y hd (λ e. differs (e ∙ tl)) b c m)
    ∙ without-other x y a q.heap f (λ e. g.0 (sym e))

pub ev_pop-other :
    (q : Queue) (x a : ℕ) (xs : List ℕ)
    → IsQueue q (x ∷ xs)
    → a ≢ x
    → All (λ y. y ≢ a) xs
    → (ev_pop q).1.heap a ≡ q.heap a
ev_pop-other q x a xs (hd, tl, l, d) f g =
    ap (λ (r : Option ℕ × Queue). r.1.heap a) (ev_pop-rm q (λ z. l.0 (sym hd ∙ z)))
    ∙ (ap (λ h. (ev_rm h q).heap a) hd ∙ rm-other q x a xs (hd, tl, l, d) f g)

notify-heap : (q : Queue) → (notify q).heap ≡ q.heap
unfolding notify
notify-heap q = elim (Option-cases q.fd) [
  | inl e ↦ rw (e, notify) refl
  | inr (fd, e) ↦ rw (e, notify) refl
]

link-other :
    (q : Queue) (e a : ℕ) (front : Bool) (xs : List ℕ)
    → IsQueue q xs
    → a ≢ e
    → All (λ y. y ≢ a) xs
    → (link e front q).heap a ≡ q.heap a
unfolding link
link-other q e a front [] (hd, tl, l, d) f g = rw (hd, link) refl
link-other q e a true (x ∷ xs) (hd, tl, l, d) f g =
    ap (λ (r : Queue). r.heap a) (link-front q e x hd l.0)
    ∙ before-other e x a q.heap f (λ z. g.0 (sym z))
link-other q e a false (x ∷ xs) (hd, tl, l, d) f g =
    ap (λ (r : Queue). r.heap a) (link-back q e (λ z. l.0 (sym hd ∙ z)))
    ∙ behind-other e q.tail a q.heap f (λ z. All-last (λ y. y ≢ a) x xs g.0 g.1 (sym tl ∙ sym z))

pub ev_push-other :
    (q : Queue) (e a : ℕ) (front : Bool) (xs : List ℕ)
    → IsQueue q xs
    → e ≢ 0
    → a ≢ e
    → All (λ y. y ≢ a) xs
    → (ev_push e front q).heap a ≡ q.heap a
ev_push-other q e a front xs i n f g =
    ap (λ (r : Queue). r.heap a) (ev_push-notify q e front n)
    ∙ (ap (λ (h : Heap). h a) (notify-heap (link e front q)) ∙ link-other q e a front xs i f g)
