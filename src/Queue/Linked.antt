-- ===== src/Queue/Linked.antt =====
-- The queue as a list of addresses.
use osrv.Base.{ℕ, ◌≡◌, ◌≢◌, ap, ◌∙◌, false, List, [], ◌∷◌, ◌==◌, ==-refl, All, arith}
use osrv.Queue.{Node, Heap, Queue, update, set_prev, set_next}

abbrev pub first : List ℕ → ℕ
first [] = 0
first (x ∷ xs) = x

abbrev pub last_of : ℕ → List ℕ → ℕ
last_of x [] = x
last_of x (y ∷ ys) = last_of y ys

abbrev pub last : List ℕ → ℕ
last [] = 0
last (x ∷ xs) = last_of x xs

-- The entries are linked both ways, behind `p`.
abbrev pub IsLinked : Heap → ℕ → List ℕ → Type 0
IsLinked h p [] = Unit
IsLinked h p (x ∷ xs) = (x ≢ 0) × ((h x).prev ≡ p) × ((h x).next ≡ first xs) × IsLinked h x xs

abbrev pub IsDistinct : List ℕ → Type 0
IsDistinct [] = Unit
IsDistinct (x ∷ xs) = All (λ y. x ≢ y) xs × IsDistinct xs

-- The queue holds the entries `xs`, the first one at the front.
abbrev pub IsQueue : Queue → List ℕ → Type 0
IsQueue q xs = (q.head ≡ first xs) × (q.tail ≡ last xs) × IsLinked q.heap 0 xs × IsDistinct xs

-- An entry that is on no queue.
abbrev pub IsFree : Heap → ℕ → Type 0
IsFree h e = (e ≢ 0) × ((h e).prev ≡ 0) × ((h e).next ≡ 0)

pub ne-test : (x a : ℕ) → x ≢ a → (x == a) ≡ false
ne-test x a h = ground arith

pub update-same : (a : ℕ) (n : Node) (h : Heap) → update a n h a ≡ n
unfolding update
update-same a n h = rw (==-refl a)

pub update-other : (a x : ℕ) (n : Node) (h : Heap) → x ≢ a → update a n h x ≡ h x
unfolding update
update-other a x n h k = rw (ne-test x a k)

-- A change outside the list.
pub IsLinked-outside :
    (h k : Heap) (p : ℕ) (xs : List ℕ) → All (λ x. k x ≡ h x) xs → IsLinked h p xs → IsLinked k p xs
IsLinked-outside h k p [] e l = tt
IsLinked-outside h k p (x ∷ xs) e (a, b, c, d) =
    (a, ap (λ n. n.prev) e.0 ∙ b, ap (λ n. n.next) e.0 ∙ c, IsLinked-outside h k x xs e.1 d)

pub All-last : (P : ℕ → Type 0) (x : ℕ) (xs : List ℕ) → P x → All P xs → P (last_of x xs)
All-last P x [] a b = a
All-last P x (y ∷ ys) a b = All-last P y ys b.0 b.1

pub set_next-same : (a n : ℕ) (h : Heap) → set_next a n h a ≡ record (h a) { next = n }
unfolding set_next
set_next-same a n h = update-same a (record (h a) { next = n }) h

pub set_next-other : (a n x : ℕ) (h : Heap) → x ≢ a → set_next a n h x ≡ h x
unfolding set_next
set_next-other a n x h k = update-other a x (record (h a) { next = n }) h k

pub set_prev-same : (a n : ℕ) (h : Heap) → set_prev a n h a ≡ record (h a) { prev = n }
unfolding set_prev
set_prev-same a n h = update-same a (record (h a) { prev = n }) h

pub set_prev-other : (a n x : ℕ) (h : Heap) → x ≢ a → set_prev a n h x ≡ h x
unfolding set_prev
set_prev-other a n x h k = update-other a x (record (h a) { prev = n }) h k
