-- ===== src/Stores/Reads/Delivered.antt =====
-- `fetch` on a descriptor delivers the next bytes of the stream, however they arrive.
use osrv.Base.{
  ℕ, zero, suc, ◌+◌, ◌-◌, ◌≤◌, ◌<◌, ◌≡◌, refl, ap, sym, ◌∙◌, List, [], ◌∷◌, ◌++◌, append_assoc,
  append-nil, length, length-append, length-take, take, drop, take-append-drop, take-append_more,
  drop-append_more, subst, arith,
}
use osrv.Base.Bytes.{Bytes}
use osrv.Stores.Reads.{
  Event, chunk, again, broken, closed, Fetched, ok, read_error, closed_early, blocked, out_of_fuel,
  unread, need_of, fetch_loop, arriving, rounds, fetch_fd, max_recv_file, max_recv_sock, fetch_file,
  fetch_sock,
}

-- Either `left` bytes of the stream `a` are read, and the rest will still arrive, or fewer than
-- `left` bytes were to arrive.
pub data Delivers (got : Bytes) (left : ℕ) (a : Bytes) : Fetched → Type 0 where
  whole :
      {out : Bytes} {es : List Event}
      → out ≡ got ++ take left a
      → arriving es ≡ drop left a
      → left ≤ length a
      → Delivers got left a (ok out es)
  ended : length a < left → Delivers got left a closed_early
  failed : length a < left → Delivers got left a read_error
  waits : length a < left → Delivers got left a blocked

pub arriving-unread :
    (need : ℕ) (b : Bytes) (es : List Event)
    → arriving (unread need b es) ≡ drop need b ++ arriving es
unfolding unread arriving
arriving-unread need b es = go (drop need b)
  where
    go : (r : Bytes) → arriving (elim r [ [] ↦ es | c ∷ cs ↦ chunk c cs ∷ es ]) ≡ r ++ arriving es
    go [] = refl
    go (c ∷ cs) = refl

pub length-unread :
    (need : ℕ) (b : Bytes) (es : List Event) → length (unread need b es) ≤ suc (length es)
unfolding unread
length-unread need b es = go (drop need b)
  where
    go : (r : Bytes) → length (elim r [ [] ↦ es | c ∷ cs ↦ chunk c cs ∷ es ]) ≤ suc (length es)
    go [] = omega arith
    go (c ∷ cs) = omega arith

pub need_of-bounds :
    (max_recv left : ℕ)
    → 0 < max_recv
    → 0 < left
    → (0 < need_of max_recv left) × (need_of max_recv left ≤ left)
unfolding need_of
need_of-bounds max_recv left h k = ground arith

-- A round that took `piece` off the stream.
Delivers-piece :
    (got piece a : Bytes) (left : ℕ) (r : Fetched)
    → length piece ≤ left
    → Delivers (got ++ piece) (left - length piece) a r
    → Delivers got left (piece ++ a) r
Delivers-piece got piece a left (ok out es) h (whole e₁ e₂ k) =
    whole (e₁ ∙ append_assoc got piece _ ∙ ap (◌++◌ got) (sym (take-append_more piece a left h)))
      (e₂ ∙ sym (drop-append_more piece a left h)) (omega (arith, length-append piece a))
Delivers-piece got piece a left closed_early h (ended k) =
    ended (omega (arith, length-append piece a))
Delivers-piece got piece a left read_error h (failed k) =
    failed (omega (arith, length-append piece a))
Delivers-piece got piece a left blocked h (waits k) = waits (omega (arith, length-append piece a))
Delivers-piece got piece a left out_of_fuel h d = elim d [ ]

pub fetch_loop-Delivers :
    (f max_recv : ℕ) (got : Bytes) (left : ℕ) (es : List Event)
    → 0 < max_recv
    → left + length es < f
    → Delivers got left (arriving es) (fetch_loop f max_recv got left es)
unfolding fetch_loop arriving
fetch_loop-Delivers zero max_recv got left es pos h = absurd (omega arith)
fetch_loop-Delivers (suc f) max_recv got zero es pos h =
    whole (sym (append-nil got)) refl (omega arith)
fetch_loop-Delivers (suc f) max_recv got (suc n) [] pos h = waits (omega arith)
fetch_loop-Delivers (suc f) max_recv got (suc n) (again ∷ es) pos h =
    fetch_loop-Delivers f max_recv got (suc n) es pos (omega arith)
fetch_loop-Delivers (suc f) max_recv got (suc n) (broken ∷ es) pos h = failed (omega arith)
fetch_loop-Delivers (suc f) max_recv got (suc n) (closed ∷ es) pos h = ended (omega arith)
fetch_loop-Delivers (suc f) max_recv got (suc n) (chunk c cs ∷ es) pos h =
    let need = need_of max_recv (suc n) in
    let piece = take need (c ∷ cs) in
    let bounds = need_of-bounds max_recv (suc n) pos (omega arith) in
    let size = length-take need (c ∷ cs) in
    let rest = unread need (c ∷ cs) es in
    subst
      (λ a.
        Delivers got (suc n) a (fetch_loop f max_recv (got ++ piece) (suc n - length piece) rest))
      (ap (◌++◌ piece) (arriving-unread need (c ∷ cs) es)
        ∙ sym (append_assoc piece (drop need (c ∷ cs)) (arriving es))
        ∙ ap (λ t. t ++ arriving es) (take-append-drop need (c ∷ cs)))
      (Delivers-piece got piece (arriving rest) (suc n) _ (omega (arith, size, bounds)) (
        fetch_loop-Delivers f max_recv (got ++ piece) (suc n - length piece) rest pos
          (omega (arith, size, bounds, length-unread need (c ∷ cs) es))))

fetch_fd-Delivers :
    (max_recv len : ℕ) (es : List Event)
    → 0 < max_recv
    → Delivers [] len (arriving es) (fetch_fd max_recv len es)
unfolding fetch_fd rounds
fetch_fd-Delivers max_recv len es pos =
    fetch_loop-Delivers (suc (len + length es)) max_recv [] len es pos (omega arith)

-- Fetching `len` bytes from a file or a socket ends; it gives the next `len` bytes of what arrives
-- and leaves the rest, in whatever pieces and with whatever retries they come, and it fails or waits
-- only if fewer arrive.
pub fetch_file-Delivers :
    (len : ℕ) (es : List Event)
    → Delivers [] len (arriving es) (fetch_file len es)
      × Delivers [] len (arriving es) (fetch_sock len es)
unfolding fetch_file fetch_sock
fetch_file-Delivers len es = (
  fetch_fd-Delivers max_recv_file len es (omega arith),
  fetch_fd-Delivers max_recv_sock len es (omega arith),
)
