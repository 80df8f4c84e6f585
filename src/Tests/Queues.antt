-- ===== src/Tests/Queues.antt =====
-- A queue of two entries, and a third one that is free.
use osrv.Base.{refl, [], ◌∷◌, some, ◌==◌, if◌then◌else◌, arith}
use osrv.Queue.{Heap, Queue}
use osrv.Queue.Linked.{IsQueue}

abbrev nodes : Heap
nodes x =
    if x == 8
    then record { prev = 0; next = 16 }
    else if x == 16
    then record { prev = 8; next = 0 }
    else record { prev = 0; next = 0 }

abbrev pub two_entries : Queue
two_entries = record { head = 8; tail = 16; fd = some 5; notified = []; heap = nodes }

pub two_entries-IsQueue : IsQueue two_entries (8 ∷ 16 ∷ [])
two_entries-IsQueue = (
  refl,
  refl,
  (omega arith, refl, refl, (omega arith, refl, refl, tt)),
  ((omega arith, tt), (tt, tt)),
)
