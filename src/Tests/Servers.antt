-- ===== src/Tests/Servers.antt =====
-- The object store, the dependencies and the requests.
use osrv.Base.{List, ◌-◌, ◌≡◌, refl, Bool, true, false, [], ◌∷◌, ◌++◌, none, some, arith}
use osrv.Base.Bytes.{Bytes}
use osrv.Base.Decimal.{decimal}
use osrv.Sfs.Object.{nil, same_bytes}
use osrv.Server.Objects.{Entry, Objects, obj_add, obj_get, obj_gc}
use osrv.Server.Objects.Stacks.{stack, top, obj_get-stack}
use osrv.Server.Objects.Preserved.{IsBalanced, total_held, obj-IsBalanced}
use osrv.Server.Deps.{
  Dependent, Deps, mark, satisfied, marked, is_resolved, deps_complete, deps_add,
}
use osrv.Server.Deps.Completion.{Completes, deps_complete-Completes}
use osrv.Server.Http.{put, http_process}
use osrv.Server.Http.Data.{data_request, effect, http_process-entries}
use osrv.Server.State.{entries}
use osrv.Server.Deps.{Event}
use osrv.Server.Deps.Tail.{deps_add-dangling}
use osrv.Server.State.{Server}
use osrv.Server.Tcp.{discard, reply, put_command, round}
use osrv.Server.Tcp.Rounds.{request, round-put_short}

abbrev pub k_key : Bytes
k_key = b'k' ∷ []

abbrev l_key : Bytes
l_key = b'l' ∷ []

-- An object under `k` and data under `l`.
abbrev k_entry : Entry
k_entry = record { key = k_key; len = 0; obj = none; what = some nil }

abbrev l_entry : Entry
l_entry = record { key = l_key; len = 2; obj = some (7 ∷ 8 ∷ []); what = none }

abbrev two_objects : Objects
two_objects = record { root = k_entry ∷ l_entry ∷ []; pool = []; preserved = 1 }

obj_get-stack_example :
    ((obj_get k_key true two_objects).0 ≡ top (stack k_key two_objects.root))
    × (stack l_key (obj_get k_key true two_objects).1.root ≡ stack l_key two_objects.root)
unfolding stack same_bytes
obj_get-stack_example = obj_get-stack k_key l_key true two_objects

two_objects-IsBalanced : IsBalanced two_objects
unfolding total_held
two_objects-IsBalanced = refl

obj-IsBalanced_example :
    IsBalanced (obj_add k_key (some nil) none 0 two_objects)
    × IsBalanced (obj_get k_key true two_objects).1
    × IsBalanced (obj_gc two_objects)
    × ((obj_gc two_objects).preserved ≡ total_held two_objects.root)
obj-IsBalanced_example =
    obj-IsBalanced two_objects k_key true (some nil) none 0 two_objects-IsBalanced

-- Two dependents: one waits for `k`, the other for `l`.
abbrev waits_k : Dependent
waits_k = record {
  address = 100;
  msg = 1;
  name = [];
  reqs = record { key = k_key; status = false } ∷ [];
}

abbrev waits_l : Dependent
waits_l = record {
  address = 200;
  msg = 2;
  name = [];
  reqs = record { key = l_key; status = false } ∷ [];
}

abbrev pub two_waiting : Deps
two_waiting = record { chain = waits_k ∷ waits_l ∷ []; tail = 200; posted = [] }

deps_complete-Completes_example :
    (messages : List Event) × (Completes
        (some k_key)
        two_waiting.chain
        (deps_complete (some k_key) two_waiting).chain
        messages
      × ((deps_complete (some k_key) two_waiting).posted ≡ two_waiting.posted ++ messages))
deps_complete-Completes_example = deps_complete-Completes (some k_key) two_waiting

is_l : is_resolved (marked (some l_key) waits_l) ≡ true
unfolding mark satisfied same_bytes
is_l = refl

not_l : is_resolved (marked (some l_key) waits_k) ≡ false
unfolding mark satisfied same_bytes
not_l = refl

abbrev none_present : Bytes → Bool
none_present k = false

deps_add-dangling_example :
    deps_add none_present 300 [] (k_key ∷ []) 3 (deps_complete (some l_key) two_waiting) ≡ none
deps_add-dangling_example =
    deps_add-dangling (some l_key) two_waiting [] waits_k [] waits_l none_present 300 []
      (k_key ∷ []) 3 refl refl (omega arith, tt) not_l is_l

abbrev pub two_server : Server
two_server = record { objects = two_objects; deps = two_waiting; queue = false }

http_process-entries_example :
    entries k_key (http_process (data_request put k_key (some (5 ∷ [])) 1) two_server).server
    ≡ effect put k_key (some (5 ∷ [])) 1 (λ k. entries k two_server) k_key
http_process-entries_example =
    http_process-entries put k_key k_key (some (5 ∷ [])) 1 two_server (refl, tt)

abbrev put_text : Bytes
put_text = request put_command k_key (decimal 2 ++ 10 ∷ 5 ∷ 6 ∷ [])

round-put_short_example :
    round (request put_command k_key (decimal 3 ++ 10 ∷ 5 ∷ 6 ∷ [])) two_server
    ≡ reply two_server [] (discard (3 - 2))
round-put_short_example =
    round-put_short k_key (5 ∷ 6 ∷ []) 3 two_server (((refl, refl, refl), tt), refl) (omega arith)
      (omega arith)
