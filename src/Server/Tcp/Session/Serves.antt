-- ===== src/Server/Tcp/Session/Serves.antt =====
-- A connection of the TCP protocol against its specification: the commands of a client that waits for
-- each answer are served in order.
use osrv.Base.{
  ℕ, zero, suc, ◌≤◌, ◌<◌, ◌≡◌, refl, sym, ap, ◌∙◌, subst, List, [], ◌∷◌, ◌++◌, append_assoc,
  append-nil, length, take, take_all, drop_all, All, arith,
}
use osrv.Base.Bytes.{Bytes}
use osrv.Http.{Answer, Conn, Code, ok, closed, and_then, send_buf, send_loop}
use osrv.Http.Sending.{delivered, http_send-Delivers}
use osrv.Http.Store.Answers.{Takes, send_loop-res}
use osrv.Requests.Connection.{size}
use osrv.Requests.Wire.Message.{arrives}
use osrv.Server.State.{Server}
use osrv.Server.Tcp.{Round, round}
use osrv.Server.Tcp.Commands.{
  Command, gets, has, deletes, puts, text_of, IsCommand, Stacks, answer, effect, HoldsData, Refines,
  concat, Serves, round-Serves, effect-HoldsData,
}
use osrv.Server.Tcp.Session.{
  max_request, Ended, shut, follow, send_all, stream, after_sends, after_round, received,
  session_loop, do_process,
}
use osrv.Stores.Files.{Reply}
use osrv.Stores.Reads.{Event, closed, unread}

-- The answers to the commands, and the stacks after them.
abbrev pub answers : List Command → Stacks → Bytes
answers [] st = []
answers (x ∷ xs) st = answer x st ++ answers xs (effect x st)

abbrev pub effects : List Command → Stacks → Stacks
effects [] st = st
effects (x ∷ xs) st = effects xs (effect x st)

-- Each command arrives in one piece, and then the client closes the connection.
abbrev pub requests : List Command → List Event
requests [] = closed ∷ []
requests (x ∷ xs) = arrives (text_of x) (requests xs)

abbrev pub FitsRequest : Command → Type 0
FitsRequest x = length (text_of x) ≤ max_request

-- The socket is closed, after these bytes were sent and with these stacks.
pub data Closes (sent : Bytes) (st : Stacks) : Ended → Type 0 where
  closes : {c : Conn} {s : Server} → c.sent ≡ sent → Refines s st → Closes sent st (shut c s)

-- All the texts were sent.
pub record AllSent (c : Conn) (bs : List Bytes) (r : Code × Conn) : Type 0 where
  pub conn : Conn
  pub is_sent : r ≡ (ok, conn)
  pub is_all : conn.sent ≡ c.sent ++ concat bs

unread-whole : (n : ℕ) (t : Bytes) (es : List Event) → length t ≤ n → unread n t es ≡ es
unfolding unread
unread-whole n t es h = rw (drop_all t n h, unread) refl

text-some : (x : Command) → 0 < length (text_of x)
text-some (gets key) = omega arith
text-some (has key) = omega arith
text-some (deletes key) = omega arith
text-some (puts key payload) = omega arith

size-arrives : (t : Bytes) (es : List Event) → 0 < length t → size es < size (arrives t es)
unfolding size
size-arrives [] es p = absurd (omega arith)
size-arrives (c ∷ cs) es p = omega arith

size-requests : (xs : List Command) → length xs < suc (size (requests xs))
unfolding size
size-requests [] = omega arith
size-requests (x ∷ xs) =
    omega (arith, size-arrives (text_of x) (requests xs) (text-some x), size-requests xs)

module _ (net : ℕ → ℕ → Answer) (takes : Takes net) where
  send_buf-AllSent : (c : Conn) (b : Bytes) → AllSent c (b ∷ []) (send_buf net c b)
  unfolding send_buf
  send_buf-AllSent c b =
      let res = send_loop-res net takes (length b) c b (omega arith) in
      let all = delivered c b (send_loop net (length b) c b) ((http_send-Delivers net c b).2) res in
      record {
        conn = (send_loop net (length b) c b).1;
        is_sent = ap (λ (k : Code). (k, (send_loop net (length b) c b).1)) res;
        is_all = all ∙ ap (◌++◌ c.sent) (sym (append-nil b));
      }

  pub send_all-AllSent : (c : Conn) (bs : List Bytes) → AllSent c bs (send_all net c bs)
  unfolding send_all and_then
  send_all-AllSent c [] = record { conn = c; is_sent = refl; is_all = sym (append-nil c.sent) }
  send_all-AllSent c (b ∷ bs) =
      let first = send_buf-AllSent c b in
      let others = send_all-AllSent first.conn bs in
      record {
        conn = others.conn;
        is_sent =
            ap (λ r. and_then r (λ (d : Conn). send_all net d bs)) first.is_sent ∙ others.is_sent;
        is_all =
            others.is_all
            ∙ (ap (λ t. t ++ concat bs) (first.is_all ∙ ap (◌++◌ c.sent) (append-nil b))
                ∙ append_assoc c.sent b (concat bs));
      }

  module _ (write : ℕ → Bytes → Reply) where
    -- A round that serves a command goes on with its answer sent.
    after_round-Serves :
        (next : Conn → Server → List Event → Ended) (es : List Event) (c : Conn) (x : Command)
        (st : Stacks) (r : Round)
        → Serves x st r
        → (d : Conn) × (d.sent ≡ c.sent ++ answer x st)
          × (after_round net write next es c r ≡ next d r.server es)
    unfolding after_round after_sends stream follow
    after_round-Serves next es c x st r v =
        let sent = send_all-AllSent c r.sent in
        (
          sent.conn,
          sent.is_all ∙ ap (◌++◌ c.sent) v.answers,
          ap (after_sends net write next es r) sent.is_sent
              ∙ (ap
                    (λ y.
                      stream net write r.server sent.conn (λ d. follow next es d r.server r.next) y)
                    v.streams_none
                  ∙ ap (follow next es sent.conn r.server) v.goes_on),
        )

    pub received-whole :
        (next : Conn → Server → List Event → Ended) (n : ℕ) (c : Conn) (s : Server) (t : Bytes)
        (es : List Event)
        → length t ≤ n
        → received net write next n c s t es ≡ after_round net write next es c (round t s)
    unfolding received
    received-whole next n c s t es h =
        ap (λ (u : List Event). after_round net write next u c (round (take n t) s))
          (unread-whole n t es h)
        ∙ ap (λ (u : Bytes). after_round net write next es c (round u s)) (take_all t n h)

    pub session_loop-piece :
        (f : ℕ) (c : Conn) (s : Server) (t : Bytes) (es : List Event)
        → 0 < length t
        → session_loop net write (suc f) c s (arrives t es)
          ≡ received net write (session_loop net write f) max_request c s t es
    unfolding session_loop
    session_loop-piece f c s [] es p = absurd (omega arith)
    session_loop-piece f c s (b ∷ bs) es p = refl

    session_loop-Closes :
        (f : ℕ) (c : Conn) (s : Server) (xs : List Command) (st : Stacks)
        → length xs < f
        → All IsCommand xs
        → All FitsRequest xs
        → Refines s st
        → HoldsData st
        → Closes
            (c.sent ++ answers xs st)
            (effects xs st)
            (session_loop net write f c s (requests xs))
    unfolding session_loop
    session_loop-Closes zero c s xs st h a b r d = absurd (omega arith)
    session_loop-Closes (suc f) c s [] st h a b r d = closes (sym (append-nil c.sent)) r
    session_loop-Closes (suc f) c s (x ∷ xs) st h (a, others) (b, bs) r d =
        let served = round-Serves x s st a r d (omega arith) in
        let (e, sent, is) =
          after_round-Serves (session_loop net write f) (requests xs) c x st (round (text_of x) s)
            served in
        let rest =
          session_loop-Closes f e (round (text_of x) s).server xs (effect x st) (omega arith) others
            bs served.refines (effect-HoldsData x st d) in
        subst (Closes (c.sent ++ answers (x ∷ xs) st) (effects (x ∷ xs) st))
          (sym (
            session_loop-piece f c s (text_of x) (requests xs) (text-some x)
            ∙ (received-whole (session_loop net write f) max_request c s (text_of x) (requests xs) b
                ∙ is)))
          (subst
            (λ (t : Bytes).
              Closes t (effects xs (effect x st))
                (session_loop net write f e (round (text_of x) s).server (requests xs)))
            (ap (λ t. t ++ answers xs (effect x st)) sent
              ∙ append_assoc c.sent (answer x st) (answers xs (effect x st)))
            rest)

    -- The commands of a client that each arrive in one `recv`, from a server whose entries hold
    -- data, on a socket that takes some bytes whenever it is given some: the connection ends when
    -- the client closes it, the answers were sent in order, and the entries are those that the
    -- commands leave. The keys can be sent, and the payloads are not empty.
    pub do_process-Closes :
        (s : Server) (xs : List Command) (st : Stacks)
        → All IsCommand xs
        → All FitsRequest xs
        → Refines s st
        → HoldsData st
        → Closes (answers xs st) (effects xs st) (do_process net write s (requests xs))
    unfolding do_process
    do_process-Closes s xs st a b r d =
        session_loop-Closes (suc (size (requests xs))) (record { sent = []; calls = 0 }) s xs st
          (size-requests xs) a b r d
