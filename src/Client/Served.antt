-- ===== src/Client/Served.antt =====
-- `C_ask` of src/ocli.c on the other end of `do_process` of src/osrv.c.
use osrv.Base.{
  ℕ, ◌≤◌, ◌≡◌, refl, sym, ap, ◌∙◌, subst, Bool, true, false, List, [], ◌∷◌, ◌++◌, append-nil,
  Option, none, some, ltb, inl, length, All, arith,
}
use osrv.Base.Bytes.{Bytes}
use osrv.Base.Text.{codes}
use osrv.Api.{content, key_of}
use osrv.Client.{
  Answer, text, bytes, Peer, max_vector, receive, after_send, exchange, connected, command_of,
  at_port, checked, c_ask,
}
use osrv.Client.Replies.{receive-text, receive-bytes}
use osrv.Http.{took, Conn}
use osrv.Http
use osrv.Http.Store.Answers.{Takes}
use osrv.Requests.{pos}
use osrv.Server.Objects.{Entry}
use osrv.Server.Objects.Stacks.{top}
use osrv.Server.State.{Server}
use osrv.Server.Tcp.Commands.{
  Command, gets, has, deletes, puts, text_of, IsCommand, Stacks, found, answer, effect, HoldsData,
  Refines,
}
use osrv.Server.Tcp.{ok_length}
use osrv.Server.Tcp.Rounds.{InLine}
use osrv.Server.Tcp.Session.{Ended, shut, do_process}
use osrv.Server.Tcp.Session.Serves.{FitsRequest, requests, Closes, closes, do_process-Closes}
use osrv.Sfs.Object.{str, plain}
use osrv.Stores.Files.{Reply}
use osrv.Stores.Reads.{Event, arriving}

-- The client reaches the server, and its command is sent.
pub record Connects (peer : Peer) (host : Bytes) (port : ℕ) (cmd : Bytes) : Type 0 where
  pub opens : peer.has_socket ≡ true
  pub is_resolved : peer.resolves host ≡ true
  pub is_accepted : peer.accepts host port ≡ true
  pub is_port : port ≤ 65_535
  pub is_sent : peer.send cmd ≡ took (length cmd)

pub c_ask-receive :
    (peer : Peer) (host cmd : Bytes) (port : ℕ) (use_sfs : Bool)
    → Connects peer host port cmd
    → c_ask peer (str plain (host ∷ [])) (pos port) (str plain (cmd ∷ [])) use_sfs
      ≡ receive use_sfs (peer.receives cmd)
unfolding c_ask checked key_of command_of at_port connected exchange after_send
c_ask-receive peer host cmd port use_sfs c =
    let port_fits : ltb 65_535 port ≡ false = let h = c.is_port in ground arith in
    let all : ltb (length cmd) (length cmd) ≡ false = ground arith in
    rw (port_fits)
      (rw (c.opens, c.is_resolved, c.is_accepted) (rw (c.is_sent, after_send) (rw all refl)))

-- What the client is given.
abbrev pub given_found : Option Entry → (Entry → Answer) → Answer
given_found none given = text (codes "NF")
given_found (some e) given = given e

abbrev pub given : Command → Stacks → Answer
given (gets key) st = given_found (top (st key)) (λ e. bytes (content e))
given (has key) st = given_found (top (st key)) (λ e. text (codes "OK"))
given (deletes key) st = given_found (top (st key)) (λ e. text (codes "OK"))
given (puts key payload) st = text (codes "OK")

-- The entries have as many bytes as they say, and R can have a vector of them.
abbrev pub IsSized : Entry → Type 0
IsSized e = (length (content e) ≡ e.len) × (e.len ≤ max_vector)

abbrev pub HoldsSized : Stacks → Type 0
HoldsSized st = (j : Bytes) → All IsSized (st j)

top-IsSized : (es : List Entry) (e : Entry) → top es ≡ some e → All IsSized es → IsSized e
top-IsSized [] e h a = cc
top-IsSized (x ∷ es) e h a = let same : x ≡ e = cc in subst IsSized same a.0

nf-InLine : All InLine (codes "NF")
nf-InLine = ((refl, refl, refl), ((refl, refl, refl), tt))

ok-InLine : All InLine (codes "OK")
ok-InLine = ((refl, refl, refl), ((refl, refl, refl), tt))

receive-nf : (es : List Event) → arriving es ≡ codes "NF\n" → receive false es ≡ text (codes "NF")
receive-nf es e = receive-text false (codes "NF") [] es nf-InLine (inl refl) e

receive-ok : (es : List Event) → arriving es ≡ codes "OK\n" → receive false es ≡ text (codes "OK")
receive-ok es e = receive-text false (codes "OK") [] es ok-InLine (inl refl) e

receive-found :
    (o : Option Entry) (es : List Event)
    → arriving es ≡ found o (λ e. codes "OK\n")
    → receive false es ≡ given_found o (λ e. text (codes "OK"))
receive-found none es h = receive-nf es h
receive-found (some e) es h = receive-ok es h

receive-get :
    (o : Option Entry) (es : List Event)
    → ((e : Entry) → o ≡ some e → IsSized e)
    → arriving es ≡ found o (λ e. ok_length e.len ++ content e)
    → receive false es ≡ given_found o (λ e. bytes (content e))
receive-get none es sized h = receive-nf es h
receive-get (some e) es sized h =
    let (size, fits) = sized e refl in
    receive-bytes (content e) [] es (omega arith) (
      h
      ∙ (ap (λ n. ok_length n ++ content e) (sym size)
          ∙ sym (append-nil (ok_length (length (content e)) ++ content e))))

-- An answer that arrives, in whatever pieces.
receive-given :
    (x : Command) (st : Stacks) (es : List Event)
    → HoldsSized st
    → arriving es ≡ answer x st
    → receive false es ≡ given x st
receive-given (gets key) st es sized h =
    receive-get (top (st key)) es (λ e is. top-IsSized (st key) e is (sized key)) h
receive-given (has key) st es sized h = receive-found (top (st key)) es h
receive-given (deletes key) st es sized h = receive-found (top (st key)) es h
receive-given (puts key payload) st es sized h = receive-ok es h

module _ (net : ℕ → ℕ → Http.Answer) (takes : Takes net) (write : ℕ → Bytes → Reply) where
  sent-Closes :
      (x : Command) (st : Stacks) (r : Ended) (es : List Event)
      → Closes (answer x st ++ []) (effect x st) r
      → ((c : Conn) (t : Server) → r ≡ shut c t → arriving es ≡ c.sent)
      → (arriving es ≡ answer x st)
        × ((c : Conn) × (t : Server) × (r ≡ shut c t) × Refines t (effect x st))
  sent-Closes x st r es (closes {c = c} {s = t} e refined) d =
      (d c t refl ∙ (e ∙ append-nil (answer x st)), (c, t, refl, refined))

  -- A client sends a command, which reaches the server in one `recv`; what the server sends arrives
  -- at the client, in whatever pieces and with whatever timeouts between them. Then `C_ask` without
  -- SFS gives what the command promises: the data of the newest entry of the key as a raw vector,
  -- or one of the strings OK and NF, and the server keeps the entries that the command leaves. The
  -- key can be sent, a payload is not empty, the entries hold data of their length, which is one
  -- of a vector of R, and the socket of the server takes some bytes whenever it is given some.
  pub c_ask-given :
      (peer : Peer) (host : Bytes) (port : ℕ) (x : Command) (s : Server) (st : Stacks)
      → Connects peer host port (text_of x)
      → IsCommand x
      → FitsRequest x
      → Refines s st
      → HoldsData st
      → HoldsSized st
      → ((c : Conn) (t : Server)
          → do_process net write s (requests (x ∷ [])) ≡ shut c t
          → arriving (peer.receives (text_of x)) ≡ c.sent)
      → (c_ask peer (str plain (host ∷ [])) (pos port) (str plain (text_of x ∷ [])) false
          ≡ given x st)
        × ((c : Conn) × (t : Server) × (do_process net write s (requests (x ∷ [])) ≡ shut c t)
            × Refines t (effect x st))
  c_ask-given peer host port x s st reaches ok fits refined held sized delivers =
      let ends =
        do_process-Closes net takes write s (x ∷ []) st ((ok, tt)) ((fits, tt)) refined held in
      let (sent, kept) = sent-Closes x st _ (peer.receives (text_of x)) ends delivers in
      (
        c_ask-receive peer host (text_of x) port false reaches
            ∙ receive-given x st (peer.receives (text_of x)) sized sent,
        kept,
      )
