-- ===== src/Tunnel/Proxy/Gateway.antt =====
-- The gateway of shinvpn/tunnel/proxy_tunnel.py around its connections: the numbers it gives them,
-- what the server's data is written to, and how they end. A writer is an object that the dict and
-- the handler share; it is named by the number of its connection.
pub mod Writers
use shin_vpn.Prelude.{
  ℕ, ◌+◌, ◌<◌, ◌≤◌, Bytes, List, [], ◌∷◌, ◌++◌, Bool, true, false, not, ◌&&◌, ◌||◌, if◌then◌else◌,
  ◌==◌, Option, none, some, ◌≡◌, refl, arith, ==_iff, ==_refl, Bool-cases, inl, inr, ltb,
}
use shin_vpn.Prelude.Assoc.{Assoc, lookup, insert, lookup-insert}

pub record Writer : Type 0 where
  pub written : Bytes
  pub is_closing : Bool

pub record UniversalProxyGateway : Type 0 where
  pub next_conn_id : ℕ
  pub running : Bool
  pub active_connections : List ℕ
  pub writers : Assoc ℕ Writer

unfoldable pub new_gateway : UniversalProxyGateway
new_gateway = record { next_conn_id = 1; running = false; active_connections = []; writers = [] }

abbrev pub member : ℕ → List ℕ → Bool
member x [] = false
member x (y ∷ ys) = y == x || member x ys

unfoldable pub discard : ℕ → List ℕ → List ℕ
discard x [] = []
discard x (y ∷ ys) = let rest = discard x ys in if y == x then rest else y ∷ rest

unfoldable pub update_writer : ℕ → (Writer → Writer) → Assoc ℕ Writer → Assoc ℕ Writer
update_writer k f ws = elim (lookup ◌==◌ k ws) [ none ↦ ws | some w ↦ insert ◌==◌ k (f w) ws ]

abbrev pub closed : Writer → Writer
closed w = record w { is_closing = true }

-- A write to a writer that is closing is lost: its buffer counts as flushed when it is closed. (Of
-- one with a buffer that is not empty, asyncio would still take it.)
abbrev pub with_written : Bytes → Writer → Writer
with_written data_ w = if w.is_closing then w else record w { written = w.written ++ data_ }

unfoldable pub start : UniversalProxyGateway → UniversalProxyGateway
start g = record g { running = true }

-- The start of _handle_client_connection.
unfoldable pub accept : UniversalProxyGateway → UniversalProxyGateway × ℕ
accept g = (
  record g {
    next_conn_id = g.next_conn_id + 1;
    active_connections = g.next_conn_id ∷ g.active_connections;
    writers = insert ◌==◌ g.next_conn_id (record { written = []; is_closing = false }) g.writers;
  },
  g.next_conn_id,
)

-- A reply that the handler of a connection writes.
unfoldable pub reply : ℕ → Bytes → UniversalProxyGateway → UniversalProxyGateway
reply conn_id data_ g = record g { writers = update_writer conn_id (with_written data_) g.writers }

-- The end of _handle_client_connection.
unfoldable pub finish : ℕ → UniversalProxyGateway → UniversalProxyGateway
finish conn_id g = record g {
  active_connections = discard conn_id g.active_connections;
  writers = update_writer conn_id closed g.writers;
}

unfoldable pub feed_remote_data : ℕ → Bytes → UniversalProxyGateway → UniversalProxyGateway
feed_remote_data conn_id data_ g =
    if member conn_id g.active_connections
    then record g { writers = update_writer conn_id (with_written data_) g.writers }
    else g

unfoldable pub close_connection : ℕ → UniversalProxyGateway → UniversalProxyGateway
close_connection conn_id g =
    if member conn_id g.active_connections
    then record g {
      active_connections = discard conn_id g.active_connections;
      writers = update_writer conn_id closed g.writers;
    }
    else g

unfoldable pub close_all : List ℕ → Assoc ℕ Writer → Assoc ℕ Writer
close_all [] ws = ws
close_all (k ∷ ks) ws = close_all ks (update_writer k closed ws)

unfoldable pub stop : UniversalProxyGateway → UniversalProxyGateway
stop g = record g {
  running = false;
  active_connections = [];
  writers = close_all g.active_connections g.writers;
}

-- What happens to a gateway, in any order.
pub data Event : Type 0 where
  started accepted stopped : Event
  replied remote_data : ℕ → Bytes → Event
  finished remote_close : ℕ → Event

unfoldable pub step : Event → UniversalProxyGateway → UniversalProxyGateway
step started g = start g
step accepted g = (accept g).0
step stopped g = stop g
step (replied conn_id data_) g = reply conn_id data_ g
step (remote_data conn_id data_) g = feed_remote_data conn_id data_ g
step (finished conn_id) g = finish conn_id g
step (remote_close conn_id) g = close_connection conn_id g

unfoldable pub run : List Event → UniversalProxyGateway → UniversalProxyGateway
run [] g = g
run (e ∷ es) g = run es (step e g)
