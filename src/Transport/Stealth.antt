-- ===== src/Transport/Stealth.antt =====
-- The WebSocket transport of shinvpn/transport/stealth_transport.py, over the messages that the
-- `websockets` package delivers until the connection ends. The handshake and the TLS of `connect`
-- and `serve` are that package's.
use shin_vpn.Prelude.{
  ℕ, Bytes, List, [], ◌∷◌, ◌++◌, Bool, true, false, not, if◌then◌else◌, Option, none, some, ok, err,
}
use shin_vpn.Prelude.Exec.{Exec}
use shin_vpn.Prelude.Utf8.{Text}

abbrev pub Addr : Type 0
Addr = Text × ℕ

-- What recv() gives: bytes, or text, which is left out.
pub data Message : Type 0 where
  binary : Bytes → Message
  text : Text → Message

-- A connection of the package, with what was sent on it; a send on a closed one raises.
pub record WebSocket : Type 0 where
  pub closed : Bool
  pub sent : List Bytes

pub record StealthWsClient (S : Type 0) : Type 0 where
  pub ws : Option WebSocket
  pub running : Bool
  pub owner : S

unfoldable pub send_on : Bytes → WebSocket → WebSocket
send_on data_ w = if w.closed then w else record w { sent = w.sent ++ (data_ ∷ []) }

module _ {S : Type 0} where
  unfoldable pub is_connected : StealthWsClient S → Bool
  is_connected c = elim c.ws [ none ↦ false | some w ↦ not w.closed ]

  -- connect, where the package connected.
  unfoldable pub connect : WebSocket → StealthWsClient S → StealthWsClient S
  connect w c = record c { ws = some w; running = true }

  unfoldable pub send : Bytes → StealthWsClient S → StealthWsClient S
  send data_ c = elim c.ws [ none ↦ c | some w ↦ record c { ws = some (send_on data_ w) } ]

  unfoldable pub close : StealthWsClient S → StealthWsClient S
  close c = elim c.ws [
    | none ↦ record c { running = false }
    | some w ↦ record c { running = false; ws = some (record w { closed = true }) }
  ]

  -- The loop over what arrives, until a callback raises or the connection ends.
  unfoldable pub rx_rounds : (Bytes → Exec S (Unit {0})) → List Message → S → S
  rx_rounds on_packet_received [] s = s
  rx_rounds on_packet_received (text t ∷ ms) s = rx_rounds on_packet_received ms s
  rx_rounds on_packet_received (binary b ∷ ms) s =
      let handled = on_packet_received b s in
      elim handled.1 [ err e ↦ handled.0 | ok u ↦ rx_rounds on_packet_received ms handled.0 ]

  -- _rx_loop, where nothing closes the client meanwhile.
  unfoldable pub rx_loop :
      (Bytes → Exec S (Unit {0})) → List Message → StealthWsClient S → StealthWsClient S
  rx_loop on_packet_received ms c = elim c.ws [
    | none ↦ record c { running = false }
    | some w ↦
        if c.running
        then record c { running = false; owner = rx_rounds on_packet_received ms c.owner }
        else record c { running = false }
  ]

  -- The server's handler of one client: its packets, and in the end the news that it is gone.
  unfoldable pub handle_client :
      (Bytes → Addr → Exec S (Unit {0})) → Option (Addr → S → S) → Addr → List Message → S → S
  handle_client on_client_packet on_client_disconnected peer_addr ms s =
      let served = rx_rounds (λ b. on_client_packet b peer_addr) ms s in
      elim on_client_disconnected [ none ↦ served | some gone ↦ gone peer_addr served ]
