-- ===== src/Transport/Udp.antt =====
-- The datagram protocols of shinvpn/transport/udp_transport.py. The callbacks belong to the client
-- and to the server: they change a state `S`, and may raise, which is logged.
use shin_vpn.Prelude.{
  ℕ, Bytes, List, [], ◌∷◌, ◌++◌, Bool, true, false, not, if◌then◌else◌, Option, none, some,
}
use shin_vpn.Prelude.Exec.{Exec}
use shin_vpn.Prelude.Utf8.{Text}

abbrev pub Addr : Type 0
Addr = Text × ℕ

-- A transport of asyncio, with the datagrams given to it; one with no address goes to the peer.
pub record DatagramTransport : Type 0 where
  pub is_closing : Bool
  pub sent : List (Bytes × Option Addr)

pub record UdpClientProtocol (S : Type 0) : Type 0 where
  pub transport : Option DatagramTransport
  pub last_rx_time : ℕ
  pub owner : S

abbrev pub open_transport : DatagramTransport
open_transport = record { is_closing = false; sent = [] }

-- sendto, unless the transport is closing
unfoldable pub send_on : Bytes → Option Addr → Option DatagramTransport → Option DatagramTransport
send_on data_ addr none = none
send_on data_ addr (some t) =
    some (if not t.is_closing then record t { sent = t.sent ++ ((data_, addr) ∷ []) } else t)

unfoldable pub close_transport : Option DatagramTransport → Option DatagramTransport
close_transport none = none
close_transport (some t) = some (record t { is_closing = true })

module _ {S : Type 0} where
  unfoldable pub connection_made : DatagramTransport → UdpClientProtocol S → UdpClientProtocol S
  connection_made t p = record p { transport = some t }

  unfoldable pub datagram_received :
      (Bytes → Addr → Exec S (Unit {0}))
      → ℕ
      → Bytes
      → Addr
      → UdpClientProtocol S
      → UdpClientProtocol S
  datagram_received on_packet_received now data_ addr p = record p {
    last_rx_time = now;
    owner = (on_packet_received data_ addr p.owner).0;
  }

  unfoldable pub connection_lost : Option (S → S) → UdpClientProtocol S → UdpClientProtocol S
  connection_lost on_connection_lost p = record p {
    owner = elim on_connection_lost [ none ↦ p.owner | some lost ↦ lost p.owner ];
  }

  unfoldable pub send : Bytes → Option Addr → UdpClientProtocol S → UdpClientProtocol S
  send data_ addr p = record p { transport = send_on data_ addr p.transport }

  unfoldable pub close : UdpClientProtocol S → UdpClientProtocol S
  close p = record p { transport = close_transport p.transport }

pub record UdpServerProtocol (S : Type 0) : Type 0 where
  pub transport : Option DatagramTransport
  pub owner : S

module _ {S : Type 0} where
  unfoldable pub server_datagram_received :
      (Bytes → Addr → Exec S (Unit {0})) → Bytes → Addr → UdpServerProtocol S → UdpServerProtocol S
  server_datagram_received on_packet_received data_ addr p = record p {
    owner = (on_packet_received data_ addr p.owner).0;
  }

  unfoldable pub server_connection_made :
      DatagramTransport → UdpServerProtocol S → UdpServerProtocol S
  server_connection_made t p = record p { transport = some t }

  unfoldable pub send_to : Bytes → Addr → UdpServerProtocol S → UdpServerProtocol S
  send_to data_ addr p = record p { transport = send_on data_ (some addr) p.transport }

  unfoldable pub server_close : UdpServerProtocol S → UdpServerProtocol S
  server_close p = record p { transport = close_transport p.transport }
