-- ===== src/Client/EndToEnd.antt =====
-- A SOCKS5 session from the local application to the remote end: the local proxy, the client and
-- the server together.
use mathlib.Core.Path.{subst}
use shin_vpn.Prelude.{
  ℕ, ◌<◌, ◌≤◌, ◌^◌, Bytes, List, [], ◌∷◌, ◌++◌, map, All, concat, Bool, true, false, ok, ◌≡◌, ap,
  arith, length, length-append,
}
use shin_vpn.Prelude.Exec.{Exec}
use shin_vpn.Prelude.Struct.{be}
use shin_vpn.Prelude.Utf8.{Text}
use shin_vpn.Tunnel.Proxy.{Connection}
use shin_vpn.Tunnel.Proxy.Http.{handle_client_connection}
use shin_vpn.Tunnel.Proxy.Piping.{data_frame, IsPiece, Runs}
use shin_vpn.Tunnel.Proxy.Requests.{close_frame}
use shin_vpn.Tunnel.Proxy.Socks.{Address, host_of, connect_frame, socks5_session}
use shin_vpn.Tunnel.Proxy.Delivery.{handle_client_connection-delivers}
use shin_vpn.Crypto.Aead.{Aead}
use shin_vpn.Crypto.Cipher.{ShinCipher}
use shin_vpn.Crypto.Cipher.InStep.{InStep}
use shin_vpn.Client.{ShinVpnClient}
use shin_vpn.Client.Sending.{CanSend, hand_over, send_all-hand_over}
use shin_vpn.Client.Relaying.{Arrived, handle_all-send_all}
use shin_vpn.Server.Session.{Serving}
use shin_vpn.Server.Session.Streams.{Streaming}

short_pieces : (ds : List Bytes) → All IsPiece ds → All (λ d. length d ≤ 2048) ds
short_pieces [] h = tt
short_pieces (d ∷ ds) h = (h.0.1, short_pieces ds h.1)

length-concat-le : (ds : List Bytes) → All IsPiece ds → length ds ≤ length (concat ds)
length-concat-le [] h = omega arith
length-concat-le (d ∷ ds) h =
    let some_bytes = h.0.0 in omega (arith, length-append d (concat ds), length-concat-le ds h.1)

CanSend-fewer :
    (m n : ℕ) (tx : ShinCipher) (c : ShinVpnClient) → m ≤ n → CanSend n tx c → CanSend m tx c
CanSend-fewer m n tx c l h =
    let numbers = h.numbers in
    record {
      state = h.state;
      cipher = h.cipher;
      transport = h.transport;
      session = h.session;
      nonce_session = h.nonce_session;
      numbers = omega arith;
    }

-- From end to end: what an application sends in a SOCKS5 session, to a host that the ad blocker
-- lets through and while the gateway runs and its replies can be written, becomes a connect frame,
-- data frames and a close frame; the client, which is connected, has a transport and numbers left
-- for a packet per byte, and whose session and connection numbers fit 32 bits, sends each of the
-- data frames; and a server with its key and session, that has seen no number beyond the client's
-- last and takes the datagrams as they were sent, has then written exactly the application's data,
-- in order, to the open connection of that number, after what was written there before.
pub handle_client_connection-Arrived :
    {S : Type 0} (should_block : Text → Exec S Bool) (there : ℕ) (methods : Bytes) (rsv : ℕ)
    (a : Address) (port : ℕ) (payload : Bytes) (s : S) (conn : Connection S) (aead : Aead) (now : ℕ)
    (b : Bytes) (tx : ShinCipher) (c : ShinVpnClient) (v : Serving) (small : port < 65536)
    → conn.reader ≡ socks5_session methods rsv a (be 2 port) payload
    → conn.drains ≡ []
    → conn.has_callback ≡ true
    → conn.frames ≡ []
    → All Runs conn.rounds
    → should_block (host_of a) conn.shield ≡ (s, ok false)
    → conn.conn_id < 2 ^ 32
    → CanSend (length payload) tx c
    → InStep tx v.session.rx_cipher
    → Streaming conn.conn_id b v.session
    → (ds : List Bytes) × ((handle_client_connection should_block there conn).frames
        ≡ connect_frame conn.conn_id (host_of a) port
          ∷ (map (data_frame conn.conn_id) ds ++ (close_frame conn.conn_id ∷ [])))
      × Arrived aead now conn.conn_id (b ++ payload) c (hand_over aead conn.conn_id ds c) v
handle_client_connection-Arrived should_block there methods rsv a port payload s conn aead now b tx
      c v small reader drains callback fresh runs answer fits h step streaming =
    let (ds, frames, all_of, pieces, replies) =
      handle_client_connection-delivers should_block there methods rsv a port small payload s conn
        reader drains callback fresh runs answer in
    let few : length ds ≤ length payload =
      omega (arith, length-concat-le ds pieces, ap (λ (x : Bytes). length x) all_of) in
    let ready = CanSend-fewer (length ds) (length payload) tx c few h in
    let sent = send_all-hand_over aead conn.conn_id fits ds tx c (short_pieces ds pieces) ready in
    (
      ds,
      frames,
      subst (λ x. Arrived aead now conn.conn_id (b ++ x) c (hand_over aead conn.conn_id ds c) v)
          all_of
          (handle_all-send_all aead now conn.conn_id ds b tx c (hand_over aead conn.conn_id ds c) v
            h.cipher h.transport sent step streaming),
    )
