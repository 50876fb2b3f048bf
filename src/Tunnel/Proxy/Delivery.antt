-- ===== src/Tunnel/Proxy/Delivery.antt =====
-- A SOCKS5 session as a whole: what the tunnel and the application get.
use shin_vpn.Prelude.{
  concat, ℕ, ◌<◌, min, max, Bytes, List, [], ◌∷◌, ◌++◌, map, All, Bool, true, false, Result, ok,
  ◌≡◌, refl, ap, ◌∙◌, length, drop, arith, suc,
}
use shin_vpn.Prelude.Exec.{Exec}
use shin_vpn.Prelude.Struct.{be}
use shin_vpn.Prelude.Utf8.{Text}
use shin_vpn.Prelude.Int.{pos}
use shin_vpn.Prelude.Stream
use shin_vpn.Tunnel.Proxy.{
  Connection, send_frame_callback, pipe_rounds, pipe_client_to_tunnel, handle_socks5,
}
use shin_vpn.Tunnel.Proxy.Http.{handle_first, handle_client_connection}
use shin_vpn.Tunnel.Proxy.Piping.{
  data_frame, IsPiece, Runs, pipe_rounds-Piped, send_frame_callback_lem,
}
use shin_vpn.Tunnel.Proxy.Requests.{close_frame}
use shin_vpn.Tunnel.Proxy.Socks.{
  Address, host_of, connect_frame, socks5_session, asked, handle_socks5-target, target_let_through,
  target_blocked,
}

module _ {S : Type 0} (should_block : Text → Exec S Bool) where
  -- The first byte is read alone, however much is there.
  first_byte : (there b : ℕ) (rest : Bytes) → Stream.read 1 there (b ∷ rest) ≡ (rest, b ∷ [])
  unfolding Stream.read
  first_byte there b rest = let one : min 1 (max 1 there) ≡ 1 = omega arith in rw one

  enter_socks5 :
      (there : ℕ) (rest : Bytes) (c : Connection S)
      → c.reader ≡ 5 ∷ rest
      → handle_client_connection should_block there c
        ≡ (send_frame_callback 3 []
            (pos 0)
            []
            (handle_socks5 should_block (record c { reader = rest })).0).0
  unfolding handle_client_connection handle_first send_frame_callback
  enter_socks5 there rest c r = rw (r, first_byte there 5 rest)

  module _ (there : ℕ) (methods : Bytes) (rsv : ℕ) (a : Address) (port : ℕ) (small : port < 65536)
      (payload : Bytes) (s : S) (c : Connection S)
      (reader : c.reader ≡ socks5_session methods rsv a (be 2 port) payload)
      (drains : c.drains ≡ []) (callback : c.has_callback ≡ true) where
    -- A SOCKS5 session to a host that the ad blocker refuses: the application is told that the
    -- connection is refused, and the tunnel gets the end of the connection and nothing else.
    pub handle_client_connection-blocked :
        c.frames ≡ []
        → should_block (host_of a) c.shield ≡ (s, ok true)
        → let c' = handle_client_connection should_block there c in
          (c'.frames ≡ close_frame c.conn_id ∷ [])
          × (c'.replies
              ≡ (c.replies ++ (5 ∷ 0 ∷ [])) ++ (5 ∷ 5 ∷ 0 ∷ 1 ∷ 0 ∷ 0 ∷ 0 ∷ 0 ∷ 0 ∷ 0 ∷ []))
    handle_client_connection-blocked fresh answer =
        let rest = drop 1 (socks5_session methods rsv a (be 2 port) payload) in
        let c1 : Connection S = record c { reader = rest } in
        rw
          (
            enter_socks5 there rest c reader,
            handle_socks5-target should_block methods rsv a port small payload c1 refl drains,
            target_blocked should_block methods rsv a port small payload s
                (asked should_block methods rsv a port small payload c1) answer refl,
            send_frame_callback_lem 3 [] (pos 0) []
                (record (asked should_block methods rsv a port small payload c1) {
                  shield = s;
                  replies =
                      (c.replies ++ (5 ∷ 0 ∷ [])) ++ (5 ∷ 5 ∷ 0 ∷ 1 ∷ 0 ∷ 0 ∷ 0 ∷ 0 ∷ 0 ∷ 0 ∷ []);
                })
                callback,
            fresh,
          )
          (refl, refl)

    abbrev granted : Bytes
    granted = (c.replies ++ (5 ∷ 0 ∷ [])) ++ (5 ∷ 0 ∷ 0 ∷ 1 ∷ 0 ∷ 0 ∷ 0 ∷ 0 ∷ 0 ∷ 0 ∷ [])

    -- When the loop starts.
    abbrev connected : Connection S
    connected = record c {
      reader = payload;
      shield = s;
      frames = connect_frame c.conn_id (host_of a) port ∷ [];
      replies = granted;
      drains = [];
    }

    enter_connected :
        c.frames ≡ []
        → should_block (host_of a) c.shield ≡ (s, ok false)
        → handle_client_connection should_block there c
          ≡ (send_frame_callback 3 [] (pos 0) [] (pipe_rounds (suc (length payload)) connected)).0
    unfolding pipe_client_to_tunnel
    enter_connected fresh answer =
        let rest = drop 1 (socks5_session methods rsv a (be 2 port) payload) in
        let c1 : Connection S = record c { reader = rest } in
        rw
          (
            enter_socks5 there rest c reader,
            handle_socks5-target should_block methods rsv a port small payload c1 refl drains,
            target_let_through should_block methods rsv a port small payload s
                (asked should_block methods rsv a port small payload c1) answer callback refl,
            fresh,
          )
          refl

    -- A SOCKS5 session to a host that the ad blocker lets through, while the gateway runs and its
    -- replies can be written: the tunnel gets one connect frame with the host and the port that the
    -- request names, then the application's data, all of it and in order, in pieces of 1 to 2048
    -- bytes, and then the end of the connection; the application is told that it is connected.
    pub handle_client_connection-delivers :
        c.frames ≡ []
        → All Runs c.rounds
        → should_block (host_of a) c.shield ≡ (s, ok false)
        → let c' = handle_client_connection should_block there c in
          (ds : List Bytes) × (c'.frames
            ≡ connect_frame c.conn_id (host_of a) port
              ∷ (map (data_frame c.conn_id) ds ++ (close_frame c.conn_id ∷ [])))
          × (concat ds ≡ payload)
          × All IsPiece ds
          × (c'.replies ≡ granted)
    handle_client_connection-delivers fresh runs answer =
        let start : Connection S = connected in
        let (ds, frames, all_of, pieces, end, replies, shield, callback', conn_id) =
          pipe_rounds-Piped (suc (length payload)) start (omega arith) callback runs in
        let done : Connection S = pipe_rounds (suc (length payload)) start in
        let whole =
          enter_connected fresh answer
          ∙ ap (λ (r : Connection S × Result (Unit {0})). r.0)
              (send_frame_callback_lem 3 [] (pos 0) [] (done) ((callback' ∙ callback))) in
        (
          ds,
          ap (λ (d : Connection S). d.frames) whole ∙ (rw (frames, conn_id)),
          all_of,
          pieces,
          ap (λ (d : Connection S). d.replies) whole ∙ replies,
        )
