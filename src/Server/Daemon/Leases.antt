-- ===== src/Server/Daemon/Leases.antt =====
-- The pool of addresses through everything that happens to a server.
use shin_vpn.Prelude.{
  ℕ, Bytes, List, [], ◌∷◌, Bool, true, false, Option, none, some, Result, ok, err, ◌==◌,
  if◌then◌else◌,
}
use shin_vpn.Prelude.Assoc.{lookup, erase}
use shin_vpn.Prelude.Utf8.{Text}
use shin_vpn.Protocol.Constants.{msg_handshake_init, msg_disconnect}
use shin_vpn.Protocol.Frames.{ShinFrame}
use shin_vpn.Protocol.Parse.{parse_frame}
use shin_vpn.Crypto.Aead.{Aead}
use shin_vpn.Crypto.Cipher.{ShinCipher}
use shin_vpn.Crypto.Primitives.{Primitives}
use shin_vpn.Crypto.Handshake.{HandshakeState, create_response}
use shin_vpn.Server.IpPool.{allocate}
use shin_vpn.Server.IpPool.Invariant.{IsValid, allocate-IsValid, release-IsValid}
use shin_vpn.Server.Session.{ClientSession}
use shin_vpn.Server.Daemon.{
  Addr, addr_eq, new_session, ShinVpnServer, Inbound, authorize_peer, forget, close_session,
  handle_stealth_disconnect, stale, close_all, session_janitor, stop, post, register, admitted,
  respond, introduced, handle_handshake_init, commit, handle_session_frame, dispatch,
  process_inbound_packet, refs_of,
}

-- What happens to a running server.
pub data Event : Type 0 where
  packet : Inbound → Event
  stealth_disconnect : Addr → Event
  janitor_round : (ticks_per_minute now : ℕ) → Event
  authorize : Option Bytes → Text → Event
  shut_down : Event

abbrev Leasing : ShinVpnServer → Type 0
Leasing v = IsValid v.ip_pool

Leasing-if : (b : Bool) (v w : ShinVpnServer) → Leasing v → Leasing w → Leasing (if b then v else w)
Leasing-if true v w hv hw = hv
Leasing-if false v w hv hw = hw

close_session-Leasing : (ref : ℕ) (v : ShinVpnServer) → Leasing v → Leasing (close_session ref v)
unfolding close_session forget
close_session-Leasing ref v h = by_object (lookup ◌==◌ ref v.objects)
  where
    by_object : (o : Option ClientSession) → Leasing (elim o [ none ↦ v | some s ↦ forget ref s v ])
    by_object none = h
    by_object (some s) = release-IsValid v.ip_pool s.session_id h

close_all-Leasing : (refs : List ℕ) (v : ShinVpnServer) → Leasing v → Leasing (close_all refs v)
unfolding close_all
close_all-Leasing [] v h = h
close_all-Leasing (ref ∷ refs) v h =
    close_all-Leasing refs (close_session ref v) (close_session-Leasing ref v h)

disconnect-Leasing :
    (addr : Addr) (v : ShinVpnServer) → Leasing v → Leasing (handle_stealth_disconnect addr v)
unfolding handle_stealth_disconnect
disconnect-Leasing addr v h = by_ref (lookup addr_eq addr v.sessions_by_addr)
  where
    by_ref :
        (o : Option ℕ)
        → Leasing (elim o [
          | none ↦ v
          | some ref ↦
              close_session ref
                (record v { sessions_by_addr = erase addr_eq addr v.sessions_by_addr })
        ])
    by_ref none = h
    by_ref (some ref) =
        close_session-Leasing ref
          (record v { sessions_by_addr = erase addr_eq addr v.sessions_by_addr }) h

post-Leasing :
    (reach : Bool) (r : Result Bytes) (addr : Addr) (v : ShinVpnServer)
    → Leasing v
    → Leasing (post reach r addr v)
unfolding post
post-Leasing reach (err e) addr v h = h
post-Leasing true (ok raw) addr v h = h
post-Leasing false (ok raw) addr v h = h

register-Leasing :
    (i : Inbound) (payload : Bytes) (id : ℕ) (s : ClientSession) (v : ShinVpnServer)
    → Leasing v
    → Leasing (register i payload id s v)
unfolding register
register-Leasing i payload id s v h = post-Leasing _ _ i.addr _ h

admitted-Leasing :
    (i : Inbound) (client_pub : Bytes) (vip : Text) (r : HandshakeState × Result Bytes)
    (v : ShinVpnServer)
    → Leasing v
    → Leasing (admitted i client_pub vip r v)
unfolding admitted
admitted-Leasing i client_pub vip (hs, err e) v h = h
admitted-Leasing i client_pub vip (hs, ok payload) v h = by_ciphers hs.tx_cipher hs.rx_cipher
  where
    by_ciphers :
        (tx rx : Option ShinCipher)
        → Leasing (elim tx [
          | none ↦ v
          | some t ↦ elim rx [
            | none ↦ v
            | some r ↦
                register i payload hs.session_id (new_session i client_pub vip hs.session_id t r) v
          ]
        ])
    by_ciphers none rx = h
    by_ciphers (some t) none = h
    by_ciphers (some t) (some r) =
        register-Leasing i payload hs.session_id (new_session i client_pub vip hs.session_id t r) v
          h

module _ (P : Primitives) where
  respond-Leasing :
      (i : Inbound) (client_pub : Bytes) (hs : HandshakeState) (r : Result Text) (v : ShinVpnServer)
      → Leasing v
      → Leasing (respond P i client_pub hs r v)
  unfolding respond
  respond-Leasing i client_pub hs (err e) v h = h
  respond-Leasing i client_pub hs (ok vip) v h =
      admitted-Leasing i client_pub vip (create_response P vip i.server_nonce hs) v h

  introduced-Leasing :
      (i : Inbound) (r : HandshakeState × Result (Bytes × Bytes)) (v : ShinVpnServer)
      → Leasing v
      → Leasing (introduced P i r v)
  unfolding introduced
  introduced-Leasing i (hs, err e) v h = h
  introduced-Leasing i (hs, ok (client_pub, client_eph)) v h =
      respond-Leasing i client_pub hs (allocate v.ip_pool hs.session_id none).1
        (record v { ip_pool = (allocate v.ip_pool hs.session_id none).0 })
        (allocate-IsValid v.ip_pool hs.session_id none h)

  init-Leasing :
      (i : Inbound) (f : ShinFrame) (v : ShinVpnServer)
      → Leasing v
      → Leasing (handle_handshake_init P i f v)
  unfolding handle_handshake_init
  init-Leasing i f v h = introduced-Leasing i _ v h

module _ (aead : Aead) (P : Primitives) where
  session_frame-Leasing :
      (i : Inbound) (f : ShinFrame) (ref : ℕ) (s : ClientSession) (v : ShinVpnServer)
      → Leasing v
      → Leasing (handle_session_frame aead i f ref s v)
  unfolding handle_session_frame commit
  session_frame-Leasing i f ref s v h =
      Leasing-if (f.msg_type == msg_disconnect) _ _ (close_session-Leasing ref _ h) h

  dispatch-Leasing :
      (i : Inbound) (f : ShinFrame) (v : ShinVpnServer)
      → Leasing v
      → Leasing (dispatch aead P i f v)
  unfolding dispatch
  dispatch-Leasing i f v h =
      Leasing-if (f.msg_type == msg_handshake_init) _ _ (init-Leasing P i f v h)
        (by_ref (lookup ◌==◌ f.session_id v.sessions_by_id))
    where
      by_object :
          (ref : ℕ) (o : Option ClientSession)
          → Leasing (elim o [ none ↦ v | some s ↦ handle_session_frame aead i f ref s v ])
      by_object ref none = h
      by_object ref (some s) = session_frame-Leasing i f ref s v h

      by_ref :
          (o : Option ℕ)
          → Leasing (elim o [
            | none ↦ v
            | some ref ↦ elim (lookup ◌==◌ ref v.objects) [
              | none ↦ v
              | some s ↦ handle_session_frame aead i f ref s v
            ]
          ])
      by_ref none = h
      by_ref (some ref) = by_object ref (lookup ◌==◌ ref v.objects)

  packet-Leasing :
      (i : Inbound) (v : ShinVpnServer) → Leasing v → Leasing (process_inbound_packet aead P i v)
  unfolding process_inbound_packet
  packet-Leasing i v h = by_frame (parse_frame i.now i.raw_data)
    where
      by_frame :
          (r : Result ShinFrame) → Leasing (elim r [ err e ↦ v | ok f ↦ dispatch aead P i f v ])
      by_frame (err e) = h
      by_frame (ok f) = dispatch-Leasing i f v h

  -- One event, and a run of them.

  unfoldable pub step : Event → ShinVpnServer → ShinVpnServer
  step (packet i) v = process_inbound_packet aead P i v
  step (stealth_disconnect addr) v = handle_stealth_disconnect addr v
  step (janitor_round t now) v = session_janitor t now v
  step (authorize raw_k name) v = authorize_peer raw_k name v
  step shut_down v = stop v

  unfoldable pub run : List Event → ShinVpnServer → ShinVpnServer
  run [] v = v
  run (e ∷ es) v = run es (step e v)

  step-Leasing : (e : Event) (v : ShinVpnServer) → Leasing v → Leasing (step e v)
  unfolding step session_janitor stop authorize_peer
  step-Leasing (packet i) v h = packet-Leasing i v h
  step-Leasing (stealth_disconnect addr) v h = disconnect-Leasing addr v h
  step-Leasing (janitor_round t now) v h =
      close_all-Leasing (stale t now v.objects v.sessions_by_id) v h
  step-Leasing (authorize none name) v h = h
  step-Leasing (authorize (some raw_k) name) v h = h
  step-Leasing shut_down v h = close_all-Leasing (refs_of v.sessions_by_id) _ h

  -- Whatever packets arrive, disconnects, janitor rounds, authorizations and shut-downs happen, the
  -- pool of a server stays valid: no address is leased to two sessions, and only usable ones are.
  pub run-IsValid :
      (es : List Event) (v : ShinVpnServer) → IsValid v.ip_pool → IsValid (run es v).ip_pool
  unfolding run
  run-IsValid [] v h = h
  run-IsValid (e ∷ es) v h = run-IsValid es (step e v) (step-Leasing e v h)
