-- ===== src/Client/Relaying.antt =====
-- A stream of chunks from the client's proxy to the server's connection, frame by frame.
use mathlib.Core.List.{append-nil, append_assoc}
use shin_vpn.Prelude.{
  concat, ℕ, Bytes, List, [], ◌∷◌, ◌++◌, true, none, some, ok, ◌≡◌, refl, sym, ap, ◌∙◌, arith,
}
use shin_vpn.Prelude.Struct.{be}
use shin_vpn.Prelude.Exec.{Exec, pure, lift, ◌>>=◌, ◌>>◌, exec_inv}
use shin_vpn.Protocol.Parse.{parse_frame}
use shin_vpn.Crypto.Aead.{Aead}
use shin_vpn.Crypto.Cipher.{ShinCipher, encrypt}
use shin_vpn.Crypto.Cipher.InStep.{InStep, InStep-fresh, decrypt-InStep}
use shin_vpn.Client.{ShinVpnClient, send_raw}
use shin_vpn.Client.Packets.{async_send_proxy}
use shin_vpn.Client.Proxying.{Relayed, async_send_proxy-Relayed}
use shin_vpn.Server.Session
use shin_vpn.Server.Session.{ClientSession, Serving, with_session, deliver, handle_proxy_frame}
use shin_vpn.Server.Session.Streams.{Streaming, deliver-Streaming}

module _ (aead : Aead) (conn_id : ℕ) where
  -- The chunks of one connection, one call after the other.
  unfoldable pub send_all : List Bytes → Exec ShinVpnClient Unit
  send_all [] = pure tt
  send_all (d ∷ ds) = async_send_proxy aead conn_id 2 [] 0 d >> send_all ds

module _ (aead : Aead) (now conn_id : ℕ) where
  -- The datagrams of a session as they come, each parsed and handled.
  unfoldable pub handle_all : List Bytes → Exec Serving Unit
  handle_all [] = pure tt
  handle_all (raw ∷ raws) = do
    f ← lift (parse_frame now raw)
    handle_proxy_frame aead f
    handle_all raws

  deliver-rx_cipher :
      (data_ : Bytes) (s : ClientSession) → (deliver aead conn_id data_ s).rx_cipher ≡ s.rx_cipher
  unfolding deliver
  deliver-rx_cipher data_ s = ground arith

  sent_after :
      (raw : Bytes) (tx : ShinCipher) (c c' : ShinVpnClient)
      → c.has_transport ≡ true
      → c' ≡ send_raw raw (record c { tx_cipher = some tx })
      → (c'.tx_cipher ≡ some tx) × (c'.has_transport ≡ true) × (c'.sent ≡ c.sent ++ (raw ∷ []))
  unfolding send_raw
  sent_after raw tx c c' h e = rw (e, h) (refl, refl, refl)

  -- The server after it has handled one chunk's frame.
  handled_after :
      (data_ b : Bytes) (tx : ShinCipher) (c c' : ShinVpnClient) (v : Serving)
      (r : Relayed aead now conn_id data_ tx c c' v)
      → InStep tx v.session.rx_cipher
      → Streaming conn_id b v.session
      → let v' = with_session (deliver aead conn_id data_) (Session.open_frame aead r.frame v).0 in
        (InStep (encrypt aead tx (be 4 conn_id ++ data_) none).0 v'.session.rx_cipher)
        × Streaming conn_id (b ++ data_) v'.session
  unfolding Session.open_frame
  handled_after data_ b tx c c' v r h streaming = (
    rw deliver-rx_cipher (
        decrypt-InStep aead tx v.session.rx_cipher (be 4 conn_id ++ data_) r.frame.payload none none
          r.frame.seq_num h r.number),
    deliver-Streaming aead conn_id b data_ _ streaming,
  )

  -- The client has handed datagrams to its transport, which the server takes without an exception,
  -- and then this is written to the connection.
  pub Arrived : Bytes → ShinVpnClient → ShinVpnClient → Serving → Type 0
  Arrived written c c' v =
      (raws : List Bytes) × (c'.sent ≡ c.sent ++ raws)
      × ((handle_all raws v).1 ≡ ok tt)
      × Streaming conn_id written (handle_all raws v).0.session

  -- A stream from the client's proxy to the remote end: the chunks that the client has sent while it
  -- had a transport, one call after the other, are written to the open connection at the server, all
  -- of them and in order, where the server takes the datagrams as they were sent, with the client's
  -- key and session, and has seen no number beyond the client's last.
  pub handle_all-send_all :
      (ds : List Bytes) (b : Bytes) (tx : ShinCipher) (c c' : ShinVpnClient) (v : Serving)
      → c.tx_cipher ≡ some tx
      → c.has_transport ≡ true
      → send_all aead conn_id ds c ≡ (c', ok tt)
      → InStep tx v.session.rx_cipher
      → Streaming conn_id b v.session
      → Arrived (b ++ concat ds) c c' v
  unfolding send_all handle_all Arrived
  handle_all-send_all [] b tx c c' v t o e h streaming =
      ([], ap (λ x. x.0.sent) (sym e) ∙ sym (append-nil c.sent), refl, rw (append-nil b) streaming)
  handle_all-send_all (d ∷ ds) b tx c c' v t o e h streaming =
      let c1 = (async_send_proxy aead conn_id 2 [] 0 d c).0 in
      let (u, first, later) =
        exec_inv (async_send_proxy aead conn_id 2 [] 0 d c) (λ _. send_all aead conn_id ds) c' tt
          e in
      let r =
        async_send_proxy-Relayed aead now conn_id 0 [] d tx c c1 v t first h.shares
          (InStep-fresh tx v.session.rx_cipher h) in
      let (t1, o1, sent1) = sent_after r.raw _ c c1 o r.after in
      let (h1, streaming1) = handled_after d b tx c c1 v r h streaming in
      let (raws, sent, done, there) =
        handle_all-send_all ds (b ++ d) (encrypt aead tx (be 4 conn_id ++ d) none).0 c1 c'
          (with_session (deliver aead conn_id d) (Session.open_frame aead r.frame v).0) t1 o1 later
          h1 streaming1 in
      (
        r.raw ∷ raws,
        sent ∙ (ap (λ (l : List Bytes). l ++ raws) sent1 ∙ append_assoc c.sent (r.raw ∷ []) raws),
        rw (r.parsed, r.handled) done,
        rw (r.parsed, r.handled, ← append_assoc b d (concat ds)) there,
      )
