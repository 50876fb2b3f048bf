-- ===== src/Tunnel/Proxy/Requests.antt =====
-- The HTTP handlers keep to the shape of a session, and so does every connection.
use shin_vpn.Prelude.{
  ℕ, Bytes, List, [], ◌∷◌, ◌++◌, Bool, true, false, if◌then◌else◌, Result, ok, err, ◌≡◌, refl, ◌∙◌,
  ◌==◌, bytes_eq,
}
use shin_vpn.Prelude.Exec.{Exec, continue, lift}
use shin_vpn.Prelude.Utf8.{Text, codes, decode_replace}
use shin_vpn.Prelude.Decimal.{split}
use shin_vpn.Prelude.Int.{pos}
use shin_vpn.Prelude.Search.{split_lines}
use shin_vpn.Prelude.Stream
use shin_vpn.Tunnel.Proxy.{
  ProxyFrame, Connection, write, send_frame_callback, pipe_client_to_tunnel, handle_socks5,
  handle_socks4,
}
use shin_vpn.Tunnel.Proxy.Http.{
  host_and_port, upper, or_whole, search_url, reconstructed_header, forbidden, established_reply,
  handle_connect, handle_plain, handle_request, handle_lines, handle_http_proxy, readuntil,
  handle_first, handle_client_connection,
}
use shin_vpn.Tunnel.Proxy.Keeping.{Same, Same-refl}
use shin_vpn.Tunnel.Proxy.Shape.{
  IsOpening, Opened, Shaped, Shaped-of_Same, Opened-callback, Opened-pipe, Opened-reply,
  Shaped-target,
}
use shin_vpn.Tunnel.Proxy.Sessions.{Good, then_Good, Good-socks5, Good-socks4}

module _ {S : Type 0} (should_block : Text → Exec S Bool) (c0 : Connection S)
    (fresh : c0.frames ≡ []) where
  Fine : Connection S → Type 0
  Fine = Good should_block c0 fresh

  Fine-of_Same : (c : Connection S) → Same c0 c → Fine c
  unfolding Fine
  Fine-of_Same c h = Shaped-of_Same should_block c0 fresh c h

  Fine-handle_connect :
      (target_uri : Text) (c : Connection S)
      → Same c0 c
      → Fine (handle_connect should_block target_uri c).0
  unfolding Fine handle_connect
  Fine-handle_connect target_uri c h =
      then_Good should_block c0 fresh c (lift (host_and_port 443 target_uri) c) _ h (Same-refl c)
        (λ target d g.
          Shaped-target should_block c0 fresh target.0 target.1 forbidden
            (λ e. continue (write established_reply e) (λ _. pipe_client_to_tunnel)) d g
            (λ e o. Opened-reply should_block c0 fresh established_reply e o))

  Fine-handle_plain :
      (method target_uri : Text) (versions lines : List Text) (c : Connection S)
      → Same c0 c
      → Fine (handle_plain should_block method target_uri versions lines c).0
  unfolding Fine handle_plain send_frame_callback
  Fine-handle_plain method target_uri versions lines c h =
      then_Good should_block c0 fresh c (lift (host_and_port 80 url.0) c) _ h (Same-refl c)
        (λ target d g.
          Shaped-target should_block c0 fresh target.0 target.1 forbidden after_connect d g
            (λ e o. by_header (reconstructed_header method url.1 versions lines) e o))
    where
      url : Text × Text
      url = or_whole target_uri (search_url target_uri)

      pipe_after : Bytes → Exec (Connection S) (Unit {0})
      pipe_after header =
          λ e. continue (send_frame_callback 2 [] (pos 0) header e) (λ _. pipe_client_to_tunnel)

      after_connect : Exec (Connection S) (Unit {0})
      after_connect =
          λ e. continue (lift (reconstructed_header method url.1 versions lines) e) pipe_after

      by_header :
          (r : Result Bytes) (e : Connection S)
          → Opened should_block c0 fresh e
          → Opened should_block c0 fresh (continue (lift r e) pipe_after).0
      by_header (err x) e o = o
      by_header (ok header) e o =
          Opened-pipe should_block c0 fresh _
            (Opened-callback should_block c0 fresh [] (pos 0) header e o)

  Fine-handle_request :
      (parts lines : List Text) (c : Connection S)
      → Same c0 c
      → Fine (handle_request should_block parts lines c).0
  unfolding handle_request
  Fine-handle_request [] lines c h = Fine-of_Same c h
  Fine-handle_request (method ∷ []) lines c h = Fine-of_Same c h
  Fine-handle_request (method ∷ target_uri ∷ versions) lines c h =
      by_method (bytes_eq (upper method) (codes "CONNECT"))
    where
      by_method :
          (b : Bool)
          → Fine
              (if◌then◌else◌ {A = Exec (Connection S) (Unit {0})} b
                (handle_connect should_block target_uri)
                (handle_plain should_block (upper method) target_uri versions lines)
                c).0
      by_method true = Fine-handle_connect target_uri c h
      by_method false = Fine-handle_plain (upper method) target_uri versions lines c h

  Fine-handle_lines :
      (lines : List Text) (c : Connection S)
      → Same c0 c
      → Fine (handle_lines should_block lines c).0
  Fine-handle_lines [] c h = Fine-of_Same c h
  Fine-handle_lines (l ∷ ls) c h = Fine-handle_request (split 32 l) ls c h

  Same-readuntil : (separator : Bytes) (c : Connection S) → Same c (readuntil separator c).0
  unfolding readuntil
  Same-readuntil separator c = record { frames = refl; conn_id = refl; has_callback = refl }

  Fine-handle_first :
      (bs : Bytes) (c : Connection S) → Same c0 c → Fine (handle_first should_block bs c).0
  unfolding handle_first handle_http_proxy
  Fine-handle_first [] c h = Fine-of_Same c h
  Fine-handle_first (b ∷ more) c h = by_byte (b == 5) (b == 4)
    where
      web : Exec (Connection S) (Unit {0})
      web = λ d.
          continue (readuntil (13 ∷ 10 ∷ 13 ∷ 10 ∷ []) d)
            (λ rest_of_header. handle_http_proxy should_block (b ∷ rest_of_header))

      by_byte :
          (five four : Bool)
          → Fine
              (if◌then◌else◌ {A = Exec (Connection S) (Unit {0})} five
                (handle_socks5 should_block)
                (if four then handle_socks4 should_block else web)
                c).0
      by_byte true four = unfold Fine in Good-socks5 should_block c0 fresh c h
      by_byte false true = unfold Fine in Good-socks4 should_block c0 fresh c h
      by_byte false false =
          unfold Fine in
          then_Good should_block c0 fresh c (readuntil (13 ∷ 10 ∷ 13 ∷ 10 ∷ []) c) _ h
            (Same-readuntil (13 ∷ 10 ∷ 13 ∷ 10 ∷ []) c)
            (λ rest d g. Fine-handle_lines (split_lines (decode_replace (b ∷ rest))) d g)

-- The frame that ends a connection.
abbrev pub close_frame : ℕ → ProxyFrame
close_frame id = record { conn_id = id; action = 3; host = []; port = pos 0; payload = [] }

-- Whatever a local application sends, in whatever pieces, and wherever the handler fails: the
-- tunnel is told of at most one connect, before any data and only to a host that the ad blocker let
-- through, then data, and last of all that the connection is closed, all under its own number.
pub handle_client_connection-IsOpening :
    {S : Type 0} (should_block : Text → Exec S Bool) (there : ℕ) (c : Connection S)
    → c.frames ≡ []
    → c.has_callback ≡ true
    → (fs : List ProxyFrame) × ((handle_client_connection should_block there c).frames
        ≡ fs ++ (close_frame c.conn_id ∷ []))
      × IsOpening should_block c.conn_id fs
unfolding handle_client_connection send_frame_callback
handle_client_connection-IsOpening {S} should_block there c fresh callback =
    let initial = Stream.read 1 there c.reader in
    let start : Connection S = record c { reader = initial.0 } in
    let done = (handle_first should_block initial.1 start).0 in
    let shaped =
      Fine-handle_first should_block c fresh initial.1 start
        (record { frames = refl; conn_id = refl; has_callback = refl }) in
    let shaped' : Shaped should_block c fresh done = unfold Fine in shaped in
    (done.frames, rw (shaped'.has_callback ∙ callback, shaped'.conn_id), shaped'.opening)
