-- ===== src/Tests/Proxy.antt =====
-- The local proxy on small inputs: the ad blocker counts what it is asked and refuses one host.
use shin_vpn.Prelude.{
  concat, ℕ, ◌+◌, Bytes, List, [], ◌∷◌, ◌++◌, map, All, Bool, true, none, some, ok, ◌≡◌, refl,
  arith, bytes_eq,
}
use shin_vpn.Prelude.Exec.{Exec}
use shin_vpn.Prelude.{replicate}
use shin_vpn.Prelude.Decimal.{dotted, show_octet}
use shin_vpn.Prelude.Inet.{inet_ntop6, words, longest_run, zeros, colons, hex_word, hex_digit}
use shin_vpn.Prelude.Int.{pos, negsuc, negate, int_text, magnitude, more_digits}
use shin_vpn.Prelude.Struct.{be}
use shin_vpn.Prelude.Utf8.{Text, codes, encode, encode_one}
use shin_vpn.Tunnel.Proxy.{ProxyFrame, Connection, pipe_rounds}
use shin_vpn.Tunnel.Domain.{lower}
use shin_vpn.Prelude.Assoc.{lookup}
use shin_vpn.Prelude.{◌==◌}
use shin_vpn.Tunnel.Proxy.Http.{handle_client_connection, handle_http_proxy, filtered_lines, upper}
use shin_vpn.Prelude.Search.{join_lines, starts_with}
use shin_vpn.Tunnel.Proxy.Shape.{IsOpening}
use shin_vpn.Tunnel.Proxy.Requests.{close_frame, handle_client_connection-IsOpening}
use shin_vpn.Crypto.Replay.{init}
use shin_vpn.Client.{new_client}
use shin_vpn.Client.Sending.{hand_over}
use shin_vpn.Client.Relaying.{Arrived}
use shin_vpn.Client.EndToEnd.{handle_client_connection-Arrived}
use shin_vpn.Server.Daemon.{new_session}
use shin_vpn.Tests.Client.{tx, client, streaming}
use shin_vpn.Tests.Toys.{toy_aead}
use shin_vpn.Tunnel.Proxy.Piping.{data_frame, IsPiece, Piped, pipe_rounds-Piped}
use shin_vpn.Tunnel.Proxy.Socks.{Address, domain, socks5_session, connect_frame}
use shin_vpn.Tunnel.Proxy.Delivery.{
  handle_client_connection-delivers, handle_client_connection-blocked,
}
use shin_vpn.Tunnel.Proxy.Rewriting.{head_end}
use shin_vpn.Tunnel.Proxy.Forwarding.{IsPlain, request_head, new_line, handle_http_proxy-forwards}
use shin_vpn.Tunnel.Proxy.Gateway.{
  Writer, new_gateway, accept, run, started, accepted, remote_data, finished,
}
use shin_vpn.Tunnel.Proxy.Gateway.Writers.{run-Stays}

abbrev ask : Text → Exec ℕ Bool
ask host n = (n + 1, ok (bytes_eq host (codes "ads.com")))

site_encoded : encode (codes "a.org") ≡ ok (codes "a.org")
unfolding encode encode_one
site_encoded = refl

ads_encoded : encode (codes "ads.com") ≡ ok (codes "ads.com")
unfolding encode encode_one
ads_encoded = refl

abbrev site : Address
site = domain (codes "a.org") (codes "a.org") site_encoded

abbrev ads : Address
ads = domain (codes "ads.com") (codes "ads.com") ads_encoded

abbrev connection : Bytes → Connection ℕ
connection reader = record {
  conn_id = 4;
  reader = reader;
  drains = [];
  rounds = [];
  has_callback = true;
  shield = 0;
  replies = [];
  frames = [];
}

-- What `curl` would send through the proxy.
abbrev to_site : Connection ℕ
to_site = connection (socks5_session (0 ∷ []) 0 site (be 2 443) (codes "hello"))

abbrev to_ads : Connection ℕ
to_ads = connection (socks5_session (0 ∷ []) 0 ads (be 2 443) (codes "hello"))

delivers_example :
    (ds : List Bytes) × ((handle_client_connection ask 9 to_site).frames
      ≡ connect_frame 4 (codes "a.org") 443 ∷ (map (data_frame 4) ds ++ (close_frame 4 ∷ [])))
    × (concat ds ≡ codes "hello")
    × All IsPiece ds
    × ((handle_client_connection ask 9 to_site).replies
        ≡ (5 ∷ 0 ∷ []) ++ (5 ∷ 0 ∷ 0 ∷ 1 ∷ 0 ∷ 0 ∷ 0 ∷ 0 ∷ 0 ∷ 0 ∷ []))
delivers_example =
    handle_client_connection-delivers ask 9 (0 ∷ []) 0 site 443 (omega arith) (codes "hello") 1
      to_site refl refl refl refl tt refl

turned_away_example :
    ((handle_client_connection ask 9 to_ads).frames ≡ close_frame 4 ∷ [])
    × ((handle_client_connection ask 9 to_ads).replies
        ≡ (5 ∷ 0 ∷ []) ++ (5 ∷ 5 ∷ 0 ∷ 1 ∷ 0 ∷ 0 ∷ 0 ∷ 0 ∷ 0 ∷ 0 ∷ []))
turned_away_example =
    handle_client_connection-blocked ask 9 (0 ∷ []) 0 ads 443 (omega arith) (codes "hello") 1 to_ads
      refl refl refl refl refl

shape_example :
    (fs : List ProxyFrame) × ((handle_client_connection ask 9 to_site).frames
      ≡ fs ++ (close_frame 4 ∷ []))
    × IsOpening ask 4 fs
shape_example = handle_client_connection-IsOpening ask 9 to_site refl refl

Piped-example : Piped (connection (codes "hello")) (pipe_rounds 6 (connection (codes "hello")))
Piped-example = pipe_rounds-Piped 6 (connection (codes "hello")) (omega arith) refl tt

writers_example :
    let g = run (started ∷ accepted ∷ remote_data 1 (7 ∷ []) ∷ finished 1 ∷ []) new_gateway in
    (lookup ◌==◌ (accept g).1 g.writers ≡ none)
    × ((k : ℕ) (w : Writer)
        → w.is_closing ≡ true
        → lookup ◌==◌ k g.writers ≡ some w
        → lookup ◌==◌ k (run (accepted ∷ remote_data 1 (8 ∷ []) ∷ []) g).writers ≡ some w)
writers_example =
    run-Stays (started ∷ accepted ∷ remote_data 1 (7 ∷ []) ∷ finished 1 ∷ [])
      (accepted ∷ remote_data 1 (8 ∷ []) ∷ [])

-- A request with a header of the proxy's own.
abbrev headers : List Text
headers = codes "Host: a.org" ∷ codes "Proxy-Connection: keep-alive" ∷ []

abbrev head : Text
head = request_head (codes "get") b'a' (codes ".org") (codes "x") (codes "HTTP/1.1") headers

head_encoded : encode head ≡ ok head
unfolding encode encode_one join_lines
head_encoded = refl

abbrev new_head : Text
new_head = codes "GET /x HTTP/1.1" ++ (13 ∷ 10 ∷ codes "Host: a.org")

new_head_encoded :
    encode (
      join_lines (
        new_line (codes "get") b'a' (codes ".org") (codes "x") (codes "HTTP/1.1") headers
        ∷ filtered_lines headers))
    ≡ ok new_head
unfolding encode encode_one join_lines filtered_lines upper lower starts_with
new_head_encoded = refl

head_is_plain : IsPlain (codes "get") b'a' (codes ".org") (codes "x") (codes "HTTP/1.1") headers
unfolding upper lower starts_with
head_is_plain = record {
  not_connect = refl;
  method_free = refl;
  target_free = refl;
  version_free = refl;
  lines_free = (refl, (refl, (refl, tt)));
  host_free = refl;
  portless = refl;
  path_free = refl;
  own_line = refl;
}

forwards_example :
    let c' = (handle_http_proxy ask head (connection (codes "body"))).0 in
    (ds : List Bytes) × (c'.frames
      ≡ (connect_frame 4 (codes "a.org") 80
          ∷ data_frame 4 (new_head ++ (head_end ++ head_end))
          ∷ [])
        ++ map (data_frame 4) ds)
    × (concat ds ≡ codes "body")
    × All IsPiece ds
    × (c'.replies ≡ [])
forwards_example =
    handle_http_proxy-forwards (codes "get") b'a' (codes ".org") (codes "x") (codes "HTTP/1.1")
      headers ask head new_head 1 (connection (codes "body")) head_is_plain head_encoded
      new_head_encoded refl refl tt

-- socket.inet_ntop(socket.AF_INET6, ...)
loopback : inet_ntop6 (replicate 15 0 ++ (1 ∷ [])) ≡ codes "::1"
unfolding inet_ntop6 words longest_run zeros colons hex_word hex_digit
loopback = refl

documentation_prefix :
    inet_ntop6 (0x20 ∷ 0x01 ∷ 0x0d ∷ 0xb8 ∷ (replicate 10 0 ++ (0x01 ∷ 0x02 ∷ [])))
    ≡ codes "2001:db8::102"
unfolding inet_ntop6 words longest_run zeros colons hex_word hex_digit
documentation_prefix = refl

mapped_address :
    inet_ntop6 (replicate 10 0 ++ (0xff ∷ 0xff ∷ 1 ∷ 2 ∷ 3 ∷ 44 ∷ [])) ≡ codes "::ffff:1.2.3.44"
unfolding inet_ntop6 words longest_run zeros colons hex_word hex_digit dotted show_octet
mapped_address = refl

-- int(" +4_43\t") and int("-7")
ports :
    (int_text (32 ∷ (codes "+4_43" ++ (9 ∷ []))) ≡ ok (pos 443))
    × (int_text (codes "-7") ≡ ok (negsuc 6))
unfolding int_text magnitude more_digits negate
ports = (refl, refl)

end_to_end_example :
    (ds : List Bytes) × ((handle_client_connection ask 9 to_site).frames
      ≡ connect_frame 4 (codes "a.org") 443 ∷ (map (data_frame 4) ds ++ (close_frame 4 ∷ [])))
    × Arrived toy_aead 0 4 (7 ∷ codes "hello") client (hand_over toy_aead 4 ds client) streaming
end_to_end_example =
    handle_client_connection-Arrived ask 9 (0 ∷ []) 0 site 443 (codes "hello") 1 to_site toy_aead 0
      (7 ∷ []) tx client streaming (omega arith) refl refl refl refl tt refl (omega arith)
      (unfold new_client in
        record {
          state = refl;
          cipher = refl;
          transport = refl;
          session = omega arith;
          nonce_session = omega arith;
          numbers = omega arith;
        })
      (unfold new_session init in
        record { shares = record { key = refl; session = refl }; behind = omega arith })
      (unfold lookup in refl)
