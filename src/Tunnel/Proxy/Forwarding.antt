-- ===== src/Tunnel/Proxy/Forwarding.antt =====
-- A plain HTTP request that passes through the local proxy.
use shin_vpn.Prelude.{
  concat, ℕ, Bytes, List, [], ◌∷◌, ◌++◌, map, All, Bool, true, false, Result, ok, ◌≡◌, refl, ap,
  ◌∙◌, length, suc, arith, bytes_eq,
}
use shin_vpn.Prelude.Exec.{Exec}
use shin_vpn.Prelude.Utf8.{Text, codes, encode, decode_replace-encode}
use shin_vpn.Prelude.Decimal.{split, split-append, split-last}
use shin_vpn.Prelude.Int.{pos}
use shin_vpn.Prelude.Search.{join_lines}
use shin_vpn.Tunnel.Proxy.{Connection, pipe_client_to_tunnel}
use shin_vpn.Tunnel.Proxy.Http.{
  upper, handle_plain, handle_request, handle_http_proxy, filtered_lines, is_proxy_header,
}
use shin_vpn.Tunnel.Proxy.Piping.{
  data_frame, IsPiece, Runs, pipe_rounds-Piped, send_frame_callback_lem,
}
use shin_vpn.Tunnel.Proxy.Socks.{connect_frame, then_step, shielded_lem}
use shin_vpn.Tunnel.Proxy.Rewriting.{
  Free, head_end, split_lines-head, search_url-http, host_and_port_of_Free,
  reconstructed_header-head,
}

-- A request line, of a method, a target and a version.
abbrev pub request_line : Text → Text → Text → Text
request_line method target version = method ++ (32 ∷ (target ++ (32 ∷ version)))

split-request_line :
    (method target version : Text)
    → Free 32 method
    → Free 32 target
    → Free 32 version
    → split 32 (request_line method target version) ≡ method ∷ target ∷ version ∷ []
split-request_line method target version m t v =
    split-append 32 method (target ++ (32 ∷ version)) m
    ∙ ap (◌∷◌ method) (split-append 32 target version t ∙ ap (◌∷◌ target) (split-last 32 version v))

module _ (method : Text) (h : ℕ) (host path version : Text) (ls : List Text) where
  abbrev pub target : Text
  target = codes "http://" ++ ((h ∷ host) ++ (47 ∷ path))

  abbrev pub new_line : Text
  new_line = request_line (upper method) (47 ∷ path) version

  -- The request's head, as it comes.
  abbrev pub request_head : Text
  request_head = join_lines (request_line method target version ∷ ls) ++ head_end

  -- A plain request with a path, to a host without a port.
  pub record IsPlain : Type 0 where
    pub not_connect : bytes_eq (upper method) (codes "CONNECT") ≡ false
    pub method_free : Free 32 method
    pub target_free : Free 32 target
    pub version_free : Free 32 version
    pub lines_free : All (Free 13) (request_line method target version ∷ ls)
    pub host_free : Free 47 (h ∷ host)
    pub portless : Free 58 (h ∷ host)
    pub path_free : Free 10 (47 ∷ path)
    pub own_line : is_proxy_header new_line ≡ false

  module _ {S : Type 0} (should_block : Text → Exec S Bool) where
    plain_target :
        (s : S) (bytes : Bytes) (c : Connection S)
        → IsPlain
        → encode (join_lines (new_line ∷ filtered_lines ls)) ≡ ok bytes
        → should_block (h ∷ host) c.shield ≡ (s, ok false)
        → c.has_callback ≡ true
        → handle_plain should_block (upper method) target (version ∷ []) (ls ++ ([] ∷ [] ∷ [])) c
          ≡ pipe_client_to_tunnel (record c {
            shield = s;
            frames =
                (c.frames ++ (connect_frame c.conn_id (h ∷ host) 80 ∷ []))
                ++ (data_frame c.conn_id (bytes ++ (head_end ++ head_end)) ∷ []);
          })
    unfolding handle_plain
    plain_target s bytes c plain encoded answer callback =
        let c1 : Connection S = record c { shield = s } in
        let c2 : Connection S = record c1 {
          frames = c.frames ++ (connect_frame c.conn_id (h ∷ host) 80 ∷ []);
        } in
        rw
          (
            search_url-http h host path plain.host_free plain.path_free,
            host_and_port_of_Free 80 (h ∷ host) plain.portless,
          )
          (then_step _ (shielded_lem should_block (h ∷ host) s false c answer) (
            then_step _ (send_frame_callback_lem 1 (h ∷ host) (pos 80) [] c1 callback) (
              rw
                (reconstructed_header-head (upper method) (47 ∷ path) version ls bytes
                  plain.own_line encoded)
                (then_step _
                  (send_frame_callback_lem 2 [] (pos 0) (bytes ++ (head_end ++ head_end)) c2
                    callback)
                  refl))))

    plain_request :
        (header_bytes : Bytes)
        → IsPlain
        → encode request_head ≡ ok header_bytes
        → handle_http_proxy should_block header_bytes
          ≡ handle_plain should_block (upper method) target (version ∷ []) (ls ++ ([] ∷ [] ∷ []))
    unfolding handle_http_proxy handle_request
    plain_request header_bytes plain encoded =
        rw
          (
            decode_replace-encode request_head header_bytes encoded,
            split_lines-head (request_line method target version) ls plain.lines_free,
            split-request_line method target version plain.method_free plain.target_free
                plain.version_free,
            plain.not_connect,
          )
          refl

    -- A plain HTTP request with a path, to a host that is named without a port and that the ad
    -- blocker lets through, while the gateway runs: the tunnel gets a connect frame to port 80, the
    -- head with the path in the place of the target and without the lines of the proxy, its last line
    -- followed by three empty lines and thus by two (four bytes) more than end a head, and then what
    -- the application sends, all of it and in order.
    pub handle_http_proxy-forwards :
        (header_bytes bytes : Bytes) (s : S) (c : Connection S)
        → IsPlain
        → encode request_head ≡ ok header_bytes
        → encode (join_lines (new_line ∷ filtered_lines ls)) ≡ ok bytes
        → should_block (h ∷ host) c.shield ≡ (s, ok false)
        → c.has_callback ≡ true
        → All Runs c.rounds
        → let c' = (handle_http_proxy should_block header_bytes c).0 in
          (ds : List Bytes) × (c'.frames
            ≡ ((c.frames ++ (connect_frame c.conn_id (h ∷ host) 80 ∷ []))
                ++ (data_frame c.conn_id (bytes ++ (head_end ++ head_end)) ∷ []))
              ++ map (data_frame c.conn_id) ds)
          × (concat ds ≡ c.reader)
          × All IsPiece ds
          × (c'.replies ≡ c.replies)
    unfolding pipe_client_to_tunnel
    handle_http_proxy-forwards header_bytes bytes s c plain encoded encoded' answer callback runs =
        let start : Connection S = record c {
          shield = s;
          frames =
              (c.frames ++ (connect_frame c.conn_id (h ∷ host) 80 ∷ []))
              ++ (data_frame c.conn_id (bytes ++ (head_end ++ head_end)) ∷ []);
        } in
        let (ds, frames, all_of, pieces, end, replies, shield, callback', conn_id) =
          pipe_rounds-Piped (suc (length c.reader)) start (omega arith) callback runs in
        let whole =
          ap (λ (k : Exec (Connection S) (Unit {0})). k c)
            (plain_request header_bytes plain encoded)
          ∙ plain_target s bytes c plain encoded' answer callback in
        (
          ds,
          ap (λ (r : Connection S × Result (Unit {0})). r.0.frames) whole ∙ frames,
          all_of,
          pieces,
          ap (λ (r : Connection S × Result (Unit {0})). r.0.replies) whole ∙ replies,
        )
