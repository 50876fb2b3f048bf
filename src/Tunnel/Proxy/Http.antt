-- ===== src/Tunnel/Proxy/Http.antt =====
-- The HTTP half of the local proxy, and the whole handler of a connection, which tells the
-- protocol from its first byte.
use shin_vpn.Prelude.{
  ℕ, ◌-◌, Bytes, List, [], ◌∷◌, ◌++◌, Bool, ◌&&◌, if◌then◌else◌, ◌==◌, leb, Option, none, some,
  Result, ok, err, drop, bytes_eq,
}
use shin_vpn.Prelude.Exec.{Exec, pure, lift, ◌>>=◌, ◌>>◌}
use shin_vpn.Prelude.Utf8.{Text, codes, encode, decode_replace}
use shin_vpn.Prelude.Decimal.{split}
use shin_vpn.Prelude.Int.{ℤ, pos, int_text}
use shin_vpn.Prelude.Search.{starts_with, split_lines, join_lines, split_once}
use shin_vpn.Prelude.Stream
use shin_vpn.Tunnel.Domain.{lower}
use shin_vpn.Tunnel.Proxy.{
  Connection, write, send_frame_callback, pipe_client_to_tunnel, shielded, handle_socks4,
  handle_socks5,
}

-- method.upper(), of ASCII
unfoldable pub upper : Text → Text
upper [] = []
upper (c ∷ t) = (if leb 97 c && leb c 122 then c - 32 else c) ∷ upper t

-- host, or host:port
unfoldable pub host_and_port : ℕ → Text → Result (Text × ℤ)
host_and_port default_port t = elim (split_once b':' t) [
  | none ↦ ok (t, pos default_port)
  | some (host, port_str) ↦ elim (int_text port_str) [ err e ↦ err e | ok port ↦ ok (host, port) ]
]

-- [^/]+ with what follows it
unfoldable pub until_slash : Text → Text × Text
until_slash [] = ([], [])
until_slash (c ∷ t) =
    let rest = until_slash t in if c == b'/' then ([], c ∷ t) else (c ∷ rest.0, rest.1)

-- .*
unfoldable pub until_newline : Text → Text
until_newline [] = []
until_newline (c ∷ t) = let rest = until_newline t in if c == 10 then [] else c ∷ rest

-- ([^/]+)(/.*)? after the scheme; the path is "/" where there is none.
abbrev pub after_scheme : Text × Text → Option (Text × Text)
after_scheme ([], rest) = none
after_scheme (h ∷ host, []) = some (h ∷ host, b'/' ∷ [])
after_scheme (h ∷ host, r ∷ rest) = some (h ∷ host, until_newline (r ∷ rest))

unfoldable pub match_here : Text → Option (Text × Text)
unfolding until_slash until_newline
match_here t =
    if starts_with t (codes "http://")
    then after_scheme (until_slash (drop 7 t))
    else if starts_with t (codes "https://")
    then after_scheme (until_slash (drop 8 t))
    else none

-- re.search(r"https?://([^/]+)(/.*)?", target_uri)
unfoldable pub search_url : Text → Option (Text × Text)
unfolding match_here
search_url [] = none
search_url (c ∷ t) =
    let later = search_url t in elim (match_here (c ∷ t)) [ none ↦ later | some m ↦ some m ]

abbrev pub is_proxy_header : Text → Bool
is_proxy_header l = starts_with (lower l) (codes "proxy-connection:")

unfoldable pub filtered_lines : List Text → List Text
filtered_lines [] = []
filtered_lines (l ∷ ls) =
    let rest = filtered_lines ls in if is_proxy_header l then rest else l ∷ rest

abbrev pub version_of : List Text → Text
version_of [] = codes "HTTP/1.1"
version_of (v ∷ vs) = v

-- reconstructed_header, of the request line's parts and the lines after it
unfoldable pub reconstructed_header : Text → Text → List Text → List Text → Result Bytes
reconstructed_header method path_part versions lines =
    elim (encode (
      join_lines
        (filtered_lines ((method ++ (32 ∷ (path_part ++ (32 ∷ version_of versions)))) ∷ lines)))) [
          | err e ↦ err e
          | ok bs ↦ ok (bs ++ (13 ∷ 10 ∷ 13 ∷ 10 ∷ []))
        ]

abbrev pub forbidden : Bytes
forbidden =
    codes "HTTP/1.1 403 Forbidden (Blocked by Delusional CyberShield)"
    ++ (13 ∷ 10 ∷ (codes "Content-Length: 0" ++ (13 ∷ 10 ∷ 13 ∷ 10 ∷ [])))

abbrev pub established_reply : Bytes
established_reply =
    codes "HTTP/1.1 200 Connection Established"
    ++ (13 ∷ 10 ∷ (codes "Proxy-Agent: ShinVPN-Delusional/1.0" ++ (13 ∷ 10 ∷ 13 ∷ 10 ∷ [])))

-- The groups of the match, or the whole of the target.
abbrev pub or_whole : Text → Option (Text × Text) → Text × Text
or_whole target_uri none = (target_uri, b'/' ∷ [])
or_whole target_uri (some m) = m

module _ {S : Type 0} where
  unfoldable pub readuntil : Bytes → Exec (Connection S) Bytes
  readuntil separator c =
      let r = Stream.readuntil separator c.reader in (record c { reader = r.0 }, r.1)

module _ {S : Type 0} (should_block : Text → Exec S Bool) where
  unfoldable pub handle_connect : Text → Exec (Connection S) (Unit {0})
  handle_connect target_uri = do
    target ← lift (host_and_port 443 target_uri)
    blocked ← shielded should_block target.0
    if blocked then write forbidden else (do
      send_frame_callback 1 target.0 target.1 []
      write established_reply
      pipe_client_to_tunnel)

  unfoldable pub handle_plain : Text → Text → List Text → List Text → Exec (Connection S) (Unit {0})
  handle_plain method target_uri versions lines = do
    let url = or_whole target_uri (search_url target_uri)
    target ← lift (host_and_port 80 url.0)
    blocked ← shielded should_block target.0
    if blocked then write forbidden else (do
      send_frame_callback 1 target.0 target.1 []
      header ← lift (reconstructed_header method url.1 versions lines)
      send_frame_callback 2 [] (pos 0) header
      pipe_client_to_tunnel)

  -- _handle_http_proxy, on the parts of the request line and the lines after it.
  unfoldable pub handle_request : List Text → List Text → Exec (Connection S) (Unit {0})
  handle_request [] lines = pure tt
  handle_request (method ∷ []) lines = pure tt
  handle_request (method ∷ target_uri ∷ versions) lines =
      if bytes_eq (upper method) (codes "CONNECT")
      then handle_connect target_uri
      else handle_plain (upper method) target_uri versions lines

  abbrev pub handle_lines : List Text → Exec (Connection S) (Unit {0})
  handle_lines [] = pure tt
  handle_lines (request_line ∷ lines) = handle_request (split 32 request_line) lines

  unfoldable pub handle_http_proxy : Bytes → Exec (Connection S) (Unit {0})
  handle_http_proxy header_bytes = handle_lines (split_lines (decode_replace header_bytes))

  -- The body of _handle_client_connection's `try`, with the bytes of its first read.
  unfoldable pub handle_first : Bytes → Exec (Connection S) (Unit {0})
  handle_first [] = pure tt
  handle_first (first_byte ∷ more) =
      if first_byte == 5
      then handle_socks5 should_block
      else if first_byte == 4
      then handle_socks4 should_block
      else (do
        rest_of_header ← readuntil (13 ∷ 10 ∷ 13 ∷ 10 ∷ [])
        handle_http_proxy (first_byte ∷ rest_of_header))

  -- _handle_client_connection: whatever was raised is caught, and the tunnel is told that the
  -- connection is closed. `there` is how much has come at the first read.
  unfoldable pub handle_client_connection : ℕ → Connection S → Connection S
  handle_client_connection there c =
      let initial_data = Stream.read 1 there c.reader in
      let done = (handle_first initial_data.1 (record c { reader = initial_data.0 })).0 in
      (send_frame_callback 3 [] (pos 0) [] done).0
