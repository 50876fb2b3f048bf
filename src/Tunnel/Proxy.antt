-- ===== src/Tunnel/Proxy.antt =====
-- `UniversalProxyGateway` of shinvpn/tunnel/proxy_tunnel.py: one connection of a local application,
-- over all that it sends. What else happens during an await is an argument: whether a reply can be
-- written, whether the gateway still runs, and how much of what is sent is there at a read.
pub mod Http
pub mod Gateway
pub mod Keeping
pub mod Shape
pub mod Sessions
pub mod Requests
pub mod Rewriting
pub mod Piping
pub mod Socks
pub mod Delivery
pub mod Forwarding
use shin_vpn.Prelude.{
  ℕ, zero, suc, ◌+◌, ◌-◌, Bytes, List, [], ◌∷◌, ◌++◌, Bool, true, false, not, ◌&&◌, ◌||◌,
  if◌then◌else◌, ◌==◌, Option, none, some, Result, ok, err, Error, length, take, drop, get_elem?,
  index_error, connection_reset, incomplete_read,
}
use shin_vpn.Prelude.Exec.{Exec, pure, raise, lift, gets, modify, ◌>>=◌, ◌>>◌}
use shin_vpn.Prelude.Struct.{unpack_be}
use shin_vpn.Prelude.Utf8.{Text, decode_replace}
use shin_vpn.Prelude.Inet.{inet_ntoa, inet_ntop6}
use shin_vpn.Prelude.Int.{ℤ, pos}
use shin_vpn.Prelude.Stream
use shin_vpn.Prelude.Stream.{stream_limit}

-- A call of send_frame_callback.
pub record ProxyFrame : Type 0 where
  pub conn_id : ℕ
  pub action : ℕ
  pub host : Text
  pub port : ℤ
  pub payload : Bytes

-- A round of the loop that pipes: whether the gateway still runs, and how much is there to read.
pub record Round : Type 0 where
  pub running : Bool
  pub there : ℕ

-- A connection, over the state `S` of the ad blocker.
pub record Connection (S : Type 0) : Type 0 where
  pub conn_id : ℕ
  pub reader : Bytes
  pub drains : List Bool
  pub rounds : List Round
  pub has_callback : Bool
  pub shield : S
  pub replies : Bytes
  pub frames : List ProxyFrame

abbrev pub head_or {ℓ} : {A : Type ℓ} → A → List A → A
head_or a [] = a
head_or a (x ∷ xs) = x

-- The bytes up to a null byte, which is read too.
unfoldable pub until_null : Bytes → Bytes × Result Bytes
until_null [] = ([], err incomplete_read)
until_null (b ∷ bs) =
    let later = until_null bs in
    if b == 0
    then (bs, ok [])
    else (later.0, elim (later.1) [ err e ↦ err e | ok text ↦ ok (b ∷ text) ])

module _ {S : Type 0} where
  unfoldable pub readexactly : ℕ → Exec (Connection S) Bytes
  readexactly n c = let r = Stream.readexactly n c.reader in (record c { reader = r.0 }, r.1)

  -- (await reader.readexactly(1))[0]
  unfoldable pub read_byte : Exec (Connection S) ℕ
  read_byte = do
    b ← readexactly 1
    lift (elim (get_elem? b 0) [ some x ↦ ok x | none ↦ err index_error ])

  -- writer.write(reply), and the drain, which raises where the client is gone.
  unfoldable pub write : Bytes → Exec (Connection S) (Unit {0})
  write reply c =
      let c' = record c { replies = c.replies ++ reply; drains = drop 1 c.drains } in
      if head_or true c.drains then (c', ok tt) else (c', err connection_reset)

  unfoldable pub send_frame_callback : ℕ → Text → ℤ → Bytes → Exec (Connection S) (Unit {0})
  send_frame_callback action host port payload = modify (λ c.
      if c.has_callback
      then record c {
        frames =
            c.frames
            ++ ((record {
              conn_id = c.conn_id;
              action = action;
              host = host;
              port = port;
              payload = payload;
            })
                ∷ []);
      }
      else c)

  unfoldable pub read_until_null : Exec (Connection S) Bytes
  read_until_null c = let r = until_null c.reader in (record c { reader = r.0 }, r.1)

  -- The rounds of _pipe_client_to_tunnel; a read takes a byte at least, so what there is to read
  -- counts them.
  unfoldable pub pipe_rounds : ℕ → Connection S → Connection S
  pipe_rounds zero c = c
  pipe_rounds (suc left) c =
      let round = head_or (record { running = true; there = length c.reader }) c.rounds in
      let r = Stream.read 2048 round.there c.reader in
      let c' = record c { reader = r.0; rounds = drop 1 c.rounds } in
      elim round.running [
        | false ↦ c
        | true ↦ elim r.1 [
          | [] ↦ c'
          | b ∷ bs ↦ pipe_rounds left (send_frame_callback 2 [] (pos 0) (b ∷ bs) c').0
        ]
      ]

  unfoldable pub pipe_client_to_tunnel : Exec (Connection S) (Unit {0})
  pipe_client_to_tunnel c = (pipe_rounds (suc (length c.reader)) c, ok tt)

  -- shield_instance.should_block(host)
  unfoldable pub shielded : (Text → Exec S Bool) → Text → Exec (Connection S) Bool
  shielded should_block host c =
      let r = should_block host c.shield in (record c { shield = r.0 }, r.1)

  -- _handle_socks5, from the address type on.
  unfoldable pub socks5_host : ℕ → Exec (Connection S) (Option Text)
  socks5_host atyp =
      if atyp == 1
      then (do bs ← readexactly 4; host ← lift (inet_ntoa bs); pure (some host))
      else if atyp == 3
      then (do domain_len ← read_byte; bs ← readexactly domain_len; pure (some (decode_replace bs)))
      else if atyp == 4
      then (do bs ← readexactly 16; pure (some (inet_ntop6 bs)))
      else pure none

  abbrev pub socks4_host : Bytes → Exec (Connection S) Text
  socks4_host (a ∷ b ∷ c ∷ d ∷ []) =
      if a == 0 && b == 0 && c == 0 && not (d == 0)
      then (do bs ← read_until_null; pure (decode_replace bs))
      else lift (inet_ntoa (a ∷ b ∷ c ∷ d ∷ []))
  socks4_host ip_bytes = raise index_error

abbrev pub socks4_rejected : Bytes
socks4_rejected = 0 ∷ 0x5b ∷ 0 ∷ 0 ∷ 0 ∷ 0 ∷ 0 ∷ 0 ∷ []

module _ {S : Type 0} (should_block : Text → Exec S Bool) where
  unfoldable pub socks5_target : Text → ℕ → Exec (Connection S) (Unit {0})
  socks5_target host port = do
    blocked ← shielded should_block host
    if blocked then write (5 ∷ 5 ∷ 0 ∷ 1 ∷ 0 ∷ 0 ∷ 0 ∷ 0 ∷ 0 ∷ 0 ∷ []) else (do
      send_frame_callback 1 host (pos port) []
      write (5 ∷ 0 ∷ 0 ∷ 1 ∷ 0 ∷ 0 ∷ 0 ∷ 0 ∷ 0 ∷ 0 ∷ [])
      pipe_client_to_tunnel)

  abbrev pub socks5_connect : Option Text → Exec (Connection S) (Unit {0})
  socks5_connect none = pure tt
  socks5_connect (some host) = do
    port_bytes ← readexactly 2
    port ← lift (unpack_be 2 port_bytes)
    socks5_target host port

  -- _handle_socks5, with the four bytes of the request.
  abbrev pub socks5_request : Bytes → Exec (Connection S) (Unit {0})
  socks5_request (ver ∷ cmd ∷ rsv ∷ atyp ∷ rest) =
      if not (cmd == 1)
      then write (5 ∷ 7 ∷ 0 ∷ 1 ∷ 0 ∷ 0 ∷ 0 ∷ 0 ∷ 0 ∷ 0 ∷ [])
      else (do host ← socks5_host atyp; socks5_connect host)
  socks5_request req = raise index_error

  unfoldable pub handle_socks5 : Exec (Connection S) (Unit {0})
  handle_socks5 = do
    nmethods ← read_byte
    readexactly nmethods
    write (5 ∷ 0 ∷ [])
    req ← readexactly 4
    socks5_request req

  unfoldable pub socks4_target : Text → ℕ → Exec (Connection S) (Unit {0})
  socks4_target host port = do
    blocked ← shielded should_block host
    if blocked then write socks4_rejected else (do
      send_frame_callback 1 host (pos port) []
      write (0 ∷ 0x5a ∷ 0 ∷ 0 ∷ 0 ∷ 0 ∷ 0 ∷ 0 ∷ [])
      pipe_client_to_tunnel)

  unfoldable pub handle_socks4 : Exec (Connection S) (Unit {0})
  handle_socks4 = do
    cmd ← read_byte
    port_bytes ← readexactly 2
    port ← lift (unpack_be 2 port_bytes)
    ip_bytes ← readexactly 4
    user_id ← read_until_null
    host ← socks4_host ip_bytes
    if not (cmd == 1) then write socks4_rejected else socks4_target host port
