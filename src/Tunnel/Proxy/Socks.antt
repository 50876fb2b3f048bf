-- ===== src/Tunnel/Proxy/Socks.antt =====
-- A SOCKS5 session from its first byte to its end.
use shin_vpn.Prelude.{
  ℕ, ◌<◌, Bytes, [], ◌∷◌, ◌++◌, Bool, true, false, some, Result, ok, ◌≡◌, refl, ap, ◌∙◌, length,
  drop, leb, arith, take-append, drop-append, length-append,
}
use shin_vpn.Prelude.Exec.{Exec, continue, lift}
use shin_vpn.Prelude.Struct.{be, unpack_be, length-be, unpack_be-be}
use shin_vpn.Prelude.Utf8.{Text, encode, decode_replace-encode}
use shin_vpn.Prelude.Decimal.{dotted}
use shin_vpn.Prelude.Inet.{inet_ntop6}
use shin_vpn.Prelude.Inet
use shin_vpn.Prelude.Int.{pos}
use shin_vpn.Prelude.Stream
use shin_vpn.Tunnel.Proxy.{
  ProxyFrame, Connection, readexactly, read_byte, write, pipe_client_to_tunnel, shielded,
  socks5_host, socks5_target, handle_socks5,
}
use shin_vpn.Tunnel.Proxy.Piping.{send_frame_callback_lem}

-- Where a SOCKS5 request asks to go, with the bytes that say so.
pub data Address : Type 0 where
  ipv4 : (w x y z : ℕ) → Address
  domain : (host : Text) (bytes : Bytes) → encode host ≡ ok bytes → Address
  ipv6 : (bytes : Bytes) → length bytes ≡ 16 → Address

abbrev pub atyp_of : Address → ℕ
atyp_of (ipv4 w x y z) = 1
atyp_of (domain host bytes e) = 3
atyp_of (ipv6 bytes e) = 4

abbrev pub address_bytes : Address → Bytes
address_bytes (ipv4 w x y z) = w ∷ x ∷ y ∷ z ∷ []
address_bytes (domain host bytes e) = length bytes ∷ bytes
address_bytes (ipv6 bytes e) = bytes

abbrev pub host_of : Address → Text
host_of (ipv4 w x y z) = dotted w x y z
host_of (domain host bytes e) = host
host_of (ipv6 bytes e) = inet_ntop6 bytes

abbrev pub connect_frame : ℕ → Text → ℕ → ProxyFrame
connect_frame id host port = record {
  conn_id = id;
  action = 1;
  host = host;
  port = pos port;
  payload = [];
}

-- What the application sends: its greeting, its request, and then its data.
abbrev pub socks5_session : Bytes → ℕ → Address → Bytes → Bytes → Bytes
socks5_session methods rsv a port payload =
    5
    ∷ length methods
    ∷ (methods ++ (5 ∷ 1 ∷ rsv ∷ atyp_of a ∷ (address_bytes a ++ (port ++ payload))))

-- The first call of a block returned: the block goes on with its value.
pub then_step :
    {T A B : Type 0} {m : T × Result A} {t : T} {a : A} (f : A → Exec T B) {r : T × Result B}
    → m ≡ (t, ok a)
    → f a t ≡ r
    → continue m f ≡ r
then_step f e k = ap (λ m. continue m f) e ∙ k

module _ {S : Type 0} where
  readexactly_lem :
      (n : ℕ) (xs rest : Bytes) (c : Connection S)
      → length xs ≡ n
      → c.reader ≡ xs ++ rest
      → readexactly n c ≡ (record c { reader = rest }, ok xs)
  unfolding readexactly Stream.readexactly
  readexactly_lem n xs rest c e r =
      let enough : leb n (length (xs ++ rest)) ≡ true = ground (arith, length-append xs rest) in
      rw (r, enough, take-append n xs rest e, drop-append n xs rest e)

  read_byte_lem :
      (b : ℕ) (rest : Bytes) (c : Connection S)
      → c.reader ≡ b ∷ rest
      → read_byte c ≡ (record c { reader = rest }, ok b)
  unfolding read_byte
  read_byte_lem b rest c r = then_step _ (readexactly_lem 1 (b ∷ []) rest c refl r) refl

  write_lem :
      (reply : Bytes) (c : Connection S)
      → c.drains ≡ []
      → write reply c ≡ (record c { replies = c.replies ++ reply; drains = [] }, ok tt)
  unfolding write
  write_lem reply c e = rw e

  pub shielded_lem :
      (should_block : Text → Exec S Bool) (host : Text) (s : S) (b : Bool) (c : Connection S)
      → should_block host c.shield ≡ (s, ok b)
      → shielded should_block host c ≡ (record c { shield = s }, ok b)
  unfolding shielded
  shielded_lem should_block host s b c e = rw e

  socks5_host_lem :
      (a : Address) (rest : Bytes) (c : Connection S)
      → c.reader ≡ address_bytes a ++ rest
      → socks5_host (atyp_of a) c ≡ (record c { reader = rest }, ok (some (host_of a)))
  unfolding socks5_host Inet.inet_ntoa
  socks5_host_lem (ipv4 w x y z) rest c r =
      then_step _ (readexactly_lem 4 (w ∷ x ∷ y ∷ z ∷ []) rest c refl r) refl
  socks5_host_lem (domain host bytes e) rest c r =
      then_step _ (read_byte_lem (length bytes) (bytes ++ rest) c r) (
        then_step _
          (readexactly_lem (length bytes) bytes rest (record c { reader = bytes ++ rest }) refl
            refl)
          (rw (decode_replace-encode host bytes e)))
  socks5_host_lem (ipv6 bytes e) rest c r = then_step _ (readexactly_lem 16 bytes rest c e r) refl

  module _ (should_block : Text → Exec S Bool) (methods : Bytes) (rsv : ℕ) (a : Address) (port : ℕ)
      (small : port < 65536) (payload : Bytes) where
    -- After the greeting and the request.
    abbrev pub asked : Connection S → Connection S
    asked c = record c { reader = payload; replies = c.replies ++ (5 ∷ 0 ∷ []); drains = [] }

    -- The handler reads the session's head, and asks about the host that it names.
    pub handle_socks5-target :
        (c : Connection S)
        → 5 ∷ c.reader ≡ socks5_session methods rsv a (be 2 port) payload
        → c.drains ≡ []
        → handle_socks5 should_block c ≡ socks5_target should_block (host_of a) port (asked c)
    unfolding handle_socks5
    handle_socks5-target c r drains =
        let after_port = payload in
        let after_address = be 2 port ++ payload in
        let after_request = address_bytes a ++ after_address in
        let after_methods = 5 ∷ 1 ∷ rsv ∷ atyp_of a ∷ after_request in
        let reader : c.reader ≡ length methods ∷ (methods ++ after_methods) = ap (drop 1) r in
        let c1 : Connection S = record c { reader = methods ++ after_methods } in
        let c2 : Connection S = record c { reader = after_methods } in
        let c3 : Connection S = record c2 { replies = c.replies ++ (5 ∷ 0 ∷ []); drains = [] } in
        let c4 : Connection S = record c3 { reader = after_request } in
        let c5 : Connection S = record c3 { reader = after_address } in
        then_step _ (read_byte_lem (length methods) (methods ++ after_methods) c reader) (
          then_step _ (readexactly_lem (length methods) methods after_methods c1 refl refl) (
            then_step _ (write_lem (5 ∷ 0 ∷ []) c2 drains) (
              then_step _
                (readexactly_lem 4 (5 ∷ 1 ∷ rsv ∷ atyp_of a ∷ []) after_request c3 refl refl)
                (then_step _ (socks5_host_lem a after_address c4 refl) (
                  then_step _ (readexactly_lem 2 (be 2 port) payload c5 (length-be 2 port) refl) (
                    then_step {m = lift (unpack_be 2 (be 2 port)) (record c5 { reader = payload })}
                      _ (ap (λ r. (record c5 { reader = payload }, r)) (unpack_be-be 2 port small))
                      refl))))))

    pub target_let_through :
        (s : S) (c : Connection S)
        → should_block (host_of a) c.shield ≡ (s, ok false)
        → c.has_callback ≡ true
        → c.drains ≡ []
        → socks5_target should_block (host_of a) port c
          ≡ pipe_client_to_tunnel (record c {
            shield = s;
            frames = c.frames ++ (connect_frame c.conn_id (host_of a) port ∷ []);
            replies = c.replies ++ (5 ∷ 0 ∷ 0 ∷ 1 ∷ 0 ∷ 0 ∷ 0 ∷ 0 ∷ 0 ∷ 0 ∷ []);
            drains = [];
          })
    unfolding socks5_target
    target_let_through s c answer callback drains =
        let c1 : Connection S = record c { shield = s } in
        let c2 : Connection S = record c1 {
          frames = c.frames ++ (connect_frame c.conn_id (host_of a) port ∷ []);
        } in
        then_step _ (shielded_lem should_block (host_of a) s false c answer) (
          then_step _ (send_frame_callback_lem 1 (host_of a) (pos port) [] c1 callback)
            (then_step _ (write_lem (5 ∷ 0 ∷ 0 ∷ 1 ∷ 0 ∷ 0 ∷ 0 ∷ 0 ∷ 0 ∷ 0 ∷ []) c2 drains) refl))

    pub target_blocked :
        (s : S) (c : Connection S)
        → should_block (host_of a) c.shield ≡ (s, ok true)
        → c.drains ≡ []
        → (socks5_target should_block (host_of a) port c).0 ≡ record c {
          shield = s;
          replies = c.replies ++ (5 ∷ 5 ∷ 0 ∷ 1 ∷ 0 ∷ 0 ∷ 0 ∷ 0 ∷ 0 ∷ 0 ∷ []);
          drains = [];
        }
    unfolding socks5_target
    target_blocked s c answer drains =
        ap (λ (r : Connection S × Result (Unit {0})). r.0)
          (then_step _ (shielded_lem should_block (host_of a) s true c answer) (
            write_lem (5 ∷ 5 ∷ 0 ∷ 1 ∷ 0 ∷ 0 ∷ 0 ∷ 0 ∷ 0 ∷ 0 ∷ []) (record c { shield = s })
              drains))
