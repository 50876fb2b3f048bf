-- ===== src/Tunnel/Proxy/Sessions.antt =====
-- Every handler of the local proxy keeps to the shape of a session.
use shin_vpn.Prelude.{
  ℕ, Bytes, [], ◌∷◌, Bool, true, false, if◌then◌else◌, Option, none, some, Result, ◌≡◌, ◌==◌, not,
}
use shin_vpn.Prelude.Exec.{Exec, continue, lift}
use shin_vpn.Prelude.Struct.{unpack_be}
use shin_vpn.Prelude.Utf8.{Text}
use shin_vpn.Prelude.Int.{pos}
use shin_vpn.Tunnel.Proxy.{
  Connection, readexactly, read_byte, write, read_until_null, pipe_client_to_tunnel, socks5_host,
  socks5_target, socks5_connect, socks5_request, handle_socks5, socks4_host, socks4_target,
  socks4_rejected, handle_socks4,
}
use shin_vpn.Tunnel.Proxy.Keeping.{
  Same, Same-refl, Same-trans, after_Same, Same-readexactly, Same-read_byte, Same-read_until_null,
  Same-write, Same-socks5_host, Same-socks4_host,
}
use shin_vpn.Tunnel.Proxy.Shape.{Shaped, Shaped-of_Same, Opened-reply, Shaped-target}

module _ {S : Type 0} (should_block : Text → Exec S Bool) (c0 : Connection S)
    (fresh : c0.frames ≡ []) where
  abbrev pub Good : Connection S → Type 0
  Good = Shaped should_block c0 fresh

  -- A part that sends nothing, and then the rest of the block.
  pub then_Good :
      {A B : Type 0} (c : Connection S) (m : Connection S × Result A)
      (f : A → Exec (Connection S) B)
      → Same c0 c
      → Same c m.0
      → ((a : A) (d : Connection S) → Same c0 d → Good (f a d).0)
      → Good (continue m f).0
  then_Good c m f h k rest =
      after_Same Good c m f k
        (λ d g. Shaped-of_Same should_block c0 fresh d (Same-trans c0 c d h g))
        (λ a d g. rest a d (Same-trans c0 c d h g))

  Good-socks5_target :
      (host : Text) (port : ℕ) (c : Connection S)
      → Same c0 c
      → Good (socks5_target should_block host port c).0
  unfolding socks5_target
  Good-socks5_target host port c h =
      Shaped-target should_block c0 fresh host (pos port) _
        (λ d.
          continue (write (5 ∷ 0 ∷ 0 ∷ 1 ∷ 0 ∷ 0 ∷ 0 ∷ 0 ∷ 0 ∷ 0 ∷ []) d)
            (λ _. pipe_client_to_tunnel))
        c h (λ d o. Opened-reply should_block c0 fresh _ d o)

  Good-socks5_connect :
      (host : Option Text) (c : Connection S)
      → Same c0 c
      → Good (socks5_connect should_block host c).0
  Good-socks5_connect none c h = Shaped-of_Same should_block c0 fresh c h
  Good-socks5_connect (some host) c h =
      then_Good c (readexactly 2 c) _ h (Same-readexactly 2 c) (λ bs d g.
        then_Good d (lift (unpack_be 2 bs) d) _ g (Same-refl d)
          (λ port e k. Good-socks5_target host port e k))

  Good-socks5_request :
      (req : Bytes) (c : Connection S) → Same c0 c → Good (socks5_request should_block req c).0
  Good-socks5_request (ver ∷ cmd ∷ rsv ∷ atyp ∷ rest) c h = by_cmd (not (cmd == 1))
    where
      by_cmd :
          (b : Bool)
          → Good
              (if◌then◌else◌ {A = Exec (Connection S) (Unit {0})} b
                (write (5 ∷ 7 ∷ 0 ∷ 1 ∷ 0 ∷ 0 ∷ 0 ∷ 0 ∷ 0 ∷ 0 ∷ []))
                (λ d. continue (socks5_host atyp d) (λ host. socks5_connect should_block host))
                c).0
      by_cmd true = Shaped-of_Same should_block c0 fresh _ (Same-trans c0 c _ h (Same-write _ c))
      by_cmd false =
          then_Good c (socks5_host atyp c) _ h (Same-socks5_host atyp c)
            (λ host d g. Good-socks5_connect host d g)
  Good-socks5_request [] c h = Shaped-of_Same should_block c0 fresh c h
  Good-socks5_request (a ∷ []) c h = Shaped-of_Same should_block c0 fresh c h
  Good-socks5_request (a ∷ b ∷ []) c h = Shaped-of_Same should_block c0 fresh c h
  Good-socks5_request (a ∷ b ∷ d ∷ []) c h = Shaped-of_Same should_block c0 fresh c h

  pub Good-socks5 : (c : Connection S) → Same c0 c → Good (handle_socks5 should_block c).0
  unfolding handle_socks5
  Good-socks5 c h = then_Good c (read_byte c) _ h (Same-read_byte c) (λ n d g.
      then_Good d (readexactly n d) _ g (Same-readexactly n d) (λ ms e k.
        then_Good e (write (5 ∷ 0 ∷ []) e) _ k (Same-write (5 ∷ 0 ∷ []) e) (λ u i l.
          then_Good i (readexactly 4 i) _ l (Same-readexactly 4 i)
            (λ req j m. Good-socks5_request req j m))))

  Good-socks4_target :
      (host : Text) (port : ℕ) (c : Connection S)
      → Same c0 c
      → Good (socks4_target should_block host port c).0
  unfolding socks4_target
  Good-socks4_target host port c h =
      Shaped-target should_block c0 fresh host (pos port) _
        (λ d.
          continue (write (0 ∷ 0x5a ∷ 0 ∷ 0 ∷ 0 ∷ 0 ∷ 0 ∷ 0 ∷ []) d) (λ _. pipe_client_to_tunnel))
        c h (λ d o. Opened-reply should_block c0 fresh _ d o)

  pub Good-socks4 : (c : Connection S) → Same c0 c → Good (handle_socks4 should_block c).0
  unfolding handle_socks4
  Good-socks4 c h = then_Good c (read_byte c) _ h (Same-read_byte c) (λ cmd d g.
      then_Good d (readexactly 2 d) _ g (Same-readexactly 2 d) (λ bs e k.
        then_Good e (lift (unpack_be 2 bs) e) _ k (Same-refl e) (λ port i l.
          then_Good i (readexactly 4 i) _ l (Same-readexactly 4 i) (λ ip j m.
            then_Good j (read_until_null j) _ m (Same-read_until_null j) (λ user o q.
              then_Good o (socks4_host ip o) _ q (Same-socks4_host ip o)
                (λ host r t. by_cmd (not (cmd == 1)) host port r t))))))
    where
      by_cmd :
          (b : Bool) (host : Text) (port : ℕ) (r : Connection S)
          → Same c0 r
          → Good
              (if◌then◌else◌ {A = Exec (Connection S) (Unit {0})} b
                (write socks4_rejected)
                (socks4_target should_block host port)
                r).0
      by_cmd true host port r t =
          Shaped-of_Same should_block c0 fresh _ (Same-trans c0 r _ t (Same-write _ r))
      by_cmd false host port r t = Good-socks4_target host port r t
