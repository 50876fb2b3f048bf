-- ===== src/Tunnel/Proxy/Keeping.antt =====
-- What the parts of a connection's handler leave as it was.
use shin_vpn.Prelude.{
  ℕ, Bytes, [], ◌∷◌, ◌++◌, Bool, true, false, if◌then◌else◌, Option, none, some, Result, ok, err,
  Error, ◌≡◌, refl, ◌∙◌, ◌==◌, ◌&&◌, not, drop,
}
use shin_vpn.Prelude.Exec.{Exec, continue, lift, pure}
use shin_vpn.Prelude.Utf8.{Text, decode_replace}
use shin_vpn.Prelude.Inet.{inet_ntoa, inet_ntop6}
use shin_vpn.Tunnel.Proxy.{
  Connection, readexactly, read_byte, write, read_until_null, shielded, socks5_host, socks4_host,
  head_or,
}

-- The frames sent, the number, and the callback.
pub record Same {S : Type 0} (c c' : Connection S) : Type 0 where
  pub frames : c'.frames ≡ c.frames
  pub conn_id : c'.conn_id ≡ c.conn_id
  pub has_callback : c'.has_callback ≡ c.has_callback

module _ {S : Type 0} where
  pub Same-refl : (c : Connection S) → Same c c
  Same-refl c = record { frames = refl; conn_id = refl; has_callback = refl }

  pub Same-trans : (c d e : Connection S) → Same c d → Same d e → Same c e
  Same-trans c d e h k = record {
    frames = k.frames ∙ h.frames;
    conn_id = k.conn_id ∙ h.conn_id;
    has_callback = k.has_callback ∙ h.has_callback;
  }

  pub Same-continue :
      {A B : Type 0} (c : Connection S) (m : Connection S × Result A)
      (f : A → Exec (Connection S) B)
      → Same c m.0
      → ((a : A) (c' : Connection S) → Same c c' → Same c (f a c').0)
      → Same c (continue m f).0
  Same-continue c (c', ok a) f h k = k a c' h
  Same-continue c (c', err e) f h k = h

  -- What holds whether a call raised or the rest of the block ran.
  pub after_Same {κ} :
      {A B : Type 0} (P : Connection S → Type κ) (c : Connection S) (m : Connection S × Result A)
      (f : A → Exec (Connection S) B)
      → Same c m.0
      → ((d : Connection S) → Same c d → P d)
      → ((a : A) (d : Connection S) → Same c d → P (f a d).0)
      → P (continue m f).0
  after_Same P c (d, ok a) f h raised k = k a d h
  after_Same P c (d, err e) f h raised k = raised d h

  pub Same-readexactly : (n : ℕ) (c : Connection S) → Same c (readexactly n c).0
  unfolding readexactly
  Same-readexactly n c = record { frames = refl; conn_id = refl; has_callback = refl }

  pub Same-read_byte : (c : Connection S) → Same c (read_byte c).0
  unfolding read_byte
  Same-read_byte c = Same-continue c (readexactly 1 c) _ (Same-readexactly 1 c) (λ b c' h. h)

  pub Same-read_until_null : (c : Connection S) → Same c (read_until_null c).0
  unfolding read_until_null
  Same-read_until_null c = record { frames = refl; conn_id = refl; has_callback = refl }

  pub Same-write : (reply : Bytes) (c : Connection S) → Same c (write reply c).0
  unfolding write
  Same-write reply c = by_drain (head_or true c.drains)
    where
      by_drain :
          (b : Bool)
          → Same c
              (if◌then◌else◌ {A = Connection S × Result (Unit {0})} b
                (record c { replies = c.replies ++ reply; drains = drop 1 c.drains }, ok tt)
                (
                  record c { replies = c.replies ++ reply; drains = drop 1 c.drains },
                  err Error.connection_reset,
                )).0
      by_drain true = record { frames = refl; conn_id = refl; has_callback = refl }
      by_drain false = record { frames = refl; conn_id = refl; has_callback = refl }

  pub Same-shielded :
      (should_block : Text → Exec S Bool) (host : Text) (c : Connection S)
      → Same c (shielded should_block host c).0
  unfolding shielded
  Same-shielded should_block host c = record { frames = refl; conn_id = refl; has_callback = refl }

  pub Same-socks5_host : (atyp : ℕ) (c : Connection S) → Same c (socks5_host atyp c).0
  unfolding socks5_host
  Same-socks5_host atyp c = by_type (atyp == 1) (atyp == 3) (atyp == 4)
    where
      ipv4 : Exec (Connection S) (Option Text)
      ipv4 = λ s.
          continue (readexactly 4 s)
            (λ bs s'. continue (lift (inet_ntoa bs) s') (λ host. pure (some host)))

      domain : Exec (Connection S) (Option Text)
      domain = λ s. continue (read_byte s) (λ domain_len s'.
          continue (readexactly domain_len s') (λ bs. pure (some (decode_replace bs))))

      ipv6 : Exec (Connection S) (Option Text)
      ipv6 = λ s. continue (readexactly 16 s) (λ bs. pure (some (inet_ntop6 bs)))

      by_type :
          (a b d : Bool)
          → Same c
              (if◌then◌else◌ {A = Exec (Connection S) (Option Text)} a ipv4
                (if b then domain else if d then ipv6 else pure none)
                c).0
      by_type true b d =
          Same-continue c (readexactly 4 c) _ (Same-readexactly 4 c)
            (λ bs c' h. Same-continue c (lift (inet_ntoa bs) c') _ h (λ host c'' h'. h'))
      by_type false true d = Same-continue c (read_byte c) _ (Same-read_byte c) (λ n c' h.
          Same-continue c (readexactly n c') _
            (Same-trans c c' (readexactly n c').0 h (Same-readexactly n c')) (λ bs c'' h'. h'))
      by_type false false true =
          Same-continue c (readexactly 16 c) _ (Same-readexactly 16 c) (λ bs c' h. h)
      by_type false false false = Same-refl c

  pub Same-socks4_host : (ip : Bytes) (c : Connection S) → Same c (socks4_host ip c).0
  Same-socks4_host (a ∷ b ∷ d ∷ e ∷ []) c = by_zero (a == 0 && b == 0 && d == 0 && not (e == 0))
    where
      by_zero :
          (z : Bool)
          → Same c
              (if◌then◌else◌ {A = Exec (Connection S) Text} z
                (λ s. continue (read_until_null s) (λ bs. pure (decode_replace bs)))
                (lift (inet_ntoa (a ∷ b ∷ d ∷ e ∷ [])))
                c).0
      by_zero true = Same-continue c (read_until_null c) _ (Same-read_until_null c) (λ bs c' h. h)
      by_zero false = Same-refl c
  Same-socks4_host [] c = Same-refl c
  Same-socks4_host (a ∷ []) c = Same-refl c
  Same-socks4_host (a ∷ b ∷ []) c = Same-refl c
  Same-socks4_host (a ∷ b ∷ d ∷ []) c = Same-refl c
  Same-socks4_host (a ∷ b ∷ d ∷ e ∷ f ∷ r) c = Same-refl c
