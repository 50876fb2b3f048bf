-- ===== src/Crypto/Handshake/Acceptance.antt =====
-- What a server that accepts a first message knows of it.
use shin_vpn.Prelude.{
  ℕ, Bytes, List, ◌++◌, true, false, Bool, not, Error, Result, Option, ok, err, length, take, slice,
  bytes_eq, ◌≡◌, refl, ap, ◌∙◌, sym, arith, ltb,
}
use shin_vpn.Prelude.Struct.{value_le}
use mathlib.Core.List.{append_assoc}
use shin_vpn.Prelude.{bytes_eq→eq, take-add, ◌≤◌}
use shin_vpn.Crypto.Primitives.{Primitives}
use shin_vpn.Crypto.Handshake.Initiation.{auth_key}
use shin_vpn.Prelude.Exec.{Exec, continue, lift}
use shin_vpn.Crypto.Handshake.{
  HandshakeState, responder, process_initiation, authorized, load_public_key, check, is_role,
  protocol_salt, info_auth,
}

-- What a step of a block did that returned.
module _ {A B : Type 0} {s s' : HandshakeState} {b : B} where
  lift_inv :
      (r : Result A) (f : A → Exec HandshakeState B)
      → continue (lift r s) f ≡ (s', ok b)
      → (a : A) × (r ≡ ok a) × (f a s ≡ (s', ok b))
  lift_inv (ok a) f h = (a, refl, h)
  lift_inv (err e) f h = absurd (cc)

check_inv :
    {B : Type 0} {s s' : HandshakeState} {b : B} (passes : Bool) (e : Error)
    (f : Unit {0} → Exec HandshakeState B)
    → continue (check passes e s) f ≡ (s', ok b)
    → (passes ≡ true) × (f tt s ≡ (s', ok b))
check_inv true e f h = (refl, h)
check_inv false e f h = absurd (cc)

not_short : (n : ℕ) → not (ltb n 116) ≡ true → 116 ≤ n
not_short n h = ground arith

load_public_key_inv : (raw k : Bytes) → load_public_key raw ≡ ok k → raw ≡ k
unfolding load_public_key
load_public_key_inv raw k h = ground arith

returned_inv :
    {s s' : HandshakeState} {a b k e : Bytes}
    → ◌≡◌ {A = HandshakeState × Result (Bytes × Bytes)} (s, ok (a, b)) (s', ok (k, e))
    → (s ≡ s') × (a ≡ k) × (b ≡ e)
returned_inv h = let same = ap (λ x. x.1) h in (ap (λ x. x.0) h, cc, cc)

four_fields :
    (m : Bytes) → take 100 m ≡ take 4 m ++ (slice 4 36 m ++ (slice 36 68 m ++ slice 68 100 m))
four_fields m =
    take-add 68 32 m
    ∙ (ap (λ (x : Bytes). x ++ slice 68 100 m)
          (take-add 36 32 m ∙ ap (λ (x : Bytes). x ++ slice 36 68 m) (take-add 4 32 m))
        ∙ (append_assoc (take 4 m ++ slice 4 36 m) (slice 36 68 m) (slice 68 100 m)
            ∙ append_assoc (take 4 m) (slice 4 36 m) (slice 36 68 m ++ slice 68 100 m)))

-- What a server that accepts a message knows of it.
record Accepted (P : Primitives) (s s' : HandshakeState) (message : Bytes)
    (allowed : Option (List Bytes)) (k e : Bytes) : Type 0 where
  dh1 : Bytes
  dh2 : Bytes
  long : 116 ≤ length message
  static_sent : k ≡ slice 36 68 message
  ephemeral_sent : e ≡ slice 4 36 message
  known : authorized k allowed ≡ true
  first : P.exchange s.static_key e ≡ ok dh1
  second : P.exchange s.static_key k ≡ ok dh2
  tagged :
      bytes_eq
        (slice 100 116 message)
        (take 16 (P.hmac (P.hkdf protocol_salt info_auth (dh1 ++ dh2)) (take 100 message)))
      ≡ true
  session : s'.session_id ≡ value_le (take 4 message)

module _ (P : Primitives) where
  open P use {public_key, exchange, hkdf, hmac}

  accepted :
      (s s' : HandshakeState) (message k e : Bytes) (allowed : Option (List Bytes))
      → process_initiation P message allowed s ≡ (s', ok (k, e))
      → Accepted P s s' message allowed k e
  unfolding process_initiation load_public_key
  accepted s s' message k e allowed h =
      let (is_responder, h1) = check_inv (is_role s.role responder) _ _ h in
      let (long, h2) = check_inv (not (ltb (length message) 116)) _ _ h1 in
      let (known, h3) = check_inv (authorized (slice 36 68 message) allowed) _ _ h2 in
      let (k', loaded_k, h4) = lift_inv (load_public_key (slice 36 68 message)) _ h3 in
      let (e', loaded_e, h5) = lift_inv (load_public_key (slice 4 36 message)) _ h4 in
      let (dh1, same1, h6) = lift_inv (exchange s.static_key e') _ h5 in
      let (dh2, same2, h7) = lift_inv (exchange s.static_key k') _ h6 in
      let (tagged, h8) =
        check_inv
          (bytes_eq (slice 100 116 message)
            (take 16 (hmac (auth_key P dh1 dh2) (take 100 message))))
          _ _ h7 in
      let same_k = load_public_key_inv _ k' loaded_k in
      let same_e = load_public_key_inv _ e' loaded_e in
      let (state, sent_k, sent_e) = returned_inv h8 in
      record {
        dh1 = dh1;
        dh2 = dh2;
        long = not_short (length message) long;
        static_sent = sym sent_k;
        ephemeral_sent = sym sent_e;
        known = ap (λ (x : Bytes). authorized x allowed) (sym sent_k) ∙ known;
        first = ap (exchange s.static_key) (sym sent_e ∙ same_e) ∙ same1;
        second = ap (exchange s.static_key) (sym sent_k ∙ same_k) ∙ same2;
        tagged = tagged;
        session = sym (ap (λ (x : HandshakeState). x.session_id) state);
      }

  -- Whatever message a server accepts, whoever made it: the static key that the server then knows
  -- the client by is one that it authorizes, and the first 116 bytes are what `create_initiation`
  -- sends for the two keys, namely the session id that the server has taken over, the ephemeral
  -- key, the static key, a nonce, and the tag over all of these. The tag is made under the key that
  -- is derived from what the server's static key exchanges with the one and with the other.
  pub process_initiation_inv :
      (s s' : HandshakeState) (message k e : Bytes) (allowed : Option (List Bytes))
      → process_initiation P message allowed s ≡ (s', ok (k, e))
      → (id : Bytes) × (nonce : Bytes) × (dh1 : Bytes) × (dh2 : Bytes) × (take 116 message
          ≡ (id ++ (e ++ (k ++ nonce)))
            ++ take 16 (hmac (auth_key P dh1 dh2) (id ++ (e ++ (k ++ nonce)))))
        × (s'.session_id ≡ value_le id)
        × (exchange s.static_key e ≡ ok dh1)
        × (exchange s.static_key k ≡ ok dh2)
        × (authorized k allowed ≡ true)
  process_initiation_inv s s' message k e allowed h =
      let a = accepted s s' message k e allowed h in
      let id = take 4 message in
      let nonce = slice 68 100 message in
      let head : take 100 message ≡ id ++ (e ++ (k ++ nonce)) =
        rw (a.ephemeral_sent, a.static_sent) (four_fields message) in
      let tag : slice 100 116 message ≡ take 16 (hmac (auth_key P a.dh1 a.dh2) (take 100 message)) =
        bytes_eq→eq _ _ a.tagged in
      (
        id,
        nonce,
        a.dh1,
        a.dh2,
        take-add 100 16 message
            ∙ (ap (λ (x : Bytes). take 100 message ++ x) tag
                ∙ ap (λ (x : Bytes). x ++ take 16 (hmac (auth_key P a.dh1 a.dh2) x)) head),
        a.session,
        a.first,
        a.second,
        a.known,
      )
