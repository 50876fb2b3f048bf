-- ===== src/Transport/Obfuscation/Hello.antt =====
-- The lengths inside the synthesised hello: what a parser of TLS records reads.
use shin_vpn.Prelude.{
  ℕ, ◌+◌, ◌<◌, ◌^◌, Bytes, [], ◌∷◌, ◌++◌, ok, length, take, drop, slice, ◌≡◌, sym, ap, ◌∙◌, arith,
  take-append, drop-append, length-append, length-drop, drop-drop, >>=-eq-ok,
}
use shin_vpn.Prelude.Struct.{be, pack_be, value_be, value_be-be, length-be}
use shin_vpn.Prelude.Utf8.{Text}
use shin_vpn.Transport.Obfuscation.{
  tls_handshake_magic, counted, cipher_suites, ext_supported_versions, alpn_data, extension,
  ext_sni, handshake_message, tls_record, hello_body, generate_tls_client_hello,
}

-- A TLS record of type 22 with one handshake message, whose two lengths reach to the end.
pub record IsFramed (magic : Bytes) (type_ : ℕ) (r : Bytes) : Type 0 where
  pub starts : take 3 r ≡ magic
  pub record_length : length r ≡ 5 + value_be (slice 3 5 r)
  pub message_type : take 1 (drop 5 r) ≡ type_ ∷ []
  pub message_length : length r ≡ 9 + value_be (slice 6 9 r)

tls_record_inv :
    (magic body r : Bytes)
    → tls_record magic body ≡ ok r
    → (length body < 2 ^ 16) × (r ≡ magic ++ (be 2 (length body) ++ body))
unfolding tls_record pack_be
tls_record_inv magic body r e = ground arith

handshake_message_inv :
    (type_ : ℕ) (body m : Bytes)
    → handshake_message type_ body ≡ ok m
    → m ≡ type_ ∷ (drop 1 (be 4 (length body)) ++ body)
unfolding handshake_message pack_be
handshake_message_inv type_ body m e = ground arith

low_three : (n : ℕ) → n < 2 ^ 24 → value_be (drop 1 (be 4 n)) ≡ n
unfolding be value_be
low_three n h = omega arith

framed :
    (a b c type_ : ℕ) (body m r : Bytes)
    → handshake_message type_ body ≡ ok m
    → tls_record (a ∷ b ∷ c ∷ []) m ≡ ok r
    → IsFramed (a ∷ b ∷ c ∷ []) type_ r
framed a b c type_ body m r e h =
    let n = length body in
    let low = drop 1 (be 4 n) in
    let (fits, is) = tls_record_inv (a ∷ b ∷ c ∷ []) m r h in
    let made = handshake_message_inv type_ body m e in
    let two = length-be 2 (length m) in
    let three : length low ≡ 3 = omega (arith, length-drop 1 (be 4 n), length-be 4 n) in
    let size : length m ≡ 4 + n = ap length made ∙ (omega (arith, length-append low body, three)) in
    let whole : length r ≡ 5 + length m =
      ap length is ∙ (omega (arith, length-append (be 2 (length m)) m, two)) in
    let number : value_be (slice 3 5 r) ≡ length m =
      ap (λ (x : Bytes). value_be (slice 3 5 x)) is
      ∙ ap value_be (take-append 2 (be 2 (length m)) m two)
      ∙ value_be-be 2 (length m) fits in
    let after5 : drop 5 r ≡ m = ap (drop 5) is ∙ drop-append 2 (be 2 (length m)) m two in
    let after6 : drop 6 r ≡ low ++ body = sym (drop-drop 5 1 r) ∙ ap (drop 1) (after5 ∙ made) in
    let inner : value_be (slice 6 9 r) ≡ n =
      ap (λ (x : Bytes). value_be (take 3 x)) after6
      ∙ ap value_be (take-append 3 low body three)
      ∙ low_three n (omega (arith, fits, size)) in
    record {
      starts = ap (take 3) is;
      record_length = omega (arith, whole, number);
      message_type = ap (take 1) (after5 ∙ made);
      message_length = omega (arith, whole, size, inner);
    }

-- Where a client hello can be made at all, it is a TLS record of one ClientHello message, and the
-- length of the record and that of the message both reach to the end of it.
pub generate_tls_client_hello-IsFramed :
    (client_random session_id key : Bytes) (sni_host : Text) (r : Bytes)
    → generate_tls_client_hello client_random session_id key sni_host ≡ ok r
    → IsFramed tls_handshake_magic 0x01 r
unfolding generate_tls_client_hello
generate_tls_client_hello-IsFramed client_random session_id key sni_host r e =
    let (sni, e1, r1) = >>=-eq-ok (ext_sni sni_host) _ e in
    let (alpn, e2, r2) = >>=-eq-ok (extension (0x00 ∷ 0x10 ∷ []) alpn_data) _ r1 in
    let (share, e3, r3) =
      >>=-eq-ok (extension (0x00 ∷ 0x33 ∷ []) (0x00 ∷ 0x1d ∷ 0x00 ∷ 0x20 ∷ key)) _ r2 in
    let (suites, e4, r4) = >>=-eq-ok (counted cipher_suites) _ r3 in
    let (body, e5, r5) =
      >>=-eq-ok
        (hello_body client_random session_id (suites ++ (0x01 ∷ 0x00 ∷ []))
          (sni ++ (ext_supported_versions ++ (alpn ++ share))))
        _ r4 in
    let (message, e6, r6) = >>=-eq-ok (handshake_message 0x01 body) _ r5 in
    framed 0x16 0x03 0x01 0x01 body message r e6 r6
