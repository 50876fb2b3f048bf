-- ===== src/Tests/Transport.antt =====
-- Padding, records and the hello on small inputs.
use shin_vpn.Prelude.{Bytes, [], ◌∷◌, replicate, ◌≡◌, refl}
use shin_vpn.Prelude.Struct.{le, be, pack_be}
use shin_vpn.Prelude.Utf8.{codes, encode, encode_one}
use shin_vpn.Transport.Obfuscation.{
  apply_padding, remove_padding, wrap_tls_record, unwrap_tls_record, generate_tls_client_hello,
  ext_sni, extension, counted, hello_body, handshake_message, tls_record, tls_handshake_magic,
}
use shin_vpn.Transport.Obfuscation.Records.{
  remove_padding-apply_padding, unwrap_tls_record-wrap_tls_record,
}
use shin_vpn.Transport.Obfuscation.Hello.{IsFramed, generate_tls_client_hello-IsFramed}

padding_example : remove_padding (0 ∷ 2 ∷ 104 ∷ 105 ∷ 9 ∷ 9 ∷ []) ≡ 104 ∷ 105 ∷ []
padding_example =
    remove_padding-apply_padding (104 ∷ 105 ∷ []) (9 ∷ 9 ∷ []) (0 ∷ 2 ∷ 104 ∷ 105 ∷ 9 ∷ 9 ∷ [])
      (unfold apply_padding pack_be be le in refl)

record_example : unwrap_tls_record (23 ∷ 3 ∷ 3 ∷ 0 ∷ 2 ∷ 104 ∷ 105 ∷ 1 ∷ []) ≡ 104 ∷ 105 ∷ []
record_example =
    unwrap_tls_record-wrap_tls_record (104 ∷ 105 ∷ []) (1 ∷ [])
      (23 ∷ 3 ∷ 3 ∷ 0 ∷ 2 ∷ 104 ∷ 105 ∷ []) (unfold wrap_tls_record pack_be be le in refl)

abbrev random_ : Bytes
random_ = replicate 32 7

-- The hello for a.b
abbrev hello : Bytes
hello =
    22 ∷ 3 ∷ 1 ∷ 0 ∷ 166 ∷ 1 ∷ 0 ∷ 0 ∷ 162 ∷ 3 ∷ 3 ∷ 7 ∷ 7 ∷ 7 ∷ 7 ∷ 7 ∷ 7 ∷ 7 ∷ 7 ∷ 7 ∷ 7 ∷ 7 ∷ 7
    ∷ 7 ∷ 7 ∷ 7 ∷ 7 ∷ 7 ∷ 7 ∷ 7 ∷ 7 ∷ 7 ∷ 7 ∷ 7 ∷ 7 ∷ 7 ∷ 7 ∷ 7 ∷ 7 ∷ 7 ∷ 7 ∷ 7 ∷ 7 ∷ 32 ∷ 7 ∷ 7 ∷ 7
    ∷ 7 ∷ 7 ∷ 7 ∷ 7 ∷ 7 ∷ 7 ∷ 7 ∷ 7 ∷ 7 ∷ 7 ∷ 7 ∷ 7 ∷ 7 ∷ 7 ∷ 7 ∷ 7 ∷ 7 ∷ 7 ∷ 7 ∷ 7 ∷ 7 ∷ 7 ∷ 7 ∷ 7
    ∷ 7 ∷ 7 ∷ 7 ∷ 7 ∷ 7 ∷ 0 ∷ 10 ∷ 19 ∷ 1 ∷ 19 ∷ 2 ∷ 19 ∷ 3 ∷ 192 ∷ 43 ∷ 192 ∷ 47 ∷ 1 ∷ 0 ∷ 0 ∷ 79
    ∷ 0 ∷ 0 ∷ 0 ∷ 8 ∷ 0 ∷ 6 ∷ 0 ∷ 0 ∷ 3 ∷ 97 ∷ 46 ∷ 98 ∷ 0 ∷ 43 ∷ 0 ∷ 3 ∷ 2 ∷ 3 ∷ 4 ∷ 0 ∷ 16 ∷ 0
    ∷ 14 ∷ 0 ∷ 12 ∷ 2 ∷ 104 ∷ 50 ∷ 8 ∷ 104 ∷ 116 ∷ 116 ∷ 112 ∷ 47 ∷ 49 ∷ 46 ∷ 49 ∷ 0 ∷ 51 ∷ 0 ∷ 38
    ∷ 0 ∷ 36 ∷ 0 ∷ 29 ∷ 0 ∷ 32 ∷ 7 ∷ 7 ∷ 7 ∷ 7 ∷ 7 ∷ 7 ∷ 7 ∷ 7 ∷ 7 ∷ 7 ∷ 7 ∷ 7 ∷ 7 ∷ 7 ∷ 7 ∷ 7 ∷ 7
    ∷ 7 ∷ 7 ∷ 7 ∷ 7 ∷ 7 ∷ 7 ∷ 7 ∷ 7 ∷ 7 ∷ 7 ∷ 7 ∷ 7 ∷ 7 ∷ 7 ∷ 7 ∷ []

hello_example : IsFramed tls_handshake_magic 1 hello
hello_example = generate_tls_client_hello-IsFramed random_ random_ random_ (codes "a.b") hello (
    unfold generate_tls_client_hello ext_sni extension counted hello_body handshake_message
      tls_record pack_be be le encode encode_one in
    refl)
