-- ===== src/Transport/Obfuscation.antt =====
-- `DPIObfuscator` of shinvpn/transport/obfuscation.py. What os.urandom and random.randint return
-- are arguments.
pub mod Records
pub mod Hello
use Prim.Native.Char.{code}
use Prim.Native.String.{String}
use shin_vpn.Prelude.{
  ℕ, ◌+◌, ◌-◌, ◌%◌, Bytes, List, [], ◌∷◌, ◌++◌, Bool, true, false, ◌&&◌, Result, ok, err, ◌>>=◌,
  length, take, drop, slice, bytes_eq, leb, ltb, if◌then◌else◌,
}
use shin_vpn.Prelude.Struct.{pack_be, value_be}
use shin_vpn.Prelude.Utf8.{Text, encode}

abbrev pub tls_app_data_magic : Bytes
tls_app_data_magic = 0x17 ∷ 0x03 ∷ 0x03 ∷ []

abbrev pub tls_handshake_magic : Bytes
tls_handshake_magic = 0x16 ∷ 0x03 ∷ 0x01 ∷ []

-- struct.pack("!H", len(b)) + b
unfoldable pub counted : Bytes → Result Bytes
counted b = do n ← pack_be 2 (length b); ok (n ++ b)

abbrev pub cipher_suites : Bytes
cipher_suites = 0x13 ∷ 0x01 ∷ 0x13 ∷ 0x02 ∷ 0x13 ∷ 0x03 ∷ 0xc0 ∷ 0x2b ∷ 0xc0 ∷ 0x2f ∷ []

abbrev pub ext_supported_versions : Bytes
ext_supported_versions = 0x00 ∷ 0x2b ∷ 0x00 ∷ 0x03 ∷ 0x02 ∷ 0x03 ∷ 0x04 ∷ []

-- b"\x02h2\x08http/1.1"
abbrev pub alpn_data : Bytes
alpn_data = 2 ∷ b'h' ∷ b'2' ∷ 8 ∷ b'h' ∷ b't' ∷ b't' ∷ b'p' ∷ b'/' ∷ b'1' ∷ b'.' ∷ b'1' ∷ []

-- An extension: its type, the length of what follows, and a list with its length.
unfoldable pub extension : Bytes → Bytes → Result Bytes
extension type_ entries = do
  outer ← pack_be 2 (length entries + 2)
  inner ← pack_be 2 (length entries)
  ok (type_ ++ (outer ++ (inner ++ entries)))

unfoldable pub ext_sni : Text → Result Bytes
ext_sni sni_host = do
  sni_bytes ← encode sni_host
  n ← pack_be 2 (length sni_bytes)
  extension (0 ∷ 0 ∷ []) (0 ∷ (n ++ sni_bytes))

-- A handshake message: its type, three bytes of length (the four of "!I" without the first), and
-- the body.
unfoldable pub handshake_message : ℕ → Bytes → Result Bytes
handshake_message type_ body = do four ← pack_be 4 (length body); ok (type_ ∷ (drop 1 four ++ body))

unfoldable pub tls_record : Bytes → Bytes → Result Bytes
tls_record magic body = do n ← pack_be 2 (length body); ok (magic ++ (n ++ body))

-- The body of a hello, from the version to the extensions.
unfoldable pub hello_body : Bytes → Bytes → Bytes → Bytes → Result Bytes
hello_body random_ session_id choices extensions = do
  id_len ← pack_be 1 (length session_id)
  block ← counted extensions
  ok (0x03 ∷ 0x03 ∷ (random_ ++ (id_len ++ (session_id ++ (choices ++ block)))))

unfoldable pub generate_tls_client_hello : Bytes → Bytes → Bytes → Text → Result Bytes
generate_tls_client_hello client_random session_id key sni_host = do
  sni ← ext_sni sni_host
  alpn ← extension (0x00 ∷ 0x10 ∷ []) alpn_data
  key_share ← extension (0x00 ∷ 0x33 ∷ []) (0x00 ∷ 0x1d ∷ 0x00 ∷ 0x20 ∷ key)
  suites ← counted cipher_suites
  body ←
      hello_body client_random session_id (suites ++ (0x01 ∷ 0x00 ∷ []))
        (sni ++ (ext_supported_versions ++ (alpn ++ key_share)))
  message ← handshake_message 0x01 body
  tls_record tls_handshake_magic message

unfoldable pub generate_tls_server_hello : Bytes → Bytes → Bytes → Result Bytes
generate_tls_server_hello server_random session_id key = do
  let versions = 0x00 ∷ 0x2b ∷ 0x00 ∷ 0x02 ∷ 0x03 ∷ 0x04 ∷ []
  let key_share = 0x00 ∷ 0x33 ∷ 0x00 ∷ 0x24 ∷ 0x00 ∷ 0x1d ∷ 0x00 ∷ 0x20 ∷ key
  body ← hello_body server_random session_id (0x13 ∷ 0x01 ∷ 0x00 ∷ []) (versions ++ key_share)
  message ← handshake_message 0x02 body
  tls_record (0x16 ∷ 0x03 ∷ 0x03 ∷ []) message

-- How many bytes are appended, where `extra` is what random.randint(16, 64) returns.
unfoldable pub pad_len : ℕ → ℕ → ℕ → ℕ
pad_len min_block_size extra orig_len =
    let n = (min_block_size - (orig_len + 2) % min_block_size) % min_block_size in
    if ltb n 16 then n + extra else n

-- `random_bytes` are what os.urandom(pad_len) returns.
unfoldable pub apply_padding : Bytes → Bytes → Result Bytes
apply_padding raw_bytes random_bytes = do
  n ← pack_be 2 (length raw_bytes)
  ok (n ++ (raw_bytes ++ random_bytes))

unfoldable pub remove_padding : Bytes → Bytes
remove_padding padded_bytes =
    if ltb (length padded_bytes) 2
    then padded_bytes
    else slice 2 (2 + value_be (take 2 padded_bytes)) padded_bytes

unfoldable pub wrap_tls_record : Bytes → Result Bytes
wrap_tls_record data_ = do n ← pack_be 2 (length data_); ok (tls_app_data_magic ++ (n ++ data_))

unfoldable pub unwrap_tls_record : Bytes → Bytes
unwrap_tls_record record_ =
    if bytes_eq (take 3 record_) tls_app_data_magic && leb 5 (length record_)
    then slice 5 (5 + value_be (slice 3 5 record_)) record_
    else record_
