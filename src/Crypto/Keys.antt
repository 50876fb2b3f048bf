-- ===== src/Crypto/Keys.antt =====
-- Key pairs and key files, of shinvpn/crypto/keys.py. A key is its 32 raw bytes; a file is its text
-- and its mode. The white space that `strip` takes off is that of ASCII.
pub mod Files
use shin_vpn.Prelude.{
  ℕ, Bytes, List, [], ◌∷◌, Bool, true, false, not, Option, none, some, Result, ok, err, value_error,
  file_not_found, ◌==◌, if◌then◌else◌, length, bytes_eq,
}
use shin_vpn.Prelude.Errors.{◌>>=◌}
use shin_vpn.Prelude.Utf8.{Text}
use shin_vpn.Prelude.Base64.{b64encode, b64decode}
use shin_vpn.Prelude.Assoc.{Assoc, lookup, insert}
use shin_vpn.Crypto.Primitives.{Primitives}
use shin_vpn.Tunnel.Domain.{lstrip, rstrip, is_space}

pub record KeyPair : Type 0 where
  pub private_key : Bytes
  pub public_key : Bytes

pub record File : Type 0 where
  pub text : Text
  pub mode : ℕ

abbrev pub FileSystem : Type 0
FileSystem = Assoc Text File

-- text.strip()
abbrev pub strip : Text → Text
strip t = rstrip is_space (lstrip is_space t)

unfoldable pub private_b64 : KeyPair → Text
private_b64 kp = b64encode kp.private_key

unfoldable pub public_b64 : KeyPair → Text
public_b64 kp = b64encode kp.public_key

-- path.write_text(text): a new file gets the default mode, a file that is there keeps its own.
unfoldable pub write_text : ℕ → Text → Text → FileSystem → FileSystem
write_text default_mode path text fs = elim (lookup bytes_eq path fs) [
  | none ↦ insert bytes_eq path (record { text = text; mode = default_mode }) fs
  | some file ↦ insert bytes_eq path (record { text = text; mode = file.mode }) fs
]

unfoldable pub chmod : ℕ → Text → FileSystem → FileSystem
chmod mode path fs = elim (lookup bytes_eq path fs) [
  | none ↦ fs
  | some file ↦ insert bytes_eq path (record { text = file.text; mode = mode }) fs
]

-- 0o600
abbrev pub owner_only : ℕ
owner_only = 384

-- `posix` is os.name != "nt".
unfoldable pub save_to_file : Bool → ℕ → KeyPair → Text → Option Text → FileSystem → FileSystem
save_to_file posix default_mode kp private_path public_path fs =
    let written = write_text default_mode private_path (strip (private_b64 kp)) fs in
    let saved = if posix then chmod owner_only private_path written else written in
    elim public_path [
      | none ↦ saved
      | some path ↦ write_text default_mode path (strip (public_b64 kp)) saved
    ]

unfoldable pub read_text : Text → FileSystem → Result Text
read_text path fs = elim (lookup bytes_eq path fs) [
  | none ↦ err file_not_found
  | some file ↦ ok file.text
]

-- A key as `bytes` or as a base64 `str`.
pub data KeyMaterial : Type 0 where
  raw : Bytes → KeyMaterial
  b64 : Text → KeyMaterial

unfoldable pub raw_bytes : KeyMaterial → Result Bytes
raw_bytes (raw bytes) = ok bytes
raw_bytes (b64 text) = b64decode (strip text)

unfoldable pub checked_length : Bytes → Result Bytes
checked_length bytes = if not (length bytes == 32) then err value_error else ok bytes

unfoldable pub load_private_key : KeyMaterial → Result Bytes
load_private_key raw_or_b64 = do bytes ← raw_bytes raw_or_b64; checked_length bytes

unfoldable pub load_public_key : KeyMaterial → Result Bytes
load_public_key raw_or_b64 = do bytes ← raw_bytes raw_or_b64; checked_length bytes

module _ (P : Primitives) where
  -- KeyPair(private_key, public_key)
  unfoldable pub new_key_pair : Bytes → Option Bytes → KeyPair
  new_key_pair private_key public_key = record {
    private_key = private_key;
    public_key = elim public_key [ none ↦ P.public_key private_key | some k ↦ k ];
  }

  unfoldable pub from_private_bytes : Bytes → Result KeyPair
  from_private_bytes bytes =
      if not (length bytes == 32) then err value_error else ok (new_key_pair bytes none)

  unfoldable pub from_private_b64 : Text → Result KeyPair
  from_private_b64 b64_str = do bytes ← b64decode (strip b64_str); from_private_bytes bytes

  unfoldable pub load_from_file : Text → FileSystem → Result KeyPair
  load_from_file private_path fs = do
    content ← read_text private_path fs
    from_private_b64 (strip content)
