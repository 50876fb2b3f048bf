-- ===== src/Crypto/Keys/Files.antt =====
-- A key pair is read back from the file that it was saved to.
use mathlib.Core.List.{reverse-reverse}
use shin_vpn.Prelude.{
  ℕ, Bytes, [], ◌∷◌, All, All-reverse, Bool, true, false, Option, none, some, ok, if◌then◌else◌,
  ◌≡◌, refl, sym, ap, ◌∙◌, ◌↔◌, arith, length, bytes_eq, bytes_eq_refl, bytes_eq→eq, reverse,
  Option-cases, inl, inr,
}
use shin_vpn.Prelude.Utf8.{Text}
use shin_vpn.Prelude.Struct.{IsBytes}
use shin_vpn.Prelude.Base64.{b64encode, b64decode-b64encode, IsVisible, b64encode-IsVisible}
use shin_vpn.Prelude.Assoc.{lookup, lookup-insert}
use shin_vpn.Crypto.Primitives.{Primitives}
use shin_vpn.Tunnel.Domain.{lstrip, rstrip, is_space}
use shin_vpn.Crypto.Keys.{
  KeyPair, File, FileSystem, strip, private_b64, public_b64, write_text, chmod, owner_only,
  save_to_file, read_text, new_key_pair, from_private_bytes, from_private_b64, load_from_file,
}

text_eq_iff : (a b : Text) → (bytes_eq a b ≡ true) ↔ (a ≡ b)
text_eq_iff a b = (bytes_eq→eq a b, λ e. rw e (bytes_eq_refl b))

is_space_of_IsVisible : (c : ℕ) → IsVisible c → is_space c ≡ false
is_space_of_IsVisible c h = ground arith

lstrip_of_IsVisible : (t : Text) → All IsVisible t → lstrip is_space t ≡ t
unfolding lstrip
lstrip_of_IsVisible [] h = refl
lstrip_of_IsVisible (c ∷ t) h = rw (is_space_of_IsVisible c h.0)

strip_of_IsVisible : (t : Text) → All IsVisible t → strip t ≡ t
unfolding rstrip
strip_of_IsVisible t h =
    rw (lstrip_of_IsVisible t h, lstrip_of_IsVisible (reverse t) (All-reverse IsVisible t h))
      (reverse-reverse t)

-- The mode that a written file has.
unfoldable pub mode_written : ℕ → Text → FileSystem → ℕ
mode_written default_mode path fs = elim (lookup bytes_eq path fs) [
  | none ↦ default_mode
  | some file ↦ file.mode
]

lookup-write_text :
    (default_mode : ℕ) (path text j : Text) (fs : FileSystem)
    → lookup bytes_eq j (write_text default_mode path text fs) ≡ (
        if bytes_eq path j
        then some (record { text = text; mode = mode_written default_mode path fs })
        else lookup bytes_eq j fs)
unfolding write_text mode_written
lookup-write_text default_mode path text j fs = elim (Option-cases (lookup bytes_eq path fs)) [
  | inl e ↦ rw (e, write_text, mode_written) (lookup-insert bytes_eq text_eq_iff path j _ fs)
  | inr (file, e) ↦
      rw (e, write_text, mode_written) (lookup-insert bytes_eq text_eq_iff path j _ fs)
]

lookup-chmod :
    (mode : ℕ) (path : Text) (file : File) (fs : FileSystem)
    → lookup bytes_eq path fs ≡ some file
    → lookup bytes_eq path (chmod mode path fs) ≡ some (record { text = file.text; mode = mode })
unfolding chmod
lookup-chmod mode path file fs e =
    rw (e, chmod)
      (lookup-insert bytes_eq text_eq_iff path path (record { text = file.text; mode = mode }) fs
        ∙ rw (bytes_eq_refl path))

read_text_lem :
    (path : Text) (file : File) (fs : FileSystem)
    → lookup bytes_eq path fs ≡ some file
    → read_text path fs ≡ ok file.text
unfolding read_text
read_text_lem path file fs e = rw (e, read_text)

-- A key pair from the base64 form of its private key.
from_private_b64-b64encode :
    (P : Primitives) (private_key : Bytes)
    → IsBytes private_key
    → length private_key ≡ 32
    → from_private_b64 P (b64encode private_key)
      ≡ ok (record { private_key = private_key; public_key = P.public_key private_key })
unfolding from_private_b64 from_private_bytes new_key_pair
from_private_b64-b64encode P private_key is_bytes full = rw (
  strip_of_IsVisible (b64encode private_key) (b64encode-IsVisible private_key is_bytes),
  b64decode-b64encode private_key is_bytes,
  full,
)

-- Where the public key is written, if anywhere, is not where the private key is.
abbrev pub IsApart : Text → Option Text → Type 0
IsApart private_path none = Unit {0}
IsApart private_path (some path) = bytes_eq path private_path ≡ false

module _ (posix : Bool) (default_mode : ℕ) (kp : KeyPair) (private_path : Text) (fs : FileSystem)
    (is_bytes : IsBytes kp.private_key) where
  abbrev pub saved_file : File
  saved_file = record {
    text = b64encode kp.private_key;
    mode = if posix then owner_only else mode_written default_mode private_path fs;
  }

  private_b64-strip : strip (private_b64 kp) ≡ b64encode kp.private_key
  unfolding private_b64
  private_b64-strip =
      strip_of_IsVisible (b64encode kp.private_key) (b64encode-IsVisible kp.private_key is_bytes)

  after_chmod :
      (b : Bool) (d : FileSystem) (m : ℕ)
      → lookup bytes_eq private_path d ≡ some (record { text = b64encode kp.private_key; mode = m })
      → lookup bytes_eq private_path (if b then chmod owner_only private_path d else d)
        ≡ some (record { text = b64encode kp.private_key; mode = if b then owner_only else m })
  after_chmod true d m e = lookup-chmod owner_only private_path _ d e
  after_chmod false d m e = e

  lookup-save_to_file :
      (public_path : Option Text)
      → IsApart private_path public_path
      → lookup bytes_eq private_path
          (save_to_file posix default_mode kp private_path public_path fs)
        ≡ some saved_file
  unfolding save_to_file
  lookup-save_to_file none apart = after_chmod posix _ (mode_written default_mode private_path fs) (
      lookup-write_text default_mode private_path (strip (private_b64 kp)) private_path fs
      ∙ rw (bytes_eq_refl private_path, private_b64-strip))
  lookup-save_to_file (some path) apart =
      lookup-write_text default_mode path (strip (public_b64 kp)) private_path _
      ∙ rw apart (
          after_chmod posix _ (mode_written default_mode private_path fs) (
            lookup-write_text default_mode private_path (strip (private_b64 kp)) private_path fs
            ∙ rw (bytes_eq_refl private_path, private_b64-strip)))

  -- A key pair with a private key of 32 bytes and the public key that belongs to it, saved to a file
  -- and its public key to no file or to another one, is read back from that file as it was, and on
  -- a POSIX system the file can be read by its owner alone.
  pub load_from_file-save_to_file :
      (P : Primitives) (public_path : Option Text)
      → length kp.private_key ≡ 32
      → kp.public_key ≡ P.public_key kp.private_key
      → IsApart private_path public_path
      → let fs' = save_to_file posix default_mode kp private_path public_path fs in
        (load_from_file P private_path fs' ≡ ok kp)
        × (lookup bytes_eq private_path fs' ≡ some saved_file)
  unfolding load_from_file
  load_from_file-save_to_file P public_path full belongs apart =
      let there = lookup-save_to_file public_path apart in
      let fs' = save_to_file posix default_mode kp private_path public_path fs in
      (
        rw
            (
              read_text_lem private_path saved_file fs' there,
              strip_of_IsVisible (b64encode kp.private_key)
                  (b64encode-IsVisible kp.private_key is_bytes),
              from_private_b64-b64encode P kp.private_key is_bytes full,
            )
            (ap (λ k. ok (record { private_key = kp.private_key; public_key = k })) (sym belongs)),
        there,
      )
