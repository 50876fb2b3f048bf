-- ===== src/Prelude/Utf8.antt =====
-- The UTF-8 codec of Python's `str.encode` and `bytes.decode`, strict and with errors="replace".
-- A `str` is the list of its code points.
use Prim.Native.Char.{code}
use Prim.Native.String.{String}
use mathlib.Core.Path.{◌≡◌, refl, ap, ◌∙◌}
use mathlib.Core.Bool.{Bool, false, ◌&&◌}
use mathlib.Core.List.{List, [], ◌∷◌, ◌++◌}
use Prim.Native.Nat.{ℕ, zero, suc, ◌+◌, ◌-◌, ◌*◌, ◌/◌, ◌%◌, ◌≤◌, ◌<◌}
use native.Mathlib.Omega.{arith}
use shin_vpn.Prelude.Tests.{ltb, leb, ◌==◌, if◌then◌else◌}
use shin_vpn.Prelude.Lists.{Bytes, length, length-append}
use shin_vpn.Prelude.Errors.{Result, ok, err, unicode_error, ◌>>=◌, >>=-eq-ok}

abbrev pub Text : Type 0
Text = List ℕ

-- An ASCII literal.
abbrev pub codes : String → Text
codes String.[] = []
codes (String.◌∷◌ c s) = code c ∷ codes s

-- A surrogate has no encoding.
unfoldable pub encode_one : ℕ → Result Bytes
encode_one c =
    if ltb c 0x80
    then ok (c ∷ [])
    else if ltb c 0x800
    then ok ((0xc0 + c / 64) ∷ (0x80 + c % 64) ∷ [])
    else if leb 0xd800 c && ltb c 0xe000
    then err unicode_error
    else if ltb c 0x10000
    then ok ((0xe0 + c / 4096) ∷ (0x80 + c / 64 % 64) ∷ (0x80 + c % 64) ∷ [])
    else if ltb c 0x110000
    then ok
        ((0xf0 + c / 262144) ∷ (0x80 + c / 4096 % 64) ∷ (0x80 + c / 64 % 64) ∷ (0x80 + c % 64) ∷ [])
    else err unicode_error

unfoldable pub encode : Text → Result Bytes
encode [] = ok []
encode (c ∷ t) = do b ← encode_one c; rest ← encode t; ok (b ++ rest)

-- One step of the decoder: the end, a character, or a malformed piece, with what follows it.
pub data Decoded : Type 0 where
  end : Decoded
  char : ℕ → Bytes → Decoded
  bad : Bytes → Decoded

abbrev is_cont : ℕ → Bool
is_cont b = leb 0x80 b && ltb b 0xc0

-- The second byte after a lead byte: no overlong form, no surrogate, nothing past U+10FFFF.
abbrev second_ok : ℕ → ℕ → Bool
second_ok b0 b1 =
    if b0 == 0xe0
    then leb 0xa0 b1 && ltb b1 0xc0
    else if b0 == 0xed
    then leb 0x80 b1 && ltb b1 0xa0
    else if b0 == 0xf0
    then leb 0x90 b1 && ltb b1 0xc0
    else if b0 == 0xf4
    then leb 0x80 b1 && ltb b1 0x90
    else is_cont b1

decode_two : ℕ → Bytes → Decoded
decode_two b0 [] = bad []
decode_two b0 (b1 ∷ r) =
    if is_cont b1 then char ((b0 - 0xc0) * 64 + (b1 - 0x80)) r else bad (b1 ∷ r)

decode_three : ℕ → Bytes → Decoded
decode_three b0 [] = bad []
decode_three b0 (b1 ∷ []) = if second_ok b0 b1 then bad [] else bad (b1 ∷ [])
decode_three b0 (b1 ∷ b2 ∷ r) =
    if second_ok b0 b1
    then if is_cont b2
      then char ((b0 - 0xe0) * 4096 + (b1 - 0x80) * 64 + (b2 - 0x80)) r
      else bad (b2 ∷ r)
    else bad (b1 ∷ b2 ∷ r)

decode_four : ℕ → Bytes → Decoded
decode_four b0 [] = bad []
decode_four b0 (b1 ∷ []) = if second_ok b0 b1 then bad [] else bad (b1 ∷ [])
decode_four b0 (b1 ∷ b2 ∷ []) =
    if second_ok b0 b1 then if is_cont b2 then bad [] else bad (b2 ∷ []) else bad (b1 ∷ b2 ∷ [])
decode_four b0 (b1 ∷ b2 ∷ b3 ∷ r) =
    if second_ok b0 b1
    then if is_cont b2
      then if is_cont b3
        then char ((b0 - 0xf0) * 262144 + (b1 - 0x80) * 4096 + (b2 - 0x80) * 64 + (b3 - 0x80)) r
        else bad (b3 ∷ r)
      else bad (b2 ∷ b3 ∷ r)
    else bad (b1 ∷ b2 ∷ b3 ∷ r)

decode_one : Bytes → Decoded
unfolding decode_two decode_three decode_four
decode_one [] = end
decode_one (b0 ∷ r) =
    if ltb b0 0x80
    then char b0 r
    else if ltb b0 0xc2
    then bad r
    else if ltb b0 0xe0
    then decode_two b0 r
    else if ltb b0 0xf0
    then decode_three b0 r
    else if ltb b0 0xf5
    then decode_four b0 r
    else bad r

-- Each step takes a byte at least, so the length is fuel enough.
decode_steps : ℕ → Bytes → Result Text
unfolding decode_one
decode_steps zero bs = ok []
decode_steps (suc f) bs = elim (decode_one bs) [
  | end ↦ ok []
  | char c r ↦ decode_steps f r >>= λ t. ok (c ∷ t)
  | bad r ↦ err unicode_error
]

replace_steps : ℕ → Bytes → Text
unfolding decode_one
replace_steps zero bs = []
replace_steps (suc f) bs = elim (decode_one bs) [
  | end ↦ []
  | char c r ↦ c ∷ replace_steps f r
  | bad r ↦ 0xfffd ∷ replace_steps f r
]

unfoldable pub decode : Bytes → Result Text
unfolding decode_steps
decode bs = decode_steps (length bs) bs

unfoldable pub decode_replace : Bytes → Text
unfolding replace_steps
decode_replace bs = replace_steps (length bs) bs

module _ (c : ℕ) (r : Bytes) where
  decode_one-ascii : c < 0x80 → decode_one (c ∷ r) ≡ char c r
  unfolding decode_one
  decode_one-ascii h = ground arith

  decode_one-two :
      0x80 ≤ c → c < 0x800 → decode_one ((0xc0 + c / 64) ∷ (0x80 + c % 64) ∷ r) ≡ char c r
  unfolding decode_one
  decode_one-two h g = ground arith

  decode_one-three :
      0x800 ≤ c
      → c < 0x10000
      → (leb 0xd800 c && ltb c 0xe000) ≡ false
      → decode_one ((0xe0 + c / 4096) ∷ (0x80 + c / 64 % 64) ∷ (0x80 + c % 64) ∷ r) ≡ char c r
  unfolding decode_one
  decode_one-three h g e = ground arith

  decode_one-four :
      0x10000 ≤ c
      → c < 0x110000
      → decode_one (
          (0xf0 + c / 262144) ∷ (0x80 + c / 4096 % 64) ∷ (0x80 + c / 64 % 64) ∷ (0x80 + c % 64) ∷ r)
        ≡ char c r
  unfolding decode_one
  decode_one-four h g = ground arith

  decode_one-encode_one : (b : Bytes) → encode_one c ≡ ok b → decode_one (b ++ r) ≡ char c r
  unfolding encode_one
  decode_one-encode_one b h =
      ground (arith, decode_one-ascii, decode_one-two, decode_one-three, decode_one-four)

encode_one-nonempty : (c : ℕ) (b : Bytes) → encode_one c ≡ ok b → 0 < length b
unfolding encode_one
encode_one-nonempty c b h = ground arith

-- The bytes of a text: those of its first character, then the rest.
encode-cons :
    (c : ℕ) (t : Text) (bs : Bytes)
    → encode (c ∷ t) ≡ ok bs
    → (b : Bytes) × (rest : Bytes) × (encode_one c ≡ ok b) × (encode t ≡ ok rest) × (bs ≡ b ++ rest)
unfolding encode
encode-cons c t bs h =
    let (b, first, h') = >>=-eq-ok (encode_one c) (λ b. encode t >>= λ rest. ok (b ++ rest)) h in
    let (rest, others, h'') = >>=-eq-ok (encode t) (λ rest. ok (b ++ rest)) h' in
    (b, rest, first, others, cc)

encode-nil : (bs : Bytes) → encode [] ≡ ok bs → bs ≡ []
unfolding encode
encode-nil bs h = cc

module _ (f c : ℕ) (bs r : Bytes) (e : decode_one bs ≡ char c r) where
  decode_steps-char : decode_steps (suc f) bs ≡ (decode_steps f r >>= λ t. ok (c ∷ t))
  unfolding decode_steps
  decode_steps-char = rw (e, decode_steps)

  replace_steps-char : replace_steps (suc f) bs ≡ c ∷ replace_steps f r
  unfolding replace_steps
  replace_steps-char = rw (e, replace_steps)

decode_steps-nil : (f : ℕ) → decode_steps f [] ≡ ok []
unfolding decode_steps
decode_steps-nil zero = refl
decode_steps-nil (suc f) = refl

replace_steps-nil : (f : ℕ) → replace_steps f [] ≡ []
unfolding replace_steps
replace_steps-nil zero = refl
replace_steps-nil (suc f) = refl

rest-fits :
    (f c : ℕ) (b rest : Bytes) → encode_one c ≡ ok b → length (b ++ rest) ≤ suc f → length rest ≤ f
rest-fits f c b rest first g = omega (arith, length-append b rest, encode_one-nonempty c b first)

both_steps-encode :
    (f : ℕ) (t : Text) (bs : Bytes)
    → encode t ≡ ok bs
    → length bs ≤ f
    → (decode_steps f bs ≡ ok t) × (replace_steps f bs ≡ t)
both_steps-encode f [] bs h g = rw (encode-nil bs h) (decode_steps-nil f, replace_steps-nil f)
both_steps-encode zero (c ∷ t) bs h g =
    let (b, rest, first, others, e) = encode-cons c t bs h in
    absurd (omega (arith, ap length e, length-append b rest, encode_one-nonempty c b first))
both_steps-encode (suc f) (c ∷ t) bs h g =
    let (b, rest, first, others, e) = encode-cons c t bs h in
    let shorter = rest-fits f c b rest first (omega (arith, ap length e)) in
    let step : decode_one bs ≡ char c rest =
      ap decode_one e ∙ decode_one-encode_one c rest b first in
    let (strict, replaced) = both_steps-encode f t rest others shorter in
    (
      rw (decode_steps-char f c bs rest step, strict),
      rw (replace_steps-char f c bs rest step, replaced),
    )

-- What `encode` wrote, both decoders read back.
pub decode-encode : (t : Text) (bs : Bytes) → encode t ≡ ok bs → decode bs ≡ ok t
unfolding decode
decode-encode t bs h = (both_steps-encode (length bs) t bs h (omega arith)).0

pub decode_replace-encode : (t : Text) (bs : Bytes) → encode t ≡ ok bs → decode_replace bs ≡ t
unfolding decode_replace
decode_replace-encode t bs h = (both_steps-encode (length bs) t bs h (omega arith)).1
