-- ===== src/Prelude/Base64.antt =====
-- `base64.b64encode` and `base64.b64decode` of a text, which leaves out what is not of the alphabet.
use mathlib.Core.Path.{◌≡◌, refl, ap}
use mathlib.Core.Bool.{Bool, true, false, not, ◌&&◌}
use mathlib.Core.Option.{Option, none, some}
use mathlib.Core.List.{[], ◌∷◌, ◌++◌}
use Prim.Native.Nat.{ℕ, ◌+◌, ◌-◌, ◌*◌, ◌/◌, ◌%◌, ◌<◌}
use native.Mathlib.Omega.{arith}
use shin_vpn.Prelude.Tests.{ltb, leb, ◌==◌, if◌then◌else◌, ==_iff}
use shin_vpn.Prelude.Lists.{Bytes, All}
use shin_vpn.Prelude.Errors.{Result, ok, err, value_error}
use shin_vpn.Prelude.Utf8.{Text}
use shin_vpn.Prelude.Struct.{IsBytes}
use shin_vpn.Prelude.Decimal.{holds_below, holds_below-lt}

unfoldable pub symbol : ℕ → ℕ
symbol n =
    if ltb n 26
    then 65 + n
    else if ltb n 52
    then 71 + n
    else if ltb n 62
    then n - 4
    else if n == 62
    then 43
    else 47

unfoldable pub sextet : ℕ → Option ℕ
sextet c =
    if leb 65 c && leb c 90
    then some (c - 65)
    else if leb 97 c && leb c 122
    then some (c - 71)
    else if leb 48 c && leb c 57
    then some (c + 4)
    else if c == 43
    then some 62
    else if c == 47
    then some 63
    else none

unfoldable pub b64encode : Bytes → Text
b64encode [] = []
b64encode (a ∷ []) = symbol (a / 4) ∷ symbol (a % 4 * 16) ∷ 61 ∷ 61 ∷ []
b64encode (a ∷ b ∷ []) =
    symbol (a / 4) ∷ symbol (a % 4 * 16 + b / 16) ∷ symbol (b % 16 * 4) ∷ 61 ∷ []
b64encode (a ∷ b ∷ c ∷ bs) =
    symbol (a / 4)
    ∷ symbol (a % 4 * 16 + b / 16)
    ∷ symbol (b % 16 * 4 + c / 64)
    ∷ symbol (c % 64)
    ∷ b64encode bs

-- The decoder: the place in a group of four, the bits left over, and the padding seen.
pub record Decoder : Type 0 where
  pub quad_pos : ℕ
  pub leftchar : ℕ
  pub pads : ℕ

-- What a sextet completes.
unfoldable pub emitted : Decoder → ℕ → Bytes
emitted d v =
    if d.quad_pos == 0
    then []
    else if d.quad_pos == 1
    then (d.leftchar * 4 + v / 16) ∷ []
    else if d.quad_pos == 2
    then (d.leftchar * 16 + v / 4) ∷ []
    else (d.leftchar * 64 + v) ∷ []

unfoldable pub after_sextet : Decoder → ℕ → Decoder
after_sextet d v =
    if d.quad_pos == 0
    then record { quad_pos = 1; leftchar = v; pads = 0 }
    else if d.quad_pos == 1
    then record { quad_pos = 2; leftchar = v % 16; pads = 0 }
    else if d.quad_pos == 2
    then record { quad_pos = 3; leftchar = v % 4; pads = 0 }
    else record { quad_pos = 0; leftchar = 0; pads = 0 }

abbrev is_pad : ℕ → Bool
is_pad c = c == 61

-- The padding that completes a group ends the text.
unfoldable pub ends : Decoder → ℕ → Bool
ends d c = is_pad c && leb 2 d.quad_pos && leb 4 (d.quad_pos + d.pads + 1)

unfoldable pub after_char : Decoder → ℕ → Decoder × Bytes
unfolding emitted after_sextet
after_char d c =
    if is_pad c
    then (if leb 2 d.quad_pos then record d { pads = d.pads + 1 } else d, [])
    else elim (sextet c) [ none ↦ (d, []) | some v ↦ (after_sextet d v, emitted d v) ]

abbrev prepend : Bytes → Result Bytes → Result Bytes
prepend xs (ok bs) = ok (xs ++ bs)
prepend xs (err e) = err e

unfoldable pub decode_from : Decoder → Text → Result Bytes
unfolding ends after_char
decode_from d [] = if d.quad_pos == 0 then ok [] else err value_error
decode_from d (c ∷ t) =
    let next = after_char d c in
    let rest = decode_from next.0 t in if ends d c then ok [] else prepend next.1 rest

unfoldable pub is_ascii : Text → Bool
is_ascii [] = true
is_ascii (c ∷ t) = ltb c 128 && is_ascii t

unfoldable pub b64decode : Text → Result Bytes
unfolding decode_from is_ascii
b64decode t =
    if is_ascii t
    then decode_from (record { quad_pos = 0; leftchar = 0; pads = 0 }) t
    else err value_error

-- The 64 symbols, by evaluation.
abbrev is_some_of : Option ℕ → ℕ → Bool
is_some_of none n = false
is_some_of (some v) n = v == n

is_some_of→eq : (o : Option ℕ) (n : ℕ) → is_some_of o n ≡ true → o ≡ some n
is_some_of→eq none n h = absurd (cc)
is_some_of→eq (some v) n h = ap some ((==_iff v n).0 h)

symbol_reads : ℕ → Bool
unfolding symbol sextet
symbol_reads n = is_some_of (sextet (symbol n)) n && not (symbol n == 61)

symbol_table : holds_below symbol_reads 64 ≡ true
unfolding holds_below symbol_reads
symbol_table = refl

both_true : (a b : Bool) → (a && b) ≡ true → (a ≡ true) × (b ≡ true)
both_true true b h = (refl, h)
both_true false b h = absurd (cc)

not-true : (b : Bool) → not b ≡ true → b ≡ false
not-true true h = absurd (cc)
not-true false h = refl

module _ (n : ℕ) (small : n < 64) where
  symbol_read : (sextet (symbol n) ≡ some n) × ((symbol n == 61) ≡ false)
  unfolding symbol_reads
  symbol_read =
      let (known, plain) = both_true _ _ (holds_below-lt symbol_reads 64 small symbol_table) in
      (is_some_of→eq (sextet (symbol n)) n known, not-true (symbol n == 61) plain)

  -- A symbol in the decoder.
  decode_from-symbol :
      (d : Decoder) (t : Text)
      → decode_from d (symbol n ∷ t) ≡ prepend (emitted d n) (decode_from (after_sextet d n) t)
  unfolding decode_from ends after_char
  decode_from-symbol d t = rw (symbol_read.1, symbol_read.0, decode_from, ends, after_char)

abbrev fresh : Decoder
fresh = record { quad_pos = 0; leftchar = 0; pads = 0 }

prepend-nil : (r : Result Bytes) → prepend [] r ≡ r
prepend-nil (ok bs) = refl
prepend-nil (err e) = refl

-- The first two symbols of a group.
two_symbols :
    (a v : ℕ) (t : Text)
    → a < 256
    → v < 64
    → v / 16 ≡ a % 4
    → decode_from fresh (symbol (a / 4) ∷ symbol v ∷ t)
      ≡ prepend (a ∷ []) (decode_from (record { quad_pos = 2; leftchar = v % 16; pads = 0 }) t)
unfolding emitted after_sextet
two_symbols a v t ha hv e =
    let whole : a / 4 * 4 + v / 16 ≡ a = omega arith in
    rw
      (
        decode_from-symbol (a / 4) (omega arith) fresh (symbol v ∷ t),
        decode_from-symbol v hv (record { quad_pos = 1; leftchar = a / 4; pads = 0 }) t,
        whole,
      )
      (prepend-nil _)

third_symbol :
    (b v : ℕ) (t : Text)
    → v < 64
    → b < 256
    → v / 4 ≡ b % 16
    → decode_from (record { quad_pos = 2; leftchar = b / 16; pads = 0 }) (symbol v ∷ t)
      ≡ prepend (b ∷ []) (decode_from (record { quad_pos = 3; leftchar = v % 4; pads = 0 }) t)
unfolding emitted after_sextet
third_symbol b v t hv hb e =
    let whole : b / 16 * 16 + v / 4 ≡ b = omega arith in
    rw (decode_from-symbol v hv (record { quad_pos = 2; leftchar = b / 16; pads = 0 }) t, whole)

fourth_symbol :
    (c : ℕ) (t : Text)
    → c < 256
    → decode_from (record { quad_pos = 3; leftchar = c / 64; pads = 0 }) (symbol (c % 64) ∷ t)
      ≡ prepend (c ∷ []) (decode_from fresh t)
unfolding emitted after_sextet
fourth_symbol c t hc =
    let whole : c / 64 * 64 + c % 64 ≡ c = omega arith in
    rw (
      decode_from-symbol (c % 64) (omega arith)
          (record { quad_pos = 3; leftchar = c / 64; pads = 0 }) t,
      whole,
    )

decode_from-b64encode : (bs : Bytes) → IsBytes bs → decode_from fresh (b64encode bs) ≡ ok bs
unfolding b64encode
decode_from-b64encode [] h = unfold decode_from in refl
decode_from-b64encode (a ∷ []) h =
    rw (two_symbols a (a % 4 * 16) (61 ∷ 61 ∷ []) h.0 (omega arith) (omega arith))
      (unfold decode_from after_char ends in refl)
decode_from-b64encode (a ∷ b ∷ []) (ha, (hb, u)) =
    let left : (a % 4 * 16 + b / 16) % 16 ≡ b / 16 = omega arith in
    rw
      (
        two_symbols a (a % 4 * 16 + b / 16) (symbol (b % 16 * 4) ∷ 61 ∷ []) ha (omega arith)
            (omega arith),
        left,
        third_symbol b (b % 16 * 4) (61 ∷ []) (omega arith) hb (omega arith),
      )
      (unfold decode_from after_char ends in refl)
decode_from-b64encode (a ∷ b ∷ c ∷ bs) (ha, (hb, (hc, hs))) =
    let left : (a % 4 * 16 + b / 16) % 16 ≡ b / 16 = omega arith in
    let left' : (b % 16 * 4 + c / 64) % 4 ≡ c / 64 = omega arith in
    rw
      (
        two_symbols a (a % 4 * 16 + b / 16) _ ha (omega arith) (omega arith),
        left,
        third_symbol b (b % 16 * 4 + c / 64) _ (omega arith) hb (omega arith),
        left',
        fourth_symbol c (b64encode bs) hc,
        decode_from-b64encode bs hs,
      )
      refl

-- What `strip` leaves and what is ASCII.
abbrev pub IsVisible : ℕ → Type 0
IsVisible c = (32 < c) × (c < 127)

symbol-IsVisible : (n : ℕ) → n < 64 → IsVisible (symbol n)
unfolding symbol
symbol-IsVisible n h = ground arith

pub b64encode-IsVisible : (bs : Bytes) → IsBytes bs → All IsVisible (b64encode bs)
unfolding b64encode
b64encode-IsVisible [] h = tt
b64encode-IsVisible (a ∷ []) h = (
  symbol-IsVisible (a / 4) (omega arith),
  (symbol-IsVisible (a % 4 * 16) (omega arith), (omega arith, (omega arith, (tt)))),
)
b64encode-IsVisible (a ∷ b ∷ []) (ha, (hb, u)) = (
  symbol-IsVisible (a / 4) (omega arith),
  (
    symbol-IsVisible (a % 4 * 16 + b / 16) (omega arith),
    (symbol-IsVisible (b % 16 * 4) (omega arith), (omega arith, (tt))),
  ),
)
b64encode-IsVisible (a ∷ b ∷ c ∷ bs) (ha, (hb, (hc, hs))) = (
  symbol-IsVisible (a / 4) (omega arith),
  (
    symbol-IsVisible (a % 4 * 16 + b / 16) (omega arith),
    (
      symbol-IsVisible (b % 16 * 4 + c / 64) (omega arith),
      (symbol-IsVisible (c % 64) (omega arith), (b64encode-IsVisible bs hs)),
    ),
  ),
)

is_ascii_of_IsVisible : (t : Text) → All IsVisible t → is_ascii t ≡ true
unfolding is_ascii
is_ascii_of_IsVisible [] h = refl
is_ascii_of_IsVisible (c ∷ t) h = ground (arith, is_ascii_of_IsVisible t)

-- What was encoded is decoded to itself.
pub b64decode-b64encode : (bs : Bytes) → IsBytes bs → b64decode (b64encode bs) ≡ ok bs
unfolding b64decode
b64decode-b64encode bs h =
    rw (is_ascii_of_IsVisible (b64encode bs) (b64encode-IsVisible bs h), b64decode)
      (decode_from-b64encode bs h)
