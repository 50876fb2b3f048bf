-- ===== src/Prelude/Decimal.antt =====
-- Decimal octets and dotted quads: `str` and the parser of `ipaddress.IPv4Address`, `int` on plain
-- digits, and `str.split`.
use mathlib.Core.Path.{◌≡◌, refl, ap, ◌∙◌}
use mathlib.Core.Bool.{Bool, true, false, not, ◌&&◌, ◌||◌}
use mathlib.Core.List.{List, [], ◌∷◌, ◌++◌}
use Prim.Native.Nat.{ℕ, zero, suc, ◌+◌, ◌-◌, ◌*◌, ◌/◌, ◌%◌, ◌^◌, ◌<◌}
use native.Mathlib.Omega.{arith}
use shin_vpn.Prelude.Tests.{ltb, leb, ◌==◌, if◌then◌else◌, ==_iff}
use shin_vpn.Prelude.Lists.{length}
use shin_vpn.Prelude.Errors.{Result, ok, err, value_error, ◌>>=◌}
use shin_vpn.Prelude.Utf8.{Text}

-- t.split(d)
abbrev pub cons_head : ℕ → List Text → List Text
cons_head c [] = (c ∷ []) ∷ []
cons_head c (t ∷ ts) = (c ∷ t) ∷ ts

unfoldable pub split : ℕ → Text → List Text
split d [] = [] ∷ []
split d (c ∷ t) = let rest = split d t in if c == d then [] ∷ rest else cons_head c rest

-- str(n), below 1000.
unfoldable pub show_octet : ℕ → Text
show_octet n =
    if ltb n 10
    then (48 + n) ∷ []
    else if ltb n 100
    then (48 + n / 10) ∷ (48 + n % 10) ∷ []
    else (48 + n / 100) ∷ (48 + n / 10 % 10) ∷ (48 + n % 10) ∷ []

abbrev is_digit : ℕ → Bool
is_digit c = leb 48 c && ltb c 58

unfoldable pub digits_value : ℕ → Text → Result ℕ
digits_value acc [] = ok acc
digits_value acc (c ∷ t) =
    let rest = digits_value (acc * 10 + (c - 48)) t in if is_digit c then rest else err value_error

-- int(t), of a text of ASCII digits.
unfoldable pub int_of : Text → Result ℕ
unfolding digits_value
int_of [] = err value_error
int_of (c ∷ t) = digits_value 0 (c ∷ t)

-- An octet of IPv4Address: one to three digits, no leading zero, at most 255.
unfoldable pub parse_octet : Text → Result ℕ
unfolding digits_value
parse_octet [] = err value_error
parse_octet (c ∷ t) = digits_value 0 (c ∷ t) >>= λ v.
    if ltb 3 (length (c ∷ t))
    then err value_error
    else if c == 48 && not (length t == 0)
    then err value_error
    else if ltb 255 v
    then err value_error
    else ok v

abbrev quad_value : List Text → Result ℕ
quad_value (a ∷ b ∷ c ∷ d ∷ []) = do
  w ← parse_octet a
  x ← parse_octet b
  y ← parse_octet c
  z ← parse_octet d
  ok (w * 16777216 + x * 65536 + y * 256 + z)
quad_value ts = err value_error

-- ipaddress.IPv4Address(t), as a number.
unfoldable pub parse_ipv4 : Text → Result ℕ
unfolding split parse_octet
parse_ipv4 t = quad_value (split b'.' t)

-- f"{w}.{x}.{y}.{z}"
unfoldable pub dotted : ℕ → ℕ → ℕ → ℕ → Text
unfolding show_octet
dotted w x y z =
    show_octet w ++ (b'.' ∷ (show_octet x ++ (b'.' ∷ (show_octet y ++ (b'.' ∷ show_octet z)))))

-- str(ip)
unfoldable pub show_ipv4 : ℕ → Text
unfolding dotted
show_ipv4 a = dotted (a / 16777216) (a / 65536 % 256) (a / 256 % 256) (a % 256)

abbrev pub has_char : ℕ → Text → Bool
has_char d [] = false
has_char d (c ∷ t) = c == d || has_char d t

unfoldable pub holds_below : (ℕ → Bool) → ℕ → Bool
holds_below test zero = true
holds_below test (suc k) = holds_below test k && test k

pub holds_below-lt :
    (test : ℕ → Bool) (bound : ℕ) {k : ℕ}
    → k < bound
    → holds_below test bound ≡ true
    → test k ≡ true
unfolding holds_below
holds_below-lt test zero l table = absurd (omega arith)
holds_below-lt test (suc b) {k} l table = ground (arith, holds_below-lt test b {k = k})

abbrev is_ok : Result ℕ → ℕ → Bool
is_ok (ok v) n = v == n
is_ok (err e) n = false

is_ok→ok : (r : Result ℕ) (n : ℕ) → is_ok r n ≡ true → r ≡ ok n
is_ok→ok (ok v) n h = ap ok ((==_iff v n).0 h)
is_ok→ok (err e) n h = absurd (cc)

-- What holds of each of the 256 octets, by evaluation.
octet_reads : ℕ → Bool
unfolding show_octet parse_octet int_of
octet_reads n = is_ok (parse_octet (show_octet n)) n && is_ok (int_of (show_octet n)) n

octet_table : holds_below octet_reads 256 ≡ true
unfolding holds_below octet_reads
octet_table = refl

octet_undotted : holds_below (λ n. not (has_char b'.' (show_octet n))) 256 ≡ true
unfolding holds_below show_octet
octet_undotted = refl

pub parse_octet-show_octet : (n : ℕ) → n < 256 → parse_octet (show_octet n) ≡ ok n
parse_octet-show_octet n h =
    is_ok→ok _ n
      (unfold octet_reads in ground (arith, holds_below-lt octet_reads 256 h octet_table))

pub int_of-show_octet : (n : ℕ) → n < 256 → int_of (show_octet n) ≡ ok n
int_of-show_octet n h =
    is_ok→ok _ n
      (unfold octet_reads in ground (arith, holds_below-lt octet_reads 256 h octet_table))

no_dot : (n : ℕ) → n < 256 → has_char b'.' (show_octet n) ≡ false
no_dot n h =
    ground (arith, holds_below-lt (λ n. not (has_char b'.' (show_octet n))) 256 h octet_undotted)

pub split-last : (d : ℕ) (t : Text) → has_char d t ≡ false → split d t ≡ t ∷ []
unfolding split
split-last d [] h = refl
split-last d (c ∷ t) h = ground (arith, split-last d t)

pub split-append :
    (d : ℕ) (t r : Text) → has_char d t ≡ false → split d (t ++ (d ∷ r)) ≡ t ∷ split d r
unfolding split
split-append d [] r h = ground arith
split-append d (c ∷ t) r h = ground (arith, split-append d t r)

-- A dotted quad falls into its four octets.
pub split-dotted :
    (w x y z : ℕ)
    → w < 256
    → x < 256
    → y < 256
    → z < 256
    → split b'.' (dotted w x y z) ≡ show_octet w ∷ show_octet x ∷ show_octet y ∷ show_octet z ∷ []
unfolding dotted
split-dotted w x y z hw hx hy hz =
    split-append b'.' (show_octet w) _ (no_dot w hw)
    ∙ ap (◌∷◌ (show_octet w)) (
        split-append b'.' (show_octet x) _ (no_dot x hx)
        ∙ ap (◌∷◌ (show_octet x)) (
            split-append b'.' (show_octet y) _ (no_dot y hy)
            ∙ ap (◌∷◌ (show_octet y)) (split-last b'.' (show_octet z) (no_dot z hz))))

pub parse_ipv4-show_ipv4 : (a : ℕ) → a < 2 ^ 32 → parse_ipv4 (show_ipv4 a) ≡ ok a
unfolding parse_ipv4 show_ipv4
parse_ipv4-show_ipv4 a h =
    let w = a / 16777216 in
    let x = a / 65536 % 256 in
    let y = a / 256 % 256 in
    let z = a % 256 in
    let lw : w < 256 = omega arith in
    let lx : x < 256 = omega arith in
    let ly : y < 256 = omega arith in
    let lz : z < 256 = omega arith in
    rw
      (
        split-dotted w x y z lw lx ly lz,
        parse_octet-show_octet w lw,
        parse_octet-show_octet x lx,
        parse_octet-show_octet y ly,
        parse_octet-show_octet z lz,
      )
      (ap ok (omega arith))
