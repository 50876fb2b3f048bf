-- ===== src/Prelude/Int.antt =====
-- Python's `int`, `int(text)` and `str(int)`. White space and digits are those of ASCII.
use mathlib.Core.Bool.{Bool, ◌&&◌, ◌||◌}
use mathlib.Core.List.{[], ◌∷◌, ◌++◌, reverse}
use Prim.Native.Nat.{ℕ, zero, suc, ◌+◌, ◌-◌, ◌*◌, ◌/◌, ◌%◌}
use shin_vpn.Prelude.Tests.{ltb, leb, ◌==◌, if◌then◌else◌}
use shin_vpn.Prelude.Errors.{Result, ok, err, value_error, ◌>>=◌}
use shin_vpn.Prelude.Utf8.{Text}

-- `negsuc n` is -(n + 1).
pub data ℤ : Type 0 where
  pos : ℕ → ℤ
  negsuc : ℕ → ℤ

-- str(n): a number has fewer digits than it counts, so it is fuel enough for its own.
unfoldable pub decimal_digits : ℕ → ℕ → Text
decimal_digits zero n = (48 + n % 10) ∷ []
decimal_digits (suc left) n =
    let more = decimal_digits left (n / 10) ++ ((48 + n % 10) ∷ []) in
    if ltb n 10 then (48 + n) ∷ [] else more

unfoldable pub show_nat : ℕ → Text
unfolding decimal_digits
show_nat n = decimal_digits n n

-- str(k)
unfoldable pub show_int : ℤ → Text
show_int (pos n) = show_nat n
show_int (negsuc n) = b'-' ∷ show_nat (n + 1)

unfoldable pub negate : ℕ → ℤ
negate n = if n == 0 then pos 0 else negsuc (n - 1)

abbrev is_blank : ℕ → Bool
is_blank c = c == 32 || (leb 9 c && leb c 13) || (leb 28 c && leb c 31)

skip_blanks : Text → Text
skip_blanks [] = []
skip_blanks (c ∷ t) = let rest = skip_blanks t in if is_blank c then rest else c ∷ t

-- The digits after the first, an underscore allowed between two of them.
unfoldable pub more_digits : ℕ → ℕ → Text → Result (ℕ × ℕ)
more_digits acc count [] = ok (acc, count)
more_digits acc count (c ∷ []) =
    if leb 48 c && ltb c 58 then ok (acc * 10 + (c - 48), count + 1) else err value_error
more_digits acc count (c ∷ d ∷ t) =
    let plain = more_digits (acc * 10 + (c - 48)) (count + 1) (d ∷ t) in
    let spaced = more_digits (acc * 10 + (d - 48)) (count + 1) t in
    if leb 48 c && ltb c 58
    then plain
    else if c == b'_' && (leb 48 d && ltb d 58)
    then spaced
    else err value_error

-- An unsigned number; more than 4300 digits are refused.
unfoldable pub magnitude : Text → Result ℕ
unfolding more_digits
magnitude [] = err value_error
magnitude (c ∷ t) =
    if leb 48 c && ltb c 58
    then (more_digits (c - 48) 1 t >>= λ r. if ltb 4300 r.1 then err value_error else ok r.0)
    else err value_error

signed : Text → Result ℤ
unfolding magnitude
signed [] = err value_error
signed (c ∷ t) =
    if c == b'-'
    then (magnitude t >>= λ n. ok (negate n))
    else if c == b'+'
    then (magnitude t >>= λ n. ok (pos n))
    else (magnitude (c ∷ t) >>= λ n. ok (pos n))

-- int(t)
unfoldable pub int_text : Text → Result ℤ
unfolding skip_blanks signed
int_text t = signed (reverse (skip_blanks (reverse (skip_blanks t))))
