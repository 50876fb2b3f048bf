-- ===== src/Prelude/Inet.antt =====
-- `socket.inet_ntoa`, and `socket.inet_ntop(AF_INET6, ...)` as the C library writes it: the first
-- longest run of two or more zero words is cut out, and an address that embeds an IPv4 address
-- shows it with dots.
use mathlib.Core.Bool.{◌&&◌}
use mathlib.Core.List.{List, [], ◌∷◌, ◌++◌}
use Prim.Native.Nat.{ℕ, suc, ◌+◌, ◌*◌, ◌/◌, ◌%◌}
use shin_vpn.Prelude.Tests.{ltb, ◌==◌, if◌then◌else◌}
use shin_vpn.Prelude.Lists.{Bytes, take, drop}
use shin_vpn.Prelude.Errors.{Result, ok, err, value_error}
use shin_vpn.Prelude.Utf8.{Text}
use shin_vpn.Prelude.Decimal.{dotted}

unfoldable pub inet_ntoa : Bytes → Result Text
inet_ntoa (w ∷ x ∷ y ∷ z ∷ []) = ok (dotted w x y z)
inet_ntoa bs = err value_error

unfoldable pub hex_digit : ℕ → ℕ
hex_digit n = if ltb n 10 then 48 + n else 87 + n

-- "%x" of a 16-bit word
unfoldable pub hex_word : ℕ → Text
unfolding hex_digit
hex_word n =
    if ltb n 16
    then hex_digit n ∷ []
    else if ltb n 256
    then hex_digit (n / 16) ∷ hex_digit (n % 16) ∷ []
    else if ltb n 4096
    then hex_digit (n / 256) ∷ hex_digit (n / 16 % 16) ∷ hex_digit (n % 16) ∷ []
    else hex_digit (n / 4096)
      ∷ hex_digit (n / 256 % 16)
      ∷ hex_digit (n / 16 % 16)
      ∷ hex_digit (n % 16)
      ∷ []

unfoldable pub words : Bytes → List ℕ
words [] = []
words (b ∷ []) = []
words (b ∷ c ∷ bs) = (b * 256 + c) ∷ words bs

unfoldable pub zeros : List ℕ → ℕ
zeros [] = 0
zeros (w ∷ ws) = let more = suc (zeros ws) in if w == 0 then more else 0

-- The place and the length of the first longest run, from place `i` on.
unfoldable pub longest_run : ℕ → List ℕ → ℕ × ℕ → ℕ × ℕ
unfolding zeros
longest_run i [] best = best
longest_run i (w ∷ ws) best =
    longest_run (i + 1) ws (if ltb best.1 (zeros (w ∷ ws)) then (i, zeros (w ∷ ws)) else best)

unfoldable pub colons : List ℕ → Text
unfolding hex_word
colons [] = []
colons (w ∷ []) = hex_word w
colons (w ∷ v ∷ ws) = hex_word w ++ (b':' ∷ colons (v ∷ ws))

abbrev first_word : List ℕ → ℕ
first_word [] = 0
first_word (w ∷ ws) = w

abbrev last_quad : Bytes → Text
last_quad (w ∷ x ∷ y ∷ z ∷ []) = dotted w x y z
last_quad bs = []

unfoldable pub inet_ntop6 : Bytes → Text
unfolding words longest_run colons
inet_ntop6 bs =
    let ws = words bs in
    let run = longest_run 0 ws (0, 0) in
    if ltb run.1 2
    then colons ws
    else if run.0 == 0 && run.1 == 6
    then b':' ∷ b':' ∷ last_quad (drop 12 bs)
    else if run.0 == 0 && run.1 == 5 && first_word (drop 5 ws) == 0xffff
    then b':' ∷ b':' ∷ b'f' ∷ b'f' ∷ b'f' ∷ b'f' ∷ b':' ∷ last_quad (drop 12 bs)
    else colons (take run.0 ws) ++ (b':' ∷ b':' ∷ colons (drop (run.0 + run.1) ws))
