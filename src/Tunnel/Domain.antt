-- ===== src/Tunnel/Domain.antt =====
-- What shinvpn/tunnel/adblock.py does to the text of a domain. The methods of `str` are those of
-- ASCII text, which domain names are.
use shin_vpn.Prelude.{
  ℕ, ◌+◌, List, [], ◌∷◌, ◌++◌, Bool, false, ◌&&◌, ◌||◌, ◌==◌, leb, if◌then◌else◌, reverse, bytes_eq,
  length, drop, ltb, ◌-◌,
}
use shin_vpn.Prelude.Utf8.{Text}
use shin_vpn.Prelude.Decimal.{split}

-- The characters that strip() takes off.
abbrev pub is_space : ℕ → Bool
is_space c = c == 32 || (leb 9 c && leb c 13) || (leb 28 c && leb c 31)

abbrev pub lower_char : ℕ → ℕ
lower_char c = if leb 65 c && leb c 90 then c + 32 else c

unfoldable pub lower : Text → Text
lower [] = []
lower (c ∷ t) = lower_char c ∷ lower t

unfoldable pub lstrip : (ℕ → Bool) → Text → Text
lstrip drops [] = []
lstrip drops (c ∷ t) = let rest = lstrip drops t in if drops c then rest else c ∷ t

unfoldable pub rstrip : (ℕ → Bool) → Text → Text
rstrip drops t = reverse (lstrip drops (reverse t))

-- domain.strip().lower().rstrip(".")
unfoldable pub clean : Text → Text
clean domain = rstrip (λ c. c == b'.') (lower (rstrip is_space (lstrip is_space domain)))

-- ".".join(labels)
unfoldable pub join : List Text → Text
join [] = []
join (l ∷ []) = l
join (l ∷ k ∷ ls) = l ++ (b'.' ∷ join (k ∷ ls))

abbrev pub labels : Text → List Text
labels = split b'.'

-- domain.endswith(suffix)
unfoldable pub endswith : Text → Text → Bool
endswith t suffix =
    if ltb (length t) (length suffix)
    then false
    else bytes_eq (drop (length t - length suffix) t) suffix
