-- ===== src/Prelude/Search.antt =====
-- `startswith`, `find`, and `split` and `join` at "\r\n".
use mathlib.Core.Bool.{Bool, true, false, ◌&&◌}
use mathlib.Core.Option.{Option, none, some}
use mathlib.Core.List.{List, [], ◌∷◌, ◌++◌}
use Prim.Native.Nat.{ℕ, suc}
use shin_vpn.Prelude.Tests.{◌==◌, if◌then◌else◌}
use shin_vpn.Prelude.Utf8.{Text}
use shin_vpn.Prelude.Decimal.{cons_head}

-- t.startswith(prefix)
unfoldable pub starts_with : Text → Text → Bool
starts_with t [] = true
starts_with [] (p ∷ ps) = false
starts_with (c ∷ t) (p ∷ ps) = c == p && starts_with t ps

-- t.find(part), where it is there
unfoldable pub find : Text → Text → Option ℕ
unfolding starts_with
find part [] = if starts_with [] part then some 0 else none
find part (c ∷ t) =
    let later : Option ℕ = elim (find part t) [ none ↦ none | some i ↦ some (suc i) ] in
    if starts_with (c ∷ t) part then some 0 else later

-- t.split("\r\n")
unfoldable pub split_lines : Text → List Text
split_lines [] = [] ∷ []
split_lines (c ∷ []) = (c ∷ []) ∷ []
split_lines (c ∷ d ∷ t) =
    let line_end = [] ∷ split_lines t in
    let more = cons_head c (split_lines (d ∷ t)) in if c == 13 && d == 10 then line_end else more

-- "\r\n".join(lines)
unfoldable pub join_lines : List Text → Text
join_lines [] = []
join_lines (l ∷ []) = l
join_lines (l ∷ k ∷ ls) = l ++ (13 ∷ 10 ∷ join_lines (k ∷ ls))

-- t.split(d, 1), where `d` is there
unfoldable pub split_once : ℕ → Text → Option (Text × Text)
split_once d [] = none
split_once d (c ∷ t) =
    let later : Option (Text × Text) = elim (split_once d t) [
      | none ↦ none
      | some (l, r) ↦ some (c ∷ l, r)
    ] in
    if c == d then some ([], t) else later
