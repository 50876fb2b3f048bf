-- ===== src/Prelude/Stream.antt =====
-- `asyncio.StreamReader`: all that the peer sends until it closes, or resets, the connection.
-- `readexactly` and `readuntil` depend on nothing else; how much of it `read` returns depends on
-- what is there, from one byte up.
use mathlib.Core.Option.{none, some}
use mathlib.Core.List.{[]}
use Prim.Native.Nat.{ℕ, ◌+◌, ◌-◌, min, max}
use shin_vpn.Prelude.Tests.{ltb, leb, if◌then◌else◌}
use shin_vpn.Prelude.Lists.{Bytes, length, take, drop}
use shin_vpn.Prelude.Errors.{ok, err, incomplete_read, limit_overrun}
use shin_vpn.Prelude.Exec.{Exec}
use shin_vpn.Prelude.Search.{find}

-- At the end, `readexactly` takes what is left, and raises.
unfoldable pub readexactly : ℕ → Exec Bytes Bytes
readexactly n content =
    if leb n (length content)
    then (drop n content, ok (take n content))
    else ([], err incomplete_read)

abbrev pub stream_limit : ℕ
stream_limit = 65536

-- The separator must begin within the limit.
unfoldable pub readuntil : Bytes → Exec Bytes Bytes
readuntil separator content = elim (find separator content) [
  | some i ↦
      if ltb stream_limit i
      then (content, err limit_overrun)
      else (drop (i + length separator) content, ok (take (i + length separator) content))
  | none ↦
      if ltb stream_limit (length content + 1 - length separator)
      then (content, err limit_overrun)
      else ([], err incomplete_read)
]

-- read(n) where `there` bytes are there: at least one is waited for. Nothing is the end.
unfoldable pub read : ℕ → ℕ → Bytes → Bytes × Bytes
read n there content = (drop (min n (max 1 there)) content, take (min n (max 1 there)) content)
