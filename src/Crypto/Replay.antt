-- ===== src/Crypto/Replay.antt =====
-- `AntiReplayWindow` of shinvpn/crypto/cipher.py. Sequence numbers and the bitmap are Python
-- integers, without a bound; the lock makes each call one step.
pub mod Window
pub mod History
pub mod Bounds
use shin_vpn.Prelude.{
  ℕ, ◌+◌, ◌-◌, ◌*◌, ◌^◌, bit_and, bit_or, Bool, true, false, not, ltb, leb, ◌==◌, if◌then◌else◌,
}

pub record AntiReplayWindow : Type 0 where
  pub window_size : ℕ
  pub max_seq : ℕ
  pub bitmap : ℕ

unfoldable pub init : ℕ → AntiReplayWindow
init window_size = record { window_size = window_size; max_seq = 0; bitmap = 0 }

-- The bitmap when `seq` is ahead of the maximum by `diff`.
unfoldable pub advanced : AntiReplayWindow → ℕ → ℕ
advanced w diff =
    if leb w.window_size diff
    then 1
    else bit_and (bit_or (w.bitmap * 2 ^ diff) 1) (2 ^ w.window_size - 1)

-- In place of the branches below the maximum: too old, already received, or new.
unfoldable pub in_window : AntiReplayWindow → ℕ → AntiReplayWindow × Bool
in_window w diff =
    let bit = 2 ^ diff in
    if leb w.window_size diff
    then (w, false)
    else if not (bit_and w.bitmap bit == 0)
    then (w, false)
    else (record w { bitmap = bit_or w.bitmap bit }, true)

unfoldable pub check_and_update : AntiReplayWindow → ℕ → AntiReplayWindow × Bool
check_and_update w seq =
    if seq == 0
    then (w, false)
    else if ltb w.max_seq seq
    then (record w { bitmap = advanced w (seq - w.max_seq); max_seq = seq }, true)
    else in_window w (w.max_seq - seq)

unfoldable pub reset : AntiReplayWindow → AntiReplayWindow
reset w = record w { max_seq = 0; bitmap = 0 }
