-- ===== src/Crypto/Replay/Window.antt =====
-- The bits of the window after a call, and the numbers that it will not take again.
use shin_vpn.Crypto.Replay.{AntiReplayWindow, advanced, in_window, check_and_update}
use shin_vpn.Prelude.{
  ℕ, ◌-◌, ◌*◌, ◌^◌, ◌<◌, bit_or, Bool, true, not, ltb, leb, ◌==◌, ◌&&◌, ◌||◌, ◌≡◌, arith,
}
use shin_vpn.Prelude.Bits.{
  test_bit, test_bit-bit_or, test_bit-bit_and, test_bit-pow, test_bit-mask, test_bit-shift,
  bit_and-pow,
}

-- `s` is behind the window, or its bit is set.
unfoldable pub spent : AntiReplayWindow → ℕ → Bool
spent w s =
    leb s w.max_seq && (leb w.window_size (w.max_seq - s) || test_bit w.bitmap (w.max_seq - s))

pub test_bit-advanced :
    (w : AntiReplayWindow) (diff j : ℕ)
    → 0 < diff
    → 0 < w.window_size
    → test_bit (advanced w diff) j ≡ (
        ltb j w.window_size
        && (j == 0 || leb diff j && (ltb diff w.window_size && test_bit w.bitmap (j - diff))))
unfolding advanced
test_bit-advanced w diff j p q = ground (
  arith,
  test_bit-pow 0 j,
  test_bit-bit_and j (bit_or (w.bitmap * 2 ^ diff) 1) (2 ^ w.window_size - 1),
  test_bit-mask w.window_size j,
  test_bit-bit_or j (w.bitmap * 2 ^ diff) 1,
  test_bit-shift diff w.bitmap j,
)

-- After a call `s` is spent if it was before, if it was taken now, or if the window has passed it.
pub spent-check_and_update :
    (w : AntiReplayWindow) (seq s : ℕ)
    → 0 < w.window_size
    → spent w s ≡ true
    → spent (check_and_update w seq).0 s ≡ true
unfolding check_and_update in_window spent
spent-check_and_update w seq s q h = ground (
  arith,
  test_bit-advanced w (seq - w.max_seq) (seq - s),
  test_bit-bit_or (w.max_seq - s) w.bitmap (2 ^ (w.max_seq - seq)),
)

pub accepted-spent :
    (w : AntiReplayWindow) (seq : ℕ)
    → 0 < w.window_size
    → (check_and_update w seq).1 ≡ true
    → spent (check_and_update w seq).0 seq ≡ true
unfolding check_and_update in_window spent
accepted-spent w seq q h = ground (
  arith,
  test_bit-advanced w (seq - w.max_seq) (seq - seq),
  test_bit-bit_or (w.max_seq - seq) w.bitmap (2 ^ (w.max_seq - seq)),
  test_bit-pow (w.max_seq - seq) (w.max_seq - seq),
)

-- What a call answers: nonzero and not spent.
pub check_and_update-answer :
    (w : AntiReplayWindow) (seq : ℕ)
    → (check_and_update w seq).1 ≡ (not (seq == 0) && not (spent w seq))
unfolding check_and_update in_window spent
check_and_update-answer w seq = ground (arith, bit_and-pow (w.max_seq - seq) w.bitmap)

pub window_size-check_and_update :
    (w : AntiReplayWindow) (seq : ℕ) → (check_and_update w seq).0.window_size ≡ w.window_size
unfolding check_and_update in_window
window_size-check_and_update w seq = ground arith
