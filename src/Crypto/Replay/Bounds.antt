-- ===== src/Crypto/Replay/Bounds.antt =====
-- The bitmap never outgrows the window.
use shin_vpn.Crypto.Replay.{AntiReplayWindow, check_and_update, in_window}
use shin_vpn.Crypto.Replay.Window.{test_bit-advanced, window_size-check_and_update}
use shin_vpn.Crypto.Replay.History.{run}
use shin_vpn.Prelude.{ℕ, ◌-◌, ◌^◌, ◌≤◌, ◌<◌, false, ◌≡◌, arith, List, [], ◌∷◌}
use shin_vpn.Prelude.Bits.{test_bit, test_bit-bit_or, test_bit-pow, test_bit_above, lt_of_bits}

bitmap_bits :
    (w : AntiReplayWindow) (seq j : ℕ)
    → 0 < w.window_size
    → w.bitmap < 2 ^ w.window_size
    → w.window_size ≤ j
    → test_bit (check_and_update w seq).0.bitmap j ≡ false
unfolding check_and_update in_window
bitmap_bits w seq j q b h = ground (
  arith,
  test_bit_above w.window_size w.bitmap j b h,
  test_bit-advanced w (seq - w.max_seq) j,
  test_bit-bit_or j w.bitmap (2 ^ (w.max_seq - seq)),
  test_bit-pow (w.max_seq - seq) j,
)

bitmap-check_and_update-lt :
    (w : AntiReplayWindow) (seq : ℕ)
    → 0 < w.window_size
    → w.bitmap < 2 ^ w.window_size
    → (check_and_update w seq).0.bitmap < 2 ^ w.window_size
bitmap-check_and_update-lt w seq q b =
    lt_of_bits w.window_size (check_and_update w seq).0.bitmap (λ j h. bitmap_bits w seq j q b h)

-- Whatever packets arrive, a bitmap that fits `window_size` bits still does.
pub bitmap-run-lt :
    (w : AntiReplayWindow) (seqs : List ℕ)
    → 0 < w.window_size
    → w.bitmap < 2 ^ w.window_size
    → (run w seqs).bitmap < 2 ^ w.window_size
unfolding run
bitmap-run-lt w [] q b = b
bitmap-run-lt w (seq ∷ seqs) q b =
    let same = window_size-check_and_update w seq in
    let rest =
      bitmap-run-lt (check_and_update w seq).0 seqs (omega (arith, same))
        (rw same (bitmap-check_and_update-lt w seq q b)) in
    rw same at rest
