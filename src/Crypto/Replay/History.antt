-- ===== src/Crypto/Replay/History.antt =====
-- The filter over a whole run of packets, against an ideal filter that remembers every number it
-- has let through.
use mathlib.Core.Path.{ap₂}
use shin_vpn.Crypto.Replay.{AntiReplayWindow, init, check_and_update, advanced, in_window}
use shin_vpn.Crypto.Replay.Window.{
  spent, spent-check_and_update, accepted-spent, check_and_update-answer, test_bit-advanced,
  window_size-check_and_update,
}
use shin_vpn.Prelude.{
  ℕ, ◌-◌, ◌^◌, ◌≤◌, ◌<◌, max, Bool, true, false, not, ltb, ◌==◌, if◌then◌else◌, ◌&&◌, ◌||◌, ◌≡◌,
  refl, arith, List, [], ◌∷◌, bit_or, inl, inr, ◌⊎◌,
}
use shin_vpn.Prelude.Bits.{test_bit, test_bit-bit_or, test_bit-pow, test_bit-zero}

-- The state after the calls for `seqs`, in order.
unfoldable pub run : AntiReplayWindow → List ℕ → AntiReplayWindow
run w [] = w
run w (seq ∷ seqs) = run (check_and_update w seq).0 seqs

-- The answers of the calls.
unfoldable pub answers : AntiReplayWindow → List ℕ → List Bool
answers w [] = []
answers w (seq ∷ seqs) = (check_and_update w seq).1 ∷ answers (check_and_update w seq).0 seqs

run-spent :
    (w : AntiReplayWindow) (s : ℕ) (seqs : List ℕ)
    → 0 < w.window_size
    → spent w s ≡ true
    → spent (run w seqs) s ≡ true
unfolding run
run-spent w s [] q h = h
run-spent w s (seq ∷ seqs) q h =
    run-spent (check_and_update w seq).0 s seqs (omega (arith, window_size-check_and_update w seq))
      (spent-check_and_update w seq s q h)

-- A number that a call has accepted is refused by every later call, whatever packets, forged or
-- replayed, come in between.
pub accepted_once :
    (w : AntiReplayWindow) (seq : ℕ) (later : List ℕ)
    → 0 < w.window_size
    → (check_and_update w seq).1 ≡ true
    → (check_and_update (run (check_and_update w seq).0 later) seq).1 ≡ false
accepted_once w seq later q h = ground (
  arith,
  check_and_update-answer (run (check_and_update w seq).0 later) seq,
  run-spent (check_and_update w seq).0 seq later (omega (arith, window_size-check_and_update w seq))
      (accepted-spent w seq q h),
)

abbrev mem : ℕ → List ℕ → Bool
mem s [] = false
mem s (x ∷ xs) = s == x || mem s xs

abbrev highest : List ℕ → ℕ
highest [] = 0
highest (x ∷ xs) = max x (highest xs)

-- Is `seq` to be let through, when `taken` were? Not 0, and above all of them, or less than the
-- window size below the highest and not among them.
unfoldable pub fresh : ℕ → List ℕ → ℕ → Bool
fresh size taken seq =
    not (seq == 0)
    && (ltb (highest taken) seq || ltb (highest taken - seq) size && not (mem seq taken))

unfoldable pub ideal_answers : ℕ → List ℕ → List ℕ → List Bool
ideal_answers size taken [] = []
ideal_answers size taken (seq ∷ seqs) =
    fresh size taken seq
    ∷ ideal_answers size (if fresh size taken seq then seq ∷ taken else taken) seqs

mem-le-highest : (s : ℕ) (xs : List ℕ) → highest xs < s → mem s xs ≡ false
mem-le-highest s [] h = refl
mem-le-highest s (x ∷ xs) h = ground (arith, mem-le-highest s xs)

pub record Tracks (size : ℕ) (w : AntiReplayWindow) (taken : List ℕ) : Type 0 where
  pub window : w.window_size ≡ size
  pub top : w.max_seq ≡ highest taken
  pub bits :
      (s : ℕ)
      → s ≤ w.max_seq
      → w.max_seq - s < size
      → test_bit w.bitmap (w.max_seq - s) ≡ mem s taken

Tracks-answer :
    {size : ℕ} {w : AntiReplayWindow} {taken : List ℕ} (seq : ℕ)
    → Tracks size w taken
    → (check_and_update w seq).1 ≡ fresh size taken seq
unfolding fresh spent
Tracks-answer {size} {w} {taken} seq t = ground (arith, check_and_update-answer w seq, t.bits seq)

sub-sub_between : (b a s : ℕ) → s ≤ a → a < b → (b - s) - (b - a) ≡ a - s
sub-sub_between b a s p q = omega arith

Tracks-ahead :
    {size : ℕ} {w : AntiReplayWindow} {taken : List ℕ} (seq : ℕ)
    → 0 < size
    → Tracks size w taken
    → w.max_seq < seq
    → Tracks size (record w { bitmap = advanced w (seq - w.max_seq); max_seq = seq }) (seq ∷ taken)
Tracks-ahead {size} {w} {taken} seq q t h = record {
  window = t.window;
  top = omega (arith, t.top);
  bits = λ s p r.
      ground
        (arith, test_bit-advanced w (seq - w.max_seq) (seq - s), t.bits s, mem-le-highest s taken);
}

Tracks-within :
    {size : ℕ} {w : AntiReplayWindow} {taken : List ℕ} (seq : ℕ)
    → Tracks size w taken
    → seq ≤ w.max_seq
    → Tracks size (record w { bitmap = bit_or w.bitmap (2 ^ (w.max_seq - seq)) }) (seq ∷ taken)
Tracks-within {size} {w} {taken} seq t h = record {
  window = t.window;
  top = omega (arith, t.top);
  bits = λ s p r. ground (
    arith,
    t.bits s,
    test_bit-bit_or (w.max_seq - s) w.bitmap (2 ^ (w.max_seq - seq)),
    test_bit-pow (w.max_seq - seq) (w.max_seq - s),
  );
}

-- What a call leaves behind, by its answer.
check_and_update-cases :
    (w : AntiReplayWindow) (seq : ℕ)
    → (((check_and_update w seq).1 ≡ false) × ((check_and_update w seq).0 ≡ w))
      ⊎ (((check_and_update w seq).1 ≡ true)
          × ((w.max_seq < seq)
                × ((check_and_update w seq).0
                    ≡ record w { bitmap = advanced w (seq - w.max_seq); max_seq = seq })
              ⊎ (seq ≤ w.max_seq)
                × ((check_and_update w seq).0
                    ≡ record w { bitmap = bit_or w.bitmap (2 ^ (w.max_seq - seq)) })))
unfolding check_and_update in_window
check_and_update-cases w seq = ground arith

Tracks-check_and_update :
    {size : ℕ} {w : AntiReplayWindow} {taken : List ℕ} (seq : ℕ)
    → 0 < size
    → Tracks size w taken
    → Tracks size (check_and_update w seq).0 (if fresh size taken seq then seq ∷ taken else taken)
Tracks-check_and_update {w = w} seq q t =
    rw (← Tracks-answer seq t) (elim (check_and_update-cases w seq) [
      | inl (refused, same) ↦ rw (refused, same) t
      | inr (passed, inl (above, then_is)) ↦ rw (passed, then_is) (Tracks-ahead seq q t above)
      | inr (passed, inr (below, then_is)) ↦ rw (passed, then_is) (Tracks-within seq t below)
    ])

Tracks-answers :
    {size : ℕ} (w : AntiReplayWindow) (taken seqs : List ℕ)
    → 0 < size
    → Tracks size w taken
    → answers w seqs ≡ ideal_answers size taken seqs
unfolding answers ideal_answers
Tracks-answers w taken [] q t = refl
Tracks-answers {size} w taken (seq ∷ seqs) q t = ap₂ ◌∷◌ (Tracks-answer seq t) (
    rw (← Tracks-answer seq t) (
      Tracks-answers (check_and_update w seq).0
        (if (check_and_update w seq).1 then seq ∷ taken else taken) seqs q
        (rw (Tracks-answer seq t) (Tracks-check_and_update seq q t))))

Tracks-init : (size : ℕ) → Tracks size (init size) []
unfolding init
Tracks-init size = record { window = refl; top = refl; bits = λ s p r. test_bit-zero (0 - s) }

-- The bitmap is as good as a memory of everything: from the start, on every run of packets, the
-- filter answers as the ideal filter does.
pub answers-ideal_answers :
    (size : ℕ) (seqs : List ℕ) → 0 < size → answers (init size) seqs ≡ ideal_answers size [] seqs
answers-ideal_answers size seqs q = Tracks-answers (init size) [] seqs q (Tracks-init size)
