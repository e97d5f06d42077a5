-- ===== src/Sched/Audio.antt =====
-- The ring of DSP samples in runtime/sched.c: `dsp_out` and `sched_audio_take`.
use ct_recomp.Base.{ℕ, zero, suc, List, [], ◌∷◌, ◌+◌, ◌-◌, ◌%◌, ltb, if◌then◌else◌, update}

abbrev pub audio_ring : ℕ
audio_ring = 8192

-- A stereo pair, the 16-bit values as their bits.
abbrev pub Sample : Type 0
Sample = ℕ × ℕ

-- `ring`, `ring_head` and `ring_len`.
pub record Ring : Type 0 where
  pub ring : ℕ → Sample
  pub ring_head : ℕ
  pub ring_len : ℕ

unfoldable pub dsp_out : ℕ → ℕ → Ring → Ring
dsp_out l r q = record {
  ring = update q.ring q.ring_head (l, r);
  ring_head = (q.ring_head + 1) % audio_ring;
  ring_len = if ltb q.ring_len audio_ring then q.ring_len + 1 else q.ring_len;
}

-- The loop of `sched_audio_take`: `n` samples from `at` on, going round.
abbrev pub take_loop : (ℕ → Sample) → ℕ → ℕ → List Sample
take_loop ring at zero = []
take_loop ring at (suc n) = ring at ∷ take_loop ring ((at + 1) % audio_ring) n

-- `sched_audio_take`: the samples copied, and the ring without them.
unfoldable pub sched_audio_take : ℕ → Ring → List Sample × Ring
sched_audio_take max q =
    let n = if ltb q.ring_len max then q.ring_len else max in
    let at = (q.ring_head + audio_ring - q.ring_len) % audio_ring in
    (take_loop q.ring at n, record q { ring_len = q.ring_len - n })
