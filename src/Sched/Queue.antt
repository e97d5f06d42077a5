-- ===== src/Sched/Queue.antt =====
-- The ring of runtime/sched.c behaves as a queue of samples of bounded length.
use ct_recomp.Base.{
  ℕ, zero, suc, List, [], ◌∷◌, ◌++◌, ◌≡◌, refl, ap, sym, ◌∙◌, update_eq, update_ne, ◌+◌, ◌-◌, ◌%◌,
  ◌<◌, ◌≤◌, ltb, ltb_of_lt, ltb_of_le, if◌then◌else◌, update, length, min, arith,
}
use mathlib.Core.Path.{ap₂}
use native.Mathlib.Decide.{dec_lt}
use ct_recomp.Sched.Audio.{Sample, Ring, dsp_out, take_loop, sched_audio_take}

pub record IsRing (q : Ring) : Type 0 where
  pub head_fits : q.ring_head < 8192
  pub len_fits : q.ring_len ≤ 8192

abbrev pub start : Ring → ℕ
start q = (q.ring_head + 8192 - q.ring_len) % 8192

-- The samples not taken yet, the oldest first.
unfoldable pub samples : Ring → List Sample
samples q = take_loop q.ring (start q) q.ring_len

-- A queue of at most 8192 samples with one more at its end.
abbrev drop_first : List Sample → List Sample
drop_first [] = []
drop_first (x ∷ xs) = xs

unfoldable pub enqueue : Sample → List Sample → List Sample
enqueue v xs = if ltb (length xs) 8192 then xs ++ (v ∷ []) else drop_first xs ++ (v ∷ [])

length-take_loop : (ring : ℕ → Sample) (at n : ℕ) → length (take_loop ring at n) ≡ n
length-take_loop ring at zero = refl
length-take_loop ring at (suc n) = ap suc (length-take_loop ring ((at + 1) % 8192) n)

loop-update :
    (ring : ℕ → Sample) (v : Sample) (at n i : ℕ)
    → at < 8192
    → n < 8192
    → i ≡ (at + n) % 8192
    → take_loop (update ring i v) at (suc n) ≡ take_loop ring at n ++ (v ∷ [])
loop-update ring v at zero i ha hn e = ap (λ x. x ∷ []) (update_eq ring i at v (omega arith))
loop-update ring v at (suc n) i ha hn e =
    ap₂ ◌∷◌ (update_ne ring i at v (omega arith))
      (loop-update ring v ((at + 1) % 8192) n i (omega arith) (omega arith) (omega arith))

loop-split :
    (ring : ℕ → Sample) (at n k i m : ℕ)
    → at < 8192
    → i ≡ (at + n) % 8192
    → m ≡ n + k
    → take_loop ring at n ++ take_loop ring i k ≡ take_loop ring at m
loop-split ring at zero k i m ha e e' = ap₂ (take_loop ring) (omega arith) (omega arith)
loop-split ring at (suc n) k i zero ha e e' = absurd (omega arith)
loop-split ring at (suc n) k i (suc m) ha e e' =
    ap (λ xs. ring at ∷ xs)
      (loop-split ring ((at + 1) % 8192) n k i m (omega arith) (omega arith) (omega arith))

length-samples : (q : Ring) → length (samples q) ≡ q.ring_len
unfolding samples
length-samples q = length-take_loop q.ring (start q) q.ring_len

-- A sample put in a full ring replaces the oldest.
loop-replace :
    (ring : ℕ → Sample) (v : Sample) (at n h : ℕ)
    → h < 8192
    → n ≡ 8192
    → at ≡ h
    → take_loop (update ring h v) ((h + 1) % 8192) n ≡ drop_first (take_loop ring at n) ++ (v ∷ [])
loop-replace ring v at zero h hh e e' = absurd (omega arith)
loop-replace ring v at (suc n) h hh e e' =
    loop-update ring v ((h + 1) % 8192) n h (omega arith) (omega arith) (omega arith)
    ∙ ap (λ k. take_loop ring ((k + 1) % 8192) n ++ (v ∷ [])) (sym e')

-- dsp_out keeps a valid ring valid, and the samples not taken yet change as a queue of 8192: the
-- sample is put at the end, and a full queue loses its oldest.
pub dsp_out-samples :
    (l r : ℕ) (q : Ring)
    → IsRing q
    → IsRing (dsp_out l r q) × (samples (dsp_out l r q) ≡ enqueue (l, r) (samples q))
unfolding dsp_out samples enqueue
dsp_out-samples l r q h = elim (dec_lt q.ring_len 8192) [
  | yes p ↦
      rw
        (
          ltb_of_lt q.ring_len 8192 p,
          length-take_loop q.ring (start q) q.ring_len,
          ltb_of_lt q.ring_len 8192 p,
        )
        (
          record { head_fits = omega arith; len_fits = omega arith },
          ap₂ (take_loop (update q.ring q.ring_head (l, r))) {y = start q} {v = suc q.ring_len}
                (omega (arith, h.len_fits, h.head_fits)) (omega arith)
              ∙ loop-update q.ring (l, r) (start q) q.ring_len q.ring_head (omega arith) p
                  (omega (arith, h.len_fits, h.head_fits)),
        )
  | no p ↦
      rw
        (
          ltb_of_le q.ring_len 8192 (omega arith),
          length-take_loop q.ring (start q) q.ring_len,
          ltb_of_le q.ring_len 8192 (omega arith),
        )
        (
          record { head_fits = omega arith; len_fits = h.len_fits },
          ap (λ k. take_loop (update q.ring q.ring_head (l, r)) k q.ring_len)
                (omega (arith, h.len_fits, h.head_fits))
              ∙ loop-replace q.ring (l, r) (start q) q.ring_len q.ring_head h.head_fits
                  (omega (arith, h.len_fits)) (omega (arith, h.len_fits, h.head_fits)),
        )
]

-- sched_audio_take keeps a valid ring valid, and splits the samples not taken yet: those it
-- copies, as many as asked or as there are, and those that stay.
pub sched_audio_take-samples :
    (max : ℕ) (q : Ring)
    → IsRing q
    → IsRing (sched_audio_take max q).1
      × ((sched_audio_take max q).0 ++ samples (sched_audio_take max q).1 ≡ samples q)
      × (length (sched_audio_take max q).0 ≡ min q.ring_len max)
unfolding sched_audio_take samples
sched_audio_take-samples max q h =
    let n = if ltb q.ring_len max then q.ring_len else max in
    let fits : n ≤ q.ring_len = ground arith in
    (
      record { head_fits = h.head_fits; len_fits = omega (arith, h.len_fits) },
      loop-split q.ring (start q) n (q.ring_len - n)
          ((q.ring_head + 8192 - (q.ring_len - n)) % 8192) q.ring_len (omega arith)
          (omega (arith, h.head_fits, h.len_fits)) (omega arith),
      length-take_loop q.ring (start q) n ∙ ground arith,
    )
