-- ===== src/Sched/Latched.antt =====
-- The latched counters of runtime/sched.c are read back in two halves.
use ct_recomp.Base.{
  ℕ, ◌≡◌, ap, ◌∙◌, ◌+◌, ◌*◌, ◌/◌, ◌%◌, ◌<◌, ltb, if◌then◌else◌, bit_and, bit_or, min, u8, ◌>>>◌,
  ◌^◌, arith,
}
use ct_recomp.Base.Bits.{bit_and-mask, bit_and-even, bit_or-fields}
use ct_recomp.Sched.{Line, Ports}
use ct_recomp.Sched.Counters.{latch_counters, access_hv, counter_read, ophct_read, stat78_read}

-- A 9-bit value from the two reads of its register.
unfoldable pub joined : ℕ → ℕ → ℕ
joined lo hi = lo + hi % 2 * 256

-- The high half: bit 8 among the bits of the open bus.
high_half :
    (mdr v : ℕ) → v < 2 ^ 9 → u8 (bit_or (bit_and mdr 0xFE) (bit_and (v >>> 8) 1)) % 2 ≡ v / 256
high_half mdr v h =
    let even = bit_and-even mdr 0x7F in
    let top = bit_and-mask 1 (v / 2 ^ 8) in
    let or_is =
      ap (λ t. bit_or t (bit_and (v / 2 ^ 8) 1)) even
      ∙ bit_or-fields 1 (bit_and (mdr / 2) 0x7F) (bit_and (v / 2 ^ 8) 1) (omega arith) in
    omega arith

counter_halves :
    (mdr mdr' v : ℕ)
    → v < 2 ^ 9
    → joined (counter_read mdr v 0).0 (counter_read mdr' v (counter_read mdr v 0).1).0 ≡ v
unfolding counter_read joined
counter_halves mdr mdr' v h = omega (arith, high_half mdr' v h)

dot_fits :
    (h : ℕ)
    → ((if ltb 339 h then 339 else h) < 2 ^ 9) × ((if ltb 339 h then 339 else h) ≡ min h 339)
dot_fits h = (ground arith, ground arith)

-- After the counters are latched and STAT78 is read, two reads of OPHCT, the low byte and then bit
-- 8, give the dot of the access, a quarter of its clock and at most 339.
pub latch_counters-joined :
    (at mdr mdr' mdr'' : ℕ) (l : Line) (p : Ports)
    → (let reset = (stat78_read mdr l (latch_counters at l p)).1 in
        let lo = ophct_read mdr' reset in
        joined lo.0 (ophct_read mdr'' lo.1).0 ≡ min ((access_hv at l).1 / 4) 339)
unfolding stat78_read ophct_read latch_counters
latch_counters-joined at mdr mdr' mdr'' l p =
    let d = dot_fits ((access_hv at l).1 / 4) in counter_halves mdr' mdr'' _ d.0 ∙ d.1
