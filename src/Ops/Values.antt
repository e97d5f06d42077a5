-- ===== src/Ops/Values.antt =====
-- Read-modify-write values, arithmetic, comparison and index registers of runtime/ops.h. A
-- function that returns a value and changes flags returns both.
use ct_recomp.Base.{ℕ, ◌+◌}
use ct_recomp.Base.{◌==◌, ltb, leb, if◌then◌else◌, flag, bit_and, bit_or, bit_xor}
use ct_recomp.Base.{u8, u16, not8, not16, not32, sub8, sub16, ◌<<<◌, ◌>>>◌}
use ct_recomp.Cpu.{Cpu}
use ct_recomp.Machine.{M, ◌>>=◌, ct_fatal, gets, on_cpu, adc_decimal, sbc_decimal}
use ct_recomp.Ops.Flags.{set_nz8, set_nz16, a8, set_a8}

unfoldable pub dec16 : ℕ → Cpu → ℕ × Cpu
unfolding set_nz16
dec16 v c = let r = sub16 v 1 in (r, set_nz16 r c)

unfoldable pub inc16 : ℕ → Cpu → ℕ × Cpu
unfolding set_nz16
inc16 v c = let r = u16 (v + 1) in (r, set_nz16 r c)

unfoldable pub dec8 : ℕ → Cpu → ℕ × Cpu
unfolding set_nz8
dec8 v c = let r = sub8 v 1 in (r, set_nz8 r c)

unfoldable pub inc8 : ℕ → Cpu → ℕ × Cpu
unfolding set_nz8
inc8 v c = let r = u8 (v + 1) in (r, set_nz8 r c)

unfoldable pub asl8 : ℕ → Cpu → ℕ × Cpu
unfolding set_nz8
asl8 v c = let r = u8 (v <<< 1) in (r, set_nz8 r (record c { fc = v >>> 7 }))

unfoldable pub lsr8 : ℕ → Cpu → ℕ × Cpu
unfolding set_nz8
lsr8 v c = let r = v >>> 1 in (r, set_nz8 r (record c { fc = bit_and v 1 }))

unfoldable pub rol8 : ℕ → Cpu → ℕ × Cpu
unfolding set_nz8
rol8 v c = let r = u8 (bit_or (v <<< 1) c.fc) in (r, set_nz8 r (record c { fc = v >>> 7 }))

unfoldable pub ror8 : ℕ → Cpu → ℕ × Cpu
unfolding set_nz8
ror8 v c =
    let r = u8 (bit_or (v >>> 1) (c.fc <<< 7)) in (r, set_nz8 r (record c { fc = bit_and v 1 }))

unfoldable pub asl16 : ℕ → Cpu → ℕ × Cpu
unfolding set_nz16
asl16 v c = let r = u16 (v <<< 1) in (r, set_nz16 r (record c { fc = v >>> 15 }))

unfoldable pub lsr16 : ℕ → Cpu → ℕ × Cpu
unfolding set_nz16
lsr16 v c = let r = v >>> 1 in (r, set_nz16 r (record c { fc = bit_and v 1 }))

unfoldable pub rol16 : ℕ → Cpu → ℕ × Cpu
unfolding set_nz16
rol16 v c = let r = u16 (bit_or (v <<< 1) c.fc) in (r, set_nz16 r (record c { fc = v >>> 15 }))

unfoldable pub ror16 : ℕ → Cpu → ℕ × Cpu
unfolding set_nz16
ror16 v c =
    let r = u16 (bit_or (v >>> 1) (c.fc <<< 15)) in (r, set_nz16 r (record c { fc = bit_and v 1 }))

-- TSB and TRB: Z from A & memory, then A's bits set or cleared in the memory value.
unfoldable pub tsb8 : ℕ → Cpu → ℕ × Cpu
unfolding a8
tsb8 v c = (bit_or v (a8 c), record c { fz = flag (bit_and (a8 c) v == 0) })

unfoldable pub trb8 : ℕ → Cpu → ℕ × Cpu
unfolding a8
trb8 v c = (u8 (bit_and v (not8 (a8 c))), record c { fz = flag (bit_and (a8 c) v == 0) })

unfoldable pub tsb16 : ℕ → Cpu → ℕ × Cpu
tsb16 v c = (bit_or v c.a, record c { fz = flag (bit_and c.a v == 0) })

unfoldable pub trb16 : ℕ → Cpu → ℕ × Cpu
trb16 v c = (u16 (bit_and v (not16 c.a)), record c { fz = flag (bit_and c.a v == 0) })

unfoldable pub tax16 : Cpu → Cpu
unfolding set_nz16
tax16 c = set_nz16 c.a (record c { x = c.a })

unfoldable pub tay16 : Cpu → Cpu
unfolding set_nz16
tay16 c = set_nz16 c.a (record c { y = c.a })

unfoldable pub iny16 : Cpu → Cpu
unfolding set_nz16
iny16 c = let r = u16 (c.y + 1) in set_nz16 r (record c { y = r })

unfoldable pub inx16 : Cpu → Cpu
unfolding set_nz16
inx16 c = let r = u16 (c.x + 1) in set_nz16 r (record c { x = r })

unfoldable pub dex16 : Cpu → Cpu
unfolding set_nz16
dex16 c = let r = sub16 c.x 1 in set_nz16 r (record c { x = r })

unfoldable pub op_tdc : Cpu → Cpu
unfolding set_nz16
op_tdc c = set_nz16 c.dp (record c { a = c.dp })

unfoldable pub asl_a8 : Cpu → Cpu
unfolding a8 set_a8 set_nz8
asl_a8 c = let v = a8 c in let r = u8 (v <<< 1) in set_nz8 r (set_a8 r (record c { fc = v >>> 7 }))

unfoldable pub asl_a16 : Cpu → Cpu
unfolding set_nz16
asl_a16 c = let r = u16 (c.a <<< 1) in set_nz16 r (record c { fc = c.a >>> 15; a = r })

unfoldable pub lsr_a8 : Cpu → Cpu
unfolding a8 set_a8 set_nz8
lsr_a8 c = let v = a8 c in let r = v >>> 1 in set_nz8 r (set_a8 r (record c { fc = bit_and v 1 }))

unfoldable pub lsr_a16 : Cpu → Cpu
unfolding set_nz16
lsr_a16 c = let r = c.a >>> 1 in set_nz16 r (record c { fc = bit_and c.a 1; a = r })

-- The body of `adc8` behind its guard.
unfoldable pub add8 : ℕ → Cpu → Cpu
unfolding a8 set_a8 set_nz8
add8 b c =
    let a = a8 c in
    let r = a + b + c.fc in
    let overflow = bit_and (bit_and (not32 (bit_xor a b)) (bit_xor a r) >>> 7) 1 in
    set_nz8 (u8 r) (set_a8 (u8 r) (record c { fc = flag (ltb 0xFF r); fv = overflow }))

-- The body of `adc16` behind its guard.
unfoldable pub add16 : ℕ → Cpu → Cpu
unfolding set_nz16
add16 b c =
    let r = c.a + b + c.fc in
    let overflow = bit_and (bit_and (not32 (bit_xor c.a b)) (bit_xor c.a r) >>> 15) 1 in
    set_nz16 (u16 r) (record c { fc = flag (ltb 0xFFFF r); fv = overflow; a = u16 r })

unfoldable pub adc8 : ℕ → ℕ → M (Unit {0})
adc8 b at = do
  d ← gets (λ w. w.cpu.fd)
  if d == 0 then on_cpu (add8 b) else ct_fatal (adc_decimal at)

unfoldable pub adc16 : ℕ → ℕ → M (Unit {0})
adc16 b at = do
  d ← gets (λ w. w.cpu.fd)
  if d == 0 then on_cpu (add16 b) else ct_fatal (adc_decimal at)

unfoldable pub sbc8 : ℕ → ℕ → M (Unit {0})
sbc8 b at = do
  d ← gets (λ w. w.cpu.fd)
  if d == 0 then adc8 (not8 b) at else ct_fatal (sbc_decimal at)

unfoldable pub sbc16 : ℕ → ℕ → M (Unit {0})
sbc16 b at = do
  d ← gets (λ w. w.cpu.fd)
  if d == 0 then adc16 (not16 b) at else ct_fatal (sbc_decimal at)

unfoldable pub cmp8 : ℕ → ℕ → Cpu → Cpu
unfolding set_nz8
cmp8 r b c = set_nz8 (sub8 r b) (record c { fc = flag (leb b r) })

unfoldable pub cmp16 : ℕ → ℕ → Cpu → Cpu
unfolding set_nz16
cmp16 r b c = set_nz16 (sub16 r b) (record c { fc = flag (leb b r) })
