-- ===== src/Ops/Memory.antt =====
-- Effective addresses, 16-bit accesses, the stack, returns, mode checks, the loop budget and the
-- block move of runtime/ops.h.
use ct_recomp.Base.{ℕ, zero, suc, Bool, true, false, not, ◌+◌, ◌-◌}
use ct_recomp.Base.{◌==◌, if◌then◌else◌, flag, ◌||◌, bit_and, bit_or, bit_xor}
use ct_recomp.Base.{u8, u16, u24, sub16, ◌>>>◌, word, long_addr}
use ct_recomp.Cpu.{Cpu}
use ct_recomp.Machine.{M, ◌>>=◌, ◌>>◌, pure, ct_fatal, gets, on_cpu, on_bus, on_cyc, on_ctl, when}
use ct_recomp.Machine.{budget_exhausted, entry_state, mode_state, returned_to, not_supported}
use ct_recomp.Memory.{read8, write8}
use ct_recomp.Ops.Flags.{set_p}

unfoldable pub ea_dp : Cpu → ℕ → ℕ
ea_dp c d = u16 (c.dp + d)

unfoldable pub ea_abs : Cpu → ℕ → ℕ
ea_abs c a = long_addr c.db a

-- `ct_cyc_cross = ((b ^ (b + i)) & 0xFF00) != 0`: the index `i` takes `b` to another page.
unfoldable pub note_cross : ℕ → ℕ → M (Unit {0})
note_cross b i =
    on_cyc (λ cy. record cy { cross = flag (not (bit_and (bit_xor b (b + i)) 0xFF00 == 0)) })

unfoldable pub ea_abs_x : Cpu → ℕ → M ℕ
ea_abs_x c a = do let b = long_addr c.db a; note_cross b c.x; pure (u24 (b + c.x))

unfoldable pub ea_abs_y : Cpu → ℕ → M ℕ
ea_abs_y c a = do let b = long_addr c.db a; note_cross b c.y; pure (u24 (b + c.y))

unfoldable pub ea_long_x : Cpu → ℕ → ℕ
ea_long_x c a = u24 (a + c.x)

unfoldable pub ea_dp_x : Cpu → ℕ → ℕ
ea_dp_x c d = u16 (c.dp + d + c.x)

unfoldable pub ea_dp_y : Cpu → ℕ → ℕ
ea_dp_y c d = u16 (c.dp + d + c.y)

unfoldable pub ea_sr : Cpu → ℕ → ℕ
ea_sr c d = u16 (c.s + d)

unfoldable pub read16_b0 : ℕ → M ℕ
read16_b0 a = do lo ← read8 a; hi ← read8 (u16 (a + 1)); pure (word lo hi)

unfoldable pub write16_b0 : ℕ → ℕ → M (Unit {0})
write16_b0 a v = do write8 a (u8 v); write8 (u16 (a + 1)) (u8 (v >>> 8))

unfoldable pub write16_b0_rmw : ℕ → ℕ → M (Unit {0})
write16_b0_rmw a v = do write8 (u16 (a + 1)) (u8 (v >>> 8)); write8 a (u8 v)

unfoldable pub ea_dp_ind : Cpu → ℕ → M ℕ
unfolding ea_dp
ea_dp_ind c d = do p ← read16_b0 (ea_dp c d); pure (long_addr c.db p)

unfoldable pub ea_dp_x_ind : Cpu → ℕ → M ℕ
unfolding ea_dp_x
ea_dp_x_ind c d = do p ← read16_b0 (ea_dp_x c d); pure (long_addr c.db p)

unfoldable pub ea_dp_ind_y : Cpu → ℕ → M ℕ
ea_dp_ind_y c d = do b ← ea_dp_ind c d; note_cross b c.y; pure (u24 (b + c.y))

unfoldable pub ea_dp_ind_long : Cpu → ℕ → M ℕ
unfolding ea_dp
ea_dp_ind_long c d = do
  let p = ea_dp c d
  lo ← read16_b0 p
  bank ← read8 (u16 (p + 2))
  pure (long_addr bank lo)

unfoldable pub ea_dp_ind_long_y : Cpu → ℕ → M ℕ
ea_dp_ind_long_y c d = do a ← ea_dp_ind_long c d; pure (u24 (a + c.y))

unfoldable pub ea_sr_ind_y : Cpu → ℕ → M ℕ
unfolding ea_sr
ea_sr_ind_y c d = do p ← read16_b0 (ea_sr c d); pure (u24 (long_addr c.db p + c.y))

unfoldable pub read16_dp : Cpu → ℕ → M ℕ
unfolding ea_dp
read16_dp c d = do lo ← read8 (ea_dp c d); hi ← read8 (u16 (c.dp + d + 1)); pure (word lo hi)

unfoldable pub write16_dp : Cpu → ℕ → ℕ → M (Unit {0})
unfolding ea_dp
write16_dp c d v = do write8 (ea_dp c d) (u8 v); write8 (u16 (c.dp + d + 1)) (u8 (v >>> 8))

-- S after a push and after a pull; in emulation mode it stays in page 1.
unfoldable pub s_down : Cpu → Cpu
s_down c = record c { s = if c.fe == 0 then sub16 c.s 1 else bit_or 0x0100 (u8 (sub16 c.s 1)) }

unfoldable pub s_up : Cpu → Cpu
s_up c = record c { s = if c.fe == 0 then u16 (c.s + 1) else bit_or 0x0100 (u8 (c.s + 1)) }

unfoldable pub push8 : ℕ → M (Unit {0})
push8 v = do s ← gets (λ w. w.cpu.s); write8 s v; on_cpu s_down

unfoldable pub pull8 : M ℕ
pull8 = do on_cpu s_up; s ← gets (λ w. w.cpu.s); read8 s

unfoldable pub push16 : ℕ → M (Unit {0})
push16 v = do push8 (u8 (v >>> 8)); push8 (u8 v)

unfoldable pub pull16 : M ℕ
pull16 = do lo ← pull8; hi ← pull8; pure (word lo hi)

unfoldable pub op_rts : M (Unit {0})
op_rts = do r ← pull16; on_cpu (λ c. record c { pc = u16 (r + 1) })

unfoldable pub op_rtl : M (Unit {0})
op_rtl = do
  r ← pull16
  on_cpu (λ c. record c { pc = u16 (r + 1) })
  bank ← pull8
  on_cpu (λ c. record c { pb = bank })

-- Outside the frame scheduler an interrupt return fails as in the strict interpreter.
unfoldable pub op_rti : ℕ → M (Unit {0})
op_rti at = do
  scheduled ← gets (λ w. w.ctl.scheduled)
  when (scheduled == 0) (ct_fatal (not_supported at 0x40))
  p ← pull8
  on_cpu (set_p p)
  r ← pull16
  on_cpu (λ c. record c { pc = r })
  bank ← pull8
  on_cpu (λ c. record c { pb = bank })

-- `ct_loop`; 0 is no limit.
unfoldable pub ct_loop : ℕ → M (Unit {0})
ct_loop at = do
  budget ← gets (λ w. w.ctl.budget)
  when (not (budget == 0)) (do
    on_ctl (λ k. record k { budget = budget - 1 })
    when (budget == 1) (ct_fatal (budget_exhausted at)))

-- `ct_insn` with the scheduler's tick and the trace hook unset.
unfoldable pub ct_insn : ℕ → M (Unit {0})
ct_insn last = on_bus (λ b. record b { mdr = last })

unfoldable pub cpu_enter : ℕ → ℕ → ℕ → M (Unit {0})
cpu_enter at m x = do
  c ← gets (λ w. w.cpu)
  when (not (c.fe == 0) || not (c.fm == m) || not (c.fx == x)) (ct_fatal (entry_state at))

unfoldable pub cpu_check_mx : ℕ → ℕ → ℕ → M (Unit {0})
cpu_check_mx at m x = do
  c ← gets (λ w. w.cpu)
  when (not (c.fm == m) || not (c.fx == x)) (ct_fatal (mode_state at))

unfoldable pub cpu_check_return : ℕ → ℕ → M (Unit {0})
cpu_check_return site expect = do
  c ← gets (λ w. w.cpu)
  when (not (c.pc == expect)) (ct_fatal (returned_to site c.pc expect))

unfoldable pub cpu_check_return_long : ℕ → ℕ → M (Unit {0})
cpu_check_return_long site expect = do
  c ← gets (λ w. w.cpu)
  when (not (c.pc == u16 expect) || not (c.pb == u8 (expect >>> 16)))
      (ct_fatal (returned_to site (long_addr c.pb c.pc) expect))

-- One round of the loop of `mvn16`: a byte is copied, and the result says whether A wrapped.
unfoldable pub mvn_byte : ℕ → ℕ → M Bool
mvn_byte dst src = do
  c ← gets (λ w. w.cpu)
  v ← read8 (long_addr src c.x)
  write8 (long_addr dst c.y) v
  on_cpu (λ c. record c { x = u16 (c.x + 1); y = u16 (c.y + 1); a = sub16 c.a 1 })
  a ← gets (λ w. w.cpu.a)
  pure (a == 0xFFFF)

-- The loop of `mvn16` with the rounds that are left.
unfoldable pub mvn_rounds : ℕ → ℕ → ℕ → M (Unit {0})
mvn_rounds zero dst src = pure tt
mvn_rounds (suc left) dst src = do
  wrapped ← mvn_byte dst src
  elim wrapped [ true ↦ pure tt | false ↦ do ct_insn src; mvn_rounds left dst src ]

-- `mvn16`: A + 1 rounds copy A + 1 bytes.
unfoldable pub mvn16 : ℕ → ℕ → M (Unit {0})
mvn16 dst src = do
  on_cpu (λ c. record c { db = dst })
  a ← gets (λ w. w.cpu.a)
  mvn_rounds (a + 1) dst src
