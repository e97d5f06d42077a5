-- ===== src/Interp/Access.antt =====
-- Fetches, operand addresses and the memory accesses of runtime/interp.c.
use ct_recomp.Base.{ℕ, Bool, true, false, not, ◌+◌, ◌-◌}
use ct_recomp.Base.{◌==◌, ltb, if◌then◌else◌, flag, ◌&&◌, bit_and, bit_xor}
use ct_recomp.Base.{u8, u16, u24, ◌>>>◌, word, long_addr}
use ct_recomp.Cpu.{Cpu}
use ct_recomp.Machine.{
  M, ◌>>=◌, ◌>>◌, pure, ct_fatal, gets, on_cpu, on_bus, on_cyc, on_ctl, with_cpu, when,
}
use ct_recomp.Machine.{bad_mode, budget_exhausted}
use ct_recomp.Memory.{read8, write8}
use ct_recomp.Bus.Log.{ct_bus_fetch}
use ct_recomp.Interp.Registers.{Rmw, rmw, push_s, pull_s}

-- `EA`: an address, and whether a 16-bit access wraps within bank 0.
pub record Ea : Type 0 where
  pub a : ℕ
  pub bank0 : Bool

unfoldable pub fetch8 : M ℕ
fetch8 = do
  on_bus (λ b. record b { fetch_mark = ct_bus_fetch })
  c ← gets (λ w. w.cpu)
  v ← read8 (long_addr c.pb c.pc)
  on_bus (λ b. record b { fetch_mark = 0 })
  on_cpu (λ c. record c { pc = u16 (c.pc + 1) })
  pure v

unfoldable pub fetch16 : M ℕ
fetch16 = do lo ← fetch8; hi ← fetch8; pure (word lo hi)

unfoldable pub fetch24 : M ℕ
fetch24 = do lo ← fetch16; bank ← fetch8; pure (long_addr bank lo)

unfoldable pub next_addr : Ea → ℕ
next_addr e = if e.bank0 then u16 (e.a + 1) else u24 (e.a + 1)

unfoldable pub rd : Ea → Bool → M ℕ
rd e wide = do
  v ← read8 e.a
  elim wide [ true ↦ do hi ← read8 (next_addr e); pure (word v hi) | false ↦ pure v ]

unfoldable pub wr : Ea → Bool → ℕ → M (Unit {0})
wr e wide v = do write8 e.a (u8 v); when wide (write8 (next_addr e) (u8 (v >>> 8)))

-- The write of a read-modify-write: the high byte first.
unfoldable pub wr_rmw : Ea → Bool → ℕ → M (Unit {0})
wr_rmw e wide v = do when wide (write8 (next_addr e) (u8 (v >>> 8))); write8 e.a (u8 v)

unfoldable pub rd_bank0_16 : ℕ → M ℕ
rd_bank0_16 a = do lo ← read8 a; hi ← read8 (u16 (a + 1)); pure (word lo hi)

unfoldable pub rd_bank0_24 : ℕ → M ℕ
rd_bank0_24 a = do lo ← rd_bank0_16 a; bank ← read8 (u16 (a + 2)); pure (long_addr bank lo)

unfoldable pub push : ℕ → M (Unit {0})
push v = do s ← gets (λ w. w.cpu.s); write8 s v; on_cpu push_s

unfoldable pub pull : M ℕ
pull = do on_cpu pull_s; s ← gets (λ w. w.cpu.s); read8 s

unfoldable pub pushw : ℕ → M (Unit {0})
pushw v = do push (u8 (v >>> 8)); push (u8 v)

unfoldable pub pullw : M ℕ
pullw = do lo ← pull; hi ← pull; pure (word lo hi)

-- `enum mode`.
pub data Mode : Type 0 where
  imm dp dp_x dp_y dp_i dp_x_i dp_i_y dp_il dp_il_y sr sr_i_y abs abs_x abs_y long long_x : Mode

unfoldable pub bank0 : ℕ → Ea
bank0 a = record { a = u16 a; bank0 = true }

unfoldable pub full : ℕ → Ea
full a = record { a = u24 a; bank0 = false }

-- `ct_cyc_cross = ((b ^ (b + i)) & 0xFF00) != 0`.
unfoldable pub set_cross : ℕ → ℕ → M (Unit {0})
set_cross b i =
    on_cyc (λ cy. record cy { cross = flag (not (bit_and (bit_xor b (b + i)) 0xFF00 == 0)) })

-- The cases of `ea` that add an index and note a page crossing.
unfoldable pub indexed : ℕ → ℕ → M Ea
unfolding full
indexed b i = do set_cross b i; pure (full (b + i))

-- The switch of `ea`, with the registers as they are before the operand is fetched.
unfoldable pub ea_mode : Mode → Cpu → M Ea
unfolding bank0 full
ea_mode imm c = ct_fatal bad_mode
ea_mode dp c = do d ← fetch8; pure (bank0 (c.dp + d))
ea_mode dp_x c = do d ← fetch8; pure (bank0 (c.dp + d + c.x))
ea_mode dp_y c = do d ← fetch8; pure (bank0 (c.dp + d + c.y))
ea_mode dp_i c = do d ← fetch8; p ← rd_bank0_16 (u16 (c.dp + d)); pure (full (long_addr c.db p))
ea_mode dp_x_i c = do
  d ← fetch8
  p ← rd_bank0_16 (u16 (c.dp + d + c.x))
  pure (full (long_addr c.db p))
ea_mode dp_i_y c = do d ← fetch8; p ← rd_bank0_16 (u16 (c.dp + d)); indexed (long_addr c.db p) c.y
ea_mode dp_il c = do d ← fetch8; p ← rd_bank0_24 (u16 (c.dp + d)); pure (full p)
ea_mode dp_il_y c = do d ← fetch8; p ← rd_bank0_24 (u16 (c.dp + d)); pure (full (p + c.y))
ea_mode sr c = do d ← fetch8; pure (bank0 (c.s + d))
ea_mode sr_i_y c = do
  d ← fetch8
  p ← rd_bank0_16 (u16 (c.s + d))
  pure (full (long_addr c.db p + c.y))
ea_mode abs c = do a ← fetch16; pure (full (long_addr c.db a))
ea_mode abs_x c = do a ← fetch16; indexed (long_addr c.db a) c.x
ea_mode abs_y c = do a ← fetch16; indexed (long_addr c.db a) c.y
ea_mode long c = do a ← fetch24; pure (full a)
ea_mode long_x c = do a ← fetch24; pure (full (a + c.x))

unfoldable pub ea : Mode → M Ea
ea md = do c ← gets (λ w. w.cpu); ea_mode md c

-- `operand`: the immediate value, or the memory at the address.
unfoldable pub operand : Mode → Bool → M ℕ
operand imm true = fetch16
operand imm false = fetch8
operand md wide = do e ← ea md; rd e wide

unfoldable pub rmw_mem : Rmw → Mode → M (Unit {0})
rmw_mem op md = do
  m ← gets (λ w. w.cpu.fm)
  let wide = m == 0
  e ← ea md
  v ← rd e wide
  r ← with_cpu (rmw op v wide)
  wr_rmw e wide r

-- `loop_tick`: the step budget, charged on a jump that does not go forward.
unfoldable pub loop_tick : ℕ → ℕ → M (Unit {0})
loop_tick at new_pc = do
  budget ← gets (λ w. w.ctl.interp_budget)
  when (not (ltb (u16 at) new_pc) && not (budget == 0)) (do
    on_ctl (λ k. record k { interp_budget = budget - 1 })
    when (budget == 1) (ct_fatal (budget_exhausted at)))

-- `(int8_t)v` as a 16-bit addend.
abbrev pub sign_extend : ℕ → ℕ
sign_extend v = if ltb v 0x80 then v else v + 0xFF00

unfoldable pub branch : ℕ → Bool → M (Unit {0})
branch at cond = do
  off ← fetch8
  when cond (do
    on_cyc (λ cy. record cy { taken = 1 })
    on_cpu (λ c. record c { pc = u16 (c.pc + sign_extend off) })
    c ← gets (λ w. w.cpu)
    loop_tick at c.pc)
