-- ===== src/Interp/Run.antt =====
-- `step`, `interp_call`, the system mode and the calls of generated code in runtime/interp.c.
use ct_recomp.Base.{ℕ, zero, suc, Bool, true, false, not, ◌+◌, ◌-◌, ◌^◌}
use ct_recomp.Base.{◌==◌, ltb, if◌then◌else◌, ◌&&◌, ◌||◌}
use ct_recomp.Base.{u8, u16, u32, ◌>>>◌, word, long_addr}
use ct_recomp.Cpu.{Cpu}
use ct_recomp.Base.{List, [], ◌∷◌}
use ct_recomp.Cpu.{cpu_init}
use ct_recomp.Machine.{M, ◌>>=◌, ◌>>◌, pure, ct_fatal, gets, on_cpu, on_ctl, when}
use ct_recomp.Machine.{
  cap_exceeded, emulation_mode, interrupt_in_emulation, step_while_waiting, emulation_opcode,
}
use ct_recomp.Memory.{read8}
use ct_recomp.Cycles.Model.{cyc_master_per_cycle, cyc_begin, cyc_begin_interrupt, cyc_finish}
use ct_recomp.Interp.Registers.{pack_p}
use ct_recomp.Interp.Access.{fetch8, push, pushw}
use ct_recomp.Interp.Decode.{decode}
use ct_recomp.Interp.Exec.{exec}

-- `step`; the widths are those before the instruction.
unfoldable pub step : ℕ → ℕ → M (Unit {0})
step at op = do c ← gets (λ w. w.cpu); exec (decode op) at op (c.fm == 0) (c.fx == 0)

-- `CT_INTERP_BUDGET` and `CT_INTERP_DISPATCH_CAP` of runtime/interp.h.
abbrev pub ct_interp_budget : ℕ
ct_interp_budget = 3000000

abbrev pub ct_interp_dispatch_cap : ℕ
ct_interp_dispatch_cap = 200000000

-- `(op == 0x60 || op == 0x6B) && c->S > s0`
unfoldable pub is_last_return : ℕ → ℕ → Cpu → Bool
is_last_return op s0 c = (op == 0x60 || op == 0x6B) && ltb s0 c.s

-- The loop of `interp_call`. The argument is `dispatch_cap`, which each round decrements first, so
-- the loop makes fewer rounds than the cap.
unfoldable pub call_loop : ℕ → ℕ → M (Unit {0})
call_loop zero s0 = do c ← gets (λ w. w.cpu); ct_fatal (cap_exceeded (long_addr c.pb c.pc))
call_loop (suc cap) s0 = do
  c ← gets (λ w. w.cpu)
  let at = long_addr c.pb c.pc
  when (cap == 0) (ct_fatal (cap_exceeded at))
  op ← fetch8
  step at op
  c' ← gets (λ w. w.cpu)
  elim (is_last_return op s0 c') [ true ↦ pure tt | false ↦ call_loop cap s0 ]

-- `interp_call` with the dispatch cap as an argument.
unfoldable pub interp_call_capped : ℕ → ℕ → M (Unit {0})
interp_call_capped cap entry = do
  on_ctl (λ k. record k { sys = 0 })
  c ← gets (λ w. w.cpu)
  when (not (c.fe == 0)) (ct_fatal emulation_mode)
  on_ctl (λ k. record k { shadow = []; interp_budget = ct_interp_budget })
  on_cpu (λ c. record c { pb = u8 (entry >>> 16); pc = u16 entry })
  call_loop cap c.s

unfoldable pub interp_call : ℕ → M (Unit {0})
interp_call entry = interp_call_capped ct_interp_dispatch_cap entry

-- The labels of `emulation_ok`.
abbrev pub emulation_ops : List ℕ
emulation_ops =
    0x18 ∷ 0x38 ∷ 0x58 ∷ 0x78 ∷ 0xD8 ∷ 0xF8 ∷ 0xB8 ∷ 0xFB ∷ 0xEA ∷ 0xC2 ∷ 0xE2 ∷ 0xA9 ∷ 0xA2 ∷ 0xA0
    ∷ 0x4C ∷ 0x5C ∷ 0x10 ∷ 0x30 ∷ 0x50 ∷ 0x70 ∷ 0x90 ∷ 0xB0 ∷ 0xD0 ∷ 0xF0 ∷ 0x80 ∷ []

unfoldable pub contains : List ℕ → ℕ → Bool
contains [] op = false
contains (o ∷ ops) op = o == op || contains ops op

unfoldable pub emulation_ok : ℕ → Bool
unfolding contains
emulation_ok op = contains emulation_ops op

unfoldable pub interp_step : M ℕ
interp_step = do
  on_ctl (λ k. record k { sys = 1; shadow = []; interp_budget = 0 })
  waiting ← gets (λ w. w.ctl.waiting)
  when (not (waiting == 0)) (ct_fatal step_while_waiting)
  c ← gets (λ w. w.cpu)
  let at = long_addr c.pb c.pc
  op ← fetch8
  on_ctl (λ k. record k { last_op = op })
  when (not (c.fe == 0) && not (emulation_ok op)) (ct_fatal (emulation_opcode at op))
  cyc_begin at op
  step at op
  cyc_finish

unfoldable pub interp_interrupt : Bool → M ℕ
interp_interrupt nmi = do
  w ← gets (λ w. w)
  let c = w.cpu
  when (not (c.fe == 0)) (ct_fatal interrupt_in_emulation)
  let fetch = cyc_master_per_cycle w.bus.memsel c.pb c.pc
  cyc_begin_interrupt
  clocks0 ← gets (λ w. w.bus.clocks)
  push c.pb
  pushw c.pc
  push (pack_p c)
  on_cpu (λ c. record c { fi = 1; fd = 0; pb = 0 })
  let vec = if nmi then 0xFFEA else 0xFFEE
  lo ← read8 vec
  hi ← read8 (u16 (vec + 1))
  on_cpu (λ c. record c { pc = word lo hi })
  on_ctl (λ k. record k { waiting = 0 })
  clocks ← gets (λ w. w.bus.clocks)
  pure (u32 (fetch + 6 + (clocks + 2 ^ 32 - clocks0)))

unfoldable pub interp_wake : M (Unit {0})
interp_wake = on_ctl (λ k. record k { waiting = 0 })

-- The registers of `interp_reset` before the vector is read.
unfoldable pub reset_registers : Cpu → Cpu
unfolding cpu_init
reset_registers c = record (cpu_init c) {
  fe = 1;
  fm = 1;
  fx = 1;
  fi = 1;
  fd = 0;
  s = 0x01FF;
  dp = 0;
  db = 0;
  pb = 0;
}

unfoldable pub interp_reset : M (Unit {0})
interp_reset = do
  on_cpu reset_registers
  lo ← read8 0xFFFC
  hi ← read8 0xFFFD
  on_cpu (λ c. record c { pc = word lo hi })
  on_ctl (λ k. record k { waiting = 0 })
