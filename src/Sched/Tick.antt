-- ===== src/Sched/Tick.antt =====
-- The hook of every recompiled instruction in runtime/sched.c: `tick`, `overlay_bail`.
use ct_recomp.Base.{
  ℕ, zero, suc, Bool, true, false, Option, none, some, ◌+◌, ◌==◌, ◌&&◌, ◌||◌, ltb, not,
  if◌then◌else◌, u8, u16, ◌>>>◌,
}
use ct_recomp.Base.Options.{◌>>=◌, guard, ◌>>◌}
use ct_recomp.Cpu.{Cpu}
use ct_recomp.Machine.{on_cpu}
use ct_recomp.Interp.Rest.{ExecUntil, no_address, ct_exec_done}
use ct_recomp.Cycles.Model.{cyc_begin_compiled}
use ct_recomp.Sched.World.{World, Env, Step, no_tail, run, on_overlays, wram_of, charge_finished}
use ct_recomp.Sched.Dispatch.{pending_of, enter_interrupt, is_move, exec_until}
use ct_recomp.Overlay.{Act}
use ct_recomp.Overlay.Active.{overlay_stale_active}

-- What the `ct_fatal` after a handler compares: where the CPU is, its stack and modes.
unfoldable pub same_place : Cpu → Cpu → Bool
same_place c before =
    c.pb == before.pb
    && c.pc == before.pc
    && c.s == before.s
    && c.fm == before.fm
    && c.fx == before.fx
    && c.fe == before.fe

-- `int_depth > depth`, where `from` is the state that `depth` was taken in.
unfoldable pub deeper : World → World → Bool
deeper from w = ltb (w.returned + from.entered) (w.entered + from.returned)

-- One interrupt taken at a native instruction: its entry, its handler up to its RTI, the check.
unfoldable pub handle_interrupt : Env → ℕ → Step
handle_interrupt v rounds w = do
  w1 ← enter_interrupt v (pending_of w).need_nmi w
  w2 ← exec_until v (λ x. not (deeper w x)) rounds w1
  guard (same_place w2.machine.cpu w.machine.cpu)
  charge_finished v w2

-- The `for (;;)` of `tick`, with a bound on the interrupts and on the rounds of each.
unfoldable pub interrupts : Env → ℕ → ℕ → Step
interrupts v zero rounds w = none
interrupts v (suc n) rounds w = elim ((pending_of w).need_nmi || w.exec.take_irq) [
  | true ↦ do w1 ← handle_interrupt v rounds w; interrupts v n rounds w1
  | false ↦ some w
]

-- How a tick ends: the instruction runs, or control leaves the native code for the outer dispatch.
pub data Ticked : Type 0 where
  goes_on bailed : World → Ticked

-- `overlay_bail`.
unfoldable pub overlay_bail : Env → ℕ → Act → World → Option Ticked
overlay_bail v rounds a w = do
  guard (not v.strict)
  let u : ExecUntil = record { back = no_address; s = a.s0 }
  w1 ← exec_until v (λ x. ct_exec_done u x.machine.cpu) rounds w
  some (bailed (record w1 { tail = no_tail }))

-- The counts of `tick` before it begins the instruction `op` at `at`.
unfoldable pub counted : ℕ → ℕ → World → World
counted at op w = record w {
  returned = if op == 0x40 then w.returned + 1 else w.returned;
  prof_native = if is_move op && at == w.last_at then w.prof_native else w.prof_native + 1;
  last_at = at;
  exec = record w.exec { insn_i = not (w.machine.cpu.fi == 0) };
}

unfoldable pub begin_native : ℕ → ℕ → World → Option Ticked
begin_native at op w = do r ← run (cyc_begin_compiled at op) w; some (goes_on r.1)

abbrev pub no_hit : World → World
no_hit w = record w { machine = record w.machine { bus = record w.machine.bus { wram_hit = 0 } } }

-- A write to the code of a running overlay function is looked for, and the instruction begins.
unfoldable pub after_hit : Env → ℕ → ℕ → ℕ → Option Act × World → Option Ticked
after_hit v rounds at op (some a, w) = overlay_bail v rounds a w
after_hit v rounds at op (none, w) = begin_native at op w

unfoldable pub checked : Env → ℕ → ℕ → ℕ → World → Option Ticked
checked v rounds at op w = elim (w.machine.bus.wram_hit == 0) [
  | true ↦ begin_native at op w
  | false ↦ after_hit v rounds at op (on_overlays (overlay_stale_active (wram_of w)) (no_hit w))
]

-- PB:PC at a boundary, as the interpreter has it.
unfoldable pub at_boundary : ℕ → Cpu → Cpu
at_boundary at c = record c { pb = u8 (at >>> 16); pc = u16 at }

unfoldable pub tick : Env → ℕ → ℕ → ℕ → World → Option Ticked
tick v rounds at op w = do
  r ← run (on_cpu (at_boundary at)) w
  w1 ← charge_finished v r.1
  w2 ← interrupts v rounds rounds w1
  checked v rounds at op (counted at op w2)
