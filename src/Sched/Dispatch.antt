-- ===== src/Sched/Dispatch.antt =====
-- One step of the CPU under the scheduler, runtime/sched.c: `exec_one`, `exec_hook`, `tick`.
use ct_recomp.Base.{
  ℕ, zero, suc, Bool, true, false, Option, none, some, ◌+◌, ◌==◌, ◌&&◌, ◌||◌, not, if◌then◌else◌,
  long_addr, length,
}
use ct_recomp.Base.Options.{◌>>=◌, guard, ◌>>◌}
use ct_recomp.Interp.Run.{interp_step, interp_interrupt, interp_wake}
use ct_recomp.Interp.Rest.{ExecUntil, no_address, ct_exec_done}
use ct_recomp.Sched.{Pending}
use ct_recomp.Sched.Profile.{shadow_push, shadow_rest, prof_charge}
use ct_recomp.Sched.Native.{Func, native_lookup}
use ct_recomp.Sched.World.{
  World, Env, Step, Tail, no_tail, rest_runner, tail_to, run, on_overlays, wram_of, charge_world,
  charge_finished, wai_world,
}
use ct_recomp.Overlay.{OverlayFunc}
use ct_recomp.Overlay.Lookup.{overlay_lookup}
use ct_recomp.Overlay.Active.{overlay_enter, overlay_leave}

abbrev pub pending_of : World → Pending
pending_of w = w.exec.sched.pend

-- Before an interrupt's entry: `need_nmi` and the count, or the IRQ, then `take_irq`, `int_depth`
-- and `insn_i`.
unfoldable pub accepted : Bool → World → World
accepted nmi w =
    let s = w.exec.sched in
    record w {
      exec = record w.exec {
        sched = if nmi then record s { pend = record s.pend { need_nmi = false } } else s;
        take_irq = false;
        insn_i = true;
      };
      nmis = if nmi then w.nmis + 1 else w.nmis;
      entered = w.entered + 1;
    }

-- An interrupt's entry, charged.
unfoldable pub enter_interrupt : Env → Bool → Step
enter_interrupt v nmi w = do
  r ← run (interp_interrupt nmi) (accepted nmi w)
  w2 ← charge_world v r.0 r.1
  some (record w2 { skip_check = true; shadow = shadow_push w2.machine.cpu w2.shadow })

-- `exec_one` in a WAI; the wait was over before its cycle, or goes on.
unfoldable pub wake : Bool → Step
wake false w = some w
wake true w = do
  r ← run interp_wake w
  some (record r.1 {
    exec = record r.1.exec { wai_over = false; take_irq = r.1.exec.sched.pend.prev_irq };
  })

unfoldable pub exec_wait : Env → Step
exec_wait v w = do w1 ← wai_world v w; wake w.exec.wai_over w1

-- The loop over the functions that native code tail-jumped to, with a bound on them.
unfoldable pub follow : Env → Step → Tail → Step
follow v rest no_tail w = some w
follow v rest rest_runner w = some w
follow v rest (tail_to k) w = do w1 ← v.run_tail k (record w { tail = no_tail }); rest w1

unfoldable pub run_tails : Env → ℕ → Step
run_tails v zero w = none
run_tails v (suc n) w = follow v (run_tails v n) w.tail w

-- A rest that native code handed over is left to this loop.
unfoldable pub hand_over : Tail → World → World
hand_over no_tail w = w
hand_over (tail_to k) w = w
hand_over rest_runner w = record w {
  tail = no_tail;
  shadow = shadow_rest w.machine.cpu w.tail_s0 w.shadow;
}

unfoldable pub take_over : World → World
take_over w = hand_over w.tail w

-- After native code: its tail calls, its last instruction, the rest that it handed over.
unfoldable pub after_native : Env → Step
after_native v w = do w1 ← run_tails v v.tails w; w2 ← charge_finished v w1; some (take_over w2)

-- `overlay_enter`, with whether it is done.
unfoldable pub entered_overlay : OverlayFunc → World → Bool × World
entered_overlay o w =
    on_overlays
      (λ os. elim (overlay_enter o os.overlay_last_idx w.machine.cpu.s os) [
        | none ↦ (false, os)
        | some os' ↦ (true, os')
      ])
      w

-- `run_overlay`: the function returns, or `overlay_bail` has left it.
unfoldable pub run_overlay : Env → OverlayFunc → Step
run_overlay v o w = do
  guard (entered_overlay o w).0
  w1 ← v.run_overlay_func o (entered_overlay o w).1
  some (on_overlays (λ os. (tt, overlay_leave (length w.overlays.act) os)) w1).1

-- Whether an opcode is JSR, JSL or JSR (a,X); MVN or MVP.
unfoldable pub is_call : ℕ → Bool
is_call op = op == 0x20 || op == 0x22 || op == 0xFC

unfoldable pub is_move : ℕ → Bool
is_move op = op == 0x54 || op == 0x44

-- The profile before an instruction by the interpreter, and `insn_i`; a byte of a block move after
-- the first is not a new instruction.
unfoldable pub profiled : ℕ → World → World
profiled at w =
    let p = prof_charge w.machine.cpu w.shadow w.prof in
    record w {
      prof_interp = if at == w.mv_at then w.prof_interp else w.prof_interp + 1;
      shadow = if at == w.mv_at then w.shadow else p.0;
      prof = if at == w.mv_at then w.prof else p.1;
      exec = record w.exec { insn_i = not (w.machine.cpu.fi == 0) };
    }

-- What follows the instruction at `at` before its clocks are charged.
unfoldable pub stepped : ℕ → World → World
stepped at w =
    let c = w.machine.cpu in
    let op = w.machine.ctl.last_op in
    record w {
      exec = if w.machine.ctl.waiting == 0 then w.exec else record w.exec { wai_over = false };
      mv_at = if is_move op && long_addr c.pb c.pc == at then at else no_address;
      returned = if op == 0x40 then w.returned + 1 else w.returned;
      shadow = if is_call op then shadow_push c w.shadow else w.shadow;
    }

-- One instruction by the interpreter.
unfoldable pub exec_interp : Env → Step
exec_interp v w = do
  let at = long_addr w.machine.cpu.pb w.machine.cpu.pc
  r ← run interp_step (profiled at w)
  charge_world v r.0 (stepped at r.1)

-- An instruction or a recompiled function, at an instruction boundary.
unfoldable pub exec_overlay : Env → Option OverlayFunc → Step
exec_overlay v none w = exec_interp v w
exec_overlay v (some o) w = do w1 ← run_overlay v o w; after_native v w1

unfoldable pub find_overlay : Env → World → Option OverlayFunc × World
find_overlay v w =
    if v.native_on then on_overlays (overlay_lookup w.machine.cpu (wram_of w)) w else (none, w)

unfoldable pub exec_native : Env → Option Func → Step
exec_native v (some f) w = do w1 ← v.run_func f w; after_native v w1
exec_native v none w = exec_overlay v (find_overlay v w).0 (find_overlay v w).1

unfoldable pub exec_insn : Env → Step
exec_insn v w = exec_native v (native_lookup v.native_on v.native w.machine.cpu) w

abbrev pub is_waiting : World → Bool
is_waiting w = not (w.machine.ctl.waiting == 0)

unfoldable pub exec_uninterrupted : Env → Step
exec_uninterrupted v w = if is_waiting w then exec_wait v w else exec_insn v w

unfoldable pub exec_one : Env → Step
exec_one v w =
    if w.skip_check
    then exec_uninterrupted v (record w { skip_check = false })
    else if not (is_waiting w) && ((pending_of w).need_nmi || w.exec.take_irq)
    then enter_interrupt v (pending_of w).need_nmi w
    else exec_uninterrupted v w

-- `while (!done) exec_one();`, with a bound on the rounds.
unfoldable pub exec_until : Env → (World → Bool) → ℕ → Step
exec_until v finished zero w = none
exec_until v finished (suc n) w = elim (finished w) [
  | true ↦ some w
  | false ↦ do w1 ← exec_one v w; exec_until v finished n w1
]

-- `exec_hook`, the scheduler's `ct_exec_hook`.
unfoldable pub exec_hook : Env → ℕ → ExecUntil → Step
exec_hook v rounds u w = do
  w1 ← charge_finished v w
  let c = w1.machine.cpu
  let shadow = if u.back == no_address then shadow_rest c u.s w1.shadow else shadow_push c w1.shadow
  exec_until v (λ x. ct_exec_done u x.machine.cpu) rounds (record w1 { shadow = shadow })
