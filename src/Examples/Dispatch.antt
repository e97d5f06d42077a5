-- ===== src/Examples/Dispatch.antt =====
-- The theorems about the scheduler's dispatch at concrete inputs.
use ct_recomp.Base.{
  ◌≡◌, refl, true, false, Option, none, some, [], ap, sym, arith, leb, if◌then◌else◌, update,
}
use ct_recomp.Cpu.{Cpu}
use ct_recomp.Machine.{Machine, M, ◌>>◌, on_bus}
use ct_recomp.Sound.State.{IsMachine}
use ct_recomp.Interp.Rest.{no_address}
use ct_recomp.Interp.Instr.{rti}
use ct_recomp.Interp.Exec.{exec}
use ct_recomp.Interp.Run.{interp_interrupt}
use ct_recomp.Interp.Total.{Returns}
use ct_recomp.Interp.Interrupted.{entered}
use ct_recomp.Interp.Returned.{IsTidy, interrupt-rti}
use ct_recomp.Sched.World.{World, Env, no_tail}
use ct_recomp.Sched.Tick.{at_boundary, tick}
use ct_recomp.Sched.Dispatch.{exec_one}
use ct_recomp.Sched.Kept.{IsEnv}
use ct_recomp.Sched.Accepted.{Accepted, exec_one-interrupt}
use ct_recomp.Sched.Stays.{All, LeavesCpu, Resumes}
use ct_recomp.Sched.Resumed.{tick-Resumes}
use ct_recomp.Examples.{start, start-IsMachine}
use ct_recomp.Overlay.Lookup.{overlay_state, state_loop, first_at}
use ct_recomp.Sched.Profile.{entry_key}
use ct_recomp.Sched.Native.{native_entries, native_build, native_lookup, first_from}
use ct_recomp.Sched.Reason.{not_native_reason}
use ct_recomp.Sched.Explained.{is_some, is_unexplained, not_native_reason-native_lookup}
use mathlib.Core.List.Perm
use ct_recomp.Examples.Runtime.{late, running, table, table-IsSorted, some_wram}

-- ROM of RTI, with every vector $9090.
abbrev returning : Machine
returning = record start {
  bus = record start.bus { rom = λ i. if leb 0xFFE0 i then 0x90 else 0x40 };
}

returning-IsMachine : IsMachine returning
returning-IsMachine = record {
  cpu_ok = start-IsMachine.cpu_ok;
  bus_ok = ground arith;
  link_ok = start-IsMachine.link_ok;
}

-- Native code at $008000 with an NMI due.
abbrev interrupted : World
interrupted = record {
  machine = returning;
  exec = record {
    sched = record late { pend = record late.pend { need_nmi = true } };
    insn_i = false;
    take_irq = false;
    wai_over = false;
  };
  overlays = running;
  skip_check = false;
  entered = 0;
  returned = 0;
  nmis = 0;
  shadow = [];
  prof = λ k. record { key = 0; count = 0 };
  prof_native = 0;
  prof_interp = 0;
  tail = no_tail;
  tail_s0 = 0;
  mv_at = no_address;
  last_at = 0;
}

-- Calls that do nothing, and no recompiled code to dispatch to.
abbrev quiet_env : Env
quiet_env = record {
  fuel = 100;
  tails = 1;
  hooked = false;
  setting = λ w. record {
    fuel = 100;
    answers = record { enabled = false; cost = 0; init_cost = 0 };
    ports = w.exec.sched.ports;
    count8 = false;
  };
  cycles = λ w. [];
  host = λ w. some w;
  native_on = true;
  native = [];
  run_func = λ f w. some w;
  run_overlay_func = λ f w. some w;
  run_tail = λ k w. some w;
  strict = false;
}

quiet_env-IsEnv : IsEnv quiet_env
quiet_env-IsEnv = record {
  host = λ w h. h;
  func = λ f w h. h;
  overlay = λ f w h. h;
  tail = λ k w h. h;
}

cpu_or : Cpu → Option World → Cpu
cpu_or c none = c
cpu_or c (some w) = w.machine.cpu

quiet_env-LeavesCpu : LeavesCpu quiet_env
unfolding cpu_or
quiet_env-LeavesCpu = record { leaves = λ w u e. sym (ap (cpu_or w.machine.cpu) e) }

-- A handler that writes a byte of WRAM below the stack.
abbrev marking : M (Unit {0})
marking = on_bus (λ b. record b { wram = update b.wram 0x10 7 })

marking-IsTidy : IsTidy (entered true 0x1FFB returning.bus.rom returning.cpu) marking
unfolding on_bus
marking-IsTidy = record { tidy = λ u e. (e, refl, λ i h. ground arith) }

interrupt_example :
    Returns
      (λ _ u. u.cpu ≡ entered true 0x1FFB returning.bus.rom returning.cpu)
      (interp_interrupt true returning)
    × Returns
        (λ _ u. (u.cpu ≡ returning.cpu) × (u.bus.wram 0x2000 ≡ 0))
        ((interp_interrupt true >> (marking >> exec rti 0x9090 0x40 true false)) returning)
interrupt_example =
    interrupt-rti true 0x9090 0x40 true false marking 0x2000 returning start-IsMachine.cpu_ok refl
      (omega arith) (omega arith) (omega arith) marking-IsTidy (omega arith)

exec_one_example :
    All
      (Accepted quiet_env (entered true 0x1FFB returning.bus.rom returning.cpu))
      (exec_one quiet_env interrupted)
exec_one_example =
    exec_one-interrupt quiet_env interrupted quiet_env-LeavesCpu refl (omega arith) (omega arith)
      refl refl refl

tick_example : Resumes (at_boundary 0x8000 start.cpu) (tick quiet_env 3 0x8000 0xEA interrupted)
tick_example =
    tick-Resumes quiet_env 3 0x8000 0xEA interrupted quiet_env-IsEnv quiet_env-LeavesCpu
      returning-IsMachine

no_overlay : (overlay_state 0x8000 0 0 some_wram running).0 ≡ false
unfolding overlay_state state_loop first_at first_from
no_overlay = refl

not_native_reason_example :
    is_unexplained (not_native_reason some_wram table (entry_key start.cpu) running).0
    ≡ is_some (native_lookup true (native_build (λ fs. fs) table) start.cpu)
unfolding native_build native_entries
not_native_reason_example =
    not_native_reason-native_lookup (λ fs. fs) start.cpu some_wram table running
      start-IsMachine.cpu_ok refl (omega arith) no_overlay table-IsSorted (Perm.refl table)
