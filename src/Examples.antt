-- ===== src/Examples.antt =====
-- A small machine, and the theorems at concrete inputs; those of the other parts of the runtime
-- are in the child.
pub mod Runtime
pub mod Devices
pub mod Dispatch
use ct_recomp.Base.{
  ℕ, true, false, Option, none, some, [], ◌≡◌, refl, ap, ◌+◌, ◌<◌, ◌≤◌, ◌^◌, arith,
}
use mathlib.Core.Path.{subst}
use ct_recomp.Cpu.{Cpu, IsCpu}
use ct_recomp.Bus.{Bus}
use ct_recomp.Machine.{Cycles, Machine}
use ct_recomp.Base.{length, u24, flag, ltb, leb, ◌||◌, ◌*◌, ◌/◌, ◌%◌}
use ct_recomp.Bus.Map.{bus_access_clocks, decode_addr, in_wram}
use ct_recomp.Bus.Division.{quotient_back, remainder_back, division-read}
use ct_recomp.Bus.Speed.{documented, bus_access_clocks-eq-documented, InRange, decode_addr-InRange}
use ct_recomp.Machine.{◌>>◌}
use ct_recomp.Memory.{read8, write8}
use ct_recomp.Memory.Readback.{value_of, write8-read8}
use ct_recomp.Ops.Flags.{a8, get_p, set_p}
use ct_recomp.Ops.Values.{add8}
use ct_recomp.Ops.Memory.{mvn_rounds}
use ct_recomp.Cycles.Table.{cyc_base, cyc_pen}
use ct_recomp.Cycles.Model.{cycle_count, penalty}
use ct_recomp.Cycles.Walk.{cyc_cycles}
use ct_recomp.Cycles.Length.{cyc_cycles-length}
use ct_recomp.Interp.Registers.{pack_p, unpack_p, get_a, rmw, ror}
use ct_recomp.Interp.Exec.{alu_value}
use ct_recomp.Interp.Run.{step, interp_call_capped, interp_step, interp_interrupt, interp_reset}
use ct_recomp.Agree.Flags.{status_agrees}
use ct_recomp.Agree.Values.{generated_rmw, generated_rmw-eq-rmw}
use ct_recomp.Agree.Add.{biased8, add8-sum, SameEnd, generated_add, adder, adds-eq-alu_value}
use ct_recomp.Sound.State.{IsBus, IsMachine, Holds, Any, Free}
use ct_recomp.Sound.Move.{mvn_rounds-enough}
use ct_recomp.Sound.Entry.{interp_step-IsMachine, entries-IsMachine}

-- A machine in native mode at 0x008000, with INC A in every ROM byte, devices that read 0 and
-- ignore writes, and no tables.
abbrev start_cpu : Cpu
start_cpu = record {
  a = 0x00FF;
  x = 3;
  y = 4;
  s = 0x1FFF;
  dp = 0;
  db = 0x7E;
  pb = 0;
  pc = 0x8000;
  fn = 0;
  fv = 0;
  fm = 0;
  fx = 0;
  fd = 0;
  fi = 1;
  fz = 0;
  fc = 1;
  fe = 0;
}

-- The same with 8-bit registers.
abbrev narrow_cpu : Cpu
narrow_cpu = record start_cpu { fm = 1; fx = 1 }

abbrev start_bus : Bus
start_bus = record {
  rom = λ i. 0x1A;
  wram = λ i. 0;
  sram = λ i. 0;
  hw_rd = λ i. none;
  hw_wr = λ i. none;
  alu = record { wrmpya = 0; wrmpyb = 0; wrdivb = 0; wrdiv = 0xABCD; rddiv = 0; rdmpy = 0 };
  wram_port_addr = 0;
  mdr = 0;
  memsel = 1;
  wram_gen = λ i. 0;
  watch_lo = 0;
  watch_len = 0;
  wram_hit = 0;
  clocks = 0;
  accesses = 0;
  log = λ i. 0;
  fetch_mark = 0;
  wram_off = λ i. 0;
  wram_old = λ i. 0;
  wram_new = λ i. 0;
  notes = [];
  dev = λ i. 0;
}

abbrev start_cycles : Cycles
start_cycles = record {
  cross = 0;
  taken = 0;
  pending = 0;
  compiled = 0;
  at = 0x8000;
  op = 0xB1;
  m16 = 1;
  x16 = 0;
  dl = 1;
  native = 1;
  interrupt = 0;
  speed = 8;
  size = 2;
}

abbrev pub start : Machine
start = record {
  cpu = start_cpu;
  bus = start_bus;
  cyc = start_cycles;
  ctl = record {
    sys = 1;
    waiting = 0;
    shadow = [];
    interp_budget = 0;
    last_op = 0;
    budget = 0;
    scheduled = 1;
  };
  link = record {
    read_device = λ k r b. some (0, b);
    write_device = λ k r v b. some b;
    init_devices = λ b. b;
    reset_devices = λ b. b;
    externs = [];
    jumptables = [];
  };
}

start-IsCpu : IsCpu start_cpu
start-IsCpu = ground arith

start-IsBus : IsBus start_bus
start-IsBus = ground arith

idle_read :
    (b b' : Bus) (v : ℕ)
    → IsBus b
    → ◌≡◌ {A = Option (ℕ × Bus)} (some (0, b)) (some (v, b'))
    → (v < 2 ^ 8) × IsBus b'
idle_read b b' v h e =
    let same : 0 ≡ v = ap (λ (o : Option (ℕ × Bus)). elim o [ none ↦ 0 | some q ↦ q.0 ]) e in
    (
      omega (arith, same),
      subst IsBus (ap (λ (o : Option (ℕ × Bus)). elim o [ none ↦ b | some q ↦ q.1 ]) e) h,
    )

pub start-IsMachine : IsMachine start
start-IsMachine = record {
  cpu_ok = start-IsCpu;
  bus_ok = start-IsBus;
  link_ok = record {
    read_keeps = λ k r v b b' h e. idle_read b b' v h e;
    write_keeps = λ k r v b b' p h e.
        subst IsBus (ap (λ (o : Option Bus). elim o [ none ↦ b | some q ↦ q ]) e) h;
    reset_keeps = λ b h. h;
    init_keeps = λ b h. h;
    hooks_keep = tt;
  };
}

interp_step_example : Holds Free Any (interp_step start)
interp_step_example = interp_step-IsMachine start start-IsMachine

mvn_rounds_example :
    mvn_rounds (0x00FF + 1 + 5) 0x7E 0x00 start ≡ mvn_rounds (0x00FF + 1) 0x7E 0x00 start
mvn_rounds_example = mvn_rounds-enough 5 0x7E 0x00 start (omega arith) start-IsMachine refl

few_cycles : cycle_count start_cycles ≤ 12
unfolding cycle_count cyc_base cyc_pen penalty
few_cycles = omega arith

cyc_cycles_example : length (cyc_cycles start_cycles start_bus 12 none) ≡ cycle_count start_cycles
cyc_cycles_example = cyc_cycles-length start_cycles start_bus 12 (omega arith) refl few_cycles

bus_access_clocks_example : bus_access_clocks 1 0x804016 ≡ documented true 0x80 0x4016
bus_access_clocks_example = bus_access_clocks-eq-documented 1 0x804016 (omega arith)

decode_addr_example : InRange (decode_addr 0xFFFFFF)
decode_addr_example = decode_addr-InRange 0xFFFFFF (omega arith)

division_example :
    (quotient_back 0x34 0x12 7 start_bus.alu ≡ some (0x1234 / 7))
    × (remainder_back 0x34 0x12 7 start_bus.alu ≡ some (0x1234 % 7))
division_example =
    division-read 0x34 0x12 7 start_bus.alu (omega arith) (omega arith) (omega arith) (omega arith)

cell : decode_addr (u24 0x7E0010) ≡ in_wram 0x10
unfolding decode_addr
cell = refl

mirror : decode_addr (u24 0x800010) ≡ in_wram 0x10
unfolding decode_addr
mirror = refl

write8-read8_example : value_of ((write8 0x7E0010 0xAB >> read8 0x800010) start) ≡ some 0xAB
write8-read8_example = write8-read8 (in_wram 0x10) 0x7E0010 0x800010 0xAB start tt cell mirror

add8_example :
    ((add8 0x7F start_cpu).fc * 2 ^ 8 + a8 (add8 0x7F start_cpu) ≡ a8 start_cpu + 0x7F + 1)
    × ((add8 0x7F start_cpu).a / 2 ^ 8 ≡ 0)
    × ((add8 0x7F start_cpu).fv
        ≡ flag (
            ltb (biased8 (a8 start_cpu) + biased8 0x7F + 1) (2 ^ 7)
            || leb (2 ^ 7 + 2 ^ 8) (biased8 (a8 start_cpu) + biased8 0x7F + 1)))
add8_example = add8-sum 0x7F start_cpu (omega arith) start-IsCpu

narrow_cpu-IsCpu : IsCpu narrow_cpu
narrow_cpu-IsCpu = ground arith

generated_rmw_example : generated_rmw ror false 0x81 start_cpu ≡ rmw ror 0x81 false start_cpu
generated_rmw_example = generated_rmw-eq-rmw ror false 0x81 start_cpu start-IsCpu (omega arith)

status_example :
    (get_p narrow_cpu ≡ pack_p narrow_cpu) × (set_p 0xC3 narrow_cpu ≡ unpack_p 0xC3 narrow_cpu)
status_example = status_agrees 0xC3 narrow_cpu

entries_example :
    Holds Free Any (step 0x8000 0x20 start)
    × Holds Free Any (interp_call_capped 100 0x8000 start)
    × Holds Free Any (interp_interrupt true start)
    × Holds Free Any (interp_reset start)
entries_example = entries-IsMachine 0x8000 0x20 100 0x8000 true start start-IsMachine

abbrev narrow_start : Machine
narrow_start = record start { cpu = narrow_cpu }

adds-eq-alu_value_example :
    SameEnd
      (generated_add true 1 0x80 0x8000 narrow_start)
      (alu_value (adder true) (get_a narrow_cpu) 0x80 false 0x8000 narrow_start)
adds-eq-alu_value_example =
    adds-eq-alu_value true 0x80 0x8000 narrow_start narrow_cpu-IsCpu (omega arith)
