-- ===== src/Machine.antt =====
-- The whole mutable state of the runtime below the frame scheduler, what the program is linked
-- with, and the monad of functions that change the state or end in `ct_fatal`.
use ct_recomp.Base.{ℕ, Bool, List, Option}
use ct_recomp.Cpu.{Cpu}
use ct_recomp.Bus.{Bus}

-- `ct_extern` (runtime/func_table.h): a call boundary that runs a function of the game's own
-- runtime. The hook is code that is not modelled; `none` is its `ct_fatal`.
pub record Extern : Type 0 where
  pub addr : ℕ
  pub kind : ℕ
  pub hook : Cpu → Bus → Option (Cpu × Bus)

-- `ct_jumptable` (runtime/func_table.h).
pub record Jumptable : Type 0 where
  pub site : ℕ
  pub count : ℕ

-- What the runtime is linked with: the register functions of the devices (runtime/snes_adapter.c
-- and the scheduler install them), and the tables that the translator writes for a game. None of
-- it changes while the program runs. `none` is a `ct_fatal` of that code.
pub record Link : Type 0 where
  pub read_device : ℕ → ℕ → Bus → Option (ℕ × Bus)
  pub write_device : ℕ → ℕ → ℕ → Bus → Option Bus
  pub init_devices : Bus → Bus
  pub reset_devices : Bus → Bus
  pub externs : List Extern
  pub jumptables : List Jumptable

-- `cur`, `ct_cyc_cross` and `ct_cyc_taken` of runtime/cycles.c: the instruction begun last.
pub record Cycles : Type 0 where
  pub cross : ℕ
  pub taken : ℕ
  pub pending : ℕ
  pub compiled : ℕ
  pub at : ℕ
  pub op : ℕ
  pub m16 : ℕ
  pub x16 : ℕ
  pub dl : ℕ
  pub native : ℕ
  pub interrupt : ℕ
  pub speed : ℕ
  pub size : ℕ

-- An entry of `shadow` (runtime/interp.c): a call that has not returned.
pub record Frame : Type 0 where
  pub site : ℕ
  pub ret : ℕ
  pub is_long : ℕ

-- `sys`, `waiting`, `shadow` with `depth` (the newest call first), `interp_budget`, `last_op` of
-- runtime/interp.c; `ct_budget` and whether `ct_exec_hook` is set, of runtime/cpu.c.
pub record Control : Type 0 where
  pub sys : ℕ
  pub waiting : ℕ
  pub shadow : List Frame
  pub interp_budget : ℕ
  pub last_op : ℕ
  pub budget : ℕ
  pub scheduled : ℕ

pub record Machine : Type 0 where
  pub cpu : Cpu
  pub bus : Bus
  pub cyc : Cycles
  pub ctl : Control
  pub link : Link

-- The `ct_fatal` calls, one constructor for a message, with the values that it prints.
pub data Fault : Type 0 where
  read_unhooked read_open : ℕ → Fault
  write_rom write_unhooked write_open : ℕ → Fault
  math_read_register math_write_register wram_port_register : ℕ → Fault
  hook_outside : ℕ → Fault
  device_failed extern_failed : ℕ → Fault
  decimal_mode adc_decimal sbc_decimal : ℕ → Fault
  bad_mode : Fault
  store_immediate : ℕ → Fault
  extern_kind : ℕ → Fault
  table_range : ℕ → ℕ → Fault
  call_depth : ℕ → Fault
  budget_exhausted cap_exceeded : ℕ → Fault
  brk_executed cop_executed stp_executed wai_executed : ℕ → Fault
  not_supported : ℕ → ℕ → Fault
  rts_from_jsl rtl_from_jsr : ℕ → Fault
  returned_to : ℕ → ℕ → ℕ → Fault
  emulation_mode interrupt_in_emulation step_while_waiting : Fault
  emulation_opcode : ℕ → ℕ → Fault
  no_cycle_count : ℕ → ℕ → Fault
  entry_state mode_state : ℕ → Fault

-- A call returns a value and the new state, or ends the program.
pub data Result {ℓ} (A : Type ℓ) : Type ℓ where
  done : A → Machine → Result A
  fatal : Fault → Result A

abbrev pub M {ℓ} : Type ℓ → Type ℓ
M A = Machine → Result A

infixl 5 ◌>>=◌ ◌>>◌
unfoldable pub ◌>>=◌ {ℓ κ} : {A : Type ℓ} {B : Type κ} → M A → (A → M B) → M B
◌>>=◌ m f w = elim (m w) [ done a w' ↦ f a w' | fatal e ↦ fatal e ]

unfoldable pub ◌>>◌ {ℓ κ} : {A : Type ℓ} {B : Type κ} → M A → M B → M B
◌>>◌ m k w = elim (m w) [ done a w' ↦ k w' | fatal e ↦ fatal e ]

unfoldable pub pure {ℓ} : {A : Type ℓ} → A → M A
pure a w = done a w

unfoldable pub ct_fatal {ℓ} : {A : Type ℓ} → Fault → M A
ct_fatal e w = fatal e

-- Reading and changing the parts of the state.
unfoldable pub gets {ℓ} : {A : Type ℓ} → (Machine → A) → M A
gets f w = done (f w) w

unfoldable pub on_cpu : (Cpu → Cpu) → M (Unit {0})
on_cpu f w = done tt (record w { cpu = f w.cpu })

-- A function of the registers that also returns a value.
unfoldable pub with_cpu : (Cpu → ℕ × Cpu) → M ℕ
with_cpu f w = done (f w.cpu).0 (record w { cpu = (f w.cpu).1 })

unfoldable pub on_bus : (Bus → Bus) → M (Unit {0})
on_bus f w = done tt (record w { bus = f w.bus })

unfoldable pub on_cyc : (Cycles → Cycles) → M (Unit {0})
on_cyc f w = done tt (record w { cyc = f w.cyc })

unfoldable pub on_ctl : (Control → Control) → M (Unit {0})
on_ctl f w = done tt (record w { ctl = f w.ctl })

-- `if (b) m;`
unfoldable pub when : Bool → M (Unit {0}) → M (Unit {0})
when Bool.true m = m
when Bool.false m = pure tt
