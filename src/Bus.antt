-- ===== src/Bus.antt =====
-- The state of runtime/bus.c: memories, hook tables, the multiply/divide unit, the WRAM port, the
-- access log. The children hold its operations.
pub mod Math
pub mod Map
pub mod Log
pub mod Port
pub mod Division
pub mod Speed
pub mod Setup
pub mod Hooked
use ct_recomp.Base.{ℕ, Bool, List, Option}

-- `alu`, the registers behind $4202-$4217.
pub record MathUnit : Type 0 where
  pub wrmpya : ℕ
  pub wrmpyb : ℕ
  pub wrdivb : ℕ
  pub wrdiv : ℕ
  pub rddiv : ℕ
  pub rdmpy : ℕ

-- The `hw_read_fn` values that bus.c installs; `device_read k` is the k-th function of the code
-- behind the SNES registers, which is not modelled.
pub data ReadHook : Type 0 where
  open_bus math_read wram_port_read : ReadHook
  device_read : ℕ → ReadHook

-- The `hw_write_fn` values, in the same way.
pub data WriteHook : Type 0 where
  math_write wram_port_write memsel_write readonly_write unused_write : WriteHook
  device_write : ℕ → WriteHook

-- The notes that bus.c makes through `hw_note`, by register.
pub data Note : Type 0 where
  readonly_note : ℕ → Note
  unused_note : ℕ → Note

-- The static variables of bus.c. An array is a function of the index. `dev` is the memory of the
-- device code behind the hooks, which only that code reads and writes.
pub record Bus : Type 0 where
  pub rom : ℕ → ℕ
  pub wram : ℕ → ℕ
  pub sram : ℕ → ℕ
  pub hw_rd : ℕ → Option ReadHook
  pub hw_wr : ℕ → Option WriteHook
  pub alu : MathUnit
  pub wram_port_addr : ℕ
  pub mdr : ℕ
  pub memsel : ℕ
  pub wram_gen : ℕ → ℕ
  pub watch_lo : ℕ
  pub watch_len : ℕ
  pub wram_hit : ℕ
  pub clocks : ℕ
  pub accesses : ℕ
  pub log : ℕ → ℕ
  pub fetch_mark : ℕ
  pub wram_off : ℕ → ℕ
  pub wram_old : ℕ → ℕ
  pub wram_new : ℕ → ℕ
  pub notes : List Note
  pub dev : ℕ → ℕ
