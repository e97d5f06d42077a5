-- ===== src/Sound/State.antt =====
-- What holds of the whole state between instructions, and what is asked of the linked code.
use ct_recomp.Base.{ℕ, some, List, [], ◌∷◌, ◌≤◌, ◌<◌, ◌^◌, ◌≡◌}
use ct_recomp.Cpu.{Cpu, IsCpu}
use ct_recomp.Bus.{MathUnit, Bus}
use ct_recomp.Machine.{Extern, Link, Machine, Result, done, fatal, M}

pub record IsMath (alu : MathUnit) : Type 0 where
  pub wrmpya_fits : alu.wrmpya < 2 ^ 8
  pub wrdiv_fits : alu.wrdiv < 2 ^ 16
  pub rddiv_fits : alu.rddiv < 2 ^ 16
  pub rdmpy_fits : alu.rdmpy < 2 ^ 16

pub record IsBus (b : Bus) : Type 0 where
  pub rom_fits : (i : ℕ) → b.rom i < 2 ^ 8
  pub wram_fits : (i : ℕ) → b.wram i < 2 ^ 8
  pub sram_fits : (i : ℕ) → b.sram i < 2 ^ 8
  pub alu_fits : IsMath b.alu
  pub port_fits : b.wram_port_addr < 2 ^ 17
  pub mdr_fits : b.mdr < 2 ^ 8
  pub memsel_fits : b.memsel ≤ 1

abbrev pub AllHooks : List Extern → Type 0
AllHooks [] = Unit
AllHooks (e ∷ es) =
    ((c c' : Cpu) (b b' : Bus)
      → IsCpu c
      → IsBus b
      → e.hook c b ≡ some (c', b')
      → IsCpu c' × IsBus b')
    × AllHooks es

-- The linked code keeps the widths: a device's read returns a byte, and no function of it leaves
-- a register or a byte too wide.
pub record IsLink (l : Link) : Type 0 where
  pub read_keeps :
      (k r v : ℕ) (b b' : Bus)
      → IsBus b
      → l.read_device k r b ≡ some (v, b')
      → (v < 2 ^ 8) × IsBus b'
  pub write_keeps :
      (k r v : ℕ) (b b' : Bus) → v < 2 ^ 8 → IsBus b → l.write_device k r v b ≡ some b' → IsBus b'
  pub reset_keeps : (b : Bus) → IsBus b → IsBus (l.reset_devices b)
  pub init_keeps : (b : Bus) → IsBus b → IsBus (l.init_devices b)
  pub hooks_keep : AllHooks l.externs

pub record IsMachine (w : Machine) : Type 0 where
  pub cpu_ok : IsCpu w.cpu
  pub bus_ok : IsBus w.bus
  pub link_ok : IsLink w.link

-- If the call returns, its value satisfies `P`, the registers satisfy `K`, and the invariant holds.
abbrev pub Holds : {A : Type 0} → (Cpu → Type 0) → (A → Type 0) → Result A → Type 0
Holds K P (done a w) = P a × IsMachine w × K w.cpu
Holds K P (fatal e) = Unit

-- From a state with the invariant whose registers satisfy `J`, `m` ends in `ct_fatal` or returns a
-- value that satisfies `P` in a state with the invariant whose registers satisfy `K`.
pub record Sound {A : Type 0} (J K : Cpu → Type 0) (P : A → Type 0) (m : M A) : Type 0 where
  pub run : (w : Machine) → IsMachine w → J w.cpu → Holds K P (m w)

-- The value says nothing.
abbrev pub Any : {A : Type 0} → A → Type 0
Any a = Unit {0}

abbrev pub IsByte : ℕ → Type 0
IsByte v = v < 2 ^ 8

abbrev pub IsWord : ℕ → Type 0
IsWord v = v < 2 ^ 16

abbrev pub IsLong : ℕ → Type 0
IsLong v = v < 2 ^ 24

-- Nothing more is known of the registers.
abbrev pub Free : Cpu → Type 0
Free c = Unit {0}
