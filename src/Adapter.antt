-- ===== src/Adapter.antt =====
-- The bridge to the devices, runtime/snes_adapter.c. The vendored chips' structs hold what the
-- bridge reads and writes of them; the rest of each is an array that only the chip's own code, a
-- parameter, uses.
pub mod Oam
pub mod PpuPorts
pub mod ApuPorts
pub mod DmaPorts
pub mod Reset
pub mod Uploaded
pub mod Readback
pub mod Prefetch
pub mod Agreed
pub mod Costs
use ct_recomp.Base.{ℕ, Bool}

-- `Ppu`.
pub record Ppu : Type 0 where
  pub oam : ℕ → ℕ
  pub oam_adr : ℕ
  pub oam_second_write : Bool
  pub oam_buffer : ℕ
  pub vram : ℕ → ℕ
  pub vram_pointer : ℕ
  pub vram_increment : ℕ
  pub vram_increment_on_high : Bool
  pub cgram : ℕ → ℕ
  pub cgram_pointer : ℕ
  pub cgram_second_write : Bool
  pub forced_blank : Bool
  pub draw_x : ℕ
  pub others : ℕ → ℕ

-- The static variables behind $2100-$213F, and what a call of an access tells the rest of the
-- program: a note on STAT77, a write to a read-only register, the write hook.
pub data PpuCall : Type 0 where
  stat77_note : PpuCall
  bus_readonly_write write_hook : ℕ → ℕ → PpuCall

pub record PpuSide : Type 0 where
  pub ppu : Ppu
  pub ppu1_mdr : ℕ
  pub ppu2_mdr : ℕ
  pub vram_latch : ℕ
  pub oamadd_reload : ℕ

-- A `Timer` of the APU.
pub record Timer : Type 0 where
  pub counter : ℕ
  pub others : ℕ → ℕ

-- `Apu`.
pub record Apu : Type 0 where
  pub in_ports : ℕ → ℕ
  pub out_ports : ℕ → ℕ
  pub ram : ℕ → ℕ
  pub dsp : ℕ → ℕ
  pub dsp_adr : ℕ
  pub timer : ℕ → Timer
  pub cycles : ℕ
  pub others : ℕ → ℕ

-- The static variables behind $2140-$2143.
pub record ApuSide : Type 0 where
  pub apu : Apu
  pub port_new : ℕ → ℕ
  pub port_vis : ℕ → ℕ
  pub port_pending : Bool

-- `DmaChannel`.
pub record Channel : Type 0 where
  pub a_bank : ℕ
  pub rep_count : ℕ
  pub a_adr : ℕ
  pub table_adr : ℕ
  pub dma_active : Bool
  pub hdma_active : Bool
  pub mode : ℕ
  pub indirect : Bool
  pub do_transfer : Bool
  pub terminated : Bool
  pub others : ℕ → ℕ

-- `Dma`.
pub record Dma : Type 0 where
  pub channel : ℕ → Channel
  pub dma_busy : Bool
  pub others : ℕ → ℕ
