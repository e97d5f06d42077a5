-- ===== src/Adapter/Reset.antt =====
-- Power-on, the reset button and the hooks of the devices in runtime/snes_adapter.c:
-- `snes_hw_reset`, `snes_hw_soft_reset`, `snes_hw_init`. The vendored resets are parameters.
use ct_recomp.Base.{ℕ, true, false, Option, none, some, ltb, if◌then◌else◌}
use ct_recomp.Bus.{open_bus, device_read, device_write}
use ct_recomp.Bus.Setup.{hook_loop, both}
use ct_recomp.Machine.{M, ◌>>◌}
use ct_recomp.Adapter.{Ppu, PpuSide, Apu, ApuSide, Timer, Dma, Channel}

-- The devices together.
pub record Devices : Type 0 where
  pub ppu_side : PpuSide
  pub apu_side : ApuSide
  pub dma : Dma

-- The four bytes of a port array.
unfoldable pub no_ports : (ℕ → ℕ) → ℕ → ℕ
no_ports p k = if ltb k 4 then 0 else p k

unfoldable pub clear_ports : ApuSide → ApuSide
clear_ports s = record s {
  port_new = no_ports s.port_new;
  port_vis = no_ports s.port_vis;
  port_pending = false;
}

-- The loop that stops DMA and HDMA.
unfoldable pub stop_channels : (ℕ → Channel) → ℕ → Channel
stop_channels ch c =
    if ltb c 8 then record (ch c) { dma_active = false; hdma_active = false } else ch c

-- The timers after the reset button: as before, their outputs cleared.
unfoldable pub clear_outputs : (ℕ → Timer) → (ℕ → Timer) → ℕ → Timer
clear_outputs old new t = if ltb t 3 then record (old t) { counter = 0 } else new t

module _ (ppu_reset : Ppu → Ppu) (dma_reset : Dma → Dma) (apu_reset : Apu → Apu)
    (spc_host_reset : Apu → Apu) where
  -- `none`: `snes_hw_init` has not run.
  unfoldable pub snes_hw_reset : Option Devices → Option Devices
  snes_hw_reset none = none
  snes_hw_reset (some d) =
      let cleared = clear_ports d.apu_side in
      some record {
        ppu_side = record {
          ppu = ppu_reset d.ppu_side.ppu;
          ppu1_mdr = 0;
          ppu2_mdr = 0;
          vram_latch = 0;
          oamadd_reload = 0;
        };
        apu_side = record cleared { apu = spc_host_reset (apu_reset d.apu_side.apu) };
        dma = dma_reset d.dma;
      }

  -- The APU after the reset button.
  unfoldable pub soft_reset_apu : Apu → Apu
  soft_reset_apu a =
      let fresh = apu_reset a in
      spc_host_reset (record fresh {
        ram = a.ram;
        dsp = a.dsp;
        dsp_adr = a.dsp_adr;
        timer = clear_outputs a.timer fresh.timer;
        cycles = a.cycles;
      })

  unfoldable pub snes_hw_soft_reset : Option Devices → Option Devices
  snes_hw_soft_reset none = none
  snes_hw_soft_reset (some d) =
      let cleared = clear_ports d.apu_side in
      some record {
        ppu_side = record d.ppu_side {
          ppu = record d.ppu_side.ppu { forced_blank = true; draw_x = 256 };
        };
        apu_side = record cleared { apu = soft_reset_apu d.apu_side.apu };
        dma = record d.dma { channel = stop_channels d.dma.channel; dma_busy = false };
      }

-- The register functions of the adapter by number: PPU, APU, DMA, $420B, $420C.
abbrev pub ppu_hook : ℕ
ppu_hook = 0

abbrev pub apu_hook : ℕ
apu_hook = 1

abbrev pub dma_hook : ℕ
dma_hook = 2

abbrev pub mdmaen_hook : ℕ
mdmaen_hook = 3

abbrev pub hdmaen_hook : ℕ
hdmaen_hook = 4

-- The hooks of `snes_hw_init`.
unfoldable pub device_hooks : M (Unit {0})
device_hooks =
    hook_loop 64 0x2100 (both (device_read ppu_hook)) (both (device_write ppu_hook))
    >> hook_loop 64 0x2140 (both (device_read apu_hook)) (both (device_write apu_hook))
    >> hook_loop 128 0x4300 (both (device_read dma_hook)) (both (device_write dma_hook))
    >> hook_loop 1 0x420B (both open_bus) (both (device_write mdmaen_hook))
    >> hook_loop 1 0x420C (both open_bus) (both (device_write hdmaen_hook))
