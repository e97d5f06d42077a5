-- ===== src/Memory.antt =====
-- `read8`, `write8` and what is built on them in runtime/bus.c.
pub mod Readback
use ct_recomp.Base.{ℕ, Option, none, some, ◌+◌, ◌-◌}
use ct_recomp.Base.{u8, u24, ◌>>>◌, word, bit_and, update}
use ct_recomp.Bus.{Bus, ReadHook, open_bus, math_read, wram_port_read, device_read}
use ct_recomp.Bus.{WriteHook, math_write, wram_port_write, memsel_write, readonly_write}
use ct_recomp.Bus.{unused_write, device_write, readonly_note, unused_note}
use ct_recomp.Bus.Math
use ct_recomp.Bus.Port
use ct_recomp.Bus.Port.{wram_store}
use ct_recomp.Bus.Map.{Region, in_wram, in_sram, in_rom, in_hw, in_open, decode_addr}
use ct_recomp.Bus.Log.{log_access, hw_note, ct_bus_write}
use ct_recomp.Machine.{M, done, fatal, read_unhooked, read_open}
use ct_recomp.Machine.{write_rom, write_unhooked, write_open, math_read_register}
use ct_recomp.Machine.{math_write_register, wram_port_register, device_failed}
use ct_recomp.Machine.{◌>>=◌, ◌>>◌, pure, ct_fatal, gets, on_bus}

abbrev pub hw_base : ℕ
hw_base = 0x2000

-- A read function of the hook table is called; `bus_open_bus` returns the last bus value.
unfoldable pub call_read : ReadHook → ℕ → M ℕ
call_read open_bus reg w = done w.bus.mdr w
call_read math_read reg w = elim (Math.math_read reg w.bus.alu) [
  | some v ↦ done v w
  | none ↦ fatal (math_read_register reg)
]
call_read wram_port_read reg w =
    done (Port.wram_port_read w.bus).0 (record w { bus = (Port.wram_port_read w.bus).1 })
call_read (device_read k) reg w = elim (w.link.read_device k reg w.bus) [
  | some (v, b) ↦ done v (record w { bus = b })
  | none ↦ fatal (device_failed reg)
]

-- `return bus_mdr = v`.
unfoldable pub latch : ℕ → M ℕ
latch v w = done v (record w { bus = record w.bus { mdr = v } })

unfoldable pub read_hw : ℕ → ℕ → Option ReadHook → M ℕ
read_hw a off (some hook) = do v ← call_read hook off; latch v
read_hw a off none = ct_fatal (read_unhooked a)

-- The switch of `read8`.
unfoldable pub read_region : ℕ → Region → M ℕ
read_region a (in_wram off) = do v ← gets (λ w. w.bus.wram off); latch v
read_region a (in_sram off) = do v ← gets (λ w. w.bus.sram off); latch v
read_region a (in_rom off) = do v ← gets (λ w. w.bus.rom off); latch v
read_region a (in_hw off) = do hook ← gets (λ w. w.bus.hw_rd (off - hw_base)); read_hw a off hook
read_region a in_open = ct_fatal (read_open a)

unfoldable pub read8 : ℕ → M ℕ
read8 a = do on_bus (λ b. log_access a b.fetch_mark b); read_region (u24 a) (decode_addr (u24 a))

-- `bus_peek`: the byte with no access.
unfoldable pub bus_peek : ℕ → Bus → ℕ
bus_peek a b = elim (decode_addr (u24 a)) [
  | in_wram off ↦ b.wram off
  | in_sram off ↦ b.sram off
  | in_rom off ↦ b.rom off
  | _ ↦ b.mdr
]

-- A write function of the hook table is called.
unfoldable pub call_write : WriteHook → ℕ → ℕ → M (Unit {0})
call_write math_write reg v w = elim (Math.math_write reg v w.bus.alu) [
  | some alu ↦ done tt (record w { bus = record w.bus { alu = alu } })
  | none ↦ fatal (math_write_register reg)
]
call_write wram_port_write reg v w = elim (Port.wram_port_write reg v w.bus) [
  | some b ↦ done tt (record w { bus = b })
  | none ↦ fatal (wram_port_register reg)
]
call_write memsel_write reg v w = on_bus (λ b. record b { memsel = bit_and v 1 }) w
call_write readonly_write reg v w =
    on_bus (λ b. record b { notes = hw_note (readonly_note reg) b.notes }) w
call_write unused_write reg v w =
    on_bus (λ b. record b { notes = hw_note (unused_note reg) b.notes }) w
call_write (device_write k) reg v w = elim (w.link.write_device k reg v w.bus) [
  | some b ↦ done tt (record w { bus = b })
  | none ↦ fatal (device_failed reg)
]

unfoldable pub write_hw : ℕ → ℕ → ℕ → Option WriteHook → M (Unit {0})
write_hw a off v (some hook) = call_write hook off v
write_hw a off v none = ct_fatal (write_unhooked a)

-- The switch of `write8`.
unfoldable pub write_region : ℕ → ℕ → Region → M (Unit {0})
write_region a v (in_wram off) = on_bus (wram_store off v)
write_region a v (in_sram off) = on_bus (λ b. record b { sram = update b.sram off v })
write_region a v (in_rom off) = ct_fatal (write_rom a)
write_region a v (in_hw off) = do
  hook ← gets (λ w. w.bus.hw_wr (off - hw_base))
  write_hw a off v hook
write_region a v in_open = ct_fatal (write_open a)

unfoldable pub write8 : ℕ → ℕ → M (Unit {0})
write8 a v = do
  on_bus (λ b. record (log_access a ct_bus_write b) { mdr = v })
  write_region (u24 a) v (decode_addr (u24 a))

unfoldable pub read16 : ℕ → M ℕ
read16 a = do lo ← read8 a; hi ← read8 (u24 (a + 1)); pure (word lo hi)

unfoldable pub write16 : ℕ → ℕ → M (Unit {0})
write16 a v = do write8 a (u8 v); write8 (u24 (a + 1)) (u8 (v >>> 8))

-- The 16-bit write of a read-modify-write: the high byte first.
unfoldable pub write16_rmw : ℕ → ℕ → M (Unit {0})
write16_rmw a v = do write8 (u24 (a + 1)) (u8 (v >>> 8)); write8 a (u8 v)
