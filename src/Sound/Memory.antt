-- ===== src/Sound/Memory.antt =====
-- Every access of runtime/bus.c keeps the widths of the bus, and what is read is a byte.
use Prim.Native.Nat.{bit_and}
use ct_recomp.Base.{ℕ, Option, some, none, ◌≡◌, refl, arith}
use ct_recomp.Base.Bits.{bit_and-mask}
use ct_recomp.Bus.{
  MathUnit, Bus, ReadHook, open_bus, math_read, wram_port_read, device_read, WriteHook, math_write,
  wram_port_write, memsel_write, readonly_write, unused_write, device_write,
}
use ct_recomp.Bus.Math
use ct_recomp.Bus.Port
use ct_recomp.Bus.Port.{wram_store, journal}
use ct_recomp.Bus.Log.{ct_bus_write}
use ct_recomp.Bus.Map.{Region, in_wram, in_sram, in_rom, in_hw, in_open}
use ct_recomp.Machine.{Machine, Fault, done, fatal, Machine, Fault, done, fatal}
use ct_recomp.Memory.{
  call_read, call_write, read_hw, read_region, read8, write_hw, write_region, write8, latch,
}
use ct_recomp.Sound.State.{Sound, Holds, Any, IsByte, IsMachine, IsBus, IsMath}
use ct_recomp.Sound.Rules.{Sound-bind, Sound-then, Sound-fatal, Sound-gets, Sound-on_bus}
use ct_recomp.Cpu.{Cpu}
use ct_recomp.Sound.Bus.{
  log_access-IsBus, with_mdr-IsBus, math_read-IsByte, math_write-IsMath, set_sram-IsBus,
  wram_store-IsBus, and_port, set_port-IsBus, wram_port_write-IsBus,
}

-- A call that ends in `ct_fatal` or in the state that an option gives.
returned :
    {A B : Type 0} (K : Cpu → Type 0) (P : B → Type 0) (o : Option A) (out : A → B × Machine)
    (e : Fault)
    → ((a : A) → o ≡ some a → P (out a).0 × IsMachine (out a).1 × K (out a).1.cpu)
    → Holds K P (elim o [ some a ↦ done (out a).0 (out a).1 | none ↦ fatal e ])
returned K P none out e k = tt
returned K P (some a) out e k = k a refl

set_bus-IsMachine :
    {w : Machine} (b : Bus) → IsMachine w → IsBus b → IsMachine (record w { bus = b })
set_bus-IsMachine b h p = record { cpu_ok = h.cpu_ok; bus_ok = p; link_ok = h.link_ok }

call_read-Sound :
    {K : Cpu → Type 0} (hook : ReadHook) (reg : ℕ) → Sound K K IsByte (call_read hook reg)
unfolding call_read Port.wram_port_read
call_read-Sound {K} open_bus reg = record { run = λ w h k. (h.bus_ok.mdr_fits, h, k) }
call_read-Sound {K} math_read reg = record {
  run = λ w h k.
      returned K IsByte (Math.math_read reg w.bus.alu) (λ v. (v, w)) _
        (λ v e. (math_read-IsByte reg w.bus.alu e, h, k));
}
call_read-Sound {K} wram_port_read reg = record {
  run = λ w h k.
      (h.bus_ok.wram_fits _, set_bus-IsMachine _ h (set_port-IsBus _ _ (and_port _) h.bus_ok), k);
}
call_read-Sound {K} (device_read n) reg = record {
  run = λ w h k.
      returned K IsByte (w.link.read_device n reg w.bus) (λ r. (r.0, record w { bus = r.1 })) _
        (λ r e. (
          (h.link_ok.read_keeps n reg r.0 w.bus r.1 h.bus_ok e).0,
          set_bus-IsMachine r.1 h (h.link_ok.read_keeps n reg r.0 w.bus r.1 h.bus_ok e).1,
          k,
        ));
}

latch-Sound : {K : Cpu → Type 0} (v : ℕ) → IsByte v → Sound K K IsByte (latch v)
unfolding latch
latch-Sound v p = record {
  run = λ w h k. (p, set_bus-IsMachine _ h (with_mdr-IsBus v w.bus p h.bus_ok), k);
}

read_hw-Sound :
    {K : Cpu → Type 0} (a off : ℕ) (hook : Option ReadHook) → Sound K K IsByte (read_hw a off hook)
unfolding read_hw
read_hw-Sound a off (some hook) = Sound-bind (call_read-Sound hook off) latch-Sound
read_hw-Sound a off none = Sound-fatal _

read_region-Sound : {K : Cpu → Type 0} (a : ℕ) (r : Region) → Sound K K IsByte (read_region a r)
unfolding read_region
read_region-Sound a (in_wram off) =
    Sound-bind (Sound-gets {P = IsByte} _ (λ w h k. h.bus_ok.wram_fits off)) latch-Sound
read_region-Sound a (in_sram off) =
    Sound-bind (Sound-gets {P = IsByte} _ (λ w h k. h.bus_ok.sram_fits off)) latch-Sound
read_region-Sound a (in_rom off) =
    Sound-bind (Sound-gets {P = IsByte} _ (λ w h k. h.bus_ok.rom_fits off)) latch-Sound
read_region-Sound a (in_hw off) =
    Sound-bind (Sound-gets {P = Any} _ (λ w h k. tt)) (λ hook _. read_hw-Sound a off hook)
read_region-Sound a in_open = Sound-fatal _

pub read8-Sound : {K : Cpu → Type 0} (a : ℕ) → Sound K K IsByte (read8 a)
unfolding read8
read8-Sound a =
    Sound-then (Sound-on_bus _ (λ b h. log_access-IsBus a b.fetch_mark b h)) (read_region-Sound _ _)

set_memsel-IsBus : (v : ℕ) (b : Bus) → IsBus b → IsBus (record b { memsel = bit_and v 1 })
set_memsel-IsBus v b h = ground (arith, bit_and-mask 1 v)

call_write-Sound :
    {K : Cpu → Type 0} (hook : WriteHook) (reg v : ℕ)
    → IsByte v
    → Sound K K Any (call_write hook reg v)
unfolding call_write
call_write-Sound {K} math_write reg v p = record {
  run = λ w h k.
      returned K Any (Math.math_write reg v w.bus.alu)
        (λ alu. (tt, record w { bus = record w.bus { alu = alu } })) _
        (λ alu e. (
          tt,
          set_bus-IsMachine _ h
              (set_alu alu (math_write-IsMath reg v w.bus.alu alu p h.bus_ok.alu_fits e) h.bus_ok),
          k,
        ));
}
  where
    set_alu : {b : Bus} (alu : MathUnit) → IsMath alu → IsBus b → IsBus (record b { alu = alu })
    set_alu alu q h = record {
      rom_fits = h.rom_fits;
      wram_fits = h.wram_fits;
      sram_fits = h.sram_fits;
      alu_fits = q;
      port_fits = h.port_fits;
      mdr_fits = h.mdr_fits;
      memsel_fits = h.memsel_fits;
    }
call_write-Sound {K} wram_port_write reg v p = record {
  run = λ w h k.
      returned K Any (Port.wram_port_write reg v w.bus) (λ b. (tt, record w { bus = b })) _
        (λ b e. (tt, set_bus-IsMachine b h (wram_port_write-IsBus reg v w.bus b p h.bus_ok e), k));
}
call_write-Sound {K} memsel_write reg v p = record {
  run = (Sound-on_bus _ (set_memsel-IsBus v)).run;
}
call_write-Sound {K} readonly_write reg v p = record {
  run = (Sound-on_bus _ (λ b h. ground arith)).run;
}
call_write-Sound {K} unused_write reg v p = record {
  run = (Sound-on_bus _ (λ b h. ground arith)).run;
}
call_write-Sound {K} (device_write n) reg v p = record {
  run = λ w h k.
      returned K Any (w.link.write_device n reg v w.bus) (λ b. (tt, record w { bus = b })) _
        (λ b e.
          (tt, set_bus-IsMachine b h (h.link_ok.write_keeps n reg v w.bus b p h.bus_ok e), k));
}

write_hw-Sound :
    {K : Cpu → Type 0} (a off v : ℕ) (hook : Option WriteHook)
    → IsByte v
    → Sound K K Any (write_hw a off v hook)
unfolding write_hw
write_hw-Sound a off v (some hook) p = call_write-Sound hook off v p
write_hw-Sound a off v none p = Sound-fatal _

write_region-Sound :
    {K : Cpu → Type 0} (a v : ℕ) (r : Region) → IsByte v → Sound K K Any (write_region a v r)
unfolding write_region
write_region-Sound a v (in_wram off) p = Sound-on_bus _ (λ b h. wram_store-IsBus off v b p h)
write_region-Sound a v (in_sram off) p = Sound-on_bus _ (λ b h. set_sram-IsBus off v b p h)
write_region-Sound a v (in_rom off) p = Sound-fatal _
write_region-Sound a v (in_hw off) p =
    Sound-bind (Sound-gets {P = Any} _ (λ w h k. tt)) (λ hook _. write_hw-Sound a off v hook p)
write_region-Sound a v in_open p = Sound-fatal _

pub write8-Sound : {K : Cpu → Type 0} (a v : ℕ) → IsByte v → Sound K K Any (write8 a v)
unfolding write8
write8-Sound a v p =
    Sound-then (Sound-on_bus _ (λ b h. with_mdr-IsBus v _ p (log_access-IsBus a ct_bus_write b h)))
      (write_region-Sound _ v _ p)
