-- ===== src/Bus/Setup.antt =====
-- The hook tables and the reset of runtime/bus.c: `bus_hook`, `bus_setup`, `bus_reset`.
use ct_recomp.Base.{
  ℕ, zero, suc, Option, none, some, ◌+◌, ◌-◌, leb, ltb, ◌&&◌, ◌||◌, if◌then◌else◌, u32, update,
}
use ct_recomp.Bus.{Bus, MathUnit, ReadHook, WriteHook}
use ct_recomp.Bus.{
  open_bus, math_read, wram_port_read, math_write, wram_port_write, memsel_write, readonly_write,
  unused_write,
}
use ct_recomp.Machine.{M, ◌>>=◌, ◌>>◌, pure, ct_fatal, on_bus, gets, hook_outside}

abbrev pub set_hook : ℕ → Option ReadHook → Option WriteHook → Bus → Bus
set_hook reg rd wr b = record b {
  hw_rd = update b.hw_rd (reg - 0x2000) rd;
  hw_wr = update b.hw_wr (reg - 0x2000) wr;
}

unfoldable pub bus_hook : ℕ → Option ReadHook → Option WriteHook → M (Unit {0})
bus_hook reg rd wr =
    if ltb reg 0x2000 || leb (0x2000 + 0x4000) reg
    then ct_fatal (hook_outside reg)
    else on_bus (set_hook reg rd wr)

-- A loop of `bus_setup` that hooks `n` registers from `reg` on.
unfoldable pub hook_loop : ℕ → ℕ → (ℕ → Option ReadHook) → (ℕ → Option WriteHook) → M (Unit {0})
hook_loop zero reg rd wr = pure tt
hook_loop (suc n) reg rd wr =
    let rest = hook_loop n (suc reg) rd wr in bus_hook reg (rd reg) (wr reg) >> rest

-- The `memset` calls of `bus_setup`.
unfoldable pub no_hooks : Bus → Bus
no_hooks b = record b { hw_rd = λ i. none; hw_wr = λ i. none }

abbrev pub both : {A : Type 0} → A → ℕ → Option A
both h reg = some h

abbrev pub no_write : ℕ → Option WriteHook
no_write reg = none

-- The read function of $4210-$421F.
abbrev pub math_result : ℕ → Option ReadHook
math_result r = if leb 0x4214 r && leb r 0x4217 then some math_read else none

-- `bus_setup` up to the hooks of the devices.
unfoldable pub setup_hooks : M (Unit {0})
setup_hooks =
    on_bus no_hooks
    >> hook_loop 5 0x4202 (both open_bus) (both math_write)
    >> hook_loop 16 0x4210 math_result (both readonly_write)
    >> hook_loop 1 0x2180 (both wram_port_read) (both wram_port_write)
    >> hook_loop 3 0x2181 (both open_bus) (both wram_port_write)
    >> hook_loop 124 0x2184 (both open_bus) (both unused_write)
    >> hook_loop 1 0x420E (both open_bus) (both unused_write)
    >> hook_loop 1 0x420F (both open_bus) (both unused_write)
    >> hook_loop 224 0x4220 (both open_bus) (both unused_write)
    >> hook_loop 128 0x4380 (both open_bus) (both unused_write)
    >> hook_loop 1 0x420D (both open_bus) (both memsel_write)
    >> hook_loop 2 0x4200 (both open_bus) no_write
    >> hook_loop 4 0x4207 (both open_bus) no_write

abbrev pub no_math : MathUnit
no_math = record { wrmpya = 0; wrmpyb = 0; wrdivb = 0; wrdiv = 0; rddiv = 0; rdmpy = 0 }

-- `bus_reset` before `snes_hw_reset`.
unfoldable pub clear_bus : Bus → Bus
clear_bus b = record b {
  wram = λ i. 0;
  wram_gen = λ p. if ltb p 512 then u32 (b.wram_gen p + 1) else b.wram_gen p;
  sram = λ i. 0;
  alu = no_math;
  wram_port_addr = 0;
  memsel = 0;
  mdr = 0;
}

unfoldable pub bus_reset : M (Unit {0})
bus_reset = on_bus clear_bus >> gets (λ w. w.link) >>= λ link. on_bus link.reset_devices

unfoldable pub bus_setup : M (Unit {0})
bus_setup = setup_hooks >> gets (λ w. w.link) >>= λ link. on_bus link.init_devices >> bus_reset
