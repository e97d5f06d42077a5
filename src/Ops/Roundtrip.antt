-- ===== src/Ops/Roundtrip.antt =====
-- A byte pushed by runtime/ops.h is the byte pulled next.
use ct_recomp.Base.{ℕ, Option, some, ◌≡◌, refl, ap, ◌∙◌, ◌<◌, ◌^◌, arith, u24}
use ct_recomp.Cpu.{Cpu}
use ct_recomp.Bus.Map.{in_wram, decode_addr}
use ct_recomp.Bus.Port.{wram_store}
use ct_recomp.Bus.Log.{log_access, ct_bus_write}
use ct_recomp.Machine.{Machine, Result, done, fatal, ◌>>=◌, ◌>>◌, gets, on_bus, on_cpu}
use ct_recomp.Memory.{read8, write8, read_region, write_region}
use ct_recomp.Memory.Readback.{value_of, ram_byte, read_ram, log_access-wram, wram_store-at}
use ct_recomp.Ops.Memory.{s_down, s_up, push8, pull8}

-- The first 8 KB of bank 0 are WRAM.
low_ram : (s : ℕ) → s < 0x2000 → decode_addr (u24 s) ≡ in_wram s
unfolding decode_addr
low_ram s h = ground arith

-- S returns to its value, in native mode.
up_down : (c : Cpu) → c.fe ≡ 0 → c.s < 2 ^ 16 → (s_up (s_down c)).s ≡ c.s
unfolding s_up s_down
up_down c e h = ground arith

write_low :
    (s v : ℕ) (w : Machine)
    → s < 0x2000
    → (w' : Machine) × (write8 s v w ≡ done tt w') × (w'.cpu ≡ w.cpu) × (w'.bus.wram s ≡ v)
unfolding write8 write_region on_bus ◌>>◌
write_low s v w h =
    let logged = record w { bus = record (log_access s ct_bus_write w.bus) { mdr = v } } in
    (
      record logged { bus = wram_store s v logged.bus },
      ap (λ q. write_region (u24 s) v q logged) (low_ram s h),
      refl,
      wram_store-at s v logged.bus,
    )

read_low : (s : ℕ) (w : Machine) → s < 0x2000 → value_of (read8 s w) ≡ some (w.bus.wram s)
unfolding read8 on_bus ◌>>◌ ram_byte
read_low s w h =
    let logged = record w { bus = log_access s w.bus.fetch_mark w.bus } in
    ap (λ q. value_of (read_region (u24 s) q logged)) (low_ram s h)
    ∙ (read_ram (in_wram s) (u24 s) logged tt
        ∙ ap (λ f. some (f s)) (log_access-wram s w.bus.fetch_mark w.bus))

-- In native mode, with S below 0x2000, a byte pushed with push8 is the byte that pull8 then
-- returns; neither call ends in ct_fatal.
pub push8-pull8 :
    (v : ℕ) (w : Machine)
    → w.cpu.fe ≡ 0
    → w.cpu.s < 0x2000
    → value_of ((push8 v >> pull8) w) ≡ some v
unfolding push8 pull8 gets on_cpu ◌>>◌ ◌>>=◌
push8-pull8 v w e h =
    let (w', written, same, kept) = write_low w.cpu.s v w h in
    let back = record w' { cpu = s_up (s_down w'.cpu) } in
    let lowered : Result (Unit {0}) → Result (Unit {0}) =
      λ m. elim m [ done x u ↦ done tt (record u { cpu = s_down u.cpu }) | fatal f ↦ fatal f ] in
    let after : Result (Unit {0}) → Option ℕ =
      λ m. value_of (elim (lowered m) [ done x u ↦ pull8 u | fatal f ↦ fatal f ]) in
    let s_back : back.cpu.s ≡ w.cpu.s =
      ap (λ c. (s_up (s_down c)).s) same ∙ up_down w.cpu e (omega (arith, h)) in
    ap after written
    ∙ (ap (λ s. value_of (read8 s back)) s_back ∙ (read_low w.cpu.s back h ∙ ap some kept))
