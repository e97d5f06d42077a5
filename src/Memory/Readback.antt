-- ===== src/Memory/Readback.antt =====
-- What a write leaves in WRAM and in SRAM.
use ct_recomp.Base.{ℕ, Option, none, some, ◌≡◌, refl, ap, ◌∙◌, u24, update, arith}
use ct_recomp.Bus.{Bus}
use ct_recomp.Bus.Map.{Region, in_wram, in_sram, in_rom, in_hw, in_open, decode_addr}
use ct_recomp.Bus.Log.{log_access, ct_bus_write}
use ct_recomp.Bus.Port.{wram_store, journal}
use ct_recomp.Machine.{Machine, Result, done, fatal, ◌>>=◌, ◌>>◌, gets, on_bus}
use ct_recomp.Memory.{read8, write8, latch, read_region, write_region}

-- The value that a call returns, if it returns.
unfoldable pub value_of {ℓ} : {A : Type ℓ} → Result A → Option A
value_of (done a w) = some a
value_of (fatal e) = none

-- The regions that are RAM, and those that are memory at all.
abbrev pub IsRam : Region → Type 0
IsRam (in_wram off) = Unit {0}
IsRam (in_sram off) = Unit {0}
IsRam _ = ⊥

-- The byte of a RAM cell.
unfoldable pub ram_byte : Region → Bus → ℕ
ram_byte (in_wram off) b = b.wram off
ram_byte (in_sram off) b = b.sram off
ram_byte _ b = 0

pub log_access-wram : (a m : ℕ) (b : Bus) → (log_access a m b).wram ≡ b.wram
unfolding log_access
log_access-wram a m b = ground arith

log_access-sram : (a m : ℕ) (b : Bus) → (log_access a m b).sram ≡ b.sram
unfolding log_access
log_access-sram a m b = ground arith

update-at : (f : ℕ → ℕ) (i v : ℕ) → update f i v i ≡ v
update-at f i v = ground arith

pub wram_store-at : (off v : ℕ) (b : Bus) → (wram_store off v b).wram off ≡ v
unfolding wram_store journal
wram_store-at off v b = ground arith

-- A write to RAM always returns, with the byte in the cell.
write_ram :
    (r : Region) (a v : ℕ) (w : Machine)
    → IsRam r
    → (w' : Machine) × (write_region a v r w ≡ done tt w')
      × ((b : Bus) → b.wram ≡ w'.bus.wram → b.sram ≡ w'.bus.sram → ram_byte r b ≡ v)
unfolding write_region on_bus wram_store journal ram_byte
write_ram (in_wram off) a v w h = (_, refl, λ b e e'. ap (λ f. f off) e ∙ wram_store-at off v w.bus)
write_ram (in_sram off) a v w h =
    (_, refl, λ b e e'. ap (λ f. f off) e' ∙ update-at w.bus.sram off v)
write_ram (in_rom off) a v w h = absurd h
write_ram (in_hw off) a v w h = absurd h
write_ram in_open a v w h = absurd h

pub read_ram :
    (r : Region) (a : ℕ) (w : Machine)
    → IsRam r
    → value_of (read_region a r w) ≡ some (ram_byte r w.bus)
unfolding read_region ram_byte latch gets ◌>>=◌ value_of
read_ram (in_wram off) a w h = refl
read_ram (in_sram off) a w h = refl
read_ram (in_rom off) a w h = absurd h
read_ram (in_hw off) a w h = absurd h
read_ram in_open a w h = absurd h

-- A byte written with write8 to an address of a WRAM or SRAM cell is the byte that read8 then
-- returns at any address that decodes to the same cell; neither call ends in ct_fatal.
pub write8-read8 :
    (r : Region) (a a' v : ℕ) (w : Machine)
    → IsRam r
    → decode_addr (u24 a) ≡ r
    → decode_addr (u24 a') ≡ r
    → value_of ((write8 a v >> read8 a') w) ≡ some v
unfolding write8 read8 on_bus ◌>>◌
write8-read8 r a a' v w h e e' =
    let logged = record w { bus = record (log_access a ct_bus_write w.bus) { mdr = v } } in
    let (w', written, kept) = write_ram r (u24 a) v logged h in
    let again = record w' { bus = log_access a' w'.bus.fetch_mark w'.bus } in
    let reading : Result (Unit {0}) → Option ℕ =
      λ m. value_of (elim m [ done x w ↦ read8 a' w | fatal f ↦ fatal f ]) in
    ap (λ q. reading (write_region (u24 a) v q logged)) e
    ∙ (ap reading written
        ∙ (ap (λ q. value_of (read_region (u24 a') q again)) e'
            ∙ (read_ram r (u24 a') again h
                ∙ ap some (
                    kept again.bus (log_access-wram a' w'.bus.fetch_mark w'.bus)
                      (log_access-sram a' w'.bus.fetch_mark w'.bus)))))
