-- ===== src/Bus/Map.antt =====
-- The HiROM map and the access speeds of runtime/bus.c.
use ct_recomp.Base.{ℕ, ◌+◌, ◌-◌, ◌==◌, ltb, leb, if◌then◌else◌, not, ◌&&◌, ◌||◌}
use ct_recomp.Base.{bit_and, bit_or, u8, u16, sub32, ◌<<<◌, ◌>>>◌}

-- `enum region`, with the offset that `decode_addr` stores through its pointer.
pub data Region : Type 0 where
  in_wram in_sram in_rom in_hw : ℕ → Region
  in_open : Region

-- `decode_addr`, of a 24-bit address.
unfoldable pub decode_addr : ℕ → Region
decode_addr a =
    let bank = u8 (a >>> 16) in
    let lo = u16 a in
    if bank == 0x7E || bank == 0x7F
    then in_wram (a - 0x7E0000)
    else if leb 0xC0 bank
    then in_rom (a - 0xC00000)
    else if leb 0x40 bank && leb bank 0x7D
    then in_rom (a - 0x400000)
    else if ltb lo 0x2000
    then in_wram lo
    else if ltb lo 0x6000
    then in_hw lo
    else if ltb lo 0x8000
    then (if leb 0x20 (bit_and bank 0x7F) then in_sram (bit_and lo 0x1FFF) else in_open)
    else in_rom (bit_or (bit_and bank 0x3F <<< 16) lo)

-- `bus_access_clocks`; the first argument is `memsel`, which `bus_fastrom` returns.
unfoldable pub bus_access_clocks : ℕ → ℕ → ℕ
bus_access_clocks memsel a =
    if not (bit_and a 0x408000 == 0)
    then (if not (bit_and a 0x800000 == 0) && not (memsel == 0) then 6 else 8)
    else if not (bit_and (a + 0x6000) 0x4000 == 0)
    then 8
    else if not (bit_and (sub32 a 0x4000) 0x7E00 == 0)
    then 6
    else 12
