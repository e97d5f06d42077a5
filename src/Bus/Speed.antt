-- ===== src/Bus/Speed.antt =====
-- The memory map and the access speeds of runtime/bus.c against descriptions by bank and address.
use ct_recomp.Base.{
  ℕ, Bool, true, false, not, ◌≡◌, ◌+◌, ◌*◌, ◌/◌, ◌%◌, ◌<◌, ◌≤◌, ◌^◌, arith, u8, u16, sub32, bit_and,
  bit_or, ◌==◌, ltb, leb, ◌&&◌, if◌then◌else◌,
}
use ct_recomp.Base.Bits.{bit_and-mask, bit_and-pow, bit_or-fields}
use ct_recomp.Base.Bytes.{two_bits, page_bits}
use ct_recomp.Bus.Map.{
  Region, in_wram, in_sram, in_rom, in_hw, in_open, decode_addr, bus_access_clocks,
}

-- The offset lies inside the memory, or is a register of the system area.
abbrev pub InRange : Region → Type 0
InRange (in_wram o) = o < 0x20000
InRange (in_sram o) = o < 0x2000
InRange (in_rom o) = o < 0x400000
InRange (in_hw o) = (0x2000 ≤ o) × (o < 0x6000)
InRange in_open = Unit {0}

rom_offset : (bank lo : ℕ) → lo < 2 ^ 16 → bit_or (bit_and bank 0x3F * 2 ^ 16) lo < 0x400000
rom_offset bank lo h = omega (arith, bit_and-mask 6 bank, bit_or-fields 16 (bit_and bank 0x3F) lo h)

-- Every 24-bit address decodes to an offset inside its memory (128 KB of WRAM, 8 KB of SRAM, 4 MB
-- of ROM), to a register between 0x2000 and 0x5FFF, or to open bus.
pub decode_addr-InRange : (a : ℕ) → a < 2 ^ 24 → InRange (decode_addr a)
unfolding decode_addr
decode_addr-InRange a h =
    ground (arith, rom_offset (u8 (a / 2 ^ 16)) (u16 a), bit_and-mask 13 (u16 a))

-- The speed of an access by bank and offset, as the SNES documents it: FastROM in the banks from
-- 0x80, fast registers, the slow joypad ports, and 8 clocks for everything else.
unfoldable pub documented : Bool → ℕ → ℕ → ℕ
documented fast bank lo =
    let rom = if leb 0x80 bank && fast then 6 else 8 in
    if leb 0x40 (bank % 2 ^ 7)
    then rom
    else if leb 0x8000 lo
    then rom
    else if ltb lo 0x2000
    then 8
    else if ltb lo 0x4000
    then 6
    else if ltb lo 0x4200
    then 12
    else if ltb lo 0x6000
    then 6
    else 8

-- The tests on bank and offset, with the masks as sums of bits.
unfoldable by_bits : Bool → ℕ → ℕ → ℕ
by_bits fast bank lo =
    if not (bank / 2 ^ 6 % 2 * 2 ^ 22 + lo / 2 ^ 15 * 2 ^ 15 == 0)
    then (if not (bank / 2 ^ 7 * 2 ^ 23 == 0) && fast then 6 else 8)
    else if not ((lo + 0x6000) / 2 ^ 14 % 2 * 2 ^ 14 == 0)
    then 8
    else if not ((lo + 0xC000) / 2 ^ 9 % 2 ^ 6 * 2 ^ 9 == 0)
    then 6
    else 12

by_bits-eq-documented :
    (fast : Bool) (bank lo : ℕ)
    → bank < 2 ^ 8
    → lo < 2 ^ 16
    → by_bits fast bank lo ≡ documented fast bank lo
unfolding by_bits documented
by_bits-eq-documented true bank lo p q = ground arith steps 60000000
by_bits-eq-documented false bank lo p q = ground arith steps 60000000

-- For every 24-bit address and every MEMSEL value, the bit tests of bus_access_clocks give the
-- speed of the SNES memory map read by bank and offset: 6 or 8 clocks for ROM, 8 for WRAM, 6 for
-- fast registers, 12 for 0x4000-0x41FF.
pub bus_access_clocks-eq-documented :
    (memsel a : ℕ)
    → a < 2 ^ 24
    → bus_access_clocks memsel a ≡ documented (not (memsel == 0)) (a / 2 ^ 16) (a % 2 ^ 16)
unfolding bus_access_clocks by_bits
bus_access_clocks-eq-documented memsel a h =
    let bank = a / 2 ^ 16 in
    let lo = a % 2 ^ 16 in
    let e1 : bit_and a 0x408000 ≡ bank / 2 ^ 6 % 2 * 2 ^ 22 + lo / 2 ^ 15 * 2 ^ 15 =
      omega (arith, two_bits a) in
    let e2 : bit_and a 0x800000 ≡ bank / 2 ^ 7 * 2 ^ 23 = omega (arith, bit_and-pow 23 a) in
    let e3 : bit_and (a + 0x6000) 0x4000 ≡ (lo + 0x6000) / 2 ^ 14 % 2 * 2 ^ 14 =
      omega (arith, bit_and-pow 14 (a + 0x6000)) in
    let e4 : bit_and (sub32 a 0x4000) 0x7E00 ≡ (lo + 0xC000) / 2 ^ 9 % 2 ^ 6 * 2 ^ 9 =
      omega (arith, page_bits (sub32 a 0x4000)) in
    rw (e1, e2, e3, e4)
      (by_bits-eq-documented (not (memsel == 0)) bank lo (omega arith) (omega arith))
