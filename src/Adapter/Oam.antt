-- ===== src/Adapter/Oam.antt =====
-- The OAM port of runtime/snes_adapter.c: `oam_byte`, `oam_write`, `snes_oam_vblank_reload`.
use ct_recomp.Base.{
  ℕ, false, ◌+◌, ◌*◌, ◌==◌, ltb, flag, if◌then◌else◌, u8, u16, ◌<<<◌, ◌>>>◌, bit_and, bit_or,
  update, not,
}
use ct_recomp.Adapter.{Ppu, PpuSide}

unfoldable pub oam_byte : Ppu → ℕ → ℕ
oam_byte p b =
    let w = if ltb b 0x200 then b >>> 1 else 0x100 + bit_and b 0x1F >>> 1 in
    u8 (p.oam w >>> (bit_and b 1 * 8))

-- The byte address, `oamAdr << 1 | oamSecondWrite`, and the step to the next one.
unfoldable pub oam_address : Ppu → ℕ
oam_address p = bit_and (bit_or (p.oam_adr <<< 1) (flag p.oam_second_write)) 0x3FF

unfoldable pub oam_next : ℕ → Ppu → Ppu
oam_next b p =
    let b' = bit_and (b + 1) 0x3FF in
    record p { oam_adr = u16 (b' >>> 1); oam_second_write = not (bit_and b' 1 == 0) }

-- A byte below 0x200: the even one is kept for the pair.
unfoldable pub oam_write_low : ℕ → ℕ → Ppu → Ppu
oam_write_low b v p =
    if bit_and b 1 == 0
    then record p { oam_buffer = v }
    else record p { oam = update p.oam (b >>> 1) (u16 (bit_or (v <<< 8) p.oam_buffer)) }

unfoldable pub oam_write_high : ℕ → ℕ → Ppu → Ppu
oam_write_high b v p =
    let w = 0x100 + bit_and b 0x1F >>> 1 in
    let old = p.oam w in
    record p {
      oam = update p.oam w (
          if bit_and b 1 == 0
          then u16 (bit_or (bit_and old 0xFF00) v)
          else u16 (bit_or (bit_and old 0x00FF) (v <<< 8)));
    }

unfoldable pub oam_write : ℕ → Ppu → Ppu
oam_write v p =
    let b = oam_address p in
    oam_next b (if ltb b 0x200 then oam_write_low b v p else oam_write_high b v p)

unfoldable pub snes_oam_vblank_reload : PpuSide → PpuSide
snes_oam_vblank_reload s =
    if s.ppu.forced_blank
    then s
    else record s { ppu = record s.ppu { oam_adr = s.oamadd_reload; oam_second_write = false } }

unfoldable pub snes_ppu2_mdr : PpuSide → ℕ
snes_ppu2_mdr s = s.ppu2_mdr

unfoldable pub snes_set_ppu2_mdr : ℕ → PpuSide → PpuSide
snes_set_ppu2_mdr v s = record s { ppu2_mdr = v }
