-- ===== src/Adapter/PpuPorts.antt =====
-- Reads and writes of $2100-$213F in runtime/snes_adapter.c: `ppu_reg_read`, `ppu_reg_write`. The
-- vendored `ppu_read`, `ppu_write` and `ppu_drawTo` are parameters; `open_bus` is the value of
-- `bus_open_bus`.
use ct_recomp.Base.{
  ℕ, Bool, false, Option, none, some, List, [], ◌∷◌, ◌++◌, ◌+◌, ◌-◌, ◌==◌, leb, ltb, ◌&&◌, ◌||◌,
  if◌then◌else◌, u8, u16, ◌<<<◌, ◌>>>◌, bit_and, bit_or, not,
}
use ct_recomp.Adapter.{Ppu, PpuSide, PpuCall, stat77_note, bus_readonly_write, write_hook}
use ct_recomp.Adapter.Oam.{oam_byte, oam_address, oam_next, oam_write}

unfoldable pub vram_prefetch_increment : PpuSide → PpuSide
vram_prefetch_increment s =
    let p = s.ppu in
    record s {
      vram_latch = p.vram (bit_and p.vram_pointer 0x7FFF);
      ppu = record p { vram_pointer = u16 (p.vram_pointer + p.vram_increment) };
    }

-- What a read leaves: the value, the state, the calls made; `fatal` is the `ct_fatal`.
pub data Access : Type 0 where
  accessed : ℕ → PpuSide → List PpuCall → Access
  fatal : Access

abbrev got : ℕ → PpuSide → Access
got v s = accessed v s []

-- `case 0x2104` and the others that read PPU1's open bus.
unfoldable pub ppu1_open : ℕ → Bool
ppu1_open reg =
    reg == 0x2104
    || reg == 0x2105
    || reg == 0x2106
    || reg == 0x2108
    || reg == 0x2109
    || reg == 0x210A
    || reg == 0x2114
    || reg == 0x2115
    || reg == 0x2116
    || reg == 0x2118
    || reg == 0x2119
    || reg == 0x211A
    || reg == 0x2124
    || reg == 0x2125
    || reg == 0x2126
    || reg == 0x2128
    || reg == 0x2129
    || reg == 0x212A

-- `case 0x2138`.
unfoldable pub oam_read : PpuSide → ℕ × PpuSide
oam_read s =
    let b = oam_address s.ppu in
    let v = oam_byte s.ppu b in (v, record s { ppu1_mdr = v; ppu = oam_next b s.ppu })

-- `case 0x2139` and `case 0x213A`.
unfoldable pub vram_read_low : PpuSide → ℕ × PpuSide
vram_read_low s =
    let v = u8 s.vram_latch in
    let s1 = record s { ppu1_mdr = v } in
    (v, if s.ppu.vram_increment_on_high then s1 else vram_prefetch_increment s1)

unfoldable pub vram_read_high : PpuSide → ℕ × PpuSide
vram_read_high s =
    let v = u8 (s.vram_latch >>> 8) in
    let s1 = record s { ppu1_mdr = v } in
    (v, if s.ppu.vram_increment_on_high then vram_prefetch_increment s1 else s1)

-- `case 0x213B`.
unfoldable pub cgram_read : PpuSide → ℕ × PpuSide
cgram_read s =
    let p = s.ppu in
    let c = p.cgram p.cgram_pointer in
    let v =
      if p.cgram_second_write
      then u8 (bit_or (bit_and s.ppu2_mdr 0x80) (bit_and (c >>> 8) 0x7F))
      else u8 c in
    (
      v,
      record s {
        ppu2_mdr = v;
        ppu = record p {
          cgram_pointer =
              if p.cgram_second_write then u8 (p.cgram_pointer + 1) else p.cgram_pointer;
          cgram_second_write = not p.cgram_second_write;
        };
      },
    )

unfoldable pub stat77_read : PpuSide → ℕ × PpuSide
stat77_read s = let v = u8 (bit_or (bit_and s.ppu1_mdr 0x10) 0x01) in (v, record s { ppu1_mdr = v })

abbrev reads : ℕ × PpuSide → Access
reads (v, s) = accessed v s []

module _ (ppu_read : ℕ → Ppu → ℕ × Ppu) (open_bus : ℕ) where
  unfoldable pub ppu_reg_read : ℕ → PpuSide → Access
  ppu_reg_read reg s =
      if ppu1_open reg
      then got s.ppu1_mdr s
      else if reg == 0x2134 || reg == 0x2135 || reg == 0x2136
      then (let r = ppu_read (u8 (reg - 0x2100)) s.ppu in
          got r.0 (record s { ppu1_mdr = r.0; ppu = r.1 }))
      else if reg == 0x2138
      then reads (oam_read s)
      else if reg == 0x2139
      then reads (vram_read_low s)
      else if reg == 0x213A
      then reads (vram_read_high s)
      else if reg == 0x213B
      then reads (cgram_read s)
      else if reg == 0x213E
      then accessed (stat77_read s).0 (stat77_read s).1 (stat77_note ∷ [])
      else if reg == 0x2137 || reg == 0x213C || reg == 0x213D || reg == 0x213F
      then fatal
      else got open_bus s

-- A write to one half of OAMADD.
unfoldable pub oamadd_write : ℕ → ℕ → PpuSide → PpuSide
oamadd_write reg v s =
    let r =
      if reg == 0x2102
      then u16 (bit_or (bit_and s.oamadd_reload 0x100) v)
      else u16 (bit_or (bit_and s.oamadd_reload 0xFF) (bit_and v 1 <<< 8)) in
    record s { oamadd_reload = r; ppu = record s.ppu { oam_adr = r; oam_second_write = false } }

-- The line drawn up to the access, where `snes_ppu_dot` is set and gives `dot`.
unfoldable pub drawn : (ℕ → Ppu → Ppu) → Option ℕ → Ppu → Ppu
drawn ppu_draw_to dot p = elim dot [
  | none ↦ p
  | some d ↦ if ltb p.draw_x 256 && ltb 22 d then ppu_draw_to (d - 21) p else p
]

abbrev pub on_ppu : (Ppu → Ppu) → PpuSide → PpuSide
on_ppu f s = record s { ppu = f s.ppu }

module _ (ppu_write : ℕ → ℕ → Ppu → Ppu) where
  -- A write of a register below $2134.
  unfoldable pub ppu_reg_store : ℕ → ℕ → PpuSide → PpuSide
  ppu_reg_store reg v s =
      if reg == 0x2104
      then on_ppu (oam_write v) s
      else if reg == 0x2102 || reg == 0x2103
      then oamadd_write reg v (on_ppu (ppu_write (u8 (reg - 0x2100)) v) s)
      else (let s1 = on_ppu (ppu_write (u8 (reg - 0x2100)) v) s in
          if reg == 0x2116 || reg == 0x2117
          then record s1 { vram_latch = s1.ppu.vram (bit_and s1.ppu.vram_pointer 0x7FFF) }
          else s1)

  -- `hooked` tells whether `snes_ppu_write_hook` is set.
  unfoldable pub ppu_reg_write :
      (ℕ → Ppu → Ppu) → Bool → Option ℕ → ℕ → ℕ → PpuSide → PpuSide × List PpuCall
  ppu_reg_write ppu_draw_to hooked dot reg v s =
      let calls = if hooked then write_hook reg v ∷ [] else [] in
      if leb 0x2134 reg
      then (s, calls ++ bus_readonly_write reg v ∷ [])
      else (ppu_reg_store reg v (on_ppu (drawn ppu_draw_to dot) s), calls)
