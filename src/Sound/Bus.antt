-- ===== src/Sound/Bus.antt =====
-- The functions of the bus state keep the widths of its registers and bytes.
use Prim.Native.Nat.{bit_and, bit_or}
use ct_recomp.Base.{ℕ, some, ◌≡◌, ◌+◌, ◌*◌, ◌<◌, ◌^◌, arith, word, long_addr, update}
use ct_recomp.Base.Bits.{bit_or-lt, bit_and-le, bit_and-mask}
use ct_recomp.Bus.{MathUnit, Bus}
use ct_recomp.Bus.Math
use ct_recomp.Bus.Port
use ct_recomp.Bus.Port.{wram_store, journal}
use ct_recomp.Bus.Log.{log_access}
use ct_recomp.Memory.{}
use ct_recomp.Sound.State.{IsByte, IsWord, IsLong, IsBus, IsMath}

pub word-IsWord : (lo hi : ℕ) → IsByte lo → IsByte hi → IsWord (word lo hi)
word-IsWord lo hi p q = bit_or-lt 16 (hi * 2 ^ 8) lo (omega arith) (omega arith)

pub long_addr-IsLong : (bank off : ℕ) → IsByte bank → IsWord off → IsLong (long_addr bank off)
long_addr-IsLong bank off p q = bit_or-lt 24 (bank * 2 ^ 16) off (omega arith) (omega arith)

pub log_access-IsBus : (a mark : ℕ) (b : Bus) → IsBus b → IsBus (log_access a mark b)
unfolding log_access
log_access-IsBus a mark b h = ground arith

pub with_mdr-IsBus : (v : ℕ) (b : Bus) → IsByte v → IsBus b → IsBus (record b { mdr = v })
with_mdr-IsBus v b p h = ground arith

pub math_read-IsByte :
    (reg : ℕ) (alu : MathUnit) {v : ℕ} → Math.math_read reg alu ≡ some v → IsByte v
unfolding Math.math_read
math_read-IsByte reg alu h = ground arith

pub divide-IsMath : (v : ℕ) (alu : MathUnit) → IsMath alu → IsMath (Math.divide v alu)
unfolding Math.divide
divide-IsMath v alu h = ground arith

pub math_write-IsMath :
    (reg v : ℕ) (alu alu' : MathUnit)
    → IsByte v
    → IsMath alu
    → Math.math_write reg v alu ≡ some alu'
    → IsMath alu'
unfolding Math.math_write
math_write-IsMath reg v alu alu' p h e = ground (arith, divide-IsMath v alu)

pub update-IsByte :
    (f : ℕ → ℕ) (i v : ℕ) → IsByte v → ((j : ℕ) → IsByte (f j)) → (j : ℕ) → IsByte (update f i v j)
update-IsByte f i v p h j = ground (arith, h j)

-- What `wram_store` does before it writes keeps the invariant.
pub journal-IsBus : (off v : ℕ) (b : Bus) → IsBus b → IsBus (journal off v b)
unfolding journal
journal-IsBus off v b h = ground arith

pub set_wram-IsBus :
    (off v : ℕ) (b : Bus) → IsByte v → IsBus b → IsBus (record b { wram = update b.wram off v })
set_wram-IsBus off v b p h = record {
  rom_fits = h.rom_fits;
  wram_fits = update-IsByte b.wram off v p h.wram_fits;
  sram_fits = h.sram_fits;
  alu_fits = h.alu_fits;
  port_fits = h.port_fits;
  mdr_fits = h.mdr_fits;
  memsel_fits = h.memsel_fits;
}

pub set_sram-IsBus :
    (off v : ℕ) (b : Bus) → IsByte v → IsBus b → IsBus (record b { sram = update b.sram off v })
set_sram-IsBus off v b p h = record {
  rom_fits = h.rom_fits;
  wram_fits = h.wram_fits;
  sram_fits = update-IsByte b.sram off v p h.sram_fits;
  alu_fits = h.alu_fits;
  port_fits = h.port_fits;
  mdr_fits = h.mdr_fits;
  memsel_fits = h.memsel_fits;
}

pub wram_store-IsBus : (off v : ℕ) (b : Bus) → IsByte v → IsBus b → IsBus (wram_store off v b)
unfolding wram_store
wram_store-IsBus off v b p h = set_wram-IsBus off v _ p (
    journal-IsBus off v _ (record {
      rom_fits = h.rom_fits;
      wram_fits = h.wram_fits;
      sram_fits = h.sram_fits;
      alu_fits = h.alu_fits;
      port_fits = h.port_fits;
      mdr_fits = h.mdr_fits;
      memsel_fits = h.memsel_fits;
    }))

pub and_port : (a : ℕ) → bit_and a 0x1FFFF < 2 ^ 17
and_port a = omega (arith, bit_and-mask 17 a)

pub set_port-IsBus :
    (p : ℕ) (b : Bus) → p < 2 ^ 17 → IsBus b → IsBus (record b { wram_port_addr = p })
set_port-IsBus p b q h = ground arith

pub wram_port_write-IsBus :
    (reg v : ℕ) (b b' : Bus)
    → IsByte v
    → IsBus b
    → Port.wram_port_write reg v b ≡ some b'
    → IsBus b'
unfolding Port.wram_port_write
wram_port_write-IsBus reg v b b' p h e = ground (
  arith,
  set_port-IsBus (bit_and (stored.wram_port_addr + 1) 0x1FFFF) stored,
  and_port (stored.wram_port_addr + 1),
  wram_store-IsBus (bit_and b.wram_port_addr 0x1FFFF) v b,
  set_port-IsBus (bit_or (bit_and b.wram_port_addr 0x1FF00) v) b,
  bit_or-lt 17 (bit_and b.wram_port_addr 0x1FF00) v,
  bit_and-le b.wram_port_addr 0x1FF00,
  set_port-IsBus (bit_or (bit_and b.wram_port_addr 0x100FF) (v * 2 ^ 8)) b,
  bit_or-lt 17 (bit_and b.wram_port_addr 0x100FF) (v * 2 ^ 8),
  bit_and-le b.wram_port_addr 0x100FF,
  set_port-IsBus (bit_or (bit_and b.wram_port_addr 0x0FFFF) (bit_and v 1 * 2 ^ 16)) b,
  bit_or-lt 17 (bit_and b.wram_port_addr 0x0FFFF) (bit_and v 1 * 2 ^ 16),
  bit_and-le b.wram_port_addr 0x0FFFF,
  bit_and-mask 1 v,
)
  where
    stored : Bus
    stored = wram_store (bit_and b.wram_port_addr 0x1FFFF) v b
