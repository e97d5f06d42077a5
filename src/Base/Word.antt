-- ===== src/Base/Word.antt =====
-- Casts to the fixed widths, shifts and complements of C. `& 0xFF` is the cast to 8 bits.
use Prim.Native.Nat.{ℕ, ◌+◌, ◌-◌, ◌*◌, ◌/◌, ◌%◌, ◌^◌, bit_or}

abbrev pub u8 : ℕ → ℕ
u8 n = n % 2 ^ 8

abbrev pub u16 : ℕ → ℕ
u16 n = n % 2 ^ 16

-- `& 0xFFFFFF`, the width of an address.
abbrev pub u24 : ℕ → ℕ
u24 n = n % 2 ^ 24

abbrev pub u32 : ℕ → ℕ
u32 n = n % 2 ^ 32

infixl 75 ◌<<<◌ ◌>>>◌
abbrev pub ◌<<<◌ : ℕ → ℕ → ℕ
x <<< k = x * 2 ^ k

abbrev pub ◌>>>◌ : ℕ → ℕ → ℕ
x >>> k = x / 2 ^ k

-- `~v` at each width, of a value of that width.
abbrev pub not8 : ℕ → ℕ
not8 v = 2 ^ 8 - 1 - u8 v

abbrev pub not16 : ℕ → ℕ
not16 v = 2 ^ 16 - 1 - u16 v

abbrev pub not32 : ℕ → ℕ
not32 v = 2 ^ 32 - 1 - u32 v

-- `x - k` in 8, 16 and 32 bits; `-` on ℕ stops at 0, so the modulus is added first.
abbrev pub sub8 : ℕ → ℕ → ℕ
sub8 x k = u8 (x + 2 ^ 8 - k)

abbrev pub sub16 : ℕ → ℕ → ℕ
sub16 x k = u16 (x + 2 ^ 16 - k)

abbrev pub sub32 : ℕ → ℕ → ℕ
sub32 x k = u32 (x + 2 ^ 32 - k)

-- A 16-bit value from its bytes, `lo | hi << 8`, and a 24-bit address from bank and offset.
abbrev pub word : ℕ → ℕ → ℕ
word lo hi = bit_or (hi <<< 8) lo

abbrev pub long_addr : ℕ → ℕ → ℕ
long_addr bank off = bit_or (bank <<< 16) off
