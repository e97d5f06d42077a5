-- ===== src/Bus/Math.antt =====
-- The multiply/divide unit of runtime/bus.c, $4202-$4206 and $4214-$4217.
use ct_recomp.Base.{ℕ, Option, none, some, ◌*◌, ◌/◌, ◌%◌, ◌==◌, if◌then◌else◌, bit_and, bit_or}
use ct_recomp.Base.{u8, u16, ◌<<<◌, ◌>>>◌}
use ct_recomp.Bus.{MathUnit}

-- The write of $4206: the division, with the result that hardware gives for 0.
unfoldable pub divide : ℕ → MathUnit → MathUnit
divide v alu =
    if v == 0
    then record alu { wrdivb = v; rddiv = 0xFFFF; rdmpy = alu.wrdiv }
    else record alu { wrdivb = v; rddiv = u16 (alu.wrdiv / v); rdmpy = u16 (alu.wrdiv % v) }

-- `math_write`; `none` is its `ct_fatal`.
unfoldable pub math_write : ℕ → ℕ → MathUnit → Option MathUnit
math_write reg v alu =
    if reg == 0x4202
    then some (record alu { wrmpya = v })
    else if reg == 0x4203
    then some (record alu { wrmpyb = v; rdmpy = u16 (alu.wrmpya * v) })
    else if reg == 0x4204
    then some (record alu { wrdiv = u16 (bit_or (bit_and alu.wrdiv 0xFF00) v) })
    else if reg == 0x4205
    then some (record alu { wrdiv = u16 (bit_or (bit_and alu.wrdiv 0x00FF) (v <<< 8)) })
    else if reg == 0x4206
    then some (divide v alu)
    else none

-- `math_read`.
unfoldable pub math_read : ℕ → MathUnit → Option ℕ
math_read reg alu =
    if reg == 0x4214
    then some (u8 alu.rddiv)
    else if reg == 0x4215
    then some (u8 (alu.rddiv >>> 8))
    else if reg == 0x4216
    then some (u8 alu.rdmpy)
    else if reg == 0x4217
    then some (u8 (alu.rdmpy >>> 8))
    else none
