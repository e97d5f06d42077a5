-- ===== src/Cycles/Table.antt =====
-- `cyc_base` and `cyc_pen` of runtime/cycles.c, as `build_cycle_table` fills them. A table is the
-- list of the `cyc` calls that built it, the last call first; an opcode's entry is that of the last
-- call for it.
use ct_recomp.Base.{ℕ, List, [], ◌∷◌, ◌+◌, ◌==◌, if◌then◌else◌, bit_or}

abbrev pub p_m : ℕ
p_m = 1

abbrev pub p_m2 : ℕ
p_m2 = 2

abbrev pub p_x : ℕ
p_x = 4

abbrev pub p_dl : ℕ
p_dl = 8

abbrev pub p_idx : ℕ
p_idx = 16

abbrev pub p_br : ℕ
p_br = 32

abbrev pub p_rti : ℕ
p_rti = 128

-- An opcode with its base count and its penalties (`P_DL | P_M` and the like, as sums).
abbrev pub Row : Type 0
Row = ℕ × ℕ × ℕ

abbrev pub Table : Type 0
Table = List Row

-- The entry of an opcode, 0 and 0 if no call set it.
unfoldable pub lookup : ℕ → Table → ℕ × ℕ
lookup op [] = (0, 0)
lookup op ((o, base, pen) ∷ rows) = if o == op then (base, pen) else lookup op rows

-- The addressing columns of the ALU group.
abbrev pub alu_columns : Table
alu_columns =
    (0x01, 6, p_dl)
    ∷ (0x03, 4, 0)
    ∷ (0x05, 3, p_dl)
    ∷ (0x07, 6, p_dl)
    ∷ (0x09, 2, 0)
    ∷ (0x0D, 4, 0)
    ∷ (0x0F, 5, 0)
    ∷ (0x11, 5, (p_dl + p_idx))
    ∷ (0x12, 5, p_dl)
    ∷ (0x13, 7, 0)
    ∷ (0x15, 4, p_dl)
    ∷ (0x17, 6, p_dl)
    ∷ (0x19, 4, p_idx)
    ∷ (0x1D, 4, p_idx)
    ∷ (0x1F, 5, 0)
    ∷ []

-- The inner loop over the columns, for the rows of opcodes from `hi << 5` on.
column_rows : ℕ → List Row → Table → Table
column_rows hi [] t = t
column_rows hi ((lo, base, pen) ∷ cs) t =
    column_rows hi cs ((bit_or hi lo, base, bit_or pen p_m) ∷ t)

-- The outer loop, over the eight operations.
alu_rows : List ℕ → Table → Table
unfolding column_rows
alu_rows [] t = t
alu_rows (hi ∷ his) t = alu_rows his (column_rows hi alu_columns t)

abbrev pub alu_his : List ℕ
alu_his = 0x00 ∷ 0x20 ∷ 0x40 ∷ 0x60 ∷ 0x80 ∷ 0xA0 ∷ 0xC0 ∷ 0xE0 ∷ []

-- `rmw_ops`: ASL ROL LSR ROR INC DEC.
abbrev pub rmw_ops : List ℕ
rmw_ops = 0x00 ∷ 0x20 ∷ 0x40 ∷ 0x60 ∷ 0xE0 ∷ 0xC0 ∷ []

rmw_rows : List ℕ → Table → Table
rmw_rows [] t = t
rmw_rows (op ∷ ops) t = rmw_rows ops (
    (bit_or op 0x1E, 7, p_m2)
    ∷ (bit_or op 0x16, 6, p_dl + p_m2)
    ∷ (bit_or op 0x0E, 6, p_m2)
    ∷ (bit_or op 0x06, 5, p_dl + p_m2)
    ∷ t)

two_rows : List ℕ → Table → Table
two_rows [] t = t
two_rows (op ∷ ops) t = two_rows ops ((op, 2, 0) ∷ t)

branch_rows : List ℕ → Table → Table
branch_rows [] t = t
branch_rows (op ∷ ops) t = branch_rows ops ((op, 2, p_br) ∷ t)

-- `two`: the opcodes of two cycles.
abbrev pub two_ops : List ℕ
two_ops =
    0x0A ∷ 0x2A ∷ 0x4A ∷ 0x6A ∷ 0x1A ∷ 0x3A ∷ 0xE8 ∷ 0xC8 ∷ 0xCA ∷ 0x88 ∷ 0xAA ∷ 0xA8 ∷ 0x8A ∷ 0x98
    ∷ 0x9B ∷ 0xBB ∷ 0xBA ∷ 0x9A ∷ 0x5B ∷ 0x7B ∷ 0x1B ∷ 0x3B ∷ 0x18 ∷ 0x38 ∷ 0x58 ∷ 0x78 ∷ 0xD8
    ∷ 0xF8 ∷ 0xB8 ∷ 0xFB ∷ 0xEA ∷ 0x42 ∷ []

-- `br`: the branches.
abbrev pub branch_ops : List ℕ
branch_ops = 0x10 ∷ 0x30 ∷ 0x50 ∷ 0x70 ∷ 0x90 ∷ 0xB0 ∷ 0xD0 ∷ 0xF0 ∷ 0x80 ∷ []

-- STA (dp),Y, abs,Y and abs,X: the calls after the ALU loop, the last first.
abbrev pub sta_rows : Table → Table
sta_rows t = (0x9D, 5, p_m) ∷ (0x99, 5, p_m) ∷ (0x91, 6, (p_dl + p_m)) ∷ t

-- The calls between `two` and `br`, the last first.
abbrev pub single_rows : Table → Table
single_rows t =
    (0xE2, 3, 0)
    ∷ (0xC2, 3, 0)
    ∷ (0x62, 6, 0)
    ∷ (0xD4, 6, p_dl)
    ∷ (0xF4, 5, 0)
    ∷ (0x28, 4, 0)
    ∷ (0x08, 3, 0)
    ∷ (0x4B, 3, 0)
    ∷ (0x2B, 5, 0)
    ∷ (0x0B, 4, 0)
    ∷ (0xAB, 4, 0)
    ∷ (0x8B, 3, 0)
    ∷ (0x7A, 4, p_x)
    ∷ (0xFA, 4, p_x)
    ∷ (0x68, 4, p_m)
    ∷ (0x5A, 3, p_x)
    ∷ (0xDA, 3, p_x)
    ∷ (0x48, 3, p_m)
    ∷ (0xEB, 3, 0)
    ∷ (0xCC, 4, p_x)
    ∷ (0xC4, 3, (p_dl + p_x))
    ∷ (0xC0, 2, p_x)
    ∷ (0xEC, 4, p_x)
    ∷ (0xE4, 3, (p_dl + p_x))
    ∷ (0xE0, 2, p_x)
    ∷ (0x9E, 5, p_m)
    ∷ (0x9C, 4, p_m)
    ∷ (0x74, 4, (p_dl + p_m))
    ∷ (0x64, 3, (p_dl + p_m))
    ∷ (0x94, 4, (p_dl + p_x))
    ∷ (0x8C, 4, p_x)
    ∷ (0x84, 3, (p_dl + p_x))
    ∷ (0x96, 4, (p_dl + p_x))
    ∷ (0x8E, 4, p_x)
    ∷ (0x86, 3, (p_dl + p_x))
    ∷ (0xBC, 4, (p_x + p_idx))
    ∷ (0xB4, 4, (p_dl + p_x))
    ∷ (0xAC, 4, p_x)
    ∷ (0xA4, 3, (p_dl + p_x))
    ∷ (0xA0, 2, p_x)
    ∷ (0xBE, 4, (p_x + p_idx))
    ∷ (0xB6, 4, (p_dl + p_x))
    ∷ (0xAE, 4, p_x)
    ∷ (0xA6, 3, (p_dl + p_x))
    ∷ (0xA2, 2, p_x)
    ∷ (0x3C, 4, (p_m + p_idx))
    ∷ (0x34, 4, (p_dl + p_m))
    ∷ (0x2C, 4, p_m)
    ∷ (0x24, 3, (p_dl + p_m))
    ∷ (0x89, 2, p_m)
    ∷ (0x1C, 6, p_m2)
    ∷ (0x14, 5, (p_dl + p_m2))
    ∷ (0x0C, 6, p_m2)
    ∷ (0x04, 5, (p_dl + p_m2))
    ∷ t

-- The calls after `br`, the last first.
abbrev pub last_rows : Table → Table
last_rows t =
    (0xDB, 3, 0)
    ∷ (0xCB, 3, 0)
    ∷ (0x44, 7, 0)
    ∷ (0x54, 7, 0)
    ∷ (0x40, 6, p_rti)
    ∷ (0x6B, 6, 0)
    ∷ (0x60, 6, 0)
    ∷ (0x22, 8, 0)
    ∷ (0xFC, 8, 0)
    ∷ (0x20, 6, 0)
    ∷ (0xDC, 6, 0)
    ∷ (0x7C, 6, 0)
    ∷ (0x6C, 5, 0)
    ∷ (0x5C, 4, 0)
    ∷ (0x4C, 3, 0)
    ∷ (0x82, 4, 0)
    ∷ t

-- `build_cycle_table`.
unfoldable pub build_cycle_table : Table
unfolding alu_rows rmw_rows two_rows branch_rows
build_cycle_table = last_rows (
    branch_rows branch_ops
      (single_rows (two_rows two_ops (rmw_rows rmw_ops (sta_rows (alu_rows alu_his []))))))

-- `cyc_base[op]` and `cyc_pen[op]`.
unfoldable pub cyc_base : ℕ → ℕ
unfolding build_cycle_table lookup
cyc_base op = (lookup op build_cycle_table).0

unfoldable pub cyc_pen : ℕ → ℕ
unfolding build_cycle_table lookup
cyc_pen op = (lookup op build_cycle_table).1
