-- ===== src/Interp/Decode.antt =====
-- The opcodes of `step` (runtime/interp.c): the ALU group by its columns, then the labels of the
-- switch, each with the body that it leads to.
use ct_recomp.Base.{ℕ, true, false, List, [], ◌∷◌, Option, some, none, ◌==◌, if◌then◌else◌}
use ct_recomp.Base.{◌||◌, bit_and, ◌>>>◌}
use ct_recomp.Interp.Registers.{asl, rol, lsr, ror, inc, dec}
use ct_recomp.Interp.Access.{
  Mode, imm, dp, dp_x, dp_y, dp_i, dp_x_i, dp_i_y, dp_il, dp_il_y, sr, sr_i_y, abs, abs_x, abs_y,
  long, long_x,
}
use ct_recomp.Interp.Instr.{
  Alu, ora, and, eor, adc, sta, lda, cmp, sbc, ix, iy, tax, tay, txa, tya, txy, tyx, tsx, txs, tcd,
  tdc, tcs, tsc, xba,
}
use ct_recomp.Interp.Instr.{
  st_a, st_x, st_y, st_db, st_dp, st_pb, st_p, carry, interrupt, decimal, overflow,
}
use ct_recomp.Interp.Instr.{
  plus, minus, no_overflow, has_overflow, no_carry, has_carry, not_equal, equal, always,
}
use ct_recomp.Interp.Instr.{
  Instr, alu_op, rmw_acc, rmw_at, test_bits, bit_test, load_index, store_index, compare_index,
  store_zero,
}
use ct_recomp.Interp.Instr.{
  step_index, transfer, push_reg, pull_reg, pea, pei, per, set_flag, rep, sep, xce, branch_on,
}
use ct_recomp.Interp.Instr.{
  brl, jmp, jml, jmp_ind, jmp_ind_x, jml_ind, jsr, jsr_ind_x, jsl, rts, rtl, move,
}
use ct_recomp.Interp.Instr.{brk, cop, stp, wai, rti, nop, wdm, unsupported}

-- `alu_mode`: the addressing column, `none` where it returns 0.
unfoldable pub alu_mode : ℕ → Option Mode
alu_mode op =
    let col = bit_and op 0x1F in
    if col == 0x01
    then some dp_x_i
    else if col == 0x03
    then some sr
    else if col == 0x05
    then some dp
    else if col == 0x07
    then some dp_il
    else if col == 0x09
    then (if op == 0x89 then none else some imm)
    else if col == 0x0D
    then some abs
    else if col == 0x0F
    then some long
    else if col == 0x11
    then some dp_i_y
    else if col == 0x12
    then some dp_i
    else if col == 0x13
    then some sr_i_y
    else if col == 0x15
    then some dp_x
    else if col == 0x17
    then some dp_il_y
    else if col == 0x19
    then some abs_y
    else if col == 0x1D
    then some abs_x
    else if col == 0x1F
    then some long_x
    else none

-- The switch on `op >> 5` in `alu`.
unfoldable pub alu_of : ℕ → Alu
alu_of op =
    let row = op >>> 5 in
    if row == 0
    then ora
    else if row == 1
    then and
    else if row == 2
    then eor
    else if row == 3
    then adc
    else if row == 4
    then sta
    else if row == 5
    then lda
    else if row == 6
    then cmp
    else sbc

-- A part of the switch: its labels with what they lead to.
abbrev pub Cases : Type 0
Cases = List (ℕ × Instr)

unfoldable pub find_case : ℕ → Cases → Option Instr
find_case op [] = none
find_case op ((label, i) ∷ cases) = if label == op then some i else find_case op cases

-- The cases of read-modify-write, TSB, TRB and BIT.
unfoldable pub rmw_cases : Cases
rmw_cases =
    (0x0A, rmw_acc asl)
    ∷ (0x2A, rmw_acc rol)
    ∷ (0x4A, rmw_acc lsr)
    ∷ (0x6A, rmw_acc ror)
    ∷ (0x1A, rmw_acc inc)
    ∷ (0x3A, rmw_acc dec)
    ∷ (0x06, rmw_at asl dp)
    ∷ (0x0E, rmw_at asl abs)
    ∷ (0x16, rmw_at asl dp_x)
    ∷ (0x1E, rmw_at asl abs_x)
    ∷ (0x26, rmw_at rol dp)
    ∷ (0x2E, rmw_at rol abs)
    ∷ (0x36, rmw_at rol dp_x)
    ∷ (0x3E, rmw_at rol abs_x)
    ∷ (0x46, rmw_at lsr dp)
    ∷ (0x4E, rmw_at lsr abs)
    ∷ (0x56, rmw_at lsr dp_x)
    ∷ (0x5E, rmw_at lsr abs_x)
    ∷ (0x66, rmw_at ror dp)
    ∷ (0x6E, rmw_at ror abs)
    ∷ (0x76, rmw_at ror dp_x)
    ∷ (0x7E, rmw_at ror abs_x)
    ∷ (0xE6, rmw_at inc dp)
    ∷ (0xEE, rmw_at inc abs)
    ∷ (0xF6, rmw_at inc dp_x)
    ∷ (0xFE, rmw_at inc abs_x)
    ∷ (0xC6, rmw_at dec dp)
    ∷ (0xCE, rmw_at dec abs)
    ∷ (0xD6, rmw_at dec dp_x)
    ∷ (0xDE, rmw_at dec abs_x)
    ∷ (0x04, test_bits false dp)
    ∷ (0x0C, test_bits false abs)
    ∷ (0x14, test_bits true dp)
    ∷ (0x1C, test_bits true abs)
    ∷ (0x89, bit_test imm)
    ∷ (0x24, bit_test dp)
    ∷ (0x2C, bit_test abs)
    ∷ (0x34, bit_test dp_x)
    ∷ (0x3C, bit_test abs_x)
    ∷ []

-- The cases of the index registers and STZ.
unfoldable pub index_cases : Cases
index_cases =
    (0xA2, load_index ix imm)
    ∷ (0xA6, load_index ix dp)
    ∷ (0xAE, load_index ix abs)
    ∷ (0xB6, load_index ix dp_y)
    ∷ (0xBE, load_index ix abs_y)
    ∷ (0xA0, load_index iy imm)
    ∷ (0xA4, load_index iy dp)
    ∷ (0xAC, load_index iy abs)
    ∷ (0xB4, load_index iy dp_x)
    ∷ (0xBC, load_index iy abs_x)
    ∷ (0x86, store_index ix dp)
    ∷ (0x8E, store_index ix abs)
    ∷ (0x96, store_index ix dp_y)
    ∷ (0x84, store_index iy dp)
    ∷ (0x8C, store_index iy abs)
    ∷ (0x94, store_index iy dp_x)
    ∷ (0x64, store_zero dp)
    ∷ (0x74, store_zero dp_x)
    ∷ (0x9C, store_zero abs)
    ∷ (0x9E, store_zero abs_x)
    ∷ (0xE0, compare_index ix imm)
    ∷ (0xE4, compare_index ix dp)
    ∷ (0xEC, compare_index ix abs)
    ∷ (0xC0, compare_index iy imm)
    ∷ (0xC4, compare_index iy dp)
    ∷ (0xCC, compare_index iy abs)
    ∷ (0xE8, step_index ix true)
    ∷ (0xC8, step_index iy true)
    ∷ (0xCA, step_index ix false)
    ∷ (0x88, step_index iy false)
    ∷ []

-- The cases of the transfers, the stack and the flags.
unfoldable pub register_cases : Cases
register_cases =
    (0xAA, transfer tax)
    ∷ (0xA8, transfer tay)
    ∷ (0x8A, transfer txa)
    ∷ (0x98, transfer tya)
    ∷ (0x9B, transfer txy)
    ∷ (0xBB, transfer tyx)
    ∷ (0xBA, transfer tsx)
    ∷ (0x9A, transfer txs)
    ∷ (0x5B, transfer tcd)
    ∷ (0x7B, transfer tdc)
    ∷ (0x1B, transfer tcs)
    ∷ (0x3B, transfer tsc)
    ∷ (0xEB, transfer xba)
    ∷ (0x48, push_reg st_a)
    ∷ (0xDA, push_reg st_x)
    ∷ (0x5A, push_reg st_y)
    ∷ (0x68, pull_reg st_a)
    ∷ (0xFA, pull_reg st_x)
    ∷ (0x7A, pull_reg st_y)
    ∷ (0x8B, push_reg st_db)
    ∷ (0xAB, pull_reg st_db)
    ∷ (0x0B, push_reg st_dp)
    ∷ (0x2B, pull_reg st_dp)
    ∷ (0x4B, push_reg st_pb)
    ∷ (0x08, push_reg st_p)
    ∷ (0x28, pull_reg st_p)
    ∷ (0xF4, pea)
    ∷ (0xD4, pei)
    ∷ (0x62, per)
    ∷ (0x18, set_flag carry false)
    ∷ (0x38, set_flag carry true)
    ∷ (0x58, set_flag interrupt false)
    ∷ (0x78, set_flag interrupt true)
    ∷ (0xD8, set_flag decimal false)
    ∷ (0xF8, set_flag decimal true)
    ∷ (0xB8, set_flag overflow false)
    ∷ (0xC2, rep)
    ∷ (0xE2, sep)
    ∷ (0xFB, xce)
    ∷ []

-- The cases of branches, jumps, calls, returns, block moves and the rest.
unfoldable pub jump_cases : Cases
jump_cases =
    (0x10, branch_on plus)
    ∷ (0x30, branch_on minus)
    ∷ (0x50, branch_on no_overflow)
    ∷ (0x70, branch_on has_overflow)
    ∷ (0x90, branch_on no_carry)
    ∷ (0xB0, branch_on has_carry)
    ∷ (0xD0, branch_on not_equal)
    ∷ (0xF0, branch_on equal)
    ∷ (0x80, branch_on always)
    ∷ (0x82, brl)
    ∷ (0x4C, jmp)
    ∷ (0x5C, jml)
    ∷ (0x6C, jmp_ind)
    ∷ (0x7C, jmp_ind_x)
    ∷ (0xDC, jml_ind)
    ∷ (0x20, jsr)
    ∷ (0xFC, jsr_ind_x)
    ∷ (0x22, jsl)
    ∷ (0x60, rts)
    ∷ (0x6B, rtl)
    ∷ (0x54, move 1)
    ∷ (0x44, move 0xFFFF)
    ∷ (0x00, brk)
    ∷ (0x02, cop)
    ∷ (0xDB, stp)
    ∷ (0xCB, wai)
    ∷ (0x40, rti)
    ∷ (0xEA, nop)
    ∷ (0x42, wdm)
    ∷ []

-- The first of the parts that has the label, and the default of the switch.
unfoldable pub switch : ℕ → List Cases → Instr
unfolding find_case
switch op [] = unsupported
switch op (cases ∷ parts) = elim (find_case op cases) [ some i ↦ i | none ↦ switch op parts ]

-- The test that leads to `alu`, and the switch behind it.
unfoldable pub decode : ℕ → Instr
unfolding alu_mode alu_of switch rmw_cases index_cases register_cases jump_cases
decode op =
    let other = switch op (rmw_cases ∷ index_cases ∷ register_cases ∷ jump_cases ∷ []) in
    if bit_and op 3 == 1 || bit_and op 3 == 3 || bit_and op 0x1F == 0x12
    then elim (alu_mode op) [ some md ↦ alu_op (alu_of op) md | none ↦ other ]
    else other
