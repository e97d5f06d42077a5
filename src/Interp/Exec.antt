-- ===== src/Interp/Exec.antt =====
-- The bodies of `step` in runtime/interp.c, one clause of `exec` for a constructor of `Instr`.
use ct_recomp.Base.{ℕ, Bool, true, false, not, Option, none, some, ◌+◌}
use ct_recomp.Base.{◌==◌, if◌then◌else◌, flag, bit_and, bit_or, bit_xor}
use ct_recomp.Base.{u8, u16, not8, not16, sub16, ◌<<<◌, ◌>>>◌, word, long_addr}
use ct_recomp.Cpu.{Cpu}
use ct_recomp.Machine.{Extern, M, ◌>>=◌, ◌>>◌, pure, ct_fatal, gets, on_cpu, on_ctl, with_cpu, when}
use ct_recomp.Machine.{
  store_immediate, brk_executed, cop_executed, stp_executed, wai_executed, not_supported,
}
use ct_recomp.Memory.{read8}
use ct_recomp.Interp.Registers.{nz, pack_p, unpack_p, get_a, set_a, masked, add, compare, rmw, idx}
use ct_recomp.Interp.Access.{fetch8, fetch16, fetch24, rd, wr, wr_rmw, rd_bank0_16, rd_bank0_24}
use ct_recomp.Interp.Access.{
  push, pull, pushw, pullw, Mode, imm, ea, operand, rmw_mem, loop_tick, branch,
}
use ct_recomp.Interp.Calls.{
  extern_hook, run_hook, table_index, enter_call, check_rts, check_rtl, leave_call, block_move,
}
use ct_recomp.Interp.Instr.{
  Alu, ora, and, eor, adc, sta, lda, cmp, sbc, Index, ix, iy, Transfer, tax, tay, txa, tya, txy,
  tyx, tsx, txs, tcd, tdc, tcs, tsc, xba,
}
use ct_recomp.Interp.Instr.{
  Stacked, st_a, st_x, st_y, st_db, st_dp, st_pb, st_p, Flag, carry, interrupt, decimal, overflow,
}
use ct_recomp.Interp.Instr.{
  Condition, plus, minus, no_overflow, has_overflow, no_carry, has_carry, not_equal, equal, always,
}
use ct_recomp.Interp.Instr.{
  Instr, alu_op, rmw_acc, rmw_at, test_bits, bit_test, load_index, store_index, compare_index,
  store_zero,
}
use ct_recomp.Interp.Instr.{
  step_index, transfer, push_reg, pull_reg, pea, pei, per, set_flag, rep, sep, xce, branch_on,
}
use ct_recomp.Interp.Instr.{
  brl, jmp, jml, jmp_ind, jmp_ind_x, jml_ind, jsr, jsr_ind_x, jsl, rts, rtl, move,
}
use ct_recomp.Interp.Instr.{brk, cop, stp, wai, rti, nop, wdm, unsupported}

-- `nz(c, v, wide); set_a(c, v)`
unfoldable pub nz_set_a : ℕ → Bool → Cpu → Cpu
nz_set_a v wide c = set_a v (nz v wide c)

-- The switch of `alu` on the operation, with the operand and A.
unfoldable pub alu_value : Alu → ℕ → ℕ → Bool → ℕ → M (Unit {0})
alu_value ora a v wide at = on_cpu (nz_set_a (bit_or a v) wide)
alu_value and a v wide at = on_cpu (nz_set_a (bit_and a v) wide)
alu_value eor a v wide at = on_cpu (nz_set_a (bit_xor a v) wide)
alu_value adc a v wide at = do r ← add a v wide at; on_cpu (set_a r)
alu_value sta a v wide at = pure tt
alu_value lda a v wide at = on_cpu (nz_set_a v wide)
alu_value cmp a v wide at = on_cpu (compare a v wide)
alu_value sbc a v wide at = do r ← add a (masked wide (not16 v)) wide at; on_cpu (set_a r)

-- STA.
unfoldable pub store_a : Mode → ℕ → Bool → M (Unit {0})
store_a imm at wide = ct_fatal (store_immediate at)
store_a md at wide = do e ← ea md; c ← gets (λ w. w.cpu); wr e wide (get_a c)

unfoldable pub alu : Alu → Mode → ℕ → Bool → M (Unit {0})
alu sta md at wide = store_a md at wide
alu op md at wide = do v ← operand md wide; c ← gets (λ w. w.cpu); alu_value op (get_a c) v wide at

-- `v >> (wide ? 15 : 7)` and `v >> (wide ? 14 : 6)`
abbrev pub sign_shift : Bool → ℕ
sign_shift true = 15
sign_shift false = 7

abbrev pub overflow_shift : Bool → ℕ
overflow_shift true = 14
overflow_shift false = 6

unfoldable pub bit_flags : ℕ → Bool → Bool → Cpu → Cpu
bit_flags v immediate wide c =
    let c1 = record c { fz = flag (bit_and (get_a c) v == 0) } in
    if immediate then c1 else record c1 {
      fn = bit_and (v >>> sign_shift wide) 1;
      fv = bit_and (v >>> overflow_shift wide) 1;
    }

unfoldable pub bit : Mode → Bool → M (Unit {0})
bit imm wide = do v ← operand imm wide; on_cpu (bit_flags v true wide)
bit md wide = do v ← operand md wide; on_cpu (bit_flags v false wide)

-- The register that an `Index` names, and an assignment to it with N and Z.
unfoldable pub index_reg : Index → Cpu → ℕ
index_reg ix c = c.x
index_reg iy c = c.y

unfoldable pub set_index : Index → ℕ → Bool → Cpu → Cpu
set_index ix v wide c = nz v wide (record c { x = v })
set_index iy v wide c = nz v wide (record c { y = v })

-- The bodies of the transfers.
unfoldable pub do_transfer : Transfer → Bool → Bool → Cpu → Cpu
do_transfer tax m16 x16 c = set_index ix (idx c.a c) x16 c
do_transfer tay m16 x16 c = set_index iy (idx c.a c) x16 c
do_transfer txa m16 x16 c = let c1 = set_a c.x c in nz (get_a c1) m16 c1
do_transfer tya m16 x16 c = let c1 = set_a c.y c in nz (get_a c1) m16 c1
do_transfer txy m16 x16 c = set_index iy c.x x16 c
do_transfer tyx m16 x16 c = set_index ix c.y x16 c
do_transfer tsx m16 x16 c = set_index ix (idx c.s c) x16 c
do_transfer txs m16 x16 c = record c { s = if c.fe == 0 then c.x else bit_or 0x0100 (u8 c.x) }
do_transfer tcd m16 x16 c = nz c.a true (record c { dp = c.a })
do_transfer tdc m16 x16 c = nz c.dp true (record c { a = c.dp })
do_transfer tcs m16 x16 c = record c { s = if c.fe == 0 then c.a else bit_or 0x0100 (u8 c.a) }
do_transfer tsc m16 x16 c = nz c.s true (record c { a = c.s })
do_transfer xba m16 x16 c =
    let r = u16 (bit_or (c.a >>> 8) (c.a <<< 8)) in nz (u8 r) false (record c { a = r })

-- `if (wide) pushw(c, v); else push(c, (uint8_t)v);` and the pull of either width.
unfoldable pub push_wide : Bool → ℕ → M (Unit {0})
push_wide true v = pushw v
push_wide false v = push (u8 v)

unfoldable pub pull_wide : Bool → M ℕ
pull_wide true = pullw
pull_wide false = pull

unfoldable pub do_push : Stacked → Cpu → Bool → Bool → M (Unit {0})
do_push st_a c m16 x16 = push_wide m16 c.a
do_push st_x c m16 x16 = push_wide x16 c.x
do_push st_y c m16 x16 = push_wide x16 c.y
do_push st_db c m16 x16 = push c.db
do_push st_dp c m16 x16 = pushw c.dp
do_push st_pb c m16 x16 = push c.pb
do_push st_p c m16 x16 = push (pack_p c)

-- `set_a(c, v); nz(c, get_a(c), m16)`
unfoldable pub set_a_nz : ℕ → Bool → Cpu → Cpu
set_a_nz v m16 c = let c1 = set_a v c in nz (get_a c1) m16 c1

unfoldable pub do_pull : Stacked → Bool → Bool → M (Unit {0})
do_pull st_a m16 x16 = do v ← pull_wide m16; on_cpu (set_a_nz v m16)
do_pull st_x m16 x16 = do v ← pull_wide x16; on_cpu (set_index ix v x16)
do_pull st_y m16 x16 = do v ← pull_wide x16; on_cpu (set_index iy v x16)
do_pull st_db m16 x16 = do v ← pull; on_cpu (λ c. nz v false (record c { db = v }))
do_pull st_dp m16 x16 = do v ← pullw; on_cpu (λ c. nz v true (record c { dp = v }))
do_pull st_pb m16 x16 = pure tt
do_pull st_p m16 x16 = do v ← pull; on_cpu (unpack_p v)

unfoldable pub do_flag : Flag → ℕ → Cpu → Cpu
do_flag carry v c = record c { fc = v }
do_flag interrupt v c = record c { fi = v }
do_flag decimal v c = record c { fd = v }
do_flag overflow v c = record c { fv = v }

unfoldable pub holds : Condition → Cpu → Bool
holds plus c = c.fn == 0
holds minus c = not (c.fn == 0)
holds no_overflow c = c.fv == 0
holds has_overflow c = not (c.fv == 0)
holds no_carry c = c.fc == 0
holds has_carry c = not (c.fc == 0)
holds not_equal c = c.fz == 0
holds equal c = not (c.fz == 0)
holds always c = true

-- XCE.
unfoldable pub do_xce : Cpu → Cpu
do_xce c =
    let c1 = record c { fc = c.fe; fe = c.fc } in
    if c1.fe == 0
    then c1
    else record c1 { fm = 1; fx = 1; x = u8 c1.x; y = u8 c1.y; s = bit_or 0x0100 (u8 c1.s) }

abbrev pub set_pc : ℕ → M (Unit {0})
set_pc t = on_cpu (λ c. record c { pc = t })

abbrev pub set_pb : ℕ → M (Unit {0})
set_pb t = on_cpu (λ c. record c { pb = t })

-- The jump through a table of the program bank.
unfoldable pub jump_through : ℕ → M (Unit {0})
jump_through p = do
  c ← gets (λ w. w.cpu)
  lo ← read8 (long_addr c.pb p)
  hi ← read8 (long_addr c.pb (u16 (p + 1)))
  set_pc (word lo hi)

-- JSR and JSL behind the search for a hook.
unfoldable pub call_or_hook : ℕ → ℕ → ℕ → ℕ → Option Extern → M (Unit {0})
call_or_hook at bank target is_long (some e) = do set_pb bank; run_hook e
call_or_hook at bank target is_long none = do enter_call at is_long; set_pb bank; set_pc target

unfoldable pub hook_or_stay : Option Extern → M (Unit {0})
hook_or_stay (some e) = run_hook e
hook_or_stay none = pure tt

-- The cases of `step` on instructions that only compute and access memory.
unfoldable pub exec_data : Instr → ℕ → Bool → Bool → M (Unit {0})
exec_data (rmw_acc op) at m16 x16 = do
  c ← gets (λ w. w.cpu)
  r ← with_cpu (rmw op (get_a c) m16)
  on_cpu (set_a r)
exec_data (rmw_at op md) at m16 x16 = rmw_mem op md
exec_data (test_bits reset md) at m16 x16 = do
  e ← ea md
  v ← rd e m16
  c ← gets (λ w. w.cpu)
  on_cpu (λ c. record c { fz = flag (bit_and (get_a c) v == 0) })
  wr_rmw e m16 (if reset then u16 (bit_and v (not16 (get_a c))) else bit_or v (get_a c))
exec_data (bit_test md) at m16 x16 = bit md m16
exec_data (load_index r md) at m16 x16 = do v ← operand md x16; on_cpu (set_index r v x16)
exec_data (store_index r md) at m16 x16 = do
  e ← ea md
  c ← gets (λ w. w.cpu)
  wr e x16 (index_reg r c)
exec_data (compare_index r md) at m16 x16 = do
  v ← operand md x16
  c ← gets (λ w. w.cpu)
  on_cpu (compare (index_reg r c) v x16)
exec_data (store_zero md) at m16 x16 = do e ← ea md; wr e m16 0
exec_data (step_index r up) at m16 x16 = on_cpu λ c.
    let v = if up then u16 (index_reg r c + 1) else sub16 (index_reg r c) 1 in
    set_index r (idx v c) x16 c
exec_data (transfer t) at m16 x16 = on_cpu (do_transfer t m16 x16)
exec_data (push_reg r) at m16 x16 = do c ← gets (λ w. w.cpu); do_push r c m16 x16
exec_data (pull_reg r) at m16 x16 = do_pull r m16 x16
exec_data pea at m16 x16 = do v ← fetch16; pushw v
exec_data pei at m16 x16 = do
  d ← fetch8
  c ← gets (λ w. w.cpu)
  v ← rd_bank0_16 (u16 (c.dp + d))
  pushw v
exec_data per at m16 x16 = do off ← fetch16; c ← gets (λ w. w.cpu); pushw (u16 (c.pc + off))
exec_data (set_flag f v) at m16 x16 = on_cpu (do_flag f (flag v))
exec_data rep at m16 x16 = do v ← fetch8; on_cpu (λ c. unpack_p (bit_and (pack_p c) (not8 v)) c)
exec_data sep at m16 x16 = do v ← fetch8; on_cpu (λ c. unpack_p (bit_or (pack_p c) v) c)
exec_data xce at m16 x16 = on_cpu do_xce
exec_data _ at m16 x16 = pure tt

-- The cases of `step` on instructions that jump, and those that end the run.
unfoldable pub exec : Instr → ℕ → ℕ → Bool → Bool → M (Unit {0})
exec (alu_op op md) at opcode m16 x16 = alu op md at m16
exec (branch_on t) at opcode m16 x16 = do c ← gets (λ w. w.cpu); branch at (holds t c)
exec brl at opcode m16 x16 = do
  off ← fetch16
  on_cpu (λ c. record c { pc = u16 (c.pc + off) })
  c ← gets (λ w. w.cpu)
  loop_tick at c.pc
exec jmp at opcode m16 x16 = do t ← fetch16; set_pc t; loop_tick at t
exec jml at opcode m16 x16 = do
  t ← fetch24
  set_pb (u8 (t >>> 16))
  set_pc (u16 t)
  h ← extern_hook t 2
  hook_or_stay h
exec jmp_ind at opcode m16 x16 = do p ← fetch16; t ← rd_bank0_16 p; set_pc t
exec jmp_ind_x at opcode m16 x16 = do
  table_index at
  t ← fetch16
  c ← gets (λ w. w.cpu)
  jump_through (u16 (t + c.x))
exec jml_ind at opcode m16 x16 = do
  p ← fetch16
  t ← rd_bank0_24 p
  set_pb (u8 (t >>> 16))
  set_pc (u16 t)
exec jsr at opcode m16 x16 = do
  t ← fetch16
  c ← gets (λ w. w.cpu)
  pushw (sub16 c.pc 1)
  h ← extern_hook (long_addr c.pb t) 0
  call_or_hook at c.pb t 0 h
exec jsr_ind_x at opcode m16 x16 = do
  t ← fetch16
  c ← gets (λ w. w.cpu)
  pushw (sub16 c.pc 1)
  table_index at
  enter_call at 0
  jump_through (u16 (t + c.x))
exec jsl at opcode m16 x16 = do
  t ← fetch24
  c ← gets (λ w. w.cpu)
  push c.pb
  pushw (sub16 c.pc 1)
  h ← extern_hook t 1
  call_or_hook at (u8 (t >>> 16)) (u16 t) 1 h
exec rts at opcode m16 x16 = do r ← pullw; set_pc (u16 (r + 1)); leave_call (check_rts at)
exec rtl at opcode m16 x16 = do
  r ← pullw
  set_pc (u16 (r + 1))
  bank ← pull
  set_pb bank
  leave_call (check_rtl at)
exec (move by) at opcode m16 x16 = block_move at by
exec brk at opcode m16 x16 = ct_fatal (brk_executed at)
exec cop at opcode m16 x16 = ct_fatal (cop_executed at)
exec stp at opcode m16 x16 = ct_fatal (stp_executed at)
exec wai at opcode m16 x16 = do
  sys ← gets (λ w. w.ctl.sys)
  when (sys == 0) (ct_fatal (wai_executed at))
  on_ctl (λ k. record k { waiting = 1 })
exec rti at opcode m16 x16 = do
  sys ← gets (λ w. w.ctl.sys)
  when (sys == 0) (ct_fatal (not_supported at opcode))
  p ← pull
  on_cpu (unpack_p p)
  t ← pullw
  set_pc t
  e ← gets (λ w. w.cpu.fe)
  when (e == 0) (do bank ← pull; set_pb bank)
exec nop at opcode m16 x16 = pure tt
exec wdm at opcode m16 x16 = do _ ← fetch8; pure tt
exec unsupported at opcode m16 x16 = ct_fatal (not_supported at opcode)
exec i at opcode m16 x16 = exec_data i at m16 x16
