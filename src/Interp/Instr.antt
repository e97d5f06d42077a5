-- ===== src/Interp/Instr.antt =====
-- What the cases of the switch in `step` (runtime/interp.c) do, as data: one constructor for each
-- body that differs in more than its arguments.
use ct_recomp.Base.{ℕ, Bool}
use ct_recomp.Interp.Access.{Mode}
use ct_recomp.Interp.Registers.{Rmw}

-- The operations of the ALU group, `op >> 5`.
pub data Alu : Type 0 where
  ora and eor adc sta lda cmp sbc : Alu

-- The index registers.
pub data Index : Type 0 where
  ix iy : Index

-- The register transfers.
pub data Transfer : Type 0 where
  tax tay txa tya txy tyx tsx txs tcd tdc tcs tsc xba : Transfer

-- What is pushed or pulled by a plain push or pull.
pub data Stacked : Type 0 where
  st_a st_x st_y st_db st_dp st_pb st_p : Stacked

-- The flags that a single instruction sets or clears.
pub data Flag : Type 0 where
  carry interrupt decimal overflow : Flag

-- The conditions of the branches.
pub data Condition : Type 0 where
  plus minus no_overflow has_overflow no_carry has_carry not_equal equal always : Condition

pub data Instr : Type 0 where
  alu_op : Alu → Mode → Instr
  rmw_acc : Rmw → Instr
  rmw_at : Rmw → Mode → Instr
  test_bits : Bool → Mode → Instr
  bit_test : Mode → Instr
  load_index store_index compare_index : Index → Mode → Instr
  store_zero : Mode → Instr
  step_index : Index → Bool → Instr
  transfer : Transfer → Instr
  push_reg pull_reg : Stacked → Instr
  pea pei per : Instr
  set_flag : Flag → Bool → Instr
  rep sep xce : Instr
  branch_on : Condition → Instr
  brl jmp jml jmp_ind jmp_ind_x jml_ind jsr jsr_ind_x jsl rts rtl : Instr
  move : ℕ → Instr
  brk cop stp wai rti nop wdm : Instr
  unsupported : Instr
