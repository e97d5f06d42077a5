-- ===== src/Sound/Exec.antt =====
-- The bodies of `step` that compute and access memory keep the invariant.
pub mod Jumps
use ct_recomp.Base.{
  ℕ, Bool, true, false, not, ◌≡◌, refl, sym, ◌∙◌, ◌+◌, ◌%◌, ◌<◌, ◌≤◌, ◌^◌, arith, u8, u16, sub16,
  flag, ◌==◌, if◌then◌else◌, bit_and, bit_or, bit_xor,
}
use ct_recomp.Base.Bits.{bit_or-lt, bit_and-le, bit_xor-lt}
use ct_recomp.Cpu.{Cpu, IsCpu}
use ct_recomp.Machine.{Machine, M, gets, ◌>>=◌, on_cpu}
use ct_recomp.Interp.Registers.{add, masked, get_a, set_a, idx, compare, pack_p}
use ct_recomp.Interp.Access.{Mode, imm, ea, wr, operand}
use ct_recomp.Interp.Exec.{
  nz_set_a, bit_flags, alu_value, store_a, alu, bit, set_index, index_reg, push_wide, pull_wide,
  do_push, do_pull, exec_data,
}
use ct_recomp.Interp.Instr.{
  Alu, ora, and, eor, adc, sta, lda, cmp, sbc, Index, ix, iy, Transfer, Stacked, st_a, st_x, st_y,
  st_db, st_dp, st_pb, st_p, Flag, carry, interrupt, decimal, overflow,
}
use ct_recomp.Interp.Instr.{
  Condition, plus, minus, no_overflow, has_overflow, no_carry, has_carry, not_equal, equal, always,
}
use ct_recomp.Interp.Instr.{
  Instr, alu_op, rmw_acc, rmw_at, test_bits, bit_test, load_index, store_index, compare_index,
  store_zero,
}
use ct_recomp.Interp.Instr.{
  step_index, transfer, push_reg, pull_reg, pea, pei, per, set_flag, rep, sep, xce, branch_on,
}
use ct_recomp.Interp.Instr.{
  brl, jmp, jml, jmp_ind, jmp_ind_x, jml_ind, jsr, jsr_ind_x, jsl, rts, rtl, move,
}
use ct_recomp.Interp.Instr.{brk, cop, stp, wai, rti, nop, wdm, unsupported}
use ct_recomp.Sound.State.{Sound, Any, Free, IsByte, IsWord, IsLong, IsMachine, IsBus}
use ct_recomp.Sound.Rules.{
  Sound-bind, Sound-then, Sound-pure, Sound-fatal, Sound-gets, Sound-on_cpu, Sound-with_cpu,
  Sound-when, Sound-if, Sound-Free,
}
use ct_recomp.Sound.Registers.{
  HasX, nz-IsCpu, nz-fx, unpack_p-IsCpu, get_a-IsWord, set_a-IsCpu, set_a-fx, masked-IsWord,
  add_binary-ok, compare-IsCpu, compare-fx, rmw-ok, nz_set_a-IsCpu, nz_set_a-fx, set_a_nz-IsCpu,
  set_a_nz-fx, bit_flags-IsCpu, bit_flags-fx, idx-IsWord, idx-IsByte, set_index-IsCpu, set_index-fx,
  do_flag-IsCpu, do_xce-IsCpu, do_transfer-IsCpu, flag-le,
}
use ct_recomp.Sound.Access.{
  get_cpu-Sound, high-IsByte, IsWidth, fetch8-Sound, fetch16-Sound, rd-Sound, wr-Sound,
  wr_rmw-Sound, rd_bank0_16-Sound, push-Sound, pull-Sound, pushw-Sound, pullw-Sound, ea-Sound,
  operand-Sound, rmw_mem-Sound,
}

width-IsWord : (wide : Bool) (v : ℕ) → IsWidth wide v → IsWord v
width-IsWord true v h = h
width-IsWord false v h = omega arith

narrow-IsByte : (wide : Bool) (v : ℕ) → wide ≡ false → IsWidth wide v → IsByte v
narrow-IsByte true v e h = cc
narrow-IsByte false v e h = h

module _ {x : ℕ} where
  add-Sound : (a b : ℕ) (wide : Bool) (at : ℕ) → Sound (HasX x) (HasX x) IsWord (add a b wide at)
  unfolding add
  add-Sound a b wide at = Sound-bind (Sound-gets {P = Any} _ (λ w h k. tt)) (λ d _.
      Sound-if (d == 0)
        (Sound-with_cpu _ (λ c h k. (
          (add_binary-ok a b wide c h).0,
          (add_binary-ok a b wide c h).1,
          (add_binary-ok a b wide c h).2 ∙ k,
        )))
        (Sound-fatal _))

  set_a-Sound :
      {m : M ℕ}
      → Sound (HasX x) (HasX x) IsWord m
      → Sound (HasX x) (HasX x) Any (m >>= λ r. on_cpu (set_a r))
  set_a-Sound s =
      Sound-bind s (λ r p. Sound-on_cpu _ (λ c h k. (set_a-IsCpu r c p h, set_a-fx r c ∙ k)))

  logic-Sound :
      (v : ℕ) (wide : Bool) → IsWord v → Sound (HasX x) (HasX x) Any (on_cpu (nz_set_a v wide))
  logic-Sound v wide p =
      Sound-on_cpu _ (λ c h k. (nz_set_a-IsCpu v wide c p h, nz_set_a-fx v wide c ∙ k))

  compare-Sound : (r v : ℕ) (wide : Bool) → Sound (HasX x) (HasX x) Any (on_cpu (compare r v wide))
  compare-Sound r v wide =
      Sound-on_cpu _ (λ c h k. (compare-IsCpu r v wide c h, compare-fx r v wide c ∙ k))

  alu_value-Sound :
      (op : Alu) (a v : ℕ) (wide : Bool) (at : ℕ)
      → IsWord a
      → IsWord v
      → Sound (HasX x) (HasX x) Any (alu_value op a v wide at)
  unfolding alu_value
  alu_value-Sound ora a v wide at p q = logic-Sound _ wide (bit_or-lt 16 a v p q)
  alu_value-Sound and a v wide at p q = logic-Sound _ wide (omega (arith, bit_and-le a v))
  alu_value-Sound eor a v wide at p q = logic-Sound _ wide (bit_xor-lt 16 a v p q)
  alu_value-Sound adc a v wide at p q = set_a-Sound (add-Sound a v wide at)
  alu_value-Sound sta a v wide at p q = Sound-pure tt tt
  alu_value-Sound lda a v wide at p q = logic-Sound v wide q
  alu_value-Sound cmp a v wide at p q = compare-Sound a v wide
  alu_value-Sound sbc a v wide at p q = set_a-Sound (add-Sound a _ wide at)

  store_at :
      (md : Mode) (wide : Bool) (f : Cpu → ℕ)
      → Sound (HasX x) (HasX x) Any (ea md >>= λ e. gets (λ w. w.cpu) >>= λ c. wr e wide (f c))
  store_at md wide f =
      Sound-bind (ea-Sound md) (λ e _. Sound-bind get_cpu-Sound (λ c _. wr-Sound e wide _))

  store_a-Sound :
      (md : Mode) (at : ℕ) (wide : Bool) → Sound (HasX x) (HasX x) Any (store_a md at wide)
  unfolding store_a
  store_a-Sound imm at wide = Sound-fatal _
  store_a-Sound md at wide = store_at md wide get_a

  with_operand :
      (op : Alu) (md : Mode) (at : ℕ) (wide : Bool)
      → Sound
          (HasX x)
          (HasX x)
          Any
          (operand md wide >>= λ v. gets (λ w. w.cpu) >>= λ c. alu_value op (get_a c) v wide at)
  with_operand op md at wide = Sound-bind (operand-Sound md wide) (λ v p.
      Sound-bind get_cpu-Sound
        (λ c h. alu_value-Sound op _ v wide at (get_a-IsWord c h) (width-IsWord wide v p)))

  pub alu-Sound :
      (op : Alu) (md : Mode) (at : ℕ) (wide : Bool)
      → Sound (HasX x) (HasX x) Any (alu op md at wide)
  unfolding alu
  alu-Sound sta md at wide = store_a-Sound md at wide
  alu-Sound op md at wide = with_operand op md at wide

  bit_test-Sound :
      (md : Mode) (immediate wide : Bool)
      → Sound (HasX x) (HasX x) Any (operand md wide >>= λ v. on_cpu (bit_flags v immediate wide))
  bit_test-Sound md immediate wide = Sound-bind (operand-Sound md wide) (λ v _.
      Sound-on_cpu _
        (λ c h k. (bit_flags-IsCpu v immediate wide c h, bit_flags-fx v immediate wide c ∙ k)))

  bit-Sound : (md : Mode) (wide : Bool) → Sound (HasX x) (HasX x) Any (bit md wide)
  unfolding bit
  bit-Sound imm wide = bit_test-Sound imm true wide
  bit-Sound md wide = bit_test-Sound md false wide

  push_wide-Sound : (wide : Bool) (v : ℕ) → Sound (HasX x) (HasX x) Any (push_wide wide v)
  unfolding push_wide
  push_wide-Sound true v = pushw-Sound v
  push_wide-Sound false v = push-Sound _ (high-IsByte v)

  pull_wide-Sound : (wide : Bool) → Sound (HasX x) (HasX x) (IsWidth wide) (pull_wide wide)
  unfolding pull_wide
  pull_wide-Sound true = pullw-Sound
  pull_wide-Sound false = pull-Sound

  do_push-Sound :
      (r : Stacked) (c : Cpu) (m16 x16 : Bool)
      → IsCpu c
      → Sound (HasX x) (HasX x) Any (do_push r c m16 x16)
  unfolding do_push
  do_push-Sound st_a c m16 x16 h = push_wide-Sound m16 c.a
  do_push-Sound st_x c m16 x16 h = push_wide-Sound x16 c.x
  do_push-Sound st_y c m16 x16 h = push_wide-Sound x16 c.y
  do_push-Sound st_db c m16 x16 h = push-Sound c.db h.db_fits
  do_push-Sound st_dp c m16 x16 h = pushw-Sound c.dp
  do_push-Sound st_pb c m16 x16 h = push-Sound c.pb h.pb_fits
  do_push-Sound st_p c m16 x16 h = push-Sound _ (unfold pack_p in high-IsByte _)

  -- An index register is loaded with a value of the index width.
  load-Sound :
      (r : Index) {m : M ℕ} (wide : Bool)
      → (x ≡ 1 → wide ≡ false)
      → Sound (HasX x) (HasX x) (IsWidth wide) m
      → Sound (HasX x) (HasX x) Any (m >>= λ v. on_cpu (set_index r v wide))
  load-Sound r wide n s = Sound-bind s (λ v p. Sound-on_cpu _ (λ c h k. (
    set_index-IsCpu r v wide c (width-IsWord wide v p) (λ e. narrow-IsByte wide v (n (sym k ∙ e)) p)
        h,
    set_index-fx r v wide c ∙ k,
  )))

  do_pull-Sound :
      (r : Stacked) (m16 x16 : Bool)
      → (x ≡ 1 → x16 ≡ false)
      → Sound (HasX x) Free Any (do_pull r m16 x16)
  unfolding do_pull
  do_pull-Sound st_a m16 x16 n =
      Sound-bind (pull_wide-Sound m16)
        (λ v p. Sound-on_cpu _ (λ c h k. (set_a_nz-IsCpu v m16 c (width-IsWord m16 v p) h, tt)))
  do_pull-Sound st_x m16 x16 n = Sound-Free (load-Sound ix x16 n (pull_wide-Sound x16))
  do_pull-Sound st_y m16 x16 n = Sound-Free (load-Sound iy x16 n (pull_wide-Sound x16))
  do_pull-Sound st_db m16 x16 n =
      Sound-bind pull-Sound
        (λ v p. Sound-on_cpu _ (λ c h k. (nz-IsCpu v false _ (omega arith) (ground arith), tt)))
  do_pull-Sound st_dp m16 x16 n =
      Sound-bind pullw-Sound
        (λ v p. Sound-on_cpu _ (λ c h k. (nz-IsCpu v true _ p (ground arith), tt)))
  do_pull-Sound st_pb m16 x16 n = Sound-Free {P = Any} (Sound-pure tt tt)
  do_pull-Sound st_p m16 x16 n =
      Sound-bind pull-Sound (λ v p. Sound-on_cpu _ (λ c h k. (unpack_p-IsCpu v c h, tt)))

  test_bits-Sound :
      (v : ℕ)
      → Sound
          (HasX x)
          (HasX x)
          Any
          (on_cpu (λ c. record c { fz = flag (bit_and (get_a c) v == 0) }))
  test_bits-Sound v =
      Sound-on_cpu _ (λ c h k. (ground (arith, flag-le (bit_and (get_a c) v == 0)), k))

  pub exec_data-Sound :
      (i : Instr) (at : ℕ) (m16 x16 : Bool)
      → (x ≡ 1 → x16 ≡ false)
      → Sound (HasX x) Free Any (exec_data i at m16 x16)
  unfolding exec_data
  exec_data-Sound (rmw_acc op) at m16 x16 n = Sound-bind get_cpu-Sound (λ c _. Sound-Free (
      set_a-Sound (
        Sound-with_cpu _ (λ c' h k.
          ((rmw-ok op _ m16 c' h).0, (rmw-ok op _ m16 c' h).1, (rmw-ok op _ m16 c' h).2 ∙ k)))))
  exec_data-Sound (rmw_at op md) at m16 x16 n = Sound-Free (rmw_mem-Sound op md)
  exec_data-Sound (test_bits reset md) at m16 x16 n = Sound-bind (ea-Sound md) (λ e _.
      Sound-bind (rd-Sound e m16) (λ v _.
        Sound-bind get_cpu-Sound
          (λ c _. Sound-then (test_bits-Sound v) (Sound-Free (wr_rmw-Sound e m16 _)))))
  exec_data-Sound (bit_test md) at m16 x16 n = Sound-Free (bit-Sound md m16)
  exec_data-Sound (load_index r md) at m16 x16 n =
      Sound-Free (load-Sound r x16 n (operand-Sound md x16))
  exec_data-Sound (store_index r md) at m16 x16 n = Sound-Free (store_at md x16 (index_reg r))
  exec_data-Sound (compare_index r md) at m16 x16 n =
      Sound-bind (operand-Sound md x16)
        (λ v _. Sound-bind get_cpu-Sound (λ c _. Sound-Free (compare-Sound _ v x16)))
  exec_data-Sound (store_zero md) at m16 x16 n =
      Sound-bind (ea-Sound md) (λ e _. Sound-Free (wr-Sound e m16 0))
  exec_data-Sound (step_index r up) at m16 x16 n =
      Sound-on_cpu _ (λ c h k.
        (set_index-IsCpu r _ x16 c (idx-IsWord _ c (stepped up _)) (idx-IsByte _ c) h, tt))
    where
      stepped : (up : Bool) (v : ℕ) → IsWord (if up then u16 (v + 1) else sub16 v 1)
      stepped true v = omega arith
      stepped false v = omega arith
  exec_data-Sound (transfer t) at m16 x16 n =
      Sound-on_cpu _ (λ c h k. (do_transfer-IsCpu t m16 x16 c h, tt))
  exec_data-Sound (push_reg r) at m16 x16 n =
      Sound-bind get_cpu-Sound (λ c h. Sound-Free (do_push-Sound r c m16 x16 h))
  exec_data-Sound (pull_reg r) at m16 x16 n = do_pull-Sound r m16 x16 n
  exec_data-Sound pea at m16 x16 n = Sound-bind fetch16-Sound (λ v _. Sound-Free (pushw-Sound v))
  exec_data-Sound pei at m16 x16 n = Sound-bind fetch8-Sound (λ d _.
      Sound-bind get_cpu-Sound
        (λ c _. Sound-bind (rd_bank0_16-Sound _) (λ v _. Sound-Free (pushw-Sound v))))
  exec_data-Sound per at m16 x16 n =
      Sound-bind fetch16-Sound
        (λ off _. Sound-bind get_cpu-Sound (λ c _. Sound-Free (pushw-Sound _)))
  exec_data-Sound (set_flag f v) at m16 x16 n =
      Sound-on_cpu _ (λ c h k. (do_flag-IsCpu f _ c (flag-le v) h, tt))
  exec_data-Sound rep at m16 x16 n =
      Sound-bind fetch8-Sound (λ v _. Sound-on_cpu _ (λ c h k. (unpack_p-IsCpu _ c h, tt)))
  exec_data-Sound sep at m16 x16 n =
      Sound-bind fetch8-Sound (λ v _. Sound-on_cpu _ (λ c h k. (unpack_p-IsCpu _ c h, tt)))
  exec_data-Sound xce at m16 x16 n = Sound-on_cpu _ (λ c h k. (do_xce-IsCpu c h, tt))
  exec_data-Sound _ at m16 x16 n = Sound-Free {P = Any} (Sound-pure tt tt)
