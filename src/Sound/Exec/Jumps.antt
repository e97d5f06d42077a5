-- ===== src/Sound/Exec/Jumps.antt =====
-- The bodies of `step` that jump, call and return keep the invariant, and so does `step`.
use ct_recomp.Base.{ℕ, Bool, false, Option, some, none, ◌≡◌, refl, arith}
use ct_recomp.Cpu.{Cpu}
use ct_recomp.Machine.{Extern, M}
use ct_recomp.Interp.Calls.{}
use ct_recomp.Interp.Decode.{decode}
use ct_recomp.Interp.Exec.{set_pc, set_pb, jump_through, call_or_hook, hook_or_stay, exec}
use ct_recomp.Interp.Run.{step}
use ct_recomp.Interp.Instr.{}
use ct_recomp.Interp.Instr.{}
use ct_recomp.Interp.Instr.{Instr, alu_op}
use ct_recomp.Interp.Instr.{branch_on}
use ct_recomp.Interp.Instr.{
  brl, jmp, jml, jmp_ind, jmp_ind_x, jml_ind, jsr, jsr_ind_x, jsl, rts, rtl, move,
}
use ct_recomp.Interp.Instr.{brk, cop, stp, wai, rti, nop, wdm, unsupported}
use ct_recomp.Sound.State.{Sound, Any, Free, IsByte, IsWord}
use ct_recomp.Sound.Rules.{
  Sound-bind, Sound-then, Sound-pure, Sound-fatal, Sound-gets, Sound-on_cpu, Sound-on_ctl,
  Sound-when, Sound-Free,
}
use ct_recomp.Sound.Bus.{word-IsWord}
use ct_recomp.Sound.Memory.{read8-Sound}
use ct_recomp.Sound.Registers.{HasX, unpack_p-IsCpu}
use ct_recomp.Sound.Access.{
  get_cpu-Sound, fetch8-Sound, fetch16-Sound, fetch24-Sound, rd_bank0_16-Sound, rd_bank0_24-Sound,
  push-Sound, pull-Sound, pushw-Sound, pullw-Sound, loop_tick-Sound, branch-Sound,
}
use ct_recomp.Sound.Exec.{alu-Sound, exec_data-Sound}
use ct_recomp.Sound.Calls.{
  HookKeeps, run_hook-Sound, extern_hook-Sound, table_index-Sound, enter_call-Sound,
  check_rts-Sound, check_rtl-Sound, leave_call-Sound, block_move-Sound,
}

-- What keeps the invariant for every value of the x flag keeps it.
pub Sound-each :
    {A : Type 0} {K : Cpu → Type 0} {P : A → Type 0} {m : M A}
    → ((x : ℕ) → Sound (HasX x) K P m)
    → Sound Free K P m
Sound-each s = record { run = λ w h k. (s w.cpu.fx).run w h refl }

module _ {x : ℕ} where
  set_pc-Sound : (t : ℕ) → IsWord t → Sound (HasX x) (HasX x) Any (set_pc t)
  set_pc-Sound t p = Sound-on_cpu _ (λ c h k. (ground arith, k))

  set_pb-Sound : (t : ℕ) → IsByte t → Sound (HasX x) (HasX x) Any (set_pb t)
  set_pb-Sound t p = Sound-on_cpu _ (λ c h k. (ground arith, k))

  jump_through-Sound : (p : ℕ) → Sound (HasX x) (HasX x) Any (jump_through p)
  unfolding jump_through
  jump_through-Sound p = Sound-bind get_cpu-Sound (λ c _.
      Sound-bind (read8-Sound _)
        (λ lo q. Sound-bind (read8-Sound _) (λ hi r. set_pc-Sound _ (word-IsWord lo hi q r))))

  call_or_hook-Sound :
      (at bank target is_long : ℕ) (e : Option Extern)
      → IsByte bank
      → IsWord target
      → HookKeeps e
      → Sound (HasX x) Free Any (call_or_hook at bank target is_long e)
  unfolding call_or_hook
  call_or_hook-Sound at bank target is_long (some e) p q k =
      Sound-then (set_pb-Sound bank p) (run_hook-Sound e k)
  call_or_hook-Sound at bank target is_long none p q k =
      Sound-then (enter_call-Sound at is_long)
        (Sound-then (set_pb-Sound bank p) (Sound-Free (set_pc-Sound target q)))

  hook_or_stay-Sound : (e : Option Extern) → HookKeeps e → Sound (HasX x) Free Any (hook_or_stay e)
  unfolding hook_or_stay
  hook_or_stay-Sound (some e) k = run_hook-Sound e k
  hook_or_stay-Sound none k = Sound-Free {P = Any} (Sound-pure tt tt)

module _ {x : ℕ} where
  pub exec-Sound :
      (i : Instr) (at op : ℕ) (m16 x16 : Bool)
      → (x ≡ 1 → x16 ≡ false)
      → Sound (HasX x) Free Any (exec i at op m16 x16)
  unfolding exec
  exec-Sound (alu_op o md) at op m16 x16 n = Sound-Free (alu-Sound o md at m16)
  exec-Sound (branch_on t) at op m16 x16 n =
      Sound-bind get_cpu-Sound (λ c _. Sound-Free (branch-Sound at _))
  exec-Sound brl at op m16 x16 n = Sound-bind fetch16-Sound (λ off _.
      Sound-then {J = HasX x} (Sound-on_cpu _ (λ c h k. (ground arith, k)))
        (Sound-bind get_cpu-Sound (λ c _. Sound-Free (loop_tick-Sound at c.pc))))
  exec-Sound jmp at op m16 x16 n =
      Sound-bind fetch16-Sound
        (λ t p. Sound-then (set_pc-Sound t p) (Sound-Free (loop_tick-Sound at t)))
  exec-Sound jml at op m16 x16 n = Sound-bind fetch24-Sound (λ t p.
      Sound-then (set_pb-Sound _ (omega arith)) (
        Sound-then (set_pc-Sound _ (omega arith))
          (Sound-bind (extern_hook-Sound t 2) (λ e k. hook_or_stay-Sound e k))))
  exec-Sound jmp_ind at op m16 x16 n =
      Sound-bind fetch16-Sound
        (λ p _. Sound-bind (rd_bank0_16-Sound p) (λ t q. Sound-Free (set_pc-Sound t q)))
  exec-Sound jmp_ind_x at op m16 x16 n = Sound-then (table_index-Sound at) (
      Sound-bind fetch16-Sound
        (λ t _. Sound-bind get_cpu-Sound (λ c _. Sound-Free (jump_through-Sound _))))
  exec-Sound jml_ind at op m16 x16 n = Sound-bind fetch16-Sound (λ p _.
      Sound-bind (rd_bank0_24-Sound p) (λ t _.
        Sound-then (set_pb-Sound _ (omega arith)) (Sound-Free (set_pc-Sound _ (omega arith)))))
  exec-Sound jsr at op m16 x16 n = Sound-bind fetch16-Sound (λ t p. Sound-bind get_cpu-Sound (λ c h.
      Sound-then (pushw-Sound _) (
        Sound-bind (extern_hook-Sound _ 0)
          (λ e k. call_or_hook-Sound at c.pb t 0 e h.pb_fits p k))))
  exec-Sound jsr_ind_x at op m16 x16 n = Sound-bind fetch16-Sound (λ t _.
      Sound-bind get_cpu-Sound (λ c _. Sound-then (pushw-Sound _) (
        Sound-then (table_index-Sound at)
          (Sound-then (enter_call-Sound at 0) (Sound-Free (jump_through-Sound _))))))
  exec-Sound jsl at op m16 x16 n = Sound-bind fetch24-Sound (λ t _. Sound-bind get_cpu-Sound (λ c h.
      Sound-then (push-Sound c.pb h.pb_fits) (
        Sound-then (pushw-Sound _) (
          Sound-bind (extern_hook-Sound t 1)
            (λ e k. call_or_hook-Sound at _ _ 1 e (omega arith) (omega arith) k)))))
  exec-Sound rts at op m16 x16 n = Sound-bind pullw-Sound (λ r _.
      Sound-then (set_pc-Sound _ (omega arith))
        (Sound-Free (leave_call-Sound _ (check_rts-Sound at))))
  exec-Sound rtl at op m16 x16 n = Sound-bind pullw-Sound (λ r _.
      Sound-then (set_pc-Sound _ (omega arith)) (
        Sound-bind pull-Sound (λ b q.
          Sound-then (set_pb-Sound b q) (Sound-Free (leave_call-Sound _ (check_rtl-Sound at))))))
  exec-Sound (move by) at op m16 x16 n = Sound-Free (block_move-Sound at by)
  exec-Sound brk at op m16 x16 n = Sound-fatal _
  exec-Sound cop at op m16 x16 n = Sound-fatal _
  exec-Sound stp at op m16 x16 n = Sound-fatal _
  exec-Sound wai at op m16 x16 n =
      Sound-bind (Sound-gets {P = Any} _ (λ w h k. tt))
        (λ sys _. Sound-then (Sound-when _ (Sound-fatal _)) (Sound-Free (Sound-on_ctl _)))
  exec-Sound rti at op m16 x16 n = Sound-bind (Sound-gets {P = Any} _ (λ w h k. tt)) (λ sys _.
      Sound-then (Sound-when _ (Sound-fatal _)) (
        Sound-bind pull-Sound (λ p _.
          Sound-then {J = Free} (Sound-on_cpu _ (λ c h k. (unpack_p-IsCpu p c h, tt))) (
            Sound-each (λ y. Sound-bind pullw-Sound (λ t q. Sound-then (set_pc-Sound t q) (
              Sound-bind (Sound-gets {P = Any} _ (λ w h k. tt)) (λ e _.
                Sound-Free (Sound-when _ (Sound-bind pull-Sound (λ b r. set_pb-Sound b r)))))))))))
  exec-Sound nop at op m16 x16 n = Sound-Free {P = Any} (Sound-pure tt tt)
  exec-Sound wdm at op m16 x16 n =
      Sound-bind fetch8-Sound (λ _ _. Sound-Free {P = Any} (Sound-pure tt tt))
  exec-Sound unsupported at op m16 x16 n = Sound-fatal _
  exec-Sound i at op m16 x16 n = exec_data-Sound i at m16 x16 n

-- `step` executes any opcode, at any address, without leaving the invariant.
pub step-Sound : (at op : ℕ) → Sound Free Free Any (step at op)
unfolding step
step-Sound at op = Sound-each (λ x.
    Sound-bind (Sound-gets {P = λ c. c.fx ≡ x} _ (λ w h k. k))
      (λ c e. exec-Sound (decode op) at op _ _ (λ one. ground arith)))
