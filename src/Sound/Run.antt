-- ===== src/Sound/Run.antt =====
-- The entry points of runtime/interp.c keep the invariant.
use ct_recomp.Base.{ℕ, zero, suc, Bool, true, false, arith}
use ct_recomp.Cpu.{Cpu, IsCpu}
use ct_recomp.Machine.{M, gets}
use ct_recomp.Cycles.Model.{cyc_begin, cyc_begin_interrupt, cyc_finish, model_clocks}
use ct_recomp.Interp.Registers.{pack_p}
use ct_recomp.Interp.Access.{fetch8}
use ct_recomp.Interp.Run.{
  call_loop, interp_call_capped, interp_step, interp_interrupt, interp_reset, reset_registers,
  is_last_return,
}
use ct_recomp.Sound.State.{Sound, Any, Free, IsByte, IsMachine}
use ct_recomp.Sound.Rules.{
  Sound-bind, Sound-then, Sound-pure, Sound-fatal, Sound-gets, Sound-on_bus, Sound-on_cpu,
  Sound-on_cyc, Sound-on_ctl, Sound-when, Sound-if, Sound-forget,
}
use ct_recomp.Sound.Bus.{word-IsWord}
use ct_recomp.Sound.Memory.{read8-Sound}
use ct_recomp.Sound.Access.{high-IsByte, fetch8-Sound, push-Sound, pushw-Sound}
use ct_recomp.Sound.Exec.Jumps.{Sound-each, step-Sound}

pub Free-cpu : Sound Free Free IsCpu (gets (λ w. w.cpu))
Free-cpu = Sound-gets _ (λ w h k. h.cpu_ok)

Free-fetch : Sound Free Free IsByte fetch8
Free-fetch = Sound-each (λ x. Sound-forget fetch8-Sound)

pack_p-IsByte : (c : Cpu) → IsByte (pack_p c)
unfolding pack_p
pack_p-IsByte c = high-IsByte _

pub cyc_begin-Sound : {K : Cpu → Type 0} (at op : ℕ) → Sound K K Any (cyc_begin at op)
unfolding cyc_begin
cyc_begin-Sound at op =
    Sound-bind (Sound-gets {P = Any} _ (λ w h k. tt))
      (λ w _. Sound-then (Sound-on_cyc _) (Sound-on_bus _ (λ b h. ground arith)))

cyc_begin_interrupt-Sound : {K : Cpu → Type 0} → Sound K K Any cyc_begin_interrupt
unfolding cyc_begin_interrupt
cyc_begin_interrupt-Sound =
    Sound-bind (Sound-gets {P = Any} _ (λ w h k. tt))
      (λ c _. Sound-then (cyc_begin-Sound _ 0) (Sound-on_cyc _))

model_clocks-Sound : {K : Cpu → Type 0} → Sound K K Any model_clocks
unfolding model_clocks
model_clocks-Sound =
    Sound-bind (Sound-gets {P = Any} _ (λ w h k. tt))
      (λ w _. Sound-if _ (Sound-fatal _) (Sound-pure _ tt))

pub cyc_finish-Sound : {K : Cpu → Type 0} → Sound K K Any cyc_finish
unfolding cyc_finish
cyc_finish-Sound =
    Sound-bind (Sound-gets {P = Any} _ (λ w h k. tt))
      (λ p _. Sound-if _ (Sound-pure _ tt) (Sound-then (Sound-on_cyc _) model_clocks-Sound))

-- One instruction in system mode.
pub interp_step-Sound : Sound Free Free Any interp_step
unfolding interp_step
interp_step-Sound = Sound-then (Sound-on_ctl _) (
    Sound-bind (Sound-gets {P = Any} _ (λ w h k. tt)) (λ waiting _.
      Sound-then (Sound-when _ (Sound-fatal _)) (
        Sound-bind Free-cpu (λ c _. Sound-bind Free-fetch (λ op _. Sound-then (Sound-on_ctl _) (
          Sound-then (Sound-when _ (Sound-fatal _)) (
            Sound-then (cyc_begin-Sound _ op) (Sound-then (step-Sound _ op) cyc_finish-Sound))))))))

-- The two ends of a round.
Sound-choose :
    (t : Bool) {m n : M (Unit {0})}
    → Sound Free Free Any m
    → Sound Free Free Any n
    → Sound Free Free Any (elim t [ true ↦ m | false ↦ n ])
Sound-choose true s r = s
Sound-choose false s r = r

call_loop-Sound : (cap s0 : ℕ) → Sound Free Free Any (call_loop cap s0)
unfolding call_loop
call_loop-Sound zero s0 = Sound-bind Free-cpu (λ c _. Sound-fatal _)
call_loop-Sound (suc cap) s0 =
    let rest = call_loop-Sound cap s0 in
    Sound-bind Free-cpu (λ c _. Sound-then (Sound-when _ (Sound-fatal _)) (
      Sound-bind Free-fetch (λ op _. Sound-then (step-Sound _ op) (
        Sound-bind Free-cpu
          (λ c' _. Sound-choose (is_last_return op s0 c') (Sound-pure tt tt) rest)))))

pub interp_call_capped-Sound : (cap entry : ℕ) → Sound Free Free Any (interp_call_capped cap entry)
unfolding interp_call_capped
interp_call_capped-Sound cap entry = Sound-then (Sound-on_ctl _) (
    Sound-bind Free-cpu (λ c _. Sound-then (Sound-when _ (Sound-fatal _)) (
      Sound-then (Sound-on_ctl _)
        (Sound-then (Sound-on_cpu _ (λ c h k. (ground arith, tt))) (call_loop-Sound cap c.s)))))

pub interp_interrupt-Sound : (nmi : Bool) → Sound Free Free Any (interp_interrupt nmi)
unfolding interp_interrupt
interp_interrupt-Sound nmi = Sound-each (λ x.
    Sound-bind (Sound-gets {P = IsMachine} _ (λ w h k. h)) (λ w h.
      Sound-then (Sound-when _ (Sound-fatal _)) (
        Sound-then cyc_begin_interrupt-Sound (
          Sound-bind (Sound-gets {P = Any} _ (λ w h k. tt)) (λ clocks0 _.
            Sound-then (push-Sound _ h.cpu_ok.pb_fits) (
              Sound-then (pushw-Sound _) (
                Sound-then (push-Sound _ (pack_p-IsByte w.cpu)) (
                  Sound-then {J = Free} (Sound-on_cpu _ (λ c h k. (ground arith, tt))) (
                    Sound-bind (read8-Sound _) (λ lo p. Sound-bind (read8-Sound _) (λ hi q.
                      Sound-then {J = Free}
                        (Sound-on_cpu _ (λ c h k. (ground (arith, word-IsWord lo hi p q), tt)))
                        (Sound-then (Sound-on_ctl _) (
                          Sound-bind (Sound-gets {P = Any} _ (λ w h k. tt))
                            (λ clocks _. Sound-pure _ tt))))))))))))))

reset_registers-IsCpu : (c : Cpu) → IsCpu (reset_registers c)
unfolding reset_registers
reset_registers-IsCpu c = ground arith

-- The reset makes the registers well-formed whatever they were.
pub interp_reset-Sound : Sound Free Free Any interp_reset
unfolding interp_reset
interp_reset-Sound =
    Sound-then {J = Free} (Sound-on_cpu _ (λ c h k. (reset_registers-IsCpu c, tt))) (
      Sound-bind (read8-Sound _) (λ lo p. Sound-bind (read8-Sound _) (λ hi q.
        Sound-then {J = Free}
          (Sound-on_cpu _ (λ c h k. (ground (arith, word-IsWord lo hi p q), tt)))
          (Sound-on_ctl _))))
