-- ===== src/Agree/Stack.antt =====
-- The stack of both implementations.
use ct_recomp.Base.{ℕ, ◌≡◌, ap, ◌/◌, ◌^◌, arith, u8, word}
use mathlib.Core.Path.{fun_ext}
use ct_recomp.Cpu.{Cpu}
use ct_recomp.Machine.{M, ◌>>=◌, ◌>>◌, pure, gets, on_cpu}
use ct_recomp.Memory.{read8, write8}
use ct_recomp.Ops.Memory.{s_down, s_up, push8, pull8, push16, pull16}
use ct_recomp.Interp.Registers.{push_s, pull_s}
use ct_recomp.Interp.Access.{push, pull, pushw, pullw}

s_down-eq-push_s : (c : Cpu) → s_down c ≡ push_s c
unfolding s_down push_s
s_down-eq-push_s c = ground arith

s_up-eq-pull_s : (c : Cpu) → s_up c ≡ pull_s c
unfolding s_up pull_s
s_up-eq-pull_s c = ground arith

push8-eq-push : (v : ℕ) → push8 v ≡ push v
unfolding push8 push
push8-eq-push v =
    ap (λ (f : Cpu → Cpu). gets (λ w. w.cpu.s) >>= (λ s. write8 s v >> on_cpu f))
      (fun_ext s_down-eq-push_s)

pull8-eq-pull : pull8 ≡ pull
unfolding pull8 pull
pull8-eq-pull =
    ap (λ (f : Cpu → Cpu). on_cpu f >> (gets (λ w. w.cpu.s) >>= (λ s. read8 s)))
      (fun_ext s_up-eq-pull_s)

push16-eq-pushw : (v : ℕ) → push16 v ≡ pushw v
unfolding push16 pushw
push16-eq-pushw v =
    ap (λ (f : ℕ → M (Unit {0})). f (u8 (v / 2 ^ 8)) >> f (u8 v)) (fun_ext push8-eq-push)

pull16-eq-pullw : pull16 ≡ pullw
unfolding pull16 pullw
pull16-eq-pullw = ap (λ (m : M ℕ). m >>= (λ lo. m >>= (λ hi. pure (word lo hi)))) pull8-eq-pull

-- The pushes and pulls of ops.h, of bytes and of words, are the same functions of the whole state
-- as those of interp.c, in native and in emulation mode.
pub stack_agrees :
    ((v : ℕ) → push8 v ≡ push v)
    × ((v : ℕ) → push16 v ≡ pushw v)
    × (pull8 ≡ pull)
    × (pull16 ≡ pullw)
stack_agrees = (push8-eq-push, push16-eq-pushw, pull8-eq-pull, pull16-eq-pullw)
