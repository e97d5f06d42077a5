-- ===== src/Sound/Entry.antt =====
-- The invariant at the entry points of runtime/interp.c, as statements about one state.
use ct_recomp.Base.{ℕ, Bool}
use ct_recomp.Machine.{Machine}
use ct_recomp.Interp.Run.{step, interp_call_capped, interp_step, interp_interrupt, interp_reset}
use ct_recomp.Sound.State.{IsMachine, Holds, Any, Free}
use ct_recomp.Sound.Exec.Jumps.{step-Sound}
use ct_recomp.Sound.Run.{
  interp_step-Sound, interp_call_capped-Sound, interp_interrupt-Sound, interp_reset-Sound,
}

-- From a well-formed state, with linked devices and hooks that keep the widths, one instruction of
-- interp_step either ends in ct_fatal or leaves a well-formed state: every register, flag, memory
-- byte and port register within its width, 8-bit index registers when x = 1, m = x = 1 in
-- emulation mode.
pub interp_step-IsMachine : (w : Machine) → IsMachine w → Holds Free Any (interp_step w)
interp_step-IsMachine w h = interp_step-Sound.run w h tt

-- From a well-formed state, with linked code that keeps the widths, the interpreter's step, for
-- any opcode and at any site, ends in ct_fatal or leaves a well-formed state.
pub step-IsMachine : (at op : ℕ) (w : Machine) → IsMachine w → Holds Free Any (step at op w)
step-IsMachine at op w h = (step-Sound at op).run w h tt

-- From a well-formed state, with linked code that keeps the widths, interp_call, under any
-- dispatch cap and at any entry address, ends in ct_fatal or leaves a well-formed state.
pub interp_call-IsMachine :
    (cap entry : ℕ) (w : Machine) → IsMachine w → Holds Free Any (interp_call_capped cap entry w)
interp_call-IsMachine cap entry w h = (interp_call_capped-Sound cap entry).run w h tt

-- From a well-formed state, with linked code that keeps the widths, the entry of an NMI or an IRQ
-- ends in ct_fatal or leaves a well-formed state.
pub interp_interrupt-IsMachine :
    (nmi : Bool) (w : Machine) → IsMachine w → Holds Free Any (interp_interrupt nmi w)
interp_interrupt-IsMachine nmi w h = (interp_interrupt-Sound nmi).run w h tt

-- From a well-formed state, with linked code that keeps the widths, interp_reset ends in ct_fatal
-- or leaves a well-formed state.
pub interp_reset-IsMachine : (w : Machine) → IsMachine w → Holds Free Any (interp_reset w)
interp_reset-IsMachine w h = interp_reset-Sound.run w h tt

-- From a well-formed state, with linked code that keeps the widths, each of the interpreter's
-- other entry points ends in ct_fatal or leaves a well-formed state: step for any opcode and at
-- any site, interp_call under any dispatch cap and at any entry address, the entry of an NMI or an
-- IRQ, and interp_reset.
pub entries-IsMachine :
    (at op cap entry : ℕ) (nmi : Bool) (w : Machine)
    → IsMachine w
    → Holds Free Any (step at op w)
      × Holds Free Any (interp_call_capped cap entry w)
      × Holds Free Any (interp_interrupt nmi w)
      × Holds Free Any (interp_reset w)
entries-IsMachine at op cap entry nmi w h = (
  step-IsMachine at op w h,
  interp_call-IsMachine cap entry w h,
  interp_interrupt-IsMachine nmi w h,
  interp_reset-IsMachine w h,
)
