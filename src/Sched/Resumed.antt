-- ===== src/Sched/Resumed.antt =====
-- `tick` of runtime/sched.c lets native code go on only where it was interrupted.
use ct_recomp.Base.{ℕ, zero, suc, Option, none, some, ◌≡◌, refl, sym, ◌==◌, ◌||◌, not, if_both}
use mathlib.Core.Path.{subst}
use ct_recomp.Base.Options.{◌>>=◌}
use ct_recomp.Cpu.{Cpu}
use ct_recomp.Machine.{on_cpu}
use ct_recomp.Cycles.Model.{cyc_begin_compiled, cyc_finish, cyc_done}
use ct_recomp.Sound.State.{IsMachine}
use ct_recomp.Sound.Rules.{Sound-then, Sound-on_cyc}
use ct_recomp.Sound.Run.{cyc_begin-Sound, cyc_finish-Sound}
use ct_recomp.Sched.Charge.{Charged, charged, charge_failed}
use ct_recomp.Sched.World.{
  World, Env, run, charge_world, charge_finished, after_charge, on_overlays, wram_of,
}
use ct_recomp.Sched.Dispatch.{enter_interrupt, exec_until, pending_of}
use ct_recomp.Sched.Tick.{
  same_place, deeper, handle_interrupt, interrupts, overlay_bail, counted, begin_native, no_hit,
  checked, after_hit, at_boundary, tick,
}
use ct_recomp.Sched.Kept.{IsEnv, Keeps, enter_interrupt-Keeps, exec_until-Keeps, on_overlays-Keeps}
use ct_recomp.Overlay.{Act, Overlays}
use ct_recomp.Overlay.Active.{overlay_stale_active}
use ct_recomp.Sched.Stays.{
  Here, same_place-Here, Stays, All, LeavesCpu, run-Stays, kept-All, from_there, Resumes, begun,
  bails, either-Resumes, then-Resumes, with-Resumes, no_hit-Stays, counted-Stays, boundary-Stays,
  then-All, with-All, guard-All, both-All,
}

module _ (v : Env) (e : IsEnv v) (l : LeavesCpu v) (at : Cpu) where
  host-Stays : (w : World) → Stays at w → All (Stays at) (v.host w)
  host-Stays w h = from (v.host w) (e.host w h.well) (l.leaves w)
    where
      from :
          (o : Option World)
          → Keeps o
          → ((u : World) → o ≡ some u → u.machine.cpu ≡ w.machine.cpu)
          → All (Stays at) o
      from none k f = tt
      from (some u) k f = record { well = k; here = subst (Here at) (sym (f u refl)) h.here }

  after_charge-Stays :
      (clocks : ℕ) (w : World) (r : Charged)
      → Stays at w
      → All (Stays at) (after_charge v clocks w r)
  unfolding after_charge
  after_charge-Stays clocks w charge_failed h = tt
  after_charge-Stays clocks w (charged x) h =
      if_both (All (Stays at)) (clocks == 0) (some (record w { exec = x })) _
        (λ c. record { well = h.well; here = h.here })
        (λ c.
          with-All (Stays at) (Stays at) (run cyc_done (record w { exec = x })) (λ r. v.host r.1)
            (run-Stays at cyc_done (record w { exec = x }) (unfold cyc_done in Sound-on_cyc _)
              (record { well = h.well; here = h.here }))
            (λ a u k. host-Stays u k))

  charge_finished-Stays : (w : World) → Stays at w → All (Stays at) (charge_finished v w)
  unfolding charge_finished charge_world
  charge_finished-Stays w h =
      with-All (Stays at) (Stays at) (run cyc_finish w) _
        (run-Stays at cyc_finish w cyc_finish-Sound h) (λ a u k. after_charge-Stays a u _ k)

  -- An interrupt's handler runs anything, and is held to the place by the check.
  handle_interrupt-Stays :
      (rounds : ℕ) (w : World) → Stays at w → All (Stays at) (handle_interrupt v rounds w)
  unfolding handle_interrupt
  handle_interrupt-Stays rounds w h =
      then-All (Stays at) (λ u. IsMachine u.machine) (enter_interrupt v (pending_of w).need_nmi w) _
        (kept-All (enter_interrupt v (pending_of w).need_nmi w)
          (enter_interrupt-Keeps v e (pending_of w).need_nmi w h.well))
        (λ w1 k1.
          then-All (Stays at) (λ u. IsMachine u.machine)
            (exec_until v (λ x. not (deeper w x)) rounds w1) _
            (kept-All (exec_until v (λ x. not (deeper w x)) rounds w1)
              (exec_until-Keeps v e (λ x. not (deeper w x)) rounds w1 k1))
            (λ w2 k2.
              guard-All (Stays at) (same_place w2.machine.cpu w.machine.cpu) (charge_finished v w2)
                (λ p. charge_finished-Stays w2 (record {
                  well = k2;
                  here = from_there h.here (same_place-Here w2.machine.cpu w.machine.cpu p);
                }))))

  interrupts-Stays :
      (n rounds : ℕ) (w : World) → Stays at w → All (Stays at) (interrupts v n rounds w)
  unfolding interrupts
  interrupts-Stays zero rounds w h = tt
  interrupts-Stays (suc n) rounds w h =
      both-All (Stays at) ((pending_of w).need_nmi || w.exec.take_irq)
        (handle_interrupt v rounds w >>= interrupts v n rounds) (some w)
        (then-All (Stays at) (Stays at) (handle_interrupt v rounds w) (interrupts v n rounds)
          (handle_interrupt-Stays rounds w h) (λ u k. interrupts-Stays n rounds u k))
        h

  on_overlays-Stays :
      {A : Type 0} (f : Overlays → A × Overlays) (w : World)
      → Stays at w
      → Stays at (on_overlays f w).1
  unfolding on_overlays
  on_overlays-Stays f w h = record { well = on_overlays-Keeps f w h.well; here = h.here }

  begin_native-Resumes : (pc op : ℕ) (w : World) → Stays at w → Resumes at (begin_native pc op w)
  unfolding begin_native cyc_begin_compiled
  begin_native-Resumes pc op w h = begun at (run (cyc_begin_compiled pc op) w) (
      run-Stays at (cyc_begin_compiled pc op) w
        (Sound-then (cyc_begin-Sound pc op) (Sound-on_cyc _)) h)

  overlay_bail-Resumes : (rounds : ℕ) (a : Act) (w : World) → Resumes at (overlay_bail v rounds a w)
  unfolding overlay_bail
  overlay_bail-Resumes rounds a w = bails at (not v.strict) _ _

  after_hit-Resumes :
      (rounds pc op : ℕ) (r : Option Act × World)
      → Stays at r.1
      → Resumes at (after_hit v rounds pc op r)
  unfolding after_hit
  after_hit-Resumes rounds pc op (some a, w) h = overlay_bail-Resumes rounds a w
  after_hit-Resumes rounds pc op (none, w) h = begin_native-Resumes pc op w h

  checked-Resumes :
      (rounds pc op : ℕ) (w : World) → Stays at w → Resumes at (checked v rounds pc op w)
  unfolding checked
  checked-Resumes rounds pc op w h =
      either-Resumes at (w.machine.bus.wram_hit == 0) _ _ (begin_native-Resumes pc op w h) (
        after_hit-Resumes rounds pc op _
          (on_overlays-Stays (overlay_stale_active (wram_of w)) (no_hit w) (no_hit-Stays w h)))

-- If the devices, the host and the recompiled functions keep the machine well-formed, and the
-- calls of the devices and the host leave the registers, then a tick that goes on with the
-- instruction at `at` does so with PB:PC at it and with S, M, X and E as before the tick, on a
-- well-formed machine, whatever interrupts were taken and whatever their handlers ran; it may
-- instead hand over to the outer dispatch, end in ct_fatal, or be cut by the bounds of its loops.
pub tick-Resumes :
    (v : Env) (rounds at op : ℕ) (w : World)
    → IsEnv v
    → LeavesCpu v
    → IsMachine w.machine
    → Resumes (at_boundary at w.machine.cpu) (tick v rounds at op w)
unfolding tick
tick-Resumes v rounds at op w e l h =
    let here : Cpu = at_boundary at w.machine.cpu in
    with-Resumes (run (on_cpu (at_boundary at)) w) _ (boundary-Stays at w h) (λ a w1 k1.
      then-Resumes (charge_finished v w1) _ (charge_finished-Stays v e l here w1 k1) (λ w2 k2.
        then-Resumes (interrupts v rounds rounds w2) _
          (interrupts-Stays v e l here rounds rounds w2 k2)
          (λ w3 k3.
            checked-Resumes v e l here rounds at op (counted at op w3)
              (counted-Stays at op w3 k3))))
