-- ===== src/Sched/Kept.antt =====
-- The dispatch of runtime/sched.c keeps the machine well-formed.
use ct_recomp.Base.{
  ℕ, zero, suc, Bool, true, false, Option, none, some, if_both, ◌==◌, not, ◌&&◌, ◌||◌,
}
use ct_recomp.Base.Options.{◌>>=◌, guard}
use ct_recomp.Base.{length, long_addr}
use ct_recomp.Overlay.Active.{overlay_leave}
use ct_recomp.Machine.{on_cyc, on_ctl, M, Machine, Result, done, fatal}
use ct_recomp.Sound.State.{IsMachine, Holds, Any, Free}
use ct_recomp.Sound.Entry.{interp_step-IsMachine, interp_interrupt-IsMachine}
use ct_recomp.Sound.Run.{cyc_finish-Sound}
use ct_recomp.Cycles.Model.{cyc_done, cyc_finish}
use ct_recomp.Interp.Run.{interp_interrupt, interp_step, interp_wake}
use ct_recomp.Sched.Charge.{Charged, charged, charge_failed}
use ct_recomp.Sched.Native.{Func}
use ct_recomp.Overlay.{OverlayFunc, Overlays}
use ct_recomp.Sched.World.{
  Tail, no_tail, rest_runner, tail_to, after_charge, after_wait, World, Env, Step, run,
  charge_world, charge_finished, wai_world, on_overlays,
}
use ct_recomp.Sched.Dispatch.{
  enter_interrupt, exec_wait, run_tails, after_native, run_overlay, exec_interp, exec_insn,
  exec_one, exec_until, accepted, wake, take_over, follow, hand_over, entered_overlay, exec_overlay,
  find_overlay, exec_native, exec_uninterrupted, profiled, stepped, is_waiting, pending_of,
}

-- A result whose machine, if there is one, is well-formed.
abbrev pub Keeps : Option World → Type 0
Keeps none = Unit
Keeps (some w) = IsMachine w.machine

abbrev KeepsWith : {A : Type 0} → Option (A × World) → Type 0
KeepsWith none = Unit
KeepsWith (some (a, w)) = IsMachine w.machine

-- What is asked of the devices and of recompiled code: that they keep the machine well-formed.
pub record IsEnv (v : Env) : Type 0 where
  pub host : (w : World) → IsMachine w.machine → Keeps (v.host w)
  pub func : (f : Func) (w : World) → IsMachine w.machine → Keeps (v.run_func f w)
  pub overlay : (f : OverlayFunc) (w : World) → IsMachine w.machine → Keeps (v.run_overlay_func f w)
  pub tail : (k : ℕ) (w : World) → IsMachine w.machine → Keeps (v.run_tail k w)

pub cyc_done-IsMachine : (w : Machine) → IsMachine w → Holds Free Any (cyc_done w)
unfolding cyc_done on_cyc
cyc_done-IsMachine w h =
    (tt, record { cpu_ok = h.cpu_ok; bus_ok = h.bus_ok; link_ok = h.link_ok }, tt)

interp_wake-IsMachine : (w : Machine) → IsMachine w → Holds Free Any (interp_wake w)
unfolding interp_wake on_ctl
interp_wake-IsMachine w h =
    (tt, record { cpu_ok = h.cpu_ok; bus_ok = h.bus_ok; link_ok = h.link_ok }, tt)

then-Keeps :
    (o : Option World) (f : World → Option World)
    → Keeps o
    → ((w : World) → IsMachine w.machine → Keeps (f w))
    → Keeps (o >>= f)
then-Keeps none f h g = tt
then-Keeps (some w) f h g = g w h

with-Keeps :
    {A : Type 0} (o : Option (A × World)) (f : A × World → Option World)
    → KeepsWith o
    → ((a : A) (w : World) → IsMachine w.machine → Keeps (f (a, w)))
    → Keeps (o >>= f)
with-Keeps none f h g = tt
with-Keeps (some (a, w)) f h g = g a w h

guarded : (b : Bool) (o : Option World) → Keeps o → Keeps (guard b >>= λ u. o)
guarded true o h = h
guarded false o h = tt

decided :
    (b : Bool) (w : World) (o : Option World)
    → IsMachine w.machine
    → Keeps o
    → Keeps (elim b [ true ↦ some w | false ↦ o ])
decided true w o h k = h
decided false w o h k = k

-- A function of the machine that keeps it well-formed.
ran :
    {A : Type 0} (r : Result A) (w : World)
    → Holds Free Any r
    → KeepsWith (elim r [ done a k ↦ some (a, record w { machine = k }) | fatal e ↦ none ])
ran (done a k) w h = h.1
ran (fatal e) w h = tt

run-Keeps : {A : Type 0} (m : M A) (w : World) → Holds Free Any (m w.machine) → KeepsWith (run m w)
unfolding run
run-Keeps m w h = ran (m w.machine) w h

pub on_overlays-Keeps :
    {A : Type 0} (f : Overlays → A × Overlays) (w : World)
    → IsMachine w.machine
    → IsMachine (on_overlays f w).1.machine
unfolding on_overlays
on_overlays-Keeps f w h = record {
  cpu_ok = h.cpu_ok;
  bus_ok = record {
    rom_fits = h.bus_ok.rom_fits;
    wram_fits = h.bus_ok.wram_fits;
    sram_fits = h.bus_ok.sram_fits;
    alu_fits = h.bus_ok.alu_fits;
    port_fits = h.bus_ok.port_fits;
    mdr_fits = h.bus_ok.mdr_fits;
    memsel_fits = h.bus_ok.memsel_fits;
  };
  link_ok = h.link_ok;
}

hand_over-Keeps : (t : Tail) (w : World) → IsMachine w.machine → IsMachine (hand_over t w).machine
unfolding hand_over
hand_over-Keeps no_tail w h = h
hand_over-Keeps (tail_to k) w h = h
hand_over-Keeps rest_runner w h = h

module _ (v : Env) (e : IsEnv v) where
  after_charge-Keeps :
      (clocks : ℕ) (w : World) (r : Charged)
      → IsMachine w.machine
      → Keeps (after_charge v clocks w r)
  unfolding after_charge
  after_charge-Keeps clocks w charge_failed h = tt
  after_charge-Keeps clocks w (charged x) h =
      if_both Keeps (clocks == 0) (some (record w { exec = x }))
        (run cyc_done (record w { exec = x }) >>= λ r. v.host r.1) (λ c. h)
        (λ c.
          with-Keeps (run cyc_done (record w { exec = x })) (λ r. v.host r.1)
            (run-Keeps cyc_done (record w { exec = x }) (cyc_done-IsMachine w.machine h))
            (λ a u k. e.host u k))

  charge_world-Keeps :
      (clocks : ℕ) (w : World) → IsMachine w.machine → Keeps (charge_world v clocks w)
  unfolding charge_world
  charge_world-Keeps clocks w h = after_charge-Keeps clocks w _ h

  charge_finished-Keeps : (w : World) → IsMachine w.machine → Keeps (charge_finished v w)
  unfolding charge_finished
  charge_finished-Keeps w h =
      with-Keeps (run cyc_finish w) (λ r. charge_world v r.0 r.1)
        (run-Keeps cyc_finish w (cyc_finish-Sound.run w.machine h tt))
        (λ a u k. charge_world-Keeps a u k)

  pub enter_interrupt-Keeps :
      (nmi : Bool) (w : World) → IsMachine w.machine → Keeps (enter_interrupt v nmi w)
  unfolding enter_interrupt accepted
  enter_interrupt-Keeps nmi w h =
      with-Keeps (run (interp_interrupt nmi) (accepted nmi w)) _
        (run-Keeps (interp_interrupt nmi) (accepted nmi w)
          (interp_interrupt-IsMachine nmi w.machine h))
        (λ a u k. then-Keeps (charge_world v a u) _ (charge_world-Keeps a u k) (λ u2 k2. k2))

  after_wait-Keeps : (w : World) (r : Charged) → IsMachine w.machine → Keeps (after_wait v w r)
  unfolding after_wait
  after_wait-Keeps w charge_failed h = tt
  after_wait-Keeps w (charged x) h = e.host (record w { exec = x }) h

  wake-Keeps : (b : Bool) (w : World) → IsMachine w.machine → Keeps (wake b w)
  unfolding wake
  wake-Keeps false w h = h
  wake-Keeps true w h =
      with-Keeps (run interp_wake w) _ (run-Keeps interp_wake w (interp_wake-IsMachine w.machine h))
        (λ a u k. k)

  exec_wait-Keeps : (w : World) → IsMachine w.machine → Keeps (exec_wait v w)
  unfolding exec_wait wai_world
  exec_wait-Keeps w h =
      then-Keeps (wai_world v w) (wake w.exec.wai_over) (after_wait-Keeps w _ h)
        (λ u k. wake-Keeps w.exec.wai_over u k)

  follow-Keeps :
      (rest : Step) (t : Tail) (w : World)
      → ((u : World) → IsMachine u.machine → Keeps (rest u))
      → IsMachine w.machine
      → Keeps (follow v rest t w)
  unfolding follow
  follow-Keeps rest no_tail w r h = h
  follow-Keeps rest rest_runner w r h = h
  follow-Keeps rest (tail_to k) w r h =
      then-Keeps (v.run_tail k (record w { tail = no_tail })) rest
        (e.tail k (record w { tail = no_tail }) h) r

  run_tails-Keeps : (n : ℕ) (w : World) → IsMachine w.machine → Keeps (run_tails v n w)
  unfolding run_tails
  run_tails-Keeps zero w h = tt
  run_tails-Keeps (suc n) w h =
      follow-Keeps (run_tails v n) w.tail w (λ u k. run_tails-Keeps n u k) h

  after_native-Keeps : (w : World) → IsMachine w.machine → Keeps (after_native v w)
  unfolding after_native take_over
  after_native-Keeps w h =
      then-Keeps (run_tails v v.tails w) _ (run_tails-Keeps v.tails w h) (λ u k.
        then-Keeps (charge_finished v u) _ (charge_finished-Keeps u k)
          (λ u2 k2. hand_over-Keeps u2.tail u2 k2))

  run_overlay-Keeps :
      (o : OverlayFunc) (w : World) → IsMachine w.machine → Keeps (run_overlay v o w)
  unfolding run_overlay entered_overlay
  run_overlay-Keeps o w h =
      let entered = entered_overlay o w in
      guarded entered.0 _ (
        then-Keeps (v.run_overlay_func o entered.1) _
          (e.overlay o entered.1 (on_overlays-Keeps _ w h))
          (λ u k. on_overlays-Keeps (λ os. (tt, overlay_leave (length w.overlays.act) os)) u k))

  exec_interp-Keeps : (w : World) → IsMachine w.machine → Keeps (exec_interp v w)
  unfolding exec_interp profiled stepped
  exec_interp-Keeps w h =
      let at = long_addr w.machine.cpu.pb w.machine.cpu.pc in
      with-Keeps (run interp_step (profiled at w)) _
        (run-Keeps interp_step (profiled at w) (interp_step-IsMachine w.machine h))
        (λ a u k. charge_world-Keeps a (stepped at u) k)

  exec_overlay-Keeps :
      (o : Option OverlayFunc) (w : World) → IsMachine w.machine → Keeps (exec_overlay v o w)
  unfolding exec_overlay
  exec_overlay-Keeps none w h = exec_interp-Keeps w h
  exec_overlay-Keeps (some o) w h =
      then-Keeps (run_overlay v o w) (after_native v) (run_overlay-Keeps o w h) after_native-Keeps

  find_overlay-Keeps : (w : World) → IsMachine w.machine → IsMachine (find_overlay v w).1.machine
  unfolding find_overlay
  find_overlay-Keeps w h =
      if_both (λ (r : Option OverlayFunc × World). IsMachine r.1.machine) v.native_on _ (none, w)
        (λ c. on_overlays-Keeps _ w h) (λ c. h)

  exec_native-Keeps :
      (f : Option Func) (w : World) → IsMachine w.machine → Keeps (exec_native v f w)
  unfolding exec_native
  exec_native-Keeps none w h =
      exec_overlay-Keeps (find_overlay v w).0 (find_overlay v w).1 (find_overlay-Keeps w h)
  exec_native-Keeps (some f) w h =
      then-Keeps (v.run_func f w) (after_native v) (e.func f w h) after_native-Keeps

  exec_uninterrupted-Keeps : (w : World) → IsMachine w.machine → Keeps (exec_uninterrupted v w)
  unfolding exec_uninterrupted exec_insn
  exec_uninterrupted-Keeps w h =
      if_both Keeps (is_waiting w) (exec_wait v w) (exec_insn v w) (λ c. exec_wait-Keeps w h)
        (λ c. exec_native-Keeps _ w h)

  exec_one-Keeps : (w : World) → IsMachine w.machine → Keeps (exec_one v w)
  unfolding exec_one
  exec_one-Keeps w h =
      if_both Keeps w.skip_check _ _
        (λ c. exec_uninterrupted-Keeps (record w { skip_check = false }) h)
        (λ c.
          if_both Keeps (not (is_waiting w) && ((pending_of w).need_nmi || w.exec.take_irq)) _ _
            (λ d. enter_interrupt-Keeps (pending_of w).need_nmi w h)
            (λ d. exec_uninterrupted-Keeps w h))

  pub exec_until-Keeps :
      (finished : World → Bool) (n : ℕ) (w : World)
      → IsMachine w.machine
      → Keeps (exec_until v finished n w)
  unfolding exec_until
  exec_until-Keeps finished zero w h = tt
  exec_until-Keeps finished (suc n) w h =
      decided (finished w) w (exec_one v w >>= exec_until v finished n) h (
        then-Keeps (exec_one v w) (exec_until v finished n) (exec_one-Keeps w h)
          (λ u k. exec_until-Keeps finished n u k))
