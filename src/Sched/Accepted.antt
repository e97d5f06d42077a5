-- ===== src/Sched/Accepted.antt =====
-- An interrupt is accepted by `exec_one` of runtime/sched.c: the vector that is taken, and the
-- instruction that follows.
use ct_recomp.Base.{
  Bool, true, false, Option, none, some, ◌≡◌, refl, sym, ◌∙◌, ◌-◌, ◌≤◌, ◌<◌, ◌==◌, not, ◌&&◌, ◌||◌,
  if_both, ℕ, arith,
}
use mathlib.Core.Bool.{true≢false}
use ct_recomp.Cpu.{Cpu}
use ct_recomp.Machine.{Machine, Result, done, fatal, on_cyc}
use ct_recomp.Cycles.Model.{cyc_done}
use ct_recomp.Interp.Total.{Returns, weaken}
use ct_recomp.Interp.Run.{interp_interrupt}
use ct_recomp.Interp.Interrupted.{entered, interrupt-At}
use ct_recomp.Interp.Stack.{At}
use ct_recomp.Sched.Charge.{Charged, charged, charge_failed}
use ct_recomp.Sched.World.{World, Env, run, charge_world, after_charge}
use ct_recomp.Sched.Dispatch.{
  accepted, enter_interrupt, exec_one, exec_uninterrupted, is_waiting, pending_of,
}
use ct_recomp.Sched.Stays.{LeavesCpu, All, AllWith, then-All, with-All}

-- The registers of the machine.
abbrev Has : Cpu → World → Type 0
Has c u = u.machine.cpu ≡ c

-- After an interrupt is taken: the registers of the handler's start, and a next step that runs.
abbrev pub Accepted : Env → Cpu → World → Type 0
Accepted v c u =
    (u.machine.cpu ≡ c) × (exec_one v u ≡ exec_uninterrupted v (record u { skip_check = false }))

ran-Has :
    (c : Cpu) (r : Result ℕ) (w : World)
    → Returns (λ _ k. k.cpu ≡ c) r
    → AllWith (Has c) (elim r [ done a k ↦ some (a, record w { machine = k }) | fatal e ↦ none ])
ran-Has c (done a k) w h = h
ran-Has c (fatal e) w h = tt

entry_registers :
    (nmi : Bool) (w : Machine)
    → w.cpu.fe ≡ 0
    → 4 ≤ w.cpu.s
    → w.cpu.s < 0x2000
    → Returns (λ _ k. k.cpu ≡ entered nmi (w.cpu.s - 4) w.bus.rom w.cpu) (interp_interrupt nmi w)
entry_registers nmi w e a b =
    weaken (λ _ k. At (entered nmi (w.cpu.s - 4) w.bus.rom w.cpu) _ w.bus.rom w.ctl.sys k) _
      (interp_interrupt nmi w)
      (interrupt-At nmi w.bus.wram w.bus.rom w.ctl.sys (w.cpu.s - 4) w.cpu w e (omega arith)
        (omega arith) (record { cpu = refl; wram = refl; rom = refl; mode = refl }) refl)
      (λ _ k p. p.cpu)

next_runs :
    (v : Env) (u : World)
    → u.skip_check ≡ true
    → exec_one v u ≡ exec_uninterrupted v (record u { skip_check = false })
unfolding exec_one
next_runs v u h = simp h refl

module _ (v : Env) (l : LeavesCpu v) where
  host-Has : (c : Cpu) (w : World) → Has c w → All (Has c) (v.host w)
  host-Has c w h = from (v.host w) (l.leaves w)
    where
      from :
          (o : Option World)
          → ((u : World) → o ≡ some u → u.machine.cpu ≡ w.machine.cpu)
          → All (Has c) o
      from none f = tt
      from (some u) f = f u refl ∙ h

  after_charge-Has :
      (clocks : ℕ) (c : Cpu) (w : World) (r : Charged)
      → Has c w
      → All (Has c) (after_charge v clocks w r)
  unfolding after_charge run cyc_done on_cyc
  after_charge-Has clocks c w charge_failed h = tt
  after_charge-Has clocks c w (charged x) h =
      if_both (All (Has c)) (clocks == 0) (some (record w { exec = x })) _ (λ _. h)
        (λ _. host-Has c _ h)

  entry-Accepted :
      (nmi : Bool) (c : Cpu) (w : World)
      → Returns (λ _ k. k.cpu ≡ c) (interp_interrupt nmi w.machine)
      → All (Accepted v c) (enter_interrupt v nmi w)
  unfolding enter_interrupt accepted run charge_world
  entry-Accepted nmi c w h =
      with-All (Accepted v c) (Has c) (run (interp_interrupt nmi) (accepted nmi w)) _
        (ran-Has c (interp_interrupt nmi w.machine) (accepted nmi w) h)
        (λ a u k.
          then-All (Accepted v c) (Has c) (charge_world v a u) _ (after_charge-Has a c u _ k)
            (λ u2 k2. (k2, next_runs v (record u2 { skip_check = true; shadow = _ }) refl)))

due :
    (waiting : ℕ) (b : Bool) → waiting ≡ 0 → b ≡ true → (not (not (waiting == 0)) && b) ≡ false → ⊥
due waiting b h k e = ground arith

-- If the calls of the devices and the host leave the registers, then at an instruction boundary in
-- native mode, not in WAI and not right after an interrupt's entry (skip_check is 0), with S in
-- WRAM and four bytes below it, and an NMI or an IRQ to take, exec_one takes the NMI if there is
-- one, else the IRQ: if it does not end in ct_fatal and its charge is within its bounds, the
-- registers are those of the handler's start, with PC from the vector of that interrupt and S four
-- lower, and the next exec_one clears skip_check and goes on as exec_uninterrupted, without taking
-- another.
pub exec_one-interrupt :
    (v : Env) (w : World)
    → LeavesCpu v
    → w.machine.cpu.fe ≡ 0
    → 4 ≤ w.machine.cpu.s
    → w.machine.cpu.s < 0x2000
    → w.skip_check ≡ false
    → w.machine.ctl.waiting ≡ 0
    → ((pending_of w).need_nmi || w.exec.take_irq) ≡ true
    → All
        (Accepted v
          (entered (pending_of w).need_nmi (w.machine.cpu.s - 4) w.machine.bus.rom w.machine.cpu))
        (exec_one v w)
unfolding exec_one
exec_one-interrupt v w l e a b s n d =
    let c = w.machine.cpu in
    let nmi = (pending_of w).need_nmi in
    let P : World → Type 0 = Accepted v (entered nmi (c.s - 4) w.machine.bus.rom c) in
    if_both (All P) w.skip_check _ _ (λ h. absurd (true≢false (sym h ∙ s)))
      (λ _.
        if_both (All P) (not (is_waiting w) && (nmi || w.exec.take_irq)) (enter_interrupt v nmi w) _
          (λ _.
            entry-Accepted v l nmi (entered nmi (c.s - 4) w.machine.bus.rom c) w
              (entry_registers nmi w.machine e a b))
          (λ h. absurd (due w.machine.ctl.waiting (nmi || w.exec.take_irq) n d h)))
