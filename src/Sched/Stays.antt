-- ===== src/Sched/Stays.antt =====
-- What a tick of runtime/sched.c keeps: the place of the native code that it interrupts.
use ct_recomp.Base.{ℕ, Bool, true, false, Option, none, some, ◌≡◌, refl, ◌∙◌, arith}
use ct_recomp.Base.Options.{◌>>=◌, guard}
use ct_recomp.Cpu.{Cpu}
use ct_recomp.Machine.{M, Result, done, fatal, on_cpu}
use ct_recomp.Sound.State.{IsMachine, Holds, Any, Sound}
use ct_recomp.Sched.World.{World, Env, run}
use ct_recomp.Sched.Tick.{same_place, Ticked, goes_on, bailed, counted, no_hit, at_boundary}
use ct_recomp.Sched.Kept.{Keeps}

-- Where native code is: PB:PC, its stack and modes.
pub record Here (at : Cpu) (c : Cpu) : Type 0 where
  pub pb : c.pb ≡ at.pb
  pub pc : c.pc ≡ at.pc
  pub s : c.s ≡ at.s
  pub fm : c.fm ≡ at.fm
  pub fx : c.fx ≡ at.fx
  pub fe : c.fe ≡ at.fe

pub same_place-Here : (c at : Cpu) → same_place c at ≡ true → Here at c
unfolding same_place
same_place-Here c at h = ground arith

pub record Stays (at : Cpu) (w : World) : Type 0 where
  pub well : IsMachine w.machine
  pub here : Here at w.machine.cpu

abbrev pub All : (World → Type 0) → Option World → Type 0
All P none = Unit
All P (some w) = P w

abbrev pub AllWith : {A : Type 0} → (World → Type 0) → Option (A × World) → Type 0
AllWith P none = Unit
AllWith P (some (a, w)) = P w

-- What is asked of the devices' and the host's calls: that they leave the registers.
pub record LeavesCpu (v : Env) : Type 0 where
  pub leaves : (w u : World) → v.host w ≡ some u → u.machine.cpu ≡ w.machine.cpu

module _ (P : World → Type 0) where
  pub then-All :
      (Q : World → Type 0) (o : Option World) (f : World → Option World)
      → All Q o
      → ((w : World) → Q w → All P (f w))
      → All P (o >>= f)
  then-All Q none f h g = tt
  then-All Q (some w) f h g = g w h

  pub with-All :
      {A : Type 0} (Q : World → Type 0) (o : Option (A × World)) (f : A × World → Option World)
      → AllWith Q o
      → ((a : A) (w : World) → Q w → All P (f (a, w)))
      → All P (o >>= f)
  with-All Q none f h g = tt
  with-All Q (some (a, w)) f h g = g a w h

  pub guard-All : (b : Bool) (o : Option World) → (b ≡ true → All P o) → All P (guard b >>= λ u. o)
  guard-All true o h = h refl
  guard-All false o h = tt

  pub both-All :
      (b : Bool) (o u : Option World) → All P o → All P u → All P (elim b [ true ↦ o | false ↦ u ])
  both-All true o u h k = h
  both-All false o u h k = k

-- A function of the machine that keeps a property of the registers.
ran-Stays :
    {A : Type 0} (at : Cpu) (r : Result A) (w : World)
    → Holds (Here at) Any r
    → AllWith (Stays at) (elim r [ done a k ↦ some (a, record w { machine = k }) | fatal e ↦ none ])
ran-Stays at (done a k) w h = record { well = h.1; here = h.2 }
ran-Stays at (fatal e) w h = tt

pub run-Stays :
    {A : Type 0} (at : Cpu) (m : M A) (w : World)
    → Sound (Here at) (Here at) Any m
    → Stays at w
    → AllWith (Stays at) (run m w)
unfolding run
run-Stays at m w s h = ran-Stays at (m w.machine) w (s.run w.machine h.well h.here)

pub kept-All : (o : Option World) → Keeps o → All (λ u. IsMachine u.machine) o
kept-All none h = tt
kept-All (some w) h = h

pub from_there : {at b c : Cpu} → Here at b → Here b c → Here at c
from_there h k = record {
  pb = k.pb ∙ h.pb;
  pc = k.pc ∙ h.pc;
  s = k.s ∙ h.s;
  fm = k.fm ∙ h.fm;
  fx = k.fx ∙ h.fx;
  fe = k.fe ∙ h.fe;
}

-- A tick that goes on does so at the place `at`; one that bails out says nothing of it.
abbrev pub Resumes : Cpu → Option Ticked → Type 0
Resumes at none = Unit
Resumes at (some (bailed w)) = Unit
Resumes at (some (goes_on w)) = Stays at w

pub begun :
    {A : Type 0} (at : Cpu) (o : Option (A × World))
    → AllWith (Stays at) o
    → Resumes at (o >>= λ r. some (goes_on r.1))
begun at none h = tt
begun at (some (a, w)) h = h

left :
    (at : Cpu) (o : Option World) (f : World → World) → Resumes at (o >>= λ w. some (bailed (f w)))
left at none f = tt
left at (some w) f = tt

pub bails :
    (at : Cpu) (b : Bool) (o : Option World) (f : World → World)
    → Resumes at (guard b >>= λ u. o >>= λ w. some (bailed (f w)))
bails at true o f = left at o f
bails at false o f = tt

pub either-Resumes :
    (at : Cpu) (b : Bool) (o u : Option Ticked)
    → Resumes at o
    → Resumes at u
    → Resumes at (elim b [ true ↦ o | false ↦ u ])
either-Resumes at true o u h k = h
either-Resumes at false o u h k = k

pub then-Resumes :
    {at : Cpu} (o : Option World) (f : World → Option Ticked)
    → All (Stays at) o
    → ((w : World) → Stays at w → Resumes at (f w))
    → Resumes at (o >>= f)
then-Resumes none f h g = tt
then-Resumes (some w) f h g = g w h

pub with-Resumes :
    {A : Type 0} {at : Cpu} (o : Option (A × World)) (f : A × World → Option Ticked)
    → AllWith (Stays at) o
    → ((a : A) (w : World) → Stays at w → Resumes at (f (a, w)))
    → Resumes at (o >>= f)
with-Resumes none f h g = tt
with-Resumes (some (a, w)) f h g = g a w h

pub no_hit-Stays : {at : Cpu} (w : World) → Stays at w → Stays at (no_hit w)
no_hit-Stays w h = record {
  well = record {
    cpu_ok = h.well.cpu_ok;
    bus_ok = record {
      rom_fits = h.well.bus_ok.rom_fits;
      wram_fits = h.well.bus_ok.wram_fits;
      sram_fits = h.well.bus_ok.sram_fits;
      alu_fits = h.well.bus_ok.alu_fits;
      port_fits = h.well.bus_ok.port_fits;
      mdr_fits = h.well.bus_ok.mdr_fits;
      memsel_fits = h.well.bus_ok.memsel_fits;
    };
    link_ok = h.well.link_ok;
  };
  here = h.here;
}

pub counted-Stays : {at : Cpu} (pc op : ℕ) (w : World) → Stays at w → Stays at (counted pc op w)
unfolding counted
counted-Stays pc op w h = record { well = h.well; here = h.here }

pub boundary-Stays :
    (at : ℕ) (w : World)
    → IsMachine w.machine
    → AllWith (Stays (at_boundary at w.machine.cpu)) (run (on_cpu (at_boundary at)) w)
unfolding run on_cpu at_boundary
boundary-Stays at w h = record {
  well = record {
    cpu_ok = (let c = h.cpu_ok in ground arith);
    bus_ok = h.bus_ok;
    link_ok = h.link_ok;
  };
  here = record { pb = refl; pc = refl; s = refl; fm = refl; fx = refl; fe = refl };
}
