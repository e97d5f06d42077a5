-- ===== src/Sched/World.antt =====
-- The whole state under the scheduler's dispatch (runtime/sched.c), and what it runs on: the devices
-- and the recompiled functions, which are parameters. `none` is a `ct_fatal` of any of them.
use ct_recomp.Base.{ℕ, Bool, Option, none, some, List, ◌==◌, not, if◌then◌else◌}
use ct_recomp.Base.Options.{◌>>=◌}
use ct_recomp.Machine.{Machine, M, done, fatal}
use ct_recomp.Sched.Transfer.{Setting, CycleOf}
use ct_recomp.Sched.Charge.{Executor, Charged, charged, charge_failed, charge_insn, wai_cycle}
use ct_recomp.Sched.Profile.{Call, Slot}
use ct_recomp.Sched.Native.{Func}
use ct_recomp.Overlay.{OverlayFunc, Overlays}
use ct_recomp.Overlay.Lookup.{Wram}
use ct_recomp.Cycles.Model.{cyc_done, cyc_finish}

-- `ct_tail_fn`: none, the handing over of a function's rest, or the k-th recompiled function.
pub data Tail : Type 0 where
  no_tail rest_runner : Tail
  tail_to : ℕ → Tail

-- `int_depth`, which may be negative, is `entered` less `returned`.
pub record World : Type 0 where
  pub machine : Machine
  pub exec : Executor
  pub overlays : Overlays
  pub skip_check : Bool
  pub entered : ℕ
  pub returned : ℕ
  pub nmis : ℕ
  pub shadow : List Call
  pub prof : ℕ → Slot
  pub prof_native : ℕ
  pub prof_interp : ℕ
  pub tail : Tail
  pub tail_s0 : ℕ
  pub mv_at : ℕ
  pub last_at : ℕ

abbrev pub Step : Type 0
Step = World → Option World

-- `setting` and `cycles` are what a charge reads of the devices and of the instruction under way;
-- `host` makes the calls of devices and host that a charge left in the list of events. The
-- recompiled functions call `tick` themselves.
pub record Env : Type 0 where
  pub fuel : ℕ
  pub tails : ℕ
  pub hooked : Bool
  pub setting : World → Setting
  pub cycles : World → List CycleOf
  pub host : Step
  pub native_on : Bool
  pub native : List Func
  pub run_func : Func → Step
  pub run_overlay_func : OverlayFunc → Step
  pub run_tail : ℕ → Step
  pub strict : Bool

-- A function of the machine.
unfoldable pub run : {A : Type 0} → M A → World → Option (A × World)
run m w = elim (m w.machine) [ done a k ↦ some (a, record w { machine = k }) | fatal e ↦ none ]

-- The overlays with the watched range and the write counters, which are variables of the bus.
unfoldable pub on_overlays : {A : Type 0} → (Overlays → A × Overlays) → World → A × World
on_overlays f w =
    let b = w.machine.bus in
    let r = f (record w.overlays {
      watch_lo = b.watch_lo;
      watch_len = b.watch_len;
      wram_hit = not (b.wram_hit == 0);
    }) in
    (
      r.0,
      record w {
        overlays = r.1;
        machine = record w.machine {
          bus = record b { watch_lo = r.1.watch_lo; watch_len = r.1.watch_len };
        };
      },
    )

abbrev pub wram_of : World → Wram
wram_of w = record { wram = w.machine.bus.wram; gen = w.machine.bus.wram_gen }

-- `charge`, its `cyc_done`, and the calls that it makes.
unfoldable pub after_charge : Env → ℕ → World → Charged → Option World
after_charge v clocks w charge_failed = none
after_charge v clocks w (charged x) =
    if clocks == 0
    then some (record w { exec = x })
    else (do r ← run cyc_done (record w { exec = x }); v.host r.1)

unfoldable pub charge_world : Env → ℕ → Step
charge_world v clocks w =
    after_charge v clocks w (charge_insn (v.setting w) v.fuel v.hooked clocks (v.cycles w) w.exec)

-- `charge(cyc_finish())`.
unfoldable pub charge_finished : Env → Step
charge_finished v w = do r ← run cyc_finish w; charge_world v r.0 r.1

-- `wai_cycle`.
unfoldable pub after_wait : Env → World → Charged → Option World
after_wait v w charge_failed = none
after_wait v w (charged x) = v.host (record w { exec = x })

unfoldable pub wai_world : Env → Step
wai_world v w =
    after_wait v w (wai_cycle (v.setting w) v.fuel v.hooked (not (w.machine.cpu.fi == 0)) w.exec)
