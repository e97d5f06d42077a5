-- ===== src/Sound/Calls.antt =====
-- Extern hooks, jump tables, the shadow call stack and block moves keep the invariant.
use ct_recomp.Base.{
  ℕ, Bool, true, false, Option, some, none, List, [], ◌∷◌, ◌≡◌, refl, ◌∙◌, arith, ◌==◌,
  if◌then◌else◌,
}
use ct_recomp.Cpu.{Cpu, IsCpu}
use ct_recomp.Bus.{Bus}
use ct_recomp.Machine.{Machine, Extern, Frame, M, extern_failed, done, fatal}
use ct_recomp.Interp.Calls.{
  find_extern, check_kind, extern_hook, run_hook, table_index, enter_call, check_rts, check_rtl,
  pop_call, leave_call, block_move,
}
use ct_recomp.Interp.Instr.{}
use ct_recomp.Interp.Instr.{}
use ct_recomp.Interp.Instr.{}
use ct_recomp.Interp.Instr.{}
use ct_recomp.Interp.Instr.{}
use ct_recomp.Sound.State.{Sound, Holds, Any, Free, IsMachine, IsBus, AllHooks}
use ct_recomp.Sound.Rules.{
  Sound-bind, Sound-then, Sound-pure, Sound-fatal, Sound-gets, Sound-on_cpu, Sound-on_ctl,
  Sound-when, Sound-if,
}
use ct_recomp.Sound.Memory.{read8-Sound, write8-Sound}
use ct_recomp.Sound.Registers.{HasX, move_index-IsCpu, move_index-fx}
use ct_recomp.Sound.Access.{get_cpu-Sound, fetch8-Sound}

-- What the hooks of a link do to a state with the invariant.
unfoldable pub HookKeeps : Option Extern → Type 0
HookKeeps none = Unit
HookKeeps (some e) =
    (c c' : Cpu) (b b' : Bus) → IsCpu c → IsBus b → e.hook c b ≡ some (c', b') → IsCpu c' × IsBus b'

pub find_extern-keeps :
    (addr : ℕ) (es : List Extern) → AllHooks es → HookKeeps (find_extern addr es)
unfolding find_extern HookKeeps
find_extern-keeps addr [] h = tt
find_extern-keeps addr (e ∷ es) h = pick (e.addr == addr) (find_extern-keeps addr es h.1)
  where
    pick :
        (t : Bool)
        → HookKeeps (find_extern addr es)
        → HookKeeps (if t then some e else find_extern addr es)
    pick true rest = h.0
    pick false rest = rest

pub run_hook-Sound :
    {x : ℕ} (e : Extern) → HookKeeps (some e) → Sound (HasX x) Free Any (run_hook e)
unfolding run_hook HookKeeps
run_hook-Sound e keeps = record {
  run =
      λ w h k. after w (e.hook w.cpu w.bus) h (λ c b q. keeps w.cpu c w.bus b h.cpu_ok h.bus_ok q);
}
  where
    after :
        (w : Machine) (o : Option (Cpu × Bus))
        → IsMachine w
        → ((c : Cpu) (b : Bus) → o ≡ some (c, b) → IsCpu c × IsBus b)
        → Holds Free Any (elim o [
          | some (c, b) ↦ done tt (record w { cpu = c; bus = b })
          | none ↦ fatal (extern_failed e.addr)
        ])
    after w none h k = tt
    after w (some (c, b)) h k =
        (tt, record { cpu_ok = (k c b refl).0; bus_ok = (k c b refl).1; link_ok = h.link_ok }, tt)

-- What a return checks changes nothing.
abbrev pub Checks : ℕ → (Frame → Cpu → M (Unit {0})) → Type 0
Checks x check = (f : Frame) (c : Cpu) → Sound (HasX x) (HasX x) Any (check f c)

module _ {x : ℕ} where
  pub check_kind-Sound :
      (addr kind : ℕ) (e : Option Extern)
      → HookKeeps e
      → Sound (HasX x) (HasX x) HookKeeps (check_kind addr kind e)
  unfolding check_kind
  check_kind-Sound addr kind none h = Sound-pure none h
  check_kind-Sound addr kind (some e) h =
      Sound-if (e.kind == kind) (Sound-pure (some e) h) (Sound-fatal _)

  pub extern_hook-Sound :
      (addr kind : ℕ) → Sound (HasX x) (HasX x) HookKeeps (extern_hook addr kind)
  unfolding extern_hook
  extern_hook-Sound addr kind = Sound-bind (Sound-gets {P = Any} _ (λ w h k. tt)) (λ sys _.
      Sound-bind (Sound-gets {P = AllHooks} _ (λ w h k. h.link_ok.hooks_keep)) (λ es all.
        Sound-if (sys == 0) (check_kind-Sound addr kind _ (find_extern-keeps addr es all))
          (Sound-pure none (unfold HookKeeps in tt))))

  pub table_index-Sound : (at : ℕ) → Sound (HasX x) (HasX x) Any (table_index at)
  unfolding table_index
  table_index-Sound at =
      Sound-bind (Sound-gets {P = Any} _ (λ w h k. tt)) (λ w _. Sound-when _ (Sound-fatal _))

  pub enter_call-Sound : (at is_long : ℕ) → Sound (HasX x) (HasX x) Any (enter_call at is_long)
  unfolding enter_call
  enter_call-Sound at is_long =
      Sound-bind (Sound-gets {P = Any} _ (λ w h k. tt))
        (λ w _. Sound-when _ (Sound-then (Sound-when _ (Sound-fatal _)) (Sound-on_ctl _)))

  pub check_rts-Sound : (at : ℕ) → Checks x (check_rts at)
  unfolding check_rts
  check_rts-Sound at f c = Sound-then (Sound-when _ (Sound-fatal _)) (Sound-when _ (Sound-fatal _))

  pub check_rtl-Sound : (at : ℕ) → Checks x (check_rtl at)
  unfolding check_rtl
  check_rtl-Sound at f c = Sound-then (Sound-when _ (Sound-fatal _)) (Sound-when _ (Sound-fatal _))

  pub pop_call-Sound :
      (check : Frame → Cpu → M (Unit {0})) (fs : List Frame)
      → Checks x check
      → Sound (HasX x) (HasX x) Any (pop_call check fs)
  unfolding pop_call
  pop_call-Sound check [] s = Sound-pure tt tt
  pop_call-Sound check (f ∷ fs) s =
      Sound-then (Sound-on_ctl _) (Sound-bind get_cpu-Sound (λ c _. s f c))

  pub leave_call-Sound :
      (check : Frame → Cpu → M (Unit {0}))
      → Checks x check
      → Sound (HasX x) (HasX x) Any (leave_call check)
  unfolding leave_call
  leave_call-Sound check s =
      Sound-bind (Sound-gets {P = Any} _ (λ w h k. tt))
        (λ k _. Sound-when _ (pop_call-Sound check _ s))

  pub block_move-Sound : (at by : ℕ) → Sound (HasX x) (HasX x) Any (block_move at by)
  unfolding block_move
  block_move-Sound at by = Sound-bind fetch8-Sound (λ dst p. Sound-bind fetch8-Sound (λ src _.
      Sound-then (Sound-on_cpu _ (λ c h k. (ground arith, k))) (
        Sound-bind get_cpu-Sound (λ c _. Sound-bind (read8-Sound _) (λ v q.
          Sound-then (write8-Sound _ v q) (
            Sound-then (Sound-on_cpu _ (λ c h k. (move_index-IsCpu by c h, move_index-fx by c ∙ k)))
              (Sound-bind (Sound-gets {P = Any} _ (λ w h k. tt))
                (λ a _. Sound-when _ (Sound-on_cpu _ (λ c h k. (ground arith, k)))))))))))
