-- ===== src/Sound/Rules.antt =====
-- The rules that follow the structure of a `do` block.
use ct_recomp.Base.{ℕ, Bool, true, false, if◌then◌else◌}
use ct_recomp.Cpu.{Cpu, IsCpu}
use ct_recomp.Bus.{Bus}
use ct_recomp.Machine.{Machine, Result, done, fatal, Fault, M, Cycles, Control}
use ct_recomp.Machine.{
  ◌>>=◌, ◌>>◌, pure, ct_fatal, gets, on_cpu, on_bus, on_cyc, on_ctl, with_cpu, when,
}
use ct_recomp.Sound.State.{Sound, Holds, Any, Free, IsMachine, IsBus}

continue_from :
    {A B : Type 0} (J K : Cpu → Type 0) {P : A → Type 0} {Q : B → Type 0} (r : Result A)
    (f : A → M B)
    → Holds J P r
    → ((a : A) → P a → Sound J K Q (f a))
    → Holds K Q (elim r [ done a w ↦ f a w | fatal e ↦ fatal e ])
continue_from J K (done a w) f h k = (k a h.0).run w h.1 h.2
continue_from J K (fatal e) f h k = tt

module _ {A B : Type 0} {I J K : Cpu → Type 0} {P : A → Type 0} {Q : B → Type 0} where
  pub Sound-bind :
      {m : M A} {f : A → M B}
      → Sound I J P m
      → ((a : A) → P a → Sound J K Q (f a))
      → Sound I K Q (m >>= f)
  unfolding ◌>>=◌
  Sound-bind {m} {f} s k = record { run = λ w h i. continue_from J K (m w) f (s.run w h i) k }

  pub Sound-then : {m : M A} {k : M B} → Sound I J P m → Sound J K Q k → Sound I K Q (m >> k)
  unfolding ◌>>◌
  Sound-then {m} {k} s t = record {
    run = λ w h i. continue_from J K (m w) (λ _. k) (s.run w h i) (λ _ _. t);
  }

module _ {A : Type 0} {K : Cpu → Type 0} {P : A → Type 0} where
  pub Sound-pure : (a : A) → P a → Sound K K P (pure a)
  unfolding pure
  Sound-pure a p = record { run = λ w h k. (p, h, k) }

  pub Sound-fatal : {J : Cpu → Type 0} (e : Fault) → Sound J K P (ct_fatal e)
  unfolding ct_fatal
  Sound-fatal e = record { run = λ w h k. tt }

  pub Sound-gets :
      (f : Machine → A) → ((w : Machine) → IsMachine w → K w.cpu → P (f w)) → Sound K K P (gets f)
  unfolding gets
  Sound-gets f g = record { run = λ w h k. (g w h k, h, k) }

module _ {J K : Cpu → Type 0} where
  pub Sound-on_cpu :
      (f : Cpu → Cpu)
      → ((c : Cpu) → IsCpu c → J c → IsCpu (f c) × K (f c))
      → Sound J K Any (on_cpu f)
  unfolding on_cpu
  Sound-on_cpu f g = record {
    run = λ w h k. (
      tt,
      record { cpu_ok = (g w.cpu h.cpu_ok k).0; bus_ok = h.bus_ok; link_ok = h.link_ok },
      (g w.cpu h.cpu_ok k).1,
    );
  }

  pub Sound-with_cpu :
      {P : ℕ → Type 0} (f : Cpu → ℕ × Cpu)
      → ((c : Cpu) → IsCpu c → J c → P (f c).0 × IsCpu (f c).1 × K (f c).1)
      → Sound J K P (with_cpu f)
  unfolding with_cpu
  Sound-with_cpu f g = record {
    run = λ w h k. (
      (g w.cpu h.cpu_ok k).0,
      record { cpu_ok = (g w.cpu h.cpu_ok k).1; bus_ok = h.bus_ok; link_ok = h.link_ok },
      (g w.cpu h.cpu_ok k).2,
    );
  }

module _ {K : Cpu → Type 0} where
  pub Sound-on_bus :
      (f : Bus → Bus) → ((b : Bus) → IsBus b → IsBus (f b)) → Sound K K Any (on_bus f)
  unfolding on_bus
  Sound-on_bus f g = record {
    run = λ w h k.
        (tt, record { cpu_ok = h.cpu_ok; bus_ok = g w.bus h.bus_ok; link_ok = h.link_ok }, k);
  }

  pub Sound-on_cyc : (f : Cycles → Cycles) → Sound K K Any (on_cyc f)
  unfolding on_cyc
  Sound-on_cyc f = record {
    run = λ w h k. (tt, record { cpu_ok = h.cpu_ok; bus_ok = h.bus_ok; link_ok = h.link_ok }, k);
  }

  pub Sound-on_ctl : (f : Control → Control) → Sound K K Any (on_ctl f)
  unfolding on_ctl
  Sound-on_ctl f = record {
    run = λ w h k. (tt, record { cpu_ok = h.cpu_ok; bus_ok = h.bus_ok; link_ok = h.link_ok }, k);
  }

  pub Sound-when : (b : Bool) {m : M (Unit {0})} → Sound K K Any m → Sound K K Any (when b m)
  unfolding when
  Sound-when true s = s
  Sound-when false s = Sound-pure tt tt

-- A weaker statement of the value and of the registers.
pub Sound-Free :
    {A : Type 0} {J K : Cpu → Type 0} {P : A → Type 0} {m : M A}
    → Sound J K P m
    → Sound J Free Any m
Sound-Free {A} {K} {P} {m} s = record { run = λ w h k. forget (m w) (s.run w h k) }
  where
    forget : (r : Result A) → Holds K P r → Holds Free Any r
    forget (done a w) h = (tt, h.1, tt)
    forget (fatal e) h = tt

-- A weaker statement of the registers alone.
pub Sound-forget :
    {A : Type 0} {J K : Cpu → Type 0} {P : A → Type 0} {m : M A} → Sound J K P m → Sound J Free P m
Sound-forget {A} {K} {P} {m} s = record { run = λ w h k. forget (m w) (s.run w h k) }
  where
    forget : (r : Result A) → Holds K P r → Holds Free P r
    forget (done a w) h = (h.0, h.1, tt)
    forget (fatal e) h = tt

-- Less may be asked of the registers beforehand.
pub Sound-from :
    {A : Type 0} {K : Cpu → Type 0} {P : A → Type 0} (J : Cpu → Type 0) {m : M A}
    → Sound Free K P m
    → Sound J K P m
Sound-from J s = record { run = λ w h k. s.run w h tt }

-- A test between a call and a `ct_fatal`.
pub Sound-if :
    {A : Type 0} {J K : Cpu → Type 0} {P : A → Type 0} (t : Bool) {m n : M A}
    → Sound J K P m
    → Sound J K P n
    → Sound J K P (if t then m else n)
Sound-if true s r = s
Sound-if false s r = r
