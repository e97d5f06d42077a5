-- ===== src/Interp/Interrupted.antt =====
-- The entry of an interrupt with the stack in WRAM: `interp_interrupt` of runtime/interp.c.
use ct_recomp.Base.{
  ℕ, Bool, true, false, ◌≡◌, refl, sym, ap, ◌∙◌, ◌+◌, ◌<◌, ◌==◌, not, if◌then◌else◌, arith, u8, u16,
  u24, word, ◌>>>◌, update,
}
use mathlib.Core.Path.{subst}
use ct_recomp.Cpu.{Cpu}
use ct_recomp.Machine.{Machine, M, ◌>>=◌, ◌>>◌, pure, gets, on_cpu, on_bus, on_cyc, on_ctl}
use ct_recomp.Bus.Map.{in_rom, decode_addr}
use ct_recomp.Memory.{read8}
use ct_recomp.Cycles.Model.{cyc_begin, cyc_begin_interrupt}
use ct_recomp.Interp.Registers.{pack_p}
use ct_recomp.Interp.Access.{push, pushw}
use ct_recomp.Interp.Run.{interp_interrupt}
use ct_recomp.Interp.Total.{Returns, after_bind, after_then, skip_when}
use ct_recomp.Interp.Stack.{At, read_rom, push-At, pushw-At}

-- Where the vector of an interrupt is, in bank 0.
abbrev pub vector : Bool → ℕ
vector nmi = if nmi then 0xFFEA else 0xFFEE

-- The registers that a handler starts with, with S at `t` and the words of ROM `g`.
abbrev pub entered : Bool → ℕ → (ℕ → ℕ) → Cpu → Cpu
entered nmi t g c = record c {
  s = t;
  pb = 0;
  pc = word (g (vector nmi)) (g (vector nmi + 1));
  fi = 1;
  fd = 0;
}

-- WRAM with PB, PC and P pushed above `t`.
abbrev pub stacked : Cpu → ℕ → (ℕ → ℕ) → ℕ → ℕ
stacked c t f =
    update (update (update (update f (t + 4) c.pb) (t + 3) (u8 (c.pc >>> 8))) (t + 2) (u8 c.pc))
      (t + 1) (pack_p c)

begin-At :
    (c : Cpu) (f g : ℕ → ℕ) (sys : ℕ) (w : Machine)
    → At c f g sys w
    → Returns (λ _ u. At c f g sys u) (cyc_begin_interrupt w)
unfolding cyc_begin_interrupt cyc_begin ◌>>=◌ ◌>>◌ gets on_cyc on_bus
begin-At c f g sys w p = record { cpu = p.cpu; wram = p.wram; rom = p.rom; mode = p.mode }

vector_rom : (nmi : Bool) → decode_addr (u24 (vector nmi)) ≡ in_rom (vector nmi)
unfolding decode_addr
vector_rom true = refl
vector_rom false = refl

vector_high : (nmi : Bool) → decode_addr (u24 (u16 (vector nmi + 1))) ≡ in_rom (vector nmi + 1)
unfolding decode_addr
vector_high true = refl
vector_high false = refl

-- The vector is read, and the handler is at its start.
abbrev land : ℕ → ℕ → (ℕ → ℕ) → M ℕ
land lo hi v = do
  on_cpu (λ c. record c { pc = word lo hi })
  on_ctl (λ k. record k { waiting = 0 })
  clocks ← gets (λ w. w.bus.clocks)
  pure (v clocks)

abbrev jump : Bool → (ℕ → ℕ) → M ℕ
jump nmi v = do
  on_cpu (λ c. record c { fi = 1; fd = 0; pb = 0 })
  lo ← read8 (vector nmi)
  hi ← read8 (u16 (vector nmi + 1))
  land lo hi v

jump-At :
    (nmi : Bool) (c : Cpu) (f g : ℕ → ℕ) (sys t : ℕ) (w : Machine) (v : ℕ → ℕ)
    → At (record c { s = t }) f g sys w
    → Returns (λ _ u. At (entered nmi t g c) f g sys u) (jump nmi v w)
unfolding ◌>>◌ on_cpu
jump-At nmi c f g sys t w v p =
    let c1 : Cpu = record c { s = t; fi = 1; fd = 0; pb = 0 } in
    let w1 = record w { cpu = record w.cpu { fi = 1; fd = 0; pb = 0 } } in
    let p1 : At c1 f g sys w1 = record {
      cpu = ap (λ (x : Cpu). record x { fi = 1; fd = 0; pb = 0 }) p.cpu;
      wram = p.wram;
      rom = p.rom;
      mode = p.mode;
    } in
    let Q : ℕ → Machine → Type 0 = λ _ u. At (entered nmi t g c) f g sys u in
    after_bind (λ v u. (v ≡ g (vector nmi)) × At c1 f g sys u) Q (read8 (vector nmi)) _ w1
      (read_rom c1 f g sys (vector nmi) (vector nmi) w1 (vector_rom nmi) p1)
      (λ lo u q.
        after_bind (λ v u. (v ≡ g (vector nmi + 1)) × At c1 f g sys u) Q
          (read8 (u16 (vector nmi + 1))) (λ hi. land lo hi v) u
          (read_rom c1 f g sys (u16 (vector nmi + 1)) (vector nmi + 1) u (vector_high nmi) q.1)
          (λ hi u r.
            unfold ◌>>=◌ ◌>>◌ on_cpu on_ctl gets pure in
            record {
              cpu =
                  ap (λ (x : Cpu). record x { pc = word lo hi }) r.1.cpu
                  ∙ (ap (λ x. record c1 { pc = word x hi }) q.0
                      ∙ ap (λ x. record c1 { pc = word (g (vector nmi)) x }) r.0);
              wram = r.1.wram;
              rom = r.1.rom;
              mode = r.1.mode;
            }))

pub interrupt-At :
    (nmi : Bool) (f g : ℕ → ℕ) (sys t : ℕ) (c : Cpu) (w : Machine)
    → c.fe ≡ 0
    → c.s ≡ t + 4
    → t + 4 < 0x2000
    → At c f g sys w
    → w.cpu ≡ c
    → Returns (λ _ u. At (entered nmi t g c) (stacked c t f) g sys u) (interp_interrupt nmi w)
unfolding interp_interrupt
interrupt-At nmi f g sys t c w e h b p k =
    let Q : ℕ → Machine → Type 0 = λ _ u. At (entered nmi t g c) (stacked c t f) g sys u in
    let f1 = update f (t + 4) c.pb in
    let f3 = update (update f1 (t + 3) (u8 (c.pc >>> 8))) (t + 2) (u8 c.pc) in
    unfold ◌>>=◌ gets in
    skip_when Q _ _ _ w (==_0 w.cpu.fe (ap (λ (x : Cpu). x.fe) k ∙ e)) (
      after_then (λ _ u. At c f g sys u) Q cyc_begin_interrupt _ w (begin-At c f g sys w p)
        (λ _ w1 p1.
          after_then (λ _ u. At (record c { s = t + 3 }) f1 g sys u) Q (push w.cpu.pb) _ w1
            (subst
              (λ (x : Cpu). Returns (λ _ u. At (record c { s = t + 3 }) f1 g sys u) (push x.pb w1))
              (sym k) (push-At f g sys c c.pb (t + 4) (t + 3) w1 e h (omega arith) b p1))
            (λ _ w2 p2.
              after_then (λ _ u. At (record c { s = t + 1 }) f3 g sys u) Q (pushw w.cpu.pc) _ w2
                (subst
                  (λ (x : Cpu).
                    Returns (λ _ u. At (record c { s = t + 1 }) f3 g sys u) (pushw x.pc w2))
                  (sym k)
                  (pushw-At f1 g sys (record c { s = t + 3 }) c.pc (t + 3) (t + 2) (t + 1) w2 e refl
                    (omega arith) (omega arith) (omega arith) p2))
                (λ _ w3 p3.
                  after_then (λ _ u. At (record c { s = t }) (stacked c t f) g sys u) Q
                    (push (pack_p w.cpu)) _ w3
                    (subst
                      (λ (x : Cpu).
                        Returns (λ _ u. At (record c { s = t }) (stacked c t f) g sys u)
                          (push (pack_p x) w3))
                      (sym k)
                      (push-At f3 g sys (record c { s = t + 1 }) (pack_p c) (t + 1) t w3 e refl refl
                        (omega arith) p3))
                    (λ _ w4 p4. jump-At nmi c (stacked c t f) g sys t w4 _ p4)))))
  where
    ==_0 : (n : ℕ) → n ≡ 0 → not (n == 0) ≡ false
    ==_0 n q = ground arith
