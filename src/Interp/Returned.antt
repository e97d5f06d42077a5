-- ===== src/Interp/Returned.antt =====
-- An interrupt, its handler and its RTI leave the registers as they were: `interp_interrupt` and
-- the RTI of `step`, runtime/interp.c.
use ct_recomp.Base.{
  ℕ, Bool, ◌≡◌, refl, sym, ap, ◌∙◌, ◌≢◌, ◌+◌, ◌-◌, ◌^◌, ◌≤◌, ◌<◌, ◌==◌, arith, u8, word, ◌>>>◌,
  ==_true, ==_false,
}
use ct_recomp.Base.Bytes.{word-sum}
use ct_recomp.Cpu.{Cpu, IsCpu}
use ct_recomp.Machine.{Machine, M, ◌>>=◌, ◌>>◌, gets, on_cpu, when}
use ct_recomp.Interp.Registers.{pack_p, unpack_p, unpack_flags, narrow_index}
use ct_recomp.Interp.Access.{pull, pullw}
use ct_recomp.Interp.Instr.{rti}
use ct_recomp.Interp.Exec.{exec, set_pc, set_pb}
use ct_recomp.Interp.Run.{interp_interrupt}
use ct_recomp.Interp.Total.{Returns, after_bind, after_then, weaken, skip_when, do_when}
use ct_recomp.Interp.Interrupted.{entered, stacked, interrupt-At}
use ct_recomp.Interp.Stack.{At, pull-At, pullw-At}
use ct_recomp.Agree.Flags.{unpack_p-pack_p}

-- A status byte replaces the flags, whatever they and PB, PC and S were.
unpack_over :
    (c : Cpu) (p t pc : ℕ)
    → unpack_p p (record c { s = t; pb = 0; pc = pc; fi = 1; fd = 0 })
      ≡ record (unpack_p p c) { s = t; pb = 0; pc = pc }
unfolding unpack_p unpack_flags narrow_index
unpack_over c p t pc = ground arith

unpack_entered :
    (c : Cpu) (p t pc : ℕ)
    → IsCpu c
    → p ≡ pack_p c
    → unpack_p p (record c { s = t; pb = 0; pc = pc; fi = 1; fd = 0 })
      ≡ record c { s = t; pb = 0; pc = pc }
unpack_entered c p t pc h e =
    unpack_over c p t pc
    ∙ ap (λ (x : Cpu). record x { s = t; pb = 0; pc = pc })
        (ap (λ x. unpack_p x c) e ∙ unpack_p-pack_p c h)

pc_back : (pc : ℕ) → pc < 2 ^ 16 → word (u8 pc) (u8 (pc >>> 8)) ≡ pc
pc_back pc h = omega (arith, word-sum (u8 pc) (u8 (pc >>> 8)))

-- The four bytes above `t` are those that the entry has pushed.
record Above (c : Cpu) (t : ℕ) (f : ℕ → ℕ) : Type 0 where
  flags : f (t + 1) ≡ pack_p c
  low : f (t + 1 + 1) ≡ u8 c.pc
  high : f (t + 3) ≡ u8 (c.pc >>> 8)
  bank : f (t + 4) ≡ c.pb

stacked-Above : (c : Cpu) (t : ℕ) (f : ℕ → ℕ) → Above c t (stacked c t f)
stacked-Above c t f = record {
  flags = ground arith;
  low = ground arith;
  high = ground arith;
  bank = ground arith;
}

stacked_pc :
    (c : Cpu) (t : ℕ) (f : ℕ → ℕ)
    → Above c t f
    → c.pc < 2 ^ 16
    → word (f (t + 1 + 1)) (f (t + 3)) ≡ c.pc
stacked_pc c t f k h =
    ap (λ x. word x (f (t + 3))) k.low ∙ (ap (word (u8 c.pc)) k.high ∙ pc_back c.pc h)

above : (c : Cpu) (t : ℕ) (f f' : ℕ → ℕ) → ((i : ℕ) → t < i → f' i ≡ stacked c t f i) → Above c t f'
above c t f f' h =
    let k = stacked-Above c t f in
    record {
      flags = h (t + 1) (omega arith) ∙ k.flags;
      low = h (t + 1 + 1) (omega arith) ∙ k.low;
      high = h (t + 3) (omega arith) ∙ k.high;
      bank = h (t + 4) (omega arith) ∙ k.bank;
    }

-- The end of the RTI in native mode.
bank-At :
    (f g : ℕ → ℕ) (sys t : ℕ) (c : Cpu) (w : Machine)
    → c.fe ≡ 0
    → Above c t f
    → t + 4 < 0x2000
    → At (record c { s = t + 3; pb = 0 }) f g sys w
    → Returns
        (λ _ u. At (record c { s = t + 4 }) f g sys u)
        (when (w.cpu.fe == 0) (pull >>= set_pb) w)
bank-At f g sys t c w e k b p =
    let Q : Unit {0} → Machine → Type 0 = λ _ u. At (record c { s = t + 4 }) f g sys u in
    do_when Q _ (w.cpu.fe == 0) w (==_true w.cpu.fe 0 (ap (λ (x : Cpu). x.fe) p.cpu ∙ e)) (
      after_bind (λ v u. (v ≡ f (t + 4)) × At (record c { s = t + 4; pb = 0 }) f g sys u) Q pull
        set_pb w (pull-At f g sys (record c { s = t + 3; pb = 0 }) (t + 4) w e (omega arith) b p)
        (λ bank u q.
          unfold on_cpu in
          record {
            cpu =
                ap (λ (x : Cpu). record x { pb = bank }) q.1.cpu
                ∙ ap (λ x. record c { s = t + 4; pb = x }) (q.0 ∙ k.bank);
            wram = q.1.wram;
            rom = q.1.rom;
            mode = q.1.mode;
          }))

rti-At :
    (f g : ℕ → ℕ) (sys t pc at op : ℕ) (m16 x16 : Bool) (c : Cpu) (w : Machine)
    → IsCpu c
    → c.fe ≡ 0
    → Above c t f
    → sys ≢ 0
    → t + 4 < 0x2000
    → At (record c { s = t; pb = 0; pc = pc; fi = 1; fd = 0 }) f g sys w
    → Returns (λ _ u. At (record c { s = t + 4 }) f g sys u) (exec rti at op m16 x16 w)
unfolding exec
rti-At f g sys t pc at op m16 x16 c w h e k n b p =
    let Q : Unit {0} → Machine → Type 0 = λ _ u. At (record c { s = t + 4 }) f g sys u in
    let c1 : Cpu = record c { s = t + 1; pb = 0; pc = pc } in
    unfold ◌>>=◌ gets in
    skip_when Q _ _ _ w (==_false w.ctl.sys 0 (λ q. n (sym p.mode ∙ q))) (
      after_bind (λ v u. (v ≡ f (t + 1)) × At (record c1 { fi = 1; fd = 0 }) f g sys u) Q pull _ w
        (pull-At f g sys _ (t + 1) w e refl (omega arith) p)
        (λ v w1 p1.
          after_then (λ _ u. At c1 f g sys u) Q (on_cpu (unpack_p v)) _ w1
            (unfold on_cpu in
              record {
                cpu = ap (unpack_p v) p1.1.cpu ∙ unpack_entered c v (t + 1) pc h (p1.0 ∙ k.flags);
                wram = p1.1.wram;
                rom = p1.1.rom;
                mode = p1.1.mode;
              })
            (λ _ w2 p2.
              after_bind
                (λ v u.
                  (v ≡ word (f (c1.s + 1)) (f (t + 3))) × At (record c1 { s = t + 3 }) f g sys u)
                Q pullw _ w2 (pullw-At f g sys c1 (t + 3) w2 e (omega arith) (omega arith) p2)
                (λ ret w3 p3.
                  after_then (λ _ u. At (record c { s = t + 3; pb = 0 }) f g sys u) Q (set_pc ret) _
                    w3
                    (unfold on_cpu in
                      record {
                        cpu =
                            ap (λ (x : Cpu). record x { pc = ret }) p3.1.cpu
                            ∙ ap (λ x. record c { s = t + 3; pb = 0; pc = x })
                                (p3.0 ∙ stacked_pc c t f k h.pc_fits);
                        wram = p3.1.wram;
                        rom = p3.1.rom;
                        mode = p3.1.mode;
                      })
                    (λ _ w4 p4. bank-At f g sys t c w4 e k b p4)))))

-- What is asked of a handler that starts with the registers `c`: it returns with the same
-- registers and mode, and WRAM above its S as it was.
pub record IsTidy (c : Cpu) (handler : M (Unit {0})) : Type 0 where
  pub tidy :
      (u : Machine)
      → u.cpu ≡ c
      → Returns
          (λ _ v.
            (v.cpu ≡ c)
            × (v.ctl.sys ≡ u.ctl.sys)
            × ((i : ℕ) → c.s < i → v.bus.wram i ≡ u.bus.wram i))
          (handler u)

stacked_kept : (c : Cpu) (t : ℕ) (f : ℕ → ℕ) (i : ℕ) → t + 4 < i → stacked c t f i ≡ f i
stacked_kept c t f i h = ground arith

handled :
    (nmi : Bool) (at op : ℕ) (m16 x16 : Bool) (handler : M (Unit {0})) (i t : ℕ) (w : Machine)
    → IsCpu w.cpu
    → w.cpu.fe ≡ 0
    → w.ctl.sys ≢ 0
    → w.cpu.s ≡ t + 4
    → w.cpu.s < 0x2000
    → IsTidy (entered nmi t w.bus.rom w.cpu) handler
    → w.cpu.s < i
    → Returns (λ _ u. u.cpu ≡ entered nmi t w.bus.rom w.cpu) (interp_interrupt nmi w)
      × Returns
          (λ _ u. (u.cpu ≡ w.cpu) × (u.bus.wram i ≡ w.bus.wram i))
          ((interp_interrupt nmi >> (handler >> exec rti at op m16 x16)) w)
handled nmi at op m16 x16 handler i t w h e n s b k l =
    let c = w.cpu in
    let f = w.bus.wram in
    let g = w.bus.rom in
    let start : Cpu = entered nmi t g c in
    let P : ℕ → Machine → Type 0 = λ _ u. At start (stacked c t f) g w.ctl.sys u in
    let Q : Unit {0} → Machine → Type 0 = λ _ u. (u.cpu ≡ c) × (u.bus.wram i ≡ f i) in
    let entry =
      interrupt-At nmi f g w.ctl.sys t c w e s (omega arith)
        (record { cpu = refl; wram = refl; rom = refl; mode = refl }) refl in
    (
      weaken P _ (interp_interrupt nmi w) entry (λ _ u p. p.cpu),
      after_then P Q (interp_interrupt nmi) _ w entry (λ _ u p.
          after_then _ Q handler (exec rti at op m16 x16) u (k.tidy u p.cpu) (λ _ v q.
            weaken (λ _ x. At (record c { s = t + 4 }) v.bus.wram v.bus.rom w.ctl.sys x) Q
              (exec rti at op m16 x16 v)
              (rti-At v.bus.wram v.bus.rom w.ctl.sys t start.pc at op m16 x16 c v h e
                (above c t f v.bus.wram (λ j m. q.2 j m ∙ ap (λ y. y j) p.wram)) n (omega arith)
                (record { cpu = q.0; wram = refl; rom = refl; mode = q.1 ∙ p.mode }))
              (λ _ x r. (
                r.cpu ∙ ap (λ y. record c { s = y }) (sym s),
                ap (λ y. y i) r.wram
                    ∙ (q.2 i (omega arith)
                        ∙ (ap (λ y. y i) p.wram ∙ stacked_kept c t f i (omega arith))),
              )))),
    )

-- From well-formed registers in native mode, in system mode, with S in WRAM and four bytes below
-- it, interp_interrupt returns with PC from its vector in ROM (0xFFEA for an NMI, 0xFFEE for an
-- IRQ), PB = 0, I = 1, D = 0, S four lower and the other registers kept. A handler that returns
-- with the registers it started with and with WRAM above its S as it was, and then an RTI, give
-- back every register and flag of before the interrupt, and WRAM above S as it was before.
pub interrupt-rti :
    (nmi : Bool) (at op : ℕ) (m16 x16 : Bool) (handler : M (Unit {0})) (i : ℕ) (w : Machine)
    → IsCpu w.cpu
    → w.cpu.fe ≡ 0
    → w.ctl.sys ≢ 0
    → 4 ≤ w.cpu.s
    → w.cpu.s < 0x2000
    → IsTidy (entered nmi (w.cpu.s - 4) w.bus.rom w.cpu) handler
    → w.cpu.s < i
    → Returns (λ _ u. u.cpu ≡ entered nmi (w.cpu.s - 4) w.bus.rom w.cpu) (interp_interrupt nmi w)
      × Returns
          (λ _ u. (u.cpu ≡ w.cpu) × (u.bus.wram i ≡ w.bus.wram i))
          ((interp_interrupt nmi >> (handler >> exec rti at op m16 x16)) w)
interrupt-rti nmi at op m16 x16 handler i w h e n l b k j =
    handled nmi at op m16 x16 handler i (w.cpu.s - 4) w h e n (omega arith) b k j
