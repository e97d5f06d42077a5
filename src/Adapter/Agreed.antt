-- ===== src/Adapter/Agreed.antt =====
-- What the sound CPU reads of its ports agrees with what was written to them, runtime/snes_adapter.c.
use ct_recomp.Base.{
  ℕ, Bool, false, ◌≡◌, refl, ap, sym, ◌∙◌, ◌<◌, ◌==◌, if◌then◌else◌, bit_and, update, arith,
  if_both, not, Bool-cases, inl, inr, update_eq, ltb_of_lt, ==_iff,
}
use mathlib.Core.Bool.{true≢false}
use ct_recomp.Base.Bits.{bit_and-mask}
use ct_recomp.Adapter.{ApuSide}
use ct_recomp.Adapter.ApuPorts.{
  apu_reg_write, inport_read, copy_ports, spc_cycle_end, clear_two, spc_write,
}

-- Where no write is pending, the SPC700 reads what was last written to each port.
pub record IsAgreed (s : ApuSide) : Type 0 where
  pub agreed : s.port_pending ≡ false → (k : ℕ) → k < 4 → s.port_vis k ≡ s.port_new k

update_both : (f g : ℕ → ℕ) (i v k : ℕ) → f k ≡ g k → update f i v k ≡ update g i v k
update_both f g i v k e = ground arith

clear_two-IsAgreed : (a b : ℕ) (s : ApuSide) → IsAgreed s → IsAgreed (clear_two a b s)
unfolding clear_two
clear_two-IsAgreed a b s h = record {
  agreed = λ p k q.
      update_both (update s.port_vis b 0) (update s.port_new b 0) a 0 k
        (update_both s.port_vis s.port_new b 0 k (h.agreed p k q));
}

spc_write-IsAgreed : (address v : ℕ) (s : ApuSide) → IsAgreed s → IsAgreed (spc_write address v s)
unfolding spc_write
spc_write-IsAgreed address v s h =
    let s1 = if not (bit_and v 0x10 == 0) then clear_two 0 1 s else s in
    let h1 : IsAgreed s1 =
      if_both IsAgreed (not (bit_and v 0x10 == 0)) (clear_two 0 1 s) s
        (λ e. clear_two-IsAgreed 0 1 s h) (λ e. h) in
    if_both IsAgreed (not (address == 0xF1)) s
      (if not (bit_and v 0x20 == 0) then clear_two 2 3 s1 else s1) (λ e. h)
      (λ e.
        if_both IsAgreed (not (bit_and v 0x20 == 0)) (clear_two 2 3 s1) s1
          (λ e. clear_two-IsAgreed 2 3 s1 h1) (λ e. h1))

spc_cycle_end-agreed :
    (s : ApuSide) → IsAgreed s → (k : ℕ) → k < 4 → (spc_cycle_end s).port_vis k ≡ s.port_new k
unfolding spc_cycle_end copy_ports
spc_cycle_end-agreed s h k q = elim (Bool-cases s.port_pending) [
  | inl e ↦ ap (λ b. (pick b).port_vis k) e ∙ rw (ltb_of_lt k 4 q) refl
  | inr e ↦ ap (λ b. (pick b).port_vis k) e ∙ h.agreed e k q
]
  where
    pick : Bool → ApuSide
    pick b =
        if b
        then record s { port_vis = copy_ports s.port_new s.port_vis; port_pending = false }
        else s

spc_cycle_end-port_new : (s : ApuSide) → (spc_cycle_end s).port_new ≡ s.port_new
unfolding spc_cycle_end
spc_cycle_end-port_new s =
    if_both (λ t. t.port_new ≡ s.port_new) s.port_pending _ s (λ e. refl) (λ e. refl)

spc_cycle_end-IsAgreed : (s : ApuSide) → IsAgreed s → IsAgreed (spc_cycle_end s)
spc_cycle_end-IsAgreed s h = record {
  agreed = λ p k q.
      spc_cycle_end-agreed s h k q ∙ sym (ap (λ (f : ℕ → ℕ). f k) (spc_cycle_end-port_new s));
}

record Wrote (p v : ℕ) (s : ApuSide) : Type 0 where
  keeps : IsAgreed s
  new : s.port_new p ≡ v

apu_reg_write-Wrote :
    (sync : ℕ → ApuSide → ApuSide) (near : ApuSide → Bool) (reg v : ℕ) (s : ApuSide)
    → IsAgreed (sync 0 s)
    → Wrote (bit_and reg 3) v (apu_reg_write sync near reg v s)
unfolding apu_reg_write
apu_reg_write-Wrote sync near reg v s h =
    let s1 = sync 0 s in
    let p = bit_and reg 3 in
    let s2 : ApuSide = record s1 {
      port_new = update s1.port_new p v;
      apu = record s1.apu { in_ports = update s1.apu.in_ports p v };
    } in
    if_both (Wrote p v) (s1.port_new p == v) s1 _
      (λ e. record { keeps = h; new = (==_iff (s1.port_new p) v).0 e })
      (λ e.
        if_both (Wrote p v) (near s2) _ _
          (λ e. record {
            keeps = record {
              agreed = λ c k q. update_both s1.port_vis s1.port_new p v k (h.agreed c k q);
            };
            new = update_eq s1.port_new p p v refl;
          })
          (λ e. record {
            keeps = record { agreed = λ c k q. absurd (true≢false c) };
            new = update_eq s1.port_new p p v refl;
          }))

-- If the SPC700, run up to an access of the CPU, keeps the ports agreed (where no write is
-- pending, it reads what was last written), the CPU's write keeps them so, and at the end of the
-- SPC700's next cycle that port reads as the value written, whether the write landed at once or
-- not; the end of a cycle and the SPC700's own clearing of ports through $F1 keep the ports
-- agreed.
pub apu_reg_write-delivered :
    (sync : ℕ → ApuSide → ApuSide) (near : ApuSide → Bool) (reg v address data_byte : ℕ)
    (s : ApuSide)
    → ((t : ApuSide) → IsAgreed t → IsAgreed (sync 0 t))
    → IsAgreed s
    → IsAgreed (apu_reg_write sync near reg v s)
      × (inport_read (bit_and reg 3) (spc_cycle_end (apu_reg_write sync near reg v s)) ≡ v)
      × IsAgreed (spc_cycle_end s)
      × IsAgreed (spc_write address data_byte s)
unfolding inport_read
apu_reg_write-delivered sync near reg v address data_byte s k h =
    let w = apu_reg_write-Wrote sync near reg v s (k s h) in
    (
      w.keeps,
      spc_cycle_end-agreed (apu_reg_write sync near reg v s) w.keeps (bit_and reg 3)
            (rw (bit_and-mask 2 reg) (omega arith))
          ∙ w.new,
      spc_cycle_end-IsAgreed s h,
      spc_write-IsAgreed address data_byte s h,
    )
