-- ===== src/Interp/Stack.antt =====
-- The stack of runtime/interp.c in native mode, in the WRAM of bank 0: `push`, `pull`, `pushw` and
-- `pullw` return, and what they leave of the registers, of WRAM and of ROM.
use ct_recomp.Base.{ℕ, ◌≡◌, refl, sym, ap, ◌∙◌, ◌+◌, ◌^◌, ◌<◌, arith, u8, u24, word, ◌>>>◌, update}
use mathlib.Core.Path.{subst}
use ct_recomp.Cpu.{Cpu}
use ct_recomp.Machine.{Machine, ◌>>=◌, ◌>>◌, pure, gets, on_cpu, on_bus}
use ct_recomp.Bus.{Bus}
use ct_recomp.Bus.Map.{Region, in_wram, in_rom, decode_addr}
use ct_recomp.Bus.Log.{log_access, ct_bus_write}
use ct_recomp.Bus.Port.{wram_store, journal}
use ct_recomp.Memory.Readback.{log_access-wram}
use ct_recomp.Memory.{read8, write8, latch, read_region, write_region}
use ct_recomp.Interp.Total.{Returns, after_bind, after_then}
use ct_recomp.Interp.Registers.{push_s, pull_s}
use ct_recomp.Interp.Access.{push, pull, pushw, pullw}

-- The registers, WRAM, ROM and the mode of the machine.
pub record At (c : Cpu) (f g : ℕ → ℕ) (sys : ℕ) (w : Machine) : Type 0 where
  pub cpu : w.cpu ≡ c
  pub wram : w.bus.wram ≡ f
  pub rom : w.bus.rom ≡ g
  pub mode : w.ctl.sys ≡ sys

log_access-rom : (a m : ℕ) (b : Bus) → (log_access a m b).rom ≡ b.rom
unfolding log_access
log_access-rom a m b = ground arith

wram_store-rom : (off v : ℕ) (b : Bus) → (wram_store off v b).rom ≡ b.rom
unfolding wram_store journal
wram_store-rom off v b = ground arith

wram_store-wram : (off v : ℕ) (b : Bus) → (wram_store off v b).wram ≡ update b.wram off v
unfolding wram_store journal
wram_store-wram off v b = ground arith

low_wram : (a : ℕ) → a < 0x2000 → decode_addr (u24 a) ≡ in_wram a
unfolding decode_addr
low_wram a h = ground arith

module _ (c : Cpu) (f g : ℕ → ℕ) (sys : ℕ) where
  pub write_low :
      (a v : ℕ) (w : Machine)
      → a < 0x2000
      → At c f g sys w
      → Returns (λ _ u. At c (update f a v) g sys u) (write8 a v w)
  unfolding write8 on_bus ◌>>◌ write_region
  write_low a v w h p =
      let logged = record w { bus = record (log_access a ct_bus_write w.bus) { mdr = v } } in
      subst
        (λ (r : Region).
          Returns (λ _ u. At c (update f a v) g sys u) (write_region (u24 a) v r logged))
        (sym (low_wram a h))
        (record {
          cpu = p.cpu;
          wram =
              wram_store-wram a v logged.bus
              ∙ ap (λ m. update m a v) (log_access-wram a ct_bus_write w.bus ∙ p.wram);
          rom = wram_store-rom a v logged.bus ∙ (log_access-rom a ct_bus_write w.bus ∙ p.rom);
          mode = p.mode;
        })

  -- A byte of WRAM in bank 0, and one of ROM.
  pub read_low :
      (a : ℕ) (w : Machine)
      → a < 0x2000
      → At c f g sys w
      → Returns (λ v u. (v ≡ f a) × At c f g sys u) (read8 a w)
  unfolding read8 on_bus ◌>>◌ ◌>>=◌ read_region gets latch
  read_low a w h p =
      let logged = record w { bus = log_access a w.bus.fetch_mark w.bus } in
      subst
        (λ (r : Region). Returns (λ v u. (v ≡ f a) × At c f g sys u) (read_region (u24 a) r logged))
        (sym (low_wram a h))
        (
          ap (λ m. m a) (log_access-wram a w.bus.fetch_mark w.bus ∙ p.wram),
          record {
            cpu = p.cpu;
            wram = log_access-wram a w.bus.fetch_mark w.bus ∙ p.wram;
            rom = log_access-rom a w.bus.fetch_mark w.bus ∙ p.rom;
            mode = p.mode;
          },
        )

  pub read_rom :
      (a off : ℕ) (w : Machine)
      → decode_addr (u24 a) ≡ in_rom off
      → At c f g sys w
      → Returns (λ v u. (v ≡ g off) × At c f g sys u) (read8 a w)
  unfolding read8 on_bus ◌>>◌ ◌>>=◌ read_region gets latch
  read_rom a off w h p =
      let logged = record w { bus = log_access a w.bus.fetch_mark w.bus } in
      subst
        (λ (r : Region).
          Returns (λ v u. (v ≡ g off) × At c f g sys u) (read_region (u24 a) r logged))
        (sym h)
        (
          ap (λ m. m off) (log_access-rom a w.bus.fetch_mark w.bus ∙ p.rom),
          record {
            cpu = p.cpu;
            wram = log_access-wram a w.bus.fetch_mark w.bus ∙ p.wram;
            rom = log_access-rom a w.bus.fetch_mark w.bus ∙ p.rom;
            mode = p.mode;
          },
        )

push_s-native :
    (c : Cpu) (t : ℕ) → c.fe ≡ 0 → c.s ≡ t + 1 → t < 2 ^ 15 → push_s c ≡ record c { s = t }
unfolding push_s
push_s-native c t e h b = ground arith

pull_s-native :
    (c : Cpu) (t : ℕ) → c.fe ≡ 0 → t ≡ c.s + 1 → t < 2 ^ 15 → pull_s c ≡ record c { s = t }
unfolding pull_s
pull_s-native c t e h b = ground arith

module _ (f g : ℕ → ℕ) (sys : ℕ) where
  -- The byte at S and a pull of the one above it, in native mode, with the stack in WRAM.
  pub push-At :
      (c : Cpu) (v a t : ℕ) (w : Machine)
      → c.fe ≡ 0
      → c.s ≡ a
      → a ≡ t + 1
      → a < 0x2000
      → At c f g sys w
      → Returns (λ _ u. At (record c { s = t }) (update f a v) g sys u) (push v w)
  unfolding push ◌>>=◌ gets
  push-At c v a t w e h k b p =
      subst
        (λ s.
          Returns (λ _ u. At (record c { s = t }) (update f a v) g sys u)
            ((write8 s v >> on_cpu push_s) w))
        (sym (ap (λ (x : Cpu). x.s) p.cpu ∙ h))
        (after_then (λ _ u. At c (update f a v) g sys u) _ (write8 a v) (on_cpu push_s) w
          (write_low c f g sys a v w b p)
          (λ _ u q.
            unfold on_cpu in
            record {
              cpu = ap push_s q.cpu ∙ push_s-native c t e (h ∙ k) (omega arith);
              wram = q.wram;
              rom = q.rom;
              mode = q.mode;
            }))

  pub pull-At :
      (c : Cpu) (t : ℕ) (w : Machine)
      → c.fe ≡ 0
      → t ≡ c.s + 1
      → t < 0x2000
      → At c f g sys w
      → Returns (λ v u. (v ≡ f t) × At (record c { s = t }) f g sys u) (pull w)
  unfolding pull ◌>>=◌ gets on_cpu ◌>>◌
  pull-At c t w e h b p =
      let moved = record w { cpu = pull_s w.cpu } in
      let q : At (record c { s = t }) f g sys moved = record {
        cpu = ap pull_s p.cpu ∙ pull_s-native c t e h (omega arith);
        wram = p.wram;
        rom = p.rom;
        mode = p.mode;
      } in
      subst (λ a. Returns (λ v u. (v ≡ f t) × At (record c { s = t }) f g sys u) (read8 a moved))
        (sym (ap (λ (x : Cpu). x.s) q.cpu)) (read_low (record c { s = t }) f g sys t moved b q)

pub pushw-At :
    (f g : ℕ → ℕ) (sys : ℕ) (c : Cpu) (v a b t : ℕ) (w : Machine)
    → c.fe ≡ 0
    → c.s ≡ a
    → a ≡ b + 1
    → b ≡ t + 1
    → a < 0x2000
    → At c f g sys w
    → Returns
        (λ _ u. At (record c { s = t }) (update (update f a (u8 (v >>> 8))) b (u8 v)) g sys u)
        (pushw v w)
unfolding pushw
pushw-At f g sys c v a b t w e h k l m p =
    after_then (λ _ u. At (record c { s = b }) (update f a (u8 (v >>> 8))) g sys u) _
      (push (u8 (v >>> 8))) (push (u8 v)) w (push-At f g sys c (u8 (v >>> 8)) a b w e h k m p)
      (λ _ u q.
        push-At (update f a (u8 (v >>> 8))) g sys (record c { s = b }) (u8 v) b t u e refl l
          (omega arith) q)

pub pullw-At :
    (f g : ℕ → ℕ) (sys : ℕ) (c : Cpu) (t : ℕ) (w : Machine)
    → c.fe ≡ 0
    → t ≡ c.s + 2
    → t < 0x2000
    → At c f g sys w
    → Returns (λ v u. (v ≡ word (f (c.s + 1)) (f t)) × At (record c { s = t }) f g sys u) (pullw w)
unfolding pullw
pullw-At f g sys c t w e h b p =
    let Q : ℕ → Machine → Type 0 =
      λ v u. (v ≡ word (f (c.s + 1)) (f t)) × At (record c { s = t }) f g sys u in
    after_bind (λ v u. (v ≡ f (c.s + 1)) × At (record c { s = c.s + 1 }) f g sys u) Q pull _ w
      (pull-At f g sys c (c.s + 1) w e refl (omega arith) p)
      (λ lo u q.
        after_bind (λ v u. (v ≡ f t) × At (record c { s = t }) f g sys u) Q pull
          (λ hi. pure (word lo hi)) u
          (pull-At f g sys (record c { s = c.s + 1 }) t u e (omega arith) b q.1)
          (λ hi u' r. unfold pure in (ap (λ x. word x hi) q.0 ∙ ap (word (f (c.s + 1))) r.0, r.1)))
