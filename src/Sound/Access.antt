-- ===== src/Sound/Access.antt =====
-- Fetches, operands, the stack and the memory operations of runtime/interp.c keep the invariant and
-- the x flag.
use ct_recomp.Base.{ℕ, Bool, true, false, ◌∙◌, arith, u8}
use ct_recomp.Cpu.{Cpu, IsCpu}
use ct_recomp.Machine.{M, ◌>>=◌, gets}
use ct_recomp.Interp.Registers.{Rmw}
use ct_recomp.Interp.Access.{
  Ea, fetch8, fetch16, fetch24, rd, wr, wr_rmw, rd_bank0_16, rd_bank0_24, push, pull, pushw, pullw,
  Mode, imm, dp, dp_x, dp_y, dp_i, dp_x_i, dp_i_y, dp_il, dp_il_y, sr, sr_i_y, abs, abs_x, abs_y,
  long, long_x, set_cross, indexed, ea_mode, ea, operand, rmw_mem, loop_tick, branch,
}
use ct_recomp.Sound.State.{Sound, Any, IsByte, IsWord, IsLong}
use ct_recomp.Sound.Rules.{
  Sound-bind, Sound-then, Sound-pure, Sound-fatal, Sound-gets, Sound-on_bus, Sound-on_cpu,
  Sound-with_cpu, Sound-on_cyc, Sound-on_ctl, Sound-when,
}
use ct_recomp.Sound.Bus.{word-IsWord, long_addr-IsLong}
use ct_recomp.Sound.Memory.{read8-Sound, write8-Sound}
use ct_recomp.Sound.Registers.{HasX, push_s-IsCpu, push_s-fx, pull_s-IsCpu, pull_s-fx, rmw-ok}

-- The high byte of a word, and its low byte.
pub high-IsByte : (v : ℕ) → IsByte (u8 v)
high-IsByte v = omega arith

-- What an access of either width reads.
abbrev pub IsWidth : Bool → ℕ → Type 0
IsWidth true v = IsWord v
IsWidth false v = IsByte v

module _ {x : ℕ} where
  pub get_cpu-Sound : Sound (HasX x) (HasX x) IsCpu (gets (λ w. w.cpu))
  get_cpu-Sound = Sound-gets _ (λ w h k. h.cpu_ok)

  pub fetch8-Sound : Sound (HasX x) (HasX x) IsByte fetch8
  unfolding fetch8
  fetch8-Sound = Sound-then (Sound-on_bus _ (λ b h. ground arith)) (
      Sound-bind get_cpu-Sound (λ c _. Sound-bind (read8-Sound _) (λ v p.
        Sound-then (Sound-on_bus _ (λ b h. ground arith))
          (Sound-then (Sound-on_cpu _ (λ c h k. (ground arith, k))) (Sound-pure v p)))))

  pub fetch16-Sound : Sound (HasX x) (HasX x) IsWord fetch16
  unfolding fetch16
  fetch16-Sound =
      Sound-bind fetch8-Sound
        (λ lo p. Sound-bind fetch8-Sound (λ hi q. Sound-pure _ (word-IsWord lo hi p q)))

  pub fetch24-Sound : Sound (HasX x) (HasX x) IsLong fetch24
  unfolding fetch24
  fetch24-Sound =
      Sound-bind fetch16-Sound
        (λ lo p. Sound-bind fetch8-Sound (λ b q. Sound-pure _ (long_addr-IsLong b lo q p)))

  pub rd-Sound : (e : Ea) (wide : Bool) → Sound (HasX x) (HasX x) (IsWidth wide) (rd e wide)
  unfolding rd
  rd-Sound e true =
      Sound-bind (read8-Sound _)
        (λ lo p. Sound-bind (read8-Sound _) (λ hi q. Sound-pure _ (word-IsWord lo hi p q)))
  rd-Sound e false = Sound-bind (read8-Sound _) (λ v p. Sound-pure v p)

  pub wr-Sound : (e : Ea) (wide : Bool) (v : ℕ) → Sound (HasX x) (HasX x) Any (wr e wide v)
  unfolding wr
  wr-Sound e wide v =
      Sound-then (write8-Sound _ _ (high-IsByte v))
        (Sound-when wide (write8-Sound _ _ (high-IsByte _)))

  pub wr_rmw-Sound : (e : Ea) (wide : Bool) (v : ℕ) → Sound (HasX x) (HasX x) Any (wr_rmw e wide v)
  unfolding wr_rmw
  wr_rmw-Sound e wide v =
      Sound-then (Sound-when wide (write8-Sound _ _ (high-IsByte _)))
        (write8-Sound _ _ (high-IsByte v))

  pub rd_bank0_16-Sound : (a : ℕ) → Sound (HasX x) (HasX x) IsWord (rd_bank0_16 a)
  unfolding rd_bank0_16
  rd_bank0_16-Sound a =
      Sound-bind (read8-Sound _)
        (λ lo p. Sound-bind (read8-Sound _) (λ hi q. Sound-pure _ (word-IsWord lo hi p q)))

  pub rd_bank0_24-Sound : (a : ℕ) → Sound (HasX x) (HasX x) IsLong (rd_bank0_24 a)
  unfolding rd_bank0_24
  rd_bank0_24-Sound a =
      Sound-bind (rd_bank0_16-Sound a)
        (λ lo p. Sound-bind (read8-Sound _) (λ b q. Sound-pure _ (long_addr-IsLong b lo q p)))

  pub push-Sound : (v : ℕ) → IsByte v → Sound (HasX x) (HasX x) Any (push v)
  unfolding push
  push-Sound v p = Sound-bind (Sound-gets {P = Any} _ (λ w h k. tt)) (λ s _.
      Sound-then (write8-Sound s v p)
        (Sound-on_cpu _ (λ c h k. (push_s-IsCpu c h, push_s-fx c ∙ k))))

  pub pull-Sound : Sound (HasX x) (HasX x) IsByte pull
  unfolding pull
  pull-Sound =
      Sound-then (Sound-on_cpu _ (λ c h k. (pull_s-IsCpu c h, pull_s-fx c ∙ k)))
        (Sound-bind (Sound-gets {P = Any} _ (λ w h k. tt)) (λ s _. read8-Sound s))

  pub pushw-Sound : (v : ℕ) → Sound (HasX x) (HasX x) Any (pushw v)
  unfolding pushw
  pushw-Sound v = Sound-then (push-Sound _ (high-IsByte _)) (push-Sound _ (high-IsByte _))

  pub pullw-Sound : Sound (HasX x) (HasX x) IsWord pullw
  unfolding pullw
  pullw-Sound =
      Sound-bind pull-Sound
        (λ lo p. Sound-bind pull-Sound (λ hi q. Sound-pure _ (word-IsWord lo hi p q)))

  indexed-Sound : (b i : ℕ) → Sound (HasX x) (HasX x) Any (indexed b i)
  unfolding indexed set_cross
  indexed-Sound b i = Sound-then (Sound-on_cyc _) (Sound-pure _ tt)

  -- The modes that take a byte of the program, and maybe a pointer in bank 0, then an address.
  by_byte :
      {f : ℕ → M Ea}
      → ((d : ℕ) → Sound (HasX x) (HasX x) Any (f d))
      → Sound (HasX x) (HasX x) Any (fetch8 >>= f)
  by_byte k = Sound-bind fetch8-Sound (λ d _. k d)

  by_pointer :
      {f : ℕ → M Ea} (a : ℕ)
      → ((p : ℕ) → Sound (HasX x) (HasX x) Any (f p))
      → Sound (HasX x) (HasX x) Any (rd_bank0_16 a >>= f)
  by_pointer a k = Sound-bind (rd_bank0_16-Sound a) (λ p _. k p)

  ea_mode-Sound : (md : Mode) (c : Cpu) → Sound (HasX x) (HasX x) Any (ea_mode md c)
  unfolding ea_mode
  ea_mode-Sound imm c = Sound-fatal _
  ea_mode-Sound dp c = by_byte (λ d. Sound-pure _ tt)
  ea_mode-Sound dp_x c = by_byte (λ d. Sound-pure _ tt)
  ea_mode-Sound dp_y c = by_byte (λ d. Sound-pure _ tt)
  ea_mode-Sound dp_i c = by_byte (λ d. by_pointer _ (λ p. Sound-pure _ tt))
  ea_mode-Sound dp_x_i c = by_byte (λ d. by_pointer _ (λ p. Sound-pure _ tt))
  ea_mode-Sound dp_i_y c = by_byte (λ d. by_pointer _ (λ p. indexed-Sound _ _))
  ea_mode-Sound dp_il c = by_byte (λ d. Sound-bind (rd_bank0_24-Sound _) (λ p _. Sound-pure _ tt))
  ea_mode-Sound dp_il_y c = by_byte (λ d. Sound-bind (rd_bank0_24-Sound _) (λ p _. Sound-pure _ tt))
  ea_mode-Sound sr c = by_byte (λ d. Sound-pure _ tt)
  ea_mode-Sound sr_i_y c = by_byte (λ d. by_pointer _ (λ p. Sound-pure _ tt))
  ea_mode-Sound abs c = Sound-bind fetch16-Sound (λ a _. Sound-pure _ tt)
  ea_mode-Sound abs_x c = Sound-bind fetch16-Sound (λ a _. indexed-Sound _ _)
  ea_mode-Sound abs_y c = Sound-bind fetch16-Sound (λ a _. indexed-Sound _ _)
  ea_mode-Sound long c = Sound-bind fetch24-Sound (λ a _. Sound-pure _ tt)
  ea_mode-Sound long_x c = Sound-bind fetch24-Sound (λ a _. Sound-pure _ tt)

  pub ea-Sound : (md : Mode) → Sound (HasX x) (HasX x) Any (ea md)
  unfolding ea
  ea-Sound md = Sound-bind get_cpu-Sound (λ c _. ea_mode-Sound md c)

  from_memory :
      (md : Mode) (wide : Bool) → Sound (HasX x) (HasX x) (IsWidth wide) (ea md >>= λ e. rd e wide)
  from_memory md wide = Sound-bind (ea-Sound md) (λ e _. rd-Sound e wide)

  pub operand-Sound :
      (md : Mode) (wide : Bool) → Sound (HasX x) (HasX x) (IsWidth wide) (operand md wide)
  unfolding operand
  operand-Sound imm true = fetch16-Sound
  operand-Sound imm false = fetch8-Sound
  operand-Sound md wide = from_memory md wide

  pub rmw_mem-Sound : (op : Rmw) (md : Mode) → Sound (HasX x) (HasX x) Any (rmw_mem op md)
  unfolding rmw_mem
  rmw_mem-Sound op md = Sound-bind (Sound-gets {P = Any} _ (λ w h k. tt)) (λ m _.
      Sound-bind (ea-Sound md) (λ e _. Sound-bind (rd-Sound e _) (λ v _.
        Sound-bind
          (Sound-with_cpu {P = IsWord} _
            (λ c h k. ((rmw-ok op v _ c h).0, (rmw-ok op v _ c h).1, (rmw-ok op v _ c h).2 ∙ k)))
          (λ r _. wr_rmw-Sound e _ r))))

  pub loop_tick-Sound : (at t : ℕ) → Sound (HasX x) (HasX x) Any (loop_tick at t)
  unfolding loop_tick
  loop_tick-Sound at t =
      Sound-bind (Sound-gets {P = Any} _ (λ w h k. tt))
        (λ budget _. Sound-when _ (Sound-then (Sound-on_ctl _) (Sound-when _ (Sound-fatal _))))

  pub branch-Sound : (at : ℕ) (cond : Bool) → Sound (HasX x) (HasX x) Any (branch at cond)
  unfolding branch
  branch-Sound at cond = Sound-bind fetch8-Sound (λ off _. Sound-when cond (
      Sound-then (Sound-on_cyc _) (
        Sound-then (Sound-on_cpu _ (λ c h k. (ground arith, k)))
          (Sound-bind get_cpu-Sound (λ c _. loop_tick-Sound at c.pc)))))
