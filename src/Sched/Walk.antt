-- ===== src/Sched/Walk.antt =====
-- The walk of runtime/sched.c through the cycles of an instruction: `struct walk`, `walk_next`,
-- `walk_pass`. What the DMA device answers (`snes_hdma_enabled`, `snes_hdma_cost`,
-- `snes_hdma_init_cost`) is a parameter: no byte of it changes in a walk.
use ct_recomp.Base.{
  ℕ, zero, suc, Bool, true, false, Option, none, some, not, ◌+◌, ◌-◌, ◌%◌, ◌==◌, leb, ltb, ◌&&◌,
  if◌then◌else◌,
}
use ct_recomp.Sched.{
  Ports, Pending, clocks_of_line, sched_lines, sched_vblank_line, sched_hdma_clock,
}
use ct_recomp.Sched.Irq.{irq_clock_for}
use ct_recomp.Sched.Registers.{bit7}
use ct_recomp.Sched.Advance.{refresh_clocks}

-- `struct walk`, with `field_base`, which does not change.
pub record Walk : Type 0 where
  pub t : ℕ
  pub ls : ℕ
  pub line : ℕ
  pub frame : ℕ
  pub field_base : ℕ
  pub refresh_done : Bool
  pub hdma_done : Bool
  pub init_done : Bool
  pub nmi_done : Bool
  pub irq_done : Bool
  pub irq_at : Option ℕ
  pub refreshes : ℕ
  pub edge : Bool
  pub undo_from : Option ℕ
  pub dma_lo : ℕ
  pub dma_hi : ℕ

pub record HdmaAnswers : Type 0 where
  pub enabled : Bool
  pub cost : ℕ
  pub init_cost : ℕ

unfoldable pub walk_line_clocks : Walk → ℕ
walk_line_clocks w = clocks_of_line w.line w.frame w.field_base

-- The kinds of event, 3, 4, 5, 2, 0 and 1 of `walk_next`.
pub data Kind : Type 0 where
  end_of_line nmi_point irq_point init_point refresh_point hdma_point : Kind

-- An event and its clock, replaced by an earlier one where its condition holds.
unfoldable pub earlier : Bool → Kind → ℕ → Kind × ℕ → Kind × ℕ
earlier b k at e = if b && ltb at e.1 then (k, at) else e

unfoldable pub walk_next : Walk → Kind × ℕ
walk_next w =
    let e0 : Kind × ℕ = (end_of_line, w.ls + walk_line_clocks w) in
    let e1 = earlier (w.line == sched_vblank_line && not w.nmi_done) nmi_point (w.ls + 6) e0 in
    let e2 : Kind × ℕ = elim w.irq_at [
      | none ↦ e1
      | some at ↦ earlier (not w.irq_done) irq_point (w.ls + at) e1
    ] in
    let e3 = earlier (w.line == 0 && not w.init_done) init_point (w.ls + 12 + w.ls % 8) e2 in
    let e4 = earlier (not w.refresh_done) refresh_point (w.ls + 538 - w.ls % 8) e3 in
    earlier (not w.hdma_done && ltb w.line sched_vblank_line) hdma_point (w.ls + sched_hdma_clock)
      e4

-- What the events of a walk change beside it: the end of the time passed, the sample point.
pub record Pass : Type 0 where
  pub walk : Walk
  pub pend : Pending
  pub end_at : ℕ
  pub smp : ℕ

-- The `default` case: the next line.
unfoldable pub walk_next_line : ℕ → Option ℕ → Walk → Walk
walk_next_line e irq w =
    let wraps = w.line + 1 == sched_lines in
    record w {
      ls = e;
      line = if wraps then 0 else w.line + 1;
      frame = if wraps then w.frame + 1 else w.frame;
      edge = if wraps then true else w.edge;
      refresh_done = false;
      hdma_done = false;
      init_done = false;
      nmi_done = false;
      irq_done = false;
      irq_at = irq;
    }

-- The `switch` of `walk_pass`; `none` is the `ct_fatal` of the H/V timer.
unfoldable pub walk_event : HdmaAnswers → Ports → Kind → ℕ → Pass → Option Pass
walk_event hd ports refresh_point e p = some (record p {
  walk = record p.walk { refresh_done = true; refreshes = p.walk.refreshes + 1 };
  smp = if leb e p.smp then p.smp + refresh_clocks else p.smp;
  end_at = p.end_at + refresh_clocks;
})
walk_event hd ports hdma_point e p = some (record p {
  walk = record p.walk { hdma_done = true };
  pend =
      if hd.enabled
      then record p.pend { hdma = true; hdma_cost = hd.cost; delay = true }
      else p.pend;
})
walk_event hd ports init_point e p = some (record p {
  walk = record p.walk { init_done = true };
  pend =
      if hd.enabled
      then record p.pend { delay = true; init = true; init_cost = hd.init_cost }
      else record p.pend { delay = true };
})
walk_event hd ports nmi_point e p = some (record p {
  walk = record p.walk { nmi_done = true };
  pend = if bit7 ports.nmitimen then record p.pend { nmi_count = 1 } else p.pend;
})
walk_event hd ports irq_point e p = some (record p {
  walk = record p.walk { irq_done = true };
  pend = record p.pend { irq_line = true };
})
walk_event hd ports end_of_line e p =
    let ln = if p.walk.line + 1 == sched_lines then 0 else p.walk.line + 1 in
    elim (irq_clock_for ports ln) [
      | none ↦ none
      | some at ↦ some (record p { walk = walk_next_line e at p.walk })
    ]

-- How the loop ends: `walk_cut` when the fuel is out.
pub data Passed : Type 0 where
  passed : Pass → Passed
  walk_failed walk_cut : Passed

unfoldable pub pass_loop : ℕ → HdmaAnswers → Ports → Pass → Passed
pass_loop zero hd ports p = walk_cut
pass_loop (suc fuel) hd ports p =
    let next = walk_next p.walk in
    elim (ltb p.end_at next.1) [
      | true ↦ passed (record p { walk = record p.walk { t = p.end_at } })
      | false ↦ elim (walk_event hd ports next.0 next.1 p) [
        | none ↦ walk_failed
        | some p' ↦ pass_loop fuel hd ports p'
      ]
    ]

-- `walk_pass`; the result holds the sample clock in `smp`.
unfoldable pub walk_pass : ℕ → HdmaAnswers → Ports → ℕ → ℕ → Walk → Pending → Passed
walk_pass fuel hd ports clocks sample w pend =
    pass_loop fuel hd ports
      (record { walk = w; pend = pend; end_at = w.t + clocks; smp = w.t + sample })
