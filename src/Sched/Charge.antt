-- ===== src/Sched/Charge.antt =====
-- Charging an instruction's clocks in runtime/sched.c: `walk_commit`, `charge`, `wai_cycle`. The
-- cycles of the instruction are those that `cyc_cycles` of runtime/cycles.c gives; `cyc_done` is
-- called there.
use ct_recomp.Base.{
  ℕ, Bool, true, false, none, some, List, not, ◌+◌, ◌-◌, ◌*◌, ◌/◌, ◌%◌, ◌==◌, leb, ltb, ◌&&◌, ◌||◌,
  if◌then◌else◌, u32, sub32,
}
use ct_recomp.Sched.{Line, Pending, Sched, line_clocks, sched_vblank_line, sched_hdma_clock}
use ct_recomp.Sched.Advance.{Advanced, advanced, failed, cut, advance}
use ct_recomp.Sched.Walk.{Walk}
use ct_recomp.Sched.Transfer.{
  Setting, CycleOf, is_access, pass, walk_cycle_start, walk_init, walk_insn,
}

-- The scheduler with `insn_i`, `take_irq` and `wai_over`.
pub record Executor : Type 0 where
  pub sched : Sched
  pub insn_i : Bool
  pub take_irq : Bool
  pub wai_over : Bool

-- How a charge ends; `charge_failed` is a `ct_fatal`, or a loop out of fuel.
pub data Charged : Type 0 where
  charged : Executor → Charged
  charge_failed : Charged

-- What `advance` leaves, with `f` after it.
unfoldable pub then_charged : (Sched → Sched) → Executor → Advanced → Charged
then_charged f x (advanced s) = charged (record x { sched = f s })
then_charged f x failed = charge_failed
then_charged f x cut = charge_failed

-- `walk_commit` before and after its call of `advance`.
unfoldable pub commit_before : Walk → Sched → Sched
commit_before w s = record s {
  place = record s.place { refresh_paid = s.place.refresh_paid + w.refreshes };
  edge_undo_from = w.undo_from;
  dma_lo = if w.dma_hi == 0 then s.dma_lo else w.dma_lo;
  dma_hi = if w.dma_hi == 0 then s.dma_hi else w.dma_hi;
  walked = true;
}

unfoldable pub commit_after : Walk → Sched → Sched
commit_after w s =
    let back = record s { walked = false; edge_undo_from = none } in
    if s.place.line == w.line
    then record back {
      place = record s.place {
        init_done = s.place.init_done || w.init_done;
        nmi_done = s.place.nmi_done || w.nmi_done;
      };
    }
    else back

unfoldable pub walk_commit : ℕ → Bool → Walk → ℕ → ℕ → Executor → Charged
walk_commit fuel hooked w start t x =
    then_charged (commit_after w) x
      (advance fuel hooked (u32 (t - start)) (commit_before w x.sched))

-- Whether a transfer waits.
unfoldable pub transfer_waits : Pending → Bool
transfer_waits p = p.delay || p.hdma || p.init || p.dma

-- Whether the clock of the line's timer is at most `end_at`.
unfoldable pub timer_by : Line → ℕ → Bool
timer_by l end_at = elim l.irq_at [ none ↦ false | some at ↦ not l.irq_done && leb at end_at ]

-- `inside` of `charge`: whether something happens within the clocks.
unfoldable pub inside : Setting → ℕ → Sched → Bool
inside c clocks s =
    let l = s.place in
    let end_at = u32 (l.hclock + clocks) in
    transfer_waits s.pend
    || is_access s.pend.dma_after
    || not (s.pend.nmi_count == 0)
    || is_access s.pend.nmi_after
    || (not l.nmi_done && leb 6 end_at)
    || timer_by l end_at
    || leb (line_clocks l) end_at
    || (not l.refresh_done && leb l.refresh_at end_at)
    || (not l.hblank_done
        && ltb l.line sched_vblank_line
        && leb sched_hdma_clock end_at
        && c.answers.enabled)
    || (l.line == 0 && not l.init_done && leb (12 + l.line_start % 8) end_at)

-- `charge`.
unfoldable pub charge_insn : Setting → ℕ → Bool → ℕ → List CycleOf → Executor → Charged
charge_insn c fuel hooked clocks ys x =
    let s = x.sched in
    let irq = s.pend.irq_line && not x.insn_i in
    let whole = record s { pend = record s.pend { prev_irq = irq } } in
    if clocks == 0
    then charged x
    else if not (inside c clocks s)
    then then_charged (λ s. s) (record x { take_irq = irq }) (advance fuel hooked clocks whole)
    else elim (walk_insn c x.insn_i ys s) [
      | none ↦ charge_failed
      | some w ↦
          walk_commit fuel hooked w.walk (s.place.line_start + s.place.hclock) w.walk.t (record x {
            sched = record s { pend = record w.pend { dma_after = none; nmi_after = none } };
            take_irq = w.pend.prev_irq;
          })
    ]

-- `quiet` of `wai_cycle`.
unfoldable pub quiet : Pending → Bool
quiet p = not (transfer_waits p) && p.nmi_count == 0 && not p.need_nmi && not p.irq_line

-- An event's clock, if it comes and is before those so far.
abbrev pub sooner : Bool → ℕ → ℕ → ℕ
sooner b at next = if b && ltb at next then at else next

-- `next` of `wai_cycle`: the clock of the line's next event.
unfoldable pub next_event : Line → ℕ
next_event l =
    let n1 = sooner (not l.refresh_done) l.refresh_at (line_clocks l) in
    let n2 = sooner (not l.hblank_done && ltb l.line sched_vblank_line) sched_hdma_clock n1 in
    let n3 = sooner (l.line == 0 && not l.init_done) (12 + l.line_start % 8) n2 in
    let n4 = sooner (not l.nmi_done) 6 n3 in
    elim l.irq_at [ none ↦ n4 | some at ↦ sooner (not l.irq_done) at n4 ]

-- The idle cycles of `wai_cycle` before one in which something can happen.
unfoldable pub idle_clocks : Sched → ℕ
idle_clocks s =
    let l = s.place in
    let next = next_event l in
    if quiet s.pend && ltb (u32 (l.hclock + 12)) next
    then u32 (6 * sub32 (sub32 next l.hclock / 6) 1)
    else 0

-- The last cycle of `wai_cycle`, with the I flag of the CPU.
unfoldable pub wai_last : Setting → ℕ → Bool → Bool → Executor → Charged
wai_last c fuel hooked i x =
    let w = walk_init x.sched in
    elim (walk_cycle_start c 6 i
      (record { walk = w; pend = x.sched.pend; count = 0; sampled = w.t })) [
        | none ↦ charge_failed
        | some w1 ↦ elim (pass c 6 6 w1) [
          | none ↦ charge_failed
          | some w2 ↦ walk_commit fuel hooked w2.walk w.t w2.walk.t (record x {
            sched = record x.sched { pend = w2.pend };
            wai_over = if w1.pend.need_nmi || w1.pend.irq_line then true else x.wai_over;
          })
        ]
      ]

unfoldable pub wai_cycle : Setting → ℕ → Bool → Bool → Executor → Charged
wai_cycle c fuel hooked i x =
    let k = idle_clocks x.sched in
    if k == 0 then wai_last c fuel hooked i x else elim (advance fuel hooked k x.sched) [
      | advanced s ↦ wai_last c fuel hooked i (record x { sched = s })
      | failed ↦ charge_failed
      | cut ↦ charge_failed
    ]
