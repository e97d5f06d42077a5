-- ===== src/Sched/Transfer.antt =====
-- The start of a CPU cycle in runtime/sched.c: pending DMA and HDMA, the NMI counter, the IRQ line
-- (`walk_dma_pending`, `walk_pending`, `walk_cycle_start`, `walk_init`, `walk_insn`,
-- `access_clock`, `dma_start`).
use ct_recomp.Base.{
  ℕ, zero, suc, Bool, true, false, Option, none, some, List, [], ◌∷◌, not, ◌+◌, ◌-◌, ◌*◌, ◌%◌, ◌==◌,
  ◌&&◌, ◌||◌, if◌then◌else◌,
}
use ct_recomp.Sched.{Ports, Pending, Sched}
use ct_recomp.Sched.Registers.{last_access}
use ct_recomp.Sched.Walk.{Walk, HdmaAnswers, passed, walk_failed, walk_cut, walk_pass}

-- What a walk runs with: the fuel of each of its loops, the answers of the DMA device, the
-- registers, and whether DMA counts bytes modulo 256 (`SNES_QUIRK_MESEN_DMA_COUNT8`).
pub record Setting : Type 0 where
  pub fuel : ℕ
  pub answers : HdmaAnswers
  pub ports : Ports
  pub count8 : Bool

-- A walk, what is pending, and the clocks counted.
pub record Walking : Type 0 where
  pub walk : Walk
  pub pend : Pending
  pub count : ℕ
  pub sampled : ℕ

-- `none`: a `walk_pass` ended in `ct_fatal`, or out of fuel.
abbrev pub Step : Type 0
Step = Walking → Option Walking

infixl 5 ◌then◌
unfoldable pub ◌then◌ : Step → Step → Step
◌then◌ f g w = elim (f w) [ none ↦ none | some w' ↦ g w' ]

unfoldable pub pass : Setting → ℕ → ℕ → Step
pass c clocks sample w = elim (walk_pass c.fuel c.answers c.ports clocks sample w.walk w.pend) [
  | passed p ↦ some (record w { walk = p.walk; pend = p.pend; sampled = p.smp })
  | walk_failed ↦ none
  | walk_cut ↦ none
]

unfoldable pub on_pend : (Pending → Pending) → Step
on_pend f w = some (record w { pend = f w.pend })

unfoldable pub counted : ℕ → Step
counted n w = some (record w { count = w.count + n })

unfoldable pub walk_dma_pending : Setting → Step
walk_dma_pending c w =
    if w.pend.delay
    then on_pend (λ p. record p { delay = false }) w
    else if w.pend.hdma
    then (on_pend (λ p. record p { hdma = false })
          then pass c w.pend.hdma_cost 0
          then counted w.pend.hdma_cost)
        w
    else if w.pend.init
    then (on_pend (λ p. record p { init = false })
          then pass c w.pend.init_cost 0
          then counted w.pend.init_cost)
        w
    else some w

-- The bytes of a channel.
unfoldable pub dma_bytes : Setting → ℕ → Step
dma_bytes c zero w = some w
dma_bytes c (suc n) w = (pass c 8 0 then walk_dma_pending c then dma_bytes c n) w

-- A channel of a general DMA.
unfoldable pub dma_channel : Setting → ℕ → Step
dma_channel c zero w = some w
dma_channel c (suc k) w =
    let size = suc k in
    (pass c 8 0
        then counted 8
        then walk_dma_pending c
        then dma_bytes c size
        then counted (8 * (if c.count8 then size % 256 else size)))
      w

unfoldable pub dma_channels : Setting → List ℕ → Step
dma_channels c [] w = some w
dma_channels c (size ∷ sizes) w = (dma_channel c size then dma_channels c sizes) w

unfoldable pub general_dma : Setting → Step
general_dma c w =
    (on_pend (λ p. record p { dma = false })
        then (λ w. some (record w { walk = record w.walk { dma_lo = w.walk.t } }))
        then pass c 8 0
        then counted 8
        then walk_dma_pending c
        then dma_channels c w.pend.dma_sizes
        then (λ w. some (record w { walk = record w.walk { dma_hi = w.walk.t } })))
      w

-- HDMA, or else its initialization, at the start of a cycle.
unfoldable pub hdma_turn : Setting → Step
hdma_turn c w =
    let n = if w.pend.hdma then w.pend.hdma_cost else w.pend.init_cost in
    (on_pend (λ p. if p.hdma then record p { hdma = false } else record p { init = false })
        then pass c n 0
        then counted n)
      w

-- The wait back to a whole number of the cycle's clocks.
unfoldable pub realign : Setting → ℕ → Step
realign c speed w = pass c (speed - w.count % speed) 0 w

-- `walk_pending`: whether a transfer ran, and the walk.
unfoldable pub walk_pending : Setting → ℕ → Walking → Option (Bool × Walking)
walk_pending c speed w =
    if not (w.pend.delay || w.pend.hdma || w.pend.init || w.pend.dma)
    then some (false, w)
    else if w.pend.delay
    then some (false, record w { pend = record w.pend { delay = false } })
    else let sync = 8 - w.walk.t % 8 in
      let turn = if w.pend.hdma || w.pend.init then hdma_turn c else general_dma c in
      elim ((pass c sync 0 then turn then realign c speed) (record w { count = sync })) [
        | none ↦ none
        | some w' ↦ some (true, w')
      ]

-- The NMI counter and the IRQ line, sampled after `walk_pending` gave `lock`.
unfoldable pub sample_interrupts : Bool → Bool → Pending → Pending
sample_interrupts lock i p =
    let counted =
      if p.nmi_count == 0
      then p
      else if p.nmi_count == 1
      then (if lock
          then record p { nmi_count = 1 }
          else record p { nmi_count = 0; need_nmi = true })
      else record p { nmi_count = p.nmi_count - 1 } in
    record counted { prev_irq = not lock && p.irq_line && not i }

unfoldable pub walk_cycle_start : Setting → ℕ → Bool → Step
walk_cycle_start c speed i w = elim (walk_pending c speed w) [
  | none ↦ none
  | some r ↦ some (record r.1 { pend = sample_interrupts r.0 i r.1.pend })
]

unfoldable pub walk_init : Sched → Walk
walk_init s = record {
  t = s.place.line_start + s.place.hclock;
  ls = s.place.line_start;
  line = s.place.line;
  frame = s.place.frames;
  field_base = s.place.field_base;
  refresh_done = s.place.refresh_done;
  hdma_done = s.place.hblank_done;
  init_done = s.place.init_done;
  nmi_done = s.place.nmi_done;
  irq_done = s.place.irq_done;
  irq_at = s.place.irq_at;
  refreshes = 0;
  edge = false;
  undo_from = none;
  dma_lo = 0;
  dma_hi = 0;
}

-- A cycle of `cyc_cycles`: its clocks, whether it reads or writes, its bus access number.
pub record CycleOf : Type 0 where
  pub clk : ℕ
  pub is_read : Bool
  pub is_write : Bool
  pub idx : Option ℕ

-- Whether two access numbers are one, -1 being none.
abbrev pub same_access : Option ℕ → Option ℕ → Bool
same_access (some a) (some b) = a == b
same_access (some a) none = false
same_access none b = false

abbrev pub is_access : Option ℕ → Bool
is_access none = false
is_access (some k) = true

-- What follows the clocks of a cycle in `walk_insn`.
unfoldable pub cycle_end : CycleOf → Walking → Walking
cycle_end y w =
    let w1 =
      if w.walk.edge && not (is_access w.walk.undo_from) && is_access y.idx && y.is_write
      then record w { walk = record w.walk { undo_from = y.idx } }
      else w in
    let w2 =
      if same_access y.idx w1.pend.dma_after
      then record w1 { pend = record w1.pend { dma = true; delay = true; dma_after = none } }
      else w1 in
    if same_access y.idx w2.pend.nmi_after
    then record w2 { pend = record w2.pend { nmi_count = 2; nmi_after = none } }
    else w2

-- The loop of `walk_insn`; a caller that takes no sample ignores the last one.
unfoldable pub walk_cycles : Setting → Bool → List CycleOf → Step
walk_cycles c i [] w = some w
walk_cycles c i (y ∷ ys) w =
    (walk_cycle_start c y.clk i
        then pass c y.clk (if y.is_read then y.clk - 4 else y.clk)
        then (λ w. some (cycle_end y w))
        then walk_cycles c i ys)
      w

-- `walk_insn` over the cycles that `cyc_cycles` gives.
unfoldable pub walk_insn : Setting → Bool → List CycleOf → Sched → Option Walking
walk_insn c i ys s =
    let w = walk_init s in
    walk_cycles c i ys (record { walk = w; pend = s.pend; count = 0; sampled = w.t })

unfoldable pub dma_start : List ℕ → ℕ → Pending → Pending
dma_start sizes accesses p = record p { dma_sizes = sizes; dma_after = last_access accesses }

-- What `access_clock` asks of runtime/cycles.c and of the bus: whether an instruction is in
-- progress, its accesses so far, whether the log holds them, `cyc_elapsed`, and `cyc_cycles` up to
-- the last access.
pub record InProgress : Type 0 where
  pub in_progress : Bool
  pub accesses : ℕ
  pub logged : Bool
  pub elapsed : ℕ
  pub cycles : List CycleOf

-- `access_clock`. The walk is on a copy, and `pend` is put back.
unfoldable pub access_clock : Setting → Bool → InProgress → Sched → Option ℕ
access_clock c i y s =
    let start = s.place.line_start + s.place.hclock in
    if not y.in_progress
    then some start
    else if y.accesses == 0 || not y.logged
    then some (start + y.elapsed)
    else elim (walk_insn c i y.cycles s) [ none ↦ none | some w ↦ some w.sampled ]
