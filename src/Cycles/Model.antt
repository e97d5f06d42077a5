-- ===== src/Cycles/Model.antt =====
-- The instruction being timed and its clocks by the count of runtime/cycles.c.
use ct_recomp.Base.{ℕ, Bool, not, List, [], ◌∷◌, ◌+◌, ◌-◌, ◌*◌, ◌==◌, ltb, leb}
use ct_recomp.Base.{
  if◌then◌else◌, flag, ◌&&◌, ◌||◌, bit_and, u8, u16, u32, long_addr, ◌>>>◌, get_or,
}
use ct_recomp.Bus.{Bus}
use ct_recomp.Machine.{Cycles, M, ◌>>=◌, ◌>>◌, pure, ct_fatal, gets, on_bus, on_cyc, no_cycle_count}
use ct_recomp.Cycles.Table.{cyc_base, cyc_pen, p_m, p_m2, p_x, p_dl, p_idx, p_br, p_rti}

-- `op_size`: bytes with M = X = 1.
abbrev pub op_size : List ℕ
op_size =
    2 ∷ 2 ∷ 2 ∷ 2 ∷ 2 ∷ 2 ∷ 2 ∷ 2 ∷ 1 ∷ 2 ∷ 1 ∷ 1 ∷ 3 ∷ 3 ∷ 3 ∷ 4 ∷ 2 ∷ 2 ∷ 2 ∷ 2 ∷ 2 ∷ 2 ∷ 2 ∷ 2
    ∷ 1 ∷ 3 ∷ 1 ∷ 1 ∷ 3 ∷ 3 ∷ 3 ∷ 4 ∷ 3 ∷ 2 ∷ 4 ∷ 2 ∷ 2 ∷ 2 ∷ 2 ∷ 2 ∷ 1 ∷ 2 ∷ 1 ∷ 1 ∷ 3 ∷ 3 ∷ 3 ∷ 4
    ∷ 2 ∷ 2 ∷ 2 ∷ 2 ∷ 2 ∷ 2 ∷ 2 ∷ 2 ∷ 1 ∷ 3 ∷ 1 ∷ 1 ∷ 3 ∷ 3 ∷ 3 ∷ 4 ∷ 1 ∷ 2 ∷ 2 ∷ 2 ∷ 3 ∷ 2 ∷ 2 ∷ 2
    ∷ 1 ∷ 2 ∷ 1 ∷ 1 ∷ 3 ∷ 3 ∷ 3 ∷ 4 ∷ 2 ∷ 2 ∷ 2 ∷ 2 ∷ 3 ∷ 2 ∷ 2 ∷ 2 ∷ 1 ∷ 3 ∷ 1 ∷ 1 ∷ 4 ∷ 3 ∷ 3 ∷ 4
    ∷ 1 ∷ 2 ∷ 3 ∷ 2 ∷ 2 ∷ 2 ∷ 2 ∷ 2 ∷ 1 ∷ 2 ∷ 1 ∷ 1 ∷ 3 ∷ 3 ∷ 3 ∷ 4 ∷ 2 ∷ 2 ∷ 2 ∷ 2 ∷ 2 ∷ 2 ∷ 2 ∷ 2
    ∷ 1 ∷ 3 ∷ 1 ∷ 1 ∷ 3 ∷ 3 ∷ 3 ∷ 4 ∷ 2 ∷ 2 ∷ 3 ∷ 2 ∷ 2 ∷ 2 ∷ 2 ∷ 2 ∷ 1 ∷ 2 ∷ 1 ∷ 1 ∷ 3 ∷ 3 ∷ 3 ∷ 4
    ∷ 2 ∷ 2 ∷ 2 ∷ 2 ∷ 2 ∷ 2 ∷ 2 ∷ 2 ∷ 1 ∷ 3 ∷ 1 ∷ 1 ∷ 3 ∷ 3 ∷ 3 ∷ 4 ∷ 2 ∷ 2 ∷ 2 ∷ 2 ∷ 2 ∷ 2 ∷ 2 ∷ 2
    ∷ 1 ∷ 2 ∷ 1 ∷ 1 ∷ 3 ∷ 3 ∷ 3 ∷ 4 ∷ 2 ∷ 2 ∷ 2 ∷ 2 ∷ 2 ∷ 2 ∷ 2 ∷ 2 ∷ 1 ∷ 3 ∷ 1 ∷ 1 ∷ 3 ∷ 3 ∷ 3 ∷ 4
    ∷ 2 ∷ 2 ∷ 2 ∷ 2 ∷ 2 ∷ 2 ∷ 2 ∷ 2 ∷ 1 ∷ 2 ∷ 1 ∷ 1 ∷ 3 ∷ 3 ∷ 3 ∷ 4 ∷ 2 ∷ 2 ∷ 2 ∷ 2 ∷ 2 ∷ 2 ∷ 2 ∷ 2
    ∷ 1 ∷ 3 ∷ 1 ∷ 1 ∷ 3 ∷ 3 ∷ 3 ∷ 4 ∷ 2 ∷ 2 ∷ 2 ∷ 2 ∷ 2 ∷ 2 ∷ 2 ∷ 2 ∷ 1 ∷ 2 ∷ 1 ∷ 1 ∷ 3 ∷ 3 ∷ 3 ∷ 4
    ∷ 2 ∷ 2 ∷ 2 ∷ 2 ∷ 3 ∷ 2 ∷ 2 ∷ 2 ∷ 1 ∷ 3 ∷ 1 ∷ 1 ∷ 3 ∷ 3 ∷ 3 ∷ 4 ∷ []

-- `cyc_master_per_cycle`; the first argument is what `bus_fastrom` returns.
unfoldable pub cyc_master_per_cycle : ℕ → ℕ → ℕ → ℕ
cyc_master_per_cycle memsel pb pc =
    let rom = leb 0xC0 pb || (ltb (bit_and pb 0x7F) 0x40 && leb 0x8000 pc) in
    if not (bit_and pb 0x80 == 0) && rom && not (memsel == 0) then 6 else 8

-- `cur_size`: immediates grow with M and X.
unfoldable pub cur_size : Cycles → ℕ
cur_size cy =
    let size = get_or op_size cy.op 0 in
    let size1 = if not (cy.m16 == 0) && (bit_and cy.op 0x1F == 0x09) then size + 1 else size in
    if not (cy.x16 == 0) && (cy.op == 0xA0 || cy.op == 0xA2 || cy.op == 0xC0 || cy.op == 0xE0)
    then size1 + 1
    else size1

-- `cyc_begin`: the state before the instruction, and the counters cleared.
unfoldable pub cyc_begin : ℕ → ℕ → M (Unit {0})
cyc_begin at op = do
  w ← gets (λ w. w)
  on_cyc (λ cy. record cy {
    pending = 1;
    at = at;
    op = op;
    m16 = flag (w.cpu.fm == 0);
    x16 = flag (w.cpu.fx == 0);
    dl = flag (not (u8 w.cpu.dp == 0));
    native = flag (w.cpu.fe == 0);
    speed = cyc_master_per_cycle w.bus.memsel (u8 (at >>> 16)) (u16 at);
    compiled = 0;
    interrupt = 0;
    cross = 0;
    taken = 0;
  })
  on_bus (λ b. record b { clocks = 0; accesses = 0 })

-- `cyc_begin_interrupt`: charged by its caller.
unfoldable pub cyc_begin_interrupt : M (Unit {0})
cyc_begin_interrupt = do
  c ← gets (λ w. w.cpu)
  cyc_begin (long_addr c.pb c.pc) 0
  on_cyc (λ cy. record cy { pending = 0; interrupt = 1 })

unfoldable pub cyc_begin_compiled : ℕ → ℕ → M (Unit {0})
cyc_begin_compiled at op = do
  cyc_begin at op
  on_cyc (λ cy. record cy { compiled = 1; size = cur_size (record cy { compiled = 1 }) })

unfoldable pub cyc_in_progress : Cycles → Bool
cyc_in_progress cy = not (cy.pending == 0) || not (cy.interrupt == 0)

unfoldable pub cyc_done : M (Unit {0})
cyc_done = on_cyc (λ cy. record cy { interrupt = 0 })

-- `elapsed_fetches`: the operand fetches that compiled code never makes.
unfoldable pub elapsed_fetches : Cycles → ℕ
elapsed_fetches cy = if cy.compiled == 0 then 0 else cy.size - 1

unfoldable pub cyc_elapsed : Cycles → Bus → ℕ
unfolding elapsed_fetches
cyc_elapsed cy b =
    if cy.pending == 0 then 0 else u32 (cy.speed * (1 + elapsed_fetches cy) + b.clocks)

-- One penalty: `if ((pen & bit) && fact) n += by`.
unfoldable pub penalty : ℕ → ℕ → Bool → ℕ → ℕ
penalty pen bit fact by = if not (bit_and pen bit == 0) && fact then by else 0

-- The number of CPU cycles, `n` in `model_clocks`.
unfoldable pub cycle_count : Cycles → ℕ
unfolding penalty
cycle_count cy =
    let pen = cyc_pen cy.op in
    cyc_base cy.op
    + penalty pen p_m (not (cy.m16 == 0)) 1
    + penalty pen p_m2 (not (cy.m16 == 0)) 2
    + penalty pen p_x (not (cy.x16 == 0)) 1
    + penalty pen p_dl (not (cy.dl == 0)) 1
    + penalty pen p_idx (not (cy.cross == 0) || not (cy.x16 == 0)) 1
    + penalty pen p_br (not (cy.taken == 0)) 1
    + penalty pen p_rti (not (cy.native == 0)) 1

-- The clocks of `n` cycles: fetches at the fetch speed, accesses at theirs, the rest 6 each.
unfoldable pub charge : ℕ → Cycles → Bus → ℕ
unfolding elapsed_fetches
charge n cy b =
    let fetches = elapsed_fetches cy in
    let used = u32 (1 + fetches + b.accesses) in
    let clocks = u32 (cy.speed * (1 + fetches) + b.clocks) in
    if ltb used n then u32 (clocks + (n - used) * 6) else clocks

unfoldable pub model_clocks : M ℕ
model_clocks = do
  w ← gets (λ w. w)
  let n = cycle_count w.cyc
  if n == 0 then ct_fatal (no_cycle_count w.cyc.at w.cyc.op) else pure (charge n w.cyc w.bus)

-- `cyc_finish` without its self-check.
unfoldable pub cyc_finish : M ℕ
cyc_finish = do
  pending ← gets (λ w. w.cyc.pending)
  if pending == 0
      then pure 0
      else (do on_cyc (λ cy. record cy { pending = 0; interrupt = 0 }); model_clocks)
