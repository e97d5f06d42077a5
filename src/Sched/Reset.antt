-- ===== src/Sched/Reset.antt =====
-- The reset button in runtime/sched.c: `walk_reset`, `reset_delay`, and `soft_reset` without the
-- devices, the cycle model and the frame hook that it calls, and without `int_depth`, `shadow_n`
-- and the other variables that the state does not hold.
use ct_recomp.Base.{ℕ, true, false, none, [], ◌∷◌, ◌+◌, ◌*◌, u8, bit_or}
use ct_recomp.Cpu.{Cpu}
use ct_recomp.Bus.Map.{bus_access_clocks}
use ct_recomp.Sched.{Pending}
use ct_recomp.Sched.Charge.{Executor}

-- What `walk_reset` leaves in `pend`.
unfoldable pub walk_reset : Pending
walk_reset = record {
  delay = false;
  hdma = false;
  init = false;
  dma = false;
  hdma_cost = 0;
  init_cost = 0;
  dma_after = none;
  dma_sizes = 0 ∷ 0 ∷ 0 ∷ 0 ∷ 0 ∷ 0 ∷ 0 ∷ 0 ∷ [];
  nmi_count = 0;
  need_nmi = false;
  irq_line = false;
  prev_irq = false;
  nmi_after = none;
}

-- The clocks from reset to the first instruction, with MEMSEL.
unfoldable pub reset_delay : ℕ → ℕ
reset_delay memsel =
    132
    + bus_access_clocks memsel 0
    + 6
    + 3 * bus_access_clocks memsel 0x0100
    + bus_access_clocks memsel 0xFFFC
    + bus_access_clocks memsel 0xFFFD

-- The registers after `soft_reset`, with the reset vector.
unfoldable pub reset_cpu : ℕ → Cpu → Cpu
reset_cpu vector c = record c {
  fe = 1;
  fm = 1;
  fx = 1;
  fi = 1;
  fd = 0;
  db = 0;
  dp = 0;
  pb = 0;
  x = u8 c.x;
  y = u8 c.y;
  s = bit_or 0x0100 (u8 c.s);
  pc = vector;
}

-- The scheduler after it.
unfoldable pub reset_sched : Executor → Executor
reset_sched x =
    let s = x.sched in
    record {
      sched = record s {
        place = record s.place {
          line = 0;
          hclock = 0;
          line_start = 0;
          frame_clock = 0;
          rdnmi_set = false;
          rdnmi_cleared = false;
          nmi_done = true;
          refresh_paid = 0;
          frames = s.place.frames + 1;
          field_base = s.place.frames + 1;
          frame_done = true;
        };
        ports = record s.ports { nmitimen = 0; rdnmi = 0; timeup = 0; in_vblank = false };
        joypads = record s.joypads { autojoy_busy = false; autojoy_on = false; autojoy_step = 35 };
        pend = walk_reset;
        walked = false;
        dma_lo = 0;
        dma_hi = 0;
        edge_in_dma = false;
        edge_undo_from = none;
      };
      insn_i = true;
      take_irq = false;
      wai_over = false;
    }
