-- ===== src/Sched.antt =====
-- The state of the frame scheduler, runtime/sched.c: the master clock and its place in the frame,
-- the registers, the pending transfers and interrupts. The children hold its operations. Clocks
-- (64 bits) and frame counts (`long`) are natural numbers: they would wrap after centuries.
pub mod Audio
pub mod Queue
pub mod Joypad
pub mod Reading
pub mod Irq
pub mod Counters
pub mod Latched
pub mod Registers
pub mod Edge
pub mod Rollback
pub mod Advance
pub mod Clock
pub mod Walk
pub mod Passing
pub mod Transfer
pub mod Charge
pub mod Reset
pub mod Profile
pub mod Shadow
pub mod Native
pub mod Search
pub mod Reason
pub mod Keys
pub mod Explained
pub mod World
pub mod Dispatch
pub mod Tick
pub mod Jumps
pub mod Kept
pub mod Accepted
pub mod Stays
pub mod Resumed
pub mod Untailed
use ct_recomp.Base.{
  ℕ, Bool, true, false, Option, none, some, List, ◌+◌, ◌-◌, ◌%◌, ◌==◌, ◌&&◌, if◌then◌else◌,
}

-- `pend`: the transfers and interrupts that wait for a cycle start. A bus access number that can
-- be -1 is an option.
pub record Pending : Type 0 where
  pub delay : Bool
  pub hdma : Bool
  pub init : Bool
  pub dma : Bool
  pub hdma_cost : ℕ
  pub init_cost : ℕ
  pub dma_after : Option ℕ
  pub dma_sizes : List ℕ
  pub nmi_count : ℕ
  pub need_nmi : Bool
  pub irq_line : Bool
  pub prev_irq : Bool
  pub nmi_after : Option ℕ

-- The place in the frame, and which events of the line have passed.
pub record Line : Type 0 where
  pub line : ℕ
  pub hclock : ℕ
  pub line_start : ℕ
  pub frames : ℕ
  pub field_base : ℕ
  pub frame_clock : ℕ
  pub frame_done : Bool
  pub nmi_done : Bool
  pub rdnmi_set : Bool
  pub rdnmi_cleared : Bool
  pub refresh_at : ℕ
  pub refresh_done : Bool
  pub refresh_paid : ℕ
  pub irq_at : Option ℕ
  pub irq_done : Bool
  pub hblank_done : Bool
  pub init_done : Bool

-- The registers $4200, $4201, $4207-$4212 and $2137-$213F.
pub record Ports : Type 0 where
  pub nmitimen : ℕ
  pub rdnmi : ℕ
  pub timeup : ℕ
  pub wrio : ℕ
  pub htime : ℕ
  pub vtime : ℕ
  pub lat_h : ℕ
  pub lat_v : ℕ
  pub lat_flag : ℕ
  pub ophct_hi : ℕ
  pub opvct_hi : ℕ
  pub in_vblank : Bool

-- The joypads and their automatic read. `pad`, `joy` and `autojoy_pad` have four elements.
pub record Joypads : Type 0 where
  pub pad : ℕ → ℕ
  pub joy : ℕ → ℕ
  pub autojoy_busy : Bool
  pub autojoy_step : ℕ
  pub autojoy_on : Bool
  pub autojoy_start : ℕ
  pub autojoy_pad : ℕ → ℕ

-- The calls of the devices and of the host that the clock makes, in their order.
pub data Event : Type 0 where
  begin_drawing oam_reload present_copied hdma_init_called : Event
  run_line : ℕ → Event
  draw_rest do_hdma apu_caught_up frame_hook_called frame_yielded : Event

pub record Sched : Type 0 where
  pub place : Line
  pub ports : Ports
  pub joypads : Joypads
  pub pend : Pending
  pub walked : Bool
  pub dma_lo : ℕ
  pub dma_hi : ℕ
  pub edge_in_dma : Bool
  pub edge_undo_from : Option ℕ
  pub events : List Event

abbrev pub sched_clocks_per_line : ℕ
sched_clocks_per_line = 1364

abbrev pub sched_lines : ℕ
sched_lines = 262

abbrev pub sched_hblank_clock : ℕ
sched_hblank_clock = 1096

abbrev pub sched_hdma_clock : ℕ
sched_hdma_clock = 1104

abbrev pub sched_vblank_line : ℕ
sched_vblank_line = 225

abbrev pub sched_height : ℕ
sched_height = 224

-- The clocks of line `ln` of frame `frame`, for `line_clocks` and `walk_line_clocks`: the line 240
-- of every other frame since the last reset is short.
unfoldable pub clocks_of_line : ℕ → ℕ → ℕ → ℕ
clocks_of_line ln frame field_base =
    if ln == 240 && (frame - field_base) % 2 == 1
    then sched_clocks_per_line - 4
    else sched_clocks_per_line

unfoldable pub line_clocks : Line → ℕ
line_clocks l = clocks_of_line l.line l.frames l.field_base
