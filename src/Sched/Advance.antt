-- ===== src/Sched/Advance.antt =====
-- The clock of runtime/sched.c: `advance` with the starts of the lines. Its calls of the devices
-- and of the host's hooks are the events of the state; a host that resets the machine or changes
-- the pad between two frames is not part of the model.
use ct_recomp.Base.{
  ℕ, zero, suc, Bool, true, false, Option, none, some, [], ◌∷◌, ◌++◌, not, ◌+◌, ◌-◌, ◌%◌, ◌==◌, leb,
  ltb, ◌&&◌, if◌then◌else◌, u32,
}
use ct_recomp.Sched.{
  Line, Sched, Event, line_clocks, sched_lines, sched_vblank_line, sched_hdma_clock, sched_height,
}
use ct_recomp.Sched.{
  begin_drawing, oam_reload, present_copied, hdma_init_called, run_line, draw_rest, do_hdma,
  apu_caught_up, frame_hook_called, frame_yielded,
}
use ct_recomp.Sched.Joypad.{autojoy_arm, autojoy_update}
use ct_recomp.Sched.Irq.{irq_clock}
use ct_recomp.Sched.Registers.{bit7}

abbrev pub refresh_clocks : ℕ
refresh_clocks = 40

-- A call of a device or a hook.
unfoldable pub emit : Event → Sched → Sched
emit e s = record s { events = s.events ++ (e ∷ []) }

-- The parts of `start_line`: line 0, line 225, the joypads, the row drawn. Its reset hook is left out.
unfoldable pub frame_start : Sched → Sched
frame_start s =
    if s.place.line == 0
    then emit hdma_init_called (
        emit begin_drawing (record s {
          place = record s.place { rdnmi_set = false; rdnmi_cleared = false };
          ports = record s.ports { in_vblank = false };
        }))
    else s

unfoldable pub vblank_start : Sched → Sched
vblank_start s =
    if s.place.line == sched_vblank_line
    then emit oam_reload (
        emit present_copied (
          emit draw_rest (record s {
            ports = record s.ports { in_vblank = true };
            joypads = autojoy_arm s.place.line_start s.joypads;
          })))
    else s

unfoldable pub read_pads : Sched → Sched
read_pads s = record s { joypads = autojoy_update s.ports.nmitimen s.place.line_start s.joypads }

unfoldable pub run_row : Sched → Sched
run_row s = if leb s.place.line sched_height then emit (run_line s.place.line) s else s

unfoldable pub start_line : Sched → Sched
start_line s = run_row (read_pads (vblank_start (frame_start s)))

-- The assignments of `begin_line`, with the timer's clock.
unfoldable pub begun : Option ℕ → Sched → Sched
begun at s = record s {
  place = record s.place {
    irq_at = at;
    irq_done = elim at [ none ↦ true | some k ↦ false ];
    hblank_done = false;
    init_done = not (s.place.line == 0);
    nmi_done = not (s.place.line == sched_vblank_line);
    refresh_at = 530 + 8 - s.place.line_start % 8;
    refresh_done = false;
  };
}

-- `begin_line`; `none` is the `ct_fatal` of the H/V timer.
unfoldable pub begin_line : Sched → Option Sched
begin_line s =
    let s' = start_line s in
    elim (irq_clock s'.ports s'.place) [ none ↦ none | some at ↦ some (begun at s') ]

-- The clock part of the end of a line: the next line, and the next frame after the last.
unfoldable pub next_line : Line → Line
next_line l =
    let len = line_clocks l in
    let l' = record l {
      hclock = l.hclock - len;
      line_start = l.line_start + len;
      line = l.line + 1;
    } in
    if l'.line == sched_lines
    then record l' {
      line = 0;
      frames = l.frames + 1;
      frame_clock = l'.line_start;
      frame_done = true;
    }
    else l'

-- The end of a line in `advance` up to `begin_line`; `hooked` tells whether there is a frame hook.
unfoldable pub crossed : Bool → Sched → Sched
crossed hooked s =
    let s1 = emit apu_caught_up (record s { place = next_line s.place }) in
    if s.place.line + 1 == sched_lines && hooked
    then emit frame_hook_called (record s1 {
      edge_in_dma = ltb s1.dma_lo s1.place.line_start && ltb s1.place.line_start s1.dma_hi;
    })
    else s1

unfoldable pub end_line : Bool → Sched → Option Sched
end_line hooked s = elim (begin_line (crossed hooked s)) [
  | none ↦ none
  | some s' ↦ some (if s.place.line + 1 == sched_lines then emit frame_yielded s' else s')
]

-- The refresh in `advance`; `hclock` is a 32-bit unsigned.
unfoldable pub refresh : Line → Line
refresh l =
    if l.refresh_paid == 0
    then record l { hclock = u32 (l.hclock + refresh_clocks); refresh_done = true }
    else record l { refresh_paid = l.refresh_paid - 1; refresh_done = true }

-- The H/V timer in `advance`.
unfoldable pub raise_irq : Sched → Sched
raise_irq s = record s {
  ports = record s.ports { timeup = 0x80 };
  pend = record s.pend { irq_line = true };
  place = record s.place { irq_done = true };
}

-- Whether the timer's clock has come: `hclock >= irq_at`, for an IRQ that is not done.
unfoldable pub irq_due : Line → Bool
irq_due l = elim l.irq_at [ none ↦ false | some at ↦ leb at l.hclock ]

unfoldable pub irq_early : Line → Bool
irq_early l = elim l.irq_at [ none ↦ true | some at ↦ ltb at sched_hdma_clock ]

-- The other events of a line: the NMI flag set and cleared, the NMI, HBlank.
unfoldable pub set_rdnmi : Sched → Sched
set_rdnmi s = record s {
  ports = record s.ports { rdnmi = 0x80 };
  place = record s.place { rdnmi_set = true };
}

unfoldable pub clear_rdnmi : Sched → Sched
clear_rdnmi s = record s {
  ports = record s.ports { rdnmi = 0 };
  place = record s.place { rdnmi_cleared = true };
}

unfoldable pub nmi_event : Sched → Sched
nmi_event s =
    let arms = not s.walked && bit7 s.ports.nmitimen in
    record s {
      place = record s.place { nmi_done = true };
      pend = record s.pend { nmi_count = if arms then 1 else s.pend.nmi_count };
    }

unfoldable pub hblank : Sched → Sched
hblank s =
    let drawn = if ltb s.place.line sched_vblank_line then emit do_hdma (emit draw_rest s) else s in
    record drawn { place = record s.place { hblank_done = true } }

-- What a round of the loop of `advance` comes to: an event handled, the loop left, or `ct_fatal`.
pub data Round : Type 0 where
  goes stops : Sched → Round
  fails : Round

unfoldable pub round : Bool → Sched → Round
round hooked s =
    let l = s.place in
    if l.line == sched_vblank_line && not l.rdnmi_set && leb 2 l.hclock
    then goes (set_rdnmi s)
    else if l.line == 0 && not l.rdnmi_cleared && leb 2 l.hclock
    then goes (clear_rdnmi s)
    else if not l.nmi_done && leb 6 l.hclock
    then goes (nmi_event s)
    else if not l.refresh_done && leb l.refresh_at l.hclock
    then goes (record s { place = refresh l })
    else if not l.irq_done && irq_early l && irq_due l
    then goes (raise_irq s)
    else if not l.hblank_done && leb sched_hdma_clock l.hclock
    then goes (hblank s)
    else if not l.irq_done && irq_due l
    then goes (raise_irq s)
    else if leb (line_clocks l) l.hclock
    then elim (end_line hooked s) [ none ↦ fails | some s' ↦ goes s' ]
    else stops s

-- How the loop ends: `cut` when the fuel is out.
pub data Advanced : Type 0 where
  advanced : Sched → Advanced
  failed cut : Advanced

unfoldable pub rounds : ℕ → Bool → Sched → Advanced
rounds zero hooked s = cut
rounds (suc fuel) hooked s = elim (round hooked s) [
  | goes s' ↦ rounds fuel hooked s'
  | stops s' ↦ advanced s'
  | fails ↦ failed
]

-- `advance`, with the rounds that its loop may take; `hclock` and `clocks` are 32-bit unsigneds.
unfoldable pub advance : ℕ → Bool → ℕ → Sched → Advanced
advance fuel hooked clocks s =
    rounds fuel hooked
      (record s { place = record s.place { hclock = u32 (s.place.hclock + clocks) } })
