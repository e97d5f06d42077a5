-- ===== src/Examples/Runtime.antt =====
-- The theorems about the scheduler, overlays, replay and input at concrete inputs.
use ct_recomp.Base.{
  ℕ, zero, suc, true, false, none, some, List, [], ◌∷◌, ◌++◌, ◌≡◌, refl, ◌+◌, ◌/◌, ◌%◌, ◌<◌, ◌≤◌,
  ◌==◌, if◌then◌else◌, length, min, arith, long_addr,
}
use mathlib.Core.Option.{some-ne-none}
use mathlib.Core.Bool.{true≢false}
use mathlib.Core.Path.{sym}
use ct_recomp.Base.{update}
use ct_recomp.Cpu.{Cpu}
use ct_recomp.Examples.{start}
use ct_recomp.Interp.Rest.{no_address, rest_rounds}
use ct_recomp.Interp.Returns.{After, rest_rounds-returns}
use ct_recomp.Bus.Hooked.{EndsWith, setup_reads, setup_writes, setup_hooks-Tables}
use ct_recomp.Bus.Setup.{setup_hooks}
use ct_recomp.Sched.{Joypads, Sched, Line, Ports, Pending}
use ct_recomp.Sched.Audio.{Ring, dsp_out, sched_audio_take}
use ct_recomp.Sched.Queue.{IsRing, samples, enqueue, dsp_out-samples, sched_audio_take-samples}
use ct_recomp.Sched.Joypad.{autojoy_arm, autojoy_update}
use ct_recomp.Sched.Reading.{HasRead, autojoy_update_compose, autojoy_update-joy}
use ct_recomp.Sched.Irq.{irq_clock_for}
use ct_recomp.Sched.Advance.{advance, advanced}
use ct_recomp.Sched.Clock.Events.{TimerIsModelled}
use ct_recomp.Sched.Clock.{Settled, advance-Settled}
use ct_recomp.Sched.Counters.{latch_counters, access_hv, ophct_read, stat78_read}
use ct_recomp.Sched.Latched.{joined, latch_counters-joined}
use ct_recomp.Bus.{Bus}
use ct_recomp.Sched.Walk.{Pass, passed, walk_pass}
use ct_recomp.Sched.Transfer.{walk_init}
use ct_recomp.Sched.Passing.{Walked, walk_pass-Walked}
use ct_recomp.Sched.Edge.{edge_wram, after_edge, journalled, roll_forward, put_back}
use ct_recomp.Sched.Rollback.{IsJournal, edge_wram-edge}
use ct_recomp.Sched.Profile.{Call, shadow_settle, shadow_push, shadow_rest}
use ct_recomp.Sched.Shadow.{IsShadow, profile-IsShadow}
use ct_recomp.Sched.Native.{Func, native_lookup}
use ct_recomp.Sched.Search.{IsSorted, key_of, find, native_lookup-find}
use ct_recomp.Overlay.{OverlayFunc, Overlays}
use ct_recomp.Overlay.Lookup.{Wram, overlay_lookup}
use ct_recomp.Overlay.Active.{watch, overlay_enter, overlay_leave, go_dormant}
use ct_recomp.Overlay.Watched.{AllWatched, Fits, overlay_enter-AllWatched, go_dormant-AllWatched}
use ct_recomp.Overlay.Matching.{Found, overlay_lookup-Found}
use ct_recomp.Replay.{Replay, replay_load, replay_buttons}
use ct_recomp.Replay.Record.{replay_rec_open, replay_rec_close}
use ct_recomp.Replay.Roundtrip.{record_from, held_from, no_script, record-replay_buttons}
use ct_recomp.Input.Filter.{KeyFilter, key_filter_key, key_filter_button}
use ct_recomp.Input.Clean.{IsClean, key_filter-IsClean}

rest_rounds_example :
    After
      (λ finished w'. (finished ≡ true) × (0x1FFF < w'.cpu.s))
      (rest_rounds (0x1FFF + 1) 100 (record { back = no_address; s = 0x1FFF }) start)
rest_rounds_example = rest_rounds-returns 0x1FFF 100 start

setup_hooks_example : EndsWith setup_reads setup_writes (setup_hooks start)
setup_hooks_example = setup_hooks-Tables start

-- A full ring.
abbrev full_ring : Ring
full_ring = record { ring = λ i. (i, i); ring_head = 5; ring_len = 8192 }

full_ring-IsRing : IsRing full_ring
full_ring-IsRing = record { head_fits = omega arith; len_fits = omega arith }

dsp_out_example :
    IsRing (dsp_out 1 2 full_ring)
    × (samples (dsp_out 1 2 full_ring) ≡ enqueue (1, 2) (samples full_ring))
dsp_out_example = dsp_out-samples 1 2 full_ring full_ring-IsRing

sched_audio_take_example :
    IsRing (sched_audio_take 100 full_ring).1
    × ((sched_audio_take 100 full_ring).0 ++ samples (sched_audio_take 100 full_ring).1
        ≡ samples full_ring)
    × (length (sched_audio_take 100 full_ring).0 ≡ min 8192 100)
sched_audio_take_example = sched_audio_take-samples 100 full_ring full_ring-IsRing

-- Up and A held on the first pad.
abbrev held_pads : Joypads
held_pads = record {
  pad = λ p. if p == 0 then 0x0880 else 0;
  joy = λ p. 0xFFFF;
  autojoy_busy = false;
  autojoy_step = 35;
  autojoy_on = false;
  autojoy_start = 0;
  autojoy_pad = λ p. 0;
}

autojoy_compose_example :
    autojoy_update 1 5000 (autojoy_update 1 1000 (autojoy_arm 0 held_pads))
    ≡ autojoy_update 1 5000 (autojoy_arm 0 held_pads)
autojoy_compose_example = autojoy_update_compose 1 1000 5000 (autojoy_arm 0 held_pads) (omega arith)

autojoy_joy_example : HasRead held_pads.pad (autojoy_update 1 5000 (autojoy_arm 0 held_pads))
autojoy_joy_example = autojoy_update-joy 1 0 5000 held_pads refl (omega arith)

-- The last line of a frame, with the NMI and an H timer at clock 418.
abbrev last_line : Line
last_line = record {
  line = 261;
  hclock = 1300;
  line_start = 356000;
  frames = 0;
  field_base = 0;
  frame_clock = 0;
  frame_done = false;
  nmi_done = true;
  rdnmi_set = true;
  rdnmi_cleared = true;
  refresh_at = 538;
  refresh_done = true;
  refresh_paid = 0;
  irq_at = some 418;
  irq_done = true;
  hblank_done = true;
  init_done = true;
}

abbrev timer_ports : Ports
timer_ports = record {
  nmitimen = 0x91;
  rdnmi = 0;
  timeup = 0;
  wrio = 0xFF;
  htime = 100;
  vtime = 0x1FF;
  lat_h = 0;
  lat_v = 0;
  lat_flag = 0;
  ophct_hi = 0;
  opvct_hi = 0;
  in_vblank = true;
}

abbrev no_pending : Pending
no_pending = record {
  delay = false;
  hdma = false;
  init = false;
  dma = false;
  hdma_cost = 0;
  init_cost = 0;
  dma_after = none;
  dma_sizes = [];
  nmi_count = 0;
  need_nmi = false;
  irq_line = false;
  prev_irq = false;
  nmi_after = none;
}

abbrev pub late : Sched
late = record {
  place = last_line;
  ports = timer_ports;
  joypads = held_pads;
  pend = no_pending;
  walked = false;
  dma_lo = 0;
  dma_hi = 0;
  edge_in_dma = false;
  edge_undo_from = none;
  events = [];
}

timer_ports-TimerIsModelled : TimerIsModelled timer_ports
unfolding irq_clock_for
timer_ports-TimerIsModelled = record { clock_of = λ ln e. some-ne-none _ e }

advance_example : (s' : Sched) × (advance 4400 true 3000 late ≡ advanced s') × Settled 3000 late s'
advance_example =
    advance-Settled 4400 true 3000 late timer_ports-TimerIsModelled (omega arith) (omega arith)
      (omega arith)

latch_counters_example :
    joined
      (ophct_read 0x5A (stat78_read 0 last_line (latch_counters 357040 last_line timer_ports)).1).0
      (ophct_read 0xA5
        (ophct_read 0x5A
          (stat78_read 0 last_line (latch_counters 357040 last_line timer_ports)).1).1).0
    ≡ min ((access_hv 357040 last_line).1 / 4) 339
latch_counters_example = latch_counters-joined 357040 0 0x5A 0xA5 last_line timer_ports

abbrev calls : List Call
calls = record { key = 0x80; s0 = 0x1FFD } ∷ record { key = 0x90; s0 = 0x1FFF } ∷ []

shadow_example :
    IsShadow 0x1FFF (shadow_settle 0x1FFF calls)
    × IsShadow 0x1FFF (shadow_push start.cpu calls)
    × IsShadow 0x1FFF (shadow_rest start.cpu 0x1FFF calls)
shadow_example = profile-IsShadow start.cpu 0x1FFF calls (omega arith) (omega arith)

-- Two variants of a function, then another function.
abbrev variant : ℕ → ℕ → Func
variant addr m = record {
  addr = addr;
  m = m;
  x = 0;
  db = none;
  dp = none;
  compiled = true;
  calls_extern = false;
}

abbrev pub table : List Func
table = variant 0x8000 1 ∷ variant 0x8000 0 ∷ variant 0x9000 0 ∷ []

table_ascends : (i j : ℕ) → i ≤ j → j < 3 → key_of table i ≤ key_of table j
table_ascends zero zero h k = omega arith
table_ascends zero (suc zero) h k = omega arith
table_ascends zero (suc (suc zero)) h k = omega arith
table_ascends zero (suc (suc (suc j))) h k = absurd (omega arith)
table_ascends (suc i) zero h k = absurd (omega arith)
table_ascends (suc zero) (suc zero) h k = omega arith
table_ascends (suc zero) (suc (suc zero)) h k = omega arith
table_ascends (suc zero) (suc (suc (suc j))) h k = absurd (omega arith)
table_ascends (suc (suc i)) (suc zero) h k = absurd (omega arith)
table_ascends (suc (suc zero)) (suc (suc zero)) h k = omega arith
table_ascends (suc (suc zero)) (suc (suc (suc j))) h k = absurd (omega arith)
table_ascends (suc (suc (suc i))) (suc (suc j)) h k = absurd (omega arith)

pub table-IsSorted : IsSorted 3 (key_of table)
table-IsSorted = record { ascends = table_ascends }

native_lookup_example : native_lookup true table start.cpu ≡ find start.cpu 0x8000 table
native_lookup_example = native_lookup-find table start.cpu table-IsSorted refl

-- An overlay function that runs, and one that is entered.
abbrev outer_func : OverlayFunc
outer_func = record {
  addr = 0x7E2000;
  lo = 0x7E2000;
  hi = 0x7E20FF;
  m = 0;
  x = 0;
  hash = 0;
  compiled = true;
}

abbrev inner_func : OverlayFunc
inner_func = record {
  addr = 0x7E3000;
  lo = 0x7E3000;
  hi = 0x7E30FF;
  m = 0;
  x = 0;
  hash = 0;
  compiled = true;
}

abbrev pub running : Overlays
running = record {
  ovl = outer_func ∷ inner_func ∷ [];
  cache = λ k. record { gens = 0; checked = false; valid = false };
  overlay_last_idx = 0;
  act = record { f = outer_func; idx = 0; s0 = 0x1FFF; dormant = false; lo = 0; len = 0 } ∷ [];
  watch_lo = 0x2000;
  watch_len = 0x100;
  wram_hit = false;
}

running-AllWatched : AllWatched running.act (watch running)
running-AllWatched = ((λ _ k c. record { above = c.above; below = omega (arith, c.below) }), tt)

overlay_enter_example :
    (o' : Overlays) × (overlay_enter inner_func 1 0x1FFC running ≡ some o')
    × AllWatched o'.act (watch o')
    × Fits (watch o')
    × (overlay_leave 1 o' ≡ running)
overlay_enter_example =
    overlay_enter-AllWatched inner_func 1 0x1FFC running (omega arith) (omega arith)
      (record { fits = omega arith }) running-AllWatched

go_dormant_example : AllWatched (go_dormant running).act (watch (go_dormant running))
go_dormant_example = go_dormant-AllWatched running (omega arith, tt) running-AllWatched

abbrev pub some_wram : Wram
some_wram = record { wram = λ a. a % 256; gen = λ p. 1 }

abbrev wram_cpu : Cpu
wram_cpu = record start.cpu { pb = 0x7E; pc = 0x2000 }

overlay_lookup_example :
    Found wram_cpu some_wram (long_addr 0x7E 0x2000) (overlay_lookup wram_cpu some_wram running)
overlay_lookup_example =
    overlay_lookup-Found wram_cpu some_wram running
      (record { current = λ k e. absurd (true≢false (sym e)) })

-- Start held for two frames, then nothing, then Start and B.
abbrev pads : List ℕ
pads = 0x1000 ∷ 0x1000 ∷ 0 ∷ 0x9000 ∷ []

record_example :
    (r : Replay) × (replay_load
        (replay_rec_close (record_from 1 pads replay_rec_open)).lines
        no_script
      ≡ some r)
    × ((f : ℕ) → replay_buttons r f ≡ held_from 1 pads (λ f. 0) f)
record_example =
    record-replay_buttons 1 pads (omega arith)
      (omega arith, (omega arith, (omega arith, (omega arith, tt))))

abbrev filter : KeyFilter
filter = record {
  held = λ k. k == 40;
  ignored = λ k. k == 41;
  pressed_at = λ k. 2000;
  last_button = 2001;
  controller = true;
}

filter-IsClean : IsClean filter
filter-IsClean = record { apart = λ k. ground arith }

key_filter_example :
    IsClean (key_filter_key 512 42 true 2002 filter) × IsClean (key_filter_button 512 2002 filter)
key_filter_example = key_filter-IsClean 512 42 2002 true filter filter-IsClean

walk_pass_example :
    (p : Pass) × (walk_pass 3400
        (record { enabled = true; cost = 18; init_cost = 28 })
        timer_ports
        2000
        0
        (walk_init late)
        no_pending
      ≡ passed p)
    × Walked 2000 (walk_init late) p.walk
unfolding walk_init
walk_pass_example =
    walk_pass-Walked 3400 (record { enabled = true; cost = 18; init_cost = 28 }) timer_ports 2000 0
      (walk_init late) no_pending timer_ports-TimerIsModelled (omega arith)

-- The second access of an instruction wrote 7 over 5 at 0x10, after the edge.
abbrev edge_bus : Bus
edge_bus = record start.bus {
  wram = update (λ i. 5) 0x10 7;
  accesses = 2;
  wram_off = λ k. 0x11;
  wram_old = λ k. 5;
  wram_new = λ k. 7;
}

edge_old : (k : ℕ) → k < 1 → 5 ≡ roll_forward edge_bus 1 k (λ i. 5) 16
unfolding roll_forward
edge_old zero h = refl
edge_old (suc k) h = absurd (omega arith)

edge_bus-IsJournal : IsJournal edge_bus 1 (λ i. 5)
unfolding journalled roll_forward put_back
edge_bus-IsJournal = record { olds = λ k h n. edge_old k h; now = λ i. refl }

edge_wram_example :
    ((i : ℕ) → edge_wram (some 1) edge_bus i ≡ 5)
    × ((i : ℕ) → after_edge (some 1) edge_bus i ≡ edge_bus.wram i)
edge_wram_example = edge_wram-edge edge_bus 1 (λ i. 5) edge_bus-IsJournal
