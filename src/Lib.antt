-- ===== src/Lib.antt =====
-- The runtime of ct-recomp: 65816 machine code that was translated to C, the interpreter that
-- runs what was not translated, the memory bus and cycle model below both, and the scheduler that
-- places their clocks in the lines and frames of the console.
--
-- Parts and files. The state of the program's C variables is the record Machine (Machine.antt):
-- registers, bus, cycle model, control state, and the linked code. A C function that changes state
-- is a function from a machine to a Result: a value and a machine, or the ct_fatal that it ends in.
--   Cpu            runtime/cpu.h, runtime/cpu.c: CPU, cpu_init
--   Bus, Memory    runtime/bus.c, runtime/hwlog.c: decode_addr, bus_access_clocks, read8, write8,
--                  bus_peek, math_write, math_read, the WRAM port, the access log, hw_note
--   Ops            runtime/ops.h: the operations that translated code calls
--   Cycles         runtime/cycles.c: the tables, cyc_begin to cyc_finish, cyc_cycles
--   Interp         runtime/interp.c: decoding, addressing, instructions, calls, interp_call,
--                  interp_step, interp_interrupt, interp_reset; Interp/Total.antt and
--                  Interp/Stack.antt hold lemmas on calls that return and on the stack
--   Sched          runtime/sched.c: the clock of a frame (advance), the registers $4200-$421F and
--                  the counters, the automatic joypad read, the walk of an instruction's cycles
--                  (walk_pass, walk_pending, walk_insn), charge and wai_cycle, the frame edge, the
--                  reset button, the audio ring, the profile, native_lookup; exec_one and
--                  exec_hook (Sched/Dispatch.antt), tick (Sched/Tick.antt) on the state World;
--                  the tail jumps of cpu.h and the rests of overlay.c (Sched/Jumps.antt)
--   Overlay        runtime/overlay.c, overlay.h: table, checks, lookup, the watched range
--   Replay         runtime/replay.c: spans, recorder
--   Input          frontend/input.c: pad bits, key filter
--   Png            runtime/png.c: checksums, the zlib stream, chunks, png_write_bgrx, png_dump_frame;
--                  Png/Reader.antt is a reader from the formats' definitions
--   Adapter        runtime/snes_adapter.c: OAM, VRAM and CGRAM ports, sound ports, DMA registers, the
--                  clocks of HDMA, resets
--   Sound          the invariant IsMachine and its proofs, by function
--   Agree          ops.h against interp.c
--   Examples       a concrete machine, and the theorems at concrete inputs
--   Base           shared names, words, and lemmas on bits
--
-- Linked code. In the machine, devices (runtime/snes_adapter.c and the vendored chips), extern
-- hooks and jump tables are the field `link` of the machine. IsLink in Sound/State.antt says what
-- is asked of them: a device's read returns a byte, and no function of theirs leaves a register or
-- a byte too wide.
--
-- Choices. A w-bit value is a native number with the wrap-around written out. An array is a
-- function of the index. ct_trace_hook and ct_wram_write_hook are taken as unset, and in the
-- operations of Ops ct_tick_hook. C leaves the order open in `read8(a) | read8(a + 1) << 8`; the
-- left operand is read first here. The switch of `step` is a decoder to the data type Instr and a
-- function on it. The loop of interp_call counts dispatch_cap down, so it recurses on the cap; the
-- loop of mvn16 recurses on A + 1 rounds, and mvn_rounds-enough says that its end never is that
-- bound; the walk of cyc_cycles recurses on the letters. The loop of ct_interp_rest recurses on s0
-- + 1 rounds, which rest_rounds-returns says are enough. The loop of advance recurses on fuel, and
-- advance-Settled says how much is enough; the loop of autojoy_update has at most 35 steps. The
-- loop of walk_pass recurses on fuel too, and walk_pass-Walked says how much is enough. 64-bit
-- clocks and frame counts are natural numbers, which do not wrap; hclock and the clocks of advance
-- and charge are 32 bits wide. The `int max` of sched_audio_take is a natural number, as its
-- callers pass constants above 0. The scheduler's calls of the devices and of the host are a list
-- of events; what the DMA device answers, the sorting of a table, the numbers of the SDL library,
-- the C library's files and the vendored chips are parameters. The blocks of the zlib stream
-- recurse on the bytes left. Under the scheduler a recompiled function is a parameter (Env) that
-- runs to its end, with its ticks; the loops of the dispatch wait for a program's own RTI or
-- return, so they recurse on a bound, and a run that the bound cuts is `none`, as is one that ends
-- in ct_fatal.
--
-- Not modelled: bus_init (it reads a file), cyc_check; of the scheduler, the start, the coroutine of
-- the CPU, note_stack (the depth of the C stack) and the profile's report but for its reasons; the
-- parsing and printing of a replay's text; the host of the sound CPU, resampling, sound files, the
-- window of the frontend, the Python translator, the tools and the vendored chips.
pub mod Base
pub mod Cpu
pub mod Bus
pub mod Machine
pub mod Memory
pub mod Ops
pub mod Png
pub mod Cycles
pub mod Interp
pub mod Sound
pub mod Sched
pub mod Overlay
pub mod Replay
pub mod Input
pub mod Adapter
pub mod Agree
pub mod Examples
