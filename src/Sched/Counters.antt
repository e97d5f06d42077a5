-- ===== src/Sched/Counters.antt =====
-- The H/V counters of runtime/sched.c: `access_hv`, `ppu_dot`, the latch and the reads of $2137,
-- $213C, $213D and $213F. `at` is the clock that `access_clock` gives, `mdr` the open bus of PPU2,
-- which the device code keeps: the functions that set it return the value that they set it to.
use ct_recomp.Base.{ℕ, ◌+◌, ◌-◌, ◌/◌, ◌%◌, ◌==◌, leb, ltb, ◌&&◌, if◌then◌else◌}
use ct_recomp.Base.{bit_and, bit_or, bit_xor, u8, ◌<<<◌, ◌>>>◌}
use ct_recomp.Sched.{Line, Ports, sched_lines, line_clocks}

-- `access_hv`: the line and the clock in it.
unfoldable pub access_hv : ℕ → Line → ℕ × ℕ
access_hv at l =
    let h = if leb l.line_start at then at - l.line_start else 0 in
    if leb (line_clocks l) h
    then (if l.line + 1 == sched_lines then 0 else l.line + 1, h - line_clocks l)
    else (l.line, h)

unfoldable pub ppu_dot : ℕ → Line → ℕ
ppu_dot at l =
    let h = if leb l.line_start at then at - l.line_start else 0 in
    if leb (line_clocks l) h
    then 400
    else if leb h 1292
    then h >>> 2
    else if leb h 1310
    then (h - 2) >>> 2
    else (h - 4) >>> 2

unfoldable pub latch_counters : ℕ → Line → Ports → Ports
latch_counters at l p =
    let place = access_hv at l in
    let dot = place.1 / 4 in
    record p { lat_h = if ltb 339 dot then 339 else dot; lat_v = place.0; lat_flag = 1 }

-- `slhv_read` without the open-bus value that it returns.
unfoldable pub slhv_read : ℕ → Line → Ports → Ports
slhv_read at l p = if leb 128 (p.wrio % 256) then latch_counters at l p else p

-- `counter_read`: the byte, which is also the new open bus, and the flip-flop.
unfoldable pub counter_read : ℕ → ℕ → ℕ → ℕ × ℕ
counter_read mdr v9 hi =
    (if hi == 0 then u8 v9 else u8 (bit_or (bit_and mdr 0xFE) (bit_and (v9 >>> 8) 1)), bit_xor hi 1)

unfoldable pub ophct_read : ℕ → Ports → ℕ × Ports
ophct_read mdr p = let r = counter_read mdr p.lat_h p.ophct_hi in (r.0, record p { ophct_hi = r.1 })

unfoldable pub opvct_read : ℕ → Ports → ℕ × Ports
opvct_read mdr p = let r = counter_read mdr p.lat_v p.opvct_hi in (r.0, record p { opvct_hi = r.1 })

unfoldable pub stat78_read : ℕ → Line → Ports → ℕ × Ports
stat78_read mdr l p = (
  u8 (
      bit_or
        (bit_or (bit_or (((l.frames - l.field_base) % 2) <<< 7) (p.lat_flag <<< 6))
          (bit_and mdr 0x20))
        3),
  record p { lat_flag = 0; ophct_hi = 0; opvct_hi = 0 },
)

unfoldable pub rdio_read : Ports → ℕ
rdio_read p = p.wrio

unfoldable pub wrio_write : ℕ → ℕ → Line → Ports → Ports
wrio_write at v l p =
    let latched =
      if leb 128 (p.wrio % 256) && ltb (v % 256) 128 then latch_counters at l p else p in
    record latched { wrio = v }
