-- ===== src/Sched/Irq.antt =====
-- The clock of a line at which its H/V timer raises the IRQ line: `irq_clock_for` of
-- runtime/sched.c.
use ct_recomp.Base.{ℕ, Option, none, some, ◌+◌, ◌*◌, ◌%◌, ◌==◌, leb, ltb, not, ◌&&◌, if◌then◌else◌}
use ct_recomp.Base.{◌>>>◌}
use ct_recomp.Sched.{Ports, Line}

-- `none` is the `ct_fatal` at HTIME 337-339, `some none` is -1.
unfoldable pub irq_clock_for : Ports → ℕ → Option (Option ℕ)
irq_clock_for p ln =
    let mode = (p.nmitimen >>> 4) % 4 in
    if mode == 0
    then some none
    else if mode == 2
    then some (if ln == p.vtime then some (if p.vtime == 0 then 10 else 14) else none)
    else if mode == 3 && not (ln == p.vtime)
    then some none
    else if ltb 339 p.htime
    then some none
    else if leb 337 p.htime
    then none
    else some (some (18 + 4 * p.htime))

unfoldable pub irq_clock : Ports → Line → Option (Option ℕ)
irq_clock p l = irq_clock_for p l.line
