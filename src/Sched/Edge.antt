-- ===== src/Sched/Edge.antt =====
-- The frame edge in runtime/sched.c: the WRAM writes of the instruction that came after the edge
-- are rolled back while the frame hook runs (`edge_hook`).
use ct_recomp.Base.{ℕ, zero, suc, Option, none, some, ◌+◌, ◌-◌, ◌==◌, ltb, if◌then◌else◌, update}
use ct_recomp.Bus.{Bus}
use ct_recomp.Bus.Log.{ct_bus_log}

-- `if (ct_bus_wram_off[k]) w[ct_bus_wram_off[k] - 1] = v[k]`.
unfoldable pub put_back : (ℕ → ℕ) → (ℕ → ℕ) → ℕ → (ℕ → ℕ) → ℕ → ℕ
put_back off v k w = if off k == 0 then w else update w (off k - 1) (v k)

-- The loop down over the `m` accesses from `from` on, with the old bytes.
unfoldable pub roll_back : Bus → ℕ → ℕ → (ℕ → ℕ) → ℕ → ℕ
roll_back b from zero w = w
roll_back b from (suc m) w = roll_back b from m (put_back b.wram_off b.wram_old (from + m) w)

-- The loop up over them, with the new bytes.
unfoldable pub roll_forward : Bus → ℕ → ℕ → (ℕ → ℕ) → ℕ → ℕ
roll_forward b from zero w = w
roll_forward b from (suc m) w = put_back b.wram_off b.wram_new (from + m) (roll_forward b from m w)

-- The number of accesses of the journal from `from` on.
unfoldable pub journalled : Bus → ℕ → ℕ
journalled b from = (if ltb b.accesses ct_bus_log then b.accesses else ct_bus_log) - from

-- `edge_hook`: WRAM as the hook sees it, and as it is afterwards if the hook leaves it alone.
unfoldable pub edge_wram : Option ℕ → Bus → ℕ → ℕ
edge_wram none b = b.wram
edge_wram (some from) b = roll_back b from (journalled b from) b.wram

unfoldable pub after_edge : Option ℕ → Bus → ℕ → ℕ
after_edge none b = b.wram
after_edge (some from) b = roll_forward b from (journalled b from) (edge_wram (some from) b)
