-- ===== src/Adapter/ApuPorts.antt =====
-- The ports of the sound CPU in runtime/snes_adapter.c. `sync` is the call of `snes_apu_sync`, which
-- runs the SPC700 and with it `spc_cycle_end` and `spc_write`; `near` is the comparison, in floating
-- point, of the access's clock with the SPC700's count.
use ct_recomp.Base.{
  ℕ, Bool, true, false, Option, none, some, ◌+◌, ◌-◌, ◌*◌, ◌/◌, ◌==◌, ltb, if◌then◌else◌, u32,
  bit_and, update, not,
}
use ct_recomp.Adapter.{ApuSide}

-- `spc_host_run` in `snes_apu_catch_up`: how many cycles to run, if any, where `scaled` is
-- `master * SPC_HALF_PER_MASTER`, truncated, and `cycle` the SPC700's count. The comparison
-- `half < target` with `target = scaled - 1` has 1 added to both sides.
unfoldable pub catch_up_cycles : ℕ → ℕ → Option ℕ
catch_up_cycles scaled cycle =
    let half = 2 * cycle in
    if ltb (half + 1) scaled then some (u32 ((scaled - 1 - half + 1) / 2)) else none

unfoldable pub apu_reg_read : (ℕ → ApuSide → ApuSide) → ℕ → ApuSide → ℕ × ApuSide
apu_reg_read sync reg s = let s1 = sync 4 s in (s1.apu.out_ports (bit_and reg 3), s1)

unfoldable pub apu_reg_write :
    (ℕ → ApuSide → ApuSide) → (ApuSide → Bool) → ℕ → ℕ → ApuSide → ApuSide
apu_reg_write sync near reg v s =
    let s1 = sync 0 s in
    let p = bit_and reg 3 in
    let s2 = record s1 {
      port_new = update s1.port_new p v;
      apu = record s1.apu { in_ports = update s1.apu.in_ports p v };
    } in
    if s1.port_new p == v
    then s1
    else if near s2
    then record s2 { port_vis = update s2.port_vis p v }
    else record s2 { port_pending = true }

unfoldable pub inport_read : ℕ → ApuSide → ℕ
inport_read port s = s.port_vis port

-- The `memcpy` of four bytes.
unfoldable pub copy_ports : (ℕ → ℕ) → (ℕ → ℕ) → ℕ → ℕ
copy_ports from to k = if ltb k 4 then from k else to k

unfoldable pub spc_cycle_end : ApuSide → ApuSide
spc_cycle_end s =
    if s.port_pending
    then record s { port_vis = copy_ports s.port_new s.port_vis; port_pending = false }
    else s

-- The assignments of 0 to the ports `a` and `b`, in both arrays.
unfoldable pub clear_two : ℕ → ℕ → ApuSide → ApuSide
clear_two a b s = record s {
  port_new = update (update s.port_new b 0) a 0;
  port_vis = update (update s.port_vis b 0) a 0;
}

unfoldable pub spc_write : ℕ → ℕ → ApuSide → ApuSide
spc_write address v s =
    let s1 = if not (bit_and v 0x10 == 0) then clear_two 0 1 s else s in
    if not (address == 0xF1) then s else if not (bit_and v 0x20 == 0) then clear_two 2 3 s1 else s1
