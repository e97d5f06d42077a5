-- ===== src/Bus/Port.antt =====
-- Writes to WRAM with their bookkeeping, and the data port $2180-$2183, of runtime/bus.c.
use ct_recomp.Base.{ℕ, Option, none, some, ◌+◌, ◌-◌, ◌==◌, leb, ltb, ◌&&◌}
use ct_recomp.Base.{if◌then◌else◌, bit_and, bit_or, u32, sub32, ◌<<<◌, ◌>>>◌, update}
use ct_recomp.Bus.{Bus}
use ct_recomp.Bus.Log.{ct_bus_log}

-- The journal entry of `wram_store`: the write is the access counted last.
unfoldable pub journal : ℕ → ℕ → Bus → Bus
journal off v b =
    if leb 1 b.accesses && leb b.accesses ct_bus_log
    then record b {
      wram_off = update b.wram_off (b.accesses - 1) (u32 (off + 1));
      wram_old = update b.wram_old (b.accesses - 1) (b.wram off);
      wram_new = update b.wram_new (b.accesses - 1) v;
    }
    else b

-- `wram_store` without the test hook.
unfoldable pub wram_store : ℕ → ℕ → Bus → Bus
wram_store off v b =
    let hit = if ltb (sub32 off b.watch_lo) b.watch_len then 1 else b.wram_hit in
    let b1 = record b {
      wram_gen = update b.wram_gen (off >>> 8) (u32 (b.wram_gen (off >>> 8) + 1));
      wram_hit = hit;
    } in
    let b2 = journal off v b1 in record b2 { wram = update b2.wram off v }

-- `wram_port_read`: the byte, and the port moved on.
unfoldable pub wram_port_read : Bus → ℕ × Bus
wram_port_read b = (
  b.wram (bit_and b.wram_port_addr 0x1FFFF),
  record b { wram_port_addr = bit_and (b.wram_port_addr + 1) 0x1FFFF },
)

-- `wram_port_write`; `none` is its `ct_fatal`.
unfoldable pub wram_port_write : ℕ → ℕ → Bus → Option Bus
wram_port_write reg v b =
    if reg == 0x2180
    then (let b' = wram_store (bit_and b.wram_port_addr 0x1FFFF) v b in
        some (record b' { wram_port_addr = bit_and (b'.wram_port_addr + 1) 0x1FFFF }))
    else if reg == 0x2181
    then some (record b { wram_port_addr = bit_or (bit_and b.wram_port_addr 0x1FF00) v })
    else if reg == 0x2182
    then some (record b { wram_port_addr = bit_or (bit_and b.wram_port_addr 0x100FF) (v <<< 8) })
    else if reg == 0x2183
    then some (record b {
      wram_port_addr = bit_or (bit_and b.wram_port_addr 0x0FFFF) (bit_and v 1 <<< 16);
    })
    else none
