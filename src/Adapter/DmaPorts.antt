-- ===== src/Adapter/DmaPorts.antt =====
-- The DMA registers and the CPU time of HDMA in runtime/snes_adapter.c: `mdmaen_write`,
-- `snes_hdma_enabled`, `snes_hdma_cost`, `snes_hdma_init_cost`. `dma_read`, `dma_write`,
-- `dma_startDma` and `dma_doDma` are parameters; `peek` is `bus_peek`.
use ct_recomp.Base.{
  ℕ, zero, suc, Bool, true, false, Option, none, some, List, [], ◌∷◌, ◌+◌, ◌-◌, ◌*◌, ◌^◌, ◌==◌, leb,
  ◌&&◌, ◌||◌, if◌then◌else◌, get_or, u16, ◌<<<◌, bit_and, bit_or, long_addr, not,
}
use ct_recomp.Bus.{Bus}
use ct_recomp.Adapter.{Dma, Channel}
use ct_recomp.Sched.Walk.{HdmaAnswers}

-- $43xC-$43xE.
unfoldable pub unused_reg : ℕ → Bool
unused_reg reg = leb 0xC (bit_and reg 0xF) && leb (bit_and reg 0xF) 0xE

unfoldable pub dma_reg_read : (ℕ → Dma → ℕ) → ℕ → ℕ → Dma → ℕ
dma_reg_read dma_read open_bus reg d =
    if unused_reg reg then open_bus else dma_read (reg - 0x4300) d

-- The state, and the register of `bus_unused_write` if it is called.
unfoldable pub dma_reg_write : (ℕ → ℕ → Dma → Dma) → ℕ → ℕ → Dma → Dma × Option ℕ
dma_reg_write dma_write reg v d =
    if unused_reg reg then (d, some reg) else (dma_write (reg - 0x4300) v d, none)

-- One entry of `sizes` in `mdmaen_write`.
unfoldable pub dma_size : (ℕ → ℕ) → ℕ → ℕ → ℕ
dma_size dma_read v c =
    if bit_and v (1 <<< c) == 0
    then 0
    else (let size = bit_or (dma_read (c * 16 + 5)) (dma_read (c * 16 + 6) <<< 8) in
        if size == 0 then 0x10000 else size)

unfoldable pub dma_sizes : (ℕ → ℕ) → ℕ → ℕ → ℕ → List ℕ
dma_sizes dma_read v zero c = []
dma_sizes dma_read v (suc n) c = dma_size dma_read v c ∷ dma_sizes dma_read v n (c + 1)

-- `mdmaen_write`: the bus after it, and the sizes that `snes_dma_start` is given, if it is called.
-- `transfer` is `dma_startDma` and the loop of `dma_doDma`.
unfoldable pub mdmaen_write : (ℕ → ℕ) → (ℕ → Bus → Bus) → Bool → ℕ → Bus → Bus × Option (List ℕ)
mdmaen_write dma_read transfer started v b = (
  record (transfer v b) { clocks = b.clocks; accesses = b.accesses },
  if not (v == 0) && started then some (dma_sizes dma_read v 8 0) else none,
)

-- `hdmaen_write`, with `dma_startDma`.
unfoldable pub hdmaen_write : (ℕ → Bool → Dma → Dma) → ℕ → Dma → Dma
hdmaen_write dma_start_dma v d = dma_start_dma v true d

-- `hdma_len`.
unfoldable pub hdma_len : ℕ → ℕ
hdma_len mode = get_or (1 ∷ 2 ∷ 2 ∷ 4 ∷ 4 ∷ 4 ∷ 2 ∷ 4 ∷ []) (bit_and mode 7) 0

-- The loops over the channels count `n` channels from `c` on.
unfoldable pub enabled_from : ℕ → ℕ → Dma → Bool
enabled_from zero c d = false
enabled_from (suc n) c d = (d.channel c).hdma_active || enabled_from n (c + 1) d

unfoldable pub snes_hdma_enabled : Dma → Bool
snes_hdma_enabled d = enabled_from 8 0 d

-- One round of the first loop of `snes_hdma_cost`, and the loop.
unfoldable pub transfer_clocks : Channel → ℕ
transfer_clocks ch =
    if ch.hdma_active && not ch.terminated && ch.do_transfer then 8 * hdma_len ch.mode else 0

unfoldable pub transfers_from : ℕ → ℕ → Dma → ℕ → ℕ
transfers_from zero c d n = n
transfers_from (suc k) c d n = transfers_from k (c + 1) d (n + transfer_clocks (d.channel c))

-- `last`: no later channel is still active.
unfoldable pub last_from : ℕ → ℕ → Dma → Bool
last_from zero c d = true
last_from (suc n) c d =
    not ((d.channel c).hdma_active && not (d.channel c).terminated) && last_from n (c + 1) d

-- The address of the next counter in the table.
unfoldable pub next_counter : Channel → ℕ
next_counter ch =
    long_addr ch.a_bank
      (u16 (ch.table_adr + (if ch.do_transfer && not ch.indirect then hdma_len ch.mode else 0)))

-- One round of the second loop, with `k` channels after this one, the first of them `c'`.
unfoldable pub reload_clocks : (ℕ → ℕ) → ℕ → ℕ → Dma → Channel → ℕ
reload_clocks peek k c' d ch =
    if not ch.hdma_active || ch.terminated
    then 0
    else if not (bit_and (ch.rep_count + 2 ^ 32 - 1) 0x7F == 0) || not ch.indirect
    then 8
    else 8 + (if peek (next_counter ch) == 0 && last_from k c' d then 8 else 16)

unfoldable pub reloads_from : (ℕ → ℕ) → ℕ → ℕ → Dma → ℕ → ℕ
reloads_from peek zero c d n = n
reloads_from peek (suc k) c d n =
    reloads_from peek k (c + 1) d (n + reload_clocks peek k (c + 1) d (d.channel c))

unfoldable pub snes_hdma_cost : (ℕ → ℕ) → Dma → ℕ
snes_hdma_cost peek d = reloads_from peek 8 0 d (transfers_from 8 0 d 8)

unfoldable pub init_clocks : (ℕ → ℕ) → Channel → ℕ
init_clocks peek ch =
    if not ch.hdma_active
    then 0
    else 8
      + (if ch.indirect then (if peek (long_addr ch.a_bank ch.a_adr) == 0 then 8 else 16) else 0)

unfoldable pub inits_from : (ℕ → ℕ) → ℕ → ℕ → Dma → ℕ → ℕ
inits_from peek zero c d n = n
inits_from peek (suc k) c d n = inits_from peek k (c + 1) d (n + init_clocks peek (d.channel c))

unfoldable pub snes_hdma_init_cost : (ℕ → ℕ) → Dma → ℕ
snes_hdma_init_cost peek d = inits_from peek 8 0 d 8

-- What the scheduler's walk asks of the device.
unfoldable pub hdma_answers : (ℕ → ℕ) → Dma → HdmaAnswers
hdma_answers peek d = record {
  enabled = snes_hdma_enabled d;
  cost = snes_hdma_cost peek d;
  init_cost = snes_hdma_init_cost peek d;
}
