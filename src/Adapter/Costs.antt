-- ===== src/Adapter/Costs.antt =====
-- The CPU time of HDMA, runtime/snes_adapter.c, against the bytes that its channels move.
use ct_recomp.Base.{
  ℕ, zero, suc, Bool, true, false, List, ◌≡◌, refl, sym, ◌+◌, ◌-◌, long_addr, ◌*◌, ◌%◌, ◌^◌, ◌≤◌,
  ◌<◌, ◌==◌, ◌∷◌, [], get_or, length, u16, bit_and, arith, if_both, if◌then◌else◌, not, ◌&&◌,
  ==_true, ==_false,
}
use ct_recomp.Base.Bits.{bit_and-mask}
use ct_recomp.Adapter.{Dma, Channel}
use ct_recomp.Adapter.DmaPorts.{
  hdma_len, transfer_clocks, transfers_from, reload_clocks, reloads_from, snes_hdma_cost,
  init_clocks, inits_from, snes_hdma_init_cost, last_from, next_counter,
}

-- The registers, from the channel's own on, that one transfer of each mode writes, in order.
abbrev pub patterns : List (List ℕ)
patterns =
    (0 ∷ [])
    ∷ (0 ∷ 1 ∷ [])
    ∷ (0 ∷ 0 ∷ [])
    ∷ (0 ∷ 0 ∷ 1 ∷ 1 ∷ [])
    ∷ (0 ∷ 1 ∷ 2 ∷ 3 ∷ [])
    ∷ (0 ∷ 1 ∷ 0 ∷ 1 ∷ [])
    ∷ (0 ∷ 0 ∷ [])
    ∷ (0 ∷ 0 ∷ 1 ∷ 1 ∷ [])
    ∷ []

-- Whether a channel still has lines to transfer in this frame.
abbrev pub running : Channel → Bool
running ch = ch.hdma_active && not ch.terminated

-- The last running channel of the `k` from `c` on, or else `so_far`.
unfoldable pub last_running : ℕ → ℕ → Dma → ℕ → ℕ
last_running zero c d so_far = so_far
last_running (suc k) c d so_far =
    last_running k (c + 1) d (if running (d.channel c) then c else so_far)

-- The bytes that a channel moves in a line: those of its transfer, then those that it reads of its
-- table, the line counter and, where the counter has run out, the indirect address. Of the address
-- the last running channel reads one byte only, if its new counter is 0.
unfoldable pub transfer_bytes : Channel → ℕ
transfer_bytes ch =
    if running ch && ch.do_transfer then length (get_or patterns (ch.mode % 8) []) else 0

unfoldable pub table_bytes : (ℕ → ℕ) → ℕ → ℕ → Channel → ℕ
table_bytes peek last c ch =
    if not (running ch)
    then 0
    else if ch.indirect && ch.rep_count % 128 == 1
    then (if peek (long_addr ch.a_bank (u16 ch.table_adr)) == 0 && last == c then 2 else 3)
    else 1

-- Those of the init of a frame, which every enabled channel takes part in.
unfoldable pub init_bytes : (ℕ → ℕ) → Channel → ℕ
init_bytes peek ch =
    if not ch.hdma_active
    then 0
    else if not ch.indirect
    then 1
    else if peek (long_addr ch.a_bank ch.a_adr) == 0
    then 2
    else 3

-- A sum over the eight channels.
unfoldable pub over_channels : (ℕ → ℕ) → ℕ
over_channels f = f 0 + f 1 + f 2 + f 3 + f 4 + f 5 + f 6 + f 7

mode_len :
    (i : ℕ)
    → i < 8
    → get_or (1 ∷ 2 ∷ 2 ∷ 4 ∷ 4 ∷ 4 ∷ 2 ∷ 4 ∷ []) i 0 ≡ length (get_or patterns i [])
mode_len zero h = refl
mode_len (suc zero) h = refl
mode_len (suc (suc zero)) h = refl
mode_len (suc (suc (suc zero))) h = refl
mode_len (suc (suc (suc (suc zero)))) h = refl
mode_len (suc (suc (suc (suc (suc zero))))) h = refl
mode_len (suc (suc (suc (suc (suc (suc zero)))))) h = refl
mode_len (suc (suc (suc (suc (suc (suc (suc zero))))))) h = refl
mode_len (suc (suc (suc (suc (suc (suc (suc (suc i)))))))) h = absurd (omega arith)

hdma_len-patterns : (mode : ℕ) → hdma_len mode ≡ length (get_or patterns (mode % 8) [])
unfolding hdma_len
hdma_len-patterns mode =
    let e : bit_and mode 7 ≡ mode % 8 = bit_and-mask 3 mode in
    rw e (mode_len (mode % 8) (omega arith))

transfer_clocks-bytes : (ch : Channel) → transfer_clocks ch ≡ 8 * transfer_bytes ch
unfolding transfer_clocks transfer_bytes
transfer_clocks-bytes ch = ground (arith, hdma_len-patterns ch.mode)

init_clocks-bytes : (peek : ℕ → ℕ) (ch : Channel) → init_clocks peek ch ≡ 8 * init_bytes peek ch
unfolding init_clocks init_bytes
init_clocks-bytes peek ch = ground arith

last_running-grows :
    (k c : ℕ) (d : Dma) (so_far : ℕ) → so_far ≤ c → so_far ≤ last_running k c d so_far
unfolding last_running
last_running-grows zero c d n h = omega arith
last_running-grows (suc k) c d n h =
    if_both (λ (m : ℕ). n ≤ last_running k (c + 1) d m) (running (d.channel c)) c n
      (λ e. omega (arith, last_running-grows k (c + 1) d c (omega arith)))
      (λ e. last_running-grows k (c + 1) d n (omega arith))

-- No later channel runs exactly when the last running one is this one.
last_from-last : (k c : ℕ) (d : Dma) (n : ℕ) → n < c → last_from k c d ≡ (last_running k c d n == n)
unfolding last_from last_running
last_from-last zero c d n h = sym (==_true n n refl)
last_from-last (suc k) c d n h =
    split (running (d.channel c)) (last_from-last k (c + 1) d n (omega arith))
  where
    split :
        (b : Bool)
        → last_from k (c + 1) d ≡ (last_running k (c + 1) d n == n)
        → (not b && last_from k (c + 1) d) ≡ (last_running k (c + 1) d (if b then c else n) == n)
    split true e = sym (
        ==_false (last_running k (c + 1) d c) n
          (ground (arith, last_running-grows k (c + 1) d c (omega arith))))
    split false e = e

reload_clocks-bytes :
    (peek : ℕ → ℕ) (k c : ℕ) (d : Dma) (last : ℕ)
    → (running (d.channel c) ≡ true → last_from k (c + 1) d ≡ (last == c))
    → reload_clocks peek k (c + 1) d (d.channel c) ≡ 8 * table_bytes peek last c (d.channel c)
unfolding reload_clocks table_bytes next_counter
reload_clocks-bytes peek k c d last h =
    ground (arith, bit_and-mask 7 ((d.channel c).rep_count + 2 ^ 32 - 1))

-- The sum of the second loop, from a channel on.
unfoldable tables_from : (ℕ → ℕ) → ℕ → ℕ → ℕ → Dma → ℕ
tables_from peek last zero c d = 0
tables_from peek last (suc k) c d =
    table_bytes peek last c (d.channel c) + tables_from peek last k (c + 1) d

reloads_from-bytes :
    (peek : ℕ → ℕ) (k c : ℕ) (d : Dma) (n so_far : ℕ)
    → reloads_from peek k c d n ≡ n + 8 * tables_from peek (last_running k c d so_far) k c d
unfolding reloads_from tables_from last_running
reloads_from-bytes peek zero c d n m = omega arith
reloads_from-bytes peek (suc k) c d n m =
    let l = last_running k (c + 1) d (if running (d.channel c) then c else m) in
    omega (
      arith,
      reloads_from-bytes peek k (c + 1) d (n + reload_clocks peek k (c + 1) d (d.channel c))
          (if running (d.channel c) then c else m),
      reload_clocks-bytes peek k c d l (λ e. rw e (last_from-last k (c + 1) d c (omega arith))),
    )

-- For any state of the channels and any memory, the clocks of a line's HDMA are 8, and 8 for each
-- byte that the eight channels move: where a channel is active and not terminated, the bytes of
-- its mode if it transfers in this line, its line counter, and, for an indirect channel whose
-- counter has run out, the two bytes of its address, or one if the new counter is 0 and it is the
-- last of these channels. Those of the frame's HDMA init are 8, and 8 for each byte read: for an
-- active channel its first line counter, and, if it is indirect, the two bytes of its address, or
-- one if that counter is 0.
pub hdma_costs-bytes :
    (peek : ℕ → ℕ) (d : Dma)
    → (snes_hdma_cost peek d
        ≡ 8
          + 8 * over_channels (λ c. transfer_bytes (d.channel c))
          + 8 * over_channels (λ c. table_bytes peek (last_running 8 0 d 8) c (d.channel c)))
      × (snes_hdma_init_cost peek d ≡ 8 + 8 * over_channels (λ c. init_bytes peek (d.channel c)))
unfolding snes_hdma_cost snes_hdma_init_cost over_channels tables_from transfers_from inits_from
hdma_costs-bytes peek d = (
  omega (arith, reloads_from-bytes peek 8 0 d (transfers_from 8 0 d 8) 8, transfer_clocks-bytes),
  omega (arith, init_clocks-bytes peek),
)
