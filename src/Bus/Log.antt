-- ===== src/Bus/Log.antt =====
-- The access log of runtime/bus.c and the notes of runtime/hwlog.c.
use ct_recomp.Base.{ℕ, Bool, false, List, [], ◌∷◌, ◌++◌, ◌+◌, ◌==◌, ltb}
use ct_recomp.Base.{if◌then◌else◌, ◌||◌, bit_or, u8, u24, u32, update, length}
use ct_recomp.Bus.{Bus, Note, readonly_note, unused_note}
use ct_recomp.Bus.Map.{bus_access_clocks}

abbrev pub ct_bus_log : ℕ
ct_bus_log = 64

abbrev pub ct_bus_write : ℕ
ct_bus_write = 0x80

abbrev pub ct_bus_fetch : ℕ
ct_bus_fetch = 0x40

-- The head of `read8` and of `write8`: the access at `a` is timed, logged with its mark and counted.
unfoldable pub log_access : ℕ → ℕ → Bus → Bus
log_access a mark b =
    let ck = bus_access_clocks b.memsel (u24 a) in
    let entered =
      if ltb b.accesses ct_bus_log
      then record b {
        log = update b.log b.accesses (u8 (bit_or ck mark));
        wram_off = update b.wram_off b.accesses 0;
      }
      else b in
    record entered { clocks = u32 (b.clocks + ck); accesses = u32 (b.accesses + 1) }

same_note : Note → Note → Bool
same_note (readonly_note r) (readonly_note q) = r == q
same_note (unused_note r) (unused_note q) = r == q
same_note _ _ = false

noted : Note → List Note → Bool
noted n [] = false
noted n (m ∷ ms) = same_note m n || noted n ms

-- `hw_note`: each text once, at most `MAX_NOTES` of them.
unfoldable pub hw_note : Note → List Note → List Note
unfolding same_note noted
hw_note n notes =
    if noted n notes then notes else if ltb (length notes) 64 then notes ++ (n ∷ []) else notes
