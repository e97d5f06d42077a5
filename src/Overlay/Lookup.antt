-- ===== src/Overlay/Lookup.antt =====
-- Finding the overlay to run, runtime/overlay.c: the table, the check of the bytes with its cache,
-- and the lookup. `qsort` and the environment's CT_OVERLAYS are parameters of the model.
use ct_recomp.Base.{
  ℕ, zero, suc, Bool, true, false, Option, none, some, List, [], ◌∷◌, not, ◌+◌, ◌-◌, ◌*◌, ◌%◌, ◌^◌,
  ◌==◌, ◌&&◌, ◌||◌, if◌then◌else◌, length, get_or, update, long_addr,
}
use ct_recomp.Base.{◌>>>◌, bit_xor}
use ct_recomp.Cpu.{Cpu}
use ct_recomp.Sched.Native.{first_from}
use ct_recomp.Overlay.{OverlayFunc, Check, Overlays}

unfoldable pub overlay_entries : List OverlayFunc → List OverlayFunc
overlay_entries [] = []
overlay_entries (f ∷ fs) = let rest = overlay_entries fs in if f.compiled then f ∷ rest else rest

-- `overlay_init`, where `disabled` tells that CT_OVERLAYS is 0.
unfoldable pub overlay_init :
    (List OverlayFunc → List OverlayFunc) → Bool → List OverlayFunc → Overlays → Overlays
overlay_init qsort disabled fs o = record o {
  ovl = if disabled then [] else qsort (overlay_entries fs);
  cache = λ k. record { gens = 0; checked = false; valid = false };
}

-- The sum of `n` counters from page `p` on.
unfoldable pub sum_gens : ℕ → ℕ → (ℕ → ℕ) → ℕ
sum_gens zero p gen = 0
sum_gens (suc n) p gen = (gen p + sum_gens n (p + 1) gen) % 2 ^ 64

-- `page_gens`, with `ct_wram_gen`.
unfoldable pub page_gens : OverlayFunc → (ℕ → ℕ) → ℕ
page_gens f gen =
    let first = (f.lo % 0x20000) >>> 8 in
    let last = (f.hi % 0x20000) >>> 8 in sum_gens (last + 1 - first) first gen

-- The loop of `matches`, over `n` bytes from `a` on.
unfoldable pub hash_loop : ℕ → ℕ → ℕ → (ℕ → ℕ) → ℕ
hash_loop zero a h wram = h
hash_loop (suc n) a h wram =
    hash_loop n (a + 1) (bit_xor h (wram (a % 0x20000)) * 0x100000001B3 % 2 ^ 64) wram

unfoldable pub matches : OverlayFunc → (ℕ → ℕ) → Bool
matches f wram = hash_loop (f.hi + 1 - f.lo) f.lo 0xCBF29CE484222325 wram == f.hash

abbrev pub no_overlay : OverlayFunc
no_overlay = record { addr = 0; lo = 0; hi = 0; m = 0; x = 0; hash = 0; compiled = false }

abbrev pub entry : Overlays → ℕ → OverlayFunc
entry o k = get_or o.ovl k no_overlay

-- WRAM and its write counters.
pub record Wram : Type 0 where
  pub wram : ℕ → ℕ
  pub gen : ℕ → ℕ

-- The check that `valid` leaves in the cache.
unfoldable pub refreshed : Wram → OverlayFunc → Check → Check
refreshed w f c =
    let g = page_gens f w.gen in
    if not c.checked || not (c.gens == g)
    then record { gens = g; checked = true; valid = matches f w.wram }
    else c

-- `valid`: the answer is the `valid` of entry `k` of the cache after it.
unfoldable pub valid : Wram → ℕ → Overlays → Overlays
valid w k o = record o { cache = update o.cache k (refreshed w (entry o k) (o.cache k)) }

unfoldable pub first_at : ℕ → List OverlayFunc → ℕ
first_at at ovl = first_from (length ovl) (λ k. (get_or ovl k no_overlay).addr) at 0 (length ovl)

-- The loop of `overlay_lookup` over `n` entries from `k` on: the entry found, and the state.
unfoldable pub lookup_loop : ℕ → ℕ → ℕ → Cpu → Wram → Overlays → Option OverlayFunc × Overlays
lookup_loop zero k at c w o = (none, o)
lookup_loop (suc n) k at c w o =
    let f = entry o k in
    let fits = f.m == c.fm && f.x == c.fx in
    let o' = if fits then valid w k o else o in
    let rest = lookup_loop n (k + 1) at c w o' in
    if f.addr == at
    then (if fits && (o'.cache k).valid then (some f, record o' { overlay_last_idx = k }) else rest)
    else (none, o)

unfoldable pub overlay_lookup : Cpu → Wram → Overlays → Option OverlayFunc × Overlays
overlay_lookup c w o =
    let at = long_addr c.pb c.pc in
    let k = first_at at o.ovl in
    if c.fe == 1 || (not (c.pb == 0x7E) && not (c.pb == 0x7F)) || length o.ovl == 0
    then (none, o)
    else lookup_loop (length o.ovl - k) k at c w o

-- The loop of `overlay_state`: whether there is an entry, whether one is stale, and the state.
unfoldable pub state_loop :
    ℕ → ℕ → ℕ → ℕ → ℕ → Wram → Bool × Bool × Overlays → Bool × Bool × Overlays
state_loop zero k at m x w r = r
state_loop (suc n) k at m x w r =
    let f = entry r.2 k in
    let o' = valid w k r.2 in
    let r' : Bool × Bool × Overlays =
      if f.m == m && f.x == x then (true, if (o'.cache k).valid then r.1 else true, o') else r in
    let rest = state_loop n (k + 1) at m x w r' in if f.addr == at then rest else r

unfoldable pub overlay_state : ℕ → ℕ → ℕ → Wram → Overlays → Bool × Bool × Overlays
overlay_state addr m x w o =
    let k = first_at addr o.ovl in state_loop (length o.ovl - k) k addr m x w (false, false, o)
