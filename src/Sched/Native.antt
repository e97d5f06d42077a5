-- ===== src/Sched/Native.antt =====
-- The dispatch of recompiled code in runtime/sched.c: the entries that `native_build` sorts, and
-- `native_lookup`. A function is known by its number; `qsort` is a parameter of the model.
use ct_recomp.Base.{
  ℕ, zero, suc, Bool, true, false, Option, none, some, List, [], ◌∷◌, not, ◌+◌, ◌/◌, ◌==◌, ltb,
  ◌&&◌, ◌||◌, if◌then◌else◌, length, get_or, drop, long_addr,
}
use ct_recomp.Cpu.{Cpu}

-- `ct_func` of runtime/func_table.h; `none` is -1, any DB or DP.
pub record Func : Type 0 where
  pub addr : ℕ
  pub m : ℕ
  pub x : ℕ
  pub db : Option ℕ
  pub dp : Option ℕ
  pub compiled : Bool
  pub calls_extern : Bool

-- The loop of `native_build`.
unfoldable pub native_entries : List Func → List Func
native_entries [] = []
native_entries (f ∷ fs) =
    let rest = native_entries fs in if f.compiled && not f.calls_extern then f ∷ rest else rest

-- `native_build` without `overlay_init`.
unfoldable pub native_build : (List Func → List Func) → List Func → List Func
native_build qsort fs = qsort (native_entries fs)

-- A binary search for the first index in [lo, hi) whose key is not below `at`: the loop of
-- `native_lookup`, and `first_at` of runtime/overlay.c. Each round takes one of `fuel`.
unfoldable pub first_from : ℕ → (ℕ → ℕ) → ℕ → ℕ → ℕ → ℕ
first_from zero addr at lo hi = lo
first_from (suc fuel) addr at lo hi =
    let mid = (lo + hi) / 2 in
    let above = first_from fuel addr at (mid + 1) hi in
    let below = first_from fuel addr at lo mid in
    if ltb lo hi then (if ltb (addr mid) at then above else below) else lo

-- Whether a value that an entry requires is the CPU's.
abbrev pub agrees : Option ℕ → ℕ → Bool
agrees none v = true
agrees (some k) v = k == v

-- The test of an entry at the address.
unfoldable pub enters : Cpu → Func → Bool
enters c f = f.m == c.fm && f.x == c.fx && agrees f.db c.db && agrees f.dp c.dp

-- The second loop of `native_lookup`, over the entries from the index found on.
unfoldable pub scan : Cpu → ℕ → List Func → Option Func
scan c at [] = none
scan c at (f ∷ fs) =
    let rest = scan c at fs in if f.addr == at then (if enters c f then some f else rest) else none

abbrev pub no_func : Func
no_func = record {
  addr = 0;
  m = 0;
  x = 0;
  db = none;
  dp = none;
  compiled = false;
  calls_extern = false;
}

-- `native_lookup` on the table `native`.
unfoldable pub native_lookup : Bool → List Func → Cpu → Option Func
native_lookup native_on native c =
    let at = long_addr c.pb c.pc in
    let n = length native in
    if not native_on || c.fe == 1 || n == 0
    then none
    else scan c at (drop (first_from n (λ k. (get_or native k no_func).addr) at 0 n) native)
