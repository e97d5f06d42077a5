-- ===== src/Sched/Reason.antt =====
-- Why a function did not run natively, for the profile of runtime/sched.c: `not_native_reason`.
use ct_recomp.Base.{
  ℕ, Bool, true, false, List, [], ◌∷◌, ◌==◌, ◌&&◌, ◌%◌, ◌^◌, ◌>>>◌, not, if◌then◌else◌, u8, u16,
}
use ct_recomp.Sched.Native.{Func, agrees}
use ct_recomp.Overlay.{Overlays}
use ct_recomp.Overlay.Lookup.{Wram, overlay_state}

-- Its answers.
pub data Reason : Type 0 where
  outside_call handed_over handed_over_rest emulation : Reason
  stale_overlay native_overlay not_recompiled unexplained other_db_dp takes_extern : Reason
  other_state : Reason

-- The fields of an entry's key.
pub record Entry : Type 0 where
  pub addr : ℕ
  pub m : ℕ
  pub x : ℕ
  pub e : ℕ
  pub db : ℕ
  pub dp : ℕ

unfoldable pub entry_of : ℕ → Entry
entry_of key = record {
  addr = key % 2 ^ 24;
  m = (key >>> 24) % 2;
  x = (key >>> 25) % 2;
  e = (key >>> 26) % 2;
  db = u8 (key >>> 32);
  dp = u16 (key >>> 40);
}

-- `any`, `ext`, `state` and `exact`.
pub record Tally : Type 0 where
  pub found : Bool
  pub ext : Bool
  pub state : Bool
  pub exact : Bool

abbrev pub no_tally : Tally
no_tally = record { found = false; ext = false; state = false; exact = false }

-- One round of the loop over the functions.
unfoldable pub tally_one : Entry → Func → Tally → Tally
tally_one q f t =
    if not (f.addr == q.addr && f.compiled)
    then t
    else if f.calls_extern
    then record t { found = true; ext = true }
    else if f.m == q.m && f.x == q.x
    then record t {
      found = true;
      state = true;
      exact = if agrees f.db q.db && agrees f.dp q.dp then true else t.exact;
    }
    else record t { found = true }

unfoldable pub tally_loop : Entry → List Func → Tally → Tally
tally_loop q [] t = t
tally_loop q (f ∷ fs) t = tally_loop q fs (tally_one q f t)

-- The loop over the functions for a hand-off.
unfoldable pub compiled_at : ℕ → List Func → Bool
compiled_at addr [] = false
compiled_at addr (f ∷ fs) =
    let rest = compiled_at addr fs in if f.addr == addr && f.compiled then true else rest

-- The answer from the tally.
unfoldable pub reason_of : Tally → Reason
reason_of t =
    if not t.found
    then not_recompiled
    else if t.exact
    then unexplained
    else if t.state
    then other_db_dp
    else if t.ext
    then takes_extern
    else other_state

-- The answer for an overlay's state, if it is one.
unfoldable pub overlay_reason : Entry → List Func → Bool × Bool × Overlays → Reason × Overlays
overlay_reason q fs (true, true, o) = (stale_overlay, o)
overlay_reason q fs (true, false, o) = (native_overlay, o)
overlay_reason q fs (false, stale, o) = (reason_of (tally_loop q fs no_tally), o)

unfoldable pub not_native_reason : Wram → List Func → ℕ → Overlays → Reason × Overlays
not_native_reason w fs key o =
    let q = entry_of key in
    if q.addr == 0 && (key >>> 24) % 128 == 0
    then (outside_call, o)
    else if (key >>> 27) % 2 == 1
    then ((if compiled_at q.addr fs then handed_over else handed_over_rest), o)
    else if not (q.e == 0)
    then (emulation, o)
    else overlay_reason q fs (overlay_state q.addr q.m q.x w o)
