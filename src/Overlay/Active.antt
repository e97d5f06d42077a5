-- ===== src/Overlay/Active.antt =====
-- The overlay functions that run natively, and the WRAM range watched for writes to their code:
-- runtime/overlay.c and overlay.h.
use ct_recomp.Base.{
  ℕ, true, false, Option, none, some, List, [], ◌∷◌, not, ◌+◌, ◌%◌, ◌==◌, ltb, ◌&&◌, if◌then◌else◌,
  length,
}
use ct_recomp.Base.{sub32, u32}
use ct_recomp.Overlay.{OverlayFunc, Act, Overlays}
use ct_recomp.Overlay.Lookup.{Wram, valid}

abbrev pub overlay_max_act : ℕ
overlay_max_act = 64

-- A range of WRAM, by its start and its length.
pub record Watch : Type 0 where
  pub lo : ℕ
  pub len : ℕ

-- The range that also covers the code of a function, as `overlay_enter` and `rewatch` compute it.
unfoldable pub widen : OverlayFunc → Watch → Watch
widen f w =
    let lo = f.lo % 0x20000 in
    let hi = f.hi % 0x20000 + 1 in
    let ohi = u32 (w.lo + w.len) in
    let lo' = if not (w.len == 0) && ltb w.lo lo then w.lo else lo in
    let hi' = if not (w.len == 0) && ltb hi ohi then ohi else hi in
    record { lo = lo'; len = sub32 hi' lo' }

abbrev pub watch : Overlays → Watch
watch o = record { lo = o.watch_lo; len = o.watch_len }

abbrev pub with_watch : Watch → Overlays → Overlays
with_watch w o = record o { watch_lo = w.lo; watch_len = w.len }

-- `overlay_enter`; `none` is its `ct_fatal`.
unfoldable pub overlay_enter : OverlayFunc → ℕ → ℕ → Overlays → Option Overlays
overlay_enter f idx s0 o =
    let a : Act = record {
      f = f;
      idx = idx;
      s0 = s0;
      dormant = false;
      lo = o.watch_lo;
      len = o.watch_len;
    } in
    if length o.act == overlay_max_act
    then none
    else some (with_watch (widen f (watch o)) (record o { act = a ∷ o.act }))

-- `overlay_leave` of the function with `k` functions around it.
unfoldable pub leave_to : ℕ → List Act → Overlays → Overlays
leave_to k [] o = o
leave_to k (a ∷ outer) o =
    let rest = leave_to k outer o in
    if length outer == k then record o { act = outer; watch_lo = a.lo; watch_len = a.len } else rest

unfoldable pub overlay_leave : ℕ → Overlays → Overlays
overlay_leave k o = leave_to k o.act o

-- The loop of `rewatch`, from the outermost function in.
unfoldable pub covering : List Act → Watch
covering [] = record { lo = 0; len = 0 }
covering (a ∷ outer) = let rest = covering outer in if a.dormant then rest else widen a.f rest

unfoldable pub rewatch : Overlays → Overlays
rewatch o = with_watch (covering o.act) o

unfoldable pub go_dormant : Overlays → Overlays
go_dormant o = elim o.act [
  | [] ↦ o
  | a ∷ outer ↦
      if a.dormant then o else rewatch (record o { act = record a { dormant = true } ∷ outer })
]

-- The loop of `overlay_stale_active`, from the outermost function in.
unfoldable pub stale_in : Wram → List Act → Overlays → Option Act × Overlays
stale_in w [] o = (none, o)
stale_in w (a ∷ outer) o =
    let rest = stale_in w outer o in
    let o' = valid w a.idx rest.1 in
    elim rest.0 [
      | some b ↦ (some b, rest.1)
      | none ↦
          if a.dormant
          then (none, rest.1)
          else if (o'.cache a.idx).valid
          then (none, o')
          else (some a, o')
    ]

unfoldable pub overlay_stale_active : Wram → Overlays → Option Act × Overlays
overlay_stale_active w o = stale_in w o.act o

unfoldable pub overlay_reset_active : Overlays → Overlays
overlay_reset_active o = record o { act = []; watch_lo = 0; watch_len = 0; wram_hit = false }
