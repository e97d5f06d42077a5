-- ===== src/Overlay.antt =====
-- Recompiled code in WRAM, runtime/overlay.c and overlay.h: the entries sorted by address, the
-- cache of their checks, and the functions that run, with the range of WRAM that is watched.
pub mod Lookup
pub mod Active
pub mod Watched
pub mod Matching
use ct_recomp.Base.{ℕ, Bool, List, Option}

-- `ct_overlay_func` of runtime/func_table.h: where the code was compiled from, and its hash.
pub record OverlayFunc : Type 0 where
  pub addr : ℕ
  pub lo : ℕ
  pub hi : ℕ
  pub m : ℕ
  pub x : ℕ
  pub hash : ℕ
  pub compiled : Bool

-- An element of `cache`.
pub record Check : Type 0 where
  pub gens : ℕ
  pub checked : Bool
  pub valid : Bool

-- `overlay_act`: a function that runs, without the `setjmp` buffer.
pub record Act : Type 0 where
  pub f : OverlayFunc
  pub idx : ℕ
  pub s0 : ℕ
  pub dormant : Bool
  pub lo : ℕ
  pub len : ℕ

-- `ovl`, `cache`, `ct_ovl_act` with `ct_ovl_n` (the innermost function first), and of
-- runtime/bus.c the watched range and the flag of a write in it.
pub record Overlays : Type 0 where
  pub ovl : List OverlayFunc
  pub cache : ℕ → Check
  pub overlay_last_idx : ℕ
  pub act : List Act
  pub watch_lo : ℕ
  pub watch_len : ℕ
  pub wram_hit : Bool
