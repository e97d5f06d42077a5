-- ===== src/Cpu.antt =====
-- The register file of runtime/cpu.h and its start state.
use ct_recomp.Base.{ℕ, ◌≤◌, ◌<◌, ◌^◌, ◌≡◌}

-- `CPU`: the registers A, X, Y, S, DP, DB, PB, PC, then the flag bytes n, v, m, x, d, i, z, c, e.
pub record Cpu : Type 0 where
  pub a : ℕ
  pub x : ℕ
  pub y : ℕ
  pub s : ℕ
  pub dp : ℕ
  pub db : ℕ
  pub pb : ℕ
  pub pc : ℕ
  pub fn : ℕ
  pub fv : ℕ
  pub fm : ℕ
  pub fx : ℕ
  pub fd : ℕ
  pub fi : ℕ
  pub fz : ℕ
  pub fc : ℕ
  pub fe : ℕ

-- `cpu_init`: whatever was in the record is cleared first.
unfoldable pub cpu_init : Cpu → Cpu
cpu_init c = record {
  a = 0;
  x = 0;
  y = 0;
  s = 0x01FF;
  dp = 0;
  db = 0;
  pb = 0;
  pc = 0;
  fn = 0;
  fv = 0;
  fm = 1;
  fx = 0;
  fd = 0;
  fi = 1;
  fz = 0;
  fc = 0;
  fe = 0;
}

-- What the 65816 guarantees of its registers: widths, flags 0 or 1, 8-bit index registers when
-- x = 1, and m = x = 1 in emulation mode.
pub record IsCpu (c : Cpu) : Type 0 where
  pub a_fits : c.a < 2 ^ 16
  pub x_fits : c.x < 2 ^ 16
  pub y_fits : c.y < 2 ^ 16
  pub s_fits : c.s < 2 ^ 16
  pub dp_fits : c.dp < 2 ^ 16
  pub db_fits : c.db < 2 ^ 8
  pub pb_fits : c.pb < 2 ^ 8
  pub pc_fits : c.pc < 2 ^ 16
  pub fn_fits : c.fn ≤ 1
  pub fv_fits : c.fv ≤ 1
  pub fm_fits : c.fm ≤ 1
  pub fx_fits : c.fx ≤ 1
  pub fd_fits : c.fd ≤ 1
  pub fi_fits : c.fi ≤ 1
  pub fz_fits : c.fz ≤ 1
  pub fc_fits : c.fc ≤ 1
  pub fe_fits : c.fe ≤ 1
  pub x_narrow : c.fx ≡ 1 → c.x < 2 ^ 8
  pub y_narrow : c.fx ≡ 1 → c.y < 2 ^ 8
  pub e_wide : c.fe ≡ 1 → (c.fm ≡ 1) × (c.fx ≡ 1)
