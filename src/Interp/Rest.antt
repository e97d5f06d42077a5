-- ===== src/Interp/Rest.antt =====
-- Generated code that runs code which is not compiled: the last part of runtime/interp.c, and
-- `ct_exec_done` of runtime/cpu.c.
use ct_recomp.Base.{
  ℕ, zero, suc, Bool, true, false, Option, none, some, ◌+◌, ◌==◌, ltb, leb, if◌then◌else◌, flag,
  ◌&&◌, u8, u16, ◌>>>◌, long_addr,
}
use ct_recomp.Cpu.{Cpu}
use ct_recomp.Machine.{M, ◌>>=◌, ◌>>◌, pure, gets, on_cpu}
use ct_recomp.Interp.Run.{ct_interp_dispatch_cap, interp_call_capped, interp_call}

-- `ct_exec_until` of runtime/cpu.h.
pub record ExecUntil : Type 0 where
  pub back : ℕ
  pub s : ℕ

-- `~0u`, the `back` of `ct_interp_rest`.
abbrev pub no_address : ℕ
no_address = 0xFFFFFFFF

unfoldable pub ct_exec_done : ExecUntil → Cpu → Bool
ct_exec_done u c = if u.back == no_address then ltb u.s c.s else leb u.s c.s

-- `ct_exec_hook`; `none` is the null pointer.
abbrev pub ExecHook : Type 0
ExecHook = Option (ExecUntil → M (Unit {0}))

-- `ct_call_interp`.
unfoldable pub ct_call_interp : ExecHook → ℕ → ℕ → ℕ → M ℕ
ct_call_interp hook target back n = do
  c ← gets (λ w. w.cpu)
  let u : ExecUntil = record { back = back; s = u16 (c.s + n) }
  on_cpu (λ c. record c { pb = u8 (target >>> 16); pc = u16 target })
  elim hook [ some run ↦ run u | none ↦ interp_call target ]
  c' ← gets (λ w. w.cpu)
  pure (flag ((c'.s == u.s) && (long_addr c'.pb c'.pc == back)))

-- The loop of `ct_interp_rest` with a bound on its rounds; false is a loop that the bound cut.
unfoldable pub rest_rounds : ℕ → ℕ → ExecUntil → M Bool
rest_rounds zero cap u = pure false
rest_rounds (suc rounds) cap u = do
  c ← gets (λ w. w.cpu)
  interp_call_capped cap (long_addr c.pb c.pc)
  c' ← gets (λ w. w.cpu)
  elim (ct_exec_done u c') [ true ↦ pure true | false ↦ rest_rounds rounds cap u ]

-- `ct_interp_rest`: s0 + 1 rounds.
unfoldable pub ct_interp_rest : ExecHook → ℕ → M (Unit {0})
ct_interp_rest hook s0 =
    let u : ExecUntil = record { back = no_address; s = s0 } in
    elim hook [
      | some run ↦ run u
      | none ↦ (do finished ← rest_rounds (s0 + 1) ct_interp_dispatch_cap u; pure tt)
    ]
