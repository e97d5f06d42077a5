-- ===== src/Sched/Jumps.antt =====
-- Tail jumps of runtime/cpu.h, and the rests that native code hands over (runtime/interp.c,
-- runtime/overlay.c), under the scheduler, whose exec_hook is `ct_exec_hook`.
use ct_recomp.Base.{ℕ, zero, suc, none, some}
use ct_recomp.Base.Options.{◌>>=◌}
use ct_recomp.Interp.Rest.{no_address}
use ct_recomp.Overlay.Active.{go_dormant}
use ct_recomp.Sched.World.{World, Env, Step, Tail, no_tail, rest_runner, tail_to, on_overlays}
use ct_recomp.Sched.Dispatch.{exec_hook}

unfoldable pub ct_tail : ℕ → World → World
ct_tail k w = record w { tail = tail_to k }

unfoldable pub ct_tail_rest : ℕ → World → World
ct_tail_rest s0 w = record w { tail_s0 = s0; tail = rest_runner }

-- `ct_interp_rest(cpu, ct_tail_s0)`, with a bound on its rounds.
unfoldable pub ct_rest_runner : Env → ℕ → Step
ct_rest_runner v rounds w = exec_hook v rounds (record { back = no_address; s = w.tail_s0 }) w

-- The loop of `ct_run`, with a bound on the functions jumped to.
unfoldable pub run_next : Env → ℕ → Step → Tail → Step
run_next v rounds rest no_tail w = some w
run_next v rounds rest rest_runner w = do
  w1 ← ct_rest_runner v rounds (record w { tail = no_tail })
  rest w1
run_next v rounds rest (tail_to k) w = do w1 ← v.run_tail k (record w { tail = no_tail }); rest w1

unfoldable pub run_all : Env → ℕ → ℕ → Step
run_all v rounds zero w = none
run_all v rounds (suc n) w = run_next v rounds (run_all v rounds n) w.tail w

unfoldable pub ct_run : Env → ℕ → Step → Step
ct_run v rounds fn w = do w1 ← fn w; run_all v rounds v.tails w1

-- `go_dormant`, on the overlays' variables.
unfoldable pub dormant : World → World
dormant w = (on_overlays (λ o. (tt, go_dormant o)) w).1

unfoldable pub ct_overlay_rest : Env → ℕ → ℕ → Step
ct_overlay_rest v rounds s0 w =
    exec_hook v rounds (record { back = no_address; s = s0 }) (dormant w)

unfoldable pub ct_overlay_tail_rest : ℕ → World → World
ct_overlay_tail_rest s0 w = ct_tail_rest s0 (dormant w)
