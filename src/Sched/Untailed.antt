-- ===== src/Sched/Untailed.antt =====
-- Tail jumps under the dispatch of runtime/sched.c: `ct_tail_fn` is NULL between its steps.
use ct_recomp.Base.{◌≡◌}
use ct_recomp.Sched.World.{World, Env, Tail, no_tail, rest_runner, tail_to}
use ct_recomp.Sched.Stays.{All}

abbrev pub At : Tail → World → Type 0
At t w = w.tail ≡ t

-- What is asked of the calls of the devices and the host: that they leave `ct_tail_fn`.
pub record LeavesTail (v : Env) : Type 0 where
  pub leaves : (w : World) → All (At w.tail) (v.host w)

-- After the loop over the functions that native code tail-jumped to.
abbrev IsEnd : Tail → Type 0
IsEnd no_tail = Unit
IsEnd rest_runner = Unit
IsEnd (tail_to k) = ⊥

abbrev Ended : World → Type 0
Ended w = IsEnd w.tail
