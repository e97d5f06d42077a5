-- ===== src/Interp/Returns.antt =====
-- What holds when a call of the strict interpreter returns, and the rounds of `ct_interp_rest`.
use ct_recomp.Base.{
  not, u8, u16, ◌>>>◌, long_addr, [], ℕ, zero, suc, Bool, true, false, ◌≡◌, refl, ◌+◌, ◌<◌, ◌≤◌,
  arith, ◌==◌,
}
use mathlib.Core.Path.{subst}
use ct_recomp.Cpu.{Cpu}
use ct_recomp.Machine.{
  Machine, Result, done, fatal, Fault, M, ◌>>=◌, ◌>>◌, pure, ct_fatal, gets, on_cpu, on_ctl, when,
}
use ct_recomp.Machine.{emulation_mode}
use ct_recomp.Interp.Run.{ct_interp_budget, call_loop, interp_call_capped, is_last_return}
use ct_recomp.Interp.Rest.{ExecUntil, no_address, ct_exec_done, rest_rounds}

-- If the call returns, its value and its state satisfy `Q`.
abbrev pub After : {A : Type 0} → (A → Machine → Type 0) → Result A → Type 0
After Q (done a w) = Q a w
After Q (fatal e) = Unit

record Ends {A : Type 0} (Q : A → Machine → Type 0) (m : M A) : Type 0 where
  run : (w : Machine) → After Q (m w)

After-bind :
    {A B : Type 0} (Q : B → Machine → Type 0) (r : Result A) (f : A → M B)
    → ((a : A) → Ends Q (f a))
    → After Q (elim r [ done a w ↦ f a w | fatal e ↦ fatal e ])
After-bind Q (done a w) f h = (h a).run w
After-bind Q (fatal e) f h = tt

module _ {A B : Type 0} {Q : B → Machine → Type 0} where
  Ends-bind : (m : M A) {f : A → M B} → ((a : A) → Ends Q (f a)) → Ends Q (m >>= f)
  unfolding ◌>>=◌
  Ends-bind m {f} h = record { run = λ w. After-bind Q (m w) f h }

  Ends-then : (m : M A) {k : M B} → Ends Q k → Ends Q (m >> k)
  unfolding ◌>>◌
  Ends-then m {k} h = record { run = λ w. After-bind Q (m w) (λ _. k) (λ _. h) }

Ends-fatal : {A : Type 0} {Q : A → Machine → Type 0} (e : Fault) → Ends Q (ct_fatal e)
unfolding ct_fatal
Ends-fatal e = record { run = λ w. tt }

-- The stack pointer is above `s`.
abbrev Above : ℕ → Unit {0} → Machine → Type 0
Above s x w = s < w.cpu.s

last_return_above : (op s0 : ℕ) (c : Cpu) → is_last_return op s0 c ≡ true → s0 < c.s
unfolding is_last_return
last_return_above op s0 c h = ground arith

-- The loop has ended, not been cut, with S above `s`.
abbrev Finished : ℕ → Bool → Machine → Type 0
Finished s finished w = (finished ≡ true) × (s < w.cpu.s)

-- What `rest_rounds` does after the call of a round.
unfoldable rest_round : ℕ → ℕ → ExecUntil → Result (Unit {0}) → Result Bool
rest_round rounds cap u r = elim r [
  | done x w ↦
      let k : M Bool = elim (ct_exec_done u w.cpu) [
        | true ↦ pure true
        | false ↦ rest_rounds rounds cap u
      ] in
      k w
  | fatal f ↦ fatal f
]

-- The end of a round: with RTS or RTL above the entry, or with another round.
round_end :
    (b : Bool) (op s0 : ℕ) (m : M (Unit {0})) (w : Machine)
    → is_last_return op s0 w.cpu ≡ b
    → Ends (Above s0) m
    → let k : M (Unit {0}) = elim b [ true ↦ pure tt | false ↦ m ] in After (Above s0) (k w)
unfolding pure
round_end true op s0 m w e h = last_return_above op s0 w.cpu e
round_end false op s0 m w e h = h.run w

last_test :
    (op s0 : ℕ) (m : M (Unit {0}))
    → Ends (Above s0) m
    → Ends
        (Above s0)
        (gets (λ w. w.cpu) >>= (λ c. elim (is_last_return op s0 c) [ true ↦ pure tt | false ↦ m ]))
unfolding ◌>>=◌ gets
last_test op s0 m h = record { run = λ w. round_end (is_last_return op s0 w.cpu) op s0 m w refl h }

call_loop-Ends : (cap s0 : ℕ) → Ends (Above s0) (call_loop cap s0)
unfolding call_loop
call_loop-Ends zero s0 = Ends-bind _ (λ c. Ends-fatal _)
call_loop-Ends (suc cap) s0 =
    let rest = call_loop-Ends cap s0 in
    Ends-bind _ (λ c. Ends-then _ (Ends-bind _ (λ op. Ends-then _ (last_test op s0 _ rest))))

interp_call-Ends :
    (cap entry : ℕ) (w : Machine)
    → After (λ x w'. w.cpu.s < w'.cpu.s) (interp_call_capped cap entry w)
unfolding interp_call_capped ◌>>=◌ gets on_ctl when ◌>>◌
interp_call-Ends cap entry w =
    let entered = record w { ctl = record w.ctl { sys = 0 } } in
    let enter =
      Ends-then (on_ctl (λ k. record k { shadow = []; interp_budget = ct_interp_budget })) (
        Ends-then (on_cpu (λ c. record c { pb = u8 (entry >>> 16); pc = u16 entry }))
          (call_loop-Ends cap w.cpu.s)) in
    (Ends-then (when (not (w.cpu.fe == 0)) (ct_fatal emulation_mode)) enter).run entered

-- A call that returns leaves S above where it was at the call.
pub interp_call-returns :
    (cap entry : ℕ) (w w' : Machine)
    → interp_call_capped cap entry w ≡ done tt w'
    → w.cpu.s < w'.cpu.s
interp_call-returns cap entry w w' e =
    subst (After (λ x w'. w.cpu.s < w'.cpu.s)) e (interp_call-Ends cap entry w)

-- A round and what follows it.
round-After :
    (rounds cap : ℕ) (u : ExecUntil) (s : ℕ) (r : Result (Unit {0}))
    → u.back ≡ no_address
    → u.s ≤ s + rounds
    → After (λ x w'. s < w'.cpu.s) r
    → ((w : Machine)
        → u.s < w.cpu.s + rounds
        → w.cpu.s ≤ u.s
        → After (Finished u.s) (rest_rounds rounds cap u w))
    → After (Finished u.s) (rest_round rounds cap u r)
unfolding rest_round ct_exec_done pure
round-After rounds cap u s (done x w) e l h k = by_test (ct_exec_done u w.cpu) refl
  where
    by_test :
        (b : Bool)
        → ct_exec_done u w.cpu ≡ b
        → let m : M Bool = elim b [ true ↦ pure true | false ↦ rest_rounds rounds cap u ] in
          After (Finished u.s) (m w)
    by_test true t = (refl, ground arith)
    by_test false t = k w (omega arith) (ground arith)
round-After rounds cap u s (fatal f) e l h k = tt

rest_rounds-Finished :
    (rounds cap : ℕ) (u : ExecUntil) (w : Machine)
    → u.back ≡ no_address
    → u.s < w.cpu.s + rounds
    → (0 < rounds)
    → After (Finished u.s) (rest_rounds rounds cap u w)
unfolding rest_rounds rest_round ◌>>=◌ ◌>>◌ gets
rest_rounds-Finished zero cap u w e l p = absurd (omega arith)
rest_rounds-Finished (suc rounds) cap u w e l p =
    round-After rounds cap u w.cpu.s (interp_call_capped cap (long_addr w.cpu.pb w.cpu.pc) w) e
      (omega arith) (interp_call-Ends cap (long_addr w.cpu.pb w.cpu.pc) w)
      (λ w' l' q. rest_rounds-Finished rounds cap u w' e l' (omega arith))

-- If no call of it ends in ct_fatal, the loop of ct_interp_rest ends within s0 + 1 rounds, with S
-- above s0.
pub rest_rounds-returns :
    (s0 cap : ℕ) (w : Machine)
    → After
        (λ finished w'. (finished ≡ true) × (s0 < w'.cpu.s))
        (rest_rounds (s0 + 1) cap (record { back = no_address; s = s0 }) w)
rest_rounds-returns s0 cap w =
    rest_rounds-Finished (s0 + 1) cap (record { back = no_address; s = s0 }) w refl (omega arith)
      (omega arith)
