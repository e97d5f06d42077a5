-- ===== src/Sched/Reading.antt =====
-- What the automatic joypad read of runtime/sched.c reads, and that only the last clock at which
-- it is brought up to date matters.
use ct_recomp.Base.{
  ℕ, zero, suc, true, false, ◌≡◌, refl, ap, sym, ◌∙◌, ◌+◌, ◌-◌, ◌*◌, ◌/◌, ◌%◌, ◌<◌, ◌≤◌, ltb_of_lt,
  ◌^◌, arith, Bool-cases, inl, inr,
}
use mathlib.Core.Path.{subst}
use ct_recomp.Base.{u16}
use ct_recomp.Sched.{Joypads}
use ct_recomp.Sched.Joypad.{
  autojoy_arm, autojoy_round, autojoy_due, autojoy_rounds, autojoy_update, shift_in,
}

div_one : (n : ℕ) → n / 2 ^ (16 - ((34 - 4) / 2 + 1)) ≡ n
div_one n = omega arith

round_step :
    (nmitimen : ℕ) (j : Joypads) → (autojoy_round nmitimen j).autojoy_step ≡ j.autojoy_step + 1
unfolding autojoy_round
round_step nmitimen j = refl

round_start :
    (nmitimen : ℕ) (j : Joypads) → (autojoy_round nmitimen j).autojoy_start ≡ j.autojoy_start
unfolding autojoy_round
round_start nmitimen j = ground arith

due_le : (now : ℕ) (j : Joypads) → autojoy_due now j ≡ true → j.autojoy_step ≤ 34
unfolding autojoy_due
due_le now j h = ground arith

due_later :
    (now later : ℕ) (j : Joypads)
    → now ≤ later
    → autojoy_due now j ≡ true
    → autojoy_due later j ≡ true
unfolding autojoy_due
due_later now later j p h = ground arith

rounds_due :
    (fuel nmitimen now : ℕ) (j : Joypads)
    → autojoy_due now j ≡ true
    → autojoy_rounds (suc fuel) nmitimen now j
      ≡ autojoy_rounds fuel nmitimen now (autojoy_round nmitimen j)
unfolding autojoy_rounds
rounds_due fuel nmitimen now j h = rw h

rounds_zero : (nmitimen now : ℕ) (j : Joypads) → autojoy_rounds 0 nmitimen now j ≡ j
unfolding autojoy_rounds
rounds_zero nmitimen now j = refl

rounds_idle :
    (fuel nmitimen now : ℕ) (j : Joypads)
    → autojoy_due now j ≡ false
    → autojoy_rounds fuel nmitimen now j ≡ j
unfolding autojoy_rounds
rounds_idle zero nmitimen now j h = refl
rounds_idle (suc fuel) nmitimen now j h = rw h

-- More fuel than enough changes nothing.
rounds_fuel :
    (fuel nmitimen now : ℕ) (j : Joypads)
    → 35 ≤ fuel + j.autojoy_step
    → autojoy_rounds (suc fuel) nmitimen now j ≡ autojoy_rounds fuel nmitimen now j
rounds_fuel zero nmitimen now j h = elim (Bool-cases (autojoy_due now j)) [
  | inr q ↦ rounds_idle 1 nmitimen now j q ∙ sym (rounds_idle 0 nmitimen now j q)
  | inl q ↦ absurd (omega (arith, due_le now j q))
]
rounds_fuel (suc f) nmitimen now j h = elim (Bool-cases (autojoy_due now j)) [
  | inr q ↦ rounds_idle (suc (suc f)) nmitimen now j q ∙ sym (rounds_idle (suc f) nmitimen now j q)
  | inl q ↦
      rounds_due (suc f) nmitimen now j q
      ∙ rounds_fuel f nmitimen now (autojoy_round nmitimen j) (omega (arith, round_step nmitimen j))
      ∙ sym (rounds_due f nmitimen now j q)
]

rounds_compose :
    (fuel fuel' nmitimen now later : ℕ) (j : Joypads)
    → now ≤ later
    → 35 ≤ fuel' + j.autojoy_step
    → autojoy_rounds fuel' nmitimen later (autojoy_rounds fuel nmitimen now j)
      ≡ autojoy_rounds fuel' nmitimen later j
rounds_compose zero fuel' nmitimen now later j le h =
    ap (autojoy_rounds fuel' nmitimen later) (rounds_zero nmitimen now j)
rounds_compose (suc fuel) fuel' nmitimen now later j le h = elim (Bool-cases (autojoy_due now j)) [
  | inr q ↦ ap (autojoy_rounds fuel' nmitimen later) (rounds_idle (suc fuel) nmitimen now j q)
  | inl q ↦
      ap (autojoy_rounds fuel' nmitimen later) (rounds_due fuel nmitimen now j q)
      ∙ rounds_compose fuel fuel' nmitimen now later (autojoy_round nmitimen j) le
          (omega (arith, round_step nmitimen j))
      ∙ sym (rounds_due fuel' nmitimen later j (due_later now later j le q))
      ∙ rounds_fuel fuel' nmitimen later j h
]

-- Bringing the automatic joypad read up to date at one clock and then at a later one gives the
-- state of the later update alone, while NMITIMEN is the same.
pub autojoy_update_compose :
    (nmitimen now later : ℕ) (j : Joypads)
    → now ≤ later
    → autojoy_update nmitimen later (autojoy_update nmitimen now j)
      ≡ autojoy_update nmitimen later j
unfolding autojoy_update
autojoy_update_compose nmitimen now later j le =
    rounds_compose 35 35 nmitimen now later j le (omega arith)

-- The reads in progress: enabled at step 1, with the buttons `from`.
record Reads (from : ℕ → ℕ) (j : Joypads) : Type 0 where
  on : j.autojoy_on ≡ true
  same : j.autojoy_pad ≡ from
  late : 2 ≤ j.autojoy_step

-- What the last step leaves.
pub record HasRead (from : ℕ → ℕ) (j : Joypads) : Type 0 where
  pub idle : j.autojoy_busy ≡ false
  pub result : (p : ℕ) → p < 4 → j.joy p ≡ u16 (from p)

-- The step of a read in progress, without the branch of step 1.
round_late :
    (nmitimen : ℕ) (j : Joypads)
    → 2 ≤ j.autojoy_step
    → (autojoy_round nmitimen j).autojoy_on ≡ j.autojoy_on
unfolding autojoy_round
round_late nmitimen j h = ground arith

round_pad : (nmitimen : ℕ) (j : Joypads) → (autojoy_round nmitimen j).autojoy_pad ≡ j.autojoy_pad
unfolding autojoy_round
round_pad nmitimen j = ground arith

round_busy :
    (nmitimen : ℕ) (j : Joypads)
    → j.autojoy_step ≡ 34
    → (autojoy_round nmitimen j).autojoy_busy ≡ false
unfolding autojoy_round
round_busy nmitimen j h = ground arith

round_joy :
    (nmitimen : ℕ) (j : Joypads) (p : ℕ)
    → j.autojoy_step ≡ 34
    → j.autojoy_on ≡ true
    → p < 4
    → (autojoy_round nmitimen j).joy p ≡ u16 (j.autojoy_pad p)
unfolding autojoy_round shift_in
round_joy nmitimen j p e on h = rw (e, on, ltb_of_lt p 4 h) (ap u16 (div_one (j.autojoy_pad p)))

round-Reads :
    (nmitimen : ℕ) (from : ℕ → ℕ) (j : Joypads)
    → Reads from j
    → Reads from (autojoy_round nmitimen j)
round-Reads nmitimen from j h = record {
  on = round_late nmitimen j h.late ∙ h.on;
  same = round_pad nmitimen j ∙ h.same;
  late = omega (arith, h.late, round_step nmitimen j);
}

round-HasRead :
    (nmitimen : ℕ) (from : ℕ → ℕ) (j : Joypads)
    → Reads from j
    → j.autojoy_step ≡ 34
    → HasRead from (autojoy_round nmitimen j)
round-HasRead nmitimen from j h e = record {
  idle = round_busy nmitimen j e;
  result = λ p k. round_joy nmitimen j p e h.on k ∙ ap (λ f. u16 (f p)) h.same;
}

all_due :
    (now : ℕ) (j : Joypads)
    → j.autojoy_step ≤ 34
    → j.autojoy_start + 128 * 34 ≤ now
    → autojoy_due now j ≡ true
unfolding autojoy_due
all_due now j h k = ground arith

run-Reads :
    (k nmitimen now : ℕ) (from : ℕ → ℕ) (j : Joypads)
    → Reads from j
    → j.autojoy_step + suc k ≡ 35
    → j.autojoy_start + 128 * 34 ≤ now
    → HasRead from (autojoy_rounds (suc k) nmitimen now j)
run-Reads zero nmitimen now from j h e le =
    subst (HasRead from)
      (sym (
        rounds_due 0 nmitimen now j (all_due now j (omega arith) le)
        ∙ rounds_zero nmitimen now (autojoy_round nmitimen j)))
      (round-HasRead nmitimen from j h (omega arith))
run-Reads (suc k) nmitimen now from j h e le =
    subst (HasRead from) (sym (rounds_due (suc k) nmitimen now j (all_due now j (omega arith) le)))
      (run-Reads k nmitimen now from (autojoy_round nmitimen j) (round-Reads nmitimen from j h)
        (omega (arith, round_step nmitimen j)) (omega (arith, round_start nmitimen j)))

armed-Reads :
    (nmitimen t : ℕ) (j : Joypads)
    → nmitimen % 2 ≡ 1
    → Reads j.pad (autojoy_round nmitimen (autojoy_round nmitimen (autojoy_arm t j)))
unfolding autojoy_arm autojoy_round
armed-Reads nmitimen t j h = record { on = rw h; same = refl; late = omega arith }

armed_step : (t : ℕ) (j : Joypads) → (autojoy_arm t j).autojoy_step ≡ 0
unfolding autojoy_arm
armed_step t j = refl

armed_start : (t : ℕ) (j : Joypads) → (autojoy_arm t j).autojoy_start ≤ t + 130 + 255
unfolding autojoy_arm
armed_start t j = omega arith

-- With the automatic read enabled, a read armed at clock t has finished at every clock from t +
-- 385 + 34 * 128 on: it is not busy, and each of the four results is the pad's buttons when it was
-- armed.
pub autojoy_update-joy :
    (nmitimen t now : ℕ) (j : Joypads)
    → nmitimen % 2 ≡ 1
    → t + 130 + 255 + 128 * 34 ≤ now
    → HasRead j.pad (autojoy_update nmitimen now (autojoy_arm t j))
unfolding autojoy_update
autojoy_update-joy nmitimen t now j odd le =
    let j0 = autojoy_arm t j in
    let j1 = autojoy_round nmitimen j0 in
    let j2 = autojoy_round nmitimen j1 in
    let s0 = armed_step t j in
    let s1 = round_step nmitimen j0 in
    let t0 = armed_start t j in
    let t1 = round_start nmitimen j0 in
    subst (HasRead j.pad)
      (sym (
        rounds_due 34 nmitimen now j0 (all_due now j0 (omega arith) (omega arith))
        ∙ rounds_due 33 nmitimen now j1 (all_due now j1 (omega arith) (omega arith))))
      (run-Reads 32 nmitimen now j.pad j2 (armed-Reads nmitimen t j odd)
        (omega (arith, round_step nmitimen j1)) (omega (arith, round_start nmitimen j1)))
