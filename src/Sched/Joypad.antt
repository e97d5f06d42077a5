-- ===== src/Sched/Joypad.antt =====
-- The automatic joypad read of runtime/sched.c: `autojoy_arm`, `autojoy_update`, `joy_read`.
use ct_recomp.Base.{
  ℕ, zero, suc, Bool, false, ◌+◌, ◌-◌, ◌*◌, ◌/◌, ◌%◌, ◌==◌, leb, ltb, ◌&&◌, if◌then◌else◌, update,
}
use ct_recomp.Base.{u8, u16, ◌>>>◌}
use ct_recomp.Sched.{Joypads}

unfoldable pub autojoy_arm : ℕ → Joypads → Joypads
autojoy_arm now j = record j {
  autojoy_start = (now + 130 + 255) / 256 * 256 - 128;
  autojoy_step = 0;
  autojoy_pad = j.pad;
}

-- The loop over the four ports at an even step.
unfoldable pub shift_in : ℕ → (ℕ → ℕ) → (ℕ → ℕ) → ℕ → ℕ
shift_in k from joy p = if ltb p 4 then u16 (from p >>> (16 - k)) else joy p

-- One round of the loop of `autojoy_update`, with NMITIMEN as it is then.
unfoldable pub autojoy_round : ℕ → Joypads → Joypads
autojoy_round nmitimen j =
    let step = j.autojoy_step in
    let on = nmitimen % 2 == 1 in
    let read =
      if step == 1
      then record j {
        autojoy_on = on;
        autojoy_busy = on;
        joy = if on then (λ p. if ltb p 4 then 0 else j.joy p) else j.joy;
      }
      else if leb 4 step && step % 2 == 0 && j.autojoy_on
      then record j { joy = shift_in ((step - 4) / 2 + 1) j.autojoy_pad j.joy }
      else j in
    record read {
      autojoy_busy = if step == 34 then false else read.autojoy_busy;
      autojoy_step = step + 1;
    }

-- The condition of that loop.
unfoldable pub autojoy_due : ℕ → Joypads → Bool
autojoy_due now j = leb j.autojoy_step 34 && leb (j.autojoy_start + 128 * j.autojoy_step) now

-- The loop on fuel.
unfoldable pub autojoy_rounds : ℕ → ℕ → ℕ → Joypads → Joypads
autojoy_rounds zero nmitimen now j = j
autojoy_rounds (suc fuel) nmitimen now j =
    let next = autojoy_rounds fuel nmitimen now (autojoy_round nmitimen j) in
    if autojoy_due now j then next else j

-- `autojoy_update`: the step counts to 35 at most, so 35 rounds are enough.
unfoldable pub autojoy_update : ℕ → ℕ → Joypads → Joypads
autojoy_update nmitimen now j = autojoy_rounds 35 nmitimen now j

-- `joy_read`, at the clock `at` of the access.
unfoldable pub joy_read : ℕ → ℕ → ℕ → Joypads → ℕ × Joypads
joy_read nmitimen at reg j =
    let j' = autojoy_update nmitimen at j in
    let v = j'.joy ((reg - 0x4218) / 2) in (u8 (if reg % 2 == 1 then v >>> 8 else v), j')

-- `sched_set_joypad`; a negative port is none of the natural numbers.
unfoldable pub sched_set_joypad : ℕ → ℕ → Joypads → Joypads
sched_set_joypad port buttons j =
    if ltb port 4 then record j { pad = update j.pad port buttons } else j
