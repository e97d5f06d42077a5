-- ===== src/Sched/Shadow.antt =====
-- The shadow stack of the profile in runtime/sched.c.
use ct_recomp.Base.{
  ℕ, zero, suc, Bool, true, false, List, [], ◌∷◌, ◌≡◌, ◌%◌, ◌/◌, ◌^◌, ◌≤◌, ◌==◌, ltb, ◌&&◌,
  if◌then◌else◌, length, arith, if_both,
}
use ct_recomp.Cpu.{Cpu}
use ct_recomp.Sched.Profile.{
  Call, shadow_settle, keep, shadow_push_key, shadow_push, shadow_rest, rest_on, entry_key,
}

-- The newest entry has not returned with the stack pointer at `s`.
abbrev pub IsPending : ℕ → List Call → Type 0
IsPending s [] = Unit
IsPending s (e ∷ es) = s ≤ e.s0

-- A stack within the array, whose newest entry has not returned.
pub record IsShadow (s : ℕ) (es : List Call) : Type 0 where
  pub fits : length es ≤ 256
  pub pending : IsPending s es

settle-length : (s : ℕ) (es : List Call) → length (shadow_settle s es) ≤ length es
unfolding shadow_settle
settle-length s [] = omega arith
settle-length s (e ∷ es) =
    if_both (λ (xs : List Call). length xs ≤ suc (length es)) (ltb e.s0 s) _ _
      (λ _. omega (arith, settle-length s es)) (λ _. omega arith)

settle-IsPending : (s : ℕ) (es : List Call) → IsPending s (shadow_settle s es)
unfolding shadow_settle
settle-IsPending s [] = tt
settle-IsPending s (e ∷ es) =
    if_both (IsPending s) (ltb e.s0 s) _ _ (λ _. settle-IsPending s es) (λ h. ground arith)

keep-length : (n : ℕ) (es : List Call) → length (keep n es) ≤ n
keep-length zero es = omega arith
keep-length (suc n) [] = omega arith
keep-length (suc n) (e ∷ es) = omega (arith, keep-length n es)

not_full : (n : ℕ) → n ≤ 256 → (n == 256) ≡ false → n ≤ 255
not_full n h p = ground arith

same_entry : (b : Bool) (s a s0 : ℕ) → s ≤ s0 → (b && a == s0) ≡ true → s ≤ a
same_entry b s a s0 h p = ground arith

-- A full stack makes room for one entry.
room :
    (xs : List Call) → length xs ≤ 256 → length (if length xs == 256 then keep 255 xs else xs) ≤ 255
room xs h =
    if_both (λ (ys : List Call). length ys ≤ 255) (length xs == 256) _ _ (λ _. keep-length 255 xs)
      (λ p. not_full (length xs) h p)

push-IsShadow :
    (s key s0 : ℕ) (es : List Call)
    → length es ≤ 256
    → s ≤ s0
    → IsShadow s (shadow_push_key s key s0 es)
unfolding shadow_push_key
push-IsShadow s key s0 es h k = record {
  fits = omega (arith, room (shadow_settle s es) (omega (arith, settle-length s es)));
  pending = k;
}

rest-IsShadow :
    (s key s0 : ℕ) (es : List Call) → length es ≤ 256 → s ≤ s0 → IsShadow s (rest_on s key s0 es)
unfolding rest_on
rest-IsShadow s key s0 [] h k = push-IsShadow s key s0 [] h k
rest-IsShadow s key s0 (e ∷ es) h k =
    if_both (IsShadow s) ((e.key / 2 ^ 27) % 2 == 1 && e.s0 == s0) _ _
      (λ p. record { fits = h; pending = same_entry ((e.key / 2 ^ 27) % 2 == 1) s e.s0 s0 k p })
      (λ _. push-IsShadow s key s0 (e ∷ es) h k)

-- From a stack of at most 256 entries, shadow_settle, shadow_push and shadow_rest, the last for a
-- function entered with S at or above the present S, leave at most 256 entries, the newest of
-- which has not returned.
pub profile-IsShadow :
    (c : Cpu) (s0 : ℕ) (es : List Call)
    → length es ≤ 256
    → c.s ≤ s0
    → IsShadow c.s (shadow_settle c.s es)
      × IsShadow c.s (shadow_push c es)
      × IsShadow c.s (shadow_rest c s0 es)
unfolding shadow_push shadow_rest
profile-IsShadow c s0 es h k =
    let settled = settle-length c.s es in
    (
      record { fits = omega arith; pending = settle-IsPending c.s es },
      push-IsShadow c.s (entry_key c) c.s es h (omega arith),
      rest-IsShadow c.s _ s0 (shadow_settle c.s es) (omega arith) k,
    )
