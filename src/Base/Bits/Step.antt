-- ===== src/Base/Bits/Step.antt =====
-- The native bit operations mean `bitwise`, a recursion on binary digits with fuel. Here the fuel
-- is dropped: one equation for the lowest digit.
use Prim.Native.Nat.{ℕ, zero, suc, ◌+◌, ◌*◌, ◌/◌, ◌%◌, ◌≤◌, ◌-◌, min, max, digits, bitwise}
use Prim.Native.Nat.{
  bit_and, bit_or, bit_xor, bit_and-bitwise, bit_or-bitwise, bit_xor-bitwise, differ,
}
use mathlib.Core.Path.{◌≡◌, refl, ◌∙◌, ap}
use native.Mathlib.Omega.{arith}

-- The recursion for any operation `op` on digits whose value `left` at a zero left operand has the
-- digits that `op` gives.
module _ (left : ℕ → ℕ) (op : ℕ → ℕ → ℕ)
    (left_digit : (y : ℕ) → left y ≡ left (y / 2) * 2 + op 0 (y % 2)) where
  spare_one : (fuel x y : ℕ) → x ≤ fuel → digits left op (suc fuel) x y ≡ digits left op fuel x y
  spare_one zero zero y h = refl
  spare_one zero (suc x) y h = absurd (omega arith)
  spare_one (suc fuel) zero y h = refl
  spare_one (suc fuel) (suc x) y h =
      ap (λ half. half * 2 + op (suc x % 2) (y % 2))
        (spare_one fuel (suc x / 2) (y / 2) (omega arith))

  -- Fuel beyond the left operand is spare.
  spare :
      (extra fuel x y : ℕ) → x ≤ fuel → digits left op (extra + fuel) x y ≡ digits left op fuel x y
  spare zero fuel x y h = ap (λ given. digits left op given x y) {y = fuel} (omega arith)
  spare (suc extra) fuel x y h =
      ap (λ given. digits left op given x y) {y = suc (extra + fuel)} (omega arith)
      ∙ (spare_one (extra + fuel) x y (omega arith) ∙ spare extra fuel x y h)

  pub lowest_digit :
      (x y : ℕ) → bitwise left op x y ≡ bitwise left op (x / 2) (y / 2) * 2 + op (x % 2) (y % 2)
  lowest_digit zero y = left_digit y
  lowest_digit (suc x) y =
      let half = suc x / 2 in
      ap (λ rest. rest * 2 + op (suc x % 2) (y % 2))
        (ap (λ given. digits left op given half (y / 2)) {y = x - half + half} (omega arith)
          ∙ spare (x - half) half half (y / 2) (omega arith))

pub bit_xor_step : (x y : ℕ) → bit_xor x y ≡ bit_xor (x / 2) (y / 2) * 2 + differ (x % 2) (y % 2)
bit_xor_step x y = simp bit_xor-bitwise (lowest_digit (λ v. v) differ (λ v. omega arith) x y)

pub bit_and_step : (x y : ℕ) → bit_and x y ≡ bit_and (x / 2) (y / 2) * 2 + min (x % 2) (y % 2)
bit_and_step x y = simp bit_and-bitwise (lowest_digit (λ v. 0) min (λ v. omega arith) x y)

pub bit_or_step : (x y : ℕ) → bit_or x y ≡ bit_or (x / 2) (y / 2) * 2 + max (x % 2) (y % 2)
bit_or_step x y = simp bit_or-bitwise (lowest_digit (λ v. v) max (λ v. omega arith) x y)

-- The digit of an exclusive or, of digits.
pub differ_lem : (a b : ℕ) → a ≤ 1 → b ≤ 1 → differ a b ≡ (a + b) % 2
differ_lem zero b p q = omega arith
differ_lem (suc zero) zero p q = refl
differ_lem (suc zero) (suc zero) p q = refl
differ_lem (suc zero) (suc (suc b)) p q = absurd (omega arith)
differ_lem (suc (suc a)) b p q = absurd (omega arith)
