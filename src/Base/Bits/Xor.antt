-- ===== src/Base/Bits/Xor.antt =====
-- The laws of `^`.
use Prim.Native.Nat.{ℕ, zero, suc, ◌+◌, ◌*◌, ◌/◌, ◌%◌, ◌^◌, ◌≤◌, ◌<◌, bit_xor, bit_xor-bitwise}
use mathlib.Core.Path.{◌≡◌, refl, ap, ◌∙◌, sym}
use native.Mathlib.Nat.{pow-suc, div-div-eq-div-mul, div-one}
use native.Mathlib.Omega.{arith}
use ct_recomp.Base.Bits.Step.{bit_xor_step, differ_lem}

pub zero-bit_xor : (b : ℕ) → bit_xor 0 b ≡ b
zero-bit_xor b = bit_xor-bitwise 0 b

pub half-bit_xor : (a b : ℕ) → bit_xor a b / 2 ≡ bit_xor (a / 2) (b / 2)
half-bit_xor a b =
    omega (arith, bit_xor_step a b, differ_lem (a % 2) (b % 2) (omega arith) (omega arith))

pub parity-bit_xor : (a b : ℕ) → bit_xor a b % 2 ≡ (a + b) % 2
parity-bit_xor a b =
    omega (arith, bit_xor_step a b, differ_lem (a % 2) (b % 2) (omega arith) (omega arith))

-- Two numbers are equal if their halves and lowest digits are.
by_halves : (a b : ℕ) → a / 2 ≡ b / 2 → a % 2 ≡ b % 2 → a ≡ b
by_halves a b h p = omega arith

comm_fuel : (n a b : ℕ) → a + b ≤ n → bit_xor a b ≡ bit_xor b a
comm_fuel zero zero zero h = refl
comm_fuel zero zero (suc b) h = absurd (omega arith)
comm_fuel zero (suc a) b h = absurd (omega arith)
comm_fuel (suc n) a b h =
    by_halves (bit_xor a b) (bit_xor b a)
      (half-bit_xor a b ∙ (comm_fuel n (a / 2) (b / 2) (omega arith) ∙ sym (half-bit_xor b a)))
      (omega (arith, parity-bit_xor a b, parity-bit_xor b a))

pub bit_xor_comm : (a b : ℕ) → bit_xor a b ≡ bit_xor b a
bit_xor_comm a b = comm_fuel (a + b) a b (omega arith)

pub bit_xor-zero : (a : ℕ) → bit_xor a 0 ≡ a
bit_xor-zero a = bit_xor_comm a 0 ∙ zero-bit_xor a

assoc_fuel : (n a b c : ℕ) → a + b + c ≤ n → bit_xor (bit_xor a b) c ≡ bit_xor a (bit_xor b c)
assoc_fuel zero zero b c h = rw (zero-bit_xor b, zero-bit_xor (bit_xor b c))
assoc_fuel zero (suc a) b c h = absurd (omega arith)
assoc_fuel (suc n) a b c h =
    by_halves (bit_xor (bit_xor a b) c) (bit_xor a (bit_xor b c))
      (rw (
        half-bit_xor (bit_xor a b) c,
        half-bit_xor a b,
        half-bit_xor a (bit_xor b c),
        half-bit_xor b c,
        assoc_fuel n (a / 2) (b / 2) (c / 2) (omega arith),
      ))
      (omega (
        arith,
        parity-bit_xor (bit_xor a b) c,
        parity-bit_xor a b,
        parity-bit_xor a (bit_xor b c),
        parity-bit_xor b c,
      ))

pub bit_xor_assoc : (a b c : ℕ) → bit_xor (bit_xor a b) c ≡ bit_xor a (bit_xor b c)
bit_xor_assoc a b c = assoc_fuel (a + b + c) a b c (omega arith)

pub bit_xor_regroup :
    (a b c d : ℕ) → bit_xor (bit_xor a b) (bit_xor c d) ≡ bit_xor (bit_xor a c) (bit_xor b d)
bit_xor_regroup a b c d =
    bit_xor_assoc a b (bit_xor c d)
    ∙ (ap (bit_xor a) (
          sym (bit_xor_assoc b c d)
          ∙ (ap (λ t. bit_xor t d) (bit_xor_comm b c) ∙ bit_xor_assoc c b d))
        ∙ sym (bit_xor_assoc a c (bit_xor b d)))

self_fuel : (n a : ℕ) → a ≤ n → bit_xor a a ≡ 0
self_fuel zero zero h = refl
self_fuel zero (suc a) h = absurd (omega arith)
self_fuel (suc n) a h =
    by_halves (bit_xor a a) 0 (half-bit_xor a a ∙ self_fuel n (a / 2) (omega arith))
      (omega (arith, parity-bit_xor a a))

pub bit_xor_self : (a : ℕ) → bit_xor a a ≡ 0
bit_xor_self a = self_fuel a a (omega arith)

-- `^` of disjoint fields is a sum.
pub bit_xor-fields : (k q r : ℕ) → r < 2 ^ k → bit_xor (q * 2 ^ k) r ≡ q * 2 ^ k + r
bit_xor-fields zero q zero h = bit_xor-zero (q * 1) ∙ omega arith
bit_xor-fields zero q (suc r) h = absurd (omega arith)
bit_xor-fields (suc k) q r h =
    let doubled : q * 2 ^ suc k ≡ 2 * (q * 2 ^ k) =
      omega (arith, ap (λ (t : ℕ). q * t) (pow-suc 2 k)) in
    by_halves (bit_xor (q * 2 ^ suc k) r) (q * 2 ^ suc k + r)
      (half-bit_xor (q * 2 ^ suc k) r
        ∙ (ap (λ t. bit_xor t (r / 2)) {x = q * 2 ^ suc k / 2} {y = q * 2 ^ k} (omega arith)
            ∙ (bit_xor-fields k q (r / 2) (omega (arith, pow-suc 2 k)) ∙ omega arith)))
      (omega (arith, parity-bit_xor (q * 2 ^ suc k) r))

shift_suc : (k a : ℕ) → a / 2 ^ suc k ≡ a / 2 / 2 ^ k
shift_suc k a = ap (λ d. a / d) (pow-suc 2 k ∙ omega arith) ∙ sym (div-div-eq-div-mul a 2 (2 ^ k))

pub shift-bit_xor : (k a b : ℕ) → bit_xor a b / 2 ^ k ≡ bit_xor (a / 2 ^ k) (b / 2 ^ k)
shift-bit_xor zero a b = rw (div-one a, div-one b, div-one (bit_xor a b))
shift-bit_xor (suc k) a b =
    rw (shift_suc k a, shift_suc k b, shift_suc k (bit_xor a b), half-bit_xor a b)
      (shift-bit_xor k (a / 2) (b / 2))
