-- ===== src/Png/Crc.antt =====
-- `crc` of runtime/png.c, by table, is CRC-32 bit by bit.
use ct_recomp.Base.{
  ℕ, zero, suc, List, [], ◌∷◌, ◌≡◌, refl, ap, sym, ◌∙◌, ◌++◌, take, drop, ◌+◌, ◌*◌, ◌/◌, ◌%◌, ◌^◌,
  ◌<◌, ◌==◌, bit_and, bit_xor, arith, ◌⊎◌, inl, inr, ltb_of_lt, Bool-cases,
}
use ct_recomp.Base.Bits.{bit_and-mask, bit_xor-lt}
use ct_recomp.Base.Bits.Xor.{
  half-bit_xor, parity-bit_xor, shift-bit_xor, bit_xor_comm, bit_xor-zero, zero-bit_xor,
  bit_xor_regroup, bit_xor-fields,
}
use ct_recomp.Png.{crc_round, crc_rounds, crc_filled, crc_loop, crc}
use ct_recomp.Png.Reader.{shift_bit, shift_bits, crc32}
use native.Mathlib.Nat.{pow-suc}

abbrev pub AreBytes : List ℕ → Type 0
AreBytes [] = Unit
AreBytes (x ∷ xs) = (x < 256) × AreBytes xs

-- `crc_table` before its first use, or filled.
abbrev pub IsTable : (ℕ → ℕ) → Type 0
IsTable table = (table 1 ≡ 0) ⊎ ((k : ℕ) → k < 256 → table k ≡ crc_rounds 8 k)

abbrev odd_part : ℕ → ℕ
odd_part p = p * 0xEDB88320

crc_round-eq-shift_bit : (v : ℕ) → crc_round v ≡ shift_bit v
unfolding crc_round shift_bit
crc_round-eq-shift_bit v = elim (Bool-cases (v % 2 == 1)) [
  | inl odd ↦ rw (odd) (
      ap (λ p. bit_xor (odd_part p) (v / 2)) {x = 1} {y = v % 2} (ground arith)
      ∙ bit_xor_comm (odd_part (v % 2)) (v / 2))
  | inr even ↦ rw (even) (
      sym (bit_xor-zero (v / 2))
      ∙ ap (λ p. bit_xor (v / 2) (odd_part p)) {x = 0} {y = v % 2} (ground arith))
]

crc_rounds-eq-shift_bits : (n v : ℕ) → crc_rounds n v ≡ shift_bits n v
unfolding crc_rounds shift_bits
crc_rounds-eq-shift_bits zero v = refl
crc_rounds-eq-shift_bits (suc n) v =
    ap (crc_rounds n) (crc_round-eq-shift_bit v) ∙ crc_rounds-eq-shift_bits n (shift_bit v)

odd_part-sum :
    (p q : ℕ) → p < 2 → q < 2 → odd_part ((p + q) % 2) ≡ bit_xor (odd_part p) (odd_part q)
odd_part-sum zero q h k =
    ap odd_part {x = (0 + q) % 2} {y = q} (omega arith) ∙ sym (zero-bit_xor (odd_part q))
odd_part-sum (suc zero) zero h k = refl
odd_part-sum (suc zero) (suc zero) h k = refl
odd_part-sum (suc zero) (suc (suc q)) h k = absurd (omega arith)
odd_part-sum (suc (suc p)) q h k = absurd (omega arith)

-- A step of the register is linear.
shift_bit-bit_xor : (x y : ℕ) → shift_bit (bit_xor x y) ≡ bit_xor (shift_bit x) (shift_bit y)
unfolding shift_bit
shift_bit-bit_xor x y = rw (half-bit_xor x y) (
    ap (λ p. bit_xor (bit_xor (x / 2) (y / 2)) (odd_part p)) {x = bit_xor x y % 2}
      {y = (x % 2 + y % 2) % 2} (omega (arith, parity-bit_xor x y))
    ∙ (ap (bit_xor (bit_xor (x / 2) (y / 2)))
          (odd_part-sum (x % 2) (y % 2) (omega arith) (omega arith))
        ∙ bit_xor_regroup (x / 2) (y / 2) (odd_part (x % 2)) (odd_part (y % 2))))

shift_bits-bit_xor :
    (n x y : ℕ) → shift_bits n (bit_xor x y) ≡ bit_xor (shift_bits n x) (shift_bits n y)
unfolding shift_bits
shift_bits-bit_xor zero x y = refl
shift_bits-bit_xor (suc n) x y =
    ap (shift_bits n) (shift_bit-bit_xor x y) ∙ shift_bits-bit_xor n (shift_bit x) (shift_bit y)

-- High bits only move down.
shift_bits-high : (n q : ℕ) → shift_bits n (q * 2 ^ n) ≡ q
unfolding shift_bits shift_bit
shift_bits-high zero q = omega arith
shift_bits-high (suc n) q =
    let doubled : q * 2 ^ suc n ≡ 2 * (q * 2 ^ n) =
      omega (arith, ap (λ (t : ℕ). q * t) (pow-suc 2 n)) in
    ap (shift_bits n) (
      ap (λ p. bit_xor (q * 2 ^ suc n / 2) (odd_part p)) {x = q * 2 ^ suc n % 2} {y = 0}
        (omega arith)
      ∙ (bit_xor-zero (q * 2 ^ suc n / 2) ∙ omega arith))
    ∙ shift_bits-high n q

-- Eight steps, by the low byte's entry.
shift_byte : (v : ℕ) → shift_bits 8 v ≡ bit_xor (shift_bits 8 (v % 256)) (v / 256)
shift_byte v =
    ap (shift_bits 8) {x = v} {y = bit_xor (v / 256 * 2 ^ 8) (v % 256)}
      (omega (arith, bit_xor-fields 8 (v / 256) (v % 256) (omega arith)))
    ∙ (shift_bits-bit_xor 8 (v / 256 * 2 ^ 8) (v % 256)
        ∙ (ap (λ t. bit_xor t (shift_bits 8 (v % 256))) (shift_bits-high 8 (v / 256))
            ∙ bit_xor_comm (v / 256) (shift_bits 8 (v % 256))))

xor_high : (c p : ℕ) → p < 256 → bit_xor c p / 256 ≡ c / 256
xor_high c p h =
    shift-bit_xor 8 c p
    ∙ (ap (bit_xor (c / 256)) {x = p / 256} {y = 0} (omega arith) ∙ bit_xor-zero (c / 256))

filled : (table : ℕ → ℕ) → IsTable table → (k : ℕ) → k < 256 → crc_filled table k ≡ crc_rounds 8 k
unfolding crc_filled
filled table (inl e) k h = rw (e, ltb_of_lt k 256 h)
filled table (inr f) k h = elim (Bool-cases (table 1 == 0)) [
  | inl e ↦ rw (e, ltb_of_lt k 256 h)
  | inr e ↦ rw (e) (f k h)
]

pub crc_filled-IsTable : (table : ℕ → ℕ) → IsTable table → IsTable (crc_filled table)
crc_filled-IsTable table t = inr (filled table t)

crc_loop-crc32 :
    (table : ℕ → ℕ)
    → ((k : ℕ) → k < 256 → table k ≡ crc_rounds 8 k)
    → (c : ℕ) (ps : List ℕ) → AreBytes ps
    → crc_loop table c ps ≡ crc32 c ps
unfolding crc_loop crc32
crc_loop-crc32 table f c [] h = refl
crc_loop-crc32 table f c (p ∷ ps) (b, bs) =
    crc_loop-crc32 table f (bit_xor (table (bit_and (bit_xor c p) 0xFF)) (c / 256)) ps bs
    ∙ ap (λ t. crc32 t ps) step
  where
    step : bit_xor (table (bit_and (bit_xor c p) 0xFF)) (c / 256) ≡ shift_bits 8 (bit_xor c p)
    step =
        rw (bit_and-mask 8 (bit_xor c p), f (bit_xor c p % 256) (omega arith))
          (rw
            (
              crc_rounds-eq-shift_bits 8 (bit_xor c p % 256),
              shift_byte (bit_xor c p),
              xor_high c p b,
            )
            refl)

-- From a table that is filled or not yet used, the value of crc is CRC-32 by its shift register, a
-- bit at a time, for every start value and all bytes, and the table is then filled.
pub crc-crc32 :
    (table : ℕ → ℕ) (c : ℕ) (ps : List ℕ)
    → IsTable table
    → AreBytes ps
    → ((crc table c ps).1 ≡ crc32 c ps) × IsTable (crc table c ps).0
unfolding crc
crc-crc32 table c ps t b =
    (crc_loop-crc32 (crc_filled table) (filled table t) c ps b, crc_filled-IsTable table t)

shift_bit-lt : (v : ℕ) → v < 2 ^ 32 → shift_bit v < 2 ^ 32
unfolding shift_bit
shift_bit-lt v h = bit_xor-lt 32 (v / 2) (v % 2 * 0xEDB88320) (omega arith) (omega arith)

shift_bits-lt : (n v : ℕ) → v < 2 ^ 32 → shift_bits n v < 2 ^ 32
unfolding shift_bits
shift_bits-lt zero v h = h
shift_bits-lt (suc n) v h = shift_bits-lt n (shift_bit v) (shift_bit-lt v h)

pub crc32-lt : (c : ℕ) (ps : List ℕ) → c < 2 ^ 32 → AreBytes ps → crc32 c ps < 2 ^ 32
unfolding crc32
crc32-lt c [] h b = h
crc32-lt c (p ∷ ps) h (b, bs) =
    crc32-lt (shift_bits 8 (bit_xor c p)) ps
      (shift_bits-lt 8 (bit_xor c p) (bit_xor-lt 32 c p h (omega arith))) bs

pub crc32-append : (c : ℕ) (xs ys : List ℕ) → crc32 c (xs ++ ys) ≡ crc32 (crc32 c xs) ys
unfolding crc32
crc32-append c [] ys = refl
crc32-append c (x ∷ xs) ys = crc32-append (shift_bits 8 (bit_xor c x)) xs ys

pub append-AreBytes : (xs ys : List ℕ) → AreBytes xs → AreBytes ys → AreBytes (xs ++ ys)
append-AreBytes [] ys h k = k
append-AreBytes (x ∷ xs) ys (b, bs) k = (b, append-AreBytes xs ys bs k)

pub take-AreBytes : (n : ℕ) (xs : List ℕ) → AreBytes xs → AreBytes (take n xs)
take-AreBytes zero xs h = tt
take-AreBytes (suc n) [] h = tt
take-AreBytes (suc n) (x ∷ xs) (b, bs) = (b, take-AreBytes n xs bs)

pub drop-AreBytes : (n : ℕ) (xs : List ℕ) → AreBytes xs → AreBytes (drop n xs)
drop-AreBytes zero xs h = h
drop-AreBytes (suc n) [] h = tt
drop-AreBytes (suc n) (x ∷ xs) (b, bs) = drop-AreBytes n xs bs
