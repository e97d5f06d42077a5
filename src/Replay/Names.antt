-- ===== src/Replay/Names.antt =====
-- The names that the recorder of runtime/replay.c writes give back the bits that it had.
use ct_recomp.Base.{
  ℕ, suc, some, List, [], ◌∷◌, ◌≡◌, refl, ap, sym, ◌∙◌, ◌+◌, ◌*◌, ◌/◌, ◌%◌, ◌^◌, ◌<◌, ◌==◌,
  if◌then◌else◌, bit_and, bit_or, arith, Bool-cases, inl, inr, ◌⊎◌, ==_true, ==_false,
}
use mathlib.Core.Path.{ap₂}
use native.Mathlib.Nat.{pow-suc, one-le-pow, div-div-eq-div-mul}
use ct_recomp.Base.Bits.{bit_and-pow, bit_and-even, bit_and-mask, bit_or-fields}
use ct_recomp.Replay.{Text, names, bit_in, add_words, words, parse_buttons}
use ct_recomp.Replay.Record.{held_words}

-- The table finds its own names.
abbrev Known : List (Text × ℕ) → Type 0
Known [] = Unit
Known (e ∷ es) = (bit_in names e.0 ≡ some e.1) × Known es

-- The bits of `b` in a table, added to `acc`.
abbrev or_bits : ℕ → ℕ → List (Text × ℕ) → ℕ
or_bits b acc [] = acc
or_bits b acc (e ∷ es) = or_bits b (if bit_and b e.1 == 0 then acc else bit_or acc e.1) es

add_words-cons :
    (t : Text) (ts : List Text) (acc bit : ℕ)
    → bit_in names t ≡ some bit
    → add_words acc (t ∷ ts) ≡ add_words (bit_or acc bit) ts
unfolding add_words
add_words-cons t ts acc bit h = rw (add_words, h)

add_words-held_words :
    (b : ℕ) (es : List (Text × ℕ)) (acc : ℕ)
    → Known es
    → add_words acc (held_words b es) ≡ some (or_bits b acc es)
unfolding add_words held_words
add_words-held_words b [] acc k = refl
add_words-held_words b (e ∷ es) acc k = elim (Bool-cases (bit_and b e.1 == 0)) [
  | inl p ↦ rw p (add_words-held_words b es acc k.1)
  | inr p ↦ rw p (
      add_words-cons e.0 (held_words b es) acc e.1 k.0
      ∙ add_words-held_words b es (bit_or acc e.1) k.1)
]

-- One bit more of the number.
pow_next : (k : ℕ) → 2 ^ (k + 1) ≡ 2 ^ k * 2
pow_next k = ap (λ n. 2 ^ n) {x = k + 1} {y = suc k} (omega arith) ∙ omega (arith, pow-suc 2 k)

halve : (k b : ℕ) → b / 2 ^ (k + 1) ≡ b / 2 ^ k / 2
halve k b = ap (λ d. b / d) (pow_next k) ∙ sym (div-div-eq-div-mul b (2 ^ k) 2)

parity : (n : ℕ) → (n % 2 ≡ 0) ⊎ (n % 2 ≡ 1)
parity n = ground arith

bit_more :
    (k b acc : ℕ)
    → acc ≡ b / 2 ^ (k + 1) * 2 ^ (k + 1)
    → (if bit_and b (2 ^ k) == 0 then acc else bit_or acc (2 ^ k)) ≡ b / 2 ^ k * 2 ^ k
bit_more k b acc h =
    let n = b / 2 ^ k in
    let one = one-le-pow k 2 in
    let digit = bit_and-pow k b in
    let acc_is : acc ≡ n / 2 * (2 ^ k * 2) = h ∙ ap₂ ◌*◌ (halve k b) (pow_next k) in
    let double : n * 2 ^ k ≡ (n / 2 * 2 + n % 2) * 2 ^ k = ap (λ t. t * 2 ^ k) (omega arith) in
    let low = bit_or-fields (k + 1) (b / 2 ^ (k + 1)) (2 ^ k) (omega (arith, pow_next k)) in
    let or_is : bit_or acc (2 ^ k) ≡ acc + 2 ^ k =
      ap (λ t. bit_or t (2 ^ k)) h ∙ low ∙ omega arith in
    elim (parity n) [
      | inl d ↦
          let z : n % 2 * 2 ^ k ≡ 0 * 2 ^ k = ap (λ t. t * 2 ^ k) d in
          rw (==_true (bit_and b (2 ^ k)) 0 (omega arith)) (omega arith)
      | inr d ↦
          let z : n % 2 * 2 ^ k ≡ 1 * 2 ^ k = ap (λ t. t * 2 ^ k) d in
          rw (==_false (bit_and b (2 ^ k)) 0 (omega arith)) (omega arith)
    ]

all_bits : (b : ℕ) → b < 2 ^ 16 → or_bits b 0 names ≡ b / 16 * 16
all_bits b h =
    let s15 = bit_more 15 b 0 (omega arith) in
    let s14 = bit_more 14 b _ s15 in
    let s13 = bit_more 13 b _ s14 in
    let s12 = bit_more 12 b _ s13 in
    let s11 = bit_more 11 b _ s12 in
    let s10 = bit_more 10 b _ s11 in
    let s9 = bit_more 9 b _ s10 in
    let s8 = bit_more 8 b _ s9 in
    let s7 = bit_more 7 b _ s8 in
    let s6 = bit_more 6 b _ s7 in let s5 = bit_more 5 b _ s6 in bit_more 4 b _ s5

-- The words of a value with twelve button bits are read back as that value.
pub held_words-bits :
    (b : ℕ) → b < 2 ^ 16 → b % 16 ≡ 0 → parse_buttons (words (held_words b names)) ≡ some b
unfolding parse_buttons
held_words-bits b h e =
    add_words-held_words b names 0 (
      refl,
      (refl, (refl, (refl, (refl, (refl, (refl, (refl, (refl, (refl, (refl, (refl, tt))))))))))),
    )
    ∙ ap some (all_bits b h ∙ omega arith)

pub pad_mask : (b : ℕ) → b < 2 ^ 16 → bit_and b 0xFFF0 ≡ b / 16 * 16
pad_mask b h = omega (
  arith,
  bit_and-even b 0x7ff8,
  bit_and-even (b / 2) 0x3ffc,
  bit_and-even (b / 2 / 2) 0x1ffe,
  bit_and-even (b / 2 / 2 / 2) 0xfff,
  bit_and-mask 12 (b / 2 / 2 / 2 / 2),
)
