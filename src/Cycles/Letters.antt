-- ===== src/Cycles/Letters.antt =====
-- The two descriptions of an instruction in runtime/cycles.c: the table of counts with penalties,
-- and the letters of the cycles one by one.
use mathlib.Core.Bool.{false≢true}
use ct_recomp.Base.{
  ℕ, zero, suc, Bool, true, false, not, List, [], ◌∷◌, some, none, ◌≡◌, refl, ap, ◌∙◌, ◌+◌, ◌*◌,
  ◌<◌, arith, length, flag, ◌==◌, if◌then◌else◌, ◌&&◌, ◌||◌, bit_and, inl, inr, Bool-cases, ==_iff,
}
use ct_recomp.Machine.{Cycles}
use ct_recomp.Cycles.Table.{cyc_base, cyc_pen, p_m, p_m2, p_x, p_dl, p_idx, p_br, p_rti}
use ct_recomp.Cycles.Template.{tmpl}
use ct_recomp.Cycles.Model.{penalty}
use ct_recomp.Cycles.Walk.{codes, slot}

-- How often a letter stands in a template.
unfoldable pub count : ℕ → List ℕ → ℕ
count ch [] = 0
count ch (c ∷ l) = flag (c == ch) + count ch l

-- The letters that take place.
unfoldable pub slots : Cycles → List ℕ → ℕ
unfolding slot
slots cy [] = 0
slots cy (ch ∷ l) = flag (slot cy ch).0 + slots cy l

pick :
    (ch d x b m w n : ℕ)
    → (if ch == b'd'
          then d
          else if ch == b'x'
          then x
          else if ch == b'b'
          then b
          else if ch == b'm'
          then m
          else if ch == b'w'
          then w
          else if ch == b'n'
          then n
          else if ch == b'p'
          then m
          else if ch == b'q'
          then w
          else 1)
        + (flag (ch == b'd')
            + flag (ch == b'x')
            + flag (ch == b'b')
            + flag (ch == b'm')
            + flag (ch == b'w')
            + flag (ch == b'n')
            + flag (ch == b'p')
            + flag (ch == b'q'))
      ≡ 1
        + (flag (ch == b'd') * d
            + flag (ch == b'x') * x
            + flag (ch == b'b') * b
            + (flag (ch == b'm') + flag (ch == b'p')) * m
            + (flag (ch == b'w') + flag (ch == b'q')) * w
            + flag (ch == b'n') * n)
pick ch d x b m w n = ground arith

slot_number :
    (cy : Cycles) (ch : ℕ)
    → flag (slot cy ch).0 ≡ (
        if ch == b'd'
        then flag (not (cy.dl == 0))
        else if ch == b'x'
        then flag (not (cy.cross == 0) || not (cy.x16 == 0))
        else if ch == b'b'
        then flag (not (cy.taken == 0))
        else if ch == b'm'
        then flag (not (cy.m16 == 0))
        else if ch == b'w'
        then flag (not (cy.x16 == 0))
        else if ch == b'n'
        then flag (not (cy.native == 0))
        else if ch == b'p'
        then flag (not (cy.m16 == 0))
        else if ch == b'q'
        then flag (not (cy.x16 == 0))
        else 1)
unfolding slot
slot_number cy ch = ground arith

slots_sum :
    (cy : Cycles) (l : List ℕ)
    → slots cy l
        + (count b'd' l
            + count b'x' l
            + count b'b' l
            + count b'm' l
            + count b'w' l
            + count b'n' l
            + count b'p' l
            + count b'q' l)
      ≡ length l
        + (count b'd' l * flag (not (cy.dl == 0))
            + count b'x' l * flag (not (cy.cross == 0) || not (cy.x16 == 0))
            + count b'b' l * flag (not (cy.taken == 0))
            + (count b'm' l + count b'p' l) * flag (not (cy.m16 == 0))
            + (count b'w' l + count b'q' l) * flag (not (cy.x16 == 0))
            + count b'n' l * flag (not (cy.native == 0)))
unfolding slots count slot
slots_sum cy [] = omega arith
slots_sum cy (ch ∷ l) = omega (
  arith,
  slots_sum cy l,
  slot_number cy ch,
  pick ch (flag (not (cy.dl == 0))) (flag (not (cy.cross == 0) || not (cy.x16 == 0)))
      (flag (not (cy.taken == 0))) (flag (not (cy.m16 == 0))) (flag (not (cy.x16 == 0)))
      (flag (not (cy.native == 0))),
)

-- A penalty of the table as a number of cycles.
unfoldable pub bits : ℕ → ℕ → ℕ → ℕ
bits pen bit by = if bit_and pen bit == 0 then 0 else by

-- The table and the letters of an opcode say the same.
unfoldable pub row_agrees : ℕ → ℕ → List ℕ → Bool
unfolding count bits
row_agrees base pen l =
    count b'd' l == bits pen p_dl 1
    && (count b'x' l == bits pen p_idx 1)
    && (count b'b' l == bits pen p_br 1)
    && (count b'm' l + count b'p' l == bits pen p_m 1 + bits pen p_m2 2)
    && (count b'w' l + count b'q' l == bits pen p_x 1)
    && (count b'n' l == bits pen p_rti 1)
    && (length l
        == base
          + (bits pen p_dl 1
              + bits pen p_idx 1
              + bits pen p_br 1
              + bits pen p_m 1
              + bits pen p_m2 2
              + bits pen p_x 1
              + bits pen p_rti 1))

-- The letters of an opcode; an opcode without a template has none.
unfoldable pub letters : ℕ → List ℕ
unfolding tmpl
letters op = elim (tmpl op) [ none ↦ [] | some t ↦ codes t ]

unfoldable pub all_below : (ℕ → Bool) → ℕ → Bool
all_below f zero = true
all_below f (suc n) = f n && all_below f n

and_left : (b c : Bool) → b && c ≡ true → b ≡ true
and_left true c h = refl
and_left false c h = h

and_right : (b c : Bool) → b && c ≡ true → c ≡ true
and_right true c h = h
and_right false c h = absurd (false≢true h)

pub all_below-at : (f : ℕ → Bool) (n i : ℕ) → i < n → all_below f n ≡ true → f i ≡ true
unfolding all_below
all_below-at f zero i p h = absurd (omega arith)
all_below-at f (suc n) i p h = elim (Bool-cases (i == n)) [
  | inl e ↦ ap f ((==_iff i n).0 e) ∙ and_left (f n) (all_below f n) h
  | inr e ↦ all_below-at f n i (ground arith) (and_right (f n) (all_below f n) h)
]

unfoldable pub opcode_agrees : ℕ → Bool
unfolding row_agrees letters cyc_base cyc_pen
opcode_agrees op = row_agrees (cyc_base op) (cyc_pen op) (letters op)

-- The tables of all 256 opcodes agree with their letters.
pub all_opcodes_agree : all_below opcode_agrees 256 ≡ true
unfolding all_below opcode_agrees
all_opcodes_agree = refl

penalty_number :
    (pen bit by : ℕ) (fact : Bool) → penalty pen bit fact by ≡ bits pen bit by * flag fact
unfolding penalty bits
penalty_number pen bit by true = ground arith
penalty_number pen bit by false = ground arith

row_equations :
    (base pen : ℕ) (l : List ℕ)
    → row_agrees base pen l ≡ true
    → (count b'd' l ≡ bits pen p_dl 1)
      × (count b'x' l ≡ bits pen p_idx 1)
      × (count b'b' l ≡ bits pen p_br 1)
      × (count b'm' l + count b'p' l ≡ bits pen p_m 1 + bits pen p_m2 2)
      × (count b'w' l + count b'q' l ≡ bits pen p_x 1)
      × (count b'n' l ≡ bits pen p_rti 1)
      × (length l
          ≡ base
            + (bits pen p_dl 1
                + bits pen p_idx 1
                + bits pen p_br 1
                + bits pen p_m 1
                + bits pen p_m2 2
                + bits pen p_x 1
                + bits pen p_rti 1))
unfolding row_agrees
row_equations base pen l h = ground arith

pub row_count :
    (cy : Cycles) (base pen : ℕ) (l : List ℕ)
    → row_agrees base pen l ≡ true
    → base
        + penalty pen p_m (not (cy.m16 == 0)) 1
        + penalty pen p_m2 (not (cy.m16 == 0)) 2
        + penalty pen p_x (not (cy.x16 == 0)) 1
        + penalty pen p_dl (not (cy.dl == 0)) 1
        + penalty pen p_idx (not (cy.cross == 0) || not (cy.x16 == 0)) 1
        + penalty pen p_br (not (cy.taken == 0)) 1
        + penalty pen p_rti (not (cy.native == 0)) 1
      ≡ slots cy l
row_count cy base pen l h =
    let (d, x, b, m, w, n, len) = row_equations base pen l h in
    let dl = flag (not (cy.dl == 0)) in
    let cross = flag (not (cy.cross == 0) || not (cy.x16 == 0)) in
    let taken = flag (not (cy.taken == 0)) in
    let m16 = flag (not (cy.m16 == 0)) in
    let x16 = flag (not (cy.x16 == 0)) in
    let native = flag (not (cy.native == 0)) in
    omega (
      arith,
      slots_sum cy l,
      d,
      x,
      b,
      m,
      w,
      n,
      len,
      ap (λ k. k * dl) d,
      ap (λ k. k * cross) x,
      ap (λ k. k * taken) b,
      ap (λ k. k * m16) m,
      ap (λ k. k * x16) w,
      ap (λ k. k * native) n,
      penalty_number pen p_m 1 (not (cy.m16 == 0)),
      penalty_number pen p_m2 2 (not (cy.m16 == 0)),
      penalty_number pen p_x 1 (not (cy.x16 == 0)),
      penalty_number pen p_dl 1 (not (cy.dl == 0)),
      penalty_number pen p_idx 1 (not (cy.cross == 0) || not (cy.x16 == 0)),
      penalty_number pen p_br 1 (not (cy.taken == 0)),
      penalty_number pen p_rti 1 (not (cy.native == 0)),
    )
