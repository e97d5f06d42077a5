-- ===== src/Cycles/Length.antt =====
-- How many cycles `cyc_cycles` of runtime/cycles.c lists.
use Prim.Native.String.{String}
use ct_recomp.Base.{
  ℕ, suc, Bool, true, false, not, List, [], ◌∷◌, Option, some, none, ◌≡◌, refl, ap, ◌∙◌, ◌+◌, ◌-◌,
  ◌<◌, ◌≤◌, arith, min, length, flag, ◌==◌, ltb, if◌then◌else◌, ◌&&◌, ◌||◌,
}
use ct_recomp.Bus.{Bus}
use ct_recomp.Machine.{Cycles}
use ct_recomp.Cycles.Table.{cyc_base, cyc_pen}
use ct_recomp.Cycles.Template.{tmpl}
use ct_recomp.Cycles.Model.{cycle_count}
use ct_recomp.Cycles.Walk.{
  codes, slot, walk, take_cycle, take_access, stops, cyc_cycles, Cycle, Rest,
}
use ct_recomp.Cycles.Letters.{
  slots, letters, opcode_agrees, row_count, all_below-at, all_opcodes_agree,
}

-- A list of a known length.
record HasLength (k : ℕ) (xs : List Cycle) : Type 0 where
  len : length xs ≡ k

longer : {k : ℕ} {x : Cycle} {xs : List Cycle} → HasLength k xs → HasLength (suc k) (x ∷ xs)
longer h = record { len = ap suc h.len }

both :
    (t : Bool) {xs ys : List Cycle} {k : ℕ}
    → HasLength k xs
    → HasLength k ys
    → HasLength k (if t then xs else ys)
both true p q = p
both false p q = q

take_access-length :
    (b : Bus) (fetch : Bool) (n fe da k : ℕ) (rest : Rest)
    → ((fe' da' : ℕ) → HasLength k (rest (n + 1) fe' da'))
    → HasLength (suc k) (take_access b none fetch n fe da rest)
unfolding take_access stops
take_access-length b fetch n fe da k rest h = both _ (longer (h _ _)) (longer (h _ _))

take_cycle-length :
    (cy : Cycles) (b : Bus) (ch n fe da k : ℕ) (rest : Rest)
    → ((fe' da' : ℕ) → HasLength k (rest (n + 1) fe' da'))
    → HasLength (suc k) (take_cycle cy b none ch n fe da rest)
unfolding take_cycle
take_cycle-length cy b ch n fe da k rest h =
    both (ch == b'F' || (ch == b'O' && not (cy.compiled == 0))) (longer (h fe da))
      (both (ch == b'I') (longer (h fe da)) (take_access-length b (ch == b'O') n fe da k rest h))

-- The walk without a stop gives a cycle for every letter that takes place, up to the limit.
walk-length :
    (cy : Cycles) (b : Bus) (limit : ℕ) (l : List ℕ) (n fe da : ℕ)
    → HasLength (min (slots cy l) (limit - n)) (walk cy b limit none l n fe da)
unfolding walk slots
walk-length cy b limit [] n fe da = record { len = omega arith }
walk-length cy b limit (ch ∷ l) n fe da =
    let skipped = walk-length cy b limit l n fe da in
    let taken =
      take_cycle-length cy b (slot cy ch).1 n fe da (min (slots cy l) (limit - (n + 1)))
        (walk cy b limit none l) (λ fe' da'. walk-length cy b limit l (n + 1) fe' da') in
    record { len = by_room (ltb n limit) (slot cy ch).0 _ _ refl skipped.len taken.len }
  where
    by_room :
        (room on : Bool) (xs ys : List Cycle)
        → ltb n limit ≡ room
        → length xs ≡ min (slots cy l) (limit - n)
        → length ys ≡ suc (min (slots cy l) (limit - (n + 1)))
        → length (if room then (if on then ys else xs) else [])
          ≡ min (flag on + slots cy l) (limit - n)
    by_room true true xs ys e p q = ground arith
    by_room true false xs ys e p q = ground arith
    by_room false on xs ys e p q = ground arith

-- The same for the letters of a template that may be missing.
listed :
    (cy : Cycles) (b : Bus) (limit : ℕ) (o : Option String)
    → length (elim o [ none ↦ [] | some t ↦ walk cy b limit none (codes t) 0 0 0 ])
      ≡ min (slots cy (elim o [ none ↦ [] | some t ↦ codes t ])) limit
unfolding slots
listed cy b limit none = omega arith
listed cy b limit (some t) = omega (arith, (walk-length cy b limit (codes t) 0 0 0).len)

-- For every opcode byte and all mode bits, outside an interrupt entry, the list of cycles that
-- cyc_cycles makes for a whole instruction has as many entries as model_clocks counts by the table
-- of base cycles and penalties, if the caller's limit is at least that count.
pub cyc_cycles-length :
    (cy : Cycles) (b : Bus) (limit : ℕ)
    → cy.op < 256
    → cy.interrupt ≡ 0
    → cycle_count cy ≤ limit
    → length (cyc_cycles cy b limit none) ≡ cycle_count cy
unfolding cyc_cycles cycle_count letters opcode_agrees
cyc_cycles-length cy b limit p q r =
    let same =
      row_count cy (cyc_base cy.op) (cyc_pen cy.op) (letters cy.op)
        (all_below-at opcode_agrees 256 cy.op p all_opcodes_agree) in
    let chosen : (if cy.interrupt == 0 then tmpl cy.op else some "FIDDDDDD") ≡ tmpl cy.op =
      ap (λ k. if k == 0 then tmpl cy.op else some "FIDDDDDD") q in
    ap
      (λ (o : Option String).
        length (elim o [ none ↦ [] | some t ↦ walk cy b limit none (codes t) 0 0 0 ]))
      chosen
    ∙ (listed cy b limit (tmpl cy.op) ∙ omega (arith, same, r))
