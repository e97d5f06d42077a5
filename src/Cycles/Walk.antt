-- ===== src/Cycles/Walk.antt =====
-- `cyc_cycles` of runtime/cycles.c: the current instruction cycle by cycle.
use Prim.Native.Char.{code}
use Prim.Native.String.{String}
use ct_recomp.Base.{
  ℕ, zero, suc, Bool, true, false, not, List, [], ◌∷◌, Option, some, none, ◌+◌, ◌-◌,
}
use ct_recomp.Base.{◌==◌, ltb, leb, if◌then◌else◌, ◌&&◌, ◌||◌, bit_and, min}
use ct_recomp.Bus.{Bus}
use ct_recomp.Bus.Log.{ct_bus_log, ct_bus_fetch, ct_bus_write}
use ct_recomp.Machine.{Cycles}
use ct_recomp.Cycles.Template.{tmpl}

abbrev pub codes : String → List ℕ
codes String.[] = []
codes (String.◌∷◌ c s) = code c ∷ codes s

-- `CY_READ`, `CY_WRITE`, `CY_IDLE`.
pub data Kind : Type 0 where
  cy_read cy_write cy_idle : Kind

-- One entry of `clk`, `kind` and `idx`; `none` is the index -1.
pub record Cycle : Type 0 where
  pub clk : ℕ
  pub kind : Kind
  pub idx : Option ℕ

-- The switch over a letter: whether the cycle takes place, and as which letter.
unfoldable pub slot : Cycles → ℕ → Bool × ℕ
slot cy ch =
    if ch == b'd'
    then (not (cy.dl == 0), b'I')
    else if ch == b'x'
    then (not (cy.cross == 0) || not (cy.x16 == 0), b'I')
    else if ch == b'b'
    then (not (cy.taken == 0), b'I')
    else if ch == b'm'
    then (not (cy.m16 == 0), b'D')
    else if ch == b'w'
    then (not (cy.x16 == 0), b'D')
    else if ch == b'n'
    then (not (cy.native == 0), b'D')
    else if ch == b'p'
    then (not (cy.m16 == 0), b'O')
    else if ch == b'q'
    then (not (cy.x16 == 0), b'O')
    else (true, ch)

-- `!p == !q` of two tests.
same : Bool → Bool → Bool
same true q = q
same false q = not q

-- The inner loop: on to the next log entry of the wanted sort. The first argument is what is left
-- of the log, `logged - cursor`.
unfoldable pub seek : ℕ → (ℕ → ℕ) → Bool → ℕ → ℕ
unfolding same
seek zero log fetch cursor = cursor
seek (suc left) log fetch cursor =
    let on = seek left log fetch (cursor + 1) in
    if same (not (bit_and (log cursor) ct_bus_fetch == 0)) fetch then cursor else on

-- What the rest of the loop does with the next values of `n`, `fe` and `da`.
abbrev pub Rest : Type 0
Rest = ℕ → ℕ → ℕ → List Cycle

-- `*cursor == upto`.
unfoldable pub stops : Option ℕ → ℕ → Bool
stops none cursor = false
stops (some k) cursor = cursor == k

-- The branch of the loop's body that takes an entry of the log; `upto` is `none` for ~0u.
unfoldable pub take_access : Bus → Option ℕ → Bool → ℕ → ℕ → ℕ → Rest → List Cycle
unfolding stops
take_access b upto fetch n fe da rest =
    let logged = min b.accesses ct_bus_log in
    let start = if fetch then fe else da in
    let cursor = seek (logged - start) b.log fetch start in
    let fe' = λ (k : ℕ). if fetch then k else fe in
    let da' = λ (k : ℕ). if fetch then da else k in
    let e = b.log cursor in
    let entry : Kind → Cycle = λ k. record { clk = bit_and e 0x3F; kind = k; idx = some cursor } in
    let this : Cycle =
      if not (bit_and e ct_bus_write == 0) then entry cy_write else entry cy_read in
    let missing : Option ℕ → List Cycle = λ u. elim u [
      | some k ↦ []
      | none ↦
          record { clk = 6; kind = cy_read; idx = none } ∷ rest (n + 1) (fe' cursor) (da' cursor)
    ] in
    if leb logged cursor
    then missing upto
    else if stops upto cursor
    then this ∷ []
    else this ∷ rest (n + 1) (fe' (cursor + 1)) (da' (cursor + 1))

-- The loop's body for a letter that takes place.
unfoldable pub take_cycle : Cycles → Bus → Option ℕ → ℕ → ℕ → ℕ → ℕ → Rest → List Cycle
take_cycle cy b upto ch n fe da rest =
    if ch == b'F' || (ch == b'O' && not (cy.compiled == 0))
    then record { clk = cy.speed; kind = cy_read; idx = none } ∷ rest (n + 1) fe da
    else if ch == b'I'
    then record { clk = 6; kind = cy_idle; idx = none } ∷ rest (n + 1) fe da
    else take_access b upto (ch == b'O') n fe da rest

-- The loop over the letters.
unfoldable pub walk : Cycles → Bus → ℕ → Option ℕ → List ℕ → Rest
unfolding slot
walk cy b limit upto [] n fe da = []
walk cy b limit upto (ch ∷ t) n fe da =
    if ltb n limit
    then (if (slot cy ch).0
        then take_cycle cy b upto (slot cy ch).1 n fe da (walk cy b limit upto t)
        else walk cy b limit upto t n fe da)
    else []

-- `tmpl_int`, an interrupt entry.
abbrev pub tmpl_int : String
tmpl_int = "FIDDDDDD"

unfoldable pub cyc_cycles : Cycles → Bus → ℕ → Option ℕ → List Cycle
cyc_cycles cy b limit upto = elim (if cy.interrupt == 0 then tmpl cy.op else some tmpl_int) [
  | none ↦ []
  | some t ↦ walk cy b limit upto (codes t) 0 0 0
]
