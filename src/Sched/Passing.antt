-- ===== src/Sched/Passing.antt =====
-- `walk_pass` of runtime/sched.c ends, and the walk's clock has moved by what it should.
use ct_recomp.Base.{
  ℕ, zero, suc, Bool, true, false, Option, none, some, not, ◌≡◌, refl, sym, ◌≢◌, ◌+◌, ◌-◌, ◌*◌, ◌%◌,
  ◌<◌, ◌≤◌, ◌==◌, ltb, ◌&&◌, flag, arith, if_both,
}
use ct_recomp.Sched.{Ports, Pending, clocks_of_line}
use ct_recomp.Sched.Irq.{irq_clock_for}
use ct_recomp.Sched.Clock.Events.{TimerIsModelled}
use ct_recomp.Sched.Walk.{
  Walk, HdmaAnswers, Kind, end_of_line, nmi_point, irq_point, init_point, refresh_point, hdma_point,
  walk_line_clocks, earlier, walk_next, Pass, walk_event, walk_next_line, Passed, passed,
  walk_failed, pass_loop, walk_pass,
}

-- What is so of an event that `walk_next` gives.
abbrev Ready : Walk → Kind × ℕ → Type 0
Ready w (end_of_line, e) = e ≡ w.ls + walk_line_clocks w
Ready w (nmi_point, e) = w.nmi_done ≡ false
Ready w (irq_point, e) = w.irq_done ≡ false
Ready w (init_point, e) = w.init_done ≡ false
Ready w (refresh_point, e) = w.refresh_done ≡ false
Ready w (hdma_point, e) = w.hdma_done ≡ false

earlier-Ready :
    (w : Walk) (b : Bool) (k : Kind) (at : ℕ) (e : Kind × ℕ)
    → (b ≡ true → Ready w (k, at))
    → Ready w e
    → Ready w (earlier b k at e)
unfolding earlier
earlier-Ready w false k at e f h = h
earlier-Ready w true k at e f h = if_both (Ready w) (ltb at e.1) _ _ (λ _. f refl) (λ _. h)

unset : (a b : Bool) → (a && not b) ≡ true → b ≡ false
unset true false h = refl
unset true true h = sym h
unset false b h = ground arith

unset_first : (a b : Bool) → (not a && b) ≡ true → a ≡ false
unset_first true b h = sym h
unset_first false b h = refl

irq-Ready :
    (w : Walk) (at : Option ℕ) (e : Kind × ℕ)
    → Ready w e
    → Ready w (elim at as (λ _. Kind × ℕ) [
      | none ↦ e
      | some k ↦ earlier (not w.irq_done) irq_point (w.ls + k) e
    ])
irq-Ready w none e h = h
irq-Ready w (some k) e h =
    earlier-Ready w (not w.irq_done) irq_point (w.ls + k) e (λ p. unset true w.irq_done p) h

walk_next-Ready : (w : Walk) → Ready w (walk_next w)
unfolding walk_next
walk_next-Ready w =
    let e0 : Kind × ℕ = (end_of_line, w.ls + walk_line_clocks w) in
    let b1 = w.line == 225 && not w.nmi_done in
    let e1 = earlier b1 nmi_point (w.ls + 6) e0 in
    let e2 : Kind × ℕ = elim w.irq_at [
      | none ↦ e1
      | some at ↦ earlier (not w.irq_done) irq_point (w.ls + at) e1
    ] in
    let b3 = w.line == 0 && not w.init_done in
    let e3 = earlier b3 init_point (w.ls + 12 + w.ls % 8) e2 in
    let e4 = earlier (not w.refresh_done) refresh_point (w.ls + 538 - w.ls % 8) e3 in
    let b5 = not w.hdma_done && ltb w.line 225 in
    let h1 =
      earlier-Ready w b1 nmi_point (w.ls + 6) e0 (λ p. unset (w.line == 225) w.nmi_done p) refl in
    let h2 = irq-Ready w w.irq_at e1 h1 in
    let h3 =
      earlier-Ready w b3 init_point (w.ls + 12 + w.ls % 8) e2
        (λ p. unset (w.line == 0) w.init_done p) h2 in
    let h4 =
      earlier-Ready w (not w.refresh_done) refresh_point (w.ls + 538 - w.ls % 8) e3
        (λ p. unset true w.refresh_done p) h3 in
    earlier-Ready w b5 hdma_point (w.ls + 1104) e4 (λ p. unset_first w.hdma_done (ltb w.line 225) p)
      h4

-- An upper bound of the rounds that the loop can still take.
abbrev pub left : Pass → ℕ
left p =
    p.end_at
    - p.walk.ls
    + 41 * flag (not p.walk.refresh_done)
    + flag (not p.walk.hdma_done)
    + flag (not p.walk.init_done)
    + flag (not p.walk.nmi_done)
    + flag (not p.walk.irq_done)

-- A round of the loop.
record Nears (p p' : Pass) : Type 0 where
  less : left p' < left p
  balance : p'.end_at + 40 * p.walk.refreshes ≡ p.end_at + 40 * p'.walk.refreshes

abbrev Handles : Pass → Option Pass → Type 0
Handles p none = ⊥
Handles p (some p') = Nears p p'

long_enough : (w : Walk) → 1360 ≤ walk_line_clocks w
unfolding walk_line_clocks clocks_of_line
long_enough w = ground arith

next_line-Nears :
    (p : Pass) (e : ℕ) (at : Option ℕ)
    → e ≡ p.walk.ls + walk_line_clocks p.walk
    → e ≤ p.end_at
    → Nears p (record p { walk = walk_next_line e at p.walk })
unfolding walk_next_line
next_line-Nears p e at h k =
    let long = long_enough p.walk in record { less = ground arith; balance = refl }

next_line-Handles :
    (p : Pass) (e : ℕ) (o : Option (Option ℕ))
    → o ≢ none
    → e ≡ p.walk.ls + walk_line_clocks p.walk
    → e ≤ p.end_at
    → Handles p
        (elim o [ none ↦ none | some at ↦ some (record p { walk = walk_next_line e at p.walk }) ])
next_line-Handles p e none n h k = n refl
next_line-Handles p e (some at) n h k = next_line-Nears p e at h k

walk_event-Handles :
    (hd : HdmaAnswers) (ports : Ports) (k : Kind) (e : ℕ) (p : Pass)
    → TimerIsModelled ports
    → Ready p.walk (k, e)
    → e ≤ p.end_at
    → Handles p (walk_event hd ports k e p)
unfolding walk_event
walk_event-Handles hd ports refresh_point e p t h le = record {
  less = rw h (omega arith);
  balance = omega arith;
}
walk_event-Handles hd ports hdma_point e p t h le = record {
  less = rw h (omega arith);
  balance = refl;
}
walk_event-Handles hd ports init_point e p t h le = record {
  less = rw h (omega arith);
  balance = refl;
}
walk_event-Handles hd ports nmi_point e p t h le = record {
  less = rw h (omega arith);
  balance = refl;
}
walk_event-Handles hd ports irq_point e p t h le = record {
  less = rw h (omega arith);
  balance = refl;
}
walk_event-Handles hd ports end_of_line e p t h le =
    next_line-Handles p e (irq_clock_for ports _) (t.clock_of _) h le

ltb_ge : (a b : ℕ) → ltb a b ≡ false → b ≤ a
ltb_ge a b h = ground arith

left_le : (p : Pass) → left p ≤ p.end_at - p.walk.ls + 45
left_le p = ground arith

-- How the loop has ended.
record HasPassed (p p' : Pass) : Type 0 where
  now : p'.walk.t ≡ p'.end_at
  balance : p'.end_at + 40 * p.walk.refreshes ≡ p.end_at + 40 * p'.walk.refreshes

abbrev Ends : Pass → Passed → Type 0
Ends p r = (p' : Pass) × (r ≡ passed p') × HasPassed p p'

-- After an event, given that the rest of the loop ends.
handled-Ends :
    (p : Pass) (o : Option Pass) (next : Pass → Passed)
    → Handles p o
    → ((p' : Pass) → left p' < left p → Ends p' (next p'))
    → Ends p (elim o [ none ↦ walk_failed | some p' ↦ next p' ])
handled-Ends p none next h rest = absurd h
handled-Ends p (some p') next h rest =
    let e = rest p' h.less in
    (e.0, e.1, record { now = e.2.now; balance = omega (arith, h.balance, e.2.balance) })

tested-Ends :
    (p : Pass) (b : Bool) (x y : Passed)
    → (b ≡ true → Ends p x)
    → (b ≡ false → Ends p y)
    → Ends p (elim b [ true ↦ x | false ↦ y ])
tested-Ends p true x y f g = f refl
tested-Ends p false x y f g = g refl

pass_loop-Ends :
    (fuel : ℕ) (hd : HdmaAnswers) (ports : Ports) (p : Pass)
    → TimerIsModelled ports
    → left p < fuel
    → Ends p (pass_loop fuel hd ports p)
unfolding pass_loop
pass_loop-Ends zero hd ports p t h = absurd (omega arith)
pass_loop-Ends (suc fuel) hd ports p t h =
    tested-Ends p (ltb p.end_at (walk_next p.walk).1) _ _
      (λ q. (_, refl, record { now = refl; balance = refl }))
      (λ q.
        handled-Ends p _ (λ p'. pass_loop fuel hd ports p')
          (walk_event-Handles hd ports (walk_next p.walk).0 (walk_next p.walk).1 p t
            (walk_next-Ready p.walk) (ltb_ge p.end_at (walk_next p.walk).1 q))
          (λ p' l. pass_loop-Ends fuel hd ports p' t (omega arith)))

-- The clock of a walk after `clocks` of CPU or DMA time.
pub record Walked (clocks : ℕ) (w w' : Walk) : Type 0 where
  pub balance : w'.t + 40 * w.refreshes ≡ w.t + clocks + 40 * w'.refreshes

-- While HTIME is not one of the values that the timer does not model, walk_pass ends for every
-- number of clocks, if the fuel is above the clocks, the place in the line and 45; the walk's
-- clock has then moved by the clocks, and by 40 for every refresh that it passed.
pub walk_pass-Walked :
    (fuel : ℕ) (hd : HdmaAnswers) (ports : Ports) (clocks sample : ℕ) (w : Walk) (pend : Pending)
    → TimerIsModelled ports
    → w.t - w.ls + clocks + 45 < fuel
    → (p : Pass) × (walk_pass fuel hd ports clocks sample w pend ≡ passed p)
      × Walked clocks w p.walk
unfolding walk_pass
walk_pass-Walked fuel hd ports clocks sample w pend t h =
    let p0 : Pass = record { walk = w; pend = pend; end_at = w.t + clocks; smp = w.t + sample } in
    let e = pass_loop-Ends fuel hd ports p0 t (omega (arith, left_le p0)) in
    (e.0, e.1, record { balance = omega (arith, e.2.now, e.2.balance) })
