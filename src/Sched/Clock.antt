-- ===== src/Sched/Clock.antt =====
-- The clock of runtime/sched.c: `advance` ends, and the master clock has moved by what it should.
pub mod Events
use ct_recomp.Base.{
  ℕ, zero, suc, Bool, true, false, Option, none, some, List, [], ◌∷◌, not, ◌≡◌, refl, ap, sym, ◌∙◌,
  ◌≢◌, ◌+◌, ◌-◌, ◌*◌, ◌%◌, ◌<◌, ◌≤◌, ◌==◌, leb, ltb, if_both, Option-cases, ==_iff, ◌&&◌,
  if◌then◌else◌, flag, arith, Bool-cases, inl, inr, u32, ◌^◌,
}
use mathlib.Core.Bool.{true≢false}
use ct_recomp.Sched.{Line, Ports, Sched, Event, line_clocks, clocks_of_line, sched_vblank_line}
use ct_recomp.Sched.{run_line, frame_yielded}
use ct_recomp.Sched.Irq.{irq_clock_for, irq_clock}
use ct_recomp.Sched.Advance.{
  emit, frame_start, vblank_start, read_pads, run_row, start_line, begun, begin_line, crossed,
  next_line, end_line, refresh, raise_irq, set_rdnmi, clear_rdnmi, nmi_event, hblank, irq_due,
  irq_early, Round, goes, stops, fails, round, Advanced, advanced, failed, cut, rounds, advance,
}
use ct_recomp.Sched.Clock.Events.{
  Good, Moves, TimerIsModelled, clear-Moves, end_line-Moves, hblank-Moves, irq-Moves, long_enough,
  nmi-Moves, reach, refresh-Moves, refreshes, set-Moves, time, work, work_le,
}

abbrev Fine : Sched → Round → Type 0
Fine s (goes s') = Moves s.place s'.place × TimerIsModelled s'.ports
Fine s (stops s') = (s' ≡ s) × (s.place.hclock < line_clocks s.place)
Fine s fails = ⊥

end_round :
    (s : Sched) (o : Option Sched)
    → (s' : Sched) × (o ≡ some s') × Good s.place s'.place s'.ports
    → Fine s (elim o [ none ↦ fails | some s' ↦ goes s' ])
end_round s o h = rw (h.1) (h.2)

record IsFine (s : Sched) (r : Round) : Type 0 where
  fine : Fine s r

IsFine-event :
    (s s' : Sched) → Moves s.place s'.place → TimerIsModelled s'.ports → IsFine s (goes s')
IsFine-event s s' m t = record { fine = (m, t) }

module _ (s : Sched) (t : TimerIsModelled s.ports) (d : s.place.refresh_at ≤ 538) where
  raise_irq-IsFine : s.place.irq_done ≡ false → IsFine s (goes (raise_irq s))
  unfolding raise_irq irq_clock_for
  raise_irq-IsFine h = IsFine-event s _ (irq-Moves s.place d h) (record { clock_of = t.clock_of })

  set_rdnmi-IsFine : s.place.rdnmi_set ≡ false → IsFine s (goes (set_rdnmi s))
  unfolding set_rdnmi irq_clock_for
  set_rdnmi-IsFine h = IsFine-event s _ (set-Moves s.place d h) (record { clock_of = t.clock_of })

  clear_rdnmi-IsFine : s.place.rdnmi_cleared ≡ false → IsFine s (goes (clear_rdnmi s))
  unfolding clear_rdnmi irq_clock_for
  clear_rdnmi-IsFine h =
      IsFine-event s _ (clear-Moves s.place d h) (record { clock_of = t.clock_of })

  nmi_event-IsFine : s.place.nmi_done ≡ false → IsFine s (goes (nmi_event s))
  unfolding nmi_event
  nmi_event-IsFine h = IsFine-event s _ (nmi-Moves s.place d h) t

  hblank-IsFine : s.place.hblank_done ≡ false → IsFine s (goes (hblank s))
  unfolding hblank emit
  hblank-IsFine h = IsFine-event s _ (hblank-Moves s.place d h) (
      if_both (λ (x : Sched). TimerIsModelled x.ports) (ltb s.place.line 225) _ _ (λ _. t) (λ _. t))

and_not : (a b : Bool) → (not a && b) ≡ true → a ≡ false
and_not true b h = sym h
and_not false b h = refl

and_first : (a b : Bool) → (a && b) ≡ true → a ≡ true
and_first true b h = refl
and_first false b h = h

and_second : (a b c : Bool) → (a && not b && c) ≡ true → b ≡ false
and_second true b c h = and_not b c h
and_second false b c h = absurd (true≢false (sym h))

-- The refresh has passed when the end of the line has come.
refreshed :
    (l : Line)
    → l.refresh_at ≤ 538
    → (not l.refresh_done && leb l.refresh_at l.hclock) ≡ false
    → line_clocks l ≤ l.hclock
    → l.refresh_done ≡ true
refreshed l d h k = let big = long_enough l in ground arith

leb_le : (a b : ℕ) → leb a b ≡ true → a ≤ b
leb_le a b h = ground arith

leb_gt : (a b : ℕ) → leb a b ≡ false → b < a
leb_gt a b h = ground arith

stop-IsFine : (s : Sched) → s.place.hclock < line_clocks s.place → IsFine s (stops s)
stop-IsFine s h = record { fine = (refl, h) }

round-IsFine :
    (hooked : Bool) (s : Sched)
    → TimerIsModelled s.ports
    → s.place.refresh_at ≤ 538
    → reach s.place < 2 ^ 32
    → IsFine s (round hooked s)
unfolding round
round-IsFine hooked s t d w =
    let l = s.place in
    let b1 = l.line == 225 && not l.rdnmi_set && leb 2 l.hclock in
    let b2 = l.line == 0 && not l.rdnmi_cleared && leb 2 l.hclock in
    let b3 = not l.nmi_done && leb 6 l.hclock in
    let b4 = not l.refresh_done && leb l.refresh_at l.hclock in
    let b5 = not l.irq_done && irq_early l && irq_due l in
    let b6 = not l.hblank_done && leb 1104 l.hclock in
    let b7 = not l.irq_done && irq_due l in
    let b8 = leb (line_clocks l) l.hclock in
    let r9 : Round = elim (end_line hooked s) [ none ↦ fails | some s' ↦ goes s' ] in
    let r8 = if b8 then r9 else stops s in
    let r7 = if b7 then goes (raise_irq s) else r8 in
    let r6 = if b6 then goes (hblank s) else r7 in
    let r5 = if b5 then goes (raise_irq s) else r6 in
    let r4 = if b4 then goes (record s { place = refresh l }) else r5 in
    let r3 = if b3 then goes (nmi_event s) else r4 in
    let r2 = if b2 then goes (clear_rdnmi s) else r3 in
    if_both (IsFine s) b1 (goes (set_rdnmi s)) r2
      (λ h. set_rdnmi-IsFine s t d (and_second (l.line == 225) l.rdnmi_set (leb 2 l.hclock) h))
      (λ _.
        if_both (IsFine s) b2 (goes (clear_rdnmi s)) r3
          (λ h.
            clear_rdnmi-IsFine s t d (and_second (l.line == 0) l.rdnmi_cleared (leb 2 l.hclock) h))
          (λ _.
            if_both (IsFine s) b3 (goes (nmi_event s)) r4
              (λ h. nmi_event-IsFine s t d (and_not l.nmi_done (leb 6 l.hclock) h))
              (λ _.
                if_both (IsFine s) b4 (goes (record s { place = refresh l })) r5
                  (λ h.
                    IsFine-event s _
                      (refresh-Moves l d w (and_not l.refresh_done (leb l.refresh_at l.hclock) h))
                      t)
                  (λ r.
                    if_both (IsFine s) b5 (goes (raise_irq s)) r6
                      (λ h. raise_irq-IsFine s t d (
                        and_not l.irq_done (irq_early l)
                          (and_first (not l.irq_done && irq_early l) (irq_due l) h)))
                      (λ _.
                        if_both (IsFine s) b6 (goes (hblank s)) r7
                          (λ h. hblank-IsFine s t d (and_not l.hblank_done (leb 1104 l.hclock) h))
                          (λ _.
                            if_both (IsFine s) b7 (goes (raise_irq s)) r8
                              (λ h. raise_irq-IsFine s t d (and_not l.irq_done (irq_due l) h))
                              (λ _.
                                if_both (IsFine s) b8 r9 (stops s)
                                  (λ h.
                                    let k = leb_le (line_clocks l) l.hclock h in
                                    record {
                                      fine =
                                          end_round s (end_line hooked s)
                                            (end_line-Moves hooked s t (refreshed l d r k) k);
                                    })
                                  (λ h. stop-IsFine s (leb_gt (line_clocks l) l.hclock h)))))))))

-- How the loop has ended.
pub record Settled (clocks : ℕ) (s s' : Sched) : Type 0 where
  pub in_line : s'.place.hclock < line_clocks s'.place
  pub balance :
      time s'.place + 40 * refreshes s.place ≡ time s.place + clocks + 40 * refreshes s'.place

Settled-after : (s s' s'' : Sched) → Moves s.place s'.place → Settled 0 s' s'' → Settled 0 s s''
Settled-after s s' s'' m h = record {
  in_line = h.in_line;
  balance = omega (arith, m.balance, h.balance);
}

abbrev Ends : Sched → Advanced → Type 0
Ends s r = (s' : Sched) × (r ≡ advanced s') × Settled 0 s s'

-- After a round, given that the rest of the loop ends.
round-Ends :
    (fuel : ℕ) (hooked : Bool) (s : Sched) (r : Round)
    → ((s' : Sched)
        → TimerIsModelled s'.ports
        → s'.place.refresh_at ≤ 538
        → reach s'.place < 2 ^ 32
        → work s'.place < fuel
        → Ends s' (rounds fuel hooked s'))
    → work s.place ≤ fuel
    → reach s.place < 2 ^ 32
    → IsFine s r
    → Ends s (elim r [ goes s' ↦ rounds fuel hooked s' | stops s' ↦ advanced s' | fails ↦ failed ])
round-Ends fuel hooked s (goes s') rest h w f =
    let m = f.fine.0 in
    let e = rest s' f.fine.1 m.due (omega (arith, m.within)) (omega (arith, m.less)) in
    (e.0, e.1, Settled-after s s' e.0 m e.2)
round-Ends fuel hooked s (stops s') rest h w f =
    (s, ap advanced f.fine.0, record { in_line = f.fine.1; balance = omega arith })
round-Ends fuel hooked s fails rest h w f = absurd f.fine

rounds-Ends :
    (fuel : ℕ) (hooked : Bool) (s : Sched)
    → TimerIsModelled s.ports
    → s.place.refresh_at ≤ 538
    → reach s.place < 2 ^ 32
    → work s.place < fuel
    → Ends s (rounds fuel hooked s)
unfolding rounds
rounds-Ends zero hooked s t d w h = absurd (omega arith)
rounds-Ends (suc fuel) hooked s t d w h =
    round-Ends fuel hooked s (round hooked s) (rounds-Ends fuel hooked) (omega arith) w
      (round-IsFine hooked s t d w)

reach_of : (l : Line) → l.hclock + 40 < 2 ^ 32 → reach l < 2 ^ 32
reach_of l h = ground arith

-- While HTIME is not one of the values that the timer does not model, and this line's refresh is
-- at clock 538 or before, advance ends for every number of clocks whose sum with hclock and a
-- refresh's 40 clocks is below 2^32, if the fuel is above hclock, the clocks and 46: hclock is
-- then inside its line, and the master clock has moved by the clocks, and by 40 for every DRAM
-- refresh passed that was not paid before.
pub advance-Settled :
    (fuel : ℕ) (hooked : Bool) (clocks : ℕ) (s : Sched)
    → TimerIsModelled s.ports
    → s.place.refresh_at ≤ 538
    → s.place.hclock + clocks + 40 < 2 ^ 32
    → s.place.hclock + clocks + 46 < fuel
    → (s' : Sched) × (advance fuel hooked clocks s ≡ advanced s') × Settled clocks s s'
unfolding advance
advance-Settled fuel hooked clocks s t d w h =
    let l = record s.place { hclock = u32 (s.place.hclock + clocks) } in
    let e =
      rounds-Ends fuel hooked (record s { place = l }) t d (reach_of l (omega arith))
        (omega (arith, work_le l)) in
    (e.0, e.1, record { in_line = e.2.in_line; balance = omega (arith, e.2.balance) })
