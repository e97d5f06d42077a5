-- ===== src/Sched/Clock/Events.antt =====
-- The events of a line and its end move the clock of runtime/sched.c, and leave less to do.
use ct_recomp.Base.{
  ℕ, Bool, true, false, Option, none, some, not, ◌≡◌, refl, sym, ap, ◌∙◌, ◌≢◌, ◌+◌, ◌*◌, ◌<◌, ◌≤◌,
  ◌==◌, leb, if_both, Option-cases, ==_iff, ◌&&◌, if◌then◌else◌, flag, arith, inl, inr, ◌^◌,
}
use ct_recomp.Sched.{Line, Ports, Sched, Event, line_clocks, clocks_of_line}
use ct_recomp.Sched.{run_line, frame_yielded}
use ct_recomp.Sched.Irq.{irq_clock_for, irq_clock}
use ct_recomp.Sched.Advance.{
  emit, frame_start, vblank_start, read_pads, run_row, start_line, begun, begin_line, crossed,
  next_line, end_line, refresh,
}

-- HTIME is not one of the values that the timer does not model, whatever the line.
pub record TimerIsModelled (p : Ports) : Type 0 where
  pub clock_of : (ln : ℕ) → irq_clock_for p ln ≢ none

-- The master clock.
abbrev pub time : Line → ℕ
time l = l.line_start + l.hclock

-- The refreshes of all lines so far, and those paid before they come.
abbrev pub refreshes : Line → ℕ
refreshes l = l.frames * 262 + l.line + flag l.refresh_done + l.refresh_paid

-- An upper bound of the rounds that the loop can still take.
abbrev pub work : Line → ℕ
work l =
    l.hclock
    + 41 * flag (not l.refresh_done)
    + flag (not l.rdnmi_set)
    + flag (not l.rdnmi_cleared)
    + flag (not l.nmi_done)
    + flag (not l.irq_done)
    + flag (not l.hblank_done)

-- The most that hclock can come to before this line ends.
abbrev pub reach : Line → ℕ
reach l = l.hclock + 40 * flag (not l.refresh_done)

-- A round that handles an event.
pub record Moves (l l' : Line) : Type 0 where
  pub less : work l' < work l
  pub due : l'.refresh_at ≤ 538
  pub within : reach l' ≤ reach l
  pub balance : time l' + 40 * refreshes l ≡ time l + 40 * refreshes l'

module _ (l : Line) (due : l.refresh_at ≤ 538) where
  pub set-Moves : l.rdnmi_set ≡ false → Moves l (record l { rdnmi_set = true })
  set-Moves h = record {
    less = rw h (omega arith);
    due = due;
    within = omega arith;
    balance = refl;
  }

  pub clear-Moves : l.rdnmi_cleared ≡ false → Moves l (record l { rdnmi_cleared = true })
  clear-Moves h = record {
    less = rw h (omega arith);
    due = due;
    within = omega arith;
    balance = refl;
  }

  pub nmi-Moves : l.nmi_done ≡ false → Moves l (record l { nmi_done = true })
  nmi-Moves h = record {
    less = rw h (omega arith);
    due = due;
    within = omega arith;
    balance = refl;
  }

  pub irq-Moves : l.irq_done ≡ false → Moves l (record l { irq_done = true })
  irq-Moves h = record {
    less = rw h (omega arith);
    due = due;
    within = omega arith;
    balance = refl;
  }

  pub hblank-Moves : l.hblank_done ≡ false → Moves l (record l { hblank_done = true })
  hblank-Moves h = record {
    less = rw h (omega arith);
    due = due;
    within = omega arith;
    balance = refl;
  }

  pub refresh-Moves : reach l < 2 ^ 32 → l.refresh_done ≡ false → Moves l (refresh l)
  unfolding refresh
  refresh-Moves r h =
      let fits : l.hclock + 40 < 2 ^ 32 = omega (arith, ap (λ b. flag (not b)) h, r) in
      if_both (Moves l) (l.refresh_paid == 0) _ _
        (λ p. record {
          less = rw h (omega arith);
          due = due;
          within = rw h (omega arith);
          balance = rw h (omega arith);
        })
        (λ p. record {
          less = rw h (omega arith);
          due = due;
          within = rw h (omega arith);
          balance = rw h (ground arith);
        })

-- What a state keeps of the clock, and of the registers of the timer.
record Keeps (s s' : Sched) : Type 0 where
  hclock : s'.place.hclock ≡ s.place.hclock
  line_start : s'.place.line_start ≡ s.place.line_start
  line : s'.place.line ≡ s.place.line
  frames : s'.place.frames ≡ s.place.frames
  paid : s'.place.refresh_paid ≡ s.place.refresh_paid
  nmitimen : s'.ports.nmitimen ≡ s.ports.nmitimen
  htime : s'.ports.htime ≡ s.ports.htime
  vtime : s'.ports.vtime ≡ s.ports.vtime

keeps_trans : (s s' s'' : Sched) → Keeps s s' → Keeps s' s'' → Keeps s s''
keeps_trans s s' s'' h k = record {
  hclock = k.hclock ∙ h.hclock;
  line_start = k.line_start ∙ h.line_start;
  line = k.line ∙ h.line;
  frames = k.frames ∙ h.frames;
  paid = k.paid ∙ h.paid;
  nmitimen = k.nmitimen ∙ h.nmitimen;
  htime = k.htime ∙ h.htime;
  vtime = k.vtime ∙ h.vtime;
}

same : (s : Sched) → Keeps s s
same s = record {
  hclock = refl;
  line_start = refl;
  line = refl;
  frames = refl;
  paid = refl;
  nmitimen = refl;
  htime = refl;
  vtime = refl;
}

emit-Keeps : (e : Event) (s : Sched) → Keeps s (emit e s)
unfolding emit
emit-Keeps e s = record {
  hclock = refl;
  line_start = refl;
  line = refl;
  frames = refl;
  paid = refl;
  nmitimen = refl;
  htime = refl;
  vtime = refl;
}

frame_start-Keeps : (s : Sched) → Keeps s (frame_start s)
unfolding frame_start emit
frame_start-Keeps s =
    if_both (Keeps s) (s.place.line == 0) _ s
      (λ p. record {
        hclock = refl;
        line_start = refl;
        line = refl;
        frames = refl;
        paid = refl;
        nmitimen = refl;
        htime = refl;
        vtime = refl;
      })
      (λ p. same s)

vblank_start-Keeps : (s : Sched) → Keeps s (vblank_start s)
unfolding vblank_start emit
vblank_start-Keeps s =
    if_both (Keeps s) (s.place.line == 225) _ s
      (λ p. record {
        hclock = refl;
        line_start = refl;
        line = refl;
        frames = refl;
        paid = refl;
        nmitimen = refl;
        htime = refl;
        vtime = refl;
      })
      (λ p. same s)

read_pads-Keeps : (s : Sched) → Keeps s (read_pads s)
unfolding read_pads
read_pads-Keeps s = record {
  hclock = refl;
  line_start = refl;
  line = refl;
  frames = refl;
  paid = refl;
  nmitimen = refl;
  htime = refl;
  vtime = refl;
}

run_row-Keeps : (s : Sched) → Keeps s (run_row s)
unfolding run_row
run_row-Keeps s =
    if_both (Keeps s) (leb s.place.line 224) _ s (λ p. emit-Keeps (run_line s.place.line) s)
      (λ p. same s)

start_line-Keeps : (s : Sched) → Keeps s (start_line s)
unfolding start_line
start_line-Keeps s =
    let s1 = frame_start s in
    let s2 = vblank_start s1 in
    let s3 = read_pads s2 in
    keeps_trans s s1 _ (frame_start-Keeps s) (
      keeps_trans s1 s2 _ (vblank_start-Keeps s1)
        (keeps_trans s2 s3 _ (read_pads-Keeps s2) (run_row-Keeps s3)))

timer_same :
    (p p' : Ports) (ln : ℕ)
    → p'.nmitimen ≡ p.nmitimen
    → p'.htime ≡ p.htime
    → p'.vtime ≡ p.vtime
    → irq_clock_for p' ln ≡ irq_clock_for p ln
unfolding irq_clock_for
timer_same p p' ln e f g = rw (e, f, g)

timer-Keeps : (s s' : Sched) → Keeps s s' → TimerIsModelled s.ports → TimerIsModelled s'.ports
timer-Keeps s s' k t = record {
  clock_of =
      λ ln e. t.clock_of ln (sym (timer_same s.ports s'.ports ln k.nmitimen k.htime k.vtime) ∙ e);
}

-- The next line, at its start.
record Entered (l l' : Line) : Type 0 where
  clock : time l' ≡ time l
  less : l'.hclock + 1360 ≤ l.hclock
  index : l'.frames * 262 + l'.line ≡ l.frames * 262 + l.line + 1
  paid : l'.refresh_paid ≡ l.refresh_paid

pub long_enough : (l : Line) → (line_clocks l ≤ 1364) × (1360 ≤ line_clocks l)
unfolding line_clocks clocks_of_line
long_enough l = (ground arith, ground arith)

next_line-Entered : (l : Line) → line_clocks l ≤ l.hclock → Entered l (next_line l)
unfolding next_line
next_line-Entered l h =
    let fits = long_enough l in
    if_both (Entered l) (l.line + 1 == 262) _ _
      (λ p.
        let last : l.line + 1 ≡ 262 = (==_iff (l.line + 1) 262).0 p in
        record {
          clock = omega arith;
          less = omega (arith, fits);
          index = omega arith;
          paid = refl;
        })
      (λ p. record {
        clock = omega arith;
        less = omega (arith, fits);
        index = omega arith;
        paid = refl;
      })

-- What the start of the line leaves.
record Begun (s s' : Sched) : Type 0 where
  keeps : Keeps s s'
  fresh : s'.place.refresh_done ≡ false
  due : s'.place.refresh_at ≤ 538

begun-Begun : (at : Option ℕ) (s : Sched) → Begun s (begun at s)
unfolding begun
begun-Begun at s = record {
  keeps = record {
    hclock = refl;
    line_start = refl;
    line = refl;
    frames = refl;
    paid = refl;
    nmitimen = refl;
    htime = refl;
    vtime = refl;
  };
  fresh = refl;
  due = omega arith;
}

begin_line-begun :
    (s : Sched) (at : Option ℕ)
    → irq_clock_for (start_line s).ports (start_line s).place.line ≡ some at
    → begin_line s ≡ some (begun at (start_line s))
unfolding begin_line irq_clock
begin_line-begun s at h = rw (begin_line, h)

begin_line-Begun :
    (s : Sched) → TimerIsModelled s.ports → (s' : Sched) × (begin_line s ≡ some s') × Begun s s'
begin_line-Begun s t =
    let k = start_line-Keeps s in
    elim (Option-cases (irq_clock_for (start_line s).ports (start_line s).place.line)) [
      | inl e ↦ absurd ((timer-Keeps s (start_line s) k t).clock_of (start_line s).place.line e)
      | inr e ↦
          let b = begun-Begun e.0 (start_line s) in
          (
            begun e.0 (start_line s),
            begin_line-begun s e.0 e.1,
            record {
              keeps = keeps_trans s (start_line s) _ k b.keeps;
              fresh = b.fresh;
              due = b.due;
            },
          )
    ]

-- The flags count for five at most.
pub work_le : (l : Line) → work l ≤ l.hclock + 46
work_le l = ground arith

-- The end of a line crosses to the next one.
record Crossed (s s' : Sched) : Type 0 where
  entered : Entered s.place s'.place
  timed : TimerIsModelled s'.ports

crossed-Crossed :
    (hooked : Bool) (s : Sched)
    → TimerIsModelled s.ports
    → line_clocks s.place ≤ s.place.hclock
    → Crossed s (crossed hooked s)
unfolding crossed emit
crossed-Crossed hooked s t h =
    if_both (Crossed s) (s.place.line + 1 == 262 && hooked) _ _
      (λ p. record { entered = next_line-Entered s.place h; timed = t })
      (λ p. record { entered = next_line-Entered s.place h; timed = t })

-- A start of a line after the end of the last is a round that moves on.
Begun-Moves :
    (l : Line) (s s' : Sched)
    → l.refresh_done ≡ true
    → Entered l s.place
    → Begun s s'
    → Moves l s'.place
Begun-Moves l s s' p e b = record {
  less = omega (arith, work_le s'.place, e.less, b.keeps.hclock);
  due = b.due;
  within = rw (b.fresh, p, b.keeps.hclock) (omega (arith, e.less));
  balance =
      rw
        (b.fresh, p, b.keeps.line, b.keeps.frames, b.keeps.paid, b.keeps.hclock, b.keeps.line_start)
        (omega (arith, e.clock, e.index, e.paid));
}

end_line-some :
    (hooked : Bool) (s s' : Sched)
    → begin_line (crossed hooked s) ≡ some s'
    → end_line hooked s ≡ some (if s.place.line + 1 == 262 then emit frame_yielded s' else s')
unfolding end_line
end_line-some hooked s s' h = rw (end_line, h)

emitted :
    (P : Line → Ports → Type 0) (b : Bool) (e : Event) (s : Sched)
    → P s.place s.ports
    → P (if b then emit e s else s).place (if b then emit e s else s).ports
unfolding emit
emitted P b e s h = if_both (λ (x : Sched). P x.place x.ports) b _ _ (λ p. h) (λ p. h)

abbrev pub Good : Line → Line → Ports → Type 0
Good l l' p = Moves l l' × TimerIsModelled p

pub end_line-Moves :
    (hooked : Bool) (s : Sched)
    → TimerIsModelled s.ports
    → s.place.refresh_done ≡ true
    → line_clocks s.place ≤ s.place.hclock
    → (s' : Sched) × (end_line hooked s ≡ some s') × Good s.place s'.place s'.ports
end_line-Moves hooked s t p h =
    let c = crossed-Crossed hooked s t h in
    let b = begin_line-Begun (crossed hooked s) c.timed in
    (
      _,
      end_line-some hooked s b.0 b.1,
      emitted (Good s.place) (s.place.line + 1 == 262) frame_yielded b.0 (
        Begun-Moves s.place (crossed hooked s) b.0 p c.entered b.2,
        timer-Keeps (crossed hooked s) b.0 b.2.keeps c.timed,
      ),
    )
