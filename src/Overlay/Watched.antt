-- ===== src/Overlay/Watched.antt =====
-- The watched range of runtime/overlay.c covers the code that runs.
use ct_recomp.Base.{
  ℕ, true, false, some, List, [], ◌∷◌, not, ◌≡◌, refl, ◌+◌, ◌%◌, ◌<◌, ◌≤◌, ◌==◌, ltb, ◌&&◌,
  if◌then◌else◌, length, arith, if_both, Bool-cases, inl, inr, ◌≢◌, ==_true, ==_false, u32, sub32,
}
use mathlib.Core.Bool.{true≢false}
use ct_recomp.Overlay.{OverlayFunc, Act, Overlays}
use ct_recomp.Overlay.Active.{
  Watch, widen, watch, with_watch, overlay_enter, leave_to, overlay_leave, covering, rewatch,
  go_dormant,
}

-- A byte of WRAM in a range.
pub record IsIn (w : Watch) (a : ℕ) : Type 0 where
  pub above : w.lo ≤ a
  pub below : a < w.lo + w.len

-- A range within WRAM.
pub record Fits (w : Watch) : Type 0 where
  pub fits : w.lo + w.len ≤ 0x20000

-- The code of a function, from its first to its last byte.
pub record IsCode (f : OverlayFunc) (a : ℕ) : Type 0 where
  pub above : f.lo % 0x20000 ≤ a
  pub below : a ≤ f.hi % 0x20000

-- What a widened range covers.
pub record Covers (f : OverlayFunc) (old new : Watch) : Type 0 where
  pub fits : Fits new
  pub keeps : (a : ℕ) → IsIn old a → IsIn new a
  pub covers : (a : ℕ) → IsCode f a → IsIn new a

-- The ends of a widened range.
abbrev low : ℕ → ℕ → ℕ → ℕ
low lo len flo = if not (len == 0) && ltb lo flo then lo else flo

abbrev high : ℕ → ℕ → ℕ → ℕ
high len ohi fhi = if not (len == 0) && ltb fhi ohi then ohi else fhi

low_le : (lo len flo : ℕ) → (low lo len flo ≤ flo) × (1 ≤ len → low lo len flo ≤ lo)
low_le lo len flo = (ground arith, λ h. ground arith)

high_le :
    (len ohi fhi : ℕ)
    → ohi ≤ 0x20000
    → fhi ≤ 0x20000
    → (fhi ≤ high len ohi fhi) × (1 ≤ len → ohi ≤ high len ohi fhi) × (high len ohi fhi ≤ 0x20000)
high_le len ohi fhi h k = (ground arith, λ p. ground arith, ground arith)

sub32_le : (a b : ℕ) → b ≤ a → a ≤ 0x20000 → b + sub32 a b ≡ a
sub32_le a b h k = omega arith

widen-Covers :
    (f : OverlayFunc) (w : Watch)
    → f.lo % 0x20000 ≤ f.hi % 0x20000
    → Fits w
    → Covers f w (widen f w)
unfolding widen
widen-Covers f w h k =
    let flo = f.lo % 0x20000 in
    let fhi = f.hi % 0x20000 + 1 in
    let ohi = u32 (w.lo + w.len) in
    let same : ohi ≡ w.lo + w.len = omega (arith, k.fits) in
    let l = low_le w.lo w.len flo in
    let u = high_le w.len ohi fhi (omega (arith, k.fits)) (omega arith) in
    let e = sub32_le (high w.len ohi fhi) (low w.lo w.len flo) (omega (arith, l.0, u.0)) u.2 in
    record {
      fits = record { fits = omega (arith, e, u.2) };
      keeps = λ a i. record {
        above = omega (arith, l.1 (omega (arith, i.above, i.below)), i.above);
        below = omega (arith, e, u.1 (omega (arith, i.above, i.below)), i.below);
      };
      covers = λ a i. record {
        above = omega (arith, l.0, i.above);
        below = omega (arith, e, u.0, i.below);
      };
    }

-- Every function that still runs its own code is in the range.
abbrev pub AllWatched : List Act → Watch → Type 0
AllWatched [] w = Unit
AllWatched (a ∷ outer) w =
    (a.dormant ≡ false → (k : ℕ) → IsCode a.f k → IsIn w k) × AllWatched outer w

-- The functions that run were compiled from an unbroken range.
abbrev pub AllPlaced : List Act → Type 0
AllPlaced [] = Unit
AllPlaced (a ∷ outer) = (a.f.lo % 0x20000 ≤ a.f.hi % 0x20000) × AllPlaced outer

AllWatched-mono :
    (acts : List Act) (v w : Watch)
    → ((k : ℕ) → IsIn v k → IsIn w k)
    → AllWatched acts v
    → AllWatched acts w
AllWatched-mono [] v w h a = tt
AllWatched-mono (x ∷ xs) v w h a = (λ d k c. h k (a.0 d k c), AllWatched-mono xs v w h a.1)

-- `rewatch` watches them, and stays within WRAM.
covering-AllWatched :
    (acts : List Act) → AllPlaced acts → Fits (covering acts) × AllWatched acts (covering acts)
unfolding covering
covering-AllWatched [] p = (record { fits = omega arith }, tt)
covering-AllWatched (a ∷ outer) p =
    let rest = covering-AllWatched outer p.1 in
    let wide = widen-Covers a.f (covering outer) p.0 rest.0 in
    elim (Bool-cases a.dormant) [
      | inl d ↦ rw d (rest.0, (λ e. absurd (true≢false e), rest.1))
      | inr d ↦ rw d (
        wide.fits,
        (λ _ k c. wide.covers k c, AllWatched-mono outer (covering outer) _ wide.keeps rest.1),
      )
    ]

enter_is :
    (f : OverlayFunc) (idx s0 : ℕ) (o : Overlays)
    → length o.act ≢ 64
    → overlay_enter f idx s0 o
      ≡ some (
          with_watch (widen f (watch o)) (record o {
            act =
                record {
                  f = f;
                  idx = idx;
                  s0 = s0;
                  dormant = false;
                  lo = o.watch_lo;
                  len = o.watch_len;
                }
                ∷ o.act;
          }))
unfolding overlay_enter
enter_is f idx s0 o h = rw (==_false (length o.act) 64 h)

leave_entered :
    (a : Act) (outer : List Act) (o : Overlays)
    → leave_to (length outer) (a ∷ outer) o
      ≡ record o { act = outer; watch_lo = a.lo; watch_len = a.len }
unfolding leave_to
leave_entered a outer o = rw (==_true (length outer) (length outer) refl)

-- With fewer than 64 functions running, for a function compiled from an unbroken range,
-- overlay_enter leaves a watched range within WRAM that covers the code of every running function
-- that is not dormant, if the range before did; overlay_leave then gives back the state before.
pub overlay_enter-AllWatched :
    (f : OverlayFunc) (idx s0 : ℕ) (o : Overlays)
    → length o.act ≢ 64
    → f.lo % 0x20000 ≤ f.hi % 0x20000
    → Fits (watch o)
    → AllWatched o.act (watch o)
    → (o' : Overlays) × (overlay_enter f idx s0 o ≡ some o')
      × AllWatched o'.act (watch o')
      × Fits (watch o')
      × (overlay_leave (length o.act) o' ≡ o)
unfolding overlay_leave
overlay_enter-AllWatched f idx s0 o n h k a =
    let c = widen-Covers f (watch o) h k in
    (
      _,
      enter_is f idx s0 o n,
      (λ _ b i. c.covers b i, AllWatched-mono o.act (watch o) _ c.keeps a),
      c.fits,
      leave_entered _ o.act _,
    )

-- `go_dormant` on the list of the functions.
abbrev dormant_top : List Act → Overlays → Overlays
dormant_top acts o = elim acts [
  | [] ↦ o
  | a ∷ outer ↦
      if a.dormant then o else rewatch (record o { act = record a { dormant = true } ∷ outer })
]

top-AllWatched :
    (acts : List Act) (o : Overlays)
    → AllPlaced acts
    → AllWatched o.act (watch o)
    → AllWatched (dormant_top acts o).act (watch (dormant_top acts o))
unfolding rewatch
top-AllWatched [] o p h = h
top-AllWatched (a ∷ outer) o p h =
    if_both (λ (x : Overlays). AllWatched x.act (watch x)) a.dormant _ _ (λ _. h)
      (λ _. (covering-AllWatched (record a { dormant = true } ∷ outer) p).1)

-- If the running functions were compiled from unbroken ranges and the watched range covers all
-- that are not dormant, it still does after go_dormant.
pub go_dormant-AllWatched :
    (o : Overlays)
    → AllPlaced o.act
    → AllWatched o.act (watch o)
    → AllWatched (go_dormant o).act (watch (go_dormant o))
unfolding go_dormant
go_dormant-AllWatched o p a = top-AllWatched o.act o p a
