-- ===== src/Interp/Total.antt =====
-- Total correctness: a call that returns, and what it returns satisfies.
use ct_recomp.Base.{Bool, true, false, ◌≡◌, sym}
use mathlib.Core.Bool.{true≢false}
use ct_recomp.Machine.{Machine, M, Result, done, fatal, ◌>>=◌, ◌>>◌, pure, when}

-- The call returns, and what it returns satisfies `Q`.
abbrev pub Returns : {A : Type 0} → (A → Machine → Type 0) → Result A → Type 0
Returns Q (done a w) = Q a w
Returns Q (fatal e) = ⊥

module _ {A B : Type 0} where
  pub after_bind :
      (P : A → Machine → Type 0) (Q : B → Machine → Type 0) (m : M A) (f : A → M B) (w : Machine)
      → Returns P (m w)
      → ((a : A) (u : Machine) → P a u → Returns Q (f a u))
      → Returns Q ((m >>= f) w)
  unfolding ◌>>=◌
  after_bind P Q m f w h k = go (m w) h
    where
      go :
          (r : Result A) → Returns P r → Returns Q (elim r [ done a u ↦ f a u | fatal e ↦ fatal e ])
      go (done a u) p = k a u p
      go (fatal e) p = absurd p

  pub after_then :
      (P : A → Machine → Type 0) (Q : B → Machine → Type 0) (m : M A) (n : M B) (w : Machine)
      → Returns P (m w)
      → ((a : A) (u : Machine) → P a u → Returns Q (n u))
      → Returns Q ((m >> n) w)
  unfolding ◌>>◌
  after_then P Q m n w h k = go (m w) h
    where
      go : (r : Result A) → Returns P r → Returns Q (elim r [ done a u ↦ n u | fatal e ↦ fatal e ])
      go (done a u) p = k a u p
      go (fatal e) p = absurd p

pub weaken :
    {A : Type 0} (P Q : A → Machine → Type 0) (r : Result A)
    → Returns P r
    → ((a : A) (u : Machine) → P a u → Q a u)
    → Returns Q r
weaken P Q (done a u) h k = k a u h
weaken P Q (fatal e) h k = absurd h

module _ {A : Type 0} (Q : A → Machine → Type 0) (m : M (Unit {0})) where
  pub skip_when :
      (b : Bool) (n : M A) (w : Machine)
      → b ≡ false
      → Returns Q (n w)
      → Returns Q ((when b m >> n) w)
  unfolding when ◌>>◌ pure
  skip_when true n w h r = absurd (true≢false h)
  skip_when false n w h r = r

pub do_when :
    (Q : Unit {0} → Machine → Type 0) (m : M (Unit {0})) (b : Bool) (w : Machine)
    → b ≡ true
    → Returns Q (m w)
    → Returns Q (when b m w)
unfolding when
do_when Q m true w h r = r
do_when Q m false w h r = absurd (true≢false (sym h))
