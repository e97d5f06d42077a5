-- ===== src/Input/Clean.antt =====
-- No key is both held and ignored by the filter of frontend/input.c.
use ct_recomp.Base.{
  ℕ, Bool, true, false, not, ◌≡◌, refl, sym, ==_iff, leb, ◌==◌, ◌&&◌, if◌then◌else◌, update,
  if_both, Bool-cases, inl, inr,
}
use ct_recomp.Input.Filter.{KeyFilter, key_filter_key, key_filter_button, near_button, duplicate}

pub record IsClean (kf : KeyFilter) : Type 0 where
  pub apart : (k : ℕ) → (kf.held k && kf.ignored k) ≡ false

-- One key held or ignored more.
set_apart :
    (held ignored : ℕ → Bool) (sc k : ℕ) (h i : Bool)
    → (h && i) ≡ false
    → ((k : ℕ) → (held k && ignored k) ≡ false)
    → (update held sc h k && update ignored sc i k) ≡ false
set_apart held ignored sc k h i e c = elim (Bool-cases (k == sc)) [
  | inl p ↦ rw p e
  | inr p ↦ rw p (c k)
]

hold_apart :
    (held ignored : ℕ → Bool) (sc k : ℕ)
    → ignored sc ≡ false
    → ((k : ℕ) → (held k && ignored k) ≡ false)
    → (update held sc true k && ignored k) ≡ false
hold_apart held ignored sc k e c = elim (Bool-cases (k == sc)) [
  | inl p ↦ rw (p, (==_iff k sc).0 p, e)
  | inr p ↦ rw p (c k)
]

not-true : (b : Bool) → not b ≡ true → b ≡ false
not-true true h = sym h
not-true false h = refl

drop_apart :
    (b h i : Bool)
    → (h && i) ≡ false
    → ((if b then false else h) && (if b then true else i)) ≡ false
drop_apart true h i e = refl
drop_apart false h i e = e

-- If no key is both held and ignored, none is after a key event or after a controller button.
pub key_filter-IsClean :
    (n sc frame : ℕ) (down : Bool) (kf : KeyFilter)
    → IsClean kf
    → IsClean (key_filter_key n sc down frame kf) × IsClean (key_filter_button n frame kf)
unfolding key_filter_key key_filter_button
key_filter-IsClean n sc frame down kf c = (
  if_both IsClean (leb n sc) _ _ (λ _. c)
      (λ _.
        if_both IsClean (not down) _ _
          (λ _. record { apart = λ k. set_apart kf.held kf.ignored sc k false false refl c.apart })
          (λ _.
            if_both IsClean (near_button kf frame) _ _
              (λ _. record {
                apart = λ k. set_apart kf.held kf.ignored sc k false true refl c.apart;
              })
              (λ _.
                if_both IsClean (not (kf.ignored sc)) _ _
                  (λ h. record {
                    apart = λ k.
                        hold_apart kf.held kf.ignored sc k (not-true (kf.ignored sc) h) c.apart;
                  })
                  (λ _. record { apart = c.apart })))),
  if_both IsClean (not kf.controller) _ _ (λ _. record { apart = c.apart })
      (λ _. record {
        apart = λ k. drop_apart (duplicate n frame kf k) (kf.held k) (kf.ignored k) (c.apart k);
      }),
)
