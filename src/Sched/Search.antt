-- ===== src/Sched/Search.antt =====
-- `native_lookup` of runtime/sched.c finds what a search through the whole table finds.
use ct_recomp.Base.{
  ℕ, zero, suc, true, false, Option, none, some, List, [], ◌∷◌, ◌≡◌, ◌≢◌, refl, ap, sym, ◌∙◌, ◌+◌,
  ◌/◌, ◌<◌, ◌≤◌, ◌==◌, ltb, ◌&&◌, if◌then◌else◌, length, get_or, drop, arith, if_both, Bool-cases,
  ==_false, inl, inr, long_addr,
}
use ct_recomp.Cpu.{Cpu}
use ct_recomp.Sched.Native.{Func, first_from, enters, scan, no_func, native_lookup}

-- The keys of a table of `n` entries do not decrease.
pub record IsSorted (n : ℕ) (addr : ℕ → ℕ) : Type 0 where
  pub ascends : (i j : ℕ) → i ≤ j → j < n → addr i ≤ addr j

-- The first index at or after which no key is below `at`.
pub record IsFirst (n at : ℕ) (addr : ℕ → ℕ) (k : ℕ) : Type 0 where
  pub within : k ≤ n
  pub below : (i : ℕ) → i < k → addr i < at
  pub above : (i : ℕ) → k ≤ i → i < n → at ≤ addr i

-- What is known of the range that is searched.
record Narrowed (n at : ℕ) (addr : ℕ → ℕ) (lo hi : ℕ) : Type 0 where
  ordered : lo ≤ hi
  within : hi ≤ n
  below : (i : ℕ) → i < lo → addr i < at
  above : (i : ℕ) → hi ≤ i → i < n → at ≤ addr i

ltb_lt : (a b : ℕ) → ltb a b ≡ true → a < b
ltb_lt a b h = ground arith

ltb_ge : (a b : ℕ) → ltb a b ≡ false → b ≤ a
ltb_ge a b h = ground arith

first_from-IsFirst :
    (fuel n at : ℕ) (addr : ℕ → ℕ) (lo hi : ℕ)
    → IsSorted n addr
    → Narrowed n at addr lo hi
    → hi ≤ lo + fuel
    → IsFirst n at addr (first_from fuel addr at lo hi)
unfolding first_from
first_from-IsFirst zero n at addr lo hi s h f = record {
  within = omega (arith, h.ordered, h.within);
  below = h.below;
  above = λ i p. h.above i (omega arith);
}
first_from-IsFirst (suc fuel) n at addr lo hi s h f =
    let mid = (lo + hi) / 2 in
    if_both (IsFirst n at addr) (ltb lo hi) _ _
      (λ p.
        let q : lo < hi = ground arith in
        if_both (IsFirst n at addr) (ltb (addr mid) at) _ _
          (λ r.
            first_from-IsFirst fuel n at addr (mid + 1) hi s
              (record {
                ordered = omega arith;
                within = h.within;
                below = λ i k. omega (
                  arith,
                  s.ascends i mid (omega arith) (omega (arith, h.within)),
                  ltb_lt (addr mid) at r,
                );
                above = h.above;
              })
              (omega arith))
          (λ r.
            first_from-IsFirst fuel n at addr lo mid s
              (record {
                ordered = omega arith;
                within = omega (arith, h.within);
                below = h.below;
                above = λ i k l. omega (arith, s.ascends mid i k l, ltb_ge (addr mid) at r);
              })
              (omega arith)))
      (λ p. record {
        within = omega (arith, h.ordered, h.within);
        below = h.below;
        above = λ i k. h.above i (ground arith);
      })

-- The search through the whole table.
unfoldable pub find : Cpu → ℕ → List Func → Option Func
find c at [] = none
find c at (f ∷ fs) = let rest = find c at fs in if f.addr == at && enters c f then some f else rest

-- The keys of a list of entries.
abbrev pub key_of : List Func → ℕ → ℕ
key_of fs i = (get_or fs i no_func).addr

-- Hypotheses on a list, for its tail.
tail-IsSorted :
    (f : Func) (fs : List Func)
    → IsSorted (suc (length fs)) (key_of (f ∷ fs))
    → IsSorted (length fs) (key_of fs)
tail-IsSorted f fs s = record {
  ascends = λ i j p q. s.ascends (suc i) (suc j) (omega arith) (omega arith);
}

find-none :
    (c : Cpu) (at : ℕ) (fs : List Func)
    → ((i : ℕ) → i < length fs → at < key_of fs i)
    → find c at fs ≡ none
unfolding find
find-none c at [] h = refl
find-none c at (f ∷ fs) h =
    rw (==_false f.addr at (omega (arith, h 0 (omega arith))))
      (find-none c at fs (λ i p. h (suc i) (omega arith)))

unequal : (a b : ℕ) → (a == b) ≡ false → a ≢ b
unequal a b h = ground arith

scan-find :
    (c : Cpu) (at : ℕ) (fs : List Func)
    → IsSorted (length fs) (key_of fs)
    → ((i : ℕ) → i < length fs → at ≤ key_of fs i)
    → scan c at fs ≡ find c at fs
unfolding scan find
scan-find c at [] s h = refl
scan-find c at (f ∷ fs) s h = elim (Bool-cases (f.addr == at)) [
  | inl p ↦ rw p (
      ap (λ r. if enters c f then some f else r)
        (scan-find c at fs (tail-IsSorted f fs s) (λ i q. h (suc i) (omega arith))))
  | inr p ↦ rw p (
      sym (
        find-none c at fs (λ i q. omega (
          arith,
          h 0 (omega arith),
          unequal f.addr at p,
          s.ascends 0 (suc i) (omega arith) (omega arith),
        ))))
]

drop-find :
    (k : ℕ) (c : Cpu) (at : ℕ) (fs : List Func)
    → IsSorted (length fs) (key_of fs)
    → IsFirst (length fs) at (key_of fs) k
    → scan c at (drop k fs) ≡ find c at fs
unfolding find
drop-find zero c at fs s h = scan-find c at fs s (λ i p. h.above i (omega arith) p)
drop-find (suc k) c at [] s h = absurd (omega (arith, h.within))
drop-find (suc k) c at (f ∷ fs) s h =
    drop-find k c at fs (tail-IsSorted f fs s) (record {
      within = omega (arith, h.within);
      below = λ i p. h.below (suc i) (omega arith);
      above = λ i p q. h.above (suc i) (omega arith) (omega arith);
    })
    ∙ rw (==_false f.addr at (omega (arith, h.below 0 (omega arith))))

-- The guard of the lookup, where native code is on.
dispatched :
    (native : List Func) (c : Cpu)
    → c.fe ≡ 0
    → length native ≢ 0
    → native_lookup true native c
      ≡ scan c (long_addr c.pb c.pc) (
          drop
            (first_from (length native) (key_of native) (long_addr c.pb c.pc) 0 (length native))
            native)
unfolding native_lookup
dispatched native c e n = rw (native_lookup, e, ==_false (length native) 0 n)

-- On a table sorted by address, in native mode, the binary search of native_lookup finds the entry
-- that a search through the whole table finds first.
pub native_lookup-find :
    (native : List Func) (c : Cpu)
    → IsSorted (length native) (key_of native)
    → c.fe ≡ 0
    → native_lookup true native c ≡ find c (long_addr c.pb c.pc) native
unfolding find native_lookup
native_lookup-find [] c s e = rw (native_lookup, e)
native_lookup-find (f ∷ fs) c s e =
    let all = f ∷ fs in
    let n = length all in
    let at = long_addr c.pb c.pc in
    dispatched all c e (omega arith)
    ∙ drop-find (first_from n (key_of all) at 0 n) c at all s (
        first_from-IsFirst n n at (key_of all) 0 n s
          (record {
            ordered = omega arith;
            within = omega arith;
            below = λ i p. absurd (omega arith);
            above = λ i p q. absurd (omega arith);
          })
          (omega arith))
