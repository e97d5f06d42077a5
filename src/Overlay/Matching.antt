-- ===== src/Overlay/Matching.antt =====
-- What `overlay_lookup` of runtime/overlay.c returns is compiled from the bytes that WRAM holds.
use ct_recomp.Base.{
  ℕ, zero, suc, true, Option, none, some, not, ◌≡◌, refl, ap, sym, ◌∙◌, ◌+◌, ◌==◌, ◌&&◌, ◌||◌,
  if◌then◌else◌, length, update_eq, arith, if_both, Bool-cases, ==_iff, inl, inr, long_addr,
}
use mathlib.Core.Path.{subst}
use mathlib.Core.Option.{none-ne-some, some-injective}
use ct_recomp.Cpu.{Cpu}
use ct_recomp.Overlay.{OverlayFunc, Check, Overlays}
use ct_recomp.Overlay.Lookup.{
  Wram, page_gens, matches, refreshed, valid, entry, lookup_loop, overlay_lookup,
}

-- A check of the cache that is up to date with WRAM tells whether the bytes match: the counters of
-- the pages only grow, and bytes change only with them.
pub record IsCache (w : Wram) (o : Overlays) : Type 0 where
  pub current :
      (k : ℕ)
      → (o.cache k).checked ≡ true
      → (o.cache k).gens ≡ page_gens (entry o k) w.gen
      → (o.cache k).valid ≡ matches (entry o k) w.wram

-- The check of `valid` is up to date.
refreshed-valid :
    (w : Wram) (f : OverlayFunc) (c : Check)
    → (c.checked ≡ true → c.gens ≡ page_gens f w.gen → c.valid ≡ matches f w.wram)
    → (refreshed w f c).valid ≡ matches f w.wram
unfolding refreshed
refreshed-valid w f c h = elim (Bool-cases (not c.checked || not (c.gens == page_gens f w.gen))) [
  | inl p ↦ rw p
  | inr p ↦ rw p (ground arith)
]

valid-matches :
    (w : Wram) (k : ℕ) (o : Overlays)
    → IsCache w o
    → ((valid w k o).cache k).valid ≡ matches (entry o k) w.wram
unfolding valid
valid-matches w k o c =
    ap (λ (x : Check). x.valid) (update_eq o.cache k k (refreshed w (entry o k) (o.cache k)) refl)
    ∙ refreshed-valid w (entry o k) (o.cache k) (c.current k)

valid-IsCache : (w : Wram) (k : ℕ) (o : Overlays) → IsCache w o → IsCache w (valid w k o)
unfolding valid
valid-IsCache w k o c = record {
  current = λ i.
      if_both
        (λ (x : Check).
          x.checked ≡ true
          → x.gens ≡ page_gens (entry o i) w.gen
          → x.valid ≡ matches (entry o i) w.wram)
        (i == k) _ _
        (λ p _ _.
          subst (λ j. (refreshed w (entry o k) (o.cache k)).valid ≡ matches (entry o j) w.wram)
            (sym ((==_iff i k).0 p)) (refreshed-valid w (entry o k) (o.cache k) (c.current k)))
        (λ _. c.current i);
}

-- The table is not changed.
valid-ovl : (w : Wram) (k : ℕ) (o : Overlays) → (valid w k o).ovl ≡ o.ovl
unfolding valid
valid-ovl w k o = refl

-- An entry that may run natively now.
pub record Runs (c : Cpu) (w : Wram) (at : ℕ) (f : OverlayFunc) : Type 0 where
  pub entered_at : f.addr ≡ at
  pub m_agrees : f.m ≡ c.fm
  pub x_agrees : f.x ≡ c.fx
  pub bytes_match : matches f w.wram ≡ true

-- What a lookup returns runs, and the cache stays up to date.
abbrev pub Found : Cpu → Wram → ℕ → Option OverlayFunc × Overlays → Type 0
Found c w at r = ((f : OverlayFunc) → r.0 ≡ some f → Runs c w at f) × IsCache w r.1

no_result : (c : Cpu) (w : Wram) (at : ℕ) (o : Overlays) → IsCache w o → Found c w at (none, o)
no_result c w at o h = (λ f e. absurd (none-ne-some f e), h)

-- An entry at the address, of the right state: it runs, or the search goes on.
hit_or_next :
    (c : Cpu) (w : Wram) (k at : ℕ) (o : Overlays)
    → IsCache w o
    → (f : OverlayFunc) → f ≡ entry o k
    → (f.addr == at) ≡ true
    → (f.m == c.fm && f.x == c.fx) ≡ true
    → (rest : Option OverlayFunc × Overlays) → Found c w at rest
    → Found c w at (
        if ((valid w k o).cache k).valid
        then (some f, record (valid w k o) { overlay_last_idx = k })
        else rest)
hit_or_next c w k at o h f e p q rest r =
    let later = valid-IsCache w k o h in
    if_both (Found c w at) ((valid w k o).cache k).valid _ _
      (λ v. (
        λ g same. subst (Runs c w at) (some-injective f g same) (record {
          entered_at = (==_iff f.addr at).0 p;
          m_agrees = ground arith;
          x_agrees = ground arith;
          bytes_match = ap (λ x. matches x w.wram) e ∙ sym (valid-matches w k o h) ∙ v;
        }),
        record { current = later.current },
      ))
      (λ _. r)

lookup_loop-Found :
    (n k at : ℕ) (c : Cpu) (w : Wram) (o : Overlays)
    → IsCache w o
    → Found c w at (lookup_loop n k at c w o)
unfolding lookup_loop
lookup_loop-Found zero k at c w o h = no_result c w at o h
lookup_loop-Found (suc n) k at c w o h =
    let f = entry o k in
    let fits = f.m == c.fm && f.x == c.fx in
    if_both (Found c w at) (f.addr == at) _ _
      (λ p. elim (Bool-cases fits) [
        | inl q ↦ rw q (
            hit_or_next c w k at o h f refl p q (lookup_loop n (k + 1) at c w (valid w k o))
              (lookup_loop-Found n (k + 1) at c w (valid w k o) (valid-IsCache w k o h)))
        | inr q ↦ rw q (lookup_loop-Found n (k + 1) at c w o h)
      ])
      (λ _. no_result c w at o h)

-- If the cached checks that are up to date with the page counters are right, an entry that
-- overlay_lookup returns is compiled for PB:PC and the CPU's M and X, and WRAM hashes to the code
-- it was compiled from; the cached checks stay right.
pub overlay_lookup-Found :
    (c : Cpu) (w : Wram) (o : Overlays)
    → IsCache w o
    → Found c w (long_addr c.pb c.pc) (overlay_lookup c w o)
unfolding overlay_lookup
overlay_lookup-Found c w o h =
    if_both (Found c w (long_addr c.pb c.pc))
      (c.fe == 1 || (not (c.pb == 0x7E) && not (c.pb == 0x7F)) || length o.ovl == 0) _ _
      (λ _. no_result c w _ o h) (λ _. lookup_loop-Found _ _ _ c w o h)
