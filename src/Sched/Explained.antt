-- ===== src/Sched/Explained.antt =====
-- `not_native_reason` of runtime/sched.c against its `native_lookup`.
use ct_recomp.Base.{
  ℕ, Bool, true, false, Option, none, some, List, [], ◌∷◌, ◌≡◌, refl, ap, sym, ◌∙◌, ◌<◌, ◌==◌, ◌&&◌,
  ◌||◌, not, if◌then◌else◌, length, arith, long_addr, ==_false,
}
use mathlib.Core.Logic.{∥∥₁_elim}
use mathlib.Core.List.{Perm, Permᴰ}
use mathlib.Core.Bool.{or_assoc, true≢false, Bool-set}
use ct_recomp.Cpu.{Cpu, IsCpu}
use ct_recomp.Overlay.{Overlays}
use ct_recomp.Overlay.Lookup.{Wram, overlay_state}
use ct_recomp.Sched.Profile.{entry_key}
use ct_recomp.Sched.Native.{Func, native_entries, native_build, native_lookup, enters}
use ct_recomp.Sched.Search.{IsSorted, key_of, find, native_lookup-find}
use ct_recomp.Sched.Keys.{entry_at, key_bits, entry_of-entry_key}
use ct_recomp.Sched.Reason.{
  Reason, unexplained, Entry, Tally, no_tally, tally_one, tally_loop, reason_of, overlay_reason,
  not_native_reason,
}

abbrev pub is_some : {A : Type 0} → Option A → Bool
is_some none = false
is_some (some a) = true

abbrev pub is_unexplained : Reason → Bool
is_unexplained r = elim r [ unexplained ↦ true | _ ↦ false ]

-- A native function that the state enters, before and after the choice of `native_build`.
abbrev enterable : Cpu → Func → Bool
enterable c f = f.addr == long_addr c.pb c.pc && enters c f

abbrev compiled_for : Cpu → Func → Bool
compiled_for c f = (f.compiled && not f.calls_extern) && enterable c f

abbrev pub any : (Func → Bool) → List Func → Bool
any p [] = false
any p (f ∷ fs) = p f || any p fs

any-if :
    (p : Func → Bool) (b : Bool) (f : Func) (fs : List Func)
    → any p (if b then f ∷ fs else fs) ≡ (b && p f) || any p fs
any-if p true f fs = refl
any-if p false f fs = refl

is_some-if :
    (b : Bool) (f : Func) (o : Option Func) → is_some (if b then some f else o) ≡ b || is_some o
is_some-if true f o = refl
is_some-if false f o = refl

or_turn : (a b c : Bool) → (a || (b || c)) ≡ (b || (a || c))
or_turn true true c = refl
or_turn true false c = refl
or_turn false b c = refl

module _ (c : Cpu) where
  tally_one-exact :
      (f : Func) (t : Tally) → (tally_one (entry_at c) f t).exact ≡ compiled_for c f || t.exact
  unfolding tally_one enters
  tally_one-exact f t = ground arith

  tally_loop-exact :
      (fs : List Func) (t : Tally)
      → (tally_loop (entry_at c) fs t).exact ≡ any (compiled_for c) fs || t.exact
  unfolding tally_loop
  tally_loop-exact [] t = refl
  tally_loop-exact (f ∷ fs) t =
      tally_loop-exact fs (tally_one (entry_at c) f t)
      ∙ ap (λ (b : Bool). any (compiled_for c) fs || b) (tally_one-exact f t)
      ∙ or_turn (any (compiled_for c) fs) (compiled_for c f) t.exact
      ∙ sym (or_assoc (compiled_for c f) (any (compiled_for c) fs) t.exact)

  tally_one-found :
      (f : Func) (t : Tally)
      → (t.exact ≡ true → t.found ≡ true)
      → (tally_one (entry_at c) f t).exact ≡ true
      → (tally_one (entry_at c) f t).found ≡ true
  unfolding tally_one
  tally_one-found f t h = ground arith

  tally_loop-found :
      (fs : List Func) (t : Tally)
      → (t.exact ≡ true → t.found ≡ true)
      → (tally_loop (entry_at c) fs t).exact ≡ true
      → (tally_loop (entry_at c) fs t).found ≡ true
  unfolding tally_loop
  tally_loop-found [] t h = h
  tally_loop-found (f ∷ fs) t h =
      tally_loop-found fs (tally_one (entry_at c) f t) (tally_one-found f t h)

  native_entries-any :
      (fs : List Func) → any (enterable c) (native_entries fs) ≡ any (compiled_for c) fs
  unfolding native_entries
  native_entries-any [] = refl
  native_entries-any (f ∷ fs) =
      any-if (enterable c) (f.compiled && not f.calls_extern) f (native_entries fs)
      ∙ ap (λ (b : Bool). compiled_for c f || b) (native_entries-any fs)

  find-any : (fs : List Func) → is_some (find c (long_addr c.pb c.pc) fs) ≡ any (enterable c) fs
  unfolding find
  find-any [] = refl
  find-any (f ∷ fs) =
      is_some-if (enterable c f) f (find c (long_addr c.pb c.pc) fs)
      ∙ ap (λ (b : Bool). enterable c f || b) (find-any fs)

any_permuted : (p : Func → Bool) {xs ys : List Func} → Permᴰ xs ys → any p xs ≡ any p ys
any_permuted p Permᴰ.nil = refl
any_permuted p (Permᴰ.cons e d) = rw (e, any_permuted p d)
any_permuted p (Permᴰ.swap {l = l} e f) = rw (e, f, or_turn _ _ (any p l))
any_permuted p (Permᴰ.trans d e) = any_permuted p d ∙ any_permuted p e

any-Perm : (p : Func → Bool) {xs ys : List Func} → Perm xs ys → any p xs ≡ any p ys
any-Perm p {xs} {ys} h = ∥∥₁_elim h (Bool-set (any p xs) (any p ys)) (any_permuted p)

or_false : (b : Bool) → (b || false) ≡ b
or_false true = refl
or_false false = refl

reason_of-unexplained :
    (t : Tally) → (t.exact ≡ true → t.found ≡ true) → is_unexplained (reason_of t) ≡ t.exact
unfolding reason_of
reason_of-unexplained t h = ground arith

overlay_reason-none :
    (q : Entry) (fs : List Func) (r : Bool × Bool × Overlays)
    → r.0 ≡ false
    → (overlay_reason q fs r).0 ≡ reason_of (tally_loop q fs no_tally)
unfolding overlay_reason
overlay_reason-none q fs (true, true, o) h = absurd (true≢false h)
overlay_reason-none q fs (true, false, o) h = absurd (true≢false h)
overlay_reason-none q fs (false, b, o) h = refl

reason_in_native_mode :
    (c : Cpu) (w : Wram) (fs : List Func) (o : Overlays)
    → IsCpu c
    → c.fe ≡ 0
    → 0 < long_addr c.pb c.pc
    → (overlay_state (long_addr c.pb c.pc) c.fm c.fx w o).0 ≡ false
    → (not_native_reason w fs (entry_key c) o).0 ≡ reason_of (tally_loop (entry_at c) fs no_tally)
unfolding not_native_reason
reason_in_native_mode c w fs o h e a s =
    rw
      (
        entry_of-entry_key c h,
        ==_false (long_addr c.pb c.pc) 0 (omega (arith, a)),
        (key_bits c h).3,
        ap (λ (n : ℕ). not (n == 0)) e,
      )
      (overlay_reason-none (entry_at c) fs (overlay_state (long_addr c.pb c.pc) c.fm c.fx w o) s)

-- For a state in native mode at an address other than $000000 where there is no overlay, and a
-- table that qsort has sorted by address with the same entries, the profile's reason for the key
-- of the state is the unexplained one exactly when native_lookup finds a function for it.
pub not_native_reason-native_lookup :
    (qsort : List Func → List Func) (c : Cpu) (w : Wram) (fs : List Func) (o : Overlays)
    → IsCpu c
    → c.fe ≡ 0
    → 0 < long_addr c.pb c.pc
    → (overlay_state (long_addr c.pb c.pc) c.fm c.fx w o).0 ≡ false
    → IsSorted (length (native_build qsort fs)) (key_of (native_build qsort fs))
    → Perm (native_build qsort fs) (native_entries fs)
    → is_unexplained (not_native_reason w fs (entry_key c) o).0
      ≡ is_some (native_lookup true (native_build qsort fs) c)
not_native_reason-native_lookup qsort c w fs o h e a s sorted same =
    let native = native_build qsort fs in
    ap is_unexplained (reason_in_native_mode c w fs o h e a s)
    ∙ reason_of-unexplained (tally_loop (entry_at c) fs no_tally)
        (tally_loop-found c fs no_tally (λ p. p))
    ∙ tally_loop-exact c fs no_tally
    ∙ or_false (any (compiled_for c) fs)
    ∙ sym (native_entries-any c fs)
    ∙ sym (any-Perm (enterable c) same)
    ∙ sym (find-any c native)
    ∙ sym (ap is_some (native_lookup-find native c sorted e))
