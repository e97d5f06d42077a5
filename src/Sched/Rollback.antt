-- ===== src/Sched/Rollback.antt =====
-- The frame hook of runtime/sched.c sees the memory of the edge, and the instruction's memory is
-- put back.
use ct_recomp.Base.{
  ℕ, zero, suc, Bool, true, false, some, ◌≡◌, ◌≢◌, refl, ap, sym, ◌∙◌, ◌+◌, ◌-◌, ◌<◌, ◌==◌,
  if◌then◌else◌, arith, Bool-cases, ==_iff, inl, inr,
}
use ct_recomp.Bus.{Bus}
use ct_recomp.Sched.Edge.{put_back, roll_back, roll_forward, journalled, edge_wram, after_edge}

-- Two memories with the same bytes.
abbrev Same : (ℕ → ℕ) → (ℕ → ℕ) → Type 0
Same v w = (i : ℕ) → v i ≡ w i

put_back-Same :
    (off v : ℕ → ℕ) (k : ℕ) (w w' : ℕ → ℕ)
    → Same w w'
    → Same (put_back off v k w) (put_back off v k w')
unfolding put_back
put_back-Same off v k w w' h i = elim (Bool-cases (off k == 0)) [
  | inl p ↦ rw p (h i)
  | inr p ↦ rw p (ap (λ x. if i == off k - 1 then v k else x) (h i))
]

roll_back-Same :
    (b : Bus) (from m : ℕ) (w w' : ℕ → ℕ)
    → Same w w'
    → Same (roll_back b from m w) (roll_back b from m w')
unfolding roll_back
roll_back-Same b from zero w w' h = h
roll_back-Same b from (suc m) w w' h =
    roll_back-Same b from m _ _ (put_back-Same b.wram_off b.wram_old (from + m) w w' h)

roll_forward-Same :
    (b : Bus) (from m : ℕ) (w w' : ℕ → ℕ)
    → Same w w'
    → Same (roll_forward b from m w) (roll_forward b from m w')
unfolding roll_forward
roll_forward-Same b from zero w w' h = h
roll_forward-Same b from (suc m) w w' h =
    put_back-Same b.wram_off b.wram_new (from + m) _ _ (roll_forward-Same b from m w w' h)

-- The journal of the accesses from `from` on, from the memory `edge` on: each old byte is the one
-- that its write replaced.
pub record IsJournal (b : Bus) (from : ℕ) (edge : ℕ → ℕ) : Type 0 where
  pub olds :
      (k : ℕ)
      → k < journalled b from
      → b.wram_off (from + k) ≢ 0
      → b.wram_old (from + k) ≡ roll_forward b from k edge (b.wram_off (from + k) - 1)
  pub now : (i : ℕ) → b.wram i ≡ roll_forward b from (journalled b from) edge i

not_none : (n : ℕ) → (n == 0) ≡ false → n ≢ 0
not_none n h = ground arith

restored : (b : Bool) (x y z : ℕ) → (b ≡ true → x ≡ z) → (if b then x else (if b then y else z)) ≡ z
restored true x y z h = h refl
restored false x y z h = refl

undo_one :
    (off old new : ℕ → ℕ) (k : ℕ) (w : ℕ → ℕ)
    → (off k ≢ 0 → old k ≡ w (off k - 1))
    → Same (put_back off old k (put_back off new k w)) w
unfolding put_back
undo_one off old new k w h i = elim (Bool-cases (off k == 0)) [
  | inl p ↦ rw p refl
  | inr p ↦ rw p (
      restored (i == off k - 1) (old k) (new k) (w i)
        (λ q. h (not_none (off k) p) ∙ ap w (sym ((==_iff i (off k - 1)).0 q))))
]

roll_back-forward :
    (b : Bus) (from m : ℕ) (edge : ℕ → ℕ)
    → ((k : ℕ)
        → k < m
        → b.wram_off (from + k) ≢ 0
        → b.wram_old (from + k) ≡ roll_forward b from k edge (b.wram_off (from + k) - 1))
    → Same (roll_back b from m (roll_forward b from m edge)) edge
unfolding roll_back roll_forward
roll_back-forward b from zero edge h i = refl
roll_back-forward b from (suc m) edge h i =
    roll_back-Same b from m _ _
      (undo_one b.wram_off b.wram_old b.wram_new (from + m) (roll_forward b from m edge)
        (h m (omega arith)))
      i
    ∙ roll_back-forward b from m edge (λ k p. h k (omega arith)) i

-- If the journal of the accesses after a frame edge holds the bytes that their writes replaced,
-- the frame hook sees WRAM as it was at the edge, and after a hook that leaves it alone WRAM is as
-- it was before the hook.
pub edge_wram-edge :
    (b : Bus) (from : ℕ) (edge : ℕ → ℕ)
    → IsJournal b from edge
    → ((i : ℕ) → edge_wram (some from) b i ≡ edge i)
      × ((i : ℕ) → after_edge (some from) b i ≡ b.wram i)
unfolding edge_wram after_edge
edge_wram-edge b from edge h =
    let n = journalled b from in
    let seen : Same (roll_back b from n b.wram) edge =
      λ i. roll_back-Same b from n _ _ h.now i ∙ roll_back-forward b from n edge h.olds i in
    (seen, λ i. roll_forward-Same b from n _ _ seen i ∙ sym (h.now i))
