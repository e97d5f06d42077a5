-- ===== src/Sound/Move.antt =====
-- The block move of generated code, `mvn16` of runtime/ops.h: it keeps the invariant, and the loop
-- ends by the wrap of A.
use ct_recomp.Base.{
  ℕ, zero, suc, Bool, true, false, ◌≡◌, refl, ap, ◌∙◌, ◌+◌, ◌<◌, ◌≤◌, arith, sub16, ◌==◌,
}
use ct_recomp.Cpu.{Cpu}
use ct_recomp.Machine.{Machine, Result, done, fatal, M, ◌>>=◌, ◌>>◌, pure, on_bus}
use ct_recomp.Ops.Memory.{ct_insn, mvn_byte, mvn_rounds, mvn16}
use ct_recomp.Sound.State.{Sound, Any, Holds, IsByte, IsWord, IsMachine}
use ct_recomp.Sound.Rules.{
  Sound-bind, Sound-then, Sound-pure, Sound-gets, Sound-on_bus, Sound-on_cpu,
}
use ct_recomp.Sound.Memory.{read8-Sound, write8-Sound}

-- The registers of a move with `n` in A: 16-bit index registers.
abbrev pub Moving : ℕ → Cpu → Type 0
Moving n c = (c.a ≡ n) × (c.fx ≡ 0)

mvn_byte-Sound :
    (n dst src : ℕ)
    → IsWord n
    → Sound (Moving n) (Moving (sub16 n 1)) (λ wrapped. wrapped ≡ (n == 0)) (mvn_byte dst src)
unfolding mvn_byte
mvn_byte-Sound n dst src p = Sound-bind (Sound-gets {P = Any} _ (λ w h k. tt)) (λ c _.
    Sound-bind (read8-Sound _) (λ v q. Sound-then (write8-Sound _ v q) (
      Sound-then {J = Moving (sub16 n 1)} (Sound-on_cpu _ (λ c h k. (ground arith, ground arith))) (
        Sound-bind (Sound-gets {P = λ a. a ≡ sub16 n 1} _ (λ w h k. k.0))
          (λ a e. Sound-pure _ (ground arith))))))

ct_insn-Sound : {K : Cpu → Type 0} (src : ℕ) → IsByte src → Sound K K Any (ct_insn src)
unfolding ct_insn
ct_insn-Sound src p = Sound-on_bus _ (λ b h. ground arith)

unfoldable next_round : M (Unit {0}) → ℕ → Result Bool → Result (Unit {0})
next_round rest src r = elim r [
  | done b w ↦
      let follow : M (Unit {0}) = elim b [ true ↦ pure tt | false ↦ ct_insn src >> rest ] in
      follow w
  | fatal f ↦ fatal f
]

-- What follows a round, for two numbers of rounds that are left.
after_byte :
    (n left left' src dst : ℕ) (r : Result Bool)
    → IsByte src
    → Holds (Moving (sub16 n 1)) (λ wrapped. wrapped ≡ (n == 0)) r
    → ((w : Machine)
        → 0 < n
        → IsMachine w
        → Moving (sub16 n 1) w.cpu
        → mvn_rounds left dst src w ≡ mvn_rounds left' dst src w)
    → next_round (mvn_rounds left dst src) src r ≡ next_round (mvn_rounds left' dst src) src r
unfolding ct_insn on_bus ◌>>◌ next_round
after_byte n left left' src dst (fatal f) p h k = refl
after_byte n left left' src dst (done true w) p h k = refl
after_byte n left left' src dst (done false w) p (e, ok, at) k =
    k (record w { bus = record w.bus { mdr = src } }) (ground arith)
      ((ct_insn-Sound {K = Moving (sub16 n 1)} src p).run w ok at).1 at

rounds_agree :
    (n left left' dst src : ℕ) (w : Machine)
    → n ≤ left
    → n ≤ left'
    → IsByte src
    → IsMachine w
    → Moving n w.cpu
    → mvn_rounds (suc left) dst src w ≡ mvn_rounds (suc left') dst src w
unfolding mvn_rounds ◌>>=◌ next_round
rounds_agree zero left left' dst src w l l' p h at =
    after_byte 0 left left' src dst (mvn_byte dst src w) p
      ((mvn_byte-Sound 0 dst src (omega arith)).run w h at) (λ w' q. absurd (omega (arith, q)))
rounds_agree (suc n) zero left' dst src w l l' p h at = absurd (omega arith)
rounds_agree (suc n) (suc left) zero dst src w l l' p h at = absurd (omega arith)
rounds_agree (suc n) (suc left) (suc left') dst src w l l' p h at =
    let small : IsWord (suc n) = omega (arith, at.0, h.cpu_ok.a_fits) in
    after_byte (suc n) (suc left) (suc left') src dst (mvn_byte dst src w) p
      ((mvn_byte-Sound (suc n) dst src small).run w h at)
      (λ w' q h' at'.
        rounds_agree n left left' dst src w' (omega arith) (omega arith) p h'
          (at'.0 ∙ omega (arith, small), at'.1))

-- From a well-formed state with 16-bit index registers, and a source bank that is a byte, more
-- rounds than A + 1 change nothing in the loop of mvn16: it ends by the wrap of A.
pub mvn_rounds-enough :
    (more dst src : ℕ) (w : Machine)
    → IsByte src
    → IsMachine w
    → w.cpu.fx ≡ 0
    → mvn_rounds (w.cpu.a + 1 + more) dst src w ≡ mvn_rounds (w.cpu.a + 1) dst src w
mvn_rounds-enough more dst src w p h x =
    ap (λ k. mvn_rounds k dst src w) {y = suc (w.cpu.a + more)} (omega arith)
    ∙ (rounds_agree w.cpu.a (w.cpu.a + more) w.cpu.a dst src w (omega arith) (omega arith) p h
          (refl, x)
        ∙ ap (λ k. mvn_rounds k dst src w) {x = suc w.cpu.a} (omega arith))

abbrev Wide : Cpu → Type 0
Wide c = c.fx ≡ 0

rounds-Sound : (left dst src : ℕ) → IsByte src → Sound Wide Wide Any (mvn_rounds left dst src)
unfolding mvn_rounds mvn_byte
rounds-Sound zero dst src p = Sound-pure tt tt
rounds-Sound (suc left) dst src p =
    let byte : Sound Wide Wide Any (mvn_byte dst src) =
      Sound-bind (Sound-gets {P = Any} _ (λ w h k. tt)) (λ c _. Sound-bind (read8-Sound _) (λ v q.
        Sound-then (write8-Sound _ v q) (
          Sound-then {J = Wide} (Sound-on_cpu _ (λ c h k. (ground arith, k)))
            (Sound-bind (Sound-gets {P = Any} _ (λ w h k. tt)) (λ a e. Sound-pure _ tt))))) in
    Sound-bind byte
      (λ wrapped _. next (mvn_rounds left dst src) (rounds-Sound left dst src p) wrapped)
  where
    next :
        (rest : M (Unit {0}))
        → Sound Wide Wide Any rest
        → (wrapped : Bool)
        → Sound Wide Wide Any (elim wrapped [ true ↦ pure tt | false ↦ ct_insn src >> rest ])
    next rest s true = Sound-pure tt tt
    next rest s false = Sound-then (ct_insn-Sound src p) s

-- From a well-formed state with 16-bit index registers, for bank bytes, mvn16 ends in ct_fatal or
-- leaves a well-formed state with 16-bit index registers.
pub mvn16-IsMachine :
    (dst src : ℕ) (w : Machine)
    → IsByte dst
    → IsByte src
    → IsMachine w
    → w.cpu.fx ≡ 0
    → Holds (λ c. c.fx ≡ 0) Any (mvn16 dst src w)
unfolding mvn16
mvn16-IsMachine dst src w p q h x =
    (Sound-then {J = Wide} {K = Wide} (Sound-on_cpu _ (λ c h k. (ground arith, k))) (
        Sound-bind (Sound-gets {P = Any} _ (λ w h k. tt))
          (λ a _. rounds-Sound (a + 1) dst src q))).run
      w h x
