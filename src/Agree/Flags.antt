-- ===== src/Agree/Flags.antt =====
-- The status byte and the flags N and Z of both implementations.
use ct_recomp.Base.{
  ℕ, suc, true, false, ◌≡◌, refl, sym, ◌∙◌, ap, ◌+◌, ◌*◌, ◌/◌, ◌<◌, ◌≤◌, ◌^◌, arith, u8, bit_or,
}
use ct_recomp.Base.Bits.{bit_and-mask, bit_or-fields}
use ct_recomp.Cpu.{Cpu, IsCpu}
use ct_recomp.Ops.Flags.{set_nz8, set_nz16, get_p, set_p, index_width, flags_of_p, force_narrow}
use ct_recomp.Interp.Registers.{nz, pack_p, unpack_p, unpack_flags, narrow_index}
use ct_recomp.Sound.State.{IsByte}

pub set_nz8-eq-nz : (v : ℕ) (c : Cpu) → IsByte v → set_nz8 v c ≡ nz v false c
unfolding set_nz8 nz
set_nz8-eq-nz v c h = ground (arith, bit_and-mask 1 (v / 2 ^ 7))

pub set_nz16-eq-nz : (v : ℕ) (c : Cpu) → set_nz16 v c ≡ nz v true c
unfolding set_nz16 nz
set_nz16-eq-nz v c = refl

-- A flag under the bits that are collected already.
collect :
    (k q r x : ℕ)
    → x ≡ q * 2 ^ suc k
    → r * 2 ^ k < 2 ^ suc k
    → q * 2 ^ suc k + r * 2 ^ k ≡ (q * 2 + r) * 2 ^ k
    → bit_or x (r * 2 ^ k) ≡ (q * 2 + r) * 2 ^ k
collect k q r x e h split =
    ap (λ y. bit_or y (r * 2 ^ k)) e ∙ (bit_or-fields (suc k) q (r * 2 ^ k) h ∙ split)

collect_last : (q r x : ℕ) → x ≡ q * 2 ^ 1 → r ≤ 1 → bit_or x r ≡ q * 2 + r
collect_last q r x e h = omega (arith, bit_or-fields 1 q r (omega arith), ap (λ y. bit_or y r) e)

-- The status byte as a sum.
get_p_sum :
    (c : Cpu)
    → IsCpu c
    → get_p c
      ≡ c.fn * 128 + c.fv * 64 + c.fm * 32 + c.fx * 16 + c.fd * 8 + c.fi * 4 + c.fz * 2 + c.fc
unfolding get_p
get_p_sum c h =
    let e6 = collect 6 c.fn c.fv _ refl (omega (arith, h.fv_fits)) (omega arith) in
    let e5 = collect 5 _ c.fm _ e6 (omega (arith, h.fm_fits)) (omega arith) in
    let e4 = collect 4 _ c.fx _ e5 (omega (arith, h.fx_fits)) (omega arith) in
    let e3 = collect 3 _ c.fd _ e4 (omega (arith, h.fd_fits)) (omega arith) in
    let e2 = collect 2 _ c.fi _ e3 (omega (arith, h.fi_fits)) (omega arith) in
    let e1 = collect 1 _ c.fz _ e2 (omega (arith, h.fz_fits)) (omega arith) in
    let e0 = collect_last _ c.fc _ e1 h.fc_fits in
    ap u8 e0
    ∙ omega (
      arith, h.fn_fits, h.fv_fits, h.fm_fits, h.fx_fits, h.fd_fits, h.fi_fits, h.fz_fits, h.fc_fits,
    )

get_p-eq-pack_p : (c : Cpu) → get_p c ≡ pack_p c
unfolding get_p pack_p
get_p-eq-pack_p c = refl

set_p-eq-unpack_p : (p : ℕ) (c : Cpu) → set_p p c ≡ unpack_p p c
unfolding set_p unpack_p index_width flags_of_p force_narrow unpack_flags narrow_index
set_p-eq-unpack_p p c = refl

-- For all registers and every value, get_p and set_p of ops.h are pack_p and unpack_p of interp.c,
-- with the forced widths of emulation mode and the cleared high bytes of the index registers.
pub status_agrees : (p : ℕ) (c : Cpu) → (get_p c ≡ pack_p c) × (set_p p c ≡ unpack_p p c)
status_agrees p c = (get_p-eq-pack_p c, set_p-eq-unpack_p p c)

unpack_sum :
    (p : ℕ) (c : Cpu)
    → IsCpu c
    → p ≡ c.fn * 128 + c.fv * 64 + c.fm * 32 + c.fx * 16 + c.fd * 8 + c.fi * 4 + c.fz * 2 + c.fc
    → unpack_p p c ≡ c
unfolding unpack_p unpack_flags narrow_index
unpack_sum p c h e = ground (
  arith,
  bit_and-mask 1 (p / 2 ^ 7),
  bit_and-mask 1 (p / 2 ^ 6),
  bit_and-mask 1 (p / 2 ^ 5),
  bit_and-mask 1 (p / 2 ^ 4),
  bit_and-mask 1 (p / 2 ^ 3),
  bit_and-mask 1 (p / 2 ^ 2),
  bit_and-mask 1 (p / 2 ^ 1),
  bit_and-mask 1 p,
)

-- In well-formed registers, reading back the status byte that pack_p makes changes nothing.
pub unpack_p-pack_p : (c : Cpu) → IsCpu c → unpack_p (pack_p c) c ≡ c
unpack_p-pack_p c h = unpack_sum (pack_p c) c h (sym (get_p-eq-pack_p c) ∙ get_p_sum c h)
