-- ===== src/Ops/Flags.antt =====
-- The flags, the accumulator and the status byte of runtime/ops.h: functions of the registers.
use ct_recomp.Base.{ℕ, Bool}
use ct_recomp.Base.{◌==◌, if◌then◌else◌, flag, bit_and, bit_or, bit_xor}
use ct_recomp.Base.{u8, u16, not8, ◌<<<◌, ◌>>>◌}
use ct_recomp.Cpu.{Cpu}

unfoldable pub set_nz8 : ℕ → Cpu → Cpu
set_nz8 v c = record c { fn = v >>> 7; fz = flag (v == 0) }

unfoldable pub set_nz16 : ℕ → Cpu → Cpu
set_nz16 v c = record c { fn = v >>> 15; fz = flag (v == 0) }

unfoldable pub get_p : Cpu → ℕ
get_p c = u8 (
    bit_or
      (bit_or
        (bit_or
          (bit_or (bit_or (bit_or (bit_or (c.fn <<< 7) (c.fv <<< 6)) (c.fm <<< 5)) (c.fx <<< 4))
            (c.fd <<< 3))
          (c.fi <<< 2))
        (c.fz <<< 1))
      c.fc)

unfoldable pub index_width : Cpu → Cpu
index_width c = if c.fx == 0 then c else record c { x = u8 c.x; y = u8 c.y }

-- The eight flags from the bits of `p`.
unfoldable pub flags_of_p : ℕ → Cpu → Cpu
flags_of_p p c = record c {
  fn = bit_and (p >>> 7) 1;
  fv = bit_and (p >>> 6) 1;
  fm = bit_and (p >>> 5) 1;
  fx = bit_and (p >>> 4) 1;
  fd = bit_and (p >>> 3) 1;
  fi = bit_and (p >>> 2) 1;
  fz = bit_and (p >>> 1) 1;
  fc = bit_and p 1;
}

-- `if (c->e) { c->m = 1; c->x = 1; }`
unfoldable pub force_narrow : Cpu → Cpu
force_narrow c = if c.fe == 0 then c else record c { fm = 1; fx = 1 }

unfoldable pub set_p : ℕ → Cpu → Cpu
unfolding index_width flags_of_p force_narrow
set_p p c = index_width (force_narrow (flags_of_p p c))

unfoldable pub op_xce : Cpu → Cpu
unfolding index_width
op_xce c =
    let swapped = record c { fc = c.fe; fe = c.fc } in
    if swapped.fe == 0
    then swapped
    else let narrow = index_width (record swapped { fm = 1; fx = 1 }) in
      record narrow { s = bit_or 0x0100 (u8 narrow.s) }

unfoldable pub op_rep : ℕ → Cpu → Cpu
unfolding set_p get_p
op_rep v c = set_p (bit_and (get_p c) (not8 v)) c

unfoldable pub op_sep : ℕ → Cpu → Cpu
unfolding set_p get_p
op_sep v c = set_p (bit_or (get_p c) v) c

unfoldable pub a8 : Cpu → ℕ
a8 c = u8 c.a

unfoldable pub set_a8 : ℕ → Cpu → Cpu
set_a8 v c = record c { a = u16 (bit_or (bit_and c.a 0xFF00) v) }

unfoldable pub lda8 : ℕ → Cpu → Cpu
unfolding set_a8 set_nz8
lda8 v c = set_nz8 v (set_a8 v c)

unfoldable pub lda16 : ℕ → Cpu → Cpu
unfolding set_nz16
lda16 v c = set_nz16 v (record c { a = v })

unfoldable pub ldx16 : ℕ → Cpu → Cpu
unfolding set_nz16
ldx16 v c = set_nz16 v (record c { x = v })

unfoldable pub ldy16 : ℕ → Cpu → Cpu
unfolding set_nz16
ldy16 v c = set_nz16 v (record c { y = v })

unfoldable pub ldx8 : ℕ → Cpu → Cpu
unfolding set_nz8
ldx8 v c = set_nz8 v (record c { x = v })

unfoldable pub ldy8 : ℕ → Cpu → Cpu
unfolding set_nz8
ldy8 v c = set_nz8 v (record c { y = v })

unfoldable pub ora8 : ℕ → Cpu → Cpu
unfolding a8 set_a8 set_nz8
ora8 v c = let c' = set_a8 (bit_or (a8 c) v) c in set_nz8 (a8 c') c'

unfoldable pub and8 : ℕ → Cpu → Cpu
unfolding a8 set_a8 set_nz8
and8 v c = let c' = set_a8 (bit_and (a8 c) v) c in set_nz8 (a8 c') c'

unfoldable pub eor8 : ℕ → Cpu → Cpu
unfolding a8 set_a8 set_nz8
eor8 v c = let c' = set_a8 (bit_xor (a8 c) v) c in set_nz8 (a8 c') c'

unfoldable pub ora16 : ℕ → Cpu → Cpu
unfolding set_nz16
ora16 v c = let c' = record c { a = bit_or c.a v } in set_nz16 c'.a c'

unfoldable pub and16 : ℕ → Cpu → Cpu
unfolding set_nz16
and16 v c = let c' = record c { a = bit_and c.a v } in set_nz16 c'.a c'

unfoldable pub eor16 : ℕ → Cpu → Cpu
unfolding set_nz16
eor16 v c = let c' = record c { a = bit_xor c.a v } in set_nz16 c'.a c'

-- BIT: the immediate form sets Z only.
unfoldable pub bit8 : ℕ → Bool → Cpu → Cpu
unfolding a8
bit8 v imm c =
    let c' = record c { fz = flag (bit_and (a8 c) v == 0) } in
    if imm then c' else record c' { fn = v >>> 7; fv = bit_and (v >>> 6) 1 }

unfoldable pub bit16 : ℕ → Bool → Cpu → Cpu
bit16 v imm c =
    let c' = record c { fz = flag (bit_and c.a v == 0) } in
    if imm then c' else record c' { fn = v >>> 15; fv = bit_and (v >>> 14) 1 }
