-- ===== src/Interp/Registers.antt =====
-- The flags, the accumulator, and the arithmetic of runtime/interp.c: functions of the registers.
-- `wide` is the `int wide` of the source.
use ct_recomp.Base.{ℕ, Bool, true, false, not, ◌+◌}
use ct_recomp.Base.{◌==◌, ltb, leb, if◌then◌else◌, flag, bit_and, bit_or, bit_xor}
use ct_recomp.Base.{u8, u16, sub16, ◌<<<◌, ◌>>>◌}
use ct_recomp.Cpu.{Cpu}
use ct_recomp.Machine.{M, ◌>>=◌, ct_fatal, gets, with_cpu, decimal_mode}

unfoldable pub nz : ℕ → Bool → Cpu → Cpu
nz v true c = record c { fn = v >>> 15; fz = flag (v == 0) }
nz v false c = record c { fn = bit_and (v >>> 7) 1; fz = flag (u8 v == 0) }

unfoldable pub pack_p : Cpu → ℕ
pack_p c = u8 (
    bit_or
      (bit_or
        (bit_or
          (bit_or (bit_or (bit_or (bit_or (c.fn <<< 7) (c.fv <<< 6)) (c.fm <<< 5)) (c.fx <<< 4))
            (c.fd <<< 3))
          (c.fi <<< 2))
        (c.fz <<< 1))
      c.fc)

-- The flags of `unpack_p` before emulation mode and the index width have their say.
unfoldable pub unpack_flags : ℕ → Cpu → Cpu
unpack_flags p c = record c {
  fn = bit_and (p >>> 7) 1;
  fv = bit_and (p >>> 6) 1;
  fm = bit_and (p >>> 5) 1;
  fx = bit_and (p >>> 4) 1;
  fd = bit_and (p >>> 3) 1;
  fi = bit_and (p >>> 2) 1;
  fz = bit_and (p >>> 1) 1;
  fc = bit_and p 1;
}

-- `if (c->x) { c->X &= 0xFF; c->Y &= 0xFF; }`
unfoldable pub narrow_index : Cpu → Cpu
narrow_index c = if c.fx == 0 then c else record c { x = u8 c.x; y = u8 c.y }

unfoldable pub unpack_p : ℕ → Cpu → Cpu
unfolding unpack_flags narrow_index
unpack_p p c =
    let c1 = unpack_flags p c in
    narrow_index (if c1.fe == 0 then c1 else record c1 { fm = 1; fx = 1 })

-- S after the push, and before the pull.
unfoldable pub push_s : Cpu → Cpu
push_s c =
    let c1 = record c { s = sub16 c.s 1 } in
    if c1.fe == 0 then c1 else record c1 { s = bit_or 0x0100 (u8 c1.s) }

unfoldable pub pull_s : Cpu → Cpu
pull_s c =
    let c1 = record c { s = u16 (c.s + 1) } in
    if c1.fe == 0 then c1 else record c1 { s = bit_or 0x0100 (u8 c1.s) }

unfoldable pub get_a : Cpu → ℕ
get_a c = if c.fm == 0 then c.a else u8 c.a

unfoldable pub set_a : ℕ → Cpu → Cpu
set_a v c =
    if c.fm == 0
    then record c { a = v }
    else record c { a = u16 (bit_or (bit_and c.a 0xFF00) (u8 v)) }

abbrev pub mask : Bool → ℕ
mask true = 0xFFFF
mask false = 0xFF

abbrev pub top : Bool → ℕ
top true = 0x8000
top false = 0x80

-- `v & mask`.
abbrev pub masked : Bool → ℕ → ℕ
masked true v = u16 v
masked false v = u8 v

-- The body of `add` behind its guard.
unfoldable pub add_binary : ℕ → ℕ → Bool → Cpu → ℕ × Cpu
unfolding nz
add_binary a b wide c =
    let r = a + b + c.fc in
    let overflow = bit_and (bit_and (bit_xor a r) (bit_xor b r)) (top wide) in
    let r1 = masked wide r in
    (r1, nz r1 wide (record c { fc = flag (ltb (mask wide) r); fv = flag (not (overflow == 0)) }))

unfoldable pub add : ℕ → ℕ → Bool → ℕ → M ℕ
add a b wide at = do
  d ← gets (λ w. w.cpu.fd)
  if d == 0 then with_cpu (add_binary a b wide) else ct_fatal (decimal_mode at)

unfoldable pub compare : ℕ → ℕ → Bool → Cpu → Cpu
unfolding nz
compare r v wide c =
    let r1 = masked wide r in
    let v1 = masked wide v in nz (sub16 r1 v1) wide (record c { fc = flag (leb v1 r1) })

-- `enum rmw`.
pub data Rmw : Type 0 where
  asl rol lsr ror inc dec : Rmw

-- The switch of `rmw`: the value before the mask, and the carry.
unfoldable pub rmw_raw : Rmw → ℕ → Bool → Cpu → ℕ × ℕ
rmw_raw asl v wide c = (u16 (v <<< 1), flag (not (bit_and v (top wide) == 0)))
rmw_raw rol v wide c = (u16 (bit_or (v <<< 1) c.fc), flag (not (bit_and v (top wide) == 0)))
rmw_raw lsr v wide c = (v >>> 1, bit_and v 1)
rmw_raw ror v wide c = (u16 (bit_or (v >>> 1) (if c.fc == 0 then 0 else top wide)), bit_and v 1)
rmw_raw inc v wide c = (u16 (v + 1), c.fc)
rmw_raw dec v wide c = (sub16 v 1, c.fc)

unfoldable pub rmw : Rmw → ℕ → Bool → Cpu → ℕ × Cpu
unfolding rmw_raw nz
rmw op v wide c =
    let (r, carry) = rmw_raw op v wide c in
    (masked wide r, nz (masked wide r) wide (record c { fc = carry }))

-- `idx`: an index register's new value.
unfoldable pub idx : ℕ → Cpu → ℕ
idx v c = if c.fx == 0 then v else u8 v
