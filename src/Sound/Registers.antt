-- ===== src/Sound/Registers.antt =====
-- The functions of the registers in runtime/interp.c keep the 65816's registers well-formed. Those
-- that do not write P leave the x flag alone.
use ct_recomp.Base.{
  ℕ, Bool, true, false, ◌≡◌, refl, ◌+◌, ◌/◌, ◌≤◌, ◌^◌, ◌-◌, arith, u8, u16, flag, bit_and,
}
use ct_recomp.Base.Bits.{bit_or-lt, bit_and-mask}
use ct_recomp.Base.{◌∙◌}
use ct_recomp.Cpu.{Cpu, IsCpu}
use ct_recomp.Interp.Registers.{
  nz, unpack_p, push_s, pull_s, get_a, set_a, masked, add_binary, compare, Rmw, asl, rol, lsr, ror,
  inc, dec, rmw_raw, rmw, idx,
}
use ct_recomp.Interp.Calls.{move_index}
use ct_recomp.Interp.Exec.{nz_set_a, bit_flags, set_index, do_transfer, set_a_nz, do_flag, do_xce}
use ct_recomp.Interp.Instr.{
  Index, Transfer, Flag, ix, iy, tax, tay, txa, tya, txy, tyx, tsx, txs, tcd, tdc, tcs, tsc, xba,
  carry, interrupt, decimal, overflow,
}
use ct_recomp.Sound.State.{IsByte, IsWord}

-- The x flag has the value `x`.
abbrev pub HasX : ℕ → Cpu → Type 0
HasX x c = c.fx ≡ x

pub and_one : (v : ℕ) → bit_and v 1 ≤ 1
and_one v = omega (arith, bit_and-mask 1 v)

pub nz-IsCpu : (v : ℕ) (wide : Bool) (c : Cpu) → IsWord v → IsCpu c → IsCpu (nz v wide c)
unfolding nz
nz-IsCpu v true c p h = ground arith
nz-IsCpu v false c p h = ground (arith, and_one (v / 2 ^ 7))

pub nz-fx : (v : ℕ) (wide : Bool) (c : Cpu) → (nz v wide c).fx ≡ c.fx
unfolding nz
nz-fx v true c = refl
nz-fx v false c = refl

-- A status byte that is unpacked leaves well-formed registers, whatever X and Y held.
pub unpack_p-IsCpu : (p : ℕ) (c : Cpu) → IsCpu c → IsCpu (unpack_p p c)
unfolding unpack_p
unpack_p-IsCpu p c h = ground (
  arith,
  and_one (p / 2 ^ 7),
  and_one (p / 2 ^ 6),
  and_one (p / 2 ^ 5),
  and_one (p / 2 ^ 4),
  and_one (p / 2 ^ 3),
  and_one (p / 2 ^ 2),
  and_one (p / 2 ^ 1),
  and_one p,
)

pub push_s-IsCpu : (c : Cpu) → IsCpu c → IsCpu (push_s c)
unfolding push_s
push_s-IsCpu c h = ground (arith, bit_or-lt 16 0x0100 (u8 (u16 (c.s + 2 ^ 16 - 1))))

pub push_s-fx : (c : Cpu) → (push_s c).fx ≡ c.fx
unfolding push_s
push_s-fx c = ground arith

pub pull_s-IsCpu : (c : Cpu) → IsCpu c → IsCpu (pull_s c)
unfolding pull_s
pull_s-IsCpu c h = ground (arith, bit_or-lt 16 0x0100 (u8 (u16 (c.s + 1))))

pub pull_s-fx : (c : Cpu) → (pull_s c).fx ≡ c.fx
unfolding pull_s
pull_s-fx c = ground arith

pub get_a-IsWord : (c : Cpu) → IsCpu c → IsWord (get_a c)
unfolding get_a
get_a-IsWord c h = ground arith

pub set_a-IsCpu : (v : ℕ) (c : Cpu) → IsWord v → IsCpu c → IsCpu (set_a v c)
unfolding set_a
set_a-IsCpu v c p h = ground arith

pub set_a-fx : (v : ℕ) (c : Cpu) → (set_a v c).fx ≡ c.fx
unfolding set_a
set_a-fx v c = ground arith

pub masked-IsWord : (wide : Bool) (v : ℕ) → IsWord (masked wide v)
masked-IsWord true v = omega arith
masked-IsWord false v = omega arith

pub set_fc-IsCpu : (v : ℕ) (c : Cpu) → v ≤ 1 → IsCpu c → IsCpu (record c { fc = v })
set_fc-IsCpu v c p h = ground arith

pub flag-le : (b : Bool) → flag b ≤ 1
flag-le true = omega arith
flag-le false = omega arith

pub set_fcv-IsCpu :
    (v u : ℕ) (c : Cpu) → v ≤ 1 → u ≤ 1 → IsCpu c → IsCpu (record c { fc = v; fv = u })
set_fcv-IsCpu v u c p q h = ground arith

pub add_binary-ok :
    (a b : ℕ) (wide : Bool) (c : Cpu)
    → IsCpu c
    → IsWord (add_binary a b wide c).0
      × IsCpu (add_binary a b wide c).1
      × ((add_binary a b wide c).1.fx ≡ c.fx)
unfolding add_binary
add_binary-ok a b wide c h = (
  masked-IsWord wide _,
  nz-IsCpu _ wide _ (masked-IsWord wide _) (set_fcv-IsCpu _ _ c (flag-le _) (flag-le _) h),
  nz-fx _ wide _,
)

pub compare-IsCpu : (r v : ℕ) (wide : Bool) (c : Cpu) → IsCpu c → IsCpu (compare r v wide c)
unfolding compare
compare-IsCpu r v wide c h = nz-IsCpu _ wide _ (omega arith) (set_fc-IsCpu _ c (flag-le _) h)

pub compare-fx : (r v : ℕ) (wide : Bool) (c : Cpu) → (compare r v wide c).fx ≡ c.fx
unfolding compare
compare-fx r v wide c = nz-fx _ wide _

rmw_raw-carry : (op : Rmw) (v : ℕ) (wide : Bool) (c : Cpu) → IsCpu c → (rmw_raw op v wide c).1 ≤ 1
unfolding rmw_raw
rmw_raw-carry asl v wide c h = flag-le _
rmw_raw-carry rol v wide c h = flag-le _
rmw_raw-carry lsr v wide c h = and_one v
rmw_raw-carry ror v wide c h = and_one v
rmw_raw-carry inc v wide c h = h.fc_fits
rmw_raw-carry dec v wide c h = h.fc_fits

pub rmw-ok :
    (op : Rmw) (v : ℕ) (wide : Bool) (c : Cpu)
    → IsCpu c
    → IsWord (rmw op v wide c).0 × IsCpu (rmw op v wide c).1 × ((rmw op v wide c).1.fx ≡ c.fx)
unfolding rmw
rmw-ok op v wide c h = (
  masked-IsWord wide _,
  nz-IsCpu _ wide _ (masked-IsWord wide _) (set_fc-IsCpu _ c (rmw_raw-carry op v wide c h) h),
  nz-fx _ wide _,
)

pub move_index-IsCpu : (by : ℕ) (c : Cpu) → IsCpu c → IsCpu (move_index by c)
unfolding move_index
move_index-IsCpu by c h = ground arith

pub move_index-fx : (by : ℕ) (c : Cpu) → (move_index by c).fx ≡ c.fx
unfolding move_index
move_index-fx by c = ground arith

pub nz_set_a-IsCpu :
    (v : ℕ) (wide : Bool) (c : Cpu) → IsWord v → IsCpu c → IsCpu (nz_set_a v wide c)
unfolding nz_set_a
nz_set_a-IsCpu v wide c p h = set_a-IsCpu v _ p (nz-IsCpu v wide c p h)

pub nz_set_a-fx : (v : ℕ) (wide : Bool) (c : Cpu) → (nz_set_a v wide c).fx ≡ c.fx
unfolding nz_set_a
nz_set_a-fx v wide c = set_a-fx v _ ∙ nz-fx v wide c

pub set_a_nz-IsCpu :
    (v : ℕ) (wide : Bool) (c : Cpu) → IsWord v → IsCpu c → IsCpu (set_a_nz v wide c)
unfolding set_a_nz
set_a_nz-IsCpu v wide c p h =
    let h1 : IsCpu (set_a v c) = set_a-IsCpu v c p h in nz-IsCpu _ wide _ (get_a-IsWord _ h1) h1

pub set_a_nz-fx : (v : ℕ) (wide : Bool) (c : Cpu) → (set_a_nz v wide c).fx ≡ c.fx
unfolding set_a_nz
set_a_nz-fx v wide c = nz-fx _ wide _ ∙ set_a-fx v c

pub bit_flags-IsCpu :
    (v : ℕ) (immediate wide : Bool) (c : Cpu) → IsCpu c → IsCpu (bit_flags v immediate wide c)
unfolding bit_flags
bit_flags-IsCpu v immediate true c h = ground (arith, and_one (v / 2 ^ 15), and_one (v / 2 ^ 14))
bit_flags-IsCpu v immediate false c h = ground (arith, and_one (v / 2 ^ 7), and_one (v / 2 ^ 6))

pub bit_flags-fx :
    (v : ℕ) (immediate wide : Bool) (c : Cpu) → (bit_flags v immediate wide c).fx ≡ c.fx
unfolding bit_flags
bit_flags-fx v true wide c = refl
bit_flags-fx v false wide c = refl

pub idx-IsWord : (v : ℕ) (c : Cpu) → IsWord v → IsWord (idx v c)
unfolding idx
idx-IsWord v c p = ground arith

pub idx-IsByte : (v : ℕ) (c : Cpu) → c.fx ≡ 1 → IsByte (idx v c)
unfolding idx
idx-IsByte v c e = ground arith

-- An index register takes a value that fits it.
pub set_index-IsCpu :
    (r : Index) (v : ℕ) (wide : Bool) (c : Cpu)
    → IsWord v
    → (c.fx ≡ 1 → IsByte v)
    → IsCpu c
    → IsCpu (set_index r v wide c)
unfolding set_index
set_index-IsCpu ix v wide c p q h = nz-IsCpu v wide _ p (ground arith)
set_index-IsCpu iy v wide c p q h = nz-IsCpu v wide _ p (ground arith)

pub set_index-fx : (r : Index) (v : ℕ) (wide : Bool) (c : Cpu) → (set_index r v wide c).fx ≡ c.fx
unfolding set_index
set_index-fx ix v wide c = nz-fx v wide _
set_index-fx iy v wide c = nz-fx v wide _

pub do_flag-IsCpu : (f : Flag) (v : ℕ) (c : Cpu) → v ≤ 1 → IsCpu c → IsCpu (do_flag f v c)
unfolding do_flag
do_flag-IsCpu carry v c p h = ground arith
do_flag-IsCpu interrupt v c p h = ground arith
do_flag-IsCpu decimal v c p h = ground arith
do_flag-IsCpu overflow v c p h = ground arith

pub do_xce-IsCpu : (c : Cpu) → IsCpu c → IsCpu (do_xce c)
unfolding do_xce
do_xce-IsCpu c h = ground (arith, bit_or-lt 16 0x0100 (u8 c.s))

pub do_transfer-IsCpu :
    (t : Transfer) (m16 x16 : Bool) (c : Cpu) → IsCpu c → IsCpu (do_transfer t m16 x16 c)
unfolding do_transfer
do_transfer-IsCpu tax m16 x16 c h =
    set_index-IsCpu ix _ x16 c (idx-IsWord _ c h.a_fits) (idx-IsByte _ c) h
do_transfer-IsCpu tay m16 x16 c h =
    set_index-IsCpu iy _ x16 c (idx-IsWord _ c h.a_fits) (idx-IsByte _ c) h
do_transfer-IsCpu txa m16 x16 c h = unfold set_a_nz in set_a_nz-IsCpu c.x m16 c h.x_fits h
do_transfer-IsCpu tya m16 x16 c h = unfold set_a_nz in set_a_nz-IsCpu c.y m16 c h.y_fits h
do_transfer-IsCpu txy m16 x16 c h = set_index-IsCpu iy _ x16 c h.x_fits h.x_narrow h
do_transfer-IsCpu tyx m16 x16 c h = set_index-IsCpu ix _ x16 c h.y_fits h.y_narrow h
do_transfer-IsCpu tsx m16 x16 c h =
    set_index-IsCpu ix _ x16 c (idx-IsWord _ c h.s_fits) (idx-IsByte _ c) h
do_transfer-IsCpu txs m16 x16 c h = ground (arith, bit_or-lt 16 0x0100 (u8 c.x))
do_transfer-IsCpu tcd m16 x16 c h = nz-IsCpu c.a true _ h.a_fits (ground arith)
do_transfer-IsCpu tdc m16 x16 c h = nz-IsCpu c.dp true _ h.dp_fits (ground arith)
do_transfer-IsCpu tcs m16 x16 c h = ground (arith, bit_or-lt 16 0x0100 (u8 c.a))
do_transfer-IsCpu tsc m16 x16 c h = nz-IsCpu c.s true _ h.s_fits (ground arith)
do_transfer-IsCpu xba m16 x16 c h = nz-IsCpu _ false _ (omega arith) (ground arith)
