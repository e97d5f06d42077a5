-- ===== src/Sched/Registers.antt =====
-- The registers $4200, $4207-$420A and $4210-$4212 of runtime/sched.c. `at` is the clock that
-- `access_clock` gives, `mdr` is `bus_mdr`.
use ct_recomp.Base.{
  ℕ, suc, zero, Bool, true, false, Option, none, some, not, ◌/◌, ◌%◌, ◌==◌, leb, ltb, ◌&&◌, ◌||◌,
  if◌then◌else◌,
}
use ct_recomp.Base.{bit_and, bit_or, u8, u16, ◌<<<◌, flag}
use ct_recomp.Sched.{Ports, Sched, sched_vblank_line, sched_hblank_clock}
use ct_recomp.Sched.Counters.{access_hv}
use ct_recomp.Sched.Joypad.{autojoy_update}

-- `(int)ct_bus_n - 1`, where -1 is no access.
abbrev pub last_access : ℕ → Option ℕ
last_access zero = none
last_access (suc k) = some k

-- Whether bit 7 is set.
abbrev pub bit7 : ℕ → Bool
bit7 v = leb 128 (v % 256)

-- `nmitimen_write`, in an instruction (`in_progress`) of `accesses` bus accesses so far.
unfoldable pub nmitimen_write : Bool → ℕ → ℕ → Sched → Sched
nmitimen_write in_progress accesses v s =
    let fires = not (bit7 s.ports.nmitimen) && bit7 v && bit7 s.ports.rdnmi in
    let armed =
      if fires && in_progress
      then record s.pend { nmi_after = last_access accesses }
      else if fires
      then record s.pend { nmi_count = 2 }
      else s.pend in
    let drops = (v / 16) % 4 == 0 in
    record s {
      pend = if drops then record armed { irq_line = false } else armed;
      ports = record s.ports { timeup = if drops then 0 else s.ports.timeup; nmitimen = v };
    }

unfoldable pub htime_vtime_write : ℕ → ℕ → Ports → Ports
htime_vtime_write reg v p =
    let t = if ltb reg 0x4209 then p.htime else p.vtime in
    let t' =
      if reg % 2 == 1
      then u16 (bit_or (bit_and t 0x100) v)
      else u16 (bit_or (bit_and t 0xFF) (bit_and v 1 <<< 8)) in
    if ltb reg 0x4209 then record p { htime = t' } else record p { vtime = t' }

unfoldable pub rdnmi_read : ℕ → ℕ → Sched → ℕ × Sched
rdnmi_read at mdr s =
    let place = access_hv at s.place in
    let sets = place.0 == sched_vblank_line && leb 2 place.1 && not s.place.rdnmi_set in
    let raised = if sets then 0x80 else s.ports.rdnmi in
    let now = if place.0 == 0 && leb 2 place.1 && not (s.place.line == 0) then 0 else raised in
    let holds = place.0 == sched_vblank_line && ltb place.1 6 in
    (
      u8 (bit_or (bit_or now 0x02) (bit_and mdr 0x70)),
      record s {
        place = record s.place { rdnmi_set = if sets then true else s.place.rdnmi_set };
        ports = record s.ports { rdnmi = if holds then now else 0 };
      },
    )

unfoldable pub timeup_read : Sched → ℕ × Sched
timeup_read s = (
  s.ports.timeup,
  record s { ports = record s.ports { timeup = 0 }; pend = record s.pend { irq_line = false } },
)

unfoldable pub hvbjoy_read : ℕ → ℕ → Sched → ℕ × Sched
hvbjoy_read at mdr s =
    let place = access_hv at s.place in
    let pads = autojoy_update s.ports.nmitimen at s.joypads in
    let vb = leb sched_vblank_line place.0 in
    let hb = ltb place.1 4 || ltb sched_hblank_clock place.1 in
    (
      u8 (
          bit_or (bit_or (bit_or (flag vb <<< 7) (flag hb <<< 6)) (bit_and mdr 0x3E))
            (flag pads.autojoy_busy)),
      record s { joypads = pads },
    )
