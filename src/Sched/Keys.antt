-- ===== src/Sched/Keys.antt =====
-- The key of an entry in the profile of runtime/sched.c, and the fields read back from it.
use ct_recomp.Base.{◌≡◌, ◌+◌, ◌*◌, ◌%◌, ◌^◌, ◌<◌, arith, long_addr, ◌>>>◌, u8, u16}
use ct_recomp.Base.Bits.{bit_or-fields, bit_or-above}
use ct_recomp.Cpu.{Cpu, IsCpu}
use ct_recomp.Sched.Profile.{entry_key}
use ct_recomp.Sched.Reason.{Entry, entry_of}

-- The key of an entry as the sum of its fields.
entry_key_sum :
    (c : Cpu)
    → IsCpu c
    → entry_key c
      ≡ c.dp * 2 ^ 40
        + (c.db * 2 ^ 32
            + (2 ^ 31
                + (c.fe * 2 ^ 26 + (c.fx * 2 ^ 25 + (c.fm * 2 ^ 24 + (c.pb * 2 ^ 16 + c.pc))))))
unfolding entry_key
entry_key_sum c h = rw (
  bit_or-fields 16 c.pb c.pc h.pc_fits,
  bit_or-above 24 c.fm (c.pb * 2 ^ 16 + c.pc) (omega (arith, h.pb_fits, h.pc_fits)),
  bit_or-above 25 c.fx (c.fm * 2 ^ 24 + (c.pb * 2 ^ 16 + c.pc))
      (omega (arith, h.pb_fits, h.pc_fits, h.fm_fits)),
  bit_or-above 26 c.fe (c.fx * 2 ^ 25 + (c.fm * 2 ^ 24 + (c.pb * 2 ^ 16 + c.pc)))
      (omega (arith, h.pb_fits, h.pc_fits, h.fm_fits, h.fx_fits)),
  bit_or-above 31 1 (c.fe * 2 ^ 26 + (c.fx * 2 ^ 25 + (c.fm * 2 ^ 24 + (c.pb * 2 ^ 16 + c.pc))))
      (omega (arith, h.pb_fits, h.pc_fits, h.fm_fits, h.fx_fits, h.fe_fits)),
  bit_or-above 32 c.db
      (2 ^ 31 + (c.fe * 2 ^ 26 + (c.fx * 2 ^ 25 + (c.fm * 2 ^ 24 + (c.pb * 2 ^ 16 + c.pc)))))
      (omega (arith, h.pb_fits, h.pc_fits, h.fm_fits, h.fx_fits, h.fe_fits)),
  bit_or-above 40 c.dp
      (c.db * 2 ^ 32
        + (2 ^ 31 + (c.fe * 2 ^ 26 + (c.fx * 2 ^ 25 + (c.fm * 2 ^ 24 + (c.pb * 2 ^ 16 + c.pc))))))
      (omega (arith, h.pb_fits, h.pc_fits, h.fm_fits, h.fx_fits, h.fe_fits, h.db_fits)),
)

abbrev pub entry_at : Cpu → Entry
entry_at c = record {
  addr = long_addr c.pb c.pc;
  m = c.fm;
  x = c.fx;
  e = c.fe;
  db = c.db;
  dp = c.dp;
}

-- The fields of the key that a state is entered with.
module _ (c : Cpu) (h : IsCpu c) where
  key_addr : entry_key c % 2 ^ 24 ≡ long_addr c.pb c.pc
  key_addr =
      omega (arith, entry_key_sum c h, bit_or-fields 16 c.pb c.pc h.pc_fits, h.pb_fits, h.pc_fits)

  pub key_bits :
      ((entry_key c >>> 24) % 2 ≡ c.fm)
      × ((entry_key c >>> 25) % 2 ≡ c.fx)
      × ((entry_key c >>> 26) % 2 ≡ c.fe)
      × ((entry_key c >>> 27) % 2 ≡ 0)
  key_bits =
      let low : c.pb * 2 ^ 16 + c.pc < 2 ^ 24 = omega (arith, h.pb_fits, h.pc_fits) in
      let sum = entry_key_sum c h in
      (
        omega (arith, sum, low, h.fm_fits),
        omega (arith, sum, low, h.fm_fits, h.fx_fits),
        omega (arith, sum, low, h.fm_fits, h.fx_fits, h.fe_fits),
        omega (arith, sum, low, h.fm_fits, h.fx_fits, h.fe_fits),
      )

  key_state : (u8 (entry_key c >>> 32) ≡ c.db) × (u16 (entry_key c >>> 40) ≡ c.dp)
  key_state =
      let low : c.pb * 2 ^ 16 + c.pc < 2 ^ 24 = omega (arith, h.pb_fits, h.pc_fits) in
      let sum = entry_key_sum c h in
      (
        omega (arith, sum, low, h.fm_fits, h.fx_fits, h.fe_fits, h.db_fits),
        omega (arith, sum, low, h.fm_fits, h.fx_fits, h.fe_fits, h.db_fits, h.dp_fits),
      )

  pub entry_of-entry_key : entry_of (entry_key c) ≡ entry_at c
  unfolding entry_of
  entry_of-entry_key = rw (key_addr, key_bits.0, key_bits.1, key_bits.2, key_state.0, key_state.1)
