-- ===== src/Examples/Devices.antt =====
-- The theorems about the PNG writer and the device adapter at concrete inputs.
use ct_recomp.Base.{
  ℕ, suc, true, false, some, List, [], ◌∷◌, ◌++◌, ◌≡◌, refl, ◌+◌, ◌*◌, ◌%◌, ◌^◌, inl, length, arith,
  bit_and,
}
use mathlib.Core.Bool.{true≢false}
use ct_recomp.Png.{Stdio, crc, png_write_bgrx}
use ct_recomp.Png.Crc.{IsTable, crc-crc32}
use ct_recomp.Png.Reader.{crc32, read_png}
use ct_recomp.Png.Written.{Succeeds}
use ct_recomp.Png.Saved.{picture, png_write_bgrx-read_png}
use ct_recomp.Adapter.{Ppu, PpuSide, ApuSide, Dma}
use ct_recomp.Adapter.PpuPorts.{ppu_reg_store}
use ct_recomp.Adapter.ApuPorts.{apu_reg_write, inport_read, spc_cycle_end, spc_write}
use ct_recomp.Adapter.DmaPorts.{
  snes_hdma_cost, snes_hdma_init_cost, reloads_from, transfers_from, transfer_clocks, hdma_len,
  reload_clocks,
}
use ct_recomp.Adapter.Readback.{read_ports, write_bytes, bytes_from, rewound, oam_write-oam_read}
use ct_recomp.Adapter.Prefetch.{read_words, vram_words, ppu_reg_store-read_words}
use ct_recomp.Adapter.Agreed.{IsAgreed, apu_reg_write-delivered}
use ct_recomp.Adapter.Costs.{
  over_channels, transfer_bytes, table_bytes, init_bytes, last_running, hdma_costs-bytes,
}

-- Files as lists of bytes, in which nothing fails.
abbrev list_io : Stdio
list_io = record {
  File = List ℕ;
  fopen = some [];
  fwrite = λ b f. (f ++ b, length b);
  fclose = λ f. (f, false);
  malloc = λ n. true;
}

list_io-Succeeds : Succeeds list_io (λ f. f)
list_io-Succeeds = record {
  memory = λ n. refl;
  file = [];
  opens = refl;
  empty = refl;
  whole = λ b f. refl;
  appends = λ b f. refl;
  closes = λ f. refl;
  keeps = λ f. refl;
}

abbrev ramp : ℕ → ℕ
ramp k = k % 256

abbrev no_table : ℕ → ℕ
no_table k = 0

png_example :
    (f : List ℕ) × ((png_write_bgrx list_io no_table ramp 2 1).1 ≡ some f)
    × ((png_write_bgrx list_io no_table ramp 2 1).2 ≡ true)
    × (read_png 7 f ≡ some (2, 1, picture ramp 2 0 1))
png_example =
    png_write_bgrx-read_png list_io (λ f. f) no_table ramp 2 1 7 list_io-Succeeds (inl refl)
      (λ k. omega arith) (omega arith) (omega arith) (omega arith) (omega arith) (omega arith)

crc_example :
    ((crc no_table 0xFFFFFFFF (73 ∷ 69 ∷ 78 ∷ 68 ∷ [])).1
      ≡ crc32 0xFFFFFFFF (73 ∷ 69 ∷ 78 ∷ 68 ∷ []))
    × IsTable (crc no_table 0xFFFFFFFF (73 ∷ 69 ∷ 78 ∷ 68 ∷ [])).0
crc_example = crc-crc32 no_table 0xFFFFFFFF (73 ∷ 69 ∷ 78 ∷ 68 ∷ []) (inl refl) (omega arith)

abbrev a_ppu : Ppu
a_ppu = record {
  oam = λ k. 0xABCD;
  oam_adr = 5;
  oam_second_write = true;
  oam_buffer = 0;
  vram = λ k. k % 2 ^ 16;
  vram_pointer = 0x7FFF;
  vram_increment = 1;
  vram_increment_on_high = true;
  cgram = λ k. 0;
  cgram_pointer = 0;
  cgram_second_write = false;
  forced_blank = false;
  draw_x = 256;
  others = λ k. 0;
}

abbrev a_side : PpuSide
a_side = record { ppu = a_ppu; ppu1_mdr = 0; ppu2_mdr = 0; vram_latch = 0; oamadd_reload = 0 }

oam_example :
    read_ports 544 (record a_side { ppu = rewound (write_bytes 544 0 ramp (rewound a_ppu)) })
    ≡ bytes_from 544 0 ramp
oam_example = oam_write-oam_read ramp a_side (λ k. omega arith) (λ k. omega arith)

abbrev write_pointer : ℕ → ℕ → Ppu → Ppu
write_pointer reg v p = record p { vram_pointer = p.vram_pointer % 256 + v * 256 }

prefetch_example :
    read_words (suc 3) (ppu_reg_store write_pointer 0x2117 0x12 a_side)
    ≡ a_ppu.vram (bit_and (255 + 0x12 * 256) 0x7FFF) ∷ vram_words 3 a_ppu.vram 1 (255 + 0x12 * 256)
prefetch_example = ppu_reg_store-read_words write_pointer 3 0x12 a_side refl (λ k. omega arith)

abbrev an_apu : ApuSide
an_apu = record {
  apu = record {
    in_ports = λ k. 0;
    out_ports = λ k. 0;
    ram = λ k. 0;
    dsp = λ k. 0;
    dsp_adr = 0;
    timer = λ t. record { counter = 0; others = λ k. 0 };
    cycles = 0;
    others = λ k. 0;
  };
  port_new = λ k. 1;
  port_vis = λ k. 0;
  port_pending = true;
}

delivered_example :
    IsAgreed (apu_reg_write (λ e s. s) (λ s. false) 0x2141 0xCC an_apu)
    × (inport_read
          (bit_and 0x2141 3)
          (spc_cycle_end (apu_reg_write (λ e s. s) (λ s. false) 0x2141 0xCC an_apu))
        ≡ 0xCC)
    × IsAgreed (spc_cycle_end an_apu)
    × IsAgreed (spc_write 0xF1 0x30 an_apu)
delivered_example =
    apu_reg_write-delivered (λ e s. s) (λ s. false) 0x2141 0xCC 0xF1 0x30 an_apu (λ t h. h)
      (record { agreed = λ p k q. absurd (true≢false p) })

abbrev a_dma : Dma
a_dma = record {
  channel = λ c. record {
    a_bank = 0x7E;
    rep_count = 1;
    a_adr = 0x1000;
    table_adr = 0x1003;
    dma_active = false;
    hdma_active = true;
    mode = 4;
    indirect = true;
    do_transfer = true;
    terminated = false;
    others = λ k. 0;
  };
  dma_busy = false;
  others = λ k. 0;
}

hdma_costs_example :
    (snes_hdma_cost ramp a_dma
      ≡ 8
        + 8 * over_channels (λ c. transfer_bytes (a_dma.channel c))
        + 8 * over_channels (λ c. table_bytes ramp (last_running 8 0 a_dma 8) c (a_dma.channel c)))
    × (snes_hdma_init_cost ramp a_dma
        ≡ 8 + 8 * over_channels (λ c. init_bytes ramp (a_dma.channel c)))
hdma_costs_example = hdma_costs-bytes ramp a_dma

-- Eight channels of four bytes each, with an indirect address to load.
hdma_cost_most : snes_hdma_cost (λ a. 1) a_dma ≡ 456
unfolding snes_hdma_cost reloads_from transfers_from transfer_clocks hdma_len reload_clocks
hdma_cost_most = refl
