-- ===== src/Png.antt =====
-- The PNG writer, runtime/png.c: checksums, chunks, the stored zlib stream, `png_write_bgrx` and
-- `png_dump_frame`. The C library's files and `malloc` are parameters.
pub mod Crc
pub mod Reader
pub mod Stream
pub mod Written
pub mod Saved
use ct_recomp.Base.{
  ℕ, zero, suc, Bool, true, false, Option, none, some, List, [], ◌∷◌, ◌++◌, not, ◌+◌, ◌-◌, ◌*◌, ◌/◌,
  ◌%◌, ◌^◌, ◌==◌, ◌&&◌, ◌||◌, ltb, flag, if◌then◌else◌, length, take, drop, u8, u32, ◌<<<◌, ◌>>>◌,
}
use ct_recomp.Base.{bit_and, bit_or, bit_xor}

-- One of the eight rounds that make an entry of `crc_table`.
unfoldable pub crc_round : ℕ → ℕ
crc_round v = if v % 2 == 1 then bit_xor 0xEDB88320 (v >>> 1) else v >>> 1

unfoldable pub crc_rounds : ℕ → ℕ → ℕ
crc_rounds zero v = v
crc_rounds (suc n) v = crc_rounds n (crc_round v)

-- `crc_table` as `crc` leaves it: filled at the first call.
unfoldable pub crc_filled : (ℕ → ℕ) → ℕ → ℕ
crc_filled table k =
    if table 1 == 0 then (if ltb k 256 then crc_rounds 8 k else table k) else table k

unfoldable pub crc_loop : (ℕ → ℕ) → ℕ → List ℕ → ℕ
crc_loop table c [] = c
crc_loop table c (p ∷ ps) =
    crc_loop table (bit_xor (table (bit_and (bit_xor c p) 0xFF)) (c >>> 8)) ps

-- `crc`: the table after it, and its value.
unfoldable pub crc : (ℕ → ℕ) → ℕ → List ℕ → (ℕ → ℕ) × ℕ
crc table c p = (crc_filled table, crc_loop (crc_filled table) c p)

unfoldable pub be32 : ℕ → List ℕ
be32 v = u8 (v >>> 24) ∷ u8 (v >>> 16) ∷ u8 (v >>> 8) ∷ u8 v ∷ []

-- `raw`: one line from the pixel at `s` on, and the lines from `y` on.
unfoldable pub raw_row : (ℕ → ℕ) → ℕ → ℕ → List ℕ
raw_row bgrx s zero = []
raw_row bgrx s (suc n) = bgrx (s + 2) ∷ bgrx (s + 1) ∷ bgrx s ∷ raw_row bgrx (s + 4) n

unfoldable pub raw_lines : (ℕ → ℕ) → ℕ → ℕ → ℕ → List ℕ
raw_lines bgrx w y zero = []
raw_lines bgrx w y (suc n) = 0 ∷ (raw_row bgrx (y * w * 4) w ++ raw_lines bgrx w (y + 1) n)

-- `a` and `b` of the zlib stream's Adler-32.
pub record Adler : Type 0 where
  pub a : ℕ
  pub b : ℕ

abbrev pub adler_add : Adler → ℕ → Adler
adler_add s v = let a = (s.a + v) % 65521 in record { a = a; b = (s.b + a) % 65521 }

unfoldable pub adler_loop : Adler → List ℕ → Adler
adler_loop s [] = s
adler_loop s (v ∷ vs) = adler_loop (adler_add s v) vs

-- `~len` of a `size_t`.
abbrev pub not64 : ℕ → ℕ
not64 v = 2 ^ 64 - 1 - v % 2 ^ 64

abbrev pub block_len : ℕ → ℕ
block_len left = if ltb left 65535 then left else 65535

-- The header of a stored block of `len` bytes, of the `left` that are not written yet.
unfoldable pub block_header : ℕ → ℕ → List ℕ
block_header left len =
    flag (len == left) ∷ u8 len ∷ u8 (len >>> 8) ∷ u8 (not64 len) ∷ u8 (not64 len >>> 8) ∷ []

-- The loop over the blocks, on the rest of `raw`: what it writes, and the Adler-32 after it. Every
-- block takes a byte at least, so the length of `raw` is fuel enough.
unfoldable pub blocks : ℕ → List ℕ → Adler → List ℕ × Adler
blocks zero raw s = ([], s)
blocks (suc fuel) [] s = ([], s)
blocks (suc fuel) (v ∷ vs) s =
    let left = length (v ∷ vs) in
    let len = block_len left in
    let body = take len (v ∷ vs) in
    let rest = blocks fuel (drop len (v ∷ vs)) (adler_loop s body) in
    (block_header left len ++ (body ++ rest.0), rest.1)

-- `z`, the zlib stream of `raw`.
unfoldable pub zlib_stream : List ℕ → List ℕ
zlib_stream raw =
    let done = blocks (length raw) raw (record { a = 1; b = 0 }) in
    0x78 ∷ 0x01 ∷ (done.0 ++ be32 (bit_or (done.1.b <<< 16) done.1.a))

abbrev pub signature : List ℕ
signature = 0x89 ∷ b'P' ∷ b'N' ∷ b'G' ∷ 13 ∷ 10 ∷ 0x1A ∷ 10 ∷ []

abbrev pub ihdr_type : List ℕ
ihdr_type = b'I' ∷ b'H' ∷ b'D' ∷ b'R' ∷ []

abbrev pub idat_type : List ℕ
idat_type = b'I' ∷ b'D' ∷ b'A' ∷ b'T' ∷ []

abbrev pub iend_type : List ℕ
iend_type = b'I' ∷ b'E' ∷ b'N' ∷ b'D' ∷ []

unfoldable pub ihdr : ℕ → ℕ → List ℕ
ihdr w h = be32 w ++ (be32 h ++ (8 ∷ 2 ∷ 0 ∷ 0 ∷ 0 ∷ []))

-- What the writer uses of the C library. `fwrite` gives the file after it and the number of bytes
-- that it wrote, `fclose` tells whether it failed.
pub record Stdio : Type 1 where
  pub File : Type 0
  pub fopen : Option File
  pub fwrite : List ℕ → File → File × ℕ
  pub fclose : File → File × Bool
  pub malloc : ℕ → Bool

-- A file between two writes: `crc_table`, the file, and whether every write so far was whole. A
-- failed write ends the chain of `||` and `&&`, so nothing is written after it.
pub record Output (File : Type 0) : Type 0 where
  pub table : ℕ → ℕ
  pub file : File
  pub whole : Bool

module _ (io : Stdio) where
  open io use {File, fopen, fwrite, fclose, malloc}

  unfoldable pub put : List ℕ → Output File → Output File
  put bytes o =
      let written = fwrite bytes o.file in
      if o.whole then record o { file = written.0; whole = written.1 == length bytes } else o

  -- `chunk`, of the four bytes of a type.
  unfoldable pub chunk : List ℕ → List ℕ → Output File → Output File
  chunk type body o =
      let head = crc o.table 0xFFFFFFFF type in
      let all = crc head.0 head.1 body in
      let headed = put (be32 (length body) ++ type) (record o { table = all.0 }) in
      let filled = if length body == 0 then headed else put body headed in
      if o.whole then put (be32 (bit_xor all.1 0xFFFFFFFF)) filled else o

  -- The writes of `png_write_bgrx`; the length of `z` is passed as 32 bits.
  unfoldable pub write_file : (ℕ → ℕ) → File → List ℕ → ℕ → ℕ → Output File
  write_file table f z w h = chunk iend_type [] (
      chunk idat_type (take (u32 (length z)) z) (
        chunk ihdr_type (ihdr w h)
          (put signature (record { table = table; file = f; whole = true }))))

  -- `png_write_bgrx`: `crc_table` after it, the file, and whether it returns 0.
  unfoldable pub png_write_bgrx : (ℕ → ℕ) → (ℕ → ℕ) → ℕ → ℕ → (ℕ → ℕ) × Option File × Bool
  png_write_bgrx table bgrx w h =
      let raw_n = (w * 3 + 1) * h in
      let raw = raw_lines bgrx w 0 h in
      if not (malloc raw_n) || not (malloc (2 + raw_n + (raw_n + 65534) / 65535 * 5 + 4))
      then (table, none, false)
      else elim fopen [
        | none ↦ (table, none, false)
        | some f ↦
            let o = write_file table f (zlib_stream raw) w h in
            let closed = fclose o.file in (o.table, some closed.0, o.whole && not closed.1)
      ]

unfoldable pub fnv_loop : ℕ → ℕ → ℕ → (ℕ → ℕ) → ℕ
fnv_loop zero k h p = h
fnv_loop (suc n) k h p = fnv_loop n (k + 1) (u32 (bit_xor h (p k) * 16777619)) p

unfoldable pub fnv : (ℕ → ℕ) → ℕ → ℕ
fnv p n = fnv_loop n 0 2166136261 p

-- The loop for `lit`, over `n` pixels from byte `k` on.
unfoldable pub lit_from : ℕ → ℕ → (ℕ → ℕ) → Bool
lit_from zero k p = false
lit_from (suc n) k p =
    not (bit_or (bit_or (p k) (p (k + 1))) (p (k + 2)) == 0) || lit_from n (k + 4) p

-- What `png_dump_frame` returns: 0, 1 or -1.
pub data Dumped : Type 0 where
  skipped saved unwritable : Dumped

-- `png_dump_frame` of the pixels `bgrx`, with its static `last`; `write` is the call of
-- `png_write_bgrx`, which tells whether it returns 0.
unfoldable pub png_dump_frame : Bool → ℕ → (ℕ → ℕ) → ℕ → ℕ → Dumped × ℕ
png_dump_frame write last bgrx w h =
    let hv = fnv bgrx (w * h * 4) in
    if not (lit_from (w * h) 0 bgrx) || hv == last
    then (skipped, last)
    else if write
    then (saved, hv)
    else (unwritable, hv)
