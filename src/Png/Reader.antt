-- ===== src/Png/Reader.antt =====
-- A reader of PNG files, from the formats' definitions, against which the writer of runtime/png.c
-- is proved: true-colour images of 8 bits, not interlaced, whose lines have filter 0 and whose zlib
-- stream is one IDAT chunk of stored blocks. Every length, type and checksum is tested.
use ct_recomp.Base.{
  ℕ, zero, suc, Bool, true, false, Option, none, some, List, [], ◌∷◌, ◌++◌, ◌+◌, ◌-◌, ◌*◌, ◌/◌, ◌%◌,
  ◌==◌, ◌&&◌, ltb, bit_xor,
}
use ct_recomp.Base.Options.{◌>>=◌, ◌>>◌, guard}

unfoldable pub read_bytes : ℕ → List ℕ → Option (List ℕ × List ℕ)
read_bytes zero xs = some ([], xs)
read_bytes (suc n) [] = none
read_bytes (suc n) (x ∷ xs) = do (ys, rest) ← read_bytes n xs; some (x ∷ ys, rest)

-- Four bytes, the highest first.
unfoldable pub number32 : List ℕ → Option (ℕ × List ℕ)
number32 (a ∷ b ∷ c ∷ d ∷ rest) = some (((a * 256 + b) * 256 + c) * 256 + d, rest)
number32 _ = none

-- CRC-32 by its shift register, a bit at a time.
unfoldable pub shift_bit : ℕ → ℕ
shift_bit v = bit_xor (v / 2) (v % 2 * 0xEDB88320)

unfoldable pub shift_bits : ℕ → ℕ → ℕ
shift_bits zero v = v
shift_bits (suc n) v = shift_bits n (shift_bit v)

unfoldable pub crc32 : ℕ → List ℕ → ℕ
crc32 c [] = c
crc32 c (p ∷ ps) = crc32 (shift_bits 8 (bit_xor c p)) ps

-- Adler-32: both sums, reduced at the end.
unfoldable pub adler_sums : ℕ → ℕ → List ℕ → ℕ
adler_sums a b [] = b % 65521 * 65536 + a % 65521
adler_sums a b (v ∷ vs) = adler_sums (a + v) (b + (a + v)) vs

unfoldable pub same : List ℕ → List ℕ → Bool
same [] [] = true
same (x ∷ xs) (y ∷ ys) = x == y && same xs ys
same _ _ = false

-- The body of a chunk of the type, and what follows it.
unfoldable pub read_chunk : List ℕ → List ℕ → Option (List ℕ × List ℕ)
read_chunk type file = do
  (n, r) ← number32 file
  (t, r1) ← read_bytes 4 r
  guard (same t type)
  (body, r2) ← read_bytes n r1
  (check, rest) ← number32 r2
  guard (check == bit_xor (crc32 0xFFFFFFFF (t ++ body)) 0xFFFFFFFF)
  some (body, rest)

-- The header of a stored block: its last flag and its length.
unfoldable pub read_header : List ℕ → Option (ℕ × ℕ × List ℕ)
read_header (final ∷ lo ∷ hi ∷ nlo ∷ nhi ∷ rest) = do
  guard (ltb final 2 && ltb lo 256 && ltb hi 256)
  guard (nlo == 255 - lo && nhi == 255 - hi)
  some (final, hi * 256 + lo, rest)
read_header _ = none

-- Stored blocks up to the last: at most `fuel` of them.
unfoldable pub inflate : ℕ → List ℕ → Option (List ℕ × List ℕ)
inflate zero z = none
inflate (suc fuel) z = do
  (final, len, r) ← read_header z
  (body, r1) ← read_bytes len r
  elim (final == 1) [
    | true ↦ some (body, r1)
    | false ↦ do (more, r2) ← inflate fuel r1; some (body ++ more, r2)
  ]

unfoldable pub read_zlib : ℕ → List ℕ → Option (List ℕ)
read_zlib fuel (cmf ∷ flg ∷ z) = do
  guard (cmf % 16 == 8 && (cmf * 256 + flg) % 31 == 0 && flg / 32 % 2 == 0)
  (raw, r) ← inflate fuel z
  (check, rest) ← number32 r
  guard (check == adler_sums 1 0 raw && same rest [])
  some raw
read_zlib fuel _ = none

-- Red, green, blue.
abbrev pub Pixel : Type 0
Pixel = ℕ × ℕ × ℕ

unfoldable pub read_pixels : ℕ → List ℕ → Option (List Pixel × List ℕ)
read_pixels zero xs = some ([], xs)
read_pixels (suc n) (r ∷ g ∷ b ∷ xs) = do (ps, rest) ← read_pixels n xs; some ((r, g, b) ∷ ps, rest)
read_pixels (suc n) _ = none

unfoldable pub read_lines : ℕ → ℕ → List ℕ → Option (List (List Pixel))
read_lines w zero [] = some []
read_lines w zero (x ∷ xs) = none
read_lines w (suc h) [] = none
read_lines w (suc h) (filter ∷ xs) = do
  guard (filter == 0)
  (line, rest) ← read_pixels w xs
  lines ← read_lines w h rest
  some (line ∷ lines)

-- Width and height.
unfoldable pub read_ihdr : List ℕ → Option (ℕ × ℕ)
read_ihdr body = do
  (w, r) ← number32 body
  (h, r1) ← number32 r
  guard (same r1 (8 ∷ 2 ∷ 0 ∷ 0 ∷ 0 ∷ []))
  some (w, h)

-- Width, height and the lines of a file, of at most `fuel` stored blocks.
unfoldable pub read_png : ℕ → List ℕ → Option (ℕ × ℕ × List (List Pixel))
read_png fuel file = do
  (sig, r) ← read_bytes 8 file
  guard (same sig (137 ∷ 80 ∷ 78 ∷ 71 ∷ 13 ∷ 10 ∷ 26 ∷ 10 ∷ []))
  (head, r1) ← read_chunk (73 ∷ 72 ∷ 68 ∷ 82 ∷ []) r
  (w, h) ← read_ihdr head
  (z, r2) ← read_chunk (73 ∷ 68 ∷ 65 ∷ 84 ∷ []) r1
  (end, r3) ← read_chunk (73 ∷ 69 ∷ 78 ∷ 68 ∷ []) r2
  guard (same end [] && same r3 [])
  raw ← read_zlib fuel z
  lines ← read_lines w h raw
  some (w, h, lines)
