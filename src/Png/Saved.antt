-- ===== src/Png/Saved.antt =====
-- What `png_write_bgrx` of runtime/png.c writes, read back by the reader.
use ct_recomp.Base.{
  ℕ, zero, suc, Bool, true, false, Option, none, some, List, [], ◌∷◌, ◌++◌, ◌≡◌, refl, ap, sym, ◌∙◌,
  ◌+◌, ◌*◌, ◌^◌, ◌<◌, ◌≤◌, ◌&&◌, ◌||◌, length, take, length-append, u32, arith, not, ◌/◌,
  if◌then◌else◌,
}
use ct_recomp.Png.{
  be32, ihdr, ihdr_type, idat_type, iend_type, signature, raw_row, raw_lines, zlib_stream, Stdio,
  Output, write_file, png_write_bgrx,
}
use ct_recomp.Png.Crc.{AreBytes, IsTable, append-AreBytes}
use ct_recomp.Png.Reader.{Pixel, read_ihdr, read_pixels, read_lines, read_zlib, read_png}
use ct_recomp.Png.Stream.{
  read_bytes-append, same_self, number32-be32, read_zlib-zlib_stream, length-zlib_stream,
  be32-AreBytes, zlib_stream-AreBytes,
}
use ct_recomp.Png.Written.{chunk_bytes, read_chunk_lem, Succeeds, Holds, put-Holds, chunk-Holds}
use mathlib.Core.Path.{subst}
use mathlib.Core.List.{append_assoc, append-nil}

-- The picture: red, green and blue of the pixel at `s` and of those after it, and the lines.
unfoldable pub pixels : (ℕ → ℕ) → ℕ → ℕ → List Pixel
pixels bgrx s zero = []
pixels bgrx s (suc n) = (bgrx (s + 2), bgrx (s + 1), bgrx s) ∷ pixels bgrx (s + 4) n

unfoldable pub picture : (ℕ → ℕ) → ℕ → ℕ → ℕ → List (List Pixel)
picture bgrx w y zero = []
picture bgrx w y (suc n) = pixels bgrx (y * w * 4) w ∷ picture bgrx w (y + 1) n

read_pixels-raw_row :
    (bgrx : ℕ → ℕ) (s n : ℕ) (rest : List ℕ)
    → read_pixels n (raw_row bgrx s n ++ rest) ≡ some (pixels bgrx s n, rest)
unfolding read_pixels raw_row pixels
read_pixels-raw_row bgrx s zero rest = refl
read_pixels-raw_row bgrx s (suc n) rest = rw (read_pixels-raw_row bgrx (s + 4) n rest) refl

read_lines-raw_lines :
    (bgrx : ℕ → ℕ) (w y n : ℕ) → read_lines w n (raw_lines bgrx w y n) ≡ some (picture bgrx w y n)
unfolding read_lines raw_lines picture
read_lines-raw_lines bgrx w y zero = refl
read_lines-raw_lines bgrx w y (suc n) =
    rw (read_pixels-raw_row bgrx (y * w * 4) w (raw_lines bgrx w (y + 1) n))
      (rw (read_lines-raw_lines bgrx w (y + 1) n) refl)

length-raw_row : (bgrx : ℕ → ℕ) (s n : ℕ) → length (raw_row bgrx s n) ≡ n * 3
unfolding raw_row
length-raw_row bgrx s zero = refl
length-raw_row bgrx s (suc n) = omega (arith, length-raw_row bgrx (s + 4) n)

length-raw_lines : (bgrx : ℕ → ℕ) (w y n : ℕ) → length (raw_lines bgrx w y n) ≡ (w * 3 + 1) * n
unfolding raw_lines
length-raw_lines bgrx w y zero = omega arith
length-raw_lines bgrx w y (suc n) = grind (
  arith,
  length-append (raw_row bgrx (y * w * 4) w) (raw_lines bgrx w (y + 1) n),
  length-raw_row bgrx (y * w * 4) w,
  length-raw_lines bgrx w (y + 1) n,
)

raw_row-AreBytes : (bgrx : ℕ → ℕ) (s n : ℕ) → ((k : ℕ) → bgrx k < 256) → AreBytes (raw_row bgrx s n)
unfolding raw_row
raw_row-AreBytes bgrx s zero h = tt
raw_row-AreBytes bgrx s (suc n) h =
    (h (s + 2), (h (s + 1), (h s, raw_row-AreBytes bgrx (s + 4) n h)))

raw_lines-AreBytes :
    (bgrx : ℕ → ℕ) (w y n : ℕ) → ((k : ℕ) → bgrx k < 256) → AreBytes (raw_lines bgrx w y n)
unfolding raw_lines
raw_lines-AreBytes bgrx w y zero h = tt
raw_lines-AreBytes bgrx w y (suc n) h = (
  omega arith,
  append-AreBytes _ _ (raw_row-AreBytes bgrx (y * w * 4) w h)
      (raw_lines-AreBytes bgrx w (y + 1) n h),
)

ihdr-AreBytes : (w h : ℕ) → AreBytes (ihdr w h)
unfolding ihdr
ihdr-AreBytes w h =
    append-AreBytes (be32 w) _ (be32-AreBytes w)
      (append-AreBytes (be32 h) _ (be32-AreBytes h) (omega arith))

length-ihdr : (w h : ℕ) → length (ihdr w h) ≡ 13
unfolding ihdr be32
length-ihdr w h = refl

read_ihdr-ihdr : (w h : ℕ) → w < 2 ^ 32 → h < 2 ^ 32 → read_ihdr (ihdr w h) ≡ some (w, h)
unfolding read_ihdr ihdr
read_ihdr-ihdr w h p q =
    rw (number32-be32 w _ p) (rw (number32-be32 h _ q, same_self (8 ∷ 2 ∷ 0 ∷ 0 ∷ 0 ∷ [])) refl)

take_all : (xs : List ℕ) → take (length xs) xs ≡ xs
take_all [] = refl
take_all (x ∷ xs) = ap (λ t. x ∷ t) (take_all xs)

-- The whole file.
abbrev file_bytes : ℕ → ℕ → List ℕ → List ℕ
file_bytes w h z =
    ((signature ++ chunk_bytes ihdr_type (ihdr w h)) ++ chunk_bytes idat_type z)
    ++ chunk_bytes iend_type []

write_file-Holds :
    (io : Stdio) (contents : io.File → List ℕ) (succeeds : Succeeds io contents) (table : ℕ → ℕ)
    (z : List ℕ) (w h : ℕ)
    → IsTable table
    → AreBytes z
    → length z < 2 ^ 32
    → Holds io contents succeeds (write_file io table succeeds.file z w h) (file_bytes w h z)
unfolding write_file
write_file-Holds io contents succeeds table z w h t b n =
    subst
      (λ y. Holds io contents succeeds (write_file io table succeeds.file z w h) (file_bytes w h y))
      whole
      (chunk-Holds io contents succeeds iend_type [] _ _ (omega arith) tt (
        chunk-Holds io contents succeeds idat_type (take (u32 (length z)) z) _ _ (omega arith)
          (subst AreBytes (sym whole) b)
          (chunk-Holds io contents succeeds ihdr_type (ihdr w h) _ _ (omega arith)
            (ihdr-AreBytes w h)
            (put-Holds io contents succeeds signature _ []
              (record { unbroken = refl; written = succeeds.empty; table = t })))))
  where
    whole : take (u32 (length z)) z ≡ z
    whole = ap (λ k. take k z) {x = u32 (length z)} {y = length z} (omega arith) ∙ take_all z

read_png-file_bytes :
    (most w h : ℕ) (z raw : List ℕ) (lines : List (List Pixel))
    → w < 2 ^ 32
    → h < 2 ^ 32
    → AreBytes z
    → length z < 2 ^ 32
    → read_zlib most z ≡ some raw
    → read_lines w h raw ≡ some lines
    → read_png most (file_bytes w h z) ≡ some (w, h, lines)
unfolding read_png
read_png-file_bytes most w h z raw lines p q b n rz rl =
    let c1 = chunk_bytes ihdr_type (ihdr w h) in
    let c2 = chunk_bytes idat_type z in
    let c3 = chunk_bytes iend_type [] in
    let spread : file_bytes w h z ≡ signature ++ (c1 ++ (c2 ++ (c3 ++ []))) =
      append_assoc (signature ++ c1) c2 c3
      ∙ (append_assoc signature c1 (c2 ++ c3)
          ∙ ap (λ e. signature ++ (c1 ++ (c2 ++ e))) (sym (append-nil c3))) in
    ap (read_png most) spread
    ∙ rw (read_bytes-append 8 signature (c1 ++ (c2 ++ (c3 ++ []))) refl, same_self signature)
        (rw
          (read_chunk_lem ihdr_type (ihdr w h) (c2 ++ (c3 ++ [])) refl (omega arith)
            (ihdr-AreBytes w h) (omega (arith, length-ihdr w h)))
          (rw (read_ihdr-ihdr w h p q) (
            rw (read_chunk_lem idat_type z (c3 ++ []) refl (omega arith) b n) (
              rw (read_chunk_lem iend_type [] [] refl (omega arith) tt (omega arith))
                (rw (same_self [], rz) (rw (rl) refl))))))

abbrev Outcome : Stdio → Type 0
Outcome io = (ℕ → ℕ) × Option io.File × Bool

-- What is left after the writes: to close the file.
abbrev outcome : (io : Stdio) → Output io.File → Outcome io
outcome io o = (o.table, some (io.fclose o.file).0, o.whole && not (io.fclose o.file).1)

-- The tests for memory and for the opened file, passed.
granted :
    {F R : Type 0} (a b : Bool) (opened : Option F) (f : F) (x : R) (g : F → R)
    → a ≡ true
    → b ≡ true
    → opened ≡ some f
    → (if not a || not b then x else elim opened [ none ↦ x | some e ↦ g e ]) ≡ g f
granted a b opened f x g p q r = rw (p, q, r) refl

-- Where nothing fails in the C library, png_write_bgrx returns 0 for a picture of one line at
-- least, whose bytes are bytes and whose zlib stream is shorter than 2^32 bytes, whether crc_table
-- is filled or not; and the file that it closes, read by the formats' definitions with every
-- length and checksum tested, has the width, the height and the red, green and blue of every
-- pixel.
pub png_write_bgrx-read_png :
    (io : Stdio) (contents : io.File → List ℕ) (table bgrx : ℕ → ℕ) (w h most : ℕ)
    → Succeeds io contents
    → IsTable table
    → ((k : ℕ) → bgrx k < 256)
    → w < 2 ^ 31
    → 0 < h
    → h < 2 ^ 31
    → (w * 3 + 1) * h ≤ most
    → 2 + (w * 3 + 1) * h + ((w * 3 + 1) * h + 65534) / 65535 * 5 + 4 < 2 ^ 32
    → (f : io.File) × ((png_write_bgrx io table bgrx w h).1 ≡ some f)
      × ((png_write_bgrx io table bgrx w h).2 ≡ true)
      × (read_png most (contents f) ≡ some (w, h, picture bgrx w 0 h))
unfolding png_write_bgrx
png_write_bgrx-read_png io contents table bgrx w h most s t b p q r m n =
    let raw = raw_lines bgrx w 0 h in
    let size = length-raw_lines bgrx w 0 h in
    let z = zlib_stream raw in
    let bytes = zlib_stream-AreBytes raw (raw_lines-AreBytes bgrx w 0 h b) in
    let fits : length z < 2 ^ 32 = rw (length-zlib_stream raw, size) n in
    let filled : 0 < length raw = rw (size) (grind arith) in
    let o = write_file io table s.file z w h in
    let held = write_file-Holds io contents s table z w h t bytes fits in
    let closed = io.fclose o.file in
    let runs =
      granted (io.malloc ((w * 3 + 1) * h))
        (io.malloc (2 + (w * 3 + 1) * h + ((w * 3 + 1) * h + 65534) / 65535 * 5 + 4)) io.fopen
        s.file (table, none, false) (λ f. outcome io (write_file io table f z w h))
        (s.memory ((w * 3 + 1) * h))
        (s.memory (2 + (w * 3 + 1) * h + ((w * 3 + 1) * h + 65534) / 65535 * 5 + 4)) s.opens in
    (
      closed.0,
      ap (λ (t : Outcome io). t.1) runs,
      ap (λ (t : Outcome io). t.2) runs
          ∙ (ap (λ t. t && not closed.1) held.unbroken ∙ ap not (s.closes o.file)),
      ap (read_png most) (s.keeps o.file ∙ held.written)
          ∙ read_png-file_bytes most w h z raw (picture bgrx w 0 h) (omega arith) (omega arith)
              bytes fits (read_zlib-zlib_stream most raw filled (rw (size) m))
              (read_lines-raw_lines bgrx w 0 h),
    )
