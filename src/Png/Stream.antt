-- ===== src/Png/Stream.antt =====
-- The zlib stream of runtime/png.c, read back: stored blocks and the Adler-32.
use ct_recomp.Base.{
  ℕ, zero, suc, true, false, some, List, [], ◌∷◌, ◌++◌, ◌≡◌, ◌≢◌, refl, Bool, ap, sym, ◌∙◌, ◌+◌,
  ◌-◌, ◌*◌, ◌/◌, ◌%◌, ◌^◌, ◌<◌, ◌≤◌, ◌==◌, flag, length, take, drop, length-append, u8, bit_or,
  arith, inl, inr, ltb_of_lt, ==_true, ==_false, Bool-cases,
}
use ct_recomp.Base.Bits.{bit_or-fields}
use ct_recomp.Png.{
  Adler, adler_add, adler_loop, be32, block_len, block_header, blocks, not64, zlib_stream,
}
use ct_recomp.Png.Crc.{AreBytes, append-AreBytes, take-AreBytes, drop-AreBytes}
use ct_recomp.Png.Reader.{read_bytes, number32, adler_sums, same, read_header, inflate, read_zlib}
use mathlib.Core.List.{append_assoc, append-nil}

module _ {ℓ} {A : Type ℓ} where
  length-take : (n : ℕ) (xs : List A) → n ≤ length xs → length (take n xs) ≡ n
  length-take zero xs h = refl
  length-take (suc n) [] h = absurd (omega arith)
  length-take (suc n) (x ∷ xs) h = ap suc (length-take n xs (omega arith))

  length-drop : (n : ℕ) (xs : List A) → length (drop n xs) ≡ length xs - n
  length-drop zero xs = omega arith
  length-drop (suc n) [] = omega arith
  length-drop (suc n) (x ∷ xs) = length-drop n xs ∙ omega arith

  nil_of_length : (xs : List A) → length xs ≡ 0 → xs ≡ []
  nil_of_length [] h = refl
  nil_of_length (x ∷ xs) h = absurd (omega arith)

  take-append-drop : (n : ℕ) (xs : List A) → take n xs ++ drop n xs ≡ xs
  take-append-drop zero xs = refl
  take-append-drop (suc n) [] = refl
  take-append-drop (suc n) (x ∷ xs) = ap (λ t. x ∷ t) (take-append-drop n xs)

  pub length-drop_lt :
      (n : ℕ) (xs : List A) → 0 < n → 0 < length xs → length (drop n xs) < length xs
  length-drop_lt n xs h k = omega (arith, length-drop n xs)

pub read_bytes-append :
    (n : ℕ) (xs ys : List ℕ) → n ≡ length xs → read_bytes n (xs ++ ys) ≡ some (xs, ys)
unfolding read_bytes
read_bytes-append zero [] ys h = refl
read_bytes-append zero (x ∷ xs) ys h = absurd (omega arith)
read_bytes-append (suc n) [] ys h = absurd (omega arith)
read_bytes-append (suc n) (x ∷ xs) ys h = rw (read_bytes-append n xs ys (omega arith))

pub same_self : (xs : List ℕ) → same xs xs ≡ true
unfolding same
same_self [] = refl
same_self (x ∷ xs) = rw (==_true x x refl) (same_self xs)

pub number32-be32 :
    (v : ℕ) (rest : List ℕ) → v < 2 ^ 32 → number32 (be32 v ++ rest) ≡ some (v, rest)
unfolding number32 be32
number32-be32 v rest h = ap (λ t. some (t, rest)) (omega arith)

flag-lt : (b : Bool) → flag b < 2
flag-lt true = omega arith
flag-lt false = omega arith

read_header-block_header :
    (left len : ℕ) (rest : List ℕ)
    → len ≤ 65535
    → read_header (block_header left len ++ rest) ≡ some (flag (len == left), len, rest)
unfolding read_header block_header
read_header-block_header left len rest h =
    rw
      (
        ltb_of_lt (flag (len == left)) 2 (flag-lt (len == left)),
        ltb_of_lt (len % 256) 256 (omega arith),
        ltb_of_lt (len / 256 % 256) 256 (omega arith),
        ==_true (u8 (not64 len)) (255 - len % 256) (omega arith),
        ==_true (u8 (not64 len / 256)) (255 - len / 256 % 256) (omega arith),
      )
      (ap (λ t. some (flag (len == left), t, rest)) {x = len / 256 % 256 * 256 + len % 256}
        {y = len} (omega arith))

adler_loop-append :
    (s : Adler) (xs ys : List ℕ) → adler_loop s (xs ++ ys) ≡ adler_loop (adler_loop s xs) ys
unfolding adler_loop
adler_loop-append s [] ys = refl
adler_loop-append s (x ∷ xs) ys = adler_loop-append (adler_add s x) xs ys

-- The writer reduces both sums at every byte, the reader at the end.
adler_loop-sums :
    (s : Adler) (a b : ℕ) (xs : List ℕ)
    → s.a ≡ a % 65521
    → s.b ≡ b % 65521
    → (adler_loop s xs).b * 65536 + (adler_loop s xs).a ≡ adler_sums a b xs
unfolding adler_loop adler_sums
adler_loop-sums s a b [] h k = omega arith
adler_loop-sums s a b (x ∷ xs) h k =
    adler_loop-sums (adler_add s x) (a + x) (b + (a + x)) xs (omega arith) (omega arith)

adler_loop-lt :
    (s : Adler) (xs : List ℕ)
    → s.a < 65521
    → s.b < 65521
    → ((adler_loop s xs).a < 65521) × ((adler_loop s xs).b < 65521)
unfolding adler_loop
adler_loop-lt s [] h k = (h, k)
adler_loop-lt s (x ∷ xs) h k = adler_loop-lt (adler_add s x) xs (omega arith) (omega arith)

blocks-nil : (fuel : ℕ) (s : Adler) → blocks fuel [] s ≡ ([], s)
unfolding blocks
blocks-nil zero s = refl
blocks-nil (suc fuel) s = refl

-- A block takes a byte at least, so it leaves fewer than before.
shrinks :
    (fuel : ℕ) (v : ℕ) (vs : List ℕ)
    → length (v ∷ vs) ≤ suc fuel
    → length (drop (block_len (length (v ∷ vs))) (v ∷ vs)) ≤ fuel
shrinks fuel v vs h =
    omega
      (arith, length-drop_lt (block_len (length (v ∷ vs))) (v ∷ vs) (ground arith) (omega arith))

blocks-adler :
    (fuel : ℕ) (raw : List ℕ) (s : Adler)
    → length raw ≤ fuel
    → (blocks fuel raw s).1 ≡ adler_loop s raw
unfolding blocks adler_loop
blocks-adler zero [] s h = refl
blocks-adler zero (v ∷ vs) s h = absurd (omega arith)
blocks-adler (suc fuel) [] s h = refl
blocks-adler (suc fuel) (v ∷ vs) s h =
    let len = block_len (length (v ∷ vs)) in
    blocks-adler fuel (drop len (v ∷ vs)) (adler_loop s (take len (v ∷ vs))) (shrinks fuel v vs h)
    ∙ (sym (adler_loop-append s (take len (v ∷ vs)) (drop len (v ∷ vs)))
        ∙ ap (adler_loop s) (take-append-drop len (v ∷ vs)))

module _ (most left len : ℕ) (body : List ℕ) (short : len ≤ 65535)
    (filled : len ≡ length body) where
  inflate-last :
      (rest : List ℕ)
      → len ≡ left
      → inflate (suc most) (block_header left len ++ (body ++ rest)) ≡ some (body, rest)
  unfolding inflate
  inflate-last rest e =
      rw (read_header-block_header left len (body ++ rest) short)
        (rw (read_bytes-append len body rest filled, ==_true len left e) refl)

  inflate-next :
      (tail more rest : List ℕ)
      → len ≢ left
      → inflate most tail ≡ some (more, rest)
      → inflate (suc most) (block_header left len ++ (body ++ tail)) ≡ some (body ++ more, rest)
  unfolding inflate
  inflate-next tail more rest e i =
      rw (read_header-block_header left len (body ++ tail) short)
        (rw (read_bytes-append len body tail filled, ==_false len left e) (rw (i) refl))

-- The blocks are the bytes of `raw`, whatever follows them.
inflate-blocks :
    (fuel most : ℕ) (raw : List ℕ) (s : Adler) (rest : List ℕ)
    → length raw ≤ fuel
    → 0 < length raw
    → length raw ≤ most
    → inflate most ((blocks fuel raw s).0 ++ rest) ≡ some (raw, rest)
unfolding blocks
inflate-blocks fuel most [] s rest h k m = absurd (omega arith)
inflate-blocks zero most (v ∷ vs) s rest h k m = absurd (omega arith)
inflate-blocks (suc fuel) zero (v ∷ vs) s rest h k m = absurd (omega arith)
inflate-blocks (suc fuel) (suc most) (v ∷ vs) s rest h k m =
    let left = length (v ∷ vs) in
    let len = block_len left in
    let body = take len (v ∷ vs) in
    let t = adler_loop s body in
    let short : len ≤ 65535 = ground arith in
    let filled : len ≡ length body = sym (length-take len (v ∷ vs) (ground arith)) in
    let left_over = drop len (v ∷ vs) in
    let more = (blocks fuel left_over t).0 in
    ap (inflate (suc most)) (
      append_assoc (block_header left len) (body ++ more) rest
      ∙ ap (λ z. block_header left len ++ z) (append_assoc body more rest))
    ∙ elim (Bool-cases (len == left)) [
      | inl e ↦
          let all : len ≡ left = ground arith in
          let nothing : left_over ≡ [] =
            nil_of_length left_over (length-drop len (v ∷ vs) ∙ omega arith) in
          inflate-last most left len body short filled (more ++ rest) all
          ∙ rw (nothing, blocks-nil fuel t)
              (ap (λ z. some (z, rest))
                (sym (append-nil body) ∙ (ap (λ z. body ++ z) (sym nothing) ∙ whole)))
      | inr e ↦
          let part : len ≢ left = ground arith in
          let less : len < left = ground arith in
          inflate-next most left len body short filled (more ++ rest) left_over rest part (
            inflate-blocks fuel most left_over t rest (shrinks fuel v vs h)
              (omega (arith, less, length-drop len (v ∷ vs))) (shrinks most v vs m))
          ∙ ap (λ z. some (z, rest)) whole
    ]
  where
    whole :
        take (block_len (length (v ∷ vs))) (v ∷ vs) ++ drop (block_len (length (v ∷ vs))) (v ∷ vs)
        ≡ v ∷ vs
    whole = take-append-drop (block_len (length (v ∷ vs))) (v ∷ vs)

length-blocks :
    (fuel : ℕ) (raw : List ℕ) (s : Adler)
    → length raw ≤ fuel
    → length (blocks fuel raw s).0 ≡ length raw + (length raw + 65534) / 65535 * 5
unfolding blocks block_header
length-blocks zero [] s h = refl
length-blocks zero (v ∷ vs) s h = absurd (omega arith)
length-blocks (suc fuel) [] s h = refl
length-blocks (suc fuel) (v ∷ vs) s h =
    let len = block_len (length (v ∷ vs)) in
    let t = adler_loop s (take len (v ∷ vs)) in
    ground (
      arith,
      length-append (take len (v ∷ vs)) (blocks fuel (drop len (v ∷ vs)) t).0,
      length-take len (v ∷ vs),
      length-drop len (v ∷ vs),
      length-blocks fuel (drop len (v ∷ vs)) t (shrinks fuel v vs h),
    )

-- The stream fills the buffer that is allocated for it exactly.
pub length-zlib_stream :
    (raw : List ℕ)
    → length (zlib_stream raw) ≡ 2 + length raw + (length raw + 65534) / 65535 * 5 + 4
unfolding zlib_stream be32
length-zlib_stream raw =
    let start : Adler = record { a = 1; b = 0 } in
    let done = blocks (length raw) raw start in
    omega (
      arith,
      length-append done.0 (be32 (bit_or (done.1.b * 2 ^ 16) done.1.a)),
      length-blocks (length raw) raw start (omega arith),
    )

-- The zlib stream of a list of bytes that is not empty is read back as that list, its blocks and its
-- checksum included.
pub read_zlib-zlib_stream :
    (most : ℕ) (raw : List ℕ)
    → 0 < length raw
    → length raw ≤ most
    → read_zlib most (zlib_stream raw) ≡ some raw
unfolding read_zlib zlib_stream same
read_zlib-zlib_stream most raw h k =
    let start : Adler = record { a = 1; b = 0 } in
    let done = blocks (length raw) raw start in
    let ends = adler_loop-lt start raw (omega arith) (omega arith) in
    let sums = adler_loop-sums start 1 0 raw refl refl in
    let check = bit_or (done.1.b * 2 ^ 16) done.1.a in
    let checked : check ≡ adler_sums 1 0 raw =
      rw (blocks-adler (length raw) raw start (omega arith))
        (bit_or-fields 16 (adler_loop start raw).b (adler_loop start raw).a (omega arith) ∙ sums) in
    let fits : check < 2 ^ 32 = rw (checked ∙ sym sums) (omega arith) in
    rw (inflate-blocks (length raw) most raw start (be32 check) (omega arith) h k) (
      rw (ap number32 (sym (append-nil (be32 check))) ∙ number32-be32 check [] fits)
        (rw (==_true check (adler_sums 1 0 raw) checked) refl))

pub be32-AreBytes : (v : ℕ) → AreBytes (be32 v)
unfolding be32
be32-AreBytes v = (omega arith, (omega arith, (omega arith, (omega arith, tt))))

block_header-AreBytes : (left len : ℕ) → AreBytes (block_header left len)
unfolding block_header
block_header-AreBytes left len = (
  omega (arith, flag-lt (len == left)),
  (omega arith, (omega arith, (omega arith, (omega arith, tt)))),
)

blocks-AreBytes :
    (fuel : ℕ) (raw : List ℕ) (s : Adler) → AreBytes raw → AreBytes (blocks fuel raw s).0
unfolding blocks
blocks-AreBytes zero raw s h = tt
blocks-AreBytes (suc fuel) [] s h = tt
blocks-AreBytes (suc fuel) (v ∷ vs) s h =
    let len = block_len (length (v ∷ vs)) in
    append-AreBytes (block_header (length (v ∷ vs)) len) _
      (block_header-AreBytes (length (v ∷ vs)) len)
      (append-AreBytes (take len (v ∷ vs)) _ (take-AreBytes len (v ∷ vs) h) (
        blocks-AreBytes fuel (drop len (v ∷ vs)) (adler_loop s (take len (v ∷ vs)))
          (drop-AreBytes len (v ∷ vs) h)))

pub zlib_stream-AreBytes : (raw : List ℕ) → AreBytes raw → AreBytes (zlib_stream raw)
unfolding zlib_stream
zlib_stream-AreBytes raw h = (
  omega arith,
  (omega arith, append-AreBytes _ _ (blocks-AreBytes (length raw) raw _ h) (be32-AreBytes _)),
)
