-- ===== src/Png/Written.antt =====
-- The chunks that runtime/png.c writes: read back, and added to the file when nothing fails.
use ct_recomp.Base.{
  ℕ, true, false, some, List, [], ◌∷◌, ◌++◌, ◌≡◌, refl, ap, sym, ◌∙◌, ◌^◌, ◌<◌, ◌==◌, length,
  if◌then◌else◌, if_both, bit_xor, arith, ==_true,
}
use ct_recomp.Png.{be32, crc, Stdio, Output, put, chunk}
use ct_recomp.Base.Bits.{bit_xor-lt}
use ct_recomp.Png.Crc.{AreBytes, IsTable, crc-crc32, crc32-lt, crc32-append, append-AreBytes}
use ct_recomp.Png.Reader.{crc32, read_chunk}
use ct_recomp.Png.Stream.{read_bytes-append, same_self, number32-be32}
use mathlib.Core.Path.{subst}
use mathlib.Core.List.{append_assoc, append-nil}

-- The bytes of one chunk.
abbrev pub chunk_bytes : List ℕ → List ℕ → List ℕ
chunk_bytes type body =
    be32 (length body)
    ++ (type ++ (body ++ be32 (bit_xor (crc32 0xFFFFFFFF (type ++ body)) 0xFFFFFFFF)))

abbrev pub check_of : List ℕ → List ℕ → ℕ
check_of type body = bit_xor (crc32 0xFFFFFFFF (type ++ body)) 0xFFFFFFFF

check_of-lt : (type body : List ℕ) → AreBytes type → AreBytes body → check_of type body < 2 ^ 32
check_of-lt type body t b =
    bit_xor-lt 32 (crc32 0xFFFFFFFF (type ++ body)) 0xFFFFFFFF
      (crc32-lt 0xFFFFFFFF (type ++ body) (omega arith) (append-AreBytes type body t b))
      (omega arith)

pub read_chunk_lem :
    (type body rest : List ℕ)
    → length type ≡ 4
    → AreBytes type
    → AreBytes body
    → length body < 2 ^ 32
    → read_chunk type (chunk_bytes type body ++ rest) ≡ some (body, rest)
unfolding read_chunk
read_chunk_lem type body rest t ts bs n =
    let check = be32 (check_of type body) in
    let spread : chunk_bytes type body ++ rest
        ≡ be32 (length body) ++ (type ++ (body ++ (check ++ rest))) =
      append_assoc (be32 (length body)) (type ++ (body ++ check)) rest
      ∙ ap (λ z. be32 (length body) ++ z)
          (append_assoc type (body ++ check) rest
            ∙ ap (λ z. type ++ z) (append_assoc body check rest)) in
    ap (read_chunk type) spread
    ∙ rw (number32-be32 (length body) (type ++ (body ++ (check ++ rest))) n) (
        rw (read_bytes-append 4 type (body ++ (check ++ rest)) (sym t), same_self type)
          (rw (read_bytes-append (length body) body (check ++ rest) refl) (
            rw (number32-be32 (check_of type body) rest (check_of-lt type body ts bs))
              (rw (==_true (check_of type body) (check_of type body) refl) refl))))

-- The C library where nothing fails: `malloc` has memory, the file opens empty, every write is whole
-- and adds its bytes at the end, and closing keeps them.
pub record Succeeds (io : Stdio) (contents : io.File → List ℕ) : Type 0 where
  pub memory : (n : ℕ) → io.malloc n ≡ true
  pub file : io.File
  pub opens : io.fopen ≡ some file
  pub empty : contents file ≡ []
  pub whole : (b : List ℕ) (f : io.File) → (io.fwrite b f).1 ≡ length b
  pub appends : (b : List ℕ) (f : io.File) → contents (io.fwrite b f).0 ≡ contents f ++ b
  pub closes : (f : io.File) → (io.fclose f).1 ≡ false
  pub keeps : (f : io.File) → contents (io.fclose f).0 ≡ contents f

module _ (io : Stdio) (contents : io.File → List ℕ) (succeeds : Succeeds io contents) where
  -- What the file holds after the writes so far, all of them whole.
  pub record Holds (o : Output io.File) (xs : List ℕ) : Type 0 where
    pub unbroken : o.whole ≡ true
    pub written : contents o.file ≡ xs
    pub table : IsTable o.table

  pub put-Holds :
      (b : List ℕ) (o : Output io.File) (xs : List ℕ) → Holds o xs → Holds (put io b o) (xs ++ b)
  unfolding put
  put-Holds b o xs h =
      subst (λ p. Holds p (xs ++ b)) (sym (ap (λ t. if t then done else o) h.unbroken))
        (record {
          unbroken = ==_true _ _ (succeeds.whole b o.file);
          written = succeeds.appends b o.file ∙ ap (λ z. z ++ b) h.written;
          table = h.table;
        })
    where
      done : Output io.File
      done = record o { file = (io.fwrite b o.file).0; whole = (io.fwrite b o.file).1 == length b }

  empty_list : (xs : List ℕ) → (length xs == 0) ≡ true → xs ≡ []
  empty_list [] h = refl
  empty_list (x ∷ xs) h = absurd (ground arith)

  -- `!n || fwrite(data, 1, n, f) == n`.
  body-Holds :
      (body : List ℕ) (o : Output io.File) (xs : List ℕ)
      → Holds o xs
      → Holds (if length body == 0 then o else put io body o) (xs ++ body)
  body-Holds body o xs h =
      if_both (λ p. Holds p (xs ++ body)) (length body == 0) o (put io body o)
        (λ e. subst (Holds o) (sym (ap (λ z. xs ++ z) (empty_list body e) ∙ append-nil xs)) h)
        (λ e. put-Holds body o xs h)

  pub chunk-Holds :
      (type body : List ℕ) (o : Output io.File) (xs : List ℕ)
      → AreBytes type
      → AreBytes body
      → Holds o xs
      → Holds (chunk io type body o) (xs ++ chunk_bytes type body)
  unfolding chunk
  chunk-Holds type body o xs t b h =
      let head = crc o.table 0xFFFFFFFF type in
      let all = crc head.0 head.1 body in
      let of_type = crc-crc32 o.table 0xFFFFFFFF type h.table t in
      let of_body = crc-crc32 head.0 head.1 body of_type.1 b in
      let checked : all.1 ≡ crc32 0xFFFFFFFF (type ++ body) =
        of_body.0 ∙ (ap (λ c. crc32 c body) of_type.0 ∙ sym (crc32-append 0xFFFFFFFF type body)) in
      let n = be32 (length body) in
      let start : Output io.File = record o { table = all.0 } in
      let started : Holds start xs = record {
        unbroken = h.unbroken;
        written = h.written;
        table = of_body.1;
      } in
      let headed = put-Holds (n ++ type) start xs started in
      let with_body : Output io.File =
        if length body == 0
        then put io (n ++ type) start
        else put io body (put io (n ++ type) start) in
      let out : Output io.File = put io (be32 (bit_xor all.1 0xFFFFFFFF)) with_body in
      let filled = body-Holds body (put io (n ++ type) start) (xs ++ (n ++ type)) headed in
      let ended =
        put-Holds (be32 (bit_xor all.1 0xFFFFFFFF)) with_body ((xs ++ (n ++ type)) ++ body)
          filled in
      let check = be32 (check_of type body) in
      subst (λ p. Holds p (xs ++ chunk_bytes type body))
        (sym (ap (λ t. if t then out else o) h.unbroken))
        (subst (Holds out)
          (ap (λ c. ((xs ++ (n ++ type)) ++ body) ++ be32 (bit_xor c 0xFFFFFFFF)) checked
            ∙ (append_assoc (xs ++ (n ++ type)) body check
                ∙ (append_assoc xs (n ++ type) (body ++ check)
                    ∙ ap (λ z. xs ++ z) (append_assoc n type (body ++ check)))))
          ended)
