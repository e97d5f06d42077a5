-- ===== src/Replay.antt =====
-- Recorded pad input, runtime/replay.c: the spans of a script, and the recorder that writes them.
-- A line of the file is modelled after `sscanf` and `strtok` have split it, and before `fprintf`
-- has printed it: its two numbers and its words. A text is the list of its characters' codes;
-- memory never runs out.
pub mod Record
pub mod Names
pub mod Roundtrip
use ct_recomp.Base.{
  ℕ, zero, suc, Bool, true, false, Option, none, some, List, [], ◌∷◌, ◌++◌, not, ◌-◌, ◌+◌, ◌%◌, ◌≡◌,
  ◌==◌, leb, ltb, ◌&&◌, ◌||◌, if◌then◌else◌,
}
use ct_recomp.Base.{bit_and, bit_or}

abbrev pub Text : Type 0
Text = List ℕ

-- `names`, in its order.
abbrev pub names : List (Text × ℕ)
names =
    ((98 ∷ []), 0x8000)
    ∷ ((121 ∷ []), 0x4000)
    ∷ ((115 ∷ 101 ∷ 108 ∷ 101 ∷ 99 ∷ 116 ∷ []), 0x2000)
    ∷ ((115 ∷ 116 ∷ 97 ∷ 114 ∷ 116 ∷ []), 0x1000)
    ∷ ((117 ∷ 112 ∷ []), 0x0800)
    ∷ ((100 ∷ 111 ∷ 119 ∷ 110 ∷ []), 0x0400)
    ∷ ((108 ∷ 101 ∷ 102 ∷ 116 ∷ []), 0x0200)
    ∷ ((114 ∷ 105 ∷ 103 ∷ 104 ∷ 116 ∷ []), 0x0100)
    ∷ ((97 ∷ []), 0x0080)
    ∷ ((120 ∷ []), 0x0040)
    ∷ ((108 ∷ []), 0x0020)
    ∷ ((114 ∷ []), 0x0010)
    ∷ []

-- `replay_span`.
pub record Span : Type 0 where
  pub from : ℕ
  pub to : ℕ
  pub buttons : ℕ

-- `replay`.
pub record Replay : Type 0 where
  pub spans : List Span
  pub resets : List ℕ

-- The buttons of a line: the number after `0x` with what `strtoul` left over, or the words.
pub data Buttons : Type 0 where
  hex : ℕ → Text → Buttons
  words : List Text → Buttons

-- `strcmp(a, b) == 0`.
abbrev pub same_text : Text → Text → Bool
same_text [] [] = true
same_text [] (y ∷ ys) = false
same_text (x ∷ xs) [] = false
same_text (x ∷ xs) (y ∷ ys) = let rest = same_text xs ys in if x == y then rest else false

-- The bit of a name, from a table.
abbrev pub bit_in : List (Text × ℕ) → Text → Option ℕ
bit_in [] t = none
bit_in (e ∷ es) t = let rest = bit_in es t in if same_text t e.0 then some e.1 else rest

-- The loop of `replay_add` over the words, from the bits `b` on.
unfoldable pub add_words : ℕ → List Text → Option ℕ
add_words b [] = some b
add_words b (t ∷ ts) = elim (bit_in names t) [
  | none ↦ none
  | some bit ↦ add_words (bit_or b bit) ts
]

unfoldable pub parse_buttons : Buttons → Option ℕ
parse_buttons (hex v []) = if ltb 0xFFFF v then none else some v
parse_buttons (hex v (x ∷ xs)) = none
parse_buttons (words ts) = add_words 0 ts

-- `replay_add`; `none` is -1.
unfoldable pub replay_add : ℕ → ℕ → Buttons → Replay → Option Replay
replay_add from to buttons r =
    if ltb from 1 || ltb to from then none else elim (parse_buttons buttons) [
      | none ↦ none
      | some b ↦
          some (record r { spans = r.spans ++ (record { from = from; to = to; buttons = b } ∷ []) })
    ]

unfoldable pub replay_add_reset : ℕ → Replay → Replay
replay_add_reset frame r = record r { resets = r.resets ++ (frame ∷ []) }

-- A line of a script that is not blank.
pub data ScriptLine : Type 0 where
  reset_line : ℕ → ScriptLine
  span_line : ℕ → ℕ → Buttons → ScriptLine

-- The loop of `replay_load`; a reset at a frame below 1 is read as a span, which it is not.
unfoldable pub replay_load : List ScriptLine → Replay → Option Replay
replay_load [] r = some r
replay_load (reset_line frame ∷ ls) r =
    let rest = replay_load ls (replay_add_reset frame r) in if leb 1 frame then rest else none
replay_load (span_line from to b ∷ ls) r = elim (replay_add from to b r) [
  | none ↦ none
  | some r' ↦ replay_load ls r'
]

-- The loop of `replay_buttons`.
unfoldable pub buttons_from : ℕ → List Span → ℕ → ℕ
buttons_from b [] frame = b
buttons_from b (s ∷ ss) frame =
    buttons_from (if leb s.from frame && leb frame s.to then bit_or b s.buttons else b) ss frame

unfoldable pub replay_buttons : Replay → ℕ → ℕ
replay_buttons r frame = buttons_from 0 r.spans frame

-- The loop of `replay_reset`.
unfoldable pub reset_in : List ℕ → ℕ → Bool
reset_in [] frame = false
reset_in (f ∷ fs) frame = let rest = reset_in fs frame in if f == frame then true else rest

unfoldable pub replay_reset : Replay → ℕ → Bool
replay_reset r frame = reset_in r.resets frame
