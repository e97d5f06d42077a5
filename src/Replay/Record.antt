-- ===== src/Replay/Record.antt =====
-- The recorder of runtime/replay.c: `flush_span`, `replay_rec_frame`, `replay_rec_close`.
use ct_recomp.Base.{ℕ, List, [], ◌∷◌, ◌++◌, not, ◌+◌, ◌==◌, ◌||◌, if◌then◌else◌, bit_and}
use ct_recomp.Replay.{Text, names, ScriptLine, span_line, words}

-- `replay_rec`; `lines` is what the file holds without its comments.
pub record Rec : Type 0 where
  pub lines : List ScriptLine
  pub buttons : ℕ
  pub from : ℕ
  pub last : ℕ

unfoldable pub replay_rec_open : Rec
replay_rec_open = record { lines = []; buttons = 0; from = 0; last = 0 }

-- The words that `flush_span` prints, from a table.
unfoldable pub held_words : ℕ → List (Text × ℕ) → List Text
held_words b [] = []
held_words b (e ∷ es) =
    let rest = held_words b es in if bit_and b e.1 == 0 then rest else e.0 ∷ rest

unfoldable pub flush_span : Rec → Rec
flush_span w = if w.buttons == 0 then w else record w {
  lines = w.lines ++ (span_line w.from w.last (words (held_words w.buttons names)) ∷ []);
}

unfoldable pub replay_rec_frame : ℕ → ℕ → Rec → Rec
replay_rec_frame frame buttons w =
    let held = bit_and buttons 0xFFF0 in
    let turned =
      if not (held == w.buttons) || not (frame == w.last + 1)
      then record (flush_span w) { buttons = held; from = frame }
      else w in
    record turned { last = frame }

unfoldable pub replay_rec_close : Rec → Rec
replay_rec_close w = flush_span w
