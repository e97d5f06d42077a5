-- ===== src/Replay/Roundtrip.antt =====
-- What the recorder of runtime/replay.c writes is read back as what was held in each frame.
use ct_recomp.Base.{
  ℕ, suc, Bool, true, false, some, List, [], ◌∷◌, ◌++◌, not, ◌≡◌, refl, ap, sym, ◌∙◌, ◌+◌, ◌<◌, ◌≤◌,
  ◌==◌, leb, ◌&&◌, ◌||◌, if◌then◌else◌, bit_and, bit_or, update, ◌^◌, arith, if_both, Bool-cases,
  inl, inr, ◌⊎◌, ltb_of_le, leb_of_lt, ==_iff, ◌≢◌,
}
use mathlib.Core.Path.{subst}
use ct_recomp.Base.Bits.{zero-bit_or}
use mathlib.Core.List.{append-nil, append_assoc}
use ct_recomp.Replay.{
  names, Span, Replay, ScriptLine, span_line, words, replay_add, parse_buttons, replay_load,
  buttons_from, replay_buttons,
}
use ct_recomp.Replay.Names.{held_words-bits, pad_mask}
use ct_recomp.Replay.Record.{
  Rec, held_words, flush_span, replay_rec_frame, replay_rec_close, replay_rec_open,
}

-- The lines of spans.
abbrev line_of : Span → ScriptLine
line_of s = span_line s.from s.to (words (held_words s.buttons names))

abbrev lines_of : List Span → List ScriptLine
lines_of [] = []
lines_of (s ∷ ss) = line_of s ∷ lines_of ss

lines_of-append : (ss ts : List Span) → lines_of (ss ++ ts) ≡ lines_of ss ++ lines_of ts
lines_of-append [] ts = refl
lines_of-append (s ∷ ss) ts = ap (λ ls. line_of s ∷ ls) (lines_of-append ss ts)

-- A span that the recorder writes: frames from 1 on, buttons as pad bits.
record IsSpan (s : Span) : Type 0 where
  first : 1 ≤ s.from
  order : s.from ≤ s.to
  bits : parse_buttons (words (held_words s.buttons names)) ≡ some s.buttons

-- The spans of frames before `n`.
abbrev AllBefore : ℕ → List Span → Type 0
AllBefore n [] = Unit
AllBefore n (s ∷ ss) = IsSpan s × (s.to < n) × AllBefore n ss

AllBefore-append :
    (n : ℕ) (ss ts : List Span) → AllBefore n ss → AllBefore n ts → AllBefore n (ss ++ ts)
AllBefore-append n [] ts h k = k
AllBefore-append n (s ∷ ss) ts h k = (h.0, h.1, AllBefore-append n ss ts h.2 k)

AllBefore-mono : (n m : ℕ) (ss : List Span) → n ≤ m → AllBefore n ss → AllBefore m ss
AllBefore-mono n m [] le h = tt
AllBefore-mono n m (s ∷ ss) le h = (h.0, omega (arith, h.1), AllBefore-mono n m ss le h.2)

add-span :
    (s : Span) (r : Replay)
    → IsSpan s
    → replay_add s.from s.to (words (held_words s.buttons names)) r
      ≡ some (record r { spans = r.spans ++ (s ∷ []) })
unfolding replay_add
add-span s r h = rw (replay_add, ltb_of_le s.from 1 h.first, ltb_of_le s.to s.from h.order, h.bits)

load-span :
    (s : Span) (ls : List ScriptLine) (r : Replay)
    → IsSpan s
    → replay_load (line_of s ∷ ls) r ≡ replay_load ls (record r { spans = r.spans ++ (s ∷ []) })
unfolding replay_load
load-span s ls r h = rw (replay_load, add-span s r h)

-- Reading the lines of spans adds the spans.
load-lines_of :
    (ss : List Span) (n : ℕ) (r : Replay)
    → AllBefore n ss
    → replay_load (lines_of ss) r ≡ some (record r { spans = r.spans ++ ss })
unfolding replay_load
load-lines_of [] n r h = ap (λ ss. some (record r { spans = ss })) (sym (append-nil r.spans))
load-lines_of (s ∷ ss) n r h =
    load-span s (lines_of ss) r h.0
    ∙ load-lines_of ss n (record r { spans = r.spans ++ (s ∷ []) }) h.2
    ∙ ap (λ ts. some (record r { spans = ts })) (append_assoc r.spans (s ∷ []) ss)

-- The bits after one span.
abbrev with_span : ℕ → Span → ℕ → ℕ
with_span b s f = if leb s.from f && leb f s.to then bit_or b s.buttons else b

buttons_from-append :
    (ss : List Span) (b : ℕ) (t : Span) (f : ℕ)
    → buttons_from b (ss ++ (t ∷ [])) f ≡ with_span (buttons_from b ss f) t f
unfolding buttons_from
buttons_from-append [] b t f = refl
buttons_from-append (s ∷ ss) b t f = buttons_from-append ss (with_span b s f) t f

not_yet :
    (x from to n f : ℕ) (b : ℕ) → to < n → n ≤ f → (if leb from f && leb f to then x else b) ≡ b
not_yet x from to n f b h k = rw (leb_of_lt f to (omega arith)) (ground arith)

-- No span before `n` covers the frame `n` or a later one.
buttons_from-after : (ss : List Span) (b n f : ℕ) → AllBefore n ss → n ≤ f → buttons_from b ss f ≡ b
unfolding buttons_from
buttons_from-after [] b n f h le = refl
buttons_from-after (s ∷ ss) b n f h le =
    ap (λ x. buttons_from x ss f) (not_yet (bit_or b s.buttons) s.from s.to n f b h.1 le)
    ∙ buttons_from-after ss b n f h.2 le

-- The span that a recorder is in.
abbrev span_of : Rec → Span
span_of w = record { from = w.from; to = w.last; buttons = w.buttons }

-- The spans that it has written once it is closed.
abbrev closed : List Span → Rec → List Span
closed ss w = if w.buttons == 0 then ss else ss ++ (span_of w ∷ [])

-- The buttons that it has seen in the frame `f`.
abbrev seen : List Span → Rec → ℕ → ℕ
seen ss w f = if leb w.from f && leb f w.last then w.buttons else buttons_from 0 ss f

-- The recorder has written the lines of `ss`, and has seen `history`.
pub record Recorded (history : ℕ → ℕ) (ss : List Span) (w : Rec) : Type 0 where
  lines : w.lines ≡ lines_of ss
  before : AllBefore w.from ss
  span : (w.buttons ≡ 0) ⊎ IsSpan (span_of w)
  order : w.from ≤ w.last
  history_is : (f : ℕ) → seen ss w f ≡ history f

not_zero : (n : ℕ) → (n == 0) ≡ false → n ≢ 0
not_zero n h = ground arith

-- A frame of the span that the recorder is in is in no span before it.
none_before :
    (history : ℕ → ℕ) (ss : List Span) (w : Rec)
    → Recorded history ss w
    → (f : ℕ) → (leb w.from f && leb f w.last) ≡ true
    → buttons_from 0 ss f ≡ 0
none_before history ss w h f c = buttons_from-after ss 0 w.from f h.before (ground arith)

module _ (history : ℕ → ℕ) (ss : List Span) (w : Rec) (h : Recorded history ss w) where
  closed-seen : (f : ℕ) → buttons_from 0 (closed ss w) f ≡ history f
  closed-seen f = elim (Bool-cases (leb w.from f && leb f w.last)) [
    | inl c ↦
        let z = none_before history ss w h f c in
        let s = sym (ap (λ b. if b then w.buttons else buttons_from 0 ss f) c) ∙ h.history_is f in
        if_both (λ ts. buttons_from 0 ts f ≡ history f) (w.buttons == 0) _ _
          (λ p. z ∙ sym ((==_iff w.buttons 0).0 p) ∙ s)
          (λ p.
            buttons_from-append ss 0 (span_of w) f
            ∙ rw c (ap (λ b. bit_or b w.buttons) z ∙ zero-bit_or w.buttons ∙ s))
    | inr c ↦
        let s = sym (ap (λ b. if b then w.buttons else buttons_from 0 ss f) c) ∙ h.history_is f in
        if_both (λ ts. buttons_from 0 ts f ≡ history f) (w.buttons == 0) _ _ (λ p. s)
          (λ p. buttons_from-append ss 0 (span_of w) f ∙ rw c s)
  ]

  written : w.buttons ≢ 0 → IsSpan (span_of w)
  written n = elim h.span [ inl e ↦ absurd (n e) | inr s ↦ s ]

  closed-AllBefore : (n : ℕ) → w.last < n → AllBefore n (closed ss w)
  closed-AllBefore n le =
      let old = AllBefore-mono w.from n ss (omega (arith, h.order)) h.before in
      if_both (AllBefore n) (w.buttons == 0) _ _ (λ _. old)
        (λ p. AllBefore-append n ss (span_of w ∷ []) old (written (not_zero w.buttons p), le, tt))

  flush-lines : (flush_span w).lines ≡ lines_of (closed ss w)
  unfolding flush_span
  flush-lines = elim (Bool-cases (w.buttons == 0)) [
    | inl p ↦ rw p (h.lines)
    | inr p ↦ rw p (
        ap (λ ls. ls ++ (line_of (span_of w) ∷ [])) h.lines
        ∙ sym (lines_of-append ss (span_of w ∷ [])))
  ]

one_frame : (a c : Bool) (x y z : ℕ) → a ≡ c → y ≡ z → (if a then x else y) ≡ (if c then x else z)
one_frame a c x y z e e' = rw (e, e')

-- Pad bits as the recorder keeps them.
held-IsSpan :
    (frame buttons : ℕ)
    → 1 ≤ frame
    → buttons < 2 ^ 16
    → IsSpan (record { from = frame; to = frame; buttons = bit_and buttons 0xFFF0 })
held-IsSpan frame buttons h b = record {
  first = h;
  order = omega arith;
  bits =
      held_words-bits (bit_and buttons 0xFFF0) (omega (arith, pad_mask buttons b))
        (omega (arith, pad_mask buttons b));
}

-- A new span, of one frame.
turn-Recorded :
    (history : ℕ → ℕ) (ss : List Span) (w : Rec) (frame buttons : ℕ)
    → Recorded history ss w
    → w.last < frame
    → buttons < 2 ^ 16
    → Recorded
        (update history frame (bit_and buttons 0xFFF0))
        (closed ss w)
        (record (flush_span w) { buttons = bit_and buttons 0xFFF0; from = frame; last = frame })
turn-Recorded history ss w frame buttons h lt b = record {
  lines = flush-lines history ss w h;
  before = closed-AllBefore history ss w h frame lt;
  span = inr (held-IsSpan frame buttons (omega arith) b);
  order = omega arith;
  history_is = λ f.
      one_frame (leb frame f && leb f frame) (f == frame) (bit_and buttons 0xFFF0)
        (buttons_from 0 (closed ss w) f) (history f) (ground arith) (closed-seen history ss w h f);
}

longer_seen :
    (from last frame f x y z : ℕ)
    → from ≤ last
    → frame ≡ last + 1
    → (if leb from f && leb f last then x else y) ≡ z
    → (if leb from f && leb f frame then x else y) ≡ (if f == frame then x else z)
longer_seen from last frame f x y z h e k = ground arith

unchanged : (a b c d : ℕ) → (not (a == b) || not (c == d)) ≡ false → (a ≡ b) × (c ≡ d)
unchanged a b c d h = (ground arith, ground arith)

-- The same buttons in the next frame.
longer-Recorded :
    (history : ℕ → ℕ) (ss : List Span) (w : Rec) (frame : ℕ)
    → Recorded history ss w
    → frame ≡ w.last + 1
    → Recorded (update history frame w.buttons) ss (record w { last = frame })
longer-Recorded history ss w frame h e = record {
  lines = h.lines;
  before = h.before;
  span = elim h.span [
    | inl z ↦ inl z
    | inr s ↦ inr (record { first = s.first; order = omega (arith, s.order); bits = s.bits })
  ];
  order = omega (arith, h.order);
  history_is = λ f.
      longer_seen w.from w.last frame f w.buttons (buttons_from 0 ss f) (history f) h.order e
        (h.history_is f);
}

-- The frame that comes next, with the buttons held in it.
pub frame-Recorded :
    (history : ℕ → ℕ) (ss : List Span) (w : Rec) (frame buttons : ℕ)
    → Recorded history ss w
    → w.last < frame
    → buttons < 2 ^ 16
    → (ss' : List Span) × Recorded
        (update history frame (bit_and buttons 0xFFF0))
        ss'
        (replay_rec_frame frame buttons w)
unfolding replay_rec_frame
frame-Recorded history ss w frame buttons h lt b =
    let held = bit_and buttons 0xFFF0 in
    elim (Bool-cases (not (held == w.buttons) || not (frame == w.last + 1))) [
      | inl p ↦ rw p (closed ss w, turn-Recorded history ss w frame buttons h lt b)
      | inr p ↦
          let u = unchanged held w.buttons frame (w.last + 1) p in
          rw p (
            ss,
            subst (λ x. Recorded (update history frame x) ss (record w { last = frame })) (sym u.0)
                (longer-Recorded history ss w frame h u.1),
          )
    ]

-- The recorder called in the frames from `frame` on, with the buttons of each.
unfoldable pub record_from : ℕ → List ℕ → Rec → Rec
record_from frame [] w = w
record_from frame (b ∷ bs) w = record_from (suc frame) bs (replay_rec_frame frame b w)

-- What was held in each frame.
unfoldable pub held_from : ℕ → List ℕ → (ℕ → ℕ) → ℕ → ℕ
held_from frame [] history = history
held_from frame (b ∷ bs) history =
    held_from (suc frame) bs (update history frame (bit_and b 0xFFF0))

abbrev pub AllPads : List ℕ → Type 0
AllPads [] = Unit
AllPads (b ∷ bs) = (b < 2 ^ 16) × AllPads bs

last_frame : (frame b : ℕ) (w : Rec) → (replay_rec_frame frame b w).last ≡ frame
unfolding replay_rec_frame
last_frame frame b w = refl

record-Recorded :
    (bs : List ℕ) (frame : ℕ) (history : ℕ → ℕ) (ss : List Span) (w : Rec)
    → Recorded history ss w
    → w.last < frame
    → AllPads bs
    → (ss' : List Span) × Recorded (held_from frame bs history) ss' (record_from frame bs w)
unfolding record_from held_from
record-Recorded [] frame history ss w h lt a = (ss, h)
record-Recorded (b ∷ bs) frame history ss w h lt a =
    let next = frame-Recorded history ss w frame b h lt a.0 in
    record-Recorded bs (suc frame) _ next.0 (replay_rec_frame frame b w) next.1
      (omega (arith, last_frame frame b w)) a.1

open-Recorded : Recorded (λ f. 0) [] replay_rec_open
unfolding replay_rec_open buttons_from
open-Recorded = record {
  lines = refl;
  before = tt;
  span = inl refl;
  order = omega arith;
  history_is = λ f. ground arith;
}

open_first : (frame : ℕ) → 1 ≤ frame → replay_rec_open.last < frame
unfolding replay_rec_open
open_first frame h = h

abbrev pub no_script : Replay
no_script = record { spans = []; resets = [] }

-- A recording of consecutive frames from any frame of at least 1 on, of 16-bit button values, is a
-- script that replay_load reads without an error, and in every frame replay_buttons then gives the
-- twelve button bits that were held in it, and 0 in the frames outside.
pub record-replay_buttons :
    (frame : ℕ) (bs : List ℕ)
    → 1 ≤ frame
    → AllPads bs
    → (r : Replay) × (replay_load
          (replay_rec_close (record_from frame bs replay_rec_open)).lines
          no_script
        ≡ some r)
      × ((f : ℕ) → replay_buttons r f ≡ held_from frame bs (λ f. 0) f)
unfolding replay_rec_close replay_buttons
record-replay_buttons frame bs h a =
    let k =
      record-Recorded bs frame (λ f. 0) [] replay_rec_open open-Recorded (open_first frame h) a in
    let w = record_from frame bs replay_rec_open in
    let ss = closed k.0 w in
    (
      record no_script { spans = ss },
      ap (λ ls. replay_load ls no_script) (flush-lines _ k.0 w k.1)
          ∙ load-lines_of ss (suc w.last) no_script
              (closed-AllBefore _ k.0 w k.1 (suc w.last) (omega arith)),
      closed-seen _ k.0 w k.1,
    )
