-- ===== src/Input/Pad.antt =====
-- The pad bits of frontend/input.c. A scancode, a button and an axis are numbers of the SDL
-- library, given as its lists in the source's order; an axis is its value plus 32768.
use ct_recomp.Base.{ℕ, Bool, List, [], ◌∷◌, ltb, if◌then◌else◌, bit_or}

-- The keys or buttons of a `map` with their pad bits.
abbrev pub PadMap : Type 0
PadMap = List (ℕ × ℕ)

-- The loop over a `map`.
unfoldable pub pressed_bits : (ℕ → Bool) → PadMap → ℕ → ℕ
pressed_bits held [] pad = pad
pressed_bits held (e ∷ es) pad = pressed_bits held es (if held e.0 then bit_or pad e.1 else pad)

-- The SDL numbers that the maps name.
pub record SdlKeys : Type 0 where
  pub up : ℕ
  pub down : ℕ
  pub left : ℕ
  pub right : ℕ
  pub z : ℕ
  pub x : ℕ
  pub a : ℕ
  pub s : ℕ
  pub q : ℕ
  pub w : ℕ
  pub enter : ℕ
  pub rshift : ℕ

unfoldable pub key_map : SdlKeys → PadMap
key_map k =
    (k.up, 0x0800)
    ∷ (k.down, 0x0400)
    ∷ (k.left, 0x0200)
    ∷ (k.right, 0x0100)
    ∷ (k.z, 0x8000)
    ∷ (k.x, 0x0080)
    ∷ (k.a, 0x4000)
    ∷ (k.s, 0x0040)
    ∷ (k.q, 0x0020)
    ∷ (k.w, 0x0010)
    ∷ (k.enter, 0x1000)
    ∷ (k.rshift, 0x2000)
    ∷ []

unfoldable pub input_keyboard : SdlKeys → (ℕ → Bool) → ℕ
input_keyboard k keys = pressed_bits keys (key_map k) 0

pub record SdlButtons : Type 0 where
  pub south : ℕ
  pub east : ℕ
  pub west : ℕ
  pub north : ℕ
  pub left_shoulder : ℕ
  pub right_shoulder : ℕ
  pub start : ℕ
  pub back : ℕ
  pub dpad_up : ℕ
  pub dpad_down : ℕ
  pub dpad_left : ℕ
  pub dpad_right : ℕ

unfoldable pub button_map : SdlButtons → PadMap
button_map b =
    (b.south, 0x8000)
    ∷ (b.east, 0x0080)
    ∷ (b.west, 0x4000)
    ∷ (b.north, 0x0040)
    ∷ (b.left_shoulder, 0x0020)
    ∷ (b.right_shoulder, 0x0010)
    ∷ (b.start, 0x1000)
    ∷ (b.back, 0x2000)
    ∷ (b.dpad_up, 0x0800)
    ∷ (b.dpad_down, 0x0400)
    ∷ (b.dpad_left, 0x0200)
    ∷ (b.dpad_right, 0x0100)
    ∷ []

-- The bits of an axis beyond the dead zone: `-16000` and `16000` are 16768 and 48768 here.
unfoldable pub stick : ℕ → ℕ → ℕ → ℕ → ℕ
stick value below above pad =
    let low = if ltb value 16768 then bit_or pad below else pad in
    if ltb 48768 value then bit_or low above else low

unfoldable pub input_controller : SdlButtons → (ℕ → Bool) → ℕ → ℕ → ℕ
input_controller b button x y =
    stick y 0x0800 0x0400 (stick x 0x0200 0x0100 (pressed_bits button (button_map b) 0))
