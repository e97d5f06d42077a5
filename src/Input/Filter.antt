-- ===== src/Input/Filter.antt =====
-- The key filter of frontend/input.c. Frames are counted by a `long`, which starts at -1000 for
-- the last button: it is kept 1000 higher, as are the frames that are compared with it.
use ct_recomp.Base.{ℕ, Bool, true, false, not, ◌+◌, leb, ltb, ◌&&◌, if◌then◌else◌, update}

abbrev pub key_filter_frames : ℕ
key_filter_frames = 2

-- `key_filter`.
pub record KeyFilter : Type 0 where
  pub held : ℕ → Bool
  pub ignored : ℕ → Bool
  pub pressed_at : ℕ → ℕ
  pub last_button : ℕ
  pub controller : Bool

unfoldable pub key_filter_init : KeyFilter
key_filter_init = record {
  held = λ k. false;
  ignored = λ k. false;
  pressed_at = λ k. 1000;
  last_button = 0;
  controller = false;
}

unfoldable pub near_button : KeyFilter → ℕ → Bool
near_button kf frame =
    kf.controller
    && leb kf.last_button (frame + key_filter_frames)
    && leb frame (kf.last_button + key_filter_frames)

-- `SDL_NUM_SCANCODES` of the SDL library is a parameter.
module _ (num_scancodes : ℕ) where
  -- `key_filter_key`.
  unfoldable pub key_filter_key : ℕ → Bool → ℕ → KeyFilter → KeyFilter
  key_filter_key sc down frame kf =
      let pressed = record kf { pressed_at = update kf.pressed_at sc frame } in
      if leb num_scancodes sc
      then kf
      else if not down
      then record kf { held = update kf.held sc false; ignored = update kf.ignored sc false }
      else if near_button kf frame
      then record pressed { ignored = update kf.ignored sc true; held = update kf.held sc false }
      else if not (kf.ignored sc)
      then record pressed { held = update kf.held sc true }
      else pressed

  -- Whether `key_filter_button` drops the key `k`.
  unfoldable pub duplicate : ℕ → KeyFilter → ℕ → Bool
  duplicate frame kf k =
      ltb k num_scancodes && kf.held k && leb frame (kf.pressed_at k + key_filter_frames)

  -- `key_filter_button`: its loop, over all keys at once.
  unfoldable pub key_filter_button : ℕ → KeyFilter → KeyFilter
  key_filter_button frame kf =
      let pressed = record kf { last_button = frame } in
      if not kf.controller then pressed else record pressed {
        held = λ k. if duplicate frame kf k then false else kf.held k;
        ignored = λ k. if duplicate frame kf k then true else kf.ignored k;
      }
