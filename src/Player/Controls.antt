-- ===== src/Player/Controls.antt =====
-- The buttons and the timer of the player (src/visualizations/shared/milestone-player.js).
use overbook.Base.{
  ℕ, zero, suc, ◌+◌, ◌≡◌, true, false, not, Option, none, some, List, [], ◌∷◌, length, filter, ◌==◌,
  if◌then◌else◌,
}
use overbook.Player.Page.{
  Frame, Mode, Milestone, Page, includes, reset_page, show_frame, show_result,
}

-- `mode` is `selectedMode()`; `frame_index` is undefined in place of -1. `intervals` are those that the
-- browser runs, and `handles` counts those it has set.
pub record Player : Type 0 where
  pub mode : Mode
  pub frame_index : Option ℕ
  pub timer : Option ℕ
  pub intervals : List ℕ
  pub handles : ℕ
  pub page : Page

-- `clearInterval`
unfoldable pub clear_interval : Option ℕ → List ℕ → List ℕ
clear_interval none live = live
clear_interval (some h) live = filter (λ k. not (k == h)) live

unfoldable pub frame_at : ℕ → List Frame → Option Frame
frame_at i [] = none
frame_at zero (f ∷ fs) = some f
frame_at (suc i) (f ∷ fs) = frame_at i fs

-- `clearInterval(timer); timer = null`
unfoldable pub stop_timer : Player → Player
unfolding clear_interval
stop_timer p = record p { timer = none; intervals = clear_interval p.timer p.intervals }

-- `drawFrame`
unfoldable pub draw_frame : ℕ → Frame → Player → Player
unfolding stop_timer clear_interval show_frame show_result
draw_frame index frame p =
    let shown = show_frame p.mode index frame p.page in
    if index + 1 == length p.mode.frames
    then record (stop_timer p) { page = show_result p.mode shown }
    else record p { page = shown }

-- `setInterval`
unfoldable pub set_interval : Player → Player
set_interval p = record p {
  timer = some p.handles;
  intervals = p.handles ∷ p.intervals;
  handles = p.handles + 1;
}

-- `frameIndex += 1`
abbrev pub next_index : Option ℕ → ℕ
next_index none = 0
next_index (some i) = suc i

abbrev pub moved : Player → Player
moved p = record p { frame_index = some (next_index p.frame_index) }

-- the callback of the interval
unfoldable pub advance : Player → Player
unfolding draw_frame frame_at stop_timer clear_interval
advance p = elim (frame_at (next_index p.frame_index) p.mode.frames) [
  | none ↦ moved p
  | some frame ↦ draw_frame (next_index p.frame_index) frame (moved p)
]

module _ (milestone : Milestone) where
  unfoldable pub reset : Player → Player
  unfolding stop_timer clear_interval reset_page
  reset p = record (stop_timer p) { frame_index = none; page = reset_page milestone p.mode p.page }

  -- `play`, up to its first frame
  unfoldable pub starting : Player → Player
  unfolding reset stop_timer clear_interval
  starting p =
      let p' = reset p in
      record p' {
        frame_index = some 0;
        page = record p'.page { play_disabled = true; play_text = "Playing…" };
      }

  -- `play`: without a first frame `drawFrame` throws
  unfoldable pub play : Player → Player
  unfolding starting reset stop_timer clear_interval draw_frame set_interval frame_at
  play p = elim (frame_at 0 p.mode.frames) [
    | none ↦ starting p
    | some frame ↦ set_interval (draw_frame 0 frame (starting p))
  ]

  -- the listener of `modes`, for the button of `mode`
  unfoldable pub choose : Mode → Player → Player
  unfolding reset stop_timer clear_interval
  choose mode p = reset (record p { mode = mode })

  -- A click on a mode, a click on the play button unless it is disabled, and an interval that fires.
  pub data Step (p : Player) : Player → Type 0 where
    chosen : (mode : Mode) → Step p (choose mode p)
    played : p.page.play_disabled ≡ false → Step p (play p)
    fired : (h : ℕ) → includes p.intervals h ≡ true → Step p (advance p)

  -- the script ends with a `reset`, for the first mode
  pub data Reach : Player → Type 0 where
    loaded :
        (mode : Mode) (page : Page)
        → Reach (
            reset (record {
              mode = mode;
              frame_index = none;
              timer = none;
              intervals = [];
              handles = 1;
              page = page;
            }))
    next : {p q : Player} → Reach p → Step p q → Reach q
