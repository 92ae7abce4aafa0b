-- ===== src/Player/Intervals.antt =====
-- The intervals that the player has set (src/visualizations/shared/milestone-player.js).
use overbook.Base.{
  ℕ, ◌+◌, ◌≡◌, refl, sym, ap, ◌∙◌, inl, inr, Option, none, some, List, [], ◌∷◌, length, ◌==◌, arith,
  Bool-cases, Option-cases,
}
use overbook.Player.Page.{Frame, Milestone}
use overbook.Player.Controls.{
  Player, clear_interval, frame_at, stop_timer, draw_frame, set_interval, next_index, moved,
  starting, reset, play, advance, choose, Step, chosen, played, fired, Reach, loaded, next,
}

-- the interval that the script holds
abbrev pub held : Option ℕ → List ℕ
held none = []
held (some h) = h ∷ []

-- The browser runs the interval that the script holds, and no other.
abbrev pub HoldsAll : Player → Type 0
HoldsAll p = p.intervals ≡ held p.timer

clear-held : (timer : Option ℕ) → clear_interval timer (held timer) ≡ []
unfolding clear_interval
clear-held none = refl
clear-held (some h) = ground arith

pub stop_timer-none : (p : Player) → HoldsAll p → (stop_timer p).intervals ≡ []
unfolding stop_timer
stop_timer-none p h = ap (clear_interval p.timer) h ∙ clear-held p.timer

draw_frame-HoldsAll :
    (i : ℕ) (frame : Frame) (p : Player) → HoldsAll p → HoldsAll (draw_frame i frame p)
unfolding draw_frame stop_timer
draw_frame-HoldsAll i frame p h = elim (Bool-cases (i + 1 == length p.mode.frames)) [
  | inl last ↦ rw last (stop_timer-none p h)
  | inr more ↦ rw more h
]

set_interval-HoldsAll : (p : Player) → p.intervals ≡ [] → HoldsAll (set_interval p)
unfolding set_interval
set_interval-HoldsAll p h = ap (λ live. p.handles ∷ live) h

-- Drawing leaves no interval where there was none.
draw_frame-none :
    (i : ℕ) (frame : Frame) (p : Player)
    → p.intervals ≡ []
    → p.timer ≡ none
    → (draw_frame i frame p).intervals ≡ []
unfolding draw_frame stop_timer
draw_frame-none i frame p h timer = elim (Bool-cases (i + 1 == length p.mode.frames)) [
  | inl last ↦ rw last (stop_timer-none p (h ∙ ap held (sym timer)))
  | inr more ↦ rw more h
]

advance-HoldsAll : (p : Player) → HoldsAll p → HoldsAll (advance p)
unfolding advance
advance-HoldsAll p h = elim (Option-cases (frame_at (next_index p.frame_index) p.mode.frames)) [
  | inl past ↦ rw (advance, past) h
  | inr (frame, there) ↦
      rw (advance, there) (draw_frame-HoldsAll (next_index p.frame_index) frame (moved p) h)
]

module _ (milestone : Milestone) where
  reset-HoldsAll : (p : Player) → HoldsAll p → HoldsAll (reset milestone p)
  unfolding reset stop_timer
  reset-HoldsAll p h = stop_timer-none p h

  play-HoldsAll : (p : Player) → HoldsAll p → HoldsAll (play milestone p)
  unfolding play starting reset stop_timer
  play-HoldsAll p h = elim (Option-cases (frame_at 0 p.mode.frames)) [
    | inl empty ↦ rw (play, empty) (stop_timer-none p h)
    | inr (frame, first) ↦
        rw (play, first)
          (set_interval-HoldsAll (draw_frame 0 frame (starting milestone p))
            (draw_frame-none 0 frame (starting milestone p) (stop_timer-none p h) refl))
  ]

  step-HoldsAll : {p q : Player} → Step milestone p q → HoldsAll p → HoldsAll q
  unfolding choose
  step-HoldsAll {p} (chosen mode) h = reset-HoldsAll (record p { mode = mode }) h
  step-HoldsAll {p} (played enabled) h = play-HoldsAll p h
  step-HoldsAll {p} (fired k live) h = advance-HoldsAll p h

  -- Whatever is clicked and however often an interval fires, at most one interval runs, and it is the
  -- one that the script can clear.
  pub reach-HoldsAll : {p : Player} → Reach milestone p → HoldsAll p
  unfolding reset stop_timer clear_interval
  reach-HoldsAll (loaded mode page) = refl
  reach-HoldsAll (next r step) = step-HoldsAll step (reach-HoldsAll r)
