-- ===== src/Player/Playing.antt =====
-- An animation from its start to its end (src/visualizations/shared/milestone-player.js).
use overbook.Base.{
  ℕ, zero, suc, ◌+◌, ◌<◌, ◌≡◌, ◌⊎◌, refl, sym, ap, subst, ◌∙◌, inl, inr, true, false, some, List,
  [], ◌∷◌, length, ◌==◌, arith, Bool-cases,
}
use overbook.Player.Page.{Frame, Mode, Milestone, reset_page, show_frame, show_result}
use overbook.Player.Controls.{
  Player, frame_at, stop_timer, draw_frame, set_interval, next_index, starting, reset, play,
  advance,
}

-- the interval fires so often
unfoldable pub ticks : ℕ → Player → Player
ticks zero p = p
ticks (suc k) p = advance (ticks k p)

pub frame_at-there :
    (k : ℕ) (fs : List Frame) → k < length fs → (f : Frame) × (frame_at k fs ≡ some f)
unfolding frame_at
frame_at-there k [] h = absurd (omega arith)
frame_at-there zero (f ∷ fs) h = (f, refl)
frame_at-there (suc k) (f ∷ fs) h = frame_at-there k fs (omega arith)

-- The page shows the frame of the index, and its step.
abbrev pub Shows : Mode → ℕ → Player → Type 0
Shows mode k p =
    (p.mode ≡ mode)
    × (p.frame_index ≡ some k)
    × (p.page.step_no ≡ (k + 1, length mode.frames))
    × ((f : Frame) × (frame_at k mode.frames ≡ some f) × (p.page.narration ≡ f.note))

-- Before the last frame the play button is disabled and no result is shown; with the last one the
-- result is shown and the button is back.
abbrev pub Goes : Mode → ℕ → Player → Type 0
Goes mode k p =
    ((k + 1 < length mode.frames)
      × (p.page.play_disabled ≡ true)
      × (p.page.result_title ≡ "Not started"))
    ⊎ ((k + 1 ≡ length mode.frames)
        × (p.page.play_disabled ≡ false)
        × (p.page.result_title ≡ mode.result.title))

draw_frame-Shows :
    (mode : Mode) (k : ℕ) (f : Frame) (p : Player)
    → p.mode ≡ mode
    → p.frame_index ≡ some k
    → frame_at k mode.frames ≡ some f
    → Shows mode k (draw_frame k f p)
unfolding draw_frame show_frame show_result stop_timer
draw_frame-Shows mode k f p same at there =
    let steps : (k + 1, length p.mode.frames) ≡ (k + 1, length mode.frames) =
      ap (λ m. (k + 1, length m.frames)) same in
    elim (Bool-cases (k + 1 == length p.mode.frames)) [
      | inl last ↦ rw (draw_frame, last) (same, at, steps, (f, there, refl))
      | inr more ↦ rw (draw_frame, more) (same, at, steps, (f, there, refl))
    ]

draw_frame-Goes :
    (mode : Mode) (k : ℕ) (f : Frame) (p : Player)
    → p.mode ≡ mode
    → k < length mode.frames
    → p.page.play_disabled ≡ true
    → p.page.result_title ≡ "Not started"
    → Goes mode k (draw_frame k f p)
unfolding draw_frame show_frame show_result stop_timer
draw_frame-Goes mode k f p same within disabled title =
    let steps : length p.mode.frames ≡ length mode.frames = ap (λ m. length m.frames) same in
    elim (Bool-cases (k + 1 == length p.mode.frames)) [
      | inl last ↦
          rw (draw_frame, last)
            (inr (ground (arith, last, steps), refl, ap (λ m. m.result.title) same))
      | inr more ↦
          rw (draw_frame, more) (inl (ground (arith, more, steps, within), disabled, title))
    ]

advance-there :
    (k : ℕ) (f : Frame) (p : Player)
    → p.frame_index ≡ some k
    → frame_at (suc k) p.mode.frames ≡ some f
    → advance p ≡ draw_frame (suc k) f (record p { frame_index = some (suc k) })
unfolding advance
advance-there k f p at there =
    let here : frame_at (next_index p.frame_index) p.mode.frames ≡ some f =
      ap (λ i. frame_at (next_index i) p.mode.frames) at ∙ there in
    rw (advance, here)
      (ap (λ i. draw_frame (next_index i) f (record p { frame_index = some (next_index i) })) at)

-- The page shows a frame and goes on with the animation, or ends it.
abbrev pub Plays : Mode → ℕ → Player → Type 0
Plays mode k p = Shows mode k p × Goes mode k p

module _ (milestone : Milestone) where
  play-first :
      (f : Frame) (p : Player)
      → frame_at 0 p.mode.frames ≡ some f
      → play milestone p ≡ set_interval (draw_frame 0 f (starting milestone p))
  unfolding play
  play-first f p first = rw (play, first) refl

  starting-Plays :
      (f : Frame) (p : Player)
      → 0 < length p.mode.frames
      → frame_at 0 p.mode.frames ≡ some f
      → Plays p.mode 0 (set_interval (draw_frame 0 f (starting milestone p)))
  unfolding set_interval starting reset stop_timer reset_page
  starting-Plays f p within first = (
    draw_frame-Shows p.mode 0 f (starting milestone p) refl refl first,
    draw_frame-Goes p.mode 0 f (starting milestone p) refl within refl refl,
  )

  -- While an animation plays, each time the interval fires the page goes on to the next frame: after
  -- `k` times it shows the frame `k` and its step. Before the last frame the play button is disabled
  -- and no result is shown; with the last frame the result is shown and the button is back.
  pub playing_lem :
      (k : ℕ) (p : Player) → k < length p.mode.frames → Plays p.mode k (ticks k (play milestone p))
  unfolding ticks
  playing_lem zero p within =
      let (f, first) = frame_at-there 0 p.mode.frames within in
      subst (Plays p.mode 0) (sym (play-first f p first)) (starting-Plays f p within first)
  playing_lem (suc k) p within =
      let q = ticks k (play milestone p) in
      let ((same, at, _, _), goes) = playing_lem k p (omega arith) in
      let (f, there) = frame_at-there (suc k) p.mode.frames within in
      let here : frame_at (suc k) q.mode.frames ≡ some f =
        ap (λ m. frame_at (suc k) m.frames) same ∙ there in
      let q' = record q { frame_index = some (suc k) } in
      elim goes [
        | inr (last, _, _) ↦ absurd (omega (arith, last, within))
        | inl (_, disabled, title) ↦
            subst (Plays p.mode (suc k)) (sym (advance-there k f q at here)) (
              draw_frame-Shows p.mode (suc k) f q' same refl there,
              draw_frame-Goes p.mode (suc k) f q' same within disabled title,
            )
      ]
