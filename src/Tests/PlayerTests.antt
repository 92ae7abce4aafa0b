-- ===== src/Tests/PlayerTests.antt =====
-- An animation of two frames, and one of a single frame.
use overbook.Base.{◌≡◌, refl, false, some, none, String, List, [], ◌∷◌, arith}
use overbook.Player.Page.{Frame, Mode, Milestone, Page}
use overbook.Player.Page
use overbook.Player.Controls.{Player, Reach, loaded, next, played, fired, play, advance, reset}
use overbook.Player.Controls
use overbook.Player.Intervals.{HoldsAll, reach-HoldsAll}
use overbook.Player.Playing.{Plays, ticks, playing_lem}

abbrev frame : String → Frame
frame note = record {
  active = 0 ∷ [];
  tones = λ _. none;
  status = λ _. some "Ready";
  values = λ _. none;
  paths = [];
  metrics = λ _. some "1";
  note = note;
}

abbrev mode : List Frame → Mode
mode frames = record {
  concepts = [];
  metric_labels = "p95" ∷ [];
  start_copy = "";
  frames = frames;
  result = record { tone = "good"; title = "Done"; copy = "" };
}

abbrev milestone : Milestone
milestone = record { flow = "API" ∷ "DB" ∷ []; modes = mode (frame "one" ∷ frame "two" ∷ []) ∷ [] }

abbrev blank : Page
blank = record {
  concepts = [];
  nodes = [];
  arrows = "stage-arrow" ∷ [];
  metrics = [];
  step_no = (0, 0);
  narration = "";
  progress = (0, 1);
  result_class = "";
  result_title = "";
  result_copy = "";
  play_disabled = false;
  play_text = "";
  live = "";
}

abbrev at_rest : Mode → Player
at_rest m = reset milestone (record {
  mode = m;
  frame_index = none;
  timer = none;
  intervals = [];
  handles = 1;
  page = blank;
})

abbrev two : Mode
two = mode (frame "one" ∷ frame "two" ∷ [])

-- The animation of a single frame is over when its interval is set: nothing clears it.
interval_left : (play milestone (at_rest (mode (frame "one" ∷ [])))).intervals ≡ 1 ∷ []
unfolding play Controls.set_interval reset Controls.stop_timer
interval_left = refl

enabled : (at_rest two).page.play_disabled ≡ false
unfolding reset Page.reset_page
enabled = refl

reach-HoldsAll_example : HoldsAll (play milestone (at_rest two))
reach-HoldsAll_example = reach-HoldsAll milestone (next (loaded two blank) (played enabled))

playing_lem_example : Plays two 1 (ticks 1 (play milestone (at_rest two)))
unfolding reset Controls.stop_timer
playing_lem_example = playing_lem milestone 1 (at_rest two) (omega arith)
