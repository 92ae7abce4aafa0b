-- ===== src/Player/Page.antt =====
-- What the player shows (src/visualizations/shared/milestone-player.js): the page at rest, and one
-- frame of an animation.
use overbook.Base.{
  ℕ, suc, ◌+◌, Bool, true, false, Option, String, List, [], ◌∷◌, map, length, str_append, ◌==◌,
  if◌then◌else◌,
}
use mathlib.Core.Option.{get_or}
use overbook.Trace.Resolve.{trim}

-- `frames` of a mode; a lookup at the index of a node or of a metric may be undefined
pub record Frame : Type 0 where
  pub active : List ℕ
  pub tones : ℕ → Option String
  pub status : ℕ → Option String
  pub values : ℕ → Option String
  pub paths : List ℕ
  pub metrics : ℕ → Option String
  pub note : String

pub record Outcome : Type 0 where
  pub tone : String
  pub title : String
  pub copy : String

-- `metric_labels` is `metrics.map((metric) => metric[0])`
pub record Mode : Type 0 where
  pub concepts : List String
  pub metric_labels : List String
  pub start_copy : String
  pub frames : List Frame
  pub result : Outcome

-- `window.MILESTONE_DATA[milestoneId]`: the values of the nodes of `flow`, and the modes
pub record Milestone : Type 0 where
  pub flow : List String
  pub modes : List Mode

pub record NodeView : Type 0 where
  pub class_name : String
  pub value : String
  pub status : String

-- The elements that the script writes. `step_no` is the step and the number of steps, `progress` the
-- part of the whole width, as a fraction.
pub record Page : Type 0 where
  pub concepts : List String
  pub nodes : List NodeView
  pub arrows : List String
  pub metrics : List (String × String)
  pub step_no : ℕ × ℕ
  pub narration : String
  pub progress : ℕ × ℕ
  pub result_class : String
  pub result_title : String
  pub result_copy : String
  pub play_disabled : Bool
  pub play_text : String
  pub live : String

-- `includes`
unfoldable pub includes : List ℕ → ℕ → Bool
includes [] n = false
includes (k ∷ ks) n = let rest = includes ks n in if k == n then true else rest

-- `forEach((item, index) => ..)`, from the index `i` on
unfoldable pub for_each : {A B : Type 0} → (ℕ → A → B) → ℕ → List A → List B
for_each f i [] = []
for_each f i (x ∷ xs) = f i x ∷ for_each f (suc i) xs

-- what `reset` shows of the selected mode
unfoldable pub reset_page : Milestone → Mode → Page → Page
reset_page data_ mode page = record page {
  concepts = mode.concepts;
  nodes = map (λ v. record { class_name = "stage-node"; value = v; status = "Idle" }) data_.flow;
  arrows = map (λ _. "stage-arrow") page.arrows;
  metrics = map (λ label. (label, "—")) mode.metric_labels;
  step_no = (0, length mode.frames);
  narration = "Select “Play animation” to run this scenario.";
  progress = (0, 1);
  result_class = "result";
  result_title = "Not started";
  result_copy = mode.start_copy;
  play_disabled = false;
  play_text = "▶ Play animation";
}

-- one node in a frame
unfoldable pub draw_node : Frame → ℕ → NodeView → NodeView
unfolding includes
draw_node frame i node = record {
  class_name = trim (
      str_append "stage-node " (
        str_append (if includes frame.active i then "active" else "")
          (str_append " " (get_or (frame.tones i) ""))));
  value = get_or (frame.values i) node.value;
  status = get_or (frame.status i) "Idle";
}

unfoldable pub draw_arrow : Frame → ℕ → String → String
unfolding includes
draw_arrow frame i arrow =
    str_append "stage-arrow " (if includes frame.paths i then "active" else "")

-- `drawFrame`, up to its last test
unfoldable pub show_frame : Mode → ℕ → Frame → Page → Page
unfolding for_each draw_node draw_arrow includes
show_frame mode index frame page = record page {
  nodes = for_each (draw_node frame) 0 page.nodes;
  arrows = for_each (draw_arrow frame) 0 page.arrows;
  metrics = for_each (λ i metric. (metric.0, get_or (frame.metrics i) "")) 0 page.metrics;
  step_no = (index + 1, length mode.frames);
  narration = frame.note;
  progress = (index + 1, length mode.frames);
  live = frame.note;
}

-- the end of `drawFrame` for the last frame
unfoldable pub show_result : Mode → Page → Page
show_result mode page = record page {
  result_class = str_append "result " mode.result.tone;
  result_title = mode.result.title;
  result_copy = mode.result.copy;
  play_disabled = false;
  play_text = "↻ Replay";
}
