-- ===== src/Routing/Continuation.antt =====
-- app/routing/continuation_detector.py: whether a request goes past the caches, straight on with
-- the session's active goal. `classify` is the injected cue classifier, which answers nothing
-- where it raises, and `exp` and `now` serve the goals' decay.
pub mod Bypass
mod Tests
use text.Mathlib.Text.{◌==◌ as str_beq}
use cortex_cognitive_runtime.Prelude.{Bool, true, false, Option, none, some, String, if◌then◌else◌}
use cortex_cognitive_runtime.Float.{Float64}
use cortex_cognitive_runtime.Memory.Goal.{Goal}
use cortex_cognitive_runtime.Memory.SessionContext.{
  GoalStore, SessionGoalContext, get_active_goal, get_or_create_session,
}

pub data CueType : Type 0 where
  completion goal_creation continuation correction bootstrap none_found : CueType

pub data Language : Type 0 where
  ko en mixed : Language

pub record CueDetection (F : Type 0) : Type 0 where
  pub cue_type : CueType
  pub language : Language
  pub matched_keyword : Option String
  pub confidence : F

pub data ContinuationReason : Type 0 where
  bypass no_session_id no_active_goal no_continuation_cue detector_error : ContinuationReason

-- ContinuationContext of app/api/schemas/context.py, as the detector fills it
pub record ContinuationContext : Type 0 where
  pub cue_keyword : Option String
  pub cue_language : Language
  pub active_goal_id : String
  pub active_goal_title : String
  pub active_goal_category : Option String
  pub active_goal_summary : Option String

pub record ContinuationDecision (F : Type 0) : Type 0 where
  pub should_bypass : Bool
  -- nothing where the detector failed, which puts a fixed cue of no type
  pub cue_detection : Option (CueDetection F)
  pub active_goal_snapshot : Option ContinuationContext
  pub reason : ContinuationReason

abbrev pub is_continuation : CueType → Bool
is_continuation continuation = true
is_continuation completion = false
is_continuation goal_creation = false
is_continuation correction = false
is_continuation bootstrap = false
is_continuation none_found = false

module _ {F : Type 0} where
  abbrev pub not_bypassed : CueDetection F → ContinuationReason → ContinuationDecision F
  not_bypassed cue reason = record {
    should_bypass = false;
    cue_detection = some cue;
    active_goal_snapshot = none;
    reason = reason;
  }

  unfoldable pub snapshot_of : CueDetection F → Goal F → ContinuationContext
  snapshot_of cue g = record {
    cue_keyword = cue.matched_keyword;
    cue_language = cue.language;
    active_goal_id = g.goal_id;
    active_goal_title = g.title;
    active_goal_category = g.category;
    active_goal_summary = g.summary;
  }

  abbrev pub decision_on : CueDetection F → Option (Goal F) → ContinuationDecision F
  decision_on cue none = not_bypassed cue no_active_goal
  decision_on cue (some g) = record {
    should_bypass = true;
    cue_detection = some cue;
    active_goal_snapshot = some (snapshot_of cue g);
    reason = bypass;
  }

module _ {F : Type 0} ⦃fl : Float64 F⦄ where
  -- `_detect_inner` from the third step on
  unfoldable pub detect_goal :
      (F → F) → F → CueDetection F → String → GoalStore F → ContinuationDecision F × GoalStore F
  unfolding get_active_goal get_or_create_session
  detect_goal exp now cue id m =
      let (context, m') = get_or_create_session id now m in
      (decision_on cue (get_active_goal exp now context), m')

  -- `detect`, with `_detect_inner`
  unfoldable pub detect :
      (String → Option (CueDetection F))
      → (F → F)
      → F
      → String
      → Option String
      → GoalStore F
      → ContinuationDecision F × GoalStore F
  unfolding detect_goal
  detect classify exp now query session m = elim (classify query) [
    | none ↦ (
      record {
        should_bypass = false;
        cue_detection = none;
        active_goal_snapshot = none;
        reason = detector_error;
      },
      m,
    )
    | some cue ↦ elim session [
      | none ↦ (not_bypassed cue no_session_id, m)
      | some id ↦
          if str_beq id ""
          then (not_bypassed cue no_session_id, m)
          else if is_continuation cue.cue_type
          then detect_goal exp now cue id m
          else (not_bypassed cue no_continuation_cue, m)
    ]
  ]
