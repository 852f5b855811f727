-- ===== src/Rpe/Selection.antt =====
-- The selection of proposals by RPEMutationService, app/rpe/service.py: which ones qualify, how they
-- are grouped, and which one of a group is applied.
pub mod Winner
use Prim.Native.Nat.{Ordering}
use Prim.Native.String.{compare as compare_str}
use cortex_cognitive_runtime.Prelude.{
  ℕ, Bool, true, false, not, Option, none, some, List, [], ◌∷◌, ◌++◌, ltb, is_some, if◌then◌else◌,
  String, String_discrete,
}
use cortex_cognitive_runtime.OrderedDict.{OrderedDict, get, set}
use cortex_cognitive_runtime.Float.{Float64, ratio, abs, eqf, ◌<?◌}
use cortex_cognitive_runtime.Rpe.Cell.{CellKey, CellKey_discrete}
use cortex_cognitive_runtime.Rpe.Proposal.{SignalSource, mock, RpeProposal, prediction_error}

-- The key `(trace_id, target_key)` of the single-apply registry.
pub record TraceKey : Type 0 where
  pub trace_id : String
  pub target_key : CellKey

unfoldable pub TraceKey_discrete : Discrete TraceKey
unfolding String_discrete CellKey_discrete
TraceKey_discrete a b = elim (String_discrete a.trace_id b.trace_id) [
  | no n ↦ no (λ e. n (λ i. (e i).trace_id))
  | yes p ↦ elim (CellKey_discrete a.target_key b.target_key) [
    | no n ↦ no (λ e. n (λ i. (e i).target_key))
    | yes q ↦ yes (λ i. record { trace_id = p i; target_key = q i })
  ]
]

-- The fields of ActiveMutationConfig that the service and the learner read.
pub record ActiveConfig (F : Type 0) : Type 0 where
  pub active_enabled : Bool
  pub difficulty_learning_enabled : Bool
  pub min_confidence : F
  pub min_abs_prediction_error : F

pub data BlockReason : Type 0 where
  below_confidence below_prediction_error zero_delta : BlockReason

module _ {F : Type 0} where
  abbrev pub trace_key : RpeProposal CellKey F → TraceKey
  trace_key p = record { trace_id = p.decision.context.trace_id; target_key = p.target_key }

  -- `groups.setdefault(key, []).append(proposal)`
  unfoldable pub into_group :
      RpeProposal CellKey F
      → OrderedDict TraceKey (List (RpeProposal CellKey F))
      → OrderedDict TraceKey (List (RpeProposal CellKey F))
  into_group p groups = elim (get TraceKey_discrete (trace_key p) groups) [
    | none ↦ set TraceKey_discrete (trace_key p) (p ∷ []) groups
    | some ps ↦ set TraceKey_discrete (trace_key p) (ps ++ p ∷ []) groups
  ]

  unfoldable pub group_from :
      OrderedDict TraceKey (List (RpeProposal CellKey F))
      → List (RpeProposal CellKey F)
      → OrderedDict TraceKey (List (RpeProposal CellKey F))
  unfolding into_group
  group_from groups [] = groups
  group_from groups (p ∷ ps) = group_from (into_group p groups) ps

-- `rollback_id < rollback_id'`, by code points
abbrev pub id_before : String → String → Bool
id_before s t = elim (compare_str s t) [ Ordering.lt ↦ true | _ ↦ false ]

abbrev pub source_rank : SignalSource → ℕ
source_rank mock = 0
source_rank _ = 1

module _ {F : Type 0} ⦃fl : Float64 F⦄ where
  -- `_threshold_block_reason`
  unfoldable pub threshold_block_reason :
      ActiveConfig F → RpeProposal CellKey F → Option BlockReason
  threshold_block_reason cfg p =
      if p.decision.reward.confidence <? cfg.min_confidence
      then some below_confidence
      else if abs (prediction_error p.decision.reward) <? cfg.min_abs_prediction_error
      then some below_prediction_error
      else if eqf p.proposed_delta (ratio 0 1)
      then some zero_delta
      else none

  abbrev pub qualifies : ActiveConfig F → RpeProposal CellKey F → Bool
  qualifies cfg p = not (is_some (threshold_block_reason cfg p))

  -- `sort_key(p) < sort_key(q)`: the greater confidence, then the mock source, then the greater
  -- change, then the lesser id.
  unfoldable pub goes_before : RpeProposal CellKey F → RpeProposal CellKey F → Bool
  goes_before p q =
      if q.confidence <? p.confidence
      then true
      else if p.confidence <? q.confidence
      then false
      else if ltb (source_rank p.decision.reward.source) (source_rank q.decision.reward.source)
      then true
      else if ltb (source_rank q.decision.reward.source) (source_rank p.decision.reward.source)
      then false
      else if abs q.proposed_delta <? abs p.proposed_delta
      then true
      else if abs p.proposed_delta <? abs q.proposed_delta
      then false
      else id_before p.rollback_id q.rollback_id

  -- `_select_winner`: the head of the sorted group, which is the first of the least proposals.
  unfoldable pub select_winner :
      RpeProposal CellKey F → List (RpeProposal CellKey F) → RpeProposal CellKey F
  unfolding goes_before
  select_winner best [] = best
  select_winner best (p ∷ ps) = select_winner (if goes_before p best then p else best) ps
