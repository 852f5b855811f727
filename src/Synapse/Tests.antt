-- ===== src/Synapse/Tests.antt =====
-- An observation far from the last one of its session, in a store of two sessions.
use cortex_cognitive_runtime.Prelude.{
  ◌≡◌, ◌≢◌, refl, none, some, List, [], ◌∷◌, arith, String, String_discrete, dec_of_iff,
}
use cortex_cognitive_runtime.Int.{ℤ, pos}
use cortex_cognitive_runtime.Float.Fixed.{thousandths}
use cortex_cognitive_runtime.OrderedDict.{get, set, move_to_end, pop_oldest}
use cortex_cognitive_runtime.OrderedDict.Bounded.{evict, found_or, put, touch_or_create}
use cortex_cognitive_runtime.Synapse.{
  SynapseState, SynapseStore, apply_flush, cosine, get_state, initial_state, initial_weights,
  observe, observed, should_flush, update_state,
}
use cortex_cognitive_runtime.Synapse.Observing.{IsBounded, Observed, observe_lem}

program : Unit {0}
unfolding String_discrete dec_of_iff get set move_to_end pop_oldest evict found_or put
    touch_or_create apply_flush cosine get_state initial_state initial_weights observe observed
    should_flush update_state
program = tt

-- The session has learned a weight for coding, and saw an embedding.
abbrev seen_state : SynapseState ℤ
seen_state = record {
  weights = ("coding", pos 800) ∷ [];
  last_observed_category = some "coding";
  last_observed_similarity = some (pos 900);
  last_observed_embedding = some (pos 1 ∷ []);
  flush_count = 1;
  last_flush_at = none;
}

abbrev two_sessions : SynapseStore ℤ
two_sessions = record { states = ("s", seen_state) ∷ ("other", seen_state) ∷ []; max_sessions = 2 }

two_sessions-IsBounded : IsBounded two_sessions
unfolding program
two_sessions-IsBounded = record {
  room = omega arith;
  bounded = omega arith;
  distinct = (refl, (refl, tt));
}

abbrev unit_norm : List ℤ → ℤ
unit_norm v = pos 1000

abbrev no_match : List ℤ → List ℤ → ℤ → ℤ
no_match a b n = pos 0

abbrev after : SynapseStore ℤ
after = observe unit_norm no_match "s" "writing" (pos 2 ∷ []) (pos 900) (pos 7) two_sessions

-- The session is the most recent one now, and was flushed.
flushed :
    after.states
    ≡ ("other", seen_state)
      ∷ (
        "s",
        record {
          weights = initial_weights;
          last_observed_category = some "writing";
          last_observed_similarity = some (pos 900);
          last_observed_embedding = some (pos 2 ∷ []);
          flush_count = 2;
          last_flush_at = some (pos 7);
        },
      )
      ∷ []
unfolding program
flushed = refl

observe_lem_example :
    IsBounded after
    × ((s' : SynapseState ℤ) × (get String_discrete "s" after.states ≡ some s')
        × Observed unit_norm no_match "writing"
            (pos 2 ∷ [])
            (pos 900)
            (pos 7)
            (found_or String_discrete "s" initial_state two_sessions.states)
            s')
    × ((j : String) (t : SynapseState ℤ)
        → j ≢ "s"
        → get String_discrete j after.states ≡ some t
        → get String_discrete j two_sessions.states ≡ some t)
observe_lem_example =
    observe_lem unit_norm no_match "s" "writing" (pos 2 ∷ []) (pos 900) (pos 7) two_sessions
      two_sessions-IsBounded
