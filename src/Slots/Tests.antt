-- ===== src/Slots/Tests.antt =====
-- A configuration in which one slot needs a key and the others none, and the instances of the
-- theorems.
use text.Mathlib.Text.{◌==◌ as str_beq}
use cortex_cognitive_runtime.Prelude.{
  ℕ, ◌≡◌, ◌↔◌, refl, true, false, Option, none, some, [], ◌∷◌, String, if◌then◌else◌,
}
use cortex_cognitive_runtime.Routing.Task.{ModelTier}
use cortex_cognitive_runtime.Slots.{
  Surroundings, TierSlot, TierSlotRegistry, absent, all_ready, can_run_live_llm, evaluate_slot,
  filtered, get_slot_api_key, given_or_loaded, health, is_known, is_tier_name, key, key_value,
  load_tier_slots, loaded_from, missing_api_key, mock_fallback_registry, mode_of, object, registry,
  resolve_config_path, slot_key, slot_of, slots_ready,
}
use cortex_cognitive_runtime.Slots.Readiness.{
  IsCallable, can_run_live_llm_lem, slots_ready_iff, slots_ready_unconfigured,
}

-- All that a run computes with.
slot_program : Unit {0}
unfolding all_ready can_run_live_llm evaluate_slot filtered get_slot_api_key given_or_loaded health
    is_known is_tier_name key_value load_tier_slots loaded_from mock_fallback_registry mode_of
    resolve_config_path slot_key slot_of slots_ready
slot_program = tt

abbrev keyed_slot : TierSlot
keyed_slot = record {
  base_url = "https://api";
  api_key_env = some "HEAVY_KEY";
  protocol = "anthropic";
  model = "large";
  allow_empty_api_key = false;
}

abbrev local_slot : TierSlot
local_slot = record {
  base_url = "http://localhost";
  api_key_env = none;
  protocol = "openai_compatible";
  model = "small";
  allow_empty_api_key = true;
}

abbrev mixed : TierSlotRegistry
mixed = record {
  lightweight_slot = local_slot;
  medium_slot = local_slot;
  standard_slot = local_slot;
  heavy_slot = keyed_slot;
  deep_thinking_slot = keyed_slot;
}

abbrev key_set : String → Option String
key_set name = if str_beq name "HEAVY_KEY" then some "secret" else none

abbrev configured : Surroundings ℕ
configured = record {
  env = key_set;
  file = λ path. object (("HEAVY", 1) ∷ ("_README", 2) ∷ []);
  is_blank = λ t. str_beq t "";
  is_live = λ t. str_beq t "live";
  validate = λ raw. some mixed;
}

abbrev keyless : Surroundings ℕ
keyless = record configured { env = λ name. none }

abbrev unconfigured : Surroundings ℕ
unconfigured = record configured { file = λ path. absent }

configured_ready : slots_ready configured none none none ≡ true
unfolding slot_program
configured_ready = refl

keyless_not_ready : slots_ready keyless none none none ≡ false
unfolding slot_program
keyless_not_ready = refl

keyless_key : get_slot_api_key keyless ModelTier.heavy none ≡ missing_api_key
unfolding slot_program
keyless_key = refl

readme_filtered : filtered {J = ℕ} (("HEAVY", 1) ∷ ("_README", 2) ∷ []) ≡ ("HEAVY", 1) ∷ []
unfolding slot_program
readme_filtered = refl

slots_ready_iff_example : (slots_ready configured none none none ≡ true) ↔ (
    (r : TierSlotRegistry) × (given_or_loaded configured none none none ≡ registry r)
    × ((tier : ModelTier) → IsCallable configured (slot_of tier r)))
slots_ready_iff_example = slots_ready_iff configured none none none

configured_live : can_run_live_llm (some (health configured (some "live"))) ≡ true
unfolding slot_program
configured_live = refl

can_run_live_llm_lem_example :
    (value : Option String) × (get_slot_api_key configured ModelTier.heavy none ≡ key value)
can_run_live_llm_lem_example =
    can_run_live_llm_lem configured (some "live") ModelTier.heavy configured_live

unconfigured_mode : unconfigured.is_live (mode_of unconfigured none) ≡ false
unfolding slot_program
unconfigured_mode = refl

mock_names :
    (tier : ModelTier) → unconfigured.is_blank (slot_of tier mock_fallback_registry).model ≡ false
unfolding slot_program
mock_names ModelTier.lightweight = refl
mock_names ModelTier.medium = refl
mock_names ModelTier.standard = refl
mock_names ModelTier.heavy = refl
mock_names ModelTier.deep_thinking = refl

slots_ready_unconfigured_example : slots_ready unconfigured none none none ≡ true
slots_ready_unconfigured_example =
    slots_ready_unconfigured unconfigured none none refl unconfigured_mode refl mock_names
