-- ===== src/Slots.antt =====
-- app/core/slot_registry.py: the slots of the five tiers, how they are loaded, checked and keyed, and
-- the readiness that demo_backend/main.py derives. `env` is os.getenv, `file` what stands at a path,
-- `is_blank` whether str.strip leaves nothing, `is_live` whether str.lower gives "live", and
-- `validate` pydantic's validation.
pub mod Readiness
mod Tests
use text.Mathlib.Text.{◌==◌ as str_beq}
use cortex_cognitive_runtime.Prelude.{
  Bool, true, false, not, ◌&&◌, ◌||◌, Option, none, some, List, [], ◌∷◌, if◌then◌else◌, String,
}
use cortex_cognitive_runtime.Routing.Task.{
  ModelTier, lightweight, medium, standard, heavy, deep_thinking,
}

-- TierSlot, without the settings that only the adapters read.
pub record TierSlot : Type 0 where
  pub base_url : String
  pub api_key_env : Option String
  pub protocol : String
  pub model : String
  pub allow_empty_api_key : Bool

pub record TierSlotRegistry : Type 0 where
  pub lightweight_slot : TierSlot
  pub medium_slot : TierSlot
  pub standard_slot : TierSlot
  pub heavy_slot : TierSlot
  pub deep_thinking_slot : TierSlot

-- What stands at a path, as far as a reader of JSON can tell; `J` is a JSON value.
pub data FileState (J : Type 0) : Type 0 where
  absent unreadable no_object : FileState J
  object : List (String × J) → FileState J

pub data Loaded : Type 0 where
  registry : TierSlotRegistry → Loaded
  incomplete live_mode_fallback : Loaded

pub data SlotStatus : Type 0 where
  unsupported incomplete_slot ok_no_auth missing_key ok : SlotStatus

-- The key, or MissingApiKeyError, or an error of the registry.
pub data KeyResult : Type 0 where
  key : Option String → KeyResult
  missing_api_key no_registry : KeyResult

-- The surroundings that the functions read.
pub record Surroundings (J : Type 0) : Type 0 where
  pub env : String → Option String
  pub file : String → FileState J
  pub is_blank : String → Bool
  pub is_live : String → Bool
  pub validate : List (String × J) → Option TierSlotRegistry

-- `getattr(reg, tier.name)`
unfoldable pub slot_of : ModelTier → TierSlotRegistry → TierSlot
slot_of ModelTier.lightweight r = r.lightweight_slot
slot_of ModelTier.medium r = r.medium_slot
slot_of ModelTier.standard r = r.standard_slot
slot_of ModelTier.heavy r = r.heavy_slot
slot_of ModelTier.deep_thinking r = r.deep_thinking_slot

-- `KNOWN_PROTOCOLS`
unfoldable pub is_known : String → Bool
is_known p = str_beq p "openai_compatible" || str_beq p "anthropic" || str_beq p "google"

-- `_mock_fallback_registry`
abbrev pub mock_slot : String → TierSlot
mock_slot model = record {
  base_url = "mock://localhost";
  api_key_env = none;
  protocol = "openai_compatible";
  model = model;
  allow_empty_api_key = true;
}

unfoldable pub mock_fallback_registry : TierSlotRegistry
mock_fallback_registry = record {
  lightweight_slot = mock_slot "mock-lightweight";
  medium_slot = mock_slot "mock-medium";
  standard_slot = mock_slot "mock-standard";
  heavy_slot = mock_slot "mock-heavy";
  deep_thinking_slot = mock_slot "mock-deep_thinking";
}

-- Python's `or` on optional texts: an empty one counts as none.
abbrev pub or_text : Option String → Option String → Option String
or_text none b = b
or_text (some a) b = if str_beq a "" then b else some a

abbrev pub text_or : Option String → String → String
text_or none b = b
text_or (some a) b = if str_beq a "" then b else a

-- `k in valid_keys`
unfoldable pub is_tier_name : String → Bool
is_tier_name k =
    str_beq k "LIGHTWEIGHT"
    || str_beq k "MEDIUM"
    || str_beq k "STANDARD"
    || str_beq k "HEAVY"
    || str_beq k "DEEP_THINKING"

-- `status in _READY_STATUSES`
abbrev pub is_ready_status : SlotStatus → Bool
is_ready_status ok = true
is_ready_status ok_no_auth = true
is_ready_status _ = false

module _ {J : Type 0} where
  -- `_resolve_config_path`
  unfoldable pub resolve_config_path : Surroundings J → Option String → String
  resolve_config_path s path =
      text_or (or_text path (s.env "TIER_SLOTS_CONFIG_PATH")) "./config/tier_slots.json"

  unfoldable pub filtered : List (String × J) → List (String × J)
  unfolding is_tier_name
  filtered [] = []
  filtered ((k, v) ∷ raw) =
      let rest = filtered raw in if is_tier_name k then (k, v) ∷ rest else rest

  -- `os.getenv(name, default)` takes the default only for a name that is not set.
  unfoldable pub mode_of : Surroundings J → Option String → String
  mode_of s llm_mode =
      text_or llm_mode (elim (s.env "CORTEX_LLM_MODE") [ none ↦ "mock" | some m ↦ m ])

  unfoldable pub loaded_from : Surroundings J → Option String → FileState J → Loaded
  unfolding mode_of filtered mock_fallback_registry
  loaded_from s llm_mode absent =
      if s.is_live (mode_of s llm_mode) then live_mode_fallback else registry mock_fallback_registry
  loaded_from s llm_mode unreadable = incomplete
  loaded_from s llm_mode no_object = incomplete
  loaded_from s llm_mode (object raw) = elim (s.validate (filtered raw)) [
    | none ↦ incomplete
    | some r ↦ registry r
  ]

  -- `load_tier_slots`
  unfoldable pub load_tier_slots : Surroundings J → Option String → Option String → Loaded
  unfolding loaded_from resolve_config_path
  load_tier_slots s path llm_mode = loaded_from s llm_mode (s.file (resolve_config_path s path))

  -- `registry if registry is not None else load_tier_slots(...)`
  unfoldable pub given_or_loaded :
      Surroundings J → Option String → Option String → Option TierSlotRegistry → Loaded
  unfolding load_tier_slots
  given_or_loaded s path llm_mode none = load_tier_slots s path llm_mode
  given_or_loaded s path llm_mode (some r) = registry r

  -- `os.getenv(slot.api_key_env) if slot.api_key_env else None`
  unfoldable pub key_value : Surroundings J → TierSlot → Option String
  key_value s slot = elim (or_text slot.api_key_env none) [ none ↦ none | some name ↦ s.env name ]

  unfoldable pub slot_key : Surroundings J → TierSlot → KeyResult
  unfolding key_value
  slot_key s slot =
      if slot.allow_empty_api_key
      then key (key_value s slot)
      else elim (or_text (key_value s slot) none) [
        | none ↦ missing_api_key
        | some value ↦ key (some value)
      ]

  -- `get_slot_api_key`
  unfoldable pub get_slot_api_key : Surroundings J → ModelTier → Option TierSlotRegistry → KeyResult
  unfolding given_or_loaded slot_key slot_of
  get_slot_api_key s tier given = elim (given_or_loaded s none none given) [
    | registry r ↦ slot_key s (slot_of tier r)
    | _ ↦ no_registry
  ]

  -- `evaluate_slot`, without the detail
  unfoldable pub evaluate_slot : Surroundings J → TierSlot → SlotStatus
  unfolding is_known key_value
  evaluate_slot s slot =
      if not (is_known slot.protocol)
      then unsupported
      else if s.is_blank slot.base_url || s.is_blank slot.model
      then incomplete_slot
      else if slot.allow_empty_api_key
      then ok_no_auth
      else elim (or_text (key_value s slot) none) [ none ↦ missing_key | some value ↦ ok ]

  abbrev pub is_ready : Surroundings J → TierSlot → Bool
  is_ready s slot = is_ready_status (evaluate_slot s slot)

  unfoldable pub all_ready : Surroundings J → Loaded → Bool
  unfolding evaluate_slot
  all_ready s (registry r) =
      is_ready s r.lightweight_slot
      && is_ready s r.medium_slot
      && is_ready s r.standard_slot
      && is_ready s r.heavy_slot
      && is_ready s r.deep_thinking_slot
  all_ready s _ = false

  -- `slots_ready`
  unfoldable pub slots_ready :
      Surroundings J → Option String → Option String → Option TierSlotRegistry → Bool
  unfolding given_or_loaded all_ready
  slots_ready s path llm_mode given = all_ready s (given_or_loaded s path llm_mode given)

-- The part of /health that the demo relays, and `can_run_live_llm` of `demo_readiness`: nothing is
-- ready where the core does not answer.
pub record Health : Type 0 where
  pub llm_mode : Option String
  pub slots_ready : Option Bool

unfoldable pub health : {J : Type 0} → Surroundings J → Option String → Health
unfolding slots_ready
health s llm_mode = record {
  llm_mode = llm_mode;
  slots_ready = some (slots_ready s none none none);
}

unfoldable pub can_run_live_llm : Option Health → Bool
can_run_live_llm none = false
can_run_live_llm (some h) = elim h.llm_mode [
  | none ↦ false
  | some mode ↦ str_beq mode "live" && elim h.slots_ready [ none ↦ false | some b ↦ b ]
]
