-- ===== src/Slots/Readiness.antt =====
-- What readiness of the slots means for the calls that follow.
use cortex_cognitive_runtime.Prelude.{
  ◌≡◌, ◌≢◌, ◌↔◌, refl, Bool, true, false, ◌&&◌, if◌then◌else◌, Option, none, some, String, arith,
}
use cortex_cognitive_runtime.Routing.Task.{ModelTier}
use cortex_cognitive_runtime.Slots.{
  all_ready, Loaded, Surroundings, TierSlot, TierSlotRegistry, absent, can_run_live_llm,
  evaluate_slot, get_slot_api_key, given_or_loaded, health, incomplete, is_known, is_ready, key,
  key_value, live_mode_fallback, load_tier_slots, loaded_from, missing_api_key,
  mock_fallback_registry, mock_slot, mode_of, or_text, registry, resolve_config_path, slot_key,
  slot_of, slots_ready,
}

all_five :
    (a b c d e : Bool)
    → a && b && c && d && e ≡ true
    → (a ≡ true) × (b ≡ true) × (c ≡ true) × (d ≡ true) × (e ≡ true)
all_five a b c d e h = ground arith

all_true :
    {a b c d e : Bool}
    → a ≡ true
    → b ≡ true
    → c ≡ true
    → d ≡ true
    → e ≡ true
    → a && b && c && d && e ≡ true
all_true p q r s t = ground arith

module _ {J : Type 0} where
  -- A slot that can be called: its protocol is known, its address and its model are not blank, and
  -- its key can be had.
  pub record IsCallable (s : Surroundings J) (slot : TierSlot) : Type 0 where
    pub known : is_known slot.protocol ≡ true
    pub addressed : s.is_blank slot.base_url ≡ false
    pub named : s.is_blank slot.model ≡ false
    pub keyed : slot_key s slot ≢ missing_api_key

  is_ready-IsCallable :
      (s : Surroundings J) (slot : TierSlot) → is_ready s slot ≡ true → IsCallable s slot
  unfolding evaluate_slot slot_key
  is_ready-IsCallable s slot h = record {
    known = ground arith;
    addressed = ground arith;
    named = ground arith;
    keyed = λ e. absurd (ground arith);
  }

  IsCallable-is_ready :
      (s : Surroundings J) (slot : TierSlot) → IsCallable s slot → is_ready s slot ≡ true
  unfolding evaluate_slot slot_key
  IsCallable-is_ready s slot c = ground (arith, c.known, c.addressed, c.named, c.keyed)

  slot_key-found :
      (s : Surroundings J) (slot : TierSlot)
      → slot_key s slot ≢ missing_api_key
      → (value : Option String) × (slot_key s slot ≡ key value)
  unfolding slot_key
  slot_key-found s slot n = by_test slot.allow_empty_api_key (or_text (key_value s slot) none) n
    where
      by_test :
          (b : Bool) (o : Option String)
          → (if b
              then key (key_value s slot)
              else elim o [ none ↦ missing_api_key | some value ↦ key (some value) ])
            ≢ missing_api_key
          → (value : Option String) × ((if b
                then key (key_value s slot)
                else elim o [ none ↦ missing_api_key | some v ↦ key (some v) ])
              ≡ key value)
      by_test true o n = (key_value s slot, refl)
      by_test false (some v) n = (some v, refl)
      by_test false none n = absurd (n refl)

  loaded-IsCallable :
      (s : Surroundings J) (l : Loaded)
      → all_ready s l ≡ true
      → (r : TierSlotRegistry) × (l ≡ registry r)
        × ((tier : ModelTier) → IsCallable s (slot_of tier r))
  unfolding all_ready slot_of
  loaded-IsCallable s (registry r) h = (r, refl, callable)
    where
      each :
          (is_ready s r.lightweight_slot ≡ true)
          × (is_ready s r.medium_slot ≡ true)
          × (is_ready s r.standard_slot ≡ true)
          × (is_ready s r.heavy_slot ≡ true)
          × (is_ready s r.deep_thinking_slot ≡ true)
      each = all_five _ _ _ _ _ h

      callable : (tier : ModelTier) → IsCallable s (slot_of tier r)
      callable ModelTier.lightweight = is_ready-IsCallable s r.lightweight_slot each.0
      callable ModelTier.medium = is_ready-IsCallable s r.medium_slot each.1
      callable ModelTier.standard = is_ready-IsCallable s r.standard_slot each.2
      callable ModelTier.heavy = is_ready-IsCallable s r.heavy_slot each.3
      callable ModelTier.deep_thinking = is_ready-IsCallable s r.deep_thinking_slot each.4
  loaded-IsCallable s incomplete h = absurd (cc)
  loaded-IsCallable s live_mode_fallback h = absurd (cc)

  callable_ready :
      (s : Surroundings J) (r : TierSlotRegistry)
      → ((tier : ModelTier) → IsCallable s (slot_of tier r))
      → all_ready s (registry r) ≡ true
  unfolding all_ready slot_of
  callable_ready s r c =
      all_true (IsCallable-is_ready s r.lightweight_slot (c ModelTier.lightweight))
        (IsCallable-is_ready s r.medium_slot (c ModelTier.medium))
        (IsCallable-is_ready s r.standard_slot (c ModelTier.standard))
        (IsCallable-is_ready s r.heavy_slot (c ModelTier.heavy))
        (IsCallable-is_ready s r.deep_thinking_slot (c ModelTier.deep_thinking))

  -- The slots are reported as ready exactly if a registry is given or can be loaded and the slot
  -- of every tier has a known protocol, an address, a model and a key that can be had.
  pub slots_ready_iff :
      (s : Surroundings J) (path llm_mode : Option String) (given : Option TierSlotRegistry)
      → (slots_ready s path llm_mode given ≡ true) ↔ (
          (r : TierSlotRegistry) × (given_or_loaded s path llm_mode given ≡ registry r)
          × ((tier : ModelTier) → IsCallable s (slot_of tier r)))
  unfolding slots_ready
  slots_ready_iff s path llm_mode given = (
    loaded-IsCallable s (given_or_loaded s path llm_mode given),
    λ h. rw h.1 (callable_ready s h.0 h.2),
  )

  -- Where the demo says of the core's health that it can run live, no tier's key is missing and no
  -- registry error arises: the look-up that a call of any tier makes gives a key.
  pub can_run_live_llm_lem :
      (s : Surroundings J) (mode : Option String) (tier : ModelTier)
      → can_run_live_llm (some (health s mode)) ≡ true
      → (value : Option String) × (get_slot_api_key s tier none ≡ key value)
  unfolding can_run_live_llm health get_slot_api_key
  can_run_live_llm_lem s mode tier h =
      let (r, loaded, callable) = (slots_ready_iff s none none none).0 (ready mode h) in
      let (value, e) = slot_key-found s (slot_of tier r) (callable tier).keyed in
      (value, ground (arith, loaded, e))
    where
      ready :
          (m : Option String)
          → can_run_live_llm (some (health s m)) ≡ true
          → slots_ready s none none none ≡ true
      ready m e = ground arith

  mock_slot-IsCallable :
      (s : Surroundings J) (model : String)
      → s.is_blank "mock://localhost" ≡ false
      → s.is_blank model ≡ false
      → IsCallable s (mock_slot model)
  unfolding is_known slot_key
  mock_slot-IsCallable s model address name = record {
    known = refl;
    addressed = address;
    named = name;
    keyed = λ e. cc;
  }

  mock_ready :
      (s : Surroundings J)
      → s.is_blank "mock://localhost" ≡ false
      → ((tier : ModelTier) → s.is_blank (slot_of tier mock_fallback_registry).model ≡ false)
      → all_ready s (registry mock_fallback_registry) ≡ true
  unfolding slot_of mock_fallback_registry
  mock_ready s address names = callable_ready s mock_fallback_registry callable
    where
      callable : (tier : ModelTier) → IsCallable s (slot_of tier mock_fallback_registry)
      callable ModelTier.lightweight =
          mock_slot-IsCallable s _ address (names ModelTier.lightweight)
      callable ModelTier.medium = mock_slot-IsCallable s _ address (names ModelTier.medium)
      callable ModelTier.standard = mock_slot-IsCallable s _ address (names ModelTier.standard)
      callable ModelTier.heavy = mock_slot-IsCallable s _ address (names ModelTier.heavy)
      callable ModelTier.deep_thinking =
          mock_slot-IsCallable s _ address (names ModelTier.deep_thinking)

  -- Where no configuration file is found and the mode is not live, the slots are reported as ready,
  -- though no slot is configured: the mock's slots pass. Their texts must not count as blank.
  pub slots_ready_unconfigured :
      (s : Surroundings J) (path llm_mode : Option String)
      → s.file (resolve_config_path s path) ≡ absent
      → s.is_live (mode_of s llm_mode) ≡ false
      → s.is_blank "mock://localhost" ≡ false
      → ((tier : ModelTier) → s.is_blank (slot_of tier mock_fallback_registry).model ≡ false)
      → slots_ready s path llm_mode none ≡ true
  unfolding slots_ready load_tier_slots loaded_from
  slots_ready_unconfigured s path llm_mode missing mode address names =
      rw (missing, mode) (mock_ready s address names)
