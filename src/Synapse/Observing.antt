-- ===== src/Synapse/Observing.antt =====
-- What an observation does to the store.
use cortex_cognitive_runtime.Prelude.{
  suc, ◌≤◌, ◌<◌, ◌≡◌, refl, ◌≢◌, ◌⊎◌, inl, inr, some, true, List, [], ◌∷◌, Option-cases, arith,
  length, String, String_discrete, Bool-cases,
}
use cortex_cognitive_runtime.OrderedDict.{get}
use cortex_cognitive_runtime.OrderedDict.Laws.{IsDistinct}
use cortex_cognitive_runtime.OrderedDict.Bounded.{
  found_or, touch_or_create-IsDistinct, length-touch_or_create, get-touch_or_create_ne,
  put-IsDistinct, length-put, get-put_self, get-put_ne, touch_or_create,
}
use cortex_cognitive_runtime.Float.{Float64, ratio, ◌<?◌}
use cortex_cognitive_runtime.Synapse.{
  SynapseState, SynapseStore, initial_weights, initial_state, get_state, update_state, should_flush,
  cosine, apply_flush, observed, observe,
}

pub record IsBounded {F : Type 0} (m : SynapseStore F) : Type 0 where
  pub room : 0 < m.max_sessions
  pub bounded : length m.states ≤ m.max_sessions
  pub distinct : IsDistinct String_discrete m.states

module _ {F : Type 0} ⦃fl : Float64 F⦄ (norm : List F → F)
    (dot_over : List F → List F → F → F) where
  -- The embedding is far from the last one: both have numbers, and their cosine is below 0.35.
  abbrev pub IsFar : List F → SynapseState F → Type 0
  IsFar embedding s =
      (x : F) × (xs : List F) × (y : F) × (ys : List F) × (embedding ≡ x ∷ xs)
      × (s.last_observed_embedding ≡ some (y ∷ ys))
      × (cosine norm dot_over (y ∷ ys) (x ∷ xs) <? ratio 35 100 ≡ true)

  -- What an observation makes of a state.
  abbrev pub Observed : String → List F → F → F → SynapseState F → SynapseState F → Type 0
  Observed category embedding similarity now s s' =
      ((IsFar embedding s
          × (s'.weights ≡ initial_weights)
          × (s'.flush_count ≡ suc s.flush_count)
          × (s'.last_flush_at ≡ some now))
        ⊎ ((IsFar embedding s → ⊥)
            × (s'.weights ≡ s.weights)
            × (s'.flush_count ≡ s.flush_count)
            × (s'.last_flush_at ≡ s.last_flush_at)))
      × (s'.last_observed_embedding ≡ some embedding)
      × (s'.last_observed_category ≡ some category)
      × (s'.last_observed_similarity ≡ some similarity)

  flushes-IsFar :
      (embedding : List F) (s : SynapseState F)
      → should_flush norm dot_over s embedding ≡ true
      → IsFar embedding s
  unfolding should_flush
  flushes-IsFar [] s e = absurd (cc)
  flushes-IsFar (x ∷ xs) s e = elim (Option-cases s.last_observed_embedding) [
    | inl first ↦ absurd (ground (arith, first, e))
    | inr ([], seen) ↦ absurd (ground (arith, seen, e))
    | inr (y ∷ ys, seen) ↦ (x, xs, y, ys, refl, seen, ground (arith, seen, e))
  ]

  IsFar-flushes :
      (embedding : List F) (s : SynapseState F)
      → IsFar embedding s
      → should_flush norm dot_over s embedding ≡ true
  unfolding should_flush
  IsFar-flushes embedding s (x, xs, y, ys, now_seen, seen, low) =
      rw (now_seen) (ground (arith, seen, low))

  observed_lem :
      (category : String) (embedding : List F) (similarity now : F) (s : SynapseState F)
      → Observed category embedding similarity now s
          (observed norm dot_over category embedding similarity now s)
  unfolding observed apply_flush
  observed_lem category embedding similarity now s =
      elim (Bool-cases (should_flush norm dot_over s embedding)) [
        | inl e ↦ (
          inl (
            flushes-IsFar embedding s e,
            rw (e, observed) refl,
            rw (e, observed) refl,
            rw (e, observed) refl,
          ),
          refl,
          refl,
          refl,
        )
        | inr e ↦ (
          inr (
            λ far.
                (let yes : should_flush norm dot_over s embedding ≡ true =
                    IsFar-flushes embedding s far in
                  cc),
            rw (e, observed) refl,
            rw (e, observed) refl,
            rw (e, observed) refl,
          ),
          refl,
          refl,
          refl,
        )
      ]

  -- An observation keeps the map of sessions within its bound and stores a new state of its own
  -- session, which remembers the embedding, the category and the similarity. If the embedding is far
  -- from the last one of the session, the weights are reset and the flush is counted and timed; if
  -- not, weights and flushes are the old ones. Any other session that is still held has its old
  -- state.
  pub observe_lem :
      (session category : String) (embedding : List F) (similarity now : F) (m : SynapseStore F)
      → IsBounded m
      → let m' = observe norm dot_over session category embedding similarity now m in
        IsBounded m'
        × ((s' : SynapseState F) × (get String_discrete session m'.states ≡ some s')
            × Observed category embedding similarity now
                (found_or String_discrete session initial_state m.states)
                s')
        × ((j : String) (t : SynapseState F)
            → j ≢ session
            → get String_discrete j m'.states ≡ some t
            → get String_discrete j m.states ≡ some t)
  unfolding observe get_state update_state
  observe_lem session category embedding similarity now m h =
      let s = found_or String_discrete session initial_state m.states in
      let s' = observed norm dot_over category embedding similarity now s in
      let d = touch_or_create String_discrete m.max_sessions session initial_state m.states in
      let u : IsDistinct String_discrete d =
        touch_or_create-IsDistinct String_discrete m.max_sessions session initial_state m.states
          h.distinct in
      (
        record {
          room = h.room;
          bounded = length-put String_discrete m.max_sessions session s' d (
              length-touch_or_create String_discrete m.max_sessions session initial_state m.states
                h.bounded);
          distinct = put-IsDistinct String_discrete m.max_sessions session s' d u;
        },
        (
          s',
          get-put_self String_discrete m.max_sessions session s' d h.room u,
          observed_lem category embedding similarity now s,
        ),
        λ j t n e.
            get-touch_or_create_ne String_discrete m.max_sessions session j initial_state t m.states
              h.distinct n (get-put_ne String_discrete m.max_sessions session j s' t d u n e),
      )
