-- ===== src/Rpe/Cell.antt =====
-- The keys of the learned weights: app/rpe/difficulty_store.py addresses a weight by session,
-- category and difficulty, the ratchet and the decay address it within a session.
use cortex_cognitive_runtime.Prelude.{ℕ, String, String_discrete, ℕ_discrete}

-- The address of a learned weight: session, category, difficulty.
pub record Cell : Type 0 where
  pub session : String
  pub category : String
  pub difficulty : ℕ

-- The key of a cell within its session.
pub record CellKey : Type 0 where
  pub category : String
  pub difficulty : ℕ

unfoldable pub CellKey_discrete : Discrete CellKey
unfolding String_discrete ℕ_discrete
CellKey_discrete a b = elim (String_discrete a.category b.category) [
  | no n ↦ no (λ e. n (λ i. (e i).category))
  | yes p ↦ elim (ℕ_discrete a.difficulty b.difficulty) [
    | no n ↦ no (λ e. n (λ i. (e i).difficulty))
    | yes q ↦ yes (λ i. record { category = p i; difficulty = q i })
  ]
]

unfoldable pub Cell_discrete : Discrete Cell
unfolding String_discrete ℕ_discrete
Cell_discrete a b = elim (String_discrete a.session b.session) [
  | no n ↦ no (λ e. n (λ i. (e i).session))
  | yes r ↦ elim (String_discrete a.category b.category) [
    | no n ↦ no (λ e. n (λ i. (e i).category))
    | yes p ↦ elim (ℕ_discrete a.difficulty b.difficulty) [
      | no n ↦ no (λ e. n (λ i. (e i).difficulty))
      | yes q ↦ yes (λ i. record { session = r i; category = p i; difficulty = q i })
    ]
  ]
]

abbrev pub key_of : Cell → CellKey
key_of c = record { category = c.category; difficulty = c.difficulty }
