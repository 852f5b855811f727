-- ===== src/Rpe/Ttl/Keys.antt =====
-- The keys of app/rpe/ifom_store.py, decidably equal.
use mathlib.Core.Option
use cortex_cognitive_runtime.Prelude.{
  ℕ, ◌≡◌, ◌∙◌, refl, ap, sym, Option, none, some, String, String_discrete, ℕ_discrete, ◌==◌,
  if◌then◌else◌,
}
use cortex_cognitive_runtime.Memory.Goal.{active, paused, completed, expired}
use cortex_cognitive_runtime.Memory.Ifom.{TtlType, of_status, low_priority}

-- A target key is what its string `{ttl_type}:{category}` spells.
pub record TtlKey : Type 0 where
  pub ttl_type : TtlType
  pub category : Option String

-- The address of an override.
pub record TtlScope : Type 0 where
  pub session : String
  pub key : TtlKey

-- The types numbered, to decide their equality.
abbrev rank : TtlType → ℕ
rank (of_status active) = 0
rank (of_status paused) = 1
rank (of_status completed) = 2
rank (of_status expired) = 3
rank low_priority = 4

abbrev ranked : ℕ → TtlType
ranked n =
    if n == 0
    then of_status active
    else if n == 1
    then of_status paused
    else if n == 2
    then of_status completed
    else if n == 3
    then of_status expired
    else low_priority

pub ranked-rank : (t : TtlType) → ranked (rank t) ≡ t
ranked-rank (of_status active) = refl
ranked-rank (of_status paused) = refl
ranked-rank (of_status completed) = refl
ranked-rank (of_status expired) = refl
ranked-rank low_priority = refl

unfoldable pub TtlType_discrete : Discrete TtlType
unfolding ℕ_discrete
TtlType_discrete a b = elim (ℕ_discrete (rank a) (rank b)) [
  | yes p ↦ yes (sym (ranked-rank a) ∙ ap ranked p ∙ ranked-rank b)
  | no n ↦ no (λ e. n (ap rank e))
]

unfoldable pub category_discrete : Discrete (Option String)
unfolding String_discrete
category_discrete none none = yes refl
category_discrete none (some d) = no (Option.none-ne-some d)
category_discrete (some c) none = no (Option.some-ne-none c)
category_discrete (some c) (some d) = elim (String_discrete c d) [
  | yes p ↦ yes (ap some p)
  | no n ↦ no (λ e. n (Option.some-injective c d e))
]

unfoldable pub TtlKey_discrete : Discrete TtlKey
unfolding TtlType_discrete category_discrete
TtlKey_discrete a b = elim (TtlType_discrete a.ttl_type b.ttl_type) [
  | no n ↦ no (λ e. n (λ i. (e i).ttl_type))
  | yes p ↦ elim (category_discrete a.category b.category) [
    | no n ↦ no (λ e. n (λ i. (e i).category))
    | yes q ↦ yes (λ i. record { ttl_type = p i; category = q i })
  ]
]

unfoldable pub TtlScope_discrete : Discrete TtlScope
unfolding TtlKey_discrete String_discrete
TtlScope_discrete a b = elim (String_discrete a.session b.session) [
  | no n ↦ no (λ e. n (λ i. (e i).session))
  | yes p ↦ elim (TtlKey_discrete a.key b.key) [
    | no n ↦ no (λ e. n (λ i. (e i).key))
    | yes q ↦ yes (λ i. record { session = p i; key = q i })
  ]
]
