-- ===== src/Rpe/RecentCounter.antt =====
-- app/rpe/recent_counter.py: the signs of the mutations last applied to a session and category.
pub mod Window
use text.Mathlib.Text.{◌==◌ as str_beq}
use cortex_cognitive_runtime.Prelude.{
  ℕ, suc, ◌+◌, ◌-◌, Bool, true, false, not, ◌||◌, none, some, List, [], ◌∷◌, ◌++◌, leb, length,
  if◌then◌else◌, String, String_discrete,
}
use cortex_cognitive_runtime.OrderedDict.{OrderedDict, get, set, pop_oldest}
use cortex_cognitive_runtime.Float.{Float64, ratio, eqf, ◌<?◌}

pub record CounterKey : Type 0 where
  pub session : String
  pub category : String

unfoldable pub CounterKey_discrete : Discrete CounterKey
unfolding String_discrete
CounterKey_discrete a b = elim (String_discrete a.session b.session) [
  | no n ↦ no (λ e. n (λ i. (e i).session))
  | yes p ↦ elim (String_discrete a.category b.category) [
    | no n ↦ no (λ e. n (λ i. (e i).category))
    | yes q ↦ yes (λ i. record { session = p i; category = q i })
  ]
]

-- A sign is `true` for +1 and `false` for -1, the most recent one last.
pub record RecentCounter : Type 0 where
  pub window : ℕ
  pub signs : OrderedDict CounterKey (List Bool)

abbrev pub signs_of : CounterKey → RecentCounter → List Bool
signs_of k r = elim (get CounterKey_discrete k r.signs) [ none ↦ [] | some s ↦ s ]

abbrev pub oldest_dropped : List Bool → List Bool
oldest_dropped [] = []
oldest_dropped (s ∷ ss) = ss

-- `append` of a deque with `maxlen`
unfoldable pub push : ℕ → Bool → List Bool → List Bool
push window sign signs =
    if leb (suc (length signs)) window
    then signs ++ sign ∷ []
    else oldest_dropped (signs ++ sign ∷ [])

-- `record`
unfoldable pub record_sign :
    {F : Type 0} ⦃fl : Float64 F⦄ → String → String → F → RecentCounter → RecentCounter
unfolding push
record_sign session category delta r =
    let k : CounterKey = record { session = session; category = category } in
    if str_beq session "" || str_beq category "" || eqf delta (ratio 0 1) then r else record r {
      signs = set CounterKey_discrete k (push r.window (ratio 0 1 <? delta) (signs_of k r)) r.signs;
    }

-- `sum(1 for s in signs if s > 0)`
abbrev pub positives : List Bool → ℕ
positives [] = 0
positives (true ∷ ss) = suc (positives ss)
positives (false ∷ ss) = positives ss

-- `counts`
unfoldable pub counts : CounterKey → RecentCounter → ℕ × ℕ
counts k r = (positives (signs_of k r), length (signs_of k r) - positives (signs_of k r))
