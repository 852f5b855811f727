-- ===== src/OrderedDict.antt =====
-- Python's `dict` and `collections.OrderedDict`, as far as the program uses them: an association
-- list in insertion order, the oldest entry first. The keys' equality is decidable.
pub mod Laws
pub mod Bounded
use cortex_cognitive_runtime.Prelude.{
  Bool, Option, none, some, List, [], ◌∷◌, ◌++◌, map, ite, is_some,
}

abbrev pub OrderedDict {ℓ} : Type ℓ → Type ℓ → Type ℓ
OrderedDict K V = List (K × V)

module _ {ℓ} {K V : Type ℓ} where
  -- `list(d)`
  abbrev pub keys : OrderedDict K V → List K
  keys = map (λ e. e.0)

  -- `list(d.values())`
  abbrev pub values : OrderedDict K V → List V
  values = map (λ e. e.1)

  -- `d.popitem(last=False)`. On an empty dictionary the source raises; no caller reaches that.
  unfoldable pub pop_oldest : OrderedDict K V → OrderedDict K V
  pop_oldest [] = []
  pop_oldest (e ∷ d) = d

  module _ (dec : Discrete K) where
    -- `d.get(k)`
    unfoldable pub get : K → OrderedDict K V → Option V
    get k [] = none
    get k (e ∷ d) = ite (dec e.0 k) (some e.1) (get k d)

    -- `k in d`
    abbrev pub contains : K → OrderedDict K V → Bool
    contains k d = is_some (get k d)

    -- `d[k] = v`: an existing key keeps its place, a new one goes to the end.
    unfoldable pub set : K → V → OrderedDict K V → OrderedDict K V
    set k v [] = (k, v) ∷ []
    set k v (e ∷ d) = ite (dec e.0 k) ((k, v) ∷ d) (e ∷ set k v d)

    -- `d.pop(k, None)`, `del d[k]`
    unfoldable pub delete : K → OrderedDict K V → OrderedDict K V
    delete k [] = []
    delete k (e ∷ d) = ite (dec e.0 k) d (e ∷ delete k d)

    -- `d.move_to_end(k)`. On a missing key the source raises; every caller has just tested or
    -- written the key.
    unfoldable pub move_to_end : K → OrderedDict K V → OrderedDict K V
    unfolding get delete
    move_to_end k d = elim (get k d) [ none ↦ d | some v ↦ delete k d ++ (k, v) ∷ [] ]
