-- ===== src/Service/Metric/Sampling.antt =====
-- Which values of a batch the alert rules see.
use orchestrix_api.Common.{
  or_else, String, ◌≡◌, refl, Option, none, some, List, [], ◌∷◌, str_eq, arith, is_some, entries_of,
  entries_of-insert, lookup, insert, lookup-insert, lookup-nil, if◌then◌else◌, ◌≤◌,
}
use orchestrix_api.Domain.Values.{Float64}
use orchestrix_api.Port.Inputs.{IngestMetricInput}
use orchestrix_api.Service.Metric.Background.{last_values_from, last_values}

-- The value of the last metric of a name, read from the end of the batch.
abbrev pub latest : String → List IngestMetricInput → Option Float64
latest n [] = none
latest n (x ∷ xs) = elim (latest n xs) [
  | some v ↦ some v
  | none ↦ if str_eq x.name n then some x.value else none
]

lookup-last_values_from :
    (n : String) (m : List (String × Float64)) (xs : List IngestMetricInput)
    → lookup n (last_values_from m xs) ≡ or_else (latest n xs) (lookup n m)
unfolding last_values_from
lookup-last_values_from n m [] = refl
lookup-last_values_from n m (x ∷ xs) = ground (
  arith,
  lookup-last_values_from n (insert x.name x.value m) xs,
  lookup-insert x.name n x.value m,
)

entries_of-last_values_from :
    (n : String) (m : List (String × Float64)) (xs : List IngestMetricInput)
    → ((k : String) → entries_of k m ≤ 1)
    → entries_of n (last_values_from m xs) ≡ (if is_some (latest n xs) then 1 else entries_of n m)
unfolding last_values_from
entries_of-last_values_from n m [] one = refl
entries_of-last_values_from n m (x ∷ xs) one = ground (
  arith,
  entries_of-last_values_from n (insert x.name x.value m) xs still,
  entries_of-insert n x.name x.value m (one x.name),
)
  where
    still : (k : String) → entries_of k (insert x.name x.value m) ≤ 1
    still k = ground (arith, entries_of-insert k x.name x.value m (one x.name), one k)

-- The map of a batch has one entry for each name in the batch and none for any other, and under the
-- name the value of its last metric.
pub last_values_lem :
    (n : String) (xs : List IngestMetricInput)
    → (lookup n (last_values xs) ≡ latest n xs)
      × (entries_of n (last_values xs) ≡ (if is_some (latest n xs) then 1 else 0))
last_values_lem n xs = (
  ground (arith, lookup-last_values_from n [] xs, lookup-nil {V = Float64} n),
  entries_of-last_values_from n [] xs (λ k. omega arith),
)
