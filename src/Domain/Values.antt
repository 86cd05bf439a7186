-- ===== src/Domain/Values.antt =====
-- The values that the entities are made of.
--
-- A `uuid.UUID` is used only through equality, so it is a number, with 0 for `uuid.Nil`. A
-- `time.Time` is the number of nanoseconds since Go's zero time. A `json.RawMessage` stands as what
-- `json.Unmarshal` makes of it at the type that the code decodes it to: no bytes at all, bytes that
-- are no JSON, JSON of another shape, which does not decode, or the decoded value. A `float64` is
-- not-a-number, or the position that the number has among all float64 numbers in increasing order
-- (minus infinity is 0, and both zeros share one position), which is all that comparisons see.
use orchestrix_api.Common.{ℕ, Bool, false, not, ltb, leb, ◌==◌ as nat_eq}

abbrev pub Uuid : Type 0
Uuid = ℕ

abbrev pub nil_uuid : Uuid
nil_uuid = 0

abbrev pub Time : Type 0
Time = ℕ

abbrev pub nanoseconds_per_second : ℕ
nanoseconds_per_second = 1000000000

pub data Raw {ℓ} (A : Type ℓ) : Type ℓ where
  absent : Raw A
  malformed : Raw A
  mistyped : Raw A
  parsed : A → Raw A

-- `if raw != nil { x = raw }`
abbrev pub override_raw {ℓ} : {A : Type ℓ} → Raw A → Raw A → Raw A
override_raw absent old = old
override_raw new old = new

pub data Float64 : Type 0 where
  nan : Float64
  at_rank : ℕ → Float64

-- v > t
unfoldable pub gt_float : Float64 → Float64 → Bool
gt_float (at_rank a) (at_rank b) = ltb b a
gt_float _ _ = false

-- v >= t
unfoldable pub ge_float : Float64 → Float64 → Bool
ge_float (at_rank a) (at_rank b) = leb b a
ge_float _ _ = false

-- v < t
unfoldable pub lt_float : Float64 → Float64 → Bool
lt_float (at_rank a) (at_rank b) = ltb a b
lt_float _ _ = false

-- v <= t
unfoldable pub le_float : Float64 → Float64 → Bool
le_float (at_rank a) (at_rank b) = leb a b
le_float _ _ = false

-- v == t
unfoldable pub eq_float : Float64 → Float64 → Bool
eq_float (at_rank a) (at_rank b) = nat_eq a b
eq_float _ _ = false

-- v != t
unfoldable pub ne_float : Float64 → Float64 → Bool
unfolding eq_float
ne_float a b = not (eq_float a b)
