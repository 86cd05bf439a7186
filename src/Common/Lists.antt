-- ===== src/Common/Lists.antt =====
-- Lists over the native numbers, and association lists for Go's maps.
use Prim.Native.Nat.{ℕ, suc, ◌+◌, ◌≤◌}
use Prim.Native.String.{String}
use mathlib.Core.Path.{◌≡◌, refl}
use mathlib.Core.Bool.{Bool, true, false}
use mathlib.Core.Option.{Option, none, some}
use mathlib.Core.List.{List, [], ◌∷◌, ◌++◌, map}
use native.Mathlib.Omega.{arith}
use text.Mathlib.Text.{◌==◌}
use text.Mathlib.TextEquality.{eq_iff}
use orchestrix_api.Common.Tests.{if◌then◌else◌}

module _ {ℓ} {A : Type ℓ} where
  abbrev pub length : List A → ℕ
  length [] = 0
  length (x ∷ xs) = suc (length xs)

  abbrev pub is_empty : List A → Bool
  is_empty [] = true
  is_empty (x ∷ xs) = false

  -- how many elements pass a test
  abbrev pub count_if : (A → Bool) → List A → ℕ
  count_if p [] = 0
  count_if p (x ∷ xs) = if p x then suc (count_if p xs) else count_if p xs

  pub length-append : (xs ys : List A) → length (xs ++ ys) ≡ length xs + length ys
  length-append [] ys = omega arith
  length-append (x ∷ xs) ys = omega (arith, length-append xs ys)

  pub count_if-append :
      (p : A → Bool) (xs ys : List A) → count_if p (xs ++ ys) ≡ count_if p xs + count_if p ys
  count_if-append p [] ys = omega arith
  count_if-append p (x ∷ xs) ys = ground (arith, count_if-append p xs ys)

module _ {ℓ κ} {A : Type ℓ} (P : A → Type κ) where
  abbrev pub All : List A → Type κ
  All [] = Unit
  All (x ∷ xs) = P x × All xs

pub length-map {ℓ κ} :
    {A : Type ℓ} {B : Type κ} (f : A → B) (xs : List A) → length (map f xs) ≡ length xs
length-map f [] = refl
length-map f (x ∷ xs) = omega (arith, length-map f xs)

-- A Go map with string keys: a later write to a key takes the place of the earlier one.
module _ {ℓ} {V : Type ℓ} where
  unfoldable pub lookup : String → List (String × V) → Option V
  lookup key [] = none
  lookup key ((found, value) ∷ rest) = if found == key then some value else lookup key rest

  unfoldable pub insert : String → V → List (String × V) → List (String × V)
  insert key new [] = (key, new) ∷ []
  insert key new ((found, old) ∷ rest) =
      if found == key then (key, new) ∷ rest else (found, old) ∷ insert key new rest

  pub lookup-insert :
      (written wanted : String) (new : V) (entries : List (String × V))
      → lookup wanted (insert written new entries)
        ≡ (if written == wanted then some new else lookup wanted entries)
  unfolding lookup insert
  lookup-insert written wanted new [] = refl
  lookup-insert written wanted new ((found, old) ∷ rest) = ground (
    arith,
    lookup-insert written wanted new rest,
    eq_iff written wanted,
    eq_iff found written,
    eq_iff found wanted,
  )

  pub lookup-nil : (k : String) → lookup k [] ≡ none
  unfolding lookup
  lookup-nil k = refl

  -- how many entries stand under a key
  abbrev pub entries_of : String → List (String × V) → ℕ
  entries_of k m = count_if (λ e. e.0 == k) m

  pub entries_of-insert :
      (n k : String) (v : V) (m : List (String × V))
      → entries_of k m ≤ 1
      → entries_of n (insert k v m) ≡ (if k == n then 1 else entries_of n m)
  unfolding insert
  entries_of-insert n k v [] le = ground arith
  entries_of-insert n k v ((j, w) ∷ m) le =
      ground (arith, eq_iff k n, eq_iff j k, eq_iff j n, entries_of-insert n k v m)

  pub lookup-cons :
      (k j : String) (v : V) (m : List (String × V))
      → lookup k ((j, v) ∷ m) ≡ (if j == k then some v else lookup k m)
  unfolding lookup
  lookup-cons k j v m = refl

  pub lookup-absent : (k : String) (m : List (String × V)) → entries_of k m ≡ 0 → lookup k m ≡ none
  unfolding lookup
  lookup-absent k [] q = refl
  lookup-absent k ((j, v) ∷ m) q = ground (arith, lookup-absent k m)
