-- ===== src/Db/Reading.antt =====
-- What the statements leave to be read: rows by a key after a change, and pages of rows.
use orchestrix_api.Common.{
  ℕ, zero, suc, ◌≡◌, refl, ap, sym, subst, ◌^◌, ◌∙◌, ◌≤◌, ◌<◌, ◌+◌, Bool, true, false, Bool-cases,
  inl, inr, List, [], ◌∷◌, ◌++◌, length, All, ℤ, pos, wrap, wrap_32-small, arith, pos_part,
}
use orchestrix_api.Fault.{ok}
use orchestrix_api.Db.{
  Session, Fetched, row, no_rows, broken, first, select, modify, drop, take, page,
}

abbrev pub fetched : {A : Type 0} → (A → A) → Fetched A → Fetched A
fetched f (row a) = row (f a)
fetched f no_rows = no_rows
fetched f (broken e) = broken e

module _ {A : Type 0} (p : A → Bool) where
  pub select-All : (rs : List A) → All (λ r. p r ≡ true) (select p rs)
  unfolding select
  select-All [] = tt
  select-All (r ∷ rs) = elim (Bool-cases (p r)) [
    | inl q ↦ rw q (q, select-All rs)
    | inr q ↦ rw q (select-All rs)
  ]

  -- Rows that all fail a test are no rows.
  pub select-none : (rs : List A) → All (λ r. p r ≡ false) rs → select p rs ≡ []
  unfolding select
  select-none [] all = refl
  select-none (r ∷ rs) (q, all) = rw q (select-none rs all)

  -- A row that a change keeps under its key is read changed.
  pub first-modify :
      (f : A → A)
      → ((r : A) → p r ≡ true → p (f r) ≡ true)
      → (rs : List A) → first (select p (modify p f rs)) ≡ fetched f (first (select p rs))
  unfolding select modify
  first-modify f keep [] = refl
  first-modify f keep (r ∷ rs) = elim (Bool-cases (p r)) [
    | inl q ↦ rw (q, keep r q) refl
    | inr q ↦ rw (q, q) (first-modify f keep rs)
  ]

  -- A change of rows that are not there changes nothing.
  pub modify-none : (f : A → A) (rs : List A) → All (λ r. p r ≡ false) rs → modify p f rs ≡ rs
  unfolding modify
  modify-none f [] all = refl
  modify-none f (r ∷ rs) (q, all) = rw (q, modify-none f rs all) refl

module _ {A : Type 0} where
  pub length-take : (n : ℕ) (rs : List A) → length (take n rs) ≤ n
  unfolding take
  length-take zero rs = omega arith
  length-take (suc n) [] = omega arith
  length-take (suc n) (r ∷ rs) = omega (arith, length-take n rs)

  pub take-nil : (n : ℕ) → take {A = A} n [] ≡ []
  unfolding take
  take-nil zero = refl
  take-nil (suc n) = refl

  -- What is taken, and then taken after it, is taken at once.
  pub take-append : (m n : ℕ) (rs : List A) → take m rs ++ take n (drop m rs) ≡ take (m + n) rs
  unfolding take drop
  take-append m n [] = rw (take-nil m, take-nil n, take-nil (m + n)) refl
  take-append zero n (r ∷ rs) = let e : n ≡ 0 + n = omega arith in ap (λ (k : ℕ). take k (r ∷ rs)) e
  take-append (suc m) n (r ∷ rs) =
      let e : suc (m + n) ≡ suc m + n = omega arith in
      ap (λ xs. r ∷ xs) (take-append m n rs) ∙ ap (λ (k : ℕ). take k (r ∷ rs)) e

  pub take-all : (n : ℕ) (rs : List A) → length rs ≤ n → take n rs ≡ rs
  unfolding take
  take-all zero [] le = refl
  take-all zero (r ∷ rs) le = absurd (omega arith)
  take-all (suc n) [] le = refl
  take-all (suc n) (r ∷ rs) le = ap (λ xs. r ∷ xs) (take-all n rs (omega arith))

module _ {ℓ} {A : Type 0} (P : A → Type ℓ) where
  pub All-take : (n : ℕ) (rs : List A) → All P rs → All P (take n rs)
  unfolding take
  All-take zero rs all = tt
  All-take (suc n) [] all = tt
  All-take (suc n) (r ∷ rs) (q, all) = (q, All-take n rs all)

  pub All-drop : (n : ℕ) (rs : List A) → All P rs → All P (drop n rs)
  unfolding drop
  All-drop n [] all = tt
  All-drop zero (r ∷ rs) all = all
  All-drop (suc n) (r ∷ rs) (q, all) = All-drop n rs all

-- A page that the database gives has no more rows than its limit, and only rows of the ones that it
-- is taken from.
pub record IsPage {ℓ} {A : Type 0} (P : A → Type ℓ) (limit : ℕ) (page : List A) : Type ℓ where
  pub bounded : length page ≤ limit
  pub selected : All P page

page-eq-ok :
    {A : Type 0} (s : Session) (limit offset : ℤ) (rs : List A) {page' : List A}
    → page s limit offset rs ≡ ok page'
    → page' ≡ take (pos_part (wrap 32 limit)) (drop (pos_part (wrap 32 offset)) rs)
unfolding page
page-eq-ok s limit offset rs q = ground arith

pub page-IsPage {ℓ} :
    {A : Type 0} (P : A → Type ℓ) (s : Session) (limit offset : ℤ) (rs : List A) {page' : List A}
    → All P rs
    → page s limit offset rs ≡ ok page'
    → IsPage P (pos_part (wrap 32 limit)) page'
page-IsPage {A} P s limit offset rs all q =
    subst (λ (xs : List A). IsPage P (pos_part (wrap 32 limit)) xs)
      (sym (page-eq-ok s limit offset rs q))
      (record {
        bounded = length-take (pos_part (wrap 32 limit)) _;
        selected = All-take P (pos_part (wrap 32 limit)) _ (All-drop P _ rs all);
      })

-- Without an overflow of the range a page is there, and is the part of the rows that it is meant to be.
pub page-small :
    {A : Type 0} (s : Session) (n m : ℕ) (rs : List A)
    → n < 2 ^ 31
    → m < 2 ^ 31
    → page s (pos n) (pos m) rs ≡ ok (take n (drop m rs))
unfolding page
page-small s n m rs small_n small_m =
    rw (wrap_32-small n small_n, wrap_32-small m small_m) (ground arith)
