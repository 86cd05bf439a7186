-- ===== src/Postgres/Order.antt =====
-- The order of the rows of a list: ORDER BY created_at DESC.
use orchestrix_api.Common.{
  ℕ, ◌≡◌, ◌≢◌, refl, ap, ap₂, sym, ◌∙◌, subst, ◌≤◌, List, [], ◌∷◌, arith, All, Bool-cases, inl, inr,
  leb, if◌then◌else◌,
}
use mathlib.Core.List.{Permᴰ}
use orchestrix_api.Domain.Values.{Time}

module _ {A : Type 0} (P : A → Type 0) where
  All-Permᴰ : {xs ys : List A} → Permᴰ xs ys → All P xs → All P ys
  All-Permᴰ Permᴰ.nil all = tt
  All-Permᴰ (Permᴰ.cons e p) (q, all) = (subst P e q, All-Permᴰ p all)
  All-Permᴰ (Permᴰ.swap e f) (q, (r, all)) = (subst P f r, (subst P e q, all))
  All-Permᴰ (Permᴰ.trans p q) all = All-Permᴰ q (All-Permᴰ p all)

module _ {A : Type 0} (created_at : A → Time) where
  -- Each row is at least as new as the ones after it.
  abbrev pub IsDescending : List A → Type 0
  IsDescending [] = Unit
  IsDescending (x ∷ xs) = All (λ y. created_at y ≤ created_at x) xs × IsDescending xs

  -- What ORDER BY created_at DESC may give: the rows, each as often as it is there, newest first.
  pub record IsNewestFirst (rs xs : List A) : Type 0 where
    pub permuted : Permᴰ rs xs
    pub descending : IsDescending xs

  -- No two of the rows were made at the same time.
  abbrev pub HasDistinctTimes : List A → Type 0
  HasDistinctTimes [] = Unit
  HasDistinctTimes (x ∷ xs) = All (λ y. created_at x ≢ created_at y) xs × HasDistinctTimes xs

  HasDistinctTimes-Permᴰ :
      {xs ys : List A} → Permᴰ xs ys → HasDistinctTimes xs → HasDistinctTimes ys
  HasDistinctTimes-Permᴰ Permᴰ.nil d = tt
  HasDistinctTimes-Permᴰ (Permᴰ.cons {l₂} e p) (n, d) = (
    subst (λ a. All (λ y. created_at a ≢ created_at y) l₂) e
        (All-Permᴰ (λ y. created_at _ ≢ created_at y) p n),
    HasDistinctTimes-Permᴰ p d,
  )
  HasDistinctTimes-Permᴰ (Permᴰ.swap {l} e f) ((ab, al), (bl, d)) = (
    (
      (λ q. ab (ap created_at e ∙ sym q ∙ sym (ap created_at f))),
      subst (λ b. All (λ y. created_at b ≢ created_at y) l) f bl,
    ),
    (subst (λ a. All (λ y. created_at a ≢ created_at y) l) e al, d),
  )
  HasDistinctTimes-Permᴰ (Permᴰ.trans p q) d = HasDistinctTimes-Permᴰ q (HasDistinctTimes-Permᴰ p d)

  -- The sort by insertion, newest first.
  unfoldable insert : A → List A → List A
  insert x [] = x ∷ []
  insert x (y ∷ ys) =
      let rest = insert x ys in if leb (created_at y) (created_at x) then x ∷ y ∷ ys else y ∷ rest

  unfoldable sort : List A → List A
  unfolding insert
  sort [] = []
  sort (x ∷ xs) = insert x (sort xs)

  insert_comm :
      (x y : A) (zs : List A)
      → created_at x ≢ created_at y
      → insert x (insert y zs) ≡ insert y (insert x zs)
  unfolding insert
  insert_comm x y [] n = elim (Bool-cases (leb (created_at y) (created_at x))) [
    | inl a ↦ elim (Bool-cases (leb (created_at x) (created_at y))) [
      | inl b ↦ absurd (n (ground arith))
      | inr b ↦ rw (a, b) refl
    ]
    | inr a ↦ elim (Bool-cases (leb (created_at x) (created_at y))) [
      | inl b ↦ rw (a, b) refl
      | inr b ↦ absurd (ground arith)
    ]
  ]
  insert_comm x y (z ∷ zs) n = grind (arith, insert_comm x y zs n)

  sort-Permᴰ : {xs ys : List A} → Permᴰ xs ys → HasDistinctTimes xs → sort xs ≡ sort ys
  unfolding sort
  sort-Permᴰ Permᴰ.nil d = refl
  sort-Permᴰ (Permᴰ.cons e p) (n, d) = ap₂ (λ z zs. insert z zs) e (sort-Permᴰ p d)
  sort-Permᴰ (Permᴰ.swap {a} {b} {l = l} e f) ((ab, al), d) =
      insert_comm a b (sort l) ab ∙ ap₂ (λ z w. insert z (insert w (sort l))) f e
  sort-Permᴰ (Permᴰ.trans p q) d = sort-Permᴰ p d ∙ sort-Permᴰ q (HasDistinctTimes-Permᴰ p d)

  sort-IsDescending : (xs : List A) → IsDescending xs → sort xs ≡ xs
  unfolding sort insert
  sort-IsDescending [] d = refl
  sort-IsDescending (x ∷ []) d = refl
  sort-IsDescending (x ∷ y ∷ ys) ((le, n), d) =
      ap (λ zs. insert x zs) (sort-IsDescending (y ∷ ys) d) ∙ ground arith

  -- There is just one such order of rows made at different times.
  newest_first_unique :
      (rs xs ys : List A)
      → HasDistinctTimes rs
      → IsNewestFirst rs xs
      → IsNewestFirst rs ys
      → xs ≡ ys
  newest_first_unique rs xs ys distinct nx ny =
      sym (sort-IsDescending xs nx.descending)
      ∙ sym (sort-Permᴰ nx.permuted distinct)
      ∙ sort-Permᴰ ny.permuted distinct
      ∙ sort-IsDescending ys ny.descending

-- What the database does for ORDER BY created_at DESC, in the query of each page: it gives all the rows,
-- newest first. No two of them were made at the same time, and `xs` has them in that order.
pub record AreNewestFirst {A : Type 0} (created_at : A → Time) (arrange : ℕ → List A → List A)
    (rs xs : List A) : Type 0 where
  pub distinct : HasDistinctTimes created_at rs
  pub whole : IsNewestFirst created_at rs xs
  pub paged : (i : ℕ) → IsNewestFirst created_at rs (arrange i rs)

-- The orders of the pages are one order.
pub newest_first_all :
    {A : Type 0} (created_at : A → Time) (arrange : ℕ → List A → List A) (rs xs : List A)
    → AreNewestFirst created_at arrange rs xs
    → (i : ℕ) → arrange i rs ≡ xs
newest_first_all created_at arrange rs xs o i =
    newest_first_unique created_at rs (arrange i rs) xs o.distinct (o.paged i) o.whole
