-- ===== src/Validation/Accepting.antt =====
-- Which values the checks with a condition of their own accept: they leave the validator as it is.
use orchestrix_api.Common.{
  ℕ, ◌≡◌, refl, ap, ◌∙◌, ◌≢◌, String, Bool, true, false, not, List, [], ◌∷◌, length, length-append,
  ◌↔◌, ◌⊎◌, inl, inr, arith, ℤ, pos, ltb_ℤ, ◌≤ℤ◌, Bool-cases, str_eq, eq_iff, if◌then◌else◌, ◌==◌,
  ◌||◌, All, ==_iff, if_elim,
}
use orchestrix_api.Validation.{
  Validator, Library, add_error, check, is_one_of, starts_with_at, cron_shortcuts, min_length,
  max_length, range, enum, cron_expression,
}

add_error≢ : (f m : String) (v : Validator) → add_error f m v ≢ v
unfolding add_error
add_error≢ f m v q =
    absurd (omega (arith, ap length q, length-append v (record { field = f; message = m } ∷ [])))

-- A check leaves the validator as it is exactly if it holds.
check_iff : (b : Bool) (f m : String) (v : Validator) → (check b f m v ≡ v) ↔ (b ≡ true)
check_iff true f m v = (λ q. refl, λ q. refl)
check_iff false f m v = (λ q. absurd (add_error≢ f m v q), λ q. cc)

-- A text is one of a list.
pub data IsIn (s : String) : List String → Type 0 where
  here : {a : String} {xs : List String} → s ≡ a → IsIn s (a ∷ xs)
  there : {a : String} {xs : List String} → IsIn s xs → IsIn s (a ∷ xs)

pub is_one_of-IsIn : (s : String) (xs : List String) → is_one_of s xs ≡ true → IsIn s xs
unfolding is_one_of
is_one_of-IsIn s [] q = cc
is_one_of-IsIn s (x ∷ xs) q = elim (Bool-cases (str_eq s x)) [
  | inl c ↦ here ((eq_iff s x).0 c)
  | inr c ↦ there (is_one_of-IsIn s xs (rw c at q))
]

pub IsIn-is_one_of : {s : String} {xs : List String} → IsIn s xs → is_one_of s xs ≡ true
unfolding is_one_of
IsIn-is_one_of {s} (here {a} {xs} q) = rw ((eq_iff s a).1 q) refl
IsIn-is_one_of {s} (there {a} {xs} m) = ground (arith, IsIn-is_one_of m)

-- Two equivalences in a row.
through : {A B C : Type 0} → A ↔ B → B ↔ C → A ↔ C
through p q = (λ a. q.0 (p.0 a), λ c. p.1 (q.1 c))

module _ (l : Library) (field value : String) (v : Validator) where
  enum_iff : (allowed : List String) → (enum l field value allowed v ≡ v) ↔ IsIn value allowed
  unfolding enum
  enum_iff allowed =
      through (check_iff (is_one_of value allowed) field _ v)
        (is_one_of-IsIn value allowed, λ m. IsIn-is_one_of m)

  range_iff : (n min max : ℤ) → (range l field n min max v ≡ v) ↔ ((min ≤ℤ n) × (n ≤ℤ max))
  unfolding range
  range_iff n min max =
      through (check_iff (not (ltb_ℤ n min || ltb_ℤ max n)) field _ v)
        ((λ q. ground arith), λ q. ground arith)

  min_length_iff :
      (min : ℤ) → (min_length l field value min v ≡ v) ↔ (min ≤ℤ pos (l.rune_count value))
  unfolding min_length
  min_length_iff min =
      through (check_iff (not (ltb_ℤ (pos (l.rune_count value)) min)) field _ v)
        ((λ q. ground arith), λ q. ground arith)

  max_length_iff :
      (max : ℤ) → (max_length l field value max v ≡ v) ↔ (pos (l.rune_count value) ≤ℤ max)
  unfolding max_length
  max_length_iff max =
      through (check_iff (not (ltb_ℤ max (pos (l.rune_count value)))) field _ v)
        ((λ q. ground arith), λ q. ground arith)

-- A cron expression as far as the check goes: nothing, a shortcut, or five or six fields.
pub data IsCron (l : Library) (value : String) : Type 0 where
  absent : value ≡ "" → IsCron l value
  shortcut : IsIn value cron_shortcuts → IsCron l value
  fields :
      starts_with_at value ≡ false
      → (l.field_count value ≡ 5) ⊎ (l.field_count value ≡ 6)
      → IsCron l value

IsIn-All :
    {s : String} {xs : List String} (P : String → Bool)
    → IsIn s xs
    → All (λ x. P x ≡ true) xs
    → P s ≡ true
IsIn-All P (here q) (p, all) = ap P q ∙ p
IsIn-All P (there m) (p, all) = IsIn-All P m all

shortcut-starts : (value : String) → IsIn value cron_shortcuts → starts_with_at value ≡ true
unfolding starts_with_at
shortcut-starts value m =
    IsIn-All (λ s. starts_with_at s) m (refl, (refl, (refl, (refl, (refl, (refl, (refl, tt)))))))

five_or_six : (n : ℕ) → ((n == 5 || n == 6) ≡ true) ↔ ((n ≡ 5) ⊎ (n ≡ 6))
five_or_six n = (to, from)
  where
    to : (n == 5 || n == 6) ≡ true → (n ≡ 5) ⊎ (n ≡ 6)
    to q = elim (Bool-cases (n == 5)) [
      | inl c ↦ inl ((==_iff n 5).0 c)
      | inr c ↦ inr ((==_iff n 6).0 (rw c at q))
    ]

    from : (n ≡ 5) ⊎ (n ≡ 6) → (n == 5 || n == 6) ≡ true
    from (inl q) = rw q refl
    from (inr q) = rw q refl

module _ (l : Library) (field value : String) (v : Validator) where
  cron_expression-IsCron : cron_expression l field value v ≡ v → IsCron l value
  unfolding cron_expression
  cron_expression-IsCron q = elim (Bool-cases (str_eq value "")) [
    | inl c ↦ absent ((eq_iff value "").0 c)
    | inr c ↦ elim (Bool-cases (starts_with_at value)) [
      | inl starts ↦ shortcut (
          is_one_of-IsIn value cron_shortcuts
            ((check_iff (is_one_of value cron_shortcuts) field _ v).0 (rw (c, starts) at q)))
      | inr starts ↦ fields starts (
          (five_or_six (l.field_count value)).0 (
            (check_iff (l.field_count value == 5 || l.field_count value == 6) field _ v).0
              (rw (c, starts) at q)))
    ]
  ]

  unless_empty :
      (rest : Validator)
      → (str_eq value "" ≡ false → rest ≡ v)
      → (if str_eq value "" then v else rest) ≡ v
  unless_empty rest h = if_elim (λ x. x ≡ v) (str_eq value "") v rest (λ c. refl) h

  IsCron-cron_expression : IsCron l value → cron_expression l field value v ≡ v
  unfolding cron_expression
  IsCron-cron_expression (absent q) = rw ((eq_iff value "").1 q) refl
  IsCron-cron_expression (shortcut m) =
      unless_empty _ (λ c. rw (shortcut-starts value m, IsIn-is_one_of m) refl)
  IsCron-cron_expression (fields starts n) =
      unless_empty _ (λ c. rw (starts, (five_or_six (l.field_count value)).1 n) refl)

-- The checks leave the validator without an error exactly for: a text that is one of the allowed ones,
-- a number in the range, a text of at least and of at most so many runes, and, for a cron expression,
-- a text that is empty, one of the shortcuts, or of five or six fields and without an @ in front.
pub accepts_iff :
    (l : Library) (field value : String) (v : Validator) (allowed : List String) (n min max : ℤ)
    → ((enum l field value allowed v ≡ v) ↔ IsIn value allowed)
      × ((range l field n min max v ≡ v) ↔ ((min ≤ℤ n) × (n ≤ℤ max)))
      × ((min_length l field value min v ≡ v) ↔ (min ≤ℤ pos (l.rune_count value)))
      × ((max_length l field value max v ≡ v) ↔ (pos (l.rune_count value) ≤ℤ max))
      × ((cron_expression l field value v ≡ v) ↔ IsCron l value)
accepts_iff l field value v allowed n min max = (
  enum_iff l field value v allowed,
  range_iff l field value v n min max,
  min_length_iff l field value v min,
  max_length_iff l field value v max,
  (cron_expression-IsCron l field value v, IsCron-cron_expression l field value v),
)
