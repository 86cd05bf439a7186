-- ===== src/Postgres/Joining.antt =====
-- The pages of a list, one after another.
use orchestrix_api.Common.{
  ℕ, zero, suc, ◌≡◌, ap, ap₂, sym, ◌∙◌, ◌<◌, ◌+◌, ◌*◌, ◌^◌, none, List, [], ◌++◌, map, pos,
  page_offset, page_offset-small, arith,
}
use mathlib.Core.List.{map-append}
use orchestrix_api.Fault.{Result, ok, err}
use orchestrix_api.Db.{Session, page, take, drop, answer}
use orchestrix_api.Db.Reading.{take-append, page-small}
use orchestrix_api.Postgres.{each}

abbrev pub append : {A : Type 0} → Result (List A) → Result (List A) → Result (List A)
append (ok xs) (ok ys) = ok (xs ++ ys)
append (ok xs) (err e) = err e
append (err e) r = err e

-- The first pages, one after another.
abbrev pub joined : {A : Type 0} → (ℕ → Result (List A)) → ℕ → Result (List A)
joined pages zero = ok []
joined pages (suc k) = append (joined pages k) (pages k)

module _ {A B : Type 0} (f : A → B) (s : ℕ → Session) (n : ℕ) (xs : List A) (arranged : ℕ → List A)
    (same : (i : ℕ) → arranged i ≡ xs) (up : (i : ℕ) → (s i).fault ≡ none) where
  -- The i-th page, as the services ask for it.
  abbrev pub asked_page : ℕ → Result (List B)
  asked_page i =
      each f
        (answer (s i).fault (page (s i) (pos n) (page_offset (pos (suc i)) (pos n)) (arranged i)))

  one_page :
      (k : ℕ)
      → n < 2 ^ 31
      → k < 2 ^ 31
      → k * n < 2 ^ 31
      → asked_page k ≡ ok (map f (take n (drop (k * n) xs)))
  one_page k small few fits =
      let asked : page_offset (pos (suc k)) (pos n) ≡ pos (k * n) =
        page_offset-small k n (omega arith) (omega arith) in
      ap
        (λ x.
          each f (answer x (page (s k) (pos n) (page_offset (pos (suc k)) (pos n)) (arranged k))))
        (up k)
      ∙ ap (λ m. each f (page (s k) (pos n) m (arranged k))) asked
      ∙ ap (λ rs. each f (page (s k) (pos n) (pos (k * n)) rs)) (same k)
      ∙ ap (λ r. each f r) (page-small (s k) n (k * n) xs small fits)

  pub joined_pages :
      (k : ℕ)
      → n < 2 ^ 31
      → k < 2 ^ 31
      → k * n < 2 ^ 31
      → joined asked_page k ≡ ok (map f (take (k * n) xs))
  unfolding take
  joined_pages zero small few fits =
      let e : 0 ≡ 0 * n = omega arith in ap (λ (m : ℕ). ok (map f (take m xs))) e
  joined_pages (suc k) small few fits =
      let less : k * n < 2 ^ 31 = grind arith in
      let e : k * n + n ≡ suc k * n = grind arith in
      ap₂ append (joined_pages k small (omega arith) less) (one_page k small (omega arith) less)
      ∙ ap (λ ys. ok ys) (sym (map-append f (take (k * n) xs) (take n (drop (k * n) xs))))
      ∙ ap (λ ys. ok (map f ys)) (take-append (k * n) n xs)
      ∙ ap (λ (m : ℕ). ok (map f (take m xs))) e
