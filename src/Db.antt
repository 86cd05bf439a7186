-- ===== src/Db.antt =====
-- internal/db: the tables behind the queries, as lists of rows, and what a statement does on one. A
-- query reads as its SQL says. What the database adds comes with each statement: the error if it
-- fails, a fresh `uuid_generate_v4()`, and `NOW()`.
pub mod Rows
pub mod Alerts
pub mod Executions
pub mod Workflows
pub mod Rules
pub mod Reading
use orchestrix_api.Common.{
  ℕ, zero, suc, Bool, true, false, Option, none, some, List, [], ◌∷◌, ℤ, pos, wrap, ltb_ℤ, pos_part,
  if◌then◌else◌,
}
use orchestrix_api.Fault.{Error, Result, ok, err}
use orchestrix_api.Domain.Values.{Uuid, Time}

pub record Session : Type 0 where
  pub fault : Option Error
  pub fresh : Uuid
  pub now : Time
  pub negative_range : Error

-- `row.Scan` of a query for one row: the row, `pgx.ErrNoRows`, or another error.
pub data Fetched {ℓ} (A : Type ℓ) : Type ℓ where
  row : A → Fetched A
  no_rows : Fetched A
  broken : Error → Fetched A

module _ {A : Type 0} where
  abbrev pub first : List A → Fetched A
  first [] = no_rows
  first (r ∷ rs) = row r

  -- WHERE
  unfoldable pub select : (A → Bool) → List A → List A
  select p [] = []
  select p (r ∷ rs) = if p r then r ∷ select p rs else select p rs

  -- UPDATE ... SET ... WHERE
  unfoldable pub modify : (A → Bool) → (A → A) → List A → List A
  modify p f [] = []
  modify p f (r ∷ rs) = (if p r then f r else r) ∷ modify p f rs

  -- DELETE ... WHERE
  unfoldable pub remove : (A → Bool) → List A → List A
  remove p [] = []
  remove p (r ∷ rs) = if p r then remove p rs else r ∷ remove p rs

  unfoldable pub drop : ℕ → List A → List A
  drop n [] = []
  drop zero (r ∷ rs) = r ∷ rs
  drop (suc n) (r ∷ rs) = drop n rs

  unfoldable pub take : ℕ → List A → List A
  take zero rs = []
  take (suc n) [] = []
  take (suc n) (r ∷ rs) = r ∷ take n rs

  -- LIMIT and OFFSET, which come as int32; the database refuses a negative one.
  unfoldable pub page : Session → ℤ → ℤ → List A → Result (List A)
  unfolding take drop
  page s limit offset rs =
      if ltb_ℤ (wrap 32 limit) (pos 0)
      then err s.negative_range
      else if ltb_ℤ (wrap 32 offset) (pos 0)
      then err s.negative_range
      else ok (take (pos_part (wrap 32 limit)) (drop (pos_part (wrap 32 offset)) rs))

-- A statement that fails changes nothing.
abbrev pub fetch : {A : Type 0} → Option Error → Fetched A → Fetched A
fetch none r = r
fetch (some e) r = broken e

abbrev pub answer : {A : Type 0} → Option Error → Result A → Result A
answer none r = r
answer (some e) r = err e

abbrev pub change : {A B : Type 0} → Option Error → B × List A → (Error → B) → List A → B × List A
change none r failed rs = r
change (some e) r failed rs = (failed e, rs)
