-- ===== src/Postgres.antt =====
-- internal/adapter/driven/postgres: the repositories over the tables of Db.
pub mod Texts
pub mod Alerts
pub mod Executions
pub mod Workflows
pub mod Rules
pub mod Order
pub mod Joining
pub mod Pages
pub mod Missing
pub mod Storing
pub mod Advance
pub mod Moving
use orchestrix_api.Common.{ℕ, Option, none, some, List, map, if◌then◌else◌, ◌==◌ as nat_eq}
use orchestrix_api.Fault.{Error, sentinel, other, Result, ok, err}
use orchestrix_api.Domain.Errors.{DomainError}
use orchestrix_api.Domain.Values.{Uuid, nil_uuid}
use orchestrix_api.Db.{Fetched, row, no_rows, broken}

-- workflow.go
unfoldable pub uuid_to_pgtype : Option Uuid → Option Uuid
uuid_to_pgtype none = none
uuid_to_pgtype (some id) = if nat_eq id nil_uuid then none else some id

-- pgx.ErrNoRows
abbrev pub no_rows_error : Error
no_rows_error = other "no rows in result set"

-- The end of a FindByID.
abbrev pub found : {A B : Type 0} → DomainError → (A → B) → Fetched A → Result B
found e f (row a) = ok (f a)
found e f no_rows = err (sentinel e)
found e f (broken x) = err x

-- `_, err := ...; return err`
abbrev pub error_of : {A : Type 0} → Fetched A → Result (Unit {0})
error_of (row a) = ok tt
error_of no_rows = err no_rows_error
error_of (broken x) = err x

-- The loop over the rows of a list.
abbrev pub each : {A B : Type 0} → (A → B) → Result (List A) → Result (List B)
each f (ok rs) = ok (map f rs)
each f (err e) = err e
