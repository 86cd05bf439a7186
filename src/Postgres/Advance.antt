-- ===== src/Postgres/Advance.antt =====
-- How the alerts that a table of rows stands for may move on, statement by statement.
use orchestrix_api.Common.{
  ◌≤◌, ◌≡◌, ◌≢◌, refl, sym, ◌∙◌, false, Option, none, some, inl, inr, ap, subst, Bool-cases, List,
  [], ◌∷◌, ◌==◌, ==_iff, arith, if◌then◌else◌,
}
use orchestrix_api.Fault.{Error}
use orchestrix_api.Domain.Values.{Uuid}
use orchestrix_api.Domain.Alert.{Alert}
use orchestrix_api.Domain.Alert.Lifecycle.{IsConsistent, stage}
use orchestrix_api.Db.{Fetched, row, no_rows, broken, first, select, modify, change}
use orchestrix_api.Db.Rows.{AlertRow}
use orchestrix_api.Db.Alerts.{has_id}
use orchestrix_api.Db.Reading.{fetched, first-modify}
use orchestrix_api.Postgres.Alerts as Alerts

abbrev read_as : Fetched AlertRow → Option Alert
read_as (row r) = some (Alerts.to_domain r)
read_as no_rows = none
read_as (broken e) = none

-- The alert that a row of the table stands for.
abbrev pub entry : List AlertRow → Uuid → Option Alert
entry rs id = read_as (first (select (has_id id) rs))

abbrev pub AllConsistent : (Uuid → Option Alert) → Type 0
AllConsistent f = (id : Uuid) (a : Alert) → f id ≡ some a → IsConsistent a

-- What each id stands for has moved on from `f` to `g`: the alerts stay consistent, if the users are
-- named, none is lost, and no stage goes back.
pub record Advance (Named : Type 0) (f g : Uuid → Option Alert) : Type 0 where
  pub consistent : Named → AllConsistent f → AllConsistent g
  pub progress :
      (id : Uuid) (a : Alert)
      → f id ≡ some a
      → (b : Alert) × (g id ≡ some b) × (stage a.status ≤ stage b.status)

pub Advance-refl : (N : Type 0) (f : Uuid → Option Alert) → Advance N f f
Advance-refl N f = record { consistent = λ n all. all; progress = λ id a e. (a, e, omega arith) }

pub Advance-trans :
    (M N : Type 0) (f g k : Uuid → Option Alert)
    → Advance M f g
    → Advance N g k
    → Advance (M × N) f k
Advance-trans M N f g k x y = record {
  consistent = λ (m, n) all. y.consistent n (x.consistent m all);
  progress = λ id a e.
      let (b, eb, le) = x.progress id a e in
      let (c, ec, le') = y.progress id b eb in (c, ec, omega arith);
}

-- One more alert that is consistent and no step back.
pub write-Advance :
    (N : Type 0) (f g : Uuid → Option Alert) (k : Uuid) (b : Alert)
    → ((id : Uuid) → g id ≡ (if k == id then some b else f id))
    → (N → AllConsistent f → IsConsistent b)
    → ((a : Alert) → f k ≡ some a → stage a.status ≤ stage b.status)
    → Advance N f g
write-Advance N f g k b written good further = record {
  consistent = λ n all id a e. elim (Bool-cases (k == id)) [
    | inl same ↦
        subst IsConsistent (cc (written id, ap (λ t. if t then some b else f id) same)) (good n all)
    | inr other ↦ all id a (cc (written id, ap (λ t. if t then some b else f id) other))
  ];
  progress = λ id a e. elim (Bool-cases (k == id)) [
    | inl same ↦ (
      b,
      cc (written id, ap (λ t. if t then some b else f id) same),
      further a (ground (arith, e)),
    )
    | inr other ↦ (a, cc (written id, ap (λ t. if t then some b else f id) other), omega arith)
  ];
}

-- A statement that fails leaves the table.
pub change-Advance :
    {B : Type 0} (N : Type 0) (fault : Option Error) (b : B) (failed : Error → B)
    (rs rs' : List AlertRow)
    → Advance N (λ id. entry rs id) (λ id. entry rs' id)
    → Advance N (λ id. entry rs id) (λ id. entry (change fault (b, rs') failed rs).1 id)
change-Advance N none b failed rs rs' a = a
change-Advance N (some e) b failed rs rs' a = Advance-refl N (λ id. entry rs id)

-- An INSERT under an ID that no row has.
pub inserted-Advance :
    (N : Type 0) (rs : List AlertRow) (r : AlertRow)
    → first (select (has_id r.id) rs) ≡ no_rows
    → IsConsistent (Alerts.to_domain r)
    → Advance N (λ id. entry rs id) (λ id. entry (r ∷ rs) id)
unfolding select
inserted-Advance N rs r absent good =
    write-Advance N (λ id. entry rs id) (λ id. entry (r ∷ rs) id) r.id (Alerts.to_domain r)
      (λ id. elim (Bool-cases (r.id == id)) [ inl q ↦ rw q refl | inr q ↦ rw q refl ])
      (λ n all. good) (λ a e. absurd (none≢some (sym (ap read_as absent) ∙ e)))
  where
    none≢some : {a : Alert} → none ≢ some a
    none≢some q = cc

-- The rows after an UPDATE by ID that keeps the IDs.
first-modify_other :
    (f : AlertRow → AlertRow) (k id : Uuid)
    → ((x : AlertRow) → (f x).id ≡ x.id)
    → (k == id) ≡ false
    → (rs : List AlertRow)
    → first (select (has_id id) (modify (has_id k) f rs)) ≡ first (select (has_id id) rs)
unfolding select modify
first-modify_other f k id keep other [] = refl
first-modify_other f k id keep other (r ∷ rs) = elim (Bool-cases (r.id == k)) [
  | inl q ↦
      let away : (r.id == id) ≡ false =
        subst (λ j. (j == id) ≡ false) (sym ((==_iff r.id k).0 q)) other in
      rw (q, keep r, away) (first-modify_other f k id keep other rs)
  | inr q ↦ elim (Bool-cases (r.id == id)) [
    | inl same ↦ rw (q, same) refl
    | inr away ↦ rw (q, away) (first-modify_other f k id keep other rs)
  ]
]

pub updated-Advance :
    (N : Type 0) (rs : List AlertRow) (k : Uuid) (r : AlertRow) (f : AlertRow → AlertRow)
    → ((x : AlertRow) → (f x).id ≡ x.id)
    → first (select (has_id k) rs) ≡ row r
    → (N → IsConsistent (Alerts.to_domain r) → IsConsistent (Alerts.to_domain (f r)))
    → stage (Alerts.to_domain r).status ≤ stage (Alerts.to_domain (f r)).status
    → Advance N (λ id. entry rs id) (λ id. entry (modify (has_id k) f rs) id)
updated-Advance N rs k r f keep at good further =
    write-Advance N (λ id. entry rs id) (λ id. entry (modify (has_id k) f rs) id) k
      (Alerts.to_domain (f r)) written
      (λ n all. good n (all k (Alerts.to_domain r) (ap read_as at)))
      (λ a e.
        let same : Alerts.to_domain r ≡ a = cc (sym (ap read_as at) ∙ e) in
        subst (λ b. stage b.status ≤ stage (Alerts.to_domain (f r)).status) same further)
  where
    here : entry (modify (has_id k) f rs) k ≡ some (Alerts.to_domain (f r))
    here =
        ap read_as (first-modify (has_id k) f (λ x q. rw (keep x) q) rs ∙ ap (λ x. fetched f x) at)

    written :
        (id : Uuid)
        → entry (modify (has_id k) f rs) id
          ≡ (if k == id then some (Alerts.to_domain (f r)) else entry rs id)
    written id = elim (Bool-cases (k == id)) [
      | inl q ↦ rw q (
          subst (λ j. entry (modify (has_id k) f rs) j ≡ some (Alerts.to_domain (f r)))
            ((==_iff k id).0 q) here)
      | inr q ↦ rw q (ap read_as (first-modify_other f k id keep q rs))
    ]
