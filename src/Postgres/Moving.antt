-- ===== src/Postgres/Moving.antt =====
-- How the alerts of the table move on under the updates of the repository.
use orchestrix_api.Common.{
  ◌≤◌, ◌≡◌, ◌≢◌, refl, sym, ◌∙◌, true, Option, none, some, inl, inr, ap, subst, Bool-cases, List,
  [], ◌∷◌, ◌==◌, ==_iff, arith,
}
use orchestrix_api.Fault.{Error, ok}
use orchestrix_api.Domain.Errors.{alert_not_found}
use orchestrix_api.Domain.Values.{Uuid, nil_uuid, Time}
use orchestrix_api.Domain.Alert as Domain
use orchestrix_api.Domain.Alert.{Alert, can_acknowledge, can_resolve}
use orchestrix_api.Domain.Alert.Lifecycle.{
  IsConsistent, stage, Action, acknowledging, resolving, act, act-IsConsistent, stage-act,
}
use orchestrix_api.Port.Inputs.{CreateAlertInput}
use orchestrix_api.Service.Alert.{new_alert}
use orchestrix_api.Db.{Session, Fetched, row, no_rows, broken, first, select, modify, fetch}
use orchestrix_api.Db.Rows.{AlertRow}
use orchestrix_api.Db.Alerts.{
  get_alert, has_id, create_alert, acknowledge_alert, resolve_alert, acknowledged_row, resolved_row,
}
use orchestrix_api.Postgres.{uuid_to_pgtype, found}
use orchestrix_api.Postgres.Alerts as Alerts
use orchestrix_api.Postgres.Advance.{
  entry, Advance, change-Advance, inserted-Advance, updated-Advance,
}

-- A user that is not nil is written as it is.
named_as_is : (user : Uuid) → user ≢ nil_uuid → uuid_to_pgtype (some user) ≡ some user
unfolding uuid_to_pgtype
named_as_is user named = elim (Bool-cases (user == nil_uuid)) [
  | inl q ↦ absurd (named ((==_iff user nil_uuid).0 q))
  | inr q ↦ rw q refl
]

-- The row that an UPDATE leaves is what the domain makes of the alert at the time of the database.
module _ (s : Session) (user : Uuid) (r : AlertRow) where
  acknowledged-act :
      can_acknowledge (Alerts.to_domain r) ≡ true
      → Alerts.to_domain (acknowledged_row s (some user) r)
        ≡ (act (acknowledging s.now user) (Alerts.to_domain r)).1
  unfolding Alerts.to_domain Domain.acknowledge
  acknowledged-act can = rw can refl

  resolved-act :
      can_resolve (Alerts.to_domain r) ≡ true
      → Alerts.to_domain (resolved_row s (some user) r)
        ≡ (act (resolving s.now user) (Alerts.to_domain r)).1
  unfolding Alerts.to_domain Domain.resolve
  resolved-act can = rw can refl

-- What the domain makes of an alert is consistent and no step back, and so is it in the table.
moved-Advance :
    (x : Action) (named : Type 0) (rs : List AlertRow) (k : Uuid) (r : AlertRow)
    (f : Option Uuid → AlertRow → AlertRow) (user : Uuid)
    → (named → user ≢ nil_uuid)
    → ((u : Option Uuid) (y : AlertRow) → (f u y).id ≡ y.id)
    → ((u : Option Uuid)
        → (Alerts.to_domain (f u r)).status ≡ (Alerts.to_domain (f (some user) r)).status)
    → first (select (has_id k) rs) ≡ row r
    → Alerts.to_domain (f (some user) r) ≡ (act x (Alerts.to_domain r)).1
    → Advance named
        (λ id. entry rs id)
        (λ id. entry (modify (has_id k) (f (uuid_to_pgtype (some user))) rs) id)
moved-Advance x named rs k r f user given keep status at e =
    updated-Advance named rs k r (f (uuid_to_pgtype (some user))) (keep _) at
      (λ n c.
        subst (λ u. IsConsistent (Alerts.to_domain (f u r))) (sym (named_as_is user (given n)))
          (subst IsConsistent (sym e) (act-IsConsistent x (Alerts.to_domain r) c)))
      (subst (λ t. stage (Alerts.to_domain r).status ≤ stage t)
        (sym (status (uuid_to_pgtype (some user)) ∙ ap (λ a. a.status) e))
        (stage-act x (Alerts.to_domain r)))

some≢none : {A : Type 0} {a : A} → some a ≢ none
some≢none q = cc

module _ (s : Session) (rs : List AlertRow) (r : AlertRow) (t : Time) (user : Uuid)
    (at : first (select (has_id r.id) rs) ≡ row r) where
  acknowledge-Advance :
      (Domain.acknowledge t user (Alerts.to_domain r)).0 ≡ none
      → Advance
          (user ≢ nil_uuid)
          (λ id. entry rs id)
          (λ id. entry (Alerts.update s (Domain.acknowledge t user (Alerts.to_domain r)).1 rs).1 id)
  unfolding Domain.acknowledge Alerts.update Alerts.update_to Alerts.acknowledging acknowledge_alert
      Alerts.to_domain
  acknowledge-Advance done = elim (Bool-cases (can_acknowledge (Alerts.to_domain r))) [
    | inl can ↦ rw can (
        change-Advance (user ≢ nil_uuid) s.fault _ (λ e. broken e) rs _
          (moved-Advance (acknowledging s.now user) (user ≢ nil_uuid) rs r.id r (acknowledged_row s)
            user (λ n. n) (λ u y. refl) (λ u. refl) at (acknowledged-act s user r can)))
    | inr cannot ↦ absurd (some≢none (rw cannot at done))
  ]

  resolve-Advance :
      (Domain.resolve t user (Alerts.to_domain r)).0 ≡ none
      → Advance
          (user ≢ nil_uuid)
          (λ id. entry rs id)
          (λ id. entry (Alerts.update s (Domain.resolve t user (Alerts.to_domain r)).1 rs).1 id)
  unfolding Domain.resolve Alerts.update Alerts.update_to Alerts.resolving resolve_alert
      Alerts.to_domain
  resolve-Advance done = elim (Bool-cases (can_resolve (Alerts.to_domain r))) [
    | inl can ↦ rw can (
        change-Advance (user ≢ nil_uuid) s.fault _ (λ e. broken e) rs _
          (moved-Advance (resolving s.now user) (user ≢ nil_uuid) rs r.id r (resolved_row s) user
            (λ n. n) (λ u y. refl) (λ u. refl) at (resolved-act s user r can)))
    | inr cannot ↦ absurd (some≢none (rw cannot at done))
  ]

-- What FindByID finds is a row of the table, under the ID that it was asked for.
find_by_id-row :
    (s : Session) (id : Uuid) (rs : List AlertRow) (a : Alert)
    → Alerts.find_by_id s id rs ≡ ok a
    → (r : AlertRow) × (first (select (has_id id) rs) ≡ row r) × (a ≡ Alerts.to_domain r)
unfolding Alerts.find_by_id get_alert
find_by_id-row s id rs a q = go s.fault (first (select (has_id id) rs)) refl q
  where
    go :
        (fault : Option Error) (x : Fetched AlertRow)
        → first (select (has_id id) rs) ≡ x
        → found alert_not_found Alerts.to_domain (fetch fault x) ≡ ok a
        → (r : AlertRow) × (first (select (has_id id) rs) ≡ row r) × (a ≡ Alerts.to_domain r)
    go none (row r) e q = (r, e, cc q)
    go none no_rows e q = cc
    go none (broken x) e q = cc
    go (some x) y e q = cc

first-id :
    (id : Uuid) (rs : List AlertRow) (r : AlertRow)
    → first (select (has_id id) rs) ≡ row r
    → id ≡ r.id
unfolding select
first-id id [] r e = cc
first-id id (x ∷ rs) r e = elim (Bool-cases (x.id == id)) [
  | inl q ↦
      let same : x ≡ r = cc (rw q at e) in
      sym ((==_iff x.id id).0 q) ∙ ap (λ (y : AlertRow). y.id) same
  | inr q ↦ first-id id rs r (rw q at e)
]

-- The statements of the three requests.
module _ (s : Session) (rs : List AlertRow) where
  pub save-Advance :
      (N : Type 0) (id : Uuid) (now : Time) (input : CreateAlertInput)
      → first (select (has_id s.fresh) rs) ≡ no_rows
      → Advance N (λ i. entry rs i) (λ i. entry (Alerts.save s (new_alert id now input) rs).1 i)
  unfolding Alerts.save create_alert Alerts.to_domain
  save-Advance N id now input absent =
      change-Advance N s.fault _ (λ e. broken e) rs _
        (inserted-Advance N rs _ absent (ground arith))

  pub acknowledged-Advance :
      (s' : Session) (id user : Uuid) (t : Time) (a : Alert)
      → Alerts.find_by_id s' id rs ≡ ok a
      → (Domain.acknowledge t user a).0 ≡ none
      → Advance
          (user ≢ nil_uuid)
          (λ i. entry rs i)
          (λ i. entry (Alerts.update s (Domain.acknowledge t user a).1 rs).1 i)
  acknowledged-Advance s' id user t a q done =
      let (r, at, e) = find_by_id-row s' id rs a q in
      let at' = subst (λ j. first (select (has_id j) rs) ≡ row r) (first-id id rs r at) at in
      subst
        (λ b.
          Advance (user ≢ nil_uuid) (λ i. entry rs i)
            (λ i. entry (Alerts.update s (Domain.acknowledge t user b).1 rs).1 i))
        (sym e)
        (acknowledge-Advance s rs r t user at'
          (subst (λ b. (Domain.acknowledge t user b).0 ≡ none) e done))

  pub resolved-Advance :
      (s' : Session) (id user : Uuid) (t : Time) (a : Alert)
      → Alerts.find_by_id s' id rs ≡ ok a
      → (Domain.resolve t user a).0 ≡ none
      → Advance
          (user ≢ nil_uuid)
          (λ i. entry rs i)
          (λ i. entry (Alerts.update s (Domain.resolve t user a).1 rs).1 i)
  resolved-Advance s' id user t a q done =
      let (r, at, e) = find_by_id-row s' id rs a q in
      let at' = subst (λ j. first (select (has_id j) rs) ≡ row r) (first-id id rs r at) at in
      subst
        (λ b.
          Advance (user ≢ nil_uuid) (λ i. entry rs i)
            (λ i. entry (Alerts.update s (Domain.resolve t user b).1 rs).1 i))
        (sym e)
        (resolve-Advance s rs r t user at' (subst (λ b. (Domain.resolve t user b).0 ≡ none) e done))
