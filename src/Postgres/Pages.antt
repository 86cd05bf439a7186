-- ===== src/Postgres/Pages.antt =====
-- The lists by tenant of the repositories: whose entries they have, and how their pages fit together.
use orchestrix_api.Common.{
  ℕ, suc, ◌≡◌, refl, ◌∙◌, ◌<◌, ◌*◌, ◌^◌, Bool, true, Option, none, some, List, [], ◌∷◌, map,
  length-map, All, ℤ, pos, wrap, page_offset, pos_part, ==_iff, ◌==◌ as nat_eq,
}
use orchestrix_api.Fault.{Error, Result, ok, err}
use orchestrix_api.Domain.Values.{Uuid}
use orchestrix_api.Domain.Alert.{Alert}
use orchestrix_api.Domain.Execution.{Execution}
use orchestrix_api.Domain.Workflow.{Workflow}
use orchestrix_api.Domain.AlertRule.{AlertRule}
use orchestrix_api.Db.{Session, select, page, take, answer}
use orchestrix_api.Db.Rows.{AlertRow, ExecutionRow, WorkflowRow, AlertRuleRow}
use orchestrix_api.Db.Reading.{select-All, IsPage, page-IsPage}
use orchestrix_api.Postgres.{each}
use orchestrix_api.Postgres.Joining.{joined, joined_pages}
use orchestrix_api.Postgres.Order.{AreNewestFirst, newest_first_all}
use orchestrix_api.Postgres.Alerts as Alerts
use orchestrix_api.Postgres.Executions as Executions
use orchestrix_api.Postgres.Workflows as Workflows
use orchestrix_api.Postgres.Rules as Rules

-- What the database does for ORDER BY, as far as it matters here: it brings in no row.
abbrev pub Orders : {A : Type 0} → (List A → List A) → Type 0
Orders {A} arrange =
    (p : A → Bool) (rs : List A) → All (λ r. p r ≡ true) rs → All (λ r. p r ≡ true) (arrange rs)

-- A list that is returned is a page of entries of the tenant.
abbrev pub ListsOf : {B : Type 0} → (B → Uuid) → Uuid → ℤ → Result (List B) → Type 0
ListsOf tenant_of tenant_id limit (err e) = Unit
ListsOf tenant_of tenant_id limit (ok bs) =
    IsPage (λ b. tenant_of b ≡ tenant_id) (pos_part (wrap 32 limit)) bs

All-map :
    {A B : Type 0} (f : A → B) (P : B → Type 0) (Q : A → Type 0)
    → ((a : A) → Q a → P (f a))
    → (xs : List A) → All Q xs
    → All P (map f xs)
All-map f P Q h [] all = tt
All-map f P Q h (x ∷ xs) (q, all) = (h x q, All-map f P Q h xs all)

module _ {A B : Type 0} (f : A → B) (row_tenant : A → Uuid) (tenant_of : B → Uuid)
    (same : (a : A) → tenant_of (f a) ≡ row_tenant a) (arrange : List A → List A) where
  each-ListsOf :
      (tenant_id : Uuid) (limit : ℤ) (fault : Option Error) (r : Result (List A))
      → ((rows : List A)
          → r ≡ ok rows
          → IsPage (λ a. nat_eq (row_tenant a) tenant_id ≡ true) (pos_part (wrap 32 limit)) rows)
      → ListsOf tenant_of tenant_id limit (each f (answer fault r))
  each-ListsOf tenant_id limit (some e) r h = tt
  each-ListsOf tenant_id limit none (err e) h = tt
  each-ListsOf tenant_id limit none (ok rows) h =
      let it = h rows refl in
      record {
        bounded = rw (length-map f rows) it.bounded;
        selected =
            All-map f (λ b. tenant_of b ≡ tenant_id) _
              (λ a q. same a ∙ (==_iff (row_tenant a) tenant_id).0 q) rows it.selected;
      }

  list-ListsOf :
      (s : Session) (tenant_id : Uuid) (limit offset : ℤ) (rs : List A)
      → Orders arrange
      → ListsOf tenant_of tenant_id limit (
          each f (
            answer s.fault
              (page s limit offset (arrange (select (λ a. nat_eq (row_tenant a) tenant_id) rs)))))
  list-ListsOf s tenant_id limit offset rs orders = each-ListsOf tenant_id limit s.fault _ λ rows q.
      page-IsPage (λ a. nat_eq (row_tenant a) tenant_id ≡ true) s limit offset _
        (orders _ _ (select-All (λ a. nat_eq (row_tenant a) tenant_id) rs)) q

-- The tables, and how the database orders the rows of each.
pub record Tables : Type 0 where
  pub alerts : List AlertRow
  pub executions : List ExecutionRow
  pub workflows : List WorkflowRow
  pub rules : List AlertRuleRow

pub record RowOrder : Type 0 where
  pub alerts : List AlertRow → List AlertRow
  pub executions : List ExecutionRow → List ExecutionRow
  pub workflows : List WorkflowRow → List WorkflowRow
  pub rules : List AlertRuleRow → List AlertRuleRow

-- A list by tenant that one of the repositories returns has only entries of that tenant, and no more
-- of them than the limit, read as an int32, says. Condition: ordering the rows brings in no other ones.
pub find_by_tenant-ListsOf :
    (o : RowOrder) (t : Tables) (s : Session) (tenant_id : Uuid) (limit offset : ℤ)
    → Orders o.alerts
    → Orders o.executions
    → Orders o.workflows
    → Orders o.rules
    → ListsOf
        (λ (a : Alert). a.tenant_id)
        tenant_id
        limit
        (Alerts.find_by_tenant o.alerts s tenant_id limit offset t.alerts)
      × ListsOf
          (λ (e : Execution). e.tenant_id)
          tenant_id
          limit
          (Executions.find_by_tenant o.executions s tenant_id limit offset t.executions)
      × ListsOf
          (λ (w : Workflow). w.tenant_id)
          tenant_id
          limit
          (Workflows.find_by_tenant o.workflows s tenant_id limit offset t.workflows)
      × ListsOf
          (λ (r : AlertRule). r.tenant_id)
          tenant_id
          limit
          (Rules.find_by_tenant o.rules s tenant_id limit offset t.rules)
unfolding Alerts.find_by_tenant Executions.find_by_tenant Workflows.find_by_tenant
    Rules.find_by_tenant Alerts.to_domain Executions.to_domain Workflows.to_domain Rules.to_domain
find_by_tenant-ListsOf o t s tenant_id limit offset a e w r = (
  list-ListsOf Alerts.to_domain (λ x. x.tenant_id) _ (λ x. refl) o.alerts s tenant_id limit offset
      t.alerts a,
  list-ListsOf Executions.to_domain (λ x. x.tenant_id) _ (λ x. refl) o.executions s tenant_id limit
      offset t.executions e,
  list-ListsOf Workflows.to_domain (λ x. x.tenant_id) _ (λ x. refl) o.workflows s tenant_id limit
      offset t.workflows w,
  list-ListsOf Rules.to_domain (λ x. x.tenant_id) _ (λ x. refl) o.rules s tenant_id limit offset
      t.rules r,
)

-- The rows of a tenant.
abbrev pub of_tenant : Uuid → Tables → Tables
of_tenant tenant_id t = record {
  alerts = select (λ r. nat_eq r.tenant_id tenant_id) t.alerts;
  executions = select (λ r. nat_eq r.tenant_id tenant_id) t.executions;
  workflows = select (λ r. nat_eq r.tenant_id tenant_id) t.workflows;
  rules = select (λ r. nat_eq r.tenant_id tenant_id) t.rules;
}

-- The first k pages of n entries that a list by tenant gives, by the offsets that the services ask
-- for, are together the first k * n of all the entries of the tenant, newest first. Conditions: no
-- statement fails; the table stays as it is; each query orders all the rows of the tenant by the time
-- they were made, newest first, and no two of them were made at the same time; n, k and k * n are
-- below 2 ^ 31.
pub find_by_tenant_pages :
    (o : ℕ → RowOrder) (s : ℕ → Session) (t newest : Tables) (tenant_id : Uuid) (n k : ℕ)
    → ((i : ℕ) → (s i).fault ≡ none)
    → AreNewestFirst
        (λ r. r.created_at)
        (λ i. (o i).alerts)
        (of_tenant tenant_id t).alerts
        newest.alerts
    → AreNewestFirst
        (λ r. r.created_at)
        (λ i. (o i).executions)
        (of_tenant tenant_id t).executions
        newest.executions
    → AreNewestFirst
        (λ r. r.created_at)
        (λ i. (o i).workflows)
        (of_tenant tenant_id t).workflows
        newest.workflows
    → AreNewestFirst
        (λ r. r.created_at)
        (λ i. (o i).rules)
        (of_tenant tenant_id t).rules
        newest.rules
    → n < 2 ^ 31
    → k < 2 ^ 31
    → k * n < 2 ^ 31
    → (joined
          (λ i.
            Alerts.find_by_tenant
              (o i).alerts
              (s i)
              tenant_id
              (pos n)
              (page_offset (pos (suc i)) (pos n))
              t.alerts)
          k
        ≡ ok (map Alerts.to_domain (take (k * n) newest.alerts)))
      × (joined
            (λ i.
              Executions.find_by_tenant
                (o i).executions
                (s i)
                tenant_id
                (pos n)
                (page_offset (pos (suc i)) (pos n))
                t.executions)
            k
          ≡ ok (map Executions.to_domain (take (k * n) newest.executions)))
      × (joined
            (λ i.
              Workflows.find_by_tenant
                (o i).workflows
                (s i)
                tenant_id
                (pos n)
                (page_offset (pos (suc i)) (pos n))
                t.workflows)
            k
          ≡ ok (map Workflows.to_domain (take (k * n) newest.workflows)))
      × (joined
            (λ i.
              Rules.find_by_tenant
                (o i).rules
                (s i)
                tenant_id
                (pos n)
                (page_offset (pos (suc i)) (pos n))
                t.rules)
            k
          ≡ ok (map Rules.to_domain (take (k * n) newest.rules)))
unfolding Alerts.find_by_tenant Executions.find_by_tenant Workflows.find_by_tenant
    Rules.find_by_tenant
find_by_tenant_pages o s t newest tenant_id n k up a e w r small few fits = (
  joined_pages Alerts.to_domain s n newest.alerts _
      (newest_first_all (λ (x : AlertRow). x.created_at) (λ i. (o i).alerts) _ newest.alerts a) up k
      small few fits,
  joined_pages Executions.to_domain s n newest.executions _
      (newest_first_all (λ (x : ExecutionRow). x.created_at) (λ i. (o i).executions) _
        newest.executions e)
      up k small few fits,
  joined_pages Workflows.to_domain s n newest.workflows _
      (newest_first_all (λ (x : WorkflowRow). x.created_at) (λ i. (o i).workflows) _
        newest.workflows w)
      up k small few fits,
  joined_pages Rules.to_domain s n newest.rules _
      (newest_first_all (λ (x : AlertRuleRow). x.created_at) (λ i. (o i).rules) _ newest.rules r) up
      k small few fits,
)
