-- ===== src/Domain/Alert/Lifecycle.antt =====
-- The life of an alert under any sequence of Acknowledge and Resolve.
use orchestrix_api.Common.{
  ◌⊎◌, ℕ, ◌≤◌, ◌≡◌, refl, ◌∙◌, ◌↔◌, ap, true, Option, none, List, [], ◌∷◌, is_some, arith,
}
use orchestrix_api.Domain.Values.{Uuid, Time}
use orchestrix_api.Domain.Errors.{DomainError}
use orchestrix_api.Domain.Alert.{
  AlertStatus, opened, triggered, acknowledged, resolved, Alert, can_acknowledge, can_resolve,
  acknowledge, resolve,
}

-- A call of one of the two methods, at a time and by a user.
pub data Action : Type 0 where
  acknowledging : Time → Uuid → Action
  resolving : Time → Uuid → Action

abbrev pub act : Action → Alert → Option DomainError × Alert
act (acknowledging t user) a = acknowledge t user a
act (resolving t user) a = resolve t user a

abbrev pub run : List Action → Alert → Alert
run [] a = a
run (x ∷ xs) a = run xs (act x a).1

-- How far an alert has come.
abbrev pub stage : AlertStatus → ℕ
stage opened = 0
stage triggered = 0
stage acknowledged = 1
stage resolved = 2
stage (AlertStatus.unknown s) = 2

-- Who and when is recorded exactly as the status says.
pub record IsConsistent (a : Alert) : Type 0 where
  pub acknowledger : is_some a.acknowledged_at ≡ is_some a.acknowledged_by
  pub resolver : is_some a.resolved_at ≡ is_some a.resolved_by
  pub when_acknowledged : a.status ≡ acknowledged → is_some a.acknowledged_by ≡ true
  pub when_resolved : (a.status ≡ resolved) ↔ (is_some a.resolved_by ≡ true)

pub act-IsConsistent : (x : Action) (a : Alert) → IsConsistent a → IsConsistent (act x a).1
unfolding acknowledge resolve
act-IsConsistent (acknowledging t user) a h = ground arith
act-IsConsistent (resolving t user) a h = ground arith

pub stage-act : (x : Action) (a : Alert) → stage a.status ≤ stage (act x a).1.status
unfolding acknowledge resolve
stage-act (acknowledging t user) a = ground arith
stage-act (resolving t user) a = ground arith

-- Any sequence of calls keeps an alert consistent: it is resolved exactly if a resolver is recorded,
-- and an acknowledged one has its acknowledger. Its stage never goes back.
pub run-IsConsistent :
    (xs : List Action) (a : Alert)
    → IsConsistent a
    → IsConsistent (run xs a) × (stage a.status ≤ stage (run xs a).status)
run-IsConsistent [] a h = (h, omega arith)
run-IsConsistent (x ∷ xs) a h =
    let (kept, further) = run-IsConsistent xs (act x a).1 (act-IsConsistent x a h) in
    (kept, omega (arith, stage-act x a))

act_of_resolved : (x : Action) (a : Alert) → a.status ≡ resolved → (act x a).1 ≡ a
unfolding acknowledge resolve
act_of_resolved (acknowledging t user) a h = ground arith
act_of_resolved (resolving t user) a h = ground arith

-- A resolved alert is final: no sequence of calls changes any field of it.
pub run_of_resolved : (xs : List Action) (a : Alert) → a.status ≡ resolved → run xs a ≡ a
run_of_resolved [] a h = refl
run_of_resolved (x ∷ xs) a h =
    let same = act_of_resolved x a h in ap (run xs) same ∙ run_of_resolved xs a h

-- A call fails exactly if its guard does, and then it changes nothing. A success of one leaves the
-- fields of the other alone: acknowledging keeps who resolved, resolving keeps who acknowledged.
pub act_guarded :
    (t : Time) (user : Uuid) (a : Alert)
    → (((acknowledge t user a).0 ≡ none) ↔ (can_acknowledge a ≡ true))
      × (((resolve t user a).0 ≡ none) ↔ (can_resolve a ≡ true))
      × ((can_acknowledge a ≡ true) ⊎ ((acknowledge t user a).1 ≡ a))
      × ((can_resolve a ≡ true) ⊎ ((resolve t user a).1 ≡ a))
      × ((acknowledge t user a).1.resolved_by ≡ a.resolved_by)
      × ((resolve t user a).1.acknowledged_by ≡ a.acknowledged_by)
unfolding acknowledge resolve
act_guarded t user a = (
  (λ h. ground arith, λ h. ground arith),
  (λ h. ground arith, λ h. ground arith),
  ground arith,
  ground arith,
  ground arith,
  ground arith,
)
