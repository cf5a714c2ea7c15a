-- ===== src/Tenant.antt =====
-- app/domain/entities/tenant.py, with what it takes from app/domain/entities/base.py. The slug's
-- check by `islower` and `isalnum` is `well_formed`; the budget's figures, which no method here
-- touches, are left out.
pub mod Replay
use aiagent_x.Common.{
  ℕ, String, Bool, true, false, not, Option, none, some, List, [], ◌∷◌, ◌++◌, M, Result, ok, raise,
  ltb, ◌||◌, if◌then◌else◌,
}
use aiagent_x.Common.Text.{is_blank}

pub data TenantStatus : Type 0 where
  active suspended deleted : TenantStatus

pub data TenantPlan : Type 0 where
  free starter professional enterprise : TenantPlan

pub data TenantEvent : Type 0 where
  tenant_suspended : (tenant_id : ℕ) → Option String → TenantEvent
  tenant_activated tenant_deleted : (tenant_id : ℕ) → TenantEvent

pub data TenantError : Type 0 where
  slug_empty slug_too_long slug_malformed : TenantError
  cannot_suspend_deleted cannot_activate_deleted cannot_change_deleted : TenantError

pub record Tenant : Type 0 where
  pub id : ℕ
  pub updated_at : ℕ
  pub events : List TenantEvent
  pub slug : String
  pub plan : TenantPlan
  pub status : TenantStatus

-- `Tenant(slug=…, plan=…, status=…)` with `__post_init__`; `length_of` is Python's `len`.
unfoldable pub create :
    (well_formed : String → Bool)
    → (length_of : String → ℕ) → (id now : ℕ) → String
    → TenantPlan
    → TenantStatus
    → Result TenantError Tenant
create well_formed length_of id now slug plan status =
    if is_blank slug
    then raise slug_empty
    else if ltb 100 (length_of slug)
    then raise slug_too_long
    else if not (well_formed slug)
    then raise slug_malformed
    else ok (record {
      id = id;
      updated_at = now;
      events = [];
      slug = slug;
      plan = plan;
      status = status;
    })

-- `AggregateRoot.collect_events`: the pending events, and the tenant with none.
unfoldable pub collect_events : Tenant → List TenantEvent × Tenant
collect_events t = (t.events, record t { events = [] })

-- The status, `touch` and `add_event`.
abbrev pub moved : ℕ → TenantStatus → TenantEvent → Tenant → Tenant
moved now status e t = record t { status = status; updated_at = now; events = t.events ++ e ∷ [] }

unfoldable pub suspend : ℕ → Option String → M Tenant TenantError (Unit {0})
suspend now reason t = elim t.status [
  | deleted ↦ (raise cannot_suspend_deleted, t)
  | suspended ↦ (ok tt, t)
  | active ↦ (ok tt, moved now suspended (tenant_suspended t.id reason) t)
]

unfoldable pub activate : ℕ → M Tenant TenantError (Unit {0})
activate now t = elim t.status [
  | deleted ↦ (raise cannot_activate_deleted, t)
  | active ↦ (ok tt, t)
  | suspended ↦ (ok tt, moved now active (tenant_activated t.id) t)
]

unfoldable pub soft_delete : ℕ → M Tenant TenantError (Unit {0})
soft_delete now t = elim t.status [
  | deleted ↦ (ok tt, t)
  | active ↦ (ok tt, moved now deleted (tenant_deleted t.id) t)
  | suspended ↦ (ok tt, moved now deleted (tenant_deleted t.id) t)
]

unfoldable pub can_create_runs : Tenant → Bool
can_create_runs t = elim t.status [ active ↦ true | _ ↦ false ]

unfoldable pub change_plan : ℕ → TenantPlan → M Tenant TenantError (Unit {0})
change_plan now plan t = elim t.status [
  | deleted ↦ (raise cannot_change_deleted, t)
  | active ↦ (ok tt, record t { plan = plan; updated_at = now })
  | suspended ↦ (ok tt, record t { plan = plan; updated_at = now })
]
