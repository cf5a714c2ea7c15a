-- ===== src/Tenant/Replay.antt =====
-- A tenant's status and its events (app/domain/entities/tenant.py).
use aiagent_x.Common.{
  ℕ, ◌≡◌, refl, ap, sym, ◌∙◌, arith, String, Bool, Option, List, [], ◌∷◌, ◌++◌, ok,
}
use aiagent_x.Tenant.{
  Tenant, TenantStatus, TenantPlan, TenantEvent, active, suspended, deleted, tenant_suspended,
  tenant_activated, tenant_deleted, create, collect_events, suspend, activate, soft_delete,
  change_plan,
}

-- One method call on a tenant, with the events that it hands out.
pub data Step : Tenant → List TenantEvent → Tenant → Type 0 where
  suspends : (now : ℕ) (reason : Option String) (t : Tenant) → Step t [] (suspend now reason t).1
  activates : (now : ℕ) (t : Tenant) → Step t [] (activate now t).1
  deletes : (now : ℕ) (t : Tenant) → Step t [] (soft_delete now t).1
  changes_plan : (now : ℕ) (plan : TenantPlan) (t : Tenant) → Step t [] (change_plan now plan t).1
  collects : (t : Tenant) → Step t (collect_events t).0 (collect_events t).1

-- Any sequence of method calls, with all events that they have handed out, in order.
pub data Reaches (s : Tenant) : List TenantEvent → Tenant → Type 0 where
  start : Reaches s [] s
  next :
      (past out : List TenantEvent) (t u : Tenant)
      → Reaches s past t
      → Step t out u
      → Reaches s (past ++ out) u

-- The status that a list of events leads to.
unfoldable pub replay : TenantStatus → List TenantEvent → TenantStatus
replay s [] = s
replay s (tenant_suspended i r ∷ es) = replay suspended es
replay s (tenant_activated i ∷ es) = replay active es
replay s (tenant_deleted i ∷ es) = replay deleted es

replay-append :
    (s : TenantStatus) (es more : List TenantEvent)
    → replay s (es ++ more) ≡ replay (replay s es) more
unfolding replay
replay-append s [] more = refl
replay-append s (tenant_suspended i r ∷ es) more = replay-append suspended es more
replay-append s (tenant_activated i ∷ es) more = replay-append active es more
replay-append s (tenant_deleted i ∷ es) more = replay-append deleted es more

-- `s` is the status before the pending events.
Step-replay :
    (s : TenantStatus) (out : List TenantEvent) (t u : Tenant)
    → Step t out u
    → t.status ≡ replay s t.events
    → u.status ≡ replay (replay s out) u.events
unfolding suspend activate soft_delete change_plan collect_events replay
Step-replay s _ _ _ (suspends now reason t) h =
    ground (arith, h, replay-append s t.events (tenant_suspended t.id reason ∷ []))
Step-replay s _ _ _ (activates now t) h =
    ground (arith, h, replay-append s t.events (tenant_activated t.id ∷ []))
Step-replay s _ _ _ (deletes now t) h =
    ground (arith, h, replay-append s t.events (tenant_deleted t.id ∷ []))
Step-replay s _ _ _ (changes_plan now plan t) h = ground (arith, h)
Step-replay s _ _ _ (collects t) h = ground (arith, h)

Reaches-status :
    (s : Tenant) (past : List TenantEvent) (t : Tenant)
    → s.events ≡ []
    → Reaches s past t
    → t.status ≡ replay (replay s.status past) t.events
unfolding replay
Reaches-status s _ _ fresh start = ground (arith, fresh)
Reaches-status s _ _ fresh (next past out t u reached step) =
    Step-replay (replay s.status past) out t u step (Reaches-status s past t fresh reached)
    ∙ ap (λ x. replay x u.events) (sym (replay-append s.status past out))

create_fresh :
    (well_formed : String → Bool) (length_of : String → ℕ) (id now : ℕ) (slug : String)
    (plan : TenantPlan) (status : TenantStatus) (s : Tenant)
    → create well_formed length_of id now slug plan status ≡ ok s
    → (s.events ≡ []) × (s.status ≡ status)
unfolding create
create_fresh well_formed length_of id now slug plan status s made = ground (arith, made)

-- A tenant that was created with some status, and any sequence of calls of its methods, of
-- `collect_events` too: its status is the one that all its events, those that were collected and then
-- those that are pending, lead to when they are replayed from the status of its creation.
pub Reaches-replay :
    (well_formed : String → Bool) (length_of : String → ℕ) (id now : ℕ) (slug : String)
    (plan : TenantPlan) (status : TenantStatus) (s : Tenant) (past : List TenantEvent) (t : Tenant)
    → create well_formed length_of id now slug plan status ≡ ok s
    → Reaches s past t
    → t.status ≡ replay status (past ++ t.events)
Reaches-replay well_formed length_of id now slug plan status s past t made reached =
    let (fresh, same) = create_fresh well_formed length_of id now slug plan status s made in
    Reaches-status s past t fresh reached
    ∙ ap (λ x. replay (replay x past) t.events) same
    ∙ sym (replay-append status past t.events)
