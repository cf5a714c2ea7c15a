-- ===== src/Memory.antt =====
-- Long-term memory: the records and the retention policy (app/domain/entities/memory.py) and
-- `MemoryWriteService` (app/application/services/memory_write_service.py). The services that it is
-- built with are its `Pipeline`; the records and the events are the rows of their tables. A call
-- reads one time, `now`, in microseconds; `ids i` are the fresh ids of the i-th record and its event.
pub mod Written
use aiagent_x.Common.{
  ℕ, suc, ◌+◌, ◌*◌, String, Bool, true, false, not, Option, none, some, List, [], ◌∷◌, ◌++◌, M,
  Result, ok, raise, length, ltb, leb, ◌==◌, ◌&&◌, if◌then◌else◌,
}
use aiagent_x.Common.Int.{ℤ, pos_part, is_nonpos}

pub data MemoryScope : Type 0 where
  ephemeral session durable : MemoryScope

pub data AllowedUseLabel : Type 0 where
  public internal confidential restricted : AllowedUseLabel

pub data PolicyError : Type 0 where
  retention_not_positive records_not_positive storage_not_positive : PolicyError

-- The fields that `__post_init__` checks to be positive are natural numbers.
pub record RetentionPolicy : Type 0 where
  pub retention_days : ℕ
  pub max_records_per_tenant : Option ℕ
  pub max_storage_mb : Option ℕ

abbrev nonpos_some : Option ℤ → Bool
nonpos_some none = false
nonpos_some (some n) = is_nonpos n

abbrev part_some : Option ℤ → Option ℕ
part_some none = none
part_some (some n) = some (pos_part n)

unfoldable pub new_policy :
    ℤ → (max_records max_storage : Option ℤ) → Result PolicyError RetentionPolicy
new_policy days max_records max_storage =
    if is_nonpos days
    then raise retention_not_positive
    else if nonpos_some max_records
    then raise records_not_positive
    else if nonpos_some max_storage
    then raise storage_not_positive
    else ok (record {
      retention_days = pos_part days;
      max_records_per_tenant = part_some max_records;
      max_storage_mb = part_some max_storage;
    })

abbrev pub seconds : ℕ → ℕ
seconds n = n * 1000000

unfoldable pub calculate_expiry : ℕ → RetentionPolicy → ℕ
calculate_expiry now p = now + seconds (p.retention_days * 86400)

-- The storage is compared in bytes: the quotient by 1024 * 1024 is exact.
unfoldable pub is_quota_exceeded : (record_count storage_bytes : ℕ) → RetentionPolicy → Bool
is_quota_exceeded count storage p =
    let by_storage : Bool = elim p.max_storage_mb [
      | none ↦ false
      | some m ↦ leb (m * 1048576) storage
    ] in
    elim p.max_records_per_tenant [
      | none ↦ by_storage
      | some m ↦ if leb m count then true else by_storage
    ]

pub record MemoryRecord (Embedding : Type 0) : Type 0 where
  pub id : ℕ
  pub tenant_id : ℕ
  pub agent_id : ℕ
  pub scope : MemoryScope
  pub namespace : String
  pub content_ciphertext : String
  pub embedding : Option Embedding
  pub allowed_use_label : AllowedUseLabel
  pub session_id : Option String
  pub expires_at : Option ℕ

unfoldable pub is_expired : {Embedding : Type 0} → ℕ → MemoryRecord Embedding → Bool
is_expired now r = elim r.expires_at [ none ↦ false | some t ↦ leb t now ]

-- The event "memory.written", by what a reader of it needs.
pub record WrittenEvent : Type 0 where
  pub id : ℕ
  pub record_id : ℕ
  pub tenant_id : ℕ
  pub chunk : String

pub data WriteError : Type 0 where
  too_large quota_exceeded embedding_failed encryption_failed : WriteError

pub record Pipeline (Embedding : Type 0) : Type 0 where
  pub normalize : String → String
  pub fits : String → Bool
  pub classify : String → AllowedUseLabel
  pub redact : String → String
  pub chunk_text : String → List String
  pub embed : String → Option Embedding
  pub encrypt : String → Option String

pub record Store (Embedding : Type 0) : Type 0 where
  pub records : List (MemoryRecord Embedding)
  pub events : List WrittenEvent

abbrev pub scope_eq : MemoryScope → MemoryScope → Bool
scope_eq ephemeral ephemeral = true
scope_eq session session = true
scope_eq durable durable = true
scope_eq a b = false

-- What a call is given for every chunk.
pub record Request : Type 0 where
  pub tenant_id : ℕ
  pub agent_id : ℕ
  pub scope : MemoryScope
  pub namespace : String
  pub session_id : Option String

module _ {Embedding : Type 0} (pipeline : Pipeline Embedding)
    (policy_of : (tenant : ℕ) → MemoryScope → Option RetentionPolicy) where
  -- `count_by_tenant`.
  unfoldable pub count_by_tenant : ℕ → MemoryScope → List (MemoryRecord Embedding) → ℕ
  count_by_tenant tenant scope [] = 0
  count_by_tenant tenant scope (r ∷ rs) =
      (if r.tenant_id == tenant && scope_eq r.scope scope then 1 else 0)
      + count_by_tenant tenant scope rs

  -- `storage` is what the repository answers for the tenant's size in bytes.
  unfoldable pub quota_allows : (storage : ℕ) → Request → Store Embedding → Bool
  unfolding count_by_tenant is_quota_exceeded
  quota_allows storage q s = elim (policy_of q.tenant_id q.scope) [
    | none ↦ true
    | some p ↦ not (is_quota_exceeded (count_by_tenant q.tenant_id q.scope s.records) storage p)
  ]

  abbrev pub default_expiry : ℕ → MemoryScope → Option ℕ
  default_expiry now ephemeral = some (now + seconds 86400)
  default_expiry now session = some (now + seconds 604800)
  default_expiry now durable = none

  unfoldable pub expiry_of : ℕ → Request → Option ℕ
  unfolding calculate_expiry
  expiry_of now q = elim (policy_of q.tenant_id q.scope) [
    | none ↦ default_expiry now q.scope
    | some p ↦ some (calculate_expiry now p)
  ]

  abbrev pub new_record :
      ℕ → Request → AllowedUseLabel → Option ℕ → Embedding → String → MemoryRecord Embedding
  new_record id q label expires embedding ciphertext = record {
    id = id;
    tenant_id = q.tenant_id;
    agent_id = q.agent_id;
    scope = q.scope;
    namespace = q.namespace;
    content_ciphertext = ciphertext;
    embedding = some embedding;
    allowed_use_label = label;
    session_id = q.session_id;
    expires_at = expires;
  }

  abbrev pub stored :
      (id event_id : ℕ)
      → Request
      → AllowedUseLabel
      → Option ℕ
      → String
      → Embedding
      → String
      → Store Embedding
      → Store Embedding
  stored id event_id q label expires chunk embedding ciphertext s = record {
    records = s.records ++ new_record id q label expires embedding ciphertext ∷ [];
    events =
        s.events
        ++ record { id = event_id; record_id = id; tenant_id = q.tenant_id; chunk = chunk } ∷ [];
  }

  -- The loop over the chunks, the first of them with the ids of `i`.
  unfoldable pub write_chunks :
      (ids : ℕ → ℕ × ℕ)
      → (i : ℕ) → Request
      → AllowedUseLabel
      → Option ℕ
      → List String
      → M (Store Embedding) WriteError (Unit {0})
  write_chunks ids i q label expires [] s = (ok tt, s)
  write_chunks ids i q label expires (chunk ∷ chunks) s = elim (pipeline.embed chunk) [
    | none ↦ (raise embedding_failed, s)
    | some embedding ↦ elim (pipeline.encrypt chunk) [
      | none ↦ (raise encryption_failed, s)
      | some ciphertext ↦
          write_chunks ids (suc i) q label expires chunks
            (stored (ids i).0 (ids i).1 q label expires chunk embedding ciphertext s)
    ]
  ]

  unfoldable pub write_memory :
      (ids : ℕ → ℕ × ℕ)
      → (now storage : ℕ) → Request
      → String
      → M (Store Embedding) WriteError (Unit {0})
  unfolding quota_allows expiry_of write_chunks
  write_memory ids now storage q content s =
      let text = pipeline.normalize content in
      if not (pipeline.fits text)
      then (raise too_large, s)
      else if not (quota_allows storage q s)
      then (raise quota_exceeded, s)
      else write_chunks ids 0 q (pipeline.classify text) (expiry_of now q)
          (pipeline.chunk_text (pipeline.redact text)) s
