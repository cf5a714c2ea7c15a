-- ===== src/Tests/Memories.antt =====
-- A run of `write_memory` (app/application/services/memory_write_service.py).
use aiagent_x.Common.{ℕ, ◌+◌, ◌≡◌, refl, true, Option, none, some, [], ◌∷◌, length}
use aiagent_x.Memory.{
  public, durable, Pipeline, Store, Request, RetentionPolicy, MemoryScope, write_memory,
}

abbrev two_chunks : Pipeline ℕ
two_chunks = record {
  normalize = λ content. content;
  fits = λ content. true;
  classify = λ content. public;
  redact = λ content. content;
  chunk_text = λ content. content ∷ content ∷ [];
  embed = λ chunk. some 0;
  encrypt = λ chunk. some chunk;
}

abbrev one_record : ℕ → MemoryScope → Option RetentionPolicy
one_record tenant scope =
    some (record { retention_days = 1; max_records_per_tenant = some 1; max_storage_mb = none })

abbrev request : Request
request = record {
  tenant_id = 1;
  agent_id = 2;
  scope = durable;
  namespace = "n";
  session_id = none;
}

abbrev nothing : Store ℕ
nothing = record { records = []; events = [] }

-- Where one record is allowed, a text of two chunks leaves two.
quota_overrun :
    length (write_memory two_chunks one_record (λ i. (i, i + 10)) 0 0 request "a" nothing).1.records
    ≡ 2
unfolding write_memory
quota_overrun = refl
