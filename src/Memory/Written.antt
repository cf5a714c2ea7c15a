-- ===== src/Memory/Written.antt =====
-- What a write leaves in the tables of records and events, by the number of chunks.
use aiagent_x.Common.{
  ℕ, suc, ◌+◌, ◌≤◌, ◌≡◌, arith, String, Option, none, some, Result, raise, List, [], ◌∷◌, length,
  length-append,
}
use aiagent_x.Memory.{
  WriteError, embedding_failed, encryption_failed, AllowedUseLabel, Pipeline, Store, Request,
  RetentionPolicy, MemoryScope, write_chunks, stored, new_record,
}

-- From one store to the other as many events are added as records, and `n` of each at most.
unfoldable pub Grown : {Embedding : Type 0} → ℕ → (before after : Store Embedding) → Type 0
Grown n before after =
    (length after.records + length before.events ≡ length after.events + length before.records)
    × (length after.records ≤ length before.records + n)

module _ {Embedding : Type 0} (pipeline : Pipeline Embedding)
    (policy_of : (tenant : ℕ) → MemoryScope → Option RetentionPolicy) where
  Grown-stored :
      (id event_id : ℕ) (q : Request) (label : AllowedUseLabel) (expires : Option ℕ)
      (chunk : String) (embedding : Embedding) (ciphertext : String) (n : ℕ)
      (s after : Store Embedding)
      → Grown n
          (stored pipeline policy_of id event_id q label expires chunk embedding ciphertext s)
          after
      → Grown (suc n) s after
  unfolding Grown
  Grown-stored id event_id q label expires chunk embedding ciphertext n s after h = ground (
    arith,
    h,
    length-append s.records
        (new_record pipeline policy_of id q label expires embedding ciphertext ∷ []),
    length-append s.events
        (record { id = event_id; record_id = id; tenant_id = q.tenant_id; chunk = chunk } ∷ []),
  )

  -- However the loop over the chunks ends, it has added as many events as records, and at most one
  -- for each chunk.
  pub write_chunks-Grown :
      (ids : ℕ → ℕ × ℕ) (i : ℕ) (q : Request) (label : AllowedUseLabel) (expires : Option ℕ)
      (chunks : List String) (s : Store Embedding)
      → Grown (length chunks) s (write_chunks pipeline policy_of ids i q label expires chunks s).1
  unfolding write_chunks Grown
  write_chunks-Grown ids i q label expires [] s = (omega arith, omega arith)
  write_chunks-Grown ids i q label expires (chunk ∷ chunks) s =
      go (pipeline.embed chunk) (pipeline.encrypt chunk) (λ embedding ciphertext.
        write_chunks-Grown ids (suc i) q label expires chunks (
          stored pipeline policy_of (ids i).0 (ids i).1 q label expires chunk embedding ciphertext
            s))
    where
      next : Embedding → String → Store Embedding
      next embedding ciphertext =
          stored pipeline policy_of (ids i).0 (ids i).1 q label expires chunk embedding ciphertext s

      go :
          (embedded : Option Embedding) (encrypted : Option String)
          → ((embedding : Embedding) (ciphertext : String)
              → Grown
                  (length chunks)
                  (next embedding ciphertext)
                  (write_chunks pipeline policy_of ids
                    (suc i)
                    q
                    label
                    expires
                    chunks
                    (next embedding ciphertext)).1)
          → Grown
              (suc (length chunks))
              s
              (elim embedded as (λ x. Result WriteError (Unit {0}) × Store Embedding) [
                | none ↦ (raise embedding_failed, s)
                | some embedding ↦
                    elim encrypted as (λ x. Result WriteError (Unit {0}) × Store Embedding) [
                      | none ↦ (raise encryption_failed, s)
                      | some ciphertext ↦
                          write_chunks pipeline policy_of ids
                            (suc i)
                            q
                            label
                            expires
                            chunks
                            (next embedding ciphertext)
                    ]
              ]).1
      go none encrypted rest = (omega arith, omega arith)
      go (some embedding) none rest = (omega arith, omega arith)
      go (some embedding) (some ciphertext) rest =
          Grown-stored (ids i).0 (ids i).1 q label expires chunk embedding ciphertext
            (length chunks) s
            (write_chunks pipeline policy_of ids (suc i) q label expires chunks
              (next embedding ciphertext)).1
            (rest embedding ciphertext)
