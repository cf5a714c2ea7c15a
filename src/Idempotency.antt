-- ===== src/Idempotency.antt =====
-- Duplicate requests: `IdempotencyStore` (app/infrastructure/cache/idempotency_store.py) and
-- `IdempotencyService` (app/application/services/idempotency_service.py). Each call of Redis may
-- raise, which the store catches: `up`, with a number where there are several, tells whether it
-- does not. A key of Redis is the prefix, the tenant's id and the key of the request; the ids are of
-- one length and hold no colon, so that it is kept as a pair.
pub mod Replay
use aiagent_x.Common.{
  ℕ, ◌+◌, ◌*◌, ◌≡◌, String, Bool, true, false, Option, none, some, is_some, ltb, ◌==◌, ◌&&◌,
  if◌then◌else◌,
}
use aiagent_x.Common.Text.{str_eq}
use aiagent_x.Common.Value.{Value}
use aiagent_x.Redis.{Redis}

pub record Key : Type 0 where
  pub tenant_id : ℕ
  pub key : String

abbrev pub key_eq : Key → Key → Bool
key_eq a b = a.tenant_id == b.tenant_id && str_eq a.key b.key

-- The stored dictionary.
pub record Entry : Type 0 where
  pub operation : String
  pub request_data : Option Value
  pub created_at : ℕ
  pub response : Option Value
  pub request_id : Option String
  pub completed_at : Option ℕ

pub record IdempotencyResult : Type 0 where
  pub is_duplicate : Bool
  pub cached_response : Option Value
  pub key_exists : Bool
  pub original_request_id : Option String

abbrev pub fresh_result : IdempotencyResult
fresh_result = record {
  is_duplicate = false;
  cached_response = none;
  key_exists = false;
  original_request_id = none;
}

abbrev pub duplicate_of : Entry → IdempotencyResult
duplicate_of e = record {
  is_duplicate = true;
  cached_response = e.response;
  key_exists = true;
  original_request_id = e.request_id;
}

abbrev pub new_entry : (now : ℕ) → String → Option Value → Entry
new_entry now operation request_data = record {
  operation = operation;
  request_data = request_data;
  created_at = now;
  response = none;
  request_id = none;
  completed_at = none;
}

abbrev pub completed : (now : ℕ) → Value → Option String → Entry → Entry
completed now response request_id e = record e {
  response = some response;
  request_id = request_id;
  completed_at = some now;
}

module _ (redis : Redis Key Entry key_eq) where
  open redis use {State}

  -- The store's methods; none of them raises.
  unfoldable pub get : (up : Bool) → (now : ℕ) → Key → State → Option Entry
  get up now k s = if up then redis.get now k s else none

  unfoldable pub set :
      (up : Bool) → (now : ℕ) → Key → String → Option Value → (ttl : ℕ) → State → Bool × State
  set up now k operation request_data ttl s =
      if up
      then (true, redis.set now k (new_entry now operation request_data) ttl s)
      else (false, s)

  unfoldable pub set_response :
      (up₁ up₂ : Bool) → (now : ℕ) → Key → Value → Option String → (ttl : ℕ) → State → Bool × State
  unfolding get
  set_response up₁ up₂ now k response request_id ttl s = elim (get up₁ now k s) [
    | none ↦ (false, s)
    | some e ↦
        if up₂
        then (true, redis.set now k (completed now response request_id e) ttl s)
        else (false, s)
  ]

  unfoldable pub delete : (up : Bool) → Key → State → Bool × State
  delete up k s = if up then (true, redis.delete k s) else (false, s)

  unfoldable pub exists : (up : Bool) → (now : ℕ) → Key → State → Bool
  exists up now k s = if up then is_some (redis.get now k s) else false

  -- The service's methods.
  unfoldable pub check_and_store :
      (up₁ up₂ : Bool)
      → (now : ℕ) → Key
      → String
      → Option Value
      → (ttl : ℕ) → State
      → IdempotencyResult × State
  unfolding get set
  check_and_store up₁ up₂ now k operation request_data ttl s = elim (get up₁ now k s) [
    | some e ↦ (duplicate_of e, s)
    | none ↦ (fresh_result, (set up₂ now k operation request_data ttl s).1)
  ]

  abbrev pub response_of : Option Entry → Option Value
  response_of none = none
  response_of (some e) = e.response

  unfoldable pub get_response : (up : Bool) → (now : ℕ) → Key → State → Option Value
  unfolding get
  get_response up now k s = response_of (get up now k s)

  unfoldable pub store_response :
      (up₁ up₂ up₃ : Bool)
      → (now : ℕ) → Key
      → Value
      → Option String
      → (ttl : ℕ) → State
      → Bool × State
  unfolding get set_response
  store_response up₁ up₂ up₃ now k response request_id ttl s = elim (get up₁ now k s) [
    | none ↦ (false, s)
    | some e ↦ set_response up₂ up₃ now k response request_id ttl s
  ]

  unfoldable pub invalidate_key : (up : Bool) → Key → State → Bool × State
  unfolding delete
  invalidate_key up k s = delete up k s
