-- ===== src/Idempotency/Replay.antt =====
-- What a second request with one key is told (app/application/services/idempotency_service.py).
use aiagent_x.Common.{ℕ, ◌+◌, ◌*◌, ◌<◌, ◌≡◌, String, Bool, true, false, Option, none, some, arith}
use aiagent_x.Common.Dict.{str_eq_refl}
use aiagent_x.Common.Value.{Value}
use aiagent_x.Redis.{Redis}
use aiagent_x.Idempotency.{
  Key, key_eq, Entry, new_entry, completed, check_and_store, store_response, get_response,
  invalidate_key,
}

key_eq_refl : (k : Key) → key_eq k k ≡ true
key_eq_refl k = ground (arith, str_eq_refl k.key)

module _ (redis : Redis Key Entry key_eq) where
  open redis use {State, get-set, get-delete}

  -- While Redis answers: the response of a request that was stored as new, within the time of its
  -- key, is what any second request with the key is told, within the time of the response, and the
  -- second request stores nothing.
  pub response_replayed :
      (now later last ttl : ℕ) (k : Key) (operation operation' : String)
      (request request' : Option Value) (response : Value) (id : Option String) (s : State)
      → redis.get now k s ≡ none
      → later < now + ttl * 1000000
      → last < later + ttl * 1000000
      → let stored = (check_and_store redis true true now k operation request ttl s).1 in
        let (done, answered) = store_response redis true true true later k response id ttl stored in
        let (result, after) =
          check_and_store redis true true last k operation' request' ttl answered in
        (done ≡ true)
        × (result.is_duplicate ≡ true)
        × (result.cached_response ≡ some response)
        × (result.original_request_id ≡ id)
        × (after ≡ answered)
        × (get_response redis true last k answered ≡ some response)
  unfolding check_and_store store_response get_response
  response_replayed now later last ttl k operation operation' request request' response id s new h
        h' =
      ground (
        arith,
        key_eq_refl k,
        get-set now later ttl k k (new_entry now operation request) s,
        get-set later last ttl k k (completed later response id (new_entry now operation request))
            (redis.set now k (new_entry now operation request) ttl s),
      )

  -- A key that is invalidated while Redis answers is new to the next request.
  pub invalidated_new :
      (now ttl : ℕ) (k : Key) (operation : String) (request : Option Value) (s : State)
      → (check_and_store redis true true now k operation request ttl
          (invalidate_key redis true k s).1).0.is_duplicate
        ≡ false
  unfolding check_and_store invalidate_key
  invalidated_new now ttl k operation request s =
      ground (arith, key_eq_refl k, get-delete now k k s)

  -- Where the read of Redis raises, each request counts as new, also one whose response is stored.
  pub unread_new :
      (up : Bool) (now ttl : ℕ) (k : Key) (operation : String) (request : Option Value) (s : State)
      → (check_and_store redis false up now k operation request ttl s).0.is_duplicate ≡ false
  unfolding check_and_store
  unread_new up now ttl k operation request s = ground arith
