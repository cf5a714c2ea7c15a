-- ===== src/Tests/Sessions.antt =====
-- Sessions (app/application/services/session_memory_service.py), duplicate requests
-- (app/application/services/idempotency_service.py) and rate limits
-- (app/application/services/rate_limit_service.py).
use aiagent_x.Common.{
  false, ℕ, ◌+◌, ◌≡◌, refl, arith, String, true, Option, none, some, List, [], ◌∷◌, ok, map,
}
use aiagent_x.Common.Dict.{lookup}
use aiagent_x.Common.Text.{str_eq}
use aiagent_x.Common.Value.{null}
use aiagent_x.Redis.{Redis, table}
use aiagent_x.RedisLists.{RedisLists, tail, list_table}
use aiagent_x.Session.{
  Message, SessionMeta, Cache, add_to_session, get_session_context, get_all_history,
  get_recent_history,
}
use aiagent_x.Session.History.{append_each, message_of, timely, history_kept, context_shared}
use aiagent_x.Idempotency.{Key, key_eq, Entry, check_and_store, store_response, get_response}
use aiagent_x.Idempotency.Replay.{response_replayed}
use aiagent_x.RateLimit.{
  RateLimitResult, new_limits, check_rate_limit, check_concurrent_runs, check_global_concurrency,
  record_run_start, record_run_end,
}
use aiagent_x.RateLimit.Limiter.{Server, Sha, new_limiter, flag, digest}
use aiagent_x.RateLimit.Unlimited
use aiagent_x.RateLimit.Unlimited.{never_limited}

abbrev metas : Redis String SessionMeta str_eq
metas = table String SessionMeta str_eq

abbrev histories : RedisLists String Message
histories = list_table Message

abbrev empty : Cache metas histories
empty = record { metas = λ k. none; histories = λ k. ([], none) }

abbrev said : String → ℕ → Message
said content now = record { role = "user"; content = content; timestamp = now; metadata = none }

abbrev talk : List (ℕ × Message)
talk = (10, said "one" 10) ∷ (20, said "two" 20) ∷ (30, said "three" 30) ∷ []

history_kept_example :
    let after = append_each metas histories "s" talk empty in
    (get_all_history metas histories true 40 "s" after
      ≡ tail 100 (map (message_of metas histories "s") talk))
    × (get_recent_history metas histories true 40 "s" 2 after
        ≡ tail 2 (tail 100 (map (message_of metas histories "s") talk)))
unfolding timely
history_kept_example = history_kept metas histories "s" talk 40 2 empty refl refl

context_shared_example :
    let added =
      (add_to_session metas histories
        (λ t a i. none)
        true
        true
        true
        10
        1
        1
        "s"
        "user"
        "one"
        none
        empty).1 in
    (get_session_context metas histories (λ t a i l. []) true 20 2 5 "s" 10 added).0
    ≡ tail 10 (tail 100 (said "one" 10 ∷ []))
context_shared_example =
    context_shared metas histories (λ t a i. none) (λ t a i l. []) 10 20 1 1 2 5 9 "s" "user" "one"
      none empty refl

abbrev request_key : Key
request_key = record { tenant_id = 7; key = "k" }

abbrev requests : Redis Key Entry key_eq
requests = table Key Entry key_eq

response_replayed_example :
    let stored =
      (check_and_store requests true true 5 request_key "create" none 60 (λ k. none)).1 in
    let (done, answered) =
      store_response requests true true true 6 request_key null (some "id") 60 stored in
    let (result, after) =
      check_and_store requests true true 7 request_key "again" (some null) 60 answered in
    (done ≡ true)
    × (result.is_duplicate ≡ true)
    × (result.cached_response ≡ some null)
    × (result.original_request_id ≡ some "id")
    × (after ≡ answered)
    × (get_response requests true 7 request_key answered ≡ some null)
response_replayed_example =
    response_replayed requests 5 6 7 60 request_key "create" "again" none (some null) null
      (some "id") (λ k. none) refl (omega arith) (omega arith)

-- A server that runs each script that it is given a digest of, and counts the runs.
abbrev run_script : Sha → ℕ → Option (List ℕ) × ℕ
run_script (digest d) s = (some (1 ∷ 0 ∷ 0 ∷ []), s + 1)
run_script (flag b) s = (none, s)

abbrev server : Server
server = record {
  State = ℕ;
  evalsha = λ sha k args s. run_script sha s;
  incr = λ k s. (some (s + 1), s + 1);
  expire = λ k seconds s. (some true, s);
  refuses_bool = λ b k args s. refl;
}

abbrev recordings : List Unlimited.Recording
recordings =
    Unlimited.Recording.request 7 "runs"
    ∷ Unlimited.Recording.run_start true true 7
    ∷ Unlimited.Recording.run_end true false 7
    ∷ []

never_limited_example :
    let d = new_limits [] in
    let (l, s) = Unlimited.apply_all server recordings (new_limiter, 0) in
    ((a : RateLimitResult) × ((check_rate_limit server true true 50 7 "runs" "free" d l s).0 ≡ ok a)
      × (a.allowed ≡ true))
    × ((a : RateLimitResult) × ((check_concurrent_runs server true true 7 "free" d l s).0 ≡ ok a)
        × (a.allowed ≡ true))
    × ((check_global_concurrency server true true 1000 l s).0.allowed ≡ true)
    × ((record_run_start server true true 7 l s).1 ≡ s)
    × ((record_run_end server true true 7 l s).1 ≡ s)
unfolding lookup new_limits
never_limited_example =
    never_limited server true true 50 7 1000 "runs" "free" (new_limits []) recordings
      (new_limiter, 0) refl
