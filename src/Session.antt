-- ===== src/Session.antt =====
-- Conversations: `SessionMemoryCache` (app/infrastructure/cache/memory_cache.py) and, over it,
-- `SessionMemoryService` (app/application/services/session_memory_service.py). A call of Redis may
-- raise, which the cache catches: `up…` tells whether it does not. The keys of the cache name the
-- session alone. A call of the service reads one time, `now`, also as the server's. The summaries
-- in the database are what `stored` finds of the tenant's.
pub mod History
use aiagent_x.Common.{
  ℕ, ◌+◌, ◌*◌, String, Bool, true, false, Option, none, some, is_some, List, [], ◌∷◌, if◌then◌else◌,
}
use aiagent_x.Common.Text.{str_eq}
use aiagent_x.Common.Value.{Value}
use aiagent_x.Redis.{Redis}
use aiagent_x.RedisLists.{RedisLists}

pub record Message : Type 0 where
  pub role : String
  pub content : String
  pub timestamp : ℕ
  pub metadata : Option Value

pub record SessionMeta : Type 0 where
  pub session_id : String
  pub tenant_id : ℕ
  pub agent_id : ℕ
  pub created_at : ℕ
  pub updated_at : ℕ
  pub message_count : ℕ
  pub metadata : Option Value

abbrev pub default_ttl : ℕ
default_ttl = 604800

abbrev pub max_entries : ℕ
max_entries = 100

module _ (redis : Redis String SessionMeta str_eq) (lists : RedisLists String Message) where
  pub record Cache : Type 0 where
    pub metas : redis.State
    pub histories : lists.State

  -- `get` and `set` of the key "meta".
  unfoldable pub get_meta : (up : Bool) → (now : ℕ) → String → Cache → Option SessionMeta
  get_meta up now id c = if up then redis.get now id c.metas else none

  unfoldable pub set_meta : (up : Bool) → (now : ℕ) → String → SessionMeta → Cache → Cache
  set_meta up now id meta c =
      if up then record c { metas = redis.set now id meta default_ttl c.metas } else c

  -- The pipeline is one transaction: its three commands run at one time, or none of them does.
  unfoldable pub append_to_history :
      (up : Bool) → (now : ℕ) → String → Message → Cache → Bool × Cache
  append_to_history up now id m c =
      if up
      then (
        true,
        record c {
          histories =
              lists.expire now id default_ttl
                (lists.ltrim_tail now id max_entries (lists.rpush now id m c.histories));
        },
      )
      else (false, c)

  unfoldable pub get_recent_history :
      (up : Bool) → (now : ℕ) → String → (limit : ℕ) → Cache → List Message
  get_recent_history up now id limit c =
      if up then lists.lrange_tail now id limit c.histories else []

  unfoldable pub get_all_history : (up : Bool) → (now : ℕ) → String → Cache → List Message
  get_all_history up now id c = if up then lists.lrange_all now id c.histories else []

  -- The keys of the session that the service writes.
  unfoldable pub clear_session : (up : Bool) → String → Cache → Cache
  clear_session up id c =
      if up
      then record c { metas = redis.delete id c.metas; histories = lists.delete id c.histories }
      else c

  abbrev new_meta : (now now' tenant agent : ℕ) → String → Option Value → SessionMeta
  new_meta now now' tenant agent id metadata = record {
    session_id = id;
    tenant_id = tenant;
    agent_id = agent;
    created_at = now;
    updated_at = now';
    message_count = 0;
    metadata = metadata;
  }

  -- The service's methods. What the database holds for the session is read and not used.
  unfoldable pub create_session :
      (up₁ up₂ : Bool)
      → (now tenant agent : ℕ) → String
      → Option Value
      → Cache
      → SessionMeta × Cache
  unfolding get_meta set_meta
  create_session up₁ up₂ now tenant agent id metadata c = elim (get_meta up₁ now id c) [
    | some existing ↦ (existing, c)
    | none ↦
        let meta = new_meta now now tenant agent id metadata in (meta, set_meta up₂ now id meta c)
  ]

  module _ (stored : (tenant agent : ℕ) → String → Option SessionMeta) where
    unfoldable pub get_session_meta :
        (up₁ up₂ : Bool) → (now tenant agent : ℕ) → String → Cache → Option SessionMeta × Cache
    unfolding get_meta set_meta
    get_session_meta up₁ up₂ now tenant agent id c = elim (get_meta up₁ now id c) [
      | some meta ↦ (some meta, c)
      | none ↦ elim (stored tenant agent id) [
        | none ↦ (none, c)
        | some meta ↦ (some meta, set_meta up₂ now id meta c)
      ]
    ]

    unfoldable pub meta_or_new :
        (up₁ up₂ : Bool) → (now tenant agent : ℕ) → String → Cache → SessionMeta × Cache
    unfolding get_session_meta create_session
    meta_or_new up₁ up₂ now tenant agent id c =
        let (found, c') = get_session_meta up₁ up₂ now tenant agent id c in
        elim found [
          | some meta ↦ (meta, c')
          | none ↦ create_session up₁ up₂ now tenant agent id none c'
        ]

    -- `up₁` and `up₂` are for reading and writing the metadata, `up₃` for the history.
    unfoldable pub add_to_session :
        (up₁ up₂ up₃ : Bool)
        → (now tenant agent : ℕ) → (id role content : String) → Option Value
        → Cache
        → SessionMeta × Cache
    unfolding meta_or_new append_to_history set_meta
    add_to_session up₁ up₂ up₃ now tenant agent id role content metadata c =
        let (meta, c') = meta_or_new up₁ up₂ now tenant agent id c in
        let message : Message = record {
          role = role;
          content = content;
          timestamp = now;
          metadata = metadata;
        } in
        let appended = append_to_history up₃ now id message c' in
        let counted = record meta { message_count = meta.message_count + 1; updated_at = now } in
        (counted, set_meta up₂ now id counted appended.1)

  unfoldable pub append_all : (now : ℕ) → String → List Message → Cache → Cache
  unfolding append_to_history
  append_all now id [] c = c
  append_all now id (m ∷ ms) c =
      let (done, c') = append_to_history true now id m c in append_all now id ms c'

  abbrev pub or_restored : List Message → List Message × Cache → Cache → List Message × Cache
  or_restored (m ∷ ms) restored c = (m ∷ ms, c)
  or_restored [] restored c = restored

  -- `durable` is what the repository's search finds of the tenant, as messages.
  unfoldable pub get_session_context :
      (durable : (tenant agent : ℕ) → String → ℕ → List Message)
      → (up : Bool) → (now tenant agent : ℕ) → String
      → (limit : ℕ) → Cache
      → List Message × Cache
  unfolding get_recent_history append_all
  get_session_context durable up now tenant agent id limit c =
      let found = durable tenant agent id limit in
      or_restored (get_recent_history up now id limit c)
        (found, if up then append_all now id found c else c) c
