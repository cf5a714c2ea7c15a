-- ===== src/Tests/Agents.antt =====
-- An agent with two drafts (app/domain/entities/agent.py).
use aiagent_x.Common.{ℕ, ◌≡◌, ◌⊎◌, ◌≤◌, refl, arith, none, some, List, [], ◌∷◌, ok, raise}
use aiagent_x.Common.Int.{pos}
use aiagent_x.Agent.Version
use aiagent_x.Agent.Version.{
  AgentVersion, draft, published, default_model_policy, version_not_found,
}
use aiagent_x.Agent.Aggregate.{Agent, get_version, publish_version, get_published_version}
use aiagent_x.Agent.Published.{
  Call, apply_all, published_count, apply_all-published_count, publish_version-get_published,
}
use aiagent_x.Agent.Frozen.{FrozenIn, frozen}

abbrev version_of : ℕ → Version.AgentStatus → AgentVersion
version_of n status = record {
  id = n;
  updated_at = 0;
  agent_id = 1;
  tenant_id = 7;
  version = n;
  system_prompt = "help";
  model_policy = default_model_policy;
  memory_mode = "session";
  status = status;
}

abbrev agent : Agent
agent = record {
  id = 1;
  updated_at = 0;
  events = [];
  tenant_id = 7;
  name = "helper";
  description = none;
  versions = version_of 1 published ∷ version_of 2 draft ∷ [];
}

abbrev changes : List Call
changes =
    Call.publish_version 1 2 3 (pos 2)
    ∷ Call.update_version 4 (pos 1) (some "other") none none
    ∷ Call.create_version 3 5 6 (pos 3) "new" default_model_policy "session"
    ∷ Call.publish_version 7 8 9 (pos 3)
    ∷ []

frozen_example : FrozenIn (pos 1) (version_of 1 published) (apply_all changes agent).versions
unfolding get_version
frozen_example = frozen changes (pos 1) agent (version_of 1 published) refl refl

apply_all-published_count_example : published_count (apply_all changes agent).versions ≤ 1
apply_all-published_count_example = apply_all-published_count changes agent (omega arith)

publish_version-get_published_example :
    ((v u : AgentVersion) × (get_version (pos 2) agent ≡ some v)
      × ((publish_version 1 2 3 (pos 2) agent).0 ≡ ok tt)
      × (get_published_version (publish_version 1 2 3 (pos 2) agent).1 ≡ some u)
      × (u.version ≡ v.version))
    ⊎ ((get_version (pos 2) agent ≡ none)
        × (publish_version 1 2 3 (pos 2) agent ≡ (raise (version_not_found (pos 2)), agent)))
publish_version-get_published_example =
    publish_version-get_published 1 2 3 (pos 2) agent (omega arith)
