-- ===== src/Session/History.antt =====
-- What a session's history holds (app/infrastructure/cache/memory_cache.py,
-- app/application/services/session_memory_service.py).
use mathlib.Core.Path.{subst}
use mathlib.Core.List.{append-nil, append_assoc}
use aiagent_x.Common.{
  ℕ, suc, ◌+◌, ◌*◌, ◌<◌, ◌≡◌, refl, sym, ◌∙◌, ap, arith, String, Bool, true, Option, List, [], ◌∷◌,
  ◌++◌, map, ltb, ◌&&◌, length, length-append, length-drop, ◌-◌,
}
use aiagent_x.Common.Text.{str_eq}
use aiagent_x.Common.Value.{Value}
use aiagent_x.Redis.{Redis}
use aiagent_x.RedisLists.{RedisLists, tail, tail-append}
use aiagent_x.Session.{
  Message, SessionMeta, Cache, max_entries, default_ttl, append_to_history, get_recent_history,
  get_all_history, add_to_session, get_session_context, meta_or_new, get_session_meta,
  create_session, set_meta, or_restored,
}

module _ (redis : Redis String SessionMeta str_eq) (lists : RedisLists String Message)
    (id : String) where
  -- Messages are appended at given times while Redis answers.
  unfoldable pub append_each : List (ℕ × Message) → Cache redis lists → Cache redis lists
  unfolding append_to_history
  append_each [] c = c
  append_each ((t, m) ∷ ms) c = append_each ms (append_to_history redis lists true t id m c).1

  abbrev pub next_time : List (ℕ × Message) → ℕ → ℕ
  next_time [] later = later
  next_time ((t, m) ∷ ms) later = t

  -- No append, and not `later` either, comes as late as the history's time of life after the one
  -- before it.
  unfoldable pub timely : List (ℕ × Message) → ℕ → Bool
  timely [] later = true
  timely ((t, m) ∷ ms) later =
      ltb (next_time ms later) (t + default_ttl * 1000000) && timely ms later

  abbrev pub message_of : ℕ × Message → Message
  message_of (t, m) = m

  unfoldable pub history_at : ℕ → Cache redis lists → List Message
  history_at now c = lists.lrange_all now id c.histories

  pub appended :
      (t later : ℕ) (m : Message) (c : Cache redis lists)
      → ltb later (t + default_ttl * 1000000) ≡ true
      → history_at later (append_to_history redis lists true t id m c).1
        ≡ tail max_entries (history_at t c ++ m ∷ [])
  unfolding append_to_history history_at
  appended t later m c h =
      let s = lists.rpush t id m c.histories in
      ground (
        arith,
        h,
        lists.all-expire t later default_ttl id (lists.ltrim_tail t id max_entries s),
        lists.all-ltrim_tail t max_entries id s,
        lists.all-rpush t id m c.histories,
      )

  kept :
      (ms : List (ℕ × Message)) (later : ℕ) (xs : List Message) (c : Cache redis lists)
      → history_at (next_time ms later) c ≡ tail max_entries xs
      → timely ms later ≡ true
      → history_at later (append_each ms c) ≡ tail max_entries (xs ++ map message_of ms)
  unfolding append_each timely
  kept [] later xs c h on_time = rw (append-nil xs) h
  kept ((t, m) ∷ ms) later xs c h on_time = rw (← append_assoc xs (m ∷ []) (map message_of ms)) (
      kept ms later (xs ++ m ∷ []) (append_to_history redis lists true t id m c).1 step
        (ground (arith, on_time)))
    where
      step :
          history_at (next_time ms later) (append_to_history redis lists true t id m c).1
          ≡ tail max_entries (xs ++ m ∷ [])
      step =
          appended t (next_time ms later) m c (ground (arith, on_time))
          ∙ ap (λ ys. tail max_entries (ys ++ m ∷ [])) h
          ∙ tail-append 99 xs (m ∷ [])

  -- While Redis answers: a history that starts empty and lives on keeps the last hundred of the
  -- messages appended to it, in their order, and its recent part is the last of those, all of them
  -- where the limit is 0.
  pub history_kept :
      (ms : List (ℕ × Message)) (later limit : ℕ) (c : Cache redis lists)
      → lists.lrange_all (next_time ms later) id c.histories ≡ []
      → timely ms later ≡ true
      → let after = append_each ms c in
        (get_all_history redis lists true later id after ≡ tail 100 (map message_of ms))
        × (get_recent_history redis lists true later id limit after
            ≡ tail limit (tail 100 (map message_of ms)))
  unfolding get_all_history get_recent_history history_at
  history_kept ms later limit c h on_time =
      let all = kept ms later [] c h on_time in
      (all, lists.tail-all later limit id (append_each ms c).histories ∙ ap (tail limit) all)

tail_some : (n : ℕ) (xs : List Message) → 0 < length xs → 0 < length (tail (suc n) xs)
tail_some n xs h = omega (arith, h, length-drop (length xs - suc n) xs)

module _ (redis : Redis String SessionMeta str_eq) (lists : RedisLists String Message)
    (stored : (tenant agent : ℕ) → String → Option SessionMeta)
    (durable : (tenant agent : ℕ) → String → ℕ → List Message) where
  or_restored-some :
      (ms : List Message) (restored : List Message × Cache redis lists) (c : Cache redis lists)
      → 0 < length ms
      → (or_restored redis lists ms restored c).0 ≡ ms
  or_restored-some [] restored c h = ground (arith, h)
  or_restored-some (m ∷ ms) restored c h = refl

  meta_or_new-keeps :
      (up₁ up₂ : Bool) (now tenant agent : ℕ) (id : String) (c : Cache redis lists)
      → (meta_or_new redis lists stored up₁ up₂ now tenant agent id c).1.histories ≡ c.histories
  unfolding meta_or_new get_session_meta create_session set_meta
  meta_or_new-keeps up₁ up₂ now tenant agent id c = ground arith

  context_some :
      (later tenant agent n : ℕ) (id : String) (xs : List Message) (m : Message)
      (c : Cache redis lists)
      → lists.lrange_all later id c.histories ≡ tail 100 (xs ++ m ∷ [])
      → (get_session_context redis lists durable true later tenant agent id (suc n) c).0
        ≡ tail (suc n) (tail 100 (xs ++ m ∷ []))
  unfolding get_session_context get_recent_history
  context_some later tenant agent n id xs m c h =
      let ys = tail 100 (xs ++ m ∷ []) in
      let one =
        tail_some n ys (tail_some 99 (xs ++ m ∷ []) (omega (arith, length-append xs (m ∷ [])))) in
      let recent = lists.tail-all later (suc n) id c.histories ∙ ap (tail (suc n)) h in
      or_restored-some (lists.lrange_tail later id (suc n) c.histories) _ c
        (subst (λ zs. 0 < length zs) (sym recent) one)
      ∙ recent

  -- While Redis answers, and within the history's time of life: what a tenant adds to a session is the
  -- last message of the context that any tenant and any agent is given for the same session id, after
  -- what the history held of its last hundred.
  pub context_shared :
      (now later tenant agent other other_agent n : ℕ) (id role content : String)
      (metadata : Option Value) (c : Cache redis lists)
      → ltb later (now + default_ttl * 1000000) ≡ true
      → let message : Message = record {
        role = role;
        content = content;
        timestamp = now;
        metadata = metadata;
      } in
        let added =
          (add_to_session redis lists stored true true true now tenant agent id role content
            metadata c).1 in
        (get_session_context redis lists durable true later other other_agent id (suc n) added).0
        ≡ tail (suc n) (tail 100 (lists.lrange_all now id c.histories ++ message ∷ []))
  unfolding add_to_session append_to_history set_meta history_at
  context_shared now later tenant agent other other_agent n id role content metadata c soon =
      let message : Message = record {
        role = role;
        content = content;
        timestamp = now;
        metadata = metadata;
      } in
      let c' = (meta_or_new redis lists stored true true now tenant agent id c).1 in
      context_some later other other_agent n id (lists.lrange_all now id c.histories) message
        (add_to_session redis lists stored true true true now tenant agent id role content metadata
          c).1
        (appended redis lists id now later message c' soon
          ∙ ap (λ h. tail 100 (lists.lrange_all now id h ++ message ∷ []))
              (meta_or_new-keeps true true now tenant agent id c))
