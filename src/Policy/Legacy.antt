-- ===== src/Policy/Legacy.antt =====
-- `ToolGrant.from_legacy_dict` (app/domain/entities/tool_grant.py).
use aiagent_x.Common.{
  ℕ, ◌≡◌, ◌⊎◌, refl, ◌∙◌, String, Bool, true, false, Option, none, some, List, [], ◌∷◌, map, arith,
  ok, any, ◌&&◌, ◌||◌, Bool-cases, inl, inr,
}
use aiagent_x.Common.Text.{is_empty, str_eq}
use aiagent_x.Common.Value.{Value}
use aiagent_x.Policy.Rules.{PolicyRule}
use aiagent_x.Policy.Evaluator
use aiagent_x.Policy.Evaluator.{rule_matches, matches_condition, apply_effect, sort_rules}
use aiagent_x.Policy.Priority.{choose, better, find-sort_rules}
use aiagent_x.Policy.Grant.{
  ToolGrant, LegacyPolicy, from_legacy_dict, create, allows, evaluate, legacy_rule, default_allow,
}

-- The action is listed; an empty text in the list stands for every action.
abbrev pub is_listed : String → List String → Bool
is_listed action actions = any (λ a. is_empty a || str_eq a action) actions

-- The effect that a choice among legacy rules has.
abbrev allow_of : Option PolicyRule → Bool → Bool
allow_of none default = default
allow_of (some r) default = r.effect.allow

module _ (cel : String → Value → Option Bool) (action : String) (resource : Option String)
    (context : Value) where
  legacy_rule-matches :
      (a : String)
      → rule_matches cel action resource context (legacy_rule a) ≡ (is_empty a || str_eq a action)
  unfolding matches_condition
  legacy_rule-matches a = ground arith

  choose_legacy :
      (actions : List String)
      → (choose (rule_matches cel action resource context) (map legacy_rule actions) ≡ none)
          × (is_listed action actions ≡ false)
        ⊎ ((a : String) × (choose
                (rule_matches cel action resource context)
                (map legacy_rule actions)
              ≡ some (legacy_rule a))
            × (is_listed action actions ≡ true))
  unfolding choose
  choose_legacy [] = inl (refl, refl)
  choose_legacy (a ∷ actions) = elim (Bool-cases (is_empty a || str_eq a action)) [
    | inl hit ↦ inr (
      a,
      elim (choose_legacy actions) [
        | inl (e, l) ↦ rw (e, legacy_rule-matches a, hit, better)
        | inr (b, e, l) ↦ rw (e, legacy_rule-matches a, hit, better)
      ],
      rw hit,
    )
    | inr miss ↦ elim (choose_legacy actions) [
      | inl (e, l) ↦ inl (rw (e, legacy_rule-matches a, miss), rw miss l)
      | inr (b, e, l) ↦ inr (b, rw (e, legacy_rule-matches a, miss), rw miss l)
    ]
  ]

  -- A grant made from a legacy policy allows exactly the listed actions, and all others only by
  -- the default: what `allow_by_default` says, else whether the list is empty. An empty text in the
  -- list lists every action, an inactive grant allows none, and the resources play no part.
  pub legacy-allows :
      (id now agent_version_id : ℕ) (tool_name : String) (p : LegacyPolicy) (is_active : Bool)
      {g : ToolGrant}
      → from_legacy_dict id now agent_version_id tool_name p is_active ≡ ok g
      → allows cel now g action resource context
        ≡ (is_active && (is_listed action p.allowed_actions || default_allow p))
  unfolding from_legacy_dict create allows evaluate Evaluator.evaluate apply_effect
  legacy-allows id now agent_version_id tool_name p is_active {g} h =
      let p' = rule_matches cel action resource context in
      let found = find-sort_rules p' (map legacy_rule p.allowed_actions) in
      elim (choose_legacy p.allowed_actions) [
        | inl (e, l) ↦ ground (arith, found ∙ e)
        | inr (a, e, l) ↦ ground (arith, found ∙ e)
      ]
