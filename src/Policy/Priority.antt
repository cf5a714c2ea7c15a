-- ===== src/Policy/Priority.antt =====
-- Which rule decides (`PolicyEvaluator.evaluate`, app/domain/value_objects/policy.py): the sort and
-- the first match in it, against the rules in the order in which they were written.
use aiagent_x.Common.{
  ℕ, ◌≡◌, ◌⊎◌, inl, inr, refl, ap, ◌∙◌, String, Bool, true, false, Option, none, some, List, [],
  ◌∷◌, ◌++◌, arith, All, All-append, find, if◌then◌else◌, Bool-cases, Option-cases,
}
use aiagent_x.Common.Value.{Value}
use aiagent_x.Policy.Rules.{PolicyRule, ToolPolicy, le_ℤ}
use aiagent_x.Policy.Evaluator.{sort_rules, place, rule_matches, evaluate, apply_effect}

-- `b` does not come behind `a` in priority.
abbrev pub UpTo : PolicyRule → PolicyRule → Type 0
UpTo b a = le_ℤ a.priority b.priority ≡ true

abbrev pub Below : PolicyRule → PolicyRule → Type 0
Below b a = le_ℤ b.priority a.priority ≡ false

-- `x` is a match of the highest priority among the matches, and the first of them at that priority.
pub record IsFirstHighest (p : PolicyRule → Bool) (rules : List PolicyRule) (x : PolicyRule)
    : Type 0 where
  pub matches : p x ≡ true
  pub before : List PolicyRule
  pub after : List PolicyRule
  pub place : rules ≡ before ++ x ∷ after
  pub lower_before : All (λ r. p r ≡ true → Below x r) before
  pub no_higher_after : All (λ r. p r ≡ true → UpTo x r) after

abbrev IsDescending : List PolicyRule → Type 0
IsDescending [] = Unit
IsDescending (r ∷ rules) = All (UpTo r) rules × IsDescending rules

UpTo-trans : (a b c : PolicyRule) → UpTo a b → UpTo b c → UpTo a c
UpTo-trans a b c h k = ground arith

Below-UpTo : (a b : PolicyRule) → Below a b → UpTo a b
Below-UpTo a b h = ground arith

All-map {κ} :
    {P Q : PolicyRule → Type κ} (rules : List PolicyRule)
    → ((r : PolicyRule) → P r → Q r)
    → All P rules
    → All Q rules
All-map [] f h = tt
All-map (r ∷ rules) f h = (f r h.0, All-map rules f h.1)

All-place :
    (a r : PolicyRule) (rules : List PolicyRule)
    → UpTo a r
    → All (UpTo a) rules
    → All (UpTo a) (place r rules)
unfolding place
All-place a r [] h k = (h, tt)
All-place a r (x ∷ rules) h k = elim (Bool-cases (le_ℤ x.priority r.priority)) [
  | inl le ↦ rw le (h, k)
  | inr gt ↦ rw gt (k.0, All-place a r rules h k.1)
]

place-IsDescending :
    (r : PolicyRule) (rules : List PolicyRule) → IsDescending rules → IsDescending (place r rules)
unfolding place
place-IsDescending r [] d = (tt, tt)
place-IsDescending r (x ∷ rules) d = elim (Bool-cases (le_ℤ x.priority r.priority)) [
  | inl le ↦ rw le ((le, All-map rules (λ y h. UpTo-trans r x y le h) d.0), (d.0, d.1))
  | inr gt ↦ rw gt (All-place x r rules (Below-UpTo x r gt) d.0, place-IsDescending r rules d.1)
]

sort_rules-IsDescending : (rules : List PolicyRule) → IsDescending (sort_rules rules)
unfolding sort_rules
sort_rules-IsDescending [] = tt
sort_rules-IsDescending (r ∷ rules) =
    place-IsDescending r (sort_rules rules) (sort_rules-IsDescending rules)

-- The better of a rule and a choice among later ones.
abbrev pub better : (PolicyRule → Bool) → PolicyRule → Option PolicyRule → Option PolicyRule
better p r none = if p r then some r else none
better p r (some x) =
    if p r then (if le_ℤ x.priority r.priority then some r else some x) else some x

find-UpTo :
    (p : PolicyRule → Bool) (a x : PolicyRule) (rules : List PolicyRule)
    → All (UpTo a) rules
    → find p rules ≡ some x
    → UpTo a x
find-UpTo p a x [] h e = ground arith
find-UpTo p a x (r ∷ rules) h e = ground (arith, find-UpTo p a x rules)

find-place :
    (p : PolicyRule → Bool) (r : PolicyRule) (rules : List PolicyRule)
    → IsDescending rules
    → find p (place r rules) ≡ better p r (find p rules)
unfolding place
find-place p r [] d = refl
find-place p r (x ∷ rules) d = elim (Bool-cases (le_ℤ x.priority r.priority)) [
  | inl le ↦ elim (Bool-cases (p x)) [
    | inl hit ↦ rw (le, hit, le)
    | inr miss ↦ elim (Option-cases (find p rules)) [
      | inl none' ↦ rw (le, miss, none')
      | inr (y, found) ↦ rw (le, miss, found, UpTo-trans r x y le (find-UpTo p x y rules d.0 found))
    ]
  ]
  | inr gt ↦ elim (Bool-cases (p x)) [
    | inl hit ↦ ground arith
    | inr miss ↦ ground (arith, find-place p r rules d.1)
  ]
]

-- The choice over the rules as written.
unfoldable pub choose : (PolicyRule → Bool) → List PolicyRule → Option PolicyRule
choose p [] = none
choose p (r ∷ rules) = better p r (choose p rules)

pub find-sort_rules :
    (p : PolicyRule → Bool) (rules : List PolicyRule) → find p (sort_rules rules) ≡ choose p rules
unfolding sort_rules choose
find-sort_rules p [] = refl
find-sort_rules p (r ∷ rules) =
    find-place p r (sort_rules rules) (sort_rules-IsDescending rules)
    ∙ ap (better p r) (find-sort_rules p rules)

abbrev Chosen : (PolicyRule → Bool) → List PolicyRule → Type 0
Chosen p rules =
    ((x : PolicyRule) × IsFirstHighest p rules x × (choose p rules ≡ some x))
    ⊎ (All (λ r. p r ≡ false) rules × (choose p rules ≡ none))

cons-Chosen :
    (p : PolicyRule → Bool) (r : PolicyRule) (rules : List PolicyRule)
    → Chosen p rules
    → Chosen p (r ∷ rules)
unfolding choose
cons-Chosen p r rules (inr (no', e)) = elim (Bool-cases (p r)) [
  | inl hit ↦ inl (
    r,
    record {
      matches = hit;
      before = [];
      after = rules;
      place = refl;
      lower_before = tt;
      no_higher_after = All-map rules (λ y m h. absurd (ground arith)) no';
    },
    rw (e, hit),
  )
  | inr miss ↦ inr ((miss, no'), rw (e, miss))
]
cons-Chosen p r rules (inl (x, h, e)) = elim (Bool-cases (p r)) [
  | inr miss ↦ inl (
    x,
    record {
      matches = h.matches;
      before = r ∷ h.before;
      after = h.after;
      place = ap (◌∷◌ r) h.place;
      lower_before = ((λ m. absurd (ground arith)), h.lower_before);
      no_higher_after = h.no_higher_after;
    },
    rw (e, miss),
  )
  | inl hit ↦ elim (Bool-cases (le_ℤ x.priority r.priority)) [
    | inr gt ↦ inl (
      x,
      record {
        matches = h.matches;
        before = r ∷ h.before;
        after = h.after;
        place = ap (◌∷◌ r) h.place;
        lower_before = ((λ m. gt), h.lower_before);
        no_higher_after = h.no_higher_after;
      },
      rw (e, hit, gt),
    )
    | inl le ↦ inl (
      r,
      record {
        matches = hit;
        before = [];
        after = rules;
        place = refl;
        lower_before = tt;
        no_higher_after = rw h.place (
            All-append _ h.before (x ∷ h.after)
              (All-map h.before (λ y k m. UpTo-trans r x y le (Below-UpTo x y (k m)))
                h.lower_before)
              ((λ m. le), All-map h.after (λ y k m. UpTo-trans r x y le (k m)) h.no_higher_after));
      },
      rw (e, hit, le),
    )
  ]
]

choose-Chosen : (p : PolicyRule → Bool) (rules : List PolicyRule) → Chosen p rules
unfolding choose
choose-Chosen p [] = inr (tt, refl)
choose-Chosen p (r ∷ rules) = cons-Chosen p r rules (choose-Chosen p rules)

-- A policy decides by the effect of the first of its matching rules of the highest priority, in the
-- order in which they were written, and by its default effect exactly if no rule matches.
pub evaluate_highest :
    (cel : String → Value → Option Bool) (now : ℕ) (policy : ToolPolicy) (action : String)
    (resource : Option String) (context : Value)
    → let p = rule_matches cel action resource context in
      ((x : PolicyRule) × IsFirstHighest p policy.rules x
        × (evaluate cel now policy action resource context ≡ apply_effect now x.effect (some x)))
      ⊎ (All (λ r. p r ≡ false) policy.rules
          × (evaluate cel now policy action resource context
              ≡ apply_effect now policy.default_effect none))
unfolding evaluate
evaluate_highest cel now policy action resource context =
    let p = rule_matches cel action resource context in
    let found = find-sort_rules p policy.rules in
    elim (choose-Chosen p policy.rules) [
      | inl (x, h, e) ↦ inl (x, h, rw (found ∙ e, evaluate))
      | inr (h, e) ↦ inr (h, rw (found ∙ e, evaluate))
    ]
