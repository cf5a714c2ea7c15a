-- ===== src/Money.antt =====
-- app/domain/value_objects/money.py: money in micro-units and token usage, both checked when built.
use aiagent_x.Common.{ℕ, ◌+◌, Bool, ltb, leb, not, ◌==◌, ◌||◌, if◌then◌else◌, Result, ok, raise}
use aiagent_x.Common.Int.{ℤ, pos, negsuc, ◌+ℤ◌, ◌*ℤ◌, is_neg, pos_part, sub_ℕ}

pub data MoneyError : Type 0 where
  negative_units negative_result : MoneyError

-- A built value is not negative, so its units are a natural number.
pub record Money : Type 0 where
  pub micro_units : ℕ

-- `Money(units)`, with the check of `__post_init__`.
unfoldable pub new : ℤ → Result MoneyError Money
new (pos n) = ok (record { micro_units = n })
new (negsuc n) = raise negative_units

abbrev pub money : ℕ → Money
money n = record { micro_units = n }

unfoldable pub add : Money → Money → Result MoneyError Money
unfolding new
add a b = new (pos a.micro_units +ℤ pos b.micro_units)

unfoldable pub sub : Money → Money → Result MoneyError Money
unfolding new
sub a b =
    let result = sub_ℕ a.micro_units b.micro_units in
    if is_neg result then raise negative_result else new result

unfoldable pub mul : Money → ℤ → Result MoneyError Money
unfolding new
mul a factor = new (pos a.micro_units *ℤ factor)

-- `__lt__`; `a > b` is the reflected `b < a`.
abbrev pub lt : Money → Money → Bool
lt a b = ltb a.micro_units b.micro_units

abbrev pub le : Money → Money → Bool
le a b = leb a.micro_units b.micro_units

pub data UsageError : Type 0 where
  negative_tokens total_mismatch : UsageError

pub record TokenUsage : Type 0 where
  pub prompt_tokens : ℕ
  pub completion_tokens : ℕ
  pub total_tokens : ℕ

-- `TokenUsage(prompt, completion, total)`: the total is compared as an integer, and is not
-- negative once it equals the sum of the other two.
unfoldable pub new_usage : ℤ → ℤ → ℤ → Result UsageError TokenUsage
new_usage prompt completion total =
    if is_neg prompt || is_neg completion
    then raise negative_tokens
    else if is_neg total || not (pos_part total == pos_part prompt + pos_part completion)
    then raise total_mismatch
    else ok (record {
      prompt_tokens = pos_part prompt;
      completion_tokens = pos_part completion;
      total_tokens = pos_part total;
    })

unfoldable pub add_usage : TokenUsage → TokenUsage → Result UsageError TokenUsage
unfolding new_usage
add_usage a b =
    new_usage (pos (a.prompt_tokens + b.prompt_tokens))
      (pos (a.completion_tokens + b.completion_tokens)) (pos (a.total_tokens + b.total_tokens))
