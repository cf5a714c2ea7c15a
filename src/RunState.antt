-- ===== src/RunState.antt =====
-- app/domain/value_objects/state.py: the states of a run and the transitions between them.
use aiagent_x.Common.{ℕ, Bool, ◌==◌, List, [], ◌∷◌, any}

pub data RunState : Type 0 where
  queued running awaiting_approval retry_scheduled succeeded failed cancelled timed_out : RunState

-- The place of a state in the enumeration, by which states are compared.
abbrev pub rank : RunState → ℕ
rank queued = 0
rank running = 1
rank awaiting_approval = 2
rank retry_scheduled = 3
rank succeeded = 4
rank failed = 5
rank cancelled = 6
rank timed_out = 7

abbrev pub state_eq : RunState → RunState → Bool
state_eq a b = rank a == rank b

-- `state in {…}`.
abbrev pub state_in : RunState → List RunState → Bool
state_in s states = any (state_eq s) states

unfoldable pub is_terminal : RunState → Bool
is_terminal s = state_in s (succeeded ∷ failed ∷ cancelled ∷ timed_out ∷ [])

unfoldable pub is_active : RunState → Bool
is_active s = state_in s (running ∷ awaiting_approval ∷ [])

unfoldable pub is_queued : RunState → Bool
is_queued s = state_in s (queued ∷ retry_scheduled ∷ [])

pub valid_transitions : RunState → List RunState
valid_transitions queued = running ∷ cancelled ∷ timed_out ∷ []
valid_transitions running =
    awaiting_approval ∷ succeeded ∷ failed ∷ cancelled ∷ timed_out ∷ retry_scheduled ∷ []
valid_transitions awaiting_approval = running ∷ failed ∷ cancelled ∷ timed_out ∷ []
valid_transitions retry_scheduled = queued ∷ running ∷ cancelled ∷ timed_out ∷ []
valid_transitions succeeded = []
valid_transitions failed = []
valid_transitions cancelled = []
valid_transitions timed_out = []

unfoldable pub can_transition_to : RunState → RunState → Bool
unfolding valid_transitions
can_transition_to s new_state = state_in new_state (valid_transitions s)

pub data RunStepKind : Type 0 where
  model_call tool_call memory_read memory_write approval_request conditional loop : RunStepKind
