-- ===== src/Cancellation.antt =====
-- `CancellationService` (app/application/services/cancellation_service.py) and its
-- `CancellationSignals` (app/infrastructure/cache/cancellation_signals.py). A call of Redis may
-- raise, which the signals catch: `up…` tells whether it does not. A flag is kept under the run's id
-- and holds nothing but its presence. Events that are added to a run after it was saved are dropped
-- with the entity, and are left out.
pub mod Flags
use aiagent_x.Common.{
  ℕ, ◌+◌, ◌*◌, ◌-◌, String, Bool, true, false, Option, none, some, is_some, List, ◌∷◌, Result, ok,
  raise, ltb, ◌==◌, if◌then◌else◌,
}
use aiagent_x.RunState.{is_terminal}
use aiagent_x.Run.Data.{Run, RunError}
use aiagent_x.Run.Methods.{cancel}
use aiagent_x.Run.Table.{Entity}
use aiagent_x.Redis.{Redis}

-- The protocol `RunRepository` (app/domain/repositories/run.py), as far as the service calls it.
pub record RunRepository (E : Type 0) : Type 1 where
  pub Store : Type 0
  pub get : ℕ → Store → Result E (Option Entity)
  pub update : Entity → Store → Result E (Unit {0}) × Store

pub data Signal : Type 0 where
  request : (run_id tenant_id : ℕ) → Option String → Signal
  ack : (run_id tenant_id : ℕ) → String → Signal
  complete : (run_id tenant_id : ℕ) → String → (steps_cancelled : ℕ) → Bool → Signal

pub data CancelError (E : Type 0) : Type 0 where
  repository_error : E → CancelError E
  run_error : RunError → CancelError E

abbrev pub flag_seconds : ℕ
flag_seconds = 300

module _ {E : Type 0} (repo : RunRepository E) (redis : Redis ℕ (Unit {0}) ◌==◌) where
  open repo use {Store}
  open redis use {State}

  -- `published` is what went to the runs' channels, the latest first.
  pub record World : Type 0 where
    pub runs : Store
    pub flags : State
    pub published : List Signal

  abbrev pub Action : Type 0 → Type 0
  Action A = World → Result (CancelError E) A × World

  -- The signals' methods; none of them raises.
  unfoldable pub publish : (up : Bool) → Signal → World → Bool × World
  publish up signal w =
      if up then (true, record w { published = signal ∷ w.published }) else (false, w)

  unfoldable pub set_flag : (up : Bool) → (now run_id : ℕ) → World → World
  set_flag up now id w =
      if up then record w { flags = redis.set now id tt flag_seconds w.flags } else w

  unfoldable pub check_flag : (up : Bool) → (now run_id : ℕ) → World → Bool
  check_flag up now id w = if up then is_some (redis.get now id w.flags) else false

  unfoldable pub clear_flag : (up : Bool) → (run_id : ℕ) → World → World
  clear_flag up id w = if up then record w { flags = redis.delete id w.flags } else w

  -- `run.cancel_requested_at = now`, then `update`.
  abbrev pub mark : ℕ → Entity → Entity
  mark now e = record e { run = record e.run { cancel_requested_at = some now } }

  abbrev pub saved : World → Result E (Unit {0}) × Store → Result (CancelError E) (Unit {0}) × World
  saved w (ok u, s) = (ok u, record w { runs = s })
  saved w (raise e, s) = (raise (repository_error e), record w { runs = s })

  abbrev pub announce :
      (up₁ up₂ : Bool)
      → (now : ℕ) → Signal
      → ℕ
      → Result (CancelError E) (Unit {0}) × World
      → Result (CancelError E) Bool × World
  unfolding publish set_flag
  announce up₁ up₂ now signal id (raise e, w) = (raise e, w)
  announce up₁ up₂ now signal id (ok _, w) =
      let (success, w') = publish up₁ signal w in (ok success, set_flag up₂ now id w')

  unfoldable pub request_cancellation :
      (up₁ up₂ : Bool) → (now now' run_id : ℕ) → Option String → Action Bool
  unfolding publish set_flag
  request_cancellation up₁ up₂ now now' id reason w = elim (repo.get id w.runs) [
    | raise e ↦ (raise (repository_error e), w)
    | ok none ↦ (ok false, w)
    | ok (some e) ↦
        if is_terminal e.run.state
        then (ok true, w)
        else announce up₁ up₂ now' (request id e.run.tenant_id reason) id
            (saved w (repo.update (mark now e) w.runs))
  ]

  abbrev pub was_requested : Result E (Option Entity) → Result (CancelError E) Bool
  was_requested (raise e) = raise (repository_error e)
  was_requested (ok none) = ok false
  was_requested (ok (some e)) = ok (is_some e.run.cancel_requested_at)

  unfoldable pub is_cancelled : (up : Bool) → (now run_id : ℕ) → World → Result (CancelError E) Bool
  unfolding check_flag
  is_cancelled up now id w =
      if check_flag up now id w then ok true else was_requested (repo.get id w.runs)

  unfoldable pub acknowledge_cancellation : (up : Bool) → (run_id : ℕ) → String → Action Bool
  unfolding publish
  acknowledge_cancellation up id worker w = elim (repo.get id w.runs) [
    | raise e ↦ (raise (repository_error e), w)
    | ok none ↦ (ok false, w)
    | ok (some e) ↦
        let (success, w') = publish up (ack id e.run.tenant_id worker) w in (ok success, w')
  ]

  abbrev pub finish :
      (up₁ up₂ : Bool)
      → Signal
      → ℕ
      → Result (CancelError E) (Unit {0}) × World
      → Result (CancelError E) Bool × World
  unfolding publish clear_flag
  finish up₁ up₂ signal id (raise e, w) = (raise e, w)
  finish up₁ up₂ signal id (ok _, w) =
      let (success, w') = publish up₁ signal w in (ok success, clear_flag up₂ id w')

  unfoldable pub save_cancelled : Entity → Result RunError (Unit {0}) × Run → Action (Unit {0})
  save_cancelled e (raise x, r) w = (raise (run_error x), w)
  save_cancelled e (ok _, r) w = saved w (repo.update (record e { run = r }) w.runs)

  unfoldable pub complete_cancellation :
      (up₁ up₂ : Bool)
      → (now₁ now₂ run_id : ℕ) → String
      → (steps_cancelled : ℕ) → Bool
      → Action Bool
  unfolding cancel save_cancelled publish clear_flag
  complete_cancellation up₁ up₂ now₁ now₂ id worker steps cleanup w = elim (repo.get id w.runs) [
    | raise e ↦ (raise (repository_error e), w)
    | ok none ↦ (ok false, w)
    | ok (some e) ↦
        finish up₁ up₂ (complete id e.run.tenant_id worker steps cleanup) id
          (save_cancelled e (cancel now₁ now₂ (some "Cancellation completed") e.run) w)
  ]

  -- `timeout` is the setting `cancellation_timeout_seconds`.
  abbrev pub overdue : (now timeout : ℕ) → Entity → Bool
  overdue now timeout e = elim e.run.cancel_requested_at [
    | none ↦ false
    | some t ↦ ltb (t + timeout * 1000000) now
  ]

  abbrev pub confirmed :
      Result (CancelError E) (Unit {0}) × World → Result (CancelError E) Bool × World
  confirmed (raise e, w) = (raise e, w)
  confirmed (ok _, w) = (ok true, w)

  unfoldable pub check_cancellation_timeout : (now timeout run_id : ℕ) → Action Bool
  check_cancellation_timeout now timeout id w = elim (repo.get id w.runs) [
    | raise e ↦ (raise (repository_error e), w)
    | ok none ↦ (ok false, w)
    | ok (some e) ↦
        if overdue now timeout e then confirmed (saved w (repo.update e w.runs)) else (ok false, w)
  ]

  -- `cleanup` and `cleanup_cancellation_resources`.
  unfoldable pub cleanup : (up : Bool) → ℕ → World → Bool × World
  unfolding clear_flag
  cleanup up id w = (true, clear_flag up id w)
