-- ===== src/Runbooks/Schema.antt =====
-- backend/app/runbooks/schema.py: a runbook, as far as some code reads it, and the contract that its
-- validator enforces.
use cloud_ward.Prelude.{ℕ, String, Bool, not, List, all, has_text, ◌&&◌, ◌||◌, ◌*◌, leb}
use cloud_ward.Actions.Registry.{ActionType, action_registry}

pub data RunbookEnvironment : Type 0 where
  local staging production : RunbookEnvironment

abbrev pub environment_text : RunbookEnvironment → String
environment_text local = "local"
environment_text staging = "staging"
environment_text production = "production"

pub record MatchSchema : Type 0 where
  pub incident_type : String
  pub conditions : List String

pub record PreconditionsSchema : Type 0 where
  pub max_target_pods : ℕ
  pub controller_managed : Bool

-- A duration text such as 120s or 2m, read as its number and its unit.
pub data Duration : Type 0 where
  in_seconds in_minutes : ℕ → Duration

-- `timeout_seconds`
unfoldable pub timeout_seconds : Duration → ℕ
timeout_seconds (in_seconds n) = n
timeout_seconds (in_minutes n) = n * 60

-- `validate_duration`: a positive number, and at most ten minutes.
unfoldable pub valid_duration : Duration → Bool
unfolding timeout_seconds
valid_duration d = leb 1 (timeout_seconds d) && leb (timeout_seconds d) 600

pub record RunbookDocument : Type 0 where
  pub id : String
  pub version : ℕ
  pub environments : List RunbookEnvironment
  pub matches : MatchSchema
  pub preconditions : PreconditionsSchema
  pub action : ActionType
  pub timeout : Duration
  pub rollback_enabled : Bool

-- `validate_action_contract`
unfoldable pub valid_contract : RunbookDocument → Bool
valid_contract r =
    all (λ e. has_text (environment_text e) (action_registry r.action).allowed_environments)
      r.environments
    && (not r.rollback_enabled || (action_registry r.action).rollback_capable)
