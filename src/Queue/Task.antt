-- ===== src/Queue/Task.antt =====
-- `TaskStatus`, `Task` and the validators of `Task` (recon/core/queue.py). Timestamps are aware
-- moments, counted in microseconds; priorities are fixed-point numbers.
use Prim.Native.String.{◌++◌ as str_append}
use night_scout.Prelude.{
  ℕ, ◌-◌, String, ◌≡◌, ◌↔◌, Bool, true, false, Option, none, some, arith, Eq, eqb, if◌then◌else◌,
}
use night_scout.Prelude.Int.{ℤ}
use night_scout.Prelude.Text.{is_blank}

pub data TaskStatus : Type 0 where
  pending running deferred succeeded failed cancelled blocked review : TaskStatus

abbrev status_number : TaskStatus → ℕ
status_number pending = 0
status_number running = 1
status_number deferred = 2
status_number succeeded = 3
status_number failed = 4
status_number cancelled = 5
status_number blocked = 6
status_number review = 7

abbrev pub status_beq : TaskStatus → TaskStatus → Bool
status_beq a b = eqb (status_number a) (status_number b)

pub status_beq_iff : (a b : TaskStatus) → (status_beq a b ≡ true) ↔ (a ≡ b)
status_beq_iff a b = ground arith

instance abbrev pub status_eq : Eq TaskStatus
status_eq = record { beq = status_beq; beq_iff = status_beq_iff }

-- `status in TERMINAL_TASK_STATUSES`
abbrev pub is_terminal_status : TaskStatus → Bool
is_terminal_status succeeded = true
is_terminal_status failed = true
is_terminal_status cancelled = true
is_terminal_status blocked = true
is_terminal_status _ = false

-- `status in {TaskStatus.PENDING, TaskStatus.DEFERRED}`
abbrev pub is_runnable_status : TaskStatus → Bool
is_runnable_status pending = true
is_runnable_status deferred = true
is_runnable_status _ = false

pub record Task : Type 0 where
  pub task_id : String
  pub worker : String
  pub action : String
  pub input_event_id : String
  pub input_identity_key : Option String
  pub branch_id : Option String
  pub route_rule_id : Option String
  pub routing_reason : Option String
  pub status : TaskStatus
  pub priority : ℤ
  pub attempts : ℕ
  pub max_attempts : ℕ
  pub created_at : ℕ
  pub updated_at : ℕ
  pub available_at : ℕ
  pub started_at : Option ℕ
  pub finished_at : Option ℕ
  pub lease_expires_at : Option ℕ
  pub claim_token : Option String
  pub last_error : Option String
  pub search_tier : Option String
  pub candidate_limit_hint : Option ℕ

abbrev pub is_some {ℓ} : {A : Type ℓ} → Option A → Bool
is_some none = false
is_some (some a) = true

-- `Task.is_terminal`
abbrev pub is_terminal : Task → Bool
is_terminal t = is_terminal_status t.status

infixr 60 ◌++◌
abbrev ◌++◌ : String → String → String
s ++ t = str_append s t

-- `self.input_identity_key or self.input_event_id`
logical_input : Option String → String → String
logical_input none event = event
logical_input (some identity) event = if is_blank identity then event else identity

-- `Task.dedupe_key`
unfoldable pub dedupe_key : Task → String
unfolding logical_input
dedupe_key t =
    t.worker ++ ":" ++ t.action ++ ":" ++ logical_input t.input_identity_key t.input_event_id

-- `Task.retries_remaining`
unfoldable pub retries_remaining : Task → ℕ
retries_remaining t = t.max_attempts - t.attempts
