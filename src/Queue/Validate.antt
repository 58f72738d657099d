-- ===== src/Queue/Validate.antt =====
-- The validators of `Task` (recon/core/queue.py), which Pydantic runs on construction, on each
-- assignment to a field, and in `_updated_task`.
use night_scout.Prelude.{ℕ, String, Bool, true, not, ◌&&◌, Option, none, some, ltb, if◌then◌else◌}
use night_scout.Prelude.Text.{strip, upper, is_blank, strip_or_none}
use night_scout.Prelude.Exec.{value_error, Result, ok, err, ◌>>=◌}
use night_scout.Queue.Task.{running, Task, is_some, is_terminal, status_beq}

-- `must_not_be_blank`, and the check of `normalize_claim_token` on a token
unfoldable pub must_not_be_blank : String → Result String
must_not_be_blank value =
    let normalized = strip value in if is_blank normalized then err value_error else ok normalized

-- `normalize_optional_routing_text` and `normalize_optional_identity`
unfoldable pub normalize_optional : Option String → Option String
normalize_optional none = none
normalize_optional (some value) = strip_or_none value

unfoldable pub normalize_search_tier : Option String → Option String
normalize_search_tier none = none
normalize_search_tier (some value) =
    let normalized = upper (strip value) in if is_blank normalized then none else some normalized

unfoldable pub normalize_claim_token : Option String → Result (Option String)
normalize_claim_token none = ok none
normalize_claim_token (some value) = do normalized ← must_not_be_blank value; ok (some normalized)

-- `Field(default=None, ge=1)`
unfoldable pub at_least_one : Option ℕ → Bool
at_least_one none = true
at_least_one (some n) = ltb 0 n

finish_fields : Task → String → String → String → Option String → Result Task
unfolding at_least_one
finish_fields t worker action input_event_id claim_token =
    if ltb 0 t.max_attempts && at_least_one t.candidate_limit_hint
    then ok (record t {
      worker = worker;
      action = action;
      input_event_id = input_event_id;
      input_identity_key = normalize_optional t.input_identity_key;
      route_rule_id = normalize_optional t.route_rule_id;
      routing_reason = normalize_optional t.routing_reason;
      search_tier = normalize_search_tier t.search_tier;
      claim_token = claim_token;
    })
    else err value_error

-- The validators of single fields. `attempts` is at least 0 by its type.
unfoldable pub validate_fields : Task → Result Task
unfolding finish_fields
validate_fields t = do
  worker ← must_not_be_blank t.worker
  action ← must_not_be_blank t.action
  input_event_id ← must_not_be_blank t.input_event_id
  claim_token ← normalize_claim_token t.claim_token
  finish_fields t worker action input_event_id claim_token

-- `validate_lifecycle`
unfoldable pub validate_lifecycle : Task → Result Task
validate_lifecycle t =
    if ltb t.max_attempts t.attempts
    then err value_error
    else if is_some t.finished_at && not (is_terminal t)
    then err value_error
    else if status_beq t.status running && not (is_some t.started_at)
    then err value_error
    else if status_beq t.status running && not (is_some t.claim_token)
    then err value_error
    else if not (status_beq t.status running) && is_some t.lease_expires_at
    then err value_error
    else if not (status_beq t.status running) && is_some t.claim_token
    then err value_error
    else ok t

-- `Task.model_validate`
unfoldable pub validate : Task → Result Task
unfolding validate_fields validate_lifecycle
validate t = do normalized ← validate_fields t; validate_lifecycle normalized
