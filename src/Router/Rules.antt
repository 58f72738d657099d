-- ===== src/Router/Rules.antt =====
-- `RoutingContext`, `RouteRule` and `_normalize_tags` (recon/core/router.py). A predicate is a
-- function that comes with the rule. Sets are lists without repetition.
use Prim.Native.String.{◌++◌ as str_append}
use night_scout.Prelude.{
  ℕ, String, Bool, true, false, not, Option, none, some, List, [], ◌∷◌, map, keep, if◌then◌else◌,
  string_eq,
}
use night_scout.Prelude.Int.{ℤ, ◌+ℤ◌}
use night_scout.Prelude.Text.{strip, is_blank, lower, strip_or_none}
use night_scout.Prelude.Sets.{member, set_of, is_subset, overlaps}
use night_scout.Prelude.Exec.{value_error, Result, ok, err}
use night_scout.Queue.Task.{Task, pending}
use night_scout.Queue.Validate.{validate}
use night_scout.Events.{Event, EventType, type_value, type_eq, identity_key}

pub record RoutingContext : Type 0 where
  pub branch_id : Option String
  pub priority_bias : ℤ
  pub disabled_workers : List String
  pub disabled_rules : List String

-- `RoutingContext.worker_enabled` and `RoutingContext.rule_enabled`
unfoldable pub worker_enabled : RoutingContext → String → Bool
worker_enabled c worker = not (member worker c.disabled_workers)

unfoldable pub rule_enabled : RoutingContext → String → Bool
rule_enabled c rule_id = not (member rule_id c.disabled_rules)

pub record RouteRule : Type 0 where
  pub rule_id : String
  pub accepts : List EventType
  pub worker : String
  pub action : String
  pub reason : Option String
  pub base_priority : ℤ
  pub required_tags : List String
  pub excluded_tags : List String
  pub predicate : Option (Event → RoutingContext → Bool)

-- `_normalize_tags`
unfoldable pub normalize_tags : List String → List String
normalize_tags tags =
    set_of (keep (λ value. not (is_blank value)) (map (λ tag. lower (strip tag)) tags))

is_empty : List EventType → Bool
is_empty [] = true
is_empty (t ∷ ts) = false

normalize_reason : Option String → Option String
normalize_reason none = none
normalize_reason (some reason) = strip_or_none reason

-- `RouteRule.__post_init__`; the members of `accepts` are event types by their type here.
unfoldable pub make_rule : RouteRule → Result RouteRule
unfolding is_empty normalize_reason
make_rule r =
    let required_tags = normalize_tags r.required_tags in
    let excluded_tags = normalize_tags r.excluded_tags in
    if is_blank (strip r.rule_id)
    then err value_error
    else if is_blank (strip r.worker)
    then err value_error
    else if is_blank (strip r.action)
    then err value_error
    else if is_empty r.accepts
    then err value_error
    else if overlaps required_tags excluded_tags
    then err value_error
    else ok (record r {
      rule_id = strip r.rule_id;
      worker = strip r.worker;
      action = strip r.action;
      reason = normalize_reason r.reason;
      required_tags = required_tags;
      excluded_tags = excluded_tags;
    })

unfoldable pub holds : Option (Event → RoutingContext → Bool) → Event → RoutingContext → Bool
holds none event context = true
holds (some predicate) event context = predicate event context

-- `RouteRule.matches`
unfoldable pub matches : RouteRule → Event → RoutingContext → Bool
unfolding holds
matches r event context =
    let event_tags = normalize_tags event.tags in
    if not (member event.event_type r.accepts)
    then false
    else if not (rule_enabled context r.rule_id)
    then false
    else if not (worker_enabled context r.worker)
    then false
    else if not (is_subset r.required_tags event_tags)
    then false
    else if overlaps r.excluded_tags event_tags
    then false
    else holds r.predicate event context

-- `self.reason or (…)`
routing_reason_of : Option String → String → String
routing_reason_of none text = text
routing_reason_of (some reason) text = if is_blank reason then text else reason

-- `RouteRule.build_task`: the arguments of `Task`, with its defaults, validated. The identifier of
-- the new task and the clock are arguments.
unfoldable pub build_task : RouteRule → Event → RoutingContext → String → ℕ → Result Task
unfolding routing_reason_of
build_task r event context task_id now = validate (record {
  task_id = task_id;
  worker = r.worker;
  action = r.action;
  input_event_id = event.event_id;
  input_identity_key = some (identity_key event);
  branch_id = context.branch_id;
  route_rule_id = some r.rule_id;
  routing_reason = some (
      routing_reason_of r.reason (
        str_append (type_value event.event_type)
          (str_append " event matched route " (str_append r.worker (str_append ":" r.action)))));
  status = pending;
  priority = r.base_priority +ℤ context.priority_bias;
  attempts = 0;
  max_attempts = 3;
  created_at = now;
  updated_at = now;
  available_at = now;
  started_at = none;
  finished_at = none;
  lease_expires_at = none;
  claim_token = none;
  last_error = none;
  search_tier = none;
  candidate_limit_hint = none;
})
