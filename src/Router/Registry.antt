-- ===== src/Router/Registry.antt =====
-- `Router` (recon/core/router.py): the rules by identifier, and for each event type the identifiers
-- of the rules that accept it, in the order of their registration.
use night_scout.Prelude.{
  ℕ, String, Option, none, some, List, [], ◌∷◌, ◌++◌, ◌==◌, keep, length, if◌then◌else◌, string_eq,
}
use night_scout.Prelude.Dict
use night_scout.Prelude.Dict.{Dict}
use night_scout.Prelude.Text.{strip, is_blank}
use night_scout.Prelude.Sets.{member}
use night_scout.Prelude.Exec.{value_error, key_error, Result, ok, err, Exec, ◌>>=◌, after}
use night_scout.Queue.Task.{Task}
use night_scout.Events.{Event, EventType, type_eq}
use night_scout.Router.Rules.{RoutingContext, RouteRule, matches, build_task}

pub record Router : Type 0 where
  pub rules : Dict String RouteRule
  -- every event type has its list
  pub by_event_type : EventType → List String

abbrev pub empty_router : Router
empty_router = record { rules = Dict.empty; by_event_type = λ event_type. [] }

-- `self._by_event_type[event_type] = ids`
abbrev pub set_ids : EventType → List String → Router → Router
set_ids event_type ids s = record s {
  by_event_type = λ t. if t == event_type then ids else s.by_event_type t;
}

-- the loop of `register`
unfoldable pub index_rule : String → List EventType → Router → Router
index_rule rule_id [] s = s
index_rule rule_id (event_type ∷ accepts) s =
    index_rule rule_id accepts (set_ids event_type (s.by_event_type event_type ++ (rule_id ∷ [])) s)

-- `Router.register`
unfoldable pub register : RouteRule → Exec Router (Unit {0})
register rule s = if Dict.contains s.rules rule.rule_id then (err value_error, s) else (
  ok tt,
  index_rule rule.rule_id rule.accepts (record s { rules = Dict.put s.rules rule.rule_id rule }),
)

-- the first loop of `register_many`
unfoldable pub check_batch : List RouteRule → List String → Router → Result (Unit {0})
check_batch [] seen s = ok tt
check_batch (rule ∷ incoming) seen s =
    let rest = check_batch incoming (rule.rule_id ∷ seen) s in
    if member rule.rule_id seen
    then err value_error
    else if Dict.contains s.rules rule.rule_id
    then err value_error
    else rest

-- the second loop of `register_many`
unfoldable pub register_all : List RouteRule → Exec Router (Unit {0})
register_all [] s = (ok tt, s)
register_all (rule ∷ incoming) s = after (register rule s) λ _ t. register_all incoming t

-- `Router.register_many`
unfoldable pub register_many : List RouteRule → Exec Router (Unit {0})
register_many incoming s = after (check_batch incoming [] s, s) λ _ t. register_all incoming t

-- `list.remove`, which raises on a missing element
unfoldable pub list_remove : String → List String → Result (List String)
list_remove x [] = err value_error
list_remove x (y ∷ ys) =
    let rest = list_remove x ys in if x == y then ok ys else rest >>= λ zs. ok (y ∷ zs)

-- the loop of `unregister`
unfoldable pub unindex_rule : String → List EventType → Exec Router (Unit {0})
unindex_rule rule_id [] s = (ok tt, s)
unindex_rule rule_id (event_type ∷ accepts) s =
    after (list_remove rule_id (s.by_event_type event_type), s)
      λ ids t. unindex_rule rule_id accepts (set_ids event_type ids t)

unfoldable pub drop_rule : Option RouteRule → String → Exec Router RouteRule
drop_rule none normalized s = (err key_error, s)
drop_rule (some rule) normalized s =
    after
      (unindex_rule rule.rule_id rule.accepts (record s { rules = Dict.remove s.rules normalized }))
      λ _ t. (ok rule, t)

-- `Router.unregister`
unfoldable pub unregister : String → Exec Router RouteRule
unfolding drop_rule
unregister rule_id s =
    if is_blank (strip rule_id)
    then (err value_error, s)
    else drop_rule (Dict.get s.rules (strip rule_id)) (strip rule_id) s

-- `Router.get`
abbrev pub rule_at : Router → String → Option RouteRule
rule_at s rule_id = Dict.get s.rules rule_id

unfoldable pub cons_rule : Option RouteRule → Result (List RouteRule) → Result (List RouteRule)
cons_rule none rest = err key_error
cons_rule (some rule) rest = rest >>= λ rules. ok (rule ∷ rules)

-- `self._rules[rule_id] for rule_id in …`
unfoldable pub rules_of : List String → Router → Result (List RouteRule)
unfolding cons_rule
rules_of [] s = ok []
rules_of (rule_id ∷ ids) s = cons_rule (rule_at s rule_id) (rules_of ids s)

-- `Router.rules_for`
unfoldable pub rules_for : EventType → Router → Result (List RouteRule)
rules_for event_type s = rules_of (s.by_event_type event_type) s

-- `Router.matching_rules`
unfoldable pub matching_rules : Event → RoutingContext → Router → Result (List RouteRule)
matching_rules event context s =
    rules_for event.event_type s >>= λ rules. ok (keep (λ rule. matches rule event context) rules)

-- the list of `expand`; each rule's task has an identifier of its own
unfoldable pub build_all :
    List RouteRule → Event → RoutingContext → (RouteRule → String) → ℕ → Result (List Task)
build_all [] event context new_id now = ok []
build_all (rule ∷ rules) event context new_id now =
    build_task rule event context (new_id rule) now >>= λ task.
    build_all rules event context new_id now >>= λ tasks. ok (task ∷ tasks)

-- `Router.expand`
unfoldable pub expand :
    Event → RoutingContext → (RouteRule → String) → ℕ → Router → Result (List Task)
expand event context new_id now s =
    matching_rules event context s >>= λ rules. build_all rules event context new_id now

-- `Router.rule_count`
unfoldable pub rule_count : Router → ℕ
rule_count s = length (Dict.items s.rules)
