-- ===== src/Router/Tests.antt =====
-- The router (recon/core/router.py) on small inputs, and its theorems at such inputs.
use night_scout.Prelude.{String, ◌≡◌, refl, ◌⊎◌, true, none, some, List, [], ◌∷◌, All, string_eq}
use night_scout.Prelude.Dict
use night_scout.Prelude.Int.{pos}
use night_scout.Prelude.Text.{strip, lower}
use night_scout.Prelude.Sets.{member, NoRepeat, set_of}
use night_scout.Prelude.Exec.{value_error, ok, err}
use night_scout.Events.{Event, EventType, dns_name, url, unknown, type_eq, type_beq}
use night_scout.Router.Rules.{
  RoutingContext, RouteRule, matches, normalize_tags, rule_enabled, worker_enabled,
}
use night_scout.Router.Registry.{
  Router, empty_router, register, register_many, unregister, rule_at, matching_rules, check_batch,
  register_all, index_rule, rules_for, rules_of, cons_rule,
}
use night_scout.Router.Laws.{IsIndexed, empty_router-IsIndexed}
use night_scout.Router.Batch.{register-IsIndexed, register_many_lem}
use night_scout.Router.Removal.{IsWithout, unregister_lem, unregister-register}
use night_scout.Router.Expansion.{rule_ids, IsMatch, matching_rules_lem}

abbrev rule : String → RouteRule
rule id = record {
  rule_id = id;
  accepts = dns_name ∷ url ∷ [];
  worker = "http";
  action = "probe";
  reason = none;
  base_priority = pos 5;
  required_tags = "live" ∷ [];
  excluded_tags = [];
  predicate = none;
}

abbrev event : Event
event = record {
  event_id = "evt_1";
  event_type = dns_name;
  value = "a.example.com";
  source = "dns";
  parent_event_id = none;
  first_seen = 0;
  last_seen = 0;
  scope_state = unknown;
  confidence = 0;
  novelty = 0;
  depth = 0;
  tags = " LIVE " ∷ [];
}

abbrev context : RoutingContext
context = record {
  branch_id = none;
  priority_bias = pos 1;
  disabled_workers = [];
  disabled_rules = [];
}

abbrev one_rule : Router
one_rule = (register (rule "r1") empty_router).1

program : Unit {0}
unfolding strip lower Dict.get Dict.put set_of type_beq matches normalize_tags rule_enabled
    worker_enabled register index_rule rules_for rules_of cons_rule matching_rules check_batch
    register_all register_many
program = tt

types_set : NoRepeat (dns_name ∷ url ∷ [])
unfolding program
types_set = (refl, (refl, tt))

one_rule-IsIndexed : IsIndexed one_rule
one_rule-IsIndexed = register-IsIndexed (rule "r1") empty_router types_set empty_router-IsIndexed

stored : rule_at one_rule "r1" ≡ some (rule "r1")
unfolding program
stored = refl

routed : matching_rules event context one_rule ≡ ok (rule "r1" ∷ [])
unfolding program
routed = refl

register-IsIndexed_example : IsIndexed (register (rule "r2") one_rule).1
register-IsIndexed_example = register-IsIndexed (rule "r2") one_rule types_set one_rule-IsIndexed

register_many_lem_example :
    (register_many (rule "r2" ∷ rule "r1" ∷ []) one_rule ≡ (err value_error, one_rule))
    ⊎ (((register_many (rule "r2" ∷ rule "r1" ∷ []) one_rule).0 ≡ ok tt)
        × All
            (λ r.
              rule_at (register_many (rule "r2" ∷ rule "r1" ∷ []) one_rule).1 r.rule_id ≡ some r)
            (rule "r2" ∷ rule "r1" ∷ [])
        × ((k : String) (q : RouteRule)
            → rule_at one_rule k ≡ some q
            → rule_at (register_many (rule "r2" ∷ rule "r1" ∷ []) one_rule).1 k ≡ some q)
        × IsIndexed (register_many (rule "r2" ∷ rule "r1" ∷ []) one_rule).1)
register_many_lem_example =
    register_many_lem (rule "r2" ∷ rule "r1" ∷ []) one_rule (types_set, (types_set, tt))
      one_rule-IsIndexed

unregister_lem_example :
    (s' : Router) × (unregister " r1 " one_rule ≡ (ok (rule "r1"), s'))
    × IsWithout (strip " r1 ") one_rule s'
    × IsIndexed s'
unfolding program
unregister_lem_example = unregister_lem " r1 " one_rule (rule "r1") one_rule-IsIndexed refl refl

unregister-register_example :
    (s' : Router) × (unregister "r2" (register (rule "r2") one_rule).1 ≡ (ok (rule "r2"), s'))
    × ((k : String) → rule_at s' k ≡ rule_at one_rule k)
    × ((t : EventType) → s'.by_event_type t ≡ one_rule.by_event_type t)
unfolding program
unregister-register_example =
    unregister-register (rule "r2") one_rule one_rule-IsIndexed refl types_set refl refl

matching_rules_lem_example :
    (rs : List RouteRule) × (matching_rules event context one_rule ≡ ok rs)
    × All (λ r. (rule_at one_rule r.rule_id ≡ some r) × IsMatch r event context) rs
    × NoRepeat (rule_ids rs)
    × ((k : String) (r : RouteRule)
        → rule_at one_rule k ≡ some r
        → IsMatch r event context
        → member k (rule_ids rs) ≡ true)
matching_rules_lem_example = matching_rules_lem event context one_rule one_rule-IsIndexed
