-- ===== src/Router/Expansion.antt =====
-- `rules_for`, `matching_rules` and `expand` of the router (recon/core/router.py).
use night_scout.Prelude.{
  String, ◌≡◌, refl, sym, ap, subst, ◌∙◌, ◌⊎◌, ◌↔◌, inl, inr, Bool, true, false, Option, none, some,
  List, [], ◌∷◌, ◌==◌, ==_iff, arith, All, All-map, keep, map, string_eq, Bool-cases, Option-cases,
}
use night_scout.Prelude.Sets.{member, NoRepeat, is_subset, overlaps}
use night_scout.Prelude.Exec.{ok}
use night_scout.Events.{Event, EventType, type_eq}
use night_scout.Router.Rules.{
  RoutingContext, RouteRule, holds, matches, worker_enabled, rule_enabled, normalize_tags,
}
use night_scout.Router.Registry.{Router, rule_at, cons_rule, rules_of, rules_for, matching_rules}
use night_scout.Router.Laws.{IsIndexed, is_accepted_by}

abbrev pub rule_ids : List RouteRule → List String
rule_ids rs = map (λ r. r.rule_id) rs

-- a rule that the router stores under its identifier
IsStored : Router → RouteRule → Type 0
IsStored s r = rule_at s r.rule_id ≡ some r

rules_of_lem :
    (ids : List String) (s : Router) (t : EventType)
    → IsIndexed s
    → ((k : String) → member k ids ≡ true → is_accepted_by t (rule_at s k) ≡ true)
    → (rs : List RouteRule) × (rules_of ids s ≡ ok rs) × (rule_ids rs ≡ ids) × All (IsStored s) rs
unfolding rules_of IsStored
rules_of_lem [] s t w h = ([], refl, refl, tt)
rules_of_lem (k ∷ ids) s t w h =
    let (rs, found, names, stored) =
      rules_of_lem ids s t w (λ j inside. h j (ground (arith, inside))) in
    elim (Option-cases (rule_at s k)) [
      | inl missing ↦
          let no_rule = h k (ground (arith, ==_iff k k)) in
          absurd (ground (arith, missing, no_rule))
      | inr (r, at) ↦
          let own : r.rule_id ≡ k = w.own k r at in
          (
            r ∷ rs,
            rw (at, found, cons_rule) refl,
            cc (own, names),
            (subst (λ j. rule_at s j ≡ some r) (sym own) at, stored),
          )
    ]

module _ (s : Router) (p : RouteRule → Bool) where
  keep-stored :
      (rs : List RouteRule)
      → All (IsStored s) rs
      → All (λ r. (rule_at s r.rule_id ≡ some r) × (p r ≡ true)) (keep p rs)
  unfolding IsStored
  keep-stored [] h = tt
  keep-stored (r ∷ rs) h = let ih = keep-stored rs h.1 in ground (arith, ih, h.0)

  member-keep :
      (k : String) (rs : List RouteRule)
      → member k (rule_ids (keep p rs)) ≡ true
      → member k (rule_ids rs) ≡ true
  member-keep k [] h = absurd (ground arith)
  member-keep k (r ∷ rs) h = ground (arith, h, member-keep k rs)

  NoRepeat-keep : (rs : List RouteRule) → NoRepeat (rule_ids rs) → NoRepeat (rule_ids (keep p rs))
  NoRepeat-keep [] h = tt
  NoRepeat-keep (r ∷ rs) h =
      let ih = NoRepeat-keep rs h.1 in ground (arith, ih, h.0, member-keep r.rule_id rs)

  keep-member :
      (k : String) (r : RouteRule) (rs : List RouteRule)
      → All (IsStored s) rs
      → rule_at s k ≡ some r
      → p r ≡ true
      → member k (rule_ids rs) ≡ true
      → member k (rule_ids (keep p rs)) ≡ true
  unfolding IsStored
  keep-member k r [] h at holds inside = absurd (ground arith)
  keep-member k r (q ∷ rs) h at holds inside = elim (Bool-cases (k == q.rule_id)) [
    | inl same ↦
        let stored : rule_at s k ≡ some q =
          subst (λ j. rule_at s j ≡ some q) (sym ((==_iff k q.rule_id).0 same)) h.0 in
        let is : q ≡ r = ground (arith, stored, at) in
        let kept : p q ≡ true = subst (λ x. p x ≡ true) (sym is) holds in
        rw kept (ground (arith, same))
    | inr other ↦
        let ih = keep-member k r rs h.1 at holds (ground (arith, inside, other)) in
        ground (arith, ih)
  ]

matches-accepts :
    (r : RouteRule) (event : Event) (context : RoutingContext)
    → matches r event context ≡ true
    → member event.event_type r.accepts ≡ true
unfolding matches
matches-accepts r event context h = ground (arith, h)

-- an event that a rule is for: of an accepted type, rule and worker not disabled, with every required tag
-- and no excluded one, and accepted by the rule's predicate if it has one
pub record IsMatch (r : RouteRule) (event : Event) (context : RoutingContext) : Type 0 where
  pub accepted : member event.event_type r.accepts ≡ true
  pub rule_runs : member r.rule_id context.disabled_rules ≡ false
  pub worker_runs : member r.worker context.disabled_workers ≡ false
  pub required : is_subset r.required_tags (normalize_tags event.tags) ≡ true
  pub excluded : overlaps r.excluded_tags (normalize_tags event.tags) ≡ false
  pub passes :
      (r.predicate ≡ none)
      ⊎ ((predicate : Event → RoutingContext → Bool) × (r.predicate ≡ some predicate)
          × (predicate event context ≡ true))

holds_iff :
    (o : Option (Event → RoutingContext → Bool)) (event : Event) (context : RoutingContext)
    → (holds o event context ≡ true) ↔ (
        (o ≡ none)
        ⊎ ((predicate : Event → RoutingContext → Bool) × (o ≡ some predicate)
            × (predicate event context ≡ true)))
unfolding holds
holds_iff none event context = (λ _. inl refl, λ _. refl)
holds_iff (some p) event context = (
  λ h. inr (p, refl, h),
  λ h. elim h [
    | inl no_predicate ↦ absurd (ground (arith, no_predicate))
    | inr (q, same, h) ↦ let is : p ≡ q = ground (arith, same) in ap (λ f. f event context) is ∙ h
  ],
)

matches_iff :
    (r : RouteRule) (event : Event) (context : RoutingContext)
    → (matches r event context ≡ true) ↔ IsMatch r event context
unfolding matches worker_enabled rule_enabled
matches_iff r event context =
    let predicate = holds_iff r.predicate event context in
    (
      λ h. record {
        accepted = ground (arith, h);
        rule_runs = ground (arith, h);
        worker_runs = ground (arith, h);
        required = ground (arith, h);
        excluded = ground (arith, h);
        passes = predicate.0 (ground (arith, h));
      },
      λ m. let passes = predicate.1 m.passes in ground (arith, m, passes),
    )

-- the same, in the terms of the source's test
matching_rules-stored :
    (event : Event) (context : RoutingContext) (s : Router)
    → IsIndexed s
    → (rs : List RouteRule) × (matching_rules event context s ≡ ok rs)
      × All (λ r. (rule_at s r.rule_id ≡ some r) × (matches r event context ≡ true)) rs
      × NoRepeat (rule_ids rs)
      × ((k : String) (r : RouteRule)
          → rule_at s k ≡ some r
          → matches r event context ≡ true
          → member k (rule_ids rs) ≡ true)
unfolding matching_rules rules_for
matching_rules-stored event context s w =
    let t = event.event_type in
    let p = λ (r : RouteRule). matches r event context in
    let (rs, found, names, stored) =
      rules_of_lem (s.by_event_type t) s t w (λ k inside. sym (w.listed k t) ∙ inside) in
    (
      keep p rs,
      rw found refl,
      keep-stored s p rs stored,
      NoRepeat-keep s p rs (subst NoRepeat (sym names) (w.once t)),
      λ k r at holds. keep-member s p k r rs stored at holds (
          rw names
            (w.listed k t ∙ ap (is_accepted_by t) at ∙ matches-accepts r event context holds)),
    )

-- In a well-indexed router, `matching_rules` never raises: it returns rules that the router stores and that
-- are for the event, none of them twice, and every stored rule that is for the event is among them. A rule
-- is for an event of a type it accepts, if neither the rule nor its worker is disabled, the event has every
-- required tag and no excluded one, and the rule's predicate, if there is one, holds.
pub matching_rules_lem :
    (event : Event) (context : RoutingContext) (s : Router)
    → IsIndexed s
    → (rs : List RouteRule) × (matching_rules event context s ≡ ok rs)
      × All (λ r. (rule_at s r.rule_id ≡ some r) × IsMatch r event context) rs
      × NoRepeat (rule_ids rs)
      × ((k : String) (r : RouteRule)
          → rule_at s k ≡ some r
          → IsMatch r event context
          → member k (rule_ids rs) ≡ true)
matching_rules_lem event context s w =
    let (rs, returns, sound, once, complete) = matching_rules-stored event context s w in
    (
      rs,
      returns,
      All-map rs (λ r h. (h.0, (matches_iff r event context).0 h.1)) sound,
      once,
      λ k r at is. complete k r at ((matches_iff r event context).1 is),
    )
