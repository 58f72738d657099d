-- ===== src/Router/Laws.antt =====
-- What registration and removal (recon/core/router.py) do to the registry.
use night_scout.Prelude.{
  String, ◌≡◌, refl, sym, ap, subst, ◌∙◌, inl, inr, Bool, false, Option, none, some, List, [], ◌∷◌,
  ◌++◌, ◌==◌, ==_iff, arith, if◌then◌else◌, string_eq, Bool-cases,
}
use night_scout.Prelude.Dict
use night_scout.Prelude.Dict.{Dict, get-put, get-remove, get-empty}
use night_scout.Prelude.Sets.{member, NoRepeat, member-append, NoRepeat-snoc}
use night_scout.Prelude.Exec.{value_error, ok, err}
use night_scout.Events.{EventType, type_eq}
use night_scout.Router.Rules.{RouteRule}
use night_scout.Router.Registry.{Router, empty_router, set_ids, index_rule, register, rule_at}

pub index_rule-rules :
    (id : String) (ts : List EventType) (s : Router) → (index_rule id ts s).rules ≡ s.rules
unfolding index_rule
index_rule-rules id [] s = refl
index_rule-rules id (t ∷ ts) s =
    index_rule-rules id ts (set_ids t (s.by_event_type t ++ (id ∷ [])) s)

pub index_rule-ids :
    (id : String) (ts : List EventType) (s : Router) (t : EventType)
    → NoRepeat ts
    → (index_rule id ts s).by_event_type t
      ≡ (if member t ts then s.by_event_type t ++ (id ∷ []) else s.by_event_type t)
unfolding index_rule
index_rule-ids id [] s t once = refl
index_rule-ids id (e ∷ ts) s t once =
    let ih = index_rule-ids id ts (set_ids e (s.by_event_type e ++ (id ∷ [])) s) t once.1 in
    elim (Bool-cases (t == e)) [
      | inl same ↦
          let here : t ≡ e = (==_iff t e).0 same in
          let fresh : member t ts ≡ false = subst (λ x. member x ts ≡ false) (sym here) once.0 in
          let moved : s.by_event_type e ≡ s.by_event_type t = ap s.by_event_type (sym here) in
          ground (arith, ih, same, fresh, moved)
      | inr other ↦ ground (arith, ih, other)
    ]

-- whether the rule, if there is one, accepts the type
abbrev pub is_accepted_by : EventType → Option RouteRule → Bool
is_accepted_by t none = false
is_accepted_by t (some r) = member t r.accepts

pub record IsIndexed (s : Router) : Type 0 where
  -- rules stand under their own identifiers
  pub own : (k : String) (r : RouteRule) → rule_at s k ≡ some r → r.rule_id ≡ k
  pub types : (k : String) (r : RouteRule) → rule_at s k ≡ some r → NoRepeat r.accepts
  -- the list of a type has exactly the rules that accept it, each once
  pub listed :
      (k : String) (t : EventType) → member k (s.by_event_type t) ≡ is_accepted_by t (rule_at s k)
  pub once : (t : EventType) → NoRepeat (s.by_event_type t)

pub empty_router-IsIndexed : IsIndexed empty_router
empty_router-IsIndexed = record {
  own = λ k r at. absurd (ground (arith, get-empty {V = RouteRule} k, at));
  types = λ k r at. absurd (ground (arith, get-empty {V = RouteRule} k, at));
  listed = λ k t. ground (arith, get-empty {V = RouteRule} k);
  once = λ t. tt;
}

module _ (r : RouteRule) (s : Router) where
  unfoldable pub added : Router
  added = index_rule r.rule_id r.accepts (record s { rules = Dict.put s.rules r.rule_id r })

  pub added-rule : (k : String) → rule_at added k ≡ (if r.rule_id == k then some r else rule_at s k)
  unfolding added
  added-rule k =
      ap (λ d. Dict.get d k)
        (index_rule-rules r.rule_id r.accepts (record s { rules = Dict.put s.rules r.rule_id r }))
      ∙ get-put s.rules r.rule_id k r

  pub added-ids :
      (t : EventType)
      → NoRepeat r.accepts
      → added.by_event_type t
        ≡ (if member t r.accepts then s.by_event_type t ++ (r.rule_id ∷ []) else s.by_event_type t)
  unfolding added
  added-ids t types =
      index_rule-ids r.rule_id r.accepts (record s { rules = Dict.put s.rules r.rule_id r }) t types

  pub added-IsIndexed :
      rule_at s r.rule_id ≡ none → NoRepeat r.accepts → IsIndexed s → IsIndexed added
  added-IsIndexed new types w = record {
    own = λ k q at. ground (arith, added-rule k, at, ==_iff r.rule_id k, w.own k q);
    types = λ k q at. elim (Bool-cases (r.rule_id == k)) [
      | inl same ↦
          let e : r ≡ q = ground (arith, added-rule k, at, same) in
          subst (λ x. NoRepeat x.accepts) e types
      | inr other ↦ w.types k q (ground (arith, added-rule k, at, other))
    ];
    listed = λ k t. ground (
      arith,
      added-rule k,
      added-ids t types,
      member-append k (s.by_event_type t) (r.rule_id ∷ []),
      ==_iff r.rule_id k,
      ==_iff k r.rule_id,
      w.listed k t,
      w.listed r.rule_id t,
      new,
    );
    once = λ t. subst NoRepeat (sym (added-ids t types)) (elim (Bool-cases (member t r.accepts)) [
      | inl accepted ↦ rw accepted (
          NoRepeat-snoc r.rule_id (s.by_event_type t) (ground (arith, w.listed r.rule_id t, new))
            (w.once t))
      | inr refused ↦ rw refused (w.once t)
    ]);
  }

-- Registering a new rule: it is stored, and each type that it accepts lists it last.
pub register-new :
    (r : RouteRule) (s : Router) → rule_at s r.rule_id ≡ none → register r s ≡ (ok tt, added r s)
unfolding register added
register-new r s new = ground (arith, new)

pub register-known :
    (r q : RouteRule) (s : Router)
    → rule_at s r.rule_id ≡ some q
    → register r s ≡ (err value_error, s)
unfolding register
register-known r q s known = ground (arith, known)
