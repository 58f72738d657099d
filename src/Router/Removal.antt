-- ===== src/Router/Removal.antt =====
-- `Router.unregister` (recon/core/router.py).
use night_scout.Prelude.{
  String, ◌≡◌, refl, sym, ap, subst, ◌∙◌, inl, inr, true, false, not, none, some, List, [], ◌∷◌,
  ◌++◌, ◌==◌, ==_iff, arith, keep, if◌then◌else◌, string_eq, Bool-cases,
}
use night_scout.Prelude.Dict
use night_scout.Prelude.Dict.{get-remove}
use night_scout.Prelude.Text.{strip, is_blank}
use night_scout.Prelude.Sets.{member, NoRepeat}
use night_scout.Prelude.Exec.{ok, after-ok}
use night_scout.Events.{EventType, type_eq}
use night_scout.Router.Rules.{RouteRule}
use night_scout.Router.Registry.{
  Router, set_ids, register, list_remove, unindex_rule, unregister, drop_rule, rule_at,
}
use night_scout.Router.Laws.{IsIndexed, added, added-rule, added-ids, added-IsIndexed, register-new}

-- the list without the text
abbrev pub without : String → List String → List String
without x ys = keep (λ y. not (x == y)) ys

without-absent : (x : String) (ys : List String) → member x ys ≡ false → without x ys ≡ ys
without-absent x [] h = refl
without-absent x (y ∷ ys) h = ground (arith, without-absent x ys, h)

member-without :
    (x k : String) (ys : List String)
    → member k (without x ys) ≡ (if x == k then false else member k ys)
member-without x k [] = ground arith
member-without x k (y ∷ ys) =
    ground (arith, member-without x k ys, ==_iff x y, ==_iff x k, ==_iff k y)

NoRepeat-without : (x : String) (ys : List String) → NoRepeat ys → NoRepeat (without x ys)
NoRepeat-without x [] h = tt
NoRepeat-without x (y ∷ ys) h =
    let ih = NoRepeat-without x ys h.1 in ground (arith, ih, member-without x y ys, h.0)

list_remove-without :
    (x : String) (ys : List String)
    → NoRepeat ys
    → member x ys ≡ true
    → list_remove x ys ≡ ok (without x ys)
unfolding list_remove
list_remove-without x [] once h = absurd (ground arith)
list_remove-without x (y ∷ ys) once h = elim (Bool-cases (x == y)) [
  | inl same ↦
      let new : member x ys ≡ false =
        subst (λ z. member z ys ≡ false) (sym ((==_iff x y).0 same)) once.0 in
      rw same (ap ok (sym (without-absent x ys new)))
  | inr other ↦ rw (other, list_remove-without x ys once.1 (ground (arith, other, h))) refl
]

without-snoc :
    (x : String) (ys : List String) → member x ys ≡ false → without x (ys ++ (x ∷ [])) ≡ ys
without-snoc x [] h = ground (arith, ==_iff x x)
without-snoc x (y ∷ ys) h = ground (arith, without-snoc x ys, h)

apart :
    (t e : EventType) (ts : List EventType)
    → member t ts ≡ true
    → member e ts ≡ false
    → (t == e) ≡ false
apart t e ts inside out = elim (Bool-cases (t == e)) [
  | inl same ↦
      let there : member e ts ≡ true =
        subst (λ x. member x ts ≡ true) ((==_iff t e).0 same) inside in
      absurd (cc (there, out))
  | inr other ↦ other
]

-- what the loop of `unregister` leaves
record IsUnindexed (id : String) (ts : List EventType) (s s' : Router) : Type 0 where
  pub rules : s'.rules ≡ s.rules
  pub ids :
      (t : EventType)
      → s'.by_event_type t
        ≡ (if member t ts then without id (s.by_event_type t) else s.by_event_type t)

unindex_rule-IsUnindexed :
    (id : String) (ts : List EventType) (s : Router)
    → NoRepeat ts
    → ((t : EventType) → NoRepeat (s.by_event_type t))
    → ((t : EventType) → member t ts ≡ true → member id (s.by_event_type t) ≡ true)
    → ((unindex_rule id ts s).0 ≡ ok tt) × IsUnindexed id ts s (unindex_rule id ts s).1
unfolding unindex_rule
unindex_rule-IsUnindexed id [] s types once has = (refl, record { rules = refl; ids = λ t. refl })
unindex_rule-IsUnindexed id (e ∷ ts) s types once has =
    let s1 = set_ids e (without id (s.by_event_type e)) s in
    let here =
      list_remove-without id (s.by_event_type e) (once e) (has e (ground (arith, ==_iff e e))) in
    let once1 : (t : EventType) → NoRepeat (s1.by_event_type t) = λ t.
      let gone = NoRepeat-without id (s.by_event_type e) (once e) in
      let o = once t in ground (arith, gone, o) in
    let has1 : (t : EventType) → member t ts ≡ true → member id (s1.by_event_type t) ≡ true =
      λ t inside. rw (apart t e ts inside types.0) (has t (ground (arith, inside))) in
    let (done, rest) = unindex_rule-IsUnindexed id ts s1 types.1 once1 has1 in
    rw here (
      done,
      record {
        rules = rest.rules;
        ids = λ t. elim (Bool-cases (t == e)) [
          | inl same ↦
              let is : t ≡ e = (==_iff t e).0 same in
              let fresh : member t ts ≡ false = subst (λ x. member x ts ≡ false) (sym is) types.0 in
              let moved : s.by_event_type e ≡ s.by_event_type t = ap s.by_event_type (sym is) in
              ground (arith, rest.ids t, same, fresh, moved)
          | inr other ↦ ground (arith, rest.ids t, other)
        ];
      },
    )

-- The rule that the identifier names is removed: afterwards it is neither stored nor listed for any
-- event type, and all else is as before.
pub record IsWithout (id : String) (s s' : Router) : Type 0 where
  pub rules : (k : String) → rule_at s' k ≡ (if id == k then none else rule_at s k)
  pub ids : (t : EventType) → s'.by_event_type t ≡ without id (s.by_event_type t)

IsIndexed-without : (id : String) (s s' : Router) → IsIndexed s → IsWithout id s s' → IsIndexed s'
IsIndexed-without id s s' w gone = record {
  own = λ k r at. w.own k r (ground (arith, gone.rules k, at));
  types = λ k r at. w.types k r (ground (arith, gone.rules k, at));
  listed = λ k t.
      ground
        (arith, gone.rules k, gone.ids t, member-without id k (s.by_event_type t), w.listed k t);
  once =
      λ t. subst NoRepeat (sym (gone.ids t)) (NoRepeat-without id (s.by_event_type t) (w.once t));
}

module _ (name : String) (s : Router) (r : RouteRule) (w : IsIndexed s)
    (named : is_blank (strip name) ≡ false) (at : rule_at s (strip name) ≡ some r) where
  left : Router
  left = record s { rules = Dict.remove s.rules (strip name) }

  unindexed :
      ((unindex_rule r.rule_id r.accepts left).0 ≡ ok tt)
      × IsUnindexed r.rule_id r.accepts left (unindex_rule r.rule_id r.accepts left).1
  unfolding left
  unindexed =
      unindex_rule-IsUnindexed r.rule_id r.accepts left (w.types (strip name) r at) w.once
        (λ t accepted. ground (arith, w.listed r.rule_id t, w.own (strip name) r at, at, accepted))

  unregister-found : unregister name s ≡ (ok r, (unindex_rule r.rule_id r.accepts left).1)
  unfolding unregister drop_rule left
  unregister-found =
      rw (named, at)
        (after-ok (unindex_rule r.rule_id r.accepts left) tt (λ _ t. (ok r, t)) unindexed.0)

  unindexed-IsWithout : IsWithout (strip name) s (unindex_rule r.rule_id r.accepts left).1
  unfolding left
  unindexed-IsWithout = record {
    rules = λ k. ap (λ d. Dict.get d k) unindexed.1.rules ∙ get-remove s.rules (strip name) k;
    ids = λ t.
        let same : r.rule_id ≡ strip name = w.own (strip name) r at in
        let out : member t r.accepts ≡ false
            → without (strip name) (s.by_event_type t) ≡ s.by_event_type t =
          λ no_type.
            without-absent (strip name) (s.by_event_type t)
              (ground (arith, w.listed (strip name) t, at, no_type)) in
        let listed =
          subst
            (λ x.
              (unindex_rule r.rule_id r.accepts left).1.by_event_type t
              ≡ (if member t r.accepts then without x (s.by_event_type t) else s.by_event_type t))
            same (unindexed.1.ids t) in
        ground (arith, listed, out);
  }

restored :
    (r : RouteRule) (s : Router)
    → IsIndexed s
    → rule_at s r.rule_id ≡ none
    → NoRepeat r.accepts
    → (t : EventType) → without r.rule_id ((added r s).by_event_type t) ≡ s.by_event_type t
restored r s w new types t =
    let unlisted : member r.rule_id (s.by_event_type t) ≡ false =
      ground (arith, w.listed r.rule_id t, new) in
    ground (
      arith,
      added-ids r s t types,
      without-snoc r.rule_id (s.by_event_type t) unlisted,
      without-absent r.rule_id (s.by_event_type t) unlisted,
    )

-- In a well-indexed router, `unregister` of a name whose stripped form is a rule's identifier
-- returns that rule; the router afterwards stores all other rules as before, each event type's list
-- has lost that identifier and nothing else, and the router is well indexed.
pub unregister_lem :
    (name : String) (s : Router) (r : RouteRule)
    → IsIndexed s
    → is_blank (strip name) ≡ false
    → rule_at s (strip name) ≡ some r
    → (s' : Router) × (unregister name s ≡ (ok r, s')) × IsWithout (strip name) s s' × IsIndexed s'
unregister_lem name s r w named at =
    let gone = unindexed-IsWithout name s r w named at in
    (
      (unindex_rule r.rule_id r.accepts (left name s r w named at)).1,
      unregister-found name s r w named at,
      gone,
      IsIndexed-without (strip name) s _ w gone,
    )

-- Removing a rule that was just registered brings a well-indexed router back: the same rules and,
-- in the same order, the same lists. The rule is new, its event types are a set, and its identifier
-- is stripped and not blank.
pub unregister-register :
    (r : RouteRule) (s : Router)
    → IsIndexed s
    → rule_at s r.rule_id ≡ none
    → NoRepeat r.accepts
    → strip r.rule_id ≡ r.rule_id
    → is_blank r.rule_id ≡ false
    → (s' : Router) × (unregister r.rule_id (register r s).1 ≡ (ok r, s'))
      × ((k : String) → rule_at s' k ≡ rule_at s k)
      × ((t : EventType) → s'.by_event_type t ≡ s.by_event_type t)
unregister-register r s w new types stripped named =
    let at : rule_at (added r s) (strip r.rule_id) ≡ some r =
      ground
        (arith, added-rule r s (strip r.rule_id), ==_iff r.rule_id (strip r.rule_id), stripped) in
    let (s', does, gone, _) =
      unregister_lem r.rule_id (added r s) r (added-IsIndexed r s new types w) (rw stripped named)
        at in
    rw (register-new r s new) (
      s',
      does,
      (λ k. ground (
        arith,
        gone.rules k,
        added-rule r s k,
        new,
        ==_iff r.rule_id k,
        ==_iff (strip r.rule_id) k,
        stripped,
      )),
      (λ t. gone.ids t ∙ rw (stripped) (restored r s w new types t)),
    )
